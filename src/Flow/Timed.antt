-- ===== src/Flow/Timed.antt =====
-- Deques of timed entries, oldest first: popping the expired ones off the front, and the entries of
-- the trailing window.
use net_sentinel.Base.{
  ◌≡◌, refl, sym, ap, ◌∙◌, if◌then◌else◌, List, [], ◌∷◌, ◌++◌, ℤ, ltb_ℤ, ◌≤ℤ◌, arith, Bool-cases,
  inl, inr,
}

module _ {A : Type 0} where
  -- The loop that pops the front while it is older than the cutoff.
  abbrev pub drop_before : ℤ → List (ℤ × A) → List (ℤ × A)
  drop_before cutoff [] = []
  drop_before cutoff ((t, a) ∷ xs) =
      let rest = drop_before cutoff xs in if ltb_ℤ t cutoff then rest else (t, a) ∷ xs

  -- The entries at or after the cutoff, wherever they stand.
  abbrev pub since : ℤ → List (ℤ × A) → List (ℤ × A)
  since cutoff [] = []
  since cutoff ((t, a) ∷ xs) =
      let rest = since cutoff xs in if ltb_ℤ t cutoff then rest else (t, a) ∷ rest

  -- No entry is later than `now`.
  abbrev pub UpTo : ℤ → List (ℤ × A) → Type 0
  UpTo now [] = Unit {0}
  UpTo now ((t, a) ∷ xs) = (t ≤ℤ now) × UpTo now xs

  abbrev pub NotBefore : ℤ → List (ℤ × A) → Type 0
  NotBefore now [] = Unit {0}
  NotBefore now ((t, a) ∷ xs) = (now ≤ℤ t) × NotBefore now xs

  -- The times never fall.
  abbrev pub IsSorted : List (ℤ × A) → Type 0
  IsSorted [] = Unit {0}
  IsSorted ((t, a) ∷ xs) = NotBefore t xs × IsSorted xs

  pub UpTo-mono : (s t : ℤ) (xs : List (ℤ × A)) → s ≤ℤ t → UpTo s xs → UpTo t xs
  UpTo-mono s t [] h u = tt
  UpTo-mono s t ((r, a) ∷ xs) h u = (omega arith, UpTo-mono s t xs h u.1)

  since_all : (cutoff : ℤ) (xs : List (ℤ × A)) → NotBefore cutoff xs → since cutoff xs ≡ xs
  since_all cutoff [] h = refl
  since_all cutoff ((t, a) ∷ xs) h = ground (arith, since_all cutoff xs h.1)

  NotBefore-mono : (s t : ℤ) (xs : List (ℤ × A)) → s ≤ℤ t → NotBefore t xs → NotBefore s xs
  NotBefore-mono s t [] h u = tt
  NotBefore-mono s t ((r, a) ∷ xs) h u = (omega arith, NotBefore-mono s t xs h u.1)

  pub drop_before-since :
      (cutoff : ℤ) (xs : List (ℤ × A)) → IsSorted xs → drop_before cutoff xs ≡ since cutoff xs
  drop_before-since cutoff [] s = refl
  drop_before-since cutoff ((t, a) ∷ xs) s = elim (Bool-cases (ltb_ℤ t cutoff)) [
    | inl old ↦ rw old (drop_before-since cutoff xs s.1)
    | inr kept ↦ rw kept (
        ap (◌∷◌ (t, a)) (sym (since_all cutoff xs (NotBefore-mono cutoff t xs (ground arith) s.0))))
  ]

  -- A later cutoff forgets an earlier one.
  pub since-since : (c d : ℤ) (xs : List (ℤ × A)) → c ≤ℤ d → since d (since c xs) ≡ since d xs
  since-since c d [] h = refl
  since-since c d ((t, a) ∷ xs) h = ground (arith, since-since c d xs h)

  pub since-append : (c : ℤ) (xs ys : List (ℤ × A)) → since c (xs ++ ys) ≡ since c xs ++ since c ys
  since-append c [] ys = refl
  since-append c ((t, a) ∷ xs) ys = ground (arith, since-append c xs ys)

  since-NotBefore : (s c : ℤ) (xs : List (ℤ × A)) → NotBefore s xs → NotBefore s (since c xs)
  since-NotBefore s c [] h = tt
  since-NotBefore s c ((t, a) ∷ xs) h = ground (arith, since-NotBefore s c xs h.1)

  pub since-IsSorted : (c : ℤ) (xs : List (ℤ × A)) → IsSorted xs → IsSorted (since c xs)
  since-IsSorted c [] s = tt
  since-IsSorted c ((t, a) ∷ xs) s =
      ground (arith, since-IsSorted c xs s.1, since-NotBefore t c xs s.0)

  pub since-UpTo : (now c : ℤ) (xs : List (ℤ × A)) → UpTo now xs → UpTo now (since c xs)
  since-UpTo now c [] u = tt
  since-UpTo now c ((t, a) ∷ xs) u = ground (arith, since-UpTo now c xs u.1)

  NotBefore-snoc :
      (s t : ℤ) (a : A) (xs : List (ℤ × A))
      → s ≤ℤ t
      → NotBefore s xs
      → NotBefore s (xs ++ (t, a) ∷ [])
  NotBefore-snoc s t a [] h u = (h, tt)
  NotBefore-snoc s t a ((r, b) ∷ xs) h u = (u.0, NotBefore-snoc s t a xs h u.1)

  pub snoc-IsSorted :
      (t : ℤ) (a : A) (xs : List (ℤ × A)) → UpTo t xs → IsSorted xs → IsSorted (xs ++ (t, a) ∷ [])
  snoc-IsSorted t a [] u s = (tt, tt)
  snoc-IsSorted t a ((r, b) ∷ xs) u s =
      (NotBefore-snoc r t a xs u.0 s.0, snoc-IsSorted t a xs u.1 s.1)

  pub snoc-UpTo :
      (now t : ℤ) (a : A) (xs : List (ℤ × A))
      → t ≤ℤ now
      → UpTo now xs
      → UpTo now (xs ++ (t, a) ∷ [])
  snoc-UpTo now t a [] h u = (h, tt)
  snoc-UpTo now t a ((r, b) ∷ xs) h u = (u.0, snoc-UpTo now t a xs h u.1)

  -- The window after one more entry: slide the old window, or look at all of the history.
  pub slide_window :
      (c d t : ℤ) (a : A) (history : List (ℤ × A))
      → c ≤ℤ d
      → UpTo t history
      → IsSorted history
      → drop_before d (since c history ++ (t, a) ∷ []) ≡ since d (history ++ (t, a) ∷ [])
  slide_window c d t a history h u s =
      drop_before-since d (since c history ++ (t, a) ∷ []) (
        snoc-IsSorted t a (since c history) (since-UpTo t c history u) (since-IsSorted c history s))
      ∙ rw (since-append d (since c history), since-since c d history h, since-append d history)
