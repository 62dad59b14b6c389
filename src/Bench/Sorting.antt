-- ===== src/Bench/Sorting.antt =====
-- `std::sort`, as what it leaves of a vector and `median` of src/bench/bench_analysis.cpp
-- and src/bench/bench_capture.cpp. The order is an argument.
use mathlib.Core.Option.{some-injective}
use net_sentinel.Base.{
  ℕ, zero, suc, ◌+◌, ◌-◌, ◌*◌, ◌/◌, ◌%◌, ◌≡◌, ◌<◌, ◌≤◌, refl, subst, ap, ◌∙◌, arith, Bool, true,
  false, ◌==◌, if◌then◌else◌, Option, none, some, List, [], ◌∷◌, length, get_elem?, get_elem?-some,
  All, All-get_elem?, Bool-cases, inl, inr,
}

-- How many values satisfy a test.
abbrev pub count : {A : Type 0} → (A → Bool) → List A → ℕ
count p [] = 0
count p (x ∷ xs) = (if p x then 1 else 0) + count p xs

module _ {A : Type 0} (less : A → A → Bool) where
  unfoldable pub insert : A → List A → List A
  insert x [] = x ∷ []
  insert x (y ∷ ys) = let rest = insert x ys in if less x y then x ∷ y ∷ ys else y ∷ rest

  unfoldable pub sort : List A → List A
  unfolding insert
  sort [] = []
  sort (x ∷ xs) = insert x (sort xs)

  -- The median; on no values the code reads past the end.
  unfoldable pub median : (mean : A → A → A) → List A → Option A
  unfolding sort
  median mean values =
      let v = sort values in
      let n = length v in
      let middle = get_elem? v (n / 2) in
      if n % 2 == 1 then middle else elim (get_elem? v (n / 2 - 1)) [
        | none ↦ none
        | some lower ↦ elim middle [ none ↦ none | some upper ↦ some (mean lower upper) ]
      ]

  abbrev pub IsSorted : List A → Type 0
  IsSorted [] = Unit
  IsSorted (x ∷ xs) = All (λ y. less y x ≡ false) xs × IsSorted xs

  count-insert :
      (p : A → Bool) (x : A) (ys : List A)
      → count p (insert x ys) ≡ (if p x then 1 else 0) + count p ys
  unfolding insert
  count-insert p x [] = refl
  count-insert p x (y ∷ ys) = elim (Bool-cases (less x y)) [
    | inl e ↦ rw e refl
    | inr e ↦ rw e (omega (arith, count-insert p x ys))
  ]

  count-sort : (p : A → Bool) (xs : List A) → count p (sort xs) ≡ count p xs
  unfolding sort
  count-sort p [] = refl
  count-sort p (x ∷ xs) = omega (arith, count-insert p x (sort xs), count-sort p xs)

  length-insert : (x : A) (ys : List A) → length (insert x ys) ≡ suc (length ys)
  unfolding insert
  length-insert x [] = refl
  length-insert x (y ∷ ys) = elim (Bool-cases (less x y)) [
    | inl e ↦ rw e refl
    | inr e ↦ rw e (ap suc (length-insert x ys))
  ]

  length-sort : (xs : List A) → length (sort xs) ≡ length xs
  unfolding sort
  length-sort [] = refl
  length-sort (x ∷ xs) = length-insert x (sort xs) ∙ ap suc (length-sort xs)

  pub All-insert : (P : A → Type 0) (x : A) (ys : List A) → P x → All P ys → All P (insert x ys)
  unfolding insert
  All-insert P x [] p h = (p, tt)
  All-insert P x (y ∷ ys) p h = elim (Bool-cases (less x y)) [
    | inl e ↦ rw (e, All) (p, h)
    | inr e ↦ rw (e, All) (h.0, All-insert P x ys p h.1)
  ]

  count_none : (p : A → Bool) (xs : List A) → All (λ x. p x ≡ false) xs → count p xs ≡ 0
  count_none p [] h = refl
  count_none p (x ∷ xs) h = ground (arith, h.0, count_none p xs h.1)

  count-le : (p : A → Bool) (xs : List A) → count p xs ≤ length xs
  count-le p [] = omega arith
  count-le p (x ∷ xs) = ground (arith, count-le p xs)

  module _ (asym : (x y : A) → less x y ≡ true → less y x ≡ false)
      (trans : (x y z : A) → less y x ≡ false → less z y ≡ false → less z x ≡ false) where
    irrefl : (x : A) → less x x ≡ false
    irrefl x = elim (Bool-cases (less x x)) [ inl e ↦ asym x x e | inr e ↦ e ]

    above :
        (x y : A) (ys : List A)
        → less y x ≡ false
        → All (λ z. less z y ≡ false) ys
        → All (λ z. less z x ≡ false) ys
    above x y [] e h = tt
    above x y (z ∷ ys) e h = (trans x y z e h.0, above x y ys e h.1)

    insert-IsSorted : (x : A) (ys : List A) → IsSorted ys → IsSorted (insert x ys)
    unfolding insert
    insert-IsSorted x [] h = (tt, tt)
    insert-IsSorted x (y ∷ ys) h = elim (Bool-cases (less x y)) [
      | inl e ↦ rw (e, IsSorted) ((asym x y e, above x y ys (asym x y e) h.0), h)
      | inr e ↦
          rw (e, IsSorted) (All-insert (λ z. less z y ≡ false) x ys e h.0, insert-IsSorted x ys h.1)
    ]

    pub sort-IsSorted : (xs : List A) → IsSorted (sort xs)
    unfolding sort
    sort-IsSorted [] = tt
    sort-IsSorted (x ∷ xs) = insert-IsSorted x (sort xs) (sort-IsSorted xs)

    -- At most `i` values are below the one at index `i`, and at most those behind it are above.
    at_index :
        (v : List A) (i : ℕ) (m : A)
        → IsSorted v
        → get_elem? v i ≡ some m
        → (count (λ x. less x m) v ≤ i) × (count (λ x. less m x) v + i < length v)
    at_index [] i m h e = absurd (cc e)
    at_index (x ∷ xs) zero m h e =
        let same = some-injective x m e in
        let none_ = count_none (λ y. less y x) xs h.0 in
        let low : count (λ y. less y x) (x ∷ xs) ≤ 0 = ground (arith, irrefl x, none_) in
        let high : count (λ y. less x y) (x ∷ xs) + 0 < length (x ∷ xs) =
          ground (arith, irrefl x, count-le (λ y. less x y) xs) in
        (
          subst (λ (z : A). count (λ y. less y z) (x ∷ xs) ≤ 0) same low,
          subst (λ (z : A). count (λ y. less z y) (x ∷ xs) + 0 < length (x ∷ xs)) same high,
        )
    at_index (x ∷ xs) (suc i) m h e =
        let rest = at_index xs i m h.1 e in
        let above_x = All-get_elem? (λ y. less y x ≡ false) xs i m h.0 e in
        (ground (arith, rest.0), ground (arith, rest.1, above_x))

    -- For an order in which two values are never below each other, and in which not being below goes through: the
    -- median of an odd number of values exists, at most half of them are below it, and at most half above.
    pub median-middle :
        (mean : A → A → A) (half : ℕ) (values : List A)
        → length values ≡ 2 * half + 1
        → (m : A) × ((median mean values ≡ some m)
            × ((count (λ x. less x m) values ≤ half) × (count (λ x. less m x) values ≤ half)))
    unfolding median
    median-middle mean half values odd =
        let v = sort values in
        let size = length-sort values in
        let middle : length v / 2 ≡ half = omega (arith, size, odd) in
        let is_odd : (length v % 2 == 1) ≡ true = ground (arith, size, odd) in
        let (m, e) = get_elem?-some v half (omega (arith, size, odd)) in
        let place = at_index v half m (sort-IsSorted values) e in
        (
          m,
          (
            rw is_odd (ap (get_elem? v) middle ∙ e),
            (
              omega (arith, place.0, count-sort (λ x. less x m) values),
              omega (arith, place.1, count-sort (λ x. less m x) values, size, odd),
            ),
          ),
        )
