-- ===== src/Base/Dict.antt =====
-- A hash map as an association list, over keys with a decidable equality. The order of the list
-- stands for the order in which an iterator meets the entries, which no theorem relies on.
use Prim.Native.Nat.{◌+◌, ◌≤◌}
use mathlib.Core.List.{List, [], ◌∷◌}
use mathlib.Core.Logic.{◌≢◌, inl, inr, ite, if_pos, if_neg}
use mathlib.Core.Option.{Option, none, some}
use mathlib.Core.Path.{◌≡◌, refl, sym, ap, ◌∙◌}
use net_sentinel.Base.Tests.{Option-cases, is_some, Bool-cases, if◌then◌else◌}
use mathlib.Core.Bool.{Bool, true, false, ◌&&◌}
use native.Mathlib.Omega.{arith}
use net_sentinel.Base.Lists.{length}

module _ {ℓ} {K : Type ℓ} (dec : Discrete K) where
  -- Whether a key stands in a list.
  abbrev pub elem : K → List K → Bool
  elem k [] = false
  elem k (j ∷ ks) = ite (dec j k) true (elem k ks)

  abbrev pub IsDistinct : List K → Type 0
  IsDistinct [] = Unit {0}
  IsDistinct (k ∷ ks) = (elem k ks ≡ false) × IsDistinct ks

  -- The list without its repeats.
  abbrev pub dedup : List K → List K
  dedup [] = []
  dedup (k ∷ ks) = let rest = dedup ks in if elem k rest then rest else k ∷ rest

  -- The elements that pass a test.
  abbrev pub keep : (K → Bool) → List K → List K
  keep p [] = []
  keep p (k ∷ ks) = let rest = keep p ks in if p k then k ∷ rest else rest

  pub dedup-IsDistinct : (ks : List K) → IsDistinct (dedup ks)
  dedup-IsDistinct [] = tt
  dedup-IsDistinct (k ∷ ks) = elim (Bool-cases (elem k (dedup ks))) [
    | inl e ↦ rw e (dedup-IsDistinct ks)
    | inr n ↦ rw n (n, dedup-IsDistinct ks)
  ]

  pub elem-dedup : (q : K) (ks : List K) → elem q (dedup ks) ≡ elem q ks
  elem-dedup q [] = refl
  elem-dedup q (k ∷ ks) = elim (Bool-cases (elem k (dedup ks))) [
    | inl e ↦ rw e (elim (dec k q) [
      | yes same ↦ rw (if_pos (dec k q) same true (elem q ks)) (rw (← same) e)
      | no other ↦ rw (if_neg (dec k q) other true (elem q ks)) (elem-dedup q ks)
    ])
    | inr n ↦ rw n (ap (ite (dec k q) true) (elem-dedup q ks))
  ]

  pub elem-keep : (q : K) (p : K → Bool) (ks : List K) → elem q (keep p ks) ≡ (p q && elem q ks)
  elem-keep q p [] = Bool-and_false (p q)
    where
      Bool-and_false : (b : Bool) → false ≡ (b && false)
      Bool-and_false true = refl
      Bool-and_false false = refl
  elem-keep q p (k ∷ ks) = elim (Bool-cases (p k)) [
    | inl e ↦ rw e (elim (dec k q) [
      | yes same ↦
          let e' : p q ≡ true = rw (← same) e in
          rw (if_pos (dec k q) same true (elem q (keep p ks)))
            (rw (if_pos (dec k q) same true (elem q ks)) (rw e'))
      | no other ↦
          rw (if_neg (dec k q) other true (elem q (keep p ks)))
            (rw (if_neg (dec k q) other true (elem q ks)) (elem-keep q p ks))
    ])
    | inr n ↦ rw n (elim (dec k q) [
      | yes same ↦ let n' : p q ≡ false = rw (← same) n in elem-keep q p ks ∙ rw n'
      | no other ↦ rw (if_neg (dec k q) other true (elem q ks)) (elem-keep q p ks)
    ])
  ]

  pub keep-IsDistinct : (p : K → Bool) (ks : List K) → IsDistinct ks → IsDistinct (keep p ks)
  keep-IsDistinct p [] d = tt
  keep-IsDistinct p (k ∷ ks) d = elim (Bool-cases (p k)) [
    | inl e ↦ rw e (elem-keep k p ks ∙ rw (e, d.0), keep-IsDistinct p ks d.1)
    | inr n ↦ rw n (keep-IsDistinct p ks d.1)
  ]

module _ {ℓ} {K V : Type ℓ} (dec : Discrete K) where
  unfoldable pub find : K → List (K × V) → Option V
  find k [] = none
  find k ((j, v) ∷ m) = ite (dec j k) (some v) (find k m)

  -- Overwrites the entry of the key, or appends a new one.
  unfoldable pub insert : K → V → List (K × V) → List (K × V)
  insert k v [] = (k, v) ∷ []
  insert k v ((j, w) ∷ m) = ite (dec j k) ((k, v) ∷ m) ((j, w) ∷ insert k v m)

  unfoldable pub erase : K → List (K × V) → List (K × V)
  erase k [] = []
  erase k ((j, v) ∷ m) = ite (dec j k) m ((j, v) ∷ erase k m)

  -- No key has two entries.
  abbrev pub IsMap : List (K × V) → Type ℓ
  IsMap [] = Unit {ℓ}
  IsMap ((j, v) ∷ m) = (find j m ≡ none) × IsMap m

  pub find-insert :
      (k q : K) (v : V) (m : List (K × V))
      → find q (insert k v m) ≡ ite (dec k q) (some v) (find q m)
  unfolding find insert
  find-insert k q v [] = refl
  find-insert k q v ((j, w) ∷ m) = ground (arith, find-insert k q v m)

  pub find-insert_self : (k : K) (v : V) (m : List (K × V)) → find k (insert k v m) ≡ some v
  find-insert_self k v m = ground (arith, find-insert k k v m)

  pub find-insert_ne :
      (k q : K) (v : V) (m : List (K × V)) → k ≢ q → find q (insert k v m) ≡ find q m
  find-insert_ne k q v m h = ground (arith, find-insert k q v m)

  pub insert-IsMap : (k : K) (v : V) (m : List (K × V)) → IsMap m → IsMap (insert k v m)
  unfolding find insert
  insert-IsMap k v [] h = (refl, tt)
  insert-IsMap k v ((j, w) ∷ m) (fresh, h) =
      ground (arith, insert-IsMap k v m h, find-insert k j v m)

  pub find-erase_ne : (k q : K) (m : List (K × V)) → k ≢ q → find q (erase k m) ≡ find q m
  unfolding find erase
  find-erase_ne k q [] h = refl
  find-erase_ne k q ((j, w) ∷ m) h = ground (arith, find-erase_ne k q m h)

  pub find-erase_self : (k : K) (m : List (K × V)) → IsMap m → find k (erase k m) ≡ none
  unfolding find erase
  find-erase_self k [] h = refl
  find-erase_self k ((j, w) ∷ m) (fresh, h) = ground (arith, find-erase_self k m h)

  pub find-erase :
      (k q : K) (m : List (K × V)) → IsMap m → find q (erase k m) ≡ ite (dec k q) none (find q m)
  find-erase k q m h = elim (dec k q) [
    | yes e ↦ ground (arith, find-erase_self k m h)
    | no n ↦ ground (arith, find-erase_ne k q m n)
  ]

  find-erase-none : (k q : K) (m : List (K × V)) → find q m ≡ none → find q (erase k m) ≡ none
  unfolding find erase
  find-erase-none k q [] h = refl
  find-erase-none k q ((j, w) ∷ m) h = ground (arith, find-erase-none k q m)

  pub erase-IsMap : (k : K) (m : List (K × V)) → IsMap m → IsMap (erase k m)
  unfolding find erase
  erase-IsMap k [] h = tt
  erase-IsMap k ((j, w) ∷ m) (fresh, h) =
      ground (arith, erase-IsMap k m h, find-erase-none k j m fresh)

  -- An insertion adds at most one entry.
  pub length-insert : (k : K) (v : V) (m : List (K × V)) → length (insert k v m) ≤ length m + 1
  unfolding insert
  length-insert k v [] = omega arith
  length-insert k v ((j, w) ∷ m) = ground (arith, length-insert k v m)

  pub length-insert_old :
      (k : K) (v w : V) (m : List (K × V)) → find k m ≡ some w → length (insert k v m) ≡ length m
  unfolding find insert
  length-insert_old k v w [] h = cc
  length-insert_old k v w ((j, u) ∷ m) h = ground (arith, length-insert_old k v w m)

  pub length-erase :
      (k : K) (v : V) (m : List (K × V)) → find k m ≡ some v → length (erase k m) + 1 ≡ length m
  unfolding find erase
  length-erase k v [] h = cc
  length-erase k v ((j, u) ∷ m) h = ground (arith, length-erase k v m)

  pub erase_absent : (k : K) (m : List (K × V)) → find k m ≡ none → erase k m ≡ m
  unfolding find erase
  erase_absent k [] h = refl
  erase_absent k ((j, u) ∷ m) h = ground (arith, erase_absent k m)

  pub all_absent : (m : List (K × V)) → ((k : K) → find k m ≡ none) → m ≡ []
  unfolding find
  all_absent [] h = refl
  all_absent ((j, u) ∷ m) h = ground (arith, h j)

  -- The list names each key of the map.
  abbrev pub Lists : List (K × V) → List K → Type ℓ
  Lists m ks = (k : K) → is_some (find k m) ≡ elem dec k ks

  Lists-head :
      (m : List (K × V)) (k : K) (ks : List K) → Lists m (k ∷ ks) → (v : V) × (find k m ≡ some v)
  Lists-head m k ks h = elim (Option-cases (find k m)) [
    | inl e ↦ absurd (ground (arith, h k))
    | inr found ↦ found
  ]

  Lists-erase :
      (m : List (K × V)) (k : K) (ks : List K)
      → IsMap m
      → elem dec k ks ≡ false
      → Lists m (k ∷ ks)
      → Lists (erase k m) ks
  Lists-erase m k ks is_map fresh h q = elim (dec k q) [
    | yes e ↦ rw (find-erase k q m is_map) (rw (if_pos (dec k q) e) (rw (← e) (sym fresh)))
    | no n ↦ rw (find-erase_ne k q m n) (h q ∙ if_neg (dec k q) n true (elem dec q ks))
  ]

  -- A map is as long as any list that names each of its keys once.
  pub length-Lists :
      (m : List (K × V)) (ks : List K)
      → IsMap m
      → IsDistinct dec ks
      → Lists m ks
      → length m ≡ length ks
  length-Lists m [] is_map d h = ap length (all_absent m (λ k. absent (find k m) (h k)))
    where
      absent : (o : Option V) → is_some o ≡ false → o ≡ none
      absent none e = refl
      absent (some v) e = cc
  length-Lists m (k ∷ ks) is_map d h =
      let (v, found) = Lists-head m k ks h in
      omega (
        arith,
        length-erase k v m found,
        length-Lists (erase k m) ks (erase-IsMap k m is_map) d.1 (Lists-erase m k ks is_map d.0 h),
      )
