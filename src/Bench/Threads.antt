-- ===== src/Bench/Threads.antt =====
-- The thread counts that `main` of src/bench/bench_analysis.cpp measures.
use net_sentinel.Base.{
  ℕ, zero, suc, ◌-◌, ◌*◌, ◌≡◌, ◌<◌, ◌≤◌, refl, subst, ap, ◌∙◌, arith, true, false, ◌==◌, ltb,
  if◌then◌else◌, List, [], ◌∷◌, ◌++◌, All, All-append, Bool-cases, inl, inr,
}
use net_sentinel.Bench.Sorting.{insert, sort, IsSorted, sort-IsSorted, All-insert}

-- The loop over `t`; the thread counts are below 2 ^ fuel.
unfoldable pub doublings : (fuel t max_threads : ℕ) → List ℕ
doublings zero t max_threads = []
doublings (suc fuel) t max_threads =
    let rest = doublings fuel (t * 2) max_threads in if ltb t max_threads then t ∷ rest else []

-- `std::unique` and the `erase` behind it.
unfoldable pub unique_after : ℕ → List ℕ → List ℕ
unique_after x [] = []
unique_after x (y ∷ ys) = let rest = unique_after y ys in if x == y then rest else y ∷ rest

unfoldable pub unique : List ℕ → List ℕ
unfolding unique_after
unique [] = []
unique (x ∷ xs) = x ∷ unique_after x xs

-- What the vector holds before it is sorted.
unfoldable pub all_counts : (max_threads : ℕ) → List ℕ
unfolding doublings
all_counts max_threads =
    doublings 32 1 max_threads
    ++ ((if ltb 2 max_threads then (max_threads - 1) ∷ [] else []) ++ max_threads ∷ [])

-- The thread counts that are measured; `max_threads` is at most 256, or the number of cores.
unfoldable pub thread_counts : (max_threads : ℕ) → List ℕ
unfolding unique all_counts
thread_counts max_threads = unique (sort ltb (all_counts max_threads))

abbrev pub IsIncreasing : (above : ℕ) → List ℕ → Type 0
IsIncreasing above [] = Unit
IsIncreasing above (x ∷ xs) = (above < x) × IsIncreasing x xs

ltb_asym : (x y : ℕ) → ltb x y ≡ true → ltb y x ≡ false
ltb_asym x y e = ground (arith, e)

ltb_trans : (x y z : ℕ) → ltb y x ≡ false → ltb z y ≡ false → ltb z x ≡ false
ltb_trans x y z e f = ground (arith, e, f)

unique_after-IsIncreasing :
    (x : ℕ) (ys : List ℕ) → IsSorted ltb (x ∷ ys) → IsIncreasing x (unique_after x ys)
unfolding unique_after
unique_after-IsIncreasing x [] h = tt
unique_after-IsIncreasing x (y ∷ ys) h = elim (Bool-cases (x == y)) [
  | inl e ↦
      let same : y ≡ x = ground (arith, e) in
      rw (e, IsIncreasing)
        (subst (λ (z : ℕ). IsIncreasing z (unique_after y ys)) same
          (unique_after-IsIncreasing y ys h.1))
  | inr e ↦ rw (e, IsIncreasing) (ground (arith, e, h.0.0), unique_after-IsIncreasing y ys h.1)
]

All-unique_after : (P : ℕ → Type 0) (x : ℕ) (ys : List ℕ) → All P ys → All P (unique_after x ys)
unfolding unique_after
All-unique_after P x [] h = tt
All-unique_after P x (y ∷ ys) h = elim (Bool-cases (x == y)) [
  | inl e ↦ rw (e, All) (All-unique_after P y ys h.1)
  | inr e ↦ rw (e, All) (h.0, All-unique_after P y ys h.1)
]

abbrev InRange : (max_threads t : ℕ) → Type 0
InRange max_threads t = (1 ≤ t) × (t ≤ max_threads)

doublings-InRange :
    (fuel t max_threads : ℕ) → 1 ≤ t → All (InRange max_threads) (doublings fuel t max_threads)
unfolding doublings
doublings-InRange zero t m h = tt
doublings-InRange (suc fuel) t m h = elim (Bool-cases (ltb t m)) [
  | inl e ↦
      rw (e, All) ((h, ground (arith, e)), doublings-InRange fuel (t * 2) m (omega (arith, h)))
  | inr e ↦ rw (e, All) tt
]

sort-All : (P : ℕ → Type 0) (xs : List ℕ) → All P xs → All P (sort ltb xs)
unfolding sort
sort-All P [] h = tt
sort-All P (x ∷ xs) h = All-insert ltb P x (sort ltb xs) h.0 (sort-All P xs h.1)

-- A 1 that is put among larger numbers comes first.
insert_one :
    (m : ℕ) (ys : List ℕ) → All (InRange m) ys → (rest : List ℕ) × (insert ltb 1 ys ≡ 1 ∷ rest)
unfolding insert
insert_one m [] h = ([], refl)
insert_one m (y ∷ ys) h = elim (Bool-cases (ltb 1 y)) [
  | inl e ↦ (y ∷ ys, rw e refl)
  | inr e ↦
      let same : y ≡ 1 = ground (arith, e, h.0.0) in
      (insert ltb 1 ys, rw e (ap (λ (z : ℕ). z ∷ insert ltb 1 ys) same))
]

all_counts-InRange : (m : ℕ) → 1 ≤ m → All (InRange m) (all_counts m)
unfolding all_counts
all_counts-InRange m h =
    All-append (InRange m) (doublings 32 1 m) _ (doublings-InRange 32 1 m (omega arith)) (
      All-append (InRange m) (if ltb 2 m then (m - 1) ∷ [] else []) (m ∷ []) default
        ((h, omega arith), tt))
  where
    default : All (InRange m) (if ltb 2 m then (m - 1) ∷ [] else [])
    default = elim (Bool-cases (ltb 2 m)) [
      | inl e ↦ rw (e, All) ((ground (arith, e), ground (arith, e)), tt)
      | inr e ↦ rw (e, All) tt
    ]

one_first : (m : ℕ) → 1 ≤ m → (rest : List ℕ) × (all_counts m ≡ 1 ∷ rest)
unfolding all_counts doublings
one_first m h = elim (Bool-cases (ltb 1 m)) [
  | inl e ↦ (
    doublings 31 2 m ++ ((if ltb 2 m then (m - 1) ∷ [] else []) ++ m ∷ []),
    rw (e, doublings) refl,
  )
  | inr e ↦ let same : m ≡ 1 = ground (arith, e, h) in ([], rw same refl)
]

-- The thread counts begin with one thread, to which the others are compared, and increase from there, without
-- a double, up to at most the largest number allowed, if that is at least one.
pub thread_counts-IsIncreasing :
    (max_threads : ℕ)
    → 1 ≤ max_threads
    → (rest : List ℕ) × ((thread_counts max_threads ≡ 1 ∷ rest)
        × (IsIncreasing 1 rest × All (λ t. t ≤ max_threads) rest))
unfolding thread_counts unique sort
thread_counts-IsIncreasing m h =
    let (tail, start) = one_first m h in
    let valid = subst (All (InRange m)) start (all_counts-InRange m h) in
    let (ys, first) = insert_one m (sort ltb tail) (sort-All (InRange m) tail valid.1) in
    let sorted_ : sort ltb (all_counts m) ≡ 1 ∷ ys = ap (sort ltb) start ∙ first in
    let is_sorted =
      subst (IsSorted ltb) sorted_ (sort-IsSorted ltb ltb_asym ltb_trans (all_counts m)) in
    let in_range =
      subst (All (InRange m)) sorted_
        (sort-All (InRange m) (all_counts m) (all_counts-InRange m h)) in
    (
      unique_after 1 ys,
      (
        ap unique sorted_,
        (
          unique_after-IsIncreasing 1 ys is_sorted,
          below (unique_after 1 ys) (All-unique_after (InRange m) 1 ys in_range.1),
        ),
      ),
    )
  where
    below : (l : List ℕ) → All (InRange m) l → All (λ t. t ≤ m) l
    below [] p = tt
    below (t ∷ l) p = (p.0.1, below l p.1)
