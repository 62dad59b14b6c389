-- ===== src/Gpu/Exact.antt =====
-- The entropy shader against `shannon_entropy` of src/analysis/entropy.cpp.
use mathlib.Core.Path.{ap₂}
use net_sentinel.Base.{
  ℕ, zero, suc, ◌+◌, ◌-◌, ◌/◌, ◌^◌, ◌==◌, ltb, ◌≡◌, ◌<◌, ◌≤◌, refl, sym, ap, ◌∙◌, List, [], ◌∷◌,
  some, length, get_elem?, take, replicate, arith, Bool-cases, inl, inr, if◌then◌else◌,
}
use net_sentinel.Entropy.{Doubles, histogram_from, entropy_from, shannon_entropy}
use net_sentinel.Entropy.Counts.{occurrences, histogram_from-tally, tally-same}
use net_sentinel.Gpu.{Pipeline}
use net_sentinel.Gpu.Dispatch.{group_threads}
use net_sentinel.Gpu.Groups.{power_suc, power_positive, group_threads-IsGroup}
use net_sentinel.Gpu.Shader.{
  every, each, Merges, clear_bins, thread_sum, reduce_from, group_entropy,
}
use net_sentinel.Gpu.Strides.{
  IsSum, total_of, total_of-each_zero, total_of-every, Merges-every, clear_bins-replicate,
}
use net_sentinel.Gpu.Reduction.{reduce_from-total_of}

-- Whatever the memory held and in whatever order the threads increment, the histogram is that of the CPU.
group_histogram :
    (m : ℕ) (bins payload order : List ℕ)
    → length bins ≡ 256
    → length payload < 2 ^ 32
    → Merges (each (suc m) (λ tid. every tid (suc m) payload)) order
    → histogram_from (clear_bins (suc m) (suc m) bins) order
      ≡ histogram_from (replicate 256 0) payload
group_histogram m bins payload order size small merges =
    let same_length : length order ≡ length payload =
      Merges-every length (λ x. 1) refl (λ x xs. omega arith) m payload order merges in
    ap (λ (h : List ℕ). histogram_from h order)
      (clear_bins-replicate m bins ∙ ap (λ (n : ℕ). replicate n 0) size)
    ∙ histogram_from-tally order (omega (arith, same_length, small))
    ∙ tally-same 0 256 order payload (λ byte.
      Merges-every (occurrences byte) (λ b. if b == byte then 1 else 0) refl (λ b bytes. refl) m
        payload order merges)
    ∙ sym (histogram_from-tally payload small)

module _ {A : Type 0} where
  length-each : (n : ℕ) (f : ℕ → A) → length (each n f) ≡ n
  unfolding each
  length-each zero f = refl
  length-each (suc n) f = ap suc (length-each n (λ i. f (suc i)))

  each_same : (n : ℕ) (f g : ℕ → A) → ((i : ℕ) → f i ≡ g i) → each n f ≡ each n g
  unfolding each
  each_same zero f g h = refl
  each_same (suc n) f g h =
      ap₂ ◌∷◌ (h 0) (each_same n (λ i. f (suc i)) (λ i. g (suc i)) (λ i. h (suc i)))

  whole_list : (n : ℕ) (xs : List A) → length xs ≡ n → take n xs ≡ xs
  whole_list zero [] e = refl
  whole_list zero (x ∷ xs) e = absurd (omega (arith, e))
  whole_list (suc n) [] e = refl
  whole_list (suc n) (x ∷ xs) e = ap (◌∷◌ x) (whole_list n xs (omega (arith, e)))

-- Ten halvings would need more than 256 threads.
grows : (j : ℕ) → 512 ≤ 2 ^ (j + 9)
grows zero = omega arith
grows (suc j) =
    let later : suc j + 9 ≡ suc (j + 9) = omega arith in
    omega (arith, ap (λ (n : ℕ). 2 ^ n) later, power_suc (j + 9), grows j)

few_halvings : (k : ℕ) → 2 ^ k ≤ 256 → k ≤ 8
few_halvings k h = elim (Bool-cases (ltb 8 k)) [
  | inl e ↦
      let large : k ≡ (k - 9) + 9 = ground (arith, e) in
      absurd (omega (arith, h, ap (λ (n : ℕ). 2 ^ n) large, grows (k - 9)))
  | inr e ↦ ground (arith, e)
]

module _ {Float : Type 0} (float : Doubles Float) (plus : Float → Float → Float)
    (sum : IsSum plus float.zero)
    (minus-plus : (x y : Float) → float.minus x y ≡ plus x (float.minus float.zero y)) where
  -- What a bin adds to the entropy.
  abbrev bin_entropy : (size count : ℕ) → Float
  bin_entropy size count =
      let p = float.divide (float.of_size count) (float.of_size size) in
      if count == 0 then float.zero else float.minus float.zero (float.times p (float.log2 p))

  entropy_from-plus :
      (size : ℕ) (counts : List ℕ) (entropy : Float)
      → entropy_from float entropy size counts
        ≡ plus entropy (entropy_from float float.zero size counts)
  unfolding entropy_from
  entropy_from-plus size [] entropy = sym (sum.unit entropy)
  entropy_from-plus size (count ∷ counts) entropy =
      let p = float.divide (float.of_size count) (float.of_size size) in
      let term = float.times p (float.log2 p) in
      let rest = entropy_from float float.zero size counts in
      elim (Bool-cases (count == 0)) [
        | inl e ↦ rw e (entropy_from-plus size counts entropy)
        | inr e ↦ rw e (
            entropy_from-plus size counts (float.minus entropy term)
            ∙ ap (λ (z : Float). plus z rest) (minus-plus entropy term)
            ∙ sum.assoc entropy (float.minus float.zero term) rest
            ∙ ap (plus entropy) (sym (entropy_from-plus size counts (float.minus float.zero term))))
      ]

  entropy_from_more :
      (size count : ℕ) (counts : List ℕ)
      → entropy_from float float.zero size (count ∷ counts)
        ≡ plus (bin_entropy size count) (entropy_from float float.zero size counts)
  unfolding entropy_from
  entropy_from_more size count counts = elim (Bool-cases (count == 0)) [
    | inl e ↦ rw e (entropy_from-plus size counts float.zero)
    | inr e ↦ rw e (entropy_from-plus size counts _)
  ]

  thread_sums :
      (m size : ℕ) (histogram : List ℕ)
      → total_of plus float.zero (each (suc m) (thread_sum float (suc m) size histogram))
        ≡ (if size == 0 then float.zero else entropy_from float float.zero size histogram)
  unfolding thread_sum
  thread_sums m size histogram = elim (Bool-cases (size == 0)) [
    | inl e ↦ rw e (
        total_of-each_zero plus float.zero sum (suc m) (thread_sum float (suc m) size histogram)
          (λ tid. rw (e, thread_sum) refl))
    | inr e ↦ rw e (
        ap (total_of plus float.zero) (
          each_same (suc m) (thread_sum float (suc m) size histogram)
            (λ tid. entropy_from float float.zero size (every tid (suc m) histogram))
            (λ tid. rw (e, thread_sum) refl))
        ∙ total_of-every plus float.zero sum (entropy_from float float.zero size) (bin_entropy size)
            refl (entropy_from_more size) m histogram)
  ]

  group_entropy-threads :
      (threads k : ℕ) (bins payload order : List ℕ)
      → threads ≡ 2 ^ k
      → k ≤ 8
      → length bins ≡ 256
      → length payload < 2 ^ 32
      → Merges (each threads (λ tid. every tid threads payload)) order
      → group_entropy float plus threads bins order payload
        ≡ some (shannon_entropy float (some payload))
  unfolding group_entropy shannon_entropy
  group_entropy-threads zero k bins payload order power few size small merges =
      absurd (omega (arith, power, power_positive k))
  group_entropy-threads (suc m) k bins payload order power few size small merges =
      let bytes = length payload in
      let histogram = histogram_from (replicate 256 0) payload in
      let partial = each (suc m) (thread_sum float (suc m) bytes histogram) in
      let long : length partial ≡ 2 ^ k =
        length-each (suc m) (thread_sum float (suc m) bytes histogram) ∙ power in
      ap
        (λ (h : List ℕ).
          get_elem?
            (reduce_from plus 9 (suc m / 2) (each (suc m) (thread_sum float (suc m) bytes h))) 0)
        (group_histogram m bins payload order size small merges)
      ∙ ap (λ (n : ℕ). get_elem? (reduce_from plus 9 (n / 2) partial) 0) power
      ∙ reduce_from-total_of plus float.zero sum k 9 partial (omega (arith, few))
          (omega (arith, long))
      ∙ ap some (
          ap (total_of plus float.zero) (whole_list (2 ^ k) partial long)
          ∙ thread_sums m bytes histogram)

  -- For a pipeline that allows a thread, and a payload of fewer than 2 ^ 32 bytes: the group of threads that is
  -- dispatched gives the entropy of the CPU, whatever its 256 bins of memory held before and in whatever
  -- order its threads increment them, if adding is associative and commutative with the unit 0
  -- and subtracting is adding the difference from 0, as for exact numbers.
  pub group_entropy-shannon :
      (p : Pipeline) (bins payload order : List ℕ)
      → 1 ≤ p.max_threads
      → length bins ≡ 256
      → length payload < 2 ^ 32
      → Merges (each (group_threads p) (λ tid. every tid (group_threads p) payload)) order
      → group_entropy float plus (group_threads p) bins order payload
        ≡ some (shannon_entropy float (some payload))
  group_entropy-shannon p bins payload order some_thread size small merges =
      let ((k, power), _, most, _) = group_threads-IsGroup p some_thread in
      group_entropy-threads (group_threads p) k bins payload order power
        (few_halvings k (omega (arith, power, most))) size small merges
