-- ===== src/Gpu/Reduction.antt =====
-- The reduction over the threads of a group.
use net_sentinel.Base.{
  ℕ, zero, suc, ◌+◌, ◌*◌, ◌/◌, ◌^◌, ◌==◌, ◌≡◌, ◌<◌, ◌≤◌, refl, sym, ap, ◌∙◌, List, [], ◌∷◌, ◌++◌,
  some, length, get_elem?, take, drop, arith, length-append, length-take, length-drop, false,
}
use net_sentinel.Gpu.Groups.{half_power, power_positive, power_suc}
use net_sentinel.Gpu.Shader.{add_pairs, add_upper, reduce_from}
use net_sentinel.Gpu.Strides.{IsSum, total_of}

module _ {A : Type 0} where
  take_append : (n : ℕ) (xs ys : List A) → n ≤ length xs → take n (xs ++ ys) ≡ take n xs
  take_append zero xs ys h = refl
  take_append (suc n) [] ys h = absurd (omega (arith, h))
  take_append (suc n) (x ∷ xs) ys h = ap (◌∷◌ x) (take_append n xs ys (omega (arith, h)))

  take_all : (n : ℕ) (xs : List A) → length xs ≤ n → take n xs ≡ xs
  take_all zero [] h = refl
  take_all zero (x ∷ xs) h = absurd (omega (arith, h))
  take_all (suc n) [] h = refl
  take_all (suc n) (x ∷ xs) h = ap (◌∷◌ x) (take_all n xs (omega (arith, h)))

  take_two : (m n : ℕ) (xs : List A) → take (m + n) xs ≡ take m xs ++ take n (drop m xs)
  take_two zero n xs = ap (λ (k : ℕ). take k xs) (omega arith)
  take_two (suc m) n [] = take_all (suc m + n) [] (omega arith) ∙ sym (take_all n [] (omega arith))
  take_two (suc m) n (x ∷ xs) =
      let later : suc m + n ≡ suc (m + n) = omega arith in
      ap (λ (k : ℕ). take k (x ∷ xs)) later ∙ ap (◌∷◌ x) (take_two m n xs)

module _ {M : Type 0} (plus : M → M → M) (zero_ : M) (sum : IsSum plus zero_) where
  total_of-append :
      (xs ys : List M)
      → total_of plus zero_ (xs ++ ys) ≡ plus (total_of plus zero_ xs) (total_of plus zero_ ys)
  unfolding total_of
  total_of-append [] ys = sym (sum.comm zero_ _ ∙ sum.unit _)
  total_of-append (x ∷ xs) ys = ap (plus x) (total_of-append xs ys) ∙ sym (sum.assoc x _ _)

  swap_middle : (a b c d : M) → plus (plus a b) (plus c d) ≡ plus (plus a c) (plus b d)
  swap_middle a b c d =
      sum.assoc a b (plus c d)
      ∙ (ap (plus a)
            (sym (sum.assoc b c d) ∙ (ap (λ (z : M). plus z d) (sum.comm b c) ∙ sum.assoc c b d))
          ∙ sym (sum.assoc a c (plus b d)))

  total_of-add_pairs :
      (lower upper : List M)
      → length lower ≤ length upper
      → total_of plus zero_ (add_pairs plus lower upper)
        ≡ plus (total_of plus zero_ lower) (total_of plus zero_ (take (length lower) upper))
  unfolding total_of add_pairs
  total_of-add_pairs [] upper h = sym (sum.unit zero_)
  total_of-add_pairs (x ∷ lower) [] h = absurd (omega (arith, h))
  total_of-add_pairs (x ∷ lower) (y ∷ upper) h =
      ap (plus (plus x y)) (total_of-add_pairs lower upper (omega (arith, h))) ∙ swap_middle x y _ _

  length-add_pairs :
      (lower upper : List M)
      → length lower ≤ length upper
      → length (add_pairs plus lower upper) ≡ length lower
  unfolding add_pairs
  length-add_pairs [] upper h = refl
  length-add_pairs (x ∷ lower) [] h = absurd (omega (arith, h))
  length-add_pairs (x ∷ lower) (y ∷ upper) h =
      ap suc (length-add_pairs lower upper (omega (arith, h)))

  length-add_upper :
      (stride : ℕ) (partial : List M)
      → 2 * stride ≤ length partial
      → length (add_upper plus stride partial) ≡ length partial
  unfolding add_upper
  length-add_upper stride partial h =
      let lower = length-take stride partial in
      let upper = length-drop stride partial in
      omega (
        arith,
        length-append (add_pairs plus (take stride partial) (drop stride partial))
            (drop stride partial),
        length-add_pairs (take stride partial) (drop stride partial)
            (omega (arith, lower, upper, h)),
        lower,
        upper,
        h,
      )

  -- One halving keeps the sum of the entries that count.
  total_of-add_upper :
      (stride : ℕ) (partial : List M)
      → 2 * stride ≤ length partial
      → total_of plus zero_ (take stride (add_upper plus stride partial))
        ≡ total_of plus zero_ (take (2 * stride) partial)
  unfolding add_upper
  total_of-add_upper stride partial h =
      let lower = take stride partial in
      let upper = drop stride partial in
      let low : length lower ≡ stride = omega (arith, length-take stride partial, h) in
      let fits : length lower ≤ length upper = omega (arith, low, length-drop stride partial, h) in
      let pairs = length-add_pairs lower upper fits in
      ap (total_of plus zero_) (
        take_append stride (add_pairs plus lower upper) upper (omega (arith, pairs, low))
        ∙ take_all stride (add_pairs plus lower upper) (omega (arith, pairs, low)))
      ∙ total_of-add_pairs lower upper fits
      ∙ ap (λ (k : ℕ). plus (total_of plus zero_ lower) (total_of plus zero_ (take k upper))) low
      ∙ sym (total_of-append lower (take stride upper))
      ∙ ap (total_of plus zero_)
          (sym (take_two stride stride partial) ∙ ap (λ (k : ℕ). take k partial) (omega arith))

  first_total :
      (partial : List M)
      → 1 ≤ length partial
      → get_elem? partial 0 ≡ some (total_of plus zero_ (take 1 partial))
  unfolding total_of
  first_total [] h = absurd (omega (arith, h))
  first_total (x ∷ partial) h = ap some (sym (sum.unit x))

  -- The reduction leaves the sum of all in the first entry.
  pub reduce_from-total_of :
      (k fuel : ℕ) (partial : List M)
      → k < fuel
      → 2 ^ k ≤ length partial
      → get_elem? (reduce_from plus fuel (2 ^ k / 2) partial) 0
        ≡ some (total_of plus zero_ (take (2 ^ k) partial))
  unfolding reduce_from
  reduce_from-total_of k zero partial enough h = absurd (omega (arith, enough))
  reduce_from-total_of zero (suc fuel) partial enough h = first_total partial (omega (arith, h))
  reduce_from-total_of (suc k) (suc fuel) partial enough h =
      let half = half_power k in
      let twice = power_suc k in
      let positive : (2 ^ k == 0) ≡ false = ground (arith, power_positive k) in
      let fits : 2 * 2 ^ k ≤ length partial = omega (arith, h, twice) in
      let next = add_upper plus (2 ^ k) partial in
      rw half (
        rw positive (
          reduce_from-total_of k fuel next (omega (arith, enough))
            (omega (arith, fits, length-add_upper (2 ^ k) partial fits))
          ∙ ap some (
              total_of-add_upper (2 ^ k) partial fits
              ∙ ap (λ (n : ℕ). total_of plus zero_ (take n partial)) (sym twice))))
