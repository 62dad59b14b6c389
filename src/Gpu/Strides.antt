-- ===== src/Gpu/Strides.antt =====
-- The threads' strides share out a list.
use net_sentinel.Base.{
  ℕ, zero, suc, ◌+◌, ◌-◌, ◌≡◌, refl, sym, ap, ◌∙◌, List, [], ◌∷◌, some, length, get_elem?, set,
  replicate, arith, sum_of, sum_of-set,
}
use net_sentinel.Gpu.Shader.{every, each, Merges, merged, next, clear_every, clear_bins}

-- A commutative addition with a zero.
pub record IsSum {M : Type 0} (plus : M → M → M) (zero_ : M) : Type 0 where
  pub assoc : (x y z : M) → plus (plus x y) z ≡ plus x (plus y z)
  pub comm : (x y : M) → plus x y ≡ plus y x
  pub unit : (x : M) → plus x zero_ ≡ x

module _ {M : Type 0} (plus : M → M → M) (zero_ : M) where
  unfoldable pub total_of : List M → M
  total_of [] = zero_
  total_of (x ∷ xs) = plus x (total_of xs)

module _ {M : Type 0} (plus : M → M → M) (zero_ : M) (sum : IsSum plus zero_) where
  pub middle : (x y z : M) → plus (plus x y) z ≡ plus x (plus z y)
  middle x y z = sum.assoc x y z ∙ ap (plus x) (sum.comm y z)

  -- The last value, taken from the end.
  total_of-each_last :
      (m : ℕ) (f : ℕ → M)
      → total_of plus zero_ (each (suc m) f) ≡ plus (total_of plus zero_ (each m f)) (f m)
  unfolding total_of each
  total_of-each_last zero f = sum.comm (f 0) zero_
  total_of-each_last (suc m) f =
      ap (plus (f 0)) (total_of-each_last m (λ i. f (suc i))) ∙ sym (sum.assoc (f 0) _ _)

  pub total_of-each_zero :
      (m : ℕ) (f : ℕ → M) → ((i : ℕ) → f i ≡ zero_) → total_of plus zero_ (each m f) ≡ zero_
  unfolding total_of each
  total_of-each_zero zero f h = refl
  total_of-each_zero (suc m) f h =
      ap (λ (x : M). plus x (total_of plus zero_ (each m (λ i. f (suc i))))) (h 0)
      ∙ (sum.comm zero_ _ ∙ (sum.unit _ ∙ total_of-each_zero m (λ i. f (suc i)) (λ i. h (suc i))))

  -- What is added up entry by entry can be added up by each thread and then over the threads.
  pub total_of-every :
      {A : Type 0} (measure : List A → M) (value : A → M)
      → measure [] ≡ zero_
      → ((x : A) (xs : List A) → measure (x ∷ xs) ≡ plus (value x) (measure xs))
      → (m : ℕ) (xs : List A)
      → total_of plus zero_ (each (suc m) (λ tid. measure (every tid (suc m) xs))) ≡ measure xs
  unfolding every total_of each
  total_of-every measure value none_ more m [] =
      total_of-each_zero (suc m) _ (λ i. empty i) ∙ sym none_
    where
      empty : (i : ℕ) → measure (every i (suc m) []) ≡ zero_
      empty zero = none_
      empty (suc i) = none_
  total_of-every measure value none_ more m (x ∷ xs) =
      let F = λ (tid : ℕ). measure (every tid (suc m) xs) in
      let others = total_of plus zero_ (each m F) in
      let one_less : suc m - 1 ≡ m = omega arith in
      ap (λ (n : ℕ). plus (measure (x ∷ every n (suc m) xs)) others) one_less
      ∙ ap (λ (z : M). plus z others) (more x (every m (suc m) xs))
      ∙ sum.assoc (value x) (F m) others
      ∙ ap (plus (value x)) (
          sum.comm (F m) others
          ∙ (sym (total_of-each_last m F) ∙ total_of-every measure value none_ more m xs))
      ∙ sym (more x xs)

-- Addition of natural numbers.
pub ℕ-IsSum : IsSum ◌+◌ 0
ℕ-IsSum = record {
  assoc = λ x y z. omega arith;
  comm = λ x y. omega arith;
  unit = λ x. omega arith;
}

module _ {A : Type 0} (measure : List A → ℕ) (value : A → ℕ) (none_ : measure [] ≡ 0)
    (more : (x : A) (xs : List A) → measure (x ∷ xs) ≡ value x + measure xs) where
  measure_nothing :
      (threads : List (List A))
      → ((i : ℕ) (x : A) (rest : List A) → ¬ (get_elem? threads i ≡ some (x ∷ rest)))
      → sum_of measure threads ≡ 0
  measure_nothing [] h = refl
  measure_nothing ([] ∷ threads) h =
      omega (arith, none_, measure_nothing threads (λ i x rest. h (suc i) x rest))
  measure_nothing ((x ∷ xs) ∷ threads) h = absurd (h 0 x xs refl)

  -- An order of the threads' work holds all of it.
  Merges-measure :
      (threads : List (List A)) (order : List A)
      → Merges threads order
      → measure order ≡ sum_of measure threads
  Merges-measure threads [] (merged _ h) = none_ ∙ sym (measure_nothing threads h)
  Merges-measure threads (x ∷ order) (next _ i _ rest _ e m) = omega (
    arith,
    more x order,
    more x rest,
    Merges-measure (set threads i rest) order m,
    sum_of-set measure threads i (x ∷ rest) rest e,
  )

  sum_of-each :
      (n : ℕ) (f : ℕ → List A)
      → sum_of measure (each n f) ≡ total_of ◌+◌ 0 (each n (λ i. measure (f i)))
  unfolding each total_of
  sum_of-each zero f = refl
  sum_of-each (suc n) f = ap (λ k. measure (f 0) + k) (sum_of-each n (λ i. f (suc i)))

  -- In any order, the threads together do what is there to do.
  pub Merges-every :
      (m : ℕ) (xs order : List A)
      → Merges (each (suc m) (λ tid. every tid (suc m) xs)) order
      → measure order ≡ measure xs
  Merges-every m xs order merges =
      Merges-measure _ order merges
      ∙ (sum_of-each (suc m) (λ tid. every tid (suc m) xs)
          ∙ total_of-every ◌+◌ 0 ℕ-IsSum measure value none_ more m xs)

clear_every_comm :
    (a b threads : ℕ) (bins : List ℕ)
    → clear_every a threads (clear_every b threads bins)
      ≡ clear_every b threads (clear_every a threads bins)
unfolding clear_every
clear_every_comm a b threads [] = refl
clear_every_comm zero zero threads (bin ∷ bins) = refl
clear_every_comm zero (suc b) threads (bin ∷ bins) =
    ap (◌∷◌ 0) (clear_every_comm (threads - 1) b threads bins)
clear_every_comm (suc a) zero threads (bin ∷ bins) =
    ap (◌∷◌ 0) (clear_every_comm a (threads - 1) threads bins)
clear_every_comm (suc a) (suc b) threads (bin ∷ bins) =
    ap (◌∷◌ bin) (clear_every_comm a b threads bins)

-- A further thread may come first.
clear_bins_comm :
    (n a threads : ℕ) (bins : List ℕ)
    → clear_bins n threads (clear_every a threads bins)
      ≡ clear_every a threads (clear_bins n threads bins)
unfolding clear_bins
clear_bins_comm zero a threads bins = refl
clear_bins_comm (suc n) a threads bins =
    ap (clear_every n threads) (clear_bins_comm n a threads bins)
    ∙ clear_every_comm n a threads (clear_bins n threads bins)

clear_bins_cons :
    (n threads bin : ℕ) (bins : List ℕ)
    → clear_bins (suc n) threads (bin ∷ bins)
      ≡ 0 ∷ clear_bins n threads (clear_every (threads - 1) threads bins)
unfolding clear_bins clear_every
clear_bins_cons zero threads bin bins = refl
clear_bins_cons (suc n) threads bin bins =
    ap (clear_every (suc n) threads) (clear_bins_cons n threads bin bins)

clear_bins_nil : (n threads : ℕ) → clear_bins n threads [] ≡ []
unfolding clear_bins clear_every
clear_bins_nil zero threads = refl
clear_bins_nil (suc n) threads = ap (clear_every n threads) (clear_bins_nil n threads)

-- Every thread's turn leaves only zeros.
pub clear_bins-replicate :
    (m : ℕ) (bins : List ℕ) → clear_bins (suc m) (suc m) bins ≡ replicate (length bins) 0
unfolding clear_bins
clear_bins-replicate m [] = clear_bins_nil (suc m) (suc m)
clear_bins-replicate m (bin ∷ bins) =
    let one_less : suc m - 1 ≡ m = omega arith in
    clear_bins_cons m (suc m) bin bins
    ∙ ap (◌∷◌ 0) (
        ap (λ (n : ℕ). clear_bins m (suc m) (clear_every n (suc m) bins)) one_less
        ∙ (clear_bins_comm m m (suc m) bins ∙ clear_bins-replicate m bins))
