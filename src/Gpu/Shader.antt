-- ===== src/Gpu/Shader.antt =====
-- src/shaders/payload_entropy.metal: what the threads of one group do for its payload. The barriers separate the
-- phases; within a phase only the increments of the histogram meet, and their order is an argument. A `uint`
-- loop from `tid` in strides of `threads` is a walk along the list.
use net_sentinel.Base.{
  ℕ, zero, suc, ◌-◌, ◌/◌, ◌≡◌, ◌==◌, if◌then◌else◌, Option, some, List, [], ◌∷◌, ◌++◌, length,
  get_elem?, set, take, drop,
}
use net_sentinel.Entropy.{Doubles, histogram_from, entropy_from}

module _ {A : Type 0} where
  -- The entries that a thread reads which skips `wait` of them first.
  unfoldable pub every : (wait threads : ℕ) → List A → List A
  every wait threads [] = []
  every zero threads (x ∷ xs) = x ∷ every (threads - 1) threads xs
  every (suc wait) threads (x ∷ xs) = every wait threads xs

  -- The values of the threads, by `tid`.
  unfoldable pub each : (threads : ℕ) → (ℕ → A) → List A
  each zero f = []
  each (suc n) f = f 0 ∷ each n (λ i. f (suc i))

  -- What each of the threads still has to do, and an order in which it is done.
  pub data Merges : List (List A) → List A → Type 0 where
    merged :
        (threads : List (List A))
        → ((i : ℕ) (x : A) (rest : List A) → ¬ (get_elem? threads i ≡ some (x ∷ rest)))
        → Merges threads []
    next :
        (threads : List (List A)) (i : ℕ) (x : A) (rest order : List A)
        → get_elem? threads i ≡ some (x ∷ rest)
        → Merges (set threads i rest) order
        → Merges threads (x ∷ order)

-- The bins that a thread clears.
unfoldable pub clear_every : (wait threads : ℕ) → List ℕ → List ℕ
clear_every wait threads [] = []
clear_every zero threads (bin ∷ bins) = 0 ∷ clear_every (threads - 1) threads bins
clear_every (suc wait) threads (bin ∷ bins) = bin ∷ clear_every wait threads bins

-- The first `n` threads' turns.
unfoldable pub clear_bins : (n threads : ℕ) → List ℕ → List ℕ
unfolding clear_every
clear_bins zero threads bins = bins
clear_bins (suc n) threads bins = clear_every n threads (clear_bins n threads bins)

module _ {Float : Type 0} (plus : Float → Float → Float) where
  unfoldable pub add_pairs : List Float → List Float → List Float
  add_pairs [] upper = []
  add_pairs (x ∷ lower) [] = []
  add_pairs (x ∷ lower) (y ∷ upper) = plus x y ∷ add_pairs lower upper

  -- The threads below `stride` each add what stands `stride` above their own.
  unfoldable pub add_upper : (stride : ℕ) → List Float → List Float
  unfolding add_pairs
  add_upper stride partial =
      add_pairs (take stride partial) (drop stride partial) ++ drop stride partial

  unfoldable pub reduce_from : (fuel stride : ℕ) → List Float → List Float
  unfolding add_upper
  reduce_from zero stride partial = partial
  reduce_from (suc fuel) stride partial =
      let rest = reduce_from fuel (stride / 2) (add_upper stride partial) in
      if stride == 0 then partial else rest

module _ {Float : Type 0} (float : Doubles Float) where
  -- The sum of thread `tid`. The loop over its bins is that of `shannon_entropy`.
  unfoldable pub thread_sum : (threads size : ℕ) → List ℕ → (tid : ℕ) → Float
  unfolding every entropy_from
  thread_sum threads size histogram tid =
      if size == 0
      then float.zero
      else entropy_from float float.zero size (every tid threads histogram)

module _ {Float : Type 0} (float : Doubles Float) (plus : Float → Float → Float) where
  -- What the group writes: `order` is the order of the increments, `bins` what the memory of the
  -- histogram held before. The 256 bytes of threads at most need a fuel of 9.
  unfoldable pub group_entropy :
      (threads : ℕ) → (bins : List ℕ) → (order payload : List ℕ) → Option Float
  unfolding clear_bins histogram_from each thread_sum reduce_from
  group_entropy threads bins order payload =
      let histogram = histogram_from (clear_bins threads threads bins) order in
      let partial = each threads (thread_sum float threads (length payload) histogram) in
      get_elem? (reduce_from plus 9 (threads / 2) partial) 0
