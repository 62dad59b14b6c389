-- ===== src/Gpu/Tests/Shader.antt =====
-- A group of two threads on three bytes, whose memory held other counts before.
use net_sentinel.Base.{
  ℕ, zero, suc, true, ◌+◌, ◌≡◌, refl, List, [], ◌∷◌, some, get_elem?, replicate, arith,
  length-replicate,
}
use net_sentinel.Entropy.{shannon_entropy, increment, histogram_from, entropy_from}
use net_sentinel.Gpu.{Pipeline}
use net_sentinel.Gpu.Dispatch.{GpuBackend, kernel_name, halve_threads, group_threads}
use net_sentinel.Gpu.Shader.{
  every, each, Merges, merged, next, clear_every, clear_bins, add_pairs, add_upper, reduce_from,
  thread_sum, group_entropy,
}
use net_sentinel.Gpu.Strides.{ℕ-IsSum}
use net_sentinel.Gpu.Exact.{group_entropy-shannon}
use net_sentinel.Gpu.Tests.{squares, gpu}

run : Unit {0}
unfolding every each clear_every clear_bins add_pairs add_upper reduce_from thread_sum group_entropy
    increment histogram_from entropy_from shannon_entropy halve_threads group_threads
run = tt

abbrev two_threads : Pipeline
two_threads = record { max_threads = 3 }

abbrev memory : List ℕ
memory = replicate 256 5

abbrev bytes : List ℕ
bytes = 7 ∷ 7 ∷ 9 ∷ []

abbrev pair : List ℕ
pair = 7 ∷ 7 ∷ []

strides :
    (every 0 2 bytes ≡ 7 ∷ 9 ∷ [])
    × (every 1 2 bytes ≡ 7 ∷ [])
    × (clear_every 1 2 (4 ∷ 4 ∷ 4 ∷ []) ≡ 4 ∷ 0 ∷ 4 ∷ [])
    × (reduce_from ◌+◌ 9 2 (1 ∷ 2 ∷ 3 ∷ 4 ∷ []) ≡ 10 ∷ 6 ∷ 3 ∷ 4 ∷ [])
unfolding run
strides = (refl, refl, refl, refl)

group_runs : group_entropy squares ◌+◌ 2 memory bytes bytes ≡ some 5
unfolding run
group_runs = refl

-- The second thread is first.
nothing_left : (i x : ℕ) (rest : List ℕ) → ¬ (get_elem? ([] ∷ [] ∷ []) i ≡ some (x ∷ rest))
nothing_left zero x rest e = absurd (cc e)
nothing_left (suc zero) x rest e = absurd (cc e)
nothing_left (suc (suc i)) x rest e = absurd (cc e)

one_order : Merges (each 2 (λ tid. every tid 2 bytes)) bytes
unfolding run
one_order =
    next _ 1 7 [] _ refl (next _ 0 7 (9 ∷ []) _ refl (next _ 0 9 [] _ refl (merged _ nothing_left)))

group_entropy-shannon_example :
    group_entropy squares ◌+◌ (group_threads two_threads) memory bytes bytes
    ≡ some (shannon_entropy squares (some bytes))
unfolding run
group_entropy-shannon_example =
    group_entropy-shannon squares ◌+◌ ℕ-IsSum (λ x y. omega arith) two_threads memory bytes bytes
      (omega arith) (length-replicate {A = ℕ} 256 5) (omega arith) one_order

abbrev cpu_kernel : List ℕ → ℕ
cpu_kernel payload = shannon_entropy squares (some payload)

-- The context that the batch's GPU has, with groups of two threads.
abbrev two_threaded : GpuBackend
two_threaded = record {
  usable = true;
  context = record gpu.context { pipelines = (kernel_name, two_threads) ∷ [] };
}
