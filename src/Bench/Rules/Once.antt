-- ===== src/Bench/Rules/Once.antt =====
-- Which packets the rule is run on, and what the vector holds, at the end.
use net_sentinel.Base.{
  ℕ, zero, suc, ◌*◌, ◌≡◌, ◌≢◌, ◌<◌, refl, sym, ap, ◌∙◌, arith, min, Bool, List, [], ◌∷◌, replicate,
  length, length-set, length-replicate, All, All-replicate, sum_of,
}
use net_sentinel.Packet.{QueuedPacket}
use net_sentinel.Bench.Rules.{
  Phase, taking, stopped, Run, Step, take_batch, stop, run_in_place, swap, analyze, restore, Steps,
  done, next, start,
}
use net_sentinel.Bench.Rules.Vectors.{weight_below}
use net_sentinel.Bench.Rules.Invariant.{
  has, covers, pending, Honest, has_stopped, held, IsRun, past_batches,
}
use net_sentinel.Bench.Rules.Kept.{
  Step-take, Step-stop, Step-in_place, Step-swap, Step-analyze, Step-restore,
}

module _ (size batch_size : ℕ) (pos : 0 < batch_size) (packets : ℕ → QueuedPacket) where
  Step-IsRun :
      (whole : Bool) (s t : Run)
      → Step size batch_size whole s t
      → IsRun size batch_size pos packets s
      → IsRun size batch_size pos packets t
  Step-IsRun whole s t (take_batch i e lt) r = Step-take size batch_size pos packets s i r e lt
  Step-IsRun whole s t (stop i e le) r = Step-stop size batch_size pos packets s i r e le
  Step-IsRun whole s t (run_in_place i b w e) r =
      Step-in_place size batch_size pos packets s i b r e
  Step-IsRun whole s t (swap i b w e) r = Step-swap size batch_size pos packets s i b r e
  Step-IsRun whole s t (analyze i b batch e) r =
      Step-analyze size batch_size pos packets s i b batch r e
  Step-IsRun whole s t (restore i b batch e) r =
      Step-restore size batch_size pos packets s i b batch r e

  sum_of_taking :
      (f : Phase → ℕ) → f taking ≡ 0 → (threads : ℕ) → sum_of f (replicate threads taking) ≡ 0
  sum_of_taking f z zero = refl
  sum_of_taking f z (suc n) = omega (arith, z, sum_of_taking f z n)

  start-IsRun : (threads : ℕ) → IsRun size batch_size pos packets (start packets threads)
  unfolding start
  start-IsRun threads = record {
    memory = λ k.
        ap (λ (n : ℕ). held size batch_size pos packets n (packets k))
          (sym (sum_of_taking (covers size batch_size pos packets k) refl threads));
    own = λ b. omega (arith, sum_of_taking (has size batch_size pos packets b) refl threads);
    fresh = λ b l. sum_of_taking (has size batch_size pos packets b) refl threads;
    honest = All-replicate (Honest size batch_size pos packets) threads taking tt;
    empty = λ i. tt;
    ends = λ n. absurd (n (sum_of_taking (has_stopped size batch_size pos packets) refl threads));
    shared = λ weight.
        let none_ : min (0 * batch_size) size ≡ 0 = omega arith in
        omega (
          arith,
          sum_of_taking (pending size batch_size pos packets weight) refl threads,
          ap (weight_below weight packets) none_,
        );
  }

  Steps-IsRun :
      (whole : Bool) (threads : ℕ) (s : Run)
      → Steps size batch_size whole (start packets threads) s
      → IsRun size batch_size pos packets s
  Steps-IsRun whole threads s done = start-IsRun threads
  Steps-IsRun whole threads s (next {t} steps step) =
      Step-IsRun whole t s step (Steps-IsRun whole threads t steps)

  all_stopped :
      (f : Phase → ℕ)
      → f stopped ≡ 0
      → (threads : List Phase) → All (λ phase. phase ≡ stopped) threads
      → sum_of f threads ≡ 0
  all_stopped f z [] gone = refl
  all_stopped f z (phase ∷ threads) gone =
      omega (arith, z, ap f gone.0, all_stopped f z threads gone.1)

  some_stopped :
      (threads : List Phase)
      → 0 < length threads
      → All (λ phase. phase ≡ stopped) threads
      → sum_of (has_stopped size batch_size pos packets) threads ≢ 0
  some_stopped [] h gone = absurd (omega (arith, h))
  some_stopped (phase ∷ threads) h gone =
      λ z. omega (arith, z, ap (has_stopped size batch_size pos packets) gone.0)

  -- No thread is added or lost.
  length-Step :
      (whole : Bool) (s t : Run)
      → Step size batch_size whole s t
      → length t.threads ≡ length s.threads
  length-Step whole s t (take_batch i e lt) = length-set s.threads i _
  length-Step whole s t (stop i e le) = length-set s.threads i _
  length-Step whole s t (run_in_place i b w e) = length-set s.threads i _
  length-Step whole s t (swap i b w e) = length-set s.threads i _
  length-Step whole s t (analyze i b batch e) = length-set s.threads i _
  length-Step whole s t (restore i b batch e) = length-set s.threads i _

  length-Steps :
      (whole : Bool) (threads : ℕ) (s : Run)
      → Steps size batch_size whole (start packets threads) s
      → length s.threads ≡ threads
  unfolding start
  length-Steps whole threads s done = length-replicate {A = Phase} threads taking
  length-Steps whole threads s (next {t} steps step) =
      length-Step whole t s step ∙ length-Steps whole threads t steps

  -- When every thread has left its loop, and there is one: the rule was run exactly once on each packet with
  -- its own payload, whatever the interleaving, and the vector is as it was before. Batches are of at least one
  -- packet. That each packet is given once is said by weights.
  pub run-once :
      (whole : Bool) (threads : ℕ) (s : Run)
      → Steps size batch_size whole (start packets threads) s
      → 0 < threads
      → All (λ phase. phase ≡ stopped) s.threads
      → ((k : ℕ) → s.packets k ≡ packets k)
        × ((weight : QueuedPacket → ℕ)
            → sum_of (sum_of weight) s.processed ≡ weight_below weight packets size)
  run-once whole threads s steps some_thread gone =
      let r = Steps-IsRun whole threads s steps in
      (
        λ k.
            r.memory k
            ∙ ap (λ (n : ℕ). held size batch_size pos packets n (packets k))
                (all_stopped (covers size batch_size pos packets k) refl s.threads gone),
        λ weight.
            let whole_vector : min (s.next_batch * batch_size) size ≡ size = omega (
              arith,
              past_batches size batch_size pos packets s.next_batch (
                  r.ends (
                    some_stopped s.threads
                      (omega (arith, length-Steps whole threads s steps, some_thread)) gone)),
            ) in
            omega (
              arith,
              r.shared weight,
              all_stopped (pending size batch_size pos packets weight) refl s.threads gone,
              ap (weight_below weight packets) whole_vector,
            ),
      )
