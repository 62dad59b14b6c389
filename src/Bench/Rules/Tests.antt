-- ===== src/Bench/Rules/Tests.antt =====
-- One thread and three packets in batches of two, with the rule that wants the payloads.
use net_sentinel.Base.{ℕ, ◌≡◌, ◌<◌, ◌≤◌, refl, true, List, [], ◌∷◌, arith, sum_of, pos}
use net_sentinel.Packet.{QueuedPacket}
use net_sentinel.Parser.{bare_packet}
use net_sentinel.Bench.Rules.{
  stopped, Run, batch_count, packets_from, batch_of, swap_out, swap_back, keep_buffer, payloads_of,
  take_batch, stop, swap, analyze, restore, Steps, done, next, start,
}
use net_sentinel.Bench.Rules.Vectors.{weight_below}
use net_sentinel.Bench.Rules.Once.{run-once}

run : Unit {0}
unfolding batch_count packets_from batch_of swap_out swap_back start
run = tt

abbrev three : ℕ → QueuedPacket
three k = record {
  meta = bare_packet (record { tv_sec = pos 0; tv_usec = pos 0 }) 60 60 [] [];
  payload = k ∷ [];
}

abbrev first : List QueuedPacket
first = three 0 ∷ three 1 ∷ []

abbrev second : List QueuedPacket
second = three 2 ∷ []

swaps :
    (batch_count 3 2 ≡ 2)
    × (batch_of 3 2 three 1 ≡ second)
    × ((swap_out 3 2 three 0 [] 1).payload ≡ [])
    × ((swap_out 3 2 three 0 [] 2).payload ≡ 2 ∷ [])
    × ((swap_out 3 2 three 1 ((8 ∷ []) ∷ (9 ∷ []) ∷ []) 2).payload ≡ 8 ∷ [])
    × ((swap_back 3 2 (swap_out 3 2 three 0 []) 0 first 1).payload ≡ 1 ∷ [])
unfolding run
swaps = (refl, refl, refl, refl, refl, refl)

abbrev through : (ℕ → QueuedPacket) → List (List ℕ) → ℕ → ℕ → QueuedPacket
through packets buffer b = swap_back 3 2 (swap_out 3 2 packets b buffer) b (batch_of 3 2 packets b)

-- The payloads of the thread's batch after the first batch, and after the second.
abbrev once : ℕ → List (List ℕ)
once = keep_buffer 3 2 0 (payloads_of 3 2 (swap_out 3 2 three 0 []) 0) (λ i. [])

abbrev twice : ℕ → List (List ℕ)
twice = keep_buffer 3 2 0 (payloads_of 3 2 (swap_out 3 2 (through three [] 0) 1 (once 0)) 1) once

abbrev at_end : Run
at_end = record {
  next_batch = 3;
  packets = through (through three [] 0) (once 0) 1;
  threads = stopped ∷ [];
  buffers = twice;
  processed = batch_of 3 2 three 0 ∷ batch_of 3 2 (through three [] 0) 1 ∷ [];
}

counts : (0 < batch_count 3 2) × (1 < batch_count 3 2) × (batch_count 3 2 ≤ 2)
unfolding batch_count
counts = (omega arith, omega arith, omega arith)

to_end : Steps 3 2 true (start three 1) at_end
unfolding start
to_end =
    next
      (next
        (next
          (next
            (next
              (next
                (next (next (next done (take_batch 0 refl counts.0)) (swap 0 0 refl refl))
                  (analyze 0 0 (batch_of 3 2 three 0) refl))
                (restore 0 0 (batch_of 3 2 three 0) refl))
              (take_batch 0 refl counts.1))
            (swap 0 1 refl refl))
          (analyze 0 1 (batch_of 3 2 (through three [] 0) 1) refl))
        (restore 0 1 (batch_of 3 2 (through three [] 0) 1) refl))
      (stop 0 refl counts.2)

run-once_example :
    ((k : ℕ) → at_end.packets k ≡ three k)
    × ((weight : QueuedPacket → ℕ)
        → sum_of (sum_of weight) at_end.processed ≡ weight_below weight three 3)
run-once_example = run-once 3 2 (omega arith) three true 1 at_end to_end (omega arith) (refl, tt)
