-- ===== src/Bench/Tests.antt =====
-- Numbers, passes, medians and thread counts.
use net_sentinel.Base.{
  ℕ, ◌+◌, ◌-◌, ◌/◌, ◌≡◌, ◌≤◌, ◌↔◌, refl, max, leb, ltb, none, some, [], ◌∷◌, pos, arith,
}
use net_sentinel.Base.Text.{codes, decimal}
use net_sentinel.CommandLine.{
  skip_spaces, take_sign, take_digits, strtoll, accepted, parse_nonnegative,
}
use net_sentinel.Packet.{QueuedPacket}
use net_sentinel.Parser.{bare_packet}
use net_sentinel.Entropy.{Doubles, shannon_entropy, histogram_from, increment, entropy_from}
use net_sentinel.Engine.{cpu_backend, compute, packet_entropy}
use net_sentinel.Bench.{in_range, count_from_one, count_from_zero, counts-parse_nonnegative}
use net_sentinel.Bench.Passes.{measured_count, pass_from, one_pass, max_error_from}
use net_sentinel.Bench.Sorting.{insert, sort, median, count, median-middle}
use net_sentinel.Bench.Threads.{doublings, unique_after, unique, all_counts, thread_counts}
use net_sentinel.Base.Text.{same_text}
use net_sentinel.Bench.Arguments.{
  take_all, is_path, analysis_last, analysis_value, read_analysis, capture_last, capture_value,
  read_capture,
}

program : Unit {0}
unfolding skip_spaces take_sign take_digits strtoll accepted parse_nonnegative in_range
    count_from_one count_from_zero measured_count pass_from one_pass max_error_from insert sort
    median doublings unique_after unique all_counts thread_counts compute cpu_backend same_text
    take_all is_path analysis_last analysis_value read_analysis capture_last capture_value
    read_capture
program = tt

numbers :
    (count_from_one (codes "64") 256 ≡ some 64)
    × (count_from_one (codes "0") 256 ≡ none)
    × (count_from_zero (codes "0") 256 ≡ some 0)
    × (count_from_zero (codes "-1") 256 ≡ none)
    × (count_from_zero (codes "99999999999999999999") 256 ≡ none)
unfolding program
numbers = (refl, refl, refl, refl, refl)

lists :
    (median ltb (λ x y. (x + y) / 2) (9 ∷ 1 ∷ 4 ∷ []) ≡ some 4)
    × (median ltb (λ x y. (x + y) / 2) (9 ∷ 1 ∷ 4 ∷ 2 ∷ []) ≡ some 3)
    × (thread_counts 1 ≡ 1 ∷ [])
    × (thread_counts 2 ≡ 1 ∷ 2 ∷ [])
    × (thread_counts 8 ≡ 1 ∷ 2 ∷ 4 ∷ 7 ∷ 8 ∷ [])
    × (measured_count 16 ≡ 8192)
    × (max_error_from max (λ x y. x - y) 0 (5 ∷ 9 ∷ []) (4 ∷ 6 ∷ 1 ∷ []) ≡ 3)
unfolding program
lists = (refl, refl, refl, refl, refl, refl, refl)

counts-parse_nonnegative_example :
    (count_from_zero (codes "64") 256 ≡ parse_nonnegative (codes "64") 256)
    × ((count_from_one (codes "64") 256 ≡ some 64)
        ↔ ((parse_nonnegative (codes "64") 256 ≡ some 64) × (◌≤◌ 1 64)))
counts-parse_nonnegative_example = counts-parse_nonnegative (codes "64") 256 64 (omega arith)

median-middle_example :
    (m : ℕ) × ((median ltb (λ x y. (x + y) / 2) (9 ∷ 1 ∷ 4 ∷ []) ≡ some m)
      × ((count (λ x. ltb x m) (9 ∷ 1 ∷ 4 ∷ []) ≤ 1) × (count (λ x. ltb m x) (9 ∷ 1 ∷ 4 ∷ []) ≤ 1)))
median-middle_example =
    median-middle ltb (λ x y e. ground (arith, e)) (λ x y z e f. ground (arith, e, f))
      (λ x y. (x + y) / 2) 1 (9 ∷ 1 ∷ 4 ∷ []) refl

abbrev squares : Doubles ℕ
squares = record {
  zero = 0;
  of_size = λ n. n;
  minus = λ a b. a + b;
  times = λ a b. a + b;
  divide = λ a b. a;
  log2 = λ a. a;
  at_least = λ a b. leb b a;
  two_decimals = decimal;
}

abbrev packet : QueuedPacket
packet = record {
  meta = bare_packet (record { tv_sec = pos 0; tv_usec = pos 0 }) 60 60 [] [];
  payload = 7 ∷ [];
}

passes : one_pass (cpu_backend squares) 2 (packet ∷ packet ∷ packet ∷ []) ≡ some (2 ∷ 2 ∷ 2 ∷ [])
unfolding program packet_entropy shannon_entropy histogram_from increment entropy_from
passes = refl

argument_lists :
    (read_capture 4 (codes "-w" ∷ codes "2" ∷ codes "a.pcap" ∷ [])
      ≡ some (record {
        path = codes "a.pcap";
        workers = 2;
        batch = 256;
        linger_us = 2000;
        capacity = 4096;
        reps = 5;
      }))
    × (read_capture 4 (codes "-w" ∷ codes "0" ∷ codes "a.pcap" ∷ []) ≡ none)
    × (read_capture 4 (codes "-L" ∷ codes "0" ∷ []) ≡ none)
    × (read_analysis 4 (codes "a.pcap" ∷ codes "b.pcap" ∷ []) ≡ none)
    × (read_analysis 0 (codes "a.pcap" ∷ codes "--max-threads" ∷ codes "9" ∷ [])
        ≡ some (record { path = codes "a.pcap"; batch_size = 256; reps = 5; max_threads = 9 }))
unfolding program
argument_lists = (refl, refl, refl, refl, refl)
