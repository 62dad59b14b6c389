-- ===== src/Bench/Stages/Tests.antt =====
-- A file of one frame through a stage with a queue and one worker.
use net_sentinel.Base.{
  ℕ, ◌≡◌, ◌%◌, ◌^◌, ◌*◌, ◌/◌, ltb, if◌then◌else◌, refl, true, false, List, [], ◌∷◌, replicate, pos,
  arith, inl, inr,
}
use net_sentinel.Base.Text.{codes, concat, decimal, decimal_fuel}
use net_sentinel.Packet.{QueuedPacket}
use net_sentinel.Parser.{
  bare_packet, parse_packet, parse_ethernet, read8, read16, read_mac, parse_ipv4,
}
use net_sentinel.Parser.Safety.{Returns}
use net_sentinel.Queue.{
  make_queue, push, begin_pop, should_linger, take_batch, shutdown, is_finished,
}
use net_sentinel.Queue.Pool.{
  holding, exited, System, start, pop_by, finish_batch, Steps, push_accepted, begin, wait_again,
  pop_first, pop_second, analyze, leave, done, next,
}
use net_sentinel.Capture.{Frame, Next, frame, source_ended}
use net_sentinel.Capture.Coming.{packets_of}
use net_sentinel.Program.Summary.{Measures}
use net_sentinel.Bench.Stages.{
  queue_no_payload, start_reading, meta_only, run_packet, run_frame, run_frames, finish_stage,
}
use net_sentinel.Bench.Stages.Counted.{pushed_all, counted_all}
use net_sentinel.Bench.Stages.Complete.{run_stage_complete}

program : Unit {0}
unfolding parse_packet parse_ethernet read8 read16 read_mac parse_ipv4 make_queue push begin_pop
    should_linger take_batch shutdown is_finished start pop_by finish_batch packets_of meta_only
    run_packet run_frame run_frames finish_stage concat decimal decimal_fuel
program = tt

abbrev blank : Frame
blank = record {
  bytes = replicate 14 0;
  caplen = 14;
  wire_length = 14;
  ts = record { tv_sec = pos 0; tv_usec = pos 0 };
}

abbrev file : List Next
file = frame blank ∷ source_ended ∷ []

abbrev whole : Measures ℕ
whole = record {
  of_count = λ n. n;
  times = λ x y. x * y;
  divide = λ x y. x / y;
  positive = λ x. ltb 0 x;
  fixed = λ decimals x. decimal x;
}

lost :
    finish_stage whole queue_no_payload 3 2 1 9
    ≡ inl (codes "queue lost packets: pushed 3, consumed 2")
unfolding program
lost = refl

abbrev packet : QueuedPacket
packet = record {
  meta =
      bare_packet (record { tv_sec = pos 0; tv_usec = pos 0 }) 14 14 (replicate 6 0)
        (replicate 6 0);
  payload = [];
}

abbrev at_join : System QueuedPacket
at_join = record {
  queue = record { items = []; capacity = 2; wanted = 64; is_shutdown = false };
  incoming = [];
  workers = holding (packet ∷ []) ∷ [];
  processed = 0;
  batches = 0;
  taken_in = packet ∷ [];
  popped = packet ∷ [];
  analyzed = [];
}

abbrev at_end : System QueuedPacket
at_end = record at_join {
  queue = record { items = []; capacity = 2; wanted = 64; is_shutdown = true };
  workers = exited ∷ [];
  processed = 1;
  batches = 1;
  analyzed = (packet ∷ []) ∷ [];
}

to_join : Steps true 64 (start 1 (make_queue 2) (pushed_all queue_no_payload file)) at_join
unfolding program
to_join =
    next
      (next
        (next (next done (begin 0 refl)) (
          push_accepted packet []
            (record { items = packet ∷ []; capacity = 2; wanted = 64; is_shutdown = false }) true
            refl refl))
        (wait_again 0 refl refl))
      (pop_second 0 refl)

to_end : Steps true 64 (record at_join { queue = shutdown at_join.queue }) at_end
unfolding program
to_end =
    next
      (next (next (next done (analyze 0 (packet ∷ []) refl)) (begin 0 refl))
        (pop_first 0 refl refl))
      (leave 0 refl refl)

run_stage_complete_example :
    Returns
      (λ after.
        (after.pushed ≡ pushed_all queue_no_payload file)
        × ((after.packets ≡ counted_all queue_no_payload file % 2 ^ 64)
            × (finish_stage whole queue_no_payload after.packets 1 1 9
                ≡ inr (record {
                  packets = after.packets;
                  seconds = 9;
                  avg_batch =
                      if ltb 0 1
                      then whole.divide (whole.of_count after.packets) (whole.of_count 1)
                      else whole.of_count 0;
                }))))
      (run_frames queue_no_payload file start_reading)
run_stage_complete_example =
    run_stage_complete whole queue_no_payload file true 64 1 2 at_join at_end 9 refl
      (((omega arith, omega arith), (tt, tt))) to_join refl refl to_end (refl, tt)
