-- ===== src/Pipeline/Tests.antt =====
-- One captured packet through one worker, which has it before the capture thread is joined.
use net_sentinel.Base.{
  ℕ, ◌≡◌, refl, ◌&&◌, true, false, some, List, [], ◌∷◌, map, replicate, pos, arith, inr,
}
use net_sentinel.Packet.{ParsedPacket}
use net_sentinel.Parser.{
  bare_packet, parse_packet, parse_ethernet, read8, read16, read_mac, parse_ipv4,
}
use net_sentinel.Queue.{
  make_queue, push, begin_pop, should_linger, take_batch, shutdown, is_finished,
}
use net_sentinel.Queue.Pool.{
  holding, exited, System, start, pop_by, finish_batch, Steps, push_accepted, begin, wait_again,
  pop_first, pop_second, analyze, leave, done, next,
}
use net_sentinel.Queue.Drained.{total, total_batches}
use net_sentinel.Capture.{
  done as exhausted, Capture, ethernet_link, Frame, ready, Round, Delivery, count_one, handle_frame,
  deliver_next, read_burst, poll_answer, continue_rounds, run_polled, run_rounds, run,
}
use net_sentinel.Capture.Coming.{packets_of, packets_rounds}
use net_sentinel.Capture.Limits.{limited}
use net_sentinel.Capture.Replay.{file_round}
use net_sentinel.Pipeline.{captured-processed}

program : Unit {0}
unfolding parse_packet parse_ethernet read8 read16 read_mac parse_ipv4 make_queue push begin_pop
    should_linger take_batch shutdown is_finished start pop_by finish_batch count_one handle_frame
    deliver_next read_burst poll_answer continue_rounds run_polled run_rounds run packets_of
program = tt

abbrev blank : Frame
blank = record {
  bytes = replicate 14 0;
  caplen = 14;
  wire_length = 14;
  ts = record { tv_sec = pos 0; tv_usec = pos 0 };
}

abbrev opened : Capture
opened = record { handle = some ethernet_link; live = false }

abbrev file : List Round
file = file_round ready (blank ∷ []) ∷ []

abbrev captured : Delivery
captured = record {
  handled =
      bare_packet (record { tv_sec = pos 0; tv_usec = pos 0 }) 14 14 (replicate 6 0) (replicate 6 0)
      ∷ [];
  delivered = 1;
  ended = exhausted;
}

-- Packets stand in the queue by their captured lengths.
abbrev queued : ParsedPacket → ℕ
queued packet = packet.capture_length

abbrev at_join : System ℕ
at_join = record {
  queue = record { items = []; capacity = 2; wanted = 64; is_shutdown = false };
  incoming = [];
  workers = holding (14 ∷ []) ∷ [];
  processed = 0;
  batches = 0;
  taken_in = 14 ∷ [];
  popped = 14 ∷ [];
  analyzed = [];
}

abbrev at_end : System ℕ
at_end = record at_join {
  queue = record { items = []; capacity = 2; wanted = 64; is_shutdown = true };
  workers = exited ∷ [];
  processed = 1;
  batches = 1;
  analyzed = (14 ∷ []) ∷ [];
}

to_join : Steps true 64 (start 1 (make_queue 2) (map queued captured.handled)) at_join
unfolding program
to_join =
    next
      (next
        (next (next done (begin 0 refl)) (
          push_accepted 14 []
            (record { items = 14 ∷ []; capacity = 2; wanted = 64; is_shutdown = false }) true refl
            refl))
        (wait_again 0 refl refl))
      (pop_second 0 refl)

to_end : Steps true 64 (record at_join { queue = shutdown at_join.queue }) at_end
unfolding program
to_end =
    next (next (next (next done (analyze 0 (14 ∷ []) refl)) (begin 0 refl)) (pop_first 0 refl refl))
      (leave 0 refl refl)

captured-processed_example :
    let packets = limited 0 0 (packets_rounds (opened.live && true) file) in
    ((weight : ℕ → ℕ) → total weight (map queued packets) ≡ total_batches weight at_end.analyzed)
    × (at_end.processed ≡ captured.delivered)
unfolding program
captured-processed_example =
    captured-processed queued opened true 0 file (omega arith) (inr (refl, omega arith)) refl
      captured refl true 64 1 2 at_join at_end to_join refl refl to_end (refl, tt)
