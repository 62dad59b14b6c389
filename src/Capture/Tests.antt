-- ===== src/Capture/Tests.antt =====
-- A file of two frames and a cut one, and a live capture of two rounds.
use net_sentinel.Base.{
  ℕ, ◌≡◌, refl, true, false, some, List, [], ◌∷◌, length, replicate, pos, arith, is_some,
  if◌then◌else◌, inl, inr, ◌&&◌,
}
use net_sentinel.Base.Text.{codes}
use net_sentinel.Packet.{ParsedPacket}
use net_sentinel.Parser.{
  ok, bare_packet, parse_packet, parse_ethernet, read8, read16, read_mac, parse_ipv4,
}
use net_sentinel.Parser.Safety.{Returns}
use net_sentinel.Capture.{
  Capture, new_capture, ethernet_link, handle_of, refused, open_live, open_offline, Frame, frame,
  nothing_ready, ready, timed_out, interrupted, failed, Turn, Round, done, waiting, count_one,
  handle_frame, stop_with, deliver_next, read_burst, poll_answer, continue_rounds, run_polled,
  run_rounds, run, found, failed_with, list_devices,
}
use net_sentinel.Capture.Coming.{packets_of, packets_rounds, end_rounds}
use net_sentinel.Capture.Limits.{limited, Delivers}
use net_sentinel.Capture.Rounds.{run-Delivers}
use net_sentinel.Capture.Replay.{file_round, packets_file, run-open_offline}

program : Unit {0}
unfolding parse_packet parse_ethernet read8 read16 read_mac parse_ipv4 open_live open_offline
    count_one handle_frame deliver_next read_burst poll_answer continue_rounds run_polled run_rounds
    run list_devices packets_of
program = tt

-- A frame without IPv4, of so many bytes.
abbrev blank : ℕ → Frame
blank n = record {
  bytes = replicate n 0;
  caplen = n;
  wire_length = n;
  ts = record { tv_sec = pos 0; tv_usec = pos 0 };
}

abbrev packet : ParsedPacket
packet =
    bare_packet (record { tv_sec = pos 0; tv_usec = pos 0 }) 14 14 (replicate 6 0) (replicate 6 0)

abbrev opened : Capture
opened = record { handle = some ethernet_link; live = false }

abbrev live : Capture
live = record { handle = some ethernet_link; live = true }

abbrev seen : Frame → Turn
seen f = record { stop = false; next = frame f }

abbrev rounds : List Round
rounds =
    record { stop = false; polled = timed_out; turns = [] }
    ∷ record {
      stop = false;
      polled = ready;
      turns = seen (blank 14) ∷ record { stop = false; next = nothing_ready } ∷ [];
    }
    ∷ record { stop = false; polled = interrupted; turns = [] }
    ∷ record { stop = true; polled = failed; turns = [] }
    ∷ []

runs :
    (run opened true 0 (file_round ready (blank 14 ∷ blank 13 ∷ blank 14 ∷ []) ∷ [])
      ≡ ok (record { handled = packet ∷ packet ∷ []; delivered = 2; ended = done }))
    × (run opened true 1 (file_round failed (blank 14 ∷ blank 13 ∷ blank 14 ∷ []) ∷ [])
        ≡ ok (record { handled = packet ∷ []; delivered = 1; ended = done }))
    × (run live true 0 rounds ≡ ok (record { handled = packet ∷ []; delivered = 1; ended = done }))
    × (run new_capture true 0 rounds ≡ ok (stop_with 0 done))
    × (run live true 0 (record { stop = false; polled = timed_out; turns = [] } ∷ [])
        ≡ ok (stop_with 0 waiting))
unfolding program
runs = (refl, refl, refl, refl, refl)

opens :
    ((open_live (handle_of 1) (codes "en0") [] new_capture).capture ≡ live)
    × ((open_live (handle_of 113) (codes "en0") [] new_capture).capture ≡ new_capture)
    × ((open_offline (refused (codes "no file")) (codes "x") [] new_capture).error
        ≡ codes "no file")
    × (list_devices (found (codes "en0" ∷ [])) [] ≡ (codes "en0" ∷ [], []))
    × (list_devices (failed_with (codes "no")) [] ≡ ([], codes "no"))
unfolding program
opens = (refl, refl, refl, refl, refl)

run-Delivers_example :
    Returns
      (λ d.
        if is_some live.handle
        then Delivers 0 0
            (packets_rounds (live.live && true) rounds)
            (end_rounds (live.live && true) rounds)
            d
        else (d ≡ stop_with 0 done))
      (run live true 0 rounds)
unfolding program
run-Delivers_example = run-Delivers live true 0 rounds (omega arith) (inr (refl, omega arith))

run-open_offline_example :
    Returns
      (λ d.
        (d.handled ≡ limited 1 0 (packets_file (blank 14 ∷ blank 13 ∷ blank 14 ∷ [])))
        × (d.delivered ≡ length d.handled)
        × (d.ended ≡ done))
      (run
        (open_offline (handle_of ethernet_link) (codes "x") [] new_capture).capture
        true
        1
        (file_round ready (blank 14 ∷ blank 13 ∷ blank 14 ∷ []) ∷ []))
run-open_offline_example =
    run-open_offline (codes "x") [] true 1 ready (blank 14 ∷ blank 13 ∷ blank 14 ∷ []) (omega arith)
      (inl (omega arith))
