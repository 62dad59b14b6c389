-- ===== src/Program/Tests.antt =====
-- A replay without a GPU; a threshold and a time are natural numbers.
use net_sentinel.Base.{ℕ, ◌≡◌, ◌*◌, ◌/◌, ltb, true, false, refl, none, some, List, [], ◌∷◌, inr}
use net_sentinel.Base.Text.{codes, concat, decimal, decimal_fuel, same_text}
use net_sentinel.Capture.{handle_of, open_live, open_offline, failed_with, list_devices}
use net_sentinel.CommandLine.{
  skip_spaces, take_sign, take_digits, strtoll, accepted, parse_nonnegative,
}
use net_sentinel.CommandLine.Arguments.{
  Options, Thresholds, invalid_value, with_number, with_threshold, take_value, take_last,
  take_arguments, check_options, read_options,
}
use net_sentinel.Reporting.Counts.{no_reports}
use net_sentinel.Program.{
  fail_with, usage_lines, failure_lines, list_only_exit, open_source, open_failed_lines, not_built,
  choose_backend, banner, World, capture_exit, backend_exit, source_exit, main,
}
use net_sentinel.Program.Summary.{
  Measures, Finished, em_dash, push_wait_seconds, pop_wait_seconds, done_line, types_line,
  waiting_line, fallback_lines, summary_lines,
}
use net_sentinel.Program.Exits.{ExitsIf, CanRun, main-ExitsIf}

program : Unit {0}
unfolding skip_spaces take_sign take_digits strtoll accepted parse_nonnegative invalid_value
    with_number with_threshold take_value take_last take_arguments check_options read_options
    decimal decimal_fuel same_text concat open_live open_offline list_devices usage_lines
    failure_lines list_only_exit open_source open_failed_lines choose_backend banner capture_exit
    backend_exit source_exit main push_wait_seconds pop_wait_seconds done_line types_line
    waiting_line fallback_lines summary_lines
program = tt

abbrev toy : Thresholds ℕ
toy = record {
  strtod = λ text. elim (parse_nonnegative text 99) [ none ↦ (0, false) | some v ↦ (v, true) ];
  below_zero = λ v. false;
  above_eight = λ v. ltb 8 v;
  seven = 7;
}

abbrev whole : Measures ℕ
whole = record {
  of_count = λ n. n;
  times = λ x y. x * y;
  divide = λ x y. x / y;
  positive = λ x. ltb 0 x;
  fixed = λ decimals x. decimal x;
}

abbrev finished : Finished ℕ
finished = record {
  delivered = 90;
  processed = 90;
  batches = 3;
  reports = no_reports;
  waits = record { push_wait_ns = 2000000000; pop_wait_ns = 0 };
  fallbacks = 1;
  seconds = 9;
  capture_seconds = 8;
}

abbrev world : World ℕ
world = record {
  cores = 4;
  devices = failed_with (codes "no permission");
  opened = handle_of 1;
  metal = not_built;
  finished = λ o capture name. finished;
}

abbrev replay : List (List ℕ)
replay = codes "-r" ∷ codes "a.pcap" ∷ []

exits :
    (main toy whole world (codes "ns") (codes "-l" ∷ [])
      ≡ fail_with (codes "error listing devices: no permission" ∷ []))
    × ((main toy whole world (codes "ns") (codes "-g" ∷ replay)).success ≡ false)
    × (main toy whole (record world { opened = handle_of 9 }) (codes "ns") replay
        ≡ fail_with (
            codes
              "failed to open capture source: a.pcap uses an unsupported link-layer type (only Ethernet/DLT_EN10MB is parsed in Phase 1)"
            ∷ []))
unfolding program
exits = (refl, refl, refl)

prints :
    (main toy whole world (codes "ns") replay).output
    ≡ codes
        "capturing from a.pcap ... (3 worker(s), queue capacity 4096, batch size 64, entropy on cpu)"
      ∷ concat (
          codes "done "
          ∷ em_dash
          ∷ codes
              " 90 packet(s) captured, 90 processed, 0 alert(s), 9s, 10 packets/sec, avg batch 30"
          ∷ [])
      ∷ codes "alerts by type: port_scan=0 syn_flood=0 high_entropy=0 signature=0"
      ∷ codes
          "waiting: capture thread blocked on a full queue 25% of its 8s, workers waiting for packets 0% of their time"
      ∷ codes "warning: 1 batch(es) fell back to CPU entropy after a cpu failure"
      ∷ []
unfolding program
prints = refl

main-ExitsIf_example :
    ExitsIf
      ((o : Options ℕ) × ((read_options toy 4 replay ≡ inr o) × CanRun toy whole world o))
      (main toy whole world (codes "ns") replay)
main-ExitsIf_example = main-ExitsIf toy whole world (codes "ns") replay
