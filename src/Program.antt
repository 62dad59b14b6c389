-- ===== src/Program.antt =====
-- `main` of src/main.cpp behind its arguments: the list of devices, the ways to fail before the capture, and
-- the lines that it prints. What libpcap and Metal answer, and what the threads leave when they are
-- joined, are arguments; `net_sentinel.Pipeline` is about those threads. Both streams are lists of lines.
pub mod Summary
pub mod Exits
mod Tests
use net_sentinel.Base.{
  ℕ, Bool, true, false, not, ◌&&◌, ◌==◌, if◌then◌else◌, List, [], ◌∷◌, ◌++◌, ◌⊎◌, inl, inr, length,
}
use net_sentinel.Base.Text.{codes, decimal, concat}
use net_sentinel.Capture.{
  Capture, new_capture, Opened, Open, open_live, open_offline, Devices, list_devices,
}
use net_sentinel.CommandLine.Arguments.{Options, Failure, usage, message, Thresholds, read_options}
use net_sentinel.Program.Summary.{Finished, Measures, summary_lines, em_dash}

-- How the program ends: with `EXIT_SUCCESS` or not, and what it has printed.
pub record Exit : Type 0 where
  pub success : Bool
  pub output : List (List ℕ)
  pub errors : List (List ℕ)

abbrev pub fail_with : List (List ℕ) → Exit
fail_with errors = record { success = false; output = []; errors = errors }

-- `print_usage`.
unfoldable pub usage_lines : (argv0 : List ℕ) → List (List ℕ)
usage_lines argv0 =
    concat (codes "Usage: " ∷ argv0 ∷ codes " -i <device> | -r <file.pcap> [options]" ∷ [])
    ∷ codes "  -i <device>   capture live from a network interface"
    ∷ codes "  -r <file>     replay packets from a .pcap file"
    ∷ codes "  -c <count>    stop after this many parsed packets (0 = unlimited)"
    ∷ codes "  -l            list available capture devices and exit"
    ∷ codes "  -w <n>        worker thread count (default: cores - 1)"
    ∷ codes "  -q <n>        bounded queue capacity (default: 4096)"
    ∷ codes "  -b <n>        max packets a worker pops per batch (default: 64)"
    ∷ codes "  -L <usec>     how long a worker waits to fill a batch (default: 2000)"
    ∷ codes "  -v            print every packet, not just alerts"
    ∷ codes "  -e <bits>     high-entropy alert threshold, bits/byte (default: 7.0)"
    ∷ codes "  -g            compute entropy on the Metal GPU (Metal builds only)"
    ∷ codes "  -s            silent: count alerts without printing them (for benchmarking)"
    ∷ []

unfoldable pub failure_lines : (argv0 : List ℕ) → Failure → List (List ℕ)
unfolding usage_lines
failure_lines argv0 usage = usage_lines argv0
failure_lines argv0 (message text) = text ∷ []

-- The branch of `-l`.
unfoldable pub list_only_exit : Devices → Exit
unfolding list_devices
list_only_exit answer =
    let (devices, error) = list_devices answer [] in
    if not (length error == 0) && length devices == 0
    then fail_with (concat (codes "error listing devices: " ∷ error ∷ []) ∷ [])
    else record { success = true; output = devices; errors = [] }

-- The capture with the source that the options name.
unfoldable pub open_source : {Double : Type 0} → Options Double → Opened → Open
unfolding open_live open_offline
open_source o answer =
    if length o.device == 0
    then open_offline answer o.pcap_file [] new_capture
    else open_live answer o.device [] new_capture

unfoldable pub open_failed_lines :
    {Double : Type 0} → Options Double → (error : List ℕ) → List (List ℕ)
open_failed_lines o error =
    concat (codes "failed to open capture source: " ∷ error ∷ [])
    ∷ (if length o.device == 0
        then []
        else concat (
            codes "(on macOS this is often the /dev/bpf* permission issue "
            ∷ em_dash
            ∷ codes " see README.md)"
            ∷ [])
          ∷ [])

-- The build, and what the constructor of `GpuEntropyBackend` finds: its name, or why it is not `ok`.
pub data Metal : Type 0 where
  not_built : Metal
  available : (name : List ℕ) → Metal
  unavailable : (error : List ℕ) → Metal

-- The name of the backend, or the message of the failure.
unfoldable pub choose_backend : (use_gpu : Bool) → Metal → List ℕ ⊎ List ℕ
choose_backend false metal = inr (codes "cpu")
choose_backend true (available name) = inr name
choose_backend true (unavailable error) = inl (concat (codes "GPU unavailable: " ∷ error ∷ []))
choose_backend true not_built =
    inl (codes "-g needs a Metal build: cmake -S . -B build -DNETSENTINEL_ENABLE_METAL=ON")

unfoldable pub banner : {Double : Type 0} → Options Double → (backend_name : List ℕ) → List ℕ
banner o backend_name = concat (
    codes "capturing from "
    ∷ (if length o.device == 0 then o.pcap_file else o.device)
    ∷ codes " ... ("
    ∷ decimal o.num_workers
    ∷ codes " worker(s), queue capacity "
    ∷ decimal o.queue_capacity
    ∷ codes ", batch size "
    ∷ decimal o.batch_size
    ∷ codes ", entropy on "
    ∷ backend_name
    ∷ codes ")"
    ∷ [])

-- What the world answers. `finished` is what the joined threads leave.
pub record World (Double : Type 0) : Type 0 where
  pub cores : ℕ
  pub devices : Devices
  pub opened : Opened
  pub metal : Metal
  pub finished : Options Double → Capture → (backend_name : List ℕ) → Finished Double

module _ {Double : Type 0} (double : Thresholds Double) (measures : Measures Double) where
  -- The program with an open capture and a backend.
  unfoldable pub capture_exit :
      World Double → Options Double → Capture → (backend_name : List ℕ) → Exit
  unfolding banner summary_lines
  capture_exit world o capture backend_name =
      let finished = world.finished o capture backend_name in
      record {
        success = true;
        output =
            banner o backend_name
            ∷ (finished.reports.lines
                ++ summary_lines measures o.num_workers backend_name finished);
        errors = [];
      }

  unfoldable pub backend_exit : World Double → Options Double → Capture → Exit
  unfolding choose_backend
  backend_exit world o capture = elim (choose_backend o.use_gpu world.metal) [
    | inl error ↦ fail_with (error ∷ [])
    | inr name ↦ capture_exit world o capture name
  ]

  unfoldable pub source_exit : World Double → Options Double → Exit
  unfolding open_source open_failed_lines
  source_exit world o =
      let source = open_source o world.opened in
      if not source.success
      then fail_with (open_failed_lines o source.error)
      else backend_exit world o source.capture

  unfoldable pub main : World Double → (argv0 : List ℕ) → (args : List (List ℕ)) → Exit
  unfolding failure_lines list_only_exit
  main world argv0 args = elim (read_options double world.cores args) [
    | inl why ↦ fail_with (failure_lines argv0 why)
    | inr o ↦ if o.list_only then list_only_exit world.devices else source_exit world o
  ]
