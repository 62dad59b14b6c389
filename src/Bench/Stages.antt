-- ===== src/Bench/Stages.antt =====
-- `run_stage` of src/bench/bench_capture.cpp: what the reading thread does with the frames of a file in each
-- stage, and the test at the end of the stages with a queue. The workers of those stages are those of
-- `net_sentinel.Queue.Pool`. What `pcap_next_ex` answers, call by call, is an argument.
pub mod Counted
pub mod Complete
mod Tests
use net_sentinel.Base.{
  ℕ, ◌+◌, ◌%◌, ◌^◌, min, Bool, true, false, not, ◌&&◌, ◌==◌, ltb, if◌then◌else◌, Option, none, some,
  List, [], ◌∷◌, ◌++◌, ◌⊎◌, inl, inr, length, take, drop, get_elem?, replicate,
}
use net_sentinel.Base.Text.{codes, decimal, concat}
use net_sentinel.Packet.{ParsedPacket, QueuedPacket, payload_size, make_queued_packet, slice}
use net_sentinel.Parser.{Read, ok, out_of_bounds, ◌>>=◌, parse_packet}
use net_sentinel.Capture.{Frame, Next, frame, nothing_ready, source_ended}
use net_sentinel.Program.Summary.{Measures}

pub data Stage : Type 0 where
  read decode copy allocate queue queue_no_payload : Stage

abbrev pub queued_stage : Stage → Bool
queued_stage queue = true
queued_stage queue_no_payload = true
queued_stage _ = false

-- The variables of the loop, and the packets that it has pushed so far.
pub record Reading : Type 0 where
  pub packets : ℕ
  pub sink : ℕ
  pub reused : List ℕ
  pub pushed : List QueuedPacket

unfoldable pub start_reading : Reading
start_reading = record { packets = 0; sink = 0; reused = replicate 65536 0; pushed = [] }

abbrev pub add_sink : ℕ → Reading → Reading
add_sink more r = record r { sink = (r.sink + more) % 2 ^ 64 }

-- The payload, as far as it fits, over the start of the buffer.
unfoldable pub copy_payload : Frame → ParsedPacket → List ℕ → List ℕ
copy_payload f parsed reused =
    let n = min parsed.payload_length (length reused) in
    elim parsed.payload [
      | none ↦ reused
      | some offset ↦
          if ltb 0 parsed.payload_length then slice f.bytes offset n ++ drop n reused else reused
    ]

-- The packet without its payload.
unfoldable pub meta_only : ParsedPacket → QueuedPacket
meta_only parsed = record {
  meta = record parsed { payload = none; payload_length = 0 };
  payload = [];
}

abbrev pub push_packet : QueuedPacket → Reading → Reading
push_packet packet r = record r { pushed = r.pushed ++ packet ∷ [] }

-- The `switch`.
unfoldable pub run_packet : Stage → Frame → ParsedPacket → Reading → Read Reading
unfolding copy_payload meta_only
run_packet read f parsed r = ok r
run_packet decode f parsed r = ok (add_sink (parsed.payload_length + parsed.dst_port) r)
run_packet copy f parsed r =
    let reused = copy_payload f parsed r.reused in
    elim (get_elem? reused 0) [
      | none ↦ out_of_bounds
      | some byte ↦ ok (add_sink byte (record r { reused = reused }))
    ]
run_packet allocate f parsed r = ok (add_sink (payload_size (make_queued_packet f.bytes parsed)) r)
run_packet queue f parsed r = ok (push_packet (make_queued_packet f.bytes parsed) r)
run_packet queue_no_payload f parsed r = ok (push_packet (meta_only parsed) r)

abbrev pub one_packet : Reading → Reading
one_packet r = record r { packets = (r.packets + 1) % 2 ^ 64 }

-- One pass of the loop.
unfoldable pub run_frame : Stage → Frame → Reading → Read Reading
unfolding run_packet
run_frame read f r = ok (one_packet (add_sink f.caplen r))
run_frame stage f r = do
  parsed ← parse_packet (some f.bytes) f.caplen f.wire_length f.ts
  elim parsed [ none ↦ ok r | some packet ↦ run_packet stage f packet (one_packet r) ]

unfoldable pub run_frames : Stage → List Next → Reading → Read Reading
unfolding run_frame
run_frames stage [] r = ok r
run_frames stage (nothing_ready ∷ answers) r = ok r
run_frames stage (source_ended ∷ answers) r = ok r
run_frames stage (frame f ∷ answers) r = do
  after ← run_frame stage f r
  run_frames stage answers after

pub record Result (Double : Type 0) : Type 0 where
  pub packets : ℕ
  pub seconds : Double
  pub avg_batch : Double

-- The end of the stage: the message with which the program exits, or the result.
unfoldable pub finish_stage :
    {Double : Type 0}
    → Measures Double
    → Stage
    → (packets consumed batches : ℕ) → (seconds : Double) → List ℕ ⊎ Result Double
finish_stage double stage packets consumed batches seconds =
    if queued_stage stage && not (consumed == packets)
    then inl (
        concat (
          codes "queue lost packets: pushed "
          ∷ decimal packets
          ∷ codes ", consumed "
          ∷ decimal consumed
          ∷ []))
    else inr (record {
      packets = packets;
      seconds = seconds;
      avg_batch =
          if queued_stage stage && ltb 0 batches
          then double.divide (double.of_count packets) (double.of_count batches)
          else double.of_count 0;
    })
