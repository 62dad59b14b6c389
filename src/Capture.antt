-- ===== src/Capture.antt =====
-- src/capture/capture.cpp and include/netsentinel/capture.hpp. libpcap, `poll` and the stop flag are not
-- modelled: what they answer, call by call, is an argument. The `int` that counts packets is signed, so
-- that counting past its largest value is undefined, which is `out_of_bounds` here.
pub mod Coming
pub mod Limits
pub mod Loop
pub mod Rounds
pub mod Replay
mod Tests
use net_sentinel.Base.{
  ℕ, ◌+◌, ◌-◌, ◌^◌, Bool, true, false, not, ◌&&◌, ◌==◌, ltb, leb, if◌then◌else◌, is_some, Option,
  none, some, List, [], ◌∷◌, ◌++◌, length,
}
use net_sentinel.Base.Text.{codes}
use net_sentinel.Packet.{Timeval, ParsedPacket}
use net_sentinel.Parser.{Read, ok, out_of_bounds, ◌>>=◌, parse_packet}

-- `handle_` by its link-layer type, and `live_`.
pub record Capture : Type 0 where
  pub handle : Option ℕ
  pub live : Bool

abbrev pub new_capture : Capture
new_capture = record { handle = none; live = false }

-- `DLT_EN10MB`.
abbrev pub ethernet_link : ℕ
ethernet_link = 1

-- What libpcap answers when a source is opened: a handle and its link-layer type, or the text in
-- `errbuf`.
pub data Opened : Type 0 where
  handle_of : (link_type : ℕ) → Opened
  refused : (errbuf : List ℕ) → Opened

-- Whether the source is open, the error, and the capture.
pub record Open : Type 0 where
  pub success : Bool
  pub error : List ℕ
  pub capture : Capture

unfoldable pub open_live : Opened → (device error : List ℕ) → Capture → Open
open_live (refused errbuf) device error capture = record {
  success = false;
  error = errbuf;
  capture = record capture { handle = none };
}
open_live (handle_of link_type) device error capture =
    if not (link_type == ethernet_link)
    then record {
      success = false;
      error =
          codes "unsupported link-layer type on "
          ++ (device ++ codes " (only Ethernet/DLT_EN10MB is parsed in Phase 1)");
      capture = record capture { handle = none };
    }
    else record {
      success = true;
      error = error;
      capture = record { handle = some link_type; live = true };
    }

unfoldable pub open_offline : Opened → (path error : List ℕ) → Capture → Open
open_offline (refused errbuf) path error capture = record {
  success = false;
  error = errbuf;
  capture = record capture { handle = none };
}
open_offline (handle_of link_type) path error capture =
    if not (link_type == ethernet_link)
    then record {
      success = false;
      error =
          path
          ++ codes
              " uses an unsupported link-layer type (only Ethernet/DLT_EN10MB is parsed in Phase 1)";
      capture = record capture { handle = none };
    }
    else record {
      success = true;
      error = error;
      capture = record capture { handle = some link_type };
    }

-- A frame that libpcap gives: its header and the bytes behind `data`.
pub record Frame : Type 0 where
  pub bytes : List ℕ
  pub caplen : ℕ
  pub wire_length : ℕ
  pub ts : Timeval

-- What `pcap_next_ex` returns: 1, 0, or -1 or -2.
pub data Next : Type 0 where
  frame : Frame → Next
  nothing_ready : Next
  source_ended : Next

-- What `poll` returns: above 0, 0, or below 0 with or without `EINTR`.
pub data Poll : Type 0 where
  ready : Poll
  timed_out : Poll
  interrupted : Poll
  failed : Poll

-- One turn of the inner loop: whether its check sees the stop flag, and what the read answers.
pub record Turn : Type 0 where
  pub stop : Bool
  pub next : Next

-- One turn of the outer loop: whether its check sees the stop flag, what `poll` answers, and the inner
-- loop.
pub record Round : Type 0 where
  pub stop : Bool
  pub polled : Poll
  pub turns : List Turn

-- How a loop ends: the inner one for the next poll, or for good; or the answers that are given are used
-- up, and the call goes on.
pub data Ended : Type 0 where
  again : Ended
  done : Ended
  waiting : Ended

-- The packets that went to the handler, in the order of the calls, and the count.
pub record Delivery : Type 0 where
  pub handled : List ParsedPacket
  pub delivered : ℕ
  pub ended : Ended

-- `++delivered`.
unfoldable pub count_one : ℕ → Read ℕ
count_one delivered = if leb (2 ^ 31 - 1) delivered then out_of_bounds else ok (delivered + 1)

unfoldable pub handle_frame : Frame → ℕ → Read (List ParsedPacket × ℕ)
unfolding count_one
handle_frame f delivered = do
  parsed ← parse_packet (some f.bytes) f.caplen f.wire_length f.ts
  elim parsed [
    | none ↦ ok ([], delivered)
    | some pkt ↦ do counted ← count_one delivered; ok (pkt ∷ [], counted)
  ]

-- The packets of one frame before those that follow.
abbrev pub then_deliver : List ParsedPacket → Delivery → Delivery
then_deliver first d = record d { handled = first ++ d.handled }

abbrev pub stop_with : ℕ → Ended → Delivery
stop_with delivered ended = record { handled = []; delivered = delivered; ended = ended }

-- What one read of the inner loop brings, and what follows it; `max_packets` of 0 is no limit
-- (nor is a negative one, which no caller gives).
unfoldable pub deliver_next :
    (max_packets delivered : ℕ) → (rest : ℕ → Read Delivery) → Next → Read Delivery
unfolding handle_frame
deliver_next max_packets delivered rest nothing_ready = ok (stop_with delivered again)
deliver_next max_packets delivered rest source_ended = ok (stop_with delivered done)
deliver_next max_packets delivered rest (frame f) = do
  one ← handle_frame f delivered
  let following : Read Delivery = do more ← rest one.1; ok (then_deliver one.0 more)
  if ltb 0 max_packets && leb max_packets one.1
      then ok (record { handled = one.0; delivered = one.1; ended = done })
      else following

-- The inner loop.
unfoldable pub read_burst : (max_packets delivered : ℕ) → List Turn → Read Delivery
unfolding deliver_next
read_burst max_packets delivered [] = ok (stop_with delivered waiting)
read_burst max_packets delivered (turn ∷ turns) =
    let following =
      deliver_next max_packets delivered (λ n. read_burst max_packets n turns) turn.next in
    if turn.stop then ok (stop_with delivered again) else following

-- Whether the inner loop runs in a round, or how the round ends without it.
unfoldable pub poll_answer : (selectable : Bool) → Poll → Option Ended
poll_answer false polled = none
poll_answer true ready = none
poll_answer true timed_out = some again
poll_answer true interrupted = some again
poll_answer true failed = some done

-- After an inner loop: the next round, or the end.
unfoldable pub continue_rounds : (rest : Read Delivery) → Delivery → Read Delivery
continue_rounds rest burst = elim burst.ended [
  | again ↦ do more ← rest; ok (then_deliver burst.handled more)
  | done ↦ ok burst
  | waiting ↦ ok burst
]

-- A round after the poll: the inner loop and what follows it, or the next round, or the end.
unfoldable pub run_polled :
    (max_packets delivered : ℕ)
    → (rest : ℕ → Read Delivery) → List Turn
    → Option Ended
    → Read Delivery
unfolding read_burst continue_rounds
run_polled max_packets delivered rest turns (some again) = rest delivered
run_polled max_packets delivered rest turns (some done) = ok (stop_with delivered done)
run_polled max_packets delivered rest turns (some waiting) = ok (stop_with delivered waiting)
run_polled max_packets delivered rest turns none = do
  burst ← read_burst max_packets delivered turns
  continue_rounds (rest burst.delivered) burst

-- The outer loop.
unfoldable pub run_rounds :
    (selectable : Bool) → (max_packets delivered : ℕ) → List Round → Read Delivery
unfolding poll_answer run_polled
run_rounds selectable max_packets delivered [] = ok (stop_with delivered waiting)
run_rounds selectable max_packets delivered (round ∷ rounds) =
    let polled =
      run_polled max_packets delivered (λ n. run_rounds selectable max_packets n rounds) round.turns
        (poll_answer selectable round.polled) in
    if round.stop then ok (stop_with delivered done) else polled

-- `Capture::run`; `descriptor` tells whether libpcap has a descriptor to poll.
unfoldable pub run : Capture → (descriptor : Bool) → (max_packets : ℕ) → List Round → Read Delivery
unfolding run_rounds
run capture descriptor max_packets rounds =
    if is_some capture.handle
    then run_rounds (capture.live && descriptor) max_packets 0 rounds
    else ok (stop_with 0 done)

-- What `pcap_findalldevs` answers.
pub data Devices : Type 0 where
  found : (names : List (List ℕ)) → Devices
  failed_with : (errbuf : List ℕ) → Devices

-- The names, and the error.
unfoldable pub list_devices : Devices → (error : List ℕ) → List (List ℕ) × List ℕ
list_devices (found names) error = (names, error)
list_devices (failed_with errbuf) error = ([], errbuf)
