-- ===== src/Bench/Stages/Counted.antt =====
-- What a stage counts and pushes.
use net_sentinel.Base.{
  ℕ, ◌+◌, ◌%◌, ◌^◌, ◌<◌, ◌≡◌, ◌≢◌, ◌≤◌, min, take, drop, length-take, length-drop, get_elem?-some,
  refl, sym, ap, ◌∙◌, true, Option, none, some, List, [], ◌∷◌, ◌++◌, inl, inr, length, map, All,
  arith, length-map, length-append, Option-cases,
}
use mathlib.Core.List.{append_assoc, append-nil}
use net_sentinel.Packet.{ParsedPacket, QueuedPacket, make_queued_packet}
use net_sentinel.Parser.{Read, ok, out_of_bounds, ◌>>=◌, parse_packet}
use net_sentinel.Parser.Safety.{Returns, Returns-bind, Returns-value, Parsed, parse_packet-Parsed}
use net_sentinel.Capture.{Frame, Next, frame, nothing_ready, source_ended}
use net_sentinel.Capture.Coming.{IsNext, packets_in, packets_of}
use net_sentinel.Bench.Stages.{
  Stage, read, decode, copy, allocate, queue, queue_no_payload, queued_stage, Reading, copy_payload,
  meta_only, one_packet, run_packet, run_frame, run_frames,
}

-- The packets that a stage with a queue pushes for a frame.
abbrev pub pushed_of : Stage → Frame → List QueuedPacket
pushed_of queue f = map (make_queued_packet f.bytes) (packets_of f)
pushed_of queue_no_payload f = map meta_only (packets_of f)
pushed_of _ f = []

-- How many packets a stage counts for a frame.
abbrev pub counted_of : Stage → Frame → ℕ
counted_of read f = 1
counted_of _ f = length (packets_of f)

abbrev pub pushed_all : Stage → List Next → List QueuedPacket
pushed_all stage [] = []
pushed_all stage (frame f ∷ answers) = pushed_of stage f ++ pushed_all stage answers
pushed_all stage (nothing_ready ∷ answers) = []
pushed_all stage (source_ended ∷ answers) = []

abbrev pub counted_all : Stage → List Next → ℕ
counted_all stage [] = 0
counted_all stage (frame f ∷ answers) = counted_of stage f + counted_all stage answers
counted_all stage (nothing_ready ∷ answers) = 0
counted_all stage (source_ended ∷ answers) = 0

pub Returns-mono :
    {A : Type 0} (P Q : A → Type 0) (m : Read A) → Returns P m → ((a : A) → P a → Q a) → Returns Q m
Returns-mono P Q (ok a) p f = f a p
Returns-mono P Q out_of_bounds p f = absurd p

pub record Ran (count : ℕ) (pushed : List QueuedPacket) (before after : Reading) : Type 0 where
  pub counts : after.packets ≡ (before.packets + count) % 2 ^ 64
  pub pushes : after.pushed ≡ before.pushed ++ pushed
  pub keeps : 0 < length after.reused

-- The copy stays inside the payload and the buffer, and keeps the buffer's size.
length-copy_payload :
    (f : Frame) (parsed : ParsedPacket) (reused : List ℕ)
    → ((offset : ℕ)
        → parsed.payload ≡ some offset
        → offset + parsed.payload_length ≤ length f.bytes)
    → length (copy_payload f parsed reused) ≡ length reused
unfolding copy_payload
length-copy_payload f parsed reused inside = elim (Option-cases parsed.payload) [
  | inl e ↦ rw (e, copy_payload) refl
  | inr (offset, e) ↦
      let n = min parsed.payload_length (length reused) in
      let bytes = drop offset f.bytes in
      rw (e, copy_payload)
        (ground (
          arith,
          inside offset e,
          length-append (take n bytes) (drop n reused),
          length-take n bytes,
          length-drop offset f.bytes,
          length-drop n reused,
        ))
]

-- What a stage pushes for a packet.
abbrev pushed_packet : Stage → Frame → ParsedPacket → List QueuedPacket
pushed_packet queue f parsed = make_queued_packet f.bytes parsed ∷ []
pushed_packet queue_no_payload f parsed = meta_only parsed ∷ []
pushed_packet _ f parsed = []

run_packet-Ran :
    (stage : Stage) (f : Frame) (parsed : ParsedPacket) (r : Reading)
    → stage ≢ read
    → 0 < length r.reused
    → ((offset : ℕ)
        → parsed.payload ≡ some offset
        → offset + parsed.payload_length ≤ length f.bytes)
    → Returns (Ran 1 (pushed_packet stage f parsed) r) (run_packet stage f parsed (one_packet r))
unfolding run_packet
run_packet-Ran read f parsed r n room inside = absurd (n refl)
run_packet-Ran decode f parsed r n room inside = record {
  counts = refl;
  pushes = sym (append-nil r.pushed);
  keeps = room;
}
run_packet-Ran copy f parsed r n room inside =
    let long = length-copy_payload f parsed r.reused inside in
    let (byte, e) = get_elem?-some (copy_payload f parsed r.reused) 0 (omega (arith, long, room)) in
    rw (e, Returns)
      (record {
        counts = refl;
        pushes = sym (append-nil r.pushed);
        keeps = omega (arith, long, room);
      })
run_packet-Ran allocate f parsed r n room inside = record {
  counts = refl;
  pushes = sym (append-nil r.pushed);
  keeps = room;
}
run_packet-Ran queue f parsed r n room inside = record {
  counts = refl;
  pushes = refl;
  keeps = room;
}
run_packet-Ran queue_no_payload f parsed r n room inside = record {
  counts = refl;
  pushes = refl;
  keeps = room;
}

-- The stages past the first, whose pass parses the frame.
abbrev run_parsed : Stage → Frame → Reading → Read Reading
run_parsed stage f r = do
  parsed ← parse_packet (some f.bytes) f.caplen f.wire_length f.ts
  elim parsed [ none ↦ ok r | some packet ↦ run_packet stage f packet (one_packet r) ]

no_packet : (r : Reading) → 0 < length r.reused → r.packets < 2 ^ 64 → Ran 0 [] r r
no_packet r room small = record {
  counts = omega (arith, small);
  pushes = sym (append-nil r.pushed);
  keeps = room;
}

counted_rest :
    (stage : Stage) (f : Frame) → stage ≢ read → counted_of stage f ≡ length (packets_of f)
counted_rest read f n = absurd (n refl)
counted_rest decode f n = refl
counted_rest copy f n = refl
counted_rest allocate f n = refl
counted_rest queue f n = refl
counted_rest queue_no_payload f n = refl

pushed_none : (stage : Stage) (f : Frame) → packets_of f ≡ [] → pushed_of stage f ≡ []
pushed_none read f e = refl
pushed_none decode f e = refl
pushed_none copy f e = refl
pushed_none allocate f e = refl
pushed_none queue f e = ap (map (make_queued_packet f.bytes)) e
pushed_none queue_no_payload f e = ap (map meta_only) e

pushed_one :
    (stage : Stage) (f : Frame) (packet : ParsedPacket)
    → packets_of f ≡ packet ∷ []
    → pushed_of stage f ≡ pushed_packet stage f packet
pushed_one read f packet e = refl
pushed_one decode f packet e = refl
pushed_one copy f packet e = refl
pushed_one allocate f packet e = refl
pushed_one queue f packet e = ap (map (make_queued_packet f.bytes)) e
pushed_one queue_no_payload f packet e = ap (map meta_only) e

found_packet :
    (stage : Stage) (f : Frame) (r : Reading) (parsed : Option ParsedPacket)
    → IsNext (frame f)
    → 0 < length r.reused
    → r.packets < 2 ^ 64
    → stage ≢ read
    → parse_packet (some f.bytes) f.caplen f.wire_length f.ts ≡ ok parsed
    → Parsed f.caplen parsed
    → Returns (Ran (counted_of stage f) (pushed_of stage f) r) (run_parsed stage f r)
unfolding packets_of
found_packet stage f r none valid room small n e found =
    let nothing : packets_of f ≡ [] = ap packets_in e in
    rw (counted_rest stage f n ∙ ap length nothing)
      (rw (pushed_none stage f nothing) (rw (e, Returns) (no_packet r room small)))
found_packet stage f r (some packet) valid room small n e found =
    let one : packets_of f ≡ packet ∷ [] = ap packets_in e in
    let inside : (offset : ℕ)
        → packet.payload ≡ some offset
        → offset + packet.payload_length ≤ length f.bytes =
      λ offset p. omega (arith, found.1.inside offset p, valid.1) in
    rw (counted_rest stage f n ∙ ap length one) (
      rw (pushed_one stage f packet one)
        (rw (e, Returns) (run_packet-Ran stage f packet r n room inside)))

parsed_Ran :
    (stage : Stage) (f : Frame) (r : Reading)
    → IsNext (frame f)
    → 0 < length r.reused
    → r.packets < 2 ^ 64
    → stage ≢ read
    → Returns (Ran (counted_of stage f) (pushed_of stage f) r) (run_parsed stage f r)
parsed_Ran stage f r valid room small n =
    let (parsed, e, found) =
      Returns-value (Parsed f.caplen) (parse_packet (some f.bytes) f.caplen f.wire_length f.ts)
        (parse_packet-Parsed f.bytes f.caplen f.wire_length f.ts valid.0 valid.1) in
    found_packet stage f r parsed valid room small n e found

run_frame-Ran :
    (stage : Stage) (f : Frame) (r : Reading)
    → IsNext (frame f)
    → 0 < length r.reused
    → r.packets < 2 ^ 64
    → Returns (Ran (counted_of stage f) (pushed_of stage f) r) (run_frame stage f r)
unfolding run_frame
run_frame-Ran read f r valid room small = record {
  counts = refl;
  pushes = sym (append-nil r.pushed);
  keeps = room;
}
run_frame-Ran decode f r valid room small = parsed_Ran decode f r valid room small (λ e. cc e)
run_frame-Ran copy f r valid room small = parsed_Ran copy f r valid room small (λ e. cc e)
run_frame-Ran allocate f r valid room small = parsed_Ran allocate f r valid room small (λ e. cc e)
run_frame-Ran queue f r valid room small = parsed_Ran queue f r valid room small (λ e. cc e)
run_frame-Ran queue_no_payload f r valid room small =
    parsed_Ran queue_no_payload f r valid room small (λ e. cc e)

-- A stage ends its loop whatever the answers are; it has counted its packets, and pushed them where it has a
-- queue.
pub run_frames-Ran :
    (stage : Stage) (answers : List Next) (r : Reading)
    → All IsNext answers
    → 0 < length r.reused
    → r.packets < 2 ^ 64
    → Returns
        (Ran (counted_all stage answers) (pushed_all stage answers) r)
        (run_frames stage answers r)
unfolding run_frames
run_frames-Ran stage [] r valid room small = no_packet r room small
run_frames-Ran stage (nothing_ready ∷ answers) r valid room small = no_packet r room small
run_frames-Ran stage (source_ended ∷ answers) r valid room small = no_packet r room small
run_frames-Ran stage (frame f ∷ answers) r valid room small =
    let first = Ran (counted_of stage f) (pushed_of stage f) r in
    Returns-bind first _ (run_frame stage f r) (λ after. run_frames stage answers after)
      (run_frame-Ran stage f r valid.0 room small)
      (λ mid one.
        Returns-mono _ _ (run_frames stage answers mid)
          (run_frames-Ran stage answers mid valid.1 one.keeps (omega (arith, one.counts)))
          (λ after rest. record {
            counts = omega (arith, one.counts, rest.counts);
            pushes =
                rest.pushes
                ∙ ap (λ (l : List QueuedPacket). l ++ pushed_all stage answers) one.pushes
                ∙ append_assoc r.pushed (pushed_of stage f) (pushed_all stage answers);
            keeps = rest.keeps;
          }))

length-pushed_of :
    (stage : Stage) (f : Frame)
    → queued_stage stage ≡ true
    → length (pushed_of stage f) ≡ counted_of stage f
length-pushed_of read f q = absurd (cc q)
length-pushed_of decode f q = absurd (cc q)
length-pushed_of copy f q = absurd (cc q)
length-pushed_of allocate f q = absurd (cc q)
length-pushed_of queue f q = length-map (packets_of f) (make_queued_packet f.bytes)
length-pushed_of queue_no_payload f q = length-map (packets_of f) meta_only

pub length-pushed_all :
    (stage : Stage) (answers : List Next)
    → queued_stage stage ≡ true
    → length (pushed_all stage answers) ≡ counted_all stage answers
length-pushed_all stage [] q = refl
length-pushed_all stage (nothing_ready ∷ answers) q = refl
length-pushed_all stage (source_ended ∷ answers) q = refl
length-pushed_all stage (frame f ∷ answers) q = omega (
  arith,
  length-append (pushed_of stage f) (pushed_all stage answers),
  length-pushed_of stage f q,
  length-pushed_all stage answers q,
)
