-- ===== src/Capture/Loop.antt =====
-- What the inner loop of `Capture::run` hands to its handler.
use net_sentinel.Base.{
  ℕ, ◌≡◌, refl, sym, ap, subst, ◌∙◌, ◌+◌, ◌-◌, ◌^◌, ◌≤◌, ◌<◌, false, ◌&&◌, ltb, leb, Option, none,
  some, List, [], ◌∷◌, ◌++◌, length, All, arith, Option-cases, Bool-cases, inl, inr, length-append,
}
use mathlib.Core.List.{append-nil}
use net_sentinel.Packet.{ParsedPacket}
use net_sentinel.Parser.{Read, ok, out_of_bounds, parse_packet}
use net_sentinel.Parser.Safety.{Returns, Returns-value, Parsed, parse_packet-Parsed}
use net_sentinel.Capture.{
  Frame, Next, frame, nothing_ready, source_ended, Turn, Ended, again, done, waiting, Delivery,
  count_one, handle_frame, deliver_next, read_burst,
}
use net_sentinel.Capture.Coming.{
  IsFrame, IsNext, IsTurn, end_next, end_turns, packets_in, packets_next, packets_of, packets_turns,
}
use net_sentinel.Capture.Limits.{
  Countable, Delivers, limited-append, limited_full, stop_with-Delivers, then_deliver-Delivers,
}

length-packets_in : (r : Read (Option ParsedPacket)) → length (packets_in r) ≤ 1
length-packets_in out_of_bounds = omega arith
length-packets_in (ok none) = omega arith
length-packets_in (ok (some pkt)) = omega arith

length-packets_of : (f : Frame) → length (packets_of f) ≤ 1
unfolding packets_of
length-packets_of f = length-packets_in (parse_packet (some f.bytes) f.caplen f.wire_length f.ts)

-- The handler gets the packet of a frame, and it is counted.
handle_frame-packets_of :
    (f : Frame) (delivered : ℕ)
    → IsFrame f
    → delivered + length (packets_of f) < 2 ^ 31
    → handle_frame f delivered ≡ ok (packets_of f, delivered + length (packets_of f))
unfolding handle_frame count_one packets_of
handle_frame-packets_of f delivered (bytes, fits) small =
    let (parsed, e, h) =
      Returns-value (Parsed f.caplen) (parse_packet (some f.bytes) f.caplen f.wire_length f.ts)
        (parse_packet-Parsed f.bytes f.caplen f.wire_length f.ts bytes fits) in
    elim (Option-cases parsed) [
      | inl p ↦
          let read = e ∙ ap ok p in
          let nothing : packets_of f ≡ [] = ap packets_in read in
          let same : delivered ≡ delivered + length {A = ParsedPacket} [] = omega arith in
          rw nothing (rw (read, handle_frame) (ap (λ (n : ℕ). ok ([], n)) same))
      | inr (pkt, p) ↦
          let read = e ∙ ap ok p in
          let one : packets_of f ≡ pkt ∷ [] = ap packets_in read in
          let below = ap length one in
          let counts : leb (2 ^ 31 - 1) delivered ≡ false = ground (arith, below, small) in
          rw one (rw (read, handle_frame) (rw counts refl))
    ]

module _ (max_packets : ℕ) (coming : List ParsedPacket) (ends : Ended) (rest : ℕ → Read Delivery)
    (follows : (n : ℕ)
      → Countable max_packets n (length coming)
      → Returns (Delivers max_packets n coming ends) (rest n)) where
  deliver_next-Delivers :
      (delivered : ℕ) (next : Next)
      → IsNext next
      → Countable max_packets delivered (length (packets_next next coming))
      → Returns
          (Delivers max_packets delivered (packets_next next coming) (end_next next ends))
          (deliver_next max_packets delivered rest next)
  unfolding deliver_next
  deliver_next-Delivers delivered nothing_ready h room =
      stop_with-Delivers max_packets delivered 0 again room
  deliver_next-Delivers delivered source_ended h room =
      stop_with-Delivers max_packets delivered 0 done room
  deliver_next-Delivers delivered (frame f) h room =
      let few = length-packets_of f in
      let all = length-append (packets_of f) coming in
      let below : delivered + length (packets_of f) < 2 ^ 31 = ground (arith, room, few, all) in
      let one = handle_frame-packets_of f delivered h below in
      let n = delivered + length (packets_of f) in
      let fits : 1 ≤ max_packets → n ≤ max_packets = ground (arith, room, few) in
      rw (one, Returns)
        (elim (Bool-cases (ltb 0 max_packets && leb max_packets n)) [
          | inl full ↦
              let nothing : max_packets - n ≡ 0 = ground (arith, full) in
              let some_ : 1 ≤ max_packets = ground (arith, full) in
              rw (full, Returns)
                (
                  (sym (append-nil (packets_of f))
                      ∙ ap (λ (l : List ParsedPacket). packets_of f ++ l)
                          (sym (limited_full max_packets n coming some_ nothing))
                      ∙ sym (limited-append max_packets delivered (packets_of f) coming fits)),
                  refl,
                  rw full refl,
                )
          | inr open_ ↦
              let (more, e, d) =
                Returns-value (Delivers max_packets n coming ends) (rest n)
                  (follows n (ground (arith, room, few, all, open_))) in
              rw (open_, Returns)
                (rw (e, Returns)
                  (then_deliver-Delivers max_packets delivered (packets_of f) coming ends more fits
                    d))
        ])

-- The same packets and the same end.
pub same_Delivers :
    (max_packets delivered : ℕ) {coming coming' : List ParsedPacket} {ends ends' : Ended}
    (r : Read Delivery)
    → coming' ≡ coming
    → ends' ≡ ends
    → Returns (Delivers max_packets delivered coming ends) r
    → Returns (Delivers max_packets delivered coming' ends') r
same_Delivers max_packets delivered {coming} {coming'} {ends} {ends'} r p e h =
    subst (λ (q : List ParsedPacket × Ended). Returns (Delivers max_packets delivered q.0 q.1) r)
      (sym (λ j. (p j, e j))) h

pub read_burst-Delivers :
    (max_packets delivered : ℕ) (turns : List Turn)
    → All IsTurn turns
    → Countable max_packets delivered (length (packets_turns turns))
    → Returns
        (Delivers max_packets delivered (packets_turns turns) (end_turns turns))
        (read_burst max_packets delivered turns)
unfolding read_burst
read_burst-Delivers max_packets delivered [] h room =
    stop_with-Delivers max_packets delivered 0 waiting room
read_burst-Delivers max_packets delivered (turn ∷ turns) h room = elim (Bool-cases turn.stop) [
  | inl e ↦
      rw (e, Returns)
        (rw (e, Delivers, packets_turns, end_turns)
          (stop_with-Delivers max_packets delivered 0 again (rw e at room)))
  | inr e ↦
      rw (e, Returns)
        (same_Delivers max_packets delivered _ (rw e refl) (rw e refl) (
          deliver_next-Delivers max_packets (packets_turns turns) (end_turns turns)
            (λ n. read_burst max_packets n turns)
            (λ n room'. read_burst-Delivers max_packets n turns h.1 room') delivered turn.next h.0
            (rw e at room)))
]
