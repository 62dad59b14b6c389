-- ===== src/Capture/Replay.antt =====
-- The replay of a capture file.
use net_sentinel.Base.{
  ℕ, ◌≡◌, refl, sym, ap, subst, ◌∙◌, Bool, true, false, ◌&&◌, ltb, leb, if◌then◌else◌, List, [],
  ◌∷◌, ◌++◌, length, All, arith,
}
use mathlib.Core.List.{append-nil}
use net_sentinel.Packet.{ParsedPacket}
use net_sentinel.Parser.Safety.{Returns, Returns-value}
use net_sentinel.Capture.{
  new_capture, ethernet_link, handle_of, open_offline, Frame, frame, source_ended, Poll, Turn,
  Round, Ended, done, poll_answer, run,
}
use net_sentinel.Capture.Coming.{
  IsFrame, packets_of, IsTurn, packets_turns, end_turns, packets_rounds, end_rounds,
}
use net_sentinel.Capture.Limits.{limited, Countable, Delivers}
use net_sentinel.Capture.Rounds.{run-Delivers}

-- What libpcap answers while a file is read and no signal comes: each frame, and then the end.
abbrev pub file_turns : List Frame → List Turn
file_turns [] = record { stop = false; next = source_ended } ∷ []
file_turns (f ∷ frames) = record { stop = false; next = frame f } ∷ file_turns frames

abbrev pub file_round : Poll → List Frame → Round
file_round polled frames = record { stop = false; polled = polled; turns = file_turns frames }

-- The packets of the frames, in order.
abbrev pub packets_file : List Frame → List ParsedPacket
packets_file [] = []
packets_file (f ∷ frames) = packets_of f ++ packets_file frames

file_turns-IsTurn : (frames : List Frame) → All IsFrame frames → All IsTurn (file_turns frames)
file_turns-IsTurn [] h = (tt, tt)
file_turns-IsTurn (f ∷ frames) h = (h.0, file_turns-IsTurn frames h.1)

packets-file_turns :
    (frames : List Frame)
    → (packets_turns (file_turns frames) ≡ packets_file frames)
      × (end_turns (file_turns frames) ≡ done)
packets-file_turns [] = (refl, refl)
packets-file_turns (f ∷ frames) =
    let (p, e) = packets-file_turns frames in
    (ap (λ (l : List ParsedPacket). packets_of f ++ l) p, e)

packets-file_round :
    (polled : Poll) (frames : List Frame)
    → packets_rounds false (file_round polled frames ∷ []) ≡ packets_file frames
unfolding poll_answer
packets-file_round polled frames = let (p, e) = packets-file_turns frames in rw e (append-nil _ ∙ p)

end-file_round :
    (polled : Poll) (frames : List Frame) → end_rounds false (file_round polled frames ∷ []) ≡ done
unfolding poll_answer
end-file_round polled frames = let (p, e) = packets-file_turns frames in rw e refl

either_done : (b : Bool) (ended : Ended) → ended ≡ done → (if b then done else ended) ≡ done
either_done true ended e = refl
either_done false ended e = e

-- A file of Ethernet frames that opens, and whose frames hold the bytes that they announce, is replayed
-- whole if no signal comes and the limit or the length of the file keeps the count within an `int`: the packets that reach the handler are those of its frames, each once and in
-- the order of the file, up to the limit if it is not 0, the result is their number, and the call
-- returns. What `poll` would say plays no part.
pub run-open_offline :
    (path error : List ℕ) (descriptor : Bool) (max_packets : ℕ) (polled : Poll)
    (frames : List Frame)
    → All IsFrame frames
    → Countable max_packets 0 (length (packets_file frames))
    → let opened = open_offline (handle_of ethernet_link) path error new_capture in
      Returns
        (λ d.
          (d.handled ≡ limited max_packets 0 (packets_file frames))
          × (d.delivered ≡ length d.handled)
          × (d.ended ≡ done))
        (run opened.capture descriptor max_packets (file_round polled frames ∷ []))
unfolding open_offline
run-open_offline path error descriptor max_packets polled frames h room =
    let opened = open_offline (handle_of ethernet_link) path error new_capture in
    let rounds = file_round polled frames ∷ [] in
    let same = packets-file_round polled frames in
    let (d, f, (handled, count, end_)) =
      Returns-value (Delivers max_packets 0 (packets_rounds false rounds) (end_rounds false rounds))
        (run opened.capture descriptor max_packets rounds)
        (run-Delivers opened.capture descriptor max_packets rounds (file_turns-IsTurn frames h, tt)
          (subst (λ (l : List ParsedPacket). Countable max_packets 0 (length l)) (sym same)
            room)) in
    rw (f, Returns)
      (
        handled ∙ ap (limited max_packets 0) same,
        omega (arith, count),
        end_
            ∙ either_done (ltb 0 max_packets && leb max_packets d.delivered) _
                (end-file_round polled frames),
      )
