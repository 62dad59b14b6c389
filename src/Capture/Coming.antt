-- ===== src/Capture/Coming.antt =====
-- The frames that come while `Capture::run` runs, and how the source ends it.
use net_sentinel.Base.{
  ◌^◌, ◌≤◌, ◌<◌, Bool, if◌then◌else◌, Option, none, some, List, [], ◌∷◌, ◌++◌, length, All,
}
use net_sentinel.Packet.{ParsedPacket}
use net_sentinel.Parser.{Read, ok, out_of_bounds, parse_packet}
use net_sentinel.Capture.{
  Frame, Next, frame, nothing_ready, source_ended, Turn, Round, Ended, again, done, waiting,
  poll_answer,
}

-- The bytes behind a frame are those that its header announces, at least.
abbrev pub IsFrame : Frame → Type 0
IsFrame f = All (λ b. b < 2 ^ 8) f.bytes × (f.caplen ≤ length f.bytes)

-- The packet of a frame, if the parser finds one.
abbrev pub packets_in : Read (Option ParsedPacket) → List ParsedPacket
packets_in out_of_bounds = []
packets_in (ok none) = []
packets_in (ok (some pkt)) = pkt ∷ []

unfoldable pub packets_of : Frame → List ParsedPacket
packets_of f = packets_in (parse_packet (some f.bytes) f.caplen f.wire_length f.ts)

abbrev pub IsNext : Next → Type 0
IsNext (frame f) = IsFrame f
IsNext nothing_ready = Unit
IsNext source_ended = Unit

abbrev pub IsTurn : Turn → Type 0
IsTurn turn = IsNext turn.next

abbrev pub IsRound : Round → Type 0
IsRound round = All IsTurn round.turns

-- The packets of the frames that come in the turns of an inner loop, in order, up to a turn that ends
-- it; and how they end it.
abbrev pub packets_next : Next → List ParsedPacket → List ParsedPacket
packets_next (frame f) rest = packets_of f ++ rest
packets_next nothing_ready rest = []
packets_next source_ended rest = []

abbrev pub packets_turns : List Turn → List ParsedPacket
packets_turns [] = []
packets_turns (turn ∷ turns) =
    if turn.stop then [] else packets_next turn.next (packets_turns turns)

abbrev pub end_next : Next → Ended → Ended
end_next (frame f) rest = rest
end_next nothing_ready rest = again
end_next source_ended rest = done

abbrev pub end_turns : List Turn → Ended
end_turns [] = waiting
end_turns (turn ∷ turns) = if turn.stop then again else end_next turn.next (end_turns turns)

-- The same for the rounds of the outer loop.
abbrev pub packets_after : Ended → List ParsedPacket → List ParsedPacket
packets_after again rest = rest
packets_after done rest = []
packets_after waiting rest = []

abbrev pub end_after : Ended → Ended → Ended
end_after again rest = rest
end_after done rest = done
end_after waiting rest = waiting

abbrev pub packets_polled : Option Ended → List Turn → List ParsedPacket → List ParsedPacket
packets_polled (some ended) turns rest = packets_after ended rest
packets_polled none turns rest = packets_turns turns ++ packets_after (end_turns turns) rest

abbrev pub end_polled : Option Ended → List Turn → Ended → Ended
end_polled (some ended) turns rest = end_after ended rest
end_polled none turns rest = end_after (end_turns turns) rest

module _ (selectable : Bool) where
  abbrev pub packets_rounds : List Round → List ParsedPacket
  packets_rounds [] = []
  packets_rounds (round ∷ rounds) =
      if round.stop
      then []
      else packets_polled (poll_answer selectable round.polled) round.turns (packets_rounds rounds)

  abbrev pub end_rounds : List Round → Ended
  end_rounds [] = waiting
  end_rounds (round ∷ rounds) =
      if round.stop
      then done
      else end_polled (poll_answer selectable round.polled) round.turns (end_rounds rounds)
