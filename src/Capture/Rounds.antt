-- ===== src/Capture/Rounds.antt =====
-- What the outer loop of `Capture::run`, and the call, hand to the handler.
use net_sentinel.Base.{
  ℕ, ◌≡◌, refl, sym, ap, subst, ◌∙◌, ◌+◌, ◌≤◌, Bool, ◌&&◌, ltb, leb, if◌then◌else◌, is_some, Option,
  none, some, List, [], ◌∷◌, ◌++◌, length, All, arith, Bool-cases, inl, inr, length-append,
}
use mathlib.Core.List.{append-nil}
use net_sentinel.Packet.{ParsedPacket}
use net_sentinel.Parser.{Read}
use net_sentinel.Parser.Safety.{Returns, Returns-value}
use net_sentinel.Capture.{
  Capture, Turn, Round, Ended, again, done, waiting, Delivery, then_deliver, stop_with,
  continue_rounds, run_polled, read_burst, poll_answer, run_rounds, run,
}
use net_sentinel.Capture.Coming.{
  IsRound, IsTurn, end_after, end_polled, end_rounds, end_turns, packets_after, packets_polled,
  packets_rounds, packets_turns,
}
use net_sentinel.Capture.Limits.{
  Countable, Delivers, limited_at, limited_below, stop_with-Delivers, then_deliver-Delivers,
}
use net_sentinel.Capture.Loop.{same_Delivers, read_burst-Delivers}

module _ (max_packets : ℕ) where
  -- The rounds that follow an inner loop.
  goes_on :
      (delivered : ℕ) (coming later : List ParsedPacket) (ends end_later : Ended) (burst : Delivery)
      (rest : Read Delivery)
      → Delivers max_packets delivered coming ends burst
      → burst.handled ≡ coming
      → burst.ended ≡ ends
      → (1 ≤ max_packets → delivered + length burst.handled ≤ max_packets)
      → (burst.ended ≡ again → Returns (Delivers max_packets burst.delivered later end_later) rest)
      → Returns
          (Delivers max_packets delivered
            (coming ++ packets_after ends later)
            (end_after ends end_later))
          (continue_rounds rest burst)
  unfolding continue_rounds
  goes_on delivered coming later again end_later burst rest h all ended fits follows =
      let (more, e, d) =
        Returns-value (Delivers max_packets burst.delivered later end_later) rest (follows ended) in
      rw (ended, Returns)
        (rw (e, Returns)
          (subst
            (λ (l : List ParsedPacket).
              Delivers max_packets delivered (l ++ later) end_later
                (then_deliver burst.handled more))
            all
            (then_deliver-Delivers max_packets delivered burst.handled later end_later more fits
              (subst (λ (n : ℕ). Delivers max_packets n later end_later more) h.1 d))))
  goes_on delivered coming later done end_later burst rest h all ended fits follows =
      rw (ended, Returns) (rw (append-nil coming) h)
  goes_on delivered coming later waiting end_later burst rest h all ended fits follows =
      rw (ended, Returns) (rw (append-nil coming) h)

  continue_rounds-Delivers :
      (delivered : ℕ) (coming later : List ParsedPacket) (ends end_later : Ended) (burst : Delivery)
      (rest : Read Delivery)
      → Countable max_packets delivered (length (coming ++ packets_after ends later))
      → Delivers max_packets delivered coming ends burst
      → (ends ≡ again
          → Countable max_packets burst.delivered (length (packets_after ends later))
          → Returns (Delivers max_packets burst.delivered later end_later) rest)
      → Returns
          (Delivers max_packets delivered
            (coming ++ packets_after ends later)
            (end_after ends end_later))
          (continue_rounds rest burst)
  unfolding continue_rounds
  continue_rounds-Delivers delivered coming later ends end_later burst rest room (e, count, end_)
        follows =
      let sized = count ∙ ap (λ (l : List ParsedPacket). delivered + length l) e in
      elim (Bool-cases (ltb 0 max_packets && leb max_packets burst.delivered)) [
        | inl full ↦
            let finished : burst.ended ≡ done = end_ ∙ rw full refl in
            let at_limit =
              limited_at max_packets delivered coming (packets_after ends later)
                (rw sized at full) in
            rw (finished, Returns) (e ∙ sym at_limit, count, rw full finished)
        | inr open_ ↦
            let ended : burst.ended ≡ ends = end_ ∙ rw open_ refl in
            let all = e ∙ limited_below max_packets delivered coming (rw sized at open_) in
            let whole = length-append coming (packets_after ends later) in
            let size = ap length all in
            goes_on delivered coming later ends end_later burst rest (e, count, end_) all ended
              (ground (arith, open_, count))
              (λ f. follows (sym ended ∙ f) (ground (arith, room, open_, count, whole, size)))
      ]

module _ (max_packets : ℕ) (later : List ParsedPacket) (end_later : Ended)
    (rest : ℕ → Read Delivery)
    (follows : (n : ℕ)
      → Countable max_packets n (length later)
      → Returns (Delivers max_packets n later end_later) (rest n)) where
  run_polled-Delivers :
      (delivered : ℕ) (turns : List Turn)
      → All IsTurn turns
      → (polled : Option Ended)
      → Countable max_packets delivered (length (packets_polled polled turns later))
      → Returns
          (Delivers max_packets delivered
            (packets_polled polled turns later)
            (end_polled polled turns end_later))
          (run_polled max_packets delivered rest turns polled)
  unfolding run_polled
  run_polled-Delivers delivered turns h (some again) room = follows delivered room
  run_polled-Delivers delivered turns h (some done) room =
      stop_with-Delivers max_packets delivered 0 done room
  run_polled-Delivers delivered turns h (some waiting) room =
      stop_with-Delivers max_packets delivered 0 waiting room
  run_polled-Delivers delivered turns h none room =
      let whole = length-append (packets_turns turns) (packets_after (end_turns turns) later) in
      let (burst, e, d) =
        Returns-value (Delivers max_packets delivered (packets_turns turns) (end_turns turns))
          (read_burst max_packets delivered turns)
          (read_burst-Delivers max_packets delivered turns h (ground (arith, room, whole))) in
      rw (e, Returns)
        (continue_rounds-Delivers max_packets delivered (packets_turns turns) later
          (end_turns turns) end_later burst (rest burst.delivered) room d
          (λ g room'. follows burst.delivered (
            subst
              (λ (en : Ended).
                Countable max_packets burst.delivered (length (packets_after en later)))
              g room')))

run_rounds-Delivers :
    (selectable : Bool) (max_packets delivered : ℕ) (rounds : List Round)
    → All IsRound rounds
    → Countable max_packets delivered (length (packets_rounds selectable rounds))
    → Returns
        (Delivers max_packets delivered
          (packets_rounds selectable rounds)
          (end_rounds selectable rounds))
        (run_rounds selectable max_packets delivered rounds)
unfolding run_rounds
run_rounds-Delivers selectable max_packets delivered [] h room =
    stop_with-Delivers max_packets delivered 0 waiting room
run_rounds-Delivers selectable max_packets delivered (round ∷ rounds) h room =
    elim (Bool-cases round.stop) [
      | inl e ↦
          rw (e, Returns)
            (rw (e, Delivers, packets_rounds, end_rounds)
              (stop_with-Delivers max_packets delivered 0 done (rw e at room)))
      | inr e ↦
          let later = packets_rounds selectable rounds in
          let end_later = end_rounds selectable rounds in
          let room' : Countable max_packets delivered
              (length (packets_polled (poll_answer selectable round.polled) round.turns later)) =
            rw e at room in
          rw (e, Returns)
            (same_Delivers max_packets delivered _ (rw e refl) (rw e refl) (
              run_polled-Delivers max_packets later end_later
                (λ n. run_rounds selectable max_packets n rounds)
                (λ n room''. run_rounds-Delivers selectable max_packets n rounds h.1 room'')
                delivered round.turns h.0 (poll_answer selectable round.polled) room'))
    ]

-- For a source whose frames hold the bytes that they announce, and a limit or a source that keeps the
-- count within an `int`: no run reads outside a frame. The packets that reach the handler are the
-- packets of the frames that are read, each once and in order, up to the limit if it is not 0; the
-- result is their number; and the call ends because the limit is reached, or else as the source, `poll`
-- or the stop flag ends it. Without a handle it ends at once, with 0.
pub run-Delivers :
    (capture : Capture) (descriptor : Bool) (max_packets : ℕ) (rounds : List Round)
    → All IsRound rounds
    → Countable max_packets 0 (length (packets_rounds (capture.live && descriptor) rounds))
    → Returns
        (λ d.
          if is_some capture.handle
          then Delivers max_packets 0
              (packets_rounds (capture.live && descriptor) rounds)
              (end_rounds (capture.live && descriptor) rounds)
              d
          else (d ≡ stop_with 0 done))
        (run capture descriptor max_packets rounds)
unfolding run
run-Delivers capture descriptor max_packets rounds h room =
    elim (Bool-cases (is_some capture.handle)) [
      | inl e ↦
          let coming = packets_rounds (capture.live && descriptor) rounds in
          let (d, f, delivers) =
            Returns-value
              (Delivers max_packets 0 coming (end_rounds (capture.live && descriptor) rounds))
              (run_rounds (capture.live && descriptor) max_packets 0 rounds)
              (run_rounds-Delivers (capture.live && descriptor) max_packets 0 rounds h room) in
          rw (e, Returns) (rw (f, Returns) (rw e delivers))
      | inr e ↦ rw (e, Returns) (rw e refl)
    ]
