-- ===== src/Pipeline.antt =====
-- How src/main.cpp runs the program: the capture thread pushes what `Capture::run` hands to it, and is
-- joined; then the queue is shut down, and the workers are joined.
mod Tests
use net_sentinel.Base.{
  ℕ, zero, suc, ◌-◌, length-take, ◌≡◌, refl, sym, ap, ◌∙◌, ◌%◌, ◌^◌, ◌<◌, ◌&&◌, Bool, true, false,
  is_some, List, [], ◌∷◌, ◌++◌, map, length, arith, All, length-map,
}
use mathlib.Core.List.{append_assoc, append-nil}
use net_sentinel.Packet.{ParsedPacket}
use net_sentinel.Parser.{ok}
use net_sentinel.Queue.{PacketQueue, push, refused, begin_pop, take_batch, shutdown, make_queue}
use net_sentinel.Queue.Delivery.{push-accepted}
use net_sentinel.Queue.Drained.{total, total_batches, drained}
use net_sentinel.Queue.Pool.{
  exited, System, start, pop_by, finish_batch, Step, push_accepted, push_refused, shut, begin,
  wait_again, pop_first, pop_second, analyze, poll_again, leave, Steps, done, next,
}
use net_sentinel.Capture.{Capture, Round, run, Delivery}
use net_sentinel.Capture.Coming.{IsRound, packets_rounds, end_rounds}
use net_sentinel.Capture.Limits.{limited, Countable, Delivers}
use net_sentinel.Capture.Rounds.{run-Delivers}

module _ {A : Type 0} (linger : Bool) (max_n : ℕ) where
  push-refused :
      (packet : A) (queue : PacketQueue A) → push packet queue ≡ refused → queue.is_shutdown ≡ true
  unfolding push
  push-refused packet queue e = ground arith

  -- While the queue is open, no packet is lost between the capture thread and the queue.
  Open-Step :
      (s t : System A)
      → Step linger max_n s t
      → t.queue.is_shutdown ≡ false
      → (s.queue.is_shutdown ≡ false) × (s.taken_in ++ s.incoming ≡ t.taken_in ++ t.incoming)
  unfolding shutdown begin_pop pop_by take_batch finish_batch
  Open-Step s t (push_accepted packet rest queue wake e p) o =
      let (items, capacity, room, before, after) = push-accepted packet s.queue queue wake p in
      (
        before,
        ap (λ (l : List A). s.taken_in ++ l) e ∙ sym (append_assoc s.taken_in (packet ∷ []) rest),
      )
  Open-Step s t (push_refused packet rest e p) o =
      absurd (let f = push-refused packet s.queue p in cc)
  Open-Step s t shut o = absurd (cc)
  Open-Step s t (begin i e) o = (o, refl)
  Open-Step s t (wait_again i e l) o = (o, refl)
  Open-Step s t (pop_first i e l) o = (o, refl)
  Open-Step s t (pop_second i e) o = (o, refl)
  Open-Step s t (analyze i batch e) o = (o, refl)
  Open-Step s t (poll_again i e f) o = (o, refl)
  Open-Step s t (leave i e f) o = (o, refl)

  Open-Steps :
      (s t : System A)
      → Steps linger max_n s t
      → t.queue.is_shutdown ≡ false
      → s.taken_in ++ s.incoming ≡ t.taken_in ++ t.incoming
  Open-Steps s t done o = refl
  Open-Steps s u (next {t} steps step) o =
      let (before, same) = Open-Step t u step o in Open-Steps s t steps before ∙ same

  -- Once the capture thread is done, nothing more is pushed.
  joined-Step :
      (s t : System A)
      → Step linger max_n s t
      → s.incoming ≡ []
      → (t.incoming ≡ []) × (t.taken_in ≡ s.taken_in)
  unfolding shutdown begin_pop pop_by take_batch finish_batch
  joined-Step s t (push_accepted packet rest queue wake e p) j = absurd (cc)
  joined-Step s t (push_refused packet rest e p) j = absurd (cc)
  joined-Step s t shut j = (j, refl)
  joined-Step s t (begin i e) j = (j, refl)
  joined-Step s t (wait_again i e l) j = (j, refl)
  joined-Step s t (pop_first i e l) j = (j, refl)
  joined-Step s t (pop_second i e) j = (j, refl)
  joined-Step s t (analyze i batch e) j = (j, refl)
  joined-Step s t (poll_again i e f) j = (j, refl)
  joined-Step s t (leave i e f) j = (j, refl)

  joined-Steps :
      (s t : System A)
      → Steps linger max_n s t
      → s.incoming ≡ []
      → (t.incoming ≡ []) × (t.taken_in ≡ s.taken_in)
  joined-Steps s t done j = (j, refl)
  joined-Steps s u (next {t} steps step) j =
      let (still, taken) = joined-Steps s t steps j in
      let (still', taken') = joined-Step t u step still in (still', taken' ∙ taken)

  Steps-then :
      (s t u : System A) → Steps linger max_n s t → Steps linger max_n t u → Steps linger max_n s u
  Steps-then s t u before done = before
  Steps-then s t u before (next steps step) = next (Steps-then s t _ before steps) step

  -- Every packet that the capture thread is given is analysed exactly once, and counted as processed
  -- modulo 2 ^ 64, if the queue is shut down only after the capture thread has pushed the last one, and
  -- the workers have left. This holds for any number of workers, capacity, batch size and interleaving;
  -- that each packet is analysed once is said by weights.
  pub analyzed_once :
      (num_workers capacity : ℕ) (incoming : List A) (joined s : System A)
      → Steps linger max_n (start num_workers (make_queue capacity) incoming) joined
      → joined.queue.is_shutdown ≡ false
      → joined.incoming ≡ []
      → Steps linger max_n (record joined { queue = shutdown joined.queue }) s
      → All (λ phase. phase ≡ exited) s.workers
      → ((weight : A → ℕ) → total weight incoming ≡ total_batches weight s.analyzed)
        × (s.processed ≡ length incoming % 2 ^ 64)
  unfolding start
  analyzed_once num_workers capacity incoming joined s before open_ all_pushed after gone =
      let began = start num_workers (make_queue capacity) incoming in
      let closed = record joined { queue = shutdown joined.queue } in
      let pushed : incoming ≡ joined.taken_in =
        Open-Steps began joined before open_
        ∙ ap (λ (l : List A). joined.taken_in ++ l) all_pushed
        ∙ append-nil joined.taken_in in
      let (nothing, same) = joined-Steps closed s after all_pushed in
      let taken : incoming ≡ s.taken_in = pushed ∙ sym same in
      let (finished, once, counted) =
        drained linger max_n num_workers capacity incoming s
          (Steps-then began closed s (next before shut) after) gone in
      (
        λ weight. ap (total weight) taken ∙ once weight,
        counted ∙ ap (λ (l : List A). length l % 2 ^ 64) (sym taken),
      )

limited_small :
    (max_packets : ℕ) (coming : List ParsedPacket)
    → Countable max_packets 0 (length coming)
    → length (limited max_packets 0 coming) < 2 ^ 31
limited_small zero coming room = ground (arith, room)
limited_small (suc m) coming room = ground (arith, room, length-take (suc m - 0) coming)

opened_Delivers :
    (capture : Capture) (descriptor : Bool) (max_packets : ℕ) (rounds : List Round)
    → All IsRound rounds
    → Countable max_packets 0 (length (packets_rounds (capture.live && descriptor) rounds))
    → is_some capture.handle ≡ true
    → (d : Delivery) → run capture descriptor max_packets rounds ≡ ok d
    → Delivers max_packets 0
        (packets_rounds (capture.live && descriptor) rounds)
        (end_rounds (capture.live && descriptor) rounds)
        d
opened_Delivers capture descriptor max_packets rounds frames room open_handle d ran =
    let returned = rw ran at (run-Delivers capture descriptor max_packets rounds frames room) in
    rw open_handle at returned

-- For a source whose frames hold the bytes that they announce, a limit or a source that keeps the count
-- within an `int`, and a capture that is open: the packets of its frames, each turned into a queued one
-- and up to the limit if it is not 0, are analysed each exactly once, whatever the number of
-- workers, the capacity, the batch size and the interleaving, if the queue is shut down only after the
-- last of them is pushed, and the workers have left; and the number of processed packets is the
-- number of captured ones. That each packet is analysed once is said by weights.
pub captured-processed :
    {A : Type 0} (queued : ParsedPacket → A) (capture : Capture) (descriptor : Bool)
    (max_packets : ℕ) (rounds : List Round)
    → All IsRound rounds
    → Countable max_packets 0 (length (packets_rounds (capture.live && descriptor) rounds))
    → is_some capture.handle ≡ true
    → (d : Delivery) → run capture descriptor max_packets rounds ≡ ok d
    → (linger : Bool) (max_n num_workers capacity : ℕ) (joined s : System A)
    → Steps linger max_n (start num_workers (make_queue capacity) (map queued d.handled)) joined
    → joined.queue.is_shutdown ≡ false
    → joined.incoming ≡ []
    → Steps linger max_n (record joined { queue = shutdown joined.queue }) s
    → All (λ phase. phase ≡ exited) s.workers
    → let packets = limited max_packets 0 (packets_rounds (capture.live && descriptor) rounds) in
      ((weight : A → ℕ) → total weight (map queued packets) ≡ total_batches weight s.analyzed)
      × (s.processed ≡ d.delivered)
captured-processed {A} queued capture descriptor max_packets rounds frames room open_handle d ran
      linger max_n num_workers capacity joined s before open_ all_pushed after gone =
    let delivers =
      opened_Delivers capture descriptor max_packets rounds frames room open_handle d ran in
    let small =
      limited_small max_packets (packets_rounds (capture.live && descriptor) rounds) room in
    let (once, counted) =
      analyzed_once linger max_n num_workers capacity (map queued d.handled) joined s before open_
        all_pushed after gone in
    (
      λ weight.
          ap (λ (l : List ParsedPacket). total weight (map queued l)) (sym delivers.0)
          ∙ once weight,
      counted ∙ omega (arith, delivers.1, length-map d.handled queued, ap length delivers.0, small),
    )
