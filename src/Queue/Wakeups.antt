-- ===== src/Queue/Wakeups.antt =====
-- Which threads sleep in `push`, along any steps of the queue.
use net_sentinel.Base.{
  ℕ, zero, suc, ◌≤◌, ◌<◌, ◌≡◌, refl, ap, ◌∙◌, Bool, true, false, not, ◌&&◌, ◌||◌, ltb, leb, some,
  List, [], ◌∷◌, ◌++◌, ◌==◌, length, replicate, get_elem?, set, min, arith, length-drop,
  length-take, length-append,
}
use net_sentinel.Queue.{
  PacketQueue, blocked, accepted, push, begin_pop, take_batch, shutdown, make_queue,
}
use net_sentinel.Queue.Delivery.{push-accepted}
use net_sentinel.Queue.Waits.{
  Producer, outside, testing, asleep, Waits, wake, notify_all, take_packets, Move, call, sleep,
  stir, give_up, put, want, take_some, notify, close, notify_close, Moves, done, next, quiet,
}

module _ {A : Type 0} where
  abbrev pub is_asleep : Producer A → Bool
  is_asleep (asleep packet) = true
  is_asleep _ = false

  abbrev pub any_asleep : List (Producer A) → Bool
  any_asleep [] = false
  any_asleep (p ∷ producers) = is_asleep p || any_asleep producers

  -- A thread sleeps only while the queue is full and open, or while a notification is on its way.
  pub record IsHeard (s : Waits A) : Type 0 where
    pub heard :
        any_asleep s.producers ≡ true
        → (ltb 0 s.unnotified
            || s.closing
            || leb s.queue.capacity (length s.queue.items) && not s.queue.is_shutdown)
          ≡ true
    pub bounded : length s.queue.items ≤ s.queue.capacity

  any_asleep-notify_all :
      (producers : List (Producer A)) → any_asleep (notify_all producers) ≡ false
  unfolding notify_all wake
  any_asleep-notify_all [] = refl
  any_asleep-notify_all (outside ∷ producers) = any_asleep-notify_all producers
  any_asleep-notify_all (testing packet ∷ producers) = any_asleep-notify_all producers
  any_asleep-notify_all (asleep packet ∷ producers) = any_asleep-notify_all producers

  -- A thread that does not fall asleep leaves no more asleep than before.
  any_asleep-set :
      (producers : List (Producer A)) (i : ℕ) (p : Producer A)
      → is_asleep p ≡ false
      → any_asleep (set producers i p) ≡ true
      → any_asleep producers ≡ true
  any_asleep-set [] i p h e = e
  any_asleep-set (q ∷ producers) zero p h e = ground (arith, h, e)
  any_asleep-set (q ∷ producers) (suc i) p h e = ground (arith, e, any_asleep-set producers i p h)

  -- A call of `push` that waits finds the queue full and open.
  push-blocked :
      (packet : A) (queue : PacketQueue A)
      → push packet queue ≡ blocked
      → (leb queue.capacity (length queue.items) && not queue.is_shutdown) ≡ true
  unfolding push
  push-blocked packet queue e = ground arith

  -- Every step keeps it.
  Move-IsHeard :
      (spurious : Bool) (max_n : ℕ) (s t : Waits A)
      → Move spurious max_n s t
      → IsHeard s
      → IsHeard t
  unfolding begin_pop take_packets take_batch shutdown
  Move-IsHeard spurious max_n s t (call i packet e) h = record {
    heard = λ a. h.heard (any_asleep-set s.producers i (testing packet) refl a);
    bounded = h.bounded;
  }
  Move-IsHeard spurious max_n s t (sleep i packet e b) h = record {
    heard = λ a. ground (arith, push-blocked packet s.queue b);
    bounded = h.bounded;
  }
  Move-IsHeard spurious max_n s t (stir i packet may e) h = record {
    heard = λ a. h.heard (any_asleep-set s.producers i (testing packet) refl a);
    bounded = h.bounded;
  }
  Move-IsHeard spurious max_n s t (give_up i packet e r) h = record {
    heard = λ a. h.heard (any_asleep-set s.producers i outside refl a);
    bounded = h.bounded;
  }
  Move-IsHeard spurious max_n s t (put i packet queue wakes e p) h =
      let (items, capacity, room, was_open, is_open) = push-accepted packet s.queue queue wakes p in
      record {
        heard = λ a.
            ground (arith, h.heard (any_asleep-set s.producers i outside refl a), room, was_open);
        bounded =
            rw (items, capacity) (omega (arith, room, length-append s.queue.items (packet ∷ [])));
      }
  Move-IsHeard spurious max_n s t want h = record { heard = h.heard; bounded = h.bounded }
  Move-IsHeard spurious max_n s t take_some h = record {
    heard = λ a. ground (
      arith,
      h.heard a,
      length-take (min max_n (length s.queue.items)) s.queue.items,
      length-drop (min max_n (length s.queue.items)) s.queue.items,
    );
    bounded =
        omega (arith, h.bounded, length-drop (min max_n (length s.queue.items)) s.queue.items);
  }
  Move-IsHeard spurious max_n s t (notify left e) h = record {
    heard = λ a. cc (a, any_asleep-notify_all s.producers);
    bounded = h.bounded;
  }
  Move-IsHeard spurious max_n s t close h = record {
    heard = λ a. ground (arith);
    bounded = h.bounded;
  }
  Move-IsHeard spurious max_n s t (notify_close e) h = record {
    heard = λ a. cc (a, any_asleep-notify_all s.producers);
    bounded = h.bounded;
  }

  quiet-IsHeard : (producers capacity : ℕ) → IsHeard (quiet producers capacity)
  unfolding quiet make_queue
  quiet-IsHeard producers capacity = record {
    heard = λ a. absurd (cc (a, none_asleep producers));
    bounded = omega arith;
  }
    where
      none_asleep : (n : ℕ) → any_asleep (replicate {A = Producer A} n outside) ≡ false
      none_asleep zero = refl
      none_asleep (suc n) = none_asleep n

  pub Moves-IsHeard :
      (spurious : Bool) (max_n producers capacity : ℕ) (s : Waits A)
      → Moves spurious max_n (quiet producers capacity) s
      → IsHeard s
  Moves-IsHeard spurious max_n producers capacity s done = quiet-IsHeard producers capacity
  Moves-IsHeard spurious max_n producers capacity s (next {t} {u} ms m) =
      Move-IsHeard spurious max_n t u m (Moves-IsHeard spurious max_n producers capacity t ms)

  asleep-any :
      (producers : List (Producer A)) (i : ℕ) (packet : A)
      → get_elem? producers i ≡ some (asleep packet)
      → any_asleep producers ≡ true
  asleep-any [] i packet e = absurd (cc e)
  asleep-any (asleep q ∷ producers) zero packet e = refl
  asleep-any (outside ∷ producers) zero packet e = absurd (cc e)
  asleep-any (testing q ∷ producers) zero packet e = absurd (cc e)
  asleep-any (p ∷ producers) (suc i) packet e = ground (arith, asleep-any producers i packet e)

  -- Whatever calls of `push`, `pop_batch` and `shutdown` came before, in any order and with any wake-ups that
  -- nothing notified: if a thread sleeps in `push` and no notification is on its way, then the queue is full and
  -- not shut down.
  pub Moves-full :
      (spurious : Bool) (max_n producers capacity i : ℕ) (packet : A) (s : Waits A)
      → Moves spurious max_n (quiet producers capacity) s
      → get_elem? s.producers i ≡ some (asleep packet)
      → s.unnotified ≡ 0
      → s.closing ≡ false
      → (length s.queue.items ≡ s.queue.capacity) × (s.queue.is_shutdown ≡ false)
  Moves-full spurious max_n producers capacity i packet s ms e u c =
      let h = Moves-IsHeard spurious max_n producers capacity s ms in
      let full = h.heard (asleep-any s.producers i packet e) in
      (ground (arith, full, h.bounded, u, c), ground (arith, full, u, c))

  push-room :
      (packet : A) (queue : PacketQueue A)
      → length queue.items < queue.capacity
      → queue.is_shutdown ≡ false
      → (wakes : Bool) × (push packet queue
          ≡ accepted (record queue { items = queue.items ++ packet ∷ [] }) wakes)
  unfolding push
  push-room packet queue room up = (
    length (queue.items ++ packet ∷ []) == 1 || length (queue.items ++ packet ∷ []) == queue.wanted,
    ground (arith, up, room),
  )

  take_packets-room :
      (max_n : ℕ) (s : Waits A)
      → 0 < max_n
      → 0 < s.queue.capacity
      → length s.queue.items ≤ s.queue.capacity
      → length (take_packets max_n s).queue.items < (take_packets max_n s).queue.capacity
  unfolding take_packets take_batch
  take_packets-room max_n s pos room bounded =
      omega
        (arith, pos, room, bounded, length-drop (min max_n (length s.queue.items)) s.queue.items)

  awakened :
      (producers : List (Producer A)) (i : ℕ) (packet : A)
      → get_elem? producers i ≡ some (asleep packet)
      → get_elem? (notify_all producers) i ≡ some (testing packet)
  unfolding notify_all wake
  awakened [] i packet e = absurd (cc e)
  awakened (asleep q ∷ producers) zero packet e = cc e
  awakened (outside ∷ producers) zero packet e = absurd (cc e)
  awakened (testing q ∷ producers) zero packet e = absurd (cc e)
  awakened (p ∷ producers) (suc i) packet e = awakened producers i packet e

  -- A batch that is taken from a queue with packets owes one notification more, and the queue stays open.
  take_packets-owes :
      (max_n : ℕ) (s : Waits A)
      → 0 < max_n
      → 0 < length s.queue.items
      → ((take_packets max_n s).unnotified ≡ suc s.unnotified)
        × ((take_packets max_n s).queue.is_shutdown ≡ s.queue.is_shutdown)
        × ((take_packets max_n s).producers ≡ s.producers)
  unfolding take_packets take_batch
  take_packets-owes max_n s pos some_items = (
    ground (arith, pos, some_items, length-take (min max_n (length s.queue.items)) s.queue.items),
    refl,
    refl,
  )

  -- Whatever calls came before, let a thread sleep in `push` with its packet, with no notification on its
  -- way, neither of a `pop_batch` nor of a `shutdown`. Then one call of `pop_batch`, for at least one packet,
  -- from a queue whose capacity is not 0, takes a batch
  -- and owes exactly one notification; that notification, by `notify_all`, wakes the thread; and the
  -- test of the woken thread then finds room: its `push` adds its packet at the end of the packets that
  -- the batch left. None of these steps is a call of `shutdown` or a wake-up that nothing notified.
  pub sleeper-returns :
      (spurious : Bool) (max_n producers capacity i : ℕ) (packet : A) (s : Waits A)
      → 0 < max_n
      → 0 < s.queue.capacity
      → Moves spurious max_n (quiet producers capacity) s
      → get_elem? s.producers i ≡ some (asleep packet)
      → s.unnotified ≡ 0
      → s.closing ≡ false
      → let taken = take_packets max_n s in
        let told : Waits A = record taken {
          producers = notify_all taken.producers;
          unnotified = 0;
        } in
        let queue : PacketQueue A = record taken.queue {
          items = taken.queue.items ++ packet ∷ [];
        } in
        let back : Waits A = record told {
          producers = set told.producers i outside;
          queue = queue;
        } in
        (taken.unnotified ≡ 1)
        × (Move false max_n s taken)
        × (Move false max_n taken told)
        × (get_elem? told.producers i ≡ some (testing packet))
        × ((wakes : Bool) × (push packet told.queue ≡ accepted queue wakes))
        × (Move false max_n told back)
  sleeper-returns spurious max_n producers capacity i packet s pos room ms e u c =
      let h = Moves-IsHeard spurious max_n producers capacity s ms in
      let (full, up) = Moves-full spurious max_n producers capacity i packet s ms e u c in
      let (owes, open_, same) = take_packets-owes max_n s pos (omega (arith, full, room)) in
      let one : (take_packets max_n s).unnotified ≡ 1 = owes ∙ ap suc u in
      let asleep_still : get_elem? (take_packets max_n s).producers i ≡ some (asleep packet) =
        ap (λ l. get_elem? l i) same ∙ e in
      let awake = awakened (take_packets max_n s).producers i packet asleep_still in
      let (wakes, accepts) =
        push-room packet (take_packets max_n s).queue (take_packets-room max_n s pos room h.bounded)
          (open_ ∙ up) in
      (one, take_some, notify 0 one, awake, (wakes, accepts), put i packet _ wakes awake accepts)
