-- ===== src/Queue/Waits.antt =====
-- The waits of `push` on `not_full_` in src/queue/packet_queue.cpp: which threads sleep, and which calls
-- have released the mutex and not yet notified. Each step runs under the mutex, or is a notification.
-- The waits of `pop_batch` have timeouts and are those of `net_sentinel.Queue.Pool`.
use net_sentinel.Base.{
  ℕ, suc, ◌+◌, ◌≡◌, Bool, true, false, ltb, if◌then◌else◌, some, List, length, replicate, get_elem?,
  set, map,
}
use net_sentinel.Queue.{
  PacketQueue, blocked, refused, accepted, push, begin_pop, take_batch, shutdown, make_queue,
}

-- Where a thread that calls `push` stands: outside, about to test the state of the queue, or asleep.
pub data Producer (A : Type 0) : Type 0 where
  outside : Producer A
  testing asleep : (packet : A) → Producer A

-- The queue and its producers; how many consumers have taken packets and not yet notified; whether
-- `shutdown` has not.
pub record Waits (A : Type 0) : Type 0 where
  pub queue : PacketQueue A
  pub producers : List (Producer A)
  pub unnotified : ℕ
  pub closing : Bool

module _ {A : Type 0} where
  -- A thread that wakes tests the state again.
  unfoldable pub wake : Producer A → Producer A
  wake outside = outside
  wake (testing packet) = testing packet
  wake (asleep packet) = testing packet

  -- `not_full_.notify_all()`.
  unfoldable pub notify_all : List (Producer A) → List (Producer A)
  unfolding wake
  notify_all producers = map wake producers

  abbrev pub at : ℕ → Producer A → Waits A → Waits A
  at i producer s = record s { producers = set s.producers i producer }

  -- `pop_batch` from the end of its waits to the release of the mutex.
  unfoldable pub take_packets : (max_n : ℕ) → Waits A → Waits A
  unfolding take_batch
  take_packets max_n s =
      let (batch, rest) = take_batch max_n s.queue in
      record s {
        queue = rest;
        unnotified = if ltb 0 (length batch) then s.unnotified + 1 else s.unnotified;
      }

  -- `spurious` tells whether a thread may wake that nothing has notified.
  pub data Move (spurious : Bool) (max_n : ℕ) (s : Waits A) : Waits A → Type 0 where
    call :
        (i : ℕ) (packet : A)
        → get_elem? s.producers i ≡ some outside
        → Move spurious max_n s (at i (testing packet) s)
    sleep :
        (i : ℕ) (packet : A)
        → get_elem? s.producers i ≡ some (testing packet)
        → push packet s.queue ≡ blocked
        → Move spurious max_n s (at i (asleep packet) s)
    stir :
        (i : ℕ) (packet : A)
        → spurious ≡ true
        → get_elem? s.producers i ≡ some (asleep packet)
        → Move spurious max_n s (at i (testing packet) s)
    give_up :
        (i : ℕ) (packet : A)
        → get_elem? s.producers i ≡ some (testing packet)
        → push packet s.queue ≡ refused
        → Move spurious max_n s (at i outside s)
    put :
        (i : ℕ) (packet : A) (queue : PacketQueue A) (wakes : Bool)
        → get_elem? s.producers i ≡ some (testing packet)
        → push packet s.queue ≡ accepted queue wakes
        → Move spurious max_n s (record (at i outside s) { queue = queue })
    want : Move spurious max_n s (record s { queue = begin_pop max_n s.queue })
    take_some : Move spurious max_n s (take_packets max_n s)
    notify :
        (left : ℕ)
        → s.unnotified ≡ suc left
        → Move spurious max_n s (record s { producers = notify_all s.producers; unnotified = left })
    close : Move spurious max_n s (record s { queue = shutdown s.queue; closing = true })
    notify_close :
        s.closing ≡ true
        → Move spurious max_n s (record s { producers = notify_all s.producers; closing = false })

  pub data Moves (spurious : Bool) (max_n : ℕ) (s : Waits A) : Waits A → Type 0 where
    done : Moves spurious max_n s s
    next :
        {t u : Waits A}
        → Moves spurious max_n s t
        → Move spurious max_n t u
        → Moves spurious max_n s u

  -- Before any call.
  unfoldable pub quiet : (producers capacity : ℕ) → Waits A
  quiet producers capacity = record {
    queue = make_queue capacity;
    producers = replicate producers outside;
    unnotified = 0;
    closing = false;
  }
