-- ===== src/Queue.antt =====
-- src/queue/packet_queue.cpp and include/netsentinel/packet_queue.hpp: the bounded queue between the
-- capture thread and the workers. Each function is one critical section under the queue's mutex; a
-- packet may be of any type. The counters of waiting time stand apart, since no other state depends on
-- them: a wait's time is what the clock gives.
pub mod Pool
pub mod Delivery
pub mod Drained
pub mod Shutdown
pub mod Waits
pub mod Wakeups
mod Tests
use net_sentinel.Base.{
  ℕ, ◌+◌, ◌%◌, ◌^◌, Bool, true, false, not, ◌&&◌, ◌||◌, ◌==◌, ltb, leb, if◌then◌else◌, List, [],
  ◌∷◌, ◌++◌, length, take, drop, min,
}

pub record PacketQueue (A : Type 0) : Type 0 where
  pub items : List A
  pub capacity : ℕ
  pub wanted : ℕ
  pub is_shutdown : Bool

-- What a call of `push` does at a state of the queue: it waits, returns false, or returns true, with
-- whether it wakes a consumer.
pub data Pushed (A : Type 0) : Type 0 where
  blocked refused : Pushed A
  accepted : PacketQueue A → Bool → Pushed A

-- `push_wait_ns_` and `pop_wait_ns_`.
pub record WaitTimes : Type 0 where
  pub push_wait_ns : ℕ
  pub pop_wait_ns : ℕ

-- What a call of `pop_batch` adds, whose waits took so long.
unfoldable pub time_pop : (elapsed_ns : ℕ) → WaitTimes → WaitTimes
time_pop elapsed_ns times = record times { pop_wait_ns = (times.pop_wait_ns + elapsed_ns) % 2 ^ 64 }

module _ {A : Type 0} where
  unfoldable pub make_queue : ℕ → PacketQueue A
  make_queue capacity = record { items = []; capacity = capacity; wanted = 1; is_shutdown = false }

  -- A call that has waited finds the condition of its wait true, and goes on as a fresh call would.
  unfoldable pub push : A → PacketQueue A → Pushed A
  push packet queue =
      if leb queue.capacity (length queue.items) && not queue.is_shutdown
      then blocked
      else if queue.is_shutdown
      then refused
      else let items = queue.items ++ packet ∷ [] in
        accepted (record queue { items = items })
          (length items == 1 || length items == queue.wanted)

  -- `pop_batch` up to its first wait.
  unfoldable pub begin_pop : ℕ → PacketQueue A → PacketQueue A
  begin_pop max_n queue = record queue { wanted = max_n }

  -- Whether it waits a second time, once the first wait is over; `linger` tells whether it may.
  unfoldable pub should_linger : Bool → ℕ → PacketQueue A → Bool
  should_linger linger max_n queue =
      not (length queue.items == 0)
      && ltb (length queue.items) max_n
      && not queue.is_shutdown
      && linger

  -- The rest of `pop_batch`: the batch, and what is left.
  unfoldable pub take_batch : ℕ → PacketQueue A → List A × PacketQueue A
  take_batch max_n queue =
      let n = min max_n (length queue.items) in
      (take n queue.items, record queue { items = drop n queue.items })

  unfoldable pub shutdown : PacketQueue A → PacketQueue A
  shutdown queue = record queue { is_shutdown = true }

  unfoldable pub is_finished : PacketQueue A → Bool
  is_finished queue = queue.is_shutdown && length queue.items == 0

  unfoldable pub size : PacketQueue A → ℕ
  size queue = length queue.items

  -- What a call of `push` at a state of the queue adds, if it waits for so long.
  unfoldable pub time_push : PacketQueue A → (elapsed_ns : ℕ) → WaitTimes → WaitTimes
  time_push queue elapsed_ns times =
      if leb queue.capacity (length queue.items) && not queue.is_shutdown
      then record times { push_wait_ns = (times.push_wait_ns + elapsed_ns) % 2 ^ 64 }
      else times
