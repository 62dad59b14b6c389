-- ===== src/Queue/Delivery.antt =====
-- The order of delivery and the size of the queue, along any interleaving.
use net_sentinel.Base.{
  ℕ, ◌≤◌, ◌<◌, ◌≡◌, refl, sym, ap, ◌∙◌, Bool, false, min, List, [], ◌∷◌, ◌++◌, length, arith,
  take-append-drop, length-append, length-drop,
}
use net_sentinel.Queue.{PacketQueue, accepted, push, begin_pop, take_batch, shutdown, make_queue}
use net_sentinel.Queue.Pool.{
  System, start, pop_by, finish_batch, Step, push_accepted, push_refused, shut, begin, wait_again,
  pop_first, pop_second, analyze, poll_again, leave, Steps, done, next,
}

module _ {A : Type 0} where
  append_assoc : (xs ys zs : List A) → (xs ++ ys) ++ zs ≡ xs ++ (ys ++ zs)
  append_assoc [] ys zs = refl
  append_assoc (x ∷ xs) ys zs = ap (◌∷◌ x) (append_assoc xs ys zs)

  -- What is popped and what waits in the queue are, in order, what was accepted, and the queue is never
  -- longer than its capacity.
  pub record IsFifo (s : System A) : Type 0 where
    pub order : s.taken_in ≡ s.popped ++ s.queue.items
    pub bounded : length s.queue.items ≤ s.queue.capacity

  pub push-accepted :
      (packet : A) (queue next_queue : PacketQueue A) (wake : Bool)
      → push packet queue ≡ accepted next_queue wake
      → (next_queue.items ≡ queue.items ++ packet ∷ [])
        × (next_queue.capacity ≡ queue.capacity)
        × (length queue.items < queue.capacity)
        × (queue.is_shutdown ≡ false)
        × (next_queue.is_shutdown ≡ false)
  unfolding push
  push-accepted packet queue next_queue wake e = ground arith

  pop_by-IsFifo : (max_n i : ℕ) (s : System A) → IsFifo s → IsFifo (pop_by max_n i s)
  unfolding pop_by take_batch
  pop_by-IsFifo max_n i s f = record {
    order =
        f.order
        ∙ ap (s.popped ++◌)
            (sym (take-append-drop (min max_n (length s.queue.items)) s.queue.items))
        ∙ sym (append_assoc s.popped _ _);
    bounded =
        omega (arith, f.bounded, length-drop (min max_n (length s.queue.items)) s.queue.items);
  }

  Step-IsFifo :
      (linger : Bool) (max_n : ℕ) (s t : System A) → Step linger max_n s t → IsFifo s → IsFifo t
  unfolding shutdown begin_pop finish_batch
  Step-IsFifo linger max_n s t (push_accepted packet rest queue wake e p) f =
      let (items, capacity, room, _, _) = push-accepted packet s.queue queue wake p in
      record {
        order =
            ap (◌++ packet ∷ []) f.order
            ∙ append_assoc s.popped s.queue.items (packet ∷ [])
            ∙ ap (s.popped ++◌) (sym items);
        bounded =
            rw (items, capacity) (omega (arith, room, length-append s.queue.items (packet ∷ [])));
      }
  Step-IsFifo linger max_n s t (push_refused packet rest e p) f = record {
    order = f.order;
    bounded = f.bounded;
  }
  Step-IsFifo linger max_n s t shut f = record { order = f.order; bounded = f.bounded }
  Step-IsFifo linger max_n s t (begin i e) f = record { order = f.order; bounded = f.bounded }
  Step-IsFifo linger max_n s t (wait_again i e h) f = record {
    order = f.order;
    bounded = f.bounded;
  }
  Step-IsFifo linger max_n s t (pop_first i e h) f = pop_by-IsFifo max_n i s f
  Step-IsFifo linger max_n s t (pop_second i e) f = pop_by-IsFifo max_n i s f
  Step-IsFifo linger max_n s t (analyze i batch e) f = record {
    order = f.order;
    bounded = f.bounded;
  }
  Step-IsFifo linger max_n s t (poll_again i e h) f = record {
    order = f.order;
    bounded = f.bounded;
  }
  Step-IsFifo linger max_n s t (leave i e h) f = record { order = f.order; bounded = f.bounded }

  Steps-IsFifo :
      (linger : Bool) (max_n : ℕ) (s t : System A) → Steps linger max_n s t → IsFifo s → IsFifo t
  Steps-IsFifo linger max_n s t done f = f
  Steps-IsFifo linger max_n s t (next {t = u} steps step) f =
      Step-IsFifo linger max_n u t step (Steps-IsFifo linger max_n s u steps f)

  -- However the capture thread and the workers interleave, and wherever the queue is shut down: the
  -- packets popped so far, followed by those in the queue, are those that `push` accepted, in order and
  -- without loss or repetition, and the queue never holds more than its capacity.
  pub Steps-fifo :
      (linger : Bool) (max_n num_workers capacity : ℕ) (incoming : List A) (s : System A)
      → Steps linger max_n (start num_workers (make_queue capacity) incoming) s
      → (s.taken_in ≡ s.popped ++ s.queue.items) × (length s.queue.items ≤ s.queue.capacity)
  unfolding start make_queue
  Steps-fifo linger max_n num_workers capacity incoming s steps =
      let f =
        Steps-IsFifo linger max_n _ s steps (record { order = refl; bounded = omega arith }) in
      (f.order, f.bounded)
