-- ===== src/Queue/Tests.antt =====
-- A pool of one worker: two packets, the second refused after the shutdown.
use net_sentinel.Base.{
  ℕ, ◌+◌, set, ◌≢◌, ◌%◌, ◌^◌, ◌≤◌, ◌<◌, ◌≡◌, refl, Bool, true, false, List, [], ◌∷◌, ◌++◌, length,
  arith, get_elem?, some,
}
use net_sentinel.Queue.{
  PacketQueue, blocked, refused, accepted, make_queue, push, begin_pop, should_linger, take_batch,
  shutdown, is_finished, size, time_push, time_pop,
}
use net_sentinel.Queue.Pool.{
  Phase, holding, exited, System, start, pop_by, finish_batch, Step, push_accepted, push_refused,
  shut, begin, wait_again, pop_first, pop_second, analyze, leave, Steps, done, next,
}
use net_sentinel.Queue.Delivery.{Steps-fifo}
use net_sentinel.Queue.Drained.{total, total_batches, drained}
use net_sentinel.Queue.Shutdown.{work_left, count_steps, Steps-work_left, shutdown-progress}
use net_sentinel.Queue.Waits.{
  outside, testing, asleep, Waits, Move, call, sleep, put, Moves, quiet, notify_all, take_packets,
  wake,
}
use net_sentinel.Queue.Wakeups.{Moves-full, sleeper-returns}

program : Unit {0}
unfolding make_queue push begin_pop should_linger take_batch shutdown is_finished start pop_by
    finish_batch size time_push time_pop quiet notify_all take_packets wake
program = tt

abbrev queue_of : List ℕ → Bool → PacketQueue ℕ
queue_of items down = record { items = items; capacity = 2; wanted = 64; is_shutdown = down }

full_queue :
    (push 7 (queue_of (5 ∷ 6 ∷ []) false) ≡ blocked)
    × (push 7 (queue_of (5 ∷ 6 ∷ []) true) ≡ refused)
    × (push 7 (queue_of (5 ∷ []) false) ≡ accepted (queue_of (5 ∷ 7 ∷ []) false) false)
    × (push 7 (queue_of [] false) ≡ accepted (queue_of (7 ∷ []) false) true)
    × (take_batch 1 (queue_of (5 ∷ 6 ∷ []) true) ≡ (5 ∷ [], queue_of (6 ∷ []) true))
    × (size (queue_of (5 ∷ 6 ∷ []) true) ≡ 2)
unfolding program
full_queue = (refl, refl, refl, refl, refl, refl)

timed :
    (time_push (queue_of (5 ∷ 6 ∷ []) false) 300 (record { push_wait_ns = 1; pop_wait_ns = 2 })
      ≡ record { push_wait_ns = 301; pop_wait_ns = 2 })
    × (time_push (queue_of (5 ∷ []) false) 300 (record { push_wait_ns = 1; pop_wait_ns = 2 })
        ≡ record { push_wait_ns = 1; pop_wait_ns = 2 })
    × (time_pop 40 (record { push_wait_ns = 1; pop_wait_ns = 2 })
        ≡ record { push_wait_ns = 1; pop_wait_ns = 42 })
unfolding program
timed = (refl, refl, refl)

abbrev at_shutdown : System ℕ
at_shutdown = record {
  queue = queue_of [] true;
  incoming = 6 ∷ [];
  workers = holding (5 ∷ []) ∷ [];
  processed = 0;
  batches = 0;
  taken_in = 5 ∷ [];
  popped = 5 ∷ [];
  analyzed = [];
}

abbrev at_end : System ℕ
at_end = record at_shutdown {
  incoming = [];
  workers = exited ∷ [];
  processed = 1;
  batches = 1;
  analyzed = (5 ∷ []) ∷ [];
}

to_shutdown : Steps true 64 (start 1 (make_queue 2) (5 ∷ 6 ∷ [])) at_shutdown
unfolding program
to_shutdown =
    next
      (next
        (next
          (next (next done (begin 0 refl))
            (push_accepted 5 (6 ∷ []) (queue_of (5 ∷ []) false) true refl refl))
          (wait_again 0 refl refl))
        (pop_second 0 refl))
      shut

to_end : Steps true 64 (start 1 (make_queue 2) (5 ∷ 6 ∷ [])) at_end
unfolding program
to_end =
    next
      (next
        (next (next (next to_shutdown (push_refused 6 [] refl refl)) (analyze 0 (5 ∷ []) refl))
          (begin 0 refl))
        (pop_first 0 refl refl))
      (leave 0 refl refl)

Steps-fifo_example :
    (at_shutdown.taken_in ≡ at_shutdown.popped ++ at_shutdown.queue.items)
    × (length at_shutdown.queue.items ≤ 2)
Steps-fifo_example = Steps-fifo true 64 1 2 (5 ∷ 6 ∷ []) at_shutdown to_shutdown

drained_example :
    (is_finished at_end.queue ≡ true)
    × ((weight : ℕ → ℕ) → total weight (5 ∷ []) ≡ total_batches weight ((5 ∷ []) ∷ []))
    × (◌≡◌ {A = ℕ} 1 (length at_end.taken_in % 2 ^ 64))
drained_example = drained true 64 1 2 (5 ∷ 6 ∷ []) at_end to_end (refl, tt)

-- What follows the shutdown in that run.
the_end : Steps true 64 at_shutdown at_end
unfolding program
the_end =
    next
      (next
        (next (next (next done (push_refused 6 [] refl refl)) (analyze 0 (5 ∷ []) refl))
          (begin 0 refl))
        (pop_first 0 refl refl))
      (leave 0 refl refl)

Steps-work_left_example :
    (at_end.queue.is_shutdown ≡ true)
    × (count_steps true 64 at_shutdown at_end the_end + work_left at_end ≤ work_left at_shutdown)
Steps-work_left_example = Steps-work_left true 64 at_shutdown at_end (omega arith) refl the_end

shutdown-progress_example :
    (t : System ℕ) × ((next_phase : Phase ℕ) × (Step true 64 at_shutdown t
        × ((t.workers ≡ set at_shutdown.workers 0 next_phase)
            × ((next_phase ≢ holding (5 ∷ [])) × (work_left t < work_left at_shutdown)))))
shutdown-progress_example =
    shutdown-progress true 64 0 at_shutdown (holding (5 ∷ [])) (omega arith) refl refl (λ e. cc)

-- A thread that fills a queue of one packet and sleeps in its second call.
abbrev sleeping : Waits ℕ
sleeping = record {
  queue = record { items = 5 ∷ []; capacity = 1; wanted = 1; is_shutdown = false };
  producers = asleep 6 ∷ [];
  unnotified = 0;
  closing = false;
}

to_sleep : Moves true 64 (quiet 1 1) sleeping
unfolding program
to_sleep =
    Moves.next
      (Moves.next
        (Moves.next (Moves.next Moves.done (call 0 5 refl)) (
          put 0 5 (record { items = 5 ∷ []; capacity = 1; wanted = 1; is_shutdown = false }) true
            refl refl))
        (call 0 6 refl))
      (sleep 0 6 refl refl)

Moves-full_example : (length sleeping.queue.items ≡ 1) × (sleeping.queue.is_shutdown ≡ false)
Moves-full_example = Moves-full true 64 1 1 0 6 sleeping to_sleep refl refl refl

sleeper-returns_example :
    let taken = take_packets 64 sleeping in
    let told : Waits ℕ = record taken { producers = notify_all taken.producers; unnotified = 0 } in
    let queue : PacketQueue ℕ = record taken.queue { items = taken.queue.items ++ 6 ∷ [] } in
    let back : Waits ℕ = record told { producers = set told.producers 0 outside; queue = queue } in
    (taken.unnotified ≡ 1)
    × (Move false 64 sleeping taken)
    × (Move false 64 taken told)
    × (get_elem? told.producers 0 ≡ some (testing 6))
    × ((wakes : Bool) × (push 6 told.queue ≡ accepted queue wakes))
    × (Move false 64 told back)
sleeper-returns_example =
    sleeper-returns true 64 1 1 0 6 sleeping (omega arith) (omega arith) to_sleep refl refl refl
