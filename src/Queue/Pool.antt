-- ===== src/Queue/Pool.antt =====
-- src/queue/worker_pool.cpp with the queue: the capture thread pushes, any number of workers run
-- `worker_loop`, and the queue is shut down at any time. A step is one critical section or one call of
-- the analysis; any interleaving is a sequence of steps. A timeout may end a wait at any time.
use net_sentinel.Base.{
  ℕ, ◌+◌, ◌%◌, ◌^◌, ◌≡◌, Bool, true, false, ◌==◌, if◌then◌else◌, List, [], ◌∷◌, ◌++◌, some, length,
  get_elem?, set, replicate,
}
use net_sentinel.Queue.{
  PacketQueue, refused, accepted, push, begin_pop, should_linger, take_batch, shutdown, is_finished,
}

-- Where a worker stands in `worker_loop`: before `pop_batch`, in its first or second wait, holding a
-- batch that it is to analyse, past an empty batch, or gone.
pub data Phase (A : Type 0) : Type 0 where
  ready waiting lingering : Phase A
  holding : List A → Phase A
  checking exited : Phase A

-- The queue, what the capture thread has yet to push, the workers and the pool's two counters, with
-- three histories: the packets accepted by `push` and popped by workers, in order, and the batches
-- analysed.
pub record System (A : Type 0) : Type 0 where
  pub queue : PacketQueue A
  pub incoming : List A
  pub workers : List (Phase A)
  pub processed : ℕ
  pub batches : ℕ
  pub taken_in : List A
  pub popped : List A
  pub analyzed : List (List A)

module _ {A : Type 0} where
  -- The constructor of the pool and `start`.
  unfoldable pub start : ℕ → PacketQueue A → List A → System A
  start num_workers queue incoming = record {
    queue = queue;
    incoming = incoming;
    workers = replicate (if num_workers == 0 then 1 else num_workers) ready;
    processed = 0;
    batches = 0;
    taken_in = [];
    popped = [];
    analyzed = [];
  }

  -- The phase after `pop_batch`.
  abbrev pub after_pop : List A → Phase A
  after_pop [] = checking
  after_pop (packet ∷ batch) = holding (packet ∷ batch)

  -- A worker takes its batch.
  unfoldable pub pop_by : ℕ → ℕ → System A → System A
  pop_by max_n i s =
      let (batch, queue) = take_batch max_n s.queue in
      record s {
        queue = queue;
        workers = set s.workers i (after_pop batch);
        popped = s.popped ++ batch;
      }

  -- A worker has analysed its batch.
  unfoldable pub finish_batch : ℕ → List A → System A → System A
  finish_batch i batch s = record s {
    workers = set s.workers i ready;
    processed = (s.processed + length batch) % 2 ^ 64;
    batches = (s.batches + 1) % 2 ^ 64;
    analyzed = s.analyzed ++ batch ∷ [];
  }

  abbrev pub move : ℕ → Phase A → System A → System A
  move i phase s = record s { workers = set s.workers i phase }

  pub data Step (linger : Bool) (max_n : ℕ) (s : System A) : System A → Type 0 where
    push_accepted :
        (packet : A) (rest : List A) (queue : PacketQueue A) (wake : Bool)
        → s.incoming ≡ packet ∷ rest
        → push packet s.queue ≡ accepted queue wake
        → Step linger max_n s
            (record s { queue = queue; incoming = rest; taken_in = s.taken_in ++ packet ∷ [] })
    push_refused :
        (packet : A) (rest : List A)
        → s.incoming ≡ packet ∷ rest
        → push packet s.queue ≡ refused
        → Step linger max_n s (record s { incoming = rest })
    shut : Step linger max_n s (record s { queue = shutdown s.queue })
    begin :
        (i : ℕ)
        → get_elem? s.workers i ≡ some ready
        → Step linger max_n s (record (move i waiting s) { queue = begin_pop max_n s.queue })
    wait_again :
        (i : ℕ)
        → get_elem? s.workers i ≡ some waiting
        → should_linger linger max_n s.queue ≡ true
        → Step linger max_n s (move i lingering s)
    pop_first :
        (i : ℕ)
        → get_elem? s.workers i ≡ some waiting
        → should_linger linger max_n s.queue ≡ false
        → Step linger max_n s (pop_by max_n i s)
    pop_second :
        (i : ℕ) → get_elem? s.workers i ≡ some lingering → Step linger max_n s (pop_by max_n i s)
    analyze :
        (i : ℕ) (batch : List A)
        → get_elem? s.workers i ≡ some (holding batch)
        → Step linger max_n s (finish_batch i batch s)
    poll_again :
        (i : ℕ)
        → get_elem? s.workers i ≡ some checking
        → is_finished s.queue ≡ false
        → Step linger max_n s (move i ready s)
    leave :
        (i : ℕ)
        → get_elem? s.workers i ≡ some checking
        → is_finished s.queue ≡ true
        → Step linger max_n s (move i exited s)

  pub data Steps (linger : Bool) (max_n : ℕ) (s : System A) : System A → Type 0 where
    done : Steps linger max_n s s
    next :
        {t u : System A} → Steps linger max_n s t → Step linger max_n t u → Steps linger max_n s u
