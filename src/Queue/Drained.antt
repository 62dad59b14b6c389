-- ===== src/Queue/Drained.antt =====
-- The packets in the queue, with the workers and analysed, along any interleaving.
use net_sentinel.Base.{
  ℕ, zero, suc, ◌+◌, ◌%◌, ◌^◌, ◌≡◌, ◌≢◌, refl, sym, ap, subst, ◌∙◌, Bool, true, ◌==◌, min,
  if◌then◌else◌, List, [], ◌∷◌, some, length, get_elem?, replicate, take, drop, arith, All, All-set,
  All-replicate, length-drop, sum_of, sum_of-append, sum_of-set, sum_of_none, length-set,
  length-replicate,
}
use net_sentinel.Queue.{PacketQueue, begin_pop, take_batch, shutdown, is_finished, make_queue}
use net_sentinel.Queue.Pool.{
  Phase, ready, waiting, lingering, holding, checking, exited, System, start, after_pop, pop_by,
  finish_batch, move, Step, push_accepted, push_refused, shut, begin, wait_again, pop_first,
  pop_second, analyze, poll_again, leave, Steps, done, next,
}
use net_sentinel.Queue.Delivery.{push-accepted, Steps-fifo}

module _ {A : Type 0} where
  -- The sum of a weight over packets: with a weight of 1 for some packets and 0 for all others, their
  -- number.
  abbrev pub total : (A → ℕ) → List A → ℕ
  total weight packets = sum_of weight packets

  abbrev pub total_batches : (A → ℕ) → List (List A) → ℕ
  total_batches weight batches = sum_of (total weight) batches

  total-length : (packets : List A) → total (λ packet. 1) packets ≡ length packets
  total-length [] = refl
  total-length (packet ∷ packets) = omega (arith, total-length packets)

  -- The packets in the hands of a worker, and of all of them.
  abbrev in_hand : (A → ℕ) → Phase A → ℕ
  in_hand weight (holding batch) = total weight batch
  in_hand weight _ = 0

  abbrev all_in_hand : (A → ℕ) → List (Phase A) → ℕ
  all_in_hand weight workers = sum_of (in_hand weight) workers

  in_hand-after_pop :
      (weight : A → ℕ) (batch : List A) → in_hand weight (after_pop batch) ≡ total weight batch
  in_hand-after_pop weight [] = refl
  in_hand-after_pop weight (packet ∷ batch) = refl

  -- A worker that has left did so with the queue shut down and empty.
  abbrev LeftFinished : PacketQueue A → Phase A → Type 0
  LeftFinished queue exited = is_finished queue ≡ true
  LeftFinished queue _ = Unit {0}

  record IsCounted (s : System A) : Type 0 where
    delivered :
        (weight : A → ℕ)
        → total weight s.popped ≡ all_in_hand weight s.workers + total_batches weight s.analyzed
    counted : s.processed ≡ total_batches (λ packet. 1) s.analyzed % 2 ^ 64
    left : All (LeftFinished s.queue) s.workers

  LeftFinished-keep :
      (queue after : PacketQueue A)
      → (is_finished queue ≡ true → is_finished after ≡ true)
      → (phase : Phase A) → LeftFinished queue phase
      → LeftFinished after phase
  LeftFinished-keep queue after f exited l = f l
  LeftFinished-keep queue after f ready l = tt
  LeftFinished-keep queue after f waiting l = tt
  LeftFinished-keep queue after f lingering l = tt
  LeftFinished-keep queue after f (holding batch) l = tt
  LeftFinished-keep queue after f checking l = tt

  LeftFinished-after_pop :
      (queue : PacketQueue A) (batch : List A) → LeftFinished queue (after_pop batch)
  LeftFinished-after_pop queue [] = tt
  LeftFinished-after_pop queue (packet ∷ batch) = tt

  All-map :
      (P Q : Phase A → Type 0) (workers : List (Phase A))
      → ((phase : Phase A) → P phase → Q phase)
      → All P workers
      → All Q workers
  All-map P Q [] f h = tt
  All-map P Q (phase ∷ workers) f h = (f phase h.0, All-map P Q workers f h.1)

  -- A worker that changes its phase, and holds as much as before.
  move-IsCounted :
      (i : ℕ) (before after : Phase A) (s : System A)
      → get_elem? s.workers i ≡ some before
      → ((weight : A → ℕ) → in_hand weight before ≡ in_hand weight after)
      → LeftFinished s.queue after
      → IsCounted s
      → IsCounted (move i after s)
  move-IsCounted i before after s e same l c = record {
    delivered = λ weight. omega (
      arith,
      c.delivered weight,
      sum_of-set (in_hand weight) s.workers i before after e,
      same weight,
    );
    counted = c.counted;
    left = All-set (LeftFinished s.queue) s.workers i after c.left l;
  }

  pop_by-IsCounted :
      (max_n i : ℕ) (before : Phase A) (s : System A)
      → get_elem? s.workers i ≡ some before
      → ((weight : A → ℕ) → in_hand weight before ≡ 0)
      → IsCounted s
      → IsCounted (pop_by max_n i s)
  unfolding pop_by take_batch is_finished
  pop_by-IsCounted max_n i before s e free c = record {
    delivered = λ weight. omega (
      arith,
      c.delivered weight,
      free weight,
      sum_of-append weight s.popped batch,
      in_hand-after_pop weight batch,
      sum_of-set (in_hand weight) s.workers i before (after_pop batch) e,
    );
    counted = c.counted;
    left =
        All-set (LeftFinished rest) s.workers i (after_pop batch)
          (All-map (LeftFinished s.queue) (LeftFinished rest) s.workers
            (LeftFinished-keep s.queue rest (λ f.
              ground (arith, f, length-drop (min max_n (length s.queue.items)) s.queue.items)))
            c.left)
          (LeftFinished-after_pop rest batch);
  }
    where
      batch : List A
      batch = take (min max_n (length s.queue.items)) s.queue.items

      rest : PacketQueue A
      rest = record s.queue { items = drop (min max_n (length s.queue.items)) s.queue.items }

  analyze-IsCounted :
      (i : ℕ) (batch : List A) (s : System A)
      → get_elem? s.workers i ≡ some (holding batch)
      → IsCounted s
      → IsCounted (finish_batch i batch s)
  unfolding finish_batch
  analyze-IsCounted i batch s e c = record {
    delivered = λ weight. omega (
      arith,
      c.delivered weight,
      sum_of-append (total weight) s.analyzed (batch ∷ []),
      sum_of-set (in_hand weight) s.workers i (holding batch) ready e,
    );
    counted = omega (
      arith,
      c.counted,
      sum_of-append (total (λ packet. 1)) s.analyzed (batch ∷ []),
      total-length batch,
    );
    left = All-set (LeftFinished s.queue) s.workers i ready c.left tt;
  }

  with_queue :
      (s : System A) (queue : PacketQueue A)
      → (is_finished s.queue ≡ true → is_finished queue ≡ true)
      → IsCounted s
      → IsCounted (record s { queue = queue })
  with_queue s queue f c = record {
    delivered = c.delivered;
    counted = c.counted;
    left =
        All-map (LeftFinished s.queue) (LeftFinished queue) s.workers
          (LeftFinished-keep s.queue queue f) c.left;
  }

  Step-IsCounted :
      (linger : Bool) (max_n : ℕ) (s t : System A)
      → Step linger max_n s t
      → IsCounted s
      → IsCounted t
  unfolding shutdown begin_pop is_finished
  Step-IsCounted linger max_n s t (push_accepted packet rest queue wake e p) c =
      let (_, _, _, open_, _) = push-accepted packet s.queue queue wake p in
      let c' : IsCounted (record s { queue = queue }) =
        with_queue s queue (λ f. absurd (ground (arith, f, open_))) c in
      record { delivered = c'.delivered; counted = c'.counted; left = c'.left }
  Step-IsCounted linger max_n s t (push_refused packet rest e p) c = record {
    delivered = c.delivered;
    counted = c.counted;
    left = c.left;
  }
  Step-IsCounted linger max_n s t shut c = with_queue s _ (λ f. ground (arith, f)) c
  Step-IsCounted linger max_n s t (begin i e) c =
      let c' : IsCounted (record s { queue = begin_pop max_n s.queue }) =
        with_queue s _ (λ f. f) c in
      move-IsCounted i ready waiting (record s { queue = begin_pop max_n s.queue }) e
        (λ weight. refl) tt c'
  Step-IsCounted linger max_n s t (wait_again i e h) c =
      move-IsCounted i waiting lingering s e (λ weight. refl) tt c
  Step-IsCounted linger max_n s t (pop_first i e h) c =
      pop_by-IsCounted max_n i waiting s e (λ weight. refl) c
  Step-IsCounted linger max_n s t (pop_second i e) c =
      pop_by-IsCounted max_n i lingering s e (λ weight. refl) c
  Step-IsCounted linger max_n s t (analyze i batch e) c = analyze-IsCounted i batch s e c
  Step-IsCounted linger max_n s t (poll_again i e h) c =
      move-IsCounted i checking ready s e (λ weight. refl) tt c
  Step-IsCounted linger max_n s t (leave i e h) c =
      move-IsCounted i checking exited s e (λ weight. refl) h c

  Steps-IsCounted :
      (linger : Bool) (max_n : ℕ) (s t : System A)
      → Steps linger max_n s t
      → IsCounted s
      → IsCounted t
  Steps-IsCounted linger max_n s t done c = c
  Steps-IsCounted linger max_n s t (next {t = u} steps step) c =
      Step-IsCounted linger max_n u t step (Steps-IsCounted linger max_n s u steps c)

  Step-workers :
      (linger : Bool) (max_n : ℕ) (s t : System A)
      → Step linger max_n s t
      → length t.workers ≡ length s.workers
  unfolding pop_by finish_batch
  Step-workers linger max_n s t (push_accepted packet rest queue wake e p) = refl
  Step-workers linger max_n s t (push_refused packet rest e p) = refl
  Step-workers linger max_n s t shut = refl
  Step-workers linger max_n s t (begin i e) = length-set s.workers i _
  Step-workers linger max_n s t (wait_again i e h) = length-set s.workers i _
  Step-workers linger max_n s t (pop_first i e h) = length-set s.workers i _
  Step-workers linger max_n s t (pop_second i e) = length-set s.workers i _
  Step-workers linger max_n s t (analyze i batch e) = length-set s.workers i _
  Step-workers linger max_n s t (poll_again i e h) = length-set s.workers i _
  Step-workers linger max_n s t (leave i e h) = length-set s.workers i _

  Steps-workers :
      (linger : Bool) (max_n : ℕ) (s t : System A)
      → Steps linger max_n s t
      → length t.workers ≡ length s.workers
  Steps-workers linger max_n s t done = refl
  Steps-workers linger max_n s t (next {t = u} steps step) =
      Step-workers linger max_n u t step ∙ Steps-workers linger max_n s u steps

  in_hand_exited :
      (weight : A → ℕ) (workers : List (Phase A))
      → All (λ phase. phase ≡ exited) workers
      → all_in_hand weight workers ≡ 0
  in_hand_exited weight [] h = refl
  in_hand_exited weight (phase ∷ workers) h =
      omega (arith, ap (in_hand weight) h.0, in_hand_exited weight workers h.1)

  is_finished_exited :
      (queue : PacketQueue A) (workers : List (Phase A))
      → length workers ≢ 0
      → All (λ phase. phase ≡ exited) workers
      → All (LeftFinished queue) workers
      → is_finished queue ≡ true
  is_finished_exited queue [] some_ h l = absurd (some_ refl)
  is_finished_exited queue (phase ∷ workers) some_ h l = subst (LeftFinished queue) h.0 l.0

  ready-in_hand : (weight : A → ℕ) (n : ℕ) → all_in_hand weight (replicate n ready) ≡ 0
  ready-in_hand weight zero = refl
  ready-in_hand weight (suc n) = omega (arith, ready-in_hand weight n)

  start-workers :
      (num_workers : ℕ) (queue : PacketQueue A) (incoming : List A)
      → length (start num_workers queue incoming).workers ≢ 0
  unfolding start
  start-workers num_workers queue incoming e =
      ground
        (arith, length-replicate {A = Phase A} (if num_workers == 0 then 1 else num_workers) ready)

  finished_total :
      (weight : A → ℕ) (queue : PacketQueue A)
      → is_finished queue ≡ true
      → total weight queue.items ≡ 0
  unfolding is_finished
  finished_total weight queue f = sum_of_none weight queue.items (ground (arith, f))

  start-IsCounted :
      (num_workers capacity : ℕ) (incoming : List A)
      → IsCounted (start num_workers (make_queue capacity) incoming)
  unfolding start
  start-IsCounted num_workers capacity incoming = record {
    delivered =
        λ weight. omega (arith, ready-in_hand weight (if num_workers == 0 then 1 else num_workers));
    counted = omega arith;
    left = All-replicate _ _ ready tt;
  }

  -- Once every worker has left, the queue is shut down and empty, every packet that `push` accepted has
  -- been analysed exactly once, and the pool's count of processed packets is their number modulo
  -- 2 ^ 64. This holds for any number of workers, capacity, batch size and interleaving. That
  -- each packet is analysed once is said by weights: for every weight of packets, its sum over the
  -- accepted ones is its sum over all batches analysed.
  pub drained :
      (linger : Bool) (max_n num_workers capacity : ℕ) (incoming : List A) (s : System A)
      → Steps linger max_n (start num_workers (make_queue capacity) incoming) s
      → All (λ phase. phase ≡ exited) s.workers
      → (is_finished s.queue ≡ true)
        × ((weight : A → ℕ) → total weight s.taken_in ≡ total_batches weight s.analyzed)
        × (s.processed ≡ length s.taken_in % 2 ^ 64)
  drained linger max_n num_workers capacity incoming s steps gone =
      let c =
        Steps-IsCounted linger max_n _ s steps (start-IsCounted num_workers capacity incoming) in
      let finished : is_finished s.queue ≡ true =
        is_finished_exited s.queue s.workers
          (λ e.
            start-workers num_workers (make_queue {A = A} capacity) incoming
              (sym (Steps-workers linger max_n _ s steps) ∙ e))
          gone c.left in
      let (order, _) = Steps-fifo linger max_n num_workers capacity incoming s steps in
      let each : (weight : A → ℕ) → total weight s.taken_in ≡ total_batches weight s.analyzed =
        λ weight. omega (
          arith,
          c.delivered weight,
          in_hand_exited weight s.workers gone,
          ap (total weight) order,
          sum_of-append weight s.popped s.queue.items,
          finished_total weight s.queue finished,
        ) in
      (finished, each, omega (arith, c.counted, each (λ packet. 1), total-length s.taken_in))
