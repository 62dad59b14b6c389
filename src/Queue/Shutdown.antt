-- ===== src/Queue/Shutdown.antt =====
-- What is left to do after the queue is shut down.
use net_sentinel.Base.{
  ℕ, suc, set, if◌then◌else◌, ◌+◌, ◌-◌, ◌*◌, ◌≤◌, ◌<◌, ◌≡◌, ◌≢◌, ◌⊎◌, refl, ap, ◌∙◌, Bool, true,
  false, ◌==◌, min, List, [], ◌∷◌, some, length, get_elem?, take, drop, arith, length-take,
  length-drop, Bool-cases, inl, inr, sum_of, sum_of-set,
}
use net_sentinel.Queue.{PacketQueue, begin_pop, should_linger, take_batch, shutdown, is_finished}
use net_sentinel.Queue.Pool.{
  Phase, ready, waiting, lingering, holding, checking, exited, System, after_pop, pop_by,
  finish_batch, Step, Steps, done, next, push_accepted, push_refused, shut, begin, wait_again,
  pop_first, pop_second, analyze, poll_again, leave,
}
use net_sentinel.Queue.Delivery.{push-accepted}

module _ {A : Type 0} where
  -- How far a worker is from leaving, when nothing, or something, is in the queue.
  abbrev rank : Bool → Phase A → ℕ
  rank empty ready = 4
  rank empty waiting = 3
  rank empty lingering = 2
  rank empty (holding batch) = 5
  rank true checking = 1
  rank false checking = 5
  rank empty exited = 0

  abbrev pub is_empty : PacketQueue A → Bool
  is_empty queue = length queue.items == 0

  -- What is left to do after the shutdown.
  abbrev pub work_left : System A → ℕ
  work_left s =
      4 * length s.queue.items + sum_of (rank (is_empty s.queue)) s.workers + length s.incoming

  ranks_mono :
      (before after : Bool) (workers : List (Phase A))
      → (before ≡ true → after ≡ true)
      → sum_of (rank after) workers ≤ sum_of (rank before) workers
  ranks_mono before after [] f = omega arith
  ranks_mono before after (phase ∷ workers) f =
      omega (arith, one phase before after f, ranks_mono before after workers f)
    where
      one :
          (phase : Phase A) (before after : Bool)
          → (before ≡ true → after ≡ true)
          → rank after phase ≤ rank before phase
      one ready before after f = omega arith
      one waiting before after f = omega arith
      one lingering before after f = omega arith
      one (holding batch) before after f = omega arith
      one checking true true f = omega arith
      one checking true false f = absurd (ground (arith, f refl))
      one checking false true f = omega arith
      one checking false false f = omega arith
      one exited before after f = omega arith

  rank-waits :
      (empty : Bool) (phase : Phase A)
      → (phase ≡ waiting) ⊎ (phase ≡ lingering)
      → 2 ≤ rank empty phase
  rank-waits empty phase (inl e) = omega (arith, ap (rank empty) e)
  rank-waits empty phase (inr e) = omega (arith, ap (rank empty) e)

  rank-after_pop_none : (batch : List A) → length batch ≡ 0 → rank true (after_pop batch) ≡ 1
  rank-after_pop_none [] e = refl
  rank-after_pop_none (packet ∷ batch) e = absurd (omega arith)

  rank-after_pop_some :
      (empty : Bool) (batch : List A) → length batch ≢ 0 → rank empty (after_pop batch) ≡ 5
  rank-after_pop_some empty [] n = absurd (n refl)
  rank-after_pop_some empty (packet ∷ batch) n = refl

  pop-work_left :
      (max_n i : ℕ) (before : Phase A) (s : System A)
      → 0 < max_n
      → get_elem? s.workers i ≡ some before
      → (before ≡ waiting) ⊎ (before ≡ lingering)
      → work_left (pop_by max_n i s) < work_left s
  unfolding pop_by take_batch
  pop-work_left max_n i before s pos e which =
      let size = length s.queue.items in
      let batch = take (min max_n size) s.queue.items in
      let rest : PacketQueue A = record s.queue { items = drop (min max_n size) s.queue.items } in
      let taken : length batch ≡ min (min max_n size) size =
        length-take (min max_n size) s.queue.items in
      let left : length rest.items ≡ size - min max_n size =
        length-drop (min max_n size) s.queue.items in
      let swap = sum_of-set (rank (is_empty rest)) s.workers i before (after_pop batch) e in
      let mono =
        ranks_mono (is_empty s.queue) (is_empty rest) s.workers (λ f. ground (arith, f, left)) in
      let waits = rank-waits (is_empty rest) before which in
      elim (Bool-cases (is_empty s.queue)) [
        | inl empty ↦
            let now_empty : is_empty rest ≡ true = ground (arith, empty, left) in
            let gone : rank (is_empty rest) (after_pop batch) ≡ 1 =
              ap (λ b. rank b (after_pop batch)) now_empty
              ∙ rank-after_pop_none batch (ground (arith, empty, taken)) in
            omega (arith, swap, mono, waits, gone, left)
        | inr full ↦
            let held : rank (is_empty rest) (after_pop batch) ≡ 5 =
              rank-after_pop_some (is_empty rest) batch (ground (arith, full, taken)) in
            let fewer : length rest.items < size = ground (arith, full, left) in
            omega (arith, swap, mono, waits, held, fewer)
      ]

  abbrev is_shut : (linger : Bool) (max_n : ℕ) (s t : System A) → Step linger max_n s t → Bool
  is_shut linger max_n s t shut = true
  is_shut linger max_n s t _ = false

  Step-falls :
      (linger : Bool) (max_n : ℕ) (s t : System A) (step : Step linger max_n s t)
      → 0 < max_n
      → s.queue.is_shutdown ≡ true
      → is_shut linger max_n s t step ≡ false
      → work_left t < work_left s
  unfolding shutdown begin_pop is_finished finish_batch
  Step-falls linger max_n s t (push_accepted packet rest queue wake e p) pos down own =
      let (_, _, _, open_, _) = push-accepted packet s.queue queue wake p in absurd (ground arith)
  Step-falls linger max_n s t (push_refused packet rest e p) pos down own =
      (omega (arith, ap length e))
  Step-falls linger max_n s t shut pos down own = absurd (cc)
  Step-falls linger max_n s t (begin i e) pos down own =
      (omega (arith, sum_of-set (rank (is_empty s.queue)) s.workers i ready waiting e))
  Step-falls linger max_n s t (wait_again i e h) pos down own =
      (omega (arith, sum_of-set (rank (is_empty s.queue)) s.workers i waiting lingering e))
  Step-falls linger max_n s t (pop_first i e h) pos down own =
      (pop-work_left max_n i waiting s pos e (inl refl))
  Step-falls linger max_n s t (pop_second i e) pos down own =
      (pop-work_left max_n i lingering s pos e (inr refl))
  Step-falls linger max_n s t (analyze i batch e) pos down own =
      (omega (arith, sum_of-set (rank (is_empty s.queue)) s.workers i (holding batch) ready e))
  Step-falls linger max_n s t (poll_again i e h) pos down own =
      let full : is_empty s.queue ≡ false = ground (arith, h, down) in
      (omega (
        arith,
        sum_of-set (rank (is_empty s.queue)) s.workers i checking ready e,
        ap (λ b. rank b checking) full,
      ))
  Step-falls linger max_n s t (leave i e h) pos down own =
      let empty : is_empty s.queue ≡ true = ground (arith, h) in
      (omega (
        arith,
        sum_of-set (rank (is_empty s.queue)) s.workers i checking exited e,
        ap (λ b. rank b checking) empty,
      ))

  shut-same :
      (linger : Bool) (max_n : ℕ) (s t : System A) (step : Step linger max_n s t)
      → s.queue.is_shutdown ≡ true
      → is_shut linger max_n s t step ≡ true
      → t ≡ s
  unfolding shutdown
  shut-same linger max_n s t shut down own = ground arith
  shut-same linger max_n s t _ down own = absurd (cc)

  -- A queue that is shut down stays so.
  stays_down :
      (linger : Bool) (max_n : ℕ) (s t : System A)
      → Step linger max_n s t
      → s.queue.is_shutdown ≡ true
      → t.queue.is_shutdown ≡ true
  unfolding shutdown begin_pop take_batch pop_by finish_batch
  stays_down linger max_n s t (push_accepted packet rest queue wake e p) down =
      let (_, _, _, open_, _) = push-accepted packet s.queue queue wake p in absurd (ground arith)
  stays_down linger max_n s t (push_refused packet rest e p) down = down
  stays_down linger max_n s t shut down = refl
  stays_down linger max_n s t (begin i e) down = down
  stays_down linger max_n s t (wait_again i e h) down = down
  stays_down linger max_n s t (pop_first i e h) down = down
  stays_down linger max_n s t (pop_second i e) down = down
  stays_down linger max_n s t (analyze i batch e) down = down
  stays_down linger max_n s t (poll_again i e h) down = down
  stays_down linger max_n s t (leave i e h) down = down

  -- How many of the steps are not calls of `shutdown`.
  unfoldable pub count_steps :
      (linger : Bool) (max_n : ℕ) (s t : System A) → Steps linger max_n s t → ℕ
  count_steps linger max_n s t done = 0
  count_steps linger max_n s u (next {t} steps step) =
      let before = count_steps linger max_n s t steps in
      if is_shut linger max_n t u step then before else suc before

  step_counted :
      (linger : Bool) (max_n : ℕ) (t u : System A) (step : Step linger max_n t u) (before all : ℕ)
      → 0 < max_n
      → t.queue.is_shutdown ≡ true
      → before + work_left t ≤ all
      → (if is_shut linger max_n t u step then before else suc before) + work_left u ≤ all
  step_counted linger max_n t u step before all pos down h =
      elim (Bool-cases (is_shut linger max_n t u step)) [
        | inl own ↦
            rw own
              (omega (arith, h, ap (λ v. work_left v) (shut-same linger max_n t u step down own)))
        | inr own ↦ rw own (omega (arith, h, Step-falls linger max_n t u step pos down own))
      ]

  -- After the shutdown, any steps of the workers and of the capture thread, in any order, other than
  -- further calls of `shutdown`, number at most what `work_left` falls by: from a state that is shut down
  -- at most `work_left` of them can follow, and the queue stays shut down. Batches are of at least
  -- one packet.
  pub Steps-work_left :
      (linger : Bool) (max_n : ℕ) (s t : System A)
      → 0 < max_n
      → s.queue.is_shutdown ≡ true
      → (steps : Steps linger max_n s t)
      → (t.queue.is_shutdown ≡ true)
        × (count_steps linger max_n s t steps + work_left t ≤ work_left s)
  unfolding count_steps
  Steps-work_left linger max_n s t pos down done = (down, omega arith)
  Steps-work_left linger max_n s u pos down (next {t} steps step) =
      let (still, h) = Steps-work_left linger max_n s t pos down steps in
      (
        stays_down linger max_n t u step still,
        step_counted linger max_n t u step (count_steps linger max_n s t steps) (work_left s) pos
            still h,
      )

  -- A step that worker `i` takes itself: it changes its phase, and no other worker's.
  abbrev OwnStep : (linger : Bool) (max_n i : ℕ) (s : System A) (phase : Phase A) → Type 0
  OwnStep linger max_n i s phase =
      (t : System A) × ((next_phase : Phase A) × ((step : Step linger max_n s t) × ((is_shut linger
                max_n s t step
              ≡ false)
            × ((t.workers ≡ set s.workers i next_phase) × (next_phase ≢ phase)))))

  after_pop-moves :
      (batch : List A) (phase : Phase A)
      → (phase ≡ waiting) ⊎ (phase ≡ lingering)
      → after_pop batch ≢ phase
  after_pop-moves [] phase (inl e) f = cc
  after_pop-moves [] phase (inr e) f = cc
  after_pop-moves (packet ∷ batch) phase (inl e) f = cc
  after_pop-moves (packet ∷ batch) phase (inr e) f = cc

  pops :
      (max_n i : ℕ) (s : System A)
      → (pop_by max_n i s).workers ≡ set s.workers i (after_pop (take_batch max_n s.queue).0)
  unfolding pop_by
  pops max_n i s = refl

  -- Some step of a worker that has not left.
  can_move :
      (linger : Bool) (max_n i : ℕ) (s : System A) (phase : Phase A)
      → get_elem? s.workers i ≡ some phase
      → phase ≢ exited
      → OwnStep linger max_n i s phase
  unfolding finish_batch
  can_move linger max_n i s ready e alive = (_, (waiting, (begin i e, (refl, (refl, λ f. cc)))))
  can_move linger max_n i s waiting e alive =
      elim (Bool-cases (should_linger linger max_n s.queue)) [
        | inl h ↦ (_, (lingering, (wait_again i e h, (refl, (refl, λ f. cc)))))
        | inr h ↦ (
          pop_by max_n i s,
          (
            after_pop (take_batch max_n s.queue).0,
            (
              pop_first i e h,
              (
                refl,
                (pops max_n i s, after_pop-moves (take_batch max_n s.queue).0 waiting (inl refl)),
              ),
            ),
          ),
        )
      ]
  can_move linger max_n i s lingering e alive = (
    pop_by max_n i s,
    (
      after_pop (take_batch max_n s.queue).0,
      (
        pop_second i e,
        (refl, (pops max_n i s, after_pop-moves (take_batch max_n s.queue).0 lingering (inr refl))),
      ),
    ),
  )
  can_move linger max_n i s (holding batch) e alive =
      (_, (ready, (analyze i batch e, (refl, (refl, λ f. cc)))))
  can_move linger max_n i s checking e alive = elim (Bool-cases (is_finished s.queue)) [
    | inl h ↦ (_, (exited, (leave i e h, (refl, (refl, λ f. cc)))))
    | inr h ↦ (_, (ready, (poll_again i e h, (refl, (refl, λ f. cc)))))
  ]
  can_move linger max_n i s exited e alive = absurd (alive refl)

  -- After the shutdown, a worker that has not left can take a step itself, whatever the others do: the
  -- step changes the worker's phase and no other worker's, and lowers `work_left`. So no worker waits for
  -- another thread. Batches are of at least one packet.
  pub shutdown-progress :
      (linger : Bool) (max_n i : ℕ) (s : System A) (phase : Phase A)
      → 0 < max_n
      → s.queue.is_shutdown ≡ true
      → get_elem? s.workers i ≡ some phase
      → phase ≢ exited
      → (t : System A) × ((next_phase : Phase A) × (Step linger max_n s t
            × ((t.workers ≡ set s.workers i next_phase)
                × ((next_phase ≢ phase) × (work_left t < work_left s)))))
  shutdown-progress linger max_n i s phase pos down e alive =
      let (t, (next_phase, (step, (own, (moved, changed))))) =
        can_move linger max_n i s phase e alive in
      (t, (next_phase, (step, (moved, (changed, Step-falls linger max_n s t step pos down own)))))
