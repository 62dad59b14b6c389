-- ===== src/Bench/Rules/Invariant.antt =====
-- What the threads have of the vector, at any time.
use native.Mathlib.Nat.{mul-le-mul_right}
use net_sentinel.Base.{
  ℕ, zero, suc, ◌+◌, ◌-◌, ◌*◌, ◌≡◌, ◌≢◌, ◌<◌, ◌≤◌, sym, ap, ◌∙◌, arith, min, true, ◌==◌,
  if◌then◌else◌, List, [], ◌∷◌, some, get_elem?, set, All, sum_of, sum_of-set, Bool-cases, inl, inr,
}
use net_sentinel.Packet.{QueuedPacket}
use net_sentinel.Bench.Rules.{
  Phase, taking, holding, swapped, analyzed, stopped, Run, batch_count, begin_of, end_of, in_batch,
  packets_from, batch_of,
}
use net_sentinel.Bench.Rules.Vectors.{
  batches_apart, weight_below, weight_below-packets_from, packets_from-same,
}

module _ (size batch_size : ℕ) (pos : 0 < batch_size) (packets : ℕ → QueuedPacket) where
  -- Whether a thread has a batch, and whether it has swapped out the packet at an index.
  abbrev pub has : ℕ → Phase → ℕ
  has b taking = 0
  has b (holding c) = if c == b then 1 else 0
  has b (swapped c batch) = if c == b then 1 else 0
  has b (analyzed c batch) = if c == b then 1 else 0
  has b stopped = 0

  abbrev pub covers : ℕ → Phase → ℕ
  covers k (swapped c batch) = if in_batch size batch_size c k then 1 else 0
  covers k (analyzed c batch) = if in_batch size batch_size c k then 1 else 0
  covers k _ = 0

  -- The packets that a thread is yet to run the rule on.
  abbrev pub pending : (QueuedPacket → ℕ) → Phase → ℕ
  pending weight (holding b) = sum_of weight (batch_of size batch_size packets b)
  pending weight (swapped b batch) = sum_of weight batch
  pending weight _ = 0

  abbrev pub Honest : Phase → Type 0
  Honest (holding b) = b < batch_count size batch_size
  Honest (swapped b batch) =
      (batch ≡ batch_of size batch_size packets b) × (b < batch_count size batch_size)
  Honest (analyzed b batch) =
      (batch ≡ batch_of size batch_size packets b) × (b < batch_count size batch_size)
  Honest _ = Unit

  abbrev pub has_stopped : Phase → ℕ
  has_stopped stopped = 1
  has_stopped _ = 0

  -- The packet at an index, if so many threads have swapped it out.
  abbrev pub held : (count : ℕ) → QueuedPacket → QueuedPacket
  held zero packet = packet
  held (suc count) packet = record packet { payload = [] }

  pub record IsRun (s : Run) : Type 0 where
    pub memory : (k : ℕ) → s.packets k ≡ held (sum_of (covers k) s.threads) (packets k)
    pub own : (b : ℕ) → sum_of (has b) s.threads ≤ 1
    pub fresh : (b : ℕ) → s.next_batch ≤ b → sum_of (has b) s.threads ≡ 0
    pub honest : All Honest s.threads
    pub empty : (i : ℕ) → All (λ (payload : List ℕ). payload ≡ []) (s.buffers i)
    pub ends : sum_of has_stopped s.threads ≢ 0 → batch_count size batch_size ≤ s.next_batch
    pub shared :
        (weight : QueuedPacket → ℕ)
        → sum_of (sum_of weight) s.processed + sum_of (pending weight) s.threads
          ≡ weight_below weight packets (min (s.next_batch * batch_size) size)

  -- A batch that a thread has keeps the others from its packets.
  pub covers-has :
      (b k : ℕ) (threads : List Phase)
      → in_batch size batch_size b k ≡ true
      → sum_of (covers k) threads ≤ sum_of (has b) threads
  covers-has b k [] h = omega arith
  covers-has b k (phase ∷ threads) h = omega (arith, covers-has b k threads h, one phase)
    where
      same : (c : ℕ) → in_batch size batch_size c k ≡ true → c ≡ b
      same c e =
          batches_apart batch_size c b k (ground (arith, e)) (ground (arith, e)) (ground (arith, h))
            (ground (arith, h))

      one : (phase : Phase) → covers k phase ≤ has b phase
      one taking = omega arith
      one (holding c) = omega arith
      one stopped = omega arith
      one (swapped c batch) = elim (Bool-cases (in_batch size batch_size c k)) [
        | inl e ↦ ground (arith, same c e)
        | inr e ↦ rw e (omega arith)
      ]
      one (analyzed c batch) = elim (Bool-cases (in_batch size batch_size c k)) [
        | inl e ↦ ground (arith, same c e)
        | inr e ↦ rw e (omega arith)
      ]

  -- The indices of a batch are those of the vector that it was cut from.
  pub weight_below-batch :
      (weight : QueuedPacket → ℕ) (b : ℕ)
      → b < batch_count size batch_size
      → weight_below weight packets (min ((b + 1) * batch_size) size)
        ≡ weight_below weight packets (min (b * batch_size) size)
          + sum_of weight (batch_of size batch_size packets b)
  unfolding batch_of batch_count
  weight_below-batch weight b h =
      let starts : b * batch_size < size = omega (arith, pos, mul-le-mul_right batch_size h) in
      let last : min ((b + 1) * batch_size) size
          ≡ b * batch_size + (end_of size batch_size b - b * batch_size) =
        omega (arith, starts) in
      let first : min (b * batch_size) size ≡ b * batch_size = omega (arith, starts) in
      ap (weight_below weight packets) last
      ∙ (weight_below-packets_from weight packets size batch_size (b * batch_size)
            (end_of size batch_size b - b * batch_size)
          ∙ ap
              (λ (n : ℕ).
                weight_below weight packets n
                + sum_of weight (
                    packets_from size batch_size packets (b * batch_size)
                      (end_of size batch_size b - b * batch_size)))
              (sym first))

  pub past_batches : (b : ℕ) → batch_count size batch_size ≤ b → size ≤ b * batch_size
  unfolding batch_count
  past_batches b h = omega (arith, pos, mul-le-mul_right batch_size h)

  -- What a step of thread `i` leaves of a sum over the threads.
  module _ (s : Run) (r : IsRun s) (i : ℕ) (before : Phase)
      (e : get_elem? s.threads i ≡ some before) where
    pub same_memory :
        (after : Phase)
        → ((k : ℕ) → covers k after ≡ covers k before)
        → (k : ℕ) → s.packets k ≡ held (sum_of (covers k) (set s.threads i after)) (packets k)
    same_memory after same k =
        r.memory k
        ∙ ap (λ (n : ℕ). held n (packets k))
            (omega (arith, same k, sum_of-set (covers k) s.threads i before after e))

    pub fewer :
        (after : Phase) (b : ℕ)
        → has b after ≤ has b before
        → sum_of (has b) (set s.threads i after) ≤ sum_of (has b) s.threads
    fewer after b less = omega (arith, less, sum_of-set (has b) s.threads i before after e)

    pub still_ends :
        (after : Phase)
        → has_stopped after ≡ has_stopped before
        → sum_of has_stopped (set s.threads i after) ≢ 0
        → batch_count size batch_size ≤ s.next_batch
    still_ends after same n =
        r.ends (λ z. n (omega (arith, z, same, sum_of-set has_stopped s.threads i before after e)))

    -- Nobody else has swapped out the packets of the thread's batch.
    pub alone :
        (b k : ℕ)
        → has b before ≡ 1
        → in_batch size batch_size b k ≡ true
        → sum_of (covers k) s.threads ≡ covers k before
    alone b k one h = omega (
      arith,
      one,
      r.own b,
      covers-has b k (set s.threads i taking) h,
      sum_of-set (has b) s.threads i before taking e,
      sum_of-set (covers k) s.threads i before taking e,
    )

    pub in_place :
        (b : ℕ)
        → has b before ≡ 1
        → ((k : ℕ) → covers k before ≡ 0)
        → batch_of size batch_size s.packets b ≡ batch_of size batch_size packets b
    unfolding batch_of
    in_place b one none_ =
        packets_from-same size batch_size s.packets packets (begin_of size batch_size b) _ (λ k l u.
          r.memory k
          ∙ ap (λ (n : ℕ). held n (packets k)) (alone b k one (ground (arith, l, u)) ∙ none_ k))
