-- ===== src/Bench/Rules/Kept.antt =====
-- The invariant, step by step.
use net_sentinel.Base.{
  ℕ, All, ◌==◌, ◌+◌, ◌-◌, ◌*◌, ◌≡◌, ◌<◌, ◌≤◌, refl, sym, ap, ◌∙◌, arith, min, true, List, [], ◌∷◌,
  ◌++◌, some, get_elem?, set, All-set, All-get_elem?, sum_of, sum_of-set, sum_of-append, Bool-cases,
  inl, inr,
}
use net_sentinel.Packet.{QueuedPacket}
use net_sentinel.Bench.Rules.{
  taking, holding, swapped, analyzed, stopped, Run, batch_count, end_of, in_batch, batch_of,
  swap_out, swap_back, move, keep_buffer, payloads_of,
}
use net_sentinel.Bench.Rules.Vectors.{
  weight_below, get_elem?-packets_from, packets_from_empty, resized_empty,
}
use net_sentinel.Bench.Rules.Invariant.{
  has, covers, pending, Honest, held, IsRun, weight_below-batch, past_batches, same_memory, fewer,
  still_ends, alone, in_place,
}

module _ (size batch_size : ℕ) (pos : 0 < batch_size) (packets : ℕ → QueuedPacket) where
  pub Step-take :
      (s : Run) (i : ℕ)
      → IsRun size batch_size pos packets s
      → get_elem? s.threads i ≡ some taking
      → s.next_batch < batch_count size batch_size
      → IsRun size batch_size pos packets
          (record (move size batch_size i (holding s.next_batch) s) {
            next_batch = s.next_batch + 1;
          })
  Step-take s i r e lt =
      let after = holding s.next_batch in
      record {
        memory = same_memory size batch_size pos packets s r i taking e after (λ k. refl);
        own = λ b. ground (
          arith,
          r.own b,
          r.fresh b,
          sum_of-set (has size batch_size pos packets b) s.threads i taking after e,
        );
        fresh = λ b l. ground (
          arith,
          l,
          r.fresh b,
          sum_of-set (has size batch_size pos packets b) s.threads i taking after e,
        );
        honest = All-set (Honest size batch_size pos packets) s.threads i after r.honest lt;
        empty = r.empty;
        ends =
            λ n. omega (arith, still_ends size batch_size pos packets s r i taking e after refl n);
        shared = λ weight. omega (
          arith,
          r.shared weight,
          weight_below-batch size batch_size pos packets weight s.next_batch lt,
          sum_of-set (pending size batch_size pos packets weight) s.threads i taking after e,
        );
      }

  pub Step-stop :
      (s : Run) (i : ℕ)
      → IsRun size batch_size pos packets s
      → get_elem? s.threads i ≡ some taking
      → batch_count size batch_size ≤ s.next_batch
      → IsRun size batch_size pos packets
          (record (move size batch_size i stopped s) { next_batch = s.next_batch + 1 })
  Step-stop s i r e le =
      let past = past_batches size batch_size pos packets s.next_batch le in
      record {
        memory = same_memory size batch_size pos packets s r i taking e stopped (λ k. refl);
        own = λ b. omega (
          arith,
          r.own b,
          fewer size batch_size pos packets s r i taking e stopped b (omega arith),
        );
        fresh = λ b l. omega (
          arith,
          r.fresh b (omega (arith, l)),
          fewer size batch_size pos packets s r i taking e stopped b (omega arith),
        );
        honest = All-set (Honest size batch_size pos packets) s.threads i stopped r.honest tt;
        empty = r.empty;
        ends = λ n. omega (arith, le);
        shared = λ weight.
            let same : min ((s.next_batch + 1) * batch_size) size
                ≡ min (s.next_batch * batch_size) size =
              omega (arith, past) in
            omega (
              arith,
              r.shared weight,
              ap (weight_below weight packets) same,
              sum_of-set (pending size batch_size pos packets weight) s.threads i taking stopped e,
            );
      }

  pub Step-in_place :
      (s : Run) (i b : ℕ)
      → IsRun size batch_size pos packets s
      → get_elem? s.threads i ≡ some (holding b)
      → IsRun size batch_size pos packets (record (move size batch_size i taking s) {
        processed = s.processed ++ batch_of size batch_size s.packets b ∷ [];
      })
  Step-in_place s i b r e =
      let before = holding b in
      let given =
        in_place size batch_size pos packets s r i before e b (ground arith) (λ k. refl) in
      record {
        memory = same_memory size batch_size pos packets s r i before e taking (λ k. refl);
        own = λ c. omega (
          arith,
          r.own c,
          fewer size batch_size pos packets s r i before e taking c (omega arith),
        );
        fresh = λ c l. omega (
          arith,
          r.fresh c l,
          fewer size batch_size pos packets s r i before e taking c (omega arith),
        );
        honest = All-set (Honest size batch_size pos packets) s.threads i taking r.honest tt;
        empty = r.empty;
        ends = still_ends size batch_size pos packets s r i before e taking refl;
        shared = λ weight. omega (
          arith,
          r.shared weight,
          ap (sum_of weight) given,
          sum_of-append (sum_of weight) s.processed (batch_of size batch_size s.packets b ∷ []),
          sum_of-set (pending size batch_size pos packets weight) s.threads i before taking e,
        );
      }

  swapped_memory :
      (s : Run) (r : IsRun size batch_size pos packets s) (i b k : ℕ)
      → get_elem? s.threads i ≡ some (holding b)
      → swap_out size batch_size s.packets b (s.buffers i) k
        ≡ held size batch_size pos packets
            (sum_of
              (covers size batch_size pos packets k)
              (set s.threads i (swapped b (batch_of size batch_size s.packets b))))
            (packets k)
  unfolding swap_out
  swapped_memory s r i b k e =
      let after = swapped b (batch_of size batch_size s.packets b) in
      let moved =
        sum_of-set (covers size batch_size pos packets k) s.threads i (holding b) after e in
      elim (Bool-cases (in_batch size batch_size b k)) [
        | inl h ↦
            let none_ =
              alone size batch_size pos packets s r i (holding b) e b k (ground arith) h in
            let was : s.packets k ≡ packets k =
              r.memory k ∙ ap (λ (n : ℕ). held size batch_size pos packets n (packets k)) none_ in
            let now : sum_of (covers size batch_size pos packets k) (set s.threads i after) ≡ 1 =
              ground (arith, moved, none_, h) in
            rw h (
              ap (λ (payload : List ℕ). record (s.packets k) { payload = payload })
                (resized_empty size batch_size (s.buffers i) (k - b * batch_size) (r.empty i))
              ∙ ap (λ (q : QueuedPacket). record q { payload = [] }) was
              ∙ ap (λ (n : ℕ). held size batch_size pos packets n (packets k)) (sym now))
        | inr h ↦
            let now : sum_of (covers size batch_size pos packets k) (set s.threads i after)
                ≡ sum_of (covers size batch_size pos packets k) s.threads =
              ground (arith, moved, h) in
            rw h (
              r.memory k ∙ ap (λ (n : ℕ). held size batch_size pos packets n (packets k)) (sym now))
      ]

  pub Step-swap :
      (s : Run) (i b : ℕ)
      → IsRun size batch_size pos packets s
      → get_elem? s.threads i ≡ some (holding b)
      → IsRun size batch_size pos packets
          (record (move size batch_size i (swapped b (batch_of size batch_size s.packets b)) s) {
            packets = swap_out size batch_size s.packets b (s.buffers i);
          })
  Step-swap s i b r e =
      let before = holding b in
      let after = swapped b (batch_of size batch_size s.packets b) in
      let given =
        in_place size batch_size pos packets s r i before e b (ground arith) (λ k. refl) in
      record {
        memory = λ k. swapped_memory s r i b k e;
        own = λ c. omega (
          arith,
          r.own c,
          fewer size batch_size pos packets s r i before e after c (omega arith),
        );
        fresh = λ c l. omega (
          arith,
          r.fresh c l,
          fewer size batch_size pos packets s r i before e after c (omega arith),
        );
        honest = All-set (Honest size batch_size pos packets) s.threads i after r.honest (
          given,
          All-get_elem? (Honest size batch_size pos packets) s.threads i before r.honest e,
        );
        empty = r.empty;
        ends = still_ends size batch_size pos packets s r i before e after refl;
        shared = λ weight. omega (
          arith,
          r.shared weight,
          ap (sum_of weight) given,
          sum_of-set (pending size batch_size pos packets weight) s.threads i before after e,
        );
      }

  pub Step-analyze :
      (s : Run) (i b : ℕ) (batch : List QueuedPacket)
      → IsRun size batch_size pos packets s
      → get_elem? s.threads i ≡ some (swapped b batch)
      → IsRun size batch_size pos packets (record (move size batch_size i (analyzed b batch) s) {
        processed = s.processed ++ batch ∷ [];
      })
  Step-analyze s i b batch r e =
      let before = swapped b batch in
      let after = analyzed b batch in
      record {
        memory = same_memory size batch_size pos packets s r i before e after (λ k. refl);
        own = λ c. omega (
          arith,
          r.own c,
          fewer size batch_size pos packets s r i before e after c (omega arith),
        );
        fresh = λ c l. omega (
          arith,
          r.fresh c l,
          fewer size batch_size pos packets s r i before e after c (omega arith),
        );
        honest =
            All-set (Honest size batch_size pos packets) s.threads i after r.honest
              (All-get_elem? (Honest size batch_size pos packets) s.threads i before r.honest e);
        empty = r.empty;
        ends = still_ends size batch_size pos packets s r i before e after refl;
        shared = λ weight. omega (
          arith,
          r.shared weight,
          sum_of-append (sum_of weight) s.processed (batch ∷ []),
          sum_of-set (pending size batch_size pos packets weight) s.threads i before after e,
        );
      }

  -- A batch that was swapped out holds the packet's payload where it is looked for.
  own_packet :
      (s : Run) (r : IsRun size batch_size pos packets s) (i b k : ℕ) (batch : List QueuedPacket)
      → get_elem? s.threads i ≡ some (analyzed b batch)
      → in_batch size batch_size b k ≡ true
      → get_elem? batch (k - b * batch_size) ≡ some (packets k)
  unfolding batch_of
  own_packet s r i b k batch e h =
      let first = b * batch_size in
      let (same, _) =
        All-get_elem? (Honest size batch_size pos packets) s.threads i (analyzed b batch) r.honest
          e in
      let back : first + (k - first) ≡ k = ground (arith, h) in
      ap (λ (l : List QueuedPacket). get_elem? l (k - first)) same
      ∙ get_elem?-packets_from size batch_size packets first (end_of size batch_size b - first)
          (k - first) (ground (arith, h))
      ∙ ap (λ (j : ℕ). some (packets j)) back

  -- What the vector holds while a batch is swapped out.
  swapped_away :
      (s : Run) (r : IsRun size batch_size pos packets s) (i b k : ℕ) (batch : List QueuedPacket)
      → get_elem? s.threads i ≡ some (analyzed b batch)
      → in_batch size batch_size b k ≡ true
      → s.packets k ≡ record (packets k) { payload = [] }
  swapped_away s r i b k batch e h =
      let one : sum_of (covers size batch_size pos packets k) s.threads ≡ 1 = ground (
        arith,
        alone size batch_size pos packets s r i (analyzed b batch) e b k (ground arith) h,
        h,
      ) in
      r.memory k ∙ ap (λ (n : ℕ). held size batch_size pos packets n (packets k)) one

  -- The thread's `batch` is left without payloads.
  keeps_empty :
      (s : Run) (r : IsRun size batch_size pos packets s) (i b : ℕ) (batch : List QueuedPacket)
      → get_elem? s.threads i ≡ some (analyzed b batch)
      → (j : ℕ)
      → All
          (λ (payload : List ℕ). payload ≡ [])
          (keep_buffer size batch_size i (payloads_of size batch_size s.packets b) s.buffers j)
  unfolding keep_buffer payloads_of batch_of
  keeps_empty s r i b batch e j = elim (Bool-cases (j == i)) [
    | inr other ↦ rw other (r.empty j)
    | inl own ↦ rw own (
        packets_from_empty size batch_size s.packets (b * batch_size)
          (end_of size batch_size b - b * batch_size)
          (λ k l u.
            ap (λ (q : QueuedPacket). q.payload)
              (swapped_away s r i b k batch e (ground (arith, l, u)))))
  ]

  restored_memory :
      (s : Run) (r : IsRun size batch_size pos packets s) (i b k : ℕ) (batch : List QueuedPacket)
      → get_elem? s.threads i ≡ some (analyzed b batch)
      → swap_back size batch_size s.packets b batch k
        ≡ held size batch_size pos packets
            (sum_of (covers size batch_size pos packets k) (set s.threads i taking))
            (packets k)
  unfolding swap_back
  restored_memory s r i b k batch e =
      let before = analyzed b batch in
      let moved = sum_of-set (covers size batch_size pos packets k) s.threads i before taking e in
      elim (Bool-cases (in_batch size batch_size b k)) [
        | inl h ↦
            let one : sum_of (covers size batch_size pos packets k) s.threads ≡ 1 =
              ground
                (arith, alone size batch_size pos packets s r i before e b k (ground arith) h, h) in
            let was = swapped_away s r i b k batch e h in
            let now : sum_of (covers size batch_size pos packets k) (set s.threads i taking) ≡ 0 =
              ground (arith, moved, one, h) in
            let found = own_packet s r i b k batch e h in
            rw h (
              rw (found, swap_back)
                (ap (λ (q : QueuedPacket). record q { payload = (packets k).payload }) was
                  ∙ ap (λ (n : ℕ). held size batch_size pos packets n (packets k)) (sym now)))
        | inr h ↦
            let now : sum_of (covers size batch_size pos packets k) (set s.threads i taking)
                ≡ sum_of (covers size batch_size pos packets k) s.threads =
              ground (arith, moved, h) in
            rw h (
              r.memory k ∙ ap (λ (n : ℕ). held size batch_size pos packets n (packets k)) (sym now))
      ]

  pub Step-restore :
      (s : Run) (i b : ℕ) (batch : List QueuedPacket)
      → IsRun size batch_size pos packets s
      → get_elem? s.threads i ≡ some (analyzed b batch)
      → IsRun size batch_size pos packets (record (move size batch_size i taking s) {
        packets = swap_back size batch_size s.packets b batch;
        buffers = keep_buffer size batch_size i (payloads_of size batch_size s.packets b) s.buffers;
      })
  Step-restore s i b batch r e =
      let before = analyzed b batch in
      record {
        memory = λ k. restored_memory s r i b k batch e;
        own = λ c. omega (
          arith,
          r.own c,
          fewer size batch_size pos packets s r i before e taking c (omega arith),
        );
        fresh = λ c l. omega (
          arith,
          r.fresh c l,
          fewer size batch_size pos packets s r i before e taking c (omega arith),
        );
        honest = All-set (Honest size batch_size pos packets) s.threads i taking r.honest tt;
        empty = keeps_empty s r i b batch e;
        ends = still_ends size batch_size pos packets s r i before e taking refl;
        shared = λ weight. omega (
          arith,
          r.shared weight,
          sum_of-set (pending size batch_size pos packets weight) s.threads i before taking e,
        );
      }
