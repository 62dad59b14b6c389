-- ===== src/Bench/Rules.antt =====
-- `run_rule` of src/bench/bench_analysis.cpp: threads take batches from a shared counter and run one rule on each
-- packet. What the rules compute is that of the modules of the rules; this one is about which packets they are
-- given, and about the payloads that are swapped out of the shared vector and back. A vector is a function of
-- the index with its size; no size here comes near 2 ^ 64. What the vector `batch` of a thread holds between
-- two batches are the payloads that were swapped into it last.
pub mod Vectors
pub mod Invariant
pub mod Kept
pub mod Once
mod Tests
use net_sentinel.Base.{
  ℕ, zero, suc, ◌+◌, ◌-◌, ◌*◌, ◌/◌, ◌≡◌, ◌<◌, ◌≤◌, min, Bool, true, false, ◌&&◌, ltb, leb,
  if◌then◌else◌, List, [], ◌∷◌, ◌++◌, Option, none, some, get_elem?, set, replicate, map, ◌==◌,
}
use net_sentinel.Packet.{QueuedPacket}

-- Where a thread stands in its loop: before it takes a batch number, with one, with the batch swapped out, past
-- the analysis, or behind the loop.
pub data Phase : Type 0 where
  taking : Phase
  holding : (b : ℕ) → Phase
  swapped analyzed : (b : ℕ) (batch : List QueuedPacket) → Phase
  stopped : Phase

-- The shared counter and packets, the threads, the payloads in the `batch` of each thread between two batches,
-- and the batches that the rule was run on so far.
pub record Run : Type 0 where
  pub next_batch : ℕ
  pub packets : ℕ → QueuedPacket
  pub threads : List Phase
  pub buffers : ℕ → List (List ℕ)
  pub processed : List (List QueuedPacket)

module _ (size batch_size : ℕ) where
  unfoldable pub batch_count : ℕ
  batch_count = (size + batch_size - 1) / batch_size

  abbrev pub begin_of : ℕ → ℕ
  begin_of b = b * batch_size

  abbrev pub end_of : ℕ → ℕ
  end_of b = min (b * batch_size + batch_size) size

  abbrev pub in_batch : (b k : ℕ) → Bool
  in_batch b k = leb (begin_of b) k && ltb k (end_of b)

  -- The packets from `first` on.
  unfoldable pub packets_from : (ℕ → QueuedPacket) → (first n : ℕ) → List QueuedPacket
  packets_from packets first zero = []
  packets_from packets first (suc n) = packets first ∷ packets_from packets (suc first) n

  unfoldable pub batch_of : (ℕ → QueuedPacket) → (b : ℕ) → List QueuedPacket
  unfolding packets_from
  batch_of packets b = packets_from packets (begin_of b) (end_of b - begin_of b)

  -- The payload of the `j`th packet of `batch` after `batch.resize`: that of a new packet is empty.
  abbrev pub resized : List (List ℕ) → (j : ℕ) → List ℕ
  resized buffer j = elim (get_elem? buffer j) [ none ↦ [] | some payload ↦ payload ]

  -- The vector once the payloads of a batch are swapped for those of `batch`, and once they are swapped
  -- back.
  unfoldable pub swap_out :
      (ℕ → QueuedPacket) → (b : ℕ) → (buffer : List (List ℕ)) → ℕ → QueuedPacket
  swap_out packets b buffer k =
      if in_batch b k
      then record (packets k) { payload = resized buffer (k - begin_of b) }
      else packets k

  unfoldable pub swap_back : (ℕ → QueuedPacket) → (b : ℕ) → List QueuedPacket → ℕ → QueuedPacket
  swap_back packets b batch k =
      if in_batch b k
      then elim (get_elem? batch (k - begin_of b)) [
        | none ↦ packets k
        | some packet ↦ record (packets k) { payload = packet.payload }
      ]
      else packets k

  -- The payloads of `batch` once they are swapped back: those that the vector had.
  unfoldable pub payloads_of : (ℕ → QueuedPacket) → (b : ℕ) → List (List ℕ)
  unfolding batch_of
  payloads_of packets b = map (λ (packet : QueuedPacket). packet.payload) (batch_of packets b)

  unfoldable pub keep_buffer : ℕ → List (List ℕ) → (ℕ → List (List ℕ)) → ℕ → List (List ℕ)
  keep_buffer i buffer buffers j = if j == i then buffer else buffers j

  abbrev pub move : ℕ → Phase → Run → Run
  move i phase s = record s { threads = set s.threads i phase }

  -- `whole` tells whether the rule is that of `analyze_batch`; the others read the packets where they are.
  pub data Step (whole : Bool) (s : Run) : Run → Type 0 where
    take_batch :
        (i : ℕ)
        → get_elem? s.threads i ≡ some taking
        → s.next_batch < batch_count
        → Step whole s (record (move i (holding s.next_batch) s) { next_batch = s.next_batch + 1 })
    stop :
        (i : ℕ)
        → get_elem? s.threads i ≡ some taking
        → batch_count ≤ s.next_batch
        → Step whole s (record (move i stopped s) { next_batch = s.next_batch + 1 })
    run_in_place :
        (i b : ℕ)
        → whole ≡ false
        → get_elem? s.threads i ≡ some (holding b)
        → Step whole s
            (record (move i taking s) { processed = s.processed ++ batch_of s.packets b ∷ [] })
    swap :
        (i b : ℕ)
        → whole ≡ true
        → get_elem? s.threads i ≡ some (holding b)
        → Step whole s (record (move i (swapped b (batch_of s.packets b)) s) {
          packets = swap_out s.packets b (s.buffers i);
        })
    analyze :
        (i b : ℕ) (batch : List QueuedPacket)
        → get_elem? s.threads i ≡ some (swapped b batch)
        → Step whole s
            (record (move i (analyzed b batch) s) { processed = s.processed ++ batch ∷ [] })
    restore :
        (i b : ℕ) (batch : List QueuedPacket)
        → get_elem? s.threads i ≡ some (analyzed b batch)
        → Step whole s (record (move i taking s) {
          packets = swap_back s.packets b batch;
          buffers = keep_buffer i (payloads_of s.packets b) s.buffers;
        })

  pub data Steps (whole : Bool) (s : Run) : Run → Type 0 where
    done : Steps whole s s
    next : {t u : Run} → Steps whole s t → Step whole t u → Steps whole s u

unfoldable pub start : (ℕ → QueuedPacket) → (threads : ℕ) → Run
start packets threads = record {
  next_batch = 0;
  packets = packets;
  threads = replicate threads taking;
  buffers = λ i. [];
  processed = [];
}
