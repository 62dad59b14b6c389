-- ===== src/Gpu/Results.antt =====
-- Reading payloads back, by their offsets and lengths, from where they were packed.
use net_sentinel.Base.{
  ℕ, zero, suc, ◌≡◌, refl, ap, ◌∙◌, ◌+◌, ◌%◌, ◌^◌, ◌≤◌, ◌<◌, List, [], ◌∷◌, ◌++◌, length, map,
  arith, length-append, get_elem?-some,
}
use mathlib.Core.List.{append_assoc}
use net_sentinel.Parser.{ok}
use net_sentinel.Gpu.{EntropyBufferSet}
use net_sentinel.Gpu.Buffers.{cells_of}
use net_sentinel.Gpu.Packing.{take_prefix, drop_prefix, concat, offsets_from, sizes}
use net_sentinel.Gpu.Dispatch.{
  PayloadBatch, total_bytes, read_cell, read_cells, read_results, spans,
}

-- Reading back behind a prefix.
read_cell_prefix : (xs ys : List ℕ) (n x : ℕ) → n ≡ length xs → read_cell (xs ++ (x ∷ ys)) n ≡ ok x
unfolding read_cell
read_cell_prefix [] ys zero x e = refl
read_cell_prefix [] ys (suc n) x e = absurd (omega arith)
read_cell_prefix (y ∷ xs) ys zero x e = absurd (omega arith)
read_cell_prefix (y ∷ xs) ys (suc n) x e = read_cell_prefix xs ys n x (omega arith)

read_cells_prefix :
    (xs payload ys : List ℕ) (n : ℕ)
    → n ≡ length xs
    → read_cells (xs ++ (payload ++ ys)) n (length payload) ≡ ok payload
unfolding read_cells
read_cells_prefix xs payload ys n e =
    let whole = length-append xs (payload ++ ys) in
    let near = drop_prefix xs (payload ++ ys) n 0 (omega arith) in
    let taken = take_prefix payload ys (length payload) refl in
    rw near (rw taken (ground (arith, whole, length-append payload ys)))

-- The payloads from the `i`th on are read back from three buffers.
abbrev pub Readable : (bytes offsets lengths : List ℕ) → List (List ℕ) → (i : ℕ) → Type 0
Readable bytes offsets lengths [] i = Unit {0}
Readable bytes offsets lengths (payload ∷ rest) i =
    ((offset : ℕ) × (read_cell offsets i ≡ ok offset)
      × (read_cell lengths i ≡ ok (length payload))
      × (read_cells bytes offset (length payload) ≡ ok payload))
    × Readable bytes offsets lengths rest (suc i)

pub laid-Readable :
    (bytes offsets lengths : List ℕ) (payloads : List (List ℕ)) (xs xs' os os' ls ls' : List ℕ)
    (i : ℕ)
    → bytes ≡ xs ++ (concat payloads ++ xs')
    → offsets ≡ os ++ (offsets_from (length xs) payloads ++ os')
    → lengths ≡ ls ++ (sizes payloads ++ ls')
    → i ≡ length os
    → i ≡ length ls
    → length xs + total_bytes payloads < 2 ^ 32
    → Readable bytes offsets lengths payloads i
unfolding total_bytes
laid-Readable bytes offsets lengths [] xs xs' os os' ls ls' i eb eo el io il small = tt
laid-Readable bytes offsets lengths (payload ∷ rest) xs xs' os os' ls ls' i eb eo el io il small =
    let there : length xs % 2 ^ 32 ≡ length xs = omega arith in
    let size : length payload % 2 ^ 32 ≡ length payload = omega arith in
    let behind : length xs + length payload ≡ length (xs ++ payload) =
      omega (arith, length-append xs payload) in
    (
      (
        length xs,
        rw eo (
            rw
              (read_cell_prefix os (offsets_from (length xs + length payload) rest ++ os') i
                (length xs % 2 ^ 32) io)
              (ap ok there)),
        rw el (
            rw (read_cell_prefix ls (sizes rest ++ ls') i (length payload % 2 ^ 32) il)
              (ap ok size)),
        rw eb (
            rw (append_assoc payload (concat rest) xs')
              (read_cells_prefix xs payload (concat rest ++ xs') (length xs) refl)),
      ),
      laid-Readable bytes offsets lengths rest (xs ++ payload) xs'
          (os ++ ((length xs % 2 ^ 32) ∷ [])) os' (ls ++ ((length payload % 2 ^ 32) ∷ [])) ls'
          (suc i) (eb ∙ simp append_assoc refl) (eo ∙ (simp append_assoc (rw behind refl)))
          (el ∙ simp append_assoc refl)
          (omega (arith, length-append os ((length xs % 2 ^ 32) ∷ [])))
          (omega (arith, length-append ls ((length payload % 2 ^ 32) ∷ []))) (omega arith),
    )

pub spans-Readable :
    (batch : PayloadBatch) (payloads : List (List ℕ)) (i : ℕ)
    → Readable batch.bytes batch.offsets batch.lengths payloads i
    → spans batch (length payloads) i ≡ ok payloads
unfolding spans
spans-Readable batch [] i h = refl
spans-Readable batch (payload ∷ rest) i ((offset, o, l, b), h) =
    rw o (rw l (rw b (rw (spans-Readable batch rest (suc i) h) refl)))

module _ {Float : Type 0} (kernel : List ℕ → Float) where
  pub read_results-Readable :
      (b : EntropyBufferSet) (payloads : List (List ℕ)) (i : ℕ)
      → Readable
          (cells_of b.payloads.buffer)
          (cells_of b.offsets.buffer)
          (cells_of b.lengths.buffer)
          payloads
          i
      → i + length payloads ≤ length (cells_of b.results.buffer)
      → read_results kernel b (length payloads) i ≡ ok (map kernel payloads)
  unfolding read_results
  read_results-Readable b [] i h roomy = refl
  read_results-Readable b (payload ∷ rest) i ((offset, o, l, bs), h) roomy =
      let (old, e) = get_elem?-some (cells_of b.results.buffer) i (omega arith) in
      rw o (
        rw l (
          rw bs
            (rw (e, read_cell) (rw (read_results-Readable b rest (suc i) h (omega arith)) refl))))
