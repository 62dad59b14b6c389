-- ===== src/Gpu/Dispatch.antt =====
-- One dispatch of the entropy kernel: packing the payloads into a set of buffers, submitting, waiting,
-- and giving the buffers back, of src/gpu/metal_context.cpp; `PayloadBatch` of
-- include/netsentinel/gpu/metal_context.hpp; src/gpu/gpu_entropy_backend.cpp.
use net_sentinel.Base.{
  is_some, ◌≢◌, ℕ, zero, suc, ◌+◌, ◌/◌, ◌%◌, ◌^◌, Bool, true, false, not, ◌==◌, ltb, leb,
  if◌then◌else◌, Option, none, some, List, [], ◌∷◌, ◌++◌, length, take, drop, get_elem?, map,
}
use net_sentinel.Base.Text.{codes}
use net_sentinel.Packet.{QueuedPacket, slice}
use net_sentinel.Parser.{Read, ok, out_of_bounds, ◌>>=◌}
use net_sentinel.Gpu.Buffers.{cells_of}
use net_sentinel.Gpu.{
  Allocate, reserve, EntropyBufferSet, Pipeline, Context, take_buffers, return_buffers, set_error,
  make_context, pipeline, NsError, ns_error_to_string, Build, load_kernel,
}

-- Payloads packed for a dispatch.
pub record PayloadBatch : Type 0 where
  pub bytes : List ℕ
  pub offsets : List ℕ
  pub lengths : List ℕ

abbrev pub no_payloads : PayloadBatch
no_payloads = record { bytes = []; offsets = []; lengths = [] }

unfoldable pub add_payload : List ℕ → PayloadBatch → PayloadBatch
add_payload payload batch = record {
  bytes = if ltb 0 (length payload) then batch.bytes ++ payload else batch.bytes;
  offsets = batch.offsets ++ (length batch.bytes % 2 ^ 32) ∷ [];
  lengths = batch.lengths ++ (length payload % 2 ^ 32) ∷ [];
}

-- A write of consecutive cells.
unfoldable pub write_cells : List ℕ → ℕ → List ℕ → Read (List ℕ)
write_cells cells i values =
    if leb (i + length values) (length cells)
    then ok (take i cells ++ (values ++ drop (i + length values) cells))
    else out_of_bounds

-- What the CPU writes into a set of buffers.
pub record Packed : Type 0 where
  pub cells : List ℕ
  pub offsets : List ℕ
  pub lengths : List ℕ

-- The loop over the payloads, at payload `i`, whose bytes go to `offset`.
unfoldable pub pack_from : (i offset : ℕ) → Packed → List (List ℕ) → Read Packed
unfolding write_cells
pack_from i offset p [] = ok p
pack_from i offset p (payload ∷ rest) = do
  offsets ← write_cells p.offsets i ((offset % 2 ^ 32) ∷ [])
  lengths ← write_cells p.lengths i ((length payload % 2 ^ 32) ∷ [])
  cells ← if ltb 0 (length payload) then write_cells p.cells offset payload else ok p.cells
  pack_from (suc i) (offset + length payload)
      (record { cells = cells; offsets = offsets; lengths = lengths }) rest

-- The loop that halves the threads of a group, on the fuel that 256 needs.
unfoldable pub halve_threads : (fuel threads limit : ℕ) → ℕ
halve_threads zero threads limit = threads
halve_threads (suc fuel) threads limit =
    let rest = halve_threads fuel (threads / 2) limit in if ltb limit threads then rest else threads

unfoldable pub group_threads : Pipeline → ℕ
unfolding halve_threads
group_threads p = halve_threads 9 256 p.max_threads

-- `PendingGpuEntropy::State`; `command` tells whether there was something to dispatch, and `threads`
-- is the size of the groups that it was dispatched with. `waited` is left out: it only tells the
-- destructor whether the GPU may still be running.
pub record PendingGpu : Type 0 where
  pub buffers : EntropyBufferSet
  pub command : Bool
  pub count : ℕ
  pub threads : ℕ

unfoldable pub total_bytes : List (List ℕ) → ℕ
total_bytes [] = 0
total_bytes (payload ∷ rest) = length payload + total_bytes rest

-- The name under which the kernel is kept.
abbrev pub kernel_name : List ℕ
kernel_name = codes "payload_entropy"

-- What `queue->commandBuffer()` and its `computeCommandEncoder()` give: no command buffer, one that gives
-- no encoder, or one with its encoder.
pub data Command : Type 0 where
  no_buffer no_encoder encoding : Command

-- Every command buffer gives an encoder: the code asks each one for its first.
abbrev pub Encodes : Command → Type 0
Encodes command = command ≢ no_encoder

-- From `queue->commandBuffer()` to the commit. A call through an encoder that is null, which C++ leaves
-- undefined and the code does not test for, has the result of a read out of bounds.
unfoldable pub committed :
    (command : Command)
    → (threads count : ℕ) → EntropyBufferSet
    → Context
    → Read (Option PendingGpu × Context)
committed encoding threads count b ctx =
    ok (some (record { buffers = b; command = true; count = count; threads = threads }), ctx)
committed no_encoder threads count b ctx = out_of_bounds
committed no_buffer threads count b ctx =
    ok
      (none, return_buffers (some b) (set_error (codes "queue->commandBuffer() returned null") ctx))

-- The part of a submission after the buffers are reserved.
unfoldable pub submit_reserved :
    (command : Command)
    → Pipeline
    → EntropyBufferSet
    → Context
    → List (List ℕ)
    → Read (Option PendingGpu × Context)
unfolding pack_from group_threads committed
submit_reserved command p b ctx payloads = do
  packed ←
      pack_from 0 0
        (record {
          cells = cells_of b.payloads.buffer;
          offsets = cells_of b.offsets.buffer;
          lengths = cells_of b.lengths.buffer;
        })
        payloads
  let written : EntropyBufferSet = record b {
    payloads = record { buffer = some packed.cells; capacity = b.payloads.capacity };
    offsets = record { buffer = some packed.offsets; capacity = b.offsets.capacity };
    lengths = record { buffer = some packed.lengths; capacity = b.lengths.capacity };
  }
  committed command (group_threads p) (length payloads) written ctx

unfoldable pub submit_payload_entropy :
    Allocate → (command : Command) → Context → List (List ℕ) → Read (Option PendingGpu × Context)
unfolding total_bytes submit_reserved
submit_payload_entropy allocate command ctx payloads =
    let (found, ctx') = pipeline kernel_name ctx in
    elim found [
      | none ↦ ok (none, ctx')
      | some p ↦
          let (buffers, taken) = take_buffers ctx' in
          let (enough, reserved) =
            reserve allocate (total_bytes payloads) (length payloads) buffers in
          if length payloads == 0
          then ok
              (some (record { buffers = buffers; command = false; count = 0; threads = 0 }), taken)
          else if enough
          then submit_reserved command p reserved taken payloads
          else ok (
            none,
            return_buffers (some reserved)
                (set_error (codes "failed to allocate GPU buffers") taken),
          )
    ]

unfoldable pub read_cell : List ℕ → ℕ → Read ℕ
read_cell cells i = elim (get_elem? cells i) [ none ↦ out_of_bounds | some c ↦ ok c ]

unfoldable pub read_cells : List ℕ → (i size : ℕ) → Read (List ℕ)
read_cells cells i size =
    if leb (i + size) (length cells) then ok (slice cells i size) else out_of_bounds

module _ {Float : Type 0} (kernel : List ℕ → Float) where
  -- What a completed dispatch leaves for `n` payloads from the `i`th on: each group reads its payload by
  -- the offset and the length, and writes one result.
  unfoldable pub read_results : EntropyBufferSet → (n i : ℕ) → Read (List Float)
  unfolding read_cell read_cells
  read_results b zero i = ok []
  read_results b (suc n) i = do
    offset ← read_cell (cells_of b.offsets.buffer) i
    size ← read_cell (cells_of b.lengths.buffer) i
    payload ← read_cells (cells_of b.payloads.buffer) offset size
    old ← read_cell (cells_of b.results.buffer) i
    rest ← read_results b n (suc i)
    ok (kernel payload ∷ rest)

  -- `PendingGpuEntropy::wait`, where the command buffer completed or failed with an error.
  unfoldable pub wait :
      (failed : Option NsError) → PendingGpu → Context → Read (Option (List Float) × Context)
  unfolding read_results
  wait failed pending ctx = if not pending.command then ok (some [], ctx) else elim failed [
    | some error ↦ ok (
      none,
      set_error (codes "GPU command buffer did not complete: " ++ ns_error_to_string error) ctx,
    )
    | none ↦ do results ← read_results pending.buffers pending.count 0; ok (some results, ctx)
  ]

-- `~PendingGpuEntropy`.
unfoldable pub destroy : PendingGpu → Context → Context
destroy pending ctx = return_buffers (some pending.buffers) ctx

-- The spans that `run_payload_entropy` makes of a batch: the `n` payloads from the `i`th on.
unfoldable pub spans : PayloadBatch → (n i : ℕ) → Read (List (List ℕ))
unfolding read_cell read_cells
spans batch zero i = ok []
spans batch (suc n) i = do
  offset ← read_cell batch.offsets i
  size ← read_cell batch.lengths i
  payload ← read_cells batch.bytes offset size
  rest ← spans batch n (suc i)
  ok (payload ∷ rest)

-- `wait`, and the end of the pending dispatch's life.
unfoldable pub finish :
    {Float : Type 0}
    → (kernel : List ℕ → Float) → (failed : Option NsError) → Option PendingGpu
    → Context
    → Read (Option (List Float) × Context)
unfolding wait destroy
finish kernel failed none ctx = ok (none, ctx)
finish kernel failed (some pending) ctx = do
  waited ← wait kernel failed pending ctx
  ok (waited.0, destroy pending waited.1)

unfoldable pub run_payload_entropy :
    {Float : Type 0}
    → (kernel : List ℕ → Float) → Allocate
    → (command : Command) → (failed : Option NsError) → Context
    → PayloadBatch
    → Read (Option (List Float) × Context)
unfolding spans finish
run_payload_entropy kernel allocate command failed ctx batch = do
  payloads ← spans batch (length batch.offsets) 0
  submitted ← submit_payload_entropy allocate command ctx payloads
  finish kernel failed submitted.0 submitted.1

-- `GpuEntropyBackend`.
pub record GpuBackend : Type 0 where
  pub usable : Bool
  pub context : Context

unfoldable pub make_gpu_backend : (device queue : Bool) → Build → GpuBackend
make_gpu_backend device queue build =
    let ctx = make_context device queue in
    let (loaded, ctx') = load_kernel build kernel_name ctx in
    if ctx.available
    then record { usable = loaded; context = ctx' }
    else record { usable = false; context = ctx }

abbrev pub payload_of : QueuedPacket → List ℕ
payload_of packet = packet.payload

unfoldable pub start_gpu :
    Allocate
    → (command : Command) → GpuBackend
    → List QueuedPacket
    → Read (Option PendingGpu × Context)
start_gpu allocate command backend packets =
    if backend.usable
    then submit_payload_entropy allocate command backend.context (map payload_of packets)
    else ok (none, backend.context)

-- `GpuPending::wait`, and the end of its life; `widen` makes a `double` of a `float`.
unfoldable pub wait_gpu :
    {Float Double : Type 0}
    → (kernel : List ℕ → Float) → (widen : Float → Double) → (failed : Option NsError)
    → Option PendingGpu
    → Context
    → Read (Option (List Double) × Context)
unfolding finish
wait_gpu kernel widen failed pending ctx = do
  finished ← finish kernel failed pending ctx
  ok (elim finished.0 [ none ↦ none | some results ↦ some (map widen results) ], finished.1)

-- `run_vector_add` on pairs of cells, where the three buffers are allocated or one is not: whether it
-- succeeds, and what it copies into `result`.
unfoldable pub run_vector_add :
    {Float : Type 0}
    → (add : Float → Float → Float) → (allocated : Bool) → (failed : Option NsError)
    → List (Float × Float)
    → Context
    → (Bool × List Float) × Context
run_vector_add add allocated failed pairs ctx =
    let (found, ctx') = pipeline (codes "vector_add") ctx in
    if not (is_some found)
    then ((false, []), ctx')
    else if length pairs == 0
    then ((true, []), ctx')
    else if not allocated
    then ((false, []), set_error (codes "failed to allocate GPU buffers") ctx')
    else elim failed [
      | some error ↦ (
        (false, []),
        set_error (codes "GPU command buffer did not complete: " ++ ns_error_to_string error) ctx',
      )
      | none ↦ ((true, map (λ p. add p.0 p.1) pairs), ctx')
    ]
