-- ===== src/Gpu.antt =====
-- src/gpu/metal_context.cpp and include/netsentinel/gpu/metal_context.hpp: the buffers of entropy
-- dispatches, their pool, and the kernels of a context. Metal is a parameter: what it answers in a
-- call is an argument of that call. A buffer is the list of its cells, bytes or 32-bit words; a read
-- or write past its end is `out_of_bounds`.
pub mod Kernels
pub mod Dispatch
pub mod Buffers
pub mod Packing
pub mod Results
pub mod Submission
pub mod Delivery
pub mod Batches
pub mod Analysis
pub mod Groups
pub mod Shader
pub mod Strides
pub mod Reduction
pub mod Exact
pub mod Agreement
mod Tests
use net_sentinel.Base.{
  ℕ, ◌+◌, ◌*◌, ◌/◌, ◌%◌, ◌^◌, max, Bool, true, false, not, ◌&&◌, ltb, leb, if◌then◌else◌, is_some,
  Option, none, some, List, [], ◌∷◌, ◌++◌, length, take, drop, ◌==◌,
}
use net_sentinel.Base.Text.{codes, same_text}
use net_sentinel.Printing.{dash}

-- `newBuffer(bytes, …)` with cells of a width in bytes; `none` is a null buffer.
abbrev pub Allocate : Type 0
Allocate = (width bytes : ℕ) → Option (List ℕ)

-- A buffer of a pooled set, with the capacity that is kept beside it.
pub record Pooled : Type 0 where
  pub buffer : Option (List ℕ)
  pub capacity : ℕ

abbrev pub unallocated : Pooled
unallocated = record { buffer = none; capacity = 0 }

-- Whether the buffer holds `needed` bytes now, and the buffer.
unfoldable pub ensure_capacity : Allocate → (width needed : ℕ) → Pooled → Bool × Pooled
ensure_capacity allocate width needed p =
    let grown = max (max needed (p.capacity * 2 % 2 ^ 64)) 4096 in
    if is_some p.buffer && leb needed p.capacity then (true, p) else elim (allocate width grown) [
      | none ↦ (false, unallocated)
      | some cells ↦ (true, record { buffer = some cells; capacity = grown })
    ]

pub record EntropyBufferSet : Type 0 where
  pub payloads : Pooled
  pub offsets : Pooled
  pub lengths : Pooled
  pub results : Pooled

abbrev pub fresh_set : EntropyBufferSet
fresh_set = record {
  payloads = unallocated;
  offsets = unallocated;
  lengths = unallocated;
  results = unallocated;
}

-- The four calls of `ensure_capacity`, up to the first that fails, for sizes of type `size_t`.
unfoldable pub reserve :
    Allocate → (total_bytes count : ℕ) → EntropyBufferSet → Bool × EntropyBufferSet
unfolding ensure_capacity
reserve allocate total_bytes count b =
    let (ok_payloads, payloads) = ensure_capacity allocate 1 (total_bytes % 2 ^ 64) b.payloads in
    let (ok_offsets, offsets) = ensure_capacity allocate 4 (count * 4 % 2 ^ 64) b.offsets in
    let (ok_lengths, lengths) = ensure_capacity allocate 4 (count * 4 % 2 ^ 64) b.lengths in
    let (ok_results, results) = ensure_capacity allocate 4 (count * 4 % 2 ^ 64) b.results in
    let one = record b { payloads = payloads } in
    let two = record one { offsets = offsets } in
    let three = record two { lengths = lengths } in
    if not ok_payloads
    then (false, one)
    else if not ok_offsets
    then (false, two)
    else if not ok_lengths
    then (false, three)
    else (ok_results, record three { results = results })

-- A compute pipeline, by the threads that it allows in a group.
pub record Pipeline : Type 0 where
  pub max_threads : ℕ

-- `MetalContext::Impl`. The pool is a stack, its back first.
pub record Context : Type 0 where
  pub available : Bool
  pub pipelines : List (List ℕ × Pipeline)
  pub free_buffers : List EntropyBufferSet
  pub last_error : List ℕ

unfoldable pub take_buffers : Context → EntropyBufferSet × Context
take_buffers ctx = elim ctx.free_buffers [
  | [] ↦ (fresh_set, ctx)
  | buffers ∷ rest ↦ (buffers, record ctx { free_buffers = rest })
]

unfoldable pub return_buffers : Option EntropyBufferSet → Context → Context
return_buffers none ctx = ctx
return_buffers (some buffers) ctx = record ctx { free_buffers = buffers ∷ ctx.free_buffers }

unfoldable pub set_error : List ℕ → Context → Context
set_error message ctx = record ctx { last_error = message }

-- What Metal answers while a context is made: whether there is a device, and then a command queue.
unfoldable pub make_context : (device queue : Bool) → Context
make_context device queue = record {
  available = device && queue;
  pipelines = [];
  free_buffers = [];
  last_error =
      if not device
      then codes "MTL::CreateSystemDefaultDevice() returned null"
        ++ (dash ++ codes "no Metal-capable GPU found")
      else if not queue
      then codes "device->newCommandQueue() returned null"
      else [];
}

-- `pipelines.find(name)`.
unfoldable pub find_pipeline : List ℕ → List (List ℕ × Pipeline) → Option Pipeline
unfolding same_text
find_pipeline name [] = none
find_pipeline name ((n, p) ∷ pipelines) =
    if same_text n name then some p else find_pipeline name pipelines

unfoldable pub pipeline : List ℕ → Context → Option Pipeline × Context
unfolding find_pipeline set_error
pipeline name ctx = elim (find_pipeline name ctx.pipelines) [
  | some p ↦ (some p, ctx)
  | none ↦ (
    none,
    set_error
        (codes "kernel '"
          ++ (name ++ (codes "' not loaded" ++ (dash ++ codes "call load_kernel() first"))))
        ctx,
  )
]

-- An `NS::Error`: null, or one with or without a description.
abbrev pub NsError : Type 0
NsError = Option (Option (List ℕ))

abbrev pub ns_error_to_string : NsError → List ℕ
ns_error_to_string none = codes "(no error details)"
ns_error_to_string (some none) = codes "(no description)"
ns_error_to_string (some (some text)) = text

-- What Metal answers while a kernel is loaded.
pub record Build : Type 0 where
  pub library : Bool
  pub has_function : Bool
  pub built : Option Pipeline
  pub error : NsError

-- `pipelines[name] = …`.
unfoldable pub put_pipeline :
    List ℕ → Pipeline → List (List ℕ × Pipeline) → List (List ℕ × Pipeline)
put_pipeline name p [] = (name, p) ∷ []
put_pipeline name p ((n, q) ∷ pipelines) =
    if same_text n name then (n, p) ∷ pipelines else (n, q) ∷ put_pipeline name p pipelines

unfoldable pub load_kernel : Build → (function_name : List ℕ) → Context → Bool × Context
unfolding set_error put_pipeline
load_kernel build function_name ctx =
    if not ctx.available
    then (false, set_error (codes "no Metal device available") ctx)
    else if not build.library
    then (false, set_error (codes "shader compile failed: " ++ ns_error_to_string build.error) ctx)
    else if not build.has_function
    then (
      false,
      set_error
          (codes "kernel function '"
            ++ (function_name ++ codes "' not found in the compiled library"))
          ctx,
    )
    else elim build.built [
      | none ↦ (
        false,
        set_error (codes "failed to build compute pipeline: " ++ ns_error_to_string build.error)
            ctx,
      )
      | some p ↦ (true, record ctx { pipelines = put_pipeline function_name p ctx.pipelines })
    ]
