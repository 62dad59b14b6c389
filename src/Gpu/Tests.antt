-- ===== src/Gpu/Tests.antt =====
-- Dispatches on a toy kernel, which adds up the bytes of a payload.
mod Shader
use net_sentinel.Base.{
  ℕ, ◌+◌, ◌*◌, ◌/◌, ◌≡◌, refl, sym, ap, ◌∙◌, leb, true, false, none, some, List, [], ◌∷◌, ◌++◌,
  length, arith, pos, replicate, length-replicate, if◌then◌else◌, ◌&&◌, map, ◌⊎◌, ◌%◌, ◌^◌,
}
use mathlib.Core.Option.{some-injective}
use net_sentinel.Base.Text.{codes, decimal, same_text}
use net_sentinel.Packet.{QueuedPacket}
use net_sentinel.Parser.{ok, out_of_bounds, bare_packet}
use net_sentinel.Printing.{dash}
use net_sentinel.Parser.Safety.{Returns}
use net_sentinel.Flow.{default_config}
use net_sentinel.Entropy.{Doubles}
use net_sentinel.Engine.{
  AnalysisEngine, make_engine, eligible_of, run_rules, packet_entropy, entropy_rule, analyze_batch,
}
use net_sentinel.Gpu.{
  Allocate, unallocated, ensure_capacity, Context, find_pipeline, pipeline, make_context, Build,
  load_kernel, put_pipeline, set_error, take_buffers, reserve,
}
use net_sentinel.Gpu.Buffers.{Honest}
use net_sentinel.Gpu.Kernels.{load_kernel-find}
use net_sentinel.Gpu.Dispatch.{
  no_encoder, encoding, start_gpu, submit_payload_entropy, submit_reserved, committed, total_bytes,
  no_payloads, write_cells, pack_from, halve_threads, group_threads, kernel_name,
  run_payload_entropy, run_vector_add, GpuBackend, make_gpu_backend,
}
use net_sentinel.Gpu.Delivery.{Finished}
use net_sentinel.Gpu.Batches.{add_all, run_payload_entropy-Finished}
use net_sentinel.Gpu.Analysis.{
  gpu_entropy_backend, analyze_batch_gpu, OnGpuOrCpu, analyze_batch-gpu,
}

program : Unit {0}
unfolding ensure_capacity find_pipeline pipeline make_context load_kernel put_pipeline set_error
    write_cells pack_from halve_threads group_threads make_gpu_backend make_engine same_text
    total_bytes
program = tt

abbrev sum : List ℕ → ℕ
sum [] = 0
sum (b ∷ bytes) = b + sum bytes

abbrev zeroed : Allocate
zeroed width bytes = some (replicate (bytes / width) 0)

zeroed-Honest : Honest zeroed
zeroed-Honest width bytes cells e =
    ap length (sym (some-injective (replicate (bytes / width) 0) cells e))
    ∙ length-replicate {A = ℕ} (bytes / width) 0

-- A buffer that is large enough stays, a null one grows to the minimum.
capacities :
    (ensure_capacity zeroed 1 3 (record { buffer = some (1 ∷ 2 ∷ 3 ∷ []); capacity = 3 })
      ≡ (true, record { buffer = some (1 ∷ 2 ∷ 3 ∷ []); capacity = 3 }))
    × ((ensure_capacity zeroed 1 3 unallocated).1.capacity ≡ 4096)
    × (ensure_capacity (λ width bytes. none) 1 3 unallocated ≡ (false, unallocated))
unfolding program
capacities = (refl, refl, refl)

-- Packing, into buffers that fit and into one that does not; and thread groups.
packings :
    (pack_from 0 0
        (record { cells = 0 ∷ 0 ∷ 0 ∷ 9 ∷ []; offsets = 9 ∷ 9 ∷ 9 ∷ []; lengths = 9 ∷ 9 ∷ 9 ∷ [] })
        ((1 ∷ 2 ∷ []) ∷ [] ∷ (7 ∷ []) ∷ [])
      ≡ ok (record {
        cells = 1 ∷ 2 ∷ 7 ∷ 9 ∷ [];
        offsets = 0 ∷ 2 ∷ 2 ∷ [];
        lengths = 2 ∷ 0 ∷ 1 ∷ [];
      }))
    × (pack_from 0 0
          (record { cells = 0 ∷ []; offsets = 0 ∷ []; lengths = 0 ∷ [] })
          ((1 ∷ 2 ∷ []) ∷ [])
        ≡ out_of_bounds)
    × (group_threads (record { max_threads = 1024 }) ≡ 256)
    × (group_threads (record { max_threads = 100 }) ≡ 64)
unfolding program
packings = (refl, refl, refl, refl)

abbrev built : Build
built = record {
  library = true;
  has_function = true;
  built = some (record { max_threads = 512 });
  error = none;
}

abbrev loaded : Context
loaded = record {
  available = true;
  pipelines = (kernel_name, record { max_threads = 512 }) ∷ [];
  free_buffers = [];
  last_error = [];
}

additions :
    (run_vector_add ◌+◌ true none ((1, 2) ∷ []) loaded ≡ (
      (false, []),
      set_error
          (codes "kernel 'vector_add' not loaded" ++ (dash ++ codes "call load_kernel() first"))
          loaded,
    ))
    × (run_vector_add ◌+◌ true none
          ((1, 2) ∷ (3, 4) ∷ [])
          (record loaded { pipelines = (codes "vector_add", record { max_threads = 512 }) ∷ [] })
        ≡ (
          (true, 3 ∷ 7 ∷ []),
          record loaded { pipelines = (codes "vector_add", record { max_threads = 512 }) ∷ [] },
        ))
unfolding program run_vector_add
additions = (refl, refl)

backend_loads : make_gpu_backend true true built ≡ record { usable = true; context = loaded }
unfolding program
backend_loads = refl

abbrev some_payloads : List (List ℕ)
some_payloads = (1 ∷ 2 ∷ []) ∷ [] ∷ (7 ∷ []) ∷ []

run_payload_entropy-Finished_example :
    Returns
      (Finished sum zeroed encoding none loaded some_payloads)
      (run_payload_entropy sum zeroed encoding none loaded (add_all no_payloads some_payloads))
unfolding program
run_payload_entropy-Finished_example =
    run_payload_entropy-Finished sum zeroed zeroed-Honest encoding (λ e. cc) none loaded tt
      some_payloads (omega arith) (omega arith)

abbrev squares : Doubles ℕ
squares = record {
  zero = 0;
  of_size = λ n. n;
  minus = λ a b. a + b;
  times = λ a b. a * b;
  divide = λ a b. a;
  log2 = λ a. a;
  at_least = λ a b. leb b a;
  two_decimals = decimal;
}

abbrev engine : AnalysisEngine ℕ
engine =
    make_engine
      (record { flow = default_config; entropy_threshold = 4; entropy_min_payload_bytes = 2 })

abbrev batch : List QueuedPacket
batch =
    record {
      meta = bare_packet (record { tv_sec = pos 0; tv_usec = pos 0 }) 60 60 [] [];
      payload = 7 ∷ 7 ∷ [];
    }
    ∷ []

abbrev gpu : GpuBackend
gpu = record { usable = true; context = loaded }

analyze_batch-gpu_example :
    Returns
      (OnGpuOrCpu sum
        (λ n. n)
        zeroed
        zeroed-Honest
        encoding
        none
        gpu
        tt
        squares
        (λ n. n)
        engine
        batch)
      (analyze_batch_gpu sum (λ n. n) zeroed encoding none gpu squares (λ n. n) engine batch)
unfolding program eligible_of
analyze_batch-gpu_example =
    analyze_batch-gpu sum (λ n. n) zeroed zeroed-Honest encoding none gpu tt squares (λ e. cc)
      (λ n. n) engine batch (omega arith) (omega arith)

-- A null encoder, which the code calls through.
without_encoder :
    analyze_batch_gpu sum (λ n. n) zeroed no_encoder none gpu squares (λ n. n) engine batch
    ≡ out_of_bounds
unfolding program eligible_of analyze_batch_gpu gpu_entropy_backend start_gpu submit_payload_entropy
    submit_reserved take_buffers reserve committed
without_encoder = refl
