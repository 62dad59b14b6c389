-- ===== src/Gpu/Analysis.antt =====
-- src/gpu/gpu_entropy_backend.cpp as the backend of src/analysis/analysis_engine.cpp: one batch of
-- packets whose entropies the GPU computes.
use net_sentinel.Base.{
  ℕ, ◌≡◌, refl, sym, ap, ◌∙◌, ◌+◌, ◌%◌, ◌^◌, ◌<◌, ◌==◌, true, false, if◌then◌else◌, Option, none,
  some, List, [], ◌∷◌, ◌++◌, length, map, arith, Option-cases, Bool-cases, inl, inr, ◌⊎◌,
  length-map,
}
use mathlib.Core.List.{append-nil}
use net_sentinel.Packet.{QueuedPacket}
use net_sentinel.Alert.{Alert}
use net_sentinel.Parser.{Read, ok, ◌>>=◌}
use net_sentinel.Parser.Safety.{Returns, Returns-value, Returns-bind}
use net_sentinel.Entropy.{Doubles}
use net_sentinel.Engine.{
  EntropyBackend, compute, AnalysisEngine, eligible_of, run_rules, packet_entropy, cpu_backend,
  entropy_rule, usable, finish_entropy, analyze_batch,
}
use net_sentinel.Gpu.{Allocate, Context, NsError}
use net_sentinel.Gpu.Buffers.{Honest}
use net_sentinel.Gpu.Submission.{SizedPool, Submitted, submit_payload_entropy-Submitted}
use net_sentinel.Gpu.Delivery.{Finished, finish-Finished}
use net_sentinel.Gpu.Dispatch.{
  Command, Encodes, PendingGpu, total_bytes, submit_payload_entropy, finish, GpuBackend, payload_of,
  start_gpu, wait_gpu,
}

module _ {Float Double : Type 0} (kernel : List ℕ → Float) (widen : Float → Double)
    (allocate : Allocate) (command : Command) (failed : Option NsError) (gpu : GpuBackend) where
  -- `GpuEntropyBackend` as an `EntropyBackend`, for one call of `start`, which is on `packets`, and one of
  -- `wait` on its handle. An access out of bounds in either is the result of the whole.
  unfoldable pub gpu_entropy_backend : List QueuedPacket → Read (EntropyBackend Double)
  gpu_entropy_backend packets = do
    started ← start_gpu allocate command gpu packets
    elim started.0 [
      | none ↦ ok (record { start = λ _. none })
      | some pending ↦ do
        waited ← wait_gpu kernel widen failed (some pending) started.1
        ok (record { start = λ _. some (record { wait = waited.0 }) })
    ]

  -- `analyze_batch` of an engine whose backend is the GPU: without eligible packets it calls no backend.
  unfoldable pub analyze_batch_gpu :
      Doubles Double
      → (ℕ → ℕ)
      → AnalysisEngine Double
      → List QueuedPacket
      → Read (AnalysisEngine Double × List Alert)
  analyze_batch_gpu double hash32 engine batch =
      let eligible = eligible_of engine.config.entropy_min_payload_bytes batch in
      if length eligible == 0
      then ok (analyze_batch double hash32 (record { start = λ _. none }) engine batch)
      else do
        backend ← gpu_entropy_backend eligible
        ok (analyze_batch double hash32 backend engine batch)

module _ {A B C : Type 0} (f : B → C) (g : A → B) where
  map-map : (l : List A) → map f (map g l) ≡ map (λ a. f (g a)) l
  map-map [] = refl
  map-map (a ∷ l) = ap (◌∷◌ (f (g a))) (map-map l)

module _ {Float Double : Type 0} (kernel : List ℕ → Float) (widen : Float → Double)
    (allocate : Allocate) (honest : Honest allocate) (command : Command) (failed : Option NsError)
    (gpu : GpuBackend) (pool : SizedPool gpu.context) where
  -- The entropy that the GPU gives for a packet.
  abbrev pub gpu_entropy : QueuedPacket → Double
  gpu_entropy packet = widen (kernel packet.payload)

  widened :
      (packets : List QueuedPacket) (results : List Float)
      → results ≡ map kernel (map payload_of packets)
      → map widen results ≡ map gpu_entropy packets
  widened packets results e =
      ap (map widen) e
      ∙ (map-map widen kernel (map payload_of packets)
          ∙ map-map (λ p. widen (kernel p)) payload_of packets)

  abbrev Computed : List QueuedPacket → Option (List Double) → Type 0
  Computed packets computed = (computed ≡ none) ⊎ (computed ≡ some (map gpu_entropy packets))

  abbrev pub ComputedBy : List QueuedPacket → EntropyBackend Double → Type 0
  ComputedBy packets backend = Computed packets (compute backend packets)

  compute_refused :
      (packets : List QueuedPacket) (ctx : Context)
      → start_gpu allocate command gpu packets ≡ ok (none, ctx)
      → Returns
          (ComputedBy packets)
          (gpu_entropy_backend kernel widen allocate command failed gpu packets)
  unfolding compute gpu_entropy_backend
  compute_refused packets ctx e = rw (e, Returns) (inl refl)

  ComputedBy-finish :
      (packets : List QueuedPacket) (p : Option PendingGpu) (ctx : Context)
      → Returns
          (Finished kernel allocate command failed gpu.context (map payload_of packets))
          (finish kernel failed p ctx)
      → start_gpu allocate command gpu packets ≡ ok (p, ctx)
      → Returns
          (ComputedBy packets)
          (gpu_entropy_backend kernel widen allocate command failed gpu packets)
  unfolding compute gpu_entropy_backend wait_gpu
  ComputedBy-finish packets none ctx h e = compute_refused packets ctx e
  ComputedBy-finish packets (some p) ctx h e =
      let ((results, last), finished, (sized, sets, k)) =
        Returns-value (Finished kernel allocate command failed gpu.context (map payload_of packets))
          (finish kernel failed (some p) ctx) h in
      elim (Option-cases results) [
        | inl f ↦ rw (e, Returns) (rw (finished, Returns) (rw f (inl refl)))
        | inr (rs, f) ↦
            let right : rs ≡ map kernel (map payload_of packets) = rw f at k in
            rw (e, Returns)
              (rw (finished, Returns) (rw f (inr (ap some (widened packets rs right)))))
      ]

  pub gpu_entropy_backend-ComputedBy :
      Encodes command
      → (packets : List QueuedPacket) → total_bytes (map payload_of packets) < 2 ^ 32
      → length packets < 2 ^ 62
      → Returns
          (ComputedBy packets)
          (gpu_entropy_backend kernel widen allocate command failed gpu packets)
  unfolding start_gpu
  gpu_entropy_backend-ComputedBy encodes packets small few =
      let payloads = map payload_of packets in
      let ((p, after), submitted, h) =
        Returns-value (Submitted allocate command gpu.context payloads)
          (submit_payload_entropy allocate command gpu.context payloads)
          (submit_payload_entropy-Submitted allocate honest command encodes gpu.context pool
            payloads small (omega (arith, length-map packets payload_of))) in
      elim (Bool-cases gpu.usable) [
        | inr e ↦ compute_refused packets gpu.context (rw e refl)
        | inl e ↦
            ComputedBy-finish packets p after
              (finish-Finished kernel allocate command failed gpu.context payloads p after h)
              (rw e submitted)
      ]

  module _ (double : Doubles Double) where
    finish_entropy-gpu :
        (engine : AnalysisEngine Double) (eligible : List QueuedPacket)
        (backend : EntropyBackend Double)
        → Computed eligible (compute backend eligible)
        → (finish_entropy double backend engine eligible ≡ (
          engine.fallbacks,
          entropy_rule double engine.config eligible (map gpu_entropy eligible),
        ))
          ⊎ (finish_entropy double backend engine eligible ≡ (
            (engine.fallbacks + 1) % 2 ^ 64,
            entropy_rule double engine.config eligible (map (packet_entropy double) eligible),
          ))
    unfolding finish_entropy usable compute cpu_backend
    finish_entropy-gpu engine eligible backend (inl e) = inr (rw (e, finish_entropy) refl)
    finish_entropy-gpu engine eligible backend (inr e) =
        let size : (length (map gpu_entropy eligible) == length eligible) ≡ true =
          ground (arith, length-map eligible gpu_entropy) in
        inl (rw (e, finish_entropy) (rw size refl))

    nobody_eligible :
        (engine : AnalysisEngine Double) (eligible : List QueuedPacket)
        → (length eligible == 0) ≡ true
        → entropy_rule double engine.config eligible (map gpu_entropy eligible) ≡ []
    unfolding entropy_rule
    nobody_eligible engine [] e = refl
    nobody_eligible engine (packet ∷ rest) e = absurd (ground arith)

    -- What a batch gives with the GPU's entropies, and with the CPU's.
    abbrev pub OnGpuOrCpu :
        (ℕ → ℕ)
        → AnalysisEngine Double
        → List QueuedPacket
        → AnalysisEngine Double × List Alert
        → Type 0
    OnGpuOrCpu hash32 engine batch result =
        let eligible = eligible_of engine.config.entropy_min_payload_bytes batch in
        let (tracker, alerts) = run_rules hash32 engine.signatures engine.flow_tracker batch in
        (result ≡ (
          record engine { flow_tracker = tracker },
          alerts ++ entropy_rule double engine.config eligible (map gpu_entropy eligible),
        ))
        ⊎ (result ≡ (
          record engine { flow_tracker = tracker; fallbacks = (engine.fallbacks + 1) % 2 ^ 64 },
          alerts
              ++ entropy_rule double engine.config eligible (map (packet_entropy double) eligible),
        ))

    nobody-OnGpuOrCpu :
        (hash32 : ℕ → ℕ) (engine : AnalysisEngine Double) (batch : List QueuedPacket)
        (backend : EntropyBackend Double)
        → (length (eligible_of engine.config.entropy_min_payload_bytes batch) == 0) ≡ true
        → OnGpuOrCpu hash32 engine batch (analyze_batch double hash32 backend engine batch)
    unfolding analyze_batch
    nobody-OnGpuOrCpu hash32 engine batch backend e =
        let eligible = eligible_of engine.config.entropy_min_payload_bytes batch in
        let rules = run_rules hash32 engine.signatures engine.flow_tracker batch in
        inl (
          rw (e, analyze_batch)
            (ap (λ (l : List Alert). (record engine { flow_tracker = rules.0 }, l))
              (sym (append-nil rules.1)
                ∙ ap (λ (l : List Alert). rules.1 ++ l) (sym (nobody_eligible engine eligible e)))))

    some-OnGpuOrCpu :
        (hash32 : ℕ → ℕ) (engine : AnalysisEngine Double) (batch : List QueuedPacket)
        (backend : EntropyBackend Double)
        → (length (eligible_of engine.config.entropy_min_payload_bytes batch) == 0) ≡ false
        → ComputedBy (eligible_of engine.config.entropy_min_payload_bytes batch) backend
        → OnGpuOrCpu hash32 engine batch (analyze_batch double hash32 backend engine batch)
    unfolding analyze_batch
    some-OnGpuOrCpu hash32 engine batch backend e computed =
        elim (finish_entropy-gpu engine (eligible_of engine.config.entropy_min_payload_bytes batch)
          backend computed) [
            | inl f ↦ inl (rw (e, analyze_batch) (rw (f, analyze_batch) refl))
            | inr f ↦ inr (rw (e, analyze_batch) (rw (f, analyze_batch) refl))
          ]

    -- A batch that is analysed with the GPU as the backend, if its eligible packets are fewer than 2 ^ 62
    -- with payloads of less than 2 ^ 32 bytes together, buffers are as large as they are asked for,
    -- pooled buffers have the sizes that are noted for them and a command buffer, if there is one, gives an
    -- encoder: the dispatch makes no access outside a buffer, whatever else Metal answers. The batch runs the
    -- signature and flow rules on each packet, and then either the entropy rule on the GPU's entropies of
    -- exactly the eligible packets, in their order, with no fallback counted, or the entropy rule on the CPU's,
    -- with one fallback more.
    pub analyze_batch-gpu :
        Encodes command
        → (hash32 : ℕ → ℕ) (engine : AnalysisEngine Double) (batch : List QueuedPacket)
        → total_bytes (map payload_of (eligible_of engine.config.entropy_min_payload_bytes batch))
          < 2 ^ 32
        → length (eligible_of engine.config.entropy_min_payload_bytes batch) < 2 ^ 62
        → Returns
            (OnGpuOrCpu hash32 engine batch)
            (analyze_batch_gpu kernel widen allocate command failed gpu double hash32 engine batch)
    unfolding analyze_batch_gpu
    analyze_batch-gpu encodes hash32 engine batch small few =
        let eligible = eligible_of engine.config.entropy_min_payload_bytes batch in
        elim (Bool-cases (length eligible == 0)) [
          | inl e ↦ rw (e, Returns) (nobody-OnGpuOrCpu hash32 engine batch _ e)
          | inr e ↦
              rw (e, Returns)
                (Returns-bind (ComputedBy eligible) (OnGpuOrCpu hash32 engine batch)
                  (gpu_entropy_backend kernel widen allocate command failed gpu eligible)
                  (λ backend. ok (analyze_batch double hash32 backend engine batch))
                  (gpu_entropy_backend-ComputedBy encodes eligible small few)
                  (λ backend computed. some-OnGpuOrCpu hash32 engine batch backend e computed))
        ]
