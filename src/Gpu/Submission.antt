-- ===== src/Gpu/Submission.antt =====
-- What a submission leaves in the buffers, and in the pool.
use net_sentinel.Base.{
  ℕ, suc, ◌≡◌, ◌≢◌, refl, sym, ap, subst, ◌∙◌, ◌^◌, ◌≤◌, ◌<◌, ◌==◌, max, true, if◌then◌else◌,
  is_some, Option, none, some, List, [], ◌∷◌, length, arith, Option-cases, Bool-cases, inl, inr,
  All,
}
use net_sentinel.Parser.Safety.{Returns}
use net_sentinel.Gpu.{
  Allocate, EntropyBufferSet, fresh_set, reserve, Pipeline, Context, take_buffers, return_buffers,
  set_error, pipeline, find_pipeline,
}
use net_sentinel.Gpu.Buffers.{
  cells_of, Honest, SizedSet, Roomy, reserve-SizedSet, Generous, reserve-Generous,
}
use net_sentinel.Gpu.Packing.{
  put, length-sizes, length-offsets_from, length-concat, concat, offsets_from, sizes,
  pack_from-packed, length-put,
}
use net_sentinel.Gpu.Results.{Readable, laid-Readable}
use net_sentinel.Gpu.Dispatch.{
  Packed, Command, no_buffer, no_encoder, encoding, Encodes, group_threads, PendingGpu, total_bytes,
  kernel_name, committed, submit_reserved, submit_payload_entropy,
}

-- The dispatch computes the payloads.
abbrev pub Computes : PendingGpu → List (List ℕ) → Type 0
Computes pending payloads =
    SizedSet pending.buffers
    × (if pending.command
        then ((pending.count ≡ length payloads)
            × Readable (cells_of pending.buffers.payloads.buffer)
                (cells_of pending.buffers.offsets.buffer) (cells_of pending.buffers.lengths.buffer)
                payloads 0
            × (length payloads ≤ length (cells_of pending.buffers.results.buffer)))
        else (payloads ≡ []))

-- A pool whose capacities are true.
abbrev pub SizedPool : Context → Type 0
SizedPool ctx = All SizedSet ctx.free_buffers

-- How many sets of buffers the pool and the dispatches hold together once a dispatch has taken one: the
-- pool makes one only if it has none.
abbrev pub sets_after : Context → ℕ
sets_after ctx =
    if is_some (find_pipeline kernel_name ctx.pipelines)
    then max 1 (length ctx.free_buffers)
    else length ctx.free_buffers

-- The kernel is loaded, and Metal gives the buffers and the command buffer that it is asked for.
abbrev pub Works : Allocate → (command : Command) → Context → Type 0
Works allocate command ctx =
    Generous allocate × (command ≡ encoding) × (find_pipeline kernel_name ctx.pipelines ≢ none)

module _ (allocate : Allocate) (command : Command) (before : Context) where
  abbrev pub Submitted : List (List ℕ) → Option PendingGpu × Context → Type 0
  Submitted payloads (pending, ctx) = SizedPool ctx × (elim pending [
    | none ↦
        (ctx.last_error ≢ [])
        × (length ctx.free_buffers ≡ sets_after before)
        × (Works allocate command before → ⊥)
    | some p ↦ Computes p payloads × (suc (length ctx.free_buffers) ≡ sets_after before)
  ])

module _ (b : EntropyBufferSet) (payloads : List (List ℕ)) where
  -- The buffers after packing into a set.
  abbrev written : EntropyBufferSet
  written = record b {
    payloads = record {
      buffer = some (put (cells_of b.payloads.buffer) 0 (concat payloads));
      capacity = b.payloads.capacity;
    };
    offsets = record {
      buffer = some (put (cells_of b.offsets.buffer) 0 (offsets_from 0 payloads));
      capacity = b.offsets.capacity;
    };
    lengths = record {
      buffer = some (put (cells_of b.lengths.buffer) 0 (sizes payloads));
      capacity = b.lengths.capacity;
    };
  }

  written-SizedSet :
      SizedSet b → Roomy (total_bytes payloads) (length payloads) b → SizedSet written
  written-SizedSet (sp, so, sl, sr) (hp, ho, hl, hr) = (
    (λ e.
        length-put (cells_of b.payloads.buffer) 0 (concat payloads)
          (omega (arith, hp, length-concat payloads))
        ∙ sp hp.0),
    (λ e.
        length-put (cells_of b.offsets.buffer) 0 (offsets_from 0 payloads)
          (omega (arith, ho, length-offsets_from 0 payloads))
        ∙ so ho.0),
    (λ e.
        length-put (cells_of b.lengths.buffer) 0 (sizes payloads)
          (omega (arith, hl, length-sizes payloads))
        ∙ sl hl.0),
    sr,
  )

  written-Readable :
      total_bytes payloads < 2 ^ 32
      → Readable
          (cells_of written.payloads.buffer)
          (cells_of written.offsets.buffer)
          (cells_of written.lengths.buffer)
          payloads
          0
  written-Readable small =
      laid-Readable (cells_of written.payloads.buffer) (cells_of written.offsets.buffer)
        (cells_of written.lengths.buffer) payloads [] _ [] _ [] _ 0 refl refl refl refl refl
        (omega arith)

  committed-Submitted :
      (allocate : Allocate) (command : Command) (before : Context) (threads : ℕ) (ctx : Context)
      → Encodes command
      → SizedSet written
      → Readable
          (cells_of written.payloads.buffer)
          (cells_of written.offsets.buffer)
          (cells_of written.lengths.buffer)
          payloads
          0
      → length payloads ≤ length (cells_of b.results.buffer)
      → SizedPool ctx
      → suc (length ctx.free_buffers) ≡ sets_after before
      → Returns
          (Submitted allocate command before payloads)
          (committed command threads (length payloads) written ctx)
  unfolding committed return_buffers set_error
  committed-Submitted allocate encoding before threads ctx encodes sized readable roomy pool sets =
      (pool, ((sized, (refl, readable, roomy)), sets))
  committed-Submitted allocate no_encoder before threads ctx encodes sized readable roomy pool
        sets =
      encodes refl
  committed-Submitted allocate no_buffer before threads ctx encodes sized readable roomy pool sets =
      ((sized, pool), ((λ e. cc), sets, (λ w. cc)))

  submit_reserved-Submitted :
      (allocate : Allocate) (command : Command) (before : Context) (p : Pipeline) (ctx : Context)
      → Encodes command
      → SizedSet b
      → Roomy (total_bytes payloads) (length payloads) b
      → total_bytes payloads < 2 ^ 32
      → SizedPool ctx
      → suc (length ctx.free_buffers) ≡ sets_after before
      → Returns
          (Submitted allocate command before payloads)
          (submit_reserved command p b ctx payloads)
  unfolding submit_reserved
  submit_reserved-Submitted allocate command before p ctx encodes sized roomy small pool sets =
      let unwritten : Packed = record {
        cells = cells_of b.payloads.buffer;
        offsets = cells_of b.offsets.buffer;
        lengths = cells_of b.lengths.buffer;
      } in
      let (hp, ho, hl, hr) = roomy in
      rw
        (pack_from-packed 0 0 unwritten payloads (omega (arith, hp)) (omega (arith, ho))
          (omega (arith, hl)))
        (committed-Submitted allocate command before (group_threads p) ctx encodes
          (written-SizedSet sized roomy) (written-Readable small) hr.1 pool sets)

take_buffers-SizedPool :
    (ctx : Context)
    → SizedPool ctx
    → let (b, taken) = take_buffers ctx in
      SizedSet b
      × SizedPool taken
      × (suc (length taken.free_buffers) ≡ max 1 (length ctx.free_buffers))
unfolding take_buffers
take_buffers-SizedPool ctx pool =
    (elim ctx.free_buffers
        as (λ free.
          All SizedSet free
          → free ≡ ctx.free_buffers
          → let (b, taken) = elim free as (λ l. EntropyBufferSet × Context) [
            | [] ↦ (fresh_set, ctx)
            | buffers ∷ rest ↦ (buffers, record ctx { free_buffers = rest })
          ] in
            SizedSet b
            × SizedPool taken
            × (suc (length taken.free_buffers) ≡ max 1 (length free))) [
              | [] ↦ λ h e.
                  ((λ e. cc, λ e. cc, λ e. cc, λ e. cc), pool, omega (arith, ap length (sym e)))
              | b ∷ rest ↦ λ h e. (h.0, h.1, omega arith)
            ])
      pool refl

nothing_to_do : (payloads : List (List ℕ)) → (length payloads == 0) ≡ true → payloads ≡ []
nothing_to_do [] e = refl
nothing_to_do (payload ∷ rest) e = absurd (ground arith)

pipeline_missing :
    (ctx : Context)
    → find_pipeline kernel_name ctx.pipelines ≡ none
    → ((pipeline kernel_name ctx).0 ≡ none)
      × ((pipeline kernel_name ctx).1.last_error ≢ [])
      × ((pipeline kernel_name ctx).1.free_buffers ≡ ctx.free_buffers)
unfolding pipeline set_error
pipeline_missing ctx e = rw (e, pipeline) (refl, (λ f. cc), refl)

pipeline_found :
    (ctx : Context) (p : Pipeline)
    → find_pipeline kernel_name ctx.pipelines ≡ some p
    → ((pipeline kernel_name ctx).0 ≡ some p) × ((pipeline kernel_name ctx).1 ≡ ctx)
unfolding pipeline
pipeline_found ctx p e = rw (e, pipeline) (refl, refl)

-- A submission never writes outside a buffer. Where it gives a dispatch, the payloads and what is asked
-- of the GPU are in its buffers; where it gives none, the error is set. The pool keeps its capacities.
pub submit_payload_entropy-Submitted :
    (allocate : Allocate)
    → Honest allocate
    → (command : Command) → Encodes command
    → (ctx : Context) → SizedPool ctx
    → (payloads : List (List ℕ)) → total_bytes payloads < 2 ^ 32
    → length payloads < 2 ^ 62
    → Returns
        (Submitted allocate command ctx payloads)
        (submit_payload_entropy allocate command ctx payloads)
unfolding submit_payload_entropy set_error return_buffers
submit_payload_entropy-Submitted allocate honest command encodes ctx pool payloads small few =
    elim (Option-cases (find_pipeline kernel_name ctx.pipelines)) [
      | inl e ↦
          let (missing, message, same) = pipeline_missing ctx e in
          rw (missing, Returns)
            (
              subst (All SizedSet) (sym same) pool,
              (message, ap length same ∙ rw e refl, λ w. w.2 e),
            )
      | inr (p, e) ↦
          let (sized, pool', taken) = take_buffers-SizedPool ctx pool in
          let (found, same) = pipeline_found ctx p e in
          let sets : suc (length (take_buffers ctx).1.free_buffers) ≡ sets_after ctx =
            taken ∙ rw e refl in
          let (sized', roomy) =
            reserve-SizedSet allocate honest (total_bytes payloads) (length payloads) (omega arith)
              few (take_buffers ctx).0 sized in
          rw (found, Returns)
            (rw (same, Returns)
              (elim (Bool-cases (length payloads == 0)) [
                | inl none_left ↦
                    rw (none_left, Returns)
                      (pool', ((sized, nothing_to_do payloads none_left), sets))
                | inr some_left ↦
                    rw (some_left, Returns)
                      (elim (Bool-cases
                        (reserve allocate (total_bytes payloads) (length payloads)
                          (take_buffers ctx).0).0) [
                            | inl enough ↦
                                rw (enough, Returns)
                                  (submit_reserved-Submitted
                                    (reserve allocate (total_bytes payloads) (length payloads)
                                      (take_buffers ctx).0).1
                                    payloads allocate command ctx p (take_buffers ctx).1 encodes
                                    sized' (roomy enough) small pool' sets)
                            | inr scarce ↦
                                rw (scarce, Returns)
                                  (
                                    (sized', pool'),
                                    (
                                      (λ f. cc),
                                      sets,
                                      λ w.
                                          let plenty =
                                            reserve-Generous allocate w.0 (total_bytes payloads)
                                              (length payloads) (take_buffers ctx).0 in
                                          cc,
                                    ),
                                  )
                          ])
              ]))
    ]
