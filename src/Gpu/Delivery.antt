-- ===== src/Gpu/Delivery.antt =====
-- What a dispatch gives for its payloads, and the pool that it leaves.
use net_sentinel.Base.{
  ℕ, ◌≡◌, ◌≢◌, refl, ◌^◌, ◌<◌, Option, none, some, List, [], length, map, arith, Option-cases,
  Bool-cases, inl, inr,
}
use net_sentinel.Parser.{Read, ok, ◌>>=◌}
use net_sentinel.Parser.Safety.{Returns, Returns-bind}
use net_sentinel.Gpu.{Allocate, Context, return_buffers, set_error, NsError}
use net_sentinel.Gpu.Buffers.{Honest}
use net_sentinel.Gpu.Results.{read_results-Readable}
use net_sentinel.Gpu.Dispatch.{
  Command, Encodes, PendingGpu, total_bytes, submit_payload_entropy, read_results, wait, destroy,
  finish,
}
use net_sentinel.Gpu.Submission.{
  SizedPool, sets_after, Works, Submitted, submit_payload_entropy-Submitted,
}

module _ {Float : Type 0} (kernel : List ℕ → Float) (allocate : Allocate) (command : Command)
    (failed : Option NsError) (before : Context) (payloads : List (List ℕ)) where
  -- The pooled buffers have the sizes that are noted for them, and the set of the dispatch is back. A
  -- result is the kernel's for each payload, in order; there is one where the kernel is loaded and Metal
  -- fails nowhere; and without one the error is set.
  abbrev pub Finished : Option (List Float) × Context → Type 0
  Finished (result, ctx) =
      SizedPool ctx × (length ctx.free_buffers ≡ sets_after before) × (elim result [
        | none ↦ (ctx.last_error ≢ []) × ((Works allocate command before × (failed ≡ none)) → ⊥)
        | some results ↦ results ≡ map kernel payloads
      ])

  pub finish-Finished :
      (s : Option PendingGpu) (ctx : Context)
      → Submitted allocate command before payloads (s, ctx)
      → Returns Finished (finish kernel failed s ctx)
  unfolding finish wait destroy return_buffers set_error
  finish-Finished none ctx (pool, (message, sets, refused)) =
      (pool, sets, (message, λ w. refused w.0))
  finish-Finished (some p) ctx (pool, ((sized, computes), sets)) = elim (Bool-cases p.command) [
    | inl e ↦
        let (count, readable, roomy) = rw e at computes in
        let results : read_results kernel p.buffers p.count 0 ≡ ok (map kernel payloads) =
          rw count
            (read_results-Readable kernel p.buffers payloads 0 readable (omega (arith, roomy))) in
        elim (Option-cases failed) [
          | inl f ↦
              rw (e, Returns) (rw (f, Returns) (rw (results, Returns) ((sized, pool), sets, refl)))
          | inr (error, f) ↦
              rw (e, Returns)
                (rw (f, Returns) ((sized, pool), sets, ((λ g. cc), λ w. let g = w.1 in cc)))
        ]
    | inr e ↦
        let empty : payloads ≡ [] = rw e at computes in
        rw (e, Returns) (rw empty ((sized, pool), sets, refl))
  ]

  -- From a submission to the end of its dispatch.
  abbrev pub dispatch : Read (Option (List Float) × Context)
  dispatch = do
    submitted ← submit_payload_entropy allocate command before payloads
    finish kernel failed submitted.0 submitted.1

  pub dispatch-Finished :
      Honest allocate
      → Encodes command
      → SizedPool before
      → total_bytes payloads < 2 ^ 32
      → length payloads < 2 ^ 62
      → Returns Finished dispatch
  dispatch-Finished honest encodes pool small few =
      Returns-bind (Submitted allocate command before payloads) Finished
        (submit_payload_entropy allocate command before payloads)
        (λ s. finish kernel failed s.0 s.1)
        (submit_payload_entropy-Submitted allocate honest command encodes before pool payloads small
          few)
        (λ s h. finish-Finished s.0 s.1 h)
