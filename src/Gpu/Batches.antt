-- ===== src/Gpu/Batches.antt =====
-- `PayloadBatch` and `run_payload_entropy`.
use net_sentinel.Base.{
  ℕ, ◌≡◌, refl, sym, ap, ◌∙◌, ◌+◌, ◌^◌, ◌<◌, Option, List, [], ◌∷◌, ◌++◌, length, arith,
  length-append,
}
use mathlib.Core.List.{append-nil, append_assoc}
use net_sentinel.Parser.{ok}
use net_sentinel.Parser.Safety.{Returns}
use net_sentinel.Gpu.{Allocate, Context, NsError}
use net_sentinel.Gpu.Buffers.{Honest}
use net_sentinel.Gpu.Packing.{length-offsets_from, concat, offsets_from, sizes}
use net_sentinel.Gpu.Results.{laid-Readable, spans-Readable}
use net_sentinel.Gpu.Submission.{SizedPool}
use net_sentinel.Gpu.Delivery.{Finished, dispatch-Finished}
use net_sentinel.Gpu.Dispatch.{
  Command, Encodes, PayloadBatch, no_payloads, add_payload, total_bytes, spans, run_payload_entropy,
}

-- Payloads added one after the other.
abbrev pub add_all : PayloadBatch → List (List ℕ) → PayloadBatch
add_all batch [] = batch
add_all batch (payload ∷ rest) = add_all (add_payload payload batch) rest

add_payload-bytes :
    (payload : List ℕ) (batch : PayloadBatch)
    → (add_payload payload batch).bytes ≡ batch.bytes ++ payload
unfolding add_payload
add_payload-bytes [] batch = sym (append-nil batch.bytes)
add_payload-bytes (b ∷ payload) batch = ground arith

add_all-fields :
    (payloads : List (List ℕ)) (batch : PayloadBatch)
    → ((add_all batch payloads).bytes ≡ batch.bytes ++ concat payloads)
      × ((add_all batch payloads).offsets
          ≡ batch.offsets ++ offsets_from (length batch.bytes) payloads)
      × ((add_all batch payloads).lengths ≡ batch.lengths ++ sizes payloads)
unfolding add_payload
add_all-fields [] batch = (sym (append-nil _), sym (append-nil _), sym (append-nil _))
add_all-fields (payload ∷ rest) batch =
    let (b, o, l) = add_all-fields rest (add_payload payload batch) in
    let bytes = add_payload-bytes payload batch in
    let size : length (add_payload payload batch).bytes ≡ length batch.bytes + length payload =
      ap length bytes ∙ length-append batch.bytes payload in
    (
      b
          ∙ (ap (λ (x : List ℕ). x ++ concat rest) bytes
              ∙ append_assoc batch.bytes payload (concat rest)),
      o
          ∙ (ap (λ (n : ℕ). (add_payload payload batch).offsets ++ offsets_from n rest) size
              ∙ append_assoc batch.offsets _ _),
      l ∙ append_assoc batch.lengths _ _,
    )

length-add_all :
    (payloads : List (List ℕ)) → length (add_all no_payloads payloads).offsets ≡ length payloads
length-add_all payloads =
    ap length (add_all-fields payloads no_payloads).1 ∙ length-offsets_from 0 payloads

-- Payloads of less than 2 ^ 32 bytes together that are added to an empty batch are the batch's spans,
-- each once and in the order of the calls, the empty ones included, and no span reaches out of the
-- batch.
pub spans-add_all :
    (payloads : List (List ℕ))
    → total_bytes payloads < 2 ^ 32
    → let batch = add_all no_payloads payloads in spans batch (length batch.offsets) 0 ≡ ok payloads
spans-add_all payloads small =
    let (b, o, l) = add_all-fields payloads no_payloads in
    rw (length-add_all payloads) (
      spans-Readable (add_all no_payloads payloads) payloads 0 (
        laid-Readable _ _ _ payloads [] [] [] [] [] [] 0 (b ∙ sym (append-nil (concat payloads)))
          (o ∙ sym (append-nil (offsets_from 0 payloads))) (l ∙ sym (append-nil (sizes payloads)))
          refl refl (omega arith)))

-- For a batch of fewer than 2 ^ 62 payloads of less than 2 ^ 32 bytes together, buffers as large as they
-- are asked for, pooled buffers of the sizes that are noted for them, and a command buffer, if there is one,
-- that gives an encoder: no access is outside a buffer, whatever else Metal answers. A result is the kernel's for each payload,
-- in order; there is one where the kernel is loaded and Metal fails nowhere; and without one the error
-- is set. The set of buffers is back in the pool, which has grown only if it was empty, and its
-- buffers have the sizes that are noted for them.
pub run_payload_entropy-Finished :
    {Float : Type 0} (kernel : List ℕ → Float) (allocate : Allocate)
    → Honest allocate
    → (command : Command) → Encodes command
    → (failed : Option NsError) (ctx : Context) → SizedPool ctx
    → (payloads : List (List ℕ)) → total_bytes payloads < 2 ^ 32
    → length payloads < 2 ^ 62
    → Returns
        (Finished kernel allocate command failed ctx payloads)
        (run_payload_entropy kernel allocate command failed ctx (add_all no_payloads payloads))
unfolding run_payload_entropy
run_payload_entropy-Finished kernel allocate honest command encodes failed ctx pool payloads small
      few =
    rw (spans-add_all payloads small, Returns)
      (dispatch-Finished kernel allocate command failed ctx payloads honest encodes pool small few)
