-- ===== src/Gpu/Kernels.antt =====
-- Which kernels a context has, and what a failed load leaves.
use net_sentinel.Base.{
  ℕ, ◌≡◌, refl, ◌&&◌, if◌then◌else◌, some, List, [], ◌∷◌, arith, Option-cases, inl, inr,
}
use net_sentinel.Base.Text.{same_text, same_text_left, same_text_joined}
use net_sentinel.Gpu.{Context, Pipeline, Build, load_kernel, find_pipeline, put_pipeline, set_error}

find-put_pipeline :
    (name : List ℕ) (p : Pipeline) (q : List ℕ) (pipelines : List (List ℕ × Pipeline))
    → find_pipeline q (put_pipeline name p pipelines)
      ≡ (if same_text name q then some p else find_pipeline q pipelines)
unfolding find_pipeline put_pipeline
find-put_pipeline name p q [] = refl
find-put_pipeline name p q ((n, r) ∷ pipelines) = ground (
  arith,
  find-put_pipeline name p q pipelines,
  same_text_left n name q,
  same_text_joined n name q,
)

-- Loading a kernel makes exactly that kernel available if it succeeds and changes no kernel if it
-- fails; it leaves the pool of buffers alone, and the error, unless it fails.
pub load_kernel-find :
    (build : Build) (name : List ℕ) (ctx : Context) (q : List ℕ)
    → let (loaded, next) = load_kernel build name ctx in
      (find_pipeline q next.pipelines
        ≡ (if loaded && same_text name q then build.built else find_pipeline q ctx.pipelines))
      × (next.free_buffers ≡ ctx.free_buffers)
      × ((if loaded then next.last_error else ctx.last_error) ≡ ctx.last_error)
unfolding load_kernel set_error
load_kernel-find build name ctx q = elim (Option-cases build.built) [
  | inl e ↦ ground (arith, e)
  | inr (p, e) ↦ ground (arith, e, find-put_pipeline name p q ctx.pipelines)
]
