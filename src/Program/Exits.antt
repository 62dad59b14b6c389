-- ===== src/Program/Exits.antt =====
-- With which answers the program succeeds.
use net_sentinel.Base.{
  ℕ, ◌≡◌, ◌≢◌, ◌↔◌, refl, sym, subst, ◌∙◌, Bool, true, false, ◌==◌, List, [], ◌∷◌, ◌⊎◌, inl, inr,
  length, arith, Bool-cases,
}
use mathlib.Core.Sum.{inr-injective}
use net_sentinel.Base.Text.{codes}
use net_sentinel.Capture.{
  Capture, Opened, handle_of, refused, ethernet_link, open_live, open_offline, Devices, found,
  failed_with, list_devices,
}
use net_sentinel.CommandLine.Arguments.{Options, Failure, usage, message, Thresholds, read_options}
use net_sentinel.Program.{
  Exit, fail_with, usage_lines, failure_lines, list_only_exit, open_source, open_failed_lines,
  Metal, not_built, available, unavailable, choose_backend, World, capture_exit, backend_exit,
  source_exit, main,
}
use net_sentinel.Program.Summary.{Measures}

-- The program has printed a message for its failure and nothing else, or no message.
abbrev pub Explains : Exit → Type 0
Explains e =
    ((e.success ≡ true) × (e.errors ≡ []))
    ⊎ ((e.success ≡ false) × ((e.output ≡ []) × (e.errors ≢ [])))

-- The exit is a success exactly if the condition holds, and it explains a failure.
abbrev pub ExitsIf : Type 0 → Exit → Type 0
ExitsIf P e = ((e.success ≡ true) ↔ P) × Explains e

succeeds : (P : Type 0) (e : Exit) → e.success ≡ true → e.errors ≡ [] → P → ExitsIf P e
succeeds P e s n p = (((λ _. p), (λ _. s)), inl (s, n))

fails :
    (P : Type 0) (error : List ℕ) (errors : List (List ℕ))
    → ¬ P
    → ExitsIf P (fail_with (error ∷ errors))
fails P error errors n =
    (((λ s. absurd (cc s)), (λ p. absurd (n p))), inr (refl, (refl, λ e. cc e)))

at_exit : (P : Type 0) (e e' : Exit) → e ≡ e' → ExitsIf P e' → ExitsIf P e
at_exit P e e' same h = subst (ExitsIf P) (sym same) h

same_condition : (P Q : Type 0) (e : Exit) → (P → Q) → (Q → P) → ExitsIf P e → ExitsIf Q e
same_condition P Q e f g h = (((λ s. f (h.0.0 s)), (λ q. h.0.1 (g q))), h.1)

-- The devices can be listed; an error without a text counts as none.
abbrev pub CanList : Devices → Type 0
CanList (found names) = Unit
CanList (failed_with errbuf) = length errbuf ≡ 0

abbrev pub CanOpen : Opened → Type 0
CanOpen (handle_of link_type) = link_type ≡ ethernet_link
CanOpen (refused errbuf) = ⊥

abbrev pub IsAvailable : Metal → Type 0
IsAvailable (available name) = Unit
IsAvailable _ = ⊥

list_only-ExitsIf : (devices : Devices) → ExitsIf (CanList devices) (list_only_exit devices)
unfolding list_only_exit list_devices
list_only-ExitsIf (found names) = succeeds Unit _ refl refl tt
list_only-ExitsIf (failed_with []) = succeeds (◌≡◌ {A = ℕ} 0 0) _ refl refl refl
list_only-ExitsIf (failed_with (c ∷ errbuf)) = elim (Bool-cases (length (c ∷ errbuf) == 0)) [
  | inl e ↦ absurd (ground (arith, e))
  | inr e ↦ rw (e, ExitsIf) (fails _ _ [] (λ z. absurd (omega (arith, z))))
]

module _ {Double : Type 0} where
  open_source-success :
      (o : Options Double) (answer : Opened)
      → ((open_source o answer).success ≡ true) ↔ CanOpen answer
  unfolding open_source open_live open_offline
  open_source-success o (handle_of link_type) = ground arith
  open_source-success o (refused errbuf) = ground arith

module _ {Double : Type 0} (double : Thresholds Double) (measures : Measures Double) where
  -- What the options ask for can be done.
  abbrev pub CanRun : World Double → Options Double → Type 0
  CanRun world o =
      ((o.list_only ≡ true) × CanList world.devices)
      ⊎ ((o.list_only ≡ false)
          × (CanOpen world.opened × (o.use_gpu ≡ true → IsAvailable world.metal)))

  chosen :
      (use_gpu : Bool) (metal : Metal)
      → ((error : List ℕ) × ((choose_backend use_gpu metal ≡ inl error)
            × ¬ (use_gpu ≡ true → IsAvailable metal)))
        ⊎ ((name : List ℕ) × ((choose_backend use_gpu metal ≡ inr name)
              × (use_gpu ≡ true → IsAvailable metal)))
  unfolding choose_backend
  chosen false metal = inr (codes "cpu", (refl, λ e. absurd (cc e)))
  chosen true (available name) = inr (name, (refl, λ e. tt))
  chosen true (unavailable error) = inl (_, (refl, λ h. h refl))
  chosen true not_built = inl (_, (refl, λ h. h refl))

  backend-ExitsIf :
      (world : World Double) (o : Options Double) (capture : Capture)
      → ExitsIf
          (o.use_gpu ≡ true → IsAvailable world.metal)
          (backend_exit double measures world o capture)
  unfolding backend_exit capture_exit
  backend-ExitsIf world o capture = elim (chosen o.use_gpu world.metal) [
    | inl (error, (e, n)) ↦ at_exit _ _ _ (rw (e, backend_exit) refl) (fails _ error [] n)
    | inr (name, (e, p)) ↦
        at_exit _ _ (capture_exit double measures world o capture name) (rw (e, backend_exit) refl)
          (succeeds _ _ refl refl p)
  ]

  source-ExitsIf :
      (world : World Double) (o : Options Double)
      → ExitsIf
          (CanOpen world.opened × (o.use_gpu ≡ true → IsAvailable world.metal))
          (source_exit double measures world o)
  unfolding source_exit open_failed_lines
  source-ExitsIf world o =
      let source = open_source o world.opened in
      let can = open_source-success o world.opened in
      elim (Bool-cases source.success) [
        | inl e ↦
            let b = backend-ExitsIf world o source.capture in
            at_exit _ _ (backend_exit double measures world o source.capture)
              (rw (e, source_exit) refl) (same_condition _ _ _ (λ p. (can.0 e, p)) (λ p. p.1) b)
        | inr e ↦
            at_exit _ _ (fail_with (open_failed_lines o source.error)) (rw (e, source_exit) refl)
              (fails _ _ _ (λ p. absurd (let yes = can.1 p.0 in cc)))
      ]

  main-at :
      (world : World Double) (argv0 : List ℕ) (args : List (List ℕ)) (r : Failure ⊎ Options Double)
      → read_options double world.cores args ≡ r
      → ExitsIf
          ((o : Options Double) × ((read_options double world.cores args ≡ inr o) × CanRun world o))
          (main double measures world argv0 args)
  unfolding main failure_lines usage_lines
  main-at world argv0 args (inl usage) e =
      at_exit _ _ (fail_with (usage_lines argv0)) (rw (e, main) refl)
        (fails _ _ _ (λ p. absurd (let q = p.1.0 in cc)))
  main-at world argv0 args (inl (message text)) e =
      at_exit _ _ (fail_with (text ∷ [])) (rw (e, main) refl)
        (fails _ _ _ (λ p. absurd (let q = p.1.0 in cc)))
  main-at world argv0 args (inr o) e =
      same_condition (CanRun world o) _ _ (λ c. (o, (e, c)))
        (λ p. subst (CanRun world) (inr-injective p.0 o (sym p.1.0 ∙ e)) p.1.1)
        (elim (Bool-cases o.list_only) [
          | inl l ↦ at_exit _ _ (list_only_exit world.devices) (rw (e, main) (rw l refl)) (
              same_condition _ _ _ (λ c. inl (l, c))
                (λ c. elim c [ inl d ↦ d.1 | inr d ↦ absurd (let z = d.0 in cc) ])
                (list_only-ExitsIf world.devices))
          | inr l ↦ at_exit _ _ (source_exit double measures world o) (rw (e, main) (rw l refl)) (
              same_condition _ _ _ (λ c. inr (l, c))
                (λ c. elim c [ inl d ↦ absurd (let z = d.0 in cc) | inr d ↦ d.1 ])
                (source-ExitsIf world o))
        ])

  -- The program exits with success exactly if its arguments are accepted and what they ask for can be done: for
  -- `-l`, the devices can be listed; else, libpcap opens the source with the Ethernet link type and, for `-g`,
  -- the build has Metal and a GPU. If it fails, it has printed a message, and nothing on standard output.
  pub main-ExitsIf :
      (world : World Double) (argv0 : List ℕ) (args : List (List ℕ))
      → ExitsIf
          ((o : Options Double) × ((read_options double world.cores args ≡ inr o) × CanRun world o))
          (main double measures world argv0 args)
  main-ExitsIf world argv0 args =
      main-at world argv0 args (read_options double world.cores args) refl
