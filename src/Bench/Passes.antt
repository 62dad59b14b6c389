-- ===== src/Bench/Passes.antt =====
-- src/bench/bench_entropy.cpp: one pass of a backend over the packets, in batches, and the largest difference of
-- its results from the CPU's. The timing around the passes is left out. The operations of `double` are
-- an argument.
use net_sentinel.Base.{
  ℕ, zero, suc, ◌*◌, ◌≡◌, ◌<◌, ◌≤◌, refl, ap, ◌∙◌, arith, min, ◌==◌, if◌then◌else◌, Option, none,
  some, List, [], ◌∷◌, ◌++◌, length, take, drop, map, length-map, length-drop, take-append-drop,
  Bool-cases, inl, inr,
}
use net_sentinel.Packet.{QueuedPacket}
use net_sentinel.Entropy.{Doubles}
use net_sentinel.Engine.{EntropyBackend, compute, cpu_backend, packet_entropy}

abbrev pub max_packets : ℕ
max_packets = 65536

abbrev pub max_batches_per_run : ℕ
max_batches_per_run = 512

-- How many packets are measured with a batch size.
unfoldable pub measured_count : (batch : ℕ) → ℕ
measured_count batch = min max_packets (batch * max_batches_per_run)

module _ {Double : Type 0} where
  -- The results of the batches after another; `none` where a batch fails and the program exits. The loop
  -- steps over the packets, which are enough fuel.
  unfoldable pub pass_from :
      EntropyBackend Double → (fuel batch_size : ℕ) → List QueuedPacket → Option (List Double)
  pass_from backend zero batch_size packets = some []
  pass_from backend (suc fuel) batch_size packets =
      let rest = pass_from backend fuel batch_size (drop batch_size packets) in
      if length packets == 0 then some [] else elim (compute backend (take batch_size packets)) [
        | none ↦ none
        | some out ↦ elim rest [ none ↦ none | some results ↦ some (out ++ results) ]
      ]

  unfoldable pub one_pass :
      EntropyBackend Double → (batch_size : ℕ) → List QueuedPacket → Option (List Double)
  unfolding pass_from
  one_pass backend batch_size packets = pass_from backend (length packets) batch_size packets

  -- `std::max` and `std::fabs` of the difference.
  unfoldable pub max_error_from :
      (larger difference : Double → Double → Double)
      → (so_far : Double) → (results cpu_results : List Double) → Double
  max_error_from larger difference so_far [] cpu_results = so_far
  max_error_from larger difference so_far (r ∷ results) [] = so_far
  max_error_from larger difference so_far (r ∷ results) (c ∷ cpu_results) =
      max_error_from larger difference (larger so_far (difference r c)) results cpu_results

  map_append :
      (f : QueuedPacket → Double) (xs ys : List QueuedPacket)
      → map f xs ++ map f ys ≡ map f (xs ++ ys)
  map_append f [] ys = refl
  map_append f (x ∷ xs) ys = ap (◌∷◌ (f x)) (map_append f xs ys)

  pass_from-map :
      (backend : EntropyBackend Double) (f : QueuedPacket → Double) (fuel batch_size : ℕ)
      (packets : List QueuedPacket)
      → ((batch : List QueuedPacket) → compute backend batch ≡ some (map f batch))
      → 0 < batch_size
      → length packets ≤ fuel
      → pass_from backend fuel batch_size packets ≡ some (map f packets)
  unfolding pass_from
  pass_from-map backend f zero batch_size [] right pos enough = refl
  pass_from-map backend f zero batch_size (p ∷ packets) right pos enough =
      absurd (omega (arith, enough))
  pass_from-map backend f (suc fuel) batch_size packets right pos enough =
      elim (Bool-cases (length packets == 0)) [
        | inl e ↦ rw e (nothing packets (ground (arith, e)))
        | inr e ↦
            let rest =
              pass_from-map backend f fuel batch_size (drop batch_size packets) right pos
                (ground (arith, e, enough, pos, length-drop batch_size packets)) in
            rw e (
              rw (right (take batch_size packets), pass_from)
                (rw (rest, pass_from)
                  (ap some (
                    map_append f (take batch_size packets) (drop batch_size packets)
                    ∙ ap (map f) (take-append-drop batch_size packets)))))
      ]
    where
      nothing : (l : List QueuedPacket) → length l ≡ 0 → some [] ≡ some (map f l)
      nothing [] e = refl
      nothing (p ∷ l) e = absurd (omega (arith, e))

  max_error-same :
      (larger difference : Double → Double → Double) (none_ : Double) (results : List Double)
      → ((x : Double) → difference x x ≡ none_)
      → larger none_ none_ ≡ none_
      → max_error_from larger difference none_ results results ≡ none_
  unfolding max_error_from
  max_error-same larger difference none_ [] same top = refl
  max_error-same larger difference none_ (r ∷ results) same top =
      ap (λ (x : Double). max_error_from larger difference x results results)
        (ap (larger none_) (same r) ∙ top)
      ∙ max_error-same larger difference none_ results same top

  -- A backend that gives each batch's packets their entropies in order gives a pass over all packets the same
  -- results as the CPU, in batches of any positive sizes, and then the largest difference is 0, if a number
  -- differs from itself by 0 and 0 is the larger of 0 and 0.
  pub one_pass-same :
      (double : Doubles Double) (backend : EntropyBackend Double) (batch_size cpu_batch_size : ℕ)
      (packets : List QueuedPacket) (larger difference : Double → Double → Double)
      → ((batch : List QueuedPacket)
          → compute backend batch ≡ some (map (packet_entropy double) batch))
      → 0 < batch_size
      → 0 < cpu_batch_size
      → ((x : Double) → difference x x ≡ double.zero)
      → larger double.zero double.zero ≡ double.zero
      → (results : List Double) × ((one_pass backend batch_size packets ≡ some results)
          × ((one_pass (cpu_backend double) cpu_batch_size packets ≡ some results)
              × ((length results ≡ length packets)
                  × (max_error_from larger difference double.zero results results ≡ double.zero))))
  unfolding one_pass compute cpu_backend
  one_pass-same double backend batch_size cpu_batch_size packets larger difference right pos cpu_pos
        same top =
      let results = map (packet_entropy double) packets in
      (
        results,
        (
          pass_from-map backend (packet_entropy double) (length packets) batch_size packets right
              pos (omega arith),
          (
            pass_from-map (cpu_backend double) (packet_entropy double) (length packets)
                cpu_batch_size packets (λ batch. refl) cpu_pos (omega arith),
            (
              length-map packets (packet_entropy double),
              max_error-same larger difference double.zero results same top,
            ),
          ),
        ),
      )
