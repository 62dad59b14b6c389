-- ===== src/Bench/Rules/Vectors.antt =====
-- The batches of a vector, and the weight of its packets.
use mathlib.Core.Path.{ap₂}
use native.Mathlib.Nat.{mul-le-mul_right}
use net_sentinel.Base.{
  ℕ, zero, suc, ◌+◌, ◌*◌, ◌≡◌, ◌<◌, ◌≤◌, refl, ap, ◌∙◌, arith, ltb, ◌∷◌, some, get_elem?, sum_of,
  Bool-cases, inl, inr, All, map, List, [],
}
use net_sentinel.Packet.{QueuedPacket}
use net_sentinel.Bench.Rules.{packets_from, resized}

-- The batches of one size do not overlap.
pub batches_apart : (s b c k : ℕ) → b * s ≤ k → k < b * s + s → c * s ≤ k → k < c * s + s → b ≡ c
batches_apart s b c k lb ub lc uc = elim (Bool-cases (ltb b c)) [
  | inl e ↦
      let less : suc b ≤ c = ground (arith, e) in
      absurd (omega (arith, mul-le-mul_right s less, ub, lc))
  | inr e ↦ elim (Bool-cases (ltb c b)) [
    | inl f ↦
        let less : suc c ≤ b = ground (arith, f) in
        absurd (omega (arith, mul-le-mul_right s less, uc, lb))
    | inr f ↦ ground (arith, e, f)
  ]
]

-- The packets up to an index, by their weight.
module _ (weight : QueuedPacket → ℕ) (packets : ℕ → QueuedPacket) where
  abbrev pub weight_below : ℕ → ℕ
  weight_below zero = 0
  weight_below (suc n) = weight_below n + weight (packets n)

  pub weight_below-packets_from :
      (size batch_size first n : ℕ)
      → weight_below (first + n)
        ≡ weight_below first + sum_of weight (packets_from size batch_size packets first n)
  unfolding packets_from
  weight_below-packets_from size batch_size first zero = omega (arith, ap weight_below plus_zero)
    where
      plus_zero : first + 0 ≡ first
      plus_zero = omega arith
  weight_below-packets_from size batch_size first (suc n) =
      let later : first + suc n ≡ suc first + n = omega arith in
      omega (arith, ap weight_below later, weight_below-packets_from size batch_size (suc first) n)

pub get_elem?-packets_from :
    (size batch_size : ℕ) (packets : ℕ → QueuedPacket) (first n i : ℕ)
    → i < n
    → get_elem? (packets_from size batch_size packets first n) i ≡ some (packets (first + i))
unfolding packets_from
get_elem?-packets_from size batch_size packets first zero i h = absurd (omega (arith, h))
get_elem?-packets_from size batch_size packets first (suc n) zero h =
    ap (λ (k : ℕ). some (packets k)) (omega arith)
get_elem?-packets_from size batch_size packets first (suc n) (suc i) h =
    get_elem?-packets_from size batch_size packets (suc first) n i (omega (arith, h))
    ∙ ap (λ (k : ℕ). some (packets k)) (omega arith)

-- Packets without payloads.
pub packets_from_empty :
    (size batch_size : ℕ) (f : ℕ → QueuedPacket) (first n : ℕ)
    → ((k : ℕ) → first ≤ k → k < first + n → (f k).payload ≡ [])
    → All
        (λ (payload : List ℕ). payload ≡ [])
        (map (λ (packet : QueuedPacket). packet.payload) (packets_from size batch_size f first n))
unfolding packets_from
packets_from_empty size batch_size f first zero h = tt
packets_from_empty size batch_size f first (suc n) h = (
  h first (omega arith) (omega arith),
  packets_from_empty size batch_size f (suc first) n
      (λ k l u. h k (omega (arith, l)) (omega (arith, u))),
)

pub resized_empty :
    (size batch_size : ℕ) (buffer : List (List ℕ)) (j : ℕ)
    → All (λ (payload : List ℕ). payload ≡ []) buffer
    → resized size batch_size buffer j ≡ []
resized_empty size batch_size [] j h = refl
resized_empty size batch_size (payload ∷ buffer) zero h = h.0
resized_empty size batch_size (payload ∷ buffer) (suc j) h =
    resized_empty size batch_size buffer j h.1

pub packets_from-same :
    (size batch_size : ℕ) (f g : ℕ → QueuedPacket) (first n : ℕ)
    → ((k : ℕ) → first ≤ k → k < first + n → f k ≡ g k)
    → packets_from size batch_size f first n ≡ packets_from size batch_size g first n
unfolding packets_from
packets_from-same size batch_size f g first zero h = refl
packets_from-same size batch_size f g first (suc n) h =
    ap₂ ◌∷◌ (h first (omega arith) (omega arith)) (
      packets_from-same size batch_size f g (suc first) n
        (λ k l u. h k (omega (arith, l)) (omega (arith, u))))
