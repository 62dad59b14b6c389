-- ===== src/Base/Xor.antt =====
-- Exclusive or of native numbers, bit by bit.
use Prim.Native.Nat.{
  ℕ, zero, suc, ◌+◌, ◌*◌, ◌/◌, ◌%◌, ◌^◌, ◌≤◌, ◌<◌, bit_xor, differ, digits, bit_xor-bitwise,
}
use mathlib.Core.Path.{◌≡◌, refl, ap, sym, ◌∙◌}
use native.Mathlib.Decide.{dec_le}
use native.Mathlib.Omega.{arith}

abbrev xor_digits : ℕ → ℕ → ℕ → ℕ
xor_digits fuel a b = digits (λ c. c) differ fuel a b

-- One more digit to go changes nothing, once there is one for every digit of the first number.
xor_digits_more : (fuel a b : ℕ) → a ≤ fuel → xor_digits (suc fuel) a b ≡ xor_digits fuel a b
xor_digits_more zero zero b h = refl
xor_digits_more (suc fuel) zero b h = refl
xor_digits_more zero (suc a) b h = absurd (omega arith)
xor_digits_more (suc fuel) (suc a) b h =
    ap (λ high. high * 2 + differ (suc a % 2) (b % 2))
      (xor_digits_more fuel (suc a / 2) (b / 2) (omega arith))

xor_digits_enough : (fuel a b : ℕ) → a ≤ fuel → xor_digits fuel a b ≡ xor_digits a a b
xor_digits_enough zero a b h = let e : 0 ≡ a = omega arith in ap (λ f. xor_digits f a b) e
xor_digits_enough (suc fuel) a b h = elim (dec_le a fuel) [
  | yes le ↦ xor_digits_more fuel a b le ∙ xor_digits_enough fuel a b le
  | no above ↦ let e : suc fuel ≡ a = omega arith in ap (λ f. xor_digits f a b) e
]

-- On digits it is the sum modulo 2.
differ_digits : (p q : ℕ) → p < 2 → q < 2 → differ p q ≡ (p + q) % 2
differ_digits zero q hp hq = omega arith
differ_digits (suc zero) zero hp hq = refl
differ_digits (suc zero) (suc zero) hp hq = refl
differ_digits (suc zero) (suc (suc q)) hp hq = absurd (omega arith)
differ_digits (suc (suc p)) q hp hq = absurd (omega arith)

bit_xor_step : (a b : ℕ) → bit_xor a b ≡ bit_xor (a / 2) (b / 2) * 2 + differ (a % 2) (b % 2)
bit_xor_step zero b = omega (
  arith,
  bit_xor-bitwise 0 b,
  bit_xor-bitwise 0 (b / 2),
  differ_digits 0 (b % 2) (omega arith) (omega arith),
)
bit_xor_step (suc a) b =
    bit_xor-bitwise (suc a) b
    ∙ ap (λ high. high * 2 + differ (suc a % 2) (b % 2))
        (xor_digits_enough a (suc a / 2) (b / 2) (omega arith)
          ∙ sym (bit_xor-bitwise (suc a / 2) (b / 2)))

bit_xor_digit : (a b : ℕ) → bit_xor a b ≡ bit_xor (a / 2) (b / 2) * 2 + (a % 2 + b % 2) % 2
bit_xor_digit a b =
    bit_xor_step a b
    ∙ ap (λ d. bit_xor (a / 2) (b / 2) * 2 + d)
        (differ_digits (a % 2) (b % 2) (omega arith) (omega arith))

-- Numbers of `k` bits stay so.
pub bit_xor-lt : (k a b : ℕ) → a < 2 ^ k → b < 2 ^ k → bit_xor a b < 2 ^ k
bit_xor-lt zero zero zero ha hb = omega (arith, bit_xor-bitwise 0 0)
bit_xor-lt zero zero (suc b) ha hb = absurd (omega arith)
bit_xor-lt zero (suc a) b ha hb = absurd (omega arith)
bit_xor-lt (suc k) a b ha hb =
    omega (arith, bit_xor_digit a b, bit_xor-lt k (a / 2) (b / 2) (omega arith) (omega arith))

-- It is injective in either argument, whatever the other is.
pub bit_xor-injective_left :
    (k a b c : ℕ) → a < 2 ^ k → b < 2 ^ k → bit_xor a c ≡ bit_xor b c → a ≡ b
bit_xor-injective_left zero a b c ha hb e = omega arith
bit_xor-injective_left (suc k) a b c ha hb e = omega (
  arith,
  bit_xor_digit a c,
  bit_xor_digit b c,
  bit_xor-injective_left k (a / 2) (b / 2) (c / 2) (omega arith) (omega arith)
      (omega (arith, bit_xor_digit a c, bit_xor_digit b c)),
)

pub bit_xor-injective_right :
    (k a c d : ℕ) → c < 2 ^ k → d < 2 ^ k → bit_xor a c ≡ bit_xor a d → c ≡ d
bit_xor-injective_right zero a c d hc hd e = omega arith
bit_xor-injective_right (suc k) a c d hc hd e = omega (
  arith,
  bit_xor_digit a c,
  bit_xor_digit a d,
  bit_xor-injective_right k (a / 2) (c / 2) (d / 2) (omega arith) (omega arith)
      (omega (arith, bit_xor_digit a c, bit_xor_digit a d)),
)
