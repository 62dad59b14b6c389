-- ===== src/Signature/Hash.antt =====
-- The steps of FNV-1a as functions of 64-bit words, and its collisions.
use Prim.Native.Nat.{bit_xor}
use net_sentinel.Base.{
  ℕ, ◌*◌, ◌%◌, ◌^◌, ◌<◌, ◌≡◌, refl, sym, ◌∙◌, ◌≢◌, List, [], ◌∷◌, ◌++◌, arith, All,
}
use net_sentinel.Base.Xor.{bit_xor-lt, bit_xor-injective_left, bit_xor-injective_right}
use net_sentinel.Signature.{fnv1a_from, fnv1a_hash, k_fnv_offset_basis, k_fnv_prime}

-- The inverse of the prime modulo 2 ^ 64.
abbrev inverse : ℕ
inverse = 14886173955864302971

-- Multiplying by the prime loses nothing modulo 2 ^ 64.
prime-injective :
    (a b : ℕ)
    → a < 2 ^ 64
    → b < 2 ^ 64
    → a * k_fnv_prime % 2 ^ 64 ≡ b * k_fnv_prime % 2 ^ 64
    → a ≡ b
prime-injective a b ha hb e = omega arith

step-injective_left :
    (a b byte : ℕ)
    → a < 2 ^ 64
    → b < 2 ^ 64
    → byte < 2 ^ 8
    → bit_xor a byte * k_fnv_prime % 2 ^ 64 ≡ bit_xor b byte * k_fnv_prime % 2 ^ 64
    → a ≡ b
step-injective_left a b byte ha hb small e = bit_xor-injective_left 64 a b byte ha hb (
    prime-injective (bit_xor a byte) (bit_xor b byte) (bit_xor-lt 64 a byte ha (omega arith))
      (bit_xor-lt 64 b byte hb (omega arith)) e)

step-injective_right :
    (hash a b : ℕ)
    → hash < 2 ^ 64
    → a < 2 ^ 8
    → b < 2 ^ 8
    → bit_xor hash a * k_fnv_prime % 2 ^ 64 ≡ bit_xor hash b * k_fnv_prime % 2 ^ 64
    → a ≡ b
step-injective_right hash a b h ha hb e = bit_xor-injective_right 8 hash a b ha hb (
    prime-injective (bit_xor hash a) (bit_xor hash b) (bit_xor-lt 64 hash a h (omega arith))
      (bit_xor-lt 64 hash b h (omega arith)) e)

fnv1a_from-lt : (hash : ℕ) (bytes : List ℕ) → hash < 2 ^ 64 → fnv1a_from hash bytes < 2 ^ 64
unfolding fnv1a_from
fnv1a_from-lt hash [] h = h
fnv1a_from-lt hash (byte ∷ bytes) h =
    fnv1a_from-lt (bit_xor hash byte * k_fnv_prime % 2 ^ 64) bytes (omega arith)

fnv1a_from-append :
    (hash : ℕ) (xs ys : List ℕ) → fnv1a_from hash (xs ++ ys) ≡ fnv1a_from (fnv1a_from hash xs) ys
unfolding fnv1a_from
fnv1a_from-append hash [] ys = refl
fnv1a_from-append hash (x ∷ xs) ys = fnv1a_from-append (bit_xor hash x * k_fnv_prime % 2 ^ 64) xs ys

-- Different hashes stay different over the same bytes.
fnv1a_from-injective :
    (a b : ℕ) (bytes : List ℕ)
    → a < 2 ^ 64
    → b < 2 ^ 64
    → All (λ byte. byte < 2 ^ 8) bytes
    → fnv1a_from a bytes ≡ fnv1a_from b bytes
    → a ≡ b
unfolding fnv1a_from
fnv1a_from-injective a b [] ha hb are_bytes e = e
fnv1a_from-injective a b (byte ∷ bytes) ha hb are_bytes e =
    step-injective_left a b byte ha hb are_bytes.0 (
      fnv1a_from-injective (bit_xor a byte * k_fnv_prime % 2 ^ 64)
        (bit_xor b byte * k_fnv_prime % 2 ^ 64) bytes (omega arith) (omega arith) are_bytes.1 e)

-- FNV-1a tells apart any two payloads of bytes that differ at exactly one place: `before`, then `a`
-- or `b`, then `after`.
pub fnv1a_hash-changed_byte :
    (before after : List ℕ) (a b : ℕ)
    → a < 2 ^ 8
    → b < 2 ^ 8
    → All (λ byte. byte < 2 ^ 8) after
    → a ≢ b
    → fnv1a_hash (before ++ a ∷ after) ≢ fnv1a_hash (before ++ b ∷ after)
unfolding fnv1a_hash
fnv1a_hash-changed_byte before after a b ha hb are_bytes apart e =
    let hash = fnv1a_from k_fnv_offset_basis before in
    apart (
      step-injective_right hash a b (fnv1a_from-lt k_fnv_offset_basis before (omega arith)) ha hb (
        fnv1a_from-injective (bit_xor hash a * k_fnv_prime % 2 ^ 64)
          (bit_xor hash b * k_fnv_prime % 2 ^ 64) after (omega arith) (omega arith) are_bytes
          (sym (fnv1a_from-append k_fnv_offset_basis before (a ∷ after))
            ∙ e
            ∙ fnv1a_from-append k_fnv_offset_basis before (b ∷ after))))
