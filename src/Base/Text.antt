-- ===== src/Base/Text.antt =====
-- Texts as lists of bytes: literals, decimal printing, and a bounded buffer.
use Prim.Native.Char.{code}
use Prim.Native.Nat.{ℕ, zero, suc, ◌+◌, ◌-◌, ◌/◌, ◌%◌}
use Prim.Native.String.{String}
use mathlib.Core.List.{List, [], ◌∷◌, ◌++◌}
use mathlib.Core.Bool.{Bool, true, false, ◌&&◌}
use mathlib.Core.Path.{◌≡◌, refl, sym, ap, subst, ◌∙◌}
use native.Mathlib.Omega.{arith}
use net_sentinel.Base.Tests.{ltb, ◌==◌, if◌then◌else◌}
use net_sentinel.Base.Lists.{take}
use net_sentinel.Base.Int.{ℤ, pos, negsuc}

-- The bytes of an ASCII literal.
abbrev pub codes : String → List ℕ
codes String.[] = []
codes (String.◌∷◌ c s) = code c ∷ codes s

-- `%u`, `%llu` and `%zu`: the decimal digits, on fuel that 20 digits never exhaust below 10 ^ 20.
unfoldable pub decimal_fuel : ℕ → ℕ → List ℕ
decimal_fuel zero n = []
decimal_fuel (suc f) n =
    let front = decimal_fuel f (n / 10) in (if ltb n 10 then [] else front) ++ (b'0' + n % 10) ∷ []

unfoldable pub decimal : ℕ → List ℕ
unfolding decimal_fuel
decimal n = decimal_fuel 20 n

-- `%lld`.
unfoldable pub decimal_int : ℤ → List ℕ
unfolding decimal
decimal_int (pos n) = decimal n
decimal_int (negsuc n) = b'-' ∷ decimal (suc n)

-- The pieces of a formatted line.
unfoldable pub concat : List (List ℕ) → List ℕ
concat [] = []
concat (piece ∷ pieces) = piece ++ concat pieces

-- `snprintf` into a buffer keeps one byte less than the buffer's size.
abbrev pub snprintf : ℕ → List ℕ → List ℕ
snprintf size text = take (size - 1) text

-- Equality of `std::string`, and of `strcmp`.
unfoldable pub same_text : List ℕ → List ℕ → Bool
same_text [] [] = true
same_text [] (c ∷ t) = false
same_text (c ∷ s) [] = false
same_text (c ∷ s) (d ∷ t) = c == d && same_text s t

pub same_text_refl : (s : List ℕ) → same_text s s ≡ true
unfolding same_text
same_text_refl [] = refl
same_text_refl (c ∷ s) = ground (arith, same_text_refl s)

pub same_text_eq : (s t : List ℕ) → same_text s t ≡ true → s ≡ t
unfolding same_text
same_text_eq [] [] e = refl
same_text_eq [] (c ∷ t) e = cc
same_text_eq (c ∷ s) [] e = cc
same_text_eq (c ∷ s) (d ∷ t) e = ground (arith, same_text_eq s t)

pub same_text_left : (s t q : List ℕ) → same_text s t ≡ true → same_text s q ≡ same_text t q
same_text_left s t q e = ap (λ u. same_text u q) (same_text_eq s t e)

pub same_text_joined :
    (s t q : List ℕ) → same_text s q ≡ true → same_text t q ≡ true → same_text s t ≡ true
same_text_joined s t q e f =
    subst (λ u. same_text s u ≡ true) (same_text_eq s q e ∙ sym (same_text_eq t q f))
      (same_text_refl s)
