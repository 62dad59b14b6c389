-- ===== src/CommandLine/Decimals.antt =====
-- Numbers in decimal, read back by `parse_nonnegative`.
use net_sentinel.Base.{
  ℕ, zero, suc, ◌≡◌, ◌≢◌, refl, ◌∙◌, ◌+◌, ◌-◌, ◌*◌, ◌/◌, ◌%◌, ◌^◌, ◌≤◌, ◌<◌, ltb, some, List, [],
  ◌∷◌, ◌++◌, All, All-append, arith, Bool-cases, inl, inr,
}
use net_sentinel.Base.Text.{decimal, decimal_fuel}
use net_sentinel.CommandLine.{parse_nonnegative}
use net_sentinel.CommandLine.Numbers.{value_from, IsDigit, parse_nonnegative-Written}

-- A last digit behind others.
value_from_last :
    (value : ℕ) (digits : List ℕ) (d : ℕ)
    → value_from value (digits ++ (d ∷ [])) ≡ value_from value digits * 10 + (d - b'0')
value_from_last value [] d = refl
value_from_last value (c ∷ digits) d = value_from_last (value * 10 + (c - b'0')) digits d

no_text : (front : List ℕ) (d : ℕ) → front ++ (d ∷ []) ≢ []
no_text [] d = λ e. cc
no_text (c ∷ front) d = λ e. cc

abbrev Prints : ℕ → List ℕ → Type 0
Prints n text = All IsDigit text × (value_from 0 text ≡ n) × (text ≢ [])

Prints-last :
    (n : ℕ) (front : List ℕ)
    → All IsDigit front
    → value_from 0 front ≡ n / 10
    → Prints n (front ++ ((b'0' + n % 10) ∷ []))
Prints-last n front h e =
    let small : n % 10 < 10 = omega arith in
    (
      All-append IsDigit front ((b'0' + n % 10) ∷ []) h (ground (arith, small), tt),
      value_from_last 0 front (b'0' + n % 10) ∙ omega (arith, e),
      no_text front (b'0' + n % 10),
    )

decimal_fuel-Prints : (fuel n : ℕ) → n < 10 ^ suc fuel → Prints n (decimal_fuel (suc fuel) n)
unfolding decimal_fuel
decimal_fuel-Prints zero n h = elim (Bool-cases (ltb n 10)) [
  | inl e ↦ rw e (Prints-last n [] tt (ground (arith, e)))
  | inr e ↦ absurd (ground (arith, e, h))
]
decimal_fuel-Prints (suc fuel) n h = elim (Bool-cases (ltb n 10)) [
  | inl e ↦ rw e (Prints-last n [] tt (ground (arith, e)))
  | inr e ↦
      let (digits, value, some_) = decimal_fuel-Prints fuel (n / 10) (omega arith) in
      rw e (Prints-last n (decimal_fuel (suc fuel) (n / 10)) digits value)
]

-- A number that is printed is read back.
pub parse_nonnegative-decimal :
    (n max_value : ℕ)
    → n ≤ max_value
    → max_value < 2 ^ 63
    → parse_nonnegative (decimal n) max_value ≡ some n
unfolding decimal
parse_nonnegative-decimal n max_value fits small =
    let (digits, value, some_) = decimal_fuel-Prints 19 n (omega arith) in
    (parse_nonnegative-Written (decimal n) max_value n small).1 (
      fits,
      inl (record {
        spaces = [];
        sign = [];
        digits = decimal n;
        whole = refl;
        are_spaces = tt;
        is_sign = inl (refl, refl);
        are_digits = digits;
        some_digit = some_;
        has_value = value;
      }),
    )
