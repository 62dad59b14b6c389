-- ===== src/CommandLine.antt =====
-- src/main.cpp: the option values and the options of the command line. A text is the list of its bytes
-- before the NUL. `std::strtod` and `double` are parameters; a `long long` that `std::strtoll` reads is
-- its sign and magnitude.
pub mod Numbers
pub mod Decimals
pub mod Arguments
pub mod Options
pub mod Settings
pub mod Rendering
mod Tests
use net_sentinel.Base.{
  ℕ, zero, suc, ◌+◌, ◌-◌, ◌*◌, ◌^◌, Bool, true, false, not, ◌&&◌, ◌||◌, ◌==◌, ltb, leb,
  if◌then◌else◌, Option, none, some, List, [], ◌∷◌, ◌++◌, length,
}

-- `std::isspace` in the "C" locale.
abbrev pub is_space : ℕ → Bool
is_space c = c == 32 || (leb 9 c && leb c 13)

abbrev pub is_digit : ℕ → Bool
is_digit c = leb b'0' c && leb c b'9'

unfoldable pub skip_spaces : List ℕ → List ℕ
skip_spaces [] = []
skip_spaces (c ∷ text) = let rest = skip_spaces text in if is_space c then rest else c ∷ text

-- The sign, and the text behind it.
unfoldable pub take_sign : List ℕ → Bool × List ℕ
take_sign [] = (false, [])
take_sign (c ∷ text) =
    if c == b'-' then (true, text) else if c == b'+' then (false, text) else (false, c ∷ text)

-- The value of the digits in front, with a value before them, and the text behind them.
unfoldable pub take_digits : ℕ → List ℕ → ℕ × List ℕ
take_digits value [] = (value, [])
take_digits value (c ∷ text) =
    let rest = take_digits (value * 10 + (c - b'0')) text in
    if is_digit c then rest else (value, c ∷ text)

-- What `std::strtoll` in base 10 gives: whether `end` has moved, the sign and magnitude, whether `errno`
-- is `ERANGE`, and the text from `end` on, where it has moved.
pub record Long : Type 0 where
  pub any : Bool
  pub negative : Bool
  pub magnitude : ℕ
  pub out_of_range : Bool
  pub rest : List ℕ

abbrev pub starts_with_digit : List ℕ → Bool
starts_with_digit [] = false
starts_with_digit (c ∷ text) = is_digit c

unfoldable pub strtoll : List ℕ → Long
unfolding skip_spaces take_sign take_digits
strtoll text =
    let (negative, digits) = take_sign (skip_spaces text) in
    let (magnitude, rest) = take_digits 0 digits in
    record {
      any = starts_with_digit digits;
      negative = negative;
      magnitude = magnitude;
      out_of_range = if negative then ltb (2 ^ 63) magnitude else leb (2 ^ 63) magnitude;
      rest = rest;
    }

-- What `parse_nonnegative` tests of it.
unfoldable pub accepted : Long → (max_value : ℕ) → Option ℕ
accepted value max_value =
    if not value.any
      || not (length value.rest == 0)
      || value.out_of_range
      || value.negative && ltb 0 value.magnitude
      || not value.negative && ltb max_value value.magnitude
    then none
    else some value.magnitude

-- The value, where the text is accepted.
unfoldable pub parse_nonnegative : (text : List ℕ) → (max_value : ℕ) → Option ℕ
parse_nonnegative text max_value = accepted (strtoll text) max_value
