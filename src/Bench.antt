-- ===== src/Bench.antt =====
-- The measurement programs of src/bench: how they read their numbers. `std::strtol` keeps to the ends of its
-- range; `long` has 64 bits.
pub mod Rules
pub mod Stages
pub mod Passes
pub mod Sorting
pub mod Threads
pub mod Arguments
pub mod Limits
mod Tests
use net_sentinel.Base.{
  ℕ, ◌-◌, ◌^◌, ◌≡◌, ◌≤◌, ◌<◌, ◌↔◌, min, Bool, not, ◌&&◌, ◌||◌, ◌==◌, ltb, leb, if◌then◌else◌,
  Option, none, some, List, length, arith, refl, sym, ◌∙◌,
}
use net_sentinel.CommandLine.{Long, strtoll, accepted, parse_nonnegative}

-- The value, if the text is a number of the range.
unfoldable pub in_range : Long → (minimum max_value : ℕ) → Option ℕ
in_range value minimum max_value =
    let magnitude = min value.magnitude (2 ^ 63 - 1) in
    if not value.any
      || not (length value.rest == 0)
      || value.negative && (ltb 0 value.magnitude || ltb 0 minimum)
      || not value.negative && (ltb magnitude minimum || ltb max_value magnitude)
    then none
    else some magnitude

-- `parse_count` of bench_analysis.cpp, and of bench_capture.cpp.
unfoldable pub count_from_one : (text : List ℕ) → (max_value : ℕ) → Option ℕ
unfolding in_range
count_from_one text max_value = in_range (strtoll text) 1 max_value

unfoldable pub count_from_zero : (text : List ℕ) → (max_value : ℕ) → Option ℕ
unfolding in_range
count_from_zero text max_value = in_range (strtoll text) 0 max_value

in_range-accepted :
    (value : Long) (max_value : ℕ)
    → max_value < 2 ^ 63 - 1
    → value.out_of_range
      ≡ (if value.negative then ltb (2 ^ 63) value.magnitude else leb (2 ^ 63) value.magnitude)
    → in_range value 0 max_value ≡ accepted value max_value
unfolding in_range accepted
in_range-accepted value max_value small range = ground (arith, range, small)

in_range_positive :
    (value : Long) (max_value v : ℕ)
    → (in_range value 1 max_value ≡ some v) ↔ ((in_range value 0 max_value ≡ some v) × (1 ≤ v))
unfolding in_range
in_range_positive value max_value v =
    (λ e. (ground (arith, e), ground (arith, e)), λ h. ground (arith, h.0, h.1))

-- For a range that ends below that of `long`: `parse_count` of bench_capture.cpp accepts what
-- `parse_nonnegative` of main accepts, with the same value, although it does not look at `errno`; and that of
-- bench_analysis.cpp accepts just the positive ones of those.
pub counts-parse_nonnegative :
    (text : List ℕ) (max_value v : ℕ)
    → max_value < 2 ^ 63 - 1
    → (count_from_zero text max_value ≡ parse_nonnegative text max_value)
      × ((count_from_one text max_value ≡ some v)
          ↔ ((parse_nonnegative text max_value ≡ some v) × (1 ≤ v)))
unfolding count_from_zero count_from_one parse_nonnegative strtoll
counts-parse_nonnegative text max_value v small =
    let same = in_range-accepted (strtoll text) max_value small refl in
    let positive = in_range_positive (strtoll text) max_value v in
    (
      same,
      ((λ e. let (f, p) = positive.0 e in (sym same ∙ f, p)), (λ h. positive.1 (same ∙ h.0, h.1))),
    )
