-- ===== src/Entropy.antt =====
-- src/analysis/entropy.cpp: the Shannon entropy of a payload from its byte histogram. `double` and
-- `std::log2` are not modelled: their operations are a parameter, in the order in which the code
-- applies them.
pub mod Counts
use net_sentinel.Base.{
  ℕ, ◌+◌, ◌%◌, ◌^◌, Bool, true, false, ◌==◌, if◌then◌else◌, List, [], ◌∷◌, Option, none, some,
  length, get_elem?, set, replicate,
}

-- The operations of `double` that the program uses.
pub record Doubles (Double : Type 0) : Type 0 where
  pub zero : Double
  pub of_size : ℕ → Double
  pub minus : Double → Double → Double
  pub times : Double → Double → Double
  pub divide : Double → Double → Double
  pub log2 : Double → Double
  pub at_least : Double → Double → Bool
  pub two_decimals : Double → List ℕ

-- `++histogram[byte]` on a uint32_t count.
unfoldable pub increment : ℕ → List ℕ → List ℕ
increment byte histogram = elim (get_elem? histogram byte) [
  | none ↦ histogram
  | some c ↦ set histogram byte ((c + 1) % 2 ^ 32)
]

unfoldable pub histogram_from : List ℕ → List ℕ → List ℕ
unfolding increment
histogram_from histogram [] = histogram
histogram_from histogram (byte ∷ bytes) = histogram_from (increment byte histogram) bytes

module _ {Double : Type 0} (double : Doubles Double) where
  -- The loop over the counts of a histogram.
  unfoldable pub entropy_from : Double → ℕ → List ℕ → Double
  entropy_from entropy total [] = entropy
  entropy_from entropy total (count ∷ counts) =
      let p = double.divide (double.of_size count) (double.of_size total) in
      let less = double.minus entropy (double.times p (double.log2 p)) in
      let skipped = entropy_from entropy total counts in
      let taken = entropy_from less total counts in if count == 0 then skipped else taken

  -- A null pointer is `none`.
  unfoldable pub shannon_entropy : Option (List ℕ) → Double
  unfolding histogram_from entropy_from
  shannon_entropy none = double.zero
  shannon_entropy (some bytes) =
      if length bytes == 0
      then double.zero
      else entropy_from double.zero (length bytes) (histogram_from (replicate 256 0) bytes)
