-- ===== src/Entropy/Counts.antt =====
-- The histogram of a payload against the occurrences of its bytes.
use mathlib.Core.Path.{ap₂}
use mathlib.Core.Option.{some-injective}
use net_sentinel.Base.{
  ℕ, zero, suc, ◌+◌, ◌%◌, ◌^◌, ◌<◌, ◌≡◌, refl, sym, ap, ◌∙◌, ◌==◌, if◌then◌else◌, List, [], ◌∷◌,
  some, length, get_elem?, replicate, arith, get_elem?-set_self, get_elem?-set_ne, length-set,
  length-replicate,
}
use net_sentinel.Entropy.{Doubles, increment, histogram_from, entropy_from, shannon_entropy}

-- How often a byte stands in a payload.
abbrev pub occurrences : ℕ → List ℕ → ℕ
occurrences byte [] = 0
occurrences byte (b ∷ bytes) = (if b == byte then 1 else 0) + occurrences byte bytes

-- The occurrences of `n` consecutive bytes, from `first`.
abbrev pub tally : ℕ → ℕ → List ℕ → List ℕ
tally first zero bytes = []
tally first (suc n) bytes = occurrences first bytes ∷ tally (suc first) n bytes

some_below : (xs : List ℕ) (i c : ℕ) → get_elem? xs i ≡ some c → i < length xs
some_below [] i c e = cc
some_below (x ∷ xs) zero c e = omega arith
some_below (x ∷ xs) (suc i) c e = omega (arith, some_below xs i c e)

-- The entry of a histogram, if it has one.
get_elem?-increment :
    (byte i c : ℕ) (histogram : List ℕ)
    → get_elem? histogram i ≡ some c
    → get_elem? (increment byte histogram) i ≡ some (if byte == i then (c + 1) % 2 ^ 32 else c)
unfolding increment
get_elem?-increment byte i c histogram e = grind (
  arith,
  e,
  get_elem?-set_self histogram byte ((c + 1) % 2 ^ 32),
  get_elem?-set_ne histogram byte i,
  some_below histogram i c e,
)

length-increment :
    (byte : ℕ) (histogram : List ℕ) → length (increment byte histogram) ≡ length histogram
unfolding increment
length-increment byte histogram = grind (arith, length-set histogram byte)

length-histogram_from :
    (histogram bytes : List ℕ) → length (histogram_from histogram bytes) ≡ length histogram
unfolding histogram_from
length-histogram_from histogram [] = refl
length-histogram_from histogram (b ∷ bytes) =
    length-histogram_from (increment b histogram) bytes ∙ length-increment b histogram

get_elem?-histogram_from :
    (i c : ℕ) (histogram bytes : List ℕ)
    → get_elem? histogram i ≡ some c
    → c + length bytes < 2 ^ 32
    → get_elem? (histogram_from histogram bytes) i ≡ some (c + occurrences i bytes)
unfolding histogram_from
get_elem?-histogram_from i c histogram [] e small = e ∙ ap some (omega arith)
get_elem?-histogram_from i c histogram (b ∷ bytes) e small =
    get_elem?-histogram_from i (c + (if b == i then 1 else 0)) (increment b histogram) bytes
      (get_elem?-increment b i c histogram e ∙ ap some (ground arith)) (ground arith)
    ∙ ap some (omega arith)

-- A list is the tally of what its entries count.
tally-entries :
    (first n : ℕ) (bytes counts : List ℕ)
    → length counts ≡ n
    → ((i : ℕ) → i < n → get_elem? counts i ≡ some (occurrences (first + i) bytes))
    → counts ≡ tally first n bytes
tally-entries first zero bytes [] e entries = refl
tally-entries first zero bytes (c ∷ counts) e entries = absurd (omega arith)
tally-entries first (suc n) bytes [] e entries = absurd (omega arith)
tally-entries first (suc n) bytes (c ∷ counts) e entries =
    ap₂ ◌∷◌
      (some-injective c (occurrences first bytes)
        (entries 0 (omega arith) ∙ ap (λ k. some (occurrences k bytes)) (omega arith)))
      (tally-entries (suc first) n bytes counts (omega arith)
        λ i h. entries (suc i) (omega arith) ∙ ap (λ k. some (occurrences k bytes)) (omega arith))

get_elem?-replicate : (n i c : ℕ) → i < n → get_elem? (replicate n c) i ≡ some c
get_elem?-replicate zero i c h = absurd (omega arith)
get_elem?-replicate (suc n) zero c h = refl
get_elem?-replicate (suc n) (suc i) c h = get_elem?-replicate n i c (omega arith)

-- The histogram of a payload of fewer than 2 ^ 32 bytes counts each of the 256 bytes exactly.
pub histogram_from-tally :
    (bytes : List ℕ)
    → length bytes < 2 ^ 32
    → histogram_from (replicate 256 0) bytes ≡ tally 0 256 bytes
histogram_from-tally bytes small =
    tally-entries 0 256 bytes (histogram_from (replicate 256 0) bytes)
      (length-histogram_from (replicate 256 0) bytes ∙ length-replicate {A = ℕ} 256 0)
      λ i h. grind (
        arith,
        get_elem?-histogram_from i 0 (replicate 256 0) bytes (get_elem?-replicate 256 i 0 h)
            (omega arith),
      )

pub tally-same :
    (first n : ℕ) (xs ys : List ℕ)
    → ((byte : ℕ) → occurrences byte xs ≡ occurrences byte ys)
    → tally first n xs ≡ tally first n ys
tally-same first zero xs ys same = refl
tally-same first (suc n) xs ys same = ap₂ ◌∷◌ (same first) (tally-same (suc first) n xs ys same)

-- The entropy does not depend on the order of the bytes: two payloads of the same size, below 2 ^ 32,
-- in which every byte stands equally often have the same entropy, to the last bit of the `double`.
pub shannon_entropy-order :
    {Double : Type 0} (double : Doubles Double) (xs ys : List ℕ)
    → length xs < 2 ^ 32
    → length xs ≡ length ys
    → ((byte : ℕ) → occurrences byte xs ≡ occurrences byte ys)
    → shannon_entropy double (some xs) ≡ shannon_entropy double (some ys)
unfolding shannon_entropy
shannon_entropy-order double xs ys small sizes same =
    let same_histogram : histogram_from (replicate 256 0) xs ≡ histogram_from (replicate 256 0) ys =
      histogram_from-tally xs small
      ∙ tally-same 0 256 xs ys same
      ∙ sym (histogram_from-tally ys (omega arith)) in
    ap₂
      (λ (n : ℕ) (h : List ℕ). if n == 0 then double.zero else entropy_from double double.zero n h)
      sizes same_histogram
