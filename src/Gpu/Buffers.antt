-- ===== src/Gpu/Buffers.antt =====
-- The capacity of pooled buffers.
use net_sentinel.Base.{
  ℕ, ◌≡◌, ◌≢◌, refl, subst, ◌*◌, ◌/◌, ◌%◌, ◌^◌, ◌≤◌, ◌<◌, max, Bool, true, false, not, ◌&&◌, leb,
  if◌then◌else◌, is_some, Option, none, some, List, [], length, arith, Option-cases, Bool-cases,
  inl, inr, ◌⊎◌,
}
use net_sentinel.Gpu.{Allocate, Pooled, ensure_capacity, EntropyBufferSet, reserve}

-- A `contents()` of a null buffer has no cells.
abbrev pub cells_of : Option (List ℕ) → List ℕ
cells_of none = []
cells_of (some cells) = cells

-- `newBuffer` gives the bytes that it is asked for, where it gives a buffer.
abbrev pub Honest : Allocate → Type 0
Honest allocate =
    (width bytes : ℕ) (cells : List ℕ)
    → allocate width bytes ≡ some cells
    → length cells ≡ bytes / width

-- The capacity kept beside a buffer is the buffer's size.
abbrev pub Sized : (width : ℕ) → Pooled → Type 0
Sized width p = is_some p.buffer ≡ true → length (cells_of p.buffer) ≡ p.capacity / width

abbrev pub SizedSet : EntropyBufferSet → Type 0
SizedSet b = Sized 1 b.payloads × Sized 4 b.offsets × Sized 4 b.lengths × Sized 4 b.results

fits_div : (width a b : ℕ) → (width ≡ 1) ⊎ (width ≡ 4) → a ≤ b → a / width ≤ b / width
fits_div width a b (inl e) h = rw e (omega arith)
fits_div width a b (inr e) h = rw e (omega arith)

-- A buffer that was ensured holds what was asked for, and one that held it is left as it was.
pub ensure_capacity-Sized :
    (allocate : Allocate)
    → Honest allocate
    → (width needed : ℕ) → (width ≡ 1) ⊎ (width ≡ 4)
    → (p : Pooled) → Sized width p
    → let (enough, q) = ensure_capacity allocate width needed p in
      Sized width q
      × (enough ≡ true → is_some q.buffer ≡ true)
      × (enough ≡ true → needed / width ≤ length (cells_of q.buffer))
      × (leb needed p.capacity && is_some p.buffer ≡ true → q ≡ p)
unfolding ensure_capacity
ensure_capacity-Sized allocate honest width needed w p h =
    let grown = max (max needed (p.capacity * 2 % 2 ^ 64)) 4096 in
    let larger : needed ≤ grown = omega arith in
    let wide = fits_div width needed grown w larger in
    elim (Bool-cases (is_some p.buffer && leb needed p.capacity)) [
      | inl e ↦
          let roomy = fits_div width needed p.capacity w (ground (arith, e)) in
          ground (arith, e, roomy, h)
      | inr e ↦ elim (Option-cases (allocate width grown)) [
        | inl f ↦ ground (arith, e, f)
        | inr (cells, f) ↦ let full = honest width grown cells f in ground (arith, e, f, full, wide)
      ]
    ]

-- A buffer that is there, with at least so many cells.
abbrev pub Has : (least : ℕ) → Pooled → Type 0
Has least p = (is_some p.buffer ≡ true) × (least ≤ length (cells_of p.buffer))

-- What the four buffers hold after a reservation that succeeded.
abbrev pub Roomy : (total count : ℕ) → EntropyBufferSet → Type 0
Roomy total count b =
    Has total b.payloads × Has count b.offsets × Has count b.lengths × Has count b.results

abbrev Ensured : (width least : ℕ) → Bool × Pooled → Type 0
Ensured width least (enough, q) = Sized width q × (enough ≡ true → Has least q)

-- `reserve`, where the four buffers are known.
abbrev reserved : (p o l r : Bool × Pooled) → EntropyBufferSet → Bool × EntropyBufferSet
reserved (ok_payloads, payloads) (ok_offsets, offsets) (ok_lengths, lengths) (ok_results, results)
      b =
    let one = record b { payloads = payloads } in
    let two = record one { offsets = offsets } in
    let three = record two { lengths = lengths } in
    if not ok_payloads
    then (false, one)
    else if not ok_offsets
    then (false, two)
    else if not ok_lengths
    then (false, three)
    else (ok_results, record three { results = results })

reserved-SizedSet :
    (total count : ℕ) (p o l r : Bool × Pooled) (b : EntropyBufferSet)
    → SizedSet b
    → Ensured 1 total p
    → Ensured 4 count o
    → Ensured 4 count l
    → Ensured 4 count r
    → let (enough, q) = reserved p o l r b in SizedSet q × (enough ≡ true → Roomy total count q)
reserved-SizedSet total count (false, p) (o0, o) (l0, l) (r0, r) b (hp, ho, hl, hr) a c d e =
    ((a.0, ho, hl, hr), λ f. absurd (cc))
reserved-SizedSet total count (true, p) (false, o) (l0, l) (r0, r) b (hp, ho, hl, hr) a c d e =
    ((a.0, c.0, hl, hr), λ f. absurd (cc))
reserved-SizedSet total count (true, p) (true, o) (false, l) (r0, r) b (hp, ho, hl, hr) a c d e =
    ((a.0, c.0, d.0, hr), λ f. absurd (cc))
reserved-SizedSet total count (true, p) (true, o) (true, l) (r0, r) b h a c d e =
    ((a.0, c.0, d.0, e.0), λ f. (a.1 refl, c.1 refl, d.1 refl, e.1 f))

-- What `ensure_capacity` gives for one of the buffers.
ensured :
    (allocate : Allocate)
    → Honest allocate
    → (width needed least : ℕ) → (width ≡ 1) ⊎ (width ≡ 4)
    → needed / width ≡ least
    → (p : Pooled) → Sized width p
    → Ensured width least (ensure_capacity allocate width needed p)
ensured allocate honest width needed least w e p h =
    let known = ensure_capacity-Sized allocate honest width needed w p h in
    (
      known.0,
      λ f. (
        known.1 f,
        subst (λ (n : ℕ). n ≤ length (cells_of (ensure_capacity allocate width needed p).1.buffer))
            e (known.2 f),
      ),
    )

-- A reservation leaves every capacity true; where it succeeds, the four buffers hold the bytes and the
-- words that were asked for.
pub reserve-SizedSet :
    (allocate : Allocate)
    → Honest allocate
    → (total count : ℕ) → total < 2 ^ 64
    → count < 2 ^ 62
    → (b : EntropyBufferSet) → SizedSet b
    → let (enough, q) = reserve allocate total count b in
      SizedSet q × (enough ≡ true → Roomy total count q)
unfolding reserve
reserve-SizedSet allocate honest total count small few b h =
    let whole : total % 2 ^ 64 / 1 ≡ total = omega arith in
    let words : count * 4 % 2 ^ 64 / 4 ≡ count = omega arith in
    reserved-SizedSet total count (ensure_capacity allocate 1 (total % 2 ^ 64) b.payloads)
      (ensure_capacity allocate 4 (count * 4 % 2 ^ 64) b.offsets)
      (ensure_capacity allocate 4 (count * 4 % 2 ^ 64) b.lengths)
      (ensure_capacity allocate 4 (count * 4 % 2 ^ 64) b.results) b h
      (ensured allocate honest 1 (total % 2 ^ 64) total (inl refl) whole b.payloads h.0)
      (ensured allocate honest 4 (count * 4 % 2 ^ 64) count (inr refl) words b.offsets h.1)
      (ensured allocate honest 4 (count * 4 % 2 ^ 64) count (inr refl) words b.lengths h.2)
      (ensured allocate honest 4 (count * 4 % 2 ^ 64) count (inr refl) words b.results h.3)

-- Every buffer that is asked for is given.
abbrev pub Generous : Allocate → Type 0
Generous allocate = (width bytes : ℕ) → allocate width bytes ≢ none

ensure_capacity-Generous :
    (allocate : Allocate)
    → Generous allocate
    → (width needed : ℕ) (p : Pooled) → (ensure_capacity allocate width needed p).0 ≡ true
unfolding ensure_capacity
ensure_capacity-Generous allocate generous width needed p =
    let grown = max (max needed (p.capacity * 2 % 2 ^ 64)) 4096 in
    elim (Option-cases (allocate width grown)) [
      | inl f ↦ absurd (generous width grown f)
      | inr (cells, f) ↦ ground (arith, f)
    ]

pub reserve-Generous :
    (allocate : Allocate)
    → Generous allocate
    → (total count : ℕ) (b : EntropyBufferSet) → (reserve allocate total count b).0 ≡ true
unfolding reserve
reserve-Generous allocate generous total count b =
    rw (ensure_capacity-Generous allocate generous 1 (total % 2 ^ 64) b.payloads) (
      rw (ensure_capacity-Generous allocate generous 4 (count * 4 % 2 ^ 64) b.offsets) (
        rw (ensure_capacity-Generous allocate generous 4 (count * 4 % 2 ^ 64) b.lengths)
          (ensure_capacity-Generous allocate generous 4 (count * 4 % 2 ^ 64) b.results)))
