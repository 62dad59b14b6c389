-- ===== src/Gpu/Packing.antt =====
-- What the payloads look like in the buffers, and when packing them stays inside.
use net_sentinel.Base.{
  ℕ, zero, suc, ◌≡◌, refl, sym, ap, ◌∙◌, ◌+◌, ◌%◌, ◌^◌, ◌≤◌, ltb, if◌then◌else◌, List, [], ◌∷◌,
  ◌++◌, length, take, drop, arith, length-append, length-take, length-drop, take-append-drop,
}
use mathlib.Core.List.{append_assoc}
use net_sentinel.Parser.{ok}
use net_sentinel.Gpu.Dispatch.{write_cells, Packed, pack_from, total_bytes}

-- A write of consecutive cells that stays inside.
abbrev pub put : List ℕ → ℕ → List ℕ → List ℕ
put cells i values = take i cells ++ (values ++ drop (i + length values) cells)

abbrev pub concat : List (List ℕ) → List ℕ
concat [] = []
concat (payload ∷ rest) = payload ++ concat rest

abbrev pub offsets_from : (offset : ℕ) → List (List ℕ) → List ℕ
offsets_from offset [] = []
offsets_from offset (payload ∷ rest) =
    (offset % 2 ^ 32) ∷ offsets_from (offset + length payload) rest

abbrev pub sizes : List (List ℕ) → List ℕ
sizes [] = []
sizes (payload ∷ rest) = (length payload % 2 ^ 32) ∷ sizes rest

drop_none : (k : ℕ) → drop {A = ℕ} k [] ≡ []
drop_none zero = refl
drop_none (suc k) = refl

drop-drop : (m n k : ℕ) (l : List ℕ) → k ≡ n + m → drop m (drop n l) ≡ drop k l
drop-drop m zero k l e = let same : m ≡ k = omega arith in ap (λ j. drop j l) same
drop-drop m (suc n) k [] e = drop_none m ∙ sym (drop_none k)
drop-drop m (suc n) zero (x ∷ l) e = absurd (omega arith)
drop-drop m (suc n) (suc k) (x ∷ l) e = drop-drop m n k l (omega arith)

-- A prefix that is long enough is taken whole, and the rest dropped to.
pub take_prefix : (xs ys : List ℕ) (n : ℕ) → n ≡ length xs → take n (xs ++ ys) ≡ xs
take_prefix [] ys zero e = refl
take_prefix [] ys (suc n) e = absurd (omega arith)
take_prefix (x ∷ xs) ys zero e = absurd (omega arith)
take_prefix (x ∷ xs) ys (suc n) e = ap (◌∷◌ x) (take_prefix xs ys n (omega arith))

pub drop_prefix : (xs ys : List ℕ) (n k : ℕ) → n ≡ length xs + k → drop n (xs ++ ys) ≡ drop k ys
drop_prefix [] ys n k e = let same : n ≡ k = omega arith in ap (λ m. drop m ys) same
drop_prefix (x ∷ xs) ys zero k e = absurd (omega arith)
drop_prefix (x ∷ xs) ys (suc n) k e = drop_prefix xs ys n k (omega arith)

length-take_le : (n : ℕ) (l : List ℕ) → n ≤ length l → length (take n l) ≡ n
length-take_le n l h = omega (arith, length-take n l)

pub length-put :
    (cells : List ℕ) (i : ℕ) (values : List ℕ)
    → i + length values ≤ length cells
    → length (put cells i values) ≡ length cells
length-put cells i values h =
    let outer = length-append (take i cells) (values ++ drop (i + length values) cells) in
    let inner = length-append values (drop (i + length values) cells) in
    let front = length-take_le i cells (omega arith) in
    omega (arith, outer, inner, front, length-drop (i + length values) cells)

-- Two writes one after the other are one.
put-put :
    (cells : List ℕ) (i k : ℕ) (a b : List ℕ)
    → k ≡ i + length a
    → k + length b ≤ length cells
    → put (put cells i a) k b ≡ put cells i (a ++ b)
put-put cells i k a b e h =
    let front = length-take_le i cells (omega arith) in
    let head = take i cells in
    let tail = drop (i + length a) cells in
    let joined = sym (append_assoc head a tail) in
    let near = take_prefix (head ++ a) tail k (omega (arith, front, length-append head a)) in
    let far =
      drop_prefix (head ++ a) tail (k + length b) (length b)
        (omega (arith, front, length-append head a))
      ∙ drop-drop (length b) (i + length a) (i + length (a ++ b)) cells
          (omega (arith, length-append a b)) in
    rw joined (rw near (rw far (simp append_assoc refl)))

pub put_nothing : (cells : List ℕ) (i : ℕ) → put cells i [] ≡ cells
put_nothing cells i =
    let same : i + length {A = ℕ} [] ≡ i = omega arith in rw same (take-append-drop i cells)

pub length-sizes : (payloads : List (List ℕ)) → length (sizes payloads) ≡ length payloads
length-sizes [] = refl
length-sizes (payload ∷ rest) = ap suc (length-sizes rest)

pub length-offsets_from :
    (offset : ℕ) (payloads : List (List ℕ))
    → length (offsets_from offset payloads) ≡ length payloads
length-offsets_from offset [] = refl
length-offsets_from offset (payload ∷ rest) =
    ap suc (length-offsets_from (offset + length payload) rest)

pub length-concat : (payloads : List (List ℕ)) → length (concat payloads) ≡ total_bytes payloads
unfolding total_bytes
length-concat [] = refl
length-concat (payload ∷ rest) =
    omega (arith, length-append payload (concat rest), length-concat rest)

write_cells-put :
    (cells : List ℕ) (i : ℕ) (values : List ℕ)
    → i + length values ≤ length cells
    → write_cells cells i values ≡ ok (put cells i values)
unfolding write_cells
write_cells-put cells i values h = ground arith

-- The buffers after packing.
abbrev pub packed : (i offset : ℕ) → Packed → List (List ℕ) → Packed
packed i offset p payloads = record {
  cells = put p.cells offset (concat payloads);
  offsets = put p.offsets i (offsets_from offset payloads);
  lengths = put p.lengths i (sizes payloads);
}

-- A payload of no bytes is not copied, which is the same as a copy of nothing.
copy_payload :
    (cells : List ℕ) (offset : ℕ) (payload : List ℕ)
    → offset + length payload ≤ length cells
    → (if ltb 0 (length payload) then write_cells cells offset payload else ok cells)
      ≡ ok (put cells offset payload)
copy_payload cells offset [] h = ap ok (sym (put_nothing cells offset))
copy_payload cells offset (b ∷ payload) h =
    ground (arith, write_cells-put cells offset (b ∷ payload) h)

-- Packing stays inside the buffers where they hold the bytes and the words.
pub pack_from-packed :
    (i offset : ℕ) (p : Packed) (payloads : List (List ℕ))
    → offset + total_bytes payloads ≤ length p.cells
    → i + length payloads ≤ length p.offsets
    → i + length payloads ≤ length p.lengths
    → pack_from i offset p payloads ≡ ok (packed i offset p payloads)
unfolding pack_from total_bytes
pack_from-packed i offset p [] hb ho hl = ap ok (λ j. record {
  cells = sym (put_nothing p.cells offset) j;
  offsets = sym (put_nothing p.offsets i) j;
  lengths = sym (put_nothing p.lengths i) j;
})
pack_from-packed i offset p (payload ∷ rest) hb ho hl =
    let o : List ℕ = (offset % 2 ^ 32) ∷ [] in
    let l : List ℕ = (length payload % 2 ^ 32) ∷ [] in
    let q : Packed = record {
      cells = put p.cells offset payload;
      offsets = put p.offsets i o;
      lengths = put p.lengths i l;
    } in
    let ih =
      pack_from-packed (suc i) (offset + length payload) q rest
        (omega (arith, length-put p.cells offset payload (omega arith)))
        (omega (arith, length-put p.offsets i o (omega arith)))
        (omega (arith, length-put p.lengths i l (omega arith))) in
    let cells =
      put-put p.cells offset (offset + length payload) payload (concat rest) refl
        (omega (arith, length-concat rest)) in
    let offsets =
      put-put p.offsets i (suc i) o (offsets_from (offset + length payload) rest) (omega arith)
        (omega (arith, length-offsets_from (offset + length payload) rest)) in
    let lengths =
      put-put p.lengths i (suc i) l (sizes rest) (omega arith) (omega (arith, length-sizes rest)) in
    rw (write_cells-put p.offsets i o (omega arith)) (
      rw (write_cells-put p.lengths i l (omega arith)) (
        rw (copy_payload p.cells offset payload (omega arith))
          (ih ∙ ap ok (λ j. record { cells = cells j; offsets = offsets j; lengths = lengths j }))))
