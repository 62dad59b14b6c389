-- ===== src/CommandLine/Numbers.antt =====
-- Which texts `parse_nonnegative` accepts.
use net_sentinel.Base.{
  ℕ, suc, ◌≡◌, ◌≢◌, refl, sym, ap, subst, ◌∙◌, ◌↔◌, ◌+◌, ◌-◌, ◌*◌, ◌^◌, ◌≤◌, ◌<◌, Bool, true, false,
  ◌==◌, ==_iff, ltb, leb, if◌then◌else◌, some, List, [], ◌∷◌, ◌++◌, length, All, arith, Bool-cases,
  inl, inr, ◌⊎◌,
}
use net_sentinel.CommandLine.{
  accepted, starts_with_digit, is_space, is_digit, skip_spaces, take_sign, take_digits, Long,
  strtoll, parse_nonnegative,
}

-- The value of digits.
abbrev pub value_from : ℕ → List ℕ → ℕ
value_from value [] = value
value_from value (c ∷ digits) = value_from (value * 10 + (c - b'0')) digits

abbrev pub IsDigit : ℕ → Type 0
IsDigit c = is_digit c ≡ true

-- Digits to the end of the text are taken whole.
take_digits_whole :
    (value : ℕ) (digits : List ℕ)
    → All IsDigit digits
    → take_digits value digits ≡ (value_from value digits, [])
unfolding take_digits
take_digits_whole value [] h = refl
take_digits_whole value (c ∷ digits) h =
    rw h.0 (take_digits_whole (value * 10 + (c - b'0')) digits h.1)

-- And only they are.
take_digits_only :
    (value : ℕ) (text : List ℕ)
    → length (take_digits value text).1 ≡ 0
    → All IsDigit text × ((take_digits value text).0 ≡ value_from value text)
unfolding take_digits
take_digits_only value [] h = (tt, refl)
take_digits_only value (c ∷ text) h = elim (Bool-cases (is_digit c)) [
  | inl e ↦
      let (all, v) = take_digits_only (value * 10 + (c - b'0')) text (rw e at h) in
      ((e, all), rw e v)
  | inr e ↦ absurd (let bad : suc (length text) ≡ 0 = rw e at h in omega (arith, bad))
]

abbrev pub IsSpace : ℕ → Type 0
IsSpace c = is_space c ≡ true

skip_spaces_front :
    (text : List ℕ) → (spaces : List ℕ) × All IsSpace spaces × (text ≡ spaces ++ skip_spaces text)
unfolding skip_spaces
skip_spaces_front [] = ([], tt, refl)
skip_spaces_front (c ∷ text) = elim (Bool-cases (is_space c)) [
  | inl e ↦
      let (spaces, all, same) = skip_spaces_front text in
      (c ∷ spaces, (e, all), rw e (ap (λ (t : List ℕ). c ∷ t) same))
  | inr e ↦ ([], tt, rw e refl)
]

-- A text that no space begins.
abbrev starts_with_space : List ℕ → Bool
starts_with_space [] = false
starts_with_space (c ∷ text) = is_space c

skip_spaces_whole :
    (spaces text : List ℕ)
    → All IsSpace spaces
    → starts_with_space text ≡ false
    → skip_spaces (spaces ++ text) ≡ text
unfolding skip_spaces
skip_spaces_whole [] [] h e = refl
skip_spaces_whole [] (c ∷ text) h e = rw e refl
skip_spaces_whole (s ∷ spaces) text h e = rw h.0 (skip_spaces_whole spaces text h.1 e)

-- The signs that `std::strtoll` takes, and whether they are a minus.
abbrev pub IsSign : List ℕ → Bool → Type 0
IsSign sign negative =
    ((sign ≡ []) × (negative ≡ false))
    ⊎ ((sign ≡ b'+' ∷ []) × (negative ≡ false))
    ⊎ ((sign ≡ b'-' ∷ []) × (negative ≡ true))

take_sign_front :
    (text : List ℕ)
    → (sign : List ℕ) × IsSign sign (take_sign text).0 × (text ≡ sign ++ (take_sign text).1)
unfolding take_sign
take_sign_front [] = ([], inl (refl, refl), refl)
take_sign_front (c ∷ text) = elim (Bool-cases (c == b'-')) [
  | inl e ↦ rw e (b'-' ∷ [], inr (inr (refl, refl)), ap (λ (n : ℕ). n ∷ text) ((==_iff c b'-').0 e))
  | inr e ↦ elim (Bool-cases (c == b'+')) [
    | inl f ↦
        rw e
          (rw f (b'+' ∷ [], inr (inl (refl, refl)), ap (λ (n : ℕ). n ∷ text) ((==_iff c b'+').0 f)))
    | inr f ↦ rw e (rw f ([], inl (refl, refl), refl))
  ]
]

-- What is written: spaces, a sign, and digits.
pub record Written (text : List ℕ) (negative : Bool) (value : ℕ) : Type 0 where
  pub spaces : List ℕ
  pub sign : List ℕ
  pub digits : List ℕ
  pub whole : text ≡ spaces ++ (sign ++ digits)
  pub are_spaces : All IsSpace spaces
  pub is_sign : IsSign sign negative
  pub are_digits : All IsDigit digits
  pub some_digit : digits ≢ []
  pub has_value : value_from 0 digits ≡ value

starts-Written : (digits : List ℕ) → starts_with_digit digits ≡ true → digits ≢ []
starts-Written [] e = absurd (cc)
starts-Written (c ∷ digits) e = λ f. cc

strtoll_sound :
    (text : List ℕ)
    → (strtoll text).any ≡ true
    → length (strtoll text).rest ≡ 0
    → Written text (strtoll text).negative (strtoll text).magnitude
unfolding strtoll
strtoll_sound text any ends =
    let (spaces, are_spaces, front) = skip_spaces_front text in
    let (sign, is_sign, behind) = take_sign_front (skip_spaces text) in
    let (are_digits, value) = take_digits_only 0 (take_sign (skip_spaces text)).1 ends in
    record {
      spaces = spaces;
      sign = sign;
      digits = (take_sign (skip_spaces text)).1;
      whole = front ∙ ap (λ (t : List ℕ). spaces ++ t) behind;
      are_spaces = are_spaces;
      is_sign = is_sign;
      are_digits = are_digits;
      some_digit = starts-Written (take_sign (skip_spaces text)).1 any;
      has_value = sym value;
    }

-- A sign and digits behind spaces are found.
sign_found :
    (sign digits : List ℕ) (negative : Bool)
    → IsSign sign negative
    → All IsDigit digits
    → digits ≢ []
    → (starts_with_space (sign ++ digits) ≡ false)
      × (take_sign (sign ++ digits) ≡ (negative, digits))
      × (starts_with_digit digits ≡ true)
unfolding take_sign
sign_found sign [] negative s h n = absurd (n refl)
sign_found sign (c ∷ digits) negative (inl (s, e)) h n =
    let minus : (c == b'-') ≡ false = ground (arith, h.0) in
    let plus : (c == b'+') ≡ false = ground (arith, h.0) in
    rw s (rw e (ground (arith, h.0), rw minus (rw plus refl), h.0))
sign_found sign (c ∷ digits) negative (inr (inl (s, e))) h n = rw s (rw e (refl, refl, h.0))
sign_found sign (c ∷ digits) negative (inr (inr (s, e))) h n = rw s (rw e (refl, refl, h.0))

strtoll_complete :
    (text : List ℕ) (negative : Bool) (value : ℕ)
    → Written text negative value
    → strtoll text ≡ record {
      any = true;
      negative = negative;
      magnitude = value;
      out_of_range = if negative then ltb (2 ^ 63) value else leb (2 ^ 63) value;
      rest = [];
    }
unfolding strtoll
strtoll_complete text negative value w =
    let (no_space, signed, any) =
      sign_found w.sign w.digits negative w.is_sign w.are_digits w.some_digit in
    let skipped =
      ap skip_spaces w.whole
      ∙ skip_spaces_whole w.spaces (w.sign ++ w.digits) w.are_spaces no_space in
    let taken = take_digits_whole 0 w.digits w.are_digits in
    rw skipped (rw signed (rw any (rw taken (rw w.has_value refl))))

-- What `accepted` says of what was read.
accepted-some :
    (value : Long) (max_value v : ℕ)
    → accepted value max_value ≡ some v
    → (value.any ≡ true)
      × (length value.rest ≡ 0)
      × (value.magnitude ≡ v)
      × ((value.negative ≡ true) → v ≡ 0)
      × ((value.negative ≡ false) → v ≤ max_value)
unfolding accepted
accepted-some value max_value v e = ground (arith, e)

by_sign :
    (text : List ℕ) (max_value : ℕ) (negative : Bool) (magnitude v : ℕ)
    → Written text negative magnitude
    → magnitude ≡ v
    → ((negative ≡ true) → v ≡ 0)
    → ((negative ≡ false) → v ≤ max_value)
    → (v ≤ max_value) × (Written text false v ⊎ (Written text true v × (v ≡ 0)))
by_sign text max_value true magnitude v w e minus plus =
    let none_left = minus refl in
    (omega (arith, none_left), inr (subst (Written text true) e w, none_left))
by_sign text max_value false magnitude v w e minus plus =
    (plus refl, inl (subst (Written text false) e w))

accepted_positive :
    (max_value v : ℕ)
    → v ≤ max_value
    → max_value < 2 ^ 63
    → accepted
        (record {
          any = true;
          negative = false;
          magnitude = v;
          out_of_range = leb (2 ^ 63) v;
          rest = [];
        })
        max_value
      ≡ some v
unfolding accepted
accepted_positive max_value v fits small = ground arith

accepted_zero :
    (max_value v : ℕ)
    → v ≡ 0
    → accepted
        (record {
          any = true;
          negative = true;
          magnitude = v;
          out_of_range = ltb (2 ^ 63) v;
          rest = [];
        })
        max_value
      ≡ some v
unfolding accepted
accepted_zero max_value v e = ground arith

-- Below a largest value that a `long long` holds: a text is accepted with a value exactly if it is nothing
-- but spaces, a sign or none and digits of that value, the value is at most the largest, and a minus stands before no value but 0. So a text with anything
-- behind the digits, without digits, with a negative number or with a number that does not fit is
-- refused.
pub parse_nonnegative-Written :
    (text : List ℕ) (max_value v : ℕ)
    → max_value < 2 ^ 63
    → (parse_nonnegative text max_value ≡ some v)
      ↔ ((v ≤ max_value) × (Written text false v ⊎ (Written text true v × (v ≡ 0))))
unfolding parse_nonnegative
parse_nonnegative-Written text max_value v small = (
  λ e.
      let (any, ends, same, minus, plus) = accepted-some (strtoll text) max_value v e in
      by_sign text max_value (strtoll text).negative (strtoll text).magnitude v
        (strtoll_sound text any ends) same minus plus,
  λ h. elim h.1 [
    | inl w ↦ rw (strtoll_complete text false v w) (accepted_positive max_value v h.0 small)
    | inr (w, zero_) ↦ rw (strtoll_complete text true v w) (accepted_zero max_value v zero_)
  ],
)
