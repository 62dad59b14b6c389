-- ===== src/Flow/SynWindow.antt =====
-- The table of half-open connections: the loop that expires SYNs drops exactly the pending ones
-- that are older than the cutoff, without a scan of the table.
use net_sentinel.Base.{
  ◌≡◌, refl, ◌∙◌, ◌⊎◌, inl, inr, true, false, none, some, List, [], ◌∷◌, ◌++◌, ℤ, ltb_ℤ, eq_ℤ, ◌≤ℤ◌,
  find, IsMap, arith, erase-IsMap, find-erase, find-erase_ne, find-erase_self, Bool-cases,
  Option-cases, eq_of_parts,
}
use net_sentinel.Flow.{FlowKey, FlowKey-discrete}
use net_sentinel.Flow.Timed.{drop_before, IsSorted, NotBefore}
use net_sentinel.Flow.Rules.{expire_syn, expire_syns}

-- The SYN of a key at a time stands in an ordering deque.
abbrev pub Has : ℤ → FlowKey → List (ℤ × FlowKey) → Type 0
Has t key [] = ⊥
Has t key ((u, k) ∷ order) = ((u ≡ t) × (k ≡ key)) ⊎ Has t key order

pub Has-append_left :
    (t : ℤ) (key : FlowKey) (xs ys : List (ℤ × FlowKey)) → Has t key xs → Has t key (xs ++ ys)
Has-append_left t key [] ys h = absurd h
Has-append_left t key ((u, k) ∷ xs) ys (inl e) = inl e
Has-append_left t key ((u, k) ∷ xs) ys (inr h) = inr (Has-append_left t key xs ys h)

pub Has-snoc : (t : ℤ) (key : FlowKey) (xs : List (ℤ × FlowKey)) → Has t key (xs ++ (t, key) ∷ [])
Has-snoc t key [] = inl (refl, refl)
Has-snoc t key ((u, k) ∷ xs) = inr (Has-snoc t key xs)

Has-NotBefore :
    (s t : ℤ) (key : FlowKey) (xs : List (ℤ × FlowKey)) → NotBefore s xs → Has t key xs → s ≤ℤ t
Has-NotBefore s t key [] n h = absurd h
Has-NotBefore s t key ((u, k) ∷ xs) n (inl (e, _)) = rw (← e) n.0
Has-NotBefore s t key ((u, k) ∷ xs) n (inr h) = Has-NotBefore s t key xs n.1 h

expire_syn-IsMap :
    (u : ℤ) (k : FlowKey) (pending : List (FlowKey × ℤ))
    → IsMap FlowKey-discrete pending
    → IsMap FlowKey-discrete (expire_syn u k pending)
unfolding expire_syn
expire_syn-IsMap u k pending m = elim (Option-cases (find FlowKey-discrete k pending)) [
  | inl e ↦ rw (e, expire_syn) m
  | inr (t, e) ↦ elim (Bool-cases (eq_ℤ t u)) [
    | inl same ↦ rw (e, expire_syn) (rw same (erase-IsMap FlowKey-discrete k pending m))
    | inr other ↦ rw (e, expire_syn) (rw other m)
  ]
]

-- One expiry takes the key's entry if its time is the queued one, and no other entry.
expire_syn-find :
    (u : ℤ) (k key : FlowKey) (pending : List (FlowKey × ℤ))
    → IsMap FlowKey-discrete pending
    → (find FlowKey-discrete key (expire_syn u k pending) ≡ find FlowKey-discrete key pending)
      ⊎ ((k ≡ key)
          × (find FlowKey-discrete key pending ≡ some u)
          × (find FlowKey-discrete key (expire_syn u k pending) ≡ none))
unfolding expire_syn
expire_syn-find u k key pending m = elim (Option-cases (find FlowKey-discrete k pending)) [
  | inl e ↦ rw (e, expire_syn) (inl refl)
  | inr (t, e) ↦ elim (Bool-cases (eq_ℤ t u)) [
    | inr other ↦ rw (e, expire_syn) (rw other (inl refl))
    | inl same ↦
        rw (e, expire_syn)
          (rw same (elim (FlowKey-discrete k key) [
            | yes hit ↦
                let t_u : t ≡ u = eq_of_parts t u (ground arith) in
                inr (hit, ground arith, ground (arith, find-erase FlowKey-discrete k key pending m))
            | no miss ↦ inl (find-erase_ne FlowKey-discrete k key pending miss)
          ]))
  ]
]

expire_syn_hit :
    (u : ℤ) (key : FlowKey) (pending : List (FlowKey × ℤ))
    → IsMap FlowKey-discrete pending
    → find FlowKey-discrete key pending ≡ some u
    → find FlowKey-discrete key (expire_syn u key pending) ≡ none
unfolding expire_syn
expire_syn_hit u key pending m e =
    let same : eq_ℤ u u ≡ true = ground arith in
    rw (e, expire_syn) (rw same (find-erase_self FlowKey-discrete key pending m))

-- An entry that is not older than the cutoff stays.
pub expire_syns_kept :
    (cutoff : ℤ) (order : List (ℤ × FlowKey)) (pending : List (FlowKey × ℤ)) (key : FlowKey) (t : ℤ)
    → IsMap FlowKey-discrete pending
    → ltb_ℤ t cutoff ≡ false
    → find FlowKey-discrete key pending ≡ some t
    → find FlowKey-discrete key (expire_syns cutoff order pending).1 ≡ some t
unfolding expire_syns
expire_syns_kept cutoff [] pending key t m young e = e
expire_syns_kept cutoff ((u, k) ∷ order) pending key t m young e =
    elim (Bool-cases (ltb_ℤ u cutoff)) [
      | inl old ↦ rw old (
          expire_syns_kept cutoff order (expire_syn u k pending) key t
            (expire_syn-IsMap u k pending m) young (still (expire_syn-find u k key pending m) old))
      | inr kept ↦ rw kept e
    ]
  where
    still :
        (find FlowKey-discrete key (expire_syn u k pending) ≡ find FlowKey-discrete key pending)
          ⊎ ((k ≡ key)
              × (find FlowKey-discrete key pending ≡ some u)
              × (find FlowKey-discrete key (expire_syn u k pending) ≡ none))
        → ltb_ℤ u cutoff ≡ true
        → find FlowKey-discrete key (expire_syn u k pending) ≡ some t
    still (inl same) old = same ∙ e
    still (inr (_, found, _)) old = absurd (ground arith)

pub expire_syns_absent :
    (cutoff : ℤ) (order : List (ℤ × FlowKey)) (pending : List (FlowKey × ℤ)) (key : FlowKey)
    → IsMap FlowKey-discrete pending
    → find FlowKey-discrete key pending ≡ none
    → find FlowKey-discrete key (expire_syns cutoff order pending).1 ≡ none
unfolding expire_syns
expire_syns_absent cutoff [] pending key m e = e
expire_syns_absent cutoff ((u, k) ∷ order) pending key m e = elim (Bool-cases (ltb_ℤ u cutoff)) [
  | inl old ↦ rw old (
      expire_syns_absent cutoff order (expire_syn u k pending) key (expire_syn-IsMap u k pending m)
        (elim (expire_syn-find u k key pending m) [
          | inl same ↦ same ∙ e
          | inr (_, _, gone) ↦ gone
        ]))
  | inr kept ↦ rw kept e
]

-- An entry that is older than the cutoff goes, if its SYN is in the order and the order is sorted.
pub expire_syns_old :
    (cutoff : ℤ) (order : List (ℤ × FlowKey)) (pending : List (FlowKey × ℤ)) (key : FlowKey) (t : ℤ)
    → IsMap FlowKey-discrete pending
    → IsSorted order
    → ltb_ℤ t cutoff ≡ true
    → Has t key order
    → find FlowKey-discrete key pending ≡ some t
    → find FlowKey-discrete key (expire_syns cutoff order pending).1 ≡ none
unfolding expire_syns
expire_syns_old cutoff [] pending key t m s past h e = absurd h
expire_syns_old cutoff ((u, k) ∷ order) pending key t m s past (inl (same, same_key)) e =
    let old : ltb_ℤ u cutoff ≡ true = rw same past in
    rw old (
      expire_syns_absent cutoff order (expire_syn u k pending) key (expire_syn-IsMap u k pending m)
        (rw (same, same_key) (expire_syn_hit t key pending m e)))
expire_syns_old cutoff ((u, k) ∷ order) pending key t m s past (inr h) e =
    let le : u ≤ℤ t = Has-NotBefore u t key order s.0 h in
    let old : ltb_ℤ u cutoff ≡ true = ground arith in
    let m' = expire_syn-IsMap u k pending m in
    rw old (elim (expire_syn-find u k key pending m) [
      | inl same ↦
          expire_syns_old cutoff order (expire_syn u k pending) key t m' s.1 past h (same ∙ e)
      | inr (_, _, gone) ↦ expire_syns_absent cutoff order (expire_syn u k pending) key m' gone
    ])

pub expire_syns-IsMap :
    (cutoff : ℤ) (order : List (ℤ × FlowKey)) (pending : List (FlowKey × ℤ))
    → IsMap FlowKey-discrete pending
    → IsMap FlowKey-discrete (expire_syns cutoff order pending).1
unfolding expire_syns
expire_syns-IsMap cutoff [] pending m = m
expire_syns-IsMap cutoff ((u, k) ∷ order) pending m = elim (Bool-cases (ltb_ℤ u cutoff)) [
  | inl old ↦
      rw old
        (expire_syns-IsMap cutoff order (expire_syn u k pending) (expire_syn-IsMap u k pending m))
  | inr kept ↦ rw kept m
]

pub expire_syns-order :
    (cutoff : ℤ) (order : List (ℤ × FlowKey)) (pending : List (FlowKey × ℤ))
    → (expire_syns cutoff order pending).0 ≡ drop_before cutoff order
unfolding expire_syns
expire_syns-order cutoff [] pending = refl
expire_syns-order cutoff ((u, k) ∷ order) pending =
    ground (arith, expire_syns-order cutoff order (expire_syn u k pending))
