-- ===== src/Flow/HalfOpen.antt =====
-- Half-open connections: those whose last handshake packet from the source is a SYN without ACK.
-- The table of pending SYNs and its order against them, over the history of the source.
use net_sentinel.Base.{
  ◌≡◌, refl, sym, subst, ◌∙◌, Bool, true, false, not, ◌&&◌, if◌then◌else◌, List, [], ◌∷◌, ◌++◌, ℤ,
  ◌≤ℤ◌, ltb_ℤ, arith, Bool-cases, inl, inr, Option, none, some, ite, find, IsMap, insert-IsMap,
  erase-IsMap, find-insert, find-erase,
}
use net_sentinel.Packet.{ParsedPacket}
use net_sentinel.Flow.{
  PerIpState, FlowKey, FlowKey-discrete, is_tcp, has_flag, k_tcp_flag_syn, k_tcp_flag_ack,
}
use net_sentinel.Flow.Timed.{
  UpTo, UpTo-mono, IsSorted, since, drop_before-since, since-since, since-append, since-IsSorted,
  snoc-IsSorted, snoc-UpTo,
}
use net_sentinel.Flow.Rules.{flow_key, note_handshake, expire_syns}
use net_sentinel.Flow.SynWindow.{
  Has, Has-append_left, Has-snoc, expire_syns_kept, expire_syns_absent, expire_syns_old,
  expire_syns-IsMap, expire_syns-order,
}
use net_sentinel.Flow.History.{History, Latest, IsMonotone}

unfoldable pub opens : ParsedPacket → Bool
opens meta =
    is_tcp meta.transport
    && has_flag meta.tcp_flags k_tcp_flag_syn
    && not (has_flag meta.tcp_flags k_tcp_flag_ack)

unfoldable pub acks : ParsedPacket → Bool
acks meta = is_tcp meta.transport && has_flag meta.tcp_flags k_tcp_flag_ack

-- The SYNs of a history, oldest first.
abbrev pub syns : History → List (ℤ × FlowKey)
syns [] = []
syns ((meta, t) ∷ older) = if opens meta then syns older ++ (t, flow_key meta) ∷ [] else syns older

-- The time of the last SYN of a connection that no later ACK of the source has answered.
abbrev pub half_open : FlowKey → History → Option ℤ
half_open key [] = none
half_open key ((meta, t) ∷ older) =
    ite (FlowKey-discrete (flow_key meta) key)
      (if opens meta then some t else if acks meta then none else half_open key older)
      (half_open key older)

-- A SYN that is not older than the cutoff.
abbrev pub within : ℤ → Option ℤ → Option ℤ
within cutoff none = none
within cutoff (some t) = if ltb_ℤ t cutoff then none else some t

syns-UpTo : (now : ℤ) (h : History) → Latest now h → IsMonotone h → UpTo now (syns h)
syns-UpTo now [] l m = tt
syns-UpTo now ((meta, t) ∷ older) l m = elim (Bool-cases (opens meta)) [
  | inl a ↦ rw a (
      snoc-UpTo now t (flow_key meta) (syns older) l
        (UpTo-mono t now (syns older) l (syns-UpTo t older m.0 m.1)))
  | inr n ↦ rw n (UpTo-mono t now (syns older) l (syns-UpTo t older m.0 m.1))
]

syns-IsSorted : (h : History) → IsMonotone h → IsSorted (syns h)
syns-IsSorted [] m = tt
syns-IsSorted ((meta, t) ∷ older) m = elim (Bool-cases (opens meta)) [
  | inl a ↦ rw a (
      snoc-IsSorted t (flow_key meta) (syns older) (syns-UpTo t older m.0 m.1)
        (syns-IsSorted older m.1))
  | inr n ↦ rw n (syns-IsSorted older m.1)
]

pub half_open-Has :
    (key : FlowKey) (h : History) (t : ℤ) → half_open key h ≡ some t → Has t key (syns h)
half_open-Has key [] t e = absurd (cc)
half_open-Has key ((meta, u) ∷ older) t e = elim (Bool-cases (opens meta)) [
  | inl a ↦ rw a (elim (FlowKey-discrete (flow_key meta) key) [
    | yes hit ↦ rw hit (
        subst (λ (s : ℤ). Has t key (syns older ++ (s, key) ∷ [])) (sym (u_t hit a))
          (Has-snoc t key (syns older)))
    | no miss ↦ Has-append_left t key (syns older) _ (half_open-Has key older t (ground arith))
  ])
  | inr n ↦ rw n (half_open-Has key older t (ground arith))
]
  where
    u_t : flow_key meta ≡ key → opens meta ≡ true → u ≡ t
    u_t hit a = ground arith

Has-since :
    (c t : ℤ) (key : FlowKey) (xs : List (ℤ × FlowKey))
    → ltb_ℤ t c ≡ false
    → Has t key xs
    → Has t key (since c xs)
Has-since c t key [] young h = absurd h
Has-since c t key ((u, k) ∷ xs) young (inl (e, k_e)) = rw e (rw young (inl (refl, k_e)))
Has-since c t key ((u, k) ∷ xs) young (inr h) = elim (Bool-cases (ltb_ℤ u c)) [
  | inl old ↦ rw old (Has-since c t key xs young h)
  | inr new ↦ rw new (inr (Has-since c t key xs young h))
]

-- What `note_handshake` does to the table.
find-note_handshake :
    (meta : ParsedPacket) (t : ℤ) (state : PerIpState) (key : FlowKey)
    → is_tcp meta.transport ≡ true
    → IsMap FlowKey-discrete state.pending_syns
    → find FlowKey-discrete key (note_handshake meta t state).pending_syns
      ≡ ite
          (FlowKey-discrete (flow_key meta) key)
          (if opens meta
            then some t
            else if acks meta
            then none
            else find FlowKey-discrete key state.pending_syns)
          (find FlowKey-discrete key state.pending_syns)
unfolding note_handshake opens acks
find-note_handshake meta t state key tcp m = ground (
  arith,
  find-insert FlowKey-discrete (flow_key meta) key t state.pending_syns,
  find-erase FlowKey-discrete (flow_key meta) key state.pending_syns m,
)

note_handshake-IsMap :
    (meta : ParsedPacket) (t : ℤ) (state : PerIpState)
    → IsMap FlowKey-discrete state.pending_syns
    → IsMap FlowKey-discrete (note_handshake meta t state).pending_syns
unfolding note_handshake
note_handshake-IsMap meta t state m = elim (Bool-cases is_ack) [
  | inl a ↦ rw a (rw (no_syn a) (erase-IsMap FlowKey-discrete (flow_key meta) state.pending_syns m))
  | inr n ↦ elim (Bool-cases is_syn) [
    | inl y ↦ rw (y, n) (insert-IsMap FlowKey-discrete (flow_key meta) t state.pending_syns m)
    | inr z ↦ rw (z, n) m
  ]
]
  where
    is_syn : Bool
    is_syn = has_flag meta.tcp_flags k_tcp_flag_syn

    is_ack : Bool
    is_ack = has_flag meta.tcp_flags k_tcp_flag_ack

    no_syn : is_ack ≡ true → (is_syn && false) ≡ false
    no_syn a = ground arith

order-note_handshake :
    (meta : ParsedPacket) (t : ℤ) (state : PerIpState)
    → is_tcp meta.transport ≡ true
    → (note_handshake meta t state).pending_syn_order ≡ (
        if opens meta
        then state.pending_syn_order ++ (t, flow_key meta) ∷ []
        else state.pending_syn_order)
unfolding note_handshake opens
order-note_handshake meta t state tcp = ground arith

-- The table and its order against a history: both hold what is not older than `c`.
pub record Tracks (c : ℤ) (h : History) (pending : List (FlowKey × ℤ)) (order : List (ℤ × FlowKey))
    : Type 0 where
  pub is_map : IsMap FlowKey-discrete pending
  pub ordered : order ≡ since c (syns h)
  pub half : (key : FlowKey) → find FlowKey-discrete key pending ≡ within c (half_open key h)

pub note_handshake-Tracks :
    (c t : ℤ) (meta : ParsedPacket) (h : History) (state : PerIpState)
    → is_tcp meta.transport ≡ true
    → c ≤ℤ t
    → Tracks c h state.pending_syns state.pending_syn_order
    → let noted = note_handshake meta t state in
      Tracks c ((meta, t) ∷ h) noted.pending_syns noted.pending_syn_order
note_handshake-Tracks c t meta h state tcp le tr = record {
  is_map = note_handshake-IsMap meta t state tr.is_map;
  ordered =
      order-note_handshake meta t state tcp
      ∙ rw tr.ordered (elim (Bool-cases (opens meta)) [
        | inl a ↦ rw a (rw (since-append c (syns h)) (ground arith))
        | inr n ↦ rw n
      ]);
  half = λ key. ground (arith, find-note_handshake meta t state key tcp tr.is_map, tr.half key);
}

pub expire_syns-Tracks :
    (c d : ℤ) (h : History) (pending : List (FlowKey × ℤ)) (order : List (ℤ × FlowKey))
    → c ≤ℤ d
    → IsMonotone h
    → Tracks c h pending order
    → let (order', pending') = expire_syns d order pending in Tracks d h pending' order'
expire_syns-Tracks c d h pending order le m tr = record {
  is_map = expire_syns-IsMap d order pending tr.is_map;
  ordered =
      expire_syns-order d order pending
      ∙ rw tr.ordered (
          drop_before-since d (since c (syns h)) (since-IsSorted c (syns h) (syns-IsSorted h m))
          ∙ since-since c d (syns h) le);
  half = λ key. split key (half_open key h) refl;
}
  where
    split :
        (key : FlowKey) (o : Option ℤ)
        → half_open key h ≡ o
        → find FlowKey-discrete key (expire_syns d order pending).1 ≡ within d (half_open key h)
    split key none e = rw e (expire_syns_absent d order pending key tr.is_map (tr.half key ∙ rw e))
    split key (some t) e = elim (Bool-cases (ltb_ℤ t c)) [
      | inl old ↦ rw e (
          expire_syns_absent d order pending key tr.is_map (tr.half key ∙ rw e (rw old))
          ∙ ground arith)
      | inr young ↦ elim (Bool-cases (ltb_ℤ t d)) [
        | inl past ↦ rw e (
            rw past (
              expire_syns_old d order pending key t tr.is_map
                (rw tr.ordered (since-IsSorted c (syns h) (syns-IsSorted h m))) past
                (rw tr.ordered (Has-since c t key (syns h) young (half_open-Has key h t e)))
                (tr.half key ∙ rw e (rw young))))
        | inr kept ↦ rw e (
            rw kept (
              expire_syns_kept d order pending key t tr.is_map kept
                (tr.half key ∙ rw e (rw young))))
      ]
    ]
