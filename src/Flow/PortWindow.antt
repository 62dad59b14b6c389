-- ===== src/Flow/PortWindow.antt =====
-- The port window: the map `port_counts` against the deque `recent_dst_ports`.
use net_sentinel.Base.{
  ℕ, ◌+◌, ◌-◌, ◌%◌, ◌^◌, ◌≤◌, ◌<◌, ◌≡◌, refl, ◌≢◌, ◌↔◌, ap, ◌==◌, if◌then◌else◌, Option, none, some,
  List, [], ◌∷◌, ◌++◌, ℤ, ◌-ℤ◌, ltb_ℤ, find, erase, length, ℕ_discrete, IsMap, arith, find-insert,
  insert-IsMap, erase-IsMap, find-erase, length-erase, all_absent, Bool-cases, Option-cases, inl,
  inr, length-append,
}
use net_sentinel.Packet.{ParsedPacket}
use net_sentinel.Flow.{FlowTrackerConfig, PerIpState}
use net_sentinel.Flow.Timed.{drop_before}
use net_sentinel.Flow.Rules.{count_port, uncount_port, expire_ports, slide_ports}

-- How often a port stands in a window.
abbrev pub count : ℕ → List (ℤ × ℕ) → ℕ
count port [] = 0
count port ((t, q) ∷ window) = (if q == port then 1 else 0) + count port window

-- The number of distinct ports of a window.
abbrev pub distinct : List (ℤ × ℕ) → ℕ
distinct [] = 0
distinct ((t, q) ∷ window) = (if count q window == 0 then 1 else 0) + distinct window

-- The entry that a port has in the counts.
abbrev pub entry : ℕ → Option ℕ
entry c = if c == 0 then none else some c

pub record Mirrors (counts : List (ℕ × ℕ)) (window : List (ℤ × ℕ)) : Type 0 where
  pub is_map : IsMap ℕ_discrete counts
  pub agrees : (port : ℕ) → find ℕ_discrete port counts ≡ entry (count port window)

count-le-length : (port : ℕ) (window : List (ℤ × ℕ)) → count port window ≤ length window
count-le-length port [] = omega arith
count-le-length port ((t, q) ∷ window) = ground (arith, count-le-length port window)

count-snoc :
    (port : ℕ) (window : List (ℤ × ℕ)) (t : ℤ) (q : ℕ)
    → count port (window ++ (t, q) ∷ []) ≡ count port window + (if q == port then 1 else 0)
count-snoc port [] t q = omega arith
count-snoc port ((u, r) ∷ window) t q = omega (arith, count-snoc port window t q)

count_port-IsMap :
    (port : ℕ) (counts : List (ℕ × ℕ))
    → IsMap ℕ_discrete counts
    → IsMap ℕ_discrete (count_port port counts)
unfolding count_port
count_port-IsMap port counts h = elim (Option-cases (find ℕ_discrete port counts)) [
  | inl e ↦ rw (e, count_port) (insert-IsMap ℕ_discrete port 1 counts h)
  | inr (c, e) ↦ rw (e, count_port) (insert-IsMap ℕ_discrete port _ counts h)
]

uncount_port-IsMap :
    (port : ℕ) (counts : List (ℕ × ℕ))
    → IsMap ℕ_discrete counts
    → IsMap ℕ_discrete (uncount_port port counts)
unfolding uncount_port
uncount_port-IsMap port counts h = elim (Option-cases (find ℕ_discrete port counts)) [
  | inl e ↦ rw (e, uncount_port) h
  | inr (c, e) ↦ elim (Bool-cases ((c + (2 ^ 32 - 1)) % 2 ^ 32 == 0)) [
    | inl z ↦ rw (e, uncount_port) (rw z (erase-IsMap ℕ_discrete port counts h))
    | inr n ↦ rw (e, uncount_port) (rw n (insert-IsMap ℕ_discrete port _ counts h))
  ]
]

pub count_port-Mirrors :
    (t : ℤ) (port : ℕ) (counts : List (ℕ × ℕ)) (window : List (ℤ × ℕ))
    → length window + 1 < 2 ^ 32
    → Mirrors counts window
    → Mirrors (count_port port counts) (window ++ (t, port) ∷ [])
unfolding count_port
count_port-Mirrors t port counts window small m = record {
  is_map = count_port-IsMap port counts m.is_map;
  agrees = λ q. grind (
    arith,
    m.agrees port,
    m.agrees q,
    count-snoc q window t port,
    count-le-length port window,
    find-insert ℕ_discrete port q,
  );
}

uncount_port-Mirrors :
    (t : ℤ) (port : ℕ) (counts : List (ℕ × ℕ)) (window : List (ℤ × ℕ))
    → length window + 1 < 2 ^ 32
    → Mirrors counts ((t, port) ∷ window)
    → Mirrors (uncount_port port counts) window
unfolding uncount_port
uncount_port-Mirrors t port counts window small m = record {
  is_map = uncount_port-IsMap port counts m.is_map;
  agrees = λ q. grind (
    arith,
    m.agrees port,
    m.agrees q,
    count-le-length port window,
    find-insert ℕ_discrete port q,
    find-erase ℕ_discrete port q counts m.is_map,
  );
}

-- Expiry keeps the counts exact, whatever the times are.
expire_ports-Mirrors :
    (cutoff : ℤ) (window : List (ℤ × ℕ)) (counts : List (ℕ × ℕ))
    → length window < 2 ^ 32
    → Mirrors counts window
    → Mirrors (expire_ports cutoff window counts).1 (expire_ports cutoff window counts).0
unfolding expire_ports
expire_ports-Mirrors cutoff [] counts small m = m
expire_ports-Mirrors cutoff ((t, port) ∷ window) counts small m =
    elim (Bool-cases (ltb_ℤ t cutoff)) [
      | inl old ↦ rw old (
          expire_ports-Mirrors cutoff window (uncount_port port counts) (omega arith)
            (uncount_port-Mirrors t port counts window (omega arith) m))
      | inr kept ↦ rw kept m
    ]

-- Sliding the port window keeps its counts exact: if the counts hold, without duplicates, exactly
-- the ports of the deque, each with the number of its events, they do so after the new event is added
-- and the old ones are expired. The deque has fewer than 2 ^ 32 - 1 events before.
pub slide_ports-Mirrors :
    (config : FlowTrackerConfig) (meta : ParsedPacket) (now_ms : ℤ) (state : PerIpState)
    → length state.recent_dst_ports + 1 < 2 ^ 32
    → Mirrors state.port_counts state.recent_dst_ports
    → let slid = slide_ports config meta now_ms state in
      Mirrors slid.port_counts slid.recent_dst_ports
unfolding slide_ports
slide_ports-Mirrors config meta now_ms state small m =
    expire_ports-Mirrors _ (state.recent_dst_ports ++ (now_ms, meta.dst_port) ∷ [])
      (count_port meta.dst_port state.port_counts)
      (omega (arith, length-append state.recent_dst_ports ((now_ms, meta.dst_port) ∷ [])))
      (count_port-Mirrors now_ms meta.dst_port state.port_counts state.recent_dst_ports small m)

-- The ports with an entry are those of the window.
abbrev Covers : List (ℕ × ℕ) → List (ℤ × ℕ) → Type 0
Covers counts window = (port : ℕ) → (find ℕ_discrete port counts ≡ none) ↔ (count port window ≡ 0)

Mirrors-Covers :
    (counts : List (ℕ × ℕ)) (window : List (ℤ × ℕ)) → Mirrors counts window → Covers counts window
Mirrors-Covers counts window m port = ground (arith, m.agrees port)

Covers-repeat :
    (t : ℤ) (q : ℕ) (counts : List (ℕ × ℕ)) (window : List (ℤ × ℕ))
    → count q window ≢ 0
    → Covers counts ((t, q) ∷ window)
    → Covers counts window
Covers-repeat t q counts window seen c port = ground (arith, c port)

Covers-erase :
    (t : ℤ) (q : ℕ) (counts : List (ℕ × ℕ)) (window : List (ℤ × ℕ))
    → IsMap ℕ_discrete counts
    → count q window ≡ 0
    → Covers counts ((t, q) ∷ window)
    → Covers (erase ℕ_discrete q counts) window
Covers-erase t q counts window h first c port =
    ground (arith, c port, find-erase ℕ_discrete q port counts h)

Covers-head :
    (t : ℤ) (q : ℕ) (counts : List (ℕ × ℕ)) (window : List (ℤ × ℕ))
    → Covers counts ((t, q) ∷ window)
    → (v : ℕ) × (find ℕ_discrete q counts ≡ some v)
Covers-head t q counts window c = elim (Option-cases (find ℕ_discrete q counts)) [
  | inl e ↦ absurd (ground (arith, c q))
  | inr found ↦ found
]

length-distinct :
    (window : List (ℤ × ℕ)) (counts : List (ℕ × ℕ))
    → IsMap ℕ_discrete counts
    → Covers counts window
    → length counts ≡ distinct window
length-distinct [] counts h c = ap length (all_absent ℕ_discrete counts (λ k. (c k).1 refl))
length-distinct ((t, q) ∷ window) counts h c = elim (ℕ_discrete (count q window) 0) [
  | yes first ↦
      let (v, found) = Covers-head t q counts window c in
      ground (
        arith,
        length-erase ℕ_discrete q v counts found,
        length-distinct window (erase ℕ_discrete q counts) (erase-IsMap ℕ_discrete q counts h)
            (Covers-erase t q counts window h first c),
      )
  | no seen ↦
      ground (arith, length-distinct window counts h (Covers-repeat t q counts window seen c))
]

pub length-Mirrors :
    (counts : List (ℕ × ℕ)) (window : List (ℤ × ℕ))
    → Mirrors counts window
    → length counts ≡ distinct window
length-Mirrors counts window m =
    length-distinct window counts m.is_map (Mirrors-Covers counts window m)

expire_ports-window :
    (cutoff : ℤ) (window : List (ℤ × ℕ)) (counts : List (ℕ × ℕ))
    → (expire_ports cutoff window counts).0 ≡ drop_before cutoff window
unfolding expire_ports
expire_ports-window cutoff [] counts = refl
expire_ports-window cutoff ((t, port) ∷ window) counts =
    ground (arith, expire_ports-window cutoff window (uncount_port port counts))

pub slide_ports-window :
    (config : FlowTrackerConfig) (meta : ParsedPacket) (now_ms : ℤ) (state : PerIpState)
    → (slide_ports config meta now_ms state).recent_dst_ports
      ≡ drop_before
          (now_ms -ℤ config.port_scan_window_ms)
          (state.recent_dst_ports ++ (now_ms, meta.dst_port) ∷ [])
unfolding slide_ports
slide_ports-window config meta now_ms state =
    expire_ports-window (now_ms -ℤ config.port_scan_window_ms)
      (state.recent_dst_ports ++ (now_ms, meta.dst_port) ∷ [])
      (count_port meta.dst_port state.port_counts)

pub empty-Mirrors : Mirrors [] []
unfolding find
empty-Mirrors = record { is_map = tt; agrees = λ port. refl }

length-drop_before : (c : ℤ) (xs : List (ℤ × ℕ)) → length (drop_before c xs) ≤ length xs
length-drop_before c [] = omega arith
length-drop_before c ((t, q) ∷ xs) = ground (arith, length-drop_before c xs)

pub length-slide_ports :
    (config : FlowTrackerConfig) (meta : ParsedPacket) (now_ms : ℤ) (state : PerIpState)
    → length (slide_ports config meta now_ms state).recent_dst_ports
      ≤ length state.recent_dst_ports + 1
length-slide_ports config meta now_ms state = rw (slide_ports-window config meta now_ms state) (
    omega (
      arith,
      length-drop_before (now_ms -ℤ config.port_scan_window_ms)
          (state.recent_dst_ports ++ (now_ms, meta.dst_port) ∷ []),
      length-append state.recent_dst_ports ((now_ms, meta.dst_port) ∷ []),
    ))
