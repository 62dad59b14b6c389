-- ===== src/Flow/Eviction.antt =====
-- `evict_stale`: what a sweep keeps, what it forgets, and how many records it leaves.
use net_sentinel.Base.{
  ℕ, ◌+◌, ◌≤◌, ◌≡◌, refl, ◌⊎◌, ◌∙◌, Bool, false, not, ◌&&◌, ◌==◌, if◌then◌else◌, max, List, [], ◌∷◌,
  ℤ, ◌-ℤ◌, ltb_ℤ, arith, length, none, some, find, IsMap, ℕ_discrete,
}
use net_sentinel.Flow.{FlowTrackerConfig, PerIpState, Shard}
use net_sentinel.Flow.Shards.{evict_idle, evict_excess, evict_stale}

abbrev has : ℕ → List (ℕ × PerIpState) → ℕ
has ip m = elim (find ℕ_discrete ip m) [ none ↦ 0 | some s ↦ 1 ]

-- Whether a sweep at `now_ms` counts a record as idle.
abbrev pub is_idle : FlowTrackerConfig → ℤ → PerIpState → Bool
is_idle config now_ms state = ltb_ℤ state.last_seen_ms (now_ms -ℤ config.idle_ttl_ms)

length-evict_excess :
    (cap keep_ip passed : ℕ) (m : List (ℕ × PerIpState))
    → IsMap ℕ_discrete m
    → passed + length (evict_excess cap keep_ip passed m) ≤ max cap (passed + has keep_ip m)
unfolding evict_excess find
length-evict_excess cap keep_ip passed [] h = omega arith
length-evict_excess cap keep_ip passed ((ip, s) ∷ m) (fresh, h) = ground (
  arith,
  length-evict_excess cap keep_ip (passed + 1) m h,
  length-evict_excess cap keep_ip passed m h,
)

evict_excess_fits :
    (cap keep_ip passed : ℕ) (m : List (ℕ × PerIpState))
    → passed + length m ≤ cap
    → evict_excess cap keep_ip passed m ≡ m
unfolding evict_excess
evict_excess_fits cap keep_ip passed [] h = refl
evict_excess_fits cap keep_ip passed ((ip, s) ∷ m) h = ground arith

-- A sweep loop drops entries and changes none.
evict_excess_absent :
    (cap keep_ip passed ip : ℕ) (m : List (ℕ × PerIpState))
    → find ℕ_discrete ip m ≡ none
    → find ℕ_discrete ip (evict_excess cap keep_ip passed m) ≡ none
unfolding evict_excess find
evict_excess_absent cap keep_ip passed ip [] e = refl
evict_excess_absent cap keep_ip passed ip ((j, s) ∷ m) e = ground (
  arith,
  evict_excess_absent cap keep_ip (passed + 1) ip m,
  evict_excess_absent cap keep_ip passed ip m,
)

evict_excess_found :
    (cap keep_ip passed ip : ℕ) (m : List (ℕ × PerIpState)) (s : PerIpState)
    → IsMap ℕ_discrete m
    → find ℕ_discrete ip (evict_excess cap keep_ip passed m) ≡ some s
    → find ℕ_discrete ip m ≡ some s
unfolding evict_excess find
evict_excess_found cap keep_ip passed ip [] s h e = e
evict_excess_found cap keep_ip passed ip ((j, u) ∷ m) s (fresh, h) e = ground (
  arith,
  evict_excess_found cap keep_ip (passed + 1) ip m s h,
  evict_excess_found cap keep_ip passed ip m s h,
  evict_excess_absent cap keep_ip passed ip m,
)

evict_excess_keeps :
    (cap keep_ip passed : ℕ) (m : List (ℕ × PerIpState))
    → find ℕ_discrete keep_ip (evict_excess cap keep_ip passed m) ≡ find ℕ_discrete keep_ip m
unfolding evict_excess find
evict_excess_keeps cap keep_ip passed [] = refl
evict_excess_keeps cap keep_ip passed ((j, u) ∷ m) =
    ground (
      arith,
      evict_excess_keeps cap keep_ip (passed + 1) m,
      evict_excess_keeps cap keep_ip passed m,
    )

evict_excess-IsMap :
    (cap keep_ip passed : ℕ) (m : List (ℕ × PerIpState))
    → IsMap ℕ_discrete m
    → IsMap ℕ_discrete (evict_excess cap keep_ip passed m)
unfolding evict_excess
evict_excess-IsMap cap keep_ip passed [] h = tt
evict_excess-IsMap cap keep_ip passed ((j, u) ∷ m) (fresh, h) = ground (
  arith,
  evict_excess-IsMap cap keep_ip (passed + 1) m h,
  evict_excess-IsMap cap keep_ip passed m h,
  evict_excess_absent cap keep_ip (passed + 1) j m,
)

-- The idle loop forgets exactly the idle records, but for the one that it is to keep.
find-evict_idle :
    (cutoff : ℤ) (keep_ip ip : ℕ) (m : List (ℕ × PerIpState))
    → IsMap ℕ_discrete m
    → find ℕ_discrete ip (evict_idle cutoff keep_ip m) ≡ elim (find ℕ_discrete ip m) [
      | none ↦ none
      | some s ↦ if not (ip == keep_ip) && ltb_ℤ s.last_seen_ms cutoff then none else some s
    ]
unfolding evict_idle find
find-evict_idle cutoff keep_ip ip [] h = refl
find-evict_idle cutoff keep_ip ip ((j, u) ∷ m) (fresh, h) =
    ground (arith, find-evict_idle cutoff keep_ip ip m h)

evict_idle-IsMap :
    (cutoff : ℤ) (keep_ip : ℕ) (m : List (ℕ × PerIpState))
    → IsMap ℕ_discrete m
    → IsMap ℕ_discrete (evict_idle cutoff keep_ip m)
unfolding evict_idle
evict_idle-IsMap cutoff keep_ip [] h = tt
evict_idle-IsMap cutoff keep_ip ((j, u) ∷ m) (fresh, h) =
    ground (arith, evict_idle-IsMap cutoff keep_ip m h, find-evict_idle cutoff keep_ip j m h)

module _ (config : FlowTrackerConfig) (now_ms : ℤ) (keep_ip : ℕ) (shard : Shard) where
  abbrev after_idle : List (ℕ × PerIpState)
  after_idle = evict_idle (now_ms -ℤ config.idle_ttl_ms) keep_ip shard.per_ip

  abbrev swept : List (ℕ × PerIpState)
  swept = (evict_stale config now_ms keep_ip shard).per_ip

  -- The source whose packet is being observed keeps its record unchanged through a sweep.
  pub evict_stale_keeps :
      IsMap ℕ_discrete shard.per_ip
      → find ℕ_discrete keep_ip (evict_stale config now_ms keep_ip shard).per_ip
        ≡ find ℕ_discrete keep_ip shard.per_ip
  unfolding evict_stale
  evict_stale_keeps h =
      evict_excess_keeps config.max_tracked_ips_per_shard keep_ip 0 after_idle
      ∙ find-evict_idle (now_ms -ℤ config.idle_ttl_ms) keep_ip keep_ip shard.per_ip h
      ∙ ground arith

  -- A sweep leaves at most the cap of records, or the kept one if the cap is 0.
  pub length-evict_stale :
      IsMap ℕ_discrete shard.per_ip
      → length (evict_stale config now_ms keep_ip shard).per_ip
        ≤ max config.max_tracked_ips_per_shard 1
  unfolding evict_stale
  length-evict_stale h = ground (
    arith,
    length-evict_excess config.max_tracked_ips_per_shard keep_ip 0 after_idle
        (evict_idle-IsMap (now_ms -ℤ config.idle_ttl_ms) keep_ip shard.per_ip h),
  )

  -- Every record that a sweep leaves was there before, unchanged, and is the kept one or not idle.
  pub evict_stale_sound :
      (ip : ℕ) (s : PerIpState)
      → IsMap ℕ_discrete shard.per_ip
      → find ℕ_discrete ip (evict_stale config now_ms keep_ip shard).per_ip ≡ some s
      → (find ℕ_discrete ip shard.per_ip ≡ some s)
        × ((ip ≡ keep_ip) ⊎ (is_idle config now_ms s ≡ false))
  unfolding evict_stale
  evict_stale_sound ip s h e = ground (
    arith,
    evict_excess_found config.max_tracked_ips_per_shard keep_ip 0 ip after_idle s
        (evict_idle-IsMap (now_ms -ℤ config.idle_ttl_ms) keep_ip shard.per_ip h) e,
    find-evict_idle (now_ms -ℤ config.idle_ttl_ms) keep_ip ip shard.per_ip h,
  )

  -- If the records that are not idle fit under the cap, a sweep forgets exactly the idle ones.
  pub evict_stale-find :
      (ip : ℕ)
      → IsMap ℕ_discrete shard.per_ip
      → length (evict_idle (now_ms -ℤ config.idle_ttl_ms) keep_ip shard.per_ip)
        ≤ config.max_tracked_ips_per_shard
      → find ℕ_discrete ip (evict_stale config now_ms keep_ip shard).per_ip
        ≡ elim (find ℕ_discrete ip shard.per_ip) [
          | none ↦ none
          | some s ↦ if not (ip == keep_ip) && is_idle config now_ms s then none else some s
        ]
  unfolding evict_stale
  evict_stale-find ip h fits =
      rw (evict_excess_fits config.max_tracked_ips_per_shard keep_ip 0 after_idle (omega arith))
        (find-evict_idle (now_ms -ℤ config.idle_ttl_ms) keep_ip ip shard.per_ip h)

  pub evict_stale-IsMap :
      IsMap ℕ_discrete shard.per_ip
      → IsMap ℕ_discrete (evict_stale config now_ms keep_ip shard).per_ip
  unfolding evict_stale
  evict_stale-IsMap h =
      evict_excess-IsMap config.max_tracked_ips_per_shard keep_ip 0 after_idle
        (evict_idle-IsMap (now_ms -ℤ config.idle_ttl_ms) keep_ip shard.per_ip h)

  pub evict_stale-count :
      (evict_stale config now_ms keep_ip shard).observations_since_sweep
      ≡ shard.observations_since_sweep
  unfolding evict_stale
  evict_stale-count = refl
