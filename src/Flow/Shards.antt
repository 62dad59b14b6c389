-- ===== src/Flow/Shards.antt =====
-- The shards, and the operations that keep them bounded: `shard_for`, `evict_stale`, `observe` and
-- `tracked_ip_count` of src/analysis/flow_tracker.cpp.
use net_sentinel.Base.{
  ℕ, ◌+◌, ◌%◌, ◌^◌, not, ◌&&◌, ltb, leb, ◌==◌, if◌then◌else◌, none, some, List, [], ◌∷◌, ℤ, ◌-ℤ◌,
  ltb_ℤ, find, insert, length, get_elem?, set, ℕ_discrete,
}
use net_sentinel.Packet.{ParsedPacket, QueuedPacket}
use net_sentinel.Alert.{Alert}
use net_sentinel.Flow.{FlowTrackerConfig, PerIpState, Shard, FlowTracker, timeval_to_ms, new_state}
use net_sentinel.Flow.Rules.{observe_state}

-- The first loop of `evict_stale`: idle records go, but never that of `keep_ip`.
unfoldable pub evict_idle : ℤ → ℕ → List (ℕ × PerIpState) → List (ℕ × PerIpState)
evict_idle idle_cutoff keep_ip [] = []
evict_idle idle_cutoff keep_ip ((ip, state) ∷ per_ip) =
    let rest = evict_idle idle_cutoff keep_ip per_ip in
    if not (ip == keep_ip) && ltb_ℤ state.last_seen_ms idle_cutoff then rest else (ip, state) ∷ rest

-- The second loop, at an iterator before `per_ip`, with `passed` records behind it.
unfoldable pub evict_excess : ℕ → ℕ → ℕ → List (ℕ × PerIpState) → List (ℕ × PerIpState)
evict_excess cap keep_ip passed [] = []
evict_excess cap keep_ip passed ((ip, state) ∷ per_ip) =
    let kept = (ip, state) ∷ evict_excess cap keep_ip (passed + 1) per_ip in
    let rest = evict_excess cap keep_ip passed per_ip in
    if ltb cap (passed + length ((ip, state) ∷ per_ip))
    then (if ip == keep_ip then kept else rest)
    else (ip, state) ∷ per_ip

unfoldable pub evict_stale : FlowTrackerConfig → ℤ → ℕ → Shard → Shard
evict_stale config now_ms keep_ip shard = record shard {
  per_ip =
      evict_excess config.max_tracked_ips_per_shard keep_ip 0
        (evict_idle (now_ms -ℤ config.idle_ttl_ms) keep_ip shard.per_ip);
}

-- `per_ip[ip]`, which makes a fresh record for a new key.
abbrev pub state_of : ℕ → Shard → PerIpState
state_of ip shard = elim (find ℕ_discrete ip shard.per_ip) [ none ↦ new_state | some s ↦ s ]

-- The part of `observe` under the shard's lock.
unfoldable pub observe_shard : FlowTrackerConfig → ParsedPacket → ℤ → Shard → Shard × List Alert
observe_shard config meta now_ms shard =
    let (state, alerts) = observe_state config meta now_ms (state_of meta.src_ip shard) in
    let per_ip = insert ℕ_discrete meta.src_ip state shard.per_ip in
    let seen = (shard.observations_since_sweep + 1) % 2 ^ 64 in
    if leb config.sweep_interval_packets seen
    then (
      evict_stale config now_ms meta.src_ip
          (record { per_ip = per_ip; observations_since_sweep = 0 }),
      alerts,
    )
    else (record { per_ip = per_ip; observations_since_sweep = seen }, alerts)

-- `hash32` is `std::hash<uint32_t>`.
module _ (hash32 : ℕ → ℕ) where
  -- The index of the shard of a source IP.
  abbrev pub shard_for : FlowTracker → ℕ → ℕ
  shard_for tracker src_ip = hash32 src_ip % length tracker.shards

  unfoldable pub observe : FlowTracker → QueuedPacket → FlowTracker × List Alert
  observe tracker packet =
      let meta = packet.meta in
      let i = shard_for tracker meta.src_ip in
      if meta.has_ip
      then elim (get_elem? tracker.shards i) [
        | none ↦ (tracker, [])
        | some shard ↦
            let (shard', alerts) =
              observe_shard tracker.config meta (timeval_to_ms meta.timestamp) shard in
            (record tracker { shards = set tracker.shards i shard' }, alerts)
      ]
      else (tracker, [])

unfoldable pub total_size : List Shard → ℕ
total_size [] = 0
total_size (shard ∷ shards) = length shard.per_ip + total_size shards

unfoldable pub tracked_ip_count : FlowTracker → ℕ
unfolding total_size
tracked_ip_count tracker = total_size tracker.shards
