-- ===== src/Flow/Bounds.antt =====
-- The size of shards and of the tracker, between sweeps and after them.
use net_sentinel.Base.{
  ℕ, ◌+◌, ◌-◌, ◌*◌, ◌%◌, ◌^◌, ◌≤◌, ◌<◌, ◌≡◌, refl, ◌∙◌, subst, leb, max, List, [], ◌∷◌, ℤ, arith,
  length, insert, IsMap, insert-IsMap, length-insert, ℕ_discrete, Bool-cases, inl, inr,
  Option-cases, All, All-set, All-get_elem?, All-replicate, get_elem?, length-set, length-replicate,
}
use net_sentinel.Packet.{ParsedPacket, QueuedPacket}
use net_sentinel.Flow.{
  FlowTrackerConfig, PerIpState, Shard, FlowTracker, new_shard, make_tracker, timeval_to_ms,
}
use net_sentinel.Flow.Rules.{observe_state}
use net_sentinel.Flow.Shards.{
  state_of, shard_for, observe_shard, observe, tracked_ip_count, total_size,
}
use net_sentinel.Flow.Eviction.{length-evict_stale, evict_stale-IsMap, evict_stale-count}

pub record IsBounded (config : FlowTrackerConfig) (shard : Shard) : Type 0 where
  pub is_map : IsMap ℕ_discrete shard.per_ip
  pub size :
      length shard.per_ip ≤ max config.max_tracked_ips_per_shard 1 + shard.observations_since_sweep
  pub due : shard.observations_since_sweep < max config.sweep_interval_packets 1

-- Observing a packet keeps a shard well formed: no source has two records, and there are at most
-- the cap of records (or one) plus the packets since the last sweep, which are fewer than the sweep
-- interval. The interval fits a uint64_t.
pub observe_shard-IsBounded :
    (config : FlowTrackerConfig) (meta : ParsedPacket) (now_ms : ℤ) (shard : Shard)
    → config.sweep_interval_packets < 2 ^ 64
    → IsBounded config shard
    → IsBounded config (observe_shard config meta now_ms shard).0
unfolding observe_shard
observe_shard-IsBounded config meta now_ms shard fits b =
    elim (Bool-cases
      (leb config.sweep_interval_packets ((shard.observations_since_sweep + 1) % 2 ^ 64))) [
        | inl due ↦ rw due (record {
          is_map = evict_stale-IsMap config now_ms meta.src_ip grown grown-IsMap;
          size = omega (arith, length-evict_stale config now_ms meta.src_ip grown grown-IsMap);
          due = omega (arith, evict_stale-count config now_ms meta.src_ip grown);
        })
        | inr early ↦ rw early (record {
          is_map = grown-IsMap;
          size =
              ground
                (arith, b.size, b.due, length-insert ℕ_discrete meta.src_ip state shard.per_ip);
          due = ground arith;
        })
      ]
  where
    state : PerIpState
    state = (observe_state config meta now_ms (state_of meta.src_ip shard)).0

    grown : Shard
    grown = record {
      per_ip = insert ℕ_discrete meta.src_ip state shard.per_ip;
      observations_since_sweep = 0;
    }

    grown-IsMap : IsMap ℕ_discrete (insert ℕ_discrete meta.src_ip state shard.per_ip)
    grown-IsMap = insert-IsMap ℕ_discrete meta.src_ip state shard.per_ip b.is_map

-- The records that a bounded shard can hold.
abbrev pub shard_limit : FlowTrackerConfig → ℕ
shard_limit config =
    max config.max_tracked_ips_per_shard 1 + (max config.sweep_interval_packets 1 - 1)

total_size-le :
    (config : FlowTrackerConfig) (shards : List Shard)
    → All (IsBounded config) shards
    → total_size shards ≤ length shards * shard_limit config
unfolding total_size
total_size-le config [] h = omega arith
total_size-le config (shard ∷ shards) h =
    omega (arith, h.0.size, h.0.due, total_size-le config shards h.1)

pub record IsTracker (config : FlowTrackerConfig) (tracker : FlowTracker) : Type 0 where
  pub same_config : tracker.config ≡ config
  pub shard_count : length tracker.shards ≡ config.num_shards
  pub some_shard : 0 < config.num_shards
  pub bounded : All (IsBounded config) tracker.shards

pub make_tracker-IsTracker :
    (config : FlowTrackerConfig) → IsTracker (make_tracker config).config (make_tracker config)
unfolding make_tracker
make_tracker-IsTracker config = record {
  same_config = refl;
  shard_count = length-replicate _ new_shard;
  some_shard = ground arith;
  bounded =
      All-replicate _ _ new_shard (record { is_map = tt; size = omega arith; due = omega arith });
}

-- The tracker after a sequence of packets, in the order in which their calls took the locks.
abbrev pub observe_all : (ℕ → ℕ) → FlowTracker → List QueuedPacket → FlowTracker
observe_all hash32 tracker [] = tracker
observe_all hash32 tracker (packet ∷ packets) =
    observe_all hash32 (observe hash32 tracker packet).0 packets

module _ (hash32 : ℕ → ℕ) (config : FlowTrackerConfig)
    (fits : config.sweep_interval_packets < 2 ^ 64) where
  -- Every call of `observe` keeps the tracker well formed, whatever the packet and its time.
  pub observe-IsTracker :
      (tracker : FlowTracker) (packet : QueuedPacket)
      → IsTracker config tracker
      → IsTracker config (observe hash32 tracker packet).0
  unfolding observe
  observe-IsTracker tracker packet t = elim (Bool-cases packet.meta.has_ip) [
    | inr no_ip ↦ rw no_ip t
    | inl ip ↦ rw ip (elim (Option-cases (get_elem? tracker.shards i)) [
      | inl missing ↦ rw missing t
      | inr (shard, found) ↦ rw found (record {
        same_config = t.same_config;
        shard_count = length-set tracker.shards i _ ∙ t.shard_count;
        some_shard = t.some_shard;
        bounded = All-set (IsBounded config) tracker.shards i _ t.bounded (
            rw t.same_config (
              observe_shard-IsBounded config packet.meta (timeval_to_ms packet.meta.timestamp) shard
                fits (All-get_elem? (IsBounded config) tracker.shards i shard t.bounded found)));
      })
    ])
  ]
    where
      i : ℕ
      i = shard_for hash32 tracker packet.meta.src_ip

  observe_all-IsTracker :
      (tracker : FlowTracker) (packets : List QueuedPacket)
      → IsTracker config tracker
      → IsTracker config (observe_all hash32 tracker packets)
  observe_all-IsTracker tracker [] t = t
  observe_all-IsTracker tracker (packet ∷ packets) t =
      observe_all-IsTracker (observe hash32 tracker packet).0 packets
        (observe-IsTracker tracker packet t)

-- However many packets of however many sources are observed, a tracker never holds more records
-- than its shards times the cap (at least one) plus the sweep interval less one. The interval fits a
-- uint64_t.
pub tracked_ip_count-le :
    (hash32 : ℕ → ℕ) (config : FlowTrackerConfig) (packets : List QueuedPacket)
    → config.sweep_interval_packets < 2 ^ 64
    → tracked_ip_count (observe_all hash32 (make_tracker config) packets)
      ≤ max config.num_shards 1 * shard_limit config
unfolding tracked_ip_count make_tracker
tracked_ip_count-le hash32 config packets fits =
    subst
      (λ (n : ℕ).
        total_size (observe_all hash32 (make_tracker config) packets).shards
        ≤ n * shard_limit config)
      (t.shard_count ∙ ground arith)
      (total_size-le (make_tracker config).config
        (observe_all hash32 (make_tracker config) packets).shards t.bounded)
  where
    t : IsTracker (make_tracker config).config (observe_all hash32 (make_tracker config) packets)
    t =
        observe_all-IsTracker hash32 (make_tracker config).config fits (make_tracker config) packets
          (make_tracker-IsTracker config)
