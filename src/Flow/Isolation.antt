-- ===== src/Flow/Isolation.antt =====
-- One source at a time: what a packet does to the record of its own source, and to the others.
use net_sentinel.Base.{
  ℕ, ◌+◌, ◌%◌, ◌^◌, ◌<◌, ◌≡◌, refl, sym, ◌≢◌, ◌⊎◌, ◌∙◌, ap, Bool, true, false, not, ◌&&◌, ◌==◌,
  if◌then◌else◌, ◌-ℤ◌, leb, List, arith, length, Option, none, some, find, insert, IsMap,
  ℕ_discrete, Bool-cases, inl, inr, Option-cases, insert-IsMap, find-insert_self, find-insert_ne,
  get_elem?, set, get_elem?-some, get_elem?-set_self, get_elem?-set_ne, All-get_elem?, ℤ,
  length-set,
}
use net_sentinel.Packet.{ParsedPacket, QueuedPacket}
use net_sentinel.Flow.{FlowTrackerConfig, PerIpState, Shard, FlowTracker, new_state, timeval_to_ms}
use net_sentinel.Flow.Rules.{observe_state}
use net_sentinel.Flow.Shards.{evict_idle, evict_stale, state_of, shard_for, observe_shard, observe}
use net_sentinel.Flow.Eviction.{evict_stale_keeps, evict_stale_sound, evict_stale-find, is_idle}
use net_sentinel.Flow.Bounds.{IsBounded, IsTracker}

-- The record of the source after a packet, swept or not.
find-observe_shard_self :
    (config : FlowTrackerConfig) (meta : ParsedPacket) (now_ms : ℤ) (shard : Shard)
    → IsMap ℕ_discrete shard.per_ip
    → find ℕ_discrete meta.src_ip (observe_shard config meta now_ms shard).0.per_ip
      ≡ some (observe_state config meta now_ms (state_of meta.src_ip shard)).0
unfolding observe_shard
find-observe_shard_self config meta now_ms shard m =
    elim (Bool-cases
      (leb config.sweep_interval_packets ((shard.observations_since_sweep + 1) % 2 ^ 64))) [
        | inl due ↦ rw due (
            evict_stale_keeps config now_ms meta.src_ip
              (record { per_ip = grown; observations_since_sweep = 0 })
              (insert-IsMap ℕ_discrete meta.src_ip state shard.per_ip m)
            ∙ find-insert_self ℕ_discrete meta.src_ip state shard.per_ip)
        | inr early ↦ rw early (find-insert_self ℕ_discrete meta.src_ip state shard.per_ip)
      ]
  where
    state : PerIpState
    state = (observe_state config meta now_ms (state_of meta.src_ip shard)).0

    grown : List (ℕ × PerIpState)
    grown = insert ℕ_discrete meta.src_ip state shard.per_ip

alerts-observe_shard :
    (config : FlowTrackerConfig) (meta : ParsedPacket) (now_ms : ℤ) (shard : Shard)
    → (observe_shard config meta now_ms shard).1
      ≡ (observe_state config meta now_ms (state_of meta.src_ip shard)).1
unfolding observe_shard
alerts-observe_shard config meta now_ms shard =
    elim (Bool-cases
      (leb config.sweep_interval_packets ((shard.observations_since_sweep + 1) % 2 ^ 64))) [
        | inl due ↦ rw due
        | inr early ↦ rw early
      ]

-- The records of a shard once the packet's own is in, and those of them that are not idle, with its own.
abbrev grown : FlowTrackerConfig → ParsedPacket → ℤ → Shard → List (ℕ × PerIpState)
grown config meta now_ms shard =
    insert ℕ_discrete meta.src_ip (observe_state config meta now_ms (state_of meta.src_ip shard)).0
      shard.per_ip

abbrev pub fresh_records : FlowTrackerConfig → ParsedPacket → ℤ → Shard → List (ℕ × PerIpState)
fresh_records config meta now_ms shard =
    evict_idle (now_ms -ℤ config.idle_ttl_ms) meta.src_ip (grown config meta now_ms shard)

-- Whether the observation of one more packet sweeps the shard.
abbrev pub sweep_due : FlowTrackerConfig → Shard → Bool
sweep_due config shard =
    leb config.sweep_interval_packets ((shard.observations_since_sweep + 1) % 2 ^ 64)

-- A sweep may drop the record of another source: it is idle, or the records that are not idle are more than
-- the cap.
abbrev pub MayForget : FlowTrackerConfig → ParsedPacket → ℤ → Shard → ℕ → Type 0
MayForget config meta now_ms shard ip =
    ((s : PerIpState) × ((find ℕ_discrete ip shard.per_ip ≡ some s)
        × (is_idle config now_ms s ≡ true)))
    ⊎ (config.max_tracked_ips_per_shard < length (fresh_records config meta now_ms shard))

-- A sweep of records that fit under the cap.
forgets_idle :
    (config : FlowTrackerConfig) (meta : ParsedPacket) (now_ms : ℤ) (shard swept : Shard) (ip : ℕ)
    → meta.src_ip ≢ ip
    → find ℕ_discrete ip swept.per_ip ≡ elim (find ℕ_discrete ip shard.per_ip) [
      | none ↦ none
      | some s ↦ if not (ip == meta.src_ip) && is_idle config now_ms s then none else some s
    ]
    → (find ℕ_discrete ip swept.per_ip ≡ find ℕ_discrete ip shard.per_ip)
      ⊎ ((find ℕ_discrete ip swept.per_ip ≡ none)
          × ((s : PerIpState) × ((find ℕ_discrete ip shard.per_ip ≡ some s)
                × (is_idle config now_ms s ≡ true))))
forgets_idle config meta now_ms shard swept ip other e =
    elim (Option-cases (find ℕ_discrete ip shard.per_ip)) [
      | inl none_before ↦ inl (ground (arith, e, none_before))
      | inr (s, before) ↦ elim (Bool-cases (is_idle config now_ms s)) [
        | inr busy ↦ inl (ground (arith, e, before, busy))
        | inl idle ↦ inr (
          ground (arith, e, before, idle, λ (f : ip ≡ meta.src_ip). other (sym f)),
          (s, (before, idle)),
        )
      ]
    ]

-- The record of another source, swept or not.
find-observe_shard_ne :
    (config : FlowTrackerConfig) (meta : ParsedPacket) (now_ms : ℤ) (shard : Shard) (ip : ℕ)
    → meta.src_ip ≢ ip
    → IsMap ℕ_discrete shard.per_ip
    → let after = find ℕ_discrete ip (observe_shard config meta now_ms shard).0.per_ip in
      (after ≡ find ℕ_discrete ip shard.per_ip)
      ⊎ ((after ≡ none) × ((sweep_due config shard ≡ true) × MayForget config meta now_ms shard ip))
unfolding observe_shard
find-observe_shard_ne config meta now_ms shard ip other m =
    elim (Bool-cases (sweep_due config shard)) [
      | inr early ↦
          rw early (inl (find-insert_ne ℕ_discrete meta.src_ip ip state shard.per_ip other))
      | inl due ↦
          rw due
            (elim (Bool-cases (
              leb (length (fresh_records config meta now_ms shard))
                config.max_tracked_ips_per_shard)) [
                  | inl fits ↦
                      elim (forgets_idle config meta now_ms shard swept ip other (
                        evict_stale-find config now_ms meta.src_ip before ip
                          (insert-IsMap ℕ_discrete meta.src_ip state shard.per_ip m)
                          (ground (arith, fits))
                        ∙ ap
                            (λ (r : Option PerIpState). elim r [
                              | none ↦ none
                              | some s ↦
                                  if not (ip == meta.src_ip) && is_idle config now_ms s
                                  then none
                                  else some s
                            ])
                            (find-insert_ne ℕ_discrete meta.src_ip ip state shard.per_ip other))) [
                              | inl same ↦ inl same
                              | inr (gone, why) ↦ inr (gone, (refl, inl why))
                            ]
                  | inr full ↦ elim (Option-cases (find ℕ_discrete ip swept.per_ip)) [
                    | inl gone ↦ inr (gone, (refl, inr (ground (arith, full))))
                    | inr (s, e) ↦ inl (
                        e
                        ∙ sym (
                            (evict_stale_sound config now_ms meta.src_ip before ip s
                              (insert-IsMap ℕ_discrete meta.src_ip state shard.per_ip m) e).0)
                        ∙ find-insert_ne ℕ_discrete meta.src_ip ip state shard.per_ip other)
                  ]
                ])
    ]
  where
    state : PerIpState
    state = (observe_state config meta now_ms (state_of meta.src_ip shard)).0

    before : Shard
    before = record { per_ip = grown config meta now_ms shard; observations_since_sweep = 0 }

    swept : Shard
    swept = evict_stale config now_ms meta.src_ip before

module _ (hash32 : ℕ → ℕ) where
  -- The record of a source, in the shard of its hash.
  abbrev pub record_of : FlowTracker → ℕ → Option PerIpState
  record_of tracker ip = elim (get_elem? tracker.shards (shard_for hash32 tracker ip)) [
    | none ↦ none
    | some shard ↦ find ℕ_discrete ip shard.per_ip
  ]

  abbrev or_new : Option PerIpState → PerIpState
  or_new none = new_state
  or_new (some s) = s

  own_shard :
      (config : FlowTrackerConfig) (tracker : FlowTracker) (ip : ℕ)
      → IsTracker config tracker
      → (shard : Shard) × (get_elem? tracker.shards (shard_for hash32 tracker ip) ≡ some shard)
  own_shard config tracker ip t =
      get_elem?-some tracker.shards (shard_for hash32 tracker ip)
        (omega (arith, t.shard_count, t.some_shard))

  observe_at :
      (tracker : FlowTracker) (packet : QueuedPacket) (shard : Shard)
      → packet.meta.has_ip ≡ true
      → get_elem? tracker.shards (shard_for hash32 tracker packet.meta.src_ip) ≡ some shard
      → let now_ms = timeval_to_ms packet.meta.timestamp in
        let (shard', alerts) = observe_shard tracker.config packet.meta now_ms shard in
        observe hash32 tracker packet ≡ (
          record tracker {
            shards = set tracker.shards (shard_for hash32 tracker packet.meta.src_ip) shard';
          },
          alerts,
        )
  unfolding observe
  observe_at tracker packet shard ip found = ground arith

  record_at :
      (tracker : FlowTracker) (ip : ℕ) (shard : Shard)
      → get_elem? tracker.shards (shard_for hash32 tracker ip) ≡ some shard
      → record_of tracker ip ≡ find ℕ_discrete ip shard.per_ip
  record_at tracker ip shard found = ground arith

  observe_no_ip :
      (tracker : FlowTracker) (packet : QueuedPacket) (ip : ℕ)
      → packet.meta.has_ip ≡ false
      → record_of (observe hash32 tracker packet).0 ip ≡ record_of tracker ip
  unfolding observe
  observe_no_ip tracker packet ip no_ip = ground arith

  put_shard : FlowTracker → ℕ → Shard → FlowTracker
  put_shard tracker i shard = record tracker { shards = set tracker.shards i shard }

  record_of-set_self :
      (tracker : FlowTracker) (i ip : ℕ) (shard : Shard)
      → shard_for hash32 tracker ip ≡ i
      → i < length tracker.shards
      → record_of (put_shard tracker i shard) ip ≡ find ℕ_discrete ip shard.per_ip
  unfolding put_shard
  record_of-set_self tracker i ip shard e h =
      ground (arith, length-set tracker.shards i shard, get_elem?-set_self tracker.shards i shard h)

  record_of-set_ne :
      (tracker : FlowTracker) (i ip : ℕ) (shard : Shard)
      → i ≢ shard_for hash32 tracker ip
      → record_of (put_shard tracker i shard) ip ≡ record_of tracker ip
  unfolding put_shard
  record_of-set_ne tracker i ip shard n = ground (
    arith,
    length-set tracker.shards i shard,
    get_elem?-set_ne tracker.shards i (shard_for hash32 tracker ip) shard n,
  )

  state_of-record :
      (ip : ℕ) (shard : Shard) → state_of ip shard ≡ or_new (find ℕ_discrete ip shard.per_ip)
  state_of-record ip shard = ground arith

  -- A packet with an IP header raises the alerts that the two rules find at the record of its source, or
  -- at a fresh one, and that record is then what the rules made of it, even if this call swept the shard.
  pub observe-own :
      (config : FlowTrackerConfig) (tracker : FlowTracker) (packet : QueuedPacket)
      → IsTracker config tracker
      → packet.meta.has_ip ≡ true
      → let now_ms = timeval_to_ms packet.meta.timestamp in
        let before = or_new (record_of tracker packet.meta.src_ip) in
        let (state, alerts) = observe_state tracker.config packet.meta now_ms before in
        ((observe hash32 tracker packet).1 ≡ alerts)
        × (record_of (observe hash32 tracker packet).0 packet.meta.src_ip ≡ some state)
  unfolding put_shard
  observe-own config tracker packet t ip =
      let src = packet.meta.src_ip in
      let now_ms = timeval_to_ms packet.meta.timestamp in
      let (shard, found) = own_shard config tracker src t in
      let m = (All-get_elem? (IsBounded config) tracker.shards _ shard t.bounded found).is_map in
      let same : state_of src shard ≡ or_new (record_of tracker src) =
        state_of-record src shard ∙ ap or_new (sym (record_at tracker src shard found)) in
      let at = observe_at tracker packet shard ip found in
      (
        ap (λ r. r.1) at
            ∙ alerts-observe_shard tracker.config packet.meta now_ms shard
            ∙ ap (λ s. (observe_state tracker.config packet.meta now_ms s).1) same,
        ap (λ r. record_of r.0 src) at
            ∙ record_of-set_self tracker (shard_for hash32 tracker src) src _ refl
                (omega (arith, t.shard_count, t.some_shard))
            ∙ find-observe_shard_self tracker.config packet.meta now_ms shard m
            ∙ ap (λ s. some (observe_state tracker.config packet.meta now_ms s).0) same,
      )

  -- A packet leaves the record of every other source as it was, or drops it. It drops one only if the packet
  -- has an IP header, the other source has the shard of the packet's source, the packet's is the observation of
  -- that shard at which a sweep is due, and either the record is idle at the time of the packet, or the records
  -- of the shard that are not idle, with the one of the packet's source, are more than the cap.
  pub observe-other :
      (config : FlowTrackerConfig) (tracker : FlowTracker) (packet : QueuedPacket) (ip : ℕ)
      → IsTracker config tracker
      → packet.meta.src_ip ≢ ip
      → let own = shard_for hash32 tracker packet.meta.src_ip in
        let now_ms = timeval_to_ms packet.meta.timestamp in
        (record_of (observe hash32 tracker packet).0 ip ≡ record_of tracker ip)
        ⊎ ((record_of (observe hash32 tracker packet).0 ip ≡ none)
            × ((packet.meta.has_ip ≡ true)
                × ((own ≡ shard_for hash32 tracker ip)
                    × ((shard : Shard) × ((get_elem? tracker.shards own ≡ some shard)
                          × ((sweep_due tracker.config shard ≡ true)
                              × MayForget tracker.config packet.meta now_ms shard ip))))))
  unfolding put_shard
  observe-other config tracker packet ip t other = elim (Bool-cases packet.meta.has_ip) [
    | inr no_ip ↦ inl (observe_no_ip tracker packet ip no_ip)
    | inl has ↦
        let src = packet.meta.src_ip in
        let now_ms = timeval_to_ms packet.meta.timestamp in
        let (shard, found) = own_shard config tracker src t in
        let m = (All-get_elem? (IsBounded config) tracker.shards _ shard t.bounded found).is_map in
        let at = ap (λ r. record_of r.0 ip) (observe_at tracker packet shard has found) in
        elim (ℕ_discrete (shard_for hash32 tracker src) (shard_for hash32 tracker ip)) [
          | no apart ↦ inl (at ∙ record_of-set_ne tracker (shard_for hash32 tracker src) ip _ apart)
          | yes same ↦
              let here =
                record_at tracker ip shard (ap (get_elem? tracker.shards) (sym same) ∙ found) in
              let now =
                at
                ∙ record_of-set_self tracker (shard_for hash32 tracker src) ip
                    (observe_shard tracker.config packet.meta now_ms shard).0 (sym same)
                    (omega (arith, t.shard_count, t.some_shard)) in
              elim (find-observe_shard_ne tracker.config packet.meta now_ms shard ip other m) [
                | inl kept ↦ inl (now ∙ kept ∙ sym here)
                | inr (gone, why) ↦ inr (now ∙ gone, (has, (same, (shard, (found, why)))))
              ]
        ]
  ]
