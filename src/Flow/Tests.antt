-- ===== src/Flow/Tests.antt =====
-- The detection rules on small inputs.
use net_sentinel.Base.{
  get_elem?, ℕ, ◌*◌, ◌≤◌, ◌≡◌, refl, ◌⊎◌, inl, true, none, some, List, [], ◌∷◌, pos, ◌-ℤ◌, ◌+ℤ◌,
  ◌*ℤ◌, ◌/ℤ◌, ◌≤ℤ◌, arith, find, ℕ_discrete, max, IsMap, insert, erase,
}
use net_sentinel.Base.Text.{codes, decimal_int, decimal}
use net_sentinel.Packet.{ParsedPacket, QueuedPacket, tcp}
use net_sentinel.Parser.{bare_packet}
use net_sentinel.Flow.{
  FlowTrackerConfig, default_config, FlowKey-discrete, PerIpState, Shard, FlowTracker, new_state,
  make_tracker, timeval_to_ms, is_connection_attempt, debounce_allows,
}
use net_sentinel.Flow.Rules.{
  count_port, uncount_port, expire_ports, slide_ports, raise_port_scan, port_scan_rule,
  note_handshake, expire_syn, expire_syns, slide_syns, raise_syn_flood, syn_flood_rule,
  observe_state, flow_key, port_scan_alert, syn_flood_alert,
}
use net_sentinel.Flow.Shards.{
  shard_for, evict_idle, evict_excess, evict_stale, observe_shard, observe, total_size,
  tracked_ip_count,
}
use net_sentinel.Flow.PortWindow.{Mirrors, count_port-Mirrors, empty-Mirrors}
use net_sentinel.Flow.History.{History, state_after}
use net_sentinel.Flow.HalfOpen.{opens, acks, half_open, within}
use net_sentinel.Flow.PortScan.{scan_alerts, port_scan_rule-scan_alerts}
use net_sentinel.Flow.SynFlood.{pending_syns-half_open}
use net_sentinel.Flow.Debounce.{scans_at-apart}
use net_sentinel.Flow.Detector.{detect, observe_state-detect}
use net_sentinel.Flow.Eviction.{evict_stale-find}
use net_sentinel.Flow.Bounds.{
  IsBounded, IsTracker, shard_limit, make_tracker-IsTracker, observe_all, observe-IsTracker,
  tracked_ip_count-le,
}
use net_sentinel.Flow.Isolation.{record_of, sweep_due, MayForget, observe-own, observe-other}

program : Unit {0}
unfolding count_port uncount_port expire_ports slide_ports raise_port_scan port_scan_rule
    note_handshake expire_syn expire_syns slide_syns raise_syn_flood syn_flood_rule observe_state
    debounce_allows is_connection_attempt timeval_to_ms evict_idle evict_excess evict_stale
    observe_shard observe total_size tracked_ip_count make_tracker state_after opens acks find
    insert erase ℕ_discrete FlowKey-discrete decimal decimal_int ◌-ℤ◌ ◌+ℤ◌ ◌*ℤ◌ ◌/ℤ◌
program = tt

-- Two ports or two half-open connections are enough, and every second packet sweeps a shard of one.
abbrev small : FlowTrackerConfig
small = record default_config {
  num_shards = 2;
  port_scan_window_ms = pos 1000;
  port_scan_distinct_port_threshold = 2;
  syn_flood_window_ms = pos 1000;
  syn_flood_pending_threshold = 2;
  alert_debounce_ms = pos 100;
  idle_ttl_ms = pos 5000;
  sweep_interval_packets = 2;
  max_tracked_ips_per_shard = 1;
}

-- A TCP packet to 9.9.9.9 at a time in milliseconds.
abbrev tcp_at : (ms src dst_port flags : ℕ) → ParsedPacket
tcp_at ms src dst_port flags =
    record (bare_packet (record { tv_sec = pos 0; tv_usec = pos (ms * 1000) }) 54 54 [] []) {
      has_ip = true;
      src_ip = src;
      dst_ip = 0x09090909;
      ip_protocol = 6;
      transport = tcp;
      src_port = 40000;
      dst_port = dst_port;
      tcp_flags = flags;
    }

abbrev syn_at : (ms src dst_port : ℕ) → ParsedPacket
syn_at ms src dst_port = tcp_at ms src dst_port 0x02

abbrev queued : ParsedPacket → QueuedPacket
queued meta = record { meta = meta; payload = [] }

-- A first SYN, and the second, to another port.
abbrev first : History
first = (syn_at 0 7 80, pos 0) ∷ []

abbrev second : History
second = (syn_at 10 7 81, pos 10) ∷ first

-- The second SYN is a scan of two ports and a flood of two pending SYNs; the third, within the
-- debounce time, is silent, and one past it is not.
scan_and_flood :
    detect small (syn_at 10 7 81) (pos 10) first
    ≡ port_scan_alert small (syn_at 10 7 81) 2 ∷ syn_flood_alert small (syn_at 10 7 81) 2 ∷ []
unfolding program
scan_and_flood = refl

observed :
    ((observe_state small (syn_at 10 7 81) (pos 10) (state_after small first)).1
      ≡ port_scan_alert small (syn_at 10 7 81) 2 ∷ syn_flood_alert small (syn_at 10 7 81) 2 ∷ [])
    × ((observe_state small (syn_at 50 7 82) (pos 50) (state_after small second)).1 ≡ [])
    × ((port_scan_alert small (syn_at 10 7 81) 2).detail ≡ codes "2 distinct ports in 1000ms")
unfolding program
observed = (refl, refl, refl)

observe_state-detect_example :
    (observe_state small (syn_at 200 7 82) (pos 200) (state_after small second)).1
    ≡ detect small (syn_at 200 7 82) (pos 200) second
observe_state-detect_example =
    observe_state-detect small (omega arith) (syn_at 200 7 82) (pos 200) second (omega arith)
      (omega arith, (tt, tt)) (omega arith)

port_scan_rule-scan_alerts_example :
    (port_scan_rule small
      (syn_at 10 7 81)
      (pos 10)
      (record (state_after small first) { last_seen_ms = pos 10 })).1
    ≡ scan_alerts small
        (state_after small first).last_port_scan_alert_ms
        (syn_at 10 7 81)
        (pos 10)
        first
port_scan_rule-scan_alerts_example =
    port_scan_rule-scan_alerts small (syn_at 10 7 81) (pos 10) first (omega arith) (tt, tt)
      (omega arith)

-- The ACK of the second connection: only the first is still half open.
pending_syns-half_open_example :
    find FlowKey-discrete
      (flow_key (syn_at 0 7 80))
      (observe_state small (tcp_at 20 7 81 0x10) (pos 20) (state_after small second)).0.pending_syns
    ≡ within
        (pos 20 -ℤ pos 1000)
        (half_open (flow_key (syn_at 0 7 80)) ((tcp_at 20 7 81 0x10, pos 20) ∷ second))
pending_syns-half_open_example =
    pending_syns-half_open small (omega arith) (tcp_at 20 7 81 0x10) (pos 20) second
      (flow_key (syn_at 0 7 80)) refl (omega arith) (omega arith, (tt, tt))

scans_at-apart_example : pos 100 ≤ℤ (pos 200 -ℤ pos 10)
unfolding program
scans_at-apart_example =
    scans_at-apart small (syn_at 200 7 82) (pos 200) (pos 10) second (omega arith, (tt, tt))
      (inl (refl, refl)) refl

-- A shard with two sources, one of them idle, that a sweep for source 7 clears to the cap of 1.
abbrev seen_at : ℕ → PerIpState
seen_at ms = record new_state { last_seen_ms = pos ms }

abbrev crowded : Shard
crowded = record {
  per_ip = (5, seen_at 100) ∷ (7, seen_at 9000) ∷ (8, seen_at 9000) ∷ [];
  observations_since_sweep = 1;
}

crowded-IsMap : IsMap ℕ_discrete crowded.per_ip
unfolding program
crowded-IsMap = (refl, (refl, (refl, tt)))

evict_stale-find_example :
    find ℕ_discrete 5
      (evict_stale (record small { max_tracked_ips_per_shard = 4 }) (pos 9000) 7 crowded).per_ip
    ≡ none
unfolding program
evict_stale-find_example =
    evict_stale-find (record small { max_tracked_ips_per_shard = 4 }) (pos 9000) 7 crowded 5
      crowded-IsMap (omega arith)

-- The next packet of source 7 fills the shard past the cap, and the one after it sweeps.
abbrev one_source : Shard
one_source = record { per_ip = (5, seen_at 100) ∷ []; observations_since_sweep = 1 }

one_source-IsBounded : IsBounded small one_source
unfolding program
one_source-IsBounded = record { is_map = (refl, tt); size = omega arith; due = omega arith }

abbrev identity : ℕ → ℕ
identity n = n

abbrev packets : List QueuedPacket
packets =
    queued (syn_at 0 7 80)
    ∷ queued (syn_at 1 9 80)
    ∷ queued (syn_at 2 11 80)
    ∷ queued (syn_at 3 4 80)
    ∷ []

abbrev busy : FlowTracker
busy = observe_all identity (make_tracker small) packets

-- Four sources in two shards: one sweep has dropped a record of the first shard.
busy_count : tracked_ip_count busy ≡ 3
unfolding program
busy_count = refl

fresh-IsTracker : IsTracker small (make_tracker small)
unfolding program
fresh-IsTracker = make_tracker-IsTracker small

observe-IsTracker_example :
    IsTracker small (observe identity (make_tracker small) (queued (syn_at 0 7 80))).0
observe-IsTracker_example =
    observe-IsTracker identity small (omega arith) (make_tracker small) (queued (syn_at 0 7 80))
      fresh-IsTracker

tracked_ip_count-le_example : tracked_ip_count busy ≤ max 2 1 * shard_limit small
tracked_ip_count-le_example = tracked_ip_count-le identity small packets (omega arith)

abbrev after_first : FlowTracker
after_first = (observe identity (make_tracker small) (queued (syn_at 0 7 80))).0

-- The second SYN of source 7 raises both alerts through the tracker, too.
observe-own_example :
    let (state, alerts) = observe_state small (syn_at 10 7 81) (pos 10) (state_after small first) in
    ((observe identity after_first (queued (syn_at 10 7 81))).1 ≡ alerts)
    × (record_of identity (observe identity after_first (queued (syn_at 10 7 81))).0 7 ≡ some state)
unfolding program
observe-own_example =
    observe-own identity small after_first (queued (syn_at 10 7 81)) observe-IsTracker_example refl

-- Sources 7 and 9 have the same shard, which the packet of the second sweeps.
observe-other_example :
    let packet = queued (syn_at 1 9 80) in
    let own = shard_for identity after_first 9 in
    (record_of identity (observe identity after_first packet).0 7
      ≡ record_of identity after_first 7)
    ⊎ ((record_of identity (observe identity after_first packet).0 7 ≡ none)
        × ((packet.meta.has_ip ≡ true)
            × ((own ≡ shard_for identity after_first 7)
                × ((shard : Shard) × ((get_elem? after_first.shards own ≡ some shard)
                      × ((sweep_due after_first.config shard ≡ true)
                          × MayForget after_first.config packet.meta
                              (timeval_to_ms packet.meta.timestamp)
                              shard
                              7))))))
observe-other_example =
    observe-other identity small after_first (queued (syn_at 1 9 80)) 7
      (observe-IsTracker identity small (omega arith) (make_tracker small) (queued (syn_at 0 7 80))
        fresh-IsTracker)
      (λ e. absurd (omega arith))

-- A port seen once, and the attempt that sees it again.
abbrev once : PerIpState
once = record new_state { recent_dst_ports = (pos 0, 80) ∷ []; port_counts = (80, 1) ∷ [] }

once-Mirrors : Mirrors once.port_counts once.recent_dst_ports
unfolding program
once-Mirrors = count_port-Mirrors (pos 0) 80 [] [] (omega arith) empty-Mirrors
