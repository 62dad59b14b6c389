-- ===== src/Flow.antt =====
-- include/netsentinel/flow_tracker.hpp and src/analysis/flow_tracker.cpp: per-source state of the
-- port-scan and SYN-flood rules, in locked shards. A shard's mutex is held for the whole of
-- `observe`, so a call is one step. Times are int64_t milliseconds, read as integers.
pub mod Rules
pub mod Shards
pub mod Timed
pub mod PortWindow
pub mod History
pub mod PortScan
pub mod SynWindow
pub mod HalfOpen
pub mod SynFlood
pub mod Debounce
pub mod Detector
pub mod Eviction
pub mod Bounds
pub mod Isolation
mod Tests
use Prim.Native.Nat.{bit_and, bit_xor}
use net_sentinel.Base.{
  ℕ, zero, suc, ◌+◌, ◌-◌, ◌*◌, ◌/◌, ◌%◌, ◌^◌, ◌≡◌, Bool, true, false, not, ◌&&◌, ◌||◌, ◌==◌, ltb,
  leb, if◌then◌else◌, Option, none, some, List, [], ◌∷◌, ◌++◌, ℤ, pos, ◌-ℤ◌, ◌+ℤ◌, ◌*ℤ◌, ◌/ℤ◌,
  ltb_ℤ, find, insert, erase, length, get_elem?, set, replicate, ℕ_discrete,
}
use net_sentinel.Base.Text.{codes, decimal, decimal_int, snprintf}
use net_sentinel.Packet.{Timeval, ParsedPacket, QueuedPacket, Transport, unknown, tcp, udp, icmp}
use net_sentinel.Alert.{Alert, port_scan, syn_flood}

pub record FlowTrackerConfig : Type 0 where
  pub num_shards : ℕ
  pub port_scan_window_ms : ℤ
  pub port_scan_distinct_port_threshold : ℕ
  pub syn_flood_window_ms : ℤ
  pub syn_flood_pending_threshold : ℕ
  pub alert_debounce_ms : ℤ
  pub idle_ttl_ms : ℤ
  pub sweep_interval_packets : ℕ
  pub max_tracked_ips_per_shard : ℕ

abbrev pub default_config : FlowTrackerConfig
default_config = record {
  num_shards = 16;
  port_scan_window_ms = pos 5000;
  port_scan_distinct_port_threshold = 10;
  syn_flood_window_ms = pos 2000;
  syn_flood_pending_threshold = 20;
  alert_debounce_ms = pos 2000;
  idle_ttl_ms = pos 60000;
  sweep_interval_packets = 256;
  max_tracked_ips_per_shard = 1024;
}

pub record FlowKey : Type 0 where
  pub src_ip : ℕ
  pub dst_ip : ℕ
  pub src_port : ℕ
  pub dst_port : ℕ

unfoldable pub FlowKey-discrete : Discrete FlowKey
unfolding ℕ_discrete
FlowKey-discrete = hlevel ℕ_discrete

pub record PerIpState : Type 0 where
  pub recent_dst_ports : List (ℤ × ℕ)
  pub port_counts : List (ℕ × ℕ)
  pub pending_syns : List (FlowKey × ℤ)
  pub pending_syn_order : List (ℤ × FlowKey)
  pub last_seen_ms : ℤ
  pub last_port_scan_alert_ms : Option ℤ
  pub last_syn_flood_alert_ms : Option ℤ

pub record Shard : Type 0 where
  pub per_ip : List (ℕ × PerIpState)
  pub observations_since_sweep : ℕ

pub record FlowTracker : Type 0 where
  pub config : FlowTrackerConfig
  pub shards : List Shard

-- The bits of `tcp_flags` that the rules test.
abbrev pub k_tcp_flag_syn : ℕ
k_tcp_flag_syn = 0x02

abbrev pub k_tcp_flag_ack : ℕ
k_tcp_flag_ack = 0x10

abbrev pub has_flag : ℕ → ℕ → Bool
has_flag flags flag = not (bit_and flags flag == 0)

unfoldable pub timeval_to_ms : Timeval → ℤ
timeval_to_ms tv = tv.tv_sec *ℤ pos 1000 +ℤ tv.tv_usec /ℤ 1000

abbrev attempt_by : Transport → ℕ → ℕ → Bool
attempt_by tcp flags port = has_flag flags k_tcp_flag_syn && not (has_flag flags k_tcp_flag_ack)
attempt_by udp flags port = leb 1024 port
attempt_by _ flags port = false

unfoldable pub is_connection_attempt : ParsedPacket → Bool
is_connection_attempt meta = attempt_by meta.transport meta.tcp_flags meta.src_port

abbrev pub is_tcp : Transport → Bool
is_tcp tcp = true
is_tcp _ = false

-- size_t arithmetic, for `FlowKeyHash`.
abbrev word : ℕ → ℕ
word n = n % 2 ^ 64

-- The combination step of `FlowKeyHash`, at the hash of one more field.
hash_combine : ℕ → ℕ → ℕ
hash_combine h field = bit_xor h (word (field + 0x9e3779b9 + word (h * 2 ^ 6) + h / 2 ^ 2))

-- `hash32` and `hash16` are `std::hash<uint32_t>` and `std::hash<uint16_t>`.
pub flow_key_hash : (hash32 hash16 : ℕ → ℕ) → FlowKey → ℕ
unfolding hash_combine
flow_key_hash hash32 hash16 k =
    hash_combine
      (hash_combine (hash_combine (hash32 k.src_ip) (hash32 k.dst_ip)) (hash16 k.src_port))
      (hash16 k.dst_port)

abbrev pub new_state : PerIpState
new_state = record {
  recent_dst_ports = [];
  port_counts = [];
  pending_syns = [];
  pending_syn_order = [];
  last_seen_ms = pos 0;
  last_port_scan_alert_ms = none;
  last_syn_flood_alert_ms = none;
}

abbrev pub new_shard : Shard
new_shard = record { per_ip = []; observations_since_sweep = 0 }

-- The constructor.
unfoldable pub make_tracker : FlowTrackerConfig → FlowTracker
make_tracker config =
    let n = if config.num_shards == 0 then 1 else config.num_shards in
    record { config = record config { num_shards = n }; shards = replicate n new_shard }

-- The new time stamp, and whether the rule may alert.
unfoldable pub debounce_allows : FlowTrackerConfig → Option ℤ → ℤ → Option ℤ × Bool
debounce_allows config none now_ms = (some now_ms, true)
debounce_allows config (some last) now_ms =
    if ltb_ℤ (now_ms -ℤ last) config.alert_debounce_ms
    then (some last, false)
    else (some now_ms, true)
