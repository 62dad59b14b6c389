-- ===== src/Flow/Rules.antt =====
-- The two stateful rules, as `observe` of src/analysis/flow_tracker.cpp runs them on the state of
-- the packet's source IP. The port and SYN windows are deques, oldest first.
use net_sentinel.Base.{
  ℕ, ◌+◌, ◌-◌, ◌%◌, ◌^◌, not, ◌&&◌, leb, ◌==◌, if◌then◌else◌, none, some, List, [], ◌∷◌, ◌++◌, ℤ,
  ◌-ℤ◌, ltb_ℤ, find, insert, erase, length, ℕ_discrete, eq_ℤ,
}
use net_sentinel.Base.Text.{codes, decimal, decimal_int, snprintf}
use net_sentinel.Packet.{ParsedPacket}
use net_sentinel.Alert.{Alert, port_scan, syn_flood}
use net_sentinel.Flow.{
  FlowTrackerConfig, FlowKey, FlowKey-discrete, PerIpState, debounce_allows, is_connection_attempt,
  is_tcp, has_flag, k_tcp_flag_syn, k_tcp_flag_ack,
}

-- `++port_counts[port]` on a uint32_t count.
unfoldable pub count_port : ℕ → List (ℕ × ℕ) → List (ℕ × ℕ)
count_port port counts = elim (find ℕ_discrete port counts) [
  | none ↦ insert ℕ_discrete port 1 counts
  | some c ↦ insert ℕ_discrete port ((c + 1) % 2 ^ 32) counts
]

-- The expiry of one event: `--count == 0` erases the port.
unfoldable pub uncount_port : ℕ → List (ℕ × ℕ) → List (ℕ × ℕ)
uncount_port port counts = elim (find ℕ_discrete port counts) [
  | none ↦ counts
  | some c ↦
      let c' = (c + (2 ^ 32 - 1)) % 2 ^ 32 in
      if c' == 0 then erase ℕ_discrete port counts else insert ℕ_discrete port c' counts
]

-- The `while` loop of the port window: what is left of the deque and of the counts.
unfoldable pub expire_ports : ℤ → List (ℤ × ℕ) → List (ℕ × ℕ) → List (ℤ × ℕ) × List (ℕ × ℕ)
expire_ports cutoff [] counts = ([], counts)
expire_ports cutoff ((t, port) ∷ window) counts =
    let rest = expire_ports cutoff window (uncount_port port counts) in
    if ltb_ℤ t cutoff then rest else ((t, port) ∷ window, counts)

-- The window and the counts after this attempt.
unfoldable pub slide_ports : FlowTrackerConfig → ParsedPacket → ℤ → PerIpState → PerIpState
unfolding count_port expire_ports
slide_ports config meta now_ms state =
    let (window, counts) =
      expire_ports (now_ms -ℤ config.port_scan_window_ms)
        (state.recent_dst_ports ++ (now_ms, meta.dst_port) ∷ [])
        (count_port meta.dst_port state.port_counts) in
    record state { recent_dst_ports = window; port_counts = counts }

abbrev pub port_scan_alert : FlowTrackerConfig → ParsedPacket → ℕ → Alert
port_scan_alert config meta distinct_ports = record {
  type = port_scan;
  src_ip = meta.src_ip;
  dst_ip = meta.dst_ip;
  src_port = 0;
  dst_port = 0;
  detail = snprintf 96 (
      decimal distinct_ports
      ++ codes " distinct ports in "
      ++ decimal_int config.port_scan_window_ms
      ++ codes "ms");
}

-- The alert of the port-scan rule, at a state whose window has been slid.
unfoldable pub raise_port_scan :
    FlowTrackerConfig → ParsedPacket → ℤ → PerIpState → PerIpState × List Alert
unfolding debounce_allows
raise_port_scan config meta now_ms state =
    let distinct_ports = length state.port_counts in
    let (stamp, allowed) = debounce_allows config state.last_port_scan_alert_ms now_ms in
    if leb config.port_scan_distinct_port_threshold distinct_ports
    then (if allowed
        then (
          record state { last_port_scan_alert_ms = stamp },
          port_scan_alert config meta distinct_ports ∷ [],
        )
        else (record state { last_port_scan_alert_ms = stamp }, []))
    else (state, [])

unfoldable pub port_scan_rule :
    FlowTrackerConfig → ParsedPacket → ℤ → PerIpState → PerIpState × List Alert
port_scan_rule config meta now_ms state =
    if is_connection_attempt meta
    then raise_port_scan config meta now_ms (slide_ports config meta now_ms state)
    else (state, [])

abbrev pub flow_key : ParsedPacket → FlowKey
flow_key meta = record {
  src_ip = meta.src_ip;
  dst_ip = meta.dst_ip;
  src_port = meta.src_port;
  dst_port = meta.dst_port;
}

-- A SYN without ACK becomes pending; any ACK on the 4-tuple clears it.
unfoldable pub note_handshake : ParsedPacket → ℤ → PerIpState → PerIpState
note_handshake meta now_ms state =
    let key = flow_key meta in
    let is_syn = has_flag meta.tcp_flags k_tcp_flag_syn in
    let is_ack = has_flag meta.tcp_flags k_tcp_flag_ack in
    if is_syn && not is_ack
    then record state {
      pending_syns = insert FlowKey-discrete key now_ms state.pending_syns;
      pending_syn_order = state.pending_syn_order ++ (now_ms, key) ∷ [];
    }
    else if is_ack
    then record state { pending_syns = erase FlowKey-discrete key state.pending_syns }
    else state

-- The expiry of one ordering entry: the pending SYN goes only if it is the one that was queued.
unfoldable pub expire_syn : ℤ → FlowKey → List (FlowKey × ℤ) → List (FlowKey × ℤ)
expire_syn queued_ms key pending = elim (find FlowKey-discrete key pending) [
  | none ↦ pending
  | some t ↦ if eq_ℤ t queued_ms then erase FlowKey-discrete key pending else pending
]

-- The `while` loop of the SYN window.
unfoldable pub expire_syns :
    ℤ → List (ℤ × FlowKey) → List (FlowKey × ℤ) → List (ℤ × FlowKey) × List (FlowKey × ℤ)
expire_syns cutoff [] pending = ([], pending)
expire_syns cutoff ((t, key) ∷ order) pending =
    let rest = expire_syns cutoff order (expire_syn t key pending) in
    if ltb_ℤ t cutoff then rest else ((t, key) ∷ order, pending)

unfoldable pub slide_syns : FlowTrackerConfig → ParsedPacket → ℤ → PerIpState → PerIpState
unfolding note_handshake expire_syns
slide_syns config meta now_ms state =
    let noted = note_handshake meta now_ms state in
    let (order, pending) =
      expire_syns (now_ms -ℤ config.syn_flood_window_ms) noted.pending_syn_order
        noted.pending_syns in
    record noted { pending_syns = pending; pending_syn_order = order }

abbrev pub syn_flood_alert : FlowTrackerConfig → ParsedPacket → ℕ → Alert
syn_flood_alert config meta pending = record {
  type = syn_flood;
  src_ip = meta.src_ip;
  dst_ip = 0;
  src_port = 0;
  dst_port = 0;
  detail = snprintf 96 (
      decimal pending
      ++ codes " pending SYNs in "
      ++ decimal_int config.syn_flood_window_ms
      ++ codes "ms");
}

unfoldable pub raise_syn_flood :
    FlowTrackerConfig → ParsedPacket → ℤ → PerIpState → PerIpState × List Alert
unfolding debounce_allows
raise_syn_flood config meta now_ms state =
    let pending = length state.pending_syns in
    let (stamp, allowed) = debounce_allows config state.last_syn_flood_alert_ms now_ms in
    if leb config.syn_flood_pending_threshold pending
    then (if allowed
        then (
          record state { last_syn_flood_alert_ms = stamp },
          syn_flood_alert config meta pending ∷ [],
        )
        else (record state { last_syn_flood_alert_ms = stamp }, []))
    else (state, [])

unfoldable pub syn_flood_rule :
    FlowTrackerConfig → ParsedPacket → ℤ → PerIpState → PerIpState × List Alert
syn_flood_rule config meta now_ms state =
    if is_tcp meta.transport
    then raise_syn_flood config meta now_ms (slide_syns config meta now_ms state)
    else (state, [])

-- Both rules on the record of the source, which has just been seen.
unfoldable pub observe_state :
    FlowTrackerConfig → ParsedPacket → ℤ → PerIpState → PerIpState × List Alert
unfolding port_scan_rule syn_flood_rule
observe_state config meta now_ms state =
    let (scanned, scans) =
      port_scan_rule config meta now_ms (record state { last_seen_ms = now_ms }) in
    let (flooded, floods) = syn_flood_rule config meta now_ms scanned in (flooded, scans ++ floods)
