-- ===== src/Flow/Detector.antt =====
-- The detector that FlowTracker promises for one source IP, stated over its history alone, and
-- `observe` against it.
use net_sentinel.Base.{
  ◌<◌, ◌≡◌, refl, ap, ◌∙◌, ◌&&◌, if◌then◌else◌, List, [], ◌∷◌, ◌++◌, ℤ, pos, ◌≤ℤ◌, arith, ◌+◌, ◌-ℤ◌,
  ◌^◌, length, leb, Bool-cases, inl, inr, Option, none, some,
}
use mathlib.Core.Path.{ap₂}
use net_sentinel.Packet.{ParsedPacket}
use net_sentinel.Alert.{Alert}
use net_sentinel.Flow.{FlowTrackerConfig, PerIpState, is_tcp}
use net_sentinel.Flow.Rules.{
  note_handshake, slide_syns, raise_syn_flood, syn_flood_rule, syn_flood_alert, port_scan_rule,
  raise_port_scan, slide_ports, observe_state,
}
use net_sentinel.Flow.History.{History, state_after, may_alert, Latest, IsMonotone}
use net_sentinel.Flow.PortScan.{scan_alerts, port_scan_rule-scan_alerts}
use net_sentinel.Flow.SynFlood.{open_connections, length-pending_syns}
use net_sentinel.Flow.Debounce.{raised, floods_at, observe_state-stamps}

-- What the SYN-flood rule is to say of a packet that follows a history, if it last alerted at
-- `stamp`.
abbrev pub flood_alerts : FlowTrackerConfig → Option ℤ → ParsedPacket → ℤ → History → List Alert
flood_alerts config stamp meta now h =
    let open_now =
      length (open_connections (now -ℤ config.syn_flood_window_ms) ((meta, now) ∷ h)) in
    if is_tcp meta.transport
      && leb config.syn_flood_pending_threshold open_now
      && may_alert config stamp now
    then syn_flood_alert config meta open_now ∷ []
    else []

-- When the detector last reported a scan, and when a flood.
abbrev pub last_scan : FlowTrackerConfig → History → Option ℤ
last_scan config [] = none
last_scan config ((meta, t) ∷ older) =
    let before = last_scan config older in
    if raised (scan_alerts config before meta t older) then some t else before

abbrev pub last_flood : FlowTrackerConfig → History → Option ℤ
last_flood config [] = none
last_flood config ((meta, t) ∷ older) =
    let before = last_flood config older in
    if raised (flood_alerts config before meta t older) then some t else before

-- The alerts that a packet is to raise after a history.
abbrev pub detect : FlowTrackerConfig → ParsedPacket → ℤ → History → List Alert
detect config meta now h =
    scan_alerts config (last_scan config h) meta now h
    ++ flood_alerts config (last_flood config h) meta now h

floods_at-table :
    (config : FlowTrackerConfig) (meta : ParsedPacket) (now : ℤ) (state : PerIpState)
    → let open_now = length (slide_syns config meta now state).pending_syns in
      floods_at config meta now state ≡ (
        if is_tcp meta.transport
          && leb config.syn_flood_pending_threshold open_now
          && may_alert config state.last_syn_flood_alert_ms now
        then syn_flood_alert config meta open_now ∷ []
        else [])
unfolding syn_flood_rule raise_syn_flood slide_syns note_handshake port_scan_rule raise_port_scan
    slide_ports
floods_at-table config meta now state = ground arith

floods_at-flood_alerts :
    (config : FlowTrackerConfig) (meta : ParsedPacket) (now : ℤ) (h : History)
    → pos 0 ≤ℤ config.syn_flood_window_ms
    → Latest now h
    → IsMonotone h
    → floods_at config meta now (state_after config h)
      ≡ flood_alerts config (state_after config h).last_syn_flood_alert_ms meta now h
floods_at-flood_alerts config meta now h forward l m =
    floods_at-table config meta now (state_after config h)
    ∙ elim (Bool-cases (is_tcp meta.transport)) [
      | inl tcp ↦ rw tcp (rw (length-pending_syns config forward meta now h tcp l m))
      | inr other ↦ rw other
    ]

module _ (config : FlowTrackerConfig) (forward : pos 0 ≤ℤ config.syn_flood_window_ms) where
  stamps :
      (h : History)
      → IsMonotone h
      → length h < 2 ^ 32
      → ((state_after config h).last_port_scan_alert_ms ≡ last_scan config h)
        × ((state_after config h).last_syn_flood_alert_ms ≡ last_flood config h)
  unfolding state_after
  stamps [] m small = (refl, refl)
  stamps ((meta, t) ∷ older) m small =
      let (scan, flood) = stamps older m.1 (omega arith) in
      let (scanned, flooded) = observe_state-stamps config meta t (state_after config older) in
      (
        scanned ∙ rw (port_scan_rule-scan_alerts config meta t older m.0 m.1 (omega arith), scan),
        flooded ∙ rw (floods_at-flood_alerts config meta t older forward m.0 m.1, flood),
      )

  -- `observe` refines the detector: at every packet of a source it raises exactly the alerts of
  -- `detect`, which looks only at the packets seen so far. A scan is reported for a connection attempt
  -- when the distinct ports attempted in the trailing window reach the threshold, a flood for a TCP
  -- packet when the half-open connections in the trailing window do, each with its number, and neither
  -- within the debounce time of its own last report. The record has not been evicted in between,
  -- times never fall, the SYN window is not negative and the history has fewer than 2 ^ 32 - 1 packets.
  pub observe_state-detect :
      (meta : ParsedPacket) (now : ℤ) (h : History)
      → Latest now h
      → IsMonotone h
      → length h + 1 < 2 ^ 32
      → (observe_state config meta now (state_after config h)).1 ≡ detect config meta now h
  unfolding observe_state
  observe_state-detect meta now h l m small =
      let (scan, flood) = stamps h m (omega arith) in
      ap₂ ◌++◌
        (port_scan_rule-scan_alerts config meta now h l m small
          ∙ ap (λ s. scan_alerts config s meta now h) scan)
        (floods_at-flood_alerts config meta now h forward l m
          ∙ ap (λ s. flood_alerts config s meta now h) flood)
