-- ===== src/Flow/PortScan.antt =====
-- The port-scan rule against its specification: the distinct ports that the source attempted in
-- the trailing window, over the whole history of the source.
use net_sentinel.Base.{
  ◌≤◌, ◌<◌, ◌≡◌, refl, ap, ◌∙◌, ◌&&◌, if◌then◌else◌, List, [], ◌∷◌, ◌++◌, ℤ, ◌≤ℤ◌, arith, ◌+◌, ◌-ℤ◌,
  -ℤ_mono, length, leb, Bool-cases, inl, inr, Option, ◌^◌,
}
use net_sentinel.Packet.{ParsedPacket}
use net_sentinel.Flow.{FlowTrackerConfig, PerIpState, is_connection_attempt}
use net_sentinel.Alert.{Alert}
use net_sentinel.Flow.Rules.{slide_ports, port_scan_rule, raise_port_scan, port_scan_alert}
use net_sentinel.Flow.Timed.{since, slide_window}
use net_sentinel.Flow.PortWindow.{
  distinct, Mirrors, slide_ports-window, slide_ports-Mirrors, length-Mirrors, empty-Mirrors,
  length-slide_ports,
}
use net_sentinel.Flow.History.{
  History, may_alert, state_after, Latest, IsMonotone, attempts, observe_state-ports, attempts-UpTo,
  attempts-IsSorted,
}

module _ (config : FlowTrackerConfig) where
  abbrev Window : ℤ → History → Type 0
  Window now h =
      (c : ℤ) × (c ≤ℤ (now -ℤ config.port_scan_window_ms))
      × ((state_after config h).recent_dst_ports ≡ since c (attempts h))

  slide-since :
      (now : ℤ) (meta : ParsedPacket) (h : History) (state : PerIpState)
      → state.recent_dst_ports ≡ (state_after config h).recent_dst_ports
      → Window now h
      → Latest now h
      → IsMonotone h
      → (slide_ports config meta now state).recent_dst_ports
        ≡ since (now -ℤ config.port_scan_window_ms) (attempts h ++ (now, meta.dst_port) ∷ [])
  slide-since now meta h state same (c, le, e) l m =
      slide_ports-window config meta now state
      ∙ rw (same, e)
          (slide_window c (now -ℤ config.port_scan_window_ms) now meta.dst_port (attempts h) le
            (attempts-UpTo now h l m) (attempts-IsSorted h m))

  state_after-Window : (now : ℤ) (h : History) → Latest now h → IsMonotone h → Window now h
  unfolding state_after
  state_after-Window now [] l m = (now -ℤ config.port_scan_window_ms, omega arith, refl)
  state_after-Window now ((meta, t) ∷ older) l m = elim (Bool-cases (is_connection_attempt meta)) [
    | inl a ↦ (
      t -ℤ config.port_scan_window_ms,
      -ℤ_mono t now config.port_scan_window_ms l,
      (observe_state-ports config meta t (state_after config older)).0
          ∙ rw a (slide-since t meta older _ refl (state_after-Window t older m.0 m.1) m.0 m.1),
    )
    | inr n ↦
        let (c, le, e) = state_after-Window t older m.0 m.1 in
        (
          c,
          omega (arith, -ℤ_mono t now config.port_scan_window_ms l),
          (observe_state-ports config meta t (state_after config older)).0 ∙ rw n e,
        )
  ]

  -- The size of the counts, once the window has been slid.
  pub length-slid :
      (now : ℤ) (meta : ParsedPacket) (h : History) (state : PerIpState)
      → state.recent_dst_ports ≡ (state_after config h).recent_dst_ports
      → Mirrors state.port_counts state.recent_dst_ports
      → length state.recent_dst_ports + 1 < 2 ^ 32
      → Latest now h
      → IsMonotone h
      → length (slide_ports config meta now state).port_counts
        ≡ distinct
            (since (now -ℤ config.port_scan_window_ms) (attempts h ++ (now, meta.dst_port) ∷ []))
  length-slid now meta h state same mirrors small l m =
      length-Mirrors _ _ (slide_ports-Mirrors config meta now state small mirrors)
      ∙ ap distinct (slide-since now meta h state same (state_after-Window now h l m) l m)

  state_after-Mirrors :
      (h : History)
      → length h < 2 ^ 32
      → let s = state_after config h in
        Mirrors s.port_counts s.recent_dst_ports × (length s.recent_dst_ports ≤ length h)
  unfolding state_after
  state_after-Mirrors [] small = (empty-Mirrors, omega arith)
  state_after-Mirrors ((meta, t) ∷ older) small =
      let (m, le) = state_after-Mirrors older (omega arith) in
      let (window, counts) = observe_state-ports config meta t (state_after config older) in
      elim (Bool-cases (is_connection_attempt meta)) [
        | inl a ↦
            rw (window, counts)
              (rw a (
                slide_ports-Mirrors config meta t _ (omega arith) m,
                omega (
                  arith,
                  length-slide_ports config meta t
                      (record (state_after config older) { last_seen_ms = t }),
                ),
              ))
        | inr n ↦ rw (window, counts) (rw n (m, omega arith))
      ]

-- What the port-scan rule is to say of a packet that follows a history, if it last alerted at
-- `stamp`.
abbrev pub scan_alerts : FlowTrackerConfig → Option ℤ → ParsedPacket → ℤ → History → List Alert
scan_alerts config stamp meta now h =
    let window = since (now -ℤ config.port_scan_window_ms) (attempts ((meta, now) ∷ h)) in
    let ports = distinct window in
    if is_connection_attempt meta
      && leb config.port_scan_distinct_port_threshold ports
      && may_alert config stamp now
    then port_scan_alert config meta ports ∷ []
    else []

pub raise_port_scan-alerts :
    (config : FlowTrackerConfig) (meta : ParsedPacket) (now : ℤ) (state : PerIpState)
    → (raise_port_scan config meta now state).1 ≡ (
        if leb config.port_scan_distinct_port_threshold (length state.port_counts)
          && may_alert config state.last_port_scan_alert_ms now
        then port_scan_alert config meta (length state.port_counts) ∷ []
        else [])
unfolding raise_port_scan
raise_port_scan-alerts config meta now state = ground arith

-- The port-scan rule alerts exactly when the packet is a connection attempt, the source has attempted
-- at least the threshold of distinct ports in the trailing window, this packet's included, and the
-- rule's last alert is at least the debounce time ago; it then reports that number of ports. This
-- holds after every history of the source with times that never fall and fewer than 2 ^ 32 - 1
-- packets.
pub port_scan_rule-scan_alerts :
    (config : FlowTrackerConfig) (meta : ParsedPacket) (now : ℤ) (h : History)
    → Latest now h
    → IsMonotone h
    → length h + 1 < 2 ^ 32
    → (port_scan_rule config meta now (record (state_after config h) { last_seen_ms = now })).1
      ≡ scan_alerts config (state_after config h).last_port_scan_alert_ms meta now h
unfolding port_scan_rule slide_ports
port_scan_rule-scan_alerts config meta now h l m small =
    let (mirrors, le) = state_after-Mirrors config h (omega arith) in
    let seen : PerIpState = record (state_after config h) { last_seen_ms = now } in
    elim (Bool-cases (is_connection_attempt meta)) [
      | inl a ↦ rw a (
          raise_port_scan-alerts config meta now (slide_ports config meta now seen)
          ∙ rw (length-slid config now meta h seen refl mirrors (omega arith) l m))
      | inr n ↦ rw n
    ]
