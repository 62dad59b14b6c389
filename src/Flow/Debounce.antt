-- ===== src/Flow/Debounce.antt =====
-- The debounce of both rules: the time stamps of a record against the times of its alerts.
use net_sentinel.Base.{
  ◌≡◌, refl, ◌⊎◌, inl, inr, Bool, true, false, if◌then◌else◌, List, [], ◌∷◌, ℤ, ◌≤ℤ◌, arith, ◌-ℤ◌,
  -ℤ_parts, Option, none, some,
}
use net_sentinel.Packet.{ParsedPacket}
use net_sentinel.Alert.{Alert}
use net_sentinel.Flow.{FlowTrackerConfig, PerIpState}
use net_sentinel.Flow.Rules.{
  note_handshake, slide_syns, raise_syn_flood, syn_flood_rule, port_scan_rule, raise_port_scan,
  slide_ports, observe_state,
}
use net_sentinel.Flow.History.{History, state_after, may_alert, Latest, IsMonotone}

abbrev pub raised : List Alert → Bool
raised [] = false
raised (alert ∷ alerts) = true

-- The alerts of the port-scan rule at a packet.
abbrev pub scans_at : FlowTrackerConfig → ParsedPacket → ℤ → PerIpState → List Alert
scans_at config meta now state =
    (port_scan_rule config meta now (record state { last_seen_ms = now })).1

-- The alerts of the SYN-flood rule at a packet.
abbrev pub floods_at : FlowTrackerConfig → ParsedPacket → ℤ → PerIpState → List Alert
floods_at config meta now state =
    (syn_flood_rule config meta now
      (port_scan_rule config meta now (record state { last_seen_ms = now })).0).1

-- Each rule stamps the time of its alert, and leaves the stamp of the other alone.
pub observe_state-stamps :
    (config : FlowTrackerConfig) (meta : ParsedPacket) (now : ℤ) (state : PerIpState)
    → let next = (observe_state config meta now state).0 in
      (next.last_port_scan_alert_ms ≡ (
        if raised (scans_at config meta now state)
        then some now
        else state.last_port_scan_alert_ms))
      × (next.last_syn_flood_alert_ms ≡ (
          if raised (floods_at config meta now state)
          then some now
          else state.last_syn_flood_alert_ms))
unfolding observe_state port_scan_rule raise_port_scan syn_flood_rule raise_syn_flood slide_syns
    note_handshake slide_ports
observe_state-stamps config meta now state = ground arith

-- A rule that alerts was allowed to.
scans_at-may_alert :
    (config : FlowTrackerConfig) (meta : ParsedPacket) (now : ℤ) (state : PerIpState)
    → raised (scans_at config meta now state) ≡ true
    → may_alert config state.last_port_scan_alert_ms now ≡ true
unfolding port_scan_rule raise_port_scan slide_ports
scans_at-may_alert config meta now state h = ground arith

floods_at-may_alert :
    (config : FlowTrackerConfig) (meta : ParsedPacket) (now : ℤ) (state : PerIpState)
    → raised (floods_at config meta now state) ≡ true
    → may_alert config state.last_syn_flood_alert_ms now ≡ true
unfolding port_scan_rule raise_port_scan slide_ports syn_flood_rule raise_syn_flood slide_syns
    note_handshake
floods_at-may_alert config meta now state h = ground arith

-- What a rule reports at a packet.
abbrev Rule : Type 0
Rule = FlowTrackerConfig → ParsedPacket → ℤ → PerIpState → List Alert

module _ (config : FlowTrackerConfig) (alerts : Rule) where
  -- The rule alerted at time `t` in a history.
  abbrev pub AlertedAt : ℤ → History → Type 0
  AlertedAt t [] = ⊥
  AlertedAt t ((meta, u) ∷ older) =
      ((u ≡ t) × (raised (alerts config meta u (state_after config older)) ≡ true))
      ⊎ AlertedAt t older

  AlertedAt-le : (t u : ℤ) (h : History) → Latest u h → IsMonotone h → AlertedAt t h → t ≤ℤ u
  AlertedAt-le t u [] l m a = absurd a
  AlertedAt-le t u ((meta, v) ∷ older) l m (inl (e, _)) = rw (← e) l
  AlertedAt-le t u ((meta, v) ∷ older) l m (inr a) =
      let le : t ≤ℤ v = AlertedAt-le t v older m.0 m.1 a in omega arith

-- A stamp that is no earlier than `t`.
abbrev IsSince : ℤ → Option ℤ → Type 0
IsSince t none = ⊥
IsSince t (some s) = t ≤ℤ s

module _ (config : FlowTrackerConfig) (alerts : Rule) (stamp : PerIpState → Option ℤ)
    (stamped : (meta : ParsedPacket) (now : ℤ) (state : PerIpState)
      → stamp (observe_state config meta now state).0
        ≡ (if raised (alerts config meta now state) then some now else stamp state)) where
  stamp-IsSince :
      (t : ℤ) (h : History)
      → IsMonotone h
      → AlertedAt config alerts t h
      → IsSince t (stamp (state_after config h))
  unfolding state_after
  stamp-IsSince t [] m a = absurd a
  stamp-IsSince t ((meta, u) ∷ older) m a = rw (stamped meta u (state_after config older)) (
      cases (λ b. stamp-IsSince t older m.1 b)
        (raised (alerts config meta u (state_after config older))) refl a)
    where
      cases :
          (AlertedAt config alerts t older → IsSince t (stamp (state_after config older)))
          → (b : Bool) → raised (alerts config meta u (state_after config older)) ≡ b
          → AlertedAt config alerts t ((meta, u) ∷ older)
          → IsSince t (if b then some u else stamp (state_after config older))
      cases before true e a = AlertedAt-le config alerts t u ((meta, u) ∷ older) (omega arith) m a
      cases before false e (inl (_, r)) = cc
      cases before false e (inr b) = before b

may_alert-apart :
    (config : FlowTrackerConfig) (t now : ℤ) (stamp : Option ℤ)
    → IsSince t stamp
    → may_alert config stamp now ≡ true
    → config.alert_debounce_ms ≤ℤ (now -ℤ t)
may_alert-apart config t now none since ok = absurd since
may_alert-apart config t now (some s) since ok = ground (arith, -ℤ_parts now s, -ℤ_parts now t)

-- Two port-scan alerts of one source are at least the debounce time apart: if the rule alerts at a
-- packet, it is that much later than every earlier packet of the history at which it alerted. The
-- history's times never fall.
pub scans_at-apart :
    (config : FlowTrackerConfig) (meta : ParsedPacket) (now t : ℤ) (h : History)
    → IsMonotone h
    → AlertedAt config scans_at t h
    → raised (scans_at config meta now (state_after config h)) ≡ true
    → config.alert_debounce_ms ≤ℤ (now -ℤ t)
scans_at-apart config meta now t h m a r =
    may_alert-apart config t now _
      (stamp-IsSince config scans_at (λ s. s.last_port_scan_alert_ms)
        (λ meta' now' state. (observe_state-stamps config meta' now' state).0) t h m a)
      (scans_at-may_alert config meta now (state_after config h) r)

-- Two SYN-flood alerts of one source are at least the debounce time apart, in the same sense.
pub floods_at-apart :
    (config : FlowTrackerConfig) (meta : ParsedPacket) (now t : ℤ) (h : History)
    → IsMonotone h
    → AlertedAt config floods_at t h
    → raised (floods_at config meta now (state_after config h)) ≡ true
    → config.alert_debounce_ms ≤ℤ (now -ℤ t)
floods_at-apart config meta now t h m a r =
    may_alert-apart config t now _
      (stamp-IsSince config floods_at (λ s. s.last_syn_flood_alert_ms)
        (λ meta' now' state. (observe_state-stamps config meta' now' state).1) t h m a)
      (floods_at-may_alert config meta now (state_after config h) r)
