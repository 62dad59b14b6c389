-- ===== src/Flow/History.antt =====
-- Histories of one source IP: the packets since its record was made, newest first, with their
-- times. The record after a history is what `observe` has made of it.
use net_sentinel.Base.{
  ℕ, ◌≡◌, Bool, true, if◌then◌else◌, List, [], ◌∷◌, ◌++◌, ℤ, ◌≤ℤ◌, arith, Bool-cases, inl, inr,
  Option, none, some, not, ltb_ℤ, ◌-ℤ◌,
}
use net_sentinel.Packet.{ParsedPacket}
use net_sentinel.Flow.{FlowTrackerConfig, PerIpState, new_state, is_connection_attempt}
use net_sentinel.Flow.Rules.{
  port_scan_rule, raise_port_scan, slide_ports, syn_flood_rule, raise_syn_flood, slide_syns,
  note_handshake, observe_state,
}
use net_sentinel.Flow.Timed.{UpTo, UpTo-mono, IsSorted, snoc-IsSorted, snoc-UpTo}

abbrev pub History : Type 0
History = List (ParsedPacket × ℤ)

unfoldable pub state_after : FlowTrackerConfig → History → PerIpState
state_after config [] = new_state
state_after config ((meta, now_ms) ∷ older) =
    (observe_state config meta now_ms (state_after config older)).0

-- The last packet of a history is no later than `now`.
abbrev pub Latest : ℤ → History → Type 0
Latest now [] = Unit {0}
Latest now ((meta, t) ∷ older) = t ≤ℤ now

-- Time never falls along a history.
abbrev pub IsMonotone : History → Type 0
IsMonotone [] = Unit {0}
IsMonotone ((meta, t) ∷ older) = Latest t older × IsMonotone older

-- The connection attempts of a history, oldest first: time and destination port.
abbrev pub attempts : History → List (ℤ × ℕ)
attempts [] = []
attempts ((meta, t) ∷ older) =
    if is_connection_attempt meta then attempts older ++ (t, meta.dst_port) ∷ [] else attempts older

-- The port-scan fields of a record do not depend on the SYN-flood rule.
pub observe_state-ports :
    (config : FlowTrackerConfig) (meta : ParsedPacket) (now_ms : ℤ) (state : PerIpState)
    → let next = (observe_state config meta now_ms state).0 in
      let slid = slide_ports config meta now_ms (record state { last_seen_ms = now_ms }) in
      (next.recent_dst_ports
        ≡ (if is_connection_attempt meta then slid.recent_dst_ports else state.recent_dst_ports))
      × (next.port_counts
          ≡ (if is_connection_attempt meta then slid.port_counts else state.port_counts))
unfolding observe_state port_scan_rule raise_port_scan syn_flood_rule raise_syn_flood slide_syns
    note_handshake
observe_state-ports config meta now_ms state = ground arith

pub attempts-UpTo : (now : ℤ) (h : History) → Latest now h → IsMonotone h → UpTo now (attempts h)
attempts-UpTo now [] l m = tt
attempts-UpTo now ((meta, t) ∷ older) l m = elim (Bool-cases (is_connection_attempt meta)) [
  | inl a ↦ rw a (
      snoc-UpTo now t meta.dst_port (attempts older) l
        (UpTo-mono t now (attempts older) l (attempts-UpTo t older m.0 m.1)))
  | inr n ↦ rw n (UpTo-mono t now (attempts older) l (attempts-UpTo t older m.0 m.1))
]

pub attempts-IsSorted : (h : History) → IsMonotone h → IsSorted (attempts h)
attempts-IsSorted [] m = tt
attempts-IsSorted ((meta, t) ∷ older) m = elim (Bool-cases (is_connection_attempt meta)) [
  | inl a ↦ rw a (
      snoc-IsSorted t meta.dst_port (attempts older) (attempts-UpTo t older m.0 m.1)
        (attempts-IsSorted older m.1))
  | inr n ↦ rw n (attempts-IsSorted older m.1)
]

-- Whether a rule that alerted at `stamp` may alert again.
abbrev pub may_alert : FlowTrackerConfig → Option ℤ → ℤ → Bool
may_alert config none now = true
may_alert config (some last) now = not (ltb_ℤ (now -ℤ last) config.alert_debounce_ms)
