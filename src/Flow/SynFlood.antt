-- ===== src/Flow/SynFlood.antt =====
-- The SYN-flood rule against its specification: the number of half-open connections of the source
-- in the trailing window.
use net_sentinel.Base.{
  IsDistinct, keep-IsDistinct, dedup-IsDistinct, length-Lists, elem, dedup, keep, elem-keep,
  elem-dedup, map, is_some, if_pos, ◌≡◌, refl, sym, ap, ◌∙◌, Bool, true, false, ◌&&◌, if◌then◌else◌,
  List, [], ◌∷◌, ℤ, pos, ◌≤ℤ◌, arith, ◌-ℤ◌, -ℤ_mono, -ℤ_parts, length, Bool-cases, inl, inr, Option,
  none, some, find, IsMap,
}
use net_sentinel.Packet.{ParsedPacket}
use net_sentinel.Flow.{FlowTrackerConfig, PerIpState, FlowKey, FlowKey-discrete, is_tcp}
use net_sentinel.Flow.Rules.{
  note_handshake, slide_syns, raise_syn_flood, syn_flood_rule, port_scan_rule, raise_port_scan,
  slide_ports, observe_state,
}
use net_sentinel.Flow.SynWindow.{Has}
use net_sentinel.Flow.History.{History, state_after, Latest, IsMonotone}
use net_sentinel.Flow.HalfOpen.{
  opens, acks, syns, half_open, within, Tracks, note_handshake-Tracks, expire_syns-Tracks,
  half_open-Has,
}

-- The SYN-flood fields of a record do not depend on the port-scan rule.
observe_state-syns :
    (config : FlowTrackerConfig) (meta : ParsedPacket) (now_ms : ℤ) (state : PerIpState)
    → let next = (observe_state config meta now_ms state).0 in
      let slid = slide_syns config meta now_ms state in
      (next.pending_syns
        ≡ (if is_tcp meta.transport then slid.pending_syns else state.pending_syns))
      × (next.pending_syn_order
          ≡ (if is_tcp meta.transport then slid.pending_syn_order else state.pending_syn_order))
unfolding observe_state port_scan_rule raise_port_scan syn_flood_rule raise_syn_flood slide_syns
    note_handshake slide_ports
observe_state-syns config meta now_ms state = ground arith

Tracks-other :
    (c t : ℤ) (meta : ParsedPacket) (h : History) (pending : List (FlowKey × ℤ))
    (order : List (ℤ × FlowKey))
    → is_tcp meta.transport ≡ false
    → Tracks c h pending order
    → Tracks c ((meta, t) ∷ h) pending order
unfolding opens acks
Tracks-other c t meta h pending order other tr = record {
  is_map = tr.is_map;
  ordered = ground arith;
  half = λ key. ground (arith, tr.half key);
}

module _ (config : FlowTrackerConfig) (forward : pos 0 ≤ℤ config.syn_flood_window_ms) where
  abbrev cutoff_at : ℤ → ℤ
  cutoff_at now = now -ℤ config.syn_flood_window_ms

  slide_syns-Tracks :
      (c t : ℤ) (meta : ParsedPacket) (h : History) (state : PerIpState)
      → is_tcp meta.transport ≡ true
      → c ≤ℤ cutoff_at t
      → Latest t h
      → IsMonotone h
      → Tracks c h state.pending_syns state.pending_syn_order
      → let slid = slide_syns config meta t state in
        Tracks (cutoff_at t) ((meta, t) ∷ h) slid.pending_syns slid.pending_syn_order
  unfolding slide_syns
  slide_syns-Tracks c t meta h state tcp le l m tr =
      expire_syns-Tracks c (cutoff_at t) ((meta, t) ∷ h) _ _ le (l, m)
        (note_handshake-Tracks c t meta h state tcp
          (omega (arith, -ℤ_parts t config.syn_flood_window_ms)) tr)

  syns-track :
      (now : ℤ) (h : History)
      → Latest now h
      → IsMonotone h
      → (c : ℤ) × (c ≤ℤ cutoff_at now)
        × Tracks c h (state_after config h).pending_syns (state_after config h).pending_syn_order
  unfolding state_after find
  syns-track now [] l m =
      (cutoff_at now, omega arith, record { is_map = tt; ordered = refl; half = λ key. refl })
  syns-track now ((meta, t) ∷ older) l m =
      let (c, le, tr) = syns-track t older m.0 m.1 in
      let (pending, order) = observe_state-syns config meta t (state_after config older) in
      elim (Bool-cases (is_tcp meta.transport)) [
        | inl tcp ↦ (
          cutoff_at t,
          -ℤ_mono t now config.syn_flood_window_ms l,
          rw (pending, order)
              (rw tcp
                (slide_syns-Tracks c t meta older (state_after config older) tcp le m.0 m.1 tr)),
        )
        | inr other ↦ (
          c,
          omega (arith, -ℤ_mono t now config.syn_flood_window_ms l),
          rw (pending, order) (rw other (Tracks-other c t meta older _ _ other tr)),
        )
      ]

  -- After a TCP packet the table of pending SYNs holds exactly the half-open connections of the
  -- source whose last SYN lies in the trailing window, each with the time of that SYN: a connection
  -- that the source acknowledged is not in it. This holds after every history of the source with
  -- times that never fall, for a window that is not negative.
  pub pending_syns-half_open :
      (meta : ParsedPacket) (now : ℤ) (h : History) (key : FlowKey)
      → is_tcp meta.transport ≡ true
      → Latest now h
      → IsMonotone h
      → find FlowKey-discrete key
          (observe_state config meta now (state_after config h)).0.pending_syns
        ≡ within (now -ℤ config.syn_flood_window_ms) (half_open key ((meta, now) ∷ h))
  pending_syns-half_open meta now h key tcp l m =
      let (c, le, tr) = syns-track now h l m in
      let slid = slide_syns-Tracks c now meta h (state_after config h) tcp le l m tr in
      rw ((observe_state-syns config meta now (state_after config h)).0) (rw tcp (slid.half key))

  pub pending_syns-IsMap :
      (meta : ParsedPacket) (now : ℤ) (h : History)
      → is_tcp meta.transport ≡ true
      → Latest now h
      → IsMonotone h
      → IsMap FlowKey-discrete (slide_syns config meta now (state_after config h)).pending_syns
  pending_syns-IsMap meta now h tcp l m =
      let (c, le, tr) = syns-track now h l m in
      (slide_syns-Tracks c now meta h (state_after config h) tcp le l m tr).is_map

-- The half-open connections of a history, each once.
abbrev pub open_connections : ℤ → History → List FlowKey
open_connections cutoff h =
    keep FlowKey-discrete (λ key. is_some (within cutoff (half_open key h)))
      (dedup FlowKey-discrete (map (λ e. e.1) (syns h)))

Has-elem :
    (t : ℤ) (key : FlowKey) (xs : List (ℤ × FlowKey))
    → Has t key xs
    → elem FlowKey-discrete key (map (λ e. e.1) xs) ≡ true
Has-elem t key [] h = absurd h
Has-elem t key ((u, k) ∷ xs) (inl (_, e)) = if_pos (FlowKey-discrete k key) e true _
Has-elem t key ((u, k) ∷ xs) (inr h) = ground (arith, Has-elem t key xs h)

elem-open_connections :
    (cutoff : ℤ) (h : History) (key : FlowKey)
    → elem FlowKey-discrete key (open_connections cutoff h)
      ≡ is_some (within cutoff (half_open key h))
elem-open_connections cutoff h key =
    elem-keep FlowKey-discrete key (λ k. is_some (within cutoff (half_open k h)))
      (dedup FlowKey-discrete (map (λ e. e.1) (syns h)))
    ∙ split (half_open key h) refl
  where
    split :
        (o : Option ℤ)
        → half_open key h ≡ o
        → (is_some (within cutoff (half_open key h))
            && elem FlowKey-discrete key (dedup FlowKey-discrete (map (λ e. e.1) (syns h))))
          ≡ is_some (within cutoff (half_open key h))
    split none e = rw e
    split (some t) e =
        rw
          (
            elem-dedup FlowKey-discrete key (map (λ e. e.1) (syns h)),
            Has-elem t key (syns h) (half_open-Has key h t e),
          )
          (and_true (is_some (within cutoff (half_open key h))))
      where
        and_true : (b : Bool) → (b && true) ≡ b
        and_true true = refl
        and_true false = refl

open_connections-IsDistinct :
    (cutoff : ℤ) (h : History) → IsDistinct FlowKey-discrete (open_connections cutoff h)
open_connections-IsDistinct cutoff h =
    keep-IsDistinct FlowKey-discrete (λ key. is_some (within cutoff (half_open key h)))
      (dedup FlowKey-discrete (map (λ e. e.1) (syns h)))
      (dedup-IsDistinct FlowKey-discrete (map (λ e. e.1) (syns h)))

-- The size of the table is the number of half-open connections.
pub length-pending_syns :
    (config : FlowTrackerConfig) (forward : pos 0 ≤ℤ config.syn_flood_window_ms)
    (meta : ParsedPacket) (now : ℤ) (h : History)
    → is_tcp meta.transport ≡ true
    → Latest now h
    → IsMonotone h
    → length (slide_syns config meta now (state_after config h)).pending_syns
      ≡ length (open_connections (now -ℤ config.syn_flood_window_ms) ((meta, now) ∷ h))
length-pending_syns config forward meta now h tcp l m =
    let (c, le, tr) = syns-track config forward now h l m in
    let slid = slide_syns-Tracks config forward c now meta h (state_after config h) tcp le l m tr in
    let cutoff = now -ℤ config.syn_flood_window_ms in
    length-Lists FlowKey-discrete _ (open_connections cutoff ((meta, now) ∷ h)) slid.is_map
      (open_connections-IsDistinct cutoff ((meta, now) ∷ h))
      (λ key. ap is_some (slid.half key) ∙ sym (elem-open_connections cutoff ((meta, now) ∷ h) key))
