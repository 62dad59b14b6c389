-- ===== src/Reporting/Counts.antt =====
-- What a run of `print_alert` leaves, alert by alert.
use net_sentinel.Base.{
  ℕ, ◌+◌, ◌%◌, ◌^◌, ◌≡◌, refl, sym, ap, ◌∙◌, Bool, true, false, if◌then◌else◌, List, [], ◌∷◌, ◌++◌,
  length, map, arith, ◌<◌,
}
use mathlib.Core.List.{append_assoc, append-nil}
use net_sentinel.Alert.{
  Alert, AnomalyType, port_scan, high_entropy_payload, syn_flood, signature_match,
}
use net_sentinel.Printing.{format_alert}
use net_sentinel.Reporting.{Reports, count_type, print_alert}

-- The workers' calls, in the order in which they print.
unfoldable pub print_alerts : (quiet : Bool) → List Alert → Reports → Reports
unfolding print_alert
print_alerts quiet [] r = r
print_alerts quiet (alert ∷ alerts) r = print_alerts quiet alerts (print_alert quiet alert r)

abbrev pub no_reports : Reports
no_reports = record {
  alert_count = 0;
  port_scans = 0;
  high_entropy_payloads = 0;
  syn_floods = 0;
  signature_matches = 0;
  lines = [];
}

abbrev same_type : AnomalyType → AnomalyType → ℕ
same_type port_scan port_scan = 1
same_type high_entropy_payload high_entropy_payload = 1
same_type syn_flood syn_flood = 1
same_type signature_match signature_match = 1
same_type _ _ = 0

-- The number of alerts of one type.
abbrev pub of_type : AnomalyType → List Alert → ℕ
of_type type [] = 0
of_type type (alert ∷ alerts) = same_type type alert.type + of_type type alerts

-- The counters are those of `std::atomic<uint64_t>`.
record Small (r : Reports) : Type 0 where
  all : r.alert_count < 2 ^ 64
  scans : r.port_scans < 2 ^ 64
  entropies : r.high_entropy_payloads < 2 ^ 64
  floods : r.syn_floods < 2 ^ 64
  matches : r.signature_matches < 2 ^ 64

-- The reports after a run of calls, from the reports before it.
record Counted (quiet : Bool) (alerts : List Alert) (before after : Reports) : Type 0 where
  all : after.alert_count ≡ (before.alert_count + length alerts) % 2 ^ 64
  scans : after.port_scans ≡ (before.port_scans + of_type port_scan alerts) % 2 ^ 64
  entropies :
      after.high_entropy_payloads
      ≡ (before.high_entropy_payloads + of_type high_entropy_payload alerts) % 2 ^ 64
  floods : after.syn_floods ≡ (before.syn_floods + of_type syn_flood alerts) % 2 ^ 64
  matches :
      after.signature_matches ≡ (before.signature_matches + of_type signature_match alerts) % 2 ^ 64
  printed : after.lines ≡ before.lines ++ (if quiet then [] else map format_alert alerts)

-- The counters of types after one call.
record OneMore (type : AnomalyType) (before after : Reports) : Type 0 where
  all : after.alert_count ≡ before.alert_count
  scans : after.port_scans ≡ (before.port_scans + same_type port_scan type) % 2 ^ 64
  entropies :
      after.high_entropy_payloads
      ≡ (before.high_entropy_payloads + same_type high_entropy_payload type) % 2 ^ 64
  floods : after.syn_floods ≡ (before.syn_floods + same_type syn_flood type) % 2 ^ 64
  matches :
      after.signature_matches ≡ (before.signature_matches + same_type signature_match type) % 2 ^ 64
  printed : after.lines ≡ before.lines

count_type-OneMore :
    (type : AnomalyType) (r : Reports) → Small r → OneMore type r (count_type type r)
unfolding count_type
count_type-OneMore port_scan r s = record {
  all = refl;
  scans = refl;
  entropies = omega (arith, s.entropies);
  floods = omega (arith, s.floods);
  matches = omega (arith, s.matches);
  printed = refl;
}
count_type-OneMore high_entropy_payload r s = record {
  all = refl;
  scans = omega (arith, s.scans);
  entropies = refl;
  floods = omega (arith, s.floods);
  matches = omega (arith, s.matches);
  printed = refl;
}
count_type-OneMore syn_flood r s = record {
  all = refl;
  scans = omega (arith, s.scans);
  entropies = omega (arith, s.entropies);
  floods = refl;
  matches = omega (arith, s.matches);
  printed = refl;
}
count_type-OneMore signature_match r s = record {
  all = refl;
  scans = omega (arith, s.scans);
  entropies = omega (arith, s.entropies);
  floods = omega (arith, s.floods);
  matches = refl;
  printed = refl;
}

counted_alert-OneMore :
    (type : AnomalyType) (r : Reports)
    → Small r
    → let counted = record r { alert_count = (r.alert_count + 1) % 2 ^ 64 } in
      OneMore type counted (count_type type counted)
counted_alert-OneMore type r s = count_type-OneMore type _ (record {
  all = omega arith;
  scans = s.scans;
  entropies = s.entropies;
  floods = s.floods;
  matches = s.matches;
})

print_alert-Counted :
    (quiet : Bool) (alert : Alert) (r : Reports)
    → Small r
    → Counted quiet (alert ∷ []) r (print_alert quiet alert r)
unfolding print_alert
print_alert-Counted true alert r s =
    let one = counted_alert-OneMore alert.type r s in
    record {
      all = one.all;
      scans = omega (arith, one.scans);
      entropies = omega (arith, one.entropies);
      floods = omega (arith, one.floods);
      matches = omega (arith, one.matches);
      printed = one.printed ∙ sym (append-nil r.lines);
    }
print_alert-Counted false alert r s =
    let one = counted_alert-OneMore alert.type r s in
    record {
      all = one.all;
      scans = omega (arith, one.scans);
      entropies = omega (arith, one.entropies);
      floods = omega (arith, one.floods);
      matches = omega (arith, one.matches);
      printed = ap (◌++ format_alert alert ∷ []) one.printed;
    }

Counted-Small :
    (quiet : Bool) (alerts : List Alert) (before after : Reports)
    → Counted quiet alerts before after
    → Small after
Counted-Small quiet alerts before after c = record {
  all = omega (arith, c.all);
  scans = omega (arith, c.scans);
  entropies = omega (arith, c.entropies);
  floods = omega (arith, c.floods);
  matches = omega (arith, c.matches);
}

printed_then :
    (quiet : Bool) (alert : Alert) (alerts : List Alert) (lines : List (List ℕ))
    → (lines ++ (if quiet then [] else map format_alert (alert ∷ [])))
        ++ (if quiet then [] else map format_alert alerts)
      ≡ lines ++ (if quiet then [] else map format_alert (alert ∷ alerts))
printed_then true alert alerts lines = append-nil (lines ++ [])
printed_then false alert alerts lines = append_assoc lines (format_alert alert ∷ []) _

Counted-then :
    (quiet : Bool) (alert : Alert) (alerts : List Alert) (before mid after : Reports)
    → Counted quiet (alert ∷ []) before mid
    → Counted quiet alerts mid after
    → Counted quiet (alert ∷ alerts) before after
Counted-then quiet alert alerts before mid after one rest = record {
  all = omega (arith, one.all, rest.all);
  scans = omega (arith, one.scans, rest.scans);
  entropies = omega (arith, one.entropies, rest.entropies);
  floods = omega (arith, one.floods, rest.floods);
  matches = omega (arith, one.matches, rest.matches);
  printed =
      rest.printed
      ∙ ap (λ (l : List (List ℕ)). l ++ (if quiet then [] else map format_alert alerts)) one.printed
      ∙ printed_then quiet alert alerts before.lines;
}

print_alerts-Counted :
    (quiet : Bool) (alerts : List Alert) (r : Reports)
    → Small r
    → Counted quiet alerts r (print_alerts quiet alerts r)
unfolding print_alerts
print_alerts-Counted true [] r s = record {
  all = omega (arith, s.all);
  scans = omega (arith, s.scans);
  entropies = omega (arith, s.entropies);
  floods = omega (arith, s.floods);
  matches = omega (arith, s.matches);
  printed = sym (append-nil r.lines);
}
print_alerts-Counted false [] r s = record {
  all = omega (arith, s.all);
  scans = omega (arith, s.scans);
  entropies = omega (arith, s.entropies);
  floods = omega (arith, s.floods);
  matches = omega (arith, s.matches);
  printed = sym (append-nil r.lines);
}
print_alerts-Counted quiet (alert ∷ alerts) r s =
    let one = print_alert-Counted quiet alert r s in
    let mid = print_alert quiet alert r in
    Counted-then quiet alert alerts r mid _ one
      (print_alerts-Counted quiet alerts mid (Counted-Small quiet (alert ∷ []) r mid one))

types-length :
    (alerts : List Alert)
    → of_type port_scan alerts
        + of_type high_entropy_payload alerts
        + of_type syn_flood alerts
        + of_type signature_match alerts
      ≡ length alerts
types-length [] = refl
types-length (alert ∷ alerts) = omega (arith, types-length alerts, one alert.type)
  where
    one :
        (type : AnomalyType)
        → same_type port_scan type
            + same_type high_entropy_payload type
            + same_type syn_flood type
            + same_type signature_match type
          ≡ 1
    one port_scan = refl
    one high_entropy_payload = refl
    one syn_flood = refl
    one signature_match = refl

-- After any alerts, in the order in which they are printed, the counts of the types are those of the alerts and add
-- up to the count of all, modulo 2 ^ 64; and the lines are those of the alerts in order, or none with `-s`.
pub print_alerts-counts :
    (quiet : Bool) (alerts : List Alert)
    → let after = print_alerts quiet alerts no_reports in
      (after.port_scans ≡ of_type port_scan alerts % 2 ^ 64)
      × (after.high_entropy_payloads ≡ of_type high_entropy_payload alerts % 2 ^ 64)
      × (after.syn_floods ≡ of_type syn_flood alerts % 2 ^ 64)
      × (after.signature_matches ≡ of_type signature_match alerts % 2 ^ 64)
      × (after.alert_count
          ≡ (after.port_scans + after.high_entropy_payloads + after.syn_floods
              + after.signature_matches)
            % 2 ^ 64)
      × (after.lines ≡ (if quiet then [] else map format_alert alerts))
print_alerts-counts quiet alerts =
    let zeros : Small no_reports = record {
      all = omega arith;
      scans = omega arith;
      entropies = omega arith;
      floods = omega arith;
      matches = omega arith;
    } in
    let c = print_alerts-Counted quiet alerts no_reports zeros in
    (
      omega (arith, c.scans),
      omega (arith, c.entropies),
      omega (arith, c.floods),
      omega (arith, c.matches),
      omega (arith, c.all, c.scans, c.entropies, c.floods, c.matches, types-length alerts),
      c.printed,
    )
