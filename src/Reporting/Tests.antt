-- ===== src/Reporting/Tests.antt =====
-- A packet's line, and two alerts.
use net_sentinel.Base.{
  ◌≡◌, ◌+◌, ◌%◌, ◌^◌, refl, true, false, List, [], ◌∷◌, map, if◌then◌else◌, pos, replicate,
}
use net_sentinel.Base.Text.{codes, decimal, decimal_fuel, decimal_int}
use net_sentinel.Packet.{QueuedPacket, tcp}
use net_sentinel.Parser.{bare_packet}
use net_sentinel.Printing.{
  mac_to_string, ipv4_to_string, transport_to_string, tcp_flags_to_string, format_alert,
}
use net_sentinel.Alert.{
  Alert, anomaly_type_to_string, port_scan, high_entropy_payload, syn_flood, signature_match,
}
use net_sentinel.Reporting.{six_digits, packet_line, count_type, print_alert}
use net_sentinel.Reporting.Counts.{print_alerts, no_reports, of_type, print_alerts-counts}

program : Unit {0}
unfolding decimal decimal_fuel decimal_int mac_to_string ipv4_to_string transport_to_string
    tcp_flags_to_string anomaly_type_to_string format_alert six_digits packet_line count_type
    print_alert print_alerts
program = tt

abbrev syn : QueuedPacket
syn = record {
  meta =
      record (bare_packet (record { tv_sec = pos 12; tv_usec = pos 340 }) 60 62 (replicate 6 0xaa)
        (replicate 6 0xbb)) {
          has_ip = true;
          src_ip = 0x0a000001;
          dst_ip = 0x0a000002;
          ttl = 64;
          transport = tcp;
          src_port = 40000;
          dst_port = 80;
          tcp_flags = 2;
        };
  payload = b'h' ∷ b'i' ∷ [];
}

lines :
    packet_line syn
    ≡ codes
        "[12.000340] len=62 cap=60  aa:aa:aa:aa:aa:aa -> bb:bb:bb:bb:bb:bb  10.0.0.1:40000 -> 10.0.0.2:80 proto=TCP ttl=64 flags=S payload=2B"
unfolding program
lines = refl

abbrev scan : Alert
scan = record {
  type = port_scan;
  src_ip = 0x0a000001;
  dst_ip = 0;
  src_port = 0;
  dst_port = 0;
  detail = [];
}

reports :
    print_alert true (record scan { type = signature_match }) (print_alert true scan no_reports)
    ≡ record no_reports { alert_count = 2; port_scans = 1; signature_matches = 1 }
unfolding program
reports = refl

abbrev two_alerts : List Alert
two_alerts = scan ∷ record scan { type = signature_match } ∷ []

two_reports :
    print_alerts true two_alerts no_reports
    ≡ record no_reports { alert_count = 2; port_scans = 1; signature_matches = 1 }
unfolding program
two_reports = refl

print_alerts-counts_example :
    let after = print_alerts false two_alerts no_reports in
    (after.port_scans ≡ of_type port_scan two_alerts % 2 ^ 64)
    × (after.high_entropy_payloads ≡ of_type high_entropy_payload two_alerts % 2 ^ 64)
    × (after.syn_floods ≡ of_type syn_flood two_alerts % 2 ^ 64)
    × (after.signature_matches ≡ of_type signature_match two_alerts % 2 ^ 64)
    × (after.alert_count
        ≡ (after.port_scans + after.high_entropy_payloads + after.syn_floods
            + after.signature_matches)
          % 2 ^ 64)
    × (after.lines ≡ (if false then [] else map format_alert two_alerts))
print_alerts-counts_example = print_alerts-counts false two_alerts
