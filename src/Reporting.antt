-- ===== src/Reporting.antt =====
-- src/main.cpp: the lines that are printed for packets and alerts, and the counts of alerts. Standard
-- output is the list of its lines.
pub mod Counts
mod Tests
use net_sentinel.Base.{
  ℕ, ◌+◌, ◌-◌, ◌%◌, ◌^◌, Bool, true, false, not, if◌then◌else◌, List, [], ◌∷◌, ◌++◌, length,
  replicate, ℤ, pos, negsuc, suc,
}
use net_sentinel.Base.Text.{codes, decimal, decimal_int}
use net_sentinel.Packet.{
  ParsedPacket, QueuedPacket, payload_size, Transport, unknown, tcp, udp, icmp,
}
use net_sentinel.Alert.{
  Alert, AnomalyType, port_scan, high_entropy_payload, syn_flood, signature_match,
}
use net_sentinel.Printing.{
  mac_to_string, ipv4_to_string, transport_to_string, tcp_flags_to_string, format_alert,
}

-- `%06ld`: zeros between the sign and the digits.
unfoldable pub six_digits : ℤ → List ℕ
six_digits (pos n) = let digits = decimal n in replicate (6 - length digits) b'0' ++ digits
six_digits (negsuc n) =
    let digits = decimal (suc n) in b'-' ∷ (replicate (5 - length digits) b'0' ++ digits)

abbrev pub has_ports : Transport → Bool
has_ports tcp = true
has_ports udp = true
has_ports _ = false

abbrev pub is_tcp : Transport → Bool
is_tcp tcp = true
is_tcp _ = false

-- `print_packet`, without the line's end.
unfoldable pub packet_line : QueuedPacket → List ℕ
unfolding six_digits
packet_line q =
    let pkt = q.meta in
    let frame_text =
      codes "["
      ++ (decimal_int pkt.timestamp.tv_sec
          ++ (codes "."
              ++ (six_digits pkt.timestamp.tv_usec
                  ++ (codes "] len="
                      ++ (decimal pkt.wire_length
                          ++ (codes " cap="
                              ++ (decimal pkt.capture_length
                                  ++ (codes "  "
                                      ++ (mac_to_string pkt.src_mac
                                          ++ (codes " -> " ++ mac_to_string pkt.dst_mac)))))))))) in
    let port_text =
      λ (port : ℕ). if has_ports pkt.transport then codes ":" ++ decimal port else [] in
    if not pkt.has_ip
    then frame_text ++ codes "  (non-IPv4)"
    else frame_text
      ++ (codes "  "
          ++ (ipv4_to_string pkt.src_ip
              ++ (port_text pkt.src_port
                  ++ (codes " -> "
                      ++ (ipv4_to_string pkt.dst_ip
                          ++ (port_text pkt.dst_port
                              ++ (codes " proto="
                                  ++ (transport_to_string pkt.transport
                                      ++ (codes " ttl="
                                          ++ (decimal pkt.ttl
                                              ++ ((if is_tcp pkt.transport
                                                    then codes " flags="
                                                      ++ tcp_flags_to_string pkt.tcp_flags
                                                    else [])
                                                  ++ (codes " payload="
                                                      ++ (decimal (payload_size q)
                                                          ++ codes "B")))))))))))))

-- `g_alert_count`, `g_alerts_by_type`, and the lines on standard output.
pub record Reports : Type 0 where
  pub alert_count : ℕ
  pub port_scans : ℕ
  pub high_entropy_payloads : ℕ
  pub syn_floods : ℕ
  pub signature_matches : ℕ
  pub lines : List (List ℕ)

-- The `fetch_add` on the counter of the alert's type.
unfoldable pub count_type : AnomalyType → Reports → Reports
count_type port_scan r = record r { port_scans = (r.port_scans + 1) % 2 ^ 64 }
count_type high_entropy_payload r = record r {
  high_entropy_payloads = (r.high_entropy_payloads + 1) % 2 ^ 64;
}
count_type syn_flood r = record r { syn_floods = (r.syn_floods + 1) % 2 ^ 64 }
count_type signature_match r = record r { signature_matches = (r.signature_matches + 1) % 2 ^ 64 }

unfoldable pub print_alert : (quiet : Bool) → Alert → Reports → Reports
unfolding count_type
print_alert quiet alert r =
    let counted = count_type alert.type (record r { alert_count = (r.alert_count + 1) % 2 ^ 64 }) in
    if quiet then counted else record counted { lines = counted.lines ++ (format_alert alert ∷ []) }
