-- ===== src/Printing/Tests.antt =====
-- Texts of addresses, flags and alerts.
use net_sentinel.Base.{◌≡◌, refl, [], ◌∷◌, length, arith}
use net_sentinel.Base.Text.{codes, decimal, decimal_fuel}
use net_sentinel.Packet.{tcp}
use net_sentinel.Alert.{Alert, port_scan, anomaly_type_to_string}
use net_sentinel.Printing.{
  mac_to_string, ipv4_to_string, transport_to_string, tcp_flags_to_string, format_alert, alert_text,
}
use net_sentinel.Printing.Fits.{format_alert-alert_text}

program : Unit {0}
unfolding decimal decimal_fuel mac_to_string ipv4_to_string transport_to_string tcp_flags_to_string
    format_alert anomaly_type_to_string
program = tt

abbrev scan : Alert
scan = record {
  type = port_scan;
  src_ip = 0x0a000001;
  dst_ip = 0x0a000002;
  src_port = 0;
  dst_port = 0;
  detail = codes "10 distinct ports in 5000ms";
}

texts :
    (mac_to_string (0 ∷ 0x1a ∷ 0x2b ∷ 0x3c ∷ 0x4d ∷ 0xff ∷ []) ≡ codes "00:1a:2b:3c:4d:ff")
    × (ipv4_to_string 0xc0a80101 ≡ codes "192.168.1.1")
    × (tcp_flags_to_string 0x12 ≡ codes "SA")
    × (tcp_flags_to_string 0 ≡ codes "-")
    × (transport_to_string tcp ≡ codes "TCP")
    × (length (format_alert scan) ≡ 74)
unfolding program
texts = (refl, refl, refl, refl, refl, refl)

format_alert-alert_text_example : format_alert scan ≡ alert_text scan
format_alert-alert_text_example =
    format_alert-alert_text scan (omega arith) (omega arith) (omega arith)
