-- ===== src/Printing.antt =====
-- The text of src/capture/packet.cpp and `format_alert` of src/analysis/alert.cpp.
pub mod Fits
mod Tests
use Prim.Native.Nat.{bit_and}
use net_sentinel.Base.{
  ℕ, suc, ◌+◌, ◌*◌, ◌-◌, ◌/◌, ◌%◌, ◌^◌, ◌≤◌, ◌<◌, ◌≡◌, Bool, true, false, not, ◌&&◌, ◌||◌, ◌==◌,
  ltb, if◌then◌else◌, List, [], ◌∷◌, ◌++◌, length, replicate, take, arith, length-append, min,
}
use net_sentinel.Base.Text.{codes, decimal, decimal_fuel, snprintf}
use net_sentinel.Packet.{Transport, unknown, tcp, udp, icmp}
use net_sentinel.Alert.{Alert, anomaly_type_to_string}
use net_sentinel.Flow.{has_flag}

-- `%02x` of a byte.
abbrev hex_digit : ℕ → ℕ
hex_digit n = if ltb n 10 then b'0' + n else b'a' + (n - 10)

abbrev pub hex2 : ℕ → List ℕ
hex2 byte = hex_digit (byte / 2 ^ 4) ∷ hex_digit (byte % 2 ^ 4) ∷ []

-- The bytes of an address, with colons between.
abbrev pub colons : List ℕ → List ℕ
colons [] = []
colons (byte ∷ []) = hex2 byte
colons (byte ∷ next ∷ mac) = hex2 byte ++ b':' ∷ colons (next ∷ mac)

unfoldable pub mac_to_string : List ℕ → List ℕ
mac_to_string mac = snprintf 18 (colons mac)

-- The text that `ipv4_to_string` prints into its buffer.
abbrev pub dotted : ℕ → List ℕ
dotted ip =
    decimal (ip / 2 ^ 24 % 2 ^ 8)
    ++ (b'.'
        ∷ (decimal (ip / 2 ^ 16 % 2 ^ 8)
            ++ (b'.' ∷ (decimal (ip / 2 ^ 8 % 2 ^ 8) ++ (b'.' ∷ decimal (ip % 2 ^ 8))))))

unfoldable pub ipv4_to_string : ℕ → List ℕ
ipv4_to_string host_order_ip = snprintf 16 (dotted host_order_ip)

unfoldable pub transport_to_string : Transport → List ℕ
transport_to_string tcp = codes "TCP"
transport_to_string udp = codes "UDP"
transport_to_string icmp = codes "ICMP"
transport_to_string unknown = codes "?"

-- A letter if its flag is set.
abbrev letter : ℕ → ℕ → ℕ → List ℕ
letter flags flag code = if has_flag flags flag then code ∷ [] else []

unfoldable pub tcp_flags_to_string : ℕ → List ℕ
tcp_flags_to_string flags =
    let s =
      letter flags 0x02 b'S'
      ++ letter flags 0x10 b'A'
      ++ letter flags 0x01 b'F'
      ++ letter flags 0x04 b'R'
      ++ letter flags 0x08 b'P'
      ++ letter flags 0x20 b'U' in
    if length s == 0 then codes "-" else s

-- `%-21s`.
abbrev pub pad_right : ℕ → List ℕ → List ℕ
pad_right width text = text ++ replicate (width - length text) b' '

-- " — ", in UTF-8.
abbrev pub dash : List ℕ
dash = b' ' ∷ 0xe2 ∷ 0x80 ∷ 0x94 ∷ b' ' ∷ []

-- The text that `format_alert` prints into its buffer.
abbrev pub alert_text : Alert → List ℕ
alert_text alert =
    let kind = codes "[ALERT] " ++ pad_right 21 (anomaly_type_to_string alert.type) in
    let source = kind ++ codes " src=" ++ ipv4_to_string alert.src_ip in
    if not (alert.dst_port == 0) || not (alert.src_port == 0)
    then source
      ++ codes ":"
      ++ decimal alert.src_port
      ++ codes " dst="
      ++ ipv4_to_string alert.dst_ip
      ++ codes ":"
      ++ decimal alert.dst_port
      ++ dash
      ++ alert.detail
    else source ++ dash ++ alert.detail

unfoldable pub format_alert : Alert → List ℕ
format_alert alert = snprintf 256 (alert_text alert)
