-- ===== src/Parser.antt =====
-- src/capture/parser.cpp over the layouts of include/netsentinel/headers.hpp. The captured bytes are
-- a list; a read at or past its end, which C++ leaves undefined, is the result `out_of_bounds`. Words
-- in network byte order are read byte by byte, most significant first.
pub mod Safety
pub mod Frames
pub mod RoundTrip
pub mod UdpRoundTrip
mod Tests
use net_sentinel.Base.{
  ℕ, ◌+◌, ◌-◌, ◌*◌, ◌/◌, ◌%◌, ◌^◌, min, Bool, true, false, not, ◌||◌, ◌==◌, ltb, leb, if◌then◌else◌,
  Option, none, some, List, [], ◌∷◌, get_elem?,
}
use net_sentinel.Packet.{Timeval, ParsedPacket, Transport, unknown, tcp, udp, icmp}

pub data Read {ℓ} (A : Type ℓ) : Type ℓ where
  ok : A → Read A
  out_of_bounds : Read A

infixl 5 ◌>>=◌
abbrev pub ◌>>=◌ {ℓ κ} : {A : Type ℓ} {B : Type κ} → Read A → (A → Read B) → Read B
ok a >>= f = f a
out_of_bounds >>= f = out_of_bounds

abbrev byte_of : Option ℕ → Read ℕ
byte_of none = out_of_bounds
byte_of (some b) = ok b

unfoldable pub read8 : List ℕ → ℕ → Read ℕ
read8 bytes i = byte_of (get_elem? bytes i)

-- `ntohs` and `ntohl` of a field in network byte order.
unfoldable pub read16 : List ℕ → ℕ → Read ℕ
unfolding read8
read16 bytes i = do a ← read8 bytes i; b ← read8 bytes (i + 1); ok (a * 2 ^ 8 + b)

unfoldable pub read32 : List ℕ → ℕ → Read ℕ
unfolding read16
read32 bytes i = do a ← read16 bytes i; b ← read16 bytes (i + 2); ok (a * 2 ^ 16 + b)

-- `memcpy` of six bytes.
unfoldable pub read_mac : List ℕ → ℕ → Read (List ℕ)
unfolding read8
read_mac bytes i = do
  a ← read8 bytes i
  b ← read8 bytes (i + 1)
  c ← read8 bytes (i + 2)
  d ← read8 bytes (i + 3)
  e ← read8 bytes (i + 4)
  f ← read8 bytes (i + 5)
  ok (a ∷ b ∷ c ∷ d ∷ e ∷ f ∷ [])

-- The sizes that the headers' `static_assert`s state.
abbrev pub ethernet_header_size : ℕ
ethernet_header_size = 14

abbrev pub ipv4_header_size : ℕ
ipv4_header_size = 20

abbrev pub tcp_header_size : ℕ
tcp_header_size = 20

abbrev pub udp_header_size : ℕ
udp_header_size = 8

abbrev pub ethertype_ipv4 : ℕ
ethertype_ipv4 = 0x0800

-- `IPv4Header::version` and `header_bytes`, of `version_ihl`.
abbrev pub version : ℕ → ℕ
version version_ihl = version_ihl / 2 ^ 4

abbrev pub ip_header_bytes : ℕ → ℕ
ip_header_bytes version_ihl = version_ihl % 2 ^ 4 * 4

-- `TCPHeader::header_bytes`, of `data_offset_reserved`.
abbrev pub tcp_header_bytes : ℕ → ℕ
tcp_header_bytes data_offset_reserved = data_offset_reserved / 2 ^ 4 * 4

-- `a > b ? a - b : 0`.
abbrev pub minus : ℕ → ℕ → ℕ
minus a b = if ltb b a then a - b else 0

-- The payload fields, once the transport header is passed.
abbrev pub set_payload : ℕ → ℕ → ℕ → ParsedPacket → ParsedPacket
set_payload caplen payload_offset claimed pkt =
    if leb payload_offset caplen
    then record pkt {
      payload = some payload_offset;
      payload_length = min (caplen - payload_offset) claimed;
    }
    else pkt

unfoldable pub parse_tcp : List ℕ → ℕ → ℕ → ℕ → ParsedPacket → Read ParsedPacket
parse_tcp bytes caplen offset ip_payload_length pkt =
    if ltb caplen (offset + tcp_header_size) then ok pkt else do
      data_offset_reserved ← read8 bytes (offset + 12)
      let header = tcp_header_bytes data_offset_reserved
      if ltb header tcp_header_size || ltb caplen (offset + header) then ok pkt else do
        src_port ← read16 bytes offset
        dst_port ← read16 bytes (offset + 2)
        flags ← read8 bytes (offset + 13)
        ok (
            set_payload caplen (offset + header) (minus ip_payload_length header) (record pkt {
              transport = tcp;
              src_port = src_port;
              dst_port = dst_port;
              tcp_flags = flags;
            }))

unfoldable pub parse_udp : List ℕ → ℕ → ℕ → ℕ → ParsedPacket → Read ParsedPacket
parse_udp bytes caplen offset ip_payload_length pkt =
    if ltb caplen (offset + udp_header_size) then ok pkt else do
      src_port ← read16 bytes offset
      dst_port ← read16 bytes (offset + 2)
      ok (
          set_payload caplen (offset + udp_header_size) (minus ip_payload_length udp_header_size)
            (record pkt { transport = udp; src_port = src_port; dst_port = dst_port }))

unfoldable pub parse_icmp : ℕ → ℕ → ℕ → ParsedPacket → ParsedPacket
parse_icmp caplen offset ip_payload_length pkt =
    if leb offset caplen
    then record pkt { transport = icmp; payload = some offset; payload_length = ip_payload_length }
    else record pkt { transport = icmp }

unfoldable pub parse_transport : List ℕ → ℕ → ℕ → ℕ → ParsedPacket → Read ParsedPacket
parse_transport bytes caplen offset ip_payload_length pkt =
    if pkt.ip_protocol == 6
    then parse_tcp bytes caplen offset ip_payload_length pkt
    else if pkt.ip_protocol == 17
    then parse_udp bytes caplen offset ip_payload_length pkt
    else if pkt.ip_protocol == 1
    then ok (parse_icmp caplen offset ip_payload_length pkt)
    else ok pkt

-- The fields of an IPv4 header of `header` bytes, and what follows it.
unfoldable pub parse_ip_fields : List ℕ → ℕ → ℕ → ParsedPacket → Read ParsedPacket
parse_ip_fields bytes caplen header pkt = do
  src_ip ← read32 bytes 26
  dst_ip ← read32 bytes 30
  ttl ← read8 bytes 22
  protocol ← read8 bytes 23
  total_length ← read16 bytes 16
  let available = minus caplen (ethernet_header_size + header)
  let claimed = minus total_length header
  parse_transport bytes caplen (ethernet_header_size + header) (min available claimed) (record pkt {
    has_ip = true;
    src_ip = src_ip;
    dst_ip = dst_ip;
    ttl = ttl;
    ip_protocol = protocol;
  })

unfoldable pub parse_ipv4 : List ℕ → ℕ → ParsedPacket → Read ParsedPacket
parse_ipv4 bytes caplen pkt =
    if ltb caplen (ethernet_header_size + ipv4_header_size) then ok pkt else do
      version_ihl ← read8 bytes 14
      let header = ip_header_bytes version_ihl
      if not (version version_ihl == 4)
          then ok pkt
          else if ltb header ipv4_header_size || ltb caplen (ethernet_header_size + header)
          then ok pkt
          else parse_ip_fields bytes caplen header pkt

-- A fresh `ParsedPacket` with the capture metadata and the MAC addresses.
abbrev pub bare_packet : Timeval → ℕ → ℕ → List ℕ → List ℕ → ParsedPacket
bare_packet ts caplen wire_length src_mac dst_mac = record {
  timestamp = ts;
  capture_length = caplen;
  wire_length = wire_length;
  src_mac = src_mac;
  dst_mac = dst_mac;
  has_ip = false;
  src_ip = 0;
  dst_ip = 0;
  ttl = 0;
  ip_protocol = 0;
  transport = unknown;
  src_port = 0;
  dst_port = 0;
  tcp_flags = 0;
  payload = none;
  payload_length = 0;
}

unfoldable pub parse_ethernet : List ℕ → ℕ → ℕ → Timeval → Read ParsedPacket
parse_ethernet bytes caplen wire_length ts = do
  src_mac ← read_mac bytes 6
  dst_mac ← read_mac bytes 0
  ethertype ← read16 bytes 12
  let pkt = bare_packet ts caplen wire_length src_mac dst_mac
  if not (ethertype == ethertype_ipv4) then ok pkt else parse_ipv4 bytes caplen pkt

-- A null `data` pointer is `none`.
unfoldable pub parse_packet : Option (List ℕ) → ℕ → ℕ → Timeval → Read (Option ParsedPacket)
parse_packet none caplen wire_length ts = ok none
parse_packet (some bytes) caplen wire_length ts =
    if ltb caplen ethernet_header_size
    then ok none
    else do pkt ← parse_ethernet bytes caplen wire_length ts; ok (some pkt)
