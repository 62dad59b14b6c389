-- ===== src/Parser/RoundTrip.antt =====
-- Parsing what the TCP frame builder writes.
use net_sentinel.Base.{
  ℕ, ◌+◌, ◌^◌, ◌≤◌, ◌<◌, ◌≡◌, refl, ap, ◌∙◌, min, true, some, List, [], ◌∷◌, ◌++◌, length, arith,
  replicate, length-append, take,
}
use net_sentinel.Packet.{Timeval, ParsedPacket, Transport, tcp, udp, slice}
use net_sentinel.Parser.{
  ok, read8, read16, read32, read_mac, parse_tcp, parse_udp, parse_transport, parse_ip_fields,
  parse_ipv4, parse_ethernet, parse_packet, bare_packet, minus,
}
use net_sentinel.Parser.Frames.{build_eth, build_ipv4, build_tcp}

abbrev pub tcp_frame : (src dst src_port dst_port flags : ℕ) (payload padding : List ℕ) → List ℕ
tcp_frame src dst src_port dst_port flags payload padding =
    build_eth 0x0800 (build_ipv4 src dst 6 (build_tcp src_port dst_port flags payload 5) 5)
    ++ padding

-- What the parser is to make of a frame: the fields as they were written.
abbrev pub expected :
    Timeval
    → (caplen wire_length src dst protocol : ℕ) → Transport
    → (src_port dst_port flags offset size : ℕ) → ParsedPacket
expected ts caplen wire_length src dst protocol transport src_port dst_port flags offset size =
    record (bare_packet ts caplen wire_length (replicate 6 0xaa) (replicate 6 0xbb)) {
      has_ip = true;
      src_ip = src;
      dst_ip = dst;
      ttl = 64;
      ip_protocol = protocol;
      transport = transport;
      src_port = src_port;
      dst_port = dst_port;
      tcp_flags = flags;
      payload = some offset;
      payload_length = size;
    }

abbrev pub ip_packet : Timeval → (caplen wire_length src dst protocol : ℕ) → ParsedPacket
ip_packet ts caplen wire_length src dst protocol =
    record (bare_packet ts caplen wire_length (replicate 6 0xaa) (replicate 6 0xbb)) {
      has_ip = true;
      src_ip = src;
      dst_ip = dst;
      ttl = 64;
      ip_protocol = protocol;
    }

-- The parser on a capture whose header fields read as given: IPv4 without options, at byte 14.
module _ (bytes : List ℕ) (caplen wire_length src dst protocol total_length : ℕ) (ts : Timeval)
    (fields : (read_mac bytes 6 ≡ ok (replicate 6 0xaa))
      × (read_mac bytes 0 ≡ ok (replicate 6 0xbb))
      × (read16 bytes 12 ≡ ok 0x0800)
      × (read8 bytes 14 ≡ ok 0x45)
      × (read32 bytes 26 ≡ ok src)
      × (read32 bytes 30 ≡ ok dst)
      × (read8 bytes 22 ≡ ok 64)
      × (read8 bytes 23 ≡ ok protocol)
      × (read16 bytes 16 ≡ ok total_length)) where
  parse_ip_fields-fields :
      (pkt : ParsedPacket)
      → parse_ip_fields bytes caplen 20 pkt
        ≡ parse_transport bytes caplen 34
            (min (minus caplen 34) (minus total_length 20))
            (record pkt {
              has_ip = true;
              src_ip = src;
              dst_ip = dst;
              ttl = 64;
              ip_protocol = protocol;
            })
  unfolding parse_ip_fields
  parse_ip_fields-fields pkt = rw (fields.4, fields.5, fields.6, fields.7, fields.8)

  parse_ipv4-fields :
      (pkt : ParsedPacket)
      → 34 ≤ caplen
      → parse_ipv4 bytes caplen pkt ≡ parse_ip_fields bytes caplen 20 pkt
  unfolding parse_ipv4
  parse_ipv4-fields pkt h = rw fields.3 (ground arith)

  pub parse_packet-fields :
      34 ≤ caplen
      → (r : ParsedPacket)
      → parse_transport bytes caplen 34
          (min (minus caplen 34) (minus total_length 20))
          (ip_packet ts caplen wire_length src dst protocol)
        ≡ ok r
      → parse_packet (some bytes) caplen wire_length ts ≡ ok (some r)
  unfolding parse_packet parse_ethernet
  parse_packet-fields h r e =
      rw (fields.0, fields.1, fields.2)
        (ground (
          arith,
          parse_ipv4-fields
              (bare_packet ts caplen wire_length (replicate 6 0xaa) (replicate 6 0xbb)) h,
          parse_ip_fields-fields
              (bare_packet ts caplen wire_length (replicate 6 0xaa) (replicate 6 0xbb)),
          e,
        ))

parse_tcp-fields :
    (bytes : List ℕ) (caplen src_port dst_port flags size : ℕ) (pkt : ParsedPacket)
    → 54 + size ≤ caplen
    → (read8 bytes 46 ≡ ok 0x50)
      × (read16 bytes 34 ≡ ok src_port)
      × (read16 bytes 36 ≡ ok dst_port)
      × (read8 bytes 47 ≡ ok flags)
    → parse_tcp bytes caplen 34 (20 + size) pkt
      ≡ ok (record pkt {
        transport = tcp;
        src_port = src_port;
        dst_port = dst_port;
        tcp_flags = flags;
        payload = some 54;
        payload_length = size;
      })
unfolding parse_tcp
parse_tcp-fields bytes caplen src_port dst_port flags size pkt h (r0, r1, r2, r3) = ground arith

pub parse_udp-fields :
    (bytes : List ℕ) (caplen src_port dst_port size : ℕ) (pkt : ParsedPacket)
    → 42 + size ≤ caplen
    → (read16 bytes 34 ≡ ok src_port) × (read16 bytes 36 ≡ ok dst_port)
    → parse_udp bytes caplen 34 (8 + size) pkt
      ≡ ok (record pkt {
        transport = udp;
        src_port = src_port;
        dst_port = dst_port;
        payload = some 42;
        payload_length = size;
      })
unfolding parse_udp
parse_udp-fields bytes caplen src_port dst_port size pkt h (r1, r2) = ground arith

pub take-append : (xs ys : List ℕ) → take (length xs) (xs ++ ys) ≡ xs
take-append [] ys = refl
take-append (x ∷ xs) ys = ap (◌∷◌ x) (take-append xs ys)

length-tcp_frame :
    (src dst src_port dst_port flags : ℕ) (payload padding : List ℕ)
    → length (tcp_frame src dst src_port dst_port flags payload padding)
      ≡ 54 + length payload + length padding
unfolding build_eth build_ipv4 build_tcp
length-tcp_frame src dst src_port dst_port flags payload padding =
    omega (arith, length-append payload padding)

tcp_frame-fields :
    (src dst src_port dst_port flags : ℕ) (payload padding : List ℕ)
    → src < 2 ^ 32
    → dst < 2 ^ 32
    → 40 + length payload < 2 ^ 16
    → let bytes = tcp_frame src dst src_port dst_port flags payload padding in
      (read_mac bytes 6 ≡ ok (replicate 6 0xaa))
      × (read_mac bytes 0 ≡ ok (replicate 6 0xbb))
      × (read16 bytes 12 ≡ ok 0x0800)
      × (read8 bytes 14 ≡ ok 0x45)
      × (read32 bytes 26 ≡ ok src)
      × (read32 bytes 30 ≡ ok dst)
      × (read8 bytes 22 ≡ ok 64)
      × (read8 bytes 23 ≡ ok 6)
      × (read16 bytes 16 ≡ ok (40 + length payload))
unfolding build_eth build_ipv4 build_tcp read_mac read32
tcp_frame-fields src dst src_port dst_port flags payload padding hs hd small = (
  refl,
  refl,
  refl,
  refl,
  ap ok (omega arith),
  ap ok (omega arith),
  refl,
  refl,
  ap ok (omega arith),
)

tcp_frame-tcp :
    (src dst src_port dst_port flags : ℕ) (payload padding : List ℕ)
    → src_port < 2 ^ 16
    → dst_port < 2 ^ 16
    → let bytes = tcp_frame src dst src_port dst_port flags payload padding in
      (read8 bytes 46 ≡ ok 0x50)
      × (read16 bytes 34 ≡ ok src_port)
      × (read16 bytes 36 ≡ ok dst_port)
      × (read8 bytes 47 ≡ ok flags)
unfolding build_eth build_ipv4 build_tcp read16
tcp_frame-tcp src dst src_port dst_port flags payload padding hs hd =
    (refl, ap ok (omega arith), ap ok (omega arith), refl)

slice-tcp_frame :
    (src dst src_port dst_port flags : ℕ) (payload padding : List ℕ)
    → slice (tcp_frame src dst src_port dst_port flags payload padding) 54 (length payload)
      ≡ payload
unfolding build_eth build_ipv4 build_tcp
slice-tcp_frame src dst src_port dst_port flags payload padding = take-append payload padding

-- Parsing inverts the TCP frame builder: for addresses, ports and a payload that fit their header fields,
-- a captured TCP frame gives back exactly the fields that were written, and a payload window of the
-- capture that holds exactly the payload. Bytes after the datagram, such as Ethernet padding, never
-- become payload.
pub tcp_roundtrip :
    (src dst src_port dst_port flags wire_length : ℕ) (payload padding : List ℕ) (ts : Timeval)
    → src < 2 ^ 32
    → dst < 2 ^ 32
    → src_port < 2 ^ 16
    → dst_port < 2 ^ 16
    → 40 + length payload < 2 ^ 16
    → let frame = tcp_frame src dst src_port dst_port flags payload padding in
      (parse_packet (some frame) (length frame) wire_length ts
        ≡ ok (
            some (
              expected ts
                (length frame)
                wire_length
                src
                dst
                6
                tcp
                src_port
                dst_port
                flags
                54
                (length payload))))
      × (slice frame 54 (length payload) ≡ payload)
unfolding parse_transport
tcp_roundtrip src dst src_port dst_port flags wire_length payload padding ts hs hd hp hq small =
    let size = length payload in
    let bytes = tcp_frame src dst src_port dst_port flags payload padding in
    let long = length-tcp_frame src dst src_port dst_port flags payload padding in
    let n : min (minus (length bytes) 34) (minus (40 + size) 20) ≡ 20 + size =
      ground (arith, long) in
    (
      parse_packet-fields bytes (length bytes) wire_length src dst 6 (40 + size) ts
          (tcp_frame-fields src dst src_port dst_port flags payload padding hs hd small)
          (omega (arith, long)) _
          (ap
              (λ k.
                parse_tcp bytes (length bytes) 34 k
                  (ip_packet ts (length bytes) wire_length src dst 6))
              n
            ∙ parse_tcp-fields bytes (length bytes) src_port dst_port flags size
                (ip_packet ts (length bytes) wire_length src dst 6) (omega (arith, long))
                (tcp_frame-tcp src dst src_port dst_port flags payload padding hp hq)),
      slice-tcp_frame src dst src_port dst_port flags payload padding,
    )
