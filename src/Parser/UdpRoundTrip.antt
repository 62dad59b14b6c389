-- ===== src/Parser/UdpRoundTrip.antt =====
-- Parsing what the UDP frame builder writes.
use net_sentinel.Base.{
  ℕ, ◌+◌, ◌^◌, ◌<◌, ◌≡◌, refl, ap, ◌∙◌, min, some, List, ◌++◌, length, arith, replicate,
  length-append,
}
use net_sentinel.Packet.{Timeval, udp, slice}
use net_sentinel.Parser.{
  ok, read8, read16, read32, read_mac, parse_udp, parse_transport, parse_packet, minus,
}
use net_sentinel.Parser.Frames.{build_eth, build_ipv4, build_udp}
use net_sentinel.Parser.RoundTrip.{
  expected, ip_packet, parse_packet-fields, parse_udp-fields, take-append,
}

abbrev pub udp_frame : (src dst src_port dst_port : ℕ) (payload padding : List ℕ) → List ℕ
udp_frame src dst src_port dst_port payload padding =
    build_eth 0x0800 (build_ipv4 src dst 17 (build_udp src_port dst_port payload) 5) ++ padding

length-udp_frame :
    (src dst src_port dst_port : ℕ) (payload padding : List ℕ)
    → length (udp_frame src dst src_port dst_port payload padding)
      ≡ 42 + length payload + length padding
unfolding build_eth build_ipv4 build_udp
length-udp_frame src dst src_port dst_port payload padding =
    omega (arith, length-append payload padding)

udp_frame-fields :
    (src dst src_port dst_port : ℕ) (payload padding : List ℕ)
    → src < 2 ^ 32
    → dst < 2 ^ 32
    → 28 + length payload < 2 ^ 16
    → let bytes = udp_frame src dst src_port dst_port payload padding in
      (read_mac bytes 6 ≡ ok (replicate 6 0xaa))
      × (read_mac bytes 0 ≡ ok (replicate 6 0xbb))
      × (read16 bytes 12 ≡ ok 0x0800)
      × (read8 bytes 14 ≡ ok 0x45)
      × (read32 bytes 26 ≡ ok src)
      × (read32 bytes 30 ≡ ok dst)
      × (read8 bytes 22 ≡ ok 64)
      × (read8 bytes 23 ≡ ok 17)
      × (read16 bytes 16 ≡ ok (28 + length payload))
unfolding build_eth build_ipv4 build_udp read_mac read32
udp_frame-fields src dst src_port dst_port payload padding hs hd small = (
  refl,
  refl,
  refl,
  refl,
  ap ok (omega arith),
  ap ok (omega arith),
  refl,
  refl,
  ap ok (omega arith),
)

udp_frame-udp :
    (src dst src_port dst_port : ℕ) (payload padding : List ℕ)
    → src_port < 2 ^ 16
    → dst_port < 2 ^ 16
    → let bytes = udp_frame src dst src_port dst_port payload padding in
      (read16 bytes 34 ≡ ok src_port) × (read16 bytes 36 ≡ ok dst_port)
unfolding build_eth build_ipv4 build_udp read16
udp_frame-udp src dst src_port dst_port payload padding hs hd =
    (ap ok (omega arith), ap ok (omega arith))

slice-udp_frame :
    (src dst src_port dst_port : ℕ) (payload padding : List ℕ)
    → slice (udp_frame src dst src_port dst_port payload padding) 42 (length payload) ≡ payload
unfolding build_eth build_ipv4 build_udp
slice-udp_frame src dst src_port dst_port payload padding = take-append payload padding

-- Parsing inverts the UDP frame builder: for addresses, ports and a payload that fit their header
-- fields, a captured UDP frame gives back exactly the fields that were written, and a payload window of
-- the capture that holds exactly the payload, without the bytes after the datagram.
pub udp_roundtrip :
    (src dst src_port dst_port wire_length : ℕ) (payload padding : List ℕ) (ts : Timeval)
    → src < 2 ^ 32
    → dst < 2 ^ 32
    → src_port < 2 ^ 16
    → dst_port < 2 ^ 16
    → 28 + length payload < 2 ^ 16
    → let frame = udp_frame src dst src_port dst_port payload padding in
      (parse_packet (some frame) (length frame) wire_length ts
        ≡ ok (
            some (
              expected ts
                (length frame)
                wire_length
                src
                dst
                17
                udp
                src_port
                dst_port
                0
                42
                (length payload))))
      × (slice frame 42 (length payload) ≡ payload)
unfolding parse_transport
udp_roundtrip src dst src_port dst_port wire_length payload padding ts hs hd hp hq small =
    let size = length payload in
    let bytes = udp_frame src dst src_port dst_port payload padding in
    let long = length-udp_frame src dst src_port dst_port payload padding in
    let n : min (minus (length bytes) 34) (minus (28 + size) 20) ≡ 8 + size =
      ground (arith, long) in
    (
      parse_packet-fields bytes (length bytes) wire_length src dst 17 (28 + size) ts
          (udp_frame-fields src dst src_port dst_port payload padding hs hd small)
          (omega (arith, long)) _
          (ap
              (λ k.
                parse_udp bytes (length bytes) 34 k
                  (ip_packet ts (length bytes) wire_length src dst 17))
              n
            ∙ parse_udp-fields bytes (length bytes) src_port dst_port size
                (ip_packet ts (length bytes) wire_length src dst 17) (omega (arith, long))
                (udp_frame-udp src dst src_port dst_port payload padding hp hq)),
      slice-udp_frame src dst src_port dst_port payload padding,
    )
