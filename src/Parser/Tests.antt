-- ===== src/Parser/Tests.antt =====
-- The parser on small captures.
use net_sentinel.Base.{
  ℕ, ◌<◌, ◌≡◌, refl, ◌^◌, none, some, List, [], ◌∷◌, true, pos, arith, length, All, take, replicate,
}
use net_sentinel.Packet.{Timeval, ParsedPacket, tcp, udp, slice, make_queued_packet}
use net_sentinel.Parser.{
  ok, out_of_bounds, read8, read16, read32, read_mac, parse_tcp, parse_udp, parse_icmp,
  parse_transport, parse_ip_fields, parse_ipv4, bare_packet, parse_ethernet, parse_packet,
}
use net_sentinel.Parser.Frames.{build_eth, build_ipv4, build_tcp, build_udp}
use net_sentinel.Parser.Safety.{Returns, Parsed, parse_packet-Parsed}
use net_sentinel.Parser.UdpRoundTrip.{udp_frame, udp_roundtrip}
use net_sentinel.Parser.RoundTrip.{tcp_frame, expected, tcp_roundtrip}

program : Unit {0}
unfolding read8 read16 read32 read_mac parse_tcp parse_udp parse_icmp parse_transport
    parse_ip_fields parse_ipv4 parse_ethernet parse_packet build_eth build_ipv4 build_tcp build_udp
    make_queued_packet
program = tt

abbrev epoch : Timeval
epoch = record { tv_sec = pos 0; tv_usec = pos 0 }

-- "hi" to port 80, in a frame padded by two bytes.
abbrev hi_frame : List ℕ
hi_frame = tcp_frame 0x0a000001 0x0a000002 40000 80 0x18 (b'h' ∷ b'i' ∷ []) (0 ∷ 0 ∷ [])

abbrev hi_packet : ParsedPacket
hi_packet = expected epoch 58 58 0x0a000001 0x0a000002 6 tcp 40000 80 0x18 54 2

hi_parsed :
    (parse_packet (some hi_frame) 58 58 epoch ≡ ok (some hi_packet))
    × ((make_queued_packet hi_frame hi_packet).payload ≡ b'h' ∷ b'i' ∷ [])
unfolding program
hi_parsed = (refl, refl)

-- A capture cut inside the Ethernet header, one cut inside the TCP header, an ARP frame, and a buffer
-- that is shorter than the capture claims.
short_captures :
    (parse_packet (some (take 13 hi_frame)) 13 58 epoch ≡ ok none)
    × (parse_packet none 58 58 epoch ≡ ok none)
    × (parse_packet (some (take 40 hi_frame)) 40 58 epoch
        ≡ ok (
            some (record (bare_packet epoch 40 58 (replicate 6 0xaa) (replicate 6 0xbb)) {
              has_ip = true;
              src_ip = 0x0a000001;
              dst_ip = 0x0a000002;
              ttl = 64;
              ip_protocol = 6;
            })))
    × (parse_packet (some (build_eth 0x0806 [])) 14 14 epoch
        ≡ ok (some (bare_packet epoch 14 14 (replicate 6 0xaa) (replicate 6 0xbb))))
    × (parse_packet (some (take 13 hi_frame)) 58 58 epoch ≡ out_of_bounds)
unfolding program
short_captures = (refl, refl, refl, refl, refl)

tcp_roundtrip_example :
    (parse_packet (some hi_frame) (length hi_frame) 58 epoch ≡ ok (some hi_packet))
    × (slice hi_frame 54 2 ≡ b'h' ∷ b'i' ∷ [])
unfolding program
tcp_roundtrip_example =
    tcp_roundtrip 0x0a000001 0x0a000002 40000 80 0x18 58 (b'h' ∷ b'i' ∷ []) (0 ∷ 0 ∷ []) epoch
      (omega arith) (omega arith) (omega arith) (omega arith) (omega arith)

hi_frame-bytes : All (λ b. b < 2 ^ 8) hi_frame
unfolding program
hi_frame-bytes = ground arith

parse_packet-Parsed_example : Returns (Parsed 50) (parse_packet (some hi_frame) 50 58 epoch)
unfolding program
parse_packet-Parsed_example = parse_packet-Parsed hi_frame 50 58 epoch hi_frame-bytes (omega arith)

udp_roundtrip_example :
    let frame = udp_frame 0x0a000001 0x0a000002 5353 53 (b'h' ∷ b'i' ∷ []) (replicate 16 0) in
    (parse_packet (some frame) 60 60 epoch
      ≡ ok (some (expected epoch 60 60 0x0a000001 0x0a000002 17 udp 5353 53 0 42 2)))
    × (slice frame 42 2 ≡ b'h' ∷ b'i' ∷ [])
unfolding program
udp_roundtrip_example =
    udp_roundtrip 0x0a000001 0x0a000002 5353 53 60 (b'h' ∷ b'i' ∷ []) (replicate 16 0) epoch
      (omega arith) (omega arith) (omega arith) (omega arith) (omega arith)
