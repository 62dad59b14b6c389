-- ===== src/Packet.antt =====
-- include/netsentinel/packet.hpp, and `QueuedPacket` of include/netsentinel/packet_queue.hpp with
-- `make_queued_packet` of src/queue/packet_queue.cpp. Bytes and words are plain numbers; a MAC
-- address is the list of its bytes; the payload pointer is an offset into the captured bytes.
use net_sentinel.Base.{
  ℕ, Bool, Option, none, some, List, [], ℤ, take, drop, length, ltb, if◌then◌else◌,
}

pub data Transport : Type 0 where
  unknown tcp udp icmp : Transport

-- `struct timeval`.
pub record Timeval : Type 0 where
  pub tv_sec : ℤ
  pub tv_usec : ℤ

pub record ParsedPacket : Type 0 where
  pub timestamp : Timeval
  pub capture_length : ℕ
  pub wire_length : ℕ
  pub src_mac : List ℕ
  pub dst_mac : List ℕ
  pub has_ip : Bool
  pub src_ip : ℕ
  pub dst_ip : ℕ
  pub ttl : ℕ
  pub ip_protocol : ℕ
  pub transport : Transport
  pub src_port : ℕ
  pub dst_port : ℕ
  pub tcp_flags : ℕ
  pub payload : Option ℕ
  pub payload_length : ℕ

-- The payload is the packet's own copy.
pub record QueuedPacket : Type 0 where
  pub meta : ParsedPacket
  pub payload : List ℕ

abbrev pub payload_size : QueuedPacket → ℕ
payload_size q = length q.payload

-- The `length` bytes that start at `offset`.
abbrev pub slice : List ℕ → ℕ → ℕ → List ℕ
slice bytes offset size = take size (drop offset bytes)

-- `frame` is what the payload pointer points into.
unfoldable pub make_queued_packet : List ℕ → ParsedPacket → QueuedPacket
make_queued_packet frame parsed = record {
  meta = record parsed { payload = none; payload_length = 0 };
  payload = elim parsed.payload [
    | none ↦ []
    | some offset ↦
        if ltb 0 parsed.payload_length then slice frame offset parsed.payload_length else []
  ];
}
