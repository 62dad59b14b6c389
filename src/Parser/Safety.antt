-- ===== src/Parser/Safety.antt =====
-- Which bytes the parser reads, and what it returns.
use net_sentinel.Base.{
  ℕ, ◌+◌, ◌^◌, ◌≤◌, ◌<◌, ◌≡◌, refl, true, false, ◌||◌, ◌==◌, ltb, Option, none, some, List,
  get_elem?-some, length, arith, Bool-cases, inl, inr, All, All-get_elem?,
}
use net_sentinel.Packet.{Timeval, ParsedPacket, unknown}
use net_sentinel.Parser.{
  tcp_header_bytes, ip_header_bytes, version, Read, ok, out_of_bounds, ◌>>=◌, read8, read16, read32,
  read_mac, parse_tcp, parse_udp, parse_icmp, parse_transport, parse_ip_fields, parse_ipv4,
  parse_ethernet, parse_packet, bare_packet,
}

-- The read succeeds, and its result has the property.
abbrev pub Returns {ℓ} : {A : Type ℓ} → (A → Type 0) → Read A → Type 0
Returns P (ok a) = P a
Returns P out_of_bounds = ⊥

pub Returns-bind {ℓ} :
    {A B : Type ℓ} (P : A → Type 0) (Q : B → Type 0) (m : Read A) (f : A → Read B)
    → Returns P m
    → ((a : A) → P a → Returns Q (f a))
    → Returns Q (m >>= f)
Returns-bind P Q (ok a) f p k = k a p
Returns-bind P Q out_of_bounds f p k = absurd p

pub Returns-value :
    {A : Type 0} (P : A → Type 0) (r : Read A) → Returns P r → (a : A) × (r ≡ ok a) × P a
Returns-value P (ok a) h = (a, refl, h)
Returns-value P out_of_bounds h = absurd h

-- What every parsed packet satisfies.
pub record IsParsed (caplen : ℕ) (pkt : ParsedPacket) : Type 0 where
  pub captured : pkt.capture_length ≡ caplen
  pub no_payload : pkt.payload ≡ none → pkt.payload_length ≡ 0
  pub inside : (offset : ℕ) → pkt.payload ≡ some offset → offset + pkt.payload_length ≤ caplen
  pub src_port : pkt.src_port < 2 ^ 16
  pub dst_port : pkt.dst_port < 2 ^ 16
  pub src_ip : pkt.src_ip < 2 ^ 32
  pub dst_ip : pkt.dst_ip < 2 ^ 32
  pub flags : pkt.tcp_flags < 2 ^ 8
  pub without_ip : pkt.has_ip ≡ false → (pkt.transport ≡ unknown) × (pkt.payload ≡ none)

abbrev IsByte : ℕ → Type 0
IsByte b = b < 2 ^ 8

module _ (bytes : List ℕ) (are_bytes : All IsByte bytes) where
  read8-Returns : (i : ℕ) → i < length bytes → Returns IsByte (read8 bytes i)
  unfolding read8
  read8-Returns i h =
      let (b, e) = get_elem?-some bytes i h in rw e (All-get_elem? IsByte bytes i b are_bytes e)

  read16-Returns : (i : ℕ) → i + 1 < length bytes → Returns (λ w. w < 2 ^ 16) (read16 bytes i)
  unfolding read16
  read16-Returns i h =
      Returns-bind IsByte (λ w. w < 2 ^ 16) (read8 bytes i) _ (read8-Returns i (omega arith))
        λ a p.
          Returns-bind IsByte (λ w. w < 2 ^ 16) (read8 bytes (i + 1)) _ (read8-Returns (i + 1) h)
            λ b q. omega arith

  read32-Returns : (i : ℕ) → i + 3 < length bytes → Returns (λ w. w < 2 ^ 32) (read32 bytes i)
  unfolding read32
  read32-Returns i h =
      Returns-bind (λ w. w < 2 ^ 16) (λ w. w < 2 ^ 32) (read16 bytes i) _
        (read16-Returns i (omega arith))
        λ a p.
          Returns-bind (λ w. w < 2 ^ 16) (λ w. w < 2 ^ 32) (read16 bytes (i + 2)) _
            (read16-Returns (i + 2) (omega arith)) λ b q. omega arith

  read_mac-Returns : (i : ℕ) → i + 5 < length bytes → Returns (λ m. Unit {0}) (read_mac bytes i)
  unfolding read_mac
  read_mac-Returns i h =
      Returns-bind IsByte _ (read8 bytes i) _ (read8-Returns i (omega arith)) λ a _.
        Returns-bind IsByte _ (read8 bytes (i + 1)) _ (read8-Returns (i + 1) (omega arith)) λ b _.
          Returns-bind IsByte _ (read8 bytes (i + 2)) _ (read8-Returns (i + 2) (omega arith)) λ c _.
            Returns-bind IsByte _ (read8 bytes (i + 3)) _ (read8-Returns (i + 3) (omega arith))
              λ d _.
                Returns-bind IsByte _ (read8 bytes (i + 4)) _ (read8-Returns (i + 4) (omega arith))
                  λ e _.
                    Returns-bind IsByte _ (read8 bytes (i + 5)) _
                      (read8-Returns (i + 5) (omega arith)) λ f _. tt

  module _ (caplen : ℕ) (fits : caplen ≤ length bytes) where
    parse_tcp-Returns :
        (offset ip_len : ℕ) (pkt : ParsedPacket)
        → pkt.has_ip ≡ true
        → IsParsed caplen pkt
        → Returns (IsParsed caplen) (parse_tcp bytes caplen offset ip_len pkt)
    unfolding parse_tcp
    parse_tcp-Returns offset ip_len pkt ip v = elim (Bool-cases (ltb caplen (offset + 20))) [
      | inl short ↦ rw short v
      | inr long ↦ rw long (
          Returns-bind IsByte (IsParsed caplen) (read8 bytes (offset + 12)) _
            (read8-Returns (offset + 12) (ground arith))
            λ d _.
              elim (Bool-cases
                (ltb (tcp_header_bytes d) 20 || ltb caplen (offset + tcp_header_bytes d))) [
                  | inl bad ↦ rw bad v
                  | inr good ↦ rw good (
                      Returns-bind (λ w. w < 2 ^ 16) (IsParsed caplen) (read16 bytes offset) _
                        (read16-Returns offset (ground arith))
                        λ sp p.
                          Returns-bind (λ w. w < 2 ^ 16) (IsParsed caplen)
                            (read16 bytes (offset + 2)) _
                            (read16-Returns (offset + 2) (ground arith))
                            λ dp q.
                              Returns-bind IsByte (IsParsed caplen) (read8 bytes (offset + 13)) _
                                (read8-Returns (offset + 13) (ground arith)) λ fl r. ground arith)
                ])
    ]

    parse_udp-Returns :
        (offset ip_len : ℕ) (pkt : ParsedPacket)
        → pkt.has_ip ≡ true
        → IsParsed caplen pkt
        → Returns (IsParsed caplen) (parse_udp bytes caplen offset ip_len pkt)
    unfolding parse_udp
    parse_udp-Returns offset ip_len pkt ip v = elim (Bool-cases (ltb caplen (offset + 8))) [
      | inl short ↦ rw short v
      | inr long ↦ rw long (
          Returns-bind (λ w. w < 2 ^ 16) (IsParsed caplen) (read16 bytes offset) _
            (read16-Returns offset (ground arith))
            λ sp p.
              Returns-bind (λ w. w < 2 ^ 16) (IsParsed caplen) (read16 bytes (offset + 2)) _
                (read16-Returns (offset + 2) (ground arith)) λ dp q. ground arith)
    ]

    parse_transport-Returns :
        (offset ip_len : ℕ) (pkt : ParsedPacket)
        → offset + ip_len ≤ caplen
        → pkt.has_ip ≡ true
        → IsParsed caplen pkt
        → Returns (IsParsed caplen) (parse_transport bytes caplen offset ip_len pkt)
    unfolding parse_transport parse_icmp
    parse_transport-Returns offset ip_len pkt le ip v = elim (Bool-cases (pkt.ip_protocol == 6)) [
      | inl t ↦ simp t (parse_tcp-Returns offset ip_len pkt ip v)
      | inr n ↦ elim (Bool-cases (pkt.ip_protocol == 17)) [
        | inl u ↦ simp (n, u) (parse_udp-Returns offset ip_len pkt ip v)
        | inr m ↦ elim (Bool-cases (pkt.ip_protocol == 1)) [
          | inl i ↦ simp (n, m, i) (ground arith)
          | inr o ↦ simp (n, m, o) v
        ]
      ]
    ]

    parse_ip_fields-Returns :
        (header : ℕ) (pkt : ParsedPacket)
        → 20 ≤ header
        → 14 + header ≤ caplen
        → IsParsed caplen pkt
        → pkt.payload ≡ none
        → pkt.payload_length ≡ 0
        → Returns (IsParsed caplen) (parse_ip_fields bytes caplen header pkt)
    unfolding parse_ip_fields
    parse_ip_fields-Returns header pkt long le v np nl =
        Returns-bind (λ w. w < 2 ^ 32) _ (read32 bytes 26) _ (read32-Returns 26 (omega arith))
          λ si p.
            Returns-bind (λ w. w < 2 ^ 32) _ (read32 bytes 30) _ (read32-Returns 30 (omega arith))
              λ di q.
                Returns-bind IsByte _ (read8 bytes 22) _ (read8-Returns 22 (omega arith)) λ ttl _.
                  Returns-bind IsByte _ (read8 bytes 23) _ (read8-Returns 23 (omega arith)) λ pr _.
                    Returns-bind (λ w. w < 2 ^ 16) _ (read16 bytes 16) _
                      (read16-Returns 16 (omega arith))
                      λ tl _.
                        parse_transport-Returns (14 + header) _ _ (ground arith) refl (ground arith)

    parse_ipv4-Returns :
        (pkt : ParsedPacket)
        → IsParsed caplen pkt
        → pkt.payload ≡ none
        → pkt.payload_length ≡ 0
        → Returns (IsParsed caplen) (parse_ipv4 bytes caplen pkt)
    unfolding parse_ipv4
    parse_ipv4-Returns pkt v np nl = elim (Bool-cases (ltb caplen 34)) [
      | inl short ↦ rw short v
      | inr long ↦ rw long (
          Returns-bind IsByte _ (read8 bytes 14) _ (read8-Returns 14 (ground arith)) λ vi _.
            elim (Bool-cases (version vi == 4)) [
              | inr other ↦ rw other v
              | inl four ↦
                  rw four
                    (elim (Bool-cases
                      (ltb (ip_header_bytes vi) 20 || ltb caplen (14 + ip_header_bytes vi))) [
                        | inl bad ↦ rw bad v
                        | inr good ↦ rw good (
                            parse_ip_fields-Returns (ip_header_bytes vi) pkt (ground arith)
                              (ground arith) v np nl)
                      ])
            ])
    ]

    parse_ethernet-Returns :
        (wire_length : ℕ) (ts : Timeval)
        → 14 ≤ caplen
        → Returns (IsParsed caplen) (parse_ethernet bytes caplen wire_length ts)
    unfolding parse_ethernet
    parse_ethernet-Returns wire_length ts long =
        Returns-bind (λ m. Unit {0}) _ (read_mac bytes 6) _ (read_mac-Returns 6 (omega arith))
          λ src _.
            Returns-bind (λ m. Unit {0}) _ (read_mac bytes 0) _ (read_mac-Returns 0 (omega arith))
              λ dst _.
                Returns-bind (λ w. w < 2 ^ 16) _ (read16 bytes 12) _
                  (read16-Returns 12 (omega arith))
                  λ et _.
                    let bare : IsParsed caplen (bare_packet ts caplen wire_length src dst) =
                      ground arith in
                    elim (Bool-cases (et == 0x0800)) [
                      | inl ipv4 ↦ rw ipv4 (
                          parse_ipv4-Returns (bare_packet ts caplen wire_length src dst) bare refl
                            refl)
                      | inr other ↦ rw other bare
                    ]

-- What `parse_packet` promises of its result.
abbrev pub Parsed : ℕ → Option ParsedPacket → Type 0
Parsed caplen none = caplen < 14
Parsed caplen (some pkt) = (14 ≤ caplen) × IsParsed caplen pkt

-- Whatever the bytes are, the parser reads none of them beyond the captured length: on a buffer of at
-- least `caplen` bytes it never reads out of bounds. It returns no packet exactly if the capture is
-- shorter than an Ethernet header. Otherwise the payload of the packet lies within the capture, ports
-- are below 2 ^ 16, addresses below 2 ^ 32, and a packet without IPv4 header has no payload and no
-- transport.
pub parse_packet-Parsed :
    (bytes : List ℕ) (caplen wire_length : ℕ) (ts : Timeval)
    → All (λ b. b < 2 ^ 8) bytes
    → caplen ≤ length bytes
    → Returns (Parsed caplen) (parse_packet (some bytes) caplen wire_length ts)
unfolding parse_packet
parse_packet-Parsed bytes caplen wire_length ts are_bytes fits = elim (Bool-cases (ltb caplen 14)) [
  | inl short ↦ rw short (ground arith)
  | inr long ↦ rw long (
      Returns-bind (IsParsed caplen) (Parsed caplen) (parse_ethernet bytes caplen wire_length ts) _
        (parse_ethernet-Returns bytes are_bytes caplen fits wire_length ts (ground arith))
        λ pkt v. (ground arith, v))
]
