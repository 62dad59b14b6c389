-- ===== src/Parser/Frames.antt =====
-- The frame builders of tests/test_support.hpp: Ethernet, IPv4, TCP and UDP headers on the wire.
-- Addresses are given as numbers in place of texts for `inet_pton`.
use net_sentinel.Base.{ℕ, ◌+◌, ◌*◌, ◌/◌, ◌%◌, ◌^◌, List, [], ◌∷◌, ◌++◌, length, set, replicate}

-- `memcpy` of `htons(w)` and of an `in_addr` to an index of a buffer.
abbrev pub put16 : List ℕ → ℕ → ℕ → List ℕ
put16 buffer i w = set (set buffer i (w / 2 ^ 8 % 2 ^ 8)) (i + 1) (w % 2 ^ 8)

abbrev pub put32 : List ℕ → ℕ → ℕ → List ℕ
put32 buffer i w = put16 (put16 buffer i (w / 2 ^ 16)) (i + 2) w

unfoldable pub build_eth : ℕ → List ℕ → List ℕ
build_eth ethertype payload =
    put16 (replicate 6 0xbb ++ replicate 6 0xaa ++ 0 ∷ 0 ∷ []) 12 ethertype ++ payload

unfoldable pub build_ipv4 : ℕ → ℕ → ℕ → List ℕ → ℕ → List ℕ
build_ipv4 src dst protocol payload ihl_words =
    let header = replicate (ihl_words * 4) 0 in
    let header = set header 0 ((4 * 2 ^ 4 + ihl_words) % 2 ^ 8) in
    let header = put16 header 2 ((ihl_words * 4 + length payload) % 2 ^ 16) in
    let header = set (set header 8 64) 9 protocol in put32 (put32 header 12 src) 16 dst ++ payload

unfoldable pub build_tcp : ℕ → ℕ → ℕ → List ℕ → ℕ → List ℕ
build_tcp src_port dst_port flags payload data_offset_words =
    let header = replicate (data_offset_words * 4) 0 in
    let header = put16 (put16 header 0 src_port) 2 dst_port in
    set (set header 12 (data_offset_words * 2 ^ 4 % 2 ^ 8)) 13 flags ++ payload

unfoldable pub build_udp : ℕ → ℕ → List ℕ → List ℕ
build_udp src_port dst_port payload =
    let header = put16 (put16 (replicate 8 0) 0 src_port) 2 dst_port in
    put16 header 4 ((8 + length payload) % 2 ^ 16) ++ payload
