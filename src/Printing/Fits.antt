-- ===== src/Printing/Fits.antt =====
-- The buffers of `ipv4_to_string` and `format_alert` against the texts that they are to hold.
use net_sentinel.Base.{
  ℕ, zero, suc, ◌+◌, ◌-◌, ◌/◌, ◌%◌, ◌^◌, ◌≤◌, ◌<◌, ◌≡◌, refl, ap, not, ◌||◌, ◌==◌, List, [], ◌∷◌,
  ◌++◌, length, take, arith, length-append, Bool-cases, inl, inr, length-replicate,
}
use net_sentinel.Base.Text.{decimal, decimal_fuel}
use net_sentinel.Alert.{
  Alert, AnomalyType, port_scan, high_entropy_payload, syn_flood, signature_match,
  anomaly_type_to_string,
}
use net_sentinel.Printing.{dotted, ipv4_to_string, format_alert, alert_text}

length-snoc : (text : List ℕ) (c : ℕ) → length (text ++ c ∷ []) ≡ length text + 1
length-snoc text c = length-append text (c ∷ [])

-- One digit more for a number ten times as large.
length-decimal_suc :
    (fuel n k : ℕ)
    → length (decimal_fuel fuel (n / 10)) ≤ k
    → length (decimal_fuel (suc fuel) n) ≤ suc k
unfolding decimal_fuel
length-decimal_suc fuel n k h =
    ground (arith, h, length-snoc (decimal_fuel fuel (n / 10)) (b'0' + n % 10))

length-decimal_one : (fuel n : ℕ) → n < 10 → length (decimal_fuel (suc fuel) n) ≤ 1
unfolding decimal_fuel
length-decimal_one fuel n h = ground arith

length-decimal_byte : (n : ℕ) → n < 2 ^ 8 → length (decimal n) ≤ 3
unfolding decimal
length-decimal_byte n h =
    length-decimal_suc 19 n 2
      (length-decimal_suc 18 (n / 10) 1 (length-decimal_one 17 (n / 10 / 10) (omega arith)))

length-decimal_port : (n : ℕ) → n < 2 ^ 16 → length (decimal n) ≤ 5
unfolding decimal
length-decimal_port n h = length-decimal_suc 19 n 4 (
    length-decimal_suc 18 (n / 10) 3 (
      length-decimal_suc 17 (n / 10 / 10) 2 (
        length-decimal_suc 16 (n / 10 / 10 / 10) 1
          (length-decimal_one 15 (n / 10 / 10 / 10 / 10) (omega arith)))))

take_all : (n : ℕ) (text : List ℕ) → length text ≤ n → take n text ≡ text
take_all zero [] h = refl
take_all (suc n) [] h = refl
take_all zero (c ∷ text) h = absurd (omega arith)
take_all (suc n) (c ∷ text) h = ap (◌∷◌ c) (take_all n text (omega arith))

length-dotted : (ip : ℕ) → length (dotted ip) ≤ 15
length-dotted ip = omega (
  arith,
  length-append (decimal (ip / 2 ^ 24 % 2 ^ 8)) (
      b'.'
      ∷ (decimal (ip / 2 ^ 16 % 2 ^ 8)
          ++ (b'.' ∷ (decimal (ip / 2 ^ 8 % 2 ^ 8) ++ (b'.' ∷ decimal (ip % 2 ^ 8)))))),
  length-append (decimal (ip / 2 ^ 16 % 2 ^ 8))
      (b'.' ∷ (decimal (ip / 2 ^ 8 % 2 ^ 8) ++ (b'.' ∷ decimal (ip % 2 ^ 8)))),
  length-append (decimal (ip / 2 ^ 8 % 2 ^ 8)) (b'.' ∷ decimal (ip % 2 ^ 8)),
  length-decimal_byte (ip / 2 ^ 24 % 2 ^ 8) (omega arith),
  length-decimal_byte (ip / 2 ^ 16 % 2 ^ 8) (omega arith),
  length-decimal_byte (ip / 2 ^ 8 % 2 ^ 8) (omega arith),
  length-decimal_byte (ip % 2 ^ 8) (omega arith),
)

-- No address is cut: the buffer of 16 bytes holds the four numbers and the dots of every address.
pub ipv4_to_string-dotted : (ip : ℕ) → ipv4_to_string ip ≡ dotted ip
unfolding ipv4_to_string
ipv4_to_string-dotted ip = take_all 15 (dotted ip) (length-dotted ip)

length-name : (type : AnomalyType) → length (anomaly_type_to_string type) ≤ 20
unfolding anomaly_type_to_string
length-name port_scan = omega arith
length-name high_entropy_payload = omega arith
length-name syn_flood = omega arith
length-name signature_match = omega arith

length-ipv4_to_string : (ip : ℕ) → length (ipv4_to_string ip) ≤ 15
length-ipv4_to_string ip = rw (ipv4_to_string-dotted ip) (length-dotted ip)

length-alert_text :
    (alert : Alert)
    → alert.src_port < 2 ^ 16
    → alert.dst_port < 2 ^ 16
    → length alert.detail ≤ 95
    → length (alert_text alert) ≤ 255
length-alert_text alert hs hd small =
    elim (Bool-cases (not (alert.dst_port == 0) || not (alert.src_port == 0))) [
      | inl ports ↦ rw ports (
          simp length-append (
            omega (
              arith,
              length-name alert.type,
              length-replicate {A = ℕ} (21 - length (anomaly_type_to_string alert.type)) b' ',
              length-ipv4_to_string alert.src_ip,
              length-ipv4_to_string alert.dst_ip,
              length-decimal_port alert.src_port hs,
              length-decimal_port alert.dst_port hd,
            )))
      | inr none ↦ rw none (
          simp length-append (
            omega (
              arith,
              length-name alert.type,
              length-replicate {A = ℕ} (21 - length (anomaly_type_to_string alert.type)) b' ',
              length-ipv4_to_string alert.src_ip,
            )))
    ]

-- No alert is cut: for a detail of at most 95 bytes, which is what the rules' own buffers hold, and
-- ports below 2 ^ 16, the buffer of 256 bytes holds the whole text.
pub format_alert-alert_text :
    (alert : Alert)
    → alert.src_port < 2 ^ 16
    → alert.dst_port < 2 ^ 16
    → length alert.detail ≤ 95
    → format_alert alert ≡ alert_text alert
unfolding format_alert
format_alert-alert_text alert hs hd small =
    take_all 255 (alert_text alert) (length-alert_text alert hs hd small)
