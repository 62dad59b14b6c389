-- ===== src/Capture/Limits.antt =====
-- Deliveries up to the limit on packets, and counting them.
use net_sentinel.Base.{
  ℕ, zero, suc, ◌≡◌, refl, sym, ap, ◌∙◌, ◌+◌, ◌-◌, ◌^◌, ◌≤◌, ◌<◌, true, false, ◌&&◌, ltb, leb,
  if◌then◌else◌, List, [], ◌∷◌, ◌++◌, length, take, arith, ◌⊎◌, length-append,
}
use net_sentinel.Packet.{ParsedPacket}
use net_sentinel.Capture.{Ended, done, Delivery, then_deliver, stop_with}

-- Counting cannot go past the largest `int`: the limit stops it before, or there are too few frames.
abbrev pub Countable : (max_packets delivered coming : ℕ) → Type 0
Countable max_packets delivered coming =
    ((1 ≤ max_packets) × (delivered < max_packets) × (max_packets < 2 ^ 31))
    ⊎ ((max_packets ≡ 0) × (delivered + coming < 2 ^ 31))

-- The packets that a limit leaves, where some were delivered before; 0 is no limit.
abbrev pub limited : (max_packets delivered : ℕ) → List ParsedPacket → List ParsedPacket
limited zero delivered coming = coming
limited (suc m) delivered coming = take (suc m - delivered) coming

-- The packets that come are handled, up to the limit, and counted; the call ends as they end it, or
-- because of the limit.
abbrev pub Delivers : (max_packets delivered : ℕ) → List ParsedPacket → Ended → Delivery → Type 0
Delivers max_packets delivered coming ends d =
    (d.handled ≡ limited max_packets delivered coming)
    × (d.delivered ≡ delivered + length d.handled)
    × (d.ended ≡ (if ltb 0 max_packets && leb max_packets d.delivered then done else ends))

pub take_append :
    (k : ℕ) (first coming : List ParsedPacket)
    → length first ≤ k
    → take k (first ++ coming) ≡ first ++ take (k - length first) coming
take_append k [] coming h = let same : k ≡ k - 0 = omega arith in ap (λ (n : ℕ). take n coming) same
take_append zero (p ∷ first) coming h = absurd (omega arith)
take_append (suc k) (p ∷ first) coming h =
    let same : k - length first ≡ suc k - suc (length first) = omega arith in
    ap (λ (l : List ParsedPacket). p ∷ l)
      (take_append k first coming (omega arith) ∙ ap (λ (n : ℕ). first ++ take n coming) same)

-- What was handled before counts against the limit.
pub limited-append :
    (max_packets delivered : ℕ) (first coming : List ParsedPacket)
    → (1 ≤ max_packets → delivered + length first ≤ max_packets)
    → limited max_packets delivered (first ++ coming)
      ≡ first ++ limited max_packets (delivered + length first) coming
limited-append zero delivered first coming h = refl
limited-append (suc m) delivered first coming h =
    let fits = h (omega arith) in
    let same : suc m - delivered - length first ≡ suc m - (delivered + length first) =
      omega arith in
    take_append (suc m - delivered) first coming (omega (arith, fits))
    ∙ ap (λ (n : ℕ). first ++ take n coming) same

pub take_none : (k : ℕ) → [] ≡ take {A = ParsedPacket} k []
take_none zero = refl
take_none (suc k) = refl

pub limited_none : (max_packets delivered : ℕ) → [] ≡ limited max_packets delivered []
limited_none zero delivered = refl
limited_none (suc m) delivered = take_none (suc m - delivered)

pub limited_full :
    (max_packets delivered : ℕ) (coming : List ParsedPacket)
    → 1 ≤ max_packets
    → max_packets - delivered ≡ 0
    → limited max_packets delivered coming ≡ []
limited_full zero delivered coming h e = absurd (omega arith)
limited_full (suc m) delivered coming h e = ap (λ (n : ℕ). take n coming) e

-- What some packets add to what follows.
pub then_deliver-Delivers :
    (max_packets delivered : ℕ) (first coming : List ParsedPacket) (ends : Ended) (more : Delivery)
    → (1 ≤ max_packets → delivered + length first ≤ max_packets)
    → Delivers max_packets (delivered + length first) coming ends more
    → Delivers max_packets delivered (first ++ coming) ends (then_deliver first more)
then_deliver-Delivers max_packets delivered first coming ends more fits (e, count, end_) = (
  ap (λ (l : List ParsedPacket). first ++ l) e
      ∙ sym (limited-append max_packets delivered first coming fits),
  omega (arith, count, length-append first more.handled),
  end_,
)

-- Nothing comes.
pub stop_with-Delivers :
    (max_packets delivered coming : ℕ) (ended : Ended)
    → Countable max_packets delivered coming
    → Delivers max_packets delivered [] ended (stop_with delivered ended)
stop_with-Delivers max_packets delivered coming ended room =
    (limited_none max_packets delivered, omega arith, ground (arith, room))

pub take_short : (k : ℕ) (l : List ParsedPacket) → length (take k l) < k → take k l ≡ l
take_short zero l h = absurd (omega arith)
take_short (suc k) [] h = refl
take_short (suc k) (p ∷ l) h = ap (λ (r : List ParsedPacket). p ∷ r) (take_short k l (omega arith))

pub take_enough :
    (k : ℕ) (l more : List ParsedPacket) → k ≤ length (take k l) → take k (l ++ more) ≡ take k l
take_enough zero l more h = refl
take_enough (suc k) [] more h = absurd (omega arith)
take_enough (suc k) (p ∷ l) more h =
    ap (λ (r : List ParsedPacket). p ∷ r) (take_enough k l more (omega arith))

-- Below the limit, nothing is left out; at the limit, nothing is added.
pub limited_below :
    (max_packets delivered : ℕ) (l : List ParsedPacket)
    → (ltb 0 max_packets && leb max_packets (delivered + length (limited max_packets delivered l)))
      ≡ false
    → limited max_packets delivered l ≡ l
limited_below zero delivered l h = refl
limited_below (suc m) delivered l h = take_short (suc m - delivered) l (ground (arith, h))

pub limited_at :
    (max_packets delivered : ℕ) (l more : List ParsedPacket)
    → (ltb 0 max_packets && leb max_packets (delivered + length (limited max_packets delivered l)))
      ≡ true
    → limited max_packets delivered (l ++ more) ≡ limited max_packets delivered l
limited_at zero delivered l more h = absurd (ground (arith, h))
limited_at (suc m) delivered l more h = take_enough (suc m - delivered) l more (ground (arith, h))
