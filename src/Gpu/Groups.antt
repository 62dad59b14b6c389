-- ===== src/Gpu/Groups.antt =====
-- The thread groups that a kernel is dispatched with.
use net_sentinel.Base.{
  ℕ, zero, suc, ◌≡◌, refl, ◌*◌, ◌/◌, ◌^◌, ◌≤◌, ◌<◌, ltb, ltb→lt, arith, Bool-cases, inl, inr, ◌⊎◌,
}
use net_sentinel.Gpu.{Pipeline}
use net_sentinel.Gpu.Dispatch.{halve_threads, group_threads}

pub power_suc : (k : ℕ) → 2 ^ suc k ≡ 2 * 2 ^ k
power_suc k = omega arith

pub half_power : (k : ℕ) → 2 ^ suc k / 2 ≡ 2 ^ k
half_power k = let e = power_suc k in omega arith

pub power_positive : (k : ℕ) → 1 ≤ 2 ^ k
power_positive zero = omega arith
power_positive (suc k) = let e = power_suc k in omega (arith, power_positive k)

-- The largest power of two up to a first one and to the limit.
abbrev pub IsGroup : (most limit threads : ℕ) → Type 0
IsGroup most limit threads =
    ((k : ℕ) × (threads ≡ 2 ^ k))
    × (threads ≤ limit)
    × (threads ≤ most)
    × ((threads ≡ most) ⊎ (limit < 2 * threads))

bound :
    (limit half threads : ℕ)
    → (threads ≡ half) ⊎ (limit < 2 * threads)
    → limit < 2 * half
    → {most : ℕ} → (threads ≡ most) ⊎ (limit < 2 * threads)
bound limit half threads (inl e) h = inr (omega arith)
bound limit half threads (inr l) h = inr l

halve_threads-IsGroup :
    (k limit : ℕ) → 1 ≤ limit → IsGroup (2 ^ k) limit (halve_threads (suc k) (2 ^ k) limit)
unfolding halve_threads
halve_threads-IsGroup zero limit h = ((0, ground arith), ground arith, ground arith, ground arith)
halve_threads-IsGroup (suc k) limit h =
    let (power, fits, most, largest) = halve_threads-IsGroup k limit h in
    let half = half_power k in
    let twice = power_suc k in
    elim (Bool-cases (ltb limit (2 ^ suc k))) [
      | inl e ↦ rw e (
          rw half (
            power,
            fits,
            omega (arith, most),
            bound limit (2 ^ k) _ largest (omega (arith, twice, ltb→lt limit (2 ^ suc k) e)),
          ))
      | inr e ↦ rw e ((suc k, refl), ground (arith, e), omega arith, inl refl)
    ]

-- For a pipeline that allows a thread, the group of a dispatch is the largest power of two that is
-- neither above 256 nor above what the pipeline allows.
pub group_threads-IsGroup :
    (p : Pipeline) → 1 ≤ p.max_threads → IsGroup 256 p.max_threads (group_threads p)
unfolding group_threads
group_threads-IsGroup p h = halve_threads-IsGroup 8 p.max_threads h
