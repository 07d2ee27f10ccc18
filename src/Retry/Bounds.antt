-- ===== src/Retry/Bounds.antt =====
-- The delays of a backoff stay in range, and double until the cap while the shift does not overflow.
use Prim.Native.Nat.{min}
use native.Mathlib.Nat.{add-zero, zero-add, add-suc, pow-suc}
use maintenant.Base.{
  ℕ, zero, suc, ◌+◌, ◌-◌, ◌*◌, ◌%◌, ◌^◌, ◌≤◌, ◌<◌, ◌≡◌, false, arith, All, ltb, leb, ◌==◌, ◌||◌,
  if◌then◌else◌,
}
use maintenant.Retry.{Backoff, shifted, raw_delay, capped, next, delays, max_shift}

-- A delay without jitter is never more than the maximum and never 0, also where the shift overflows.
raw_delay_bounds :
    (low high a : ℕ) → 0 < high → (0 < raw_delay low high a) × (raw_delay low high a ≤ high)
unfolding raw_delay
raw_delay_bounds low high a h = ground arith

-- Every delay of every run without jitter lies between 1 and the maximum, if that is above 0.
pub delays_bounds :
    (spread : ℕ → ℕ) (n : ℕ) (b : Backoff)
    → b.jitter ≡ false
    → 0 < b.max_delay
    → All (λ d. (0 < d) × (d ≤ b.max_delay)) (delays spread n b).0
unfolding delays next
delays_bounds spread zero b j h = tt
delays_bounds spread (suc n) b j h = (
  ground (arith, raw_delay_bounds b.min_delay b.max_delay (capped b.attempt) h),
  delays_bounds spread n (next spread b).1 j h,
)

pow_mono : (a k : ℕ) → 2 ^ a ≤ 2 ^ (a + k)
pow_mono a zero = rw add-zero (omega arith)
pow_mono a (suc k) = rw (add-suc a k) (omega (arith, pow_mono a k, pow-suc 2 (a + k)))

pow_max_shift : (a : ℕ) → a ≤ 30 → 2 ^ a ≤ 1073741824
pow_max_shift a h = let e : a + (30 - a) ≡ 30 = omega arith in rw e at (pow_mono a (30 - a))

mul_le_mul : (c : ℕ) {a b : ℕ} → a ≤ b → c * a ≤ c * b
mul_le_mul c h = grind arith

below_doubles :
    (x high : ℕ)
    → 0 < x
    → x < 9223372036854775808
    → (let raw = x % 18446744073709551616 in
        if raw == 0 || leb 9223372036854775808 raw || ltb high raw then high else raw)
      ≡ min x high
below_doubles x high p h = ground arith

raw_doubles :
    (low high a : ℕ)
    → 0 < low
    → a ≤ 30
    → low * 1073741824 < 9223372036854775808
    → raw_delay low high a ≡ min (low * 2 ^ a) high
unfolding raw_delay
raw_doubles low high a p l h =
    let one : 1 ≤ 2 ^ a = rw zero-add at (pow_mono 0 a) in
    let small : low * 2 ^ a ≤ low * 1073741824 = mul_le_mul low (pow_max_shift a l) in
    let positive : low * 1 ≤ low * 2 ^ a = mul_le_mul low one in
    let fits : low * 2 ^ a < 9223372036854775808 = omega arith in
    let x : 0 < low * 2 ^ a = omega arith in
    unfold shifted in below_doubles (low * 2 ^ a) high x fits

capped-min : (a : ℕ) → capped a ≡ min a 30
unfolding capped
capped-min a = ground arith

-- Without jitter, and where a minimum above 0 fits in an int64 after the greatest shift, the delay is the
-- minimum, doubled for each attempt up to 30 of them, and cut at the maximum.
pub next_doubles :
    (spread : ℕ → ℕ) (b : Backoff)
    → b.jitter ≡ false
    → 0 < b.min_delay
    → b.min_delay * 2 ^ max_shift < 9223372036854775808
    → (next spread b).0 ≡ min (b.min_delay * 2 ^ min b.attempt max_shift) b.max_delay
unfolding next
next_doubles spread b j p h = ground (
  arith,
  capped-min b.attempt,
  raw_doubles b.min_delay b.max_delay (min b.attempt 30) p (omega arith) h,
)

abbrev pub late : ℕ → ℕ → ℕ → Backoff
late k high attempt = record {
  min_delay = 17179869184 + k;
  max_delay = high;
  jitter = false;
  attempt = attempt;
}

-- Where the greatest shift does not fit, a long run of failures can bring the delay down: without jitter,
-- for a minimum of 2 ^ 34 + k nanoseconds, with k above 0 and below 2 ^ 33, and a maximum of at least
-- k * 2 ^ 30, the delay at attempt 29 is the maximum, and from attempt 30 on it is k * 2 ^ 30.
pub overflow_shrinks :
    (spread : ℕ → ℕ) (k high attempt : ℕ)
    → 0 < k
    → k * 1073741824 ≤ high
    → k < 8589934592
    → 30 ≤ attempt
    → ((next spread (late k high 29)).0 ≡ high)
      × ((next spread (late k high attempt)).0 ≡ k * 1073741824)
unfolding next raw_delay capped
overflow_shrinks spread k high attempt p h l m =
    let e : capped attempt ≡ 30 = ground arith in (ground arith, rw (e, next) (ground arith))
