-- ===== src/Retry.antt =====
-- internal/retry/backoff.go. Durations are the nanoseconds of an int64; the shift keeps its wrap-around.
-- The product with the random factor, which is computed in floating point, is an argument.
pub mod Bounds
use Prim.Native.Nat.{min}
use maintenant.Base.{
  ℕ, zero, suc, ◌+◌, ◌*◌, ◌%◌, ◌^◌, Bool, true, false, ◌||◌, List, [], ◌∷◌, ltb, leb, ◌==◌,
  if◌then◌else◌,
}

abbrev pub max_shift : ℕ
max_shift = 30

-- `jitter` says whether the Jitter of the source is other than 0.
pub record Backoff : Type 0 where
  pub min_delay : ℕ
  pub max_delay : ℕ
  pub jitter : Bool
  pub attempt : ℕ

unfoldable pub new : ℕ → ℕ → Bool → Backoff
new low high jitter = record { min_delay = low; max_delay = high; jitter = jitter; attempt = 0 }

unfoldable pub reset : Backoff → Backoff
reset b = record b { attempt = 0 }

-- The bit pattern of `b.Min << uint(a)`; from 2 ^ 63 on it stands for a negative number.
unfoldable pub shifted : ℕ → ℕ → ℕ
shifted low a = low * 2 ^ a % 18446744073709551616

-- `raw <= 0 || raw > b.Max`, on a positive Max.
unfoldable pub raw_delay : ℕ → ℕ → ℕ → ℕ
unfolding shifted
raw_delay low high a =
    let raw = shifted low a in
    if raw == 0 || leb 9223372036854775808 raw || ltb high raw then high else raw

unfoldable pub capped : ℕ → ℕ
capped a = if ltb max_shift a then max_shift else a

unfoldable pub next : (ℕ → ℕ) → Backoff → ℕ × Backoff
unfolding raw_delay capped
next spread b =
    let raw = raw_delay b.min_delay b.max_delay (capped b.attempt) in
    (if b.jitter then spread raw else raw, record b { attempt = b.attempt + 1 })

-- The delays of n calls in a row, and the state after them.
unfoldable pub delays : (ℕ → ℕ) → ℕ → Backoff → List ℕ × Backoff
delays spread zero b = ([], b)
delays spread (suc n) b =
    let (d, b') = next spread b in let (ds, b'') = delays spread n b' in (d ∷ ds, b'')
