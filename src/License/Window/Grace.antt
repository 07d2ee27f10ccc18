-- ===== src/License/Window/Grace.antt =====
-- A grace is opened once for a window.
use maintenant.Base.{ℕ, ◌+◌, ◌*◌, ◌≤◌, ◌<◌, ◌≡◌, ◌⊎◌, true, false, some, List, [], ◌∷◌, arith, Str}
use maintenant.License.Window.{
  UpdateWindowRecord, reconcile_window, update_grace_end, days_until, day,
}

-- One start of a build outside the window: the clock, the version and its date.
pub record Start : Type 0 where
  pub now : ℕ
  pub version : Str
  pub build_date : Str

abbrev pub starts : UpdateWindowRecord → ℕ → List Start → UpdateWindowRecord
starts rec window_end [] = rec
starts rec window_end (x ∷ xs) =
    starts (reconcile_window (some rec) window_end x.now x.version x.build_date).0 window_end xs

start_keeps :
    (rec : UpdateWindowRecord) (window_end now : ℕ) (version build_date : Str)
    → rec.window_end ≡ window_end
    → let rec' = (reconcile_window (some rec) window_end now version build_date).0 in
      (rec'.window_end ≡ window_end) × (rec'.opened_at ≤ rec.opened_at) × (rec'.opened_at ≤ now)
unfolding reconcile_window
start_keeps rec window_end now version build_date h = ground arith

-- Under the window of a record, no sequence of starts, of whatever builds and at whatever clocks, moves
-- the end of its grace later.
pub grace_not_extended :
    (xs : List Start) (rec : UpdateWindowRecord) (window_end : ℕ)
    → rec.window_end ≡ window_end
    → update_grace_end (starts rec window_end xs) ≤ update_grace_end rec
unfolding update_grace_end
grace_not_extended [] rec window_end h = omega arith
grace_not_extended (x ∷ xs) rec window_end h =
    let k = start_keeps rec window_end x.now x.version x.build_date h in
    omega (
      arith,
      k.1,
      grace_not_extended xs (reconcile_window (some rec) window_end x.now x.version x.build_date).0
          window_end k.0,
    )

-- A stored record is kept, with nothing to write, when the window has not moved forward and the clock is
-- not before its anchor; otherwise a record is to be written that is anchored at the clock under the
-- given window.
pub persisted_iff_fresh :
    (rec : UpdateWindowRecord) (window_end now : ℕ) (version build_date : Str)
    → let (rec', persist) = reconcile_window (some rec) window_end now version build_date in
      ((persist ≡ false) × (rec' ≡ rec) × (window_end ≤ rec.window_end) × (rec.opened_at ≤ now))
      ⊎ ((persist ≡ true)
          × (rec'.opened_at ≡ now)
          × (rec'.window_end ≡ window_end)
          × ((rec.window_end < window_end) ⊎ (now < rec.opened_at)))
unfolding reconcile_window
persisted_iff_fresh rec window_end now version build_date = ground arith

-- The days shown are at least one, cover what is left of the grace, and overshoot it by less than a
-- day.
pub days_until_bounds :
    (deadline now : ℕ)
    → (1 ≤ days_until deadline now)
      × (deadline ≤ now + days_until deadline now * day)
      × (now < deadline → now + days_until deadline now * day < deadline + day)
unfolding days_until
days_until_bounds deadline now = ground arith
