-- ===== src/License/Window.antt =====
-- internal/commercial/license/window.go: the record that anchors the grace. Instants are nanoseconds.
pub mod Grace
use maintenant.Base.{
  ℕ, ◌+◌, ◌-◌, ◌*◌, ◌/◌, Bool, true, false, Option, none, some, List, [], ◌∷◌, Str, ltb, leb,
  if◌then◌else◌,
}

abbrev pub day : ℕ
day = 86_400_000_000_000

abbrev pub update_window_grace_period : ℕ
update_window_grace_period = 30 * day

pub record UpdateWindowRecord : Type 0 where
  pub window_end : ℕ
  pub opened_at : ℕ
  pub version : Str
  pub build_date : Str

-- The second component says whether the record must be persisted.
pub reconcile_stored : UpdateWindowRecord → ℕ → ℕ → UpdateWindowRecord → UpdateWindowRecord × Bool
reconcile_stored stored window_end now fresh =
    if ltb stored.window_end window_end
    then (fresh, true)
    else (if ltb now stored.opened_at then (fresh, true) else (stored, false))

unfoldable pub reconcile_window :
    Option UpdateWindowRecord → ℕ → ℕ → Str → Str → UpdateWindowRecord × Bool
unfolding reconcile_stored
reconcile_window none window_end now version build_date = (
  record { window_end = window_end; opened_at = now; version = version; build_date = build_date },
  true,
)
reconcile_window (some stored) window_end now version build_date =
    reconcile_stored stored window_end now (record {
      window_end = window_end;
      opened_at = now;
      version = version;
      build_date = build_date;
    })

unfoldable pub update_grace_end : UpdateWindowRecord → ℕ
update_grace_end rec = rec.opened_at + update_window_grace_period

unfoldable pub days_until : ℕ → ℕ → ℕ
days_until deadline now =
    if leb deadline now
    then 1
    else (let days = (deadline - now + day - 1) / day in if ltb days 1 then 1 else days)
