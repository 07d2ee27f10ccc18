-- ===== src/License/Manager.antt =====
-- internal/commercial/license/manager.go, with ResolveEdition of verifier.go. Instants are nanoseconds,
-- none is the zero time, and one call reads the clock once. The two files are what a read gives.
pub mod Checks
pub mod Grants
pub mod Changes
use maintenant.Base.{
  ℕ, ◌+◌, ◌-◌, ◌*◌, ◌/◌, Bool, true, false, not, ◌&&◌, ◌||◌, Option, none, some, List, [], ◌∷◌,
  ◌++◌, Str, str_eq, lit, is_empty, ltb, ◌==◌, if◌then◌else◌,
}
use maintenant.License.Window.{
  UpdateWindowRecord, day, reconcile_window, update_grace_end, days_until,
}

pub data Edition : Type 0 where
  community personal pro : Edition

abbrev pub is_community : Edition → Bool
is_community community = true
is_community _ = false

abbrev pub same_edition : Edition → Edition → Bool
same_edition community community = true
same_edition personal personal = true
same_edition pro pro = true
same_edition _ _ = false

-- An unknown word is the Community edition.
unfoldable pub parse_edition : Str → Edition
unfolding str_eq
parse_edition s =
    if str_eq s (lit "personal") then personal else if str_eq s (lit "pro") then pro else community

pub record LicensePayload : Type 0 where
  pub status : Str
  pub edition : Str
  pub plan : Str
  pub features : List Str
  pub expires_at : Option ℕ
  pub verified_at : Option ℕ
  pub updates_until : Str

pub record LicenseState : Type 0 where
  pub edition : Edition
  pub plan : Str
  pub features : List Str
  pub status : Str
  pub verified_at : Option ℕ
  pub expires_at : Option ℕ
  pub message : Str
  pub updates_until : Option ℕ
  pub update_grace_until : Option ℕ

abbrev pub in_force : Str → Bool
unfolding str_eq
in_force status = str_eq status (lit "active") || str_eq status (lit "grace")

unfoldable pub resolve_edition : LicensePayload → Edition
unfolding in_force parse_edition
resolve_edition p =
    if not (in_force p.status)
    then community
    else if not (is_empty p.edition)
    then parse_edition p.edition
    else if str_eq p.plan (lit "personal")
    then personal
    else pro

-- What the manager is built with: its version, the date of the build where it can be read, and the
-- libraries that read and print dates and numbers.
pub record Build : Type 0 where
  pub version : Str
  pub build_date : Option ℕ
  pub parse_rfc3339 : Str → Option ℕ
  pub rfc3339 : ℕ → Str
  pub long_date : ℕ → Str
  pub itoa : ℕ → Str

pub data File : Type 0 where
  read_cache write_cache delete_cache read_window write_window : File

-- One call: the clock, and the files that fail.
pub record Moment : Type 0 where
  pub now : ℕ
  pub fails : File → Bool

-- `last_edition` is none until the baseline is set; `changes` has the callbacks' calls, the newest first.
pub record Manager : Type 0 where
  pub state : LicenseState
  pub last_edition : Option Edition
  pub cache : Option LicensePayload
  pub window : Option UpdateWindowRecord
  pub changes : List (Edition × Edition)

-- A state without an edition, which setStateAndNotify makes the Community edition.
abbrev pub bare_state : Str → Str → LicenseState
bare_state status message = record {
  edition = community;
  plan = [];
  features = [];
  status = status;
  verified_at = none;
  expires_at = none;
  message = message;
  updates_until = none;
  update_grace_until = none;
}

abbrev pub changed : Option Edition → Edition → List (Edition × Edition) → List (Edition × Edition)
changed none next cs = cs
changed (some prev) next cs = if same_edition prev next then cs else (prev, next) ∷ cs

unfoldable pub set_state_and_notify : LicenseState → Manager → Manager
set_state_and_notify s m = record m {
  state = s;
  last_edition = some s.edition;
  changes = changed m.last_edition s.edition m.changes;
}

abbrev pub cached : Moment → Manager → Option LicensePayload
cached env m = if env.fails read_cache then none else m.cache

abbrev pub without_cache : Moment → Manager → Manager
without_cache env m = if env.fails delete_cache then m else record m { cache = none }

abbrev pub with_cache : Moment → LicensePayload → Manager → Manager
with_cache env p m = if env.fails write_cache then m else record m { cache = some p }

unfoldable pub format_days : Build → ℕ → Str
format_days b n = if n == 1 then lit "1 day" else b.itoa n ++ lit " days"

abbrev pub update_window_grace_message : Build → ℕ → ℕ → ℕ → Str
unfolding format_days days_until
update_window_grace_message b window_end grace_end now =
    lit "This version was released after your update window closed on "
    ++ b.long_date window_end
    ++ lit ". Renew your Personal updates to keep it, or go back to the version you were using. "
    ++ lit "This instance falls back to the Community edition in "
    ++ format_days b (days_until grace_end now)
    ++ lit "."

abbrev pub update_window_ended_message : Build → ℕ → Str
update_window_ended_message b window_end =
    lit "Your update window closed on "
    ++ b.long_date window_end
    ++ lit " and this version is not covered. This instance has fallen back to the "
    ++ lit
        "Community edition. Renew your Personal updates, or go back to the version you were using."

-- The end of enforceUpdateWindow: the record is held, and the grace runs or is spent.
unfoldable pub bridle : Build → ℕ → ℕ → UpdateWindowRecord → LicenseState → LicenseState
unfolding update_grace_end update_window_grace_message
bridle b now window_end rec s =
    let grace_end = update_grace_end rec in
    if ltb now grace_end
    then record s {
      update_grace_until = some grace_end;
      status = lit "update_window_grace";
      message = update_window_grace_message b window_end grace_end now;
    }
    else record s {
      update_grace_until = some grace_end;
      status = lit "update_window_ended";
      edition = community;
      message = update_window_ended_message b window_end;
    }

unfoldable pub hold_record : Build → Moment → ℕ → ℕ → Manager → UpdateWindowRecord × Manager
unfolding reconcile_window
hold_record b env built window_end m =
    let (rec, must_write) =
      reconcile_window (if env.fails read_window then none else m.window) window_end env.now
        b.version (b.rfc3339 built) in
    (rec, if must_write && not (env.fails write_window) then record m { window = some rec } else m)

unfoldable pub enforce_at :
    Build → Moment → Option ℕ → ℕ → LicenseState → Manager → LicenseState × Manager
unfolding hold_record bridle
enforce_at b env none window_end s m = (s, m)
enforce_at b env (some built) window_end s m =
    let (rec, held) = hold_record b env built window_end m in
    if is_community s.edition || not (ltb window_end built)
    then (s, m)
    else (bridle b env.now window_end rec s, held)

abbrev pub update_window_end : Build → LicensePayload → Option ℕ
update_window_end b p = if is_empty p.updates_until then none else b.parse_rfc3339 p.updates_until

unfoldable pub enforce_update_window :
    Build → Moment → LicenseState → LicensePayload → Manager → LicenseState × Manager
unfolding enforce_at
enforce_update_window b env s p m = elim (update_window_end b p) [
  | none ↦ (s, m)
  | some window_end ↦
      enforce_at b env b.build_date window_end (record s { updates_until = some window_end }) m
]
