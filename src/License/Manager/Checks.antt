-- ===== src/License/Manager/Checks.antt =====
-- The calls of internal/commercial/license/manager.go: the cache at the start, a check, and what an
-- answer that is none does. The request, the signature and the ticker are left out.
use maintenant.Base.{
  ℕ, ◌-◌, ◌*◌, ◌/◌, Bool, false, Option, none, some, [], ◌++◌, Str, str_eq, lit, ltb, ◌==◌,
  if◌then◌else◌,
}
use maintenant.License.Window.{day}
use maintenant.License.Manager.{
  LicensePayload, LicenseState, Build, Moment, Manager, bare_state, set_state_and_notify, cached,
  without_cache, with_cache, format_days, enforce_update_window, resolve_edition,
}

abbrev pub grace_degradation_warn : ℕ
grace_degradation_warn = 7 * day

abbrev pub grace_degradation_error : ℕ
grace_degradation_error = 30 * day

abbrev pub grace_degradation_disabled : ℕ
grace_degradation_disabled = 60 * day

abbrev pub has_passed : Option ℕ → ℕ → Bool
has_passed none now = false
has_passed (some at) now = ltb at now

abbrev pub expired_state : Option ℕ → LicenseState
expired_state at =
    record (bare_state (lit "expired")
      (lit "Your license has expired. This instance has fallen back to the Community edition.")) {
        expires_at = at;
      }

abbrev pub unreachable_state : LicenseState
unreachable_state =
    bare_state (lit "unreachable")
      (lit "Cannot reach license server. Please check your network connection.")

abbrev pub disabled_state : Option ℕ → LicenseState
disabled_state verified =
    record (bare_state (lit "unreachable") (
      lit
        "License server unreachable for over 60 days. This instance has fallen back to the Community edition.")) {
          verified_at = verified;
        }

abbrev pub revoked_state : LicenseState
revoked_state = bare_state (lit "revoked") (lit "Your license has been revoked.")

abbrev pub unexpected_state : Str → LicenseState
unexpected_state status = bare_state status (lit "Unexpected license status: " ++ status)

-- The state of a grace period, whose message replaces the one of the window.
abbrev pub renewing : LicenseState → LicenseState
renewing s = record s {
  message = lit "Your license is in a grace period. Please renew to avoid service interruption.";
}

-- The state that a payload grants, before the window.
unfoldable pub granted_state : LicensePayload → LicenseState
unfolding resolve_edition
granted_state p = record {
  edition = resolve_edition p;
  plan = p.plan;
  features = p.features;
  status = p.status;
  verified_at = p.verified_at;
  expires_at = p.expires_at;
  message = [];
  updates_until = none;
  update_grace_until = none;
}

unfoldable pub apply_payload : Build → Moment → LicensePayload → Manager → Manager
unfolding enforce_update_window set_state_and_notify granted_state
apply_payload b env p m =
    let (s, m') = enforce_update_window b env (granted_state p) p m in set_state_and_notify s m'

unfoldable pub load_cached : Build → Moment → Option LicensePayload → Manager → Manager
unfolding apply_payload set_state_and_notify
load_cached b env none m = m
load_cached b env (some p) m =
    if has_passed p.expires_at env.now
    then set_state_and_notify (expired_state p.expires_at) (without_cache env m)
    else apply_payload b env p m

unfoldable pub load_cache : Build → Moment → Manager → Manager
unfolding load_cached
load_cache b env m = load_cached b env (cached env m) m

-- NewManager, over the files that the process before has left.
unfoldable pub new_manager : Build → Moment → Manager → Manager
unfolding load_cache
new_manager b env before = load_cache b env (record {
  state = bare_state (lit "unknown") [];
  last_edition = none;
  cache = before.cache;
  window = before.window;
  changes = [];
})

unfoldable pub replay_cached :
    Build → Moment → Option LicensePayload → LicenseState → Manager → Manager
unfolding enforce_update_window set_state_and_notify
replay_cached b env none s m = set_state_and_notify s m
replay_cached b env (some p) s m =
    let (s', m') = enforce_update_window b env s p m in set_state_and_notify s' m'

-- replayUpdateWindow, and the write of the state that follows it.
unfoldable pub replay : Build → Moment → LicenseState → Manager → Manager
unfolding replay_cached
replay b env s m = replay_cached b env (cached env m) s m

abbrev pub days_left : ℕ → ℕ
days_left age = (grace_degradation_disabled - age) / day

-- The part of handleNetworkError after the tests of the dates.
unfoldable pub degrade : Build → Moment → ℕ → Manager → Manager
unfolding replay set_state_and_notify format_days
degrade b env age m =
    if ltb grace_degradation_disabled age
    then set_state_and_notify (disabled_state m.state.verified_at) (without_cache env m)
    else if ltb grace_degradation_error age
    then replay b env
        (record m.state {
          message =
              lit
                "License server unreachable. This instance falls back to the Community edition in "
              ++ format_days b (days_left age)
              ++ lit ".";
        })
        m
    else if ltb grace_degradation_warn age
    then replay b env
        (record m.state {
          message = lit "License server unreachable. Your edition remains active from cache.";
        })
        m
    else replay b env m.state m

unfoldable pub handle_verified : Build → Moment → Option ℕ → Manager → Manager
unfolding degrade set_state_and_notify
handle_verified b env none m = set_state_and_notify unreachable_state m
handle_verified b env (some verified) m =
    if has_passed m.state.expires_at env.now
    then set_state_and_notify (expired_state m.state.expires_at) (without_cache env m)
    else degrade b env (env.now - verified) m

unfoldable pub handle_network_error : Build → Moment → Manager → Manager
unfolding handle_verified
handle_network_error b env m = handle_verified b env m.state.verified_at m

pub record ServerError : Type 0 where
  pub status : Str
  pub message : Str

-- What the request gives: an error with its HTTP status (0 where there is none), what the server says of
-- it and the text of the error, or a response, which is none where its signature does not verify.
pub data Answer : Type 0 where
  failed : ℕ → Option ServerError → Str → Answer
  answered : Option LicensePayload → Answer

abbrev pub says : Str → Str → Option ServerError → ServerError
says status message none = record { status = status; message = message }
says status message (some e) = e

unfoldable pub check_payload : Build → Moment → LicensePayload → Manager → Manager
unfolding apply_payload set_state_and_notify str_eq
check_payload b env p m =
    if str_eq p.status (lit "active")
    then with_cache env p (apply_payload b env p m)
    else if str_eq p.status (lit "grace")
    then (let applied = with_cache env p (apply_payload b env p m) in
        set_state_and_notify (renewing applied.state) applied)
    else if str_eq p.status (lit "expired")
    then set_state_and_notify (expired_state p.expires_at) (without_cache env m)
    else if str_eq p.status (lit "revoked")
    then set_state_and_notify revoked_state (without_cache env m)
    else set_state_and_notify (unexpected_state p.status) m

unfoldable pub check : Build → Moment → Answer → Manager → Manager
unfolding check_payload handle_network_error set_state_and_notify
check b env (failed code said err) m =
    let unknown = says [] err said in
    let inactive = says (lit "expired") err said in
    if code == 401
    then set_state_and_notify (bare_state (lit "unknown") unknown.message) (without_cache env m)
    else if code == 403
    then set_state_and_notify (bare_state inactive.status inactive.message) (without_cache env m)
    else handle_network_error b env m
check b env (answered none) m = handle_network_error b env m
check b env (answered (some p)) m = check_payload b env p m
