-- ===== src/License/Manager/Changes/Silence.antt =====
-- The first check after a start without a cache.
use maintenant.Base.{
  is_empty, ◌≡◌, refl, ap, str_eq_iff, ◌∙◌, Bool, true, none, some, [], arith, if◌then◌else◌,
  str_eq, lit,
}
use maintenant.License.Manager.{
  community, LicensePayload, LicenseState, Build, Moment, Manager, bare_state, set_state_and_notify,
  cached, with_cache, enforce_update_window, resolve_edition,
}
use maintenant.License.Manager.Checks.{
  granted_state, apply_payload, load_cached, load_cache, new_manager, answered, check_payload,
  check,
}

-- What a process without a cache starts with.
abbrev fresh : Manager → Manager
fresh before = record {
  state = bare_state (lit "unknown") [];
  last_edition = none;
  cache = before.cache;
  window = before.window;
  changes = [];
}

fresh-new_manager :
    (b : Build) (env : Moment) (before : Manager)
    → before.cache ≡ none
    → new_manager b env before ≡ fresh before
unfolding new_manager load_cache load_cached
fresh-new_manager b env before empty =
    let missing : cached env (fresh before) ≡ none = ground arith in rw missing refl

without_window :
    (b : Build) (env : Moment) (s : LicenseState) (p : LicensePayload) (m : Manager)
    → p.updates_until ≡ []
    → enforce_update_window b env s p m ≡ (s, m)
unfolding enforce_update_window
without_window b env s p m no_window =
    let missing : is_empty p.updates_until ≡ true = rw no_window refl in ground (arith, missing)

silent-set_state_and_notify :
    (s : LicenseState) (m : Manager)
    → m.last_edition ≡ none
    → m.changes ≡ []
    → (set_state_and_notify s m).changes ≡ []
unfolding set_state_and_notify
silent-set_state_and_notify s m base clean = rw base clean

silent-active :
    (b : Build) (env : Moment) (p : LicensePayload) (m : Manager)
    → m.last_edition ≡ none
    → m.changes ≡ []
    → p.updates_until ≡ []
    → ((apply_payload b env p m).state.edition ≡ resolve_edition p)
      × ((apply_payload b env p m).changes ≡ [])
silent-active b env p m base clean no_window =
    let s = granted_state p in
    let applied : apply_payload b env p m ≡ set_state_and_notify s m =
      unfold apply_payload in
      ap (λ (x : LicenseState × Manager). set_state_and_notify x.0 x.1)
        (without_window b env s p m no_window) in
    (
      ap (λ (m : Manager). m.state.edition) applied
          ∙ (unfold set_state_and_notify granted_state in refl),
      ap (λ (m : Manager). m.changes) applied ∙ silent-set_state_and_notify s m base clean,
    )

if_true : {A : Type 0} (t : Bool) (x y : A) → t ≡ true → (if t then x else y) ≡ x
if_true t x y e = rw e refl

silent-with_cache :
    (env : Moment) (p : LicensePayload) (m : Manager)
    → ((with_cache env p m).state ≡ m.state) × ((with_cache env p m).changes ≡ m.changes)
silent-with_cache env p m = (ground arith, ground arith)

silent-check :
    (b : Build) (env : Moment) (p : LicensePayload) (m : Manager)
    → m.last_edition ≡ none
    → m.changes ≡ []
    → p.status ≡ lit "active"
    → p.updates_until ≡ []
    → ((check b env (answered (some p)) m).state.edition ≡ resolve_edition p)
      × ((check b env (answered (some p)) m).changes ≡ [])
silent-check b env p m base clean is_active no_window =
    let this = (str_eq_iff p.status (lit "active")).1 is_active in
    let (granted, quiet) = silent-active b env p m base clean no_window in
    let (same, logs) = silent-with_cache env p (apply_payload b env p m) in
    let taken : check b env (answered (some p)) m ≡ with_cache env p (apply_payload b env p m) =
      unfold check check_payload in
      if_true (str_eq p.status (lit "active")) (with_cache env p (apply_payload b env p m)) _
        this in
    (
      ap (λ (m : Manager). m.state.edition) taken
          ∙ (ap (λ (s : LicenseState). s.edition) same ∙ granted),
      ap (λ (m : Manager). m.changes) taken ∙ (logs ∙ quiet),
    )

-- If a manager starts without a cache and its first check gets an active payload without an update window, then
-- the edition goes from Community to the one that is granted, and the callbacks are told no change.
pub first_check_silent :
    (b : Build) (env later : Moment) (before : Manager) (p : LicensePayload)
    → before.cache ≡ none
    → p.status ≡ lit "active"
    → p.updates_until ≡ []
    → ((new_manager b env before).state.edition ≡ community)
      × ((check b later (answered (some p)) (new_manager b env before)).state.edition
          ≡ resolve_edition p)
      × ((check b later (answered (some p)) (new_manager b env before)).changes ≡ [])
first_check_silent b env later before p empty is_active no_window =
    let (granted, quiet) = silent-check b later p (fresh before) refl refl is_active no_window in
    rw (fresh-new_manager b env before empty) (refl, granted, quiet)
