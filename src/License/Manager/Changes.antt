-- ===== src/License/Manager/Changes.antt =====
-- The calls of the callbacks, as a log of the edition.
pub mod Silence
use maintenant.Base.{
  is_empty, ℕ, ◌≡◌, ◌≢◌, refl, sym, ap, str_eq_iff, ◌∙◌, subst, inl, inr, Bool, true, false, Option,
  none, some, List, [], ◌∷◌, arith, Str, if◌then◌else◌, if_elim, Bool-cases, Option-cases, str_eq,
  lit, ◌==◌, ltb, ◌-◌, not, ◌&&◌, ◌||◌,
}
use maintenant.License.Window.{UpdateWindowRecord}
use maintenant.License.Manager.{
  Edition, community, personal, pro, same_edition, LicensePayload, LicenseState, Build, Moment,
  Manager, bare_state, changed, set_state_and_notify, cached, without_cache, with_cache,
  hold_record, enforce_at, update_window_end, enforce_update_window, resolve_edition, delete_cache,
  write_cache,
}
use maintenant.License.Manager.Checks.{
  has_passed, expired_state, unreachable_state, disabled_state, revoked_state, unexpected_state,
  renewing, granted_state, apply_payload, load_cached, load_cache, new_manager, replay_cached,
  replay, degrade, handle_verified, handle_network_error, Answer, failed, answered, says,
  check_payload, check, grace_degradation_disabled, grace_degradation_error, grace_degradation_warn,
}

-- The changes, the newest first, lead from one edition to the other, each from where the one before ended.
abbrev pub Leads : Edition → List (Edition × Edition) → Edition → Type 0
Leads start [] now = start ≡ now
Leads start ((prev, next) ∷ cs) now = (next ≡ now) × (prev ≢ next) × Leads start cs prev

-- The log leads to the edition that the next change is compared with.
abbrev IsLog : Edition → Manager → Type 0
IsLog start m = (e : Edition) × (m.last_edition ≡ some e) × Leads start m.changes e

-- And that one is the edition of the state.
abbrev pub IsLogged : Edition → Manager → Type 0
IsLogged start m = (m.last_edition ≡ some m.state.edition) × Leads start m.changes m.state.edition

same_edition_iff :
    (a b : Edition) → (same_edition a b ≡ true → a ≡ b) × (same_edition a b ≡ false → a ≢ b)
same_edition_iff community community = ground arith
same_edition_iff community personal = ground arith
same_edition_iff community pro = ground arith
same_edition_iff personal community = ground arith
same_edition_iff personal personal = ground arith
same_edition_iff personal pro = ground arith
same_edition_iff pro community = ground arith
same_edition_iff pro personal = ground arith
same_edition_iff pro pro = ground arith

Leads-changed :
    (start prev next : Edition) (cs : List (Edition × Edition))
    → Leads start cs prev
    → Leads start (changed (some prev) next cs) next
Leads-changed start prev next cs h = elim (Bool-cases (same_edition prev next)) [
  | inl e ↦ rw e (subst (λ (x : Edition). Leads start cs x) ((same_edition_iff prev next).0 e) h)
  | inr e ↦ rw e (refl, (same_edition_iff prev next).1 e, h)
]

IsLogged-set_state_and_notify :
    (start : Edition) (s : LicenseState) (m : Manager)
    → IsLog start m
    → IsLogged start (set_state_and_notify s m)
unfolding set_state_and_notify
IsLogged-set_state_and_notify start s m (e, is, h) =
    (refl, rw is (Leads-changed start e s.edition m.changes h))

IsLog-of : (start : Edition) (m : Manager) → IsLogged start m → IsLog start m
IsLog-of start m h = (m.state.edition, h.0, h.1)

IsLog-without_cache :
    (start : Edition) (env : Moment) (m : Manager)
    → IsLog start m
    → IsLog start (without_cache env m)
IsLog-without_cache start env m h =
    if_elim (IsLog start) (env.fails delete_cache) {y = record m { cache = none }} (λ e. h) (λ e. h)

IsLogged-with_cache :
    (start : Edition) (env : Moment) (p : LicensePayload) (m : Manager)
    → IsLogged start m
    → IsLogged start (with_cache env p m)
IsLogged-with_cache start env p m h =
    if_elim (IsLogged start) (env.fails write_cache) {y = record m { cache = some p }} (λ e. h)
      (λ e. h)

-- The window touches only its record.
abbrev IsSameLog : Manager → Manager → Type 0
IsSameLog m v = (v.last_edition ≡ m.last_edition) × (v.changes ≡ m.changes)

IsSameLog-enforce_at :
    (b : Build) (env : Moment) (built : Option ℕ) (window_end : ℕ) (s : LicenseState) (m : Manager)
    → IsSameLog m (enforce_at b env built window_end s m).1
unfolding enforce_at hold_record
IsSameLog-enforce_at b env none window_end s m = (refl, refl)
IsSameLog-enforce_at b env (some built) window_end s m = (ground arith, ground arith)

IsSameLog-enforce_update_window :
    (b : Build) (env : Moment) (s : LicenseState) (p : LicensePayload) (m : Manager)
    → IsSameLog m (enforce_update_window b env s p m).1
unfolding enforce_update_window
IsSameLog-enforce_update_window b env s p m = elim (Option-cases (update_window_end b p)) [
  | inl e ↦ (ground arith, ground arith)
  | inr (end, e) ↦
      let same =
        IsSameLog-enforce_at b env b.build_date end (record s { updates_until = some end }) m in
      (ground (arith, same.0), ground (arith, same.1))
]

IsLog-same : (start : Edition) (m v : Manager) → IsSameLog m v → IsLog start m → IsLog start v
IsLog-same start m v (same, logs) (e, is, h) =
    (e, same ∙ is, subst (λ (cs : List (Edition × Edition)). Leads start cs e) (sym logs) h)

IsLogged-enforced :
    (start : Edition) (b : Build) (env : Moment) (s : LicenseState) (p : LicensePayload)
    (m : Manager)
    → IsLog start m
    → IsLogged start (
        set_state_and_notify
          (enforce_update_window b env s p m).0
          (enforce_update_window b env s p m).1)
IsLogged-enforced start b env s p m h =
    let v = (enforce_update_window b env s p m).1 in
    IsLogged-set_state_and_notify start (enforce_update_window b env s p m).0 v
      (IsLog-same start m v (IsSameLog-enforce_update_window b env s p m) h)

IsLogged-apply_payload :
    (start : Edition) (b : Build) (env : Moment) (p : LicensePayload) (m : Manager)
    → IsLog start m
    → IsLogged start (apply_payload b env p m)
unfolding apply_payload
IsLogged-apply_payload start b env p m h = IsLogged-enforced start b env (granted_state p) p m h

IsLogged-replay :
    (start : Edition) (b : Build) (env : Moment) (s : LicenseState) (m : Manager)
    → IsLog start m
    → IsLogged start (replay b env s m)
unfolding replay replay_cached
IsLogged-replay start b env s m h = elim (Option-cases (cached env m)) [
  | inl e ↦ rw e (IsLogged-set_state_and_notify start s m h)
  | inr (p, e) ↦ rw e (IsLogged-enforced start b env s p m h)
]

IsLogged-handle_verified :
    (start : Edition) (b : Build) (env : Moment) (v : Option ℕ) (m : Manager)
    → IsLog start m
    → IsLogged start (handle_verified b env v m)
unfolding handle_verified degrade
IsLogged-handle_verified start b env none m h =
    IsLogged-set_state_and_notify start unreachable_state m h
IsLogged-handle_verified start b env (some v) m h =
    let L = IsLogged start in
    let gone = IsLog-without_cache start env m h in
    if_elim L (has_passed m.state.expires_at env.now)
      (λ e.
        IsLogged-set_state_and_notify start (expired_state m.state.expires_at) (without_cache env m)
          gone)
      (λ e.
        if_elim L (ltb grace_degradation_disabled (env.now - v))
          (λ e.
            IsLogged-set_state_and_notify start (disabled_state m.state.verified_at)
              (without_cache env m) gone)
          (λ e.
            if_elim L (ltb grace_degradation_error (env.now - v))
              (λ e. IsLogged-replay start b env _ m h)
              (λ e.
                if_elim L (ltb grace_degradation_warn (env.now - v))
                  (λ e. IsLogged-replay start b env _ m h)
                  (λ e. IsLogged-replay start b env _ m h))))

IsLogged-check_payload :
    (start : Edition) (b : Build) (env : Moment) (p : LicensePayload) (m : Manager)
    → IsLog start m
    → IsLogged start (check_payload b env p m)
unfolding check_payload
IsLogged-check_payload start b env p m h =
    let L = IsLogged start in
    let gone = IsLog-without_cache start env m h in
    let applied =
      IsLogged-with_cache start env p (apply_payload b env p m)
        (IsLogged-apply_payload start b env p m h) in
    if_elim L (str_eq p.status (lit "active")) (λ e. applied)
      (λ e.
        if_elim L (str_eq p.status (lit "grace"))
          (λ e.
            IsLogged-set_state_and_notify start
              (renewing (with_cache env p (apply_payload b env p m)).state)
              (with_cache env p (apply_payload b env p m))
              (IsLog-of start (with_cache env p (apply_payload b env p m)) applied))
          (λ e.
            if_elim L (str_eq p.status (lit "expired"))
              (λ e.
                IsLogged-set_state_and_notify start (expired_state p.expires_at)
                  (without_cache env m) gone)
              (λ e.
                if_elim L (str_eq p.status (lit "revoked"))
                  (λ e.
                    IsLogged-set_state_and_notify start revoked_state (without_cache env m) gone)
                  (λ e. IsLogged-set_state_and_notify start (unexpected_state p.status) m h))))

IsLogged-check :
    (start : Edition) (b : Build) (env : Moment) (a : Answer) (m : Manager)
    → IsLog start m
    → IsLogged start (check b env a m)
unfolding check handle_network_error
IsLogged-check start b env (failed code said err) m h =
    let L = IsLogged start in
    let gone = IsLog-without_cache start env m h in
    if_elim L (code == 401)
      (λ e.
        IsLogged-set_state_and_notify start (bare_state (lit "unknown") (says [] err said).message)
          (without_cache env m) gone)
      (λ e.
        if_elim L (code == 403)
          (λ e.
            IsLogged-set_state_and_notify start
              (bare_state (says (lit "expired") err said).status
                (says (lit "expired") err said).message)
              (without_cache env m) gone)
          (λ e. IsLogged-handle_verified start b env m.state.verified_at m h))
IsLogged-check start b env (answered none) m h =
    IsLogged-handle_verified start b env m.state.verified_at m h
IsLogged-check start b env (answered (some p)) m h = IsLogged-check_payload start b env p m h

-- The checks of a ticker, one after another.
unfoldable pub checks : Build → List (Moment × Answer) → Manager → Manager
unfolding check
checks b [] m = m
checks b ((env, a) ∷ cs) m = checks b cs (check b env a m)

IsLogged-checks :
    (start : Edition) (b : Build) (cs : List (Moment × Answer)) (m : Manager)
    → IsLogged start m
    → IsLogged start (checks b cs m)
unfolding checks
IsLogged-checks start b [] m h = h
IsLogged-checks start b ((env, a) ∷ cs) m h =
    IsLogged-checks start b cs (check b env a m)
      (IsLogged-check start b env a m (IsLog-of start m h))

-- If the baseline is the edition of the state, then after any checks, whatever the answers and the files that
-- fail, the changes that the callbacks were told lead from that edition to the edition of the state, each
-- from where the one before ended and to another edition.
pub changes-checks :
    (b : Build) (cs : List (Moment × Answer)) (m : Manager)
    → m.last_edition ≡ some m.state.edition
    → m.changes ≡ []
    → Leads m.state.edition (checks b cs m).changes (checks b cs m).state.edition
changes-checks b cs m base clean =
    (IsLogged-checks m.state.edition b cs m (
      base,
      subst (λ (l : List (Edition × Edition)). Leads m.state.edition l m.state.edition) (sym clean)
          refl,
    )).1
