-- ===== src/License/Manager/Grants.antt =====
-- What a check needs to leave an edition above the Community one.
use maintenant.Base.{
  ℕ, ◌+◌, ◌-◌, ◌≤◌, ◌≡◌, ◌≢◌, ◌⊎◌, refl, inl, inr, true, false, Option, none, some, arith, ltb,
  ◌==◌, if_elim, Bool-cases, Option-cases,
}
use maintenant.License.Manager.{
  Edition, is_community, LicensePayload, LicenseState, Build, Moment, Manager, set_state_and_notify,
  cached, bridle, enforce_at, update_window_end, enforce_update_window, resolve_edition, in_force,
}
use maintenant.License.Manager.Checks.{
  has_passed, granted_state, apply_payload, replay_cached, replay, degrade, handle_verified,
  handle_network_error, Answer, failed, answered, check_payload, check, grace_degradation_disabled,
  grace_degradation_error, grace_degradation_warn,
}

-- The window takes an edition away or leaves it.
edition-enforce_at :
    (b : Build) (env : Moment) (built : Option ℕ) (window_end : ℕ) (s : LicenseState) (m : Manager)
    → is_community (enforce_at b env built window_end s m).0.edition ≡ false
    → (enforce_at b env built window_end s m).0.edition ≡ s.edition
unfolding enforce_at bridle
edition-enforce_at b env none window_end s m h = refl
edition-enforce_at b env (some built) window_end s m h = ground arith

edition-enforce_update_window :
    (b : Build) (env : Moment) (s : LicenseState) (p : LicensePayload) (m : Manager)
    → is_community (enforce_update_window b env s p m).0.edition ≡ false
    → (enforce_update_window b env s p m).0.edition ≡ s.edition
unfolding enforce_update_window
edition-enforce_update_window b env s p m h = elim (Option-cases (update_window_end b p)) [
  | inl e ↦ ground arith
  | inr (end, e) ↦ ground (
    arith,
    h,
    edition-enforce_at b env b.build_date end (record s { updates_until = some end }) m,
  )
]

edition-apply_payload :
    (b : Build) (env : Moment) (p : LicensePayload) (m : Manager)
    → is_community (apply_payload b env p m).state.edition ≡ false
    → (apply_payload b env p m).state.edition ≡ resolve_edition p
unfolding apply_payload set_state_and_notify granted_state
edition-apply_payload b env p m h = edition-enforce_update_window b env (granted_state p) p m h

edition-replay :
    (b : Build) (env : Moment) (s : LicenseState) (m : Manager)
    → is_community (replay b env s m).state.edition ≡ false
    → (replay b env s m).state.edition ≡ s.edition
unfolding replay replay_cached set_state_and_notify
edition-replay b env s m h = elim (Option-cases (cached env m)) [
  | inl e ↦ ground arith
  | inr (p, e) ↦ ground (arith, h, edition-enforce_update_window b env s p m)
]

-- The licence was verified at most 60 days ago and has not passed its own date.
abbrev pub IsKept : ℕ → LicenseState → Type 0
IsKept now s =
    (verified : ℕ) × (s.verified_at ≡ some verified)
    × (now ≤ verified + grace_degradation_disabled)
    × (has_passed s.expires_at now ≡ false)

-- An edition that is left is the one before, and the age of the licence is within the 60 days.
abbrev Kept : ℕ → Manager → Manager → Type 0
Kept age m v =
    is_community v.state.edition ≡ false
    → (v.state.edition ≡ m.state.edition) × (age ≤ grace_degradation_disabled)

edition-degrade :
    (b : Build) (env : Moment) (age : ℕ) (m : Manager) → Kept age m (degrade b env age m)
unfolding degrade set_state_and_notify
edition-degrade b env age m =
    if_elim (Kept age m) (ltb grace_degradation_disabled age) (λ e h. ground arith)
      (λ e.
        if_elim (Kept age m) (ltb grace_degradation_error age)
          (λ e' h. (edition-replay b env _ m h, ground arith))
          (λ e'.
            if_elim (Kept age m) (ltb grace_degradation_warn age)
              (λ e'' h. (edition-replay b env _ m h, ground arith))
              (λ e'' h. (edition-replay b env _ m h, ground arith))))

edition-handle_verified :
    (b : Build) (env : Moment) (m : Manager) (v : Option ℕ)
    → m.state.verified_at ≡ v
    → is_community (handle_verified b env v m).state.edition ≡ false
    → ((handle_verified b env v m).state.edition ≡ m.state.edition) × IsKept env.now m.state
unfolding handle_verified set_state_and_notify
edition-handle_verified b env m none is h = ground arith
edition-handle_verified b env m (some v) is h =
    elim (Bool-cases (has_passed m.state.expires_at env.now)) [
      | inl e ↦ ground arith
      | inr e ↦
          let kept = edition-degrade b env (env.now - v) m (ground arith) in
          (ground (arith, kept.0), (v, is, omega (arith, kept.1), e))
    ]

-- The server did not refuse: no answer, an error other than 401 and 403, or a signature that does not verify.
abbrev pub IsUnanswered : Answer → Type 0
IsUnanswered (failed code said err) = (code ≢ 401) × (code ≢ 403)
IsUnanswered (answered none) = Unit
IsUnanswered (answered (some p)) = ⊥

-- A payload in force that grants the edition.
abbrev pub IsGranted : Answer → Edition → Type 0
IsGranted (failed code said err) e = ⊥
IsGranted (answered none) e = ⊥
IsGranted (answered (some p)) e = (in_force p.status ≡ true) × (e ≡ resolve_edition p)

-- If a check leaves an edition other than Community, then the server answered with a payload that is in force
-- and grants it, or it did not refuse, the edition is the one before, the licence was verified at most
-- 60 days ago, and its date of expiry, if any, has not passed.
pub edition-check :
    (b : Build) (env : Moment) (a : Answer) (m : Manager)
    → is_community (check b env a m).state.edition ≡ false
    → IsGranted a (check b env a m).state.edition
      ⊎ (IsUnanswered a
          × ((check b env a m).state.edition ≡ m.state.edition)
          × IsKept env.now m.state)
unfolding check check_payload handle_network_error set_state_and_notify
edition-check b env (failed code said err) m h = elim (Bool-cases (code == 401)) [
  | inl e ↦ ground arith
  | inr e ↦ elim (Bool-cases (code == 403)) [
    | inl e' ↦ ground arith
    | inr e' ↦
        let (same, kept) =
          edition-handle_verified b env m m.state.verified_at refl (ground arith) in
        inr ((ground arith, ground arith), ground arith, kept)
  ]
]
edition-check b env (answered none) m h =
    let (same, kept) = edition-handle_verified b env m m.state.verified_at refl h in
    inr (tt, same, kept)
edition-check b env (answered (some p)) m h =
    inl (ground (arith, h, edition-apply_payload b env p m))
