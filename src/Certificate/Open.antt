-- ===== src/Certificate/Open.antt =====
-- Which alerts of a certificate are open after a check.
pub mod Scans
pub mod Seconds
use maintenant.Base.{
  ℕ, ◌≤◌, ◌≡◌, ◌⊎◌, refl, sym, ◌∙◌, ap, subst, inl, inr, Bool, true, false, not, ◌&&◌, ◌||◌, Option,
  none, some, List, [], ◌∷◌, ◌++◌, arith, ltb, str_eq, lit, is_empty, if◌then◌else◌, if_elim, All,
  Str, Bool-cases,
}
use maintenant.Certificate.{
  CertStatus, status_eq, AlertType, chain_invalid, hostname_mismatch, ocsp_revoked, is_expired,
  is_expiring, CertMonitor, CertCheckResult, CheckCertificateResult, CertEvent, alert, alert_at,
  recovery, check_completed, status_changed, days_until, crossed_threshold, expiring_severity,
}
use maintenant.Certificate.Alerts.{
  is_false, is_before, cert_problem, clearable_alerts, has_cleared, recover_each, recover_clearable,
  raise_if, raise_problems, is_urgent, evaluate_thresholds, evaluate_expiry, evaluate_alerts,
}
use maintenant.Certificate.Checks.{
  StoreCall, get_latest, insert_check, CertEnv, CertWorld, result_of, checked_monitor, is_recorded,
  record_check_result, previous_of, completed, process_check_result, to_second, stored_instant,
  stored_result, latest_check_result,
}

abbrev pub type_eq : AlertType → AlertType → Bool
type_eq chain_invalid chain_invalid = true
type_eq hostname_mismatch hostname_mismatch = true
type_eq ocsp_revoked ocsp_revoked = true
type_eq is_expired is_expired = true
type_eq is_expiring is_expiring = true
type_eq _ _ = false

-- Whether the last event of a type is an alert.
unfoldable pub is_open : AlertType → List CertEvent → Bool
is_open t [] = false
is_open t (alert u ∷ out) = type_eq t u || is_open t out
is_open t (recovery u ∷ out) = not (type_eq t u) && is_open t out
is_open t (alert_at n days severity ∷ out) = is_open t out
is_open t (check_completed ∷ out) = is_open t out
is_open t (status_changed a b ∷ out) = is_open t out

-- A type that clears by itself.
abbrev pub is_clearable : AlertType → Bool
is_clearable is_expiring = false
is_clearable _ = true

is_open-raise_if :
    (t u : AlertType) (b : Bool) (out : List CertEvent)
    → is_open t (raise_if b u out) ≡ ((b && type_eq t u) || is_open t out)
unfolding is_open
is_open-raise_if t u b out = ground arith

abbrev recover_if : Bool → AlertType → List CertEvent → List CertEvent
recover_if b u out = if b then recovery u ∷ out else out

is_open-recover_if :
    (t u : AlertType) (b : Bool) (out : List CertEvent)
    → is_open t (recover_if b u out) ≡ (not (b && type_eq t u) && is_open t out)
unfolding is_open
is_open-recover_if t u b out = ground arith

-- Four recoveries and three alerts, each made or not, as a type sees them.
is_open-four :
    (t : AlertType) (f : AlertType → Bool) (out : List CertEvent)
    → is_clearable t ≡ true
    → is_open t (
        recover_if (f is_expired) is_expired (
          recover_if (f ocsp_revoked) ocsp_revoked (
            recover_if
              (f hostname_mismatch)
              hostname_mismatch
              (recover_if (f chain_invalid) chain_invalid out))))
      ≡ (not (f t) && is_open t out)
is_open-four chain_invalid f out h = simp (is_open-recover_if) (ground arith)
is_open-four hostname_mismatch f out h = simp (is_open-recover_if) (ground arith)
is_open-four ocsp_revoked f out h = simp (is_open-recover_if) (ground arith)
is_open-four is_expired f out h = simp (is_open-recover_if) (ground arith)
is_open-four is_expiring f out h = cc

abbrev pub has_cleared_since : CertCheckResult → Option CertCheckResult → AlertType → Bool
has_cleared_since r none t = false
has_cleared_since r (some p) t = has_cleared r p t

is_open-recover_clearable :
    (t : AlertType) (r : CertCheckResult) (previous : Option CertCheckResult) (out : List CertEvent)
    → is_clearable t ≡ true
    → is_open t (recover_clearable r previous out)
      ≡ (not (has_cleared_since r previous t) && is_open t out)
unfolding recover_clearable recover_each
is_open-recover_clearable t r none out h = refl
is_open-recover_clearable t r (some p) out h = is_open-four t (has_cleared r p) out h

is_open-evaluate_thresholds :
    (t : AlertType) (days : ℕ) (org : Str) (crossed last : Option ℕ) (out : List CertEvent)
    → is_clearable t ≡ true
    → is_open t (evaluate_thresholds days org crossed last out).1 ≡ is_open t out
unfolding evaluate_thresholds is_open
is_open-evaluate_thresholds t days org none none out h = refl
is_open-evaluate_thresholds chain_invalid days org none (some l) out h = refl
is_open-evaluate_thresholds hostname_mismatch days org none (some l) out h = refl
is_open-evaluate_thresholds ocsp_revoked days org none (some l) out h = refl
is_open-evaluate_thresholds is_expired days org none (some l) out h = refl
is_open-evaluate_thresholds is_expiring days org none (some l) out h = cc
is_open-evaluate_thresholds t days org (some c) last out h =
    if_elim (λ (p : Option ℕ × List CertEvent). is_open t p.1 ≡ is_open t out) (is_urgent c last)
      (λ _. refl) (λ _. refl)

is_open-expiry_at :
    (t : AlertType) (now e : ℕ) (m : CertMonitor) (r : CertCheckResult) (out : List CertEvent)
    → is_clearable t ≡ true
    → is_open t
        (if ltb e now
          then (m.last_alerted_threshold, alert is_expired ∷ out)
          else evaluate_thresholds
              (days_until now e)
              r.issuer_org
              (crossed_threshold (days_until now e) m.warning_thresholds)
              m.last_alerted_threshold
              out).1
      ≡ ((ltb e now && type_eq t is_expired) || is_open t out)
unfolding is_open
is_open-expiry_at t now e m r out h = elim (Bool-cases (ltb e now)) [
  | inl past ↦ rw past refl
  | inr ahead ↦ rw ahead (
      is_open-evaluate_thresholds t (days_until now e) r.issuer_org
        (crossed_threshold (days_until now e) m.warning_thresholds) m.last_alerted_threshold out h)
]

is_open-evaluate_expiry :
    (t : AlertType) (now : ℕ) (m : CertMonitor) (r : CertCheckResult) (out : List CertEvent)
    → is_clearable t ≡ true
    → is_open t (evaluate_expiry now m r out).1
      ≡ ((is_before r.not_after now && type_eq t is_expired) || is_open t out)
unfolding evaluate_expiry
is_open-evaluate_expiry t now m r out h =
    elim r.not_after
      as (λ (o : Option ℕ).
        is_open t
          (elim o as (λ _. Option ℕ × List CertEvent) [
            | none ↦ (m.last_alerted_threshold, out)
            | some e ↦
                if ltb e now
                then (m.last_alerted_threshold, alert is_expired ∷ out)
                else evaluate_thresholds (days_until now e) r.issuer_org
                    (crossed_threshold (days_until now e) m.warning_thresholds)
                    m.last_alerted_threshold out
          ]).1
        ≡ ((is_before o now && type_eq t is_expired) || is_open t out)) [
          | none ↦ refl
          | some e ↦ is_open-expiry_at t now e m r out h
        ]

is_open-raise_problems :
    (t : AlertType) (r : CertCheckResult) (out : List CertEvent)
    → is_open t (raise_problems r out) ≡ (
        (str_eq r.ocsp_status (lit "revoked") && type_eq t ocsp_revoked)
        || ((is_false r.hostname_match && type_eq t hostname_mismatch)
            || ((is_false r.chain_valid && type_eq t chain_invalid) || is_open t out)))
unfolding raise_problems
is_open-raise_problems t r out = simp (is_open-raise_if)

-- The problem of a type is one of the four.
problem_of :
    (t : AlertType) (r : CertCheckResult) (now : ℕ) (b : Bool)
    → is_clearable t ≡ true
    → ((is_before r.not_after now && type_eq t is_expired)
        || ((str_eq r.ocsp_status (lit "revoked") && type_eq t ocsp_revoked)
            || ((is_false r.hostname_match && type_eq t hostname_mismatch)
                || ((is_false r.chain_valid && type_eq t chain_invalid) || b))))
      ≡ (cert_problem r now t || b)
problem_of chain_invalid r now b h = ground arith
problem_of hostname_mismatch r now b h = ground arith
problem_of ocsp_revoked r now b h = ground arith
problem_of is_expired r now b h = ground arith
problem_of is_expiring r now b h = cc

pub is_open-evaluate_alerts :
    (t : AlertType) (now : ℕ) (m : CertMonitor) (r : CertCheckResult)
    (previous : Option CertCheckResult) (out : List CertEvent)
    → is_clearable t ≡ true
    → is_empty r.error_message ≡ true
    → is_open t (evaluate_alerts now m r previous out).1
      ≡ (cert_problem r now t || (not (has_cleared_since r previous t) && is_open t out))
unfolding evaluate_alerts
is_open-evaluate_alerts t now m r previous out h scanned =
    let recovered = recover_clearable r previous out in
    rw scanned (
      is_open-evaluate_expiry t now m r (raise_problems r recovered) h
      ∙ ap (λ (b : Bool). (is_before r.not_after now && type_eq t is_expired) || b)
          (is_open-raise_problems t r recovered)
      ∙ problem_of t r now (is_open t recovered) h
      ∙ ap (λ (b : Bool). cert_problem r now t || b) (is_open-recover_clearable t r previous out h))

-- Why an alert may be open: the latest stored scan failed, or has the problem from then on.
abbrev pub Past : AlertType → ℕ → Option CertCheckResult → Type 0
Past t since none = ⊥
Past t since (some p) =
    (is_empty p.error_message ≡ false) ⊎ ((n : ℕ) → since ≤ n → cert_problem p n t ≡ true)

-- Every stored result is of the second of `since` or of an earlier one.
abbrev pub AreBy : ℕ → CertWorld → Type 0
AreBy since w = All (λ p. p.checked_at ≤ to_second since) w.results

abbrev pub IsJustified : AlertType → ℕ → CertWorld → Type 0
IsJustified t since w =
    AreBy since w
    × ((env : CertEnv) → is_open t w.out ≡ true → Past t since (latest_check_result env w.results))

before_stays : (o : Option ℕ) (now n : ℕ) → is_before o now ≡ true → now ≤ n → is_before o n ≡ true
before_stays none now n h le = h
before_stays (some t) now n h le = ground arith

-- A problem of a scan stays one.
pub problem_stays :
    (t : AlertType) (r : CertCheckResult) (now n : ℕ)
    → cert_problem r now t ≡ true
    → now ≤ n
    → cert_problem r n t ≡ true
problem_stays chain_invalid r now n h le = h
problem_stays hostname_mismatch r now n h le = h
problem_stays ocsp_revoked r now n h le = h
problem_stays is_expired r now n h le = before_stays r.not_after now n h le
problem_stays is_expiring r now n h le = h

to_second-le : (n : ℕ) → to_second n ≤ n
to_second-le n = omega arith

expired_stored :
    (o : Option ℕ) (n : ℕ) → is_before o n ≡ true → is_before (stored_instant o) n ≡ true
expired_stored none n h = h
expired_stored (some e) n h = let le = to_second-le e in ground (arith, le)

-- A problem of a result is one of its row.
pub problem_stored :
    (t : AlertType) (r : CertCheckResult) (n : ℕ)
    → cert_problem r n t ≡ true
    → cert_problem (stored_result r) n t ≡ true
problem_stored chain_invalid r n h = h
problem_stored hostname_mismatch r n h = h
problem_stored ocsp_revoked r n h = h
problem_stored is_expired r n h = expired_stored r.not_after n h
problem_stored is_expiring r n h = h

-- What is open and has not cleared is a problem.
pub exactly_problems :
    (t : AlertType) (r : CertCheckResult) (previous : Option CertCheckResult) (since : ℕ) (b : Bool)
    → since ≤ r.checked_at
    → (b ≡ true → Past t since previous)
    → (cert_problem r r.checked_at t || (not (has_cleared_since r previous t) && b))
      ≡ cert_problem r r.checked_at t
exactly_problems t r none since b le past = ground (arith, past)
exactly_problems t r (some p) since true le past = elim (past refl) [
  | inl failed ↦ rw failed (ground arith)
  | inr stays ↦ rw (stays r.checked_at le) (ground arith)
]
exactly_problems t r (some p) since false le past = ground arith
