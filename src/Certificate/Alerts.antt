-- ===== src/Certificate/Alerts.antt =====
-- evaluateAlerts of internal/certificate/service.go.
use maintenant.Base.{
  ℕ, Bool, true, false, not, ◌&&◌, ◌||◌, Option, none, some, List, [], ◌∷◌, Str, lit, str_eq,
  is_empty, ltb, if◌then◌else◌,
}
use maintenant.Certificate.{
  AlertType, chain_invalid, hostname_mismatch, ocsp_revoked, is_expired, is_expiring, CertMonitor,
  CertCheckResult, CertEvent, alert, alert_at, recovery, days_until, expiring_severity,
  crossed_threshold,
}

abbrev pub is_false : Option Bool → Bool
is_false none = false
is_false (some b) = not b

abbrev pub is_before : Option ℕ → ℕ → Bool
is_before none now = false
is_before (some t) now = ltb t now

-- certProblems; an expiry is none, since its thresholds clear it.
abbrev pub cert_problem : CertCheckResult → ℕ → AlertType → Bool
cert_problem r now chain_invalid = is_false r.chain_valid
cert_problem r now hostname_mismatch = is_false r.hostname_match
cert_problem r now ocsp_revoked = str_eq r.ocsp_status (lit "revoked")
cert_problem r now is_expired = is_before r.not_after now
cert_problem r now is_expiring = false

abbrev pub clearable_alerts : List AlertType
clearable_alerts = chain_invalid ∷ hostname_mismatch ∷ ocsp_revoked ∷ is_expired ∷ []

abbrev pub has_cleared : CertCheckResult → CertCheckResult → AlertType → Bool
has_cleared result previous t =
    not (cert_problem result result.checked_at t)
    && (cert_problem previous result.checked_at t || not (is_empty previous.error_message))

-- The newest event first, as in every list of events here.
unfoldable pub recover_each :
    CertCheckResult → CertCheckResult → List AlertType → List CertEvent → List CertEvent
recover_each result previous [] out = out
recover_each result previous (t ∷ ts) out =
    recover_each result previous ts
      (if has_cleared result previous t then recovery t ∷ out else out)

unfoldable pub recover_clearable :
    CertCheckResult → Option CertCheckResult → List CertEvent → List CertEvent
unfolding recover_each
recover_clearable result none out = out
recover_clearable result (some previous) out = recover_each result previous clearable_alerts out

abbrev pub raise_if : Bool → AlertType → List CertEvent → List CertEvent
raise_if b t out = if b then alert t ∷ out else out

-- The alerts that each check raises again.
unfoldable pub raise_problems : CertCheckResult → List CertEvent → List CertEvent
raise_problems r out = raise_if (str_eq r.ocsp_status (lit "revoked")) ocsp_revoked (
    raise_if (is_false r.hostname_match) hostname_mismatch
      (raise_if (is_false r.chain_valid) chain_invalid out))

abbrev pub is_urgent : ℕ → Option ℕ → Bool
is_urgent t none = true
is_urgent t (some last) = ltb t last

-- The threshold that was alerted last, and the events.
unfoldable pub evaluate_thresholds :
    ℕ → Str → Option ℕ → Option ℕ → List CertEvent → Option ℕ × List CertEvent
unfolding expiring_severity
evaluate_thresholds days org none none out = (none, out)
evaluate_thresholds days org none (some last) out = (none, recovery is_expiring ∷ out)
evaluate_thresholds days org (some t) last out =
    if is_urgent t last
    then (some t, alert_at t days (expiring_severity days org) ∷ out)
    else (last, out)

unfoldable pub evaluate_expiry :
    ℕ → CertMonitor → CertCheckResult → List CertEvent → Option ℕ × List CertEvent
unfolding evaluate_thresholds crossed_threshold
evaluate_expiry now m r out = elim r.not_after [
  | none ↦ (m.last_alerted_threshold, out)
  | some t ↦
      if ltb t now
      then (m.last_alerted_threshold, alert is_expired ∷ out)
      else evaluate_thresholds (days_until now t) r.issuer_org
          (crossed_threshold (days_until now t) m.warning_thresholds) m.last_alerted_threshold out
]

unfoldable pub evaluate_alerts :
    ℕ
    → CertMonitor
    → CertCheckResult
    → Option CertCheckResult
    → List CertEvent
    → Option ℕ × List CertEvent
unfolding recover_clearable raise_problems evaluate_expiry
evaluate_alerts now m r previous out =
    if not (is_empty r.error_message)
    then (m.last_alerted_threshold, out)
    else evaluate_expiry now m r (raise_problems r (recover_clearable r previous out))
