-- ===== src/Certificate/Falling.antt =====
-- What a run of checks tells of one certificate.
use maintenant.Base.{
  ℕ, ◌≡◌, ◌≢◌, refl, sym, ◌∙◌, ap, subst, Bool, true, false, not, Option, none, some, List, [], ◌∷◌,
  ltb, ltb→lt, ◌<◌, is_empty, if◌then◌else◌, if_elim, All, Str,
}
use maintenant.Certificate.{
  CertStatus, status_eq, AlertType, chain_invalid, hostname_mismatch, ocsp_revoked, is_expired,
  is_expiring, CertMonitor, CertCheckResult, CheckCertificateResult, CertEvent, alert, alert_at,
  recovery, check_completed, status_changed, days_until, crossed_threshold,
}
use maintenant.Certificate.Alerts.{
  clearable_alerts, has_cleared, recover_each, recover_clearable, raise_if, raise_problems,
  is_urgent, evaluate_thresholds, evaluate_expiry, evaluate_alerts,
}
use maintenant.Certificate.Checks.{
  CertEnv, CertWorld, update_monitor, result_of, checked_monitor, previous_of, completed,
  process_check_result,
}

-- The threshold of the last expiring alert, where no recovery came after it.
unfoldable pub open_threshold : List CertEvent → Option ℕ
open_threshold [] = none
open_threshold (alert_at t days severity ∷ out) = some t
open_threshold (recovery is_expiring ∷ out) = none
open_threshold (recovery chain_invalid ∷ out) = open_threshold out
open_threshold (recovery hostname_mismatch ∷ out) = open_threshold out
open_threshold (recovery ocsp_revoked ∷ out) = open_threshold out
open_threshold (recovery is_expired ∷ out) = open_threshold out
open_threshold (alert t ∷ out) = open_threshold out
open_threshold (check_completed ∷ out) = open_threshold out
open_threshold (status_changed a b ∷ out) = open_threshold out

-- A threshold below the one that was alerted last, if one was.
abbrev Below : ℕ → Option ℕ → Type 0
Below t none = Unit
Below t (some last) = t < last

is_urgent-Below : (t : ℕ) (last : Option ℕ) → is_urgent t last ≡ true → Below t last
is_urgent-Below t none _ = tt
is_urgent-Below t (some last) urgent = ltb→lt t last urgent

-- Each expiring alert is at a lower threshold than the one before, up to a recovery, and a recovery has an
-- alert before it.
unfoldable pub Falling : List CertEvent → Type 0
unfolding open_threshold
Falling [] = Unit
Falling (alert_at t days severity ∷ out) = Below t (open_threshold out) × Falling out
Falling (recovery is_expiring ∷ out) = (open_threshold out ≢ none) × Falling out
Falling (recovery chain_invalid ∷ out) = Falling out
Falling (recovery hostname_mismatch ∷ out) = Falling out
Falling (recovery ocsp_revoked ∷ out) = Falling out
Falling (recovery is_expired ∷ out) = Falling out
Falling (alert t ∷ out) = Falling out
Falling (check_completed ∷ out) = Falling out
Falling (status_changed a b ∷ out) = Falling out

-- The events tell the threshold that is kept.
abbrev Tells : Option ℕ → List CertEvent → Type 0
Tells last out = (open_threshold out ≡ last) × Falling out

Tells-recovery :
    (t : AlertType) (last : Option ℕ) (out : List CertEvent)
    → t ≢ is_expiring
    → Tells last out
    → Tells last (recovery t ∷ out)
unfolding Falling
Tells-recovery chain_invalid last out ne h = h
Tells-recovery hostname_mismatch last out ne h = h
Tells-recovery ocsp_revoked last out ne h = h
Tells-recovery is_expired last out ne h = h
Tells-recovery is_expiring last out ne h = absurd (ne refl)

Tells-alert :
    (t : AlertType) (last : Option ℕ) (out : List CertEvent)
    → Tells last out
    → Tells last (alert t ∷ out)
unfolding Falling
Tells-alert t last out h = h

Tells-recover_each :
    (r p : CertCheckResult) (last : Option ℕ) (ts : List AlertType) (out : List CertEvent)
    → All (λ t. t ≢ is_expiring) ts
    → Tells last out
    → Tells last (recover_each r p ts out)
unfolding recover_each
Tells-recover_each r p last [] out clear h = h
Tells-recover_each r p last (t ∷ ts) out clear h =
    Tells-recover_each r p last ts (if has_cleared r p t then recovery t ∷ out else out) clear.1
      (if_elim (Tells last) (has_cleared r p t) (λ _. Tells-recovery t last out clear.0 h) (λ _. h))

Tells-recover_clearable :
    (r : CertCheckResult) (previous : Option CertCheckResult) (last : Option ℕ)
    (out : List CertEvent)
    → Tells last out
    → Tells last (recover_clearable r previous out)
unfolding recover_clearable
Tells-recover_clearable r none last out h = h
Tells-recover_clearable r (some p) last out h =
    Tells-recover_each r p last clearable_alerts out
      ((λ e. cc), ((λ e. cc), ((λ e. cc), ((λ e. cc), tt)))) h

Tells-raise_if :
    (b : Bool) (t : AlertType) (last : Option ℕ) (out : List CertEvent)
    → Tells last out
    → Tells last (raise_if b t out)
Tells-raise_if b t last out h = if_elim (Tells last) b (λ _. Tells-alert t last out h) (λ _. h)

Tells-raise_problems :
    (r : CertCheckResult) (last : Option ℕ) (out : List CertEvent)
    → Tells last out
    → Tells last (raise_problems r out)
unfolding raise_problems
Tells-raise_problems r last out h =
    Tells-raise_if _ ocsp_revoked last _
      (Tells-raise_if _ hostname_mismatch last _ (Tells-raise_if _ chain_invalid last out h))

-- What an evaluation returns.
abbrev TellsPair : Option ℕ × List CertEvent → Type 0
TellsPair p = Tells p.0 p.1

Tells-evaluate_thresholds :
    (days : ℕ) (org : Str) (t last : Option ℕ) (out : List CertEvent)
    → Tells last out
    → TellsPair (evaluate_thresholds days org t last out)
unfolding evaluate_thresholds Falling
Tells-evaluate_thresholds days org none none out h = h
Tells-evaluate_thresholds days org none (some l) out h = (refl, ((λ e. cc (h.0)), h.1))
Tells-evaluate_thresholds days org (some t) last out h =
    if_elim TellsPair (is_urgent t last)
      (λ urgent. (refl, (subst (Below t) (sym h.0) (is_urgent-Below t last urgent), h.1))) (λ _. h)

Tells-evaluate_expiry :
    (now : ℕ) (m : CertMonitor) (r : CertCheckResult) (out : List CertEvent)
    → Tells m.last_alerted_threshold out
    → TellsPair (evaluate_expiry now m r out)
unfolding evaluate_expiry
Tells-evaluate_expiry now m r out h =
    elim r.not_after
      as (λ (o : Option ℕ). TellsPair (elim o [
        | none ↦ (m.last_alerted_threshold, out)
        | some t ↦
            if ltb t now
            then (m.last_alerted_threshold, alert is_expired ∷ out)
            else evaluate_thresholds (days_until now t) r.issuer_org
                (crossed_threshold (days_until now t) m.warning_thresholds) m.last_alerted_threshold
                out
      ])) [
        | none ↦ h
        | some t ↦
            if_elim TellsPair (ltb t now)
              (λ _. Tells-alert is_expired m.last_alerted_threshold out h)
              (λ _.
                Tells-evaluate_thresholds (days_until now t) r.issuer_org
                  (crossed_threshold (days_until now t) m.warning_thresholds)
                  m.last_alerted_threshold out h)
      ]

Tells-evaluate_alerts :
    (now : ℕ) (m : CertMonitor) (r : CertCheckResult) (previous : Option CertCheckResult)
    (out : List CertEvent)
    → Tells m.last_alerted_threshold out
    → TellsPair (evaluate_alerts now m r previous out)
unfolding evaluate_alerts
Tells-evaluate_alerts now m r previous out h =
    if_elim TellsPair (not (is_empty r.error_message)) (λ _. h)
      λ _. Tells-evaluate_expiry now m r (raise_problems r (recover_clearable r previous out)) (
        Tells-raise_problems r m.last_alerted_threshold (recover_clearable r previous out)
          (Tells-recover_clearable r previous m.last_alerted_threshold out h))

Tells-completed :
    (before after : CertStatus) (last : Option ℕ) (out : List CertEvent)
    → Tells last out
    → Tells last (completed before after out)
unfolding Falling
Tells-completed before after last out h =
    if_elim (Tells last) (status_eq before after) (λ _. h) (λ _. h)

Tells-process_check_result :
    (env : CertEnv) (raw : CheckCertificateResult) (pushed : Bool) (w : CertWorld)
    → env.fails update_monitor ≡ false
    → Tells w.monitor.last_alerted_threshold w.out
    → Tells
        (process_check_result env raw pushed w).monitor.last_alerted_threshold
        (process_check_result env raw pushed w).out
unfolding process_check_result checked_monitor
Tells-process_check_result env raw pushed w works h =
    let m = checked_monitor env raw w.monitor in
    let p = evaluate_alerts env.now m (result_of env raw) (previous_of env w) w.out in
    let told =
      Tells-completed w.monitor.status m.status p.0 p.1
        (Tells-evaluate_alerts env.now m (result_of env raw) (previous_of env w) w.out h) in
    rw works told

-- One check: what it meets, what the scan returned, and whether it was pushed.
abbrev pub Check : Type 0
Check = CertEnv × CheckCertificateResult × Bool

unfoldable pub check_all : List Check → CertWorld → CertWorld
unfolding process_check_result
check_all [] w = w
check_all ((env, raw, pushed) ∷ xs) w = check_all xs (process_check_result env raw pushed w)

Tells-check_all :
    (xs : List Check) (w : CertWorld)
    → All (λ (x : Check). x.0.fails update_monitor ≡ false) xs
    → Tells w.monitor.last_alerted_threshold w.out
    → Tells (check_all xs w).monitor.last_alerted_threshold (check_all xs w).out
unfolding check_all
Tells-check_all [] w works h = h
Tells-check_all ((env, raw, pushed) ∷ xs) w works h =
    Tells-check_all xs (process_check_result env raw pushed w) works.1
      (Tells-process_check_result env raw pushed w works.0 h)

-- If no alert was told of and no threshold is kept, and the updates of the monitor succeed, then over any checks,
-- failed or not, each alert of an expiry is at a lower threshold than the one before it, or is the first or
-- the first after a recovery; each recovery of an expiry has such an alert before it; and the threshold that
-- is kept is that of the last alert with no recovery after it.
pub Falling-check_all :
    (xs : List Check) (w : CertWorld)
    → All (λ (x : Check). x.0.fails update_monitor ≡ false) xs
    → w.out ≡ []
    → w.monitor.last_alerted_threshold ≡ none
    → Falling (check_all xs w).out
      × (open_threshold (check_all xs w).out ≡ (check_all xs w).monitor.last_alerted_threshold)
unfolding Falling
Falling-check_all xs w works quiet fresh =
    let start : Tells w.monitor.last_alerted_threshold w.out =
      (ap open_threshold quiet ∙ sym fresh, subst Falling (sym quiet) tt) in
    let h = Tells-check_all xs w works start in (h.1, h.0)
