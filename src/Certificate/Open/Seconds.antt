-- ===== src/Certificate/Open/Seconds.antt =====
-- Two checks of a certificate in one second.
use maintenant.Base.{◌≡◌, sym, ◌∙◌, ap, true, false, some, List, ◌∷◌, arith, is_empty}
use maintenant.Certificate.{AlertType, CertCheckResult, CheckCertificateResult}
use maintenant.Certificate.Alerts.{cert_problem}
use maintenant.Certificate.Checks.{
  CertEnv, CertWorld, result_of, process_check_result, to_second, stored_result, first_of,
  latest_check_result,
}
use maintenant.Certificate.Open.{is_open, is_clearable}
use maintenant.Certificate.Open.Scans.{
  AllWork, results-process_check_result, checked_at-result_of, compared_stays_open,
}

older_read :
    (env : CertEnv) (r p : CertCheckResult)
    → p.checked_at ≡ r.checked_at
    → env.comes_first r p ≡ false
    → first_of env r (some p) ≡ some p
older_read env r p same later = ground (arith, same, later)

older_latest :
    (env : CertEnv) (r p : CertCheckResult) (rs : List CertCheckResult)
    → latest_check_result env rs ≡ some p
    → p.checked_at ≡ r.checked_at
    → env.comes_first r p ≡ false
    → latest_check_result env (r ∷ rs) ≡ some p
unfolding latest_check_result
older_latest env r p rs read same later = ap (first_of env r) read ∙ older_read env r p same later

-- If a scan finds a problem in the same second as the latest stored result, which is of a successful scan without
-- the problem, and every call of the store for that scan succeeds, but the database returns the older row of the two to the next
-- scan, then that scan does not recover the alert although it succeeds without the problem, when it is not pushed.
pub same_second_stays_open :
    (t : AlertType) (e₁ e₂ : CertEnv) (x₁ x₂ : CheckCertificateResult) (p : CertCheckResult)
    (w : CertWorld)
    → is_clearable t ≡ true
    → AllWork e₁
    → is_empty x₁.error ≡ true
    → is_empty x₂.error ≡ true
    → cert_problem (result_of e₁ x₁) e₁.now t ≡ true
    → latest_check_result e₂ w.results ≡ some p
    → p.checked_at ≡ to_second e₁.now
    → e₂.comes_first (stored_result (result_of e₁ x₁)) p ≡ false
    → is_empty p.error_message ≡ true
    → cert_problem p e₂.now t ≡ false
    → is_open t (process_check_result e₂ x₂ false (process_check_result e₁ x₁ false w)).out ≡ true
same_second_stays_open t e₁ e₂ x₁ x₂ p w h works ok₁ ok₂ bad read same later fine before =
    let row = stored_result (result_of e₁ x₁) in
    let its_second : row.checked_at ≡ to_second e₁.now =
      ap to_second (checked_at-result_of e₁ x₁) in
    compared_stays_open t e₁ e₂ x₁ x₂ p w h ok₁ ok₂ bad
      (ap (latest_check_result e₂) (results-process_check_result e₁ x₁ w works)
        ∙ older_latest e₂ row p w.results read (same ∙ sym its_second) later)
      fine before
