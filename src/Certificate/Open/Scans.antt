-- ===== src/Certificate/Open/Scans.antt =====
-- The alerts that are open after a run of scans.
use maintenant.Base.{
  ℕ, ◌≤◌, ◌<◌, ◌≡◌, refl, sym, ◌∙◌, ap, subst, inl, inr, true, false, not, ◌&&◌, ◌||◌, Option, none,
  some, List, [], ◌∷◌, ◌++◌, arith, is_empty, if_elim, Bool-cases, All,
}
use maintenant.Certificate.{
  CertStatus, status_eq, AlertType, CertMonitor, CertCheckResult, CheckCertificateResult, CertEvent,
}
use maintenant.Certificate.Alerts.{cert_problem, evaluate_alerts}
use maintenant.Certificate.Checks.{
  StoreCall, get_latest, insert_check, CertEnv, CertWorld, result_of, checked_monitor, is_recorded,
  record_check_result, previous_of, completed, process_check_result, to_second, stored_result,
  latest_check_result,
}
use maintenant.Certificate.Latest.{latest-newer, older_rows, rows_by, later_second}
use maintenant.Certificate.Open.{
  is_open, is_clearable, has_cleared_since, is_open-evaluate_alerts, Past, IsJustified, AreBy,
  problem_stays, problem_stored, exactly_problems,
}

is_open-completed :
    (t : AlertType) (before after : CertStatus) (out : List CertEvent)
    → is_open t (completed before after out) ≡ is_open t out
unfolding is_open
is_open-completed t before after out =
    if_elim (λ (l : List CertEvent). is_open t l ≡ is_open t out) (status_eq before after)
      (λ _. refl) (λ _. refl)

abbrev pub AllWork : CertEnv → Type 0
AllWork env = (c : StoreCall) → env.fails c ≡ false

recorded_unless_pushed :
    (env : CertEnv) (m : CertMonitor) (previous : Option CertCheckResult) (r : CertCheckResult)
    → is_recorded env false m previous r ≡ true
unfolding is_recorded
recorded_unless_pushed env m none r = refl
recorded_unless_pushed env m (some p) r = refl

pub results-process_check_result :
    (env : CertEnv) (raw : CheckCertificateResult) (w : CertWorld)
    → AllWork env
    → (process_check_result env raw false w).results ≡ stored_result (result_of env raw) ∷ w.results
unfolding process_check_result record_check_result
results-process_check_result env raw w works =
    let r = result_of env raw in
    let m = checked_monitor env raw w.monitor in
    rw (recorded_unless_pushed env m (previous_of env w) r) (rw (works insert_check) refl)

pub checked_at-result_of :
    (env : CertEnv) (raw : CheckCertificateResult) → (result_of env raw).checked_at ≡ env.now
checked_at-result_of env raw =
    if_elim (λ (r : CertCheckResult). r.checked_at ≡ env.now) (is_empty raw.error) (λ _. refl)
      (λ _. refl)

-- The events of one check, as a type sees them.
is_open-process :
    (t : AlertType) (env : CertEnv) (raw : CheckCertificateResult) (w : CertWorld)
    → is_open t (process_check_result env raw false w).out
      ≡ is_open t
          (evaluate_alerts env.now
            (checked_monitor env raw w.monitor)
            (result_of env raw)
            (previous_of env w)
            w.out).1
unfolding process_check_result
is_open-process t env raw w =
    is_open-completed t w.monitor.status (checked_monitor env raw w.monitor).status
      (evaluate_alerts env.now (checked_monitor env raw w.monitor) (result_of env raw)
        (previous_of env w) w.out).1

open-scanned :
    (t : AlertType) (since : ℕ) (env : CertEnv) (raw : CheckCertificateResult) (w : CertWorld)
    → is_clearable t ≡ true
    → AllWork env
    → to_second since < to_second env.now
    → is_empty raw.error ≡ true
    → IsJustified t since w
    → is_open t (process_check_result env raw false w).out
      ≡ cert_problem (result_of env raw) env.now t
open-scanned t since env raw w h works lt scanned past =
    let r = result_of env raw in
    let at_now = checked_at-result_of env raw in
    let no_error : is_empty r.error_message ≡ true = rw scanned refl in
    let previous_is : previous_of env w ≡ latest_check_result env w.results =
      rw (works get_latest) refl in
    is_open-process t env raw w
    ∙ is_open-evaluate_alerts t env.now (checked_monitor env raw w.monitor) r (previous_of env w)
        w.out h no_error
    ∙ subst
        (λ (n : ℕ).
          (cert_problem r n t
            || (not (has_cleared_since r (previous_of env w) t) && is_open t w.out))
          ≡ cert_problem r n t)
        at_now
        (exactly_problems t r (previous_of env w) since (is_open t w.out)
          (subst (λ (n : ℕ). since ≤ n) (sym at_now) (later_second since env.now lt))
          (subst (λ (o : Option CertCheckResult). is_open t w.out ≡ true → Past t since o)
            (sym previous_is) (past.1 env)))

-- The row of a check is the only one of its second, and justifies what is open.
Past-recorded :
    (t : AlertType) (since : ℕ) (env : CertEnv) (raw : CheckCertificateResult) (w : CertWorld)
    → is_clearable t ≡ true
    → AllWork env
    → to_second since < to_second env.now
    → IsJustified t since w
    → is_open t (process_check_result env raw false w).out ≡ true
    → Past t env.now (some (stored_result (result_of env raw)))
Past-recorded t since env raw w h works lt past is_it_open =
    elim (Bool-cases (is_empty raw.error)) [
      | inl scanned ↦ inr λ n later. problem_stored t (result_of env raw) n (
          problem_stays t (result_of env raw) env.now n
            (sym (open-scanned t since env raw w h works lt scanned past) ∙ is_it_open) later)
      | inr failed ↦ inl (rw failed failed)
    ]

IsJustified-process :
    (t : AlertType) (since : ℕ) (env : CertEnv) (raw : CheckCertificateResult) (w : CertWorld)
    → is_clearable t ≡ true
    → AllWork env
    → to_second since < to_second env.now
    → IsJustified t since w
    → IsJustified t env.now (process_check_result env raw false w)
IsJustified-process t since env raw w h works lt past =
    let row = stored_result (result_of env raw) in
    let rows = results-process_check_result env raw w works in
    let its_second : row.checked_at ≡ to_second env.now =
      ap to_second (checked_at-result_of env raw) in
    let older : All (λ p. p.checked_at < row.checked_at) w.results =
      subst (λ (n : ℕ). All (λ p. p.checked_at < n) w.results) (sym its_second)
        (older_rows (to_second since) (to_second env.now) w.results lt past.0) in
    (
      subst (All (λ p. p.checked_at ≤ to_second env.now)) (sym rows) (
        omega (arith, its_second),
        rows_by (to_second since) (to_second env.now) w.results lt past.0,
      ),
      λ later_env is_it_open.
          subst (Past t env.now)
            (sym (
              ap (latest_check_result later_env) rows ∙ latest-newer later_env row w.results older))
            (Past-recorded t since env raw w h works lt past is_it_open),
    )

-- One check that is not pushed: what it meets, and what the scan returned.
unfoldable pub scan_all : List (CertEnv × CheckCertificateResult) → CertWorld → CertWorld
unfolding process_check_result
scan_all [] w = w
scan_all ((env, raw) ∷ xs) w = scan_all xs (process_check_result env raw false w)

-- Every call of the store succeeds, and each check is in a later second than the one before.
abbrev pub IsTimely : ℕ → List (CertEnv × CheckCertificateResult) → Type 0
IsTimely since [] = Unit
IsTimely since ((env, raw) ∷ xs) =
    AllWork env × (to_second since < to_second env.now) × IsTimely env.now xs

open-scan_all :
    (t : AlertType) (since : ℕ) (xs : List (CertEnv × CheckCertificateResult)) (env : CertEnv)
    (raw : CheckCertificateResult) (w : CertWorld)
    → is_clearable t ≡ true
    → IsTimely since (xs ++ (env, raw) ∷ [])
    → is_empty raw.error ≡ true
    → IsJustified t since w
    → is_open t (scan_all (xs ++ (env, raw) ∷ []) w).out
      ≡ cert_problem (result_of env raw) env.now t
unfolding scan_all
open-scan_all t since [] env raw w h timely scanned past =
    open-scanned t since env raw w h timely.0 timely.1 scanned past
open-scan_all t since ((e, x) ∷ xs) env raw w h timely scanned past =
    open-scan_all t e.now xs env raw (process_check_result e x false w) h timely.2 scanned
      (IsJustified-process t since e x w h timely.0 timely.1 past)

-- If no event was told of before, then after any scans of which none is pushed and the last succeeds, where every call
-- of the store succeeds and each scan is in a later second than the scan before it and than the stored
-- results, the alerts of an invalid chain, of a wrong name, of
-- a revocation and of a past expiry are each open exactly if the last scan has that problem.
pub open-problems :
    (t : AlertType) (since : ℕ) (xs : List (CertEnv × CheckCertificateResult)) (env : CertEnv)
    (raw : CheckCertificateResult) (w : CertWorld)
    → is_clearable t ≡ true
    → w.out ≡ []
    → AreBy since w
    → IsTimely since (xs ++ (env, raw) ∷ [])
    → is_empty raw.error ≡ true
    → is_open t (scan_all (xs ++ (env, raw) ∷ []) w).out
      ≡ cert_problem (result_of env raw) env.now t
open-problems t since xs env raw w h quiet old timely scanned =
    open-scan_all t since xs env raw w h timely scanned (
      old,
      λ e is_it_open.
          let shut : is_open t w.out ≡ false = ap (is_open t) quiet ∙ unfold is_open in refl in
          absurd (unfold is_open in cc (shut, is_it_open)),
    )

results_unless_stored :
    (env : CertEnv) (raw : CheckCertificateResult) (w : CertWorld)
    → env.fails insert_check ≡ true
    → (process_check_result env raw false w).results ≡ w.results
unfolding process_check_result record_check_result
results_unless_stored env raw w lost =
    let m = checked_monitor env raw w.monitor in
    rw (recorded_unless_pushed env m (previous_of env w) (result_of env raw)) (rw lost refl)

-- Two scans, of which the second compares itself with a result without the problem of the first.
pub compared_stays_open :
    (t : AlertType) (e₁ e₂ : CertEnv) (x₁ x₂ : CheckCertificateResult) (p : CertCheckResult)
    (w : CertWorld)
    → is_clearable t ≡ true
    → is_empty x₁.error ≡ true
    → is_empty x₂.error ≡ true
    → cert_problem (result_of e₁ x₁) e₁.now t ≡ true
    → latest_check_result e₂ (process_check_result e₁ x₁ false w).results ≡ some p
    → is_empty p.error_message ≡ true
    → cert_problem p e₂.now t ≡ false
    → is_open t (process_check_result e₂ x₂ false (process_check_result e₁ x₁ false w)).out ≡ true
compared_stays_open t e₁ e₂ x₁ x₂ p w h ok₁ ok₂ bad read fine before =
    let w₁ = process_check_result e₁ x₁ false w in
    let r₁ = result_of e₁ x₁ in
    let r₂ = result_of e₂ x₂ in
    let no_error₁ : is_empty r₁.error_message ≡ true = rw ok₁ refl in
    let no_error₂ : is_empty r₂.error_message ≡ true = rw ok₂ refl in
    let at_now : r₂.checked_at ≡ e₂.now = rw ok₂ refl in
    let raised : is_open t w₁.out ≡ true =
      is_open-process t e₁ x₁ w
      ∙ is_open-evaluate_alerts t e₁.now (checked_monitor e₁ x₁ w.monitor) r₁ (previous_of e₁ w)
          w.out h no_error₁
      ∙ rw bad refl in
    let uncleared : has_cleared_since r₂ (previous_of e₂ w₁) t ≡ false = rw read (
      if_elim (λ (o : Option CertCheckResult). has_cleared_since r₂ o t ≡ false)
        (e₂.fails get_latest) (λ _. refl) (λ _. rw (at_now, before, fine) (ground arith))) in
    is_open-process t e₂ x₂ w₁
    ∙ is_open-evaluate_alerts t e₂.now (checked_monitor e₂ x₂ w₁.monitor) r₂ (previous_of e₂ w₁)
        w₁.out h no_error₂
    ∙ rw (uncleared, raised) (ground arith)

-- If a scan finds a problem and its result cannot be stored, and the latest stored result is of a
-- successful scan without the problem, then the next scan that is not pushed does not recover the alert although it
-- succeeds without the problem.
pub unstored_stays_open :
    (t : AlertType) (e₁ e₂ : CertEnv) (x₁ x₂ : CheckCertificateResult) (p : CertCheckResult)
    (w : CertWorld)
    → is_clearable t ≡ true
    → e₁.fails insert_check ≡ true
    → is_empty x₁.error ≡ true
    → is_empty x₂.error ≡ true
    → cert_problem (result_of e₁ x₁) e₁.now t ≡ true
    → latest_check_result e₂ w.results ≡ some p
    → is_empty p.error_message ≡ true
    → cert_problem p e₂.now t ≡ false
    → is_open t (process_check_result e₂ x₂ false (process_check_result e₁ x₁ false w)).out ≡ true
unstored_stays_open t e₁ e₂ x₁ x₂ p w h lost ok₁ ok₂ bad stored fine before =
    compared_stays_open t e₁ e₂ x₁ x₂ p w h ok₁ ok₂ bad
      (ap (latest_check_result e₂) (results_unless_stored e₁ x₁ w lost) ∙ stored) fine before
