-- ===== src/Tests/Certificates.antt =====
-- internal/certificate on a certificate whose chain breaks and that runs out.
use maintenant.Base.{ℕ, ◌*◌, ◌≡◌, refl, true, false, none, some, List, [], ◌∷◌, arith, lit, Bool}
use maintenant.Certificate.{
  day, valid, expiring, unknown, standalone, chain_invalid, CheckCertificateResult, compute_status,
  crossed_threshold, days_until,
}
use maintenant.Certificate.Alerts.{cert_problem}
use maintenant.Certificate.Checks.{
  StoreCall, insert_check, CertEnv, CertWorld, result_of, stored_result, latest_check_result,
  process_check_result,
}
use maintenant.Certificate.Thresholds.{least_within, crossed_threshold-least_within}
use maintenant.Certificate.Falling.{Check, check_all, Falling, open_threshold, Falling-check_all}
use maintenant.Certificate.Open.{is_open}
use maintenant.Certificate.Open.Seconds.{same_second_stays_open}
use maintenant.Certificate.Open.Scans.{scan_all, open-problems, unstored_stays_open}

abbrev at : ℕ → CertEnv
at n = record { now = n * day; ocsp = true; comes_first = λ a b. true; fails = λ c. false }

abbrev is_insert : StoreCall → Bool
is_insert insert_check = true
is_insert _ = false

-- The database is full.
abbrev full : ℕ → CertEnv
full n = record { now = n * day; ocsp = true; comes_first = λ a b. true; fails = is_insert }

abbrev scan : Bool → CheckCertificateResult
scan chain = record {
  error = [];
  subject_cn = lit "example.org";
  issuer_cn = lit "R3";
  issuer_org = lit "Let's Encrypt";
  sans = [];
  serial_number = lit "1";
  signature_algorithm = [];
  not_before = 0;
  not_after = 90 * day;
  chain_valid = chain;
  chain_error = [];
  hostname_match = true;
  ocsp_stapled = false;
  ocsp_status = [];
  ocsp_error = [];
  chain = 2;
}

abbrev fresh : CertWorld
fresh = record {
  monitor = record {
    source = standalone;
    status = unknown;
    check_interval_seconds = 43200;
    warning_thresholds = 30 ∷ 14 ∷ 7 ∷ 3 ∷ 1 ∷ [];
    last_alerted_threshold = none;
    last_check_at = none;
    next_check_at = none;
    last_error = [];
  };
  results = [];
  chain_entries = 0;
  out = [];
}

crossed_threshold-least_within_example :
    (crossed_threshold (days_until (80 * day) (90 * day)) (30 ∷ 14 ∷ 7 ∷ [])
      ≡ least_within (days_until (80 * day) (90 * day)) (30 ∷ 14 ∷ 7 ∷ []))
    × (compute_status (80 * day) (90 * day) (30 ∷ 14 ∷ 7 ∷ [])
        ≡ (elim (least_within (days_until (80 * day) (90 * day)) (30 ∷ 14 ∷ 7 ∷ [])) [
          | none ↦ valid
          | some t ↦ expiring
        ]))
crossed_threshold-least_within_example =
    crossed_threshold-least_within (80 * day) (90 * day) (30 ∷ 14 ∷ 7 ∷ []) (omega arith)

-- Two alerts, at 14 days and at 7.
abbrev waning : List Check
waning = (at 10, scan true, false) ∷ (at 80, scan true, false) ∷ (at 85, scan true, false) ∷ []

waning_threshold : (check_all waning fresh).monitor.last_alerted_threshold ≡ some 7
unfolding check_all
waning_threshold = refl

Falling-check_all_example :
    Falling (check_all waning fresh).out
    × (open_threshold (check_all waning fresh).out
        ≡ (check_all waning fresh).monitor.last_alerted_threshold)
Falling-check_all_example = Falling-check_all waning fresh (refl, (refl, (refl, tt))) refl refl

open-problems_example :
    is_open chain_invalid (scan_all ((at 1, scan true) ∷ (at 2, scan false) ∷ []) fresh).out
    ≡ cert_problem (result_of (at 2) (scan false)) (2 * day) chain_invalid
open-problems_example =
    open-problems chain_invalid 0 ((at 1, scan true) ∷ []) (at 2) (scan false) fresh refl refl tt
      ((λ c. refl), omega arith, ((λ c. refl), omega arith, tt)) refl

abbrev scanned_once : CertWorld
scanned_once = record fresh { results = stored_result (result_of (at 1) (scan true)) ∷ [] }

unstored_stays_open_example :
    is_open chain_invalid
      (process_check_result
        (at 3)
        (scan true)
        false
        (process_check_result (full 2) (scan false) false scanned_once)).out
    ≡ true
unstored_stays_open_example =
    unfold latest_check_result in
    unstored_stays_open chain_invalid (full 2) (at 3) (scan false) (scan true)
      (stored_result (result_of (at 1) (scan true))) scanned_once refl refl refl refl refl refl refl
      refl

-- Rows of one second in the order in which they were written.
abbrev oldest_first : ℕ → CertEnv
oldest_first n = record {
  now = n * day;
  ocsp = true;
  comes_first = λ a b. false;
  fails = λ c. false;
}

same_second_stays_open_example :
    is_open chain_invalid
      (process_check_result
        (oldest_first 3)
        (scan true)
        false
        (process_check_result (at 1) (scan false) false scanned_once)).out
    ≡ true
same_second_stays_open_example =
    unfold latest_check_result in
    same_second_stays_open chain_invalid (at 1) (oldest_first 3) (scan false) (scan true)
      (stored_result (result_of (at 1) (scan true))) scanned_once refl (λ c. refl) refl refl refl
      refl refl refl refl refl
