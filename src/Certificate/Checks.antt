-- ===== src/Certificate/Checks.antt =====
-- processCheckResult of internal/certificate/service.go, with InsertCheckResult and GetLatestCheckResult of
-- internal/store/certificates.go.
use maintenant.Base.{
  ℕ, ◌+◌, ◌-◌, ◌*◌, ◌/◌, Bool, true, false, not, ◌&&◌, ◌||◌, Option, none, some, List, [], ◌∷◌, Str,
  str_eq, is_empty, ltb, leb, ◌==◌, if◌then◌else◌,
}
use maintenant.Certificate.{
  second, CertStatus, error, status_eq, CertSource, auto, standalone, label, CertMonitor,
  CertCheckResult, CheckCertificateResult, CertEvent, check_completed, status_changed,
  compute_status,
}
use maintenant.Certificate.Alerts.{evaluate_alerts}

pub data StoreCall : Type 0 where
  get_latest insert_check insert_chain update_monitor : StoreCall

-- `ocsp` is whether the edition has OCSP stapling; `comes_first` is the order in which the database returns two rows
-- of the same second.
pub record CertEnv : Type 0 where
  pub now : ℕ
  pub ocsp : Bool
  pub comes_first : CertCheckResult → CertCheckResult → Bool
  pub fails : StoreCall → Bool

-- The row of the monitor, its stored results with the last one inserted first, the number of stored chain entries, and the events.
pub record CertWorld : Type 0 where
  pub monitor : CertMonitor
  pub results : List CertCheckResult
  pub chain_entries : ℕ
  pub out : List CertEvent

abbrev pub failed_result : CertEnv → Str → CertCheckResult
failed_result env message = record {
  subject_cn = [];
  issuer_cn = [];
  issuer_org = [];
  sans = [];
  serial_number = [];
  signature_algorithm = [];
  not_before = none;
  not_after = none;
  chain_valid = none;
  chain_error = [];
  hostname_match = none;
  error_message = message;
  checked_at = env.now;
  ocsp_stapled = false;
  ocsp_status = [];
  ocsp_error = [];
}

abbrev pub scanned_result : CertEnv → CheckCertificateResult → CertCheckResult
scanned_result env raw = record {
  subject_cn = raw.subject_cn;
  issuer_cn = raw.issuer_cn;
  issuer_org = raw.issuer_org;
  sans = raw.sans;
  serial_number = raw.serial_number;
  signature_algorithm = raw.signature_algorithm;
  not_before = some raw.not_before;
  not_after = some raw.not_after;
  chain_valid = some raw.chain_valid;
  chain_error = raw.chain_error;
  hostname_match = some raw.hostname_match;
  error_message = [];
  checked_at = env.now;
  ocsp_stapled = env.ocsp && raw.ocsp_stapled;
  ocsp_status = if env.ocsp then raw.ocsp_status else [];
  ocsp_error = if env.ocsp then raw.ocsp_error else [];
}

abbrev pub result_of : CertEnv → CheckCertificateResult → CertCheckResult
result_of env raw =
    if is_empty raw.error then scanned_result env raw else failed_result env raw.error

abbrev pub is_scheduled : CertSource → Bool
is_scheduled auto = false
is_scheduled standalone = true
is_scheduled label = true

abbrev pub next_check : CertEnv → CertMonitor → Option ℕ
next_check env m =
    if is_scheduled m.source
    then some (env.now + m.check_interval_seconds * second)
    else m.next_check_at

unfoldable pub checked_monitor : CertEnv → CheckCertificateResult → CertMonitor → CertMonitor
unfolding compute_status
checked_monitor env raw m = record m {
  status =
      if is_empty raw.error
      then compute_status env.now raw.not_after m.warning_thresholds
      else error;
  last_error = raw.error;
  last_check_at = some env.now;
  next_check_at = next_check env m;
}

unfoldable pub same_list : List Str → List Str → Bool
unfolding str_eq
same_list [] [] = true
same_list [] (y ∷ ys) = false
same_list (x ∷ xs) [] = false
same_list (x ∷ xs) (y ∷ ys) = str_eq x y && same_list xs ys

abbrev pub same_second : Option ℕ → Option ℕ → Bool
same_second none none = true
same_second none (some b) = false
same_second (some a) none = false
same_second (some a) (some b) = a / second == b / second

abbrev pub bool_eq : Bool → Bool → Bool
bool_eq true b = b
bool_eq false b = not b

abbrev pub same_bool : Option Bool → Option Bool → Bool
same_bool none none = true
same_bool none (some b) = false
same_bool (some a) none = false
same_bool (some a) (some b) = bool_eq a b

unfoldable pub same_outcome : CertCheckResult → CertCheckResult → Bool
unfolding str_eq same_list
same_outcome a b =
    str_eq a.error_message b.error_message
    && str_eq a.subject_cn b.subject_cn
    && str_eq a.issuer_cn b.issuer_cn
    && str_eq a.issuer_org b.issuer_org
    && same_list a.sans b.sans
    && str_eq a.serial_number b.serial_number
    && str_eq a.signature_algorithm b.signature_algorithm
    && same_second a.not_before b.not_before
    && same_second a.not_after b.not_after
    && same_bool a.chain_valid b.chain_valid
    && str_eq a.chain_error b.chain_error
    && same_bool a.hostname_match b.hostname_match
    && bool_eq a.ocsp_stapled b.ocsp_stapled
    && str_eq a.ocsp_status b.ocsp_status
    && str_eq a.ocsp_error b.ocsp_error

-- A pushed scan is stored once per interval or when its outcome changes.
unfoldable pub is_recorded :
    CertEnv → Bool → CertMonitor → Option CertCheckResult → CertCheckResult → Bool
unfolding same_outcome
is_recorded env pushed m none r = true
is_recorded env pushed m (some previous) r =
    not pushed
    || leb (m.check_interval_seconds * second) (env.now - previous.checked_at)
    || not (same_outcome previous r)

-- A row has whole seconds.
abbrev pub to_second : ℕ → ℕ
to_second t = t / second * second

abbrev pub stored_instant : Option ℕ → Option ℕ
stored_instant none = none
stored_instant (some t) = some (to_second t)

abbrev pub stored_result : CertCheckResult → CertCheckResult
stored_result r = record r {
  not_before = stored_instant r.not_before;
  not_after = stored_instant r.not_after;
  checked_at = to_second r.checked_at;
}

-- ORDER BY checked_at DESC.
abbrev pub precedes : CertEnv → CertCheckResult → CertCheckResult → Bool
precedes env r p =
    ltb p.checked_at r.checked_at || (p.checked_at == r.checked_at && env.comes_first r p)

abbrev pub first_of : CertEnv → CertCheckResult → Option CertCheckResult → Option CertCheckResult
first_of env r none = some r
first_of env r (some p) = if precedes env r p then some r else some p

unfoldable pub latest_check_result : CertEnv → List CertCheckResult → Option CertCheckResult
latest_check_result env [] = none
latest_check_result env (r ∷ rs) = first_of env r (latest_check_result env rs)

unfoldable pub record_check_result : CertEnv → CertCheckResult → ℕ → CertWorld → CertWorld
record_check_result env r chain w = if env.fails insert_check then w else record w {
  results = stored_result r ∷ w.results;
  chain_entries =
      if chain == 0 || env.fails insert_chain then w.chain_entries else w.chain_entries + chain;
}

abbrev pub previous_of : CertEnv → CertWorld → Option CertCheckResult
previous_of env w = if env.fails get_latest then none else latest_check_result env w.results

abbrev pub completed : CertStatus → CertStatus → List CertEvent → List CertEvent
completed before after out =
    if status_eq before after
    then check_completed ∷ out
    else status_changed before after ∷ check_completed ∷ out

-- The monitor is the row that was read; where its update fails, the row keeps what it had.
unfoldable pub process_check_result :
    CertEnv → CheckCertificateResult → Bool → CertWorld → CertWorld
unfolding checked_monitor is_recorded record_check_result evaluate_alerts
process_check_result env raw pushed w =
    let r = result_of env raw in
    let m = checked_monitor env raw w.monitor in
    let previous = previous_of env w in
    let stored =
      if is_recorded env pushed m previous r then record_check_result env r raw.chain w else w in
    let (last, out) = evaluate_alerts env.now m r previous w.out in
    record stored {
      monitor =
          if env.fails update_monitor
          then w.monitor
          else record m { last_alerted_threshold = last };
      out = completed w.monitor.status m.status out;
    }
