-- ===== src/Certificate.antt =====
-- The results of certificate checks: processCheckResult of internal/certificate/service.go with the rules of
-- internal/certificate/model.go, on one monitor. Instants are nanoseconds; one reading of the clock stands for those
-- of a call. The fields that name the monitor, and the OCSP times that are only shown, are left out.
pub mod Alerts
pub mod Checks
pub mod Thresholds
pub mod Falling
pub mod Latest
pub mod Open
use maintenant.Base.{
  ℕ, ◌+◌, ◌-◌, ◌*◌, ◌/◌, Bool, true, false, not, ◌&&◌, ◌||◌, Option, none, some, List, [], ◌∷◌, Str,
  lit, str_eq, is_empty, any, ltb, leb, ◌==◌, if◌then◌else◌,
}

abbrev pub second : ℕ
second = 1000000000

abbrev pub day : ℕ
day = 86400 * second

pub data CertStatus : Type 0 where
  valid expiring expired error unknown : CertStatus

abbrev pub status_eq : CertStatus → CertStatus → Bool
status_eq valid valid = true
status_eq expiring expiring = true
status_eq expired expired = true
status_eq error error = true
status_eq unknown unknown = true
status_eq _ _ = false

pub data CertSource : Type 0 where
  auto standalone label : CertSource

pub data AlertType : Type 0 where
  chain_invalid hostname_mismatch ocsp_revoked is_expired is_expiring : AlertType

pub data Severity : Type 0 where
  critical warning info : Severity

pub record CertMonitor : Type 0 where
  pub source : CertSource
  pub status : CertStatus
  pub check_interval_seconds : ℕ
  pub warning_thresholds : List ℕ
  pub last_alerted_threshold : Option ℕ
  pub last_check_at : Option ℕ
  pub next_check_at : Option ℕ
  pub last_error : Str

pub record CertCheckResult : Type 0 where
  pub subject_cn : Str
  pub issuer_cn : Str
  pub issuer_org : Str
  pub sans : List Str
  pub serial_number : Str
  pub signature_algorithm : Str
  pub not_before : Option ℕ
  pub not_after : Option ℕ
  pub chain_valid : Option Bool
  pub chain_error : Str
  pub hostname_match : Option Bool
  pub error_message : Str
  pub checked_at : ℕ
  pub ocsp_stapled : Bool
  pub ocsp_status : Str
  pub ocsp_error : Str

-- What a scan returned; `chain` has the length of the chain that is stored with it.
pub record CheckCertificateResult : Type 0 where
  pub error : Str
  pub subject_cn : Str
  pub issuer_cn : Str
  pub issuer_org : Str
  pub sans : List Str
  pub serial_number : Str
  pub signature_algorithm : Str
  pub not_before : ℕ
  pub not_after : ℕ
  pub chain_valid : Bool
  pub chain_error : Str
  pub hostname_match : Bool
  pub ocsp_stapled : Bool
  pub ocsp_status : Str
  pub ocsp_error : Str
  pub chain : ℕ

-- The events that are broadcast. An alert at a threshold has it, the days that are left and its severity.
pub data CertEvent : Type 0 where
  alert : AlertType → CertEvent
  alert_at : ℕ → ℕ → Severity → CertEvent
  recovery : AlertType → CertEvent
  check_completed : CertEvent
  status_changed : CertStatus → CertStatus → CertEvent

-- time.Until in whole days, of an instant that is not past.
abbrev pub days_until : ℕ → ℕ → ℕ
days_until now t = (t - now) / day

abbrev pub lower_byte : ℕ → ℕ
lower_byte c = if leb b'A' c && leb c b'Z' then c + 32 else c

-- strings.ToLower on ASCII.
unfoldable pub to_lower : Str → Str
to_lower [] = []
to_lower (c ∷ cs) = lower_byte c ∷ to_lower cs

unfoldable pub has_prefix : Str → Str → Bool
has_prefix s [] = true
has_prefix [] (p ∷ ps) = false
has_prefix (c ∷ cs) (p ∷ ps) = c == p && has_prefix cs ps

unfoldable pub contains : Str → Str → Bool
unfolding has_prefix
contains [] sub = has_prefix [] sub
contains (c ∷ cs) sub = has_prefix (c ∷ cs) sub || contains cs sub

abbrev pub auto_renewable_issuers : List Str
auto_renewable_issuers =
    lit "let's encrypt" ∷ lit "zerossl" ∷ lit "buypass" ∷ lit "google trust services" ∷ []

unfoldable pub is_auto_renewable : Str → Bool
unfolding to_lower contains any
is_auto_renewable org = any (contains (to_lower org)) auto_renewable_issuers

unfoldable pub expiring_severity : ℕ → Str → Severity
unfolding is_auto_renewable
expiring_severity days org =
    if is_auto_renewable org
    then (if leb days 3 then critical else if leb days 7 then warning else info)
    else if leb days 7
    then critical
    else if leb days 14
    then warning
    else info

-- sort.Sort(sort.Reverse(...)).
unfoldable pub insert_down : ℕ → List ℕ → List ℕ
insert_down t [] = t ∷ []
insert_down t (x ∷ xs) = let rest = insert_down t xs in if leb x t then t ∷ x ∷ xs else x ∷ rest

unfoldable pub sort_down : List ℕ → List ℕ
unfolding insert_down
sort_down [] = []
sort_down (x ∷ xs) = insert_down x (sort_down xs)

-- computeStatus
unfoldable pub compute_status : ℕ → ℕ → List ℕ → CertStatus
unfolding sort_down any
compute_status now not_after thresholds =
    if ltb not_after now
    then expired
    else if any (leb (days_until now not_after)) (sort_down thresholds)
    then expiring
    else valid

-- The loop that ends on the last threshold which the days are within.
unfoldable pub last_crossed : ℕ → Option ℕ → List ℕ → Option ℕ
last_crossed days found [] = found
last_crossed days found (t ∷ ts) = last_crossed days (if leb days t then some t else found) ts

unfoldable pub crossed_threshold : ℕ → List ℕ → Option ℕ
unfolding last_crossed sort_down
crossed_threshold days thresholds = last_crossed days none (sort_down thresholds)
