-- ===== src/Endpoint/Checks.antt =====
-- ProcessCheckResult of internal/endpoint/service.go, with EvaluateCheckResult of
-- internal/alert/endpoint_alerts.go behind its callback and UpdateCheckResult of
-- internal/store/endpoints.go. What a row has beside its status, its counters and its alert state is
-- left out; so is the alert on a certificate that is not trusted, which the callback sends as well. A
-- result that is delivered again, which replaces its row in the store, is a second entry here.
pub mod Alternation
use maintenant.Base.{
  ℕ, ◌+◌, Bool, true, false, not, ◌&&◌, Option, none, some, List, [], ◌∷◌, Str, Str_eq, leb,
  if◌then◌else◌,
}
use maintenant.Base.Map.{Map, lookup, insert}

pub data EndpointStatus : Type 0 where
  up down degraded unknown : EndpointStatus

pub record Endpoint : Type 0 where
  pub status : EndpointStatus
  pub alerting : Bool
  pub consecutive_failures : ℕ
  pub consecutive_successes : ℕ
  pub failure_threshold : ℕ
  pub recovery_threshold : ℕ

pub record CheckResult : Type 0 where
  pub success : Bool
  pub degraded : Bool
  pub replayed : Bool

-- The two alerts go to the callback; the rest are the events of the service.
pub data Signal : Type 0 where
  status_changed : Str → EndpointStatus → EndpointStatus → Signal
  threshold_alert threshold_recovery : Str → Signal
  alert_event recovery_event : Str → Signal

-- The calls of the store that may fail.
pub data Call : Type 0 where
  get update insert_result get_again update_again : Call

-- `out` has the newest signal first.
pub record World : Type 0 where
  pub endpoints : Map Str Endpoint
  pub results : List (Str × CheckResult)
  pub out : List Signal

abbrev pub emit : Signal → World → World
emit x w = record w { out = x ∷ w.out }

abbrev pub same_status : EndpointStatus → EndpointStatus → Bool
same_status up up = true
same_status down down = true
same_status degraded degraded = true
same_status unknown unknown = true
same_status _ _ = false

unfoldable pub status_for_result : CheckResult → EndpointStatus
status_for_result r = if r.success && r.degraded then degraded else (if r.success then up else down)

-- The counters after the result.
unfoldable pub counted : Endpoint → CheckResult → Endpoint
counted ep r = record ep {
  status = status_for_result r;
  consecutive_failures = if r.success then 0 else ep.consecutive_failures + 1;
  consecutive_successes = if r.success then ep.consecutive_successes + 1 else 0;
}

pub data Verdict : Type 0 where
  silent alert recovery : Verdict

unfoldable pub evaluate_check_result : Endpoint → CheckResult → Verdict
evaluate_check_result ep r =
    if not r.success
    then (if leb ep.failure_threshold ep.consecutive_failures && not ep.alerting
        then alert
        else silent)
    else (if leb ep.recovery_threshold ep.consecutive_successes && ep.alerting
        then recovery
        else silent)

module _ (f : Call → Bool) where
  unfoldable pub write : Call → Str → Endpoint → World → World
  write call id ep w = if f call then w else record w { endpoints = insert id ep w.endpoints }

  unfoldable pub record_result : Str → CheckResult → World → World
  record_result id r w = if f insert_result then w else record w { results = (id, r) ∷ w.results }

  -- What follows the verdict on the row that was read again.
  unfoldable pub tell : Str → EndpointStatus → Endpoint → Verdict → World → World
  unfolding write
  tell id status ep silent w = w
  tell id status ep alert w = emit (alert_event id) (
      write update_again id (record ep { status = status; alerting = true })
        (emit (threshold_alert id) w))
  tell id status ep recovery w = emit (recovery_event id) (
      write update_again id (record ep { status = status; alerting = false })
        (emit (threshold_recovery id) w))

  unfoldable pub reevaluate : Str → CheckResult → Option Endpoint → World → World
  unfolding tell evaluate_check_result
  reevaluate id r none w = w
  reevaluate id r (some ep) w = tell id (status_for_result r) ep (evaluate_check_result ep r) w

  unfoldable pub note_status : Str → EndpointStatus → EndpointStatus → World → World
  note_status id previous status w =
      if same_status status previous then w else emit (status_changed id previous status) w

  unfoldable pub process_live : Str → CheckResult → Endpoint → World → World
  unfolding write record_result note_status counted status_for_result
  process_live id r ep w =
      note_status id ep.status (status_for_result r)
        (record_result id r (write update id (counted ep r) w))

  unfoldable pub process_found : Str → CheckResult → Option Endpoint → World → World
  unfolding process_live reevaluate record_result
  process_found id r none w = w
  process_found id r (some ep) w =
      let live = process_live id r ep w in
      if r.replayed
      then record_result id r w
      else (if f get_again then live else reevaluate id r (lookup id live.endpoints) live)

  unfoldable pub process_check_result : Str → CheckResult → World → World
  unfolding process_found
  process_check_result id r w = if f get then w else process_found id r (lookup id w.endpoints) w
