-- ===== src/Endpoint/Checks/Alternation.antt =====
-- Alerts and recoveries of an endpoint over a run of checks.
use maintenant.Base.{
  ℕ, suc, ◌+◌, ◌≡◌, refl, ap, sym, ◌∙◌, Bool, true, false, not, ◌&&◌, ◌||◌, Option, none, some,
  List, [], ◌∷◌, arith, Str, Str_eq, str_eq, str_eq_iff, leb, if◌then◌else◌, if_elim, subst,
}
use maintenant.Base.Map.{lookup, insert, lookup-insert}
use maintenant.Endpoint.Checks.{
  up, down, degraded, Endpoint, CheckResult, Signal, status_changed, threshold_alert,
  threshold_recovery, alert_event, recovery_event, Call, World, status_for_result, counted,
  evaluate_check_result, write, record_result, tell, reevaluate, note_status, process_live,
  process_found, process_check_result,
}

abbrev pub alerts : Str → List Signal → ℕ
alerts id [] = 0
alerts id (threshold_alert i ∷ out) =
    let rest = alerts id out in if str_eq i id then suc rest else rest
alerts id (threshold_recovery i ∷ out) = alerts id out
alerts id (status_changed i s t ∷ out) = alerts id out
alerts id (alert_event i ∷ out) = alerts id out
alerts id (recovery_event i ∷ out) = alerts id out

abbrev pub recoveries : Str → List Signal → ℕ
recoveries id [] = 0
recoveries id (threshold_recovery i ∷ out) =
    let rest = recoveries id out in if str_eq i id then suc rest else rest
recoveries id (threshold_alert i ∷ out) = recoveries id out
recoveries id (status_changed i s t ∷ out) = recoveries id out
recoveries id (alert_event i ∷ out) = recoveries id out
recoveries id (recovery_event i ∷ out) = recoveries id out

abbrev pub is_alerting : Option Endpoint → ℕ
is_alerting none = 0
is_alerting (some ep) = if ep.alerting then 1 else 0

abbrev pub Alternates : Str → World → Type 0
Alternates id w = alerts id w.out ≡ recoveries id w.out + is_alerting (lookup id w.endpoints)

abbrev pub no_faults : Call → Bool
no_faults call = false

abbrev pub run : List (Str × CheckResult) → World → World
run [] w = w
run ((id, r) ∷ rs) w = run rs (process_check_result no_faults id r w)

live-endpoints :
    (id : Str) (r : CheckResult) (ep : Endpoint) (w : World)
    → (process_live no_faults id r ep w).endpoints ≡ insert id (counted ep r) w.endpoints
unfolding process_live write record_result note_status
live-endpoints id r ep w = ground arith

live-out :
    (id : Str) (r : CheckResult) (ep : Endpoint) (w : World) (j : Str)
    → (alerts j (process_live no_faults id r ep w).out ≡ alerts j w.out)
      × (recoveries j (process_live no_faults id r ep w).out ≡ recoveries j w.out)
unfolding process_live write record_result note_status
live-out id r ep w j = ground arith

live-Alternates :
    (id : Str) (r : CheckResult) (ep : Endpoint) (w : World) (j : Str)
    → lookup id w.endpoints ≡ some ep
    → Alternates j w
    → Alternates j (process_live no_faults id r ep w)
unfolding counted
live-Alternates id r ep w j e a = ground (
  arith,
  live-endpoints id r ep w,
  live-out id r ep w j,
  lookup-insert id j (counted ep r) w.endpoints,
  str_eq_iff id j,
)

reevaluate-Alternates :
    (id : Str) (r : CheckResult) (o : Option Endpoint) (w : World) (j : Str)
    → lookup id w.endpoints ≡ o
    → Alternates j w
    → Alternates j (reevaluate no_faults id r o w)
unfolding reevaluate tell write evaluate_check_result
reevaluate-Alternates id r none w j e a = a
reevaluate-Alternates id r (some ep) w j e a = ground (
  arith,
  lookup-insert id j (record ep { status = status_for_result r; alerting = true }) w.endpoints,
  lookup-insert id j (record ep { status = status_for_result r; alerting = false }) w.endpoints,
  str_eq_iff id j,
)

found-Alternates :
    (id : Str) (r : CheckResult) (o : Option Endpoint) (w : World) (j : Str)
    → lookup id w.endpoints ≡ o
    → Alternates j w
    → Alternates j (process_found no_faults id r o w)
unfolding process_found record_result
found-Alternates id r none w j e a = a
found-Alternates id r (some ep) w j e a =
    let live = process_live no_faults id r ep w in
    if_elim (Alternates j) r.replayed (λ old. a)
      (λ new.
        reevaluate-Alternates id r (lookup id live.endpoints) live j refl
          (live-Alternates id r ep w j e a))

-- If the store does not fail, and the callback got as many alerts as recoveries of an endpoint, and one
-- alert more exactly if the endpoint is alerting, then the same holds after any run of check results of
-- any endpoints, replayed ones included.
pub run-Alternates :
    (rs : List (Str × CheckResult)) (w : World) (id : Str)
    → Alternates id w
    → Alternates id (run rs w)
unfolding process_check_result
run-Alternates [] w id a = a
run-Alternates ((i, r) ∷ rs) w id a =
    run-Alternates rs (process_check_result no_faults i r w) id
      (found-Alternates i r (lookup i w.endpoints) w id refl a)

-- The row that a live result leaves: the counters of the result, and the alert state raised once the
-- failures reach their threshold, cleared once the successes reach theirs, and kept between them.
abbrev pub judged : Endpoint → CheckResult → Endpoint
judged ep r = record ep {
  status = if r.success then (if r.degraded then degraded else up) else down;
  consecutive_failures = if r.success then 0 else ep.consecutive_failures + 1;
  consecutive_successes = if r.success then ep.consecutive_successes + 1 else 0;
  alerting =
      if r.success
      then ep.alerting && not (leb ep.recovery_threshold (ep.consecutive_successes + 1))
      else ep.alerting || leb ep.failure_threshold (ep.consecutive_failures + 1);
}

reevaluated_row :
    (id : Str) (r : CheckResult) (ep : Endpoint) (w : World)
    → lookup id w.endpoints ≡ some (counted ep r)
    → lookup id (reevaluate no_faults id r (some (counted ep r)) w).endpoints ≡ some (judged ep r)
unfolding reevaluate tell write evaluate_check_result counted status_for_result
reevaluated_row id r ep w e =
    let c = counted ep r in
    ground (
      arith,
      lookup-insert id id (record c { status = status_for_result r; alerting = true }) w.endpoints,
      lookup-insert id id (record c { status = status_for_result r; alerting = false }) w.endpoints,
      str_eq_iff id id,
    )

live_row :
    (id : Str) (r : CheckResult) (ep : Endpoint) (w : World)
    → lookup id (process_live no_faults id r ep w).endpoints ≡ some (counted ep r)
live_row id r ep w =
    ap (lookup id) (live-endpoints id r ep w)
    ∙ ground (arith, lookup-insert id id (counted ep r) w.endpoints, str_eq_iff id id)

-- If the store does not fail, a live result of a known endpoint gives it the status and the counters of
-- the result, raises its alert if the failures in a row reach their threshold, clears it if the
-- successes in a row reach theirs, and otherwise keeps its alert state.
pub check_row :
    (id : Str) (r : CheckResult) (ep : Endpoint) (w : World)
    → lookup id w.endpoints ≡ some ep
    → r.replayed ≡ false
    → lookup id (process_check_result no_faults id r w).endpoints ≡ some (judged ep r)
unfolding process_check_result process_found
check_row id r ep w e new =
    let live = process_live no_faults id r ep w in
    rw e (
      if_elim (λ (v : World). lookup id v.endpoints ≡ some (judged ep r)) r.replayed
        (λ old. cc (old, new))
        (λ live_result.
          subst (λ o. lookup id (reevaluate no_faults id r o live).endpoints ≡ some (judged ep r))
            (sym (live_row id r ep w)) (reevaluated_row id r ep live (live_row id r ep w))))
