-- ===== src/Escalation/Runner/Cycle.antt =====
-- EvaluateCycle of runner.go: the recovery of deliveries whose sending was lost, and the step of each
-- run that is due. The errors of a step, which the loop only logs, are left out.
use maintenant.Base.{
  ℕ, suc, zero, ◌+◌, ◌-◌, Bool, true, false, not, Option, none, some, List, [], ◌∷◌, Str, str_eq,
  lit, length, get_elem?, if◌then◌else◌,
}
use maintenant.Alert.Model.{Alert, NotificationChannel, status_active}
use maintenant.Escalation.Model.{
  Level, Policy, is_live, is_paused, exhausted, stopped_by_ack, stopped_by_resolution,
  stopped_by_policy_deletion, Run, level, special_exhausted, abandoned, Delivery,
}
use maintenant.Escalation.Store.{
  World, emit, resend, set_escalated_at, update_run_progress, pause_run_for_maintenance,
  resume_run_from_maintenance, select_due_runs, update_delivery, select_orphans, select_run,
}
use maintenant.Escalation.Runner.{
  progress, pause, resume, find_run, escalated, update_row, due_runs, orphans, Env,
  format_exhausted_alert, dispatch_all,
}
use maintenant.Escalation.Runner.Hooks.{stop_run}

abbrev pub orphan_timeout : ℕ
orphan_timeout = 120

abbrev pub maintenance_recheck : ℕ
maintenance_recheck = 60

-- The channels of the last level that was executed, where the policy has it.
abbrev pub last_channels : List Level → ℕ → List Str
last_channels ls zero = []
last_channels ls (suc n) = elim (get_elem? ls n) [ none ↦ [] | some l ↦ l.channel_ids ]

abbrev pub due_slot : Env → Run → ℕ
due_slot env r = elim r.next_action_at [ none ↦ env.now | some at ↦ at ]

-- When a run acts after the level `l`: the difference of the delays after the slot that was due. It is
-- written with the sum first, since the source's integers have a sign.
abbrev pub next_at : Env → Run → Level → Option Level → ℕ
next_at env r l none = env.now
next_at env r l (some next) = due_slot env r + next.delay_seconds - l.delay_seconds

unfoldable pub execute_level : Env → Run → Alert → Policy → Level → World → World
unfolding dispatch_all update_run_progress get_elem?
execute_level env r a p l w =
    let told = dispatch_all env a r.id (level r.executed) l.channel_ids w in
    let marked =
      if env.fails (escalated a.id) then told else emit (set_escalated_at a.id env.now) told in
    if env.fails (progress r.id)
    then marked
    else update_run_progress r.id (suc r.executed)
        (next_at env r l (get_elem? p.levels (suc r.executed))) marked

unfoldable pub exhaust : Env → Run → Alert → Policy → World → World
unfolding dispatch_all stop_run get_elem? format_exhausted_alert
exhaust env r a p w = stop_run env r.id exhausted env.now (
    dispatch_all env (format_exhausted_alert env a (length p.levels)) r.id special_exhausted
      (last_channels p.levels r.executed) w)

unfoldable pub follow_policy : Env → Run → Alert → Option Policy → World → World
unfolding execute_level exhaust stop_run
follow_policy env r a none w = stop_run env r.id stopped_by_policy_deletion env.now w
follow_policy env r a (some p) w = elim (get_elem? p.levels r.executed) [
  | none ↦ exhaust env r a p w
  | some l ↦ execute_level env r a p l w
]

abbrev pub is_set : Option ℕ → Bool
is_set none = false
is_set (some t) = true

-- processRun, after GetAlert.
unfoldable pub step_run : Env → Run → Option (Option Alert) → World → World
unfolding follow_policy stop_run pause_run_for_maintenance resume_run_from_maintenance
step_run env r none w = w
step_run env r (some none) w = stop_run env r.id stopped_by_resolution env.now w
step_run env r (some (some a)) w =
    if not (str_eq a.status status_active)
    then stop_run env r.id stopped_by_resolution env.now w
    else if is_set a.acknowledged_at
    then stop_run env r.id stopped_by_ack env.now w
    else if env.is_suppressed a.source a.entity_type a.entity_id
    then (if env.fails (pause r.id)
        then w
        else pause_run_for_maintenance r.id (env.now + maintenance_recheck) w)
    else if is_paused r.status
    then (if env.fails (resume r.id) then w else resume_run_from_maintenance r.id env.now w)
    else follow_policy env r a r.snapshot w

unfoldable pub process_run : Env → Run → World → World
unfolding step_run
process_run env r w = step_run env r (env.get_alert r.alert_id) w

unfoldable pub process_runs : Env → List Run → World → World
unfolding process_run
process_runs env [] w = w
process_runs env (r ∷ rs) w = process_runs env rs (process_run env r w)

unfoldable pub abandon_delivery : Env → Delivery → Str → World → World
unfolding update_delivery
abandon_delivery env d reason w =
    if env.fails (update_row d.id)
    then w
    else update_delivery (record d { status = abandoned; error = reason }) w

abbrev pub is_firing : Option (Option Alert) → Bool
is_firing (some (some a)) = str_eq a.status status_active
is_firing _ = false

-- The end of the loop of recoverOrphans: the alert is still firing.
unfoldable pub retry_on :
    Env → Delivery → Option (Option Alert) → Option (Option NotificationChannel) → World → World
unfolding abandon_delivery
retry_on env d (some (some a)) (some (some ch)) w = emit (resend d ch a) w
retry_on env d (some (some a)) _ w = abandon_delivery env d (lit "channel unavailable") w
retry_on env d _ _ w = abandon_delivery env d (lit "alert no longer active") w

unfoldable pub recover_of : Env → Delivery → Option Run → World → World
unfolding retry_on abandon_delivery
recover_of env d none w = abandon_delivery env d (lit "run vanished") w
recover_of env d (some r) w =
    if not (is_live r.status)
    then abandon_delivery env d (lit "run terminated") w
    else if not (is_firing (env.get_alert r.alert_id))
    then abandon_delivery env d (lit "alert no longer active") w
    else elim d.channel_id [
      | none ↦ abandon_delivery env d (lit "channel removed") w
      | some id ↦ retry_on env d (env.get_alert r.alert_id) (env.get_channel id) w
    ]

unfoldable pub recover_each : Env → List Delivery → World → World
unfolding recover_of select_run
recover_each env [] w = w
recover_each env (d ∷ ds) w = recover_each env ds (
    recover_of env d (if env.fails (find_run d.run_id) then none else select_run d.run_id w.runs) w)

unfoldable pub recover_orphans : Env → World → World
unfolding recover_each select_orphans
recover_orphans env w =
    if env.fails orphans
    then w
    else recover_each env (select_orphans (env.now - orphan_timeout) w) w

unfoldable pub evaluate_cycle : Env → World → World
unfolding recover_orphans process_runs select_due_runs
evaluate_cycle env w =
    let recovered = recover_orphans env w in
    if not env.allowed
    then w
    else if env.fails due_runs
    then recovered
    else process_runs env (select_due_runs env.now recovered) recovered
