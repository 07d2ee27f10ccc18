-- ===== src/Escalation/Runner/Hooks.antt =====
-- The hooks of runner.go that the alert engine calls. Their errors, which the engine only logs, are left out.
use maintenant.Base.{
  ℕ, Bool, true, false, not, ◌||◌, ◌&&◌, Option, none, some, List, [], ◌∷◌, ◌+◌, Str, any, is_empty,
  ◌==◌, if◌then◌else◌,
}
use maintenant.Alert.Model.{Alert}
use maintenant.Escalation.Model.{
  Level, Policy, active, RunStatus, stopped_by_ack, stopped_by_resolution, Run, Slot, level,
  special_ack, DeliveryStatus, pending, sent, Delivery,
}
use maintenant.Escalation.Store.{
  World, insert_run, is_of, select_active_runs_by_alert, select_policies, select_run_deliveries,
  terminate_run,
}
use maintenant.Escalation.Runner.{
  list_runs, list_policies, insert_run_of, terminate, list_deliveries, Env, contains,
  match_policy_filters, format_ack_alert, dispatch_all,
}

-- `TerminateRun`, and what follows it where it does not fail.
unfoldable pub stop_run : Env → ℕ → RunStatus → ℕ → World → World
unfolding terminate_run
stop_run env id status at w = if env.fails (terminate id) then w else terminate_run id status at w

abbrev pub new_run : Env → Alert → Policy → ℕ → Option Policy → Run
new_run env a p delay snapshot = record {
  id = 0;
  policy_id = some p.id;
  snapshot = snapshot;
  alert_id = a.id;
  status = active;
  executed = 0;
  started_at = env.now;
  ended_at = none;
  next_action_at = some (env.now + delay);
}

unfoldable pub start_run :
    Env → Alert → Policy → List Level → Option (Option Policy) → World → World
unfolding insert_run
start_run env a p [] snapshot w = w
start_run env a p (l ∷ ls) none w = w
start_run env a p (l ∷ ls) (some snapshot) w =
    if env.fails (insert_run_of p.id)
    then w
    else insert_run (new_run env a p l.delay_seconds snapshot) w

abbrev pub is_covered : Policy → List Run → Bool
is_covered p = any (λ r. is_of r.policy_id p.id)

unfoldable pub start_runs : Env → Alert → List Run → List Policy → World → World
unfolding start_run match_policy_filters any
start_runs env a existing [] w = w
start_runs env a existing (p ∷ ps) w = start_runs env a existing ps (
    if is_covered p existing || not (match_policy_filters a p.filters)
    then w
    else start_run env a p p.levels (env.marshal p) w)

unfoldable pub on_alert_created : Env → Alert → World → World
unfolding start_runs select_active_runs_by_alert select_policies
on_alert_created env a w =
    if is_empty a.id || not env.allowed || env.fails (list_runs a.id) || env.fails list_policies
    then w
    else start_runs env a (select_active_runs_by_alert a.id w) (select_policies true w) w

abbrev pub is_level : Slot → Bool
is_level (level n) = true
is_level _ = false

abbrev pub is_open : DeliveryStatus → Bool
is_open sent = true
is_open pending = true
is_open _ = false

-- The loop of notifiedChannels; `seen` is the map of that name.
unfoldable pub notified : List Str → List Delivery → List Str
unfolding any
notified seen [] = []
notified seen (d ∷ ds) = elim d.channel_id [
  | none ↦ notified seen ds
  | some id ↦
      if is_level d.slot && is_open d.status && not (contains id seen)
      then id ∷ notified (id ∷ seen) ds
      else notified seen ds
]

unfoldable pub notified_channels : ℕ → World → List Str
unfolding notified select_run_deliveries
notified_channels run w = notified [] (select_run_deliveries run w)

-- The alert, none where it is gone or where it cannot be loaded.
abbrev pub loaded : Option (Option Alert) → Option Alert
loaded none = none
loaded (some o) = o

unfoldable pub tell_ack : Env → Option Alert → Str → ℕ → Run → World → World
unfolding dispatch_all notified_channels format_ack_alert
tell_ack env none by at r w = w
tell_ack env (some a) by at r w =
    if r.executed == 0 || env.fails (list_deliveries r.id)
    then w
    else dispatch_all env (format_ack_alert env a by at) r.id special_ack (notified_channels r.id w)
        w

unfoldable pub acknowledge_runs : Env → Option Alert → Str → ℕ → List Run → World → World
unfolding stop_run tell_ack
acknowledge_runs env a by at [] w = w
acknowledge_runs env a by at (r ∷ rs) w = acknowledge_runs env a by at rs (
    if env.fails (terminate r.id)
    then w
    else tell_ack env a by at r (stop_run env r.id stopped_by_ack env.now w))

unfoldable pub on_alert_acknowledged : Env → Str → Str → ℕ → World → World
unfolding acknowledge_runs select_active_runs_by_alert
on_alert_acknowledged env id by at w =
    if env.fails (list_runs id)
    then w
    else acknowledge_runs env (loaded (env.get_alert id)) by at (select_active_runs_by_alert id w) w

unfoldable pub resolve_runs : Env → ℕ → List Run → World → World
unfolding stop_run
resolve_runs env at [] w = w
resolve_runs env at (r ∷ rs) w =
    resolve_runs env at rs (stop_run env r.id stopped_by_resolution at w)

unfoldable pub on_alert_resolved : Env → Str → ℕ → World → World
unfolding resolve_runs select_active_runs_by_alert
on_alert_resolved env id at w =
    if env.fails (list_runs id) then w else resolve_runs env at (select_active_runs_by_alert id w) w
