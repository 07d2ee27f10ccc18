-- ===== src/Escalation/Steps/Frame.antt =====
-- What the steps keep, if the tables of policies and runs do not matter to it.
pub mod Cycle
pub mod Service
use maintenant.Base.{
  ℕ, ◌≡◌, inl, inr, Bool, true, false, not, ◌||◌, ◌&&◌, Option, none, some, List, [], ◌∷◌, arith,
  Str, lit, str_eq, ◌+◌, get_elem?, if_elim, Option-cases,
}
use maintenant.Alert.Model.{Alert, NotificationChannel}
use maintenant.Escalation.Model.{
  Level, Policy, Slot, special_ack, special_exhausted, level, Run, RunStatus, Delivery, is_live,
  is_paused,
}
use maintenant.Escalation.Store.{
  World, Effect, emit, resend, set_escalated_at, update_where, terminate_run, update_run_progress,
  pause_run_for_maintenance, resume_run_from_maintenance, bulk_stop_active_runs, stop_policy_runs,
  insert_run, select_run, select_policy, update_delivery, select_active_runs_by_alert,
  select_policies, select_due_runs, select_orphans, bulk_deactivate_all_policies,
  bulk_restore_policies,
}
use maintenant.Escalation.Runner.{
  Env, reserve_and_send, dispatch_to_channel, dispatch_all, deliver_and_update, outcome,
  match_policy_filters, format_ack_alert, format_exhausted_alert, find_run, orphans, progress,
  terminate, escalated, update_row, pause, resume,
}
use maintenant.Escalation.Runner.Hooks.{
  stop_run, start_run, start_runs, is_covered, on_alert_created, tell_ack, acknowledge_runs, loaded,
  on_alert_acknowledged, resolve_runs, on_alert_resolved, notified_channels, new_run,
}
use maintenant.Escalation.Runner.Cycle.{
  execute_level, exhaust, follow_policy, step_run, process_run, process_runs, abandon_delivery,
  retry_on, recover_of, recover_each, recover_orphans, evaluate_cycle, orphan_timeout,
  last_channels, next_at,
}
use maintenant.Escalation.Policies.{
  ServiceEnv, PolicyRequest, Answer, create_policy, insert_policy, inserted, policy_of,
  validate_request, write_policy, update_policy_row, update_policy, set_policy_active,
  delete_policy, delete_policy_row, on_edition_downgraded, on_edition_upgraded, ordered_levels,
}
use maintenant.Escalation.Steps.{
  Step, created, acknowledged, resolved, cycle, sending, create, update, activate, remove,
  downgraded, upgraded, take_step, take_steps,
}

-- A claim about the deliveries and the notifications.
pub record IsFramed (P : World → Type 0) : Type 1 where
  pub policies : (ps : List Policy) (w : World) → P w → P (record w { policies = ps })
  pub runs : (rs : List Run) (w : World) → P w → P (record w { runs = rs })
  pub insert : (r : Run) (w : World) → P w → P (insert_run r w)
  pub row : (d : Delivery) (w : World) → P w → P (update_delivery d w)
  pub mark : (id : Str) (at : ℕ) (w : World) → P w → P (emit (set_escalated_at id at) w)
  pub again :
      (d : Delivery) (ch : NotificationChannel) (a : Alert) (w : World)
      → P w
      → P (emit (resend d ch a) w)
  pub dispatch :
      (env : Env) (a : Alert) (run : ℕ) (slot : Slot) (id : Str)
      (o : Option (Option NotificationChannel)) (w : World)
      → P w
      → P (reserve_and_send env a run slot id o w)

module _ (P : World → Type 0) (f : IsFramed P) where
  pub framed-dispatch_all :
      (env : Env) (a : Alert) (run : ℕ) (slot : Slot) (ids : List Str) (w : World)
      → P w
      → P (dispatch_all env a run slot ids w)
  unfolding dispatch_all dispatch_to_channel
  framed-dispatch_all env a run slot [] w h = h
  framed-dispatch_all env a run slot (id ∷ ids) w h =
      framed-dispatch_all env a run slot ids _
        (f.dispatch env a run slot id (env.get_channel id) w h)

  pub framed-stop_run :
      (env : Env) (id : ℕ) (status : RunStatus) (at : ℕ) (w : World)
      → P w
      → P (stop_run env id status at w)
  unfolding stop_run terminate_run
  framed-stop_run env id status at w h =
      if_elim P (env.fails (terminate id)) (λ e. h) (λ e. f.runs _ w h)

  pub framed-start_run :
      (env : Env) (a : Alert) (p : Policy) (ls : List Level) (o : Option (Option Policy))
      (w : World)
      → P w
      → P (start_run env a p ls o w)
  unfolding start_run
  framed-start_run env a p [] o w h = h
  framed-start_run env a p (l ∷ ls) none w h = h
  framed-start_run env a p (l ∷ ls) (some s) w h =
      ground (arith, f.insert (new_run env a p l.delay_seconds s) w h)

  pub framed-start_runs :
      (env : Env) (a : Alert) (rs : List Run) (ps : List Policy) (w : World)
      → P w
      → P (start_runs env a rs ps w)
  unfolding start_runs
  framed-start_runs env a rs [] w h = h
  framed-start_runs env a rs (p ∷ ps) w h = framed-start_runs env a rs ps _ (
      if_elim P (is_covered p rs || not (match_policy_filters a p.filters)) (λ e. h)
        (λ e. framed-start_run env a p p.levels (env.marshal p) w h))

  pub framed-created : (env : Env) (a : Alert) (w : World) → P w → P (on_alert_created env a w)
  unfolding on_alert_created
  framed-created env a w h =
      if_elim P _ (λ e. h)
        (λ e.
          framed-start_runs env a (select_active_runs_by_alert a.id w) (select_policies true w) w h)

  pub framed-tell_ack :
      (env : Env) (o : Option Alert) (by : Str) (at : ℕ) (r : Run) (w : World)
      → P w
      → P (tell_ack env o by at r w)
  unfolding tell_ack
  framed-tell_ack env none by at r w h = h
  framed-tell_ack env (some a) by at r w h =
      if_elim P _ (λ e. h)
        (λ e.
          framed-dispatch_all env (format_ack_alert env a by at) r.id special_ack
            (notified_channels r.id w) w h)

  pub framed-acknowledge_runs :
      (env : Env) (o : Option Alert) (by : Str) (at : ℕ) (rs : List Run) (w : World)
      → P w
      → P (acknowledge_runs env o by at rs w)
  unfolding acknowledge_runs
  framed-acknowledge_runs env o by at [] w h = h
  framed-acknowledge_runs env o by at (r ∷ rs) w h = framed-acknowledge_runs env o by at rs _ (
      if_elim P (env.fails (terminate r.id)) (λ e. h)
        (λ e. framed-tell_ack env o by at r _ (framed-stop_run env r.id _ env.now w h)))

  pub framed-acknowledged :
      (env : Env) (id by : Str) (at : ℕ) (w : World)
      → P w
      → P (on_alert_acknowledged env id by at w)
  unfolding on_alert_acknowledged
  framed-acknowledged env id by at w h =
      if_elim P _ (λ e. h)
        (λ e.
          framed-acknowledge_runs env (loaded (env.get_alert id)) by at
            (select_active_runs_by_alert id w) w h)

  pub framed-resolve_runs :
      (env : Env) (at : ℕ) (rs : List Run) (w : World) → P w → P (resolve_runs env at rs w)
  unfolding resolve_runs
  framed-resolve_runs env at [] w h = h
  framed-resolve_runs env at (r ∷ rs) w h =
      framed-resolve_runs env at rs _ (framed-stop_run env r.id _ at w h)

  pub framed-resolved :
      (env : Env) (id : Str) (at : ℕ) (w : World) → P w → P (on_alert_resolved env id at w)
  unfolding on_alert_resolved
  framed-resolved env id at w h =
      if_elim P _ (λ e. h) (λ e. framed-resolve_runs env at (select_active_runs_by_alert id w) w h)
