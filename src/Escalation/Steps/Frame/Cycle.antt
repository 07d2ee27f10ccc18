-- ===== src/Escalation/Steps/Frame/Cycle.antt =====
-- The cycle of the runner keeps a framed claim.
use maintenant.Base.{
  inl, inr, not, Option, none, some, List, [], ◌∷◌, arith, Str, lit, ◌+◌, get_elem?, if_elim,
  Option-cases,
}
use maintenant.Alert.Model.{Alert, NotificationChannel}
use maintenant.Escalation.Model.{Level, Policy, special_exhausted, level, Run, Delivery, is_live}
use maintenant.Escalation.Store.{
  World, emit, set_escalated_at, update_run_progress, pause_run_for_maintenance,
  resume_run_from_maintenance, select_due_runs, select_orphans,
}
use maintenant.Escalation.Runner.{
  Env, dispatch_all, format_exhausted_alert, orphans, progress, escalated, update_row,
}
use maintenant.Escalation.Runner.Cycle.{
  execute_level, exhaust, follow_policy, step_run, process_run, process_runs, abandon_delivery,
  retry_on, recover_of, recover_each, recover_orphans, evaluate_cycle, orphan_timeout,
  last_channels,
}
use maintenant.Base.{length, if◌then◌else◌, ◌-◌}
use maintenant.Escalation.Model.{stopped_by_ack, stopped_by_resolution, abandoned}
use maintenant.Escalation.Runner.{due_runs}
use maintenant.Escalation.Runner.Cycle.{maintenance_recheck, is_firing}
use maintenant.Escalation.Steps.Frame.{IsFramed, framed-dispatch_all, framed-stop_run}

module _ (P : World → Type 0) (f : IsFramed P) where
  framed-execute_level :
      (env : Env) (r : Run) (a : Alert) (p : Policy) (l : Level) (w : World)
      → P w
      → P (execute_level env r a p l w)
  unfolding execute_level update_run_progress
  framed-execute_level env r a p l w h =
      let told = framed-dispatch_all P f env a r.id (level r.executed) l.channel_ids w h in
      let marked : P (
          if env.fails (escalated a.id)
          then dispatch_all env a r.id (level r.executed) l.channel_ids w
          else emit (set_escalated_at a.id env.now)
              (dispatch_all env a r.id (level r.executed) l.channel_ids w)) =
        if_elim P (env.fails (escalated a.id)) (λ e. told) (λ e. f.mark a.id env.now _ told) in
      if_elim P (env.fails (progress r.id)) (λ e. marked) (λ e. f.runs _ _ marked)

  framed-exhaust :
      (env : Env) (r : Run) (a : Alert) (p : Policy) (w : World) → P w → P (exhaust env r a p w)
  unfolding exhaust
  framed-exhaust env r a p w h = framed-stop_run P f env r.id _ env.now _ (
      framed-dispatch_all P f env (format_exhausted_alert env a (length p.levels)) r.id
        special_exhausted (last_channels p.levels r.executed) w h)

  framed-follow_policy :
      (env : Env) (r : Run) (a : Alert) (o : Option Policy) (w : World)
      → P w
      → P (follow_policy env r a o w)
  unfolding follow_policy
  framed-follow_policy env r a none w h = framed-stop_run P f env r.id _ env.now w h
  framed-follow_policy env r a (some p) w h = elim (Option-cases (get_elem? p.levels r.executed)) [
    | inl e ↦ ground (arith, framed-exhaust env r a p w h)
    | inr (l, e) ↦ ground (arith, framed-execute_level env r a p l w h)
  ]

  framed-step_run :
      (env : Env) (r : Run) (o : Option (Option Alert)) (w : World) → P w → P (step_run env r o w)
  unfolding step_run pause_run_for_maintenance resume_run_from_maintenance
  framed-step_run env r none w h = h
  framed-step_run env r (some none) w h = framed-stop_run P f env r.id _ env.now w h
  framed-step_run env r (some (some a)) w h = ground (
    arith,
    framed-stop_run P f env r.id stopped_by_resolution env.now w h,
    framed-stop_run P f env r.id stopped_by_ack env.now w h,
    f.runs (pause_run_for_maintenance r.id (env.now + maintenance_recheck) w).runs w h,
    f.runs (resume_run_from_maintenance r.id env.now w).runs w h,
    framed-follow_policy env r a r.snapshot w h,
  )

  framed-process_runs : (env : Env) (rs : List Run) (w : World) → P w → P (process_runs env rs w)
  unfolding process_runs process_run
  framed-process_runs env [] w h = h
  framed-process_runs env (r ∷ rs) w h =
      framed-process_runs env rs _ (framed-step_run env r (env.get_alert r.alert_id) w h)

  framed-abandon_delivery :
      (env : Env) (d : Delivery) (reason : Str) (w : World)
      → P w
      → P (abandon_delivery env d reason w)
  unfolding abandon_delivery
  framed-abandon_delivery env d reason w h =
      if_elim P (env.fails (update_row d.id)) (λ e. h)
        (λ e. f.row (record d { status = abandoned; error = reason }) w h)

  framed-retry_on :
      (env : Env) (d : Delivery) (o : Option (Option Alert))
      (c : Option (Option NotificationChannel)) (w : World)
      → P w
      → P (retry_on env d o c w)
  unfolding retry_on
  framed-retry_on env d (some (some a)) (some (some ch)) w h = f.again d ch a w h
  framed-retry_on env d (some (some a)) (some none) w h = framed-abandon_delivery env d _ w h
  framed-retry_on env d (some (some a)) none w h = framed-abandon_delivery env d _ w h
  framed-retry_on env d (some none) c w h = framed-abandon_delivery env d _ w h
  framed-retry_on env d none c w h = framed-abandon_delivery env d _ w h

  framed-recover_of :
      (env : Env) (d : Delivery) (o : Option Run) (w : World) → P w → P (recover_of env d o w)
  unfolding recover_of
  framed-recover_of env d none w h = framed-abandon_delivery env d _ w h
  framed-recover_of env d (some r) w h =
      if_elim P (not (is_live r.status)) (λ e. framed-abandon_delivery env d _ w h)
        (λ e.
          if_elim P (not (is_firing (env.get_alert r.alert_id)))
            (λ e. framed-abandon_delivery env d _ w h)
            (λ e. elim (Option-cases d.channel_id) [
              | inl e ↦ rw e (framed-abandon_delivery env d (lit "channel removed") w h)
              | inr (id, e) ↦
                  rw e (framed-retry_on env d (env.get_alert r.alert_id) (env.get_channel id) w h)
            ]))

  framed-recover_each :
      (env : Env) (ds : List Delivery) (w : World) → P w → P (recover_each env ds w)
  unfolding recover_each
  framed-recover_each env [] w h = h
  framed-recover_each env (d ∷ ds) w h =
      framed-recover_each env ds _ (framed-recover_of env d _ w h)

  pub framed-cycle : (env : Env) (w : World) → P w → P (evaluate_cycle env w)
  unfolding evaluate_cycle recover_orphans
  framed-cycle env w h =
      let recovered : P (recover_orphans env w) =
        if_elim P (env.fails orphans) (λ e. h)
          (λ e. framed-recover_each env (select_orphans (env.now - orphan_timeout) w) w h) in
      if_elim P (not env.allowed) (λ e. h)
        (λ e.
          if_elim P (env.fails due_runs) (λ e. recovered)
            (λ e.
              framed-process_runs env (select_due_runs env.now (recover_orphans env w)) _
                recovered))
