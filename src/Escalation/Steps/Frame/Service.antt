-- ===== src/Escalation/Steps/Frame/Service.antt =====
-- The service, and so each step, keeps a framed claim.
use maintenant.Base.{inl, inr, Bool, List, [], ◌∷◌, arith, Str, if_elim, Option-cases}
use maintenant.Alert.Model.{Alert, NotificationChannel}
use maintenant.Escalation.Model.{Policy, Delivery}
use maintenant.Escalation.Store.{
  World, bulk_stop_active_runs, stop_policy_runs, select_policy, bulk_deactivate_all_policies,
  bulk_restore_policies,
}
use maintenant.Escalation.Runner.{Env, deliver_and_update, outcome, update_row}
use maintenant.Escalation.Policies.{
  ServiceEnv, PolicyRequest, create_policy, insert_policy, inserted, policy_of, write_policy,
  update_policy_row, update_policy, set_policy_active, delete_policy, delete_policy_row,
  on_edition_downgraded, on_edition_upgraded, ordered_levels,
}
use maintenant.Escalation.Steps.{
  Step, created, acknowledged, resolved, cycle, sending, create, update, activate, remove,
  downgraded, upgraded, take_step, take_steps,
}
use maintenant.Base.{◌++◌}
use maintenant.Escalation.Model.{
  stopped_by_policy_disabled, stopped_by_policy_deletion, stopped_by_edition_downgrade,
}
use maintenant.Escalation.Steps.Frame.{
  IsFramed, framed-created, framed-acknowledged, framed-resolved,
}
use maintenant.Escalation.Steps.Frame.Cycle.{framed-cycle}

module _ (P : World → Type 0) (f : IsFramed P) where
  framed-insert_policy : (p : Policy) (w : World) → P w → P (inserted p w (insert_policy p w)).0
  unfolding insert_policy
  framed-insert_policy p w h = ground (arith, f.policies (w.policies ++ p ∷ []) w h)

  framed-create :
      (env : ServiceEnv) (req : PolicyRequest) (w : World) → P w → P (create_policy env req w).0
  unfolding create_policy
  framed-create env req w h = ground (arith, framed-insert_policy (policy_of env.new_id req) w h)

  framed-write :
      (env : ServiceEnv) (was : Bool) (p : Policy) (w : World)
      → P w
      → P (write_policy env was p w).0
  unfolding write_policy update_policy_row stop_policy_runs
  framed-write env was p w h =
      let written = f.policies (update_policy_row p w).policies w h in
      ground (
        arith,
        written,
        f.runs (stop_policy_runs p.id stopped_by_policy_disabled env.now w).runs
            (update_policy_row p w) written,
      )

  framed-update :
      (env : ServiceEnv) (id : Str) (req : PolicyRequest) (w : World)
      → P w
      → P (update_policy env id req w).0
  unfolding update_policy
  framed-update env id req w h = elim (Option-cases (select_policy id w.policies)) [
    | inl e ↦ ground arith
    | inr (old, e) ↦ ground (
      arith,
      framed-write env old.active
          (record old {
            name = req.name;
            active = req.active;
            filters = req.filters;
            levels = ordered_levels 0 req.levels;
          })
          w h,
    )
  ]

  framed-activate :
      (env : ServiceEnv) (id : Str) (on : Bool) (w : World)
      → P w
      → P (set_policy_active env id on w).0
  unfolding set_policy_active
  framed-activate env id on w h = elim (Option-cases (select_policy id w.policies)) [
    | inl e ↦ ground arith
    | inr (old, e) ↦ ground (arith, framed-write env old.active (record old { active = on }) w h)
  ]

  framed-remove : (env : ServiceEnv) (id : Str) (w : World) → P w → P (delete_policy env id w).0
  unfolding delete_policy delete_policy_row stop_policy_runs
  framed-remove env id w h =
      let stopped = f.runs (stop_policy_runs id stopped_by_policy_deletion env.now w).runs w h in
      let deleted =
        delete_policy_row id (stop_policy_runs id stopped_by_policy_deletion env.now w) in
      ground (arith, stopped, f.runs deleted.runs _ (f.policies deleted.policies _ stopped))

  framed-downgraded : (env : ServiceEnv) (w : World) → P w → P (on_edition_downgraded env w)
  unfolding on_edition_downgraded bulk_deactivate_all_policies bulk_stop_active_runs
  framed-downgraded env w h =
      let off = f.policies (bulk_deactivate_all_policies w).policies w h in
      ground (
        arith,
        off,
        f.runs (bulk_stop_active_runs stopped_by_edition_downgrade env.now w).runs _ off,
      )

  framed-upgraded : (env : ServiceEnv) (w : World) → P w → P (on_edition_upgraded env w)
  unfolding on_edition_upgraded bulk_restore_policies
  framed-upgraded env w h = ground (arith, f.policies (bulk_restore_policies w).policies w h)

  framed-sending :
      (env : Env) (d : Delivery) (a : Alert) (ch : NotificationChannel) (w : World)
      → P w
      → P (deliver_and_update env d a ch w)
  unfolding deliver_and_update
  framed-sending env d a ch w h =
      if_elim P (env.fails (update_row d.id)) (λ e. h)
        (λ e. f.row (outcome env d (env.send_now a ch)) w h)

  framed-take_step : (x : Step) (w : World) → P w → P (take_step x w)
  unfolding take_step
  framed-take_step (created env a) w h = framed-created P f env a w h
  framed-take_step (acknowledged env id by at) w h = framed-acknowledged P f env id by at w h
  framed-take_step (resolved env id at) w h = framed-resolved P f env id at w h
  framed-take_step (cycle env) w h = framed-cycle P f env w h
  framed-take_step (sending env d a ch) w h = framed-sending env d a ch w h
  framed-take_step (create env req) w h = framed-create env req w h
  framed-take_step (update env id req) w h = framed-update env id req w h
  framed-take_step (activate env id on) w h = framed-activate env id on w h
  framed-take_step (remove env id) w h = framed-remove env id w h
  framed-take_step (downgraded env) w h = framed-downgraded env w h
  framed-take_step (upgraded env) w h = framed-upgraded env w h

  pub framed-take_steps : (xs : List Step) (w : World) → P w → P (take_steps xs w)
  unfolding take_steps
  framed-take_steps [] w h = h
  framed-take_steps (x ∷ xs) w h = framed-take_steps xs _ (framed-take_step x w h)
