-- ===== src/Escalation/Steps/Exclusive.antt =====
-- A policy escalates an alert in one run at a time.
pub mod Created
pub mod Always
pub mod Runs
use maintenant.Base.{
  ℕ, suc, ◌+◌, ◌≤◌, ◌≡◌, ◌≢◌, refl, sym, ◌∙◌, inl, inr, Bool, true, false, not, ◌&&◌, ◌||◌, Option,
  none, some, List, [], ◌∷◌, ◌++◌, arith, Str, str_eq, str_eq_iff, is_empty, any, count, count-any,
  any-count, count-append, count-keep, keep, ◌==◌, if◌then◌else◌, if_elim, Bool-cases, Option-cases,
}
use maintenant.Alert.Model.{Alert}
use maintenant.Escalation.Model.{
  Level, Policy, Run, active, is_live, stopped_by_policy_disabled, stopped_by_policy_deletion,
  stopped_by_edition_downgrade,
}
use maintenant.Escalation.Store.{
  World, update_where, has_id, is_of, insert_run, stop_policy_runs, bulk_stop_active_runs,
  select_active_runs_by_alert, select_policies, bulk_deactivate_all_policies, bulk_restore_policies,
  ended, change_runs, select_policy,
}
use maintenant.Escalation.Runner.{
  Env, match_policy_filters, list_runs, list_policies, insert_run_of,
}
use maintenant.Escalation.Runner.Hooks.{
  new_run, start_run, is_covered, start_runs, on_alert_created,
}
use maintenant.Escalation.Policies.{
  PolicyRequest, ServiceEnv, create_policy, insert_policy, inserted, policy_of, validate_request,
  write_policy, update_policy_row, update_policy, set_policy_active, delete_policy,
  delete_policy_row, on_edition_downgraded, on_edition_upgraded, ordered_levels,
}
use maintenant.Escalation.Steps.{
  Step, created, acknowledged, resolved, cycle, sending, create, update, activate, remove,
  downgraded, upgraded, take_step, take_steps, empty_world,
}
use maintenant.Escalation.Steps.Rows.{
  is_live_pair, is_policy, count-update_where, count-update_where_le,
}
use maintenant.Escalation.Steps.Kept.{
  IsLess, IsLess-refl, IsLess-trans, IsLess-change_runs, IsLess-on_alert_acknowledged,
  IsLess-on_alert_resolved, IsLess-deliver_and_update,
}
use maintenant.Escalation.Steps.Kept.Recover.{IsLess-evaluate_cycle}

-- No two runs and no two policies have an id, and no two live runs are of a policy and an alert.
pub record IsWell (w : World) : Type 0 where
  pub pairs : (alert policy : Str) → count (is_live_pair alert policy) w.runs ≤ 1
  pub ids : (id : ℕ) → count (has_id id) w.runs ≤ 1
  pub fresh : (id : ℕ) → w.next_id ≤ id → count (has_id id) w.runs ≡ 0
  pub policies : (id : Str) → count (is_policy id) w.policies ≤ 1

pub IsWell-less : (w v : World) → IsWell w → IsLess w v → IsWell v
IsWell-less w v h l = record {
  pairs = λ a p. omega (arith, h.pairs a p, l.pairs a p);
  ids = λ i. omega (arith, h.ids i, l.ids i);
  fresh = λ i b. ground (arith, h.fresh i, l.ids i, l.next);
  policies = λ i. omega (arith, h.policies i, l.policies i);
}
