-- ===== src/Escalation/Steps/Levels.antt =====
-- The levels of a run, one a cycle, at their times, up to its end.
pub mod Drive
use maintenant.Base.{
  ℕ, zero, suc, ◌+◌, ◌-◌, ◌≤◌, ◌<◌, ◌≡◌, refl, sym, ap, ◌⊎◌, ◌∙◌, inl, inr, Bool, true, false, not,
  ◌||◌, Option, none, some, List, [], ◌∷◌, arith, Str, str_eq, All, length, get_elem?, any, ◌==◌,
  if◌then◌else◌, if_elim, Option-cases, subst,
}
use maintenant.Alert.Model.{Alert, status_active}
use maintenant.Escalation.Model.{
  Level, Policy, Run, RunStatus, active, exhausted, is_live, is_paused, level, special_exhausted,
}
use maintenant.Escalation.Store.{
  World, update_where, has_id, ended, emit, set_escalated_at, terminate_run, update_run_progress,
  select_run,
}
use maintenant.Escalation.Runner.{
  Env, terminate, progress, escalated, dispatch_all, format_exhausted_alert,
}
use maintenant.Escalation.Runner.Hooks.{stop_run}
use maintenant.Escalation.Runner.Cycle.{
  next_at, due_slot, execute_level, exhaust, follow_policy, is_set, step_run, process_run,
  last_channels,
}
use maintenant.Escalation.Steps.Kept.{runs-dispatch_all}

pub select_run-id : (id : ℕ) (rs : List Run) (r : Run) → select_run id rs ≡ some r → r.id ≡ id
unfolding select_run
select_run-id id [] r h = cc
select_run-id id (x ∷ xs) r h = ground (arith, select_run-id id xs r)

select_run-update_where :
    (id : ℕ) (f : Run → Run) (rs : List Run) (r : Run)
    → ((x : Run) → (f x).id ≡ x.id)
    → select_run id rs ≡ some r
    → select_run id (update_where (has_id id) f rs) ≡ some (f r)
unfolding select_run update_where
select_run-update_where id f [] r same h = cc
select_run-update_where id f (x ∷ xs) r same h =
    ground (arith, same x, select_run-update_where id f xs r same)

-- The alert of the run is firing, unacknowledged and not suppressed, and the run's row can be written.
pub record IsQuiet (alert : Str) (id : ℕ) (env : Env) : Type 0 where
  pub alert_of : Alert
  pub found : env.get_alert alert ≡ some (some alert_of)
  pub firing : str_eq alert_of.status status_active ≡ true
  pub open_alert : is_set alert_of.acknowledged_at ≡ false
  pub unsuppressed :
      env.is_suppressed alert_of.source alert_of.entity_type alert_of.entity_id ≡ false
  pub written : env.fails (progress id) ≡ false
  pub ended : env.fails (terminate id) ≡ false

-- The row after the level `l`.
abbrev pub advanced : Env → Policy → Level → Run → Run
advanced env p l r = record r {
  executed = suc r.executed;
  next_action_at = some (next_at env r l (get_elem? p.levels (suc r.executed)));
  status = active;
}

pub quiet-process_run :
    (env : Env) (r : Run) (w : World) (q : IsQuiet r.alert_id r.id env)
    → is_paused r.status ≡ false
    → process_run env r w ≡ follow_policy env r q.alert_of r.snapshot w
unfolding process_run step_run
quiet-process_run env r w q live = rw (q.found, q.firing, q.open_alert, q.unsuppressed, live) refl

pub runs-execute_level :
    (env : Env) (r : Run) (a : Alert) (p : Policy) (l : Level) (w : World)
    → env.fails (progress r.id) ≡ false
    → select_run r.id w.runs ≡ some r
    → select_run r.id (execute_level env r a p l w).runs ≡ some (advanced env p l r)
unfolding execute_level update_run_progress
runs-execute_level env r a p l w ok row = ground (
  arith,
  ok,
  runs-dispatch_all env a r.id (level r.executed) l.channel_ids w,
  select_run-update_where r.id
      (λ x. record x {
        executed = suc r.executed;
        next_action_at = some (next_at env r l (get_elem? p.levels (suc r.executed)));
        status = active;
      })
      w.runs r (λ x. refl) row,
)

pub runs-exhaust :
    (env : Env) (r : Run) (a : Alert) (p : Policy) (w : World)
    → env.fails (terminate r.id) ≡ false
    → select_run r.id w.runs ≡ some r
    → select_run r.id (exhaust env r a p w).runs ≡ some (ended exhausted env.now r)
unfolding exhaust stop_run terminate_run
runs-exhaust env r a p w ok row = ground (
  arith,
  ok,
  runs-dispatch_all env (format_exhausted_alert env a (length p.levels)) r.id special_exhausted
      (last_channels p.levels r.executed) w,
  select_run-update_where r.id (ended exhausted env.now) w.runs r (λ x. refl) row,
)

-- The run is active, its next level is the `n`th, and it is due the delay of that level after the start.
pub record IsAt (p : Policy) (alert : Str) (id start n : ℕ) (w : World) : Type 0 where
  pub row : Run
  pub is_row : select_run id w.runs ≡ some row
  pub alert_is : row.alert_id ≡ alert
  pub snapshot_is : row.snapshot ≡ some p
  pub is_active : row.status ≡ active
  pub executed_is : row.executed ≡ n
  pub on_time :
      (l : Level)
      → get_elem? p.levels n ≡ some l
      → row.next_action_at ≡ some (start + l.delay_seconds)
