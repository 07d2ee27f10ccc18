-- ===== src/Escalation/Steps/Exclusive/Runs.antt =====
-- Every step keeps a policy to one live run for an alert.
use maintenant.Base.{ℕ, ◌≤◌, refl, List, [], ◌∷◌, arith, Str, count}
use maintenant.Escalation.Store.{World}
use maintenant.Escalation.Steps.{
  Step, created, acknowledged, resolved, cycle, sending, create, update, activate, remove,
  downgraded, upgraded, take_step, take_steps, empty_world,
}
use maintenant.Escalation.Steps.Rows.{is_live_pair}
use maintenant.Escalation.Steps.Kept.{
  IsLess-on_alert_acknowledged, IsLess-on_alert_resolved, IsLess-deliver_and_update,
}
use maintenant.Escalation.Steps.Kept.Recover.{IsLess-evaluate_cycle}
use maintenant.Escalation.Steps.Exclusive.{IsWell, IsWell-less}
use maintenant.Escalation.Steps.Exclusive.Created.{IsWell-on_alert_created}
use maintenant.Escalation.Steps.Exclusive.Always.{
  IsWell-create, IsLess-update, IsLess-activate, IsLess-remove, IsLess-downgraded, IsLess-upgraded,
}

IsWell-take_step : (x : Step) (w : World) → IsWell w → IsWell (take_step x w)
unfolding take_step
IsWell-take_step (created env a) w h = IsWell-on_alert_created env a w h
IsWell-take_step (acknowledged env id by at) w h =
    IsWell-less w _ h (IsLess-on_alert_acknowledged env id by at w)
IsWell-take_step (resolved env id at) w h = IsWell-less w _ h (IsLess-on_alert_resolved env id at w)
IsWell-take_step (cycle env) w h = IsWell-less w _ h (IsLess-evaluate_cycle env w h.ids)
IsWell-take_step (sending env d a ch) w h =
    IsWell-less w _ h (IsLess-deliver_and_update env d a ch w)
IsWell-take_step (create env req) w h = IsWell-create env req w h
IsWell-take_step (update env id req) w h = IsWell-less w _ h (IsLess-update env id req w)
IsWell-take_step (activate env id on) w h = IsWell-less w _ h (IsLess-activate env id on w)
IsWell-take_step (remove env id) w h = IsWell-less w _ h (IsLess-remove env id w)
IsWell-take_step (downgraded env) w h = IsWell-less w _ h (IsLess-downgraded env w)
IsWell-take_step (upgraded env) w h = IsWell-less w _ h (IsLess-upgraded env w)

IsWell-take_steps : (xs : List Step) (w : World) → IsWell w → IsWell (take_steps xs w)
unfolding take_steps
IsWell-take_steps [] w h = h
IsWell-take_steps (x ∷ xs) w h = IsWell-take_steps xs (take_step x w) (IsWell-take_step x w h)

IsWell-start : IsWell empty_world
IsWell-start = record {
  pairs = λ a p. unfold count in omega arith;
  ids = λ i. unfold count in omega arith;
  fresh = λ i b. unfold count in refl;
  policies = λ i. unfold count in omega arith;
}

-- The runs of the policy for the alert that are active or paused.
abbrev pub live_runs : Str → Str → World → ℕ
live_runs alert policy w = count (is_live_pair alert policy) w.runs

-- Whatever the calls of the runner and of the service, their order and the failures of the store, an alert
-- has at most one run of a policy that is active or paused.
pub live_runs-take_steps :
    (xs : List Step) (alert policy : Str) → live_runs alert policy (take_steps xs empty_world) ≤ 1
live_runs-take_steps xs alert policy =
    (IsWell-take_steps xs empty_world IsWell-start).pairs alert policy
