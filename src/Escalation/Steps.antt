-- ===== src/Escalation/Steps.antt =====
-- The escalations as a whole: the calls of the runner and of the service, in any order and with any
-- failures of the store. A call is one step, and the end of a sending is a step of its own.
pub mod Frame
pub mod Once
pub mod Rows
pub mod Kept
pub mod Exclusive
pub mod Stopped
pub mod Levels
use maintenant.Base.{ℕ, Bool, List, [], ◌∷◌, Str}
use maintenant.Alert.Model.{Alert, NotificationChannel}
use maintenant.Escalation.Model.{Delivery}
use maintenant.Escalation.Store.{World}
use maintenant.Escalation.Policies.{
  PolicyRequest, ServiceEnv, create_policy, update_policy, set_policy_active, delete_policy,
  on_edition_downgraded, on_edition_upgraded,
}
use maintenant.Escalation.Runner.{Env, deliver_and_update}
use maintenant.Escalation.Runner.Hooks.{on_alert_created, on_alert_acknowledged, on_alert_resolved}
use maintenant.Escalation.Runner.Cycle.{evaluate_cycle}

pub data Step : Type 0 where
  created : Env → Alert → Step
  acknowledged : Env → Str → Str → ℕ → Step
  resolved : Env → Str → ℕ → Step
  cycle : Env → Step
  sending : Env → Delivery → Alert → NotificationChannel → Step
  create : ServiceEnv → PolicyRequest → Step
  update : ServiceEnv → Str → PolicyRequest → Step
  activate : ServiceEnv → Str → Bool → Step
  remove : ServiceEnv → Str → Step
  downgraded upgraded : ServiceEnv → Step

unfoldable pub take_step : Step → World → World
unfolding on_alert_created on_alert_acknowledged on_alert_resolved evaluate_cycle deliver_and_update
    create_policy update_policy set_policy_active delete_policy on_edition_downgraded
    on_edition_upgraded
take_step (created env a) w = on_alert_created env a w
take_step (acknowledged env id by at) w = on_alert_acknowledged env id by at w
take_step (resolved env id at) w = on_alert_resolved env id at w
take_step (cycle env) w = evaluate_cycle env w
take_step (sending env d a ch) w = deliver_and_update env d a ch w
take_step (create env req) w = (create_policy env req w).0
take_step (update env id req) w = (update_policy env id req w).0
take_step (activate env id active) w = (set_policy_active env id active w).0
take_step (remove env id) w = (delete_policy env id w).0
take_step (downgraded env) w = on_edition_downgraded env w
take_step (upgraded env) w = on_edition_upgraded env w

unfoldable pub take_steps : List Step → World → World
unfolding take_step
take_steps [] w = w
take_steps (x ∷ xs) w = take_steps xs (take_step x w)

abbrev pub empty_world : World
empty_world = record { policies = []; runs = []; deliveries = []; next_id = 0; out = [] }
