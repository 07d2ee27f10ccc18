-- ===== src/Escalation/Steps/Kept/Recover.antt =====
-- The whole cycle, with the recovery of deliveries.
use maintenant.Base.{
  ℕ, ◌-◌, ◌≤◌, refl, inl, inr, not, Option, none, some, List, [], ◌∷◌, arith, Str, lit, count,
  if_elim, Option-cases,
}
use maintenant.Alert.Model.{Alert, NotificationChannel}
use maintenant.Escalation.Model.{Run, Delivery, is_live}
use maintenant.Escalation.Store.{World, has_id, update_delivery, select_due_runs, select_orphans}
use maintenant.Escalation.Runner.{Env, orphans, due_runs}
use maintenant.Escalation.Runner.Cycle.{
  abandon_delivery, retry_on, recover_of, recover_each, recover_orphans, evaluate_cycle,
  orphan_timeout, is_firing,
}
use maintenant.Escalation.Steps.Rows.{count-select_due_runs}
use maintenant.Escalation.Steps.Kept.{IsLess, IsLess-refl, IsLess-trans, IsLess-of_runs}
use maintenant.Escalation.Steps.Kept.Cycle.{IsDueList, IsLess-process_runs}

IsLess-abandon_delivery :
    (env : Env) (d : Delivery) (reason : Str) (w : World)
    → IsLess w (abandon_delivery env d reason w)
unfolding abandon_delivery update_delivery
IsLess-abandon_delivery env d reason w =
    IsLess-of_runs w _ (ground arith) (ground arith) (ground arith)

IsLess-retry_on :
    (env : Env) (d : Delivery) (o : Option (Option Alert)) (c : Option (Option NotificationChannel))
    (w : World)
    → IsLess w (retry_on env d o c w)
unfolding retry_on
IsLess-retry_on env d (some (some a)) (some (some ch)) w =
    IsLess-of_runs w _ refl refl (omega arith)
IsLess-retry_on env d (some (some a)) (some none) w = IsLess-abandon_delivery env d _ w
IsLess-retry_on env d (some (some a)) none w = IsLess-abandon_delivery env d _ w
IsLess-retry_on env d (some none) c w = IsLess-abandon_delivery env d _ w
IsLess-retry_on env d none c w = IsLess-abandon_delivery env d _ w

IsLess-recover_of :
    (env : Env) (d : Delivery) (o : Option Run) (w : World) → IsLess w (recover_of env d o w)
unfolding recover_of
IsLess-recover_of env d none w = IsLess-abandon_delivery env d _ w
IsLess-recover_of env d (some r) w =
    if_elim (IsLess w) (not (is_live r.status)) (λ e. IsLess-abandon_delivery env d _ w)
      (λ e.
        if_elim (IsLess w) (not (is_firing (env.get_alert r.alert_id)))
          (λ e. IsLess-abandon_delivery env d _ w)
          (λ e. elim (Option-cases d.channel_id) [
            | inl e ↦ rw e (IsLess-abandon_delivery env d (lit "channel removed") w)
            | inr (id, e) ↦
                rw e (IsLess-retry_on env d (env.get_alert r.alert_id) (env.get_channel id) w)
          ]))

IsLess-recover_each :
    (env : Env) (ds : List Delivery) (w : World) → IsLess w (recover_each env ds w)
unfolding recover_each
IsLess-recover_each env [] w = IsLess-refl w
IsLess-recover_each env (d ∷ ds) w =
    IsLess-trans w _ _ (IsLess-recover_of env d _ w) (IsLess-recover_each env ds _)

IsLess-recover_orphans : (env : Env) (w : World) → IsLess w (recover_orphans env w)
unfolding recover_orphans
IsLess-recover_orphans env w =
    if_elim (IsLess w) (env.fails orphans) (λ e. IsLess-refl w)
      (λ e. IsLess-recover_each env (select_orphans (env.now - orphan_timeout) w) w)

pub IsLess-evaluate_cycle :
    (env : Env) (w : World)
    → ((id : ℕ) → count (has_id id) w.runs ≤ 1)
    → IsLess w (evaluate_cycle env w)
unfolding evaluate_cycle
IsLess-evaluate_cycle env w keyed =
    let v = recover_orphans env w in
    let first = IsLess-recover_orphans env w in
    let due : IsDueList (select_due_runs env.now v) v =
      λ id. ground (arith, count-select_due_runs id env.now v, first.ids id, keyed id) in
    if_elim (IsLess w) (not env.allowed) (λ e. IsLess-refl w)
      (λ e.
        if_elim (IsLess w) (env.fails due_runs) (λ e. first)
          (λ e.
            IsLess-trans w v _ first (IsLess-process_runs env (select_due_runs env.now v) v due)))
