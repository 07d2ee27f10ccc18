-- ===== src/Escalation/Steps/Kept.antt =====
-- The calls that start no run leave no more rows than there were.
pub mod Cycle
pub mod Recover
use maintenant.Base.{
  ℕ, suc, ◌+◌, ◌≤◌, ◌≡◌, refl, ◌∙◌, inl, inr, Bool, true, false, not, ◌&&◌, ◌||◌, Option, none,
  some, List, [], ◌∷◌, ◌++◌, arith, Str, str_eq, any, count, ◌==◌, if◌then◌else◌, Bool-cases,
  Option-cases,
}
use maintenant.Alert.Model.{Alert, NotificationChannel}
use maintenant.Escalation.Model.{
  Slot, RunStatus, stopped_by_ack, stopped_by_resolution, special_ack, is_live, Run, Policy,
  Delivery,
}
use maintenant.Escalation.Store.{
  World, update_where, change_runs, has_id, is_of, ended, terminate_run, insert_delivery,
  update_delivery, select_active_runs_by_alert,
}
use maintenant.Escalation.Runner.{
  Env, hand_over, reserve_and_send, dispatch_to_channel, dispatch_all, terminate, format_ack_alert,
  deliver_and_update,
}
use maintenant.Escalation.Runner.Hooks.{
  stop_run, tell_ack, acknowledge_runs, loaded, on_alert_acknowledged, resolve_runs,
  on_alert_resolved, notified_channels,
}
use maintenant.Escalation.Steps.Rows.{
  is_live_pair, is_dead, is_policy, count-update_where_ge, count-update_where,
  count-update_where_le,
}

-- `v` has the same runs by id, those that ended among them, and no more live runs of a policy for an alert or policies with an id than `w`.
pub record IsLess (w v : World) : Type 0 where
  pub pairs :
      (alert policy : Str)
      → count (is_live_pair alert policy) v.runs ≤ count (is_live_pair alert policy) w.runs
  pub ids : (id : ℕ) → count (has_id id) v.runs ≡ count (has_id id) w.runs
  pub dead : (id : ℕ) → count (is_dead id) w.runs ≤ count (is_dead id) v.runs
  pub next : w.next_id ≤ v.next_id
  pub policies : (id : Str) → count (is_policy id) v.policies ≤ count (is_policy id) w.policies

pub IsLess-refl : (w : World) → IsLess w w
IsLess-refl w = record {
  pairs = λ a p. omega arith;
  ids = λ i. refl;
  dead = λ i. omega arith;
  next = omega arith;
  policies = λ i. omega arith;
}

pub IsLess-trans : (u v w : World) → IsLess u v → IsLess v w → IsLess u w
IsLess-trans u v w f g = record {
  pairs = λ a p. omega (arith, f.pairs a p, g.pairs a p);
  ids = λ i. omega (arith, f.ids i, g.ids i);
  dead = λ i. omega (arith, f.dead i, g.dead i);
  next = omega (arith, f.next, g.next);
  policies = λ i. omega (arith, f.policies i, g.policies i);
}

-- A change of rows that makes no run live and keeps its keys.
pub IsLess-change_runs :
    (test : Run → Bool) (f : Run → Run) (w : World)
    → ((r : Run) → (f r).id ≡ r.id)
    → ((r : Run) (a p : Str)
        → test r ≡ true
        → is_live_pair a p (f r) ≡ true
        → is_live_pair a p r ≡ true)
    → ((r : Run) → test r ≡ true → is_live (f r).status ≡ true → is_live r.status ≡ true)
    → IsLess w (change_runs test f w)
IsLess-change_runs test f w same live ends = record {
  pairs = λ a p. count-update_where_le (is_live_pair a p) test f (λ r. live r a p) w.runs;
  ids = λ i. count-update_where (has_id i) test f (λ r e. rw (same r) refl) w.runs;
  dead = λ i.
      count-update_where_ge (is_dead i) test f (λ r t e. ground (arith, same r, ends r t)) w.runs;
  next = omega arith;
  policies = λ i. omega arith;
}

-- The same runs and policies, and perhaps more ids in use.
pub IsLess-of_runs :
    (w v : World) → v.runs ≡ w.runs → v.policies ≡ w.policies → w.next_id ≤ v.next_id → IsLess w v
IsLess-of_runs w v e f h = record {
  pairs = λ a p. rw e (omega arith);
  ids = λ i. rw e refl;
  dead = λ i. rw e (omega arith);
  next = h;
  policies = λ i. rw f (omega arith);
}

IsLess-reserve_and_send :
    (env : Env) (a : Alert) (run : ℕ) (slot : Slot) (id : Str)
    (o : Option (Option NotificationChannel)) (w : World)
    → IsLess w (reserve_and_send env a run slot id o w)
unfolding reserve_and_send hand_over insert_delivery update_delivery
IsLess-reserve_and_send env a run slot id none w = IsLess-refl w
IsLess-reserve_and_send env a run slot id (some none) w = IsLess-refl w
IsLess-reserve_and_send env a run slot id (some (some ch)) w =
    IsLess-of_runs w _ (ground arith) (ground arith) (ground arith)

runs-reserve_and_send :
    (env : Env) (a : Alert) (run : ℕ) (slot : Slot) (id : Str)
    (o : Option (Option NotificationChannel)) (w : World)
    → (reserve_and_send env a run slot id o w).runs ≡ w.runs
unfolding reserve_and_send hand_over insert_delivery update_delivery
runs-reserve_and_send env a run slot id none w = refl
runs-reserve_and_send env a run slot id (some none) w = refl
runs-reserve_and_send env a run slot id (some (some ch)) w = ground arith

pub runs-dispatch_all :
    (env : Env) (a : Alert) (run : ℕ) (slot : Slot) (ids : List Str) (w : World)
    → (dispatch_all env a run slot ids w).runs ≡ w.runs
unfolding dispatch_all dispatch_to_channel
runs-dispatch_all env a run slot [] w = refl
runs-dispatch_all env a run slot (id ∷ ids) w =
    let next = reserve_and_send env a run slot id (env.get_channel id) w in
    runs-dispatch_all env a run slot ids next
    ∙ runs-reserve_and_send env a run slot id (env.get_channel id) w

pub IsLess-dispatch_all :
    (env : Env) (a : Alert) (run : ℕ) (slot : Slot) (ids : List Str) (w : World)
    → IsLess w (dispatch_all env a run slot ids w)
unfolding dispatch_all dispatch_to_channel
IsLess-dispatch_all env a run slot [] w = IsLess-refl w
IsLess-dispatch_all env a run slot (id ∷ ids) w =
    IsLess-trans w _ _ (IsLess-reserve_and_send env a run slot id (env.get_channel id) w)
      (IsLess-dispatch_all env a run slot ids _)

pub IsLess-stop_run :
    (env : Env) (id : ℕ) (status : RunStatus) (at : ℕ) (w : World)
    → is_live status ≡ false
    → IsLess w (stop_run env id status at w)
unfolding stop_run terminate_run
IsLess-stop_run env id status at w dead =
    let stopped =
      IsLess-change_runs (has_id id) (ended status at) w (λ r. refl) (λ r a p t e. ground arith)
        (λ r t e. ground arith) in
    ground (arith, IsLess-refl w, stopped)

IsLess-tell_ack :
    (env : Env) (o : Option Alert) (by : Str) (at : ℕ) (r : Run) (w : World)
    → IsLess w (tell_ack env o by at r w)
unfolding tell_ack
IsLess-tell_ack env none by at r w = IsLess-refl w
IsLess-tell_ack env (some a) by at r w = ground (
  arith,
  IsLess-refl w,
  IsLess-dispatch_all env (format_ack_alert env a by at) r.id special_ack (notified_channels r.id w)
      w,
)

IsLess-acknowledge_runs :
    (env : Env) (o : Option Alert) (by : Str) (at : ℕ) (rs : List Run) (w : World)
    → IsLess w (acknowledge_runs env o by at rs w)
unfolding acknowledge_runs
IsLess-acknowledge_runs env o by at [] w = IsLess-refl w
IsLess-acknowledge_runs env o by at (r ∷ rs) w =
    let stopped = stop_run env r.id stopped_by_ack env.now w in
    let told =
      IsLess-trans w stopped _ (IsLess-stop_run env r.id stopped_by_ack env.now w refl)
        (IsLess-tell_ack env o by at r stopped) in
    IsLess-trans w _ _ (ground (arith, IsLess-refl w, told))
      (IsLess-acknowledge_runs env o by at rs _)

pub IsLess-on_alert_acknowledged :
    (env : Env) (id by : Str) (at : ℕ) (w : World) → IsLess w (on_alert_acknowledged env id by at w)
unfolding on_alert_acknowledged
IsLess-on_alert_acknowledged env id by at w = ground (
  arith,
  IsLess-refl w,
  IsLess-acknowledge_runs env (loaded (env.get_alert id)) by at (select_active_runs_by_alert id w)
      w,
)

IsLess-resolve_runs :
    (env : Env) (at : ℕ) (rs : List Run) (w : World) → IsLess w (resolve_runs env at rs w)
unfolding resolve_runs
IsLess-resolve_runs env at [] w = IsLess-refl w
IsLess-resolve_runs env at (r ∷ rs) w =
    IsLess-trans w _ _ (IsLess-stop_run env r.id stopped_by_resolution at w refl)
      (IsLess-resolve_runs env at rs _)

pub IsLess-on_alert_resolved :
    (env : Env) (id : Str) (at : ℕ) (w : World) → IsLess w (on_alert_resolved env id at w)
unfolding on_alert_resolved
IsLess-on_alert_resolved env id at w =
    ground (arith, IsLess-refl w, IsLess-resolve_runs env at (select_active_runs_by_alert id w) w)

pub IsLess-deliver_and_update :
    (env : Env) (d : Delivery) (a : Alert) (ch : NotificationChannel) (w : World)
    → IsLess w (deliver_and_update env d a ch w)
unfolding deliver_and_update update_delivery
IsLess-deliver_and_update env d a ch w =
    IsLess-of_runs w _ (ground arith) (ground arith) (ground arith)
