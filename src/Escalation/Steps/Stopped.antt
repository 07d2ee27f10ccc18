-- ===== src/Escalation/Steps/Stopped.antt =====
-- The hooks that end the escalation of an alert leave no live run of it.
use maintenant.Base.{
  ℕ, ◌≤◌, ◌≡◌, refl, Bool, true, false, not, ◌&&◌, Option, none, some, List, [], ◌∷◌, arith, Str,
  str_eq, any, count, keep,
}
use maintenant.Alert.Model.{Alert}
use maintenant.Escalation.Model.{
  Run, RunStatus, stopped_by_ack, stopped_by_resolution, special_ack, is_live,
}
use maintenant.Escalation.Store.{
  World, update_where, has_id, ended, terminate_run, select_active_runs_by_alert,
}
use maintenant.Escalation.Runner.{Env, list_runs, terminate, format_ack_alert}
use maintenant.Escalation.Runner.Hooks.{
  stop_run, tell_ack, acknowledge_runs, loaded, on_alert_acknowledged, resolve_runs,
  on_alert_resolved, notified_channels,
}
use maintenant.Escalation.Steps.Kept.{runs-dispatch_all}

abbrev pub is_live_for : Str → Run → Bool
is_live_for alert r = str_eq r.alert_id alert && is_live r.status

-- A live run of the alert that is not in the list.
abbrev is_missed : Str → List Run → Run → Bool
unfolding any
is_missed alert rs r = is_live_for alert r && not (any (has_id r.id) rs)

missed_none :
    (alert : Str) (xs : List Run) → count (is_missed alert []) xs ≡ count (is_live_for alert) xs
unfolding count any
missed_none alert [] = refl
missed_none alert (x ∷ xs) = ground (arith, missed_none alert xs)

missed_of :
    (alert : Str) (rs xs : List Run)
    → ((id : ℕ) → any (has_id id) (keep (is_live_for alert) xs) ≡ true → any (has_id id) rs ≡ true)
    → count (is_missed alert rs) xs ≡ 0
unfolding count any keep
missed_of alert rs [] h = refl
missed_of alert rs (x ∷ xs) h =
    ground (arith, h x.id, missed_of alert rs xs (λ i e. h i (ground arith)))

-- The runs of the alert that a search for the live ones misses.
missed-select :
    (alert : Str) (w : World)
    → count (is_missed alert (select_active_runs_by_alert alert w)) w.runs ≡ 0
unfolding select_active_runs_by_alert
missed-select alert w = missed_of alert (keep (is_live_for alert) w.runs) w.runs (λ i e. e)

missed-terminate_run :
    (alert : Str) (r : Run) (rs : List Run) (status : RunStatus) (at : ℕ) (xs : List Run)
    → is_live status ≡ false
    → count (is_missed alert rs) (update_where (has_id r.id) (ended status at) xs)
      ≤ count (is_missed alert (r ∷ rs)) xs
unfolding count update_where any
missed-terminate_run alert r rs status at [] dead = omega arith
missed-terminate_run alert r rs status at (x ∷ xs) dead =
    ground (arith, missed-terminate_run alert r rs status at xs dead)

module _ (env : Env) (alert : Str) (heard : (n : ℕ) → env.fails (terminate n) ≡ false) where
  live-resolve_runs :
      (at : ℕ) (rs : List Run) (w : World)
      → count (is_live_for alert) (resolve_runs env at rs w).runs
        ≤ count (is_missed alert rs) w.runs
  unfolding resolve_runs stop_run terminate_run
  live-resolve_runs at [] w = omega (arith, missed_none alert w.runs)
  live-resolve_runs at (r ∷ rs) w = ground (
    arith,
    heard r.id,
    live-resolve_runs at rs (stop_run env r.id stopped_by_resolution at w),
    missed-terminate_run alert r rs stopped_by_resolution at w.runs refl,
  )

  runs-tell_ack :
      (o : Option Alert) (by : Str) (at : ℕ) (r : Run) (w : World)
      → (tell_ack env o by at r w).runs ≡ w.runs
  unfolding tell_ack
  runs-tell_ack none by at r w = refl
  runs-tell_ack (some a) by at r w = ground (
    arith,
    runs-dispatch_all env (format_ack_alert env a by at) r.id special_ack (notified_channels r.id w)
        w,
  )

  live-acknowledge_runs :
      (o : Option Alert) (by : Str) (at : ℕ) (rs : List Run) (w : World)
      → count (is_live_for alert) (acknowledge_runs env o by at rs w).runs
        ≤ count (is_missed alert rs) w.runs
  unfolding acknowledge_runs stop_run terminate_run
  live-acknowledge_runs o by at [] w = omega (arith, missed_none alert w.runs)
  live-acknowledge_runs o by at (r ∷ rs) w =
      let v = stop_run env r.id stopped_by_ack env.now w in
      ground (
        arith,
        heard r.id,
        live-acknowledge_runs o by at rs (tell_ack env o by at r v),
        runs-tell_ack o by at r v,
        missed-terminate_run alert r rs stopped_by_ack env.now w.runs refl,
      )

-- If the runs of the alert can be listed and ended, then no run of it is active or paused after the hook of an
-- acknowledgment, nor after that of a resolution, whatever other calls fail.
pub hooks_end_runs :
    (env : Env) (alert by : Str) (at : ℕ) (w : World)
    → env.fails (list_runs alert) ≡ false
    → ((n : ℕ) → env.fails (terminate n) ≡ false)
    → (count (is_live_for alert) (on_alert_acknowledged env alert by at w).runs ≡ 0)
      × (count (is_live_for alert) (on_alert_resolved env alert at w).runs ≡ 0)
unfolding on_alert_acknowledged on_alert_resolved
hooks_end_runs env alert by at w listed heard =
    let rs = select_active_runs_by_alert alert w in
    (
      ground (
        arith,
        missed-select alert w,
        live-acknowledge_runs env alert heard (loaded (env.get_alert alert)) by at rs w,
      ),
      ground (arith, missed-select alert w, live-resolve_runs env alert heard at rs w),
    )
