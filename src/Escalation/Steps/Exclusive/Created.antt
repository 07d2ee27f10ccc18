-- ===== src/Escalation/Steps/Exclusive/Created.antt =====
-- OnAlertCreated starts no second run of a policy for an alert.
use maintenant.Base.{
  ℕ, ◌≤◌, ◌≡◌, ◌≢◌, refl, sym, ◌∙◌, true, false, not, ◌&&◌, ◌||◌, Option, none, some, List, [], ◌∷◌,
  arith, Str, str_eq, str_eq_iff, is_empty, any, count, any-count, count-append, count-keep, keep,
  if_elim,
}
use maintenant.Alert.Model.{Alert}
use maintenant.Escalation.Model.{Level, Policy, Run, is_live}
use maintenant.Escalation.Store.{
  World, has_id, is_of, insert_run, select_active_runs_by_alert, select_policies,
}
use maintenant.Escalation.Runner.{
  Env, match_policy_filters, list_runs, list_policies, insert_run_of,
}
use maintenant.Escalation.Runner.Hooks.{
  new_run, start_run, is_covered, start_runs, on_alert_created,
}
use maintenant.Escalation.Steps.Rows.{is_live_pair, is_policy}
use maintenant.Escalation.Steps.Exclusive.{IsWell}

-- What the loop over the policies relies on: a policy that is left has no live run for the alert, unless it
-- was covered at the start.
record IsOpen (alert : Str) (existing : List Run) (ps : List Policy) (w : World) : Type 0 where
  well : IsWell w
  once : (id : Str) → count (is_policy id) ps ≤ 1
  idle :
      (p : Policy)
      → any (is_policy p.id) ps ≡ true
      → is_covered p existing ≡ false
      → count (is_live_pair alert p.id) w.runs ≡ 0

-- The row of a run that OnAlertCreated inserts.
abbrev row : Env → Alert → Policy → ℕ → Option Policy → ℕ → Run
row env a p delay s key = record (new_run env a p delay s) { id = key }

pairs-row :
    (env : Env) (a : Alert) (p : Policy) (delay : ℕ) (s : Option Policy) (key : ℕ)
    (alert policy : Str) (rs : List Run)
    → count (is_live_pair a.id p.id) rs ≡ 0
    → is_live_pair alert policy (row env a p delay s key) ≡ true
    → count (is_live_pair alert policy) rs ≡ 0
pairs-row env a p delay s key alert policy rs idle same =
    let alert_eq : a.id ≡ alert = ground (arith, str_eq_iff a.id alert) in
    let policy_eq : p.id ≡ policy = ground (arith, str_eq_iff p.id policy) in
    rw (sym alert_eq, sym policy_eq) idle

IsWell-insert_run :
    (env : Env) (a : Alert) (p : Policy) (delay : ℕ) (s : Option Policy) (w : World)
    → IsWell w
    → count (is_live_pair a.id p.id) w.runs ≡ 0
    → IsWell (insert_run (new_run env a p delay s) w)
unfolding insert_run count
IsWell-insert_run env a p delay s w h idle =
    let new = row env a p delay s w.next_id in
    record {
      pairs = λ al po. ground (
        arith,
        h.pairs al po,
        pairs-row env a p delay s w.next_id al po w.runs idle,
        count-append (is_live_pair al po) w.runs (new ∷ []),
      );
      ids = λ i. ground (arith, h.ids i, h.fresh i, count-append (has_id i) w.runs (new ∷ []));
      fresh = λ i b. ground (arith, h.fresh i, count-append (has_id i) w.runs (new ∷ []));
      policies = h.policies;
    }

others-insert_run :
    (env : Env) (a : Alert) (p : Policy) (delay : ℕ) (s : Option Policy) (w : World) (policy : Str)
    → p.id ≢ policy
    → count (is_live_pair a.id policy) (insert_run (new_run env a p delay s) w).runs
      ≡ count (is_live_pair a.id policy) w.runs
unfolding insert_run count
others-insert_run env a p delay s w policy ne = ground (
  arith,
  str_eq_iff p.id policy,
  count-append (is_live_pair a.id policy) w.runs (row env a p delay s w.next_id ∷ []),
)

-- One policy of the loop, whether a run starts or not.
record IsStarted (alert : Str) (p : Policy) (w v : World) : Type 0 where
  well : IsWell v
  others :
      (policy : Str)
      → p.id ≢ policy
      → count (is_live_pair alert policy) v.runs ≡ count (is_live_pair alert policy) w.runs

IsStarted-start_run :
    (env : Env) (a : Alert) (p : Policy) (ls : List Level) (o : Option (Option Policy)) (w : World)
    → IsWell w
    → count (is_live_pair a.id p.id) w.runs ≡ 0
    → IsStarted a.id p w (start_run env a p ls o w)
unfolding start_run
IsStarted-start_run env a p [] o w h idle = record { well = h; others = λ q ne. refl }
IsStarted-start_run env a p (l ∷ ls) none w h idle = record { well = h; others = λ q ne. refl }
IsStarted-start_run env a p (l ∷ ls) (some s) w h idle =
    if_elim (IsStarted a.id p w) (env.fails (insert_run_of p.id)) {x = w}
      {y = insert_run (new_run env a p l.delay_seconds s) w}
      (λ e. record { well = h; others = λ q ne. refl })
      (λ e. record {
        well = IsWell-insert_run env a p l.delay_seconds s w h idle;
        others = λ q ne. others-insert_run env a p l.delay_seconds s w q ne;
      })

IsWell-start_runs :
    (env : Env) (a : Alert) (existing : List Run) (ps : List Policy) (w : World)
    → IsOpen a.id existing ps w
    → IsWell (start_runs env a existing ps w)
unfolding start_runs
IsWell-start_runs env a existing [] w h = h.well
IsWell-start_runs env a existing (p ∷ ps) w h =
    let first : any (is_policy p.id) (p ∷ ps) ≡ true =
      unfold any in ground (arith, str_eq_iff p.id p.id) in
    let v = start_run env a p p.levels (env.marshal p) w in
    let skip : IsOpen a.id existing ps w = record {
      well = h.well;
      once = λ i. unfold count in ground (arith, h.once i);
      idle = λ q e c. h.idle q (unfold any in ground arith) c;
    } in
    let go = λ (c : is_covered p existing ≡ false).
      let started =
        IsStarted-start_run env a p p.levels (env.marshal p) w h.well (h.idle p first c) in
      let left : IsOpen a.id existing ps v = record {
        well = started.well;
        once = skip.once;
        idle = λ q e c.
            let apart : p.id ≢ q.id =
              unfold count in
              ground (arith, h.once q.id, any-count (is_policy q.id) ps e, str_eq_iff p.id q.id) in
            started.others q.id apart ∙ skip.idle q e c;
      } in
      left in
    IsWell-start_runs env a existing ps _ (
      if_elim (IsOpen a.id existing ps)
        (is_covered p existing || not (match_policy_filters a p.filters)) {x = w} {y = v}
        (λ e. skip) (λ e. go (ground arith)))

covered_live :
    (alert policy : Str) (rs : List Run)
    → any
        (λ r. is_of r.policy_id policy)
        (keep (λ r. str_eq r.alert_id alert && is_live r.status) rs)
      ≡ false
    → count (is_live_pair alert policy) rs ≡ 0
unfolding any keep count
covered_live alert policy [] h = refl
covered_live alert policy (r ∷ rs) h = ground (arith, covered_live alert policy rs)

pub IsWell-on_alert_created :
    (env : Env) (a : Alert) (w : World) → IsWell w → IsWell (on_alert_created env a w)
unfolding on_alert_created
IsWell-on_alert_created env a w h =
    let ready : IsOpen a.id (select_active_runs_by_alert a.id w) (select_policies true w) w =
      record {
        well = h;
        once = λ id.
            unfold select_policies in
            omega (
              arith,
              h.policies id,
              count-keep (is_policy id) (λ p. not true || p.active) w.policies,
            );
        idle = λ p e c. covered_live a.id p.id w.runs (unfold select_active_runs_by_alert in c);
      } in
    if_elim IsWell
      (is_empty a.id || not env.allowed || env.fails (list_runs a.id) || env.fails list_policies)
      (λ e. h)
      (λ e.
        IsWell-start_runs env a (select_active_runs_by_alert a.id w) (select_policies true w) w
          ready)
