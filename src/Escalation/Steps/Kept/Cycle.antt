-- ===== src/Escalation/Steps/Kept/Cycle.antt =====
-- The cycle makes no ended run live, if the ids of the runs that it steps belong to live rows.
use maintenant.Base.{
  ◌==◌, ==_iff, Bool-cases, inl, inr, ℕ, suc, ◌+◌, ◌≤◌, ◌≡◌, ◌≢◌, refl, ◌∙◌, inl, inr, Bool, true,
  false, not, Option, none, some, List, [], ◌∷◌, arith, Str, str_eq, length, get_elem?, count, ◌==◌,
  if◌then◌else◌, if_elim, Bool-cases, Option-cases,
}
use maintenant.Alert.Model.{Alert, status_active}
use maintenant.Escalation.Model.{
  Level, Policy, Slot, special_exhausted, level, Run, RunStatus, exhausted, stopped_by_ack,
  stopped_by_resolution, is_live, is_paused,
}
use maintenant.Escalation.Store.{
  World, emit, set_escalated_at, change_runs, has_id, ended, terminate_run, update_run_progress,
  pause_run_for_maintenance, resume_run_from_maintenance,
}
use maintenant.Escalation.Runner.{
  Env, dispatch_all, format_exhausted_alert, progress, pause, resume, escalated,
}
use maintenant.Escalation.Runner.Hooks.{stop_run}
use maintenant.Escalation.Runner.Cycle.{
  execute_level, exhaust, follow_policy, step_run, process_run, process_runs, maintenance_recheck,
  last_channels, next_at, is_set,
}
use maintenant.Escalation.Steps.Rows.{
  is_live_pair, is_dead, count-update_where, count-update_where_live,
}
use maintenant.Escalation.Steps.Kept.{
  IsLess, IsLess-refl, IsLess-trans, IsLess-of_runs, IsLess-stop_run, IsLess-dispatch_all,
  runs-dispatch_all,
}

-- `v` comes from `w` by a step of the run: no other run's life changes.
record IsStep (id : ℕ) (w v : World) : Type 0 where
  less : IsLess w v
  others : (i : ℕ) → i ≢ id → count (is_dead i) v.runs ≡ count (is_dead i) w.runs

IsStep-refl : (id : ℕ) (w : World) → IsStep id w w
IsStep-refl id w = record { less = IsLess-refl w; others = λ i ne. refl }

IsStep-trans : (id : ℕ) (u v w : World) → IsStep id u v → IsStep id v w → IsStep id u w
IsStep-trans id u v w f g = record {
  less = IsLess-trans u v w f.less g.less;
  others = λ i ne. g.others i ne ∙ f.others i ne;
}

-- A change of the row of a live run.
IsStep-change_runs :
    (id : ℕ) (test : Run → Bool) (f : Run → Run) (w : World)
    → ((r : Run) → test r ≡ true → has_id id r ≡ true)
    → ((r : Run) → (f r).id ≡ r.id)
    → ((r : Run) (a p : Str)
        → is_live_pair a p (f r) ≡ true
        → is_live r.status ≡ true
        → is_live_pair a p r ≡ true)
    → count (is_dead id) w.runs ≡ 0
    → IsStep id w (change_runs test f w)
IsStep-change_runs id test f w own same live dead =
    let others = λ (i : ℕ) (ne : i ≢ id).
      count-update_where (is_dead i) test f (λ r e. ground (arith, own r e, same r)) w.runs in
    record {
      less = record {
        pairs = λ a p.
            count-update_where_live (is_live_pair a p) id test f own (λ r. live r a p) w.runs dead;
        ids = λ i. count-update_where (has_id i) test f (λ r e. rw (same r) refl) w.runs;
        dead = λ i. elim (Bool-cases (i == id)) [
          | inl e ↦
              let none_dead : count (is_dead i) w.runs ≡ 0 = rw ((==_iff i id).0 e) dead in
              omega (arith, none_dead)
          | inr e ↦ let kept = others i (ground arith) in omega (arith, kept)
        ];
        next = omega arith;
        policies = λ i. omega arith;
      };
      others = others;
    }

IsStep-stop_run :
    (env : Env) (id : ℕ) (status : RunStatus) (at : ℕ) (w : World)
    → is_live status ≡ false
    → IsStep id w (stop_run env id status at w)
IsStep-stop_run env id status at w dead = record {
  less = IsLess-stop_run env id status at w dead;
  others = λ i ne.
      unfold stop_run terminate_run in
      ground (
        arith,
        count-update_where (is_dead i) (has_id id) (ended status at) (λ r e. ground arith) w.runs,
      );
}

IsStep-dispatch_all :
    (id : ℕ) (env : Env) (a : Alert) (run : ℕ) (slot : Slot) (ids : List Str) (w : World)
    → IsStep id w (dispatch_all env a run slot ids w)
IsStep-dispatch_all id env a run slot ids w = record {
  less = IsLess-dispatch_all env a run slot ids w;
  others = λ i ne. rw (runs-dispatch_all env a run slot ids w) refl;
}

IsStep-emit :
    (id : ℕ) (alert : Str) (at : ℕ) (w : World) → IsStep id w (emit (set_escalated_at alert at) w)
IsStep-emit id alert at w = record {
  less = IsLess-of_runs w _ refl refl (omega arith);
  others = λ i ne. refl;
}

IsStep-update_run_progress :
    (id executed next : ℕ) (w : World)
    → count (is_dead id) w.runs ≡ 0
    → IsStep id w (update_run_progress id executed next w)
unfolding update_run_progress
IsStep-update_run_progress id executed next w dead =
    IsStep-change_runs id (has_id id) _ w (λ r e. e) (λ r. refl) (λ r a p e k. ground arith) dead

-- The world after the sends of a level and its mark on the alert.
abbrev marked : Env → Run → Alert → Level → World → World
marked env r a l w =
    if env.fails (escalated a.id)
    then dispatch_all env a r.id (level r.executed) l.channel_ids w
    else emit (set_escalated_at a.id env.now)
        (dispatch_all env a r.id (level r.executed) l.channel_ids w)

IsStep-marked :
    (env : Env) (r : Run) (a : Alert) (l : Level) (w : World)
    → IsStep r.id w (marked env r a l w) × ((marked env r a l w).runs ≡ w.runs)
IsStep-marked env r a l w =
    let told = dispatch_all env a r.id (level r.executed) l.channel_ids w in
    let noted = emit (set_escalated_at a.id env.now) told in
    let sent = IsStep-dispatch_all r.id env a r.id (level r.executed) l.channel_ids w in
    let same = runs-dispatch_all env a r.id (level r.executed) l.channel_ids w in
    if_elim (λ (v : World). IsStep r.id w v × (v.runs ≡ w.runs)) (env.fails (escalated a.id))
      {x = told} {y = noted} (λ e. (sent, same))
      (λ e. (IsStep-trans r.id w told noted sent (IsStep-emit r.id a.id env.now told), same))

IsStep-execute_level :
    (env : Env) (r : Run) (a : Alert) (p : Policy) (l : Level) (w : World)
    → count (is_dead r.id) w.runs ≡ 0
    → IsStep r.id w (execute_level env r a p l w)
unfolding execute_level
IsStep-execute_level env r a p l w dead =
    let next = next_at env r l (get_elem? p.levels (suc r.executed)) in
    let (before, same) = IsStep-marked env r a l w in
    let after =
      IsStep-update_run_progress r.id (suc r.executed) next (marked env r a l w) (rw same dead) in
    if_elim (IsStep r.id w) (env.fails (progress r.id)) {x = marked env r a l w}
      {y = update_run_progress r.id (suc r.executed) next (marked env r a l w)} (λ e. before)
      (λ e. IsStep-trans r.id w _ _ before after)

IsStep-follow_policy :
    (env : Env) (r : Run) (a : Alert) (o : Option Policy) (w : World)
    → count (is_dead r.id) w.runs ≡ 0
    → IsStep r.id w (follow_policy env r a o w)
unfolding follow_policy exhaust
IsStep-follow_policy env r a none w dead = IsStep-stop_run env r.id _ env.now w refl
IsStep-follow_policy env r a (some p) w dead = elim (Option-cases (get_elem? p.levels r.executed)) [
  | inl e ↦
      let ids = last_channels p.levels r.executed in
      let notice = format_exhausted_alert env a (length p.levels) in
      let told = dispatch_all env notice r.id special_exhausted ids w in
      ground (
        arith,
        IsStep-trans r.id w told (stop_run env r.id exhausted env.now told)
            (IsStep-dispatch_all r.id env notice r.id special_exhausted ids w)
            (IsStep-stop_run env r.id exhausted env.now told refl),
      )
  | inr (l, e) ↦ ground (arith, IsStep-execute_level env r a p l w dead)
]

IsStep-pause :
    (id at : ℕ) (w : World)
    → count (is_dead id) w.runs ≡ 0
    → IsStep id w (pause_run_for_maintenance id at w)
unfolding pause_run_for_maintenance
IsStep-pause id at w dead =
    IsStep-change_runs id _ _ w (λ r e. ground arith) (λ r. refl) (λ r a p e k. ground arith) dead

IsStep-resume :
    (id at : ℕ) (w : World)
    → count (is_dead id) w.runs ≡ 0
    → IsStep id w (resume_run_from_maintenance id at w)
unfolding resume_run_from_maintenance
IsStep-resume id at w dead =
    IsStep-change_runs id _ _ w (λ r e. ground arith) (λ r. refl) (λ r a p e k. ground arith) dead

IsStep-step_run :
    (env : Env) (r : Run) (o : Option (Option Alert)) (w : World)
    → count (is_dead r.id) w.runs ≡ 0
    → IsStep r.id w (step_run env r o w)
unfolding step_run
IsStep-step_run env r none w dead = IsStep-refl r.id w
IsStep-step_run env r (some none) w dead = IsStep-stop_run env r.id _ env.now w refl
IsStep-step_run env r (some (some a)) w dead =
    let recheck = env.now + maintenance_recheck in
    let stop = λ (status : RunStatus) (e : is_live status ≡ false).
      IsStep-stop_run env r.id status env.now w e in
    if_elim (IsStep r.id w) (not (str_eq a.status status_active))
      {x = stop_run env r.id stopped_by_resolution env.now w} (λ e. stop stopped_by_resolution refl)
      (λ e.
        if_elim (IsStep r.id w) (is_set a.acknowledged_at)
          {x = stop_run env r.id stopped_by_ack env.now w} (λ e. stop stopped_by_ack refl)
          (λ e.
            if_elim (IsStep r.id w) (env.is_suppressed a.source a.entity_type a.entity_id)
              (λ e.
                if_elim (IsStep r.id w) (env.fails (pause r.id)) {x = w}
                  {y = pause_run_for_maintenance r.id recheck w} (λ e. IsStep-refl r.id w)
                  (λ e. IsStep-pause r.id recheck w dead))
              (λ e.
                if_elim (IsStep r.id w) (is_paused r.status)
                  {y = follow_policy env r a r.snapshot w}
                  (λ e.
                    if_elim (IsStep r.id w) (env.fails (resume r.id)) {x = w}
                      {y = resume_run_from_maintenance r.id env.now w} (λ e. IsStep-refl r.id w)
                      (λ e. IsStep-resume r.id env.now w dead))
                  (λ e. IsStep-follow_policy env r a r.snapshot w dead))))

dead_le : (id : ℕ) (rs : List Run) → count (is_dead id) rs ≤ count (has_id id) rs
unfolding count
dead_le id [] = omega arith
dead_le id (r ∷ rs) = ground (arith, dead_le id rs)

-- The runs to step are live rows, each once, and no two rows have an id.
abbrev pub IsDueList : List Run → World → Type 0
IsDueList rs w =
    (id : ℕ)
    → (count (has_id id) rs + count (is_dead id) w.runs ≤ 1) × (count (has_id id) w.runs ≤ 1)

pub IsLess-process_runs :
    (env : Env) (rs : List Run) (w : World) → IsDueList rs w → IsLess w (process_runs env rs w)
unfolding process_runs process_run
IsLess-process_runs env [] w h = IsLess-refl w
IsLess-process_runs env (r ∷ rs) w h =
    let v = step_run env r (env.get_alert r.alert_id) w in
    let own : count (has_id r.id) (r ∷ rs) + count (is_dead r.id) w.runs ≤ 1 = (h r.id).0 in
    let dead : count (is_dead r.id) w.runs ≡ 0 = unfold count in ground arith in
    let step = IsStep-step_run env r (env.get_alert r.alert_id) w dead in
    let still : IsDueList rs v = λ id.
      unfold count in ground (arith, (h id), step.others id, step.less.ids id, dead_le id v.runs) in
    IsLess-trans w v _ step.less (IsLess-process_runs env rs v still)
