-- ===== src/Swarm/CrashLoop/Runs.antt =====
-- Any run of the detector's two periodic calls.
use maintenant.Base.{
  ℕ, ◌+◌, ◌≡◌, true, false, Option, none, some, List, [], ◌∷◌, arith, Str, Str_eq, if_elim,
}
use maintenant.Base.Map.{Map, lookup, IsUnique, insert-IsUnique, erase-IsUnique}
use maintenant.Swarm.CrashLoop.{
  SwarmService, SwarmTask, TopologySnapshot, FailureState, swarm_task_failed, Detector, or_fresh,
  pruned, record_failure, let_go, let_go_ignored, observe_task, observe_each, by_id, observe_tasks,
  check_one, check_each, check_recoveries, ignored_by_labels, failed_at, is_crash_looping,
}
use maintenant.Swarm.CrashLoop.Balance.{
  opened, closed, one, Balanced, observe_tasks-Balanced, check_recoveries-Balanced,
}

record_failure-IsUnique :
    (i : Str) (s : Detector) (name : Str) (at now : ℕ)
    → IsUnique s.services
    → IsUnique (record_failure s i name at now).services
unfolding record_failure
record_failure-IsUnique i s name at now u =
    let st = pruned (or_fresh (lookup i s.services)) name at now in
    ground (
      arith,
      insert-IsUnique i (record st { in_crash_loop = true }) s.services u,
      insert-IsUnique i st s.services u,
    )

let_go-IsUnique :
    (i : Str) (s : Detector) (svc : SwarmService) (now : ℕ) (o : Option FailureState)
    → IsUnique s.services
    → IsUnique (let_go s i svc now o).services
unfolding let_go
let_go-IsUnique i s svc now none u = u
let_go-IsUnique i s svc now (some st) u = ground (arith, erase-IsUnique i s.services u)

let_go_ignored-IsUnique :
    (now : ℕ) (l : Map Str SwarmService) (s : Detector)
    → IsUnique s.services
    → IsUnique (let_go_ignored now l s).services
unfolding let_go_ignored
let_go_ignored-IsUnique now [] s u = u
let_go_ignored-IsUnique now ((i, svc) ∷ l) s u = let_go_ignored-IsUnique now l _ (
    if_elim (λ (t : Detector). IsUnique t.services) (ignored_by_labels svc.labels)
      (λ e. let_go-IsUnique i s svc now (lookup i s.services) u) (λ e. u))

observe_task-IsUnique :
    (now : ℕ) (t : SwarmTask) (o : Option SwarmService) (st : List Str × Detector)
    → IsUnique st.1.services
    → IsUnique (observe_task now t o st).1.services
unfolding observe_task
observe_task-IsUnique now t none st u = u
observe_task-IsUnique now t (some svc) (failed, s) u = ground (
  arith,
  record_failure-IsUnique t.service_id
      (record s { out = swarm_task_failed t (failed_at now t) ∷ s.out }) svc.name (failed_at now t)
      now u,
)

observe_each-IsUnique :
    (now : ℕ) (m : Map Str SwarmService) (ts : List SwarmTask) (st : List Str × Detector)
    → IsUnique st.1.services
    → IsUnique (observe_each now m ts st).1.services
unfolding observe_each
observe_each-IsUnique now m [] st u = u
observe_each-IsUnique now m (t ∷ ts) st u =
    observe_each-IsUnique now m ts _ (observe_task-IsUnique now t (lookup t.service_id m) st u)

check_each-IsUnique :
    (now : ℕ) (m : Map Str FailureState) (s : Detector)
    → IsUnique s.services
    → IsUnique (check_each now m s).services
unfolding check_each check_one
check_each-IsUnique now [] s u = u
check_each-IsUnique now ((i, st) ∷ m) s u =
    check_each-IsUnique now m (check_one now i st s)
      (ground (arith, insert-IsUnique i (record st { in_crash_loop = false }) s.services u))

-- A call of the detector between two resumes.
pub data Call : Type 0 where
  observes : TopologySnapshot → ℕ → Call
  checks : ℕ → Call

abbrev pub step : Detector → Call → Detector
step s (observes snap now) = observe_tasks s snap now
step s (checks now) = check_recoveries s now

abbrev pub run : Detector → List Call → Detector
run s [] = s
run s (c ∷ cs) = run (step s c) cs

step-IsUnique : (s : Detector) (c : Call) → IsUnique s.services → IsUnique (step s c).services
unfolding observe_tasks check_recoveries
step-IsUnique s (observes snap now) u =
    observe_each-IsUnique now (by_id snap.services []) snap.tasks _
      (let_go_ignored-IsUnique now (by_id snap.services []) s u)
step-IsUnique s (checks now) u = check_each-IsUnique now s.services s u

step-Balanced :
    (k : ℕ) (id : Str) (s : Detector) (c : Call)
    → IsUnique s.services
    → Balanced k id s
    → Balanced k id (step s c)
step-Balanced k id s (observes snap now) u b = observe_tasks-Balanced k id s snap now b
step-Balanced k id s (checks now) u b = check_recoveries-Balanced k id s now u b

run-Balanced :
    (k : ℕ) (id : Str) (s : Detector) (cs : List Call)
    → IsUnique s.services
    → Balanced k id s
    → Balanced k id (run s cs)
run-Balanced k id s [] u b = b
run-Balanced k id s (c ∷ cs) u b =
    run-Balanced k id (step s c) cs (step-IsUnique s c u) (step-Balanced k id s c u b)

-- From a detector with no service under watch and nothing raised, whatever it observes and checks, each alert that it
-- raised for a service has been recovered, but for one more if the service is in a crash loop.
pub run_balanced :
    (failed : List Str) (cs : List Call) (id : Str)
    → let s = run (record { services = []; failed_tasks = failed; out = [] }) cs in
      opened id s.out ≡ closed id s.out + one (is_crash_looping s id)
unfolding is_crash_looping lookup
run_balanced failed cs id = omega (
  arith,
  run-Balanced 0 id (record { services = []; failed_tasks = failed; out = [] }) cs tt (omega arith),
)
