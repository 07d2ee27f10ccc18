-- ===== src/Swarm/CrashLoop/Balance.antt =====
-- Alerts and recoveries of the crash-loop detector, counted for each service.
use maintenant.Base.{
  ℕ, suc, ◌+◌, ◌≡◌, refl, ◌∙◌, inl, inr, Bool, true, false, Option, none, some, List, [], ◌∷◌,
  arith, Str, str_eq, str_eq_iff, Str_eq, if◌then◌else◌, Bool-cases, Option-cases, if_elim,
}
use maintenant.Base.Map.{Map, lookup, lookup-insert, lookup-erase, IsUnique}
use maintenant.Swarm.CrashLoop.{
  SwarmService, SwarmTask, TopologySnapshot, FailureState, Signal, swarm_task_failed,
  crash_loop_detected, crash_loop_recovered, crash_loop_alert, recovery_alert, Detector, or_fresh,
  pruned, record_failure, let_go, let_go_ignored, observe_known, observe_task, observe_each, by_id,
  observe_tasks, check_one, check_each, check_recoveries, in_loop, task_failed, ignored_by_labels,
  failed_at,
}

abbrev pub opened : Str → List Signal → ℕ
opened id [] = 0
opened id (crash_loop_alert i n t ∷ out) =
    let rest = opened id out in if str_eq i id then suc rest else rest
opened id (swarm_task_failed k t ∷ out) = opened id out
opened id (crash_loop_detected i t ∷ out) = opened id out
opened id (crash_loop_recovered i t ∷ out) = opened id out
opened id (recovery_alert i n t ∷ out) = opened id out

abbrev pub closed : Str → List Signal → ℕ
closed id [] = 0
closed id (recovery_alert i n t ∷ out) =
    let rest = closed id out in if str_eq i id then suc rest else rest
closed id (swarm_task_failed k t ∷ out) = closed id out
closed id (crash_loop_detected i t ∷ out) = closed id out
closed id (crash_loop_recovered i t ∷ out) = closed id out
closed id (crash_loop_alert i n t ∷ out) = closed id out

abbrev pub one : Bool → ℕ
one true = 1
one false = 0

-- Of the alerts raised, and `k` that were there before, all are recovered but one for a service that
-- is in a crash loop.
abbrev pub Balanced : ℕ → Str → Detector → Type 0
Balanced k id s = opened id s.out + k ≡ closed id s.out + one (in_loop (lookup id s.services))

record_failure-Balanced :
    (k : ℕ) (id i : Str) (s : Detector) (name : Str) (at now : ℕ)
    → Balanced k id s
    → Balanced k id (record_failure s i name at now)
unfolding record_failure in_loop
record_failure-Balanced k id i s name at now b =
    let st = pruned (or_fresh (lookup i s.services)) name at now in
    elim (Option-cases (lookup i s.services)) [
      | inl e ↦ ground (
        arith,
        lookup-insert i id (record st { in_crash_loop = true }) s.services,
        lookup-insert i id st s.services,
        str_eq_iff i id,
      )
      | inr (old, e) ↦ ground (
        arith,
        lookup-insert i id (record st { in_crash_loop = true }) s.services,
        lookup-insert i id st s.services,
        str_eq_iff i id,
      )
    ]

let_go-Balanced :
    (k : ℕ) (id i : Str) (s : Detector) (svc : SwarmService) (now : ℕ) (o : Option FailureState)
    → lookup i s.services ≡ o
    → Balanced k id s
    → Balanced k id (let_go s i svc now o)
unfolding let_go in_loop
let_go-Balanced k id i s svc now none e b = b
let_go-Balanced k id i s svc now (some st) e b =
    ground (arith, lookup-erase i id s.services, str_eq_iff i id)

let_go_ignored-Balanced :
    (k : ℕ) (id : Str) (now : ℕ) (l : Map Str SwarmService) (s : Detector)
    → Balanced k id s
    → Balanced k id (let_go_ignored now l s)
unfolding let_go_ignored
let_go_ignored-Balanced k id now [] s b = b
let_go_ignored-Balanced k id now ((i, svc) ∷ l) s b = let_go_ignored-Balanced k id now l _ (
    if_elim (Balanced k id) (ignored_by_labels svc.labels)
      (λ e. let_go-Balanced k id i s svc now (lookup i s.services) refl b) (λ e. b))

observe_known-Balanced :
    (k : ℕ) (id : Str) (now : ℕ) (t : SwarmTask) (svc : SwarmService) (st : List Str × Detector)
    → Balanced k id st.1
    → Balanced k id (observe_known now t svc st).1
unfolding observe_known
observe_known-Balanced k id now t svc (failed, s) b = ground (
  arith,
  record_failure-Balanced k id t.service_id
      (record s { out = swarm_task_failed t (failed_at now t) ∷ s.out }) svc.name (failed_at now t)
      now b,
)

observe_task-Balanced :
    (k : ℕ) (id : Str) (now : ℕ) (t : SwarmTask) (o : Option SwarmService)
    (st : List Str × Detector)
    → Balanced k id st.1
    → Balanced k id (observe_task now t o st).1
unfolding observe_task
observe_task-Balanced k id now t none st b = b
observe_task-Balanced k id now t (some svc) st b = elim (Bool-cases (task_failed t)) [
  | inl e ↦ rw e (observe_known-Balanced k id now t svc st b)
  | inr e ↦ rw e b
]

observe_each-Balanced :
    (k : ℕ) (id : Str) (now : ℕ) (m : Map Str SwarmService) (ts : List SwarmTask)
    (st : List Str × Detector)
    → Balanced k id st.1
    → Balanced k id (observe_each now m ts st).1
unfolding observe_each
observe_each-Balanced k id now m [] st b = b
observe_each-Balanced k id now m (t ∷ ts) st b =
    observe_each-Balanced k id now m ts _
      (observe_task-Balanced k id now t (lookup t.service_id m) st b)

pub observe_tasks-Balanced :
    (k : ℕ) (id : Str) (s : Detector) (snap : TopologySnapshot) (now : ℕ)
    → Balanced k id s
    → Balanced k id (observe_tasks s snap now)
unfolding observe_tasks
observe_tasks-Balanced k id s snap now b =
    observe_each-Balanced k id now (by_id snap.services []) snap.tasks
      ([], let_go_ignored now (by_id snap.services []) s)
      (let_go_ignored-Balanced k id now (by_id snap.services []) s b)

check_one-Balanced :
    (k : ℕ) (id i : Str) (now : ℕ) (st : FailureState) (s : Detector)
    → lookup i s.services ≡ some st
    → Balanced k id s
    → Balanced k id (check_one now i st s)
unfolding check_one in_loop
check_one-Balanced k id i now st s e b =
    ground
      (arith, lookup-insert i id (record st { in_crash_loop = false }) s.services, str_eq_iff i id)

pub lookup-check_one :
    (i j : Str) (now : ℕ) (st : FailureState) (s : Detector)
    → str_eq i j ≡ false
    → lookup j (check_one now i st s).services ≡ lookup j s.services
unfolding check_one
lookup-check_one i j now st s ne =
    ground (arith, lookup-insert i j (record st { in_crash_loop = false }) s.services)

abbrev pub Holds : Map Str FailureState → Detector → Type 0
Holds m s = (i : Str) (st : FailureState) → lookup i m ≡ some st → lookup i s.services ≡ some st

pub Holds-check_one :
    (i : Str) (now : ℕ) (st : FailureState) (m : Map Str FailureState) (s : Detector)
    → lookup i m ≡ none
    → Holds ((i, st) ∷ m) s
    → Holds m (check_one now i st s)
unfolding lookup
Holds-check_one i now st m s fresh h j w e = elim (Bool-cases (str_eq i j)) [
  | inl same ↦ cc (fresh, e, (str_eq_iff i j).0 same)
  | inr ne ↦ lookup-check_one i j now st s ne ∙ h j w (ground arith)
]

check_each-Balanced :
    (k : ℕ) (id : Str) (now : ℕ) (m : Map Str FailureState) (s : Detector)
    → IsUnique m
    → Holds m s
    → Balanced k id s
    → Balanced k id (check_each now m s)
unfolding check_each
check_each-Balanced k id now [] s u h b = b
check_each-Balanced k id now ((i, st) ∷ m) s u h b =
    check_each-Balanced k id now m (check_one now i st s) u.1 (Holds-check_one i now st m s u.0 h) (
      check_one-Balanced k id i now st s (h i st (unfold lookup in ground (arith, str_eq_iff i i)))
        b)

pub check_recoveries-Balanced :
    (k : ℕ) (id : Str) (s : Detector) (now : ℕ)
    → IsUnique s.services
    → Balanced k id s
    → Balanced k id (check_recoveries s now)
unfolding check_recoveries
check_recoveries-Balanced k id s now u b =
    check_each-Balanced k id now s.services s u (λ i st e. e) b
