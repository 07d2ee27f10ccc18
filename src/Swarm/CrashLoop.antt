-- ===== src/Swarm/CrashLoop.antt =====
-- internal/swarm/crashloop.go, with IgnoredByLabels of internal/container/labels.go and IsCleanExit of
-- internal/container/service.go. Instants and durations are nanoseconds; the zero time is 0. A `range`
-- over a map goes through its entries in the order of the list. Each method holds the mutex, so it
-- runs as one step. Both callbacks are set; log lines are left out.
pub mod Balance
pub mod Runs
pub mod Detection
use maintenant.Base.{
  ℕ, ◌+◌, ◌-◌, ◌*◌, Bool, true, false, not, ◌&&◌, ◌||◌, Option, none, some, List, [], ◌∷◌, ◌++◌,
  Str, lit, str_eq, length, keep, any, ltb, leb, ◌==◌, Str_eq, if◌then◌else◌,
}
use maintenant.Base.Map.{Map, lookup, insert, erase}

abbrev pub second : ℕ
second = 1_000_000_000

abbrev pub crash_loop_threshold : ℕ
crash_loop_threshold = 3

abbrev pub crash_loop_window : ℕ
crash_loop_window = 300 * second

abbrev pub crash_loop_recovery_time : ℕ
crash_loop_recovery_time = 600 * second

abbrev pub crash_loop_buffer_max : ℕ
crash_loop_buffer_max = 1800 * second

-- What the detector reads of a snapshot's services and tasks.
pub record SwarmService : Type 0 where
  pub service_id : Str
  pub name : Str
  pub labels : Map Str Str

pub record SwarmTask : Type 0 where
  pub task_id : Str
  pub service_id : Str
  pub state : Str
  pub error : Str
  pub exit_code : Option ℕ
  pub timestamp : ℕ

pub record TopologySnapshot : Type 0 where
  pub services : List SwarmService
  pub tasks : List SwarmTask

pub record FailureState : Type 0 where
  pub name : Str
  pub failures : List ℕ
  pub in_crash_loop : Bool
  pub last_failure : ℕ

-- The events and the alerts that the callbacks get.
pub data Signal : Type 0 where
  swarm_task_failed : SwarmTask → ℕ → Signal
  crash_loop_detected : Str → ℕ → Signal
  crash_loop_recovered : Str → ℕ → Signal
  crash_loop_alert : Str → Str → ℕ → Signal
  recovery_alert : Str → Str → ℕ → Signal

-- `failed_tasks` is the list of the keys of that map; `out` has the newest signal first.
pub record Detector : Type 0 where
  pub services : Map Str FailureState
  pub failed_tasks : List Str
  pub out : List Signal

pub or_empty : Option Str → Str
or_empty none = []
or_empty (some v) = v

unfoldable pub ignored_by_labels : Map Str Str → Bool
unfolding or_empty
ignored_by_labels labels =
    let v = or_empty (lookup (lit "maintenant.ignore") labels) in
    str_eq v (lit "true") || str_eq v (lit "1")

unfoldable pub is_clean_exit : ℕ → Bool → Bool
is_clean_exit code oom_killed =
    if code == 0 || code == 143 then true else (if code == 137 then not oom_killed else false)

pub fails_with : Option ℕ → Bool
unfolding is_clean_exit
fails_with none = true
fails_with (some code) = not (is_clean_exit code true)

unfoldable pub task_failed : SwarmTask → Bool
unfolding fails_with
task_failed t = if str_eq t.state (lit "failed") then fails_with t.exit_code else false

unfoldable pub resolve : Detector → Str → Str → ℕ → Detector
resolve s id name now = record s {
  out = recovery_alert id name now ∷ crash_loop_recovered id now ∷ s.out;
}

pub or_fresh : Option FailureState → FailureState
or_fresh none = record { name = []; failures = []; in_crash_loop = false; last_failure = 0 }
or_fresh (some st) = st

-- `t.After(now.Add(-span))`
abbrev pub within : ℕ → ℕ → ℕ → Bool
within span now t = ltb now (t + span)

unfoldable pub pruned : FailureState → Str → ℕ → ℕ → FailureState
pruned st name at now = record st {
  name = name;
  failures = keep (within crash_loop_buffer_max now) (st.failures ++ at ∷ []);
  last_failure = if ltb st.last_failure at then at else st.last_failure;
}

unfoldable pub recent : FailureState → ℕ → ℕ
recent st now = length (keep (within crash_loop_window now) st.failures)

unfoldable pub record_failure : Detector → Str → Str → ℕ → ℕ → Detector
unfolding or_fresh pruned recent
record_failure s id name at now =
    let st = pruned (or_fresh (lookup id s.services)) name at now in
    let count = recent st now in
    if leb crash_loop_threshold count && not st.in_crash_loop
    then record s {
      services = insert id (record st { in_crash_loop = true }) s.services;
      out = crash_loop_alert id name now ∷ crash_loop_detected id now ∷ s.out;
    }
    else record s { services = insert id st s.services }

-- The loop of ObserveTasks over the services, which lets go of those that became ignored.
pub let_go : Detector → Str → SwarmService → ℕ → Option FailureState → Detector
unfolding resolve
let_go s id svc now none = s
let_go s id svc now (some st) =
    let forgotten = record s { services = erase id s.services } in
    if st.in_crash_loop then resolve forgotten id svc.name now else forgotten

pub let_go_ignored : ℕ → Map Str SwarmService → Detector → Detector
unfolding let_go ignored_by_labels
let_go_ignored now [] s = s
let_go_ignored now ((id, svc) ∷ rest) s =
    let_go_ignored now rest
      (if ignored_by_labels svc.labels then let_go s id svc now (lookup id s.services) else s)

abbrev pub failed_at : ℕ → SwarmTask → ℕ
failed_at now t = if t.timestamp == 0 then now else t.timestamp

-- The body of the loop over the tasks. The first component is the new map `failed`.
pub observe_known : ℕ → SwarmTask → SwarmService → List Str × Detector → List Str × Detector
unfolding record_failure ignored_by_labels
observe_known now t svc (failed, s) =
    let at = failed_at now t in
    if any (λ id. str_eq id t.task_id) s.failed_tasks
      || ignored_by_labels svc.labels
      || leb crash_loop_window (now - at)
    then (t.task_id ∷ failed, s)
    else (
      t.task_id ∷ failed,
      record_failure (record s { out = swarm_task_failed t at ∷ s.out }) t.service_id svc.name at
          now,
    )

pub observe_task : ℕ → SwarmTask → Option SwarmService → List Str × Detector → List Str × Detector
unfolding observe_known task_failed
observe_task now t none st = st
observe_task now t (some svc) st = if task_failed t then observe_known now t svc st else st

pub observe_each :
    ℕ → Map Str SwarmService → List SwarmTask → List Str × Detector → List Str × Detector
unfolding observe_task
observe_each now services [] st = st
observe_each now services (t ∷ ts) st =
    observe_each now services ts (observe_task now t (lookup t.service_id services) st)

pub by_id : List SwarmService → Map Str SwarmService → Map Str SwarmService
by_id [] m = m
by_id (svc ∷ rest) m = by_id rest (insert svc.service_id svc m)

unfoldable pub observe_tasks : Detector → TopologySnapshot → ℕ → Detector
unfolding by_id let_go_ignored observe_each
observe_tasks s snap now =
    let services = by_id snap.services [] in
    let (failed, s') = observe_each now services snap.tasks ([], let_go_ignored now services s) in
    record s' { failed_tasks = failed }

pub recovers : ℕ → FailureState → Bool
recovers now st = st.in_crash_loop && leb crash_loop_recovery_time (now - st.last_failure)

-- The body of the loop of CheckRecoveries; `*state` is changed in the map.
pub check_one : ℕ → Str → FailureState → Detector → Detector
unfolding resolve recovers
check_one now id st s =
    if recovers now st
    then resolve
        (record s { services = insert id (record st { in_crash_loop = false }) s.services }) id
        st.name now
    else s

pub check_each : ℕ → Map Str FailureState → Detector → Detector
unfolding check_one
check_each now [] s = s
check_each now ((id, st) ∷ rest) s = check_each now rest (check_one now id st s)

unfoldable pub check_recoveries : Detector → ℕ → Detector
unfolding check_each
check_recoveries s now = check_each now s.services s

-- An alert of the store, as Resume reads it.
pub record StoredAlert : Type 0 where
  pub source : Str
  pub alert_type : Str
  pub entity_type : Str
  pub entity_id : Str
  pub entity_name : Str

pub resumed : StoredAlert → ℕ → Detector → Detector
resumed a now s =
    if str_eq a.source (lit "swarm")
      && str_eq a.alert_type (lit "crash_loop")
      && str_eq a.entity_type (lit "swarm_service")
    then record s {
      services =
          insert a.entity_id
            (record {
              name = a.entity_name;
              failures = [];
              in_crash_loop = true;
              last_failure = now;
            })
            s.services;
    }
    else s

unfoldable pub resume : Detector → List StoredAlert → ℕ → Detector
unfolding resumed
resume s [] now = s
resume s (a ∷ rest) now = resume (resumed a now s) rest now

pub in_loop : Option FailureState → Bool
in_loop none = false
in_loop (some st) = st.in_crash_loop

unfoldable pub is_crash_looping : Detector → Str → Bool
unfolding in_loop
is_crash_looping s id = in_loop (lookup id s.services)
