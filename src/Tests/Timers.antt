-- ===== src/Tests/Timers.antt =====
-- The crash-loop detector, the backoff, the update window and the risk score at concrete inputs.
use maintenant.Base.{
  ℕ, ◌+◌, ◌*◌, ◌≤◌, ◌≡◌, refl, true, false, some, List, [], ◌∷◌, arith, Str, Str_eq, lit, All,
}
use maintenant.Swarm.CrashLoop.{
  SwarmTask, TopologySnapshot, FailureState, Detector, pruned, within, crash_loop_buffer_max,
  crash_loop_recovery_time, is_crash_looping,
}
use maintenant.Swarm.CrashLoop.Balance.{opened, closed, one}
use maintenant.Swarm.CrashLoop.Runs.{observes, checks, run, run_balanced}
use maintenant.Swarm.CrashLoop.Detection.{pruned_recent}
use maintenant.Retry.{Backoff, next}
use maintenant.Retry.Bounds.{late, overflow_shrinks}
use maintenant.License.Window.{UpdateWindowRecord, update_grace_end}
use maintenant.License.Window.Grace.{Start, starts, grace_not_extended}
use maintenant.Update.Risk.{RiskContext, major}
use maintenant.Update.Risk.Enrich.{RiskEnv, ImageUpdate, RiskWorld}

abbrev task : Str → SwarmTask
task id = record {
  task_id = id;
  service_id = lit "s1";
  state = lit "failed";
  error = lit "exit 1";
  exit_code = some 1;
  timestamp = 0;
}

abbrev topology : TopologySnapshot
topology = record {
  services = record { service_id = lit "s1"; name = lit "web"; labels = [] } ∷ [];
  tasks = task (lit "t1") ∷ task (lit "t2") ∷ task (lit "t3") ∷ [];
}

abbrev empty : Detector
empty = record { services = []; failed_tasks = []; out = [] }

run_balanced_example :
    opened
      (lit "s1")
      (run empty (observes topology 9 ∷ checks (9 + crash_loop_recovery_time) ∷ [])).out
    ≡ closed
        (lit "s1")
        (run empty (observes topology 9 ∷ checks (9 + crash_loop_recovery_time) ∷ [])).out
      + one (
          is_crash_looping
            (run empty (observes topology 9 ∷ checks (9 + crash_loop_recovery_time) ∷ []))
            (lit "s1"))
run_balanced_example =
    run_balanced [] (observes topology 9 ∷ checks (9 + crash_loop_recovery_time) ∷ []) (lit "s1")

abbrev failing : FailureState
failing = record {
  name = lit "web";
  failures = 7 ∷ 8 ∷ [];
  in_crash_loop = false;
  last_failure = 8;
}

abbrev watching : Detector
watching = record { services = (lit "s1", failing) ∷ []; failed_tasks = []; out = [] }

pruned_recent_example :
    All (λ t. within crash_loop_buffer_max 9 t ≡ true) (pruned failing (lit "web") 9 9).failures
pruned_recent_example = pruned_recent failing (lit "web") 9 9

abbrev looping : FailureState
looping = record failing { in_crash_loop = true }

abbrev backoff : Backoff
backoff = record {
  min_delay = 1_000_000_000;
  max_delay = 60_000_000_000;
  jitter = false;
  attempt = 3;
}

abbrev same : ℕ → ℕ
same d = d

overflow_shrinks_example :
    ((next same (late 1 3_600_000_000_000 29)).0 ≡ 3_600_000_000_000)
    × ((next same (late 1 3_600_000_000_000 30)).0 ≡ 1 * 1073741824)
overflow_shrinks_example =
    overflow_shrinks same 1 3_600_000_000_000 30 (omega arith) (omega arith) (omega arith)
      (omega arith)

abbrev anchored : UpdateWindowRecord
anchored = record { window_end = 100; opened_at = 200; version = lit "1.0"; build_date = lit "d" }

abbrev restarts : List Start
restarts =
    record { now = 300; version = lit "1.1"; build_date = lit "e" }
    ∷ record { now = 150; version = lit "1.2"; build_date = lit "f" }
    ∷ []

grace_not_extended_example :
    update_grace_end (starts anchored 100 restarts) ≤ update_grace_end anchored
grace_not_extended_example = grace_not_extended restarts anchored 100 refl

abbrev exposed : RiskContext
exposed = record { publicly_exposed = true; restart_count = 9 }

-- The risk scorer and the store work, and the update is a major one with two CVEs.
abbrev risky : RiskEnv
risky = record { has_risk = true; context = exposed; fails = λ c. false }

abbrev redis : ImageUpdate
redis = record { update_type = major; has_breaking_changes = true; risk_score = 0 }

abbrev scanned : RiskWorld
scanned = record { update = some redis; history = [] }
