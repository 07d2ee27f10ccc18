-- ===== src/Tests/Spools.antt =====
-- internal/agent/spool.go on a spool with two rows that an earlier one left.
use maintenant.Base.{
  ℕ, ◌*◌, ◌≡◌, ◌++◌, refl, true, false, none, some, List, [], ◌∷◌, map, arith, lit, keep, All,
}
use maintenant.Agent.Spool.{second, SpoolConfig, AgentEvent, container, Row, SpoolStore, SpoolEnv}
use maintenant.Agent.Spool.Store.{is_up_to}
use maintenant.Agent.Spool.Queue.{send_event, pending}
use maintenant.Agent.Spool.Control.{new_spool}
use maintenant.Agent.Spool.Steps.{Step, attach, drain, offer, taken, land, rewound, take_step, run}
use maintenant.Agent.Spool.Rows.{Rising}
use maintenant.Agent.Spool.Frame.{Holds}
use maintenant.Agent.Spool.Frame.Calls.{AllHonest}
use maintenant.Agent.Spool.Current.{Resent, Resent-run}
use maintenant.Agent.Spool.Acks.{was_told, Honest, told-run}
use maintenant.Agent.Spool.Memory.{memory_only_silent}
use maintenant.Agent.Spool.Flush.{pending_of, queued, queued-send_event, queued-overlap}

abbrev stopped : AgentEvent
stopped = record {
  agent_id = lit "agent";
  event_id = lit "e3";
  observed_at = some (5 * second);
  body = container;
  replayed = false;
  seq = 0;
}

abbrev calm : SpoolEnv
calm = record {
  now = 100 * second;
  fails = λ c. false;
  size_bytes = 4096;
  marshal = λ evt. some (1 ∷ 2 ∷ []);
  unmarshal = λ bytes. some stopped;
}

abbrev config : SpoolConfig
config = record { max_memory_bytes = 100; max_disk_bytes = 8192; max_age = 0 }

abbrev row : ℕ → Row
row n = record { seq = n; event_id = lit "e1"; observed_at = 4; payload = 7 ∷ []; size_bytes = 1 }

abbrev left : SpoolStore
left = record { rows = row 1 ∷ row 2 ∷ []; next = 3; dropped_since_connect = 0 }

abbrev first_sent : List Step
first_sent =
    attach calm ∷ rewound ∷ drain calm ∷ drain calm ∷ drain calm ∷ drain calm ∷ drain calm ∷ []

-- The first row is sent and the cursor stands behind it.
first_sent_cursor : (run first_sent (new_spool config (some left))).send_seq ≡ 1
unfolding run take_step
first_sent_cursor = refl

left-Rising : Rising 1 left.next left.rows
left-Rising = omega arith

Resent-run_example :
    Holds
      (λ d c. Resent c.gen c.ack c.send c.out c.rows)
      (run first_sent (new_spool config (some left)))
Resent-run_example = Resent-run config left first_sent left-Rising

first_told : was_told 1 (run first_sent (new_spool config (some left))).out ≡ true
unfolding run take_step was_told
first_told = refl

first_sent-Honest : AllHonest Honest first_sent (new_spool config (some left))
unfolding AllHonest
first_sent-Honest = tt

told-run_example :
    Holds
      (λ d c. All (λ r. was_told r.seq c.out ≡ true) (keep (is_up_to 1) c.rows))
      (run first_sent (new_spool config (some left)))
told-run_example = told-run config left first_sent 1 left-Rising first_sent-Honest first_told

memory_only_silent_example : was_told 1 (run first_sent (new_spool config none)).out ≡ false
memory_only_silent_example = memory_only_silent config first_sent 1

queued-send_event_example :
    queued (send_event calm stopped (new_spool config (some left))).0
    ≡ queued (new_spool config (some left)) ++ pending calm stopped (1 ∷ 2 ∷ []) ∷ []
queued-send_event_example =
    queued-send_event calm stopped (1 ∷ 2 ∷ []) (new_spool config (some left)) refl refl refl (cc)
      (omega arith)

queued-overlap_example :
    queued (
      run
        (taken ∷ offer calm stopped ∷ taken ∷ land calm 0 ∷ land calm 0 ∷ [])
        (record (new_spool config (some left)) {
          store = some left;
          buf = pending_of (row 9) ∷ [];
          flights = [];
        }))
    ≡ map pending_of left.rows ++ pending calm stopped (1 ∷ 2 ∷ []) ∷ pending_of (row 9) ∷ []
queued-overlap_example =
    queued-overlap calm (pending_of (row 9)) stopped (1 ∷ 2 ∷ []) left
      (new_spool config (some left)) refl refl refl refl (omega arith)
