-- ===== src/Tests/Escalations.antt =====
-- internal/commercial/escalation on an alert with one policy of two levels.
use maintenant.Base.{
  ℕ, ◌≤◌, ◌≡◌, ◌↔◌, refl, true, false, none, some, List, [], ◌∷◌, arith, Str, lit, str_eq, any,
  get_elem?,
}
use maintenant.Base.Int.{pos}
use maintenant.Alert.Model.{Alert, NotificationChannel, status_active, severity_critical}
use maintenant.Escalation.Model.{Filters, Policy, active, Run, level}
use maintenant.Escalation.Store.{World, select_run}
use maintenant.Escalation.Runner.{Env, match_policy_filters}
use maintenant.Escalation.Policies.{
  PolicyRequest, ServiceEnv, validate_request, on_edition_downgraded, on_edition_upgraded,
}
use maintenant.Escalation.Policies.Requests.{IsHonourable, validate_request_iff}
use maintenant.Escalation.Policies.Editions.{on_edition_upgraded-on_edition_downgraded}
use maintenant.Escalation.Overlap.{filters_intersect}
use maintenant.Escalation.Overlap.Alerts.{filters_intersect_iff}
use maintenant.Escalation.Steps.{Step, created, cycle, create, take_steps, empty_world}
use maintenant.Escalation.Steps.Rows.{is_dead}
use maintenant.Escalation.Steps.Once.{first_sends, rows, first_sends-take_steps}
use maintenant.Escalation.Steps.Exclusive.Runs.{live_runs, live_runs-take_steps}
use maintenant.Escalation.Steps.Levels.{IsQuiet, IsAt}
use maintenant.Escalation.Steps.Levels.Drive.{drive, IsSpent, drive-IsAt, drive-IsSpent}

abbrev disk_full : Alert
disk_full = record {
  id = lit "a1";
  source = lit "resource";
  alert_type = lit "disk";
  severity = severity_critical;
  status = status_active;
  message = lit "disk full";
  entity_type = lit "container";
  entity_id = lit "db";
  entity_name = lit "db";
  agent_id = [];
  details = [];
  resolved_by_id = none;
  fired_at = 0;
  resolved_at = none;
  acknowledged_at = none;
  acknowledged_by = [];
  escalated_at = none;
  created_at = 0;
}

abbrev mail : Str
mail = lit "mail"

abbrev pager : Str
pager = lit "pager"

abbrev channel : Str → NotificationChannel
channel id = record { id = id; name = id; type = lit "webhook"; url = []; enabled = true }

-- No call fails, and the alert keeps firing.
abbrev calm : ℕ → Env
calm now = record {
  allowed = true;
  now = now;
  get_alert = λ id. some (some disk_full);
  get_channel = λ id. some (some (channel id));
  is_suppressed = λ s t i. false;
  fails = λ c. false;
  marshal = λ p. some (some p);
  send_now = λ a ch. none;
  trim_space = λ s. s;
  rfc3339 = λ t. [];
  itoa = λ n. [];
}

abbrev desk : ServiceEnv
desk = record { now = 0; new_id = lit "p1"; fails = λ s. false }

abbrev everything : Filters
everything = record { severities = []; scopes = [] }

abbrev criticals : Filters
criticals = record {
  severities = severity_critical ∷ [];
  scopes = record { kind = lit "container"; ref_id = lit "db" } ∷ [];
}

abbrev on_call : PolicyRequest
on_call = record {
  name = lit "on call";
  active = true;
  filters = criticals;
  levels =
      record { delay_seconds = pos 60; channel_ids = mail ∷ [] }
      ∷ record { delay_seconds = pos 180; channel_ids = mail ∷ pager ∷ [] }
      ∷ [];
}

-- A policy, an alert, and the cycles at the times of its levels.
abbrev day : List Step
day =
    create desk on_call
    ∷ created (calm 0) disk_full
    ∷ cycle (calm 60)
    ∷ cycle (calm 180)
    ∷ cycle (calm 240)
    ∷ []

first_sends-take_steps_example :
    (first_sends 0 (level 1) pager (take_steps day empty_world).out ≤ 1)
    × (rows 0 (level 1) pager (take_steps day empty_world).deliveries ≤ 1)
first_sends-take_steps_example = first_sends-take_steps day 0 (level 1) pager

live_runs-take_steps_example : live_runs (lit "a1") (lit "p1") (take_steps day empty_world) ≤ 1
live_runs-take_steps_example = live_runs-take_steps day (lit "a1") (lit "p1")

day_ends : any (is_dead 0) (take_steps day empty_world).runs ≡ true
unfolding take_steps any str_eq
day_ends = refl

-- The last level reached the pager.
day_pages : first_sends 0 (level 1) pager (take_steps day empty_world).out ≡ 1
unfolding take_steps first_sends str_eq
day_pages = refl

-- A run of one level that has just begun.
abbrev one_level : Policy
one_level = record {
  id = lit "p1";
  name = lit "on call";
  active = true;
  active_before_downgrade = false;
  filters = criticals;
  levels = record { order = 0; delay_seconds = 60; channel_ids = mail ∷ [] } ∷ [];
}

abbrev begun : Run
begun = record {
  id = 0;
  policy_id = some (lit "p1");
  snapshot = some one_level;
  alert_id = lit "a1";
  status = active;
  executed = 0;
  started_at = 0;
  ended_at = none;
  next_action_at = some 60;
}

abbrev watched : World
watched = record {
  policies = one_level ∷ [];
  runs = begun ∷ [];
  deliveries = [];
  next_id = 1;
  out = [];
}

watched-IsAt : IsAt one_level (lit "a1") 0 0 0 watched
watched-IsAt = record {
  row = begun;
  is_row = unfold select_run in refl;
  alert_is = refl;
  snapshot_is = refl;
  is_active = refl;
  executed_is = refl;
  on_time = λ l e. unfold get_elem? in ground arith;
}

calm-IsQuiet : (now : ℕ) → IsQuiet (lit "a1") 0 (calm now)
calm-IsQuiet now = record {
  alert_of = disk_full;
  found = refl;
  firing = unfold str_eq in refl;
  open_alert = refl;
  unsuppressed = refl;
  written = refl;
  ended = refl;
}

drive-IsAt_example : IsAt one_level (lit "a1") 0 0 1 (drive 0 (calm 60 ∷ []) watched)
drive-IsAt_example =
    drive-IsAt one_level (lit "a1") 0 0 0 (calm 60 ∷ []) watched watched-IsAt (calm-IsQuiet 60, tt)
      (omega arith)

drive-IsSpent_example : IsSpent 0 (lit "a1") (drive 0 (calm 60 ∷ calm 120 ∷ []) watched)
drive-IsSpent_example =
    drive-IsSpent one_level (lit "a1") 0 0 0 (calm 60 ∷ calm 120 ∷ []) watched watched-IsAt
      (calm-IsQuiet 60, (calm-IsQuiet 120, tt)) (omega arith) refl

validate_request_iff_example : (validate_request on_call ≡ none) ↔ IsHonourable on_call
validate_request_iff_example = validate_request_iff on_call

filters_intersect_iff_example : (filters_intersect everything criticals ≡ true) ↔ (
    (a : Alert) × (match_policy_filters a everything ≡ true)
    × (match_policy_filters a criticals ≡ true))
filters_intersect_iff_example = filters_intersect_iff everything criticals

on_edition_upgraded-on_edition_downgraded_example :
    (on_edition_upgraded desk (on_edition_downgraded desk watched)).policies ≡ watched.policies
on_edition_upgraded-on_edition_downgraded_example =
    on_edition_upgraded-on_edition_downgraded desk desk watched (refl, tt) refl refl
