-- ===== src/Escalation/Policies.antt =====
-- internal/commercial/escalation/service.go: the requests that the service refuses, its operations on
-- policies and editions, and the statements of internal/store/escalation.go on the table of policies.
pub mod Requests
pub mod Editions
use maintenant.Base.{
  ℕ, suc, ◌+◌, Bool, true, false, not, ◌||◌, ◌&&◌, Option, none, some, List, [], ◌∷◌, ◌++◌, Str,
  str_eq, is_empty, ltb, any, map, keep, length, if◌then◌else◌,
}
use maintenant.Base.Int.{ℤ, pos, negsuc}
use maintenant.Escalation.Model.{
  Filters, Level, Policy, RunStatus, stopped_by_policy_deletion, stopped_by_policy_disabled,
  stopped_by_edition_downgrade, Run,
}
use maintenant.Escalation.Store.{
  World, update_where, is_of, change_runs, stop_policy_runs, bulk_stop_active_runs, select_policy,
  bulk_deactivate_all_policies, bulk_restore_policies,
}

-- A delay of a request may be negative.
pub record LevelReq : Type 0 where
  pub delay_seconds : ℤ
  pub channel_ids : List Str

pub record PolicyRequest : Type 0 where
  pub name : Str
  pub active : Bool
  pub filters : Filters
  pub levels : List LevelReq

abbrev pub max_levels : ℕ
max_levels = 5

abbrev pub max_name : ℕ
max_name = 120

abbrev pub min_delay : ℕ
min_delay = 60

abbrev pub max_delay : ℕ
max_delay = 86400

-- The message of the validation error, with the index of its level.
pub data Refusal : Type 0 where
  no_name long_name no_levels many_levels : Refusal
  bad_delay no_channels too_close : ℕ → Refusal

-- The number of a delay that is not negative.
abbrev pub seconds : ℤ → ℕ
seconds (pos n) = n
seconds (negsuc n) = 0

abbrev pub is_delay : ℤ → Bool
is_delay (negsuc n) = false
is_delay (pos n) = not (ltb n min_delay || ltb max_delay n)

abbrev pub no_ids : List Str → Bool
no_ids [] = true
no_ids (x ∷ xs) = false

-- The delay of the level before, which passed its own test, is less than a minute away.
abbrev pub is_close : Option ℕ → ℤ → Bool
is_close none delay = false
is_close (some before) delay = ltb (seconds delay) (before + min_delay)

unfoldable pub validate_levels : ℕ → Option ℕ → List LevelReq → Option Refusal
validate_levels i before [] = none
validate_levels i before (l ∷ ls) =
    let rest = validate_levels (suc i) (some (seconds l.delay_seconds)) ls in
    if not (is_delay l.delay_seconds)
    then some (bad_delay i)
    else if no_ids l.channel_ids
    then some (no_channels i)
    else if is_close before l.delay_seconds
    then some (too_close i)
    else rest

unfoldable pub validate_request : PolicyRequest → Option Refusal
unfolding validate_levels
validate_request req =
    if is_empty req.name
    then some no_name
    else if ltb max_name (length req.name)
    then some long_name
    else if ltb (length req.levels) 1
    then some no_levels
    else if ltb max_levels (length req.levels)
    then some many_levels
    else validate_levels 0 none req.levels

unfoldable pub ordered_levels : ℕ → List LevelReq → List Level
ordered_levels i [] = []
ordered_levels i (l ∷ ls) =
    record { order = i; delay_seconds = seconds l.delay_seconds; channel_ids = l.channel_ids }
    ∷ ordered_levels (suc i) ls

pub data Statement : Type 0 where
  select insert update delete stop_runs deactivate restore : Statement

-- What a call of the service meets: the clock, the id of a new row, and the statements that fail.
pub record ServiceEnv : Type 0 where
  pub now : ℕ
  pub new_id : Str
  pub fails : Statement → Bool

-- Errors as the service returns them.
pub data Answer : Type 0 where
  done : Policy → Answer
  policy_not_found : Answer
  validation_failed : Refusal → Answer
  store_failed : Statement → Answer

-- The id is the primary key.
unfoldable pub insert_policy : Policy → World → Option World
unfolding any
insert_policy p w =
    if any (λ q. str_eq q.id p.id) w.policies
    then none
    else some (record w { policies = w.policies ++ p ∷ [] })

unfoldable pub update_policy_row : Policy → World → World
unfolding update_where
update_policy_row p w = record w {
  policies = update_where (λ q. str_eq q.id p.id) (λ q. p) w.policies;
}

-- The row and, by the foreign key, the reference of its runs.
unfoldable pub delete_policy_row : Str → World → World
unfolding keep update_where
delete_policy_row id w =
    change_runs (λ r. is_of r.policy_id id) (λ r. record r { policy_id = none })
      (record w { policies = keep (λ q. not (str_eq q.id id)) w.policies })

abbrev pub policy_of : Str → PolicyRequest → Policy
unfolding ordered_levels
policy_of id req = record {
  id = id;
  name = req.name;
  active = req.active;
  active_before_downgrade = false;
  filters = req.filters;
  levels = ordered_levels 0 req.levels;
}

abbrev pub inserted : Policy → World → Option World → World × Answer
inserted p w none = (w, store_failed insert)
inserted p w (some w') = (w', done p)

unfoldable pub create_policy : ServiceEnv → PolicyRequest → World → World × Answer
unfolding validate_request insert_policy
create_policy env req w = elim (validate_request req) [
  | some refusal ↦ (w, validation_failed refusal)
  | none ↦
      if env.fails insert
      then (w, store_failed insert)
      else inserted (policy_of env.new_id req) w (insert_policy (policy_of env.new_id req) w)
]

-- The end of UpdatePolicy and SetPolicyActive: the row is written, and a policy that was just switched
-- off has its runs stopped.
unfoldable pub write_policy : ServiceEnv → Bool → Policy → World → World × Answer
unfolding update_policy_row stop_policy_runs
write_policy env was_active p w =
    let written = update_policy_row p w in
    if env.fails update
    then (w, store_failed update)
    else if was_active && not p.active
    then (if env.fails stop_runs
        then (written, store_failed stop_runs)
        else (stop_policy_runs p.id stopped_by_policy_disabled env.now written, done p))
    else (written, done p)

unfoldable pub update_policy : ServiceEnv → Str → PolicyRequest → World → World × Answer
unfolding select_policy validate_request write_policy ordered_levels
update_policy env id req w =
    if env.fails select then (w, store_failed select) else elim (select_policy id w.policies) [
      | none ↦ (w, policy_not_found)
      | some old ↦ elim (validate_request req) [
        | some refusal ↦ (w, validation_failed refusal)
        | none ↦
            write_policy env old.active
              (record old {
                name = req.name;
                active = req.active;
                filters = req.filters;
                levels = ordered_levels 0 req.levels;
              })
              w
      ]
    ]

unfoldable pub set_policy_active : ServiceEnv → Str → Bool → World → World × Answer
unfolding select_policy write_policy
set_policy_active env id active w =
    if env.fails select then (w, store_failed select) else elim (select_policy id w.policies) [
      | none ↦ (w, policy_not_found)
      | some old ↦ write_policy env old.active (record old { active = active }) w
    ]

-- DeletePolicy of the service and of the store: the runs are stopped first.
unfoldable pub delete_policy : ServiceEnv → Str → World → World × Answer
unfolding select_policy stop_policy_runs delete_policy_row
delete_policy env id w =
    let stopped = stop_policy_runs id stopped_by_policy_deletion env.now w in
    if env.fails select then (w, store_failed select) else elim (select_policy id w.policies) [
      | none ↦ (w, policy_not_found)
      | some old ↦
          if env.fails stop_runs
          then (w, store_failed stop_runs)
          else if env.fails delete
          then (stopped, store_failed delete)
          else (delete_policy_row id stopped, done old)
    ]

unfoldable pub on_edition_downgraded : ServiceEnv → World → World
unfolding bulk_deactivate_all_policies bulk_stop_active_runs
on_edition_downgraded env w =
    let off = bulk_deactivate_all_policies w in
    if env.fails deactivate
    then w
    else if env.fails stop_runs
    then off
    else bulk_stop_active_runs stopped_by_edition_downgrade env.now off

unfoldable pub on_edition_upgraded : ServiceEnv → World → World
unfolding bulk_restore_policies
on_edition_upgraded env w = if env.fails restore then w else bulk_restore_policies w
