-- ===== src/Escalation/Store.antt =====
-- internal/store/escalation.go: the statements that the runner and the service run, on lists of rows in the
-- order of their ids. Purging and paging are left out.
use maintenant.Base.{
  ℕ, ◌+◌, Bool, true, false, not, ◌&&◌, ◌||◌, Option, none, some, List, [], ◌∷◌, ◌++◌, Str, str_eq,
  keep, ltb, leb, ◌==◌, if◌then◌else◌,
}
use maintenant.Alert.Model.{Alert, NotificationChannel}
use maintenant.Escalation.Model.{
  Policy, RunStatus, active, paused_by_maintenance, is_live, is_paused, Run, Slot, slot_eq,
  DeliveryStatus, pending, Delivery,
}

-- What the runner hands to the notifier: a first attempt of a delivery, or one more.
pub data Effect : Type 0 where
  send : Delivery → NotificationChannel → Alert → Effect
  resend : Delivery → NotificationChannel → Alert → Effect
  set_escalated_at : Str → ℕ → Effect

-- `out` has the newest effect first.
pub record World : Type 0 where
  pub policies : List Policy
  pub runs : List Run
  pub deliveries : List Delivery
  pub next_id : ℕ
  pub out : List Effect

abbrev pub emit : Effect → World → World
emit x w = record w { out = x ∷ w.out }

-- UPDATE ... SET ... WHERE
unfoldable pub update_where {ℓ} : {A : Type ℓ} → (A → Bool) → (A → A) → List A → List A
update_where test change [] = []
update_where test change (x ∷ xs) = (if test x then change x else x) ∷ update_where test change xs

abbrev pub has_id : ℕ → Run → Bool
has_id id r = r.id == id

abbrev pub change_runs : (Run → Bool) → (Run → Run) → World → World
change_runs test change w = record w { runs = update_where test change w.runs }

abbrev pub ended : RunStatus → ℕ → Run → Run
ended status at r = record r { status = status; ended_at = some at; next_action_at = none }

unfoldable pub terminate_run : ℕ → RunStatus → ℕ → World → World
unfolding update_where
terminate_run id status at = change_runs (has_id id) (ended status at)

unfoldable pub update_run_progress : ℕ → ℕ → ℕ → World → World
unfolding update_where
update_run_progress id executed next =
    change_runs (has_id id)
      (λ r. record r { executed = executed; next_action_at = some next; status = active })

unfoldable pub pause_run_for_maintenance : ℕ → ℕ → World → World
unfolding update_where
pause_run_for_maintenance id recheck =
    change_runs (λ r. has_id id r && is_live r.status)
      (λ r. record r { status = paused_by_maintenance; next_action_at = some recheck })

unfoldable pub resume_run_from_maintenance : ℕ → ℕ → World → World
unfolding update_where
resume_run_from_maintenance id next =
    change_runs (λ r. has_id id r && is_paused r.status)
      (λ r. record r { status = active; next_action_at = some next })

unfoldable pub bulk_stop_active_runs : RunStatus → ℕ → World → World
unfolding update_where
bulk_stop_active_runs status at = change_runs (λ r. is_live r.status) (ended status at)

abbrev pub is_of : Option Str → Str → Bool
is_of none id = false
is_of (some p) id = str_eq p id

unfoldable pub stop_policy_runs : Str → RunStatus → ℕ → World → World
unfolding update_where
stop_policy_runs id status at =
    change_runs (λ r. is_of r.policy_id id && is_live r.status) (ended status at)

unfoldable pub insert_run : Run → World → World
insert_run r w = record w {
  runs = w.runs ++ record r { id = w.next_id } ∷ [];
  next_id = w.next_id + 1;
}

unfoldable pub select_active_runs_by_alert : Str → World → List Run
unfolding keep
select_active_runs_by_alert id w = keep (λ r. str_eq r.alert_id id && is_live r.status) w.runs

abbrev pub is_due : ℕ → Run → Bool
is_due now r = is_live r.status && elim r.next_action_at [ none ↦ false | some at ↦ leb at now ]

abbrev pub due_at : Run → ℕ
due_at r = elim r.next_action_at [ none ↦ 0 | some at ↦ at ]

-- ORDER BY next_action_at ASC
unfoldable pub insert_by_due : Run → List Run → List Run
insert_by_due r [] = r ∷ []
insert_by_due r (x ∷ xs) =
    let rest = insert_by_due r xs in if leb (due_at r) (due_at x) then r ∷ x ∷ xs else x ∷ rest

unfoldable pub sort_by_due : List Run → List Run
unfolding insert_by_due
sort_by_due [] = []
sort_by_due (r ∷ rs) = insert_by_due r (sort_by_due rs)

unfoldable pub select_due_runs : ℕ → World → List Run
unfolding sort_by_due keep
select_due_runs now w = sort_by_due (keep (is_due now) w.runs)

-- The row that the unique index keeps from being inserted again.
abbrev pub is_slot : ℕ → Slot → Str → Delivery → Bool
is_slot run slot ch d = d.run_id == run && slot_eq d.slot slot && is_of d.channel_id ch

unfoldable pub insert_delivery : Delivery → World → World
insert_delivery d w = record w {
  deliveries = w.deliveries ++ record d { id = w.next_id } ∷ [];
  next_id = w.next_id + 1;
}

unfoldable pub update_delivery : Delivery → World → World
unfolding update_where
update_delivery new w = record w {
  deliveries =
      update_where (λ d. d.id == new.id)
        (λ d. record d { status = new.status; error = new.error; sent_at = new.sent_at })
        w.deliveries;
}

unfoldable pub select_run_deliveries : ℕ → World → List Delivery
unfolding keep
select_run_deliveries run w = keep (λ d. d.run_id == run) w.deliveries

abbrev pub is_pending : DeliveryStatus → Bool
is_pending pending = true
is_pending _ = false

abbrev pub is_orphan : ℕ → Delivery → Bool
is_orphan cutoff d = is_pending d.status && ltb d.attempt_started_at cutoff

unfoldable pub insert_by_attempt : Delivery → List Delivery → List Delivery
insert_by_attempt d [] = d ∷ []
insert_by_attempt d (x ∷ xs) =
    let rest = insert_by_attempt d xs in
    if leb d.attempt_started_at x.attempt_started_at then d ∷ x ∷ xs else x ∷ rest

unfoldable pub sort_by_attempt : List Delivery → List Delivery
unfolding insert_by_attempt
sort_by_attempt [] = []
sort_by_attempt (d ∷ ds) = insert_by_attempt d (sort_by_attempt ds)

-- SelectOrphanPendingDeliveries
unfoldable pub select_orphans : ℕ → World → List Delivery
unfolding sort_by_attempt keep
select_orphans cutoff w = sort_by_attempt (keep (is_orphan cutoff) w.deliveries)

unfoldable pub select_run : ℕ → List Run → Option Run
select_run id [] = none
select_run id (r ∷ rs) = if r.id == id then some r else select_run id rs

unfoldable pub select_policy : Str → List Policy → Option Policy
select_policy id [] = none
select_policy id (p ∷ ps) = if str_eq p.id id then some p else select_policy id ps

unfoldable pub select_policies : Bool → World → List Policy
unfolding keep
select_policies active_only w = keep (λ p. not active_only || p.active) w.policies

unfoldable pub bulk_deactivate_all_policies : World → World
unfolding update_where
bulk_deactivate_all_policies w = record w {
  policies =
      update_where (λ p. p.active)
        (λ p. record p { active_before_downgrade = p.active; active = false }) w.policies;
}

unfoldable pub bulk_restore_policies : World → World
unfolding update_where
bulk_restore_policies w = record w {
  policies =
      update_where (λ p. p.active_before_downgrade)
        (λ p. record p { active = true; active_before_downgrade = false }) w.policies;
}
