-- ===== src/Escalation/Runner.antt =====
-- internal/commercial/escalation/runner.go: what the runner uses of the rest of the program, the filters
-- of a policy, and the reservation and sending of a delivery. The goroutine that sends is a step of its own.
pub mod Hooks
pub mod Cycle
use maintenant.Base.{
  ℕ, ◌+◌, Bool, true, false, ◌&&◌, ◌||◌, Option, none, some, List, [], ◌∷◌, ◌++◌, Str, str_eq, lit,
  is_empty, any, length, take, ◌==◌, if◌then◌else◌,
}
use maintenant.Alert.Model.{Alert, NotificationChannel, status_resolved}
use maintenant.Escalation.Model.{Scope, Filters, Policy, Slot, pending, sent, failed, Delivery}
use maintenant.Escalation.Store.{World, emit, send, is_slot, insert_delivery, update_delivery}

-- The calls of the store whose error changes what a handler does, each with its row.
pub data Call : Type 0 where
  list_runs : Str → Call
  list_policies : Call
  insert_run_of : Str → Call
  terminate pause resume progress list_deliveries find_run : ℕ → Call
  reserve : ℕ → Slot → Str → Call
  update_row : ℕ → Call
  escalated : Str → Call
  due_runs orphans : Call

-- What one call of a handler meets: the clock, the other stores, the licence, the libraries, and the
-- calls of the escalation store that fail. A call of `get_alert` or `get_channel` that fails is none;
-- `marshal` is none where json.Marshal fails, and else what json.Unmarshal makes of its bytes.
pub record Env : Type 0 where
  pub allowed : Bool
  pub now : ℕ
  pub get_alert : Str → Option (Option Alert)
  pub get_channel : Str → Option (Option NotificationChannel)
  pub is_suppressed : Str → Str → Str → Bool
  pub fails : Call → Bool
  pub marshal : Policy → Option (Option Policy)
  pub send_now : Alert → NotificationChannel → Option Str
  pub trim_space : Str → Str
  pub rfc3339 : ℕ → Str
  pub itoa : ℕ → Str

-- slices.Contains
abbrev pub contains : Str → List Str → Bool
contains x = any (λ y. str_eq y x)

abbrev pub none_of {ℓ} : {A : Type ℓ} → List A → Bool
none_of [] = true
none_of (x ∷ xs) = false

unfoldable pub match_policy_filters : Alert → Filters → Bool
unfolding any
match_policy_filters a f =
    (none_of f.severities || contains a.severity f.severities)
    && (none_of f.scopes
        || any (λ sc. str_eq sc.kind a.entity_type && str_eq sc.ref_id a.entity_id) f.scopes)

abbrev pub max_error : ℕ
max_error = 500

unfoldable pub truncate_err : Env → Str → Str
unfolding take
truncate_err env s = take max_error (env.trim_space s)

unfoldable pub format_ack_alert : Env → Alert → Str → ℕ → Alert
format_ack_alert env a by at = record a {
  status = status_resolved;
  message =
      if is_empty by
      then lit "Acknowledged at " ++ env.rfc3339 at ++ lit ": " ++ a.message
      else lit "Acknowledged by " ++ by ++ lit " at " ++ env.rfc3339 at ++ lit ": " ++ a.message;
}

unfoldable pub format_exhausted_alert : Env → Alert → ℕ → Alert
format_exhausted_alert env a total = record a {
  message =
      lit "Escalation exhausted after "
      ++ env.itoa total
      ++ lit " "
      ++ (if total == 1 then lit "level" else lit "levels")
      ++ lit " without acknowledgment, human action required: "
      ++ a.message;
}

abbrev pub disabled : Delivery → Delivery
disabled d = record d { status = failed; error = lit "channel disabled" }

-- The part of dispatchToChannel after the row is inserted.
unfoldable pub hand_over : Env → Alert → NotificationChannel → Delivery → World → World
unfolding update_delivery
hand_over env a ch d w =
    if ch.enabled
    then emit (send d ch a) w
    else (if env.fails (update_row d.id) then w else update_delivery (disabled d) w)

-- The unique index on run, level and channel refuses a second row.
unfoldable pub reserve_and_send :
    Env → Alert → ℕ → Slot → Str → Option (Option NotificationChannel) → World → World
unfolding hand_over insert_delivery any
reserve_and_send env a run slot id none w = w
reserve_and_send env a run slot id (some none) w = w
reserve_and_send env a run slot id (some (some ch)) w =
    if env.fails (reserve run slot id) || any (is_slot run slot id) w.deliveries
    then w
    else let d : Delivery = record {
      id = w.next_id;
      run_id = run;
      slot = slot;
      channel_id = some id;
      status = pending;
      error = [];
      attempt_started_at = env.now;
      sent_at = none;
    } in
      hand_over env a ch d (insert_delivery d w)

unfoldable pub dispatch_to_channel : Env → Alert → ℕ → Slot → Str → World → World
unfolding reserve_and_send
dispatch_to_channel env a run slot id w = reserve_and_send env a run slot id (env.get_channel id) w

-- The loops of executeLevel and dispatchSpecial.
unfoldable pub dispatch_all : Env → Alert → ℕ → Slot → List Str → World → World
unfolding dispatch_to_channel
dispatch_all env a run slot [] w = w
dispatch_all env a run slot (id ∷ ids) w =
    dispatch_all env a run slot ids (dispatch_to_channel env a run slot id w)

abbrev pub outcome : Env → Delivery → Option Str → Delivery
outcome env d none = record d { status = sent; sent_at = some env.now }
outcome env d (some e) = record d { status = failed; error = truncate_err env e }

unfoldable pub deliver_and_update : Env → Delivery → Alert → NotificationChannel → World → World
unfolding update_delivery
deliver_and_update env d a ch w =
    if env.fails (update_row d.id) then w else update_delivery (outcome env d (env.send_now a ch)) w
