-- ===== src/Escalation/Steps/Once.antt =====
-- A level of a run, and its closing notice, reach a channel once.
use maintenant.Base.{
  ℕ, suc, ◌+◌, ◌≤◌, ◌≡◌, refl, sym, ◌↔◌, true, false, ◌||◌, ◌==◌, Option, none, some, List, [], ◌∷◌,
  ◌++◌, arith, Str, str_eq_iff, any, count, count-append, if_elim, if◌then◌else◌,
}
use maintenant.Alert.Model.{Alert, NotificationChannel}
use maintenant.Escalation.Model.{
  Slot, level, special_ack, special_exhausted, slot_eq, Delivery, pending,
}
use maintenant.Escalation.Store.{
  World, Effect, send, resend, set_escalated_at, update_where, is_slot, insert_delivery,
  update_delivery, insert_run,
}
use maintenant.Escalation.Runner.{Env, disabled, hand_over, reserve_and_send, reserve, update_row}
use maintenant.Escalation.Steps.{Step, take_steps, empty_world}
use maintenant.Escalation.Steps.Frame.{IsFramed}
use maintenant.Escalation.Steps.Frame.Service.{framed-take_steps}

-- How many deliveries of the slot to the channel the notifier was first handed.
unfoldable pub first_sends : ℕ → Slot → Str → List Effect → ℕ
first_sends run slot id [] = 0
first_sends run slot id (send d ch a ∷ out) =
    let n = first_sends run slot id out in if is_slot run slot id d then suc n else n
first_sends run slot id (resend d ch a ∷ out) = first_sends run slot id out
first_sends run slot id (set_escalated_at i at ∷ out) = first_sends run slot id out

-- The rows of the slot and the channel.
unfoldable pub rows : ℕ → Slot → Str → List Delivery → ℕ
unfolding count
rows run slot id ds = count (is_slot run slot id) ds

abbrev IsOnce : World → Type 0
IsOnce w =
    (run : ℕ) (slot : Slot) (id : Str)
    → (rows run slot id w.deliveries ≤ 1)
      × (first_sends run slot id w.out ≤ rows run slot id w.deliveries)

slot_eq_iff : (a b : Slot) → (slot_eq a b ≡ true) ↔ (a ≡ b)
slot_eq_iff (level n) (level m) = ground arith
slot_eq_iff (level n) special_ack = ground arith
slot_eq_iff (level n) special_exhausted = ground arith
slot_eq_iff special_ack (level m) = ground arith
slot_eq_iff special_ack special_ack = ground arith
slot_eq_iff special_ack special_exhausted = ground arith
slot_eq_iff special_exhausted (level m) = ground arith
slot_eq_iff special_exhausted special_ack = ground arith
slot_eq_iff special_exhausted special_exhausted = ground arith

rows_none :
    (run : ℕ) (slot : Slot) (id : Str) (ds : List Delivery)
    → any (is_slot run slot id) ds ≡ false
    → rows run slot id ds ≡ 0
unfolding any rows count
rows_none run slot id [] h = refl
rows_none run slot id (d ∷ ds) h = ground (arith, rows_none run slot id ds)

-- A change of status, error and time moves no row.
rows-update_delivery :
    (run : ℕ) (slot : Slot) (id : Str) (new : Delivery) (ds : List Delivery)
    → rows run slot id (
        update_where
          (λ d. d.id == new.id)
          (λ d. record d { status = new.status; error = new.error; sent_at = new.sent_at })
          ds)
      ≡ rows run slot id ds
unfolding rows count update_where
rows-update_delivery run slot id new [] = refl
rows-update_delivery run slot id new (d ∷ ds) =
    ground (arith, rows-update_delivery run slot id new ds)

-- The row that dispatchToChannel reserves.
abbrev new_row : ℕ → ℕ → Slot → Str → ℕ → Delivery
new_row key run slot id now = record {
  id = key;
  run_id = run;
  slot = slot;
  channel_id = some id;
  status = pending;
  error = [];
  attempt_started_at = now;
  sent_at = none;
}

rows-new :
    (key run now run' : ℕ) (slot slot' : Slot) (id id' : Str) (ds : List Delivery)
    → any (is_slot run slot id) ds ≡ false
    → is_slot run' slot' id' (new_row key run slot id now) ≡ true
    → rows run' slot' id' ds ≡ 0
rows-new key run now run' slot slot' id id' ds free same =
    let run_eq : run ≡ run' = ground (arith) in
    let slot_is : slot ≡ slot' = ground (arith, slot_eq_iff slot slot') in
    let id_eq : id ≡ id' = ground (arith, str_eq_iff id id') in
    rw (sym run_eq, sym slot_is, sym id_eq) (rows_none run slot id ds free)

-- A row more where there was none.
reserved :
    (w : World) (d : Delivery) (out : List Effect)
    → IsOnce w
    → ((run : ℕ) (slot : Slot) (id : Str)
        → is_slot run slot id d ≡ true
        → rows run slot id w.deliveries ≡ 0)
    → ((run : ℕ) (slot : Slot) (id : Str)
        → first_sends run slot id out ≤ first_sends run slot id w.out + rows run slot id (d ∷ []))
    → (run : ℕ) (slot : Slot) (id : Str)
    → (rows run slot id (w.deliveries ++ d ∷ []) ≤ 1)
      × (first_sends run slot id out ≤ rows run slot id (w.deliveries ++ d ∷ []))
unfolding rows count
reserved w d out h free more run slot id = ground (
  arith,
  h run slot id,
  free run slot id,
  more run slot id,
  count-append (is_slot run slot id) w.deliveries (d ∷ []),
)

-- The same world with the row of the slot, before it is handed over.
abbrev with_row : Delivery → World → World
with_row d w = record w { deliveries = w.deliveries ++ d ∷ []; next_id = w.next_id + 1 }

IsOnce-hand_over :
    (env : Env) (a : Alert) (ch : NotificationChannel) (run : ℕ) (slot : Slot) (id : Str)
    (w : World)
    → IsOnce w
    → any (is_slot run slot id) w.deliveries ≡ false
    → IsOnce (
        hand_over env a ch
          (new_row w.next_id run slot id env.now)
          (with_row (new_row w.next_id run slot id env.now) w))
unfolding hand_over update_delivery
IsOnce-hand_over env a ch run slot id w h free =
    let d = new_row w.next_id run slot id env.now in
    let fresh = λ (run' : ℕ) (slot' : Slot) (id' : Str) (same : is_slot run' slot' id' d ≡ true).
      rows-new w.next_id run env.now run' slot slot' id id' w.deliveries free same in
    let silent : IsOnce (with_row d w) =
      reserved w d w.out h fresh (λ run' slot' id'. omega arith) in
    let out = send d ch a ∷ w.out in
    if_elim IsOnce ch.enabled
      (λ e.
        reserved w d out h fresh (λ run' slot' id'. unfold first_sends rows count in ground arith))
      (λ e.
        if_elim IsOnce (env.fails (update_row d.id)) (λ e. silent)
          (λ e. λ run' slot' id'.
            rw (rows-update_delivery run' slot' id' (disabled d) (w.deliveries ++ d ∷ []))
              (silent run' slot' id')))

IsOnce-reserve_and_send :
    (env : Env) (a : Alert) (run : ℕ) (slot : Slot) (id : Str)
    (o : Option (Option NotificationChannel)) (w : World)
    → IsOnce w
    → IsOnce (reserve_and_send env a run slot id o w)
unfolding reserve_and_send insert_delivery
IsOnce-reserve_and_send env a run slot id none w h = h
IsOnce-reserve_and_send env a run slot id (some none) w h = h
IsOnce-reserve_and_send env a run slot id (some (some ch)) w h =
    let row = new_row w.next_id run slot id env.now in
    if_elim IsOnce (env.fails (reserve run slot id) || any (is_slot run slot id) w.deliveries)
      {x = w} {y = hand_over env a ch row (with_row row w)} (λ e. h)
      (λ e. IsOnce-hand_over env a ch run slot id w h (ground arith))

IsOnce-IsFramed : IsFramed IsOnce
unfolding insert_run update_delivery
IsOnce-IsFramed = record {
  policies = λ ps w h. h;
  runs = λ rs w h. h;
  insert = λ r w h. h;
  row = λ d w h run slot id. rw (rows-update_delivery run slot id d w.deliveries) (h run slot id);
  mark = λ id at w h run slot id'. unfold first_sends in h run slot id';
  again = λ d ch a w h run slot id. unfold first_sends in h run slot id;
  dispatch = IsOnce-reserve_and_send;
}

-- Whatever the calls of the runner and of the service, their order and the failures of the store, the first
-- attempt of a level of a run, or of one of its two notices, is handed to the notifier at most once for a
-- channel, and the store has at most one row for it.
pub first_sends-take_steps :
    (xs : List Step) (run : ℕ) (slot : Slot) (id : Str)
    → (first_sends run slot id (take_steps xs empty_world).out ≤ 1)
      × (rows run slot id (take_steps xs empty_world).deliveries ≤ 1)
first_sends-take_steps xs run slot id =
    let start : IsOnce empty_world =
      λ run slot id. unfold first_sends rows count in (omega arith, omega arith) in
    let all = framed-take_steps IsOnce IsOnce-IsFramed xs empty_world start run slot id in
    omega (arith, all.0, all.1)
