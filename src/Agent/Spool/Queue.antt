-- ===== src/Agent/Spool/Queue.antt =====
-- The queueing half of internal/agent/spool.go: Send, the flush of the buffer, the budgets, the
-- acknowledgements and the stream that comes and goes.
use maintenant.Base.{
  ℕ, zero, suc, Option, ◌+◌, ◌-◌, ◌*◌, ◌/◌, Str_eq, false, not, ◌&&◌, ◌||◌, none, some, List, [],
  ◌∷◌, ◌++◌, Str, length, ltb, leb, ◌==◌, if◌then◌else◌,
}
use maintenant.Base.Map.{Map, insert}
use maintenant.Agent.Spool.{
  second, is_enabled, AgentEvent, snapshot_of, PendingEvent, SpoolStore, direct, Spool, append,
  size, delete_bytes, reclaim, add_dropped as record_dropped_call, send, SpoolEnv,
}
use maintenant.Agent.Spool.Store.{append_events, delete_oldest_bytes, add_dropped}

-- The results of Send and of flush; only a caller looks at them.
pub data Outcome : Type 0 where
  done no_stream failed over_memory : Outcome

abbrev pub emit : AgentEvent → Spool → Spool
emit evt s = record s { out = direct evt ∷ s.out }

unfoldable pub pass_through : SpoolEnv → AgentEvent → Spool → Spool × Outcome
pass_through env evt s =
    if s.attached
    then (if env.fails send then (s, failed) else (emit evt s, done))
    else (s, no_stream)

-- A snapshot that is not sent is not an error.
unfoldable pub send_snapshot : SpoolEnv → Str → AgentEvent → Spool → Spool
unfolding insert
send_snapshot env kind evt s =
    let kept = record s { snapshots = insert kind evt s.snapshots } in
    if s.attached && not (env.fails send) then emit evt kept else kept

unfoldable pub resend_each : SpoolEnv → Map Str AgentEvent → Spool → Spool
resend_each env [] s = s
resend_each env ((kind, evt) ∷ kinds) s =
    let rest = resend_each env kinds (emit evt s) in if env.fails send then s else rest

unfoldable pub resend_snapshots : SpoolEnv → Spool → Spool
unfolding resend_each
resend_snapshots env s = if s.attached then resend_each env s.snapshots s else s

abbrev pub observed : SpoolEnv → AgentEvent → ℕ
observed env evt = elim evt.observed_at [ none ↦ env.now / second | some t ↦ t / second ]

abbrev pub pending : SpoolEnv → AgentEvent → List ℕ → PendingEvent
pending env evt payload = record {
  event_id = evt.event_id;
  observed_at = observed env evt;
  payload = payload;
}

abbrev pub enqueue : PendingEvent → Spool → Spool
enqueue ev s = record s { buf = s.buf ++ ev ∷ []; buf_bytes = s.buf_bytes + length ev.payload }

-- The buffer without its oldest events, its size and how many went.
unfoldable pub trim : ℕ → ℕ → List PendingEvent → List PendingEvent × ℕ × ℕ
trim limit bytes [] = ([], bytes, 0)
trim limit bytes (ev ∷ evs) =
    let (kept, bytes', n) = trim limit (bytes - length ev.payload) evs in
    if ltb limit bytes then (kept, bytes', suc n) else (ev ∷ evs, bytes, 0)

unfoldable pub trim_memory_locked : Spool → Spool
unfolding trim
trim_memory_locked s =
    let (kept, bytes, n) = trim s.cfg.max_memory_bytes s.buf_bytes s.buf in
    record s { buf = kept; buf_bytes = bytes; dropped = s.dropped + n }

-- The first half of flush, under the lock.
unfoldable pub take_batch : Spool → Spool
unfolding trim_memory_locked
take_batch s = elim s.buf [
  | [] ↦ s
  | ev ∷ evs ↦ elim s.store [
    | none ↦ trim_memory_locked s
    | some st ↦ record s { buf = []; buf_bytes = 0; flights = (ev ∷ evs) ∷ s.flights }
  ]
]

unfoldable pub payload_bytes : List PendingEvent → ℕ
payload_bytes [] = 0
payload_bytes (ev ∷ evs) = length ev.payload + payload_bytes evs

abbrev pub drop_log_every : ℕ
drop_log_every = 30 * second

-- Only the total that is logged changes.
unfoldable pub record_dropped : SpoolEnv → ℕ → Spool → Spool
record_dropped env n s =
    if elim s.last_drop_log [ none ↦ false | some last ↦ ltb (env.now - last) drop_log_every ]
    then record s { drop_logged = s.drop_logged + n }
    else record s { drop_logged = 0; last_drop_log = some env.now }

-- The rows that go, and their count.
abbrev pub freed : SpoolEnv → Spool → SpoolStore → SpoolStore
freed env s st =
    delete_oldest_bytes (env.size_bytes - s.cfg.max_disk_bytes + s.cfg.max_disk_bytes / 10) st

abbrev pub with_store : SpoolStore → Spool → Spool
with_store st s = record s { store = some st }

-- The result where nothing is to be freed.
abbrev pub within_budget : SpoolEnv → Spool → Option Outcome
within_budget env s =
    if s.cfg.max_disk_bytes == 0
    then some done
    else if env.fails size
    then some failed
    else if leb env.size_bytes s.cfg.max_disk_bytes
    then some done
    else if env.fails delete_bytes
    then some failed
    else none

-- A reclaim that fails ends the call after the rows are gone, and before they are counted.
unfoldable pub free_rows : SpoolEnv → SpoolStore → Option Outcome → Spool → Spool × Outcome
unfolding delete_oldest_bytes record_dropped
free_rows env st (some result) s = (s, result)
free_rows env st none s =
    let st' = freed env s st in
    let n = length st.rows - length st'.rows in
    if n == 0
    then (with_store st' s, done)
    else if env.fails reclaim || env.fails record_dropped_call
    then (with_store st' s, failed)
    else (record_dropped env n (with_store (add_dropped n st') s), done)

unfoldable pub enforce_disk_budget : SpoolEnv → Spool → Spool × Outcome
unfolding free_rows
enforce_disk_budget env s = elim s.store [
  | none ↦ (s, done)
  | some st ↦ free_rows env st (within_budget env s) s
]

-- The second half of flush: the batch goes into the store or back to the head of the buffer. A store that was
-- released meanwhile is none, where the code dereferences nil.
unfoldable pub write_batch : SpoolEnv → List PendingEvent → Spool → Spool × Outcome
unfolding payload_bytes append_events enforce_disk_budget
write_batch env batch s = elim s.store [
  | none ↦ (s, failed)
  | some st ↦
      if env.fails append
      then (
        record s { buf = batch ++ s.buf; buf_bytes = s.buf_bytes + payload_bytes batch },
        failed,
      )
      else enforce_disk_budget env (with_store (append_events batch st) s)
]

abbrev put_back :
    List PendingEvent
    → Option (List PendingEvent × List (List PendingEvent))
    → Option (List PendingEvent × List (List PendingEvent))
put_back b none = none
put_back b (some (batch, rest)) = some (batch, b ∷ rest)

-- The batch at a place, and the others.
unfoldable pub take_at :
    ℕ → List (List PendingEvent) → Option (List PendingEvent × List (List PendingEvent))
take_at n [] = none
take_at zero (b ∷ bs) = some (b, bs)
take_at (suc n) (b ∷ bs) = put_back b (take_at n bs)

unfoldable pub land_taken :
    SpoolEnv → Spool → Option (List PendingEvent × List (List PendingEvent)) → Spool × Outcome
unfolding write_batch
land_taken env s none = (s, done)
land_taken env s (some (batch, rest)) = write_batch env batch (record s { flights = rest })

-- Any flush that has taken its batch may write it next.
unfoldable pub land_batch : SpoolEnv → ℕ → Spool → Spool × Outcome
unfolding take_at land_taken
land_batch env n s = land_taken env s (take_at n s.flights)

-- flush where no other thread takes its turn between the halves.
unfoldable pub flush : SpoolEnv → Spool → Spool × Outcome
unfolding trim_memory_locked write_batch
flush env s = elim s.buf [
  | [] ↦ (s, done)
  | ev ∷ evs ↦ elim s.store [
    | none ↦ (trim_memory_locked s, done)
    | some st ↦ write_batch env (ev ∷ evs) (record s { buf = []; buf_bytes = 0 })
  ]
]

unfoldable pub buffer_payload : SpoolEnv → AgentEvent → Option (List ℕ) → Spool → Spool × Outcome
buffer_payload env evt none s = (s, failed)
buffer_payload env evt (some payload) s =
    let s' = enqueue (pending env evt payload) s in
    (s', if leb s.cfg.max_memory_bytes s'.buf_bytes then over_memory else done)

unfoldable pub buffer_kind : SpoolEnv → AgentEvent → Option Str → Spool → Spool × Outcome
unfolding send_snapshot buffer_payload
buffer_kind env evt (some kind) s = (send_snapshot env kind evt s, done)
buffer_kind env evt none s = buffer_payload env evt (env.marshal evt) s

-- Send up to the flush that it makes where the buffer is over its budget.
unfoldable pub buffer_event : SpoolEnv → AgentEvent → Spool → Spool × Outcome
unfolding pass_through buffer_kind
buffer_event env evt s =
    if not (is_enabled s.cfg)
    then pass_through env evt s
    else buffer_kind env evt (snapshot_of evt) s

unfoldable pub finish_send : SpoolEnv → Spool × Outcome → Spool × Outcome
unfolding flush
finish_send env (s, over_memory) = flush env s
finish_send env (s, done) = (s, done)
finish_send env (s, no_stream) = (s, no_stream)
finish_send env (s, failed) = (s, failed)

unfoldable pub send_event : SpoolEnv → AgentEvent → Spool → Spool × Outcome
unfolding buffer_event finish_send
send_event env evt s = finish_send env (buffer_event env evt s)
