-- ===== src/Agent/Spool/Flush.antt =====
-- What Send and flush do to the queue, from the oldest row to the newest event of the buffer.
use maintenant.Base.{
  ℕ, suc, ◌+◌, ◌≤◌, ◌≡◌, ◌≢◌, refl, sym, ◌∙◌, ap, true, false, none, some, List, [], ◌∷◌, ◌++◌, map,
  arith, leb, if◌then◌else◌, if_elim, length,
}
use mathlib.Core.List.{append-nil, append_assoc, map-append}
use maintenant.Agent.Spool.{
  is_enabled, AgentEvent, snapshot_of, PendingEvent, Row, SpoolStore, Spool, SpoolEnv, append,
}
use maintenant.Agent.Spool.Store.{row_of, append_events}
use maintenant.Agent.Spool.Queue.{
  finish_send, no_stream, Outcome, done, failed, over_memory, pending, enqueue, take_batch,
  free_rows, enforce_disk_budget, write_batch, land_batch, land_taken, take_at, flush,
  buffer_payload, buffer_kind, buffer_event, send_event, with_store,
}
use maintenant.Agent.Spool.Steps.{offer, taken, land, take_step, run}
use maintenant.Agent.Spool.Frame.{split_store, split_buf}

abbrev pub pending_of : Row → PendingEvent
pending_of r = record { event_id = r.event_id; observed_at = r.observed_at; payload = r.payload }

-- Every event that waits, the oldest first.
abbrev pub queued : Spool → List PendingEvent
queued s = (elim s.store [ none ↦ [] | some st ↦ map pending_of st.rows ]) ++ s.buf

rows-append_events :
    (batch : List PendingEvent) (st : SpoolStore)
    → map pending_of (append_events batch st).rows ≡ map pending_of st.rows ++ batch
unfolding append_events
rows-append_events [] st = sym (append-nil (map pending_of st.rows))
rows-append_events (ev ∷ evs) st =
    rows-append_events evs
      (record st { rows = st.rows ++ row_of st.next ev ∷ []; next = suc st.next })
    ∙ ap (λ (l : List PendingEvent). l ++ evs)
        (map-append pending_of st.rows (row_of st.next ev ∷ []))
    ∙ append_assoc (map pending_of st.rows) (ev ∷ []) evs

enforce_within :
    (env : SpoolEnv) (s : Spool)
    → env.size_bytes ≤ s.cfg.max_disk_bytes
    → (enforce_disk_budget env s).0 ≡ s
unfolding enforce_disk_budget free_rows
enforce_within env s le = ground (arith, le)

-- A batch that is written, or cannot be, is in the queue before the buffer.
queued-write_batch :
    (env : SpoolEnv) (batch : List PendingEvent) (st : SpoolStore) (s : Spool)
    → env.size_bytes ≤ s.cfg.max_disk_bytes
    → queued (write_batch env batch (with_store st s)).0
      ≡ map pending_of st.rows ++ (batch ++ s.buf)
unfolding write_batch
queued-write_batch env batch st s le =
    if_elim (λ (r : Spool × Outcome). queued r.0 ≡ map pending_of st.rows ++ (batch ++ s.buf))
      (env.fails append) (λ _. refl)
      λ _.
        ap queued (enforce_within env (with_store (append_events batch st) s) le)
        ∙ ap (λ (l : List PendingEvent). l ++ s.buf) (rows-append_events batch st)
        ∙ append_assoc (map pending_of st.rows) batch s.buf

-- If there is a store and its size is within the budget, then a flush keeps every waiting event in its place,
-- whether the write of the batch succeeds or not.
pub queued-flush :
    (env : SpoolEnv) (s : Spool)
    → s.store ≢ none
    → env.size_bytes ≤ s.cfg.max_disk_bytes
    → queued (flush env s).0 ≡ queued s
unfolding flush
queued-flush env =
    split_store
      (λ s.
        s.store ≢ none → env.size_bytes ≤ s.cfg.max_disk_bytes → queued (flush env s).0 ≡ queued s)
      (λ s some_store le. absurd (some_store refl))
      λ st.
        split_buf
          (λ s.
            some st ≢ none
            → env.size_bytes ≤ s.cfg.max_disk_bytes
            → queued (flush env (with_store st s)).0 ≡ queued (with_store st s))
          (λ s some_store le. refl)
          λ ev evs s some_store le.
            queued-write_batch env (ev ∷ evs) st (record s { buf = []; buf_bytes = 0 }) le
            ∙ ap (λ (l : List PendingEvent). map pending_of st.rows ++ l) (append-nil (ev ∷ evs))

queued-finish_send :
    (env : SpoolEnv) (o : Outcome) (s : Spool)
    → s.store ≢ none
    → env.size_bytes ≤ s.cfg.max_disk_bytes
    → queued (finish_send env (s, o)).0 ≡ queued s
unfolding finish_send
queued-finish_send env over_memory s some_store le = queued-flush env s some_store le
queued-finish_send env done s some_store le = refl
queued-finish_send env no_stream s some_store le = refl
queued-finish_send env failed s some_store le = refl

buffer_event-queues :
    (env : SpoolEnv) (evt : AgentEvent) (payload : List ℕ) (s : Spool)
    → is_enabled s.cfg ≡ true
    → snapshot_of evt ≡ none
    → env.marshal evt ≡ some payload
    → buffer_event env evt s ≡ (
      enqueue (pending env evt payload) s,
      (if leb s.cfg.max_memory_bytes (s.buf_bytes + length payload) then over_memory else done),
    )
unfolding buffer_event buffer_kind buffer_payload
buffer_event-queues env evt payload s on plain coded = rw (on, plain, coded) refl

-- If the spool is enabled, has a store whose size is within the budget, and the event is encoded and is no
-- snapshot, then Send puts it behind every event that waits, which all keep their places, whether a flush
-- that it makes succeeds or not.
pub queued-send_event :
    (env : SpoolEnv) (evt : AgentEvent) (payload : List ℕ) (s : Spool)
    → is_enabled s.cfg ≡ true
    → snapshot_of evt ≡ none
    → env.marshal evt ≡ some payload
    → s.store ≢ none
    → env.size_bytes ≤ s.cfg.max_disk_bytes
    → queued (send_event env evt s).0 ≡ queued s ++ pending env evt payload ∷ []
unfolding send_event
queued-send_event env evt payload s on plain coded some_store le =
    let s' = enqueue (pending env evt payload) s in
    let stored : List PendingEvent = elim s.store [
      | none ↦ []
      | some st ↦ map pending_of st.rows
    ] in
    ap (λ (r : Spool × Outcome). queued (finish_send env r).0)
      (buffer_event-queues env evt payload s on plain coded)
    ∙ queued-finish_send env
        (if leb s.cfg.max_memory_bytes (s.buf_bytes + length payload) then over_memory else done) s'
        some_store le
    ∙ sym (append_assoc stored s.buf (pending env evt payload ∷ []))

write_batch-works :
    (env : SpoolEnv) (batch : List PendingEvent) (st : SpoolStore) (s : Spool)
    → env.fails append ≡ false
    → env.size_bytes ≤ s.cfg.max_disk_bytes
    → (write_batch env batch (with_store st s)).0 ≡ with_store (append_events batch st) s
unfolding write_batch
write_batch-works env batch st s works le =
    rw works (enforce_within env (with_store (append_events batch st) s) le)

-- If a flush takes the one event of the buffer, then an event is sent that is encoded and is no snapshot,
-- and a second flush takes it and writes it before the first flush writes, where the spool is enabled and
-- both writes succeed within the budget, then the later event waits before the earlier one.
pub queued-overlap :
    (env : SpoolEnv) (first : PendingEvent) (evt : AgentEvent) (payload : List ℕ) (st : SpoolStore)
    (s : Spool)
    → is_enabled s.cfg ≡ true
    → snapshot_of evt ≡ none
    → env.marshal evt ≡ some payload
    → env.fails append ≡ false
    → env.size_bytes ≤ s.cfg.max_disk_bytes
    → queued (
        run
          (taken ∷ offer env evt ∷ taken ∷ land env 0 ∷ land env 0 ∷ [])
          (record s { store = some st; buf = first ∷ []; flights = [] }))
      ≡ map pending_of st.rows ++ pending env evt payload ∷ first ∷ []
unfolding take_batch land_batch land_taken take_at run take_step
queued-overlap env first evt payload st s on plain coded works le =
    let second = pending env evt payload in
    let s' = record s { buf = []; buf_bytes = 0; flights = (first ∷ []) ∷ [] } in
    let st' = append_events (second ∷ []) st in
    let taken = record s {
      store = some st;
      buf = [];
      buf_bytes = 0;
      flights = (first ∷ []) ∷ [];
    } in
    ap (λ (r : Spool × Outcome). queued (land_batch env 0 (land_batch env 0 (take_batch r.0)).0).0)
      (buffer_event-queues env evt payload taken on plain coded)
    ∙ ap (λ (t : Spool). queued (land_batch env 0 t).0)
        (write_batch-works env (second ∷ []) st s' works le)
    ∙ ap queued (write_batch-works env (first ∷ []) st' (record s' { flights = [] }) works le)
    ∙ append-nil (map pending_of (append_events (first ∷ []) st').rows)
    ∙ rows-append_events (first ∷ []) st'
    ∙ ap (λ (l : List PendingEvent). l ++ first ∷ []) (rows-append_events (second ∷ []) st)
    ∙ append_assoc (map pending_of st.rows) (second ∷ []) (first ∷ [])
