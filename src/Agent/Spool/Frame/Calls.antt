-- ===== src/Agent/Spool/Frame/Calls.antt =====
-- The calls of the spool change the rows, the cursors and the stream in few ways.
use maintenant.Base.{
  Str_eq, length, ◌-◌, ◌/◌, ◌^◌, ℕ, suc, ◌+◌, ◌<◌, ◌≡◌, Bool, false, not, ◌&&◌, ◌||◌, Option, none,
  some, List, [], ◌∷◌, ◌++◌, arith, ltb, leb, ◌==◌, if_elim, Str,
}
use maintenant.Base.Map.{Map, insert}
use maintenant.Agent.Spool.{
  second, append, reclaim, add_dropped as record_dropped_call, delete_older, delete_up_to, reset,
  is_enabled, snapshot_of, send, AgentEvent, PendingEvent, SpoolStore, Out, Drainer, Spool,
  SpoolEnv,
}
use maintenant.Agent.Spool.Store.{
  row_of, append_events, delete_oldest_bytes, is_up_to, is_older_than, add_dropped,
}
use maintenant.Agent.Spool.Queue.{
  emit, pass_through, send_snapshot, resend_each, resend_snapshots, take_batch, trim_memory_locked,
  enforce_disk_budget, within_budget, free_rows, record_dropped, write_batch, land_batch,
  land_taken, take_at, buffer_event, Outcome, buffer_payload, buffer_kind, drop_log_every, freed,
  with_store,
}
use maintenant.Agent.Spool.Control.{purge_expired, acked, reset_dropped, rewind, rate_limited}
use maintenant.Agent.Spool.Steps.{
  Step, offer, taken, land, purge, limit_reset, attach, drain, resend, ack, limited, rewound,
  detached, discarded, closed, take_step, run,
}
use maintenant.Agent.Spool.Frame.{Core, core, Holds, IsStable, split_store, split_buf}

-- Whatever is acknowledged is honest.
unfoldable pub AllHonest : (ℕ → List Out → Type 0) → List Step → Spool → Type 0
unfolding take_step
AllHonest Honest [] s = Unit
AllHonest Honest (ack env seq ∷ xs) s =
    Honest seq s.out × AllHonest Honest xs (take_step (ack env seq) s)
AllHonest Honest (x ∷ xs) s = AllHonest Honest xs (take_step x s)

lt_of_test : (seq last : ℕ) (b : Bool) → (b || leb seq last) ≡ false → last < seq
lt_of_test seq last b e = ground arith

module _ (P : Drainer → Core → Type 0) (Honest : ℕ → List Out → Type 0)
    (k : IsStable P Honest) where
  Holds-emit : (evt : AgentEvent) (s : Spool) → Holds P s → Holds P (emit evt s)
  Holds-emit evt =
      split_store (λ s. Holds P s → Holds P (emit evt s)) (λ s h. tt)
        (λ st s h. k.tells evt s.drainer (core st s) h)

  Holds-pass_through :
      (env : SpoolEnv) (evt : AgentEvent) (s : Spool)
      → Holds P s
      → Holds P (pass_through env evt s).0
  unfolding pass_through
  Holds-pass_through env evt s h =
      if_elim (λ (r : Spool × Outcome). Holds P r.0) s.attached
        (λ _.
          if_elim (λ (r : Spool × Outcome). Holds P r.0) (env.fails send) (λ _. h)
            (λ _. Holds-emit evt s h))
        (λ _. h)

  Holds-send_snapshot :
      (env : SpoolEnv) (kind : Str) (evt : AgentEvent) (s : Spool)
      → Holds P s
      → Holds P (send_snapshot env kind evt s)
  unfolding send_snapshot
  Holds-send_snapshot env kind evt s h =
      if_elim (Holds P) (s.attached && not (env.fails send))
        (λ _. Holds-emit evt (record s { snapshots = insert kind evt s.snapshots }) h) (λ _. h)

  Holds-resend_each :
      (env : SpoolEnv) (m : Map Str AgentEvent) (s : Spool)
      → Holds P s
      → Holds P (resend_each env m s)
  unfolding resend_each
  Holds-resend_each env [] s h = h
  Holds-resend_each env ((kind, evt) ∷ m) s h =
      if_elim (Holds P) (env.fails send) (λ _. h)
        (λ _. Holds-resend_each env m (emit evt s) (Holds-emit evt s h))

  Holds-buffer_payload :
      (env : SpoolEnv) (evt : AgentEvent) (payload : Option (List ℕ)) (s : Spool)
      → Holds P s
      → Holds P (buffer_payload env evt payload s).0
  unfolding buffer_payload
  Holds-buffer_payload env evt none s h = h
  Holds-buffer_payload env evt (some payload) s h = h

  Holds-buffer_kind :
      (env : SpoolEnv) (evt : AgentEvent) (kind : Option Str) (s : Spool)
      → Holds P s
      → Holds P (buffer_kind env evt kind s).0
  unfolding buffer_kind
  Holds-buffer_kind env evt (some kind) s h = Holds-send_snapshot env kind evt s h
  Holds-buffer_kind env evt none s h = Holds-buffer_payload env evt (env.marshal evt) s h

  Holds-buffer_event :
      (env : SpoolEnv) (evt : AgentEvent) (s : Spool)
      → Holds P s
      → Holds P (buffer_event env evt s).0
  unfolding buffer_event
  Holds-buffer_event env evt s h =
      if_elim (λ (r : Spool × Outcome). Holds P r.0) (not (is_enabled s.cfg))
        (λ _. Holds-pass_through env evt s h) (λ _. Holds-buffer_kind env evt (snapshot_of evt) s h)

  Holds-take_batch : (s : Spool) → Holds P s → Holds P (take_batch s)
  unfolding take_batch trim_memory_locked
  Holds-take_batch =
      split_buf (λ s. Holds P s → Holds P (take_batch s)) (λ s h. h)
        (λ ev evs.
          split_store
            (λ s.
              Holds P (record s { buf = ev ∷ evs })
              → Holds P (take_batch (record s { buf = ev ∷ evs })))
            (λ s h. tt) (λ st s h. h))

  Holds-appends :
      (batch : List PendingEvent) (st : SpoolStore) (s : Spool)
      → P s.drainer (core st s)
      → P s.drainer (core (append_events batch st) s)
  unfolding append_events
  Holds-appends [] st s h = h
  Holds-appends (ev ∷ evs) st s h =
      Holds-appends evs (record st { rows = st.rows ++ row_of st.next ev ∷ []; next = suc st.next })
        s (k.appends ev s.drainer (core st s) h)

  Holds-delete_oldest_bytes :
      (n : ℕ) (st : SpoolStore) (s : Spool)
      → P s.drainer (core st s)
      → P s.drainer (core (delete_oldest_bytes n st) s)
  unfolding delete_oldest_bytes
  Holds-delete_oldest_bytes n st s h = k.deletes _ s.drainer (core st s) h

  Holds-record_dropped :
      (env : SpoolEnv) (n : ℕ) (s : Spool) → Holds P s → Holds P (record_dropped env n s)
  unfolding record_dropped
  Holds-record_dropped env n s h =
      if_elim (Holds P)
        (elim s.last_drop_log [ none ↦ false | some last ↦ ltb (env.now - last) drop_log_every ])
        (λ _. h) (λ _. h)

  Holds-free_rows :
      (env : SpoolEnv) (st : SpoolStore) (o : Option Outcome) (s : Spool)
      → P s.drainer (core st s)
      → Holds P (free_rows env st o (with_store st s)).0
  unfolding free_rows
  Holds-free_rows env st (some o) s h = h
  Holds-free_rows env st none s h =
      let st' = freed env s st in
      let n = length st.rows - length st'.rows in
      let h' : P s.drainer (core st' s) =
        Holds-delete_oldest_bytes
          (env.size_bytes - s.cfg.max_disk_bytes + s.cfg.max_disk_bytes / 10) st s h in
      let Q = λ (r : Spool × Outcome). Holds P r.0 in
      if_elim Q (n == 0) (λ _. h')
        λ _.
          if_elim Q (env.fails reclaim || env.fails record_dropped_call) (λ _. h')
            λ _. Holds-record_dropped env n (with_store (add_dropped n st') s) h'

  Holds-enforce_disk_budget :
      (env : SpoolEnv) (s : Spool) → Holds P s → Holds P (enforce_disk_budget env s).0
  unfolding enforce_disk_budget
  Holds-enforce_disk_budget env =
      split_store (λ s. Holds P s → Holds P (enforce_disk_budget env s).0) (λ s h. tt)
        (λ st s h. Holds-free_rows env st (within_budget env (with_store st s)) s h)

  Holds-write_batch :
      (env : SpoolEnv) (batch : List PendingEvent) (s : Spool)
      → Holds P s
      → Holds P (write_batch env batch s).0
  unfolding write_batch
  Holds-write_batch env batch =
      split_store (λ s. Holds P s → Holds P (write_batch env batch s).0) (λ s h. tt)
        λ st s h.
          if_elim (λ (r : Spool × Outcome). Holds P r.0) (env.fails append) (λ _. h)
            λ _.
              Holds-enforce_disk_budget env (with_store (append_events batch st) s)
                (Holds-appends batch st s h)

  Holds-land_taken :
      (env : SpoolEnv) (s : Spool) (o : Option (List PendingEvent × List (List PendingEvent)))
      → Holds P s
      → Holds P (land_taken env s o).0
  unfolding land_taken
  Holds-land_taken env s none h = h
  Holds-land_taken env s (some (batch, rest)) h =
      Holds-write_batch env batch (record s { flights = rest }) h

  Holds-land_batch :
      (env : SpoolEnv) (n : ℕ) (s : Spool) → Holds P s → Holds P (land_batch env n s).0
  unfolding land_batch
  Holds-land_batch env n s h = Holds-land_taken env s (take_at n s.flights) h

  Holds-purge_expired : (env : SpoolEnv) (s : Spool) → Holds P s → Holds P (purge_expired env s)
  unfolding purge_expired
  Holds-purge_expired env =
      split_store (λ s. Holds P s → Holds P (purge_expired env s)) (λ s h. tt)
        λ st s h.
          if_elim (Holds P) (s.cfg.max_age == 0 || env.fails delete_older) (λ _. h)
            λ _.
              k.deletes (is_older_than ((env.now - s.cfg.max_age) / second)) s.drainer (core st s) h

  Holds-acked :
      (env : SpoolEnv) (seq : ℕ) (s : Spool)
      → Honest seq s.out
      → Holds P s
      → Holds P (acked env seq s)
  unfolding acked
  Holds-acked env seq =
      split_store (λ s. Honest seq s.out → Holds P s → Holds P (acked env seq s))
        (λ s o h. if_elim (Holds P) (leb (2 ^ 63) seq || leb seq s.ack_seq) (λ _. tt) (λ _. tt))
        λ st s o h.
          if_elim (Holds P) (leb (2 ^ 63) seq || leb seq s.ack_seq) (λ _. h)
            λ e.
              let h' = k.acks seq s.drainer (core st s) (lt_of_test seq s.ack_seq _ e) o h in
              if_elim (Holds P) (env.fails delete_up_to) (λ _. h')
                λ _. k.deletes (is_up_to seq) s.drainer (record (core st s) { ack = seq }) h'

  Holds-rewind : (s : Spool) → Holds P s → Holds P (rewind s)
  unfolding rewind
  Holds-rewind =
      split_store (λ s. Holds P s → Holds P (rewind s)) (λ s h. tt)
        (λ st s h. k.rewinds s.drainer (core st s) h)

  Holds-rate_limited :
      (env : SpoolEnv) (after : ℕ) (s : Spool) → Holds P s → Holds P (rate_limited env after s)
  unfolding rate_limited
  Holds-rate_limited env after =
      split_store (λ s. Holds P s → Holds P (rate_limited env after s)) (λ s h. tt)
        (λ st s h. k.rewinds s.drainer (core st s) h)

  Holds-reset_dropped : (env : SpoolEnv) (s : Spool) → Holds P s → Holds P (reset_dropped env s)
  Holds-reset_dropped env =
      split_store (λ s. Holds P s → Holds P (reset_dropped env s)) (λ s h. tt)
        λ st s h. if_elim (λ st'. P s.drainer (core st' s)) (env.fails reset) (λ _. h) (λ _. h)

  Holds-resend_snapshots :
      (env : SpoolEnv) (s : Spool) → Holds P s → Holds P (resend_snapshots env s)
  unfolding resend_snapshots
  Holds-resend_snapshots env s h =
      if_elim (Holds P) s.attached (λ _. Holds-resend_each env s.snapshots s h) (λ _. h)

  -- A property of the rows, the cursors and the stream that their changes keep is kept by a run whose
  -- acknowledgements are honest.
  pub Holds-run :
      (xs : List Step) (s : Spool) → AllHonest Honest xs s → Holds P s → Holds P (run xs s)
  unfolding run take_step AllHonest
  Holds-run [] s o h = h
  Holds-run (offer env evt ∷ xs) s o h = Holds-run xs _ o (Holds-buffer_event env evt s h)
  Holds-run (taken ∷ xs) s o h = Holds-run xs _ o (Holds-take_batch s h)
  Holds-run (land env n ∷ xs) s o h = Holds-run xs _ o (Holds-land_batch env n s h)
  Holds-run (purge env ∷ xs) s o h = Holds-run xs _ o (Holds-purge_expired env s h)
  Holds-run (limit_reset env ∷ xs) s o h = Holds-run xs _ o (Holds-reset_dropped env s h)
  Holds-run (attach env ∷ xs) s o h = Holds-run xs _ o h
  Holds-run (drain env ∷ xs) s o h = Holds-run xs _ o (k.drains env s h)
  Holds-run (resend env ∷ xs) s o h = Holds-run xs _ o (Holds-resend_snapshots env s h)
  Holds-run (ack env seq ∷ xs) s o h = Holds-run xs _ o.1 (Holds-acked env seq s o.0 h)
  Holds-run (limited env after ∷ xs) s o h = Holds-run xs _ o (Holds-rate_limited env after s h)
  Holds-run (rewound ∷ xs) s o h = Holds-run xs _ o (Holds-rewind s h)
  Holds-run (detached ∷ xs) s o h = Holds-run xs _ o h
  Holds-run (discarded ∷ xs) s o h = Holds-run xs _ o tt
  Holds-run (closed ∷ xs) s o h = Holds-run xs _ o tt
