-- ===== src/Agent/Spool/Memory.antt =====
-- A spool whose database could not be opened.
use maintenant.Base.{
  ℕ, ◌≡◌, refl, sym, ap, inl, inr, Option-cases, ◌∙◌, false, not, ◌&&◌, Option, none, some, List,
  [], ◌∷◌, arith, if_elim, Str, Str_eq,
}
use maintenant.Base.Map.{Map, insert}
use maintenant.Agent.Spool.{
  SpoolConfig, snapshot_of, AgentEvent, resting, Spool, SpoolEnv, send, is_enabled,
}
use maintenant.Agent.Spool.Queue.{
  Outcome, emit, pass_through, send_snapshot, resend_each, resend_snapshots, trim_memory_locked,
  take_batch, write_batch, land_batch, land_taken, take_at, buffer_payload, buffer_kind,
  buffer_event,
}
use maintenant.Agent.Spool.Control.{new_spool, purge_expired, acked, rewind, rate_limited}
use maintenant.Agent.Spool.Drain.{look, drain_from, drain_step}
use maintenant.Agent.Spool.Steps.{
  Step, offer, taken, land, purge, limit_reset, attach, drain, resend, ack, limited, rewound,
  detached, discarded, closed, take_step, run,
}
use maintenant.Agent.Spool.Acks.{was_told}

-- There is no store, the drain has nothing to hold, and the row was not sent.
record IsSilent (seq : ℕ) (s : Spool) : Type 0 where
  storeless : s.store ≡ none
  rests : s.drainer ≡ resting
  untold : was_told seq s.out ≡ false

module _ (seq : ℕ) where
  IsSilent-emit : (evt : AgentEvent) (s : Spool) → IsSilent seq s → IsSilent seq (emit evt s)
  unfolding was_told
  IsSilent-emit evt s h = record { storeless = h.storeless; rests = h.rests; untold = h.untold }

  -- Nothing that the silence is about has changed.
  IsSilent-same :
      (s t : Spool)
      → t.store ≡ s.store
      → t.drainer ≡ s.drainer
      → t.out ≡ s.out
      → IsSilent seq s
      → IsSilent seq t
  IsSilent-same s t e f g h = record {
    storeless = e ∙ h.storeless;
    rests = f ∙ h.rests;
    untold = ap (was_told seq) g ∙ h.untold;
  }

  IsSilent-pass_through :
      (env : SpoolEnv) (evt : AgentEvent) (s : Spool)
      → IsSilent seq s
      → IsSilent seq (pass_through env evt s).0
  unfolding pass_through
  IsSilent-pass_through env evt s h =
      if_elim (λ (r : Spool × Outcome). IsSilent seq r.0) s.attached
        (λ _.
          if_elim (λ (r : Spool × Outcome). IsSilent seq r.0) (env.fails send) (λ _. h)
            (λ _. IsSilent-emit evt s h))
        (λ _. h)

  IsSilent-send_snapshot :
      (env : SpoolEnv) (kind : Str) (evt : AgentEvent) (s : Spool)
      → IsSilent seq s
      → IsSilent seq (send_snapshot env kind evt s)
  unfolding send_snapshot
  IsSilent-send_snapshot env kind evt s h =
      let s' = record s { snapshots = insert kind evt s.snapshots } in
      let h' = IsSilent-same s s' refl refl refl h in
      if_elim (IsSilent seq) (s.attached && not (env.fails send)) (λ _. IsSilent-emit evt s' h')
        (λ _. h')

  IsSilent-resend_each :
      (env : SpoolEnv) (m : Map Str AgentEvent) (s : Spool)
      → IsSilent seq s
      → IsSilent seq (resend_each env m s)
  unfolding resend_each
  IsSilent-resend_each env [] s h = h
  IsSilent-resend_each env ((kind, evt) ∷ m) s h =
      if_elim (IsSilent seq) (env.fails send) (λ _. h)
        (λ _. IsSilent-resend_each env m (emit evt s) (IsSilent-emit evt s h))

  IsSilent-buffer_payload :
      (env : SpoolEnv) (evt : AgentEvent) (payload : Option (List ℕ)) (s : Spool)
      → IsSilent seq s
      → IsSilent seq (buffer_payload env evt payload s).0
  unfolding buffer_payload
  IsSilent-buffer_payload env evt none s h = h
  IsSilent-buffer_payload env evt (some payload) s h = IsSilent-same s _ refl refl refl h

  IsSilent-buffer_kind :
      (env : SpoolEnv) (evt : AgentEvent) (kind : Option Str) (s : Spool)
      → IsSilent seq s
      → IsSilent seq (buffer_kind env evt kind s).0
  unfolding buffer_kind
  IsSilent-buffer_kind env evt (some kind) s h = IsSilent-send_snapshot env kind evt s h
  IsSilent-buffer_kind env evt none s h = IsSilent-buffer_payload env evt (env.marshal evt) s h

  IsSilent-buffer_event :
      (env : SpoolEnv) (evt : AgentEvent) (s : Spool)
      → IsSilent seq s
      → IsSilent seq (buffer_event env evt s).0
  unfolding buffer_event
  IsSilent-buffer_event env evt s h =
      if_elim (λ (r : Spool × Outcome). IsSilent seq r.0) (not (is_enabled s.cfg))
        (λ _. IsSilent-pass_through env evt s h)
        (λ _. IsSilent-buffer_kind env evt (snapshot_of evt) s h)

  IsSilent-take_batch : (s : Spool) → IsSilent seq s → IsSilent seq (take_batch s)
  unfolding take_batch trim_memory_locked
  IsSilent-take_batch s h =
      IsSilent-same s (take_batch s) (ground (arith, h.storeless)) (ground (arith, h.storeless))
        (ground (arith, h.storeless)) h

  IsSilent-land_batch :
      (env : SpoolEnv) (n : ℕ) (s : Spool) → IsSilent seq s → IsSilent seq (land_batch env n s).0
  unfolding land_batch land_taken write_batch
  IsSilent-land_batch env n s h = elim (Option-cases (take_at n s.flights)) [
    | inl e ↦ rw e h
    | inr ((batch, rest), e) ↦ rw e (
        IsSilent-same s (write_batch env batch (record s { flights = rest })).0
          (ground (arith, h.storeless)) (ground (arith, h.storeless)) (ground (arith, h.storeless))
          h)
  ]

  IsSilent-drain_step :
      (env : SpoolEnv) (s : Spool) → IsSilent seq s → IsSilent seq (drain_step env s)
  unfolding drain_step drain_from look
  IsSilent-drain_step env s h =
      IsSilent-same s (drain_step env s) (ground (arith, h.storeless, h.rests))
        (ground (arith, h.storeless, h.rests)) (ground (arith, h.storeless, h.rests)) h

  IsSilent-run : (xs : List Step) (s : Spool) → IsSilent seq s → IsSilent seq (run xs s)
  unfolding run take_step
  IsSilent-run [] s h = h
  IsSilent-run (offer env evt ∷ xs) s h = IsSilent-run xs _ (IsSilent-buffer_event env evt s h)
  IsSilent-run (taken ∷ xs) s h = IsSilent-run xs _ (IsSilent-take_batch s h)
  IsSilent-run (land env n ∷ xs) s h = IsSilent-run xs _ (IsSilent-land_batch env n s h)
  IsSilent-run (purge env ∷ xs) s h = IsSilent-run xs (purge_expired env s) (
      unfold purge_expired in
      IsSilent-same s _ (ground (arith, h.storeless)) (ground (arith, h.storeless))
        (ground (arith, h.storeless)) h)
  IsSilent-run (limit_reset env ∷ xs) s h = IsSilent-run xs _ (
      IsSilent-same s _ (ground (arith, h.storeless)) (ground (arith, h.storeless))
        (ground (arith, h.storeless)) h)
  IsSilent-run (attach env ∷ xs) s h = IsSilent-run xs _ (IsSilent-same s _ refl refl refl h)
  IsSilent-run (drain env ∷ xs) s h = IsSilent-run xs _ (IsSilent-drain_step env s h)
  IsSilent-run (resend env ∷ xs) s h = IsSilent-run xs (resend_snapshots env s) (
      unfold resend_snapshots in
      if_elim (IsSilent seq) s.attached (λ _. IsSilent-resend_each env s.snapshots s h) (λ _. h))
  IsSilent-run (ack env q ∷ xs) s h = IsSilent-run xs (acked env q s) (
      unfold acked in
      IsSilent-same s _ (ground (arith, h.storeless)) (ground (arith, h.storeless))
        (ground (arith, h.storeless)) h)
  IsSilent-run (limited env after ∷ xs) s h =
      IsSilent-run xs (rate_limited env after s)
        (unfold rate_limited in IsSilent-same s _ refl refl refl h)
  IsSilent-run (rewound ∷ xs) s h =
      IsSilent-run xs (rewind s) (unfold rewind in IsSilent-same s _ refl refl refl h)
  IsSilent-run (detached ∷ xs) s h = IsSilent-run xs _ (IsSilent-same s _ refl refl refl h)
  IsSilent-run (discarded ∷ xs) s h =
      IsSilent-run xs _ (IsSilent-same s _ (sym h.storeless) refl refl h)
  IsSilent-run (closed ∷ xs) s h =
      IsSilent-run xs _ (IsSilent-same s _ (sym h.storeless) refl refl h)

-- If the database could not be opened, then no run of the spool's calls sends a queued event, on whatever
-- stream, whatever the budgets of the configuration.
pub memory_only_silent :
    (cfg : SpoolConfig) (xs : List Step) (seq : ℕ)
    → was_told seq (run xs (new_spool cfg none)).out ≡ false
memory_only_silent cfg xs seq =
    (IsSilent-run seq xs (new_spool cfg none)
      (record { storeless = refl; rests = refl; untold = unfold was_told in refl })).untold
