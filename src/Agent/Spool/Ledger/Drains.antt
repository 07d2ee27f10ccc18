-- ===== src/Agent/Spool/Ledger/Drains.antt =====
-- The steps of the drain keep the claims of a ledger.
use maintenant.Base.{
  ◌∙◌, ℕ, ◌<◌, ◌≡◌, inl, inr, refl, sym, Bool, true, not, ◌||◌, Option, none, some, List, [], ◌∷◌,
  arith, ltb, ◌==◌, ==_iff, if_elim,
}
use maintenant.Agent.Spool.{
  AgentEvent, PendingEvent, Row, SpoolStore, Out, spooled, unreadable, direct, Drainer, resting,
  looked, holding, checked, sent, Spool, SpoolEnv, read, send, context, wait,
}
use maintenant.Agent.Spool.Store.{read_from}
use maintenant.Agent.Spool.Drain.{
  drain_batch, look, hold, read_batch, advance, check_event, examine_row, stamped, send_row,
  drain_from, drain_step,
}
use maintenant.Agent.Spool.Rows.{
  Rising, Rising-keep, Rising-append, Covers, Covers-keep, Covers-append, Covers-read_from,
}
use maintenant.Agent.Spool.Frame.{Core, core, Holds, IsStable, split_store, Holds-none}
use maintenant.Agent.Spool.Ledger.{
  was_sent, was_sent-cons, was_sent-unreadable, was_sent-spooled, deleted, appended, rewound, told,
  IsLedger,
}

store-advance :
    (gen attached seq : ℕ) (rest : List Row) (s : Spool)
    → (advance gen attached seq rest s).store ≡ s.store
unfolding advance
store-advance gen attached seq rest s = ground arith

store-check_event :
    (env : SpoolEnv) (gen attached after : ℕ) (r : Row) (rest : List Row) (evt : Option AgentEvent)
    (s : Spool)
    → (check_event env gen attached after r rest evt s).store ≡ s.store
unfolding check_event
store-check_event env gen attached after r rest none s =
    store-advance gen attached r.seq rest (record s { out = unreadable gen r.seq ∷ s.out })
store-check_event env gen attached after r rest (some evt) s = ground arith

store-drain_from :
    (env : SpoolEnv) (d : Drainer) (s : Spool) → s.store ≡ none → (drain_from env d s).store ≡ none
unfolding drain_from look read_batch examine_row send_row
store-drain_from env resting s e = ground arith
store-drain_from env (looked gen attached after) s e = ground arith
store-drain_from env (holding gen attached after []) s e = ground arith
store-drain_from env (holding gen attached after (r ∷ rest)) s e =
    if_elim (λ (t : Spool). t.store ≡ none) (env.fails context) (λ _. e)
      (λ _. store-check_event env gen attached after r rest (env.unmarshal r.payload) s ∙ e)
store-drain_from env (checked gen attached after r evt rest) s e = ground arith
store-drain_from env (sent gen attached after r rest) s e =
    store-advance gen attached r.seq rest s ∙ e

store-drain_step : (env : SpoolEnv) (s : Spool) → s.store ≡ none → (drain_step env s).store ≡ none
unfolding drain_step
store-drain_step env s e = store-drain_from env s.drainer s e

module _ (Claim : Core → Type 0) (Read : ℕ → ℕ → Core → Type 0) (Honest : ℕ → List Out → Type 0)
    (k : IsLedger Claim Read Honest) where
  -- A batch covers the rows after its cursor, and a row that was sent is told of.
  abbrev IsPlaced : Drainer → Core → Type 0
  IsPlaced resting c = Unit
  IsPlaced (looked gen attached after) c = Read gen after c
  IsPlaced (holding gen attached after batch) c =
      Read gen after c × Covers after c.next batch c.rows
  IsPlaced (checked gen attached after r evt rest) c =
      Read gen after c × Covers after c.next (r ∷ rest) c.rows
  IsPlaced (sent gen attached after r rest) c =
      Read gen after c × Covers after c.next (r ∷ rest) c.rows × (was_sent gen r.seq c.out ≡ true)

  abbrev pub IsKept : Drainer → Core → Type 0
  IsKept d c = Rising 1 c.next c.rows × Claim c × IsPlaced d c

  IsPlaced-imp :
      (d : Drainer) (c c' : Core)
      → ((gen after : ℕ) → Read gen after c → Read gen after c')
      → ((after : ℕ) (batch : List Row)
          → Covers after c.next batch c.rows
          → Covers after c'.next batch c'.rows)
      → ((gen seq : ℕ) → was_sent gen seq c.out ≡ true → was_sent gen seq c'.out ≡ true)
      → IsPlaced d c
      → IsPlaced d c'
  IsPlaced-imp resting c c' f g m h = tt
  IsPlaced-imp (looked gen attached after) c c' f g m h = f gen after h
  IsPlaced-imp (holding gen attached after batch) c c' f g m h =
      (f gen after h.0, g after batch h.1)
  IsPlaced-imp (checked gen attached after r evt rest) c c' f g m h =
      (f gen after h.0, g after (r ∷ rest) h.1)
  IsPlaced-imp (sent gen attached after r rest) c c' f g m h =
      (f gen after h.0, g after (r ∷ rest) h.1, m gen r.seq h.2)

  IsKept-deletes :
      (test : Row → Bool) (d : Drainer) (c : Core) → IsKept d c → IsKept d (deleted test c)
  IsKept-deletes test d c h = (
    Rising-keep _ 1 c.next c.rows h.0,
    (k.deletes test c).0 h.1,
    IsPlaced-imp d c (deleted test c) (k.deletes test c).1
        (λ after batch. Covers-keep (λ r. not (test r)) after c.next batch c.rows) (λ gen seq w. w)
        h.2,
  )

  IsKept-appends :
      (ev : PendingEvent) (d : Drainer) (c : Core) → IsKept d c → IsKept d (appended ev c)
  IsKept-appends ev d c h = (
    Rising-append 1 c.next ev c.rows h.0,
    (k.appends ev c).0 h.1,
    IsPlaced-imp d c (appended ev c) (k.appends ev c).1
        (λ after batch. Covers-append after c.next ev batch c.rows) (λ gen seq w. w) h.2,
  )

  IsKept-rewinds : (d : Drainer) (c : Core) → IsKept d c → IsKept d (rewound c)
  IsKept-rewinds d c h = (
    h.0,
    (k.rewinds c).0 h.1,
    IsPlaced-imp d c (rewound c) (k.rewinds c).1 (λ after batch w. w) (λ gen seq w. w) h.2,
  )

  IsKept-tells :
      (evt : AgentEvent) (d : Drainer) (c : Core) → IsKept d c → IsKept d (told (direct evt) c)
  IsKept-tells evt d c h = (
    h.0,
    k.tells_direct evt c h.1,
    IsPlaced-imp d c (told (direct evt) c) (λ gen after. k.tells_read (direct evt) gen after c)
        (λ after batch w. w) (λ gen seq. was_sent-cons (direct evt) gen seq c.out) h.2,
  )

  IsKept-acks :
      (seq : ℕ) (d : Drainer) (c : Core)
      → c.ack < seq
      → Honest seq c.out
      → IsKept d c
      → IsKept d (record c { ack = seq })
  IsKept-acks seq d c lt o h = (
    h.0,
    k.acks seq c lt o h.1,
    IsPlaced-imp d c (record c { ack = seq }) (λ gen after. k.acks_read seq gen after c lt)
        (λ after batch w. w) (λ gen q w. w) h.2,
  )

  -- The drain at a place of its loop, on a store that is there.
  abbrev KeptAt : SpoolStore → Spool → Drainer → Type 0
  KeptAt st s d = IsKept d (core st s)

  IsKept-look :
      (env : SpoolEnv) (st : SpoolStore) (s : Spool)
      → KeptAt st s resting
      → Holds IsKept (look env (record s { store = some st }))
  unfolding look
  IsKept-look env st s h =
      if_elim (Holds IsKept) (not s.attached || ltb env.now s.paused_until) (λ _. h)
        (λ _. (h.0, h.1, k.looks (core st s) h.1))

  IsKept-hold :
      (gen after attached : ℕ) (batch : List Row) (st : SpoolStore) (s : Spool)
      → KeptAt st s (holding gen attached after batch)
      → Holds IsKept (hold gen after attached batch (record s { store = some st }))
  IsKept-hold gen after attached [] st s h = (h.0, h.1, tt)
  IsKept-hold gen after attached (r ∷ rs) st s h = h

  IsKept-read_batch :
      (env : SpoolEnv) (gen after attached : ℕ) (st : SpoolStore) (s : Spool)
      → KeptAt st s (looked gen attached after)
      → Holds IsKept (read_batch env gen after attached (record s { store = some st }))
  unfolding read_batch
  IsKept-read_batch env gen after attached st s h =
      if_elim (Holds IsKept) (env.fails read) (λ _. (h.0, h.1, tt))
        λ _.
          IsKept-hold gen after attached (read_from after drain_batch st) st s
            (h.0, h.1, (h.2, Covers-read_from drain_batch after st h.0))

  IsKept-advance :
      (gen attached after : ℕ) (r : Row) (rest : List Row) (st : SpoolStore) (s : Spool)
      → KeptAt st s (sent gen attached after r rest)
      → Holds IsKept (advance gen attached r.seq rest (record s { store = some st }))
  unfolding advance
  IsKept-advance gen attached after r rest st s h =
      if_elim (Holds IsKept) (s.generation == gen)
        (λ e.
          let (read_it, cover, was) = h.2 in
          let step =
            k.advances gen after r rest (core st s) (sym ((==_iff s.generation gen).0 e)) read_it
              was cover h.1 in
          (h.0, step.0, (step.1, cover.3)))
        (λ _. (h.0, h.1, tt))

  IsKept-check_event :
      (env : SpoolEnv) (gen attached after : ℕ) (r : Row) (rest : List Row)
      (evt : Option AgentEvent) (st : SpoolStore) (s : Spool)
      → KeptAt st s (holding gen attached after (r ∷ rest))
      → Holds IsKept (check_event env gen attached after r rest evt (record s { store = some st }))
  unfolding check_event
  IsKept-check_event env gen attached after r rest none st s h =
      let o = unreadable gen r.seq in
      IsKept-advance gen attached after r rest st (record s { out = o ∷ s.out })
        (
          h.0,
          k.tells_row o gen after r rest (core st s) (inl refl) h.2.0 h.2.1 h.1,
          (k.tells_read o gen after (core st s) h.2.0, h.2.1, was_sent-unreadable gen r.seq s.out),
        )
  IsKept-check_event env gen attached after r rest (some evt) st s h =
      if_elim (Holds IsKept) (env.fails wait) (λ _. (h.0, h.1, tt))
        λ _. if_elim (Holds IsKept) (s.generation == gen) (λ _. h) (λ _. (h.0, h.1, tt))

  IsKept-send_row :
      (env : SpoolEnv) (gen attached after : ℕ) (r : Row) (evt : AgentEvent) (rest : List Row)
      (st : SpoolStore) (s : Spool)
      → KeptAt st s (checked gen attached after r evt rest)
      → Holds IsKept (send_row env gen attached after r evt rest (record s { store = some st }))
  unfolding send_row
  IsKept-send_row env gen attached after r evt rest st s h =
      let evt' = stamped attached r.seq evt in
      let o = spooled gen r.seq evt' in
      if_elim (Holds IsKept) (env.fails send) (λ _. (h.0, h.1, tt))
        λ _. (
          h.0,
          k.tells_row o gen after r rest (core st s) (inr (evt', refl)) h.2.0 h.2.1 h.1,
          (
            k.tells_read o gen after (core st s) h.2.0,
            h.2.1,
            was_sent-spooled gen r.seq evt' s.out,
          ),
        )

  IsKept-drain_from :
      (env : SpoolEnv) (d : Drainer) (st : SpoolStore) (s : Spool)
      → KeptAt st s d
      → Holds IsKept (drain_from env d (record s { store = some st }))
  unfolding drain_from examine_row
  IsKept-drain_from env resting st s h = IsKept-look env st s h
  IsKept-drain_from env (looked gen attached after) st s h =
      IsKept-read_batch env gen after attached st s h
  IsKept-drain_from env (holding gen attached after []) st s h = IsKept-look env st s (h.0, h.1, tt)
  IsKept-drain_from env (holding gen attached after (r ∷ rest)) st s h =
      if_elim (Holds IsKept) (env.fails context) (λ _. (h.0, h.1, tt))
        λ _. IsKept-check_event env gen attached after r rest (env.unmarshal r.payload) st s h
  IsKept-drain_from env (checked gen attached after r evt rest) st s h =
      IsKept-send_row env gen attached after r evt rest st s h
  IsKept-drain_from env (sent gen attached after r rest) st s h =
      IsKept-advance gen attached after r rest st s h

  IsKept-drains : (env : SpoolEnv) (s : Spool) → Holds IsKept s → Holds IsKept (drain_step env s)
  unfolding drain_step
  IsKept-drains env =
      split_store (λ s. Holds IsKept s → Holds IsKept (drain_step env s))
        (λ s h.
          Holds-none IsKept (drain_step env (record s { store = none }))
            (store-drain_step env (record s { store = none }) refl))
        (λ st s h. IsKept-drain_from env s.drainer st s h)

  pub IsKept-IsStable : IsStable IsKept Honest
  IsKept-IsStable = record {
    deletes = IsKept-deletes;
    appends = IsKept-appends;
    rewinds = IsKept-rewinds;
    tells = IsKept-tells;
    acks = IsKept-acks;
    drains = IsKept-drains;
  }
