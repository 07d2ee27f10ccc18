-- ===== src/Agent/Spool/Frame.antt =====
-- What a run may do to the rows, the cursors and the stream: a property of these that their few changes keep
-- is kept by every run.
pub mod Calls
use maintenant.Base.{
  Str_eq, length, ◌-◌, ◌/◌, ◌^◌, ℕ, suc, ◌+◌, ◌≤◌, ◌<◌, ◌≡◌, subst, sym, refl, inl, inr, Bool, true,
  false, not, ◌&&◌, ◌||◌, Option, none, some, List, [], ◌∷◌, ◌++◌, arith, keep, ltb, leb, ◌==◌,
  if◌then◌else◌, if_elim, Str,
}
use maintenant.Base.Map.{Map, insert}
use maintenant.Agent.Spool.{
  second, append, size, delete_bytes, reclaim, add_dropped as record_dropped_call, delete_older,
  delete_up_to, reset, is_enabled, snapshot_of, send, AgentEvent, PendingEvent, Row, SpoolStore,
  Out, direct, Drainer, Spool, SpoolEnv,
}
use maintenant.Agent.Spool.Store.{
  row_of, append_events, delete_where, delete_oldest_bytes, is_up_to, is_older_than, add_dropped,
}
use maintenant.Agent.Spool.Queue.{
  emit, pass_through, send_snapshot, resend_each, resend_snapshots, take_batch, trim_memory_locked,
  enforce_disk_budget, within_budget, free_rows, record_dropped, write_batch, land_batch,
  buffer_event, Outcome, done, failed, over_memory, enqueue, pending, buffer_payload, buffer_kind,
  drop_log_every, freed, with_store,
}
use maintenant.Agent.Spool.Control.{purge_expired, acked, reset_dropped, rewind, rate_limited}
use maintenant.Agent.Spool.Drain.{drain_step}
use maintenant.Agent.Spool.Steps.{
  Step, offer, taken, land, purge, limit_reset, attach, drain, resend, ack, limited, rewound,
  detached, discarded, closed, take_step, run,
}

pub record Core : Type 0 where
  pub rows : List Row
  pub next : ℕ
  pub ack : ℕ
  pub send : ℕ
  pub gen : ℕ
  pub out : List Out

abbrev pub core : SpoolStore → Spool → Core
core st s = record {
  rows = st.rows;
  next = st.next;
  ack = s.ack_seq;
  send = s.send_seq;
  gen = s.generation;
  out = s.out;
}

-- A spool whose store is gone has no row that the property could be about.
abbrev pub Holds : (Drainer → Core → Type 0) → Spool → Type 0
Holds P s = elim s.store [ none ↦ Unit | some st ↦ P s.drainer (core st s) ]

pub Holds-none : (P : Drainer → Core → Type 0) (s : Spool) → s.store ≡ none → Holds P s
Holds-none P s e =
    subst
      (λ (o : Option SpoolStore). elim o [ none ↦ Unit {0} | some st ↦ P s.drainer (core st s) ])
      (sym e) tt

-- `Honest` is what an acknowledgement may say.
pub record IsStable (P : Drainer → Core → Type 0) (Honest : ℕ → List Out → Type 0) : Type 0 where
  pub deletes :
      (test : Row → Bool) (d : Drainer) (c : Core)
      → P d c
      → P d (record c { rows = keep (λ r. not (test r)) c.rows })
  pub appends :
      (ev : PendingEvent) (d : Drainer) (c : Core)
      → P d c
      → P d (record c { rows = c.rows ++ row_of c.next ev ∷ []; next = suc c.next })
  pub rewinds : (d : Drainer) (c : Core) → P d c → P d (record c { send = c.ack; gen = c.gen + 1 })
  pub tells :
      (evt : AgentEvent) (d : Drainer) (c : Core)
      → P d c
      → P d (record c { out = direct evt ∷ c.out })
  pub acks :
      (seq : ℕ) (d : Drainer) (c : Core)
      → c.ack < seq
      → Honest seq c.out
      → P d c
      → P d (record c { ack = seq })
  pub drains : (env : SpoolEnv) (s : Spool) → Holds P s → Holds P (drain_step env s)

-- What holds whichever store there is, and whichever buffer.
pub split_store :
    (Q : Spool → Type 0)
    → ((s : Spool) → Q (record s { store = none }))
    → ((st : SpoolStore) (s : Spool) → Q (record s { store = some st }))
    → (s : Spool) → Q s
split_store Q f g s = elim s.store as (λ (o : Option SpoolStore). Q (record s { store = o })) [
  | none ↦ f s
  | some st ↦ g st s
]

pub Holds-imp :
    (P Q : Drainer → Core → Type 0)
    → ((d : Drainer) (c : Core) → P d c → Q d c)
    → (s : Spool) → Holds P s
    → Holds Q s
Holds-imp P Q f =
    split_store (λ s. Holds P s → Holds Q s) (λ s h. tt) (λ st s h. f s.drainer (core st s) h)

pub split_buf :
    (Q : Spool → Type 0)
    → ((s : Spool) → Q (record s { buf = [] }))
    → ((ev : PendingEvent) (evs : List PendingEvent) (s : Spool) → Q (record s { buf = ev ∷ evs }))
    → (s : Spool) → Q s
split_buf Q f g s = elim s.buf as (λ (b : List PendingEvent). Q (record s { buf = b })) [
  | [] ↦ f s
  | ev ∷ evs ↦ g ev evs s
]
