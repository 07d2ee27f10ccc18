-- ===== src/Agent/Spool/Ledger.antt =====
-- Invariants of the drain: a claim on the rows and the cursors, and one on each cursor that a drain has read,
-- are kept by every step of the drain where they pass from a cursor to the next row of a batch.
pub mod Drains
use maintenant.Base.{
  ◌∙◌, ℕ, suc, ◌+◌, ◌<◌, ◌≡◌, ◌⊎◌, inl, inr, refl, sym, Bool, true, false, not, ◌||◌, Option, none,
  some, List, [], ◌∷◌, ◌++◌, arith, keep, ltb, ◌==◌, ==_iff, if_elim, if◌then◌else◌, ◌&&◌, subst,
}
use maintenant.Agent.Spool.{
  AgentEvent, PendingEvent, Row, SpoolStore, Out, spooled, unreadable, direct, Drainer, resting,
  looked, holding, checked, sent, Spool, SpoolEnv, read, send, context,
}
use maintenant.Agent.Spool.Store.{row_of, read_from}
use maintenant.Agent.Spool.Drain.{
  drain_batch, at, look, hold, read_batch, advance, check_event, examine_row, stamped, send_row,
  drain_from, drain_step,
}
use maintenant.Agent.Spool.Rows.{
  Rising, Rising-keep, Rising-append, Covers, Covers-keep, Covers-append, Covers-read_from,
}
use maintenant.Agent.Spool.Frame.{Core, core, Holds, IsStable, split_store, Holds-none}

-- The row was sent, or was found unreadable, by a drain of this generation.
unfoldable pub was_sent : ℕ → ℕ → List Out → Bool
was_sent gen seq [] = false
was_sent gen seq (spooled g q evt ∷ out) = (g == gen && q == seq) || was_sent gen seq out
was_sent gen seq (unreadable g q ∷ out) = (g == gen && q == seq) || was_sent gen seq out
was_sent gen seq (direct evt ∷ out) = was_sent gen seq out

pub was_sent-cons :
    (o : Out) (gen seq : ℕ) (out : List Out)
    → was_sent gen seq out ≡ true
    → was_sent gen seq (o ∷ out) ≡ true
unfolding was_sent
was_sent-cons (spooled g q evt) gen seq out h = ground arith
was_sent-cons (unreadable g q) gen seq out h = ground arith
was_sent-cons (direct evt) gen seq out h = h

pub was_sent-unreadable :
    (gen seq : ℕ) (out : List Out) → was_sent gen seq (unreadable gen seq ∷ out) ≡ true
unfolding was_sent
was_sent-unreadable gen seq out = ground arith

pub was_sent-spooled :
    (gen seq : ℕ) (evt : AgentEvent) (out : List Out)
    → was_sent gen seq (spooled gen seq evt ∷ out) ≡ true
unfolding was_sent
was_sent-spooled gen seq evt out = ground arith

abbrev pub deleted : (Row → Bool) → Core → Core
deleted test c = record c { rows = keep (λ r. not (test r)) c.rows }

abbrev pub appended : PendingEvent → Core → Core
appended ev c = record c { rows = c.rows ++ row_of c.next ev ∷ []; next = suc c.next }

abbrev pub rewound : Core → Core
rewound c = record c { send = c.ack; gen = c.gen + 1 }

abbrev pub told : Out → Core → Core
told o c = record c { out = o ∷ c.out }

-- `Claim` is about the rows and the cursors, `Read` about a cursor that was read in a generation.
pub record IsLedger (Claim : Core → Type 0) (Read : ℕ → ℕ → Core → Type 0)
    (Honest : ℕ → List Out → Type 0) : Type 0 where
  pub deletes :
      (test : Row → Bool) (c : Core)
      → (Claim c → Claim (deleted test c))
        × ((gen after : ℕ) → Read gen after c → Read gen after (deleted test c))
  pub appends :
      (ev : PendingEvent) (c : Core)
      → (Claim c → Claim (appended ev c))
        × ((gen after : ℕ) → Read gen after c → Read gen after (appended ev c))
  pub rewinds :
      (c : Core)
      → (Claim c → Claim (rewound c))
        × ((gen after : ℕ) → Read gen after c → Read gen after (rewound c))
  pub tells_direct : (evt : AgentEvent) (c : Core) → Claim c → Claim (told (direct evt) c)
  -- A row is told of only as the first of a batch.
  pub tells_row :
      (o : Out) (gen after : ℕ) (r : Row) (rest : List Row) (c : Core)
      → (o ≡ unreadable gen r.seq) ⊎ ((evt : AgentEvent) × (o ≡ spooled gen r.seq evt))
      → Read gen after c
      → Covers after c.next (r ∷ rest) c.rows
      → Claim c
      → Claim (told o c)
  pub tells_read :
      (o : Out) (gen after : ℕ) (c : Core) → Read gen after c → Read gen after (told o c)
  pub acks :
      (seq : ℕ) (c : Core)
      → c.ack < seq
      → Honest seq c.out
      → Claim c
      → Claim (record c { ack = seq })
  pub acks_read :
      (seq gen after : ℕ) (c : Core)
      → c.ack < seq
      → Read gen after c
      → Read gen after (record c { ack = seq })
  pub looks : (c : Core) → Claim c → Read c.gen c.send c
  pub advances :
      (gen after : ℕ) (r : Row) (rest : List Row) (c : Core)
      → gen ≡ c.gen
      → Read gen after c
      → was_sent gen r.seq c.out ≡ true
      → Covers after c.next (r ∷ rest) c.rows
      → Claim c
      → Claim (record c { send = r.seq }) × Read gen r.seq (record c { send = r.seq })
