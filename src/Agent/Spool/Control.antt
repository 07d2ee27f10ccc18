-- ===== src/Agent/Spool/Control.antt =====
-- The rest of internal/agent/spool.go outside the drain: the start, the acknowledgements and refusals of the
-- server, the stream that comes and goes, the retention and the end.
use maintenant.Base.{
  ℕ, Option, ◌+◌, ◌-◌, ◌/◌, ◌^◌, Str_eq, true, false, ◌||◌, none, some, [], length, keep, leb, ◌==◌,
  if◌then◌else◌,
}
use maintenant.Agent.Spool.{
  second, SpoolConfig, resting, SpoolStore, Spool, delete_older, delete_up_to, reset, SpoolEnv,
}
use maintenant.Agent.Spool.Store.{delete_where, is_up_to, is_older_than}
use maintenant.Agent.Spool.Queue.{with_store}

unfoldable pub purge_expired : SpoolEnv → Spool → Spool
unfolding keep
purge_expired env s = elim s.store [
  | none ↦ s
  | some st ↦
      if s.cfg.max_age == 0 || env.fails delete_older
      then s
      else with_store (delete_where (is_older_than ((env.now - s.cfg.max_age) / second)) st) s
]

unfoldable pub acked : SpoolEnv → ℕ → Spool → Spool
unfolding keep
acked env seq s =
    let s' = record s { ack_seq = seq } in
    if leb (2 ^ 63) seq || leb seq s.ack_seq then s else elim s.store [
      | none ↦ s'
      | some st ↦
          if env.fails delete_up_to then s' else with_store (delete_where (is_up_to seq) st) s'
    ]

unfoldable pub rewind : Spool → Spool
rewind s = record s { send_seq = s.ack_seq; generation = s.generation + 1 }

unfoldable pub rate_limited : SpoolEnv → ℕ → Spool → Spool
rate_limited env retry_after s = record s {
  send_seq = s.ack_seq;
  generation = s.generation + 1;
  paused_until = env.now + (if retry_after == 0 then second else retry_after);
}

-- The part of Attach under the lock, and the whole.
abbrev pub attach_sink : SpoolEnv → Spool → Spool
attach_sink env s = record s { attached = true; attached_at = env.now; paused_until = 0 }

unfoldable pub attach : SpoolEnv → Spool → Spool
unfolding rewind
attach env s = rewind (attach_sink env s)

abbrev pub detach : Spool → Spool
detach s = record s { attached = false }

-- Discard where the files can be removed.
abbrev pub discard : Spool → Spool
discard s = record s { store = none; buf = []; buf_bytes = 0 }

abbrev pub reset_dropped : SpoolEnv → Spool → Spool
reset_dropped env s = elim s.store [
  | none ↦ record s { dropped = 0 }
  | some st ↦ record s {
    dropped = 0;
    store = some (if env.fails reset then st else record st { dropped_since_connect = 0 });
  }
]

-- NewSpool, with the database if it could be opened.
abbrev pub new_spool : SpoolConfig → Option SpoolStore → Spool
new_spool cfg opened = record {
  cfg = cfg;
  store = opened;
  buf = [];
  buf_bytes = 0;
  attached = false;
  snapshots = [];
  send_seq = 0;
  ack_seq = 0;
  generation = 0;
  attached_at = 0;
  dropped = 0;
  drop_logged = 0;
  last_drop_log = none;
  paused_until = 0;
  flights = [];
  drainer = resting;
  out = [];
}

-- What Close leaves after its flush.
abbrev pub close_store : Spool → Spool
close_store s = record s { store = none }

-- Depth, where the count of the rows succeeds.
abbrev pub depth : Spool → ℕ
depth s = length s.buf + (elim s.store [ none ↦ 0 | some st ↦ length st.rows ])
