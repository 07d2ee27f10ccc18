-- ===== src/Agent/Spool/Steps.antt =====
-- Runs of the spool: the calls of its threads in any order and with any failures. A flush is two steps, so that
-- the flushes of several threads may overlap and write in any order; a step of the drain is one point of drainOnce.
use maintenant.Base.{ℕ, List, [], ◌∷◌}
use maintenant.Agent.Spool.{AgentEvent, Spool, SpoolEnv}
use maintenant.Agent.Spool.Queue.{resend_snapshots, take_batch, land_batch, buffer_event}
use maintenant.Agent.Spool.Control.{
  purge_expired, acked, rewind, rate_limited, attach_sink, detach, discard, reset_dropped,
  close_store,
}
use maintenant.Agent.Spool.Drain.{drain_step}

pub data Step : Type 0 where
  offer : SpoolEnv → AgentEvent → Step
  taken : Step
  purge limit_reset attach drain resend : SpoolEnv → Step
  land ack limited : SpoolEnv → ℕ → Step
  rewound detached discarded closed : Step

unfoldable pub take_step : Step → Spool → Spool
unfolding resend_snapshots take_batch land_batch buffer_event purge_expired acked rewind
    rate_limited drain_step
take_step (offer env evt) s = (buffer_event env evt s).0
take_step taken s = take_batch s
take_step (land env n) s = (land_batch env n s).0
take_step (purge env) s = purge_expired env s
take_step (limit_reset env) s = reset_dropped env s
take_step (attach env) s = attach_sink env s
take_step (drain env) s = drain_step env s
take_step (resend env) s = resend_snapshots env s
take_step (ack env seq) s = acked env seq s
take_step (limited env after) s = rate_limited env after s
take_step rewound s = rewind s
take_step detached s = detach s
take_step discarded s = discard s
take_step closed s = close_store s

unfoldable pub run : List Step → Spool → Spool
unfolding take_step
run [] s = s
run (x ∷ xs) s = run xs (take_step x s)
