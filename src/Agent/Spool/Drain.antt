-- ===== src/Agent/Spool/Drain.antt =====
-- drainOnce of internal/agent/spool.go, one point between two locks or calls at a time.
use maintenant.Base.{
  ℕ, Bool, Option, false, not, ◌||◌, none, some, List, [], ◌∷◌, ltb, ◌==◌, if◌then◌else◌,
}
use maintenant.Agent.Spool.{
  AgentEvent, Row, spooled, unreadable, Drainer, resting, looked, holding, checked, sent, Spool,
  read, send, context, wait, SpoolEnv,
}
use maintenant.Agent.Spool.Store.{read_from}

abbrev pub drain_batch : ℕ
drain_batch = 200

abbrev pub at : Drainer → Spool → Spool
at d s = record s { drainer = d }

-- The top of the loop; a drain that is over rests.
unfoldable pub look : SpoolEnv → Spool → Spool
look env s = elim s.store [
  | none ↦ at resting s
  | some st ↦
      if not s.attached || ltb env.now s.paused_until
      then at resting s
      else at (looked s.generation s.attached_at s.send_seq) s
]

abbrev pub hold : ℕ → ℕ → ℕ → List Row → Spool → Spool
hold gen after attached_at [] s = at resting s
hold gen after attached_at (r ∷ rs) s = at (holding gen attached_at after (r ∷ rs)) s

unfoldable pub read_batch : SpoolEnv → ℕ → ℕ → ℕ → Spool → Spool
unfolding read_from
read_batch env gen after attached_at s = elim s.store [
  | none ↦ at resting s
  | some st ↦
      if env.fails read
      then at resting s
      else hold gen after attached_at (read_from after drain_batch st) s
]

-- After advance: the rest of the batch, or the top of the loop.
unfoldable pub advance : ℕ → ℕ → ℕ → List Row → Spool → Spool
advance gen attached_at seq rest s =
    if s.generation == gen
    then at (holding gen attached_at seq rest) (record s { send_seq = seq })
    else at resting s

unfoldable pub check_event :
    SpoolEnv → ℕ → ℕ → ℕ → Row → List Row → Option AgentEvent → Spool → Spool
unfolding advance
check_event env gen attached_at after r rest none s =
    advance gen attached_at r.seq rest (record s { out = unreadable gen r.seq ∷ s.out })
check_event env gen attached_at after r rest (some evt) s =
    if env.fails wait
    then at resting s
    else if s.generation == gen
    then at (checked gen attached_at after r evt rest) s
    else at resting s

unfoldable pub examine_row : SpoolEnv → ℕ → ℕ → ℕ → Row → List Row → Spool → Spool
unfolding check_event
examine_row env gen attached_at after r rest s =
    if env.fails context
    then at resting s
    else check_event env gen attached_at after r rest (env.unmarshal r.payload) s

abbrev pub is_replayed : ℕ → AgentEvent → Bool
is_replayed attached_at evt = elim evt.observed_at [ none ↦ false | some t ↦ ltb t attached_at ]

abbrev pub stamped : ℕ → ℕ → AgentEvent → AgentEvent
stamped attached_at seq evt = record evt { replayed = is_replayed attached_at evt; seq = seq }

unfoldable pub send_row : SpoolEnv → ℕ → ℕ → ℕ → Row → AgentEvent → List Row → Spool → Spool
send_row env gen attached_at after r evt rest s =
    if env.fails send
    then at resting s
    else at (sent gen attached_at after r rest)
        (record s { out = spooled gen r.seq (stamped attached_at r.seq evt) ∷ s.out })

unfoldable pub drain_from : SpoolEnv → Drainer → Spool → Spool
unfolding look read_batch advance examine_row send_row
drain_from env resting s = look env s
drain_from env (looked gen attached_at after) s = read_batch env gen after attached_at s
drain_from env (holding gen attached_at after []) s = look env s
drain_from env (holding gen attached_at after (r ∷ rest)) s =
    examine_row env gen attached_at after r rest s
drain_from env (checked gen attached_at after r evt rest) s =
    send_row env gen attached_at after r evt rest s
drain_from env (sent gen attached_at after r rest) s = advance gen attached_at r.seq rest s

-- The next point of the drain from where it stands.
unfoldable pub drain_step : SpoolEnv → Spool → Spool
unfolding drain_from
drain_step env s = drain_from env s.drainer s
