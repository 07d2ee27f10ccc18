-- ===== src/Agent/Spool.antt =====
-- The spool of an agent: the records of internal/agent/spool.go and the events of internal/agentpb that it
-- carries. Instants are nanoseconds.
pub mod Store
pub mod Queue
pub mod Control
pub mod Drain
pub mod Rows
pub mod Steps
pub mod Frame
pub mod Ledger
pub mod Current
pub mod Acks
pub mod Memory
pub mod Flush
use maintenant.Base.{
  ℕ, ◌*◌, Bool, true, false, ◌||◌, Option, none, some, List, [], ◌∷◌, Str, lit, is_empty, str_eq,
  ltb, if◌then◌else◌,
}
use maintenant.Base.Map.{Map}

abbrev pub second : ℕ
second = 1000000000

-- A budget of zero is none.
pub record SpoolConfig : Type 0 where
  pub max_memory_bytes : ℕ
  pub max_disk_bytes : ℕ
  pub max_age : ℕ

abbrev pub is_enabled : SpoolConfig → Bool
is_enabled c = ltb 0 c.max_memory_bytes || ltb 0 c.max_disk_bytes

-- A resource sample has the id of its container.
pub data Body : Type 0 where
  container endpoint heartbeat certificate swarm kubernetes inventory host_os runtime unset : Body
  resource : Str → Body

pub record AgentEvent : Type 0 where
  pub agent_id : Str
  pub event_id : Str
  pub observed_at : Option ℕ
  pub body : Body
  pub replayed : Bool
  pub seq : ℕ

-- A kind is its string in the source.
abbrev pub snapshot_of : AgentEvent → Option Str
snapshot_of evt = elim evt.body [
  | container ↦ none
  | endpoint ↦ none
  | heartbeat ↦ none
  | certificate ↦ some (lit "certificate")
  | swarm ↦ some (lit "swarm")
  | kubernetes ↦ some (lit "kubernetes")
  | inventory ↦ some (lit "inventory")
  | host_os ↦ some (lit "host_os")
  | unset ↦ none
  | runtime ↦ some (lit "runtime")
  | resource id ↦ if is_empty id then some (lit "host") else none
]

pub record PendingEvent : Type 0 where
  pub event_id : Str
  pub observed_at : ℕ
  pub payload : List ℕ

-- A row of spool_events.
pub record Row : Type 0 where
  pub seq : ℕ
  pub event_id : Str
  pub observed_at : ℕ
  pub payload : List ℕ
  pub size_bytes : ℕ

-- The rows in the order of their sequence; `next` is the sequence that AUTOINCREMENT gives next.
pub record SpoolStore : Type 0 where
  pub rows : List Row
  pub next : ℕ
  pub dropped_since_connect : ℕ

-- What a stream is sent, or a row that cannot be read. A row carries the generation that the drain had read.
pub data Out : Type 0 where
  spooled : ℕ → ℕ → AgentEvent → Out
  unreadable : ℕ → ℕ → Out
  direct : AgentEvent → Out

-- Where the drain of a batch stands: it has read the cursor, it holds the rows that are left, it has found the
-- first of them readable in its generation, or it has sent one and not yet moved the cursor. Each state has
-- the generation and the time of attachment that were read; the cursor that was read last is kept too.
pub data Drainer : Type 0 where
  resting : Drainer
  looked : ℕ → ℕ → ℕ → Drainer
  holding : ℕ → ℕ → ℕ → List Row → Drainer
  checked : ℕ → ℕ → ℕ → Row → AgentEvent → List Row → Drainer
  sent : ℕ → ℕ → ℕ → Row → List Row → Drainer

-- `out` has the newest first; `flights` has the batches that a flush has taken and not yet written.
pub record Spool : Type 0 where
  pub cfg : SpoolConfig
  pub store : Option SpoolStore
  pub buf : List PendingEvent
  pub buf_bytes : ℕ
  pub attached : Bool
  pub snapshots : Map Str AgentEvent
  pub send_seq : ℕ
  pub ack_seq : ℕ
  pub generation : ℕ
  pub attached_at : ℕ
  pub dropped : ℕ
  pub drop_logged : ℕ
  pub last_drop_log : Option ℕ
  pub paused_until : ℕ
  pub flights : List (List PendingEvent)
  pub drainer : Drainer
  pub out : List Out

-- The calls of SQLite and of the stream that may fail, the context that may have ended, and the wait of the
-- limiter.
pub data Call : Type 0 where
  append size delete_bytes reclaim add_dropped delete_older delete_up_to read send reset context
        wait :
      Call

-- What a call of the spool meets: the clock, the calls that fail, the size of the database, and the encoding.
pub record SpoolEnv : Type 0 where
  pub now : ℕ
  pub fails : Call → Bool
  pub size_bytes : ℕ
  pub marshal : AgentEvent → Option (List ℕ)
  pub unmarshal : List ℕ → Option AgentEvent
