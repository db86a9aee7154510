-- ===== src/Ws/Fanout.antt =====
-- services/ws_fanout/src/main.py, the bridge from a partition of the topic to the Redis channels, and
-- `_redis_subscriber` of services/api/src/main.py, which pushes what a channel brings. An offset is an
-- index in the partition, which starts at `offset`.
use workfront_system.Base.{ℕ, suc, Bool, Option, some, none, List, [], ◌∷◌}
use workfront_system.Ws.Manager.{ConnectionManager, EventType, schedule_cascade, push_local}

-- A record of the topic: its key (the project, if there is one) and its decoded value.
pub record Record (D : Type 0) : Type 0 where
  pub key : Option ℕ
  pub value : D

-- What is published, on the channel of its project. No key makes the channel `project:None`.
pub record FanoutEvent (D : Type 0) : Type 0 where
  pub type : EventType
  pub project_id : Option ℕ
  pub seq : ℕ
  pub ts : ℕ
  pub payload : D

abbrev pub fanout_event : {D : Type 0} → ℕ → ℕ → Record D → FanoutEvent D
fanout_event offset now msg = record {
  type = schedule_cascade;
  project_id = msg.key;
  seq = offset;
  ts = now;
  payload = msg.value;
}

-- One run of the loop over the records from `offset` on, where the consumer starts, with the time at
-- each: what it publishes, in order. Its commits, and the runs that follow, are in `Relay`.
unfoldable pub publish_all : {D : Type 0} → ℕ → List (ℕ × Record D) → List (FanoutEvent D)
publish_all offset [] = []
publish_all offset ((now, msg) ∷ log) = fanout_event offset now msg ∷ publish_all (suc offset) log

-- A message of the channels in an api process: the manager afterwards, and the sockets it reached.
-- Nobody subscribes to the project `None`.
unfoldable pub push_published :
    {D : Type 0}
    → ConnectionManager
    → (ConnectionManager → ConnectionManager)
    → (ℕ → Bool)
    → FanoutEvent D
    → ConnectionManager × List ℕ
push_published m during sends event = elim event.project_id [
  | none ↦ (during m, [])
  | some p ↦ push_local m during sends p
]
