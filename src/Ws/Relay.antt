-- ===== src/Ws/Relay.antt =====
-- The loop of services/ws_fanout/src/main.py with its commits and its restarts: it polls one
-- partition, publishes an event for each record, and commits the record's offset. An offset is an index
-- in the partition.
pub mod Published
use workfront_system.Base.{ℕ, suc, Option, some, none, List, [], ◌∷◌, ◌++◌, get_elem?}
use workfront_system.Worker.Consumer.{OffsetCommit, arrives, drops, raises}
use workfront_system.Ws.Fanout.{Record, FanoutEvent, fanout_event}

-- The offset of the next poll, the offset that the broker keeps for the group, and what was published.
pub record Bridge (D : Type 0) : Type 0 where
  pub position : ℕ
  pub committed : ℕ
  pub published : List (FanoutEvent D)

-- `r.publish` returns or raises.
pub data Publish : Type 0 where
  returns fails : Publish

-- What happens to the bridge: a poll that gives no record, or an error, which is logged; a poll that
-- gives a record if there is one, with the time, and what becomes of its publish and its commit; and
-- the end of the process.
pub data Event : Type 0 where
  polls_nothing : Event
  polls : (now : ℕ) → Publish → OffsetCommit → Event
  dies : Event

-- The process has ended, and a new one starts at the committed offset.
abbrev pub reopen : {D : Type 0} → Bridge D → Bridge D
reopen b = record b { position = b.committed }

abbrev pub commit_record : {D : Type 0} → Bridge D → ℕ → OffsetCommit → Bridge D
commit_record b offset arrives = record b { committed = suc offset }
commit_record b offset drops = b
commit_record b offset raises = reopen b

abbrev pub publish_record : {D : Type 0} → Bridge D → ℕ → FanoutEvent D → Publish → Bridge D
publish_record b offset event returns = record b {
  published = b.published ++ event ∷ [];
  position = suc offset;
}
publish_record b offset event fails = reopen b

-- A record; its value is `none` if it is no JSON, and then json.loads raises.
unfoldable pub relay :
    {D : Type 0} → Bridge D → ℕ → ℕ → Publish → OffsetCommit → Record (Option D) → Bridge D
relay b offset now publish commit msg = elim msg.value [
  | none ↦ reopen b
  | some payload ↦
      let event = fanout_event offset now (record { key = msg.key; value = payload }) in
      let sent = publish_record b offset event publish in
      elim publish [ returns ↦ commit_record sent offset commit | fails ↦ sent ]
]

unfoldable pub respond : {D : Type 0} → List (Record (Option D)) → Bridge D → Event → Bridge D
respond log b polls_nothing = b
respond log b dies = reopen b
respond log b (polls now publish commit) = elim (get_elem? log b.position) [
  | none ↦ b
  | some msg ↦ relay b b.position now publish commit msg
]

unfoldable pub relay_all :
    {D : Type 0} → List (Record (Option D)) → Bridge D → List Event → Bridge D
relay_all log b [] = b
relay_all log b (e ∷ events) = relay_all log (respond log b e) events
