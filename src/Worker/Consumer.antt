-- ===== src/Worker/Consumer.antt =====
-- services/worker/src/consumer.py: the loop that polls one partition of the topic, hands each
-- message to the handler, and commits its offset. A message's offset is its index in `log`.
pub mod Marks
pub mod Settling
pub mod Accounted
pub mod Progress
use Prim.Native.String.{String}
use text.Mathlib.Text.{◌==◌ as str_eq}
use workfront_system.Base.{
  ℕ, zero, suc, Option, some, none, List, [], ◌∷◌, ◌++◌, if◌then◌else◌, Error, Outcome, ok, err,
  key_error, attribute_error, value_error, stale_data_error, ◌>>=◌,
}
use workfront_system.Cascade.Types.{SetOrder}
use workfront_system.Store.Models.{ChangePayload}
use workfront_system.Store.Database.{Database}
use workfront_system.Store.Session.{session_scope}
use workfront_system.Json.{UuidText, blank, uuid, junk, Json, id_text, json_get}
use workfront_system.Worker.Handler.{process_schedule_changed, worker_group}

-- `value` is `none` if it is no JSON object.
pub record Message : Type 0 where
  pub key : ℕ
  pub headers : List (String × UuidText)
  pub value : Option (List (String × Json))

-- _header: the first header of that name
abbrev pub header : List (String × UuidText) → String → Option UuidText
header [] key = none
header ((k, v) ∷ rest) key = if str_eq k key then some v else header rest key

abbrev pub read_uuid : UuidText → Outcome ℕ
read_uuid (uuid n) = ok n
read_uuid _ = err value_error

-- `payload[key]`, which uuid.UUID takes as a text
abbrev pub field : Option Json → Outcome UuidText
field none = err key_error
field (some (id_text t)) = ok t
field (some _) = err attribute_error

-- `_header(msg, "id") or payload["event_id"]`
abbrev pub header_or : Option UuidText → Option Json → Outcome UuidText
header_or none default = field default
header_or (some blank) default = field default
header_or (some (uuid n)) default = ok (uuid n)
header_or (some junk) default = ok junk

unfoldable pub parse : Message → Outcome (ℕ × ℕ)
parse msg = elim msg.value [
  | none ↦ err value_error
  | some payload ↦ do
    event_text ← header_or (header msg.headers "id") (json_get payload "event_id")
    event_id ← read_uuid event_text
    task_text ← field (json_get payload "task_id")
    task_id ← read_uuid task_text
    ok (event_id, task_id)
]

-- What the worker and its surroundings hold: the committed rows, the offset of the next poll, the
-- offset that the broker keeps for the group, and the messages in the dead-letter topic.
pub record Consumer (State : Type 0) : Type 0 where
  pub database : State
  pub position : ℕ
  pub committed : ℕ
  pub dead_letters : List Message

-- A call of `consumer.commit`, which does not wait for the broker: the offset gets there, or does
-- not, or the call raises.
pub data OffsetCommit : Type 0 where
  arrives drops raises : OffsetCommit

-- `dlq.produce` and `dlq.flush`, without a delivery callback: the dead letter gets there, or does
-- not, or the call raises.
pub data DeadLetter : Type 0 where
  delivered undelivered refused : DeadLetter

-- What becomes of the calls of Kafka's client: the commit that follows the transaction, and the dead
-- letter and the commit that follows it.
pub record Calls : Type 0 where
  pub commit : OffsetCommit
  pub letter : DeadLetter
  pub last_commit : OffsetCommit

-- What a poll meets: what others commit before it and during its transaction, a fresh id,
-- the exception of its transaction's commit, if it raises, and the calls of Kafka's client.
pub record Around (State : Type 0) : Type 0 where
  pub before : State → State
  pub others : State → State
  pub new_id : ℕ
  pub commit_raises : Option Error
  pub calls : Calls

-- What can happen to the worker. It may die after its transaction, with the offset uncommitted, and
-- a new consumer of the group starts at the committed offset.
pub data Event (State : Type 0) : Type 0 where
  polls_nothing : Event State
  polls dies : Around State → Event State

abbrev pub fetch : List Message → ℕ → Option Message
fetch [] offset = none
fetch (msg ∷ log) zero = some msg
fetch (msg ∷ log) (suc offset) = fetch log offset

-- An exception has left `run`: a new consumer of the group starts at the committed offset.
abbrev pub restart : {State : Type 0} → Consumer State → Consumer State
restart c = record c { position = c.committed }

-- `consumer.commit(msg)`; `raised` is what follows where it raises.
abbrev pub commit_offset :
    {State : Type 0} → Consumer State → ℕ → OffsetCommit → Consumer State → Consumer State
commit_offset c offset arrives raised = record c { committed = suc offset }
commit_offset c offset drops raised = c
commit_offset c offset raises raised = raised

-- `except Exception`
abbrev pub dead_letter :
    {State : Type 0} → Consumer State → ℕ → Message → DeadLetter → OffsetCommit → Consumer State
dead_letter c offset msg refused last = restart c
dead_letter c offset msg undelivered last = commit_offset c offset last (restart c)
dead_letter c offset msg delivered last =
    let sent = record c { dead_letters = c.dead_letters ++ msg ∷ [] } in
    commit_offset sent offset last (restart sent)

-- The end of the try statement.
unfoldable pub settle :
    {State : Type 0}
    → Consumer State
    → ℕ
    → Message
    → Calls
    → Outcome (List ChangePayload)
    → Consumer State
settle c offset msg calls (ok changes) =
    commit_offset c offset calls.commit (dead_letter c offset msg calls.letter calls.last_commit)
settle c offset msg calls (err stale_data_error) = record c { position = offset }
settle c offset msg calls (err _) = dead_letter c offset msg calls.letter calls.last_commit

module _ (db : Database) (order : SetOrder) where
  open db use {State}

  -- The try statement, up to the commit of the transaction.
  unfoldable pub attempt : State → Around State → Message → State × Outcome (List ChangePayload)
  attempt s around msg = elim (parse msg) [
    | err e ↦ (s, err e)
    | ok (event_id, task_id) ↦ session_scope s around.others around.commit_raises (λ now.
        process_schedule_changed db order now around.others around.new_id event_id task_id
          worker_group)
  ]

  unfoldable pub handle : Consumer State → Around State → ℕ → Message → Consumer State
  handle c around offset msg =
      let (database, outcome) = attempt (around.before c.database) around msg in
      settle (record c { database = database; position = suc offset }) offset msg around.calls
        outcome

  unfoldable pub crash : Consumer State → Around State → Message → Consumer State
  crash c around msg = record c {
    database = (attempt (around.before c.database) around msg).0;
    position = c.committed;
  }

  unfoldable pub react : List Message → Consumer State → Event State → Consumer State
  react log c polls_nothing = c
  react log c (polls around) = elim (fetch log c.position) [
    | none ↦ c
    | some msg ↦ handle c around c.position msg
  ]
  react log c (dies around) = elim (fetch log c.position) [
    | none ↦ record c { position = c.committed }
    | some msg ↦ crash c around msg
  ]

  unfoldable pub run : List Message → Consumer State → List (Event State) → Consumer State
  run log c [] = c
  run log c (e ∷ events) = run log (react log c e) events
