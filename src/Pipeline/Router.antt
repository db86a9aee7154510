-- ===== src/Pipeline/Router.antt =====
-- Debezium, which turns the rows of the outbox into the messages of the topics, as
-- debezium/register-outbox.json configures it. It is not in the repository: an interface with the
-- documented behaviour of its outbox event router as laws.
use Prim.Native.String.{String}
use workfront_system.Base.{ℕ, ◌≡◌, some, List, [], ◌∷◌, Memᴰ, get_elem?}
use workfront_system.Store.Models.{OutboxEvent, Payload, schedule_changed}
use workfront_system.Telemetry.{Carrier}
use workfront_system.Ws.Fanout.{Record}
use workfront_system.Worker.Consumer.{Message, header, fetch}
use workfront_system.Json.{Json, id_text, time, number, carrier, uuid}

-- The payload of a move, as the handler of services/api/src/main.py writes it into the row.
abbrev pub schedule_json : ℕ → ℕ → ℕ → ℕ → Carrier → List (String × Json)
schedule_json task_id planned_start planned_completion version trace =
    ("task_id", id_text (uuid task_id))
    ∷ ("planned_start", time planned_start)
    ∷ ("planned_completion", time planned_completion)
    ∷ ("version", number version)
    ∷ ("_trace", carrier trace)
    ∷ []

-- The message of a row: `table.field.event.id` puts the id into the header "id", and
-- `expand.json.payload` makes the payload, a JSON object, the value.
pub record IsRouted (o : OutboxEvent) (msg : Message) : Type 0 where
  pub named : header msg.headers "id" ≡ some (uuid o.id)
  pub value :
      (task_id planned_start planned_completion version : ℕ) (trace : Carrier)
      → o.payload ≡ schedule_changed task_id planned_start planned_completion version trace
      → msg.value ≡ some (schedule_json task_id planned_start planned_completion version trace)

-- The record of a row, as the bridge reads it: `table.field.event.key` makes the partition key the key.
pub record IsRecord (o : OutboxEvent) (msg : Record Payload) : Type 0 where
  pub keyed : msg.key ≡ some o.partition_key
  pub carries : msg.value ≡ o.payload

pub record Router : Type 0 where
  -- The messages of a topic, when the outbox has these rows, as the worker reads them and as the
  -- bridge does.
  pub topic : List OutboxEvent → String → List Message
  pub records : List OutboxEvent → String → List (Record Payload)
  -- `route.by.field`: each row reaches the topic that its event_type names.
  pub routes :
      (rows : List OutboxEvent) (o : OutboxEvent)
      → Memᴰ o rows
      → (i : ℕ) × (msg : Message) × (fetch (topic rows o.event_type) i ≡ some msg) × IsRouted o msg
  pub routes_records :
      (rows : List OutboxEvent) (o : OutboxEvent)
      → Memᴰ o rows
      → (i : ℕ) × (msg : Record Payload) × (get_elem? (records rows o.event_type) i ≡ some msg)
        × IsRecord o msg
