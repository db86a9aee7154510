-- ===== src/Tests/Relaying.antt =====
-- The event of a schedule move on its way through a router in memory to the worker, and the theorem at
-- it.
use Prim.Native.String.{String}
use text.Mathlib.Text.{◌==◌ as str_eq}
use text.Mathlib.TextPositions.{eq_refl}
use workfront_system.Ws.Fanout.{Record, publish_all}
use workfront_system.Base.{
  get_elem?, ℕ, zero, suc, ◌+◌, ◌≤◌, ◌≡◌, refl, sym, ap, ◌∙◌, true, inl, inr, none, some, List, [],
  ◌∷◌, Memᴰ, map, filter, length, arith, Bool, Bool-cases, ok,
}
use workfront_system.Config.{Settings, read_settings}
use workfront_system.Worker.Connection.{worker_topic}
use workfront_system.Ws.Connection.{fanout_topic}
use workfront_system.Cascade.Types.{inserted}
use workfront_system.Store.Models.{Task, OutboxEvent, Payload, schedule_changed, project_changed}
use workfront_system.Store.Tables.{Tables}
use workfront_system.Store.Memory.{memory}
use workfront_system.Store.Session.{session_scope}
use workfront_system.Worker.Handler.{worker_group}
use workfront_system.Ws.Manager.{ConnectionManager, new_manager}
use workfront_system.Worker.Consumer.{
  Message, Consumer, Around, Calls, arrives, delivered, polls, parse, fetch, attempt, run,
}
use workfront_system.Worker.Consumer.Accounted.{Handled}
use workfront_system.Worker.Consumer.Progress.{count_conflicts}
use workfront_system.Pipeline.Router.{IsRouted, Router, schedule_json}
use workfront_system.Json.{Json, uuid}
use workfront_system.Pipeline.Delivery.{move-Handled}
use workfront_system.Pipeline.Ripple.{Pushed, ripple_event, timed, ripple-Pushed}
use workfront_system.Tests.Deliveries
use workfront_system.Tests.Deliveries.{before, after, changes, delivery}
use workfront_system.Tests.Requests.{around, body, reply, move}

-- What a router makes of a payload.
abbrev pub value_of : Payload → List (String × Json)
value_of (schedule_changed task_id planned_start planned_completion version trace) =
    schedule_json task_id planned_start planned_completion version trace
value_of (project_changed origin_task_id moves) = []

abbrev pub message_of : OutboxEvent → Message
message_of o = record {
  key = o.partition_key;
  headers = ("id", uuid o.id) ∷ [];
  value = some (value_of o.payload);
}

abbrev pub record_of : OutboxEvent → Record Payload
record_of o = record { key = some o.partition_key; value = o.payload }

-- The rows of a topic, each as what it becomes.
abbrev pub routed : {A : Type 0} → (OutboxEvent → A) → List OutboxEvent → String → List A
routed f rows name = map f (filter (λ o. str_eq o.event_type name) rows)

pub message_of-IsRouted : (o : OutboxEvent) → IsRouted o (message_of o)
message_of-IsRouted o = record {
  named = refl;
  value = λ a b c v tr e. ap (λ p. some (value_of p)) e;
}

pub fetch-get_elem? : (log : List Message) (i : ℕ) → fetch log i ≡ get_elem? log i
fetch-get_elem? [] i = refl
fetch-get_elem? (msg ∷ log) zero = refl
fetch-get_elem? (msg ∷ log) (suc i) = fetch-get_elem? log i

pub get_elem?-routed :
    {A : Type 0} (f : OutboxEvent → A) (rows : List OutboxEvent) (o : OutboxEvent)
    → Memᴰ o rows
    → (i : ℕ) × (get_elem? (routed f rows o.event_type) i ≡ some (f o))
get_elem?-routed f [] o m = elim m [ ]
get_elem?-routed f (x ∷ rows) o (Memᴰ.head same) =
    let own : str_eq x.event_type o.event_type ≡ true =
      ap (λ y. str_eq y.event_type o.event_type) (sym same) ∙ eq_refl o.event_type in
    (0, rw own (ap (λ y. some (f y)) (sym same)))
get_elem?-routed f (x ∷ rows) o (Memᴰ.tail m) =
    let (i, at) = get_elem?-routed f rows o m in
    elim (Bool-cases (str_eq x.event_type o.event_type)) [
      | inl own ↦ (suc i, rw own at)
      | inr other ↦ (i, rw other at)
    ]

abbrev pub router : Router
router = record {
  topic = routed message_of;
  records = routed record_of;
  routes = λ rows o m.
      let (i, at) = get_elem?-routed message_of rows o m in
      (
        i,
        message_of o,
        fetch-get_elem? (routed message_of rows o.event_type) i ∙ at,
        message_of-IsRouted o,
      );
  routes_records = λ rows o m.
      let (i, at) = get_elem?-routed record_of rows o m in
      (i, record_of o, at, record { keyed = refl; carries = refl });
}

-- Nothing is set in the environment.
abbrev pub settings : Settings
settings = read_settings (λ _. none)

abbrev start : Consumer Tables
start = record { database = reply.state; position = 0; committed = 0; dead_letters = [] }

abbrev arrived : Calls
arrived = record { commit = arrives; letter = delivered; last_commit = arrives }

abbrev quiet : Around Tables
quiet = record {
  before = λ s. s;
  others = λ s. s;
  new_id = 55;
  commit_raises = none;
  calls = arrived;
}

abbrev pub log : List Message
log = router.topic (memory.outbox reply.state) (worker_topic settings)

-- One message, and no conflict.
enough : length log + count_conflicts memory inserted log start (quiet ∷ []) ≤ 0 + 1
unfolding attempt parse session_scope Deliveries.program
enough = omega arith

move-Handled_example :
    (i : ℕ) × (msg : Message) × (fetch log i ≡ some msg)
    × (parse msg ≡ ok (70, 1))
    × Handled memory (run memory inserted log start (map polls (quiet ∷ []))) msg
move-Handled_example =
    move-Handled memory inserted router settings around before new_manager 1 body (some 2) 9 start
      (quiet ∷ []) refl move ((λ s g e old. old, λ s g e old. old, λ e. cc), tt)
      ((λ e. cc, λ e. cc), tt)
      (record { behind = omega arith; handled = λ i msg at below. absurd (omega arith) }) enough

ripple-Pushed_example :
    (origin : Task) × (memory.get_task before 1 ≡ some origin)
    × (offset : ℕ) × ((m : ConnectionManager) (during : ConnectionManager → ConnectionManager)
          (sends : ℕ → Bool)
        → Pushed
            (publish_all 0 (
              timed
                (λ n. 5000 + n)
                0
                (router.records (memory.outbox after) (fanout_topic settings))))
            (ripple_event offset (5000 + offset) origin changes)
            origin.project_id
            m
            during
            sends)
ripple-Pushed_example =
    ripple-Pushed memory inserted router settings before (λ s. s) 55 99 1 worker_group
      (λ n. 5000 + n) refl delivery refl
