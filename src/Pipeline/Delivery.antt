-- ===== src/Pipeline/Delivery.antt =====
-- An accepted move, from the outbox row of services/api/src/main.py over the topic to the poll loop of
-- services/worker/src/consumer.py.
use workfront_system.Base.{
  Memᴰ-last, ℕ, zero, suc, ◌+◌, ◌≤◌, ◌<◌, ◌≡◌, refl, sym, ap, ◌∙◌, subst, false, inl, inr, Option,
  some, List, [], ◌∷◌, All, Memᴰ, map, length, arith, ok,
}
use workfront_system.Telemetry.{Carrier}
use workfront_system.Config.{Settings}
use workfront_system.Cascade.Types.{SetOrder}
use workfront_system.Worker.Connection.{worker_topic}
use workfront_system.Store.Models.{Task, OutboxEvent, schedule_changed}
use workfront_system.Store.Database.{Database}
use workfront_system.Ws.Manager.{ConnectionManager}
use workfront_system.Worker.Consumer.{Message, Consumer, Around, polls, parse, fetch, run}
use workfront_system.Worker.Consumer.Accounted.{KeepsMarks, Handled, Accounted, run-Accounted}
use workfront_system.Worker.Consumer.Progress.{Stays, count_conflicts, run-progress}
use workfront_system.Api.Schemas.{TaskScheduleUpdate, TaskOut}
use workfront_system.Api.Guards.{Surroundings, Reply}
use workfront_system.Api.Schedule.{schedule_event, reschedule_task}
use workfront_system.Pipeline.Agreement.{reschedule-Steps}
use workfront_system.Pipeline.Router.{IsRouted, Router}

pub IsRouted-parse :
    (o : OutboxEvent) (msg : Message) (task_id planned_start planned_completion version : ℕ)
    (trace : Carrier)
    → IsRouted o msg
    → o.payload ≡ schedule_changed task_id planned_start planned_completion version trace
    → parse msg ≡ ok (o.id, task_id)
unfolding parse
IsRouted-parse o msg task_id planned_start planned_completion version trace routed payload = rw (
  parse,
  routed.value task_id planned_start planned_completion version trace payload,
  routed.named,
)

fetch-some : (log : List Message) (i : ℕ) {msg : Message} → fetch log i ≡ some msg → i < length log
fetch-some [] i h = cc
fetch-some (m ∷ log) zero h = omega arith
fetch-some (m ∷ log) (suc i) h = omega (arith, fetch-some log i h)

-- When the consumer has polled once for each message of the topic, and once more for each conflict
-- that it met, every message is behind it.
run-past :
    (db : Database) (order : SetOrder) (log : List Message) (c : Consumer db.State)
    (arounds : List (Around db.State))
    → All (Stays db order log) arounds
    → length log + count_conflicts db order log c arounds ≤ c.position + length arounds
    → length log ≤ (run db order log c (map polls arounds)).position
run-past db order log c arounds stays enough = elim (run-progress db order log c arounds stays) [
  | inl past ↦ past
  | inr moved ↦ omega (arith, moved, enough)
]

-- The row of an accepted move is in the outbox.
pub reschedule-row :
    (db : Database) (order : SetOrder) (around : Surroundings db.State) (s : db.State)
    (m : ConnectionManager) (task_id : ℕ) (body : TaskScheduleUpdate) (if_match : Option ℕ)
    (customer_id : ℕ) {r : Reply db.State TaskOut}
    → reschedule_task db order false around s m task_id body if_match customer_id ≡ ok r
    → (moved : Task) × (r.body.id ≡ moved.id)
      × Memᴰ (schedule_event around.new_id customer_id around.trace moved body) (db.outbox r.state)
reschedule-row db order around s m task_id body if_match customer_id {r} h =
    let (moved, steps, answered) =
      reschedule-Steps db order around s m task_id body if_match customer_id h in
    let event = schedule_event around.new_id customer_id around.trace moved body in
    (
      moved,
      ap (λ x. x.id) answered,
      subst (λ x. Memᴰ event (db.outbox x)) steps.queues
          (subst (Memᴰ event) (sym (db.outbox_added steps.written event).0)
            (Memᴰ-last (db.outbox steps.written) event)),
    )

-- Take settings under which the worker subscribes to task.schedule.changed, a schedule move that
-- succeeds in the pipeline, and a consumer with every message before its next poll accounted for. The
-- worker's topic, as it is made of the outbox, has a message whose ids are those of the event and of
-- the task in the answer. Once the consumer has polled as often as there are messages left and
-- conflicts met, the event is in the dedup inbox, or the message in the dead-letter topic: provided
-- that nobody deletes from the dedup inbox, that each dead letter is taken and delivered, and that the
-- commit of its offset does not raise. Whether an offset's commit arrives does not matter.
pub move-Handled :
    (db : Database) (order : SetOrder) (router : Router) (settings : Settings)
    (around : Surroundings db.State) (s : db.State) (m : ConnectionManager) (task_id : ℕ)
    (body : TaskScheduleUpdate) (if_match : Option ℕ) (customer_id : ℕ) {r : Reply db.State TaskOut}
    (c : Consumer db.State) (arounds : List (Around db.State))
    → worker_topic settings ≡ "task.schedule.changed"
    → reschedule_task db order false around s m task_id body if_match customer_id ≡ ok r
    → All (KeepsMarks db) (map polls arounds)
    → All (Stays db order (router.topic (db.outbox r.state) (worker_topic settings))) arounds
    → Accounted db (router.topic (db.outbox r.state) (worker_topic settings)) c
    → length (router.topic (db.outbox r.state) (worker_topic settings))
        + count_conflicts db order
            (router.topic (db.outbox r.state) (worker_topic settings))
            c
            arounds
      ≤ c.position + length arounds
    → (i : ℕ) × (msg : Message) × (fetch
          (router.topic (db.outbox r.state) (worker_topic settings))
          i
        ≡ some msg)
      × (parse msg ≡ ok (around.new_id, r.body.id))
      × Handled db
          (run db order
            (router.topic (db.outbox r.state) (worker_topic settings))
            c
            (map polls arounds))
          msg
move-Handled db order router settings around s m task_id body if_match customer_id {r} c arounds
      topic h kept stays inv enough =
    let log = router.topic (db.outbox r.state) (worker_topic settings) in
    let (moved, answered, queued) =
      reschedule-row db order around s m task_id body if_match customer_id h in
    let event = schedule_event around.new_id customer_id around.trace moved body in
    let (i, msg, found, routed) = router.routes (db.outbox r.state) event queued in
    let at : fetch log i ≡ some msg =
      subst (λ name. fetch (router.topic (db.outbox r.state) name) i ≡ some msg) (sym topic)
        found in
    let accounted = run-Accounted db order log c (map polls arounds) kept inv in
    let past = run-past db order log c arounds stays enough in
    (
      i,
      msg,
      at,
      IsRouted-parse event msg moved.id body.planned_start body.planned_completion moved.version
            around.trace routed refl
          ∙ ap (λ a. ok (around.new_id, a)) (sym answered),
      accounted.handled i msg at (omega (arith, fetch-some log i at, past)),
    )
