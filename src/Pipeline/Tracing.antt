-- ===== src/Pipeline/Tracing.antt =====
-- One trace from the request of services/api/src/main.py to the span of
-- services/worker/src/consumer.py.
use Prim.Native.String.{String}
use workfront_system.Base.{List, ℕ, ◌≡◌, refl, sym, ap, ◌∙◌, subst, false, Option, some, [], ok}
use workfront_system.Config.{Settings}
use workfront_system.Cascade.Types.{SetOrder}
use workfront_system.Store.Database.{Database}
use workfront_system.Ws.Manager.{ConnectionManager}
use workfront_system.Telemetry.{OpenTelemetry, inject_trace}
use workfront_system.Worker.Connection.{worker_topic}
use workfront_system.Worker.Consumer.{Message, parse, fetch}
use workfront_system.Json.{Json}
use workfront_system.Worker.Tracing.{worker_span}
use workfront_system.Api.Schemas.{TaskScheduleUpdate, TaskOut}
use workfront_system.Api.Guards.{Surroundings, Reply}
use workfront_system.Api.Schedule.{schedule_event, reschedule_task}
use workfront_system.Pipeline.Router.{schedule_json, Router}
use workfront_system.Pipeline.Delivery.{reschedule-row, IsRouted-parse}

-- Take settings under which the worker subscribes to task.schedule.changed, and a schedule move that
-- succeeds in the pipeline, in a request with a trace, where `inject_trace({})` gives the carrier of
-- the request's context. The worker's topic, as it is made of the outbox, has a message whose ids are those of the event and of
-- the task in the answer, and the span in which the worker handles it is of the request's trace.
pub move-Traced :
    (db : Database) (order : SetOrder) (router : Router) (otel : OpenTelemetry)
    (settings : Settings) (around : Surroundings db.State) (s : db.State) (m : ConnectionManager)
    (task_id : ℕ) (body : TaskScheduleUpdate) (if_match : Option ℕ) (customer_id : ℕ)
    {r : Reply db.State TaskOut} (current : otel.Context) (trace : ℕ)
    → worker_topic settings ≡ "task.schedule.changed"
    → reschedule_task db order false
        (record around { trace = inject_trace otel current [] })
        s
        m
        task_id
        body
        if_match
        customer_id
      ≡ ok r
    → otel.trace_id current ≡ some trace
    → (i : ℕ) × (msg : Message) × (payload : List (String × Json)) × (fetch
          (router.topic (db.outbox r.state) (worker_topic settings))
          i
        ≡ some msg)
      × (msg.value ≡ some payload)
      × (parse msg ≡ ok (around.new_id, r.body.id))
      × (otel.trace_id (worker_span otel payload) ≡ some trace)
move-Traced db order router otel settings around s m task_id body if_match customer_id {r} current
      trace topic h traced =
    let sent : Surroundings db.State = record around { trace = inject_trace otel current [] } in
    let (moved, answered, queued) =
      reschedule-row db order sent s m task_id body if_match customer_id h in
    let event = schedule_event sent.new_id customer_id sent.trace moved body in
    let (i, msg, found, routed) = router.routes (db.outbox r.state) event queued in
    let extracted = otel.round_trip current [] trace traced in
    (
      i,
      msg,
      schedule_json moved.id body.planned_start body.planned_completion moved.version sent.trace,
      subst (λ name. fetch (router.topic (db.outbox r.state) name) i ≡ some msg) (sym topic) found,
      routed.value moved.id body.planned_start body.planned_completion moved.version sent.trace
          refl,
      IsRouted-parse event msg moved.id body.planned_start body.planned_completion moved.version
            sent.trace routed refl
          ∙ ap (λ a. ok (around.new_id, a)) (sym answered),
      otel.child (otel.extract sent.trace) trace extracted,
    )
