-- ===== src/Pipeline/Ripple.antt =====
-- The changes of a cascade, from the outbox row of services/worker/src/handler.py over the bridge of
-- services/ws_fanout/src/main.py to the sockets of services/api/src/main.py.
use Prim.Native.String.{String}
use workfront_system.Base.{
  some-injective, ℕ, zero, suc, ◌+◌, ◌≡◌, refl, sym, ap, ◌∙◌, subst, Bool, false, ◌&&◌, inl, inr,
  some, List, [], ◌∷◌, Memᴰ, Memᴰ-last, get_elem?, contains, arith, ok,
}
use workfront_system.Config.{Settings}
use workfront_system.Cascade.Types.{SetOrder}
use workfront_system.Ws.Connection.{fanout_topic}
use workfront_system.Store.Models.{Task, ChangePayload, Payload, project_changed}
use workfront_system.Store.Database.{Database}
use workfront_system.Ws.Manager.{ConnectionManager, schedule_cascade}
use workfront_system.Ws.Manager.Rooms.{push_local-rooms}
use workfront_system.Ws.Fanout.{Record, FanoutEvent, fanout_event, publish_all, push_published}
use workfront_system.Ws.Subscriber.{listening, arrives, receive, step}
use workfront_system.Worker.Handler.{changed_event, process_schedule_changed}
use workfront_system.Worker.Handler.Guarantees.{process-outbox}
use workfront_system.Pipeline.Router.{Router}

-- The records from an offset on, with the time at which the bridge reaches each.
abbrev pub timed : {D : Type 0} → (ℕ → ℕ) → ℕ → List (Record D) → List (ℕ × Record D)
timed now offset [] = []
timed now offset (msg ∷ records) = (now offset, msg) ∷ timed now (suc offset) records

publish_all-get_elem? :
    {D : Type 0} (now : ℕ → ℕ) (records : List (Record D)) (offset i : ℕ) {msg : Record D}
    → get_elem? records i ≡ some msg
    → get_elem? (publish_all offset (timed now offset records)) i
      ≡ some (fanout_event (offset + i) (now (offset + i)) msg)
unfolding publish_all
publish_all-get_elem? now [] offset i h = cc
publish_all-get_elem? now (r ∷ records) offset zero {msg} h =
    let here : offset ≡ offset + 0 = omega arith in
    ap (λ n. some (fanout_event n (now n) r)) here
    ∙ ap (λ x. some (fanout_event (offset + 0) (now (offset + 0)) x)) (some-injective h)
publish_all-get_elem? now (r ∷ records) offset (suc i) {msg} h =
    let next : suc offset + i ≡ offset + suc i = omega arith in
    subst
      (λ n.
        get_elem? (publish_all (suc offset) (timed now (suc offset) records)) i
        ≡ some (fanout_event n (now n) msg))
      next (publish_all-get_elem? now records (suc offset) i h)

-- A first delivery with changes adds their row to the outbox.
process-row :
    (db : Database) (order : SetOrder) (s : db.State) (others : db.State → db.State)
    (new_id event_id task_id : ℕ) (group : String) {s' : db.State} {c : ChangePayload}
    {changes : List ChangePayload}
    → process_schedule_changed db order s others new_id event_id task_id group
      ≡ ok (s', c ∷ changes)
    → db.get_processed s group event_id ≡ false
    → (origin : Task) × (db.get_task s task_id ≡ some origin)
      × Memᴰ (changed_event new_id origin (c ∷ changes)) (db.outbox s')
process-row db order s others new_id event_id task_id group {s'} {c} {changes} h new =
    elim (process-outbox db order s others new_id event_id task_id group h new).1 [
      | inl (_, empty, _) ↦ absurd (cons≢nil empty)
      | inr (origin, found, rows) ↦
          let event = changed_event new_id origin (c ∷ changes) in
          (origin, found, subst (Memᴰ event) (sym rows) (Memᴰ-last (db.outbox (others s)) event))
    ]
  where
    cons≢nil : c ∷ changes ≡ [] → ⊥
    cons≢nil e = cc

-- The event of some changes, published with the offset of their record.
abbrev pub ripple_event : ℕ → ℕ → Task → List ChangePayload → FanoutEvent Payload
ripple_event offset now origin changes = record {
  type = schedule_cascade;
  project_id = some origin.project_id;
  seq = offset;
  ts = now;
  payload = project_changed origin.id changes;
}

-- What becomes of the changes: their event is published with its offset, and an api process that is
-- subscribed pushes it to the sockets in the project's room whose send succeeds, and no others.
pub record Pushed (published : List (FanoutEvent Payload)) (event : FanoutEvent Payload)
    (project_id : ℕ) (m : ConnectionManager) (during : ConnectionManager → ConnectionManager)
    (sends : ℕ → Bool) : Type 0 where
  pub at_seq : get_elem? published event.seq ≡ some event
  pub sockets : List ℕ
  pub pushes :
      (step (record { phase = listening; manager = m }) (arrives during sends event)).1
      ≡ record { event = event; sockets = sockets } ∷ []
  pub reached : (ws : ℕ) → contains sockets ws ≡ (contains (m.rooms project_id) ws && sends ws)

-- Take settings under which the bridge reads project.changed, a first delivery to the worker that
-- succeeds with at least one change, and the bridge on its whole topic, as it is made of the outbox
-- then. One of the published events carries exactly these
-- changes, with their origin, under the origin's project and with its offset as the number; every
-- api process that is subscribed when it arrives pushes it to the sockets that are in the project's
-- room and can be sent to, and to no others.
pub ripple-Pushed :
    (db : Database) (order : SetOrder) (router : Router) (settings : Settings) (s : db.State)
    (others : db.State → db.State) (new_id event_id task_id : ℕ) (group : String) (now : ℕ → ℕ)
    {s' : db.State} {c : ChangePayload} {changes : List ChangePayload}
    → fanout_topic settings ≡ "project.changed"
    → process_schedule_changed db order s others new_id event_id task_id group
      ≡ ok (s', c ∷ changes)
    → db.get_processed s group event_id ≡ false
    → (origin : Task) × (db.get_task s task_id ≡ some origin)
      × (offset : ℕ) × ((m : ConnectionManager) (during : ConnectionManager → ConnectionManager)
            (sends : ℕ → Bool)
          → Pushed
              (publish_all 0 (timed now 0 (router.records (db.outbox s') (fanout_topic settings))))
              (ripple_event offset (now offset) origin (c ∷ changes))
              origin.project_id
              m
              during
              sends)
unfolding step receive push_published
ripple-Pushed db order router settings s others new_id event_id task_id group now {s'} {c} {changes}
      topic h new =
    let (origin, found, queued) =
      process-row db order s others new_id event_id task_id group h new in
    let event = changed_event new_id origin (c ∷ changes) in
    let (offset, msg, here, kept) = router.routes_records (db.outbox s') event queued in
    let records = router.records (db.outbox s') (fanout_topic settings) in
    let at : get_elem? records offset ≡ some msg =
      subst (λ name. get_elem? (router.records (db.outbox s') name) offset ≡ some msg) (sym topic)
        here in
    let same : fanout_event offset (now offset) msg
        ≡ ripple_event offset (now offset) origin (c ∷ changes) =
      ap (λ k. fanout_event offset (now offset) (record { key = k; value = msg.value })) kept.keyed
      ∙ ap
          (λ v.
            fanout_event offset (now offset) (record { key = some origin.project_id; value = v }))
          kept.carries in
    let start : 0 + offset ≡ offset = omega arith in
    let published : get_elem? (publish_all 0 (timed now 0 records)) offset
        ≡ some (fanout_event offset (now offset) msg) =
      subst
        (λ n.
          get_elem? (publish_all 0 (timed now 0 records)) offset
          ≡ some (fanout_event n (now n) msg))
        start (publish_all-get_elem? now records 0 offset at) in
    (
      origin,
      found,
      offset,
      λ m during sends. record {
        at_seq = published ∙ ap some same;
        sockets =
            (push_published m during sends
              (ripple_event offset (now offset) origin (c ∷ changes))).1;
        pushes = refl;
        reached = (push_local-rooms m during sends origin.project_id).0;
      },
    )
