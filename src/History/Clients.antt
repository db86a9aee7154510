-- ===== src/History/Clients.antt =====
-- A client over time: what it shows after any number of requests and deliveries
-- (services/api/src/main.py, services/worker/src/handler.py), if it obeys the rule of
-- docs/api-contract.md on the numbers of the events, and takes over the answers to its own moves.
use Prim.Native.String.{String}
use workfront_system.Base.{
  ℕ, ◌≡◌, refl, sym, ap, ◌∙◌, subst, fun_ext, Option, false, true, suc, leb, ◌==◌, ==_iff, Bool,
  arith, List, [], ◌∷◌, ◌++◌, map, foldl, some, ok,
}
use workfront_system.Cascade.Types.{SetOrder, update}
use workfront_system.Store.Models.{Task, ChangePayload}
use workfront_system.Store.Database.{Database}
use workfront_system.Ws.Manager.{ConnectionManager, WsEvent}
use workfront_system.Worker.Handler.{process_schedule_changed}
use workfront_system.Api.Schemas.{TaskScheduleUpdate, TaskOut, EventData, cascade_data, task_out}
use workfront_system.Api.Guards.{Surroundings, Reply, is_same}
use workfront_system.Api.Guards.Cases.{load_task-ok, flush_task-Flushed}
use workfront_system.Api.Schedule.{move_task, schedule_event, reschedule_task}
use workfront_system.Api.Service.{Request, Body, dispatch}
use workfront_system.Api.Service.Client.{View, shown, follow, follow_all, updates}
use workfront_system.Api.Service.Foreign.{IsRegular}
use workfront_system.Api.Service.Replica.{IsTold, dispatch-follows}
use workfront_system.Pipeline.Agreement.{reschedule-Steps}
use workfront_system.Pipeline.InStep.{deliver-follows}
use workfront_system.History.{History}

-- What a client gets: an event of the WebSocket, or the answer to a move of its own.
pub data Notice : Type 0 where
  event : WsEvent EventData → Notice
  answer : TaskOut → Notice

abbrev pub heed : View → Notice → View
heed v (event e) = follow v e.payload
heed v (answer out) = update v out.id (some out)

-- The client's chart, and the number of the last event of each project in it.
pub record Client : Type 0 where
  pub view : View
  pub last : ℕ → ℕ

unfoldable pub is_old : (ℕ → ℕ) → WsEvent EventData → Bool
is_old last e = leb e.seq (last e.project_id)

is_old-next :
    (last : ℕ → ℕ) (e : WsEvent EventData) → e.seq ≡ suc (last e.project_id) → is_old last e ≡ false
unfolding is_old
is_old-next last e next = ground (arith, next)

-- The contract's rule for an event.
abbrev pub obey : (ℕ → Client) → Client → Notice → Client
obey refetch c (answer out) = record c { view = heed c.view (answer out) }
obey refetch c (event e) = elim (is_old c.last e) [
  | true ↦ c
  | false ↦ elim (e.seq == suc (c.last e.project_id)) [
    | true ↦ record { view = follow c.view e.payload; last = update c.last e.project_id e.seq }
    | false ↦ refetch e.project_id
  ]
]

-- Each event has the number after its project's.
abbrev pub IsNumbered : (ℕ → ℕ) → List Notice → Type 0
IsNumbered last [] = Unit
IsNumbered last (answer out ∷ notices) = IsNumbered last notices
IsNumbered last (event e ∷ notices) =
    (e.seq ≡ suc (last e.project_id)) × IsNumbered (update last e.project_id e.seq) notices

obey-next :
    (refetch : ℕ → Client) (v : View) (last : ℕ → ℕ) (e : WsEvent EventData)
    → e.seq ≡ suc (last e.project_id)
    → obey refetch (record { view = v; last = last }) (event e)
      ≡ record { view = follow v e.payload; last = update last e.project_id e.seq }
obey-next refetch v last e next =
    let own : (e.seq == suc (last e.project_id)) ≡ true = (==_iff e.seq _).1 next in
    rw (obey, is_old-next last e next, own)

-- Where the numbers have no gap, the client heeds every event.
obey-heed :
    (refetch : ℕ → Client) (v : View) (last : ℕ → ℕ) (notices : List Notice)
    → IsNumbered last notices
    → (foldl (obey refetch) (record { view = v; last = last }) notices).view ≡ foldl heed v notices
obey-heed refetch v last [] h = refl
obey-heed refetch v last (answer out ∷ notices) h =
    obey-heed refetch (heed v (answer out)) last notices h
obey-heed refetch v last (event e ∷ notices) (next, h) =
    ap (λ c. (foldl (obey refetch) c notices).view) (obey-next refetch v last e next)
    ∙ obey-heed refetch (follow v e.payload) (update last e.project_id e.seq) notices h

foldl-events :
    (v : View) (events : List (WsEvent EventData))
    → foldl heed v (map event events) ≡ follow_all v events
foldl-events v [] = refl
foldl-events v (e ∷ events) = foldl-events (follow v e.payload) events

foldl-append :
    (v : View) (before after : List Notice)
    → foldl heed v (before ++ after) ≡ foldl heed (foldl heed v before) after
foldl-append v [] after = refl
foldl-append v (n ∷ before) after = foldl-append (heed v n) before after

module _ (db : Database) (order : SetOrder) where
  open db use {State, get_task}

  abbrev pub chart : State → View
  chart s a = shown (get_task s a)

  -- Requests and deliveries in the order of their commits, with what a client gets of them that makes
  -- all the moves itself and misses no event. A request that is no move succeeds and tells what it
  -- did; a move changes the dates; and the changes of a delivery arrive in one event.
  pub data Notified : State → List Notice → State → Type 0 where
    requests :
        (around : Surroundings State) (s : State) (m : ConnectionManager) (customer_id : ℕ)
        (request : Request) {r : Reply State Body}
        → IsRegular db order around s m customer_id
        → IsTold db order around s m customer_id request
        → dispatch db order false around s m (some customer_id) request ≡ ok r
        → Notified (around.others s) (map event r.events) r.state
    moves :
        (around : Surroundings State) (s : State) (m : ConnectionManager) (task_id : ℕ)
        (body : TaskScheduleUpdate) (if_match : Option ℕ) (customer_id : ℕ)
        {r : Reply State TaskOut}
        → ((t : Task) → get_task s task_id ≡ some t → is_same t (move_task t body) ≡ false)
        → reschedule_task db order false around s m task_id body if_match customer_id ≡ ok r
        → Notified (around.others s) (answer r.body ∷ []) r.state
    delivers :
        (s : State) (others : State → State) (new_id event_id task_id : ℕ) (group : String)
        {s' : State} {changes : List ChangePayload} (e : WsEvent EventData)
        → ((b : ℕ) (t : Task) → get_task s b ≡ some t → History db order b s (others s))
        → db.get_processed s group event_id ≡ false
        → process_schedule_changed db order s others new_id event_id task_id group
          ≡ ok (s', changes)
        → e.payload ≡ cascade_data task_id changes
        → Notified (others s) (event e ∷ []) s'
    nothing : {s : State} → Notified s [] s
    then :
        {s s' s'' : State} {before after : List Notice}
        → Notified s before s'
        → Notified s' after s''
        → Notified s (before ++ after) s''

  -- The answer to a move is the row.
  move-follows :
      (around : Surroundings State) (s : State) (m : ConnectionManager) (task_id : ℕ)
      (body : TaskScheduleUpdate) (if_match : Option ℕ) (customer_id : ℕ) {r : Reply State TaskOut}
      → ((t : Task) → get_task s task_id ≡ some t → is_same t (move_task t body) ≡ false)
      → reschedule_task db order false around s m task_id body if_match customer_id ≡ ok r
      → (a : ℕ) → chart r.state a ≡ update (chart (around.others s)) r.body.id (some r.body) a
  move-follows around s m task_id body if_match customer_id {r} changes h a =
      let (moved, steps, answered) =
        reschedule-Steps db order around s m task_id body if_match customer_id h in
      let (loaded, _) = load_task-ok db s task_id customer_id steps.loads in
      let (f, _) =
        flush_task-Flushed db (around.others s) steps.t (move_task steps.t body)
          (changes steps.t loaded) steps.flushes in
      let event = schedule_event around.new_id customer_id around.trace moved body in
      let queued : (b : ℕ) → get_task r.state b ≡ get_task steps.written b = λ b.
        ap (λ x. get_task x b) (sym steps.queues) ∙ (db.outbox_added steps.written event).1 b in
      let same : steps.t.id ≡ moved.id = sym (ap (λ x. x.id) f.next) in
      subst (λ out. chart r.state a ≡ update (chart (around.others s)) out.id (some out) a)
        (sym answered)
        (updates (chart (around.others s)) (chart r.state) moved.id (some (task_out moved))
          (ap shown
            (queued moved.id ∙ subst (λ b. get_task steps.written b ≡ some moved) same f.saved))
          (λ b apart. ap shown (queued b ∙ f.others b (λ at. apart (sym same ∙ at)))) a)

  charts :
      {s s' : State} {notices : List Notice}
      → Notified s notices s'
      → chart s' ≡ foldl heed (chart s) notices
  charts (requests around s m customer_id request {r} regular told h) =
      fun_ext (dispatch-follows db order around s m customer_id regular request told h)
      ∙ sym (foldl-events (chart (around.others s)) r.events)
  charts (moves around s m task_id body if_match customer_id changes h) =
      fun_ext (move-follows around s m task_id body if_match customer_id changes h)
  charts (delivers s others new_id event_id task_id group e regular new h told) =
      fun_ext (deliver-follows db order s others new_id event_id task_id group regular new h)
      ∙ ap (follow (chart (others s))) (sym told)
  charts nothing = refl
  charts (then {s} {s'} {s''} {before} {after} run rest) =
      charts rest
      ∙ ap (λ v. foldl heed v after) (charts run)
      ∙ sym (foldl-append (chart s) before after)

  -- What is told is enough to keep the tasks: folding it over the tasks as they stand.
  told_in_step :
      {s s' : State} (notices : List Notice)
      → Notified s notices s'
      → (a : ℕ) → shown (get_task s' a) ≡ foldl heed (chart s) notices a
  told_in_step notices run a = ap (λ v. v a) (charts run)

  -- The client of docs/api-contract.md. It starts with the tasks as they stand and with the number of
  -- each project, ignores an event whose number is not above its project's, and fetches the chart anew
  -- (`refetch`, whatever it gives) at a gap. Take any number of requests and deliveries to the worker,
  -- each a first one, in the order of their commits. If the client makes all the schedule moves
  -- itself, gets the events of the requests, the answers to its moves and one event for each delivery,
  -- and the events of each project are numbered one by one from the number it starts with, then it
  -- shows the tasks as they stand afterwards. Each move and each update changes something, no deleted
  -- task has subtasks, and what the others commit between the reads and the writes of a request or a
  -- delivery is commits of the services that create no task under an id that is taken.
  pub client_in_step :
      {s s' : State} (refetch : ℕ → Client) (last : ℕ → ℕ) (notices : List Notice)
      → Notified s notices s'
      → IsNumbered last notices
      → (a : ℕ)
      → shown (get_task s' a)
        ≡ (foldl (obey refetch) (record { view = chart s; last = last }) notices).view a
  client_in_step {s} refetch last notices run numbered a =
      told_in_step notices run a
      ∙ sym (ap (λ v. v a) (obey-heed refetch (chart s) last notices numbered))
