-- ===== src/Ws/Manager.antt =====
-- `ConnectionManager` of services/api/src/ws.py and its `WSEvent` (services/api/src/schemas.py).
-- Sockets and project ids are numbers. Whether a send raises is the argument `sends`.
pub mod Rooms
use workfront_system.Base.{
  ℕ, suc, Bool, true, false, not, ◌||◌, List, [], ◌∷◌, ◌++◌, foldl, if◌then◌else◌, ◌==◌, contains,
  filter,
}
use workfront_system.Cascade.Types.{update}

pub data EventType : Type 0 where
  schedule_cascade task_created task_updated task_deleted dependency_changed : EventType
  subscribed error : EventType

-- The envelope of every push.
pub record WsEvent (D : Type 0) : Type 0 where
  pub type : EventType
  pub project_id : ℕ
  pub seq : ℕ
  pub ts : ℕ
  pub payload : D

pub record ConnectionManager : Type 0 where
  pub rooms : ℕ → List ℕ
  pub seq : ℕ → ℕ

abbrev pub new_manager : ConnectionManager
new_manager = record { rooms = λ _. []; seq = λ _. 0 }

-- set.add and set.discard
abbrev pub add : List ℕ → ℕ → List ℕ
add sockets ws = if contains sockets ws then sockets else sockets ++ ws ∷ []

abbrev pub discard : List ℕ → ℕ → List ℕ
discard sockets ws = filter (λ x. not (x == ws)) sockets

unfoldable pub subscribe : ConnectionManager → ℕ → ℕ → ConnectionManager
subscribe m project_id ws = record m {
  rooms = update m.rooms project_id (add (m.rooms project_id) ws);
}

unfoldable pub unsubscribe : ConnectionManager → ℕ → ℕ → ConnectionManager
unsubscribe m project_id ws = record m {
  rooms = update m.rooms project_id (discard (m.rooms project_id) ws);
}

unfoldable pub disconnect : ConnectionManager → ℕ → ConnectionManager
disconnect m ws = record m { rooms = λ p. discard (m.rooms p) ws }

unfoldable pub current_seq : ConnectionManager → ℕ → ℕ
current_seq m project_id = m.seq project_id

unfoldable pub next_seq : ConnectionManager → ℕ → ConnectionManager × ℕ
next_seq m project_id =
    let n = suc (m.seq project_id) in (record m { seq = update m.seq project_id n }, n)

-- The loop of sends: the sockets that got the event, and `dead`.
abbrev pub delivered : (ℕ → Bool) → List ℕ → List ℕ
delivered sends sockets = filter sends sockets

abbrev pub dead : (ℕ → Bool) → List ℕ → List ℕ
dead sends sockets = filter (λ ws. not (sends ws)) sockets

-- `for ws in dead: self.disconnect(ws)`
unfoldable pub drop_dead : ConnectionManager → List ℕ → ConnectionManager
drop_dead m sockets = foldl disconnect m sockets

-- `during` is what other coroutines do to the manager while the sends are awaited.
unfoldable pub push_local :
    ConnectionManager
    → (ConnectionManager → ConnectionManager)
    → (ℕ → Bool)
    → ℕ
    → ConnectionManager × List ℕ
push_local m during sends project_id =
    let room = m.rooms project_id in (drop_dead (during m) (dead sends room), delivered sends room)

-- The first half of `broadcast`: take a number and make the event.
unfoldable pub make_event :
    {D : Type 0} → ConnectionManager → ℕ → EventType → ℕ → D → ConnectionManager × WsEvent D
make_event m project_id type ts payload =
    let (numbered, n) = next_seq m project_id in
    (numbered, record { type = type; project_id = project_id; seq = n; ts = ts; payload = payload })

unfoldable pub broadcast :
    {D : Type 0}
    → ConnectionManager
    → (ConnectionManager → ConnectionManager)
    → (ℕ → Bool)
    → ℕ
    → EventType
    → ℕ
    → D
    → ConnectionManager × WsEvent D
broadcast m during sends project_id type ts payload =
    let (numbered, event) = make_event m project_id type ts payload in
    ((push_local numbered during sends project_id).0, event)
