-- ===== src/Api/Socket.antt =====
-- The WebSocket route of services/api/src/main.py, `ws_endpoint`: what it does with the messages of
-- one socket, until
-- an exception ends it.
pub mod Leaves
use workfront_system.Base.{ℕ, Option, some, none, List, [], ◌∷◌}
use workfront_system.Ws.Manager
use workfront_system.Ws.Manager.{ConnectionManager, WsEvent, subscribed, disconnect, current_seq}
use workfront_system.Api.Schemas.{Action, WsClientMessage, EventData, no_data}

-- What the endpoint sends back to its own socket.
pub data Answer : Type 0 where
  event : WsEvent EventData → Answer
  invalid : Answer

-- One message, with the answer if there is one; `none` is one that WSClientMessage does not accept.
unfoldable pub on_message :
    ConnectionManager → ℕ → ℕ → Option WsClientMessage → ConnectionManager × Option Answer
on_message m ws now none = (m, some invalid)
on_message m ws now (some msg) = elim msg.action [
  | Action.subscribe ↦
      let joined = Manager.subscribe m msg.project_id ws in
      (
        joined,
        some (
            event (record {
              type = subscribed;
              project_id = msg.project_id;
              seq = current_seq joined msg.project_id;
              ts = now;
              payload = no_data;
            })),
      )
  | Action.unsubscribe ↦ (Manager.unsubscribe m msg.project_id ws, none)
]

-- What receive_json gives: a JSON value, WebSocketDisconnect, or another exception, such as
-- JSONDecodeError for a text that is no JSON.
pub data Frame : Type 0 where
  json : Option WsClientMessage → Frame
  disconnects : Frame
  fails : Frame

-- How send_json ends: it returns, or it raises WebSocketDisconnect or another exception.
pub data Send : Type 0 where
  returns gone breaks : Send

-- A turn of the loop: what other coroutines do while it receives, the time, what it gets, and how
-- the sending of an answer ends.
pub record Turn : Type 0 where
  pub during : ConnectionManager → ConnectionManager
  pub now : ℕ
  pub frame : Frame
  pub send : Send

-- How the endpoint stands: it receives, it has caught WebSocketDisconnect, or another exception has
-- left it.
pub data Status : Type 0 where
  receiving caught raised : Status

pub record Endpoint : Type 0 where
  pub manager : ConnectionManager
  pub answers : List Answer
  pub status : Status

-- `except WebSocketDisconnect`
abbrev pub leave : ConnectionManager → ℕ → Endpoint
leave m ws = record { manager = disconnect m ws; answers = []; status = caught }

-- Send an answer, and go on with `next`.
abbrev pub send_answer : ConnectionManager → ℕ → Option Answer → Send → Endpoint → Endpoint
send_answer m ws none send next = next
send_answer m ws (some a) returns next = record next { answers = a ∷ next.answers }
send_answer m ws (some a) gone next = leave m ws
send_answer m ws (some a) breaks next = record { manager = m; answers = []; status = raised }

-- The turns of one socket. When they are used up, the endpoint waits for a message.
unfoldable pub ws_endpoint : ConnectionManager → ℕ → List Turn → Endpoint
ws_endpoint m ws [] = record { manager = m; answers = []; status = receiving }
ws_endpoint m ws (turn ∷ turns) = elim turn.frame [
  | disconnects ↦ leave (turn.during m) ws
  | fails ↦ record { manager = turn.during m; answers = []; status = raised }
  | json msg ↦
      let (after, answer) = on_message (turn.during m) ws turn.now msg in
      let next = ws_endpoint after ws turns in send_answer after ws answer turn.send next
]
