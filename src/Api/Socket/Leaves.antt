-- ===== src/Api/Socket/Leaves.antt =====
-- What is left of a socket when its endpoint (services/api/src/main.py) ends.
use workfront_system.Base.{ℕ, ◌≡◌, ◌∙◌, false, Option, some, none, List, [], ◌∷◌, contains, arith}
use workfront_system.Ws.Manager.{ConnectionManager, disconnect}
use workfront_system.Ws.Manager.Rooms.{contains-discard}
use workfront_system.Api.Socket.{
  Answer, Send, returns, gone, breaks, Turn, Frame, json, disconnects, fails, caught, Endpoint,
  leave, send_answer, on_message, ws_endpoint,
}

module _ (ws p : ℕ) where
  -- If the endpoint has caught the end of its socket, the socket is not in room `p`.
  abbrev IsLeft : Endpoint → Type 0
  IsLeft e = e.status ≡ caught → contains (e.manager.rooms p) ws ≡ false

  leave-IsLeft : (m : ConnectionManager) → IsLeft (leave m ws)
  unfolding disconnect
  leave-IsLeft m _ = contains-discard (m.rooms p) ws ws ∙ ground arith

  send_answer-IsLeft :
      (m : ConnectionManager) (answer : Option Answer) (send : Send) (next : Endpoint)
      → IsLeft next
      → IsLeft (send_answer m ws answer send next)
  send_answer-IsLeft m none send next left = left
  send_answer-IsLeft m (some a) returns next left = left
  send_answer-IsLeft m (some a) gone next left = leave-IsLeft m
  send_answer-IsLeft m (some a) breaks next left = λ e. cc

  frame-IsLeft :
      (turn : Turn) (frame : Frame) (turns : List Turn) (m : ConnectionManager)
      → ((m' : ConnectionManager) → IsLeft (ws_endpoint m' ws turns))
      → IsLeft (ws_endpoint m ws (record turn { frame = frame } ∷ turns))
  unfolding ws_endpoint
  frame-IsLeft turn disconnects turns m rest = leave-IsLeft (turn.during m)
  frame-IsLeft turn fails turns m rest = λ e. cc
  frame-IsLeft turn (json msg) turns m rest =
      let (after, answer) = on_message (turn.during m) ws turn.now msg in
      send_answer-IsLeft after answer turn.send (ws_endpoint after ws turns) (rest after)

  turns-IsLeft : (turns : List Turn) (m : ConnectionManager) → IsLeft (ws_endpoint m ws turns)
  unfolding ws_endpoint
  turns-IsLeft [] m = λ e. cc
  turns-IsLeft (turn ∷ turns) m = frame-IsLeft turn turn.frame turns m (turns-IsLeft turns)

-- Whatever messages came, valid or not, however the answers were sent, and whatever other coroutines
-- did before each: if the endpoint ends by WebSocketDisconnect, its socket is in no room.
pub ws_endpoint-leaves :
    (m : ConnectionManager) (ws : ℕ) (turns : List Turn)
    → (ws_endpoint m ws turns).status ≡ caught
    → (p : ℕ) → contains ((ws_endpoint m ws turns).manager.rooms p) ws ≡ false
ws_endpoint-leaves m ws turns ended p = turns-IsLeft ws p turns m ended
