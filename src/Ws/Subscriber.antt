-- ===== src/Ws/Subscriber.antt =====
-- `_redis_subscriber` and `lifespan` of services/api/src/main.py: the loop that subscribes to the
-- channels and pushes what they bring, over what its awaits give. A push is one step: what others do
-- while its sends are awaited is its argument `during`.
pub mod Recovery
use workfront_system.Base.{ℕ, Bool, List, [], ◌∷◌, ◌++◌, if◌then◌else◌}
use workfront_system.Ws.Manager.{ConnectionManager}
use workfront_system.Ws.Fanout.{FanoutEvent, push_published}

-- Where the loop stands: before psubscribe has returned (a pause of 2 seconds included), in the inner
-- loop, or after its end.
pub data Phase : Type 0 where
  connecting listening over : Phase

pub record Subscriber : Type 0 where
  pub phase : Phase
  pub manager : ConnectionManager

pub data Happening (D : Type 0) : Type 0 where
  -- other coroutines run
  waits : (ConnectionManager → ConnectionManager) → Happening D
  -- psubscribe returns
  subscribes : Happening D
  -- get_message gives None, or a message of another type
  gets_other : Happening D
  -- Redis hands a published event to those who are subscribed
  arrives : (ConnectionManager → ConnectionManager) → (ℕ → Bool) → FanoutEvent D → Happening D
  -- any exception but CancelledError, from an await or from json.loads
  raises : Happening D
  -- CancelledError
  cancelled : Happening D

-- An event that was pushed, and the sockets that got it.
pub record Push (D : Type 0) : Type 0 where
  pub event : FanoutEvent D
  pub sockets : List ℕ

-- Without the redis package the coroutine returns at once.
abbrev pub begin : Bool → ConnectionManager → Subscriber
begin redis_installed m = record {
  phase = if redis_installed then connecting else over;
  manager = m;
}

abbrev pub subscribed : Phase → Phase
subscribed connecting = listening
subscribed listening = listening
subscribed over = over

-- The inner loop, and with it the connection, is left by an exception, and the outer one goes on.
abbrev pub reconnecting : Phase → Phase
reconnecting connecting = connecting
reconnecting listening = connecting
reconnecting over = over

-- An event that nobody is subscribed for is lost.
unfoldable pub receive :
    {D : Type 0}
    → Phase
    → ConnectionManager
    → (ConnectionManager → ConnectionManager)
    → (ℕ → Bool)
    → FanoutEvent D
    → ConnectionManager × List (Push D)
receive listening m during sends event =
    let (after, sockets) = push_published m during sends event in
    (after, record { event = event; sockets = sockets } ∷ [])
receive connecting m during sends event = (during m, [])
receive over m during sends event = (during m, [])

unfoldable pub step : {D : Type 0} → Subscriber → Happening D → Subscriber × List (Push D)
step s (waits others) = (record s { manager = others s.manager }, [])
step s subscribes = (record s { phase = subscribed s.phase }, [])
step s gets_other = (s, [])
step s (arrives during sends event) =
    let (after, pushes) = receive s.phase s.manager during sends event in
    (record s { manager = after }, pushes)
step s raises = (record s { phase = reconnecting s.phase }, [])
step s cancelled = (record s { phase = over }, [])

unfoldable pub listen : {D : Type 0} → Subscriber → List (Happening D) → Subscriber × List (Push D)
listen s [] = (s, [])
listen s (h ∷ happenings) =
    let (after, pushes) = step s h in
    let (final, later) = listen after happenings in (final, pushes ++ later)

-- lifespan: the app runs while the task does, then the task is cancelled and awaited.
unfoldable pub lifespan :
    {D : Type 0} → Bool → ConnectionManager → List (Happening D) → Subscriber × List (Push D)
lifespan redis_installed m happenings =
    listen (begin redis_installed m) (happenings ++ cancelled ∷ [])
