-- ===== src/Tests/Sockets.antt =====
-- Pushes and broadcasts (services/api/src/ws.py, services/ws_fanout/src/main.py), and the theorems at
-- them.
use workfront_system.Base.{
  ℕ, Option, true, none, false, ◌+◌, ◌≡◌, refl, not, ◌&&◌, some, List, [], ◌∷◌, length, ◌==◌,
  contains, map,
}
use workfront_system.Ws.Manager.{
  ConnectionManager, task_updated, new_manager, subscribe, push_local,
}
use workfront_system.Ws.Manager.Rooms.{push_local-rooms}
use workfront_system.Ws.Traffic.{Step, run, seqs, counting, run-seq}
use workfront_system.Api.Schemas.{Action}
use workfront_system.Api.Socket.{
  Turn, json, disconnects, fails, returns, caught, raised, on_message, ws_endpoint,
}
use workfront_system.Api.Socket.Leaves.{ws_endpoint-leaves}
use workfront_system.Ws.Fanout.{Record, publish_all}

-- Sockets 1 and 2 are in room 7; the send to 2 fails.
abbrev joined : ConnectionManager
joined = subscribe (subscribe new_manager 7 1) 7 2

push_local-rooms_example :
    ((ws : ℕ)
      → contains (push_local joined (λ m. m) (λ x. x == 1) 7).1 ws
        ≡ (contains (joined.rooms 7) ws && ws == 1))
    × ((p ws : ℕ)
        → contains ((push_local joined (λ m. m) (λ x. x == 1) 7).0.rooms p) ws
          ≡ (contains (joined.rooms p) ws && not (contains (joined.rooms 7) ws && not (ws == 1))))
    × ((push_local joined (λ m. m) (λ x. x == 1) 7).0.seq ≡ joined.seq)
push_local-rooms_example = push_local-rooms joined (λ m. m) (λ x. x == 1) 7

-- Two broadcasts to project 7 with one to project 8 and a departure between them.
abbrev steps : List (Step ℕ)
steps =
    Step.starts_broadcast 7 task_updated 100 0
    ∷ Step.starts_broadcast 8 task_updated 101 0
    ∷ Step.clean_up (2 ∷ [])
    ∷ Step.starts_broadcast 7 task_updated 102 0
    ∷ []

run-seq_example :
    (seqs 7 (run joined steps).1 ≡ counting (joined.seq 7) (seqs 7 (run joined steps).1))
    × ((run joined steps).0.seq 7 ≡ joined.seq 7 + length (seqs 7 (run joined steps).1))
run-seq_example = run-seq joined steps 7

abbrev published : List (ℕ × Record ℕ)
published =
    (100, record { key = some 7; value = 0 })
    ∷ (101, record { key = some 8; value = 0 })
    ∷ (102, record { key = some 7; value = 0 })
    ∷ []

-- The numbers of project 7 have a gap, where no event is missing.
published_seqs :
    map {B = Option ℕ × ℕ} (λ e. (e.project_id, e.seq)) (publish_all 40 published)
    ≡ (some 7, 40) ∷ (some 8, 41) ∷ (some 7, 42) ∷ []
unfolding publish_all
published_seqs = refl

-- Socket 5 subscribes to project 7, sends something invalid, and disconnects.
abbrev subscribe_turn : Turn
subscribe_turn = record {
  during = λ m. m;
  now = 100;
  frame = json (some (record { action = Action.subscribe; project_id = 7 }));
  send = returns;
}

abbrev turns : List Turn
turns =
    subscribe_turn
    ∷ record { during = λ m. m; now = 101; frame = json none; send = returns }
    ∷ record { during = λ m. m; now = 102; frame = disconnects; send = returns }
    ∷ []

ended : (ws_endpoint joined 5 turns).status ≡ caught
unfolding ws_endpoint on_message
ended = refl

ws_endpoint-leaves_example : contains ((ws_endpoint joined 5 turns).manager.rooms 7) 5 ≡ false
ws_endpoint-leaves_example = ws_endpoint-leaves joined 5 turns ended 7

-- A text that is no JSON ends the endpoint, and the socket stays in its room.
abbrev broken : List Turn
broken = subscribe_turn ∷ record { during = λ m. m; now = 101; frame = fails; send = returns } ∷ []

stays_in_room :
    ((ws_endpoint joined 5 broken).status ≡ raised)
    × (contains ((ws_endpoint joined 5 broken).manager.rooms 7) 5 ≡ true)
unfolding ws_endpoint on_message subscribe
stays_in_room = (refl, refl)
