-- ===== src/Tests/Bridging.antt =====
-- A bridge (services/ws_fanout/src/main.py) that dies before it has committed an offset, and one that
-- meets a value that is no JSON.
use workfront_system.Base.{ℕ, ◌≡◌, refl, Option, some, none, List, [], ◌∷◌, map}
use workfront_system.Worker.Consumer.{arrives, drops, raises}
use workfront_system.Ws.Fanout.{Record}
use workfront_system.Ws.Relay.{
  Bridge, returns, Event, polls_nothing, polls, relay, respond, relay_all,
}
use workfront_system.Ws.Relay.Published.{Published}

abbrev log : List (Record (Option ℕ))
log =
    record { key = some 7; value = some 1 }
    ∷ record { key = some 8; value = some 2 }
    ∷ record { key = none; value = none }
    ∷ []

abbrev start : Bridge ℕ
start = record { position = 0; committed = 0; published = [] }

abbrev events : List Event
events =
    polls 100 returns raises
    ∷ polls 101 returns arrives
    ∷ polls_nothing
    ∷ polls 102 returns drops
    ∷ polls 103 returns arrives
    ∷ []

-- The first event is published twice, and the third record sends the bridge back to the second.
relayed :
    let end = relay_all log start events in
    (map {B = ℕ × ℕ} (λ e. (e.seq, e.ts)) end.published ≡ (0, 100) ∷ (0, 101) ∷ (1, 102) ∷ [])
    × (end.position ≡ 1)
unfolding relay_all respond relay
relayed = (refl, refl)
