-- ===== src/Tests/Listening.antt =====
-- A subscriber (services/api/src/main.py) that loses its connection, and the theorems at it.
use workfront_system.Base.{ℕ, ◌≡◌, refl, true, some, List, [], ◌∷◌, ◌++◌, map}
use workfront_system.Ws.Manager.{ConnectionManager, new_manager, subscribe, push_local, drop_dead}
use workfront_system.Ws.Fanout.{Record, FanoutEvent, fanout_event, push_published, publish_all}
use workfront_system.Ws.Subscriber.{
  listening, Happening, subscribes, gets_other, arrives, raises, begin, receive, step, listen,
}
use workfront_system.Ws.Subscriber.Recovery.{listen-recovers}

program : Unit {0}
unfolding listen step receive push_published push_local drop_dead subscribe publish_all
program = tt

abbrev record_of : ℕ → Record ℕ
record_of value = record { key = some 7; value = value }

abbrev event : ℕ → FanoutEvent ℕ
event offset = fanout_event offset 100 (record_of 0)

abbrev joined : ConnectionManager
joined = subscribe new_manager 7 1

-- The event of offset 41 is lost.
abbrev happenings : List (Happening ℕ)
happenings =
    subscribes
    ∷ gets_other
    ∷ arrives (λ m. m) (λ ws. true) (event 40)
    ∷ raises
    ∷ arrives (λ m. m) (λ ws. true) (event 41)
    ∷ subscribes
    ∷ arrives (λ m. m) (λ ws. true) (event 42)
    ∷ []

abbrev log : List (ℕ × Record ℕ)
log = (100, record_of 0) ∷ (100, record_of 0) ∷ (100, record_of 0) ∷ []

reaches :
    map {B = ℕ × List ℕ} (λ x. (x.event.seq, x.sockets)) (listen (begin true joined) happenings).1
    ≡ (40, 1 ∷ []) ∷ (42, 1 ∷ []) ∷ []
unfolding program
reaches = refl

listen-recovers_example :
    listen
      (begin true joined)
      (happenings ++ raises ∷ subscribes ∷ arrives (λ m. m) (λ ws. true) (event 43) ∷ [])
    ≡ (
      record {
        phase = listening;
        manager =
            (push_published
              (listen (begin true joined) happenings).0.manager
              (λ m. m)
              (λ ws. true)
              (event 43)).0;
      },
      (listen (begin true joined) happenings).1
          ++ record {
            event = event 43;
            sockets =
                (push_published
                  (listen (begin true joined) happenings).0.manager
                  (λ m. m)
                  (λ ws. true)
                  (event 43)).1;
          }
            ∷ [],
    )
listen-recovers_example =
    listen-recovers joined happenings (λ m. m) (λ ws. true) (event 43) refl refl
