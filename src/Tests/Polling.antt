-- ===== src/Tests/Polling.antt =====
-- A run of the consumer (services/worker/src/consumer.py) over the database in memory, and the
-- theorems at it.
use workfront_system.Base.{◌+◌, ◌≤◌, ◌≡◌, refl, ◌⊎◌, arith, some, none, List, [], ◌∷◌, map, length}
use workfront_system.Cascade.Types.{inserted}
use workfront_system.Store.Tables.{Tables}
use workfront_system.Store.Memory.{memory}
use workfront_system.Store.Session.{session_scope}
use workfront_system.Json.{id_text, uuid}
use workfront_system.Worker.Consumer.{
  Message, Consumer, Around, Calls, arrives, delivered, Event, polls, dies, polls_nothing, parse,
  settle, attempt, handle, crash, react, run,
}
use workfront_system.Worker.Consumer.Accounted.{Accounted, KeepsMarks, run-Accounted}
use workfront_system.Worker.Consumer.Progress.{count_conflicts, run-progress}
use workfront_system.Tests.Deliveries
use workfront_system.Tests.Deliveries.{before, after}

program : Unit {0}
unfolding run react handle crash attempt settle parse session_scope Deliveries.program
program = tt

-- The second message has no id.
abbrev log : List Message
log =
    record {
      key = 7;
      headers = ("id", uuid 99) ∷ [];
      value = some (("task_id", id_text (uuid 1)) ∷ []);
    }
    ∷ record { key = 7; headers = []; value = none }
    ∷ []

abbrev start : Consumer Tables
start = record { database = before; position = 0; committed = 0; dead_letters = [] }

abbrev arrived : Calls
arrived = record { commit = arrives; letter = delivered; last_commit = arrives }

abbrev quiet : Around Tables
quiet = record {
  before = λ s. s;
  others = λ s. s;
  new_id = 55;
  commit_raises = none;
  calls = arrived;
}

-- The worker dies before it commits the first offset, and gets the message again.
abbrev events : List (Event Tables)
events = dies quiet ∷ polls quiet ∷ polls quiet ∷ polls_nothing ∷ []

abbrev end : Consumer Tables
end = record {
  database = after;
  position = 2;
  committed = 2;
  dead_letters = record { key = 7; headers = []; value = none } ∷ [];
}

ran : run memory inserted log start events ≡ end
unfolding program
ran = refl

keeps : KeepsMarks memory (polls quiet)
keeps = (λ s g e old. old, λ s g e old. old, λ e. cc)

run-Accounted_example : Accounted memory log (run memory inserted log start events)
run-Accounted_example =
    run-Accounted memory inserted log start events
      ((λ s g e old. old, λ s g e old. old), (keeps, (keeps, (tt, tt))))
      (record { behind = omega arith; handled = λ i msg at below. absurd (omega arith) })

run-progress_example :
    (length log ≤ (run memory inserted log start (map polls (quiet ∷ []))).position)
    ⊎ ((run memory inserted log start (map polls (quiet ∷ []))).position
          + count_conflicts memory inserted log start (quiet ∷ [])
        ≡ 0 + length (quiet ∷ []))
run-progress_example = run-progress memory inserted log start (quiet ∷ []) ((λ e. cc, λ e. cc), tt)
