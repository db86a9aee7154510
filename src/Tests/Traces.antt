-- ===== src/Tests/Traces.antt =====
-- The trace of a schedule move, through a router in memory, and the set-up of tracing
-- (libs/wf_core/wf_core/telemetry.py).
use Prim.Native.String.{String}
use workfront_system.Base.{
  List, ℕ, zero, suc, ◌≡◌, refl, ap, ◌∙◌, false, Option, none, some, [], ◌∷◌, length, ok,
}
use workfront_system.Cascade.Types.{inserted}
use workfront_system.Telemetry.{Carrier, OpenTelemetry, Tracing, setup_tracing}
use workfront_system.Store.Memory.{memory}
use workfront_system.Ws.Manager.{new_manager}
use workfront_system.Worker.Consumer.{Message, parse, fetch}
use workfront_system.Json.{Json}
use workfront_system.Worker.Tracing.{worker_span}
use workfront_system.Pipeline.Tracing.{move-Traced}
use workfront_system.Tests.Deliveries.{before}
use workfront_system.Tests.Requests.{around, body, move}
use workfront_system.Tests.Relaying.{router, settings, log}

-- A number as that many entries, and one more.
abbrev written : ℕ → Carrier
written zero = ("traceparent", "00-3") ∷ []
written (suc n) = ("traceparent", "00-3") ∷ written n

abbrev inject : Option ℕ → Carrier → Carrier
inject none carrier = carrier
inject (some trace) carrier = written trace

abbrev extract : Carrier → Option ℕ
extract [] = none
extract (entry ∷ carrier) = some (length carrier)

length-written : (n : ℕ) → length (written n) ≡ suc n
length-written zero = refl
length-written (suc n) = ap suc (length-written n)

extract-written : (n : ℕ) → extract (written n) ≡ some n
extract-written zero = refl
extract-written (suc n) = ap some (length-written n)

-- A context is the trace of its span.
abbrev spans : OpenTelemetry
spans = record {
  Context = Option ℕ;
  trace_id = λ c. c;
  inject = inject;
  extract = extract;
  start_span = λ c. c;
  round_trip = λ c k trace e. ap (λ x. extract (inject x k)) e ∙ extract-written trace;
  child = λ c trace e. e;
}

move-Traced_example :
    (i : ℕ) × (msg : Message) × (payload : List (String × Json)) × (fetch log i ≡ some msg)
    × (msg.value ≡ some payload)
    × (parse msg ≡ ok (70, 1))
    × (spans.trace_id (worker_span spans payload) ≡ some 0)
move-Traced_example =
    move-Traced memory inserted router spans settings around before new_manager 1 body (some 2) 9
      (some 0) 0 refl move refl

-- The name of a process is the first that is given.
abbrev fresh : Tracing
fresh = record { initialized = false; provider = none }

setup_twice :
    setup_tracing (λ _. none) (setup_tracing (λ _. none) fresh "workfront-api") "workfront-worker"
    ≡ setup_tracing (λ _. none) fresh "workfront-api"
setup_twice = refl
