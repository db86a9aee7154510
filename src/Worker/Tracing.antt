-- ===== src/Worker/Tracing.antt =====
-- The span that services/worker/src/consumer.py handles a message in.
use Prim.Native.String.{String}
use workfront_system.Base.{Option, some, none, List}
use workfront_system.Json.{Json, carrier, json_get}
use workfront_system.Telemetry.{Carrier, OpenTelemetry, extract_context}

-- A field that is no object has no context.
abbrev pub as_carrier : Option Json → Option Carrier
as_carrier none = none
as_carrier (some (carrier k)) = some k
as_carrier (some _) = none

module _ (otel : OpenTelemetry) where
  open otel use {Context, start_span}

  -- `extract_context(payload.get("_trace", {}))`
  abbrev pub worker_span : List (String × Json) → Context
  worker_span payload = start_span (extract_context otel (as_carrier (json_get payload "_trace")))
