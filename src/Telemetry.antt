-- ===== src/Telemetry.antt =====
-- libs/wf_core/wf_core/telemetry.py: the set-up of tracing, and the trace context that travels in a
-- carrier, a dict. OpenTelemetry is not in the repository: what the code relies on is an interface
-- with the documented behaviour as laws.
use Prim.Native.String.{String}
use workfront_system.Base.{ℕ, ◌≡◌, Bool, true, Option, none, some, List, [], if◌then◌else◌}
use workfront_system.Config.{Environ, get_env}

abbrev pub Carrier : Type 0
Carrier = List (String × String)

pub record OpenTelemetry : Type 1 where
  pub Context : Type 0
  -- The trace of the span that a context holds.
  pub trace_id : Context → Option ℕ
  -- TraceContextTextMapPropagator, from the current context and to a new one
  pub inject : Context → Carrier → Carrier
  pub extract : Carrier → Context
  -- start_as_current_span(name, context=…)
  pub start_span : Context → Context
  pub round_trip :
      (current : Context) (carrier : Carrier) (trace : ℕ)
      → trace_id current ≡ some trace
      → trace_id (extract (inject current carrier)) ≡ some trace
  -- A span is of the trace of its parent.
  pub child :
      (parent : Context) (trace : ℕ)
      → trace_id parent ≡ some trace
      → trace_id (start_span parent) ≡ some trace

module _ (otel : OpenTelemetry) where
  open otel use {Context, inject, extract}

  abbrev pub inject_trace : Context → Carrier → Carrier
  inject_trace current carrier = inject current carrier

  -- `carrier or {}`
  abbrev pub extract_context : Option Carrier → Context
  extract_context none = extract []
  extract_context (some carrier) = extract carrier

-- The provider that set_tracer_provider is given.
pub record Provider : Type 0 where
  pub service_name : String
  pub endpoint : String
  pub insecure : Bool

-- `_initialized`, and the provider of the process.
pub record Tracing : Type 0 where
  pub initialized : Bool
  pub provider : Option Provider

abbrev pub setup_tracing : Environ → Tracing → String → Tracing
setup_tracing env tracing service_name = if tracing.initialized then tracing else (record {
  initialized = true;
  provider = some (record {
    service_name = service_name;
    endpoint = get_env env "OTEL_EXPORTER_OTLP_ENDPOINT" "http://localhost:4317";
    insecure = true;
  });
})
