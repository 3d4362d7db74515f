-- ===== src/Tracing.antt =====
-- internal/observability/tracing (carrier.go, propagation.go, span.go): the trace context inside a
-- message, and the spans of a saga and of its steps.
pub mod Carrier
use cliros.Prelude.{String, Option, none, some, List, [], ◌∷◌, str_eq, if◌then◌else◌}
use cliros.Errors.{Error}
use cliros.Message.{Message}
use cliros.Env.{Env}

-- `MessageCarrier`, whose pointer may be nil.
abbrev pub MessageCarrier : Type 0 → Type 0
MessageCarrier A = Option (Message A)

module _ {A : Type 0} where
  -- `MessageCarrier.Get`
  unfoldable pub carrier_get : MessageCarrier A → String → String
  carrier_get none key = ""
  carrier_get (some m) key =
      if str_eq key "traceparent"
      then m.traceparent
      else if str_eq key "tracestate"
      then m.tracestate
      else ""

  -- The `switch` of `Set`.
  unfoldable pub set_field : Message A → String → String → Message A
  set_field m key value =
      if str_eq key "traceparent"
      then record m { meta = record m.meta { traceparent = value } }
      else if str_eq key "tracestate"
      then record m { meta = record m.meta { tracestate = value } }
      else m

  -- `MessageCarrier.Set`, which writes through the pointer.
  unfoldable pub carrier_set : MessageCarrier A → String → String → MessageCarrier A
  unfolding set_field
  carrier_set none key value = none
  carrier_set (some m) key value = some (set_field m key value)

  -- `MessageCarrier.Keys`
  unfoldable pub carrier_keys : MessageCarrier A → List String
  carrier_keys c = "traceparent" ∷ "tracestate" ∷ []

  -- The `Set` calls of a propagator, in order.
  unfoldable pub set_all : MessageCarrier A → List (String × String) → MessageCarrier A
  unfolding carrier_set
  set_all c [] = c
  set_all c ((key, value) ∷ rest) = set_all (carrier_set c key value) rest

abbrev pub carried : {A : Type 0} → Message A → MessageCarrier A → Message A
carried m none = m
carried m (some m') = m'

-- `resolveTracerName`
unfoldable pub resolve_tracer_name : String → String
resolve_tracer_name name = if str_eq name "" then "saga" else name

-- `spanName`
unfoldable pub span_name : String → String
span_name operation =
    if str_eq operation "compensate" then "saga.step.compensate" else "saga.step.execute"

module _ (env : Env) where
  open env use {
    World, Ctx, Any, Span, Tracer, otel_tracer, start_span, record_error, set_error_status,
    end_span, inject_pairs, extract,
  }

  -- `InjectTraceContext`, on a message that is there.
  unfoldable pub inject_trace_context : Ctx → Message Any → Message Any
  unfolding set_all
  inject_trace_context ctx m = carried m (set_all (some m) (inject_pairs ctx))

  -- `ExtractTraceContext`
  unfoldable pub extract_trace_context : Ctx → Message Any → Ctx
  unfolding carrier_get
  extract_trace_context ctx m = extract ctx (carrier_get (some m))

  -- `getTracer`
  unfoldable pub get_tracer : Option Tracer → String → Tracer
  unfolding resolve_tracer_name
  get_tracer (some t) name = t
  get_tracer none name = otel_tracer (resolve_tracer_name name)

  -- `StartStepSpan`
  unfoldable pub start_step_span :
      Ctx → Option Tracer → String → String → String → String → World → (Ctx × Span) × World
  unfolding get_tracer span_name
  start_step_span ctx tr tracer_name saga_id step_name operation w =
      start_span ctx (get_tracer tr tracer_name) (span_name operation) "consumer"
        (("saga.id", saga_id) ∷ ("step.name", step_name) ∷ ("step.operation", operation) ∷ []) w

  -- `StartSagaSpan`
  unfoldable pub start_saga_span :
      Ctx → Option Tracer → String → String → World → (Ctx × Span) × World
  unfolding get_tracer
  start_saga_span ctx tr tracer_name saga_id w =
      start_span ctx (get_tracer tr tracer_name) "saga.start" "internal" (("saga.id", saga_id) ∷ [])
        w

  -- `EndStepSpan`
  unfoldable pub end_step_span : Span → Option Error → World → World
  end_step_span span none w = end_span span w
  end_step_span span (some e) w = end_span span (set_error_status span e (record_error span e w))
