-- ===== src/Metrics.antt =====
-- internal/observability/metrics/metrics.go (and its copy observability/metrics/metrics.go): what
-- is recorded of a step and of a saga, and the registration of the instruments. A `*Metrics` is nil or not: `true` for one that is there.
pub mod Registered
mod Tests
use cliros.Prelude.{ℕ, String, Bool, true, false, Option, none, some, List, [], ◌∷◌}
use cliros.Errors.{Error}
use cliros.Effect.{Result, ok, err}
use cliros.Env.{Env}

-- The label `status`.
unfoldable pub status_of : Option Error → String
status_of none = "success"
status_of (some _) = "failure"

-- The options of an instrument, with its labels.
pub record Collector : Type 0 where
  pub subsystem : String
  pub name : String
  pub help : String
  pub labels : List String

unfoldable pub collectors : String → List Collector
collectors subsystem =
    record {
      subsystem = subsystem;
      name = "steps_total";
      help = "Total number of saga steps executed by operation and status";
      labels = "step" ∷ "operation" ∷ "status" ∷ [];
    }
    ∷ record {
      subsystem = subsystem;
      name = "step_duration_seconds";
      help = "Duration of saga step execution in seconds";
      labels = "step" ∷ "operation" ∷ [];
    }
    ∷ record {
      subsystem = subsystem;
      name = "started_total";
      help = "Total number of sagas started (only for synchronous StartSaga/StartSagaWithSteps)";
      labels = [];
    }
    ∷ []

-- `registry.Register` of a registry.
module _ {W : Type 0} (register : Collector → W → Option Error × W) where
  -- The loop of `New`.
  unfoldable pub register_all : List Collector → W → Option Error × W
  register_all [] w = (none, w)
  register_all (c ∷ cs) w =
      let (failed, w') = register c w in
      elim failed [ some x ↦ (some x, w') | none ↦ register_all cs w' ]

  abbrev pub registered_as : Option Error × W → Result Bool × W
  registered_as (none, w) = (ok true, w)
  registered_as (some x, w) = (err x, w)

  -- `New`; the registry is nil or not.
  unfoldable pub new : Bool → String → W → Result Bool × W
  unfolding collectors register_all
  new false subsystem w = (ok false, w)
  new true subsystem w = registered_as (register_all (collectors subsystem) w)

module _ (env : Env) where
  open env use {World, steps_total_inc, step_duration_observe, saga_started_inc as started_inc}

  -- `Metrics.ObserveStep`
  unfoldable pub observe_step : Bool → String → String → ℕ → Option Error → World → World
  unfolding status_of
  observe_step false step operation duration failed w = w
  observe_step true step operation duration failed w =
      step_duration_observe step operation duration
        (steps_total_inc step operation (status_of failed) w)

  -- `Metrics.SagaStartedInc`
  unfoldable pub saga_started_inc : Bool → World → World
  saga_started_inc false w = w
  saga_started_inc true w = started_inc w
