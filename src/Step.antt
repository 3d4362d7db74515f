-- ===== src/Step.antt =====
-- step/step.go and step/routing.go: a step of a saga is a container of data.
pub mod Retries
use cliros.Prelude.{String, Option, none, some, List, str_eq, if◌then◌else◌}
use cliros.Errors.{Error, leaf}
use cliros.Effect.{Result, ok, err}
use cliros.Message.{Message, empty_message}
use cliros.Env.{Env, Action, ErrorHandler}
use cliros.Retry.{Retrier, retry}

pub record RoutingConfig : Type 0 where
  pub next_step_topics : List String
  pub error_topics : List String

module _ (env : Env) where
  open env use {World, Ctx, Tx, Any}

  -- `StepParams` and `Step` have the same fields. `execute` and `compensate` are callbacks that
  -- are there: a nil one panics when it is called.
  pub record Step : Type 0 where
    pub name : String
    pub execute : Action env
    pub compensate : Action env
    pub routing : RoutingConfig
    pub retry_policy : Option (Retrier env)
    pub on_error : Option (ErrorHandler env)
    pub on_compensate_error : Option (ErrorHandler env)

  -- `step.New`
  unfoldable pub new : Step → Result Step
  new p = if str_eq p.name "" then err (leaf "step name is required") else ok p

  -- One run of the closure of `WithRetry`: `result` is assigned only on success.
  abbrev pub keep_result :
      Message Any → (Message Any × Option Error) × World → Option Error × Message Any × World
  keep_result old ((res, none), w) = (none, res, w)
  keep_result old ((res, some e), w) = (some e, old, w)

  -- `WithRetry`
  unfoldable pub with_retry : Retrier env → ErrorHandler env → ErrorHandler env
  unfolding retry
  with_retry r handler ctx tx msg original w =
      let (failed, result, w') =
        retry env r ctx (λ inner old w₁. keep_result old (handler inner tx msg original w₁))
          empty_message w in
      ((result, failed), w')
