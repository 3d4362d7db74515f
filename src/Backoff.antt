-- ===== src/Backoff.antt =====
-- backoff/backoff.go: the two policies, over the operations of float64 and math.
pub mod Capped
pub mod Jittered
mod Tests
use cliros.Prelude.{ℕ, zero, suc, Bool, ◌&&◌, if◌then◌else◌}
use cliros.Prelude.Int.{ℤ, pos, ltb_ℤ}

-- float64: its conversions, comparisons and the functions of math and math/rand that are used.
pub record Float64 : Type 1 where
  pub Number : Type 0
  pub zero_number : Number
  pub one_number : Number
  pub two_number : Number
  -- `float64(d)`, `float64(n)` and `time.Duration(x)`
  pub of_duration : ℤ → Number
  pub of_uint : ℕ → Number
  pub to_duration : Number → ℤ
  -- `x <= y` and `x > y`
  pub le : Number → Number → Bool
  pub gt : Number → Number → Bool
  pub mul : Number → Number → Number
  pub pow : Number → Number → Number
  pub max_of : Number → Number → Number
  pub ceil : Number → Number

module _ (fl : Float64) where
  open fl use {
    Number, zero_number, one_number, two_number, of_duration, of_uint, to_duration, le, gt, mul,
    pow, max_of, ceil,
  }

  -- `if factor <= 1 { factor = defaultExpFactor }`
  unfoldable pub factor_or_default : Number → Number
  factor_or_default factor = if le factor one_number then two_number else factor

  -- `Expontential` and `ExpontentialWithJitter`
  pub record Expontential : Type 0 where
    pub exp_factor : Number

  -- `NewExpontential` and `NewExpontentialWithJitter`
  unfoldable pub new_expontential : Number → Expontential
  unfolding factor_or_default
  new_expontential factor = record { exp_factor = factor_or_default factor }

  unfoldable pub base_of : ℤ → Number
  base_of min_backoff =
      if le (of_duration min_backoff) zero_number then one_number else of_duration min_backoff

  -- `base * math.Pow(factor, float64(retryNumber-1))`
  unfoldable pub raised : Expontential → ℕ → ℤ → Number
  unfolding factor_or_default base_of
  raised e retries min_backoff =
      mul (base_of min_backoff) (pow (factor_or_default e.exp_factor) (of_uint retries))

  -- `Expontential.CalcBackoff`
  unfoldable pub calc_backoff : Expontential → ℕ → ℤ → ℤ → ℤ
  calc_backoff e zero min_backoff max_backoff = min_backoff
  calc_backoff e (suc retries) min_backoff max_backoff =
      let backoff = raised e retries min_backoff in
      if ltb_ℤ (pos 0) max_backoff && gt backoff (of_duration max_backoff)
      then max_backoff
      else to_duration backoff

  -- `ExpontentialWithJitter.CalcBackoff`, with the number of `rand.Float64()`.
  unfoldable pub calc_jittered : Expontential → Number → ℕ → ℤ → ℤ → ℤ
  calc_jittered e random zero min_backoff max_backoff = min_backoff
  calc_jittered e random (suc retries) min_backoff max_backoff =
      let backoff = raised e retries min_backoff in
      let capped =
        if ltb_ℤ (pos 0) max_backoff && gt backoff (of_duration max_backoff)
        then of_duration max_backoff
        else backoff in
      to_duration (ceil (max_of (mul random capped) (of_duration min_backoff)))
