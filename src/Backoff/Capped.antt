-- ===== src/Backoff/Capped.antt =====
-- backoff/backoff.go: the exponential policy and its upper bound.
use cliros.Prelude.{ℕ, suc, ◌≡◌, Bool-cases, inl, inr, true, false, arith}
use cliros.Prelude.Int.{ℤ, pos, ◌≤ℤ◌, ltb_ℤ}
use cliros.Backoff.{Float64, Expontential, factor_or_default, base_of, raised, calc_backoff}

module _ (fl : Float64) where
  open fl use {
    Number, zero_number, one_number, two_number, of_duration, of_uint, to_duration, le, gt, mul,
    pow,
  }

  -- IEEE 754, math.Pow and Go's conversions, for durations from `least`, which is not positive, to
  -- `exact`: float64 holds them exactly. A number `x` is not NaN where `le x x` holds.
  pub record Float64Laws : Type 0 where
    pub least : ℤ
    pub exact : ℤ
    -- A number between two of these durations is converted to one that is not above the second.
    pub to_duration_le :
        (x : Number) (d : ℤ)
        → ltb_ℤ (pos 0) d ≡ true
        → d ≤ℤ exact
        → le (of_duration least) x ≡ true
        → le x (of_duration d) ≡ true
        → to_duration x ≤ℤ d
    pub above_least : (x : Number) → gt x zero_number ≡ true → le (of_duration least) x ≡ true
    -- Of two numbers that are not NaN, one that is not greater is less or equal.
    pub comparable : (x y : Number) → le x x ≡ true → le y y ≡ true → gt x y ≡ false → le x y ≡ true
    pub duration_number : (d : ℤ) → le (of_duration d) (of_duration d) ≡ true
    -- The product of a positive number and a power of one above 1 may be infinite, but not NaN.
    pub power_number :
        (base factor : Number) (n : ℕ)
        → gt base zero_number ≡ true
        → gt factor one_number ≡ true
        → let x = mul base (pow factor (of_uint n)) in le x x ≡ true
    pub power_positive :
        (base factor : Number) (n : ℕ)
        → gt base zero_number ≡ true
        → gt factor one_number ≡ true
        → gt (mul base (pow factor (of_uint n))) zero_number ≡ true
    pub one_positive : gt one_number zero_number ≡ true
    pub two_above : gt two_number one_number ≡ true
    pub durations_ordered :
        (d : ℤ) → le (of_duration d) zero_number ≡ false → gt (of_duration d) zero_number ≡ true

module _ {fl : Float64} (laws : Float64Laws fl) where
  open fl use {Number, zero_number, one_number, le, gt, of_duration}

  pub base_of-positive : (d : ℤ) → gt (base_of fl d) zero_number ≡ true
  unfolding base_of
  base_of-positive d = elim (Bool-cases (le (of_duration d) zero_number)) [
    | inl low ↦ rw low laws.one_positive
    | inr high ↦ rw high (laws.durations_ordered d high)
  ]

  pub factor_above :
      (x : Number)
      → (le x one_number ≡ false → gt x one_number ≡ true)
      → gt (factor_or_default fl x) one_number ≡ true
  unfolding factor_or_default
  factor_above x number = elim (Bool-cases (le x one_number)) [
    | inl low ↦ rw low laws.two_above
    | inr high ↦ rw high (number high)
  ]

  -- From the first retry on, the exponential policy answers no more than `maxBackoff`, however
  -- large the power is, also where it is infinite. `maxBackoff` is positive and float64 holds it
  -- exactly, the factor is not NaN, and the operations obey the laws of IEEE 754 and of math.Pow.
  pub calc_backoff-le :
      (e : Expontential fl) (retries : ℕ) (min_backoff max_backoff : ℤ)
      → (le e.exp_factor one_number ≡ false → gt e.exp_factor one_number ≡ true)
      → ltb_ℤ (pos 0) max_backoff ≡ true
      → max_backoff ≤ℤ laws.exact
      → calc_backoff fl e (suc retries) min_backoff max_backoff ≤ℤ max_backoff
  unfolding calc_backoff raised
  calc_backoff-le e retries min_backoff max_backoff number positive small =
      let base = base_of fl min_backoff in
      let factor = factor_or_default fl e.exp_factor in
      let base_up = base_of-positive min_backoff in
      let factor_up = factor_above e.exp_factor number in
      elim (Bool-cases (gt (raised fl e retries min_backoff) (of_duration max_backoff))) [
        | inl above ↦ simp (positive, above) (omega arith)
        | inr below ↦
            simp (positive, below)
              (laws.to_duration_le (raised fl e retries min_backoff) max_backoff positive small
                (laws.above_least (raised fl e retries min_backoff)
                  (laws.power_positive base factor retries base_up factor_up))
                (laws.comparable (raised fl e retries min_backoff) (of_duration max_backoff)
                  (laws.power_number base factor retries base_up factor_up)
                  (laws.duration_number max_backoff) below))
      ]
