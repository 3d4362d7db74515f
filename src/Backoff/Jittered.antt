-- ===== src/Backoff/Jittered.antt =====
-- backoff/backoff.go: the range of the exponential policy with jitter.
use cliros.Prelude.{ℕ, zero, suc, ◌≡◌, refl, sym, subst, Bool-cases, inl, inr, true, false, arith}
use cliros.Prelude.Int.{ℤ, pos, ◌≤ℤ◌, ltb_ℤ}
use cliros.Backoff.{Float64, Expontential, factor_or_default, base_of, raised, calc_jittered}
use cliros.Backoff.Capped.{Float64Laws, base_of-positive, factor_above}

module _ {fl : Float64} (laws : Float64Laws fl) where
  open fl use {
    Number, zero_number, one_number, of_duration, of_uint, to_duration, le, gt, mul, pow, max_of,
    ceil,
  }

  -- IEEE 754 and the functions of math; a comparison that holds says that neither side is NaN.
  pub record JitterLaws : Type 0 where
    pub le_transitive : (x y z : Number) → le x y ≡ true → le y z ≡ true → le x z ≡ true
    pub durations_le :
        (a b : ℤ) → a ≤ℤ b → b ≤ℤ laws.exact → le (of_duration a) (of_duration b) ≡ true
    pub duration_positive : (d : ℤ) → ltb_ℤ (pos 0) d ≡ true → gt (of_duration d) zero_number ≡ true
    -- A product with a number between 0 and 1, of a number that is not infinite.
    pub shrinks :
        (r y : Number) (d : ℤ)
        → le zero_number r ≡ true
        → le r one_number ≡ true
        → gt y zero_number ≡ true
        → le y (of_duration d) ≡ true
        → le (mul r y) y ≡ true
    pub max_le : (x y z : Number) → le x z ≡ true → le y z ≡ true → le (max_of x y) z ≡ true
    pub le_max : (x y z : Number) → le x z ≡ true → le y z ≡ true → le y (max_of x y) ≡ true
    -- A duration is a whole number, and rounding up stops at the next one.
    pub ceil_le :
        (x : Number) (d : ℤ) → le x (of_duration d) ≡ true → le (ceil x) (of_duration d) ≡ true
    pub le_ceil : (x y z : Number) → le y x ≡ true → le x z ≡ true → le y (ceil x) ≡ true
    pub to_duration_ge :
        (x : Number) (d limit : ℤ)
        → laws.least ≤ℤ d
        → d ≤ℤ limit
        → limit ≤ℤ laws.exact
        → le (of_duration d) x ≡ true
        → le x (of_duration limit) ≡ true
        → d ≤ℤ to_duration x

  module _ (jitter : JitterLaws) (lo hi : ℤ) (ordered : lo ≤ℤ hi)
      (positive : ltb_ℤ (pos 0) hi ≡ true) (small : hi ≤ℤ laws.exact)
      (least : laws.least ≤ℤ lo) where
    -- The rest of the computation, from a positive number that is not above `maxBackoff`.
    jittered-Between :
        (random capped : Number)
        → le zero_number random ≡ true
        → le random one_number ≡ true
        → gt capped zero_number ≡ true
        → le capped (of_duration hi) ≡ true
        → let d = to_duration (ceil (max_of (mul random capped) (of_duration lo))) in
          (lo ≤ℤ d) × (d ≤ℤ hi)
    jittered-Between random capped above below capped_positive low =
        let x = mul random capped in
        let y = of_duration lo in
        let top = of_duration hi in
        let x_low =
          jitter.le_transitive x capped top
            (jitter.shrinks random capped hi above below capped_positive low) low in
        let y_low = jitter.durations_le lo hi ordered small in
        let m = max_of x y in
        let m_low = jitter.max_le x y top x_low y_low in
        let c_low = jitter.ceil_le m hi m_low in
        let y_up = jitter.le_ceil m y top (jitter.le_max x y top x_low y_low) m_low in
        (
          jitter.to_duration_ge (ceil m) lo hi least ordered small y_up c_low,
          laws.to_duration_le (ceil m) hi positive small
              (jitter.le_transitive (of_duration laws.least) y (ceil m)
                (jitter.durations_le laws.least lo least (omega (arith, ordered, small))) y_up)
              c_low,
        )

    -- The number that is jittered.
    abbrev jittered : Number → Number → ℤ
    jittered random capped = to_duration (ceil (max_of (mul random capped) (of_duration lo)))

    at_limit :
        (e : Expontential fl) (random : Number) (retries : ℕ)
        → gt (raised fl e retries lo) (of_duration hi) ≡ true
        → calc_jittered fl e random (suc retries) lo hi ≡ jittered random (of_duration hi)
    unfolding calc_jittered
    at_limit e random retries over = rw (calc_jittered, positive, over) refl

    under_limit :
        (e : Expontential fl) (random : Number) (retries : ℕ)
        → gt (raised fl e retries lo) (of_duration hi) ≡ false
        → calc_jittered fl e random (suc retries) lo hi ≡ jittered random (raised fl e retries lo)
    unfolding calc_jittered
    under_limit e random retries under = rw (calc_jittered, positive, under) refl

    -- The exponential policy with jitter always answers a duration between `minBackoff` and
    -- `maxBackoff`, both included, for every number of the retry. `minBackoff` is not above
    -- `maxBackoff`, which is positive, float64 holds both exactly, the random number is between 0
    -- and 1, the factor is not NaN, and the operations obey the laws of IEEE 754 and of math,
    -- with infinities and NaN.
    pub calc_jittered-Between :
        (e : Expontential fl) (random : Number) (retries : ℕ)
        → (le e.exp_factor one_number ≡ false → gt e.exp_factor one_number ≡ true)
        → le zero_number random ≡ true
        → le random one_number ≡ true
        → let d = calc_jittered fl e random retries lo hi in (lo ≤ℤ d) × (d ≤ℤ hi)
    unfolding calc_jittered raised
    calc_jittered-Between e random zero number above below = (omega arith, ordered)
    calc_jittered-Between e random (suc retries) number above below =
        let factor_up = factor_above laws e.exp_factor number in
        let base_up = base_of-positive laws lo in
        elim (Bool-cases (gt (raised fl e retries lo) (of_duration hi))) [
          | inl over ↦
              subst (λ d. (lo ≤ℤ d) × (d ≤ℤ hi)) (sym (at_limit e random retries over))
                (jittered-Between random (of_duration hi) above below
                  (jitter.duration_positive hi positive) (laws.duration_number hi))
          | inr under ↦
              let base = base_of fl lo in
              let factor = factor_or_default fl e.exp_factor in
              subst (λ d. (lo ≤ℤ d) × (d ≤ℤ hi)) (sym (under_limit e random retries under))
                (jittered-Between random (raised fl e retries lo) above below
                  (laws.power_positive base factor retries base_up factor_up)
                  (laws.comparable (raised fl e retries lo) (of_duration hi)
                    (laws.power_number base factor retries base_up factor_up)
                    (laws.duration_number hi) under))
        ]
