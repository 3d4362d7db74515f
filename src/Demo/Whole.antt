-- ===== src/Demo/Whole.antt =====
-- Whole numbers with infinity and NaN, which are computed with as float64 does.
use cliros.Prelude.{ℕ, zero, suc, ◌*◌, Bool, true, false, ltb, leb, if◌then◌else◌}
use cliros.Prelude.Int.{ℤ, pos, negsuc, pos_part}
use cliros.Backoff.{Float64}

pub data Number : Type 0 where
  nan infinite : Number
  finite : ℕ → Number

abbrev pub power : ℕ → ℕ → ℕ
power b zero = 1
power b (suc n) = b * power b n

-- Each comparison with NaN is false.
abbrev pub le_number : Number → Number → Bool
le_number nan _ = false
le_number infinite nan = false
le_number infinite infinite = true
le_number infinite (finite _) = false
le_number (finite _) nan = false
le_number (finite _) infinite = true
le_number (finite a) (finite b) = leb a b

abbrev pub gt_number : Number → Number → Bool
gt_number nan _ = false
gt_number infinite nan = false
gt_number infinite infinite = false
gt_number infinite (finite _) = true
gt_number (finite _) nan = false
gt_number (finite _) infinite = false
gt_number (finite a) (finite b) = ltb b a

abbrev times_infinite : ℕ → Number
times_infinite zero = nan
times_infinite (suc _) = infinite

abbrev pub mul_number : Number → Number → Number
mul_number nan _ = nan
mul_number infinite nan = nan
mul_number infinite infinite = infinite
mul_number infinite (finite a) = times_infinite a
mul_number (finite _) nan = nan
mul_number (finite a) infinite = times_infinite a
mul_number (finite a) (finite b) = finite (a * b)

abbrev to_infinite : ℕ → Number
to_infinite zero = finite 0
to_infinite (suc zero) = finite 1
to_infinite (suc (suc _)) = infinite

abbrev pub pow_number : Number → Number → Number
pow_number _ (finite zero) = finite 1
pow_number nan _ = nan
pow_number infinite nan = nan
pow_number infinite _ = infinite
pow_number (finite b) nan = if ltb b 1 then nan else if ltb 1 b then nan else finite 1
pow_number (finite b) infinite = to_infinite b
pow_number (finite b) (finite (suc n)) = finite (power b (suc n))

abbrev pub max_number : Number → Number → Number
max_number nan infinite = infinite
max_number nan _ = nan
max_number infinite _ = infinite
max_number (finite _) nan = nan
max_number (finite _) infinite = infinite
max_number (finite a) (finite b) = finite (if leb a b then b else a)

-- What is out of range is converted to the least int64.
abbrev pub duration_of : Number → ℤ
duration_of nan = negsuc 9223372036854775807
duration_of infinite = negsuc 9223372036854775807
duration_of (finite n) = pos n

abbrev pub whole : Float64
whole = record {
  Number = Number;
  zero_number = finite 0;
  one_number = finite 1;
  two_number = finite 2;
  of_duration = λ d. finite (pos_part d);
  of_uint = λ n. finite n;
  to_duration = duration_of;
  le = le_number;
  gt = gt_number;
  mul = mul_number;
  pow = pow_number;
  max_of = max_number;
  ceil = λ x. x;
}
