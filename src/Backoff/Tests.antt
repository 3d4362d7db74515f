-- ===== src/Backoff/Tests.antt =====
-- The policies over whole numbers with infinity and NaN.
use cliros.Prelude.{ℕ, zero, suc, ◌*◌, ◌≤◌, ◌≡◌, refl, true, false, arith}
use cliros.Prelude.Int.{ℤ, pos, negsuc, pos_part, ◌≤ℤ◌, ltb_ℤ}
use cliros.Backoff.{calc_backoff, calc_jittered}
use cliros.Demo.Whole.{
  Number, nan, infinite, finite, whole, power, le_number, gt_number, mul_number, pow_number,
  max_number, duration_of,
}
use cliros.Backoff.Jittered.{JitterLaws, calc_jittered-Between}
use cliros.Backoff.Capped.{Float64Laws, calc_backoff-le}

mul_positive : (a b : ℕ) → 1 ≤ a → 1 ≤ b → 1 ≤ a * b
mul_positive zero b h k = absurd (omega (arith, h))
mul_positive (suc a) b h k = ground (arith, k)

power_positive : (b n : ℕ) → 1 ≤ b → 1 ≤ power b n
power_positive b zero h = omega arith
power_positive b (suc n) h = mul_positive b (power b n) h (power_positive b n h)

-- A power of a number above 1 is positive.
whole_power :
    (factor : Number) (n : ℕ)
    → gt_number factor (finite 1) ≡ true
    → gt_number (pow_number factor (finite n)) (finite 0) ≡ true
whole_power factor zero h = refl
whole_power nan (suc n) h = absurd (ground (arith, h))
whole_power infinite (suc n) h = refl
whole_power (finite b) (suc n) h = ground (arith, power_positive b (suc n) (ground (arith, h)))

-- The product of positive numbers is positive.
whole_product :
    (x y : Number)
    → gt_number x (finite 0) ≡ true
    → gt_number y (finite 0) ≡ true
    → gt_number (mul_number x y) (finite 0) ≡ true
whole_product nan y h k = absurd (ground (arith, h))
whole_product infinite nan h k = absurd (ground (arith, k))
whole_product infinite infinite h k = refl
whole_product infinite (finite zero) h k = absurd (ground (arith, k))
whole_product infinite (finite (suc n)) h k = refl
whole_product (finite a) nan h k = absurd (ground (arith, k))
whole_product (finite zero) infinite h k = absurd (ground (arith, h))
whole_product (finite (suc a)) infinite h k = refl
whole_product (finite a) (finite b) h k =
    ground (arith, mul_positive a b (ground (arith, h)) (ground (arith, k)))

whole_number : (x : Number) → gt_number x (finite 0) ≡ true → le_number x x ≡ true
whole_number nan h = absurd (ground (arith, h))
whole_number infinite h = refl
whole_number (finite a) h = ground arith

whole_comparable :
    (x y : Number)
    → le_number x x ≡ true
    → le_number y y ≡ true
    → gt_number x y ≡ false
    → le_number x y ≡ true
whole_comparable nan y h k e = absurd (ground (arith, h))
whole_comparable infinite nan h k e = absurd (ground (arith, k))
whole_comparable infinite infinite h k e = refl
whole_comparable infinite (finite b) h k e = absurd (ground (arith, e))
whole_comparable (finite a) nan h k e = absurd (ground (arith, k))
whole_comparable (finite a) infinite h k e = refl
whole_comparable (finite a) (finite b) h k e = ground (arith, e)

whole_to_duration :
    (x : Number) (d : ℤ)
    → ltb_ℤ (pos 0) d ≡ true
    → le_number x (finite (pos_part d)) ≡ true
    → duration_of x ≤ℤ d
whole_to_duration nan d p h = absurd (ground (arith, h))
whole_to_duration infinite d p h = absurd (ground (arith, h))
whole_to_duration (finite x) (pos n) p h = ground (arith, h)
whole_to_duration (finite x) (negsuc n) p h = absurd (ground (arith, p))

whole_above : (x : Number) → gt_number x (finite 0) ≡ true → le_number (finite 0) x ≡ true
whole_above nan h = absurd (ground (arith, h))
whole_above infinite h = refl
whole_above (finite a) h = ground arith

abbrev whole_laws : Float64Laws whole
whole_laws = record {
  least = pos 0;
  exact = pos 1000;
  to_duration_le = λ x d p small h k. whole_to_duration x d p k;
  above_least = λ x h. whole_above x h;
  comparable = whole_comparable;
  duration_number = λ d. ground arith;
  power_number = λ base factor n b f.
      whole_number (mul_number base (pow_number factor (finite n)))
        (whole_product base (pow_number factor (finite n)) b (whole_power factor n f));
  power_positive = λ base factor n b f.
      whole_product base (pow_number factor (finite n)) b (whole_power factor n f);
  one_positive = refl;
  two_above = refl;
  durations_ordered = λ d h. ground (arith, h);
}

-- 3 * 2 ^ 4 is capped.
calc_backoff-le_example :
    calc_backoff whole (record { exp_factor = finite 2 }) 5 (pos 3) (pos 40) ≤ℤ pos 40
calc_backoff-le_example =
    calc_backoff-le whole_laws (record { exp_factor = finite 2 }) 4 (pos 3) (pos 40) (λ h. refl)
      refl (omega arith)

not_le_nan : (x : Number) → ¬ (le_number x nan ≡ true)
not_le_nan nan h = ground (arith, h)
not_le_nan infinite h = ground (arith, h)
not_le_nan (finite a) h = ground (arith, h)

whole_transitive :
    (x y z : Number) → le_number x y ≡ true → le_number y z ≡ true → le_number x z ≡ true
whole_transitive nan y z h k = absurd (ground (arith, h))
whole_transitive x nan z h k = absurd (ground (arith, k))
whole_transitive x y nan h k = absurd (not_le_nan y k)
whole_transitive infinite infinite z h k = k
whole_transitive infinite (finite b) z h k = absurd (ground (arith, h))
whole_transitive (finite a) y infinite h k = refl
whole_transitive (finite a) infinite (finite c) h k = absurd (ground (arith, k))
whole_transitive (finite a) (finite b) (finite c) h k = ground (arith, h, k)

-- Of a number that is not infinite.
whole_shrinks :
    (r y : Number) (n : ℕ)
    → le_number r (finite 1) ≡ true
    → le_number y (finite n) ≡ true
    → le_number (mul_number r y) y ≡ true
whole_shrinks nan y n h k = absurd (ground (arith, h))
whole_shrinks infinite y n h k = absurd (ground (arith, h))
whole_shrinks (finite a) nan n h k = absurd (ground (arith, k))
whole_shrinks (finite a) infinite n h k = absurd (ground (arith, k))
whole_shrinks (finite zero) (finite b) n h k = ground arith
whole_shrinks (finite (suc zero)) (finite b) n h k = ground arith
whole_shrinks (finite (suc (suc a))) (finite b) n h k = absurd (ground (arith, h))

whole_max :
    (x y z : Number)
    → le_number x z ≡ true
    → le_number y z ≡ true
    → (le_number (max_number x y) z ≡ true) × (le_number y (max_number x y) ≡ true)
whole_max nan y z h k = absurd (ground (arith, h))
whole_max infinite nan z h k = absurd (ground (arith, k))
whole_max infinite infinite z h k = (h, refl)
whole_max infinite (finite b) z h k = (h, refl)
whole_max (finite a) nan z h k = absurd (ground (arith, k))
whole_max (finite a) infinite z h k = (k, refl)
whole_max (finite a) (finite b) nan h k = absurd (ground (arith, h))
whole_max (finite a) (finite b) infinite h k = (refl, ground arith)
whole_max (finite a) (finite b) (finite c) h k = (ground (arith, h, k), ground arith)

whole_from_duration :
    (x : Number) (d : ℤ) (n : ℕ)
    → le_number (finite (pos_part d)) x ≡ true
    → le_number x (finite n) ≡ true
    → d ≤ℤ duration_of x
whole_from_duration nan d n h k = absurd (ground (arith, h))
whole_from_duration infinite d n h k = absurd (ground (arith, k))
whole_from_duration (finite x) (pos m) n h k = ground (arith, h)
whole_from_duration (finite x) (negsuc m) n h k = ground arith

abbrev whole_jitter : JitterLaws whole_laws
whole_jitter = record {
  le_transitive = whole_transitive;
  durations_le = λ a b h small. ground arith;
  duration_positive = λ d h. ground arith;
  shrinks = λ r y d a b p n. whole_shrinks r y (pos_part d) b n;
  max_le = λ x y z a b. (whole_max x y z a b).0;
  le_max = λ x y z a b. (whole_max x y z a b).1;
  ceil_le = λ x d h. h;
  le_ceil = λ x y z h k. h;
  to_duration_ge = λ x d limit low below small h k. whole_from_duration x d (pos_part limit) h k;
}

-- 1 * 3 * 2 ^ 4 is capped, and 3 is the least answer.
calc_jittered-Between_example :
    (pos 3 ≤ℤ calc_jittered whole (record { exp_factor = finite 2 }) (finite 1) 5 (pos 3) (pos 40))
    × (calc_jittered whole (record { exp_factor = finite 2 }) (finite 1) 5 (pos 3) (pos 40)
        ≤ℤ pos 40)
calc_jittered-Between_example =
    calc_jittered-Between whole_laws whole_jitter (pos 3) (pos 40) (omega arith) refl (omega arith)
      (omega arith) (record { exp_factor = finite 2 }) (finite 1) 5 (λ h. refl) refl refl
