-- ===== src/Effect/Rules.antt =====
-- Reasoning about a chain of calls, one rule for each way to build it.
use cliros.Prelude.{◌≡◌, refl, ◌⊎◌, inl, inr}
use cliros.Errors.{Error}
use cliros.Effect.{Result, ok, err, Io, ◌>>=◌, on_error, wrapping, deferring}

pub Result-cases :
    {A : Type 0} (r : Result A) → ((a : A) × (r ≡ ok a)) ⊎ ((e : Error) × (r ≡ err e))
Result-cases (ok a) = inl (a, refl)
Result-cases (err e) = inr (e, refl)

-- `on_error` changes no success into an error, nor back.
pub on_error-ok :
    {A : Type 0} (g : Error → Error) (r : Result A) {a : A} → on_error g r ≡ ok a → r ≡ ok a
on_error-ok g (ok a) e = e
on_error-ok g (err x) e = cc

pub on_error-err :
    {A : Type 0} (g : Error → Error) (r : Result A) {x : Error}
    → on_error g r ≡ err x
    → (y : Error) × (r ≡ err y)
on_error-err g (ok a) e = cc
on_error-err g (err y) e = (y, refl)

-- What holds of the result and the world that `m` leaves.
abbrev pub Ends : {W A : Type 0} → (Result A → W → Type 0) → Io W A → W → Type 0
Ends P m w = P (m w).0 (m w).1

module _ {W A B : Type 0} where
  split_bind :
      (P : Result B → W → Type 0) (f : A → Io W B) (r : Result A) (w : W)
      → ((a : A) → r ≡ ok a → Ends P (f a) w)
      → ((e : Error) → r ≡ err e → P (err e) w)
      → Ends P ((λ _. (r, w)) >>= f) w
  unfolding ◌>>=◌
  split_bind P f (ok a) w good bad = good a refl
  split_bind P f (err e) w good bad = bad e refl

  pub Ends-bind :
      (P : Result B → W → Type 0) (m : Io W A) (f : A → Io W B) (w : W)
      → ((a : A) → (m w).0 ≡ ok a → Ends P (f a) (m w).1)
      → ((e : Error) → (m w).0 ≡ err e → P (err e) (m w).1)
      → Ends P (m >>= f) w
  unfolding ◌>>=◌
  Ends-bind P m f w = split_bind P f (m w).0 (m w).1

module _ {W A : Type 0} where
  split_wrapping :
      (P : Result A → W → Type 0) (g : Error → Error) (r : Result A) (w : W)
      → ((a : A) → r ≡ ok a → P (ok a) w)
      → ((e : Error) → r ≡ err e → P (err (g e)) w)
      → P (on_error g r) w
  split_wrapping P g (ok a) w good bad = good a refl
  split_wrapping P g (err e) w good bad = bad e refl

  pub Ends-wrapping :
      (P : Result A → W → Type 0) (g : Error → Error) (m : Io W A) (w : W)
      → ((a : A) → (m w).0 ≡ ok a → P (ok a) (m w).1)
      → ((e : Error) → (m w).0 ≡ err e → P (err (g e)) (m w).1)
      → Ends P (wrapping g m) w
  unfolding wrapping
  Ends-wrapping P g m w = split_wrapping P g (m w).0 (m w).1

  pub Ends-deferring :
      (P : Result A → W → Type 0) (g : W → W) (m : Io W A) (w : W)
      → Ends (λ r w'. P r (g w')) m w
      → Ends P (deferring g m) w
  unfolding deferring
  Ends-deferring P g m w h = h
