-- ===== src/Effect.antt =====
-- How a Go call is read: a function of the world that it changes. `(T, error)` is a `Result`, where
-- the T beside an error is the zero value; a plain `error` is an `Option Error`, `none` for nil.
pub mod Rules
pub mod Follows
use cliros.Prelude.{Option, none, some}
use cliros.Errors.{Error}

pub data Result (A : Type 0) : Type 0 where
  ok : A → Result A
  err : Error → Result A

abbrev pub Io : Type 0 → Type 0 → Type 0
Io W A = W → Result A × W

abbrev pub pure : {W A : Type 0} → A → Io W A
pure a w = (ok a, w)

abbrev pub fail : {W A : Type 0} → Error → Io W A
fail e w = (err e, w)

-- `if err != nil { return err }`, then the rest.
infixl 5 ◌>>=◌ ◌>>◌
unfoldable pub ◌>>=◌ : {W A B : Type 0} → Io W A → (A → Io W B) → Io W B
◌>>=◌ m f w = let (r, w') = m w in elim r [ ok a ↦ f a w' | err e ↦ (err e, w') ]

abbrev pub ◌>>◌ : {W A B : Type 0} → Io W A → Io W B → Io W B
m >> k = m >>= λ _. k

-- `if err != nil { return f(err) }`
abbrev pub on_error : {A : Type 0} → (Error → Error) → Result A → Result A
on_error f (ok a) = ok a
on_error f (err e) = err (f e)

unfoldable pub wrapping : {W A : Type 0} → (Error → Error) → Io W A → Io W A
wrapping f m w = let (r, w') = m w in (on_error f r, w')

-- `defer g()`: `g` runs after the body, however the body returned.
unfoldable pub deferring : {W A : Type 0} → (W → W) → Io W A → Io W A
deferring g m w = let (r, w') = m w in (r, g w')

-- A call that returns only an `error`.
abbrev pub error_result : Option Error → Result (Unit {0})
error_result none = ok tt
error_result (some e) = err e

abbrev pub result_error : {A : Type 0} → Result A → Option Error
result_error (ok _) = none
result_error (err e) = some e
