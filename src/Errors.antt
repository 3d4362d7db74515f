-- ===== src/Errors.antt =====
-- Go error values of the library (retry/retry.go, internal/executor/errors.go,
-- internal/inbox/inbox.go): the sentinels, the wrappers, `errors.As` and `errors.Is`.
use cliros.Prelude.{String, Bool, true, false, ◌||◌, Option, none, some}

-- `leaf` is any error with no `Unwrap` that is none of the sentinels; `wrap` is
-- `fmt.Errorf("text: %w", e)` and `join` is `fmt.Errorf("%w: %w", a, b)`.
pub data Error : Type 0 where
  leaf : String → Error
  no_rows : Error
  duplicate : Error
  max_retries_exceeded : Error
  wrap : String → Error → Error
  join : Error → Error → Error
  retryable : Error → Error
  action_error : Error → Error

-- The first value that a search found.
abbrev pub or_else : Option Error → Option Error → Option Error
or_else none b = b
or_else (some e) _ = some e

-- `errors.As(err, &retryable)`: some error of the tree is a `*RetryableError`.
unfoldable pub is_retryable : Error → Bool
is_retryable (retryable e) = true
is_retryable (wrap _ e) = is_retryable e
is_retryable (action_error e) = is_retryable e
is_retryable (join a b) = is_retryable a || is_retryable b
is_retryable _ = false

-- `errors.As(err, &ae)` for a `*actionError`, read with `ae.Unwrap()`: the error inside the first
-- `*actionError` of the tree.
unfoldable pub as_action_error : Error → Option Error
as_action_error (action_error e) = some e
as_action_error (wrap _ e) = as_action_error e
as_action_error (retryable e) = as_action_error e
as_action_error (join a b) = or_else (as_action_error a) (as_action_error b)
as_action_error _ = none

-- `errors.Is(err, inbox.ErrDuplicate)`
unfoldable pub is_duplicate : Error → Bool
is_duplicate duplicate = true
is_duplicate (wrap _ e) = is_duplicate e
is_duplicate (retryable e) = is_duplicate e
is_duplicate (action_error e) = is_duplicate e
is_duplicate (join a b) = is_duplicate a || is_duplicate b
is_duplicate _ = false

-- `errors.Is(err, sql.ErrNoRows)`
unfoldable pub is_no_rows : Error → Bool
is_no_rows no_rows = true
is_no_rows (wrap _ e) = is_no_rows e
is_no_rows (retryable e) = is_no_rows e
is_no_rows (action_error e) = is_no_rows e
is_no_rows (join a b) = is_no_rows a || is_no_rows b
is_no_rows _ = false
