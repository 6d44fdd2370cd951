-- ===== src/Retry/Policy.antt =====
-- retry/policies.go, retry/errors.go and the configuration of retry/retry.go.
use xutils.Prelude.{ℤ, Option, Bool}

-- `unsupported` is any other int.
pub data Policy : Type 0 where
  linear backoff infinite : Policy
  unsupported : ℤ → Policy

-- The errors of Do, over those of the retried function and of the context.
pub data Failure (E : Type 0) : Type 0 where
  -- an error of the function or of the context, as it is
  plain : E → Failure E
  -- *Error
  exhausted : Policy → ℤ → Option E → Failure E
  nil_function : Failure E
  bad_attempts : ℤ → Failure E
  bad_policy : Failure E
  no_context : Failure E

-- A Retry without a logger. `W` is the world that the function and the callbacks change; `is_exit` is
-- `errors.Is(err, ErrExit)`. The context, where there is one, is its Err method; `sleep` is a wait,
-- which a cancelled context interrupts with its error.
pub record Retry (W E : Type 0) : Type 0 where
  pub context : Option (W → Option E × W)
  pub max_attempts : ℤ
  pub policy : Policy
  pub delay : ℤ
  pub max_delay : ℤ
  pub on_failed : Option (W → W)
  pub on_success : Option (W → W)
  pub sleep : ℤ → W → Option E × W
  pub is_exit : E → Bool
