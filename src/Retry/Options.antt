-- ===== src/Retry/Options.antt =====
-- retry/options.go and New (retry/retry.go), without the logger.
use xutils.Prelude.{ℤ, pos, List, [], ◌∷◌, Option, none, Bool}
use xutils.Retry.Policy.{Policy, backoff, Retry}

-- The functions With…; a nil context or callback is `none`.
pub data RetryOption (W E : Type 0) : Type 0 where
  with_max_attempts : ℤ → RetryOption W E
  with_policy : Policy → RetryOption W E
  with_delay : ℤ → RetryOption W E
  with_max_delay : ℤ → RetryOption W E
  with_context : Option (W → Option E × W) → RetryOption W E
  with_on_failed : Option (W → W) → RetryOption W E
  with_on_success : Option (W → W) → RetryOption W E

module _ {W E : Type 0} where
  abbrev pub set_max_attempts : ℤ → Retry W E → Retry W E
  set_max_attempts n r = record r { max_attempts = n }

  abbrev pub set_policy : Policy → Retry W E → Retry W E
  set_policy p r = record r { policy = p }

  abbrev pub set_delay : ℤ → Retry W E → Retry W E
  set_delay d r = record r { delay = d }

  abbrev pub set_max_delay : ℤ → Retry W E → Retry W E
  set_max_delay d r = record r { max_delay = d }

  abbrev pub set_context : Option (W → Option E × W) → Retry W E → Retry W E
  set_context c r = record r { context = c }

  abbrev pub set_on_failed : Option (W → W) → Retry W E → Retry W E
  set_on_failed f r = record r { on_failed = f }

  abbrev pub set_on_success : Option (W → W) → Retry W E → Retry W E
  set_on_success f r = record r { on_success = f }

  unfoldable pub apply_option : RetryOption W E → Retry W E → Retry W E
  apply_option (with_max_attempts n) r = set_max_attempts n r
  apply_option (with_policy p) r = set_policy p r
  apply_option (with_delay d) r = set_delay d r
  apply_option (with_max_delay d) r = set_max_delay d r
  apply_option (with_context c) r = set_context c r
  apply_option (with_on_failed f) r = set_on_failed f r
  apply_option (with_on_success f) r = set_on_success f r

  -- The loop of New over its options.
  unfoldable pub apply_options : List (RetryOption W E) → Retry W E → Retry W E
  unfolding apply_option
  apply_options [] r = r
  apply_options (o ∷ opts) r = apply_options opts (apply_option o r)

  -- New, with the wait and the test for ErrExit that Do uses
  unfoldable pub new_retry :
      (ℤ → W → Option E × W) → (E → Bool) → List (RetryOption W E) → Retry W E
  unfolding apply_options
  new_retry wait exit opts = apply_options opts (record {
    context = none;
    max_attempts = pos 5;
    policy = backoff;
    delay = pos 1000000000;
    max_delay = pos 0;
    on_failed = none;
    on_success = none;
    sleep = wait;
    is_exit = exit;
  })
