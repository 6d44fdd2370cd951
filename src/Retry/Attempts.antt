-- ===== src/Retry/Attempts.antt =====
-- How often Do calls the function (retry/retry.go).
use xutils.Prelude.{
  ℕ, zero, suc, ◌+◌, ◌≤◌, ◌<◌, ℤ, pos, Bool, true, false, ◌&&◌, not, Option, none, some, ltb_ℤ,
  if◌then◌else◌, ◌≡◌, refl, arith, sym, subst, ◌∙◌, ap,
}
use xutils.Retry.Policy.{
  Policy, linear, backoff, infinite, unsupported, plain, exhausted, nil_function, bad_attempts,
  bad_policy, no_context, Retry,
}
use xutils.Retry.Loop.{
  Result, success, failure, unfinished, apply_callback, context_error, stop_or, after_failure,
  after_call, attempt, wait_then, counted_from, by_policy, after_do, is_infinite, attempts_left,
  run_retry, Run,
}

-- A count of the function's calls that the world keeps, and nothing else changes.
pub record Counted {W E : Type 0} (r : Retry W E) (fn : W → Option E × W) (count : W → ℕ)
    : Type 0 where
  pub by_call : (w : W) → count (fn w).1 ≡ suc (count w)
  pub by_context : (w : W) → count (context_error r r.context w).1 ≡ count w
  pub by_sleep : (d : ℤ) (w : W) → count (r.sleep d w).1 ≡ count w
  pub by_failed : (w : W) → count (apply_callback r.on_failed w) ≡ count w
  pub by_success : (w : W) → count (apply_callback r.on_success w) ≡ count w

-- What a result says of the count before and after, where `n` attempts are allowed.
abbrev pub Tally : {E : Type 0} → ℕ → ℕ → Result E → ℕ → Type 0
Tally n before success after = (before < after) × (after ≤ n + before)
Tally n before (failure (exhausted p k err)) after = after ≡ n + before
Tally n before (failure _) after = after ≤ n + before
Tally n before unfinished after = ⊥

Tally-suc :
    {E : Type 0} (n before : ℕ) (result : Result E) (after : ℕ)
    → Tally n (suc before) result after
    → Tally (suc n) before result after
Tally-suc n before success after h = omega (arith, h)
Tally-suc n before (failure (exhausted p k err)) after h = omega (arith, h)
Tally-suc n before (failure (plain err)) after h = omega (arith, h)
Tally-suc n before (failure nil_function) after h = omega (arith, h)
Tally-suc n before (failure (bad_attempts k)) after h = omega (arith, h)
Tally-suc n before (failure bad_policy) after h = omega (arith, h)
Tally-suc n before (failure no_context) after h = omega (arith, h)
Tally-suc n before unfinished after h = h

module _ {W E : Type 0} (r : Retry W E) (fn : W → Option E × W) (count : W → ℕ)
    (counted : Counted r fn count) where
  -- The tally of a result.
  record Tallied (n before : ℕ) (out : Result E × W) : Type 0 where
    pub tally : Tally n before out.0 (count out.1)

  stop_or-Tallied :
      (n before : ℕ) (o : Option E) (rest : Run r) (w : W)
      → count w ≤ n + before
      → Tallied n before (rest w)
      → Tallied n before (stop_or r o rest w)
  unfolding stop_or
  stop_or-Tallied n before none rest w h g = g
  stop_or-Tallied n before (some err) rest w h g = record { tally = h }

  after_failure-Tallied :
      (n before : ℕ) (err : E) (next : Run r) (w : W)
      → count w ≤ n + before
      → ((w' : W) → count w' ≡ count w → Tallied n before (next w'))
      → Tallied n before (after_failure r err next w)
  unfolding after_failure
  after_failure-Tallied n before err next w h g =
      choice (r.is_exit err) (omega (arith, h, counted.by_failed w)) (g _ (counted.by_failed w))
    where
      choice :
          {x y : Result E × W} (b : Bool)
          → Tallied n before x
          → Tallied n before y
          → Tallied n before (if b then x else y)
      choice true hx hy = hx
      choice false hx hy = hy

  after_call-Tallied :
      (n before : ℕ) (o : Option E) (next : E → Run r) (w : W)
      → count w ≡ suc before
      → ((err : E) (w' : W) → count w' ≡ suc before → Tallied (suc n) before (next err w'))
      → Tallied (suc n) before (after_call r o next w)
  unfolding after_call
  after_call-Tallied n before none next w h g = record { tally = omega (arith, h) }
  after_call-Tallied n before (some err) next w h g =
      after_failure-Tallied (suc n) before err (next err) w (omega (arith, h))
        (λ w' e. g err w' (e ∙ h))

  attempt-Tallied :
      (n before : ℕ) (next : E → Run r) (w : W)
      → count w ≡ before
      → ((err : E) (w' : W) → count w' ≡ suc before → Tallied (suc n) before (next err w'))
      → Tallied (suc n) before (attempt r fn next w)
  unfolding attempt
  attempt-Tallied n before next w h g =
      let c = context_error r r.context w in
      stop_or-Tallied (suc n) before c.0 _ c.1 (omega (arith, h, counted.by_context w)) (
        after_call-Tallied n before (fn c.1).0 next (fn c.1).1
          (counted.by_call c.1 ∙ ap suc (counted.by_context w ∙ h)) g)

  wait_then-Tallied :
      (n before : ℕ) (delay : ℤ) (rest : Run r) (w : W)
      → count w ≤ n + before
      → ((w' : W) → count w' ≡ count w → Tallied n before (rest w'))
      → Tallied n before (wait_then r delay rest w)
  unfolding wait_then
  wait_then-Tallied n before delay rest w h g =
      stop_or-Tallied n before (r.sleep delay w).0 rest (r.sleep delay w).1
        (omega (arith, h, counted.by_sleep delay w)) (g _ (counted.by_sleep delay w))

  later-Tallied :
      (n before : ℕ) (out : Result E × W) → Tallied n (suc before) out → Tallied (suc n) before out
  later-Tallied n before out g = record { tally = Tally-suc n before out.0 (count out.1) g.tally }

  counted_from-Tallied :
      (policy : Policy) (delay_of : ℕ → ℤ) (n left before : ℕ) (w : W)
      → count w ≡ before
      → Tallied (suc left) before (counted_from r policy delay_of fn n left w)
  unfolding counted_from
  counted_from-Tallied policy delay_of n zero before w h =
      attempt-Tallied zero before _ w h (λ err w' e. record { tally = omega (arith, e) })
  counted_from-Tallied policy delay_of n (suc left) before w h =
      attempt-Tallied (suc left) before _ w h (λ err w' e.
        wait_then-Tallied (suc (suc left)) before (delay_of n) _ w' (omega (arith, e)) (λ w'' e'.
          later-Tallied (suc left) before _
            (counted_from-Tallied policy delay_of (suc n) left (suc before) w'' (e' ∙ e))))

  after_do-Tallied :
      (n before : ℕ) (out : Result E × W) → Tallied n before out → Tallied n before (after_do r out)
  unfolding after_do
  after_do-Tallied n before (success, w) g = record {
    tally = omega (arith, g.tally, counted.by_success w);
  }
  after_do-Tallied n before (failure err, w) g = record { tally = g.tally }
  after_do-Tallied n before (unfinished, w) g = record { tally = g.tally }

  by_policy-Tallied :
      (policy : Policy) (left fuel : ℕ) (w : W)
      → is_infinite r policy ≡ false
      → Tallied (suc left) (count w) (by_policy r policy fn left fuel w)
  unfolding by_policy
  by_policy-Tallied linear left fuel w h = counted_from-Tallied linear _ 1 left (count w) w refl
  by_policy-Tallied backoff left fuel w h = counted_from-Tallied backoff _ 1 left (count w) w refl
  by_policy-Tallied infinite left fuel w h = cc
  by_policy-Tallied (unsupported k) left fuel w h = record { tally = omega arith }

  allowed : (k : ℤ) (b : Bool) (max : ℕ) → k ≡ pos (suc max) → (b && ltb_ℤ k (pos 1)) ≡ false
  allowed k b max h = rw h (ground arith)

  left_over : (k : ℤ) (max : ℕ) → k ≡ pos (suc max) → attempts_left r k ≡ max
  left_over k max h = ap (attempts_left r) h

  run_retry-Tallied :
      (max fuel : ℕ) (w : W)
      → is_infinite r r.policy ≡ false
      → r.max_attempts ≡ pos (suc max)
      → Tallied (suc max) (count w) (run_retry r (some fn) fuel w)
  unfolding run_retry
  run_retry-Tallied max fuel w finite limit =
      let left = attempts_left r r.max_attempts in
      subst
        (λ b. Tallied (suc max) (count w) (
          if b
          then (failure (bad_attempts r.max_attempts), w)
          else after_do r (by_policy r r.policy fn left fuel w)))
        (sym (allowed r.max_attempts (not (is_infinite r r.policy)) max limit))
        (after_do-Tallied (suc max) (count w) _ (
          subst (λ l. Tallied (suc max) (count w) (by_policy r r.policy fn l fuel w))
            (sym (left_over r.max_attempts max limit))
            (by_policy-Tallied r.policy max fuel w finite)))

-- With a policy other than PolicyInfinite and `max` attempts, at least one: Do always returns; if it
-- returns nil, the function was called at least once and at most `max` times; if it returns an *Error,
-- exactly `max` times; and with any other error, at most `max` times. The count is one that the
-- world keeps of the calls, and that no callback, wait or context changes.
pub run_retry-attempts :
    {W E : Type 0} (r : Retry W E) (fn : W → Option E × W) (count : W → ℕ) (max fuel : ℕ) (w : W)
    → Counted r fn count
    → is_infinite r r.policy ≡ false
    → r.max_attempts ≡ pos (suc max)
    → Tally
        (suc max)
        (count w)
        (run_retry r (some fn) fuel w).0
        (count (run_retry r (some fn) fuel w).1)
unfolding run_retry
run_retry-attempts r fn count max fuel w counted finite limit =
    (run_retry-Tallied r fn count counted max fuel w finite limit).tally
