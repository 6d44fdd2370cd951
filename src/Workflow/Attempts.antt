-- ===== src/Workflow/Attempts.antt =====
-- How often a step's function is called (workflow/step_retry_policies.go).
use xutils.Prelude.{
  ℕ, zero, suc, ◌+◌, ◌≤◌, ◌<◌, ℤ, pos, Bool, true, false, Option, none, some, if◌then◌else◌, ◌≡◌,
  refl, arith, ap, sym, ◌∙◌, subst,
}
use xutils.Workflow.Errors.{Err, is_control_flow_error}
use xutils.Workflow.Model.{
  Live, Action, ReadyStep, RetryPolicy, run_with_linear, run_with_backoff, custom, Workflow,
}
use xutils.Workflow.Policies.{
  Outcome, err, after_attempt, after_sleep, sleep_then, bounded, retry, apply_policy, Run, double,
  first_backoff,
}

-- A count of the calls of `fn`, which nothing else changes, and waits that are not interrupted.
pub record Counted {W : Type 0} (m : Workflow W) (fn : Action W) (count : Live W → ℕ) : Type 0 where
  pub by_call : (s : Live W) → count (fn s).1 ≡ suc (count s)
  pub by_sleep :
      (d : ℤ) (s : Live W)
      → count (record s { world = (m.sleep_with_context d s.world).1 }) ≡ count s
  pub awake : (d : ℤ) (w : W) → (m.sleep_with_context d w).0 ≡ none

-- Between one and `n` calls, and all `n` where the result is an error that is not control flow.
pub record Tallied {W : Type 0} (count : Live W → ℕ) (n before : ℕ) (r : Outcome × Live W)
    : Type 0 where
  pub some_call : before < count r.1
  pub within : count r.1 ≤ n + before
  pub all_used : (e : Err) → r.0 ≡ err e → is_control_flow_error e ≡ false → count r.1 ≡ n + before

module _ {W : Type 0} (m : Workflow W) (fn : Action W) (count : Live W → ℕ)
    (counted : Counted m fn count) where
  same_error :
      (e f : Err)
      → err e ≡ err f
      → is_control_flow_error f ≡ false
      → is_control_flow_error e ≡ false
  same_error e f q h = subst (λ o. flow o ≡ false) (sym q) h
    where
      flow : Outcome → Bool
      flow (err x) = is_control_flow_error x
      flow _ = false

  after_attempt-Tallied :
      (n before : ℕ) (o : Option Err) (s : Live W) (again : Err → Run m)
      → count s ≡ suc before
      → ((e : Err) → is_control_flow_error e ≡ false → Tallied count (suc n) before (again e s))
      → Tallied count (suc n) before (after_attempt m (o, s) again)
  unfolding after_attempt
  after_attempt-Tallied n before none s again h g = record {
    some_call = omega (arith, h);
    within = omega (arith, h);
    all_used = λ e q f. cc;
  }
  after_attempt-Tallied n before (some e) s again h g = choose (is_control_flow_error e) refl
    where
      choose :
          (b : Bool)
          → is_control_flow_error e ≡ b
          → Tallied count (suc n) before (if b then (err e, s) else again e s)
      choose true q = record {
        some_call = omega (arith, h);
        within = omega (arith, h);
        all_used = λ f p k. cc (q, same_error e f p k);
      }
      choose false q = g e q

  sleep_then-Tallied :
      (n before : ℕ) (d : ℤ) (next : Run m) (s : Live W)
      → ((t : Live W) → count t ≡ count s → Tallied count n before (next t))
      → Tallied count n before (sleep_then m d next s)
  unfolding sleep_then after_sleep
  sleep_then-Tallied n before d next s g =
      let t = record s { world = (m.sleep_with_context d s.world).1 } in
      subst (λ o. Tallied count n before (after_sleep m o next t)) (sym (counted.awake d s.world))
        (g t (counted.by_sleep d s))

  later :
      (n before : ℕ) (r : Outcome × Live W)
      → Tallied count n (suc before) r
      → Tallied count (suc n) before r
  later n before r h = record {
    some_call = omega (arith, h.some_call);
    within = omega (arith, h.within);
    all_used = λ e q f. omega (arith, h.all_used e q f);
  }

  bounded-Tallied :
      (grow : ℤ → ℤ) (left : ℕ) (delay : ℤ) (before : ℕ) (s : Live W)
      → count s ≡ before
      → Tallied count (suc left) before (bounded m grow fn left delay s)
  unfolding bounded
  bounded-Tallied grow zero delay before s h =
      after_attempt-Tallied zero before (fn s).0 (fn s).1 _ (counted.by_call s ∙ ap suc h) (λ e f.
        record {
          some_call = omega (arith, counted.by_call s, h);
          within = omega (arith, counted.by_call s, h);
          all_used = λ e q f. omega (arith, counted.by_call s, h);
        })
  bounded-Tallied grow (suc left) delay before s h =
      after_attempt-Tallied (suc left) before (fn s).0 (fn s).1 _ (counted.by_call s ∙ ap suc h)
        (λ e f.
          sleep_then-Tallied (suc (suc left)) before delay (bounded m grow fn left (grow delay))
            (fn s).1
            (λ t k. later (suc left) before _ (
              bounded-Tallied grow left (grow delay) (suc before) t
                (k ∙ counted.by_call s ∙ ap suc h))))

-- A policy of the package.
abbrev pub IsPackaged : {W : Type 0} → RetryPolicy W → Type 0
IsPackaged (custom f) = ⊥
IsPackaged _ = Unit {0}

-- RunWithLinear and RunWithBackoff, at a step with a MaxRetries of n + 1 and where no wait is
-- interrupted: the function is called at least once and at most n + 1 times, and exactly n + 1 times
-- if the result is an error other than control flow. The count is one that the world keeps of the
-- calls, and that no wait changes.
pub apply_policy-attempts :
    {W : Type 0} (m : Workflow W) (fuel : ℕ) (step : ReadyStep W) (policy : RetryPolicy W)
    (count : Live W → ℕ) (n : ℕ) (s : Live W)
    → IsPackaged policy
    → Counted m step.func count
    → step.max_retries ≡ pos (suc n)
    → Tallied count (suc n) (count s) (apply_policy m fuel step policy s)
unfolding apply_policy retry
apply_policy-attempts m fuel step run_with_linear count n s h counted limit =
    subst (λ k. Tallied count (suc n) (count s) (retry m (λ d. d) step.func k fuel step.timeout s))
      (sym limit)
      (bounded-Tallied m step.func count counted (λ d. d) n step.timeout (count s) s refl)
apply_policy-attempts m fuel step run_with_backoff count n s h counted limit =
    let d = first_backoff m step.timeout in
    subst (λ k. Tallied count (suc n) (count s) (retry m (double m) step.func k fuel d s))
      (sym limit) (bounded-Tallied m step.func count counted (double m) n d (count s) s refl)
apply_policy-attempts m fuel step (custom f) count n s h counted limit = elim h [ ]
