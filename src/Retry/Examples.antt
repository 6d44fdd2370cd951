-- ===== src/Retry/Examples.antt =====
-- The theorems on the package retry/ at a concrete function.
use xutils.Prelude.{
  ℕ, suc, ◌+◌, ◌-◌, ◌*◌, ◌^◌, pos, true, false, Option, none, some, if◌then◌else◌, ◌≡◌, refl, arith,
  ltb, ◌≤ℤ◌, ◌<ℤ◌, wrap64,
}
use xutils.Retry.Policy.{Policy, backoff, infinite, Retry}
use xutils.Retry.Delay.{backoff_delay, backoff_delay-capped, backoff_delay-exact}
use xutils.Retry.Loop.{run_retry, endless, context_error}
use xutils.Retry.Attempts.{Counted, Tally, run_retry-attempts}
use xutils.Retry.Endless.{finished, endless-settles, Settles}

-- A function that succeeds on its third call; the world counts the calls.
abbrev third_time : ℕ → Option ℕ × ℕ
third_time n = ((if ltb n 2 then some 7 else none), suc n)

abbrev five_times : Policy → Retry ℕ ℕ
five_times p = record {
  context = some (λ n. (none, n));
  max_attempts = pos 5;
  policy = p;
  delay = pos 1000;
  max_delay = pos 0;
  on_failed = none;
  on_success = none;
  sleep = λ d n. (none, n);
  is_exit = λ err. false;
}

five_times-Counted : (p : Policy) → Counted (five_times p) third_time (λ n. n)
unfolding context_error
five_times-Counted p = record {
  by_call = λ w. refl;
  by_context = λ w. refl;
  by_sleep = λ d w. refl;
  by_failed = λ w. refl;
  by_success = λ w. refl;
}

run_retry-attempts_example :
    Tally 5 0
      (run_retry (five_times backoff) (some third_time) 0 0).0
      (run_retry (five_times backoff) (some third_time) 0 0).1
run_retry-attempts_example =
    run_retry-attempts (five_times backoff) third_time (λ n. n) 4 0 0 (five_times-Counted backoff)
      refl refl

third_time-Settles : (p : Policy) → Settles (five_times p) third_time (λ n. 2 - n)
unfolding context_error
third_time-Settles p = record {
  by_call = λ w. ground arith;
  by_context = λ w. omega arith;
  by_sleep = λ d w. omega arith;
  by_failed = λ w. omega arith;
}

endless-settles_example :
    (finished (endless (five_times infinite) third_time 3 0).0 ≡ true)
    × ((more : ℕ)
        → endless (five_times infinite) third_time (more + 3) 0
          ≡ endless (five_times infinite) third_time 3 0)
endless-settles_example =
    endless-settles (five_times infinite) third_time (λ n. 2 - n) (third_time-Settles infinite) 3 0
      (omega arith)

backoff_delay-capped_example :
    (pos 0 <ℤ backoff_delay (pos 1000) (pos 5000) 40)
    × (backoff_delay (pos 1000) (pos 5000) 40 ≤ℤ pos 5000)
backoff_delay-capped_example = backoff_delay-capped (pos 1000) (pos 5000) 40 (omega arith)

backoff_delay-exact_example : backoff_delay (pos 1000) (pos 0) 11 ≡ pos (1000 * 2 ^ 10)
backoff_delay-exact_example = backoff_delay-exact 1000 10 (omega arith) (omega arith) (omega arith)

-- A shift that wraps around to a positive number is returned as it is.
wrapped_delay : backoff_delay (pos 5) (pos 0) 63 ≡ pos 4611686018427387904
unfolding backoff_delay wrap64
wrapped_delay = refl

fallen_back : backoff_delay (pos 5) (pos 0) 62 ≡ pos 5
unfolding backoff_delay wrap64
fallen_back = refl
