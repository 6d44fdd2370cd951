-- ===== src/Retry/Endless.antt =====
-- The infinite loop of Do (retry/retry.go).
use xutils.Prelude.{
  ℕ, zero, suc, ◌+◌, ◌<◌, ◌≤◌, ℤ, Bool, true, false, Option, none, some, if◌then◌else◌, ◌≡◌, refl,
  arith, ◌∙◌, ap, ◌⊎◌, inl, inr,
}
use xutils.Retry.Policy.{Failure, plain, Retry}
use xutils.Retry.Loop.{
  Result, failure, unfinished, apply_callback, context_error, stop_or, after_failure, after_call,
  attempt, wait_then, endless, Run,
}

abbrev pub finished : {E : Type 0} → Result E → Bool
finished unfinished = false
finished _ = true

module _ {W E : Type 0} (r : Retry W E) (fn : W → Option E × W) where
  -- One loop goes on like another wherever it finishes.
  record Extends (x y : Result E × W) : Type 0 where
    pub same : finished x.0 ≡ true → y ≡ x

  stop_or-Extends :
      (o : Option E) (f g : Run r) (w : W)
      → Extends (f w) (g w)
      → Extends (stop_or r o f w) (stop_or r o g w)
  unfolding stop_or
  stop_or-Extends none f g w h = h
  stop_or-Extends (some err) f g w h = record { same = λ _. refl }

  after_call-Extends :
      (o : Option E) (f g : E → Run r) (w : W)
      → ((err : E) (w' : W) → Extends (f err w') (g err w'))
      → Extends (after_call r o f w) (after_call r o g w)
  unfolding after_call after_failure
  after_call-Extends none f g w h = record { same = λ _. refl }
  after_call-Extends (some err) f g w h = choice (r.is_exit err)
    where
      choice :
          (b : Bool)
          → Extends
              (if b
                then (failure (plain err), apply_callback r.on_failed w)
                else f err (apply_callback r.on_failed w))
              (if b
                then (failure (plain err), apply_callback r.on_failed w)
                else g err (apply_callback r.on_failed w))
      choice true = record { same = λ _. refl }
      choice false = h err _

  attempt-Extends :
      (f g : E → Run r) (w : W)
      → ((err : E) (w' : W) → Extends (f err w') (g err w'))
      → Extends (attempt r fn f w) (attempt r fn g w)
  unfolding attempt
  attempt-Extends f g w h =
      let c = context_error r r.context w in
      stop_or-Extends c.0 _ _ c.1 (after_call-Extends (fn c.1).0 f g (fn c.1).1 h)

  endless-Extends : (fuel : ℕ) (w : W) → Extends (endless r fn fuel w) (endless r fn (suc fuel) w)
  unfolding endless wait_then
  endless-Extends zero w = record { same = λ h. cc }
  endless-Extends (suc fuel) w =
      attempt-Extends _ _ w
        (λ err w'. stop_or-Extends (r.sleep r.delay w').0 _ _ _ (endless-Extends fuel _))

  -- More fuel than the infinite loop has finished on changes neither the result nor the world.
  endless-more :
      (fuel more : ℕ) (w : W)
      → finished (endless r fn fuel w).0 ≡ true
      → endless r fn (more + fuel) w ≡ endless r fn fuel w
  endless-more fuel zero w h = ap (λ n. endless r fn n w) (omega arith)
  endless-more fuel (suc more) w h =
      let before = endless-more fuel more w h in
      let step : endless r fn (suc (more + fuel)) w ≡ endless r fn (more + fuel) w =
        (endless-Extends (more + fuel) w).same (ap (λ out. finished out.0) before ∙ h) in
      ap (λ n. endless r fn n w) (omega arith) ∙ step ∙ before

-- A bound on the failures that are left: a failing call lowers it, and nothing raises it.
pub record Settles {W E : Type 0} (r : Retry W E) (fn : W → Option E × W) (left : W → ℕ)
    : Type 0 where
  pub by_call : (w : W) → ((fn w).0 ≡ none) ⊎ (left (fn w).1 < left w)
  pub by_context : (w : W) → left (context_error r r.context w).1 ≤ left w
  pub by_sleep : (d : ℤ) (w : W) → left (r.sleep d w).1 ≤ left w
  pub by_failed : (w : W) → left (apply_callback r.on_failed w) ≤ left w

module _ {W E : Type 0} (r : Retry W E) (fn : W → Option E × W) (left : W → ℕ)
    (settles : Settles r fn left) where
  stop_or-finished :
      (o : Option E) (f : Run r) (w : W)
      → finished (f w).0 ≡ true
      → finished (stop_or r o f w).0 ≡ true
  unfolding stop_or
  stop_or-finished none f w h = h
  stop_or-finished (some err) f w h = refl

  after_call-finished :
      (o : Option E) (f : E → Run r) (w : W) (n : ℕ)
      → (o ≡ none) ⊎ (left w < n)
      → ((err : E) (w' : W) → left w' < n → finished (f err w').0 ≡ true)
      → finished (after_call r o f w).0 ≡ true
  unfolding after_call after_failure
  after_call-finished none f w n h g = refl
  after_call-finished (some err) f w n (inl h) g = cc
  after_call-finished (some err) f w n (inr h) g =
      choice _ _ _ (r.is_exit err) (g err _ (omega (arith, h, settles.by_failed w)))
    where
      choice :
          (x : Result E × W) (y : W) (z : Failure E) (b : Bool)
          → finished x.0 ≡ true
          → finished (if b then (failure z, y) else x).0 ≡ true
      choice x y z true hx = refl
      choice x y z false hx = hx

  endless-finishes : (fuel : ℕ) (w : W) → left w < fuel → finished (endless r fn fuel w).0 ≡ true
  unfolding endless attempt wait_then
  endless-finishes zero w h = ground (arith, h)
  endless-finishes (suc fuel) w h =
      let c = context_error r r.context w in
      stop_or-finished c.0 _ c.1 (
        after_call-finished (fn c.1).0 _ (fn c.1).1 (left c.1) (settles.by_call c.1)
          (λ err w' lower. stop_or-finished (r.sleep r.delay w').0 _ _ (
            endless-finishes fuel (r.sleep r.delay w').1
              (omega (arith, h, lower, settles.by_context w, settles.by_sleep r.delay w')))))

  -- If the function can fail at most `left` times more before it succeeds, the infinite loop finishes on
  -- every larger number of attempts, and with the same result and the same world on all of them.
  pub endless-settles :
      (fuel : ℕ) (w : W)
      → left w < fuel
      → (finished (endless r fn fuel w).0 ≡ true)
        × ((more : ℕ) → endless r fn (more + fuel) w ≡ endless r fn fuel w)
  endless-settles fuel w h =
      let done = endless-finishes fuel w h in (done, λ more. endless-more r fn fuel more w done)
