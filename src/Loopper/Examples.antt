-- ===== src/Loopper/Examples.antt =====
-- The theorems on the package loopper/ at a concrete run.
use xutils.Prelude.{refl}
use xutils.Loopper.Model.{
  Loop, new_loop, start, launch, claim, admit, stop, enabled, after, Reach, created, stepped,
}
use xutils.Loopper.Invariant.{Inv, Loop-Inv}
use xutils.Loopper.Waiting.{Draining, Loop-Draining}

-- Started, triggered, and stopped while fn runs.
abbrev busy : Loop
unfolding after
busy = after stop (after admit (after claim (after launch (after start new_loop))))

busy-Reach : Reach busy
unfolding enabled after
busy-Reach =
    stepped stop
      (stepped admit (stepped claim (stepped launch (stepped start created refl) refl) refl) refl)
      refl

Loop-Inv_example : Inv busy
Loop-Inv_example = Loop-Inv busy busy-Reach

Loop-Draining_example : Draining busy
unfolding after busy
Loop-Draining_example = Loop-Draining busy busy-Reach refl
