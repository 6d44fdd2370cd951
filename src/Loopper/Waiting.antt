-- ===== src/Loopper/Waiting.antt =====
-- A stopped loop comes to rest (loopper/loop.go: Stop, Wait).
use xutils.Prelude.{
  ℕ, zero, suc, ◌+◌, ◌≤◌, ◌<◌, Bool, true, false, not, ◌&&◌, ◌||◌, ◌≡◌, ◌≢◌, refl, ap, arith,
  if◌then◌else◌, ltb, and_intro,
}
use xutils.Loopper.Model.{
  Ticker, absent, starting, ticking, ended, Loop, Event, start, launch, stop, cancel, parent_done,
  end_ticker, claim, overlap, admit, reject, reset, finish, close, is_starting, is_ticking, enabled,
  after, Reach,
}
use xutils.Loopper.Invariant.{one_if, live, Inv, Loop-Inv}

abbrev pub ticker_work : Ticker → ℕ
ticker_work starting = 2
ticker_work ticking = 1
ticker_work _ = 0

-- The steps that are left before the wait group is empty.
abbrev pub work : Loop → ℕ
work s = s.bodies + s.bodies + s.closing + ticker_work s.ticker + one_if s.cancelling

-- The wait group of a stopped loop empties: no step adds to it or to the work that is left, some step
-- lowers the work as long as the group is not empty, and no work means an empty group.
pub record Draining (s : Loop) : Type 0 where
  pub never_up :
      (e : Event)
      → enabled e s ≡ true
      → (work (after e s) ≤ work s) × ((after e s).wg ≤ s.wg) × ((after e s).stopped ≡ true)
  pub goes_down : s.wg ≢ 0 → (e : Event) × (enabled e s ≡ true) × (work (after e s) < work s)
  pub at_rest : work s ≡ 0 → s.wg ≡ 0

launch-work : (t : Ticker) → is_starting t ≡ true → ticker_work t ≡ 2
launch-work absent h = cc
launch-work starting h = refl
launch-work ticking h = cc
launch-work ended h = cc

ticking-work : (t : Ticker) → is_ticking t ≡ true → ticker_work t ≡ 1
ticking-work absent h = cc
ticking-work starting h = cc
ticking-work ticking h = refl
ticking-work ended h = cc

none_one : ◌≡◌ {A = ℕ} 0 1 → ⊥
none_one h = omega (arith, h)

one_live : (t : Ticker) (n : ℕ) → live t ≡ suc n → live t ≡ 1
one_live absent n h = omega (arith, h)
one_live starting n h = refl
one_live ticking n h = refl
one_live ended n h = omega (arith, h)

live_worked : (t : Ticker) → live t ≤ ticker_work t
live_worked absent = omega arith
live_worked starting = omega arith
live_worked ticking = omega arith
live_worked ended = omega arith

module _ (s : Loop) (halted : s.stopped ≡ true) where
  -- A step of a stopped loop.
  record Down (t : Loop) : Type 0 where
    pub less : work t ≤ work s
    pub group : t.wg ≤ s.wg
    pub still : t.stopped ≡ true

  same-Down : Down s
  same-Down = record { less = omega arith; group = omega arith; still = halted }

  if-Down : (b : Bool) (t : Loop) → b ≡ true → Down (if b then s else t)
  if-Down true t h = same-Down
  if-Down false t h = cc

  started_or : (a b : Bool) → b ≡ true → (a || b) ≡ true
  started_or true b h = refl
  started_or false b h = h

  after-Down : (e : Event) → enabled e s ≡ true → Down (after e s)
  unfolding enabled after
  after-Down start q = if-Down (s.started || s.stopped) _ (started_or s.started s.stopped halted)
  after-Down launch q = record {
    less = omega (arith, launch-work s.ticker q);
    group = omega arith;
    still = halted;
  }
  after-Down stop q = if-Down s.stopped _ halted
  after-Down cancel q = record { less = omega arith; group = omega arith; still = halted }
  after-Down parent_done q = record { less = omega arith; group = omega arith; still = halted }
  after-Down end_ticker q = record { less = omega arith; group = omega arith; still = halted }
  after-Down claim q = record { less = omega arith; group = omega arith; still = halted }
  after-Down overlap q = same-Down
  after-Down admit q = elim (cannot s.stopped (ltb 0 s.claiming) halted q) [ ]
    where
      cannot : (a b : Bool) → a ≡ true → (b && not a) ≡ true → ⊥
      cannot true true h g = cc
      cannot true false h g = cc
      cannot false b h g = cc
  after-Down reject q = record { less = omega arith; group = omega arith; still = halted }
  after-Down reset q = record { less = omega arith; group = omega arith; still = halted }
  after-Down finish q = record { less = ground (arith, q); group = omega arith; still = halted }
  after-Down close q = record { less = omega arith; group = omega arith; still = halted }

  -- A step that lowers the work.
  Lower : Type 0
  Lower = (e : Event) × (enabled e s ≡ true) × (work (after e s) < work s)

  module _ (inv : Inv s) where
    ticker-Lower : (t : Ticker) → s.ticker ≡ t → live t ≡ 1 → Lower
    unfolding enabled after Lower
    ticker-Lower absent e l = elim (none_one l) [ ]
    ticker-Lower ended e l = elim (none_one l) [ ]
    ticker-Lower starting e l = (launch, ap is_starting e, omega (arith, ap ticker_work e))
    ticker-Lower ticking e l =
        choose s.cancelled s.cancelling refl refl (inv.noticed halted (ap live e))
      where
        choose :
            (a b : Bool)
            → s.cancelled ≡ a
            → s.cancelling ≡ b
            → (s.cancelling || s.cancelled) ≡ true
            → Lower
        choose true b qa qb h = (
          end_ticker,
          and_intro (is_ticking s.ticker) s.cancelled (ap is_ticking e) qa,
          omega (arith, ap ticker_work e),
        )
        choose false true qa qb h = (cancel, qb, omega (arith, ap one_if qb))
        choose false false qa qb h = ground (arith, qa, qb, h)

    any-Lower :
        (t : ℕ) → live s.ticker ≡ t → (b c : ℕ) → s.bodies ≡ b → s.closing ≡ c → s.wg ≢ 0 → Lower
    unfolding enabled after Lower
    any-Lower t l (suc b) c qb qc h = (finish, ground (arith, qb), ground (arith, qb))
    any-Lower t l zero (suc c) qb qc h = (close, ground (arith, qc), ground (arith, qc))
    any-Lower (suc t) l zero zero qb qc h = ticker-Lower s.ticker refl (one_live s.ticker t l)
    any-Lower zero l zero zero qb qc h = elim (h (omega (arith, inv.counted, l, qb, qc))) [ ]

    resting : work s ≡ 0 → s.wg ≡ 0
    resting h = omega (arith, inv.counted, h, live_worked s.ticker)

-- The wait group of a stopped loop drains. From any state that a stopped loop can be in, no step, a call
-- of Start, Trigger or Stop included, adds to the wait group or to the work that is left, and none makes
-- the loop run again. As long as the group is not empty some goroutine has a step that lowers the work,
-- and with no work left the group is empty. A call of fn that has begun is taken to have a step that
-- ends it.
pub Loop-Draining : (s : Loop) → Reach s → s.stopped ≡ true → Draining s
unfolding Lower
Loop-Draining s r h =
    let inv = Loop-Inv s r in
    record {
      never_up = λ e q. let d = after-Down s h e q in (d.less, d.group, d.still);
      goes_down = λ n. any-Lower s h inv (live s.ticker) refl s.bodies s.closing refl refl n;
      at_rest = λ w. resting s h inv w;
    }
