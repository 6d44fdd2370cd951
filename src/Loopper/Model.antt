-- ===== src/Loopper/Model.antt =====
-- loopper/loop.go: the atomic steps of Start, Trigger, Stop, tryRun and of the goroutines that they
-- start, between which the steps of other goroutines may come. A section under the mutex is one step.
use xutils.Prelude.{
  ℕ, suc, ◌-◌, Bool, true, false, not, ◌&&◌, ◌||◌, if◌then◌else◌, ltb, ◌≡◌, ℤ, pos, List, [], ◌∷◌,
  Option, none, some, leb_ℤ,
}

-- The ticker goroutine of Start: not there, about to be started, in its loop, or returned.
pub data Ticker : Type 0 where
  absent : Ticker
  starting : Ticker
  ticking : Ticker
  ended : Ticker

-- Loopper, with the number of goroutines at each point of tryRun.
pub record Loop : Type 0 where
  pub running : Bool
  pub started : Bool
  pub stopped : Bool
  pub wg : ℕ
  pub ticker : Ticker
  -- Stop has yet to call the cancel function that it read under the mutex.
  pub cancelling : Bool
  -- The context of the ticker is done.
  pub cancelled : Bool
  -- Callers of tryRun that have set the flag and not yet taken the mutex.
  pub claiming : ℕ
  -- Callers that found the loop stopped and have not yet reset the flag.
  pub rejected : ℕ
  -- Goroutines in fn.
  pub bodies : ℕ
  -- Goroutines that have reset the flag and not yet called wg.Done.
  pub closing : ℕ

-- New, for a function that is not nil
abbrev pub new_loop : Loop
new_loop = record {
  running = false;
  started = false;
  stopped = false;
  wg = 0;
  ticker = absent;
  cancelling = false;
  cancelled = false;
  claiming = 0;
  rejected = 0;
  bodies = 0;
  closing = 0;
}

pub data Event : Type 0 where
  -- Start, its section under the mutex
  start : Event
  -- Start, the go statement; where `leading` is set, a call of tryRun comes before it
  launch : Event
  -- Stop, its section under the mutex, and its call of cancel
  stop : Event
  cancel : Event
  -- The parent context of Start is done.
  parent_done : Event
  -- The ticker goroutine sees that its context is done.
  end_ticker : Event
  -- tryRun, from Start, from a tick or from Trigger: CompareAndSwap where it succeeds
  claim : Event
  -- ... and where it fails: false is returned
  overlap : Event
  -- ... the section under the mutex: wg.Add and the go statement, or the loop is stopped
  admit : Event
  reject : Event
  -- ... and running.Store(false) where it was stopped
  reset : Event
  -- The end of fn, by a return or by a panic, which is recovered: running.Store(false)
  finish : Event
  -- The end of the deferred function: wg.Done
  close : Event

abbrev pub is_starting : Ticker → Bool
is_starting starting = true
is_starting _ = false

abbrev pub is_ticking : Ticker → Bool
is_ticking ticking = true
is_ticking _ = false

-- Whether a goroutine can do this step now.
unfoldable pub enabled : Event → Loop → Bool
enabled start s = true
enabled launch s = is_starting s.ticker
enabled stop s = true
enabled cancel s = s.cancelling
enabled parent_done s = s.started
enabled end_ticker s = is_ticking s.ticker && s.cancelled
enabled claim s = not s.running
enabled overlap s = s.running
enabled admit s = ltb 0 s.claiming && not s.stopped
enabled reject s = ltb 0 s.claiming && s.stopped
enabled reset s = ltb 0 s.rejected
enabled finish s = ltb 0 s.bodies
enabled close s = ltb 0 s.closing

-- What the step does.
unfoldable pub after : Event → Loop → Loop
after start s =
    if s.started || s.stopped
    then s
    else record s { started = true; wg = suc s.wg; ticker = starting }
after launch s = record s { ticker = ticking }
after stop s = if s.stopped then s else record s { stopped = true; cancelling = s.started }
after cancel s = record s { cancelling = false; cancelled = true }
after parent_done s = record s { cancelled = true }
after end_ticker s = record s { ticker = ended; wg = s.wg - 1 }
after claim s = record s { running = true; claiming = suc s.claiming }
after overlap s = s
after admit s = record s { claiming = s.claiming - 1; wg = suc s.wg; bodies = suc s.bodies }
after reject s = record s { claiming = s.claiming - 1; rejected = suc s.rejected }
after reset s = record s { rejected = s.rejected - 1; running = false }
after finish s = record s { bodies = s.bodies - 1; closing = suc s.closing; running = false }
after close s = record s { closing = s.closing - 1; wg = s.wg - 1 }

-- The states that interleavings of the steps reach from New.
pub data Reach : Loop → Type 0 where
  created : Reach new_loop
  stepped : (e : Event) {s : Loop} → Reach s → enabled e s ≡ true → Reach (after e s)

-- Options of New, less the logger; times are in nanoseconds.
pub record Options : Type 0 where
  pub leading : Bool
  pub period : ℤ
  pub context_timeout : ℤ

abbrev pub default_options : Options
default_options = record {
  leading = false;
  period = pos 60000000000;
  context_timeout = pos 30000000000;
}

pub data Setting : Type 0 where
  with_leading : Setting
  with_period : ℤ → Setting
  with_context_timeout : ℤ → Setting

-- An Option applied; a period of zero or less is ignored.
unfoldable pub apply_setting : Setting → Options → Options
apply_setting with_leading o = record o { leading = true }
apply_setting (with_period d) o = if leb_ℤ d (pos 0) then o else record o { period = d }
apply_setting (with_context_timeout d) o = record o { context_timeout = d }

unfoldable pub options_of : List Setting → Options → Options
unfolding apply_setting
options_of [] o = o
options_of (x ∷ xs) o = options_of xs (apply_setting x o)

-- New: a nil function is a panic, which is `none`.
unfoldable pub new : Bool → List Setting → Option (Options × Loop)
unfolding options_of
new has_function settings =
    if has_function then some (options_of settings default_options, new_loop) else none
