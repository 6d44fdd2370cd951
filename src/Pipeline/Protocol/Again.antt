-- ===== src/Pipeline/Protocol/Again.antt =====
-- Run of the state that a successful Run left (pipeline/executor.go).
use xutils.Prelude.{ℕ, [], Option, none, some, ◌≡◌, refl, true}
use xutils.Pipeline.Errors.{Err}
use xutils.Pipeline.State.{RunState, is_terminal}
use xutils.Pipeline.Definition.{Executor, Pipeline}
use xutils.Pipeline.Machine.{Machine, M, or_return, when◌then◌else◌}
use xutils.Pipeline.Validate.{validate}
use xutils.Pipeline.Engine.Start.{run, run_state}
use xutils.Pipeline.Protocol.Ledger.{Verdict}
use xutils.Pipeline.Protocol.Compensation.{Sticky}
use xutils.Pipeline.Protocol.Run.{Ended, run_state-Verdict}

nothing_before :
    {W V : Type 0} (r : Option Err) (k : M W V (Option Err)) (m : Machine W V)
    → (or_return r k m).0 ≡ none
    → r ≡ none
unfolding or_return
nothing_before none k m h = refl
nothing_before (some err) k m h = h

valid_of_nil :
    {W V : Type 0} (e : Executor W V) (p : Pipeline W V) (r : RunState) (w : W)
    → (run_state e p r w).0 ≡ none
    → validate p ≡ none
unfolding run_state run
valid_of_nil e p r w h = nothing_before (validate p) _ _ h

nil-Ended :
    {W V : Type 0} (base : ℕ) (out : Option Err) (m : Machine W V)
    → Verdict base Ended out m
    → out ≡ none
    → is_terminal m.run ≡ true
unfolding is_terminal
nil-Ended base none m v h = v.1
nil-Ended base (some err) m v h = cc

at_rest :
    {W V : Type 0} (e : Executor W V) (p : Pipeline W V) (r : RunState) (w : W)
    → validate p ≡ none
    → is_terminal r ≡ true
    → run_state e p r w ≡ (none, record { run = r; store = []; world = w; calls = [] })
unfolding run_state run or_return when◌then◌else◌
at_rest e p r w valid ended = rw (valid, ended)

-- Once `Run` has returned nil, a second `Run` of the state it left, in any world, returns nil at
-- once: it calls nothing, takes no snapshot and leaves the state as it is. The context, once
-- cancelled, is taken to stay cancelled.
pub run_state-again :
    {W V : Type 0} (e : Executor W V) (p : Pipeline W V) (r : RunState) (w later : W)
    → Sticky e
    → (run_state e p r w).0 ≡ none
    → run_state e p (run_state e p r w).1.run later
      ≡ (none, record { run = (run_state e p r w).1.run; store = []; world = later; calls = [] })
run_state-again e p r w later sticky nil =
    at_rest e p _ later (valid_of_nil e p r w nil)
      (nil-Ended _ _ _ (run_state-Verdict e p r w sticky) nil)
