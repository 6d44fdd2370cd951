-- ===== src/Workflow/Errors.antt =====
-- workflow/errors.go: the sentinel errors, the trees that fmt.Errorf makes of them, and errors.Is.
use xutils.Prelude.{ℕ, List, String, Bool, true, false, ◌||◌, Option, none, some}
use xutils.Bytes.{Bytes}

-- The sentinel errors of the package.
pub data Sentinel : Type 0 where
  skip_step : Sentinel
  skip_stage : Sentinel
  break_stages : Sentinel
  exit_workflow : Sentinel
  silent : Sentinel
  not_found : Sentinel

pub data Err : Type 0 where
  sentinel : Sentinel → Err
  -- an error of a callback or of the context, by its identity
  opaque : ℕ → Err
  -- fmt.Errorf with no %w: the format and its arguments
  text : String → List Bytes → Err
  -- fmt.Errorf with one %w
  wrapped : String → List Bytes → Err → Err
  -- fmt.Errorf("%w: %w", a, b)
  joined : Err → Err → Err

unfoldable pub same_sentinel : Sentinel → Sentinel → Bool
same_sentinel skip_step skip_step = true
same_sentinel skip_stage skip_stage = true
same_sentinel break_stages break_stages = true
same_sentinel exit_workflow exit_workflow = true
same_sentinel silent silent = true
same_sentinel not_found not_found = true
same_sentinel _ _ = false

-- errors.Is(err, s) for a sentinel `s`
unfoldable pub is : Sentinel → Err → Bool
unfolding same_sentinel
is s (sentinel t) = same_sentinel s t
is s (opaque n) = false
is s (text f args) = false
is s (wrapped f args e) = is s e
is s (joined a b) = is s a || is s b

-- isControlFlowError
unfoldable pub is_control_flow_error : Err → Bool
unfolding is
is_control_flow_error e =
    is skip_step e || is skip_stage e || is break_stages e || is exit_workflow e

-- SilentError
unfoldable pub silent_error : Option Err → Option Err
silent_error none = none
silent_error (some e) = some (joined (sentinel silent) e)
