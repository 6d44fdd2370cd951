-- ===== src/Pipeline/Errors.antt =====
-- pipeline/errors.go and the error tests of pipeline/executor.go: the error values as trees of
-- `Unwrap`, `errors.Is` and `errors.AsType` as a search of that tree, and the signals that defer a run.
use xutils.Prelude.{
  ℕ, ℤ, pos, ltb_ℤ, String, List, Bool, true, Option, none, some, if◌then◌else◌, is_some,
}
use xutils.Bytes.{Bytes, StepPath}

pub data Err : Type 0 where
  -- an error of the caller's own, or of the context, by its identity
  opaque : ℕ → Err
  -- fmt.Errorf with no %w: the format and its arguments
  text : String → List Bytes → Err
  -- fmt.Errorf with one %w
  wrapped : String → Err → Err
  -- fmt.Errorf("%w: %w", a, b)
  joined : Err → Err → Err
  no_compensate : Err
  snooze : ℤ → Err
  -- ErrRetryAfter with a nil Cause, and with one
  retry_after : ℤ → Err
  retry_because : ℤ → Err → Err
  snapshot_failed : String → Err → Err
  repeat_limit : Bytes → ℤ → Err
  repeat_timeout : Bytes → ℤ → Err
  compact_compensation : Bytes → StepPath → Err
  migration_failed : Bytes → ℤ → ℤ → Err → Err
  compensation_failed : Err → Err → Err
  step_failed : Bytes → StepPath → Err → Err
  poll_timeout : Bytes → ℤ → Err
  version_mismatch : Bytes → ℤ → ℤ → ℤ → Err
  -- a run-time panic (nil function, index out of range), which unwinds the caller of Run
  panicked : Err

-- NoCompensate
unfoldable pub no_compensate_of : Err → Err
no_compensate_of e = joined no_compensate e

-- normalizeDuration
unfoldable pub normalize_duration : ℤ → ℤ
normalize_duration d = if ltb_ℤ d (pos 0) then pos 0 else d

-- RetryAfter
unfoldable pub retry_after_of : ℤ → Option Err → Err
unfolding normalize_duration
retry_after_of d none = retry_after (normalize_duration d)
retry_after_of d (some cause) = retry_because (normalize_duration d) cause

abbrev pub or_else {ℓ} : {A : Type ℓ} → Option A → Option A → Option A
or_else none b = b
or_else (some a) b = some a

-- The first node, in `errors.AsType`'s depth-first order, that the test accepts.
unfoldable pub find {ℓ} : {A : Type ℓ} → (Err → Option A) → Err → Option A
find test (wrapped s e) = or_else (test (wrapped s e)) (find test e)
find test (joined a b) = or_else (test (joined a b)) (or_else (find test a) (find test b))
find test (retry_because d e) = or_else (test (retry_because d e)) (find test e)
find test (snapshot_failed s e) = or_else (test (snapshot_failed s e)) (find test e)
find test (migration_failed n f t e) = or_else (test (migration_failed n f t e)) (find test e)
find test (compensation_failed a b) =
    or_else (test (compensation_failed a b)) (or_else (find test a) (find test b))
find test (step_failed n p e) = or_else (test (step_failed n p e)) (find test e)
find test e = test e

abbrev pub snapshot_parts : Err → Option Err
snapshot_parts (snapshot_failed s e) = some e
snapshot_parts _ = none

abbrev pub step_path_of : Err → Option StepPath
step_path_of (step_failed n p e) = some p
step_path_of _ = none

abbrev pub timeout_parts : Err → Option (Bytes × ℤ)
timeout_parts (repeat_timeout n d) = some (n, d)
timeout_parts _ = none

abbrev pub retry_parts : Err → Option (ℤ × Option Err)
retry_parts (retry_after d) = some (d, none)
retry_parts (retry_because d c) = some (d, some c)
retry_parts _ = none

abbrev pub snooze_parts : Err → Option ℤ
snooze_parts (snooze d) = some d
snooze_parts _ = none

abbrev pub sentinel_parts : Err → Option Bool
sentinel_parts no_compensate = some true
sentinel_parts _ = none

-- errors.AsType[*ErrSnapshotFailed]
unfoldable pub is_snapshot_failed : Err → Bool
unfolding find
is_snapshot_failed e = is_some (find snapshot_parts e)

-- errors.Is(err, ErrNoCompensate)
unfoldable pub is_no_compensate : Err → Bool
unfolding find
is_no_compensate e = is_some (find sentinel_parts e)

-- errors.AsType[*ErrRepeatTimeout]
unfoldable pub as_repeat_timeout : Err → Option (Bytes × ℤ)
unfolding find
as_repeat_timeout e = find timeout_parts e

-- errors.AsType[*ErrStepFailed], the path of the outermost one
unfoldable pub as_step_failed : Err → Option StepPath
unfolding find
as_step_failed e = find step_path_of e

-- The first ErrRetryAfter of the tree gets a normalized duration, in place.
unfoldable pub settle : Err → Option Err
unfolding normalize_duration
settle (retry_after d) = some (retry_after (normalize_duration d))
settle (retry_because d c) = some (retry_because (normalize_duration d) c)
settle (wrapped s e) = elim (settle e) [ none ↦ none | some e' ↦ some (wrapped s e') ]
settle (joined a b) = elim (settle a) [
  | some a' ↦ some (joined a' b)
  | none ↦ elim (settle b) [ none ↦ none | some b' ↦ some (joined a b') ]
]
settle (snapshot_failed s e) = elim (settle e) [
  | none ↦ none
  | some e' ↦ some (snapshot_failed s e')
]
settle (migration_failed n f t e) = elim (settle e) [
  | none ↦ none
  | some e' ↦ some (migration_failed n f t e')
]
settle (compensation_failed a b) = elim (settle a) [
  | some a' ↦ some (compensation_failed a' b)
  | none ↦ elim (settle b) [ none ↦ none | some b' ↦ some (compensation_failed a b') ]
]
settle (step_failed n p e) = elim (settle e) [ none ↦ none | some e' ↦ some (step_failed n p e') ]
settle _ = none

pub record Deferral : Type 0 where
  pub delay : ℤ
  pub cause : Option Err
  pub error : Err

-- deferredDetails; `none` is ok = false.
unfoldable pub deferred_details : Err → Option Deferral
unfolding find normalize_duration settle
deferred_details e = elim (find retry_parts e) [
  | some parts ↦ some (record {
    delay = normalize_duration parts.0;
    cause = parts.1;
    error = elim (settle e) [ none ↦ e | some e' ↦ e' ];
  })
  | none ↦ elim (find snooze_parts e) [
    | some d ↦ some (record {
      delay = normalize_duration d;
      cause = none;
      error = snooze (normalize_duration d);
    })
    | none ↦ none
  ]
]

unfoldable pub is_deferred : Err → Bool
unfolding deferred_details
is_deferred e = is_some (deferred_details e)
