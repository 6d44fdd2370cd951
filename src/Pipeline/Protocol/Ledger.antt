-- ===== src/Pipeline/Protocol/Ledger.antt =====
-- The snapshots among the calls of a run (pipeline/executor.go: snapshot).
use xutils.Prelude.{ℕ, ◌+◌, ◌%◌, ◌^◌, List, [], ◌∷◌, Option, none, some, ◌≡◌, true, ◌⊎◌}
use xutils.Pipeline.Errors.{Err, is_snapshot_failed}
use xutils.Pipeline.State.{RunStatus}
use xutils.Pipeline.Machine.{Call, called, saved, migrated, Machine}

-- No snapshot has failed.
abbrev pub Clean : List Call → Type 0
Clean [] = Unit {0}
Clean (called c p r ∷ cs) = Clean cs
Clean (saved op s none ∷ cs) = Clean cs
Clean (saved op s (some err) ∷ cs) = ⊥
Clean (migrated v s r ∷ cs) = Clean cs

-- The revision last made durable, `base` before any snapshot; a migration brings its own.
abbrev pub durable : ℕ → List Call → ℕ
durable base [] = base
durable base (called c p r ∷ cs) = durable base cs
durable base (saved op s none ∷ cs) = s.revision
durable base (saved op s (some err) ∷ cs) = durable base cs
durable base (migrated v s none ∷ cs) = s.revision
durable base (migrated v s (some err) ∷ cs) = durable base cs

-- Every snapshot offers the revision that follows the durable one.
abbrev pub Sequential : ℕ → List Call → Type 0
Sequential base [] = Unit {0}
Sequential base (called c p r ∷ cs) = Sequential base cs
Sequential base (saved op s r ∷ cs) =
    (s.revision ≡ (durable base cs + 1) % 2 ^ 64) × Sequential base cs
Sequential base (migrated v s r ∷ cs) = Sequential base cs

-- No snapshot failed, all were in sequence, and the state carries the durable revision.
pub record Sound (base revision : ℕ) (calls : List Call) : Type 0 where
  pub clean : Clean calls
  pub sequential : Sequential base calls
  pub current : revision ≡ durable base calls

-- The last call of all is a snapshot that failed; before it all was sound.
abbrev pub Broken : ℕ → ℕ → List Call → Type 0
Broken base revision (saved op s (some err) ∷ cs) =
    (s.revision ≡ (revision + 1) % 2 ^ 64) × Sound base revision cs
Broken base revision _ = ⊥

module _ {W V : Type 0} (base : ℕ) (Done : RunStatus → Type 0) where
  -- The result of a method: nil with a status in `Done` and a sound ledger; an error with a sound
  -- ledger; or the error of the snapshot that ended the run.
  abbrev pub Verdict : Option Err → Machine W V → Type 0
  Verdict none m = Sound base m.run.revision m.calls × Done m.run.status
  Verdict (some err) m =
      Sound base m.run.revision m.calls
      ⊎ Broken base m.run.revision m.calls × (is_snapshot_failed err ≡ true)

  pub record Good (out : Option Err × Machine W V) : Type 0 where
    pub verdict : Verdict out.0 out.1
