-- ===== src/Pipeline/Rollback/Plan.antt =====
-- What a run of compensators has undone and what is still due (pipeline/executor.go).
use xutils.Prelude.{
  ℕ, zero, suc, negsuc, List, [], ◌∷◌, Option, none, some, ◌≡◌, ◌&&◌, get_elem?, if◌then◌else◌, inl,
  inr, subst, ◌∙◌, sym, ap, is_some, String,
}
use xutils.Bytes.{Bytes, StepPath}
use xutils.Bytes.Dict.{Dict}
use xutils.Pipeline.Errors.{Err}
use xutils.Pipeline.State.{CompletedStep}
use xutils.Pipeline.Definition.{Executor, Steps}
use xutils.Pipeline.Machine.{
  compensate, Call, called, saved, migrated, Machine, M, or_return, marshal_data, keep_data,
  snapshot, commit,
}
use xutils.Pipeline.Engine.Lookup.{find_step}
use xutils.Pipeline.Engine.Compensate.{compensator_of, indices_left}
use xutils.Pipeline.Protocol.Rules.{snapshot-cases}

-- The path of a completed step whose compensator the definition still has.
abbrev pub due_at :
    {W V : Type 0} → Steps W V → Option CompletedStep → List StepPath → List StepPath
due_at steps none rest = rest
due_at steps (some c) rest =
    if c.has_compensator && is_some (compensator_of (find_step steps c.path))
    then c.path ∷ rest
    else rest

-- The steps to compensate below an index, the last one first.
abbrev pub due : {W V : Type 0} → Steps W V → List CompletedStep → ℕ → List StepPath
due steps done zero = []
due steps done (suc i) = due_at steps (get_elem? done i) (due steps done i)

-- The steps compensated with success by the calls of a run, in the order of the calls, and then `rest`.
abbrev pub undone_then : List Call → List StepPath → List StepPath
undone_then [] rest = rest
undone_then (called compensate p none ∷ calls) rest = undone_then calls (p ∷ rest)
undone_then (called _ _ _ ∷ calls) rest = undone_then calls rest
undone_then (saved _ _ _ ∷ calls) rest = undone_then calls rest
undone_then (migrated _ _ _ ∷ calls) rest = undone_then calls rest

module _ {W V : Type 0} where
  -- The plan is kept; a nil result leaves nothing due.
  abbrev pub Outcome : Option Err → Machine W V → Type 0
  Outcome none m = m.run.compensation_index ≡ negsuc 0
  Outcome (some err) m = Unit {0}

  -- What leaves the index, the completed steps and what was undone.
  pub record Quiet (m m' : Machine W V) : Type 0 where
    pub index : m'.run.compensation_index ≡ m.run.compensation_index
    pub done : m'.run.completed_steps ≡ m.run.completed_steps
    pub undone : (rest : List StepPath) → undone_then m'.calls rest ≡ undone_then m.calls rest

module _ {W V : Type 0} (steps : Steps W V) where
  -- What has been undone, and then what is still due by the index of the state.
  abbrev pub plan : Machine W V → List StepPath
  plan m =
      undone_then m.calls (due steps m.run.completed_steps (indices_left m.run.compensation_index))

  pub record Planned (ps : List StepPath) (out : Option Err × Machine W V) : Type 0 where
    pub same : plan out.1 ≡ ps
    pub outcome : Outcome out.0 out.1

  pub plan-Quiet : (m m' : Machine W V) → Quiet m m' → plan m' ≡ plan m
  plan-Quiet m m' q =
      q.undone _
      ∙ ap (undone_then m.calls) (
          ap (due steps m'.run.completed_steps) (ap indices_left q.index)
          ∙ ap (λ d. due steps d (indices_left m.run.compensation_index)) q.done)

  pub stop-Planned : (m m' : Machine W V) (err : Err) → Quiet m m' → Planned (plan m) (some err, m')
  stop-Planned m m' err q = record { same = plan-Quiet m m' q; outcome = tt }

  -- A quiet method and what follows it.
  pub next-Planned :
      (m : Machine W V) (out : Option Err × Machine W V) (k : M W V (Option Err))
      → Quiet m out.1
      → ((m' : Machine W V) → Quiet m m' → Planned (plan m) (k m'))
      → Planned (plan m) (or_return out.0 k out.1)
  unfolding or_return
  next-Planned m (none, m') k q h = h m' q
  next-Planned m (some err, m') k q h = stop-Planned m m' err q

  pub last-Planned :
      (m : Machine W V) (out : Option Err × Machine W V)
      → Quiet m out.1
      → m.run.compensation_index ≡ negsuc 0
      → Planned (plan m) out
  last-Planned m (none, m') q h = record { same = plan-Quiet m m' q; outcome = q.index ∙ h }
  last-Planned m (some err, m') q h = stop-Planned m m' err q

module _ {W V : Type 0} (e : Executor W V) where
  commit-Quiet :
      (op : String) (r : Option Err) (w : W) (m0 m : Machine W V)
      → Quiet m0 m
      → Quiet m0 (commit e op r w m).1
  unfolding commit
  commit-Quiet op none w m0 m q = record { index = q.index; done = q.done; undone = q.undone }
  commit-Quiet op (some err) w m0 m q = record { index = q.index; done = q.done; undone = q.undone }

  pub snapshot-Quiet :
      (op : String) (m0 m : Machine W V) → Quiet m0 m → Quiet m0 (snapshot e op m).1
  snapshot-Quiet op m0 m q = elim (snapshot-cases e op m) [
    | inl h ↦ subst (λ out. Quiet m0 out.1) (sym h) q
    | inr (r, w, h) ↦ subst (λ out. Quiet m0 out.1) (sym h) (commit-Quiet op r w m0 m q)
  ]

  marshalled-Quiet :
      (r : Option Err) (d : Dict Bytes) (m0 m : Machine W V)
      → Quiet m0 m
      → Quiet m0 (record m { run = keep_data e r d m.run })
  unfolding keep_data
  marshalled-Quiet none d m0 m q = record { index = q.index; done = q.done; undone = q.undone }
  marshalled-Quiet (some err) d m0 m q = record {
    index = q.index;
    done = q.done;
    undone = q.undone;
  }

  pub marshal-Quiet : (m0 m : Machine W V) → Quiet m0 m → Quiet m0 (marshal_data e m).1
  unfolding marshal_data
  marshal-Quiet m0 m q = marshalled-Quiet _ _ m0 m q

module _ {W V : Type 0} (e : Executor W V) (steps : Steps W V) where
  -- The data is marshalled, a snapshot is taken, and the rest follows.
  pub save-Planned :
      (op : String) (m0 m : Machine W V) (k : M W V (Option Err))
      → Quiet m0 m
      → ((m' : Machine W V) → Quiet m0 m' → Planned steps (plan steps m0) (k m'))
      → Planned steps (plan steps m0) (
          or_return
            (marshal_data e m).0
            (λ m1. or_return (snapshot e op m1).0 k (snapshot e op m1).1)
            (marshal_data e m).1)
  save-Planned op m0 m k q h =
      next-Planned steps m0 (marshal_data e m) _ (marshal-Quiet e m0 m q)
        (λ m1 q1. next-Planned steps m0 (snapshot e op m1) k (snapshot-Quiet e op m0 m1 q1) h)
