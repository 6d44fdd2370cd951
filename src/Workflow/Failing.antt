-- ===== src/Workflow/Failing.antt =====
-- What Run makes of a failure (workflow/workflow.go: finish, Run).
use xutils.Prelude.{
  ℕ, List, Bool, true, false, ◌&&◌, Option, none, some, is_some, if◌then◌else◌, ◌≡◌, refl, arith,
  ap, sym, ◌∙◌,
}
use xutils.Bytes.{Bytes}
use xutils.Workflow.Errors.{Err}
use xutils.Workflow.State.{WorkflowState}
use xutils.Workflow.Model.{Live, Action, Snapshot, Workflow, set_state}
use xutils.Workflow.Policies.{err}
use xutils.Workflow.Snapshots.{pointers, get_snapshot}
use xutils.Workflow.Runs.{
  Verdict, returned, crashed, snapshot_then, report_failure, route, has_compensation, surface,
  compensate, finish,
}
use xutils.Workflow.Preserving.{Each}

-- A callback acts on the world and on nothing else.
abbrev pub WorldOnly : {W : Type 0} → Action W → Type 0
WorldOnly f = (s : Live _) → (f s).1 ≡ record s { world = (f s).1.world }

-- What finish comes to on the error `e` from the state `s`: the error that Run returns, and the state.
pub data Routing {W : Type 0} (m : Workflow W) (e : Err) (s : Live W) (r : Option Err) (t : Live W)
    : Type 0 where
  -- A compensation and an execution that had started: no error, and the next stage and step.
  compensated :
      (a b : Bytes)
      → m.compensation_stage ≡ some a
      → m.compensation_step ≡ some b
      → s.execution_started ≡ true
      → r ≡ none
      → t.state ≡ record s.state { error = some e; next_stage = a; next_step = b }
      → t.is_skip_error ≡ true
      → Routing m e s r t
  -- No compensation, or a failure before the execution: the error, or none where errors are skipped.
  uncompensated :
      (has_compensation m && s.execution_started) ≡ false
      → r ≡ (if s.is_skip_error then none else some e)
      → t.state ≡ s.state
      → t.is_skip_error ≡ s.is_skip_error
      → Routing m e s r t

-- Two states that differ in the world and in the step states at most.
record Alike {W : Type 0} (s t : Live W) : Type 0 where
  pub state : t.state ≡ s.state
  pub skips : t.is_skip_error ≡ s.is_skip_error
  pub started : t.execution_started ≡ s.execution_started

Alike-trans : {W : Type 0} {s t u : Live W} → Alike s t → Alike t u → Alike s u
Alike-trans v w = record {
  state = w.state ∙ v.state;
  skips = w.skips ∙ v.skips;
  started = w.started ∙ v.started;
}

module _ {W : Type 0} (m : Workflow W) (e : Err) where
  world-Alike : (f : Action W) (s : Live W) → WorldOnly f → Alike s (f s).1
  world-Alike f s h = record {
    state = ap (λ t. t.state) (h s);
    skips = ap (λ t. t.is_skip_error) (h s);
    started = ap (λ t. t.execution_started) (h s);
  }

  snapshot_then-Alike :
      (all : List ℕ) (s : Live W)
      → pointers m.stages ≡ some all
      → Each m.snapshot_fn (λ f. (sh : Snapshot) → WorldOnly (f sh))
      → (t : Live W) × Alike s t × ((next : Live W → Verdict W) → snapshot_then m s next ≡ next t)
  unfolding snapshot_then
  snapshot_then-Alike all s p h = choose m.snapshot_fn (pointers m.stages) p h
    where
      choose :
          (o : Option (Snapshot → Action W)) (ps : Option (List ℕ))
          → ps ≡ some all
          → Each o (λ f. (sh : Snapshot) → WorldOnly (f sh))
          → (t : Live W) × Alike s t
            × ((next : Live W → Verdict W)
                → Path
                    (Verdict W)
                    (elim o [
                      | none ↦ next s
                      | some f ↦ elim ps [
                        | none ↦ crashed
                        | some qs ↦ next (f (get_snapshot qs s) s).1
                      ]
                    ])
                    (next t))
      choose none ps p h = (s, record { state = refl; skips = refl; started = refl }, λ next. refl)
      choose (some f) none p h = cc
      choose (some f) (some qs) p h =
          ((f (get_snapshot qs s) s).1, world-Alike (f (get_snapshot qs s)) s (h _), λ next. refl)

  report-Alike :
      (s : Live W)
      → Each m.on_failure_fn (λ f. (e : Err) → WorldOnly (f e))
      → Alike s (report_failure m e s)
  unfolding report_failure
  report-Alike s h = choose m.on_failure_fn h
    where
      choose :
          (o : Option (Err → Action W))
          → Each o (λ f. (e : Err) → WorldOnly (f e))
          → Alike s (elim o [ none ↦ s | some f ↦ (f e s).1 ])
      choose none h = record { state = refl; skips = refl; started = refl }
      choose (some f) h = world-Alike (f e) s (h e)

  -- What finish returns from a state, and what it comes to from another one.
  abbrev Finishes : Live W → Verdict W → Type 0
  Finishes s v = (r : Option Err) × (u : Live W) × (v ≡ returned r u) × Routing m e s r u

  gate-on :
      (a b : Bytes) (t : Live W)
      → m.compensation_stage ≡ some a
      → m.compensation_step ≡ some b
      → t.execution_started ≡ true
      → (has_compensation m && t.execution_started) ≡ true
  unfolding has_compensation
  gate-on a b t qa qb qs = ground (arith, ap is_some qa, ap is_some qb, qs)

  gate-off :
      (t : Live W) (a b : Option Bytes) (x : Bool)
      → m.compensation_stage ≡ a
      → m.compensation_step ≡ b
      → t.execution_started ≡ x
      → ((is_some a && is_some b) && x) ≡ false
      → (has_compensation m && t.execution_started) ≡ false
  unfolding has_compensation
  gate-off t a b x qa qb qs h =
      ap (λ c. (is_some c && is_some m.compensation_step) && t.execution_started) qa
      ∙ ap (λ c. (is_some a && is_some c) && t.execution_started) qb
      ∙ ap (λ c. (is_some a && is_some b) && c) qs
      ∙ h

  uncompensated-Finishes :
      (s t : Live W)
      → Alike s t
      → (has_compensation m && t.execution_started) ≡ false
      → Finishes s (compensate m e t)
  unfolding compensate surface
  uncompensated-Finishes s t same off = (
    (if t.is_skip_error then none else some e),
    t,
    ap
        (λ g.
          if g
          then snapshot_then m (set_state (route m e m.compensation_stage m.compensation_step) t)
              (λ u. surface m e (record u { is_skip_error = true }))
          else surface m e t)
        off,
    uncompensated (ap (λ x. has_compensation m && x) (sym same.started) ∙ off)
        (ap (λ b. if b then none else some e) same.skips) same.state same.skips,
  )

  compensated-Finishes :
      (all : List ℕ) (s t : Live W) (a b : Bytes)
      → Alike s t
      → pointers m.stages ≡ some all
      → Each m.snapshot_fn (λ f. (sh : Snapshot) → WorldOnly (f sh))
      → m.compensation_stage ≡ some a
      → m.compensation_step ≡ some b
      → t.execution_started ≡ true
      → Finishes s (compensate m e t)
  unfolding compensate surface
  compensated-Finishes all s t a b same p h qa qb qs =
      let routed = set_state (route m e m.compensation_stage m.compensation_step) t in
      let v = snapshot_then-Alike all routed p h in
      let next = λ (u : Live W). surface m e (record u { is_skip_error = true }) in
      (
        none,
        record v.0 { is_skip_error = true },
        ap (λ g. if g then snapshot_then m routed next else surface m e t) (gate-on a b t qa qb qs)
            ∙ v.2 next,
        compensated a b qa qb (sym same.started ∙ qs) refl
            (v.1.state
              ∙ ap (λ x. route m e x m.compensation_step t.state) qa
              ∙ ap (λ y. route m e (some a) y t.state) qb
              ∙ ap {A = WorkflowState}
                  (λ w. record w { error = some e; next_stage = a; next_step = b }) same.state)
            refl,
      )

  compensate-Finishes :
      (all : List ℕ) (s t : Live W)
      → Alike s t
      → pointers m.stages ≡ some all
      → Each m.snapshot_fn (λ f. (sh : Snapshot) → WorldOnly (f sh))
      → Finishes s (compensate m e t)
  compensate-Finishes all s t same p h =
      choose m.compensation_stage m.compensation_step t.execution_started refl refl refl
    where
      choose :
          (a b : Option Bytes) (x : Bool)
          → m.compensation_stage ≡ a
          → m.compensation_step ≡ b
          → t.execution_started ≡ x
          → Finishes s (compensate m e t)
      choose (some a) (some b) true qa qb qs = compensated-Finishes all s t a b same p h qa qb qs
      choose none b x qa qb qs = uncompensated-Finishes s t same (gate-off t none b x qa qb qs refl)
      choose (some a) none x qa qb qs =
          uncompensated-Finishes s t same (gate-off t (some a) none x qa qb qs refl)
      choose (some a) (some b) false qa qb qs =
          uncompensated-Finishes s t same (gate-off t (some a) (some b) false qa qb qs refl)

-- What Run makes of a failed execution, on every branch. With both references of a compensation and
-- an execution that had started, it returns no error, and the state holds the error and the stage and
-- the step of the compensation as the next ones. Otherwise it returns the error and leaves the state
-- alone, but returns nil where errors are skipped, which a compensation of an earlier run has also
-- set. The stages have no nil pointer, and the callbacks act on the world only.
pub finish-Routing :
    {W : Type 0} (m : Workflow W) (e : Err) (all : List ℕ) (s : Live W)
    → pointers m.stages ≡ some all
    → Each m.snapshot_fn (λ f. (sh : Snapshot) → WorldOnly (f sh))
    → Each m.on_failure_fn (λ f. (e : Err) → WorldOnly (f e))
    → (r : Option Err) × (t : Live W) × (finish m (err e) s ≡ returned r t) × Routing m e s r t
unfolding finish
finish-Routing m e all s p h g =
    let v = snapshot_then-Alike m e all s p h in
    let w = report-Alike m e v.0 g in
    let same = Alike-trans v.1 w in
    let f = compensate-Finishes m e all s (report_failure m e v.0) same p h in
    (f.0, f.1, v.2 (λ t. compensate m e (report_failure m e t)) ∙ f.2, f.3)
