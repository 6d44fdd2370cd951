-- ===== src/Pipeline/Protocol/Rules.antt =====
-- A rule for each way in which the methods of pipeline/executor.go are put together.
use xutils.Prelude.{
  ℕ, ◌+◌, ◌%◌, ◌^◌, List, ◌∷◌, Option, none, some, ◌≡◌, refl, true, false, ◌⊎◌, inl, inr, String,
  Bool, is_some, if◌then◌else◌, Option-cases, ap, sym, subst,
}
use xutils.Pipeline.Errors.{Err, is_snapshot_failed}
use xutils.Pipeline.State.{RunStatus}
use xutils.Pipeline.Definition.{Executor, ActionFunc}
use xutils.Pipeline.Machine.{
  when◌then◌else◌, Call, Callback, call_action, called, Machine, M, return, or_return, on_result,
  unless_cancelled, candidate, marshal_data, snapshot, ctx_err, commit, keep_data, marshal_store,
}
use xutils.Bytes.{Bytes, StepPath}
use xutils.Bytes.Dict.{Dict}
use xutils.Pipeline.Protocol.Ledger.{Sound, Verdict, Good}

module _ {W V : Type 0} (P : Option Err × Machine W V → Type 0) where
  pub on_result-elim :
      (r : Option Err) (bad : Err → M W V (Option Err)) (good : M W V (Option Err))
      (m : Machine W V)
      → ((err : Err) → P (bad err m))
      → P (good m)
      → P (on_result r bad good m)
  unfolding on_result
  on_result-elim none bad good m hb hg = hg
  on_result-elim (some err) bad good m hb hg = hb err

  pub or_return-elim :
      (r : Option Err) (k : M W V (Option Err)) (m : Machine W V)
      → ((err : Err) → P (some err, m))
      → P (k m)
      → P (or_return r k m)
  unfolding or_return
  or_return-elim none k m hb hg = hg
  or_return-elim (some err) k m hb hg = hb err

  pub when-elim :
      (b : Bool) (x y : M W V (Option Err)) (m : Machine W V)
      → (b ≡ true → P (x m))
      → (b ≡ false → P (y m))
      → P ((when b then x else y) m)
  unfolding when◌then◌else◌
  when-elim true x y m hx hy = hx refl
  when-elim false x y m hx hy = hy refl

abbrev pub SoundAt : {W V : Type 0} → ℕ → Machine W V → Type 0
SoundAt base m = Sound base m.run.revision m.calls

-- A snapshot of an executor without a persistence callback does nothing; with one, it is the commit of
-- what the callback returned.
pub snapshot_kinds :
    {W V : Type 0} (e : Executor W V) (op : String) (m : Machine W V)
    → ((e.cas_snapshot_fn ≡ none) × (e.snapshot_fn ≡ none) × (snapshot e op m ≡ (none, m)))
      ⊎ ((r : Option Err) × (w : W) × (snapshot e op m ≡ commit e op r w m))
unfolding snapshot
snapshot_kinds e op m = elim (Option-cases e.cas_snapshot_fn) [
  | inr (f, h) ↦ inr (
    (f m.run.revision (candidate m.run) m.world).0,
    (f m.run.revision (candidate m.run) m.world).1,
    rw h,
  )
  | inl h ↦ elim (Option-cases e.snapshot_fn) [
    | inr (f, h') ↦
        inr ((f (candidate m.run) m.world).0, (f (candidate m.run) m.world).1, rw (h, h'))
    | inl h' ↦ inl (h, h', rw (h, h'))
  ]
]

-- A snapshot calls no function, or is the commit of what the persistence callback returned.
pub snapshot-cases :
    {W V : Type 0} (e : Executor W V) (op : String) (m : Machine W V)
    → (snapshot e op m ≡ (none, m))
      ⊎ ((r : Option Err) × (w : W) × (snapshot e op m ≡ commit e op r w m))
snapshot-cases e op m = elim (snapshot_kinds e op m) [
  | inl (no_cas, no_fn, h) ↦ inl h
  | inr h ↦ inr h
]

-- A callback leaves the ledger as it is.
pub called-Sound :
    (kind : Callback) (path : StepPath) (r : Option Err) {base revision : ℕ} {calls : List Call}
    → Sound base revision calls
    → Sound base revision (called kind path r ∷ calls)
called-Sound kind path r s = record {
  clean = s.clean;
  sequential = s.sequential;
  current = s.current;
}

pub call_action-SoundAt :
    {W V : Type 0} {base : ℕ} (kind : Callback) (path : StepPath) (f : ActionFunc W V)
    (m : Machine W V)
    → SoundAt base m
    → SoundAt base (call_action kind path f m).1
unfolding call_action
call_action-SoundAt kind path f m s = called-Sound kind path (f m.store m.world).0 s

module _ {W V : Type 0} (e : Executor W V) (base : ℕ) (Done : RunStatus → Type 0) where
  -- What follows an action: the result of the action, with the rest where there is no error.
  abbrev pub Next : M W V (Option Err) → Option Err × Machine W V → Type 0
  Next k out = Good base Done (or_return out.0 k out.1)

  -- The rest of a method, from a sound machine of the status of `m`.
  abbrev pub Continues : Machine W V → M W V (Option Err) → Type 0
  Continues m k =
      (m' : Machine W V) → SoundAt base m' → m'.run.status ≡ m.run.status → Good base Done (k m')

  commit-Good :
      (op : String) (r : Option Err) (w : W) (m : Machine W V) (k : M W V (Option Err))
      → SoundAt base m
      → Continues m k
      → Next k (commit e op r w m)
  unfolding commit is_snapshot_failed or_return
  commit-Good op none w m k s rest =
      rest (commit e op none w m).1
        (record {
          clean = s.clean;
          sequential = (ap (λ (t : ℕ). (t + 1) % 2 ^ 64) s.current, s.sequential);
          current = refl;
        })
        refl
  commit-Good op (some err) w m k s rest = record { verdict = inr ((refl, s), refl) }

  -- An error without a broken ledger.
  pub fail-Good : (err : Err) (m : Machine W V) → SoundAt base m → Good base Done (some err, m)
  fail-Good err m s = record { verdict = inl s }

  -- A snapshot, and the rest if it succeeds.
  pub snapshot-Good :
      (op : String) (m : Machine W V) (k : M W V (Option Err))
      → SoundAt base m
      → Continues m k
      → Next k (snapshot e op m)
  unfolding or_return
  snapshot-Good op m k s rest = elim (snapshot-cases e op m) [
    | inl h ↦ subst (Next k) (sym h) (rest m s refl)
    | inr (r, w, h) ↦ subst (Next k) (sym h) (commit-Good op r w m k s rest)
  ]

  -- The rest after a call that leaves the world alone too.
  abbrev Undisturbed : Machine W V → M W V (Option Err) → Type 0
  Undisturbed m k =
      (m' : Machine W V)
      → SoundAt base m'
      → m'.run.status ≡ m.run.status
      → m'.world ≡ m.world
      → Good base Done (k m')

  marshalled-Good :
      (r : Option Err) (d : Dict Bytes) (m : Machine W V) (k : M W V (Option Err))
      → SoundAt base m
      → Undisturbed m k
      → Next k (r, record m { run = keep_data e r d m.run })
  unfolding keep_data or_return
  marshalled-Good none d m k s rest =
      rest (record m { run = record m.run { data_json = d } }) s refl refl
  marshalled-Good (some err) d m k s rest = record { verdict = inl s }

  -- The data of the store is marshalled, and the rest follows in the same world if that succeeds.
  pub marshal_in_world-Good :
      (m : Machine W V) (k : M W V (Option Err))
      → SoundAt base m
      → Undisturbed m k
      → Next k (marshal_data e m)
  unfolding marshal_data
  marshal_in_world-Good m k s rest =
      marshalled-Good (marshal_store e m.store).0 (marshal_store e m.store).1 m k s rest

  pub marshal-Good :
      (m : Machine W V) (k : M W V (Option Err))
      → SoundAt base m
      → Continues m k
      → Next k (marshal_data e m)
  marshal-Good m k s rest = marshal_in_world-Good m k s (λ m' s' same _. rest m' s' same)

  plain-Good : (out : Option Err × Machine W V) → Next (return none) out → Good base Done out
  unfolding or_return
  plain-Good (none, m) h = h
  plain-Good (some err, m) h = h

  -- A snapshot that ends a method.
  pub snapshot_last-Good :
      (op : String) (m : Machine W V)
      → SoundAt base m
      → Done m.run.status
      → Good base Done (snapshot e op m)
  snapshot_last-Good op m s d = plain-Good (snapshot e op m) (
      snapshot-Good op m (return none) s
        (λ m' s' same. record { verdict = (s', subst Done (sym same) d) }))

  -- The machine after a read of the context.
  abbrev pub after_read : Machine W V → Machine W V
  after_read m = record m { world = (e.ctx_err m.world).1 }

  -- A test of the context: the rest, or what follows a cancellation.
  pub unless_cancelled-Good :
      (m : Machine W V) (stop rest : M W V (Option Err))
      → SoundAt base m
      → (is_some (e.ctx_err m.world).0 ≡ true → Good base Done (stop (after_read m)))
      → Continues m rest
      → Good base Done (unless_cancelled e stop rest m)
  unfolding unless_cancelled
  unless_cancelled-Good m stop rest s hs hr =
      when-elim (Good base Done) (is_some (e.ctx_err m.world).0) stop rest (after_read m) hs
        (λ _. hr (after_read m) s refl)

  error-Verdict :
      (r : Option Err) (m : Machine W V) → SoundAt base m → is_some r ≡ true → Verdict base Done r m
  error-Verdict none m s h = cc
  error-Verdict (some err) m s h = inl s

  -- A cancelled context stays cancelled: what is returned after the test is its error.
  pub ctx_err-Good :
      (w : W) (m : Machine W V)
      → ((v : W) → is_some (e.ctx_err v).0 ≡ true → is_some (e.ctx_err (e.ctx_err v).1).0 ≡ true)
      → SoundAt base m
      → is_some (e.ctx_err w).0 ≡ true
      → m.world ≡ (e.ctx_err w).1
      → Good base Done (ctx_err e m)
  unfolding ctx_err
  ctx_err-Good w m sticky s h at = record {
    verdict = error-Verdict (e.ctx_err m.world).0 (after_read m) s (rw at (sticky w h));
  }
