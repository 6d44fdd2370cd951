-- ===== src/Pipeline/Deferral.antt =====
-- The deferral that an error carries (pipeline/errors.go, deferredDetails in pipeline/executor.go).
use xutils.Prelude.{ℤ, pos, Option, none, some, ◌≡◌, refl, arith, ◌≤ℤ◌, sym, subst, ◌∙◌, ap}
use xutils.Pipeline.Errors.{
  Err, opaque, text, wrapped, joined, no_compensate, snooze, retry_after, retry_because,
  snapshot_failed, repeat_limit, repeat_timeout, compact_compensation, migration_failed,
  compensation_failed, step_failed, poll_timeout, version_mismatch, panicked, normalize_duration,
  find, or_else, retry_parts, snooze_parts, settle, Deferral, deferred_details,
}

normalize_nonnegative : (d : ℤ) → pos 0 ≤ℤ normalize_duration d
unfolding normalize_duration
normalize_nonnegative d = ground arith

pub normalize_twice : (d : ℤ) → normalize_duration (normalize_duration d) ≡ normalize_duration d
unfolding normalize_duration
normalize_twice d = ground arith

abbrev normal : ℤ × Option Err → ℤ × Option Err
normal p = (normalize_duration p.0, p.1)

-- The first ErrRetryAfter of the tree is the one that is settled.
abbrev Settled : Option (ℤ × Option Err) → Option Err → Type 0
Settled none none = Unit {0}
Settled (some p) (some e') = (find retry_parts e' ≡ some (normal p)) × (settle e' ≡ some e')
Settled _ _ = ⊥

module _ (around : Err → Err) (found : (x : Err) → find retry_parts (around x) ≡ find retry_parts x)
    (settled : (x y : Err) → settle x ≡ some y → settle (around x) ≡ some (around y)) where
  under :
      (o : Option (ℤ × Option Err)) (t : Option Err)
      → Settled o t
      → Settled o (elim t [ none ↦ none | some e' ↦ some (around e') ])
  under none none h = tt
  under none (some e') h = h
  under (some p) none h = h
  under (some p) (some e') h = (found e' ∙ h.0, settled e' e' h.1)

module _ (both : Err → Err → Err)
    (found : (x y : Err)
      → find retry_parts (both x y) ≡ or_else (find retry_parts x) (find retry_parts y))
    (in_left : (x y x' : Err) → settle x ≡ some x' → settle (both x y) ≡ some (both x' y))
    (in_right : (x y y' : Err)
      → settle x ≡ none
      → settle y ≡ some y'
      → settle (both x y) ≡ some (both x y')) where
  pair :
      (a b : Err) (o1 o2 : Option (ℤ × Option Err)) (t1 t2 : Option Err)
      → find retry_parts a ≡ o1
      → settle a ≡ t1
      → Settled o1 t1
      → Settled o2 t2
      → Settled (or_else o1 o2) (elim t1 [
        | some a' ↦ some (both a' b)
        | none ↦ elim t2 [ none ↦ none | some b' ↦ some (both a b') ]
      ])
  pair a b none o2 (some a') t2 f s h1 h2 = elim h1 [ ]
  pair a b (some p) o2 none t2 f s h1 h2 = elim h1 [ ]
  pair a b (some p) o2 (some a') t2 f s h1 h2 =
      (found a' b ∙ ap (λ o. or_else o (find retry_parts b)) h1.0, in_left a' b a' h1.1)
  pair a b none none none none f s h1 h2 = tt
  pair a b none none none (some b') f s h1 h2 = h2
  pair a b none (some p) none none f s h1 h2 = h2
  pair a b none (some p) none (some b') f s h1 h2 =
      (found a b' ∙ ap (λ o. or_else o (find retry_parts b')) f ∙ h2.0, in_right a b' b' s h2.1)

settle-Settled : (e : Err) → Settled (find retry_parts e) (settle e)
unfolding find settle
settle-Settled (opaque n) = tt
settle-Settled (text s xs) = tt
settle-Settled no_compensate = tt
settle-Settled (snooze d) = tt
settle-Settled (retry_after d) = (refl, ap (λ z. some (retry_after z)) (normalize_twice d))
settle-Settled (retry_because d c) = (refl, ap (λ z. some (retry_because z c)) (normalize_twice d))
settle-Settled (repeat_limit n i) = tt
settle-Settled (repeat_timeout n d) = tt
settle-Settled (compact_compensation n p) = tt
settle-Settled (poll_timeout n d) = tt
settle-Settled (version_mismatch n a b c) = tt
settle-Settled panicked = tt
settle-Settled (wrapped s e) = under (wrapped s) (λ x. refl) (λ x y h. rw h) _ _ (settle-Settled e)
settle-Settled (snapshot_failed s e) =
    under (snapshot_failed s) (λ x. refl) (λ x y h. rw h) _ _ (settle-Settled e)
settle-Settled (migration_failed n f t e) =
    under (migration_failed n f t) (λ x. refl) (λ x y h. rw h) _ _ (settle-Settled e)
settle-Settled (step_failed n p e) =
    under (step_failed n p) (λ x. refl) (λ x y h. rw h) _ _ (settle-Settled e)
settle-Settled (joined a b) =
    pair joined (λ x y. refl) (λ x y x' h. rw h) (λ x y y' h h'. rw (h, h')) a b _ _ _ _ refl refl
      (settle-Settled a) (settle-Settled b)
settle-Settled (compensation_failed a b) =
    pair compensation_failed (λ x y. refl) (λ x y x' h. rw h) (λ x y y' h h'. rw (h, h')) a b _ _ _
      _ refl refl (settle-Settled a) (settle-Settled b)

abbrev deferral_of : Err → Option (ℤ × Option Err) → Option Err → Option ℤ → Option Deferral
deferral_of e (some p) t s = some (record {
  delay = normalize_duration p.0;
  cause = p.1;
  error = elim t [ none ↦ e | some e' ↦ e' ];
})
deferral_of e none t (some d) =
    some
      (record { delay = normalize_duration d; cause = none; error = snooze (normalize_duration d) })
deferral_of e none t none = none

details :
    (e : Err)
    → deferred_details e ≡ deferral_of e (find retry_parts e) (settle e) (find snooze_parts e)
unfolding deferred_details
details e = ground arith

abbrev Stable : Option Deferral → Type 0
Stable none = Unit {0}
Stable (some d) = (deferred_details d.error ≡ some d) × (pos 0 ≤ℤ d.delay)

deferral_of-Stable :
    (e : Err) (o : Option (ℤ × Option Err)) (t : Option Err) (s : Option ℤ)
    → Settled o t
    → Stable (deferral_of e o t s)
unfolding find
deferral_of-Stable e (some p) none s h = elim h [ ]
deferral_of-Stable e (some p) (some e') s h = (
  details e'
      ∙ ap (λ o. deferral_of e' o (settle e') (find snooze_parts e')) h.0
      ∙ ap (λ t. deferral_of e' (some (normal p)) t (find snooze_parts e')) h.1
      ∙ ap (λ z. some (record { delay = z; cause = p.1; error = e' })) (normalize_twice p.0),
  normalize_nonnegative p.0,
)
deferral_of-Stable e none t none h = tt
deferral_of-Stable e none t (some d) h = (
  details (snooze (normalize_duration d))
      ∙ ap (λ z. some (record { delay = z; cause = none; error = snooze z })) (normalize_twice d),
  normalize_nonnegative d,
)

-- The error that stands for a deferral (what Run returns to its scheduler) has the same deferral
-- as the error it was made from, with the same delay, cause and error, and the delay is not
-- negative, however the signal was wrapped or joined.
pub deferred_details-stable :
    (err : Err) (d : Deferral)
    → deferred_details err ≡ some d
    → (deferred_details d.error ≡ some d) × (pos 0 ≤ℤ d.delay)
deferred_details-stable err d h = subst Stable (sym (details err) ∙ h) (
    deferral_of-Stable err (find retry_parts err) (settle err) (find snooze_parts err)
      (settle-Settled err))
