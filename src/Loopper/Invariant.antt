-- ===== src/Loopper/Invariant.antt =====
-- What holds of a loop in every state (loopper/loop.go).
use xutils.Prelude.{ℕ, suc, ◌+◌, Bool, true, false, ◌≡◌, refl, ap, arith, if◌then◌else◌, ◌||◌, both}
use xutils.Loopper.Model.{
  Ticker, absent, starting, ticking, ended, Loop, Event, start, launch, stop, cancel, parent_done,
  end_ticker, claim, overlap, admit, reject, reset, finish, close, is_starting, is_ticking, enabled,
  after, Reach, created, stepped,
}

abbrev pub one_if : Bool → ℕ
one_if true = 1
one_if false = 0

-- The ticker goroutine has not returned.
abbrev pub live : Ticker → ℕ
live starting = 1
live ticking = 1
live _ = 0

pub record Inv (s : Loop) : Type 0 where
  -- The flag is set while exactly one goroutine has it: on its way into fn, in fn or on its way out.
  pub one_owner : s.claiming + s.rejected + s.bodies ≡ one_if s.running
  -- The wait group counts the ticker and the iterations up to their wg.Done.
  pub counted : s.wg ≡ live s.ticker + s.bodies + s.closing
  pub unstarted : s.started ≡ false → s.ticker ≡ absent
  -- A ticker of a stopped loop has a context that is done or about to be.
  pub noticed : s.stopped ≡ true → live s.ticker ≡ 1 → (s.cancelling || s.cancelled) ≡ true

no_left : (a b : Bool) → (a || b) ≡ false → (a ≡ false) × (b ≡ false)
no_left true b h = cc
no_left false b h = (refl, h)

start-Inv : (s : Loop) → Inv s → Inv (after start s)
unfolding after
start-Inv s h = choose (s.started || s.stopped) refl
  where
    choose :
        (b : Bool)
        → (s.started || s.stopped) ≡ b
        → Inv (if b then s else record s { started = true; wg = suc s.wg; ticker = starting })
    choose true e = h
    choose false e = record {
      one_owner = h.one_owner;
      counted = omega (arith, h.counted, ap live (h.unstarted (no_left _ _ e).0));
      unstarted = λ q. cc;
      noticed = λ q r. cc (q, (no_left s.started s.stopped e).1);
    }

stop-Inv : (s : Loop) → Inv s → Inv (after stop s)
unfolding after
stop-Inv s h = choose s.stopped refl
  where
    live_started : (b : Bool) → s.started ≡ b → live s.ticker ≡ 1 → (b || s.cancelled) ≡ true
    live_started true e l = refl
    live_started false e l = elim (absurd_of (ap live (h.unstarted e)) l) [ ]
      where
        absurd_of : {n : ℕ} → n ≡ 0 → n ≡ 1 → ⊥
        absurd_of a b = omega (arith, a, b)

    choose :
        (b : Bool)
        → s.stopped ≡ b
        → Inv (if b then s else record s { stopped = true; cancelling = s.started })
    choose true e = h
    choose false e = record {
      one_owner = h.one_owner;
      counted = h.counted;
      unstarted = h.unstarted;
      noticed = λ q l. live_started s.started refl l;
    }

ticker-live : (t : Ticker) → is_starting t ≡ true → live t ≡ 1
ticker-live absent h = cc
ticker-live starting h = refl
ticker-live ticking h = refl
ticker-live ended h = cc

ticking-live : (t : Ticker) → is_ticking t ≡ true → live t ≡ 1
ticking-live absent h = cc
ticking-live starting h = cc
ticking-live ticking h = refl
ticking-live ended h = cc

or_true : (b : Bool) → (b || true) ≡ true
or_true true = refl
or_true false = refl

zero_one : ◌≡◌ {A = ℕ} 0 1 → ⊥
zero_one h = omega (arith, h)

pub after-Inv : (e : Event) (s : Loop) → Inv s → enabled e s ≡ true → Inv (after e s)
unfolding after enabled
after-Inv start s h q = start-Inv s h
after-Inv stop s h q = stop-Inv s h
after-Inv launch s h q = record {
  one_owner = h.one_owner;
  counted = omega (arith, h.counted, ticker-live s.ticker q);
  unstarted = λ a. cc (q, ap is_starting (h.unstarted a));
  noticed = λ a b. h.noticed a (ticker-live s.ticker q);
}
after-Inv cancel s h q = record {
  one_owner = h.one_owner;
  counted = h.counted;
  unstarted = h.unstarted;
  noticed = λ a b. refl;
}
after-Inv parent_done s h q = record {
  one_owner = h.one_owner;
  counted = h.counted;
  unstarted = h.unstarted;
  noticed = λ a b. or_true s.cancelling;
}
after-Inv end_ticker s h q =
    let b = both (is_ticking s.ticker) s.cancelled q in
    record {
      one_owner = h.one_owner;
      counted = omega (arith, h.counted, ticking-live s.ticker b.0);
      unstarted = λ a. cc (b.0, ap is_ticking (h.unstarted a));
      noticed = λ a b. elim (zero_one b) [ ];
    }
after-Inv claim s h q = record {
  one_owner = ground (arith, h.one_owner, q);
  counted = h.counted;
  unstarted = h.unstarted;
  noticed = h.noticed;
}
after-Inv overlap s h q = h
after-Inv admit s h q = record {
  one_owner = ground (arith, h.one_owner, q);
  counted = omega (arith, h.counted);
  unstarted = h.unstarted;
  noticed = h.noticed;
}
after-Inv reject s h q = record {
  one_owner = ground (arith, h.one_owner, q);
  counted = h.counted;
  unstarted = h.unstarted;
  noticed = h.noticed;
}
after-Inv reset s h q = record {
  one_owner = ground (arith, h.one_owner, q);
  counted = h.counted;
  unstarted = h.unstarted;
  noticed = h.noticed;
}
after-Inv finish s h q = record {
  one_owner = ground (arith, h.one_owner, q);
  counted = ground (arith, h.counted, q);
  unstarted = h.unstarted;
  noticed = h.noticed;
}
after-Inv close s h q = record {
  one_owner = h.one_owner;
  counted = ground (arith, h.counted, q);
  unstarted = h.unstarted;
  noticed = h.noticed;
}

-- In every state that Start, Trigger and Stop reach, however they interleave with each other and with
-- the goroutines that they start: the running flag is set exactly while one goroutine has it, so that
-- at most one is in fn; the wait group counts the ticker goroutine and the iterations that have not
-- called Done; and the ticker of a stopped loop has a context that is done, or that Stop is about to
-- cancel.
pub Loop-Inv : (s : Loop) → Reach s → Inv s
Loop-Inv s created = record {
  one_owner = refl;
  counted = refl;
  unstarted = λ h. refl;
  noticed = λ a b. elim (zero_one b) [ ];
}
Loop-Inv _ (stepped e {s} r q) = after-Inv e s (Loop-Inv s r) q
