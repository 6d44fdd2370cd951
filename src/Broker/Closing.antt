-- ===== src/Broker/Closing.antt =====
-- What closing the channels of subscribers does (broker/broker.go: removeAndClose,
-- closeAllSubscribers).
use xutils.Prelude.{
  ℕ, Bool, true, false, not, ◌&&◌, ◌||◌, if◌then◌else◌, ◌==◌, ==_iff, ◌≡◌, refl, List, [], ◌∷◌,
  arith, ap, sym, ◌∙◌, subst,
}
use xutils.Broker.Model.{
  Broker, member, delete, close_channel, remove_and_close, close_each, close_all_subscribers,
}
use xutils.Broker.Handlers.{member-delete}

and_true : (x z : Bool) → (x || z) ≡ ((x && true) || z)
and_true true z = refl
and_true false z = refl

and_false : (x z : Bool) → z ≡ ((x && false) || z)
and_false true z = refl
and_false false z = refl

absent : (x y : Bool) → (x ≡ true → y ≡ false) → y ≡ (y && not x)
absent true y h = h refl ∙ sym (ap (λ k. k && false) (h refl))
absent false true h = refl
absent false false h = refl

and_not_false : (x : Bool) → (x && true) ≡ x
and_not_false true = refl
and_not_false false = refl

and_not : (x : Bool) → (x && not x) ≡ false
and_not true = refl
and_not false = refl

twice : (x z : Bool) → ((x && x) || z) ≡ (x || z)
twice true z = refl
twice false z = refl

neither : (x y z : Bool) → ((z && not x) && not y) ≡ (z && not (x || y))
neither true y true = refl
neither true y false = refl
neither false y true = refl
neither false y false = refl

no_more : (y z k : Bool) → ((y && (z && false)) || k) ≡ k
no_more true true k = refl
no_more true false k = refl
no_more false z k = refl

both_shut :
    (x y z w k : Bool)
    → (x ≡ true → w ≡ z)
    → ((y && (z && not x)) || ((x && w) || k)) ≡ (((x || y) && z) || k)
both_shut true y z w k h = ap (λ v. (y && (z && false)) || (v || k)) (h refl) ∙ no_more y z (z || k)
both_shut false true true w k h = refl
both_shut false true false w k h = refl
both_shut false false z w k h = refl

pub close-shut : (ch c : ℕ) (b : Broker) → (close_channel ch b).shut c ≡ ((ch == c) || b.shut c)
unfolding close_channel
close-shut ch c b = choose (b.shut ch) refl (ch == c) refl
  where
    turned : (a d : ℕ) → (d == a) ≡ (a == d)
    turned a d = ground arith

    choose :
        (x : Bool)
        → b.shut ch ≡ x
        → (y : Bool) → (ch == c) ≡ y
        → (if x
              then record b { crashed = true }
              else record b { shut = λ d. if d == ch then true else b.shut d }).shut
            c
          ≡ (y || b.shut c)
    choose true p true e = subst (λ d. b.shut d ≡ true) ((==_iff ch c).0 e) p
    choose true p false e = refl
    choose false p true e = ap (λ k. if k then true else b.shut c) (turned ch c ∙ e)
    choose false p false e = ap (λ k. if k then true else b.shut c) (turned ch c ∙ e)

pub close-subs : (ch : ℕ) (b : Broker) → (close_channel ch b).subs ≡ b.subs
unfolding close_channel
close-subs ch b = choose (b.shut ch)
  where
    choose :
        (x : Bool)
        → (if x
            then record b { crashed = true }
            else record b { shut = λ d. if d == ch then true else b.shut d }).subs
          ≡ b.subs
    choose true = refl
    choose false = refl

pub remove-shut :
    (ch c : ℕ) (b : Broker)
    → (remove_and_close ch b).shut c ≡ (((ch == c) && member ch b.subs) || b.shut c)
unfolding remove_and_close
remove-shut ch c b = choose (member ch b.subs)
  where
    choose :
        (x : Bool)
        → (if x then close_channel ch (record b { subs = delete ch b.subs }) else b).shut c
          ≡ (((ch == c) && x) || b.shut c)
    choose true =
        close-shut ch c (record b { subs = delete ch b.subs }) ∙ and_true (ch == c) (b.shut c)
    choose false = and_false (ch == c) (b.shut c)

pub remove-member :
    (ch c : ℕ) (b : Broker)
    → member c (remove_and_close ch b).subs ≡ (member c b.subs && not (ch == c))
unfolding remove_and_close
remove-member ch c b = choose (member ch b.subs) refl
  where
    choose :
        (x : Bool)
        → member ch b.subs ≡ x
        → member c (if x then close_channel ch (record b { subs = delete ch b.subs }) else b).subs
          ≡ (member c b.subs && not (ch == c))
    choose true e =
        ap (member c) (close-subs ch (record b { subs = delete ch b.subs }))
        ∙ member-delete c ch b.subs
    choose false e =
        absent (ch == c) (member c b.subs)
          (λ q. subst (λ d. member d b.subs ≡ false) ((==_iff ch c).0 q) e)

-- No subscriber's channel has been closed.
abbrev pub AllOpen : Broker → Type 0
AllOpen b = (c : ℕ) → member c b.subs ≡ true → b.shut c ≡ false

pub remove-crashed :
    (ch : ℕ) (b : Broker) → AllOpen b → b.crashed ≡ false → (remove_and_close ch b).crashed ≡ false
unfolding remove_and_close close_channel
remove-crashed ch b h k = choose (member ch b.subs) refl
  where
    closes :
        (x : Bool)
        → x ≡ false
        → (if x then record b { subs = delete ch b.subs; crashed = true } else record b {
          subs = delete ch b.subs;
          shut = λ d. if d == ch then true else b.shut d;
        }).crashed
          ≡ false
    closes true e = cc
    closes false e = k

    choose :
        (x : Bool)
        → member ch b.subs ≡ x
        → (if x then close_channel ch (record b { subs = delete ch b.subs }) else b).crashed ≡ false
    choose true e = closes (b.shut ch) (h ch e)
    choose false e = k

pub open_still :
    (x y k m : Bool) → (m && not x) ≡ true → (m ≡ true → k ≡ false) → ((x && y) || k) ≡ false
open_still true y k true h g = cc
open_still true y k false h g = cc
open_still false y k true h g = g refl
open_still false y k false h g = cc

remove-AllOpen : (ch : ℕ) (b : Broker) → AllOpen b → AllOpen (remove_and_close ch b)
remove-AllOpen ch b h c m =
    remove-shut ch c b
    ∙ open_still (ch == c) (member ch b.subs) (b.shut c) (member c b.subs)
        (sym (remove-member ch c b) ∙ m) (h c)

-- What closeAllSubscribers does over a part of the channels.
record Closed (chs : List ℕ) (b t : Broker) : Type 0 where
  pub shut : (c : ℕ) → t.shut c ≡ ((member c chs && member c b.subs) || b.shut c)
  pub left : (c : ℕ) → member c t.subs ≡ (member c b.subs && not (member c chs))
  pub no_crash : t.crashed ≡ false

close_each-Closed :
    (chs : List ℕ) (b : Broker) → AllOpen b → b.crashed ≡ false → Closed chs b (close_each chs b)
unfolding close_each member
close_each-Closed [] b h k = record {
  shut = λ c. refl;
  left = λ c. sym (and_not_false (member c b.subs));
  no_crash = k;
}
close_each-Closed (ch ∷ chs) b h k =
    let t = remove_and_close ch b in
    let live = remove-crashed ch b h k in
    let r = close_each-Closed chs t (remove-AllOpen ch b h) live in
    rw live (record {
      shut = λ c.
          r.shut c
          ∙ ap (λ k. (member c chs && k) || t.shut c) (remove-member ch c b)
          ∙ ap (λ k. (member c chs && (member c b.subs && not (ch == c))) || k) (remove-shut ch c b)
          ∙ both_shut (ch == c) (member c chs) (member c b.subs) (member ch b.subs) (b.shut c)
              (λ q. ap (λ d. member d b.subs) ((==_iff ch c).0 q));
      left = λ c.
          r.left c
          ∙ ap (λ k. k && not (member c chs)) (remove-member ch c b)
          ∙ neither (ch == c) (member c chs) (member c b.subs);
      no_crash = r.no_crash;
    })

no_members : (xs : List ℕ) → ((c : ℕ) → member c xs ≡ false) → xs ≡ []
unfolding member
no_members [] h = refl
no_members (x ∷ xs) h = elim (contrary x (member x xs) (h x)) [ ]
  where
    contrary : (x : ℕ) (k : Bool) → (x == x || k) ≡ false → ⊥
    contrary x k h = ground (arith, h)

-- As long as no subscriber has closed its channel itself, closeAllSubscribers does not panic, leaves no
-- subscriber, closes the channels of all that there were, and closes no other channel.
pub close_all_subscribers-closes :
    (b : Broker)
    → AllOpen b
    → b.crashed ≡ false
    → ((close_all_subscribers b).crashed ≡ false)
      × ((close_all_subscribers b).subs ≡ [])
      × ((c : ℕ) → (close_all_subscribers b).shut c ≡ (member c b.subs || b.shut c))
unfolding close_all_subscribers
close_all_subscribers-closes b h k =
    let r = close_each-Closed b.subs b h k in
    (
      r.no_crash,
      no_members (close_each b.subs b).subs (λ c. r.left c ∙ and_not (member c b.subs)),
      λ c. r.shut c ∙ twice (member c b.subs) (b.shut c),
    )
