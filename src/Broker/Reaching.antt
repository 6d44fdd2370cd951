-- ===== src/Broker/Reaching.antt =====
-- The states of a broker that its steps reach (broker/broker.go).
use xutils.Prelude.{
  ℕ, suc, ◌<◌, ◌≤◌, Bool, true, false, ◌||◌, if◌then◌else◌, ltb, ◌==◌, ==_iff, ◌≡◌, refl, List, [],
  ◌∷◌, length, length-append, arith, sym, both, get_elem?,
}
use xutils.Broker.Model.{Broker, member, close_all_subscribers}
use xutils.Broker.Steps.{
  Event, start, stop, subscribe_check, subscribe_store, publish_check, publish_range, offer_send,
  offer_drop, unsubscribe_send, unsubscribe_drop, serve_stop, serve_unsub, serve_publish, receive,
  user_close, drop_first, enabled, after, Reach, created, stepped,
}
use xutils.Broker.Invariant.{Sound, Inv, same-Sound}
use xutils.Broker.Keeping.{
  put_buffer, idle-Inv, offer-Inv, queued, send_offer-Inv, take_unsub-Inv, take_publish-Inv,
  close_all-Inv,
}

either : (x y : Bool) (A : Type 0) → (x || y) ≡ true → (x ≡ true → A) → (y ≡ true → A) → A
either true y A h f g = f refl
either false y A h f g = g h

unshut : (b : Broker) (c : ℕ) → Sound b → c ≡ b.next → (x : Bool) → b.shut c ≡ x → x ≡ false
unshut b c h e true q = elim (absurd_of c b.next (h.shut_known c q) e) [ ]
  where
    absurd_of : (a d : ℕ) → a < d → a ≡ d → ⊥
    absurd_of a d h e = omega (arith, h, e)
unshut b c h e false q = refl

store-Sound : (b : Broker) → Sound b → Sound (after subscribe_store b)
unfolding after member
store-Sound b h = record {
  subs_open = λ c m.
      either (b.next == c) (member c b.subs) (b.shut c ≡ false) m
        (λ e. unshut b c h (sym ((==_iff b.next c).0 e)) (b.shut c) refl) (h.subs_open c);
  subs_known = λ c m.
      either (b.next == c) (member c b.subs) (c < suc b.next) m
        (λ e. omega (arith, (==_iff b.next c).0 e)) (λ k. omega (arith, h.subs_known c k));
  shut_known = λ c m. omega (arith, h.shut_known c m);
  no_crash = h.no_crash;
}

shorter : (xs : List ℕ) → length (drop_first xs) ≤ length xs
shorter [] = omega arith
shorter (x ∷ xs) = omega arith

plain-Inv :
    (a b : Broker)
    → a.intruded ≡ b.intruded
    → a.subs ≡ b.subs
    → a.next ≡ b.next
    → a.crashed ≡ b.crashed
    → ((c : ℕ) → a.shut c ≡ b.shut c)
    → ((c : ℕ) → a.buffer c ≡ b.buffer c)
    → a.publish_ch ≡ b.publish_ch
    → a.unsub_ch ≡ b.unsub_ch
    → Inv b
    → Inv a
plain-Inv a b i s n r f g p u h = idle-Inv a b i (same-Sound a b s n r f) g p u h

same-Inv : (a b : Broker) (x : Bool) → Inv b → Inv a → Inv (if x then b else a)
same-Inv a b true h g = h
same-Inv a b false h g = g

after-Inv : (e : Event) (b : Broker) → Inv b → enabled e b ≡ true → Inv (after e b)
unfolding after enabled
after-Inv start b h q = plain-Inv _ b refl refl refl refl (λ c. refl) (λ c. refl) refl refl h
after-Inv stop b h q =
    same-Inv (record b { closed = true; stop_ch_closed = true }) b b.closed h
      (plain-Inv _ b refl refl refl refl (λ c. refl) (λ c. refl) refl refl h)
after-Inv subscribe_check b h q =
    same-Inv (record b { subscribing = suc b.subscribing }) b b.closed h
      (plain-Inv _ b refl refl refl refl (λ c. refl) (λ c. refl) refl refl h)
after-Inv subscribe_store b h q = idle-Inv _ b refl (store-Sound b) (λ c. refl) refl refl h
after-Inv (publish_check msg) b h q =
    same-Inv (record b { publishing = msg ∷ b.publishing }) b b.closed h
      (plain-Inv _ b refl refl refl refl (λ c. refl) (λ c. refl) refl refl h)
after-Inv (publish_range i) b h q = offer-Inv i (get_elem? b.publishing i) b h
after-Inv (offer_send i) b h q =
    send_offer-Inv i (get_elem? b.offers i) b (both _ (ltb (length b.publish_ch) 16) q).1 h
after-Inv (offer_drop i) b h q =
    plain-Inv _ b refl refl refl refl (λ c. refl) (λ c. refl) refl refl h
after-Inv (unsubscribe_send ch) b h q = record {
  sound = λ e. same-Sound _ b refl refl refl (λ c. refl) (h.sound e);
  buffers = h.buffers;
  publish_queue = h.publish_queue;
  unsub_queue = queued (length b.unsub_ch) _ q (length-append b.unsub_ch (ch ∷ []));
}
after-Inv (unsubscribe_drop ch) b h q = h
after-Inv serve_stop b h q =
    plain-Inv _ (close_all_subscribers b) refl refl refl refl (λ c. refl) (λ c. refl) refl refl
      (close_all-Inv b h)
after-Inv serve_unsub b h q = take_unsub-Inv b.unsub_ch b refl h
after-Inv serve_publish b h q = take_publish-Inv b.publish_ch b refl h
after-Inv (receive ch) b h q = record {
  sound = λ e. same-Sound _ b refl refl refl (λ c. refl) (h.sound e);
  buffers = λ c.
      put_buffer (c == ch) (drop_first (b.buffer c)) (b.buffer c)
        (λ k. omega (arith, shorter (b.buffer c), h.buffers c)) (h.buffers c);
  publish_queue = h.publish_queue;
  unsub_queue = h.unsub_queue;
}
after-Inv (user_close ch) b h q = record {
  sound = λ e. cc;
  buffers = h.buffers;
  publish_queue = h.publish_queue;
  unsub_queue = h.unsub_queue;
}

-- In every state that Subscribe, Unsubscribe, Publish, Stop and the goroutine of Start reach, however
-- they interleave: no buffer holds more than 8 messages and no queue more than 16; and as long as no
-- subscriber has closed a channel itself, the channel of every subscriber is open, only channels that
-- Subscribe has made are closed, and none is closed twice, so that the goroutine of Start has not
-- panicked.
pub Broker-Inv : (b : Broker) → Reach b → Inv b
unfolding member
Broker-Inv b created = record {
  sound = λ e. record {
    subs_open = λ c m. refl;
    subs_known = λ c m. cc;
    shut_known = λ c m. cc;
    no_crash = refl;
  };
  buffers = λ c. omega arith;
  publish_queue = omega arith;
  unsub_queue = omega arith;
}
Broker-Inv _ (stepped e {b} r k q) = after-Inv e b (Broker-Inv b r) q
