-- ===== src/Broker/Keeping.antt =====
-- The handlers of the broker and the invariant (broker/broker.go).
use xutils.Prelude.{
  ℕ, ◌+◌, ◌≤◌, Bool, true, false, if◌then◌else◌, ltb, ◌==◌, ==_iff, ◌≡◌, refl, List, [], ◌∷◌, ◌++◌,
  length, length-append, arith, ap, sym, ◌∙◌, subst, both, Option, none, some,
}
use xutils.Broker.Model.{Envelope, Broker, delete, close_all_subscribers, safe_send, broadcast}
use xutils.Broker.Steps.{not_empty, offer, send_offer, take_unsub, take_publish}
use xutils.Broker.Handlers.{member-delete}
use xutils.Broker.Invariant.{Sound, Inv, same-Sound, remove-Inv, close_each-Inv}

delete-Sound : (ch : ℕ) (b : Broker) → Sound b → Sound (record b { subs = delete ch b.subs })
delete-Sound ch b h = record {
  subs_open = λ c m. h.subs_open c (both _ _ (sym (member-delete c ch b.subs) ∙ m)).0;
  subs_known = λ c m. h.subs_known c (both _ _ (sym (member-delete c ch b.subs) ∙ m)).0;
  shut_known = h.shut_known;
  no_crash = h.no_crash;
}

if-Inv :
    (x : Bool) (a b : Broker) → (x ≡ true → Inv a) → (x ≡ false → Inv b) → Inv (if x then a else b)
if-Inv true a b h g = h refl
if-Inv false a b h g = g refl

room-left : (n : ℕ) → ltb n 8 ≡ true → n + 1 ≤ 8
room-left n h = ground (arith, h)

appended : (xs : List ℕ) (msg : ℕ) → ltb (length xs) 8 ≡ true → length (xs ++ msg ∷ []) ≤ 8
appended xs msg h = omega (arith, length-append xs (msg ∷ []), room-left (length xs) h)

pub put_buffer :
    (x : Bool) (xs ys : List ℕ)
    → (x ≡ true → length xs ≤ 8)
    → length ys ≤ 8
    → length (if x then xs else ys) ≤ 8
put_buffer true xs ys h g = h refl
put_buffer false xs ys h g = g

safe_send-Inv : (ch msg : ℕ) (b : Broker) → Inv b → Inv (safe_send ch msg b)
unfolding safe_send
safe_send-Inv ch msg b h =
    if-Inv (b.shut ch) _ _
      (λ e. record {
        sound = λ i. delete-Sound ch b (h.sound i);
        buffers = h.buffers;
        publish_queue = h.publish_queue;
        unsub_queue = h.unsub_queue;
      })
      (λ e.
        if-Inv (ltb (length (b.buffer ch)) 8) _ b
          (λ q. record {
            sound = λ i. same-Sound _ b refl refl refl (λ c. refl) (h.sound i);
            buffers = λ c.
                put_buffer (c == ch) (b.buffer c ++ msg ∷ []) (b.buffer c)
                  (λ k.
                    appended (b.buffer c) msg
                      (subst (λ d. ltb (length (b.buffer d)) 8 ≡ true) (sym ((==_iff c ch).0 k)) q))
                  (h.buffers c);
            publish_queue = h.publish_queue;
            unsub_queue = h.unsub_queue;
          })
          (λ q. h))

broadcast-Inv : (chs : List ℕ) (msg : ℕ) (b : Broker) → Inv b → Inv (broadcast chs msg b)
unfolding broadcast
broadcast-Inv [] msg b h = h
broadcast-Inv (ch ∷ chs) msg b h =
    broadcast-Inv chs msg (safe_send ch msg b) (safe_send-Inv ch msg b h)

-- A step that changes neither the channels nor the queues.
pub idle-Inv :
    (a b : Broker)
    → a.intruded ≡ b.intruded
    → (Sound b → Sound a)
    → ((c : ℕ) → a.buffer c ≡ b.buffer c)
    → a.publish_ch ≡ b.publish_ch
    → a.unsub_ch ≡ b.unsub_ch
    → Inv b
    → Inv a
idle-Inv a b i f g p u h = record {
  sound = λ e. f (h.sound (sym i ∙ e));
  buffers = λ c. subst (λ xs. length xs ≤ 8) (sym (g c)) (h.buffers c);
  publish_queue = subst (λ xs. length xs ≤ 16) (sym p) h.publish_queue;
  unsub_queue = subst (λ xs. length xs ≤ 16) (sym u) h.unsub_queue;
}

pub offer-Inv : (i : ℕ) (o : Option ℕ) (b : Broker) → Inv b → Inv (offer i o b)
unfolding offer
offer-Inv i none b h = h
offer-Inv i (some msg) b h =
    if-Inv (not_empty b.subs) _ _
      (λ e. idle-Inv _ b refl (same-Sound _ b refl refl refl (λ c. refl)) (λ c. refl) refl refl h)
      (λ e. idle-Inv _ b refl (same-Sound _ b refl refl refl (λ c. refl)) (λ c. refl) refl refl h)

pub queued : (n m : ℕ) → ltb n 16 ≡ true → m ≡ n + 1 → m ≤ 16
queued n m h e = ground (arith, h, e)

pub send_offer-Inv :
    (i : ℕ) (o : Option Envelope) (b : Broker)
    → ltb (length b.publish_ch) 16 ≡ true
    → Inv b
    → Inv (send_offer i o b)
unfolding send_offer
send_offer-Inv i none b q h = h
send_offer-Inv i (some env) b q h = record {
  sound = λ e. same-Sound _ b refl refl refl (λ c. refl) (h.sound e);
  buffers = h.buffers;
  publish_queue = queued (length b.publish_ch) _ q (length-append b.publish_ch (env ∷ []));
  unsub_queue = h.unsub_queue;
}

pub take_unsub-Inv : (xs : List ℕ) (b : Broker) → b.unsub_ch ≡ xs → Inv b → Inv (take_unsub xs b)
unfolding take_unsub
take_unsub-Inv [] b e h = h
take_unsub-Inv (ch ∷ chs) b e h =
    remove-Inv ch (record b { unsub_ch = chs })
      (record {
        sound = λ i. same-Sound _ b refl refl refl (λ c. refl) (h.sound i);
        buffers = h.buffers;
        publish_queue = h.publish_queue;
        unsub_queue = omega (arith, h.unsub_queue, ap length e);
      })

pub take_publish-Inv :
    (xs : List Envelope) (b : Broker) → b.publish_ch ≡ xs → Inv b → Inv (take_publish xs b)
unfolding take_publish
take_publish-Inv [] b e h = h
take_publish-Inv (env ∷ envs) b e h =
    broadcast-Inv env.recipients env.msg (record b { publish_ch = envs })
      (record {
        sound = λ i. same-Sound _ b refl refl refl (λ c. refl) (h.sound i);
        buffers = h.buffers;
        publish_queue = omega (arith, h.publish_queue, ap length e);
        unsub_queue = h.unsub_queue;
      })

pub close_all-Inv : (b : Broker) → Inv b → Inv (close_all_subscribers b)
unfolding close_all_subscribers
close_all-Inv b h = close_each-Inv b.subs b h
