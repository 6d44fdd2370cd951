-- ===== src/Broker/Invariant.antt =====
-- What holds of a broker in every state (broker/broker.go).
use xutils.Prelude.{
  ℕ, ◌<◌, ◌≤◌, Bool, true, false, not, ◌&&◌, ◌||◌, if◌then◌else◌, ◌==◌, ==_iff, ◌≡◌, refl, List, [],
  ◌∷◌, length, ap, sym, ◌∙◌, subst, both,
}
use xutils.Broker.Model.{Broker, member, delete, close_channel, remove_and_close, close_each}
use xutils.Broker.Closing.{remove-shut, remove-member, remove-crashed, open_still}

-- The channels, as long as no subscriber has closed one itself.
pub record Sound (b : Broker) : Type 0 where
  pub subs_open : (c : ℕ) → member c b.subs ≡ true → b.shut c ≡ false
  pub subs_known : (c : ℕ) → member c b.subs ≡ true → c < b.next
  pub shut_known : (c : ℕ) → b.shut c ≡ true → c < b.next
  pub no_crash : b.crashed ≡ false

pub record Inv (b : Broker) : Type 0 where
  pub sound : b.intruded ≡ false → Sound b
  pub buffers : (c : ℕ) → length (b.buffer c) ≤ 8
  pub publish_queue : length b.publish_ch ≤ 16
  pub unsub_queue : length b.unsub_ch ≤ 16

-- Sound reads these fields only.
pub same-Sound :
    (a b : Broker)
    → a.subs ≡ b.subs
    → a.next ≡ b.next
    → a.crashed ≡ b.crashed
    → ((c : ℕ) → a.shut c ≡ b.shut c)
    → Sound b
    → Sound a
same-Sound a b p q r f h = record {
  subs_open = λ c m. f c ∙ h.subs_open c (sym (ap (member c) p) ∙ m);
  subs_known = λ c m. subst (λ n. c < n) (sym q) (h.subs_known c (sym (ap (member c) p) ∙ m));
  shut_known = λ c m. subst (λ n. c < n) (sym q) (h.shut_known c (sym (f c) ∙ m));
  no_crash = r ∙ h.no_crash;
}

-- What removeAndClose leaves alone.
record Beside (a b : Broker) : Type 0 where
  pub next : a.next ≡ b.next
  pub intruded : a.intruded ≡ b.intruded
  pub buffer : (c : ℕ) → a.buffer c ≡ b.buffer c
  pub publish_ch : a.publish_ch ≡ b.publish_ch
  pub unsub_ch : a.unsub_ch ≡ b.unsub_ch

same-Beside : (b : Broker) → Beside b b
same-Beside b = record {
  next = refl;
  intruded = refl;
  buffer = λ c. refl;
  publish_ch = refl;
  unsub_ch = refl;
}

Beside-trans : {a b c : Broker} → Beside a b → Beside b c → Beside a c
Beside-trans v w = record {
  next = v.next ∙ w.next;
  intruded = v.intruded ∙ w.intruded;
  buffer = λ c. v.buffer c ∙ w.buffer c;
  publish_ch = v.publish_ch ∙ w.publish_ch;
  unsub_ch = v.unsub_ch ∙ w.unsub_ch;
}

if-Beside : (x : Bool) (a d b : Broker) → Beside a b → Beside d b → Beside (if x then a else d) b
if-Beside true a d b h g = h
if-Beside false a d b h g = g

plain-Beside :
    (a b : Broker)
    → a.next ≡ b.next
    → a.intruded ≡ b.intruded
    → ((c : ℕ) → a.buffer c ≡ b.buffer c)
    → a.publish_ch ≡ b.publish_ch
    → a.unsub_ch ≡ b.unsub_ch
    → Beside a b
plain-Beside a b n i f p u = record {
  next = n;
  intruded = i;
  buffer = f;
  publish_ch = p;
  unsub_ch = u;
}

remove-Beside : (ch : ℕ) (b : Broker) → Beside (remove_and_close ch b) b
unfolding remove_and_close close_channel
remove-Beside ch b =
    let t = record b { subs = delete ch b.subs } in
    if-Beside (member ch b.subs) _ b b
      (if-Beside (b.shut ch) (record t { crashed = true })
        (record t { shut = λ d. if d == ch then true else b.shut d }) b
        (plain-Beside _ b refl refl (λ c. refl) refl refl)
        (plain-Beside _ b refl refl (λ c. refl) refl refl))
      (same-Beside b)

known :
    (x y k : Bool) (A : Type 0)
    → ((x && y) || k) ≡ true
    → (x ≡ true → y ≡ true → A)
    → (k ≡ true → A)
    → A
known true true k A h f g = f refl refl
known true false k A h f g = g h
known false y k A h f g = g h

remove-Sound : (ch : ℕ) (b : Broker) → Sound b → Sound (remove_and_close ch b)
remove-Sound ch b h =
    let side = remove-Beside ch b in
    record {
      subs_open = λ c m.
          remove-shut ch c b
          ∙ open_still (ch == c) (member ch b.subs) (b.shut c) (member c b.subs)
              (sym (remove-member ch c b) ∙ m) (h.subs_open c);
      subs_known = λ c m.
          subst (λ n. c < n) (sym side.next)
            (h.subs_known c
              (both (member c b.subs) (not (ch == c)) (sym (remove-member ch c b) ∙ m)).0);
      shut_known = λ c m.
          subst (λ n. c < n) (sym side.next)
            (known (ch == c) (member ch b.subs) (b.shut c) (c < b.next)
              (sym (remove-shut ch c b) ∙ m)
              (λ e k. subst (λ d. d < b.next) ((==_iff ch c).0 e) (h.subs_known ch k))
              (h.shut_known c));
      no_crash = remove-crashed ch b h.subs_open h.no_crash;
    }

Beside-Inv : (a b : Broker) → Beside a b → (Sound b → Sound a) → Inv b → Inv a
Beside-Inv a b v f h = record {
  sound = λ i. f (h.sound (sym v.intruded ∙ i));
  buffers = λ c. subst (λ xs. length xs ≤ 8) (sym (v.buffer c)) (h.buffers c);
  publish_queue = subst (λ xs. length xs ≤ 16) (sym v.publish_ch) h.publish_queue;
  unsub_queue = subst (λ xs. length xs ≤ 16) (sym v.unsub_ch) h.unsub_queue;
}

pub remove-Inv : (ch : ℕ) (b : Broker) → Inv b → Inv (remove_and_close ch b)
remove-Inv ch b h = Beside-Inv _ b (remove-Beside ch b) (remove-Sound ch b) h

pub close_each-Inv : (chs : List ℕ) (b : Broker) → Inv b → Inv (close_each chs b)
unfolding close_each
close_each-Inv [] b h = h
close_each-Inv (ch ∷ chs) b h =
    let t = remove_and_close ch b in
    let closed = remove-Inv ch b h in stopped_or (t.crashed) closed (close_each-Inv chs t closed)
  where
    stopped_or : {a d : Broker} (x : Bool) → Inv a → Inv d → Inv (if x then a else d)
    stopped_or true h g = h
    stopped_or false h g = g
