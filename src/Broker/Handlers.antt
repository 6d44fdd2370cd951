-- ===== src/Broker/Handlers.antt =====
-- What the handlers of the goroutine of Start do (broker/broker.go: broadcast, closeAllSubscribers).
use xutils.Prelude.{
  ℕ, Bool, true, false, not, ◌&&◌, ◌||◌, if◌then◌else◌, ltb, ◌==◌, ==_iff, ◌≡◌, refl, List, [], ◌∷◌,
  ◌++◌, length, arith, ap, sym, ◌∙◌, subst,
}
use xutils.Broker.Model.{Broker, member, delete, safe_send, broadcast}

pub member-delete :
    (c ch : ℕ) (xs : List ℕ) → member c (delete ch xs) ≡ (member c xs && not (ch == c))
unfolding member delete
member-delete c ch [] = refl
member-delete c ch (x ∷ xs) = ground (arith, member-delete c ch xs)

-- No channel is there twice.
abbrev pub Distinct : List ℕ → Type 0
Distinct [] = Unit {0}
Distinct (x ∷ xs) = (member x xs ≡ false) × Distinct xs

-- What is in a buffer after a message has been offered to the channel, or has not.
abbrev pub received : Bool → Bool → ℕ → List ℕ → List ℕ
received offered shut msg buffer =
    if offered && (not shut && ltb (length buffer) 8) then buffer ++ msg ∷ [] else buffer

safe_send-shut : (ch msg c : ℕ) (b : Broker) → (safe_send ch msg b).shut c ≡ b.shut c
unfolding safe_send
safe_send-shut ch msg c b = choose (b.shut ch) (ltb (length (b.buffer ch)) 8)
  where
    choose :
        (x y : Bool)
        → (if x
              then record b { subs = delete ch b.subs }
              else if y
              then record b { buffer = λ d. if d == ch then b.buffer d ++ msg ∷ [] else b.buffer d }
              else b).shut
            c
          ≡ b.shut c
    choose true y = refl
    choose false true = refl
    choose false false = refl

safe_send-buffer :
    (ch msg c : ℕ) (b : Broker)
    → (safe_send ch msg b).buffer c ≡ received (c == ch) (b.shut c) msg (b.buffer c)
unfolding safe_send
safe_send-buffer ch msg c b =
    choose (b.shut ch) (ltb (length (b.buffer ch)) 8) refl refl (c == ch) refl
  where
    shut_here : (x : Bool) → (c == ch) ≡ true → b.shut ch ≡ x → b.shut c ≡ x
    shut_here x e p = subst (λ d. b.shut d ≡ x) (sym ((==_iff c ch).0 e)) p

    room_here :
        (x : Bool)
        → (c == ch) ≡ true
        → ltb (length (b.buffer ch)) 8 ≡ x
        → ltb (length (b.buffer c)) 8 ≡ x
    room_here x e p = subst (λ d. ltb (length (b.buffer d)) 8 ≡ x) (sym ((==_iff c ch).0 e)) p

    choose :
        (x y : Bool)
        → b.shut ch ≡ x
        → ltb (length (b.buffer ch)) 8 ≡ y
        → (z : Bool) → (c == ch) ≡ z
        → (if x
              then record b { subs = delete ch b.subs }
              else if y
              then record b { buffer = λ d. if d == ch then b.buffer d ++ msg ∷ [] else b.buffer d }
              else b).buffer
            c
          ≡ received z (b.shut c) msg (b.buffer c)
    choose true y p q true e = ap (λ k. received true k msg (b.buffer c)) (sym (shut_here true e p))
    choose true y p q false e = refl
    choose false true p q true e =
        ap (λ z. if z then b.buffer c ++ msg ∷ [] else b.buffer c) e
        ∙ ap (λ k. if k then b.buffer c ++ msg ∷ [] else b.buffer c) (sym (room_here true e q))
        ∙ ap (λ k. received true k msg (b.buffer c)) (sym (shut_here false e p))
    choose false true p q false e = ap (λ z. if z then b.buffer c ++ msg ∷ [] else b.buffer c) e
    choose false false p q true e =
        ap (λ k. if k then b.buffer c ++ msg ∷ [] else b.buffer c) (sym (room_here false e q))
        ∙ ap (λ k. received true k msg (b.buffer c)) (sym (shut_here false e p))
    choose false false p q false e = refl

buffers_after :
    (chs : List ℕ) (msg c : ℕ) (b : Broker)
    → Distinct chs
    → ((broadcast chs msg b).buffer c ≡ received (member c chs) (b.shut c) msg (b.buffer c))
      × ((broadcast chs msg b).shut c ≡ b.shut c)
unfolding broadcast member
buffers_after [] msg c b h = (refl, refl)
buffers_after (ch ∷ chs) msg c b h =
    let r = buffers_after chs msg c (safe_send ch msg b) h.1 in
    (
      r.0
          ∙ ap (λ k. received (member c chs) k msg ((safe_send ch msg b).buffer c))
              (safe_send-shut ch msg c b)
          ∙ ap (received (member c chs) (b.shut c) msg) (safe_send-buffer ch msg c b)
          ∙ join (ch == c) (c == ch) (member c chs) (turn ch c) (once ch c chs h.0),
      r.1 ∙ safe_send-shut ch msg c b,
    )
  where
    turn : (a d : ℕ) → (d == a) ≡ (a == d)
    turn a d = ground arith

    once : (a d : ℕ) (xs : List ℕ) → member a xs ≡ false → (a == d) ≡ true → member d xs ≡ false
    once a d xs k e = subst (λ x. member x xs ≡ false) ((==_iff a d).0 e) k

    join :
        (x y z : Bool)
        → y ≡ x
        → (x ≡ true → z ≡ false)
        → received z (b.shut c) msg (received y (b.shut c) msg (b.buffer c))
          ≡ received (x || z) (b.shut c) msg (b.buffer c)
    join true y z e g =
        ap (λ k. received k (b.shut c) msg (received y (b.shut c) msg (b.buffer c))) (g refl)
        ∙ ap (λ k. received k (b.shut c) msg (b.buffer c)) e
    join false y z e g =
        ap (λ k. received z (b.shut c) msg (received k (b.shut c) msg (b.buffer c))) e

-- Of the broker only the subscribers and the buffers are changed.
abbrev pub OnlyDelivers : Broker → Broker → Type 0
OnlyDelivers b t = t ≡ record b { subs = t.subs; buffer = t.buffer }

safe_send-OnlyDelivers : (ch msg : ℕ) (b : Broker) → OnlyDelivers b (safe_send ch msg b)
unfolding safe_send
safe_send-OnlyDelivers ch msg b = choose (b.shut ch) (ltb (length (b.buffer ch)) 8)
  where
    choose :
        (x y : Bool)
        → OnlyDelivers b (
            if x
            then record b { subs = delete ch b.subs }
            else if y
            then record b { buffer = λ d. if d == ch then b.buffer d ++ msg ∷ [] else b.buffer d }
            else b)
    choose true y = refl
    choose false true = refl
    choose false false = refl

safe_send-member :
    (ch msg c : ℕ) (b : Broker)
    → member c (safe_send ch msg b).subs ≡ (member c b.subs && not ((ch == c) && b.shut c))
unfolding safe_send
safe_send-member ch msg c b = choose (b.shut ch) (ltb (length (b.buffer ch)) 8) refl
  where
    kept : (m : Bool) → m ≡ (m && true)
    kept true = refl
    kept false = refl

    here : (m e x y : Bool) → (e ≡ true → y ≡ x) → x ≡ true → (m && not e) ≡ (m && not (e && y))
    here m true x y h k = ap (λ z. m && not z) (sym (h refl ∙ k))
    here m false x y h k = refl

    open_here : (m e x y : Bool) → (e ≡ true → y ≡ x) → x ≡ false → m ≡ (m && not (e && y))
    open_here m true x y h k = kept m ∙ ap (λ z. m && not z) (sym (h refl ∙ k))
    open_here m false x y h k = kept m

    same_shut : (ch == c) ≡ true → b.shut c ≡ b.shut ch
    same_shut e = ap b.shut (sym ((==_iff ch c).0 e))

    choose :
        (x y : Bool)
        → b.shut ch ≡ x
        → member c
            (if x
              then record b { subs = delete ch b.subs }
              else if y
              then record b { buffer = λ d. if d == ch then b.buffer d ++ msg ∷ [] else b.buffer d }
              else b).subs
          ≡ (member c b.subs && not ((ch == c) && b.shut c))
    choose true y e =
        member-delete c ch b.subs
        ∙ here (member c b.subs) (ch == c) (b.shut ch) (b.shut c) same_shut e
    choose false true e = open_here (member c b.subs) (ch == c) (b.shut ch) (b.shut c) same_shut e
    choose false false e = open_here (member c b.subs) (ch == c) (b.shut ch) (b.shut c) same_shut e

members_after :
    (chs : List ℕ) (msg c : ℕ) (b : Broker)
    → member c (broadcast chs msg b).subs ≡ (member c b.subs && not (member c chs && b.shut c))
unfolding broadcast member
members_after [] msg c b = kept (member c b.subs)
  where
    kept : (m : Bool) → m ≡ (m && true)
    kept true = refl
    kept false = refl
members_after (ch ∷ chs) msg c b =
    members_after chs msg c (safe_send ch msg b)
    ∙ ap (λ k. member c (safe_send ch msg b).subs && not (member c chs && k))
        (safe_send-shut ch msg c b)
    ∙ ap (λ k. k && not (member c chs && b.shut c)) (safe_send-member ch msg c b)
    ∙ either_way (member c b.subs) (ch == c) (member c chs) (b.shut c)
  where
    either_way :
        (m x y k : Bool) → ((m && not (x && k)) && not (y && k)) ≡ (m && not ((x || y) && k))
    either_way m x y k = ground arith

others_after : (chs : List ℕ) (msg : ℕ) (b : Broker) → OnlyDelivers b (broadcast chs msg b)
unfolding broadcast
others_after [] msg b = refl
others_after (ch ∷ chs) msg b =
    let t = broadcast chs msg (safe_send ch msg b) in
    others_after chs msg (safe_send ch msg b)
    ∙ ap (λ (x : Broker). record x { subs = t.subs; buffer = t.buffer })
        (safe_send-OnlyDelivers ch msg b)

-- broadcast over distinct channels: a channel gets the message exactly if it is one of the
-- recipients, is open and has less than 8 messages in its buffer, and then at the end of the buffer; the
-- recipients that are closed, and no others, are removed from the subscribers; and nothing else of the
-- broker changes.
pub broadcast-delivers :
    (chs : List ℕ) (msg : ℕ) (b : Broker)
    → Distinct chs
    → ((c : ℕ)
        → (broadcast chs msg b).buffer c ≡ received (member c chs) (b.shut c) msg (b.buffer c))
      × ((c : ℕ)
          → member c (broadcast chs msg b).subs
            ≡ (member c b.subs && not (member c chs && b.shut c)))
      × OnlyDelivers b (broadcast chs msg b)
broadcast-delivers chs msg b h =
    (λ c. (buffers_after chs msg c b h).0, λ c. members_after chs msg c b, others_after chs msg b)
