-- ===== src/Broker/Steps.antt =====
-- broker/broker.go: the steps that goroutines take, between which those of others may come, and what
-- they reach.
use xutils.Prelude.{
  ℕ, zero, suc, ◌-◌, Bool, true, false, not, ◌&&◌, if◌then◌else◌, ltb, ◌==◌, ◌≡◌, List, [], ◌∷◌,
  ◌++◌, Option, none, some, is_some, length, get_elem?,
}
use xutils.Broker.Model.{
  Envelope, Broker, new_broker, remove_and_close, close_all_subscribers, broadcast,
}

abbrev pub remove_at : {A : Type 0} → ℕ → List A → List A
remove_at i [] = []
remove_at zero (x ∷ xs) = xs
remove_at (suc i) (x ∷ xs) = x ∷ remove_at i xs

pub data Event : Type 0 where
  start : Event
  -- Stop: CompareAndSwap and close(stopCh)
  stop : Event
  -- Subscribe: the test of `closed`, then the new channel and subs.Store
  subscribe_check : Event
  subscribe_store : Event
  -- Publish of a message: the test of `closed`; the Range of the i-th that is there; then the two
  -- cases of the select of the i-th that is there
  publish_check : ℕ → Event
  publish_range : ℕ → Event
  offer_send : ℕ → Event
  offer_drop : ℕ → Event
  -- Unsubscribe of a channel: the two cases of its select
  unsubscribe_send : ℕ → Event
  unsubscribe_drop : ℕ → Event
  -- The cases of the select of Start
  serve_stop : Event
  serve_unsub : Event
  serve_publish : Event
  -- A subscriber takes a message from its channel, or closes it.
  receive : ℕ → Event
  user_close : ℕ → Event

abbrev pub not_empty : {A : Type 0} → List A → Bool
not_empty [] = false
not_empty (x ∷ xs) = true

abbrev pub serving : Broker → Bool
serving b = b.started && not b.done_ch_closed

-- Whether a goroutine can do this step now.
unfoldable pub enabled : Event → Broker → Bool
enabled subscribe_store b = ltb 0 b.subscribing
enabled (publish_range i) b = is_some (get_elem? b.publishing i)
enabled (offer_send i) b = is_some (get_elem? b.offers i) && ltb (length b.publish_ch) 16
enabled (offer_drop i) b = is_some (get_elem? b.offers i) && b.stop_ch_closed
enabled (unsubscribe_send ch) b = ltb (length b.unsub_ch) 16
enabled (unsubscribe_drop ch) b = b.done_ch_closed
enabled serve_stop b = serving b && b.stop_ch_closed
enabled serve_unsub b = serving b && not_empty b.unsub_ch
enabled serve_publish b = serving b && not_empty b.publish_ch
enabled (user_close ch) b = not (b.shut ch)
enabled _ b = true

-- Publish behind the Range
unfoldable pub offer : ℕ → Option ℕ → Broker → Broker
offer i none b = b
offer i (some msg) b =
    if not_empty b.subs
    then record b {
      publishing = remove_at i b.publishing;
      offers = record { msg = msg; recipients = b.subs } ∷ b.offers;
    }
    else record b { publishing = remove_at i b.publishing }

unfoldable pub send_offer : ℕ → Option Envelope → Broker → Broker
send_offer i none b = b
send_offer i (some env) b = record b {
  offers = remove_at i b.offers;
  publish_ch = b.publish_ch ++ env ∷ [];
}

unfoldable pub take_unsub : List ℕ → Broker → Broker
unfolding remove_and_close
take_unsub [] b = b
take_unsub (ch ∷ chs) b = remove_and_close ch (record b { unsub_ch = chs })

unfoldable pub take_publish : List Envelope → Broker → Broker
unfolding broadcast
take_publish [] b = b
take_publish (env ∷ envs) b = broadcast env.recipients env.msg (record b { publish_ch = envs })

abbrev pub drop_first : List ℕ → List ℕ
drop_first [] = []
drop_first (x ∷ xs) = xs

-- What the step does.
unfoldable pub after : Event → Broker → Broker
unfolding offer send_offer take_unsub take_publish close_all_subscribers
after start b = record b { started = true }
after stop b = if b.closed then b else record b { closed = true; stop_ch_closed = true }
after subscribe_check b = if b.closed then b else record b { subscribing = suc b.subscribing }
after subscribe_store b = record b {
  subscribing = b.subscribing - 1;
  subs = b.next ∷ b.subs;
  next = suc b.next;
}
after (publish_check msg) b = if b.closed then b else record b { publishing = msg ∷ b.publishing }
after (publish_range i) b = offer i (get_elem? b.publishing i) b
after (offer_send i) b = send_offer i (get_elem? b.offers i) b
after (offer_drop i) b = record b { offers = remove_at i b.offers }
after (unsubscribe_send ch) b = record b { unsub_ch = b.unsub_ch ++ ch ∷ [] }
after (unsubscribe_drop ch) b = b
after serve_stop b = record (close_all_subscribers b) { done_ch_closed = true }
after serve_unsub b = take_unsub b.unsub_ch b
after serve_publish b = take_publish b.publish_ch b
after (receive ch) b = record b {
  buffer = λ c. if c == ch then drop_first (b.buffer c) else b.buffer c;
}
after (user_close ch) b = record b {
  shut = λ c. if c == ch then true else b.shut c;
  intruded = true;
}

-- The states that interleavings of the steps reach from NewBroker, as long as the program runs.
pub data Reach : Broker → Type 0 where
  created : Reach new_broker
  stepped :
      (e : Event) {b : Broker}
      → Reach b
      → b.crashed ≡ false
      → enabled e b ≡ true
      → Reach (after e b)
