-- ===== src/Broker/Model.antt =====
-- broker/broker.go: the steps of Subscribe, Unsubscribe, Publish and Stop, and the handlers of the
-- goroutine of Start, one for each case of its select.
use xutils.Prelude.{
  ℕ, Bool, true, false, ◌||◌, if◌then◌else◌, ltb, ◌==◌, List, [], ◌∷◌, ◌++◌, length,
}

-- A message with the channels that were subscribed when Publish ranged over them.
pub record Envelope : Type 0 where
  pub msg : ℕ
  pub recipients : List ℕ

-- Channels are numbered as they are made. A message is a number.
pub record Broker : Type 0 where
  pub subs : List ℕ
  pub publish_ch : List Envelope
  pub unsub_ch : List ℕ
  pub stop_ch_closed : Bool
  pub done_ch_closed : Bool
  pub closed : Bool
  -- The goroutine of Start is there.
  pub started : Bool
  pub next : ℕ
  -- Whether a subscriber's channel is closed, and what is in its buffer.
  pub shut : ℕ → Bool
  pub buffer : ℕ → List ℕ
  -- Goroutines in Subscribe behind the test of `closed`.
  pub subscribing : ℕ
  -- Messages of goroutines in Publish behind the test of `closed`, and behind the Range.
  pub publishing : List ℕ
  pub offers : List Envelope
  -- A close of a closed channel has panicked in the goroutine of Start.
  pub crashed : Bool
  -- A subscriber has closed a channel itself.
  pub intruded : Bool

-- NewBroker
abbrev pub new_broker : Broker
new_broker = record {
  subs = [];
  publish_ch = [];
  unsub_ch = [];
  stop_ch_closed = false;
  done_ch_closed = false;
  closed = false;
  started = false;
  next = 0;
  shut = λ ch. false;
  buffer = λ ch. [];
  subscribing = 0;
  publishing = [];
  offers = [];
  crashed = false;
  intruded = false;
}

unfoldable pub member : ℕ → List ℕ → Bool
member ch [] = false
member ch (x ∷ xs) = x == ch || member ch xs

-- subs.Delete
unfoldable pub delete : ℕ → List ℕ → List ℕ
delete ch [] = []
delete ch (x ∷ xs) = let rest = delete ch xs in if x == ch then rest else x ∷ rest

-- close(ch). A closed channel panics: what its caller would do next is not done, and `crashed` is set,
-- which ends the program.
unfoldable pub close_channel : ℕ → Broker → Broker
close_channel ch b =
    if b.shut ch
    then record b { crashed = true }
    else record b { shut = λ c. if c == ch then true else b.shut c }

-- removeAndClose
unfoldable pub remove_and_close : ℕ → Broker → Broker
unfolding member delete close_channel
remove_and_close ch b =
    if member ch b.subs then close_channel ch (record b { subs = delete ch b.subs }) else b

-- The loop of closeAllSubscribers, which a panic leaves.
unfoldable pub close_each : List ℕ → Broker → Broker
unfolding remove_and_close
close_each [] b = b
close_each (ch ∷ chs) b =
    let closed = remove_and_close ch b in
    let rest = close_each chs closed in if closed.crashed then closed else rest

-- closeAllSubscribers, over the channels that Range visits
unfoldable pub close_all_subscribers : Broker → Broker
unfolding close_each
close_all_subscribers b = close_each b.subs b

-- safeSend with the removal of broadcast: a closed channel panics, which is recovered and removes it;
-- a full buffer of 8 skips the message.
unfoldable pub safe_send : ℕ → ℕ → Broker → Broker
unfolding delete
safe_send ch msg b =
    if b.shut ch
    then record b { subs = delete ch b.subs }
    else if ltb (length (b.buffer ch)) 8
    then record b { buffer = λ c. if c == ch then b.buffer c ++ msg ∷ [] else b.buffer c }
    else b

-- broadcast
unfoldable pub broadcast : List ℕ → ℕ → Broker → Broker
unfolding safe_send
broadcast [] msg b = b
broadcast (ch ∷ chs) msg b = broadcast chs msg (safe_send ch msg b)
