-- ===== src/Broker/Examples.antt =====
-- The theorems on the package broker/ at a concrete run, and a run whose last subscriber comes late.
use xutils.Prelude.{not, ◌&&◌, ℕ, true, false, ◌||◌, ◌≡◌, refl, List, [], ◌∷◌}
use xutils.Broker.Model.{Broker, new_broker, member, broadcast, close_all_subscribers}
use xutils.Broker.Steps.{
  Event, start, stop, subscribe_check, subscribe_store, publish_check, publish_range, offer_send,
  unsubscribe_send, serve_stop, serve_unsub, serve_publish, enabled, after, Reach, created, stepped,
}
use xutils.Broker.Handlers.{received, OnlyDelivers, broadcast-delivers}
use xutils.Broker.Closing.{AllOpen, close_all_subscribers-closes}
use xutils.Broker.Invariant.{Inv}
use xutils.Broker.Reaching.{Broker-Inv}

abbrev steps_of : List Event → Broker → Broker
unfolding after
steps_of [] b = b
steps_of (e ∷ es) b = steps_of es (after e b)

-- Two subscribers.
abbrev two : Broker
unfolding steps_of
two =
    steps_of (start ∷ subscribe_check ∷ subscribe_store ∷ subscribe_check ∷ subscribe_store ∷ [])
      new_broker

two-Reach : Reach two
unfolding enabled after steps_of two
two-Reach =
    stepped subscribe_store
      (stepped subscribe_check
        (stepped subscribe_store
          (stepped subscribe_check (stepped start created refl refl) refl refl) refl refl)
        refl refl)
      refl refl

-- A message is delivered, and the first subscriber leaves.
abbrev served : Broker
unfolding steps_of two
served =
    steps_of
      (publish_check 7
        ∷ publish_range 0
        ∷ unsubscribe_send 0
        ∷ offer_send 0
        ∷ serve_unsub
        ∷ serve_publish
        ∷ [])
      two

served-Reach : Reach served
unfolding enabled after steps_of two served
served-Reach =
    stepped serve_publish
      (stepped serve_unsub
        (stepped (offer_send 0)
          (stepped (unsubscribe_send 0)
            (stepped (publish_range 0) (stepped (publish_check 7) two-Reach refl refl) refl refl)
            refl refl)
          refl refl)
        refl refl)
      refl refl

Broker-Inv_example : Inv served
Broker-Inv_example = Broker-Inv served served-Reach

broadcast-delivers_example :
    ((c : ℕ)
      → (broadcast (1 ∷ 0 ∷ []) 7 two).buffer c
        ≡ received (member c (1 ∷ 0 ∷ [])) (two.shut c) 7 (two.buffer c))
    × ((c : ℕ)
        → member c (broadcast (1 ∷ 0 ∷ []) 7 two).subs
          ≡ (member c two.subs && not (member c (1 ∷ 0 ∷ []) && two.shut c)))
    × OnlyDelivers two (broadcast (1 ∷ 0 ∷ []) 7 two)
unfolding member
broadcast-delivers_example = broadcast-delivers (1 ∷ 0 ∷ []) 7 two (refl, (refl, tt))

two-AllOpen : AllOpen two
unfolding two steps_of after
two-AllOpen c m = refl

close_all_subscribers-closes_example :
    ((close_all_subscribers two).crashed ≡ false)
    × ((close_all_subscribers two).subs ≡ [])
    × ((c : ℕ) → (close_all_subscribers two).shut c ≡ (member c two.subs || two.shut c))
unfolding two steps_of after
close_all_subscribers-closes_example = close_all_subscribers-closes two two-AllOpen refl

-- Subscribe tests `closed`, Stop and the goroutine of Start run to their end, then Subscribe stores its
-- channel: it stays open, with nobody to close it.
abbrev late : Broker
unfolding steps_of
late = steps_of (start ∷ subscribe_check ∷ stop ∷ serve_stop ∷ subscribe_store ∷ []) new_broker

late-Reach : Reach late
unfolding enabled after steps_of late
late-Reach =
    stepped subscribe_store
      (stepped serve_stop
        (stepped stop (stepped subscribe_check (stepped start created refl refl) refl refl) refl
          refl)
        refl refl)
      refl refl

late-open : (late.done_ch_closed ≡ true) × (late.subs ≡ 0 ∷ []) × (late.shut 0 ≡ false)
unfolding after steps_of late
late-open = (refl, refl, refl)
