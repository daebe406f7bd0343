-- ===== src/EventBus/Tests.antt =====
-- Runs of app/event_bus.py at concrete inputs, and the theorems about it at such inputs.
use ai_routing.Prelude.{ℕ, ◌≢◌, ◌≡◌, refl, arith, List, [], ◌∷◌}
use ai_routing.EventBus.{Subscribers, publish, subscribe, get, offer}
use ai_routing.EventBus.Events.{Event, subscribes, unsubscribes, gets, publishes, run, published}
use ai_routing.EventBus.Missed.{tally, Delivered}
use ai_routing.EventBus.Delivery.{subscribe-Delivered}
use ai_routing.EventBus.Slow.{HoldsLast, subscribe-HoldsLast}

abbrev busy : List (Event ℕ)
busy =
    publishes 10
    ∷ subscribes 8
    ∷ publishes 11
    ∷ gets 8
    ∷ gets 7
    ∷ publishes 12
    ∷ unsubscribes 8
    ∷ publishes 13
    ∷ []

abbrev unread : List (Event ℕ)
unread = publishes 10 ∷ subscribes 8 ∷ gets 8 ∷ publishes 11 ∷ unsubscribes 8 ∷ []

abbrev nobody : Subscribers ℕ
nobody = []

abbrev seven : ℕ
seven = 7

differ : seven ≢ 8
differ = λ same. omega (arith, same)

-- Client 7 has got the first payload.
busy_received : (run 7 busy (record { bus = subscribe 7 nobody; received = [] })).received ≡ 10 ∷ []
unfolding run subscribe publish get offer
busy_received = refl

subscribe-Delivered_example :
    Delivered 7
      (run 7 busy (record { bus = subscribe 7 nobody; received = [] }))
      (published busy)
      (tally 7 busy (0, 0))
subscribe-Delivered_example =
    subscribe-Delivered 7 busy nobody refl
      (tt, (differ, (tt, (tt, (tt, (tt, (differ, (tt, tt))))))))

subscribe-HoldsLast_example :
    HoldsLast 7
      (run 7 unread (record { bus = subscribe 7 nobody; received = [] })).bus
      (published unread)
subscribe-HoldsLast_example =
    subscribe-HoldsLast 7 unread nobody refl (tt, (differ, (differ, (tt, (differ, tt)))))
