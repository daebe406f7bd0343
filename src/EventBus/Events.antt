-- ===== src/EventBus/Events.antt =====
-- Whole histories of app/event_bus.py, as the client of one queue sees them: other clients come, go and
-- read at any time.
use ai_routing.Prelude.{ℕ, ◌≢◌, Option, none, some, List, [], ◌∷◌, ◌++◌, ◌==◌, if◌then◌else◌}
use ai_routing.EventBus.{Subscribers, subscribe, unsubscribe, publish, get}

pub data Event (P : Type 0) : Type 0 where
  subscribes unsubscribes gets : ℕ → Event P
  publishes : P → Event P

-- The bus, and what the client of one queue has got, in order.
pub record World (P : Type 0) : Type 0 where
  pub bus : Subscribers P
  pub received : List P

module _ {P : Type 0} where
  abbrev pub delivered : Option P → List P
  delivered none = []
  delivered (some p) = p ∷ []

  -- One operation of any client, seen by the client of queue `me`.
  unfoldable pub step : ℕ → Event P → World P → World P
  step me (subscribes id) w = record w { bus = subscribe id w.bus }
  step me (unsubscribes id) w = record w { bus = unsubscribe id w.bus }
  step me (publishes p) w = record w { bus = publish p w.bus }
  step me (gets id) w =
      let (got, bus) = get id w.bus in
      record { bus = bus; received = w.received ++ (if me == id then delivered got else []) }

  unfoldable pub run : ℕ → List (Event P) → World P → World P
  unfolding step
  run me [] w = w
  run me (e ∷ es) w = run me es (step me e w)

  -- The payloads that are published, in order.
  abbrev pub published_by : Event P → List P
  published_by (publishes p) = p ∷ []
  published_by _ = []

  abbrev pub published : List (Event P) → List P
  published [] = []
  published (e ∷ es) = published_by e ++ published es

  -- Queue `me` is neither made again nor removed.
  abbrev pub Stays : ℕ → Event P → Type 0
  Stays me (subscribes id) = me ≢ id
  Stays me (unsubscribes id) = me ≢ id
  Stays me _ = Unit

  abbrev pub AllStay : ℕ → List (Event P) → Type 0
  AllStay me [] = Unit
  AllStay me (e ∷ es) = Stays me e × AllStay me es
