-- ===== src/EventBus.antt =====
-- app/event_bus.py: the broadcast of events to the clients of the event stream.
-- A queue is an object, so it has an identity; its `maxsize` is `_MAX_QUEUE_SIZE`. No function
-- suspends, and the bus itself is the list `_subscribers`.
pub mod Queues
pub mod Events
pub mod Missed
pub mod Delivery
pub mod Slow
mod Tests
use ai_routing.Prelude.{
  ℕ, Bool, Option, none, some, List, [], ◌∷◌, ◌++◌, map, leb, ◌==◌, if◌then◌else◌, length, drop,
}

abbrev pub max_queue_size : ℕ
max_queue_size = 64

-- An `asyncio.Queue` of payloads, the next one to get first.
pub record Queue (P : Type 0) : Type 0 where
  pub id : ℕ
  pub items : List P

abbrev pub Subscribers : Type 0 → Type 0
Subscribers P = List (Queue P)

-- `subscribe`, with the identity of the new queue.
unfoldable pub subscribe : {P : Type 0} → ℕ → Subscribers P → Subscribers P
subscribe id qs = qs ++ (record { id = id; items = [] } ∷ [])

-- `unsubscribe`: the first entry that is this queue is removed; without one nothing happens.
unfoldable pub unsubscribe : {P : Type 0} → ℕ → Subscribers P → Subscribers P
unsubscribe id [] = []
unsubscribe id (q ∷ qs) = let rest = unsubscribe id qs in if id == q.id then qs else q ∷ rest

-- `asyncio.Queue.full`
abbrev pub full : {P : Type 0} → Queue P → Bool
full q = leb max_queue_size (length q.items)

-- `get_nowait` with the `QueueEmpty` that is ignored, and `put_nowait` with the `QueueFull`.
abbrev pub drop_oldest : {P : Type 0} → Queue P → Queue P
drop_oldest q = record q { items = drop 1 q.items }

abbrev pub put : {P : Type 0} → P → Queue P → Queue P
put p q = if full q then q else record q { items = q.items ++ (p ∷ []) }

-- The body of the loop of `publish`.
unfoldable pub offer : {P : Type 0} → P → Queue P → Queue P
offer p q = put p (if full q then drop_oldest q else q)

-- `publish`
unfoldable pub publish : {P : Type 0} → P → Subscribers P → Subscribers P
publish p qs = map (offer p) qs

-- The queue with this identity.
abbrev pub find_queue : {P : Type 0} → ℕ → Subscribers P → Option (Queue P)
find_queue id [] = none
find_queue id (q ∷ qs) = if id == q.id then some q else find_queue id qs

-- `q.get()` where an entry is there at once: the client of queue `id` takes the oldest one.
abbrev pub taken : {P : Type 0} → Queue P → Option P × Queue P
taken q = elim q.items [ [] ↦ (none, q) | x ∷ xs ↦ (some x, record q { items = xs }) ]

unfoldable pub get : {P : Type 0} → ℕ → Subscribers P → Option P × Subscribers P
get id [] = (none, [])
get id (q ∷ qs) =
    let (got, rest) = get id qs in
    if id == q.id then ((taken q).0, (taken q).1 ∷ qs) else (got, q ∷ rest)
