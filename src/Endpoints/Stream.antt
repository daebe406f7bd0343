-- ===== src/Endpoints/Stream.antt =====
-- app/main.py: `sse_events`, the generator of one client of the event stream, cut where it suspends.
-- The wait for a payload ends with one, or with none after 15 seconds.
pub mod Copies
use ai_routing.Prelude.{
  ℕ, ◌+◌, ◌-◌, ◌≡◌, refl, ◌∙◌, Option, none, some, List, [], ◌∷◌, ◌++◌, ◌==◌, if◌then◌else◌, arith,
}
use ai_routing.EventBus.{subscribe, unsubscribe, publish, offer, get}
use ai_routing.Observability.{Payload, Bus}
use ai_routing.App.{App}
use ai_routing.Endpoints.{stream_payload}

-- Where the generator stands: at its first `yield`, before the `try`; in the `try`; or at its end, which
-- it reached through the `finally` or from the first `yield`.
pub data Place : Type 0 where
  greeting looping ended abandoned : Place

-- What is sent to the client.
pub data Chunk : Type 0 where
  connected heartbeat : Chunk
  data_of : Payload → Chunk

pub record Session : Type 0 where
  pub app : App
  pub place : Place
  pub sent : List Chunk

-- `sse_events`, up to the first `yield`, with the identity of the new queue.
unfoldable pub sse_events : ℕ → App → Session
sse_events id app = record {
  app = record app { bus = subscribe id app.bus };
  place = greeting;
  sent = connected ∷ [];
}

-- `event_bus.unsubscribe(q)`, of the `finally`.
abbrev pub leave : ℕ → Session → Session
leave id s = record s { app = record (s.app) { bus = unsubscribe id s.app.bus }; place = ended }

-- The chunk of a payload, which may be counted; or the heartbeat.
abbrev pub send_got : Option Payload × Bus → Session → Session
send_got (none, bus) s = record s {
  app = record (s.app) { bus = bus };
  place = looping;
  sent = s.sent ++ (heartbeat ∷ []);
}
send_got (some p, bus) s = record s {
  app = stream_payload p (record (s.app) { bus = bus });
  place = looping;
  sent = s.sent ++ (data_of p ∷ []);
}

pub data Move : Type 0 where
  -- a payload is published, by whatever coroutine
  publishes : Payload → Move
  -- the loop goes on: `request.is_disconnected()` is false, and the wait ends
  reads : Move
  -- the loop goes on, and `request.is_disconnected()` is true
  disconnects : Move
  -- the generator is closed or cancelled where it is suspended
  closes : Move

unfoldable pub move : ℕ → Move → Session → Session
move id (publishes p) s = record s { app = record (s.app) { bus = publish p s.app.bus } }
move id reads s = elim s.place [
  | greeting ↦ send_got (get id s.app.bus) s
  | looping ↦ send_got (get id s.app.bus) s
  | _ ↦ s
]
move id disconnects s = elim s.place [ greeting ↦ leave id s | looping ↦ leave id s | _ ↦ s ]
move id closes s = elim s.place [
  | greeting ↦ record s { place = abandoned }
  | looping ↦ leave id s
  | _ ↦ s
]

unfoldable pub moves : ℕ → List Move → Session → Session
moves id [] s = s
moves id (m ∷ ms) s = moves id ms (move id m s)
