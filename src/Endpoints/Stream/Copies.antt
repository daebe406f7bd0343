-- ===== src/Endpoints/Stream/Copies.antt =====
-- What becomes of the queue that `sse_events` of app/main.py subscribes.
use ai_routing.Prelude.{
  ℕ, ◌+◌, ◌-◌, ◌≡◌, refl, ◌∙◌, Option, none, some, List, [], ◌∷◌, ◌==◌, if◌then◌else◌, arith,
}
use ai_routing.EventBus.{subscribe, unsubscribe, publish, offer, get}
use ai_routing.Observability.{Payload, Bus}
use ai_routing.App.{App}
use ai_routing.Endpoints.{stream_payload}
use ai_routing.Endpoints.Stream.{
  Place, greeting, looping, ended, abandoned, Chunk, connected, Session, sse_events, send_got, Move,
  publishes, reads, disconnects, closes, move, moves,
}

-- How many queues with this identity the bus has.
abbrev pub copies : ℕ → Bus → ℕ
copies id [] = 0
copies id (q ∷ qs) = (if id == q.id then 1 else 0) + copies id qs

-- The client's story told by the moves alone: how many queues of a generator that has sent its first
-- payload or heartbeat are left, and of one that may still be at its first `yield`.
abbrev pub copies_in_loop : List Move → ℕ
copies_in_loop [] = 1
copies_in_loop (publishes p ∷ ms) = copies_in_loop ms
copies_in_loop (reads ∷ ms) = copies_in_loop ms
copies_in_loop (disconnects ∷ ms) = 0
copies_in_loop (closes ∷ ms) = 0

abbrev pub copies_after : List Move → ℕ
copies_after [] = 1
copies_after (publishes p ∷ ms) = copies_after ms
copies_after (reads ∷ ms) = copies_in_loop ms
copies_after (disconnects ∷ ms) = 0
-- it was closed before its `try`
copies_after (closes ∷ ms) = 1

copies-subscribe : (id : ℕ) (qs : Bus) → copies id (subscribe id qs) ≡ copies id qs + 1
unfolding subscribe
copies-subscribe id [] = ground arith
copies-subscribe id (q ∷ qs) = ground (arith, copies-subscribe id qs)

copies-unsubscribe : (id : ℕ) (qs : Bus) → copies id (unsubscribe id qs) ≡ copies id qs - 1
unfolding unsubscribe
copies-unsubscribe id [] = omega arith
copies-unsubscribe id (q ∷ qs) = ground (arith, copies-unsubscribe id qs)

copies-publish : (id : ℕ) (p : Payload) (qs : Bus) → copies id (publish p qs) ≡ copies id qs
unfolding publish offer
copies-publish id p [] = refl
copies-publish id p (q ∷ qs) = ground (arith, copies-publish id p qs)

copies-get : (id : ℕ) (qs : Bus) → copies id (get id qs).1 ≡ copies id qs
unfolding get
copies-get id [] = refl
copies-get id (q ∷ qs) = ground (arith, copies-get id qs)

copies-stream_payload :
    (id : ℕ) (p : Payload) (app : App) → copies id (stream_payload p app).bus ≡ copies id app.bus
unfolding stream_payload
copies-stream_payload id p app = ground arith

-- A session by its place, so that a step computes.
abbrev session : App → Place → List Chunk → Session
session app place sent = record { app = app; place = place; sent = sent }

module _ (id : ℕ) where
  abbrev left : List Move → Session → ℕ
  left ms s = copies id (moves id ms s).app.bus

  -- Once the generator is at its end, only what is published still reaches the bus.
  left-ended :
      (ms : List Move) (app : App) (sent : List Chunk)
      → left ms (session app ended sent) ≡ copies id app.bus
  unfolding moves move
  left-ended [] app sent = refl
  left-ended (publishes p ∷ ms) app sent =
      left-ended ms (record app { bus = publish p app.bus }) sent ∙ copies-publish id p app.bus
  left-ended (reads ∷ ms) app sent = left-ended ms app sent
  left-ended (disconnects ∷ ms) app sent = left-ended ms app sent
  left-ended (closes ∷ ms) app sent = left-ended ms app sent

  left-abandoned :
      (ms : List Move) (app : App) (sent : List Chunk)
      → left ms (session app abandoned sent) ≡ copies id app.bus
  unfolding moves move
  left-abandoned [] app sent = refl
  left-abandoned (publishes p ∷ ms) app sent =
      left-abandoned ms (record app { bus = publish p app.bus }) sent ∙ copies-publish id p app.bus
  left-abandoned (reads ∷ ms) app sent = left-abandoned ms app sent
  left-abandoned (disconnects ∷ ms) app sent = left-abandoned ms app sent
  left-abandoned (closes ∷ ms) app sent = left-abandoned ms app sent

  -- The end through the `finally`.
  left-leave :
      (ms : List Move) (app : App) (sent : List Chunk)
      → copies id app.bus ≡ 1
      → left ms (session (record app { bus = unsubscribe id app.bus }) ended sent) ≡ 0
  left-leave ms app sent h = omega (
    arith,
    h,
    left-ended ms (record app { bus = unsubscribe id app.bus }) sent,
    copies-unsubscribe id app.bus,
  )

  -- The wait of the loop ends.
  left-got :
      (ms : List Move) (place : Place) (app : App) (sent : List Chunk)
      → ((a : App) (chunks : List Chunk)
          → copies id a.bus ≡ 1
          → left ms (session a looping chunks) ≡ copies_in_loop ms)
      → copies id app.bus ≡ 1
      → left ms (send_got (get id app.bus) (session app place sent)) ≡ copies_in_loop ms
  left-got ms place app sent go_on h = by_got (get id app.bus) (copies-get id app.bus ∙ h)
    where
      by_got :
          (p : Option Payload × Bus)
          → copies id p.1 ≡ 1
          → left ms (send_got p (session app place sent)) ≡ copies_in_loop ms
      by_got (none, bus) h = go_on (record app { bus = bus }) _ h
      by_got (some p, bus) h =
          go_on (stream_payload p (record app { bus = bus })) _ (copies-stream_payload id p _ ∙ h)

  left-looping :
      (ms : List Move) (app : App) (sent : List Chunk)
      → copies id app.bus ≡ 1
      → left ms (session app looping sent) ≡ copies_in_loop ms
  unfolding moves move
  left-looping [] app sent h = h
  left-looping (publishes p ∷ ms) app sent h =
      left-looping ms (record app { bus = publish p app.bus }) sent
        (copies-publish id p app.bus ∙ h)
  left-looping (reads ∷ ms) app sent h = left-got ms looping app sent (left-looping ms) h
  left-looping (disconnects ∷ ms) app sent h = left-leave ms app sent h
  left-looping (closes ∷ ms) app sent h = left-leave ms app sent h

  left-greeting :
      (ms : List Move) (app : App) (sent : List Chunk)
      → copies id app.bus ≡ 1
      → left ms (session app greeting sent) ≡ copies_after ms
  unfolding moves move
  left-greeting [] app sent h = h
  left-greeting (publishes p ∷ ms) app sent h =
      left-greeting ms (record app { bus = publish p app.bus }) sent
        (copies-publish id p app.bus ∙ h)
  left-greeting (reads ∷ ms) app sent h = left-got ms greeting app sent (left-looping ms) h
  left-greeting (disconnects ∷ ms) app sent h = left-leave ms app sent h
  left-greeting (closes ∷ ms) app sent h = left-abandoned ms app sent ∙ h

-- The queue of a client of the event stream stands in the bus exactly once until the client disconnects
-- or the generator is closed, and is gone from then on, whatever is published and however the client
-- reads; but when the generator is closed at its first `yield`, which stands before the `try`, the queue
-- stays for ever. The identity of the queue is a new one.
pub moves-copies :
    (id : ℕ) (app : App) (ms : List Move)
    → copies id app.bus ≡ 0
    → copies id (moves id ms (sse_events id app)).app.bus ≡ copies_after ms
unfolding sse_events
moves-copies id app ms fresh =
    left-greeting id ms (record app { bus = subscribe id app.bus }) (connected ∷ [])
      (omega (arith, fresh, copies-subscribe id app.bus))
