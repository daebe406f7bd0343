-- ===== src/Settlement/Handlers.antt =====
-- Every handler of an exception in app/main.py settles the request's reservation, but that a
-- cancellation passes all of them.
use ai_routing.Prelude.{
  ℕ, ◌≡◌, ◌≢◌, refl, true, false, Option, none, some, arith, inl, inr, Bool-cases,
}
use ai_routing.Prelude.Int.{ℤ, pos}
use ai_routing.Models.{ErrorText, RouteDecision}
use ai_routing.Budget.{
  State, Env, Error, Reservation, Result, ok, raise, contains, is_pending, value_error,
  invalid_reservation_state, actual_cost_exceeded, actual_latency_exceeded,
}
use ai_routing.Budget.Invariant.{Inv}
use ai_routing.Budget.Methods.{commit-Inv, rollback-Inv}
use ai_routing.Budget.Leaves.{commit-Without, rollback-Without, rollback_pending_ok}
use ai_routing.QueueMonitor.Slots.{acquire-Inv}
use ai_routing.QueueMonitor.{is_at_capacity}
use ai_routing.Latency.Record.{record_total}
use ai_routing.Observability.{
  Detail, ExecutionOutcome, Bus, local_at_capacity, invalid_reservation, error_text,
}
use ai_routing.Decision.Ledger.{reserves_id}
use ai_routing.App.{
  http_error, App, Stage, Failure, cancelled, runtime_error, remote_inference_error, other_error,
  IncomingRequest, BackendResult,
}
use ai_routing.Settlement.{
  rollback_pending, commit_of, after_rollback, on_runtime_error, on_exception, on_remote_error,
  try_fallback, on_commit_error, on_failure, finish, backend_key, reject_at_capacity, fail_with,
  fall_back, log_rollback_of,
}
use ai_routing.Settlement.Accounts.{AppInv, Accounted, nothing, answer-Accounted, settled-Accounted}

-- The ledger is right, and what is active was active and is not the reservation's.
pub record LetsGo (reservation : Option Reservation) (s t : State) : Type 0 where
  pub inv : Inv t
  pub gone :
      (j : ℕ)
      → contains j t.active_reservations ≡ true
      → (contains j s.active_reservations ≡ true) × (reserves_id reservation j ≡ false)

pub rollback_pending-LetsGo :
    (e : Env) (reservation : Option Reservation) (s : State)
    → Inv s
    → let (res, t) = rollback_pending e reservation s in (res ≡ ok tt) × LetsGo reservation s t
rollback_pending-LetsGo e none s v = (refl, record { inv = v; gone = λ j there. (there, refl) })
rollback_pending-LetsGo e (some r) s v = elim (Bool-cases (is_pending r.id s.states)) [
  | inl pending ↦ rw pending (
    rollback_pending_ok r.id s v e pending,
    record {
      inv = rollback-Inv e r.id s v;
      gone = λ j there. ground (arith, rollback-Without r.id s v e j);
    },
  )
  | inr settled ↦
      rw settled (refl, record { inv = v; gone = λ j there. ground (arith, v.pending_active r.id) })
]

pub commit_of-LetsGo :
    (e : Env) (reservation : Option Reservation) (cost : ℤ) (latency : ℕ) (s : State)
    → Inv s
    → LetsGo reservation s (commit_of e reservation cost latency s).1
commit_of-LetsGo e none cost latency s v = record { inv = v; gone = λ j there. (there, refl) }
commit_of-LetsGo e (some r) cost latency s v = record {
  inv = commit-Inv e r.id cost (pos latency) s v;
  gone = λ j there. ground (arith, commit-Without r.id s v e cost (pos latency) j);
}

abbrev pub with_budget : App → State → App
with_budget app t = record app { budget = t }

pub with_budget-AppInv : (app : App) (t : State) → AppInv app → Inv t → AppInv (with_budget app t)
with_budget-AppInv app t v w = record { budget = w; queue = v.queue; tracker = v.tracker }

after_rollback-Accounted :
    (next : App → Stage × App) (e : Env) (reservation : Option Reservation) (app : App)
    → AppInv app
    → ((t : State) → Inv t → Accounted 0 nothing (with_budget app t) (next (with_budget app t)))
    → Accounted 0
        (reserves_id reservation)
        app
        (after_rollback next app (rollback_pending e reservation app.budget))
after_rollback-Accounted next e reservation app v goes =
    let (fine, lets_go) = rollback_pending-LetsGo e reservation app.budget v.budget in
    by_result (rollback_pending e reservation app.budget) fine lets_go
  where
    by_result :
        (p : Result (Unit {0}) × State)
        → p.0 ≡ ok tt
        → LetsGo reservation app.budget p.1
        → Accounted 0 (reserves_id reservation) app (after_rollback next app p)
    by_result (ok _, t) fine lets_go =
        settled-Accounted 0 (reserves_id reservation) nothing t app _ lets_go.gone
          (goes t lets_go.inv)
    by_result (raise x, t) fine lets_go = absurd (cc)

pub try_fallback-Accounted :
    (text : ErrorText) (app : App) → AppInv app → Accounted 0 nothing app (try_fallback text app)
unfolding try_fallback
try_fallback-Accounted text app v = elim (Bool-cases (is_at_capacity app.queue)) [
  | inl full ↦ rw full (answer-Accounted _ app app v refl refl)
  | inr room ↦
      let (inv, cases) = acquire-Inv app.queue v.queue in
      elim cases [
        | inl (free, got, count, capacity) ↦
            rw (room, got)
              (record {
                inv = record { budget = v.budget; queue = inv; tracker = v.tracker };
                count = omega (arith, count);
                capacity = capacity;
                reservations = λ j there. inr (there, refl);
                goes_on = λ q. absurd (cc);
              })
        | inr (full, got, same) ↦
            rw (room, got)
              (answer-Accounted _ app _
                (record { budget = v.budget; queue = inv; tracker = v.tracker }) refl same)
      ]
]

-- What is published is no part of the books.
logged-Accounted :
    (app : App) (bus : Bus) (p : Stage × App)
    → Accounted 0 nothing (record app { bus = bus }) p
    → Accounted 0 nothing app p
logged-Accounted app bus p a = record {
  inv = a.inv;
  count = a.count;
  capacity = a.capacity;
  reservations = a.reservations;
  goes_on = a.goes_on;
}

module _ (e : Env) (reservation : Option Reservation) (app : App) (v : AppInv app) where
  pub on_runtime_error-Accounted :
      (request_id : ℕ)
      → Accounted 0 (reserves_id reservation) app (on_runtime_error e request_id reservation app)
  unfolding on_runtime_error
  on_runtime_error-Accounted request_id =
      after_rollback-Accounted (reject_at_capacity request_id) e reservation app v λ t w.
        answer-Accounted (http_error 503 local_at_capacity) (with_budget app t)
          (reject_at_capacity request_id (with_budget app t)).1
          (record { budget = w; queue = v.queue; tracker = v.tracker }) refl refl

  pub on_exception-Accounted :
      (text : Detail)
      → Accounted 0 (reserves_id reservation) app (on_exception e text reservation app)
  unfolding on_exception
  on_exception-Accounted text = after_rollback-Accounted (fail_with text) e reservation app v λ t w.
      answer-Accounted (http_error 500 text) (with_budget app t) (with_budget app t)
        (with_budget-AppInv app t v w) refl refl

  pub on_remote_error-Accounted :
      (request_id : ℕ) (text : ErrorText)
      → Accounted 0
          (reserves_id reservation)
          app
          (on_remote_error e request_id text reservation app)
  unfolding on_remote_error
  on_remote_error-Accounted request_id text =
      after_rollback-Accounted (fall_back request_id text reservation app.budget) e reservation app
        v
        λ t w.
          logged-Accounted (with_budget app t)
            (log_rollback_of request_id (error_text text) reservation app.budget app.bus) _
            (try_fallback-Accounted text _
              (record { budget = w; queue = v.queue; tracker = v.tracker }))

  pub on_commit_error-Accounted :
      (x : Error) → Accounted 0 nothing app (on_commit_error e x reservation app)
  unfolding on_commit_error
  on_commit_error-Accounted actual_cost_exceeded =
      answer-Accounted (http_error 500 Detail.actual_cost_exceeded) app app v refl refl
  on_commit_error-Accounted actual_latency_exceeded =
      answer-Accounted (http_error 500 Detail.actual_latency_exceeded) app app v refl refl
  on_commit_error-Accounted value_error =
      settled-Accounted 0 nothing (reserves_id reservation) app.budget app _
        (λ j there. (there, refl)) (on_exception-Accounted invalid_reservation)
  on_commit_error-Accounted invalid_reservation_state =
      settled-Accounted 0 nothing (reserves_id reservation) app.budget app _
        (λ j there. (there, refl)) (on_exception-Accounted invalid_reservation)

  pub on_failure-Accounted :
      (request_id : ℕ) (failure : Failure)
      → failure ≢ cancelled
      → Accounted 0 (reserves_id reservation) app (on_failure e request_id reservation failure app)
  unfolding on_failure
  on_failure-Accounted request_id (runtime_error text) goes = on_runtime_error-Accounted request_id
  on_failure-Accounted request_id (remote_inference_error text) goes =
      on_remote_error-Accounted request_id text
  on_failure-Accounted request_id (other_error text) goes = on_exception-Accounted (error_text text)
  on_failure-Accounted request_id cancelled goes = absurd (goes refl)

pub finish-Accounted :
    (request : IncomingRequest) (route : RouteDecision) (cost : ℤ) (result : BackendResult)
    (outcome : ExecutionOutcome) (app : App)
    → AppInv app
    → Accounted 0 nothing app (finish request route cost result outcome app)
unfolding finish
finish-Accounted request route cost result outcome app v =
    let (tracker, done, recorded) =
      record_total (backend_key route) result.actual_latency_ms app.tracker v.tracker in
    rw (done, finish)
      (answer-Accounted _ app _
        (record { budget = v.budget; queue = v.queue; tracker = recorded.inv }) refl refl)
