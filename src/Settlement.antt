-- ===== src/Settlement.antt =====
-- app/main.py: how the handler of POST /inference settles a reservation, the handlers of exceptions,
-- and the end of a request that was executed.
pub mod Accounts
pub mod Handlers
pub mod Called
use ai_routing.Prelude.{ℕ, Bool, true, false, Option, none, some, List, String, if◌then◌else◌}
use ai_routing.Prelude.Int.{ℤ, pos}
use ai_routing.Models.{ErrorText, RouteDecision, remote}
use ai_routing.QueueMonitor.{is_at_capacity, acquire, release, returns, blocks}
use ai_routing.Latency.{record_latency, backend_local, backend_remote}
use ai_routing.Budget.{
  State, Env, Reservation, Result, ok, raise, Error, actual_cost_exceeded, actual_latency_exceeded,
  commit, rollback, is_pending, budget_snapshot,
}
use ai_routing.Decision.{route}
use ai_routing.Observability.{
  Detail, local_at_capacity, local_at_capacity_at_execution, error_text, invalid_reservation,
  remote_failed_also_at_capacity, remote_failed_at_capacity, ExecutionOutcome, Bus,
  log_execution_complete, log_fail_fast, log_rollback_event,
}
use ai_routing.App.{
  App, IncomingRequest, BackendResult, Failure, runtime_error, remote_inference_error, other_error,
  cancelled, budget_error, key_error, cancelled_error, http_ok, http_error, unhandled, Stage,
  executing_fallback, waits, answers, with_tier,
}

-- `if reservation and reservation.state == "pending": await reservation.rollback()`
abbrev pub holds_pending : Option Reservation → State → Bool
holds_pending none s = false
holds_pending (some r) s = is_pending r.id s.states

abbrev pub rollback_of : Env → Option Reservation → State → Result (Unit {0}) × State
rollback_of e none s = (ok tt, s)
rollback_of e (some r) s = rollback e r.id s

abbrev pub rollback_pending : Env → Option Reservation → State → Result (Unit {0}) × State
rollback_pending e reservation s =
    if holds_pending reservation s then rollback_of e reservation s else (ok tt, s)

-- `if reservation: await reservation.commit(…)`
abbrev pub commit_of : Env → Option Reservation → ℤ → ℕ → State → Result (Unit {0}) × State
commit_of e none cost latency s = (ok tt, s)
commit_of e (some r) cost latency s = commit e r.id cost (pos latency) s

-- The handler of an exception goes on after its rollback, if that does not raise.
abbrev pub after_rollback : (App → Stage × App) → App → Result (Unit {0}) × State → Stage × App
after_rollback next app (ok _, s) = next (record app { budget = s })
after_rollback next app (raise x, s) =
    (answers (unhandled (budget_error x)), record app { budget = s })

-- `except RuntimeError`, and what it does after its rollback.
abbrev pub reject_at_capacity : ℕ → App → Stage × App
reject_at_capacity request_id app = (
  answers (http_error 503 local_at_capacity),
  record app { bus = log_fail_fast request_id local_at_capacity_at_execution 503 app.bus },
)

unfoldable pub on_runtime_error : Env → ℕ → Option Reservation → App → Stage × App
on_runtime_error e request_id reservation app =
    after_rollback (reject_at_capacity request_id) app (rollback_pending e reservation app.budget)

-- `except Exception`, likewise.
abbrev pub fail_with : Detail → App → Stage × App
fail_with text app = (answers (http_error 500 text), app)

unfoldable pub on_exception : Env → Detail → Option Reservation → App → Stage × App
on_exception e text reservation app =
    after_rollback (fail_with text) app (rollback_pending e reservation app.budget)

-- What `log_rollback_event` publishes, if a reservation was rolled back.
abbrev pub log_rollback_of : ℕ → Detail → Option Reservation → State → Bus → Bus
log_rollback_of request_id text none s bus = bus
log_rollback_of request_id text (some r) s bus =
    if is_pending r.id s.states
    then log_rollback_event request_id r.id r.reserved_cost text bus
    else bus

-- The local fallback: `async with qm.slot()` until the backend is called.
unfoldable pub try_fallback : ErrorText → App → Stage × App
try_fallback text app =
    if is_at_capacity app.queue
    then (answers (http_error 503 (remote_failed_at_capacity text)), app)
    else (let (got, queue) = acquire app.queue in
        elim got [
          | returns true ↦ (executing_fallback, record app { queue = queue })
          | returns false ↦ (
            answers (http_error 503 remote_failed_also_at_capacity),
            record app { queue = queue },
          )
          | blocks ↦ (waits, record app { queue = queue })
        ])

-- `except RemoteInferenceError`, likewise; `before` is the budget's state before the rollback.
abbrev pub fall_back : ℕ → ErrorText → Option Reservation → State → App → Stage × App
fall_back request_id text reservation before app =
    try_fallback text
      (record app { bus = log_rollback_of request_id (error_text text) reservation before app.bus })

unfoldable pub on_remote_error : Env → ℕ → ErrorText → Option Reservation → App → Stage × App
on_remote_error e request_id text reservation app =
    after_rollback (fall_back request_id text reservation app.budget) app
      (rollback_pending e reservation app.budget)

-- The two exceptions of `commit` that have rolled the reservation back, and the others.
unfoldable pub on_commit_error : Env → Error → Option Reservation → App → Stage × App
on_commit_error e actual_cost_exceeded reservation app =
    (answers (http_error 500 Detail.actual_cost_exceeded), app)
on_commit_error e actual_latency_exceeded reservation app =
    (answers (http_error 500 Detail.actual_latency_exceeded), app)
on_commit_error e _ reservation app = on_exception e invalid_reservation reservation app

-- The handlers of what the call of a backend raises.
unfoldable pub on_failure : Env → ℕ → Option Reservation → Failure → App → Stage × App
on_failure e request_id reservation (runtime_error _) app =
    on_runtime_error e request_id reservation app
on_failure e request_id reservation (remote_inference_error text) app =
    on_remote_error e request_id text reservation app
on_failure e request_id reservation (other_error text) app =
    on_exception e (error_text text) reservation app
on_failure e request_id reservation cancelled app = (answers (unhandled cancelled_error), app)

-- `BACKEND_REMOTE if decision.route == RouteDecision.REMOTE else BACKEND_LOCAL`
abbrev pub backend_key : RouteDecision → String
backend_key remote = backend_remote
backend_key _ = backend_local

-- After the execution: the tracker is updated, and the response is made. The decision of a fallback is
-- read for its route alone.
unfoldable pub finish :
    IncomingRequest → RouteDecision → ℤ → BackendResult → ExecutionOutcome → App → Stage × App
finish request route cost result outcome app =
    elim (record_latency (backend_key route) result.actual_latency_ms app.tracker) [
      | none ↦ (answers (unhandled key_error), app)
      | some tracker ↦ (
        answers (
            http_ok (record {
              request_id = request.request_id;
              route = route;
              complexity_tier = (with_tier request).complexity_tier;
              actual_cost = cost;
              actual_latency_ms = result.actual_latency_ms;
              tokens = result.tokens;
              result = result.result;
              budget_remaining = (budget_snapshot app.budget.manager).remaining;
            })),
        record app {
          tracker = tracker;
          bus =
              log_execution_complete request.request_id route cost (pos result.actual_latency_ms)
                result.tokens outcome (budget_snapshot app.budget.manager).remaining app.bus;
        },
      )
    ]

-- The end of `async with qm.slot()`.
abbrev pub leave_slot : App → App
leave_slot app = record app { queue = release app.queue }
