-- ===== src/Inference.antt =====
-- app/main.py: the handler of POST /inference, cut where it suspends. `receive` runs until the
-- backend is called, and a `resume_…` from the backend's outcome to the answer or to the next call.
-- Between two of these steps other coroutines run. The handler uses one set of managers throughout.
pub mod Arrival
pub mod Resumption
pub mod Flights
pub mod Cancelled
pub mod Called
pub mod Expired
pub mod Fallback
mod Tests
use ai_routing.Prelude.{ℕ, true, false, Option}
use ai_routing.Prelude.Int.{ℤ, pos}
use ai_routing.Models.{RouteDecision, local, remote, queue_local, fail_fast}
use ai_routing.QueueMonitor.{acquire, returns, blocks}
use ai_routing.Budget.{State, Env, Reservation, Result, ok, raise, budget_snapshot}
use ai_routing.Decision.{RoutingDecision, Envs, route}
use ai_routing.Observability.{
  decided, remote_failed_also_at_capacity, committed, fallback_local, log_route_decision,
  log_fail_fast,
}
use ai_routing.App.{
  App, IncomingRequest, runtime_error, remote_inference_error, other_error, cancelled,
  BackendOutcome, gives, fails, budget_error, cancelled_error, text_error, http_error, unhandled,
  Stage, executing_remote, executing_local, waits, answers, SettleEnvs, with_tier, count_route,
}
use ai_routing.Settlement.{
  commit_of, on_runtime_error, on_failure, on_commit_error, finish, leave_slot,
}

-- `async with qm.slot()` until the local backend is called; `RuntimeError` at capacity.
unfoldable pub enter_slot : Env → ℕ → RoutingDecision → App → Stage × App
enter_slot e request_id decision app =
    let (got, queue) = acquire app.queue in
    elim got [
      | returns true ↦ (executing_local decision, record app { queue = queue })
      | returns false ↦
          on_runtime_error e request_id decision.reservation (record app { queue = queue })
      | blocks ↦ (waits, record app { queue = queue })
    ]

-- The route's count, and the event of the decision.
abbrev pub note_decision : IncomingRequest → RoutingDecision → App → App
note_decision request decision app = record app {
  counts = count_route decision.route app.counts;
  bus =
      log_route_decision request.request_id decision.route decision.reason
        decision.estimated_latency_ms app.queue.active_count
        (budget_snapshot app.budget.manager).remaining (with_tier request).complexity_tier
        request.prompt app.bus;
}

-- The execution of a decision.
unfoldable pub execute : Env → IncomingRequest → RoutingDecision → RouteDecision → App → Stage × App
execute e request decision fail_fast app = (
  answers (http_error 503 (decided decision.reason)),
  record app {
    counts = count_route fail_fast app.counts;
    bus = log_fail_fast request.request_id (decided decision.reason) 503 app.bus;
  },
)
execute e request decision remote app =
    (executing_remote decision, note_decision request decision app)
execute e request decision local app =
    enter_slot e request.request_id decision (note_decision request decision app)
execute e request decision queue_local app =
    enter_slot e request.request_id decision (note_decision request decision app)

abbrev pub after_route : Env → IncomingRequest → App → Result RoutingDecision × State → Stage × App
after_route e request app (ok decision, s) =
    execute e request decision decision.route (record app { budget = s })
after_route e request app (raise x, s) =
    (answers (unhandled (budget_error x)), record app { budget = s })

-- The handler until the first call of a backend.
unfoldable pub receive : ℤ → Envs → Env → IncomingRequest → App → Stage × App
receive cost_per_remote es e request app =
    after_route e request app
      (route cost_per_remote es app.queue app.tracker (with_tier request) app.budget)

-- The commit, and what follows it; `leave` is the end of the `async with` about it, if there is one.
abbrev pub after_commit :
    (App → Stage × App)
    → (App → App)
    → Env
    → Option Reservation
    → App
    → Result (Unit {0}) × State
    → Stage × App
after_commit next leave e reservation app (ok _, s) = next (leave (record app { budget = s }))
after_commit next leave e reservation app (raise x, s) =
    on_commit_error e x reservation (leave (record app { budget = s }))

-- The remote backend's call has ended.
unfoldable pub resume_remote :
    SettleEnvs → IncomingRequest → RoutingDecision → BackendOutcome → App → Stage × App
resume_remote es request decision (gives result) app =
    after_commit (finish request decision.route result.actual_cost result committed) (λ a. a)
      es.for_rollback decision.reservation app
      (commit_of es.for_commit decision.reservation result.actual_cost result.actual_latency_ms
        app.budget)
resume_remote es request decision (fails failure) app =
    on_failure es.for_rollback request.request_id decision.reservation failure app

-- The local backend's call has ended: the commit is made in the slot, and `slot` gives it back on
-- every exit, before the handlers of the exceptions.
unfoldable pub resume_local :
    SettleEnvs → IncomingRequest → RoutingDecision → BackendOutcome → App → Stage × App
resume_local es request decision (gives result) app =
    after_commit (finish request decision.route result.actual_cost result committed) leave_slot
      es.for_rollback decision.reservation app
      (commit_of es.for_commit decision.reservation (pos 0) result.actual_latency_ms app.budget)
resume_local es request decision (fails failure) app =
    on_failure es.for_rollback request.request_id decision.reservation failure (leave_slot app)

-- The fallback's call has ended. Its handler stands in a handler, so only `RuntimeError` is caught.
unfoldable pub resume_fallback : IncomingRequest → BackendOutcome → App → Stage × App
resume_fallback request (gives result) app =
    finish request queue_local (pos 0) result fallback_local (leave_slot app)
resume_fallback request (fails (runtime_error _)) app =
    (answers (http_error 503 remote_failed_also_at_capacity), leave_slot app)
resume_fallback request (fails (remote_inference_error text)) app =
    (answers (unhandled (text_error text)), leave_slot app)
resume_fallback request (fails (other_error text)) app =
    (answers (unhandled (text_error text)), leave_slot app)
resume_fallback request (fails cancelled) app =
    (answers (unhandled cancelled_error), leave_slot app)
