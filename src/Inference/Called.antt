-- ===== src/Inference/Called.antt =====
-- What the steps of the handler of POST /inference (app/main.py) do to the budget manager: calls of
-- its methods, of which at most one is a commit, and that only after a backend has been called.
use ai_routing.Prelude.{◌∙◌, ℕ, ◌≡◌, refl, sym, subst, true, false, Option, arith}
use ai_routing.Prelude.Int.{ℤ, pos}
use ai_routing.Models.{RouteDecision, local, remote, queue_local, fail_fast}
use ai_routing.QueueMonitor.{QueueMonitor, Acquired, acquire, returns, blocks}
use ai_routing.Budget.{State, Env, Result, ok, raise, Reservation}
use ai_routing.Budget.Called.{weaken, Called, no_call, and_then}
use ai_routing.Decision.{RoutingDecision, Envs}
use ai_routing.Decision.Ledger.{FreshEnvs}
use ai_routing.Decision.Called.{route-Called}
use ai_routing.Observability.{committed, fallback_local}
use ai_routing.App.{
  App, IncomingRequest, BackendResult, BackendOutcome, gives, fails, Failure, cancelled,
  runtime_error, remote_inference_error, other_error, Stage, executing_local, waits, SettleEnvs,
  with_tier,
}
use ai_routing.Settlement.{on_runtime_error, on_commit_error, finish, leave_slot}
use ai_routing.Inference.{
  enter_slot, execute, after_route, receive, after_commit, resume_remote, resume_local,
  resume_fallback, note_decision,
}
use ai_routing.Settlement.Called.{
  budget_of, reservation_overrun, commit_of-Called, finish-budget, on_runtime_error-Called,
  on_commit_error-Called, on_failure-Called,
}

enter_slot-Called :
    (e : Env) (request_id : ℕ) (d : RoutingDecision) (app : App)
    → Called 0 0 app.budget (budget_of (enter_slot e request_id d app))
unfolding enter_slot
enter_slot-Called e request_id d app = by_slot (acquire app.queue)
  where
    by_slot :
        (p : Acquired × QueueMonitor)
        → Called 0 0 app.budget (
            budget_of (elim p.0 [
              | returns true ↦ (executing_local d, record app { queue = p.1 })
              | returns false ↦
                  on_runtime_error e request_id d.reservation (record app { queue = p.1 })
              | blocks ↦ (waits, record app { queue = p.1 })
            ]))
    by_slot (returns true, q) = no_call 0 0 app.budget
    by_slot (returns false, q) =
        on_runtime_error-Called e d.reservation (record app { queue = q }) request_id
    by_slot (blocks, q) = no_call 0 0 app.budget

execute-Called :
    (e : Env) (request : IncomingRequest) (d : RoutingDecision) (taken : RouteDecision) (app : App)
    → Called 0 0 app.budget (budget_of (execute e request d taken app))
unfolding execute
execute-Called e request d fail_fast app = no_call 0 0 app.budget
execute-Called e request d remote app = no_call 0 0 app.budget
execute-Called e request d local app =
    enter_slot-Called e request.request_id d (note_decision request d app)
execute-Called e request d queue_local app =
    enter_slot-Called e request.request_id d (note_decision request d app)

after_route-Called :
    (e : Env) (request : IncomingRequest) (app : App) (p : Result RoutingDecision × State)
    → Called 0 0 p.1 (budget_of (after_route e request app p))
after_route-Called e request app (ok d, t) =
    execute-Called e request d d.route (record app { budget = t })
after_route-Called e request app (raise x, t) = no_call 0 0 t

pub receive-Called :
    (cost : ℤ) (es : Envs) (e : Env) (request : IncomingRequest) (app : App)
    → FreshEnvs es app.budget
    → Called 0 0 app.budget (budget_of (receive cost es e request app))
unfolding receive
receive-Called cost es e request app fresh =
    and_then app.budget _ _
      (route-Called cost es app.queue app.tracker (with_tier request) app.budget fresh)
      (after_route-Called e request app _)

after_commit-Called :
    (next : App → Stage × App) (leave : App → App) (e : Env) (reservation : Option Reservation)
    (app : App) (p : Result (Unit {0}) × State)
    → ((a : App) → budget_of (next a) ≡ a.budget)
    → ((a : App) → (leave a).budget ≡ a.budget)
    → Called 0 0 p.1 (budget_of (after_commit next leave e reservation app p))
after_commit-Called next leave e reservation app (ok _, t) keeps left =
    subst (Called 0 0 t) (sym (keeps (leave (record app { budget = t })) ∙ left _)) (no_call 0 0 t)
after_commit-Called next leave e reservation app (raise x, t) keeps left =
    let back = leave (record app { budget = t }) in
    subst (λ s. Called 0 0 s (budget_of (on_commit_error e x reservation back))) (left _)
      (on_commit_error-Called e reservation back x)

module _ (es : SettleEnvs) (request : IncomingRequest) where
  pub remote_result-Called :
      (d : RoutingDecision) (result : BackendResult) (app : App)
      → Called 1
          (reservation_overrun d.reservation result.actual_cost app.budget)
          app.budget
          (budget_of (resume_remote es request d (gives result) app))
  unfolding resume_remote
  remote_result-Called d result app =
      weaken 1 (reservation_overrun d.reservation result.actual_cost app.budget) app.budget _
        (omega arith) (omega arith)
        (and_then app.budget _ _
          (commit_of-Called es.for_commit d.reservation result.actual_cost result.actual_latency_ms
            app.budget)
          (after_commit-Called (finish request d.route result.actual_cost result committed) (λ a. a)
            es.for_rollback d.reservation app _
            (finish-budget request d.route result.actual_cost result committed) (λ a. refl)))

  pub local_result-Called :
      (d : RoutingDecision) (result : BackendResult) (app : App)
      → Called 1
          (reservation_overrun d.reservation (pos 0) app.budget)
          app.budget
          (budget_of (resume_local es request d (gives result) app))
  unfolding resume_local
  local_result-Called d result app =
      weaken 1 (reservation_overrun d.reservation (pos 0) app.budget) app.budget _ (omega arith)
        (omega arith)
        (and_then app.budget _ _
          (commit_of-Called es.for_commit d.reservation (pos 0) result.actual_latency_ms app.budget)
          (after_commit-Called (finish request d.route result.actual_cost result committed)
            leave_slot es.for_rollback d.reservation app _
            (finish-budget request d.route result.actual_cost result committed) (λ a. refl)))

  pub remote_failure-Called :
      (d : RoutingDecision) (failure : Failure) (app : App)
      → Called 1 0 app.budget (budget_of (resume_remote es request d (fails failure) app))
  unfolding resume_remote
  remote_failure-Called d failure app =
      weaken 1 0 app.budget _ (omega arith) (omega arith)
        (on_failure-Called es.for_rollback d.reservation app request.request_id failure)

  pub local_failure-Called :
      (d : RoutingDecision) (failure : Failure) (app : App)
      → Called 1 0 app.budget (budget_of (resume_local es request d (fails failure) app))
  unfolding resume_local
  local_failure-Called d failure app =
      weaken 1 0 app.budget _ (omega arith) (omega arith) (
        on_failure-Called es.for_rollback d.reservation (leave_slot app) request.request_id failure)

  pub resume_fallback-Called :
      (outcome : BackendOutcome) (app : App)
      → Called 1 0 app.budget (budget_of (resume_fallback request outcome app))
  unfolding resume_fallback
  resume_fallback-Called (gives result) app =
      subst (Called 1 0 app.budget)
        (sym (finish-budget request queue_local (pos 0) result fallback_local (leave_slot app)))
        (no_call 1 0 app.budget)
  resume_fallback-Called (fails (runtime_error text)) app = no_call 1 0 app.budget
  resume_fallback-Called (fails (remote_inference_error text)) app = no_call 1 0 app.budget
  resume_fallback-Called (fails (other_error text)) app = no_call 1 0 app.budget
  resume_fallback-Called (fails cancelled) app = no_call 1 0 app.budget
