-- ===== src/Inference/Resumption.antt =====
-- The steps of the handler of POST /inference (app/main.py) after a backend's call keep the books.
use ai_routing.Prelude.{ℕ, ◌<◌, ◌≢◌, refl, Option}
use ai_routing.Prelude.Int.{pos}
use ai_routing.Models.{queue_local}
use ai_routing.Budget.{State, Env, Reservation, Result, ok, raise}
use ai_routing.Budget.Invariant.{Inv}
use ai_routing.Decision.{RoutingDecision}
use ai_routing.Decision.Ledger.{reserves_id}
use ai_routing.App.{
  App, IncomingRequest, BackendOutcome, gives, fails, cancelled, runtime_error,
  remote_inference_error, other_error, Stage, SettleEnvs, http_error, unhandled, cancelled_error,
  text_error,
}
use ai_routing.Observability.{committed, fallback_local, remote_failed_also_at_capacity}
use ai_routing.Settlement.{finish, leave_slot}
use ai_routing.Settlement.Accounts.{
  AppInv, Accounted, nothing, answer-Accounted, settled-Accounted, leave-Accounted, leave-AppInv,
}
use ai_routing.Settlement.Handlers.{
  on_commit_error-Accounted, on_failure-Accounted, finish-Accounted, commit_of-LetsGo, LetsGo,
  with_budget, with_budget-AppInv,
}
use ai_routing.Inference.{after_commit, resume_remote, resume_local, resume_fallback}

module _ (n : ℕ) (next : App → Stage × App) (leave : App → App) (e : Env)
    (reservation : Option Reservation) (app : App)
    (left-AppInv : (t : State) → Inv t → AppInv (leave (with_budget app t)))
    (left-Accounted : (t : State) (p : Stage × App)
      → Inv t
      → Accounted 0 nothing (leave (with_budget app t)) p
      → Accounted n nothing (with_budget app t) p)
    (next-Accounted : (a : App) → AppInv a → Accounted 0 nothing a (next a)) where
  after_commit-Accounted :
      (p : Result (Unit {0}) × State)
      → LetsGo reservation app.budget p.1
      → Accounted n (reserves_id reservation) app (after_commit next leave e reservation app p)
  after_commit-Accounted (ok _, t) lets_go =
      settled-Accounted n (reserves_id reservation) nothing t app _ lets_go.gone
        (left-Accounted t _ lets_go.inv (next-Accounted _ (left-AppInv t lets_go.inv)))
  after_commit-Accounted (raise x, t) lets_go =
      settled-Accounted n (reserves_id reservation) nothing t app _ lets_go.gone (
        left-Accounted t _ lets_go.inv (
          on_commit_error-Accounted e reservation (leave (with_budget app t))
            (left-AppInv t lets_go.inv) x))

-- The call was not cancelled.
abbrev pub Ends : BackendOutcome → Type 0
Ends (gives result) = Unit
Ends (fails failure) = failure ≢ cancelled

-- However the remote call ends, a cancellation apart, the request lets go of its reservation: it is
-- committed or rolled back, unless it was settled already. A slot is held afterwards only for the
-- fallback.
pub resume_remote-Accounted :
    (es : SettleEnvs) (request : IncomingRequest) (d : RoutingDecision) (outcome : BackendOutcome)
    (app : App)
    → AppInv app
    → Ends outcome
    → Accounted 0 (reserves_id d.reservation) app (resume_remote es request d outcome app)
unfolding resume_remote
resume_remote-Accounted es request d (gives result) app v ends =
    after_commit-Accounted 0 (finish request d.route result.actual_cost result committed) (λ a. a)
      es.for_rollback d.reservation app (λ t w. with_budget-AppInv app t v w) (λ t p w a. a)
      (finish-Accounted request d.route result.actual_cost result committed) _
      (commit_of-LetsGo es.for_commit d.reservation result.actual_cost result.actual_latency_ms
        app.budget v.budget)
resume_remote-Accounted es request d (fails failure) app v ends =
    on_failure-Accounted es.for_rollback d.reservation app v request.request_id failure ends

-- However the local call ends, a cancellation apart, the request lets go of its reservation and of its
-- slot; if it then falls back, it holds a new slot and no reservation. It held a slot before.
pub resume_local-Accounted :
    (es : SettleEnvs) (request : IncomingRequest) (d : RoutingDecision) (outcome : BackendOutcome)
    (app : App)
    → AppInv app
    → 0 < app.queue.active_count
    → Ends outcome
    → Accounted 1 (reserves_id d.reservation) app (resume_local es request d outcome app)
unfolding resume_local
resume_local-Accounted es request d (gives result) app v taken ends =
    after_commit-Accounted 1 (finish request d.route result.actual_cost result committed) leave_slot
      es.for_rollback d.reservation app (λ t w. leave-AppInv _ (with_budget-AppInv app t v w))
      (λ t p w a. leave-Accounted nothing _ p (with_budget-AppInv app t v w) taken a)
      (finish-Accounted request d.route result.actual_cost result committed) _
      (commit_of-LetsGo es.for_commit d.reservation (pos 0) result.actual_latency_ms app.budget
        v.budget)
resume_local-Accounted es request d (fails failure) app v taken ends =
    leave-Accounted (reserves_id d.reservation) app _ v taken (
      on_failure-Accounted es.for_rollback d.reservation (leave_slot app) (leave-AppInv app v)
        request.request_id failure ends)

-- However the fallback's call ends, also by a cancellation, the request is answered, gives its slot
-- back and leaves the budget alone.
pub resume_fallback-Accounted :
    (request : IncomingRequest) (outcome : BackendOutcome) (app : App)
    → AppInv app
    → 0 < app.queue.active_count
    → Accounted 1 nothing app (resume_fallback request outcome app)
unfolding resume_fallback
resume_fallback-Accounted request (gives result) app v taken =
    leave-Accounted nothing app _ v taken (
      finish-Accounted request queue_local (pos 0) result fallback_local (leave_slot app)
        (leave-AppInv app v))
resume_fallback-Accounted request (fails (runtime_error text)) app v taken =
    leave-Accounted nothing app _ v taken (
      answer-Accounted (http_error 503 remote_failed_also_at_capacity) (leave_slot app)
        (leave_slot app) (leave-AppInv app v) refl refl)
resume_fallback-Accounted request (fails (remote_inference_error text)) app v taken =
    leave-Accounted nothing app _ v taken (
      answer-Accounted (unhandled (text_error text)) (leave_slot app) (leave_slot app)
        (leave-AppInv app v) refl refl)
resume_fallback-Accounted request (fails (other_error text)) app v taken =
    leave-Accounted nothing app _ v taken (
      answer-Accounted (unhandled (text_error text)) (leave_slot app) (leave_slot app)
        (leave-AppInv app v) refl refl)
resume_fallback-Accounted request (fails cancelled) app v taken =
    leave-Accounted nothing app _ v taken (
      answer-Accounted (unhandled cancelled_error) (leave_slot app) (leave_slot app)
        (leave-AppInv app v) refl refl)
