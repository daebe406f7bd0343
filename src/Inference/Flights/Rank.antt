-- ===== src/Inference/Flights/Rank.antt =====
-- How many calls of a backend a handler of POST /inference (app/main.py) may still make.
use ai_routing.Prelude.{ℕ, ◌-◌, ◌≤◌, Option, arith}
use ai_routing.Prelude.Int.{ℤ, pos}
use ai_routing.Models.{ErrorText, RouteDecision, queue_local}
use ai_routing.QueueMonitor.{acquire}
use ai_routing.Budget.{
  State, Env, Error, Reservation, Result, ok, raise, value_error, invalid_reservation_state,
  actual_cost_exceeded, actual_latency_exceeded,
}
use ai_routing.Observability.{
  Detail, ExecutionOutcome, committed, fallback_local, invalid_reservation, error_text,
}
use ai_routing.App.{
  App, IncomingRequest, BackendResult, BackendOutcome, gives, fails, Failure, cancelled,
  runtime_error, remote_inference_error, other_error, Stage, executing_remote, executing_local,
  executing_fallback, waits, answers, SettleEnvs,
}
use ai_routing.Settlement.{
  rollback_pending, after_rollback, on_runtime_error, on_exception, on_remote_error, try_fallback,
  on_commit_error, on_failure, finish, reject_at_capacity, fail_with, fall_back, leave_slot,
  commit_of,
}
use ai_routing.Inference.{after_commit, resume_remote, resume_local, resume_fallback}
use ai_routing.Inference.Flights.{resume}

-- How many calls of a backend may still end before the answer.
abbrev pub rank : Stage → ℕ
rank (executing_remote d) = 2
rank (executing_local d) = 2
rank executing_fallback = 1
rank waits = 0
rank (answers r) = 0

after_rollback-rank :
    (n : ℕ) (next : App → Stage × App) (app : App) (p : Result (Unit {0}) × State)
    → ((a : App) → rank (next a).0 ≤ n)
    → rank (after_rollback next app p).0 ≤ n
after_rollback-rank n next app (ok _, t) h = h (record app { budget = t })
after_rollback-rank n next app (raise x, t) h = omega arith

try_fallback-rank : (text : ErrorText) (app : App) → rank (try_fallback text app).0 ≤ 1
unfolding try_fallback acquire
try_fallback-rank text app = ground arith

on_exception-rank :
    (e : Env) (text : Detail) (reservation : Option Reservation) (app : App)
    → rank (on_exception e text reservation app).0 ≤ 0
unfolding on_exception
on_exception-rank e text reservation app =
    after_rollback-rank 0 (fail_with text) app (rollback_pending e reservation app.budget)
      (λ a. omega arith)

pub on_runtime_error-rank :
    (e : Env) (request_id : ℕ) (reservation : Option Reservation) (app : App)
    → rank (on_runtime_error e request_id reservation app).0 ≤ 0
unfolding on_runtime_error
on_runtime_error-rank e request_id reservation app =
    after_rollback-rank 0 (reject_at_capacity request_id) app
      (rollback_pending e reservation app.budget) (λ a. omega arith)

on_failure-rank :
    (e : Env) (request_id : ℕ) (reservation : Option Reservation) (failure : Failure) (app : App)
    → rank (on_failure e request_id reservation failure app).0 ≤ 1
unfolding on_failure on_remote_error
on_failure-rank e request_id reservation (runtime_error text) app =
    omega (arith, on_runtime_error-rank e request_id reservation app)
on_failure-rank e request_id reservation (remote_inference_error text) app =
    after_rollback-rank 1 (fall_back request_id text reservation app.budget) app
      (rollback_pending e reservation app.budget) (λ a. try_fallback-rank text _)
on_failure-rank e request_id reservation (other_error text) app =
    omega (arith, on_exception-rank e (error_text text) reservation app)
on_failure-rank e request_id reservation cancelled app = omega arith

finish-rank :
    (request : IncomingRequest) (route : RouteDecision) (cost : ℤ) (result : BackendResult)
    (outcome : ExecutionOutcome) (app : App)
    → rank (finish request route cost result outcome app).0 ≤ 0
unfolding finish
finish-rank request route cost result outcome app = ground arith

on_commit_error-rank :
    (e : Env) (x : Error) (reservation : Option Reservation) (app : App)
    → rank (on_commit_error e x reservation app).0 ≤ 0
unfolding on_commit_error
on_commit_error-rank e actual_cost_exceeded reservation app = omega arith
on_commit_error-rank e actual_latency_exceeded reservation app = omega arith
on_commit_error-rank e value_error reservation app =
    on_exception-rank e invalid_reservation reservation app
on_commit_error-rank e invalid_reservation_state reservation app =
    on_exception-rank e invalid_reservation reservation app

after_commit-rank :
    (next : App → Stage × App) (leave : App → App) (e : Env) (reservation : Option Reservation)
    (app : App) (p : Result (Unit {0}) × State)
    → ((a : App) → rank (next a).0 ≤ 0)
    → rank (after_commit next leave e reservation app p).0 ≤ 1
after_commit-rank next leave e reservation app (ok _, t) h =
    omega (arith, h (leave (record app { budget = t })))
after_commit-rank next leave e reservation app (raise x, t) h =
    omega (arith, on_commit_error-rank e x reservation (leave (record app { budget = t })))

-- The end of a call brings the handler nearer to its answer.
pub resume-rank :
    (es : SettleEnvs) (outcome : BackendOutcome) (request : IncomingRequest) (stage : Stage)
    (app : App)
    → rank (resume es outcome request stage app).0 ≤ rank stage - 1
unfolding resume_remote resume_local resume_fallback
resume-rank es (gives result) request (executing_remote d) app =
    after_commit-rank (finish request d.route result.actual_cost result committed) (λ a. a)
      es.for_rollback d.reservation app
      (commit_of es.for_commit d.reservation result.actual_cost result.actual_latency_ms app.budget)
      (finish-rank request d.route result.actual_cost result committed)
resume-rank es (fails failure) request (executing_remote d) app =
    on_failure-rank es.for_rollback request.request_id d.reservation failure app
resume-rank es (gives result) request (executing_local d) app =
    after_commit-rank (finish request d.route result.actual_cost result committed) leave_slot
      es.for_rollback d.reservation app
      (commit_of es.for_commit d.reservation (pos 0) result.actual_latency_ms app.budget)
      (finish-rank request d.route result.actual_cost result committed)
resume-rank es (fails failure) request (executing_local d) app =
    on_failure-rank es.for_rollback request.request_id d.reservation failure (leave_slot app)
resume-rank es (gives result) request executing_fallback app =
    finish-rank request queue_local (pos 0) result fallback_local (leave_slot app)
resume-rank es (fails (runtime_error text)) request executing_fallback app = omega arith
resume-rank es (fails (remote_inference_error text)) request executing_fallback app = omega arith
resume-rank es (fails (other_error text)) request executing_fallback app = omega arith
resume-rank es (fails cancelled) request executing_fallback app = omega arith
resume-rank es outcome request waits app = omega arith
resume-rank es outcome request (answers r) app = omega arith
