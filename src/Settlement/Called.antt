-- ===== src/Settlement/Called.antt =====
-- What the settling of a reservation and the handlers of exceptions in app/main.py do to the budget
-- manager: calls of its methods, with no commit but the first.
use ai_routing.Prelude.{ℕ, ◌≡◌, refl, sym, subst, Option, none, some, arith, inl, inr, Bool-cases}
use ai_routing.Prelude.Int.{ℤ, pos}
use ai_routing.Models.{ErrorText, RouteDecision}
use ai_routing.QueueMonitor.{acquire}
use ai_routing.Budget.{
  State, Env, Error, Result, ok, raise, Reservation, is_pending, value_error,
  invalid_reservation_state, actual_cost_exceeded, actual_latency_exceeded,
}
use ai_routing.Budget.History.{commits, rollbacks, step as step_call}
use ai_routing.Budget.Overruns.{overrun}
use ai_routing.Budget.Called.{Called, no_call, one_call}
use ai_routing.Observability.{Detail, ExecutionOutcome, invalid_reservation, error_text}
use ai_routing.App.{
  App, IncomingRequest, BackendResult, Failure, cancelled, runtime_error, remote_inference_error,
  other_error, Stage,
}
use ai_routing.Settlement.{
  rollback_pending, commit_of, after_rollback, on_runtime_error, on_exception, on_remote_error,
  try_fallback, on_commit_error, on_failure, finish, reject_at_capacity, fail_with, fall_back,
}

-- The budget manager of the application that a step leaves.
abbrev pub budget_of : Stage × App → State
budget_of p = p.1.budget

rollback_pending-Called :
    (e : Env) (reservation : Option Reservation) (s : State)
    → Called 0 0 s (rollback_pending e reservation s).1
unfolding step_call
rollback_pending-Called e none s = no_call 0 0 s
rollback_pending-Called e (some r) s = elim (Bool-cases (is_pending r.id s.states)) [
  | inl pending ↦
      rw pending (one_call 0 0 (rollbacks e r.id) s (tt, tt) (omega arith) (omega arith))
  | inr settled ↦ rw settled (no_call 0 0 s)
]

-- Whether a commit would cost more than what is reserved: 1 or 0.
abbrev pub reservation_overrun : Option Reservation → ℤ → State → ℕ
reservation_overrun none cost s = 0
reservation_overrun (some r) cost s = overrun r.id cost s

pub commit_of-Called :
    (e : Env) (reservation : Option Reservation) (cost : ℤ) (latency : ℕ) (s : State)
    → Called 1 (reservation_overrun reservation cost s) s (commit_of e reservation cost latency s).1
unfolding step_call
commit_of-Called e none cost latency s = no_call 1 0 s
commit_of-Called e (some r) cost latency s =
    one_call 1 (overrun r.id cost s) (commits e r.id cost (pos latency)) s (tt, tt) (omega arith)
      (omega arith)

-- A handler goes on after its rollback without another call.
after_rollback-Called :
    (next : App → Stage × App) (e : Env) (reservation : Option Reservation) (app : App)
    → ((a : App) → budget_of (next a) ≡ a.budget)
    → Called 0 0 app.budget
        (budget_of (after_rollback next app (rollback_pending e reservation app.budget)))
after_rollback-Called next e reservation app keeps =
    by_result (rollback_pending e reservation app.budget)
      (rollback_pending-Called e reservation app.budget)
  where
    by_result :
        (p : Result (Unit {0}) × State)
        → Called 0 0 app.budget p.1
        → Called 0 0 app.budget (budget_of (after_rollback next app p))
    by_result (ok _, t) called =
        subst (Called 0 0 app.budget) (sym (keeps (record app { budget = t }))) called
    by_result (raise x, t) called = called

pub try_fallback-budget :
    (text : ErrorText) (app : App) → budget_of (try_fallback text app) ≡ app.budget
unfolding try_fallback acquire
try_fallback-budget text app = ground arith

pub finish-budget :
    (request : IncomingRequest) (route : RouteDecision) (cost : ℤ) (result : BackendResult)
    (outcome : ExecutionOutcome) (app : App)
    → budget_of (finish request route cost result outcome app) ≡ app.budget
unfolding finish
finish-budget request route cost result outcome app = ground arith

module _ (e : Env) (reservation : Option Reservation) (app : App) where
  pub on_runtime_error-Called :
      (request_id : ℕ)
      → Called 0 0 app.budget (budget_of (on_runtime_error e request_id reservation app))
  unfolding on_runtime_error
  on_runtime_error-Called request_id =
      after_rollback-Called (reject_at_capacity request_id) e reservation app (λ a. refl)

  on_exception-Called :
      (text : Detail) → Called 0 0 app.budget (budget_of (on_exception e text reservation app))
  unfolding on_exception
  on_exception-Called text = after_rollback-Called (fail_with text) e reservation app (λ a. refl)

  on_remote_error-Called :
      (request_id : ℕ) (text : ErrorText)
      → Called 0 0 app.budget (budget_of (on_remote_error e request_id text reservation app))
  unfolding on_remote_error
  on_remote_error-Called request_id text =
      after_rollback-Called (fall_back request_id text reservation app.budget) e reservation app
        (λ a. try_fallback-budget text _)

  pub on_commit_error-Called :
      (x : Error) → Called 0 0 app.budget (budget_of (on_commit_error e x reservation app))
  unfolding on_commit_error
  on_commit_error-Called actual_cost_exceeded = no_call 0 0 app.budget
  on_commit_error-Called actual_latency_exceeded = no_call 0 0 app.budget
  on_commit_error-Called value_error = on_exception-Called invalid_reservation
  on_commit_error-Called invalid_reservation_state = on_exception-Called invalid_reservation

  pub on_failure-Called :
      (request_id : ℕ) (failure : Failure)
      → Called 0 0 app.budget (budget_of (on_failure e request_id reservation failure app))
  unfolding on_failure
  on_failure-Called request_id (runtime_error text) = on_runtime_error-Called request_id
  on_failure-Called request_id (remote_inference_error text) =
      on_remote_error-Called request_id text
  on_failure-Called request_id (other_error text) = on_exception-Called (error_text text)
  on_failure-Called request_id cancelled = no_call 0 0 app.budget
