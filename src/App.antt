-- ===== src/App.antt =====
-- The application's state of app/main.py, and the requests and answers of POST /inference.
use ai_routing.Prelude.{ℕ, ◌+◌, Bool, Option, none, some, List}
use ai_routing.Prelude.Int.{ℤ}
use ai_routing.Text.{codes, lower, is_in}
use ai_routing.Models.{
  ResultText, ErrorText, ComplexityTier, RouteDecision, local, remote, queue_local, fail_fast,
  InferenceRequest,
}
use ai_routing.Classifier.{classify}
use ai_routing.QueueMonitor.{QueueMonitor}
use ai_routing.Latency.{Tracker}
use ai_routing.Budget.{State, Env, Error}
use ai_routing.Decision.{RoutingDecision}
use ai_routing.Observability.{Detail, Tokens, Bus}

-- `app.state.route_counts`
pub record RouteCounts : Type 0 where
  pub local_count : ℕ
  pub remote_count : ℕ
  pub queue_local_count : ℕ
  pub fail_fast_count : ℕ

-- `app.state`, with what its managers reach and the bus.
pub record App : Type 0 where
  pub budget : State
  pub queue : QueueMonitor
  pub tracker : Tracker
  pub counts : RouteCounts
  pub bus : Bus

-- `InferenceRequest` as the client sends it.
pub record IncomingRequest : Type 0 where
  pub request_id : ℕ
  pub prompt : List ℕ
  pub latency_budget_ms : ℤ
  pub complexity_tier : Option ComplexityTier

-- `BackendResult`; the latency is an elapsed time.
pub record BackendResult : Type 0 where
  pub actual_cost : ℤ
  pub actual_latency_ms : ℕ
  pub tokens : Tokens
  pub result : ResultText

-- What the call of a backend can raise, with the exception's text.
pub data Failure : Type 0 where
  runtime_error remote_inference_error other_error : ErrorText → Failure
  -- `asyncio.CancelledError`, which is not an `Exception`
  cancelled : Failure

-- How the call of a backend ends.
pub data BackendOutcome : Type 0 where
  gives : BackendResult → BackendOutcome
  fails : Failure → BackendOutcome

pub record InferenceResponse : Type 0 where
  pub request_id : ℕ
  pub route : RouteDecision
  pub complexity_tier : ComplexityTier
  pub actual_cost : ℤ
  pub actual_latency_ms : ℕ
  pub tokens : Tokens
  pub result : ResultText
  pub budget_remaining : ℤ

-- An exception that leaves the handler as it is.
pub data Unhandled : Type 0 where
  budget_error : Error → Unhandled
  key_error cancelled_error : Unhandled
  text_error : ErrorText → Unhandled

pub data Response : Type 0 where
  http_ok : InferenceResponse → Response
  http_error : ℕ → Detail → Response
  unhandled : Unhandled → Response

-- Where the handler stands: at a call of a backend, or at its end. `waits` is the wait for a semaphore
-- under the queue's lock.
pub data Stage : Type 0 where
  executing_remote executing_local : RoutingDecision → Stage
  executing_fallback waits : Stage
  answers : Response → Stage

-- Clocks for the two calls that may settle a reservation.
pub record SettleEnvs : Type 0 where
  pub for_commit : Env
  pub for_rollback : Env

-- The tier is filled in where the client gave none.
abbrev pub with_tier : IncomingRequest → InferenceRequest
with_tier r = record {
  request_id = r.request_id;
  latency_budget_ms = r.latency_budget_ms;
  complexity_tier = elim r.complexity_tier [ none ↦ classify r.prompt | some tier ↦ tier ];
}

-- `route_counts[route_key] += 1`
abbrev pub count_route : RouteDecision → RouteCounts → RouteCounts
count_route local c = record c { local_count = c.local_count + 1 }
count_route remote c = record c { remote_count = c.remote_count + 1 }
count_route queue_local c = record c { queue_local_count = c.queue_local_count + 1 }
count_route fail_fast c = record c { fail_fast_count = c.fail_fast_count + 1 }

-- `"fail_remote" in prompt.lower()`
abbrev pub should_fail : IncomingRequest → Bool
should_fail r = is_in (codes "fail_remote") (lower r.prompt)
