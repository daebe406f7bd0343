-- ===== src/Observability.antt =====
-- app/observability.py: the events that its `log_…` functions publish on the bus, and the reading of
-- the lock trace. The lines that they write to the log are not modelled, nor are the functions that
-- only write such lines.
pub mod Traces
mod Tests
use ai_routing.Prelude.{ℕ, ◌+◌, Bool, List, [], ◌∷◌, suc, ltb, if◌then◌else◌}
use ai_routing.Prelude.Int.{ℤ, pos, negsuc, ltb_ℤ}
use ai_routing.Models.{RunCompletePayload, ErrorText, ComplexityTier, RouteDecision}
use ai_routing.Decision.{Reason}
use ai_routing.LockTrace.{LockEvent, Trace}
use ai_routing.EventBus.{Subscribers, publish}

-- `abs`
abbrev pub abs : ℤ → ℤ
abs (pos n) = pos n
abs (negsuc n) = pos (suc n)

-- `_clip`
unfoldable pub clip : ℤ → ℤ
clip value = if ltb_ℤ (abs value) (pos 1000) then pos 0 else value

-- The texts that say why: of a decision, of a full queue, or of an exception.
pub data Detail : Type 0 where
  decided : Reason → Detail
  local_at_capacity : Detail
  local_at_capacity_at_execution : Detail
  actual_cost_exceeded actual_latency_exceeded invalid_reservation : Detail
  remote_failed_also_at_capacity : Detail
  remote_failed_at_capacity : ErrorText → Detail
  error_text : ErrorText → Detail

-- `outcome` of a completed execution.
pub data ExecutionOutcome : Type 0 where
  committed fallback_local : ExecutionOutcome

pub record RouteDecisionEvent : Type 0 where
  pub request_id : ℕ
  pub route : RouteDecision
  pub complexity_tier : ComplexityTier
  pub reason : Reason
  pub estimated_latency_ms : ℤ
  pub queue_depth : ℕ
  pub liquid_budget : ℤ
  pub prompt : List ℕ

-- The token counts of a result.
pub record Tokens : Type 0 where
  pub prompt_tokens : ℕ
  pub completion_tokens : ℕ
  pub cache_read_tokens : ℕ
  pub cache_write_tokens : ℕ

pub record ExecutionCompleteEvent : Type 0 where
  pub request_id : ℕ
  pub backend : RouteDecision
  pub actual_cost : ℤ
  pub actual_latency_ms : ℤ
  pub tokens : Tokens
  pub outcome : ExecutionOutcome
  pub budget_remaining : ℤ

pub record FailFastEvent : Type 0 where
  pub request_id : ℕ
  pub reason : Detail
  pub status_code : ℕ

pub record RollbackEvent : Type 0 where
  pub request_id : ℕ
  pub reservation_id : ℕ
  pub reserved_cost_returned : ℤ
  pub reason : Detail

-- What is published.
pub data Payload : Type 0 where
  route_decision : RouteDecisionEvent → Payload
  execution_complete : ExecutionCompleteEvent → Payload
  fail_fast_event : FailFastEvent → Payload
  rollback_event : RollbackEvent → Payload
  run_start_event : ℕ → Payload
  run_complete_event : RunCompletePayload → Payload

abbrev pub Bus : Type 0
Bus = Subscribers Payload

pub log_route_decision :
    ℕ → RouteDecision → Reason → ℤ → ℕ → ℤ → ComplexityTier → List ℕ → Bus → Bus
log_route_decision request_id route reason estimated_latency_ms queue_depth liquid_budget tier
      prompt =
    publish (
      route_decision (record {
        request_id = request_id;
        route = route;
        complexity_tier = tier;
        reason = reason;
        estimated_latency_ms = clip estimated_latency_ms;
        queue_depth = queue_depth;
        liquid_budget = clip liquid_budget;
        prompt = prompt;
      }))

pub log_execution_complete : ℕ → RouteDecision → ℤ → ℤ → Tokens → ExecutionOutcome → ℤ → Bus → Bus
log_execution_complete request_id backend actual_cost actual_latency_ms tokens outcome remaining =
    publish (
      execution_complete (record {
        request_id = request_id;
        backend = backend;
        actual_cost = clip actual_cost;
        actual_latency_ms = clip actual_latency_ms;
        tokens = tokens;
        outcome = outcome;
        budget_remaining = clip remaining;
      }))

pub log_fail_fast : ℕ → Detail → ℕ → Bus → Bus
log_fail_fast request_id reason status_code = publish (
    fail_fast_event
      (record { request_id = request_id; reason = reason; status_code = status_code }))

pub log_rollback_event : ℕ → ℕ → ℤ → Detail → Bus → Bus
log_rollback_event request_id reservation_id reserved_cost reason = publish (
    rollback_event (record {
      request_id = request_id;
      reservation_id = reservation_id;
      reserved_cost_returned = clip reserved_cost;
      reason = reason;
    }))

unfoldable pub log_run_start : ℕ → Bus → Bus
log_run_start run_id = publish (run_start_event run_id)

pub log_run_complete : RunCompletePayload → Bus → Bus
log_run_complete payload = publish (run_complete_event payload)

-- `sorted` by the time stamp, which is stable.
abbrev pub insert_by_time : LockEvent → Trace → Trace
insert_by_time e [] = e ∷ []
insert_by_time e (d ∷ ds) =
    let rest = insert_by_time e ds in
    if ltb d.timestamp_us e.timestamp_us then d ∷ rest else e ∷ d ∷ ds

-- `get_lock_trace`
unfoldable pub get_lock_trace : Trace → Trace
get_lock_trace [] = []
get_lock_trace (e ∷ es) = insert_by_time e (get_lock_trace es)
