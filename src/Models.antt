-- ===== src/Models.antt =====
-- The data contracts of app/models.py that the router's core passes around, and the tiers of
-- app/complexity_classifier.py.
use ai_routing.Prelude.{ℕ, List, String, Bool, true, Option, none, some}
use ai_routing.Prelude.Int.{ℤ}
use ai_routing.Prelude.Dict.{Dict}

-- `ComplexityTier`
pub data ComplexityTier : Type 0 where
  fast quality : ComplexityTier

-- `RouteDecision`
pub data RouteDecision : Type 0 where
  local remote queue_local fail_fast : RouteDecision

-- `InferenceRequest`, once main.py has filled the tier in. The prompt is not read by the agent.
pub record InferenceRequest : Type 0 where
  pub request_id : ℕ
  pub latency_budget_ms : ℤ
  pub complexity_tier : ComplexityTier

-- `BackendResult.result`: the parts that each backend formats into one text.
pub data ResultText : Type 0 where
  ollama_text : ℕ → ℕ → List ℕ → ResultText
  tokenrouter_text : ℕ → ℕ → ℤ → List ℕ → ResultText
  local_mock_text : List ℕ → ResultText
  remote_mock_text : ℕ → ℤ → ResultText

-- The texts of exceptions, likewise: what is quoted of a reply, and which of the program's texts it is.
-- An exception of a library is quoted as a whole.
pub data ErrorText : Type 0 where
  injected_failure simulated_failure : ErrorText
  ollama_status remote_status : ℕ → List ℕ → ErrorText
  ollama_unreachable ollama_unexpected remote_unexpected remote_unreachable : List ℕ → ErrorText
  remote_transient_status : ℕ → ErrorText

-- The values of `RouteDecision`.
abbrev pub route_value : RouteDecision → String
route_value local = "LOCAL"
route_value remote = "REMOTE"
route_value queue_local = "QUEUE_LOCAL"
route_value fail_fast = "FAIL_FAST"

-- `RunStartPayload`
pub record RunStartPayload : Type 0 where
  pub run_id : ℕ
  pub reset : Bool

-- `reset` is true where the client leaves it out.
abbrev pub run_start_payload : ℕ → Option Bool → RunStartPayload
run_start_payload run_id none = record { run_id = run_id; reset = true }
run_start_payload run_id (some reset) = record { run_id = run_id; reset = reset }

-- `RunCompletePayload`
pub record RunCompletePayload : Type 0 where
  pub run_id : ℕ
  pub verdict : String
  pub metrics : Dict ℤ
  pub routes : Dict ℕ
