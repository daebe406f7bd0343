-- ===== src/Decision/Tests.antt =====
-- Runs of app/decision_agent.py at concrete inputs, and the theorems about it at such inputs.
use ai_routing.Prelude.{ℕ, ◌≡◌, refl, arith}
use ai_routing.Prelude.Int.{pos, ◌+ℤ◌, ◌-ℤ◌}
use ai_routing.Prelude.Dict.{lookup}
use ai_routing.Models.{ComplexityTier, fast, quality, local, InferenceRequest}
use ai_routing.QueueMonitor.{QueueMonitor}
use ai_routing.Latency.{Tracker, Config, init, get_estimate, backend_local}
use ai_routing.Budget.{State, Env, ok, new_manager, try_reserve}
use ai_routing.Budget.Methods.{fresh_state}
use ai_routing.Decision.{RoutingDecision, Envs, advise, route, route_fast}
use ai_routing.Decision.Paths.{Outcome}
use ai_routing.Decision.Route.{route-Outcome, route_returns}

abbrev config : Config
config = record {
  avg_local_latency_ms = 250;
  avg_remote_latency_ms = 800;
  alpha_num = 1;
  alpha_den = 4;
  window_size = 5;
}

abbrev idle_queue : QueueMonitor
idle_queue = record { max_concurrency = 8; semaphore = 8; active_count = 0 }

-- A latency cap of 1000.
abbrev start : State
start = fresh_state (new_manager (pos 5000) (pos 1000) (pos 45))

abbrev env : ℕ → Env
env id = record { acquire_us = 0; release_us = 0; now = pos 0; new_id = id }

abbrev envs : Envs
envs = record { for_local = env 1; for_remote = env 2; for_degraded = env 3 }

abbrev request : ComplexityTier → InferenceRequest
request tier = record { request_id = 9; latency_budget_ms = pos 900; complexity_tier = tier }

abbrev tracker : Tracker
tracker = init config

local_is : get_estimate backend_local tracker ≡ 250
unfolding init get_estimate lookup
local_is = refl

fast_goes_local :
    (d : RoutingDecision) × ((route (pos 150) envs idle_queue tracker (request fast) start).0
      ≡ ok d)
    × (d.route ≡ local)
unfolding route advise route_fast try_reserve init get_estimate lookup ◌+ℤ◌ ◌-ℤ◌
fast_goes_local = (_, refl, refl)

route-Outcome_example :
    Outcome
      (pos 150)
      (advise idle_queue tracker (request quality))
      start
      quality
      (route (pos 150) envs idle_queue tracker (request quality) start)
route-Outcome_example = route-Outcome (pos 150) envs idle_queue tracker (request quality) start

route_returns_example :
    (d : RoutingDecision) × ((route (pos 150) envs idle_queue tracker (request quality) start).0
      ≡ ok d)
unfolding init get_estimate lookup
route_returns_example =
    route_returns (pos 150) envs idle_queue tracker (request quality) start (omega arith)
      (omega arith) (omega arith)
