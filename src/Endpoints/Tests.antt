-- ===== src/Endpoints/Tests.antt =====
-- Runs of the other endpoints of app/main.py at concrete inputs, and the theorems about them at such
-- inputs.
use ai_routing.Prelude.{◌≡◌, refl, true, some, [], ◌∷◌, map, arith, List, ◌+◌, ◌*◌, ◌↔◌}
use ai_routing.Prelude.Int.{pos, ◌+ℤ◌, ◌≤ℤ◌}
use ai_routing.Text.{codes}
use ai_routing.Models.{quality, remote}
use ai_routing.Latency.{Config, init}
use ai_routing.Latency.History.{init-Inv}
use ai_routing.Budget.{
  Env, Reservation, new_manager, new_reservation, enter, init as new_budget_manager, eps_9, ok,
  try_reserve, eps_12,
}
use ai_routing.Budget.Methods.{fresh_state, new_manager-Inv}
use ai_routing.Budget.Invariant.{enter-Inv, cost_of, latency_of}
use ai_routing.Decision.{RoutingDecision, remote_preferred, Envs}
use ai_routing.Observability.{RouteDecisionEvent, run_start_event, log_run_start}
use ai_routing.App.{App, IncomingRequest, fails, cancelled}
use ai_routing.Settlement.Accounts.{AppInv}
use ai_routing.Endpoints.{Settings, run_start, status, zero_counts}
use ai_routing.Endpoints.Fresh.{IsFresh, run_start-IsFresh, queue_id}
use ai_routing.EventBus.{subscribe, publish, offer, get}
use ai_routing.QueueMonitor.{init as new_queue, acquire, returns}
use ai_routing.Inference.Flights.History.{dear_count}
use ai_routing.Inference.Flights.{Event, arrives, ends, reaps, run}
use ai_routing.Inference.Flights.Balance.{nobody}
use ai_routing.Endpoints.Limits.{reset_keeps_limits}
use ai_routing.Endpoints.Stream.{
  Move, publishes, reads, closes, moves, move, sse_events, ended, abandoned,
}
use ai_routing.Endpoints.Stream.Copies.{copies, copies_after, moves-copies}
use ai_routing.Budget.Table.{sum_of}
use ai_routing.Endpoints.Reports.{status_foretells}

abbrev config : Config
config = record {
  avg_local_latency_ms = 250;
  avg_remote_latency_ms = 800;
  alpha_num = 1;
  alpha_den = 4;
  window_size = 5;
}

abbrev settings : Settings
settings = record {
  max_remote_budget = pos 5000;
  max_cumulative_latency_ms = pos 6000;
  reservation_ttl_seconds = pos 45;
  local_queue_capacity = pos 8;
  latency = config;
}

abbrev env : Env
env = record { acquire_us = 0; release_us = 0; now = pos 0; new_id = 1 }

abbrev next_env : Env
next_env = record { acquire_us = 5; release_us = 6; now = pos 1; new_id = 2 }

abbrev reservation : Reservation
reservation = new_reservation env (new_manager (pos 5000) (pos 6000) (pos 45)) (pos 150) (pos 800)

-- One slot is taken, one reservation is active, and one client is connected.
abbrev busy : App
busy = record {
  budget = enter reservation (fresh_state (new_manager (pos 5000) (pos 6000) (pos 45)));
  queue = record { max_concurrency = 8; semaphore = 7; active_count = 1 };
  tracker = init config;
  counts = zero_counts;
  bus = record { id = 3; items = [] } ∷ [];
}

busy-AppInv : AppInv busy
unfolding ◌+ℤ◌
busy-AppInv = record {
  budget =
      enter-Inv reservation (fresh_state (new_manager (pos 5000) (pos 6000) (pos 45))) (omega arith)
        (omega arith) refl (new_manager-Inv (pos 5000) (pos 6000) (pos 45));
  queue = record { total = refl; positive = omega arith };
  tracker = init-Inv config;
}

abbrev incoming : IncomingRequest
incoming = record {
  request_id = 9;
  prompt = codes "Compare TCP and UDP";
  latency_budget_ms = pos 900;
  complexity_tier = some quality;
}

abbrev decision : RoutingDecision
decision = record {
  route = remote;
  reservation = some reservation;
  estimated_latency_ms = pos 800;
  reason = remote_preferred;
}

abbrev event : RouteDecisionEvent
event = record {
  request_id = 9;
  route = remote;
  complexity_tier = quality;
  reason = remote_preferred;
  estimated_latency_ms = pos 800;
  queue_depth = 1;
  liquid_budget = pos 4850;
  prompt = codes "Compare TCP and UDP";
}

run_start-IsFresh_example :
    (app : App) × (run_start settings 4 true busy ≡ some app)
    × IsFresh settings app
    × (map queue_id app.bus ≡ map queue_id busy.bus)
run_start-IsFresh_example = run_start-IsFresh settings 4 busy (omega arith, omega arith)

status_foretells_example :
    let r = status busy in
    let got = (try_reserve next_env 9 (pos 200) (pos 800) busy.budget).0 in
    let next = new_reservation next_env busy.budget.manager (pos 200) (pos 800) in
    (r.remote_budget_reserved ≡ sum_of cost_of busy.budget.active_reservations)
    × (r.latency_reserved_ms ≡ sum_of latency_of busy.budget.active_reservations)
    × (pos 0 ≤ℤ r.remote_budget_remaining)
    × (pos 0 ≤ℤ r.latency_remaining_ms)
    × (pos 200 ≤ℤ r.remote_budget_remaining
        → pos 800 ≤ℤ r.latency_remaining_ms
        → got ≡ ok (some next))
    × (got ≡ ok (some next)
        → (pos 200 ≤ℤ r.remote_budget_remaining +ℤ eps_12)
          × (pos 800 ≤ℤ r.latency_remaining_ms +ℤ eps_12))
    × ((pos 1 ≤ℤ r.local_capacity_available) ↔ ((acquire busy.queue).0 ≡ returns true))
status_foretells_example =
    status_foretells busy next_env 9 (pos 200) (pos 800) busy-AppInv (omega arith) (omega arith)

-- A client that reads once, while others come, and then goes.
abbrev client_moves : List Move
client_moves = publishes (run_start_event 1) ∷ reads ∷ publishes (run_start_event 2) ∷ closes ∷ []

moves-copies_example :
    copies 5 (moves 5 client_moves (sse_events 5 busy)).app.bus ≡ copies_after client_moves
moves-copies_example = moves-copies 5 busy client_moves refl

-- It ends, and its queue is gone.
client_goes : (moves 5 client_moves (sse_events 5 busy)).place ≡ ended
unfolding moves move sse_events subscribe publish offer get
client_goes = refl

-- A client that is gone at the first `yield` leaves its queue behind.
client_leaks :
    let s = moves 5 (closes ∷ []) (sse_events 5 busy) in
    (s.place ≡ abandoned) × (copies 5 s.app.bus ≡ 1)
unfolding moves move sse_events subscribe
client_leaks = (refl, refl)

-- The application after a reset, with the limits of the configuration.
abbrev fresh : App
fresh = record {
  budget = fresh_state (new_manager (pos 5000) (pos 6000) (pos 45));
  queue = record { max_concurrency = 8; semaphore = 8; active_count = 0 };
  tracker = init config;
  counts = zero_counts;
  bus = [];
}

abbrev stale_app : App
stale_app = record busy { bus = [] }

fresh_starts : run_start settings 4 true stale_app ≡ some fresh
unfolding run_start new_budget_manager new_queue log_run_start publish
fresh_starts = refl

abbrev envs : Envs
envs = record { for_local = env; for_remote = env; for_degraded = env }

-- A request comes, its call is cancelled, and the reaper runs.
abbrev cancelled_events : List Event
cancelled_events =
    arrives (pos 150) envs env incoming
    ∷ ends 0 (record { for_commit = env; for_rollback = env }) (fails cancelled)
    ∷ reaps (pos 50)
    ∷ []

reset_keeps_limits_example :
    let s = (run cancelled_events (nobody fresh)).app.budget in
    (s.cumulative_remote_cost +ℤ s.reserved_for_execution
      ≤ℤ pos 5000 +ℤ pos (1 + 1000 * dear_count cancelled_events (nobody fresh)))
    × (s.cumulative_actual_latency_ms ≤ℤ pos 6000 +ℤ eps_9)
reset_keeps_limits_example =
    reset_keeps_limits settings 4 stale_app fresh cancelled_events (omega arith, omega arith)
      (omega arith) fresh_starts ((refl, refl, refl), (tt, (tt, tt)))
