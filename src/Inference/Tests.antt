-- ===== src/Inference/Tests.antt =====
-- Runs of the handler of POST /inference (app/main.py) at concrete inputs, and the theorems about it
-- at such inputs.
use ai_routing.Prelude.{
  ℕ, ◌≡◌, ◌≤◌, refl, true, some, not, List, [], ◌∷◌, arith, ◌+◌, ◌<◌, zero, suc, length,
}
use ai_routing.Prelude.Int.{pos, ◌+ℤ◌, ◌-ℤ◌, ℤ}
use ai_routing.Prelude.Dict.{lookup, insert}
use ai_routing.Text.{codes}
use ai_routing.Models.{tokenrouter_text, remote_unreachable, fast, quality, remote, ErrorText}
use ai_routing.QueueMonitor.{QueueMonitor}
use ai_routing.Latency.{Config, init, get_estimate, record_latency, register}
use ai_routing.Budget.{
  State, Env, Reservation, new_manager, try_reserve, enter, contains, is_expired,
  expire_stale_reservations, new_reservation, commit, commit_found,
}
use ai_routing.Budget.Invariant.{enter-Inv}
use ai_routing.Settlement.{finish}
use ai_routing.Budget.Methods.{fresh_state, new_manager-Inv}
use ai_routing.Latency.History.{init-Inv}
use ai_routing.Decision.{RoutingDecision, Envs, advise, route, route_quality, remote_preferred}
use ai_routing.App.{
  App, IncomingRequest, gives, fails, cancelled, remote_inference_error, SettleEnvs, BackendResult,
  answers, unhandled, cancelled_error, http_error,
}
use ai_routing.Settlement.Accounts.{AppInv, active, slots}
use ai_routing.Inference.{receive, execute, resume_remote, resume_fallback}
use ai_routing.Inference.Flights.{
  Event, arrives, ends, reaps, step, run, slots_held, is_kept, NoneWaits, AllAllowed,
}
use ai_routing.Inference.Flights.Balance.{Started, nobody, run_balances}
use ai_routing.Inference.Flights.Released.{answered_releases, AllAnswered}
use ai_routing.Inference.Cancelled.{cancelled_until_reaped}
use ai_routing.Inference.Expired.{late_result_unbooked}
use ai_routing.Budget.Settle.{RolledBack}
use ai_routing.Inference.Fallback.{FallbackAnswers, FallsBack, remote_failure-FallsBack}
use ai_routing.Inference.Flights.History.{run-Called, dear_count, end_count, Allowed-AllFresh}
use ai_routing.Inference.Flights.Drain.{two_ends_settle, ends_of}
use ai_routing.Budget.Called.{Called}
use ai_routing.Observability.{invalid_reservation}

abbrev config : Config
config = record {
  avg_local_latency_ms = 250;
  avg_remote_latency_ms = 800;
  alpha_num = 1;
  alpha_den = 4;
  window_size = 5;
}

abbrev idle_queue : QueueMonitor
idle_queue = record { max_concurrency = 8; semaphore = 8; active_count = 0 }

abbrev start : State
start = fresh_state (new_manager (pos 5000) (pos 5000) (pos 45))

abbrev app : App
app = record {
  budget = start;
  queue = idle_queue;
  tracker = init config;
  counts = record { local_count = 0; remote_count = 0; queue_local_count = 0; fail_fast_count = 0 };
  bus = [];
}

app-AppInv : AppInv app
app-AppInv = record {
  budget = new_manager-Inv (pos 5000) (pos 5000) (pos 45);
  queue = record { total = refl; positive = omega arith };
  tracker = init-Inv config;
}

abbrev env : ℕ → Env
env id = record { acquire_us = 0; release_us = 0; now = pos 0; new_id = id }

abbrev envs : ℕ → Envs
envs n = record { for_local = env n; for_remote = env n; for_degraded = env n }

abbrev settle_envs : SettleEnvs
settle_envs = record { for_commit = env 0; for_rollback = env 0 }

abbrev incoming : IncomingRequest
incoming = record {
  request_id = 9;
  prompt = codes "Compare TCP and UDP";
  latency_budget_ms = pos 900;
  complexity_tier = some quality;
}

abbrev lookup_request : IncomingRequest
lookup_request = record incoming { request_id = 10; complexity_tier = some fast }

abbrev result : BackendResult
result = record {
  actual_cost = pos 90;
  actual_latency_ms = 700;
  tokens = record {
    prompt_tokens = 5;
    completion_tokens = 8;
    cache_read_tokens = 0;
    cache_write_tokens = 0;
  };
  result = tokenrouter_text 5 8 (pos 90) (codes "TCP is reliable");
}

-- Two requests come, the remote call of the first fails and it falls back, the second ends, the reaper
-- runs, and the fallback ends.
abbrev events : List Event
events =
    arrives (pos 150) (envs 1) (env 0) incoming
    ∷ arrives (pos 150) (envs 2) (env 0) lookup_request
    ∷ ends 1 settle_envs (fails (remote_inference_error (remote_unreachable (codes "ReadTimeout"))))
    ∷ ends 0 settle_envs (gives result)
    ∷ reaps (pos 50)
    ∷ ends 1 settle_envs (gives result)
    ∷ []

events_allowed : AllAllowed events (nobody app)
unfolding step receive route advise route_quality try_reserve init get_estimate lookup ◌+ℤ◌ ◌-ℤ◌
    execute
events_allowed =
    ((refl, refl, refl), ((refl, refl, refl), ((λ e. absurd (cc)), (tt, (tt, (tt, tt))))))

app-Started : Started app
app-Started = record { inv = app-AppInv; idle = refl; unreserved = refl }

run_balances_example :
    let w = run events (nobody app) in
    (w.app.queue.active_count ≡ slots_held w.flights)
    × (slots_held w.flights ≤ app.queue.max_concurrency)
    × ((j : ℕ) → active j w.app ≡ true → is_kept w.flights j ≡ true)
    × NoneWaits w.flights
run_balances_example = run_balances events app app-Started events_allowed

-- With one request alone: the remote call succeeds.
abbrev one_request : List Event
one_request = arrives (pos 150) (envs 1) (env 0) incoming ∷ ends 0 settle_envs (gives result) ∷ []

answered_releases_example :
    let w = run one_request (nobody app) in
    (w.app.queue.active_count ≡ 0)
    × (w.app.budget.active_reservations ≡ [])
    × (w.app.budget.reserved_for_execution ≡ pos 0)
    × (w.app.budget.reserved_latency_ms ≡ pos 0)
unfolding run step receive route advise route_quality try_reserve init get_estimate lookup ◌+ℤ◌ ◌-ℤ◌
    execute resume_remote commit commit_found finish record_latency register insert
answered_releases_example =
    answered_releases one_request app app-Started ((refl, refl, refl), (tt, tt)) (tt, tt)

-- A decision for the remote path, and its reservation.
abbrev reservation : Reservation
reservation =
    new_reservation (env 1) (new_manager (pos 5000) (pos 5000) (pos 45)) (pos 150) (pos 800)

abbrev decision : RoutingDecision
decision = record {
  route = remote;
  reservation = some reservation;
  estimated_latency_ms = pos 800;
  reason = remote_preferred;
}

abbrev reserved : App
reserved = record app { budget = enter reservation start }

reserved-AppInv : AppInv reserved
unfolding ◌+ℤ◌
reserved-AppInv = record {
  budget =
      enter-Inv reservation start (omega arith) (omega arith) refl
        (new_manager-Inv (pos 5000) (pos 5000) (pos 45));
  queue = record { total = refl; positive = omega arith };
  tracker = init-Inv config;
}

-- The same, with a slot taken.
abbrev in_slot : App
in_slot = record reserved {
  queue = record { max_concurrency = 8; semaphore = 7; active_count = 1 };
}

in_slot-AppInv : AppInv in_slot
in_slot-AppInv = record {
  budget = reserved-AppInv.budget;
  queue = record { total = refl; positive = omega arith };
  tracker = init-Inv config;
}

cancelled_until_reaped_example :
    let (stage, after) = resume_remote settle_envs incoming decision (fails cancelled) reserved in
    (stage ≡ answers (unhandled cancelled_error))
    × (active 1 after ≡ true)
    × ((now : ℤ)
        → contains 1 (expire_stale_reservations now after.budget).1.active_reservations
          ≡ not (is_expired now reservation))
cancelled_until_reaped_example =
    cancelled_until_reaped settle_envs incoming decision reservation reserved reserved-AppInv refl
      refl

late_result_unbooked_example :
    let (stage, after) = resume_remote settle_envs incoming decision (gives result) app in
    (stage ≡ answers (http_error 500 invalid_reservation))
    × (after.budget.manager ≡ app.budget.manager)
    × (after.tracker ≡ app.tracker)
late_result_unbooked_example =
    late_result_unbooked settle_envs incoming decision reservation result app app-AppInv refl refl

abbrev failure : ErrorText
failure = remote_unreachable (codes "ReadTimeout")

remote_failure-FallsBack_example :
    let (stage, after) =
      resume_remote settle_envs incoming decision
        (fails (remote_inference_error failure))
        reserved in
    RolledBack reservation reserved.budget after.budget
    × FallsBack stage
    × (after.queue.active_count ≡ reserved.queue.active_count + slots stage)
    × FallbackAnswers (gives result) (resume_fallback incoming (gives result) reserved).0
remote_failure-FallsBack_example =
    remote_failure-FallsBack settle_envs incoming decision reservation failure reserved
      (gives result) reserved reserved-AppInv refl refl reserved-AppInv

run-Called_example :
    Called
      (end_count events)
      (dear_count events (nobody app))
      app.budget
      (run events (nobody app)).app.budget
run-Called_example =
    run-Called events (nobody app) (Allowed-AllFresh events (nobody app) events_allowed)

-- A request comes, its remote call fails, and the fallback ends.
abbrev first_events : List Event
first_events = arrives (pos 150) (envs 1) (env 0) incoming ∷ []

abbrev last_events : List Event
last_events =
    ends 0 settle_envs (fails (remote_inference_error failure))
    ∷ ends 0 settle_envs (gives result)
    ∷ []

two_ends : (j : ℕ) → j < length (run first_events (nobody app)).flights → 2 ≤ ends_of j last_events
unfolding run step
two_ends zero there = omega arith
two_ends (suc j) there = absurd (omega (arith, there))

two_ends_settle_example :
    let w = run last_events (run first_events (nobody app)) in
    AllAnswered w.flights × (w.app.queue.active_count ≡ 0) × (w.app.budget.active_reservations ≡ [])
two_ends_settle_example =
    two_ends_settle first_events last_events app app-Started ((refl, refl, refl), tt)
      ((λ e. absurd (cc)), (tt, tt)) tt two_ends
