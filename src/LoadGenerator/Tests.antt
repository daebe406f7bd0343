-- ===== src/LoadGenerator/Tests.antt =====
-- Runs of load_generator.py at concrete inputs, and the theorems about it at such inputs.
use ai_routing.Prelude.{
  ℕ, ◌+◌, ◌≡◌, ◌↔◌, ◌⊎◌, refl, true, false, some, List, [], ◌∷◌, arith, ◌%◌, ◌==◌, ◌&&◌,
  if◌then◌else◌, ◌≤◌, ◌*◌, is_some, none,
}
use ai_routing.Prelude.Int.{pos, ◌≤ℤ◌, ◌+ℤ◌, ◌-ℤ◌}
use ai_routing.Prelude.Dict.{lookup, insert}
use ai_routing.Text.{codes}
use ai_routing.Models.{fast, quality, remote, tokenrouter_text}
use ai_routing.Latency.{init, get_estimate, record_latency, register}
use ai_routing.QueueMonitor.{init as new_queue}
use ai_routing.EventBus.{publish}
use ai_routing.Budget.{
  Env, new_manager, try_reserve, commit, commit_found, init as new_budget_manager,
}
use ai_routing.Budget.Methods.{fresh_state}
use ai_routing.Budget.History.{reserves, commits, run as run_calls, Call}
use ai_routing.Observability.{get_lock_trace, log_run_start}
use ai_routing.Decision.{route, advise, route_quality}
use ai_routing.Settlement.{finish}
use ai_routing.App.{App, IncomingRequest, BackendResult, gives}
use ai_routing.Inference.{receive, execute, resume_remote}
use ai_routing.Inference.Flights.History.{dear_count}
use ai_routing.Inference.Flights.{Event, arrives, ends, step, run}
use ai_routing.Inference.Flights.Balance.{nobody}
use ai_routing.Endpoints.{run_start, zero_counts, metrics, metrics_json}
use ai_routing.Endpoints.Dashboard.{summary, summary_json}
use ai_routing.Defaults.{default_settings}
use ai_routing.LoadGenerator.{
  replies, raises, Reply, no_body, evaluate_verdict, budget_overspend, detail_text, detail_list,
  send_request,
}
use ai_routing.LoadGenerator.Prompts.{Options, request_name, decimal, prompt_of}
use ai_routing.LoadGenerator.Batch.{Prompts, tiers_alternate}
use ai_routing.LoadGenerator.Counters.{count_results, send_all}
use ai_routing.LoadGenerator.Counts.{CountEnds, breakdown_adds_up}
use ai_routing.LoadGenerator.Timeline.{format_lock_trace, IsFlat, timeline-IsFlat}
use ai_routing.LoadGenerator.Demo.{Server, main}
use ai_routing.LoadGenerator.Exit.{Passes, exit_zero_iff}
use ai_routing.LoadGenerator.Verdict.{spent, verdict_after_run}
use ai_routing.LoadGenerator.Served.{demo_passes}

abbrev two_requests : Options
two_requests = record {
  requests = pos 2;
  stress = false;
  failure_demo = true;
  tight_sla = false;
  latency_breach = false;
  reset = true;
  reset_only = false;
}

-- The names are padded with zeros.
first_name : request_name 1 ≡ codes "demo-001"
unfolding decimal
first_name = refl

later_name : request_name 1234 ≡ codes "demo-1234"
unfolding decimal
later_name = refl

tiers_alternate_example :
    let injected = true && 3 == 1 in
    Prompts
      (prompt_of two_requests 3)
      (if injected then quality else (if 3 % 2 == 1 then fast else quality))
      injected
tiers_alternate_example = tiers_alternate two_requests 3 (omega arith) refl refl

-- A request that is served, one that is rejected, and one that is not answered.
abbrev batch : List (List ℕ × ℕ × Reply)
batch =
    (request_name 1, 700, replies 200 (some (record no_body { route = some "REMOTE" })))
    ∷ (
      request_name 2,
      3,
      replies 503 (some (record no_body { detail = some (detail_text "at capacity") })),
    )
    ∷ (request_name 3, 120, raises "ReadTimeout")
    ∷ []

breakdown_adds_up_example : CountEnds batch (count_results (send_all batch) ([], []))
breakdown_adds_up_example = breakdown_adds_up batch ((remote, refl), (tt, (tt, tt)))

-- The batch is counted: one REMOTE, and two that were rejected.
batch_counted : is_some (count_results (send_all batch) ([], [])) ≡ true
unfolding count_results send_request
batch_counted = refl

-- The reply to a request that fails its validation ends the counting.
list_raises :
    count_results
      (send_all (
        (request_name 1, 3, replies 422 (some (record no_body { detail = some detail_list })))
        ∷ []))
      ([], [])
    ≡ none
unfolding count_results send_request
list_raises = refl

abbrev env_at : ℕ → ℕ → Env
env_at time id = record { acquire_us = time; release_us = time + 2; now = pos 0; new_id = id }

abbrev calls : List Call
calls =
    reserves (env_at 10 1) 7 (pos 150) (pos 800)
    ∷ reserves (env_at 20 2) 8 (pos 150) (pos 800)
    ∷ commits (env_at 30 3) 1 (pos 90) (pos 700)
    ∷ []

timeline-IsFlat_example : IsFlat (
    format_lock_trace (
      get_lock_trace
        (run_calls calls (fresh_state (new_manager (pos 5000) (pos 6000) (pos 45)))).trace))
timeline-IsFlat_example =
    timeline-IsFlat 0 calls (fresh_state (new_manager (pos 5000) (pos 6000) (pos 45)))
      (omega arith, omega arith, (omega arith, omega arith, (omega arith, omega arith, tt))) refl

-- The application after a reset with the default configuration.
abbrev fresh : App
fresh = record {
  budget =
      fresh_state (
        new_manager (pos 5_000_000_000_000) (pos 600_000_000_000_000_000) (pos 45_000_000_000_000));
  queue = record { max_concurrency = 8; semaphore = 8; active_count = 0 };
  tracker = init default_settings.latency;
  counts = zero_counts;
  bus = [];
}

fresh_starts : run_start default_settings 4 true fresh ≡ some fresh
unfolding run_start new_budget_manager new_queue log_run_start publish
fresh_starts = refl

abbrev env : Env
env = record { acquire_us = 0; release_us = 0; now = pos 0; new_id = 1 }

abbrev incoming : IncomingRequest
incoming = record {
  request_id = 9;
  prompt = codes "Compare TCP and UDP";
  latency_budget_ms = pos 5_000_000_000_000_000;
  complexity_tier = some quality;
}

abbrev result : BackendResult
result = record {
  actual_cost = pos 90_000_000;
  actual_latency_ms = 700_000_000_000_000;
  tokens = record {
    prompt_tokens = 4;
    completion_tokens = 1;
    cache_read_tokens = 0;
    cache_write_tokens = 0;
  };
  result = tokenrouter_text 4 1 (pos 90_000_000) (codes "TCP is reliable");
}

-- A request comes, and its remote call succeeds.
abbrev events : List Event
events =
    arrives (pos 150_000_000_000) (record { for_local = env; for_remote = env; for_degraded = env })
      env incoming
    ∷ ends 0 (record { for_commit = env; for_rollback = env }) (gives result)
    ∷ []

verdict_after_run_example :
    let w = run events (nobody fresh) in
    let most = pos 5_000_000_000_000 in
    let verdict =
      evaluate_verdict (metrics_json (metrics w.app)) most (pos 600_000_000_000_000_000) in
    (verdict ≡ (true, []))
    ⊎ ((verdict ≡ (false, budget_overspend (spent w.app) most ∷ []))
        × (1 ≤ dear_count events (nobody fresh))
        × (spent w.app ≤ℤ most +ℤ pos (1 + 1000 * dear_count events (nobody fresh))))
unfolding run step receive route advise route_quality try_reserve init get_estimate lookup ◌+ℤ◌ ◌-ℤ◌
    execute resume_remote commit commit_found finish record_latency register insert
verdict_after_run_example =
    verdict_after_run default_settings 4 fresh fresh events (omega arith, omega arith) (omega arith)
      fresh_starts ((refl, refl, refl), (tt, tt)) (tt, tt)

abbrev server : Server
server = record {
  run_id = 4;
  health = some 200;
  trace_deleted = true;
  summary = some (summary_json (summary fresh));
  inference = λ i. (700, replies 200 (some (record no_body { route = some "REMOTE" })));
  metrics = some (metrics_json (metrics (run events (nobody fresh)).app));
}

demo_passes_example : (main two_requests server).0 ≡ 0
unfolding run step receive route advise route_quality try_reserve init get_estimate lookup ◌+ℤ◌ ◌-ℤ◌
    execute resume_remote commit commit_found finish record_latency register insert
demo_passes_example =
    demo_passes default_settings 4 fresh fresh events two_requests server (pos 150_000_000_000)
      (omega arith, omega arith) (omega arith) fresh_starts ((refl, refl, refl), (tt, tt)) (tt, tt)
      (refl, (omega arith, tt))
      (record {
        alive = refl;
        cleared = refl;
        summary_is = refl;
        metrics_is = refl;
        texts = λ i. tt;
      })

exit_zero_iff_example : ((main two_requests server).0 ≡ 0) ↔ Passes two_requests server
exit_zero_iff_example = exit_zero_iff two_requests server
