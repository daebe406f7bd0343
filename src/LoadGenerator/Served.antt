-- ===== src/LoadGenerator/Served.antt =====
-- load_generator.py run against app/main.py.
use ai_routing.Prelude.{arith, All, ℕ, ◌≡◌, ap, ◌∙◌, inl, inr, true, some, List, []}
use ai_routing.Prelude.Int.{ℤ, pos, ◌≤ℤ◌}
use ai_routing.Prelude.Dict.{lookup}
use ai_routing.App.{App}
use ai_routing.Inference.Flights.{Event, run, AllAllowed}
use ai_routing.Inference.Flights.Balance.{nobody}
use ai_routing.Inference.Flights.Released.{AllAnswered}
use ai_routing.Inference.Flights.History.{dear_count, Allowed-AllFresh}
use ai_routing.Inference.Flights.Priced.{CostsAtMost}
use ai_routing.Inference.Flights.Cheap.{nothing_dear}
use ai_routing.Endpoints.{Settings, metrics, metrics_json, run_start}
use ai_routing.Endpoints.Fresh.{IsUsable, IsFresh}
use ai_routing.Endpoints.Limits.{reset-IsFresh}
use ai_routing.Endpoints.Dashboard.{summary, summary_json}
use ai_routing.LoadGenerator.{get_or, evaluate_verdict}
use ai_routing.LoadGenerator.Prompts.{Options, request_count, batch_size}
use ai_routing.LoadGenerator.Demo.{Server, main}
use ai_routing.LoadGenerator.Exit.{exit_zero_iff, budget_limit, latency_limit}
use ai_routing.LoadGenerator.Texts.{HasText, texts-print}
use ai_routing.LoadGenerator.Verdict.{verdict_after_run}

-- The replies to the calls that decide: the server is alive, and it reports this application at the
-- start and that one at the end; the detail of a reply is text, as in every `HTTPException`.
pub record Reports (server : Server) (start end : App) : Type 0 where
  pub alive : server.health ≡ some 200
  pub cleared : server.trace_deleted ≡ true
  pub summary_is : server.summary ≡ some (summary_json (summary start))
  pub metrics_is : server.metrics ≡ some (metrics_json (metrics end))
  pub texts : (i : ℕ) → HasText (server.inference i).1

limits :
    (settings : Settings) (server : Server) (app end : App)
    → IsFresh settings app
    → Reports server app end
    → (budget_limit server ≡ settings.max_remote_budget)
      × (latency_limit server ≡ settings.max_cumulative_latency_ms)
unfolding summary_json summary lookup
limits settings server app end is_fresh r = (
  ap (λ s. get_or (lookup "budget_max" (get_or s [])) (pos 5000000000000)) r.summary_is
      ∙ is_fresh.budget_limit,
  ap (λ s. get_or (lookup "latency_max_ms" (get_or s [])) (pos 600000000000000000)) r.summary_is
      ∙ is_fresh.latency_limit,
)

-- The load generator, run against a server that was reset with usable settings and has answered every
-- request, exits with 0: whatever the batch, the replies, the failures and the order of the events, and
-- also where the reaper has taken reservations, as long as every request was routed with the same
-- reserved cost and no result costs more than that. The details of the replies are text. No call of a backend is cancelled, the ids that
-- `uuid4` gives are new ones, and the latency cap is not negative.
pub demo_passes :
    (settings : Settings) (run_id : ℕ) (old app : App) (es : List Event) (o : Options)
    (server : Server) (c : ℤ)
    → IsUsable settings
    → pos 0 ≤ℤ settings.max_cumulative_latency_ms
    → run_start settings run_id true old ≡ some app
    → AllAllowed es (nobody app)
    → AllAnswered (run es (nobody app)).flights
    → All (CostsAtMost c) es
    → Reports server app (run es (nobody app)).app
    → (main o server).0 ≡ 0
unfolding evaluate_verdict
demo_passes settings run_id old app es o server c usable h starts allowed answered cheap r =
    let is_fresh = reset-IsFresh settings run_id old app usable starts in
    let none_over : dear_count es (nobody app) ≡ 0 =
      nothing_dear c es (nobody app) cheap (Allowed-AllFresh es (nobody app) allowed)
        is_fresh.started.inv.budget tt in
    let (most, cap) = limits settings server app (run es (nobody app)).app is_fresh r in
    let m = metrics_json (metrics (run es (nobody app)).app) in
    elim (verdict_after_run settings run_id old app es usable h starts allowed answered) [
      | inl fine ↦ (exit_zero_iff o server).1 (record {
        alive = r.alive;
        cleared = r.cleared;
        clears = inr (
          texts-print server 1 (batch_size (request_count o)) r.texts,
          (m, r.metrics_is, rw (most, cap) (ap (λ v. v.1) fine)),
        );
      })
      | inr over ↦ absurd (let one = over.1 in omega (arith, one, none_over))
    ]
