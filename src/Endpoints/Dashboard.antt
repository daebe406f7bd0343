-- ===== src/Endpoints/Dashboard.antt =====
-- app/main.py: `summary`, `run_complete` and `health`, for the dashboard and the load generator.
use ai_routing.Prelude.{ℕ, ◌≡◌, refl, [], ◌∷◌}
use ai_routing.Prelude.Int.{ℤ, pos, ◌-ℤ◌, max_ℤ, max_ℤ-eq_right, le-max_ℤ_left}
use ai_routing.Prelude.Dict.{Dict}
use ai_routing.Models.{RunCompletePayload}
use ai_routing.Budget.{budget_snapshot}
use ai_routing.Observability.{log_run_complete}
use ai_routing.App.{App, RouteCounts}
use ai_routing.Endpoints.{status}

-- What `summary` returns.
pub record Summary : Type 0 where
  pub budget_max : ℤ
  pub budget_spent : ℤ
  pub budget_remaining : ℤ
  pub latency_max_ms : ℤ
  pub latency_committed_ms : ℤ
  pub latency_remaining_ms : ℤ
  pub queue_active : ℕ
  pub queue_max : ℕ
  pub route_counts : RouteCounts

unfoldable pub summary : App → Summary
summary app =
    let snapshot = budget_snapshot app.budget.manager in
    record {
      budget_max = app.budget.max_remote_budget;
      budget_spent = snapshot.cumulative_cost;
      budget_remaining = max_ℤ (pos 0) snapshot.remaining;
      latency_max_ms = app.budget.max_cumulative_latency_ms;
      latency_committed_ms = snapshot.cumulative_latency_ms;
      latency_remaining_ms = max_ℤ (pos 0) (
          app.budget.max_cumulative_latency_ms -ℤ snapshot.cumulative_latency_ms
          -ℤ snapshot.reserved_latency_ms);
      queue_active = app.queue.active_count;
      queue_max = app.queue.max_concurrency;
      route_counts = app.counts;
    }

-- The numbers of the JSON object that it returns, but for the nested counts.
unfoldable pub summary_json : Summary → Dict ℤ
summary_json s =
    ("budget_max", s.budget_max)
    ∷ ("budget_spent", s.budget_spent)
    ∷ ("budget_remaining", s.budget_remaining)
    ∷ ("latency_max_ms", s.latency_max_ms)
    ∷ ("latency_committed_ms", s.latency_committed_ms)
    ∷ ("latency_remaining_ms", s.latency_remaining_ms)
    ∷ ("queue_active", pos s.queue_active)
    ∷ ("queue_max", pos s.queue_max)
    ∷ []

-- `run_complete`
unfoldable pub run_complete : RunCompletePayload → App → App
run_complete payload app = record app { bus = log_run_complete payload app.bus }

-- `summary` and `status` say the same of the budget, of the latency and of the queue, in every state.
pub summary-status :
    (app : App)
    → let s = summary app in
      let r = status app in
      (s.budget_max ≡ r.remote_budget_max)
      × (s.budget_spent ≡ r.remote_budget_spent)
      × (s.budget_remaining ≡ r.remote_budget_remaining)
      × (s.latency_remaining_ms ≡ r.latency_remaining_ms)
      × (s.queue_active ≡ r.local_capacity_active)
      × (s.queue_max ≡ r.local_capacity_max)
unfolding summary status budget_snapshot
summary-status app = (refl, refl, max_ℤ-eq_right _ (le-max_ℤ_left (pos 0) _), refl, refl, refl)
