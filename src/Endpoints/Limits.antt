-- ===== src/Endpoints/Limits.antt =====
-- The budget and the latency cap of app/config.py over every run of app/main.py after a reset.
use ai_routing.Prelude.{ℕ, ◌+◌, ◌*◌, ◌≡◌, ap, subst, sym, ◌∙◌, true, none, some, List}
use ai_routing.Prelude.Int.{pos, ◌≤ℤ◌, ◌+ℤ◌, int_laws}
use ai_routing.Budget.{eps_9}
use ai_routing.Budget.Table.{sum_of}
use ai_routing.Budget.Invariant.{cost_of}
use ai_routing.Budget.Bounds.{Bounded, exposure}
use ai_routing.App.{App}
use ai_routing.Inference.Flights.{Event, run}
use ai_routing.Inference.Flights.Balance.{nobody}
use ai_routing.Inference.Flights.History.{dear_count, AllFresh, run-Within}
use ai_routing.Endpoints.{Settings, run_start}
use ai_routing.Endpoints.Fresh.{IsUsable, IsFresh, run_start-IsFresh}

-- A new manager is within its limits.
fresh-Bounded :
    (settings : Settings) (app : App)
    → IsUsable settings
    → pos 0 ≤ℤ settings.max_cumulative_latency_ms
    → IsFresh settings app
    → Bounded 0 app.budget
unfolding sum_of
fresh-Bounded settings app usable h is_fresh =
    let unreserved =
      is_fresh.started.inv.budget.cost_sum ∙ ap (sum_of cost_of) is_fresh.started.unreserved in
    record {
      budget =
          rw (is_fresh.unspent, unreserved, is_fresh.budget_limit) (omega (int_laws, usable.0));
      latency = rw (is_fresh.unspent_latency, is_fresh.latency_limit) (omega (int_laws, h));
    }

-- The limits that a state was made with.
abbrev pub Limits : Settings → ℕ → App → Type 0
Limits settings n app =
    (app.budget.cumulative_remote_cost +ℤ app.budget.reserved_for_execution
      ≤ℤ settings.max_remote_budget +ℤ pos (1 + 1000 * n))
    × (app.budget.cumulative_actual_latency_ms ≤ℤ settings.max_cumulative_latency_ms +ℤ eps_9)

pub run-Limits :
    (settings : Settings) (app : App) (es : List Event)
    → IsUsable settings
    → pos 0 ≤ℤ settings.max_cumulative_latency_ms
    → IsFresh settings app
    → AllFresh es (nobody app)
    → Limits settings (dear_count es (nobody app)) (run es (nobody app)).app
run-Limits settings app es usable h is_fresh fresh =
    let within =
      run-Within es (nobody app) fresh is_fresh.started.inv.budget
        (fresh-Bounded settings app usable h is_fresh) in
    let most = ap (λ c. c.0) within.limits ∙ is_fresh.budget_limit in
    let cap = ap (λ c. c.1) within.limits ∙ is_fresh.latency_limit in
    (
      subst
          (λ m.
            exposure (run es (nobody app)).app.budget
            ≤ℤ m +ℤ pos (1 + 1000 * dear_count es (nobody app)))
          most within.bounded.budget,
      subst (λ m. (run es (nobody app)).app.budget.cumulative_actual_latency_ms ≤ℤ m +ℤ eps_9) cap
          within.bounded.latency,
    )

-- A reset with usable settings gives a new application.
pub reset-IsFresh :
    (settings : Settings) (run_id : ℕ) (old app : App)
    → IsUsable settings
    → run_start settings run_id true old ≡ some app
    → IsFresh settings app
reset-IsFresh settings run_id old app usable starts =
    let (made, same, is_fresh, _) = run_start-IsFresh settings run_id old usable in
    subst (IsFresh settings) (ap (λ o. elim o [ none ↦ app | some a ↦ a ]) (sym same ∙ starts))
      is_fresh

-- After a reset with usable settings, in every interleaving of requests, of the ends of their
-- backends' calls, cancellations included, and of the reaper: what is spent and reserved together
-- exceeds the budget by at most 1e-12 and another 1e-9 for each result that costs more than what was
-- reserved for it, and the committed latency exceeds its cap by at most 1e-9. The ids that `uuid4`
-- gives are new ones, and the latency cap is not negative.
pub reset_keeps_limits :
    (settings : Settings) (run_id : ℕ) (old app : App) (es : List Event)
    → IsUsable settings
    → pos 0 ≤ℤ settings.max_cumulative_latency_ms
    → run_start settings run_id true old ≡ some app
    → AllFresh es (nobody app)
    → let s = (run es (nobody app)).app.budget in
      (s.cumulative_remote_cost +ℤ s.reserved_for_execution
        ≤ℤ settings.max_remote_budget +ℤ pos (1 + 1000 * dear_count es (nobody app)))
      × (s.cumulative_actual_latency_ms ≤ℤ settings.max_cumulative_latency_ms +ℤ eps_9)
reset_keeps_limits settings run_id old app es usable h starts fresh =
    run-Limits settings app es usable h (reset-IsFresh settings run_id old app usable starts) fresh
