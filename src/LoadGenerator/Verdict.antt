-- ===== src/LoadGenerator/Verdict.antt =====
-- The verdict of load_generator.py on the metrics of app/main.py after a run.
use ai_routing.Prelude.{
  ◌≤◌, ℕ, ◌+◌, ◌*◌, ◌≡◌, refl, ap, ◌⊎◌, subst, ◌∙◌, Bool, true, false, some, List, [], ◌∷◌, arith,
  inl, inr, Bool-cases, length, if◌then◌else◌,
}
use ai_routing.Prelude.Int.{ltb_ℤ→lt, ◌<ℤ◌, ℤ, pos, ◌≤ℤ◌, ◌+ℤ◌, int_laws, ltb_ℤ}
use ai_routing.Prelude.Dict.{lookup}
use ai_routing.Budget.{budget_snapshot, active_reservation_count, eps_9}
use ai_routing.App.{App}
use ai_routing.Inference.Flights.{Event, run, AllAllowed}
use ai_routing.Inference.Flights.Balance.{nobody}
use ai_routing.Inference.Flights.Released.{AllAnswered, answered_releases}
use ai_routing.Inference.Flights.History.{dear_count, Allowed-AllFresh}
use ai_routing.Endpoints.{Settings, Metrics, metrics, metrics_json, clean, run_start}
use ai_routing.Endpoints.Fresh.{IsUsable}
use ai_routing.Endpoints.Limits.{reset-IsFresh, run-Limits}
use ai_routing.LoadGenerator.{
  VerdictError, budget_overspend, verdict_errors, evaluate_verdict, is_empty,
}

-- The errors of a verdict on metrics that show nothing reserved, no slot taken, and a latency within
-- its cap: an overspend, if there is one.
pub nothing_left_errors :
    (m : Metrics) (max_budget max_latency : ℤ)
    → m.reserved_remote_budget ≡ pos 0
    → m.active_remote_reservations ≡ 0
    → m.active_local_inferences ≡ 0
    → m.reserved_latency_ms ≡ pos 0
    → m.cumulative_actual_latency_ms ≤ℤ max_latency +ℤ eps_9
    → verdict_errors (metrics_json m) max_budget max_latency ≡ (
        if ltb_ℤ (max_budget +ℤ eps_9) m.cumulative_remote_cost
        then budget_overspend m.cumulative_remote_cost max_budget ∷ []
        else [])
unfolding verdict_errors metrics_json lookup
nothing_left_errors m max_budget max_latency reserved active local latency within =
    let fine : ltb_ℤ (max_latency +ℤ eps_9) m.cumulative_actual_latency_ms ≡ false =
      ground (arith, within) in
    rw (reserved, active, local, latency, fine) refl

-- The number of ticks that a verdict shows as spent.
abbrev pub spent : App → ℤ
spent app = (metrics app).cumulative_remote_cost

le-add_zero : (a b m : ℤ) → b ≡ pos 0 → a +ℤ b ≤ℤ m → a ≤ℤ m
le-add_zero a b m none_left h =
    let k : a +ℤ pos 0 ≤ℤ m = subst (λ z. a +ℤ z ≤ℤ m) none_left h in omega (int_laws, k)

-- An amount that is over the tolerance of the verdict.
needs_one : (most v : ℤ) (k : ℕ) → most +ℤ pos 1000 <ℤ v → v ≤ℤ most +ℤ pos (1 + 1000 * k) → 1 ≤ k
needs_one most v k over within = omega (int_laws, over, within)

clean-le : (v m : ℤ) → pos 0 ≤ℤ m → v ≤ℤ m → clean v ≤ℤ m
clean-le v m h k = ground arith

-- After a reset with usable settings, once every request of a run has been answered, in whatever order
-- and with whatever failures, the verdict on the metrics is a pass, or its one error is an overspend,
-- which needs a result that cost more than what was reserved for it, and is by at most 1e-12 and another
-- 1e-9 for each such result: no reservation and no slot is reported as leaked, and no breach of the
-- latency cap. No call is cancelled, the ids that `uuid4` gives are new ones, and the latency cap is not
-- negative.
pub verdict_after_run :
    (settings : Settings) (run_id : ℕ) (old app : App) (es : List Event)
    → IsUsable settings
    → pos 0 ≤ℤ settings.max_cumulative_latency_ms
    → run_start settings run_id true old ≡ some app
    → AllAllowed es (nobody app)
    → AllAnswered (run es (nobody app)).flights
    → let w = run es (nobody app) in
      let most = settings.max_remote_budget in
      let verdict =
        evaluate_verdict (metrics_json (metrics w.app)) most settings.max_cumulative_latency_ms in
      (verdict ≡ (true, []))
      ⊎ ((verdict ≡ (false, budget_overspend (spent w.app) most ∷ []))
          × (1 ≤ dear_count es (nobody app))
          × (spent w.app ≤ℤ most +ℤ pos (1 + 1000 * dear_count es (nobody app))))
unfolding evaluate_verdict metrics budget_snapshot active_reservation_count
verdict_after_run settings run_id old app es usable h starts allowed answered =
    let w = run es (nobody app) in
    let most = settings.max_remote_budget in
    let is_fresh = reset-IsFresh settings run_id old app usable starts in
    let (slots, table, cost, latency) =
      answered_releases es app is_fresh.started allowed answered in
    let (within, capped) =
      run-Limits settings app es usable h is_fresh (Allowed-AllFresh es _ allowed) in
    let errors =
      nothing_left_errors (metrics w.app) most settings.max_cumulative_latency_ms (ap clean cost)
        (ap length table) slots (ap clean latency)
        (clean-le w.app.budget.cumulative_actual_latency_ms
          (settings.max_cumulative_latency_ms +ℤ eps_9) (omega (int_laws, h)) capped) in
    let shown : Bool → List VerdictError =
      λ b. if b then budget_overspend (spent w.app) most ∷ [] else [] in
    elim (Bool-cases (ltb_ℤ (most +ℤ eps_9) (spent w.app))) [
      | inr fine ↦ inl (ap (λ e. (is_empty e, e)) (errors ∙ ap shown fine))
      | inl over ↦
          let most_spent =
            clean-le w.app.budget.cumulative_remote_cost
              (most +ℤ pos (1 + 1000 * dear_count es (nobody app))) (omega (int_laws, usable.0))
              (le-add_zero _ _ _ cost within) in
          inr (
            ap (λ e. (is_empty e, e)) (errors ∙ ap shown over),
            needs_one most (spent w.app) (dear_count es (nobody app))
                (ltb_ℤ→lt (most +ℤ eps_9) (spent w.app) over) most_spent,
            most_spent,
          )
    ]
