-- ===== src/Inference/Expired.antt =====
-- A remote call of app/main.py that outlasts its reservation's time to live (app/budget_manager.py).
use ai_routing.Prelude.{◌≡◌, refl, sym, ◌∙◌, false, some}
use ai_routing.Budget.{Reservation, is_pending}
use ai_routing.Prelude.Int.{pos}
use ai_routing.Budget.Once.{commit_gone}
use ai_routing.Decision.{RoutingDecision}
use ai_routing.Observability.{invalid_reservation}
use ai_routing.App.{App, IncomingRequest, BackendResult, SettleEnvs, gives, answers, http_error}
use ai_routing.Settlement.{on_exception, on_commit_error}
use ai_routing.Settlement.Accounts.{AppInv, active}
use ai_routing.Inference.{resume_remote}

-- A remote call that succeeds after the reaper took its reservation is answered with 500, and its cost
-- and its latency are not booked: the budget manager and the tracker stay as they were.
pub late_result_unbooked :
    (es : SettleEnvs) (request : IncomingRequest) (d : RoutingDecision) (r : Reservation)
    (result : BackendResult) (app : App)
    → AppInv app
    → d.reservation ≡ some r
    → active r.id app ≡ false
    → let (stage, after) = resume_remote es request d (gives result) app in
      (stage ≡ answers (http_error 500 invalid_reservation))
      × (after.budget.manager ≡ app.budget.manager)
      × (after.tracker ≡ app.tracker)
unfolding resume_remote on_commit_error on_exception
late_result_unbooked es request d r result app v carried gone =
    let refused =
      commit_gone es.for_commit r.id result.actual_cost (pos result.actual_latency_ms) app.budget
        gone in
    let settled : is_pending r.id app.budget.states ≡ false =
      sym (v.budget.pending_active r.id) ∙ gone in
    rw (carried, refused, settled) (refl, refl, refl)
