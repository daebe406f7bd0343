-- ===== src/Inference/Flights/History.antt =====
-- Any number of requests and the reaper of app/main.py use the budget manager as the histories of
-- Budget/History describe, so that what holds of every history holds of the running application.
use ai_routing.Prelude.{ℕ, zero, suc, ◌+◌, ◌≡◌, subst, List, [], ◌∷◌, arith}
use ai_routing.Prelude.Int.{pos}
use ai_routing.Budget.{State}
use ai_routing.Budget.Invariant.{Inv}
use ai_routing.Budget.Bounds.{Bounded}
use ai_routing.Budget.Caps.{caps}
use ai_routing.Budget.History.{expires, step as step_call}
use ai_routing.Budget.Overspend.{run-caps}
use ai_routing.Budget.Overruns.{run-Bounded_overruns}
use ai_routing.Budget.Called.{Called, no_call, and_then, one_call}
use ai_routing.Decision.Ledger.{FreshEnvs}
use ai_routing.App.{
  App, IncomingRequest, BackendOutcome, gives, fails, Stage, executing_remote, executing_local,
  executing_fallback, waits, answers, SettleEnvs,
}
use ai_routing.Inference.Called.{
  receive-Called, remote_result-Called, local_result-Called, remote_failure-Called,
  local_failure-Called, resume_fallback-Called,
}
use ai_routing.Settlement.Called.{reservation_overrun}
use ai_routing.Inference.Flights.{
  Flight, World, Event, arrives, ends, reaps, resume, advance, step, run, AllAllowed,
}

-- New requests get new uuids.
abbrev pub Fresh : Event → World → Type 0
Fresh (arrives cost es e request) w = FreshEnvs es w.app.budget
Fresh (ends i es outcome) w = Unit
Fresh (reaps now) w = Unit

abbrev pub AllFresh : List Event → World → Type 0
AllFresh [] w = Unit
AllFresh (e ∷ es) w = Fresh e w × AllFresh es (step e w)

-- The number of the ends of calls of backends.
abbrev pub end_count : List Event → ℕ
end_count [] = 0
end_count (ends i es outcome ∷ xs) = suc (end_count xs)
end_count (_ ∷ xs) = end_count xs

-- Whether the end of a call gives a result that costs more than what is reserved for it: 1 or 0. A
-- result of the local backend costs nothing.
abbrev pub dear : Stage → BackendOutcome → App → ℕ
dear (executing_remote d) (gives result) app =
    reservation_overrun d.reservation result.actual_cost app.budget
dear (executing_local d) (gives result) app = reservation_overrun d.reservation (pos 0) app.budget
dear _ _ app = 0

abbrev pub dear_at : ℕ → BackendOutcome → List Flight → App → ℕ
dear_at i outcome [] app = 0
dear_at zero outcome (f ∷ fs) app = dear f.stage outcome app
dear_at (suc i) outcome (f ∷ fs) app = dear_at i outcome fs app

abbrev pub dear_end : Event → World → ℕ
dear_end (ends i es outcome) w = dear_at i outcome w.flights w.app
dear_end _ w = 0

-- The number of such ends.
abbrev pub dear_count : List Event → World → ℕ
dear_count [] w = 0
dear_count (e ∷ es) w = dear_end e w + dear_count es (step e w)

pub resume-Called :
    (es : SettleEnvs) (outcome : BackendOutcome) (request : IncomingRequest) (stage : Stage)
    (app : App)
    → Called 1 (dear stage outcome app) app.budget (resume es outcome request stage app).1.budget
resume-Called es (gives result) request (executing_remote d) app =
    remote_result-Called es request d result app
resume-Called es (fails failure) request (executing_remote d) app =
    remote_failure-Called es request d failure app
resume-Called es (gives result) request (executing_local d) app =
    local_result-Called es request d result app
resume-Called es (fails failure) request (executing_local d) app =
    local_failure-Called es request d failure app
resume-Called es outcome request executing_fallback app =
    resume_fallback-Called es request outcome app
resume-Called es outcome request waits app = no_call 1 0 app.budget
resume-Called es outcome request (answers r) app = no_call 1 0 app.budget

pub advance-Called :
    (i : ℕ) (es : SettleEnvs) (outcome : BackendOutcome) (fs : List Flight) (app : App)
    → Called 1 (dear_at i outcome fs app) app.budget (advance i es outcome fs app).1.budget
advance-Called i es outcome [] app = no_call 1 0 app.budget
advance-Called zero es outcome (f ∷ fs) app = resume-Called es outcome f.request f.stage app
advance-Called (suc i) es outcome (f ∷ fs) app = advance-Called i es outcome fs app

pub step-Called :
    (e : Event) (w : World)
    → Fresh e w
    → Called (end_count (e ∷ [])) (dear_end e w) w.app.budget (step e w).app.budget
unfolding step step_call
step-Called (arrives cost es e request) w fresh = receive-Called cost es e request w.app fresh
step-Called (ends i es outcome) w fresh = advance-Called i es outcome w.flights w.app
step-Called (reaps now) w fresh =
    one_call 0 0 (expires now) w.app.budget (tt, tt) (omega arith) (omega arith)

end_count-cons :
    (e : Event) (es : List Event) → end_count (e ∷ []) + end_count es ≡ end_count (e ∷ es)
end_count-cons (arrives cost envs e request) es = omega arith
end_count-cons (ends i envs outcome) es = omega arith
end_count-cons (reaps now) es = omega arith

-- In every interleaving of requests, of the ends of their backends' calls, cancellations included, and
-- of the reaper, what becomes of the budget manager is what a history of calls of its methods makes of
-- it, with at most one commit for each end of a call, and with no more commits of more than what was
-- reserved than there are results that cost so. The ids that `uuid4` gives are new ones.
pub run-Called :
    (es : List Event) (w : World)
    → AllFresh es w
    → Called (end_count es) (dear_count es w) w.app.budget (run es w).app.budget
unfolding run
run-Called [] w fresh = no_call 0 0 w.app.budget
run-Called (e ∷ es) w fresh =
    subst (λ n. Called n (dear_count (e ∷ es) w) w.app.budget (run es (step e w)).app.budget)
      (end_count-cons e es)
      (and_then w.app.budget (step e w).app.budget _ (step-Called e w fresh.0)
        (run-Called es (step e w) fresh.1))

pub Allowed-AllFresh : (es : List Event) (w : World) → AllAllowed es w → AllFresh es w
Allowed-AllFresh [] w h = tt
Allowed-AllFresh (arrives cost envs e request ∷ es) w h = (h.0, Allowed-AllFresh es _ h.1)
Allowed-AllFresh (ends i envs outcome ∷ es) w h = (tt, Allowed-AllFresh es _ h.1)
Allowed-AllFresh (reaps now ∷ es) w h = (tt, Allowed-AllFresh es _ h.1)

-- The limits of the budget manager are kept, and never passed by more than the tolerances.
pub record Within (n : ℕ) (old new : State) : Type 0 where
  pub limits : caps new ≡ caps old
  pub bounded : Bounded n new

pub run-Within :
    (es : List Event) (w : World)
    → AllFresh es w
    → Inv w.app.budget
    → Bounded 0 w.app.budget
    → Within (dear_count es w) w.app.budget (run es w).app.budget
run-Within es w fresh v b =
    let called = run-Called es w fresh in
    let cheap = called.cheap in
    subst (Within (dear_count es w) w.app.budget) called.reaches (record {
      limits = run-caps called.calls w.app.budget;
      bounded =
          run-Bounded_overruns 0 (dear_count es w) called.calls w.app.budget called.fresh v b
            (omega (arith, cheap));
    })
