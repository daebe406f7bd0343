-- ===== src/Inference/Flights/Priced.antt =====
-- What app/main.py has reserved for the requests that execute remotely: the cost that the configuration
-- gives, as long as it is reserved at all.
use ai_routing.Prelude.{
  ℕ, zero, suc, ◌≤◌, ◌≡◌, sym, subst, true, false, Option, none, some, List, [], ◌∷◌, arith, All,
}
use ai_routing.Prelude.Int.{ℤ, ◌≤ℤ◌}
use ai_routing.Models.{ComplexityTier, RouteDecision, local, remote, queue_local, fail_fast}
use ai_routing.QueueMonitor.{QueueMonitor, Acquired, acquire, returns, blocks}
use ai_routing.Budget.{State, Env, Result, ok, raise, Reservation}
use ai_routing.Budget.Invariant.{Inv}
use ai_routing.Budget.Called.{Called}
use ai_routing.Budget.Priced.{Priced, Called-Priced, entered-Priced}
use ai_routing.Decision.{RoutingDecision, Envs, Advice, advise}
use ai_routing.Decision.Paths.{Holds, Routed, Outcome}
use ai_routing.Decision.Route.{route-Outcome}
use ai_routing.App.{
  App, IncomingRequest, BackendOutcome, gives, fails, Stage, executing_remote, executing_local,
  executing_fallback, waits, answers, SettleEnvs, with_tier,
}
use ai_routing.Settlement.{on_runtime_error}
use ai_routing.Inference.{enter_slot, execute, after_route, receive}
use ai_routing.Inference.Flights.{Flight, World, Event, arrives, ends, reaps, advance, step}
use ai_routing.Inference.Flights.Rank.{rank, resume-rank, on_runtime_error-rank}
use ai_routing.Inference.Flights.History.{Fresh, resume-Called, advance-Called, step-Called}

-- A request is routed with the reserved cost `c`, and a result costs no more than that.
abbrev pub CostsAtMost : ℤ → Event → Type 0
CostsAtMost c (arrives cost es e request) = cost ≡ c
CostsAtMost c (ends i es (gives result)) = result.actual_cost ≤ℤ c
CostsAtMost c (ends i es (fails failure)) = Unit
CostsAtMost c (reaps now) = Unit

module _ (c : ℤ) where
  abbrev pub ReservationPriced : Option Reservation → State → Type 0
  ReservationPriced none s = Unit
  ReservationPriced (some r) s = Priced c r.id s

  -- What a request holds while it executes remotely is reserved at the cost `c`.
  abbrev pub StagePriced : Stage → State → Type 0
  StagePriced (executing_remote d) s = ReservationPriced d.reservation s
  StagePriced (executing_local d) s = Unit
  StagePriced executing_fallback s = Unit
  StagePriced waits s = Unit
  StagePriced (answers r) s = Unit

  abbrev StepPriced : State → Stage × App → Type 0
  StepPriced s p = StagePriced p.0 s

  abbrev pub AllPriced : List Flight → State → Type 0
  AllPriced fs s = All (λ f. StagePriced f.stage s) fs

  low-StagePriced : (stage : Stage) (s : State) → rank stage ≤ 1 → StagePriced stage s
  low-StagePriced (executing_remote d) s h = absurd (omega (arith, h))
  low-StagePriced (executing_local d) s h = tt
  low-StagePriced executing_fallback s h = tt
  low-StagePriced waits s h = tt
  low-StagePriced (answers r) s h = tt

  module _ {n m : ℕ} (s t : State) (called : Called n m s t) (v : Inv s) where
    Called-ReservationPriced :
        (o : Option Reservation) → ReservationPriced o s → ReservationPriced o t
    Called-ReservationPriced none h = tt
    Called-ReservationPriced (some r) h = Called-Priced c r.id s t called v h

    Called-StagePriced : (stage : Stage) → StagePriced stage s → StagePriced stage t
    Called-StagePriced (executing_remote d) h = Called-ReservationPriced d.reservation h
    Called-StagePriced (executing_local d) h = tt
    Called-StagePriced executing_fallback h = tt
    Called-StagePriced waits h = tt
    Called-StagePriced (answers r) h = tt

    Called-AllPriced : (fs : List Flight) → AllPriced fs s → AllPriced fs t
    Called-AllPriced [] h = tt
    Called-AllPriced (f ∷ fs) h = (Called-StagePriced f.stage h.0, Called-AllPriced fs h.1)

  enter_slot-StagePriced :
      (e : Env) (request_id : ℕ) (d : RoutingDecision) (app : App) (s : State)
      → StagePriced (enter_slot e request_id d app).0 s
  unfolding enter_slot
  enter_slot-StagePriced e request_id d app s = by_slot (acquire app.queue)
    where
      by_slot :
          (p : Acquired × QueueMonitor)
          → StepPriced s (elim p.0 [
            | returns true ↦ (executing_local d, record app { queue = p.1 })
            | returns false ↦
                on_runtime_error e request_id d.reservation (record app { queue = p.1 })
            | blocks ↦ (waits, record app { queue = p.1 })
          ])
      by_slot (returns true, q) = tt
      by_slot (returns false, q) = low-StagePriced _ s (
          omega
            (arith, on_runtime_error-rank e request_id d.reservation (record app { queue = q })))
      by_slot (blocks, q) = tt

  Holds-ReservationPriced :
      (est : ℤ) (d : RoutingDecision) (s t : State)
      → Holds c est d s t
      → ReservationPriced d.reservation t
  Holds-ReservationPriced est d s t h =
      subst (λ o. ReservationPriced o t) (sym h.carried)
        (subst (λ x. Priced x h.reservation.id t) h.cost_is
          (entered-Priced h.reservation s t h.entered h.pending))

  module _ (e : Env) (request : IncomingRequest) (a : Advice) (s : State)
      (tier : ComplexityTier) where
    execute-StagePriced :
        (d : RoutingDecision) (taken : RouteDecision) (app : App)
        → Routed c a s tier taken d app.budget
        → StagePriced (execute e request d taken app).0 (execute e request d taken app).1.budget
    unfolding execute
    execute-StagePriced d fail_fast app h = tt
    execute-StagePriced d remote app h = Holds-ReservationPriced a.est_remote_ms d s app.budget h.1
    execute-StagePriced d local app h = enter_slot-StagePriced e request.request_id d _ _
    execute-StagePriced d queue_local app h = enter_slot-StagePriced e request.request_id d _ _

    after_route-StagePriced :
        (app : App) (p : Result RoutingDecision × State)
        → Outcome c a s tier p
        → StagePriced (after_route e request app p).0 (after_route e request app p).1.budget
    after_route-StagePriced app (ok d, t) h =
        execute-StagePriced d d.route (record app { budget = t }) h
    after_route-StagePriced app (raise x, t) h = tt

  receive-StagePriced :
      (es : Envs) (e : Env) (request : IncomingRequest) (app : App)
      → StagePriced (receive c es e request app).0 (receive c es e request app).1.budget
  unfolding receive
  receive-StagePriced es e request app =
      after_route-StagePriced e request (advise app.queue app.tracker (with_tier request)) _ _ app _
        (route-Outcome c es app.queue app.tracker (with_tier request) app.budget)

  rank-le : (stage : Stage) → rank stage ≤ 2
  rank-le (executing_remote d) = omega arith
  rank-le (executing_local d) = omega arith
  rank-le executing_fallback = omega arith
  rank-le waits = omega arith
  rank-le (answers r) = omega arith

  advance-AllPriced :
      (i : ℕ) (es : SettleEnvs) (outcome : BackendOutcome) (fs : List Flight) (app : App)
      → Inv app.budget
      → AllPriced fs app.budget
      → AllPriced (advance i es outcome fs app).0 (advance i es outcome fs app).1.budget
  advance-AllPriced i es outcome [] app v h = tt
  advance-AllPriced zero es outcome (f ∷ fs) app v h = (
    low-StagePriced _ _
        (omega (arith, resume-rank es outcome f.request f.stage app, rank-le f.stage)),
    Called-AllPriced app.budget _ (resume-Called es outcome f.request f.stage app) v fs h.1,
  )
  advance-AllPriced (suc i) es outcome (f ∷ fs) app v h = (
    Called-StagePriced app.budget _ (advance-Called i es outcome fs app) v f.stage h.0,
    advance-AllPriced i es outcome fs app v h.1,
  )

  pub step-AllPriced :
      (e : Event) (w : World)
      → CostsAtMost c e
      → Fresh e w
      → Inv w.app.budget
      → AllPriced w.flights w.app.budget
      → AllPriced (step e w).flights (step e w).app.budget
  unfolding step
  step-AllPriced (arrives cost es e request) w same fresh v h = (
    rw same (receive-StagePriced es e request w.app),
    Called-AllPriced w.app.budget _ (step-Called (arrives cost es e request) w fresh) v w.flights h,
  )
  step-AllPriced (ends i es outcome) w within fresh v h =
      advance-AllPriced i es outcome w.flights w.app v h
  step-AllPriced (reaps now) w within fresh v h =
      Called-AllPriced w.app.budget _ (step-Called (reaps now) w fresh) v w.flights h
