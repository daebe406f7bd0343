-- ===== src/Inference/Flights/Cheap.antt =====
-- The results of remote calls of app/main.py against what is reserved for them when they are booked.
use ai_routing.Prelude.{ℕ, zero, suc, ◌≡◌, refl, Option, none, some, List, [], ◌∷◌, arith, All}
use ai_routing.Prelude.Int.{ℤ, pos, ◌≤ℤ◌}
use ai_routing.Budget.{State, Reservation}
use ai_routing.Budget.Invariant.{Inv}
use ai_routing.Budget.Priced.{Called-Inv, Priced-overrun, free-overrun}
use ai_routing.App.{
  App, BackendOutcome, gives, fails, Stage, executing_remote, executing_local, executing_fallback,
  waits, answers, SettleEnvs,
}
use ai_routing.Settlement.Called.{reservation_overrun}
use ai_routing.Inference.Flights.{Flight, World, Event, arrives, ends, reaps, step}
use ai_routing.Inference.Flights.History.{
  AllFresh, dear, dear_at, dear_end, dear_count, step-Called,
}
use ai_routing.Inference.Flights.Priced.{
  CostsAtMost, ReservationPriced, StagePriced, AllPriced, step-AllPriced,
}

module _ (c : ℤ) where
  remote-not_dear :
      (o : Option Reservation) (cost : ℤ) (s : State)
      → cost ≤ℤ c
      → ReservationPriced c o s
      → reservation_overrun o cost s ≡ 0
  remote-not_dear none cost s within h = refl
  remote-not_dear (some r) cost s within h = Priced-overrun c cost r.id s h within

  local-not_dear :
      (o : Option Reservation) (s : State) → Inv s → reservation_overrun o (pos 0) s ≡ 0
  local-not_dear none s v = refl
  local-not_dear (some r) s v = free-overrun r.id s v

  module _ (i : ℕ) (es : SettleEnvs) where
    not_dear :
        (outcome : BackendOutcome) (stage : Stage) (app : App)
        → CostsAtMost c (ends i es outcome)
        → Inv app.budget
        → StagePriced c stage app.budget
        → dear stage outcome app ≡ 0
    not_dear (gives result) (executing_remote d) app within v h =
        remote-not_dear d.reservation result.actual_cost app.budget within h
    not_dear (gives result) (executing_local d) app within v h =
        local-not_dear d.reservation app.budget v
    not_dear (gives result) executing_fallback app within v h = refl
    not_dear (gives result) waits app within v h = refl
    not_dear (gives result) (answers r) app within v h = refl
    not_dear (fails failure) (executing_remote d) app within v h = refl
    not_dear (fails failure) (executing_local d) app within v h = refl
    not_dear (fails failure) executing_fallback app within v h = refl
    not_dear (fails failure) waits app within v h = refl
    not_dear (fails failure) (answers r) app within v h = refl

    none_dear :
        (k : ℕ) (outcome : BackendOutcome) (fs : List Flight) (app : App)
        → CostsAtMost c (ends i es outcome)
        → Inv app.budget
        → AllPriced c fs app.budget
        → dear_at k outcome fs app ≡ 0
    none_dear k outcome [] app within v h = refl
    none_dear zero outcome (f ∷ fs) app within v h = not_dear outcome f.stage app within v h.0
    none_dear (suc k) outcome (f ∷ fs) app within v h = none_dear k outcome fs app within v h.1

  dear_end-zero :
      (e : Event) (w : World)
      → CostsAtMost c e
      → Inv w.app.budget
      → AllPriced c w.flights w.app.budget
      → dear_end e w ≡ 0
  dear_end-zero (arrives cost es e request) w within v h = refl
  dear_end-zero (ends i es outcome) w within v h =
      none_dear i es i outcome w.flights w.app within v h
  dear_end-zero (reaps now) w within v h = refl

  -- Where every request is routed with the reserved cost `c` and no result costs more than `c`, none
  -- costs more than what is reserved for its request, also once the reaper has taken some of the
  -- reservations.
  pub nothing_dear :
      (es : List Event) (w : World)
      → All (CostsAtMost c) es
      → AllFresh es w
      → Inv w.app.budget
      → AllPriced c w.flights w.app.budget
      → dear_count es w ≡ 0
  nothing_dear [] w within fresh v h = refl
  nothing_dear (e ∷ es) w within fresh v h = omega (
    arith,
    dear_end-zero e w within.0 v h,
    nothing_dear es (step e w) within.1 fresh.1
        (Called-Inv w.app.budget _ (step-Called e w fresh.0) v)
        (step-AllPriced c e w within.0 fresh.0 v h),
  )
