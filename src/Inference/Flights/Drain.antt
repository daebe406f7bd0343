-- ===== src/Inference/Flights/Drain.antt =====
-- Every request of app/main.py is answered: a handler calls a backend at most twice.
use ai_routing.Prelude.{
  ℕ, zero, suc, ◌+◌, ◌-◌, ◌≤◌, ◌<◌, ◌≡◌, ◌≢◌, refl, sym, subst, List, [], ◌∷◌, ◌++◌, arith, inl,
  inr, Bool-cases, ltb, length,
}
use ai_routing.App.{
  App, BackendOutcome, Stage, executing_remote, executing_local, executing_fallback, waits, answers,
  SettleEnvs,
}
use ai_routing.Inference.Flights.{
  Flight, World, Event, arrives, ends, reaps, advance, step, run, AllAllowed, NoneWaits,
}
use ai_routing.Inference.Flights.Balance.{Started, nobody, run-Balanced, start-Balanced}
use ai_routing.Inference.Flights.Released.{IsAnswer, AllAnswered, answered_releases}
use ai_routing.Inference.Flights.Rank.{rank, resume-rank}

-- The rank of the request at a position.
abbrev rank_at : ℕ → List Flight → ℕ
rank_at j [] = 0
rank_at zero (f ∷ fs) = rank f.stage
rank_at (suc j) (f ∷ fs) = rank_at j fs

abbrev here : ℕ → ℕ → ℕ
here zero zero = 1
here zero (suc j) = 0
here (suc i) zero = 0
here (suc i) (suc j) = here i j

advance-rank_at :
    (i j : ℕ) (es : SettleEnvs) (outcome : BackendOutcome) (fs : List Flight) (app : App)
    → rank_at j (advance i es outcome fs app).0 ≤ rank_at j fs - here i j
advance-rank_at i j es outcome [] app = omega arith
advance-rank_at zero zero es outcome (f ∷ fs) app = resume-rank es outcome f.request f.stage app
advance-rank_at zero (suc j) es outcome (f ∷ fs) app = omega arith
advance-rank_at (suc i) zero es outcome (f ∷ fs) app = omega arith
advance-rank_at (suc i) (suc j) es outcome (f ∷ fs) app = advance-rank_at i j es outcome fs app

-- No request comes.
abbrev pub NoArrival : List Event → Type 0
NoArrival [] = Unit
NoArrival (arrives cost es e request ∷ xs) = ⊥
NoArrival (ends i es outcome ∷ xs) = NoArrival xs
NoArrival (reaps now ∷ xs) = NoArrival xs

-- How often the call of the request at a position ends.
abbrev pub ends_of : ℕ → List Event → ℕ
ends_of j [] = 0
ends_of j (arrives cost es e request ∷ xs) = ends_of j xs
ends_of j (ends i es outcome ∷ xs) = here i j + ends_of j xs
ends_of j (reaps now ∷ xs) = ends_of j xs

run-rank_at :
    (j : ℕ) (xs : List Event) (w : World)
    → NoArrival xs
    → rank_at j (run xs w).flights ≤ rank_at j w.flights - ends_of j xs
unfolding run step
run-rank_at j [] w h = omega arith
run-rank_at j (arrives cost es e request ∷ xs) w h = absurd h
run-rank_at j (ends i es outcome ∷ xs) w h = omega (
  arith,
  run-rank_at j xs (step (ends i es outcome) w) h,
  advance-rank_at i j es outcome w.flights w.app,
)
run-rank_at j (reaps now ∷ xs) w h = run-rank_at j xs (step (reaps now) w) h

rank_at-le : (j : ℕ) (fs : List Flight) → rank_at j fs ≤ 2
rank_at-le j [] = omega arith
rank_at-le zero (f ∷ fs) = ground arith
rank_at-le (suc j) (f ∷ fs) = rank_at-le j fs

rank_at-beyond : (j : ℕ) (fs : List Flight) → length fs ≤ j → rank_at j fs ≡ 0
rank_at-beyond j [] h = refl
rank_at-beyond zero (f ∷ fs) h = absurd (omega (arith, h))
rank_at-beyond (suc j) (f ∷ fs) h = rank_at-beyond j fs (omega (arith, h))

-- After two ends of its call each, no request has another to come.
two_ends-rank_at :
    (j : ℕ) (xs : List Event) (w : World)
    → NoArrival xs
    → ((j : ℕ) → j < length w.flights → 2 ≤ ends_of j xs)
    → rank_at j (run xs w).flights ≡ 0
two_ends-rank_at j xs w none_comes ended = elim (Bool-cases (ltb j (length w.flights))) [
  | inl there ↦
      let two = ended j (ground (arith, there)) in
      omega (arith, two, run-rank_at j xs w none_comes, rank_at-le j w.flights)
  | inr beyond ↦
      let h : length w.flights ≤ j = ground (arith, beyond) in
      omega (arith, run-rank_at j xs w none_comes, rank_at-beyond j w.flights h)
]

unranked-AllAnswered :
    (fs : List Flight) → ((j : ℕ) → rank_at j fs ≡ 0) → NoneWaits fs → AllAnswered fs
unranked-AllAnswered [] h goes = tt
unranked-AllAnswered (f ∷ fs) h goes =
    (by_stage f.stage (h 0) goes.0, unranked-AllAnswered fs (λ j. h (suc j)) goes.1)
  where
    by_stage : (s : Stage) → rank s ≡ 0 → s ≢ waits → IsAnswer s
    by_stage (executing_remote d) z g = absurd (omega (arith, z))
    by_stage (executing_local d) z g = absurd (omega (arith, z))
    by_stage executing_fallback z g = absurd (omega (arith, z))
    by_stage waits z g = absurd (g refl)
    by_stage (answers r) z g = tt

run-append : (es xs : List Event) (w : World) → run (es ++ xs) w ≡ run xs (run es w)
unfolding run
run-append [] xs w = refl
run-append (e ∷ es) xs w = run-append es xs (step e w)

AllAllowed-append :
    (es xs : List Event) (w : World)
    → AllAllowed es w
    → AllAllowed xs (run es w)
    → AllAllowed (es ++ xs) w
unfolding run
AllAllowed-append [] xs w h k = k
AllAllowed-append (e ∷ es) xs w h k = (h.0, AllAllowed-append es xs (step e w) h.1 k)

-- Whatever has happened since the application started, once no more request comes and the backend's
-- call of each request on its way has ended twice, with whatever outcomes and in whatever order, every
-- request has been answered, nothing is reserved and every slot is free. No call is cancelled, and the
-- ids that `uuid4` gives are new ones.
pub two_ends_settle :
    (es xs : List Event) (app : App)
    → Started app
    → AllAllowed es (nobody app)
    → AllAllowed xs (run es (nobody app))
    → NoArrival xs
    → ((j : ℕ) → j < length (run es (nobody app)).flights → 2 ≤ ends_of j xs)
    → let w = run xs (run es (nobody app)) in
      AllAnswered w.flights
      × (w.app.queue.active_count ≡ 0)
      × (w.app.budget.active_reservations ≡ [])
two_ends_settle es xs app started allowed then_allowed none_comes ended =
    let before = run es (nobody app) in
    let all_allowed = AllAllowed-append es xs (nobody app) allowed then_allowed in
    let balanced =
      run-Balanced app.queue.max_concurrency (es ++ xs) (nobody app) all_allowed
        (start-Balanced app started) in
    let answered : AllAnswered (run xs before).flights =
      unranked-AllAnswered (run xs before).flights
        (λ j. two_ends-rank_at j xs before none_comes ended)
        (subst (λ w. NoneWaits w.flights) (run-append es xs (nobody app)) balanced.none_waits) in
    let released =
      answered_releases (es ++ xs) app started all_allowed
        (subst (λ w. AllAnswered w.flights) (sym (run-append es xs (nobody app))) answered) in
    (
      answered,
      subst (λ w. w.app.queue.active_count ≡ 0) (run-append es xs (nobody app)) released.0,
      subst (λ w. w.app.budget.active_reservations ≡ []) (run-append es xs (nobody app)) released.1,
    )
