-- ===== src/Inference/Flights/Released.antt =====
-- What is left in app/main.py once every request has been answered: nothing.
use ai_routing.Prelude.{ℕ, ◌≡◌, refl, ap, ◌∙◌, true, false, List, [], ◌∷◌, arith}
use ai_routing.Prelude.Int.{pos}
use ai_routing.Budget.{Reservation, contains}
use ai_routing.Budget.Table.{sum_of}
use ai_routing.Budget.Invariant.{cost_of, latency_of}
use ai_routing.App.{
  App, Stage, executing_remote, executing_local, executing_fallback, waits, answers,
}
use ai_routing.Settlement.Accounts.{slots, keeps_id}
use ai_routing.Inference.Flights.{Flight, Event, run, AllAllowed, slots_held, is_kept}
use ai_routing.Inference.Flights.Balance.{Started, nobody, run-Balanced, start-Balanced}

abbrev pub IsAnswer : Stage → Type 0
IsAnswer (answers r) = Unit
IsAnswer _ = ⊥

-- Every request has been answered.
abbrev pub AllAnswered : List Flight → Type 0
AllAnswered [] = Unit
AllAnswered (f ∷ fs) = IsAnswer f.stage × AllAnswered fs

answer-slots : (stage : Stage) → IsAnswer stage → slots stage ≡ 0
answer-slots (executing_remote d) h = absurd h
answer-slots (executing_local d) h = absurd h
answer-slots executing_fallback h = absurd h
answer-slots waits h = absurd h
answer-slots (answers r) h = refl

answer-keeps_id : (stage : Stage) (j : ℕ) → IsAnswer stage → keeps_id stage j ≡ false
answer-keeps_id (executing_remote d) j h = absurd h
answer-keeps_id (executing_local d) j h = absurd h
answer-keeps_id executing_fallback j h = absurd h
answer-keeps_id waits j h = absurd h
answer-keeps_id (answers r) j h = refl

answered-slots : (fs : List Flight) → AllAnswered fs → slots_held fs ≡ 0
answered-slots [] h = refl
answered-slots (f ∷ fs) h = omega (arith, answer-slots f.stage h.0, answered-slots fs h.1)

answered-kept : (fs : List Flight) (j : ℕ) → AllAnswered fs → is_kept fs j ≡ false
answered-kept [] j h = refl
answered-kept (f ∷ fs) j h = rw (answer-keeps_id f.stage j h.0) (answered-kept fs j h.1)

empty_table : (rs : List Reservation) → ((j : ℕ) → contains j rs ≡ true → ⊥) → rs ≡ []
empty_table [] h = refl
empty_table (r ∷ rs) h = absurd (h r.id (ground arith))

-- Once every request has been answered, in whatever order and with whatever failures, nothing is left
-- reserved and every slot is free. No call is cancelled, and the ids that `uuid4` gives are new ones.
pub answered_releases :
    (es : List Event) (app : App)
    → Started app
    → AllAllowed es (nobody app)
    → let w = run es (nobody app) in
      AllAnswered w.flights
      → (w.app.queue.active_count ≡ 0)
        × (w.app.budget.active_reservations ≡ [])
        × (w.app.budget.reserved_for_execution ≡ pos 0)
        × (w.app.budget.reserved_latency_ms ≡ pos 0)
unfolding sum_of
answered_releases es app started allowed answered =
    let w = run es (nobody app) in
    let b =
      run-Balanced app.queue.max_concurrency es (nobody app) allowed (start-Balanced app started) in
    let c = b.count in
    let empty : w.app.budget.active_reservations ≡ [] =
      empty_table w.app.budget.active_reservations
        λ j there. absurd (cc (b.kept j there, answered-kept w.flights j answered)) in
    (
      omega (arith, c, answered-slots w.flights answered),
      empty,
      b.inv.budget.cost_sum ∙ ap (sum_of cost_of) empty,
      b.inv.budget.latency_sum ∙ ap (sum_of latency_of) empty,
    )
