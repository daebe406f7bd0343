-- ===== src/Budget/Tests.antt =====
-- Runs of app/budget_manager.py at concrete inputs, and the theorems about it at such inputs.
use ai_routing.Prelude.{ℕ, ◌+◌, ◌*◌, ◌≡◌, ◌⊎◌, refl, some, none, inl, List, [], ◌∷◌, arith, All}
use ai_routing.Prelude.Int.{ℤ, pos, ◌+ℤ◌, ◌-ℤ◌, ◌≤ℤ◌, max_ℤ}
use ai_routing.Budget.{
  State, Manager, Env, Reservation, ok, raise, value_error, invalid_reservation_state,
  actual_cost_exceeded, rolled_back, find, lookup_state, init, new_manager, try_reserve, commit,
  commit_found, rollback, expire_loop, expire_stale_reservations, enter, new_reservation,
  log_settle, eps_9,
}
use ai_routing.Budget.Table.{sum_of}
use ai_routing.Budget.Invariant.{Inv, cost_of, latency_of}
use ai_routing.Budget.Methods.{fresh_state, init-Inv}
use ai_routing.Budget.Bounds.{exposure}
use ai_routing.Budget.History.{
  Call, reserves, commits, rollbacks, expires, step, run, FreshIds, run-Inv,
}
use ai_routing.Budget.Overspend.{spend_bounded}
use ai_routing.Budget.Overruns.{overruns}
use ai_routing.Budget.Admission.{Admissible, try_reserve_iff}
use ai_routing.Budget.Settle.{Settles, commit-Settles, rollback-try_reserve}
use ai_routing.Budget.Once.{settled_once}
use ai_routing.Budget.Age.{not_started, start_reaper, reaper_wakes, reaper_bounds_age}
use ai_routing.Budget.Reaper.{expire-live, live, stale, ids, IsRolledBack}

-- A budget of 5 dollars, 600 s of latency and 45 s to live.
abbrev manager : Manager
manager = new_manager (pos 5_000_000_000_000) (pos 600_000_000_000_000_000) (pos 45_000_000_000_000)

abbrev start : State
start = fresh_state manager

abbrev env : ℕ → ℤ → Env
env id now = record { acquire_us = id; release_us = id; now = now; new_id = id }

-- The cost of a remote request, 0.15 dollars, and its latency estimate, 800 ms.
abbrev remote_cost : ℤ
remote_cost = pos 150_000_000_000

abbrev remote_latency : ℤ
remote_latency = pos 800_000_000_000_000

abbrev calls : List Call
calls =
    reserves (env 1 (pos 0)) 7 remote_cost remote_latency
    ∷ reserves (env 2 (pos 10)) 8 (pos 0) remote_latency
    ∷ commits (env 3 (pos 20)) 1 (pos 60_000_000_000) (pos 900_000_000_000_000)
    ∷ expires (pos 90_000_000_000_000)
    ∷ []

calls_spend : (run calls start).cumulative_remote_cost ≡ pos 60_000_000_000
unfolding run try_reserve commit commit_found expire_stale_reservations expire_loop ◌+ℤ◌ ◌-ℤ◌ max_ℤ
calls_spend = refl

calls_release : (run calls start).active_reservations ≡ []
unfolding run try_reserve commit commit_found expire_stale_reservations expire_loop ◌+ℤ◌ ◌-ℤ◌ max_ℤ
calls_release = refl

calls_fresh : FreshIds calls start
unfolding step try_reserve commit commit_found expire_stale_reservations expire_loop ◌+ℤ◌ ◌-ℤ◌ max_ℤ
calls_fresh = (refl, (refl, (tt, (tt, tt))))

made :
    init (pos 5_000_000_000_000) (pos 600_000_000_000_000_000) (pos 45_000_000_000_000) ≡ ok manager
unfolding init
made = refl

start-Inv : Inv start
start-Inv =
    init-Inv (pos 5_000_000_000_000) (pos 600_000_000_000_000_000) (pos 45_000_000_000_000) manager
      made

run-Inv_example : Inv (run calls start)
run-Inv_example = run-Inv calls start calls_fresh start-Inv

spend_bounded_example :
    let s = run calls start in
    (exposure s ≤ℤ pos 5_000_000_000_000 +ℤ pos (1 + 1000 * overruns calls start))
    × (s.cumulative_actual_latency_ms ≤ℤ pos 600_000_000_000_000_000 +ℤ eps_9)
spend_bounded_example =
    spend_bounded (pos 5_000_000_000_000) (pos 600_000_000_000_000_000) (pos 45_000_000_000_000)
      manager calls made (omega arith) calls_fresh

-- The first call alone, and the reservation that it grants.
abbrev reserved : State
reserved = (try_reserve (env 1 (pos 0)) 7 remote_cost remote_latency start).1

abbrev granted : Reservation
granted = new_reservation (env 1 (pos 0)) manager remote_cost remote_latency

reserved-Inv : Inv reserved
unfolding step run
reserved-Inv =
    run-Inv (reserves (env 1 (pos 0)) 7 remote_cost remote_latency ∷ []) start (refl, tt) start-Inv

reserved_active : find 1 reserved.active_reservations ≡ some granted
unfolding try_reserve ◌+ℤ◌ ◌-ℤ◌
reserved_active = refl

try_reserve_iff_example :
    let (res, t) = try_reserve (env 1 (pos 0)) 7 remote_cost remote_latency start in
    (Admissible manager remote_cost remote_latency
      × (res ≡ ok (some granted))
      × (t.manager ≡ (enter granted start).manager)
      × (t.states ≡ (enter granted start).states))
    ⊎ (¬ Admissible manager remote_cost remote_latency
        × ((res ≡ ok none) ⊎ (res ≡ raise value_error))
        × (t.manager ≡ manager)
        × (t.states ≡ []))
try_reserve_iff_example = try_reserve_iff (env 1 (pos 0)) 7 remote_cost remote_latency start

-- A commit above the reserved amount is refused.
commit-Settles_example :
    Settles granted
      (pos 200_000_000_000)
      (pos 1)
      reserved
      (commit (env 5 (pos 9)) 1 (pos 200_000_000_000) (pos 1) reserved)
commit-Settles_example =
    commit-Settles (env 5 (pos 9)) 1 granted (pos 200_000_000_000) (pos 1) reserved reserved-Inv
      reserved_active

commit_over_raises :
    (commit (env 5 (pos 9)) 1 (pos 200_000_000_000) (pos 1) reserved).0 ≡ raise actual_cost_exceeded
unfolding try_reserve commit commit_found ◌+ℤ◌ ◌-ℤ◌
commit_over_raises = refl

admissible : Admissible manager remote_cost remote_latency
unfolding ◌+ℤ◌
admissible = record {
  cost_nonneg = omega arith;
  latency_nonneg = omega arith;
  not_both_zero = inl (omega arith);
  in_budget = omega arith;
  in_latency = omega arith;
}

rollback-try_reserve_example :
    let (res, t) = rollback (env 9 (pos 3)) 1 reserved in
    (res ≡ ok tt) × (t.manager ≡ manager) × (lookup_state 1 t.states ≡ some rolled_back)
rollback-try_reserve_example =
    rollback-try_reserve (env 1 (pos 0)) (env 9 (pos 3)) 7 remote_cost remote_latency start
      start-Inv refl admissible

settled_once_example :
    let t = run (rollbacks (env 4 (pos 1)) 1 ∷ expires (pos 2) ∷ []) reserved in
    (commit (env 5 (pos 9)) 1 remote_cost remote_latency t
      ≡ (raise invalid_reservation_state, log_settle (env 5 (pos 9)) 1 t))
    × (rollback (env 5 (pos 9)) 1 t
        ≡ (raise invalid_reservation_state, log_settle (env 5 (pos 9)) 1 t))
settled_once_example =
    settled_once 1 (rollbacks (env 4 (pos 1)) 1) granted (expires (pos 2) ∷ []) reserved refl
      reserved-Inv reserved_active (tt, (tt, tt)) (env 5 (pos 9)) remote_cost remote_latency

expire-live_example :
    let (expired_ids, t) = expire_stale_reservations (pos 50_000_000_000_000) reserved in
    (t.active_reservations ≡ live (pos 50_000_000_000_000) reserved.active_reservations)
    × (expired_ids ≡ ids (stale (pos 50_000_000_000_000) reserved.active_reservations))
    × All (IsRolledBack t) (stale (pos 50_000_000_000_000) reserved.active_reservations)
    × (t.reserved_for_execution
        ≡ sum_of cost_of (live (pos 50_000_000_000_000) reserved.active_reservations))
    × (t.reserved_latency_ms
        ≡ sum_of latency_of (live (pos 50_000_000_000_000) reserved.active_reservations))
expire-live_example = expire-live (pos 50_000_000_000_000) reserved reserved-Inv

abbrev later_calls : List Call
later_calls = reserves (env 2 (pos 70_000_000_000_000)) 8 remote_cost remote_latency ∷ []

reaper_bounds_age_example :
    All
      (λ r.
        pos 80_000_000_000_000 -ℤ r.created_at
        ≤ℤ r.ttl_seconds +ℤ (pos 80_000_000_000_000 -ℤ pos 60_000_000_000_000))
      (run later_calls (
        reaper_wakes
          (start_reaper not_started)
          (pos 60_000_000_000_000)
          reserved)).active_reservations
unfolding reaper_wakes start_reaper try_reserve expire_stale_reservations expire_loop ◌+ℤ◌ ◌-ℤ◌
    max_ℤ
reaper_bounds_age_example =
    reaper_bounds_age (pos 60_000_000_000_000) (pos 80_000_000_000_000) not_started later_calls
      reserved reserved-Inv (omega arith) (omega arith, tt) (refl, tt)
