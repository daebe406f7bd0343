-- ===== src/Budget/Caps.antt =====
-- No method of `BudgetManager` (app/budget_manager.py) changes its limits.
use ai_routing.Prelude.{ℕ, ◌≡◌, refl, arith, List, [], ◌∷◌, if◌then◌else◌}
use ai_routing.Prelude.Int.{ℤ}
use ai_routing.Budget.Types.{State, Reservation, Env, rolled_back, is_expired}
use ai_routing.Budget.{
  try_reserve, commit, commit_found, drop_clamped, rollback, expire_loop, expire_stale_reservations,
}

-- The configuration, which is fixed when the manager is made.
abbrev pub caps : State → ℤ × ℤ × ℤ
caps s = (s.max_remote_budget, s.max_cumulative_latency_ms, s.reservation_ttl_seconds)

pub try_reserve-caps :
    (e : Env) (request_id : ℕ) (cost lat : ℤ) (s : State)
    → caps (try_reserve e request_id cost lat s).1 ≡ caps s
unfolding try_reserve
try_reserve-caps e request_id cost lat s = ground arith

pub commit-caps :
    (e : Env) (id : ℕ) (cost lat : ℤ) (s : State) → caps (commit e id cost lat s).1 ≡ caps s
unfolding commit commit_found
commit-caps e id cost lat s = ground arith

pub rollback-caps : (e : Env) (id : ℕ) (s : State) → caps (rollback e id s).1 ≡ caps s
unfolding rollback
rollback-caps e id s = ground arith

expire_loop-caps :
    (now : ℤ) (xs : List Reservation) (s : State) → caps (expire_loop now xs s).1 ≡ caps s
unfolding expire_loop
expire_loop-caps now [] s = refl
expire_loop-caps now (r ∷ xs) s =
    ground (
      arith,
      expire_loop-caps now xs (if is_expired now r then drop_clamped rolled_back r s else s),
    )

pub expire_stale_reservations-caps :
    (now : ℤ) (s : State) → caps (expire_stale_reservations now s).1 ≡ caps s
unfolding expire_stale_reservations
expire_stale_reservations-caps now s = expire_loop-caps now s.active_reservations s
