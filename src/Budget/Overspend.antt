-- ===== src/Budget/Overspend.antt =====
-- The budget and the latency cap of app/budget_manager.py over whole histories.
use ai_routing.Prelude.{ℕ, suc, ◌+◌, ◌*◌, ◌≡◌, refl, ap, subst, ◌∙◌, List, [], ◌∷◌, arith}
use ai_routing.Prelude.Int.{ℤ, pos, ◌≤ℤ◌, ◌+ℤ◌, int_laws}
use ai_routing.Budget.Types.{State, Manager, ok}
use ai_routing.Budget.{init, new_manager, eps_9}
use ai_routing.Budget.Methods.{fresh_state, init-Inv}
use ai_routing.Budget.Bounds.{Bounded, exposure}
use ai_routing.Budget.Overruns.{overruns, run-Bounded_overruns}
use ai_routing.Budget.Caps.{
  caps, try_reserve-caps, commit-caps, rollback-caps, expire_stale_reservations-caps,
}
use ai_routing.Budget.History.{Call, reserves, commits, rollbacks, expires, step, run, FreshIds}

-- The number of commits among the calls.
abbrev pub commit_count : List Call → ℕ
commit_count [] = 0
commit_count (commits e id cost lat ∷ cs) = suc (commit_count cs)
commit_count (c ∷ cs) = commit_count cs

pub step-caps : (c : Call) (s : State) → caps (step c s) ≡ caps s
unfolding step
step-caps (reserves e request_id cost lat) s = try_reserve-caps e request_id cost lat s
step-caps (commits e id cost lat) s = commit-caps e id cost lat s
step-caps (rollbacks e id) s = rollback-caps e id s
step-caps (expires now) s = expire_stale_reservations-caps now s

pub run-caps : (cs : List Call) (s : State) → caps (run cs s) ≡ caps s
unfolding run
run-caps [] s = refl
run-caps (c ∷ cs) s = run-caps cs (step c s) ∙ step-caps c s

init-manager :
    (max_budget max_latency ttl : ℤ) (m : Manager)
    → init max_budget max_latency ttl ≡ ok m
    → (m ≡ new_manager max_budget max_latency ttl) × (pos 1 ≤ℤ max_budget)
unfolding init
init-manager max_budget max_latency ttl m h = ground arith

-- In every history of a manager that was made with the given limits, what is spent and reserved
-- together exceeds the budget by at most 1e-12 and another 1e-9 for each call of `commit` with a cost
-- above what is reserved under its id, and the committed latency exceeds its cap by at most 1e-9. The
-- ids that `uuid4` gives are new ones, and the latency cap is not negative.
pub spend_bounded :
    (max_budget max_latency ttl : ℤ) (m : Manager) (cs : List Call)
    → init max_budget max_latency ttl ≡ ok m
    → pos 0 ≤ℤ max_latency
    → FreshIds cs (fresh_state m)
    → let s = run cs (fresh_state m) in
      (exposure s ≤ℤ max_budget +ℤ pos (1 + 1000 * overruns cs (fresh_state m)))
      × (s.cumulative_actual_latency_ms ≤ℤ max_latency +ℤ eps_9)
spend_bounded max_budget max_latency ttl m cs made h fresh =
    subst (λ c. Within c) (run-caps cs (fresh_state m) ∙ ap (λ n. caps (fresh_state n)) made_as)
      (omega (int_laws, bounded.budget), bounded.latency)
  where
    Within : ℤ × ℤ × ℤ → Type 0
    Within c =
        (exposure (run cs (fresh_state m)) ≤ℤ c.0 +ℤ pos (1 + 1000 * overruns cs (fresh_state m)))
        × ((run cs (fresh_state m)).cumulative_actual_latency_ms ≤ℤ c.1 +ℤ eps_9)

    made_as : m ≡ new_manager max_budget max_latency ttl
    made_as = (init-manager max_budget max_latency ttl m made).0

    start : Bounded 0 (fresh_state m)
    start = rw made_as (record {
      budget = omega (int_laws, (init-manager max_budget max_latency ttl m made).1);
      latency = omega (int_laws, h);
    })

    bounded : Bounded (overruns cs (fresh_state m)) (run cs (fresh_state m))
    bounded =
        run-Bounded_overruns 0 (overruns cs (fresh_state m)) cs (fresh_state m) fresh
          (init-Inv max_budget max_latency ttl m made) start (omega arith)
