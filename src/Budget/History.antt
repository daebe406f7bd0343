-- ===== src/Budget/History.antt =====
-- Histories of calls on one `BudgetManager` (app/budget_manager.py), in any interleaving.
use ai_routing.Prelude.{ℕ, ◌≡◌, none, List, [], ◌∷◌}
use ai_routing.Prelude.Int.{ℤ}
use ai_routing.Budget.Types.{State, Env, lookup_state}
use ai_routing.Budget.{try_reserve, commit, rollback, expire_stale_reservations}
use ai_routing.Budget.Invariant.{Inv}
use ai_routing.Budget.Methods.{
  try_reserve-Inv, commit-Inv, rollback-Inv, expire_stale_reservations-Inv,
}

pub data Call : Type 0 where
  reserves : Env → ℕ → ℤ → ℤ → Call
  commits : Env → ℕ → ℤ → ℤ → Call
  rollbacks : Env → ℕ → Call
  expires : ℤ → Call

unfoldable pub step : Call → State → State
step (reserves e request_id cost lat) s = (try_reserve e request_id cost lat s).1
step (commits e id cost lat) s = (commit e id cost lat s).1
step (rollbacks e id) s = (rollback e id s).1
step (expires now) s = (expire_stale_reservations now s).1

unfoldable pub run : List Call → State → State
unfolding step
run [] s = s
run (c ∷ cs) s = run cs (step c s)

-- `uuid4` gives an id that no reservation object has.
abbrev pub FreshId : Call → State → Type 0
FreshId (reserves e request_id cost lat) s = lookup_state e.new_id s.states ≡ none
FreshId _ s = Unit

abbrev pub FreshIds : List Call → State → Type 0
FreshIds [] s = Unit
FreshIds (c ∷ cs) s = FreshId c s × FreshIds cs (step c s)

pub step-Inv : (c : Call) (s : State) → FreshId c s → Inv s → Inv (step c s)
unfolding step
step-Inv (reserves e request_id cost lat) s fresh v =
    try_reserve-Inv e request_id cost lat s fresh v
step-Inv (commits e id cost lat) s fresh v = commit-Inv e id cost lat s v
step-Inv (rollbacks e id) s fresh v = rollback-Inv e id s v
step-Inv (expires now) s fresh v = expire_stale_reservations-Inv now s v

-- No history of calls breaks the ledger invariant: afterwards the reserved totals are the sums over
-- the table, and exactly the reservations of the table are pending. The ids that `uuid4` gives are
-- new ones.
pub run-Inv : (cs : List Call) (s : State) → FreshIds cs s → Inv s → Inv (run cs s)
unfolding run
run-Inv [] s fresh v = v
run-Inv (c ∷ cs) s fresh v = run-Inv cs (step c s) fresh.1 (step-Inv c s fresh.0 v)
