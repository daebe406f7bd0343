-- ===== src/Budget/Bounds.antt =====
-- How far `BudgetManager` (app/budget_manager.py) lets the spend and the latency grow.
use ai_routing.Prelude.{◌≤◌, ℕ, suc, ◌+◌, ◌*◌, ◌≡◌, false, some, arith}
use ai_routing.Prelude.Int.{ℤ, pos, ◌≤ℤ◌, ◌+ℤ◌, ◌-ℤ◌, ltb_ℤ→ge, int_laws}
use ai_routing.Budget.Types.{State, Manager, Reservation, rolled_back, Env, find}
use ai_routing.Budget.{
  try_reserve, breaches, liquid, latency_remaining, commit, rollback, expire_stale_reservations,
  eps_9, eps_12, drop_clamped,
}
use ai_routing.Budget.Table.{find-NonNeg}
use ai_routing.Budget.Cases.{try_reserve_cases, commit_cases, rollback_cases}
use ai_routing.Budget.Methods.{expire_cases}
use ai_routing.LockTrace.{Trace}
use ai_routing.Budget.Invariant.{Inv, cost_of, clamps}

-- What is spent or reserved.
abbrev pub exposure : State → ℤ
exposure s = s.cumulative_remote_cost +ℤ s.reserved_for_execution

-- After `n` commits: the exposure is under the budget but for the tolerances, 1e-12 for the test of
-- `try_reserve` and 1e-9 for each commit, and the latency is under its cap but for 1e-9.
pub record Bounded (n : ℕ) (s : State) : Type 0 where
  pub budget : exposure s ≤ℤ s.max_remote_budget +ℤ pos (1 + 1000 * n)
  pub latency : s.cumulative_actual_latency_ms ≤ℤ s.max_cumulative_latency_ms +ℤ eps_9

-- What the test under the lock of `try_reserve` says when it fails.
pub fits_both :
    (m : Manager) (cost lat : ℤ)
    → breaches m cost lat ≡ false
    → (cost -ℤ eps_12 ≤ℤ liquid m) × (lat -ℤ eps_12 ≤ℤ latency_remaining m)
fits_both m cost lat h = ground arith

pub more-Bounded : (n m : ℕ) (s : State) → n ≤ m → Bounded n s → Bounded m s
more-Bounded n m s le b = record {
  budget = omega (int_laws, arith, le, b.budget);
  latency = b.latency;
}

untraced :
    (n : ℕ) (s : State) (trace : Trace) → Bounded n s → Bounded n (record s { trace = trace })
untraced n s trace b = record { budget = b.budget; latency = b.latency }

pub try_reserve-Bounded :
    (n : ℕ) (e : Env) (request_id : ℕ) (cost lat : ℤ) (s : State)
    → Bounded n s
    → Bounded n (try_reserve e request_id cost lat s).1
try_reserve-Bounded n e request_id cost lat s b =
    try_reserve_cases (Bounded n) (untraced n) e request_id cost lat s b λ good fits. record {
      budget = omega (int_laws, (fits_both s.manager cost lat fits).0);
      latency = b.latency;
    }

pub commit-Bounded :
    (n : ℕ) (e : Env) (id : ℕ) (cost lat : ℤ) (s : State)
    → Inv s
    → Bounded n s
    → Bounded (suc n) (commit e id cost lat s).1
commit-Bounded n e id cost lat s v b =
    commit_cases (Bounded (suc n)) (untraced (suc n)) e id cost lat s
      (record { budget = omega (int_laws, b.budget); latency = b.latency })
      (λ r found.
        let held = find-NonNeg cost_of id r s.active_reservations found v.cost_nonneg in
        record { budget = omega (int_laws, held, b.budget); latency = b.latency })
      (λ r found within fits.
        let c = clamps id r s v found in
        rw (c.0, c.1)
          (record {
            budget = omega (int_laws, b.budget, ltb_ℤ→ge (r.reserved_cost +ℤ eps_9) cost within);
            latency =
                ltb_ℤ→ge (s.max_cumulative_latency_ms +ℤ eps_9)
                  (s.cumulative_actual_latency_ms +ℤ lat) fits;
          }))

-- A commit within what is reserved uses none of its tolerance.
pub commit_within-Bounded :
    (n : ℕ) (e : Env) (id : ℕ) (cost lat : ℤ) (s : State)
    → Inv s
    → ((r : Reservation) → find id s.active_reservations ≡ some r → cost ≤ℤ r.reserved_cost)
    → Bounded n s
    → Bounded n (commit e id cost lat s).1
commit_within-Bounded n e id cost lat s v cheap b =
    commit_cases (Bounded n) (untraced n) e id cost lat s b
      (λ r found.
        let held = find-NonNeg cost_of id r s.active_reservations found v.cost_nonneg in
        record { budget = omega (int_laws, held, b.budget); latency = b.latency })
      (λ r found within fits.
        let c = clamps id r s v found in
        rw (c.0, c.1)
          (record {
            budget = omega (int_laws, b.budget, cheap r found);
            latency =
                ltb_ℤ→ge (s.max_cumulative_latency_ms +ℤ eps_9)
                  (s.cumulative_actual_latency_ms +ℤ lat) fits;
          }))

drop_clamped-Bounded :
    (n id : ℕ) (r : Reservation) (s : State)
    → Inv s
    → find id s.active_reservations ≡ some r
    → Bounded n s
    → Bounded n (drop_clamped rolled_back r s)
drop_clamped-Bounded n id r s v e b =
    let held = find-NonNeg cost_of id r s.active_reservations e v.cost_nonneg in
    let c = clamps id r s v e in
    rw (c.0, c.1) (record { budget = omega (int_laws, held, b.budget); latency = b.latency })

pub rollback-Bounded :
    (n : ℕ) (e : Env) (id : ℕ) (s : State) → Inv s → Bounded n s → Bounded n (rollback e id s).1
rollback-Bounded n e id s v b =
    rollback_cases (Bounded n) (untraced n) e id s b
      (λ r found. drop_clamped-Bounded n id r s v found b)

pub expire_stale_reservations-Bounded :
    (n : ℕ) (now : ℤ) (s : State)
    → Inv s
    → Bounded n s
    → Bounded n (expire_stale_reservations now s).1
expire_stale_reservations-Bounded n now s v b =
    (expire_cases (Bounded n) (λ r t w e p. drop_clamped-Bounded n r.id r t w e p) now s v b).1
