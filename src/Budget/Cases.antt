-- ===== src/Budget/Cases.antt =====
-- The branches of the methods of `BudgetManager` (app/budget_manager.py), for proofs of a predicate
-- that does not look at the lock trace.
use ai_routing.Prelude.{ℕ, ◌≡◌, false, some, inl, inr, Bool-cases, Option-cases}
use ai_routing.Prelude.Int.{ℤ, ltb_ℤ, ◌+ℤ◌}
use ai_routing.LockTrace.{Trace}
use ai_routing.Budget.Types.{State, Reservation, committed, rolled_back, Env, find}
use ai_routing.Budget.{
  try_reserve, breaches, bad_request, new_reservation, commit, commit_found, rollback, eps_9, enter,
  drop_unclamped, drop_clamped, spend,
}

module _ {ℓ} (P : State → Type ℓ)
    (untraced : (s : State) (trace : Trace) → P s → P (record s { trace = trace })) where
  pub try_reserve_cases :
      (e : Env) (request_id : ℕ) (cost lat : ℤ) (s : State)
      → P s
      → (bad_request cost lat ≡ false
          → breaches s.manager cost lat ≡ false
          → P (enter (new_reservation e s.manager cost lat) s))
      → P (try_reserve e request_id cost lat s).1
  unfolding try_reserve
  try_reserve_cases e request_id cost lat s same entered =
      elim (Bool-cases (bad_request cost lat)) [
        | inl bad ↦ rw bad same
        | inr good ↦ elim (Bool-cases (breaches s.manager cost lat)) [
          | inl breach ↦ rw (good, breach) (untraced s _ same)
          | inr fits ↦ rw (good, fits) (untraced _ _ (entered good fits))
        ]
      ]

  commit_found_cases :
      (r : Reservation) (cost lat : ℤ) (s : State)
      → P (drop_unclamped r s)
      → (ltb_ℤ (r.reserved_cost +ℤ eps_9) cost ≡ false
          → ltb_ℤ (s.max_cumulative_latency_ms +ℤ eps_9) (s.cumulative_actual_latency_ms +ℤ lat)
            ≡ false
          → P (spend cost lat (drop_clamped committed r s)))
      → P (commit_found r cost lat s).1
  unfolding commit_found
  commit_found_cases r cost lat s refused settled =
      elim (Bool-cases (ltb_ℤ (r.reserved_cost +ℤ eps_9) cost)) [
        | inl over ↦ rw over refused
        | inr within ↦
            elim (Bool-cases (
              ltb_ℤ (s.max_cumulative_latency_ms +ℤ eps_9)
                (s.cumulative_actual_latency_ms +ℤ lat))) [
                  | inl late ↦ rw (within, late) refused
                  | inr fits ↦ rw (within, fits) (settled within fits)
                ]
      ]

  -- Of an active reservation.
  pub commit_active_cases :
      (e : Env) (id : ℕ) (cost lat : ℤ) (r : Reservation) (s : State)
      → find id s.active_reservations ≡ some r
      → P (drop_unclamped r s)
      → (ltb_ℤ (r.reserved_cost +ℤ eps_9) cost ≡ false
          → ltb_ℤ (s.max_cumulative_latency_ms +ℤ eps_9) (s.cumulative_actual_latency_ms +ℤ lat)
            ≡ false
          → P (spend cost lat (drop_clamped committed r s)))
      → P (commit e id cost lat s).1
  unfolding commit
  commit_active_cases e id cost lat r s found refused settled =
      rw (found, commit) (untraced _ _ (commit_found_cases r cost lat s refused settled))

  pub commit_cases :
      (e : Env) (id : ℕ) (cost lat : ℤ) (s : State)
      → P s
      → ((r : Reservation) → find id s.active_reservations ≡ some r → P (drop_unclamped r s))
      → ((r : Reservation)
          → find id s.active_reservations ≡ some r
          → ltb_ℤ (r.reserved_cost +ℤ eps_9) cost ≡ false
          → ltb_ℤ (s.max_cumulative_latency_ms +ℤ eps_9) (s.cumulative_actual_latency_ms +ℤ lat)
            ≡ false
          → P (spend cost lat (drop_clamped committed r s)))
      → P (commit e id cost lat s).1
  unfolding commit
  commit_cases e id cost lat s same refused settled =
      elim (Option-cases (find id s.active_reservations)) [
        | inl missing ↦ rw (missing, commit) (untraced s _ same)
        | inr (r, found) ↦
            commit_active_cases e id cost lat r s found (refused r found) (settled r found)
      ]

  pub rollback_active_cases :
      (e : Env) (id : ℕ) (r : Reservation) (s : State)
      → find id s.active_reservations ≡ some r
      → P (drop_clamped rolled_back r s)
      → P (rollback e id s).1
  unfolding rollback
  rollback_active_cases e id r s found dropped = rw (found, rollback) (untraced _ _ dropped)

  pub rollback_cases :
      (e : Env) (id : ℕ) (s : State)
      → P s
      → ((r : Reservation)
          → find id s.active_reservations ≡ some r
          → P (drop_clamped rolled_back r s))
      → P (rollback e id s).1
  unfolding rollback
  rollback_cases e id s same dropped = elim (Option-cases (find id s.active_reservations)) [
    | inl missing ↦ rw (missing, rollback) (untraced s _ same)
    | inr (r, found) ↦ rollback_active_cases e id r s found (dropped r found)
  ]
