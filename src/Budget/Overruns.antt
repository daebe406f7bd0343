-- ===== src/Budget/Overruns.antt =====
-- The commits of app/budget_manager.py that cost more than what was reserved for them: only they use
-- the tolerance of the budget.
use ai_routing.Prelude.{
  ap, sym, ◌∙◌, ℕ, suc, ◌+◌, ◌≤◌, ◌≡◌, refl, subst, inl, inr, Bool-cases, Option, none, some, List,
  [], ◌∷◌, arith, if◌then◌else◌,
}
use ai_routing.Prelude.Int.{ℤ, ◌≤ℤ◌, ltb_ℤ, ltb_ℤ→ge}
use ai_routing.Budget.Types.{State, Reservation, find}
use ai_routing.Budget.{commit}
use ai_routing.Budget.Invariant.{Inv}
use ai_routing.Budget.Bounds.{
  Bounded, more-Bounded, try_reserve-Bounded, commit-Bounded, commit_within-Bounded,
  rollback-Bounded, expire_stale_reservations-Bounded,
}
use ai_routing.Budget.History.{
  Call, reserves, commits, rollbacks, expires, step, run, FreshIds, step-Inv,
}

-- Whether a cost is more than what is reserved under an id: 1 or 0.
abbrev over : Option Reservation → ℤ → ℕ
over none cost = 0
over (some r) cost = if ltb_ℤ r.reserved_cost cost then 1 else 0

abbrev pub overrun : ℕ → ℤ → State → ℕ
overrun id cost s = over (find id s.active_reservations) cost

abbrev overrun_of : Call → State → ℕ
overrun_of (commits e id cost lat) s = overrun id cost s
overrun_of _ s = 0

-- The number of such commits in a history.
abbrev pub overruns : List Call → State → ℕ
overruns [] s = 0
overruns (c ∷ cs) s = overrun_of c s + overruns cs (step c s)

over-le : (o : Option Reservation) (cost : ℤ) → over o cost ≤ 1
over-le none cost = omega arith
over-le (some r) cost = ground arith

pub overrun-le : (id : ℕ) (cost : ℤ) (s : State) → overrun id cost s ≤ 1
overrun-le id cost s = over-le (find id s.active_reservations) cost

module _ (n m : ℕ) where
  commit-Bounded_overrun :
      (c : Call) (s : State) → Inv s → Bounded n s → overrun_of c s + n ≤ m → Bounded m (step c s)
  unfolding step
  commit-Bounded_overrun (reserves e request_id cost lat) s v b h =
      more-Bounded n m _ (omega (arith, h)) (try_reserve-Bounded n e request_id cost lat s b)
  commit-Bounded_overrun (commits e id cost lat) s v b h =
      by_entry (find id s.active_reservations) refl h
    where
      -- What is found is within the reservation.
      within :
          (k : n ≤ m)
          → ((r : Reservation) → find id s.active_reservations ≡ some r → cost ≤ℤ r.reserved_cost)
          → Bounded m (commit e id cost lat s).1
      within k cheap = more-Bounded n m _ k (commit_within-Bounded n e id cost lat s v cheap b)

      by_entry :
          (o : Option Reservation)
          → find id s.active_reservations ≡ o
          → over o cost + n ≤ m
          → Bounded m (commit e id cost lat s).1
      by_entry none found h = within (omega (arith, h)) (λ r there. absurd (cc (found, there)))
      by_entry (some r) found h = elim (Bool-cases (ltb_ℤ r.reserved_cost cost)) [
        | inl dear ↦
            more-Bounded (suc n) m _ (ground (arith, dear, h))
              (commit-Bounded n e id cost lat s v b)
        | inr cheap ↦ within (ground (arith, cheap, h)) λ q there.
            let same : r ≡ q = ap (λ o. elim o [ none ↦ r | some x ↦ x ]) (sym found ∙ there) in
            subst (λ x. cost ≤ℤ x.reserved_cost) same (ltb_ℤ→ge r.reserved_cost cost cheap)
      ]
  commit-Bounded_overrun (rollbacks e id) s v b h =
      more-Bounded n m _ (omega (arith, h)) (rollback-Bounded n e id s v b)
  commit-Bounded_overrun (expires now) s v b h =
      more-Bounded n m _ (omega (arith, h)) (expire_stale_reservations-Bounded n now s v b)

-- Each commit that costs more than its reservation uses 1e-9 of tolerance, and no other call any.
pub run-Bounded_overruns :
    (n m : ℕ) (cs : List Call) (s : State)
    → FreshIds cs s
    → Inv s
    → Bounded n s
    → n + overruns cs s ≤ m
    → Bounded m (run cs s)
unfolding run
run-Bounded_overruns n m [] s fresh v b h = more-Bounded n m s (omega (arith, h)) b
run-Bounded_overruns n m (c ∷ cs) s fresh v b h =
    run-Bounded_overruns (overrun_of c s + n) m cs (step c s) fresh.1 (step-Inv c s fresh.0 v)
      (commit-Bounded_overrun n (overrun_of c s + n) c s v b (omega arith)) (omega (arith, h))
