-- ===== src/Budget/Leaves.antt =====
-- Which reservations a settlement of app/budget_manager.py leaves in the table.
use ai_routing.Prelude.{
  ℕ, ◌≡◌, true, false, none, some, arith, inl, inr, ◌==◌, if◌then◌else◌, Option-cases,
}
use ai_routing.Prelude.Int.{ℤ}
use ai_routing.LockTrace.{Trace}
use ai_routing.Budget.Types.{State, Env, Reservation, find, contains, pop, ok, is_pending}
use ai_routing.Budget.{commit, rollback}
use ai_routing.Budget.Table.{find-id, contains-pop}
use ai_routing.Budget.Cases.{commit_active_cases, rollback_active_cases}
use ai_routing.Budget.Invariant.{Inv}
use ai_routing.Budget.Once.{commit_gone, rollback_gone}

-- The table holds what it held but `id`.
abbrev pub Without : ℕ → State → State → Type 0
Without id s t =
    (j : ℕ)
    → contains j t.active_reservations
      ≡ (if j == id then false else contains j s.active_reservations)

module _ (id : ℕ) (s : State) (v : Inv s) where
  untraced :
      (t : State) (trace : Trace) → Without id s t → Without id s (record t { trace = trace })
  untraced t trace h = h

  popped :
      (r : Reservation)
      → find id s.active_reservations ≡ some r
      → (j : ℕ)
      → contains j (pop r.id s.active_reservations)
        ≡ (if j == id then false else contains j s.active_reservations)
  popped r found j = ground (
    arith,
    find-id id r s.active_reservations found,
    contains-pop j r.id s.active_reservations v.distinct,
  )

  absent : contains id s.active_reservations ≡ false → Without id s s
  absent gone j = ground arith

  missing-contains :
      find id s.active_reservations ≡ none → contains id s.active_reservations ≡ false
  missing-contains h = ground arith

  pub commit-Without : (e : Env) (cost lat : ℤ) → Without id s (commit e id cost lat s).1
  commit-Without e cost lat = elim (Option-cases (find id s.active_reservations)) [
    | inl missing ↦
        let gone = missing-contains missing in rw (commit_gone e id cost lat s gone) (absent gone)
    | inr (r, found) ↦
        commit_active_cases (Without id s) untraced e id cost lat r s found (popped r found)
          (λ within fits. popped r found)
  ]

  pub rollback-Without : (e : Env) → Without id s (rollback e id s).1
  rollback-Without e = elim (Option-cases (find id s.active_reservations)) [
    | inl missing ↦
        let gone = missing-contains missing in rw (rollback_gone e id s gone) (absent gone)
    | inr (r, found) ↦ rollback_active_cases (Without id s) untraced e id r s found (popped r found)
  ]

  -- The rollback of a pending reservation does not raise.
  pub rollback_pending_ok : (e : Env) → is_pending id s.states ≡ true → (rollback e id s).0 ≡ ok tt
  unfolding rollback
  rollback_pending_ok e h = ground (arith, v.pending_active id)
