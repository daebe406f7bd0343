-- ===== src/Budget/Methods.antt =====
-- Every method of `BudgetManager` (app/budget_manager.py) keeps the ledger invariant.
use ai_routing.Prelude.{
  ℕ, ◌≡◌, refl, false, some, none, subst, inl, inr, arith, List, [], ◌∷◌, Bool-cases,
}
use ai_routing.Prelude.Int.{ℤ, pos, ◌≤ℤ◌, leb_ℤ}
use ai_routing.Budget.Types.{
  State, Manager, Reservation, committed, rolled_back, Env, ok, find, lookup_state, is_expired,
}
use ai_routing.Budget.{
  init, new_manager, try_reserve, bad_request, new_reservation, commit, drop_clamped, rollback,
  expire_loop, expire_stale_reservations,
}
use ai_routing.Budget.Table.{sum_of, IsDistinct, Held, Held-pop, Held-self}
use ai_routing.Budget.Cases.{try_reserve_cases, commit_cases, rollback_cases}
use ai_routing.Budget.Invariant.{
  Inv, removal-Inv, enter-Inv, trace-Inv, drop_clamped-Inv, spend-Inv,
}

-- Amounts that pass the argument checks are not negative.
not_bad : (cost lat : ℤ) → bad_request cost lat ≡ false → (pos 0 ≤ℤ cost) × (pos 0 ≤ℤ lat)
not_bad cost lat h = ground arith

pub try_reserve-Inv :
    (e : Env) (request_id : ℕ) (cost lat : ℤ) (s : State)
    → lookup_state e.new_id s.states ≡ none
    → Inv s
    → Inv (try_reserve e request_id cost lat s).1
try_reserve-Inv e request_id cost lat s fresh v =
    try_reserve_cases Inv trace-Inv e request_id cost lat s v λ good fits.
      let nonneg = not_bad cost lat good in
      enter-Inv (new_reservation e s.manager cost lat) s nonneg.0 nonneg.1 fresh v

pub commit-Inv :
    (e : Env) (id : ℕ) (cost lat : ℤ) (s : State) → Inv s → Inv (commit e id cost lat s).1
commit-Inv e id cost lat s v =
    commit_cases Inv trace-Inv e id cost lat s v
      (λ r found. removal-Inv rolled_back id r s (λ q. cc) v found)
      (λ r found within fits.
        spend-Inv cost lat _ (drop_clamped-Inv committed id r s (λ q. cc) v found))

pub rollback-Inv : (e : Env) (id : ℕ) (s : State) → Inv s → Inv (rollback e id s).1
rollback-Inv e id s v =
    rollback_cases Inv trace-Inv e id s v
      (λ r found. drop_clamped-Inv rolled_back id r s (λ q. cc) v found)

module _ {ℓ} (P : State → Type ℓ)
    (drop : (r : Reservation) (s : State)
      → Inv s
      → find r.id s.active_reservations ≡ some r
      → P s
      → P (drop_clamped rolled_back r s)) where
  expire_loop_cases :
      (now : ℤ) (xs : List Reservation) (s : State)
      → IsDistinct xs
      → Held xs s.active_reservations
      → Inv s
      → P s
      → Inv (expire_loop now xs s).1 × P (expire_loop now xs s).1
  unfolding expire_loop
  expire_loop_cases now [] s d h v p = (v, p)
  expire_loop_cases now (r ∷ xs) s d h v p = elim (Bool-cases (is_expired now r)) [
    | inl old ↦ rw old (
        expire_loop_cases now xs (drop_clamped rolled_back r s) d.1
          (Held-pop r.id xs s.active_reservations d.0 h.1)
          (drop_clamped-Inv rolled_back r.id r s (λ q. cc) v h.0) (drop r s v h.0 p))
    | inr young ↦ rw young (expire_loop_cases now xs s d.1 h.1 v p)
  ]

  -- A predicate that survives the loss of any one reservation survives the reaper, which keeps the
  -- invariant too.
  pub expire_cases :
      (now : ℤ) (s : State)
      → Inv s
      → P s
      → Inv (expire_stale_reservations now s).1 × P (expire_stale_reservations now s).1
  unfolding expire_stale_reservations
  expire_cases now s v p =
      expire_loop_cases now s.active_reservations s v.distinct
        (Held-self s.active_reservations v.distinct) v p

pub expire_stale_reservations-Inv :
    (now : ℤ) (s : State) → Inv s → Inv (expire_stale_reservations now s).1
expire_stale_reservations-Inv now s v =
    (expire_cases (λ _. Unit {0}) (λ r t w e p. tt) now s v tt).0

-- A new manager has an empty table.
abbrev pub fresh_state : Manager → State
fresh_state m = record { manager = m; states = []; trace = [] }

pub new_manager-Inv :
    (max_budget max_latency ttl : ℤ) → Inv (fresh_state (new_manager max_budget max_latency ttl))
unfolding sum_of
new_manager-Inv max_budget max_latency ttl = record {
  distinct = tt;
  cost_nonneg = tt;
  latency_nonneg = tt;
  cost_sum = refl;
  latency_sum = refl;
  pending_active = λ id. refl;
}

ok-injective : {A : Type 0} (a b : A) → ok a ≡ ok b → a ≡ b
ok-injective a b h = cc

pub init-Inv :
    (max_budget max_latency ttl : ℤ) (m : Manager)
    → init max_budget max_latency ttl ≡ ok m
    → Inv (fresh_state m)
unfolding init
init-Inv max_budget max_latency ttl m h = elim (Bool-cases (leb_ℤ max_budget (pos 0))) [
  | inl bad ↦ absurd (cc (rw bad at h))
  | inr good ↦
      subst (λ n. Inv (fresh_state n)) (ok-injective _ m (rw good at h))
        (new_manager-Inv max_budget max_latency ttl)
]
