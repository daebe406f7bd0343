-- ===== src/Budget/Once.antt =====
-- A reservation of app/budget_manager.py is settled at most once, over whole histories.
use ai_routing.Prelude.{ℕ, ◌≡◌, some, arith, true, false, List, [], ◌∷◌, is_some}
use ai_routing.Prelude.Int.{ℤ}
use ai_routing.LockTrace.{Trace}
use ai_routing.Budget.Types.{
  State, ReservationState, committed, rolled_back, set_state, Env, Reservation, raise, find,
  lookup_state, contains, invalid_reservation_state,
}
use ai_routing.Budget.{commit, rollback, drop_unclamped, log_settle, new_reservation}
use ai_routing.Budget.Table.{find-id, contains-insert, contains-pop}
use ai_routing.Budget.Cases.{
  try_reserve_cases, commit_cases, rollback_cases, commit_active_cases, rollback_active_cases,
}
use ai_routing.Budget.Invariant.{Inv}
use ai_routing.Budget.Methods.{expire_cases}
use ai_routing.Budget.History.{
  Call, reserves, commits, rollbacks, expires, step, run, FreshId, FreshIds, step-Inv,
}

-- There is an object with this id, and the table does not hold it.
pub record Settled (id : ℕ) (s : State) : Type 0 where
  pub known : is_some (lookup_state id s.states) ≡ true
  pub gone : contains id s.active_reservations ≡ false

module _ (id : ℕ) where
  untraced : (s : State) (trace : Trace) → Settled id s → Settled id (record s { trace = trace })
  untraced s trace h = record { known = h.known; gone = h.gone }

  unclamped-Settled :
      (st : ReservationState) (r : Reservation) (s : State)
      → Inv s
      → Settled id s
      → Settled id (record (drop_unclamped r s) { states = set_state r.id st s.states })
  unclamped-Settled st r s v h = record {
    known = let k = h.known in ground arith;
    gone = let g = h.gone in ground (arith, contains-pop id r.id s.active_reservations v.distinct);
  }

  step-Settled : (c : Call) (s : State) → FreshId c s → Inv s → Settled id s → Settled id (step c s)
  unfolding step
  step-Settled (reserves e request_id cost lat) s fresh v h =
      try_reserve_cases (Settled id) untraced e request_id cost lat s h λ good fits. record {
        known = let k = h.known in ground arith;
        gone =
            let g = h.gone in
            let k = h.known in
            ground (
              arith,
              contains-insert id (new_reservation e s.manager cost lat) s.active_reservations,
            );
      }
  step-Settled (commits e j cost lat) s fresh v h =
      commit_cases (Settled id) untraced e j cost lat s h
        (λ r found. unclamped-Settled rolled_back r s v h)
        (λ r found within fits.
          let w = unclamped-Settled committed r s v h in record { known = w.known; gone = w.gone })
  step-Settled (rollbacks e j) s fresh v h = rollback_cases (Settled id) untraced e j s h λ r found.
      let w = unclamped-Settled rolled_back r s v h in record { known = w.known; gone = w.gone }
  step-Settled (expires now) s fresh v h =
      (expire_cases (Settled id)
        (λ r t w found k.
          let u = unclamped-Settled rolled_back r t w k in
          record { known = u.known; gone = u.gone })
        now s v h).1

  run-Settled :
      (cs : List Call) (s : State) → FreshIds cs s → Inv s → Settled id s → Settled id (run cs s)
  unfolding run
  run-Settled [] s fresh v h = h
  run-Settled (c ∷ cs) s fresh v h =
      run-Settled cs (step c s) fresh.1 (step-Inv c s fresh.0 v) (step-Settled c s fresh.0 v h)

-- The call settles the reservation `id`.
abbrev pub SettlesId : ℕ → Call → Type 0
SettlesId id (commits e j cost lat) = j ≡ id
SettlesId id (rollbacks e j) = j ≡ id
SettlesId id _ = ⊥

-- Taking the reservation out settles it.
dropped-Settled :
    (st : ReservationState) (id : ℕ) (r : Reservation) (s : State)
    → Inv s
    → find id s.active_reservations ≡ some r
    → Settled id (record (drop_unclamped r s) { states = set_state r.id st s.states })
dropped-Settled st id r s v found = record {
  known = ground (arith, find-id id r s.active_reservations found);
  gone = ground (
    arith,
    find-id id r s.active_reservations found,
    contains-pop id r.id s.active_reservations v.distinct,
  );
}

settle-Settled :
    (id : ℕ) (c : Call) (r : Reservation) (s : State)
    → SettlesId id c
    → Inv s
    → find id s.active_reservations ≡ some r
    → Settled id (step c s)
unfolding step
settle-Settled id (reserves e request_id cost lat) r s h v found = absurd h
settle-Settled id (commits e j cost lat) r s h v found =
    let w = dropped-Settled committed id r s v found in
    rw h (
      commit_active_cases (Settled id) (untraced id) e id cost lat r s found
        (dropped-Settled rolled_back id r s v found)
        (λ within fits. record { known = w.known; gone = w.gone }))
settle-Settled id (rollbacks e j) r s h v found =
    let w = dropped-Settled rolled_back id r s v found in
    rw h (
      rollback_active_cases (Settled id) (untraced id) e id r s found
        (record { known = w.known; gone = w.gone }))
settle-Settled id (expires now) r s h v found = absurd h

pub commit_gone :
    (e : Env) (id : ℕ) (cost lat : ℤ) (s : State)
    → contains id s.active_reservations ≡ false
    → commit e id cost lat s ≡ (raise invalid_reservation_state, log_settle e id s)
unfolding commit
commit_gone e id cost lat s h = ground arith

pub rollback_gone :
    (e : Env) (id : ℕ) (s : State)
    → contains id s.active_reservations ≡ false
    → rollback e id s ≡ (raise invalid_reservation_state, log_settle e id s)
unfolding rollback
rollback_gone e id s h = ground arith

-- Once an active reservation has been settled by a call of `commit` or `rollback`, then after any
-- further history every other attempt to settle it raises `InvalidReservationStateError` and changes
-- nothing but the lock trace. The ids that `uuid4` gives are new ones.
pub settled_once :
    (id : ℕ) (c : Call) (r : Reservation) (cs : List Call) (s : State)
    → SettlesId id c
    → Inv s
    → find id s.active_reservations ≡ some r
    → FreshIds (c ∷ cs) s
    → (e : Env) (cost lat : ℤ)
    → let t = run (c ∷ cs) s in
      (commit e id cost lat t ≡ (raise invalid_reservation_state, log_settle e id t))
      × (rollback e id t ≡ (raise invalid_reservation_state, log_settle e id t))
unfolding run
settled_once id c r cs s h v found fresh e cost lat =
    let settled = settle-Settled id c r s h v found in
    let w = run-Settled id cs (step c s) fresh.1 (step-Inv c s fresh.0 v) settled in
    (commit_gone e id cost lat _ w.gone, rollback_gone e id _ w.gone)
