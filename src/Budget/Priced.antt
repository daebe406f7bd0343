-- ===== src/Budget/Priced.antt =====
-- What is reserved under an id of app/budget_manager.py, over whole histories: a cost that no other
-- call changes.
use ai_routing.Prelude.{
  ℕ, ◌≡◌, refl, ap, subst, true, some, List, [], ◌∷◌, arith, is_some, if◌then◌else◌, inl, inr, ◌==◌,
  Option-cases,
}
use ai_routing.Prelude.Int.{ℤ, pos, ◌≤ℤ◌}
use ai_routing.LockTrace.{Trace}
use ai_routing.Budget.Types.{
  State, ReservationState, committed, rolled_back, set_state, Reservation, find, lookup_state,
  contains, pop, insert,
}
use ai_routing.Budget.{drop_unclamped, new_reservation, enter}
use ai_routing.Budget.Table.{IsDistinct, find-NonNeg}
use ai_routing.Budget.Cases.{try_reserve_cases, commit_cases, rollback_cases}
use ai_routing.Budget.Invariant.{Inv, cost_of}
use ai_routing.Budget.Methods.{expire_cases}
use ai_routing.Budget.History.{
  Call, reserves, commits, rollbacks, expires, step, run, FreshId, FreshIds, step-Inv, run-Inv,
}
use ai_routing.Budget.Overruns.{overrun}
use ai_routing.Budget.Called.{Called}

-- There is an object with this id, and while the table holds it, its reserved cost is `c`.
pub record Priced (c : ℤ) (id : ℕ) (s : State) : Type 0 where
  pub known : is_some (lookup_state id s.states) ≡ true
  pub price : (r : Reservation) → find id s.active_reservations ≡ some r → r.reserved_cost ≡ c

find-insert :
    (j : ℕ) (r : Reservation) (rs : List Reservation)
    → find j (insert r rs) ≡ (if j == r.id then some r else find j rs)
find-insert j r [] = refl
find-insert j r (x ∷ rs) = ground (arith, find-insert j r rs)

find-contains :
    (j : ℕ) (r : Reservation) (rs : List Reservation) → find j rs ≡ some r → contains j rs ≡ true
find-contains j r rs e = ground arith

-- What is found after a removal was there before.
find-pop :
    (j id : ℕ) (r : Reservation) (rs : List Reservation)
    → IsDistinct rs
    → find j (pop id rs) ≡ some r
    → find j rs ≡ some r
find-pop j id r [] distinct found = found
find-pop j id r (x ∷ rs) distinct found =
    ground (arith, find-pop j id r rs distinct.1, find-contains j r rs)

module _ (c : ℤ) (id : ℕ) where
  untraced : (s : State) (trace : Trace) → Priced c id s → Priced c id (record s { trace = trace })
  untraced s trace h = record { known = h.known; price = h.price }

  dropped-Priced :
      (st : ReservationState) (r : Reservation) (s : State)
      → Inv s
      → Priced c id s
      → Priced c id (record (drop_unclamped r s) { states = set_state r.id st s.states })
  dropped-Priced st r s v h = record {
    known = let k = h.known in ground arith;
    price = λ q there. h.price q (find-pop id r.id q s.active_reservations v.distinct there);
  }

  step-Priced :
      (a : Call) (s : State) → FreshId a s → Inv s → Priced c id s → Priced c id (step a s)
  unfolding step
  step-Priced (reserves e request_id cost lat) s fresh v h =
      try_reserve_cases (Priced c id) untraced e request_id cost lat s h λ good fits. record {
        known = let k = h.known in ground arith;
        price = λ q there. h.price q (
            let k = h.known in
            ground (
              arith,
              k,
              fresh,
              there,
              find-insert id (new_reservation e s.manager cost lat) s.active_reservations,
            ));
      }
  step-Priced (commits e j cost lat) s fresh v h =
      commit_cases (Priced c id) untraced e j cost lat s h
        (λ r found. dropped-Priced rolled_back r s v h)
        (λ r found within fits.
          let w = dropped-Priced committed r s v h in record { known = w.known; price = w.price })
  step-Priced (rollbacks e j) s fresh v h = rollback_cases (Priced c id) untraced e j s h λ r found.
      let w = dropped-Priced rolled_back r s v h in record { known = w.known; price = w.price }
  step-Priced (expires now) s fresh v h =
      (expire_cases (Priced c id)
        (λ r t w found k.
          let u = dropped-Priced rolled_back r t w k in record { known = u.known; price = u.price })
        now s v h).1

  run-Priced :
      (cs : List Call) (s : State) → FreshIds cs s → Inv s → Priced c id s → Priced c id (run cs s)
  unfolding run
  run-Priced [] s fresh v h = h
  run-Priced (a ∷ cs) s fresh v h =
      run-Priced cs (step a s) fresh.1 (step-Inv a s fresh.0 v) (step-Priced a s fresh.0 v h)

  -- No call changes what is reserved under the id.
  pub Called-Priced :
      {n m : ℕ} (s t : State) → Called n m s t → Inv s → Priced c id s → Priced c id t
  Called-Priced s t called v h =
      subst (Priced c id) called.reaches (run-Priced called.calls s called.fresh v h)

-- An entered reservation has its cost.
pub entered-Priced :
    (r : Reservation) (s t : State)
    → t.manager ≡ (enter r s).manager
    → t.states ≡ (enter r s).states
    → Priced r.reserved_cost r.id t
entered-Priced r s t same objects = record {
  known = rw objects (ground arith);
  price = λ q there.
      let found = ap (λ m. find r.id m.active_reservations) same in
      ground (arith, there, found, find-insert r.id r s.active_reservations);
}

-- A commit within what is reserved is no overrun.
pub Priced-overrun :
    (c cost : ℤ) (id : ℕ) (s : State) → Priced c id s → cost ≤ℤ c → overrun id cost s ≡ 0
Priced-overrun c cost id s h within = elim (Option-cases (find id s.active_reservations)) [
  | inl missing ↦ rw missing refl
  | inr (r, found) ↦ rw found (ground (arith, h.price r found, within))
]

pub Called-Inv : {n m : ℕ} (s t : State) → Called n m s t → Inv s → Inv t
Called-Inv s t called v = subst Inv called.reaches (run-Inv called.calls s called.fresh v)

-- A commit of no cost is none.
pub free-overrun : (id : ℕ) (s : State) → Inv s → overrun id (pos 0) s ≡ 0
free-overrun id s v = elim (Option-cases (find id s.active_reservations)) [
  | inl missing ↦ rw missing refl
  | inr (r, found) ↦
      rw found (ground (arith, find-NonNeg cost_of id r s.active_reservations found v.cost_nonneg))
]
