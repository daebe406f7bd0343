-- ===== src/Budget/Settle.antt =====
-- Settling a reservation in app/budget_manager.py: what `commit` and `rollback` do to the amounts,
-- that a reservation is settled once, and that a rollback undoes a reservation.
use ai_routing.Prelude.{
  ℕ, ◌≡◌, ◌⊎◌, refl, some, none, arith, Bool-cases, inl, inr, false, List, [], ◌∷◌,
}
use ai_routing.Prelude.Int.{ℤ, ◌≤ℤ◌, ◌<ℤ◌, ◌+ℤ◌, ◌-ℤ◌, ltb_ℤ, ltb_ℤ→lt, ltb_ℤ→ge, int_laws}
use ai_routing.Budget.Types.{
  ReservationState, State, Env, Reservation, Result, ok, raise, find, lookup_state, contains, pop,
  insert, committed, rolled_back, actual_cost_exceeded, actual_latency_exceeded,
}
use ai_routing.LockTrace.{Trace}
use ai_routing.Budget.{
  try_reserve, new_reservation, eps_9, enter, rollback, commit, commit_found, drop_unclamped,
}
use ai_routing.Budget.Invariant.{Inv, clamps, enter-Inv}
use ai_routing.Budget.Admission.{Admissible, admitted}

-- The amounts that a reservation holds are back in the pool, and its object is in state `st`.
pub record Released (st : ReservationState) (r : Reservation) (s t : State) : Type 0 where
  pub cost : t.reserved_for_execution +ℤ r.reserved_cost ≡ s.reserved_for_execution
  pub latency : t.reserved_latency_ms +ℤ r.reserved_latency_ms ≡ s.reserved_latency_ms
  pub table : t.active_reservations ≡ pop r.id s.active_reservations
  pub state : lookup_state r.id t.states ≡ some st

-- What `commit` does with an active reservation, by the actual amounts.
abbrev pub Settles : Reservation → ℤ → ℤ → State → Result (Unit {0}) × State → Type 0
Settles r cost lat s (ok _, t) =
    Released committed r s t
    × (cost ≤ℤ r.reserved_cost +ℤ eps_9)
    × (s.cumulative_actual_latency_ms +ℤ lat ≤ℤ s.max_cumulative_latency_ms +ℤ eps_9)
    × (t.cumulative_remote_cost ≡ s.cumulative_remote_cost +ℤ cost)
    × (t.cumulative_actual_latency_ms ≡ s.cumulative_actual_latency_ms +ℤ lat)
Settles r cost lat s (raise e, t) =
    Released rolled_back r s t
    × (t.cumulative_remote_cost ≡ s.cumulative_remote_cost)
    × (t.cumulative_actual_latency_ms ≡ s.cumulative_actual_latency_ms)
    × (((e ≡ actual_cost_exceeded) × (r.reserved_cost +ℤ eps_9 <ℤ cost))
        ⊎ ((e ≡ actual_latency_exceeded)
            × (s.max_cumulative_latency_ms +ℤ eps_9 <ℤ s.cumulative_actual_latency_ms +ℤ lat)))

unclamped-Released : (r : Reservation) (s : State) → Released rolled_back r s (drop_unclamped r s)
unclamped-Released r s = record {
  cost = omega int_laws;
  latency = omega int_laws;
  table = refl;
  state = ground arith;
}

commit_found-Settles :
    (id : ℕ) (r : Reservation) (cost lat : ℤ) (s : State)
    → Inv s
    → find id s.active_reservations ≡ some r
    → Settles r cost lat s (commit_found r cost lat s)
unfolding commit_found
commit_found-Settles id r cost lat s v e =
    let back = unclamped-Released r s in
    let c = clamps id r s v e in
    elim (Bool-cases (ltb_ℤ (r.reserved_cost +ℤ eps_9) cost)) [
      | inl over ↦
          rw over (back, refl, refl, inl (refl, ltb_ℤ→lt (r.reserved_cost +ℤ eps_9) cost over))
      | inr within ↦
          elim (Bool-cases (
            ltb_ℤ (s.max_cumulative_latency_ms +ℤ eps_9) (s.cumulative_actual_latency_ms +ℤ lat))) [
              | inl late ↦
                  rw (within, late)
                    (
                      back,
                      refl,
                      refl,
                      inr (
                        refl,
                        ltb_ℤ→lt (s.max_cumulative_latency_ms +ℤ eps_9)
                            (s.cumulative_actual_latency_ms +ℤ lat) late,
                      ),
                    )
              | inr fits ↦
                  rw (within, fits, c.0, c.1)
                    (
                      record {
                        cost = back.cost;
                        latency = back.latency;
                        table = refl;
                        state = ground arith;
                      },
                      ltb_ℤ→ge (r.reserved_cost +ℤ eps_9) cost within,
                      ltb_ℤ→ge (s.max_cumulative_latency_ms +ℤ eps_9)
                          (s.cumulative_actual_latency_ms +ℤ lat) fits,
                      refl,
                      refl,
                    )
            ]
    ]

-- The trace is no part of it.
untraced :
    (r : Reservation) (cost lat : ℤ) (s : State) (res : Result (Unit {0})) (t : State)
    (trace : Trace)
    → Settles r cost lat s (res, t)
    → Settles r cost lat s (res, record t { trace = trace })
untraced r cost lat s (ok _) t trace h = (
  record { cost = h.0.cost; latency = h.0.latency; table = h.0.table; state = h.0.state },
  h.1,
  h.2,
  h.3,
  h.4,
)
untraced r cost lat s (raise e) t trace h = (
  record { cost = h.0.cost; latency = h.0.latency; table = h.0.table; state = h.0.state },
  h.1,
  h.2,
  h.3,
)

-- `commit` of an active reservation takes it out of the table and gives back exactly what it held,
-- whatever the outcome. It succeeds only within the two tolerances, and then books exactly the
-- actual amounts; otherwise it names the limit that was passed, books nothing, and the reservation
-- is rolled back.
pub commit-Settles :
    (e : Env) (id : ℕ) (r : Reservation) (cost lat : ℤ) (s : State)
    → Inv s
    → find id s.active_reservations ≡ some r
    → Settles r cost lat s (commit e id cost lat s)
unfolding commit
commit-Settles e id r cost lat s v found =
    rw (found, commit)
      (untraced r cost lat s (commit_found r cost lat s).0 (commit_found r cost lat s).1 _
        (commit_found-Settles id r cost lat s v found))

pop-insert :
    (r : Reservation) (rs : List Reservation)
    → contains r.id rs ≡ false
    → pop r.id (insert r rs) ≡ rs
pop-insert r [] h = ground arith
pop-insert r (x ∷ rs) h = ground (arith, pop-insert r rs)

find-insert : (r : Reservation) (rs : List Reservation) → find r.id (insert r rs) ≡ some r
find-insert r [] = ground arith
find-insert r (x ∷ rs) = ground (arith, find-insert r rs)

absent :
    (id : ℕ) (s : State)
    → Inv s
    → lookup_state id s.states ≡ none
    → contains id s.active_reservations ≡ false
absent id s v fresh = ground (arith, v.pending_active id)

add-sub : (a b : ℤ) → a +ℤ b -ℤ b ≡ a
add-sub a b = omega int_laws

rollback-enter :
    (e : Env) (r : Reservation) (s : State) (trace : Trace)
    → Inv s
    → Inv (enter r s)
    → contains r.id s.active_reservations ≡ false
    → let (res, t) = rollback e r.id (record (enter r s) { trace = trace }) in
      (res ≡ ok tt) × (t.manager ≡ s.manager) × (lookup_state r.id t.states ≡ some rolled_back)
unfolding rollback
rollback-enter e r s trace v w new =
    let found = find-insert r s.active_reservations in
    let c = clamps r.id r (enter r s) w found in
    rw
      (
        found,
        rollback,
        c.0,
        c.1,
        add-sub s.reserved_for_execution r.reserved_cost,
        add-sub s.reserved_latency_ms r.reserved_latency_ms,
        pop-insert r s.active_reservations new,
      )
      (refl, refl, ground arith)

-- Rolling back what was just reserved gives back the manager as it was, field by field, and leaves
-- the object rolled back. The request is admissible and the id a new one.
pub rollback-try_reserve :
    (e e' : Env) (request_id : ℕ) (cost lat : ℤ) (s : State)
    → Inv s
    → lookup_state e.new_id s.states ≡ none
    → Admissible s.manager cost lat
    → let (res, t) = rollback e' e.new_id (try_reserve e request_id cost lat s).1 in
      (res ≡ ok tt) × (t.manager ≡ s.manager) × (lookup_state e.new_id t.states ≡ some rolled_back)
unfolding try_reserve
rollback-try_reserve e e' request_id cost lat s v fresh a =
    let r = new_reservation e s.manager cost lat in
    let passed = admitted s.manager cost lat a in
    let w = enter-Inv r s a.cost_nonneg a.latency_nonneg fresh v in
    rw (passed.0, passed.1) (rollback-enter e' r s _ v w (absent e.new_id s v fresh))

-- An active reservation is rolled back, and nothing is booked.
pub record RolledBack (r : Reservation) (s t : State) : Type 0 where
  pub released : Released rolled_back r s t
  pub cost_kept : t.cumulative_remote_cost ≡ s.cumulative_remote_cost
  pub latency_kept : t.cumulative_actual_latency_ms ≡ s.cumulative_actual_latency_ms

pub rollback-RolledBack :
    (e : Env) (id : ℕ) (r : Reservation) (s : State)
    → Inv s
    → find id s.active_reservations ≡ some r
    → RolledBack r s (rollback e id s).1
unfolding rollback
rollback-RolledBack e id r s v found =
    let c = clamps id r s v found in
    rw (found, rollback, c.0, c.1)
      (record {
        released = record {
          cost = omega int_laws;
          latency = omega int_laws;
          table = refl;
          state = ground arith;
        };
        cost_kept = refl;
        latency_kept = refl;
      })
