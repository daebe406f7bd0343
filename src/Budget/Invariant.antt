-- ===== src/Budget/Invariant.antt =====
-- The ledger invariant of app/budget_manager.py, and the two state changes that settle a
-- reservation.
use ai_routing.Prelude.{ℕ, ◌≡◌, ◌≢◌, true, false, some, none, arith}
use ai_routing.Prelude.Int.{ℤ, pos, ◌-ℤ◌, ◌≤ℤ◌, max_ℤ, int_laws, max_ℤ-eq_right}
use ai_routing.Budget.Types.{
  State, Reservation, ReservationState, pending, lookup_state, is_pending, set_state, find,
  contains, pop,
}
use ai_routing.Budget.{drop_clamped, drop_unclamped, enter, spend}
use ai_routing.LockTrace.{Trace}
use ai_routing.Budget.Table.{
  IsDistinct, NonNeg, sum_of, find-id, contains-insert, contains-pop, insert-IsDistinct,
  pop-IsDistinct, sum_of-insert, sum_of-pop, insert-NonNeg, pop-NonNeg, sum_of_nonneg,
}

abbrev pub cost_of : Reservation → ℤ
cost_of r = r.reserved_cost

abbrev pub latency_of : Reservation → ℤ
latency_of r = r.reserved_latency_ms

-- The reserved totals are the sums over the table, no reserved amount is negative, and a
-- reservation object is pending exactly while the table holds it.
pub record Inv (s : State) : Type 0 where
  pub distinct : IsDistinct s.active_reservations
  pub cost_nonneg : NonNeg cost_of s.active_reservations
  pub latency_nonneg : NonNeg latency_of s.active_reservations
  pub cost_sum : s.reserved_for_execution ≡ sum_of cost_of s.active_reservations
  pub latency_sum : s.reserved_latency_ms ≡ sum_of latency_of s.active_reservations
  pub pending_active : (id : ℕ) → contains id s.active_reservations ≡ is_pending id s.states

find-contains :
    (id : ℕ) (r : Reservation) (s : State)
    → find id s.active_reservations ≡ some r
    → contains id s.active_reservations ≡ true
find-contains id r s e = ground arith

-- What is left of a reserved total once a reservation of the table is taken out.
module _ (f : Reservation → ℤ) (total : ℤ) (id : ℕ) (r : Reservation) (s : State) where
  pub left-eq_sum :
      total ≡ sum_of f s.active_reservations
      → find id s.active_reservations ≡ some r
      → total -ℤ f r ≡ sum_of f (pop id s.active_reservations)
  left-eq_sum h e = grind (int_laws, sum_of-pop f id r s.active_reservations e)

  pub left_nonneg :
      total ≡ sum_of f s.active_reservations
      → NonNeg f s.active_reservations
      → find id s.active_reservations ≡ some r
      → pos 0 ≤ℤ total -ℤ f r
  left_nonneg h n e =
      rw (left-eq_sum h e)
        (sum_of_nonneg f (pop id s.active_reservations) (pop-NonNeg f id s.active_reservations n))

-- The two clamped amounts, unclamped.
pub clamps :
    (id : ℕ) (r : Reservation) (s : State)
    → Inv s
    → find id s.active_reservations ≡ some r
    → (max_ℤ (pos 0) (s.reserved_for_execution -ℤ r.reserved_cost)
        ≡ s.reserved_for_execution -ℤ r.reserved_cost)
      × (max_ℤ (pos 0) (s.reserved_latency_ms -ℤ r.reserved_latency_ms)
          ≡ s.reserved_latency_ms -ℤ r.reserved_latency_ms)
clamps id r s v e = (
  max_ℤ-eq_right _ (left_nonneg cost_of s.reserved_for_execution id r s v.cost_sum v.cost_nonneg e),
  max_ℤ-eq_right _
      (left_nonneg latency_of s.reserved_latency_ms id r s v.latency_sum v.latency_nonneg e),
)

-- The clamps at zero never act: both ways of taking a reservation out agree but for its last state.
pub drop_clamped-eq :
    (st : ReservationState) (id : ℕ) (r : Reservation) (s : State)
    → Inv s
    → find id s.active_reservations ≡ some r
    → drop_clamped st r s ≡ record (drop_unclamped r s) { states = set_state r.id st s.states }
drop_clamped-eq st id r s v e = let c = clamps id r s v e in rw (c.0, c.1)

-- Taking a reservation out, into a state that is not pending, keeps the invariant.
pub removal-Inv :
    (st : ReservationState) (id : ℕ) (r : Reservation) (s : State)
    → st ≢ pending
    → Inv s
    → find id s.active_reservations ≡ some r
    → Inv (record (drop_unclamped r s) { states = set_state r.id st s.states })
removal-Inv st id r s ne v e = record {
  distinct = pop-IsDistinct r.id s.active_reservations v.distinct;
  cost_nonneg = pop-NonNeg cost_of r.id s.active_reservations v.cost_nonneg;
  latency_nonneg = pop-NonNeg latency_of r.id s.active_reservations v.latency_nonneg;
  cost_sum = left-eq_sum cost_of s.reserved_for_execution r.id r s v.cost_sum own;
  latency_sum = left-eq_sum latency_of s.reserved_latency_ms r.id r s v.latency_sum own;
  pending_active =
      λ j. ground (arith, contains-pop j r.id s.active_reservations v.distinct, v.pending_active j);
}
  where
    own : find r.id s.active_reservations ≡ some r
    own = simp (find-id id r s.active_reservations e) e

-- Entering a new object under an id that no object has keeps the invariant.
pub enter-Inv :
    (r : Reservation) (s : State)
    → pos 0 ≤ℤ r.reserved_cost
    → pos 0 ≤ℤ r.reserved_latency_ms
    → lookup_state r.id s.states ≡ none
    → Inv s
    → Inv (enter r s)
enter-Inv r s hc hl fresh v = record {
  distinct = insert-IsDistinct r s.active_reservations v.distinct;
  cost_nonneg = insert-NonNeg cost_of r s.active_reservations hc v.cost_nonneg;
  latency_nonneg = insert-NonNeg latency_of r s.active_reservations hl v.latency_nonneg;
  cost_sum = grind (int_laws, sum_of-insert cost_of r s.active_reservations absent, v.cost_sum);
  latency_sum =
      grind (int_laws, sum_of-insert latency_of r s.active_reservations absent, v.latency_sum);
  pending_active =
      λ j. ground (arith, contains-insert j r s.active_reservations, v.pending_active j);
}
  where
    absent : contains r.id s.active_reservations ≡ false
    absent = ground (arith, v.pending_active r.id)

-- The trace is no part of it.
pub trace-Inv : (s : State) (trace : Trace) → Inv s → Inv (record s { trace = trace })
trace-Inv s trace v = record {
  distinct = v.distinct;
  cost_nonneg = v.cost_nonneg;
  latency_nonneg = v.latency_nonneg;
  cost_sum = v.cost_sum;
  latency_sum = v.latency_sum;
  pending_active = v.pending_active;
}

pub drop_clamped-Inv :
    (st : ReservationState) (id : ℕ) (r : Reservation) (s : State)
    → st ≢ pending
    → Inv s
    → find id s.active_reservations ≡ some r
    → Inv (drop_clamped st r s)
drop_clamped-Inv st id r s ne v e =
    rw (drop_clamped-eq st id r s v e) (removal-Inv st id r s ne v e)

pub spend-Inv : (cost lat : ℤ) (s : State) → Inv s → Inv (spend cost lat s)
spend-Inv cost lat s v = record {
  distinct = v.distinct;
  cost_nonneg = v.cost_nonneg;
  latency_nonneg = v.latency_nonneg;
  cost_sum = v.cost_sum;
  latency_sum = v.latency_sum;
  pending_active = v.pending_active;
}
