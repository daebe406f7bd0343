-- ===== src/Budget/Types.antt =====
-- The data of app/budget_manager.py: reservations, the manager's fields, exceptions.
use ai_routing.Prelude.{
  ℕ, Bool, true, false, Option, none, some, List, [], ◌∷◌, length, ◌==◌, if◌then◌else◌,
}
use ai_routing.Prelude.Int.{ℤ, ◌-ℤ◌, ltb_ℤ}
use ai_routing.LockTrace.{Trace}

-- `Reservation._state`
pub data ReservationState : Type 0 where
  pending committed rolled_back : ReservationState

-- The fields of a `Reservation` that never change. Its `_state` is in `State.states`, since the
-- caller and the manager share the object.
pub record Reservation : Type 0 where
  pub id : ℕ
  pub reserved_cost : ℤ
  pub reserved_latency_ms : ℤ
  pub ttl_seconds : ℤ
  pub created_at : ℤ

-- `Reservation.is_expired`, at the clock reading `now`.
abbrev pub is_expired : ℤ → Reservation → Bool
is_expired now r = ltb_ℤ r.ttl_seconds (now -ℤ r.created_at)

-- The states of all reservation objects, by id.
abbrev pub States : Type 0
States = List (ℕ × ReservationState)

abbrev pub lookup_state : ℕ → States → Option ReservationState
lookup_state id [] = none
lookup_state id ((j, st) ∷ m) = if id == j then some st else lookup_state id m

-- An assignment to `reservation._state`.
abbrev pub set_state : ℕ → ReservationState → States → States
set_state id st m = (id, st) ∷ m

-- `reservation.state == "pending"`, for the object with this id.
abbrev pub is_pending : ℕ → States → Bool
is_pending id m = elim (lookup_state id m) [ some pending ↦ true | _ ↦ false ]

-- `BudgetManager`'s fields. `_active_reservations` maps the id of each object to the object; it
-- keeps the order of insertion.
pub record Manager : Type 0 where
  pub max_remote_budget : ℤ
  pub max_cumulative_latency_ms : ℤ
  pub reservation_ttl_seconds : ℤ
  pub cumulative_remote_cost : ℤ
  pub reserved_for_execution : ℤ
  pub cumulative_actual_latency_ms : ℤ
  pub reserved_latency_ms : ℤ
  pub active_reservations : List Reservation

-- A manager with what its methods reach: the reservation objects and the lock trace.
pub record State : Type 0 where
  pub manager : Manager
  pub open manager use *
  pub states : States
  pub trace : Trace

-- What one call reads from the clocks and from `uuid4`.
pub record Env : Type 0 where
  pub acquire_us : ℕ
  pub release_us : ℕ
  pub now : ℤ
  pub new_id : ℕ

pub data Error : Type 0 where
  value_error invalid_reservation_state actual_cost_exceeded actual_latency_exceeded : Error

pub data Result (A : Type 0) : Type 0 where
  ok : A → Result A
  raise : Error → Result A

abbrev pub find : ℕ → List Reservation → Option Reservation
find id [] = none
find id (r ∷ rs) = if id == r.id then some r else find id rs

-- `id in self._active_reservations`
abbrev pub contains : ℕ → List Reservation → Bool
contains id rs = elim (find id rs) [ none ↦ false | some _ ↦ true ]

-- `self._active_reservations[r.id] = r`
abbrev pub insert : Reservation → List Reservation → List Reservation
insert r [] = r ∷ []
insert r (x ∷ rs) = if r.id == x.id then r ∷ rs else x ∷ insert r rs

-- `self._active_reservations.pop(id)`
abbrev pub pop : ℕ → List Reservation → List Reservation
pop id [] = []
pop id (r ∷ rs) = if id == r.id then rs else r ∷ pop id rs

-- `active_reservation_count`
unfoldable pub active_reservation_count : Manager → ℕ
active_reservation_count m = length m.active_reservations
