-- ===== src/Budget.antt =====
-- app/budget_manager.py: the two-phase reservation protocol.
-- A method is one atomic step: no `await` stands between taking and releasing `_lock`, so the lock
-- is never held when another coroutine runs. The clock's readings and the new uuid are arguments.
mod Types
pub mod Table
pub mod Cases
pub mod Invariant
pub mod Methods
pub mod Bounds
pub mod Caps
pub mod History
pub mod Overspend
pub mod Admission
pub mod Settle
pub mod Once
pub mod Leaves
pub mod Reaper
pub mod Called
pub mod Sections
pub mod Age
pub mod Overruns
pub mod Priced
mod Tests
unfoldable pub use Types.*
use ai_routing.Prelude.{ℕ, Bool, true, ◌||◌, ◌&&◌, Option, none, some, List, [], ◌∷◌, if◌then◌else◌}
use ai_routing.Prelude.Int.{ℤ, pos, ◌+ℤ◌, ◌-ℤ◌, ltb_ℤ, leb_ℤ, eqb_ℤ, max_ℤ}
use ai_routing.LockTrace.{lock_event, reserve, settle, acquire, release}

-- The tolerances 1e-12 and 1e-9, in ticks.
abbrev pub eps_12 : ℤ
eps_12 = pos 1

abbrev pub eps_9 : ℤ
eps_9 = pos 1000

abbrev pub new_manager : ℤ → ℤ → ℤ → Manager
new_manager max_budget max_latency ttl = record {
  max_remote_budget = max_budget;
  max_cumulative_latency_ms = max_latency;
  reservation_ttl_seconds = ttl;
  cumulative_remote_cost = pos 0;
  reserved_for_execution = pos 0;
  cumulative_actual_latency_ms = pos 0;
  reserved_latency_ms = pos 0;
  active_reservations = [];
}

-- `BudgetManager.__init__`
unfoldable pub init : ℤ → ℤ → ℤ → Result Manager
init max_budget max_latency ttl =
    if leb_ℤ max_budget (pos 0)
    then raise value_error
    else ok (new_manager max_budget max_latency ttl)

-- `remaining_budget`
pub remaining_budget : Manager → ℤ
remaining_budget m = max_ℤ (pos 0) (m.max_remote_budget -ℤ m.cumulative_remote_cost)

-- `liquid_budget`
pub liquid_budget : Manager → ℤ
liquid_budget m =
    max_ℤ (pos 0) (m.max_remote_budget -ℤ m.cumulative_remote_cost -ℤ m.reserved_for_execution)

-- The two amounts that `try_reserve` computes under the lock.
abbrev pub liquid : Manager → ℤ
liquid m = m.max_remote_budget -ℤ m.cumulative_remote_cost -ℤ m.reserved_for_execution

abbrev pub latency_remaining : Manager → ℤ
latency_remaining m =
    m.max_cumulative_latency_ms -ℤ m.cumulative_actual_latency_ms -ℤ m.reserved_latency_ms

-- The events that a critical section logs at its start and at its end.
abbrev pub log_reserve : Env → ℕ → State → State
log_reserve e id s = record s {
  trace =
      lock_event e.release_us id reserve release
        (lock_event e.acquire_us id reserve acquire s.trace);
}

abbrev pub log_settle : Env → ℕ → State → State
log_settle e id s = record s {
  trace =
      lock_event e.release_us id settle release (lock_event e.acquire_us id settle acquire s.trace);
}

-- `cost < 0 or projected_latency_ms < 0`, or both are 0.
abbrev pub bad_request : ℤ → ℤ → Bool
bad_request cost lat =
    (ltb_ℤ cost (pos 0) || ltb_ℤ lat (pos 0)) || (eqb_ℤ cost (pos 0) && eqb_ℤ lat (pos 0))

-- The test under the lock: one of the limits would be breached.
abbrev pub breaches : Manager → ℤ → ℤ → Bool
breaches m cost lat =
    ltb_ℤ (liquid m) (cost -ℤ eps_12) || ltb_ℤ (latency_remaining m) (lat -ℤ eps_12)

abbrev pub new_reservation : Env → Manager → ℤ → ℤ → Reservation
new_reservation e m cost lat = record {
  id = e.new_id;
  reserved_cost = cost;
  reserved_latency_ms = lat;
  ttl_seconds = m.reservation_ttl_seconds;
  created_at = e.now;
}

-- The reservation is entered: both amounts grow, and the new object is pending and active.
abbrev pub enter : Reservation → State → State
enter r s = record s {
  manager = record (s.manager) {
    reserved_for_execution = s.reserved_for_execution +ℤ r.reserved_cost;
    reserved_latency_ms = s.reserved_latency_ms +ℤ r.reserved_latency_ms;
    active_reservations = insert r s.active_reservations;
  };
  states = set_state r.id pending s.states;
}

unfoldable pub try_reserve : Env → ℕ → ℤ → ℤ → State → Result (Option Reservation) × State
try_reserve e request_id cost lat s =
    if bad_request cost lat
    then (raise value_error, s)
    else (if breaches s.manager cost lat then (ok none, log_reserve e request_id s) else (
      ok (some (new_reservation e s.manager cost lat)),
      log_reserve e request_id (enter (new_reservation e s.manager cost lat) s),
    ))

-- The guards' failures in `_commit`: the amounts are returned with no clamp at zero.
abbrev pub drop_unclamped : Reservation → State → State
drop_unclamped r s = record s {
  manager = record (s.manager) {
    reserved_for_execution = s.reserved_for_execution -ℤ r.reserved_cost;
    reserved_latency_ms = s.reserved_latency_ms -ℤ r.reserved_latency_ms;
    active_reservations = pop r.id s.active_reservations;
  };
  states = set_state r.id rolled_back s.states;
}

-- Settling: the reservation leaves the table in state `st`, and its amounts are returned,
-- clamped at zero.
abbrev pub drop_clamped : ReservationState → Reservation → State → State
drop_clamped st r s = record s {
  manager = record (s.manager) {
    reserved_for_execution = max_ℤ (pos 0) (s.reserved_for_execution -ℤ r.reserved_cost);
    reserved_latency_ms = max_ℤ (pos 0) (s.reserved_latency_ms -ℤ r.reserved_latency_ms);
    active_reservations = pop r.id s.active_reservations;
  };
  states = set_state r.id st s.states;
}

-- The actual amounts are added to the totals.
abbrev pub spend : ℤ → ℤ → State → State
spend cost lat s = record s {
  manager = record (s.manager) {
    cumulative_remote_cost = s.cumulative_remote_cost +ℤ cost;
    cumulative_actual_latency_ms = s.cumulative_actual_latency_ms +ℤ lat;
  };
}

-- `_commit` once the reservation is found.
unfoldable pub commit_found : Reservation → ℤ → ℤ → State → Result (Unit {0}) × State
commit_found r cost lat s =
    if ltb_ℤ (r.reserved_cost +ℤ eps_9) cost
    then (raise actual_cost_exceeded, drop_unclamped r s)
    else (if ltb_ℤ (s.max_cumulative_latency_ms +ℤ eps_9) (s.cumulative_actual_latency_ms +ℤ lat)
        then (raise actual_latency_exceeded, drop_unclamped r s)
        else (ok tt, spend cost lat (drop_clamped committed r s)))

-- `_commit`
unfoldable pub commit : Env → ℕ → ℤ → ℤ → State → Result (Unit {0}) × State
commit e id cost lat s = elim (find id s.active_reservations) [
  | none ↦ (raise invalid_reservation_state, log_settle e id s)
  | some r ↦ let (res, t) = commit_found r cost lat s in (res, log_settle e id t)
]

-- `_rollback`
unfoldable pub rollback : Env → ℕ → State → Result (Unit {0}) × State
rollback e id s = elim (find id s.active_reservations) [
  | none ↦ (raise invalid_reservation_state, log_settle e id s)
  | some r ↦ (ok tt, log_settle e id (drop_clamped rolled_back r s))
]

-- `_expire_stale_reservations`: the loop over a copy of the table's entries.
unfoldable pub expire_loop : ℤ → List Reservation → State → List ℕ × State
expire_loop now [] s = ([], s)
expire_loop now (r ∷ rs) s =
    let (ids, t) =
      expire_loop now rs (if is_expired now r then drop_clamped rolled_back r s else s) in
    (if is_expired now r then r.id ∷ ids else ids, t)

unfoldable pub expire_stale_reservations : ℤ → State → List ℕ × State
unfolding expire_loop
expire_stale_reservations now s = expire_loop now s.active_reservations s

-- `BudgetSnapshot`
pub record BudgetSnapshot : Type 0 where
  pub cumulative_cost : ℤ
  pub reserved : ℤ
  pub remaining : ℤ
  pub cumulative_latency_ms : ℤ
  pub reserved_latency_ms : ℤ

unfoldable pub budget_snapshot : Manager → BudgetSnapshot
budget_snapshot m = record {
  cumulative_cost = m.cumulative_remote_cost;
  reserved = m.reserved_for_execution;
  remaining =
      max_ℤ (pos 0) (m.max_remote_budget -ℤ m.cumulative_remote_cost -ℤ m.reserved_for_execution);
  cumulative_latency_ms = m.cumulative_actual_latency_ms;
  reserved_latency_ms = m.reserved_latency_ms;
}
