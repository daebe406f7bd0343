-- ===== src/Endpoints.antt =====
-- app/main.py without POST /inference: the start of the application, `run_start`, the reports of its
-- state, and the counting of routes in the event stream.
pub mod Fresh
pub mod Reports
pub mod Limits
pub mod Dashboard
pub mod Stream
mod Tests
use ai_routing.Prelude.{
  ℕ, ◌-◌, Bool, true, false, Option, none, some, List, [], ◌∷◌, map, length, if◌then◌else◌,
}
use ai_routing.Prelude.Int.{ℤ, pos, ◌-ℤ◌, max_ℤ, leb_ℤ}
use ai_routing.Prelude.Dict.{Dict}
use ai_routing.Models.{RouteDecision}
use ai_routing.QueueMonitor.{QueueMonitor, init as new_queue}
use ai_routing.Latency.{
  Config, Tracker, init as new_tracker, get_estimate, get_ema, backend_local, backend_remote,
}
use ai_routing.LockTrace.{Trace, clear_lock_trace}
use ai_routing.Budget.{
  Manager, State, Result, ok, raise, init as new_budget_manager, budget_snapshot,
  active_reservation_count,
}
use ai_routing.Observability.{abs, Payload, route_decision, Bus, get_lock_trace, log_run_start}
use ai_routing.App.{App, RouteCounts, count_route}

-- The constants of app/config.py.
pub record Settings : Type 0 where
  pub max_remote_budget : ℤ
  pub max_cumulative_latency_ms : ℤ
  pub reservation_ttl_seconds : ℤ
  pub local_queue_capacity : ℤ
  pub latency : Config

abbrev pub zero_counts : RouteCounts
zero_counts = record {
  local_count = 0;
  remote_count = 0;
  queue_local_count = 0;
  fail_fast_count = 0;
}

-- New managers beside the trace and the bus, which live on. The reservation objects of a manager that
-- is replaced are no concern of the new one.
abbrev pub app_of : Settings → Trace → Bus → Manager → QueueMonitor → App
app_of settings trace bus m q = record {
  budget = record { manager = m; states = []; trace = trace };
  queue = q;
  tracker = new_tracker settings.latency;
  counts = zero_counts;
  bus = bus;
}

abbrev pub with_managers :
    Settings → Trace → Bus → Result Manager → Option QueueMonitor → Option App
with_managers settings trace bus (raise x) queue = none
with_managers settings trace bus (ok m) none = none
with_managers settings trace bus (ok m) (some q) = some (app_of settings trace bus m q)

abbrev pub new_app : Settings → Trace → Bus → Option App
new_app settings trace bus =
    with_managers settings trace bus
      (new_budget_manager settings.max_remote_budget settings.max_cumulative_latency_ms
        settings.reservation_ttl_seconds)
      (new_queue settings.local_queue_capacity)

-- `lifespan`, up to its `yield`; `none` is a `ValueError` of a constructor.
unfoldable pub lifespan : Settings → Option App
lifespan settings = new_app settings [] []

-- `run_start`; `none` is a `ValueError`.
abbrev pub log_start : ℕ → Option App → Option App
log_start run_id none = none
log_start run_id (some app) = some (record app { bus = log_run_start run_id app.bus })

unfoldable pub run_start : Settings → ℕ → Bool → App → Option App
run_start settings run_id reset app =
    log_start run_id (if reset then new_app settings app.budget.trace app.bus else some app)

-- `ResourceState`
pub record ResourceState : Type 0 where
  pub remote_budget_max : ℤ
  pub remote_budget_spent : ℤ
  pub remote_budget_reserved : ℤ
  pub remote_budget_remaining : ℤ
  pub latency_max_ms : ℤ
  pub latency_committed_ms : ℤ
  pub latency_reserved_ms : ℤ
  pub latency_remaining_ms : ℤ
  pub local_capacity_max : ℕ
  pub local_capacity_active : ℕ
  pub local_capacity_available : ℤ
  pub estimated_local_latency_ms : ℕ
  pub estimated_remote_latency_ms : ℕ
  pub active_reservations : ℕ

-- `status`
unfoldable pub status : App → ResourceState
status app =
    let snapshot = budget_snapshot app.budget.manager in
    record {
      remote_budget_max = app.budget.max_remote_budget;
      remote_budget_spent = snapshot.cumulative_cost;
      remote_budget_reserved = snapshot.reserved;
      remote_budget_remaining = snapshot.remaining;
      latency_max_ms = app.budget.max_cumulative_latency_ms;
      latency_committed_ms = snapshot.cumulative_latency_ms;
      latency_reserved_ms = snapshot.reserved_latency_ms;
      latency_remaining_ms = max_ℤ (pos 0) (
          app.budget.max_cumulative_latency_ms -ℤ snapshot.cumulative_latency_ms
          -ℤ snapshot.reserved_latency_ms);
      local_capacity_max = app.queue.max_concurrency;
      local_capacity_active = app.queue.active_count;
      local_capacity_available = pos app.queue.max_concurrency -ℤ pos app.queue.active_count;
      estimated_local_latency_ms = get_estimate backend_local app.tracker;
      estimated_remote_latency_ms = get_estimate backend_remote app.tracker;
      active_reservations = active_reservation_count app.budget.manager;
    }

-- `_clean` of `metrics`: `math.isclose` with an absolute tolerance of 1e-9 about 0.
abbrev pub clean : ℤ → ℤ
clean v = if leb_ℤ (abs v) (pos 1000) then pos 0 else v

-- What `metrics` returns.
pub record Metrics : Type 0 where
  pub cumulative_remote_cost : ℤ
  pub reserved_remote_budget : ℤ
  pub remaining_remote_budget : ℤ
  pub cumulative_actual_latency_ms : ℤ
  pub reserved_latency_ms : ℤ
  pub active_local_inferences : ℕ
  pub max_local_concurrency : ℕ
  pub active_remote_reservations : ℕ
  pub local_latency_ema_ms : ℤ
  pub remote_latency_ema_ms : ℤ

unfoldable pub metrics : App → Metrics
metrics app =
    let snapshot = budget_snapshot app.budget.manager in
    record {
      cumulative_remote_cost = clean snapshot.cumulative_cost;
      reserved_remote_budget = clean snapshot.reserved;
      remaining_remote_budget = clean snapshot.remaining;
      cumulative_actual_latency_ms = clean snapshot.cumulative_latency_ms;
      reserved_latency_ms = clean snapshot.reserved_latency_ms;
      active_local_inferences = app.queue.active_count;
      max_local_concurrency = app.queue.max_concurrency;
      active_remote_reservations = active_reservation_count app.budget.manager;
      local_latency_ema_ms = clean (pos (get_ema backend_local app.tracker));
      remote_latency_ema_ms = clean (pos (get_ema backend_remote app.tracker));
    }

-- The JSON object that it returns.
unfoldable pub metrics_json : Metrics → Dict ℤ
metrics_json m =
    ("cumulative_remote_cost", m.cumulative_remote_cost)
    ∷ ("reserved_remote_budget", m.reserved_remote_budget)
    ∷ ("remaining_remote_budget", m.remaining_remote_budget)
    ∷ ("cumulative_actual_latency_ms", m.cumulative_actual_latency_ms)
    ∷ ("reserved_latency_ms", m.reserved_latency_ms)
    ∷ ("active_local_inferences", pos m.active_local_inferences)
    ∷ ("max_local_concurrency", pos m.max_local_concurrency)
    ∷ ("active_remote_reservations", pos m.active_remote_reservations)
    ∷ ("local_latency_ema_ms", m.local_latency_ema_ms)
    ∷ ("remote_latency_ema_ms", m.remote_latency_ema_ms)
    ∷ []

-- GET /trace and DELETE /trace
unfoldable pub lock_trace : App → ℕ × Trace
lock_trace app = let events = get_lock_trace app.budget.trace in (length events, events)

pub clear_trace : App → App
clear_trace app = record app {
  budget = record (app.budget) { trace = clear_lock_trace app.budget.trace };
}

-- What the generator of the event stream does to the counts when it gets a payload.
unfoldable pub stream_payload : Payload → App → App
stream_payload (route_decision event) app = record app {
  counts = count_route event.route app.counts;
}
stream_payload _ app = app
