-- ===== src/Decision.antt =====
-- app/decision_agent.py: which path a request takes. Nothing in `route` suspends (the lock of
-- `try_reserve` is never contended), so a call is one atomic step on the budget's state; the queue
-- and the tracker are only read. The agent keeps no state of its own.
pub mod Attempt
pub mod Paths
pub mod Route
pub mod Ledger
pub mod Called
mod Tests
use ai_routing.Prelude.{
  ℕ, ◌+◌, ◌*◌, Bool, true, false, not, ◌&&◌, Option, none, some, if◌then◌else◌,
}
use ai_routing.Prelude.Int.{ℤ, pos, leb_ℤ}
use ai_routing.Models.{
  ComplexityTier, fast, quality, RouteDecision, local, remote, queue_local, fail_fast,
  InferenceRequest,
}
use ai_routing.QueueMonitor.{QueueMonitor, is_at_capacity}
use ai_routing.Latency.{Tracker, get_estimate, backend_local, backend_remote}
use ai_routing.Budget.{State, Env, Reservation, Result, ok, raise, try_reserve}

-- The kinds of `RoutingDecision.reason`: the text without the tier's tag and the numbers quoted.
pub data Reason : Type 0 where
  local_healthy latency_cap_local escalated degraded latency_cap_degraded : Reason
  at_capacity_over_sla at_capacity_no_budget : Reason
  remote_preferred local_fallback latency_cap_fallback no_budget_at_capacity : Reason

pub record RoutingDecision : Type 0 where
  pub route : RouteDecision
  pub reservation : Option Reservation
  pub estimated_latency_ms : ℤ
  pub reason : Reason

-- What each of the three calls of `try_reserve` in a route would read from the clocks and `uuid4`.
pub record Envs : Type 0 where
  pub for_local : Env
  pub for_remote : Env
  pub for_degraded : Env

-- The advisory reads at the start of `route`.
pub record Advice : Type 0 where
  pub at_capacity : Bool
  pub est_local_ms : ℤ
  pub est_remote_ms : ℤ
  pub local_within_sla : Bool
  pub remote_within_sla : Bool
  pub queue_depth : ℕ

-- A method that may raise, on the budget's state.
abbrev pub M : Type 0 → Type 0
M A = State → Result A × State

abbrev pub pure : {A : Type 0} → A → M A
pure a s = (ok a, s)

-- To go on after a call, or to pass its exception on.
abbrev pub continue : {A B : Type 0} → (A → M B) → Result A × State → Result B × State
continue f (ok a, t) = f a t
continue f (raise x, t) = (raise x, t)

infixl 5 ◌>>=◌
abbrev pub ◌>>=◌ : {A B : Type 0} → M A → (A → M B) → M B
◌>>=◌ m f s = continue f (m s)

-- `get_estimate(BACKEND_LOCAL) * (queue_depth + 1)`
abbrev pub local_estimate : Tracker → ℕ → ℤ
local_estimate lt depth = pos (get_estimate backend_local lt * (depth + 1))

unfoldable pub advise : QueueMonitor → Tracker → InferenceRequest → Advice
advise qm lt request =
    let est_local = local_estimate lt qm.active_count in
    let est_remote = pos (get_estimate backend_remote lt) in
    record {
      at_capacity = is_at_capacity qm;
      est_local_ms = est_local;
      est_remote_ms = est_remote;
      local_within_sla = leb_ℤ est_local request.latency_budget_ms;
      remote_within_sla = leb_ℤ est_remote request.latency_budget_ms;
      queue_depth = qm.active_count;
    }

-- The decision for a reservation that was tried: `taken` if it was granted, or FAIL_FAST.
abbrev pub granted_or_fail :
    RouteDecision → ℤ → Reason → ℤ → Reason → Option Reservation → RoutingDecision
granted_or_fail taken est reason fail_est fail_reason (some r) = record {
  route = taken;
  reservation = some r;
  estimated_latency_ms = est;
  reason = reason;
}
granted_or_fail taken est reason fail_est fail_reason none = record {
  route = fail_fast;
  reservation = none;
  estimated_latency_ms = fail_est;
  reason = fail_reason;
}

abbrev pub rejected : Reason → RoutingDecision
rejected reason = record {
  route = fail_fast;
  reservation = none;
  estimated_latency_ms = pos 0;
  reason = reason;
}

-- Path 3 and path 4, which the two tiers share but for the last reason.
abbrev pub degrade : Envs → Tracker → InferenceRequest → Advice → Reason → M RoutingDecision
degrade es lt request a exhausted =
    if not a.at_capacity
    then (do
      let degraded_est = local_estimate lt a.queue_depth
      reservation ← try_reserve es.for_degraded request.request_id (pos 0) degraded_est
      pure (
          granted_or_fail queue_local degraded_est degraded (pos 0) latency_cap_degraded
            reservation))
    else pure (rejected exhausted)

-- The remote path, which is tried only within the SLA.
abbrev pub try_remote : ℤ → Envs → InferenceRequest → Advice → M (Option Reservation)
try_remote cost_per_remote es request a =
    if a.remote_within_sla
    then try_reserve es.for_remote request.request_id cost_per_remote a.est_remote_ms
    else pure none

-- The local path, once the local queue has room and the estimate is within the SLA.
abbrev pub try_local : Envs → InferenceRequest → Advice → Reason → Reason → M RoutingDecision
try_local es request a reason fail_reason = do
  reservation ← try_reserve es.for_local request.request_id (pos 0) a.est_local_ms
  pure (granted_or_fail local a.est_local_ms reason a.est_local_ms fail_reason reservation)

-- `_route_fast`
unfoldable pub route_fast : ℤ → Envs → Tracker → InferenceRequest → Advice → M RoutingDecision
route_fast cost_per_remote es lt request a =
    if not a.at_capacity && a.local_within_sla
    then try_local es request a local_healthy latency_cap_local
    else (do
      reservation ← try_remote cost_per_remote es request a
      elim reservation [
        | some r ↦
            pure (granted_or_fail remote a.est_remote_ms escalated (pos 0) escalated (some r))
        | none ↦
            degrade es lt request a
              (if a.remote_within_sla then at_capacity_no_budget else at_capacity_over_sla)
      ])

-- `_route_quality`
unfoldable pub route_quality : ℤ → Envs → Tracker → InferenceRequest → Advice → M RoutingDecision
route_quality cost_per_remote es lt request a = do
  reservation ← try_remote cost_per_remote es request a
  elim reservation [
    | some r ↦
        pure (
          granted_or_fail remote a.est_remote_ms remote_preferred (pos 0) remote_preferred (some r))
    | none ↦
        if not a.at_capacity && a.local_within_sla
        then try_local es request a local_fallback latency_cap_fallback
        else degrade es lt request a no_budget_at_capacity
  ]

-- The branch of `route` on the tier.
abbrev pub route_by :
    ComplexityTier → ℤ → Envs → Tracker → InferenceRequest → Advice → M RoutingDecision
route_by quality cost_per_remote es lt request a = route_quality cost_per_remote es lt request a
route_by fast cost_per_remote es lt request a = route_fast cost_per_remote es lt request a

-- `route`
unfoldable pub route : ℤ → Envs → QueueMonitor → Tracker → InferenceRequest → M RoutingDecision
route cost_per_remote es qm lt request =
    route_by request.complexity_tier cost_per_remote es lt request (advise qm lt request)
