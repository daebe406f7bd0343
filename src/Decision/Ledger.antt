-- ===== src/Decision/Ledger.antt =====
-- What a call of `route` (app/decision_agent.py) does to the ledger of the budget manager.
use ai_routing.Prelude.{
  ℕ, ◌≡◌, refl, Bool, true, false, not, ◌&&◌, ◌||◌, Option, none, some, inl, inr, Bool-cases, arith,
  ◌==◌,
}
use ai_routing.Prelude.Int.{ℤ, pos}
use ai_routing.Models.{
  ComplexityTier, fast, quality, local, remote, queue_local, fail_fast, InferenceRequest,
}
use ai_routing.QueueMonitor.{QueueMonitor}
use ai_routing.Latency.{Tracker}
use ai_routing.LockTrace.{Trace}
use ai_routing.Budget.{
  State, Env, Reservation, Result, ok, raise, enter, new_reservation, contains, lookup_state,
}
use ai_routing.Budget.Table.{contains-insert}
use ai_routing.Budget.Admission.{Admissible}
use ai_routing.Budget.Invariant.{Inv, enter-Inv, trace-Inv}
use ai_routing.Decision.{
  M, ◌>>=◌, pure, RoutingDecision, Envs, Advice, Reason, granted_or_fail, degrade, rejected,
  local_estimate, try_local, try_remote, route_fast, route_quality, route, route_by, advise,
  latency_cap_degraded, degraded,
}
use ai_routing.Decision.Attempt.{reserve_cases}

-- The id is that of the reservation, if there is one.
abbrev pub reserves_id : Option Reservation → ℕ → Bool
reserves_id none j = false
reserves_id (some r) j = j == r.id

abbrev result_reserves : Result RoutingDecision → ℕ → Bool
result_reserves (ok d) j = reserves_id d.reservation j
result_reserves (raise x) j = false

-- A rejected request has no reservation.
abbrev FailsFree : Result RoutingDecision → Type 0
FailsFree (ok d) = d.route ≡ fail_fast → d.reservation ≡ none
FailsFree (raise x) = Unit

-- The ledger stays right, and the table has grown by the decision's reservation alone.
pub record Effect (s : State) (p : Result RoutingDecision × State) : Type 0 where
  pub inv : Inv p.1
  pub table :
      (j : ℕ)
      → contains j p.1.active_reservations
        ≡ (contains j s.active_reservations || result_reserves p.0 j)
  pub fails_free : FailsFree p.0

-- `uuid4` gives ids that no reservation object has.
abbrev pub FreshEnvs : Envs → State → Type 0
FreshEnvs es s =
    (lookup_state es.for_local.new_id s.states ≡ none)
    × (lookup_state es.for_remote.new_id s.states ≡ none)
    × (lookup_state es.for_degraded.new_id s.states ≡ none)

or-false : (b : Bool) → b ≡ (b || false)
or-false true = refl
or-false false = refl

module _ (s : State) (v : Inv s) where
  raised-Effect : (x : _) (trace : Trace) → Effect s (raise x, record s { trace = trace })
  raised-Effect x trace = record {
    inv = trace-Inv s trace v;
    table = λ j. or-false (contains j s.active_reservations);
    fails_free = tt;
  }

  unreserved-Effect :
      (d : RoutingDecision) (trace : Trace)
      → d.reservation ≡ none
      → Effect s (ok d, record s { trace = trace })
  unreserved-Effect d trace free = record {
    inv = trace-Inv s trace v;
    table = λ j. rw free (or-false (contains j s.active_reservations));
    fails_free = λ _. free;
  }

  reserved-Effect :
      (e : Env) (cost lat : ℤ) (d : RoutingDecision) (trace : Trace)
      → lookup_state e.new_id s.states ≡ none
      → Admissible s.manager cost lat
      → d.reservation ≡ some (new_reservation e s.manager cost lat)
      → ¬ (d.route ≡ fail_fast)
      → Effect s (ok d, record (enter (new_reservation e s.manager cost lat) s) { trace = trace })
  reserved-Effect e cost lat d trace fresh a carried taken =
      let r = new_reservation e s.manager cost lat in
      record {
        inv = trace-Inv (enter r s) trace (enter-Inv r s a.cost_nonneg a.latency_nonneg fresh v);
        table = λ j. rw carried (ground (arith, contains-insert j r s.active_reservations));
        fails_free = λ fails. absurd (taken fails);
      }

  try_local-Effect :
      (es : Envs) (request : InferenceRequest) (a : Advice) (reason fail_reason : Reason)
      (trace : Trace)
      → FreshEnvs es s
      → Effect s (try_local es request a reason fail_reason (record s { trace = trace }))
  try_local-Effect es request a reason fail_reason trace fresh =
      reserve_cases (Effect s)
        (λ o. pure (granted_or_fail local a.est_local_ms reason a.est_local_ms fail_reason o))
        es.for_local request.request_id (pos 0) a.est_local_ms (record s { trace = trace })
        (λ bad. raised-Effect _ _) (λ closed. unreserved-Effect _ _ refl)
        (λ admissible.
          reserved-Effect es.for_local (pos 0) a.est_local_ms _ _ fresh.0 admissible refl
            (λ fails. absurd (cc)))

  degrade-Effect :
      (es : Envs) (lt : Tracker) (request : InferenceRequest) (a : Advice) (exhausted : Reason)
      (trace : Trace)
      → FreshEnvs es s
      → Effect s (degrade es lt request a exhausted (record s { trace = trace }))
  degrade-Effect es lt request a exhausted trace fresh = elim (Bool-cases a.at_capacity) [
    | inl full ↦ simp full (unreserved-Effect (rejected exhausted) trace refl)
    | inr room ↦
        let est = local_estimate lt a.queue_depth in
        simp room (
          reserve_cases (Effect s)
            (λ o. pure (granted_or_fail queue_local est degraded (pos 0) latency_cap_degraded o))
            es.for_degraded request.request_id (pos 0) est (record s { trace = trace })
            (λ bad. raised-Effect _ _) (λ closed. unreserved-Effect _ _ refl)
            (λ admissible.
              reserved-Effect es.for_degraded (pos 0) est _ _ fresh.2 admissible refl
                (λ fails. absurd (cc))))
  ]

  try_remote-Effect :
      (cost : ℤ) (es : Envs) (request : InferenceRequest) (a : Advice) (reason : Reason)
      (rest : M RoutingDecision)
      → FreshEnvs es s
      → ((trace : Trace) → Effect s (rest (record s { trace = trace })))
      → Effect s (
          (try_remote cost es request a >>= λ o. elim o [
            | some r ↦ pure (granted_or_fail remote a.est_remote_ms reason (pos 0) reason (some r))
            | none ↦ rest
          ])
            s)
  try_remote-Effect cost es request a reason rest fresh other =
      elim (Bool-cases a.remote_within_sla) [
        | inr over ↦ simp over (other s.trace)
        | inl within ↦ simp within (
            reserve_cases (Effect s)
              (λ o. elim o [
                | some r ↦
                    pure (granted_or_fail remote a.est_remote_ms reason (pos 0) reason (some r))
                | none ↦ rest
              ])
              es.for_remote request.request_id cost a.est_remote_ms s
              (λ bad. raised-Effect _ s.trace) (λ closed. other _)
              (λ admissible.
                reserved-Effect es.for_remote cost a.est_remote_ms _ _ fresh.1 admissible refl
                  (λ fails. absurd (cc))))
      ]

  route_fast-Effect :
      (cost : ℤ) (es : Envs) (lt : Tracker) (request : InferenceRequest) (a : Advice)
      → FreshEnvs es s
      → Effect s (route_fast cost es lt request a s)
  unfolding route_fast
  route_fast-Effect cost es lt request a fresh =
      elim (Bool-cases (not a.at_capacity && a.local_within_sla)) [
        | inl first ↦ simp first (try_local-Effect es request a _ _ s.trace fresh)
        | inr other ↦ simp other (
            try_remote-Effect cost es request a _ _ fresh
              (λ trace. degrade-Effect es lt request a _ trace fresh))
      ]

  route_quality-Effect :
      (cost : ℤ) (es : Envs) (lt : Tracker) (request : InferenceRequest) (a : Advice)
      → FreshEnvs es s
      → Effect s (route_quality cost es lt request a s)
  unfolding route_quality
  route_quality-Effect cost es lt request a fresh =
      try_remote-Effect cost es request a _ _ fresh λ trace.
        elim (Bool-cases (not a.at_capacity && a.local_within_sla)) [
          | inl first ↦ simp first (try_local-Effect es request a _ _ trace fresh)
          | inr other ↦ simp other (degrade-Effect es lt request a _ trace fresh)
        ]

  by_tier :
      (tier : ComplexityTier) (cost : ℤ) (es : Envs) (lt : Tracker) (request : InferenceRequest)
      (a : Advice)
      → FreshEnvs es s
      → Effect s (route_by tier cost es lt request a s)
  by_tier quality cost es lt request a fresh = route_quality-Effect cost es lt request a fresh
  by_tier fast cost es lt request a fresh = route_fast-Effect cost es lt request a fresh

  -- A call of `route` keeps the ledger right, and what it leaves in the table beyond what was there
  -- is the reservation of its decision and nothing else; a rejected request leaves none behind. The
  -- ids that `uuid4` gives are new ones.
  pub route-Effect :
      (cost : ℤ) (es : Envs) (qm : QueueMonitor) (lt : Tracker) (request : InferenceRequest)
      → FreshEnvs es s
      → Effect s (route cost es qm lt request s)
  unfolding route
  route-Effect cost es qm lt request fresh =
      by_tier request.complexity_tier cost es lt request (advise qm lt request) fresh
