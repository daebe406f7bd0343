-- ===== src/Decision/Called.antt =====
-- A call of `route` (app/decision_agent.py) does to the budget manager what calls of its methods do.
use ai_routing.Prelude.{
  ℕ, ◌≡◌, refl, ap, subst, ◌∙◌, not, ◌&&◌, Option, none, some, arith, inl, inr, Bool-cases,
}
use ai_routing.Prelude.Int.{ℤ, pos}
use ai_routing.Models.{ComplexityTier, fast, quality, local, remote, queue_local, InferenceRequest}
use ai_routing.QueueMonitor.{QueueMonitor}
use ai_routing.Latency.{Tracker}
use ai_routing.Budget.{State, Env, Result, ok, raise, Reservation, try_reserve, lookup_state}
use ai_routing.Budget.History.{reserves, step as step_call}
use ai_routing.Budget.Called.{Called, no_call, and_then, one_call}
use ai_routing.Decision.{
  M, ◌>>=◌, pure, continue, Envs, Advice, Reason, RoutingDecision, granted_or_fail, local_estimate,
  degrade, try_local, try_remote, route_fast, route_quality, route, route_by, advise, degraded,
  latency_cap_degraded,
}
use ai_routing.Decision.Ledger.{FreshEnvs}

-- A refused reservation makes no object.
refused_states :
    (e : Env) (request_id : ℕ) (cost lat : ℤ) (s : State)
    → (try_reserve e request_id cost lat s).0 ≡ ok none
    → (try_reserve e request_id cost lat s).1.states ≡ s.states
unfolding try_reserve
refused_states e request_id cost lat s h = ground arith

-- A reservation is tried, and then what is done with what came of it.
reserve-Called :
    {B : Type 0} (f : Option Reservation → M B) (e : Env) (request_id : ℕ) (cost lat : ℤ)
    (s : State)
    → lookup_state e.new_id s.states ≡ none
    → ((t : State) → t.states ≡ s.states → Called 0 0 t (f none t).1)
    → ((r : Reservation) (t : State) → Called 0 0 t (f (some r) t).1)
    → Called 0 0 s ((try_reserve e request_id cost lat >>= f) s).1
unfolding step_call
reserve-Called {B} f e request_id cost lat s fresh refused granted =
    by_result (try_reserve e request_id cost lat s) refl
  where
    tried : Called 0 0 s (try_reserve e request_id cost lat s).1
    tried = one_call 0 0 (reserves e request_id cost lat) s (fresh, tt) (omega arith) (omega arith)

    by_result :
        (p : Result (Option Reservation) × State)
        → try_reserve e request_id cost lat s ≡ p
        → Called 0 0 s (continue f p).1
    by_result (raise x, t) same = subst (λ p. Called 0 0 s p.1) same tried
    by_result (ok (some r), t) same =
        and_then s t _ (subst (λ p. Called 0 0 s p.1) same tried) (granted r t)
    by_result (ok none, t) same = and_then s t _ (subst (λ p. Called 0 0 s p.1) same tried) (
        refused t (
          subst (λ p. p.1.states ≡ s.states) same
            (refused_states e request_id cost lat s (ap (λ p. p.0) same))))

FreshEnvs-same : (es : Envs) (s t : State) → t.states ≡ s.states → FreshEnvs es s → FreshEnvs es t
FreshEnvs-same es s t same (a, b, c) = (
  ap (lookup_state es.for_local.new_id) same ∙ a,
  ap (lookup_state es.for_remote.new_id) same ∙ b,
  ap (lookup_state es.for_degraded.new_id) same ∙ c,
)

module _ (es : Envs) (request : InferenceRequest) (a : Advice) where
  try_local-Called :
      (reason fail_reason : Reason) (s : State)
      → FreshEnvs es s
      → Called 0 0 s (try_local es request a reason fail_reason s).1
  try_local-Called reason fail_reason s fresh =
      reserve-Called
        (λ o. pure (granted_or_fail local a.est_local_ms reason a.est_local_ms fail_reason o))
        es.for_local request.request_id (pos 0) a.est_local_ms s fresh.0 (λ t same. no_call 0 0 t)
        (λ r t. no_call 0 0 t)

  degrade-Called :
      (lt : Tracker) (exhausted : Reason) (s : State)
      → FreshEnvs es s
      → Called 0 0 s (degrade es lt request a exhausted s).1
  degrade-Called lt exhausted s fresh = elim (Bool-cases a.at_capacity) [
    | inl full ↦ simp full (no_call 0 0 s)
    | inr room ↦
        let est = local_estimate lt a.queue_depth in
        simp room (
          reserve-Called
            (λ o. pure (granted_or_fail queue_local est degraded (pos 0) latency_cap_degraded o))
            es.for_degraded request.request_id (pos 0) est s fresh.2 (λ t same. no_call 0 0 t)
            (λ r t. no_call 0 0 t))
  ]

  try_remote-Called :
      (cost : ℤ) (reason : Reason) (rest : M RoutingDecision) (s : State)
      → FreshEnvs es s
      → ((t : State) → FreshEnvs es t → Called 0 0 t (rest t).1)
      → Called 0 0 s
          ((try_remote cost es request a >>= λ o. elim o [
            | some r ↦ pure (granted_or_fail remote a.est_remote_ms reason (pos 0) reason (some r))
            | none ↦ rest
          ])
            s).1
  try_remote-Called cost reason rest s fresh other = elim (Bool-cases a.remote_within_sla) [
    | inr over ↦ simp over (other s fresh)
    | inl within ↦ simp within (
        reserve-Called
          (λ o. elim o [
            | some r ↦ pure (granted_or_fail remote a.est_remote_ms reason (pos 0) reason (some r))
            | none ↦ rest
          ])
          es.for_remote request.request_id cost a.est_remote_ms s fresh.1
          (λ t same. other t (FreshEnvs-same es s t same fresh)) (λ r t. no_call 0 0 t))
  ]

  route_fast-Called :
      (cost : ℤ) (lt : Tracker) (s : State)
      → FreshEnvs es s
      → Called 0 0 s (route_fast cost es lt request a s).1
  unfolding route_fast
  route_fast-Called cost lt s fresh = elim (Bool-cases (not a.at_capacity && a.local_within_sla)) [
    | inl first ↦ simp first (try_local-Called _ _ s fresh)
    | inr other ↦ simp other (try_remote-Called cost _ _ s fresh (λ t. degrade-Called lt _ t))
  ]

  route_quality-Called :
      (cost : ℤ) (lt : Tracker) (s : State)
      → FreshEnvs es s
      → Called 0 0 s (route_quality cost es lt request a s).1
  unfolding route_quality
  route_quality-Called cost lt s fresh = try_remote-Called cost _ _ s fresh λ t fresh.
      elim (Bool-cases (not a.at_capacity && a.local_within_sla)) [
        | inl first ↦ simp first (try_local-Called _ _ t fresh)
        | inr other ↦ simp other (degrade-Called lt _ t fresh)
      ]

by_tier :
    (tier : ComplexityTier) (cost : ℤ) (es : Envs) (lt : Tracker) (request : InferenceRequest)
    (a : Advice) (s : State)
    → FreshEnvs es s
    → Called 0 0 s (route_by tier cost es lt request a s).1
by_tier quality cost es lt request a s fresh = route_quality-Called es request a cost lt s fresh
by_tier fast cost es lt request a s fresh = route_fast-Called es request a cost lt s fresh

pub route-Called :
    (cost : ℤ) (es : Envs) (qm : QueueMonitor) (lt : Tracker) (request : InferenceRequest)
    (s : State)
    → FreshEnvs es s
    → Called 0 0 s (route cost es qm lt request s).1
unfolding route
route-Called cost es qm lt request s fresh =
    by_tier request.complexity_tier cost es lt request (advise qm lt request) s fresh
