-- ===== src/Decision/Route.antt =====
-- `route` of app/decision_agent.py as a whole: its outcome, and the preferences of the two tiers.
use ai_routing.Prelude.{ℕ, ◌<◌, ◌≡◌, refl, ap, ◌∙◌, true, false, some, inl, inr, arith}
use ai_routing.Prelude.Int.{ℤ, pos, ◌≤ℤ◌, leb_ℤ}
use ai_routing.Models.{ComplexityTier, fast, quality, local, remote, InferenceRequest}
use ai_routing.QueueMonitor.{QueueMonitor, is_at_capacity}
use ai_routing.Latency.{Tracker, get_estimate, backend_local, backend_remote}
use ai_routing.Budget.{State, Result, ok, raise, bad_request, new_reservation}
use ai_routing.Budget.Admission.{Admissible}
use ai_routing.Decision.{
  RoutingDecision, Envs, Advice, local_estimate, advise, route, route_fast, route_quality, route_by,
  continue, pure, granted_or_fail, try_local, local_healthy, latency_cap_local, remote_preferred,
}
use ai_routing.Decision.Attempt.{try_reserve_granted}
use ai_routing.Decision.Paths.{Outcome, route_fast-Outcome, route_quality-Outcome}

abbrev pub remote_estimate : Tracker → ℤ
remote_estimate lt = pos (get_estimate backend_remote lt)

bad_false : (cost lat : ℤ) → bad_request cost lat ≡ false → bad_request cost lat ≡ true → ⊥
bad_false cost lat h k = cc

by_tier :
    (tier : ComplexityTier) (cost : ℤ) (es : Envs) (qm : QueueMonitor) (lt : Tracker)
    (request : InferenceRequest) (s : State)
    → Outcome cost
        (advise qm lt request)
        s
        tier
        (route_by tier cost es lt request (advise qm lt request) s)
unfolding advise
by_tier fast cost es qm lt request s =
    route_fast-Outcome cost (advise qm lt request) s es lt request refl
by_tier quality cost es qm lt request s =
    route_quality-Outcome cost (advise qm lt request) s es lt request refl

local_room : (qm : QueueMonitor) → qm.active_count < qm.max_concurrency → is_at_capacity qm ≡ false
local_room qm h = ground arith

within_sla : (est sla : ℤ) → est ≤ℤ sla → leb_ℤ est sla ≡ true
within_sla est sla h = ground arith

local_pos :
    (lt : Tracker) (depth : ℕ)
    → 0 < get_estimate backend_local lt
    → pos 1 ≤ℤ local_estimate lt depth
local_pos lt depth h = grind arith

positive_args : (cost lat : ℤ) → pos 0 ≤ℤ cost → pos 1 ≤ℤ lat → bad_request cost lat ≡ false
positive_args cost lat hc hl = ground arith

-- The local path of a FAST request, once the two tests of `_route_fast` have passed.
fast_local :
    (cost : ℤ) (es : Envs) (lt : Tracker) (request : InferenceRequest) (a : Advice) (s : State)
    → a.at_capacity ≡ false
    → a.local_within_sla ≡ true
    → route_fast cost es lt request a s ≡ try_local es request a local_healthy latency_cap_local s
unfolding route_fast
fast_local cost es lt request a s room within = simp (room, within)

-- The remote path of a QUALITY request, once it is within the SLA and admissible.
quality_remote :
    (cost : ℤ) (es : Envs) (lt : Tracker) (request : InferenceRequest) (a : Advice) (s : State)
    → a.remote_within_sla ≡ true
    → Admissible s.manager cost a.est_remote_ms
    → (d : RoutingDecision) × ((route_quality cost es lt request a s).0 ≡ ok d) × (d.route ≡ remote)
unfolding route_quality
quality_remote cost es lt request a s within open_ = (
  record {
    route = remote;
    reservation = some (new_reservation es.for_remote s.manager cost a.est_remote_ms);
    estimated_latency_ms = a.est_remote_ms;
    reason = remote_preferred;
  },
  simp (within, try_reserve_granted es.for_remote request.request_id cost a.est_remote_ms s open_),
  refl,
)

module _ (cost : ℤ) (es : Envs) (qm : QueueMonitor) (lt : Tracker) (request : InferenceRequest)
    (s : State) where
  -- What `route` returns on every branch and for both tiers. LOCAL: the queue has room, the
  -- local estimate is within the SLA, and a QUALITY request found the remote path closed. REMOTE: the
  -- remote estimate is within the SLA, and for a FAST request the local path was not feasible.
  -- QUEUE_LOCAL: there is room, the local path is not feasible, and the remote one is closed. Each of
  -- these carries one reservation, which was admissible, of exactly the estimated latency and, for
  -- REMOTE alone, the remote cost. FAIL_FAST carries none, changes no amount, and no local
  -- reservation was possible; the remote path was closed too, or a FAST request had a feasible local
  -- one. A `ValueError` changes no amount and comes from a bad amount.
  pub route-Outcome :
      Outcome cost (advise qm lt request) s request.complexity_tier (route cost es qm lt request s)
  unfolding route
  route-Outcome = by_tier request.complexity_tier cost es qm lt request s

  -- A route never raises where the cost of a remote request is not negative and both estimates are
  -- above 0.
  pub route_returns :
      pos 0 ≤ℤ cost
      → 0 < get_estimate backend_local lt
      → 0 < get_estimate backend_remote lt
      → (d : RoutingDecision) × ((route cost es qm lt request s).0 ≡ ok d)
  unfolding advise
  route_returns hc hl hr = from_outcome (route cost es qm lt request s) route-Outcome
    where
      from_outcome :
          (p : Result RoutingDecision × State)
          → Outcome cost (advise qm lt request) s request.complexity_tier p
          → (d : RoutingDecision) × (p.0 ≡ ok d)
      from_outcome (ok d, t) h = (d, refl)
      from_outcome (raise x, t) h = elim (h.2) [
        | inl bad ↦ absurd (
            bad_false cost (advise qm lt request).est_remote_ms
              (positive_args cost (remote_estimate lt) hc (omega arith)) bad)
        | inr bad ↦ absurd (
            bad_false (pos 0) (local_estimate lt qm.active_count)
              (positive_args (pos 0) (local_estimate lt qm.active_count) (omega arith)
                (local_pos lt qm.active_count hl))
              bad)
      ]

  -- A FAST request takes the local path whenever the queue has room, the estimate is within the SLA
  -- and a local reservation is admissible, whatever the remote path offers.
  pub fast_prefers_local :
      request.complexity_tier ≡ fast
      → qm.active_count < qm.max_concurrency
      → local_estimate lt qm.active_count ≤ℤ request.latency_budget_ms
      → Admissible s.manager (pos 0) (local_estimate lt qm.active_count)
      → (d : RoutingDecision) × ((route cost es qm lt request s).0 ≡ ok d) × (d.route ≡ local)
  unfolding route advise route_fast
  fast_prefers_local tier room within open_ = (
    record {
      route = local;
      reservation = some (new_reservation es.for_local s.manager (pos 0) est);
      estimated_latency_ms = est;
      reason = local_healthy;
    },
    ap (λ p. p.0)
        (ap (λ tier. route_by tier cost es lt request (advise qm lt request) s) tier
          ∙ fast_local cost es lt request (advise qm lt request) s (local_room qm room)
              (within_sla est request.latency_budget_ms within)
          ∙ ap
              (continue
                (λ o. pure (granted_or_fail local est local_healthy est latency_cap_local o)))
              (try_reserve_granted es.for_local request.request_id (pos 0) est s open_)),
    refl,
  )
    where
      est : ℤ
      est = local_estimate lt qm.active_count

  -- A QUALITY request takes the remote path whenever its estimate is within the SLA and a remote
  -- reservation is admissible, whatever the local path offers.
  pub quality_prefers_remote :
      request.complexity_tier ≡ quality
      → remote_estimate lt ≤ℤ request.latency_budget_ms
      → Admissible s.manager cost (remote_estimate lt)
      → (d : RoutingDecision) × ((route cost es qm lt request s).0 ≡ ok d) × (d.route ≡ remote)
  unfolding route advise route_quality
  quality_prefers_remote tier within open_ =
      let (d, runs, is_remote) =
        quality_remote cost es lt request (advise qm lt request) s
          (within_sla (remote_estimate lt) request.latency_budget_ms within) open_ in
      (
        d,
        ap (λ tier. (route_by tier cost es lt request (advise qm lt request) s).0) tier ∙ runs,
        is_remote,
      )
