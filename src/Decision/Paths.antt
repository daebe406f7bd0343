-- ===== src/Decision/Paths.antt =====
-- Which path a request takes in app/decision_agent.py, and what is known when it takes it.
use ai_routing.Prelude.{
  ◌≡◌, ◌⊎◌, refl, true, false, not, ◌&&◌, none, some, inl, inr, Bool-cases, arith,
}
use ai_routing.Prelude.Int.{ℤ, pos}
use ai_routing.Models.{
  ComplexityTier, fast, quality, RouteDecision, local, remote, queue_local, fail_fast,
  InferenceRequest,
}
use ai_routing.Latency.{Tracker}
use ai_routing.LockTrace.{Trace}
use ai_routing.Budget.{
  State, Reservation, Result, ok, raise, value_error, bad_request, enter, new_reservation,
}
use ai_routing.Budget.Admission.{Admissible}
use ai_routing.Decision.{
  M, ◌>>=◌, pure, RoutingDecision, Envs, Advice, Reason, local_estimate, granted_or_fail, degrade,
  try_local, try_remote, route_fast, route_quality, latency_cap_degraded, degraded,
}
use ai_routing.Decision.Attempt.{reserve_cases}

-- The budget's amounts and the reservation objects stay as they were.
pub record Keeps (s t : State) : Type 0 where
  pub manager : t.manager ≡ s.manager
  pub states : t.states ≡ s.states

-- The decision carries one reservation, of these amounts, which was admissible and is entered.
pub record Holds (cost est : ℤ) (d : RoutingDecision) (s t : State) : Type 0 where
  pub reservation : Reservation
  pub carried : d.reservation ≡ some reservation
  pub cost_is : reservation.reserved_cost ≡ cost
  pub latency_is : reservation.reserved_latency_ms ≡ est
  pub estimate_is : d.estimated_latency_ms ≡ est
  pub admissible : Admissible s.manager cost est
  pub entered : t.manager ≡ (enter reservation s).manager
  pub pending : t.states ≡ (enter reservation s).states

module _ (cost : ℤ) (a : Advice) (s : State) where
  -- The remote path would be taken if it were tried.
  abbrev pub RemoteOpen : Type 0
  RemoteOpen = (a.remote_within_sla ≡ true) × Admissible s.manager cost a.est_remote_ms

  -- The local queue has room, and a local reservation would be granted.
  abbrev pub LocalOpen : Type 0
  LocalOpen = (a.at_capacity ≡ false) × Admissible s.manager (pos 0) a.est_local_ms

  -- The local path is tried first by the FAST tier.
  abbrev pub LocalFeasible : Type 0
  LocalFeasible = (a.at_capacity ≡ false) × (a.local_within_sla ≡ true)

  -- What a decision for each route says of the moment of the call.
  abbrev pub Routed : ComplexityTier → RouteDecision → RoutingDecision → State → Type 0
  Routed tier local d t =
      LocalFeasible × Holds (pos 0) a.est_local_ms d s t × (tier ≡ quality → ¬ RemoteOpen)
  Routed tier remote d t =
      (a.remote_within_sla ≡ true)
      × Holds cost a.est_remote_ms d s t
      × (tier ≡ fast → ¬ LocalFeasible)
  Routed tier queue_local d t =
      (a.at_capacity ≡ false) × ¬ LocalFeasible × Holds (pos 0) a.est_local_ms d s t × ¬ RemoteOpen
  Routed tier fail_fast d t =
      (d.reservation ≡ none)
      × Keeps s t
      × ¬ LocalOpen
      × ((tier ≡ fast × LocalFeasible) ⊎ ¬ RemoteOpen)

  -- A `ValueError` of `try_reserve` leaves the state, and comes from amounts that are negative or
  -- both zero.
  abbrev pub Outcome : ComplexityTier → Result RoutingDecision × State → Type 0
  Outcome tier (ok d, t) = Routed tier d.route d t
  Outcome tier (raise x, t) =
      (x ≡ value_error)
      × Keeps s t
      × ((bad_request cost a.est_remote_ms ≡ true) ⊎ (bad_request (pos 0) a.est_local_ms ≡ true))

  try_local-Outcome :
      (tier : ComplexityTier) (es : Envs) (request : InferenceRequest) (reason fail_reason : Reason)
      (trace : Trace)
      → LocalFeasible
      → (tier ≡ quality → ¬ RemoteOpen)
      → (tier ≡ fast × LocalFeasible) ⊎ ¬ RemoteOpen
      → Outcome tier (try_local es request a reason fail_reason (record s { trace = trace }))
  try_local-Outcome tier es request reason fail_reason trace feasible prefers last_resort =
      reserve_cases (Outcome tier)
        (λ o. pure (granted_or_fail local a.est_local_ms reason a.est_local_ms fail_reason o))
        es.for_local request.request_id (pos 0) a.est_local_ms (record s { trace = trace })
        (λ bad. (refl, record { manager = refl; states = refl }, inr bad))
        (λ closed.
          (refl, record { manager = refl; states = refl }, (λ open_. closed open_.1), last_resort))
        (λ admissible. (
          feasible,
          record {
            reservation = new_reservation es.for_local s.manager (pos 0) a.est_local_ms;
            carried = refl;
            cost_is = refl;
            latency_is = refl;
            estimate_is = refl;
            admissible = admissible;
            entered = refl;
            pending = refl;
          },
          prefers,
        ))

  degrade-Outcome :
      (tier : ComplexityTier) (es : Envs) (lt : Tracker) (request : InferenceRequest)
      (exhausted : Reason) (trace : Trace)
      → local_estimate lt a.queue_depth ≡ a.est_local_ms
      → ¬ LocalFeasible
      → ¬ RemoteOpen
      → Outcome tier (degrade es lt request a exhausted (record s { trace = trace }))
  degrade-Outcome tier es lt request exhausted trace same infeasible closed_remote =
      elim (Bool-cases a.at_capacity) [
        | inl full ↦ simp full (
          refl,
          record { manager = refl; states = refl },
          (λ open_. cc (open_.0)),
          inr closed_remote,
        )
        | inr room ↦
            simp (room, same)
              (reserve_cases (Outcome tier)
                (λ o. pure (
                  granted_or_fail queue_local a.est_local_ms degraded (pos 0) latency_cap_degraded
                    o))
                es.for_degraded request.request_id (pos 0) a.est_local_ms
                (record s { trace = trace })
                (λ bad. (refl, record { manager = refl; states = refl }, inr bad))
                (λ closed. (
                  refl,
                  record { manager = refl; states = refl },
                  (λ open_. closed open_.1),
                  inr closed_remote,
                ))
                (λ admissible. (
                  room,
                  infeasible,
                  record {
                    reservation = new_reservation es.for_degraded s.manager (pos 0) a.est_local_ms;
                    carried = refl;
                    cost_is = refl;
                    latency_is = refl;
                    estimate_is = refl;
                    admissible = admissible;
                    entered = refl;
                    pending = refl;
                  },
                  closed_remote,
                )))
      ]

  -- The remote path first: it is taken, or the rest goes on without it.
  try_remote-Outcome :
      (tier : ComplexityTier) (es : Envs) (request : InferenceRequest) (reason : Reason)
      (rest : M RoutingDecision)
      → (tier ≡ fast → ¬ LocalFeasible)
      → ((trace : Trace) → ¬ RemoteOpen → Outcome tier (rest (record s { trace = trace })))
      → Outcome tier (
          (try_remote cost es request a >>= λ o. elim o [
            | some r ↦ pure (granted_or_fail remote a.est_remote_ms reason (pos 0) reason (some r))
            | none ↦ rest
          ])
            s)
  try_remote-Outcome tier es request reason rest last_resort other =
      elim (Bool-cases a.remote_within_sla) [
        | inr over ↦ simp over (other s.trace (λ open_. cc (over, open_.0)))
        | inl within ↦ simp within (
            reserve_cases (Outcome tier)
              (λ o. elim o [
                | some r ↦
                    pure (granted_or_fail remote a.est_remote_ms reason (pos 0) reason (some r))
                | none ↦ rest
              ])
              es.for_remote request.request_id cost a.est_remote_ms s
              (λ bad. (refl, record { manager = refl; states = refl }, inl bad))
              (λ closed. other _ (λ open_. closed open_.1))
              (λ admissible. (
                within,
                record {
                  reservation = new_reservation es.for_remote s.manager cost a.est_remote_ms;
                  carried = refl;
                  cost_is = refl;
                  latency_is = refl;
                  estimate_is = refl;
                  admissible = admissible;
                  entered = refl;
                  pending = refl;
                },
                last_resort,
              )))
      ]

  -- The test of the local path, read both ways.
  feasible : (not a.at_capacity && a.local_within_sla) ≡ true → LocalFeasible
  feasible h = ground arith

  infeasible : (not a.at_capacity && a.local_within_sla) ≡ false → ¬ LocalFeasible
  infeasible h (room, within) = ground arith

  pub route_fast-Outcome :
      (es : Envs) (lt : Tracker) (request : InferenceRequest)
      → local_estimate lt a.queue_depth ≡ a.est_local_ms
      → Outcome fast (route_fast cost es lt request a s)
  unfolding route_fast
  route_fast-Outcome es lt request same =
      elim (Bool-cases (not a.at_capacity && a.local_within_sla)) [
        | inl first ↦ simp first (
            try_local-Outcome fast es request _ _ s.trace (feasible first) (λ q. absurd (cc))
              (inl (refl, feasible first)))
        | inr other ↦ simp other (
            try_remote-Outcome fast es request _ _ (λ _. infeasible other)
              (λ trace closed.
                degrade-Outcome fast es lt request _ trace same (infeasible other) closed))
      ]

  pub route_quality-Outcome :
      (es : Envs) (lt : Tracker) (request : InferenceRequest)
      → local_estimate lt a.queue_depth ≡ a.est_local_ms
      → Outcome quality (route_quality cost es lt request a s)
  unfolding route_quality
  route_quality-Outcome es lt request same =
      try_remote-Outcome quality es request _ _ (λ q. absurd (cc))
        λ trace closed. elim (Bool-cases (not a.at_capacity && a.local_within_sla)) [
          | inl first ↦ simp first (
              try_local-Outcome quality es request _ _ trace (feasible first) (λ _. closed)
                (inr closed))
          | inr other ↦
              simp other
                (degrade-Outcome quality es lt request _ trace same (infeasible other) closed)
        ]
