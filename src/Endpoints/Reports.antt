-- ===== src/Endpoints/Reports.antt =====
-- What the reports of app/main.py say of a state that is right, and how routes are counted.
use ai_routing.Prelude.{ℕ, ◌≡◌, ◌↔◌, refl, ap, some, inl, inr, arith, true, Bool-cases}
use ai_routing.Prelude.Int.{ℤ, pos, ◌+ℤ◌, ◌-ℤ◌, ◌≤ℤ◌, int_laws, max_ℤ, ltb_ℤ, ltb_ℤ→lt, ltb_ℤ→ge}
use ai_routing.Budget.{
  Manager, Env, ok, budget_snapshot, try_reserve, new_reservation, liquid, latency_remaining,
  eps_12,
}
use ai_routing.Budget.Table.{sum_of}
use ai_routing.Budget.Invariant.{cost_of, latency_of}
use ai_routing.Budget.Admission.{Admissible, try_reserve_iff}
use ai_routing.Decision.Attempt.{try_reserve_granted}
use ai_routing.QueueMonitor.{QueueMonitor, acquire, returns}
use ai_routing.QueueMonitor.Slots.{Inv, acquire-Inv}
use ai_routing.Observability.{RouteDecisionEvent, route_decision}
use ai_routing.Decision.{RoutingDecision}
use ai_routing.App.{App, IncomingRequest, count_route}
use ai_routing.Settlement.Accounts.{AppInv}
use ai_routing.Inference.{note_decision}
use ai_routing.Endpoints.{status, stream_payload}

-- What is left, as `status` reports it: never less than 0, and enough for a positive amount only if it
-- is left without the clamp too.
clamped :
    (left amount : ℤ)
    → (pos 0 ≤ℤ max_ℤ (pos 0) left)
      × (pos 1 ≤ℤ amount → amount ≤ℤ max_ℤ (pos 0) left → amount ≤ℤ left)
      × (amount ≤ℤ left +ℤ eps_12 → amount ≤ℤ max_ℤ (pos 0) left +ℤ eps_12)
unfolding max_ℤ
clamped left amount = elim (Bool-cases (ltb_ℤ (pos 0) left)) [
  | inl more ↦
      let above = ltb_ℤ→lt (pos 0) left more in
      rw more (omega (int_laws, above), (λ some_ within. within), λ within. within)
  | inr none_ ↦
      let below = ltb_ℤ→ge (pos 0) left none_ in
      rw none_ (
        omega int_laws,
        λ some_ within. omega (int_laws, some_, within),
        λ within. omega (int_laws, below, within),
      )
]

available :
    (q : QueueMonitor)
    → Inv q
    → (pos 1 ≤ℤ pos q.max_concurrency -ℤ pos q.active_count) ↔ ((acquire q).0 ≡ returns true)
available q v = elim (acquire-Inv q v).1 [
  | inl (free, got, _, _) ↦ (λ h. got, λ h. omega (int_laws, arith, free))
  | inr (full, got, _) ↦ (λ h. absurd (omega (int_laws, arith, full, h)), λ h. absurd (cc (got, h)))
]

-- What `status` reports in a right state is what the managers would do next. The reserved amounts are
-- those of the active reservations. What remains is never less than 0: a reservation of positive
-- amounts is granted if they are within what remains, and only if they pass it by no more than 1e-12.
-- And a local slot can be taken exactly if at least one is available.
pub status_foretells :
    (app : App) (e : Env) (request_id : ℕ) (cost lat : ℤ)
    → AppInv app
    → pos 1 ≤ℤ cost
    → pos 1 ≤ℤ lat
    → let r = status app in
      let got = (try_reserve e request_id cost lat app.budget).0 in
      let reservation = new_reservation e app.budget.manager cost lat in
      (r.remote_budget_reserved ≡ sum_of cost_of app.budget.active_reservations)
      × (r.latency_reserved_ms ≡ sum_of latency_of app.budget.active_reservations)
      × (pos 0 ≤ℤ r.remote_budget_remaining)
      × (pos 0 ≤ℤ r.latency_remaining_ms)
      × (cost ≤ℤ r.remote_budget_remaining
          → lat ≤ℤ r.latency_remaining_ms
          → got ≡ ok (some reservation))
      × (got ≡ ok (some reservation)
          → (cost ≤ℤ r.remote_budget_remaining +ℤ eps_12)
            × (lat ≤ℤ r.latency_remaining_ms +ℤ eps_12))
      × ((pos 1 ≤ℤ r.local_capacity_available) ↔ ((acquire app.queue).0 ≡ returns true))
unfolding status budget_snapshot
status_foretells app e request_id cost lat v some_cost some_lat =
    let m = app.budget.manager in
    let money = clamped (liquid m) cost in
    let time = clamped (latency_remaining m) lat in
    (
      v.budget.cost_sum,
      v.budget.latency_sum,
      money.0,
      time.0,
      λ within_cost within_lat.
          ap (λ p. p.0)
            (try_reserve_granted e request_id cost lat app.budget
              (admissible m (money.1 some_cost within_cost) (time.1 some_lat within_lat))),
      λ granted. elim (try_reserve_iff e request_id cost lat app.budget) [
        | inl (a, _, _, _) ↦
            let in_budget = a.in_budget in
            let in_latency = a.in_latency in
            (money.2 (omega (int_laws, in_budget)), time.2 (omega (int_laws, in_latency)))
        | inr (closed, inl refused, _, _) ↦ absurd (cc (granted, refused))
        | inr (closed, inr raised, _, _) ↦ absurd (cc (granted, raised))
      ],
      available app.queue v.queue,
    )
  where
    admissible :
        (m : Manager) → cost ≤ℤ liquid m → lat ≤ℤ latency_remaining m → Admissible m cost lat
    admissible m within_cost within_lat = record {
      cost_nonneg = omega (int_laws, some_cost);
      latency_nonneg = omega (int_laws, some_lat);
      not_both_zero = inl some_cost;
      in_budget = omega (int_laws, within_cost);
      in_latency = omega (int_laws, within_lat);
    }

-- Every client of the event stream that gets the event of a decision counts its route once more: with
-- the handler's own count, one decision is counted twice where one client is connected.
pub counted_twice :
    (request : IncomingRequest) (d : RoutingDecision) (app : App) (event : RouteDecisionEvent)
    → event.route ≡ d.route
    → (stream_payload (route_decision event) (note_decision request d app)).counts
      ≡ count_route d.route (count_route d.route app.counts)
unfolding stream_payload
counted_twice request d app event same = rw same refl
