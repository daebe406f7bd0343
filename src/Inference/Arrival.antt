-- ===== src/Inference/Arrival.antt =====
-- The first step of the handler of POST /inference (app/main.py) keeps the books.
use ai_routing.Prelude.{ℕ, ◌≡◌, ◌⊎◌, refl, true, false, Option, none, some, arith, inl, inr}
use ai_routing.Prelude.Int.{ℤ}
use ai_routing.Models.{RouteDecision, local, remote, queue_local, fail_fast}
use ai_routing.QueueMonitor.{acquire}
use ai_routing.QueueMonitor.Slots.{acquire-Inv}
use ai_routing.Budget.{State, Env, Result, ok, raise}
use ai_routing.Decision.{RoutingDecision, Envs}
use ai_routing.Decision.Ledger.{reserves_id, FreshEnvs, Effect, route-Effect}
use ai_routing.App.{App, IncomingRequest, with_tier, unhandled, budget_error}
use ai_routing.Settlement.Accounts.{
  AppInv, Accounted, nothing, active, answer-Accounted, settled-Accounted,
}
use ai_routing.Settlement.Handlers.{on_runtime_error-Accounted, with_budget, with_budget-AppInv}
use ai_routing.Inference.{enter_slot, execute, note_decision, after_route, receive}

-- A decision that was made, and its reservation, which the table holds with what it held before.
module _ (e : Env) (request : IncomingRequest) (before : App) where
  abbrev Reserved : RoutingDecision → App → Type 0
  Reserved d app =
      (j : ℕ)
      → active j app ≡ true
      → (reserves_id d.reservation j ≡ true) ⊎ ((active j before ≡ true) × (nothing j ≡ false))

  enter_slot-Accounted :
      (d : RoutingDecision) (app : App)
      → AppInv app
      → app.queue ≡ before.queue
      → Reserved d app
      → Accounted 0 nothing before (enter_slot e request.request_id d app)
  unfolding enter_slot
  enter_slot-Accounted d app v queue reserved =
      let (inv, cases) = acquire-Inv app.queue v.queue in
      let app_inv : AppInv (record app { queue = (acquire app.queue).1 }) = record {
        budget = v.budget;
        queue = inv;
        tracker = v.tracker;
      } in
      elim cases [
        | inl (free, got, count, capacity) ↦
            rw (got, enter_slot)
              (record {
                inv = app_inv;
                count = ground (arith, count, queue);
                capacity = ground (arith, capacity, queue);
                reservations = reserved;
                goes_on = λ q. absurd (cc);
              })
        | inr (full, got, same) ↦
            let rejected =
              on_runtime_error-Accounted e d.reservation
                (record app { queue = (acquire app.queue).1 }) app_inv request.request_id in
            rw (got, enter_slot)
              (record {
                inv = rejected.inv;
                count = let c = rejected.count in ground (arith, c, same, queue);
                capacity = let c = rejected.capacity in ground (arith, c, same, queue);
                reservations = λ j there. elim (rejected.reservations j there) [
                  | inl kept ↦ inl kept
                  | inr (was, other) ↦ elim (reserved j was) [
                    | inl own ↦ absurd (cc (own, other))
                    | inr known ↦ inr known
                  ]
                ];
                goes_on = rejected.goes_on;
              })
      ]

  execute-Accounted :
      (d : RoutingDecision) (taken : RouteDecision) (app : App)
      → d.route ≡ taken
      → AppInv app
      → app.queue ≡ before.queue
      → Reserved d app
      → (d.route ≡ fail_fast → d.reservation ≡ none)
      → Accounted 0 nothing before (execute e request d taken app)
  unfolding execute
  execute-Accounted d fail_fast app same v queue reserved free = record {
    inv = record { budget = v.budget; queue = v.queue; tracker = v.tracker };
    count = ground (arith, queue);
    capacity = ground (arith, queue);
    reservations = λ j there. elim (reserved j there) [
      | inl own ↦ absurd (unreserved (d.reservation) (free same) j own)
      | inr known ↦ inr known
    ];
    goes_on = λ q. absurd (cc);
  }
    where
      unreserved : (o : Option _) → o ≡ none → (j : ℕ) → reserves_id o j ≡ true → ⊥
      unreserved none h j own = absurd (cc)
      unreserved (some r) h j own = absurd (cc)
  execute-Accounted d remote app same v queue reserved free = record {
    inv = record { budget = v.budget; queue = v.queue; tracker = v.tracker };
    count = ground (arith, queue);
    capacity = ground (arith, queue);
    reservations = reserved;
    goes_on = λ q. absurd (cc);
  }
  execute-Accounted d local app same v queue reserved free =
      enter_slot-Accounted d (note_decision request d app)
        (record { budget = v.budget; queue = v.queue; tracker = v.tracker }) queue reserved
  execute-Accounted d queue_local app same v queue reserved free =
      enter_slot-Accounted d (note_decision request d app)
        (record { budget = v.budget; queue = v.queue; tracker = v.tracker }) queue reserved

  after_route-Accounted :
      (p : Result RoutingDecision × State)
      → AppInv before
      → Effect before.budget p
      → Accounted 0 nothing before (after_route e request before p)
  after_route-Accounted (ok d, t) v effect =
      execute-Accounted d d.route (with_budget before t) refl
        (with_budget-AppInv before t v effect.inv) refl (λ j there. ground (arith, effect.table j))
        effect.fails_free
  after_route-Accounted (raise x, t) v effect =
      settled-Accounted 0 nothing nothing t before _ (λ j there. ground (arith, effect.table j))
        (answer-Accounted (unhandled (budget_error x)) (with_budget before t) (with_budget before t)
          (with_budget-AppInv before t v effect.inv) refl refl)

-- The first step of a request, from its arrival to the call of a backend or to its answer, keeps the
-- books: a reservation that it makes and a slot that it takes are the request's own when a backend is
-- called, and a request that is answered at once leaves neither behind. It never waits for the
-- semaphore. The ids that `uuid4` gives are new ones.
pub receive-Accounted :
    (cost : ℤ) (es : Envs) (e : Env) (request : IncomingRequest) (app : App)
    → AppInv app
    → FreshEnvs es app.budget
    → Accounted 0 nothing app (receive cost es e request app)
unfolding receive
receive-Accounted cost es e request app v fresh =
    after_route-Accounted e request app _ v
      (route-Effect app.budget v.budget cost es app.queue app.tracker (with_tier request) fresh)
