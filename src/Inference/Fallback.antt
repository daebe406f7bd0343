-- ===== src/Inference/Fallback.antt =====
-- What becomes of a request of app/main.py whose remote call fails.
use ai_routing.Prelude.{◌+◌, ◌≡◌, ◌⊎◌, refl, sym, subst, true, some, inl, inr, arith, Bool-cases}
use ai_routing.Prelude.Int.{pos}
use ai_routing.Models.{ErrorText, queue_local}
use ai_routing.QueueMonitor.{is_at_capacity}
use ai_routing.QueueMonitor.Slots.{acquire-Inv}
use ai_routing.Latency.{backend_local}
use ai_routing.Latency.Record.{record_total}
use ai_routing.Budget.{State, Env, Reservation, Result, ok, raise, find, is_pending}
use ai_routing.Budget.Invariant.{Inv}
use ai_routing.Budget.Settle.{RolledBack, rollback-RolledBack}
use ai_routing.Decision.{RoutingDecision}
use ai_routing.Observability.{Detail, remote_failed_at_capacity, remote_failed_also_at_capacity}
use ai_routing.App.{
  App, IncomingRequest, InferenceResponse, BackendOutcome, SettleEnvs, gives, fails, runtime_error,
  remote_inference_error, other_error, cancelled, Stage, executing_fallback, answers, http_ok,
  http_error, unhandled, text_error, cancelled_error,
}
use ai_routing.Settlement.{
  on_failure, on_remote_error, try_fallback, after_rollback, rollback_pending, fall_back, finish,
}
use ai_routing.Settlement.Accounts.{AppInv, slots}
use ai_routing.Settlement.Handlers.{rollback_pending-LetsGo}
use ai_routing.Settlement.Called.{try_fallback-budget}
use ai_routing.Inference.{resume_remote, resume_fallback}
use ai_routing.Inference.Resumption.{resume_remote-Accounted}

-- The fallback's backend is called, or the answer is a 503.
abbrev pub FallsBack : Stage → Type 0
FallsBack stage =
    (stage ≡ executing_fallback) ⊎ ((why : Detail) × (stage ≡ answers (http_error 503 why)))

try_fallback-FallsBack :
    (text : ErrorText) (app : App) → AppInv app → FallsBack (try_fallback text app).0
unfolding try_fallback
try_fallback-FallsBack text app v = elim (Bool-cases (is_at_capacity app.queue)) [
  | inl full ↦ rw full (inr (remote_failed_at_capacity text, refl))
  | inr room ↦ elim (acquire-Inv app.queue v.queue).1 [
    | inl (free, got, count, capacity) ↦ rw (room, got) (inl refl)
    | inr (full, got, same) ↦ rw (room, got) (inr (remote_failed_also_at_capacity, refl))
  ]
]

-- What is answered when the fallback's call has ended: its result as QUEUE_LOCAL and at no cost, a 503
-- for the `RuntimeError` of the queue, and anything else as it is.
abbrev pub FallbackAnswers : BackendOutcome → Stage → Type 0
FallbackAnswers (gives result) stage =
    (response : InferenceResponse) × (stage ≡ answers (http_ok response))
    × (response.route ≡ queue_local)
    × (response.actual_cost ≡ pos 0)
    × (response.result ≡ result.result)
FallbackAnswers (fails (runtime_error _)) stage =
    stage ≡ answers (http_error 503 remote_failed_also_at_capacity)
FallbackAnswers (fails (remote_inference_error text)) stage =
    stage ≡ answers (unhandled (text_error text))
FallbackAnswers (fails (other_error text)) stage = stage ≡ answers (unhandled (text_error text))
FallbackAnswers (fails cancelled) stage = stage ≡ answers (unhandled cancelled_error)

resume_fallback-FallbackAnswers :
    (request : IncomingRequest) (outcome : BackendOutcome) (app : App)
    → AppInv app
    → FallbackAnswers outcome (resume_fallback request outcome app).0
unfolding resume_fallback finish
resume_fallback-FallbackAnswers request (gives result) app v =
    let (tracker, done, recorded) =
      record_total backend_local result.actual_latency_ms app.tracker v.tracker in
    rw (done, finish) (_, refl, refl, refl, refl)
resume_fallback-FallbackAnswers request (fails (runtime_error text)) app v = refl
resume_fallback-FallbackAnswers request (fails (remote_inference_error text)) app v = refl
resume_fallback-FallbackAnswers request (fails (other_error text)) app v = refl
resume_fallback-FallbackAnswers request (fails cancelled) app v = refl

pending_rollback-RolledBack :
    (e : Env) (r : Reservation) (s : State)
    → Inv s
    → find r.id s.active_reservations ≡ some r
    → RolledBack r s (rollback_pending e (some r) s).1
pending_rollback-RolledBack e r s v found =
    let pending : is_pending r.id s.states ≡ true = ground (arith, v.pending_active r.id, found) in
    rw pending (rollback-RolledBack e r.id r s v found)

-- The step of a remote call's failure: its reservation is rolled back, and it falls back.
record Failed (r : Reservation) (before : State) (p : Stage × App) : Type 0 where
  rolled_back : RolledBack r before p.1.budget
  falls_back : FallsBack p.0

remote_failure-Failed :
    (es : SettleEnvs) (request : IncomingRequest) (d : RoutingDecision) (r : Reservation)
    (text : ErrorText) (app : App)
    → AppInv app
    → d.reservation ≡ some r
    → find r.id app.budget.active_reservations ≡ some r
    → Failed r app.budget (resume_remote es request d (fails (remote_inference_error text)) app)
unfolding resume_remote on_failure on_remote_error
remote_failure-Failed es request d r text app v carried found =
    let (fine, lets_go) = rollback_pending-LetsGo es.for_rollback (some r) app.budget v.budget in
    rw carried (
      by_result (rollback_pending es.for_rollback (some r) app.budget) fine lets_go.inv
        (pending_rollback-RolledBack es.for_rollback r app.budget v.budget found))
  where
    next : App → Stage × App
    next = fall_back request.request_id text (some r) app.budget

    by_result :
        (p : Result (Unit {0}) × State)
        → p.0 ≡ ok tt
        → Inv p.1
        → RolledBack r app.budget p.1
        → Failed r app.budget (after_rollback next app p)
    by_result (ok _, t) fine inv back = record {
      rolled_back = subst (RolledBack r app.budget) (sym (try_fallback-budget text _)) back;
      falls_back =
          try_fallback-FallsBack text _
            (record { budget = inv; queue = v.queue; tracker = v.tracker });
    }
    by_result (raise x, t) fine inv back = absurd (cc)

-- When a remote call fails with a `RemoteInferenceError`, its active reservation is rolled back: it is
-- out of the table, what it held is back in the pool, and nothing is booked. Then either the local
-- fallback is called, in a slot that the request has taken, or the answer is a 503 and no slot is taken.
-- And once the call of a fallback has ended, in whatever right state the application is by then, its
-- result is answered as QUEUE_LOCAL at no cost, a `RuntimeError` with 503, and any other exception
-- leaves the handler as it is.
pub remote_failure-FallsBack :
    (es : SettleEnvs) (request : IncomingRequest) (d : RoutingDecision) (r : Reservation)
    (text : ErrorText) (app : App) (outcome : BackendOutcome) (later : App)
    → AppInv app
    → d.reservation ≡ some r
    → find r.id app.budget.active_reservations ≡ some r
    → AppInv later
    → let (stage, after) = resume_remote es request d (fails (remote_inference_error text)) app in
      RolledBack r app.budget after.budget
      × FallsBack stage
      × (after.queue.active_count ≡ app.queue.active_count + slots stage)
      × FallbackAnswers outcome (resume_fallback request outcome later).0
remote_failure-FallsBack es request d r text app outcome later v carried found w =
    let failed = remote_failure-Failed es request d r text app v carried found in
    let books =
      resume_remote-Accounted es request d (fails (remote_inference_error text)) app v
        (λ same. absurd (cc same)) in
    let count = books.count in
    (
      failed.rolled_back,
      failed.falls_back,
      omega (arith, count),
      resume_fallback-FallbackAnswers request outcome later w,
    )
