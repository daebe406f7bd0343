-- ===== src/Inference/Flights/Balance.antt =====
-- No reservation and no slot of app/main.py is lost, whatever requests are on their way.
use ai_routing.Prelude.{
  ℕ, zero, suc, ◌+◌, ◌≤◌, ◌≡◌, ◌≢◌, refl, ap, ◌∙◌, Bool, true, ◌||◌, List, [], ◌∷◌, arith, inl, inr,
}
use ai_routing.Prelude.Int.{ℤ}
use ai_routing.Budget.{State, contains, expire_stale_reservations}
use ai_routing.Budget.Table.{contains-pop}
use ai_routing.Budget.Invariant.{Inv}
use ai_routing.Budget.Methods.{expire_stale_reservations-Inv, expire_cases}
use ai_routing.App.{
  App, Stage, executing_remote, executing_local, executing_fallback, waits, answers, SettleEnvs,
  BackendOutcome, IncomingRequest,
}
use ai_routing.Settlement.Accounts.{
  AppInv, Accounted, slots, keeps_id, nothing, active, answer-Accounted,
}
use ai_routing.Inference.Arrival.{receive-Accounted}
use ai_routing.Inference.Resumption.{
  Ends, resume_remote-Accounted, resume_local-Accounted, resume_fallback-Accounted,
}
use ai_routing.Inference.Flights.{
  Flight, World, Event, arrives, ends, reaps, resume, advance, step, run, Allowed, AllAllowed,
  slots_held, is_kept, NoneWaits,
}

-- The managers are right; the count of the queue is that of the slots held, `n` of them by others; and
-- what is active is kept by a request or by others.
pub record Balanced (most n : ℕ) (others : ℕ → Bool) (fs : List Flight) (app : App) : Type 0 where
  pub inv : AppInv app
  pub capacity : app.queue.max_concurrency ≡ most
  pub count : app.queue.active_count ≡ n + slots_held fs
  pub kept : (j : ℕ) → active j app ≡ true → (others j || is_kept fs j) ≡ true
  pub none_waits : NoneWaits fs

resume-Accounted :
    (es : SettleEnvs) (outcome : BackendOutcome) (request : IncomingRequest) (stage : Stage)
    (app : App)
    → AppInv app
    → Ends outcome
    → slots stage ≤ app.queue.active_count
    → stage ≢ waits
    → Accounted (slots stage) (keeps_id stage) app (resume es outcome request stage app)
resume-Accounted es outcome request (executing_remote d) app v e taken goes =
    resume_remote-Accounted es request d outcome app v e
resume-Accounted es outcome request (executing_local d) app v e taken goes =
    resume_local-Accounted es request d outcome app v (omega (arith, taken)) e
resume-Accounted es outcome request executing_fallback app v e taken goes =
    resume_fallback-Accounted request outcome app v (omega (arith, taken))
resume-Accounted es outcome request waits app v e taken goes = absurd (goes refl)
resume-Accounted es outcome request (answers r) app v e taken goes =
    answer-Accounted r app app v refl refl

-- One request's step, beside the others.
Accounted-Balanced :
    (most n : ℕ) (others : ℕ → Bool) (f : Flight) (fs : List Flight) (app : App) (p : Stage × App)
    → Balanced most n others (f ∷ fs) app
    → Accounted (slots f.stage) (keeps_id f.stage) app p
    → Balanced most n others (record f { stage = p.0 } ∷ fs) p.1
Accounted-Balanced most n others f fs app p b a = record {
  inv = a.inv;
  capacity = a.capacity ∙ b.capacity;
  count = let c = a.count in let d = b.count in omega (arith, c, d);
  kept = λ j there. elim (a.reservations j there) [
    | inl own ↦ ground (arith, own)
    | inr (was, let_go) ↦ ground (arith, b.kept j was, let_go)
  ];
  none_waits = (a.goes_on, b.none_waits.1);
}

advance-Balanced :
    (most n : ℕ) (others : ℕ → Bool) (i : ℕ) (es : SettleEnvs) (outcome : BackendOutcome)
    (fs : List Flight) (app : App)
    → Ends outcome
    → Balanced most n others fs app
    → let (fs', app') = advance i es outcome fs app in Balanced most n others fs' app'
advance-Balanced most n others i es outcome [] app e b = b
advance-Balanced most n others zero es outcome (f ∷ fs) app e b =
    let c = b.count in
    Accounted-Balanced most n others f fs app _ b
      (resume-Accounted es outcome f.request f.stage app b.inv e (omega (arith, c)) b.none_waits.0)
advance-Balanced most n others (suc i) es outcome (f ∷ fs) app e b =
    let c = b.count in
    let rest =
      advance-Balanced most (n + slots f.stage) (λ j. others j || keeps_id f.stage j) i es outcome
        fs app e
        (record {
          inv = b.inv;
          capacity = b.capacity;
          count = omega (arith, c);
          kept = λ j there. ground (arith, b.kept j there);
          none_waits = b.none_waits.1;
        }) in
    let d = rest.count in
    record {
      inv = rest.inv;
      capacity = rest.capacity;
      count = omega (arith, d);
      kept = λ j there. ground (arith, rest.kept j there);
      none_waits = (b.none_waits.0, rest.none_waits);
    }

-- What the reaper leaves active was active.
reaps-active :
    (now : ℤ) (s : State)
    → Inv s
    → (j : ℕ) → contains j (expire_stale_reservations now s).1.active_reservations ≡ true
    → contains j s.active_reservations ≡ true
reaps-active now s v =
    (expire_cases
      (λ t.
        (j : ℕ) → contains j t.active_reservations ≡ true → contains j s.active_reservations ≡ true)
      (λ r t w found before j there.
        before j (ground (arith, contains-pop j r.id t.active_reservations w.distinct)))
      now s v (λ j there. there)).1

step-Balanced :
    (most : ℕ) (e : Event) (w : World)
    → Allowed e w
    → Balanced most 0 nothing w.flights w.app
    → let t = step e w in Balanced most 0 nothing t.flights t.app
unfolding step
step-Balanced most (arrives cost es e request) w fresh b =
    let a = receive-Accounted cost es e request w.app b.inv fresh in
    let c = a.count in
    let d = b.count in
    record {
      inv = a.inv;
      capacity = a.capacity ∙ b.capacity;
      count = omega (arith, c, d);
      kept = λ j there. elim (a.reservations j there) [
        | inl own ↦ ground (arith, own)
        | inr (was, _) ↦ ground (arith, b.kept j was)
      ];
      none_waits = (a.goes_on, b.none_waits);
    }
step-Balanced most (ends i es outcome) w e b =
    advance-Balanced most 0 nothing i es outcome w.flights w.app e b
step-Balanced most (reaps now) w allowed b = record {
  inv = record {
    budget = expire_stale_reservations-Inv now w.app.budget b.inv.budget;
    queue = b.inv.queue;
    tracker = b.inv.tracker;
  };
  capacity = b.capacity;
  count = b.count;
  kept = λ j there. b.kept j (reaps-active now w.app.budget b.inv.budget j there);
  none_waits = b.none_waits;
}

pub run-Balanced :
    (most : ℕ) (es : List Event) (w : World)
    → AllAllowed es w
    → Balanced most 0 nothing w.flights w.app
    → let t = run es w in Balanced most 0 nothing t.flights t.app
unfolding run
run-Balanced most [] w allowed b = b
run-Balanced most (e ∷ es) w allowed b =
    run-Balanced most es (step e w) allowed.1 (step-Balanced most e w allowed.0 b)

-- An application that has just started.
pub record Started (app : App) : Type 0 where
  pub inv : AppInv app
  pub idle : app.queue.active_count ≡ 0
  pub unreserved : app.budget.active_reservations ≡ []

abbrev pub nobody : App → World
nobody app = record { app = app; flights = [] }

pub start-Balanced : (app : App) → Started app → Balanced app.queue.max_concurrency 0 nothing [] app
start-Balanced app s = record {
  inv = s.inv;
  capacity = refl;
  count = s.idle;
  kept = λ j there. absurd (cc (ap (contains j) s.unreserved, there));
  none_waits = tt;
}

-- In every interleaving of requests, of the ends of their backends' calls and of the reaper, from the
-- start of the application: the queue's count is the number of requests that execute locally, and
-- never passes the capacity; every active reservation is one that a request on its way will still
-- settle; and no request waits for the semaphore under the queue's lock. No call is cancelled, and the
-- ids that `uuid4` gives are new ones.
pub run_balances :
    (es : List Event) (app : App)
    → Started app
    → AllAllowed es (nobody app)
    → let w = run es (nobody app) in
      (w.app.queue.active_count ≡ slots_held w.flights)
      × (slots_held w.flights ≤ app.queue.max_concurrency)
      × ((j : ℕ) → active j w.app ≡ true → is_kept w.flights j ≡ true)
      × NoneWaits w.flights
run_balances es app started allowed =
    let b =
      run-Balanced app.queue.max_concurrency es (nobody app) allowed (start-Balanced app started) in
    let c = b.count in
    let same = b.capacity in
    let total = b.inv.queue.total in
    (omega (arith, c), omega (arith, c, same, total), b.kept, b.none_waits)
