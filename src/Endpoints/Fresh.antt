-- ===== src/Endpoints/Fresh.antt =====
-- The application of app/main.py after its start, and after a run starts with a reset.
use ai_routing.Prelude.{
  ℕ, suc, zero, ◌≡◌, refl, sym, ap, ◌∙◌, map, true, false, some, [], ◌∷◌, arith, String,
}
use ai_routing.Prelude.Int.{ℤ, pos, negsuc, ◌≤ℤ◌, int_laws, leb_ℤ}
use ai_routing.LockTrace.{Trace}
use ai_routing.Budget.{init as new_budget_manager, new_manager, ok}
use ai_routing.Budget.Methods.{new_manager-Inv, fresh_state}
use ai_routing.Budget.Invariant.{trace-Inv}
use ai_routing.QueueMonitor.{init as new_queue}
use ai_routing.Latency.{
  Config, Tracker, init as new_tracker, get_ema, get_estimate, backend_local, backend_remote,
}
use ai_routing.Latency.History.{init-Inv}
use ai_routing.Prelude.Dict.{lookup}
use ai_routing.EventBus.{Queue, offer, publish}
use ai_routing.Observability.{Bus, Payload, run_start_event, log_run_start}
use ai_routing.App.{App, RouteCounts}
use ai_routing.Inference.Flights.Balance.{Started}
use ai_routing.Endpoints.{Settings, app_of, new_app, lifespan, run_start, log_start}

-- A budget and at least one slot.
abbrev pub IsUsable : Settings → Type 0
IsUsable s = (pos 1 ≤ℤ s.max_remote_budget) × (pos 1 ≤ℤ s.local_queue_capacity)

-- No route is counted.
pub record NothingCounted (c : RouteCounts) : Type 0 where
  pub local_zero : c.local_count ≡ 0
  pub remote_zero : c.remote_count ≡ 0
  pub queue_local_zero : c.queue_local_count ≡ 0
  pub fail_fast_zero : c.fail_fast_count ≡ 0

-- A backend's average and estimate are its seed, and its window is empty and has the configured size.
pub record Unobserved (c : Config) (backend : String) (seed : ℕ) (t : Tracker) : Type 0 where
  pub average : get_ema backend t ≡ seed
  pub estimated : get_estimate backend t ≡ seed
  pub window : lookup backend t.windows ≡ some (record { maxlen = c.window_size; items = [] })

-- The application is a new one with these settings.
pub record IsFresh (s : Settings) (app : App) : Type 0 where
  pub started : Started app
  pub budget_limit : app.budget.max_remote_budget ≡ s.max_remote_budget
  pub latency_limit : app.budget.max_cumulative_latency_ms ≡ s.max_cumulative_latency_ms
  pub ttl : app.budget.reservation_ttl_seconds ≡ s.reservation_ttl_seconds
  pub capacity : pos app.queue.max_concurrency ≡ s.local_queue_capacity
  pub unspent : app.budget.cumulative_remote_cost ≡ pos 0
  pub unspent_latency : app.budget.cumulative_actual_latency_ms ≡ pos 0
  pub unreserved_cost : app.budget.reserved_for_execution ≡ pos 0
  pub unreserved_latency : app.budget.reserved_latency_ms ≡ pos 0
  pub smoothing :
      (app.tracker.alpha_num ≡ s.latency.alpha_num) × (app.tracker.alpha_den ≡ s.latency.alpha_den)
  pub local_unobserved :
      Unobserved s.latency backend_local s.latency.avg_local_latency_ms app.tracker
  pub remote_unobserved :
      Unobserved s.latency backend_remote s.latency.avg_remote_latency_ms app.tracker
  pub nothing_counted : NothingCounted app.counts

abbrev pub queue_id : Queue Payload → ℕ
queue_id q = q.id

offer-queue_id : (p : Payload) (q : Queue Payload) → queue_id (offer p q) ≡ queue_id q
unfolding offer
offer-queue_id p q = ground arith

logged_ids : (run_id : ℕ) (bus : Bus) → map queue_id (log_run_start run_id bus) ≡ map queue_id bus
unfolding log_run_start publish
logged_ids run_id [] = refl
logged_ids run_id (q ∷ qs) = cc (offer-queue_id (run_start_event run_id) q, logged_ids run_id qs)

positive : (z : ℤ) → pos 1 ≤ℤ z → (n : ℕ) × (z ≡ pos (suc n))
positive (pos zero) h = absurd (omega (arith, int_laws, h))
positive (pos (suc n)) h = (n, refl)
positive (negsuc n) h = absurd (omega (arith, int_laws, h))

made :
    (settings : Settings)
    → IsUsable settings
    → new_budget_manager settings.max_remote_budget settings.max_cumulative_latency_ms
        settings.reservation_ttl_seconds
      ≡ ok (
          new_manager settings.max_remote_budget settings.max_cumulative_latency_ms
            settings.reservation_ttl_seconds)
unfolding new_budget_manager
made settings usable =
    let refused : leb_ℤ settings.max_remote_budget (pos 0) ≡ false =
      let h = usable.0 in ground (arith, h) in
    rw refused refl

new_app-IsFresh :
    (settings : Settings) (trace : Trace) (bus : Bus)
    → IsUsable settings
    → (app : App) × (new_app settings trace bus ≡ some app) × IsFresh settings app × (app.bus ≡ bus)
unfolding new_queue new_tracker get_ema get_estimate lookup
new_app-IsFresh settings trace bus usable =
    let (n, slots) = positive settings.local_queue_capacity usable.1 in
    let b = settings.max_remote_budget in
    let l = settings.max_cumulative_latency_ms in
    let ttl = settings.reservation_ttl_seconds in
    (
      app_of settings trace bus (new_manager b l ttl)
          (record { max_concurrency = suc n; semaphore = suc n; active_count = 0 }),
      rw (made settings usable, slots) refl,
      record {
        started = record {
          inv = record {
            budget = trace-Inv (fresh_state (new_manager b l ttl)) trace (new_manager-Inv b l ttl);
            queue = record { total = omega arith; positive = omega arith };
            tracker = init-Inv settings.latency;
          };
          idle = refl;
          unreserved = refl;
        };
        budget_limit = refl;
        latency_limit = refl;
        capacity = sym slots;
        unspent = refl;
        unspent_latency = refl;
        ttl = refl;
        unreserved_cost = refl;
        unreserved_latency = refl;
        smoothing = (refl, refl);
        local_unobserved = record { average = refl; estimated = refl; window = refl };
        remote_unobserved = record { average = refl; estimated = refl; window = refl };
        nothing_counted = record {
          local_zero = refl;
          remote_zero = refl;
          queue_local_zero = refl;
          fail_fast_zero = refl;
        };
      },
      refl,
    )

-- With usable settings, the application starts, and then everything that is shown of a started
-- application applies: the managers are right, no slot is taken, nothing is reserved or spent.
pub lifespan-IsFresh :
    (settings : Settings)
    → IsUsable settings
    → (app : App) × (lifespan settings ≡ some app) × IsFresh settings app
unfolding lifespan
lifespan-IsFresh settings usable =
    let (app, starts, is_fresh, _) = new_app-IsFresh settings [] [] usable in
    (app, starts, is_fresh)

-- With usable settings, a run that starts with a reset leaves a new application, whatever state the old
-- one was in: the managers are right and have the configured limits, time to live and capacity; nothing
-- is spent or reserved and no slot is taken; both backends' averages and estimates are the configured
-- ones and their windows are empty; and every route's count is 0. The clients of the event stream stay
-- subscribed.
pub run_start-IsFresh :
    (settings : Settings) (run_id : ℕ) (old : App)
    → IsUsable settings
    → (app : App) × (run_start settings run_id true old ≡ some app)
      × IsFresh settings app
      × (map queue_id app.bus ≡ map queue_id old.bus)
unfolding run_start
run_start-IsFresh settings run_id old usable =
    let (app, starts, is_fresh, same_bus) =
      new_app-IsFresh settings old.budget.trace old.bus usable in
    (
      record app { bus = log_run_start run_id app.bus },
      ap (log_start run_id) starts,
      record {
        started = record {
          inv = record {
            budget = is_fresh.started.inv.budget;
            queue = is_fresh.started.inv.queue;
            tracker = is_fresh.started.inv.tracker;
          };
          idle = is_fresh.started.idle;
          unreserved = is_fresh.started.unreserved;
        };
        budget_limit = is_fresh.budget_limit;
        latency_limit = is_fresh.latency_limit;
        capacity = is_fresh.capacity;
        unspent = is_fresh.unspent;
        unspent_latency = is_fresh.unspent_latency;
        ttl = is_fresh.ttl;
        unreserved_cost = is_fresh.unreserved_cost;
        unreserved_latency = is_fresh.unreserved_latency;
        smoothing = is_fresh.smoothing;
        local_unobserved = is_fresh.local_unobserved;
        remote_unobserved = is_fresh.remote_unobserved;
        nothing_counted = is_fresh.nothing_counted;
      },
      logged_ids run_id app.bus ∙ ap (map queue_id) same_bus,
    )
