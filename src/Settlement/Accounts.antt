-- ===== src/Settlement/Accounts.antt =====
-- The books of app/main.py: who holds a slot and who holds a reservation, before and after a step.
use ai_routing.Prelude.{ℕ, ◌+◌, ◌<◌, ◌≡◌, ◌≢◌, ◌⊎◌, inl, inr, Bool, true, false, arith}
use ai_routing.Budget.{State, contains}
use ai_routing.Budget.Invariant.{Inv}
use ai_routing.QueueMonitor.Slots.{Inv as QueueInv, release-Inv}
use ai_routing.Latency.Record.{Inv as TrackerInv}
use ai_routing.Decision.Ledger.{reserves_id}
use ai_routing.App.{
  App, Stage, executing_remote, executing_local, executing_fallback, waits, answers, Response,
}
use ai_routing.Settlement.{leave_slot}

-- The managers are right.
pub record AppInv (app : App) : Type 0 where
  pub budget : Inv app.budget
  pub queue : QueueInv app.queue
  pub tracker : TrackerInv app.tracker

-- The slots that a stage holds.
abbrev pub slots : Stage → ℕ
slots (executing_local d) = 1
slots executing_fallback = 1
slots _ = 0

-- The reservations that a stage will settle.
abbrev pub keeps_id : Stage → ℕ → Bool
keeps_id (executing_remote d) = reserves_id d.reservation
keeps_id (executing_local d) = reserves_id d.reservation
keeps_id _ = λ j. false

abbrev pub nothing : ℕ → Bool
nothing j = false

abbrev pub active : ℕ → App → Bool
active id app = contains id app.budget.active_reservations

-- A step from a stage that holds `n` slots and the reservations `held`: the managers stay right, the
-- count of the queue changes as the slots of the stage do, what is active was active and not held, or
-- is held now, and the step does not wait for the semaphore.
pub record Accounted (n : ℕ) (held : ℕ → Bool) (app : App) (p : Stage × App) : Type 0 where
  pub inv : AppInv p.1
  pub count : p.1.queue.active_count + n ≡ app.queue.active_count + slots p.0
  pub capacity : p.1.queue.max_concurrency ≡ app.queue.max_concurrency
  pub reservations :
      (j : ℕ)
      → active j p.1 ≡ true
      → (keeps_id p.0 j ≡ true) ⊎ ((active j app ≡ true) × (held j ≡ false))
  pub goes_on : p.0 ≢ waits

-- An answer that leaves the managers alone.
pub answer-Accounted :
    (r : Response) (app app' : App)
    → AppInv app'
    → app'.budget ≡ app.budget
    → app'.queue ≡ app.queue
    → Accounted 0 nothing app (answers r, app')
answer-Accounted r app app' v budget queue = record {
  inv = v;
  count = ground (arith, queue);
  capacity = ground (arith, queue);
  reservations = λ j there. ground (arith, budget);
  goes_on = λ e. absurd (cc);
}

-- The budget has let go of what is held.
pub settled-Accounted :
    (n : ℕ) (held then_held : ℕ → Bool) (t : State) (app : App) (p : Stage × App)
    → ((j : ℕ) → contains j t.active_reservations ≡ true → (active j app ≡ true) × (held j ≡ false))
    → Accounted n then_held (record app { budget = t }) p
    → Accounted n held app p
settled-Accounted n held then_held t app p gone a = record {
  inv = a.inv;
  count = a.count;
  capacity = a.capacity;
  reservations = λ j there. elim (a.reservations j there) [
    | inl kept ↦ inl kept
    | inr before ↦ inr (gone j before.0)
  ];
  goes_on = a.goes_on;
}

-- The slot is given back before the rest.
pub leave-Accounted :
    (held : ℕ → Bool) (app : App) (p : Stage × App)
    → AppInv app
    → 0 < app.queue.active_count
    → Accounted 0 held (leave_slot app) p
    → Accounted 1 held app p
leave-Accounted held app p v taken a =
    let (inv, count, capacity) = release-Inv app.queue v.queue in
    record {
      inv = a.inv;
      count = let c = a.count in omega (arith, c, count);
      capacity = let c = a.capacity in omega (arith, c, capacity);
      reservations = a.reservations;
      goes_on = a.goes_on;
    }

pub leave-AppInv : (app : App) → AppInv app → AppInv (leave_slot app)
leave-AppInv app v = record {
  budget = v.budget;
  queue = (release-Inv app.queue v.queue).0;
  tracker = v.tracker;
}
