-- ===== src/Budget/Age.antt =====
-- The reaper's task of app/budget_manager.py (`_reaper_loop`, `start_reaper`, `stop_reaper`), and how
-- old a reservation can be.
use ai_routing.Prelude.{
  ℕ, ◌≡◌, sym, ap, subst, false, List, [], ◌∷◌, arith, All, Bool-cases, inl, inr, ◌==◌,
}
use ai_routing.Prelude.Int.{ℤ, pos, ◌≤ℤ◌, ◌+ℤ◌, ◌-ℤ◌, int_laws, ltb_ℤ, ltb_ℤ→ge}
use ai_routing.Budget.Types.{State, Reservation, insert, pop, is_expired}
use ai_routing.Budget.{expire_stale_reservations, new_reservation}
use ai_routing.Budget.Invariant.{Inv}
use ai_routing.Budget.Cases.{try_reserve_cases, commit_cases, rollback_cases}
use ai_routing.Budget.Methods.{expire_cases, expire_stale_reservations-Inv}
use ai_routing.Budget.Caps.{expire_stale_reservations-caps}
use ai_routing.Budget.Overspend.{step-caps}
use ai_routing.Budget.History.{
  Call, reserves, commits, rollbacks, expires, step, run, FreshIds, step-Inv,
}
use ai_routing.Budget.Reaper.{live, expire-live}

-- `_reaper_task`: none, running, or done.
pub data ReaperTask : Type 0 where
  not_started running done : ReaperTask

-- `start_reaper` makes a new task, whatever there was.
unfoldable pub start_reaper : ReaperTask → ReaperTask
start_reaper task = running

-- `stop_reaper`
unfoldable pub stop_reaper : ReaperTask → ReaperTask
stop_reaper running = done
stop_reaper not_started = not_started
stop_reaper done = done

-- The end of a sleep of `_reaper_loop`, at a clock reading: one iteration, unless the task is no more.
unfoldable pub reaper_wakes : ReaperTask → ℤ → State → State
reaper_wakes running now s = (expire_stale_reservations now s).1
reaper_wakes not_started now s = s
reaper_wakes done now s = s

-- No entry was stale at `now`.
abbrev pub Young : ℤ → State → Type 0
Young now s = All (λ r. is_expired now r ≡ false) s.active_reservations

live-All : (now : ℤ) (rs : List Reservation) → All (λ r. is_expired now r ≡ false) (live now rs)
live-All now [] = tt
live-All now (r ∷ rs) = elim (Bool-cases (is_expired now r)) [
  | inl old ↦ rw old (live-All now rs)
  | inr young ↦ rw young (young, live-All now rs)
]

insert-All :
    (P : Reservation → Type 0) (r : Reservation) (rs : List Reservation)
    → P r
    → All P rs
    → All P (insert r rs)
insert-All P r [] p h = (p, tt)
insert-All P r (x ∷ rs) p h = elim (Bool-cases (r.id == x.id)) [
  | inl same ↦ rw same (p, h.1)
  | inr other ↦ rw other (h.0, insert-All P r rs p h.1)
]

pop-All : (P : Reservation → Type 0) (id : ℕ) (rs : List Reservation) → All P rs → All P (pop id rs)
pop-All P id [] h = tt
pop-All P id (x ∷ rs) h = elim (Bool-cases (id == x.id)) [
  | inl same ↦ rw same h.1
  | inr other ↦ rw other (h.0, pop-All P id rs h.1)
]

-- The clock of a call that makes a reservation is not behind `now`.
abbrev pub Since : ℤ → Call → Type 0
Since now (reserves e request_id cost lat) = now ≤ℤ e.now
Since now _ = Unit

ge→ltb_ℤ : (a b : ℤ) → b ≤ℤ a → ltb_ℤ a b ≡ false
ge→ltb_ℤ a b h = ground arith

module _ (now : ℤ) where
  step-Young :
      (c : Call) (s : State)
      → Since now c
      → pos 0 ≤ℤ s.reservation_ttl_seconds
      → Inv s
      → Young now s
      → Young now (step c s)
  unfolding step
  step-Young (reserves e request_id cost lat) s since ttl v y =
      try_reserve_cases (Young now) (λ t trace h. h) e request_id cost lat s y
        (λ good fits.
          insert-All (λ r. is_expired now r ≡ false) (new_reservation e s.manager cost lat)
            s.active_reservations
            (ge→ltb_ℤ s.reservation_ttl_seconds (now -ℤ e.now) (omega (int_laws, since, ttl))) y)
  step-Young (commits e id cost lat) s since ttl v y =
      commit_cases (Young now) (λ t trace h. h) e id cost lat s y
        (λ r found. pop-All (λ r. is_expired now r ≡ false) r.id s.active_reservations y)
        (λ r found within fits.
          pop-All (λ r. is_expired now r ≡ false) r.id s.active_reservations y)
  step-Young (rollbacks e id) s since ttl v y =
      rollback_cases (Young now) (λ t trace h. h) e id s y
        (λ r found. pop-All (λ r. is_expired now r ≡ false) r.id s.active_reservations y)
  step-Young (expires time) s since ttl v y =
      (expire_cases (Young now)
        (λ r t w found h. pop-All (λ r. is_expired now r ≡ false) r.id t.active_reservations h) time
        s v y).1

  run-Young :
      (cs : List Call) (s : State)
      → All (Since now) cs
      → FreshIds cs s
      → pos 0 ≤ℤ s.reservation_ttl_seconds
      → Inv s
      → Young now s
      → Young now (run cs s)
  unfolding run
  run-Young [] s since fresh ttl v y = y
  run-Young (c ∷ cs) s since fresh ttl v y =
      run-Young cs (step c s) since.1 fresh.1
        (subst (λ t. pos 0 ≤ℤ t) (sym (ap (λ k. k.2) (step-caps c s))) ttl) (step-Inv c s fresh.0 v)
        (step-Young c s since.0 ttl v y)

age_bounded :
    (now later : ℤ) (rs : List Reservation)
    → All (λ r. is_expired now r ≡ false) rs
    → All (λ r. later -ℤ r.created_at ≤ℤ r.ttl_seconds +ℤ (later -ℤ now)) rs
age_bounded now later [] y = tt
age_bounded now later (r ∷ rs) y = (
  omega (int_laws, ltb_ℤ→ge r.ttl_seconds (now -ℤ r.created_at) y.0),
  age_bounded now later rs y.1,
)

-- Once the reaper has woken at a clock reading `now`, then after any further calls, whose clocks are
-- not behind that, every active reservation is at any later time older than its time to live by at
-- most the time since `now`: with a scan in each interval, a reservation that nobody settles is active
-- for at most its time to live and an interval. The reaper's task is running, the time to live is not
-- negative, and the ids that `uuid4` gives are new ones.
pub reaper_bounds_age :
    (now later : ℤ) (task : ReaperTask) (cs : List Call) (s : State)
    → Inv s
    → pos 0 ≤ℤ s.reservation_ttl_seconds
    → All (Since now) cs
    → FreshIds cs (reaper_wakes (start_reaper task) now s)
    → All
        (λ r. later -ℤ r.created_at ≤ℤ r.ttl_seconds +ℤ (later -ℤ now))
        (run cs (reaper_wakes (start_reaper task) now s)).active_reservations
unfolding reaper_wakes start_reaper
reaper_bounds_age now later task cs s v ttl since fresh =
    let scanned = (expire_stale_reservations now s).1 in
    age_bounded now later (run cs scanned).active_reservations (
      run-Young now cs scanned since fresh
        (subst (λ t. pos 0 ≤ℤ t) (sym (ap (λ k. k.2) (expire_stale_reservations-caps now s))) ttl)
        (expire_stale_reservations-Inv now s v)
        (subst (All (λ r. is_expired now r ≡ false)) (sym (expire-live now s v).0)
          (live-All now s.active_reservations)))
