-- ===== src/Budget/Sections.antt =====
-- The lock trace of `BudgetManager` (app/budget_manager.py) over histories of calls: one critical
-- section after another.
use ai_routing.Prelude.{
  ℕ, ◌≤◌, ◌≡◌, refl, sym, ap, subst, ◌∙◌, inl, inr, Bool, true, false, not, List, [], ◌∷◌, ◌++◌,
  length, leb, drop, arith, Bool-cases, All, if◌then◌else◌,
}
use ai_routing.Prelude.Int.{ℤ}
use ai_routing.LockTrace.{
  LockEvent, Trace, Phase, reserve, settle, Action, acquire, release, lock_event, max_trace_entries,
}
use ai_routing.Budget.Types.{State, Env, Reservation, rolled_back, is_expired}
use ai_routing.Budget.{
  expire_loop, drop_clamped, try_reserve, commit, commit_found, rollback, expire_stale_reservations,
  bad_request,
}
use ai_routing.Budget.History.{Call, reserves, commits, rollbacks, expires, step, run}

-- The event that comes next, inside of a section and outside.
abbrev pub next_action : Bool → Action
next_action false = acquire
next_action true = release

-- The events go from inside or outside of a section (`a`) to inside or outside (`b`), with a start
-- only outside and an end only inside.
abbrev pub Alternates : Bool → Trace → Bool → Type 0
Alternates a [] b = a ≡ b
Alternates a (e ∷ es) b = (e.action ≡ next_action a) × Alternates (not a) es b

Alternates-append :
    (a b : Bool) (t : Trace) (e : LockEvent)
    → Alternates a t b
    → e.action ≡ next_action b
    → Alternates a (t ++ (e ∷ [])) (not b)
Alternates-append a b [] e h k = (k ∙ ap next_action (sym h), ap not h)
Alternates-append a b (d ∷ ds) e h k = (h.0, Alternates-append (not a) b ds e h.1 k)

Alternates-drop :
    (a b : Bool) (t : Trace) → Alternates a t b → (c : Bool) × Alternates c (drop 1 t) b
Alternates-drop a b [] h = (a, h)
Alternates-drop a b (d ∷ ds) h = (not a, h.1)

-- The entries stand in the order of time, and none is later than `now`.
abbrev pub Upto : ℕ → Trace → Type 0
Upto now [] = Unit
Upto now (e ∷ es) =
    (e.timestamp_us ≤ now) × All (λ d. e.timestamp_us ≤ d.timestamp_us) es × Upto now es

pub record Orderly (now : ℕ) (inside : Bool) (t : Trace) : Type 0 where
  pub first : Bool
  pub alternates : Alternates first t inside
  pub upto : Upto now t

All-append :
    (n : ℕ) (t : Trace) (e : LockEvent)
    → n ≤ e.timestamp_us
    → All (λ d. n ≤ d.timestamp_us) t
    → All (λ d. n ≤ d.timestamp_us) (t ++ (e ∷ []))
All-append n [] e h a = (h, tt)
All-append n (d ∷ ds) e h a = (a.0, All-append n ds e h a.1)

Upto-append :
    (now : ℕ) (t : Trace) (e : LockEvent)
    → now ≤ e.timestamp_us
    → Upto now t
    → Upto e.timestamp_us (t ++ (e ∷ []))
Upto-append now [] e h u = (omega arith, tt, tt)
Upto-append now (d ∷ ds) e h (le, a, u) = (
  omega (arith, le, h),
  All-append d.timestamp_us ds e (omega (arith, le, h)) a,
  Upto-append now ds e h u,
)

Upto-drop : (now : ℕ) (t : Trace) → Upto now t → Upto now (drop 1 t)
Upto-drop now [] u = tt
Upto-drop now (d ∷ ds) u = u.2

append-Orderly :
    (now : ℕ) (inside : Bool) (t : Trace) (e : LockEvent)
    → Orderly now inside t
    → now ≤ e.timestamp_us
    → e.action ≡ next_action inside
    → Orderly e.timestamp_us (not inside) (t ++ (e ∷ []))
append-Orderly now inside t e o h k = record {
  first = o.first;
  alternates = Alternates-append o.first inside t e o.alternates k;
  upto = Upto-append now t e h o.upto;
}

event-Orderly :
    (now : ℕ) (inside : Bool) (t : Trace) (ts id : ℕ) (phase : Phase) (action : Action)
    → Orderly now inside t
    → now ≤ ts
    → action ≡ next_action inside
    → Orderly ts (not inside) (lock_event ts id phase action t)
unfolding lock_event
event-Orderly now inside t ts id phase action o h k =
    let e : LockEvent = record {
      timestamp_us = ts;
      request_id = id;
      phase = phase;
      action = action;
    } in
    elim (Bool-cases (leb max_trace_entries (length t))) [
      | inr room ↦ rw room (append-Orderly now inside t e o h k)
      | inl full ↦
          let dropped = Alternates-drop o.first inside t o.alternates in
          rw full (
            append-Orderly now inside (drop 1 t) e
              (record { first = dropped.0; alternates = dropped.1; upto = Upto-drop now t o.upto })
              h k)
    ]

section-Orderly :
    (now : ℕ) (t : Trace) (e : Env) (id : ℕ) (phase : Phase)
    → Orderly now false t
    → now ≤ e.acquire_us
    → e.acquire_us ≤ e.release_us
    → Orderly e.release_us false
        (lock_event e.release_us id phase release (lock_event e.acquire_us id phase acquire t))
section-Orderly now t e id phase o h k =
    event-Orderly e.acquire_us true _ e.release_us id phase release
      (event-Orderly now false t e.acquire_us id phase acquire o h refl) k refl

-- The clock does not run back from one call to the next, nor in a call.
abbrev pub ClockRuns : ℕ → List Call → Type 0
ClockRuns now [] = Unit
ClockRuns now (reserves e id cost lat ∷ cs) =
    (now ≤ e.acquire_us) × (e.acquire_us ≤ e.release_us) × ClockRuns e.release_us cs
ClockRuns now (commits e id cost lat ∷ cs) =
    (now ≤ e.acquire_us) × (e.acquire_us ≤ e.release_us) × ClockRuns e.release_us cs
ClockRuns now (rollbacks e id ∷ cs) =
    (now ≤ e.acquire_us) × (e.acquire_us ≤ e.release_us) × ClockRuns e.release_us cs
ClockRuns now (expires time ∷ cs) = ClockRuns now cs

try_reserve-trace :
    (e : Env) (id : ℕ) (cost lat : ℤ) (s : State)
    → (try_reserve e id cost lat s).1.trace ≡ (
        if bad_request cost lat
        then s.trace
        else lock_event e.release_us id reserve release
            (lock_event e.acquire_us id reserve acquire s.trace))
unfolding try_reserve
try_reserve-trace e id cost lat s = ground arith

commit-trace :
    (e : Env) (id : ℕ) (cost lat : ℤ) (s : State)
    → (commit e id cost lat s).1.trace
      ≡ lock_event e.release_us id settle release
          (lock_event e.acquire_us id settle acquire s.trace)
unfolding commit commit_found
commit-trace e id cost lat s = ground arith

rollback-trace :
    (e : Env) (id : ℕ) (s : State)
    → (rollback e id s).1.trace
      ≡ lock_event e.release_us id settle release
          (lock_event e.acquire_us id settle acquire s.trace)
unfolding rollback
rollback-trace e id s = ground arith

later-Orderly :
    (now then_ : ℕ) (t : Trace) → now ≤ then_ → Orderly now false t → Orderly then_ false t
later-Orderly now then_ t h o = record {
  first = o.first;
  alternates = o.alternates;
  upto = later t o.upto;
}
  where
    later : (t : Trace) → Upto now t → Upto then_ t
    later [] u = tt
    later (e ∷ es) (le, a, u) = (omega (arith, le, h), a, later es u)

expire_loop-trace :
    (now : ℤ) (xs : List Reservation) (s : State) → (expire_loop now xs s).1.trace ≡ s.trace
unfolding expire_loop
expire_loop-trace now [] s = refl
expire_loop-trace now (r ∷ xs) s = elim (Bool-cases (is_expired now r)) [
  | inl old ↦ rw old (expire_loop-trace now xs (drop_clamped rolled_back r s))
  | inr young ↦ rw young (expire_loop-trace now xs s)
]

expires-trace : (now : ℤ) (s : State) → (expire_stale_reservations now s).1.trace ≡ s.trace
unfolding expire_stale_reservations
expires-trace now s = expire_loop-trace now s.active_reservations s

try_reserve-Orderly :
    (now : ℕ) (e : Env) (id : ℕ) (cost lat : ℤ) (s : State)
    → Orderly now false s.trace
    → now ≤ e.acquire_us
    → e.acquire_us ≤ e.release_us
    → Orderly e.release_us false (try_reserve e id cost lat s).1.trace
try_reserve-Orderly now e id cost lat s o h k =
    subst (Orderly e.release_us false) (sym (try_reserve-trace e id cost lat s))
      (elim (Bool-cases (bad_request cost lat)) [
        | inl bad ↦ rw bad (later-Orderly now e.release_us s.trace (omega (arith, h, k)) o)
        | inr good ↦ rw good (section-Orderly now s.trace e id reserve o h k)
      ])

-- Over every history of calls the critical sections stand one after another in the trace, each end
-- right after its start, and in the order of time. The clock does not run back.
pub run-Orderly :
    (now : ℕ) (cs : List Call) (s : State)
    → ClockRuns now cs
    → Orderly now false s.trace
    → (last : ℕ) × Orderly last false (run cs s).trace
unfolding run step
run-Orderly now [] s runs o = (now, o)
run-Orderly now (reserves e id cost lat ∷ cs) s (h, k, runs) o =
    run-Orderly e.release_us cs _ runs (try_reserve-Orderly now e id cost lat s o h k)
run-Orderly now (commits e id cost lat ∷ cs) s (h, k, runs) o = run-Orderly e.release_us cs _ runs (
    subst (Orderly e.release_us false) (sym (commit-trace e id cost lat s))
      (section-Orderly now s.trace e id settle o h k))
run-Orderly now (rollbacks e id ∷ cs) s (h, k, runs) o = run-Orderly e.release_us cs _ runs (
    subst (Orderly e.release_us false) (sym (rollback-trace e id s))
      (section-Orderly now s.trace e id settle o h k))
run-Orderly now (expires time ∷ cs) s runs o =
    run-Orderly now cs _ runs (subst (Orderly now false) (sym (expires-trace time s)) o)
