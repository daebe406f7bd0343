-- ===== src/QueueMonitor/Slots.antt =====
-- The slot accounting of app/queue_monitor.py: the semaphore's value and the count always make up
-- the capacity.
use ai_routing.Prelude.{
  ℕ, zero, suc, ◌+◌, ◌-◌, ◌<◌, ◌≡◌, ◌⊎◌, inl, inr, refl, true, false, some, arith,
}
use ai_routing.Prelude.Int.{ℤ, pos, negsuc}
use ai_routing.QueueMonitor.{
  QueueMonitor, init, acquire, release, slot, returns, Exit, body_exit, runtime_error,
}

pub record Inv (q : QueueMonitor) : Type 0 where
  pub total : q.semaphore + q.active_count ≡ q.max_concurrency
  pub positive : 0 < q.max_concurrency

pub init-Inv : (n : ℤ) (q : QueueMonitor) → init n ≡ some q → Inv q
unfolding init
init-Inv (pos zero) q h = absurd (cc)
init-Inv (pos (suc n)) q h = ground arith
init-Inv (negsuc n) q h = absurd (cc)

-- `acquire` never waits for the semaphore: it takes a slot exactly when the count is under the
-- capacity, and then the count grows by one; otherwise it returns `False` and changes nothing. The
-- accounting stays right.
pub acquire-Inv :
    (q : QueueMonitor)
    → Inv q
    → let (got, t) = acquire q in
      Inv t
      × (((q.active_count < q.max_concurrency)
            × (got ≡ returns true)
            × (t.active_count ≡ q.active_count + 1)
            × (t.max_concurrency ≡ q.max_concurrency))
          ⊎ ((q.active_count ≡ q.max_concurrency) × (got ≡ returns false) × (t ≡ q)))
unfolding acquire
acquire-Inv q v = go q.semaphore refl
  where
    go :
        (n : ℕ)
        → q.semaphore ≡ n
        → let (got, t) = acquire q in
          Inv t
          × (((q.active_count < q.max_concurrency)
                × (got ≡ returns true)
                × (t.active_count ≡ q.active_count + 1)
                × (t.max_concurrency ≡ q.max_concurrency))
              ⊎ ((q.active_count ≡ q.max_concurrency) × (got ≡ returns false) × (t ≡ q)))
    go zero e = ground arith
    go (suc n) e = ground arith

-- `release` gives back one slot if one is held, and the accounting stays right.
pub release-Inv :
    (q : QueueMonitor)
    → Inv q
    → Inv (release q)
      × ((release q).active_count ≡ q.active_count - 1)
      × ((release q).max_concurrency ≡ q.max_concurrency)
unfolding release
release-Inv q v = ground arith

-- `slot()` at capacity raises `RuntimeError`, and changes nothing. With a free slot it runs the body
-- in the monitor after `acquire`, and however the body ends, by a value or an exception, it passes
-- that end on and gives one slot back. The body, with what other coroutines do meanwhile, keeps the
-- accounting right and the slot held.
pub slot_releases :
    {A E : Type 0} (body : QueueMonitor → Exit A E × QueueMonitor) (q : QueueMonitor)
    → Inv q
    → let held = (acquire q).1 in
      let (end, left) = body held in
      Inv left
      → 0 < left.active_count
      → let (got, t) = slot body q in
        ((q.active_count ≡ q.max_concurrency) × (got ≡ runtime_error) × (t ≡ q))
        ⊎ ((q.active_count < q.max_concurrency)
            × (got ≡ body_exit end)
            × Inv t
            × (t.active_count + 1 ≡ left.active_count))
unfolding slot
slot_releases body q v w held =
    let a = (acquire-Inv q v).1 in
    let r = release-Inv (body (acquire q).1).1 w in
    elim a [
      | inl free ↦ rw (free.1, slot) (inr (free.0, refl, r.0, omega (arith, r.1)))
      | inr full ↦ rw (full.1, slot) (inl (full.0, refl, full.2))
    ]
