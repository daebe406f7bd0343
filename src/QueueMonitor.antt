-- ===== src/QueueMonitor.antt =====
-- app/queue_monitor.py: the slots of local execution.
-- A method is one atomic step: `acquire` awaits the semaphore under the lock only where the
-- semaphore has room, so the lock is never held when another coroutine runs (QueueMonitor/Slots).
pub mod Slots
pub mod Holders
mod Tests
use ai_routing.Prelude.{
  ℕ, zero, suc, ◌+◌, ◌-◌, Bool, true, false, Option, none, some, leb, ltb, if◌then◌else◌,
}
use ai_routing.Prelude.Int.{ℤ, pos}

pub record QueueMonitor : Type 0 where
  pub max_concurrency : ℕ
  -- the value of `_semaphore`, an `asyncio.Semaphore`
  pub semaphore : ℕ
  pub active_count : ℕ

-- `QueueMonitor.__init__`; `none` is its `ValueError`.
unfoldable pub init : ℤ → Option QueueMonitor
init (pos (suc n)) = some (record { max_concurrency = suc n; semaphore = suc n; active_count = 0 })
init _ = none

-- `is_at_capacity`
abbrev pub is_at_capacity : QueueMonitor → Bool
is_at_capacity q = leb q.max_concurrency q.active_count

-- `asyncio.Semaphore.acquire` and `release`; `none` means that the caller has to wait.
abbrev pub semaphore_acquire : ℕ → Option ℕ
semaphore_acquire zero = none
semaphore_acquire (suc n) = some n

abbrev pub semaphore_release : ℕ → ℕ
semaphore_release n = suc n

-- How a call of `acquire` ends: it returns `True` or `False`, or it blocks inside the lock.
pub data Acquired : Type 0 where
  returns : Bool → Acquired
  blocks : Acquired

unfoldable pub acquire : QueueMonitor → Acquired × QueueMonitor
acquire q =
    if leb q.max_concurrency q.active_count
    then (returns false, q)
    else elim (semaphore_acquire q.semaphore) [
      | none ↦ (blocks, q)
      | some n ↦ (returns true, record q { semaphore = n; active_count = q.active_count + 1 })
    ]

unfoldable pub release : QueueMonitor → QueueMonitor
release q =
    if ltb 0 q.active_count
    then record q { active_count = q.active_count - 1; semaphore = semaphore_release q.semaphore }
    else q

-- How the body of an `async with` ends: with a value, or by an exception, a cancellation included.
pub data Exit (A E : Type 0) : Type 0 where
  returned : A → Exit A E
  raised : E → Exit A E

-- What `async with qm.slot():` gives: the body's end, `RuntimeError` at capacity, or a wait.
pub data SlotExit (A E : Type 0) : Type 0 where
  body_exit : Exit A E → SlotExit A E
  runtime_error : SlotExit A E
  waits : SlotExit A E

-- `slot`: the body runs between `acquire` and `release`, and `finally` makes the release on every
-- exit. The body's state change stands for what all coroutines do to the monitor meanwhile.
unfoldable pub slot :
    {A E : Type 0}
    → (QueueMonitor → Exit A E × QueueMonitor)
    → QueueMonitor
    → SlotExit A E × QueueMonitor
slot body q =
    let (got, q') = acquire q in
    let (end, q'') = body q' in
    elim got [
      | returns true ↦ (body_exit end, release q'')
      | returns false ↦ (runtime_error, q')
      | blocks ↦ (waits, q')
    ]
