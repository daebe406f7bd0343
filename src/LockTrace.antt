-- ===== src/LockTrace.antt =====
-- The lock interleaving trace of app/observability.py: a buffer of at most `_MAX_TRACE_ENTRIES`
-- lock events, oldest first. Identifiers are only stored and compared, so they are numbers.
use ai_routing.Prelude.{ℕ, List, [], ◌∷◌, ◌++◌, leb, if◌then◌else◌, length, drop}

pub data Phase : Type 0 where
  reserve settle : Phase

pub data Action : Type 0 where
  acquire release : Action

pub record LockEvent : Type 0 where
  pub timestamp_us : ℕ
  pub request_id : ℕ
  pub phase : Phase
  pub action : Action

abbrev pub Trace : Type 0
Trace = List LockEvent

abbrev pub max_trace_entries : ℕ
max_trace_entries = 4096

-- `lock_event`: a full buffer loses its oldest entry first.
unfoldable pub lock_event : ℕ → ℕ → Phase → Action → Trace → Trace
lock_event ts id phase action trace =
    (if leb max_trace_entries (length trace) then drop 1 trace else trace)
    ++ (record { timestamp_us = ts; request_id = id; phase = phase; action = action } ∷ [])

-- `clear_lock_trace`
pub clear_lock_trace : Trace → Trace
clear_lock_trace trace = []
