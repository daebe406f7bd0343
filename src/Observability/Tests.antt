-- ===== src/Observability/Tests.antt =====
-- Runs of app/observability.py at concrete inputs.
use ai_routing.Prelude.{◌≡◌, refl, List, [], ◌∷◌}
use ai_routing.LockTrace.{LockEvent, reserve, settle, acquire, release}
use ai_routing.Observability.{get_lock_trace}

abbrev unordered : List LockEvent
unordered =
    record { timestamp_us = 7; request_id = 1; phase = reserve; action = acquire }
    ∷ record { timestamp_us = 9; request_id = 1; phase = reserve; action = release }
    ∷ record { timestamp_us = 8; request_id = 2; phase = settle; action = acquire }
    ∷ []

abbrev sorted : List LockEvent
sorted =
    record { timestamp_us = 7; request_id = 1; phase = reserve; action = acquire }
    ∷ record { timestamp_us = 8; request_id = 2; phase = settle; action = acquire }
    ∷ record { timestamp_us = 9; request_id = 1; phase = reserve; action = release }
    ∷ []

-- The events are read by time.
ordered : get_lock_trace unordered ≡ sorted
unfolding get_lock_trace
ordered = refl
