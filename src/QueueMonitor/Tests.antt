-- ===== src/QueueMonitor/Tests.antt =====
-- Runs of app/queue_monitor.py at concrete inputs, and the theorems about it at such inputs.
use ai_routing.Prelude.{ℕ, ◌≤◌, ◌<◌, ◌≡◌, ◌⊎◌, refl, true, false, some, none, List, [], ◌∷◌, length}
use ai_routing.Prelude.Int.{pos}
use ai_routing.QueueMonitor.{QueueMonitor, init, acquire, release, returns, Exit, raised}
use ai_routing.QueueMonitor.Holders.{enters, leaves, run, holders_bounded, Event}

abbrev two_slots : QueueMonitor
two_slots = record { max_concurrency = 2; semaphore = 2; active_count = 0 }

made : init (pos 2) ≡ some two_slots
unfolding init
made = refl

no_slots : init (pos 0) ≡ none
unfolding init
no_slots = refl

-- A body that raises in a monitor that another request has entered meanwhile.
abbrev failing : QueueMonitor → Exit ℕ ℕ × QueueMonitor
failing q = (raised 7, (acquire q).1)

abbrev events : List Event
events = enters 1 ∷ enters 2 ∷ enters 3 ∷ leaves 3 ∷ leaves 1 ∷ enters 4 ∷ []

events_holders : (run events (record { monitor = two_slots; holders = [] })).holders ≡ 4 ∷ 2 ∷ []
unfolding run acquire release
events_holders = refl

holders_bounded_example :
    let w = run events (record { monitor = two_slots; holders = [] }) in
    (w.monitor.active_count ≡ length w.holders)
    × (length w.holders ≤ 2)
    × ((length w.holders < 2 × ((acquire w.monitor).0 ≡ returns true))
        ⊎ ((length w.holders ≡ 2) × ((acquire w.monitor).0 ≡ returns false)))
holders_bounded_example = holders_bounded 2 two_slots events made
