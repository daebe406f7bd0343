-- ===== src/Latency/Tests.antt =====
-- Runs of app/latency_tracker.py at concrete inputs, and the theorems about it at such inputs.
use ai_routing.Prelude.{ℕ, ◌≤◌, ◌≡◌, refl, some, List, [], ◌∷◌, String, arith}
use ai_routing.Prelude.Dict.{lookup}
use ai_routing.Latency.{
  Config, Tracker, init, get_estimate, get_ema, seeds, backend_local, empty_deque,
}
use ai_routing.Latency.History.{
  observe, of_backend, ema_after, expected, observe_estimate, init-Inv,
}
use ai_routing.Latency.Estimate.{estimate_after_spike}
use ai_routing.Latency.Reset.{new_backend_unguarded}

-- The defaults of app/config.py, in whole milliseconds, with a window of two.
abbrev config : Config
config = record {
  avg_local_latency_ms = 250;
  avg_remote_latency_ms = 800;
  alpha_num = 1;
  alpha_den = 4;
  window_size = 2;
}

abbrev seen : List (String × ℕ)
seen = ("local", 2000) ∷ ("remote", 700) ∷ ("local", 300) ∷ []

local_seed : lookup backend_local (seeds config) ≡ some 250
unfolding lookup
local_seed = refl

spec_of_seen : expected config 250 (of_backend "local" seen) ≡ 2000
spec_of_seen = refl

observe_estimate_example :
    (t : Tracker) × (observe seen (init config) ≡ some t)
    × (get_ema "local" t ≡ ema_after 1 4 250 (of_backend "local" seen))
    × (get_estimate "local" t ≡ expected config 250 (of_backend "local" seen))
observe_estimate_example = observe_estimate config "local" 250 seen local_seed

estimate_after_spike_example :
    (t : Tracker) × (observe seen (init config) ≡ some t) × (2000 ≤ get_estimate "local" t)
estimate_after_spike_example =
    estimate_after_spike config "local" 250 2000 [] (("remote", 700) ∷ ("local", 300) ∷ [])
      local_seed (omega arith)

-- A tracker with two slow observations in its windows.
abbrev slow : Tracker
slow = record (init config) {
  windows =
      ("local", record { maxlen = 2; items = 2000 ∷ 3000 ∷ [] }) ∷ ("remote", empty_deque 2) ∷ [];
}

-- A third backend on a new tracker: its second observation is slow, and its estimate does not show it.
new_backend_unguarded_example :
    (t : Tracker) × (observe (("gpu", 100) ∷ ("gpu", 9000) ∷ []) (init config) ≡ some t)
    × (get_estimate "gpu" t ≡ get_ema "gpu" t)
unfolding init lookup
new_backend_unguarded_example =
    new_backend_unguarded "gpu" 100 (empty_deque 2) (("gpu", 9000) ∷ []) (init config)
      (init-Inv config) refl refl refl
