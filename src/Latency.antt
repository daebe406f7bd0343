-- ===== src/Latency.antt =====
-- app/latency_tracker.py: latency estimates per backend, the maximum of a moving average and of the
-- recent observations. Latencies are elapsed times, so they are natural numbers of ticks; the
-- smoothing factor is a fraction, and a product by it is rounded down to a tick.
pub mod Record
pub mod History
pub mod Estimate
pub mod Reset
mod Tests
use ai_routing.Prelude.{
  ℕ, zero, suc, ◌+◌, ◌-◌, ◌*◌, ◌/◌, Bool, true, false, Option, none, some, List, [], ◌∷◌, ◌++◌,
  String, max, length, last,
}
use ai_routing.Prelude.Dict.{Dict, lookup, insert}

-- The tunables of app/config.py that the tracker reads.
pub record Config : Type 0 where
  pub avg_local_latency_ms : ℕ
  pub avg_remote_latency_ms : ℕ
  pub alpha_num : ℕ
  pub alpha_den : ℕ
  pub window_size : ℕ

-- `collections.deque(maxlen=…)`, oldest first.
pub record Deque : Type 0 where
  pub maxlen : ℕ
  pub items : List ℕ

-- `append`: a full deque drops entries at the other end.
abbrev pub append : ℕ → Deque → Deque
append x d = record d { items = last d.maxlen (d.items ++ x ∷ []) }

pub record Tracker : Type 0 where
  pub alpha_num : ℕ
  pub alpha_den : ℕ
  pub ema : Dict ℕ
  pub windows : Dict Deque

abbrev pub backend_local : String
backend_local = "local"

abbrev pub backend_remote : String
backend_remote = "remote"

abbrev pub empty_deque : ℕ → Deque
empty_deque n = record { maxlen = n; items = [] }

abbrev pub seeds : Config → Dict ℕ
seeds c = (backend_local, c.avg_local_latency_ms) ∷ (backend_remote, c.avg_remote_latency_ms) ∷ []

-- `LatencyTracker.__init__`
unfoldable pub init : Config → Tracker
init c = record {
  alpha_num = c.alpha_num;
  alpha_den = c.alpha_den;
  ema = seeds c;
  windows =
      (backend_local, empty_deque c.window_size) ∷ (backend_remote, empty_deque c.window_size) ∷ [];
}

-- `alpha * latency_ms + (1.0 - alpha) * ema`, for an `alpha` of at most 1
abbrev pub smooth : ℕ → ℕ → ℕ → ℕ → ℕ
smooth num den latency ema = (num * latency + (den - num) * ema) / den

infixl 5 ◌>>=◌
abbrev pub ◌>>=◌ {ℓ κ} : {A : Type ℓ} {B : Type κ} → Option A → (A → Option B) → Option B
none >>= f = none
some a >>= f = f a

-- The backend's entries are made at its first observation. The new deque's `maxlen` is the number
-- of observations that the local window holds just then.
unfoldable pub register : String → ℕ → Tracker → Option Tracker
register backend latency_ms t = elim (lookup backend t.ema) [
  | some _ ↦ some t
  | none ↦ do
    local ← lookup backend_local t.windows
    some (record t {
      ema = insert backend latency_ms t.ema;
      windows = insert backend (empty_deque (length local.items)) t.windows;
    })
]

-- The average and the window take the observation in.
abbrev pub update_entries : String → ℕ → Tracker → Option Tracker
update_entries backend latency_ms t = do
  old ← lookup backend t.ema
  window ← lookup backend t.windows
  some (record t {
    ema = insert backend (smooth t.alpha_num t.alpha_den latency_ms old) t.ema;
    windows = insert backend (append latency_ms window) t.windows;
  })

-- `record`; `none` is a `KeyError`.
unfoldable pub record_latency : String → ℕ → Tracker → Option Tracker
record_latency backend latency_ms t = do
  t' ← register backend latency_ms t
  update_entries backend latency_ms t'

-- `max(window)` of a window that is not empty.
abbrev pub max_of : List ℕ → ℕ
max_of [] = 0
max_of (x ∷ xs) = max x (max_of xs)

-- The default 500.0, in ticks.
abbrev pub default_ms : ℕ
default_ms = 500_000_000_000_000

-- `get_ema`
unfoldable pub get_ema : String → Tracker → ℕ
get_ema backend t = elim (lookup backend t.ema) [ none ↦ default_ms | some e ↦ e ]

-- A window that is missing or empty is false in Python.
abbrev pub estimate : ℕ → Option Deque → ℕ
estimate ema none = ema
estimate ema (some d) = elim d.items [ [] ↦ ema | x ∷ xs ↦ max ema (max_of (x ∷ xs)) ]

unfoldable pub get_estimate : String → Tracker → ℕ
unfolding get_ema
get_estimate backend t = estimate (get_ema backend t) (lookup backend t.windows)

abbrev pub clear_all : Dict Deque → Dict Deque
clear_all [] = []
clear_all ((k, d) ∷ ds) = (k, record d { items = [] }) ∷ clear_all ds

unfoldable pub reset : Config → Tracker → Tracker
reset c t = record t { ema = seeds c; windows = clear_all t.windows }
