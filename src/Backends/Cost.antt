-- ===== src/Backends/Cost.antt =====
-- The cost of a mock remote call (app/backends.py) against what is reserved for it (app/config.py).
use ai_routing.Prelude.{ℕ, ◌≤◌, ◌≡◌, ◌≢◌, false, some, inl, inr, arith, Bool-cases}
use ai_routing.Prelude.Int.{ℤ, pos, ◌+ℤ◌, ltb_ℤ}
use ai_routing.Mocks.{Prices, Draws, mock_cost}
use ai_routing.Budget.{
  State, Env, Reservation, find, commit, commit_found, raise, actual_cost_exceeded, eps_9,
}

-- The prices of app/config.py, in ticks of 1e-12 dollars, and `COST_PER_REMOTE_REQUEST`.
abbrev pub default_prices : Prices
default_prices = record {
  input_price = 10_000_000;
  output_price = 50_000_000;
  cache_read_price = 1_000_000;
  cache_write_price = 12_500_000;
}

abbrev pub cost_per_remote_request : ℤ
cost_per_remote_request = pos 150_000_000_000

-- The ranges of the random draws.
abbrev pub InRange : Draws → Type 0
InRange d =
    (d.prompt_tokens ≤ 1500)
    × (d.completion_tokens ≤ 800)
    × (d.cache_read_tokens ≤ 1500)
    × (d.cache_write_tokens ≤ 1000)

most_cost : (d : Draws) → InRange d → mock_cost default_prices d ≤ 69_000_000_000
most_cost d range = omega (arith, range.0, range.1, range.2, range.3)

within_cost :
    (n : ℕ) (c : ℤ)
    → n ≤ 69_000_000_000
    → c ≡ cost_per_remote_request
    → ltb_ℤ (c +ℤ eps_9) (pos n) ≡ false
unfolding ◌+ℤ◌
within_cost n c h e = rw e (ground (arith, h))

-- A commit whose cost passes the first test does not fail for its cost.
commit_passes :
    (e : Env) (r : Reservation) (id : ℕ) (cost lat : ℤ) (s : State)
    → find id s.active_reservations ≡ some r
    → ltb_ℤ (r.reserved_cost +ℤ eps_9) cost ≡ false
    → (commit e id cost lat s).0 ≢ raise actual_cost_exceeded
unfolding commit commit_found
commit_passes e r id cost lat s found within fails =
    elim (Bool-cases
      (ltb_ℤ (s.max_cumulative_latency_ms +ℤ eps_9) (s.cumulative_actual_latency_ms +ℤ lat))) [
        | inl late ↦ absurd (cc (rw (found, commit, within, late) at fails))
        | inr fits ↦ absurd (cc (rw (found, commit, within, fits) at fails))
      ]

-- With the prices and the reserved cost of the configuration, committing the cost of a mock call never
-- fails for its cost. The draws are in the ranges that are asked of the random generator.
pub mock_commit_within :
    (e : Env) (d : Draws) (r : Reservation) (id : ℕ) (lat : ℤ) (s : State)
    → InRange d
    → r.reserved_cost ≡ cost_per_remote_request
    → find id s.active_reservations ≡ some r
    → (commit e id (pos (mock_cost default_prices d)) lat s).0 ≢ raise actual_cost_exceeded
mock_commit_within e d r id lat s range reserved found =
    commit_passes e r id (pos (mock_cost default_prices d)) lat s found
      (within_cost (mock_cost default_prices d) r.reserved_cost (most_cost d range) reserved)
