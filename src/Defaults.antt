-- ===== src/Defaults.antt =====
-- The constants of app/config.py where the environment does not set them, in ticks; the counts and the
-- smoothing factor are plain numbers.
use ai_routing.Prelude.{ℕ}
use ai_routing.Prelude.Int.{ℤ, pos}
use ai_routing.Endpoints.{Settings}

-- `MAX_REMOTE_BUDGET`, 5 dollars
abbrev pub default_max_remote_budget : ℤ
default_max_remote_budget = pos 5_000_000_000_000

-- `MAX_CUMULATIVE_LATENCY_MS`, 600000 ms
abbrev pub default_max_cumulative_latency_ms : ℤ
default_max_cumulative_latency_ms = pos 600_000_000_000_000_000

-- `AVG_LOCAL_LATENCY_MS` and `AVG_REMOTE_LATENCY_MS`, 250 ms and 800 ms
abbrev pub default_avg_local_latency_ms : ℕ
default_avg_local_latency_ms = 250_000_000_000_000

abbrev pub default_avg_remote_latency_ms : ℕ
default_avg_remote_latency_ms = 800_000_000_000_000

-- `LOCAL_QUEUE_CAPACITY`
abbrev pub default_local_queue_capacity : ℤ
default_local_queue_capacity = pos 8

-- `EMA_ALPHA`, 0.25, as a fraction
abbrev pub default_ema_alpha : ℕ × ℕ
default_ema_alpha = (1, 4)

-- `LATENCY_WINDOW_SIZE`
abbrev pub default_latency_window_size : ℕ
default_latency_window_size = 5

-- `RESERVATION_TTL_SECONDS`, 45 s
abbrev pub default_reservation_ttl_seconds : ℤ
default_reservation_ttl_seconds = pos 45_000_000_000_000

abbrev pub default_settings : Settings
default_settings = record {
  max_remote_budget = default_max_remote_budget;
  max_cumulative_latency_ms = default_max_cumulative_latency_ms;
  reservation_ttl_seconds = default_reservation_ttl_seconds;
  local_queue_capacity = default_local_queue_capacity;
  latency = record {
    avg_local_latency_ms = default_avg_local_latency_ms;
    avg_remote_latency_ms = default_avg_remote_latency_ms;
    alpha_num = default_ema_alpha.0;
    alpha_den = default_ema_alpha.1;
    window_size = default_latency_window_size;
  };
}
