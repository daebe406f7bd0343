-- ===== src/Mocks.antt =====
-- The mock backends of app/backends.py. Elapsed times and random draws are arguments.
use ai_routing.Prelude.{
  ℕ, zero, suc, ◌+◌, ◌*◌, Bool, true, false, Option, none, some, List, [], ◌∷◌,
}
use ai_routing.Prelude.Int.{pos}
use ai_routing.Models.{local_mock_text, remote_mock_text, simulated_failure}
use ai_routing.App.{BackendOutcome, gives, fails, remote_inference_error, cancelled}

-- The prices of one token, in ticks (app/config.py).
pub record Prices : Type 0 where
  pub input_price : ℕ
  pub output_price : ℕ
  pub cache_read_price : ℕ
  pub cache_write_price : ℕ

-- `text[:n]`
abbrev pub prefix : ℕ → List ℕ → List ℕ
prefix zero cs = []
prefix (suc n) [] = []
prefix (suc n) (c ∷ cs) = c ∷ prefix n cs

-- What the random generator gives a mock call; a cache that is not hit is 0.
pub record Draws : Type 0 where
  pub prompt_tokens : ℕ
  pub completion_tokens : ℕ
  pub cache_read_tokens : ℕ
  pub cache_write_tokens : ℕ

abbrev pub mock_cost : Prices → Draws → ℕ
mock_cost p d =
    d.prompt_tokens * p.input_price
    + d.completion_tokens * p.output_price
    + d.cache_read_tokens * p.cache_read_price
    + d.cache_write_tokens * p.cache_write_price

-- `_mock_local_inference`, with the time that it slept, or none if it was cancelled meanwhile.
unfoldable pub mock_local_inference : Option ℕ → List ℕ → BackendOutcome
mock_local_inference none prompt = fails cancelled
mock_local_inference (some elapsed) prompt = gives (record {
  actual_cost = pos 0;
  actual_latency_ms = elapsed;
  tokens = record {
    prompt_tokens = 0;
    completion_tokens = 0;
    cache_read_tokens = 0;
    cache_write_tokens = 0;
  };
  result = local_mock_text (prefix 60 prompt);
})

-- `_mock_remote_inference`, likewise.
unfoldable pub mock_remote_inference : Prices → Option ℕ → Draws → Bool → BackendOutcome
mock_remote_inference p none d fail = fails cancelled
mock_remote_inference p (some elapsed) d true = fails (remote_inference_error simulated_failure)
mock_remote_inference p (some elapsed) d false = gives (record {
  actual_cost = pos (mock_cost p d);
  actual_latency_ms = elapsed;
  tokens = record {
    prompt_tokens = d.prompt_tokens;
    completion_tokens = d.completion_tokens;
    cache_read_tokens = d.cache_read_tokens;
    cache_write_tokens = d.cache_write_tokens;
  };
  result = remote_mock_text d.prompt_tokens (pos (mock_cost p d));
})
