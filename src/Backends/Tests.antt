-- ===== src/Backends/Tests.antt =====
-- Runs of app/backends.py at concrete inputs, and the theorems about it at such inputs.
use ai_routing.Prelude.{
  ℕ, ◌≡◌, ◌≢◌, refl, true, false, some, none, [], ◌∷◌, arith, if◌then◌else◌, zero, suc, ◌<◌,
}
use ai_routing.Prelude.Int.{pos}
use ai_routing.Text.{codes}
use ai_routing.Mocks.{Draws, mock_cost, mock_local_inference}
use ai_routing.Budget.{
  Env, Reservation, State, new_manager, new_reservation, enter, commit, raise, actual_cost_exceeded,
}
use ai_routing.Budget.Methods.{fresh_state}
use ai_routing.Backends.{
  Attempt, Mode, Sent, RemoteData, OllamaData, unreachable, replies, parsed, call_ollama,
  simulate_local_inference, simulate_remote_inference, Reply, unreadable, execute_request,
  call_tokenrouter, remote_result,
}
use ai_routing.Backends.Outcomes.{IsRemote, simulate_remote_inference-IsRemote}
use ai_routing.App.{gives}
use ai_routing.Backends.Retries.{is_transient, StopsAfterThree, recovers}
use ai_routing.Backends.Cost.{default_prices, cost_per_remote_request, mock_commit_within}

abbrev real : Mode
real = record { is_mock = false; has_api_key = true }

-- The library makes one attempt.
abbrev once : (ℕ → Attempt) → Attempt
once attempts = attempts 0

abbrev draws : Draws
draws = record {
  prompt_tokens = 1000;
  completion_tokens = 500;
  cache_read_tokens = 0;
  cache_write_tokens = 300;
}

abbrev answer : ℕ → Sent RemoteData
answer n = replies (record {
  status = 200;
  text = codes "{}";
  json = parsed (record {
    usage = some (record { prompt_tokens = some 12; completion_tokens = none });
    choices = some (some (codes "Hello") ∷ []);
  });
})

abbrev no_ollama : Sent OllamaData
no_ollama = unreachable (codes "ConnectError")

-- Without Ollama the mock answers.
falls_back :
    simulate_local_inference real 3 no_ollama (some 250) (codes "Hi")
    ≡ mock_local_inference (some 250) (codes "Hi")
unfolding simulate_local_inference call_ollama
falls_back = refl

simulate_remote_inference-IsRemote_example :
    IsRemote default_prices
      (simulate_remote_inference once real default_prices 700 answer (some 800) draws false)
simulate_remote_inference-IsRemote_example =
    simulate_remote_inference-IsRemote once real default_prices 700 answer (some 800) draws false

abbrev env : Env
env = record { acquire_us = 0; release_us = 0; now = pos 0; new_id = 1 }

abbrev reservation : Reservation
reservation =
    new_reservation env (new_manager (pos 5_000_000_000_000) (pos 6000) (pos 45))
      cost_per_remote_request (pos 800)

abbrev reserved : State
reserved = enter reservation (fresh_state (new_manager (pos 5_000_000_000_000) (pos 6000) (pos 45)))

mock_commit_within_example :
    (commit env 1 (pos (mock_cost default_prices draws)) (pos 700) reserved).0
    ≢ raise actual_cost_exceeded
mock_commit_within_example =
    mock_commit_within env draws reservation 1 (pos 700) reserved
      (omega arith, omega arith, omega arith, omega arith) refl refl

-- The library makes up to three attempts.
abbrev three_attempts : (ℕ → Attempt) → Attempt
three_attempts attempts =
    if is_transient (attempts 0)
    then (if is_transient (attempts 1) then attempts 2 else attempts 1)
    else attempts 0

three_attempts-StopsAfterThree : StopsAfterThree three_attempts
three_attempts-StopsAfterThree = record {
  at_first = λ f a. rw a refl;
  at_second = λ f a b. rw (a, b) refl;
  at_third = λ f a b. rw (a, b) refl;
}

abbrev fields : RemoteData
fields = record {
  usage = some (record { prompt_tokens = some 12; completion_tokens = none });
  choices = some (some (codes "Hello") ∷ []);
}

abbrev good : Reply RemoteData
good = record { status = 200; text = codes "{}"; json = parsed fields }

-- The first two attempts meet a timeout and a full server.
abbrev flaky : ℕ → Sent RemoteData
flaky zero = unreachable (codes "ReadTimeout")
flaky (suc zero) = replies (record { status = 503; text = []; json = unreadable [] })
flaky (suc (suc n)) = replies good

flaky_before : (m : ℕ) → m < 2 → is_transient (execute_request (flaky m)) ≡ true
unfolding execute_request
flaky_before zero h = refl
flaky_before (suc zero) h = refl
flaky_before (suc (suc m)) h = absurd (omega (arith, h))

recovers_example :
    call_tokenrouter three_attempts default_prices 700 false flaky
    ≡ gives (remote_result default_prices 700 fields)
recovers_example =
    recovers three_attempts default_prices 700 2 flaky good fields three_attempts-StopsAfterThree
      (omega arith) flaky_before refl refl refl
