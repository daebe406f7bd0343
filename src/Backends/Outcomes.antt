-- ===== src/Backends/Outcomes.antt =====
-- What a call of a backend in app/backends.py can end with.
use ai_routing.Prelude.{
  ℕ, ◌+◌, ◌*◌, ◌≡◌, ◌⊎◌, inl, inr, refl, Bool, true, false, not, ◌||◌, Option, none, some, List,
  Bool-cases, leb, arith, ap, ◌==◌,
}
use ai_routing.Prelude.Int.{pos}
use ai_routing.App.{BackendResult, BackendOutcome, gives, fails, remote_inference_error, cancelled}
use ai_routing.Models.{ErrorText}
use ai_routing.Mocks.{Prices, Draws, mock_remote_inference, mock_local_inference}
use ai_routing.Backends.{
  Sent, replies, unreachable, raises, is_cancelled, OllamaData, RemoteData, Attempt, responds,
  transient, fails_with, gives_up, Mode, after_attempts, call_tokenrouter, call_ollama,
  simulate_local_inference, simulate_remote_inference, Parsed, parsed, unreadable, read_remote,
  read_ollama, remote_result, ollama_result, or_mock,
}

-- The cost of a result is that of the tokens that it reports.
abbrev pub IsPriced : Prices → BackendResult → Type 0
IsPriced p r =
    r.actual_cost
    ≡ pos (
        r.tokens.prompt_tokens * p.input_price
        + r.tokens.completion_tokens * p.output_price
        + r.tokens.cache_read_tokens * p.cache_read_price
        + r.tokens.cache_write_tokens * p.cache_write_price)

-- A result at its price, a `RemoteInferenceError`, or a cancellation.
abbrev pub IsRemote : Prices → BackendOutcome → Type 0
IsRemote p outcome =
    ((r : BackendResult) × (outcome ≡ gives r) × IsPriced p r)
    ⊎ (((text : ErrorText) × (outcome ≡ fails (remote_inference_error text)))
        ⊎ (outcome ≡ fails cancelled))

read_remote-IsRemote :
    (p : Prices) (elapsed : ℕ) (json : Parsed RemoteData) → IsRemote p (read_remote p elapsed json)
read_remote-IsRemote p elapsed (parsed d) =
    inl (remote_result p elapsed d, refl, ap pos (grind arith))
read_remote-IsRemote p elapsed (unreadable text) = inr (inl (_, refl))

after_attempts-IsRemote :
    (p : Prices) (elapsed : ℕ) (a : Attempt) → IsRemote p (after_attempts p elapsed a)
unfolding after_attempts
after_attempts-IsRemote p elapsed (responds r) = elim (Bool-cases (leb 400 r.status)) [
  | inl bad ↦ rw bad (inr (inl (_, refl)))
  | inr good ↦ rw good (read_remote-IsRemote p elapsed r.json)
]
after_attempts-IsRemote p elapsed (transient text) = inr (inl (text, refl))
after_attempts-IsRemote p elapsed (fails_with text) = inr (inl (_, refl))
after_attempts-IsRemote p elapsed gives_up = inr (inr refl)

mock-IsRemote :
    (p : Prices) (slept : Option ℕ) (d : Draws) (fail : Bool)
    → IsRemote p (mock_remote_inference p slept d fail)
unfolding mock_remote_inference
mock-IsRemote p none d fail = inr (inr refl)
mock-IsRemote p (some elapsed) d true = inr (inl (_, refl))
mock-IsRemote p (some elapsed) d false = inl (_, refl, refl)

call_tokenrouter-IsRemote :
    (retry : (ℕ → Attempt) → Attempt) (p : Prices) (elapsed : ℕ) (fail : Bool)
    (sent : ℕ → Sent RemoteData)
    → IsRemote p (call_tokenrouter retry p elapsed fail sent)
unfolding call_tokenrouter
call_tokenrouter-IsRemote retry p elapsed true sent = inr (inl (_, refl))
call_tokenrouter-IsRemote retry p elapsed false sent = after_attempts-IsRemote p elapsed _

-- In every mode, and whatever the network, the library that repeats a call, the clocks and the random
-- generator do: a remote call ends with a result whose cost is that of the tokens that it reports,
-- with a `RemoteInferenceError`, or with a cancellation, and with nothing else.
pub simulate_remote_inference-IsRemote :
    (retry : (ℕ → Attempt) → Attempt) (mode : Mode) (p : Prices) (elapsed : ℕ)
    (sent : ℕ → Sent RemoteData) (slept : Option ℕ) (draws : Draws) (fail : Bool)
    → IsRemote p (simulate_remote_inference retry mode p elapsed sent slept draws fail)
unfolding simulate_remote_inference
simulate_remote_inference-IsRemote retry mode p elapsed sent slept draws fail =
    elim (Bool-cases (mode.is_mock || not mode.has_api_key)) [
      | inl mocked ↦ rw mocked (mock-IsRemote p slept draws fail)
      | inr real ↦ rw real (call_tokenrouter-IsRemote retry p elapsed fail sent)
    ]

-- A free result, or a cancellation.
abbrev pub IsLocal : BackendOutcome → Type 0
IsLocal outcome =
    ((r : BackendResult) × (outcome ≡ gives r) × (r.actual_cost ≡ pos 0))
    ⊎ (outcome ≡ fails cancelled)

mock-IsLocal : (slept : Option ℕ) (prompt : List ℕ) → IsLocal (mock_local_inference slept prompt)
unfolding mock_local_inference
mock-IsLocal none prompt = inr refl
mock-IsLocal (some elapsed) prompt = inl (_, refl, refl)

read_ollama-IsLocal :
    (elapsed : ℕ) (json : Parsed OllamaData) (mock : BackendOutcome)
    → IsLocal mock
    → IsLocal (or_mock (read_ollama elapsed json) mock)
read_ollama-IsLocal elapsed (parsed d) mock h = inl (ollama_result elapsed d, refl, refl)
read_ollama-IsLocal elapsed (unreadable text) mock h = h

call_ollama-IsLocal :
    (elapsed : ℕ) (sent : Sent OllamaData) (mock : BackendOutcome)
    → IsLocal mock
    → IsLocal (or_mock (call_ollama elapsed sent) mock)
unfolding call_ollama
call_ollama-IsLocal elapsed (replies r) mock h = elim (Bool-cases (r.status == 200)) [
  | inl fine ↦ rw fine (read_ollama-IsLocal elapsed r.json mock h)
  | inr bad ↦ rw bad h
]
call_ollama-IsLocal elapsed (unreachable text) mock h = h
call_ollama-IsLocal elapsed (raises text) mock h = h
call_ollama-IsLocal elapsed is_cancelled mock h = inr refl

-- In every mode, whatever the local server does: a local call ends with a result that costs nothing,
-- or with a cancellation. It never raises.
pub simulate_local_inference-IsLocal :
    (mode : Mode) (elapsed : ℕ) (sent : Sent OllamaData) (slept : Option ℕ) (prompt : List ℕ)
    → IsLocal (simulate_local_inference mode elapsed sent slept prompt)
unfolding simulate_local_inference
simulate_local_inference-IsLocal mode elapsed sent slept prompt = elim (Bool-cases mode.is_mock) [
  | inl mocked ↦ rw mocked (mock-IsLocal slept prompt)
  | inr real ↦ rw real (
      call_ollama-IsLocal elapsed sent (mock_local_inference slept prompt)
        (mock-IsLocal slept prompt))
]
