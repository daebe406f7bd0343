-- ===== src/Backends.antt =====
-- app/backends.py: the calls of the two backends. What the HTTP client, the clocks and the random
-- generator give is an argument, and so is the library that repeats a call.
pub mod Outcomes
pub mod Cost
pub mod Retries
mod Tests
use ai_routing.Prelude.{
  ℕ, zero, suc, ◌+◌, ◌*◌, Bool, true, false, not, ◌||◌, Option, none, some, List, [], ◌∷◌, ltb, leb,
  ◌==◌, if◌then◌else◌,
}
use ai_routing.Prelude.Int.{ℤ, pos}
use ai_routing.Models.{
  ResultText, ollama_text, tokenrouter_text, local_mock_text, remote_mock_text, ErrorText,
  injected_failure, simulated_failure, ollama_status, remote_status, ollama_unreachable,
  ollama_unexpected, remote_unexpected, remote_unreachable, remote_transient_status,
}
use ai_routing.Mocks.{prefix, Prices, Draws, mock_local_inference, mock_remote_inference}
use ai_routing.App.{
  BackendResult, BackendOutcome, gives, fails, remote_inference_error, cancelled, runtime_error,
  other_error, Failure,
}

-- What `resp.json()` gives, and the reading of its fields; or the text of what is raised.
pub data Parsed (J : Type 0) : Type 0 where
  parsed : J → Parsed J
  unreadable : List ℕ → Parsed J

-- A reply of a server.
pub record Reply (J : Type 0) : Type 0 where
  pub status : ℕ
  pub text : List ℕ
  pub json : Parsed J

-- How a request of the HTTP client ends. A library's exception is known by its text.
pub data Sent (J : Type 0) : Type 0 where
  replies : Reply J → Sent J
  unreachable raises : List ℕ → Sent J
  is_cancelled : Sent J

-- The fields that are read, with what `get` falls back on.
pub record OllamaData : Type 0 where
  pub response : Option (List ℕ)
  pub prompt_eval_count : Option ℕ
  pub eval_count : Option ℕ

pub record Usage : Type 0 where
  pub prompt_tokens : Option ℕ
  pub completion_tokens : Option ℕ

-- Of `choices`, the contents of the messages.
pub record RemoteData : Type 0 where
  pub usage : Option Usage
  pub choices : Option (List (Option (List ℕ)))

abbrev pub or_else {ℓ} : {A : Type ℓ} → A → Option A → A
or_else a none = a
or_else a (some b) = b

abbrev pub ollama_result : ℕ → OllamaData → BackendResult
ollama_result elapsed d = record {
  actual_cost = pos 0;
  actual_latency_ms = elapsed;
  tokens = record {
    prompt_tokens = or_else 0 d.prompt_eval_count;
    completion_tokens = or_else 0 d.eval_count;
    cache_read_tokens = 0;
    cache_write_tokens = 0;
  };
  result =
      ollama_text (or_else 0 d.prompt_eval_count) (or_else 0 d.eval_count)
        (prefix 120 (or_else [] d.response));
}

abbrev pub read_ollama : ℕ → Parsed OllamaData → BackendOutcome
read_ollama elapsed (parsed d) = gives (ollama_result elapsed d)
read_ollama elapsed (unreadable text) = fails (remote_inference_error (ollama_unexpected text))

-- `_call_ollama`, with the time that it took.
unfoldable pub call_ollama : ℕ → Sent OllamaData → BackendOutcome
call_ollama elapsed (replies r) =
    if r.status == 200
    then read_ollama elapsed r.json
    else fails (remote_inference_error (ollama_status r.status (prefix 200 r.text)))
call_ollama elapsed (unreachable text) = fails (remote_inference_error (ollama_unreachable text))
call_ollama elapsed (raises text) = fails (remote_inference_error (ollama_unexpected text))
call_ollama elapsed is_cancelled = fails cancelled

-- How one attempt at a remote request ends: `transient` is a `TransientRemoteError`.
pub data Attempt : Type 0 where
  responds : Reply RemoteData → Attempt
  transient : ErrorText → Attempt
  fails_with : List ℕ → Attempt
  gives_up : Attempt

abbrev pub is_transient_status : ℕ → Bool
is_transient_status s = s == 429 || s == 502 || s == 503 || s == 504

-- `_execute_tokenrouter_request`, one attempt.
unfoldable pub execute_request : Sent RemoteData → Attempt
execute_request (replies r) =
    if is_transient_status r.status
    then transient (remote_transient_status r.status)
    else responds r
execute_request (unreachable text) = transient (remote_unreachable text)
execute_request (raises text) = fails_with text
execute_request is_cancelled = gives_up

-- The cost at the prices of input and output.
abbrev pub token_cost : Prices → ℕ → ℕ → ℕ
token_cost p prompt completion = prompt * p.input_price + completion * p.output_price

abbrev pub usage_prompt : Option Usage → ℕ
usage_prompt none = 0
usage_prompt (some u) = or_else 0 u.prompt_tokens

abbrev pub usage_completion : Option Usage → ℕ
usage_completion none = 0
usage_completion (some u) = or_else 0 u.completion_tokens

-- The content of the first choice.
abbrev pub first_content : List (Option (List ℕ)) → List ℕ
first_content [] = []
first_content (c ∷ cs) = or_else [] c

abbrev pub remote_result : Prices → ℕ → RemoteData → BackendResult
remote_result p elapsed d =
    let prompt = usage_prompt d.usage in
    let completion = usage_completion d.usage in
    let cost = pos (token_cost p prompt completion) in
    record {
      actual_cost = cost;
      actual_latency_ms = elapsed;
      tokens = record {
        prompt_tokens = prompt;
        completion_tokens = completion;
        cache_read_tokens = 0;
        cache_write_tokens = 0;
      };
      result =
          tokenrouter_text prompt completion cost
            (prefix 120 (first_content (or_else [] d.choices)));
    }

-- The reading of a reply that is no error.
abbrev pub read_remote : Prices → ℕ → Parsed RemoteData → BackendOutcome
read_remote p elapsed (parsed d) = gives (remote_result p elapsed d)
read_remote p elapsed (unreadable text) = fails (remote_inference_error (remote_unexpected text))

-- `_call_tokenrouter` once the attempts are over.
unfoldable pub after_attempts : Prices → ℕ → Attempt → BackendOutcome
after_attempts p elapsed (responds r) =
    if leb 400 r.status
    then fails (remote_inference_error (remote_status r.status (prefix 200 r.text)))
    else read_remote p elapsed r.json
after_attempts p elapsed (transient text) = fails (remote_inference_error text)
after_attempts p elapsed (fails_with text) = fails (remote_inference_error (remote_unexpected text))
after_attempts p elapsed gives_up = fails cancelled

-- `_call_tokenrouter`. `retry` is what the library makes of the attempts, numbered from 0.
unfoldable pub call_tokenrouter :
    ((ℕ → Attempt) → Attempt) → Prices → ℕ → Bool → (ℕ → Sent RemoteData) → BackendOutcome
call_tokenrouter retry p elapsed true sent = fails (remote_inference_error injected_failure)
call_tokenrouter retry p elapsed false sent =
    after_attempts p elapsed (retry (λ n. execute_request (sent n)))

-- `BACKEND_MODE` and `REMOTE_LLM_API_KEY` of app/config.py: only `mock`, and whether there is a key.
pub record Mode : Type 0 where
  pub is_mock : Bool
  pub has_api_key : Bool

-- The mock takes over where Ollama fails.
abbrev pub or_mock : BackendOutcome → BackendOutcome → BackendOutcome
or_mock (fails (remote_inference_error text)) mock = mock
or_mock outcome mock = outcome

-- `simulate_local_inference`
unfoldable pub simulate_local_inference :
    Mode → ℕ → Sent OllamaData → Option ℕ → List ℕ → BackendOutcome
simulate_local_inference mode elapsed sent slept prompt =
    if mode.is_mock
    then mock_local_inference slept prompt
    else or_mock (call_ollama elapsed sent) (mock_local_inference slept prompt)

-- `simulate_remote_inference`
unfoldable pub simulate_remote_inference :
    ((ℕ → Attempt) → Attempt)
    → Mode
    → Prices
    → ℕ
    → (ℕ → Sent RemoteData)
    → Option ℕ
    → Draws
    → Bool
    → BackendOutcome
simulate_remote_inference retry mode p elapsed sent slept draws fail =
    if mode.is_mock || not mode.has_api_key
    then mock_remote_inference p slept draws fail
    else call_tokenrouter retry p elapsed fail sent
