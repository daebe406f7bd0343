-- ===== src/LoadGenerator/Prompts.antt =====
-- load_generator.py: the batch of requests that the arguments choose, with their names and prompts.
use ai_routing.Prelude.{
  ℕ, ◌+◌, ◌-◌, ◌/◌, ◌%◌, suc, zero, Bool, true, ◌&&◌, ◌||◌, Option, none, some, List, [], ◌∷◌, ◌++◌,
  String, ◌==◌, length, if◌then◌else◌,
}
use ai_routing.Prelude.Int.{ℤ, pos, negsuc}
use ai_routing.Text.{codes}

-- The arguments of the command line that choose the batch.
pub record Options : Type 0 where
  pub requests : ℤ
  pub stress : Bool
  pub failure_demo : Bool
  pub tight_sla : Bool
  pub latency_breach : Bool
  pub reset : Bool
  pub reset_only : Bool

-- `main`: the number of requests, and the argument `reset` of `run_demo`.
unfoldable pub request_count : Options → ℤ
request_count o =
    if o.reset_only then pos 0 else (if o.stress || o.latency_breach then pos 80 else o.requests)

-- The length of `range(1, requests_count + 1)`.
abbrev pub batch_size : ℤ → ℕ
batch_size (pos n) = n
batch_size (negsuc n) = 0

unfoldable pub resets : Options → Bool
resets o = if o.reset_only then true else o.reset

-- A number in decimal: `fuel` bounds the number of its digits.
abbrev pub digits : ℕ → ℕ → List ℕ → List ℕ
digits zero n rest = rest
digits (suc fuel) n rest =
    let more = digits fuel (n / 10) ((b'0' + n % 10) ∷ rest) in
    if n / 10 == 0 then (b'0' + n % 10) ∷ rest else more

-- `f"{i}"`
unfoldable pub decimal : ℕ → List ℕ
decimal n = digits (suc n) n []

-- `f"demo-{i:03d}"`
abbrev pub pad_3 : List ℕ → List ℕ
pad_3 [] = codes "000"
pad_3 (a ∷ []) = codes "00" ++ (a ∷ [])
pad_3 (a ∷ b ∷ []) = codes "0" ++ (a ∷ b ∷ [])
pad_3 cs = cs

abbrev pub request_name : ℕ → List ℕ
request_name i = codes "demo-" ++ pad_3 (decimal i)

abbrev pub fast_prompts : List String
fast_prompts =
    "What is the capital of France?" ∷ "Who wrote Hamlet?" ∷ "Hello, how are you?"
    ∷ "Define recursion in one sentence." ∷ "When did World War II end?" ∷ "What is 2 + 2?"
    ∷ "Who is Ada Lovelace?" ∷ "Translate 'hello' into Spanish." ∷ []

abbrev pub quality_prompts : List String
quality_prompts =
    "Explain why async/await avoids thread-based race conditions in Python."
    ∷ "Design a budget-aware inference router that handles concurrent requests safely."
    ∷ "Write a Python function that implements exponential backoff with jitter."
    ∷ "Compare transformer attention mechanisms with RNNs for sequence modelling."
    ∷ "Analyse the time complexity of merge sort and explain each step."
    ∷ "Explain the trade-offs between SQL and NoSQL databases for high-throughput workloads."
    ∷ "Refactor this code to use list comprehensions and reduce memory usage."
    ∷ "Why do neural networks require non-linear activation functions?" ∷ []

-- `xs[i]`, with none for an `IndexError`.
abbrev pub get_elem? {ℓ} : {A : Type ℓ} → List A → ℕ → Option A
get_elem? [] i = none
get_elem? (x ∷ xs) zero = some x
get_elem? (x ∷ xs) (suc i) = get_elem? xs i

abbrev pub prompt_text : Option String → Option (List ℕ)
prompt_text none = none
prompt_text (some s) = some (codes s)

-- The prompt of the request with number `i`, or none if an index is out of range.
unfoldable pub prompt_of : Options → ℕ → Option (List ℕ)
prompt_of o i =
    if o.failure_demo && i == 1
    then some (codes "explain fail_remote injected")
    else (if o.latency_breach || o.tight_sla
        then some (codes "Say hi. Request " ++ decimal i)
        else (if i % 2 == 1
            then prompt_text (get_elem? fast_prompts (i / 2 % length fast_prompts))
            else prompt_text (get_elem? quality_prompts ((i / 2 - 1) % length quality_prompts))))

-- `latency_budget`, in ticks.
abbrev pub latency_budget : Options → ℤ
latency_budget o = if o.tight_sla then pos 100000000000000 else pos 5000000000000000
