-- ===== src/LoadGenerator/Sends.antt =====
-- The requests that load_generator.py sends.
use ai_routing.Prelude.{ℕ, zero, suc, List, [], ◌∷◌}
use ai_routing.Prelude.Dict.{Dict}
use ai_routing.LoadGenerator.Prompts.{request_name}
use ai_routing.LoadGenerator.Demo.{Call, posts_inference}

-- The names of the requests that are sent.
abbrev pub sent_names : List Call → List (List ℕ)
sent_names [] = []
sent_names (posts_inference name prompt budget ∷ calls) = name ∷ sent_names calls
sent_names (call ∷ calls) = sent_names calls

abbrev pub names_from : ℕ → ℕ → List (List ℕ)
names_from i zero = []
names_from i (suc n) = request_name i ∷ names_from (suc i) n
