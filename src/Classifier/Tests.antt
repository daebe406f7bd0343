-- ===== src/Classifier/Tests.antt =====
-- Runs of app/complexity_classifier.py on concrete prompts, and the theorems about it at
-- such prompts.
use ai_routing.Prelude.{ℕ, ◌≤◌, ◌<◌, ◌≡◌, ◌⊎◌, refl, false, List}
use ai_routing.Text.{codes, strip, count_words}
use ai_routing.Regex.{steps, search}
use ai_routing.Models.{fast, quality}
use ai_routing.Classifier.{classify, any_search, quality_patterns, fast_patterns}
use ai_routing.Classifier.Priority.{AnyOccurs, classify-Occurs}

capital : classify (codes "What is the capital of France?") ≡ fast
unfolding classify any_search search steps
capital = refl

compare_prompt : classify (codes "  Compare TCP and UDP") ≡ quality
unfolding classify any_search search steps
compare_prompt = refl

write_prompt : classify (codes "write me a short REPORT") ≡ quality
unfolding classify any_search search steps
write_prompt = refl

sum_prompt : classify (codes "12 + 30 / 4 =") ≡ fast
unfolding classify any_search search steps
sum_prompt = refl

-- The misspelled pattern does not match.
suggest_prompt : classify (codes "suggest a name") ≡ fast
unfolding classify any_search search steps
suggest_prompt = refl

abbrev lookup_prompt : List ℕ
lookup_prompt = codes "What is the capital of France?"

classify-Occurs_example :
    let text = strip lookup_prompt in
    (AnyOccurs quality_patterns text × (classify lookup_prompt ≡ quality))
    ⊎ (¬ AnyOccurs quality_patterns text
        × ((AnyOccurs fast_patterns text × (classify lookup_prompt ≡ fast))
            ⊎ (¬ AnyOccurs fast_patterns text
                × ((60 ≤ count_words false text × (classify lookup_prompt ≡ quality))
                    ⊎ (count_words false text < 60 × (classify lookup_prompt ≡ fast))))))
classify-Occurs_example = classify-Occurs lookup_prompt
