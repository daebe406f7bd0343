-- ===== src/Classifier/Priority.antt =====
-- The order of the tests in app/complexity_classifier.py, in terms of what the patterns match.
use ai_routing.Prelude.{
  ℕ, ◌≤◌, ◌<◌, ◌≡◌, ◌⊎◌, inl, inr, refl, true, false, none, List, [], ◌∷◌, leb, arith, Bool-cases,
}
use ai_routing.Text.{strip, count_words}
use ai_routing.Models.{fast, quality}
use ai_routing.Regex.{Re, search}
use ai_routing.Regex.Reading.{place}
use ai_routing.Regex.Matching.{Occurs, search-Occurs}
use ai_routing.Classifier.{classify, any_search, quality_patterns, fast_patterns, token_threshold}

-- A match of one of the patterns occurs in the text.
abbrev pub AnyOccurs : List Re → List ℕ → Type 0
AnyOccurs [] text = ⊥
AnyOccurs (r ∷ rs) text = Occurs r (place none text) ⊎ AnyOccurs rs text

any_search-Occurs : (rs : List Re) (text : List ℕ) → any_search rs text ≡ true → AnyOccurs rs text
unfolding any_search
any_search-Occurs [] text h = absurd (cc)
any_search-Occurs (r ∷ rs) text h = elim (Bool-cases (search r text)) [
  | inl here ↦ inl ((search-Occurs r text).0 here)
  | inr other ↦ inr (any_search-Occurs rs text (rw other at h))
]

none-Occurs : (rs : List Re) (text : List ℕ) → any_search rs text ≡ false → AnyOccurs rs text → ⊥
unfolding any_search
none-Occurs [] text h o = o
none-Occurs (r ∷ rs) text h o = elim (Bool-cases (search r text)) [
  | inl here ↦ absurd (cc (rw here at h))
  | inr other ↦ elim o [
    | inl here ↦ absurd (cc (other, (search-Occurs r text).1 here))
    | inr later ↦ none-Occurs rs text (rw other at h) later
  ]
]

-- The tier of every prompt: QUALITY if a QUALITY pattern occurs in it, stripped, whatever else does;
-- otherwise FAST if a FAST pattern occurs, however long it is; otherwise QUALITY exactly from 60 words
-- on.
pub classify-Occurs :
    (prompt : List ℕ)
    → let text = strip prompt in
      (AnyOccurs quality_patterns text × (classify prompt ≡ quality))
      ⊎ (¬ AnyOccurs quality_patterns text
          × ((AnyOccurs fast_patterns text × (classify prompt ≡ fast))
              ⊎ (¬ AnyOccurs fast_patterns text
                  × ((60 ≤ count_words false text × (classify prompt ≡ quality))
                      ⊎ (count_words false text < 60 × (classify prompt ≡ fast))))))
unfolding classify
classify-Occurs prompt =
    let text = strip prompt in
    elim (Bool-cases (any_search quality_patterns text)) [
      | inl q ↦ inl (any_search-Occurs quality_patterns text q, rw q refl)
      | inr no_q ↦ inr (
        none-Occurs quality_patterns text no_q,
        elim (Bool-cases (any_search fast_patterns text)) [
          | inl f ↦ inl (any_search-Occurs fast_patterns text f, rw (no_q, f) refl)
          | inr no_f ↦ inr (
            none-Occurs fast_patterns text no_f,
            elim (Bool-cases (leb token_threshold (count_words false text))) [
              | inl long ↦ inl (ground (arith, long), rw (no_q, no_f, long) refl)
              | inr short ↦ inr (ground (arith, short), rw (no_q, no_f, short) refl)
            ],
          )
        ],
      )
    ]
