-- ===== src/LoadGenerator/Batch.antt =====
-- The batch of load_generator.py against app/complexity_classifier.py and app/main.py.
use ai_routing.Prelude.{
  ◌||◌, ◌++◌, ℕ, zero, suc, ◌/◌, ◌%◌, ◌≤◌, ◌<◌, ◌≡◌, refl, Bool, true, false, Option, some, List,
  [], ◌∷◌, String, arith, ◌==◌, if◌then◌else◌, All, length, ap, inl, inr, Bool-cases, ◌&&◌, ◌-◌,
}
use ai_routing.Text.{codes, lower, is_in}
use ai_routing.Regex.{search, steps}
use ai_routing.Models.{ComplexityTier, fast, quality}
use ai_routing.Classifier.{classify, any_search}
use ai_routing.LoadGenerator.Prompts.{
  Options, prompt_of, decimal, fast_prompts, quality_prompts, get_elem?, prompt_text,
}

-- The classifier gives a prompt this tier, and it does not ask the remote backend to fail.
abbrev pub Suits : ComplexityTier → List ℕ → Type 0
Suits tier p = (classify p ≡ tier) × (is_in (codes "fail_remote") (lower p) ≡ false)

fast-Suits : All (λ s. Suits fast (codes s)) fast_prompts
unfolding classify any_search search steps
fast-Suits = (
  (refl, refl),
  (
    (refl, refl),
    (
      (refl, refl),
      ((refl, refl), ((refl, refl), ((refl, refl), ((refl, refl), ((refl, refl), tt))))),
    ),
  ),
)

quality-Suits : All (λ s. Suits quality (codes s)) quality_prompts
unfolding classify any_search search steps
quality-Suits = (
  (refl, refl),
  (
    (refl, refl),
    (
      (refl, refl),
      ((refl, refl), ((refl, refl), ((refl, refl), ((refl, refl), ((refl, refl), tt))))),
    ),
  ),
)

-- An index in range finds an entry.
get_elem-All {κ} :
    (P : String → Type κ) (xs : List String) (k : ℕ)
    → All P xs
    → k < length xs
    → (s : String) × (get_elem? xs k ≡ some s) × P s
get_elem-All P [] k h lt = absurd (omega (arith, lt))
get_elem-All P (x ∷ xs) zero h lt = (x, refl, h.0)
get_elem-All P (x ∷ xs) (suc k) h lt = get_elem-All P xs k h.1 (omega (arith, lt))

-- The prompt is there, gets this tier, and asks for a failure or not.
abbrev pub Prompts : Option (List ℕ) → ComplexityTier → Bool → Type 0
Prompts o tier failing =
    (p : List ℕ) × (o ≡ some p)
    × (classify p ≡ tier)
    × (is_in (codes "fail_remote") (lower p) ≡ failing)

picked :
    (tier : ComplexityTier) (xs : List String) (k : ℕ)
    → All (λ s. Suits tier (codes s)) xs
    → k < length xs
    → Prompts (prompt_text (get_elem? xs k)) tier false
picked tier xs k h lt =
    let (s, found, suits) = get_elem-All (λ s. Suits tier (codes s)) xs k h lt in
    (codes s, ap prompt_text found, suits.0, suits.1)

failing_prompt : Prompts (some (codes "explain fail_remote injected")) quality true
unfolding classify any_search search steps
failing_prompt = (codes "explain fail_remote injected", refl, refl, refl)

-- In the default batch and in that of the failure demo, every request has a prompt, no index is out of
-- range, and the tiers alternate: the odd requests are FAST and the even ones QUALITY. The first of a
-- failure demo is QUALITY instead, and it is the only one of a batch that asks the remote backend to
-- fail.
pub tiers_alternate :
    (o : Options) (i : ℕ)
    → 1 ≤ i
    → o.latency_breach ≡ false
    → o.tight_sla ≡ false
    → let injected = o.failure_demo && i == 1 in
      Prompts
        (prompt_of o i)
        (if injected then quality else (if i % 2 == 1 then fast else quality))
        injected
unfolding prompt_of
tiers_alternate o i from_one no_breach no_sla = elim (Bool-cases (o.failure_demo && i == 1)) [
  | inl first ↦ rw first failing_prompt
  | inr other ↦ elim (Bool-cases (i % 2 == 1)) [
    | inl odd ↦
        rw (other, no_breach, no_sla, odd)
          (picked fast fast_prompts (i / 2 % 8) fast-Suits (omega arith))
    | inr even ↦
        rw (other, no_breach, no_sla, even)
          (picked quality quality_prompts ((i / 2 - 1) % 8) quality-Suits (omega arith))
  ]
]

-- Every request has a prompt, in every mode.
pub has_prompt : (o : Options) (i : ℕ) → 1 ≤ i → (p : List ℕ) × (prompt_of o i ≡ some p)
unfolding prompt_of
has_prompt o i h = elim (Bool-cases (o.failure_demo && i == 1)) [
  | inl first ↦ (codes "explain fail_remote injected", rw first refl)
  | inr other ↦ elim (Bool-cases (o.latency_breach || o.tight_sla)) [
    | inl mixed ↦ (codes "Say hi. Request " ++ decimal i, rw (other, mixed) refl)
    | inr plain ↦ elim (Bool-cases (i % 2 == 1)) [
      | inl odd ↦
          let (p, found, _, _) = picked fast fast_prompts (i / 2 % 8) fast-Suits (omega arith) in
          (p, rw (other, plain, odd) found)
      | inr even ↦
          let (p, found, _, _) =
            picked quality quality_prompts ((i / 2 - 1) % 8) quality-Suits (omega arith) in
          (p, rw (other, plain, even) found)
    ]
  ]
]
