-- ===== src/LoadGenerator/Names.antt =====
-- The names of the requests of load_generator.py.
use ai_routing.Prelude.{
  ℕ, zero, suc, ◌+◌, ◌-◌, ◌*◌, ◌/◌, ◌%◌, ◌<◌, ◌≡◌, refl, ap, ◌∙◌, List, [], ◌∷◌, ◌==◌, arith, inl,
  inr, Bool-cases, drop,
}
use ai_routing.LoadGenerator.Prompts.{digits, decimal, pad_3, request_name}

-- `int(text)` of decimal digits, from what has been read.
unfoldable pub number : ℕ → List ℕ → ℕ
number seen [] = seen
number seen (c ∷ cs) = number (seen * 10 + (c - b'0')) cs

digits-number :
    (fuel n : ℕ) (rest : List ℕ) → n < fuel → number 0 (digits fuel n rest) ≡ number n rest
unfolding number
digits-number zero n rest h = absurd (omega (arith, h))
digits-number (suc fuel) n rest h = elim (Bool-cases (n / 10 == 0)) [
  | inl small ↦
      let same : 0 * 10 + (b'0' + n % 10 - b'0') ≡ n = ground (arith, small) in
      rw small (ap (λ k. number k rest) same)
  | inr more ↦
      let less : n / 10 < fuel = ground (arith, more, h) in
      let same : n / 10 * 10 + (b'0' + n % 10 - b'0') ≡ n = omega arith in
      rw more
        (digits-number fuel (n / 10) ((b'0' + n % 10) ∷ rest) less ∙ ap (λ k. number k rest) same)
]

padded-number : (cs : List ℕ) → number 0 (pad_3 cs) ≡ number 0 cs
unfolding number
padded-number [] = refl
padded-number (a ∷ []) = refl
padded-number (a ∷ b ∷ []) = refl
padded-number (a ∷ b ∷ c ∷ cs) = refl

-- The number of a request can be read back from its name, after the prefix `demo-`; so no two requests
-- of a batch have the same name, however large the batch.
pub request_name-number : (i : ℕ) → number 0 (drop 5 (request_name i)) ≡ i
unfolding decimal number
request_name-number i = padded-number (decimal i) ∙ digits-number (suc i) i [] (omega arith)
