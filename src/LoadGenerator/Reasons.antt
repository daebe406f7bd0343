-- ===== src/LoadGenerator/Reasons.antt =====
-- How the loop of load_generator.py that counts the reasons of failures ends.
use ai_routing.Prelude.{
  ℕ, ◌+◌, ◌≡◌, refl, ◌⊎◌, inl, inr, Bool, true, false, ◌&&◌, Option, none, some, List, [], ◌∷◌,
  arith, if◌then◌else◌,
}
use ai_routing.Prelude.Dict.{Dict}
use ai_routing.LoadGenerator.{DetailValue, detail_text, detail_list, Sent}
use ai_routing.LoadGenerator.Counters.{count_up, has_failed, count_reason, count_results}
use ai_routing.LoadGenerator.Tallies.{ite, total, total-count_up}

-- No rejected request has a list for its detail.
abbrev pub is_text : DetailValue → Bool
is_text (detail_text reason) = true
is_text detail_list = false

abbrev pub can_count : Sent → Bool
can_count res = if has_failed res then is_text res.detail else true

abbrev pub countable : List Sent → Bool
countable [] = true
countable (res ∷ results) = can_count res && countable results

-- What the counting of one reason can end with.
abbrev pub Reasoned : Sent → Dict ℕ → Option (Dict ℕ) → Type 0
Reasoned res reasons none = can_count res ≡ false
Reasoned res reasons (some reasons') =
    (can_count res ≡ true) × (total reasons' ≡ total reasons + ite (has_failed res))

pub count_reason-Reasoned :
    (res : Sent) (reasons : Dict ℕ) → Reasoned res reasons (count_reason res reasons)
count_reason-Reasoned res reasons = by_detail (has_failed res) res.detail refl refl
  where
    by_detail :
        (failed : Bool) (detail : DetailValue)
        → has_failed res ≡ failed
        → res.detail ≡ detail
        → Reasoned res reasons (count_reason res reasons)
    by_detail false detail fine same = rw fine (rw fine (refl, omega arith))
    by_detail true (detail_text reason) failed same =
        rw (failed, same) (rw failed (refl, total-count_up reason reasons))
    by_detail true detail_list failed same = rw (failed, same) (rw failed refl)

-- The loop ends with a `TypeError` exactly where some rejected request has a list; otherwise with
-- counters.
pub count_results-cases :
    (results : List Sent) (counters : Dict ℕ × Dict ℕ)
    → ((c : Dict ℕ × Dict ℕ) × (count_results results counters ≡ some c)
        × (countable results ≡ true))
      ⊎ ((count_results results counters ≡ none) × (countable results ≡ false))
unfolding count_results
count_results-cases [] counters = inl (counters, refl, refl)
count_results-cases (res ∷ results) (routes, reasons) =
    by_reason (count_results-cases results) (count_reason res reasons) refl
      (count_reason-Reasoned res reasons)
  where
    by_reason :
        ((counters : Dict ℕ × Dict ℕ)
          → ((c : Dict ℕ × Dict ℕ) × (count_results results counters ≡ some c)
              × (countable results ≡ true))
            ⊎ ((count_results results counters ≡ none) × (countable results ≡ false)))
        → (o : Option (Dict ℕ)) → count_reason res reasons ≡ o
        → Reasoned res reasons o
        → ((c : Dict ℕ × Dict ℕ) × (count_results (res ∷ results) (routes, reasons) ≡ some c)
            × (countable (res ∷ results) ≡ true))
          ⊎ ((count_results (res ∷ results) (routes, reasons) ≡ none)
              × (countable (res ∷ results) ≡ false))
    by_reason rest none same h = rw (count_results, same, h) (inr (refl, refl))
    by_reason rest (some reasons') same h =
        rw (count_results, same, h.0) (rest (count_up res.route routes, reasons'))
