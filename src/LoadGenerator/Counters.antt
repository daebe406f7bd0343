-- ===== src/LoadGenerator/Counters.antt =====
-- load_generator.py: the counting of the routes and of the reasons of failures.
use ai_routing.Prelude.{
  ℕ, ◌+◌, Bool, ◌||◌, Option, none, some, List, [], ◌∷◌, String, if◌then◌else◌,
}
use text.Mathlib.Text.{◌==◌ as str_eq}
use ai_routing.Prelude.Dict.{Dict, lookup, insert}
use ai_routing.LoadGenerator.{
  get_or, DetailValue, detail_text, detail_list, Reply, Sent, send_request,
}

-- `counter[key] += 1`, of a `Counter`.
abbrev pub count_up : String → Dict ℕ → Dict ℕ
count_up key counter = insert key (get_or (lookup key counter) 0 + 1) counter

-- `route in ["FAIL_FAST", "ERROR", "CONNECTION_ERROR"]`
abbrev pub has_failed : Sent → Bool
has_failed res =
    str_eq res.route "FAIL_FAST" || str_eq res.route "ERROR" || str_eq res.route "CONNECTION_ERROR"

-- `reasons_counter[reason] += 1`; none is the `TypeError` of a list, which is no key.
abbrev pub count_detail : DetailValue → Dict ℕ → Option (Dict ℕ)
count_detail (detail_text reason) reasons = some (count_up reason reasons)
count_detail detail_list reasons = none

abbrev pub count_reason : Sent → Dict ℕ → Option (Dict ℕ)
count_reason res reasons = if has_failed res then count_detail res.detail reasons else some reasons

-- The loop that counts the routes and the reasons of failures.
unfoldable pub count_results : List Sent → Dict ℕ × Dict ℕ → Option (Dict ℕ × Dict ℕ)
count_results [] counters = some counters
count_results (res ∷ results) (routes, reasons) = elim (count_reason res reasons) [
  | none ↦ none
  | some reasons' ↦ count_results results (count_up res.route routes, reasons')
]

-- `routes_counter.get(key, 0)`
abbrev pub count_of : String → Dict ℕ → ℕ
count_of key counter = get_or (lookup key counter) 0

-- `fail_count`
unfoldable pub fail_count : Dict ℕ → ℕ
fail_count routes =
    count_of "FAIL_FAST" routes + count_of "ERROR" routes + count_of "CONNECTION_ERROR" routes

-- The routing breakdown that is printed.
pub record Breakdown : Type 0 where
  pub local_count : ℕ
  pub remote_count : ℕ
  pub queue_local_count : ℕ
  pub rejected_count : ℕ
  pub reasons : Dict ℕ

unfoldable pub breakdown_of : Dict ℕ × Dict ℕ → Breakdown
breakdown_of (routes, reasons) = record {
  local_count = count_of "LOCAL" routes;
  remote_count = count_of "REMOTE" routes;
  queue_local_count = count_of "QUEUE_LOCAL" routes;
  rejected_count = fail_count routes;
  reasons = reasons;
}

-- `send_request` for each request, with the time that it took.
abbrev pub send_all : List (List ℕ × ℕ × Reply) → List Sent
send_all [] = []
send_all ((req_id, duration_ms, reply) ∷ rest) =
    send_request req_id duration_ms reply ∷ send_all rest
