-- ===== src/LoadGenerator.antt =====
-- load_generator.py: the batch of requests that it sends at once, and what it makes of the replies, of
-- the lock trace and of the metrics. The server and the HTTP client are not part of it: a reply is an
-- argument. An amount is a count of ticks, and the numbers of the metrics are signed.
pub mod Verdict
pub mod Prompts
pub mod Batch
pub mod Names
pub mod Counters
pub mod Tallies
pub mod Reasons
pub mod Counts
pub mod Timeline
pub mod Demo
pub mod Exit
pub mod Sends
pub mod Texts
pub mod Served
mod Tests
use ai_routing.Prelude.{
  ℕ, ◌+◌, ◌-◌, ◌*◌, ◌/◌, ◌%◌, suc, zero, Bool, true, false, not, ◌&&◌, ◌||◌, Option, none, some,
  List, [], ◌∷◌, ◌++◌, map, String, ltb, leb, ◌==◌, length, if◌then◌else◌,
}
use ai_routing.Prelude.Int.{ℤ, pos, ◌+ℤ◌, ◌-ℤ◌, ltb_ℤ, leb_ℤ, eqb_ℤ}
use ai_routing.Prelude.Dict.{Dict, lookup, insert}
use text.Mathlib.Text.{◌==◌ as str_eq}
use ai_routing.Text.{codes, lower, is_in}
use ai_routing.LockTrace.{LockEvent, Trace, Phase, Action, acquire, release}
use ai_routing.Observability.{abs}

-- `data.get(key, default)`
abbrev pub get_or {ℓ} : {A : Type ℓ} → Option A → A → A
get_or none a = a
get_or (some b) a = b

-- The `detail` of a reply: the text of an `HTTPException`, or the list that FastAPI gives where a request
-- fails its validation.
pub data DetailValue : Type 0 where
  detail_text : String → DetailValue
  detail_list : DetailValue

-- The keys of a JSON reply of POST /inference that are read.
pub record Body : Type 0 where
  pub route : Option String
  pub complexity_tier : Option String
  pub actual_cost : Option ℤ
  pub actual_latency_ms : Option ℤ
  pub prompt_tokens : Option ℕ
  pub completion_tokens : Option ℕ
  pub cache_read_tokens : Option ℕ
  pub cache_write_tokens : Option ℕ
  pub budget_remaining : Option ℤ
  pub detail : Option DetailValue

abbrev pub no_body : Body
no_body = record {
  route = none;
  complexity_tier = none;
  actual_cost = none;
  actual_latency_ms = none;
  prompt_tokens = none;
  completion_tokens = none;
  cache_read_tokens = none;
  cache_write_tokens = none;
  budget_remaining = none;
  detail = none;
}

-- How the call of `client.post` ends: a status and the body, if that is JSON, or an exception,
-- of the call or of the reading of a body that is no object.
pub data Reply : Type 0 where
  replies : ℕ → Option Body → Reply
  raises : String → Reply

-- What `send_request` returns; after an exception there is no tier.
pub record Sent : Type 0 where
  pub request_id : List ℕ
  pub status_code : ℕ
  pub route : String
  pub complexity_tier : Option String
  pub actual_cost : ℤ
  pub actual_latency_ms : ℤ
  pub prompt_tokens : ℕ
  pub completion_tokens : ℕ
  pub cache_read_tokens : ℕ
  pub cache_write_tokens : ℕ
  pub budget_remaining : Option ℤ
  pub duration_ms : ℕ
  pub detail : DetailValue

abbrev pub sent_of : List ℕ → ℕ → ℕ → Body → Sent
sent_of req_id duration_ms status data_ = record {
  request_id = req_id;
  status_code = status;
  route = get_or data_.route (if status == 503 then "FAIL_FAST" else "ERROR");
  complexity_tier = some (get_or data_.complexity_tier "-");
  actual_cost = get_or data_.actual_cost (pos 0);
  actual_latency_ms = get_or data_.actual_latency_ms (pos 0);
  prompt_tokens = get_or data_.prompt_tokens 0;
  completion_tokens = get_or data_.completion_tokens 0;
  cache_read_tokens = get_or data_.cache_read_tokens 0;
  cache_write_tokens = get_or data_.cache_write_tokens 0;
  budget_remaining = data_.budget_remaining;
  duration_ms = duration_ms;
  detail = get_or data_.detail (detail_text "");
}

-- `send_request`, from the reply on.
unfoldable pub send_request : List ℕ → ℕ → Reply → Sent
send_request req_id duration_ms (replies status body) =
    sent_of req_id duration_ms status (get_or body no_body)
send_request req_id duration_ms (raises text) = record {
  request_id = req_id;
  status_code = 0;
  route = "CONNECTION_ERROR";
  complexity_tier = none;
  actual_cost = pos 0;
  actual_latency_ms = pos 0;
  prompt_tokens = 0;
  completion_tokens = 0;
  cache_read_tokens = 0;
  cache_write_tokens = 0;
  budget_remaining = none;
  duration_ms = duration_ms;
  detail = detail_text text;
}

-- The errors of a verdict, with the numbers that they print.
pub data VerdictError : Type 0 where
  budget_overspend : ℤ → ℤ → VerdictError
  reservation_leak active_reservations_leak queue_leak latency_reservation_leak : ℤ → VerdictError
  latency_cap_breach : ℤ → ℤ → VerdictError

-- `math.isclose(v, 0.0, abs_tol=1e-9)`
abbrev pub is_close_to_zero : ℤ → Bool
is_close_to_zero v = leb_ℤ (abs v) (pos 1000)

-- `if failed: errors.append(error)`
abbrev pub append_if : Bool → VerdictError → List VerdictError → List VerdictError
append_if failed error errors = if failed then errors ++ (error ∷ []) else errors

abbrev pub is_empty : List VerdictError → Bool
is_empty [] = true
is_empty (_ ∷ _) = false

-- `evaluate_verdict`
unfoldable pub verdict_errors : Dict ℤ → ℤ → ℤ → List VerdictError
verdict_errors metrics max_budget max_latency =
    let cost = get_or (lookup "cumulative_remote_cost" metrics) (pos 0) in
    let reserved = get_or (lookup "reserved_remote_budget" metrics) (pos 0) in
    let active_res = get_or (lookup "active_remote_reservations" metrics) (pos 0) in
    let active_local = get_or (lookup "active_local_inferences" metrics) (pos 0) in
    let reserved_lat = get_or (lookup "reserved_latency_ms" metrics) (pos 0) in
    let lat_spent = get_or (lookup "cumulative_actual_latency_ms" metrics) (pos 0) in
    append_if (ltb_ℤ (max_latency +ℤ pos 1000) lat_spent) (latency_cap_breach lat_spent max_latency)
      (append_if (not (is_close_to_zero reserved_lat)) (latency_reservation_leak reserved_lat) (
        append_if (not (eqb_ℤ active_local (pos 0))) (queue_leak active_local) (
          append_if (not (eqb_ℤ active_res (pos 0))) (active_reservations_leak active_res) (
            append_if (not (is_close_to_zero reserved)) (reservation_leak reserved) (
              append_if (ltb_ℤ (max_budget +ℤ pos 1000) cost) (budget_overspend cost max_budget)
                [])))))

unfoldable pub evaluate_verdict : Dict ℤ → ℤ → ℤ → Bool × List VerdictError
unfolding verdict_errors
evaluate_verdict metrics max_budget max_latency =
    let errors = verdict_errors metrics max_budget max_latency in (is_empty errors, errors)
