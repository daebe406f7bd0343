-- ===== src/LoadGenerator/Demo.antt =====
-- load_generator.py: `run_demo` and `main`, by the calls that they make of the server and the exit
-- code. How a call ends is an argument, and what is printed is in the other files.
use ai_routing.Prelude.{
  ℕ, zero, suc, Bool, true, false, not, ◌&&◌, Option, none, some, List, [], ◌∷◌, ◌++◌, ◌==◌,
  if◌then◌else◌, is_some,
}
use ai_routing.Prelude.Int.{ℤ, pos, eqb_ℤ}
use ai_routing.Prelude.Dict.{Dict, lookup}
use ai_routing.Text.{codes, lower, is_in, text_eq}
use ai_routing.Models.{RunStartPayload, RunCompletePayload}
use ai_routing.LoadGenerator.{
  get_or, DetailValue, detail_text, detail_list, Reply, Sent, evaluate_verdict,
}
use ai_routing.LoadGenerator.Prompts.{
  Options, request_count, batch_size, resets, request_name, prompt_of, latency_budget,
}
use ai_routing.LoadGenerator.Counters.{send_all, count_results}

-- How the calls end: none for an exception. The lock trace is printed and decides nothing, so that its
-- call is in the list of calls alone.
pub record Server : Type 0 where
  -- the clock's reading, of which the id of the run is made
  pub run_id : ℕ
  pub health : Option ℕ
  pub trace_deleted : Bool
  pub summary : Option (Dict ℤ)
  -- the time and the reply of the request with a number
  pub inference : ℕ → ℕ × Reply
  pub metrics : Option (Dict ℤ)

-- A call of the server.
pub data Call : Type 0 where
  gets_health deletes_trace gets_summary gets_trace gets_metrics : Call
  posts_run_start : RunStartPayload → Call
  -- the name, the prompt and the latency budget
  posts_inference : List ℕ → List ℕ → ℤ → Call
  posts_run_complete : RunCompletePayload → Call

pub data End : Type 0 where
  returns : Bool → End
  raises_error : End

-- The calls of a batch, from request `i` on, or none for an `IndexError`.
abbrev pub add_call : Options → ℕ → Option (List ℕ) → Option (List Call) → Option (List Call)
add_call o i (some prompt) (some calls) =
    some (posts_inference (request_name i) prompt (latency_budget o) ∷ calls)
add_call o i _ _ = none

unfoldable pub batch_calls : Options → ℕ → ℕ → Option (List Call)
batch_calls o i zero = some []
batch_calls o i (suc n) = add_call o i (prompt_of o i) (batch_calls o (suc i) n)

-- The requests with their replies.
unfoldable pub replies_from : Server → ℕ → ℕ → List (List ℕ × ℕ × Reply)
replies_from server i zero = []
replies_from server i (suc n) =
    (request_name i, (server.inference i).0, (server.inference i).1) ∷ replies_from server (suc i) n

-- The final state: the metrics, the verdict and the marker of the run's end.
abbrev pub final_state : Server → Dict ℤ → Dict ℕ → List Call → End × List Call
final_state server summary routes calls = elim server.metrics [
  | none ↦ (returns false, calls ++ (gets_metrics ∷ []))
  | some metrics ↦
      let max_budget = get_or (lookup "budget_max" summary) (pos 5000000000000) in
      let max_latency = get_or (lookup "latency_max_ms" summary) (pos 600000000000000000) in
      let passed = (evaluate_verdict metrics max_budget max_latency).0 in
      (
        returns passed,
        calls
            ++ (gets_metrics
                ∷ posts_run_complete (record {
                  run_id = server.run_id;
                  verdict = if passed then "PASS" else "FAIL";
                  metrics = metrics;
                  routes = routes;
                })
                ∷ []),
      )
]

-- The note of a latency breach under a line of the results table; none is the `AttributeError` of a list,
-- which has no `lower`.
abbrev pub says_breach : DetailValue → Option Bool
says_breach (detail_text detail) = some (is_in (codes "breach") (lower (codes detail)))
says_breach detail_list = none

unfoldable pub shows_breach : Sent → Option Bool
shows_breach res = if res.status_code == 500 then says_breach res.detail else some false

-- The table can be printed.
unfoldable pub print_results : List Sent → Bool
print_results [] = true
print_results (res ∷ results) = is_some (shows_breach res) && print_results results

-- The breakdown, the table and the lock trace, and what follows them.
abbrev pub run_results : Server → Dict ℤ → List Sent → List Call → End × List Call
run_results server summary results calls = elim (count_results results ([], [])) [
  | none ↦ (raises_error, calls)
  | some (routes, reasons) ↦
      if print_results results
      then final_state server summary routes (calls ++ (gets_trace ∷ []))
      else (raises_error, calls)
]

-- The batch and what follows it; the limits are those of the summary, if that could be fetched.
abbrev pub run_batch : Options → ℕ → Server → Option (List Call) → List Call → End × List Call
run_batch o count server none calls = (raises_error, calls)
run_batch o count server (some posts) calls =
    run_results server (get_or server.summary []) (send_all (replies_from server 1 count))
      (calls ++ posts)

-- `run_demo` once the server is alive.
abbrev pub run_alive : Options → ℤ → Server → End × List Call
run_alive o count server =
    let calls =
      gets_health
      ∷ posts_run_start (record { run_id = server.run_id; reset = resets o })
      ∷ deletes_trace
      ∷ [] in
    if not server.trace_deleted
    then (raises_error, calls)
    else (if eqb_ℤ count (pos 0)
        then (returns true, calls)
        else run_batch o (batch_size count) server (batch_calls o 1 (batch_size count))
            (calls ++ (gets_summary ∷ [])))

-- `run_demo`
unfoldable pub run_demo : Options → ℤ → Server → End × List Call
run_demo o count server = elim server.health [
  | none ↦ (returns false, gets_health ∷ [])
  | some status ↦
      if status == 200 then run_alive o count server else (returns false, gets_health ∷ [])
]

-- The exit code: 0 if the demo passed, and 1 otherwise or after an exception.
abbrev pub exit_code : End → ℕ
exit_code (returns true) = 0
exit_code (returns false) = 1
exit_code raises_error = 1

-- `main`
unfoldable pub main : Options → Server → ℕ × List Call
main o server = let (end, calls) = run_demo o (request_count o) server in (exit_code end, calls)

-- The note of a visible rollback under a line of the results table.
unfoldable pub shows_rollback : Options → Sent → Bool
shows_rollback o res =
    o.failure_demo && text_eq res.request_id (codes "demo-001") && res.status_code == 500
