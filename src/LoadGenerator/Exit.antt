-- ===== src/LoadGenerator/Exit.antt =====
-- The exit code of load_generator.py.
use ai_routing.Prelude.{
  ℕ, zero, suc, ◌≤◌, ◌≡◌, ◌≢◌, ◌↔◌, ◌⊎◌, refl, sym, ap, ◌∙◌, inl, inr, Bool, true, false, none,
  some, List, [], ◌∷◌, ◌++◌, arith, Bool-cases, Option-cases, ◌==◌, ==_iff,
}
use ai_routing.Prelude.Int.{ℤ, pos, negsuc, eqb_ℤ}
use ai_routing.Prelude.Dict.{Dict, lookup}
use ai_routing.LoadGenerator.{
  get_or, Sent, VerdictError, verdict_errors, evaluate_verdict, is_empty,
}
use ai_routing.LoadGenerator.Prompts.{
  Options, resets, request_count, batch_size, request_name, latency_budget,
}
use ai_routing.LoadGenerator.Batch.{has_prompt}
use ai_routing.LoadGenerator.Counters.{send_all, count_results}
use ai_routing.LoadGenerator.Reasons.{countable, count_results-cases}
use ai_routing.LoadGenerator.Demo.{
  Server, Call, returns, batch_calls, replies_from, run_demo, exit_code, main, posts_inference,
  gets_health, deletes_trace, gets_summary, posts_run_start, run_results, print_results,
}

pub batch_total :
    (o : Options) (i n : ℕ) → 1 ≤ i → (calls : List Call) × (batch_calls o i n ≡ some calls)
unfolding batch_calls
batch_total o i zero h = ([], refl)
batch_total o i (suc n) h =
    let (prompt, found) = has_prompt o i h in
    let (calls, rest) = batch_total o (suc i) n (omega (arith, h)) in
    (posts_inference (request_name i) prompt (latency_budget o) ∷ calls, rw (found, rest) refl)

-- The limits that the verdict is given: those of the summary, or the constants of `run_demo`.
abbrev pub budget_limit : Server → ℤ
budget_limit server = get_or (lookup "budget_max" (get_or server.summary [])) (pos 5000000000000)

abbrev pub latency_limit : Server → ℤ
latency_limit server =
    get_or (lookup "latency_max_ms" (get_or server.summary [])) (pos 600000000000000000)

-- The metrics could be fetched, and show no error.
abbrev pub Clears : Server → Type 0
Clears server =
    (metrics : Dict ℤ) × (server.metrics ≡ some metrics)
    × (verdict_errors metrics (budget_limit server) (latency_limit server) ≡ [])

-- The results of the batch.
abbrev pub results_of : Options → Server → List Sent
results_of o server = send_all (replies_from server 1 (batch_size (request_count o)))

-- The results can be counted and printed: no rejected request, and none with the status 500, has a list
-- for its detail.
abbrev pub Prints : Options → Server → Type 0
Prints o server =
    (countable (results_of o server) ≡ true) × (print_results (results_of o server) ≡ true)

-- The server is alive, its trace could be cleared, and what was asked for is a reset alone, or the
-- results can be printed and the metrics clear it.
pub record Passes (o : Options) (server : Server) : Type 0 where
  pub alive : server.health ≡ some 200
  pub cleared : server.trace_deleted ≡ true
  pub clears : (request_count o ≡ pos 0) ⊎ (Prints o server × Clears server)

pub eqb_zero : (n : ℤ) → eqb_ℤ n (pos 0) ≡ true → n ≡ pos 0
eqb_zero (pos n) h = ground arith
eqb_zero (negsuc n) h = ground arith

empty : (errors : List VerdictError) → is_empty errors ≡ true → errors ≡ []
empty [] h = refl
empty (e ∷ errors) h = absurd (cc)

code_of : (b : Bool) → exit_code (returns b) ≡ 0 → b ≡ true
code_of true h = refl
code_of false h = absurd (omega (arith, h))

module _ (o : Options) (server : Server) where
  unreachable : server.health ≡ none → (main o server).0 ≡ 1
  unfolding main run_demo
  unreachable h = rw h refl

  unhealthy : (n : ℕ) → server.health ≡ some n → (n == 200) ≡ false → (main o server).0 ≡ 1
  unfolding main run_demo
  unhealthy n h k = rw (h, k) refl

  -- From here on the server is alive.
  module _ (alive : server.health ≡ some 200) where
    uncleared : server.trace_deleted ≡ false → (main o server).0 ≡ 1
    unfolding main run_demo
    uncleared h = rw (alive, h) refl

    module _ (cleared : server.trace_deleted ≡ true) where
      only_reset : eqb_ℤ (request_count o) (pos 0) ≡ true → (main o server).0 ≡ 0
      unfolding main run_demo
      only_reset h = rw (alive, cleared, h) refl

      module _ (asked : eqb_ℤ (request_count o) (pos 0) ≡ false) where
        -- The run from the results on.
        run_by :
            (calls : List Call) × ((main o server).0
              ≡ exit_code
                  (run_results server (get_or server.summary []) (results_of o server) calls).0)
        unfolding main run_demo
        run_by =
            let (posts, made) = batch_total o 1 (batch_size (request_count o)) (omega arith) in
            (
              (gets_health
                    ∷ posts_run_start (record { run_id = server.run_id; reset = resets o })
                    ∷ deletes_trace
                    ∷ gets_summary
                    ∷ [])
                  ++ posts,
              rw (alive, cleared, asked, made) refl,
            )

        uncountable : countable (results_of o server) ≡ false → (main o server).0 ≡ 1
        uncountable h =
            let (calls, run_) = run_by in
            elim (count_results-cases (results_of o server) ([], [])) [
              | inl (c, runs, fine) ↦ absurd (cc (h, fine))
              | inr (raised, _) ↦ run_ ∙ rw (raised, exit_code, run_results) refl
            ]

        module _ (counts : countable (results_of o server) ≡ true) where
          counted_by :
              (c : Dict ℕ × Dict ℕ) × (count_results (results_of o server) ([], []) ≡ some c)
          counted_by = elim (count_results-cases (results_of o server) ([], [])) [
            | inl (c, runs, fine) ↦ (c, runs)
            | inr (raised, other) ↦ absurd (cc (counts, other))
          ]

          unprintable : print_results (results_of o server) ≡ false → (main o server).0 ≡ 1
          unprintable h =
              let (calls, run_) = run_by in
              let (c, runs) = counted_by in run_ ∙ rw (runs, exit_code, run_results, h) refl

          module _ (prints : print_results (results_of o server) ≡ true) where
            no_metrics : server.metrics ≡ none → (main o server).0 ≡ 1
            no_metrics h =
                let (calls, run_) = run_by in
                let (c, runs) = counted_by in
                run_ ∙ rw (runs, exit_code, run_results, prints, h) refl

            judged :
                (metrics : Dict ℤ)
                → server.metrics ≡ some metrics
                → (main o server).0
                  ≡ exit_code (
                      returns (
                        is_empty
                          (verdict_errors metrics (budget_limit server) (latency_limit server))))
            unfolding evaluate_verdict
            judged metrics h =
                let (calls, run_) = run_by in
                let (c, runs) = counted_by in
                run_ ∙ rw (runs, exit_code, run_results, prints, h) refl

  exit_zero : Passes o server → (main o server).0 ≡ 0
  exit_zero p = elim (Bool-cases (eqb_ℤ (request_count o) (pos 0))) [
    | inl zero_ ↦ only_reset p.alive p.cleared zero_
    | inr asked ↦ elim p.clears [
      | inl none_asked ↦ absurd (ground (arith, asked, none_asked))
      | inr ((counts, prints), (metrics, fetched, fine)) ↦
          judged p.alive p.cleared asked counts prints metrics fetched
          ∙ ap (λ e. exit_code (returns (is_empty e))) fine
    ]
  ]

  not_one : (n : ℕ) → n ≡ 1 → n ≢ 0
  not_one n h k = omega (arith, h, k)

  passes : (main o server).0 ≡ 0 → Passes o server
  passes fine = elim (Option-cases server.health) [
    | inl dead ↦ absurd (not_one _ (unreachable dead) fine)
    | inr (n, status) ↦ elim (Bool-cases (n == 200)) [
      | inr bad ↦ absurd (not_one _ (unhealthy n status bad) fine)
      | inl good ↦
          let alive = status ∙ ap some ((==_iff n 200).0 good) in
          elim (Bool-cases server.trace_deleted) [
            | inr lost ↦ absurd (not_one _ (uncleared alive lost) fine)
            | inl cleared ↦ record {
              alive = alive;
              cleared = cleared;
              clears = cleared_by alive cleared;
            }
          ]
    ]
  ]
    where
      cleared_with :
          (alive : server.health ≡ some 200) (cleared : server.trace_deleted ≡ true)
          (asked : eqb_ℤ (request_count o) (pos 0) ≡ false)
          (counts : countable (results_of o server) ≡ true)
          → print_results (results_of o server) ≡ true
          → Clears server
      cleared_with alive cleared asked counts prints = elim (Option-cases server.metrics) [
        | inl lost ↦ absurd (not_one _ (no_metrics alive cleared asked counts prints lost) fine)
        | inr (metrics, fetched) ↦ (
          metrics,
          fetched,
          empty _
              (code_of _ (sym (judged alive cleared asked counts prints metrics fetched) ∙ fine)),
        )
      ]

      cleared_by :
          server.health ≡ some 200
          → server.trace_deleted ≡ true
          → (request_count o ≡ pos 0) ⊎ (Prints o server × Clears server)
      cleared_by alive cleared = elim (Bool-cases (eqb_ℤ (request_count o) (pos 0))) [
        | inl zero_ ↦ inl (eqb_zero (request_count o) zero_)
        | inr asked ↦ elim (Bool-cases (countable (results_of o server))) [
          | inr list_ ↦ absurd (not_one _ (uncountable alive cleared asked list_) fine)
          | inl counts ↦ elim (Bool-cases (print_results (results_of o server))) [
            | inr list_ ↦ absurd (not_one _ (unprintable alive cleared asked counts list_) fine)
            | inl prints ↦ inr ((counts, prints), cleared_with alive cleared asked counts prints)
          ]
        ]
      ]

  -- The exit code is 0 if and only if the server is alive, its lock trace could be cleared, and either
  -- no request was asked for or these three hold: no rejected request, and none with the status 500, has
  -- a list for its detail; the metrics could be fetched; and the verdict on them, with the limits that
  -- the server's summary gives, has no error. So no failed request and no lost reply alone makes the
  -- demo fail, but the list of a failed validation does.
  pub exit_zero_iff : ((main o server).0 ≡ 0) ↔ Passes o server
  exit_zero_iff = (passes, exit_zero)
