-- ===== src/LoadGenerator/Counts.antt =====
-- The routing breakdown that load_generator.py prints adds up.
use ai_routing.Prelude.{
  ℕ, subst, ◌==◌, ◌+◌, ◌≡◌, refl, ap, inl, inr, true, false, Option, none, some, List, [], ◌∷◌,
  length, String, arith, if◌then◌else◌, Bool-cases, All,
}
use ai_routing.Prelude.Dict.{Dict, lookup}
use ai_routing.Models.{RouteDecision, route_value, fail_fast}
use ai_routing.LoadGenerator.{get_or, Reply, replies, raises, Sent, send_request}
use ai_routing.LoadGenerator.Counters.{
  count_up, count_reason, count_results, fail_count, breakdown_of, send_all,
}
use ai_routing.LoadGenerator.Tallies.{
  total, Known, all_counts, all_counts-count_up, fail_count-count_up,
}
use ai_routing.LoadGenerator.Reasons.{
  countable, Reasoned, count_reason-Reasoned, count_results-cases,
}

-- What the loop keeps, after `n` results.
record Counted (n : ℕ) (counters : Dict ℕ × Dict ℕ) : Type 0 where
  all : all_counts counters.0 ≡ n
  reasons : total counters.1 ≡ fail_count counters.0

counted :
    (results : List Sent) (n : ℕ) (counters c : Dict ℕ × Dict ℕ)
    → All (λ res. Known res.route) results
    → Counted n counters
    → count_results results counters ≡ some c
    → Counted (n + length results) c
unfolding count_results
counted [] n counters c known held h =
    subst (λ k. Counted k c) (omega arith) (subst (Counted n) (ap (λ o. get_or o counters) h) held)
counted (res ∷ results) n (routes, reasons) c known held h =
    by_reason (λ counters. counted results (n + 1) counters c known.1) (count_reason res reasons)
      (count_reason-Reasoned res reasons) h
  where
    by_reason :
        ((counters : Dict ℕ × Dict ℕ)
          → Counted (n + 1) counters
          → count_results results counters ≡ some c
          → Counted (n + 1 + length results) c)
        → (o : Option (Dict ℕ)) → Reasoned res reasons o
        → elim o [
          | none ↦ none
          | some reasons' ↦ count_results results (count_up res.route routes, reasons')
        ]
          ≡ some c
        → Counted (n + length (res ∷ results)) c
    by_reason rest none k e = absurd (cc)
    by_reason rest (some reasons') k e =
        subst (λ m. Counted m c) (omega arith)
          (rest (count_up res.route routes, reasons')
            (record {
              all =
                  let a = held.all in
                  omega (arith, a, all_counts-count_up res.route routes known.0);
              reasons =
                  let r = held.reasons in
                  let one = k.1 in omega (arith, r, one, fail_count-count_up res routes);
            })
            e)

-- A body that names a route names one of the server's.
abbrev NamesRoute : Option String → Type 0
NamesRoute none = Unit
NamesRoute (some route) = (d : RouteDecision) × (route ≡ route_value d)

abbrev pub IsServers : Reply → Type 0
IsServers (replies status none) = Unit
IsServers (replies status (some body)) = NamesRoute body.route
IsServers (raises text) = Unit

default_route : (status : ℕ) → Known (if status == 503 then "FAIL_FAST" else "ERROR")
default_route status = elim (Bool-cases (status == 503)) [
  | inl full ↦ rw full (inl (fail_fast, refl))
  | inr other ↦ rw other (inr (inl refl))
]

send_request-Known :
    (req_id : List ℕ) (duration_ms : ℕ) (reply : Reply)
    → IsServers reply
    → Known (send_request req_id duration_ms reply).route
unfolding send_request
send_request-Known req_id duration_ms (replies status none) h = default_route status
send_request-Known req_id duration_ms (replies status (some body)) h = by_route body.route h
  where
    by_route :
        (route : Option String)
        → NamesRoute route
        → Known (get_or route (if status == 503 then "FAIL_FAST" else "ERROR"))
    by_route none h = default_route status
    by_route (some route) h = inl h
send_request-Known req_id duration_ms (raises text) h = inr (inr refl)

send_all-Known :
    (batch : List (List ℕ × ℕ × Reply))
    → All (λ r. IsServers r.2) batch
    → All (λ res. Known res.route) (send_all batch)
send_all-Known [] h = tt
send_all-Known ((req_id, duration_ms, reply) ∷ rest) h =
    (send_request-Known req_id duration_ms reply h.0, send_all-Known rest h.1)

length-send_all : (batch : List (List ℕ × ℕ × Reply)) → length (send_all batch) ≡ length batch
length-send_all [] = refl
length-send_all (r ∷ rest) = omega (arith, length-send_all rest)

-- What the counting of a batch ends with: a `TypeError`, or a breakdown that adds up.
abbrev pub CountEnds : List (List ℕ × ℕ × Reply) → Option (Dict ℕ × Dict ℕ) → Type 0
CountEnds batch none = countable (send_all batch) ≡ false
CountEnds batch (some counters) =
    let b = breakdown_of counters in
    (countable (send_all batch) ≡ true)
    × (b.local_count + b.remote_count + b.queue_local_count + b.rejected_count ≡ length batch)
    × (total b.reasons ≡ b.rejected_count)

-- The breakdown of a batch adds up: every request is counted once, as LOCAL, as REMOTE, as QUEUE_LOCAL
-- or as rejected, and every rejected one has a reason that is counted. The counting fails, with a
-- `TypeError`, exactly if a rejected request has a list for its detail, as FastAPI gives where a request
-- fails its validation. A body that names a route names one of the four of the server.
pub breakdown_adds_up :
    (batch : List (List ℕ × ℕ × Reply))
    → All (λ r. IsServers r.2) batch
    → CountEnds batch (count_results (send_all batch) ([], []))
unfolding breakdown_of fail_count lookup
breakdown_adds_up batch servers = elim (count_results-cases (send_all batch) ([], [])) [
  | inr (raised, uncountable) ↦ rw raised uncountable
  | inl (counters, runs, fine) ↦
      let c =
        counted (send_all batch) 0 ([], []) counters (send_all-Known batch servers)
          (record { all = refl; reasons = refl }) runs in
      let a = c.all in
      let b = c.reasons in rw runs (fine, omega (arith, a, length-send_all batch), b)
]
