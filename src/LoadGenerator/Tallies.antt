-- ===== src/LoadGenerator/Tallies.antt =====
-- What one more entry does to the counters of load_generator.py.
use ai_routing.Prelude.{
  ℕ, ◌+◌, ◌≡◌, refl, sym, ap, ◌⊎◌, inl, inr, Bool, true, false, ◌||◌, [], ◌∷◌, String, arith,
  Bool-cases,
}
use text.Mathlib.Text.{◌==◌ as str_eq}
use text.Mathlib.TextEquality.{eq_iff}
use ai_routing.Prelude.Dict.{Dict, lookup, insert, lookup-insert}
use ai_routing.Models.{RouteDecision, route_value, local, remote, queue_local, fail_fast}
use ai_routing.LoadGenerator.{get_or, Sent}
use ai_routing.LoadGenerator.Counters.{count_up, has_failed, count_of, fail_count}

abbrev pub ite : Bool → ℕ
ite true = 1
ite false = 0

-- One more of a key.
pub count_of-count_up :
    (j k : String) (d : Dict ℕ) → count_of j (count_up k d) ≡ count_of j d + ite (str_eq j k)
count_of-count_up j k d = elim (Bool-cases (str_eq j k)) [
  | inl same ↦
      let named : j ≡ k = (eq_iff j k).0 same in
      rw (lookup-insert j k (get_or (lookup k d) 0 + 1) d, same)
        (ap (λ i. get_or (lookup i d) 0 + 1) (sym named))
  | inr other ↦ rw (lookup-insert j k (get_or (lookup k d) 0 + 1) d, other) (omega arith)
]

-- The routes that the breakdown counts as served.
abbrev pub served : Dict ℕ → ℕ
served d = count_of "LOCAL" d + count_of "REMOTE" d + count_of "QUEUE_LOCAL" d

-- The sum of all counts.
abbrev pub total : Dict ℕ → ℕ
total [] = 0
total ((k, n) ∷ d) = n + total d

pub total-count_up : (k : String) (d : Dict ℕ) → total (count_up k d) ≡ total d + 1
unfolding lookup insert
total-count_up k [] = omega arith
total-count_up k ((j, n) ∷ d) = ground (arith, total-count_up k d)

-- A route that `send_request` can give when the server names one of its own.
abbrev pub Known : String → Type 0
Known route =
    ((d : RouteDecision) × (route ≡ route_value d))
    ⊎ ((route ≡ "ERROR") ⊎ (route ≡ "CONNECTION_ERROR"))

-- The six counts together.
abbrev pub all_counts : Dict ℕ → ℕ
all_counts d = served d + fail_count d

pub all_counts-count_up :
    (k : String) (d : Dict ℕ) → Known k → all_counts (count_up k d) ≡ all_counts d + 1
unfolding fail_count
all_counts-count_up k d known =
    let l = count_of-count_up "LOCAL" k d in
    let r = count_of-count_up "REMOTE" k d in
    let q = count_of-count_up "QUEUE_LOCAL" k d in
    let f = count_of-count_up "FAIL_FAST" k d in
    let e = count_of-count_up "ERROR" k d in
    let c = count_of-count_up "CONNECTION_ERROR" k d in omega (arith, l, r, q, f, e, c, one k known)
  where
    one :
        (k : String)
        → Known k
        → ite (str_eq "LOCAL" k)
            + ite (str_eq "REMOTE" k)
            + ite (str_eq "QUEUE_LOCAL" k)
            + (ite (str_eq "FAIL_FAST" k)
                + ite (str_eq "ERROR" k)
                + ite (str_eq "CONNECTION_ERROR" k))
          ≡ 1
    one k (inl (local, same)) = rw same refl
    one k (inl (remote, same)) = rw same refl
    one k (inl (queue_local, same)) = rw same refl
    one k (inl (fail_fast, same)) = rw same refl
    one k (inr (inl same)) = rw same refl
    one k (inr (inr same)) = rw same refl

pub str_eq_comm : (j k : String) → str_eq j k ≡ str_eq k j
str_eq_comm j k = ground (arith, eq_iff j k, eq_iff k j)

-- The three routes of a failure are different, so that one of them at most is counted.
pub one_failure :
    (route : String)
    → ite (str_eq "FAIL_FAST" route)
        + ite (str_eq "ERROR" route)
        + ite (str_eq "CONNECTION_ERROR" route)
      ≡ ite (str_eq route "FAIL_FAST" || str_eq route "ERROR" || str_eq route "CONNECTION_ERROR")
one_failure route = elim (Bool-cases (str_eq route "FAIL_FAST")) [
  | inl same ↦ rw ((eq_iff route "FAIL_FAST").0 same) refl
  | inr a ↦ elim (Bool-cases (str_eq route "ERROR")) [
    | inl same ↦ rw ((eq_iff route "ERROR").0 same) refl
    | inr b ↦ elim (Bool-cases (str_eq route "CONNECTION_ERROR")) [
      | inl same ↦ rw ((eq_iff route "CONNECTION_ERROR").0 same) refl
      | inr c ↦ ground (
        arith,
        a,
        b,
        c,
        str_eq_comm "FAIL_FAST" route,
        str_eq_comm "ERROR" route,
        str_eq_comm "CONNECTION_ERROR" route,
      )
    ]
  ]
]

-- A failure is counted among the rejected.
pub fail_count-count_up :
    (res : Sent) (d : Dict ℕ)
    → fail_count (count_up res.route d) ≡ fail_count d + ite (has_failed res)
unfolding fail_count
fail_count-count_up res d = omega (
  arith,
  count_of-count_up "FAIL_FAST" res.route d,
  count_of-count_up "ERROR" res.route d,
  count_of-count_up "CONNECTION_ERROR" res.route d,
  one_failure res.route,
)
