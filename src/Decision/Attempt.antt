-- ===== src/Decision/Attempt.antt =====
-- The step that the paths of app/decision_agent.py share: to try a reservation, and to go on by
-- what came of it.
use ai_routing.Prelude.{ℕ, ◌≡◌, sym, subst, true, Option, none, some, inl, inr, Bool-cases}
use ai_routing.Prelude.Int.{ℤ}
use ai_routing.Budget.{
  State, Env, Reservation, Result, ok, raise, value_error, try_reserve, bad_request, breaches,
  new_reservation, log_reserve, enter,
}
use ai_routing.Budget.Admission.{Admissible, fits-Admissible, breach-not-Admissible, admitted}
use ai_routing.Decision.{M, ◌>>=◌, continue}

-- Whatever holds on each of the three outcomes of `try_reserve` holds of the whole.
pub reserve_cases {ℓ} :
    {B : Type 0} (P : Result B × State → Type ℓ) (f : Option Reservation → M B) (e : Env)
    (request_id : ℕ) (cost lat : ℤ) (s : State)
    → (bad_request cost lat ≡ true → P (raise value_error, s))
    → (¬ Admissible s.manager cost lat → P (f none (log_reserve e request_id s)))
    → (Admissible s.manager cost lat
        → let r = new_reservation e s.manager cost lat in
          P (f (some r) (log_reserve e request_id (enter r s))))
    → P ((try_reserve e request_id cost lat >>= f) s)
unfolding try_reserve
reserve_cases P f e request_id cost lat s refused none_left granted =
    elim (Bool-cases (bad_request cost lat)) [
      | inl bad ↦ resume (raise value_error, s) (rw bad) (refused bad)
      | inr good ↦ elim (Bool-cases (breaches s.manager cost lat)) [
        | inl breach ↦
            resume (ok none, log_reserve e request_id s) (rw (good, breach))
              (none_left (breach-not-Admissible s.manager cost lat breach))
        | inr fits ↦
            let r = new_reservation e s.manager cost lat in
            resume (ok (some r), log_reserve e request_id (enter r s)) (rw (good, fits))
              (granted (fits-Admissible s.manager cost lat good fits))
      ]
    ]
  where
    resume :
        (p : Result (Option Reservation) × State)
        → try_reserve e request_id cost lat s ≡ p
        → P (continue f p)
        → P ((try_reserve e request_id cost lat >>= f) s)
    resume p same h = subst (λ p. P (continue f p)) (sym same) h

-- An admissible reservation is granted.
pub try_reserve_granted :
    (e : Env) (request_id : ℕ) (cost lat : ℤ) (s : State)
    → Admissible s.manager cost lat
    → let r = new_reservation e s.manager cost lat in
      try_reserve e request_id cost lat s ≡ (ok (some r), log_reserve e request_id (enter r s))
unfolding try_reserve
try_reserve_granted e request_id cost lat s a =
    let passed = admitted s.manager cost lat a in rw (passed.0, passed.1)
