-- ===== src/Budget/Admission.antt =====
-- When `try_reserve` of app/budget_manager.py admits a request, and what it then changes.
use ai_routing.Prelude.{ℕ, ◌≡◌, ◌⊎◌, refl, some, none, arith, Bool-cases, inl, inr, true, false}
use ai_routing.Prelude.Int.{ℤ, pos, ◌≤ℤ◌, ◌<ℤ◌, ◌+ℤ◌, ◌-ℤ◌, int_laws}
use ai_routing.Budget.Types.{State, Manager, Env, ok, raise, value_error}
use ai_routing.Budget.{
  try_reserve, breaches, bad_request, new_reservation, liquid, latency_remaining, eps_12, enter,
}

-- What `try_reserve` asks of a request, as orders on the amounts.
pub record Admissible (m : Manager) (cost lat : ℤ) : Type 0 where
  pub cost_nonneg : pos 0 ≤ℤ cost
  pub latency_nonneg : pos 0 ≤ℤ lat
  pub not_both_zero : (pos 1 ≤ℤ cost) ⊎ (pos 1 ≤ℤ lat)
  pub in_budget :
      m.cumulative_remote_cost +ℤ m.reserved_for_execution +ℤ cost ≤ℤ m.max_remote_budget +ℤ eps_12
  pub in_latency :
      m.cumulative_actual_latency_ms +ℤ m.reserved_latency_ms +ℤ lat
      ≤ℤ m.max_cumulative_latency_ms +ℤ eps_12

good_args :
    (cost lat : ℤ)
    → bad_request cost lat ≡ false
    → (pos 0 ≤ℤ cost) × (pos 0 ≤ℤ lat) × ((pos 1 ≤ℤ cost) ⊎ (pos 1 ≤ℤ lat))
good_args cost lat h = ground arith

pub bad_args :
    (cost lat : ℤ)
    → bad_request cost lat ≡ true
    → pos 0 ≤ℤ cost
    → pos 0 ≤ℤ lat
    → (pos 1 ≤ℤ cost) ⊎ (pos 1 ≤ℤ lat)
    → ⊥
bad_args cost lat h hc hl (inl p) = ground arith
bad_args cost lat h hc hl (inr p) = ground arith

fits_in :
    (m : Manager) (cost lat : ℤ)
    → breaches m cost lat ≡ false
    → (cost -ℤ eps_12 ≤ℤ liquid m) × (lat -ℤ eps_12 ≤ℤ latency_remaining m)
fits_in m cost lat h = ground arith

breach_out :
    (m : Manager) (cost lat : ℤ)
    → breaches m cost lat ≡ true
    → (liquid m <ℤ cost -ℤ eps_12) ⊎ (latency_remaining m <ℤ lat -ℤ eps_12)
breach_out m cost lat h = ground arith

pub fits-Admissible :
    (m : Manager) (cost lat : ℤ)
    → bad_request cost lat ≡ false
    → breaches m cost lat ≡ false
    → Admissible m cost lat
fits-Admissible m cost lat good fits =
    let g = good_args cost lat good in
    let f = fits_in m cost lat fits in
    record {
      cost_nonneg = g.0;
      latency_nonneg = g.1;
      not_both_zero = g.2;
      in_budget = omega (int_laws, f.0);
      in_latency = omega (int_laws, f.1);
    }

pub breach-not-Admissible :
    (m : Manager) (cost lat : ℤ) → breaches m cost lat ≡ true → Admissible m cost lat → ⊥
breach-not-Admissible m cost lat h a = elim (breach_out m cost lat h) [
  | inl money ↦ let b = a.in_budget in omega (int_laws, money, b)
  | inr time ↦ let b = a.in_latency in omega (int_laws, time, b)
]

-- An admissible request passes both tests.
pub admitted :
    (m : Manager) (cost lat : ℤ)
    → Admissible m cost lat
    → (bad_request cost lat ≡ false) × (breaches m cost lat ≡ false)
admitted m cost lat a = (good, fits)
  where
    good : bad_request cost lat ≡ false
    good = elim (Bool-cases (bad_request cost lat)) [
      | inl bad ↦ absurd (bad_args cost lat bad a.cost_nonneg a.latency_nonneg a.not_both_zero)
      | inr e ↦ e
    ]

    fits : breaches m cost lat ≡ false
    fits = elim (Bool-cases (breaches m cost lat)) [
      | inl breach ↦ absurd (breach-not-Admissible m cost lat breach a)
      | inr e ↦ e
    ]

-- A reservation is granted exactly when the request is admissible: amounts that are not negative
-- and not both zero, which fit beside what is spent and reserved but for 1e-12. It carries the
-- amounts asked for, and the manager and the objects change by its entry and by nothing else. A
-- request that is not admissible leaves both as they were.
pub try_reserve_iff :
    (e : Env) (request_id : ℕ) (cost lat : ℤ) (s : State)
    → let (res, t) = try_reserve e request_id cost lat s in
      let r = new_reservation e s.manager cost lat in
      (Admissible s.manager cost lat
        × (res ≡ ok (some r))
        × (t.manager ≡ (enter r s).manager)
        × (t.states ≡ (enter r s).states))
      ⊎ (¬ Admissible s.manager cost lat
          × ((res ≡ ok none) ⊎ (res ≡ raise value_error))
          × (t.manager ≡ s.manager)
          × (t.states ≡ s.states))
unfolding try_reserve
try_reserve_iff e request_id cost lat s = elim (Bool-cases (bad_request cost lat)) [
  | inl bad ↦ rw bad (
      inr (
        λ a. bad_args cost lat bad a.cost_nonneg a.latency_nonneg a.not_both_zero,
        inr refl,
        refl,
        refl,
      ))
  | inr good ↦ elim (Bool-cases (breaches s.manager cost lat)) [
    | inl breach ↦
        rw (good, breach)
          (inr (breach-not-Admissible s.manager cost lat breach, inl refl, refl, refl))
    | inr fits ↦
        rw (good, fits) (inl (fits-Admissible s.manager cost lat good fits, refl, refl, refl))
  ]
]
