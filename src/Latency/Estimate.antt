-- ===== src/Latency/Estimate.antt =====
-- What the estimates of app/latency_tracker.py promise: they are pessimistic after a slow
-- observation, relax within a window, and stay between the extremes of what was seen.
use native.Mathlib.Nat.{mul-le-mul_left, le-div_iff_mul-le, div-le_of_le-mul}
use ai_routing.Prelude.{
  ℕ, zero, suc, ◌+◌, ◌-◌, ◌*◌, ◌≤◌, ◌<◌, ◌≡◌, refl, ap, subst, ◌∙◌, some, List, [], ◌∷◌, ◌++◌,
  String, arith, max, All, length, last, drop, length-append, if◌then◌else◌,
}
use text.Mathlib.TextEquality.{eq_iff}
use ai_routing.Prelude.Dict.{lookup}
use ai_routing.Latency.{Config, Tracker, smooth, seeds, init, max_of, get_estimate, get_ema}
use ai_routing.Latency.History.{observe, of_backend, ema_after, observe_estimate}

lower_weights : (num d x e lo : ℕ) → lo ≤ x → lo ≤ e → lo * (num + d) ≤ num * x + d * e
lower_weights num d x e lo hx he = omega (arith, mul-le-mul_left num hx, mul-le-mul_left d he)

upper_weights : (num d x e hi : ℕ) → x ≤ hi → e ≤ hi → num * x + d * e ≤ (num + d) * hi
upper_weights num d x e hi hx he = omega (arith, mul-le-mul_left num hx, mul-le-mul_left d he)

smooth_lower :
    (num den x e lo : ℕ) → num ≤ den → 0 < den → lo ≤ x → lo ≤ e → lo ≤ smooth num den x e
smooth_lower num den x e lo h p hx he = (le-div_iff_mul-le p).1 (
    subst (λ k. lo * k ≤ num * x + (den - num) * e) (omega arith)
      (lower_weights num (den - num) x e lo hx he))

smooth_upper : (num den x e hi : ℕ) → num ≤ den → x ≤ hi → e ≤ hi → smooth num den x e ≤ hi
smooth_upper num den x e hi h hx he = div-le_of_le-mul den (
    subst (λ k. num * x + (den - num) * e ≤ k * hi) (omega arith)
      (upper_weights num (den - num) x e hi hx he))

-- The smoothing factor is in (0, 1].
pub record IsFactor (c : Config) : Type 0 where
  pub le_one : c.alpha_num ≤ c.alpha_den
  pub den_pos : 0 < c.alpha_den

module _ (c : Config) (f : IsFactor c) where
  ema_lower :
      (lo e : ℕ) (xs : List ℕ)
      → lo ≤ e
      → All (λ x. lo ≤ x) xs
      → lo ≤ ema_after c.alpha_num c.alpha_den e xs
  ema_lower lo e [] he hx = he
  ema_lower lo e (x ∷ xs) he hx =
      ema_lower lo (smooth c.alpha_num c.alpha_den x e) xs
        (smooth_lower c.alpha_num c.alpha_den x e lo f.le_one f.den_pos hx.0 he) hx.1

  ema_upper :
      (hi e : ℕ) (xs : List ℕ)
      → e ≤ hi
      → All (λ x. x ≤ hi) xs
      → ema_after c.alpha_num c.alpha_den e xs ≤ hi
  ema_upper hi e [] he hx = he
  ema_upper hi e (x ∷ xs) he hx =
      ema_upper hi (smooth c.alpha_num c.alpha_den x e) xs
        (smooth_upper c.alpha_num c.alpha_den x e hi f.le_one hx.0 he) hx.1

max_of_upper : (hi : ℕ) (xs : List ℕ) → All (λ x. x ≤ hi) xs → max_of xs ≤ hi
max_of_upper hi [] h = omega arith
max_of_upper hi (x ∷ xs) h = omega (arith, max_of_upper hi xs h.1, h.0)

drop-All : (P : ℕ → Type 0) (k : ℕ) (xs : List ℕ) → All P xs → All P (drop k xs)
drop-All P zero xs h = h
drop-All P (suc k) [] h = tt
drop-All P (suc k) (x ∷ xs) h = drop-All P k xs h.1

max_of-drop-append : (k x : ℕ) (xs ys : List ℕ) → k ≤ length xs → x ≤ max_of (drop k (xs ++ x ∷ ys))
max_of-drop-append zero x [] ys h = omega arith
max_of-drop-append zero x (z ∷ xs) ys h = omega (arith, max_of-drop-append zero x xs ys)
max_of-drop-append (suc k) x [] ys h = absurd (omega arith)
max_of-drop-append (suc k) x (z ∷ xs) ys h = max_of-drop-append k x xs ys (omega arith)

of_backend-append :
    (b : String) (os ps : List (String × ℕ))
    → of_backend b (os ++ ps) ≡ of_backend b os ++ of_backend b ps
of_backend-append b [] ps = refl
of_backend-append b ((j, x) ∷ os) ps = ground (arith, of_backend-append b os ps)

of_backend_self :
    (b : String) (x : ℕ) (os ps : List (String × ℕ))
    → of_backend b (os ++ (b, x) ∷ ps) ≡ of_backend b os ++ x ∷ of_backend b ps
of_backend_self b x os ps =
    of_backend-append b os ((b, x) ∷ ps)
    ∙ ap (λ same. of_backend b os ++ (if same then x ∷ of_backend b ps else of_backend b ps))
        ((eq_iff b b).1 refl)

max_of-last : (n x : ℕ) (xs ys : List ℕ) → length ys < n → x ≤ max_of (last n (xs ++ x ∷ ys))
max_of-last n x xs ys h =
    max_of-drop-append (length (xs ++ x ∷ ys) - n) x xs ys
      (omega (arith, length-append xs (x ∷ ys)))

-- After a slow observation the estimate is at least that slow, until `window_size` further
-- observations of the same backend have come in, whatever the other backends report.
pub estimate_after_spike :
    (c : Config) (b : String) (seed x : ℕ) (os ps : List (String × ℕ))
    → lookup b (seeds c) ≡ some seed
    → length (of_backend b ps) < c.window_size
    → (t : Tracker) × (observe (os ++ (b, x) ∷ ps) (init c) ≡ some t) × (x ≤ get_estimate b t)
estimate_after_spike c b seed x os ps h recent =
    let (t, runs, _, est) = observe_estimate c b seed (os ++ (b, x) ∷ ps) h in
    let top = max_of-last c.window_size x (of_backend b os) (of_backend b ps) recent in
    (t, runs, rw (est, of_backend_self b x os ps) (omega (arith, top)))

-- Once the last `window_size` observations of a backend are all at most `m`, its estimate is at most
-- the larger of `m` and the moving average: an older spike counts only through the average.
pub estimate_relaxes :
    (c : Config) (b : String) (seed m : ℕ) (os : List (String × ℕ))
    → lookup b (seeds c) ≡ some seed
    → All (λ x. x ≤ m) (last c.window_size (of_backend b os))
    → (t : Tracker) × (observe os (init c) ≡ some t) × (get_estimate b t ≤ max m (get_ema b t))
estimate_relaxes c b seed m os h quiet =
    let (t, runs, e, est) = observe_estimate c b seed os h in
    let top = max_of_upper m (last c.window_size (of_backend b os)) quiet in
    (t, runs, rw (est, e) (omega (arith, top)))

-- The moving average and the estimate never leave the range of the seed and the observations.
pub estimate_bounds :
    (c : Config) (b : String) (seed lo hi : ℕ) (os : List (String × ℕ))
    → IsFactor c
    → lookup b (seeds c) ≡ some seed
    → (lo ≤ seed) × (seed ≤ hi)
    → All (λ x. lo ≤ x) (of_backend b os)
    → All (λ x. x ≤ hi) (of_backend b os)
    → (t : Tracker) × (observe os (init c) ≡ some t)
      × (lo ≤ get_ema b t)
      × (get_ema b t ≤ get_estimate b t)
      × (get_estimate b t ≤ hi)
estimate_bounds c b seed lo hi os f h s low high =
    let (t, runs, e, est) = observe_estimate c b seed os h in
    let xs = of_backend b os in
    let bottom = ema_lower c f lo seed xs s.0 low in
    let top = ema_upper c f hi seed xs s.1 high in
    let peak =
      max_of_upper hi (last c.window_size xs)
        (drop-All (λ x. x ≤ hi) (length xs - c.window_size) xs high) in
    (t, runs, rw e bottom, rw (e, est) (omega arith), rw est (omega (arith, top, peak)))
