-- ===== src/Latency/Reset.antt =====
-- `reset` of app/latency_tracker.py, and the window of a backend that has no seed.
use ai_routing.Prelude.{
  ℕ, ◌≤◌, ◌≡◌, refl, sym, ap, subst, ◌∙◌, Option, none, some, List, [], ◌∷◌, String, arith, max,
  length, last, length-last-le,
}
use ai_routing.Prelude.Dict.{lookup}
use ai_routing.Latency.{
  Config, Tracker, Deque, init, get_estimate, get_ema, reset, estimate, clear_all, empty_deque,
  backend_local, max_of, ◌>>=◌,
}
use ai_routing.Latency.Record.{Inv, Tracked, record_new, registered, registered-Tracked, insert-Inv}
use ai_routing.Latency.History.{
  observe, of_backend, ema_after, observe_total, appends-empty, get_estimate-Tracked,
}

abbrev cleared : Option Deque → Option Deque
cleared none = none
cleared (some d) = some (record d { items = [] })

lookup-clear_all :
    (k : String) (ds : List (String × Deque)) → lookup k (clear_all ds) ≡ cleared (lookup k ds)
unfolding lookup
lookup-clear_all k [] = refl
lookup-clear_all k ((j, d) ∷ ds) = ground (arith, lookup-clear_all k ds)

estimate-cleared : (e : ℕ) (o : Option Deque) → estimate e (cleared o) ≡ e
estimate-cleared e none = refl
estimate-cleared e (some d) = refl

init-estimate : (c : Config) (b : String) → get_estimate b (init c) ≡ get_ema b (init c)
unfolding get_estimate init lookup
init-estimate c b = ground arith

-- After `reset` every backend, known or not, has the estimate that it has in a new tracker.
pub get_estimate-reset :
    (c : Config) (b : String) (t : Tracker) → get_estimate b (reset c t) ≡ get_estimate b (init c)
unfolding get_estimate reset get_ema init
get_estimate-reset c b t =
    let e = get_ema b (init c) in
    ap (estimate e) (lookup-clear_all b t.windows)
    ∙ estimate-cleared e (lookup b t.windows)
    ∙ sym (init-estimate c b)

no_peak : (e : ℕ) (xs : List ℕ) → length xs ≤ 0 → max e (max_of xs) ≡ e
no_peak e [] h = omega arith
no_peak e (x ∷ xs) h = absurd (omega arith)

-- A backend that is first seen while the local window is empty gets a window that holds nothing:
-- from then on, whatever is observed, its estimate is the bare moving average.
pub new_backend_unguarded :
    (b : String) (x : ℕ) (d : Deque) (os : List (String × ℕ)) (t : Tracker)
    → Inv t
    → lookup b t.ema ≡ none
    → lookup backend_local t.windows ≡ some d
    → d.items ≡ []
    → (t' : Tracker) × (observe ((b, x) ∷ os) t ≡ some t') × (get_estimate b t' ≡ get_ema b t')
unfolding observe get_ema
new_backend_unguarded b x d os t v new local idle =
    let t1 = registered b x d t in
    let k1 = registered-Tracked b x d t in
    let w = empty_deque (length d.items) in
    let (t', runs, o) =
      observe_total b t.alpha_num t.alpha_den x w ((b, x) ∷ os) t1 (insert-Inv b x w t v) refl refl
        k1 in
    let xs = of_backend b ((b, x) ∷ os) in
    let e = ema_after t.alpha_num t.alpha_den x xs in
    let k = subst (λ w. Tracked b e w t') (appends-empty (length d.items) xs) o.tracked in
    (
      t',
      ap (λ o. o >>= observe os) (record_new b x d t new local) ∙ runs,
      get_estimate-Tracked b e (length d.items) (last (length d.items) xs) t' k
          ∙ no_peak e (last (length d.items) xs)
              (omega (arith, length-last-le (length d.items) xs, ap length idle))
          ∙ sym (rw (k.0, get_ema) refl),
    )
