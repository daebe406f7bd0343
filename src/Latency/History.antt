-- ===== src/Latency/History.antt =====
-- Histories of observations in app/latency_tracker.py against a description by the observations of
-- each backend alone.
use ai_routing.Prelude.{
  ℕ, ◌≡◌, ◌≢◌, refl, sym, ap, ◌∙◌, subst, false, Option, some, inl, inr, String, arith, List, [],
  ◌∷◌, ◌++◌, last, last-append-last, last-all, if◌then◌else◌, max,
}
use text.Mathlib.Text.{◌==◌ as str_eq}
use text.Mathlib.TextEquality.{eq_iff}
use mathlib.Core.List.{append_assoc, append-nil}
use ai_routing.Prelude.Dict.{lookup, String-cases}
use ai_routing.Latency.{
  Config, Tracker, Deque, append, empty_deque, smooth, seeds, init, record_latency, ◌>>=◌,
  get_estimate, get_ema, max_of,
}
use ai_routing.Latency.Record.{Tracked, Inv, record_total}

-- Calls of `record`, in order.
unfoldable pub observe : List (String × ℕ) → Tracker → Option Tracker
observe [] t = some t
observe ((b, x) ∷ os) t = do t' ← record_latency b x t; observe os t'

-- The observations of one backend.
abbrev pub of_backend : String → List (String × ℕ) → List ℕ
of_backend b [] = []
of_backend b ((j, x) ∷ os) = if str_eq b j then x ∷ of_backend b os else of_backend b os

-- The moving average after observations, oldest first.
abbrev pub ema_after : ℕ → ℕ → ℕ → List ℕ → ℕ
ema_after num den e [] = e
ema_after num den e (x ∷ xs) = ema_after num den (smooth num den x e) xs

abbrev pub appends : List ℕ → Deque → Deque
appends [] w = w
appends (x ∷ xs) w = appends xs (append x w)

appends-last :
    (n : ℕ) (xs before : List ℕ)
    → appends xs (record { maxlen = n; items = last n before })
      ≡ record { maxlen = n; items = last n (before ++ xs) }
appends-last n [] before = simp append-nil
appends-last n (x ∷ xs) before =
    ap (λ items. appends xs (record { maxlen = n; items = items }))
      (last-append-last n before (x ∷ []))
    ∙ appends-last n xs (before ++ x ∷ [])
    ∙ ap (λ all. record { maxlen = n; items = last n all }) (append_assoc before (x ∷ []) xs)

pub appends-empty :
    (n : ℕ) (xs : List ℕ) → appends xs (empty_deque n) ≡ record { maxlen = n; items = last n xs }
appends-empty n xs =
    ap (λ items. appends xs (record { maxlen = n; items = items }))
      (sym (last-all n [] (omega arith)))
    ∙ appends-last n xs []

-- The tracker seen from one backend, after that backend's observations `xs`.
pub record Observed (b : String) (num den e : ℕ) (w : Deque) (xs : List ℕ) (t : Tracker)
    : Type 0 where
  pub inv : Inv t
  pub tracked : Tracked b (ema_after num den e xs) (appends xs w) t

tests : (b j : String) → (b ≢ j) → str_eq b j ≡ false
tests b j ne = ground (arith, eq_iff b j)

pub observe_total :
    (b : String) (num den e : ℕ) (w : Deque) (os : List (String × ℕ)) (t : Tracker)
    → Inv t
    → t.alpha_num ≡ num
    → t.alpha_den ≡ den
    → Tracked b e w t
    → (t' : Tracker) × (observe os t ≡ some t') × Observed b num den e w (of_backend b os) t'
unfolding observe
observe_total b num den e w [] t v hn hd k = (t, refl, record { inv = v; tracked = k })
observe_total b num den e w ((j, x) ∷ os) t v hn hd k =
    let (t1, done, r) = record_total j x t v in
    elim (String-cases b j) [
      | inl same ↦
          let k1 : Tracked b (smooth num den x e) (append x w) t1 =
            rw (← hn, ← hd)
              (subst (λ i. Tracked i (smooth t.alpha_num t.alpha_den x e) (append x w) t1)
                (sym same) (r.known e w (subst (λ i. Tracked i e w t) same k))) in
          let (t', runs, o) =
            observe_total b num den (smooth num den x e) (append x w) os t1 r.inv (r.num ∙ hn)
              (r.den ∙ hd) k1 in
          (
            t',
            ap (λ o. o >>= observe os) done ∙ runs,
            rw ((eq_iff b j).1 same) (record { inv = o.inv; tracked = o.tracked }),
          )
      | inr other ↦
          let k1 : Tracked b e w t1 = ((r.others b other).0 ∙ k.0, (r.others b other).1 ∙ k.1) in
          let (t', runs, o) =
            observe_total b num den e w os t1 r.inv (r.num ∙ hn) (r.den ∙ hd) k1 in
          (t', ap (λ o. o >>= observe os) done ∙ runs, rw (tests b j other) o)
    ]

-- The estimate that the observations of one backend call for: the average from its seed, or the
-- highest of the last `window_size` ones if that is more.
abbrev pub expected : Config → ℕ → List ℕ → ℕ
expected c seed xs =
    max (ema_after c.alpha_num c.alpha_den seed xs) (max_of (last c.window_size xs))

pub get_estimate-Tracked :
    (b : String) (e n : ℕ) (items : List ℕ) (t : Tracker)
    → Tracked b e (record { maxlen = n; items = items }) t
    → get_estimate b t ≡ max e (max_of items)
unfolding get_estimate
get_estimate-Tracked b e n [] t k = rw (k.0, k.1, get_ema) (omega arith)
get_estimate-Tracked b e n (x ∷ items) t k = rw (k.0, k.1, get_ema) refl

pub init-Inv : (c : Config) → Inv (init c)
unfolding init lookup
init-Inv c = record { keys = λ b. ground arith; local_known = refl }

init-Tracked :
    (c : Config) (b : String) (seed : ℕ)
    → lookup b (seeds c) ≡ some seed
    → Tracked b seed (empty_deque c.window_size) (init c)
unfolding init lookup
init-Tracked c b seed h = (h, ground arith)

-- After any calls of `record` on a new tracker, none of which fails, the estimate of a backend that
-- has a seed depends on that backend's observations alone: it is the maximum of the moving average
-- of all of them, from the seed, and of the last `window_size` ones.
pub observe_estimate :
    (c : Config) (b : String) (seed : ℕ) (os : List (String × ℕ))
    → lookup b (seeds c) ≡ some seed
    → (t : Tracker) × (observe os (init c) ≡ some t)
      × (get_ema b t ≡ ema_after c.alpha_num c.alpha_den seed (of_backend b os))
      × (get_estimate b t ≡ expected c seed (of_backend b os))
unfolding get_ema init
observe_estimate c b seed os h =
    let (t, runs, o) =
      observe_total b c.alpha_num c.alpha_den seed (empty_deque c.window_size) os (init c)
        (init-Inv c) refl refl (init-Tracked c b seed h) in
    let xs = of_backend b os in
    let k =
      subst (λ w. Tracked b (ema_after c.alpha_num c.alpha_den seed xs) w t)
        (appends-empty c.window_size xs) o.tracked in
    (t, runs, rw (k.0, get_ema), get_estimate-Tracked b _ _ _ t k)
