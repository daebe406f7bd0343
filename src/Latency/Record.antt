-- ===== src/Latency/Record.antt =====
-- One observation in app/latency_tracker.py: `record` never fails, and touches one backend.
use ai_routing.Prelude.{
  ℕ, ◌≡◌, ◌≢◌, refl, sym, ap, ◌∙◌, true, Option, none, some, inl, inr, String, is_some,
  Option-cases, length,
}
use ai_routing.Prelude.Dict.{lookup, insert, lookup-insert_self, lookup-insert_ne, String-cases}
use ai_routing.Latency.{
  Tracker, Deque, append, empty_deque, smooth, backend_local, register, record_latency,
  update_entries, ◌>>=◌,
}

-- The average and the window of a backend.
abbrev pub Tracked : String → ℕ → Deque → Tracker → Type 0
Tracked b e w t = (lookup b t.ema ≡ some e) × (lookup b t.windows ≡ some w)

-- The two dicts have the same keys, and "local" is among them.
pub record Inv (t : Tracker) : Type 0 where
  pub keys : (b : String) → is_some (lookup b t.ema) ≡ is_some (lookup b t.windows)
  pub local_known : is_some (lookup backend_local t.windows) ≡ true

-- What an observation does to the tracker.
pub record Recorded (b : String) (x : ℕ) (t t' : Tracker) : Type 0 where
  pub inv : Inv t'
  pub num : t'.alpha_num ≡ t.alpha_num
  pub den : t'.alpha_den ≡ t.alpha_den
  pub others :
      (j : String)
      → j ≢ b
      → (lookup j t'.ema ≡ lookup j t.ema) × (lookup j t'.windows ≡ lookup j t.windows)
  pub known :
      (e : ℕ) (w : Deque)
      → Tracked b e w t
      → Tracked b (smooth t.alpha_num t.alpha_den x e) (append x w) t'

-- Entries at a key of both dicts keep the invariant.
pub insert-Inv :
    (b : String) (e : ℕ) (w : Deque) (t : Tracker)
    → Inv t
    → Inv (record t { ema = insert b e t.ema; windows = insert b w t.windows })
insert-Inv b e w t v = record {
  keys = λ j. elim (String-cases j b) [
    | inl same ↦ rw (same, lookup-insert_self b e t.ema, lookup-insert_self b w t.windows) refl
    | inr other ↦
        rw (lookup-insert_ne j b e t.ema other, lookup-insert_ne j b w t.windows other) (v.keys j)
  ];
  local_known = elim (String-cases backend_local b) [
    | inl same ↦ rw (same, lookup-insert_self b w t.windows) refl
    | inr other ↦ rw (lookup-insert_ne backend_local b w t.windows other) v.local_known
  ];
}

some_of {ℓ} : {A : Type ℓ} (o : Option A) → is_some o ≡ true → (a : A) × (o ≡ some a)
some_of none h = absurd (cc)
some_of (some a) h = (a, refl)

-- An observation of a backend with entries.
record_known :
    (b : String) (x e : ℕ) (w : Deque) (t : Tracker)
    → Inv t
    → Tracked b e w t
    → (t' : Tracker) × (record_latency b x t ≡ some t') × Recorded b x t t'
unfolding record_latency register
record_known b x e w t v k = (
  record t {
    ema = insert b (smooth t.alpha_num t.alpha_den x e) t.ema;
    windows = insert b (append x w) t.windows;
  },
  rw (k.0, register, k.0, k.1),
  record {
    inv = insert-Inv b _ _ t v;
    num = refl;
    den = refl;
    others = λ j ne. (lookup-insert_ne j b _ t.ema ne, lookup-insert_ne j b _ t.windows ne);
    known = λ e' w' k'. (
      cc (lookup-insert_self b (smooth t.alpha_num t.alpha_den x e) t.ema, k.0, k'.0),
      cc (lookup-insert_self b (append x w) t.windows, k.1, k'.1),
    );
  },
)

-- The tracker after `register` of a new backend.
abbrev pub registered : String → ℕ → Deque → Tracker → Tracker
registered b x local t = record t {
  ema = insert b x t.ema;
  windows = insert b (empty_deque (length local.items)) t.windows;
}

pub registered-Tracked :
    (b : String) (x : ℕ) (d : Deque) (t : Tracker)
    → Tracked b x (empty_deque (length d.items)) (registered b x d t)
registered-Tracked b x d t =
    (lookup-insert_self b x t.ema, lookup-insert_self b (empty_deque (length d.items)) t.windows)

pub record_new :
    (b : String) (x : ℕ) (d : Deque) (t : Tracker)
    → lookup b t.ema ≡ none
    → lookup backend_local t.windows ≡ some d
    → record_latency b x t ≡ record_latency b x (registered b x d t)
unfolding record_latency register
record_new b x d t new local = ap (λ o. o >>= update_entries b x) (from_new ∙ sym again)
  where
    from_new : register b x t ≡ some (registered b x d t)
    from_new = rw (new, register, local) refl

    again : register b x (registered b x d t) ≡ some (registered b x d t)
    again = rw ((registered-Tracked b x d t).0, register) refl

-- `record` never raises `KeyError`, whatever the backend's name.
pub record_total :
    (b : String) (x : ℕ) (t : Tracker)
    → Inv t
    → (t' : Tracker) × (record_latency b x t ≡ some t') × Recorded b x t t'
record_total b x t v = elim (Option-cases (lookup b t.ema)) [
  | inr (e, found) ↦
      let (w, window) = some_of (lookup b t.windows) (sym (v.keys b) ∙ ap is_some found) in
      record_known b x e w t v (found, window)
  | inl new ↦
      let (d, local) = some_of (lookup backend_local t.windows) v.local_known in
      let t1 = registered b x d t in
      let (t', done, r) =
        record_known b x x _ t1 (insert-Inv b _ _ t v) (registered-Tracked b x d t) in
      (
        t',
        record_new b x d t new local ∙ done,
        record {
          inv = r.inv;
          num = r.num;
          den = r.den;
          others = λ j ne. (
            (r.others j ne).0 ∙ lookup-insert_ne j b _ t.ema ne,
            (r.others j ne).1 ∙ lookup-insert_ne j b _ t.windows ne,
          );
          known = λ e w k. absurd (cc (new, k.0));
        },
      )
]
