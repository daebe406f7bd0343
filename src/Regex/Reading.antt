-- ===== src/Regex/Reading.antt =====
-- What the regular expressions of app/complexity_classifier.py match, described by the text that a
-- match reads, and the matcher of one class of characters against it.
use ai_routing.Prelude.{
  ℕ, zero, suc, ◌≤◌, ◌≡◌, ◌⊎◌, ◌↔◌, inl, inr, refl, sym, ap, subst, ◌∙◌, Bool, true, false, Option,
  some, List, [], ◌∷◌, ◌++◌, length, All, arith, Bool-cases,
}
use ai_routing.Regex.{
  Class, Re, empty, one, boundary, at_start, at_end, seq, alt, opt, upto, many, Place, is_boundary,
  is_start, is_end, here_if, take_one, take_upto, take_many, flat_map,
}

-- The character before the place after `w`.
abbrev pub prev_after : Option ℕ → List ℕ → Option ℕ
prev_after prev [] = prev
prev_after prev (c ∷ cs) = prev_after (some c) cs

-- From one place to the other the text `w` is read.
abbrev pub Reads : List ℕ → Place → Place → Type 0
Reads w x y = (x.rest ≡ w ++ y.rest) × (y.prev ≡ prev_after x.prev w)

abbrev pub ReadsClass : (List ℕ → Type 0) → Class → Place → Place → Type 0
ReadsClass Size p x y = (w : List ℕ) × Size w × All (λ c. p c ≡ true) w × Reads w x y

-- What an expression matches.
abbrev pub Matches : Re → Place → Place → Type 0
Matches empty x y = y ≡ x
Matches (one p) x y = ReadsClass (λ w. length w ≡ 1) p x y
Matches boundary x y = (is_boundary x ≡ true) × (y ≡ x)
Matches at_start x y = (is_start x ≡ true) × (y ≡ x)
Matches at_end x y = (is_end x ≡ true) × (y ≡ x)
Matches (seq a b) x z = (y : Place) × Matches a x y × Matches b y z
Matches (alt a b) x y = Matches a x y ⊎ Matches b x y
Matches (opt a) x y = Matches a x y ⊎ (y ≡ x)
Matches (upto n p) x y = ReadsClass (λ w. length w ≤ n) p x y
Matches (many p) x y = ReadsClass (λ w. 1 ≤ length w) p x y

abbrev pub Among : Place → List Place → Type 0
Among y [] = ⊥
Among y (x ∷ xs) = (y ≡ x) ⊎ Among y xs

pub Among-append : (y : Place) (xs ys : List Place) → Among y (xs ++ ys) ↔ (Among y xs ⊎ Among y ys)
Among-append y [] ys = (inr, λ h. elim h [ inl n ↦ absurd n | inr k ↦ k ])
Among-append y (x ∷ xs) ys =
    let (split, join) = Among-append y xs ys in
    (
      λ h. elim h [
        | inl e ↦ inl (inl e)
        | inr k ↦ elim (split k) [ inl l ↦ inl (inr l) | inr r ↦ inr r ]
      ],
      λ h. elim h [
        | inl l ↦ elim l [ inl e ↦ inl e | inr k ↦ inr (join (inl k)) ]
        | inr r ↦ inr (join (inr r))
      ],
    )

pub Among-flat_map :
    (f : Place → List Place) (z : Place) (xs : List Place)
    → Among z (flat_map f xs) ↔ ((y : Place) × Among y xs × Among z (f y))
Among-flat_map f z [] = (λ h. absurd h, λ h. absurd h.1)
Among-flat_map f z (x ∷ xs) =
    let (split, join) = Among-append z (f x) (flat_map f xs) in
    let (there, back) = Among-flat_map f z xs in
    (
      λ h. elim (split h) [
        | inl l ↦ (x, inl refl, l)
        | inr r ↦ let (y, k, m) = there r in (y, inr k, m)
      ],
      λ h. elim h.1 [
        | inl e ↦ join (inl (subst (λ y. Among z (f y)) e h.2))
        | inr k ↦ join (inr (back (h.0, k, h.2)))
      ],
    )

pub Among-here_if : (b : Bool) (x y : Place) → Among y (here_if b x) ↔ ((b ≡ true) × (y ≡ x))
Among-here_if true x y = (λ h. elim h [ inl e ↦ (refl, e) | inr n ↦ absurd n ], λ h. inl h.1)
Among-here_if false x y = (λ h. absurd h, λ h. absurd (cc (h.0)))

abbrev pub place : Option ℕ → List ℕ → Place
place prev rest = record { prev = prev; rest = rest }

-- Nothing is read.
Reads-nothing : (x y : Place) → y ≡ x → Reads [] x y
Reads-nothing x y e = (sym (ap (λ z. z.rest) e), ap (λ z. z.prev) e)

-- One character more is read first.
pub Reads-first :
    (c : ℕ) (prev : Option ℕ) (cs w : List ℕ) (y : Place)
    → Reads w (place (some c) cs) y
    → Reads (c ∷ w) (place prev (c ∷ cs)) y
Reads-first c prev cs w y r = (ap (λ ds. c ∷ ds) r.0, r.1)

-- The first character of what is read is the next one.
pub first-Reads :
    (c d : ℕ) (prev : Option ℕ) (cs w : List ℕ) (y : Place)
    → Reads (d ∷ w) (place prev (c ∷ cs)) y
    → (c ≡ d) × Reads w (place (some c) cs) y
first-Reads c d prev cs w y r =
    let same : c ≡ d = cc (r.0) in
    (same, (cc (r.0), r.1 ∙ ap (λ e. prev_after (some e) w) (sym same)))

pub nothing-Reads : (x y : Place) → Reads [] x y → y ≡ x
nothing-Reads x y r = cc (r.0, r.1)

pub no_text :
    (d : ℕ) (w : List ℕ) (prev : Option ℕ) (y : Place) → Reads (d ∷ w) (place prev []) y → ⊥
no_text d w prev y r = absurd (cc (r.0))

module _ (p : Class) (y : Place) where
  pub take_one-Reads :
      (prev : Option ℕ) (cs : List ℕ)
      → Among y (take_one p prev cs)
      → ReadsClass (λ w. length w ≡ 1) p (place prev cs) y
  take_one-Reads prev [] h = absurd h
  take_one-Reads prev (c ∷ cs) h =
      let (holds, e) = (Among-here_if (p c) (place (some c) cs) y).0 h in
      (c ∷ [], refl, (holds, tt), Reads-first c prev cs [] y (Reads-nothing _ y e))

  pub Reads-take_one :
      (prev : Option ℕ) (cs w : List ℕ)
      → length w ≡ 1
      → All (λ c. p c ≡ true) w
      → Reads w (place prev cs) y
      → Among y (take_one p prev cs)
  Reads-take_one prev cs [] n a r = absurd (omega (arith, n))
  Reads-take_one prev cs (d ∷ e ∷ w) n a r = absurd (omega (arith, n))
  Reads-take_one prev [] (d ∷ []) n a r = absurd (no_text d [] prev y r)
  Reads-take_one prev (c ∷ cs) (d ∷ []) n a r =
      let (same, rest) = first-Reads c d prev cs [] y r in
      (Among-here_if (p c) (place (some c) cs) y).1
        (ap p same ∙ a.0, nothing-Reads (place (some c) cs) y rest)

  pub take_upto-Reads :
      (n : ℕ) (prev : Option ℕ) (cs : List ℕ)
      → Among y (take_upto n p prev cs)
      → ReadsClass (λ w. length w ≤ n) p (place prev cs) y
  take_upto-Reads zero prev cs h = elim h [
    | inl e ↦ ([], omega arith, tt, Reads-nothing (place prev cs) y e)
    | inr n ↦ absurd n
  ]
  take_upto-Reads (suc n) prev [] h = elim h [
    | inl e ↦ ([], omega arith, tt, Reads-nothing (place prev []) y e)
    | inr n ↦ absurd n
  ]
  take_upto-Reads (suc n) prev (c ∷ cs) h = elim h [
    | inl e ↦ ([], omega arith, tt, Reads-nothing (place prev (c ∷ cs)) y e)
    | inr k ↦ elim (Bool-cases (p c)) [
      | inl holds ↦
          let (w, short, all, r) = take_upto-Reads n (some c) cs (rw holds at k) in
          (c ∷ w, omega (arith, short), (holds, all), Reads-first c prev cs w y r)
      | inr fails ↦ absurd (rw fails at k)
    ]
  ]

  pub Reads-take_upto :
      (n : ℕ) (prev : Option ℕ) (cs w : List ℕ)
      → length w ≤ n
      → All (λ c. p c ≡ true) w
      → Reads w (place prev cs) y
      → Among y (take_upto n p prev cs)
  Reads-take_upto zero prev cs [] short a r = inl (nothing-Reads (place prev cs) y r)
  Reads-take_upto zero prev cs (d ∷ w) short a r = absurd (omega (arith, short))
  Reads-take_upto (suc n) prev [] [] short a r = inl (nothing-Reads (place prev []) y r)
  Reads-take_upto (suc n) prev [] (d ∷ w) short a r = absurd (no_text d w prev y r)
  Reads-take_upto (suc n) prev (c ∷ cs) [] short a r = inl (nothing-Reads (place prev (c ∷ cs)) y r)
  Reads-take_upto (suc n) prev (c ∷ cs) (d ∷ w) short a r =
      let (same, rest) = first-Reads c d prev cs w y r in
      let holds : p c ≡ true = ap p same ∙ a.0 in
      inr (rw holds (Reads-take_upto n (some c) cs w (omega (arith, short)) a.1 rest))

  pub take_many-Reads :
      (prev : Option ℕ) (cs : List ℕ)
      → Among y (take_many p prev cs)
      → ReadsClass (λ w. 1 ≤ length w) p (place prev cs) y
  take_many-Reads prev [] h = absurd h
  take_many-Reads prev (c ∷ cs) h = elim (Bool-cases (p c)) [
    | inl holds ↦
        let among : Among y (place (some c) cs ∷ take_many p (some c) cs) = rw holds at h in
        elim among [
          | inl e ↦
              (c ∷ [], omega arith, (holds, tt), Reads-first c prev cs [] y (Reads-nothing _ y e))
          | inr k ↦
              let (w, long, all, r) = take_many-Reads (some c) cs k in
              (c ∷ w, omega arith, (holds, all), Reads-first c prev cs w y r)
        ]
    | inr fails ↦ absurd (rw fails at h)
  ]

  pub Reads-take_many :
      (prev : Option ℕ) (cs w : List ℕ)
      → 1 ≤ length w
      → All (λ c. p c ≡ true) w
      → Reads w (place prev cs) y
      → Among y (take_many p prev cs)
  Reads-take_many prev cs [] long a r = absurd (omega (arith, long))
  Reads-take_many prev [] (d ∷ w) long a r = absurd (no_text d w prev y r)
  Reads-take_many prev (c ∷ cs) (d ∷ []) long a r =
      let (same, rest) = first-Reads c d prev cs [] y r in
      let holds : p c ≡ true = ap p same ∙ a.0 in
      rw holds (inl (nothing-Reads (place (some c) cs) y rest))
  Reads-take_many prev (c ∷ cs) (d ∷ e ∷ w) long a r =
      let (same, rest) = first-Reads c d prev cs (e ∷ w) y r in
      let holds : p c ≡ true = ap p same ∙ a.0 in
      rw holds (inr (Reads-take_many (some c) cs (e ∷ w) (omega arith) a.1 rest))
