-- ===== src/Regex/Matching.antt =====
-- The matcher of app/complexity_classifier.py's regular expressions finds what the description says.
use ai_routing.Prelude.{
  ℕ, ◌≡◌, ◌↔◌, inl, inr, refl, subst, Bool, true, false, ◌||◌, Option, none, some, List, [], ◌∷◌,
  Bool-cases,
}
use ai_routing.Regex.{
  Re, empty, one, boundary, at_start, at_end, seq, alt, opt, upto, many, Place, is_boundary,
  is_start, is_end, steps, search, search_from, is_cons,
}
use ai_routing.Regex.Reading.{
  Matches, Among, Reads, place, Among-append, Among-flat_map, Among-here_if, Reads-first,
  first-Reads, nothing-Reads, no_text, take_one-Reads, Reads-take_one, take_upto-Reads,
  Reads-take_upto, take_many-Reads, Reads-take_many,
}

steps-Matches : (r : Re) (x y : Place) → Among y (steps r x) → Matches r x y
unfolding steps
steps-Matches empty x y h = elim h [ inl e ↦ e | inr n ↦ absurd n ]
steps-Matches (one p) x y h = take_one-Reads p y x.prev x.rest h
steps-Matches boundary x y h = (Among-here_if (is_boundary x) x y).0 h
steps-Matches at_start x y h = (Among-here_if (is_start x) x y).0 h
steps-Matches at_end x y h = (Among-here_if (is_end x) x y).0 h
steps-Matches (seq a b) x y h =
    let (z, first, second) = (Among-flat_map (steps b) y (steps a x)).0 h in
    (z, steps-Matches a x z first, steps-Matches b z y second)
steps-Matches (alt a b) x y h = elim ((Among-append y (steps a x) (steps b x)).0 h) [
  | inl l ↦ inl (steps-Matches a x y l)
  | inr r ↦ inr (steps-Matches b x y r)
]
steps-Matches (opt a) x y h = elim ((Among-append y (steps a x) (x ∷ [])).0 h) [
  | inl l ↦ inl (steps-Matches a x y l)
  | inr r ↦ elim r [ inl e ↦ inr e | inr n ↦ absurd n ]
]
steps-Matches (upto n p) x y h = take_upto-Reads p y n x.prev x.rest h
steps-Matches (many p) x y h = take_many-Reads p y x.prev x.rest h

Matches-steps : (r : Re) (x y : Place) → Matches r x y → Among y (steps r x)
unfolding steps
Matches-steps empty x y h = inl h
Matches-steps (one p) x y (w, single, all, r) = Reads-take_one p y x.prev x.rest w single all r
Matches-steps boundary x y h = (Among-here_if (is_boundary x) x y).1 h
Matches-steps at_start x y h = (Among-here_if (is_start x) x y).1 h
Matches-steps at_end x y h = (Among-here_if (is_end x) x y).1 h
Matches-steps (seq a b) x y (z, first, second) =
    (Among-flat_map (steps b) y (steps a x)).1
      (z, Matches-steps a x z first, Matches-steps b z y second)
Matches-steps (alt a b) x y h =
    (Among-append y (steps a x) (steps b x)).1
      (elim h [ inl l ↦ inl (Matches-steps a x y l) | inr r ↦ inr (Matches-steps b x y r) ])
Matches-steps (opt a) x y h =
    (Among-append y (steps a x) (x ∷ [])).1
      (elim h [ inl l ↦ inl (Matches-steps a x y l) | inr e ↦ inr (inl e) ])
Matches-steps (upto n p) x y (w, short, all, r) = Reads-take_upto p y n x.prev x.rest w short all r
Matches-steps (many p) x y (w, long, all, r) = Reads-take_many p y x.prev x.rest w long all r

-- A match somewhere in what follows a place.
abbrev pub Occurs : Re → Place → Type 0
Occurs r start = (w : List ℕ) × ((x : Place) × Reads w start x × ((y : Place) × Matches r x y))

found : (xs : List Place) → is_cons xs ≡ true → (y : Place) × Among y xs
found [] h = absurd (cc)
found (x ∷ xs) h = (x, inl refl)

is_found : (y : Place) (xs : List Place) → Among y xs → is_cons xs ≡ true
is_found y [] h = absurd h
is_found y (x ∷ xs) h = refl

search_from-Occurs :
    (r : Re) (prev : Option ℕ) (text : List ℕ)
    → search_from r prev text ≡ true
    → Occurs r (place prev text)
search_from-Occurs r prev [] h =
    let (y, k) = found (steps r (place prev [])) h in
    ([], (place prev [], (refl, refl), (y, steps-Matches r (place prev []) y k)))
search_from-Occurs r prev (c ∷ cs) h = elim (Bool-cases (is_cons (steps r (place prev (c ∷ cs))))) [
  | inl here ↦
      let (y, k) = found (steps r (place prev (c ∷ cs))) here in
      ([], (place prev (c ∷ cs), (refl, refl), (y, steps-Matches r (place prev (c ∷ cs)) y k)))
  | inr later ↦
      let (w, (x, reads, m)) = search_from-Occurs r (some c) cs (rw later at h) in
      (c ∷ w, (x, Reads-first c prev cs w x reads, m))
]

found_here : (r : Re) (x y : Place) → Matches r x y → is_cons (steps r x) ≡ true
found_here r x y m = is_found y (steps r x) (Matches-steps r x y m)

or_later : (a b : Bool) → b ≡ true → (a || b) ≡ true
or_later true b h = refl
or_later false b h = h

or_here : (a b : Bool) → a ≡ true → (a || b) ≡ true
or_here a b h = rw h refl

Occurs-search_from :
    (r : Re) (prev : Option ℕ) (text w : List ℕ) (x y : Place)
    → Reads w (place prev text) x
    → Matches r x y
    → search_from r prev text ≡ true
Occurs-search_from r prev [] [] x y reads m =
    found_here r (place prev []) y
      (subst (λ z. Matches r z y) (nothing-Reads (place prev []) x reads) m)
Occurs-search_from r prev [] (d ∷ w) x y reads m = absurd (no_text d w prev x reads)
Occurs-search_from r prev (c ∷ cs) [] x y reads m = or_here _ (search_from r (some c) cs) (
    found_here r (place prev (c ∷ cs)) y
      (subst (λ z. Matches r z y) (nothing-Reads (place prev (c ∷ cs)) x reads) m))
Occurs-search_from r prev (c ∷ cs) (d ∷ w) x y reads m =
    or_later (is_cons (steps r (place prev (c ∷ cs)))) _
      (Occurs-search_from r (some c) cs w x y (first-Reads c d prev cs w x reads).1 m)

-- `search` answers yes exactly when some part of the text, in its place, is a match.
pub search-Occurs : (r : Re) (text : List ℕ) → (search r text ≡ true) ↔ Occurs r (place none text)
unfolding search
search-Occurs r text = (
  search_from-Occurs r none text,
  λ (w, (x, reads, (y, m))). Occurs-search_from r none text w x y reads m,
)
