-- ===== src/Regex.antt =====
-- The regular expressions of app/complexity_classifier.py: the constructs that its patterns use, as
-- Python's `re` reads them with `IGNORECASE`. Only whether there is a match is asked, so the matcher
-- lists all positions where a match can end.
pub mod Reading
pub mod Matching
use ai_routing.Prelude.{
  ℕ, zero, suc, Bool, true, false, not, ◌&&◌, ◌||◌, Option, none, some, List, [], ◌∷◌, ◌++◌, ◌==◌,
  if◌then◌else◌,
}
use ai_routing.Text.{is_word, to_lower}

-- A set of characters, as a test.
abbrev pub Class : Type 0
Class = ℕ → Bool

pub data Re : Type 0 where
  empty : Re
  one : Class → Re
  -- `\b`, `^` and `$`
  boundary at_start at_end : Re
  seq alt : Re → Re → Re
  -- `r?`
  opt : Re → Re
  -- `[…]{0,n}` and `[…]+`
  upto : ℕ → Class → Re
  many : Class → Re

-- A place in the text: the character before it, and what follows.
pub record Place : Type 0 where
  pub prev : Option ℕ
  pub rest : List ℕ

abbrev word_before : Option ℕ → Bool
word_before none = false
word_before (some c) = is_word c

abbrev word_after : List ℕ → Bool
word_after [] = false
word_after (c ∷ cs) = is_word c

abbrev pub is_boundary : Place → Bool
is_boundary x = elim (word_before x.prev) [
  | true ↦ not (word_after x.rest)
  | false ↦ word_after x.rest
]

abbrev pub is_start : Place → Bool
is_start x = elim x.prev [ none ↦ true | some _ ↦ false ]

-- `$` is also before a newline at the end.
abbrev ends : List ℕ → Bool
ends [] = true
ends (c ∷ []) = c == 10
ends _ = false

abbrev pub is_end : Place → Bool
is_end x = ends x.rest

abbrev pub here_if : Bool → Place → List Place
here_if b x = if b then x ∷ [] else []

-- One character of the class.
abbrev pub take_one : Class → Option ℕ → List ℕ → List Place
take_one p prev [] = []
take_one p prev (c ∷ cs) = here_if (p c) (record { prev = some c; rest = cs })

abbrev pub take_upto : ℕ → Class → Option ℕ → List ℕ → List Place
take_upto zero p prev cs = record { prev = prev; rest = cs } ∷ []
take_upto (suc n) p prev [] = record { prev = prev; rest = [] } ∷ []
take_upto (suc n) p prev (c ∷ cs) =
    let further = take_upto n p (some c) cs in
    record { prev = prev; rest = c ∷ cs } ∷ (if p c then further else [])

abbrev pub take_many : Class → Option ℕ → List ℕ → List Place
take_many p prev [] = []
take_many p prev (c ∷ cs) =
    let further = take_many p (some c) cs in
    if p c then record { prev = some c; rest = cs } ∷ further else []

abbrev pub flat_map : {A B : Type 0} → (A → List B) → List A → List B
flat_map f [] = []
flat_map f (x ∷ xs) = f x ++ flat_map f xs

-- The places where a match of the expression that begins at a place can end.
unfoldable pub steps : Re → Place → List Place
steps empty x = x ∷ []
steps (one p) x = take_one p x.prev x.rest
steps boundary x = here_if (is_boundary x) x
steps at_start x = here_if (is_start x) x
steps at_end x = here_if (is_end x) x
steps (seq a b) x = flat_map (steps b) (steps a x)
steps (alt a b) x = steps a x ++ steps b x
steps (opt a) x = steps a x ++ (x ∷ [])
steps (upto n p) x = take_upto n p x.prev x.rest
steps (many p) x = take_many p x.prev x.rest

abbrev pub is_cons : List Place → Bool
is_cons [] = false
is_cons (_ ∷ _) = true

-- `pattern.search(text)`: a match may begin at every place.
abbrev pub search_from : Re → Option ℕ → List ℕ → Bool
search_from r prev [] = is_cons (steps r (record { prev = prev; rest = [] }))
search_from r prev (c ∷ cs) =
    is_cons (steps r (record { prev = prev; rest = c ∷ cs })) || search_from r (some c) cs

unfoldable pub search : Re → List ℕ → Bool
search r text = search_from r none text

-- A literal text, in lower case.
abbrev pub literal : List ℕ → Re
literal [] = empty
literal (c ∷ cs) = seq (one (λ d. to_lower d == c)) (literal cs)
