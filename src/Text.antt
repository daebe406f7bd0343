-- ===== src/Text.antt =====
-- The text operations of Python that app/complexity_classifier.py and app/main.py use, on code
-- points. Texts are ASCII: of what Unicode adds to letters, digits and spaces nothing is said.
use Prim.Native.Char.{code}
use ai_routing.Prelude.{
  ℕ, suc, ◌+◌, Bool, true, false, not, ◌&&◌, ◌||◌, List, [], ◌∷◌, String, leb, ◌==◌, if◌then◌else◌,
}

-- The code points of a literal.
abbrev pub codes : String → List ℕ
codes String.[] = []
codes (String.◌∷◌ c s) = code c ∷ codes s

abbrev pub between : ℕ → ℕ → ℕ → Bool
between a b c = leb a c && leb c b

-- `str.isspace` of one character
abbrev pub is_space : ℕ → Bool
is_space c = c == 32 || between 9 13 c || between 28 31 c

abbrev pub is_digit : ℕ → Bool
is_digit c = between b'0' b'9' c

-- What `\w` matches.
abbrev pub is_word : ℕ → Bool
is_word c = between b'a' b'z' c || between b'A' b'Z' c || is_digit c || c == b'_'

-- `str.lower` of one character
abbrev pub to_lower : ℕ → ℕ
to_lower c = if between b'A' b'Z' c then c + 32 else c

abbrev pub lower : List ℕ → List ℕ
lower [] = []
lower (c ∷ cs) = to_lower c ∷ lower cs

abbrev pub lstrip : List ℕ → List ℕ
lstrip [] = []
lstrip (c ∷ cs) = let rest = lstrip cs in if is_space c then rest else c ∷ cs

abbrev pub rstrip : List ℕ → List ℕ
rstrip [] = []
rstrip (c ∷ cs) =
    let rest = rstrip cs in
    elim rest [ [] ↦ if is_space c then [] else c ∷ [] | d ∷ ds ↦ c ∷ d ∷ ds ]

-- `str.strip`
abbrev pub strip : List ℕ → List ℕ
strip cs = rstrip (lstrip cs)

-- `len(s.split())`: `inside` says whether a word has begun.
abbrev pub count_words : Bool → List ℕ → ℕ
count_words inside [] = 0
count_words inside (c ∷ cs) =
    let after = count_words (not (is_space c)) cs in
    if not inside && not (is_space c) then suc after else after

abbrev pub starts_with : List ℕ → List ℕ → Bool
starts_with [] cs = true
starts_with (p ∷ ps) [] = false
starts_with (p ∷ ps) (c ∷ cs) = p == c && starts_with ps cs

-- `word in text`
abbrev pub is_in : List ℕ → List ℕ → Bool
is_in word [] = starts_with word []
is_in word (c ∷ cs) = starts_with word (c ∷ cs) || is_in word cs

-- `a == b` of texts
abbrev pub text_eq : List ℕ → List ℕ → Bool
text_eq [] [] = true
text_eq (c ∷ cs) (d ∷ ds) = c == d && text_eq cs ds
text_eq _ _ = false
