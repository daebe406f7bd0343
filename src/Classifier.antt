-- ===== src/Classifier.antt =====
-- app/complexity_classifier.py: the tier of a prompt, by patterns and by the number of words.
pub mod Priority
mod Tests
use ai_routing.Prelude.{
  ℕ, Bool, true, false, ◌&&◌, ◌||◌, not, List, [], ◌∷◌, ◌++◌, String, leb, ◌==◌, if◌then◌else◌,
}
use ai_routing.Text.{codes, is_digit, is_space, to_lower, strip, count_words}
use ai_routing.Models.{ComplexityTier, fast, quality}
use ai_routing.Regex.{
  Class, Re, empty, one, boundary, at_start, at_end, seq, alt, opt, upto, many, literal, search,
}

abbrev text : String → Re
text s = literal (codes s)

-- One of the characters, in any case; and any character but a newline.
abbrev any_of : List ℕ → Class
any_of [] c = false
any_of (d ∷ ds) c = to_lower c == d || any_of ds c

abbrev dot : Class
dot c = not (c == 10)

infixr 20 ◌then◌
abbrev ◌then◌ : Re → Re → Re
a then b = seq a b

abbrev one_of : String → List String → Re
one_of s [] = text s
one_of s (t ∷ ts) = alt (text s) (one_of t ts)

-- `\b…\b` about one expression, and `^…\b`.
abbrev bounded : Re → Re
bounded r = boundary then r then boundary

abbrev starting : Re → Re
starting r = at_start then r then boundary

-- `_QUALITY_PATTERNS`
abbrev pub quality_patterns : List Re
quality_patterns =
    bounded (text "explain")
    ∷ bounded (text "why")
    ∷ bounded (text "analys" then one (any_of (codes "ei")) then opt (text "s"))
    ∷ bounded (text "analyz" then opt (text "e"))
    ∷ bounded (text "compare")
    ∷ bounded (text "contrast")
    ∷ bounded (text "design")
    ∷ bounded (text "architect")
    ∷ bounded (text "implement")
    ∷ bounded (text "code")
    ∷ (bounded (text "write")
        then upto 40 dot
        then bounded (
            one_of "essay" ("report" ∷ "letter" ∷ "function" ∷ "class" ∷ "module" ∷ "script" ∷ [])))
    ∷ bounded (text "prove")
    ∷ bounded (text "derive")
    ∷ bounded (text "optimi" then one (any_of (codes "sz")) then opt (text "e"))
    ∷ bounded (text "refactor")
    ∷ bounded (text "debug")
    ∷ bounded (text "step" then one dot then text "by" then one dot then text "step")
    ∷ bounded (text "breakdown")
    ∷ bounded (text "summarise")
    ∷ bounded (text "summarize")
    ∷ bounded (text "how does")
    ∷ bounded (text "how do")
    ∷ bounded (text "what are the")
    ∷ bounded (text "advantage" then opt (text "s"))
    ∷ bounded (text "disadvantage" then opt (text "s"))
    ∷ bounded (text "trade" then opt (one dot) then text "off" then opt (text "s"))
    ∷ bounded (text "recommend")
    ∷ bounded (text "sugggest")
    ∷ bounded (text "evaluate")
    ∷ bounded (text "critique")
    ∷ []

-- `[\d\s\+\-\*\/\^]`
abbrev arithmetic : Class
arithmetic c = is_digit c || is_space c || any_of (codes "+-*/^") c

-- `_FAST_PATTERNS`
abbrev pub fast_patterns : List Re
fast_patterns =
    starting (text "what is")
    ∷ starting (text "who is")
    ∷ starting (text "who was")
    ∷ starting (text "when " then one_of "is" ("was" ∷ "did" ∷ []))
    ∷ starting (text "where " then one_of "is" ("was" ∷ []))
    ∷ starting (one_of "hi" ("hello" ∷ "hey" ∷ "good morning" ∷ "good evening" ∷ []))
    ∷ starting (text "thank" then opt (text "s"))
    ∷ starting (one_of "yes" ("no" ∷ "ok" ∷ "okay" ∷ "sure" ∷ []))
    ∷ bounded (text "define")
    ∷ bounded (text "spell")
    ∷ bounded (text "translat" then one (any_of (codes "ei")))
    ∷ (starting (text "list") then upto 20 dot then boundary then opt (text "of" then boundary))
    ∷ (at_start then one is_digit then many arithmetic then opt (text "=") then at_end)
    ∷ []

-- `_TOKEN_THRESHOLD`
abbrev pub token_threshold : ℕ
token_threshold = 60

-- A loop over patterns that returns at the first one found.
unfoldable pub any_search : List Re → List ℕ → Bool
any_search [] prompt = false
any_search (r ∷ rs) prompt = search r prompt || any_search rs prompt

-- `classify` of the stripped prompt.
abbrev pub classify_stripped : List ℕ → ComplexityTier
classify_stripped prompt =
    if any_search quality_patterns prompt
    then quality
    else (if any_search fast_patterns prompt
        then fast
        else (if leb token_threshold (count_words false prompt) then quality else fast))

-- `classify`
unfoldable pub classify : List ℕ → ComplexityTier
classify prompt = classify_stripped (strip prompt)
