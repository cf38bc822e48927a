-- ===== src/Orchestration/PlanText.antt =====
-- The JSON text in a language model's answer, of orchestration/orchestrator.go: `parsePlan`,
-- `cleanLLMResponse`, `stripMarkdownFromJSON`, `findJSONStart` and `findJSONEndStringSafe`. A string
-- is the list of its bytes. The regular expressions, `strings.TrimSpace` and the JSON decoder are
-- parameters.
pub mod Scan
pub mod Cleaning
pub mod Extraction
use gomind.Base.{
  ℕ, zero, suc, ◌+◌, ◌-◌, Bool, true, false, not, ◌&&◌, ◌||◌, Option, none, some, List, [], ◌∷◌,
  ◌++◌, length, take, drop, if◌then◌else◌, ltb, ◌==◌,
}
use gomind.Base.Int.{ℤ, pos, negsuc, ◌+ℤ◌, ◌-ℤ◌, eqb_ℤ}

abbrev pub quote : ℕ
quote = 34

abbrev pub asterisk : ℕ
asterisk = 42

abbrev pub backslash : ℕ
backslash = 92

abbrev pub open_brace : ℕ
open_brace = 123

abbrev pub close_brace : ℕ
close_brace = 125

-- The first index of a byte, counted from `i`, or -1.
unfoldable pub index_from : ℕ → ℕ → List ℕ → ℤ
index_from i b [] = negsuc 0
index_from i b (c ∷ cs) = let later = index_from (suc i) b cs in if c == b then pos i else later

unfoldable pub find_json_start : List ℕ → ℤ
unfolding index_from
find_json_start s = index_from 0 open_brace s

-- The variables of `findJSONEndStringSafe`.
pub record Scanner : Type 0 where
  pub depth : ℤ
  pub in_string : Bool
  pub escaped : Bool

unfoldable pub read_byte : ℕ → Scanner → Scanner
read_byte c st =
    if st.escaped
    then record st { escaped = false }
    else if (c == backslash) && st.in_string
    then record st { escaped = true }
    else if c == quote
    then record st { in_string = not st.in_string }
    else if st.in_string
    then st
    else if c == open_brace
    then record st { depth = st.depth +ℤ pos 1 }
    else if c == close_brace
    then record st { depth = st.depth -ℤ pos 1 }
    else st

-- The byte closes the outermost brace.
unfoldable pub closes : ℕ → Scanner → Bool
closes c st =
    not st.escaped && not st.in_string && (c == close_brace) && eqb_ℤ (st.depth -ℤ pos 1) (pos 0)

unfoldable pub scan : ℕ → Scanner → List ℕ → ℤ
unfolding read_byte closes
scan i st [] = negsuc 0
scan i st (c ∷ cs) =
    let rest = scan (suc i) (read_byte c st) cs in if closes c st then pos (suc i) else rest

unfoldable pub find_json_end_string_safe : List ℕ → ℕ → ℤ
unfolding scan
find_json_end_string_safe s start =
    scan start (record { depth = pos 0; in_string = false; escaped = false }) (drop start s)

-- s[start:end]
abbrev pub slice : List ℕ → ℕ → ℕ → List ℕ
slice s start end = take (end - start) (drop start s)

abbrev pub is_in : ℕ → List ℕ → Bool
is_in b [] = false
is_in b (c ∷ cs) = (c == b) || is_in b cs

-- strings.ContainsAny(content, chars)
unfoldable pub contains_any : List ℕ → List ℕ → Bool
contains_any [] chars = false
contains_any (c ∷ cs) chars = is_in c chars || contains_any cs chars

-- "\n\t{}[]\""
abbrev pub specials : List ℕ
specials = 10 ∷ 9 ∷ 123 ∷ 125 ∷ 91 ∷ 93 ∷ 34 ∷ []

abbrev pub is_empty : List ℕ → Bool
is_empty [] = true
is_empty (c ∷ cs) = false

-- The first byte, if there is one, is not an asterisk.
abbrev pub no_asterisk_first : List ℕ → Bool
no_asterisk_first [] = true
no_asterisk_first (c ∷ cs) = not (c == asterisk)

pub record Environment : Type 0 where
  -- The first group of markdownCodeBlockRegex, where the expression matches.
  pub code_block : List ℕ → Option (List ℕ)
  -- markdownBoldRegex.ReplaceAllString(s, "$1")
  pub strip_bold : List ℕ → List ℕ
  pub trim_space : List ℕ → List ℕ

module _ (env : Environment) where
  -- After an asterisk: the length of a text in italics that ends with another.
  unfoldable pub italic_length : List ℕ → ℤ → Option ℕ
  unfolding contains_any
  italic_length cs (negsuc n) = none
  italic_length cs (pos n) =
      if ltb 0 n
        && ltb n 100
        && no_asterisk_first (drop (suc n) cs)
        && not (contains_any (take n cs) specials)
        && not (is_empty (env.trim_space (take n cs)))
      then some n
      else none

  -- At an asterisk that another does not follow.
  unfoldable pub italic_at : List ℕ → Option ℕ
  unfolding italic_length index_from
  italic_at cs =
      if not (is_empty cs) && no_asterisk_first cs
      then italic_length cs (index_from 0 asterisk cs)
      else none

  abbrev pub keep_unless : Option ℕ → ℕ → List ℕ → List ℕ
  keep_unless none c rest = c ∷ rest
  keep_unless (some n) c rest = rest

  -- The loop of `stripMarkdownFromJSON`. Within a text in italics the number of its bytes that are
  -- left is given; its end is dropped.
  unfoldable pub strip_italic : Option ℕ → List ℕ → List ℕ
  unfolding italic_at
  strip_italic inside [] = []
  strip_italic (some zero) (c ∷ cs) = strip_italic none cs
  strip_italic (some (suc n)) (c ∷ cs) = c ∷ strip_italic (some n) cs
  strip_italic none (c ∷ cs) =
      let found = if c == asterisk then italic_at cs else none in
      let rest = strip_italic found cs in keep_unless found c rest

  unfoldable pub strip_markdown_from_json : List ℕ → List ℕ
  unfolding strip_italic
  strip_markdown_from_json s = strip_italic none (env.strip_bold s)

  unfoldable pub json_between : List ℕ → ℕ → ℤ → List ℕ
  unfolding strip_markdown_from_json
  json_between s start (pos end) = strip_markdown_from_json (env.trim_space (slice s start end))
  json_between s start (negsuc n) = s

  unfoldable pub json_after : List ℕ → ℤ → List ℕ
  unfolding find_json_end_string_safe json_between
  json_after s (pos start) = json_between s start (find_json_end_string_safe s start)
  json_after s (negsuc n) = s

  unfoldable pub cleaned_from : List ℕ → Option (List ℕ) → List ℕ
  unfolding strip_markdown_from_json json_after
  cleaned_from s (some block) = strip_markdown_from_json (env.trim_space block)
  cleaned_from s none = json_after s (index_from 0 open_brace s)

  unfoldable pub clean_llm_response : List ℕ → List ℕ
  unfolding cleaned_from
  clean_llm_response s = cleaned_from s (env.code_block s)

  abbrev pub text_between : List ℕ → ℕ → ℤ → Option (List ℕ)
  text_between s start (pos end) = some (slice s start end)
  text_between s start (negsuc n) = none

  abbrev pub text_after : List ℕ → ℤ → Option (List ℕ)
  text_after s (pos start) = text_between s start (find_json_end_string_safe s start)
  text_after s (negsuc n) = none

  -- `jsonStr` in `parsePlan`, which the JSON decoder reads, or the end with an error before it.
  unfoldable pub plan_text : List ℕ → Option (List ℕ)
  unfolding clean_llm_response find_json_start
  plan_text response =
      let cleaned = clean_llm_response response in text_after cleaned (find_json_start cleaned)
