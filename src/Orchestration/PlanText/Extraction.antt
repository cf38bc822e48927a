-- ===== src/Orchestration/PlanText/Extraction.antt =====
-- The JSON object that `parsePlan` finds in an answer.
use gomind.Base.{
  ℕ, suc, ◌+◌, ◌≡◌, refl, sym, ap, ◌∙◌, true, false, none, some, List, [], ◌∷◌, ◌++◌, length, take,
  drop, drop-length_append, take-length_append, All, ◌==◌, arith,
}
use gomind.Base.Int.{pos}
use gomind.Orchestration.PlanText.{
  asterisk, open_brace, close_brace, Environment, index_from, find_json_start,
  find_json_end_string_safe, scan, slice, strip_italic, strip_markdown_from_json,
  clean_llm_response, cleaned_from, json_after, json_between, text_after, text_between, plan_text,
}
use gomind.Orchestration.PlanText.Scan.{JsonText, object, print, IsJson, outside, scan-object}

-- No byte of the text is this one.
abbrev pub Lacks : ℕ → List ℕ → Type 0
Lacks b s = All (λ (c : ℕ). (c == b) ≡ false) s

append_nil : (s : List ℕ) → s ++ [] ≡ s
append_nil [] = refl
append_nil (c ∷ cs) = ap (λ (l : List ℕ). c ∷ l) (append_nil cs)

index_from-append :
    (i j b : ℕ) (s rest : List ℕ)
    → Lacks b s
    → j ≡ length s + i
    → index_from i b (s ++ (b ∷ rest)) ≡ pos j
unfolding index_from
index_from-append i j b [] rest h e =
    let same : (b == b) ≡ true = ground arith in rw same (ap pos (omega arith))
index_from-append i j b (c ∷ cs) rest (h, hs) e =
    rw h (index_from-append (suc i) j b cs rest hs (omega arith))

find_json_end-object :
    (before after : List ℕ) (t : JsonText)
    → IsJson t
    → find_json_end_string_safe (before ++ (print (object t) ++ after)) (length before)
      ≡ pos (length (print (object t)) + length before)
unfolding find_json_end_string_safe
find_json_end-object before after t h =
    ap (scan (length before) (outside 0)) (drop-length_append before (print (object t) ++ after))
    ∙ scan-object t after (length before) h

slice-append :
    (before p after : List ℕ)
    → slice (before ++ (p ++ after)) (length before) (length p + length before) ≡ p
slice-append before p after =
    ap (λ (n : ℕ). take n (drop (length before) (before ++ (p ++ after)))) (omega arith)
    ∙ ap (take (length p)) (drop-length_append before (p ++ after))
    ∙ take-length_append p after

-- The object that follows a text with no brace is what the search cuts out.
text_after-object :
    (env : Environment) (before after : List ℕ) (t : JsonText)
    → Lacks open_brace before
    → IsJson t
    → text_after env
        (before ++ (print (object t) ++ after))
        (find_json_start (before ++ (print (object t) ++ after)))
      ≡ some (print (object t))
unfolding find_json_start
text_after-object env before after t lacks h =
    let whole = before ++ (print (object t) ++ after) in
    ap (text_after env whole) (
      index_from-append 0 (length before) open_brace before
        ((print t ++ (close_brace ∷ [])) ++ after) lacks (omega arith))
    ∙ ap (text_between env whole (length before)) (find_json_end-object before after t h)
    ∙ ap some (slice-append before (print (object t)) after)

strip_italic-Lacks :
    (env : Environment) (s : List ℕ) → Lacks asterisk s → strip_italic env none s ≡ s
unfolding strip_italic
strip_italic-Lacks env [] h = refl
strip_italic-Lacks env (c ∷ cs) (h, hs) =
    rw h (ap (λ (l : List ℕ). c ∷ l) (strip_italic-Lacks env cs hs))

module _ (env : Environment) where
  -- The documented behaviour of the libraries: no space is at the ends of a text in braces, and there
  -- is nothing bold without asterisks.
  pub record KeepsObjects : Type 0 where
    pub trimmed :
        (s : List ℕ)
        → env.trim_space (open_brace ∷ (s ++ (close_brace ∷ [])))
          ≡ open_brace ∷ (s ++ (close_brace ∷ []))
    pub unmarked : (s : List ℕ) → Lacks asterisk s → env.strip_bold s ≡ s

  json_between-object :
      (whole : List ℕ) (start end : ℕ) (t : JsonText)
      → KeepsObjects
      → slice whole start end ≡ print (object t)
      → Lacks asterisk (print (object t))
      → json_between env whole start (pos end) ≡ print (object t)
  unfolding strip_markdown_from_json json_between
  json_between-object whole start end t keeps e lacks =
      ap (λ (s : List ℕ). strip_italic env none (env.strip_bold (env.trim_space s))) e
      ∙ ap (λ (s : List ℕ). strip_italic env none (env.strip_bold s)) (keeps.trimmed (print t))
      ∙ ap (strip_italic env none) (keeps.unmarked (print (object t)) lacks)
      ∙ strip_italic-Lacks env (print (object t)) lacks

  clean_llm_response-object :
      (before after : List ℕ) (t : JsonText)
      → KeepsObjects
      → env.code_block (before ++ (print (object t) ++ after)) ≡ none
      → Lacks open_brace before
      → IsJson t
      → Lacks asterisk (print (object t))
      → clean_llm_response env (before ++ (print (object t) ++ after)) ≡ print (object t)
  unfolding clean_llm_response cleaned_from json_after
  clean_llm_response-object before after t keeps bare no_brace h lacks =
      let whole = before ++ (print (object t) ++ after) in
      let p = print (object t) in
      ap (cleaned_from env whole) bare
      ∙ ap (json_after env whole) (
          index_from-append 0 (length before) open_brace before
            ((print t ++ (close_brace ∷ [])) ++ after) no_brace (omega arith))
      ∙ ap (json_between env whole (length before)) (find_json_end-object before after t h)
      ∙ json_between-object whole (length before) (length p + length before) t keeps
          (slice-append before p after) lacks

  -- A JSON object that is printed into an answer is read back from it: whatever stands behind it, and
  -- after any text with no opening brace, `parsePlan` hands exactly the object to the JSON decoder, with
  -- the braces and the escaped quotes in its strings. The object has no asterisks, the answer no block
  -- of code, and the trimming and the bold expression keep objects as they are.
  pub plan_text-print :
      (before after : List ℕ) (t : JsonText)
      → KeepsObjects
      → env.code_block (before ++ (print (object t) ++ after)) ≡ none
      → Lacks open_brace before
      → IsJson t
      → Lacks asterisk (print (object t))
      → plan_text env (before ++ (print (object t) ++ after)) ≡ some (print (object t))
  unfolding plan_text
  plan_text-print before after t keeps bare no_brace h lacks =
      let p = print (object t) in
      ap (λ (s : List ℕ). text_after env s (find_json_start s))
        (clean_llm_response-object before after t keeps bare no_brace h lacks ∙ sym (append_nil p))
      ∙ text_after-object env [] [] t tt h
