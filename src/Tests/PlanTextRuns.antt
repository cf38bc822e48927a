-- ===== src/Tests/PlanTextRuns.antt =====
-- The search for a plan in an answer at concrete inputs.
use gomind.Base.{
  ℕ, ◌≡◌, refl, ap, none, some, List, [], ◌∷◌, ◌++◌, if◌then◌else◌, ◌==◌, Bool-cases, inl, inr,
}
use gomind.Base.Int.{pos, ◌+ℤ◌, ◌-ℤ◌}
use gomind.Orchestration.PlanText.{
  Environment, asterisk, find_json_end_string_safe, strip_italic, strip_markdown_from_json,
  plan_text,
}
use gomind.Orchestration.PlanText.Scan.{
  byte, escape, JsonText, nothing, plain, quoted, object, both, print,
}
use gomind.Orchestration.PlanText.Cleaning.{without_asterisks, strip_markdown_from_json-without}
use gomind.Orchestration.PlanText.Extraction.{Lacks, KeepsObjects, plan_text-print}

abbrev skip_spaces : List ℕ → List ℕ
skip_spaces [] = []
skip_spaces (c ∷ cs) = let rest = skip_spaces cs in if c == 32 then rest else c ∷ cs

abbrev bare_answers : Environment
bare_answers = record {
  code_block = λ s. none;
  strip_bold = without_asterisks;
  trim_space = skip_spaces;
}

without-Lacks : (s : List ℕ) → Lacks asterisk s → without_asterisks s ≡ s
without-Lacks [] h = refl
without-Lacks (c ∷ cs) (h, hs) = rw h (ap (λ (l : List ℕ). c ∷ l) (without-Lacks cs hs))

without_twice : (s : List ℕ) → without_asterisks (without_asterisks s) ≡ without_asterisks s
without_twice [] = refl
without_twice (c ∷ cs) = elim (Bool-cases (c == asterisk)) [
  | inl e ↦ rw e (without_twice cs)
  | inr e ↦ rw (e, e) (ap (λ (l : List ℕ). c ∷ l) (without_twice cs))
]

bare_answers-KeepsObjects : KeepsObjects bare_answers
bare_answers-KeepsObjects = record { trimmed = λ s. refl; unmarked = without-Lacks }

-- {"}\"":{}}
abbrev tricky : JsonText
tricky = both (quoted (byte 125 ∷ escape 34 ∷ [])) (both (plain 58) (object nothing))

-- Bytes before and behind the object.
abbrev intro : List ℕ
intro = 80 ∷ 34 ∷ 125 ∷ []

abbrev outro : List ℕ
outro = 42 ∷ 125 ∷ []

end_found : find_json_end_string_safe (print (object tricky) ++ outro) 0 ≡ pos 10
unfolding find_json_end_string_safe ◌+ℤ◌ ◌-ℤ◌
end_found = refl

-- `2*3*4` becomes `234`.
product_loses_signs :
    strip_italic bare_answers none (50 ∷ 42 ∷ 51 ∷ 42 ∷ 52 ∷ []) ≡ 50 ∷ 51 ∷ 52 ∷ []
unfolding strip_italic
product_loses_signs = refl

plan_text-print_example :
    plan_text bare_answers (intro ++ (print (object tricky) ++ outro))
    ≡ some (print (object tricky))
plan_text-print_example =
    plan_text-print bare_answers intro outro tricky bare_answers-KeepsObjects refl
      (refl, (refl, (refl, tt))) (((refl, refl), (tt, tt)), ((refl, refl, refl), tt))
      (refl, (refl, (refl, (refl, (refl, (refl, (refl, (refl, (refl, (refl, tt))))))))))

strip_markdown_from_json-without_example :
    without_asterisks (strip_markdown_from_json bare_answers (50 ∷ 42 ∷ 51 ∷ 42 ∷ 52 ∷ []))
    ≡ without_asterisks (50 ∷ 42 ∷ 51 ∷ 42 ∷ 52 ∷ [])
strip_markdown_from_json-without_example =
    strip_markdown_from_json-without bare_answers (50 ∷ 42 ∷ 51 ∷ 42 ∷ 52 ∷ []) without_twice
