-- ===== src/Orchestration/PlanText/Cleaning.antt =====
-- What the cleaning of marks takes away.
use gomind.Base.{
  ◌⊎◌, ℕ, zero, suc, ◌-◌, ◌≤◌, ◌≡◌, refl, ap, ◌∙◌, inl, inr, true, not, ◌&&◌, Option, none, some,
  List, [], ◌∷◌, take, drop, get_elem?, if◌then◌else◌, if_cases, Bool-cases, ltb, ◌==◌, arith,
}
use gomind.Base.Int.{ℤ, pos, negsuc}
use gomind.Orchestration.PlanText.{
  keep_unless, asterisk, specials, no_asterisk_first, is_empty, contains_any, Environment,
  index_from, italic_length, italic_at, strip_italic, strip_markdown_from_json,
}

-- The text with no asterisks.
abbrev pub without_asterisks : List ℕ → List ℕ
without_asterisks [] = []
without_asterisks (c ∷ cs) =
    if c == asterisk then without_asterisks cs else c ∷ without_asterisks cs

-- An asterisk stands at the end of the text in italics.
abbrev EndsAtAsterisk : Option ℕ → List ℕ → Type 0
EndsAtAsterisk none cs = Unit
EndsAtAsterisk (some n) cs = get_elem? cs n ≡ some asterisk

sub_suc : (n i : ℕ) → suc i ≤ n → n - i ≡ suc (n - suc i)
sub_suc n i l = omega arith

sub_zero : (k : ℕ) → k ≡ k - 0
sub_zero k = omega arith

index_from-get_elem? :
    (i b n : ℕ) (cs : List ℕ)
    → index_from i b cs ≡ pos n
    → (i ≤ n) × (get_elem? cs (n - i) ≡ some b)
unfolding index_from
index_from-get_elem? i b n [] h = absurd (cc)
index_from-get_elem? i b n (c ∷ cs) h = elim (Bool-cases (c == b)) [
  | inl here ↦ ground arith
  | inr later ↦
      let (l, e) = index_from-get_elem? (suc i) b n cs (ground arith) in
      (omega arith, ap (get_elem? (c ∷ cs)) (sub_suc n i l) ∙ e)
]

module _ (env : Environment) where
  italic_length-EndsAtAsterisk :
      (cs : List ℕ) (z : ℤ)
      → index_from 0 asterisk cs ≡ z
      → EndsAtAsterisk (italic_length env cs z) cs
  unfolding italic_length
  italic_length-EndsAtAsterisk cs (negsuc k) h = tt
  italic_length-EndsAtAsterisk cs (pos k) h =
      let (l, e) = index_from-get_elem? 0 asterisk k cs h in
      if_cases (λ (o : Option ℕ). EndsAtAsterisk o cs)
        (ltb 0 k
          && ltb k 100
          && no_asterisk_first (drop (suc k) cs)
          && not (contains_any (take k cs) specials)
          && not (is_empty (env.trim_space (take k cs))))
        (λ _. ap (get_elem? cs) (sub_zero k) ∙ e) (λ _. tt)

  italic_at-EndsAtAsterisk : (cs : List ℕ) → EndsAtAsterisk (italic_at env cs) cs
  unfolding italic_at
  italic_at-EndsAtAsterisk cs =
      if_cases (λ (o : Option ℕ). EndsAtAsterisk o cs) (not (is_empty cs) && no_asterisk_first cs)
        (λ _. italic_length-EndsAtAsterisk cs (index_from 0 asterisk cs) refl) (λ _. tt)

  -- Where a byte is not kept, it is an asterisk.
  keep_unless_lem :
      (found : Option ℕ) (c : ℕ) (rest cs : List ℕ)
      → ((found ≡ none) ⊎ ((c == asterisk) ≡ true))
      → without_asterisks rest ≡ without_asterisks cs
      → without_asterisks (keep_unless env found c rest) ≡ without_asterisks (c ∷ cs)
  keep_unless_lem none c rest cs h e = rw e refl
  keep_unless_lem (some n) c rest cs (inl h) e = absurd (cc)
  keep_unless_lem (some n) c rest cs (inr h) e = rw h e

  abbrev found_at : ℕ → List ℕ → Option ℕ
  found_at c cs = if c == asterisk then italic_at env cs else none

  strip_italic-without :
      (inside : Option ℕ) (cs : List ℕ)
      → EndsAtAsterisk inside cs
      → without_asterisks (strip_italic env inside cs) ≡ without_asterisks cs
  unfolding strip_italic
  strip_italic-without inside [] h = refl
  strip_italic-without (some zero) (c ∷ cs) h =
      let e : (c == asterisk) ≡ true = ground arith in rw e (strip_italic-without none cs tt)
  strip_italic-without (some (suc n)) (c ∷ cs) h =
      ap (λ (l : List ℕ). if c == asterisk then l else c ∷ l) (strip_italic-without (some n) cs h)
  strip_italic-without none (c ∷ cs) h =
      keep_unless_lem (found_at c cs) c (strip_italic env (found_at c cs) cs) cs
        (elim (Bool-cases (c == asterisk)) [ inl e ↦ inr e | inr e ↦ inl (rw e refl) ])
        (strip_italic-without (found_at c cs) cs (
          if_cases (λ (o : Option ℕ). EndsAtAsterisk o cs) (c == asterisk)
            (λ _. italic_at-EndsAtAsterisk cs) (λ _. tt)))

  -- Where the replacement of bold text takes away asterisks only, so does the whole cleaning of
  -- marks: the other bytes stay, in their order.
  pub strip_markdown_from_json-without :
      (s : List ℕ)
      → ((x : List ℕ) → without_asterisks (env.strip_bold x) ≡ without_asterisks x)
      → without_asterisks (strip_markdown_from_json env s) ≡ without_asterisks s
  unfolding strip_markdown_from_json
  strip_markdown_from_json-without s bold = strip_italic-without none (env.strip_bold s) tt ∙ bold s
