-- ===== src/Orchestration/Engine/Run/Counting.antt =====
-- How often a name stands in a list.
use gomind.Base.{
  ◌⊎◌, ℕ, ◌+◌, ◌≡◌, refl, List, [], ◌∷◌, ◌++◌, String, arith, Bool, if◌then◌else◌, inl, inr,
  Bool-cases, ◌<◌,
}
use text.Mathlib.Text.{◌==◌}
use text.Mathlib.TextEquality.{eq_iff}
use gomind.Orchestration.Dag.Names.{In}
use gomind.Orchestration.Engine.Run.{Message, succeeded, failed, panicked}

abbrev pub one_if : Bool → ℕ
one_if b = if b then 1 else 0

unfoldable pub count : String → List String → ℕ
count k [] = 0
count k (x ∷ xs) = one_if (x == k) + count k xs

abbrev pub answers_for : String → Message → ℕ
answers_for k (succeeded j) = one_if (j == k)
answers_for k (failed j) = one_if (j == k)
answers_for k panicked = 0

unfoldable pub count_results : String → List Message → ℕ
count_results k [] = 0
count_results k (m ∷ ms) = answers_for k m + count_results k ms

pub count-append : (k : String) (xs ys : List String) → count k (xs ++ ys) ≡ count k xs + count k ys
unfolding count
count-append k [] ys = omega arith
count-append k (x ∷ xs) ys = ground (arith, count-append k xs ys)

pub count_results-append :
    (k : String) (xs ys : List Message)
    → count_results k (xs ++ ys) ≡ count_results k xs + count_results k ys
unfolding count_results
count_results-append k [] ys = omega arith
count_results-append k (x ∷ xs) ys = ground (arith, count_results-append k xs ys)

-- A task taken out of the middle.
pub count-removed :
    (j k : String) (before after : List String)
    → count j (before ++ k ∷ after) ≡ one_if (k == j) + count j (before ++ after)
unfolding count
count-removed j k [] after = refl
count-removed j k (x ∷ before) after = omega (arith, count-removed j k before after)

pub In-count : (k : String) (xs : List String) → In k xs → 0 < count k xs
unfolding count
In-count k [] i = absurd i
In-count k (x ∷ xs) (inl e) = let b = (eq_iff x k).1 e in ground arith
In-count k (x ∷ xs) (inr i) = let b = In-count k xs i in omega arith

pub count-In : (k : String) (xs : List String) → 0 < count k xs → In k xs
unfolding count
count-In k [] h = absurd (omega arith)
count-In k (x ∷ xs) h = elim (Bool-cases (x == k)) [
  | inl b ↦ inl ((eq_iff x k).0 b)
  | inr b ↦ inr (count-In k xs (ground arith))
]

pub In-or_none : (k : String) (xs : List String) → In k xs ⊎ (count k xs ≡ 0)
unfolding count
In-or_none k [] = inr refl
In-or_none k (x ∷ xs) = elim (Bool-cases (x == k)) [
  | inl b ↦ inl (inl ((eq_iff x k).0 b))
  | inr b ↦ elim (In-or_none k xs) [ inl i ↦ inl (inr i) | inr e ↦ inr (ground arith) ]
]
