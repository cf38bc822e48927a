-- ===== src/Orchestration/Dag/Names.antt =====
-- Membership of names in lists, and what the code's searches decide.
use gomind.Base.{
  Option, some, subst, All, ◌≡◌, refl, subst, All, ◌⊎◌, inl, inr, true, List, [], ◌∷◌, ◌++◌, String,
  arith, Bool-cases,
}
use text.Mathlib.Text.{◌==◌}
use text.Mathlib.TextEquality.{eq_iff}
use gomind.Orchestration.Dag.{DagNode, lookup, contains}

abbrev pub In : {A : Type 0} → A → List A → Type 0
In x [] = ⊥
In x (y ∷ ys) = (y ≡ x) ⊎ In x ys

pub contains→In : (xs : List String) (x : String) → contains xs x ≡ true → In x xs
unfolding contains
contains→In [] x h = cc
contains→In (y ∷ ys) x h = elim (Bool-cases (y == x)) [
  | inl e ↦ inl ((eq_iff y x).0 e)
  | inr e ↦ inr (contains→In ys x (ground arith))
]

pub In→contains : (xs : List String) (x : String) → In x xs → contains xs x ≡ true
unfolding contains
In→contains [] x h = elim h [ ]
In→contains (y ∷ ys) x (inl e) = let b = (eq_iff y x).1 e in ground arith
In→contains (y ∷ ys) x (inr h) = let b = In→contains ys x h in ground arith

pub In-append_left : {A : Type 0} (x : A) (xs ys : List A) → In x xs → In x (xs ++ ys)
In-append_left x [] ys h = elim h [ ]
In-append_left x (z ∷ xs) ys (inl e) = inl e
In-append_left x (z ∷ xs) ys (inr h) = inr (In-append_left x xs ys h)

pub In-append_right : {A : Type 0} (x : A) (xs ys : List A) → In x ys → In x (xs ++ ys)
In-append_right x [] ys h = h
In-append_right x (z ∷ xs) ys h = inr (In-append_right x xs ys h)

pub In-append_cases :
    {A : Type 0} (x : A) (xs : List A) (y : A) → In x (xs ++ y ∷ []) → In x xs ⊎ (y ≡ x)
In-append_cases x [] y (inl e) = inr e
In-append_cases x [] y (inr i) = elim i [ ]
In-append_cases x (z ∷ xs) y (inl e) = inl (inl e)
In-append_cases x (z ∷ xs) y (inr i) = elim (In-append_cases x xs y i) [
  | inl j ↦ inl (inr j)
  | inr e ↦ inr e
]

pub All-In : {A : Type 0} (P : A → Type 0) (xs : List A) (x : A) → All P xs → In x xs → P x
All-In P [] x a i = absurd i
All-In P (y ∷ ys) x (p, a) (inl e) = subst P e p
All-In P (y ∷ ys) x (p, a) (inr i) = All-In P ys x a i

pub All-of_In : {A : Type 0} (P : A → Type 0) (xs : List A) → ((x : A) → In x xs → P x) → All P xs
All-of_In P [] f = tt
All-of_In P (x ∷ xs) f = (f x (inl refl), All-of_In P xs (λ y i. f y (inr i)))

pub lookup-In :
    (k : String) (nodes : List (String × DagNode)) (n : DagNode)
    → lookup k nodes ≡ some n
    → In (k, n) nodes
unfolding lookup
lookup-In k [] n = λ e. absurd (cc)
lookup-In k ((j, m) ∷ nodes) n = elim (Bool-cases (j == k)) [
  | inl b ↦
      let same = (eq_iff j k).0 b in
      rw b (λ (e : Path (Option DagNode) (some m) (some n)). let q : m ≡ n = cc in inl (cc))
  | inr b ↦ rw b (λ e. inr (lookup-In k nodes n e))
]
