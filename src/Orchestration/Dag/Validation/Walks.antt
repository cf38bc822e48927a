-- ===== src/Orchestration/Dag/Validation/Walks.antt =====
-- Walks along the dependents, and the lists that no walk leads around in.
use gomind.Base.{inl, inr, List, [], ◌∷◌, String, subst, sym}
use gomind.Orchestration.Dag.{DagNode}
use gomind.Orchestration.Dag.Names.{In}
use gomind.Orchestration.Dag.Marks.{dependents_of}

module _ (nodes : List (String × DagNode)) where
  abbrev pub Edge : String → String → Type 0
  Edge a b = In b (dependents_of nodes a)

  pub data Reach (a : String) : String → Type 0 where
    stay : Reach a a
    step : {b c : String} → Reach a b → Edge b c → Reach a c

  -- A node from which one of its dependents leads back to it.
  pub record HasCycle : Type 0 where
    pub node : String
    pub dependent : String
    pub edge : Edge node dependent
    pub back : Reach dependent node

  -- Every dependent of a name of the list stands behind it in the list.
  abbrev pub IsOrdered : List String → Type 0
  IsOrdered [] = Unit
  IsOrdered (x ∷ xs) = ((y : String) → Edge x y → In y xs) × IsOrdered xs

  pub IsOrdered-Edge :
      (xs : List String) (a b : String) → IsOrdered xs → In a xs → Edge a b → In b xs
  IsOrdered-Edge [] a b o i e = elim i [ ]
  IsOrdered-Edge (x ∷ xs) a b (first, o) (inl same) e =
      inr (first b (subst (λ z. Edge z b) (sym same) e))
  IsOrdered-Edge (x ∷ xs) a b (first, o) (inr i) e = inr (IsOrdered-Edge xs a b o i e)

  IsOrdered-Reach : (xs : List String) (a b : String) → IsOrdered xs → In a xs → Reach a b → In b xs
  IsOrdered-Reach xs a _ o i stay = i
  IsOrdered-Reach xs a _ o i (step {b} {c} r e) =
      IsOrdered-Edge xs b c o (IsOrdered-Reach xs a b o i r) e

  pub IsOrdered-acyclic :
      (xs : List String) (a b : String) → IsOrdered xs → In a xs → Edge a b → ¬ Reach b a
  IsOrdered-acyclic [] a b o i e r = elim i [ ]
  IsOrdered-acyclic (x ∷ xs) a b (first, o) (inl same) e r =
      let later = first b (subst (λ z. Edge z b) (sym same) e) in
      IsOrdered-acyclic xs a b o (IsOrdered-Reach xs b a o later r) e r
  IsOrdered-acyclic (x ∷ xs) a b (first, o) (inr i) e r = IsOrdered-acyclic xs a b o i e r
