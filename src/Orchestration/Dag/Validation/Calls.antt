-- ===== src/Orchestration/Dag/Validation/Calls.antt =====
-- The calls of `hasCycleDFS` for every node, with enough depth for any graph.
use gomind.Base.{
  ℕ, zero, suc, ◌<◌, ◌≡◌, refl, inl, inr, false, some, List, [], ◌∷◌, String, arith, ap, subst,
  Bool-cases, All,
}
use gomind.Orchestration.Dag.{DagNode, contains, lookup}
use gomind.Orchestration.Dag.Names.{In, contains→In, In→contains, lookup-In, All-In, All-of_In}
use gomind.Orchestration.Dag.Ready.{IsNode}
use gomind.Orchestration.Dag.Marks.{dependents_of}
use gomind.Orchestration.Dag.Levels.{count_left, count_left-new}
use gomind.Orchestration.Dag.Validation.{
  Search, clear, enter, leave, check_dependents, check_node, has_cycle_dfs, search_new, search_from,
}
use gomind.Orchestration.Dag.Validation.Walks.{Edge, Reach, stay}
use gomind.Orchestration.Dag.Validation.Searching.{
  Inv, Ends, Ends-bind, Ends-mono, Later-refl, Later-trans, Visits, Went, Leads,
  check_dependents-Ends, Inv-enter, Inv-leave, Later-leave,
}

-- The dependents of every node are nodes.
abbrev pub HasLinks : List (String × DagNode) → Type 0
HasLinks nodes =
    (k : String) (n : DagNode) → lookup k nodes ≡ some n → All (IsNode nodes) n.dependents

module _ (nodes : List (String × DagNode)) (links : HasLinks nodes) where
  edges_of :
      (id : String) (n : DagNode)
      → lookup id nodes ≡ some n
      → All (λ x. Edge nodes id x × IsNode nodes x) n.dependents
  unfolding dependents_of
  edges_of id n here =
      All-of_In (λ x. Edge nodes id x × IsNode nodes x) n.dependents
        (λ x i. (rw here i, All-In (IsNode nodes) n.dependents x (links id n here) i))

  enter-count_left :
      (id : String) (n : DagNode) (s : Search)
      → lookup id nodes ≡ some n
      → contains s.visited id ≡ false
      → count_left (enter id s).visited nodes < count_left s.visited nodes
  unfolding enter
  enter-count_left id n s here new =
      count_left-new s.visited (id ∷ []) id n nodes (lookup-In id nodes n here)
        (λ i. let b = In→contains s.visited id i in cc) (inl refl)

  Leads-enter :
      (k : String) (s : Search)
      → ((y : String) → In y s.rec_stack → Reach nodes y k)
      → Leads nodes k (enter k s)
  unfolding enter
  Leads-enter k s leads y i = elim i [
    | inl same ↦ subst (λ z. Reach nodes z k) same stay
    | inr below ↦ leads y below
  ]

  edges_done :
      (k : String) (n : DagNode) (d : List String)
      → lookup k nodes ≡ some n
      → ((y : String) → In y n.dependents → In y d)
      → (y : String) → Edge nodes k y
      → In y d
  unfolding dependents_of
  edges_done k n d here all y = rw here (all y)

  has_cycle_dfs-Visits : (depth : ℕ) → Visits nodes depth (has_cycle_dfs depth nodes)
  unfolding has_cycle_dfs check_node
  has_cycle_dfs-Visits zero k s done node new enough leads inv = absurd (omega arith)
  has_cycle_dfs-Visits (suc depth) k s done (n, here) new enough leads inv =
      let fewer = enter-count_left k n s here new in
      let calls =
        check_dependents-Ends nodes depth (has_cycle_dfs depth nodes) (has_cycle_dfs-Visits depth) k
          n.dependents (enter k s) done (edges_of k n here) (omega (arith, fewer))
          (Leads-enter k s leads) (Inv-enter nodes k s done inv) in
      rw here (
        Ends-bind nodes (Went nodes (enter k s) done (λ y. In y n.dependents))
          (Went nodes s done (λ y. k ≡ y))
          (check_dependents (has_cycle_dfs depth nodes) n.dependents (enter k s))
          (λ t. clear (leave k t)) calls
          (λ t (d, l, inv', all). (
            k ∷ d,
            Later-leave nodes k s t done d (omega (arith, fewer)) l,
            Inv-leave nodes k t d inv' (edges_done k n d here all),
            λ y same. inl same,
          )))

  search_new-Ends :
      (depth : ℕ) (k : String) (s : Search) (done : List String)
      → IsNode nodes k
      → count_left s.visited nodes < depth
      → ((y : String) → ¬ In y s.rec_stack)
      → Inv nodes s done
      → Ends nodes
          (Went nodes s done (λ y. k ≡ y))
          (search_new depth nodes k s (contains s.visited k))
  unfolding search_new
  search_new-Ends depth k s done node enough idle inv = elim (Bool-cases (contains s.visited k)) [
    | inr new ↦
        rw new (has_cycle_dfs-Visits depth k s done node new enough (λ y i. absurd (idle y i)) inv)
    | inl old ↦ rw old (
      done,
      Later-refl nodes s done,
      inv,
      λ y same.
          subst (λ z. In z done) same
            (elim (inv.covered k (contains→In s.visited k old)) [
              | inl j ↦ j
              | inr on ↦ absurd (idle k on)
            ]),
    )
  ]

  pub search_from-Ends :
      (depth : ℕ) (part : List (String × DagNode)) (s : Search) (done : List String)
      → ((k : String) (n : DagNode) → In (k, n) part → IsNode nodes k)
      → count_left s.visited nodes < depth
      → ((y : String) → ¬ In y s.rec_stack)
      → Inv nodes s done
      → Ends nodes
          (Went nodes s done (λ y. (n : DagNode) × In (y, n) part))
          (search_from depth nodes part s)
  unfolding search_from
  search_from-Ends depth [] s done there enough idle inv =
      (done, Later-refl nodes s done, inv, λ y (n, i). absurd i)
  search_from-Ends depth ((k, n) ∷ part) s done there enough idle inv =
      Ends-bind nodes (Went nodes s done (λ y. k ≡ y))
        (Went nodes s done (λ y. (m : DagNode) × In (y, m) ((k, n) ∷ part)))
        (search_new depth nodes k s (contains s.visited k)) (search_from depth nodes part)
        (search_new-Ends depth k s done (there k n (inl refl)) enough idle inv)
        (λ t (d, l, inv', found).
          Ends-mono nodes (Went nodes t d (λ y. (m : DagNode) × In (y, m) part))
            (Went nodes s done (λ y. (m : DagNode) × In (y, m) ((k, n) ∷ part)))
            (search_from depth nodes part t)
            (λ u (d', l', inv'', all). (
              d',
              Later-trans nodes s t u done d d' l l',
              inv'',
              λ y (m, i). elim i [
                | inl e ↦ l'.kept y (found y (ap (λ (x : String × DagNode). x.0) e))
                | inr i ↦ all y (m, i)
              ],
            ))
            (search_from-Ends depth part t d (λ j m i. there j m (inr i)) (omega (arith, l.fewer))
              (λ y i. idle y (l.unstacked y i)) inv'))
