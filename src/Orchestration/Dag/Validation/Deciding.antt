-- ===== src/Orchestration/Dag/Validation/Deciding.antt =====
-- `Validate`: the graphs that it accepts, and why it rejects the others.
use gomind.Base.{
  suc, refl, inl, inr, Option, none, some, List, [], ◌∷◌, String, arith, ap, Bool-cases,
  Option-cases, All, length,
}
use text.Mathlib.Text.{◌==◌}
use text.Mathlib.TextEquality.{eq_iff}
use gomind.Orchestration.Dag.{DagNode, lookup, WorkflowDag}
use gomind.Orchestration.Dag.Names.{In, lookup-In}
use gomind.Orchestration.Dag.Ready.{IsNode, HasClosedEdges}
use gomind.Orchestration.Dag.Marks.{dependents_of}
use gomind.Orchestration.Dag.Levels.{count_left-length}
use gomind.Orchestration.Dag.Validation.{
  Dfs, cycle_found, clear, missing_node, out_of_fuel, search_from, Verdict, valid, circular,
  non_existent, verdict_panics, verdict_out_of_fuel, missing_among, check_dependencies, or_missing,
  verdict_of, unsearched, validate,
}
use gomind.Orchestration.Dag.Validation.Walks.{Edge, Reach, HasCycle, IsOrdered, IsOrdered-acyclic}
use gomind.Orchestration.Dag.Validation.Searching.{Ends, Ends-mono, Went}
use gomind.Orchestration.Dag.Validation.Calls.{HasLinks, search_from-Ends}

-- No dependent of a node leads back to it.
abbrev pub IsAcyclic : List (String × DagNode) → Type 0
IsAcyclic nodes = (a b : String) → Edge nodes a b → ¬ Reach nodes b a

-- The names of all nodes in an order in which every dependent of a name stands behind it.
abbrev pub HasOrder : List (String × DagNode) → Type 0
HasOrder nodes =
    (order : List String) × IsOrdered nodes order
    × ((k : String) (n : DagNode) → In (k, n) nodes → In k order)

-- What a verdict says of the graph.
abbrev pub IsRight : List (String × DagNode) → Verdict → Type 0
IsRight nodes valid = IsAcyclic nodes × HasOrder nodes × All (HasClosedEdges nodes) nodes
IsRight nodes circular = HasCycle nodes
IsRight nodes (non_existent k dep) =
    IsAcyclic nodes × ((n : DagNode) × In (k, n) nodes × In dep n.dependencies) × ¬ IsNode nodes dep
IsRight nodes verdict_panics = ⊥
IsRight nodes verdict_out_of_fuel = ⊥

-- What the search for a dependency that is no node finds.
abbrev IsMissing : List (String × DagNode) → List String → Option String → Type 0
IsMissing nodes deps none = All (IsNode nodes) deps
IsMissing nodes deps (some dep) = In dep deps × ¬ IsNode nodes dep

missing_among-IsMissing :
    (nodes : List (String × DagNode)) (deps : List String)
    → IsMissing nodes deps (missing_among nodes deps)
unfolding missing_among
missing_among-IsMissing nodes [] = tt
missing_among-IsMissing nodes (dep ∷ deps) = elim (Option-cases (lookup dep nodes)) [
  | inl absent ↦ rw absent (inl refl, λ (n, e). absurd (cc))
  | inr (n, there) ↦
      rw there
        (missing-later (missing_among nodes deps) (n, there) (missing_among-IsMissing nodes deps))
]
  where
    missing-later :
        (o : Option String)
        → IsNode nodes dep
        → IsMissing nodes deps o
        → IsMissing nodes (dep ∷ deps) o
    missing-later none node h = (node, h)
    missing-later (some x) node (i, h) = (inr i, h)

-- What the second loop finds in a part of the map.
abbrev IsFound : List (String × DagNode) → List (String × DagNode) → Verdict → Type 0
IsFound nodes part valid = All (HasClosedEdges nodes) part
IsFound nodes part (non_existent k dep) =
    ((n : DagNode) × In (k, n) part × In dep n.dependencies) × ¬ IsNode nodes dep
IsFound nodes part _ = ⊥

IsFound-cons :
    (nodes part : List (String × DagNode)) (k : String) (n : DagNode) (o : Option String)
    (v : Verdict)
    → IsMissing nodes n.dependencies o
    → IsFound nodes part v
    → IsFound nodes ((k, n) ∷ part) (or_missing k o v)
IsFound-cons nodes part k n (some dep) v (i, absent) h = ((n, inl refl, i), absent)
IsFound-cons nodes part k n none valid closed h = (closed, h)
IsFound-cons nodes part k n none (non_existent j dep) closed ((m, i, d), absent) =
    ((m, inr i, d), absent)
IsFound-cons nodes part k n none circular closed h = absurd h
IsFound-cons nodes part k n none verdict_panics closed h = absurd h
IsFound-cons nodes part k n none verdict_out_of_fuel closed h = absurd h

check_dependencies-IsFound :
    (nodes part : List (String × DagNode)) → IsFound nodes part (check_dependencies nodes part)
unfolding check_dependencies
check_dependencies-IsFound nodes [] = tt
check_dependencies-IsFound nodes ((k, n) ∷ part) =
    IsFound-cons nodes part k n (missing_among nodes n.dependencies) (check_dependencies nodes part)
      (missing_among-IsMissing nodes n.dependencies) (check_dependencies-IsFound nodes part)

IsFound-IsRight :
    (nodes : List (String × DagNode)) (v : Verdict)
    → IsAcyclic nodes × HasOrder nodes
    → IsFound nodes nodes v
    → IsRight nodes v
IsFound-IsRight nodes valid (acyclic, ordered) h = (acyclic, ordered, h)
IsFound-IsRight nodes (non_existent k dep) (acyclic, ordered) (named, absent) =
    (acyclic, named, absent)
IsFound-IsRight nodes circular acyclic h = absurd h
IsFound-IsRight nodes verdict_panics acyclic h = absurd h
IsFound-IsRight nodes verdict_out_of_fuel acyclic h = absurd h

verdict_of-IsRight :
    (nodes : List (String × DagNode)) (r : Dfs) (v : Verdict)
    → Ends nodes (λ _. IsAcyclic nodes × HasOrder nodes) r
    → IsFound nodes nodes v
    → IsRight nodes (verdict_of r v)
verdict_of-IsRight nodes (clear s) v acyclic h = IsFound-IsRight nodes v acyclic h
verdict_of-IsRight nodes cycle_found v cycle h = cycle
verdict_of-IsRight nodes missing_node v wrong h = absurd wrong
verdict_of-IsRight nodes out_of_fuel v wrong h = absurd wrong

pub In-lookup :
    (k : String) (n : DagNode) (nodes : List (String × DagNode)) → In (k, n) nodes → IsNode nodes k
unfolding lookup
In-lookup k n [] i = absurd i
In-lookup k n ((j, m) ∷ nodes) i = elim (Bool-cases (j == k)) [
  | inl b ↦ (m, rw b refl)
  | inr b ↦ elim i [
    | inl e ↦
        let same = ap (λ (x : String × DagNode). x.0) e in
        let b' = (eq_iff j k).1 same in absurd (cc)
    | inr later ↦ let (p, there) = In-lookup k n nodes later in (p, rw b there)
  ]
]

Edge-node :
    (nodes : List (String × DagNode)) (a b : String)
    → Edge nodes a b
    → (n : DagNode) × In (a, n) nodes
unfolding dependents_of
Edge-node nodes a b = elim (Option-cases (lookup a nodes)) [
  | inl none' ↦ rw none' (λ e. absurd e)
  | inr (n, there) ↦ λ e. (n, lookup-In a nodes n there)
]

unsearched-Ends :
    (nodes : List (String × DagNode))
    → HasLinks nodes
    → Ends nodes
        (λ _. IsAcyclic nodes × HasOrder nodes)
        (search_from (suc (length nodes)) nodes nodes unsearched)
unsearched-Ends nodes links =
    let bound = count_left-length [] nodes in
    Ends-mono nodes (Went nodes unsearched [] (λ y. (n : DagNode) × In (y, n) nodes))
      (λ _. IsAcyclic nodes × HasOrder nodes)
      (search_from (suc (length nodes)) nodes nodes unsearched)
      (λ t (d, l, inv, all). (
        λ a b e r. IsOrdered-acyclic nodes d a b inv.ordered (all a (Edge-node nodes a b e)) e r,
        (d, inv.ordered, λ k n i. all k (n, i)),
      ))
      (search_from-Ends nodes links (suc (length nodes)) nodes unsearched []
        (λ k n i. In-lookup k n nodes i) (omega arith) (λ y i. absurd i)
        (record { ordered = tt; covered = λ y i. absurd i }))

-- Where every dependent is a node, `Validate` ends without a panic, and its verdict is right: it
-- accepts a graph only if it has no cycle, all its nodes can be put in an order in which every
-- dependent stands behind, and all its dependencies are nodes; it reports circular
-- dependencies only where there is a cycle; and where it names a node and a dependency that does not
-- exist, the graph has no cycle, and the node has that dependency, which is no node.
pub validate-IsRight : (d : WorkflowDag) → HasLinks d.nodes → IsRight d.nodes (validate d)
unfolding validate
validate-IsRight d links =
    verdict_of-IsRight d.nodes (search_from (suc (length d.nodes)) d.nodes d.nodes unsearched)
      (check_dependencies d.nodes d.nodes) (unsearched-Ends d.nodes links)
      (check_dependencies-IsFound d.nodes d.nodes)
