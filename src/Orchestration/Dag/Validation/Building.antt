-- ===== src/Orchestration/Dag/Validation/Building.antt =====
-- Graphs that `AddNode` has built: their dependents mirror their dependencies.
use gomind.Base.{
  ◌≡◌, refl, inl, inr, ◌↔◌, true, List, [], ◌∷◌, String, arith, ap, sym, subst, Bool-cases,
  Option-cases, ◌&&◌,
}
use text.Mathlib.Text.{◌==◌}
use text.Mathlib.TextEquality.{eq_iff}
use gomind.Orchestration.Dag.{DagNode, WorkflowDag, contains, lookup, put_node, add_node, is_there}
use gomind.Orchestration.Dag.Names.{In, contains→In, In→contains, All-of_In}
use gomind.Orchestration.Dag.Marks.{dependents_of}
use gomind.Orchestration.Dag.Ready.{IsNode}
use gomind.Orchestration.Dag.Validation.Walks.{Edge}
use gomind.Orchestration.Dag.Validation.Calls.{HasLinks}
use gomind.Orchestration.Dag.Validation.Deciding.{In-lookup}
use gomind.Orchestration.Dag.Validation.Links.{
  has_dependent, depends, IsLinked, rebuild_dependents-IsLinked,
}

-- A node `b` of the graph names the node `a` among its dependencies.
abbrev pub DependsOn : List (String × DagNode) → String → String → Type 0
DependsOn nodes b a = IsNode nodes a × ((n : DagNode) × In (b, n) nodes × In a n.dependencies)

pub depends-In :
    (nodes : List (String × DagNode)) (a b : String)
    → depends nodes a b ≡ true
    → (n : DagNode) × In (b, n) nodes × In a n.dependencies
unfolding depends
depends-In [] a b h = cc
depends-In ((k, n) ∷ nodes) a b h = elim (Bool-cases ((k == b) && contains n.dependencies a)) [
  | inl found ↦
      let same = (eq_iff k b).0 (ground arith) in
      (n, inl (ap (λ (x : String). (x, n)) same), contains→In n.dependencies a (ground arith))
  | inr missed ↦ let (m, i, d) = depends-In nodes a b (ground arith) in (m, inr i, d)
]

pub In-depends :
    (nodes : List (String × DagNode)) (a b : String) (n : DagNode)
    → In (b, n) nodes
    → In a n.dependencies
    → depends nodes a b ≡ true
unfolding depends
In-depends [] a b n i d = absurd i
In-depends ((k, m) ∷ nodes) a b n (inl e) d =
    let named = (eq_iff k b).1 (ap (λ (x : String × DagNode). x.0) e) in
    let same : m ≡ n = ap (λ (x : String × DagNode). x.1) e in
    let listed : contains m.dependencies a ≡ true =
      subst (λ (z : DagNode). contains z.dependencies a ≡ true) (sym same)
        (In→contains n.dependencies a d) in
    ground arith
In-depends ((k, m) ∷ nodes) a b n (inr i) d = ground (arith, In-depends nodes a b n i d)

pub is_there-IsNode :
    (nodes : List (String × DagNode)) (k : String)
    → is_there (lookup k nodes) ≡ true
    → IsNode nodes k
is_there-IsNode nodes k = elim (Option-cases (lookup k nodes)) [
  | inl e ↦ rw e (λ h. absurd (cc))
  | inr there ↦ λ h. there
]

pub IsLinked-iff :
    (nodes : List (String × DagNode)) (a b : String)
    → IsLinked nodes
    → Edge nodes a b ↔ DependsOn nodes b a
unfolding has_dependent
IsLinked-iff nodes a b linked = (
  λ e.
      let h = In→contains (dependents_of nodes a) b e in
      let l = linked a b in
      (is_there-IsNode nodes a (ground arith), depends-In nodes a b (ground arith)),
  λ ((m, there), (n, i, d)).
      let h = In-depends nodes a b n i d in
      let l = linked a b in
      let known : is_there (lookup a nodes) ≡ true = rw there refl in
      contains→In (dependents_of nodes a) b (ground arith),
)

-- However a graph looks, after `AddNode` the dependents of each node are exactly the nodes that
-- name it among their dependencies: those of nodes added earlier and later, and none of a
-- dependency that was replaced.
pub add_node-DependsOn :
    (d : WorkflowDag) (id : String) (dependencies : List String) (a b : String)
    → Edge (add_node d id dependencies).nodes a b ↔ DependsOn (add_node d id dependencies).nodes b a
unfolding add_node
add_node-DependsOn d id dependencies a b =
    IsLinked-iff (add_node d id dependencies).nodes a b
      (rebuild_dependents-IsLinked (put_node id dependencies d.nodes))

-- So every dependent is a node.
pub IsLinked-HasLinks : (nodes : List (String × DagNode)) → IsLinked nodes → HasLinks nodes
unfolding dependents_of
IsLinked-HasLinks nodes linked k n here = All-of_In (IsNode nodes) n.dependents (λ x i.
    let (m, j, d) = ((IsLinked-iff nodes k x linked).0 (rw here i)).1 in In-lookup x m nodes j)

pub add_node-IsLinked :
    (d : WorkflowDag) (id : String) (dependencies : List String)
    → IsLinked (add_node d id dependencies).nodes
unfolding add_node
add_node-IsLinked d id dependencies = rebuild_dependents-IsLinked (put_node id dependencies d.nodes)
