-- ===== src/Orchestration/Dag/Marks.antt =====
-- What the change of one node's status does to the nodes that wait and to the dependents.
use gomind.Base.{
  ◌≤◌, ◌<◌, ◌≡◌, refl, inl, inr, Bool, true, false, Option, none, some, List, [], ◌∷◌, String,
  arith, Bool-cases, All,
}
use text.Mathlib.Text.{◌==◌}
use text.Mathlib.TextEquality.{eq_iff}
use gomind.Orchestration.Dag.{
  DagNode, NodeStatus, lookup, update, with_status, is_pending, is_pending_node, node_skipped,
  count_pending,
}

-- The node of this name is pending; false where there is none.
unfoldable pub waits : List (String × DagNode) → String → Bool
unfolding lookup
waits nodes k = is_pending_node (lookup k nodes)

abbrev pub dependents_in : Option DagNode → List String
dependents_in none = []
dependents_in (some n) = n.dependents

unfoldable pub dependents_of : List (String × DagNode) → String → List String
unfolding lookup
dependents_of nodes k = dependents_in (lookup k nodes)

abbrev pub NoneWaits : List (String × DagNode) → List String → Type 0
NoneWaits nodes ks = All (λ (k : String). waits nodes k ≡ false) ks

abbrev pub skip : String → List (String × DagNode) → List (String × DagNode)
skip k nodes = update k (with_status node_skipped) nodes

pub dependents_of-update :
    (k : String) (s : NodeStatus) (nodes : List (String × DagNode)) (j : String)
    → dependents_of (update k (with_status s) nodes) j ≡ dependents_of nodes j
unfolding dependents_of update lookup
dependents_of-update k s [] j = refl
dependents_of-update k s ((i, n) ∷ nodes) j = ground (arith, dependents_of-update k s nodes j)

-- A change to a status that is not pending makes no node wait.
pub waits-update :
    (k : String) (s : NodeStatus) (nodes : List (String × DagNode)) (j : String)
    → is_pending s ≡ false
    → waits nodes j ≡ false
    → waits (update k (with_status s) nodes) j ≡ false
unfolding waits update lookup
waits-update k s [] j h w = refl
waits-update k s ((i, n) ∷ nodes) j h w = ground (arith, waits-update k s nodes j h)

pub waits-update_self :
    (k : String) (s : NodeStatus) (nodes : List (String × DagNode))
    → is_pending s ≡ false
    → waits (update k (with_status s) nodes) k ≡ false
unfolding waits update lookup
waits-update_self k s [] h = refl
waits-update_self k s ((i, n) ∷ nodes) h = ground (arith, waits-update_self k s nodes h)

pub waits-update_other :
    (k : String) (s : NodeStatus) (nodes : List (String × DagNode)) (j : String)
    → waits nodes j ≡ true
    → waits (update k (with_status s) nodes) j ≡ false
    → k ≡ j
unfolding waits update lookup
waits-update_other k s [] j w h = cc
waits-update_other k s ((i, n) ∷ nodes) j w h = elim (Bool-cases (i == k)) [
  | inl e ↦ elim (Bool-cases (i == j)) [
    | inl f ↦ let a = (eq_iff i k).0 e in let b = (eq_iff i j).0 f in cc
    | inr f ↦ absurd (ground arith)
  ]
  | inr e ↦ elim (Bool-cases (i == j)) [
    | inl f ↦ absurd (ground arith)
    | inr f ↦ waits-update_other k s nodes j (ground arith) (ground arith)
  ]
]

pub count_pending-update :
    (k : String) (s : NodeStatus) (nodes : List (String × DagNode))
    → is_pending s ≡ false
    → count_pending (update k (with_status s) nodes) ≤ count_pending nodes
unfolding count_pending update
count_pending-update k s [] h = omega arith
count_pending-update k s ((i, n) ∷ nodes) h = ground (arith, count_pending-update k s nodes h)

pub count_pending-skip :
    (k : String) (nodes : List (String × DagNode))
    → waits nodes k ≡ true
    → count_pending (skip k nodes) < count_pending nodes
unfolding count_pending update waits lookup
count_pending-skip k [] w = cc
count_pending-skip k ((i, n) ∷ nodes) w = ground (arith, count_pending-skip k nodes)
