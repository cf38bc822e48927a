-- ===== src/Orchestration/Dag/Ready.antt =====
-- `GetReadyNodes`: the nodes it returns are those that may run.
use gomind.Base.{
  ◌≡◌, refl, inl, inr, ◌↔◌, Bool, true, false, Option, none, some, List, [], ◌∷◌, String, ap, sym,
  subst, Bool-cases, All, if◌then◌else◌,
}
use gomind.Orchestration.Dag.{
  DagNode, WorkflowDag, lookup, is_settled, is_pending, dependencies_complete, ready_among,
  get_ready_nodes,
}
use gomind.Orchestration.Dag.Names.{In}

-- A name that is a node of the graph, which is what `Validate` asks of each dependency.
abbrev pub IsNode : List (String × DagNode) → String → Type 0
IsNode nodes dep = (m : DagNode) × (lookup dep nodes ≡ some m)

abbrev pub IsSettled : List (String × DagNode) → String → Type 0
IsSettled nodes dep = (m : DagNode) × (lookup dep nodes ≡ some m) × (is_settled m.status ≡ true)

-- A pending node, all of whose dependencies are completed or skipped.
abbrev pub MayRun : List (String × DagNode) → List (String × DagNode) → String → Type 0
MayRun nodes part k =
    (n : DagNode) × In (k, n) part
    × (is_pending n.status ≡ true)
    × All (IsSettled nodes) n.dependencies

abbrev pub HasClosedEdges : List (String × DagNode) → String × DagNode → Type 0
HasClosedEdges nodes e = All (IsNode nodes) e.1.dependencies

abbrev holds_settled : Option DagNode → Bool
holds_settled none = true
holds_settled (some n) = is_settled n.status

settled_first :
    (nodes : List (String × DagNode)) (dep : String) (m : DagNode)
    → lookup dep nodes ≡ some m
    → IsSettled nodes dep
    → is_settled m.status ≡ true
settled_first nodes dep m here (n, there, s) =
    let same : some n ≡ some m = cc in subst (λ o. holds_settled o ≡ true) same s

dependencies_complete_iff :
    (nodes : List (String × DagNode)) (deps : List String)
    → All (IsNode nodes) deps
    → (b : Bool) × (dependencies_complete deps nodes ≡ some b)
      × ((b ≡ true) ↔ All (IsSettled nodes) deps)
unfolding dependencies_complete
dependencies_complete_iff nodes [] closed = (true, refl, ((λ _. tt), (λ _. refl)))
dependencies_complete_iff nodes (dep ∷ deps) ((m, here), closed) =
    let (b, e, iff) = dependencies_complete_iff nodes deps closed in
    elim (Bool-cases (is_settled m.status)) [
      | inl s ↦ (b, rw (here, s, e), ((λ t. ((m, here, s), iff.0 t)), (λ a. iff.1 a.1)))
      | inr s ↦ (
        false,
        rw (here, s),
        ((λ t. absurd (cc)), (λ a. let s' = settled_first nodes dep m here a.0 in cc)),
      )
    ]

-- What one node adds to the answer for the nodes after it.
node_complete :
    (nodes : List (String × DagNode)) (n : DagNode)
    → All (IsNode nodes) n.dependencies
    → (b : Bool) × ((if is_pending n.status
          then dependencies_complete n.dependencies nodes
          else some false)
        ≡ some b)
      × ((b ≡ true) ↔ ((is_pending n.status ≡ true) × All (IsSettled nodes) n.dependencies))
node_complete nodes n closed = elim (Bool-cases (is_pending n.status)) [
  | inl p ↦
      let (b, e, iff) = dependencies_complete_iff nodes n.dependencies closed in
      (b, rw (p, e), ((λ t. (p, iff.0 t)), (λ a. iff.1 a.1)))
  | inr p ↦ (false, rw p, ((λ t. absurd (cc)), (λ a. cc)))
]

abbrev AreReady : List (String × DagNode) → List (String × DagNode) → List String → Type 0
AreReady nodes part ks = (k : String) → In k ks ↔ MayRun nodes part k

AreReady-cons :
    (nodes part : List (String × DagNode)) (k : String) (n : DagNode) (ks : List String) (b : Bool)
    → ((b ≡ true) ↔ ((is_pending n.status ≡ true) × All (IsSettled nodes) n.dependencies))
    → AreReady nodes part ks
    → AreReady nodes ((k, n) ∷ part) (if b then k ∷ ks else ks)
AreReady-cons nodes part k n ks true iff later j = (
  λ i. elim i [
    | inl e ↦ let (p, deps) = iff.0 refl in (n, inl (ap (λ (x : String). (x, n)) e), p, deps)
    | inr i ↦ let (m, here, p, deps) = (later j).0 i in (m, inr here, p, deps)
  ],
  λ r. elim r.1 [
    | inl e ↦ inl (ap (λ (x : String × DagNode). x.0) e)
    | inr i ↦ inr ((later j).1 (r.0, i, r.2, r.3))
  ],
)
AreReady-cons nodes part k n ks false iff later j = (
  λ i. let (m, here, p, deps) = (later j).0 i in (m, inr here, p, deps),
  λ r. elim r.1 [
    | inl e ↦
        let same : n ≡ r.0 = ap (λ (x : String × DagNode). x.1) e in
        let wrong : false ≡ true = iff.1 (
          subst
            (λ (m : DagNode). (is_pending m.status ≡ true) × All (IsSettled nodes) m.dependencies)
            (sym same) (r.2, r.3)) in
        absurd (cc)
    | inr i ↦ (later j).1 (r.0, i, r.2, r.3)
  ],
)

ready_among_iff :
    (nodes part : List (String × DagNode))
    → All (HasClosedEdges nodes) part
    → (ks : List String) × (ready_among nodes part ≡ some ks) × AreReady nodes part ks
unfolding ready_among
ready_among_iff nodes [] closed = ([], refl, λ k. ((λ i. absurd i), (λ r. absurd r.1)))
ready_among_iff nodes ((k, n) ∷ part) (edges, closed) =
    let (b, e, iff) = node_complete nodes n edges in
    let (ks, later, ready) = ready_among_iff nodes part closed in
    (if b then k ∷ ks else ks, rw (e, later), AreReady-cons nodes part k n ks b iff ready)

-- Where every dependency is a node of the graph, as `Validate` demands, `GetReadyNodes` returns, and
-- what it returns are exactly the pending nodes all of whose dependencies are completed or skipped.
pub get_ready_nodes_iff :
    (d : WorkflowDag)
    → All (HasClosedEdges d.nodes) d.nodes
    → (ks : List String) × (get_ready_nodes d ≡ some ks)
      × ((k : String) → In k ks ↔ MayRun d.nodes d.nodes k)
unfolding get_ready_nodes
get_ready_nodes_iff d closed = ready_among_iff d.nodes d.nodes closed
