-- ===== src/Orchestration/Engine/Run/Looking.antt =====
-- What the submitting loop sees of a graph: the nodes that are ready, by their statuses and edges.
use gomind.Base.{
  ◌≤◌, ◌<◌, ◌≡◌, refl, ◌↔◌, inl, inr, true, false, List, [], ◌∷◌, String, arith, Bool, Option, none,
  some, Bool-cases, Option-cases, if◌then◌else◌, subst, sym, ap, ◌∙◌, All,
}
use gomind.Base.Panic.{◌>>=◌}
use text.Mathlib.Text.{◌==◌}
use text.Mathlib.TextEquality.{eq_iff}
use gomind.Orchestration.Dag.{
  NodeStatus, node_pending, DagNode, contains, lookup, is_pending, dependencies_complete,
  ready_among, get_ready_nodes,
}
use gomind.Orchestration.Dag.Names.{In, All-In, All-of_In, lookup-In}
use gomind.Orchestration.Dag.Marks.{dependents_of}
use gomind.Orchestration.Dag.Ready.{IsNode, IsSettled, MayRun, HasClosedEdges, get_ready_nodes_iff}
use gomind.Orchestration.Dag.Validation.Walks.{Edge}
use gomind.Orchestration.Dag.Validation.Links.{has, has_dependent, depends, IsLinked}
use gomind.Orchestration.Dag.Validation.Building.{IsLinked-iff, In-depends, is_there-IsNode}
use gomind.Orchestration.Dag.Validation.Adding.{keys}
use gomind.Orchestration.Engine.Run.Counting.{count}
use gomind.Orchestration.Engine.Run.Statuses.{
  status_of, status_in, pends, pends_status, settles, SameShape,
}

-- A graph of a workflow: its dependents mirror its dependencies, which are nodes, and no name is
-- that of two nodes.
pub record IsPlan (nodes : List (String × DagNode)) : Type 0 where
  pub linked : IsLinked nodes
  pub closed : (a b : String) → depends nodes a b ≡ true → has nodes a ≡ true
  pub once : (k : String) → count k (keys nodes) ≤ 1

pub SameShape-IsPlan :
    (before after : List (String × DagNode)) → SameShape before after → IsPlan before → IsPlan after
unfolding has_dependent
SameShape-IsPlan before after s p = record {
  linked = λ a b.
      let same : contains (dependents_of after a) b ≡ contains (dependents_of before a) b =
        ap (λ l. contains l b) (s.same_dependents a) in
      ground (arith, same, p.linked a b, s.same_has a, s.same_depends a b);
  closed = λ a b h. s.same_has a ∙ p.closed a b (sym (s.same_depends a b) ∙ h);
  once = λ k. subst (λ l. count k l ≤ 1) (sym s.same_keys) (p.once k);
}

count-keys :
    (k : String) (n : DagNode) (nodes : List (String × DagNode))
    → In (k, n) nodes
    → 0 < count k (keys nodes)
unfolding keys count
count-keys k n [] i = absurd i
count-keys k n ((j, m) ∷ nodes) (inl e) =
    let b = (eq_iff j k).1 (ap (λ (x : String × DagNode). x.0) e) in ground arith
count-keys k n ((j, m) ∷ nodes) (inr i) = let b = count-keys k n nodes i in omega arith

pub entry_key :
    (k : String) (n : DagNode) (nodes : List (String × DagNode))
    → In (k, n) nodes
    → In k (keys nodes)
unfolding keys
entry_key k n [] i = i
entry_key k n ((j, m) ∷ nodes) (inl e) = inl (ap (λ (x : String × DagNode). x.0) e)
entry_key k n ((j, m) ∷ nodes) (inr i) = inr (entry_key k n nodes i)

pub key_entry :
    (k : String) (nodes : List (String × DagNode))
    → In k (keys nodes)
    → (n : DagNode) × In (k, n) nodes
unfolding keys
key_entry k [] i = absurd i
key_entry k ((j, m) ∷ nodes) (inl e) = (m, inl (ap (λ x. (x, m)) e))
key_entry k ((j, m) ∷ nodes) (inr i) = let (n, l) = key_entry k nodes i in (n, inr l)

pub In-lookup_once :
    (k : String) (n : DagNode) (nodes : List (String × DagNode))
    → count k (keys nodes) ≤ 1
    → In (k, n) nodes
    → lookup k nodes ≡ some n
unfolding keys count lookup
In-lookup_once k n [] one i = absurd i
In-lookup_once k n ((j, m) ∷ nodes) one (inl e) =
    let b = (eq_iff j k).1 (ap (λ (x : String × DagNode). x.0) e) in
    let same : m ≡ n = ap (λ (x : String × DagNode). x.1) e in rw b (ap some same)
In-lookup_once k n ((j, m) ∷ nodes) one (inr i) = elim (Bool-cases (j == k)) [
  | inl b ↦ let more = count-keys k n nodes i in absurd (ground arith)
  | inr b ↦ rw b (In-lookup_once k n nodes (ground arith) i)
]

abbrev AreFew : List (String × DagNode) → Option (List String) → Type 0
AreFew part none = Unit
AreFew part (some ks) = (k : String) → count k ks ≤ count k (keys part)

AreFew-cons :
    (part : List (String × DagNode)) (j : String) (n : DagNode) (b : Option Bool)
    (o : Option (List String))
    → AreFew part o
    → AreFew
        ((j, n) ∷ part)
        (b >>= λ complete. o >>= λ later. some (if complete then j ∷ later else later))
unfolding keys count
AreFew-cons part j n none o h = tt
AreFew-cons part j n (some b) none h = tt
AreFew-cons part j n (some true) (some ks) h = λ k. omega (arith, h k)
AreFew-cons part j n (some false) (some ks) h = λ k. omega (arith, h k)

ready_among-AreFew : (nodes part : List (String × DagNode)) → AreFew part (ready_among nodes part)
unfolding ready_among count
ready_among-AreFew nodes [] = λ k. omega arith
ready_among-AreFew nodes ((j, n) ∷ part) =
    AreFew-cons part j n
      (if is_pending n.status then dependencies_complete n.dependencies nodes else some false)
      (ready_among nodes part) (ready_among-AreFew nodes part)

-- All that the node depends on is completed or skipped.
abbrev pub IsFree : List (String × DagNode) → String → Type 0
IsFree nodes k = (a : String) → Edge nodes a k → settles (status_of nodes a) ≡ true

abbrev pub WaitsFree : List (String × DagNode) → String → Type 0
WaitsFree nodes k = (status_of nodes k ≡ some node_pending) × IsFree nodes k

abbrev dependencies_in : Option DagNode → List String
dependencies_in none = []
dependencies_in (some n) = n.dependencies

module _ (nodes : List (String × DagNode)) (p : IsPlan nodes) where
  IsPlan-closed : All (HasClosedEdges nodes) nodes
  IsPlan-closed = All-of_In (HasClosedEdges nodes) nodes (λ (k, n) i.
      All-of_In (IsNode nodes) n.dependencies
        (λ a l. is_there-IsNode nodes a (p.closed a k (In-depends nodes a k n i l))))

  settled_status : (a : String) → IsSettled nodes a → settles (status_of nodes a) ≡ true
  unfolding status_of
  settled_status a (m, there, s) = rw there s

  pub status-IsSettled : (a : String) → settles (status_of nodes a) ≡ true → IsSettled nodes a
  unfolding status_of
  status-IsSettled a = elim (Option-cases (lookup a nodes)) [
    | inl e ↦ rw e (λ h. absurd (cc))
    | inr (m, there) ↦ λ h. (m, there, subst (λ o. settles (status_in o) ≡ true) there h)
  ]

  pub MayRun-WaitsFree : (k : String) → MayRun nodes nodes k → WaitsFree nodes k
  unfolding status_of
  MayRun-WaitsFree k (n, i, pending, settled) =
      let there = In-lookup_once k n nodes (p.once k) i in
      (
        rw there (pends_status (some n.status) pending),
        λ a e.
            let (node, (m, j, l)) = (IsLinked-iff nodes a k p.linked).0 e in
            let there' = In-lookup_once k m nodes (p.once k) j in
            let same : Path (Option DagNode) (some n) (some m) = sym there ∙ there' in
            let listed : In a n.dependencies = subst (λ o. In a (dependencies_in o)) (sym same) l in
            settled_status a (All-In (IsSettled nodes) n.dependencies a settled listed),
      )

  WaitsFree-MayRun : (k : String) → WaitsFree nodes k → MayRun nodes nodes k
  unfolding status_of
  WaitsFree-MayRun k (waiting, free) = elim (Option-cases (lookup k nodes)) [
    | inl e ↦
        let wrong : Path (Option NodeStatus) none (some node_pending) =
          subst (λ o. status_in o ≡ some node_pending) e waiting in
        absurd (cc)
    | inr (n, there) ↦
        let now : Path (Option NodeStatus) (some n.status) (some node_pending) =
          subst (λ o. status_in o ≡ some node_pending) there waiting in
        let i = lookup-In k nodes n there in
        (
          n,
          i,
          subst (λ o. pends o ≡ true) (sym now) refl,
          All-of_In (IsSettled nodes) n.dependencies (λ a l.
              let h = In-depends nodes a k n i l in
              status-IsSettled a (
                free a (
                  (IsLinked-iff nodes a k p.linked).1
                    (is_there-IsNode nodes a (p.closed a k h), (n, i, l))))),
        )
  ]

  -- What `GetReadyNodes` returns: the nodes that wait for nothing, each of them once.
  pub get_ready_nodes-WaitsFree :
      (ks : List String) × (get_ready_nodes (record { nodes = nodes }) ≡ some ks)
      × ((k : String) → In k ks ↔ WaitsFree nodes k)
      × ((k : String) → count k ks ≤ 1)
  unfolding get_ready_nodes
  get_ready_nodes-WaitsFree =
      let (ks, e, iff) = get_ready_nodes_iff (record { nodes = nodes }) IsPlan-closed in
      let few : AreFew nodes (some ks) = subst (AreFew nodes) e (ready_among-AreFew nodes nodes) in
      (
        ks,
        e,
        λ k. (λ i. MayRun-WaitsFree k ((iff k).0 i), λ w. (iff k).1 (WaitsFree-MayRun k w)),
        λ k. omega (arith, few k, p.once k),
      )
