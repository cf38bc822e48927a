-- ===== src/Orchestration/Dag/Skipping.antt =====
-- `MarkNodeFailed`: a failure spreads to everything that waits for the failed node.
use gomind.Base.{
  if_cases, ◌∙◌, ℕ, zero, suc, ◌≤◌, ◌<◌, ◌≡◌, refl, ◌⊎◌, inl, inr, true, false, Option, none, some,
  List, [], ◌∷◌, String, arith, subst, Bool-cases,
}
use gomind.Orchestration.Dag.{
  is_there, DagNode, WorkflowDag, lookup, update, with_status, node_failed, node_skipped,
  count_pending, skip_dependents, mark_dependents_skipped, mark_node_failed,
}
use gomind.Orchestration.Dag.Marks.{
  waits, dependents_in, dependents_of, NoneWaits, skip, dependents_of-update, waits-update,
  waits-update_self, waits-update_other, count_pending-update, count_pending-skip,
}

-- `after` is `before` with some pending nodes skipped; nothing waits for a node skipped on the way.
pub record Spreads (before after : List (String × DagNode)) : Type 0 where
  pub same : (k : String) → dependents_of after k ≡ dependents_of before k
  pub keeps : (k : String) → waits before k ≡ false → waits after k ≡ false
  pub fewer : count_pending after ≤ count_pending before
  pub closed :
      (k : String)
      → waits before k ≡ true
      → waits after k ≡ false
      → NoneWaits after (dependents_of before k)

Spreads-refl : (nodes : List (String × DagNode)) → Spreads nodes nodes
Spreads-refl nodes = record {
  same = λ k. refl;
  keeps = λ k w. w;
  fewer = omega arith;
  closed = λ k w v. absurd (cc);
}

NoneWaits-mono :
    (before after : List (String × DagNode)) (ks : List String)
    → ((k : String) → waits before k ≡ false → waits after k ≡ false)
    → NoneWaits before ks
    → NoneWaits after ks
NoneWaits-mono before after [] keeps h = tt
NoneWaits-mono before after (k ∷ ks) keeps h =
    (keeps k h.0, NoneWaits-mono before after ks keeps h.1)

Spreads-trans : (a b c : List (String × DagNode)) → Spreads a b → Spreads b c → Spreads a c
Spreads-trans a b c f g = record {
  same = λ k. g.same k ∙ f.same k;
  keeps = λ k w. g.keeps k (f.keeps k w);
  fewer = let x = f.fewer in let y = g.fewer in omega arith;
  closed = λ k w v. elim (Bool-cases (waits b k)) [
    | inl m ↦ subst (NoneWaits c) (f.same k) (g.closed k m v)
    | inr m ↦ NoneWaits-mono b c (dependents_of a k) g.keeps (f.closed k w m)
  ];
}

-- One dependent that waits: it is skipped, and then its own dependents.
skip-Spreads :
    (k : String) (nodes after : List (String × DagNode))
    → Spreads (skip k nodes) after
    → NoneWaits after (dependents_of nodes k)
    → Spreads nodes after
skip-Spreads k nodes after f none_left = record {
  same = λ j. f.same j ∙ dependents_of-update k node_skipped nodes j;
  keeps = λ j w. f.keeps j (waits-update k node_skipped nodes j refl w);
  fewer = let x = f.fewer in let y = count_pending-update k node_skipped nodes refl in omega arith;
  closed = λ j w v. elim (Bool-cases (waits (skip k nodes) j)) [
    | inl m ↦ subst (NoneWaits after) (dependents_of-update k node_skipped nodes j) (f.closed j m v)
    | inr m ↦
        subst (λ (i : String). NoneWaits after (dependents_of nodes i))
          (waits-update_other k node_skipped nodes j w m) none_left
  ];
}

-- What `markDependentsSkipped` does for a node, given enough depth.
abbrev DoesSkip : ℕ → (String → List (String × DagNode) → List (String × DagNode)) → Type 0
DoesSkip depth f =
    (k : String) (nodes : List (String × DagNode))
    → count_pending nodes < depth
    → Spreads nodes (f k nodes) × NoneWaits (f k nodes) (dependents_of nodes k)

skip_dependents-Spreads :
    (depth : ℕ) (f : String → List (String × DagNode) → List (String × DagNode))
    → DoesSkip depth f
    → (ks : List String) (nodes : List (String × DagNode)) → count_pending nodes < suc depth
    → Spreads nodes (skip_dependents f ks nodes) × NoneWaits (skip_dependents f ks nodes) ks
unfolding skip_dependents waits
skip_dependents-Spreads depth f does [] nodes enough = (Spreads-refl nodes, tt)
skip_dependents-Spreads depth f does (k ∷ ks) nodes enough =
    let SkipsAll : List (String × DagNode) → Type 0 = λ next.
      Spreads nodes (skip_dependents f ks next) × NoneWaits (skip_dependents f ks next) (k ∷ ks) in
    let go_on : (next : List (String × DagNode))
        → Spreads nodes next
        → waits next k ≡ false
        → SkipsAll next =
      λ next s w.
        let x = s.fewer in
        let (t, none_left) = skip_dependents-Spreads depth f does ks next (omega arith) in
        (Spreads-trans nodes next (skip_dependents f ks next) s t, (t.keeps k w, none_left)) in
    if_cases SkipsAll (waits nodes k)
      (λ w.
        let less = count_pending-skip k nodes w in
        let (t, none_left) = does k (skip k nodes) (omega arith) in
        go_on (f k (skip k nodes))
          (skip-Spreads k nodes (f k (skip k nodes)) t (
            subst (NoneWaits (f k (skip k nodes))) (dependents_of-update k node_skipped nodes k)
              none_left))
          (t.keeps k (waits-update_self k node_skipped nodes refl)))
      (λ w. go_on nodes (Spreads-refl nodes) w)

abbrev pub skip_from :
    (String → List (String × DagNode) → List (String × DagNode))
    → List (String × DagNode)
    → Option DagNode
    → List (String × DagNode)
skip_from f nodes o = elim o [ none ↦ nodes | some n ↦ skip_dependents f n.dependents nodes ]

skip_from-Spreads :
    (depth : ℕ) (f : String → List (String × DagNode) → List (String × DagNode))
    → DoesSkip depth f
    → (nodes : List (String × DagNode)) (o : Option DagNode) → count_pending nodes < suc depth
    → Spreads nodes (skip_from f nodes o) × NoneWaits (skip_from f nodes o) (dependents_in o)
skip_from-Spreads depth f does nodes none enough = (Spreads-refl nodes, tt)
skip_from-Spreads depth f does nodes (some n) enough =
    skip_dependents-Spreads depth f does n.dependents nodes enough

mark_dependents_skipped-DoesSkip : (depth : ℕ) → DoesSkip depth (mark_dependents_skipped depth)
unfolding mark_dependents_skipped dependents_of
mark_dependents_skipped-DoesSkip zero k nodes enough = absurd (omega arith)
mark_dependents_skipped-DoesSkip (suc depth) k nodes enough =
    skip_from-Spreads depth (mark_dependents_skipped depth) (mark_dependents_skipped-DoesSkip depth)
      nodes (lookup k nodes) enough

-- The nodes after `id` has failed.
unfoldable pub failed_nodes : String → List (String × DagNode) → List (String × DagNode)
failed_nodes id nodes =
    let failed = update id (with_status node_failed) nodes in
    mark_dependents_skipped (suc (count_pending failed)) id failed

failed_nodes-NoneWaits :
    (id : String) (nodes : List (String × DagNode)) (k : String)
    → (id ≡ k) ⊎ ((waits nodes k ≡ true) × (waits (failed_nodes id nodes) k ≡ false))
    → NoneWaits (failed_nodes id nodes) (dependents_of nodes k)
unfolding failed_nodes
failed_nodes-NoneWaits id nodes k h =
    let failed = update id (with_status node_failed) nodes in
    let after = failed_nodes id nodes in
    let (t, none_left) =
      mark_dependents_skipped-DoesSkip (suc (count_pending failed)) id failed (omega arith) in
    let same = dependents_of-update id node_failed nodes in
    let at_id : NoneWaits after (dependents_of nodes id) =
      subst (NoneWaits after) (same id) none_left in
    let along : id ≡ k → NoneWaits after (dependents_of nodes k) =
      λ e. subst (λ (j : String). NoneWaits after (dependents_of nodes j)) e at_id in
    elim h [
      | inl e ↦ along e
      | inr (w, v) ↦ elim (Bool-cases (waits failed k)) [
        | inl m ↦ subst (NoneWaits after) (same k) (t.closed k m v)
        | inr m ↦ along (waits-update_other id node_failed nodes k w m)
      ]
    ]

pub mark_node_failed-nodes :
    (d : WorkflowDag) (id : String)
    → is_there (lookup id d.nodes) ≡ true
    → failed_nodes id d.nodes ≡ (mark_node_failed d id).nodes
unfolding mark_node_failed failed_nodes
mark_node_failed-nodes d id there = rw there

-- When a node of the graph has failed, no pending node is left that depends directly on it, or on a
-- node that was pending before and is no longer: the failure reaches everything that waits for it,
-- in a graph with cycles too.
pub mark_node_failed-NoneWaits :
    (d : WorkflowDag) (id : String) (k : String)
    → is_there (lookup id d.nodes) ≡ true
    → (id ≡ k) ⊎ ((waits d.nodes k ≡ true) × (waits (mark_node_failed d id).nodes k ≡ false))
    → NoneWaits (mark_node_failed d id).nodes (dependents_of d.nodes k)
mark_node_failed-NoneWaits d id k there =
    subst
      (λ (after : List (String × DagNode)).
        (id ≡ k) ⊎ ((waits d.nodes k ≡ true) × (waits after k ≡ false))
        → NoneWaits after (dependents_of d.nodes k))
      (mark_node_failed-nodes d id there) (failed_nodes-NoneWaits id d.nodes k)
