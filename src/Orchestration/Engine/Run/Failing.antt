-- ===== src/Orchestration/Engine/Run/Failing.antt =====
-- What a failed step does to the statuses of the others: a node that is skipped was pending, and
-- depended on a node that was not settled.
use gomind.Base.{
  ℕ, zero, suc, ◌≡◌, refl, ◌⊎◌, inl, inr, true, false, List, [], ◌∷◌, String, Option, none, some,
  Bool-cases, Option-cases, if_cases, subst, sym, ◌∙◌,
}
use text.Mathlib.Text.{◌==◌}
use text.Mathlib.TextEquality.{eq_iff}
use gomind.Orchestration.Dag.{
  node_pending, node_failed, node_skipped, DagNode, WorkflowDag, lookup, is_there, update,
  with_status, skip_dependents, mark_dependents_skipped, mark_node_failed, count_pending,
}
use gomind.Orchestration.Dag.Names.{In}
use gomind.Orchestration.Dag.Marks.{waits, dependents_in, dependents_of, skip}
use gomind.Orchestration.Dag.Skipping.{skip_from, failed_nodes, mark_node_failed-nodes}
use gomind.Orchestration.Dag.Validation.Links.{has}
use gomind.Orchestration.Engine.Run.Statuses.{
  status_of, pends_status, settles, waits-pends, status_of-update, status_of-updated, SameShape,
  SameShape-refl, SameShape-update,
}

-- Some node that is not settled has the node `k` among its dependents.
abbrev pub IsHeld : List (String × DagNode) → String → Type 0
IsHeld nodes k = (y : String) × In k (dependents_of nodes y) × (settles (status_of nodes y) ≡ false)

abbrev pub IsSkipped : List (String × DagNode) → List (String × DagNode) → String → Type 0
IsSkipped before after k =
    (status_of before k ≡ some node_pending)
    × (status_of after k ≡ some node_skipped)
    × IsHeld before k

pub record Skips (before after : List (String × DagNode)) : Type 0 where
  pub shape : SameShape before after
  pub change : (k : String) → (status_of after k ≡ status_of before k) ⊎ IsSkipped before after k

waits-has :
    (nodes : List (String × DagNode)) (k : String) → waits nodes k ≡ true → has nodes k ≡ true
unfolding waits
waits-has nodes k = elim (Option-cases (lookup k nodes)) [
  | inl e ↦ rw e (λ w. absurd (cc))
  | inr (n, e) ↦ λ w. rw e refl
]

module _ (before : List (String × DagNode)) where
  -- A node that still waits had its status from the beginning.
  waits_before :
      (nodes : List (String × DagNode)) (x : String)
      → Skips before nodes
      → waits nodes x ≡ true
      → status_of before x ≡ some node_pending
  waits_before nodes x s w =
      let now = pends_status (status_of nodes x) (sym (waits-pends nodes x) ∙ w) in
      elim (s.change x) [ inl same ↦ sym same ∙ now | inr (was, is, held) ↦ was ]

  skip-Skips :
      (nodes : List (String × DagNode)) (y x : String)
      → Skips before nodes
      → In x (dependents_of before y)
      → settles (status_of before y) ≡ false
      → waits nodes x ≡ true
      → Skips before (skip x nodes)
  skip-Skips nodes y x s i open' w = record {
    shape = SameShape-update before nodes x node_skipped s.shape;
    change = λ k. elim (Bool-cases (x == k)) [
      | inl e ↦
          subst
            (λ z.
              (status_of (skip x nodes) z ≡ status_of before z) ⊎ IsSkipped before (skip x nodes) z)
            ((eq_iff x k).0 e)
            (inr (
              waits_before nodes x s w,
              status_of-updated x node_skipped nodes (waits-has nodes x w),
              (y, i, open'),
            ))
      | inr e ↦
          let same = status_of-update x node_skipped nodes k e in
          elim (s.change k) [
            | inl f ↦ inl (same ∙ f)
            | inr (was, is, held) ↦ inr (was, same ∙ is, held)
          ]
    ];
  }

  -- What the call for a skipped node does.
  abbrev KeepsSkips : (String → List (String × DagNode) → List (String × DagNode)) → Type 0
  KeepsSkips f =
      (x : String) (nodes : List (String × DagNode))
      → Skips before nodes
      → settles (status_of before x) ≡ false
      → Skips before (f x nodes)

  skip_dependents-Skips :
      (f : String → List (String × DagNode) → List (String × DagNode)) (y : String)
      → KeepsSkips f
      → settles (status_of before y) ≡ false
      → (xs : List String) → ((x : String) → In x xs → In x (dependents_of before y))
      → (nodes : List (String × DagNode)) → Skips before nodes
      → Skips before (skip_dependents f xs nodes)
  unfolding skip_dependents waits
  skip_dependents-Skips f y keeps open' [] within nodes s = s
  skip_dependents-Skips f y keeps open' (x ∷ xs) within nodes s =
      if_cases (λ next. Skips before (skip_dependents f xs next)) (waits nodes x)
        (λ w.
          let was = waits_before nodes x s w in
          let unsettled : settles (status_of before x) ≡ false =
            subst (λ o. settles o ≡ false) (sym was) refl in
          skip_dependents-Skips f y keeps open' xs (λ z i. within z (inr i)) (f x (skip x nodes))
            (keeps x (skip x nodes) (skip-Skips nodes y x s (within x (inl refl)) open' w)
              unsettled))
        (λ _. skip_dependents-Skips f y keeps open' xs (λ z i. within z (inr i)) nodes s)

  skip_from-Skips :
      (f : String → List (String × DagNode) → List (String × DagNode)) (y : String)
      → KeepsSkips f
      → settles (status_of before y) ≡ false
      → (nodes : List (String × DagNode)) → Skips before nodes
      → (o : Option DagNode)
      → ((x : String) → In x (dependents_in o) → In x (dependents_of before y))
      → Skips before (skip_from f nodes o)
  skip_from-Skips f y keeps open' nodes s none within = s
  skip_from-Skips f y keeps open' nodes s (some n) within =
      skip_dependents-Skips f y keeps open' n.dependents within nodes s

  mark_dependents_skipped-Skips : (depth : ℕ) → KeepsSkips (mark_dependents_skipped depth)
  unfolding mark_dependents_skipped dependents_of
  mark_dependents_skipped-Skips zero x nodes s open' = s
  mark_dependents_skipped-Skips (suc depth) x nodes s open' =
      skip_from-Skips (mark_dependents_skipped depth) x (mark_dependents_skipped-Skips depth) open'
        nodes s (lookup x nodes)
        (λ z i. subst (λ (l : List String). In z l) (s.shape.same_dependents x) i)

-- After `MarkNodeFailed` the node is failed, and the others are as they were or skipped.
pub mark_node_failed-Skips :
    (d : WorkflowDag) (id : String)
    → is_there (lookup id d.nodes) ≡ true
    → Skips (update id (with_status node_failed) d.nodes) (mark_node_failed d id).nodes
unfolding failed_nodes
mark_node_failed-Skips d id there =
    let failed = update id (with_status node_failed) d.nodes in
    subst (Skips failed) (mark_node_failed-nodes d id there) (
      mark_dependents_skipped-Skips failed (suc (count_pending failed)) id failed
        (record { shape = SameShape-refl failed; change = λ k. inl refl })
        (subst (λ o. settles o ≡ false) (sym (status_of-updated id node_failed d.nodes there))
          refl))
