-- ===== src/Orchestration/Engine/Run/Stuck.antt =====
-- The graph is never stuck: where nothing runs, either all nodes have ended or some node is ready.
use gomind.Base.{
  ◌≡◌, refl, ◌⊎◌, inl, inr, true, false, List, [], ◌∷◌, String, arith, Option, none, some,
  Bool-cases, Option-cases, All, subst, sym, ap,
}
use text.Mathlib.Text.{◌==◌}
use text.Mathlib.TextEquality.{eq_iff}
use gomind.Orchestration.Dag.{
  NodeStatus, DagNode, lookup, contains, node_pending, node_running, node_ready, node_failed,
  node_completed, node_skipped, all_finished, any_running, is_pending,
}
use gomind.Orchestration.Dag.Names.{In, All-In, All-of_In, lookup-In, contains→In}
use gomind.Orchestration.Dag.Levels.{not_contained}
use gomind.Orchestration.Dag.Ready.{IsNode, IsSettled}
use gomind.Orchestration.Dag.Validation.Walks.{Edge, IsOrdered, IsOrdered-Edge}
use gomind.Orchestration.Dag.Validation.Building.{IsLinked-iff, In-depends, is_there-IsNode}
use gomind.Orchestration.Engine.Run.Statuses.{
  status_of, status_in, pends, settles, runs, fails, readies, unfinished,
}
use gomind.Orchestration.Engine.Run.Looking.{IsPlan, WaitsFree, status-IsSettled, MayRun-WaitsFree}

-- A dependency that is not settled, or none.
unsettled_among :
    (st : String → Option NodeStatus) (deps : List String)
    → All (λ a. settles (st a) ≡ true) deps ⊎ ((a : String) × In a deps × (settles (st a) ≡ false))
unsettled_among st [] = inl tt
unsettled_among st (a ∷ deps) = elim (Bool-cases (settles (st a))) [
  | inr open' ↦ inr (a, inl refl, open')
  | inl done ↦ elim (unsettled_among st deps) [
    | inl all ↦ inl (done, all)
    | inr (b, i, open') ↦ inr (b, inr i, open')
  ]
]

left_pending :
    (s : NodeStatus)
    → settles (some s) ≡ false
    → runs (some s) ≡ false
    → readies (some s) ≡ false
    → fails (some s) ≡ false
    → pends (some s) ≡ true
left_pending node_pending a b c d = refl
left_pending node_ready a b c d = absurd (cc)
left_pending node_running a b c d = absurd (cc)
left_pending node_completed a b c d = absurd (cc)
left_pending node_failed a b c d = absurd (cc)
left_pending node_skipped a b c d = absurd (cc)

left_none :
    (o : Option NodeStatus)
    → pends o ≡ false
    → runs o ≡ false
    → readies o ≡ false
    → unfinished o ≡ false
left_none none a b c = refl
left_none (some node_pending) a b c = absurd (cc)
left_none (some node_ready) a b c = absurd (cc)
left_none (some node_running) a b c = absurd (cc)
left_none (some node_completed) a b c = refl
left_none (some node_failed) a b c = refl
left_none (some node_skipped) a b c = refl

-- `IsComplete` and `HasRunningNodes`, name by name.
pub is_complete-unfinished :
    (nodes : List (String × DagNode))
    → all_finished nodes ≡ true
    → (k : String) → unfinished (status_of nodes k) ≡ false
unfolding all_finished status_of lookup
is_complete-unfinished [] h k = refl
is_complete-unfinished ((j, n) ∷ nodes) h k = elim (Bool-cases (j == k)) [
  | inl e ↦ rw e (ground arith)
  | inr e ↦ rw e (is_complete-unfinished nodes (ground arith) k)
]

pub any_running-runs :
    (nodes : List (String × DagNode))
    → any_running nodes ≡ false
    → (k : String) → runs (status_of nodes k) ≡ false
unfolding any_running status_of lookup
any_running-runs [] h k = refl
any_running-runs ((j, n) ∷ nodes) h k = elim (Bool-cases (j == k)) [
  | inl e ↦ rw e (ground arith)
  | inr e ↦ rw e (any_running-runs nodes (ground arith) k)
]

module _ (nodes : List (String × DagNode)) (order : List String) (ordered : IsOrdered nodes order)
    (covers : (k : String) (n : DagNode) → In (k, n) nodes → In k order) (p : IsPlan nodes)
    (idle : (k : String) → runs (status_of nodes k) ≡ false)
    (no_ready : (k : String) → readies (status_of nodes k) ≡ false)
    (spread : (a b : String)
      → fails (status_of nodes a) ≡ true
      → Edge nodes a b
      → pends (status_of nodes b) ≡ false)
    (none_free : (k : String) → ¬ WaitsFree nodes k) where
  abbrev Waits : String → Type 0
  Waits k = pends (status_of nodes k) ≡ true

  waiting-IsNode : (k : String) → Waits k → IsNode nodes k
  unfolding status_of
  waiting-IsNode k = elim (Option-cases (lookup k nodes)) [
    | inl e ↦ rw e (λ h. absurd (cc))
    | inr found ↦ λ _. found
  ]

  waiting_status :
      (k : String) (n : DagNode) → lookup k nodes ≡ some n → Waits k → is_pending n.status ≡ true
  unfolding status_of
  waiting_status k n there w = subst (λ o. pends (status_in o) ≡ true) there w

  still_pending :
      (a k : String)
      → IsNode nodes a
      → settles (status_of nodes a) ≡ false
      → Edge nodes a k
      → Waits k
      → Waits a
  unfolding status_of
  still_pending a k (n, there) open' e w =
      let here' : status_of nodes a ≡ some n.status = ap status_in there in
      let sound : fails (status_of nodes a) ≡ false =
        elim (Bool-cases (fails (status_of nodes a))) [
          | inl bad ↦ let wrong = spread a k bad e in absurd (cc)
          | inr good ↦ good
        ] in
      subst (λ o. pends o ≡ true) (sym here')
        (left_pending n.status (subst (λ o. settles o ≡ false) here' open')
          (subst (λ o. runs o ≡ false) here' (idle a))
          (subst (λ o. readies o ≡ false) here' (no_ready a))
          (subst (λ o. fails o ≡ false) here' sound))

  -- A node that waits depends on another one that waits.
  Waits-for : (k : String) → Waits k → (a : String) × Edge nodes a k × Waits a
  Waits-for k w =
      let (n, there) = waiting-IsNode k w in
      let i = lookup-In k nodes n there in
      elim (unsettled_among (status_of nodes) n.dependencies) [
        | inl all ↦ absurd (
            none_free k (
              MayRun-WaitsFree nodes p k (
                n,
                i,
                waiting_status k n there w,
                All-of_In (IsSettled nodes) n.dependencies (λ a l.
                    status-IsSettled nodes p a
                      (All-In (λ z. settles (status_of nodes z) ≡ true) n.dependencies a all l)),
              )))
        | inr (a, l, open') ↦
            let node = is_there-IsNode nodes a (p.closed a k (In-depends nodes a k n i l)) in
            let e = (IsLinked-iff nodes a k p.linked).1 (node, (n, i, l)) in
            (a, e, still_pending a k node open' e w)
      ]

  -- In an order of the nodes, some node that waits stands outside any part that has one.
  Waits-outside :
      (xs : List String)
      → IsOrdered nodes xs
      → (k : String) → Waits k
      → In k xs
      → (b : String) × Waits b × (¬ In b xs)
  Waits-outside [] o k w i = absurd i
  Waits-outside (y ∷ ys) (first, o) k w i = elim (Bool-cases (contains ys k)) [
    | inl later ↦
        let (b, w', out) = Waits-outside ys o k w (contains→In ys k later) in
        elim (Bool-cases (y == b)) [
          | inl e ↦ from_head b ((eq_iff y b).0 e) w' out
          | inr e ↦
              (b, w', λ j. elim j [ inl same ↦ let e' = (eq_iff y b).1 same in cc | inr j ↦ out j ])
        ]
    | inr new ↦
        from_head k (elim i [ inl same ↦ same | inr i ↦ absurd (not_contained ys k new i) ]) w
          (not_contained ys k new)
  ]
    where
      from_head :
          (b : String) → y ≡ b → Waits b → ¬ In b ys → (c : String) × Waits c × (¬ In c (y ∷ ys))
      from_head b same w out =
          let (a, e, w') = Waits-for b w in
          (
            a,
            w',
            λ j. elim j [
              | inl at_y ↦ out (first b (subst (λ z. Edge nodes z b) (sym at_y) e))
              | inr j ↦ out (IsOrdered-Edge nodes ys a b o j e)
            ],
          )

  none_waits : (k : String) → pends (status_of nodes k) ≡ false
  none_waits k = elim (Bool-cases (pends (status_of nodes k))) [
    | inr out ↦ out
    | inl w ↦
        let (b, w', out) = Waits-outside order ordered k w (in_order k w) in
        absurd (out (in_order b w'))
  ]
    where
      in_order : (k : String) → Waits k → In k order
      in_order k w = let (n, there) = waiting-IsNode k w in covers k n (lookup-In k nodes n there)

  pub never_stuck : (k : String) → unfinished (status_of nodes k) ≡ false
  never_stuck k = left_none (status_of nodes k) (none_waits k) (idle k) (no_ready k)
