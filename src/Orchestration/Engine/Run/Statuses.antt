-- ===== src/Orchestration/Engine/Run/Statuses.antt =====
-- What a change of one status leaves as it is, and what it does to the others.
use gomind.Base.{
  ◌≡◌, refl, true, false, List, [], ◌∷◌, String, arith, Bool, Option, none, some, inl, inr,
  Bool-cases, Option-cases, subst, sym, ◌∙◌,
}
use text.Mathlib.Text.{◌==◌}
use text.Mathlib.TextEquality.{eq_iff}
use gomind.Orchestration.Dag.{
  NodeStatus, DagNode, lookup, update, with_status, is_pending, is_settled, is_running,
  node_pending, node_completed, node_running, node_failed, node_skipped, node_ready, is_unfinished,
}
use gomind.Orchestration.Dag.Marks.{waits, dependents_of, dependents_of-update}
use gomind.Orchestration.Dag.Validation.Links.{has, has-update, depends}
use gomind.Orchestration.Dag.Validation.Adding.{keys, keys-update}

abbrev pub status_in : Option DagNode → Option NodeStatus
status_in none = none
status_in (some n) = some n.status

unfoldable pub status_of : List (String × DagNode) → String → Option NodeStatus
unfolding lookup
status_of nodes k = status_in (lookup k nodes)

-- The tests of a status, false where there is no node.
abbrev pub pends : Option NodeStatus → Bool
pends none = false
pends (some s) = is_pending s

abbrev pub settles : Option NodeStatus → Bool
settles none = false
settles (some s) = is_settled s

abbrev pub runs : Option NodeStatus → Bool
runs none = false
runs (some s) = is_running s

pub waits-pends :
    (nodes : List (String × DagNode)) (k : String) → waits nodes k ≡ pends (status_of nodes k)
unfolding waits status_of
waits-pends nodes k = elim (Option-cases (lookup k nodes)) [
  | inl e ↦ rw e refl
  | inr (n, e) ↦ rw e refl
]

pub status_of-update :
    (j : String) (s : NodeStatus) (nodes : List (String × DagNode)) (k : String)
    → (j == k) ≡ false
    → status_of (update j (with_status s) nodes) k ≡ status_of nodes k
unfolding status_of update lookup
status_of-update j s [] k other = refl
status_of-update j s ((i, n) ∷ nodes) k other = elim (Bool-cases (i == k)) [
  | inl e ↦ elim (Bool-cases (i == j)) [
    | inl f ↦ let same = (eq_iff j k).1 (sym ((eq_iff i j).0 f) ∙ (eq_iff i k).0 e) in absurd (cc)
    | inr f ↦ ground arith
  ]
  | inr e ↦ ground (arith, status_of-update j s nodes k other)
]

pub status_of-updated :
    (j : String) (s : NodeStatus) (nodes : List (String × DagNode))
    → has nodes j ≡ true
    → status_of (update j (with_status s) nodes) j ≡ some s
unfolding status_of update lookup
status_of-updated j s [] there = cc
status_of-updated j s ((i, n) ∷ nodes) there = ground (arith, status_of-updated j s nodes)

depends-update :
    (j : String) (s : NodeStatus) (nodes : List (String × DagNode)) (a b : String)
    → depends (update j (with_status s) nodes) a b ≡ depends nodes a b
unfolding depends update
depends-update j s [] a b = refl
depends-update j s ((i, n) ∷ nodes) a b = ground (arith, depends-update j s nodes a b)

-- All but the statuses is the same.
pub record SameShape (before after : List (String × DagNode)) : Type 0 where
  pub same_keys : keys after ≡ keys before
  pub same_has : (k : String) → has after k ≡ has before k
  pub same_depends : (a b : String) → depends after a b ≡ depends before a b
  pub same_dependents : (a : String) → dependents_of after a ≡ dependents_of before a

pub SameShape-refl : (nodes : List (String × DagNode)) → SameShape nodes nodes
SameShape-refl nodes = record {
  same_keys = refl;
  same_has = λ k. refl;
  same_depends = λ a b. refl;
  same_dependents = λ a. refl;
}

pub SameShape-update :
    (before after : List (String × DagNode)) (j : String) (s : NodeStatus)
    → SameShape before after
    → SameShape before (update j (with_status s) after)
SameShape-update before after j s h = record {
  same_keys = keys-update j (with_status s) after ∙ h.same_keys;
  same_has = λ k. has-update j (with_status s) after k ∙ h.same_has k;
  same_depends = λ a b. depends-update j s after a b ∙ h.same_depends a b;
  same_dependents = λ a. dependents_of-update j s after a ∙ h.same_dependents a;
}

-- Whether the status is one of those that the invariant of a run tells apart.
abbrev pub fails : Option NodeStatus → Bool
fails (some node_failed) = true
fails _ = false

abbrev pub skips : Option NodeStatus → Bool
skips (some node_skipped) = true
skips _ = false

abbrev pub readies : Option NodeStatus → Bool
readies (some node_ready) = true
readies _ = false

abbrev pub unfinished : Option NodeStatus → Bool
unfinished none = false
unfinished (some s) = is_unfinished s

pub pends_status : (o : Option NodeStatus) → pends o ≡ true → o ≡ some node_pending
pends_status none h = absurd (cc)
pends_status (some node_pending) h = refl
pends_status (some _) h = absurd (cc)

pub runs_status : (o : Option NodeStatus) → runs o ≡ true → o ≡ some node_running
runs_status none h = absurd (cc)
runs_status (some node_running) h = refl
runs_status (some _) h = absurd (cc)

-- One status is set, and the others stay.
pub record SetsTo (j : String) (s : NodeStatus) (st st' : String → Option NodeStatus) : Type 0 where
  pub set : st' j ≡ some s
  pub kept : (k : String) → (j == k) ≡ false → st' k ≡ st k

pub update-SetsTo :
    (j : String) (s : NodeStatus) (nodes : List (String × DagNode))
    → has nodes j ≡ true
    → SetsTo j s (status_of nodes) (status_of (update j (with_status s) nodes))
update-SetsTo j s nodes there = record {
  set = status_of-updated j s nodes there;
  kept = λ k other. status_of-update j s nodes k other;
}

-- What a property of a status says after the change, at the name itself and at the others.
pub SetsTo-cases {ℓ} :
    (P : String → Option NodeStatus → Type ℓ) (j : String) (s : NodeStatus)
    (st st' : String → Option NodeStatus)
    → SetsTo j s st st'
    → (k : String) → (j ≡ k → P k (some s))
    → ((j == k) ≡ false → P k (st k))
    → P k (st' k)
SetsTo-cases P j s st st' c k here' other = elim (Bool-cases (j == k)) [
  | inl e ↦
      let same = (eq_iff j k).0 e in
      let now : st' k ≡ some s = subst (λ z. st' z ≡ some s) same c.set in
      subst (P k) (sym now) (here' same)
  | inr e ↦ subst (P k) (sym (c.kept k e)) (other e)
]

pub pending_not_settled : (o : Option NodeStatus) → pends o ≡ true → settles o ≡ false
pending_not_settled none h = refl
pending_not_settled (some node_pending) h = refl
pending_not_settled (some _) h = absurd (cc)

-- A status that is not settled may change to any, and the settled ones stay settled.
pub SetsTo-settles :
    (j : String) (s : NodeStatus) (st st' : String → Option NodeStatus)
    → SetsTo j s st st'
    → settles (st j) ≡ false
    → (a : String) → settles (st a) ≡ true
    → settles (st' a) ≡ true
SetsTo-settles j s st st' c was a h =
    SetsTo-cases (λ _ o. settles o ≡ true) j s st st' c a
      (λ same. let wrong = subst (λ z. settles (st z) ≡ false) same was in absurd (cc)) (λ _. h)

pub SetsTo-fails :
    (j : String) (s : NodeStatus) (st st' : String → Option NodeStatus)
    → SetsTo j s st st'
    → fails (some s) ≡ false
    → (a : String) → fails (st' a) ≡ true
    → fails (st a) ≡ true
SetsTo-fails j s st st' c good a =
    SetsTo-cases (λ z o. fails o ≡ true → fails (st z) ≡ true) j s st st' c a (λ _ h. absurd (cc))
      (λ _ h. h)

pub SameShape-trans :
    (a b c : List (String × DagNode)) → SameShape a b → SameShape b c → SameShape a c
SameShape-trans a b c s t = record {
  same_keys = t.same_keys ∙ s.same_keys;
  same_has = λ k. t.same_has k ∙ s.same_has k;
  same_depends = λ x y. t.same_depends x y ∙ s.same_depends x y;
  same_dependents = λ x. t.same_dependents x ∙ s.same_dependents x;
}

pub unfinished_idle : (o : Option NodeStatus) → unfinished o ≡ false → runs o ≡ false
unfinished_idle none h = refl
unfinished_idle (some node_pending) h = refl
unfinished_idle (some node_ready) h = refl
unfinished_idle (some node_running) h = absurd (cc)
unfinished_idle (some node_completed) h = refl
unfinished_idle (some node_failed) h = refl
unfinished_idle (some node_skipped) h = refl
