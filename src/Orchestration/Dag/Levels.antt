-- ===== src/Orchestration/Dag/Levels.antt =====
-- `GetExecutionLevels`: the levels are an order of execution, and hold all that can be executed.
use gomind.Base.{
  ℕ, zero, suc, ◌≤◌, ◌<◌, ◌≡◌, refl, ◌⊎◌, inl, inr, true, false, List, [], ◌∷◌, ◌++◌, String, arith,
  ap, sym, subst, ◌||◌, ◌&&◌, not, Bool-cases, All, length, if◌then◌else◌, if_cases,
}
use gomind.Orchestration.Dag.{
  DagNode, WorkflowDag, contains, can_execute, level_nodes, levels_from, get_execution_levels,
}
use gomind.Orchestration.Dag.Names.{In, contains→In, In→contains}

-- A node that is not processed, while all that it depends on is.
abbrev pub IsPlaced : List String → List (String × DagNode) → String → Type 0
IsPlaced processed nodes k =
    (n : DagNode) × In (k, n) nodes
    × All (λ (dep : String). In dep processed) n.dependencies
    × ¬ In k processed

-- Each node of a level is new, and depends only on nodes of the levels before it.
abbrev pub AreLayered : List String → List (String × DagNode) → List (List String) → Type 0
AreLayered processed nodes [] = Unit
AreLayered processed nodes (level ∷ levels) =
    All (IsPlaced processed nodes) level × AreLayered (processed ++ level) nodes levels

abbrev pub processed_after : List String → List (List String) → List String
processed_after processed [] = processed
processed_after processed (level ∷ levels) = processed_after (processed ++ level) levels

-- A node is processed, or some node that it depends on is not.
abbrev pub IsDoneOrBlocked : List String → String × DagNode → Type 0
IsDoneOrBlocked processed e =
    In e.0 processed ⊎ ((dep : String) × In dep e.1.dependencies × (¬ In dep processed))

pub not_contained : (xs : List String) (x : String) → contains xs x ≡ false → ¬ In x xs
not_contained xs x h i = cc (In→contains xs x i)

absent-contains : (xs : List String) (x y : String) → x ≡ y → ¬ In y xs → contains xs x ≡ false
absent-contains xs x y same new = elim (Bool-cases (contains xs x)) [
  | inl b ↦ absurd (new (subst (λ z. In z xs) same (contains→In xs x b)))
  | inr b ↦ b
]

can_execute-All :
    (processed deps : List String)
    → can_execute processed deps ≡ true
    → All (λ (dep : String). In dep processed) deps
unfolding can_execute
can_execute-All processed [] h = tt
can_execute-All processed (dep ∷ deps) h =
    (contains→In processed dep (ground arith), can_execute-All processed deps (ground arith))

cannot_execute :
    (processed deps : List String)
    → can_execute processed deps ≡ false
    → (dep : String) × In dep deps × (¬ In dep processed)
unfolding can_execute
cannot_execute processed [] h = cc
cannot_execute processed (dep ∷ deps) h = elim (Bool-cases (contains processed dep)) [
  | inl there ↦ let (d, i, out) = cannot_execute processed deps (ground arith) in (d, inr i, out)
  | inr out ↦ (dep, inl refl, not_contained processed dep out)
]

level_nodes-IsPlaced :
    (processed : List String) (nodes part : List (String × DagNode))
    → ((e : String × DagNode) → In e part → In e nodes)
    → All (IsPlaced processed nodes) (level_nodes processed part)
unfolding level_nodes
level_nodes-IsPlaced processed nodes [] within = tt
level_nodes-IsPlaced processed nodes ((k, n) ∷ part) within =
    let rest = level_nodes-IsPlaced processed nodes part (λ e i. within e (inr i)) in
    if_cases (All (IsPlaced processed nodes))
      (not (contains processed k) && can_execute processed n.dependencies)
      (λ h. (
        (
          n,
          within (k, n) (inl refl),
          can_execute-All processed n.dependencies (ground arith),
          not_contained processed k (ground arith),
        ),
        rest,
      ))
      (λ _. rest)

no_level-IsDoneOrBlocked :
    (processed : List String) (nodes : List (String × DagNode))
    → level_nodes processed nodes ≡ []
    → All (IsDoneOrBlocked processed) nodes
unfolding level_nodes
no_level-IsDoneOrBlocked processed [] h = tt
no_level-IsDoneOrBlocked processed ((k, n) ∷ nodes) h = elim (Bool-cases (contains processed k)) [
  | inl there ↦
      (inl (contains→In processed k there), no_level-IsDoneOrBlocked processed nodes (ground arith))
  | inr new ↦ elim (Bool-cases (can_execute processed n.dependencies)) [
    | inl ready ↦ absurd (ground arith)
    | inr blocked ↦ (
      inr (cannot_execute processed n.dependencies blocked),
      no_level-IsDoneOrBlocked processed nodes (ground arith),
    )
  ]
]

-- The nodes that are still to be processed.
unfoldable pub count_left : List String → List (String × DagNode) → ℕ
count_left processed [] = 0
count_left processed ((k, n) ∷ ns) =
    let rest = count_left processed ns in if contains processed k then rest else suc rest

contains-append :
    (p q : List String) (x : String) → contains (p ++ q) x ≡ contains p x || contains q x
unfolding contains
contains-append [] q x = refl
contains-append (y ∷ p) q x = ground (arith, contains-append p q x)

count_left-append :
    (p q : List String) (ns : List (String × DagNode)) → count_left (p ++ q) ns ≤ count_left p ns
unfolding count_left
count_left-append p q [] = omega arith
count_left-append p q ((k, n) ∷ ns) =
    ground (arith, contains-append p q k, count_left-append p q ns)

pub count_left-new :
    (p q : List String) (k : String) (n : DagNode) (ns : List (String × DagNode))
    → In (k, n) ns
    → ¬ In k p
    → In k q
    → count_left (p ++ q) ns < count_left p ns
unfolding count_left
count_left-new p q k n [] i new here = elim i [ ]
count_left-new p q k n ((j, m) ∷ ns) (inl e) new here =
    let same : j ≡ k = ap (λ (x : String × DagNode). x.0) e in
    let out : contains p j ≡ false = absent-contains p j k same new in
    let in' : contains q j ≡ true = rw same (In→contains q k here) in
    ground (arith, contains-append p q j, count_left-append p q ns)
count_left-new p q k n ((j, m) ∷ ns) (inr i) new here =
    ground (arith, contains-append p q j, count_left-new p q k n ns i new here)

pub count_left-length :
    (p : List String) (ns : List (String × DagNode)) → count_left p ns ≤ length ns
unfolding count_left
count_left-length p [] = omega arith
count_left-length p ((k, n) ∷ ns) = ground (arith, count_left-length p ns)

-- A level that holds a node leaves fewer nodes to process.
level-count_left :
    (p : List String) (nodes : List (String × DagNode)) (k : String) (ks : List String)
    → IsPlaced p nodes k
    → count_left (p ++ k ∷ ks) nodes < count_left p nodes
level-count_left p nodes k ks (n, here, deps, new) =
    count_left-new p (k ∷ ks) k n nodes here new (inl refl)

List-cases : {A : Type 0} (xs : List A) → (xs ≡ []) ⊎ ((x : A) × (ys : List A) × (xs ≡ x ∷ ys))
List-cases [] = inl refl
List-cases (x ∷ xs) = inr (x, xs, refl)

abbrev AreLevels : List String → List (String × DagNode) → List (List String) → Type 0
AreLevels processed nodes levels =
    AreLayered processed nodes levels
    × All (IsDoneOrBlocked (processed_after processed levels)) nodes

levels_from-AreLevels :
    (rounds : ℕ) (p : List String) (nodes : List (String × DagNode))
    → count_left p nodes < rounds
    → AreLevels p nodes (levels_from rounds p nodes)
unfolding levels_from
levels_from-AreLevels zero p nodes enough = absurd (omega arith)
levels_from-AreLevels (suc rounds) p nodes enough = elim (List-cases (level_nodes p nodes)) [
  | inl e ↦
      subst
        (λ (l : List String).
          AreLevels p nodes
            (elim l [ [] ↦ [] | k ∷ ks ↦ (k ∷ ks) ∷ levels_from rounds (p ++ k ∷ ks) nodes ]))
        (sym e) (tt, no_level-IsDoneOrBlocked p nodes e)
  | inr (k, ks, e) ↦
      let placed : All (IsPlaced p nodes) (k ∷ ks) =
        subst (All (IsPlaced p nodes)) e (level_nodes-IsPlaced p nodes nodes (λ x i. i)) in
      let fewer = level-count_left p nodes k ks placed.0 in
      let rest = levels_from-AreLevels rounds (p ++ k ∷ ks) nodes (omega arith) in
      subst
        (λ (l : List String).
          AreLevels p nodes
            (elim l [ [] ↦ [] | k ∷ ks ↦ (k ∷ ks) ∷ levels_from rounds (p ++ k ∷ ks) nodes ]))
        (sym e) ((placed, rest.0), rest.1)
]

-- `GetExecutionLevels` never places a node before one that it depends on: each node of a
-- level is in the graph, is in no earlier level, and has all its dependencies in earlier levels. When
-- it stops, every node of the graph is in some level or depends on a name that is in none, so nothing
-- that could be executed is left out, and the loop ends within one round more than there are nodes.
pub get_execution_levels-AreLayered :
    (d : WorkflowDag)
    → AreLayered [] d.nodes (get_execution_levels d)
      × All (IsDoneOrBlocked (processed_after [] (get_execution_levels d))) d.nodes
unfolding get_execution_levels
get_execution_levels-AreLayered d =
    let bound = count_left-length [] d.nodes in
    levels_from-AreLevels (suc (length d.nodes)) [] d.nodes (omega arith)
