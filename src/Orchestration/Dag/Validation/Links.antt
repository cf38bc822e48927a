-- ===== src/Orchestration/Dag/Validation/Links.antt =====
-- `AddNode` and `rebuildDependents`: which dependents a node has.
use gomind.Base.{
  ◌≡◌, refl, inl, inr, Bool, true, false, List, [], ◌∷◌, ◌++◌, ◌||◌, ◌&&◌, String, arith, ap, sym,
  ◌∙◌, subst, Bool-cases,
}
use text.Mathlib.Text.{◌==◌}
use text.Mathlib.TextEquality.{eq_iff}
use gomind.Orchestration.Dag.{
  DagNode, contains, lookup, update, is_there, add_dependent, link_node, link_nodes,
  clear_dependents, rebuild_dependents,
}
use gomind.Orchestration.Dag.Marks.{dependents_of}

abbrev pub has : List (String × DagNode) → String → Bool
has nodes k = is_there (lookup k nodes)

unfoldable pub has_dependent : List (String × DagNode) → String → String → Bool
unfolding contains dependents_of
has_dependent nodes a b = contains (dependents_of nodes a) b

pub has-update :
    (k : String) (f : DagNode → DagNode) (nodes : List (String × DagNode)) (j : String)
    → has (update k f nodes) j ≡ has nodes j
unfolding lookup update
has-update k f [] j = refl
has-update k f ((i, n) ∷ nodes) j = ground (arith, has-update k f nodes j)

pub contains-snoc :
    (xs : List String) (y x : String) → contains (xs ++ y ∷ []) x ≡ contains xs x || (y == x)
unfolding contains
contains-snoc [] y x = ground arith
contains-snoc (z ∷ xs) y x = ground (arith, contains-snoc xs y x)

contains-add_dependent :
    (id : String) (n : DagNode) (b : String)
    → contains (add_dependent id n).dependents b ≡ contains n.dependents b || (id == b)
unfolding add_dependent
contains-add_dependent id n b = elim (Bool-cases (contains n.dependents id)) [
  | inl old ↦ elim (Bool-cases (id == b)) [
    | inl e ↦
        let same = (eq_iff id b).0 e in
        let known : contains n.dependents b ≡ true =
          subst (λ z. contains n.dependents z ≡ true) same old in
        ground arith
    | inr e ↦ ground arith
  ]
  | inr new ↦ rw new (contains-snoc n.dependents id b)
]

same_test : (x y z : String) → (x == y) ≡ true → (x == z) ≡ (y == z)
same_test x y z e = ap (λ (w : String). w == z) ((eq_iff x y).0 e)

flip_test : (x y : String) → (x == y) ≡ (y == x)
flip_test x y = elim (Bool-cases (x == y)) [
  | inl e ↦ let b = (eq_iff y x).1 (sym ((eq_iff x y).0 e)) in cc
  | inr e ↦ elim (Bool-cases (y == x)) [
    | inl b ↦ let e' = (eq_iff x y).1 (sym ((eq_iff y x).0 b)) in cc
    | inr b ↦ cc
  ]
]

has_dependent-update :
    (k id : String) (nodes : List (String × DagNode)) (a b : String)
    → has_dependent (update k (add_dependent id) nodes) a b
      ≡ has_dependent nodes a b || ((k == a) && (has nodes k && (id == b)))
unfolding has_dependent lookup update dependents_of contains
has_dependent-update k id [] a b = ground arith
has_dependent-update k id ((i, n) ∷ nodes) a b = elim (Bool-cases (i == k)) [
  | inl e ↦ ground (arith, same_test i k a e, contains-add_dependent id n b)
  | inr e ↦ elim (Bool-cases (i == a)) [
    | inl f ↦ ground (arith, same_test i a k f, flip_test k a)
    | inr f ↦ ground (arith, has_dependent-update k id nodes a b)
  ]
]

-- Some node `b` of the list has the dependency `a`.
unfoldable pub depends : List (String × DagNode) → String → String → Bool
unfolding contains
depends [] a b = false
depends ((k, n) ∷ ns) a b = ((k == b) && contains n.dependencies a) || depends ns a b

depends-update :
    (k id : String) (nodes : List (String × DagNode)) (a b : String)
    → depends (update k (add_dependent id) nodes) a b ≡ depends nodes a b
unfolding depends update add_dependent
depends-update k id [] a b = refl
depends-update k id ((i, n) ∷ nodes) a b = ground (arith, depends-update k id nodes a b)

has-link_node :
    (id : String) (deps : List String) (nodes : List (String × DagNode)) (j : String)
    → has (link_node id deps nodes) j ≡ has nodes j
unfolding link_node
has-link_node id [] nodes j = refl
has-link_node id (dep ∷ deps) nodes j =
    has-link_node id deps (update dep (add_dependent id) nodes) j
    ∙ has-update dep (add_dependent id) nodes j

depends-link_node :
    (id : String) (deps : List String) (nodes : List (String × DagNode)) (a b : String)
    → depends (link_node id deps nodes) a b ≡ depends nodes a b
unfolding link_node
depends-link_node id [] nodes a b = refl
depends-link_node id (dep ∷ deps) nodes a b =
    depends-link_node id deps (update dep (add_dependent id) nodes) a b
    ∙ depends-update dep id nodes a b

has_dependent-link_node :
    (id : String) (deps : List String) (nodes : List (String × DagNode)) (a b : String)
    → has_dependent (link_node id deps nodes) a b
      ≡ has_dependent nodes a b || (has nodes a && ((id == b) && contains deps a))
unfolding link_node contains
has_dependent-link_node id [] nodes a b = ground arith
has_dependent-link_node id (dep ∷ deps) nodes a b =
    has_dependent-link_node id deps (update dep (add_dependent id) nodes) a b
    ∙ elim (Bool-cases (dep == a)) [
      | inl e ↦
          let same : has nodes dep ≡ has nodes a = ap (has nodes) ((eq_iff dep a).0 e) in
          ground (
            arith,
            same,
            has_dependent-update dep id nodes a b,
            has-update dep (add_dependent id) nodes a,
          )
      | inr e ↦
          ground (
            arith,
            has_dependent-update dep id nodes a b,
            has-update dep (add_dependent id) nodes a,
          )
    ]

pub has-link_nodes :
    (rest nodes : List (String × DagNode)) (j : String)
    → has (link_nodes rest nodes) j ≡ has nodes j
unfolding link_nodes
has-link_nodes [] nodes j = refl
has-link_nodes ((k, n) ∷ rest) nodes j =
    has-link_nodes rest (link_node k n.dependencies nodes) j
    ∙ has-link_node k n.dependencies nodes j

pub depends-link_nodes :
    (rest nodes : List (String × DagNode)) (a b : String)
    → depends (link_nodes rest nodes) a b ≡ depends nodes a b
unfolding link_nodes
depends-link_nodes [] nodes a b = refl
depends-link_nodes ((k, n) ∷ rest) nodes a b =
    depends-link_nodes rest (link_node k n.dependencies nodes) a b
    ∙ depends-link_node k n.dependencies nodes a b

has_dependent-link_nodes :
    (rest nodes : List (String × DagNode)) (a b : String)
    → has_dependent (link_nodes rest nodes) a b
      ≡ has_dependent nodes a b || (has nodes a && depends rest a b)
unfolding link_nodes depends
has_dependent-link_nodes [] nodes a b = ground arith
has_dependent-link_nodes ((k, n) ∷ rest) nodes a b =
    has_dependent-link_nodes rest (link_node k n.dependencies nodes) a b
    ∙ ground (
      arith,
      has_dependent-link_node k n.dependencies nodes a b,
      has-link_node k n.dependencies nodes a,
    )

pub has-clear :
    (nodes : List (String × DagNode)) (j : String) → has (clear_dependents nodes) j ≡ has nodes j
unfolding clear_dependents lookup
has-clear [] j = refl
has-clear ((k, n) ∷ nodes) j = ground (arith, has-clear nodes j)

pub depends-clear :
    (nodes : List (String × DagNode)) (a b : String)
    → depends (clear_dependents nodes) a b ≡ depends nodes a b
unfolding clear_dependents depends
depends-clear [] a b = refl
depends-clear ((k, n) ∷ nodes) a b = ground (arith, depends-clear nodes a b)

has_dependent-clear :
    (nodes : List (String × DagNode)) (a b : String)
    → has_dependent (clear_dependents nodes) a b ≡ false
unfolding clear_dependents has_dependent dependents_of lookup contains
has_dependent-clear [] a b = refl
has_dependent-clear ((k, n) ∷ nodes) a b = ground (arith, has_dependent-clear nodes a b)

-- The dependents are those that the dependencies say.
abbrev pub IsLinked : List (String × DagNode) → Type 0
IsLinked nodes = (a b : String) → has_dependent nodes a b ≡ (has nodes a && depends nodes a b)

pub rebuild_dependents-IsLinked :
    (nodes : List (String × DagNode)) → IsLinked (rebuild_dependents nodes)
unfolding rebuild_dependents
rebuild_dependents-IsLinked nodes a b =
    let cleared = clear_dependents nodes in
    has_dependent-link_nodes cleared cleared a b
    ∙ ground (
      arith,
      has_dependent-clear nodes a b,
      has-link_nodes cleared cleared a,
      depends-link_nodes cleared cleared a b,
    )
