-- ===== src/Orchestration/Dag/Validation/Adding.antt =====
-- What `AddNode` adds: the keys, the dependencies and the statuses of the nodes after it.
use gomind.Base.{
  ◌≡◌, refl, inl, inr, false, List, [], ◌∷◌, ◌++◌, ◌||◌, ◌&&◌, String, arith, ap, sym, ◌∙◌,
  Bool-cases,
}
use text.Mathlib.Text.{◌==◌}
use text.Mathlib.TextEquality.{eq_iff}
use gomind.Orchestration.Dag.{
  DagNode, WorkflowDag, contains, lookup, update, add_dependent, link_node, link_nodes,
  clear_dependents, rebuild_dependents, put_node, add_node, node_pending,
}
use gomind.Orchestration.Dag.Marks.{waits}
use gomind.Orchestration.Dag.Validation.Links.{has, depends, depends-link_nodes, depends-clear}

unfoldable pub keys : List (String × DagNode) → List String
keys [] = []
keys ((k, n) ∷ ns) = k ∷ keys ns

pub keys-update :
    (k : String) (f : DagNode → DagNode) (nodes : List (String × DagNode))
    → keys (update k f nodes) ≡ keys nodes
unfolding keys update
keys-update k f [] = refl
keys-update k f ((j, n) ∷ nodes) = ground (arith, keys-update k f nodes)

keys-link_node :
    (id : String) (deps : List String) (nodes : List (String × DagNode))
    → keys (link_node id deps nodes) ≡ keys nodes
unfolding link_node
keys-link_node id [] nodes = refl
keys-link_node id (dep ∷ deps) nodes =
    keys-link_node id deps (update dep (add_dependent id) nodes)
    ∙ keys-update dep (add_dependent id) nodes

keys-link_nodes : (rest nodes : List (String × DagNode)) → keys (link_nodes rest nodes) ≡ keys nodes
unfolding link_nodes
keys-link_nodes [] nodes = refl
keys-link_nodes ((k, n) ∷ rest) nodes =
    keys-link_nodes rest (link_node k n.dependencies nodes) ∙ keys-link_node k n.dependencies nodes

keys-clear : (nodes : List (String × DagNode)) → keys (clear_dependents nodes) ≡ keys nodes
unfolding clear_dependents keys
keys-clear [] = refl
keys-clear ((k, n) ∷ nodes) = ap (λ ks. k ∷ ks) (keys-clear nodes)

pub contains-keys :
    (nodes : List (String × DagNode)) (k : String) → contains (keys nodes) k ≡ has nodes k
unfolding contains keys lookup
contains-keys [] k = refl
contains-keys ((j, n) ∷ nodes) k = ground (arith, contains-keys nodes k)

-- A change that leaves the status as it is.
waits-kept :
    (k : String) (f : DagNode → DagNode) (nodes : List (String × DagNode)) (j : String)
    → ((n : DagNode) → (f n).status ≡ n.status)
    → waits (update k f nodes) j ≡ waits nodes j
unfolding waits update lookup
waits-kept k f [] j same = refl
waits-kept k f ((i, n) ∷ nodes) j same = ground (arith, same n, waits-kept k f nodes j same)

add_dependent-status : (id : String) (n : DagNode) → (add_dependent id n).status ≡ n.status
unfolding add_dependent
add_dependent-status id n = ground arith

waits-link_node :
    (id : String) (deps : List String) (nodes : List (String × DagNode)) (j : String)
    → waits (link_node id deps nodes) j ≡ waits nodes j
unfolding link_node
waits-link_node id [] nodes j = refl
waits-link_node id (dep ∷ deps) nodes j =
    waits-link_node id deps (update dep (add_dependent id) nodes) j
    ∙ waits-kept dep (add_dependent id) nodes j (add_dependent-status id)

waits-link_nodes :
    (rest nodes : List (String × DagNode)) (j : String)
    → waits (link_nodes rest nodes) j ≡ waits nodes j
unfolding link_nodes
waits-link_nodes [] nodes j = refl
waits-link_nodes ((k, n) ∷ rest) nodes j =
    waits-link_nodes rest (link_node k n.dependencies nodes) j
    ∙ waits-link_node k n.dependencies nodes j

waits-clear :
    (nodes : List (String × DagNode)) (j : String)
    → waits (clear_dependents nodes) j ≡ waits nodes j
unfolding clear_dependents waits lookup
waits-clear [] j = refl
waits-clear ((k, n) ∷ nodes) j = ground (arith, waits-clear nodes j)

-- A name that is not in the graph yet.
module _ (id : String) (deps : List String) where
  -- The graph after a new node: one key, its dependencies, and a pending status more.
  pub record Adds (before after : List (String × DagNode)) : Type 0 where
    pub more_keys : keys after ≡ keys before ++ id ∷ []
    pub more_depends :
        (a b : String) → depends after a b ≡ depends before a b || ((id == b) && contains deps a)
    pub more_waits : (k : String) → waits after k ≡ waits before k || (id == k)

  abbrev new_node : DagNode
  new_node = record { id = id; dependencies = deps; dependents = []; status = node_pending }

  abbrev appended : List (String × DagNode) → List (String × DagNode)
  appended nodes = nodes ++ (id, new_node) ∷ []

  keys-appended : (nodes : List (String × DagNode)) → keys (appended nodes) ≡ keys nodes ++ id ∷ []
  unfolding keys
  keys-appended [] = refl
  keys-appended ((k, n) ∷ nodes) = ap (λ ks. k ∷ ks) (keys-appended nodes)

  depends-appended :
      (nodes : List (String × DagNode)) (a b : String)
      → depends (appended nodes) a b ≡ depends nodes a b || ((id == b) && contains deps a)
  unfolding depends
  depends-appended [] a b = ground arith
  depends-appended ((k, n) ∷ nodes) a b = ground (arith, depends-appended nodes a b)

  waits-appended :
      (nodes : List (String × DagNode)) (k : String)
      → has nodes id ≡ false
      → waits (appended nodes) k ≡ waits nodes k || (id == k)
  unfolding waits lookup
  waits-appended [] k new = ground arith
  waits-appended ((j, n) ∷ nodes) k new = elim (Bool-cases (j == k)) [
    | inl e ↦ elim (Bool-cases (id == k)) [
      | inl f ↦
          let same = (eq_iff j id).1 ((eq_iff j k).0 e ∙ sym ((eq_iff id k).0 f)) in
          absurd (ground arith)
      | inr f ↦ ground arith
    ]
    | inr e ↦ elim (Bool-cases (j == id)) [
      | inl f ↦ absurd (ground arith)
      | inr f ↦ ground (arith, waits-appended nodes k)
    ]
  ]

  append_new :
      (nodes : List (String × DagNode)) → has nodes id ≡ false → Adds nodes (put_node id deps nodes)
  unfolding put_node
  append_new nodes new =
      rw (new, put_node)
        (record {
          more_keys = keys-appended nodes;
          more_depends = depends-appended nodes;
          more_waits = λ k. waits-appended nodes k new;
        })

  pub add_node-Adds :
      (d : WorkflowDag) → has d.nodes id ≡ false → Adds d.nodes (add_node d id deps).nodes
  unfolding add_node rebuild_dependents
  add_node-Adds d new =
      let put = put_node id deps d.nodes in
      let cleared = clear_dependents put in
      let a = append_new d.nodes new in
      record {
        more_keys = keys-link_nodes cleared cleared ∙ keys-clear put ∙ a.more_keys;
        more_depends = λ x y.
            depends-link_nodes cleared cleared x y ∙ depends-clear put x y ∙ a.more_depends x y;
        more_waits = λ k. waits-link_nodes cleared cleared k ∙ waits-clear put k ∙ a.more_waits k;
      }
