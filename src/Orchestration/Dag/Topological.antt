-- ===== src/Orchestration/Dag/Topological.antt =====
-- `GetTopologicalOrder` ends: no node is put into the queue twice.
use gomind.Base.{
  ap, ℕ, zero, suc, ◌+◌, ◌≤◌, ◌≡◌, refl, Bool, some, List, [], ◌∷◌, ◌++◌, String, arith,
  if◌then◌else◌, length, if_cases, ap,
}
use gomind.Base.Int.{ℤ, pos, negsuc, ◌+ℤ◌}
use text.Mathlib.TextEquality.{eq_iff}
use gomind.Orchestration.Dag.{DagNode, WorkflowDag}
use gomind.Orchestration.Dag.Marks.{dependents_of}
use gomind.Orchestration.Dag.Reports.{
  degree_of, decrement, is_zero, in_degrees, without_dependencies, release, take_from_queue,
  get_topological_order,
}

-- The keys whose degree is still positive.
unfoldable is_positive : ℤ → ℕ
is_positive (pos (suc n)) = 1
is_positive v = 0

unfoldable positives : List (String × ℤ) → ℕ
unfolding is_positive
positives [] = 0
positives ((k, v) ∷ vs) = is_positive v + positives vs

abbrev one_if : Bool → ℕ
one_if b = if b then 1 else 0

one_less : (v : ℤ) → is_positive (v +ℤ negsuc 0) + one_if (is_zero (v +ℤ negsuc 0)) ≤ is_positive v
unfolding is_positive is_zero ◌+ℤ◌
one_less (pos zero) = omega arith
one_less (pos (suc zero)) = omega arith
one_less (pos (suc (suc n))) = ground arith
one_less (negsuc n) = ground arith

decrement-positives :
    (x : String) (vs : List (String × ℤ))
    → positives (decrement x vs) + one_if (is_zero (degree_of x (decrement x vs))) ≤ positives vs
unfolding positives decrement degree_of is_positive is_zero
decrement-positives x [] = let b = (eq_iff x x).1 refl in rw b (omega arith)
decrement-positives x ((j, v) ∷ vs) = ground (arith, one_less v, decrement-positives x vs)

length-snoc : (q : List String) (x : String) → length (q ++ x ∷ []) ≡ suc (length q)
length-snoc [] x = refl
length-snoc (y ∷ q) x = ap suc (length-snoc q x)

release-positives :
    (xs : List String) (degrees : List (String × ℤ)) (queue : List String)
    → positives (release xs degrees queue).0 + length (release xs degrees queue).1
      ≤ positives degrees + length queue
unfolding release
release-positives [] degrees queue = omega arith
release-positives (x ∷ xs) degrees queue =
    let fewer = decrement x degrees in
    let m = decrement-positives x degrees in
    if_cases
      (λ (q : List String).
        positives (release xs fewer q).0 + length (release xs fewer q).1
        ≤ positives degrees + length queue)
      (is_zero (degree_of x fewer))
      (λ b. ground (arith, release-positives xs fewer (queue ++ x ∷ []), length-snoc queue x))
      (λ b. ground (arith, release-positives xs fewer queue))

take_from_queue-returns :
    (rounds : ℕ) (nodes : List (String × DagNode)) (degrees : List (String × ℤ))
    (queue : List String)
    → positives degrees + length queue ≤ rounds
    → (ks : List String) × (take_from_queue rounds nodes (degrees, queue) ≡ some ks)
unfolding take_from_queue
take_from_queue-returns rounds nodes degrees [] enough = ([], refl)
take_from_queue-returns zero nodes degrees (k ∷ queue) enough = absurd (omega arith)
take_from_queue-returns (suc rounds) nodes degrees (k ∷ queue) enough =
    let m = release-positives (dependents_of nodes k) degrees queue in
    let (ks, e) =
      take_from_queue-returns rounds nodes (release (dependents_of nodes k) degrees queue).0
        (release (dependents_of nodes k) degrees queue).1 (omega arith) in
    (k ∷ ks, rw e refl)

initial_bound :
    (ns : List (String × DagNode))
    → positives (in_degrees ns) + length (without_dependencies (in_degrees ns)) ≤ length ns
unfolding positives in_degrees without_dependencies is_positive is_zero
initial_bound [] = omega arith
initial_bound ((k, n) ∷ ns) = ground (arith, initial_bound ns)

-- On every graph, cyclic or not and with whatever dependents, `GetTopologicalOrder` ends within as
-- many rounds as there are nodes.
pub get_topological_order-returns :
    (d : WorkflowDag) → (ks : List String) × (get_topological_order d ≡ some ks)
unfolding get_topological_order
get_topological_order-returns d =
    take_from_queue-returns (length d.nodes) d.nodes (in_degrees d.nodes)
      (without_dependencies (in_degrees d.nodes)) (initial_bound d.nodes)
