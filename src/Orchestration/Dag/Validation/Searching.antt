-- ===== src/Orchestration/Dag/Validation/Searching.antt =====
-- `hasCycleDFS`: where it finds no cycle, what it has left behind is in an order of execution.
use gomind.Base.{
  ℕ, ◌≤◌, ◌<◌, ◌≡◌, ◌⊎◌, inl, inr, false, List, [], ◌∷◌, String, arith, subst, Bool-cases, All,
}
use text.Mathlib.Text.{◌==◌}
use text.Mathlib.TextEquality.{eq_iff}
use gomind.Orchestration.Dag.{DagNode, contains}
use gomind.Orchestration.Dag.Names.{In-append_cases, In, contains→In, In→contains}
use gomind.Orchestration.Dag.Levels.{count_left}
use gomind.Orchestration.Dag.Ready.{IsNode}
use gomind.Orchestration.Dag.Validation.{
  Search, Dfs, cycle_found, clear, missing_node, out_of_fuel, and_then, without, enter, leave,
  follow, check_dependents,
}
use gomind.Orchestration.Dag.Validation.Walks.{Edge, Reach, step, HasCycle, IsOrdered}

In-without : (k y : String) (js : List String) → In y js → (k ≡ y) ⊎ In y (without k js)
unfolding without
In-without k y [] i = elim i [ ]
In-without k y (j ∷ js) (inl e) = elim (Bool-cases (j == k)) [
  | inl b ↦ inl (let same = (eq_iff j k).0 b in cc)
  | inr b ↦ inr (rw b (inl e))
]
In-without k y (j ∷ js) (inr i) = elim (In-without k y js i) [
  | inl e ↦ inl e
  | inr later ↦ inr (elim (Bool-cases (j == k)) [ inl b ↦ rw b later | inr b ↦ rw b (inr later) ])
]

without-In : (k y : String) (js : List String) → In y (without k js) → In y js × (¬ (k ≡ y))
unfolding without
without-In k y [] = λ i. absurd i
without-In k y (j ∷ js) = elim (Bool-cases (j == k)) [
  | inl b ↦ rw b (λ i. let (later, new) = without-In k y js i in (inr later, new))
  | inr b ↦ rw b (λ i. elim i [
    | inl e ↦ (inl e, λ same. let b' = (eq_iff j k).1 (cc) in cc)
    | inr i ↦ let (later, new) = without-In k y js i in (inr later, new)
  ])
]

-- The names that the search is done with, in the order of leaving them, the last one first. Each
-- visited node is one of them or is on the stack.
pub record Inv (nodes : List (String × DagNode)) (s : Search) (done : List String) : Type 0 where
  pub ordered : IsOrdered nodes done
  pub covered : (y : String) → In y s.visited → In y done ⊎ In y s.rec_stack

pub record Later (nodes : List (String × DagNode)) (s : Search) (done : List String) (t : Search)
    (done' : List String) : Type 0 where
  pub kept : (y : String) → In y done → In y done'
  pub unstacked : (y : String) → In y t.rec_stack → In y s.rec_stack
  pub fewer : count_left t.visited nodes ≤ count_left s.visited nodes

module _ (nodes : List (String × DagNode)) where
  abbrev pub Leads : String → Search → Type 0
  Leads id s = (y : String) → In y s.rec_stack → Reach nodes y id

  -- The search ends, with a cycle that is there, or in a state that satisfies `P`.
  abbrev pub Ends : (Search → Type 0) → Dfs → Type 0
  Ends P (clear s) = P s
  Ends P cycle_found = HasCycle nodes
  Ends P missing_node = ⊥
  Ends P out_of_fuel = ⊥

  pub Ends-bind :
      (P Q : Search → Type 0) (r : Dfs) (f : Search → Dfs)
      → Ends P r
      → ((s : Search) → P s → Ends Q (f s))
      → Ends Q (and_then r f)
  unfolding and_then
  Ends-bind P Q (clear s) f h k = k s h
  Ends-bind P Q cycle_found f h k = h
  Ends-bind P Q missing_node f h k = absurd h
  Ends-bind P Q out_of_fuel f h k = absurd h

  pub Ends-mono :
      (P Q : Search → Type 0) (r : Dfs) → ((s : Search) → P s → Q s) → Ends P r → Ends Q r
  Ends-mono P Q (clear s) k h = k s h
  Ends-mono P Q cycle_found k h = h
  Ends-mono P Q missing_node k h = absurd h
  Ends-mono P Q out_of_fuel k h = absurd h

  -- From `s`, the search has gone on to a state in which the names of `P` are done with.
  abbrev pub Went : Search → List String → (String → Type 0) → Search → Type 0
  Went s done P t =
      (done' : List String) × Later nodes s done t done'
      × Inv nodes t done'
      × ((y : String) → P y → In y done')

  pub off_stack-done :
      (s : Search) (done : List String) (x : String)
      → Inv nodes s done
      → In x s.visited
      → contains s.rec_stack x ≡ false
      → In x done
  off_stack-done s done x inv i off = elim (inv.covered x i) [
    | inl j ↦ j
    | inr on ↦ let b = In→contains s.rec_stack x on in absurd (cc)
  ]

  pub Later-refl : (s : Search) (done : List String) → Later nodes s done s done
  Later-refl s done = record { kept = λ y i. i; unstacked = λ y i. i; fewer = omega arith }

  pub Later-trans :
      (s t u : Search) (d e f : List String)
      → Later nodes s d t e
      → Later nodes t e u f
      → Later nodes s d u f
  Later-trans s t u d e f a b = record {
    kept = λ y i. b.kept y (a.kept y i);
    unstacked = λ y i. a.unstacked y (b.unstacked y i);
    fewer = omega (arith, a.fewer, b.fewer);
  }

  -- What a call promises for a name that is not visited, while fewer than `depth` nodes are not.
  abbrev pub Visits : ℕ → (String → Search → Dfs) → Type 0
  Visits depth visit =
      (k : String) (s : Search) (done : List String)
      → IsNode nodes k
      → contains s.visited k ≡ false
      → count_left s.visited nodes < depth
      → ((y : String) → In y s.rec_stack → Reach nodes y k)
      → Inv nodes s done
      → Ends (Went s done (λ y. k ≡ y)) (visit k s)

  module _ (depth : ℕ) (visit : String → Search → Dfs) (visits : Visits depth visit)
      (id : String) where
    follow-Ends :
        (dependent : String) (s : Search) (done : List String)
        → Edge nodes id dependent
        → IsNode nodes dependent
        → count_left s.visited nodes < depth
        → Leads id s
        → Inv nodes s done
        → Ends (Went s done (λ y. dependent ≡ y)) (
            follow visit dependent s
              (contains s.visited dependent)
              (contains s.rec_stack dependent))
    unfolding follow
    follow-Ends dependent s done e node enough leads inv =
        elim (Bool-cases (contains s.visited dependent)) [
          | inr new ↦
              rw new (visits dependent s done node new enough (λ y i. step (leads y i) e) inv)
          | inl old ↦ elim (Bool-cases (contains s.rec_stack dependent)) [
            | inl on ↦
                rw (old, on)
                  (record {
                    node = id;
                    dependent = dependent;
                    edge = e;
                    back = leads dependent (contains→In s.rec_stack dependent on);
                  })
            | inr off ↦
                rw (old, off)
                  (
                    done,
                    Later-refl s done,
                    inv,
                    λ y same.
                        subst (λ z. In z done) same
                          (off_stack-done s done dependent inv (contains→In s.visited dependent old)
                            off),
                  )
          ]
        ]

    pub check_dependents-Ends :
        (xs : List String) (s : Search) (done : List String)
        → All (λ x. Edge nodes id x × IsNode nodes x) xs
        → count_left s.visited nodes < depth
        → Leads id s
        → Inv nodes s done
        → Ends (Went s done (λ y. In y xs)) (check_dependents visit xs s)
    unfolding check_dependents
    check_dependents-Ends [] s done edges enough leads inv =
        (done, Later-refl s done, inv, λ y i. absurd i)
    check_dependents-Ends (x ∷ xs) s done ((e, node), edges) enough leads inv =
        Ends-bind (Went s done (λ y. x ≡ y)) (Went s done (λ y. In y (x ∷ xs)))
          (follow visit x s (contains s.visited x) (contains s.rec_stack x))
          (check_dependents visit xs) (follow-Ends x s done e node enough leads inv)
          (λ t (d, l, inv', found). after t d l found (
            check_dependents-Ends xs t d edges (omega (arith, l.fewer))
              (λ y i. leads y (l.unstacked y i)) inv'))
      where
        after :
            (t : Search) (d : List String)
            → Later nodes s done t d
            → ((y : String) → x ≡ y → In y d)
            → Ends (Went t d (λ y. In y xs)) (check_dependents visit xs t)
            → Ends (Went s done (λ y. In y (x ∷ xs))) (check_dependents visit xs t)
        after t d l found =
            Ends-mono (Went t d (λ y. In y xs)) (Went s done (λ y. In y (x ∷ xs)))
              (check_dependents visit xs t)
              (λ u (d', l', inv', all). (
                d',
                Later-trans s t u done d d' l l',
                inv',
                λ y i. elim i [ inl same ↦ l'.kept y (found y same) | inr i ↦ all y i ],
              ))

  pub Inv-enter :
      (id : String) (s : Search) (done : List String)
      → Inv nodes s done
      → Inv nodes (enter id s) done
  unfolding enter
  Inv-enter id s done inv = record {
    ordered = inv.ordered;
    covered = λ y i. elim (In-append_cases y s.visited id i) [
      | inl old ↦ elim (inv.covered y old) [ inl j ↦ inl j | inr on ↦ inr (inr on) ]
      | inr same ↦ inr (inl same)
    ];
  }

  pub Inv-leave :
      (id : String) (t : Search) (done : List String)
      → Inv nodes t done
      → ((y : String) → Edge nodes id y → In y done)
      → Inv nodes (leave id t) (id ∷ done)
  unfolding leave
  Inv-leave id t done inv edges = record {
    ordered = (edges, inv.ordered);
    covered = λ y i. elim (inv.covered y i) [
      | inl j ↦ inl (inr j)
      | inr on ↦ elim (In-without id y t.rec_stack on) [
        | inl same ↦ inl (inl same)
        | inr still ↦ inr still
      ]
    ];
  }

  pub Later-leave :
      (id : String) (s t : Search) (done done' : List String)
      → count_left (enter id s).visited nodes ≤ count_left s.visited nodes
      → Later nodes (enter id s) done t done'
      → Later nodes s done (leave id t) (id ∷ done')
  unfolding enter leave
  Later-leave id s t done done' grown l = record {
    kept = λ y i. inr (l.kept y i);
    unstacked = λ y i.
        let (on, other) = without-In id y t.rec_stack i in
        elim (l.unstacked y on) [ inl same ↦ absurd (other same) | inr below ↦ below ];
    fewer = omega (arith, l.fewer);
  }
