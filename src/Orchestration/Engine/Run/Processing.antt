-- ===== src/Orchestration/Engine/Run/Processing.antt =====
-- The processing of a result keeps the invariant of a run.
use gomind.Base.{
  ℕ, ◌+◌, ◌<◌, ◌≡◌, refl, inl, inr, true, false, List, ◌∷◌, String, arith, Bool, Option, none, some,
  ◌||◌, Bool-cases, Option-cases, if◌then◌else◌, subst, sym, ap, ◌∙◌,
}
use text.Mathlib.Text.{◌==◌}
use text.Mathlib.TextEquality.{eq_iff}
use gomind.Orchestration.Dag.{
  NodeStatus, DagNode, WorkflowDag, lookup, update, with_status, node_pending, node_running,
  node_completed, node_failed, mark_node_failed, mark_node_completed,
}
use gomind.Orchestration.Dag.Names.{In, All-In}
use gomind.Orchestration.Dag.Marks.{waits, dependents_of}
use gomind.Orchestration.Dag.Skipping.{mark_node_failed-NoneWaits}
use gomind.Orchestration.Dag.Validation.Links.{has}
use gomind.Orchestration.Engine.Run.{
  Run, Main, processing, worker_panic, step_failed, Message, succeeded, failed, panicked, process,
}
use gomind.Orchestration.Engine.Run.Counting.{one_if, count_results}
use gomind.Orchestration.Engine.Run.Statuses.{
  status_of, settles, runs, fails, skips, waits-pends, runs_status, status_of-update,
  status_of-updated, SameShape, SameShape-update, SameShape-trans, SetsTo-cases, update-SetsTo,
}
use gomind.Orchestration.Engine.Run.Failing.{Skips, mark_node_failed-Skips}
use gomind.Orchestration.Engine.Run.Invariant.{has_failed, Inv, in_flight}
use gomind.Orchestration.Engine.Run.Placing.{
  FailsAt-cases, Placed-complete, Placed-fail, FailsAt, FailsAt-cases, mirror-set, mirror-fail,
}

module _ (base : List (String × DagNode)) where
  mark_node_failed-FailsAt :
      (d : WorkflowDag) (k : String)
      → SameShape base d.nodes
      → has d.nodes k ≡ true
      → status_of d.nodes k ≡ some node_running
      → FailsAt base k (status_of d.nodes) (status_of (mark_node_failed d k).nodes)
        × SameShape base (mark_node_failed d k).nodes
  mark_node_failed-FailsAt d k shape there running = (
    record {
      at_k = elim (s.change k) [
        | inl same ↦ same ∙ at_failed
        | inr (was, is, held) ↦
            let wrong : Path (Option NodeStatus) (some node_failed) (some node_pending) =
              sym at_failed ∙ was in
            absurd (cc)
      ];
      elsewhere = λ x other.
          let still = status_of-update k node_failed d.nodes x other in
          elim (s.change x) [
            | inl same ↦ inl (same ∙ still)
            | inr (was, is, (y, i, open')) ↦ inr (
              sym still ∙ was,
              is,
              (y, subst (λ l. In x l) (base_failed.same_dependents y) i, settles_before y open'),
            )
          ];
      at_dependents = λ x e.
          sym (waits-pends (mark_node_failed d k).nodes x)
          ∙ All-In (λ z. waits (mark_node_failed d k).nodes z ≡ false) (dependents_of d.nodes k) x
              (mark_node_failed-NoneWaits d k k there (inl refl))
              (subst (λ l. In x l) (sym (shape.same_dependents k)) e);
    },
    SameShape-trans base failed' (mark_node_failed d k).nodes base_failed s.shape,
  )
    where
      failed' : List (String × DagNode)
      failed' = update k (with_status node_failed) d.nodes

      s : Skips failed' (mark_node_failed d k).nodes
      s = mark_node_failed-Skips d k there

      at_failed : status_of failed' k ≡ some node_failed
      at_failed = status_of-updated k node_failed d.nodes there

      base_failed : SameShape base failed'
      base_failed = SameShape-update base d.nodes k node_failed shape

      settles_before :
          (y : String)
          → settles (status_of failed' y) ≡ false
          → settles (status_of d.nodes y) ≡ false
      settles_before y open' = elim (Bool-cases (k == y)) [
        | inl e ↦
            subst (λ z. settles (status_of d.nodes z) ≡ false) ((eq_iff k y).0 e)
              (subst (λ o. settles o ≡ false) (sym running) refl)
        | inr e ↦ subst (λ o. settles o ≡ false) (status_of-update k node_failed d.nodes y e) open'
      ]

  runs_has :
      (nodes : List (String × DagNode)) (k : String)
      → status_of nodes k ≡ some node_running
      → has nodes k ≡ true
  unfolding status_of
  runs_has nodes k = elim (Option-cases (lookup k nodes)) [
    | inl e ↦ rw e (λ (h : Path (Option NodeStatus) none (some node_running)). absurd (cc))
    | inr (n, e) ↦ λ h. rw e refl
  ]

  module _ (on_error : Bool) (r : Run) (inv : Inv base on_error r) where
    -- The step of a result is one that runs.
    running_of :
        (k : String) → 0 < count_results k r.results → status_of r.dag.nodes k ≡ some node_running
    running_of k h =
        let b : runs (status_of r.dag.nodes k) ≡ true = ground (arith, inv.flight k) in
        runs_status (status_of r.dag.nodes k) b

    -- A result of the step is gone, and the step no longer runs.
    flight_after :
        (st' : String → Option NodeStatus) (k x : String) (rest : ℕ)
        → in_flight base r x ≡ one_if (k == x) + rest
        → runs (st' k) ≡ false
        → ((k == x) ≡ false → runs (st' x) ≡ runs (status_of r.dag.nodes x))
        → rest ≡ one_if (runs (st' x))
    flight_after st' k x rest e stopped same = elim (Bool-cases (k == x)) [
      | inl b ↦
          let now : runs (st' x) ≡ false =
            subst (λ z. runs (st' z) ≡ false) ((eq_iff k x).0 b) stopped in
          ground (arith, inv.flight x)
      | inr b ↦ ground (arith, inv.flight x, same b)
    ]

    pub Inv-succeeded :
        (k : String) (rest : List Message)
        → r.results ≡ succeeded k ∷ rest
        → Inv base on_error (process on_error (succeeded k) rest r)
    unfolding process mark_node_completed count_results
    Inv-succeeded k rest e =
        let b = (eq_iff k k).1 refl in
        let counted = λ (x : String). ap (count_results x) e in
        let running = running_of k (ground (arith, counted k)) in
        let there = runs_has r.dag.nodes k running in
        let c = update-SetsTo k node_completed r.dag.nodes there in
        let st' = status_of (update k (with_status node_completed) r.dag.nodes) in
        record {
          shape = SameShape-update base r.dag.nodes k node_completed inv.shape;
          placed =
              Placed-complete base (status_of r.dag.nodes) st' k r.submitting r.sent c running
                inv.placed;
          mirror =
              mirror-set base (status_of r.dag.nodes) st' r.steps k node_completed c inv.mirror;
          flight = λ x.
              flight_after st' k x (in_flight base (process on_error (succeeded k) rest r) x)
                (omega (arith, counted x)) (subst (λ o. runs o ≡ false) (sym c.set) refl)
                (λ other. ap runs (c.kept x other));
          ended = λ over going x.
              SetsTo-cases (λ _ o. runs o ≡ false) k node_completed (status_of r.dag.nodes) st' c x
                (λ _. refl) (λ _. inv.ended over going x);
          clean = λ strict well x.
              SetsTo-cases (λ _ o. fails o || skips o ≡ false) k node_completed
                (status_of r.dag.nodes) st' c x (λ _. refl) (λ _. inv.clean strict well x);
        }

    -- The main loop goes on after an error only under the strategy "continue".
    stops :
        (m : Main)
        → has_failed m ≡ true
        → on_error ≡ false
        → has_failed (if on_error then processing else m) ≡ false
        → ⊥
    stops m bad strict well =
        cc (subst (λ b. has_failed (if b then processing else m) ≡ false) strict well)

    pub Inv-failed :
        (k : String) (rest : List Message)
        → r.results ≡ failed k ∷ rest
        → Inv base on_error (process on_error (failed k) rest r)
    unfolding process count_results
    Inv-failed k rest e =
        let b = (eq_iff k k).1 refl in
        let counted = λ (x : String). ap (count_results x) e in
        let running = running_of k (ground (arith, counted k)) in
        let there = runs_has r.dag.nodes k running in
        let (f, shape) = mark_node_failed-FailsAt r.dag k inv.shape there running in
        let st = status_of r.dag.nodes in
        let st' = status_of (mark_node_failed r.dag k).nodes in
        record {
          shape = shape;
          placed = Placed-fail base st st' k r.submitting r.sent f running inv.placed;
          mirror = mirror-fail base st st' r.steps k f running inv.mirror;
          flight = λ x.
              flight_after st' k x (in_flight base (process on_error (failed k) rest r) x)
                (omega (arith, counted x)) (subst (λ o. runs o ≡ false) (sym f.at_k) refl)
                (λ other.
                  FailsAt-cases base (λ z o. (k == z) ≡ false → runs o ≡ runs (st z)) k st st' f x
                    (λ same out. let b' = (eq_iff k x).1 same in absurd (cc)) (λ _ _. refl)
                    (λ was y edge open' _. sym (ap runs was)) other);
          ended = λ over going x.
              FailsAt-cases base (λ _ o. runs o ≡ false) k st st' f x (λ _. refl)
                (λ _. inv.ended over going x) (λ _ _ _ _. refl);
          clean = λ strict well. absurd (stops (step_failed k) refl strict well);
        }

    pub Inv-panicked :
        (rest : List Message)
        → r.results ≡ panicked ∷ rest
        → Inv base on_error (process on_error panicked rest r)
    unfolding process count_results
    Inv-panicked rest e =
        let counted = λ (x : String). ap (count_results x) e in
        record {
          shape = inv.shape;
          placed = inv.placed;
          mirror = inv.mirror;
          flight = λ x. omega (arith, counted x, inv.flight x);
          ended = inv.ended;
          clean = λ strict well. absurd (stops worker_panic refl strict well);
        }
