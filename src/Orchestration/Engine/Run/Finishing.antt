-- ===== src/Orchestration/Engine/Run/Finishing.antt =====
-- What `executeDAG` does with the graph of a workflow that was accepted.
use gomind.Base.{
  ◌+◌, ◌≤◌, ◌<◌, ◌≡◌, ◌≢◌, refl, ◌⊎◌, inl, inr, true, false, List, String, arith, Bool, Option,
  none, some, ◌||◌, Option-cases, subst, sym, ap, ◌∙◌,
}
use gomind.Orchestration.Dag.{
  NodeStatus, DagNode, WorkflowDag, contains, lookup, node_pending, node_running, node_completed,
  node_ready, node_failed, node_skipped,
}
use gomind.Orchestration.Dag.Names.{In, In→contains}
use gomind.Orchestration.Dag.Marks.{waits}
use gomind.Orchestration.Dag.Validation.Walks.{Edge}
use gomind.Orchestration.Dag.Validation.Links.{has}
use gomind.Orchestration.Dag.Validation.Adding.{contains-keys}
use gomind.Orchestration.Engine.Workflow.{
  Workflow, step_names, validate_workflow, accepted, build_dag, built,
}
use gomind.Orchestration.Engine.Workflow.Building.{StepDependsOn}
use gomind.Orchestration.Engine.Run.{
  Run, returned, finished, start, step_pending, step_running, step_completed, Reach, started, moved,
}
use gomind.Orchestration.Engine.Run.Counting.{count_results, one_if, count}
use gomind.Orchestration.Engine.Run.Statuses.{
  SameShape, pends_status, status_of, status_in, pends, pends_status, runs_status, settles, runs,
  fails, skips, readies, unfinished, SameShape-refl,
}
use gomind.Orchestration.Engine.Run.Looking.{WaitsFree}
use gomind.Orchestration.Engine.Run.Invariant.{shown, has_failed, Inv, in_flight}
use gomind.Orchestration.Engine.Run.Choosing.{Inv-Step, ended-or_WaitsFree}
use gomind.Orchestration.Engine.Run.Returning.{finished_returned}
use gomind.Orchestration.Engine.Run.Fresh.{IsFresh, built-IsFresh}

-- A name of the graph is pending, and any other has no status.
fresh_status :
    (nodes : List (String × DagNode)) (k : String)
    → waits nodes k ≡ has nodes k
    → (status_of nodes k ≡ some node_pending) ⊎ (status_of nodes k ≡ none)
unfolding status_of waits
fresh_status nodes k = elim (Option-cases (lookup k nodes)) [
  | inl e ↦ λ _. inr (rw e refl)
  | inr (n, e) ↦ rw e (λ w. inl (pends_status (some n.status) w))
]

fresh_test :
    (P : Option NodeStatus → Type 0) (o : Option NodeStatus)
    → (o ≡ some node_pending) ⊎ (o ≡ none)
    → P (some node_pending)
    → P none
    → P o
fresh_test P o (inl e) pending absent = subst P (sym e) pending
fresh_test P o (inr e) pending absent = subst P (sym e) absent

left_completed :
    (o : Option NodeStatus)
    → unfinished o ≡ false
    → fails o || skips o ≡ false
    → o ≢ none
    → o ≡ some node_completed
left_completed none a b c = absurd (c refl)
left_completed (some node_pending) a b c = absurd (cc)
left_completed (some node_ready) a b c = absurd (cc)
left_completed (some node_running) a b c = absurd (cc)
left_completed (some node_completed) a b c = refl
left_completed (some node_failed) a b c = absurd (cc)
left_completed (some node_skipped) a b c = absurd (cc)

has_status :
    (nodes : List (String × DagNode)) (k : String) → has nodes k ≡ true → status_of nodes k ≢ none
unfolding status_of
has_status nodes k = elim (Option-cases (lookup k nodes)) [
  | inl e ↦ rw e (λ h. absurd (cc))
  | inr (n, e) ↦ λ h wrong.
      let w : Path (Option NodeStatus) (some n.status) none = sym (ap status_in e) ∙ wrong in cc
]

module _ (w : Workflow) (d : WorkflowDag) (fresh : IsFresh w d) (on_error : Bool) where
  Inv-start : Inv d.nodes on_error (start d)
  unfolding start count count_results
  Inv-start = record {
    shape = SameShape-refl d.nodes;
    placed = record {
      pend = λ k. omega arith;
      once = λ k. by_status k (λ o. 0 + one_if (pends o) ≤ 1) (omega arith) (omega arith);
      free = λ k a h. absurd (omega arith);
      no_ready = λ k. by_status k (λ o. readies o ≡ false) refl refl;
      spread = λ a b.
          by_status a (λ o. fails o ≡ true → Edge d.nodes a b → pends (status_of d.nodes b) ≡ false)
            (λ h. absurd (cc)) (λ h. absurd (cc));
    };
    mirror = λ k. by_status k (λ o. shown o ≡ step_pending) refl refl;
    flight =
        λ k. by_status k (λ o. 0 + 0 + 0 + 0 + 0 ≡ one_if (runs o)) (omega arith) (omega arith);
    ended = λ over. absurd (cc);
    clean = λ _ _ k. by_status k (λ o. fails o || skips o ≡ false) refl refl;
  }
    where
      by_status :
          (k : String) (P : Option NodeStatus → Type 0)
          → P (some node_pending)
          → P none
          → P (status_of d.nodes k)
      by_status k P pending absent =
          fresh_test P (status_of d.nodes k) (fresh_status d.nodes k (fresh.waiting k)) pending
            absent

  Inv-Reach : {r : Run} → Reach on_error d r → Inv d.nodes on_error r
  Inv-Reach started = Inv-start
  Inv-Reach (moved h going s) =
      Inv-Step d.nodes fresh.plan fresh.has_order on_error going (Inv-Reach h) s

-- A status that is left where nothing runs, is ready, has failed or was skipped.
left_idle :
    (o : Option NodeStatus)
    → runs o ≡ false
    → readies o ≡ false
    → fails o || skips o ≡ false
    → o ≢ none
    → (o ≡ some node_completed) ⊎ (o ≡ some node_pending)
left_idle none a b c e = absurd (e refl)
left_idle (some node_pending) a b c e = inr refl
left_idle (some node_ready) a b c e = absurd (cc)
left_idle (some node_running) a b c e = absurd (cc)
left_idle (some node_completed) a b c e = inl refl
left_idle (some node_failed) a b c e = absurd (cc)
left_idle (some node_skipped) a b c e = absurd (cc)

completed_or_pending :
    (r : Run) (k : String)
    → shown (status_of r.dag.nodes k) ≡ r.steps k
    → (status_of r.dag.nodes k ≡ some node_completed)
      ⊎ (status_of r.dag.nodes k ≡ some node_pending)
    → (r.steps k ≡ step_completed) ⊎ (r.steps k ≡ step_pending)
completed_or_pending r k mirror (inl e) = inl (sym mirror ∙ ap shown e)
completed_or_pending r k mirror (inr e) = inr (sym mirror ∙ ap shown e)

-- A step of the workflow has a status.
present_status :
    (w : Workflow) (d : WorkflowDag)
    → IsFresh w d
    → (r : Run) → SameShape d.nodes r.dag.nodes
    → (k : String) → In k (step_names w.steps)
    → status_of r.dag.nodes k ≢ none
present_status w d fresh r shape k i = has_status r.dag.nodes k (
    shape.same_has k
    ∙ sym (contains-keys d.nodes k)
    ∙ ap (λ l. contains l k) fresh.named
    ∙ In→contains (step_names w.steps) k i)

-- Every step has ended, and is completed unless the strategy is "continue".
abbrev pub AllEnded : Workflow → Bool → Run → Type 0
AllEnded w on_error r =
    (k : String)
    → (unfinished (status_of r.dag.nodes k) ≡ false)
      × (on_error ≡ false → In k (step_names w.steps) → r.steps k ≡ step_completed)

-- Whatever the workers, the services and the context do, and however the goroutines interleave:
-- each step of an accepted workflow is submitted at most once, and only after every step that it
-- depends on was completed or skipped, which it stays.
pub run-submits_in_order :
    (w : Workflow) (d : WorkflowDag) (on_error : Bool) (r : Run)
    → validate_workflow w ≡ accepted
    → build_dag w.steps ≡ built d
    → Reach on_error d r
    → (k : String)
    → (count k r.sent ≤ 1)
      × (0 < count k r.sent
          → (a : String) → StepDependsOn w.steps k a
          → settles (status_of r.dag.nodes a) ≡ true)
run-submits_in_order w d on_error r ok b h k =
    let fresh = built-IsFresh w d ok b in
    let inv = Inv-Reach w d fresh on_error h in
    (
      (let o = inv.placed.once k in omega arith),
      λ more a s. inv.placed.free k a (omega (arith, more)) ((fresh.mirrored a k).1 s),
    )

-- Where `executeDAG` returns nil and the context has not ended, no task and no result is left, no
-- worker has panicked during a step, and there are two cases. Either every step has ended: it is
-- completed, failed or skipped, and completed unless the strategy is "continue". Or the loop has
-- returned too early, with a step that is ready: it is pending, and all that it depends on is
-- completed or skipped; and unless the strategy is "continue", each step is completed or pending.
pub run-finishes :
    (w : Workflow) (d : WorkflowDag) (on_error : Bool) (r : Run)
    → validate_workflow w ≡ accepted
    → build_dag w.steps ≡ built d
    → Reach on_error d r
    → r.main ≡ finished
    → r.context_done ≡ false
    → ((k : String) → in_flight d.nodes r k ≡ 0)
      × (on_error ≡ false
          → (k : String) → In k (step_names w.steps)
          → (r.steps k ≡ step_completed) ⊎ (r.steps k ≡ step_pending))
      × (AllEnded w on_error r ⊎ ((k : String) × WaitsFree r.dag.nodes k))
run-finishes w d on_error r ok b h over alive =
    let fresh = built-IsFresh w d ok b in
    let inv = Inv-Reach w d fresh on_error h in
    let idle = inv.ended (finished_returned h over) alive in
    let sound = λ (strict : on_error ≡ false).
      inv.clean strict (subst (λ x. has_failed x ≡ false) (sym over) refl) in
    let present = present_status w d fresh r inv.shape in
    (
      (λ k. let e = idle k in let f = inv.flight k in ground arith),
      (λ strict k i. completed_or_pending r k (inv.mirror k) (
          left_idle (status_of r.dag.nodes k) (idle k) (inv.placed.no_ready k) (sound strict k)
            (present k i))),
      (elim (ended-or_WaitsFree d.nodes fresh.plan fresh.has_order on_error r inv idle) [
        | inr free ↦ inr free
        | inl done ↦ inl (λ k. (
          done k,
          λ strict i.
              sym (inv.mirror k)
              ∙ ap shown (
                  left_completed (status_of r.dag.nodes k) (done k) (sound strict k) (present k i)),
        ))
      ]),
    )

-- A step during which a worker has panicked, or whose result was dropped, stays running: while the
-- context has not ended, the submitting loop does not return, and `executeDAG` does not return nil.
pub run-lost_hangs :
    (w : Workflow) (d : WorkflowDag) (on_error : Bool) (r : Run) (k : String)
    → validate_workflow w ≡ accepted
    → build_dag w.steps ≡ built d
    → Reach on_error d r
    → 0 < count k r.lost
    → r.context_done ≡ false
    → (r.steps k ≡ step_running) × (r.loop ≢ returned) × (r.main ≢ finished)
run-lost_hangs w d on_error r k ok b h gone alive =
    let fresh = built-IsFresh w d ok b in
    let inv = Inv-Reach w d fresh on_error h in
    let running : runs (status_of r.dag.nodes k) ≡ true = let f = inv.flight k in ground arith in
    let at_k = runs_status (status_of r.dag.nodes k) running in
    let still : r.loop ≢ returned = λ over. let idle = inv.ended over alive k in cc in
    (sym (inv.mirror k) ∙ ap shown at_k, still, λ over. still (finished_returned h over))
