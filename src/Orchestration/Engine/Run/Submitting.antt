-- ===== src/Orchestration/Engine/Run/Submitting.antt =====
-- The moves of the submitting loop and of the workers keep the invariant of a run.
use gomind.Base.{
  ◌+◌, ◌≡◌, refl, inl, inr, true, false, List, [], ◌∷◌, ◌++◌, String, arith, Bool, Option, none,
  some, ◌||◌, Option-cases, if◌then◌else◌, subst, sym, ap, ◌∙◌,
}
use text.Mathlib.Text.{◌==◌}
use text.Mathlib.TextEquality.{eq_iff}
use gomind.Orchestration.Dag.{
  NodeStatus, DagNode, lookup, update, with_status, node_pending, node_running, mark_node_running,
}
use gomind.Orchestration.Dag.Validation.Links.{has}
use gomind.Orchestration.Engine.Run.{
  Run, Loop, looping, returned, succeeded, failed, panicked, mark, send, take_task, answer,
  panic_worker, drop_result, give_up,
}
use gomind.Orchestration.Engine.Run.Counting.{
  one_if, count, count_results, answers_for, count-append, count_results-append, count-removed,
}
use gomind.Orchestration.Engine.Run.Statuses.{
  status_of, pends_status, runs, fails, skips, SameShape-update, SetsTo-cases, update-SetsTo,
}
use gomind.Orchestration.Engine.Run.Invariant.{Placed, Inv, in_flight}
use gomind.Orchestration.Engine.Run.Placing.{Placed-mark, mirror-set}

module _ (base : List (String × DagNode)) where
  pends_has :
      (nodes : List (String × DagNode)) (k : String)
      → status_of nodes k ≡ some node_pending
      → has nodes k ≡ true
  unfolding status_of
  pends_has nodes k = elim (Option-cases (lookup k nodes)) [
    | inl e ↦ rw e (λ (h : Path (Option NodeStatus) none (some node_pending)). absurd (cc))
    | inr (n, e) ↦ λ h. rw e refl
  ]

  module _ (on_error : Bool) (r : Run) (inv : Inv base on_error r) where
    pub Inv-mark :
        (k : String) (ks : List String)
        → r.loop ≡ looping
        → r.submitting ≡ k ∷ ks
        → r.sending ≡ []
        → Inv base on_error (mark k ks r)
    unfolding mark mark_node_running count
    Inv-mark k ks going e idle =
        let b = (eq_iff k k).1 refl in
        let st = status_of r.dag.nodes in
        let placed : Placed base st (k ∷ ks) r.sent =
          subst (λ l. Placed base st l r.sent) e inv.placed in
        let pending : st k ≡ some node_pending =
          pends_status (st k) (let p = placed.pend k in ground arith) in
        let there = pends_has r.dag.nodes k pending in
        let c = update-SetsTo k node_running r.dag.nodes there in
        let st' = status_of (update k (with_status node_running) r.dag.nodes) in
        let before = λ (x : String). ap (count x) idle in
        record {
          shape = SameShape-update base r.dag.nodes k node_running inv.shape;
          placed = Placed-mark base st st' k ks r.sent c placed;
          mirror = mirror-set base st st' r.steps k node_running c inv.mirror;
          flight = λ x.
              SetsTo-cases (λ x o. in_flight base (mark k ks r) x ≡ one_if (runs o)) k node_running
                st st' c x
                (λ same.
                  let b' = (eq_iff k x).1 same in
                  let idle' : runs (st x) ≡ false =
                    subst (λ z. runs (st z) ≡ false) same
                      (subst (λ o. runs o ≡ false) (sym pending) refl) in
                  ground (arith, before x, inv.flight x))
                (λ other. ground (arith, before x, inv.flight x));
          ended = λ over. let wrong : Path Loop looping returned = sym going ∙ over in absurd (cc);
          clean = λ strict well x.
              SetsTo-cases (λ _ o. fails o || skips o ≡ false) k node_running st st' c x (λ _. refl)
                (λ _. inv.clean strict well x);
        }

    pub Inv-send : (k : String) → r.sending ≡ k ∷ [] → Inv base on_error (send k r)
    unfolding send count
    Inv-send k e = record {
      shape = inv.shape;
      placed = inv.placed;
      mirror = inv.mirror;
      flight =
          λ x. omega (arith, ap (count x) e, count-append x r.task_queue (k ∷ []), inv.flight x);
      ended = inv.ended;
      clean = inv.clean;
    }

    pub Inv-take :
        (k : String) (ks : List String)
        → r.task_queue ≡ k ∷ ks
        → Inv base on_error (take_task k ks r)
    unfolding take_task count
    Inv-take k ks e = record {
      shape = inv.shape;
      placed = inv.placed;
      mirror = inv.mirror;
      flight = λ x. omega (arith, ap (count x) e, inv.flight x);
      ended = inv.ended;
      clean = inv.clean;
    }

    module _ (k : String) (before after : List String) (e : r.working ≡ before ++ k ∷ after) where
      worked : (x : String) → count x r.working ≡ one_if (k == x) + count x (before ++ after)
      worked x = ap (count x) e ∙ count-removed x k before after

      answered_for :
          (x : String) (ok : Bool)
          → answers_for x (if ok then succeeded k else failed k) ≡ one_if (k == x)
      answered_for x true = refl
      answered_for x false = refl

      pub Inv-answer : (ok : Bool) → Inv base on_error (answer k ok before after r)
      unfolding answer count_results
      Inv-answer ok = record {
        shape = inv.shape;
        placed = inv.placed;
        mirror = inv.mirror;
        flight = λ x. omega (
          arith,
          worked x,
          count_results-append x r.results ((if ok then succeeded k else failed k) ∷ []),
          answered_for x ok,
          inv.flight x,
        );
        ended = inv.ended;
        clean = inv.clean;
      }

      pub Inv-panic_worker : Inv base on_error (panic_worker k before after r)
      unfolding panic_worker count_results count
      Inv-panic_worker = record {
        shape = inv.shape;
        placed = inv.placed;
        mirror = inv.mirror;
        flight = λ x.
            omega (arith, worked x, count_results-append x r.results (panicked ∷ []), inv.flight x);
        ended = inv.ended;
        clean = inv.clean;
      }

      pub Inv-drop_result : Inv base on_error (drop_result k before after r)
      unfolding drop_result count
      Inv-drop_result = record {
        shape = inv.shape;
        placed = inv.placed;
        mirror = inv.mirror;
        flight = λ x. omega (arith, worked x, inv.flight x);
        ended = inv.ended;
        clean = inv.clean;
      }

    pub Inv-give_up :
        (k : String) → r.sending ≡ k ∷ [] → r.context_done ≡ true → Inv base on_error (give_up k r)
    unfolding give_up count
    Inv-give_up k e over = record {
      shape = inv.shape;
      placed = inv.placed;
      mirror = inv.mirror;
      flight = λ x. omega (arith, ap (count x) e, inv.flight x);
      ended = λ _ going. absurd (cc);
      clean = inv.clean;
    }
