-- ===== src/Orchestration/Engine/Run/Choosing.antt =====
-- A look at the graph keeps the invariant of a run, and so does every move.
use gomind.Base.{
  if◌then◌else◌, ◌⊎◌, ◌≤◌, ◌<◌, ◌≡◌, refl, ◌↔◌, inl, inr, false, List, [], ◌∷◌, String, arith, Bool,
  some, Bool-cases, subst, sym,
}
use gomind.Orchestration.Dag.{any_running, DagNode, all_finished, is_complete, has_running_nodes}
use gomind.Orchestration.Dag.Names.{In}
use gomind.Orchestration.Dag.Validation.Walks.{Edge, IsOrdered}
use gomind.Orchestration.Dag.Validation.Deciding.{HasOrder}
use gomind.Orchestration.Engine.Run.{
  returned, looping, Loop, check_complete, check_running, checks_complete, checks_running,
  checking_running, Run, Main, processing, finished, cancelled, Message, succeeded, failed,
  panicked, look, looked_at, Step, looks, marks, sends, takes, answers, panics, panics_unsent,
  processes, ends, context_ends, gives_up, drops, cancels, process,
}
use gomind.Orchestration.Engine.Run.Counting.{count, count-In, In-or_none}
use gomind.Orchestration.Engine.Run.Statuses.{unfinished, unfinished_idle, runs, status_of, pends}
use gomind.Orchestration.Engine.Run.Looking.{
  IsPlan, SameShape-IsPlan, entry_key, key_entry, WaitsFree, get_ready_nodes-WaitsFree,
}
use gomind.Orchestration.Engine.Run.Invariant.{has_failed, Inv}
use gomind.Orchestration.Engine.Run.Processing.{Inv-succeeded, Inv-failed, Inv-panicked}
use gomind.Orchestration.Engine.Run.Submitting.{
  Inv-mark, Inv-send, Inv-take, Inv-answer, Inv-panic_worker, Inv-drop_result, Inv-give_up,
}
use gomind.Orchestration.Engine.Run.Stuck.{is_complete-unfinished, any_running-runs, never_stuck}

module _ (base : List (String × DagNode)) (plan : IsPlan base) (has_order : HasOrder base)
    (on_error : Bool) where
  module _ (r : Run) (inv : Inv base on_error r) where
    Edge-now : (a b : String) → Edge base a b → Edge r.dag.nodes a b
    Edge-now a b e = subst (λ l. In b l) (sym (inv.shape.same_dependents a)) e

    Edge-base : (a b : String) → Edge r.dag.nodes a b → Edge base a b
    Edge-base a b e = subst (λ l. In b l) (inv.shape.same_dependents a) e

    entry_before :
        (k : String) (n : DagNode) → In (k, n) r.dag.nodes → (m : DagNode) × In (k, m) base
    entry_before k n i =
        key_entry k base (subst (λ l. In k l) inv.shape.same_keys (entry_key k n r.dag.nodes i))

    IsOrdered-now : (xs : List String) → IsOrdered base xs → IsOrdered r.dag.nodes xs
    IsOrdered-now [] o = tt
    IsOrdered-now (x ∷ xs) (first, o) = (λ y e. first y (Edge-base x y e), IsOrdered-now xs o)

    Inv-ready :
        (ks : List String)
        → ((k : String) → In k ks → WaitsFree r.dag.nodes k)
        → ((k : String) → count k ks ≤ 1)
        → Inv base on_error (record r { submitting = ks })
    Inv-ready ks free few = record {
      shape = inv.shape;
      placed = record {
        pend = λ k. elim (Bool-cases (pends (status_of r.dag.nodes k))) [
          | inl w ↦ rw w (few k)
          | inr done ↦
              let none' : ¬ (0 < count k ks) = λ more.
                let now = (free k (count-In k ks more)).0 in
                let wrong = subst (λ o. pends o ≡ false) now done in cc in
              rw done (omega arith)
        ];
        once = inv.placed.once;
        free = λ k a h e. elim (In-or_none k ks) [
          | inl i ↦ (free k i).1 a (Edge-now a k e)
          | inr out ↦ inv.placed.free k a (omega arith) e
        ];
        no_ready = inv.placed.no_ready;
        spread = inv.placed.spread;
      };
      mirror = inv.mirror;
      flight = inv.flight;
      ended = inv.ended;
      clean = inv.clean;
    }

    Inv-check_complete : Inv base on_error (check_complete r)
    unfolding check_complete is_complete
    Inv-check_complete = record {
      shape = inv.shape;
      placed = inv.placed;
      mirror = inv.mirror;
      flight = inv.flight;
      ended = λ over _ k. elim (Bool-cases (all_finished r.dag.nodes)) [
        | inl complete ↦
            unfinished_idle (status_of r.dag.nodes k)
              (is_complete-unfinished r.dag.nodes complete k)
        | inr left ↦
            let wrong : Path Loop checking_running returned =
              subst (λ b. (if b then returned else checking_running) ≡ returned) left over in
            absurd (cc)
      ];
      clean = inv.clean;
    }

    Inv-check_running : Inv base on_error (check_running r)
    unfolding check_running has_running_nodes
    Inv-check_running = record {
      shape = inv.shape;
      placed = inv.placed;
      mirror = inv.mirror;
      flight = inv.flight;
      ended = λ over _. elim (Bool-cases (any_running r.dag.nodes)) [
        | inr none' ↦ any_running-runs r.dag.nodes none'
        | inl some' ↦
            let wrong : Path Loop looping returned =
              subst (λ b. (if b then looping else returned) ≡ returned) some' over in
            absurd (cc)
      ];
      clean = inv.clean;
    }

    -- Where nothing runs, every node has ended or some node is ready.
    pub ended-or_WaitsFree :
        ((k : String) → runs (status_of r.dag.nodes k) ≡ false)
        → ((k : String) → unfinished (status_of r.dag.nodes k) ≡ false)
          ⊎ ((k : String) × WaitsFree r.dag.nodes k)
    ended-or_WaitsFree idle =
        let now = SameShape-IsPlan base r.dag.nodes inv.shape plan in
        let (ks, e, iff, few) = get_ready_nodes-WaitsFree r.dag.nodes now in from_ready ks iff
      where
        from_ready :
            (ks : List String)
            → ((k : String) → In k ks ↔ WaitsFree r.dag.nodes k)
            → ((k : String) → unfinished (status_of r.dag.nodes k) ≡ false)
              ⊎ ((k : String) × WaitsFree r.dag.nodes k)
        from_ready (k ∷ ks) iff = inr (k, (iff k).0 (inl refl))
        from_ready [] iff =
            let (order, ordered, covers) = has_order in
            inl (
              never_stuck r.dag.nodes order (IsOrdered-now order ordered)
                (λ k n i. let (m, j) = entry_before k n i in covers k m j)
                (SameShape-IsPlan base r.dag.nodes inv.shape plan) idle inv.placed.no_ready
                (λ a b bad e. inv.placed.spread a b bad (Edge-base a b e))
                (λ k w. absurd ((iff k).1 w)))

    Inv-look : Inv base on_error (look r)
    unfolding look looked_at
    Inv-look =
        let (ks, e, iff, few) =
          get_ready_nodes-WaitsFree r.dag.nodes
            (SameShape-IsPlan base r.dag.nodes inv.shape plan) in
        subst (λ o. Inv base on_error (looked_at o r)) (sym e) (looked ks iff few)
      where
        looked :
            (ks : List String)
            → ((k : String) → In k ks ↔ WaitsFree r.dag.nodes k)
            → ((k : String) → count k ks ≤ 1)
            → Inv base on_error (looked_at (some ks) r)
        looked [] iff few = record {
          shape = inv.shape;
          placed = inv.placed;
          mirror = inv.mirror;
          flight = inv.flight;
          ended = λ over. absurd (cc);
          clean = inv.clean;
        }
        looked (k ∷ ks) iff few = Inv-ready (k ∷ ks) (λ x i. (iff x).0 i) few

  -- Every move.
  Inv-processed :
      (r : Run) (m : Message) (ms : List Message)
      → Inv base on_error r
      → r.results ≡ m ∷ ms
      → Inv base on_error (process on_error m ms r)
  Inv-processed r (succeeded k) ms inv e = Inv-succeeded base on_error r inv k ms e
  Inv-processed r (failed k) ms inv e = Inv-failed base on_error r inv k ms e
  Inv-processed r panicked ms inv e = Inv-panicked base on_error r inv ms e

  -- The processing loop returns without an error.
  Inv-main :
      (r : Run) (m : Main)
      → r.main ≡ processing
      → Inv base on_error r
      → Inv base on_error (record r { main = m })
  Inv-main r m going inv = record {
    shape = inv.shape;
    placed = inv.placed;
    mirror = inv.mirror;
    flight = inv.flight;
    ended = inv.ended;
    clean = λ strict _. inv.clean strict (subst (λ x. has_failed x ≡ false) (sym going) refl);
  }

  pub Inv-Step :
      {r t : Run}
      → r.main ≡ processing
      → Inv base on_error r
      → Step on_error r t
      → Inv base on_error t
  Inv-Step {r} going inv (looks _ _ _) = Inv-look r inv
  Inv-Step {r} going inv (checks_complete _) = Inv-check_complete r inv
  Inv-Step {r} going inv (checks_running _) = Inv-check_running r inv
  Inv-Step {r} going inv (marks k ks l e i) = Inv-mark base on_error r inv k ks l e i
  Inv-Step {r} going inv (sends k e _) = Inv-send base on_error r inv k e
  Inv-Step {r} going inv (takes k ks e _) = Inv-take base on_error r inv k ks e
  Inv-Step {r} going inv (answers k ok before after e _) =
      Inv-answer base on_error r inv k before after e ok
  Inv-Step {r} going inv (panics k before after e _) =
      Inv-panic_worker base on_error r inv k before after e
  Inv-Step {r} going inv (panics_unsent k before after e) =
      Inv-drop_result base on_error r inv k before after e
  Inv-Step {r} going inv (processes m ms e) = Inv-processed r m ms inv e
  Inv-Step {r} going inv (ends _) = Inv-main r finished going inv
  Inv-Step {r} going inv context_ends = record {
    shape = inv.shape;
    placed = inv.placed;
    mirror = inv.mirror;
    flight = inv.flight;
    ended = λ _ alive. absurd (cc);
    clean = inv.clean;
  }
  Inv-Step {r} going inv (gives_up k e over) = Inv-give_up base on_error r inv k e over
  Inv-Step {r} going inv (drops k before after e _) =
      Inv-drop_result base on_error r inv k before after e
  Inv-Step {r} going inv (cancels _) = Inv-main r cancelled going inv
