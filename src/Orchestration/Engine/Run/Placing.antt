-- ===== src/Orchestration/Engine/Run/Placing.antt =====
-- What the change of one status, or a failure, does to the submitted steps.
use gomind.Base.{
  ◌+◌, ◌≤◌, ◌<◌, ◌≡◌, refl, ◌⊎◌, inl, inr, true, false, List, ◌∷◌, String, arith, Option, some,
  Bool-cases, subst, sym, ap, ◌∙◌,
}
use text.Mathlib.Text.{◌==◌}
use text.Mathlib.TextEquality.{eq_iff}
use gomind.Orchestration.Dag.{
  NodeStatus, DagNode, node_pending, node_running, node_completed, node_failed, node_skipped,
}
use gomind.Orchestration.Dag.Validation.Walks.{Edge}
use gomind.Orchestration.Engine.Run.{step_failed, set_step, StepStatus}
use gomind.Orchestration.Engine.Run.Counting.{one_if, count}
use gomind.Orchestration.Engine.Run.Statuses.{
  pends, settles, fails, readies, SetsTo, SetsTo-cases, SetsTo-settles, SetsTo-fails,
  pending_not_settled,
}
use gomind.Orchestration.Engine.Run.Invariant.{shown, Placed}

module _ (base : List (String × DagNode)) where
  -- The first of the ready steps is marked as running.
  pub Placed-mark :
      (st st' : String → Option NodeStatus) (k : String) (ks sent : List String)
      → SetsTo k node_running st st'
      → Placed base st (k ∷ ks) sent
      → Placed base st' ks (k ∷ sent)
  unfolding count
  Placed-mark st st' k ks sent c p =
      let b = (eq_iff k k).1 refl in
      let pending : pends (st k) ≡ true = ground (arith, p.pend k) in
      let open' : settles (st k) ≡ false = pending_not_settled (st k) pending in
      record {
        pend = λ x.
            SetsTo-cases (λ x o. count x ks ≤ one_if (pends o)) k node_running st st' c x
              (λ e. let b = (eq_iff k x).1 e in ground (arith, p.pend x, p.once x))
              (λ e. ground (arith, p.pend x));
        once = λ x.
            SetsTo-cases (λ x o. one_if (k == x) + count x sent + one_if (pends o) ≤ 1) k
              node_running st st' c x
              (λ e. let b = (eq_iff k x).1 e in ground (arith, p.pend x, p.once x))
              (λ e. ground (arith, p.once x));
        free =
            λ x a h e. SetsTo-settles k node_running st st' c open' a (p.free x a (omega arith) e);
        no_ready = λ x.
            SetsTo-cases (λ _ o. readies o ≡ false) k node_running st st' c x (λ _. refl)
              (λ _. p.no_ready x);
        spread = λ x y h e.
            SetsTo-cases (λ _ o. pends o ≡ false) k node_running st st' c y (λ _. refl)
              (λ _. p.spread x y (SetsTo-fails k node_running st st' c refl x h) e);
      }

  -- A step that runs is completed.
  pub Placed-complete :
      (st st' : String → Option NodeStatus) (k : String) (submitting sent : List String)
      → SetsTo k node_completed st st'
      → st k ≡ some node_running
      → Placed base st submitting sent
      → Placed base st' submitting sent
  Placed-complete st st' k submitting sent c running p = record {
    pend = λ x.
        SetsTo-cases (λ x o. count x submitting ≤ one_if (pends o)) k node_completed st st' c x
          (λ e.
            subst (λ z. count z submitting ≤ 0) e
              (subst (λ o. count k submitting ≤ one_if (pends o)) running (p.pend k)))
          (λ _. p.pend x);
    once = λ x.
        SetsTo-cases (λ x o. count x sent + one_if (pends o) ≤ 1) k node_completed st st' c x
          (λ e. omega (arith, p.once x)) (λ _. p.once x);
    free = λ x a h e.
        SetsTo-settles k node_completed st st' c (subst (λ o. settles o ≡ false) (sym running) refl)
          a (p.free x a h e);
    no_ready = λ x.
        SetsTo-cases (λ _ o. readies o ≡ false) k node_completed st st' c x (λ _. refl)
          (λ _. p.no_ready x);
    spread = λ x y h e.
        SetsTo-cases (λ _ o. pends o ≡ false) k node_completed st st' c y (λ _. refl)
          (λ _. p.spread x y (SetsTo-fails k node_completed st st' c refl x h) e);
  }

  -- A step that runs has failed: what it did to the statuses, and to those that wait for it.
  pub record FailsAt (k : String) (st st' : String → Option NodeStatus) : Type 0 where
    pub at_k : st' k ≡ some node_failed
    pub elsewhere :
        (x : String)
        → (k == x) ≡ false
        → (st' x ≡ st x)
          ⊎ ((st x ≡ some node_pending)
              × (st' x ≡ some node_skipped)
              × ((y : String) × Edge base y x × (settles (st y) ≡ false)))
    pub at_dependents : (x : String) → Edge base k x → pends (st' x) ≡ false

  -- What a property of a status says after the failure.
  pub FailsAt-cases :
      (P : String → Option NodeStatus → Type 0) (k : String) (st st' : String → Option NodeStatus)
      → FailsAt k st st'
      → (x : String) → (k ≡ x → P x (some node_failed))
      → ((k == x) ≡ false → P x (st x))
      → (st x ≡ some node_pending
          → (y : String) → Edge base y x
          → settles (st y) ≡ false
          → P x (some node_skipped))
      → P x (st' x)
  FailsAt-cases P k st st' f x here' same skipped = elim (Bool-cases (k == x)) [
    | inl e ↦
        let same = (eq_iff k x).0 e in
        let now : st' x ≡ some node_failed = subst (λ z. st' z ≡ some node_failed) same f.at_k in
        subst (P x) (sym now) (here' same)
    | inr e ↦ elim (f.elsewhere x e) [
      | inl kept ↦ subst (P x) (sym kept) (same e)
      | inr (was, is, (y, edge, open')) ↦ subst (P x) (sym is) (skipped was y edge open')
    ]
  ]

  pub Placed-fail :
      (st st' : String → Option NodeStatus) (k : String) (submitting sent : List String)
      → FailsAt k st st'
      → st k ≡ some node_running
      → Placed base st submitting sent
      → Placed base st' submitting sent
  Placed-fail st st' k submitting sent f running p = record {
    pend = λ x.
        FailsAt-cases (λ x o. count x submitting ≤ one_if (pends o)) k st st' f x
          (λ e.
            subst (λ z. count z submitting ≤ 0) e
              (subst (λ o. count k submitting ≤ one_if (pends o)) running (p.pend k)))
          (λ _. p.pend x)
          (λ was y edge open'.
            let settled : 0 < count x submitting + count x sent → settles (st y) ≡ true =
              λ h. p.free x y h edge in
            ground (arith, settled));
    once = λ x.
        FailsAt-cases (λ x o. count x sent + one_if (pends o) ≤ 1) k st st' f x
          (λ e. omega (arith, p.once x)) (λ _. p.once x) (λ _ _ _ _. omega (arith, p.once x));
    free = λ x a h e.
        FailsAt-cases (λ _ o. settles o ≡ true) k st st' f a
          (λ same.
            let settled = p.free x a h e in
            let wrong = subst (λ z. settles (st z) ≡ true) (sym same) settled in
            let now = subst (λ o. settles o ≡ true) running wrong in absurd (cc))
          (λ _. p.free x a h e) (λ _ _ _ _. refl);
    no_ready = λ x.
        FailsAt-cases (λ _ o. readies o ≡ false) k st st' f x (λ _. refl) (λ _. p.no_ready x)
          (λ _ _ _ _. refl);
    spread = λ x y h e.
        FailsAt-cases (λ x o. fails o ≡ true → Edge base x y → pends (st' y) ≡ false) k st st' f x
          (λ same _ e. f.at_dependents y (subst (λ z. Edge base z y) (sym same) e))
          (λ _ h e.
            FailsAt-cases (λ _ o. pends o ≡ false) k st st' f y (λ _. refl) (λ _. p.spread x y h e)
              (λ _ _ _ _. refl))
          (λ _ _ _ _ h. absurd (cc)) h e;
  }

  shown_here :
      (σ : StepStatus) (k x : String) (steps : String → StepStatus)
      → k ≡ x
      → σ ≡ set_step k σ steps x
  unfolding set_step
  shown_here σ k x steps same = let b = (eq_iff k x).1 same in rw b refl

  shown_there :
      (o : Option NodeStatus) (σ : StepStatus) (k x : String) (steps : String → StepStatus)
      → (k == x) ≡ false
      → shown o ≡ steps x
      → shown o ≡ set_step k σ steps x
  unfolding set_step
  shown_there o σ k x steps other h = rw other h

  -- The step's execution is given the status that its node has.
  pub mirror-set :
      (st st' : String → Option NodeStatus) (steps : String → StepStatus) (k : String)
      (s : NodeStatus)
      → SetsTo k s st st'
      → ((x : String) → shown (st x) ≡ steps x)
      → (x : String) → shown (st' x) ≡ set_step k (shown (some s)) steps x
  mirror-set st st' steps k s c mirror x =
      SetsTo-cases (λ x o. shown o ≡ set_step k (shown (some s)) steps x) k s st st' c x
        (λ same. shown_here (shown (some s)) k x steps same)
        (λ other. shown_there (st x) (shown (some s)) k x steps other (mirror x))

  pub mirror-fail :
      (st st' : String → Option NodeStatus) (steps : String → StepStatus) (k : String)
      → FailsAt k st st'
      → st k ≡ some node_running
      → ((x : String) → shown (st x) ≡ steps x)
      → (x : String) → shown (st' x) ≡ set_step k step_failed steps x
  mirror-fail st st' steps k f running mirror x =
      FailsAt-cases (λ x o. shown o ≡ set_step k step_failed steps x) k st st' f x
        (λ same. shown_here step_failed k x steps same)
        (λ other. shown_there (st x) step_failed k x steps other (mirror x))
        (λ was y edge open'.
          let other : (k == x) ≡ false = elim (Bool-cases (k == x)) [
            | inr out ↦ out
            | inl b ↦
                let now : st x ≡ some node_running =
                  subst (λ z. st z ≡ some node_running) ((eq_iff k x).0 b) running in
                let wrong : Path (Option NodeStatus) (some node_running) (some node_pending) =
                  sym now ∙ was in
                absurd (cc)
          ] in
          shown_there (some node_skipped) step_failed k x steps other
            (sym (ap shown was) ∙ mirror x))
