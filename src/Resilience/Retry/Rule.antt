-- ===== src/Resilience/Retry/Rule.antt =====
-- The rule for the loop: an invariant that each attempt and each wait keeps.
use gomind.Base.{subst, ℕ, zero, suc, ◌≡◌, refl, inl, inr, Option, none, some, Option-cases}
use gomind.Base.Int.{ℤ}
use gomind.Base.Float.{Float64}
use gomind.Base.Panic.{Returns}
use gomind.Core.Errors.{Error}
use gomind.Resilience.Retry.{
  Environment, Ending, succeeded, cancelled, exhausted, RetryConfig, attempt_once, wait_then,
  attempts_from, next_delay,
}

module _ (F : Float64) (sin : F.Float → F.Float) {S : Type 0} (env : Environment S)
    (c : RetryConfig F) (Inv : ℕ → ℕ → ℤ → S → Type 0) (Post : S × Ending → Type 0) where
  -- After the wait that follows a failed attempt.
  abbrev pub AfterWait : ℕ → ℕ → ℤ → S × Option Error → Type 0
  AfterWait r a d (t, none) = Inv r (suc a) d t
  AfterWait r a d (t, some e) = Post (t, cancelled e)

  -- After a call of the function.
  abbrev pub AfterCall : ℕ → ℕ → ℤ → S → Option Error → Type 0
  AfterCall r a d t none = Post (t, succeeded)
  AfterCall zero a d t (some e) = Post (t, exhausted (some e))
  AfterCall (suc r) a d t (some e) =
      AfterWait r a (next_delay F sin c a d) (env.sleep (next_delay F sin c a d) t)

  -- `Inv` holds before an attempt with so many after it, and `Post` of the end.
  pub record Keeps : Type 0 where
    pub stops :
        (r a : ℕ) (d : ℤ) (s : S) (e : Error)
        → Inv r a d s
        → env.context_error s ≡ some e
        → Post (s, cancelled e)
    pub calls :
        (r a : ℕ) (d : ℤ) (s : S)
        → Inv r a d s
        → (t : S) × (o : Option Error) × (env.call s ≡ some (t, o)) × AfterCall r a d t o

  attempt_once_rule :
      (s t : S) (o : Option Error) (failed : S → Error → Option (S × Ending))
      → env.call s ≡ some (t, o)
      → ((e : Error) → env.context_error s ≡ some e → Post (s, cancelled e))
      → (o ≡ none → Post (t, succeeded))
      → ((e : Error) → o ≡ some e → Returns Post (failed t e))
      → Returns Post (attempt_once F sin env s failed)
  unfolding attempt_once
  attempt_once_rule s t none failed called stops fine go_on =
      elim (Option-cases (env.context_error s)) [
        | inr (e, done) ↦ rw (done, attempt_once) (stops e done)
        | inl live ↦ rw (live, attempt_once, called) (fine refl)
      ]
  attempt_once_rule s t (some err) failed called stops fine go_on =
      elim (Option-cases (env.context_error s)) [
        | inr (e, done) ↦ rw (done, attempt_once) (stops e done)
        | inl live ↦ rw (live, attempt_once, called) (go_on err refl)
      ]

  wait_then_rule :
      (r a : ℕ) (d : ℤ) (t : S) (again : S → Option (S × Ending))
      → AfterWait r a d (env.sleep d t)
      → ((u : S) → Inv r (suc a) d u → Returns Post (again u))
      → Returns Post (wait_then F sin env d t again)
  unfolding wait_then
  wait_then_rule r a d t again h goes_on = slept (env.sleep d t) h
    where
      slept :
          (w : S × Option Error)
          → AfterWait r a d w
          → Returns Post (elim w.1 [ none ↦ again w.0 | some e ↦ some (w.0, cancelled e) ])
      slept (u, none) h = goes_on u h
      slept (u, some e) h = h

  module _ (k : Keeps) where
    pub attempts_from_rule :
        (r a : ℕ) (d : ℤ) (s : S) → Inv r a d s → Returns Post (attempts_from F sin env c r a d s)
    unfolding attempts_from
    attempts_from_rule zero a d s i =
        let (t, o, called, after) = k.calls zero a d s i in
        attempt_once_rule s t o _ called (λ e h. k.stops zero a d s e i h)
          (λ h. subst (AfterCall zero a d t) h after) (λ e h. subst (AfterCall zero a d t) h after)
    attempts_from_rule (suc r) a d s i =
        let next = next_delay F sin c a d in
        let (t, o, called, after) = k.calls (suc r) a d s i in
        attempt_once_rule s t o _ called (λ e h. k.stops (suc r) a d s e i h)
          (λ h. subst (AfterCall (suc r) a d t) h after)
          (λ e h.
            wait_then_rule r a next t (attempts_from F sin env c r (suc a) next)
              (subst (AfterCall (suc r) a d t) h after)
              (λ u j. attempts_from_rule r (suc a) next u j))
