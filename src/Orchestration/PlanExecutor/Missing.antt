-- ===== src/Orchestration/PlanExecutor/Missing.antt =====
-- The steps of a plan that are not executed yet, and what the loop's parts do to them.
use gomind.Base.{
  ℕ, suc, ◌+◌, ◌≤◌, ◌<◌, ◌≡◌, refl, ◌⊎◌, inl, inr, Bool, true, false, not, ◌&&◌, ◌||◌, List, [],
  ◌∷◌, String, if◌then◌else◌, if_cases, length, arith, ap, sym, subst, Bool-cases,
}
use text.Mathlib.TextEquality.{eq_iff}
use gomind.Orchestration.Dag.Names.{In}
use gomind.Orchestration.PlanExecutor.{
  add_skipped, RoutingStep, StepResult, Environment, Progress, contains, insert, add_result,
  all_deps_ready, find_ready_steps, is_skippable, skip_blocked, skipped_result, run_batch,
}

pub missing : List String → List RoutingStep → ℕ
missing ks [] = 0
missing ks (s ∷ rest) =
    let later = missing ks rest in if contains ks s.step_id then later else suc later

pub missing-length : (ks : List String) (plan : List RoutingStep) → missing ks plan ≤ length plan
unfolding missing
missing-length ks [] = omega arith
missing-length ks (s ∷ rest) = ground (arith, missing-length ks rest)

pub missing-nil : (plan : List RoutingStep) → missing [] plan ≡ length plan
unfolding missing contains
missing-nil [] = refl
missing-nil (s ∷ rest) = ap suc (missing-nil rest)

pub none_missing :
    (ks : List String) (plan : List RoutingStep) (s : RoutingStep)
    → missing ks plan ≡ 0
    → In s plan
    → contains ks s.step_id ≡ true
unfolding missing
none_missing ks [] s h i = absurd i
none_missing ks (t ∷ rest) s h (inl e) =
    subst (λ (x : RoutingStep). contains ks x.step_id ≡ true) e (ground arith)
none_missing ks (t ∷ rest) s h (inr i) = none_missing ks rest s (ground arith) i

-- What is executed stays executed.
abbrev pub Includes : List String → List String → Type 0
Includes ks ks' = (x : String) → contains ks x ≡ true → contains ks' x ≡ true

pub missing_mono :
    (ks ks' : List String) (plan : List RoutingStep)
    → Includes ks ks'
    → missing ks' plan ≤ missing ks plan
unfolding missing
missing_mono ks ks' [] inc = omega arith
missing_mono ks ks' (s ∷ rest) inc = ground (arith, inc s.step_id, missing_mono ks ks' rest inc)

pub missing-lt :
    (ks ks' : List String) (plan : List RoutingStep) (s : RoutingStep)
    → Includes ks ks'
    → In s plan
    → contains ks s.step_id ≡ false
    → contains ks' s.step_id ≡ true
    → missing ks' plan < missing ks plan
unfolding missing
missing-lt ks ks' [] s inc i out now = absurd i
missing-lt ks ks' (t ∷ rest) s inc (inl e) out now =
    let out' : contains ks t.step_id ≡ false =
      subst (λ (x : RoutingStep). contains ks x.step_id ≡ false) (sym e) out in
    let now' : contains ks' t.step_id ≡ true =
      subst (λ (x : RoutingStep). contains ks' x.step_id ≡ true) (sym e) now in
    ground (arith, missing_mono ks ks' rest inc)
missing-lt ks ks' (t ∷ rest) s inc (inr i) out now =
    ground (arith, inc t.step_id, missing-lt ks ks' rest s inc i out now)

pub contains-insert_self : (k : String) (ks : List String) → contains (insert k ks) k ≡ true
unfolding insert contains
contains-insert_self k ks = ground (arith, eq_iff k k)

pub Includes-insert : (k : String) (ks : List String) → Includes ks (insert k ks)
unfolding insert contains
Includes-insert k ks x h = ground arith

insert_old : (k : String) (ks : List String) → contains ks k ≡ true → insert k ks ≡ ks
unfolding insert
insert_old k ks h = rw h

insert_new : (k : String) (ks : List String) → contains ks k ≡ false → insert k ks ≡ k ∷ ks
unfolding insert
insert_new k ks h = rw h

-- The executed names and the missing steps never outnumber the plan.
pub length-insert-missing :
    (s : RoutingStep) (ks : List String) (plan : List RoutingStep)
    → In s plan
    → length (insert s.step_id ks) + missing (insert s.step_id ks) plan
      ≤ length ks + missing ks plan
length-insert-missing s ks plan i = elim (Bool-cases (contains ks s.step_id)) [
  | inl there ↦ rw (insert_old s.step_id ks there) (omega arith)
  | inr new ↦
      let less =
        missing-lt ks (insert s.step_id ks) plan s (Includes-insert s.step_id ks) i new
          (contains-insert_self s.step_id ks) in
      omega (arith, ap (length {A = String}) (insert_new s.step_id ks new))
]

pub In-if_cons :
    {A : Type 0} (x y : A) (b : Bool) (later : List A)
    → In x (if b then y ∷ later else later)
    → ((b ≡ true) × (y ≡ x)) ⊎ In x later
In-if_cons x y true later (inl e) = inl (refl, e)
In-if_cons x y true later (inr i) = inr i
In-if_cons x y false later i = inr i

abbrev pub IsReady : List RoutingStep → Progress → RoutingStep → Type 0
IsReady plan p s =
    In s plan × (contains p.executed s.step_id ≡ false) × (all_deps_ready p s.depends_on ≡ true)

pub find_ready_steps-IsReady :
    (plan : List RoutingStep) (p : Progress) (s : RoutingStep)
    → In s (find_ready_steps plan p)
    → IsReady plan p s
unfolding find_ready_steps
find_ready_steps-IsReady [] p s i = absurd i
find_ready_steps-IsReady (t ∷ rest) p s i =
    elim (In-if_cons s t (not (contains p.executed t.step_id) && all_deps_ready p t.depends_on)
      (find_ready_steps rest p) i) [
        | inl (b, e) ↦ subst (IsReady (t ∷ rest) p) e (inl refl, ground arith, ground arith)
        | inr later ↦
            let (there, out, ready) = find_ready_steps-IsReady rest p s later in
            (inr there, out, ready)
      ]

pub run_batch-Includes :
    {S : Type 0} (env : Environment S) (before : List (String × StepResult))
    (batch : List RoutingStep) (p : Progress) (s : S)
    → Includes p.executed (run_batch env before batch p s).0.executed
unfolding run_batch add_result
run_batch-Includes env before [] p s = λ x h. h
run_batch-Includes env before (step ∷ rest) p s =
    let r = env.execute_step step before s in
    λ x h.
      run_batch-Includes env before rest (add_result step.step_id r.1 p) r.0 x
        (Includes-insert step.step_id p.executed x h)

pub run_batch-executed :
    {S : Type 0} (env : Environment S) (before : List (String × StepResult))
    (batch : List RoutingStep) (p : Progress) (s : S) (step : RoutingStep)
    → In step batch
    → contains (run_batch env before batch p s).0.executed step.step_id ≡ true
unfolding run_batch add_result
run_batch-executed env before [] p s step i = absurd i
run_batch-executed env before (t ∷ rest) p s step (inl e) =
    let r = env.execute_step t before s in
    run_batch-Includes env before rest (add_result t.step_id r.1 p) r.0 step.step_id (
      subst (λ (x : RoutingStep). contains (insert t.step_id p.executed) x.step_id ≡ true) e
        (contains-insert_self t.step_id p.executed))
run_batch-executed env before (t ∷ rest) p s step (inr i) =
    let r = env.execute_step t before s in
    run_batch-executed env before rest (add_result t.step_id r.1 p) r.0 step i

add_skipped-Includes :
    (p : Progress) (s : RoutingStep) → Includes p.executed (add_skipped p s).executed
unfolding add_skipped add_result
add_skipped-Includes p s =
    if_cases (λ (q : Progress). Includes p.executed q.executed) (is_skippable p s)
      (λ _. Includes-insert s.step_id p.executed) (λ _ x h. h)

add_skipped_new :
    (p : Progress) (s : RoutingStep)
    → is_skippable p s ≡ true
    → (contains p.executed s.step_id ≡ false)
      × (contains (add_skipped p s).executed s.step_id ≡ true)
unfolding add_skipped add_result
add_skipped_new p s b = (
  unfold is_skippable in ground arith,
  subst (λ (q : Progress). contains q.executed s.step_id ≡ true)
      (ap (λ (c : Bool). if c then add_result s.step_id (skipped_result s) p else p) (sym b))
      (contains-insert_self s.step_id p.executed),
)

pub skip_blocked-Includes :
    (plan : List RoutingStep) (p : Progress) → Includes p.executed (skip_blocked plan p).0.executed
unfolding skip_blocked
skip_blocked-Includes [] p = λ x h. h
skip_blocked-Includes (s ∷ rest) p =
    λ x h. skip_blocked-Includes rest (add_skipped p s) x (add_skipped-Includes p s x h)

or_right : (a b : Bool) → a ≡ false → (a || b) ≡ true → b ≡ true
or_right a b h k = ground arith

-- Where a step is skipped, the executed names grow.
pub skip_blocked-missing :
    (plan : List RoutingStep) (p : Progress)
    → (skip_blocked plan p).1 ≡ true
    → (s : RoutingStep) × In s plan
      × (contains p.executed s.step_id ≡ false)
      × (contains (skip_blocked plan p).0.executed s.step_id ≡ true)
unfolding skip_blocked
skip_blocked-missing [] p h = cc
skip_blocked-missing (s ∷ rest) p h = elim (Bool-cases (is_skippable p s)) [
  | inl b ↦
      let (new, done) = add_skipped_new p s b in
      (s, inl refl, new, skip_blocked-Includes rest (add_skipped p s) s.step_id done)
  | inr b ↦
      let same : add_skipped p s ≡ p =
        ap (λ (c : Bool). if c then add_result s.step_id (skipped_result s) p else p) b in
      let more : (skip_blocked rest (add_skipped p s)).1 ≡ true =
        or_right (is_skippable p s) (skip_blocked rest (add_skipped p s)).1 b h in
      let (t, i, new, done) = skip_blocked-missing rest (add_skipped p s) more in
      (t, inr i, subst (λ (q : Progress). contains q.executed t.step_id ≡ false) same new, done)
]
