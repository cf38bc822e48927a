-- ===== src/Orchestration/PlanExecutor.antt =====
-- The execution of a routing plan, of orchestration/executor.go: `Execute` and `findReadySteps`. What
-- a step does (`executeStep` and its recovery from panics), the checkpoints and the context are the
-- environment's. The steps of a batch, which run at once, are taken one after the other, in any order
-- that the environment gives them.
pub mod Missing
pub mod Rounds
pub mod Dependencies
pub mod Coverage
use gomind.Base.{
  ℕ, zero, suc, ◌+◌, Bool, true, false, not, ◌&&◌, ◌||◌, Option, none, some, List, [], ◌∷◌, ◌++◌,
  String, if◌then◌else◌, length, ltb,
}
use gomind.Core.Errors.{Error}
use text.Mathlib.Text.{◌==◌}

-- Of a step of the plan, what the executor and the policies read. The capability is the text in the
-- metadata, if there is one.
pub record RoutingStep : Type 0 where
  pub step_id : String
  pub agent_name : String
  pub depends_on : List String
  pub capability : Option String

-- `checkpoint` is the entry "hitl_checkpoint" of the metadata: the step waits for a human.
pub record StepResult : Type 0 where
  pub step_id : String
  pub success : Bool
  pub error : String
  pub checkpoint : Option String

pub record Environment (S : Type 0) : Type 0 where
  -- The results so far are what the step's context is built from.
  pub execute_step : RoutingStep → List (String × StepResult) → S → S × StepResult
  -- The order in which the steps of a batch finish.
  pub finishing_order : List RoutingStep → S → List RoutingStep
  pub update_checkpoint_progress : String → List StepResult → S → S
  pub context_error : S → Option Error

-- The variables of `Execute`. A set is a list of its keys, and a map one of its entries.
pub record Progress : Type 0 where
  pub executed : List String
  pub step_results : List (String × StepResult)
  pub steps : List StepResult
  pub success : Bool

-- What `Execute` returns.
pub data Outcome : Type 0 where
  finished : Progress → Outcome
  interrupted : String → Outcome
  no_executable_steps : Outcome
  cancelled : Error → Outcome

unfoldable pub contains : List String → String → Bool
contains [] x = false
contains (y ∷ ys) x = y == x || contains ys x

unfoldable pub lookup : String → List (String × StepResult) → Option StepResult
lookup k [] = none
lookup k ((j, r) ∷ rest) = if j == k then some r else lookup k rest

-- executed[id] = true
unfoldable pub insert : String → List String → List String
unfolding contains
insert k ks = if contains ks k then ks else k ∷ ks

-- stepResults[id] = result: the first entry of a key counts.
unfoldable pub put : String → StepResult → List (String × StepResult) → List (String × StepResult)
put k r results = (k, r) ∷ results

unfoldable pub add_result : String → StepResult → Progress → Progress
unfolding insert put
add_result k r p = record {
  executed = insert k p.executed;
  step_results = put k r p.step_results;
  steps = p.steps ++ r ∷ [];
  success = p.success && r.success;
}

-- The results that a checkpoint brings along: their failures do not count here.
unfoldable pub add_completed : List (String × StepResult) → Progress → Progress
unfolding insert put
add_completed [] p = p
add_completed ((k, r) ∷ rest) p = add_completed rest (record p {
  executed = insert k p.executed;
  step_results = put k r p.step_results;
  steps = p.steps ++ r ∷ [];
})

abbrev pub nothing_done : Progress
nothing_done = record { executed = []; step_results = []; steps = []; success = true }

-- `result, ok := stepResults[dep]; ok && !result.Success`
abbrev pub is_failure : Option StepResult → Bool
is_failure none = false
is_failure (some r) = not r.success

unfoldable pub all_deps_ready : Progress → List String → Bool
unfolding contains lookup
all_deps_ready p [] = true
all_deps_ready p (dep ∷ deps) =
    contains p.executed dep && not (is_failure (lookup dep p.step_results)) && all_deps_ready p deps

unfoldable pub find_ready_steps : List RoutingStep → Progress → List RoutingStep
unfolding all_deps_ready
find_ready_steps [] p = []
find_ready_steps (s ∷ rest) p =
    let later = find_ready_steps rest p in
    if not (contains p.executed s.step_id) && all_deps_ready p s.depends_on
    then s ∷ later
    else later

unfoldable pub blocked_by_failure : Progress → List String → Bool
unfolding lookup
blocked_by_failure p [] = false
blocked_by_failure p (dep ∷ deps) =
    is_failure (lookup dep p.step_results) || blocked_by_failure p deps

unfoldable pub skipped_result : RoutingStep → StepResult
skipped_result s = record {
  step_id = s.step_id;
  success = false;
  error = "skipped due to failed dependency";
  checkpoint = none;
}

unfoldable pub is_skippable : Progress → RoutingStep → Bool
unfolding contains blocked_by_failure
is_skippable p s = not (contains p.executed s.step_id) && blocked_by_failure p s.depends_on

unfoldable pub add_skipped : Progress → RoutingStep → Progress
unfolding is_skippable add_result skipped_result
add_skipped p s = if is_skippable p s then add_result s.step_id (skipped_result s) p else p

-- The loop over the steps where none is ready, and whether it skips one.
unfoldable pub skip_blocked : List RoutingStep → Progress → Progress × Bool
unfolding is_skippable add_skipped
skip_blocked [] p = (p, false)
skip_blocked (s ∷ rest) p =
    let (last, more) = skip_blocked rest (add_skipped p s) in (last, is_skippable p s || more)

unfoldable pub first_checkpoint : List StepResult → Option (String × String)
first_checkpoint [] = none
first_checkpoint (r ∷ rest) = elim r.checkpoint [
  | none ↦ first_checkpoint rest
  | some id ↦ some (id, r.step_id)
]

-- The successful results but the interrupted step's.
unfoldable pub completed_but : String → List StepResult → List StepResult
completed_but id [] = []
completed_but id (r ∷ rest) =
    let later = completed_but id rest in
    if r.success && not (r.step_id == id) then r ∷ later else later

abbrev pub is_empty {ℓ} : {A : Type ℓ} → List A → Bool
is_empty [] = true
is_empty (x ∷ xs) = false

module _ {S : Type 0} (env : Environment S) where
  open env use {execute_step, finishing_order, update_checkpoint_progress, context_error}

  -- One batch; every step sees the results from before it.
  unfoldable pub run_batch :
      List (String × StepResult) → List RoutingStep → Progress → S → Progress × S
  unfolding add_result
  run_batch before [] p s = (p, s)
  run_batch before (step ∷ rest) p s =
      let (ran, result) = execute_step step before s in
      run_batch before rest (add_result step.step_id result p) ran

  -- After a batch: an interrupt, the end of the context, or the next round.
  unfoldable pub after_batch :
      (Progress → S → Option (S × Outcome)) → Progress × S → Option (S × Outcome)
  unfolding first_checkpoint completed_but
  after_batch again (p, s) = elim (first_checkpoint p.steps) [
    | some (id, step_id) ↦
        let done = completed_but step_id p.steps in
        some (if is_empty done then s else update_checkpoint_progress id done s, interrupted id)
    | none ↦ elim (context_error s) [ some e ↦ some (s, cancelled e) | none ↦ again p s ]
  ]

  unfoldable pub after_skips :
      (Progress → S → Option (S × Outcome)) → S → Progress × Bool → Option (S × Outcome)
  after_skips again s (p, true) = again p s
  after_skips again s (p, false) = some (s, no_executable_steps)

  unfoldable pub after_search :
      (Progress → S → Option (S × Outcome))
      → List RoutingStep
      → Progress
      → S
      → List RoutingStep
      → Option (S × Outcome)
  unfolding after_skips after_batch run_batch skip_blocked
  after_search again plan p s [] = after_skips again s (skip_blocked plan p)
  after_search again plan p s (step ∷ rest) =
      after_batch again (run_batch p.step_results (finishing_order (step ∷ rest) s) p s)

  -- The loop, with fuel; `none` means that it ran out.
  unfoldable pub rounds : ℕ → List RoutingStep → Progress → S → Option (S × Outcome)
  unfolding after_search find_ready_steps
  rounds zero plan p s = none
  rounds (suc fuel) plan p s =
      let round = after_search (rounds fuel plan) plan p s (find_ready_steps plan p) in
      if ltb (length p.executed) (length plan) then round else some (s, finished p)

  unfoldable pub execute : List RoutingStep → List (String × StepResult) → S → Option (S × Outcome)
  unfolding rounds add_completed
  execute plan completed s =
      rounds (suc (length plan)) plan (add_completed completed nothing_done) s
