-- ===== src/Orchestration/Engine/Run/Returning.antt =====
-- Which moves end a run without an error.
use gomind.Base.{◌≡◌, ◌≢◌, refl, true, false, List, [], ◌∷◌, String, Bool, Option, none, some}
use gomind.Orchestration.Dag.{WorkflowDag, get_ready_nodes}
use gomind.Orchestration.Engine.Run.{
  check_complete, check_running, checks_complete, checks_running, Run, returned, processing,
  finished, start, Step, looks, marks, sends, takes, answers, panics, panics_unsent, processes,
  ends, context_ends, gives_up, drops, cancels, looked_at, look, mark, send, take_task, answer,
  panic_worker, give_up, drop_result, Message, succeeded, failed, panicked, Reach, started, moved,
  process,
}

looked_at-main : (o : Option (List String)) (r : Run) → (looked_at o r).main ≡ r.main
unfolding looked_at
looked_at-main none r = refl
looked_at-main (some []) r = refl
looked_at-main (some (k ∷ ks)) r = refl

process-not_finished :
    (on_error : Bool) (m : Message) (ms : List Message) (r : Run)
    → r.main ≡ processing
    → (process on_error m ms r).main ≢ finished
unfolding process
process-not_finished on_error (succeeded k) ms r going e = absurd (cc)
process-not_finished true (failed k) ms r going e = absurd (cc)
process-not_finished false (failed k) ms r going e = absurd (cc)
process-not_finished true panicked ms r going e = absurd (cc)
process-not_finished false panicked ms r going e = absurd (cc)

-- `executeDAG` returns nil only after the submitting loop has returned.
finished_Step :
    {on_error : Bool} {r t : Run}
    → r.main ≡ processing
    → Step on_error r t
    → t.main ≡ finished
    → t.loop ≡ returned
unfolding look check_complete check_running mark send take_task answer panic_worker give_up
    drop_result
finished_Step {on_error} {r} going (looks l i j) e =
    let same = looked_at-main (get_ready_nodes r.dag) r in absurd (cc)
finished_Step {on_error} {r} going (processes m ms q) e =
    absurd (process-not_finished on_error m ms r going e)
finished_Step going (checks_complete l) e = absurd (cc)
finished_Step going (checks_running l) e = absurd (cc)
finished_Step going (ends h) e = h
finished_Step going (marks k ks l i j) e = absurd (cc)
finished_Step going (sends k i l) e = absurd (cc)
finished_Step going (takes k ks q l) e = absurd (cc)
finished_Step going (answers k ok before after q l) e = absurd (cc)
finished_Step going (panics k before after q l) e = absurd (cc)
finished_Step going context_ends e = absurd (cc)
finished_Step going (panics_unsent k before after q) e = absurd (cc)
finished_Step going (gives_up k q o) e = absurd (cc)
finished_Step going (drops k before after q o) e = absurd (cc)
finished_Step going (cancels o) e = absurd (cc)

pub finished_returned :
    {on_error : Bool} {d : WorkflowDag} {r : Run}
    → Reach on_error d r
    → r.main ≡ finished
    → r.loop ≡ returned
unfolding start
finished_returned started e = absurd (cc)
finished_returned (moved h going s) e = finished_Step going s e
