-- ===== src/Tests/MemoryRuns.antt =====
-- The in-memory store at concrete inputs.
use gomind.Base.{ℕ, ◌≡◌, refl, false, none, some, List, [], ◌∷◌}
use gomind.Base.Int.{pos, negsuc}
use gomind.Core.MemoryStore.{new_memory_store, get, exists}
use gomind.Core.MemoryStore.Refinement.{
  Op, gets, sets, deletes, run, last_write, seen, is_seen, get-run-last_write,
}
use gomind.Core.MemoryStore.Reports.{HasReported, reads, read_outcomes-run}

-- "token" expires 50 ns after 20; "plan" does not expire, and is written twice.
abbrev some_operations : List (ℕ × Op)
some_operations =
    (10, sets "plan" "old" (pos 0))
    ∷ (20, sets "token" "t1" (pos 50))
    ∷ (30, gets "token")
    ∷ (40, sets "plan" "new" (negsuc 0))
    ∷ (60, deletes "draft")
    ∷ (99, gets "token")
    ∷ []

reads_after :
    ((get (run (new_memory_store none) some_operations) "plan" 1000).1 ≡ "new")
    × ((get (run (new_memory_store none) some_operations) "token" 70).1 ≡ "t1")
    × ((get (run (new_memory_store none) some_operations) "token" 71).1 ≡ "")
    × (exists (run (new_memory_store none) some_operations) "token" 71 ≡ false)
unfolding get run exists new_memory_store
reads_after = (refl, refl, refl, refl)

get-run-last_write_example :
    ((get (run (new_memory_store none) some_operations) "token" 70).1
      ≡ seen (last_write "token" some_operations none) 70)
    × (exists (run (new_memory_store none) some_operations) "token" 70
        ≡ is_seen (last_write "token" some_operations none) 70)
get-run-last_write_example = get-run-last_write none some_operations "token" 70

read_outcomes-run_example :
    HasReported (reads some_operations) (run (new_memory_store (some [])) some_operations).metrics
read_outcomes-run_example = read_outcomes-run some_operations
