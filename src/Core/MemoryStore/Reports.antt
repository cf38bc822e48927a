-- ===== src/Core/MemoryStore/Reports.antt =====
-- What the store reports: each read is a hit or a miss.
use gomind.Base.{
  if_cases, subst, ap, ℕ, ◌+◌, ◌≡◌, refl, Option, none, some, List, [], ◌∷◌, String, arith,
}
use gomind.Core.MemoryStore.{
  remove, cache_hit, cache_miss, evicted_expired, operation_get_hit, operation_get_miss,
  operation_set, operation_delete, evicted_by_delete, size_of, noted, is_expired, MemoryEntry,
  MemoryStore, Metric, new_memory_store, report, find, get_entry, delete_entry, get, set, delete,
}
use gomind.Core.MemoryStore.Refinement.{Op, gets, sets, deletes, step, run}

abbrev pub read_outcome : Metric → ℕ
read_outcome cache_hit = 1
read_outcome cache_miss = 1
read_outcome _ = 0

-- The hits and misses that were reported.
unfoldable pub read_outcomes : List Metric → ℕ
read_outcomes [] = 0
read_outcomes (x ∷ xs) = read_outcome x + read_outcomes xs

abbrev pub reads_of : Op → ℕ
reads_of (gets k) = 1
reads_of (sets k v ttl) = 0
reads_of (deletes k) = 0

unfoldable pub reads : List (ℕ × Op) → ℕ
reads [] = 0
reads ((now, op) ∷ ops) = reads_of op + reads ops

abbrev pub HasReported : ℕ → Option (List Metric) → Type 0
HasReported n none = ⊥
HasReported n (some xs) = read_outcomes xs ≡ n

noted-HasReported :
    (n : ℕ) (x : Metric) (o : Option (List Metric))
    → HasReported n o
    → HasReported (read_outcome x + n) (noted x o)
unfolding read_outcomes
noted-HasReported n x none h = absurd h
noted-HasReported n x (some xs) h = ap (λ (k : ℕ). read_outcome x + k) h

-- Two reports, with what they count.
noted_two :
    (n k : ℕ) (x y : Metric) (o : Option (List Metric))
    → read_outcome x + read_outcome y ≡ k
    → HasReported n o
    → HasReported (k + n) (noted x (noted y o))
noted_two n k x y o e h =
    subst (λ (i : ℕ). HasReported i (noted x (noted y o))) (omega arith)
      (noted-HasReported (read_outcome y + n) x (noted y o) (noted-HasReported n y o h))

get_entry-HasReported :
    (n : ℕ) (m : MemoryStore) (o : Option MemoryEntry) (now : ℕ)
    → HasReported n m.metrics
    → HasReported (1 + n) (get_entry m o now).0.metrics
unfolding get_entry report
get_entry-HasReported n m none now h = noted_two n 1 operation_get_miss cache_miss m.metrics refl h
get_entry-HasReported n m (some e) now h =
    if_cases (λ (r : MemoryStore × String). HasReported (1 + n) r.0.metrics)
      (is_expired e.expires_at now) (λ _. noted_two n 1 evicted_expired cache_miss m.metrics refl h)
      (λ _. noted_two n 1 operation_get_hit cache_hit m.metrics refl h)

delete_entry-HasReported :
    (n : ℕ) (m : MemoryStore) (o : Option MemoryEntry)
    → HasReported n m.metrics
    → HasReported (0 + n) (delete_entry m o).metrics
unfolding delete_entry report
delete_entry-HasReported n m none h = noted-HasReported n operation_delete m.metrics h
delete_entry-HasReported n m (some e) h =
    noted_two n 0 evicted_by_delete operation_delete m.metrics refl h

step-HasReported :
    (n : ℕ) (m : MemoryStore) (now : ℕ) (op : Op)
    → HasReported n m.metrics
    → HasReported (reads_of op + n) (step m now op).metrics
unfolding step get set delete report
step-HasReported n m now (gets k) h = get_entry-HasReported n m (find k m.entries) now h
step-HasReported n m now (sets k v ttl) h = noted_two n 0 (size_of v) operation_set m.metrics refl h
step-HasReported n m now (deletes k) h =
    delete_entry-HasReported n (record m { entries = remove k m.entries }) (find k m.entries) h

run-HasReported :
    (n : ℕ) (m : MemoryStore) (ops : List (ℕ × Op))
    → HasReported n m.metrics
    → HasReported (reads ops + n) (run m ops).metrics
unfolding run reads
run-HasReported n m [] h =
    let same : n ≡ 0 + n = omega arith in subst (λ (i : ℕ). HasReported i m.metrics) same h
run-HasReported n m ((now, op) ∷ ops) h =
    subst (λ (i : ℕ). HasReported i (run (step m now op) ops).metrics) (omega arith)
      (run-HasReported (reads_of op + n) (step m now op) ops (step-HasReported n m now op h))

-- In a process with a registry of metrics, a new store that has served any operations has reported
-- exactly one hit or miss for each `Get`, and none for the other operations.
pub read_outcomes-run :
    (ops : List (ℕ × Op)) → HasReported (reads ops) (run (new_memory_store (some [])) ops).metrics
unfolding new_memory_store read_outcomes
read_outcomes-run ops =
    subst (λ (i : ℕ). HasReported i (run (new_memory_store (some [])) ops).metrics) (omega arith)
      (run-HasReported 0 (new_memory_store (some [])) ops refl)
