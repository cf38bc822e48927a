-- ===== src/Core/MemoryStore.antt =====
-- The in-memory store of core/memory_store.go. The map is a list of entries, at most one for a key.
-- What the store reports to the global registry of metrics is a list, newest first, and `none` where
-- there is no registry. The errors that the operations return are always nil, and are left out.
pub mod Refinement
pub mod Reports
use gomind.Base.{
  ℕ, zero, suc, ◌+◌, Bool, true, false, Option, none, some, List, [], ◌∷◌, String, if◌then◌else◌,
  ltb,
}
use gomind.Base.Int.{ℤ, pos, negsuc}
use text.Mathlib.Text.{◌==◌}

-- `expires_at` is none where `expiresAt` is the zero time: the entry does not expire.
pub record MemoryEntry : Type 0 where
  pub value : String
  pub expires_at : Option ℕ

-- The counters that are incremented, and the gauge that is set to the size of a value.
pub data Metric : Type 0 where
  cache_miss operation_get_miss evicted_expired cache_hit operation_get_hit : Metric
  operation_set operation_delete evicted_by_delete : Metric
  size_of : String → Metric

pub record MemoryStore : Type 0 where
  pub entries : List (String × MemoryEntry)
  pub metrics : Option (List Metric)

-- A new store, in a process with this registry.
unfoldable pub new_memory_store : Option (List Metric) → MemoryStore
new_memory_store registry = record { entries = []; metrics = registry }

unfoldable pub find : String → List (String × MemoryEntry) → Option MemoryEntry
find k [] = none
find k ((j, e) ∷ es) = if j == k then some e else find k es

-- delete(m.store, key)
unfoldable pub remove : String → List (String × MemoryEntry) → List (String × MemoryEntry)
remove k [] = []
remove k ((j, e) ∷ es) = if j == k then remove k es else (j, e) ∷ remove k es

-- m.store[key] = entry
unfoldable pub put :
    String → MemoryEntry → List (String × MemoryEntry) → List (String × MemoryEntry)
unfolding remove
put k e es = (k, e) ∷ remove k es

abbrev pub noted : Metric → Option (List Metric) → Option (List Metric)
noted x none = none
noted x (some xs) = some (x ∷ xs)

unfoldable pub report : Metric → MemoryStore → MemoryStore
report x m = record m { metrics = noted x m.metrics }

unfoldable pub is_expired : Option ℕ → ℕ → Bool
is_expired none now = false
is_expired (some at) now = ltb at now

unfoldable pub get_entry : MemoryStore → Option MemoryEntry → ℕ → MemoryStore × String
unfolding report is_expired
get_entry m none now = (report operation_get_miss (report cache_miss m), "")
get_entry m (some e) now =
    if is_expired e.expires_at now
    then (report evicted_expired (report cache_miss m), "")
    else (report operation_get_hit (report cache_hit m), e.value)

unfoldable pub get : MemoryStore → String → ℕ → MemoryStore × String
unfolding get_entry find
get m key now = get_entry m (find key m.entries) now

-- The time of expiry: only a positive time to live gives one.
unfoldable pub expiry : ℕ → ℤ → Option ℕ
expiry now (pos zero) = none
expiry now (pos (suc n)) = some (now + suc n)
expiry now (negsuc n) = none

unfoldable pub set : MemoryStore → String → String → ℤ → ℕ → MemoryStore
unfolding put expiry report
set m key value ttl now = report (size_of value) (
    report operation_set (record m {
      entries = put key (record { value = value; expires_at = expiry now ttl }) m.entries;
    }))

unfoldable pub delete_entry : MemoryStore → Option MemoryEntry → MemoryStore
unfolding report
delete_entry m none = report operation_delete m
delete_entry m (some e) = report evicted_by_delete (report operation_delete m)

unfoldable pub delete : MemoryStore → String → MemoryStore
unfolding delete_entry find remove
delete m key = delete_entry (record m { entries = remove key m.entries }) (find key m.entries)

unfoldable pub entry_exists : Option MemoryEntry → ℕ → Bool
unfolding is_expired
entry_exists none now = false
entry_exists (some e) now = if is_expired e.expires_at now then false else true

unfoldable pub exists : MemoryStore → String → ℕ → Bool
unfolding entry_exists find
exists m key now = entry_exists (find key m.entries) now

-- A value of the older interface: a string, or anything else.
pub data Value : Type 0 where
  a_string : String → Value
  anything_else : Value

unfoldable pub text_of : Value → String
text_of (a_string s) = s
text_of anything_else = ""

unfoldable pub store : MemoryStore → String → Value → ℕ → MemoryStore
unfolding set text_of
store m key value now = set m key (text_of value) (pos 0) now

unfoldable pub retrieve : MemoryStore → String → ℕ → MemoryStore × String
unfolding get
retrieve m key now = get m key now
