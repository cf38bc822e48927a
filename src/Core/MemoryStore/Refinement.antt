-- ===== src/Core/MemoryStore/Refinement.antt =====
-- The store against an independent description: what a key holds is its last write.
use gomind.Base.{
  inr, sym, inl, not, ◌||◌, leb, zero, suc, ◌+◌, Bool, true, ◌∙◌, ℕ, ◌≡◌, refl, false, Option, none,
  some, List, [], ◌∷◌, String, if◌then◌else◌, arith, ap, Bool-cases,
}
use gomind.Base.Int.{ℤ, pos, negsuc, pos_part, leb_ℤ}
use gomind.Core.MemoryStore.{
  MemoryEntry, MemoryStore, new_memory_store, find, remove, put, expiry, is_expired, entry_exists,
  get, set, delete, exists, report, Metric, get_entry, delete_entry,
}
use text.Mathlib.Text.{◌==◌}
use text.Mathlib.TextEquality.{eq_iff}

-- The operations that change the store or its metrics.
pub data Op : Type 0 where
  gets : String → Op
  sets : String → String → ℤ → Op
  deletes : String → Op

unfoldable pub step : MemoryStore → ℕ → Op → MemoryStore
unfolding get set delete
step m now (gets k) = (get m k now).0
step m now (sets k v ttl) = set m k v ttl now
step m now (deletes k) = delete m k

unfoldable pub run : MemoryStore → List (ℕ × Op) → MemoryStore
unfolding step
run m [] = m
run m ((now, op) ∷ ops) = run (step m now op) ops

-- A write: the value, its time to live and when it was written.
pub record Write : Type 0 where
  pub value : String
  pub ttl : ℤ
  pub written : ℕ

-- The last write under a key that no deletion follows.
abbrev pub after_op : String → ℕ → Op → Option Write → Option Write
after_op k now (gets j) w = w
after_op k now (sets j v ttl) w =
    if j == k then some (record { value = v; ttl = ttl; written = now }) else w
after_op k now (deletes j) w = if j == k then none else w

unfoldable pub last_write : String → List (ℕ × Op) → Option Write → Option Write
last_write k [] w = w
last_write k ((now, op) ∷ ops) w = last_write k ops (after_op k now op w)

-- A write is seen for ever where its time to live is not positive, and else up to and including
-- that long after it.
abbrev pub is_live : Write → ℕ → Bool
is_live w now = leb_ℤ w.ttl (pos 0) || leb now (w.written + pos_part w.ttl)

abbrev pub seen : Option Write → ℕ → String
seen none now = ""
seen (some w) now = if is_live w now then w.value else ""

abbrev pub is_seen : Option Write → ℕ → Bool
is_seen none now = false
is_seen (some w) now = is_live w now

-- The entry that a write leaves in the map.
abbrev entry_of : Write → MemoryEntry
entry_of w = record { value = w.value; expires_at = expiry w.written w.ttl }

abbrev entries_of : Option Write → Option MemoryEntry
entries_of none = none
entries_of (some w) = some (entry_of w)

entries-report : (x : Metric) (m : MemoryStore) → (report x m).entries ≡ m.entries
unfolding report
entries-report x m = refl

different : (j k : String) → (k == j) ≡ false → (j == k) ≡ false
different j k h = elim (Bool-cases (j == k)) [
  | inl e ↦ let back = (eq_iff k j).1 (sym ((eq_iff j k).0 e)) in cc
  | inr e ↦ e
]

find-remove :
    (j k : String) (es : List (String × MemoryEntry))
    → find k (remove j es) ≡ (if j == k then none else find k es)
unfolding find remove
find-remove j k [] = ground arith
find-remove j k ((i, e) ∷ es) = elim (Bool-cases (i == j)) [
  | inl removed ↦
      let same : (i == k) ≡ (j == k) = ap (λ (x : String). x == k) ((eq_iff i j).0 removed) in
      ground (arith, find-remove j k es)
  | inr stays ↦ elim (Bool-cases (i == k)) [
    | inl found ↦
        let apart : (i == j) ≡ (k == j) = ap (λ (x : String). x == j) ((eq_iff i k).0 found) in
        let no : (j == k) ≡ false = different j k (cc) in ground arith
    | inr past ↦ ground (arith, find-remove j k es)
  ]
]

find-put :
    (j k : String) (e : MemoryEntry) (es : List (String × MemoryEntry))
    → find k (put j e es) ≡ (if j == k then some e else find k es)
unfolding find put
find-put j k e es = ground (arith, find-remove j k es)

entries-get :
    (m : MemoryStore) (o : Option MemoryEntry) (now : ℕ) → (get_entry m o now).0.entries ≡ m.entries
unfolding get_entry report
entries-get m none now = refl
entries-get m (some e) now = ground arith

entries-delete : (m : MemoryStore) (o : Option MemoryEntry) → (delete_entry m o).entries ≡ m.entries
unfolding delete_entry report
entries-delete m none = refl
entries-delete m (some e) = refl

entries_of-if :
    (b : Bool) (v w : Option Write)
    → entries_of (if b then v else w) ≡ (if b then entries_of v else entries_of w)
entries_of-if true v w = refl
entries_of-if false v w = refl

find-step :
    (m : MemoryStore) (now : ℕ) (op : Op) (k : String) (w : Option Write)
    → find k m.entries ≡ entries_of w
    → find k (step m now op).entries ≡ entries_of (after_op k now op w)
unfolding step get set delete report
find-step m now (gets j) k w h = ap (find k) (entries-get m (find j m.entries) now) ∙ h
find-step m now (sets j v ttl) k w h =
    find-put j k _ m.entries
    ∙ ap
        (λ (o : Option MemoryEntry).
          if j == k then some (record { value = v; expires_at = expiry now ttl }) else o)
        h
    ∙ sym (entries_of-if (j == k) (some (record { value = v; ttl = ttl; written = now })) w)
find-step m now (deletes j) k w h =
    ap (find k) (entries-delete (record m { entries = remove j m.entries }) (find j m.entries))
    ∙ find-remove j k m.entries
    ∙ ap (λ (o : Option MemoryEntry). if j == k then none else o) h
    ∙ sym (entries_of-if (j == k) none w)

find-run :
    (m : MemoryStore) (ops : List (ℕ × Op)) (k : String) (w : Option Write)
    → find k m.entries ≡ entries_of w
    → find k (run m ops).entries ≡ entries_of (last_write k ops w)
unfolding run last_write
find-run m [] k w h = h
find-run m ((now, op) ∷ ops) k w h =
    find-run (step m now op) ops k (after_op k now op w) (find-step m now op k w h)

expiry_lem :
    (ttl : ℤ) (written now : ℕ)
    → is_expired (expiry written ttl) now
      ≡ not (leb_ℤ ttl (pos 0) || leb now (written + pos_part ttl))
unfolding is_expired expiry
expiry_lem (pos zero) written now = refl
expiry_lem (pos (suc n)) written now = ground arith
expiry_lem (negsuc n) written now = ground arith

get_entry-seen :
    (m : MemoryStore) (w : Option Write) (now : ℕ) → (get_entry m (entries_of w) now).1 ≡ seen w now
unfolding get_entry
get_entry-seen m none now = refl
get_entry-seen m (some w) now =
    let lapsed = expiry_lem w.ttl w.written now in
    elim (Bool-cases (is_live w now)) [
      | inl live ↦ rw live (rw (lapsed ∙ ap not live) refl)
      | inr over ↦ rw over (rw (lapsed ∙ ap not over) refl)
    ]

entry_exists-is_seen :
    (w : Option Write) (now : ℕ) → entry_exists (entries_of w) now ≡ is_seen w now
unfolding entry_exists
entry_exists-is_seen none now = refl
entry_exists-is_seen (some w) now =
    let lapsed = expiry_lem w.ttl w.written now in
    elim (Bool-cases (is_live w now)) [
      | inl live ↦ rw live (rw (lapsed ∙ ap not live) refl)
      | inr over ↦ rw over (rw (lapsed ∙ ap not over) refl)
    ]

-- After any operations on a new store, at whatever times, reading a key gives what its last write
-- left: the value of a `Set` whose time to live is not positive, or that was written at most that
-- long ago; and the empty string after a `Delete`, after that time and where nothing was written.
-- `Exists` says whether there is such a value.
pub get-run-last_write :
    (registry : Option (List Metric)) (ops : List (ℕ × Op)) (key : String) (now : ℕ)
    → ((get (run (new_memory_store registry) ops) key now).1 ≡ seen (last_write key ops none) now)
      × (exists (run (new_memory_store registry) ops) key now
          ≡ is_seen (last_write key ops none) now)
unfolding get exists new_memory_store find
get-run-last_write registry ops key now =
    let m = run (new_memory_store registry) ops in
    let found = find-run (new_memory_store registry) ops key none refl in
    (
      ap (λ o. (get_entry m o now).1) found ∙ get_entry-seen m (last_write key ops none) now,
      ap (λ o. entry_exists o now) found ∙ entry_exists-is_seen (last_write key ops none) now,
    )
