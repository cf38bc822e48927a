-- ===== src/Resilience/Window/Shape.antt =====
-- The shape of a sliding window: its ring of buckets keeps its length, the index stays in it, and no
-- bucket is younger than the last rotation. So no operation panics.
use native.Mathlib.Nat.{mod-lt, le_refl}
use Prim.Native.Nat.{min}
use gomind.Base.{
  ◌∙◌, ℕ, zero, suc, ◌+◌, ◌%◌, ◌≤◌, ◌<◌, ◌≡◌, refl, inl, inr, Option, some, List, [], ◌∷◌, map,
  arith, length, get_elem?, set, All, length-set, get_elem?-set_self, All-set, Bool-cases, leb,
  leb→le, ◌-◌, ◌/◌, ap,
}
use gomind.Base.Int.{ℤ, pos, negsuc, pos_part, sub_ℕ, leb_ℤ, ◌≤ℤ◌}
use gomind.Base.Panic.{Returns}
use gomind.Resilience.Window.{
  Bucket, SlidingWindow, fresh, clear_one, clear_next, rounds_due, reset, elapsed_since, rotate_by,
  rotate_elapsed, rotate_buckets,
}

pub record IsValid (sw : SlidingWindow) : Type 0 where
  pub in_ring : sw.current_idx < length sw.buckets
  pub size_pos : 0 < pos_part sw.bucket_size
  pub size_fits : sw.bucket_size ≤ℤ sw.window_size
  pub past : All (λ (b : Bucket). b.timestamp ≤ sw.last_rotation) sw.buckets
  pub current :
      (b : Bucket) × (get_elem? sw.buckets sw.current_idx ≡ some b)
      × (b.timestamp ≡ sw.last_rotation)

-- What an operation leaves alone.
pub record SameSizes (sw sw' : SlidingWindow) : Type 0 where
  pub same_window : sw'.window_size ≡ sw.window_size
  pub same_bucket : sw'.bucket_size ≡ sw.bucket_size
  pub same_length : length sw'.buckets ≡ length sw.buckets
  pub same_mode : sw'.monotonic ≡ sw.monotonic

All-mono :
    {m n : ℕ} (bs : List Bucket)
    → m ≤ n
    → All (λ (b : Bucket). b.timestamp ≤ m) bs
    → All (λ (b : Bucket). b.timestamp ≤ n) bs
All-mono [] h a = tt
All-mono {m} {n} (b ∷ bs) h a = (omega arith, All-mono {m = m} {n = n} bs h a.1)

clear_one-SameSizes : (now : ℕ) (sw : SlidingWindow) → SameSizes sw (clear_one now sw)
unfolding clear_one
clear_one-SameSizes now sw = record {
  same_window = refl;
  same_bucket = refl;
  same_length = length-set sw.buckets ((sw.current_idx + 1) % length sw.buckets) (fresh now);
  same_mode = refl;
}

pub SameSizes-trans : {a b c : SlidingWindow} → SameSizes a b → SameSizes b c → SameSizes a c
SameSizes-trans p q = record {
  same_window = q.same_window ∙ p.same_window;
  same_bucket = q.same_bucket ∙ p.same_bucket;
  same_length = q.same_length ∙ p.same_length;
  same_mode = q.same_mode ∙ p.same_mode;
}

SameSizes-refl : (a : SlidingWindow) → SameSizes a a
SameSizes-refl a = record {
  same_window = refl;
  same_bucket = refl;
  same_length = refl;
  same_mode = refl;
}

pub clear_next-SameSizes :
    (rounds now : ℕ) (sw : SlidingWindow) → SameSizes sw (clear_next rounds now sw)
unfolding clear_next
clear_next-SameSizes zero now sw = SameSizes-refl sw
clear_next-SameSizes (suc rounds) now sw =
    SameSizes-trans (clear_one-SameSizes now sw)
      (clear_next-SameSizes rounds now (clear_one now sw))

-- The ring just after its current bucket was cleared.
record IsCleared (now : ℕ) (sw : SlidingWindow) : Type 0 where
  in_ring : sw.current_idx < length sw.buckets
  past : All (λ (b : Bucket). b.timestamp ≤ now) sw.buckets
  current : get_elem? sw.buckets sw.current_idx ≡ some (fresh now)

clear_one-IsCleared :
    (now : ℕ) (sw : SlidingWindow)
    → 0 < length sw.buckets
    → All (λ (b : Bucket). b.timestamp ≤ now) sw.buckets
    → IsCleared now (clear_one now sw)
unfolding clear_one
clear_one-IsCleared now sw h a = record {
  in_ring = rw same below;
  past = All-set (λ (b : Bucket). b.timestamp ≤ now) sw.buckets idx (fresh now) (le_refl now) a;
  current = get_elem?-set_self sw.buckets idx (fresh now) below;
}
  where
    idx : ℕ
    idx = (sw.current_idx + 1) % length sw.buckets

    same : length (set sw.buckets idx (fresh now)) ≡ length sw.buckets
    same = length-set sw.buckets idx (fresh now)

    below : idx < length sw.buckets
    below = mod-lt (sw.current_idx + 1) h

clear_next-IsCleared :
    (rounds now : ℕ) (sw : SlidingWindow)
    → IsCleared now sw
    → IsCleared now (clear_next rounds now sw)
unfolding clear_next
clear_next-IsCleared zero now sw c = c
clear_next-IsCleared (suc rounds) now sw c =
    clear_next-IsCleared rounds now (clear_one now sw)
      (clear_one-IsCleared now sw (omega arith) c.past)

-- A result that is there, valid, and of the sizes of the window before.
abbrev pub Keeps : SlidingWindow → Option SlidingWindow → Type 0
Keeps sw = Returns (λ sw'. IsValid sw' × SameSizes sw sw')

IsCleared-IsValid :
    {sw sw' : SlidingWindow} (now : ℕ)
    → IsValid sw
    → SameSizes sw sw'
    → IsCleared now sw'
    → IsValid (record sw' { last_rotation = now })
IsCleared-IsValid {sw} {sw'} now v s c = record {
  in_ring = c.in_ring;
  size_pos = rw s.same_bucket v.size_pos;
  size_fits = rw (s.same_bucket, s.same_window) v.size_fits;
  past = c.past;
  current = (fresh now, c.current, refl);
}

clear_pos-IsCleared :
    (rounds now : ℕ) (sw : SlidingWindow)
    → IsValid sw
    → sw.last_rotation ≤ now
    → 0 < rounds
    → IsCleared now (clear_next rounds now sw)
unfolding clear_next
clear_pos-IsCleared zero now sw v h p = absurd (omega arith)
clear_pos-IsCleared (suc n) now sw v h p = clear_next-IsCleared n now (clear_one now sw) (
    clear_one-IsCleared now sw (let i = v.in_ring in omega arith)
      (All-mono {m = sw.last_rotation} {n = now} sw.buckets h v.past))

rotate_by-Keeps :
    (sw : SlidingWindow) (now rounds : ℕ)
    → IsValid sw
    → sw.last_rotation ≤ now
    → 0 < rounds
    → Keeps sw (rotate_by sw now (some rounds))
unfolding rotate_by
rotate_by-Keeps sw now rounds v h p =
    let n = min rounds (length sw.buckets) in
    let i = v.in_ring in
    let s = clear_next-SameSizes n now sw in
    (
      IsCleared-IsValid now v s (clear_pos-IsCleared n now sw v h (omega arith)),
      record {
        same_window = s.same_window;
        same_bucket = s.same_bucket;
        same_length = s.same_length;
        same_mode = s.same_mode;
      },
    )

pub rounds_due-pos :
    (elapsed : ℕ) (size : ℤ)
    → 0 < pos_part size
    → size ≤ℤ pos elapsed
    → (n : ℕ) × (rounds_due elapsed size ≡ some n) × (0 < n)
unfolding rounds_due
rounds_due-pos elapsed (pos zero) p h = absurd (omega arith)
rounds_due-pos elapsed (pos (suc size)) p h = (elapsed / suc size, refl, grind arith)
rounds_due-pos elapsed (negsuc size) p h = absurd (omega arith)

length-wipe : (now : ℕ) (bs : List Bucket) → length (map (λ _. fresh now) bs) ≡ length bs
length-wipe now [] = refl
length-wipe now (b ∷ bs) = ap suc (length-wipe now bs)

All-wipe :
    (now : ℕ) (bs : List Bucket) → All (λ (b : Bucket). b.timestamp ≤ now) (map (λ _. fresh now) bs)
All-wipe now [] = tt
All-wipe now (b ∷ bs) = (le_refl now, All-wipe now bs)

first-wipe :
    (now : ℕ) (bs : List Bucket)
    → 0 < length bs
    → get_elem? (map (λ _. fresh now) bs) 0 ≡ some (fresh now)
first-wipe now [] h = elim h [ ]
first-wipe now (b ∷ bs) h = refl

reset-Keeps : (sw : SlidingWindow) (now : ℕ) → IsValid sw → Keeps sw (some (reset sw now))
unfolding reset
reset-Keeps sw now v =
    let i = v.in_ring in
    let same = length-wipe now sw.buckets in
    (
      record {
        in_ring = omega arith;
        size_pos = v.size_pos;
        size_fits = v.size_fits;
        past = All-wipe now sw.buckets;
        current = (fresh now, first-wipe now sw.buckets (omega arith), refl);
      },
      record { same_window = refl; same_bucket = refl; same_length = same; same_mode = refl },
    )

pub elapsed_since-valid :
    (sw : SlidingWindow) (now : ℕ)
    → IsValid sw
    → elapsed_since sw now ≡ some (sub_ℕ now sw.last_rotation)
unfolding elapsed_since
elapsed_since-valid sw now v = elim (Bool-cases sw.monotonic) [
  | inl e ↦ rw (e, elapsed_since)
  | inr e ↦
      let (b, at, stamp) = v.current in
      rw (e, elapsed_since) (rw at (ap (λ (t : ℕ). some (sub_ℕ now t)) stamp))
]

rotate_forward-Keeps :
    (sw : SlidingWindow) (now elapsed : ℕ)
    → IsValid sw
    → sw.last_rotation ≤ now
    → Keeps sw (rotate_elapsed sw now (some (pos elapsed)))
unfolding rotate_elapsed
rotate_forward-Keeps sw now elapsed v h = elim (Bool-cases (leb_ℤ sw.bucket_size (pos elapsed))) [
  | inl due ↦
      let (n, e, p) = rounds_due-pos elapsed sw.bucket_size v.size_pos (leb→le _ _ due) in
      rw (due, rotate_elapsed) (rw e (rotate_by-Keeps sw now n v h p))
  | inr early ↦ rw (early, rotate_elapsed) (v, SameSizes-refl sw)
]

pub rotate_buckets-Keeps :
    (sw : SlidingWindow) (now : ℕ) → IsValid sw → Keeps sw (rotate_buckets sw now)
unfolding rotate_buckets
rotate_buckets-Keeps sw now v =
    rw (elapsed_since-valid sw now v) (elim (Bool-cases (leb sw.last_rotation now)) [
      | inl forward ↦
          rw forward (rotate_forward-Keeps sw now (now - sw.last_rotation) v (leb→le _ _ forward))
      | inr back ↦ rw back (unfold rotate_elapsed in reset-Keeps sw now v)
    ])
