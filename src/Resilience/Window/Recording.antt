-- ===== src/Resilience/Window/Recording.antt =====
-- Recording an outcome never panics and keeps the shape of the window, and the current bucket is
-- always young enough to be counted.
use Prim.Native.Nat.{min}
use gomind.Base.{
  ap, true, ℕ, zero, suc, ◌+◌, ◌-◌, ◌≤◌, ◌<◌, ◌≡◌, ◌∙◌, refl, inl, inr, Bool, Option, none, some,
  List, [], ◌∷◌, arith, length, get_elem?, set, All, leb, leb→le, Bool-cases, length-set,
  length-replicate, get_elem?-set_self, All-replicate,
}
use gomind.Base.Int.{quo, pos, pos_part, leb_ℤ}
use native.Mathlib.Nat.{le_refl}
use gomind.Resilience.Window.{
  Bucket, SlidingWindow, fresh, reset, rotate_by, rotate_elapsed, rotate_buckets, at_current,
  after_rotation, record_success, record_failure, add_success, add_failure, new_sliding_window,
}
use gomind.Resilience.Window.Shape.{
  IsValid, SameSizes-trans, Keeps, rotate_buckets-Keeps, elapsed_since-valid, clear_next-SameSizes,
  rounds_due-pos,
}

module _ (f : Bucket → Bucket) (keeps_time : (b : Bucket) → (f b).timestamp ≡ b.timestamp) where
  All-bump :
      (n i : ℕ) (b : Bucket) (bs : List Bucket)
      → get_elem? bs i ≡ some b
      → All (λ (c : Bucket). c.timestamp ≤ n) bs
      → All (λ (c : Bucket). c.timestamp ≤ n) (set bs i (f b))
  All-bump n i b [] e a = tt
  All-bump n zero b (c ∷ bs) e a = (rw (keeps_time b) (ground arith), a.1)
  All-bump n (suc i) b (c ∷ bs) e a = (a.0, All-bump n i b bs e a.1)

  at_current-Keeps : (sw : SlidingWindow) → IsValid sw → Keeps sw (at_current f sw)
  unfolding at_current
  at_current-Keeps sw v =
      let (b, at, stamp) = v.current in
      let same = length-set sw.buckets sw.current_idx (f b) in
      let i = v.in_ring in
      rw (at, at_current)
        (
          record {
            in_ring = rw same i;
            size_pos = v.size_pos;
            size_fits = v.size_fits;
            past = All-bump sw.last_rotation sw.current_idx b sw.buckets at v.past;
            current =
                (f b, get_elem?-set_self sw.buckets sw.current_idx (f b) i, keeps_time b ∙ stamp);
          },
          record { same_window = refl; same_bucket = refl; same_length = same; same_mode = refl },
        )

  after_rotation-Keeps :
      (sw : SlidingWindow) (r : Option SlidingWindow) → Keeps sw r → Keeps sw (after_rotation f r)
  unfolding after_rotation
  after_rotation-Keeps sw none k = k
  after_rotation-Keeps sw (some r) k = through (at_current f r) (at_current-Keeps r k.0)
    where
      through : (o : Option SlidingWindow) → Keeps r o → Keeps sw o
      through none bad = bad
      through (some sw') good = (good.0, SameSizes-trans k.1 good.1)

-- Recording a success in a valid window does not panic, and leaves a valid window of the same sizes.
pub record_success-Keeps :
    (sw : SlidingWindow) (now : ℕ) → IsValid sw → Keeps sw (record_success sw now)
unfolding record_success
record_success-Keeps sw now v =
    after_rotation-Keeps add_success (λ b. refl) sw (rotate_buckets sw now)
      (rotate_buckets-Keeps sw now v)

pub record_failure-Keeps :
    (sw : SlidingWindow) (now : ℕ) → IsValid sw → Keeps sw (record_failure sw now)
unfolding record_failure
record_failure-Keeps sw now v =
    after_rotation-Keeps add_failure (λ b. refl) sw (rotate_buckets sw now)
      (rotate_buckets-Keeps sw now v)

-- A new window with a bucket for each of `suc n` parts of at least one nanosecond is valid.
pub new_sliding_window-IsValid :
    (size n now : ℕ) (mode : Bool)
    → suc n ≤ size
    → IsValid (new_sliding_window (pos size) (pos (suc n)) mode now)
unfolding new_sliding_window
new_sliding_window-IsValid size n now mode h = record {
  in_ring = rw (length-replicate (suc n) (fresh now)) (omega arith);
  size_pos = grind arith;
  size_fits = grind arith;
  past = All-replicate (λ (b : Bucket). b.timestamp ≤ now) (suc n) (fresh now) (le_refl now);
  current = (fresh now, refl, refl);
}

abbrev IsRecent : ℕ → Option SlidingWindow → Type 0
IsRecent now none = Unit {0}
IsRecent now (some r) = now < r.last_rotation + pos_part r.bucket_size

rotate_forward-IsRecent :
    (sw : SlidingWindow) (now : ℕ)
    → IsValid sw
    → sw.last_rotation ≤ now
    → IsRecent now (rotate_elapsed sw now (some (pos (now - sw.last_rotation))))
unfolding rotate_elapsed rotate_by
rotate_forward-IsRecent sw now v h =
    let size_pos = v.size_pos in
    elim (Bool-cases (leb_ℤ sw.bucket_size (pos (now - sw.last_rotation)))) [
      | inl due ↦
          let (n, e, p) =
            rounds_due-pos (now - sw.last_rotation) sw.bucket_size v.size_pos (leb→le _ _ due) in
          let same = (clear_next-SameSizes (min n (length sw.buckets)) now sw).same_bucket in
          rw (due, rotate_elapsed) (rw e (rw same (omega arith)))
      | inr early ↦ rw (early, rotate_elapsed) (ground arith)
    ]

rotate_buckets-IsRecent :
    (sw : SlidingWindow) (now : ℕ) → IsValid sw → IsRecent now (rotate_buckets sw now)
unfolding rotate_buckets
rotate_buckets-IsRecent sw now v =
    let p = v.size_pos in
    rw (elapsed_since-valid sw now v) (elim (Bool-cases (leb sw.last_rotation now)) [
      | inl forward ↦ rw forward (rotate_forward-IsRecent sw now v (leb→le _ _ forward))
      | inr back ↦ rw back (unfold rotate_elapsed reset in omega arith)
    ])

-- Rotation gives a valid window, whose current bucket is counted at that time.
pub rotate_buckets_lem :
    (sw : SlidingWindow) (now : ℕ)
    → IsValid sw
    → (r : SlidingWindow) × (rotate_buckets sw now ≡ some r)
      × IsValid r
      × (now < r.last_rotation + pos_part r.bucket_size)
rotate_buckets_lem sw now v =
    pack (rotate_buckets sw now) (rotate_buckets-Keeps sw now v) (rotate_buckets-IsRecent sw now v)
  where
    pack :
        (o : Option SlidingWindow)
        → Keeps sw o
        → IsRecent now o
        → (r : SlidingWindow) × (o ≡ some r)
          × IsValid r
          × (now < r.last_rotation + pos_part r.bucket_size)
    pack none bad _ = absurd bad
    pack (some r) k h = (r, refl, k.0, h)

zero_size : (size n : ℕ) → size < suc n → quo (pos size) (suc n) ≡ pos 0
unfolding quo
zero_size size n h = ap pos (grind arith)

rotate_short :
    (sw : SlidingWindow) (now : ℕ)
    → sw.bucket_size ≡ pos 0
    → sw.monotonic ≡ true
    → sw.last_rotation ≤ now
    → rotate_buckets sw now ≡ none
unfolding rotate_buckets
rotate_short sw now zero_bucket mode h = ground arith

-- A window of fewer nanoseconds than buckets panics at the first recorded success: its bucket size is
-- 0, and rotation divides by it.
pub short_window_lem :
    (size n now later : ℕ)
    → size < suc n
    → now ≤ later
    → record_success (new_sliding_window (pos size) (pos (suc n)) true now) later ≡ none
unfolding record_success new_sliding_window
short_window_lem size n now later h le =
    let sw = new_sliding_window (pos size) (pos (suc n)) true now in
    ap (after_rotation add_success) (rotate_short sw later (zero_size size n h) refl le)
