-- ===== src/Resilience/Window/Counting.antt =====
-- What `GetCounts` counts: the sum over the buckets that are young enough, as a `uint64`.
use gomind.Base.{
  ℕ, zero, suc, ◌+◌, ◌≤◌, ◌<◌, ◌≡◌, ◌∙◌, refl, sym, inl, inr, true, some, List, [], ◌∷◌, arith,
  get_elem?, set, All, Bool-cases, if◌then◌else◌, lt→ltb,
}
use gomind.Base.Int.{ℤ, pos, negsuc, pos_part, neg_part, ◌-ℤ◌, -ℤ_parts, u64}
use gomind.Resilience.Window.{
  Bucket, SlidingWindow, Counts, rotate_buckets, at_current, after_rotation, record_success,
  record_failure, add_success, add_failure, in_window, count_from, get_counts,
}
use gomind.Resilience.Window.Shape.{IsValid}
use gomind.Resilience.Window.Recording.{rotate_buckets_lem}

-- The exact sum of a field over the buckets in the window.
pub sum_of : (Bucket → ℕ) → ℤ → ℕ → List Bucket → ℕ
sum_of field w now [] = 0
sum_of field w now (b ∷ bs) =
    let rest = sum_of field w now bs in if in_window w now b then field b + rest else rest

count_from-sum :
    (w : ℤ) (now : ℕ) (c : Counts) (bs : List Bucket)
    → c.successes < 18446744073709551616
    → c.failures < 18446744073709551616
    → (((count_from w now c bs).successes ≡ u64 (c.successes + sum_of (λ b. b.success) w now bs))
        × ((count_from w now c bs).failures ≡ u64 (c.failures + sum_of (λ b. b.failure) w now bs)))
unfolding count_from sum_of u64
count_from-sum w now c [] hs hf = (omega arith, omega arith)
count_from-sum w now c (b ∷ bs) hs hf = elim (Bool-cases (in_window w now b)) [
  | inl young ↦
      rw (young, count_from, sum_of)
        (let counted : Counts = record {
          successes = u64 (c.successes + b.success);
          failures = u64 (c.failures + b.failure);
        } in
          let rest = count_from-sum w now counted bs (omega arith) (omega arith) in
          (omega (arith, rest.0), omega (arith, rest.1)))
  | inr old ↦ rw (old, count_from, sum_of) (count_from-sum w now c bs hs hf)
]

-- The two counts are those sums, as `uint64`s.
pub get_counts-sum :
    (sw : SlidingWindow) (now : ℕ)
    → ((get_counts sw now).successes ≡ u64 (sum_of (λ b. b.success) sw.window_size now sw.buckets))
      × ((get_counts sw now).failures ≡ u64 (sum_of (λ b. b.failure) sw.window_size now sw.buckets))
unfolding get_counts
get_counts-sum sw now =
    let s =
      count_from-sum sw.window_size now (record { successes = 0; failures = 0 }) sw.buckets
        (omega arith) (omega arith) in
    (s.0 ∙ unfold u64 in (omega arith), s.1 ∙ unfold u64 in (omega arith))

sum_of-young :
    (field : Bucket → ℕ) (w : ℤ) (now : ℕ) (b : Bucket) (bs : List Bucket)
    → in_window w now b ≡ true
    → sum_of field w now (b ∷ bs) ≡ field b + sum_of field w now bs
unfolding sum_of
sum_of-young field w now b bs young = rw (young, sum_of)

module _ (field : Bucket → ℕ) (f : Bucket → Bucket) (d : ℕ)
    (keeps_time : (b : Bucket) → (f b).timestamp ≡ b.timestamp)
    (adds : (b : Bucket) → u64 (field (f b)) ≡ u64 (field b + d)) (w : ℤ) (now : ℕ) (b : Bucket)
    (young : in_window w now b ≡ true) where
  sum_of-bump :
      (i : ℕ) (bs : List Bucket)
      → get_elem? bs i ≡ some b
      → u64 (sum_of field w now (set bs i (f b))) ≡ u64 (sum_of field w now bs + d)
  unfolding sum_of u64
  sum_of-bump i [] e = cc
  sum_of-bump zero (c ∷ bs) e =
      let same : c ≡ b = cc in
      let before = sum_of-young field w now b bs young in
      let after = sum_of-young field w now (f b) bs (rw (keeps_time b) young) in
      rw (same, before, after) (omega (arith, adds b))
  sum_of-bump (suc i) (c ∷ bs) e = elim (Bool-cases (in_window w now c)) [
    | inl yes' ↦ rw (yes', sum_of) (omega (arith, sum_of-bump i bs e))
    | inr no' ↦ rw (no', sum_of) (sum_of-bump i bs e)
  ]

positive_parts : (z : ℤ) → 0 < pos_part z → neg_part z ≡ 0
positive_parts (pos n) h = refl
positive_parts (negsuc n) h = absurd (omega arith)

young_current :
    (sw : SlidingWindow) (now : ℕ) (b : Bucket)
    → IsValid sw
    → now < sw.last_rotation + pos_part sw.bucket_size
    → b.timestamp ≡ sw.last_rotation
    → in_window sw.window_size now b ≡ true
young_current sw now b v recent stamp =
    let fits = v.size_fits in
    let size_pos = v.size_pos in
    lt→ltb _ _
      (omega (arith, -ℤ_parts (pos now) sw.window_size, positive_parts sw.bucket_size v.size_pos))

-- The counts of the window `sw'` are those of `r`, and `s` successes and `t` failures more.
abbrev pub CountsGrow : ℕ → SlidingWindow → SlidingWindow → ℕ → ℕ → Type 0
CountsGrow now r sw' s t =
    ((get_counts sw' now).successes ≡ u64 ((get_counts r now).successes + s))
    × ((get_counts sw' now).failures ≡ u64 ((get_counts r now).failures + t))

u64_idem : (a d : ℕ) → u64 (u64 a + d) ≡ u64 (a + d)
unfolding u64
u64_idem a d = omega arith

module _ (f : Bucket → Bucket) (s t : ℕ) (keeps_time : (b : Bucket) → (f b).timestamp ≡ b.timestamp)
    (adds_s : (b : Bucket) → u64 ((f b).success) ≡ u64 (b.success + s))
    (adds_t : (b : Bucket) → u64 ((f b).failure) ≡ u64 (b.failure + t)) where
  at_current-CountsGrow :
      (sw : SlidingWindow) (now : ℕ)
      → IsValid sw
      → now < sw.last_rotation + pos_part sw.bucket_size
      → (sw' : SlidingWindow) × (at_current f sw ≡ some sw') × CountsGrow now sw sw' s t
  unfolding at_current
  at_current-CountsGrow sw now v recent =
      let (b, at, stamp) = v.current in
      let young = young_current sw now b v recent stamp in
      let sw' : SlidingWindow = record sw { buckets = set sw.buckets sw.current_idx (f b) } in
      let w = sw.window_size in
      let i = sw.current_idx in
      let new = get_counts-sum sw' now in
      let old = get_counts-sum sw now in
      (
        sw',
        rw (at, at_current),
        (
          new.0
              ∙ sum_of-bump (λ b. b.success) f s keeps_time adds_s w now b young i sw.buckets at
              ∙ (rw old.0 (sym (u64_idem _ s))),
          new.1
              ∙ sum_of-bump (λ b. b.failure) f t keeps_time adds_t w now b young i sw.buckets at
              ∙ (rw old.1 (sym (u64_idem _ t))),
        ),
      )

  after_rotation-CountsGrow :
      (sw : SlidingWindow) (now : ℕ)
      → IsValid sw
      → (r : SlidingWindow) × (sw' : SlidingWindow) × (rotate_buckets sw now ≡ some r)
        × (after_rotation f (rotate_buckets sw now) ≡ some sw')
        × CountsGrow now r sw' s t
  unfolding after_rotation
  after_rotation-CountsGrow sw now v =
      let (r, e, valid, recent) = rotate_buckets_lem sw now v in
      let (sw', e', grow) = at_current-CountsGrow r now valid recent in (r, sw', e, rw e e', grow)

-- A success recorded in a valid window is counted at once: recording does not panic, the successes
-- are one more than those of the rotated window, as a `uint64`, and the failures are the same.
pub get_counts-record_success :
    (sw : SlidingWindow) (now : ℕ)
    → IsValid sw
    → (r : SlidingWindow) × (sw' : SlidingWindow) × (rotate_buckets sw now ≡ some r)
      × (record_success sw now ≡ some sw')
      × CountsGrow now r sw' 1 0
unfolding record_success
get_counts-record_success sw now v =
    after_rotation-CountsGrow add_success 1 0 (λ b. refl) (λ b. unfold u64 in omega arith)
      (λ b. unfold u64 in omega arith) sw now v

-- The same of a failure: the failures are one more, and the successes the same.
pub get_counts-record_failure :
    (sw : SlidingWindow) (now : ℕ)
    → IsValid sw
    → (r : SlidingWindow) × (sw' : SlidingWindow) × (rotate_buckets sw now ≡ some r)
      × (record_failure sw now ≡ some sw')
      × CountsGrow now r sw' 0 1
unfolding record_failure
get_counts-record_failure sw now v =
    after_rotation-CountsGrow add_failure 0 1 (λ b. refl) (λ b. unfold u64 in omega arith)
      (λ b. unfold u64 in omega arith) sw now v

sum_of-old :
    (field : Bucket → ℕ) (w now last : ℕ) (bs : List Bucket)
    → last + w ≤ now
    → All (λ (b : Bucket). b.timestamp ≤ last) bs
    → sum_of field (pos w) now bs ≡ 0
unfolding sum_of ◌-ℤ◌
sum_of-old field w now last [] h a = refl
sum_of-old field w now last (b ∷ bs) h a =
    let stamp = a.0 in let rest = sum_of-old field w now last bs h a.1 in ground arith

-- Once a whole window has passed since the last rotation, nothing is counted, also before any
-- rotation has cleared a bucket.
get_counts-old :
    (sw : SlidingWindow) (w now : ℕ)
    → IsValid sw
    → sw.window_size ≡ pos w
    → sw.last_rotation + w ≤ now
    → ((get_counts sw now).successes ≡ 0) × ((get_counts sw now).failures ≡ 0)
get_counts-old sw w now v e h =
    let sums = get_counts-sum sw now in
    let s = sum_of-old (λ b. b.success) w now sw.last_rotation sw.buckets h v.past in
    let f = sum_of-old (λ b. b.failure) w now sw.last_rotation sw.buckets h v.past in
    (
      sums.0 ∙ rw e (rw s (unfold u64 in omega arith)),
      sums.1 ∙ rw e (rw f (unfold u64 in omega arith)),
    )
