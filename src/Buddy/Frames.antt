-- ===== src/Buddy/Frames.antt =====
-- The frame array as a set of free blocks, and what marking a block does to it.
use native.Mathlib.Nat.{one-le-pow}
use valkyrie.Base.{
  ℕ, ◌+◌, ◌%◌, ◌^◌, ◌≤◌, ◌<◌, ◌≡◌, arith, ◌==◌, if◌then◌else◌, ltb, leb, ◌&&◌, ◌⊎◌, inl, inr,
  Bool-cases,
}
use valkyrie.Buddy.{Frame, free, allocated, dont_allocate, max_order, nr_pages}

-- How often a free block of order `k` that begins at a frame stands in the free list of order `k`.
unfoldable pub weight : Frame → ℕ → ℕ
weight (free m) k = if m == k then 1 else 0
weight allocated k = 0
weight dont_allocate k = 0

-- The `n` frames from `i` on, marked as allocated.
abbrev pub claim : (ℕ → Frame) → ℕ → ℕ → ℕ → Frame
claim f i n j = if leb i j && ltb j (i + n) then allocated else f j

-- The `n` frames from `i` on, marked as one free block of order `k`.
abbrev pub release : (ℕ → Frame) → ℕ → ℕ → ℕ → ℕ → Frame
release f i k n j =
    if i == j then free k else if ltb i j && ltb j (i + n) then dont_allocate else f j

-- The frame array describes disjoint free blocks, each aligned to its size and inside the zone, and
-- every frame that is not the head of a free block or inside one is allocated.
pub record Shape (f : ℕ → Frame) : Type 0 where
  pub bounds : (i k : ℕ) → f i ≡ free k → (k < max_order) × (i + 2 ^ k ≤ nr_pages)
  pub aligned : (i k : ℕ) → f i ≡ free k → i % 2 ^ k ≡ 0
  pub inner : (i k j : ℕ) → f i ≡ free k → i < j → j < i + 2 ^ k → f j ≡ dont_allocate
  pub cover :
      (j : ℕ) → f j ≡ dont_allocate → (i : ℕ) × (k : ℕ) × (f i ≡ free k) × (i < j) × (j < i + 2 ^ k)

pub pow_pos : (k : ℕ) → 0 < 2 ^ k
pow_pos k = one-le-pow k 2 (omega arith)

claim_free : (f : ℕ → Frame) (i n j m : ℕ) → claim f i n j ≡ free m → f j ≡ free m
claim_free f i n j m e = ground arith

claim_dont : (f : ℕ → Frame) (i n j : ℕ) → claim f i n j ≡ dont_allocate → f j ≡ dont_allocate
claim_dont f i n j e = ground arith

module _ (f : ℕ → Frame) (s : Shape f) where
  -- Taking a free block out leaves the other free blocks as they were.
  pub claim-Shape : (i k : ℕ) → f i ≡ free k → Shape (claim f i (2 ^ k))
  claim-Shape i k e = record {
    bounds = λ j m h. s.bounds j m (claim_free f i (2 ^ k) j m h);
    aligned = λ j m h. s.aligned j m (claim_free f i (2 ^ k) j m h);
    inner = λ j m a h lo hi.
        let g = claim_free f i (2 ^ k) j m h in
        ground (arith, s.inner j m a g lo hi, s.inner i k j e, s.inner j m i g);
    cover = λ j h.
        let (i', k', g, lo, hi) = s.cover j (claim_dont f i (2 ^ k) j h) in
        (i', k', ground (arith, s.inner i k i' e, s.inner i' k' i g), lo, hi);
  }

  abbrev Claimed : ℕ → ℕ → Type 0
  Claimed i k = (j : ℕ) → i ≤ j → j < i + 2 ^ k → f j ≡ allocated

  release_free :
      (i k j m : ℕ) → release f i k (2 ^ k) j ≡ free m → ((i ≡ j) × (k ≡ m)) ⊎ (f j ≡ free m)
  release_free i k j m h = ground arith

  release_bounds :
      (i k : ℕ)
      → k < max_order
      → i + 2 ^ k ≤ nr_pages
      → (j m : ℕ) → release f i k (2 ^ k) j ≡ free m
      → (m < max_order) × (j + 2 ^ m ≤ nr_pages)
  release_bounds i k b c j m h = elim (release_free i k j m h) [
    | inl (p, q) ↦ rw (← p, ← q) (b, c)
    | inr g ↦ s.bounds j m g
  ]

  release_aligned :
      (i k : ℕ) → i % 2 ^ k ≡ 0 → (j m : ℕ) → release f i k (2 ^ k) j ≡ free m → j % 2 ^ m ≡ 0
  release_aligned i k d j m h = elim (release_free i k j m h) [
    | inl (p, q) ↦ rw (← p, ← q) d
    | inr g ↦ s.aligned j m g
  ]

  release_inner :
      (i k : ℕ)
      → Claimed i k
      → (j m x : ℕ) → release f i k (2 ^ k) j ≡ free m
      → j < x
      → x < j + 2 ^ m
      → release f i k (2 ^ k) x ≡ dont_allocate
  release_inner i k a j m x h lo hi = elim (release_free i k j m h) [
    | inl (p, q) ↦ let hi' : x < i + 2 ^ k = rw (p, q) hi in ground arith
    | inr g ↦ ground (arith, s.inner j m x g lo hi, a x, pow_pos k, a i)
  ]

  release_cover :
      (i k : ℕ)
      → Claimed i k
      → (j : ℕ) → release f i k (2 ^ k) j ≡ dont_allocate
      → (i' : ℕ) × (k' : ℕ) × (release f i k (2 ^ k) i' ≡ free k') × (i' < j) × (j < i' + 2 ^ k')
  release_cover i k a j h = elim (Bool-cases (ltb i j && ltb j (i + 2 ^ k))) [
    | inl new ↦ (i, k, ground arith, ground arith, ground arith)
    | inr old ↦
        let was : f j ≡ dont_allocate = ground arith in
        let (i', k', g, lo, hi) = s.cover j was in
        (i', k', ground (arith, a i', a i, pow_pos k), lo, hi)
  ]

  -- Putting an allocated, aligned block back adds one free block.
  pub release-Shape :
      (i k : ℕ)
      → ((j : ℕ) → i ≤ j → j < i + 2 ^ k → f j ≡ allocated)
      → k < max_order
      → i + 2 ^ k ≤ nr_pages
      → i % 2 ^ k ≡ 0
      → Shape (release f i k (2 ^ k))
  release-Shape i k a b c d = record {
    bounds = λ j m h. release_bounds i k b c j m h;
    aligned = λ j m h. release_aligned i k d j m h;
    inner = λ j m x h lo hi. release_inner i k a j m x h lo hi;
    cover = λ j h. release_cover i k a j h;
  }
