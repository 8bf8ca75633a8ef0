-- ===== src/SlobAllocator/Frees.antt =====
-- What becomes of chunks that are freed.
use valkyrie.Base.{
  ℕ, ◌+◌, ◌-◌, ◌%◌, ◌^◌, ◌≤◌, ◌<◌, ◌≡◌, ◌≢◌, refl, ◌∙◌, true, false, not, ◌&&◌, Option, none, some,
  ltb, ◌==◌, arith, Bool-cases, inl, inr, ◌⊎◌,
}
use valkyrie.Base.Outcome.{Outcome, ok, ◌>>=◌}
use valkyrie.Buddy.{page_size}
use valkyrie.SlobAllocator.{
  Slob, ChunkHeader, get_size, is_allocated, set_allocated, get_prev_chunk_size, get_prev_chunk,
  get_next_chunk, get_bin_index, sign_extend, modify, settle, deallocate_chunk, deallocate,
  allocate, chunk_header_size,
}
use valkyrie.SlobAllocator.Sizes.{IsChunkSize, get_size-get_bin_index}
use valkyrie.SlobAllocator.Tops.{IsTop, split_top, FromTop}

-- The state in which the chunk is marked as free.
abbrev pub marked : ℕ → Slob → Slob
marked chunk s = modify (set_allocated false) chunk s

-- The chunk before the freed one is allocated, or lies in another page frame.
abbrev pub IsFirst : Slob → ℕ → Type 0
IsFirst s chunk =
    (chunk % page_size ≡ 0)
    ⊎ ((get_prev_chunk s chunk ≢ chunk)
        × (is_allocated (s.headers (get_prev_chunk s chunk)) ≡ true))

-- The chunk after the freed one is allocated and not the top chunk, or lies in another page frame.
abbrev pub IsLast : Slob → ℕ → Type 0
IsLast s chunk =
    (get_next_chunk s chunk % page_size ≡ 0)
    ⊎ ((get_next_chunk s chunk ≢ chunk)
        × (get_next_chunk s chunk ≢ s.top_chunk)
        × (is_allocated (s.headers (get_next_chunk s chunk)) ≡ true))

module _ (fuel : ℕ) (s : Slob) (chunk : ℕ) where
  prev_stays :
      IsFirst s chunk
      → (not (is_allocated ((marked chunk s).headers (get_prev_chunk s chunk)))
          && not (chunk % page_size == 0))
        ≡ false
  prev_stays (inl e) = ground (arith, e)
  prev_stays (inr (ne, a)) =
      let off : (chunk == get_prev_chunk s chunk) ≡ false = ground (arith, ne) in rw (off, a) refl

  deallocate_chunk-IsFirst :
      IsFirst s chunk
      → deallocate_chunk fuel chunk s
        ≡ settle fuel chunk (get_next_chunk s chunk) (get_size (s.headers chunk)) (marked chunk s)
  unfolding deallocate_chunk
  deallocate_chunk-IsFirst f = rw (prev_stays f, deallocate_chunk) refl

  pub deallocate-chunk :
      0 < chunk
      → chunk + chunk_header_size < 2 ^ 64
      → deallocate fuel s (chunk + chunk_header_size) ≡ deallocate_chunk fuel chunk s
  unfolding deallocate
  deallocate-chunk pos lt =
      let z : (chunk + chunk_header_size == 0) ≡ false = ground arith in
      let back : (chunk + chunk_header_size + 2 ^ 64 - chunk_header_size) % 2 ^ 64 ≡ chunk =
        omega arith in
      rw (z, back) refl

  -- Between chunks that stay, the chunk only gets another flag.
  pub deallocate-marked :
      0 < chunk
      → chunk + chunk_header_size < 2 ^ 64
      → IsFirst s chunk
      → IsLast s chunk
      → deallocate fuel s (chunk + chunk_header_size) ≡ ok (marked chunk s)
  unfolding settle
  deallocate-marked pos lt f (inl e) =
      let z : (get_next_chunk s chunk % page_size == 0) ≡ true = ground (arith, e) in
      deallocate-chunk pos lt ∙ deallocate_chunk-IsFirst f ∙ rw (settle, z) refl
  deallocate-marked pos lt f (inr (ne, top, a)) =
      let off : (chunk == get_next_chunk s chunk) ≡ false = ground (arith, ne) in
      let other : (get_next_chunk s chunk == s.top_chunk) ≡ false = ground (arith, top) in
      deallocate-chunk pos lt
      ∙ deallocate_chunk-IsFirst f
      ∙ elim (Bool-cases (get_next_chunk s chunk % page_size == 0)) [
        | inl z ↦ rw (settle, z) refl
        | inr z ↦ rw (settle, z, other, off, a) refl
      ]

-- `deallocate` of the pointer that a request has got.
abbrev pub free_some : ℕ → Slob → Option ℕ → Outcome Slob
free_some fuel s none = ok s
free_some fuel s (some p) = deallocate fuel s p

-- The chunk before the top chunk is allocated, or there is none in the page frame.
abbrev pub IsGuarded : Slob → Type 0
IsGuarded s =
    (s.top_chunk_prev_chunk_size % 2 ≡ 0)
    × (s.top_chunk_prev_chunk_size < 2 ^ 31)
    × ((s.top_chunk % page_size ≡ 0)
        ⊎ ((0 < s.top_chunk_prev_chunk_size)
            × (s.top_chunk_prev_chunk_size ≤ s.top_chunk)
            × (is_allocated (s.headers (s.top_chunk - s.top_chunk_prev_chunk_size)) ≡ true)))

-- The top chunk and the bins are those of the other state.
abbrev pub SameRest : Slob → Slob → Type 0
SameRest s s' =
    (s'.top_chunk ≡ s.top_chunk)
    × (s'.top_chunk_prev_chunk_size ≡ s.top_chunk_prev_chunk_size)
    × (s'.page_frame_allocatable_begin ≡ s.page_frame_allocatable_begin)
    × (s'.page_frame_allocatable_end ≡ s.page_frame_allocatable_end)
    × (s'.bins ≡ s.bins)
    × (s'.unsorted_bin ≡ s.unsorted_bin)
    × (s'.buddy ≡ s.buddy)

module _ (fuel : ℕ) (s : Slob) (t : IsTop s) (g : IsGuarded s) (size : ℕ) (z : IsChunkSize size)
    (inside : s.top_chunk + size < s.page_frame_allocatable_end)
    (pos : 0 < s.page_frame_allocatable_begin) where
  split_header : ChunkHeader
  split_header = set_allocated true (record {
    next = none;
    index = get_bin_index size;
    prev_chunk_size = s.top_chunk_prev_chunk_size;
  })

  at_top : (split_top size s).headers s.top_chunk ≡ split_header
  unfolding split_header
  at_top = let self : (s.top_chunk == s.top_chunk) ≡ true = ground arith in rw self refl

  split_prev : get_prev_chunk_size split_header ≡ s.top_chunk_prev_chunk_size
  unfolding get_prev_chunk_size set_allocated split_header
  split_prev = omega (arith, g.0)

  split_size : get_size split_header ≡ size
  unfolding split_header set_allocated
  split_size = get_size-get_bin_index size split_header z refl

  prev_chunk :
      get_prev_chunk (split_top size s) s.top_chunk
      ≡ (s.top_chunk + 2 ^ 64 - s.top_chunk_prev_chunk_size) % 2 ^ 64
  unfolding get_prev_chunk sign_extend
  prev_chunk =
      let small : ltb s.top_chunk_prev_chunk_size (2 ^ 31) ≡ true = ground (arith, g.1) in
      rw (at_top, split_prev, small) refl

  next_chunk : get_next_chunk (split_top size s) s.top_chunk ≡ s.top_chunk + size
  unfolding get_next_chunk
  next_chunk = rw (at_top, split_size) (omega (arith, inside, t.below))

  first : IsFirst (split_top size s) s.top_chunk
  first = elim g.2 [
    | inl e ↦ inl e
    | inr (some_size, le, a) ↦
        let prev : get_prev_chunk (split_top size s) s.top_chunk
            ≡ s.top_chunk - s.top_chunk_prev_chunk_size =
          prev_chunk ∙ omega (arith, le, some_size, t.high, t.below) in
        let off : (s.top_chunk == s.top_chunk - s.top_chunk_prev_chunk_size) ≡ false =
          ground (arith, le, some_size) in
        inr (λ e. absurd (omega (arith, e, prev, le, some_size)), rw (prev, off) a)
  ]

  -- The state after the chunk is merged into the top chunk again.
  merged_top : Slob
  merged_top = record (marked s.top_chunk (split_top size s)) {
    top_chunk = s.top_chunk;
    top_chunk_prev_chunk_size =
        get_prev_chunk_size ((marked s.top_chunk (split_top size s)).headers s.top_chunk);
  }

  settle_top :
      settle fuel s.top_chunk
        (s.top_chunk + size)
        (get_size ((split_top size s).headers s.top_chunk))
        (marked s.top_chunk (split_top size s))
      ≡ ok merged_top
  unfolding settle merged_top
  settle_top =
      let off : ((s.top_chunk + size) % page_size == 0) ≡ false =
        ground (arith, inside, t.low, t.aligned, t.ends, z.1) in
      let self : (s.top_chunk + size == s.top_chunk + size) ≡ true = ground arith in
      rw (off, self) refl

  merged_SameRest : SameRest s merged_top
  unfolding merged_top get_prev_chunk_size set_allocated
  merged_SameRest =
      let self : (s.top_chunk == s.top_chunk) ≡ true = ground arith in
      (refl, rw self (omega (arith, g.0)), refl, refl, refl, refl, refl)

  -- A chunk that is split from the top chunk, and is not the last of its page frame, and freed at once:
  -- `deallocate` returns, and the top chunk, the bins and the page frame are as before.
  pub deallocate-split_top :
      (after : Slob) × (deallocate fuel (split_top size s) (s.top_chunk + chunk_header_size)
        ≡ ok after)
      × SameRest s after
  deallocate-split_top = (
    merged_top,
    deallocate-chunk fuel (split_top size s) s.top_chunk (omega (arith, t.low, pos))
          (omega (arith, inside, t.below, z.1))
        ∙ deallocate_chunk-IsFirst fuel (split_top size s) s.top_chunk first
        ∙ rw next_chunk settle_top,
    merged_SameRest,
  )

-- A request that the top chunk serves, where the top chunk is the rest of a page frame that does
-- not begin at null, the chunk before it is allocated or in another page frame, and the new chunk
-- is not the last of the page frame, and whose chunk is freed at once: `deallocate` returns, and
-- the top chunk, the bins and the page frame are as before.
pub deallocate-allocate :
    (fuel : ℕ) (s : Slob) (n : ℕ) (g : FromTop s n (allocate fuel s n))
    → IsTop s
    → IsGuarded s
    → s.top_chunk + g.size < s.page_frame_allocatable_end
    → 0 < s.page_frame_allocatable_begin
    → (after : Slob) × ((allocate fuel s n >>= λ (s', p). free_some fuel s' p) ≡ ok after)
      × SameRest s after
deallocate-allocate fuel s n g t guarded inside pos =
    let (after, r, same) = deallocate-split_top fuel s t guarded g.size g.chunk_size inside pos in
    (after, rw g.runs r, same)
