-- ===== src/SlobAllocator/Splits.antt =====
-- A chunk that is handed out whole.
use valkyrie.Base.{
  ℕ, ◌+◌, ◌-◌, ◌%◌, ◌^◌, ◌≤◌, ◌<◌, ◌≡◌, ◌≢◌, refl, ap, subst, ◌∙◌, true, false, none, ltb, ◌==◌,
  arith, Bool-cases, inl, inr, List, length,
}
use valkyrie.Base.Outcome.{ok}
use valkyrie.Buddy.Chains.{Chain, Distinct, count, remove}
use valkyrie.SlobAllocator.{
  Slob, ChunkHeader, unsorted, bin_head, bin_get_head, bin_del_head, get_size, get_next_chunk,
  get_bin_index, is_large, is_negative, sign_extend, set_allocated, set_prev_chunk_size,
  is_chunk_size_usable, modify, discard, cut_chunk, split_from_chunk, smallest_chunk_size,
}
use valkyrie.SlobAllocator.Bins.{nexts, Chain-agree}
use valkyrie.SlobAllocator.Entries.{Changed, bin_del_entry_lem}

get_size-index : (h h' : ChunkHeader) → h.index ≡ h'.index → get_size h ≡ get_size h'
unfolding get_size
get_size-index h h' e = rw e refl

module _ (fuel : ℕ) (s : Slob) (chunk size : ℕ) (l : List ℕ)
    (large : is_large (s.headers chunk).index ≡ true) (whole : get_size (s.headers chunk) ≡ size)
    (z : smallest_chunk_size ≤ size) (fits : chunk + size < 2 ^ 64)
    (chain : Chain (nexts s.headers) s.unsorted_bin l) (distinct : Distinct l)
    (enough : length l < fuel) (free_next : count (chunk + size) l ≡ 0)
    (regular : chunk + size ≢ s.top_chunk) where
  -- The header of the remainder, which has no bytes: it is that of the chunk after.
  written : Slob
  written =
      modify (λ h. record { next = none; index = get_bin_index 0; prev_chunk_size = size % 2 ^ 32 })
        (chunk + size) s

  apart : (chunk + size == chunk) ≡ false
  apart = ground (arith, z)

  at_chunk : written.headers chunk ≡ s.headers chunk
  unfolding written
  at_chunk = rw apart refl

  at_next : (written.headers (chunk + size)).index ≡ get_bin_index 0
  unfolding written
  at_next = let self : (chunk + size == chunk + size) ≡ true = ground arith in rw self refl

  written-Chain : Chain (nexts written.headers) s.unsorted_bin l
  unfolding written
  written-Chain =
      Chain-agree (nexts s.headers) (nexts written.headers) s.unsorted_bin l
        (λ a pos. elim (Bool-cases (chunk + size == a)) [
          | inr off ↦ rw (nexts, off) refl
          | inl same ↦
              let eq : chunk + size ≡ a = ground arith in
              let zero_count : count a l ≡ 0 = subst (λ (b : ℕ). count b l ≡ 0) eq free_next in
              absurd (omega (arith, pos, zero_count))
        ])
        chain

  in_unsorted : bin_get_head written chunk ≡ ok unsorted
  unfolding bin_get_head
  in_unsorted = rw (at_chunk, large) refl

  taken : Changed written unsorted l (remove chunk l) (bin_del_head fuel chunk written)
  unfolding bin_del_head bin_head written
  taken =
      rw (at_chunk, bin_del_head, large)
        (bin_del_entry_lem chunk written unsorted in_unsorted fuel l written-Chain distinct enough)

  -- The state at the end.
  split : Slob
  split =
      modify (λ h. set_allocated true (record h { next = none; index = get_bin_index size })) chunk
        (modify (set_prev_chunk_size 0) (chunk + size) (discard (chunk + size) taken.after))

  kept_next : get_next_chunk (discard (chunk + size) taken.after) chunk ≡ chunk + size
  unfolding get_next_chunk discard
  kept_next =
      let same : get_size (taken.after.headers chunk) ≡ size =
        get_size-index (taken.after.headers chunk) (s.headers chunk)
          ((taken.same chunk).0 ∙ ap (λ (h : ChunkHeader). h.index) at_chunk)
        ∙ whole in
      rw (apart, same) (omega (arith, fits))

  top_kept : (discard (chunk + size) taken.after).top_chunk ≡ s.top_chunk
  unfolding discard written
  top_kept = taken.top.2

  cut_chunk_whole : cut_chunk fuel chunk size s ≡ ok split
  unfolding cut_chunk is_chunk_size_usable written split
  cut_chunk_whole =
      let none_left : (get_size (s.headers chunk) + 2 ^ 64 - size) % 2 ^ 64 ≡ 0 =
        omega (arith, whole) in
      let next : (chunk + size) % 2 ^ 64 ≡ chunk + size = omega (arith, fits) in
      let other : (chunk + size == s.top_chunk) ≡ false = ground (arith, regular) in
      rw (none_left, next, taken.runs, kept_next, top_kept, other) refl

  no_bytes : (h : ChunkHeader) → h.index ≡ get_bin_index 0 → get_size h ≡ 0
  unfolding get_size get_bin_index sign_extend
  no_bytes h e = rw e refl

  split_next : get_size (split.headers (chunk + size)) ≡ 0
  unfolding split discard set_allocated set_prev_chunk_size
  split_next =
      let off : (chunk == chunk + size) ≡ false = ground (arith, z) in
      let self : (chunk + size == chunk + size) ≡ true = ground arith in
      no_bytes (split.headers (chunk + size))
        (rw (off, self) ((taken.same (chunk + size)).0 ∙ at_next))

  -- `split_from_chunk` of the whole of a chunk of 32 bytes at least, with an index of the
  -- unsorted bin, which is a finite list without repetition, on more fuel than the bin has
  -- chunks: it returns, but the header of the chunk after it, which is below 2^64, not in that
  -- bin and not the top chunk, says then that its chunk has no bytes.
  pub split_from_chunk_whole :
      (after : Slob) × (split_from_chunk fuel chunk size s ≡ ok after)
      × (get_size (after.headers (chunk + size)) ≡ 0)
  unfolding split_from_chunk is_chunk_size_usable is_negative is_large
  split_from_chunk_whole =
      let usable : is_chunk_size_usable size ≡ true = ground (arith, z) in
      let regular_index : is_negative (s.headers chunk).index ≡ false = ground (arith, large) in
      let holds : ltb (get_size (s.headers chunk)) size ≡ false = ground (arith, whole) in
      (split, rw (usable, regular_index, holds, cut_chunk_whole) refl, split_next)
