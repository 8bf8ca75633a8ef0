-- ===== src/SlobAllocator/Tops.antt =====
-- Chunks from the top chunk.
use valkyrie.Base.{
  ℕ, zero, suc, ◌+◌, ◌-◌, ◌%◌, ◌^◌, max, ◌≤◌, ◌<◌, ◌≡◌, refl, ap, true, false, Option, none, some,
  leb, ltb, ◌==◌, arith, Bool-cases, inl, inr,
}
use valkyrie.Base.Maps.{update}
use valkyrie.Base.Outcome.{Outcome, ok}
use valkyrie.Buddy.{page_size}
use valkyrie.SlobAllocator.{
  Slob, get_size, is_allocated, set_allocated, get_bin_index, get_top_chunk_size, is_large,
  is_negative, split_from_top_chunk, prepare_top, take_top, take_larger, take_chunk,
  search_unsorted, search_bins, split_found, allocate, chunk_header_size, smallest_chunk_size,
  nr_bins,
}
use valkyrie.SlobAllocator.Sizes.{IsChunkSize, normalize_size_lem, get_size-get_bin_index}

-- No chunk is in a bin.
abbrev pub BinsEmpty : Slob → Type 0
BinsEmpty s = ((k : ℕ) → s.bins k ≡ none) × (s.unsorted_bin ≡ none)

-- The top chunk is the rest of a page frame.
pub record IsTop (s : Slob) : Type 0 where
  pub aligned : s.page_frame_allocatable_begin % page_size ≡ 0
  pub ends : s.page_frame_allocatable_end ≡ s.page_frame_allocatable_begin + page_size
  pub below : s.page_frame_allocatable_end < 2 ^ 64
  pub low : s.page_frame_allocatable_begin ≤ s.top_chunk
  pub high : s.top_chunk ≤ s.page_frame_allocatable_end
  pub even : s.top_chunk % 16 ≡ 0

-- The state after a chunk is split from the top chunk.
abbrev pub split_top : ℕ → Slob → Slob
split_top size s = record s {
  headers = update s.headers s.top_chunk (
      set_allocated true (record {
        next = none;
        index = get_bin_index size;
        prev_chunk_size = s.top_chunk_prev_chunk_size;
      }));
  top_chunk = s.top_chunk + size;
  top_chunk_prev_chunk_size = size;
}

search_bins-empty :
    (n idx : ℕ) (s : Slob) → ((k : ℕ) → s.bins k ≡ none) → search_bins n idx s ≡ none
unfolding search_bins
search_bins-empty zero idx s h = refl
search_bins-empty (suc n) idx s h = rw (h idx, search_bins) (search_bins-empty n (idx + 1) s h)

module _ (s : Slob) (t : IsTop s) (size : ℕ) (z : IsChunkSize size)
    (fits : s.top_chunk + size ≤ s.page_frame_allocatable_end) where
  top_size : get_top_chunk_size s ≡ s.page_frame_allocatable_end - s.top_chunk
  unfolding get_top_chunk_size
  top_size = omega (arith, t.high, t.below)

  split_from_top_chunk_lem : split_from_top_chunk size s ≡ ok (split_top size s, s.top_chunk)
  unfolding split_from_top_chunk
  split_from_top_chunk_lem =
      let enough : ltb (get_top_chunk_size s) size ≡ false = ground (arith, top_size, fits) in
      let a : (s.top_chunk + size) % 2 ^ 64 ≡ s.top_chunk + size = omega (arith, fits, t.below) in
      let b : size % 2 ^ 32 ≡ size = omega (arith, z.2) in rw (enough, a, b) refl

  take_top_lem : take_top size s ≡ ok (split_top size s, some s.top_chunk)
  unfolding take_top prepare_top
  take_top_lem =
      let used : (get_top_chunk_size s == 0) ≡ false = ground (arith, top_size, fits, z.1) in
      let enough : leb size (get_top_chunk_size s) ≡ true = ground (arith, top_size, fits) in
      rw (used, enough, take_top, prepare_top, split_from_top_chunk_lem) refl

  take_larger_lem :
      (fuel : ℕ)
      → BinsEmpty s
      → take_larger (suc fuel) size s ≡ ok (split_top size s, some s.top_chunk)
  unfolding take_larger search_unsorted split_found
  take_larger_lem fuel (bins, unsorted) =
      let searched : search_unsorted (suc fuel) s.unsorted_bin size s ≡ ok none =
        ap (λ (p : Option ℕ). search_unsorted (suc fuel) p size s) unsorted in
      rw
        (
          take_larger,
          searched,
          split_found,
          search_bins-empty (nr_bins - get_bin_index size) (get_bin_index size) s bins,
        )
        take_top_lem

  take_chunk_lem :
      (fuel : ℕ)
      → BinsEmpty s
      → take_chunk (suc fuel) size s ≡ ok (split_top size s, some s.top_chunk)
  unfolding take_chunk is_negative is_large get_bin_index
  take_chunk_lem fuel e = elim (Bool-cases (is_large (get_bin_index size))) [
    | inl large ↦ rw (large, take_chunk) (take_larger_lem fuel e)
    | inr small ↦
        let pos : is_negative (get_bin_index size) ≡ false = ground (arith, z.1, z.2) in
        rw (take_chunk, small, pos, e.0 (get_bin_index size)) (take_larger_lem fuel e)
  ]

-- What a call hands out from the top chunk: the bytes after the header, for `n` bytes at least.
pub record FromTop (s : Slob) (n : ℕ) (out : Outcome (Slob × Option ℕ)) : Type 0 where
  pub size : ℕ
  pub chunk_size : IsChunkSize size
  pub runs : out ≡ ok (split_top size s, some (s.top_chunk + chunk_header_size))
  pub room : s.top_chunk + chunk_header_size + n ≤ s.top_chunk + size
  pub inside : s.top_chunk + size ≤ s.page_frame_allocatable_end
  pub waste : size < max (chunk_header_size + n) smallest_chunk_size + 16
  pub valid : IsTop (split_top size s)
  pub header :
      (get_size ((split_top size s).headers s.top_chunk) ≡ size)
      × (is_allocated ((split_top size s).headers s.top_chunk) ≡ true)

-- With no chunk in a bin, and a top chunk that is the rest of a page frame and has 15 bytes more
-- than the header and the bytes, and than a smallest chunk, a request of 1 to 2^29 bytes gets the
-- begin of the top chunk: the chunk lies in the page frame, has room for the header and the
-- bytes, and is less than 16 bytes longer than these or than a smallest chunk; its header says
-- so, and the top chunk is the rest of the page frame still.
pub allocate-FromTop :
    (fuel : ℕ) (s : Slob) (n : ℕ)
    → IsTop s
    → BinsEmpty s
    → 0 < n
    → n ≤ 2 ^ 29
    → s.top_chunk + max (chunk_header_size + n) smallest_chunk_size + 15
      ≤ s.page_frame_allocatable_end
    → FromTop s n (allocate (suc fuel) s n)
unfolding allocate set_allocated is_allocated
allocate-FromTop fuel s n t e pos le fits =
    let (size, r, z, above, below) = normalize_size_lem (chunk_header_size + n) (omega arith) in
    let inside : s.top_chunk + size ≤ s.page_frame_allocatable_end = omega (arith, fits, below) in
    record {
      size = size;
      chunk_size = z;
      runs =
          (let some_bytes : (n == 0) ≡ false = ground arith in
            let whole : (chunk_header_size + n) % 2 ^ 64 ≡ chunk_header_size + n = omega arith in
            let chunk : (s.top_chunk + chunk_header_size) % 2 ^ 64
                ≡ s.top_chunk + chunk_header_size =
              omega (arith, inside, t.below, z.1) in
            let off : ((s.top_chunk + chunk_header_size) % page_size == 0) ≡ false =
              off_page inside z.1 in
            rw (some_bytes, whole, r, take_chunk_lem s t size z inside fuel e, chunk, off) refl);
      room = omega (arith, above);
      inside = inside;
      waste = below;
      valid = record {
        aligned = t.aligned;
        ends = t.ends;
        below = t.below;
        low = omega (arith, t.low);
        high = inside;
        even = omega (arith, t.even, z.0);
      };
      header = header size z;
    }
  where
    off_page :
        {size : ℕ}
        → s.top_chunk + size ≤ s.page_frame_allocatable_end
        → smallest_chunk_size ≤ size
        → ((s.top_chunk + chunk_header_size) % page_size == 0) ≡ false
    off_page inside lo = ground (arith, t.low, t.aligned, t.ends)

    header :
        (size : ℕ)
        → IsChunkSize size
        → (get_size ((split_top size s).headers s.top_chunk) ≡ size)
          × (is_allocated ((split_top size s).headers s.top_chunk) ≡ true)
    header size z =
        let self : (s.top_chunk == s.top_chunk) ≡ true = ground arith in
        rw self (get_size-get_bin_index size _ z refl, ground arith)
