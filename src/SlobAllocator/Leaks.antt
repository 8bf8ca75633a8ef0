-- ===== src/SlobAllocator/Leaks.antt =====
-- Requests behind the free of a chunk that no bin gets.
use valkyrie.Base.{ℕ, suc, ◌+◌, ◌^◌, ◌≤◌, ◌<◌, ◌≡◌, ◌≢◌, refl, max, some, true, false, arith, ◌==◌}
use valkyrie.Base.Outcome.{ok}
use valkyrie.SlobAllocator.{
  Slob, is_allocated, set_allocated, deallocate, allocate, chunk_header_size, smallest_chunk_size,
}
use valkyrie.SlobAllocator.Tops.{IsTop, BinsEmpty, split_top, allocate-FromTop}
use valkyrie.SlobAllocator.Frees.{marked, IsFirst, IsLast, deallocate-marked}

marked-free : (s : Slob) (chunk : ℕ) → is_allocated ((marked chunk s).headers chunk) ≡ false
unfolding is_allocated set_allocated
marked-free s chunk = let here : (chunk == chunk) ≡ true = ground arith in rw here (ground arith)

-- With no chunk in a bin and a top chunk that is the rest of a page frame, a chunk that is not at null, not
-- the top chunk, and whose header ends below 2^64 is freed; the chunk before it is another one and
-- allocated, or in another page frame, and the chunk after it is another one, allocated and not the
-- top chunk, or in another page frame. `deallocate` returns, and the chunk is free, but lost: no bin
-- has a chunk, and the next request, of 1 to 2^29 bytes, for whose chunk, a smallest one at least,
-- the top chunk has 15 bytes more than needed, is served from the top chunk at another address, also
-- where the freed chunk would do.
pub allocate-deallocate :
    (fuel fuel' : ℕ) (s : Slob) (chunk n : ℕ)
    → 0 < chunk
    → chunk + chunk_header_size < 2 ^ 64
    → chunk ≢ s.top_chunk
    → IsFirst s chunk
    → IsLast s chunk
    → IsTop s
    → BinsEmpty s
    → 0 < n
    → n ≤ 2 ^ 29
    → s.top_chunk + max (chunk_header_size + n) smallest_chunk_size + 15
      ≤ s.page_frame_allocatable_end
    → (after later : Slob) × (p : ℕ) × (deallocate fuel s (chunk + chunk_header_size) ≡ ok after)
      × (is_allocated (after.headers chunk) ≡ false)
      × BinsEmpty after
      × (allocate (suc fuel') after n ≡ ok (later, some p))
      × (p ≡ s.top_chunk + chunk_header_size)
      × (p ≢ chunk + chunk_header_size)
      × BinsEmpty later
allocate-deallocate fuel fuel' s chunk n pos lt not_top f l t b some_bytes few fits =
    let top : IsTop (marked chunk s) = record {
      aligned = t.aligned;
      ends = t.ends;
      below = t.below;
      low = t.low;
      high = t.high;
      even = t.even;
    } in
    let g = allocate-FromTop fuel' (marked chunk s) n top b some_bytes few fits in
    (
      marked chunk s,
      split_top g.size (marked chunk s),
      s.top_chunk + chunk_header_size,
      deallocate-marked fuel s chunk pos lt f l,
      marked-free s chunk,
      b,
      g.runs,
      refl,
      λ e. not_top (omega (arith, e)),
      b,
    )
