-- ===== src/SlobAllocator/Sizes.antt =====
-- Sizes of chunks and their bins.
use valkyrie.Base.{ℕ, ◌+◌, ◌-◌, ◌*◌, ◌/◌, ◌%◌, ◌^◌, ◌≤◌, ◌<◌, max, ◌≡◌, true, some, ltb, arith}
use valkyrie.Math.Laws.{round_up_to_multiple_of_n_lem}
use valkyrie.SlobAllocator.{
  ChunkHeader, get_bin_index, normalize_size, get_size, sign_extend, smallest_chunk_size,
}

-- Sizes that a header can hold: multiples of 16 from 32 bytes on, below the limit of an `int`.
abbrev pub IsChunkSize : ℕ → Type 0
IsChunkSize size = (size % 16 ≡ 0) × (smallest_chunk_size ≤ size) × (size < 2 ^ 31)

-- The index of such a size stands for the size.
pub get_size-get_bin_index :
    (size : ℕ) (h : ChunkHeader)
    → IsChunkSize size
    → h.index ≡ get_bin_index size
    → get_size h ≡ size
unfolding get_size get_bin_index sign_extend
get_size-get_bin_index size h (m, lo, hi) e =
    let i : h.index ≡ size / 16 - 2 = omega (arith, e) in
    let pos : ltb (h.index) (2 ^ 31) ≡ true = ground arith in rw (pos, i) (omega (arith, m, lo, hi))

-- A request of 1 to 2^30 bytes with its header becomes the least size of a chunk that holds it.
pub normalize_size_lem :
    (n : ℕ)
    → n ≤ 2 ^ 30
    → (size : ℕ) × (normalize_size n ≡ some size)
      × IsChunkSize size
      × (n ≤ size)
      × (size < max n smallest_chunk_size + 16)
unfolding normalize_size
normalize_size_lem n h =
    let (j, r, pos, above, below) =
      round_up_to_multiple_of_n_lem (max n smallest_chunk_size) 16 (omega arith) (omega arith) in
    let close : j * 16 < max n smallest_chunk_size + 16 = ground (arith, below, above) in
    (
      j * 16,
      r,
      (omega arith, omega (arith, above), omega (arith, close)),
      omega (arith, above),
      close,
    )
