-- ===== src/SlobChunks.antt =====
-- The chunks of mm/SlobAllocator.cc and include/mm/SlobAllocator.h: the state, the headers of chunks and
-- their sizes. An `int` is its 32-bit pattern.
use valkyrie.Base.{
  ℕ, ◌+◌, ◌-◌, ◌*◌, ◌/◌, ◌%◌, ◌^◌, max, Bool, true, ◌&&◌, Option, leb, ltb, ◌==◌, if◌then◌else◌,
}
use valkyrie.Base.Maps.{update}
use valkyrie.Buddy.{Buddy}
use valkyrie.Math.{round_up_to_multiple_of_n}

abbrev pub smallest_chunk_size : ℕ
smallest_chunk_size = 0x20

abbrev pub chunk_size_gap : ℕ
chunk_size_gap = 0x10

abbrev pub nr_bins : ℕ
nr_bins = 7

-- sizeof(ChunkHeader)
abbrev pub chunk_header_size : ℕ
chunk_header_size = 16

pub record ChunkHeader : Type 0 where
  pub next : Option ℕ
  pub index : ℕ
  pub prev_chunk_size : ℕ

pub record Slob : Type 0 where
  pub buddy : Buddy
  pub headers : ℕ → ChunkHeader
  pub page_frame_allocatable_begin : ℕ
  pub top_chunk : ℕ
  pub page_frame_allocatable_end : ℕ
  pub top_chunk_prev_chunk_size : ℕ
  pub bins : ℕ → Option ℕ
  pub unsorted_bin : Option ℕ

-- An `int` that becomes a `size_t`.
unfoldable pub sign_extend : ℕ → ℕ
sign_extend x = if ltb x (2 ^ 31) then x else x + (2 ^ 64 - 2 ^ 32)

unfoldable pub get_bin_index : ℕ → ℕ
get_bin_index size = (size + 2 ^ 64 - smallest_chunk_size) % 2 ^ 64 / chunk_size_gap % 2 ^ 32

unfoldable pub normalize_size : ℕ → Option ℕ
normalize_size size = round_up_to_multiple_of_n (max size smallest_chunk_size) 16

-- `index >= nr_bins`
unfoldable pub is_large : ℕ → Bool
is_large index = leb nr_bins index && ltb index (2 ^ 31)

-- `index < 0`
unfoldable pub is_negative : ℕ → Bool
is_negative index = leb (2 ^ 31) index

unfoldable pub get_size : ChunkHeader → ℕ
get_size h = (smallest_chunk_size + sign_extend h.index * chunk_size_gap) % 2 ^ 64

unfoldable pub is_allocated : ChunkHeader → Bool
is_allocated h = h.prev_chunk_size % 2 == 1

unfoldable pub get_prev_chunk_size : ChunkHeader → ℕ
get_prev_chunk_size h = h.prev_chunk_size - h.prev_chunk_size % 2

unfoldable pub set_allocated : Bool → ChunkHeader → ChunkHeader
set_allocated allocated h = record h {
  prev_chunk_size = h.prev_chunk_size - h.prev_chunk_size % 2 + (if allocated then 1 else 0);
}

unfoldable pub set_prev_chunk_size : ℕ → ChunkHeader → ChunkHeader
set_prev_chunk_size size h =
    set_allocated (is_allocated h) (record h { prev_chunk_size = size % 2 ^ 32 })

unfoldable pub is_chunk_size_usable : ℕ → Bool
is_chunk_size_usable size = leb smallest_chunk_size size

unfoldable pub get_prev_chunk : Slob → ℕ → ℕ
get_prev_chunk s chunk =
    (chunk + 2 ^ 64 - sign_extend (get_prev_chunk_size (s.headers chunk))) % 2 ^ 64

unfoldable pub get_next_chunk : Slob → ℕ → ℕ
get_next_chunk s chunk = (chunk + get_size (s.headers chunk)) % 2 ^ 64

-- A change of one header.
abbrev pub modify : (ChunkHeader → ChunkHeader) → ℕ → Slob → Slob
modify f chunk s = record s { headers = update s.headers chunk (f (s.headers chunk)) }

-- `chunk->next = p`
abbrev pub set_next : Option ℕ → ℕ → Slob → Slob
set_next p = modify (λ h. record h { next = p })

unfoldable pub discard : ℕ → Slob → Slob
discard chunk s = modify (set_allocated true) chunk s
