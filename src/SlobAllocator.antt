-- ===== src/SlobAllocator.antt =====
-- mm/SlobAllocator.cc and include/mm/SlobAllocator.h. A chunk is the address of its header; memory is
-- a function from addresses to headers. An `int` is its 32-bit pattern. An access to a bin that does not
-- exist, or through a null pointer, is a fault. The walks along a bin run on fuel.
pub mod Sizes
pub mod Bins
pub mod Entries
pub mod Tops
pub mod Frees
pub mod Leaks
pub mod Splits
pub mod Fits
mod Tests
use valkyrie.Base.{
  ℕ, zero, suc, ◌+◌, ◌-◌, ◌*◌, ◌/◌, ◌%◌, ◌^◌, max, Bool, true, false, not, ◌&&◌, ◌||◌, Option, none,
  some, leb, ltb, ◌==◌, if◌then◌else◌,
}
use valkyrie.Base.Maps.{update}
use valkyrie.Base.Outcome.{Outcome, ok, panic, fault, hang, or_hang, ◌>>=◌}
use valkyrie.Buddy.{Buddy, page_size, allocate_one_page_frame}
use valkyrie.Math.{round_up_to_multiple_of_n}
pub use valkyrie.SlobChunks.{ChunkHeader, Slob}
unfoldable pub use valkyrie.SlobChunks.{
  smallest_chunk_size, chunk_size_gap, nr_bins, chunk_header_size, sign_extend, get_bin_index,
  normalize_size, is_large, is_negative, get_size, is_allocated, get_prev_chunk_size, set_allocated,
  set_prev_chunk_size, is_chunk_size_usable, get_prev_chunk, get_next_chunk, modify, set_next,
  discard,
}

-- The place of a bin's first chunk: `&_bins[k]` or `&_unsorted_bin`.
pub data Bin : Type 0 where
  sorted : ℕ → Bin
  unsorted : Bin

unfoldable pub bin_head : Slob → Bin → Option ℕ
bin_head s (sorted k) = s.bins k
bin_head s unsorted = s.unsorted_bin

unfoldable pub set_bin_head : Bin → Option ℕ → Slob → Slob
set_bin_head (sorted k) p s = record s { bins = update s.bins k p }
set_bin_head unsorted p s = record s { unsorted_bin = p }

unfoldable pub bin_get_head : Slob → ℕ → Outcome Bin
bin_get_head s chunk =
    let index = (s.headers chunk).index in
    if is_large index then ok unsorted else if is_negative index then fault else ok (sorted index)

-- `*bin == chunk`, of a pointer that is not null
unfoldable pub is_chunk : Option ℕ → ℕ → Bool
is_chunk none chunk = false
is_chunk (some p) chunk = p == chunk

-- The loop of `bin_del_entry`.
unfoldable pub del_entry_loop : ℕ → Option ℕ → Option ℕ → ℕ → Slob → Outcome Slob
del_entry_loop zero prev ptr chunk s = hang
del_entry_loop (suc fuel) prev none chunk s = ok s
del_entry_loop (suc fuel) prev (some p) chunk s =
    let rest = del_entry_loop fuel (some p) (s.headers p).next chunk s in
    let unlinked : Outcome Slob = elim prev [
      | none ↦ fault
      | some q ↦ ok (set_next none p (set_next (s.headers p).next q s))
    ] in
    if p == chunk then unlinked else rest

unfoldable pub bin_del_entry : ℕ → ℕ → Slob → Outcome Slob
bin_del_entry fuel chunk s = do
  bin ← bin_get_head s chunk
  let first = set_next none chunk (set_bin_head bin (s.headers chunk).next s)
  let later = del_entry_loop fuel none (bin_head s bin) chunk s
  if is_chunk (bin_head s bin) chunk then ok first else later

unfoldable pub bin_del_head : ℕ → ℕ → Slob → Outcome Slob
bin_del_head fuel chunk s =
    let index = (s.headers chunk).index in
    let entry = bin_del_entry fuel chunk s in
    if is_large index then entry else if is_negative index then fault else elim (s.bins index) [
      | none ↦ ok s
      | some p ↦
          ok (set_next none chunk (record s { bins = update s.bins index (s.headers p).next }))
    ]

unfoldable pub bin_add_head : ℕ → Slob → Outcome Slob
bin_add_head chunk s = do
  bin ← bin_get_head s chunk
  if is_chunk (bin_head s bin) chunk
      then panic
      else ok (set_bin_head bin (some chunk) (set_next (bin_head s bin) chunk s))

unfoldable pub get_top_chunk_size : Slob → ℕ
get_top_chunk_size s = (s.page_frame_allocatable_end + 2 ^ 64 - s.top_chunk) % 2 ^ 64

unfoldable pub split_from_top_chunk : ℕ → Slob → Outcome (Slob × ℕ)
split_from_top_chunk size s =
    if ltb (get_top_chunk_size s) size
    then panic
    else ok (
      record s {
        headers = update s.headers s.top_chunk (
            set_allocated true (record {
              next = none;
              index = get_bin_index size;
              prev_chunk_size = s.top_chunk_prev_chunk_size;
            }));
        top_chunk = (s.top_chunk + size) % 2 ^ 64;
        top_chunk_prev_chunk_size = size % 2 ^ 32;
      },
      s.top_chunk,
    )

unfoldable pub request_new_page_frame : Slob → Outcome (Slob × Bool)
request_new_page_frame s = do
  (buddy, page_frame) ← allocate_one_page_frame s.buddy
  elim page_frame [
    | none ↦ ok (record s { buddy = buddy }, false)
    | some p ↦ ok (
      record s {
        buddy = buddy;
        page_frame_allocatable_begin = p;
        top_chunk = p;
        page_frame_allocatable_end = p + page_size;
      },
      true,
    )
  ]

-- From the remainder on: it is linked or discarded, and the sizes are adjusted.
unfoldable pub cut_chunk : ℕ → ℕ → ℕ → Slob → Outcome Slob
cut_chunk fuel chunk size s = do
  let remainder_size = (get_size (s.headers chunk) + 2 ^ 64 - size) % 2 ^ 64
  let remainder = (chunk + size) % 2 ^ 64
  let written =
      modify
        (λ h. record {
          next = none;
          index = get_bin_index remainder_size;
          prev_chunk_size = size % 2 ^ 32;
        })
        remainder s
  taken ← bin_del_head fuel chunk written
  kept ←
      if is_chunk_size_usable remainder_size
      then bin_add_head remainder (modify (set_allocated false) remainder taken)
      else ok (discard remainder taken)
  let next_chunk = get_next_chunk kept chunk
  let sized =
      if not (next_chunk == kept.top_chunk)
      then modify (set_prev_chunk_size remainder_size) next_chunk kept
      else kept
  ok (
      modify (λ h. set_allocated true (record h { next = none; index = get_bin_index size })) chunk
        sized)

unfoldable pub split_from_chunk : ℕ → ℕ → ℕ → Slob → Outcome Slob
split_from_chunk fuel chunk size s =
    let cut = cut_chunk fuel chunk size s in
    if not (is_chunk_size_usable size)
    then panic
    else if is_negative (s.headers chunk).index
    then panic
    else if ltb (get_size (s.headers chunk)) size
    then panic
    else cut

-- `for (ChunkHeader *chunk = _unsorted_bin; chunk; chunk = chunk->next)`
unfoldable pub search_unsorted : ℕ → Option ℕ → ℕ → Slob → Outcome (Option ℕ)
search_unsorted zero chunk size s = hang
search_unsorted (suc fuel) none size s = ok none
search_unsorted (suc fuel) (some p) size s =
    let rest = search_unsorted fuel (s.headers p).next size s in
    if leb size (get_size (s.headers p)) then ok (some p) else rest

-- `for (; idx < nr_bins; idx++)`, with `n` rounds to go
unfoldable pub search_bins : ℕ → ℕ → Slob → Option ℕ
search_bins zero idx s = none
search_bins (suc n) idx s =
    let rest = search_bins n (idx + 1) s in elim (s.bins idx) [ some p ↦ some p | none ↦ rest ]

-- The top chunk is made large enough; false says that there is no page.
unfoldable pub prepare_top : ℕ → Slob → Outcome (Slob × Bool)
prepare_top size s =
    let renewed = do
      (s', chunk) ← split_from_top_chunk (get_top_chunk_size s) s
      kept ←
          if is_chunk_size_usable (get_size (s'.headers chunk))
          then bin_add_head chunk s'
          else ok (discard chunk s')
      request_new_page_frame kept
    in if get_top_chunk_size s == 0
      then request_new_page_frame s
      else if not (leb size (get_top_chunk_size s))
      then renewed
      else ok (s, true)

unfoldable pub take_top : ℕ → Slob → Outcome (Slob × Option ℕ)
take_top size s = do
  (s', ready) ← prepare_top size s
  let split = do (s'', chunk) ← split_from_top_chunk size s'; ok (s'', some chunk)
  if ready then split else ok (s', none)

-- A chunk that a search has found is split; if it has found none, the next search goes on.
unfoldable pub split_found :
    ℕ → ℕ → Slob → Outcome (Slob × Option ℕ) → Option ℕ → Outcome (Slob × Option ℕ)
split_found fuel size s otherwise none = otherwise
split_found fuel size s otherwise (some chunk) = do
  s' ← split_from_chunk fuel chunk size s
  ok (s', some chunk)

-- The searches after that of the exact bin.
unfoldable pub take_larger : ℕ → ℕ → Slob → Outcome (Slob × Option ℕ)
take_larger fuel size s = do
  let idx = get_bin_index size
  found ← search_unsorted fuel s.unsorted_bin size s
  split_found fuel size s
      (split_found fuel size s (take_top size s) (search_bins (nr_bins - idx) idx s)) found

-- The chunk for a size with its header; `none` is the early return of null.
unfoldable pub take_chunk : ℕ → ℕ → Slob → Outcome (Slob × Option ℕ)
take_chunk fuel size s =
    let idx = get_bin_index size in
    let larger = take_larger fuel size s in
    let exact : Outcome (Slob × Option ℕ) = elim (s.bins idx) [
      | none ↦ larger
      | some victim ↦ do
        s' ← bin_del_head fuel victim (modify (set_allocated true) victim s)
        ok (s', some victim)
    ] in
    if is_large idx then larger else if is_negative idx then fault else exact

unfoldable pub allocate : ℕ → Slob → ℕ → Outcome (Slob × Option ℕ)
allocate fuel s requested_size =
    let served = do
      size ← or_hang (normalize_size ((chunk_header_size + requested_size) % 2 ^ 64))
      (s', victim) ← take_chunk fuel size s
      elim victim [
        | none ↦ ok (s', none)
        | some chunk ↦
            if (chunk + chunk_header_size) % 2 ^ 64 % page_size == 0
            then panic
            else ok (s', some ((chunk + chunk_header_size) % 2 ^ 64))
      ]
    in if requested_size == 0 then ok (s, none) else served

-- The previous chunk takes the freed one over, with the size of both.
unfoldable pub merge_prev : ℕ → ℕ → ℕ → ℕ → Slob → Outcome (Slob × ℕ × ℕ)
merge_prev fuel prev_chunk next_chunk mid_size s = do
  taken ← bin_del_entry fuel prev_chunk s
  let size = (mid_size + get_size (taken.headers prev_chunk)) % 2 ^ 64
  let widened =
      modify (λ h. record h { next = some next_chunk; index = get_bin_index size }) prev_chunk taken
  ok (modify (set_prev_chunk_size size) next_chunk widened, prev_chunk, size)

-- The freed chunk takes the next one over, and is linked.
unfoldable pub merge_next : ℕ → ℕ → ℕ → ℕ → Slob → Outcome Slob
merge_next fuel chunk next_chunk chunk_size s = do
  taken ← bin_del_entry fuel next_chunk s
  let next_size = get_size (taken.headers next_chunk)
  let size = (chunk_size + next_size) % 2 ^ 64
  let after = (next_chunk + next_size) % 2 ^ 64
  let widened = modify (λ h. record h { next = some after; index = get_bin_index size }) chunk taken
  bin_add_head chunk (modify (set_prev_chunk_size size) after widened)

-- From the test of the next chunk on.
unfoldable pub settle : ℕ → ℕ → ℕ → ℕ → Slob → Outcome Slob
settle fuel chunk next_chunk chunk_size s =
    let merged = merge_next fuel chunk next_chunk chunk_size s in
    if next_chunk % page_size == 0
    then ok s
    else if next_chunk == s.top_chunk
    then ok (record s {
      top_chunk = chunk;
      top_chunk_prev_chunk_size = get_prev_chunk_size (s.headers chunk);
    })
    else if not (is_allocated (s.headers next_chunk))
    then merged
    else ok s

unfoldable pub deallocate_chunk : ℕ → ℕ → Slob → Outcome Slob
deallocate_chunk fuel mid_chunk s = do
  let prev_chunk = get_prev_chunk s mid_chunk
  let next_chunk = get_next_chunk s mid_chunk
  let mid_size = get_size (s.headers mid_chunk)
  let marked = modify (set_allocated false) mid_chunk s
  let merged = merge_prev fuel prev_chunk next_chunk mid_size marked
  (s', chunk, size) ←
      if not (is_allocated (marked.headers prev_chunk)) && not (mid_chunk % page_size == 0)
      then merged
      else ok (marked, mid_chunk, mid_size)
  settle fuel chunk next_chunk size s'

unfoldable pub deallocate : ℕ → Slob → ℕ → Outcome Slob
deallocate fuel s p =
    let freed = deallocate_chunk fuel ((p + 2 ^ 64 - chunk_header_size) % 2 ^ 64) s in
    if p == 0 then ok s else freed

-- The constructor.
unfoldable pub make : Buddy → Slob
make buddy = record {
  buddy = buddy;
  headers = λ a. record { next = none; index = 0; prev_chunk_size = 0 };
  page_frame_allocatable_begin = 0;
  top_chunk = 0;
  page_frame_allocatable_end = 0;
  top_chunk_prev_chunk_size = 0;
  bins = λ k. none;
  unsorted_bin = none;
}
