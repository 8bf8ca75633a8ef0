-- ===== src/SlobAllocator/Tests.antt =====
-- Runs of the small-chunk allocator at single inputs.
use valkyrie.Base.{
  ℕ, ◌+◌, ◌≡◌, ◌≢◌, refl, true, false, none, some, [], ◌∷◌, inl, inr, arith, ◌==◌, if◌then◌else◌,
}
use valkyrie.Base.Outcome.{ok, ◌>>=◌}
use valkyrie.Buddy.Init.{fresh}
use valkyrie.Buddy.Chains.{Distinct, count, remove}
use valkyrie.Math
use valkyrie.SlobAllocator.{
  Slob, ChunkHeader, Bin, sorted, make, allocate, deallocate, get_size, split_from_chunk,
  bin_del_entry, normalize_size, get_bin_index,
}
use valkyrie.SlobAllocator
use valkyrie.SlobAllocator.Entries.{Changed, bin_del_entry_lem}
use valkyrie.SlobAllocator.Fits.{Fitted, allocate-Fitted}
use valkyrie.SlobAllocator.Tops.{IsTop, BinsEmpty, FromTop, allocate-FromTop}
use valkyrie.SlobAllocator.Frees.{SameRest, free_some, deallocate-allocate}
use valkyrie.SlobAllocator.Leaks.{allocate-deallocate}
use valkyrie.SlobAllocator.Splits.{split_from_chunk_whole}

-- A page frame of which nothing is used.
abbrev start : Slob
start = record (make (fresh 0x10200000)) {
  page_frame_allocatable_begin = 0x10200000;
  top_chunk = 0x10200000;
  page_frame_allocatable_end = 0x10201000;
}

start-IsTop : IsTop start
unfolding make
start-IsTop = record {
  aligned = refl;
  ends = refl;
  below = omega arith;
  low = omega arith;
  high = omega arith;
  even = refl;
}

allocate-FromTop_example : FromTop start 100 (allocate 2 start 100)
unfolding make
allocate-FromTop_example =
    allocate-FromTop 1 start 100 start-IsTop ((λ k. refl), refl) (omega arith) (omega arith)
      (omega arith)

served : FromTop start 100 (allocate 2 start 100)
unfolding make
served =
    allocate-FromTop 1 start 100 start-IsTop ((λ k. refl), refl) (omega arith) (omega arith)
      (omega arith)

deallocate-allocate_example :
    (after : Slob) × ((allocate 2 start 100 >>= λ (s', p). free_some 2 s' p) ≡ ok after)
    × SameRest start after
unfolding make
deallocate-allocate_example =
    deallocate-allocate 2 start 100 served start-IsTop (refl, omega arith, inl refl)
      (omega (arith, served.waste)) (omega arith)

-- Chunks of 0x90, 0x20 and 0x20 bytes, the first one free and in the unsorted bin.
abbrev chunks : Slob
chunks = record start {
  headers = λ a.
      if a == 0x10200000
      then record { next = none; index = 7; prev_chunk_size = 0 }
      else if a == 0x10200090
      then record { next = none; index = 0; prev_chunk_size = 0x91 }
      else record { next = none; index = 0; prev_chunk_size = 0x21 };
  top_chunk = 0x102000d0;
  top_chunk_prev_chunk_size = 0x20;
  unsorted_bin = some 0x10200000;
}

only_one : Distinct (0x10200000 ∷ [])
unfolding count
only_one a = ground arith

split_from_chunk_whole_example :
    (after : Slob) × (split_from_chunk 2 0x10200000 0x90 chunks ≡ ok after)
    × (get_size (after.headers (0x10200000 + 0x90)) ≡ 0)
unfolding get_size SlobAllocator.sign_extend SlobAllocator.is_large count
split_from_chunk_whole_example =
    split_from_chunk_whole 2 chunks 0x10200000 0x90 (0x10200000 ∷ []) refl refl (omega arith)
      (omega arith) (refl, refl) only_one (omega arith) refl (λ e. absurd (omega (arith, e)))

-- The middle one of three chunks in use is freed.
abbrev in_use : Slob
in_use = record start {
  headers = λ a.
      if a == 0x10200000
      then record { next = none; index = 0; prev_chunk_size = 1 }
      else record { next = none; index = 0; prev_chunk_size = 0x21 };
  top_chunk = 0x10200060;
  top_chunk_prev_chunk_size = 0x20;
}

prev_in_use :
    (SlobAllocator.get_prev_chunk in_use 0x10200020 ≢ 0x10200020)
    × (SlobAllocator.is_allocated (in_use.headers (SlobAllocator.get_prev_chunk in_use 0x10200020))
        ≡ true)
unfolding SlobAllocator.get_prev_chunk SlobAllocator.sign_extend SlobAllocator.get_prev_chunk_size
    SlobAllocator.is_allocated
prev_in_use = (λ e. absurd (omega (arith, e)), refl)

next_in_use :
    (SlobAllocator.get_next_chunk in_use 0x10200020 ≢ 0x10200020)
    × (SlobAllocator.get_next_chunk in_use 0x10200020 ≢ in_use.top_chunk)
    × (SlobAllocator.is_allocated (in_use.headers (SlobAllocator.get_next_chunk in_use 0x10200020))
        ≡ true)
unfolding SlobAllocator.get_next_chunk SlobAllocator.sign_extend get_size SlobAllocator.is_allocated
next_in_use = (λ e. absurd (omega (arith, e)), λ e. absurd (omega (arith, e)), refl)

-- The freed chunk has room for the 16 bytes of the next request.
allocate-deallocate_example :
    (after later : Slob) × (p : ℕ) × (deallocate 2 in_use (0x10200020 + 16) ≡ ok after)
    × (SlobAllocator.is_allocated (after.headers 0x10200020) ≡ false)
    × BinsEmpty after
    × (allocate 2 after 16 ≡ ok (later, some p))
    × (p ≡ 0x10200060 + 16)
    × (p ≢ 0x10200020 + 16)
    × BinsEmpty later
unfolding make
allocate-deallocate_example =
    allocate-deallocate 2 1 in_use 0x10200020 16 (omega arith) (omega arith)
      (λ e. absurd (omega (arith, e))) (inr prev_in_use) (inr next_in_use)
      (record {
        aligned = refl;
        ends = refl;
        below = omega arith;
        low = omega arith;
        high = omega arith;
        even = refl;
      })
      (λ k. refl, refl) (omega arith) (omega arith) (omega arith)

-- Two free chunks of 0x20 bytes.
abbrev two_free : Slob
two_free = record in_use {
  headers = λ a.
      if a == 0x10200000
      then record { next = some 0x10200040; index = 0; prev_chunk_size = 0 }
      else record { next = none; index = 0; prev_chunk_size = 0x21 };
  bins = λ k. if k == 0 then some 0x10200000 else none;
}

both : Distinct (0x10200000 ∷ 0x10200040 ∷ [])
unfolding count
both a = ground arith

bin_del_entry_lem_example :
    Changed two_free
      (sorted 0)
      (0x10200000 ∷ 0x10200040 ∷ [])
      (remove 0x10200040 (0x10200000 ∷ 0x10200040 ∷ []))
      (bin_del_entry 3 0x10200040 two_free)
unfolding SlobAllocator.bin_get_head SlobAllocator.bin_head SlobAllocator.is_large
    SlobAllocator.is_negative
bin_del_entry_lem_example =
    bin_del_entry_lem 0x10200040 two_free (sorted 0) refl 3 (0x10200000 ∷ 0x10200040 ∷ [])
      (refl, (refl, refl)) both (omega arith)

allocate-Fitted_example : Fitted two_free 0 0x10200000 (0x10200040 ∷ []) (allocate 3 two_free 10)
unfolding get_bin_index normalize_size Math.round_up_to_multiple_of_n Math.multiple_loop
allocate-Fitted_example =
    allocate-Fitted 3 two_free 10 0x20 0x10200000 (0x10200040 ∷ []) (omega arith) (omega arith) refl
      (omega arith) (refl, (refl, refl)) both refl (omega arith) (λ e. absurd (omega (arith, e)))
