-- ===== src/MemoryManager/Tests.antt =====
-- Runs of the memory manager at single inputs.
use Prim.{Unit, tt}
use valkyrie.Base.{ℕ, ◌+◌, ◌<◌, ◌≡◌, ◌≢◌, ◌⊎◌, inl, refl, true, false, arith}
use valkyrie.Base.Outcome.{Outcome, ok, panic}
use valkyrie.Buddy.{free, nr_pages}
use valkyrie.Buddy.Grants.{is_allocated}
use valkyrie.Buddy.Init.{fresh, fresh-IsValid}
use valkyrie.AddressSanitizer.Laws.{Tracked}
use valkyrie.MemoryManager.{MemoryManager, get_free_page, kfree, kernel_va_base, get_page_ref_idx}
use valkyrie.SlobAllocator.{Slob, make, allocate, deallocate}
use valkyrie.SlobAllocator.Frees.{SameRest}
use valkyrie.MemoryManager.{kmalloc}
use valkyrie.MemoryManager.Small.{IsReady, kfree-kmalloc}
use valkyrie.Base.Maps.{fill}
use valkyrie.MemoryManager.Pages.{page, IsConsistent, GotPage, get_free_page-GotPage}
use valkyrie.MemoryManager.Free.{kfree-get_free_page}
use valkyrie.MemoryManager.RefCounts.{get_page_ref_idx_lem}

-- The memory manager at the start, without a state of the small-chunk allocator.
abbrev start : MemoryManager Unit
start = record {
  buddy = fresh 0x10000000;
  slob = tt;
  ref_counts = λ i. 0;
  kasan = record { slots = λ i. 0 };
}

start-IsConsistent : IsConsistent start
start-IsConsistent = record {
  valid = fresh-IsValid 0x10000000;
  zone = refl;
  unique = λ i j hi hj e p. absurd (omega arith);
  known = λ i (k, h, e). absurd (omega arith);
}

start_room : Tracked start.kasan 0
start_room = (0, omega arith, refl)

get_free_page-GotPage_example :
    GotPage start false (get_free_page start false)
    ⊎ ((get_free_page start false ≡ panic) × ((i k : ℕ) → start.buddy.frame_array i ≢ free k))
get_free_page-GotPage_example = get_free_page-GotPage start false start-IsConsistent start_room

first_block : start.buddy.frame_array 0 ≡ free 9
unfolding fill
first_block = refl

abbrev ignore : Unit {0} → ℕ → Outcome (Unit {0})
ignore s p = ok s

kfree-get_free_page_example :
    (p j : ℕ) × (held after : MemoryManager Unit) × (p ≡ kernel_va_base + page j)
    × (j < nr_pages)
    × (is_allocated (start.buddy.frame_array j) ≡ false)
    × (get_free_page start false ≡ ok (held, p))
    × (is_allocated (held.buddy.frame_array j) ≡ true)
    × (kfree ignore held p ≡ ok after)
    × IsConsistent after
    × ((a : ℕ)
        → is_allocated (after.buddy.frame_array a) ≡ is_allocated (start.buddy.frame_array a))
    × (kfree ignore after p ≡ panic)
kfree-get_free_page_example =
    kfree-get_free_page ignore start false start-IsConsistent start_room 0 9 first_block

get_page_ref_idx_lem_example :
    ((i : ℕ) × (i < nr_pages) × (0x10003000 ≡ page i) × (get_page_ref_idx start 0x10003000 ≡ ok i))
    ⊎ ((get_page_ref_idx start 0x10003000 ≡ panic) × ((i : ℕ) → i < nr_pages → 0x10003000 ≢ page i))
get_page_ref_idx_lem_example = get_page_ref_idx_lem start 0x10003000

-- The memory manager with one page frame for small chunks.
abbrev small_start : MemoryManager Slob
small_start = record {
  buddy = fresh 0x10000000;
  slob = record (make (fresh 0x10200000)) {
    page_frame_allocatable_begin = 0x10200000;
    top_chunk = 0x10200000;
    page_frame_allocatable_end = 0x10201000;
  };
  ref_counts = λ i. 0;
  kasan = record { slots = λ i. 0 };
}

small_start-IsReady : IsReady small_start
unfolding make
small_start-IsReady = record {
  top = record {
    aligned = refl;
    ends = refl;
    below = omega arith;
    low = omega arith;
    high = omega arith;
    even = refl;
  };
  guarded = (refl, omega arith, inl refl);
  begins = omega arith;
  low = omega arith;
  unique = λ i j hi hj e p. absurd (omega arith);
  fresh = λ (k, h, e). absurd (omega (arith, e));
  room = (0, omega arith, refl);
}

kfree-kmalloc_example :
    (held freed : MemoryManager Slob) × (kmalloc (allocate 2) small_start 100
      ≡ ok (held, 0x10200010))
    × (kfree (deallocate 2) held 0x10200010 ≡ ok freed)
    × SameRest small_start.slob freed.slob
    × ¬ Tracked freed.kasan 0x10200010
    × (kfree (deallocate 2) freed 0x10200010 ≡ panic)
unfolding make
kfree-kmalloc_example =
    kfree-kmalloc 1 small_start small_start-IsReady (λ k. refl, refl) 100 (omega arith)
      (omega arith) (omega arith)
