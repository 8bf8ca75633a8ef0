-- ===== src/MemoryManager.antt =====
-- mm/MemoryManager.cc and include/mm/MemoryManager.h. The small-chunk allocator of the second zone is an
-- argument of the calls that reach it: its state, and its two operations. An address is its 64-bit
-- value, and null is 0. The calls of the lock are left out: only one of these functions runs at a time.
pub mod Pages
pub mod Free
pub mod RefCounts
pub mod Small
mod Tests
use valkyrie.Base.{
  ℕ, zero, suc, ◌+◌, ◌-◌, ◌*◌, ◌/◌, ◌%◌, ◌^◌, Bool, true, false, not, ◌||◌, Option, none, some, ltb,
  leb, ◌==◌, if◌then◌else◌,
}
use valkyrie.Base.Maps.{update}
use valkyrie.Base.Outcome.{Outcome, ok, panic, ◌>>=◌}
use valkyrie.Buddy.{Buddy, page_size, allocate, allocate_one_page_frame, deallocate}
use valkyrie.AddressSanitizer.{Sanitizer, mark_allocated, mark_free_chk}

-- KERNEL_VA_BASE
abbrev pub kernel_va_base : ℕ
kernel_va_base = 0xffff000000000000

-- The first addresses of the two zones.
abbrev pub zone_begin_0 : ℕ
zone_begin_0 = 0x10000000

abbrev pub zone_begin_1 : ℕ
zone_begin_1 = 0x10200000

-- sizeof(ChunkHeader)
abbrev pub chunk_header_size : ℕ
chunk_header_size = 16

pub record MemoryManager (Slob : Type 0) : Type 0 where
  pub buddy : Buddy
  pub slob : Slob
  pub ref_counts : ℕ → ℕ
  pub kasan : Sanitizer

abbrev pub address : Option ℕ → ℕ
address none = 0
address (some p) = p

-- A virtual address of the kernel is made physical.
unfoldable pub to_physical : ℕ → ℕ
to_physical addr = if leb kernel_va_base addr then addr - kernel_va_base else addr

module _ {Slob : Type 0} where
  unfoldable pub get_free_page : MemoryManager Slob → Bool → Outcome (MemoryManager Slob × ℕ)
  get_free_page m physical = do
    (buddy, ret) ← allocate_one_page_frame m.buddy
    kasan ← mark_allocated m.kasan (address ret)
    ok (
      record m { buddy = buddy; kasan = kasan },
      if physical then address ret else (kernel_va_base + address ret) % 2 ^ 64,
    )

  unfoldable pub kmalloc :
      (Slob → ℕ → Outcome (Slob × Option ℕ))
      → MemoryManager Slob
      → ℕ
      → Outcome (MemoryManager Slob × ℕ)
  kmalloc slob_allocate m size =
      let large = do
        (buddy, ret) ← allocate m.buddy size
        kasan ← mark_allocated m.kasan (address ret)
        ok (record m { buddy = buddy; kasan = kasan }, address ret)
      in let small = do
        (slob, ret) ← slob_allocate m.slob size
        kasan ← mark_allocated m.kasan (address ret)
        ok (record m { slob = slob; kasan = kasan }, address ret)
        in if leb page_size ((size + chunk_header_size) % 2 ^ 64) then large else small

  unfoldable pub kfree :
      (Slob → ℕ → Outcome Slob) → MemoryManager Slob → ℕ → Outcome (MemoryManager Slob)
  kfree slob_deallocate m p = do
    let addr = to_physical p
    kasan ← mark_free_chk m.kasan addr
    let page = do
      buddy ← deallocate m.buddy (if addr == 0 then none else some addr)
      ok (record m { buddy = buddy; kasan = kasan })
    let chunk = do slob ← slob_deallocate m.slob addr; ok (record m { slob = slob; kasan = kasan })
    if addr % page_size == 0 then page else chunk

  unfoldable pub get_page_ref_idx : MemoryManager Slob → ℕ → Outcome ℕ
  get_page_ref_idx m p =
      if ltb p zone_begin_0 || leb zone_begin_1 p
      then panic
      else if not (p % page_size == 0)
      then panic
      else ok ((p - zone_begin_0) / page_size)

  -- A count is an `int`, kept as its 32-bit pattern.
  unfoldable pub inc_page_ref_count : MemoryManager Slob → ℕ → Outcome (MemoryManager Slob × ℕ)
  inc_page_ref_count m p = do
    idx ← get_page_ref_idx m p
    let count = (m.ref_counts idx + 1) % 2 ^ 32
    ok (record m { ref_counts = update m.ref_counts idx count }, count)

  unfoldable pub dec_page_ref_count : MemoryManager Slob → ℕ → Outcome (MemoryManager Slob × ℕ)
  dec_page_ref_count m p = do
    idx ← get_page_ref_idx m p
    let count = (m.ref_counts idx + 2 ^ 32 - 1) % 2 ^ 32
    ok (record m { ref_counts = update m.ref_counts idx count }, count)

  unfoldable pub get_page_ref_count : MemoryManager Slob → ℕ → Outcome ℕ
  get_page_ref_count m p = do idx ← get_page_ref_idx m p; ok (m.ref_counts idx)
