-- ===== src/MemoryManager/Small.antt =====
-- Small chunks: the memory manager with the small-chunk allocator of the second zone.
use valkyrie.Base.{
  ℕ, suc, ◌+◌, ◌%◌, ◌^◌, ◌<◌, ◌≤◌, ◌≡◌, max, refl, inl, inr, false, leb, ◌==◌, arith,
}
use valkyrie.Base.Outcome.{ok, panic}
use valkyrie.Buddy.{page_size}
use valkyrie.AddressSanitizer.{Sanitizer, mark_allocated}
use valkyrie.AddressSanitizer.Laws.{Tracked, IsUnique, Adds, mark_allocated_lem, mark_free_chk_lem}
use valkyrie.SlobAllocator.{Slob, allocate, deallocate}
use valkyrie.SlobAllocator.Tops.{IsTop, BinsEmpty, FromTop, allocate-FromTop, split_top}
use valkyrie.SlobAllocator.Frees.{IsGuarded, SameRest, deallocate-split_top}
use valkyrie.MemoryManager.{
  MemoryManager, kmalloc, kfree, to_physical, kernel_va_base, chunk_header_size,
}

-- The top chunk of the small-chunk allocator is the rest of a page frame, which is not at null and is below
-- the kernel's virtual addresses, and the chunk before it is allocated or in another page frame; the
-- pointer table has room and no pointer twice, and does not know the first bytes of the top chunk
-- after its header.
pub record IsReady (m : MemoryManager Slob) : Type 0 where
  pub top : IsTop m.slob
  pub guarded : IsGuarded m.slob
  pub begins : 0 < m.slob.page_frame_allocatable_begin
  pub low : m.slob.page_frame_allocatable_end ≤ kernel_va_base
  pub unique : IsUnique m.kasan
  pub fresh : ¬ Tracked m.kasan (m.slob.top_chunk + 16)
  pub room : Tracked m.kasan 0

module _ (fuel : ℕ) (m : MemoryManager Slob) (r : IsReady m) (bins : BinsEmpty m.slob) (n : ℕ)
    (pos : 0 < n) (small : n + 16 < page_size)
    (fits : m.slob.top_chunk + max (16 + n) 32 + 15 < m.slob.page_frame_allocatable_end) where
  p : ℕ
  p = m.slob.top_chunk + 16

  served : FromTop m.slob n (allocate (suc fuel) m.slob n)
  served =
      allocate-FromTop fuel m.slob n r.top bins pos (omega (arith, small)) (omega (arith, fits))

  p_pos : 0 < p
  unfolding p
  p_pos = omega arith

  -- With the pointer in the table.
  held_state : Sanitizer → MemoryManager Slob
  held_state kasan = record m { slob = split_top served.size m.slob; kasan = kasan }

  kmalloc-held_state :
      (kasan : Sanitizer)
      → mark_allocated m.kasan p ≡ ok kasan
      → kmalloc (allocate (suc fuel)) m n ≡ ok (held_state kasan, p)
  unfolding kmalloc held_state p
  kmalloc-held_state kasan e =
      let below : leb page_size ((n + chunk_header_size) % 2 ^ 64) ≡ false =
        ground (arith, small) in
      rw (below, served.runs, e) refl

  address : to_physical p ≡ p
  unfolding to_physical p
  address =
      let z : leb kernel_va_base (m.slob.top_chunk + 16) ≡ false = ground (arith, r.low, fits) in
      rw z refl

  off_page : (p % page_size == 0) ≡ false
  unfolding p
  off_page = ground (arith, r.top.low, r.top.aligned, r.top.ends, fits)

  merged :
      (after : Slob) × (deallocate (suc fuel) (split_top served.size m.slob) p ≡ ok after)
      × SameRest m.slob after
  unfolding p
  merged =
      deallocate-split_top (suc fuel) m.slob r.top r.guarded served.size served.chunk_size
        (omega (arith, served.waste, fits)) r.begins

  Cycle : Type 0
  Cycle =
      (held freed : MemoryManager Slob) × (kmalloc (allocate (suc fuel)) m n ≡ ok (held, p))
      × (kfree (deallocate (suc fuel)) held p ≡ ok freed)
      × SameRest m.slob freed.slob
      × ¬ Tracked freed.kasan p
      × (kfree (deallocate (suc fuel)) freed p ≡ panic)

  twice :
      (x : MemoryManager Slob)
      → IsUnique x.kasan
      → ¬ Tracked x.kasan p
      → kfree (deallocate (suc fuel)) x p ≡ panic
  unfolding kfree
  twice x u gone = elim (mark_free_chk_lem x.kasan p u p_pos) [
    | inl (t, e) ↦ rw (address, kfree, e) refl
    | inr (kasan, t, e, rest) ↦ absurd (gone t)
  ]

  freed : (kasan : Sanitizer) → mark_allocated m.kasan p ≡ ok kasan → Adds m.kasan p kasan → Cycle
  unfolding kfree Cycle held_state
  freed kasan e (u, t, others) = elim (mark_free_chk_lem kasan p u p_pos) [
    | inl (gone, f) ↦ absurd (gone t)
    | inr (kasan', t', f, (u', gone, others')) ↦
        let (slob, d, same) = merged in
        let after : MemoryManager Slob = record m { slob = slob; kasan = kasan' } in
        (
          held_state kasan,
          after,
          kmalloc-held_state kasan e,
          rw (address, kfree, f, off_page, d) refl,
          same,
          gone,
          twice after u' gone,
        )
  ]

  -- `kmalloc` of at least one byte and of fewer than a page less the header, where no bin has a chunk;
  -- where the top chunk is the rest of a page frame, which is not at null and is below the kernel's
  -- virtual addresses, has more than 15 bytes more than the header and the bytes, and than a smallest
  -- chunk, and comes after a chunk that is allocated or in another page frame; and where the pointer
  -- table has room and no pointer twice, and does not know the first bytes after the header. These
  -- bytes are what it returns; `kfree` of them returns, the small-chunk allocator has its top chunk
  -- and bins of before, the pointer table does not know them, and another `kfree` panics.
  pub kfree-kmalloc :
      (held freed : MemoryManager Slob) × (kmalloc (allocate (suc fuel)) m n
        ≡ ok (held, m.slob.top_chunk + 16))
      × (kfree (deallocate (suc fuel)) held (m.slob.top_chunk + 16) ≡ ok freed)
      × SameRest m.slob freed.slob
      × ¬ Tracked freed.kasan (m.slob.top_chunk + 16)
      × (kfree (deallocate (suc fuel)) freed (m.slob.top_chunk + 16) ≡ panic)
  unfolding Cycle p
  kfree-kmalloc = elim (mark_allocated_lem m.kasan p r.unique p_pos) [
    | inl (t, e) ↦ absurd (unfold p in r.fresh t)
    | inr (inl (t, full, e)) ↦ absurd (full r.room)
    | inr (inr (kasan, t, e, adds)) ↦ freed kasan e adds
  ]
