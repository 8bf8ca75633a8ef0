-- ===== src/MemoryManager/Free.antt =====
-- What `kfree` does to a page of the first zone.
use valkyrie.Base.{
  ℕ, ◌+◌, ◌*◌, ◌%◌, ◌<◌, ◌≡◌, ◌≢◌, refl, sym, ap, ◌∙◌, subst, inl, inr, Bool, true, false, not,
  ◌&&◌, some, leb, ◌==◌, if◌then◌else◌, arith, Bool-cases,
}
use valkyrie.Base.Outcome.{Outcome, ok, panic}
use valkyrie.Buddy.{free, deallocate, page_size, nr_pages}
use valkyrie.Buddy.Grants.{is_allocated}
use valkyrie.Buddy.Deallocate.{IsHeld, Released, deallocate-Released}
use valkyrie.AddressSanitizer.Laws.{Tracked, mark_free_chk_lem}
use valkyrie.MemoryManager.{MemoryManager, get_free_page, kfree, to_physical, kernel_va_base}
use valkyrie.MemoryManager.Pages.{page, IsConsistent, GotPage, get_free_page-GotPage}

-- The page has been freed, and is unknown to the pointer table; nothing else has changed.
pub record Freed {Slob : Type 0} (m : MemoryManager Slob) (i : ℕ)
    (out : Outcome (MemoryManager Slob)) : Type 0 where
  pub after : MemoryManager Slob
  pub runs : out ≡ ok after
  pub consistent : IsConsistent after
  pub now :
      (j : ℕ)
      → is_allocated (after.buddy.frame_array j)
        ≡ (not (i == j) && is_allocated (m.buddy.frame_array j))
  pub gone : ¬ Tracked after.kasan (page i)

module _ {Slob : Type 0} (slob_deallocate : Slob → ℕ → Outcome Slob) (m : MemoryManager Slob)
    (i p : ℕ) (c : IsConsistent m) (at : to_physical p ≡ page i) where
  released : IsHeld m.buddy i 0 → Released m.buddy i 0 (deallocate m.buddy (some (page i)))
  released h =
      subst (λ (z : ℕ). Released m.buddy i 0 (deallocate m.buddy (some (z + i * page_size)))) c.zone
        (deallocate-Released m.buddy c.valid i 0 h
          (record { begins = rw c.zone refl; ends = rw c.zone (omega arith) }))

  -- Freeing a page that the pointer table does not know panics, as a double free.
  pub kfree-panic : ¬ Tracked m.kasan (page i) → kfree slob_deallocate m p ≡ panic
  unfolding kfree
  kfree-panic n = elim (mark_free_chk_lem m.kasan (page i) c.unique (omega arith)) [
    | inl (no_entry, e) ↦ rw (at, kfree, e) refl
    | inr (kasan, t, e, r) ↦ absurd (n t)
  ]

  -- Freeing a page that is handed out and known, at its physical address or at the kernel's virtual
  -- one, returns: the page is free and unknown, every other frame is as before, and the memory manager
  -- stays consistent.
  pub kfree-Freed :
      IsHeld m.buddy i 0 → Tracked m.kasan (page i) → Freed m i (kfree slob_deallocate m p)
  unfolding kfree
  kfree-Freed h tracked = elim (mark_free_chk_lem m.kasan (page i) c.unique (omega arith)) [
    | inl (no_entry, e) ↦ absurd (no_entry tracked)
    | inr (kasan, t, e, (unique, gone, others)) ↦
        let r = released h in
        let some_page : (page i == 0) ≡ false = ground arith in
        let is_page : (page i % page_size == 0) ≡ true = ground arith in
        record {
          after = record m { buddy = r.after; kasan = kasan };
          runs = rw (at, kfree, e, some_page, is_page, r.runs) refl;
          consistent = record {
            valid = r.valid;
            zone = r.zone ∙ c.zone;
            unique = unique;
            known = λ j k. r.now j ∙ elim (Bool-cases (i == j)) [
              | inl same ↦
                  let q : j ≡ i = ground arith in
                  absurd (gone (subst (λ (n : ℕ). Tracked kasan (page n)) q k))
              | inr other ↦
                  let ne : page j ≢ page i = ground arith in
                  let a = c.known j ((others (page j) (omega arith) ne).0 k) in ground arith
            ];
          };
          now = λ j. r.now j ∙ ground arith;
          gone = gone;
        }
  ]

-- Freeing the page that was handed out.
given_back :
    {Slob : Type 0} (slob_deallocate : Slob → ℕ → Outcome Slob) (m : MemoryManager Slob)
    (physical : Bool)
    → (g : GotPage m physical (get_free_page m physical))
    → (after : MemoryManager Slob) × (kfree slob_deallocate g.after
          (if physical then page g.index else kernel_va_base + page g.index)
        ≡ ok after)
      × IsConsistent after
      × ((j : ℕ) → is_allocated (after.buddy.frame_array j) ≡ is_allocated (m.buddy.frame_array j))
      × (kfree slob_deallocate after
            (if physical then page g.index else kernel_va_base + page g.index)
          ≡ panic)
unfolding to_physical
given_back slob_deallocate m physical g =
    let f =
      kfree-Freed slob_deallocate g.after g.index _ g.consistent
        (physical_again physical g.index g.bound) g.held g.tracked in
    (
      f.after,
      f.runs,
      f.consistent,
      λ j. f.now j ∙ same j,
      kfree-panic slob_deallocate f.after g.index _ f.consistent
          (physical_again physical g.index g.bound) f.gone,
    )
  where
    physical_again :
        (physical : Bool) (i : ℕ)
        → i < nr_pages
        → to_physical (if physical then page i else kernel_va_base + page i) ≡ page i
    physical_again true i h =
        let z : leb kernel_va_base (page i) ≡ false = ground arith in rw (to_physical, z) refl
    physical_again false i h =
        let z : leb kernel_va_base (kernel_va_base + page i) ≡ true = ground arith in
        rw (to_physical, z) (omega arith)

    same :
        (j : ℕ)
        → (not (g.index == j) && is_allocated (g.after.buddy.frame_array j))
          ≡ is_allocated (m.buddy.frame_array j)
    same j = elim (Bool-cases (g.index == j)) [
      | inl e ↦
          let q : j ≡ g.index = ground arith in
          rw e (sym (ap (λ (n : ℕ). is_allocated (m.buddy.frame_array n)) q ∙ g.was_free))
      | inr e ↦ rw e (g.now j ∙ rw e refl)
    ]

-- A consistent memory manager, whose pointer table has room, and in whose zone some page is free:
-- `get_free_page` returns a page that was free, at its physical or its virtual address. `kfree` of
-- that address returns, exactly the frames that were allocated at first are allocated, everything is
-- consistent, and freeing the page again panics.
pub kfree-get_free_page :
    {Slob : Type 0} (slob_deallocate : Slob → ℕ → Outcome Slob) (m : MemoryManager Slob)
    (physical : Bool)
    → IsConsistent m
    → Tracked m.kasan 0
    → (i k : ℕ) → m.buddy.frame_array i ≡ free k
    → (p j : ℕ) × (held after : MemoryManager Slob) × (p
        ≡ (if physical then page j else kernel_va_base + page j))
      × (j < nr_pages)
      × (is_allocated (m.buddy.frame_array j) ≡ false)
      × (get_free_page m physical ≡ ok (held, p))
      × (is_allocated (held.buddy.frame_array j) ≡ true)
      × (kfree slob_deallocate held p ≡ ok after)
      × IsConsistent after
      × ((a : ℕ) → is_allocated (after.buddy.frame_array a) ≡ is_allocated (m.buddy.frame_array a))
      × (kfree slob_deallocate after p ≡ panic)
kfree-get_free_page slob_deallocate m physical c room i k e =
    elim (get_free_page-GotPage m physical c room) [
      | inr (stops, none_free) ↦ absurd (none_free i k e)
      | inl g ↦
          let (after, runs, consistent, same, again) = given_back slob_deallocate m physical g in
          (
            (if physical then page g.index else kernel_va_base + page g.index),
            g.index,
            g.after,
            after,
            refl,
            g.bound,
            g.was_free,
            g.runs,
            g.now g.index ∙ ground arith,
            runs,
            consistent,
            same,
            again,
          )
    ]
