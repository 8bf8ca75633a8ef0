-- ===== src/VirtualMemoryMap/Frames.antt =====
-- Page frames for tables, also when the pointer table of the sanitizer is full.
use valkyrie.Base.{
  ℕ, ◌+◌, ◌*◌, ◌<◌, ◌≡◌, ◌≢◌, refl, ap, ◌∙◌, ◌⊎◌, inl, inr, true, false, ◌||◌, none, some, ◌==◌,
  arith, Bool-cases, Option-cases,
}
use valkyrie.Base.Maps.{update}
use valkyrie.Base.Outcome.{Outcome, ok, panic, fault}
use valkyrie.Buddy.{free, allocate_one_page_frame, nr_pages, page_size}
use valkyrie.Buddy.Grants.{is_allocated, Granted}
use valkyrie.AddressSanitizer.{Sanitizer, mark_allocated, find_slot, nr_slots}
use valkyrie.AddressSanitizer.Laws.{Tracked, mark_allocated_lem}
use valkyrie.MemoryManager.{MemoryManager, get_free_page}
use valkyrie.MemoryManager.Pages.{page, IsConsistent, one_page}
use valkyrie.VirtualMemoryMap.{Machine, new_table, clear_page}

mark_allocated-panic_or_ok :
    (a : Sanitizer) (p : ℕ)
    → (mark_allocated a p ≡ panic) ⊎ ((b : Sanitizer) × (mark_allocated a p ≡ ok b))
unfolding mark_allocated
mark_allocated-panic_or_ok a p = elim (Option-cases (find_slot nr_slots a.slots p 0)) [
  | inr (i, e) ↦ inl (rw (mark_allocated, e) refl)
  | inl e ↦ inr (elim (Option-cases (find_slot nr_slots a.slots 0 0)) [
    | inl f ↦ (a, rw (mark_allocated, e, f) refl)
    | inr (i, f) ↦ (record { slots = update a.slots i p }, rw (mark_allocated, e, f) refl)
  ])
]

module _ {Slob : Type 0} where
  -- The pages in use.
  abbrev pub InUse : MemoryManager Slob → ℕ → Type 0
  InUse m k = (k < nr_pages) × (is_allocated (m.buddy.frame_array k) ≡ true)

  -- A page that was free is in use now; nothing else has changed but the pointer table.
  pub record NewFrame (m : MemoryManager Slob) (out : Outcome (MemoryManager Slob × ℕ))
      : Type 0 where
    pub index : ℕ
    pub after : MemoryManager Slob
    pub runs : out ≡ ok (after, page index)
    pub bound : index < nr_pages
    pub consistent : IsConsistent after
    pub was_free : is_allocated (m.buddy.frame_array index) ≡ false
    pub now :
        (j : ℕ)
        → is_allocated (after.buddy.frame_array j)
          ≡ ((index == j) || is_allocated (m.buddy.frame_array j))
    pub counts : after.ref_counts ≡ m.ref_counts

  -- No page is free.
  abbrev pub IsFull : MemoryManager Slob → Type 0
  IsFull m = (i k : ℕ) → m.buddy.frame_array i ≢ free k

module _ {Slob : Type 0} (m : MemoryManager Slob) (c : IsConsistent m) where
  -- From the outcome of marking the page.
  tracked :
      (g : Granted m.buddy 0 (allocate_one_page_frame m.buddy)) (kasan : Sanitizer)
      → mark_allocated m.kasan (page g.block) ≡ ok kasan
      → ((i : ℕ) → Tracked kasan (page i) → is_allocated (g.after.frame_array i) ≡ true)
      → IsConsistent (record m { buddy = g.after; kasan = kasan })
      → NewFrame m (get_free_page m true)
  unfolding get_free_page
  tracked g kasan r known c' = record {
    index = g.block;
    after = record m { buddy = g.after; kasan = kasan };
    runs =
        (let first : allocate_one_page_frame m.buddy ≡ ok (g.after, some (page g.block)) =
            g.runs ∙ ap (λ (z : ℕ). ok (g.after, some (z + g.block * page_size))) c.zone in
          rw (get_free_page, first, r) refl);
    bound = omega (arith, g.fits);
    consistent = c';
    was_free = g.was_free g.block (ground arith);
    now = λ j. g.now j ∙ ground arith;
    counts = refl;
  }

  granted : Granted m.buddy 0 (allocate_one_page_frame m.buddy) → NewFrame m (get_free_page m true)
  granted g = elim (mark_allocated_lem m.kasan (page g.block) c.unique (omega arith)) [
    | inl (t, p) ↦ let a = c.known g.block t in let f = g.was_free g.block (ground arith) in cc
    | inr (inl (n, full, r)) ↦
        let known =
          λ (i : ℕ) (t : Tracked m.kasan (page i)). let a = c.known i t in g.now i ∙ ground arith in
        tracked g m.kasan r known
          (record { valid = g.valid; zone = g.zone ∙ c.zone; unique = c.unique; known = known })
    | inr (inr (kasan, n, r, (unique, t, others))) ↦
        let known = λ (i : ℕ) (t : Tracked kasan (page i)).
          g.now i ∙ elim (Bool-cases (g.block == i)) [
            | inl e ↦ ground arith
            | inr e ↦
                let ne : page i ≢ page g.block = ground arith in
                let a = c.known i ((others (page i) (omega arith) ne).0 t) in ground arith
          ] in
        tracked g kasan r known
          (record { valid = g.valid; zone = g.zone ∙ c.zone; unique = unique; known = known })
  ]

  null :
      allocate_one_page_frame m.buddy ≡ ok (m.buddy, none)
      → (get_free_page m true ≡ panic)
        ⊎ ((n : MemoryManager Slob) × (get_free_page m true ≡ ok (n, 0)))
  unfolding get_free_page
  null e = elim (mark_allocated-panic_or_ok m.kasan 0) [
    | inl p ↦ inl (rw (e, get_free_page, p) refl)
    | inr (kasan, r) ↦ inr (record m { kasan = kasan }, rw (e, get_free_page, r) refl)
  ]

  -- `get_free_page` hands out a free page; without one it panics or returns null.
  pub get_free_page-NewFrame :
      NewFrame m (get_free_page m true)
      ⊎ (IsFull m
          × ((get_free_page m true ≡ panic)
              ⊎ ((n : MemoryManager Slob) × (get_free_page m true ≡ ok (n, 0)))))
  unfolding get_free_page
  get_free_page-NewFrame = elim (one_page m.buddy c.valid) [
    | inl g ↦ inl (granted g)
    | inr (e, none_free) ↦ inr (λ i k. none_free i k (omega arith), null e)
  ]

module _ {Slob : Type 0} where
  -- A new table: a page that was free, cleared; the other words are as before.
  pub record NewTable (m : Machine Slob) (out : Outcome (Machine Slob × ℕ)) : Type 0 where
    pub frame : NewFrame m.mm (get_free_page m.mm true)
    pub runs :
        out
        ≡ ok (
          record { mm = frame.after; words = clear_page m.words (page frame.index) },
          page frame.index,
        )

  -- There is no page, and the run stops.
  abbrev pub Exhausted {ℓ} : {A : Type ℓ} → MemoryManager Slob → Outcome A → Type ℓ
  Exhausted m out = IsFull m × ((out ≡ panic) ⊎ (out ≡ fault))

  pub new_table-NewTable :
      (m : Machine Slob)
      → IsConsistent m.mm
      → NewTable m (new_table m) ⊎ Exhausted m.mm (new_table m)
  unfolding new_table
  new_table-NewTable m c = elim (get_free_page-NewFrame m.mm c) [
    | inl f ↦
        let z : (page f.index == 0) ≡ false = ground arith in
        inl (record { frame = f; runs = rw (new_table, f.runs, z) refl })
    | inr (full, inl p) ↦ inr (full, inl (rw (new_table, p) refl))
    | inr (full, inr (n, e)) ↦ inr (full, inr (rw (new_table, e) refl))
  ]
