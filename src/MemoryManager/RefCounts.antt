-- ===== src/MemoryManager/RefCounts.antt =====
-- Reference counts of the pages of the first zone.
use mathlib.Core.Path.{fun_ext}
use valkyrie.Base.{
  ℕ, ◌+◌, ◌-◌, ◌/◌, ◌%◌, ◌^◌, ◌<◌, ◌≡◌, ◌≢◌, refl, ap, ◌⊎◌, inl, inr, true, false, ◌||◌, ltb, leb,
  ◌==◌, if◌then◌else◌, arith, Bool-cases,
}
use valkyrie.Base.Outcome.{ok, panic, ◌>>=◌}
use valkyrie.Buddy.{page_size, nr_pages}
use valkyrie.MemoryManager.{
  MemoryManager, get_page_ref_idx, inc_page_ref_count, dec_page_ref_count, zone_begin_0,
  zone_begin_1,
}
use valkyrie.MemoryManager.Pages.{page}

module _ {Slob : Type 0} (m : MemoryManager Slob) where
  pub idx_of_page : (i : ℕ) → i < nr_pages → get_page_ref_idx m (page i) ≡ ok i
  unfolding get_page_ref_idx
  idx_of_page i h =
      let a : ltb (page i) zone_begin_0 ≡ false = ground arith in
      let b : leb zone_begin_1 (page i) ≡ false = ground arith in
      let c : (page i % page_size == 0) ≡ true = ground arith in
      let d : (page i - zone_begin_0) / page_size ≡ i = omega arith in rw (a, b, c, d) refl

  -- An address has a count exactly if it is the address of one of the 512 pages of the zone, and then
  -- the count's index is the page's; every other address panics.
  pub get_page_ref_idx_lem :
      (p : ℕ)
      → ((i : ℕ) × (i < nr_pages) × (p ≡ page i) × (get_page_ref_idx m p ≡ ok i))
        ⊎ ((get_page_ref_idx m p ≡ panic) × ((i : ℕ) → i < nr_pages → p ≢ page i))
  unfolding get_page_ref_idx
  get_page_ref_idx_lem p = elim (Bool-cases (ltb p zone_begin_0 || leb zone_begin_1 p)) [
    | inl out ↦ inr (rw out refl, λ i h e. ground arith)
    | inr range ↦ elim (Bool-cases (p % page_size == 0)) [
      | inr uneven ↦ inr (rw (range, uneven) refl, λ i h e. ground arith)
      | inl even ↦
          let at : p ≡ page ((p - zone_begin_0) / page_size) = ground arith in
          inl ((p - zone_begin_0) / page_size, ground arith, at, rw (range, even) refl)
    ]
  ]

  -- Counting a page up and down again returns the old count and leaves everything as it was, also where
  -- the count wraps.
  pub dec-inc_page_ref_count :
      (i : ℕ)
      → i < nr_pages
      → m.ref_counts i < 2 ^ 32
      → (inc_page_ref_count m (page i) >>= (λ (counted, n). dec_page_ref_count counted (page i)))
        ≡ ok (m, m.ref_counts i)
  unfolding inc_page_ref_count dec_page_ref_count get_page_ref_idx
  dec-inc_page_ref_count i h w =
      let a : ltb (page i) zone_begin_0 ≡ false = ground arith in
      let b : leb zone_begin_1 (page i) ≡ false = ground arith in
      let c : (page i % page_size == 0) ≡ true = ground arith in
      let d : (page i - zone_begin_0) / page_size ≡ i = omega arith in
      let same : (i == i) ≡ true = ground arith in
      let back : ((m.ref_counts i + 1) % 2 ^ 32 + 2 ^ 32 - 1) % 2 ^ 32 ≡ m.ref_counts i =
        omega arith in
      let all : (λ j.
        if i == j
        then m.ref_counts i
        else (if i == j then (m.ref_counts i + 1) % 2 ^ 32 else m.ref_counts j))
          ≡ m.ref_counts =
        fun_ext λ j. ground arith in
      rw (a, b, c, d, same, back)
        (ap (λ (g : ℕ → ℕ). ok (record m { ref_counts = g }, m.ref_counts i)) all)
