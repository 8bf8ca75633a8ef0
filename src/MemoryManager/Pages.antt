-- ===== src/MemoryManager/Pages.antt =====
-- Pages of the first zone, from `get_free_page` to `kfree`.
use native.Mathlib.Nat.{pow-suc}
use valkyrie.Buddy.Frames.{pow_pos}
use valkyrie.Base.{
  ℕ, zero, suc, ◌+◌, ◌*◌, ◌%◌, ◌^◌, ◌<◌, ◌≡◌, ◌≢◌, refl, ap, ◌∙◌, subst, ◌⊎◌, inl, inr, Bool, true,
  false, ◌||◌, some, ◌==◌, if◌then◌else◌, arith, Bool-cases,
}
use valkyrie.Base.Outcome.{Outcome, ok, panic}
use valkyrie.Buddy.{Buddy, free, allocate, allocate_one_page_frame, page_size, nr_pages}
use valkyrie.Buddy.Grants.{IsValid, is_allocated, Granted}
use valkyrie.Buddy.Allocate.{Served, allocate-Served}
use valkyrie.Buddy.Deallocate.{IsHeld, Granted-IsHeld}
use valkyrie.AddressSanitizer.Laws.{Tracked, IsUnique, mark_allocated_lem, mark_allocated_null}
use valkyrie.MemoryManager.{MemoryManager, get_free_page, zone_begin_0, kernel_va_base}

-- The address of a page of the first zone.
abbrev pub page : ℕ → ℕ
page i = zone_begin_0 + i * page_size

module _ {Slob : Type 0} where
  -- The buddy allocator of the first zone is valid, and every page of it that the pointer table knows
  -- is allocated.
  pub record IsConsistent (m : MemoryManager Slob) : Type 0 where
    pub valid : IsValid m.buddy
    pub zone : m.buddy.zone_begin ≡ zone_begin_0
    pub unique : IsUnique m.kasan
    pub known : (i : ℕ) → Tracked m.kasan (page i) → is_allocated (m.buddy.frame_array i) ≡ true

  -- A page that was free is allocated now, and known to the pointer table; nothing else has changed.
  pub record GotPage (m : MemoryManager Slob) (physical : Bool)
      (out : Outcome (MemoryManager Slob × ℕ)) : Type 0 where
    pub index : ℕ
    pub after : MemoryManager Slob
    pub runs : out ≡ ok (after, if physical then page index else kernel_va_base + page index)
    pub bound : index < nr_pages
    pub consistent : IsConsistent after
    pub was_free : is_allocated (m.buddy.frame_array index) ≡ false
    pub now :
        (j : ℕ)
        → is_allocated (after.buddy.frame_array j)
          ≡ ((index == j) || is_allocated (m.buddy.frame_array j))
    pub tracked : Tracked after.kasan (page index)
    pub held : IsHeld after.buddy index 0
    pub slob : after.slob ≡ m.slob

pub one_page : (b : Buddy) → IsValid b → Served b 0 (allocate_one_page_frame b)
unfolding allocate_one_page_frame
one_page b v =
    let (o, le, least, served) = allocate-Served b page_size v (omega arith) in
    subst (λ (k : ℕ). Served b k (allocate b page_size)) (order_zero o least) served
  where
    order_zero : (o : ℕ) → (o ≡ 0) ⊎ (2 ^ o * page_size < 2 * page_size) → o ≡ 0
    order_zero zero h = refl
    order_zero (suc o) (inl e) = e
    order_zero (suc o) (inr p) = absurd (omega (arith, pow-suc 2 o, pow_pos o))

module _ {Slob : Type 0} (m : MemoryManager Slob) (physical : Bool) (c : IsConsistent m)
    (room : Tracked m.kasan 0) where
  granted :
      Granted m.buddy 0 (allocate_one_page_frame m.buddy)
      → GotPage m physical (get_free_page m physical)
  unfolding get_free_page
  granted g = elim (mark_allocated_lem m.kasan (page g.block) c.unique (omega arith)) [
    | inl (t, p) ↦ let a = c.known g.block t in let f = g.was_free g.block (ground arith) in cc
    | inr (inl (n, full, r)) ↦ absurd (full room)
    | inr (inr (kasan, n, r, (unique, tracked, others))) ↦ record {
      index = g.block;
      after = record m { buddy = g.after; kasan = kasan };
      runs =
          (let first : allocate_one_page_frame m.buddy ≡ ok (g.after, some (page g.block)) =
              g.runs ∙ ap (λ (z : ℕ). ok (g.after, some (z + g.block * page_size))) c.zone in
            let small : (kernel_va_base + page g.block) % 2 ^ 64 ≡ kernel_va_base + page g.block =
              omega (arith, g.fits) in
            rw (get_free_page, first, r, small) refl);
      bound = omega (arith, g.fits);
      consistent = record {
        valid = g.valid;
        zone = g.zone ∙ c.zone;
        unique = unique;
        known = λ i t. g.now i ∙ elim (Bool-cases (g.block == i)) [
          | inl e ↦ ground arith
          | inr e ↦
              let ne : page i ≢ page g.block = ground arith in
              let a = c.known i ((others (page i) (omega arith) ne).0 t) in ground arith
        ];
      };
      was_free = g.was_free g.block (ground arith);
      now = λ j. g.now j ∙ ground arith;
      tracked = tracked;
      held = Granted-IsHeld m.buddy 0 (omega arith) g;
      slob = refl;
    }
  ]

  -- With room in the pointer table, `get_free_page` either hands out a page that was free, and leaves
  -- everything consistent, or panics, and then no page was free.
  pub get_free_page-GotPage :
      GotPage m physical (get_free_page m physical)
      ⊎ ((get_free_page m physical ≡ panic) × ((i k : ℕ) → m.buddy.frame_array i ≢ free k))
  unfolding get_free_page
  get_free_page-GotPage = elim (one_page m.buddy c.valid) [
    | inl g ↦ inl (granted g)
    | inr (e, none_free) ↦ inr (
      rw (e, get_free_page, mark_allocated_null m.kasan room) refl,
      λ i k. none_free i k (omega arith),
    )
  ]
