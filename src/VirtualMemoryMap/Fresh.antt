-- ===== src/VirtualMemoryMap/Fresh.antt =====
-- A map as its constructor makes it.
use valkyrie.Base.{
  ℕ, suc, ◌/◌, ◌%◌, ◌^◌, ◌<◌, ◌≡◌, refl, sym, subst, ◌∙◌, ◌⊎◌, inl, inr, true, false, Option, none,
  some, ◌==◌, if◌then◌else◌, arith, Bool-cases,
}
use valkyrie.Base.Outcome.{Outcome, ok, panic}
use valkyrie.Buddy.{nr_pages}
use valkyrie.MemoryManager.{MemoryManager}
use valkyrie.MemoryManager.Pages.{page, IsConsistent}
use valkyrie.VirtualMemoryMap.{Machine, entry, pd_invalid, page_of, upper_indices, walk, walk_loop}
use valkyrie.VirtualMemoryMap.Trees.{Levels, Held, absurd_bool}
use valkyrie.VirtualMemoryMap.Presence.{IsMap, IsPresent}
use valkyrie.VirtualMemoryMap.{walk_round, make, clear_page}
use valkyrie.MemoryManager.{get_free_page}
use valkyrie.VirtualMemoryMap.Entries.{is_in-page}
use valkyrie.VirtualMemoryMap.Frames.{NewFrame, get_free_page-NewFrame, IsFull}

module _ {Slob : Type 0} (m : Machine Slob) (c : IsConsistent m.mm) where
  -- The topmost table is a page that was free; the map is valid and maps nothing.
  pub record Made (out : Outcome (Machine Slob × ℕ)) : Type 0 where
    pub frame : NewFrame m.mm (get_free_page m.mm true)
    pub after : Machine Slob
    pub runs : out ≡ ok (after, page frame.index)
    pub valid : IsMap after (page frame.index)
    pub maps_nothing : (v d p : ℕ) → ¬ IsPresent after (page frame.index) v d p
    pub counts : after.mm.ref_counts ≡ m.mm.ref_counts

  module _ (f : NewFrame m.mm (get_free_page m.mm true)) where
    cleared : Machine Slob
    cleared = record { mm = f.after; words = clear_page m.words (page f.index) }

    cleared_word : (i : ℕ) → i < 512 → cleared.words (entry (page f.index) i) ≡ 0
    unfolding cleared clear_page
    cleared_word i lt =
        let s : (f.index == f.index) ≡ true = ground arith in
        rw (is_in-page f.index i f.index lt ∙ s) refl

    only : Levels
    only k = if k == f.index then some 3 else none

    only_root : (k h : ℕ) → only k ≡ some h → f.index ≡ k
    unfolding only
    only_root k h e = elim (Bool-cases (k == f.index)) [
      | inl same ↦ ground arith
      | inr off ↦ let bad : Path (Option ℕ) none (some h) = (rw off at e) in absurd (cc)
    ]

    invalid_word : (i : ℕ) → i < 512 → pd_invalid (cleared.words (entry (page f.index) i)) ≡ true
    unfolding pd_invalid
    invalid_word i lt = rw (cleared_word i lt) refl

    only_in_use : (k h : ℕ) → only k ≡ some h → (k < nr_pages) × Held cleared.mm k
    unfolding cleared
    only_in_use k h e =
        let s : (f.index == f.index) ≡ true = ground arith in
        rw (← only_root k h e) (f.bound, f.now f.index ∙ ground (arith, s))

    only_below :
        (k h i : ℕ)
        → only k ≡ some (suc h)
        → i < 512
        → pd_invalid (cleared.words (entry (page k) i)) ≡ false
        → (k' : ℕ) × (page_of (cleared.words (entry (page k) i)) ≡ page k') × (only k' ≡ some h)
    only_below k h i e lt valid = absurd_bool valid (
        subst (λ (a : ℕ). pd_invalid (cleared.words (entry (page a) i)) ≡ true)
          (only_root k (suc h) e) (invalid_word i lt))

    nothing : (v : ℕ) → walk cleared (page f.index) v false ≡ ok (cleared, none)
    unfolding walk walk_loop upper_indices walk_round
    nothing v =
        let lt : v / 2 ^ 39 % 512 < 512 = omega arith in
        rw (walk, invalid_word (v / 2 ^ 39 % 512) lt) refl

    not_present : (v d p : ℕ) → ¬ IsPresent cleared (page f.index) v d p
    not_present v d p (r, valid, word) =
        let bad : Path (Outcome (Machine Slob × Option ℕ)) (ok (cleared, none))
            (ok (cleared, some p)) =
          sym (nothing v) ∙ r in
        absurd (cc)

    made : Made (make m)
    unfolding make cleared only
    made = record {
      frame = f;
      after = cleared;
      runs = (let z : (page f.index == 0) ≡ false = ground arith in rw (f.runs, make, z) refl);
      valid = record {
        levels = only;
        root = f.index;
        top = (let s : (f.index == f.index) ≡ true = ground arith in rw s refl);
        place = refl;
        tree = record { consistent = f.consistent; in_use = only_in_use; below = only_below };
      };
      maps_nothing = not_present;
      counts = f.counts;
    }

  pub make-Made :
      Made (make m)
      ⊎ (IsFull m.mm
          × ((make m ≡ panic)
              ⊎ ((n : MemoryManager Slob) × (make m ≡ ok (record m { mm = n }, 0)))))
  unfolding make
  make-Made = elim (get_free_page-NewFrame m.mm c) [
    | inl f ↦ inl (made f)
    | inr (full, inl p) ↦ inr (full, inl (rw (p, make) refl))
    | inr (full, inr (n, p)) ↦ inr (full, inr (n, rw (p, make) refl))
  ]
