-- ===== src/VirtualMemoryMap/Copies.antt =====
-- The handler of a write to a copy-on-write page.
use valkyrie.Base.{
  ℕ, suc, ◌+◌, ◌-◌, ◌%◌, ◌^◌, ◌<◌, ◌≡◌, refl, sym, ap, subst, ◌∙◌, ◌⊎◌, inl, inr, true, false, ◌==◌,
  arith, Bool-cases,
}
use valkyrie.Base.Maps.{update}
use valkyrie.Base.Outcome.{Outcome, ok}
use valkyrie.Buddy.{nr_pages}
use valkyrie.MemoryManager.{inc_page_ref_count, dec_page_ref_count}
use valkyrie.MemoryManager.Pages.{page}
use valkyrie.MemoryManager.RefCounts.{idx_of_page}
use valkyrie.VirtualMemoryMap.{
  Machine, entry, pd_invalid, page_of, copy_page_frame, take_copy, copy_page, pte_index,
  pd_cow_page, pd_rdonly,
}
use valkyrie.VirtualMemoryMap.Entries.{IsAttr, bit_or-page}
use valkyrie.VirtualMemoryMap.Trees.{Held, IsTree, Extends}
use valkyrie.VirtualMemoryMap.Presence.{
  IsMap, IsPresent, patched, patched-IsTree, patched-Keeps, walk-Keeps, IsPresent-entry,
  IsPresent-patched, IsPresent-Extends, pte_index-lt,
}
use valkyrie.Base.{◌&&◌, ltb, leb, ◌≢◌}
use valkyrie.Base.Bits.{clear_bit}
use valkyrie.Buddy.{page_size}
use valkyrie.MemoryManager.{get_free_page, get_page_ref_count}
use valkyrie.VirtualMemoryMap.{attr_of}
use valkyrie.VirtualMemoryMap.Entries.{is_in-page}
use valkyrie.VirtualMemoryMap.Frames.{NewFrame, get_free_page-NewFrame, Exhausted}

-- `old_attr`, on the new page, with PD_RDONLY cleared.
abbrev pub copy_of : ℕ → ℕ → ℕ
copy_of n d = clear_bit pd_rdonly (page n + d % 2 ^ 12)

-- The descriptor of a page with one owner, with PD_COW_PAGE and PD_RDONLY cleared.
abbrev pub own_of : ℕ → ℕ
own_of d = clear_bit pd_rdonly (clear_bit pd_cow_page d)

module _ {Slob : Type 0} where
  -- The address is mapped by another descriptor at the same place, and all others as before.
  pub record Remapped (m : Machine Slob) (pgd v pte x : ℕ) (after : Machine Slob) : Type 0 where
    pub valid : IsMap after pgd
    pub here : IsPresent after pgd v x pte
    pub others :
        (v' d p : ℕ) → IsPresent m pgd v' d p → (pte == p) ≡ false → IsPresent after pgd v' d p

  pub Remapped-patched :
      (m : Machine Slob) (pgd v d pte x : ℕ) (counts : ℕ → ℕ)
      → IsMap m pgd
      → IsPresent m pgd v d pte
      → pd_invalid x ≡ false
      → Remapped m pgd v pte x (patched m counts pte x)
  Remapped-patched m pgd v d pte x counts i (r, valid, word) ok_x =
      let (k, e, at) = IsPresent-entry m pgd v pte i r in
      let self : update m.words pte x pte ≡ x =
        (let s : (pte == pte) ≡ true = ground arith in rw s refl) in
      record {
        valid = rw at (record {
          levels = i.levels;
          root = i.root;
          top = i.top;
          place = i.place;
          tree = patched-IsTree m i.levels counts k (pte_index v) x i.tree e (pte_index-lt v);
        });
        here = (
          walk-Keeps m (patched m counts pte x) pgd v pte i
              (rw at (patched-Keeps m i.levels counts k (pte_index v) x e (pte_index-lt v))) r,
          ap pd_invalid self ∙ ok_x,
          self,
        );
        others = λ v' d' p there ne. rw at (
            IsPresent-patched m pgd i counts k (pte_index v) x e (pte_index-lt v) v' d' p there
              (rw at at ne));
      }

module _ {Slob : Type 0} (m : Machine Slob) (pgd v j d pte : ℕ) (i : IsMap m pgd) (h : j < nr_pages)
    (here : IsPresent m pgd v d pte) (leads : page_of d ≡ page j) where
  module _ (f : NewFrame m.mm (get_free_page m.mm true)) where
    -- The new page holds the words of the old one.
    mid : Machine Slob
    mid = record { mm = f.after; words = copy_page m.words (page f.index) (page j) }

    mid_word :
        (k l : ℕ)
        → Held m.mm k
        → l < 512
        → mid.words (entry (page k) l) ≡ m.words (entry (page k) l)
    unfolding mid copy_page
    mid_word k l u lt =
        let ne : (k == f.index) ≡ false = elim (Bool-cases (k == f.index)) [
          | inr off ↦ off
          | inl same ↦
              let eq : k ≡ f.index = ground arith in
              let free = f.was_free in let u' : Held m.mm f.index = subst (Held m.mm) eq u in cc
        ] in
        rw (is_in-page k l f.index lt ∙ ne) refl

    mid-Held : (k : ℕ) → Held m.mm k → Held mid.mm k
    unfolding mid
    mid-Held k u = f.now k ∙ ground (arith, u)

    mid-IsTree : IsTree mid i.levels
    mid-IsTree = record {
      consistent = unfold mid in f.consistent;
      in_use = λ k n e. let (b, u) = i.tree.in_use k n e in (b, mid-Held k u);
      below = λ k n l e lt valid.
          let same = mid_word k l (i.tree.in_use k (suc n) e).1 lt in
          let (k', leads', at) = i.tree.below k n l e lt (ap pd_invalid (sym same) ∙ valid) in
          (k', ap page_of same ∙ leads', at);
    }

    mid-IsMap : IsMap mid pgd
    mid-IsMap = record {
      levels = i.levels;
      root = i.root;
      top = i.top;
      place = i.place;
      tree = mid-IsTree;
    }

    mid-Extends : Extends m mid i.levels i.levels
    mid-Extends = record {
      held = mid-Held;
      counts = unfold mid in f.counts;
      grows = λ k n e. e;
      new = λ k n e u. e;
      keeps = λ k l u lt. inl (mid_word k l u lt);
    }

  -- The address leads to a page that was free, with the words of the old page and the attributes of the
  -- bits from 0 to 11, and may be written to; the old page has one reference less, the new one has one
  -- more; all other addresses are mapped as before.
  pub record Copied (out : Outcome (Machine Slob)) : Type 0 where
    pub frame : NewFrame m.mm (get_free_page m.mm true)
    pub after : Machine Slob
    pub runs : out ≡ ok after
    pub remapped : Remapped m pgd v pte (copy_of frame.index d) after
    pub content :
        (o : ℕ) → o < page_size → after.words (page frame.index + o) ≡ m.words (page j + o)
    pub counted :
        let dropped = update m.mm.ref_counts j ((m.mm.ref_counts j + 2 ^ 32 - 1) % 2 ^ 32) in
        after.mm.ref_counts ≡ update dropped frame.index ((dropped frame.index + 1) % 2 ^ 32)

  copy_of_valid : (n : ℕ) → pd_invalid (copy_of n d) ≡ false
  unfolding pd_invalid
  copy_of_valid n =
      let odd : (d % 2 == 0) ≡ false = ap (λ (x : ℕ). x % 2 == 0) (sym here.2) ∙ here.1 in
      ground (arith, odd)

  module _ (f : NewFrame m.mm (get_free_page m.mm true)) where
    mid-Remapped :
        (counts : ℕ → ℕ)
        → Remapped m pgd v pte (copy_of f.index d) (patched (mid f) counts pte (copy_of f.index d))
    mid-Remapped counts =
        let at_mid = IsPresent-Extends m (mid f) pgd i i.levels (mid-Extends f) in
        let r =
          Remapped-patched (mid f) pgd v d pte (copy_of f.index d) counts (mid-IsMap f)
            (at_mid v d pte here) (copy_of_valid f.index) in
        record {
          valid = r.valid;
          here = r.here;
          others = λ v' d' p there ne. r.others v' d' p (at_mid v' d' p there) ne;
        }

    dropped : ℕ → ℕ
    dropped = update m.mm.ref_counts j ((m.mm.ref_counts j + 2 ^ 32 - 1) % 2 ^ 32)

    mid_content :
        (counts : ℕ → ℕ) (o : ℕ)
        → o < page_size
        → (patched (mid f) counts pte (copy_of f.index d)).words (page f.index + o)
          ≡ m.words (page j + o)
    unfolding mid copy_page
    mid_content counts o lt =
        let (k, e, at) = IsPresent-entry m pgd v pte i here.0 in
        let off : (pte == page f.index + o) ≡ false = elim (Bool-cases (k == f.index)) [
          | inr ne ↦ ground (arith, at, pte_index-lt v)
          | inl same ↦
              let eq : k ≡ f.index = ground arith in
              let free = f.was_free in
              let u : Held m.mm f.index = subst (Held m.mm) eq (i.tree.in_use k 0 e).1 in cc
        ] in
        let inside : leb (page f.index) (page f.index + o)
              && ltb (page f.index + o) (page f.index + page_size)
            ≡ true =
          ground arith in
        let there : page j + (page f.index + o - page f.index) ≡ page j + o = omega arith in
        rw (off, inside, there) refl

    copied : Copied (take_copy m pte (page j))
    unfolding take_copy dropped
    copied =
        let counts : ℕ → ℕ = update dropped f.index ((dropped f.index + 1) % 2 ^ 32) in
        record {
          frame = f;
          after = patched (mid f) counts pte (copy_of f.index d);
          runs =
              (let z : (page f.index == 0) ≡ false = ground arith in
                let low : IsAttr (d % 2 ^ 12) = omega arith in
                unfold mid attr_of dec_page_ref_count inc_page_ref_count in
                rw
                  (
                    f.runs,
                    take_copy,
                    z,
                    idx_of_page f.after j h,
                    f.counts,
                    idx_of_page (record f.after { ref_counts = dropped }) f.index f.bound,
                    here.2,
                    bit_or-page f.index (d % 2 ^ 12) f.bound low,
                  )
                  refl);
          remapped = mid-Remapped counts;
          content = mid_content counts;
          counted = refl;
        }

  -- The page has this owner only: it keeps its page, copy-on-write no more.
  pub record Owned (out : Outcome (Machine Slob)) : Type 0 where
    pub after : Machine Slob
    pub runs : out ≡ ok after
    pub remapped : Remapped m pgd v pte (own_of d) after
    pub same_mm : after.mm ≡ m.mm

  own_of_valid : pd_invalid (own_of d) ≡ false
  unfolding pd_invalid
  own_of_valid =
      let odd : (d % 2 == 0) ≡ false = ap (λ (x : ℕ). x % 2 == 0) (sym here.2) ∙ here.1 in
      ground (arith, odd)

  to_copy : (m.mm.ref_counts j == 1) ≡ false → copy_page_frame m pgd v ≡ take_copy m pte (page j)
  unfolding copy_page_frame get_page_ref_count
  to_copy more = rw (here.0, copy_page_frame, here.2, leads, idx_of_page m.mm j h, more) refl

  -- `copy_page_frame` of an address that a valid map maps to page `j` of the zone. If the page
  -- has one reference, the address keeps it, its descriptor loses PD_COW_PAGE and PD_RDONLY, and
  -- the memory manager is as before. If not, the address gets a page that was free, with the
  -- words of the old page and its attributes of the bits from 0 to 11 but PD_RDONLY, and the
  -- counts of both are adjusted; or the run stops, since no page was free. All other addresses
  -- are mapped as before.
  pub copy_page_frame_lem :
      ((m.mm.ref_counts j ≡ 1) × Owned (copy_page_frame m pgd v))
      ⊎ ((m.mm.ref_counts j ≢ 1)
          × (Copied (copy_page_frame m pgd v) ⊎ Exhausted m.mm (copy_page_frame m pgd v)))
  unfolding copy_page_frame get_page_ref_count
  copy_page_frame_lem = elim (Bool-cases (m.mm.ref_counts j == 1)) [
    | inl one ↦ inl (
      ground arith,
      record {
        after = patched m m.mm.ref_counts pte (own_of d);
        runs = rw (here.0, copy_page_frame, here.2, leads, idx_of_page m.mm j h, one) refl;
        remapped = Remapped-patched m pgd v d pte (own_of d) m.mm.ref_counts i here own_of_valid;
        same_mm = refl;
      },
    )
    | inr more ↦ inr (
      (λ e. ground arith),
      elim (get_free_page-NewFrame m.mm i.tree.consistent) [
        | inl f ↦ inl (rw (to_copy more) (copied f))
        | inr (full, inl p) ↦
            inr (full, inl (to_copy more ∙ unfold take_copy in rw (p, take_copy) refl))
        | inr (full, inr (n, p)) ↦
            inr (full, inr (to_copy more ∙ unfold take_copy in rw (p, take_copy) refl))
      ],
    )
  ]
