-- ===== src/VirtualMemoryMap/Lookups.antt =====
-- What a mapped address leads to, and what `unmap` does to it.
use valkyrie.Base.{
  ℕ, ◌+◌, ◌-◌, ◌/◌, ◌%◌, ◌^◌, ◌<◌, ◌≡◌, refl, ap, subst, true, false, some, ◌==◌, if◌then◌else◌,
  arith,
}
use mathlib.Core.Path.{fun_ext}
use valkyrie.Base.Outcome.{Outcome, ok}
use valkyrie.Buddy.{nr_pages}
use valkyrie.MemoryManager.{dec_page_ref_count}
use valkyrie.MemoryManager.Pages.{page}
use valkyrie.MemoryManager.RefCounts.{idx_of_page}
use valkyrie.VirtualMemoryMap.{
  Machine, entry, pd_invalid, page_of, page_offset, pte_index, walk, map, unmap,
  get_physical_address,
}
use valkyrie.VirtualMemoryMap.Entries.{IsAttr, page_of-page}
use valkyrie.VirtualMemoryMap.Trees.{Keeps, absurd_bool}
use valkyrie.VirtualMemoryMap.Presence.{
  IsMap, IsPresent, patched, patched-IsTree, patched-Keeps, walk-Keeps, IsPresent-entry,
  IsPresent-patched, pte_index-lt, same_page,
}
use valkyrie.VirtualMemoryMap.Maps.{Mapped, granted_attr, granted_attr-IsAttr}

module _ {Slob : Type 0} (m : Machine Slob) (pgd v : ℕ) where
  pub walk-same_page :
      (v' p : ℕ)
      → v' / 2 ^ 12 ≡ v / 2 ^ 12
      → walk m pgd v false ≡ ok (m, some p)
      → walk m pgd v' false ≡ ok (m, some p)
  unfolding walk
  walk-same_page v' p e r = let (a, b) = same_page v v' e in rw (a, b) r

  pub get_physical_address-IsPresent :
      (v' d p : ℕ)
      → v' / 2 ^ 12 ≡ v / 2 ^ 12
      → IsPresent m pgd v d p
      → get_physical_address m pgd v' ≡ ok (page_of d + v' % 2 ^ 12)
  unfolding get_physical_address page_offset
  get_physical_address-IsPresent v' d p e (r, valid, word) =
      rw (walk-same_page v' p e r, get_physical_address, word) refl

module _ {Slob : Type 0} (m : Machine Slob) (pgd v j attr : ℕ) (h : j < nr_pages) (a : IsAttr attr)
    (g : Mapped m pgd v j attr (map m pgd v (page j) attr)) where
  leads : page_of (page j + granted_attr attr) ≡ page j
  leads = page_of-page j (granted_attr attr) h (granted_attr-IsAttr attr a)

  -- After `map` has mapped a page of the zone, with attributes that have no bit where the address
  -- stands, every address of the virtual page leads to the page's address with the same offset.
  pub get_physical_address-map :
      (v' : ℕ)
      → v' / 2 ^ 12 ≡ v / 2 ^ 12
      → get_physical_address g.after pgd v' ≡ ok (page j + v' % 2 ^ 12)
  get_physical_address-map v' e =
      rw (← leads) (
        get_physical_address-IsPresent g.after pgd v v' (page j + granted_attr attr) g.pte e g.here)

  pub record Unmapped (out : Outcome (Machine Slob)) : Type 0 where
    pub after : Machine Slob
    pub runs : out ≡ ok after
    pub valid : IsMap after pgd
    pub counted : after.mm.ref_counts ≡ m.mm.ref_counts
    pub gone : (d p : ℕ) → ¬ IsPresent after pgd v d p
    pub others : (v' d p : ℕ) → IsPresent m pgd v' d p → IsPresent after pgd v' d p

  dec_count :
      m.mm.ref_counts j < 2 ^ 32
      → dec_page_ref_count g.after.mm (page j)
        ≡ ok (record g.after.mm { ref_counts = m.mm.ref_counts }, m.mm.ref_counts j)
  unfolding dec_page_ref_count
  dec_count fits =
      let same : (j == j) ≡ true = ground arith in
      let back : ((m.mm.ref_counts j + 1) % 2 ^ 32 + 2 ^ 32 - 1) % 2 ^ 32 ≡ m.mm.ref_counts j =
        omega arith in
      let all : (λ q.
        if j == q
        then m.mm.ref_counts j
        else (if j == q then (m.mm.ref_counts j + 1) % 2 ^ 32 else m.mm.ref_counts q))
          ≡ m.mm.ref_counts =
        fun_ext λ q. ground arith in
      rw (idx_of_page g.after.mm j h, g.counted, same, back)
        (ap (λ (f : ℕ → ℕ). ok (record g.after.mm { ref_counts = f }, m.mm.ref_counts j)) all)

  -- The entry of the address is not valid any more.
  not_present :
      (d p k : ℕ)
      → g.valid.levels k ≡ some 0
      → g.pte ≡ entry (page k) (pte_index v)
      → walk (patched g.after m.mm.ref_counts g.pte 0) pgd v false
        ≡ ok (patched g.after m.mm.ref_counts g.pte 0, some p)
      → pd_invalid ((patched g.after m.mm.ref_counts g.pte 0).words p) ≡ false
      → ⊥
  not_present d p k e at r valid =
      let kept : Keeps g.after (patched g.after m.mm.ref_counts g.pte 0) g.valid.levels = rw at (
        patched-Keeps g.after g.valid.levels m.mm.ref_counts k (pte_index v) 0 e
          (pte_index-lt v)) in
      let r' =
        walk-Keeps g.after (patched g.after m.mm.ref_counts g.pte 0) pgd v g.pte g.valid kept
          g.here.0 in
      let same : g.pte ≡ p = cc in
      let blank : pd_invalid ((patched g.after m.mm.ref_counts g.pte 0).words g.pte) ≡ true =
        (let s : (g.pte == g.pte) ≡ true = ground arith in unfold pd_invalid in rw s refl) in
      absurd_bool valid (
        subst (λ (q : ℕ). pd_invalid ((patched g.after m.mm.ref_counts g.pte 0).words q) ≡ true)
          same blank)

  -- `unmap` after `map` has mapped a page of the zone whose count fits its 32 bits, with
  -- attributes that have no bit where the address stands: it returns, the map stays valid, the
  -- counts are as before, the address has no valid descriptor any more, and every address that
  -- was mapped before is so by the same descriptor.
  pub unmap-map : m.mm.ref_counts j < 2 ^ 32 → Unmapped (unmap g.after pgd v)
  unfolding unmap
  unmap-map fits =
      let (r, valid, word) = g.here in
      let (k, e, at) = IsPresent-entry g.after pgd v g.pte g.valid r in
      record {
        after = patched g.after m.mm.ref_counts g.pte 0;
        runs = rw (r, unmap, word, leads, dec_count fits) refl;
        valid = rw at (record {
          levels = g.valid.levels;
          root = g.valid.root;
          top = g.valid.top;
          place = g.valid.place;
          tree =
              patched-IsTree g.after g.valid.levels m.mm.ref_counts k (pte_index v) 0 g.valid.tree e
                (pte_index-lt v);
        });
        counted = refl;
        gone = λ d p (r', valid', word'). not_present d p k e at r' valid';
        others = λ v' d p there.
            let (there', ne) = g.others v' d p there in
            rw at (
              IsPresent-patched g.after pgd g.valid m.mm.ref_counts k (pte_index v) 0 e
                (pte_index-lt v) v' d p there' (rw at at ne));
      }
