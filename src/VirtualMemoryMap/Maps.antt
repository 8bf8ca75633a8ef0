-- ===== src/VirtualMemoryMap/Maps.antt =====
-- What `map` does to the addresses of a map.
use valkyrie.Base.{
  ℕ, ◌+◌, ◌%◌, ◌^◌, ◌<◌, ◌≡◌, refl, sym, ap, subst, ◌∙◌, ◌⊎◌, inl, inr, true, false, not, some,
  ◌==◌, if◌then◌else◌, arith, Bool-cases,
}
use valkyrie.Base.Bits.{has_bit, set_bit}
use valkyrie.Base.Maps.{update}
use valkyrie.Base.Outcome.{Outcome, ok, panic}
use valkyrie.Buddy.{nr_pages}
use valkyrie.MemoryManager.{inc_page_ref_count}
use valkyrie.MemoryManager.Pages.{page}
use valkyrie.MemoryManager.RefCounts.{idx_of_page}
use valkyrie.VirtualMemoryMap.{
  Machine, entry, pd_invalid, upper_indices, pte_index, walk, map, map_entry, pd_cow_page,
  pd_rdonly,
}
use valkyrie.VirtualMemoryMap.Entries.{IsAttr, bit_or-page, pd_invalid-page}
use valkyrie.VirtualMemoryMap.Trees.{Keeps, absurd_bool}
use valkyrie.VirtualMemoryMap.Walks.{Walked, walk_loop-Walked}
use valkyrie.VirtualMemoryMap.Stops.{Stopped}
use valkyrie.VirtualMemoryMap.Presence.{
  IsMap, IsPresent, patched, patched-IsTree, patched-Keeps, walk-Keeps, IsPresent-entry,
  IsPresent-patched, IsPresent-Extends, upper_indices-Indices, pte_index-lt, three,
}

-- `if (!(attr & PD_RDONLY)) attr |= PD_COW_PAGE;`
abbrev pub granted_attr : ℕ → ℕ
granted_attr attr = if not (has_bit pd_rdonly attr) then set_bit pd_cow_page attr else attr

pub granted_attr-IsAttr : (attr : ℕ) → IsAttr attr → IsAttr (granted_attr attr)
granted_attr-IsAttr attr a = ground (arith, a)

module _ {Slob : Type 0} where
  -- Page `j` is mapped at the address `v`, with these attributes.
  pub record Mapped (m : Machine Slob) (pgd v j attr : ℕ) (out : Outcome (Machine Slob))
      : Type 0 where
    pub after : Machine Slob
    pub runs : out ≡ ok after
    pub valid : IsMap after pgd
    pub pte : ℕ
    pub here : IsPresent after pgd v (page j + granted_attr attr) pte
    pub others :
        (v' d p : ℕ) → IsPresent m pgd v' d p → IsPresent after pgd v' d p × ((pte == p) ≡ false)
    pub counted : after.mm.ref_counts ≡ update m.mm.ref_counts j ((m.mm.ref_counts j + 1) % 2 ^ 32)

module _ {Slob : Type 0} (m : Machine Slob) (pgd v j attr : ℕ) (i : IsMap m pgd) (h : j < nr_pages)
    (a : IsAttr attr) (odd : attr % 2 ≡ 1) where
  walked :
      Walked (pte_index v) (upper_indices v) m i.levels i.root (walk m pgd v true)
      ⊎ Stopped (upper_indices v) m pgd (walk m pgd v true)
  unfolding walk
  walked = rw i.place (
      walk_loop-Walked (pte_index v) (upper_indices v) m i.levels i.root i.tree
        (i.top ∙ ap some (sym (three v))) (upper_indices-Indices v))

  granted_attr_odd : granted_attr attr % 2 ≡ 1
  granted_attr_odd = ground (arith, odd)

  module _ (w : Walked (pte_index v) (upper_indices v) m i.levels i.root (walk m pgd v true)) where
    pte : ℕ
    pte = entry (page w.table) (pte_index v)

    walked_map : IsMap w.after pgd
    walked_map = record {
      levels = w.levels';
      root = i.root;
      top = w.extends.grows i.root 3 i.top;
      place = i.place;
      tree = w.tree;
    }

    again : walk w.after pgd v false ≡ ok (w.after, some pte)
    unfolding pte walk
    again = rw i.place w.again

    x : ℕ
    x = page j + granted_attr attr

    counts : ℕ → ℕ
    counts = update w.after.mm.ref_counts j ((w.after.mm.ref_counts j + 1) % 2 ^ 32)

    -- The state after the entry is written.
    entered : Machine Slob
    entered = patched w.after counts pte x

    entered-Keeps : Keeps w.after entered w.levels'
    unfolding entered pte
    entered-Keeps =
        patched-Keeps w.after w.levels' counts w.table (pte_index v) x w.at (pte_index-lt v)

    entered_map : IsMap entered pgd
    unfolding entered pte
    entered_map = record {
      levels = w.levels';
      root = i.root;
      top = w.extends.grows i.root 3 i.top;
      place = i.place;
      tree =
          patched-IsTree w.after w.levels' counts w.table (pte_index v) x w.tree w.at
            (pte_index-lt v);
    }

    entered_here : IsPresent entered pgd v x pte
    entered_here =
        let word : entered.words pte ≡ x =
          unfold entered in (let s : (pte == pte) ≡ true = ground arith in rw s refl) in
        (
          walk-Keeps w.after entered pgd v pte walked_map (unfold walked_map in entered-Keeps)
              again,
          ap pd_invalid word
              ∙ unfold x in
                (pd_invalid-page j (granted_attr attr)
                  ∙ unfold pd_invalid in rw granted_attr_odd refl),
          word,
        )

    entered_others :
        pd_invalid (w.after.words pte) ≡ true
        → (v' d p : ℕ) → IsPresent m pgd v' d p
        → IsPresent entered pgd v' d p × ((pte == p) ≡ false)
    entered_others invalid v' d p here =
        let (r, valid, word) = IsPresent-Extends m w.after pgd i w.levels' w.extends v' d p here in
        let ne : (pte == p) ≡ false = elim (Bool-cases (pte == p)) [
          | inr off ↦ off
          | inl same ↦
              let eq : pte ≡ p = ground arith in
              absurd_bool valid (subst (λ (q : ℕ). pd_invalid (w.after.words q) ≡ true) eq invalid)
        ] in
        (
          unfold entered in
              unfold pte in
              IsPresent-patched w.after pgd walked_map counts w.table (pte_index v) x
                (unfold walked_map in w.at) (pte_index-lt v) v' d p (r, valid, word) ne,
          ne,
        )

    fresh_entry :
        pd_invalid (w.after.words pte) ≡ true
        → Mapped m pgd v j attr (map_entry w.after pte (page j) attr)
    unfolding x
    fresh_entry invalid = record {
      after = entered;
      runs =
          unfold map_entry in
          unfold inc_page_ref_count in
          rw
            (
              invalid,
              idx_of_page w.after.mm j h,
              bit_or-page j (granted_attr attr) h (granted_attr-IsAttr attr a),
            )
            (unfold entered x counts in refl);
      valid = entered_map;
      pte = pte;
      here = entered_here;
      others = entered_others invalid;
      counted = unfold entered counts in rw w.extends.counts refl;
    }

    taken : pd_invalid (w.after.words pte) ≡ false → IsPresent m pgd v (w.after.words pte) pte
    unfolding pte
    taken valid = elim w.origin [
      | inr blank ↦ absurd_bool valid (blank (pte_index v) (pte_index-lt v))
      | inl r ↦
          let r' : walk m pgd v false ≡ ok (m, some pte) = unfold walk in rw i.place r in
          let (k, e, at) = IsPresent-entry m pgd v pte i r' in
          let kept : w.after.words (entry (page k) (pte_index v))
              ≡ m.words (entry (page k) (pte_index v)) =
            elim (w.extends.keeps k (pte_index v) (i.tree.in_use k 0 e).1 (pte_index-lt v)) [
              | inl same ↦ same
              | inr (n, e', z) ↦ cc
            ] in
          let same : w.after.words pte ≡ m.words pte =
            subst (λ (p : ℕ). w.after.words p ≡ m.words p) (sym at) kept in
          (r', ap pd_invalid (sym same) ∙ valid, sym same)
    ]

  -- `map` into a valid map, of a page of the zone, with the attributes of a valid descriptor,
  -- which have no bit where the address stands. Either the map is valid afterwards, the address
  -- is mapped to the page with the attributes, made copy-on-write unless they are read-only,
  -- every address that was mapped is so by the same descriptor, and the count of the page is one
  -- higher; or `map` panics, since the address was mapped; or the run stops: it has taken fewer
  -- pages, by `get_free_page`, than there were tables missing on the way to the address, and then no
  -- page was free.
  pub map-Mapped :
      Mapped m pgd v j attr (map m pgd v (page j) attr)
      ⊎ ((map m pgd v (page j) attr ≡ panic) × ((d p : ℕ) × IsPresent m pgd v d p))
      ⊎ Stopped (upper_indices v) m pgd (map m pgd v (page j) attr)
  unfolding map
  map-Mapped = elim walked [
    | inr (n, s, few, took, held, (full, stops)) ↦ inr (
        inr (
          n,
          s,
          few,
          took,
          held,
          (full, elim stops [ inl p ↦ inl (rw (map, p) refl) | inr p ↦ inr (rw (map, p) refl) ]),
        ))
    | inl w ↦
        let p : ℕ = entry (page w.table) (pte_index v) in
        elim (Bool-cases (pd_invalid (w.after.words p))) [
          | inl invalid ↦ inl (rw (w.runs, map) (unfold pte in fresh_entry w invalid))
          | inr valid ↦ inr (
              inl (
                unfold map_entry in rw (w.runs, map, valid, map_entry) refl,
                (w.after.words p, p, unfold pte in taken w valid),
              ))
        ]
  ]
