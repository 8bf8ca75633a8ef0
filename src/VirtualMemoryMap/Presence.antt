-- ===== src/VirtualMemoryMap/Presence.antt =====
-- Which addresses are mapped, and what keeps them so.
use Prim.{tt}
use valkyrie.Base.{
  ℕ, ◌/◌, ◌%◌, ◌^◌, ◌<◌, ◌≡◌, refl, sym, ap, subst, ◌∙◌, ◌⊎◌, inl, inr, false, Option, none, some,
  length, ◌==◌, arith, Bool-cases,
}
use valkyrie.Base.Maps.{update}
use valkyrie.Base.Outcome.{Outcome, ok}
use valkyrie.MemoryManager.Pages.{page}
use valkyrie.VirtualMemoryMap.{Machine, entry, pd_invalid, page_of, upper_indices, pte_index, walk}
use valkyrie.VirtualMemoryMap.Entries.{entry_inj}
use valkyrie.VirtualMemoryMap.Trees.{Levels, Indices, IsTree, Extends, Keeps, Extends-Keeps}
use valkyrie.VirtualMemoryMap.Walks.{walk_loop-look, walk_loop-Keeps}

pub upper_indices-Indices : (v : ℕ) → Indices (upper_indices v)
unfolding upper_indices
upper_indices-Indices v = (omega arith, (omega arith, (omega arith, tt)))

pub pte_index-lt : (v : ℕ) → pte_index v < 512
unfolding pte_index
pte_index-lt v = omega arith

pub three : (v : ℕ) → length (upper_indices v) ≡ 3
unfolding upper_indices
three v = refl

-- Addresses in the same page take the same way.
pub same_page :
    (v v' : ℕ)
    → v' / 2 ^ 12 ≡ v / 2 ^ 12
    → (upper_indices v' ≡ upper_indices v) × (pte_index v' ≡ pte_index v)
unfolding upper_indices pte_index
same_page v v' e =
    let a : v' / 2 ^ 39 % 512 ≡ v / 2 ^ 39 % 512 = omega (arith, e) in
    let b : v' / 2 ^ 30 % 512 ≡ v / 2 ^ 30 % 512 = omega (arith, e) in
    let c : v' / 2 ^ 21 % 512 ≡ v / 2 ^ 21 % 512 = omega (arith, e) in
    (rw (a, b, c) refl, ap (λ (t : ℕ). t % 512) e)

module _ {Slob : Type 0} where
  -- The page tables whose topmost one is at `pgd`.
  pub record IsMap (m : Machine Slob) (pgd : ℕ) : Type 0 where
    pub levels : Levels
    pub root : ℕ
    pub top : levels root ≡ some 3
    pub place : pgd ≡ page root
    pub tree : IsTree m levels

  -- The address is mapped, by this descriptor at this place.
  abbrev pub IsPresent : Machine Slob → ℕ → ℕ → ℕ → ℕ → Type 0
  IsPresent m pgd v d pte =
      (walk m pgd v false ≡ ok (m, some pte))
      × (pd_invalid (m.words pte) ≡ false)
      × (m.words pte ≡ d)

  -- The state with the counts of pages and one word replaced.
  abbrev pub patched : Machine Slob → (ℕ → ℕ) → ℕ → ℕ → Machine Slob
  patched m counts p x = record {
    mm = record m.mm { ref_counts = counts };
    words = update m.words p x;
  }

  -- A write to a table of the last level touches no descriptor of an upper one.
  pub patched-Keeps :
      (m : Machine Slob) (levels : Levels) (counts : ℕ → ℕ) (k i x : ℕ)
      → levels k ≡ some 0
      → i < 512
      → Keeps m (patched m counts (entry (page k) i) x) levels
  patched-Keeps m levels counts k i x e lt a h j e' lj valid =
      elim (Bool-cases (entry (page k) i == entry (page a) j)) [
        | inr ne ↦ rw ne refl
        | inl eq ↦
            let same : entry (page k) i ≡ entry (page a) j = ground arith in
            let ka : k ≡ a = (entry_inj k i a j lt lj same).0 in
            let e'' : levels a ≡ some 0 = subst (λ (b : ℕ). levels b ≡ some 0) ka e in absurd (cc)
      ]

  pub patched-IsTree :
      (m : Machine Slob) (levels : Levels) (counts : ℕ → ℕ) (k i x : ℕ)
      → IsTree m levels
      → levels k ≡ some 0
      → i < 512
      → IsTree (patched m counts (entry (page k) i) x) levels
  patched-IsTree m levels counts k i x t e lt = record {
    consistent = record {
      valid = t.consistent.valid;
      zone = t.consistent.zone;
      unique = t.consistent.unique;
      known = t.consistent.known;
    };
    in_use = t.in_use;
    below = λ a h j e' lj valid. elim (Bool-cases (entry (page k) i == entry (page a) j)) [
      | inr ne ↦
          let word : update m.words (entry (page k) i) x (entry (page a) j)
              ≡ m.words (entry (page a) j) =
            rw ne refl in
          let (k', leads, at) = t.below a h j e' lj (ap pd_invalid (sym word) ∙ valid) in
          (k', ap page_of word ∙ leads, at)
      | inl eq ↦
          let same : entry (page k) i ≡ entry (page a) j = ground arith in
          let ka : k ≡ a = (entry_inj k i a j lt lj same).0 in
          let e'' : levels a ≡ some 0 = subst (λ (b : ℕ). levels b ≡ some 0) ka e in absurd (cc)
    ];
  }

  -- A walk from the topmost table of a map.
  pub walk-look :
      (m : Machine Slob) (pgd v : ℕ) (i : IsMap m pgd)
      → (walk m pgd v false ≡ ok (m, none))
        ⊎ ((k : ℕ) × (i.levels k ≡ some 0)
            × (walk m pgd v false ≡ ok (m, some (entry (page k) (pte_index v)))))
  unfolding walk
  walk-look m pgd v i = rw i.place (
      walk_loop-look (pte_index v) (upper_indices v) m i.levels i.root i.tree
        (i.top ∙ ap some (sym (three v))) (upper_indices-Indices v))

  pub walk-Keeps :
      (m m' : Machine Slob) (pgd v p : ℕ) (i : IsMap m pgd)
      → Keeps m m' i.levels
      → walk m pgd v false ≡ ok (m, some p)
      → walk m' pgd v false ≡ ok (m', some p)
  unfolding walk
  walk-Keeps m m' pgd v p i kp r = rw i.place (
      walk_loop-Keeps (pte_index v) (upper_indices v) m m' i.levels i.root p i.tree kp
        (i.top ∙ ap some (sym (three v))) (upper_indices-Indices v) (rw i.place at r))

  -- The entry that an address has: at a table of the last level.
  pub IsPresent-entry :
      (m : Machine Slob) (pgd v p : ℕ) (i : IsMap m pgd)
      → walk m pgd v false ≡ ok (m, some p)
      → (k : ℕ) × (i.levels k ≡ some 0) × (p ≡ entry (page k) (pte_index v))
  IsPresent-entry m pgd v p i r = elim (walk-look m pgd v i) [
    | inl e ↦
        let bad : Path (Outcome (Machine Slob × Option ℕ)) (ok (m, none)) (ok (m, some p)) =
          sym e ∙ r in
        absurd (cc)
    | inr (k, e, r') ↦
        let both : Path (Outcome (Machine Slob × Option ℕ)) (ok (m, some p))
            (ok (m, some (entry (page k) (pte_index v)))) =
          sym r ∙ r' in
        (k, e, cc)
  ]

  -- A write to another entry of the last level leaves an address as it is mapped.
  pub IsPresent-patched :
      (m : Machine Slob) (pgd : ℕ) (i : IsMap m pgd) (counts : ℕ → ℕ) (k j x : ℕ)
      → i.levels k ≡ some 0
      → j < 512
      → (v d pte : ℕ) → IsPresent m pgd v d pte
      → (entry (page k) j == pte) ≡ false
      → IsPresent (patched m counts (entry (page k) j) x) pgd v d pte
  IsPresent-patched m pgd i counts k j x e lj v d pte (r, valid, word) ne =
      let same : (patched m counts (entry (page k) j) x).words pte ≡ m.words pte = rw ne refl in
      (
        walk-Keeps m (patched m counts (entry (page k) j) x) pgd v pte i
            (patched-Keeps m i.levels counts k j x e lj) r,
        ap pd_invalid same ∙ valid,
        same ∙ word,
      )

  -- The addresses that are mapped before a walk that makes tables are so afterwards.
  pub IsPresent-Extends :
      (m m' : Machine Slob) (pgd : ℕ) (i : IsMap m pgd) (levels' : Levels)
      → Extends m m' i.levels levels'
      → (v d pte : ℕ) → IsPresent m pgd v d pte
      → IsPresent m' pgd v d pte
  IsPresent-Extends m m' pgd i levels' x v d pte (r, valid, word) =
      let (k, e, at) = IsPresent-entry m pgd v pte i r in
      let kept : m'.words (entry (page k) (pte_index v)) ≡ m.words (entry (page k) (pte_index v)) =
        elim (x.keeps k (pte_index v) (i.tree.in_use k 0 e).1 (pte_index-lt v)) [
          | inl same ↦ same
          | inr (h, e', z) ↦ cc
        ] in
      let same : m'.words pte ≡ m.words pte =
        subst (λ (p : ℕ). m'.words p ≡ m.words p) (sym at) kept in
      (
        walk-Keeps m m' pgd v pte i (Extends-Keeps m m' i.levels levels' i.tree x) r,
        ap pd_invalid same ∙ valid,
        same ∙ word,
      )
