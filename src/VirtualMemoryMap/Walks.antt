-- ===== src/VirtualMemoryMap/Walks.antt =====
-- Walks over the tables of a map.
use valkyrie.Base.{
  ℕ, suc, ◌<◌, ◌≡◌, refl, sym, subst, ◌⊎◌, inl, inr, true, false, Option, none, some, List, [], ◌∷◌,
  length, arith, Bool-cases,
}
use valkyrie.Base.Outcome.{Outcome, ok}
use valkyrie.MemoryManager.Pages.{page}
use valkyrie.VirtualMemoryMap.{Machine, entry, pd_invalid, page_of, walk_round, walk_loop}
use valkyrie.VirtualMemoryMap.Trees.{
  Levels, Indices, IsTree, Extends, Extends-refl, Extends-trans, Keeps, Extends-Keeps, IsBlank,
  Stepped,
}
use valkyrie.VirtualMemoryMap.Links.{walk_round-Stepped}
use valkyrie.VirtualMemoryMap.Stops.{Stopped, Stopped-cons}

module _ {Slob : Type 0} (last : ℕ) where
  -- A walk that makes no table leaves the state as it is. It ends at an entry of a table of the last
  -- level, or at none.
  pub walk_loop-look :
      (is : List ℕ) (m : Machine Slob) (levels : Levels) (k : ℕ)
      → IsTree m levels
      → levels k ≡ some (length is)
      → Indices is
      → (walk_loop false is last m (page k) ≡ ok (m, none))
        ⊎ ((k' : ℕ) × (levels k' ≡ some 0)
            × (walk_loop false is last m (page k) ≡ ok (m, some (entry (page k') last))))
  unfolding walk_loop walk_round
  walk_loop-look [] m levels k t e lt = inr (k, e, refl)
  walk_loop-look (i ∷ is) m levels k t e (lt, ls) =
      elim (Bool-cases (pd_invalid (m.words (entry (page k) i)))) [
        | inl invalid ↦ inl (rw (walk_loop, walk_round, invalid) refl)
        | inr valid ↦
            let (k', leads, at) = t.below k (length is) i e lt valid in
            rw (walk_loop, walk_round, valid, leads) (walk_loop-look is m levels k' t at ls)
      ]

  -- Where the valid descriptors of upper tables are kept, a walk finds what it found.
  pub walk_loop-Keeps :
      (is : List ℕ) (m m' : Machine Slob) (levels : Levels) (k p : ℕ)
      → IsTree m levels
      → Keeps m m' levels
      → levels k ≡ some (length is)
      → Indices is
      → walk_loop false is last m (page k) ≡ ok (m, some p)
      → walk_loop false is last m' (page k) ≡ ok (m', some p)
  unfolding walk_loop walk_round
  walk_loop-Keeps [] m m' levels k p t kp e lt r = cc
  walk_loop-Keeps (i ∷ is) m m' levels k p t kp e (lt, ls) r =
      elim (Bool-cases (pd_invalid (m.words (entry (page k) i)))) [
        | inl invalid ↦
            let bad : Path (Outcome (Machine Slob × Option ℕ)) (ok (m, none)) (ok (m, some p)) =
              (rw (walk_loop, walk_round, invalid) at r) in
            absurd (cc)
        | inr valid ↦
            let (k', leads, at) = t.below k (length is) i e lt valid in
            let same = kp k (length is) i e lt valid in
            let r' : walk_loop false is last m (page k') ≡ ok (m, some p) =
              (rw (walk_loop, walk_round, valid, leads) at r) in
            rw (walk_loop, walk_round, same, valid, leads)
              (walk_loop-Keeps is m m' levels k' p t kp at ls r')
      ]

  -- A walk that makes tables: it ends at an entry of a table of the last level, where a walk that makes
  -- none finds it afterwards.
  pub record Walked (is : List ℕ) (m : Machine Slob) (levels : Levels) (k : ℕ)
      (out : Outcome (Machine Slob × Option ℕ)) : Type 0 where
    pub after : Machine Slob
    pub levels' : Levels
    pub table : ℕ
    pub runs : out ≡ ok (after, some (entry (page table) last))
    pub tree : IsTree after levels'
    pub extends : Extends m after levels levels'
    pub at : levels' table ≡ some 0
    pub origin :
        (walk_loop false is last m (page k) ≡ ok (m, some (entry (page table) last)))
        ⊎ IsBlank after table
    pub again : walk_loop false is last after (page k) ≡ ok (after, some (entry (page table) last))

  -- A walk that starts at a blank table ends there, or finds nothing.
  from_IsBlank :
      (is : List ℕ) (m after : Machine Slob) (k table : ℕ)
      → IsBlank m k
      → Indices is
      → walk_loop true is last m (page k) ≡ ok (after, some (entry (page table) last))
      → walk_loop false is last m (page k) ≡ ok (m, some (entry (page table) last))
      → IsBlank after table
  unfolding walk_loop walk_round
  from_IsBlank [] m after k table blank lt runs r =
      let same : Path (Option ℕ) (some (entry (page k) last)) (some (entry (page table) last)) =
        cc in
      let at : entry (page k) last ≡ entry (page table) last = cc in
      let kt : k ≡ table = omega (arith, at) in
      let ma : m ≡ after = cc in subst (λ x. IsBlank x table) ma (subst (IsBlank m) kt blank)
  from_IsBlank (i ∷ is) m after k table blank (lt, ls) runs r =
      let bad : Path (Outcome (Machine Slob × Option ℕ)) (ok (m, none))
          (ok (m, some (entry (page table) last))) =
        (rw (walk_loop, walk_round, blank i lt) at r) in
      absurd (cc)

  -- The rest of the walk begins at a table that was there, or at a blank one.
  origin_cons :
      (i : ℕ) (is : List ℕ) (m : Machine Slob) (levels : Levels) (k : ℕ)
      (s : Stepped m levels k i (length is) (walk_round m true (page k) i)) (after : Machine Slob)
      (table : ℕ)
      → Indices is
      → walk_loop true is last s.after (page s.next) ≡ ok (after, some (entry (page table) last))
      → (walk_loop false is last s.after (page s.next)
          ≡ ok (s.after, some (entry (page table) last)))
        ⊎ IsBlank after table
      → (walk_loop false (i ∷ is) last m (page k) ≡ ok (m, some (entry (page table) last)))
        ⊎ IsBlank after table
  origin_cons i is m levels k s after table ls runs (inr blank) = inr blank
  origin_cons i is m levels k s after table ls runs (inl r) = elim s.origin [
    | inr (blank, invalid, got) ↦ inr (from_IsBlank is s.after after s.next table blank ls runs r)
    | inl (same, valid) ↦
        let leads : page_of (m.words (entry (page k) i)) ≡ page s.next =
          subst (λ (x : Machine Slob). page_of (x.words (entry (page k) i)) ≡ page s.next) same
            s.leads in
        let r' : walk_loop false is last m (page s.next) ≡ ok (m, some (entry (page table) last)) =
          subst
            (λ (x : Machine Slob).
              walk_loop false is last x (page s.next) ≡ ok (x, some (entry (page table) last)))
            same r in
        inl (unfold walk_loop walk_round in rw (walk_loop, walk_round, valid, leads) r')
  ]

  Walked-cons :
      (i : ℕ) (is : List ℕ) (m : Machine Slob) (levels : Levels) (k : ℕ)
      → levels k ≡ some (suc (length is))
      → i < 512
      → Indices is
      → (s : Stepped m levels k i (length is) (walk_round m true (page k) i))
      → Walked is s.after s.levels' s.next (walk_loop true is last s.after (page s.next))
      → Walked (i ∷ is) m levels k (walk_loop true (i ∷ is) last m (page k))
  unfolding walk_loop
  Walked-cons i is m levels k e lt ls s w = record {
    after = w.after;
    levels' = w.levels';
    table = w.table;
    runs = rw (s.runs, walk_loop) w.runs;
    tree = w.tree;
    extends = Extends-trans s.extends w.extends;
    at = w.at;
    origin = origin_cons i is m levels k s w.after w.table ls w.runs w.origin;
    again =
        (let kept : w.after.words (entry (page k) i) ≡ s.after.words (entry (page k) i) =
            Extends-Keeps s.after w.after s.levels' w.levels' s.tree w.extends k (length is) i
              (s.extends.grows k (suc (length is)) e) lt s.valid in
          unfold walk_round in rw (walk_loop, walk_round, kept, s.valid, s.leads) w.again);
  }

  pub walk_loop-Walked :
      (is : List ℕ) (m : Machine Slob) (levels : Levels) (k : ℕ)
      → IsTree m levels
      → levels k ≡ some (length is)
      → Indices is
      → Walked is m levels k (walk_loop true is last m (page k))
        ⊎ Stopped is m (page k) (walk_loop true is last m (page k))
  unfolding walk_loop
  walk_loop-Walked [] m levels k t e lt = inl (record {
    after = m;
    levels' = levels;
    table = k;
    runs = refl;
    tree = t;
    extends = Extends-refl m levels;
    at = e;
    origin = inl refl;
    again = refl;
  })
  walk_loop-Walked (i ∷ is) m levels k t e (lt, ls) =
      elim (walk_round-Stepped m levels t k (length is) i e lt) [
        | inr (invalid, (full, stops)) ↦ inr (
          0,
          m.mm,
          rw invalid (omega arith),
          refl,
          λ j u. u,
          (
            full,
            elim stops [
              | inl p ↦ inl (rw (p, walk_loop) refl)
              | inr p ↦ inr (rw (p, walk_loop) refl)
            ],
          ),
        )
        | inl s ↦ elim (walk_loop-Walked is s.after s.levels' s.next s.tree s.at ls) [
          | inl w ↦ inl (Walked-cons i is m levels k e lt ls s w)
          | inr stops ↦
              let runs : walk_loop true (i ∷ is) last m (page k)
                  ≡ walk_loop true is last s.after (page s.next) =
                rw (s.runs, walk_loop) refl in
              inr (
                subst (Stopped (i ∷ is) m (page k)) (sym runs)
                  (Stopped-cons i is m levels k s _ ls stops))
        ]
      ]
