-- ===== src/VirtualMemoryMap/Stops.antt =====
-- Walks that stop for want of a page.
use valkyrie.Base.{
  ℕ, zero, suc, ◌<◌, ◌≡◌, refl, subst, inl, inr, true, List, [], ◌∷◌, length, if◌then◌else◌, arith,
}
use valkyrie.Base.Outcome.{Outcome, ok}
use valkyrie.MemoryManager.{MemoryManager, get_free_page}
use valkyrie.MemoryManager.Pages.{page}
use valkyrie.VirtualMemoryMap.{Machine, entry, pd_invalid, page_of, walk_round}
use valkyrie.VirtualMemoryMap.Frames.{Exhausted}
use valkyrie.VirtualMemoryMap.Trees.{Levels, Indices, Held, IsBlank, Stepped}

module _ {Slob : Type 0} where
  -- How many tables a walk along the indices lacks.
  abbrev pub missing : List ℕ → Machine Slob → ℕ → ℕ
  missing [] m table = 0
  missing (i ∷ is) m table =
      let rest = missing is m (page_of (m.words (entry table i))) in
      if pd_invalid (m.words (entry table i)) then suc (length is) else rest

  -- The memory manager `s` is what `mm` is after it has handed out so many pages, by `get_free_page`.
  abbrev pub Took : ℕ → MemoryManager Slob → MemoryManager Slob → Type 0
  Took zero mm s = mm ≡ s
  Took (suc n) mm s =
      (mm' : MemoryManager Slob) × (p : ℕ) × (get_free_page mm true ≡ ok (mm', p)) × Took n mm' s

  -- The run stops. It has taken fewer pages than the walk from the table lacked, and then no page was
  -- free; the pages in use before were so still.
  abbrev pub Stopped {ℓ} : {A : Type ℓ} → List ℕ → Machine Slob → ℕ → Outcome A → Type ℓ
  Stopped is m table out =
      (taken : ℕ) × (s : MemoryManager Slob) × (taken < missing is m table)
      × Took taken m.mm s
      × ((k : ℕ) → Held m.mm k → Held s k)
      × Exhausted s out

  missing_blank :
      (is : List ℕ) (m : Machine Slob) (k : ℕ)
      → IsBlank m k
      → Indices is
      → missing is m (page k) ≡ length is
  missing_blank [] m k b lt = refl
  missing_blank (i ∷ is) m k b (lt, ls) = rw (b i lt) refl

  -- The rest of the run stops, behind a round.
  pub Stopped-cons :
      {A : Type 0} (i : ℕ) (is : List ℕ) (m : Machine Slob) (levels : Levels) (k : ℕ)
      (s : Stepped m levels k i (length is) (walk_round m true (page k) i)) (out : Outcome A)
      → Indices is
      → Stopped is s.after (page s.next) out
      → Stopped (i ∷ is) m (page k) out
  Stopped-cons i is m levels k s out ls (taken, mm, few, took, held, stops) = elim s.origin [
    | inl (same, valid) ↦
        let leads : page_of (m.words (entry (page k) i)) ≡ page s.next =
          subst (λ (x : Machine Slob). page_of (x.words (entry (page k) i)) ≡ page s.next) same
            s.leads in
        (
          taken,
          mm,
          rw (valid, leads)
              (subst (λ (x : Machine Slob). taken < missing is x (page s.next)) same few),
          subst (λ (x : Machine Slob). Took taken x.mm mm) same took,
          λ j u. held j (s.extends.held j u),
          stops,
        )
    | inr (blank, invalid, got) ↦
        let all = missing_blank is s.after s.next blank ls in
        (
          suc taken,
          mm,
          rw invalid (omega (arith, few, all)),
          (s.after.mm, page s.next, got, took),
          λ j u. held j (s.extends.held j u),
          stops,
        )
  ]
