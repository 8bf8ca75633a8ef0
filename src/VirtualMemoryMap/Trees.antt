-- ===== src/VirtualMemoryMap/Trees.antt =====
-- The tables of a map, and what a walk may do to them.
use Prim.{Unit}
use valkyrie.Base.{
  ℕ, suc, ◌<◌, ◌≡◌, refl, sym, ap, ◌∙◌, ◌⊎◌, inl, inr, Bool, true, false, Option, some, List, [],
  ◌∷◌,
}
use valkyrie.Base.Outcome.{Outcome, ok}
use valkyrie.Buddy.{nr_pages}
use valkyrie.Buddy.Grants.{is_allocated}
use valkyrie.MemoryManager.{MemoryManager, get_free_page}
use valkyrie.MemoryManager.Pages.{page, IsConsistent}
use valkyrie.VirtualMemoryMap.{Machine, entry, pd_invalid, page_of}

-- The pages that hold tables, with the number of levels below each.
abbrev pub Levels : Type 0
Levels = ℕ → Option ℕ

-- All the indices are those of entries.
abbrev pub Indices : List ℕ → Type 0
Indices [] = Unit
Indices (i ∷ is) = (i < 512) × Indices is

pub absurd_bool {ℓ} : {A : Type ℓ} {b : Bool} → b ≡ false → b ≡ true → A
absurd_bool e f = absurd (cc)

module _ {Slob : Type 0} where
  abbrev pub Held : MemoryManager Slob → ℕ → Type 0
  Held m k = is_allocated (m.buddy.frame_array k) ≡ true

  -- The tables are pages in use, and a valid descriptor of an upper table leads to a table one level
  -- below.
  pub record IsTree (m : Machine Slob) (levels : Levels) : Type 0 where
    pub consistent : IsConsistent m.mm
    pub in_use : (k h : ℕ) → levels k ≡ some h → (k < nr_pages) × Held m.mm k
    pub below :
        (k h i : ℕ)
        → levels k ≡ some (suc h)
        → i < 512
        → pd_invalid (m.words (entry (page k) i)) ≡ false
        → (k' : ℕ) × (page_of (m.words (entry (page k) i)) ≡ page k') × (levels k' ≡ some h)

  -- What a walk may do: it takes free pages for new tables, and sets invalid descriptors of upper tables.
  pub record Extends (m m' : Machine Slob) (levels levels' : Levels) : Type 0 where
    pub held : (k : ℕ) → Held m.mm k → Held m'.mm k
    pub counts : m'.mm.ref_counts ≡ m.mm.ref_counts
    pub grows : (k h : ℕ) → levels k ≡ some h → levels' k ≡ some h
    pub new : (k h : ℕ) → levels' k ≡ some h → Held m.mm k → levels k ≡ some h
    pub keeps :
        (k i : ℕ)
        → Held m.mm k
        → i < 512
        → (m'.words (entry (page k) i) ≡ m.words (entry (page k) i))
          ⊎ ((h : ℕ) × (levels k ≡ some (suc h)) × (pd_invalid (m.words (entry (page k) i)) ≡ true))

  -- The valid descriptors of upper tables are the same.
  abbrev pub Keeps : Machine Slob → Machine Slob → Levels → Type 0
  Keeps m m' levels =
      (k h i : ℕ)
      → levels k ≡ some (suc h)
      → i < 512
      → pd_invalid (m.words (entry (page k) i)) ≡ false
      → m'.words (entry (page k) i) ≡ m.words (entry (page k) i)

  pub Extends-refl : (m : Machine Slob) (levels : Levels) → Extends m m levels levels
  Extends-refl m levels = record {
    held = λ k h. h;
    counts = refl;
    grows = λ k h e. e;
    new = λ k h e u. e;
    keeps = λ k i u l. inl refl;
  }

  pub Extends-trans :
      {m m1 m2 : Machine Slob} {l l1 l2 : Levels}
      → Extends m m1 l l1
      → Extends m1 m2 l1 l2
      → Extends m m2 l l2
  Extends-trans a b = record {
    held = λ k h. b.held k (a.held k h);
    counts = b.counts ∙ a.counts;
    grows = λ k h e. b.grows k h (a.grows k h e);
    new = λ k h e u. a.new k h (b.new k h e (a.held k u)) u;
    keeps = λ k i u lt. elim (a.keeps k i u lt) [
      | inr changed ↦ inr changed
      | inl same ↦ elim (b.keeps k i (a.held k u) lt) [
        | inl same' ↦ inl (same' ∙ same)
        | inr (h, e, z) ↦ inr (h, a.new k (suc h) e u, ap pd_invalid (sym same) ∙ z)
      ]
    ];
  }

  pub Extends-Keeps :
      (m m' : Machine Slob) (levels levels' : Levels)
      → IsTree m levels
      → Extends m m' levels levels'
      → Keeps m m' levels
  Extends-Keeps m m' levels levels' t x k h i e lt valid =
      elim (x.keeps k i (t.in_use k (suc h) e).1 lt) [ inl same ↦ same | inr (h', e', z) ↦ cc ]

  -- No entry of the table is valid.
  abbrev pub IsBlank : Machine Slob → ℕ → Type 0
  IsBlank m k = (j : ℕ) → j < 512 → pd_invalid (m.words (entry (page k) j)) ≡ true

  -- One round: the table of the next level, which the descriptor names now.
  pub record Stepped (m : Machine Slob) (levels : Levels) (k i h : ℕ)
      (out : Outcome (Machine Slob × Option ℕ)) : Type 0 where
    pub after : Machine Slob
    pub levels' : Levels
    pub next : ℕ
    pub runs : out ≡ ok (after, some (page next))
    pub tree : IsTree after levels'
    pub extends : Extends m after levels levels'
    pub at : levels' next ≡ some h
    pub valid : pd_invalid (after.words (entry (page k) i)) ≡ false
    pub leads : page_of (after.words (entry (page k) i)) ≡ page next
    pub origin :
        ((after ≡ m) × (pd_invalid (m.words (entry (page k) i)) ≡ false))
        ⊎ (IsBlank after next
            × (pd_invalid (m.words (entry (page k) i)) ≡ true)
            × (get_free_page m.mm true ≡ ok (after.mm, page next)))
