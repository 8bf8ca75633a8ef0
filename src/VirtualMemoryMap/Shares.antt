-- ===== src/VirtualMemoryMap/Shares.antt =====
-- How `copy_from` shares the pages of a table of the last level.
use valkyrie.Base.{
  ℕ, zero, suc, ◌+◌, ◌%◌, ◌^◌, ◌<◌, ◌≤◌, ◌≡◌, ◌≢◌, refl, sym, ap, subst, ◌∙◌, inl, inr, true, false,
  not, ◌&&◌, ◌==◌, if◌then◌else◌, arith, Bool-cases, bit_or,
}
use valkyrie.Base.Bits.{set_bit}
use valkyrie.Base.Outcome.{Outcome, ok, ◌>>=◌}
use valkyrie.Buddy.{nr_pages}
use valkyrie.MemoryManager.{MemoryManager}
use valkyrie.MemoryManager.Pages.{page}
use valkyrie.VirtualMemoryMap.{Machine, entry, pd_invalid, page_of, user_page_rx, pd_cow_page}
use valkyrie.VirtualMemoryMap.Entries.{bit_or-page, entry_inj}

-- The descriptor that both tables get: read-only and copy-on-write.
abbrev pub shared : ℕ → ℕ
shared j = page j + user_page_rx + 2 ^ pd_cow_page

pub shared_lem :
    (j : ℕ) → j < nr_pages → set_bit pd_cow_page (bit_or (page j) user_page_rx) ≡ shared j
shared_lem j h =
    let sum : bit_or (page j) user_page_rx ≡ page j + user_page_rx =
      bit_or-page j user_page_rx h (omega arith) in
    rw sum (ground (arith, h))

-- How many of `n` entries from the `i`-th on lead to page `j`.
unfoldable pub uses : (ℕ → ℕ) → ℕ → ℕ → ℕ → ℕ → ℕ
uses words a zero i j = 0
uses words a (suc n) i j =
    (if not (pd_invalid (words (entry (page a) i)))
        && (page_of (words (entry (page a) i)) == page j)
      then 1
      else 0)
    + uses words a n (i + 1) j

uses-ext :
    (words words' : ℕ → ℕ) (a n i j : ℕ)
    → ((k : ℕ) → i ≤ k → k < i + n → words' (entry (page a) k) ≡ words (entry (page a) k))
    → uses words' a n i j ≡ uses words a n i j
unfolding uses
uses-ext words words' a zero i j h = refl
uses-ext words words' a (suc n) i j h =
    let here = h i (omega arith) (omega arith) in
    rw
      (
        here,
        uses-ext words words' a n (i + 1) j
            (λ k lo hi. h k (omega (arith, lo)) (omega (arith, hi))),
      )
      refl

module _ (a b : ℕ) (apart : a ≢ b) where
  pub entries_apart :
      (i k : ℕ)
      → i < 512
      → k < 512
      → i ≢ k
      → (entry (page a) k ≢ entry (page a) i)
        × (entry (page b) k ≢ entry (page a) i)
        × (entry (page a) k ≢ entry (page b) i)
        × (entry (page b) k ≢ entry (page b) i)
  entries_apart i k hi hk ne = (
    λ e. ne (sym (entry_inj a k a i hk hi e).1),
    λ e. apart (sym (entry_inj b k a i hk hi e).0),
    λ e. apart (entry_inj a k b i hk hi e).0,
    λ e. ne (sym (entry_inj b k b i hk hi e).1),
  )

module _ {Slob : Type 0} (a b : ℕ) (apart : a ≢ b) where
  -- The valid ones of the entries lead to pages of the zone.
  abbrev pub LeadsToPages : Machine Slob → ℕ → ℕ → Type 0
  LeadsToPages m n i =
      (k : ℕ)
      → i ≤ k
      → k < i + n
      → pd_invalid (m.words (entry (page a) k)) ≡ false
      → (j : ℕ) × (j < nr_pages) × (page_of (m.words (entry (page a) k)) ≡ page j)

  -- The entries from the `i`-th on are shared: an invalid one is left, a valid one is the same
  -- read-only, copy-on-write descriptor in both tables, and each page has as many more references as
  -- entries that lead to it.
  pub record Shared (m : Machine Slob) (n i : ℕ) (out : Outcome (Machine Slob)) : Type 0 where
    pub after : Machine Slob
    pub runs : out ≡ ok after
    pub invalid :
        (k : ℕ)
        → i ≤ k
        → k < i + n
        → pd_invalid (m.words (entry (page a) k)) ≡ true
        → (after.words (entry (page a) k) ≡ m.words (entry (page a) k))
          × (after.words (entry (page b) k) ≡ m.words (entry (page b) k))
    pub valid :
        (k j : ℕ)
        → i ≤ k
        → k < i + n
        → j < nr_pages
        → pd_invalid (m.words (entry (page a) k)) ≡ false
        → page_of (m.words (entry (page a) k)) ≡ page j
        → (after.words (entry (page a) k) ≡ shared j) × (after.words (entry (page b) k) ≡ shared j)
    pub others :
        (p : ℕ)
        → ((k : ℕ) → i ≤ k → k < i + n → (entry (page a) k ≢ p) × (entry (page b) k ≢ p))
        → after.words p ≡ m.words p
    pub counted :
        (j : ℕ)
        → j < nr_pages
        → after.mm.ref_counts j % 2 ^ 32 ≡ (m.mm.ref_counts j + uses m.words a n i j) % 2 ^ 32
    pub mm : after.mm ≡ record m.mm { ref_counts = after.mm.ref_counts }

  module _ (m : Machine Slob) (n i : ℕ) (fits : i + suc n ≤ 512) (out : Outcome (Machine Slob))
      (k : Machine Slob → Outcome (Machine Slob)) (s : Shared m 1 i out)
      (t : Shared s.after n (i + 1) (k s.after)) where
    -- The first entry is not touched again, and the others have not been touched before.
    first_kept :
        (t.after.words (entry (page a) i) ≡ s.after.words (entry (page a) i))
        × (t.after.words (entry (page b) i) ≡ s.after.words (entry (page b) i))
    first_kept = (
      t.others (entry (page a) i) λ j lo hi.
          let x =
            entries_apart a b apart i j (omega (arith, fits)) (omega (arith, fits, hi))
              (λ e. absurd (omega (arith, lo, e))) in
          (x.0, x.1),
      t.others (entry (page b) i) λ j lo hi.
          let x =
            entries_apart a b apart i j (omega (arith, fits)) (omega (arith, fits, hi))
              (λ e. absurd (omega (arith, lo, e))) in
          (x.2, x.3),
    )

    later_kept :
        (j : ℕ)
        → i + 1 ≤ j
        → j < i + suc n
        → (s.after.words (entry (page a) j) ≡ m.words (entry (page a) j))
          × (s.after.words (entry (page b) j) ≡ m.words (entry (page b) j))
    later_kept j lo hi = (
      s.others (entry (page a) j) λ l lo' hi'.
          let x =
            entries_apart a b apart j l (omega (arith, fits, hi)) (omega (arith, fits, hi'))
              (λ e. absurd (omega (arith, lo, hi', e))) in
          (x.0, x.1),
      s.others (entry (page b) j) λ l lo' hi'.
          let x =
            entries_apart a b apart j l (omega (arith, fits, hi)) (omega (arith, fits, hi'))
              (λ e. absurd (omega (arith, lo, hi', e))) in
          (x.2, x.3),
    )

    both_invalid :
        (j : ℕ)
        → i ≤ j
        → j < i + suc n
        → pd_invalid (m.words (entry (page a) j)) ≡ true
        → (t.after.words (entry (page a) j) ≡ m.words (entry (page a) j))
          × (t.after.words (entry (page b) j) ≡ m.words (entry (page b) j))
    both_invalid j lo hi z = elim (Bool-cases (j == i)) [
      | inl e ↦
          let ji : i ≡ j = ground (arith, e) in
          let (p, q) = s.invalid j lo (omega (arith, ji)) z in
          let (f, g) =
            subst
              (λ (l : ℕ).
                (t.after.words (entry (page a) l) ≡ s.after.words (entry (page a) l))
                × (t.after.words (entry (page b) l) ≡ s.after.words (entry (page b) l)))
              ji first_kept in
          (f ∙ p, g ∙ q)
      | inr ne ↦
          let up : i + 1 ≤ j = ground (arith, ne, lo) in
          let (p, q) = later_kept j up hi in
          let (f, g) = t.invalid j up (omega (arith, hi)) (ap pd_invalid p ∙ z) in (f ∙ p, g ∙ q)
    ]

    both_valid :
        (j l : ℕ)
        → i ≤ j
        → j < i + suc n
        → l < nr_pages
        → pd_invalid (m.words (entry (page a) j)) ≡ false
        → page_of (m.words (entry (page a) j)) ≡ page l
        → (t.after.words (entry (page a) j) ≡ shared l)
          × (t.after.words (entry (page b) j) ≡ shared l)
    both_valid j l lo hi h z at = elim (Bool-cases (j == i)) [
      | inl e ↦
          let ji : i ≡ j = ground (arith, e) in
          let (p, q) = s.valid j l lo (omega (arith, ji)) h z at in
          let (f, g) =
            subst
              (λ (l : ℕ).
                (t.after.words (entry (page a) l) ≡ s.after.words (entry (page a) l))
                × (t.after.words (entry (page b) l) ≡ s.after.words (entry (page b) l)))
              ji first_kept in
          (f ∙ p, g ∙ q)
      | inr ne ↦
          let up : i + 1 ≤ j = ground (arith, ne, lo) in
          let (p, q) = later_kept j up hi in
          t.valid j l up (omega (arith, hi)) h (ap pd_invalid p ∙ z) (ap page_of p ∙ at)
    ]

    both_counted :
        (j : ℕ)
        → j < nr_pages
        → t.after.mm.ref_counts j % 2 ^ 32
          ≡ (m.mm.ref_counts j + uses m.words a (suc n) i j) % 2 ^ 32
    unfolding uses
    both_counted j h = omega (
      arith,
      s.counted j h,
      t.counted j h,
      uses-ext m.words s.after.words a n (i + 1) j
          (λ l lo hi. (later_kept l lo (omega (arith, hi))).0),
    )

    pub Shared-then : Shared m (suc n) i (out >>= k)
    Shared-then = record {
      after = t.after;
      runs = rw s.runs t.runs;
      invalid = both_invalid;
      valid = both_valid;
      others = λ p h.
          t.others p (λ j lo hi. h j (omega (arith, lo)) (omega (arith, hi)))
          ∙ s.others p (λ j lo hi. h j lo (omega (arith, hi)));
      counted = both_counted;
      mm =
          t.mm
          ∙ ap (λ (x : MemoryManager Slob). record x { ref_counts = t.after.mm.ref_counts }) s.mm;
    }
