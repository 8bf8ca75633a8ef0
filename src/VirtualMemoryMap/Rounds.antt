-- ===== src/VirtualMemoryMap/Rounds.antt =====
-- The loop of `copy_from` over the entries of a table of the last level.
use valkyrie.Base.{
  ℕ, zero, suc, ◌+◌, ◌%◌, ◌^◌, ◌<◌, ◌≤◌, ◌≡◌, ◌≢◌, refl, sym, ap, subst, ◌∙◌, inl, inr, true, false,
  ◌==◌, arith, Bool-cases,
}
use valkyrie.Base.Maps.{update}
use valkyrie.Base.Outcome.{Outcome}
use valkyrie.Buddy.{nr_pages}
use valkyrie.MemoryManager.{inc_page_ref_count}
use valkyrie.MemoryManager.Pages.{page}
use valkyrie.MemoryManager.RefCounts.{idx_of_page}
use valkyrie.VirtualMemoryMap.{
  Machine, entry, pd_invalid, page_of, share_page, each_entry, dfs_copy_page_tables,
}
use valkyrie.VirtualMemoryMap.Trees.{absurd_bool}
use valkyrie.VirtualMemoryMap.Entries.{entry_inj}
use valkyrie.VirtualMemoryMap.Shares.{
  shared, shared_lem, uses, entries_apart, LeadsToPages, Shared, Shared-then,
}

module _ {Slob : Type 0} (a b : ℕ) (apart : a ≢ b) where
  module _ (m : Machine Slob) (i : ℕ) (fits : i < 512) where
    invalid_round :
        pd_invalid (m.words (entry (page a) i)) ≡ true
        → Shared a b apart m 1 i (share_page (page a) (page b) m i)
    unfolding share_page uses
    invalid_round z = record {
      after = m;
      runs = rw (share_page, z) refl;
      invalid = λ k lo hi e. (refl, refl);
      valid = λ k j lo hi h e at.
          let ik : i ≡ k = omega (arith, lo, hi) in
          absurd_bool e (subst (λ (l : ℕ). pd_invalid (m.words (entry (page a) l)) ≡ true) ik z);
      others = λ p h. refl;
      counted = λ j h. rw z (ap (λ (x : ℕ). x % 2 ^ 32) (omega arith));
      mm = refl;
    }

    module _ (j : ℕ) (h : j < nr_pages) (at : page_of (m.words (entry (page a) i)) ≡ page j) where
      round_after : Machine Slob
      round_after = record {
        mm = record m.mm {
          ref_counts = update m.mm.ref_counts j ((m.mm.ref_counts j + 1) % 2 ^ 32);
        };
        words = update (update m.words (entry (page b) i) (shared j)) (entry (page a) i) (shared j);
      }

      round_words :
          (round_after.words (entry (page a) i) ≡ shared j)
          × (round_after.words (entry (page b) i) ≡ shared j)
      unfolding round_after
      round_words =
          let x : (entry (page a) i == entry (page a) i) ≡ true = ground arith in
          let y : (entry (page b) i == entry (page b) i) ≡ true = ground arith in
          let z : (entry (page a) i == entry (page b) i) ≡ false =
            elim (Bool-cases (entry (page a) i == entry (page b) i)) [
              | inr off ↦ off
              | inl same ↦
                  let eq : entry (page a) i ≡ entry (page b) i = ground arith in
                  absurd (apart (entry_inj a i b i fits fits eq).0)
            ] in
          (rw x refl, rw (z, y) refl)

      round_others :
          (p : ℕ) → entry (page a) i ≢ p → entry (page b) i ≢ p → round_after.words p ≡ m.words p
      unfolding round_after
      round_others p x y =
          let ex : (entry (page a) i == p) ≡ false = ground (arith, x) in
          let ey : (entry (page b) i == p) ≡ false = ground (arith, y) in rw (ex, ey) refl

      round_counted :
          pd_invalid (m.words (entry (page a) i)) ≡ false
          → (l : ℕ)
          → round_after.mm.ref_counts l % 2 ^ 32
            ≡ (m.mm.ref_counts l + uses m.words a 1 i l) % 2 ^ 32
      unfolding round_after uses
      round_counted z l = elim (Bool-cases (j == l)) [
        | inl same ↦
            let hit : (page j == page l) ≡ true = ground (arith, same) in
            let eq : j ≡ l = ground (arith, same) in
            rw (z, at, hit, same) (omega (arith, ap m.mm.ref_counts eq))
        | inr off ↦
            let miss : (page j == page l) ≡ false = ground (arith, off) in
            rw (z, at, miss, off) (omega arith)
      ]

      valid_round :
          pd_invalid (m.words (entry (page a) i)) ≡ false
          → Shared a b apart m 1 i (share_page (page a) (page b) m i)
      unfolding share_page inc_page_ref_count
      valid_round z = record {
        after = round_after;
        runs =
            unfold round_after in rw (share_page, z, at, idx_of_page m.mm j h, shared_lem j h) refl;
        invalid = λ k lo hi e.
            let ik : i ≡ k = omega (arith, lo, hi) in
            absurd_bool z
              (subst (λ (l : ℕ). pd_invalid (m.words (entry (page a) l)) ≡ true) (sym ik) e);
        valid = λ k l lo hi hl e at'.
            let ik : i ≡ k = omega (arith, lo, hi) in
            let at'' : page_of (m.words (entry (page a) i)) ≡ page l =
              subst (λ (q : ℕ). page_of (m.words (entry (page a) q)) ≡ page l) (sym ik) at' in
            let jl : j ≡ l = omega (arith, at, at'') in
            subst
              (λ (q : ℕ).
                (round_after.words (entry (page a) q) ≡ shared l)
                × (round_after.words (entry (page b) q) ≡ shared l))
              ik
              (subst
                (λ (q : ℕ).
                  (round_after.words (entry (page a) i) ≡ shared q)
                  × (round_after.words (entry (page b) i) ≡ shared q))
                jl round_words);
        others = λ p h. let (x, y) = h i (omega arith) (omega arith) in round_others p x y;
        counted = λ l hl. round_counted z l;
        mm = unfold round_after in refl;
      }

  one_round :
      (m : Machine Slob) (n i : ℕ)
      → i + suc n ≤ 512
      → LeadsToPages a b apart m (suc n) i
      → Shared a b apart m 1 i (share_page (page a) (page b) m i)
  one_round m n i fits leads = elim (Bool-cases (pd_invalid (m.words (entry (page a) i)))) [
    | inl z ↦ invalid_round m i (omega (arith, fits)) z
    | inr z ↦
        let (j, h, at) = leads i (omega arith) (omega arith) z in
        valid_round m i (omega (arith, fits)) j h at z
  ]

  leads_after :
      (m : Machine Slob) (n i : ℕ)
      → i + suc n ≤ 512
      → LeadsToPages a b apart m (suc n) i
      → (out : Outcome (Machine Slob)) (s : Shared a b apart m 1 i out)
      → LeadsToPages a b apart s.after n (i + 1)
  leads_after m n i fits leads out s k lo hi z =
      let same : s.after.words (entry (page a) k) ≡ m.words (entry (page a) k) =
        s.others (entry (page a) k) λ l lo' hi'.
          let x =
            entries_apart a b apart k l (omega (arith, fits, hi)) (omega (arith, fits, hi'))
              (λ e. absurd (omega (arith, lo, hi', e))) in
          (x.0, x.1) in
      let (j, h, at) =
        leads k (omega (arith, lo)) (omega (arith, hi)) (ap pd_invalid (sym same) ∙ z) in
      (j, h, ap page_of same ∙ at)

  -- The loop over the entries.
  each_entry-Shared :
      (n i : ℕ) (m : Machine Slob)
      → i + n ≤ 512
      → LeadsToPages a b apart m n i
      → Shared a b apart m n i (each_entry (share_page (page a) (page b)) n i m)
  unfolding each_entry uses
  each_entry-Shared zero i m fits leads = record {
    after = m;
    runs = refl;
    invalid = λ k lo hi z. (refl, refl);
    valid = λ k j lo hi h z at. absurd (omega (arith, lo, hi));
    others = λ p h. refl;
    counted = λ j h. ap (λ (x : ℕ). x % 2 ^ 32) (omega arith);
    mm = refl;
  }
  each_entry-Shared (suc n) i m fits leads =
      let first = one_round m n i fits leads in
      Shared-then a b apart m n i fits (share_page (page a) (page b) m i)
        (each_entry (share_page (page a) (page b)) n (i + 1)) first
        (each_entry-Shared n (i + 1) first.after (omega (arith, fits))
          (leads_after m n i fits leads (share_page (page a) (page b) m i) first))

  -- `dfs_copy_page_tables` of a table of the last level into one in another page, where each
  -- valid descriptor of the table leads to a page of the zone: it returns; invalid entries stay
  -- as they are in both tables, at a valid one both get the same read-only, copy-on-write
  -- descriptor of its page, each page has as many more references as entries that lead to it, and
  -- no other word changes.
  pub dfs_copy_page_tables-Shared :
      (m : Machine Slob)
      → LeadsToPages a b apart m 512 0
      → Shared a b apart m 512 0 (dfs_copy_page_tables 0 m (page a) (page b))
  unfolding dfs_copy_page_tables
  dfs_copy_page_tables-Shared m leads = each_entry-Shared 512 0 m (omega arith) leads
