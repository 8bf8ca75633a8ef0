-- ===== src/VirtualMemoryMap/Links.antt =====
-- One round of a walk over the tables of a map.
use valkyrie.Base.{
  ℕ, suc, ◌+◌, ◌<◌, ◌≡◌, refl, sym, ap, subst, ◌∙◌, ◌⊎◌, inl, inr, Bool, true, false, some, ◌==◌,
  if◌then◌else◌, arith, Bool-cases,
}
use valkyrie.Base.Maps.{update}
use valkyrie.Buddy.{nr_pages}
use valkyrie.MemoryManager.Pages.{page}
use valkyrie.VirtualMemoryMap.{
  Machine, entry, pd_invalid, page_of, walk_round, new_table, clear_page,
}
use valkyrie.VirtualMemoryMap.Entries.{
  bit_or-page, page_of-page, pd_invalid-page, entry_inj, is_in-page,
}
use valkyrie.VirtualMemoryMap.Frames.{Exhausted, NewTable, new_table-NewTable}
use valkyrie.VirtualMemoryMap.Trees.{
  Levels, Held, IsTree, Extends, Extends-refl, IsBlank, Stepped, absurd_bool,
}

module _ {Slob : Type 0} (m : Machine Slob) (levels : Levels) (t : IsTree m levels) (k h i : ℕ)
    (e : levels k ≡ some (suc h)) (lt : i < 512) where
  old_table :
      pd_invalid (m.words (entry (page k) i)) ≡ false
      → Stepped m levels k i h (walk_round m true (page k) i)
  unfolding walk_round
  old_table valid =
      let (k', leads, at) = t.below k h i e lt valid in
      record {
        after = m;
        levels' = levels;
        next = k';
        runs = rw (walk_round, valid, leads) refl;
        tree = t;
        extends = Extends-refl m levels;
        at = at;
        valid = valid;
        leads = leads;
        origin = inl (refl, valid);
      }

  module _ (g : NewTable m (new_table m))
      (invalid : pd_invalid (m.words (entry (page k) i)) ≡ true) where
    n : ℕ
    n = g.frame.index

    -- The state after the new table is linked.
    linked : Machine Slob
    linked = record {
      mm = g.frame.after;
      words = update (clear_page m.words (page n)) (entry (page k) i) (page n + 3);
    }

    free_frame : (a : ℕ) → Held m.mm a → (a == n) ≡ false
    unfolding n
    free_frame a u = elim (Bool-cases (a == n)) [
      | inl same ↦
          let eq : a ≡ n = ground arith in
          let f = g.frame.was_free in let u' : Held m.mm n = subst (Held m.mm) eq u in cc
      | inr other ↦ other
    ]

    at_link : linked.words (entry (page k) i) ≡ page n + 3
    unfolding linked
    at_link = let s : (entry (page k) i == entry (page k) i) ≡ true = ground arith in rw s refl

    elsewhere :
        (a j : ℕ)
        → j < 512
        → (entry (page k) i == entry (page a) j) ≡ false
        → linked.words (entry (page a) j) ≡ (if a == n then 0 else m.words (entry (page a) j))
    unfolding linked clear_page
    elsewhere a j lj ne = rw (ne, is_in-page a j n lj) refl

    linked-levels : Levels
    linked-levels = update levels n (some h)

    still : (a h' : ℕ) → levels a ≡ some h' → linked-levels a ≡ some h'
    unfolding linked-levels n
    still a h' e' =
        let other : (g.frame.index == a) ≡ false =
          (let f : (a == g.frame.index) ≡ false = free_frame a (t.in_use a h' e').1 in
            ground arith) in
        rw other e'

    linked-Held : (a : ℕ) → Held m.mm a → Held linked.mm a
    unfolding linked n
    linked-Held a u = g.frame.now a ∙ ground (arith, u)

    linked-in_use : (a h' : ℕ) → linked-levels a ≡ some h' → (a < nr_pages) × Held linked.mm a
    unfolding linked-levels n
    linked-in_use a h' e' = elim (Bool-cases (g.frame.index == a)) [
      | inl same ↦
          let eq : g.frame.index ≡ a = ground arith in
          (
            subst (λ (b : ℕ). b < nr_pages) eq g.frame.bound,
            unfold linked in (g.frame.now a ∙ ground (arith, same)),
          )
      | inr other ↦
          let old : levels a ≡ some h' = (rw other at e') in
          let (b, u) = t.in_use a h' old in (b, linked-Held a u)
    ]

    old_level :
        (a h' : ℕ) → (a == n) ≡ false → linked-levels a ≡ some (suc h') → levels a ≡ some (suc h')
    unfolding linked-levels n
    old_level a h' other e' =
        let flip : (g.frame.index == a) ≡ false = ground arith in rw flip at e'

    old_below :
        (a h' j : ℕ)
        → (entry (page k) i == entry (page a) j) ≡ false
        → linked-levels a ≡ some (suc h')
        → j < 512
        → pd_invalid (linked.words (entry (page a) j)) ≡ false
        → (k' : ℕ) × (page_of (linked.words (entry (page a) j)) ≡ page k')
          × (linked-levels k' ≡ some h')
    unfolding pd_invalid
    old_below a h' j ne e' lj valid = elim (Bool-cases (a == n)) [
      | inl same ↦
          let zero_word : linked.words (entry (page a) j) ≡ 0 =
            elsewhere a j lj ne
            ∙ ap (λ (b : Bool). if b then 0 else m.words (entry (page a) j)) same in
          let bad : pd_invalid (linked.words (entry (page a) j)) ≡ true = ap pd_invalid zero_word in
          absurd_bool valid bad
      | inr other ↦
          let word : linked.words (entry (page a) j) ≡ m.words (entry (page a) j) =
            elsewhere a j lj ne
            ∙ ap (λ (b : Bool). if b then 0 else m.words (entry (page a) j)) other in
          let old : levels a ≡ some (suc h') = old_level a h' other e' in
          let (k', leads, at) = t.below a h' j old lj (ap pd_invalid (sym word) ∙ valid) in
          (k', ap page_of word ∙ leads, still k' h' at)
    ]

    at_new : linked-levels n ≡ some h
    unfolding linked-levels
    at_new = let s : (n == n) ≡ true = ground arith in rw s refl

    leads_new : page_of (linked.words (entry (page k) i)) ≡ page n
    unfolding n
    leads_new = ap page_of at_link ∙ page_of-page n 3 g.frame.bound (omega arith)

    valid_new : pd_invalid (linked.words (entry (page k) i)) ≡ false
    valid_new = ap pd_invalid at_link ∙ pd_invalid-page n 3 ∙ three
      where
        three : pd_invalid 3 ≡ false
        three = unfold pd_invalid in refl

    new_below :
        (a h' j : ℕ)
        → (entry (page k) i == entry (page a) j) ≡ true
        → linked-levels a ≡ some (suc h')
        → j < 512
        → (k' : ℕ) × (page_of (linked.words (entry (page a) j)) ≡ page k')
          × (linked-levels k' ≡ some h')
    new_below a h' j eq e' lj =
        let same : entry (page k) i ≡ entry (page a) j = ground arith in
        let ka : k ≡ a = (entry_inj k i a j lt lj same).0 in
        let up : linked-levels a ≡ some (suc h) =
          subst (λ (b : ℕ). linked-levels b ≡ some (suc h)) ka (still k (suc h) e) in
        let hh : some h ≡ some h' = cc in
        (n, ap (λ (p : ℕ). page_of (linked.words p)) (sym same) ∙ leads_new, at_new ∙ hh)

    linked-IsTree : IsTree linked linked-levels
    linked-IsTree = record {
      consistent = unfold linked in g.frame.consistent;
      in_use = linked-in_use;
      below = λ a h' j e' lj valid. elim (Bool-cases (entry (page k) i == entry (page a) j)) [
        | inr ne ↦ old_below a h' j ne e' lj valid
        | inl eq ↦ new_below a h' j eq e' lj
      ];
    }

    linked-keeps :
        (a j : ℕ)
        → Held m.mm a
        → j < 512
        → (linked.words (entry (page a) j) ≡ m.words (entry (page a) j))
          ⊎ ((h' : ℕ) × (levels a ≡ some (suc h'))
              × (pd_invalid (m.words (entry (page a) j)) ≡ true))
    linked-keeps a j u lj = elim (Bool-cases (entry (page k) i == entry (page a) j)) [
      | inr ne ↦ inl (
          elsewhere a j lj ne
          ∙ ap (λ (b : Bool). if b then 0 else m.words (entry (page a) j)) (free_frame a u))
      | inl eq ↦
          let same : entry (page k) i ≡ entry (page a) j = ground arith in
          let ka : k ≡ a = (entry_inj k i a j lt lj same).0 in
          inr (
            h,
            subst (λ (b : ℕ). levels b ≡ some (suc h)) ka e,
            subst (λ (p : ℕ). pd_invalid (m.words p) ≡ true) same invalid,
          )
    ]

    linked-Extends : Extends m linked levels linked-levels
    linked-Extends = record {
      held = linked-Held;
      counts = unfold linked in g.frame.counts;
      grows = still;
      new = λ a h' e' u. back a h' e' (free_frame a u);
      keeps = linked-keeps;
    }
      where
        back : (a h' : ℕ) → linked-levels a ≡ some h' → (a == n) ≡ false → levels a ≡ some h'
        back a h' e' other =
            unfold linked-levels n in
            (let flip : (g.frame.index == a) ≡ false = ground (arith, other) in rw flip at e')

    new_table_IsBlank : IsBlank linked n
    new_table_IsBlank j lj =
        let off : (entry (page k) i == entry (page n) j) ≡ false =
          not_there (t.in_use k (suc h) e).1 in
        let same : (n == n) ≡ true = ground arith in
        ap pd_invalid (
          elsewhere n j lj off
          ∙ ap (λ (b : Bool). if b then 0 else m.words (entry (page n) j)) same)
        ∙ unfold pd_invalid in refl
      where
        not_there : Held m.mm k → (entry (page k) i == entry (page n) j) ≡ false
        not_there u = let f : (k == n) ≡ false = free_frame k u in ground (arith, lt, lj)

    new_step : Stepped m levels k i h (walk_round m true (page k) i)
    new_step = record {
      after = linked;
      levels' = linked-levels;
      next = n;
      runs =
          unfold walk_round in
          unfold linked n in
          rw (invalid, walk_round, g.runs, bit_or-page g.frame.index 3 g.frame.bound (omega arith))
            refl;
      tree = linked-IsTree;
      extends = linked-Extends;
      at = at_new;
      valid = valid_new;
      leads = leads_new;
      origin = inr (new_table_IsBlank, invalid, unfold linked n in g.frame.runs);
    }

module _ {Slob : Type 0} (m : Machine Slob) (levels : Levels) (t : IsTree m levels) (k h i : ℕ)
    (e : levels k ≡ some (suc h)) (lt : i < 512) where
  pub walk_round-Stepped :
      Stepped m levels k i h (walk_round m true (page k) i)
      ⊎ ((pd_invalid (m.words (entry (page k) i)) ≡ true)
          × Exhausted m.mm (walk_round m true (page k) i))
  unfolding walk_round
  walk_round-Stepped = elim (Bool-cases (pd_invalid (m.words (entry (page k) i)))) [
    | inr valid ↦ inl (old_table m levels t k h i e lt valid)
    | inl invalid ↦ elim (new_table-NewTable m t.consistent) [
      | inl g ↦ inl (new_step m levels t k h i e lt g invalid)
      | inr (full, inl p) ↦ inr (invalid, (full, inl (rw (walk_round, invalid, p) refl)))
      | inr (full, inr p) ↦ inr (invalid, (full, inr (rw (walk_round, invalid, p) refl)))
    ]
  ]
