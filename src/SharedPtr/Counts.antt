-- ===== src/SharedPtr/Counts.antt =====
-- What the counts of the control blocks say: how many pointers there are.
use valkyrie.Base.{
  ℕ, suc, ◌+◌, ◌≤◌, ◌<◌, ◌≡◌, ◌≢◌, refl, sym, ap, subst, ◌∙◌, List, [], ◌∷◌, true, false, Option,
  none, some, inl, inr, ◌==◌, if◌then◌else◌, ==_refl, arith, Bool-cases,
}
use valkyrie.SharedPtr.{ControlBlock, Heap}

-- How often `c` stands in the list.
abbrev pub count : ℕ → List ℕ → ℕ
count c [] = 0
count c (x ∷ l) = let n = count c l in if x == c then suc n else n

pub count_same : (c : ℕ) (l : List ℕ) → count c (c ∷ l) ≡ suc (count c l)
count_same c l = rw (==_refl c) refl

pub count_other : (c x : ℕ) (l : List ℕ) → x ≢ c → count c (x ∷ l) ≡ count c l
count_other c x l h = let ne : (x == c) ≡ false = ground arith in rw ne refl

-- The object that the block owns is alive while its use count is not 0, and afterwards there is none.
pub record Owns (h : Heap) (b : ControlBlock) : Type 0 where
  pub alive : 0 < b.use_count → 0 < b.p → h.objects b.p ≡ true
  pub gone : b.use_count ≡ 0 → b.p ≡ 0

-- The counts of a block are those of the pointers with its address, `n` shared and `m` weak ones; where
-- there is no block, there is no pointer.
abbrev pub Counted : Heap → Option ControlBlock → ℕ → ℕ → Type 0
Counted h none n m = (n ≡ 0) × (m ≡ 0)
Counted h (some b) n m = (b.use_count ≡ n) × (b.use_count_weak ≡ m) × (0 < n + m) × Owns h b

-- `s` lists the control blocks of the shared pointers that there are, and `w` those of the weak ones.
pub record Safe (h : Heap) (s w : List ℕ) : Type 0 where
  pub counted : (c : ℕ) → 0 < c → Counted h (h.blocks c) (count c s) (count c w)
  pub sole :
      (c d : ℕ) (b e : ControlBlock)
      → h.blocks c ≡ some b
      → h.blocks d ≡ some e
      → 0 < b.p
      → b.p ≡ e.p
      → c ≡ d
  pub free : (c : ℕ) → h.next ≤ c → h.blocks c ≡ none
  pub positive : 0 < h.next
  pub null : h.blocks 0 ≡ none

-- A step that changes the block at `c` to `o`, and no other block.
pub record Step (h h' : Heap) (c : ℕ) (o : Option ControlBlock) : Type 0 where
  pub here : h'.blocks c ≡ o
  pub elsewhere : (d : ℕ) → c ≢ d → h'.blocks d ≡ h.blocks d
  pub nonnull : 0 < c
  pub below : c < h'.next
  pub grows : h.next ≤ h'.next
  -- No other block owns an object that the step ends, or that `o` owns.
  pub spares :
      (d : ℕ) (e : ControlBlock)
      → c ≢ d
      → h.blocks d ≡ some e
      → 0 < e.p
      → h.objects e.p ≡ true
      → h'.objects e.p ≡ true
  pub apart :
      (d : ℕ) (b e : ControlBlock) → c ≢ d → o ≡ some b → h.blocks d ≡ some e → 0 < b.p → b.p ≢ e.p

pub Counted-objects :
    (h h' : Heap) (o : Option ControlBlock) (n m : ℕ)
    → ((e : ControlBlock) → o ≡ some e → 0 < e.p → h.objects e.p ≡ true → h'.objects e.p ≡ true)
    → Counted h o n m
    → Counted h' o n m
Counted-objects h h' none n m f c = c
Counted-objects h h' (some b) n m f (u, v, p, o) =
    (u, v, p, record { alive = λ a q. f b refl q (o.alive a q); gone = o.gone })

-- A step keeps the heap safe if the block that it changes is counted, and the others have as many
-- pointers as before.
pub Step-Safe :
    (h h' : Heap) (s w s' w' : List ℕ) (c : ℕ) (o : Option ControlBlock)
    → Safe h s w
    → Step h h' c o
    → Counted h' o (count c s') (count c w')
    → ((d : ℕ) → c ≢ d → (count d s' ≡ count d s) × (count d w' ≡ count d w))
    → Safe h' s' w'
Step-Safe h h' s w s' w' c o a t k same = record {
  counted = λ d pos. elim (Bool-cases (c == d)) [
    | inl e ↦
        let cd : c ≡ d = ground arith in
        subst (λ j. Counted h' (h'.blocks j) (count j s') (count j w')) cd
          (subst (λ p. Counted h' p (count c s') (count c w')) (sym t.here) k)
    | inr e ↦
        let ne : c ≢ d = ground arith in
        let (es, ew) = same d ne in
        subst (λ p. Counted h' p (count d s') (count d w')) (sym (t.elsewhere d ne))
          (subst (λ n. Counted h' (h.blocks d) n (count d w')) (sym es)
            (subst (λ m. Counted h' (h.blocks d) (count d s) m) (sym ew)
              (Counted-objects h h' (h.blocks d) (count d s) (count d w)
                (λ x at. t.spares d x ne at) (a.counted d pos))))
  ];
  sole = λ d d' b e at at' pos same_p. elim (Bool-cases (c == d)) [
    | inl f ↦ elim (Bool-cases (c == d')) [
      | inl g ↦ ground arith
      | inr g ↦
          let ne : c ≢ d' = ground arith in
          let mine : o ≡ some b = sym t.here ∙ ap h'.blocks (ground arith) ∙ at in
          absurd (t.apart d' b e ne mine (sym (t.elsewhere d' ne) ∙ at') pos same_p)
    ]
    | inr f ↦
        let ne : c ≢ d = ground arith in
        let other : h.blocks d ≡ some b = sym (t.elsewhere d ne) ∙ at in
        elim (Bool-cases (c == d')) [
          | inl g ↦
              let mine : o ≡ some e = sym t.here ∙ ap h'.blocks (ground arith) ∙ at' in
              absurd (t.apart d e b ne mine other (omega arith) (sym same_p))
          | inr g ↦
              let ne' : c ≢ d' = ground arith in
              a.sole d d' b e other (sym (t.elsewhere d' ne') ∙ at') pos same_p
        ]
  ];
  free = λ d far.
      let ne : c ≢ d = omega (arith, t.below) in
      t.elsewhere d ne ∙ a.free d (omega (arith, t.grows));
  positive = omega (arith, t.below);
  null = let ne : c ≢ 0 = omega (arith, t.nonnull) in t.elsewhere 0 ne ∙ a.null;
}
