-- ===== src/SharedPtr/Owners.antt =====
-- The pointers that come and go, and the objects that they end.
use valkyrie.Base.{
  ℕ, ◌+◌, ◌<◌, ◌≡◌, ◌≢◌, refl, sym, ap, subst, ◌∙◌, List, ◌∷◌, Bool, true, false, Option, none,
  some, ◌⊎◌, inl, inr, ltb, ◌==◌, if◌then◌else◌, ==_refl, arith, Bool-cases, Option-cases,
}
use valkyrie.Base.Maps.{update}
use valkyrie.Base.Outcome.{ok}
use valkyrie.SharedPtr.{
  ControlBlock, Heap, set_block, delete_object, inc_use_count, inc_use_count_weak,
}
use valkyrie.SharedPtr.Counts.{count, count_same, count_other, Owns, Counted, Safe, Step, Step-Safe}

-- Null pointers count for nothing.
pub Safe-zero :
    (h : Heap) (s w s' w' : List ℕ)
    → ((d : ℕ) → 0 < d → (count d s' ≡ count d s) × (count d w' ≡ count d w))
    → Safe h s w
    → Safe h s' w'
Safe-zero h s w s' w' f a = record {
  counted = λ c pos.
      subst (λ n. Counted h (h.blocks c) n (count c w')) (sym (f c pos).0)
        (subst (λ m. Counted h (h.blocks c) (count c s) m) (sym (f c pos).1) (a.counted c pos));
  sole = a.sole;
  free = a.free;
  positive = a.positive;
  null = a.null;
}

-- Where there is a pointer, there is a block.
abbrev pub Block : Heap → List ℕ → List ℕ → ℕ → Type 0
Block h s w c =
    (b : ControlBlock) × (h.blocks c ≡ some b)
    × (b.use_count ≡ count c s)
    × (b.use_count_weak ≡ count c w)
    × Owns h b

pub Safe-Block :
    (h : Heap) (s w : List ℕ) (c : ℕ)
    → Safe h s w
    → 0 < c
    → 0 < count c s + count c w
    → Block h s w c
Safe-Block h s w c a pos some_pointer = elim (Option-cases (h.blocks c)) [
  | inl e ↦
      let (n, m) = subst (λ o. Counted h o (count c s) (count c w)) e (a.counted c pos) in
      absurd (omega arith)
  | inr (b, e) ↦
      let (n, m, p, o) = subst (λ o. Counted h o (count c s) (count c w)) e (a.counted c pos) in
      (b, e, n, m, o)
]

pub none-some : {b : ControlBlock} → none ≡ some b → ⊥
none-some e = subst (λ o. elim o [ none ↦ ℕ | some _ ↦ ⊥ ]) e 0

-- The block `b` at `c` is changed or deleted, and at most the object that it owns ends.
pub Step-block :
    (h h' : Heap) (s w : List ℕ) (c : ℕ) (b : ControlBlock) (o : Option ControlBlock)
    → Safe h s w
    → h.blocks c ≡ some b
    → h'.blocks c ≡ o
    → ((d : ℕ) → c ≢ d → h'.blocks d ≡ h.blocks d)
    → h'.next ≡ h.next
    → ((x : ControlBlock) → o ≡ some x → 0 < x.p → x.p ≡ b.p)
    → ((q : ℕ) → q ≢ b.p → h.objects q ≡ true → h'.objects q ≡ true)
    → Step h h' c o
Step-block h h' s w c b o a e here elsewhere next owns objects =
    let below : c < h.next = elim (Bool-cases (ltb c h.next)) [
      | inl l ↦ ground arith
      | inr g ↦ absurd (none-some (sym (a.free c (ground arith)) ∙ e))
    ] in
    let nonnull : 0 < c = elim (Bool-cases (c == 0)) [
      | inl z ↦ absurd (none-some (sym a.null ∙ ap h.blocks (ground arith) ∙ e))
      | inr nz ↦ ground arith
    ] in
    record {
      nonnull = nonnull;
      here = here;
      elsewhere = elsewhere;
      below = omega arith;
      grows = omega arith;
      spares = λ d x ne at pos alive. objects x.p (λ q. ne (sym (a.sole d c x b at e pos q))) alive;
      apart = λ d x y ne mine at pos q. ne (
          a.sole c d b y e at (subst (λ k. 0 < k) (owns x mine pos) pos)
            (sym (owns x mine pos) ∙ q));
    }

Step-same :
    (h : Heap) (s w : List ℕ) (c : ℕ) (b b' : ControlBlock)
    → Safe h s w
    → h.blocks c ≡ some b
    → b'.p ≡ b.p
    → Step h (set_block h c (some b')) c (some b')
Step-same h s w c b b' a e p =
    Step-block h (set_block h c (some b')) s w c b (some b') a e (rw (==_refl c) refl)
      (λ d ne. let n : (c == d) ≡ false = ground arith in rw n refl) refl
      (λ x at pos. sym (ap (λ o. elim o [ none ↦ 0 | some y ↦ y.p ]) at) ∙ p) (λ q ne alive. alive)

pub Owns-alive : (h : Heap) (b : ControlBlock) → Owns h b → 0 < b.p → h.objects b.p ≡ true
Owns-alive h b o q = elim (Bool-cases (b.use_count == 0)) [
  | inl z ↦ let e = o.gone (ground arith) in absurd (omega arith)
  | inr nz ↦ o.alive (ground arith) q
]

pub inc_use_count_lem :
    (h : Heap) (s w : List ℕ) (c : ℕ)
    → Safe h s w
    → (c ≡ 0) ⊎ (0 < count c s + count c w)
    → (h' : Heap) × (inc_use_count h c ≡ ok h') × Safe h' (c ∷ s) w × (h'.objects ≡ h.objects)
unfolding inc_use_count
inc_use_count_lem h s w c a k = elim (Bool-cases (c == 0)) [
  | inl z ↦ (
    h,
    rw (inc_use_count, z) refl,
    Safe-zero h s w (c ∷ s) w (λ d pos. (count_other d c s (ground arith), refl)) a,
    refl,
  )
  | inr nz ↦
      let pos : 0 < c = ground arith in
      let there : 0 < count c s + count c w = elim k [
        | inl z ↦ absurd (ground arith)
        | inr x ↦ x
      ] in
      let (b, e, n, m, o) = Safe-Block h s w c a pos there in
      let b' = record b { use_count = b.use_count + 1 } in
      let n' : b.use_count + 1 ≡ count c (c ∷ s) = omega (arith, n, count_same c s) in
      (
        set_block h c (some b'),
        rw (inc_use_count, nz, e) refl,
        Step-Safe h (set_block h c (some b')) s w (c ∷ s) w c (some b') a
            (Step-same h s w c b b' a e refl)
            (
              n',
              m,
              omega arith,
              record { alive = λ u q. Owns-alive h b o q; gone = λ z. absurd (omega arith) },
            )
            (λ d ne. (count_other d c s ne, refl)),
        refl,
      )
]

pub inc_use_count_weak_lem :
    (h : Heap) (s w : List ℕ) (c : ℕ)
    → Safe h s w
    → (c ≡ 0) ⊎ (0 < count c s + count c w)
    → (h' : Heap) × (inc_use_count_weak h c ≡ ok h') × Safe h' s (c ∷ w) × (h'.objects ≡ h.objects)
unfolding inc_use_count_weak
inc_use_count_weak_lem h s w c a k = elim (Bool-cases (c == 0)) [
  | inl z ↦ (
    h,
    rw (inc_use_count_weak, z) refl,
    Safe-zero h s w s (c ∷ w) (λ d pos. (refl, count_other d c w (ground arith))) a,
    refl,
  )
  | inr nz ↦
      let pos : 0 < c = ground arith in
      let there : 0 < count c s + count c w = elim k [
        | inl z ↦ absurd (ground arith)
        | inr x ↦ x
      ] in
      let (b, e, n, m, o) = Safe-Block h s w c a pos there in
      let b' = record b { use_count_weak = b.use_count_weak + 1 } in
      let m' : b.use_count_weak + 1 ≡ count c (c ∷ w) = omega (arith, m, count_same c w) in
      (
        set_block h c (some b'),
        rw (inc_use_count_weak, nz, e) refl,
        Step-Safe h (set_block h c (some b')) s w s (c ∷ w) c (some b') a
            (Step-same h s w c b b' a e refl)
            (n, m', omega arith, record { alive = o.alive; gone = o.gone })
            (λ d ne. (refl, count_other d c w ne)),
        refl,
      )
]

-- The objects that are alive after the block has lost its last shared pointer.
abbrev pub ended : (ℕ → Bool) → ℕ → ℕ → Bool
ended objects p = if p == 0 then objects else update objects p false

pub delete_object_lem :
    (h : Heap) (p : ℕ)
    → (0 < p → h.objects p ≡ true)
    → delete_object h p ≡ ok (record h { objects = ended h.objects p })
unfolding delete_object
delete_object_lem h p a = elim (Bool-cases (p == 0)) [
  | inl z ↦ rw (delete_object, z) refl
  | inr nz ↦ let alive = a (ground arith) in rw (delete_object, nz, alive) refl
]
