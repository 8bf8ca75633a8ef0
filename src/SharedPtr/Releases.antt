-- ===== src/SharedPtr/Releases.antt =====
-- The destructors of the pointers.
use valkyrie.Base.{
  ℕ, suc, ◌+◌, ◌-◌, ◌<◌, ◌≡◌, ◌≢◌, refl, sym, ap, ◌∙◌, List, ◌∷◌, Bool, true, false, Option, none,
  some, ◌⊎◌, inl, inr, ltb, ◌==◌, if◌then◌else◌, ==_refl, arith, Bool-cases,
}
use valkyrie.Base.Outcome.{Outcome, ok, ◌>>=◌}
use valkyrie.SharedPtr.{
  ControlBlock, Heap, set_block, with_block, delete_object, maybe_delete_p, maybe_delete_ctrl_block,
  dec_use_count,
}
use valkyrie.SharedPtr.Counts.{count, count_same, count_other, Owns, Safe, Step-Safe}
use valkyrie.SharedPtr.Owners.{
  Safe-zero, Safe-Block, Step-block, Owns-alive, none-some, ended, delete_object_lem,
}

pub maybe_delete_ctrl_block_lem :
    (h : Heap) (c : ℕ) (b : ControlBlock)
    → (c == 0) ≡ false
    → h.blocks c ≡ some b
    → maybe_delete_ctrl_block h c
      ≡ (if b.use_count + b.use_count_weak == 0 then ok (set_block h c none, 0) else ok (h, c))
unfolding maybe_delete_ctrl_block
maybe_delete_ctrl_block_lem h c b nz e =
    rw (maybe_delete_ctrl_block, nz)
      (ap
        (λ o. with_block o λ b.
          if b.use_count + b.use_count_weak == 0 then ok (set_block h c none, 0) else ok (h, c))
        e)

maybe_delete_p_lem :
    (h : Heap) (c : ℕ) (b : ControlBlock)
    → (c == 0) ≡ false
    → h.blocks c ≡ some b
    → maybe_delete_p h c ≡ (
        if b.use_count == 0
        then (delete_object h b.p >>= λ h'. ok (set_block h' c (some (record b { p = 0 }))))
        else ok h)
unfolding maybe_delete_p
maybe_delete_p_lem h c b nz e =
    rw (maybe_delete_p, nz)
      (ap
        (λ o. with_block o λ b.
          if b.use_count == 0
          then (delete_object h b.p >>= λ h'. ok (set_block h' c (some (record b { p = 0 }))))
          else ok h)
        e)

abbrev one_less : ControlBlock → ControlBlock
one_less b = record b { use_count = b.use_count - 1 }

dec_use_count_step :
    (h : Heap) (c : ℕ) (b : ControlBlock)
    → (c == 0) ≡ false
    → h.blocks c ≡ some b
    → 0 < b.use_count
    → dec_use_count h c ≡ (
        maybe_delete_p (set_block h c (some (one_less b))) c >>= λ h'. maybe_delete_ctrl_block h' c)
unfolding dec_use_count
dec_use_count_step h c b nz e pos =
    let l : ltb 0 b.use_count ≡ true = ground arith in
    rw (dec_use_count, nz)
      (ap
          (λ o. with_block o λ b.
            if ltb 0 b.use_count
            then (maybe_delete_p (set_block h c (some (one_less b))) c >>= λ h'.
                maybe_delete_ctrl_block h' c)
            else ok (h, c))
          e
        ∙ rw l refl)

pub set_block_same : (h : Heap) (c : ℕ) (o : Option ControlBlock) → (set_block h c o).blocks c ≡ o
set_block_same h c o = rw (==_refl c) refl

pub set_block_other :
    (h : Heap) (c d : ℕ) (o : Option ControlBlock) → c ≢ d → (set_block h c o).blocks d ≡ h.blocks d
set_block_other h c d o h' = let ne : (c == d) ≡ false = ground arith in rw ne refl

-- The block without its last shared pointer.
abbrev emptied : ControlBlock → ControlBlock
emptied b = record b { use_count = 0; p = 0 }

ended_other : (objects : ℕ → Bool) (p q : ℕ) → q ≢ p → objects q ≡ true → ended objects p q ≡ true
ended_other objects p q ne a = elim (Bool-cases (p == 0)) [
  | inl z ↦ rw z a
  | inr nz ↦ let other : (p == q) ≡ false = ground arith in rw (nz, other) a
]

-- What the end of a shared pointer does to the objects: nothing while there is another one of the same
-- block, and otherwise the end of the block's object.
abbrev pub Ends : Heap → Heap → List ℕ → ℕ → Type 0
Ends h h' s c =
    (((c ≡ 0) ⊎ (0 < count c s)) × (h'.objects ≡ h.objects))
    ⊎ ((b : ControlBlock) × (h.blocks c ≡ some b)
        × (count c s ≡ 0)
        × (h'.objects ≡ ended h.objects b.p))

-- The last shared pointer of the block goes.
dec_last :
    (h : Heap) (s w : List ℕ) (c : ℕ) (b : ControlBlock)
    → Safe h (c ∷ s) w
    → (c == 0) ≡ false
    → h.blocks c ≡ some b
    → b.use_count ≡ 1
    → count c s ≡ 0
    → b.use_count_weak ≡ count c w
    → Owns h b
    → (h' : Heap) × (r : ℕ) × (dec_use_count h c ≡ ok (h', r))
      × Safe h' s w
      × (h'.objects ≡ ended h.objects b.p)
dec_last h s w c b a nz e n k m o =
    let h1 = set_block h c (some (one_less b)) in
    let b2 = record (one_less b) { p = 0 } in
    let h2 = set_block (record h1 { objects = ended h.objects b.p }) c (some b2) in
    let zero_left : (b.use_count - 1 == 0) ≡ true = ground arith in
    let at1 = set_block_same h c (some (one_less b)) in
    let at2 = set_block_same (record h1 { objects = ended h.objects b.p }) c (some b2) in
    let rest : Heap → Outcome (Heap × ℕ) = λ h'. maybe_delete_ctrl_block h' c in
    let deleted : Heap → Outcome Heap = λ h'. ok (set_block h' c (some b2)) in
    let first : maybe_delete_p h1 c ≡ ok h2 =
      maybe_delete_p_lem h1 c (one_less b) nz at1
      ∙ ap (λ t. if t then (delete_object h1 b.p >>= deleted) else ok h1) zero_left
      ∙ ap (λ x. x >>= deleted) (delete_object_lem h1 b.p (Owns-alive h b o)) in
    let start : dec_use_count h c ≡ (
        if b.use_count - 1 + b.use_count_weak == 0
        then ok (set_block h2 c none, 0)
        else ok (h2, c)) =
      dec_use_count_step h c b nz e (omega arith)
      ∙ ap (λ x. x >>= rest) first
      ∙ maybe_delete_ctrl_block_lem h2 c b2 nz at2 in
    let other : (d : ℕ) → c ≢ d → h2.blocks d ≡ h.blocks d = λ d ne.
      set_block_other (record h1 { objects = ended h.objects b.p }) c d (some b2) ne
      ∙ set_block_other h c d (some (one_less b)) ne in
    let counts : (d : ℕ) → c ≢ d → (count d s ≡ count d (c ∷ s)) × (count d w ≡ count d w) =
      λ d ne. (sym (count_other d c s ne), refl) in
    elim (Bool-cases (b.use_count - 1 + b.use_count_weak == 0)) [
      | inl unused ↦ (
        set_block h2 c none,
        0,
        start ∙ rw unused refl,
        Step-Safe h (set_block h2 c none) (c ∷ s) w s w c none a
            (Step-block h (set_block h2 c none) (c ∷ s) w c b none a e (set_block_same h2 c none)
              (λ d ne. set_block_other h2 c d none ne ∙ other d ne) refl
              (λ x at q. absurd (none-some at)) (ended_other h.objects b.p))
            (k, ground arith) counts,
        refl,
      )
      | inr used ↦ (
        h2,
        c,
        start ∙ rw used refl,
        Step-Safe h h2 (c ∷ s) w s w c (some b2) a
            (Step-block h h2 (c ∷ s) w c b (some b2) a e at2 other refl
              (λ x at q. absurd (no_object x at q)) (ended_other h.objects b.p))
            (
              omega arith,
              m,
              ground arith,
              record { alive = λ u q. absurd (omega arith); gone = λ z. refl },
            )
            counts,
        refl,
      )
    ]
  where
    no_object : (x : ControlBlock) → some (record (one_less b) { p = 0 }) ≡ some x → 0 < x.p → ⊥
    no_object x at q =
        let z : 0 ≡ x.p = ap (λ o. elim o [ none ↦ 0 | some y ↦ y.p ]) at in omega arith

-- A shared pointer to `c` goes.
pub dec_use_count_lem :
    (h : Heap) (s w : List ℕ) (c : ℕ)
    → Safe h (c ∷ s) w
    → (h' : Heap) × (r : ℕ) × (dec_use_count h c ≡ ok (h', r)) × Safe h' s w × Ends h h' s c
unfolding dec_use_count
dec_use_count_lem h s w c a = elim (Bool-cases (c == 0)) [
  | inl z ↦ (
    h,
    0,
    rw (dec_use_count, z) refl,
    Safe-zero h (c ∷ s) w s w (λ d pos. (sym (count_other d c s (ground arith)), refl)) a,
    inl (inl (ground arith), refl),
  )
  | inr nz ↦
      let pos : 0 < c = ground arith in
      let (b, e, n, m, o) = Safe-Block h (c ∷ s) w c a pos (omega (arith, count_same c s)) in
      let n' : b.use_count ≡ suc (count c s) = n ∙ count_same c s in
      let h1 = set_block h c (some (one_less b)) in
      let at1 = set_block_same h c (some (one_less b)) in
      let start =
        dec_use_count_step h c b nz e (omega arith)
        ∙ ap (λ x. x >>= λ h'. maybe_delete_ctrl_block h' c)
            (maybe_delete_p_lem h1 c (one_less b) nz at1) in
      elim (Bool-cases (b.use_count - 1 == 0)) [
        | inr more ↦
            let f : (b.use_count - 1 + b.use_count_weak == 0) ≡ false = ground arith in
            (
              h1,
              c,
              start ∙ rw more (maybe_delete_ctrl_block_lem h1 c (one_less b) nz at1 ∙ rw f refl),
              Step-Safe h h1 (c ∷ s) w s w c (some (one_less b)) a
                  (Step-block h h1 (c ∷ s) w c b (some (one_less b)) a e at1
                    (λ d ne. set_block_other h c d (some (one_less b)) ne) refl
                    (λ x at q. sym (ap (λ o. elim o [ none ↦ 0 | some y ↦ y.p ]) at))
                    (λ q ne alive. alive))
                  (
                    omega arith,
                    m,
                    ground arith,
                    record { alive = λ u q. Owns-alive h b o q; gone = λ z. absurd (ground arith) },
                  )
                  (λ d ne. (sym (count_other d c s ne), refl)),
              inl (inr (ground arith), refl),
            )
        | inl none_left ↦
            let left : count c s ≡ 0 = ground arith in
            let (h', r, runs, safe, objects) = dec_last h s w c b a nz e (omega arith) left m o in
            (h', r, runs, safe, inr (b, e, left, objects))
      ]
]
