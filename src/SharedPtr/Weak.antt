-- ===== src/SharedPtr/Weak.antt =====
-- The weak pointers of include/lib/WeakPtr.h.
use valkyrie.Base.{
  ℕ, suc, ◌+◌, ◌-◌, ◌<◌, ◌≡◌, ◌≢◌, refl, sym, ap, ◌∙◌, List, ◌∷◌, Bool, true, false, none, some,
  ◌⊎◌, inl, inr, ltb, ◌==◌, if◌then◌else◌, arith, Bool-cases,
}
use valkyrie.Base.Outcome.{Outcome, ok, ◌>>=◌}
use valkyrie.SharedPtr.{
  ControlBlock, Heap, SharedPtr, set_block, with_block, inc_use_count, maybe_delete_ctrl_block,
  dec_use_count_weak, expired, use_count_of, lock,
}
use valkyrie.SharedPtr.Counts.{count, count_same, count_other, Owns, Safe, Step-Safe}
use valkyrie.SharedPtr.Owners.{Safe-zero, Safe-Block, Step-block, none-some, inc_use_count_lem}
use valkyrie.SharedPtr.Releases.{maybe_delete_ctrl_block_lem, set_block_same, set_block_other}

abbrev one_weak_less : ControlBlock → ControlBlock
one_weak_less b = record b { use_count_weak = b.use_count_weak - 1 }

dec_use_count_weak_step :
    (h : Heap) (c : ℕ) (b : ControlBlock)
    → (c == 0) ≡ false
    → h.blocks c ≡ some b
    → 0 < b.use_count_weak
    → dec_use_count_weak h c ≡ maybe_delete_ctrl_block (set_block h c (some (one_weak_less b))) c
unfolding dec_use_count_weak
dec_use_count_weak_step h c b nz e pos =
    let l : ltb 0 b.use_count_weak ≡ true = ground arith in
    rw (dec_use_count_weak, nz)
      (ap
          (λ o. with_block o λ b.
            if ltb 0 b.use_count_weak
            then maybe_delete_ctrl_block (set_block h c (some (one_weak_less b))) c
            else ok (h, c))
          e
        ∙ rw l refl)

dec_weak :
    (h : Heap) (s w : List ℕ) (c : ℕ) (b : ControlBlock)
    → Safe h s (c ∷ w)
    → (c == 0) ≡ false
    → h.blocks c ≡ some b
    → b.use_count ≡ count c s
    → b.use_count_weak ≡ suc (count c w)
    → Owns h b
    → (h' : Heap) × (r : ℕ) × (dec_use_count_weak h c ≡ ok (h', r))
      × Safe h' s w
      × (h'.objects ≡ h.objects)
dec_weak h s w c b a nz e n m o =
    let b1 = one_weak_less b in
    let h1 = set_block h c (some b1) in
    let at1 = set_block_same h c (some b1) in
    let start : dec_use_count_weak h c ≡ (
        if b.use_count + (b.use_count_weak - 1) == 0
        then ok (set_block h1 c none, 0)
        else ok (h1, c)) =
      dec_use_count_weak_step h c b nz e (omega arith)
      ∙ maybe_delete_ctrl_block_lem h1 c b1 nz at1 in
    let counts : (d : ℕ) → c ≢ d → (count d s ≡ count d s) × (count d w ≡ count d (c ∷ w)) =
      λ d ne. (refl, sym (count_other d c w ne)) in
    elim (Bool-cases (b.use_count + (b.use_count_weak - 1) == 0)) [
      | inl unused ↦ (
        set_block h1 c none,
        0,
        start ∙ rw unused refl,
        Step-Safe h (set_block h1 c none) s (c ∷ w) s w c none a
            (Step-block h (set_block h1 c none) s (c ∷ w) c b none a e (set_block_same h1 c none)
              (λ d ne. set_block_other h1 c d none ne ∙ set_block_other h c d (some b1) ne) refl
              (λ x at q. absurd (none-some at)) (λ q ne alive. alive))
            (ground arith, ground arith) counts,
        refl,
      )
      | inr used ↦ (
        h1,
        c,
        start ∙ rw used refl,
        Step-Safe h h1 s (c ∷ w) s w c (some b1) a
            (Step-block h h1 s (c ∷ w) c b (some b1) a e at1
              (λ d ne. set_block_other h c d (some b1) ne) refl
              (λ x at q. sym (ap (λ o. elim o [ none ↦ 0 | some y ↦ y.p ]) at))
              (λ q ne alive. alive))
            (n, omega arith, ground arith, record { alive = o.alive; gone = o.gone }) counts,
        refl,
      )
    ]

-- A weak pointer to `c` goes: no object ends.
pub dec_use_count_weak_lem :
    (h : Heap) (s w : List ℕ) (c : ℕ)
    → Safe h s (c ∷ w)
    → (h' : Heap) × (r : ℕ) × (dec_use_count_weak h c ≡ ok (h', r))
      × Safe h' s w
      × (h'.objects ≡ h.objects)
unfolding dec_use_count_weak
dec_use_count_weak_lem h s w c a = elim (Bool-cases (c == 0)) [
  | inl z ↦ (
    h,
    0,
    rw (dec_use_count_weak, z) refl,
    Safe-zero h s (c ∷ w) s w (λ d pos. (refl, sym (count_other d c w (ground arith)))) a,
    refl,
  )
  | inr nz ↦
      let pos : 0 < c = ground arith in
      let (b, e, n, m, o) = Safe-Block h s (c ∷ w) c a pos (omega (arith, count_same c w)) in
      dec_weak h s w c b a nz e n (m ∙ count_same c w) o
]

expired_lem :
    (h : Heap) (c : ℕ) (b : ControlBlock)
    → (c == 0) ≡ false
    → h.blocks c ≡ some b
    → expired h (record { ctrl = c }) ≡ ok (b.use_count == 0)
unfolding expired use_count_of
expired_lem h c b nz e =
    rw (expired, use_count_of, nz)
      (ap (λ o. with_block o (λ b. ok b.use_count) >>= λ n. ok (n == 0)) e)

with_null : (h : Heap) (s w : List ℕ) → Safe h s w → Safe h (0 ∷ s) w
with_null h s w a = Safe-zero h s w (0 ∷ s) w (λ d pos. (count_other d 0 s (omega arith), refl)) a

-- `lock` of a weak pointer in a safe heap returns. If its block has no shared pointer the result is
-- null and nothing changes; otherwise it is one more shared pointer of the block. No object ends.
pub lock_lem :
    (h : Heap) (s w : List ℕ) (c : ℕ)
    → Safe h s (c ∷ w)
    → (h' : Heap) × (r : ℕ) × (lock h (record { ctrl = c })
        ≡ ok (h', record { ctrl = r; alias = 0 }))
      × Safe h' (r ∷ s) (c ∷ w)
      × (h'.objects ≡ h.objects)
      × (((r ≡ c) × (0 < count c s)) ⊎ ((r ≡ 0) × ((c ≡ 0) ⊎ (count c s ≡ 0))))
unfolding lock expired use_count_of
lock_lem h s w c a = elim (Bool-cases (c == 0)) [
  | inl z ↦ (
    h,
    0,
    rw (lock, expired, use_count_of, z) refl,
    with_null h s (c ∷ w) a,
    refl,
    inr (refl, inl (ground arith)),
  )
  | inr nz ↦
      let pos : 0 < c = ground arith in
      let (b, e, n, m, o) = Safe-Block h s (c ∷ w) c a pos (omega (arith, count_same c w)) in
      let next : Bool → Outcome (Heap × SharedPtr) = λ gone.
        if gone
        then ok (h, record { ctrl = 0; alias = 0 })
        else (inc_use_count h c >>= λ h'. ok (h', record { ctrl = c; alias = 0 })) in
      let start : lock h (record { ctrl = c }) ≡ next (b.use_count == 0) =
        ap (λ x. x >>= next) (expired_lem h c b nz e) in
      elim (Bool-cases (b.use_count == 0)) [
        | inl over ↦ (
          h,
          0,
          start ∙ ap next over,
          with_null h s (c ∷ w) a,
          refl,
          inr (refl, inr (ground arith)),
        )
        | inr shared ↦
            let (h', runs, safe, objects) =
              inc_use_count_lem h s (c ∷ w) c a (inr (omega (arith, count_same c w))) in
            (
              h',
              c,
              start
                  ∙ ap next shared
                  ∙ ap (λ x. x >>= λ h''. ok (h'', record { ctrl = c; alias = 0 })) runs,
              safe,
              objects,
              inl (refl, ground arith),
            )
      ]
]
