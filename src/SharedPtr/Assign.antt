-- ===== src/SharedPtr/Assign.antt =====
-- New shared pointers, and the assignment of one to another.
use valkyrie.Base.{
  ℕ, suc, ◌<◌, ◌≡◌, ◌≢◌, refl, sym, ap, subst, ◌∙◌, List, ◌∷◌, true, false, none, some, inl, inr,
  ltb, ◌==◌, if◌then◌else◌, arith, Bool-cases,
}
use valkyrie.Base.Outcome.{ok, ◌>>=◌}
use valkyrie.SharedPtr.{
  ControlBlock, Heap, SharedPtr, set_block, with_block, from_pointer, destroy, reset, maybe_reset,
  copy, copy_assign,
}
use valkyrie.SharedPtr.Counts.{count, count_same, count_other, Counted, Safe, Step-Safe}
use valkyrie.SharedPtr.Owners.{Safe-zero, Safe-Block, inc_use_count_lem}
use valkyrie.SharedPtr.Releases.{set_block_same, set_block_other, Ends, dec_use_count_lem}

-- A new block for an object that is alive and that no block owns, or for null.
pub from_pointer-Safe :
    (h : Heap) (s w : List ℕ) (p : ℕ)
    → Safe h s w
    → (0 < p → h.objects p ≡ true)
    → ((d : ℕ) (e : ControlBlock) → h.blocks d ≡ some e → 0 < p → p ≢ e.p)
    → Safe (from_pointer h p).0 (h.next ∷ s) w
unfolding from_pointer
from_pointer-Safe h s w p a alive apart =
    let b : ControlBlock = record { p = p; use_count = 1; use_count_weak = 0 } in
    let h' = record (set_block h h.next (some b)) { next = suc h.next } in
    let (n, m) =
      subst (λ o. Counted h o (count h.next s) (count h.next w)) (a.free h.next (omega arith))
        (a.counted h.next a.positive) in
    Step-Safe h h' s w (h.next ∷ s) w h.next (some b) a
      (record {
        here = set_block_same h h.next (some b);
        elsewhere = λ d ne. set_block_other h h.next d (some b) ne;
        nonnull = a.positive;
        below = omega arith;
        grows = omega arith;
        spares = λ d e ne at pos live. live;
        apart = λ d x e ne mine at pos q.
            let same : p ≡ x.p = ap (λ o. elim o [ none ↦ 0 | some y ↦ y.p ]) mine in
            apart d e at (omega arith) (same ∙ q);
      })
      (
        omega (arith, count_same h.next s),
        sym m,
        omega (arith, count_same h.next s),
        record { alive = λ u q. alive q; gone = λ z. absurd (omega arith) },
      )
      (λ d ne. (count_other d h.next s ne, refl))

pub destroy_lem :
    (h : Heap) (s w : List ℕ) (x : SharedPtr)
    → Safe h (x.ctrl ∷ s) w
    → (h' : Heap) × (destroy h x ≡ ok h') × Safe h' s w × Ends h h' s x.ctrl
unfolding destroy
destroy_lem h s w x a =
    let (h', r, runs, safe, ends) = dec_use_count_lem h s w x.ctrl a in
    (h', ap (λ o. o >>= λ r. ok r.0) runs, safe, ends)

swap_counts : (c d : ℕ) (s : List ℕ) (k : ℕ) → count k (c ∷ d ∷ s) ≡ count k (d ∷ c ∷ s)
swap_counts c d s k = ground arith

-- `reset` of a shared pointer lets go of its block and leaves it with a new one, which owns nothing.
pub reset_lem :
    (h : Heap) (s w : List ℕ) (x : SharedPtr)
    → Safe h (x.ctrl ∷ s) w
    → (h' : Heap) × (reset h x 0 ≡ ok (h', record { ctrl = h.next; alias = 0 }))
      × Safe h' (h.next ∷ s) w
      × Ends (from_pointer h 0).0 h' (h.next ∷ s) x.ctrl
unfolding reset from_pointer
reset_lem h s w x a =
    let h1 = (from_pointer h 0).0 in
    let one =
      from_pointer-Safe h (x.ctrl ∷ s) w 0 a (λ q. absurd (omega arith))
        (λ d e at q. absurd (omega arith)) in
    let two =
      Safe-zero h1 (h.next ∷ x.ctrl ∷ s) w (x.ctrl ∷ h.next ∷ s) w
        (λ d pos. (swap_counts x.ctrl h.next s d, refl)) one in
    let (h', runs, safe, ends) = destroy_lem h1 (h.next ∷ s) w x two in
    (h', ap (λ o. o >>= λ h2. ok (h2, record { ctrl = h.next; alias = 0 })) runs, safe, ends)

maybe_reset_step :
    (h : Heap) (x : SharedPtr) (b : ControlBlock)
    → 0 < x.ctrl
    → h.blocks x.ctrl ≡ some b
    → 0 < b.use_count
    → maybe_reset h x ≡ (reset h x 0 >>= λ r. ok r.0)
unfolding maybe_reset
maybe_reset_step h x b pos e used =
    let nz : (x.ctrl == 0) ≡ false = ground arith in
    let l : ltb 0 b.use_count ≡ true = ground arith in
    rw (maybe_reset, nz)
      (ap (λ o. with_block o λ b. if ltb 0 b.use_count then (reset h x 0 >>= λ r. ok r.0) else ok h)
          e
        ∙ rw l refl)

count_second : (c x : ℕ) (s : List ℕ) → 0 < count c (x ∷ c ∷ s)
count_second c x s =
    let e = count_same c s in
    elim (Bool-cases (x == c)) [ inl t ↦ rw t (omega arith) | inr f ↦ rw f (omega (arith, e)) ]

-- In a safe heap, the copy assignment to a shared pointer that is not null, from another one,
-- returns. The old block has lost a pointer, and its object ends if that was the last one; the new
-- one has one more, and the block that `reset` makes on the way stays counted without a pointer.
pub copy_assign_lem :
    (h : Heap) (s w : List ℕ) (x r : SharedPtr)
    → Safe h (x.ctrl ∷ r.ctrl ∷ s) w
    → 0 < x.ctrl
    → (h1 h' : Heap) × (copy_assign h x r ≡ ok (h', r))
      × Safe h' (r.ctrl ∷ h.next ∷ r.ctrl ∷ s) w
      × Ends (from_pointer h 0).0 h1 (h.next ∷ r.ctrl ∷ s) x.ctrl
      × (h'.objects ≡ h1.objects)
unfolding copy_assign copy
copy_assign_lem h s w x r a pos =
    let (b, e, n, m, o) =
      Safe-Block h (x.ctrl ∷ r.ctrl ∷ s) w x.ctrl a pos
        (omega (arith, count_same x.ctrl (r.ctrl ∷ s))) in
    let used = count_same x.ctrl (r.ctrl ∷ s) in
    let (h1, runs, safe, ends) = reset_lem h (r.ctrl ∷ s) w x a in
    let there = count_second r.ctrl h.next s in
    let (h', more, safe', objects) =
      inc_use_count_lem h1 (h.next ∷ r.ctrl ∷ s) w r.ctrl safe (inr (omega arith)) in
    let first : maybe_reset h x ≡ ok h1 =
      maybe_reset_step h x b pos e (omega (arith, n, used)) ∙ ap (λ o. o >>= λ r. ok r.0) runs in
    (
      h1,
      h',
      ap (λ o. o >>= λ h'. copy h' r) first ∙ ap (λ o. o >>= λ h'. ok (h', r)) more,
      safe',
      ends,
      objects,
    )
