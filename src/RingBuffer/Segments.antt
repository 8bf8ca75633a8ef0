-- ===== src/RingBuffer/Segments.antt =====
-- Stretches of a ring seen as lists.
use native.Mathlib.Nat.{mod-eq_of_lt, mod_self}
use valkyrie.Base.{
  ℕ, ◌+◌, ◌%◌, ◌≤◌, ◌<◌, ◌≡◌, ap, ◌∙◌, List, [], ◌∷◌, ◌++◌, length, arith, ◌==◌, if◌then◌else◌,
  false, Bool-cases, inl, inr, ◌⊎◌,
}
use valkyrie.Base.Maps.{update}

pub next_index : (i cap : ℕ) → i < cap → (i + 1) % cap ≡ (if i + 1 == cap then 0 else i + 1)
next_index i cap h = elim (Bool-cases (i + 1 == cap)) [
  | inl e ↦ let f : i + 1 ≡ cap = ground arith in rw (e, f) (mod_self cap)
  | inr e ↦ rw e (mod-eq_of_lt (ground arith))
]

pub next-below : (i cap : ℕ) → i < cap → (i + 1) % cap < cap
next-below i cap h = let n = next_index i cap h in ground arith

module _ {A : Type 0} (cap : ℕ) where
  -- From cell `i` on up to cell `t`, going round, the ring holds the list.
  abbrev pub Segment : (ℕ → A) → ℕ → ℕ → List A → Type 0
  Segment f i t [] = i ≡ t
  Segment f i t (x ∷ l) = (f i ≡ x) × Segment f ((i + 1) % cap) t l

  -- The list says how far it is from `i` to `t`.
  pub Segment-distance :
      (f : ℕ → A) (i t : ℕ) (l : List A)
      → i < cap
      → length l ≤ cap
      → Segment f i t l
      → (i + length l ≡ t) ⊎ (i + length l ≡ t + cap)
  Segment-distance f i t [] h b s = inl (omega arith)
  Segment-distance f i t (x ∷ l) h b (e, s) =
      let n = next_index i cap h in
      let d = Segment-distance f ((i + 1) % cap) t l (next-below i cap h) (omega arith) s in
      ground arith

  -- A write to a cell outside the stretch.
  pub Segment-update :
      (f : ℕ → A) (i t : ℕ) (l : List A) (v : A)
      → i < cap
      → t < cap
      → length l < cap
      → Segment f i t l
      → Segment (update f t v) i t l
  Segment-update f i t [] v h k b s = s
  Segment-update f i t (x ∷ l) v h k b (e, s) = (
    (let d = Segment-distance f i t (x ∷ l) h (omega arith) (e, s) in
        let ne : (t == i) ≡ false = ground arith in rw ne e),
    Segment-update f ((i + 1) % cap) t l v (next-below i cap h) k (omega arith) s,
  )

  -- One more element at the end.
  pub Segment-snoc :
      (f : ℕ → A) (i t : ℕ) (l : List A) (v : A)
      → f t ≡ v
      → Segment f i t l
      → Segment f i ((t + 1) % cap) (l ++ v ∷ [])
  Segment-snoc f i t [] v e s = (ap f s ∙ e, ap (λ (k : ℕ). (k + 1) % cap) s)
  Segment-snoc f i t (x ∷ l) v e (a, s) = (a, Segment-snoc f ((i + 1) % cap) t l v e s)
