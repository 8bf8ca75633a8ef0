-- ===== src/Deque/Contents.antt =====
-- A deque seen as the list of its elements.
use Prim.{Unit, tt}
use valkyrie.Base.{
  ℕ, suc, ◌+◌, ◌^◌, ◌<◌, ◌≡◌, ◌∙◌, List, [], ◌∷◌, ◌++◌, length, length-append, arith, subst,
}
use valkyrie.Base.Maps.{update}
use valkyrie.Base.Outcome.{ok}
use valkyrie.Deque.{Deque, insert, erase}
use valkyrie.Deque.Laws.{IsValid, insert_lem, erase_lem}

module _ {A : Type 0} where
  -- From cell `i` on, the array holds the list.
  abbrev pub At : (ℕ → A) → ℕ → List A → Type 0
  At f i [] = Unit
  At f i (x ∷ l) = (f i ≡ x) × At f (suc i) l

  -- The deque is valid, and its elements are the list.
  pub record Holds (d : Deque A) (l : List A) : Type 0 where
    pub valid : IsValid d
    pub size : d.size ≡ length l
    pub at : At d.cells 0 l

  At-append :
      (f : ℕ → A) (i : ℕ) (p r : List A) → At f i (p ++ r) → At f i p × At f (i + length p) r
  At-append f i [] r h = (tt, subst (λ k. At f k r) (omega arith) h)
  At-append f i (x ∷ p) r (e, h) =
      let (a, b) = At-append f (suc i) p r h in ((e, a), subst (λ k. At f k r) (omega arith) b)

  append-At :
      (f : ℕ → A) (i : ℕ) (p r : List A) → At f i p → At f (i + length p) r → At f i (p ++ r)
  append-At f i [] r a b = subst (λ k. At f k r) (omega arith) b
  append-At f i (x ∷ p) r (e, a) b =
      (e, append-At f (suc i) p r a (subst (λ k. At f k r) (omega arith) b))

  -- The list read `n` cells further on in another array.
  At-move :
      (f g : ℕ → A) (i k : ℕ) (l : List A)
      → ((j : ℕ) → j < length l → g (k + j) ≡ f (i + j))
      → At f i l
      → At g k l
  At-move f g i k [] h a = tt
  At-move f g i k (x ∷ l) h (e, a) = (
    subst (λ m. g m ≡ f i) (omega arith)
          (subst (λ m. g (k + 0) ≡ f m) (omega arith) (h 0 (omega arith)))
        ∙ e,
    At-move f g (suc i) (suc k) l
        (λ j lt.
          subst (λ m. g m ≡ f (suc i + j)) (omega arith)
            (subst (λ m. g (k + suc j) ≡ f m) (omega arith) (h (suc j) (omega arith))))
        a,
  )

module _ {A : Type 0} (blank : A) (d : Deque A) (p r : List A) where
  -- Inserting behind the elements of `p`.
  pub insert-Holds :
      (x : A)
      → Holds d (p ++ r)
      → d.capacity < 2 ^ 30
      → (after : Deque A) × (insert blank d (length p) x ≡ ok after) × Holds after (p ++ x ∷ r)
  insert-Holds x h c =
      let n = length-append p r in
      let m = length-append p (x ∷ r) in
      let s = h.size in
      let (after, runs, v, size, cells) = insert_lem blank d (length p) x h.valid (omega arith) c in
      let (a, b) = At-append d.cells 0 p r h.at in
      (
        after,
        runs,
        record {
          valid = v;
          size = omega arith;
          at =
              append-At after.cells 0 p (x ∷ r)
                (At-move d.cells after.cells 0 0 p (λ j k. ground (arith, cells (0 + j))) a)
                (
                  ground (arith, cells (0 + length p)),
                  At-move d.cells after.cells (0 + length p) (suc (0 + length p)) r
                      (λ j k. ground (arith, cells (suc (0 + length p) + j))) b,
                );
        },
      )

  -- Erasing the element behind those of `p`.
  pub erase-Holds : (x : A) → Holds d (p ++ x ∷ r) → Holds (erase blank d (length p)) (p ++ r)
  erase-Holds x h =
      let n = length-append p r in
      let m = length-append p (x ∷ r) in
      let s = h.size in
      let (v, size, cells) = erase_lem blank d (length p) h.valid (omega arith) in
      let (a, b) = At-append d.cells 0 p (x ∷ r) h.at in
      record {
        valid = v;
        size = omega arith;
        at = append-At _ 0 p r (At-move d.cells _ 0 0 p (λ j k. ground (arith, cells (0 + j))) a) (
            At-move d.cells _ (suc (0 + length p)) (0 + length p) r
              (λ j k. ground (arith, cells (0 + length p + j))) b.1);
      }

  -- Reading the element behind those of `p`.
  pub read-Holds : (x : A) → Holds d (p ++ x ∷ r) → (d.cells (length p) ≡ x) × (length p < d.size)
  read-Holds x h =
      let m = length-append p (x ∷ r) in
      let s = h.size in
      (
        subst (λ k. d.cells k ≡ x) (omega arith) (At-append d.cells 0 p (x ∷ r) h.at).1.0,
        omega arith,
      )

  -- Overwriting the element behind those of `p`.
  pub write-Holds :
      (x y : A)
      → Holds d (p ++ x ∷ r)
      → Holds (record d { cells = update d.cells (length p) y }) (p ++ y ∷ r)
  write-Holds x y h =
      let n = length-append p (y ∷ r) in
      let m = length-append p (x ∷ r) in
      let s = h.size in
      let (a, b) = At-append d.cells 0 p (x ∷ r) h.at in
      record {
        valid = record { fits = h.valid.fits; least = h.valid.least; small = h.valid.small };
        size = omega arith;
        at = append-At _ 0 p (y ∷ r) (At-move d.cells _ 0 0 p (λ j k. ground arith) a) (
          ground arith,
          At-move d.cells _ (suc (0 + length p)) (suc (0 + length p)) r (λ j k. ground arith) b.1,
        );
      }
