-- ===== src/Deque/Refine.antt =====
-- The calls of include/lib/Deque.h as operations on lists.
use valkyrie.Base.{
  ℕ, ◌+◌, ◌-◌, ◌^◌, ◌<◌, ◌≡◌, sym, List, [], ◌∷◌, ◌++◌, length, length-append, Bool, false, none,
  some, arith, ◌==◌, if◌then◌else◌, subst, append-nil, append_assoc, Bool-cases, inl, inr,
}
use valkyrie.Base.Outcome.{ok}
use valkyrie.Deque.{
  Deque, insert, erase, clear, push_back, push_front, pop_front, pop_back, find, find_from, remove,
}
use valkyrie.Deque.Laws.{clear-IsValid}
use valkyrie.Deque.Contents.{Holds, insert-Holds, erase-Holds, read-Holds}
use Prim.{tt}

-- The list without the first element that equals `val`.
abbrev pub remove_first : {A : Type 0} → (A → A → Bool) → A → List A → List A
remove_first eq val [] = []
remove_first eq val (x ∷ l) = if eq x val then l else x ∷ remove_first eq val l

module _ {A : Type 0} (blank : A) (d : Deque A) (l : List A) where
  -- `push_back` puts the element behind the others.
  pub push_back-Holds :
      (x : A)
      → Holds d l
      → d.capacity < 2 ^ 30
      → (after : Deque A) × (push_back blank d x ≡ ok after) × Holds after (l ++ x ∷ [])
  unfolding push_back
  push_back-Holds x h c =
      subst
        (λ (k : ℕ). (after : Deque A) × (insert blank d k x ≡ ok after) × Holds after (l ++ x ∷ []))
        (sym h.size) (insert-Holds blank d l [] x (rw (append-nil l) h) c)

  -- `push_front` puts the element before the others.
  pub push_front-Holds :
      (x : A)
      → Holds d l
      → d.capacity < 2 ^ 30
      → (after : Deque A) × (push_front blank d x ≡ ok after) × Holds after (x ∷ l)
  unfolding push_front
  push_front-Holds x h c = insert-Holds blank d [] l x h c

  -- `pop_front` takes the first element off.
  pub pop_front-Holds : (x : A) → Holds d (x ∷ l) → Holds (pop_front blank d) l
  unfolding pop_front
  pop_front-Holds x h = erase-Holds blank d [] l x h

  -- `pop_back` takes the last element off.
  pub pop_back-Holds : (x : A) → Holds d (l ++ x ∷ []) → Holds (pop_back blank d) l
  unfolding pop_back
  pop_back-Holds x h =
      let n = length-append l (x ∷ []) in
      let s = h.size in
      let z : (d.size == 0) ≡ false = ground arith in
      let e : d.size - 1 ≡ length l = omega arith in
      rw (z, e)
        (subst (Holds (erase blank d (length l))) (append-nil l) (erase-Holds blank d l [] x h))

  -- `clear` drops all elements.
  pub clear-Holds : Holds (clear blank d) []
  clear-Holds = let r = clear-IsValid blank d in record { valid = r.0; size = r.1; at = tt }

module _ {A : Type 0} (blank : A) (eq : A → A → Bool) (val : A) (d : Deque A) where
  -- The deque after the search, `n` rounds from index `k` on.
  abbrev searched : ℕ → ℕ → Deque A
  searched n k = elim (find_from eq n d.cells val k) [ none ↦ d | some i ↦ erase blank d i ]

  remove_from :
      (p r : List A)
      → Holds d (p ++ r)
      → Holds (searched (length r) (length p)) (p ++ remove_first eq val r)
  unfolding find_from
  remove_from p [] h = h
  remove_from p (x ∷ r) h =
      let e = (read-Holds blank d p r x h).0 in
      rw (searched, e)
        (elim (Bool-cases (eq x val)) [
          | inl y ↦ rw y (erase-Holds blank d p r x h)
          | inr n ↦ rw n (
              subst (Holds (searched (length r) (length p + 1)))
                (append_assoc p (x ∷ []) (remove_first eq val r))
                (subst
                  (λ (k : ℕ).
                    Holds (searched (length r) k) ((p ++ x ∷ []) ++ remove_first eq val r))
                  (length-append p (x ∷ []))
                  (remove_from (p ++ x ∷ []) r
                    (subst (Holds d) (sym (append_assoc p (x ∷ []) r)) h))))
        ])

  -- `remove` takes off the first element that equals the value, if there is one.
  pub remove-Holds :
      (l : List A) → Holds d l → Holds (remove blank eq d val) (remove_first eq val l)
  unfolding remove find
  remove-Holds l h =
      subst (λ (n : ℕ). Holds (searched n 0) (remove_first eq val l)) (sym h.size)
        (remove_from [] l h)
