-- ===== src/Buddy/Chains.antt =====
-- Linked lists through a `next` field, seen as lists without repetition.
use valkyrie.Base.{
  ℕ, zero, suc, ◌+◌, ◌-◌, ◌≤◌, ◌<◌, ◌≡◌, ◌≢◌, List, [], ◌∷◌, Option, none, some, arith, ◌==◌,
  if◌then◌else◌, length,
}
use valkyrie.Base.Maps.{update}

-- How often `a` stands in a list.
unfoldable pub count : ℕ → List ℕ → ℕ
count a [] = 0
count a (x ∷ l) = (if x == a then 1 else 0) + count a l

-- The list without the first `a`.
unfoldable pub remove : ℕ → List ℕ → List ℕ
remove a [] = []
remove a (x ∷ l) = if x == a then l else x ∷ remove a l

-- From `p` on, the pointers run through `l` and end in null.
abbrev pub Chain : (ℕ → Option ℕ) → Option ℕ → List ℕ → Type 0
Chain next p [] = p ≡ none
Chain next p (x ∷ l) = (p ≡ some x) × Chain next (next x) l

-- No element stands twice.
abbrev pub Distinct : List ℕ → Type 0
Distinct l = (a : ℕ) → count a l ≤ 1

pub count_self : (a : ℕ) (l : List ℕ) → count a (a ∷ l) ≡ suc (count a l)
unfolding count
count_self a l = ground arith

pub count_ne : (a x : ℕ) (l : List ℕ) → x ≢ a → count a (x ∷ l) ≡ count a l
unfolding count
count_ne a x l h = ground arith

pub count-le-cons : (a x : ℕ) (l : List ℕ) → count a l ≤ count a (x ∷ l)
unfolding count
count-le-cons a x l = ground arith

pub count-remove :
    (a i : ℕ) (l : List ℕ) → count a (remove i l) ≡ (if i == a then count a l - 1 else count a l)
unfolding count remove
count-remove a i [] = ground arith
count-remove a i (x ∷ l) = ground (arith, count-remove a i l)

pub Chain-ext :
    (n m : ℕ → Option ℕ) (p : Option ℕ) (l : List ℕ)
    → ((a : ℕ) → m a ≡ n a)
    → Chain n p l
    → Chain m p l
Chain-ext n m p [] h c = c
Chain-ext n m p (x ∷ l) h (e, c) = (e, rw (h x) (Chain-ext n m (n x) l h c))

-- A write to a cell that is not in the list.
pub Chain-update :
    (n : ℕ → Option ℕ) (p q : Option ℕ) (i : ℕ) (l : List ℕ)
    → count i l ≡ 0
    → Chain n p l
    → Chain (update n i q) p l
unfolding count
Chain-update n p q i [] h c = c
Chain-update n p q i (x ∷ l) h (e, c) = (
  e,
  let f : update n i q x ≡ n x = ground arith in rw f (Chain-update n (n x) q i l (ground arith) c),
)

length-remove : (i : ℕ) (l : List ℕ) → length l ≤ suc (length (remove i l))
unfolding remove
length-remove i [] = omega arith
length-remove i (x ∷ l) = ground (arith, length-remove i l)

-- A list without repetition of numbers below `n` is no longer than `n`.
pub length_bound :
    (n : ℕ) (l : List ℕ) → Distinct l → ((a : ℕ) → n ≤ a → count a l ≡ 0) → length l ≤ n
length_bound zero [] d h = omega arith
length_bound zero (x ∷ l) d h = absurd (omega (arith, h x (omega arith), count_self x l))
length_bound (suc n) l d h =
    omega (arith, length-remove n l, length_bound n (remove n l) smaller below)
  where
    smaller : (a : ℕ) → count a (remove n l) ≤ 1
    smaller a = ground (arith, count-remove a n l, d a)

    below : (a : ℕ) → n ≤ a → count a (remove n l) ≡ 0
    below a p = ground (arith, count-remove a n l, d a, h a)

-- A chain reads the `next` fields of its own elements alone.
pub Chain-agree :
    (n m : ℕ → Option ℕ) (p : Option ℕ) (l : List ℕ)
    → ((a : ℕ) → 0 < count a l → m a ≡ n a)
    → Chain n p l
    → Chain m p l
Chain-agree n m p [] h c = c
Chain-agree n m p (x ∷ l) h (e, c) = (
  e,
  rw (h x (omega (arith, count_self x l)))
      (Chain-agree n m (n x) l (λ a q. h a (omega (arith, count-le-cons a x l))) c),
)
