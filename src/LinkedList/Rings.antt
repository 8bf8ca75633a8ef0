-- ===== src/LinkedList/Rings.antt =====
-- Which nodes a ring has, and how an entry is added to it and taken out of it.
use Prim.{Unit, tt}
use valkyrie.Base.{ℕ, ◌≡◌, ◌≢◌, refl, sym, ◌∙◌, List, [], ◌∷◌, ◌++◌, false, ◌==◌, ==_refl, arith}
use valkyrie.Base.Maps.{update}

-- From `a` the pointers lead over the nodes of the list to `b`, and back.
abbrev pub Chain : (ℕ → ℕ) → (ℕ → ℕ) → ℕ → List ℕ → ℕ → Type 0
Chain next prev a [] b = (next a ≡ b) × (prev b ≡ a)
Chain next prev a (n ∷ ns) b = (next a ≡ n) × (prev n ≡ a) × Chain next prev n ns b

abbrev pub Fresh : ℕ → List ℕ → Type 0
Fresh x [] = Unit
Fresh x (y ∷ l) = (x ≢ y) × Fresh x l

abbrev pub Distinct : List ℕ → Type 0
Distinct [] = Unit
Distinct (x ∷ l) = Fresh x l × Distinct l

abbrev pub last_of : ℕ → List ℕ → ℕ
last_of a [] = a
last_of a (n ∷ ns) = last_of n ns

abbrev pub first_of : List ℕ → ℕ → ℕ
first_of [] b = b
first_of (n ∷ ns) b = n

pub Chain-next :
    (next prev : ℕ → ℕ) (a b : ℕ) (ns : List ℕ) → Chain next prev a ns b → next a ≡ first_of ns b
Chain-next next prev a b [] c = c.0
Chain-next next prev a b (n ∷ ns) c = c.0

pub Chain-prev :
    (next prev : ℕ → ℕ) (a b : ℕ) (ns : List ℕ) → Chain next prev a ns b → prev b ≡ last_of a ns
Chain-prev next prev a b [] c = c.1
Chain-prev next prev a b (n ∷ ns) (e, f, c) = Chain-prev next prev n b ns c

pub other {ℓ} : {A : Type ℓ} (f : ℕ → A) (k : ℕ) (v : A) (j : ℕ) → k ≢ j → update f k v j ≡ f j
other f k v j h = let ne : (k == j) ≡ false = ground arith in rw ne refl

pub same {ℓ} : {A : Type ℓ} (f : ℕ → A) (k : ℕ) (v : A) → update f k v k ≡ v
same f k v = rw (==_refl k) refl

flip : {a b : ℕ} → a ≢ b → b ≢ a
flip h e = h (sym e)

pub Fresh-last : (x a : ℕ) (l : List ℕ) → x ≢ a → Fresh x l → x ≢ last_of a l
Fresh-last x a [] h f = h
Fresh-last x a (n ∷ ns) h (e, f) = Fresh-last x n ns e f

pub Fresh-first : (x b : ℕ) (l : List ℕ) → x ≢ b → Fresh x l → x ≢ first_of l b
Fresh-first x b [] h f = h
Fresh-first x b (n ∷ ns) h (e, f) = e

pub Fresh-left : (x : ℕ) (l m : List ℕ) → Fresh x (l ++ m) → Fresh x l
Fresh-left x [] m f = tt
Fresh-left x (y ∷ l) m (e, f) = (e, Fresh-left x l m f)

pub Fresh-right : (x : ℕ) (l m : List ℕ) → Fresh x (l ++ m) → Fresh x m
Fresh-right x [] m f = f
Fresh-right x (y ∷ l) m (e, f) = Fresh-right x l m f

-- Changes of pointers that are not of the chain.
pub Chain-update_next :
    (next prev : ℕ → ℕ) (k v a b : ℕ) (ns : List ℕ)
    → k ≢ a
    → Fresh k ns
    → Chain next prev a ns b
    → Chain (update next k v) prev a ns b
Chain-update_next next prev k v a b [] h f (c, d) = (other next k v a h ∙ c, d)
Chain-update_next next prev k v a b (n ∷ ns) h (e, f) (c, d, r) =
    (other next k v a h ∙ c, d, Chain-update_next next prev k v n b ns e f r)

pub Chain-update_prev :
    (next prev : ℕ → ℕ) (k v a b : ℕ) (ns : List ℕ)
    → k ≢ b
    → Fresh k ns
    → Chain next prev a ns b
    → Chain next (update prev k v) a ns b
Chain-update_prev next prev k v a b [] h f (c, d) = (c, other prev k v b h ∙ d)
Chain-update_prev next prev k v a b (n ∷ ns) h (e, f) (c, d, r) =
    (c, other prev k v n e ∙ d, Chain-update_prev next prev k v n b ns h f r)

-- A new node between two parts of a chain.
pub Chain-insert :
    (next prev : ℕ → ℕ) (a b x : ℕ) (l m : List ℕ)
    → Chain next prev a (l ++ m) b
    → Distinct (l ++ m)
    → Fresh a (l ++ m)
    → Fresh b (l ++ m)
    → x ≢ a
    → x ≢ b
    → Fresh x (l ++ m)
    → let p = last_of a l in
      let n = first_of m b in
      Chain (update (update next x n) p x) (update (update prev n x) x p) a (l ++ x ∷ m) b
Chain-insert next prev a b x [] [] (c, d) di fa fb xa xb fx = (
  same (update next x b) a x,
  same (update prev b x) x a,
  (
    other (update next x b) a x x (flip xa) ∙ same next x b,
    other (update prev b x) x a b xb ∙ same prev b x,
  ),
)
Chain-insert next prev a b x [] (n ∷ m) (c, d, r) (fn, di) (an, fa) (bn, fb) xa xb (xn, fx) = (
  same (update next x n) a x,
  same (update prev n x) x a,
  (
    other (update next x n) a x x (flip xa) ∙ same next x n,
    other (update prev n x) x a n xn ∙ same prev n x,
    Chain-update_next (update next x n) (update (update prev n x) x a) a x n b m an fa (
        Chain-update_next next (update (update prev n x) x a) x n n b m xn fx (
          Chain-update_prev next (update prev n x) x a n b m xb fx
            (Chain-update_prev next prev n x n b m (flip bn) fn r))),
  ),
)
Chain-insert next prev a b x (y ∷ l) m (c, d, r) (fy, di) (ay, fa) (by, fb) xa xb (xy, fx) =
    let p = last_of y l in
    let n = first_of m b in
    (
      other (update next x n) p x a (flip (Fresh-last a y l ay (Fresh-left a l m fa)))
          ∙ other next x n a xa
          ∙ c,
      other (update prev n x) x p y xy
          ∙ other prev n x y (flip (Fresh-first y b m (flip by) (Fresh-right y l m fy)))
          ∙ d,
      Chain-insert next prev y b x l m r di fy fb xy xb fx,
    )

-- A node is taken out between two parts of a chain.
pub Chain-remove :
    (next prev : ℕ → ℕ) (a b e : ℕ) (l m : List ℕ)
    → Chain next prev a (l ++ e ∷ m) b
    → Distinct (l ++ e ∷ m)
    → Fresh a (l ++ e ∷ m)
    → Fresh b (l ++ e ∷ m)
    → let p = last_of a l in
      let n = first_of m b in
      Chain (update (update next p n) e 0) (update (update prev n p) e 0) a (l ++ m) b
Chain-remove next prev a b e [] [] (c, d, (f, g)) di (ae, fa) (be, fb) = (
  other (update next a b) e 0 a (flip ae) ∙ same next a b,
  other (update prev b a) e 0 b (flip be) ∙ same prev b a,
)
Chain-remove next prev a b e [] (n ∷ m) (c, d, (f, g, r)) ((en, fe), (fn, di)) (ae, (an, fa))
      (be, (bn, fb)) =
    (
      other (update next a n) e 0 a (flip ae) ∙ same next a n,
      other (update prev n a) e 0 n en ∙ same prev n a,
      Chain-update_next (update next a n) (update (update prev n a) e 0) e 0 n b m en fe (
          Chain-update_next next (update (update prev n a) e 0) a n n b m an fa (
            Chain-update_prev next (update prev n a) e 0 n b m (flip be) fe
              (Chain-update_prev next prev n a n b m (flip bn) fn r))),
    )
Chain-remove next prev a b e (y ∷ l) m (c, d, r) (fy, di) (ay, fa) (by, fb) =
    let p = last_of y l in
    let n = first_of m b in
    let (ye, fm) = Fresh-right y l (e ∷ m) fy in
    let (ae, am) = Fresh-right a l (e ∷ m) fa in
    (
      other (update next p n) e 0 a (flip ae)
          ∙ other next p n a (flip (Fresh-last a y l ay (Fresh-left a l (e ∷ m) fa)))
          ∙ c,
      other (update prev n p) e 0 y (flip ye)
          ∙ other prev n p y (flip (Fresh-first y b m (flip by) fm))
          ∙ d,
      Chain-remove next prev y b e l m r di fy fb,
    )
