-- ===== src/LinkedList/Ends.antt =====
-- The operations of include/lib/List.h on the list of values that a ring holds.
use Prim.{Unit, tt}
use valkyrie.Base.{
  ℕ, suc, ◌+◌, ◌-◌, ◌%◌, ◌^◌, ◌<◌, ◌≡◌, ◌≢◌, refl, sym, ap, subst, ◌∙◌, List, [], ◌∷◌, ◌++◌, map,
  length, true, false, ◌==◌, arith,
}
use valkyrie.Base.Maps.{update}
use valkyrie.LinkedList.{
  LinkedList, new_node, is_list_add_valid, list_add, is_list_del_entry_valid, list_del,
  list_del_entry,
}
use valkyrie.LinkedList.Rings.{
  Chain, Fresh, Distinct, last_of, first_of, Chain-insert, Chain-remove, Chain-update_next,
  Chain-update_prev, Fresh-left, Fresh-right, Fresh-last, Fresh-first, other,
}

abbrev pub Below : ℕ → List ℕ → Type 0
Below n [] = Unit
Below n (x ∷ l) = (x < n) × Below n l

module _ {A : Type 0} where
  -- The ring has these nodes, in this order, and they are counted; newer nodes have greater addresses.
  pub record IsRing (l : LinkedList A) (ns : List ℕ) : Type 0 where
    pub chain : Chain l.next l.prev l.head ns l.head
    pub distinct : Distinct ns
    pub no_head : Fresh l.head ns
    pub counted : l.size ≡ length ns
    pub older : Below l.fresh ns
    pub older_head : l.head < l.fresh

  -- The ring holds these values, in this order.
  abbrev pub Holds : LinkedList A → List A → Type 0
  Holds l xs = (ns : List ℕ) × IsRing l ns × (map l.value ns ≡ xs)

pub Below-Fresh : (n : ℕ) (l : List ℕ) → Below n l → Fresh n l
Below-Fresh n [] b = tt
Below-Fresh n (x ∷ l) (h, b) = (omega arith, Below-Fresh n l b)

Below-insert : (n : ℕ) (l m : List ℕ) → Below n (l ++ m) → Below (suc n) (l ++ n ∷ m)
Below-insert n [] m b = (omega arith, later n m b)
  where
    later : (n : ℕ) (m : List ℕ) → Below n m → Below (suc n) m
    later n [] b = tt
    later n (x ∷ m) (h, b) = (omega arith, later n m b)
Below-insert n (x ∷ l) m (h, b) = (omega arith, Below-insert n l m b)

Below-remove : (n e : ℕ) (l m : List ℕ) → Below n (l ++ e ∷ m) → Below n (l ++ m)
Below-remove n e [] m (h, b) = b
Below-remove n e (x ∷ l) m (h, b) = (h, Below-remove n e l m b)

Fresh-insert : (x n : ℕ) (l m : List ℕ) → x ≢ n → Fresh x (l ++ m) → Fresh x (l ++ n ∷ m)
Fresh-insert x n [] m h f = (h, f)
Fresh-insert x n (y ∷ l) m h (e, f) = (e, Fresh-insert x n l m h f)

Fresh-remove : (x e : ℕ) (l m : List ℕ) → Fresh x (l ++ e ∷ m) → Fresh x (l ++ m)
Fresh-remove x e [] m (h, f) = f
Fresh-remove x e (y ∷ l) m (h, f) = (h, Fresh-remove x e l m f)

Distinct-insert :
    (n : ℕ) (l m : List ℕ) → Fresh n (l ++ m) → Distinct (l ++ m) → Distinct (l ++ n ∷ m)
Distinct-insert n [] m f d = (f, d)
Distinct-insert n (y ∷ l) m (e, f) (g, d) =
    (Fresh-insert y n l m (λ same. e (sym same)) g, Distinct-insert n l m f d)

Distinct-remove : (e : ℕ) (l m : List ℕ) → Distinct (l ++ e ∷ m) → Distinct (l ++ m)
Distinct-remove e [] m (f, d) = d
Distinct-remove e (y ∷ l) m (f, d) = (Fresh-remove y e l m f, Distinct-remove e l m d)

-- The pointers at a place between two parts of a chain, and at an entry.
Chain-split :
    (next prev : ℕ → ℕ) (a b : ℕ) (l m : List ℕ)
    → Chain next prev a (l ++ m) b
    → (next (last_of a l) ≡ first_of m b) × (prev (first_of m b) ≡ last_of a l)
Chain-split next prev a b [] [] (c, d) = (c, d)
Chain-split next prev a b [] (n ∷ m) (c, d, r) = (c, d)
Chain-split next prev a b (y ∷ l) m (c, d, r) = Chain-split next prev y b l m r

Chain-entry :
    (next prev : ℕ → ℕ) (a b e : ℕ) (l m : List ℕ)
    → Chain next prev a (l ++ e ∷ m) b
    → (next e ≡ first_of m b) × (prev (first_of m b) ≡ e)
Chain-entry next prev a b e [] [] (c, d, r) = r
Chain-entry next prev a b e [] (n ∷ m) (c, d, (f, g, r)) = (f, g)
Chain-entry next prev a b e (y ∷ l) m (c, d, r) = Chain-entry next prev y b e l m r

length-insert : (n : ℕ) (l m : List ℕ) → length (l ++ n ∷ m) ≡ suc (length (l ++ m))
length-insert n [] m = refl
length-insert n (y ∷ l) m = ap suc (length-insert n l m)

pub map-other :
    {A : Type 0} (f : ℕ → A) (k : ℕ) (v : A) (l : List ℕ)
    → Fresh k l
    → map (update f k v) l ≡ map f l
map-other f k v [] h = refl
map-other f k v (x ∷ l) (e, h) =
    ap (λ y. y ∷ map (update f k v) l) (other f k v x e) ∙ ap (λ t. f x ∷ t) (map-other f k v l h)

module _ {A : Type 0} where
  -- A new node between two parts of a ring.
  pub list_add_lem :
      (l : LinkedList A) (v : A) (ls rs : List ℕ)
      → IsRing l (ls ++ rs)
      → suc (length (ls ++ rs)) < 2 ^ 64
      → let l' = list_add (new_node l v) l.fresh (last_of l.head ls) (first_of rs l.head) in
        IsRing l' (ls ++ l.fresh ∷ rs) × (l'.value ≡ update l.value l.fresh v)
  unfolding list_add is_list_add_valid
  list_add_lem l v ls rs r room =
      let f = l.fresh in
      let p = last_of l.head ls in
      let n = first_of rs l.head in
      let made = new_node l v in
      let new_to : Fresh f (ls ++ rs) = Below-Fresh f (ls ++ rs) r.older in
      let fh : f ≢ l.head = omega (arith, r.older_head) in
      let chain =
        Chain-update_next l.next (update l.prev f 0) f 0 l.head l.head (ls ++ rs) fh new_to
          (Chain-update_prev l.next l.prev f 0 l.head l.head (ls ++ rs) fh new_to r.chain) in
      let (to, back_to) = Chain-split made.next made.prev l.head l.head ls rs chain in
      let fp = Fresh-last f l.head ls fh (Fresh-left f ls rs new_to) in
      let fn = Fresh-first f l.head rs fh (Fresh-right f ls rs new_to) in
      let a1 : (made.prev n == p) ≡ true = ground (arith, back_to) in
      let a2 : (made.next p == n) ≡ true = ground (arith, to) in
      let a3 : (f == p) ≡ false = ground (arith, fp) in
      let a4 : (f == n) ≡ false = ground (arith, fn) in
      let valid : is_list_add_valid made f p n ≡ true =
        rw (is_list_add_valid, a1, a2, a3, a4) refl in
      let result = record made {
        prev = update (update made.prev n f) f p;
        next = update (update made.next f n) p f;
        size = (made.size + 1) % 2 ^ 64;
      } in
      let eq : list_add made f p n ≡ result = rw (list_add, valid) refl in
      let total = length-insert f ls rs in
      let ring : IsRing result (ls ++ f ∷ rs) = record {
        chain =
            Chain-insert made.next made.prev l.head l.head f ls rs chain r.distinct r.no_head
              r.no_head fh fh new_to;
        distinct = Distinct-insert f ls rs new_to r.distinct;
        no_head = Fresh-insert l.head f ls rs (λ same. fh (sym same)) r.no_head;
        counted = omega (arith, r.counted, total);
        older = Below-insert f ls rs r.older;
        older_head = omega (arith, r.older_head);
      } in
      subst (λ k. IsRing k (ls ++ f ∷ rs) × (k.value ≡ update l.value f v)) (sym eq) (ring, refl)

  -- An entry of a ring is taken out.
  pub list_del_entry_lem :
      (l : LinkedList A) (e : ℕ) (ls rs : List ℕ)
      → IsRing l (ls ++ e ∷ rs)
      → length (ls ++ e ∷ rs) < 2 ^ 64
      → let l' = list_del_entry l e in IsRing l' (ls ++ rs) × (l'.value ≡ l.value)
  unfolding list_del_entry is_list_del_entry_valid list_del
  list_del_entry_lem l e ls rs r room =
      let p = last_of l.head ls in
      let n = first_of rs l.head in
      let (to, back_to) = Chain-split l.next l.prev l.head l.head ls (e ∷ rs) r.chain in
      let (on, from_next) = Chain-entry l.next l.prev l.head l.head e ls rs r.chain in
      let total = length-insert e ls rs in
      let result = record l {
        prev = update (update l.prev n p) e 0;
        next = update (update l.next p n) e 0;
        size = (l.size + (2 ^ 64 - 1)) % 2 ^ 64;
      } in
      let there = ap l.next back_to ∙ to in
      let here = ap l.prev on ∙ from_next in
      let a1 : (l.next (l.prev e) == e) ≡ true = ground (arith, there) in
      let a2 : (l.prev (l.next e) == e) ≡ true = ground (arith, here) in
      let valid : is_list_del_entry_valid l e ≡ true = rw (is_list_del_entry_valid, a1, a2) refl in
      let gone : ℕ → ℕ → LinkedList A = λ j k. record l {
        prev = update (update l.prev k j) e 0;
        next = update (update l.next j k) e 0;
        size = (l.size + (2 ^ 64 - 1)) % 2 ^ 64;
      } in
      let eq : list_del_entry l e ≡ result =
        rw (list_del_entry, valid) refl ∙ ap (λ j. gone j (l.next e)) back_to ∙ ap (gone p) on in
      let ring : IsRing result (ls ++ rs) = record {
        chain =
            Chain-remove l.next l.prev l.head l.head e ls rs r.chain r.distinct r.no_head r.no_head;
        distinct = Distinct-remove e ls rs r.distinct;
        no_head = Fresh-remove l.head e ls rs r.no_head;
        counted = omega (arith, r.counted, total);
        older = Below-remove l.fresh e ls rs r.older;
        older_head = r.older_head;
      } in
      subst (λ k. IsRing k (ls ++ rs) × (k.value ≡ l.value)) (sym eq) (ring, refl)
