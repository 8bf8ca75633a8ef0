-- ===== src/LinkedList/Pushes.antt =====
-- What the ring of include/lib/List.h holds after a push or a pop.
use valkyrie.Base.{
  ℕ, suc, ◌^◌, ◌<◌, ◌≡◌, refl, sym, ap, subst, ◌∙◌, List, [], ◌∷◌, ◌++◌, map, append-nil, length,
  arith, drop,
}
use valkyrie.Base.Maps.{update}
use valkyrie.LinkedList.{
  LinkedList, new_node, list_add, list_del_entry, push_back, push_front, pop_front,
}
use valkyrie.LinkedList.Rings.{Chain-next, Chain-prev, last_of, first_of, other, same}
use valkyrie.LinkedList.Ends.{
  IsRing, Holds, Below-Fresh, map-other, list_add_lem, list_del_entry_lem,
}

pub map-append : {A B : Type 0} (f : A → B) (l m : List A) → map f (l ++ m) ≡ map f l ++ map f m
map-append f [] m = refl
map-append f (x ∷ l) m = ap (λ k. f x ∷ k) (map-append f l m)

pub length-map : {A B : Type 0} (f : A → B) (l : List A) → length (map f l) ≡ length l
length-map f [] = refl
length-map f (x ∷ l) = ap suc (length-map f l)

module _ {A : Type 0} where
  -- A push at the back of a ring of fewer than 2^64 - 1 nodes leaves a ring that holds the new
  -- value behind the others.
  pub push_back_lem :
      (l : LinkedList A) (v : A) (xs : List A)
      → Holds l xs
      → suc (length xs) < 2 ^ 64
      → Holds (push_back l v) (xs ++ v ∷ [])
  unfolding push_back
  push_back_lem l v xs (ns, r, e) room =
      let n = length-map l.value ns in
      let m = ap length e in
      let whole = append-nil ns in
      let r' = subst (IsRing l) (sym whole) r in
      let k = ap length whole in
      let at : update l.prev l.fresh 0 l.head ≡ last_of l.head ns =
        other l.prev l.fresh 0 l.head (omega (arith, r.older_head))
        ∙ Chain-prev l.next l.prev l.head l.head ns r.chain in
      let (ring, values) = list_add_lem l v ns [] r' (omega arith) in
      subst (λ p. Holds (list_add (new_node l v) l.fresh p l.head) (xs ++ v ∷ [])) (sym at)
        (
          ns ++ l.fresh ∷ [],
          ring,
          ap (λ f. map f (ns ++ l.fresh ∷ [])) values
              ∙ map-append (update l.value l.fresh v) ns (l.fresh ∷ [])
              ∙ ap (λ z. z ++ update l.value l.fresh v l.fresh ∷ [])
                  (map-other l.value l.fresh v ns (Below-Fresh l.fresh ns r.older) ∙ e)
              ∙ ap (λ z. xs ++ z ∷ []) (same l.value l.fresh v),
        )

  -- A push at the front returns a ring that holds the new value before the others.
  pub push_front_lem :
      (l : LinkedList A) (v : A) (xs : List A)
      → Holds l xs
      → suc (length xs) < 2 ^ 64
      → Holds (push_front l v) (v ∷ xs)
  unfolding push_front
  push_front_lem l v xs (ns, r, e) room =
      let n = length-map l.value ns in
      let m = ap length e in
      let at : update l.next l.fresh 0 l.head ≡ first_of ns l.head =
        other l.next l.fresh 0 l.head (omega (arith, r.older_head))
        ∙ Chain-next l.next l.prev l.head l.head ns r.chain in
      let (ring, values) = list_add_lem l v [] ns r (omega arith) in
      subst (λ p. Holds (list_add (new_node l v) l.fresh l.head p) (v ∷ xs)) (sym at)
        (
          l.fresh ∷ ns,
          ring,
          ap (λ f. map f (l.fresh ∷ ns)) values
              ∙ ap (λ z. update l.value l.fresh v l.fresh ∷ z)
                  (map-other l.value l.fresh v ns (Below-Fresh l.fresh ns r.older) ∙ e)
              ∙ ap (λ z. z ∷ xs) (same l.value l.fresh v),
        )

  -- A pop at the front of a ring that is not empty and has fewer than 2^64 nodes leaves a ring that
  -- holds the other values in their order.
  pub pop_front_lem :
      (l : LinkedList A) (v : A) (xs : List A)
      → Holds l (v ∷ xs)
      → suc (length xs) < 2 ^ 64
      → Holds (pop_front l) xs
  unfolding pop_front
  pop_front_lem l v xs ([], r, e) room = absurd (subst (λ k. elim k [ [] ↦ ℕ | _ ∷ _ ↦ ⊥ ]) e 0)
  pop_front_lem l v xs (n ∷ ns, r, e) room =
      let k = length-map l.value ns in
      let m = ap length e in
      let at = Chain-next l.next l.prev l.head l.head (n ∷ ns) r.chain in
      let (ring, values) = list_del_entry_lem l n [] ns r (omega arith) in
      subst (λ p. Holds (list_del_entry l p) xs) (sym at)
        (ns, ring, ap (λ f. map f ns) values ∙ ap (drop 1) e)
