-- ===== src/LinkedList/Removals.antt =====
-- `remove` and `pop_back` of include/lib/List.h.
use valkyrie.Base.{
  ℕ, zero, suc, ◌^◌, ◌<◌, ◌≡◌, refl, sym, ap, subst, ◌∙◌, List, [], ◌∷◌, ◌++◌, map, append-nil,
  length, length-append, Bool, false, Option, none, some, ◌⊎◌, inl, inr, ◌==◌, if◌then◌else◌,
  ==_refl, arith, Bool-cases,
}
use valkyrie.Base.Outcome.{Outcome, ok, ◌>>=◌}
use valkyrie.LinkedList.{LinkedList, list_del_entry, find_node, remove, pop_back}
use valkyrie.LinkedList.Rings.{Chain, Chain-next, Chain-prev, Fresh, last_of, first_of}
use valkyrie.LinkedList.Ends.{IsRing, Holds, list_del_entry_lem}
use valkyrie.LinkedList.Pushes.{length-map, map-append}

module _ {A : Type 0} where
  -- The list without the first value that passes the test.
  abbrev pub remove_first : (A → Bool) → List A → List A
  remove_first test [] = []
  remove_first test (x ∷ l) = let rest = remove_first test l in if test x then l else x ∷ rest

  -- What the walk over the nodes finds.
  Found : LinkedList A → (A → Bool) → List ℕ → Outcome (Option ℕ) → Type 0
  Found l test ns out =
      ((out ≡ ok none) × (remove_first test (map l.value ns) ≡ map l.value ns))
      ⊎ ((ls : List ℕ) × (e : ℕ) × (rs : List ℕ) × (ns ≡ ls ++ e ∷ rs)
          × (out ≡ ok (some e))
          × (remove_first test (map l.value ns) ≡ map l.value (ls ++ rs)))

  find_node_lem :
      (fuel : ℕ) (l : LinkedList A) (test : A → Bool) (a : ℕ) (ns : List ℕ)
      → Chain l.next l.prev a ns l.head
      → Fresh l.head ns
      → length ns < fuel
      → Found l test ns (find_node fuel l test (first_of ns l.head))
  unfolding find_node Found
  find_node_lem zero l test a ns c f h = absurd (omega arith)
  find_node_lem (suc fuel) l test a [] c f h = inl (rw (find_node, ==_refl l.head) refl, refl)
  find_node_lem (suc fuel) l test a (n ∷ ns) (c, d, r) (ne, f) h =
      let not_head : (n == l.head) ≡ false = ground (arith, ne) in
      let next = Chain-next l.next l.prev n l.head ns r in
      elim (Bool-cases (test (l.value n))) [
        | inl hit ↦ inr ([], n, ns, refl, rw (find_node, not_head, hit) refl, rw hit refl)
        | inr miss ↦
            let step : find_node (suc fuel) l test n ≡ find_node fuel l test (first_of ns l.head) =
              rw (find_node, not_head, miss) (ap (find_node fuel l test) next) in
            elim (find_node_lem fuel l test n ns r f (omega arith)) [
              | inl (runs, kept) ↦ inl (step ∙ runs, rw miss (ap (λ k. l.value n ∷ k) kept))
              | inr (ls, e, rs, split, runs, cut) ↦ inr (
                n ∷ ls,
                e,
                rs,
                ap (λ k. n ∷ k) split,
                step ∙ runs,
                rw miss (ap (λ k. l.value n ∷ k) cut),
              )
            ]
      ]

  -- `remove` on a ring of fewer than 2^64 nodes returns on more fuel than it has nodes, and leaves
  -- a ring that holds the values in their order without the first one that passes the test, if one
  -- does.
  pub remove_lem :
      (fuel : ℕ) (l : LinkedList A) (test : A → Bool) (xs : List A)
      → Holds l xs
      → length xs < fuel
      → length xs < 2 ^ 64
      → (l' : LinkedList A) × (remove fuel l test ≡ ok l') × Holds l' (remove_first test xs)
  unfolding remove Found
  remove_lem fuel l test xs (ns, r, e) h room =
      let n = length-map l.value ns in
      let m = ap length e in
      let at = Chain-next l.next l.prev l.head l.head ns r.chain in
      let after : Option ℕ → Outcome (LinkedList A) =
        λ o. ok (elim o [ none ↦ l | some node ↦ list_del_entry l node ]) in
      let start : remove fuel l test ≡ (find_node fuel l test (first_of ns l.head) >>= after) =
        ap (λ k. find_node fuel l test k >>= after) at in
      elim (find_node_lem fuel l test l.head ns r.chain r.no_head (omega arith)) [
        | inl (runs, kept) ↦
            (l, start ∙ ap (λ o. o >>= after) runs, (ns, r, sym kept ∙ ap (remove_first test) e))
        | inr (ls, x, rs, split, runs, cut) ↦
            let k = ap length split in
            let (ring, values) =
              list_del_entry_lem l x ls rs (subst (IsRing l) split r) (omega arith) in
            (
              list_del_entry l x,
              start ∙ ap (λ o. o >>= after) runs,
              (
                ls ++ rs,
                ring,
                ap (λ f. map f (ls ++ rs)) values ∙ sym cut ∙ ap (remove_first test) e,
              ),
            )
      ]

  abbrev drop_last : List A → List A
  drop_last [] = []
  drop_last (x ∷ []) = []
  drop_last (x ∷ y ∷ l) = x ∷ drop_last (y ∷ l)

  drop_last-append : (l : List A) (v : A) → drop_last (l ++ v ∷ []) ≡ l
  drop_last-append [] v = refl
  drop_last-append (x ∷ []) v = refl
  drop_last-append (x ∷ y ∷ l) v = ap (λ k. x ∷ k) (drop_last-append (y ∷ l) v)

snoc : (n : ℕ) (ns : List ℕ) → (ls : List ℕ) × (e : ℕ) × (n ∷ ns ≡ ls ++ e ∷ [])
snoc n [] = ([], n, refl)
snoc n (m ∷ ns) = let (ls, e, split) = snoc m ns in (n ∷ ls, e, ap (λ k. n ∷ k) split)

last_of-append : (a e : ℕ) (ls : List ℕ) → last_of a (ls ++ e ∷ []) ≡ e
last_of-append a e [] = refl
last_of-append a e (n ∷ ls) = last_of-append n e ls

module _ {A : Type 0} where
  -- A pop at the back of a ring that is not empty takes out its last value.
  pub pop_back_lem :
      (l : LinkedList A) (v : A) (xs : List A)
      → Holds l (xs ++ v ∷ [])
      → length (xs ++ v ∷ []) < 2 ^ 64
      → Holds (pop_back l) xs
  unfolding pop_back
  pop_back_lem l v xs ([], r, e) room =
      let n = ap length e in absurd (omega (arith, n, length-append xs (v ∷ [])))
  pop_back_lem l v xs (n ∷ ns, r, e) room =
      let (ls, x, split) = snoc n ns in
      let k = length-map l.value (n ∷ ns) in
      let m = ap length e in
      let j = ap length split in
      let r' = subst (IsRing l) split r in
      let at =
        Chain-prev l.next l.prev l.head l.head (ls ++ x ∷ []) r'.chain
        ∙ last_of-append l.head x ls in
      let (ring, values) = list_del_entry_lem l x ls [] r' (omega arith) in
      let both = sym (map-append l.value ls (x ∷ [])) ∙ ap (map l.value) (sym split) ∙ e in
      subst (λ p. Holds (list_del_entry l p) xs) (sym at)
        (
          ls ++ [],
          ring,
          ap (λ f. map f (ls ++ [])) values
              ∙ ap (map l.value) (append-nil ls)
              ∙ sym (drop_last-append (map l.value ls) (l.value x))
              ∙ ap drop_last both
              ∙ drop_last-append xs v,
        )
