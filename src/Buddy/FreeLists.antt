-- ===== src/Buddy/FreeLists.antt =====
-- The free lists hold the free blocks of a frame array, each once and under its order.
use valkyrie.Base.{
  ℕ, suc, ◌≤◌, ◌<◌, ◌≡◌, ◌≢◌, refl, sym, ap, ◌∙◌, List, [], ◌∷◌, Option, none, some, arith, ◌==◌,
  length, Bool-cases, inl, inr, ==_iff, leb, subst, true, false,
}
use valkyrie.Base.Maps.{update}
use valkyrie.Base.Outcome.{Outcome, ok}
use valkyrie.Buddy.{
  Buddy, Frame, free, set_next, set_free_list, del_entry_loop, free_list_del_head,
  free_list_del_entry, free_list_add_head, nr_pages, max_order,
}
use valkyrie.Buddy.Chains.{
  count, remove, Chain, Distinct, count_self, Chain-ext, Chain-update, Chain-agree, length_bound,
}
use valkyrie.Buddy.Links.{
  nexts, SameButLinks, Unlinked, del_entry_loop-Unlinked, count_later, remove_later, remove_head,
  nexts-set_next,
}
use valkyrie.Buddy.Frames.{weight, Shape, pow_pos}

pub record Linked (b : Buddy) (lists : ℕ → List ℕ) (f : ℕ → Frame) : Type 0 where
  pub chains : (k : ℕ) → Chain (nexts b) (b.free_lists k) (lists k)
  pub counts : (k i : ℕ) → count i (lists k) ≡ weight (f i) k
  pub orders : (i k : ℕ) → f i ≡ free k → (b.headers i).order ≡ k
  pub indices : (i : ℕ) → (b.headers i).index ≡ i

weight_le_one : (x : Frame) (k : ℕ) → weight x k ≤ 1
unfolding weight
weight_le_one x k = ground arith

weight_free : (k : ℕ) → weight (free k) k ≡ 1
unfolding weight
weight_free k = ground arith

pub le→leb : (a b : ℕ) → b < a → leb a b ≡ false
le→leb a b h = ground arith

pub del_head_runs :
    (b : Buddy) (i k head : ℕ)
    → (b.headers i).order ≡ k
    → k < max_order
    → b.free_lists k ≡ some head
    → free_list_del_head b i ≡ ok (set_next (set_free_list b k (nexts b head)) i none)
unfolding free_list_del_head
del_head_runs b i k head o lt h = rw (o, le→leb max_order k lt, h, o)

pub add_head_empty :
    (b : Buddy) (i k : ℕ)
    → (b.headers i).order ≡ k
    → k < max_order
    → b.free_lists k ≡ none
    → free_list_add_head b i ≡ ok (set_next (set_free_list b k (some i)) i none)
unfolding free_list_add_head
add_head_empty b i k o lt h = rw (o, le→leb max_order k lt, h, o)

pub add_head_before :
    (b : Buddy) (i k head : ℕ)
    → (b.headers i).order ≡ k
    → k < max_order
    → b.free_lists k ≡ some head
    → (head == i) ≡ false
    → free_list_add_head b i ≡ ok (set_free_list (set_next b i (some head)) k (some i))
unfolding free_list_add_head
add_head_before b i k head o lt h ne = rw (o, le→leb max_order k lt, h, ne, o)

-- The first round of the walk, whose block is not the one looked for.
walk_step :
    (fuel : ℕ) (b : Buddy) (i head : ℕ)
    → (head == i) ≡ false
    → del_entry_loop (suc fuel) b i none (some head)
      ≡ del_entry_loop fuel b i (some head) (nexts b head)
unfolding del_entry_loop
walk_step fuel b i head h = rw h

del_entry_walks :
    (b : Buddy) (i k head : ℕ)
    → (b.headers i).order ≡ k
    → b.free_lists k ≡ some head
    → (head == i) ≡ false
    → free_list_del_entry b i ≡ del_entry_loop nr_pages b i (some head) (nexts b head)
unfolding free_list_del_entry
del_entry_walks b i k head o h ne =
    let h' : b.free_lists (b.headers i).order ≡ some head = rw o h in
    rw (h', free_list_del_entry, ne, h') (walk_step nr_pages b i head ne)

pub del_entry_head :
    (b : Buddy) (i k head : ℕ)
    → (b.headers i).order ≡ k
    → b.free_lists k ≡ some head
    → (head == i) ≡ true
    → free_list_del_entry b i ≡ free_list_del_head b i
unfolding free_list_del_entry
del_entry_head b i k head o h e =
    let h' : b.free_lists (b.headers i).order ≡ some head = rw o h in
    rw (h', free_list_del_entry, e)

-- What a call leaves when it changes nothing but links and the list of one order.
pub record Relinked (b : Buddy) (lists : ℕ → List ℕ) (o : Outcome Buddy) : Type 0 where
  pub after : Buddy
  pub runs : o ≡ ok after
  pub same : SameButLinks b after
  pub chains : (k : ℕ) → Chain (nexts after) (after.free_lists k) (lists k)

module _ (b : Buddy) (lists : ℕ → List ℕ) (f : ℕ → Frame) (v : Linked b lists f) where
  distinct : (k : ℕ) → Distinct (lists k)
  distinct k a = omega (arith, v.counts k a, weight_le_one (f a) k)

  elsewhere_zero : (i k m : ℕ) → f i ≡ free k → k ≢ m → count i (lists m) ≡ 0
  unfolding weight
  elsewhere_zero i k m e h = ground (arith, v.counts m i)

  not_both : (j k m : ℕ) → k ≢ m → 0 < count j (lists m) → count j (lists k) ≡ 0
  unfolding weight
  not_both j k m q z = ground (arith, v.counts m j, v.counts k j)

  outside : Shape f → (a k : ℕ) → nr_pages ≤ a → count a (lists k) ≡ 0
  unfolding weight
  outside shape a k h = ground (arith, v.counts k a, shape.bounds a k, pow_pos k)

  other_list : (l : List ℕ) (k m : ℕ) → (k == m) ≡ false → update lists k l m ≡ lists m
  other_list l k m h = rw h

  this_list : (l : List ℕ) (k m : ℕ) → (k == m) ≡ true → update lists k l m ≡ l
  this_list l k m h = rw h

  -- The head of its list is taken out by `free_list_del_head`.
  pub del_head-Relinked :
      (i k : ℕ) (l : List ℕ)
      → f i ≡ free k
      → k < max_order
      → b.free_lists k ≡ some i
      → lists k ≡ i ∷ l
      → Relinked b (update lists k l) (free_list_del_head b i)
  del_head-Relinked i k l e lt h s = record {
    after = set_next (set_free_list b k (nexts b i)) i none;
    runs = del_head_runs b i k i (v.orders i k e) lt h;
    same = record {
      zone = refl;
      frames = refl;
      orders = λ j. ground arith;
      indices = λ j. ground arith;
    };
    chains = λ m. elim (Bool-cases (k == m)) [
      | inl here ↦ rw here (written (nexts b i) l alone rest)
      | inr other ↦ rw other (
          written (b.free_lists m) (lists m) (elsewhere_zero i k m e (λ q. absurd (ground arith)))
            (v.chains m))
    ];
  }
    where
      at_k : Chain (nexts b) (b.free_lists k) (i ∷ l)
      at_k = subst (Chain (nexts b) (b.free_lists k)) s (v.chains k)

      rest : Chain (nexts b) (nexts b i) l
      rest = at_k.1

      alone : count i l ≡ 0
      alone = omega (arith, distinct k i, ap (count i) s, count_self i l)

      written :
          (p : Option ℕ) (l' : List ℕ)
          → count i l' ≡ 0
          → Chain (nexts b) p l'
          → Chain (nexts (set_next (set_free_list b k (nexts b i)) i none)) p l'
      written p l' z c =
          Chain-ext (update (nexts b) i none) _ p l'
            (nexts-set_next (set_free_list b k (nexts b i)) i none) (Chain-update _ _ none i l' z c)

  -- Deeper in its list, a block is found by the walk.
  walked :
      (i k h : ℕ) (l : List ℕ)
      → f i ≡ free k
      → b.free_lists k ≡ some h
      → lists k ≡ h ∷ l
      → (h == i) ≡ false
      → length l < nr_pages
      → Relinked b (update lists k (remove i (h ∷ l))) (free_list_del_entry b i)
  walked i k h l e head s ne short = record {
    after = u.after;
    runs = del_entry_walks b i k h (v.orders i k e) head ne ∙ u.runs;
    same = u.same;
    chains = λ m. elim (Bool-cases (k == m)) [
      | inl here ↦
          let km : k ≡ m = (==_iff k m).0 here in
          rw (here, remove_later i h l ne, u.lists, ← km) (head, u.chain)
      | inr other ↦ rw (other, u.lists) (apart m (λ q. absurd (ground arith)))
    ];
  }
    where
      at_k : Chain (nexts b) (b.free_lists k) (h ∷ l)
      at_k = subst (Chain (nexts b) (b.free_lists k)) s (v.chains k)

      hl : Distinct (h ∷ l)
      hl a = subst (λ x. count a x ≤ 1) s (distinct k a)

      once : count i l ≡ 1
      once =
          sym (count_later i h l ne)
          ∙ sym (ap (count i) s)
          ∙ v.counts k i
          ∙ ap (λ x. weight x k) e
          ∙ weight_free k

      u : Unlinked b i h l (del_entry_loop nr_pages b i (some h) (nexts b h))
      u = del_entry_loop-Unlinked nr_pages b i h (nexts b h) l at_k.1 refl hl once short

      apart : (m : ℕ) → k ≢ m → Chain (nexts u.after) (b.free_lists m) (lists m)
      apart m q =
          Chain-agree (nexts b) (nexts u.after) (b.free_lists m) (lists m)
            (λ j z. u.elsewhere j (sym (ap (count j) s) ∙ not_both j k m q z)) (v.chains m)

  no_block : (i k : ℕ) → f i ≡ free k → lists k ≢ []
  unfolding count
  no_block i k e s =
      absurd (omega (arith, ap (count i) s, v.counts k i, ap (λ x. weight x k) e, weight_free k))

  entry_cases :
      (i k : ℕ) (ls : List ℕ)
      → Shape f
      → f i ≡ free k
      → lists k ≡ ls
      → Relinked b (update lists k (remove i ls)) (free_list_del_entry b i)
  entry_cases i k [] shape e s = absurd (no_block i k e s)
  entry_cases i k (h ∷ l) shape e s = elim (Bool-cases (h == i)) [
    | inl here ↦
        let hi : h ≡ i = (==_iff h i).0 here in
        rw (remove_head i h l here, del_entry_head b i k h (v.orders i k e) head here)
          (del_head-Relinked i k l e (shape.bounds i k e).0 (head ∙ ap some hi)
            (s ∙ ap (λ x. x ∷ l) hi))
    | inr later ↦ walked i k h l e head s later short
  ]
    where
      head : b.free_lists k ≡ some h
      head = (subst (Chain (nexts b) (b.free_lists k)) s (v.chains k)).0

      short : length l < nr_pages
      short =
          length_bound nr_pages (h ∷ l) (λ a. subst (λ x. count a x ≤ 1) s (distinct k a))
            (λ a q. sym (ap (count a) s) ∙ outside shape a k q)

  -- `free_list_del_entry` takes any free block out of its list.
  pub del_entry-Relinked :
      (i k : ℕ)
      → Shape f
      → f i ≡ free k
      → Relinked b (update lists k (remove i (lists k))) (free_list_del_entry b i)
  del_entry-Relinked i k shape e = entry_cases i k (lists k) shape e refl
