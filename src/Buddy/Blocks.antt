-- ===== src/Buddy/Blocks.antt =====
-- What the free-list operations do to the free blocks that the lists hold.
use valkyrie.Base.{
  ℕ, ◌+◌, ◌^◌, ◌≤◌, ◌<◌, ◌≡◌, refl, ◌∙◌, List, [], ◌∷◌, Option, none, some, arith, ◌==◌,
  if◌then◌else◌, Bool-cases, inl, inr, false, Option-cases, ==_refl,
}
use valkyrie.Base.Maps.{update}
use valkyrie.Base.Outcome.{Outcome, ok}
use valkyrie.Buddy.{
  Buddy, Frame, free, allocated, set_next, set_order, set_free_list, free_list_add_head, max_order,
}
use valkyrie.Buddy.Chains.{count, remove, Chain, count-remove, Chain-ext, Chain-update}
use valkyrie.Buddy.Links.{nexts, SameButLinks, nexts-set_next}
use valkyrie.Buddy.Frames.{weight, claim, release, Shape, pow_pos}
use valkyrie.Buddy.FreeLists.{Linked, Relinked, add_head_empty, add_head_before}

count-update :
    (lists : ℕ → List ℕ) (k : ℕ) (l : List ℕ) (m j : ℕ)
    → count j (update lists k l m) ≡ (if k == m then count j l else count j (lists m))
count-update lists k l m j = elim (Bool-cases (k == m)) [ inl e ↦ rw e | inr e ↦ rw e ]

count_push : (j i : ℕ) (l : List ℕ) → count j (i ∷ l) ≡ (if i == j then 1 else 0) + count j l
unfolding count
count_push j i l = refl

module _ (b : Buddy) (lists : ℕ → List ℕ) (f : ℕ → Frame) (v : Linked b lists f) where
  unlisted : (i m : ℕ) → f i ≡ allocated → count i (lists m) ≡ 0
  unfolding weight
  unlisted i m e = ground (arith, v.counts m i)

  pushed :
      (i k : ℕ) (o : Outcome Buddy) (after : Buddy)
      → o ≡ ok after
      → SameButLinks b after
      → f i ≡ allocated
      → ((m : ℕ) → after.free_lists m ≡ update b.free_lists k (some i) m)
      → ((j : ℕ) → nexts after j ≡ update (nexts b) i (b.free_lists k) j)
      → Relinked b (update lists k (i ∷ lists k)) o
  pushed i k o after runs same e fl nx = record {
    after = after;
    runs = runs;
    same = same;
    chains = λ m. elim (Bool-cases (k == m)) [
      | inl here ↦
          rw (here, fl m, here)
            (refl, rw (at_i) (moved (b.free_lists k) (lists k) (unlisted i k e) (v.chains k)))
      | inr other ↦
          rw (other, fl m, other) (moved (b.free_lists m) (lists m) (unlisted i m e) (v.chains m))
    ];
  }
    where
      at_i : nexts after i ≡ b.free_lists k
      at_i = nx i ∙ (rw (==_refl i))

      moved :
          (p : Option ℕ) (l : List ℕ)
          → count i l ≡ 0
          → Chain (nexts b) p l
          → Chain (nexts after) p l
      moved p l z c =
          Chain-ext (update (nexts b) i (b.free_lists k)) _ p l nx (Chain-update _ _ _ i l z c)

  head_is_not :
      (i k head : ℕ) (ls : List ℕ)
      → count i ls ≡ 0
      → Chain (nexts b) (some head) ls
      → (head == i) ≡ false
  unfolding count
  head_is_not i k head [] z c = cc
  head_is_not i k head (x ∷ l) z c = ground arith

  -- `free_list_add_head` puts an allocated block before the blocks of its order.
  pub add_head-Relinked :
      (i k : ℕ)
      → f i ≡ allocated
      → (b.headers i).order ≡ k
      → k < max_order
      → Relinked b (update lists k (i ∷ lists k)) (free_list_add_head b i)
  add_head-Relinked i k e o lt = elim (Option-cases (b.free_lists k)) [
    | inl h ↦
        pushed i k _ (set_next (set_free_list b k (some i)) i none) (add_head_empty b i k o lt h)
          (record {
            zone = refl;
            frames = refl;
            orders = λ j. ground arith;
            indices = λ j. ground arith;
          })
          e (λ m. refl) (λ j. rw h (nexts-set_next (set_free_list b k (some i)) i none j))
    | inr (head, h) ↦
        pushed i k _ (set_free_list (set_next b i (some head)) k (some i))
          (add_head_before b i k head o lt h
            (head_is_not i k head (lists k) (unlisted i k e) (rw h at (v.chains k))))
          (record {
            zone = refl;
            frames = refl;
            orders = λ j. ground arith;
            indices = λ j. ground arith;
          })
          e (λ m. refl) (λ j. rw h (nexts-set_next b i (some head) j))
  ]

  -- The rest of the zone keeps its lists when an allocated block changes its order.
  pub set_order-Linked : (i k : ℕ) → f i ≡ allocated → Linked (set_order b i k) lists f
  set_order-Linked i k e = record {
    chains = λ m. Chain-ext (nexts b) _ (b.free_lists m) (lists m) (λ j. ground arith) (v.chains m);
    counts = v.counts;
    orders = λ j m h. ground (arith, v.orders j m h);
    indices = λ j. ground (arith, v.indices j);
  }

  -- Taking a free block out of its list claims its frames.
  pub del_entry-Linked :
      (i k : ℕ) (after : Buddy)
      → Shape f
      → f i ≡ free k
      → SameButLinks b after
      → ((m : ℕ) → Chain (nexts after) (after.free_lists m) (update lists k (remove i (lists k)) m))
      → Linked after (update lists k (remove i (lists k))) (claim f i (2 ^ k))
  unfolding weight
  del_entry-Linked i k after shape e same c = record {
    chains = c;
    counts = λ m j.
        count-update lists k (remove i (lists k)) m j
        ∙ ground (
          arith,
          count-remove j i (lists k),
          v.counts k j,
          v.counts m j,
          shape.inner i k j e,
          pow_pos k,
        );
    orders = λ j m h. same.orders j ∙ v.orders j m (ground arith);
    indices = λ j. same.indices j ∙ v.indices j;
  }

  -- Putting an allocated block into its list frees its frames.
  pub add_head-Linked :
      (i k : ℕ) (after : Buddy)
      → ((j : ℕ) → i ≤ j → j < i + 2 ^ k → f j ≡ allocated)
      → (b.headers i).order ≡ k
      → SameButLinks b after
      → ((m : ℕ) → Chain (nexts after) (after.free_lists m) (update lists k (i ∷ lists k) m))
      → Linked after (update lists k (i ∷ lists k)) (release f i k (2 ^ k))
  unfolding weight
  add_head-Linked i k after a o same c = record {
    chains = c;
    counts = λ m j.
        count-update lists k (i ∷ lists k) m j
        ∙ ground (arith, count_push j i (lists k), v.counts k j, v.counts m j, a j, pow_pos k);
    orders = λ j m h. same.orders j ∙ ground (arith, v.orders j m, o);
    indices = λ j. same.indices j ∙ v.indices j;
  }
