-- ===== src/Buddy/Links.antt =====
-- The free-list operations on the linked headers.
use valkyrie.Base.{
  ℕ, zero, suc, ◌<◌, ◌≡◌, ◌≢◌, refl, sym, ◌∙◌, List, [], ◌∷◌, Option, none, some, arith, ◌==◌,
  length, Bool-cases, inl, inr, true, false,
}
use valkyrie.Base.Maps.{update}
use valkyrie.Base.Outcome.{Outcome, ok}
use valkyrie.Buddy.{Buddy, set_next, del_entry_loop}
use valkyrie.Buddy.Chains.{count, remove, Chain, Distinct, count_ne, Chain-ext, Chain-update}

-- The `next` fields.
abbrev pub nexts : Buddy → ℕ → Option ℕ
nexts b i = (b.headers i).next

-- Two states that differ in links alone.
pub record SameButLinks (b c : Buddy) : Type 0 where
  pub zone : c.zone_begin ≡ b.zone_begin
  pub frames : c.frame_array ≡ b.frame_array
  pub orders : (i : ℕ) → (c.headers i).order ≡ (b.headers i).order
  pub indices : (i : ℕ) → (c.headers i).index ≡ (b.headers i).index

pub set_next-same : (b : Buddy) (i : ℕ) (p : Option ℕ) → SameButLinks b (set_next b i p)
set_next-same b i p = record {
  zone = refl;
  frames = refl;
  orders = λ j. ground arith;
  indices = λ j. ground arith;
}

pub nexts-set_next :
    (b : Buddy) (i : ℕ) (p : Option ℕ) (j : ℕ) → nexts (set_next b i p) j ≡ update (nexts b) i p j
nexts-set_next b i p j = ground arith

-- What the walk of `free_list_del_entry` does, entered at `q`, the block before `ptr`.
pub record Unlinked (b : Buddy) (i q : ℕ) (l : List ℕ) (o : Outcome Buddy) : Type 0 where
  pub after : Buddy
  pub runs : o ≡ ok after
  pub lists : after.free_lists ≡ b.free_lists
  pub same : SameButLinks b after
  pub chain : Chain (nexts after) (nexts after q) (remove i l)
  pub elsewhere : (j : ℕ) → count j (q ∷ l) ≡ 0 → nexts after j ≡ nexts b j

-- The first two of a list without repetition.
pub two-Distinct :
    (q p : ℕ) (l : List ℕ)
    → Distinct (q ∷ p ∷ l)
    → (q ≢ p) × (count q l ≡ 0) × (count p l ≡ 0) × Distinct (p ∷ l)
unfolding count
two-Distinct q p l d = (
  λ e. absurd (ground (arith, d q)),
  ground (arith, d q),
  ground (arith, d p),
  λ a. ground (arith, d a),
)

pub remove_head : (i p : ℕ) (l : List ℕ) → (p == i) ≡ true → remove i (p ∷ l) ≡ l
unfolding remove
remove_head i p l h = rw h

pub remove_later : (i p : ℕ) (l : List ℕ) → (p == i) ≡ false → remove i (p ∷ l) ≡ p ∷ remove i l
unfolding remove
remove_later i p l h = rw h

pub count_later : (i p : ℕ) (l : List ℕ) → (p == i) ≡ false → count i (p ∷ l) ≡ count i l
unfolding count
count_later i p l h = rw h (omega arith)

pub count-cons-zero : (j q : ℕ) (l : List ℕ) → count j (q ∷ l) ≡ 0 → (j ≢ q) × (count j l ≡ 0)
unfolding count
count-cons-zero j q l h = (λ e. absurd (ground arith), ground arith)

-- Both writes of the walk, seen as updates of the `next` fields.
nexts_unlink :
    (b : Buddy) (q p : ℕ) (r : Option ℕ) (j : ℕ)
    → nexts (set_next (set_next b q r) p none) j ≡ update (update (nexts b) q r) p none j
nexts_unlink b q p r j = ground arith

unlink_here :
    (b : Buddy) (i q p : ℕ) (l : List ℕ)
    → Chain (nexts b) (nexts b p) l
    → Distinct (q ∷ p ∷ l)
    → (p == i) ≡ true
    → Unlinked b i q (p ∷ l) (ok (set_next (set_next b q (nexts b p)) p none))
unlink_here b i q p l c d here = record {
  after = set_next (set_next b q (nexts b p)) p none;
  runs = refl;
  lists = refl;
  same = record {
    zone = refl;
    frames = refl;
    orders = λ j. ground arith;
    indices = λ j. ground arith;
  };
  chain =
      rw (remove_head i p l here, at_q)
        (Chain-ext (update (update (nexts b) q (nexts b p)) p none) _ (nexts b p) l
          (nexts_unlink b q p (nexts b p))
          (Chain-update _ _ none p l t.2 (Chain-update _ _ (nexts b p) q l t.1 c)));
  elsewhere = λ j h.
      let u = count-cons-zero j q (p ∷ l) h in let v = count-cons-zero j p l u.1 in ground arith;
}
  where
    t : (q ≢ p) × (count q l ≡ 0) × (count p l ≡ 0) × Distinct (p ∷ l)
    t = two-Distinct q p l d

    at_q : nexts (set_next (set_next b q (nexts b p)) p none) q ≡ nexts b p
    at_q = let ne = t.0 in ground arith

unlink_later :
    (b : Buddy) (i q p : ℕ) (l : List ℕ) (o : Outcome Buddy)
    → nexts b q ≡ some p
    → Distinct (q ∷ p ∷ l)
    → (p == i) ≡ false
    → Unlinked b i p l o
    → Unlinked b i q (p ∷ l) o
unlink_later b i q p l o e d on u = record {
  after = u.after;
  runs = u.runs;
  lists = u.lists;
  same = u.same;
  chain = rw (remove_later i p l on) (u.elsewhere q (count_zero) ∙ e, u.chain);
  elsewhere = λ j h. u.elsewhere j (count-cons-zero j q (p ∷ l) h).1;
}
  where
    t : (q ≢ p) × (count q l ≡ 0) × (count p l ≡ 0) × Distinct (p ∷ l)
    t = two-Distinct q p l d

    count_zero : count q (p ∷ l) ≡ 0
    count_zero = count_ne q p l (λ e. t.0 (sym e)) ∙ t.1

-- The walk takes `i` out of the list behind `q`, and leaves every block outside the list alone.
pub del_entry_loop-Unlinked :
    (fuel : ℕ) (b : Buddy) (i q : ℕ) (ptr : Option ℕ) (l : List ℕ)
    → Chain (nexts b) ptr l
    → nexts b q ≡ ptr
    → Distinct (q ∷ l)
    → count i l ≡ 1
    → length l < fuel
    → Unlinked b i q l (del_entry_loop fuel b i (some q) ptr)
unfolding del_entry_loop
del_entry_loop-Unlinked zero b i q ptr l c e d m f = absurd (omega arith)
del_entry_loop-Unlinked (suc fuel) b i q ptr [] c e d m f = absurd (unfold count in omega arith)
del_entry_loop-Unlinked (suc fuel) b i q ptr (p ∷ l) (s, c) e d m f =
    let later = del_entry_loop-Unlinked fuel b i p (nexts b p) l c refl (two-Distinct q p l d).3 in
    rw s (elim (Bool-cases (p == i)) [
      | inl here ↦ rw here (unlink_here b i q p l c d here)
      | inr on ↦ rw on (
          unlink_later b i q p l _ (e ∙ s) d on
            (later (sym (count_later i p l on) ∙ m) (omega arith)))
    ])
