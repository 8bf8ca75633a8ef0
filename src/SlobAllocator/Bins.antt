-- ===== src/SlobAllocator/Bins.antt =====
-- The bins as lists: how a chunk is linked and unlinked.
use valkyrie.Base.{
  ℕ, zero, suc, ◌<◌, ◌≡◌, refl, sym, subst, ◌∙◌, true, false, Option, none, some, ◌==◌, arith,
  Bool-cases, inl, inr, List, [], ◌∷◌, length,
}
use valkyrie.Base.Outcome.{Outcome, ok}
use valkyrie.Buddy.Chains.{Chain, Distinct, count, remove, count_self, count-le-cons}
use valkyrie.SlobAllocator.{Slob, ChunkHeader, del_entry_loop, set_next}

-- The pointers from chunk to chunk.
abbrev pub nexts : (ℕ → ChunkHeader) → ℕ → Option ℕ
nexts headers a = (headers a).next

-- The headers differ in nothing but `next`, and that only at the chunks of the list.
abbrev pub SameBut : List ℕ → (ℕ → ChunkHeader) → (ℕ → ChunkHeader) → Type 0
SameBut l old new =
    (a : ℕ)
    → ((new a).index ≡ (old a).index)
      × ((new a).prev_chunk_size ≡ (old a).prev_chunk_size)
      × (count a l ≡ 0 → (new a).next ≡ (old a).next)

-- The part of a chain after `q` changes from `l` to `l'`.
pub record Unlinked (s : Slob) (q : ℕ) (l l' : List ℕ) (out : Outcome Slob) : Type 0 where
  pub headers : ℕ → ChunkHeader
  pub runs : out ≡ ok (record s { headers = headers })
  pub chain : Chain (nexts headers) (some q) (q ∷ l')
  pub same : SameBut (q ∷ l) s.headers headers

-- A chain whose chunks have kept their pointers.
pub Chain-agree :
    (n m : ℕ → Option ℕ) (p : Option ℕ) (l : List ℕ)
    → ((a : ℕ) → 0 < count a l → m a ≡ n a)
    → Chain n p l
    → Chain m p l
Chain-agree n m p [] h c = c
Chain-agree n m p (x ∷ l) h (e, c) = (
  e,
  rw (h x (omega (arith, count_self x l)))
      (Chain-agree n m (n x) l (λ a pos. h a (omega (arith, pos, count-le-cons a x l))) c),
)

Distinct-tail : (q : ℕ) (l : List ℕ) → Distinct (q ∷ l) → Distinct l
Distinct-tail q l d a = omega (arith, d a, count-le-cons a q l)

module _ (chunk : ℕ) (s : Slob) where
  unlink :
      (fuel q : ℕ) (l : List ℕ)
      → Chain (nexts s.headers) (some q) (q ∷ chunk ∷ l)
      → Distinct (q ∷ chunk ∷ l)
      → Unlinked s q (chunk ∷ l) l (del_entry_loop (suc fuel) (some q) (some chunk) chunk s)
  unfolding del_entry_loop count
  unlink fuel q l (e, (e', c)) d =
      let off : (chunk == q) ≡ false = ground (arith, d q, d chunk) in
      let new : ℕ → ChunkHeader =
        (set_next none chunk (set_next (s.headers chunk).next q s)).headers in
      let nq : (new q).next ≡ (s.headers chunk).next = ground (arith, off) in
      record {
        headers = new;
        runs = (let z : (chunk == chunk) ≡ true = ground arith in rw z refl);
        chain = (
          refl,
          subst (λ p. Chain (nexts new) p l) (sym nq)
              (Chain-agree (nexts s.headers) (nexts new) (s.headers chunk).next l
                (λ a pos.
                  let x : (chunk == a) ≡ false = ground (arith, pos, d a, d chunk) in
                  let y : (q == a) ≡ false = ground (arith, pos, d a, d q) in ground (arith, x, y))
                c),
        );
        same = λ a. (ground (arith, off), ground (arith, off), λ z. ground (arith, z));
      }

  -- The unlinked chunk comes after the next one.
  further :
      (fuel q x : ℕ) (l : List ℕ)
      → nexts s.headers q ≡ some x
      → Distinct (q ∷ x ∷ l)
      → (x == chunk) ≡ false
      → Unlinked s x l (remove chunk l) (del_entry_loop fuel (some x) (nexts s.headers x) chunk s)
      → Unlinked s q
          (x ∷ l)
          (x ∷ remove chunk l)
          (del_entry_loop (suc fuel) (some q) (some x) chunk s)
  unfolding del_entry_loop count
  further fuel q x l e' d miss u =
      let away : count q (x ∷ l) ≡ 0 = ground (arith, d q) in
      let nq : nexts u.headers q ≡ some x = (u.same q).2 away ∙ e' in
      record {
        headers = u.headers;
        runs = rw miss u.runs;
        chain =
            (refl, subst (λ p. Chain (nexts u.headers) p (x ∷ remove chunk l)) (sym nq) u.chain);
        same = λ a.
            let (i, p, n) = u.same a in
            (i, p, λ z. n (omega (arith, z, count-le-cons a q (x ∷ l))));
      }

  pub loop-Unlinked :
      (fuel q : ℕ) (l : List ℕ)
      → Chain (nexts s.headers) (some q) (q ∷ l)
      → Distinct (q ∷ l)
      → length l < fuel
      → Unlinked s q l (remove chunk l) (del_entry_loop fuel (some q) (nexts s.headers q) chunk s)
  unfolding del_entry_loop remove
  loop-Unlinked zero q l c d lt = absurd (omega arith)
  loop-Unlinked (suc fuel) q [] (e, c) d lt = record {
    headers = s.headers;
    runs = rw (c, del_entry_loop) refl;
    chain = (refl, c);
    same = λ a. (refl, refl, λ z. refl);
  }
  loop-Unlinked (suc fuel) q (x ∷ l) (e, (e', c)) d lt = elim (Bool-cases (x == chunk)) [
    | inl hit ↦
        let eq : x ≡ chunk = ground arith in
        let c' : Chain (nexts s.headers) (some q) (q ∷ chunk ∷ l) =
          subst (λ (y : ℕ). Chain (nexts s.headers) (some q) (q ∷ y ∷ l)) eq (e, (e', c)) in
        let d' : Distinct (q ∷ chunk ∷ l) = subst (λ (y : ℕ). Distinct (q ∷ y ∷ l)) eq d in
        rw (hit, e')
          (subst
            (λ (y : ℕ).
              Unlinked s q (y ∷ l) l (del_entry_loop (suc fuel) (some q) (some y) chunk s))
            (sym eq) (unlink fuel q l c' d'))
    | inr miss ↦
        rw (miss, e')
          (further fuel q x l e' d miss
            (loop-Unlinked fuel x l (refl, c) (Distinct-tail q (x ∷ l) d) (omega (arith, lt))))
  ]
