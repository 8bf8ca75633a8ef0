-- ===== src/SlobAllocator/Entries.antt =====
-- The operations on a bin as operations on its list of chunks.
use valkyrie.Base.{
  ℕ, zero, suc, ◌<◌, ◌≡◌, refl, sym, ap, subst, ◌∙◌, true, false, Option, none, some, ◌==◌, arith,
  Bool-cases, inl, inr, ◌⊎◌, List, [], ◌∷◌, length,
}
use valkyrie.Base.Outcome.{Outcome, ok}
use valkyrie.Buddy.Chains.{Chain, Distinct, count, remove, count_self}
use valkyrie.SlobAllocator.{
  Slob, ChunkHeader, Bin, sorted, unsorted, bin_head, set_bin_head, bin_get_head, is_chunk,
  del_entry_loop, bin_del_entry, bin_add_head, set_next,
}
use valkyrie.SlobAllocator.Bins.{nexts, SameBut, loop-Unlinked}

-- What is not in the bins and the headers.
abbrev pub SameTop : Slob → Slob → Type 0
SameTop s s' =
    (s'.buddy ≡ s.buddy)
    × (s'.page_frame_allocatable_begin ≡ s.page_frame_allocatable_begin)
    × (s'.top_chunk ≡ s.top_chunk)
    × (s'.page_frame_allocatable_end ≡ s.page_frame_allocatable_end)
    × (s'.top_chunk_prev_chunk_size ≡ s.top_chunk_prev_chunk_size)

-- The bin holds the chunks of the list `l'` after the call; only `next` pointers of the listed chunks
-- have changed, no other bin's head, and nothing else.
pub record Changed (s : Slob) (bin : Bin) (touched l' : List ℕ) (out : Outcome Slob) : Type 0 where
  pub after : Slob
  pub runs : out ≡ ok after
  pub chain : Chain (nexts after.headers) (bin_head after bin) l'
  pub same : SameBut touched s.headers after.headers
  pub heads : (b : Bin) → (b ≡ bin) ⊎ (bin_head after b ≡ bin_head s b)
  pub top : SameTop s after

-- The state with another head of a bin and other headers.
abbrev rebound : Bin → Option ℕ → (ℕ → ChunkHeader) → Slob → Slob
rebound bin p headers s = record (set_bin_head bin p s) { headers = headers }

pub bin_head-headers :
    (bin : Bin) (s : Slob) (headers : ℕ → ChunkHeader)
    → bin_head (record s { headers = headers }) bin ≡ bin_head s bin
unfolding bin_head
bin_head-headers (sorted k) s headers = refl
bin_head-headers unsorted s headers = refl

pub headers-set_bin_head :
    (bin : Bin) (p : Option ℕ) (s : Slob) → (set_bin_head bin p s).headers ≡ s.headers
unfolding set_bin_head
headers-set_bin_head (sorted k) p s = refl
headers-set_bin_head unsorted p s = refl

pub bin_head-set_bin_head :
    (bin : Bin) (p : Option ℕ) (s : Slob) → bin_head (set_bin_head bin p s) bin ≡ p
unfolding set_bin_head bin_head
bin_head-set_bin_head (sorted k) p s = let e : (k == k) ≡ true = ground arith in rw e refl
bin_head-set_bin_head unsorted p s = refl

pub heads-set_bin_head :
    (bin b : Bin) (p : Option ℕ) (s : Slob)
    → (b ≡ bin) ⊎ (bin_head (set_bin_head bin p s) b ≡ bin_head s b)
unfolding set_bin_head bin_head
heads-set_bin_head (sorted k) (sorted j) p s = elim (Bool-cases (k == j)) [
  | inl e ↦ let kj : j ≡ k = ground arith in inl (ap sorted kj)
  | inr e ↦ inr (rw e refl)
]
heads-set_bin_head (sorted k) unsorted p s = inr refl
heads-set_bin_head unsorted (sorted j) p s = inr refl
heads-set_bin_head unsorted unsorted p s = inl refl

SameTop-set_bin_head : (bin : Bin) (p : Option ℕ) (s : Slob) → SameTop s (set_bin_head bin p s)
unfolding set_bin_head
SameTop-set_bin_head (sorted k) p s = (refl, refl, refl, refl, refl)
SameTop-set_bin_head unsorted p s = (refl, refl, refl, refl, refl)

module _ (bin : Bin) (p : Option ℕ) (headers : ℕ → ChunkHeader) (s : Slob)
    (touched l' : List ℕ) where
  -- A new head, and new pointers.
  pub rebound-Changed :
      (out : Outcome Slob)
      → out ≡ ok (rebound bin p headers s)
      → Chain (nexts headers) p l'
      → SameBut touched s.headers headers
      → Changed s bin touched l' out
  rebound-Changed out r c h = record {
    after = rebound bin p headers s;
    runs = r;
    chain =
        rw (bin_head-headers bin (set_bin_head bin p s) headers, bin_head-set_bin_head bin p s) c;
    same = h;
    heads = λ b. elim (heads-set_bin_head bin b p s) [
      | inl e ↦ inl e
      | inr e ↦ inr (bin_head-headers b (set_bin_head bin p s) headers ∙ e)
    ];
    top = SameTop-set_bin_head bin p s;
  }

set_bin_head-headers :
    (bin : Bin) (p : Option ℕ) (s : Slob) (headers : ℕ → ChunkHeader)
    → set_bin_head bin p (record s { headers = headers }) ≡ rebound bin p headers s
unfolding set_bin_head
set_bin_head-headers (sorted k) p s headers = refl
set_bin_head-headers unsorted p s headers = refl

set_next-set_bin_head :
    (bin : Bin) (p q : Option ℕ) (chunk : ℕ) (s : Slob)
    → set_next q chunk (set_bin_head bin p s) ≡ rebound bin p (set_next q chunk s).headers s
unfolding set_bin_head
set_next-set_bin_head (sorted k) p q chunk s = refl
set_next-set_bin_head unsorted p q chunk s = refl

-- Is the chunk the first one?
is_chunk-head :
    (chunk : ℕ) (next : ℕ → Option ℕ) (p : Option ℕ) (l : List ℕ)
    → Chain next p l
    → count chunk l ≡ 0
    → is_chunk p chunk ≡ false
unfolding is_chunk count
is_chunk-head chunk next p [] c z = rw c refl
is_chunk-head chunk next p (x ∷ l) (e, c) z =
    let off : (x == chunk) ≡ false = ground (arith, z) in rw (e, is_chunk) off

-- A new pointer in a chunk that is not in the list.
SameBut-set_next :
    (q : Option ℕ) (chunk : ℕ) (s : Slob) (l : List ℕ)
    → 0 < count chunk l
    → SameBut l s.headers (set_next q chunk s).headers
unfolding count
SameBut-set_next q chunk s l pos a = elim (Bool-cases (chunk == a)) [
  | inl e ↦ (
    ground arith,
    ground arith,
    λ z. let eq : chunk ≡ a = ground arith in absurd (cc_count a eq z),
  )
  | inr e ↦ (rw e refl, rw e refl, λ z. rw e refl)
]
  where
    cc_count : (a : ℕ) → chunk ≡ a → count a l ≡ 0 → ⊥
    cc_count a eq z =
        let z' : count chunk l ≡ 0 = subst (λ (b : ℕ). count b l ≡ 0) (sym eq) z in
        omega (arith, pos)

Chain-set_next :
    (q p : Option ℕ) (chunk : ℕ) (s : Slob) (l : List ℕ)
    → count chunk l ≡ 0
    → Chain (nexts s.headers) p l
    → Chain (nexts (set_next q chunk s).headers) p l
unfolding count
Chain-set_next q p chunk s [] z c = c
Chain-set_next q p chunk s (x ∷ l) z (e, c) =
    let off : (chunk == x) ≡ false = ground (arith, z) in
    (e, rw (nexts, off) (Chain-set_next q (nexts s.headers x) chunk s l (ground (arith, z)) c))

module _ (chunk : ℕ) (s : Slob) (bin : Bin) (here : bin_get_head s chunk ≡ ok bin) where
  -- `bin_add_head` of a chunk that is not in the bin puts it in front.
  pub bin_add_head_lem :
      (l : List ℕ)
      → Chain (nexts s.headers) (bin_head s bin) l
      → count chunk l ≡ 0
      → Changed s bin (chunk ∷ []) (chunk ∷ l) (bin_add_head chunk s)
  unfolding bin_add_head
  bin_add_head_lem l c z =
      let headers : ℕ → ChunkHeader = (set_next (bin_head s bin) chunk s).headers in
      let first : nexts headers chunk ≡ bin_head s bin =
        (let e : (chunk == chunk) ≡ true = ground arith in rw (nexts, e) refl) in
      rebound-Changed bin (some chunk) headers s (chunk ∷ []) (chunk ∷ l) (bin_add_head chunk s)
        (rw (here, bin_add_head, is_chunk-head chunk (nexts s.headers) (bin_head s bin) l c z)
          (ap ok (set_bin_head-headers bin (some chunk) s headers)))
        (refl, rw first (Chain-set_next (bin_head s bin) (bin_head s bin) chunk s l z c))
        (SameBut-set_next (bin_head s bin) chunk s (chunk ∷ [])
          (omega (arith, count_self chunk [])))

  -- The cases of `bin_del_entry`, by the list of the bin.
  del_first :
      (fuel : ℕ) (l : List ℕ)
      → bin_head s bin ≡ some chunk
      → Chain (nexts s.headers) (some chunk) (chunk ∷ l)
      → Distinct (chunk ∷ l)
      → Changed s bin (chunk ∷ l) l (bin_del_entry fuel chunk s)
  unfolding bin_del_entry is_chunk
  del_first fuel l e (e', c) d =
      let self : (chunk == chunk) ≡ true = ground arith in
      let absent : count chunk l ≡ 0 = omega (arith, d chunk, count_self chunk l) in
      rebound-Changed bin (s.headers chunk).next (set_next none chunk s).headers s (chunk ∷ l) l
        (bin_del_entry fuel chunk s)
        (rw (here, bin_del_entry, e, is_chunk, self)
          (ap ok (set_next-set_bin_head bin (s.headers chunk).next none chunk s)))
        (Chain-set_next none (s.headers chunk).next chunk s l absent c)
        (SameBut-set_next none chunk s (chunk ∷ l) (omega (arith, count_self chunk l)))

  -- The state with other headers only.
  only_headers :
      (headers : ℕ → ChunkHeader) (touched l' : List ℕ) (out : Outcome Slob)
      → out ≡ ok (record s { headers = headers })
      → Chain (nexts headers) (bin_head s bin) l'
      → SameBut touched s.headers headers
      → Changed s bin touched l' out
  only_headers headers touched l' out r c h = record {
    after = record s { headers = headers };
    runs = r;
    chain = rw (bin_head-headers bin s headers) c;
    same = h;
    heads = λ b. inr (bin_head-headers b s headers);
    top = (refl, refl, refl, refl, refl);
  }

  -- `bin_del_entry`, on more fuel than the bin has chunks, takes the chunk out.
  pub bin_del_entry_lem :
      (fuel : ℕ) (l : List ℕ)
      → Chain (nexts s.headers) (bin_head s bin) l
      → Distinct l
      → length l < fuel
      → Changed s bin l (remove chunk l) (bin_del_entry fuel chunk s)
  unfolding bin_del_entry is_chunk del_entry_loop remove
  bin_del_entry_lem zero l c d lt = absurd (omega arith)
  bin_del_entry_lem (suc fuel) [] c d lt =
      only_headers s.headers [] [] (bin_del_entry (suc fuel) chunk s)
        (rw (here, bin_del_entry, c) refl) c (λ a. (refl, refl, λ z. refl))
  bin_del_entry_lem (suc fuel) (x ∷ l) (e, c) d lt = elim (Bool-cases (x == chunk)) [
    | inl hit ↦
        let eq : x ≡ chunk = ground arith in
        rw hit (
          subst (λ (y : ℕ). Changed s bin (y ∷ l) l (bin_del_entry (suc fuel) chunk s)) (sym eq)
            (del_first (suc fuel) l (e ∙ ap some eq)
              (refl, subst (λ (y : ℕ). Chain (nexts s.headers) (nexts s.headers y) l) eq c)
              (subst (λ (y : ℕ). Distinct (y ∷ l)) eq d)))
    | inr miss ↦
        let u = loop-Unlinked chunk s fuel x l (refl, c) d (omega (arith, lt)) in
        rw miss (
          only_headers u.headers (x ∷ l) (x ∷ remove chunk l) (bin_del_entry (suc fuel) chunk s)
            (rw (here, bin_del_entry, e, is_chunk, miss, del_entry_loop) u.runs) (rw e u.chain)
            u.same)
  ]
