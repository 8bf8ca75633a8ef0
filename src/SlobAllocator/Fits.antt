-- ===== src/SlobAllocator/Fits.antt =====
-- Requests that a bin serves.
use valkyrie.Base.{
  ℕ, ◌+◌, ◌%◌, ◌^◌, ◌<◌, ◌≡◌, ◌≢◌, refl, ap, ◌∙◌, true, false, Option, none, some, ◌==◌, arith,
  List, ◌∷◌,
}
use valkyrie.Base.Maps.{update}
use valkyrie.Base.Outcome.{Outcome, ok}
use valkyrie.Buddy.{page_size}
use valkyrie.Buddy.Chains.{Chain, Distinct, count, count_self}
use valkyrie.SlobAllocator.{
  Slob, ChunkHeader, bin_del_head, get_bin_index, is_large, is_negative, is_allocated,
  set_allocated, normalize_size, modify, set_next, take_chunk, allocate, chunk_header_size, nr_bins,
}
use valkyrie.SlobAllocator.Bins.{nexts, Chain-agree}
use valkyrie.SlobAllocator.Entries.{SameTop}

-- The first chunk of the bin is handed out, and the bin holds the others; no other header, no other bin
-- and not the top chunk has changed.
pub record Fitted (s : Slob) (idx chunk : ℕ) (l : List ℕ) (out : Outcome (Slob × Option ℕ))
    : Type 0 where
  pub after : Slob
  pub runs : out ≡ ok (after, some (chunk + chunk_header_size))
  pub chain : Chain (nexts after.headers) (after.bins idx) l
  pub taken : is_allocated (after.headers chunk) ≡ true
  pub same_index : (after.headers chunk).index ≡ idx
  pub others : (a : ℕ) → a ≢ chunk → after.headers a ≡ s.headers a
  pub bins : (k : ℕ) → k ≢ idx → after.bins k ≡ s.bins k
  pub unsorted : after.unsorted_bin ≡ s.unsorted_bin
  pub top : SameTop s after

module _ (fuel : ℕ) (t : Slob) (chunk : ℕ) (small : (t.headers chunk).index < nr_bins)
    (head : t.bins (t.headers chunk).index ≡ some chunk) where
  -- The state without the first chunk of its bin.
  unlinked : Slob
  unlinked =
      set_next none chunk
        (record t { bins = update t.bins (t.headers chunk).index (t.headers chunk).next })

  bin_del_head_lem : bin_del_head fuel chunk t ≡ ok unlinked
  unfolding bin_del_head is_large is_negative unlinked
  bin_del_head_lem =
      let a : is_large (t.headers chunk).index ≡ false = ground (arith, small) in
      let b : is_negative (t.headers chunk).index ≡ false = ground (arith, small) in
      rw (bin_del_head, a, b, head) refl

module _ (fuel : ℕ) (s : Slob) (n size chunk : ℕ) (l : List ℕ) (pos : 0 < n) (lt : n < 2 ^ 63)
    (normal : normalize_size (chunk_header_size + n) ≡ some size)
    (small : get_bin_index size < nr_bins)
    (chain : Chain (nexts s.headers) (s.bins (get_bin_index size)) (chunk ∷ l))
    (distinct : Distinct (chunk ∷ l)) (index : (s.headers chunk).index ≡ get_bin_index size)
    (below : chunk + chunk_header_size < 2 ^ 64)
    (inside : (chunk + chunk_header_size) % page_size ≢ 0) where
  flagged : Slob
  flagged = modify (set_allocated true) chunk s

  flagged_header : flagged.headers chunk ≡ set_allocated true (s.headers chunk)
  unfolding flagged
  flagged_header = let self : (chunk == chunk) ≡ true = ground arith in rw self refl

  flagged_index : (flagged.headers chunk).index ≡ get_bin_index size
  unfolding set_allocated
  flagged_index = ap (λ (h : ChunkHeader). h.index) flagged_header ∙ index

  flagged_next : (flagged.headers chunk).next ≡ (s.headers chunk).next
  unfolding set_allocated
  flagged_next = ap (λ (h : ChunkHeader). h.next) flagged_header

  flagged_small : (flagged.headers chunk).index < nr_bins
  flagged_small = rw flagged_index small

  flagged_head : flagged.bins (flagged.headers chunk).index ≡ some chunk
  flagged_head = rw flagged_index (unfold flagged in chain.0)

  fitted : Slob
  fitted = unlinked fuel flagged chunk flagged_small flagged_head

  del_head : bin_del_head fuel chunk (modify (set_allocated true) chunk s) ≡ ok fitted
  unfolding fitted
  del_head = unfold flagged in bin_del_head_lem fuel flagged chunk flagged_small flagged_head

  take_chunk_lem : take_chunk fuel size s ≡ ok (fitted, some chunk)
  unfolding take_chunk is_large is_negative
  take_chunk_lem =
      let a : is_large (get_bin_index size) ≡ false = ground (arith, small) in
      let b : is_negative (get_bin_index size) ≡ false = ground (arith, small) in
      rw (take_chunk, a, b, chain.0, del_head) refl

  fitted_others : (a : ℕ) → a ≢ chunk → fitted.headers a ≡ s.headers a
  unfolding fitted unlinked flagged
  fitted_others a ne = let off : (chunk == a) ≡ false = ground (arith, ne) in rw off refl

  fitted_bins : (k : ℕ) → k ≢ get_bin_index size → fitted.bins k ≡ s.bins k
  unfolding fitted unlinked
  fitted_bins k ne =
      let off : ((flagged.headers chunk).index == k) ≡ false = ground (arith, ne, flagged_index) in
      rw off (unfold flagged in refl)

  fitted_header :
      (is_allocated (fitted.headers chunk) ≡ true)
      × ((fitted.headers chunk).index ≡ get_bin_index size)
  unfolding fitted unlinked is_allocated set_allocated
  fitted_header =
      let self : (chunk == chunk) ≡ true = ground arith in
      (rw (self, flagged_header) (ground arith), rw self flagged_index)

  fitted-Chain : Chain (nexts fitted.headers) (fitted.bins (get_bin_index size)) l
  unfolding count
  fitted-Chain =
      let head : fitted.bins (get_bin_index size) ≡ nexts s.headers chunk =
        unfold fitted unlinked in
        (let hit : ((flagged.headers chunk).index == get_bin_index size) ≡ true =
            ground (arith, flagged_index) in
          rw hit flagged_next) in
      rw head (
        Chain-agree (nexts s.headers) (nexts fitted.headers) (nexts s.headers chunk) l
          (λ a pos.
            let ne : a ≢ chunk = λ e.
              absurd (
                omega
                  (arith, distinct a, pos, count_self a l, ap (λ (b : ℕ). count a (b ∷ l)) e)) in
            ap (λ (h : ChunkHeader). h.next) (fitted_others a ne))
          chain.1)

  -- A request of 1 to 2^63 - 1 bytes whose size of a chunk has a bin with chunks, as a finite
  -- list without repetition, whose first chunk has the bin's index and a header that ends below
  -- 2^64 and not at the begin of a page, gets this chunk, marked as allocated; the bin holds the
  -- others, and no other header, no other bin and not the top chunk has changed.
  pub allocate-Fitted : Fitted s (get_bin_index size) chunk l (allocate fuel s n)
  unfolding allocate
  allocate-Fitted =
      let some_bytes : (n == 0) ≡ false = ground (arith, pos) in
      let no_wrap : (chunk_header_size + n) % 2 ^ 64 ≡ chunk_header_size + n = omega (arith, lt) in
      let address : (chunk + chunk_header_size) % 2 ^ 64 ≡ chunk + chunk_header_size =
        omega (arith, below) in
      let off : ((chunk + chunk_header_size) % page_size == 0) ≡ false = ground (arith, inside) in
      record {
        after = fitted;
        runs = rw (some_bytes, no_wrap, normal, take_chunk_lem, address, off) refl;
        chain = fitted-Chain;
        taken = fitted_header.0;
        same_index = fitted_header.1;
        others = fitted_others;
        bins = fitted_bins;
        unsorted = unfold fitted unlinked flagged in refl;
        top = unfold fitted unlinked flagged in (refl, refl, refl, refl, refl);
      }
