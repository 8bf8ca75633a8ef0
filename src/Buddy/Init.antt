-- ===== src/Buddy/Init.antt =====
-- The constructor of the buddy allocator.
use mathlib.Core.Path.{fun_ext}
use valkyrie.Base.{
  ℕ, ◌^◌, ◌<◌, ◌≡◌, refl, [], ◌∷◌, Option, none, some, arith, ◌==◌, if◌then◌else◌, leb, ltb, ◌&&◌,
  ap, sym, ◌∙◌, Bool-cases, inl, inr, false,
}
use valkyrie.Base.Maps.{update, fill, fill_lem}
use valkyrie.Base.Outcome.{ok}
use valkyrie.Buddy.{
  Buddy, BlockHeader, Frame, free, allocated, dont_allocate, init, nr_pages, page_size,
}
use valkyrie.Buddy.Frames.{weight, Shape}
use valkyrie.Buddy.Chains.{count, Chain}
use valkyrie.Buddy.Grants.{IsValid, is_allocated}

-- What the constructor leaves: one free block of order 9 that is the whole zone.
abbrev pub fresh : ℕ → Buddy
fresh zone_begin = record {
  zone_begin = zone_begin;
  frame_array = fill (update (λ i. allocated) 0 (free 9)) 1 511 dont_allocate;
  free_lists = update (λ k. none) 9 (some 0);
  headers = λ i. record { next = none; order = if i == 0 then 9 else 0; index = i };
}

pub init-fresh : (zone_begin : ℕ) → init zone_begin ≡ ok (fresh zone_begin)
unfolding init valkyrie.Buddy.size_to_order valkyrie.Buddy.order_to_size valkyrie.Math.pow
    valkyrie.Math.pow_loop valkyrie.Math.log2 valkyrie.Math.log2_loop valkyrie.Math.asr1
init-fresh zone_begin = refl

-- The frame array after the constructor.
abbrev start_frames : ℕ → Frame
start_frames j =
    if j == 0 then free 9 else if leb 1 j && ltb j 512 then dont_allocate else allocated

first : (z : ℕ) → (fresh z).frame_array ≡ start_frames
first z =
    fun_ext λ j. fill_lem (update (λ i. allocated) 0 (free 9)) 1 511 dont_allocate j ∙ ground arith

start_free : (i k : ℕ) → start_frames i ≡ free k → (i ≡ 0) × (k ≡ 9)
start_free i k e = ground arith

start_in_zone : (i : ℕ) → i < nr_pages → is_allocated (start_frames i) ≡ false
start_in_zone i h = ground arith

start-Shape : Shape start_frames
start-Shape = record {
  bounds = λ i k e. let h = start_free i k e in rw (h.0, h.1) (omega arith, omega arith);
  aligned = λ i k e. let h = start_free i k e in rw (h.0, h.1) refl;
  inner = λ i k j e a b.
      let h = start_free i k e in let w : 2 ^ k ≡ 512 = ap (λ (n : ℕ). 2 ^ n) h.1 in ground arith;
  cover = λ j e. (0, 9, refl, ground arith, ground arith);
}

start-Chain :
    (next : ℕ → Option ℕ) (k : ℕ)
    → next 0 ≡ none
    → Chain next (update (λ m. none) 9 (some 0) k) (if k == 9 then 0 ∷ [] else [])
start-Chain next k e = elim (Bool-cases (k == 9)) [
  | inl h ↦ let g : k ≡ 9 = ground arith in rw g (refl, e)
  | inr h ↦ let g : (9 == k) ≡ false = ground arith in rw (h, g) refl
]

-- The constructor returns, and the allocator is valid: the zone is one free block.
pub fresh-IsValid : (z : ℕ) → IsValid (fresh z)
unfolding count weight
fresh-IsValid z = record {
  lists = λ k. if k == 9 then 0 ∷ [] else [];
  linked = rw (first z) (record {
    chains = λ k. start-Chain _ k refl;
    counts = λ k i. ground arith;
    orders = λ i k e. let h = start_free i k e in rw (h.0, h.1) refl;
    indices = λ i. refl;
  });
  shape = rw (first z) start-Shape;
}

-- The constructor returns, and leaves a valid allocator of the zone. The frame at its begin stands for
-- a free block of all its pages, which is on the list of its order; no other block is free, and no
-- page is allocated.
pub init-IsValid :
    (zone_begin : ℕ)
    → (b : Buddy) × (init zone_begin ≡ ok b)
      × (b.zone_begin ≡ zone_begin)
      × IsValid b
      × ((k : ℕ) × (2 ^ k ≡ nr_pages)
          × (b.frame_array 0 ≡ free k)
          × (b.free_lists k ≡ some 0)
          × ((i j : ℕ) → b.frame_array i ≡ free j → (i ≡ 0) × (j ≡ k)))
      × ((i : ℕ) → i < nr_pages → is_allocated (b.frame_array i) ≡ false)
init-IsValid z = (
  fresh z,
  init-fresh z,
  refl,
  fresh-IsValid z,
  (
    9,
    refl,
    ap (λ (f : ℕ → Frame). f 0) (first z),
    refl,
    λ i j e. start_free i j (ap (λ (f : ℕ → Frame). f i) (sym (first z)) ∙ e),
  ),
  λ i h. ap (λ (f : ℕ → Frame). is_allocated (f i)) (first z) ∙ start_in_zone i h,
)
