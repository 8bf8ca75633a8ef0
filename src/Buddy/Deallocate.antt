-- ===== src/Buddy/Deallocate.antt =====
-- What `deallocate` gives back.
use mathlib.Core.Path.{fun_ext}
use valkyrie.Base.{
  ℕ, ◌+◌, ◌-◌, ◌*◌, ◌/◌, ◌%◌, ◌^◌, ◌≤◌, ◌<◌, ◌≡◌, refl, sym, ap, ◌∙◌, ◌∷◌, Option, some, arith,
  Bool-cases, inl, inr, subst, true, false, ◌&&◌, not,
}
use valkyrie.Base.Maps.{update, fill}
use valkyrie.Base.Outcome.{Outcome, ok}
use valkyrie.Buddy.{
  Buddy, Frame, free, allocated, dont_allocate, merge_loop, get_block_header,
  mark_block_as_allocatable, free_list_add_head, allocate_order, deallocate, nr_pages, max_order,
  page_size,
}
use valkyrie.Buddy.Frames.{release, Shape, pow_pos, release-Shape}
use valkyrie.Buddy.FreeLists.{Linked, Relinked}
use valkyrie.Buddy.Blocks.{add_head-Relinked, add_head-Linked}
use valkyrie.Buddy.Marks.{mark_allocatable_lem, fill-release}
use valkyrie.Buddy.Split.{inside, Detached}
use valkyrie.Buddy.Merge.{Merged, merge_loop-Merged}
use valkyrie.Buddy.Grants.{is_allocated, is_allocated_iff, IsValid, Granted}

-- The zone begins at a page and ends below 2^64.
pub record ZoneFits (b : Buddy) : Type 0 where
  pub begins : b.zone_begin % page_size ≡ 0
  pub ends : b.zone_begin + nr_pages * page_size ≤ 2 ^ 64

-- The block of order `o` at page `i` is handed out: its frames are allocated, and its header says
-- its order.
pub record IsHeld (b : Buddy) (i o : ℕ) : Type 0 where
  pub order : (b.headers i).order ≡ o
  pub small : o < max_order
  pub fits : i + 2 ^ o ≤ nr_pages
  pub aligned : i % 2 ^ o ≡ 0
  pub held : (j : ℕ) → inside i (2 ^ o) j ≡ true → is_allocated (b.frame_array j) ≡ true

-- The block has been freed: its frames are not allocated any more, and no other frame and no other
-- allocated block has changed.
pub record Released (b : Buddy) (i o : ℕ) (out : Outcome Buddy) : Type 0 where
  pub after : Buddy
  pub runs : out ≡ ok after
  pub zone : after.zone_begin ≡ b.zone_begin
  pub valid : IsValid after
  pub now :
      (j : ℕ)
      → is_allocated (after.frame_array j)
        ≡ (not (inside i (2 ^ o) j) && is_allocated (b.frame_array j))
  pub others :
      (j : ℕ)
      → is_allocated (after.frame_array j) ≡ true
      → (after.headers j).order ≡ (b.headers j).order

-- The address of a page leads back to its header.
header_of_page :
    (b : Buddy) (i : ℕ)
    → ZoneFits b
    → i < nr_pages
    → get_block_header b (b.zone_begin + i * page_size) ≡ ok i
unfolding get_block_header
header_of_page b i z h =
    let page : (b.zone_begin + i * page_size) % page_size ≡ 0 = omega (arith, z.begins) in
    let idx : (b.zone_begin + i * page_size + 2 ^ 64 - b.zone_begin) % 2 ^ 64 / page_size % 2 ^ 32
        ≡ i =
      omega (arith, z.ends) in
    rw (page, idx) (ground arith)

module _ (b : Buddy) (v : IsValid b) (i o : ℕ) (h : IsHeld b i o) where
  start : Detached b i o v.lists b.frame_array
  start = record {
    linked = v.linked;
    shape = v.shape;
    order = h.order;
    small = h.small;
    fits = h.fits;
    aligned = h.aligned;
    held = λ j k. is_allocated_iff _ (h.held j k);
    agree = λ j k. refl;
  }

  m : Merged b i o b.frame_array (merge_loop max_order b i)
  m = merge_loop-Merged max_order b i o v.lists b.frame_array start (omega arith)

  held_all : (j : ℕ) → m.whole ≤ j → j < m.whole + 2 ^ m.size → m.frames j ≡ allocated
  held_all j lo hi = m.detached.held j (ground arith)

  add :
      Relinked m.after
        (update m.lists m.size (m.whole ∷ m.lists m.size))
        (free_list_add_head m.after m.whole)
  add =
      add_head-Relinked m.after m.lists m.frames m.detached.linked m.whole m.size
        (held_all m.whole (omega arith) (omega (arith, pow_pos m.size))) m.detached.order
        m.detached.small

  frames : ℕ → Frame
  frames = release m.frames m.whole m.size (2 ^ m.size)

  after : Buddy
  after = record add.after {
    frame_array =
        fill (update add.after.frame_array m.whole (free m.size)) (m.whole + 1) (2 ^ m.size - 1)
          dont_allocate;
  }

  marks : mark_block_as_allocatable add.after m.whole ≡ ok after
  unfolding after
  marks =
      mark_allocatable_lem add.after m.whole m.size
        (add.same.indices m.whole ∙ m.detached.linked.indices m.whole)
        (add.same.orders m.whole ∙ m.detached.order) m.detached.small m.detached.fits

  whole_frames : after.frame_array ≡ frames
  unfolding after frames
  whole_frames = fun_ext λ j.
      fill-release add.after.frame_array m.whole m.size j
      ∙ (let e : add.after.frame_array j ≡ m.after.frame_array j =
            ap (λ (g : ℕ → Frame). g j) add.same.frames in
          ground (arith, m.detached.agree j))

  relinked : Linked after (update m.lists m.size (m.whole ∷ m.lists m.size)) after.frame_array
  unfolding frames after
  relinked =
      let l =
        add_head-Linked m.after m.lists m.frames m.detached.linked m.whole m.size add.after held_all
          m.detached.order add.same add.chains in
      subst (Linked after (update m.lists m.size (m.whole ∷ m.lists m.size))) (sym whole_frames)
        (record { chains = l.chains; counts = l.counts; orders = l.orders; indices = l.indices })

  after-IsValid : IsValid after
  unfolding frames
  after-IsValid = record {
    lists = update m.lists m.size (m.whole ∷ m.lists m.size);
    linked = relinked;
    shape = subst Shape (sym whole_frames) (
        release-Shape m.frames m.detached.shape m.whole m.size held_all m.detached.small
          m.detached.fits m.detached.aligned);
  }

  frame_at : (j : ℕ) → after.frame_array j ≡ frames j
  frame_at j = ap (λ (g : ℕ → Frame). g j) whole_frames

  freed : (j : ℕ) → inside m.whole (2 ^ m.size) j ≡ true → is_allocated (frames j) ≡ false
  unfolding frames
  freed j h = ground (arith, pow_pos m.size)

  kept : (j : ℕ) → inside m.whole (2 ^ m.size) j ≡ false → frames j ≡ b.frame_array j
  unfolding frames
  kept j h = ground (arith, m.outside j h, pow_pos m.size)

  now :
      (j : ℕ)
      → is_allocated (frames j) ≡ (not (inside i (2 ^ o) j) && is_allocated (b.frame_array j))
  now j = elim (Bool-cases (inside m.whole (2 ^ m.size) j)) [
    | inl within ↦ elim (Bool-cases (inside i (2 ^ o) j)) [
      | inl near ↦ rw near (freed j within)
      | inr far ↦ rw far (freed j within ∙ sym (m.gained j within far))
    ]
    | inr beyond ↦ elim (Bool-cases (inside i (2 ^ o) j)) [
      | inl near ↦ absurd (ground (arith, m.covers j near))
      | inr far ↦ rw far (ap is_allocated (kept j beyond))
    ]
  ]

  others :
      (j : ℕ) → is_allocated (frames j) ≡ true → (add.after.headers j).order ≡ (b.headers j).order
  others j a = elim (Bool-cases (inside m.whole (2 ^ m.size) j)) [
    | inl within ↦ cc (freed j within)
    | inr beyond ↦ add.same.orders j ∙ m.others j beyond
  ]

  runs : ZoneFits b → deallocate b (some (b.zone_begin + i * page_size)) ≡ ok after
  unfolding deallocate
  runs z = rw (header_of_page b i z (omega (arith, h.fits, pow_pos o)), m.runs, add.runs) marks

  -- Freeing a block that is handed out returns: no panic, no fault, no endless walk. The allocator
  -- stays valid; exactly the frames of the block are not allocated any more, and every other
  -- allocated block keeps its order.
  pub deallocate-Released :
      ZoneFits b → Released b i o (deallocate b (some (b.zone_begin + i * page_size)))
  unfolding after
  deallocate-Released z = record {
    after = after;
    runs = runs z;
    zone = add.same.zone ∙ m.zone;
    valid = after-IsValid;
    now = λ j. ap is_allocated (frame_at j) ∙ now j;
    others = λ j a. others j (sym (ap is_allocated (frame_at j)) ∙ a);
  }

-- A granted block is held.
pub Granted-IsHeld :
    (b : Buddy) (o : ℕ) {out : Outcome (Buddy × Option ℕ)}
    → o < max_order
    → (g : Granted b o out) → IsHeld g.after g.block o
Granted-IsHeld b o small g = record {
  order = g.size;
  small = small;
  fits = g.fits;
  aligned = g.aligned;
  held = λ j k. g.now j ∙ rw k refl;
}

-- A block that was granted and is freed at once: both calls return, and the frames that are allocated
-- are those from before.
pub deallocate-allocate_order :
    (b : Buddy) (o : ℕ)
    → o < max_order
    → ZoneFits b
    → (g : Granted b o (allocate_order b o))
    → (after : Buddy) × (deallocate g.after (some (b.zone_begin + g.block * page_size)) ≡ ok after)
      × ((j : ℕ) → is_allocated (after.frame_array j) ≡ is_allocated (b.frame_array j))
deallocate-allocate_order b o small z g = (
  r.after,
  ap (λ (a : ℕ). deallocate g.after (some (a + g.block * page_size))) (sym g.zone) ∙ r.runs,
  same,
)
  where
    fits : ZoneFits g.after
    fits = record { begins = rw g.zone z.begins; ends = rw g.zone z.ends }

    r :
        Released g.after g.block o
          (deallocate g.after (some (g.after.zone_begin + g.block * page_size)))
    r = deallocate-Released g.after g.valid g.block o (Granted-IsHeld b o small g) fits

    same : (j : ℕ) → is_allocated (r.after.frame_array j) ≡ is_allocated (b.frame_array j)
    same j = elim (Bool-cases (inside g.block (2 ^ o) j)) [
      | inl near ↦ r.now j ∙ rw near (sym (g.was_free j near))
      | inr far ↦ r.now j ∙ rw far (g.now j ∙ rw far refl)
    ]
