-- ===== src/Buddy/Split.antt =====
-- `split_block` cuts a block in halves and frees the upper ones.
use native.Mathlib.Nat.{pow-suc, mod-mod_of_dvd, dvd-mul_right, add-mod_right, zero-mod}
use native.Mathlib.Decide.{dec_lt}
use valkyrie.Base.{
  ℕ, zero, suc, ◌+◌, ◌-◌, ◌%◌, ◌^◌, ◌≤◌, ◌<◌, ◌≡◌, ◌≢◌, refl, sym, ap, ◌∙◌, List, ◌∷◌, arith, ◌==◌,
  Bool-cases, Bool, inl, inr, ==_iff, leb, true, false, ◌&&◌, ltb, lt→ltb,
}
use valkyrie.Base.Maps.{update, fill}
use valkyrie.Base.Outcome.{Outcome, ok, ◌>>=◌}
use valkyrie.Buddy.{
  Buddy, Frame, free, allocated, dont_allocate, set_order, split_loop, split_round, get_buddy,
  mark_block_as_allocatable, free_list_add_head, nr_pages, max_order,
}
use valkyrie.Buddy.Frames.{release, Shape, pow_pos, release-Shape}
use valkyrie.Buddy.FreeLists.{Linked, Relinked}
use valkyrie.Buddy.Blocks.{set_order-Linked, add_head-Relinked, add_head-Linked}
use valkyrie.Buddy.Marks.{xor-eq-buddy_of, mark_allocatable_lem, fill-release}

-- Is `j` one of the `n` frames from `i` on?
abbrev pub inside : ℕ → ℕ → ℕ → Bool
inside i n j = leb i j && ltb j (i + n)

pub aligned_half : (i k : ℕ) → i % 2 ^ suc k ≡ 0 → i % 2 ^ k ≡ 0
aligned_half i k h =
    sym (mod-mod_of_dvd (2 ^ k) i (rw (pow-suc 2 k) (dvd-mul_right (2 ^ k) 2)))
    ∙ ap (λ (t : ℕ). t % 2 ^ k) h
    ∙ zero-mod (2 ^ k)

pub aligned_upper : (i k : ℕ) → i % 2 ^ suc k ≡ 0 → (i + 2 ^ k) % 2 ^ k ≡ 0
aligned_upper i k h = add-mod_right i (2 ^ k) ∙ aligned_half i k h

-- A block that stands in no free list, at `i` and of order `o`, in a state whose other frames are
-- those of `f`.
pub record Detached (b : Buddy) (i o : ℕ) (lists : ℕ → List ℕ) (f : ℕ → Frame) : Type 0 where
  pub linked : Linked b lists f
  pub shape : Shape f
  pub order : (b.headers i).order ≡ o
  pub small : o < max_order
  pub fits : i + 2 ^ o ≤ nr_pages
  pub aligned : i % 2 ^ o ≡ 0
  pub held : (j : ℕ) → inside i (2 ^ o) j ≡ true → f j ≡ allocated
  pub agree : (j : ℕ) → inside i (2 ^ o) j ≡ false → b.frame_array j ≡ f j

-- What cutting such a block down to the order `target` leaves.
pub record Cut (b : Buddy) (i o target : ℕ) (f : ℕ → Frame) (out : Outcome Buddy) : Type 0 where
  pub after : Buddy
  pub runs : out ≡ ok after
  pub lists : ℕ → List ℕ
  pub frames : ℕ → Frame
  pub zone : after.zone_begin ≡ b.zone_begin
  pub detached : Detached after i target lists frames
  pub freed :
      (j : ℕ) → inside i (2 ^ o) j ≡ true → inside i (2 ^ target) j ≡ false → frames j ≢ allocated
  pub outside : (j : ℕ) → inside i (2 ^ o) j ≡ false → frames j ≡ f j
  pub others : (j : ℕ) → inside i (2 ^ o) j ≡ false → (after.headers j).order ≡ (b.headers j).order

-- One round: the upper half becomes a free block of its own.
abbrev pub free_half : Buddy → ℕ → ℕ → Outcome Buddy
free_half b buddy o = mark_block_as_allocatable (set_order b buddy o) buddy >>= λ marked.
    free_list_add_head marked buddy

module _ (b : Buddy) (i o : ℕ) (lists : ℕ → List ℕ) (f : ℕ → Frame)
    (d : Detached b i (suc o) lists f) where
  buddy : ℕ
  buddy = i + 2 ^ o

  half : 2 ^ suc o ≡ 2 ^ o + 2 ^ o
  half = omega (arith, pow-suc 2 o)

  halved : Buddy
  halved = set_order b i o

  ready : Buddy
  ready = set_order halved buddy o

  marked : Buddy
  unfolding ready halved buddy
  marked = record ready {
    frame_array = fill (update b.frame_array buddy (free o)) (buddy + 1) (2 ^ o - 1) dont_allocate;
  }

  is_buddy : get_buddy halved i ≡ buddy
  unfolding get_buddy halved buddy
  is_buddy =
      let here : (halved.headers i).index ≡ i = ground (arith, d.linked.indices i) in
      let there : (halved.headers i).order ≡ o = ground arith in
      let near : (i % 2 ^ suc o == 0) ≡ true = (==_iff _ _).1 d.aligned in
      rw (here, there)
        (xor-eq-buddy_of i o (omega (arith, d.fits, pow_pos (suc o))) (omega (arith, d.small))
            (aligned_half i o d.aligned)
          ∙ rw near)

  upper : (j : ℕ) → buddy ≤ j → j < buddy + 2 ^ o → f j ≡ allocated
  unfolding buddy
  upper j lo hi = d.held j (let h = half in ground arith)

  marked-Linked : Linked marked lists f
  unfolding marked
  marked-Linked = record {
    chains = l2.chains;
    counts = l2.counts;
    orders = l2.orders;
    indices = l2.indices;
  }
    where
      l1 : Linked halved lists f
      l1 = set_order-Linked b lists f d.linked i o (d.held i (ground (arith, pow_pos (suc o))))

      l2 : Linked ready lists f
      l2 =
          set_order-Linked halved lists f l1 buddy o
            (upper buddy (omega arith) (omega (arith, pow_pos o)))

  ready_order : (ready.headers buddy).order ≡ o
  unfolding ready
  ready_order = ground arith

  marks : mark_block_as_allocatable ready buddy ≡ ok marked
  unfolding marked
  marks =
      mark_allocatable_lem ready buddy o
        (ground (arith, d.linked.indices i, d.linked.indices buddy)) ready_order
        (omega (arith, d.small)) (omega (arith, d.fits, half))

  add : Relinked marked (update lists o (buddy ∷ lists o)) (free_list_add_head marked buddy)
  unfolding marked
  add =
      add_head-Relinked marked lists f marked-Linked buddy o
        (upper buddy (omega arith) (omega (arith, pow_pos o))) ready_order (omega (arith, d.small))

  round_runs : free_half halved (get_buddy halved i) o ≡ ok add.after
  unfolding ready
  round_runs =
      ap (λ t. free_half halved t o) is_buddy
      ∙ ap (λ (m : Outcome Buddy). m >>= λ c. free_list_add_head c buddy) marks
      ∙ add.runs

  frames : ℕ → Frame
  frames = release f buddy o (2 ^ o)

  frame_now : (j : ℕ) → add.after.frame_array j ≡ release b.frame_array buddy o (2 ^ o) j
  unfolding marked
  frame_now j = ap (λ (g : ℕ → Frame). g j) add.same.frames ∙ fill-release b.frame_array buddy o j

  order_now : (j : ℕ) → j ≢ buddy → (add.after.headers j).order ≡ (halved.headers j).order
  unfolding marked
  order_now j ne = add.same.orders j ∙ ground arith

  i-ne-buddy : i ≢ buddy
  unfolding buddy
  i-ne-buddy = omega (arith, pow_pos o)

  halved_order : (halved.headers i).order ≡ o
  unfolding halved
  halved_order = ground arith

  held_below : (j : ℕ) → inside i (2 ^ o) j ≡ true → frames j ≡ allocated
  unfolding frames buddy
  held_below j h = ground (arith, d.held j, half)

  agree_now :
      (j : ℕ) → inside i (2 ^ o) j ≡ false → release b.frame_array buddy o (2 ^ o) j ≡ frames j
  unfolding frames buddy
  agree_now j h = ground (arith, d.agree j, half)

  upper_fits : buddy + 2 ^ o ≤ nr_pages
  unfolding buddy
  upper_fits = omega (arith, d.fits, half)

  upper_aligned : buddy % 2 ^ o ≡ 0
  unfolding buddy
  upper_aligned = aligned_upper i o d.aligned

  round-Detached : Detached add.after i o (update lists o (buddy ∷ lists o)) frames
  unfolding frames marked
  round-Detached = record {
    linked =
        add_head-Linked marked lists f marked-Linked buddy o add.after upper ready_order add.same
          add.chains;
    shape = release-Shape f d.shape buddy o upper (omega (arith, d.small)) upper_fits upper_aligned;
    order = order_now i i-ne-buddy ∙ halved_order;
    small = omega (arith, d.small);
    fits = omega (arith, d.fits, half);
    aligned = aligned_half i o d.aligned;
    held = held_below;
    agree = λ j h. frame_now j ∙ agree_now j h;
  }

  freed_now :
      (j : ℕ) → inside i (2 ^ suc o) j ≡ true → inside i (2 ^ o) j ≡ false → frames j ≢ allocated
  unfolding frames buddy
  freed_now j h k = ground (arith, half)

  outside_now : (j : ℕ) → inside i (2 ^ suc o) j ≡ false → frames j ≡ f j
  unfolding frames buddy
  outside_now j h = ground (arith, half, pow_pos o)

  others_now :
      (j : ℕ) → inside i (2 ^ suc o) j ≡ false → (add.after.headers j).order ≡ (b.headers j).order
  unfolding halved buddy
  others_now j h = order_now j (ground (arith, half, pow_pos o)) ∙ ground (arith, half, pow_pos o)

  zone_now : add.after.zone_begin ≡ b.zone_begin
  unfolding marked
  zone_now = add.same.zone

  -- A round cuts a block of order o + 1 into two of order o.
  pub round-Cut : Cut b i (suc o) o f (split_round b i o)
  unfolding halved split_round
  round-Cut = record {
    after = add.after;
    runs = round_runs;
    lists = update lists o (buddy ∷ lists o);
    frames = frames;
    zone = zone_now;
    detached = round-Detached;
    freed = freed_now;
    outside = outside_now;
    others = others_now;
  }

split_step :
    (fuel : ℕ) (b : Buddy) (i o target : ℕ)
    → (b.headers i).order ≡ suc o
    → target < suc o
    → split_loop (suc fuel) b i target ≡ (split_round b i o >>= λ cut. split_loop fuel cut i target)
unfolding split_loop
split_step fuel b i o target e lt =
    let less : suc o - 1 ≡ o = omega arith in
    rw (e, less, lt→ltb 0 (suc o) (omega arith), lt→ltb target (suc o) lt)

split_done :
    (fuel : ℕ) (b : Buddy) (i target : ℕ)
    → (b.headers i).order ≡ target
    → split_loop (suc fuel) b i target ≡ ok b
unfolding split_loop
split_done fuel b i target e = rw e (ground arith)

pub Cut-none :
    (b : Buddy) (i o : ℕ) (lists : ℕ → List ℕ) (f : ℕ → Frame) (out : Outcome Buddy)
    → Detached b i o lists f
    → out ≡ ok b
    → Cut b i o o f out
Cut-none b i o lists f out d e = record {
  after = b;
  runs = e;
  lists = lists;
  frames = f;
  zone = refl;
  detached = d;
  freed = λ j h k. absurd (ground arith);
  outside = λ j h. refl;
  others = λ j h. refl;
}

Cut-trans :
    (b : Buddy) (i m target : ℕ) (f : ℕ → Frame) (first : Outcome Buddy) (k : Buddy → Outcome Buddy)
    → target ≤ m
    → (c : Cut b i (suc m) m f first) → Cut c.after i m target c.frames (k c.after)
    → Cut b i (suc m) target f (first >>= k)
Cut-trans b i m target f first k le c d = record {
  after = d.after;
  runs = ap (λ (o : Outcome Buddy). o >>= k) c.runs ∙ d.runs;
  lists = d.lists;
  frames = d.frames;
  zone = d.zone ∙ c.zone;
  detached = d.detached;
  freed = λ j h g. elim (Bool-cases (inside i (2 ^ m) j)) [
    | inl near ↦ d.freed j near g
    | inr far ↦ λ e. c.freed j h far (sym (d.outside j far) ∙ e)
  ];
  outside = λ j h. d.outside j (wider j h) ∙ c.outside j h;
  others = λ j h. d.others j (wider j h) ∙ c.others j h;
}
  where
    wider : (j : ℕ) → inside i (2 ^ suc m) j ≡ false → inside i (2 ^ m) j ≡ false
    wider j h = ground (arith, pow-suc 2 m)

-- The loop cuts the block down to the order `target`, in as many rounds as there are orders between.
pub split_loop-Cut :
    (fuel : ℕ) (b : Buddy) (i o target : ℕ) (lists : ℕ → List ℕ) (f : ℕ → Frame)
    → Detached b i o lists f
    → target ≤ o
    → o < fuel + target
    → Cut b i o target f (split_loop fuel b i target)
split_loop-Cut zero b i o target lists f d le lt = absurd (omega arith)
split_loop-Cut (suc fuel) b i zero target lists f d le lt =
    let e : target ≡ 0 = omega arith in
    rw e (Cut-none b i 0 lists f _ d (split_done fuel b i 0 d.order))
split_loop-Cut (suc fuel) b i (suc o) target lists f d le lt =
    let c = round-Cut b i o lists f d in
    let rest = split_loop-Cut fuel c.after i o target c.lists c.frames c.detached in
    elim (dec_lt target (suc o)) [
      | yes p ↦ rw (split_step fuel b i o target d.order p) (
          Cut-trans b i o target f _ (λ added. split_loop fuel added i target) (omega arith) c
            (rest (omega arith) (omega arith)))
      | no p ↦
          let e : target ≡ suc o = omega arith in
          rw e (Cut-none b i (suc o) lists f _ d (split_done fuel b i (suc o) d.order))
    ]
