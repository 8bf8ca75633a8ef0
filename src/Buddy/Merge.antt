-- ===== src/Buddy/Merge.antt =====
-- `deallocate` joins a block with its free buddies.
use native.Mathlib.Nat.{pow-suc}
use valkyrie.Base.{
  ℕ, zero, suc, ◌+◌, ◌-◌, ◌^◌, ◌≤◌, ◌<◌, ◌≡◌, refl, sym, ap, ◌∙◌, List, arith, ◌==◌, if◌then◌else◌,
  Bool-cases, Bool, inl, inr, ◌⊎◌, ==_iff, true, false, ◌||◌, not, ltb, ltb→lt,
}
use valkyrie.Base.Maps.{update}
use valkyrie.Base.Outcome.{Outcome, ok, ◌>>=◌}
use valkyrie.Buddy.{
  Buddy, Frame, free, allocated, dont_allocate, set_order, merge_round, merge_loop, get_buddy,
  is_block_allocated, free_list_del_entry, nr_pages, max_order,
}
use valkyrie.Buddy.Chains.{remove}
use valkyrie.Buddy.Frames.{claim, pow_pos, claim-Shape}
use valkyrie.Buddy.FreeLists.{Relinked, del_entry-Relinked}
use valkyrie.Buddy.Blocks.{set_order-Linked, del_entry-Linked}
use valkyrie.Buddy.Marks.{xor-eq-buddy_of, buddy_of}
use valkyrie.Buddy.Split.{inside, Detached}
use valkyrie.Buddy.Alignment.{IsBuddy, buddy_of-IsBuddy, buddy-ne-dont}
use valkyrie.Buddy.Grants.{is_allocated, block_free}

-- What growing a detached block leaves: a detached block around it; every frame that it gained was
-- free, and the rest is as before.
pub record Merged (b : Buddy) (i o : ℕ) (f : ℕ → Frame) (out : Outcome (Buddy × ℕ)) : Type 0 where
  pub after : Buddy
  pub whole : ℕ
  pub size : ℕ
  pub runs : out ≡ ok (after, whole)
  pub lists : ℕ → List ℕ
  pub frames : ℕ → Frame
  pub zone : after.zone_begin ≡ b.zone_begin
  pub detached : Detached after whole size lists frames
  pub covers : (j : ℕ) → inside i (2 ^ o) j ≡ true → inside whole (2 ^ size) j ≡ true
  pub gained :
      (j : ℕ)
      → inside whole (2 ^ size) j ≡ true
      → inside i (2 ^ o) j ≡ false
      → is_allocated (f j) ≡ false
  pub outside : (j : ℕ) → inside whole (2 ^ size) j ≡ false → frames j ≡ f j
  pub others :
      (j : ℕ) → inside whole (2 ^ size) j ≡ false → (after.headers j).order ≡ (b.headers j).order

-- Whether the loop stops at the block's buddy.
abbrev stops : Buddy → ℕ → ℕ → Bool
stops b i k = is_block_allocated b (get_buddy b i) || not (k == (b.headers (get_buddy b i)).order)

or_false : (p q : Bool) → (p || q) ≡ false → (p ≡ false) × (q ≡ false)
or_false p q h = ground arith

not-false : (p : Bool) → not p ≡ false → p ≡ true
not-false p h = ground arith

reads :
    (b : Buddy) (i : ℕ) (x : Frame)
    → b.frame_array (b.headers i).index ≡ x
    → is_block_allocated b i ≡ is_allocated x
unfolding is_block_allocated
reads b i (free k) e = rw (e, is_block_allocated)
reads b i allocated e = rw (e, is_block_allocated)
reads b i dont_allocate e = rw (e, is_block_allocated)

module _ (b : Buddy) (i k : ℕ) (lists : ℕ → List ℕ) (f : ℕ → Frame)
    (d : Detached b i k lists f) where
  buddy : ℕ
  buddy = buddy_of i k

  is_buddy : get_buddy b i ≡ buddy
  unfolding get_buddy buddy
  is_buddy =
      rw (d.linked.indices i, d.order)
        (xor-eq-buddy_of i k (omega (arith, d.fits, pow_pos k)) d.small d.aligned)

  u : IsBuddy i k buddy
  unfolding buddy
  u = buddy_of-IsBuddy i k (omega (arith, d.fits, pow_pos k)) d.small d.aligned

  buddy_outside : inside i (2 ^ k) buddy ≡ false
  buddy_outside = ground (arith, u.pair, pow_pos k)

  test_reads : is_block_allocated b buddy ≡ is_allocated (f buddy)
  test_reads =
      reads b buddy (f buddy)
        (ap b.frame_array (d.linked.indices buddy) ∙ d.agree buddy buddy_outside)

  goes_on_at :
      (x : Frame)
      → f buddy ≡ x
      → is_block_allocated b buddy ≡ false
      → k ≡ (b.headers buddy).order
      → f buddy ≡ free k
  goes_on_at allocated e t o = cc (sym test_reads ∙ t, ap is_allocated e)
  goes_on_at dont_allocate e t o = absurd (buddy-ne-dont f i k buddy d.shape d.held u e)
  goes_on_at (free m) e t o = e ∙ ap free (sym (o ∙ d.linked.orders buddy m e))

  -- The loop goes on only where the buddy is a free block of the block's order.
  goes_on :
      is_block_allocated b buddy ≡ false → (k == (b.headers buddy).order) ≡ true → f buddy ≡ free k
  goes_on t o = goes_on_at (f buddy) refl t ((==_iff k _).0 o)

  grows : stops b i k ≡ false → f buddy ≡ free k
  grows on =
      let there : (is_block_allocated b buddy || not (k == (b.headers buddy).order)) ≡ false =
        rw is_buddy at on in
      let p = or_false _ _ there in goes_on p.0 (not-false _ p.1)

  module _ (e : f buddy ≡ free k) (lt : k < max_order - 1) where
    taken : Relinked b (update lists k (remove buddy (lists k))) (free_list_del_entry b buddy)
    taken = del_entry-Relinked b lists f d.linked buddy k d.shape e

    lower : ℕ
    lower = if ltb buddy i then buddy else i

    lower_is : lower ≡ u.lower
    unfolding lower
    lower_is = ground (arith, u.pair, pow_pos k)

    frames : ℕ → Frame
    frames = claim f buddy (2 ^ k)

    order_of_lower : (taken.after.headers lower).order ≡ k
    unfolding lower
    order_of_lower =
        taken.same.orders (if ltb buddy i then buddy else i)
        ∙ ground (arith, d.order, d.linked.orders buddy k e)

    joined : Buddy
    joined = set_order taken.after lower (suc k)

    round_runs : merge_round b i ≡ ok (joined, lower)
    unfolding merge_round joined lower
    round_runs =
        let more : k + 1 ≡ suc k = omega arith in rw (is_buddy, taken.runs, order_of_lower, more)

    held_wide : (j : ℕ) → inside lower (2 ^ suc k) j ≡ true → frames j ≡ allocated
    unfolding frames
    held_wide j h = let l = lower_is in ground (arith, u.pair, pow-suc 2 k, d.held j)

    lower_fits : lower + 2 ^ suc k ≤ nr_pages
    lower_fits =
        let l = lower_is in
        let fit = (d.shape.bounds buddy k e).1 in ground (arith, u.pair, d.fits, pow-suc 2 k)

    agree_far : (j : ℕ) → inside lower (2 ^ suc k) j ≡ false → b.frame_array j ≡ frames j
    unfolding frames
    agree_far j h = let l = lower_is in ground (arith, u.pair, pow-suc 2 k, d.agree j)

    joined-Detached : Detached joined lower (suc k) (update lists k (remove buddy (lists k))) frames
    unfolding joined frames
    joined-Detached = record {
      linked =
          set_order-Linked taken.after _ _
            (del_entry-Linked b lists f d.linked buddy k taken.after d.shape e taken.same
              taken.chains)
            lower (suc k) (held_wide lower (ground (arith, pow_pos (suc k))));
      shape = claim-Shape f d.shape buddy k e;
      order = ground arith;
      small = omega arith;
      fits = lower_fits;
      aligned = rw lower_is u.window;
      held = held_wide;
      agree = λ j h. ap (λ (g : ℕ → Frame). g j) taken.same.frames ∙ agree_far j h;
    }

    wider : (j : ℕ) → inside i (2 ^ k) j ≡ true → inside lower (2 ^ suc k) j ≡ true
    wider j h = let l = lower_is in ground (arith, u.pair, pow-suc 2 k)

    gained_free :
        (j : ℕ)
        → inside lower (2 ^ suc k) j ≡ true
        → inside i (2 ^ k) j ≡ false
        → is_allocated (f j) ≡ false
    gained_free j h g =
        block_free f d.shape buddy k j e (let l = lower_is in ground (arith, u.pair, pow-suc 2 k))

    frames_far : (j : ℕ) → inside lower (2 ^ suc k) j ≡ false → frames j ≡ f j
    unfolding frames
    frames_far j h = let l = lower_is in ground (arith, u.pair, pow-suc 2 k)

    orders_far :
        (j : ℕ)
        → inside lower (2 ^ suc k) j ≡ false
        → (joined.headers j).order ≡ (b.headers j).order
    unfolding joined
    orders_far j h = ground (arith, taken.same.orders j, pow_pos (suc k))

    zone_kept : joined.zone_begin ≡ b.zone_begin
    unfolding joined
    zone_kept = taken.same.zone

    -- One round of the loop doubles the block.
    round-Merged : Merged b i k f (merge_round b i)
    round-Merged = record {
      after = joined;
      whole = lower;
      size = suc k;
      runs = round_runs;
      lists = update lists k (remove buddy (lists k));
      frames = frames;
      zone = zone_kept;
      detached = joined-Detached;
      covers = wider;
      gained = gained_free;
      outside = frames_far;
      others = orders_far;
    }

    round_size : round-Merged.size ≡ suc k
    unfolding round-Merged
    round_size = refl

merge_stop :
    (fuel : ℕ) (b : Buddy) (i k : ℕ)
    → (b.headers i).order ≡ k
    → (ltb k (max_order - 1) ≡ false) ⊎ (stops b i k ≡ true)
    → merge_loop (suc fuel) b i ≡ ok (b, i)
unfolding merge_loop
merge_stop fuel b i k o (inl h) = rw (o, h)
merge_stop fuel b i k o (inr h) = rw (o, h) (ground arith)

merge_step :
    (fuel : ℕ) (b : Buddy) (i k : ℕ)
    → (b.headers i).order ≡ k
    → ltb k (max_order - 1) ≡ true
    → stops b i k ≡ false
    → merge_loop (suc fuel) b i
      ≡ (merge_round b i >>= λ (merged, whole). merge_loop fuel merged whole)
unfolding merge_loop
merge_step fuel b i k o lt h = rw (o, lt, h)

Merged_none :
    (b : Buddy) (i o : ℕ) (lists : ℕ → List ℕ) (f : ℕ → Frame) (out : Outcome (Buddy × ℕ))
    → Detached b i o lists f
    → out ≡ ok (b, i)
    → Merged b i o f out
Merged_none b i o lists f out d e = record {
  after = b;
  whole = i;
  size = o;
  runs = e;
  lists = lists;
  frames = f;
  zone = refl;
  detached = d;
  covers = λ j h. h;
  gained = λ j h g. absurd (ground arith);
  outside = λ j h. refl;
  others = λ j h. refl;
}

Merged_trans :
    (b : Buddy) (i o : ℕ) (f : ℕ → Frame) (first : Outcome (Buddy × ℕ))
    (k : Buddy → ℕ → Outcome (Buddy × ℕ))
    → (c : Merged b i o f first) → Merged c.after c.whole c.size c.frames (k c.after c.whole)
    → Merged b i o f (first >>= λ (m, w). k m w)
Merged_trans b i o f first k c d = record {
  after = d.after;
  whole = d.whole;
  size = d.size;
  runs = ap (λ (x : Outcome (Buddy × ℕ)). x >>= λ (m, w). k m w) c.runs ∙ d.runs;
  lists = d.lists;
  frames = d.frames;
  zone = d.zone ∙ c.zone;
  detached = d.detached;
  covers = λ j h. d.covers j (c.covers j h);
  gained = λ j h g. elim (Bool-cases (inside c.whole (2 ^ c.size) j)) [
    | inl near ↦ c.gained j near g
    | inr far ↦ sym (ap is_allocated (c.outside j far)) ∙ d.gained j h far
  ];
  outside = λ j h. d.outside j h ∙ c.outside j (tighter j h);
  others = λ j h. d.others j h ∙ c.others j (tighter j h);
}
  where
    tighter :
        (j : ℕ) → inside d.whole (2 ^ d.size) j ≡ false → inside c.whole (2 ^ c.size) j ≡ false
    tighter j h = elim (Bool-cases (inside c.whole (2 ^ c.size) j)) [
      | inl near ↦ cc (d.covers j near)
      | inr far ↦ far
    ]

-- The loop ends, in at most as many rounds as there are orders above the block's.
pub merge_loop-Merged :
    (fuel : ℕ) (b : Buddy) (i k : ℕ) (lists : ℕ → List ℕ) (f : ℕ → Frame)
    → Detached b i k lists f
    → max_order ≤ fuel + k
    → Merged b i k f (merge_loop fuel b i)
merge_loop-Merged zero b i k lists f d le = absurd (omega (arith, d.small))
merge_loop-Merged (suc fuel) b i k lists f d le = elim (Bool-cases (ltb k (max_order - 1))) [
  | inr top ↦ Merged_none b i k lists f _ d (merge_stop fuel b i k d.order (inl top))
  | inl lt ↦ elim (Bool-cases (stops b i k)) [
    | inl stop ↦ Merged_none b i k lists f _ d (merge_stop fuel b i k d.order (inr stop))
    | inr on ↦
        let e = grows b i k lists f d on in
        let c = round-Merged b i k lists f d e (ltb→lt _ _ lt) in
        rw (merge_step fuel b i k d.order lt on) (
          Merged_trans b i k f (merge_round b i) (merge_loop fuel) c (
            merge_loop-Merged fuel c.after c.whole c.size c.lists c.frames c.detached
              (omega (arith, round_size b i k lists f d e (ltb→lt _ _ lt)))))
  ]
]
