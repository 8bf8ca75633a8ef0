-- ===== src/Buddy/Grants.antt =====
-- What a granted request leaves.
use mathlib.Core.Path.{fun_ext}
use native.Mathlib.Nat.{pow-le-pow_right}
use valkyrie.Base.{
  ℕ, ◌+◌, ◌*◌, ◌%◌, ◌^◌, ◌≤◌, ◌≡◌, ◌≢◌, refl, sym, ap, ◌∙◌, List, Option, some, arith, Bool-cases,
  Bool, inl, inr, subst, true, false, ◌||◌,
}
use valkyrie.Base.Maps.{update, fill}
use valkyrie.Base.Outcome.{Outcome, ok, ◌>>=◌}
use valkyrie.Buddy.{
  Buddy, Frame, free, allocated, dont_allocate, hit, get_page_frame, nr_pages, page_size,
}
use valkyrie.Buddy.Chains.{Chain, remove, remove}
use valkyrie.Buddy.Links.{nexts, SameButLinks}
use valkyrie.Buddy.Frames.{claim, Shape, claim-Shape}
use valkyrie.Buddy.FreeLists.{Linked}
use valkyrie.Buddy.Blocks.{del_entry-Linked}
use valkyrie.Buddy.Marks.{mark_allocated_lem, fill-claim}
use valkyrie.Buddy.Split.{inside, Detached, Cut}

-- The allocator's invariant: the frame array describes aligned, disjoint free blocks that lie in the
-- zone, and the linked free lists hold exactly these, each once, in the list of its order.
pub record IsValid (b : Buddy) : Type 0 where
  pub lists : ℕ → List ℕ
  pub linked : Linked b lists b.frame_array
  pub shape : Shape b.frame_array

abbrev pub is_allocated : Frame → Bool
is_allocated allocated = true
is_allocated (free k) = false
is_allocated dont_allocate = false

-- What `hit` does to a detached block: its frames become allocated.
record Hit (c : Buddy) (i : ℕ) (frames : ℕ → Frame) (out : Outcome (Buddy × Option ℕ))
    : Type 0 where
  after : Buddy
  runs : out ≡ ok (after, some (c.zone_begin + i * page_size))
  zone : after.zone_begin ≡ c.zone_begin
  valid : IsValid after
  marks : (j : ℕ) → after.frame_array j ≡ frames j
  orders : (j : ℕ) → (after.headers j).order ≡ (c.headers j).order

hit-Hit :
    (c : Buddy) (i o : ℕ) (lists : ℕ → List ℕ) (f : ℕ → Frame)
    → Detached c i o lists f
    → Hit c i f (hit c i)
unfolding hit get_page_frame
hit-Hit c i o lists f d = record {
  after = after;
  runs =
      rw (mark_allocated_lem c i o (d.linked.indices i) d.order d.small d.fits, d.linked.indices i);
  zone = refl;
  valid = record {
    lists = lists;
    linked = subst (Linked after lists) (sym whole) (record {
      chains = d.linked.chains;
      counts = d.linked.counts;
      orders = d.linked.orders;
      indices = d.linked.indices;
    });
    shape = subst Shape (sym whole) d.shape;
  };
  marks = marks;
  orders = λ j. refl;
}
  where
    after : Buddy
    after = record c { frame_array = fill c.frame_array i (2 ^ o) allocated }

    marks : (j : ℕ) → fill c.frame_array i (2 ^ o) allocated j ≡ f j
    marks j = fill-claim c.frame_array i (2 ^ o) j ∙ ground (arith, d.held j, d.agree j)

    whole : fill c.frame_array i (2 ^ o) allocated ≡ f
    whole = fun_ext marks

-- A free block taken out of its list is detached.
pub detach :
    (b : Buddy) (v : IsValid b) (i m : ℕ) (after : Buddy)
    → b.frame_array i ≡ free m
    → SameButLinks b after
    → ((k : ℕ)
        → Chain (nexts after) (after.free_lists k) (update v.lists m (remove i (v.lists m)) k))
    → Detached after i m (update v.lists m (remove i (v.lists m))) (claim b.frame_array i (2 ^ m))
detach b v i m after e same c = record {
  linked = del_entry-Linked b v.lists b.frame_array v.linked i m after v.shape e same c;
  shape = claim-Shape b.frame_array v.shape i m e;
  order = same.orders i ∙ v.linked.orders i m e;
  small = (v.shape.bounds i m e).0;
  fits = (v.shape.bounds i m e).1;
  aligned = v.shape.aligned i m e;
  held = λ j h. ground arith;
  agree = λ j h. ap (λ (g : ℕ → Frame). g j) same.frames ∙ ground arith;
}

-- A request of order `order` that was granted: the block was wholly free, lies in the zone aligned to
-- its size, and is wholly allocated now; no other frame and no other allocated block has changed.
pub record Granted (b : Buddy) (order : ℕ) (out : Outcome (Buddy × Option ℕ)) : Type 0 where
  pub block : ℕ
  pub after : Buddy
  pub runs : out ≡ ok (after, some (b.zone_begin + block * page_size))
  pub zone : after.zone_begin ≡ b.zone_begin
  pub valid : IsValid after
  pub size : (after.headers block).order ≡ order
  pub aligned : block % 2 ^ order ≡ 0
  pub fits : block + 2 ^ order ≤ nr_pages
  pub was_free :
      (j : ℕ) → inside block (2 ^ order) j ≡ true → is_allocated (b.frame_array j) ≡ false
  pub now :
      (j : ℕ)
      → is_allocated (after.frame_array j)
        ≡ (inside block (2 ^ order) j || is_allocated (b.frame_array j))
  pub others :
      (j : ℕ)
      → is_allocated (b.frame_array j) ≡ true
      → (after.headers j).order ≡ (b.headers j).order

-- The frames of a free block are not allocated.
pub block_free :
    (f : ℕ → Frame) (s : Shape f) (i m j : ℕ)
    → f i ≡ free m
    → inside i (2 ^ m) j ≡ true
    → is_allocated (f j) ≡ false
block_free f s i m j e h = ground (arith, s.inner i m j e)

narrower : (i o m j : ℕ) → o ≤ m → inside i (2 ^ o) j ≡ true → inside i (2 ^ m) j ≡ true
narrower i o m j le h =
    let p : 2 ^ o ≤ 2 ^ m = pow-le-pow_right (omega arith) {i = o} {j = m} le in ground arith

pub is_allocated_iff : (x : Frame) → is_allocated x ≡ true → x ≡ allocated
is_allocated_iff x h = ground arith

not_allocated : (x : Frame) → x ≢ allocated → is_allocated x ≡ false
not_allocated allocated h = absurd (h refl)
not_allocated (free k) h = refl
not_allocated dont_allocate h = refl

-- Taken, cut and marked, in this order.
pub granted :
    (b : Buddy) (v : IsValid b) (i m o : ℕ) (taken : Buddy)
    → b.frame_array i ≡ free m
    → o ≤ m
    → taken.zone_begin ≡ b.zone_begin
    → ((j : ℕ) → (taken.headers j).order ≡ (b.headers j).order)
    → {out : Outcome Buddy} → (c : Cut taken i m o (claim b.frame_array i (2 ^ m)) out)
    → Granted b o (out >>= λ cut. hit cut i)
granted b v i m o taken e le z ord {out} c = record {
  block = i;
  after = h.after;
  runs =
      ap (λ (x : Outcome Buddy). x >>= λ cut. hit cut i) c.runs
      ∙ h.runs
      ∙ ap (λ (a : ℕ). ok (h.after, some (a + i * page_size))) (c.zone ∙ z);
  zone = h.zone ∙ c.zone ∙ z;
  valid = h.valid;
  size = h.orders i ∙ c.detached.order;
  aligned = c.detached.aligned;
  fits = c.detached.fits;
  was_free = λ j k. block_free b.frame_array v.shape i m j e (narrower i o m j le k);
  now = λ j. ap is_allocated (h.marks j) ∙ now j;
  others = λ j a. h.orders j ∙ c.others j (away j a) ∙ ord j;
}
  where
    h : Hit c.after i c.frames (hit c.after i)
    h = hit-Hit c.after i o c.lists c.frames c.detached

    away : (j : ℕ) → is_allocated (b.frame_array j) ≡ true → inside i (2 ^ m) j ≡ false
    away j a = elim (Bool-cases (inside i (2 ^ m) j)) [
      | inl near ↦ cc (block_free b.frame_array v.shape i m j e near)
      | inr far ↦ far
    ]

    now :
        (j : ℕ) → is_allocated (c.frames j) ≡ (inside i (2 ^ o) j || is_allocated (b.frame_array j))
    now j = elim (Bool-cases (inside i (2 ^ o) j)) [
      | inl near ↦ rw near (ap is_allocated (c.detached.held j near))
      | inr far ↦ rw far (elim (Bool-cases (inside i (2 ^ m) j)) [
        | inl within ↦
            not_allocated (c.frames j) (c.freed j within far)
            ∙ sym (block_free b.frame_array v.shape i m j e within)
        | inr beyond ↦ ap is_allocated (c.outside j beyond ∙ ground arith)
      ])
    ]
