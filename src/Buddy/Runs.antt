-- ===== src/Buddy/Runs.antt =====
-- Whole runs of the buddy allocator: any sequence of requests and releases.
use Prim.{Unit, tt}
use native.Mathlib.Decide.{dec_lt}
use native.Mathlib.Nat.{pow-le-pow_right}
use valkyrie.Base.{
  ℕ, zero, suc, ◌+◌, ◌-◌, ◌*◌, ◌/◌, ◌^◌, ◌≤◌, ◌<◌, ◌≡◌, refl, ap, ◌∙◌, inl, inr, List, [], ◌∷◌,
  true, false, Option, none, some, arith, Bool-cases,
}
use valkyrie.Base.Outcome.{Outcome, ok, ◌>>=◌}
use valkyrie.Buddy.{Buddy, allocate, deallocate, page_size, nr_pages, max_order}
use valkyrie.Buddy.Frames.{pow_pos}
use valkyrie.Buddy.Split.{inside}
use valkyrie.Buddy.Grants.{IsValid, is_allocated, Granted}
use valkyrie.Buddy.Allocate.{Served, allocate-Served}
use valkyrie.Buddy.Deallocate.{ZoneFits, IsHeld, Released, deallocate-Released, Granted-IsHeld}

-- The callers of the allocator: the blocks that they hold, each by its page and its order.
pub record Client : Type 0 where
  pub buddy : Buddy
  pub blocks : List (ℕ × ℕ)

-- A request for a number of bytes, or a release of the held block at a place in the list.
pub data Call : Type 0 where
  request release : ℕ → Call

abbrev cons_rest : ℕ × ℕ → Option ((ℕ × ℕ) × List (ℕ × ℕ)) → Option ((ℕ × ℕ) × List (ℕ × ℕ))
cons_rest y none = none
cons_rest y (some (x, rest)) = some (x, y ∷ rest)

abbrev pick : ℕ → List (ℕ × ℕ) → Option ((ℕ × ℕ) × List (ℕ × ℕ))
pick k [] = none
pick zero (x ∷ l) = some (x, l)
pick (suc k) (y ∷ l) = cons_rest y (pick k l)

-- What the client notes after a request.
abbrev noted : Client → Buddy × Option ℕ → Client
noted c (b, none) = record c { buddy = b }
noted c (b, some p) =
    let i = (p - b.zone_begin) / page_size in
    record { buddy = b; blocks = (i, (b.headers i).order) ∷ c.blocks }

abbrev freed : Client → Option ((ℕ × ℕ) × List (ℕ × ℕ)) → Outcome Client
freed c none = ok c
freed c (some ((i, o), rest)) =
    deallocate c.buddy (some (c.buddy.zone_begin + i * page_size)) >>= λ b.
    ok (record { buddy = b; blocks = rest })

abbrev call : Client → Call → Outcome Client
call c (request size) = allocate c.buddy size >>= λ r. ok (noted c r)
call c (release k) = freed c (pick k c.blocks)

abbrev pub run : List Call → Client → Outcome Client
run [] c = ok c
run (x ∷ calls) c = call c x >>= run calls

-- No frame lies in both blocks.
abbrev Disjoint : ℕ × ℕ → ℕ × ℕ → Type 0
Disjoint (i, o) (k, m) = (j : ℕ) → inside i (2 ^ o) j ≡ true → inside k (2 ^ m) j ≡ false

abbrev Apart : ℕ × ℕ → List (ℕ × ℕ) → Type 0
Apart x [] = Unit
Apart x (y ∷ l) = Disjoint x y × Apart x l

-- The blocks are handed out, and no two of them overlap.
abbrev pub AllHeld : Buddy → List (ℕ × ℕ) → Type 0
AllHeld b [] = Unit
AllHeld b ((i, o) ∷ l) = IsHeld b i o × Apart (i, o) l × AllHeld b l

pub record IsSafe (c : Client) : Type 0 where
  pub valid : IsValid c.buddy
  pub zone : ZoneFits c.buddy
  pub held : AllHeld c.buddy c.blocks

-- Every request is for at most 2^42 bytes.
abbrev pub AllSmall : List Call → Type 0
AllSmall [] = Unit
AllSmall (request size ∷ calls) = (size ≤ 2 ^ 42) × AllSmall calls
AllSmall (release k ∷ calls) = AllSmall calls

zone_same : (b after : Buddy) → after.zone_begin ≡ b.zone_begin → ZoneFits b → ZoneFits after
zone_same b after e z = record { begins = rw e z.begins; ends = rw e z.ends }

module _ (b : Buddy) (o : ℕ) {out : Outcome (Buddy × Option ℕ)} (g : Granted b o out) where
  stays : (k m : ℕ) → IsHeld b k m → IsHeld g.after k m
  stays k m h = record {
    order = g.others k (h.held k (ground (arith, pow_pos m))) ∙ h.order;
    small = h.small;
    fits = h.fits;
    aligned = h.aligned;
    held = λ j near. g.now j ∙ (let a = h.held j near in ground arith);
  }

  new-Apart : (l : List (ℕ × ℕ)) → AllHeld b l → Apart (g.block, o) l
  new-Apart [] a = tt
  new-Apart ((k, m) ∷ l) (h, p, a) = (
    λ j near.
        let f = g.was_free j near in
        elim (Bool-cases (inside k (2 ^ m) j)) [
          | inl in_both ↦ let t = h.held j in_both in cc
          | inr apart ↦ apart
        ],
    new-Apart l a,
  )

  all_stay : (l : List (ℕ × ℕ)) → AllHeld b l → AllHeld g.after l
  all_stay [] a = tt
  all_stay ((k, m) ∷ l) (h, p, a) = (stays k m h, p, all_stay l a)

module _ (b : Buddy) (i o : ℕ) {out : Outcome Buddy} (r : Released b i o out) where
  keeps : (k m : ℕ) → Disjoint (i, o) (k, m) → IsHeld b k m → IsHeld r.after k m
  keeps k m d h = record {
    order = r.others k (still k (ground (arith, pow_pos m))) ∙ h.order;
    small = h.small;
    fits = h.fits;
    aligned = h.aligned;
    held = still;
  }
    where
      still : (j : ℕ) → inside k (2 ^ m) j ≡ true → is_allocated (r.after.frame_array j) ≡ true
      still j near = r.now j ∙ elim (Bool-cases (inside i (2 ^ o) j)) [
        | inl within ↦ let f = d j within in cc
        | inr beyond ↦ let a = h.held j near in rw (beyond, a) refl
      ]

  all_keep : (l : List (ℕ × ℕ)) → Apart (i, o) l → AllHeld b l → AllHeld r.after l
  all_keep [] p a = tt
  all_keep ((k, m) ∷ l) (d, p) (h, q, a) = (keeps k m d h, q, all_keep l p a)

swap-Disjoint : (x y : ℕ × ℕ) → Disjoint x y → Disjoint y x
swap-Disjoint (i, o) (k, m) d j near = elim (Bool-cases (inside i (2 ^ o) j)) [
  | inl in_both ↦ let f = d j in_both in cc
  | inr apart ↦ apart
]

-- The block picked out stands apart from `y`, and so do the others.
abbrev ApartPicked : ℕ × ℕ → Option ((ℕ × ℕ) × List (ℕ × ℕ)) → Type 0
ApartPicked y none = Unit
ApartPicked y (some (x, rest)) = Disjoint y x × Apart y rest

abbrev Picked : Buddy → Option ((ℕ × ℕ) × List (ℕ × ℕ)) → Type 0
Picked b none = Unit
Picked b (some (x, rest)) = AllHeld b (x ∷ rest)

cons_rest-ApartPicked :
    (y z : ℕ × ℕ) (q : Option ((ℕ × ℕ) × List (ℕ × ℕ)))
    → Disjoint y z
    → ApartPicked y q
    → ApartPicked y (cons_rest z q)
cons_rest-ApartPicked y z none d a = tt
cons_rest-ApartPicked y z (some (x, rest)) d (e, a) = (e, (d, a))

pick-ApartPicked : (y : ℕ × ℕ) (k : ℕ) (l : List (ℕ × ℕ)) → Apart y l → ApartPicked y (pick k l)
pick-ApartPicked y zero [] a = tt
pick-ApartPicked y (suc k) [] a = tt
pick-ApartPicked y zero (x ∷ l) a = a
pick-ApartPicked y (suc k) (z ∷ l) (d, a) =
    cons_rest-ApartPicked y z (pick k l) d (pick-ApartPicked y k l a)

cons_rest-Picked :
    (b : Buddy) (y : ℕ × ℕ) (q : Option ((ℕ × ℕ) × List (ℕ × ℕ)))
    → IsHeld b y.0 y.1
    → ApartPicked y q
    → Picked b q
    → Picked b (cons_rest y q)
cons_rest-Picked b (k, m) none h a p = tt
cons_rest-Picked b (k, m) (some ((i, o), rest)) h (d, a) (g, q, p) =
    (g, (swap-Disjoint (k, m) (i, o) d, q), (h, a, p))

pick-Picked : (b : Buddy) (k : ℕ) (l : List (ℕ × ℕ)) → AllHeld b l → Picked b (pick k l)
pick-Picked b zero [] a = tt
pick-Picked b (suc k) [] a = tt
pick-Picked b zero (x ∷ l) a = a
pick-Picked b (suc k) ((i, o) ∷ l) (h, p, a) =
    cons_rest-Picked b (i, o) (pick k l) h (pick-ApartPicked (i, o) k l p) (pick-Picked b k l a)

order_bound : (i o : ℕ) → i + 2 ^ o ≤ nr_pages → o < max_order
order_bound i o h = elim (dec_lt o 10) [
  | yes p ↦ p
  | no p ↦
      let m : 2 ^ 10 ≤ 2 ^ o = pow-le-pow_right (omega arith) {i = 10} {j = o} (omega arith) in
      absurd (omega arith)
]

module _ (c : Client) (s : IsSafe c) where
  served :
      (size o : ℕ)
      → Served c.buddy o (allocate c.buddy size)
      → (after : Client) × (call c (request size) ≡ ok after) × IsSafe after
  served size o (inr (e, none_free)) =
      (c, ap (λ (m : Outcome (Buddy × Option ℕ)). m >>= λ r. ok (noted c r)) e, s)
  served size o (inl g) =
      let index : (c.buddy.zone_begin + g.block * page_size - g.after.zone_begin) / page_size
          ≡ g.block =
        omega (arith, g.zone) in
      (
        record { buddy = g.after; blocks = (g.block, o) ∷ c.blocks },
        ap (λ (m : Outcome (Buddy × Option ℕ)). m >>= λ r. ok (noted c r)) g.runs
            ∙ rw (index, g.size) refl,
        record {
          valid = g.valid;
          zone = zone_same c.buddy g.after g.zone s.zone;
          held = (
            Granted-IsHeld c.buddy o (order_bound g.block o g.fits) g,
            new-Apart c.buddy o g c.blocks s.held,
            all_stay c.buddy o g c.blocks s.held,
          );
        },
      )

  released :
      (q : Option ((ℕ × ℕ) × List (ℕ × ℕ)))
      → Picked c.buddy q
      → (after : Client) × (freed c q ≡ ok after) × IsSafe after
  released none p = (c, refl, s)
  released (some ((i, o), rest)) (h, apart, others) =
      let r = deallocate-Released c.buddy s.valid i o h s.zone in
      (
        record { buddy = r.after; blocks = rest },
        ap (λ (m : Outcome Buddy). m >>= λ b. ok (record { buddy = b; blocks = rest })) r.runs,
        record {
          valid = r.valid;
          zone = zone_same c.buddy r.after r.zone s.zone;
          held = all_keep c.buddy i o r rest apart others;
        },
      )

-- Any sequence of requests of up to 2^42 bytes and releases of blocks that are held, from a safe state
-- on: every call returns, without a panic, a fault or an endless walk, and at the end the allocator is
-- valid, and the blocks that are held are allocated and do not overlap.
pub run-IsSafe :
    (calls : List Call) (c : Client)
    → IsSafe c
    → AllSmall calls
    → (after : Client) × (run calls c ≡ ok after) × IsSafe after
run-IsSafe [] c s a = (c, refl, s)
run-IsSafe (request size ∷ calls) c s (small, a) =
    let (o, le, tight, sv) = allocate-Served c.buddy size s.valid small in
    let (next, e, t) = served c s size o sv in
    let (after, runs, u) = run-IsSafe calls next t a in
    (after, ap (λ (m : Outcome Client). m >>= run calls) e ∙ runs, u)
run-IsSafe (release k ∷ calls) c s a =
    let (next, e, t) = released c s (pick k c.blocks) (pick-Picked c.buddy k c.blocks s.held) in
    let (after, runs, u) = run-IsSafe calls next t a in
    (after, ap (λ (m : Outcome Client). m >>= run calls) e ∙ runs, u)
