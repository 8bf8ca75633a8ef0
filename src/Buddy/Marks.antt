-- ===== src/Buddy/Marks.antt =====
-- Marking frames, sizes and the addresses of buddies.
use native.Mathlib.Nat.{pow-le-pow_right, mod-eq_of_lt}
use valkyrie.Base.{
  ℕ, zero, suc, ◌+◌, ◌-◌, ◌%◌, ◌^◌, ◌≤◌, ◌<◌, ◌≡◌, refl, ◌∙◌, arith, ◌==◌, if◌then◌else◌, Bool,
  true, ◌&&◌, bit_xor, ==_iff, le→ltb,
}
use valkyrie.Base.Maps.{update, fill, fill_lem}
use valkyrie.Base.Outcome.{ok}
use valkyrie.Math.{pow}
use valkyrie.Math.Laws.{pow_lem}
use valkyrie.Buddy.{
  Buddy, Frame, free, allocated, dont_allocate, max_order, nr_pages, mark_block_as_allocated,
  mark_block_as_allocatable,
}
use valkyrie.Buddy.Frames.{claim, release, pow_pos}

pub pow_two : (k : ℕ) → k < 32 → pow 2 k ≡ 2 ^ k
pow_two k h =
    let m : 2 ^ k ≤ 2 ^ 31 = pow-le-pow_right (omega arith) {i = k} {j = 31} (omega arith) in
    pow_lem 2 k ∙ mod-eq_of_lt (omega arith)

-- Whether `test` holds from `start` on, of `n` numbers.
unfoldable pub holds_from : (ℕ → Bool) → ℕ → ℕ → Bool
holds_from test start zero = true
holds_from test start (suc n) = test start && holds_from test (suc start) n

holds_at :
    (test : ℕ → Bool) (start n k : ℕ)
    → holds_from test start n ≡ true
    → start ≤ k
    → k < start + n
    → test k ≡ true
unfolding holds_from
holds_at test start zero k all lo hi = absurd (omega arith)
holds_at test start (suc n) k all lo hi = ground (arith, holds_at test (suc start) n k)

-- A table that evaluation checks holds of every number in its range.
pub table_lookup :
    (n : ℕ) (test : ℕ → Bool) (k : ℕ) → holds_from test 0 n ≡ true → k < n → test k ≡ true
table_lookup n test k all hi = holds_at test 0 n k all (omega arith) (omega arith)

-- What the buddy of the block at `i` of order `k` is: the half above it or below it.
abbrev pub buddy_of : ℕ → ℕ → ℕ
buddy_of i k = if i % 2 ^ suc k == 0 then i + 2 ^ k else i - 2 ^ k

buddy_test : ℕ → ℕ → Bool
buddy_test i k = if i % 2 ^ k == 0 then bit_xor i (2 ^ k) == buddy_of i k else true

buddy_table : holds_from (λ i. holds_from (buddy_test i) 0 max_order) 0 nr_pages ≡ true
unfolding holds_from buddy_test
buddy_table = refl

pub xor-eq-buddy_of :
    (i k : ℕ) → i < nr_pages → k < max_order → i % 2 ^ k ≡ 0 → bit_xor i (2 ^ k) ≡ buddy_of i k
unfolding buddy_test
xor-eq-buddy_of i k hi hk a =
    let row = table_lookup nr_pages (λ j. holds_from (buddy_test j) 0 max_order) i buddy_table hi in
    let cell = table_lookup max_order (buddy_test i) k row hk in
    (==_iff _ _).0 (rw (let z : (i % 2 ^ k == 0) ≡ true = (==_iff _ _).1 a in z) at cell)

pub mark_allocated_lem :
    (b : Buddy) (i k : ℕ)
    → (b.headers i).index ≡ i
    → (b.headers i).order ≡ k
    → k < max_order
    → i + 2 ^ k ≤ nr_pages
    → mark_block_as_allocated b i
      ≡ ok (record b { frame_array = fill b.frame_array i (2 ^ k) allocated })
unfolding mark_block_as_allocated
mark_allocated_lem b i k x o lt h =
    rw (x, o, pow_two k (omega arith), le→ltb nr_pages (i + 2 ^ k) h)

pub mark_allocatable_lem :
    (b : Buddy) (i k : ℕ)
    → (b.headers i).index ≡ i
    → (b.headers i).order ≡ k
    → k < max_order
    → i + 2 ^ k ≤ nr_pages
    → mark_block_as_allocatable b i
      ≡ ok (record b {
        frame_array = fill (update b.frame_array i (free k)) (i + 1) (2 ^ k - 1) dont_allocate;
      })
unfolding mark_block_as_allocatable
mark_allocatable_lem b i k x o lt h =
    rw (x, o, pow_two k (omega arith), le→ltb nr_pages (i + 2 ^ k) h)

pub fill-claim : (f : ℕ → Frame) (i n j : ℕ) → fill f i n allocated j ≡ claim f i n j
fill-claim f i n j = fill_lem f i n allocated j

pub fill-release :
    (f : ℕ → Frame) (i k j : ℕ)
    → fill (update f i (free k)) (i + 1) (2 ^ k - 1) dont_allocate j ≡ release f i k (2 ^ k) j
fill-release f i k j =
    fill_lem (update f i (free k)) (i + 1) (2 ^ k - 1) dont_allocate j ∙ ground (arith, pow_pos k)
