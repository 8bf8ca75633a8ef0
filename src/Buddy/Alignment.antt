-- ===== src/Buddy/Alignment.antt =====
-- Blocks aligned to their sizes: which blocks can meet.
use native.Mathlib.Decide.{dec_lt}
use native.Mathlib.Nat.{pow-suc, add-mod_right, div-add-mod, mul-le-mul_left}
use valkyrie.Base.{
  ℕ, zero, suc, ◌+◌, ◌-◌, ◌*◌, ◌/◌, ◌%◌, ◌^◌, ◌≤◌, ◌<◌, ◌≡◌, ◌≢◌, refl, ◌∙◌, arith, ◌==◌,
  if◌then◌else◌, Bool, inl, inr, true, ◌&&◌, leb, ◌⊎◌, Bool-cases, ==_iff,
}
use valkyrie.Buddy.{Frame, free, allocated, dont_allocate, max_order, nr_pages}
use valkyrie.Buddy.Frames.{Shape, pow_pos}
use valkyrie.Buddy.Marks.{buddy_of, holds_from, table_lookup}
use valkyrie.Buddy.Split.{inside, aligned_half}

-- Two multiples of `p` are `p` apart.
multiples_apart : (p c e : ℕ) → c % p ≡ 0 → e % p ≡ 0 → c < e → c + p ≤ e
multiples_apart p c e hc he lt = elim (dec_lt (c / p) (e / p)) [
  | yes q ↦ omega (
    arith,
    div-add-mod c p,
    div-add-mod e p,
    let m : p * suc (c / p) ≤ p * (e / p) = mul-le-mul_left p q in m,
  )
  | no q ↦ absurd (
      omega (
        arith,
        div-add-mod c p,
        div-add-mod e p,
        let m : p * (e / p) ≤ p * (c / p) = mul-le-mul_left p (omega arith) in m,
      ))
]

aligned_down : (x m n : ℕ) → n ≤ m → x % 2 ^ m ≡ 0 → x % 2 ^ n ≡ 0
aligned_down x zero n le h = let e : n ≡ 0 = omega arith in rw e h
aligned_down x (suc m) n le h = elim (dec_lt n (suc m)) [
  | yes p ↦ aligned_down x m n (omega arith) (aligned_half x m h)
  | no p ↦ let e : n ≡ suc m = omega arith in rw e h
]

aligned_end : (x m : ℕ) → x % 2 ^ m ≡ 0 → (x + 2 ^ m) % 2 ^ m ≡ 0
aligned_end x m h = add-mod_right x (2 ^ m) ∙ h

-- What the buddy of a block of order `k` satisfies.
pub record IsBuddy (i k j : ℕ) : Type 0 where
  pub aligned : j % 2 ^ k ≡ 0
  pub lower : ℕ
  pub window : lower % 2 ^ suc k ≡ 0
  pub pair : ((lower ≡ i) × (j ≡ i + 2 ^ k)) ⊎ ((lower ≡ j) × (i ≡ j + 2 ^ k))

lower_test : ℕ → ℕ → Bool
lower_test i k =
    if i % 2 ^ k == 0
    then buddy_of i k % 2 ^ k == 0
      && (if i % 2 ^ suc k == 0 then true else leb (2 ^ k) i && (i - 2 ^ k) % 2 ^ suc k == 0)
    else true

lower_table : holds_from (λ i. holds_from (lower_test i) 0 max_order) 0 nr_pages ≡ true
unfolding holds_from lower_test
lower_table = refl

pub buddy_of-IsBuddy :
    (i k : ℕ) → i < nr_pages → k < max_order → i % 2 ^ k ≡ 0 → IsBuddy i k (buddy_of i k)
unfolding lower_test
buddy_of-IsBuddy i k hi hk a = elim (Bool-cases (i % 2 ^ suc k == 0)) [
  | inl even ↦ record {
    aligned = rw even (aligned_end i k a);
    lower = i;
    window = (==_iff _ _).0 even;
    pair = rw even (inl (refl, refl));
  }
  | inr odd ↦ record {
    aligned = ground (arith, cell);
    lower = i - 2 ^ k;
    window = ground (arith, cell);
    pair = rw odd (inr (refl, ground (arith, cell)));
  }
]
  where
    cell : lower_test i k ≡ true
    cell =
        table_lookup max_order (lower_test i) k
          (table_lookup nr_pages (λ j. holds_from (lower_test j) 0 max_order) i lower_table hi) hk

-- An aligned block that meets the inside of a larger free block lies in it.
window_inside :
    (w k i m j : ℕ)
    → k < m
    → w % 2 ^ suc k ≡ 0
    → i % 2 ^ m ≡ 0
    → w ≤ j
    → j < w + 2 ^ suc k
    → i < j
    → j < i + 2 ^ m
    → (i ≤ w) × (w + 2 ^ suc k ≤ i + 2 ^ m)
window_inside w k i m j lt hw hi a b c d = (low, high)
  where
    i_aligned : i % 2 ^ suc k ≡ 0
    i_aligned = aligned_down i m (suc k) lt hi

    high : w + 2 ^ suc k ≤ i + 2 ^ m
    high =
        multiples_apart (2 ^ suc k) w (i + 2 ^ m) hw
          (aligned_down (i + 2 ^ m) m (suc k) lt (aligned_end i m hi)) (omega arith)

    low : i ≤ w
    low = elim (dec_lt w i) [
      | yes p ↦ absurd (let q = multiples_apart (2 ^ suc k) w i hw i_aligned p in omega arith)
      | no p ↦ omega arith
    ]

-- The buddy of an allocated block is never inside a larger free block.
pub buddy-ne-dont :
    (f : ℕ → Frame) (i k j : ℕ)
    → Shape f
    → ((x : ℕ) → inside i (2 ^ k) x ≡ true → f x ≡ allocated)
    → IsBuddy i k j
    → f j ≢ dont_allocate
buddy-ne-dont f i k j s held u e = elim (dec_lt k m) [
  | no p ↦
      let q : h + 2 ^ m ≤ j =
        multiples_apart (2 ^ m) h j (s.aligned h m t.0) (aligned_down j k m (omega arith) u.aligned)
          t.1 in
      absurd (omega (arith, t.2))
  | yes p ↦
      let w = window_inside u.lower k h m j p u.window (s.aligned h m t.0) near.0 near.1 t.1 t.2 in
      absurd (ground (arith, held i, pow_pos k, t.0, s.inner h m i, u.pair, w, pow-suc 2 k))
]
  where
    h : ℕ
    h = (s.cover j e).0

    m : ℕ
    m = (s.cover j e).1

    t : (f h ≡ free m) × (h < j) × (j < h + 2 ^ m)
    t = (((s.cover j e).2), ((s.cover j e).3), ((s.cover j e).4))

    near : (u.lower ≤ j) × (j < u.lower + 2 ^ suc k)
    near = ground (arith, u.pair, pow_pos k, pow-suc 2 k)
