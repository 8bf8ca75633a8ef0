-- ===== src/Math/Laws.antt =====
-- Correctness of lib/Math.cc.
use native.Mathlib.Nat.{
  pow-suc, mul-one, pow-zero, suc-mul, one-mul, mod-lt, mod-add-div, add-mul-mod_self_left,
  pow-le-pow_right, mul_assoc, mul_comm, div-mul-le_self, lt-div-mul-add, mul-le-mul_right,
}
use valkyrie.Base.{
  ℕ, zero, suc, ◌+◌, ◌-◌, ◌*◌, ◌/◌, ◌%◌, ◌^◌, ◌≤◌, ◌<◌, ◌≡◌, refl, arith, none, some, ltb, ◌==◌,
  Bool-cases, inl, inr, ◌∙◌, ◌⊎◌, subst, ap, sym, lt→ltb, ltb→le, false, ltb→lt, ==_iff,
}
use native.Mathlib.Decide.{dec_lt}
use valkyrie.Math.{
  pow, sqrt, log2, round_up_to_pow_of_2, round_up_to_multiple_of_n, sqrt_loop, log2_loop, asr1,
  pow_of_2_loop, multiple_loop, pow_loop,
}

div_bounds : (x m : ℕ) → 0 < m → (x / m * m ≤ x) × (x < x / m * m + m)
div_bounds x m h = (div-mul-le_self x m, lt-div-mul-add h)

root_below : (x m q : ℕ) → m < q → q * m ≤ x → (m + 1 - 1) * (m + 1 - 1) ≤ x
root_below x m q h a =
    let e : m + 1 - 1 ≡ m = omega arith in rw e (grind (arith, mul-le-mul_right m h))

root_above : (x m q : ℕ) → 0 < m → q < m → x < q * m + m → x < (m - 1 + 1) * (m - 1 + 1)
root_above x m q p h a =
    let e : m - 1 + 1 ≡ m = omega arith in
    rw e (let f : suc q * m ≤ m * m = mul-le-mul_right m h in omega arith)

root_hit :
    (x m q : ℕ) → m ≡ q → (q * m ≤ x) × (x < q * m + m) → (m * m ≤ x) × (x < (m + 1) * (m + 1))
root_hit x m q e d = let f : q * m ≡ m * m = ap (λ k. k * m) (sym e) in (omega arith, omega arith)

ltb-ne→lt : (a b : ℕ) → (a == b) ≡ false → ltb a b ≡ false → b < a
ltb-ne→lt a b h k = ground arith

-- What the search of `sqrt` keeps: the root lies from `l - 1` to `r`.
sqrt_loop_lem :
    (fuel x l r : ℕ)
    → 0 < l
    → l ≤ r + 1
    → r + 1 < fuel + l
    → (l - 1) * (l - 1) ≤ x
    → x < (r + 1) * (r + 1)
    → (s : ℕ) × (sqrt_loop fuel x l r ≡ some s) × (s * s ≤ x) × (x < (s + 1) * (s + 1))
unfolding sqrt_loop
sqrt_loop_lem zero x l r p a f lo hi = absurd (omega arith)
sqrt_loop_lem (suc fuel) x l r p a f lo hi = elim (Bool-cases (ltb r l)) [
  | inl done ↦ rw done (l - 1, refl, lo, subst (λ k. x < (k + 1) * (k + 1)) (ground arith) hi)
  | inr more ↦ rw more (elim (Bool-cases (mid == x / mid)) [
    | inl hit ↦
        rw hit (let b = root_hit x mid (x / mid) ((==_iff _ _).0 hit) d in (mid, refl, b.0, b.1))
    | inr miss ↦ rw miss (elim (Bool-cases (ltb mid (x / mid))) [
      | inl low ↦ rw low (
          sqrt_loop_lem fuel x (mid + 1) r (omega arith) (ground arith) (ground arith)
            (root_below x mid (x / mid) (ltb→lt _ _ low) d.0) hi)
      | inr high ↦ rw high (
          sqrt_loop_lem fuel x l (mid - 1) p (ground arith) (ground arith) lo
            (root_above x mid (x / mid) (omega arith) (ltb-ne→lt mid (x / mid) miss high) d.1))
    ])
  ])
]
  where
    mid : ℕ
    mid = l + (r - l) / 2

    d : (x / mid * mid ≤ x) × (x < x / mid * mid + mid)
    d = div_bounds x mid (omega arith)

-- `x` halves each time, so as many rounds as `x` has bits are enough.
log2_loop_lem :
    (fuel x result : ℕ)
    → 0 < x
    → x < 2 ^ 31
    → x < 2 ^ fuel
    → (r : ℕ) × (log2_loop fuel x result ≡ some (result + r)) × (2 ^ r ≤ x) × (x < 2 ^ suc r)
unfolding log2_loop asr1
log2_loop_lem zero x result p b f = absurd (omega arith)
log2_loop_lem (suc fuel) x result p b f = rw (lt→ltb x (2 ^ 31) b) (elim (Bool-cases (x / 2 == 0)) [
  | inl last ↦ rw last (0, ground arith, ground arith, ground arith)
  | inr more ↦ rw more (
      let (r, e, lo, hi) =
        log2_loop_lem fuel (x / 2) (result + 1) (ground arith) (omega arith)
          (omega (arith, pow-suc 2 fuel)) in
      (
        suc r,
        rw e (ap some (omega arith)),
        omega (arith, pow-suc 2 r),
        omega (arith, pow-suc 2 (suc r)),
      ))
])

-- `log2` of a positive `int` is the exponent of its highest power of two: it returns, within 31
-- rounds, the `r` with 2^r ≤ x < 2^(r + 1).
pub log2_lem :
    (x : ℕ) → 0 < x → x < 2 ^ 31 → (r : ℕ) × (log2 x ≡ some r) × (2 ^ r ≤ x) × (x < 2 ^ suc r)
unfolding log2
log2_lem x p b =
    let (r, e, lo, hi) = log2_loop_lem 32 x 0 p b (omega arith) in
    (r, rw e (ap some (omega arith)), lo, hi)

pow_of_2_loop_lem :
    (fuel x k : ℕ)
    → k < 64
    → 63 < fuel + k
    → x ≤ 2 ^ 63
    → (j : ℕ) × (pow_of_2_loop fuel x (2 ^ k) ≡ some (2 ^ j))
      × (x ≤ 2 ^ j)
      × (j < 64)
      × ((j ≡ k) ⊎ (2 ^ j < 2 * x))
unfolding pow_of_2_loop
pow_of_2_loop_lem zero x k a b c = absurd (omega arith)
pow_of_2_loop_lem (suc fuel) x k a b c = elim (Bool-cases (ltb (2 ^ k) x)) [
  | inr done ↦ rw done (k, refl, ltb→le _ _ done, a, inl refl)
  | inl small ↦
      let k63 : k < 63 = below_63 k x a (ltb→lt _ _ small) c in
      let e : 2 ^ k * 2 % 2 ^ 64 ≡ 2 ^ suc k = double_fits k k63 in
      rw (small, e)
        (let (j, r, s, t, u) = pow_of_2_loop_lem fuel x (suc k) (omega arith) (omega arith) c in
          (j, r, s, t, inr (twice_small x k j (ltb→lt _ _ small) u)))
]
  where
    below_63 : (k x : ℕ) → k < 64 → 2 ^ k < x → x ≤ 2 ^ 63 → k < 63
    below_63 k x a p q = elim (dec_lt k 63) [
      | yes h ↦ h
      | no h ↦ let e : k ≡ 63 = omega arith in absurd (let f = ap (λ n. 2 ^ n) e in omega arith)
    ]

    double_fits : (k : ℕ) → k < 63 → 2 ^ k * 2 % 2 ^ 64 ≡ 2 ^ suc k
    double_fits k h =
        let m : 2 ^ suc k ≤ 2 ^ 63 = pow-le-pow_right (omega arith) h in omega (arith, pow-suc 2 k)

    twice_small : (x k j : ℕ) → 2 ^ k < x → (j ≡ suc k) ⊎ (2 ^ j < 2 * x) → 2 ^ j < 2 * x
    twice_small x k j h (inl e) = rw e (omega (arith, pow-suc 2 k))
    twice_small x k j h (inr p) = p

-- For requests up to 2^63, `round_up_to_pow_of_2` returns the least power of two that is not below
-- the request.
pub round_up_to_pow_of_2_lem :
    (x : ℕ)
    → x ≤ 2 ^ 63
    → (j : ℕ) × (round_up_to_pow_of_2 x ≡ some (2 ^ j))
      × (x ≤ 2 ^ j)
      × (j < 64)
      × ((j ≡ 0) ⊎ (2 ^ j < 2 * x))
unfolding round_up_to_pow_of_2
round_up_to_pow_of_2_lem x h = pow_of_2_loop_lem 65 x 0 (omega arith) (omega arith) h

-- Beyond 2^63 the doubling wraps to 0, and no number of rounds is enough: the call does not return.
stuck_at_zero : (fuel x : ℕ) → 0 < x → pow_of_2_loop fuel x 0 ≡ none
unfolding pow_of_2_loop
stuck_at_zero zero x h = refl
stuck_at_zero (suc fuel) x h = rw (lt→ltb 0 x h) (stuck_at_zero fuel x h)

never_from : (fuel x k : ℕ) → k < 64 → 2 ^ 63 < x → pow_of_2_loop fuel x (2 ^ k) ≡ none
unfolding pow_of_2_loop
never_from zero x k a h = refl
never_from (suc fuel) x k a h =
    let m : 2 ^ k ≤ 2 ^ 63 = pow-le-pow_right (omega arith) {i = k} {j = 63} (omega arith) in
    rw (lt→ltb (2 ^ k) x (omega arith)) (elim (dec_lt k 63) [
      | yes p ↦
          let n : 2 ^ suc k ≤ 2 ^ 63 = pow-le-pow_right (omega arith) p in
          let e : 2 ^ k * 2 % 2 ^ 64 ≡ 2 ^ suc k = omega (arith, pow-suc 2 k) in
          rw e (never_from fuel x (suc k) (omega arith) h)
      | no p ↦
          let q : k ≡ 63 = omega arith in
          let e : 2 ^ k * 2 % 2 ^ 64 ≡ 0 = rw q refl in rw e (stuck_at_zero fuel x (omega arith))
    ])

-- A `size_t` above 2^63 makes the loop of `round_up_to_pow_of_2` run for ever: the doubling wraps
-- to 0, so no number of rounds is enough.
pub pow_of_2_loop_diverges : (fuel x : ℕ) → 2 ^ 63 < x → pow_of_2_loop fuel x 1 ≡ none
pow_of_2_loop_diverges fuel x h = never_from fuel x 0 (omega arith) h

multiple_loop_lem :
    (fuel x n k : ℕ)
    → 0 < n
    → x + n ≤ 2 ^ 64
    → 0 < fuel
    → x < fuel + k * n
    → (j : ℕ) × (multiple_loop fuel x n (k * n) ≡ some (j * n))
      × (x ≤ j * n)
      × (k ≤ j)
      × ((j ≡ k) ⊎ (j * n < x + n))
unfolding multiple_loop
multiple_loop_lem zero x n k p a z f = absurd (omega arith)
multiple_loop_lem (suc fuel) x n k p a z f = elim (Bool-cases (ltb (k * n) x)) [
  | inr done ↦ rw done (k, refl, ltb→le _ _ done, omega arith, inl refl)
  | inl small ↦
      let lt : k * n < x = ltb→lt _ _ small in
      let e : (k * n + n) % 2 ^ 64 ≡ suc k * n = one_more k n (omega arith) in
      rw (small, e)
        (let (j, r, s, t, u) =
            multiple_loop_lem fuel x n (suc k) p a (omega arith) (omega (arith, suc-mul k n)) in
          (j, r, s, omega arith, inr (still_small x n k j lt u)))
]
  where
    one_more : (k n : ℕ) → k * n + n < 2 ^ 64 → (k * n + n) % 2 ^ 64 ≡ suc k * n
    one_more k n h = omega (arith, suc-mul k n)

    still_small : (x n k j : ℕ) → k * n < x → (j ≡ suc k) ⊎ (j * n < x + n) → j * n < x + n
    still_small x n k j h (inl e) = rw e (omega (arith, suc-mul k n))
    still_small x n k j h (inr q) = q

-- For n > 0, and unless x + n exceeds 2^64, `round_up_to_multiple_of_n` returns the least positive
-- multiple of n that is not below x.
pub round_up_to_multiple_of_n_lem :
    (x n : ℕ)
    → 0 < n
    → x + n ≤ 2 ^ 64
    → (j : ℕ) × (round_up_to_multiple_of_n x n ≡ some (j * n))
      × (0 < j)
      × (x ≤ j * n)
      × ((j ≡ 1) ⊎ (j * n < x + n))
unfolding round_up_to_multiple_of_n
round_up_to_multiple_of_n_lem x n p a =
    let (j, r, s, t, u) = multiple_loop_lem (x + 1) x n 1 p a (omega arith) (omega arith) in
    (j, ap (λ (t : ℕ). multiple_loop (x + 1) x n t) (sym (one-mul n)) ∙ r, t, s, u)

sqrt_bounds : (x : ℕ) → x < (x + 1) * (x + 1)
sqrt_bounds x = grind arith

-- `sqrt` returns the integer square root of every `int` that is not negative, within x + 1 rounds.
pub sqrt_lem : (x : ℕ) → (s : ℕ) × (sqrt x ≡ some s) × (s * s ≤ x) × (x < (s + 1) * (s + 1))
unfolding sqrt
sqrt_lem x =
    sqrt_loop_lem (x + 1) x 1 x (omega arith) (omega arith) (omega arith) (omega arith)
      (sqrt_bounds x)

mul-mod-mul : (a b m : ℕ) → 0 < m → a % m * b % m ≡ a * b % m
mul-mod-mul a b m h =
    let e : a * b ≡ a % m * b + m * (a / m * b) =
      omega (arith, ap (λ (t : ℕ). t * b) (mod-add-div a m), mul_assoc m (a / m) b) in
    rw e (sym (add-mul-mod_self_left (a % m * b) m (a / m * b)))

pow_loop_lem :
    (base exponent result : ℕ)
    → result < 2 ^ 32
    → pow_loop base exponent result ≡ result * base ^ exponent % 2 ^ 32
unfolding pow_loop
pow_loop_lem base zero result h = rw (pow-zero base, mul-one) (omega arith)
pow_loop_lem base (suc e) result h =
    pow_loop_lem base e (result * base % 2 ^ 32) (mod-lt (result * base) (omega arith))
    ∙ mul-mod-mul (result * base) (base ^ e) (2 ^ 32) (omega arith)
    ∙ ap (λ (t : ℕ). t % 2 ^ 32)
        (mul_assoc result base (base ^ e)
          ∙ ap (λ (t : ℕ). result * t) (mul_comm base (base ^ e) ∙ sym (pow-suc base e)))

-- `pow` computes the power modulo 2^32, and so the power itself wherever an `int` can hold it.
pub pow_lem : (base exponent : ℕ) → pow base exponent ≡ base ^ exponent % 2 ^ 32
unfolding pow
pow_lem base exponent =
    pow_loop_lem base exponent 1 (omega arith) ∙ ap (λ (t : ℕ). t % 2 ^ 32) (one-mul _)
