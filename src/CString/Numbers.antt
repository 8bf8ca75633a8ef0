-- ===== src/CString/Numbers.antt =====
-- The number reader of lib/CString.cc.
use valkyrie.Base.{
  ℕ, zero, suc, ◌+◌, ◌-◌, ◌*◌, ◌/◌, ◌^◌, ◌≤◌, ◌<◌, ◌≡◌, refl, sym, ap, subst, ◌∙◌, List, [], ◌∷◌,
  length, Bool, true, false, some, arith, ◌==◌, if◌then◌else◌, ltb, leb, Bool-cases, ◌⊎◌, inl, inr,
}
use valkyrie.CString.{
  Memory, to_int, int_rounds, is_digit, is_alphanumeric, to_decimal, is_valid, int_max, skip_spaces,
  saturated, signed, atoi_loop, atoi_signed, atoi,
}
use valkyrie.CString.Text.{Text, strlen_lem, int_rounds_lem}

-- The value of the digits that the text starts with, behind digits of value `v`.
abbrev pub value : ℕ → ℕ → List ℕ → ℕ
value base v [] = v
value base v (x ∷ l) =
    let rest = value base (v * base + to_decimal x) l in if is_valid base x then rest else v

-- A number with its sign as an `int`, with the nearest that there is if it is too large.
abbrev pub clamp : Bool → ℕ → ℕ
clamp is_negative v = if leb v int_max then signed is_negative v else saturated is_negative

abbrev pub without_spaces : List ℕ → List ℕ
without_spaces [] = []
without_spaces (x ∷ l) = let rest = without_spaces l in if x == b' ' then rest else x ∷ l

-- The number that a text without leading spaces stands for.
abbrev pub read : ℕ → List ℕ → ℕ
read base [] = 0
read base (c ∷ l) =
    if c == b'-'
    then clamp true (value base 0 l)
    else if c == b'+'
    then clamp false (value base 0 l)
    else clamp false (value base 0 (c ∷ l))

to_decimal_le : (c : ℕ) → to_decimal c ≤ 15
unfolding to_decimal is_digit
to_decimal_le c = ground arith

-- What the loop's first test means, for a base.
Exact : ℕ → Type 0
Exact base = ((v : ℕ) → v ≤ v * base) × ((r : ℕ) → ltb (int_max / base) r ≡ ltb int_max (r * base))

Exact-10 : Exact 10
unfolding Exact
Exact-10 = (λ v. omega arith, λ r. ground arith)

Exact-16 : Exact 16
unfolding Exact
Exact-16 = (λ v. omega arith, λ r. ground arith)

value_ge : (base v : ℕ) (l : List ℕ) → Exact base → v ≤ value base v l
unfolding Exact
value_ge base v [] e = omega arith
value_ge base v (x ∷ l) e =
    let more = e.0 v in
    let next = value_ge base (v * base + to_decimal x) l e in
    elim (Bool-cases (is_valid base x)) [
      | inl digit ↦ rw digit (omega arith)
      | inr stop ↦ rw stop (omega arith)
    ]

clamp_large : (s : Bool) (v : ℕ) → int_max < v → clamp s v ≡ saturated s
clamp_large s v h = let e : leb v int_max ≡ false = ground arith in rw e refl

atoi_loop_lem :
    (mem : Memory) (p base : ℕ) (s : Bool) (r : ℕ) (l : List ℕ)
    → Exact base
    → Text mem p l
    → r ≤ int_max
    → atoi_loop (length l) mem p base s r ≡ clamp s (value base r l)
unfolding atoi_loop Exact
atoi_loop_lem mem p base s r [] x t h = let e : leb r int_max ≡ true = ground arith in rw e refl
atoi_loop_lem mem p base s r (c ∷ l) x (e, a, b, t) h =
    let e0 : leb r int_max ≡ true = ground arith in
    let pp : p + 1 ≡ suc p = omega arith in
    let next = value_ge base (r * base + to_decimal c) l x in
    let small = to_decimal_le c in
    elim (Bool-cases (is_valid base c)) [
      | inr stop ↦ rw (e, stop, e0) refl
      | inl digit ↦ elim (Bool-cases (ltb int_max (r * base))) [
        | inl over ↦
            rw (e, digit, x.1 r, over)
              (sym (clamp_large s (value base (r * base + to_decimal c) l) (ground arith)))
        | inr fits ↦ elim (Bool-cases (ltb (int_max - to_decimal c) (r * base))) [
          | inl over ↦
              rw (e, digit, x.1 r, fits, over)
                (sym (clamp_large s (value base (r * base + to_decimal c) l) (ground arith)))
          | inr fits2 ↦
              rw (e, digit, x.1 r, fits, fits2, pp)
                (atoi_loop_lem mem (suc p) base s (r * base + to_decimal c) l x t (ground arith))
        ]
      ]
    ]

skip_spaces_lem :
    (fuel : ℕ) (mem : Memory) (p : ℕ) (l : List ℕ)
    → Text mem p l
    → length l < fuel
    → (q : ℕ) × (skip_spaces fuel mem p ≡ some q)
      × Text mem q (without_spaces l)
      × (length (without_spaces l) ≤ length l)
unfolding skip_spaces
skip_spaces_lem zero mem p l t h = absurd (omega arith)
skip_spaces_lem (suc fuel) mem p [] t h = (p, rw t refl, t, omega arith)
skip_spaces_lem (suc fuel) mem p (x ∷ l) (e, a, b, t) h = elim (Bool-cases (x == b' ')) [
  | inr stop ↦ (p, rw (e, stop) refl, rw stop (e, a, b, t), rw stop (omega arith))
  | inl space ↦
      let pp : p + 1 ≡ suc p = omega arith in
      let (q, r, u, n) = skip_spaces_lem fuel mem (suc p) l t (omega arith) in
      (q, rw (e, space, pp) r, rw space u, rw space (omega arith))
]

exact : (base : ℕ) → (base ≡ 10) ⊎ (base ≡ 16) → Exact base
exact base (inl e) = subst Exact (sym e) Exact-10
exact base (inr e) = subst Exact (sym e) Exact-16

not_valid : (base c : ℕ) → c < 48 → is_valid base c ≡ false
unfolding is_valid is_digit is_alphanumeric
not_valid base c h = ground arith

atoi_signed_lem :
    (mem : Memory) (p base : ℕ) (l : List ℕ)
    → Exact base
    → Text mem p l
    → length l < 2 ^ 31
    → atoi_signed mem p (length l) base ≡ read base l
unfolding atoi_signed
atoi_signed_lem mem p base [] x t h = rw (t, not_valid base 0 (omega arith)) refl
atoi_signed_lem mem p base (c ∷ l) x (e, a, b, t) h =
    let rounds : int_rounds (to_int (suc (length l))) ≡ suc (length l) =
      int_rounds_lem (suc (length l)) h in
    let pp : p + 1 ≡ suc p = omega arith in
    let n : suc (length l) - 1 ≡ length l = omega arith in
    elim (Bool-cases (c == b'-')) [
      | inl minus ↦
          let p2 : (c == b'+') ≡ false = ground arith in
          rw (rounds, e, minus, p2, pp, n)
            (atoi_loop_lem mem (suc p) base true 0 l x t (omega arith))
      | inr not_minus ↦ elim (Bool-cases (c == b'+')) [
        | inl plus ↦
            rw (rounds, e, not_minus, plus, pp, n)
              (atoi_loop_lem mem (suc p) base false 0 l x t (omega arith))
        | inr not_plus ↦ elim (Bool-cases (is_valid base c)) [
          | inl digit ↦
              let all = atoi_loop_lem mem p base false 0 (c ∷ l) x (e, a, b, t) (omega arith) in
              rw (rounds, e, not_minus, not_plus) (rw digit (all ∙ rw digit refl))
          | inr stop ↦ rw (e, not_minus, not_plus, stop) refl
        ]
      ]
    ]

-- `atoi` of a text of fewer than 2^31 bytes, in base 10 or 16, returns on more fuel than the text has bytes, and reads the
-- number that it stands for behind its spaces, or the nearest `int` if this is too large.
pub atoi_lem :
    (fuel : ℕ) (mem : Memory) (p base : ℕ) (l : List ℕ)
    → (base ≡ 10) ⊎ (base ≡ 16)
    → Text mem p l
    → length l < fuel
    → length l < 2 ^ 31
    → atoi fuel mem p base ≡ some (read base (without_spaces l))
unfolding atoi
atoi_lem fuel mem p base l w t h k =
    let (q, r, u, n) = skip_spaces_lem fuel mem p l t h in
    rw (r, strlen_lem fuel mem q (without_spaces l) u (omega arith))
      (ap some (atoi_signed_lem mem q base (without_spaces l) (exact base w) u (omega arith)))
