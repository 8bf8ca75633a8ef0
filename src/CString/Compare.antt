-- ===== src/CString/Compare.antt =====
-- The comparisons of lib/CString.cc.
use valkyrie.Base.{
  ℕ, zero, suc, ◌+◌, ◌-◌, ◌%◌, ◌^◌, ◌<◌, ◌≡◌, refl, ◌∙◌, List, [], ◌∷◌, length, Bool, true, false,
  ◌&&◌, some, arith, ltb, leb, ◌==◌, if◌then◌else◌, Bool-cases, inl, inr, take,
}
use valkyrie.CString.{Memory, memcmp, strcmp, strncmp}
use valkyrie.CString.Text.{Bytes, Text}

-- Whether the first list comes before the second one in the order of a dictionary.
abbrev pub comes_before : List ℕ → List ℕ → Bool
comes_before l [] = false
comes_before [] (y ∷ m) = true
comes_before (x ∷ l) (y ∷ m) = if x == y then comes_before l m else ltb x y

abbrev pub same_text : List ℕ → List ℕ → Bool
same_text [] [] = true
same_text (x ∷ l) (y ∷ m) = (x == y) && same_text l m
same_text _ _ = false

-- The result says which of the two comes first: 0 if they are the same, and negative exactly if it is
-- the first one.
abbrev pub Compares : ℕ → List ℕ → List ℕ → Type 0
Compares r l m = ((r == 0) ≡ same_text l m) × (leb (2 ^ 31) r ≡ comes_before l m)

differ :
    (x y : ℕ)
    → x < 256
    → y < 256
    → (x == y) ≡ false
    → ((x + 2 ^ 32 - y) % 2 ^ 32 == 0 ≡ false)
      × (leb (2 ^ 31) ((x + 2 ^ 32 - y) % 2 ^ 32) ≡ ltb x y)
differ x y a b n = ground arith

-- `strcmp` of two texts, on more fuel than the first has bytes, returns, and its result compares them.
pub strcmp_lem :
    (fuel : ℕ) (mem : Memory) (p q : ℕ) (l m : List ℕ)
    → Text mem p l
    → Text mem q m
    → length l < fuel
    → (r : ℕ) × (strcmp fuel mem p q ≡ some r) × Compares r l m
unfolding strcmp
strcmp_lem zero mem p q l m t u h = absurd (omega arith)
strcmp_lem (suc fuel) mem p q [] [] t u h = (0, rw (t, u) refl, (refl, refl))
strcmp_lem (suc fuel) mem p q [] (y ∷ m) t (e, a, b, u) h =
    let z : (y == 0) ≡ false = ground arith in
    let w : (0 == y) ≡ false = ground arith in
    let d = differ 0 y (omega arith) b w in
    ((0 + 2 ^ 32 - y) % 2 ^ 32, rw (t, e, z, w) refl, (d.0, d.1 ∙ ground arith))
strcmp_lem (suc fuel) mem p q (x ∷ l) [] (e, a, b, t) u h =
    let z : (x == 0) ≡ false = ground arith in
    let d = differ x 0 b (omega arith) z in
    ((x + 2 ^ 32 - 0) % 2 ^ 32, rw (e, u, z) refl, (d.0, d.1 ∙ ground arith))
strcmp_lem (suc fuel) mem p q (x ∷ l) (y ∷ m) (e, a, b, t) (f, c, d, u) h =
    let z : (x == 0) ≡ false = ground arith in
    let pp : p + 1 ≡ suc p = omega arith in
    let qq : q + 1 ≡ suc q = omega arith in
    elim (Bool-cases (x == y)) [
      | inl same ↦
          let (r, runs, cmp) = strcmp_lem fuel mem (suc p) (suc q) l m t u (omega arith) in
          (r, rw (e, f, z, same, pp, qq) runs, rw same cmp)
      | inr other ↦
          let k = differ x y b d other in
          ((x + 2 ^ 32 - y) % 2 ^ 32, rw (e, f, z, other) refl, rw other k)
    ]

-- `memcmp` compares the bytes of two areas of one length.
pub memcmp_lem :
    (mem : Memory) (p q : ℕ) (l m : List ℕ)
    → length l ≡ length m
    → Bytes mem p l
    → Bytes mem q m
    → Compares (memcmp mem p q (length l)) l m
unfolding memcmp
memcmp_lem mem p q [] [] h t u = (refl, refl)
memcmp_lem mem p q [] (y ∷ m) h t u = absurd (omega arith)
memcmp_lem mem p q (x ∷ l) [] h t u = absurd (omega arith)
memcmp_lem mem p q (x ∷ l) (y ∷ m) h (e, t) (f, u) =
    let pp : p + 1 ≡ suc p = omega arith in
    let qq : q + 1 ≡ suc q = omega arith in
    elim (Bool-cases (x == y)) [
      | inl same ↦
          rw (memcmp, e, f, same, pp, qq) (memcmp_lem mem (suc p) (suc q) l m (omega arith) t u)
      | inr other ↦ elim (Bool-cases (ltb x y)) [
        | inl less ↦ rw (memcmp, e, f, other, less) (refl, refl)
        | inr more ↦ rw (memcmp, e, f, other, more) (refl, refl)
      ]
    ]

-- `strncmp` compares the first `n` bytes of two texts, or as many as these have.
pub strncmp_lem :
    (mem : Memory) (p q n : ℕ) (l m : List ℕ)
    → Text mem p l
    → Text mem q m
    → Compares (strncmp mem p q n) (take n l) (take n m)
unfolding strncmp
strncmp_lem mem p q zero l m t u = (refl, refl)
strncmp_lem mem p q (suc n) [] [] t u = rw (strncmp, t, u) (refl, refl)
strncmp_lem mem p q (suc n) [] (y ∷ m) t (e, a, b, u) =
    let z : (y == 0) ≡ false = ground arith in
    let w : (0 == y) ≡ false = ground arith in
    let d = differ 0 y (omega arith) b w in rw (strncmp, t, e, z, w) (d.0, d.1 ∙ ground arith)
strncmp_lem mem p q (suc n) (x ∷ l) [] (e, a, b, t) u =
    let z : (x == 0) ≡ false = ground arith in
    let d = differ x 0 b (omega arith) z in rw (strncmp, e, u, z) (d.0, d.1 ∙ ground arith)
strncmp_lem mem p q (suc n) (x ∷ l) (y ∷ m) (e, a, b, t) (f, c, d, u) =
    let z : (x == 0) ≡ false = ground arith in
    let pp : p + 1 ≡ suc p = omega arith in
    let qq : q + 1 ≡ suc q = omega arith in
    elim (Bool-cases (x == y)) [
      | inl same ↦ rw (strncmp, e, f, z, same, pp, qq) (strncmp_lem mem (suc p) (suc q) n l m t u)
      | inr other ↦ let k = differ x y b d other in rw (strncmp, e, f, z, other) k
    ]
