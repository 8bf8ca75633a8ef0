-- ===== src/CString/Search.antt =====
-- The search of lib/CString.cc.
use valkyrie.Base.{
  ℕ, suc, ◌+◌, ◌-◌, ◌^◌, ◌<◌, ◌≡◌, refl, sym, ap, subst, ◌∙◌, List, [], ◌∷◌, length, Bool, true,
  false, ◌&&◌, Option, none, some, arith, ◌==◌, if◌then◌else◌, ltb, Bool-cases, inl, inr,
}
use valkyrie.Base.Options.{◌>>=◌}
use valkyrie.CString.{Memory, to_int, strstr_rounds, matches, strstr_loop, strstr_sized, strstr}
use valkyrie.CString.Text.{Text, strlen_lem, to_int_lem, int_rounds_lem}

-- Whether the list starts with `m`.
abbrev pub starts_with : List ℕ → List ℕ → Bool
starts_with [] l = true
starts_with (y ∷ m) [] = false
starts_with (y ∷ m) (x ∷ l) = (x == y) && starts_with m l

-- Where `m` first stands in `l`.
abbrev pub find_sublist : List ℕ → List ℕ → Option ℕ
find_sublist m [] = if starts_with m [] then some 0 else none
find_sublist m (x ∷ l) =
    let rest = find_sublist m l in
    if starts_with m (x ∷ l) then some 0 else (rest >>= λ i. some (suc i))

pub matches_lem :
    (mem : Memory) (p q : ℕ) (l m : List ℕ)
    → Text mem p l
    → Text mem q m
    → matches (length m) mem p q ≡ starts_with m l
unfolding matches
matches_lem mem p q l [] t u = refl
matches_lem mem p q [] (y ∷ m) t (e, a, b, u) =
    let z : (0 == y) ≡ false = ground arith in rw (t, e, z) refl
matches_lem mem p q (x ∷ l) (y ∷ m) (e, a, b, t) (f, c, d, u) =
    let pp : p + 1 ≡ suc p = omega arith in
    let qq : q + 1 ≡ suc q = omega arith in
    elim (Bool-cases (x == y)) [
      | inl same ↦ rw (e, f, same, pp, qq) (matches_lem mem (suc p) (suc q) l m t u)
      | inr other ↦ rw (e, f, other) refl
    ]

-- The address of the place found, or null.
abbrev pub place : ℕ → Option ℕ → ℕ
place p none = 0
place p (some i) = p + i

place-suc : (p : ℕ) (o : Option ℕ) → place (suc p) o ≡ place p (o >>= λ i. some (suc i))
place-suc p none = refl
place-suc p (some i) = omega arith

never : (b : Bool) → (b && false) ≡ false
never true = refl
never false = refl

short : (l m : List ℕ) → length l < length m → starts_with m l ≡ false
short l [] h = absurd (omega arith)
short [] (y ∷ m) h = refl
short (x ∷ l) (y ∷ m) h = ap (λ b. (x == y) && b) (short l m (omega arith)) ∙ never (x == y)

short_none : (l m : List ℕ) → length l < length m → find_sublist m l ≡ none
short_none [] m h = rw (short [] m h) refl
short_none (x ∷ l) m h =
    rw (short (x ∷ l) m h) (ap (λ o. o >>= λ i. some (suc i)) (short_none l m (omega arith)))

strstr_loop_lem :
    (mem : Memory) (p q : ℕ) (l m : List ℕ)
    → Text mem p l
    → Text mem q m
    → 0 < length m
    → strstr_loop (length l + 1 - length m) mem p q (length m) ≡ place p (find_sublist m l)
unfolding strstr_loop
strstr_loop_lem mem p q [] m t u h =
    let n : 0 + 1 - length m ≡ 0 = omega arith in
    subst (λ k. strstr_loop k mem p q (length m) ≡ place p (find_sublist m [])) (sym n)
      (ap (place p) (sym (short_none [] m (omega arith))))
strstr_loop_lem mem p q (x ∷ l) m (e, a, b, t) u h =
    elim (Bool-cases (ltb (length (x ∷ l)) (length m))) [
      | inl less ↦
          let n : length (x ∷ l) + 1 - length m ≡ 0 = ground arith in
          subst (λ k. strstr_loop k mem p q (length m) ≡ place p (find_sublist m (x ∷ l))) (sym n)
            (ap (place p) (sym (short_none (x ∷ l) m (ground arith))))
      | inr more ↦
          let n : length (x ∷ l) + 1 - length m ≡ suc (length l + 1 - length m) = ground arith in
          let pp : p + 1 ≡ suc p = omega arith in
          let here = matches_lem mem p q (x ∷ l) m (e, a, b, t) u in
          let rest = strstr_loop_lem mem (suc p) q l m t u h in
          subst (λ k. strstr_loop k mem p q (length m) ≡ place p (find_sublist m (x ∷ l))) (sym n)
            (elim (Bool-cases (starts_with m (x ∷ l))) [
              | inl found ↦ rw (here, found) (omega arith)
              | inr not_here ↦ rw (here, not_here, pp) (rest ∙ place-suc p (find_sublist m l))
            ])
    ]

-- For texts whose lengths fit an `int` the loop runs once for each place with room for the needle.
strstr_rounds_lem :
    (h n : ℕ) → h < 2 ^ 31 → 0 < n → n < 2 ^ 31 → strstr_rounds (to_int h) (to_int n) ≡ h + 1 - n
unfolding strstr_rounds to_int
strstr_rounds_lem h n a b c = ground arith

-- `strstr` of two texts of fewer than 2^31 bytes returns on more fuel than either has bytes, with the address where the
-- needle first stands in the haystack, or null where it does not stand in it or is empty.
pub strstr_lem :
    (fuel : ℕ) (mem : Memory) (p q : ℕ) (l m : List ℕ)
    → Text mem p l
    → Text mem q m
    → length l < fuel
    → length m < fuel
    → length l < 2 ^ 31
    → length m < 2 ^ 31
    → strstr fuel mem p q ≡ some (if length m == 0 then 0 else place p (find_sublist m l))
unfolding strstr strstr_sized
strstr_lem fuel mem p q l m t u h k lh lk =
    let fits : to_int (length m) ≡ length m = to_int_lem (length m) lk in
    rw (strlen_lem fuel mem p l t h, strlen_lem fuel mem q m u k)
      (elim (Bool-cases (length m == 0)) [
        | inl empty ↦ rw (fits, empty, strstr_sized) refl
        | inr full ↦
            let some_byte : 0 < length m = ground arith in
            rw
              (
                strstr_rounds_lem (length l) (length m) lh some_byte lk,
                int_rounds_lem (length m) lk,
                fits,
                full,
                strstr_sized,
              )
              (ap some (strstr_loop_lem mem p q l m t u some_byte))
      ])
