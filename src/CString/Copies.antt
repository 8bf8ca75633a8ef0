-- ===== src/CString/Copies.antt =====
-- The copies of lib/CString.cc.
use valkyrie.Base.{
  ℕ, zero, suc, ◌+◌, ◌≤◌, ◌<◌, ◌≡◌, refl, sym, ap, subst, ◌∙◌, List, [], ◌∷◌, ◌++◌, length, false,
  some, arith, ◌==◌, ◌⊎◌, inl, take, ==_refl,
}
use valkyrie.Base.Options.{◌>>=◌}
use valkyrie.Base.Maps.{update, fill}
use valkyrie.CString.{Memory, memcpy, memset, strcpy, strncpy, strcat}
use valkyrie.CString.Text.{Text, Text-update, strlen_lem}

-- Outside its area, `memcpy` changes nothing.
pub memcpy_outside :
    (mem : Memory) (dest src n k : ℕ)
    → (k < dest) ⊎ (dest + n ≤ k)
    → memcpy mem dest src n k ≡ mem k
unfolding memcpy
memcpy_outside mem dest src zero k h = refl
memcpy_outside mem dest src (suc n) k h =
    let ne : (dest == k) ≡ false = ground arith in
    memcpy_outside (update mem dest (mem src)) (dest + 1) (src + 1) n k (ground arith)
    ∙ (rw ne refl)

-- The area has the bytes that the source had, if the two do not overlap or the source is ahead.
pub memcpy_inside :
    (mem : Memory) (dest src n k : ℕ)
    → (dest ≤ src) ⊎ (src + n ≤ dest)
    → k < n
    → memcpy mem dest src n (dest + k) ≡ mem (src + k)
unfolding memcpy
memcpy_inside mem dest src zero k h a = absurd (omega arith)
memcpy_inside mem dest src (suc n) zero h a =
    let d : dest + 0 ≡ dest = omega arith in
    let s : src + 0 ≡ src = omega arith in
    rw (d, s)
      (memcpy_outside (update mem dest (mem src)) (dest + 1) (src + 1) n dest (inl (omega arith))
        ∙ (rw (==_refl dest) refl))
memcpy_inside mem dest src (suc n) (suc k) h a =
    let d : dest + suc k ≡ dest + 1 + k = omega arith in
    let s : src + suc k ≡ src + 1 + k = omega arith in
    let ne : (dest == src + 1 + k) ≡ false = ground arith in
    rw (d, s)
      (memcpy_inside (update mem dest (mem src)) (dest + 1) (src + 1) n k (ground arith)
          (omega arith)
        ∙ (rw ne refl))

-- `memset` is a fill.
pub memset_lem : (mem : Memory) (dest val n : ℕ) → memset mem dest val n ≡ fill mem dest n val
unfolding memset fill
memset_lem mem dest val zero = refl
memset_lem mem dest val (suc n) =
    let d : dest + 1 ≡ suc dest = omega arith in
    rw d (memset_lem (update mem dest val) (suc dest) val n)

-- A copy of `n` bytes with a NUL behind it.
abbrev pub copied : Memory → ℕ → ℕ → ℕ → Memory
copied mem dest src n = update (memcpy mem dest src n) (dest + n) 0

copied-zero : (mem : Memory) (dest src : ℕ) → copied mem dest src 0 ≡ update mem dest 0
unfolding memcpy
copied-zero mem dest src = ap (λ d. update mem d 0) (omega arith)

copied-suc :
    (mem : Memory) (dest src n : ℕ)
    → copied (update mem dest (mem src)) (dest + 1) (src + 1) n ≡ copied mem dest src (suc n)
unfolding memcpy
copied-suc mem dest src n = ap (λ d. update (memcpy mem dest src (suc n)) d 0) (omega arith)

-- What a copy of a text needs: it may not write over what it has not read.
abbrev pub Separate : ℕ → ℕ → ℕ → Type 0
Separate dest src n = (dest ≤ src) ⊎ (src + n < dest)

-- The rest of the text is there after the first byte is copied.
rest-Text :
    (mem : Memory) (dest src x : ℕ) (l : List ℕ)
    → Text mem (suc src) l
    → Separate dest src (suc (length l))
    → Text (update mem dest (mem src)) (src + 1) l
rest-Text mem dest src x l t s =
    let u = Text-update mem (suc src) dest (mem src) l (ground arith) t in
    subst (λ k. Text (update mem dest (mem src)) k l) (omega arith) u

pub strcpy_lem :
    (fuel : ℕ) (mem : Memory) (dest src : ℕ) (l : List ℕ)
    → Text mem src l
    → Separate dest src (length l)
    → length l < fuel
    → strcpy fuel mem dest src ≡ some (copied mem dest src (length l))
unfolding strcpy
strcpy_lem zero mem dest src l t s h = absurd (omega arith)
strcpy_lem (suc fuel) mem dest src [] t s h = rw t (ap some (sym (copied-zero mem dest src)))
strcpy_lem (suc fuel) mem dest src (x ∷ l) (e, a, b, t) s h =
    let z : (mem src == 0) ≡ false = ground arith in
    let u = rest-Text mem dest src x l t s in
    rw z (
      strcpy_lem fuel (update mem dest (mem src)) (dest + 1) (src + 1) l u (ground arith)
        (omega arith)
      ∙ ap some (copied-suc mem dest src (length l)))

pub strncpy_lem :
    (mem : Memory) (dest src n : ℕ) (l : List ℕ)
    → Text mem src l
    → Separate dest src (length l)
    → strncpy mem dest src n ≡ copied mem dest src (length (take n l))
unfolding strncpy
strncpy_lem mem dest src zero l t s = sym (copied-zero mem dest src)
strncpy_lem mem dest src (suc n) [] t s = rw (strncpy, t) (sym (copied-zero mem dest src))
strncpy_lem mem dest src (suc n) (x ∷ l) (e, a, b, t) s =
    let z : (mem src == 0) ≡ false = ground arith in
    let u = rest-Text mem dest src x l t s in
    rw (strncpy, z)
      (strncpy_lem (update mem dest (mem src)) (dest + 1) (src + 1) n l u (ground arith)
        ∙ copied-suc mem dest src (length (take n l)))

-- The copy of a text is the text.
pub copied-Text :
    (mem : Memory) (dest src : ℕ) (l : List ℕ)
    → Text mem src l
    → Separate dest src (length l)
    → Text (copied mem dest src (length l)) dest l
copied-Text mem dest src [] t s =
    ap (λ m. m dest) (copied-zero mem dest src) ∙ rw (==_refl dest) refl
copied-Text mem dest src (x ∷ l) (e, a, b, t) s =
    let mem1 = update mem dest (mem src) in
    let u = rest-Text mem dest src x l t s in
    let rest = copied-Text mem1 (dest + 1) (src + 1) l u (ground arith) in
    let ne : (dest + 1 + length l == dest) ≡ false = ground arith in
    let kept = memcpy_outside mem1 (dest + 1) (src + 1) (length l) dest (inl (omega arith)) in
    let first : copied mem1 (dest + 1) (src + 1) (length l) dest ≡ x =
      rw ne (kept ∙ (rw (==_refl dest) e)) in
    subst (λ m. Text m dest (x ∷ l)) (copied-suc mem dest src (length l))
      (
        first,
        a,
        b,
        subst (λ k. Text (copied mem1 (dest + 1) (src + 1) (length l)) k l) (omega arith) rest,
      )

-- A text behind bytes that are as they were in the memory of another text.
append-Text :
    (mem mem' : Memory) (p : ℕ) (l m : List ℕ)
    → Text mem p l
    → ((k : ℕ) → k < p + length l → mem' k ≡ mem k)
    → Text mem' (p + length l) m
    → Text mem' p (l ++ m)
append-Text mem mem' p [] m t f u = subst (λ k. Text mem' k m) (omega arith) u
append-Text mem mem' p (x ∷ l) m (e, a, b, t) f u = (
  f p (omega arith) ∙ e,
  a,
  b,
  append-Text mem mem' (suc p) l m t (λ k h. f k (omega arith))
      (subst (λ k. Text mem' k m) (omega arith) u),
)

-- `strcat` of two texts returns on more fuel than either has bytes, and leaves the first and behind
-- it the second at `dest`, if it begins to write at or before the second text or behind its end.
pub strcat_lem :
    (fuel : ℕ) (mem : Memory) (dest src : ℕ) (l m : List ℕ)
    → Text mem dest l
    → Text mem src m
    → Separate (dest + length l) src (length m)
    → length l < fuel
    → length m < fuel
    → (mem' : Memory) × (strcat fuel mem dest src ≡ some mem') × Text mem' dest (l ++ m)
unfolding strcat
strcat_lem fuel mem dest src l m t u s h k =
    let at = dest + length l in
    let kept : (j : ℕ) → j < at → copied mem at src (length m) j ≡ mem j = λ j below.
      let ne : (at + length m == j) ≡ false = ground arith in
      rw ne (memcpy_outside mem at src (length m) j (inl below)) in
    (
      copied mem at src (length m),
      ap (λ o. o >>= λ len. strcpy fuel mem (dest + len) src) (strlen_lem fuel mem dest l t h)
          ∙ strcpy_lem fuel mem at src m u s k,
      append-Text mem (copied mem at src (length m)) dest l m t kept (copied-Text mem at src m u s),
    )
