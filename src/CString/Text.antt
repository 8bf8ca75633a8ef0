-- ===== src/CString/Text.antt =====
-- Texts in memory, and how long they are.
use Prim.{Unit, tt}
use valkyrie.Base.{
  ℕ, zero, suc, ◌+◌, ◌^◌, ◌<◌, ◌≡◌, ap, ◌∙◌, List, [], ◌∷◌, length, true, false, some, arith, ◌==◌,
  ◌⊎◌,
}
use valkyrie.Base.Maps.{update}
use valkyrie.CString.{Memory, strlen_loop, strlen, to_int, int_rounds}

-- From address `p` on, the bytes of the list.
abbrev pub Bytes : Memory → ℕ → List ℕ → Type 0
Bytes mem p [] = Unit
Bytes mem p (x ∷ l) = (mem p ≡ x) × Bytes mem (suc p) l

-- From address `p` on, the bytes of the list, none of them NUL, and then a NUL.
abbrev pub Text : Memory → ℕ → List ℕ → Type 0
Text mem p [] = mem p ≡ 0
Text mem p (x ∷ l) = (mem p ≡ x) × (0 < x) × (x < 256) × Text mem (suc p) l

-- A write outside the text and its NUL.
pub Text-update :
    (mem : Memory) (p k v : ℕ) (l : List ℕ)
    → (k < p) ⊎ (p + length l < k)
    → Text mem p l
    → Text (update mem k v) p l
Text-update mem p k v [] h t = let ne : (k == p) ≡ false = ground arith in rw ne t
Text-update mem p k v (x ∷ l) h (e, a, b, t) = (
  (let ne : (k == p) ≡ false = ground arith in rw ne e),
  a,
  b,
  Text-update mem (suc p) k v l (ground arith) t,
)

pub Text-Bytes : (mem : Memory) (p : ℕ) (l : List ℕ) → Text mem p l → Bytes mem p l
Text-Bytes mem p [] t = tt
Text-Bytes mem p (x ∷ l) (e, a, b, t) = (e, Text-Bytes mem (suc p) l t)

pub strlen_loop_lem :
    (fuel : ℕ) (mem : Memory) (s len : ℕ) (l : List ℕ)
    → Text mem s l
    → length l < fuel
    → strlen_loop fuel mem s len ≡ some (len + length l)
unfolding strlen_loop
strlen_loop_lem zero mem s len l t h = absurd (omega arith)
strlen_loop_lem (suc fuel) mem s len [] t h =
    let z : (mem s == 0) ≡ true = ground arith in rw z (ap some (omega arith))
strlen_loop_lem (suc fuel) mem s len (x ∷ l) (e, a, b, t) h =
    let z : (mem s == 0) ≡ false = ground arith in
    let one : s + 1 ≡ suc s = omega arith in
    rw (z, one)
      (strlen_loop_lem fuel mem (suc s) (len + 1) l t (omega arith) ∙ ap some (omega arith))

-- The length of a text, on more fuel than it has bytes.
pub strlen_lem :
    (fuel : ℕ) (mem : Memory) (s : ℕ) (l : List ℕ)
    → Text mem s l
    → length l < fuel
    → strlen fuel mem s ≡ some (length l)
unfolding strlen
strlen_lem fuel mem s l t h = strlen_loop_lem fuel mem s 0 l t h ∙ ap some (omega arith)

pub to_int_lem : (n : ℕ) → n < 2 ^ 31 → to_int n ≡ n
unfolding to_int
to_int_lem n h = omega arith

pub int_rounds_lem : (n : ℕ) → n < 2 ^ 31 → int_rounds (to_int n) ≡ n
unfolding int_rounds to_int
int_rounds_lem n h = ground arith
