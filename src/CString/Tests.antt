-- ===== src/CString/Tests.antt =====
-- Runs of lib/CString.cc.
use valkyrie.Base.{◌-◌, ◌^◌, ◌≡◌, refl, [], ◌∷◌, some, get_or, inl, arith}
use valkyrie.CString.{Memory, strstr, atoi, is_valid, is_digit, to_decimal}
use valkyrie.CString.Text.{Text}
use valkyrie.CString.Search.{strstr_lem}
use valkyrie.CString.Numbers.{atoi_lem}

-- At 1 the text `abb`, at 5 `abc`, at 9 the bytes of `  -17x`.
abbrev memory : Memory
memory p = get_or (0 ∷ 97 ∷ 98 ∷ 98 ∷ 0 ∷ 97 ∷ 98 ∷ 99 ∷ 0 ∷ 32 ∷ 32 ∷ 45 ∷ 49 ∷ 55 ∷ 120 ∷ []) p 0

abb-Text : Text memory 1 (97 ∷ 98 ∷ 98 ∷ [])
abb-Text = (
  refl,
  omega arith,
  omega arith,
  (refl, omega arith, omega arith, (refl, omega arith, omega arith, refl)),
)

abc-Text : Text memory 5 (97 ∷ 98 ∷ 99 ∷ [])
abc-Text = (
  refl,
  omega arith,
  omega arith,
  (refl, omega arith, omega arith, (refl, omega arith, omega arith, refl)),
)

bc-Text : Text memory 6 (98 ∷ 99 ∷ [])
bc-Text = (refl, omega arith, omega arith, (refl, omega arith, omega arith, refl))

number-Text : Text memory 9 (32 ∷ 32 ∷ 45 ∷ 49 ∷ 55 ∷ 120 ∷ [])
number-Text = (
  refl,
  omega arith,
  omega arith,
  (
    refl,
    omega arith,
    omega arith,
    (
      refl,
      omega arith,
      omega arith,
      (
        refl,
        omega arith,
        omega arith,
        (refl, omega arith, omega arith, (refl, omega arith, omega arith, refl)),
      ),
    ),
  ),
)

strstr_lem_example : strstr 9 memory 5 6 ≡ some 6
strstr_lem_example =
    strstr_lem 9 memory 5 6 (97 ∷ 98 ∷ 99 ∷ []) (98 ∷ 99 ∷ []) abc-Text bc-Text (omega arith)
      (omega arith) (omega arith) (omega arith)

atoi_lem_example : atoi 9 memory 9 10 ≡ some (2 ^ 32 - 17)
unfolding is_valid is_digit to_decimal
atoi_lem_example =
    atoi_lem 9 memory 9 10 (32 ∷ 32 ∷ 45 ∷ 49 ∷ 55 ∷ 120 ∷ []) (inl refl) number-Text (omega arith)
      (omega arith)
