-- ===== src/Math.antt =====
-- lib/Math.cc. An `int` is its 32-bit pattern and a `size_t` its 64-bit value; a loop runs on fuel,
-- and `none` says that the fuel ran out.
pub mod Laws
mod Tests
use valkyrie.Base.{
  ℕ, zero, suc, ◌+◌, ◌-◌, ◌*◌, ◌/◌, ◌%◌, ◌^◌, ◌≡◌, refl, Option, none, some, ltb, ◌==◌,
  if◌then◌else◌,
}

-- `result *= base`, `exponent` times.
unfoldable pub pow_loop : ℕ → ℕ → ℕ → ℕ
pow_loop base zero result = result
pow_loop base (suc exponent) result = pow_loop base exponent (result * base % 2 ^ 32)

unfoldable pub pow : ℕ → ℕ → ℕ
pow base exponent = pow_loop base exponent 1

unfoldable pub sqrt_loop : ℕ → ℕ → ℕ → ℕ → Option ℕ
sqrt_loop zero x l r = none
sqrt_loop (suc fuel) x l r =
    let mid = l + (r - l) / 2 in
    let right = sqrt_loop fuel x (mid + 1) r in
    let left = sqrt_loop fuel x l (mid - 1) in
    if ltb r l
    then some (l - 1)
    else if mid == x / mid
    then some mid
    else if ltb mid (x / mid)
    then right
    else left

unfoldable pub sqrt : ℕ → Option ℕ
sqrt x = sqrt_loop (x + 1) x 1 x

-- `x >> 1` of an `int`: the sign bit stays.
unfoldable pub asr1 : ℕ → ℕ
asr1 x = if ltb x (2 ^ 31) then x / 2 else x / 2 + 2 ^ 31

unfoldable pub log2_loop : ℕ → ℕ → ℕ → Option ℕ
log2_loop zero x result = none
log2_loop (suc fuel) x result =
    let rest = log2_loop fuel (asr1 x) (result + 1) in if asr1 x == 0 then some result else rest

unfoldable pub log2 : ℕ → Option ℕ
log2 x = log2_loop 32 x 0

unfoldable pub pow_of_2_loop : ℕ → ℕ → ℕ → Option ℕ
pow_of_2_loop zero x result = none
pow_of_2_loop (suc fuel) x result =
    let rest = pow_of_2_loop fuel x (result * 2 % 2 ^ 64) in
    if ltb result x then rest else some result

unfoldable pub round_up_to_pow_of_2 : ℕ → Option ℕ
round_up_to_pow_of_2 x = pow_of_2_loop 65 x 1

unfoldable pub multiple_loop : ℕ → ℕ → ℕ → ℕ → Option ℕ
multiple_loop zero x n result = none
multiple_loop (suc fuel) x n result =
    let rest = multiple_loop fuel x n ((result + n) % 2 ^ 64) in
    if ltb result x then rest else some result

unfoldable pub round_up_to_multiple_of_n : ℕ → ℕ → Option ℕ
round_up_to_multiple_of_n x n = multiple_loop (x + 1) x n n
