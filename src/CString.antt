-- ===== src/CString.antt =====
-- lib/CString.cc. Memory is a function from addresses to bytes, a pointer is an address, null is 0, and
-- a `char` is not signed, as on this machine. An `int` result is its 32-bit pattern. A loop that reads
-- up to a NUL runs on fuel, and `none` says that the fuel ran out.
pub mod Text
pub mod Copies
pub mod Compare
pub mod Search
pub mod Numbers
mod Tests
use valkyrie.Base.{
  ℕ, zero, suc, ◌+◌, ◌-◌, ◌*◌, ◌/◌, ◌%◌, ◌^◌, Bool, true, false, not, ◌&&◌, ◌||◌, Option, none,
  some, ltb, leb, ◌==◌, if◌then◌else◌,
}
use valkyrie.Base.Maps.{update, fill}
use valkyrie.Base.Options.{◌>>=◌}

abbrev pub Memory : Type 0
Memory = ℕ → ℕ

-- `for (; n > 0; n--) *dest_p++ = *src_p++;`
unfoldable pub memcpy : Memory → ℕ → ℕ → ℕ → Memory
memcpy mem dest src zero = mem
memcpy mem dest src (suc n) = memcpy (update mem dest (mem src)) (dest + 1) (src + 1) n

-- `for (; n > 0; n--) *dest_p++ = val;`
unfoldable pub memset : Memory → ℕ → ℕ → ℕ → Memory
memset mem dest val zero = mem
memset mem dest val (suc n) = memset (update mem dest val) (dest + 1) val n

unfoldable pub memcmp : Memory → ℕ → ℕ → ℕ → ℕ
memcmp mem p1 p2 zero = 0
memcmp mem p1 p2 (suc num) =
    let rest = memcmp mem (p1 + 1) (p2 + 1) num in
    if not (mem p1 == mem p2) then (if ltb (mem p1) (mem p2) then 2 ^ 32 - 1 else 1) else rest

-- `for (; *s; s++) ++len;`
unfoldable pub strlen_loop : ℕ → Memory → ℕ → ℕ → Option ℕ
strlen_loop zero mem s len = none
strlen_loop (suc fuel) mem s len =
    let rest = strlen_loop fuel mem (s + 1) (len + 1) in if mem s == 0 then some len else rest

unfoldable pub strlen : ℕ → Memory → ℕ → Option ℕ
strlen fuel mem s = strlen_loop fuel mem s 0

unfoldable pub strcmp : ℕ → Memory → ℕ → ℕ → Option ℕ
strcmp zero mem s1 s2 = none
strcmp (suc fuel) mem s1 s2 =
    let rest = strcmp fuel mem (s1 + 1) (s2 + 1) in
    if mem s1 == 0 && mem s2 == 0
    then some 0
    else if mem s1 == mem s2
    then rest
    else some ((mem s1 + 2 ^ 32 - mem s2) % 2 ^ 32)

unfoldable pub strncmp : Memory → ℕ → ℕ → ℕ → ℕ
strncmp mem s1 s2 zero = 0
strncmp mem s1 s2 (suc n) =
    let rest = strncmp mem (s1 + 1) (s2 + 1) n in
    if mem s1 == 0 && mem s2 == 0
    then 0
    else if mem s1 == mem s2
    then rest
    else (mem s1 + 2 ^ 32 - mem s2) % 2 ^ 32

unfoldable pub strcpy : ℕ → Memory → ℕ → ℕ → Option Memory
strcpy zero mem dest src = none
strcpy (suc fuel) mem dest src =
    let rest = strcpy fuel (update mem dest (mem src)) (dest + 1) (src + 1) in
    if mem src == 0 then some (update mem dest 0) else rest

unfoldable pub strncpy : Memory → ℕ → ℕ → ℕ → Memory
strncpy mem dest src zero = update mem dest 0
strncpy mem dest src (suc n) =
    let rest = strncpy (update mem dest (mem src)) (dest + 1) (src + 1) n in
    if mem src == 0 then update mem dest 0 else rest

unfoldable pub strcat : ℕ → Memory → ℕ → ℕ → Option Memory
strcat fuel mem dest src = do len ← strlen fuel mem dest; strcpy fuel mem (dest + len) src

-- `(int) n`, as its 32-bit pattern.
unfoldable pub to_int : ℕ → ℕ
to_int n = n % 2 ^ 32

-- How often `for (int i = 0; i < n; i++)` runs for an `int` of this pattern: not at all for a negative
-- one.
unfoldable pub int_rounds : ℕ → ℕ
int_rounds n = if ltb n (2 ^ 31) then n else 0

-- `for (int j = 0; j < needle_size; j++) if (haystack[i + j] != needle[j]) ...`
unfoldable pub matches : ℕ → Memory → ℕ → ℕ → Bool
matches zero mem at needle = true
matches (suc n) mem at needle =
    let rest = matches n mem (at + 1) (needle + 1) in
    if not (mem at == mem needle) then false else rest

-- How often `for (int i = 0; i <= haystack_size - needle_size; i++)` runs if it does not return, for the
-- patterns of two `int`s; a difference that overflows wraps around.
unfoldable pub strstr_rounds : ℕ → ℕ → ℕ
strstr_rounds haystack_size needle_size =
    let difference = (haystack_size + 2 ^ 32 - needle_size) % 2 ^ 32 in
    if ltb difference (2 ^ 31) then difference + 1 else 0

-- That loop, with `n` rounds to go, and with `needle_size` of the loop in it.
unfoldable pub strstr_loop : ℕ → Memory → ℕ → ℕ → ℕ → ℕ
strstr_loop zero mem at needle needle_size = 0
strstr_loop (suc n) mem at needle needle_size =
    let rest = strstr_loop n mem (at + 1) needle needle_size in
    if matches needle_size mem at needle then at else rest

-- From `if (!needle_size)` on.
unfoldable pub strstr_sized : Memory → ℕ → ℕ → ℕ → ℕ → ℕ
strstr_sized mem haystack needle haystack_size needle_size =
    if needle_size == 0
    then 0
    else strstr_loop (strstr_rounds haystack_size needle_size) mem haystack needle
        (int_rounds needle_size)

unfoldable pub strstr : ℕ → Memory → ℕ → ℕ → Option ℕ
strstr fuel mem haystack needle = do
  haystack_len ← strlen fuel mem haystack
  needle_len ← strlen fuel mem needle
  some (strstr_sized mem haystack needle (to_int haystack_len) (to_int needle_len))

unfoldable pub is_digit : ℕ → Bool
is_digit c = leb b'0' c && leb c b'9'

unfoldable pub is_alphanumeric : ℕ → Bool
is_alphanumeric c =
    (leb b'0' c && leb c b'9') || (leb b'A' c && leb c b'F') || (leb b'a' c && leb c b'f')

unfoldable pub to_decimal : ℕ → ℕ
to_decimal c =
    if is_digit c
    then c - b'0'
    else if leb b'A' c && leb c b'F'
    then c - b'A' + 10
    else if leb b'a' c && leb c b'f'
    then c - b'a' + 10
    else 0

-- `(base == 10) ? is_digit : is_alphanumeric`
unfoldable pub is_valid : ℕ → ℕ → Bool
is_valid base c = if base == 10 then is_digit c else is_alphanumeric c

abbrev pub int_max : ℕ
int_max = 2 ^ 31 - 1

-- `while (str[pos] == ' ')`
unfoldable pub skip_spaces : ℕ → Memory → ℕ → Option ℕ
skip_spaces zero mem str = none
skip_spaces (suc fuel) mem str =
    let rest = skip_spaces fuel mem (str + 1) in if mem str == b' ' then rest else some str

-- `return (is_negative) ? INT_MIN : INT_MAX;`
abbrev pub saturated : Bool → ℕ
saturated is_negative = if is_negative then 2 ^ 31 else int_max

-- `return (is_negative) ? -result : result;`
abbrev pub signed : Bool → ℕ → ℕ
signed is_negative result = if is_negative then (2 ^ 32 - result) % 2 ^ 32 else result

-- `for (; ptr < (int) len && is_valid(str[ptr]); ptr++)`, with `n` rounds to go.
unfoldable pub atoi_loop : ℕ → Memory → ℕ → ℕ → Bool → ℕ → ℕ
atoi_loop zero mem at base is_negative result = signed is_negative result
atoi_loop (suc n) mem at base is_negative result =
    let next_digit = to_decimal (mem at) in
    let rest = atoi_loop n mem (at + 1) base is_negative (result * base + next_digit) in
    if not (is_valid base (mem at))
    then signed is_negative result
    else if ltb (int_max / base) result
    then saturated is_negative
    else if ltb (int_max - next_digit) (result * base)
    then saturated is_negative
    else rest

-- From `switch (str[0])` on, with the test before it.
unfoldable pub atoi_signed : Memory → ℕ → ℕ → ℕ → ℕ
atoi_signed mem s len base =
    let c = mem s in
    let rounds = int_rounds (to_int len) in
    if not (c == b'+') && not (c == b'-') && not (is_valid base c)
    then 0
    else if c == b'-'
    then atoi_loop (rounds - 1) mem (s + 1) base true 0
    else if c == b'+'
    then atoi_loop (rounds - 1) mem (s + 1) base false 0
    else atoi_loop rounds mem s base false 0

unfoldable pub atoi : ℕ → Memory → ℕ → ℕ → Option ℕ
atoi fuel mem str base = do
  s ← skip_spaces fuel mem str
  len ← strlen fuel mem s
  some (atoi_signed mem s len base)
