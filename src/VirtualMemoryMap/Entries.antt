-- ===== src/VirtualMemoryMap/Entries.antt =====
-- Page descriptors, taken apart.
use valkyrie.Base.{
  ℕ, ◌+◌, ◌*◌, ◌/◌, ◌%◌, ◌^◌, ◌<◌, ◌≡◌, bit_or, ap, ◌∙◌, arith, ◌==◌, inl, inr, Bool-cases,
}
use valkyrie.Base.Bits.{bit_or_low, bit_or_high}
use valkyrie.Buddy.{nr_pages}
use valkyrie.MemoryManager.Pages.{page}
use valkyrie.VirtualMemoryMap.{pd_invalid, page_of, entry, is_in}

-- Attributes: bits from 0 to 11 and from 47 on, where a descriptor holds no address.
abbrev pub IsAttr : ℕ → Type 0
IsAttr attr = attr % 2 ^ 47 < 2 ^ 12

-- A page's address and its attributes have no bit in common.
pub bit_or-page : (k attr : ℕ) → k < nr_pages → IsAttr attr → bit_or (page k) attr ≡ page k + attr
bit_or-page k attr h a =
    let q : ℕ = 0x10000 + k in
    let high : ℕ = attr / 2 ^ 47 * 2 ^ 35 in
    let one : page k ≡ q * 2 ^ 12 = omega arith in
    let two : attr ≡ high * 2 ^ 12 + attr % 2 ^ 12 = omega (arith, a) in
    ap (λ (t : ℕ). bit_or t attr) one
    ∙ ap (bit_or (q * 2 ^ 12)) two
    ∙ bit_or_low 12 q high (attr % 2 ^ 12) (omega arith)
    ∙ ap (λ (t : ℕ). t * 2 ^ 12 + attr % 2 ^ 12)
        (bit_or_high 35 (attr / 2 ^ 47) q (omega (arith, h)))
    ∙ omega (arith, a)

pub page_of-page : (k attr : ℕ) → k < nr_pages → IsAttr attr → page_of (page k + attr) ≡ page k
unfolding page_of
page_of-page k attr h a = omega (arith, h, a)

pub pd_invalid-page : (k attr : ℕ) → pd_invalid (page k + attr) ≡ pd_invalid attr
unfolding pd_invalid
pd_invalid-page k attr = ap (λ (t : ℕ). t == 0) (omega arith)

-- Entries at two places are at two addresses.
pub entry_inj :
    (k i k' i' : ℕ)
    → i < 512
    → i' < 512
    → entry (page k) i ≡ entry (page k') i'
    → (k ≡ k') × (i ≡ i')
entry_inj k i k' i' h h' e = (omega (arith, e, h, h'), omega (arith, e, h, h'))

pub is_in-page : (k i k' : ℕ) → i < 512 → is_in (page k') (entry (page k) i) ≡ (k == k')
is_in-page k i k' h = elim (Bool-cases (k == k')) [
  | inl e ↦ rw e (ground (arith, h))
  | inr e ↦ rw e (ground (arith, h))
]
