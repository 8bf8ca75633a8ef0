-- ===== src/AddressSanitizer.antt =====
-- mm/AddressSanitizer.cc: the table of the pointers that are allocated. A pointer is its address, and
-- the null pointer is 0.
pub mod Laws
mod Tests
use valkyrie.Base.{ℕ, zero, suc, ◌+◌, ◌==◌, if◌then◌else◌, Option, none, some}
use valkyrie.Base.Maps.{update}
use valkyrie.Base.Outcome.{Outcome, ok, panic}

-- The length of `_allocated_pointers`.
abbrev pub nr_slots : ℕ
nr_slots = 1000

-- `_allocated_pointers`
pub record Sanitizer : Type 0 where
  pub slots : ℕ → ℕ

-- `for (int i = 0; i < 1000; i++) if (_allocated_pointers[i] == p) ...`, with `n` rounds to go.
unfoldable pub find_slot : ℕ → (ℕ → ℕ) → ℕ → ℕ → Option ℕ
find_slot zero slots p i = none
find_slot (suc n) slots p i =
    let rest = find_slot n slots p (i + 1) in if slots i == p then some i else rest

unfoldable pub mark_free_chk : Sanitizer → ℕ → Outcome Sanitizer
mark_free_chk a p = elim (find_slot nr_slots a.slots p 0) [
  | none ↦ panic
  | some i ↦ ok (record { slots = update a.slots i 0 })
]

unfoldable pub mark_allocated : Sanitizer → ℕ → Outcome Sanitizer
mark_allocated a p = elim (find_slot nr_slots a.slots p 0) [
  | some i ↦ panic
  | none ↦ elim (find_slot nr_slots a.slots 0 0) [
    | none ↦ ok a
    | some i ↦ ok (record { slots = update a.slots i p })
  ]
]
