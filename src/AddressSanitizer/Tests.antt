-- ===== src/AddressSanitizer/Tests.antt =====
-- Runs of the pointer table at single inputs.
use valkyrie.Base.{◌≡◌, ◌⊎◌, arith, ◌==◌, if◌then◌else◌}
use valkyrie.Base.Outcome.{ok, panic}
use valkyrie.AddressSanitizer.{Sanitizer, mark_free_chk}
use valkyrie.AddressSanitizer.Laws.{Tracked, IsUnique, Removes, mark_free_chk_lem}

-- A table that knows one pointer.
abbrev one_pointer : Sanitizer
one_pointer = record { slots = λ i. if i == 3 then 0x10000000 else 0 }

one_pointer-IsUnique : IsUnique one_pointer
one_pointer-IsUnique i j hi hj e p = ground arith

mark_free_chk_lem_example :
    (¬ Tracked one_pointer 0x10000000 × (mark_free_chk one_pointer 0x10000000 ≡ panic))
    ⊎ ((after : Sanitizer) × Tracked one_pointer 0x10000000
        × (mark_free_chk one_pointer 0x10000000 ≡ ok after)
        × Removes one_pointer 0x10000000 after)
mark_free_chk_lem_example =
    mark_free_chk_lem one_pointer 0x10000000 one_pointer-IsUnique (omega arith)
