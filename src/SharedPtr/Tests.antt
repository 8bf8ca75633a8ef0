-- ===== src/SharedPtr/Tests.antt =====
-- Runs of include/lib/SharedPtr.h and include/lib/WeakPtr.h.
use valkyrie.Base.{
  ℕ, ◌≡◌, refl, [], ◌∷◌, false, none, some, inl, inr, arith, ◌==◌, if◌then◌else◌, Bool-cases, sym,
  ◌∙◌,
}
use valkyrie.Base.Outcome.{ok}
use valkyrie.SharedPtr.{ControlBlock, Heap, SharedPtr, from_pointer, copy_assign}
use valkyrie.SharedPtr.Counts.{Safe}
use valkyrie.SharedPtr.Owners.{none-some, Safe-zero}
use valkyrie.SharedPtr.Releases.{Ends}
use valkyrie.SharedPtr.Assign.{copy_assign_lem}
use valkyrie.SharedPtr.Runs.{
  Pointers, make, copy_front, drop_front, weaken, lock_front, run, IsCounted, run-IsCounted,
}

abbrev no_pointers : Pointers
no_pointers = record {
  heap = record { blocks = λ c. none; objects = λ p. false; next = 1 };
  shared = [];
  weak = [];
}

no_pointers-IsCounted : IsCounted no_pointers
no_pointers-IsCounted = record {
  counted = λ c pos. (refl, refl);
  sole = λ c d b e at. absurd (none-some at);
  free = λ c far. refl;
  positive = omega arith;
  null = refl;
}

run-IsCounted_example :
    (y : Pointers) × (run no_pointers (make 7 ∷ weaken ∷ copy_front ∷ drop_front ∷ lock_front ∷ [])
      ≡ ok y)
    × IsCounted y
run-IsCounted_example =
    run-IsCounted (make 7 ∷ weaken ∷ copy_front ∷ drop_front ∷ lock_front ∷ []) no_pointers
      no_pointers-IsCounted

-- An object at 7, with a shared and a weak pointer.
abbrev one_object : Heap
one_object = record {
  blocks = λ c. if 1 == c then some (record { p = 7; use_count = 1; use_count_weak = 1 }) else none;
  objects = λ p. p == 7;
  next = 2;
}

at_one : (c : ℕ) (b : ControlBlock) → one_object.blocks c ≡ some b → 1 ≡ c
at_one c b e = elim (Bool-cases (1 == c)) [
  | inl t ↦ ground arith
  | inr f ↦ absurd (none-some (sym (rw f refl) ∙ e))
]

one_object-Safe : Safe one_object (1 ∷ []) (1 ∷ [])
one_object-Safe = record {
  counted = λ c pos. elim (Bool-cases (1 == c)) [
    | inl t ↦
        rw t (
          refl,
          refl,
          omega arith,
          record { alive = λ u q. refl; gone = λ z. absurd (omega arith) },
        )
    | inr f ↦ rw f (refl, refl)
  ];
  sole = λ c d b e at at' pos same. sym (at_one c b at) ∙ at_one d e at';
  free = λ c far. let ne : (1 == c) ≡ false = ground arith in rw ne refl;
  positive = omega arith;
  null = refl;
}

abbrev first_pointer : SharedPtr
first_pointer = record { ctrl = 1; alias = 0 }

abbrev null_pointer : SharedPtr
null_pointer = record { ctrl = 0; alias = 0 }

copy_assign_lem_example :
    (h1 h' : Heap) × (copy_assign one_object first_pointer null_pointer ≡ ok (h', null_pointer))
    × Safe h' (0 ∷ 2 ∷ 0 ∷ []) (1 ∷ [])
    × Ends (from_pointer one_object 0).0 h1 (2 ∷ 0 ∷ []) 1
    × (h'.objects ≡ h1.objects)
copy_assign_lem_example =
    copy_assign_lem one_object [] (1 ∷ []) first_pointer null_pointer
      (Safe-zero one_object (1 ∷ []) (1 ∷ []) (1 ∷ 0 ∷ []) (1 ∷ []) (λ d pos. (ground arith, refl))
        one_object-Safe)
      (omega arith)
