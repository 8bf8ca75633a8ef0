-- ===== src/Deque/Tests.antt =====
-- Runs of the deque at single inputs.
use Prim.{tt}
use valkyrie.Base.{ℕ, ◌+◌, ◌≡◌, refl, arith, List, [], ◌∷◌, ◌++◌, length}
use valkyrie.Base.Outcome.{ok}
use valkyrie.Deque.{Deque, insert}
use valkyrie.Deque.Contents.{Holds, insert-Holds}

-- A full deque of four numbers.
abbrev four : Deque ℕ
four = record { cells = λ i. 10 + i; size = 4; capacity = 4 }

abbrev front : List ℕ
front = 10 ∷ 11 ∷ []

abbrev first : List ℕ
first = 10 ∷ []

four-Holds : Holds four (10 ∷ 11 ∷ 12 ∷ 13 ∷ [])
four-Holds = record {
  valid = record { fits = omega arith; least = omega arith; small = omega arith };
  size = refl;
  at = (refl, (refl, (refl, (refl, tt))));
}

insert-Holds_example :
    (after : Deque ℕ) × (insert 0 four (length front) 99 ≡ ok after)
    × Holds after (front ++ 99 ∷ 12 ∷ 13 ∷ [])
insert-Holds_example = insert-Holds 0 four front (12 ∷ 13 ∷ []) 99 four-Holds (omega arith)
