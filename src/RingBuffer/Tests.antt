-- ===== src/RingBuffer/Tests.antt =====
-- Runs of the ring buffer at single inputs.
use valkyrie.Base.{ℕ, ◌+◌, ◌≡◌, refl, arith, List, [], ◌∷◌, ◌++◌, true, false}
use valkyrie.RingBuffer.{RingBuffer, push, full}
use valkyrie.RingBuffer.Laws.{Holds, push-Holds}

-- Four cells, of which the last and the first are in use.
abbrev two_numbers : RingBuffer ℕ
two_numbers = record { cells = λ i. 10 + i; head = 3; tail = 1; size = 2; capacity = 4 }

two_numbers-Holds : Holds two_numbers (13 ∷ 10 ∷ [])
two_numbers-Holds = record {
  head = omega arith;
  tail = omega arith;
  room = omega arith;
  segment = (refl, (refl, refl));
}

-- Four cells, of which three are in use.
abbrev three_numbers : RingBuffer ℕ
three_numbers = record { cells = λ i. 10 + i; head = 3; tail = 2; size = 3; capacity = 4 }

three_numbers-Holds : Holds three_numbers (13 ∷ 10 ∷ 11 ∷ [])
three_numbers-Holds = record {
  head = omega arith;
  tail = omega arith;
  room = omega arith;
  segment = (refl, (refl, (refl, refl)));
}

abbrev no_numbers : RingBuffer ℕ
no_numbers = record { cells = λ i. 10 + i; head = 3; tail = 3; size = 0; capacity = 4 }

no_numbers-Holds : Holds no_numbers []
no_numbers-Holds = record {
  head = omega arith;
  tail = omega arith;
  room = omega arith;
  segment = refl;
}

abbrev listed : List ℕ
listed = 13 ∷ 10 ∷ []

abbrev behind : List ℕ
behind = 10 ∷ 11 ∷ []

not_full : full two_numbers ≡ false
unfolding full
not_full = refl

is_full : full three_numbers ≡ true
unfolding full
is_full = refl

push-Holds_example : Holds (push two_numbers 99) (listed ++ 99 ∷ [])
push-Holds_example = push-Holds two_numbers listed two_numbers-Holds 99 not_full
