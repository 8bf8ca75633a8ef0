-- ===== src/Deque/Shifts.antt =====
-- What the loops of include/lib/Deque.h do to the array.
use valkyrie.Base.{ℕ, zero, suc, ◌+◌, ◌-◌, ◌≤◌, ◌≡◌, arith, if◌then◌else◌, ltb, leb, ◌&&◌}
use valkyrie.Base.Maps.{update}
use valkyrie.Deque.{shift_right, shift_left, migrate}

module _ {A : Type 0} where
  pub shift_right_lem :
      (n : ℕ) (cells : ℕ → A) (i j : ℕ)
      → n ≤ i
      → shift_right n cells i j ≡ (if ltb (i - n) j && leb j i then cells (j - 1) else cells j)
  unfolding shift_right
  shift_right_lem zero cells i j h = ground arith
  shift_right_lem (suc n) cells i j h =
      ground (arith, shift_right_lem n (update cells i (cells (i - 1))) (i - 1) j)

  pub shift_left_lem :
      (n : ℕ) (cells : ℕ → A) (i j : ℕ)
      → shift_left n cells i j ≡ (if leb i j && ltb j (i + n) then cells (j + 1) else cells j)
  unfolding shift_left
  shift_left_lem zero cells i j = ground arith
  shift_left_lem (suc n) cells i j =
      ground (arith, shift_left_lem n (update cells i (cells (i + 1))) (i + 1) j)

  pub migrate_lem :
      (n : ℕ) (new_cells cells : ℕ → A) (i j : ℕ)
      → migrate n new_cells cells i j ≡ (if leb i j && ltb j (i + n) then cells j else new_cells j)
  unfolding migrate
  migrate_lem zero new_cells cells i j = ground arith
  migrate_lem (suc n) new_cells cells i j =
      ground (arith, migrate_lem n (update new_cells i (cells i)) cells (i + 1) j)
