-- ===== src/Deque.antt =====
-- include/lib/Deque.h: an array that doubles when it is full and halves when a quarter of it is used.
-- `_data` is the field `cells`, a function of the index; an access beyond the capacity faults. `_size` and `_capacity`
-- are 64-bit values.
pub mod Shifts
pub mod Contents
pub mod Laws
pub mod Refine
mod Tests
use valkyrie.Base.{
  ℕ, zero, suc, ◌+◌, ◌-◌, ◌*◌, ◌/◌, ◌%◌, ◌^◌, max, Bool, true, false, Option, none, some, ltb, leb,
  ◌==◌, if◌then◌else◌,
}
use valkyrie.Base.Maps.{update}
use valkyrie.Base.Outcome.{Outcome, ok, panic, fault, ◌>>=◌}

abbrev pub default_size : ℕ
default_size = 4

module _ {ℓ} {A : Type ℓ} where
  -- `for (int i = _size; i > index; i--) _data[i] = _data[i - 1];`, with `n` rounds to go.
  unfoldable pub shift_right : ℕ → (ℕ → A) → ℕ → ℕ → A
  shift_right zero cells i = cells
  shift_right (suc n) cells i = shift_right n (update cells i (cells (i - 1))) (i - 1)

  -- `for (int i = index; i < (int) _size - 1; i++) _data[i] = _data[i + 1];`
  unfoldable pub shift_left : ℕ → (ℕ → A) → ℕ → ℕ → A
  shift_left zero cells i = cells
  shift_left (suc n) cells i = shift_left n (update cells i (cells (i + 1))) (i + 1)

  -- `for (size_t i = 0; i < _size; i++) new_cells[i] = _data[i];`, from `i` on, with `n` rounds to go.
  unfoldable pub migrate : ℕ → (ℕ → A) → (ℕ → A) → ℕ → ℕ → A
  migrate zero new_cells cells i = new_cells
  migrate (suc n) new_cells cells i = migrate n (update new_cells i (cells i)) cells (i + 1)

pub record Deque {ℓ} (A : Type ℓ) : Type ℓ where
  pub cells : ℕ → A
  pub size : ℕ
  pub capacity : ℕ

-- The elements of a new array are made by the element type's default constructor, `blank`.
module _ {ℓ} {A : Type ℓ} (blank : A) where
  unfoldable pub init : ℕ → Deque A
  init init_capacity = record { cells = λ i. blank; size = 0; capacity = init_capacity }

  unfoldable pub resize : Deque A → ℕ → Bool → Deque A
  resize d new_capacity migrate_data = record d {
    capacity = max default_size new_capacity;
    cells = if migrate_data then migrate d.size (λ i. blank) d.cells 0 else (λ i. blank);
  }

  unfoldable pub clear : Deque A → Deque A
  clear d = record (resize d default_size false) { size = 0 }

  -- `if (_size == _capacity) resize(_capacity * 2);`
  unfoldable pub grow : Deque A → Deque A
  grow d = if d.size == d.capacity then resize d (d.capacity * 2 % 2 ^ 64) true else d

  -- `_size--; if (_size <= _capacity / 4) resize(_capacity / 2);`
  unfoldable pub shrink : Deque A → Deque A
  shrink d =
      let less = record d { size = (d.size + 2 ^ 64 - 1) % 2 ^ 64 } in
      if leb less.size (d.capacity / 4) then resize less (d.capacity / 2) true else less

  unfoldable pub insert : Deque A → ℕ → A → Outcome (Deque A)
  insert d index val =
      let room = grow d in
      if leb room.capacity index
      then fault
      else ok (record room {
        cells = update (shift_right (room.size - index) room.cells room.size) index val;
        size = (room.size + 1) % 2 ^ 64;
      })

  unfoldable pub erase : Deque A → ℕ → Deque A
  erase d index = shrink (record d { cells = shift_left (d.size - 1 - index) d.cells index })

  unfoldable pub push_back : Deque A → A → Outcome (Deque A)
  push_back d val = insert d d.size val

  unfoldable pub push_front : Deque A → A → Outcome (Deque A)
  push_front d val = insert d 0 val

  -- The index is -1 if the deque is empty, and nothing is shifted.
  unfoldable pub pop_back : Deque A → Deque A
  pop_back d = if d.size == 0 then shrink d else erase d (d.size - 1)

  unfoldable pub pop_front : Deque A → Deque A
  pop_front d = erase d 0

module _ {ℓ} {A : Type ℓ} where
  -- `for (int i = 0; i < _size; i++) if (_data[i] == val) return i;`, with `n` rounds to go.
  unfoldable pub find_from : (A → A → Bool) → ℕ → (ℕ → A) → A → ℕ → Option ℕ
  find_from eq zero cells val i = none
  find_from eq (suc n) cells val i =
      let rest = find_from eq n cells val (i + 1) in if eq (cells i) val then some i else rest

  -- `none` stands for -1.
  unfoldable pub find : (A → A → Bool) → Deque A → A → Option ℕ
  find eq d val = find_from eq d.size d.cells val 0

  unfoldable pub remove : A → (A → A → Bool) → Deque A → A → Deque A
  remove blank eq d val = elim (find eq d val) [ none ↦ d | some i ↦ erase blank d i ]
