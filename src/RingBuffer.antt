-- ===== src/RingBuffer.antt =====
-- include/lib/RingBuffer.h. `_data` is the field `cells`, a function of the index. The indices and the
-- capacity are below 2^31, so no addition of one overflows an `int`.
pub mod Segments
pub mod Laws
mod Tests
use valkyrie.Base.{ℕ, zero, suc, ◌+◌, ◌-◌, ◌%◌, Bool, true, false, ltb, ◌==◌, if◌then◌else◌}
use valkyrie.Base.Maps.{update}

abbrev pub default_capacity : ℕ
default_capacity = 32

pub record RingBuffer {ℓ} (A : Type ℓ) : Type ℓ where
  pub cells : ℕ → A
  pub head : ℕ
  pub tail : ℕ
  pub size : ℕ
  pub capacity : ℕ

module _ {ℓ} {A : Type ℓ} where
  -- The elements of a new array are made by the element type's default constructor, `blank`.
  unfoldable pub init : A → ℕ → RingBuffer A
  init blank capacity = record {
    cells = λ i. blank;
    head = 0;
    tail = 0;
    size = 0;
    capacity = capacity;
  }

  unfoldable pub empty : RingBuffer A → Bool
  empty r = r.tail == r.head

  unfoldable pub full : RingBuffer A → Bool
  full r = (r.tail + 1) % r.capacity == r.head

  unfoldable pub push : RingBuffer A → A → RingBuffer A
  push r val = record r {
    cells = update r.cells r.tail val;
    head = if full r then (r.head + 1) % r.capacity else r.head;
    tail = (r.tail + 1) % r.capacity;
    size = if ltb r.size r.capacity then r.size + 1 else r.size;
  }

  unfoldable pub pop : RingBuffer A → RingBuffer A
  pop r = record r {
    head = (r.head + 1) % r.capacity;
    size = if ltb 0 r.size then r.size - 1 else r.size;
  }

  unfoldable pub clear : RingBuffer A → RingBuffer A
  clear r = record r { head = 0; tail = 0; size = 0 }

  unfoldable pub front : RingBuffer A → A
  front r = r.cells r.head

  unfoldable pub back : RingBuffer A → A
  back r = r.cells (if r.tail == 0 then r.capacity - 1 else r.tail - 1)
