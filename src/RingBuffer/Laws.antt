-- ===== src/RingBuffer/Laws.antt =====
-- What the operations of include/lib/RingBuffer.h do to the queue of elements.
use valkyrie.Base.{
  ◌+◌, ◌%◌, ◌<◌, ◌≡◌, List, [], ◌∷◌, ◌++◌, length, length-append, arith, ◌==◌, true, false, ltb,
}
use valkyrie.Base.Maps.{update}
use valkyrie.RingBuffer.{RingBuffer, push, pop, empty, full, front}
use valkyrie.RingBuffer.Segments.{
  Segment, Segment-distance, Segment-update, Segment-snoc, next_index, next-below,
}

module _ {A : Type 0} where
  -- The ring holds the list, from the head to before the tail.
  pub record Holds (r : RingBuffer A) (l : List A) : Type 0 where
    pub head : r.head < r.capacity
    pub tail : r.tail < r.capacity
    pub room : length l < r.capacity
    pub segment : Segment r.capacity r.cells r.head r.tail l

module _ {A : Type 0} (r : RingBuffer A) (l : List A) (h : Holds r l) where
  -- `empty` holds of the empty list only.
  empty_lem : empty r ≡ (length l == 0)
  unfolding empty
  empty_lem =
      let a = h.head in
      let b = h.tail in
      let c = h.room in
      let d = Segment-distance r.capacity r.cells r.head r.tail l h.head (omega arith) h.segment in
      ground arith

  -- `full` holds with one cell left.
  full_lem : full r ≡ (length l + 1 == r.capacity)
  unfolding full
  full_lem =
      let a = h.head in
      let b = h.tail in
      let c = h.room in
      let n = next_index r.tail r.capacity h.tail in
      let d = Segment-distance r.capacity r.cells r.head r.tail l h.head (omega arith) h.segment in
      ground arith

  -- The ring reports itself empty, or full, exactly if it holds no element, or one less than it has
  -- cells.
  pub empty-full : (empty r ≡ (length l == 0)) × (full r ≡ (length l + 1 == r.capacity))
  empty-full = (empty_lem, full_lem)

  -- `push` into a ring that is not full puts the element behind the others.
  pub push-Holds : (x : A) → full r ≡ false → Holds (push r x) (l ++ x ∷ [])
  unfolding push
  push-Holds x f =
      let c = h.room in
      let e = full_lem in
      rw f (record {
        head = h.head;
        tail = next-below r.tail r.capacity h.tail;
        room = ground (arith, length-append l (x ∷ []));
        segment =
            Segment-snoc r.capacity (update r.cells r.tail x) r.head r.tail l x (ground arith)
              (Segment-update r.capacity r.cells r.head r.tail l x h.head h.tail h.room h.segment);
      })

-- `push` into a full ring drops the first element and puts the new one behind the others.
pub push-full-Holds :
    {A : Type 0} (r : RingBuffer A) (y : A) (l : List A) (x : A)
    → Holds r (y ∷ l)
    → full r ≡ true
    → Holds (push r x) (l ++ x ∷ [])
unfolding push
push-full-Holds r y l x h f =
    let c = h.room in
    rw f (record {
      head = next-below r.head r.capacity h.head;
      tail = next-below r.tail r.capacity h.tail;
      room = omega (arith, length-append l (x ∷ []));
      segment =
          Segment-snoc r.capacity (update r.cells r.tail x) ((r.head + 1) % r.capacity) r.tail l x
            (ground arith)
            (Segment-update r.capacity r.cells r.head r.tail (y ∷ l) x h.head h.tail h.room
              h.segment).1;
    })

-- `front` is the first element, and `pop` takes it off.
pub pop-Holds :
    {A : Type 0} (r : RingBuffer A) (y : A) (l : List A)
    → Holds r (y ∷ l)
    → (front r ≡ y) × Holds (pop r) l
unfolding pop front
pop-Holds r y l h =
    let c = h.room in
    (
      h.segment.0,
      record {
        head = next-below r.head r.capacity h.head;
        tail = h.tail;
        room = omega arith;
        segment = h.segment.1;
      },
    )

-- `pop` of an empty ring of two cells or more moves the head past the tail: the ring is not empty any
-- more, and it is full.
pub pop-empty :
    {A : Type 0} (r : RingBuffer A)
    → Holds r []
    → 1 < r.capacity
    → (empty (pop r) ≡ false) × (full (pop r) ≡ true)
unfolding pop empty full
pop-empty r h c =
    let s = h.segment in
    let a = h.head in
    let n = next_index r.head r.capacity h.head in
    let m = next_index r.tail r.capacity h.tail in (ground arith, ground arith)

-- A `push` into a full ring whose `_size` is right makes `_size` the capacity, one more than the
-- number of elements that the ring then holds.
pub push-full-size :
    {A : Type 0} (r : RingBuffer A) (y : A) (l : List A) (x : A)
    → Holds r (y ∷ l)
    → full r ≡ true
    → r.size ≡ length (y ∷ l)
    → (push r x).size ≡ length (l ++ x ∷ []) + 1
unfolding push
push-full-size r y l x h f s =
    let c = h.room in
    let z : ltb r.size r.capacity ≡ true = ground arith in
    rw z (omega (arith, length-append l (x ∷ [])))
