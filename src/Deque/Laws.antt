-- ===== src/Deque/Laws.antt =====
-- What the operations of include/lib/Deque.h do to the sequence of elements.
use valkyrie.Base.{
  ℕ, ◌+◌, ◌-◌, ◌*◌, ◌/◌, ◌%◌, ◌^◌, ◌≤◌, ◌<◌, ◌≡◌, refl, ◌∙◌, true, false, arith, ltb, leb, ◌==◌,
  if◌then◌else◌, Bool-cases, inl, inr,
}
use valkyrie.Base.Maps.{update}
use valkyrie.Base.Outcome.{ok}
use valkyrie.Deque.{
  Deque, default_size, resize, clear, grow, shrink, insert, erase, shift_right, shift_left,
}
use valkyrie.Deque.Shifts.{shift_right_lem, shift_left_lem, migrate_lem}

module _ {A : Type 0} where
  -- The elements fit the array, which has at least four cells, and sizes stay below 2^31.
  pub record IsValid (d : Deque A) : Type 0 where
    pub fits : d.size ≤ d.capacity
    pub least : default_size ≤ d.capacity
    pub small : d.capacity < 2 ^ 31

  -- Two deques of the same elements.
  pub record Same (d e : Deque A) : Type 0 where
    pub size : e.size ≡ d.size
    pub cells : (j : ℕ) → j < d.size → e.cells j ≡ d.cells j

module _ {A : Type 0} (blank : A) (d : Deque A) where
  resize-Same : (n : ℕ) → Same d (resize blank d n true)
  unfolding resize
  resize-Same n = record {
    size = refl;
    cells = λ j h. migrate_lem d.size (λ i. blank) d.cells 0 j ∙ ground arith;
  }

  grow-Same : Same d (grow blank d)
  unfolding grow
  grow-Same = elim (Bool-cases (d.size == d.capacity)) [
    | inl e ↦ rw e (resize-Same (d.capacity * 2 % 2 ^ 64))
    | inr e ↦ rw e (record { size = refl; cells = λ j h. refl })
  ]

  -- After `grow` there is room for one more.
  grow_room :
      IsValid d
      → ((grow blank d).size < (grow blank d).capacity)
        × (default_size ≤ (grow blank d).capacity)
        × ((grow blank d).capacity ≤ 2 * d.capacity)
  unfolding grow resize
  grow_room v = elim (Bool-cases (d.size == d.capacity)) [
    | inl e ↦ rw e (
        let f = v.fits in
        let l = v.least in
        let s = v.small in
        let g : d.size ≡ d.capacity = ground arith in (omega arith, omega arith, omega arith))
    | inr e ↦ rw e (let f = v.fits in (ground arith, v.least, omega arith))
  ]

  -- The array after the insertion, given the array that has room.
  inserted :
      (room : Deque A) (index j : ℕ) (val : A)
      → Same d room
      → index ≤ d.size
      → j < d.size + 1
      → update (shift_right (room.size - index) room.cells room.size) index val j
        ≡ (if ltb j index then d.cells j else if j == index then val else d.cells (j - 1))
  inserted room index j val s le h = ground (
    arith,
    s.size,
    shift_right_lem (room.size - index) room.cells room.size j,
    s.cells j,
    s.cells (j - 1),
  )

  -- `insert` at an index up to the size, into an array below 2^30 cells: it returns, the deque stays
  -- valid, and the new element stands at the index, the elements from there on moved up by one.
  pub insert_lem :
      (index : ℕ) (val : A)
      → IsValid d
      → index ≤ d.size
      → d.capacity < 2 ^ 30
      → (after : Deque A) × (insert blank d index val ≡ ok after)
        × IsValid after
        × (after.size ≡ d.size + 1)
        × ((j : ℕ)
            → j < after.size
            → after.cells j
              ≡ (if ltb j index then d.cells j else if j == index then val else d.cells (j - 1)))
  unfolding insert
  insert_lem index val v le c =
      let g = grow_room v in
      let s = grow-Same in
      let e = s.size in
      let f = v.fits in
      let z : leb (grow blank d).capacity index ≡ false = ground (arith, g.0, s.size) in
      let one : ((grow blank d).size + 1) % 2 ^ 64 ≡ d.size + 1 = omega (arith, g.0, g.2) in
      (
        record (grow blank d) {
          cells =
              update
                (shift_right ((grow blank d).size - index) (grow blank d).cells (grow blank d).size)
                index val;
          size = ((grow blank d).size + 1) % 2 ^ 64;
        },
        rw z refl,
        record { fits = rw one (omega (arith, g.0)); least = g.1; small = omega (arith, g.2) },
        one,
        λ j h. inserted (grow blank d) index j val s le (rw one at h),
      )

-- `shrink` takes the last element off.
module _ {A : Type 0} (blank : A) (d : Deque A) (v : IsValid d) (pos : 0 < d.size) where
  shrink_lem :
      IsValid (shrink blank d)
      × ((shrink blank d).size + 1 ≡ d.size)
      × ((j : ℕ) → j + 1 < d.size → (shrink blank d).cells j ≡ d.cells j)
  unfolding shrink resize
  shrink_lem =
      let f = v.fits in
      let l = v.least in
      let m = v.small in
      let one : (d.size + 2 ^ 64 - 1) % 2 ^ 64 ≡ d.size - 1 = omega arith in
      rw one (elim (Bool-cases (leb (d.size - 1) (d.capacity / 4))) [
        | inl e ↦ rw e (
          record { fits = ground arith; least = omega arith; small = omega arith },
          omega arith,
          λ j h. migrate_lem (d.size - 1) (λ i. blank) d.cells 0 j ∙ ground arith,
        )
        | inr e ↦
            rw e (record { fits = omega arith; least = l; small = m }, omega arith, λ j h. refl)
      ])

-- `erase` at an index below the size: the deque stays valid, and the elements behind the index have
-- moved down by one.
pub erase_lem :
    {A : Type 0} (blank : A) (d : Deque A) (index : ℕ)
    → IsValid d
    → index < d.size
    → IsValid (erase blank d index)
      × ((erase blank d index).size + 1 ≡ d.size)
      × ((j : ℕ)
          → j < (erase blank d index).size
          → (erase blank d index).cells j ≡ (if ltb j index then d.cells j else d.cells (j + 1)))
unfolding erase
erase_lem blank d index v h =
    let r =
      shrink_lem blank (record d { cells = shift_left (d.size - 1 - index) d.cells index })
        (record { fits = v.fits; least = v.least; small = v.small }) (omega arith) in
    (
      r.0,
      r.1,
      λ j k.
          r.2 j (omega (arith, r.1))
          ∙ ground (arith, r.1, shift_left_lem (d.size - 1 - index) d.cells index j),
    )

-- `clear` leaves a valid deque without elements.
pub clear-IsValid :
    {A : Type 0} (blank : A) (d : Deque A) → IsValid (clear blank d) × ((clear blank d).size ≡ 0)
unfolding clear resize
clear-IsValid blank d =
    (record { fits = omega arith; least = omega arith; small = omega arith }, refl)
