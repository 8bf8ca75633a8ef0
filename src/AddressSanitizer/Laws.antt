-- ===== src/AddressSanitizer/Laws.antt =====
-- What the table of mm/AddressSanitizer.cc knows.
use valkyrie.Base.{
  ℕ, zero, suc, ◌+◌, ◌≤◌, ◌<◌, ◌≡◌, ◌≢◌, refl, ◌↔◌, ◌⊎◌, inl, inr, ◌==◌, none, some, arith,
  Option-cases, Bool-cases,
}
use valkyrie.Base.Maps.{update}
use valkyrie.Base.Outcome.{ok, panic}
use valkyrie.AddressSanitizer.{Sanitizer, nr_slots, find_slot, mark_free_chk, mark_allocated}

-- The pointer stands in the table.
abbrev pub Tracked : Sanitizer → ℕ → Type 0
Tracked a p = (i : ℕ) × (i < nr_slots) × (a.slots i ≡ p)

-- No pointer but null stands twice.
abbrev pub IsUnique : Sanitizer → Type 0
IsUnique a = (i j : ℕ) → i < nr_slots → j < nr_slots → a.slots i ≡ a.slots j → 0 < a.slots i → i ≡ j

find_slot-some :
    (n : ℕ) (slots : ℕ → ℕ) (p i k : ℕ)
    → find_slot n slots p i ≡ some k
    → (k < i + n) × (slots k ≡ p)
unfolding find_slot
find_slot-some zero slots p i k h = cc
find_slot-some (suc n) slots p i k h = elim (Bool-cases (slots i == p)) [
  | inl e ↦ ground arith
  | inr e ↦
      let r = find_slot-some n slots p (i + 1) k (rw (e, find_slot) at h) in (omega arith, r.1)
]

find_slot-none :
    (n : ℕ) (slots : ℕ → ℕ) (p i k : ℕ)
    → find_slot n slots p i ≡ none
    → i ≤ k
    → k < i + n
    → slots k ≢ p
unfolding find_slot
find_slot-none zero slots p i k h lo hi e = omega arith
find_slot-none (suc n) slots p i k h lo hi e = ground (arith, find_slot-none n slots p (i + 1) k)

module _ (a : Sanitizer) (p : ℕ) where
  -- The search decides whether the pointer is in the table.
  search :
      ((find_slot nr_slots a.slots p 0 ≡ none) × ((k : ℕ) → k < nr_slots → a.slots k ≢ p))
      ⊎ ((i : ℕ) × (find_slot nr_slots a.slots p 0 ≡ some i) × (i < nr_slots) × (a.slots i ≡ p))
  search = elim (Option-cases (find_slot nr_slots a.slots p 0)) [
    | inl e ↦ inl (e, λ k h. find_slot-none nr_slots a.slots p 0 k e (omega arith) h)
    | inr (i, e) ↦ let r = find_slot-some nr_slots a.slots p 0 i e in inr (i, e, r.0, r.1)
  ]

-- What a call leaves when it changes the table: whether `p` is in it, and nothing else.
abbrev pub Adds : Sanitizer → ℕ → Sanitizer → Type 0
Adds a p after =
    IsUnique after × Tracked after p × ((q : ℕ) → 0 < q → q ≢ p → Tracked after q ↔ Tracked a q)

abbrev pub Removes : Sanitizer → ℕ → Sanitizer → Type 0
Removes a p after =
    IsUnique after × ¬ Tracked after p × ((q : ℕ) → 0 < q → q ≢ p → Tracked after q ↔ Tracked a q)

module _ (a : Sanitizer) (p : ℕ) (u : IsUnique a) (pos : 0 < p) where
  written : ℕ → ℕ → Sanitizer
  written i v = record { slots = update a.slots i v }

  stays : (i v q : ℕ) → a.slots i ≢ q → v ≢ q → i < nr_slots → Tracked (written i v) q ↔ Tracked a q
  unfolding written
  stays i v q old new h = (λ (k, lt, e). (k, lt, ground arith), λ (k, lt, e). (k, lt, ground arith))

  -- Marking a pointer that is not null: it panics if the pointer is in the table, does nothing if the
  -- table is full, and otherwise adds the pointer and nothing else.
  pub mark_allocated_lem :
      (Tracked a p × (mark_allocated a p ≡ panic))
      ⊎ (¬ Tracked a p × ¬ Tracked a 0 × (mark_allocated a p ≡ ok a))
      ⊎ ((after : Sanitizer) × ¬ Tracked a p × (mark_allocated a p ≡ ok after) × Adds a p after)
  unfolding mark_allocated written
  mark_allocated_lem = elim (search a p) [
    | inr (i, e, lt, s) ↦ inl ((i, lt, s), rw (e, mark_allocated) refl)
    | inl (e, missing) ↦ inr (elim (search a 0) [
      | inl (f, full) ↦
          inl (
            λ (k, lt, s). missing k lt s,
            λ (k, lt, s). full k lt s,
            rw (e, f, mark_allocated) refl,
          )
      | inr (i, f, lt, s) ↦ inr (
        written i p,
        λ (k, l, t). missing k l t,
        rw (e, f, mark_allocated) refl,
        (
          λ j k jl kl same pj. ground (arith, u j k jl kl, missing j jl, missing k kl),
          (i, lt, ground arith),
          λ q qp ne. stays i p q (ground arith) (ground arith) lt,
        ),
      )
    ])
  ]

  -- Freeing a pointer that is not null: it panics, as a double free, exactly if the pointer is not in
  -- the table, and otherwise removes the pointer and nothing else.
  pub mark_free_chk_lem :
      (¬ Tracked a p × (mark_free_chk a p ≡ panic))
      ⊎ ((after : Sanitizer) × Tracked a p × (mark_free_chk a p ≡ ok after) × Removes a p after)
  unfolding mark_free_chk written
  mark_free_chk_lem = elim (search a p) [
    | inl (e, missing) ↦ inl (λ (k, lt, s). missing k lt s, rw (e, mark_free_chk) refl)
    | inr (i, e, lt, s) ↦ inr (
      written i 0,
      (i, lt, s),
      rw (e, mark_free_chk) refl,
      (
        λ j k jl kl same pj. ground (arith, u j k jl kl),
        λ (k, l, t). ground (arith, u i k lt l),
        λ q qp ne. stays i 0 q (ground arith) (ground arith) lt,
      ),
    )
  ]

-- Marking the null pointer, as a failed allocation does, panics unless the table is full.
pub mark_allocated_null : (a : Sanitizer) → Tracked a 0 → mark_allocated a 0 ≡ panic
unfolding mark_allocated
mark_allocated_null a (k, lt, s) = elim (search a 0) [
  | inl (e, missing) ↦ absurd (missing k lt s)
  | inr (i, e, l, t) ↦ rw (e, mark_allocated) refl
]
