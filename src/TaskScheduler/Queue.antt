-- ===== src/TaskScheduler/Queue.antt =====
-- What enters and leaves the run queue.
use Prim.{Unit, tt}
use valkyrie.Base.{
  ℕ, ◌≡◌, ◌≢◌, refl, ap, ◌⊎◌, inl, inr, List, [], ◌∷◌, ◌++◌, none, some, ◌==◌, Bool-cases, arith,
}
use valkyrie.Base.Outcome.{ok, panic}
use valkyrie.TaskScheduler.{TaskScheduler, remove_if, remove_task}

-- The task does not stand in the list.
abbrev pub Absent : ℕ → List ℕ → Type 0
Absent t [] = Unit
Absent t (x ∷ l) = (x ≢ t) × Absent t l

remove_if_lem :
    (t : ℕ) (l : List ℕ)
    → ((remove_if t l ≡ none) × Absent t l)
      ⊎ ((p r : List ℕ) × (l ≡ p ++ t ∷ r) × (remove_if t l ≡ some (p ++ r)) × Absent t p)
unfolding remove_if
remove_if_lem t [] = inl (refl, tt)
remove_if_lem t (x ∷ l) = elim (Bool-cases (x == t)) [
  | inl e ↦ let f : x ≡ t = ground arith in inr ([], l, ap (λ (k : ℕ). k ∷ l) f, rw e refl, tt)
  | inr e ↦
      let ne : x ≢ t = ground arith in
      elim (remove_if_lem t l) [
        | inl (gone, absent) ↦ inl (rw (e, gone) refl, (ne, absent))
        | inr (p, r, split, found, absent) ↦
            inr (x ∷ p, r, ap (λ (k : List ℕ). x ∷ k) split, rw (e, found) refl, (ne, absent))
      ]
]

-- Removing a task panics if the task is not in the run queue; otherwise it takes out its first
-- occurrence, and leaves the order of the others and everything else as it was.
pub remove_task_lem :
    (s : TaskScheduler) (t : ℕ)
    → ((remove_task s t ≡ panic) × Absent t s.runqueue)
      ⊎ ((p r : List ℕ) × (s.runqueue ≡ p ++ t ∷ r)
          × (remove_task s t ≡ ok (record s { runqueue = p ++ r }))
          × Absent t p)
unfolding remove_task
remove_task_lem s t = elim (remove_if_lem t s.runqueue) [
  | inl (gone, absent) ↦ inl (rw (gone, remove_task) refl, absent)
  | inr (p, r, split, found, absent) ↦ inr (p, r, split, rw (found, remove_task) refl, absent)
]
