-- ===== src/TaskScheduler/RoundRobin.antt =====
-- Scheduling goes round the run queue.
use valkyrie.Base.{
  ℕ, zero, suc, ◌≡◌, ◌≢◌, refl, ap, ◌∙◌, List, [], ◌∷◌, ◌++◌, length, append_assoc, true, ltb, ◌==◌,
  arith,
}
use valkyrie.Base.Outcome.{Outcome, ok, ◌>>=◌}
use valkyrie.TaskScheduler.{
  TaskScheduler, running, sleeping, rotate, schedule, remove_task, remove_if, set_state, switch_to,
}

rotate_lem : (t : ℕ) (l : List ℕ) → rotate (t ∷ l) ≡ l ++ t ∷ []
unfolding rotate
rotate_lem t [] = refl
rotate_lem t (x ∷ l) = let z : ltb 1 (suc (suc (length l))) ≡ true = ground arith in rw z refl

-- What a call of `schedule` leaves: `next` runs, at the front of the queue.
pub record Scheduled (s : TaskScheduler) (next : ℕ) (l : List ℕ) (out : Outcome TaskScheduler)
    : Type 0 where
  pub after : TaskScheduler
  pub runs : out ≡ ok after
  pub queue : after.runqueue ≡ next ∷ l
  pub current : after.current ≡ next
  pub front : (after.tasks next).state ≡ running
  pub asleep : s.current ≢ next → (after.tasks s.current).state ≡ sleeping
  pub others : (t : ℕ) → t ≢ next → t ≢ s.current → after.tasks t ≡ s.tasks t

module _ (s : TaskScheduler) (next : ℕ) (l : List ℕ) (e : rotate s.runqueue ≡ next ∷ l) where
  switched : TaskScheduler
  switched =
      switch_to
        (set_state (set_state (record s { runqueue = next ∷ l }) s.current sleeping) next running)
        next

  schedule-Scheduled : Scheduled s next l (schedule s)
  unfolding schedule switched
  schedule-Scheduled = record {
    after = switched;
    runs = rw (e, schedule, e) refl;
    queue = refl;
    current = refl;
    front = ground arith;
    asleep = λ ne. ground arith;
    others = λ t n c. ground arith;
  }

-- `schedule` with a task at the front of the queue, which others may follow: it returns, the queue has
-- gone round by one, the task that is at its front now runs and is the current one, the one that was
-- current sleeps unless it is the same, and no other task has changed.
pub schedule_lem :
    (s : TaskScheduler) (x : ℕ) (l : List ℕ)
    → s.runqueue ≡ x ∷ l
    → (next : ℕ) × (rest : List ℕ) × (next ∷ rest ≡ l ++ x ∷ [])
      × Scheduled s next rest (schedule s)
schedule_lem s x [] e = (x, [], refl, schedule-Scheduled s x [] (ap rotate e ∙ rotate_lem x []))
schedule_lem s x (y ∷ l) e = (
  y,
  l ++ x ∷ [],
  refl,
  schedule-Scheduled s y (l ++ x ∷ []) (ap rotate e ∙ rotate_lem x (y ∷ l)),
)

-- `n` calls of `schedule`.
abbrev pub schedules : ℕ → TaskScheduler → Outcome TaskScheduler
schedules zero s = ok s
schedules (suc n) s = schedule s >>= schedules n

-- Round robin: the task with n others before it in the queue runs after n calls of `schedule`, and the
-- tasks that were before it are behind the others then, in their order.
pub schedules_round :
    (s : TaskScheduler) (x y : ℕ) (p r : List ℕ)
    → s.runqueue ≡ x ∷ p ++ y ∷ r
    → (after : TaskScheduler) × (schedules (length (x ∷ p)) s ≡ ok after)
      × (after.current ≡ y)
      × (after.runqueue ≡ y ∷ r ++ x ∷ p)
schedules_round s x y [] r e =
    let a = schedule-Scheduled s y (r ++ x ∷ []) (ap rotate e ∙ rotate_lem x (y ∷ r)) in
    (a.after, ap (λ (m : Outcome TaskScheduler). m >>= schedules 0) a.runs, a.current, a.queue)
schedules_round s x y (z ∷ p) r e =
    let a =
      schedule-Scheduled s z ((p ++ y ∷ r) ++ x ∷ [])
        (ap rotate e ∙ rotate_lem x (z ∷ p ++ y ∷ r)) in
    let (after, runs, current, queue) =
      schedules_round a.after z y p (r ++ x ∷ [])
        (a.queue ∙ ap (λ (m : List ℕ). z ∷ m) (append_assoc p (y ∷ r) (x ∷ []))) in
    (
      after,
      ap (λ (m : Outcome TaskScheduler). m >>= schedules (length (z ∷ p))) a.runs ∙ runs,
      current,
      queue ∙ ap (λ (m : List ℕ). y ∷ m) (append_assoc r (x ∷ []) (z ∷ p)),
    )

-- A task that leaves the front of the queue, as the current one does in `Task::exit`, and then calls
-- `schedule`, makes the task after the next one run; the next one goes to the end of the queue.
pub schedule-remove_task :
    (s : TaskScheduler) (x y z : ℕ) (l : List ℕ)
    → s.runqueue ≡ x ∷ y ∷ z ∷ l
    → (after : TaskScheduler) × ((remove_task s x >>= schedule) ≡ ok after)
      × (after.current ≡ z)
      × (after.runqueue ≡ z ∷ l ++ y ∷ [])
unfolding remove_task remove_if
schedule-remove_task s x y z l e =
    let t : (x == x) ≡ true = ground arith in
    let g : remove_task s x ≡ ok (record s { runqueue = y ∷ z ∷ l }) =
      rw (remove_task, e, remove_if, t) refl in
    let a =
      schedule-Scheduled (record s { runqueue = y ∷ z ∷ l }) z (l ++ y ∷ [])
        (rotate_lem y (z ∷ l)) in
    (a.after, ap (λ (m : Outcome TaskScheduler). m >>= schedule) g ∙ a.runs, a.current, a.queue)
