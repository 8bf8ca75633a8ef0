-- ===== src/TaskletScheduler/Laws.antt =====
-- No tasklet is lost, handled twice or handled out of order.
use Prim.{Unit, tt}
use valkyrie.Base.{
  ℕ, suc, ◌+◌, ◌%◌, ◌≤◌, ◌<◌, ◌≡◌, refl, sym, ap, ◌∙◌, subst, List, [], ◌∷◌, ◌++◌, length,
  length-append, append-nil, append_assoc, Option, none, some, arith, ◌==◌, true, false, Bool-cases,
  inl, inr, ◌⊎◌, ltb,
}
use valkyrie.Base.Maps.{update}
use valkyrie.Base.Outcome.{Outcome, ok, ◌>>=◌}
use valkyrie.RingBuffer.{full, push, clear, default_capacity}
use valkyrie.TaskletScheduler.{TaskletScheduler, handle_loop, finish_all, add_tasklet}

-- From cell `i` on, the queue holds these tasklets.
abbrev pub Queued : (ℕ → Option ℕ) → ℕ → List ℕ → Type 0
Queued f i [] = Unit
Queued f i (t ∷ l) = (f i ≡ some t) × Queued f (suc i) l

-- The tasklets that wait stand at the front of the queue's cells.
pub record Pending (s : TaskletScheduler) (l : List ℕ) : Type 0 where
  pub capacity : s.tasklet_queue.capacity ≡ default_capacity
  pub head : s.tasklet_queue.head ≡ 0
  pub tail : s.tasklet_queue.tail ≡ length l
  pub size : s.tasklet_queue.size ≡ length l
  pub room : length l < default_capacity
  pub queued : Queued s.tasklet_queue.cells 0 l

Queued-update :
    (f : ℕ → Option ℕ) (i k : ℕ) (v : Option ℕ) (l : List ℕ)
    → (k < i) ⊎ (i + length l ≤ k)
    → Queued f i l
    → Queued (update f k v) i l
Queued-update f i k v [] h q = tt
Queued-update f i k v (t ∷ l) h (e, q) = (
  let ne : (k == i) ≡ false = ground arith in rw ne e,
  Queued-update f (suc i) k v l (ground arith) q,
)

Queued-snoc :
    (f : ℕ → Option ℕ) (i t : ℕ) (l : List ℕ)
    → f (i + length l) ≡ some t
    → Queued f i l
    → Queued f i (l ++ t ∷ [])
Queued-snoc f i t [] e q = (subst (λ (k : ℕ). f k ≡ some t) (omega arith) e, tt)
Queued-snoc f i t (x ∷ l) e (a, q) =
    (a, Queued-snoc f (suc i) t l (subst (λ (k : ℕ). f k ≡ some t) (omega arith) e) q)

-- What a run of the handlers leaves.
record Handled (s : TaskletScheduler) (l : List ℕ) (out : Outcome TaskletScheduler) : Type 0 where
  after : TaskletScheduler
  runs : out ≡ ok after
  calls : after.handled ≡ s.handled ++ l
  capacity : after.tasklet_queue.capacity ≡ s.tasklet_queue.capacity

handle_loop-Handled :
    (s : TaskletScheduler) (i : ℕ) (l : List ℕ)
    → Queued s.tasklet_queue.cells i l
    → Handled s l (handle_loop (length l) s i)
unfolding handle_loop
handle_loop-Handled s i [] q = record {
  after = s;
  runs = refl;
  calls = sym (append-nil s.handled);
  capacity = refl;
}
handle_loop-Handled s i (t ∷ l) (e, q) =
    let next : TaskletScheduler = record {
      tasklet_queue = record s.tasklet_queue { cells = update s.tasklet_queue.cells i none };
      handled = s.handled ++ t ∷ [];
    } in
    let k : i + 1 ≡ suc i = omega arith in
    let r =
      handle_loop-Handled next (suc i) l
        (Queued-update s.tasklet_queue.cells (suc i) i none l (inl (omega arith)) q) in
    record {
      after = r.after;
      runs = rw (handle_loop, e, k) r.runs;
      calls = r.calls ∙ append_assoc s.handled (t ∷ []) l;
      capacity = r.capacity;
    }

-- `finish_all` returns: every tasklet that waited has been handled, in the order in which they were
-- added, and none waits any more.
pub finish_all-Pending :
    (s : TaskletScheduler) (l : List ℕ)
    → Pending s l
    → (after : TaskletScheduler) × (finish_all s ≡ ok after)
      × (after.handled ≡ s.handled ++ l)
      × Pending after []
unfolding finish_all clear
finish_all-Pending s l p =
    let r = handle_loop-Handled s 0 l p.queued in
    (
      record r.after { tasklet_queue = clear r.after.tasklet_queue },
      ap
            (λ (n : ℕ).
              handle_loop n s 0
              >>= (λ done. ok (record done { tasklet_queue = clear done.tasklet_queue })))
            p.size
          ∙ ap
              (λ (m : Outcome TaskletScheduler).
                m >>= (λ done. ok (record done { tasklet_queue = clear done.tasklet_queue })))
              r.runs,
      r.calls,
      record {
        capacity = r.capacity ∙ p.capacity;
        head = refl;
        tail = refl;
        size = refl;
        room = omega arith;
        queued = tt;
      },
    )

-- A tasklet pushed into a queue with room waits behind the others.
push-Pending :
    (s : TaskletScheduler) (l : List ℕ) (t : ℕ)
    → Pending s l
    → length l + 1 < default_capacity
    → Pending (record s { tasklet_queue = push s.tasklet_queue (some t) }) (l ++ t ∷ [])
unfolding push full
push-Pending s l t p h =
    let n = length-append l (t ∷ []) in
    let c = p.capacity in
    let a = p.head in
    let b = p.tail in
    let d = p.size in
    let next : (s.tasklet_queue.tail + 1) % s.tasklet_queue.capacity ≡ length l + 1 =
      rw (b, c) (omega arith) in
    let some_room : ((s.tasklet_queue.tail + 1) % s.tasklet_queue.capacity == s.tasklet_queue.head)
        ≡ false =
      ground arith in
    let count : ltb s.tasklet_queue.size s.tasklet_queue.capacity ≡ true = ground arith in
    record {
      capacity = c;
      head = rw some_room a;
      tail = omega arith;
      size = rw count (omega arith);
      room = omega arith;
      queued = Queued-snoc _ 0 t l (ground arith) (
          Queued-update s.tasklet_queue.cells 0 s.tasklet_queue.tail (some t) l (inr (omega arith))
            p.queued);
    }

full_lem :
    (s : TaskletScheduler) (l : List ℕ) → Pending s l → full s.tasklet_queue ≡ (length l == 31)
unfolding full
full_lem s l p = let room = p.room in rw (p.capacity, p.head, p.tail) (ground arith)

-- Adding a tasklet returns. With fewer than 31 waiting it waits behind them; with 31 waiting these are
-- handled first. Either way the tasklets handled so far, followed by those that wait, have the new one
-- as their last, and are otherwise the same.
pub add_tasklet-Pending :
    (s : TaskletScheduler) (l : List ℕ) (t : ℕ)
    → Pending s l
    → (after : TaskletScheduler) × (waiting : List ℕ) × (add_tasklet s t ≡ ok after)
      × Pending after waiting
      × (after.handled ++ waiting ≡ (s.handled ++ l) ++ t ∷ [])
      × ((length l ≡ 31) ⊎ (after.handled ≡ s.handled))
unfolding add_tasklet
add_tasklet-Pending s l t p = elim (Bool-cases (length l == 31)) [
  | inl e ↦
      let (done, runs, calls, q) = finish_all-Pending s l p in
      let f : full s.tasklet_queue ≡ true = full_lem s l p ∙ e in
      (
        record done { tasklet_queue = push done.tasklet_queue (some t) },
        t ∷ [],
        rw (f, add_tasklet, runs) refl,
        push-Pending done [] t q (omega arith),
        ap (λ (m : List ℕ). m ++ t ∷ []) calls,
        inl (ground arith),
      )
  | inr e ↦
      let f : full s.tasklet_queue ≡ false = full_lem s l p ∙ e in
      let room = p.room in
      (
        record s { tasklet_queue = push s.tasklet_queue (some t) },
        l ++ t ∷ [],
        rw (f, add_tasklet) refl,
        push-Pending s l t p (ground arith),
        sym (append_assoc s.handled l (t ∷ [])),
        inr refl,
      )
]
