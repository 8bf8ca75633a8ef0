-- ===== src/Tasks/Waits.antt =====
-- `wait` of proc/Task.cc, and what it finds after `exit`.
use valkyrie.Base.{
  ℕ, suc, ◌+◌, ◌<◌, ◌≡◌, ◌≢◌, refl, sym, ap, ◌∙◌, List, [], ◌∷◌, ◌++◌, length, false, some, ◌==◌,
  arith,
}
use valkyrie.Base.Outcome.{ok, ◌>>=◌}
use valkyrie.TaskScheduler.{schedule}
use valkyrie.Tasks.{Task, Tasks, change, change_same, change_other, destroy}
use valkyrie.Tasks.Family.{adopted, adopt_lem}
use valkyrie.Tasks.Calls.{reaped, suspended, wait, wait_loop, exit}
use valkyrie.Tasks.Exits.{exited_tasks, ended, bereaved, exit_lem}

-- The destructor of one task that has no terminated children.
destroy_one :
    (fuel : ℕ) (s : Tasks) (t i : ℕ) (l : List ℕ)
    → s.init ≡ some i
    → t ≢ i
    → (s.tasks t).active_children ≡ l
    → (s.tasks t).terminated_children ≡ []
    → length l < fuel
    → destroy (suc fuel) s (t ∷ []) ≡ ok (adopted s t i l)
unfolding destroy
destroy_one fuel s t i l a b c d h =
    ap (λ m. m >>= λ w. destroy fuel w (w.tasks t).terminated_children >>= λ r. destroy fuel r [])
      (adopt_lem fuel s t i l a b c h)
    ∙ ap (λ k. destroy fuel (adopted s t i l) k >>= λ r. destroy fuel r []) d

pub wait_lem :
    (fuel : ℕ) (s : Tasks) (t child i : ℕ) (l m : List ℕ)
    → s.init ≡ some i
    → child ≢ i
    → child ≢ t
    → (s.tasks t).terminated_children ≡ child ∷ l
    → (s.tasks child).active_children ≡ m
    → (s.tasks child).terminated_children ≡ []
    → length m < fuel
    → wait (suc fuel) s t
      ≡ ok (
          reaped
            (adopted (change s t (λ x. record x { terminated_children = l })) child i m)
            (s.tasks child).pid
            (s.tasks child).error_code)
unfolding wait wait_loop
wait_lem fuel s t child i l m a b c d e f h =
    let n = ap length d in
    let some_child : (length (s.tasks t).active_children + length (s.tasks t).terminated_children
          == 0)
        ≡ false =
      ground arith in
    let left = change s t (λ x. record x { terminated_children = l }) in
    let kept =
      change_other s t (λ x. record x { terminated_children = l }) child (λ same. c (sym same)) in
    rw (wait, some_child)
      (ap
          (λ k. elim k [
            | [] ↦ schedule s.scheduler >>= λ switched.
                ok (suspended (record s { scheduler = switched }))
            | y ∷ k' ↦
                destroy (suc fuel) (change s t (λ x. record x { terminated_children = k' }))
                  (y ∷ [])
                >>= λ rest. ok (reaped rest (s.tasks y).pid (s.tasks y).error_code)
          ])
          d
        ∙ ap (λ o. o >>= λ rest. ok (reaped rest (s.tasks child).pid (s.tasks child).error_code))
            (destroy_one fuel left child i m a b (ap (λ (x : Task). x.active_children) kept ∙ e)
              (ap (λ (x : Task). x.terminated_children) kept ∙ f) h))

-- `exit` of the current task, which is first of at least two in the run queue, is not the init task
-- and has no terminated child of its own, returns to the scheduler. The next `wait` of its parent,
-- another task with no other terminated child, returns on fuel for the task's active children, with
-- the task's process number and the code; then the parent has no terminated child, and the task's
-- active children are those of the init task.
pub exit-wait :
    (fuel : ℕ) (s : Tasks) (t p i a code : ℕ) (l m : List ℕ)
    → s.init ≡ some i
    → t ≢ i
    → t ≢ p
    → (s.tasks t).parent ≡ some p
    → (s.tasks p).terminated_children ≡ []
    → (s.tasks t).active_children ≡ m
    → (s.tasks t).terminated_children ≡ []
    → s.scheduler.current ≡ t
    → s.scheduler.runqueue ≡ t ∷ a ∷ l
    → length m < fuel
    → (gone reaped_from : Tasks) × (exit s t code ≡ ok gone)
      × (wait (suc fuel) gone p ≡ ok (reaped reaped_from (s.tasks t).pid code))
      × ((reaped_from.tasks p).terminated_children ≡ [])
      × (reaped_from ≡ adopted (change gone p (λ x. record x { terminated_children = [] })) t i m)
exit-wait fuel s t p i a code l m hi b c e f g h q r n =
    let (next, rest, order, w, exits) = exit_lem s t p a code l e q r in
    let gone = exited_tasks s t p code w.after in
    let at_t : gone.tasks t ≡ ended code (s.tasks t) =
      change_other (change s t (ended code)) p (bereaved t) t (λ same. c (sym same))
      ∙ change_same s t (ended code) in
    let at_p : (gone.tasks p).terminated_children ≡ t ∷ [] =
      ap (λ (x : Task). x.terminated_children)
        (change_same (change s t (ended code)) p (bereaved t)
          ∙ ap (bereaved t) (change_other s t (ended code) p c))
      ∙ ap (λ k. k ++ t ∷ []) f in
    let kids = ap (λ (x : Task). x.active_children) at_t ∙ g in
    let none_over = ap (λ (x : Task). x.terminated_children) at_t ∙ h in
    let waited = wait_lem fuel gone p t i [] m hi b c at_p kids none_over n in
    let end = adopted (change gone p (λ x. record x { terminated_children = [] })) t i m in
    (
      gone,
      end,
      exits,
      waited ∙ ap (λ (x : Task). ok (reaped end x.pid x.error_code)) at_t,
      ap (λ (x : Task). x.terminated_children)
          (change_same gone p (λ x. record x { terminated_children = [] })),
      refl,
    )
