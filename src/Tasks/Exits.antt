-- ===== src/Tasks/Exits.antt =====
-- `exit` and `wait` of proc/Task.cc.
use mathlib.Core.Path.{fun_ext}
use valkyrie.Base.{
  ℕ, zero, suc, ◌+◌, ◌≤◌, ◌<◌, ◌≡◌, refl, sym, ap, ◌∙◌, List, [], ◌∷◌, ◌++◌, true, Option, none,
  some, inl, inr, ◌==◌, ==_refl, arith, Bool-cases, Option-cases,
}
use valkyrie.Base.Maps.{update, fill}
use valkyrie.Base.Outcome.{ok, panic, ◌>>=◌}
use valkyrie.TaskScheduler.{TaskScheduler, terminated, set_state, remove_task, remove_if, schedule}
use valkyrie.TaskScheduler.RoundRobin.{Scheduled, schedule_lem}
use valkyrie.Tasks.{Task, Tasks, change, change_twice, change_ext, change_none}
use valkyrie.Tasks.Calls.{
  fd_limits, is_fd_valid, set_fd, release_fd_and_get_file, sys_close, close_fds, remove, leave,
  exit,
}

sys_close_lem :
    (s : Tasks) (t i : ℕ)
    → s.scheduler.current ≡ t
    → i < fd_limits
    → sys_close s i ≡ change s t (set_fd i none)
unfolding sys_close release_fd_and_get_file is_fd_valid
sys_close_lem s t i e h =
    let v : is_fd_valid i ≡ true = ground arith in
    rw (sys_close, release_fd_and_get_file, v) (ap (λ k. change s k (set_fd i none)) e)

update-none : (f : ℕ → Option ℕ) (i : ℕ) → f i ≡ none → update f i none ≡ f
update-none f i e = fun_ext λ j. elim (Bool-cases (i == j)) [
  | inl same ↦ rw same (sym e ∙ ap f (ground arith))
  | inr other ↦ rw other refl
]

cleared : ℕ → ℕ → Task → Task
cleared i n x = record x { fd_table = fill x.fd_table i n none }

-- The loop empties the entries from `i` on.
close_fds_lem :
    (n i : ℕ) (s : Tasks) (t : ℕ)
    → s.scheduler.current ≡ t
    → i + n ≤ fd_limits
    → close_fds n i s t ≡ change s t (cleared i n)
unfolding close_fds fill cleared
close_fds_lem zero i s t e h = change_none s t
close_fds_lem (suc n) i s t e h =
    let one : i + 1 ≡ suc i = omega arith in
    elim (Option-cases ((s.tasks t).fd_table i)) [
      | inl free ↦
          rw (close_fds, free)
            (close_fds_lem n (i + 1) s t e (omega arith)
              ∙ change_ext s t (cleared (i + 1) n) (cleared i (suc n)) (
                  ap (λ f. record (s.tasks t) { fd_table = f })
                    (ap (λ k. fill (s.tasks t).fd_table k n none) one
                      ∙ ap (λ f. fill f (suc i) n none)
                          (sym (update-none (s.tasks t).fd_table i free)))))
      | inr (file, used) ↦
          rw (close_fds, used)
            (ap (λ (w : Tasks). close_fds n (i + 1) w t) (sys_close_lem s t i e (omega arith))
              ∙ close_fds_lem n (i + 1) (change s t (set_fd i none)) t e (omega arith)
              ∙ change_twice s t (set_fd i none) (cleared (i + 1) n)
              ∙ change_ext s t (λ x. cleared (i + 1) n (set_fd i none x)) (cleared i (suc n))
                  (ap (λ k. cleared k n (set_fd i none (s.tasks t))) one))
    ]

-- What `exit` does to the task itself and to its parent.
abbrev pub ended : ℕ → Task → Task
ended error_code x = record x { error_code = error_code; fd_table = fill x.fd_table 3 13 none }

abbrev pub bereaved : ℕ → Task → Task
bereaved t x = record x {
  active_children = remove t x.active_children;
  terminated_children = x.terminated_children ++ t ∷ [];
}

abbrev pub exited_tasks : Tasks → ℕ → ℕ → ℕ → TaskScheduler → Tasks
exited_tasks s t p error_code scheduler =
    record (change (change s t (ended error_code)) p (bereaved t)) { scheduler = scheduler }

-- The scheduler between the two calls that `exit` makes of it.
abbrev pub without_task : TaskScheduler → ℕ → List ℕ → TaskScheduler
without_task s t l = record (set_state s t terminated) { runqueue = l }

exit_up_to :
    (s : Tasks) (t p code : ℕ)
    → (s.tasks t).parent ≡ some p
    → s.scheduler.current ≡ t
    → exit s t code
      ≡ leave
          (change (record s { scheduler = set_state s.scheduler t terminated }) t (ended code))
          t
          p
unfolding exit cleared
exit_up_to s t p code e c =
    let over = record s { scheduler = set_state s.scheduler t terminated } in
    let f : Task → Task = λ x. record x { error_code = code } in
    ap (λ o. elim o [ none ↦ panic | some q ↦ leave (close_fds 13 3 (change over t f) t) t q ]) e
    ∙ ap (λ w. leave w t p)
        (close_fds_lem 13 3 (change over t f) t c (omega arith)
          ∙ change_twice over t f (cleared 3 13))

leave_lem :
    (s : Tasks) (t p : ℕ) (r w : TaskScheduler)
    → remove_task s.scheduler t ≡ ok r
    → schedule r ≡ ok w
    → leave s t p ≡ ok (record (change s p (bereaved t)) { scheduler = w })
unfolding leave
leave_lem s t p r w e f =
    let g : Task → Task = λ x. record x { active_children = remove t x.active_children } in
    let h : Task → Task = λ x. record x { terminated_children = x.terminated_children ++ t ∷ [] } in
    let kept = change (change s p g) p h in
    ap
      (λ m.
        m >>= λ removed. schedule removed >>= λ switched. ok (record kept { scheduler = switched }))
      e
    ∙ ap (λ m. m >>= λ switched. ok (record kept { scheduler = switched })) f
    ∙ ap (λ (k : Tasks). ok (record k { scheduler = w })) (change_twice s p g h)

remove_first :
    (s : TaskScheduler) (t : ℕ) (l : List ℕ)
    → s.runqueue ≡ t ∷ l
    → remove_task s t ≡ ok (record s { runqueue = l })
unfolding remove_task remove_if
remove_first s t l e =
    ap (λ q. elim (remove_if t q) [ none ↦ panic | some m ↦ ok (record s { runqueue = m }) ]) e
    ∙ rw (==_refl t) refl

-- `exit` of the current task, which is first in the run queue and not alone there, returns to the
-- scheduler: the task has its code and no open file but the three reserved ones, its parent has it
-- among the terminated children in place of the active ones, and another task runs.
pub exit_lem :
    (s : Tasks) (t p a code : ℕ) (l : List ℕ)
    → (s.tasks t).parent ≡ some p
    → s.scheduler.current ≡ t
    → s.scheduler.runqueue ≡ t ∷ a ∷ l
    → (next : ℕ) × (rest : List ℕ) × (next ∷ rest ≡ l ++ a ∷ [])
      × (r : Scheduled
          (without_task s.scheduler t (a ∷ l))
          next
          rest
          (schedule (without_task s.scheduler t (a ∷ l))))
      × (exit s t code ≡ ok (exited_tasks s t p code r.after))
exit_lem s t p a code l e c q =
    let over = record s { scheduler = set_state s.scheduler t terminated } in
    let (next, rest, order, r) = schedule_lem (without_task s.scheduler t (a ∷ l)) a l refl in
    let out = remove_first over.scheduler t (a ∷ l) q in
    (
      next,
      rest,
      order,
      r,
      exit_up_to s t p code e c
          ∙ leave_lem (change over t (ended code)) t p (without_task s.scheduler t (a ∷ l)) r.after
              out r.runs,
    )
