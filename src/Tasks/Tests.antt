-- ===== src/Tasks/Tests.antt =====
-- Runs of proc/Task.cc.
use Prim.{tt}
use valkyrie.Base.{
  ℕ, ◌≡◌, ◌≢◌, refl, List, [], ◌∷◌, ◌++◌, true, false, none, some, ◌⊎◌, ◌==◌, if◌then◌else◌, arith,
}
use valkyrie.Base.Outcome.{ok}
use valkyrie.TaskScheduler.{running}
use valkyrie.Tasks.{Task, Tasks, change, fresh_task, get_by_pid}
use valkyrie.Tasks.Calls.{exit, reaped, wait, returned, handle_pending_signals}
use valkyrie.Tasks.Family.{adopted}
use valkyrie.Tasks.Lookup.{Searched, empty, tree, get_by_pid_lem}
use valkyrie.Tasks.Signals.{Harmless, fatal, fatal_code, ends, pending, handle_pending_signals_lem}
use valkyrie.Tasks.Waits.{exit-wait}

-- 1 is init, 2 its child, 3 the child of 2, and 4 that of 3; 3 runs, and has the signals 5 and 9.
abbrev family : ℕ → Task
family t =
    let x = fresh_task t none 7 in
    if t == 1
    then record x { active_children = 2 ∷ [] }
    else if t == 2
    then record x { parent = some 1; active_children = 3 ∷ [] }
    else if t == 3
    then record x { parent = some 2; active_children = 4 ∷ []; pending_signals = 5 ∷ 9 ∷ [] }
    else record x { parent = some 3 }

abbrev four_tasks : Tasks
four_tasks = record {
  tasks = family;
  scheduler = record {
    need_reschedule = false;
    runqueue = 3 ∷ 1 ∷ 2 ∷ 4 ∷ [];
    tasks = λ _. record { state = running; time_slice = 64 };
    current = 3;
  };
  next_pid = 5;
  init = some 1;
  kthreadd = none;
}

exit-wait_example :
    (gone reaped_from : Tasks) × (exit four_tasks 3 8 ≡ ok gone)
    × (wait 3 gone 2 ≡ ok (reaped reaped_from 3 8))
    × ((reaped_from.tasks 2).terminated_children ≡ [])
    × (reaped_from
        ≡ adopted (change gone 2 (λ x. record x { terminated_children = [] })) 3 1 (4 ∷ []))
exit-wait_example =
    exit-wait 2 four_tasks 3 2 1 1 8 (2 ∷ 4 ∷ []) (4 ∷ []) refl (omega arith) (omega arith) refl
      refl refl refl refl refl (omega arith)

get_by_pid_lem_example :
    ((◌≡◌ {A = ℕ} 4 1) × (get_by_pid 4 four_tasks 4 ≡ ok (some 1)))
    ⊎ ((◌≡◌ {A = ℕ} 4 2) × (get_by_pid 4 four_tasks 4 ≡ ok none))
    ⊎ ((◌≢◌ {A = ℕ} 4 1)
        × (◌≢◌ {A = ℕ} 4 2)
        × Searched family 4
            (tree 1 (tree 2 (tree 3 (tree 4 empty empty) empty) empty) empty)
            (get_by_pid 4 four_tasks 4))
get_by_pid_lem_example =
    get_by_pid_lem 4 four_tasks 1 4
      (tree 1 (tree 2 (tree 3 (tree 4 empty empty) empty) empty) empty) refl
      (refl, (refl, (refl, (refl, tt, tt), tt), tt), tt) (omega arith)

handle_pending_signals_lem_example :
    (Harmless (5 ∷ 9 ∷ [])
      × (handle_pending_signals four_tasks 3 ≡ ok (returned (change four_tasks 3 (pending [])))))
    ⊎ ((p : List ℕ) × (sig : ℕ) × (r : List ℕ) × (5 ∷ 9 ∷ [] ≡ p ++ sig ∷ r)
        × Harmless p
        × (fatal sig ≡ true)
        × (handle_pending_signals four_tasks 3
            ≡ ends (exit (change four_tasks 3 (pending r)) 3 (fatal_code sig))))
handle_pending_signals_lem_example =
    handle_pending_signals_lem four_tasks 3 (λ k. refl) (omega arith, (omega arith, tt))
