-- ===== src/TaskScheduler/Tests.antt =====
-- Runs of the task scheduler at single inputs.
use valkyrie.Base.{ℕ, ◌≡◌, refl, List, [], ◌∷◌, ◌++◌, leb, suc, true, false}
use valkyrie.Base.Outcome.{ok}
use valkyrie.TaskScheduler.{TaskScheduler, sleeping, schedule}
use valkyrie.TaskScheduler.RoundRobin.{Scheduled, schedule_lem, schedules, schedules_round}
use valkyrie.TaskScheduler.Slices.{ticks, ticks_lem}

-- Four tasks; the first is current, and has a whole slice.
abbrev four_tasks : TaskScheduler
four_tasks = record {
  need_reschedule = false;
  runqueue = 1 ∷ 2 ∷ 3 ∷ 4 ∷ [];
  tasks = λ t. record { state = sleeping; time_slice = 64 };
  current = 1;
}

abbrev after_first : List ℕ
after_first = 2 ∷ 3 ∷ 4 ∷ []

abbrev between : List ℕ
between = 2 ∷ []

abbrev last_task : List ℕ
last_task = 4 ∷ []

schedule_lem_example :
    (next : ℕ) × (rest : List ℕ) × (next ∷ rest ≡ after_first ++ 1 ∷ [])
    × Scheduled four_tasks next rest (schedule four_tasks)
schedule_lem_example = schedule_lem four_tasks 1 after_first refl

schedules_round_example :
    (after : TaskScheduler) × (schedules 2 four_tasks ≡ ok after)
    × (after.current ≡ 3)
    × (after.runqueue ≡ 3 ∷ last_task ++ 1 ∷ between)
schedules_round_example = schedules_round four_tasks 1 3 between last_task refl

ticks_lem_example :
    ((ticks (suc 63) four_tasks).need_reschedule ≡ leb 64 (suc 63))
    × ((ticks (suc 63) four_tasks).current ≡ 1)
    × ((ticks (suc 63) four_tasks).runqueue ≡ four_tasks.runqueue)
ticks_lem_example = ticks_lem four_tasks 63 64 refl refl

-- The first task's slice has expired_slice.
abbrev expired_slice : TaskScheduler
expired_slice = record four_tasks { need_reschedule = true }
