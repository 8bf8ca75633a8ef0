-- ===== src/TaskScheduler.antt =====
-- proc/TaskScheduler.cc, and the fields of include/proc/Task.h that it uses. A task is its number, and
-- the run queue is the list of the tasks that it owns, first to last. `switch_to` stands in assembly;
-- what is used of it is that the next task becomes the current one. The calls of the lock are
-- left out: only one of these functions runs at a time.
pub mod Queue
pub mod RoundRobin
pub mod Slices
mod Tests
use valkyrie.Base.{
  ℕ, zero, suc, ◌+◌, ◌-◌, List, [], ◌∷◌, ◌++◌, length, Option, none, some, Bool, true, false, ltb,
  leb, ◌==◌, if◌then◌else◌,
}
use valkyrie.Base.Maps.{update}
use valkyrie.Base.Outcome.{Outcome, ok, panic, fault, ◌>>=◌}

-- TASK_TIME_SLICE
abbrev pub time_slice_length : ℕ
time_slice_length = 64

-- Task::State
pub data State : Type 0 where
  created running sleeping terminated : State

pub record Task : Type 0 where
  pub state : State
  pub time_slice : ℕ

pub record TaskScheduler : Type 0 where
  pub need_reschedule : Bool
  pub runqueue : List ℕ
  pub tasks : ℕ → Task
  pub current : ℕ

abbrev pub set_state : TaskScheduler → ℕ → State → TaskScheduler
set_state s t x = record s { tasks = update s.tasks t (record (s.tasks t) { state = x }) }

abbrev pub set_time_slice : TaskScheduler → ℕ → ℕ → TaskScheduler
set_time_slice s t n = record s { tasks = update s.tasks t (record (s.tasks t) { time_slice = n }) }

abbrev pub switch_to : TaskScheduler → ℕ → TaskScheduler
switch_to s next = record s { current = next }

unfoldable pub run : TaskScheduler → Outcome TaskScheduler
run s = elim s.runqueue [ [] ↦ panic | t ∷ l ↦ ok (switch_to s t) ]

unfoldable pub enqueue_task : TaskScheduler → Option ℕ → Outcome TaskScheduler
enqueue_task s none = panic
enqueue_task s (some t) =
    let ready = set_state s t running in ok (record ready { runqueue = s.runqueue ++ t ∷ [] })

abbrev prepend : ℕ → Option (List ℕ) → Option (List ℕ)
prepend x none = none
prepend x (some l) = some (x ∷ l)

-- `_runqueue.remove_if(...)`: the first match is taken out.
unfoldable pub remove_if : ℕ → List ℕ → Option (List ℕ)
remove_if t [] = none
remove_if t (x ∷ l) = let rest = prepend x (remove_if t l) in if x == t then some l else rest

unfoldable pub remove_task : TaskScheduler → ℕ → Outcome TaskScheduler
remove_task s t = elim (remove_if t s.runqueue) [
  | none ↦ panic
  | some l ↦ ok (record s { runqueue = l })
]

-- `if (_runqueue.size() > 1)`: the first task moves to the end.
unfoldable pub rotate : List ℕ → List ℕ
rotate [] = []
rotate (t ∷ l) = if ltb 1 (length (t ∷ l)) then l ++ t ∷ [] else t ∷ l

-- The task at the front of an empty queue is null.
unfoldable pub schedule : TaskScheduler → Outcome TaskScheduler
schedule s =
    let rotated = record s { runqueue = rotate s.runqueue } in
    let asleep = set_state rotated rotated.current sleeping in
    elim (rotate s.runqueue) [
      | [] ↦ fault
      | next ∷ l ↦ ok (switch_to (set_state asleep next running) next)
    ]

unfoldable pub maybe_schedule : TaskScheduler → Outcome TaskScheduler
maybe_schedule s =
    if s.need_reschedule
    then schedule
        (set_time_slice (record s { need_reschedule = false }) s.current time_slice_length)
    else ok s

-- `Task::tick`, then the test of the slice.
unfoldable pub tick : TaskScheduler → TaskScheduler
tick s =
    let slice = (s.tasks s.current).time_slice in
    let ticked = set_time_slice s s.current (if ltb 0 slice then slice - 1 else slice) in
    if leb (ticked.tasks s.current).time_slice 0
    then record ticked { need_reschedule = true }
    else ticked
