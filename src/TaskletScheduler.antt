-- ===== src/TaskletScheduler.antt =====
-- include/kernel/TaskletScheduler.h and Tasklet.h. A tasklet is the name of its handler; a cell of the
-- queue holds a pointer to a tasklet, or null; `handled` records the calls of handlers in their order.
-- A handler that adds a tasklet itself is left out, and so are the messages of `printk`.
pub mod Laws
mod Tests
use valkyrie.Base.{ℕ, zero, suc, ◌+◌, ◌-◌, List, [], ◌∷◌, ◌++◌, Option, none, some, if◌then◌else◌}
use valkyrie.Base.Maps.{update}
use valkyrie.Base.Outcome.{Outcome, ok, fault, ◌>>=◌}
use valkyrie.RingBuffer.{RingBuffer, full, push, clear}

pub record TaskletScheduler : Type 0 where
  pub tasklet_queue : RingBuffer (Option ℕ)
  pub handled : List ℕ

-- `_tasklet_queue[i]->handle(); _tasklet_queue[i].reset();`, from `i` on, with `n` rounds to go.
unfoldable pub handle_loop : ℕ → TaskletScheduler → ℕ → Outcome TaskletScheduler
handle_loop zero s i = ok s
handle_loop (suc n) s i = elim (s.tasklet_queue.cells i) [
  | none ↦ fault
  | some handler ↦
      handle_loop n
        (record {
          tasklet_queue = record s.tasklet_queue { cells = update s.tasklet_queue.cells i none };
          handled = s.handled ++ handler ∷ [];
        })
        (i + 1)
]

unfoldable pub finish_all : TaskletScheduler → Outcome TaskletScheduler
finish_all s = do
  done ← handle_loop s.tasklet_queue.size s 0
  ok (record done { tasklet_queue = clear done.tasklet_queue })

unfoldable pub add_tasklet : TaskletScheduler → ℕ → Outcome TaskletScheduler
add_tasklet s handler = do
  room ← if full s.tasklet_queue then finish_all s else ok s
  ok (record room { tasklet_queue = push room.tasklet_queue (some handler) })
