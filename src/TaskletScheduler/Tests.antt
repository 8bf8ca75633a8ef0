-- ===== src/TaskletScheduler/Tests.antt =====
-- Runs of the tasklet scheduler at single inputs.
use Prim.{tt}
use valkyrie.Base.{
  ℕ, ◌≡◌, ◌⊎◌, refl, arith, List, [], ◌∷◌, ◌++◌, length, ◌==◌, if◌then◌else◌, none, some,
}
use valkyrie.Base.Outcome.{ok}
use valkyrie.TaskletScheduler.{TaskletScheduler, add_tasklet}
use valkyrie.TaskletScheduler.Laws.{Pending, add_tasklet-Pending}

-- Two tasklets wait.
abbrev two_tasklets : TaskletScheduler
two_tasklets = record {
  tasklet_queue = record {
    cells = λ i. if i == 0 then some 5 else if i == 1 then some 6 else none;
    head = 0;
    tail = 2;
    size = 2;
    capacity = 32;
  };
  handled = [];
}

abbrev waiting_two : List ℕ
waiting_two = 5 ∷ 6 ∷ []

two_tasklets-Pending : Pending two_tasklets waiting_two
two_tasklets-Pending = record {
  capacity = refl;
  head = refl;
  tail = refl;
  size = refl;
  room = omega arith;
  queued = (refl, (refl, tt));
}

add_tasklet-Pending_example :
    (after : TaskletScheduler) × (waiting : List ℕ) × (add_tasklet two_tasklets 7 ≡ ok after)
    × Pending after waiting
    × (after.handled ++ waiting ≡ (two_tasklets.handled ++ waiting_two) ++ 7 ∷ [])
    × ((length waiting_two ≡ 31) ⊎ (after.handled ≡ two_tasklets.handled))
add_tasklet-Pending_example = add_tasklet-Pending two_tasklets waiting_two 7 two_tasklets-Pending
