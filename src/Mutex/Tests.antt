-- ===== src/Mutex/Tests.antt =====
-- Runs of the mutex at single inputs.
use valkyrie.Base.{◌≡◌, refl, true, false, arith}
use valkyrie.Base.Outcome.{ok}
use valkyrie.Mutex.{RecursiveMutex, lock, unlock, leave}
use valkyrie.Mutex.Laws.{guard, done, run, entered, run_lem}

-- In an interrupt handler, whose guards leave interrupts on.
run_lem_example :
    run (guard (guard done done) (guard done done)) (entered false 0) ≡ ok (entered true 0)
run_lem_example = run_lem (guard (guard done done) (guard done done)) false 0 (omega arith)

-- The processor in an interrupt handler.
abbrev in_handler : RecursiveMutex
in_handler = record { is_activated = true; irqs_enabled = false; is_locked = false; depth = 0 }

-- A guard inside the handler leaves interrupts on.
turned_on : unlock (lock in_handler) ≡ ok (record in_handler { irqs_enabled = true })
unfolding lock unlock leave
turned_on = refl
