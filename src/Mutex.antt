-- ===== src/Mutex.antt =====
-- include/lib/Mutex.h, and what it uses of include/kernel/Exception.h: the flag `_is_activated` and the
-- processor's interrupt mask. `_depth` is an `int`, kept as its 32-bit pattern.
pub mod Laws
mod Tests
use valkyrie.Base.{ℕ, ◌+◌, ◌-◌, ◌%◌, ◌^◌, Bool, true, false, leb, ◌==◌, if◌then◌else◌}
use valkyrie.Base.Outcome.{Outcome, ok, hang}

pub record RecursiveMutex : Type 0 where
  pub is_activated : Bool
  pub irqs_enabled : Bool
  pub is_locked : Bool
  pub depth : ℕ

unfoldable pub lock : RecursiveMutex → RecursiveMutex
lock m =
    if m.is_activated
    then record m { irqs_enabled = false; is_locked = true; depth = (m.depth + 1) % 2 ^ 32 }
    else m

-- `if (!--_depth) ...`
unfoldable pub leave : RecursiveMutex → RecursiveMutex
leave m =
    let less = (m.depth + 2 ^ 32 - 1) % 2 ^ 32 in
    if less == 0
    then record m { depth = less; is_locked = false; irqs_enabled = true }
    else record m { depth = less }

-- A negative depth ends in `while (1);`.
unfoldable pub unlock : RecursiveMutex → Outcome RecursiveMutex
unlock m =
    let left = if m.is_activated then leave m else m in
    if leb (2 ^ 31) left.depth then hang else ok left
