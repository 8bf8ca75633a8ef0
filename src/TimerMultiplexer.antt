-- ===== src/TimerMultiplexer.antt =====
-- kernel/TimerMultiplexer.cc, and what it uses of kernel/Timer.cc. A callback is its name, and `fired`
-- records the calls of callbacks in their order; a callback that itself adds a timer is left out. The
-- registers of the hardware timer are left out too.
pub mod Laws
mod Tests
use valkyrie.Base.{
  ℕ, zero, suc, ◌+◌, ◌-◌, ◌%◌, ◌^◌, List, [], ◌∷◌, ◌++◌, Bool, true, false, ltb, ◌==◌,
  if◌then◌else◌,
}
use valkyrie.Base.Maps.{update}
use valkyrie.Base.Outcome.{Outcome, ok, hang, ◌>>=◌}
use valkyrie.Deque.{Deque, erase, clear, push_back}

pub record Event : Type 0 where
  pub callback : ℕ
  pub timeout : ℕ

-- An element of a new array.
abbrev pub no_event : Event
no_event = record { callback = 0; timeout = 0 }

pub record ArmCoreTimer : Type 0 where
  pub is_enabled : Bool
  pub jiffies : ℕ

unfoldable pub enable : ArmCoreTimer → ArmCoreTimer
enable t = if t.is_enabled then t else record t { is_enabled = true }

unfoldable pub disable : ArmCoreTimer → ArmCoreTimer
disable t = if t.is_enabled then record t { is_enabled = false } else t

unfoldable pub tick_timer : ArmCoreTimer → ArmCoreTimer
tick_timer t = record t { jiffies = (t.jiffies + 1) % 2 ^ 32 }

pub record TimerMultiplexer : Type 0 where
  pub arm_core_timer : ArmCoreTimer
  pub events : Deque Event
  pub fired : List ℕ

-- `if (ev.timeout-- == 0) { ev.callback(); _events.erase(i--); }`, and the index after it.
unfoldable pub tick_event : TimerMultiplexer → ℕ → TimerMultiplexer × ℕ
tick_event m i =
    let ev = m.events.cells i in
    let less = record m.events {
      cells = update m.events.cells i (record ev { timeout = (ev.timeout + 2 ^ 32 - 1) % 2 ^ 32 });
    } in
    if ev.timeout == 0
    then (
      record m { events = erase no_event less i; fired = m.fired ++ ev.callback ∷ [] },
      (i + 2 ^ 64 - 1) % 2 ^ 64,
    )
    else (record m { events = less }, i)

-- `if (_events.empty()) { _events.clear(); _arm_core_timer.disable(); }`
unfoldable pub stop_if_empty : TimerMultiplexer → TimerMultiplexer
stop_if_empty m =
    if m.events.size == 0
    then record m { events = clear no_event m.events; arm_core_timer = disable m.arm_core_timer }
    else m

unfoldable pub tick_loop : ℕ → TimerMultiplexer → ℕ → Outcome TimerMultiplexer
tick_loop zero m i = hang
tick_loop (suc fuel) m i =
    let (ticked, j) = tick_event m i in
    let rest = tick_loop fuel (stop_if_empty ticked) ((j + 1) % 2 ^ 64) in
    if ltb i m.events.size then rest else ok m

-- Each round leaves one event less to look at.
unfoldable pub tick : TimerMultiplexer → Outcome TimerMultiplexer
tick m =
    let started = record m { arm_core_timer = tick_timer m.arm_core_timer } in
    tick_loop (m.events.size + 1) started 0

unfoldable pub add_timer : TimerMultiplexer → ℕ → ℕ → Outcome TimerMultiplexer
add_timer m callback timeout = do
  events ← push_back no_event m.events (record { callback = callback; timeout = timeout })
  ok (record m { events = events; arm_core_timer = enable m.arm_core_timer })
