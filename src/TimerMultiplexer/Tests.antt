-- ===== src/TimerMultiplexer/Tests.antt =====
-- Runs of the timer multiplexer at single inputs.
use Prim.{tt}
use valkyrie.Base.{
  ◌+◌, ◌%◌, ◌^◌, ◌≡◌, refl, arith, [], ◌∷◌, ◌++◌, length, ◌==◌, if◌then◌else◌, true, false,
}
use valkyrie.Base.Outcome.{ok}
use valkyrie.Deque.Contents.{Holds}
use valkyrie.TimerMultiplexer.{Event, TimerMultiplexer, tick, no_event}
use valkyrie.TimerMultiplexer.Laws.{waiting, due, tick-Ticked}

abbrev now : Event
now = record { callback = 7; timeout = 0 }

abbrev later : Event
later = record { callback = 8; timeout = 5 }

-- One event that is due, and one that is not.
abbrev two_events : TimerMultiplexer
two_events = record {
  arm_core_timer = record { is_enabled = true; jiffies = 41 };
  events = record {
    cells = λ i. if i == 0 then now else if i == 1 then later else no_event;
    size = 2;
    capacity = 4;
  };
  fired = [];
}

two_events-Holds : Holds two_events.events (now ∷ later ∷ [])
two_events-Holds = record {
  valid = record { fits = omega arith; least = omega arith; small = omega arith };
  size = refl;
  at = (refl, (refl, tt));
}

tick-Ticked_example :
    (after : TimerMultiplexer) × (tick two_events ≡ ok after)
    × Holds after.events (waiting (now ∷ later ∷ []))
    × (after.fired ≡ two_events.fired ++ due (now ∷ later ∷ []))
    × (after.arm_core_timer.jiffies ≡ (two_events.arm_core_timer.jiffies + 1) % 2 ^ 32)
    × (after.arm_core_timer.is_enabled ≡ (
        if length (now ∷ later ∷ []) == 0
        then two_events.arm_core_timer.is_enabled
        else if length (waiting (now ∷ later ∷ [])) == 0
        then false
        else two_events.arm_core_timer.is_enabled))
tick-Ticked_example =
    tick-Ticked two_events (now ∷ later ∷ []) two_events-Holds (omega arith, (omega arith, tt))
