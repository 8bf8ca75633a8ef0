-- ===== src/TimerMultiplexer/Laws.antt =====
-- What a tick does to the registered events.
use Prim.{Unit}
use valkyrie.Base.{
  ℕ, zero, suc, ◌+◌, ◌-◌, ◌%◌, ◌^◌, ◌<◌, ◌≡◌, refl, sym, ap, ◌∙◌, subst, List, [], ◌∷◌, ◌++◌,
  length, length-append, append-nil, append_assoc, Bool, true, false, ltb, ◌==◌, if◌then◌else◌,
  arith, Bool-cases, inl, inr,
}
use valkyrie.Base.Maps.{update}
use valkyrie.Base.Outcome.{Outcome, ok}
use valkyrie.Deque.{erase}
use valkyrie.Deque.Contents.{Holds, read-Holds, write-Holds, erase-Holds}
use valkyrie.Deque.Refine.{push_back-Holds, clear-Holds}
use valkyrie.TimerMultiplexer.{
  Event, ArmCoreTimer, TimerMultiplexer, no_event, tick_event, stop_if_empty, tick_loop, tick,
  add_timer, disable, enable, tick_timer,
}

-- The callbacks of the events whose time is up, in their order.
abbrev pub due : List Event → List ℕ
due [] = []
due (e ∷ l) = if e.timeout == 0 then e.callback ∷ due l else due l

-- The events whose time is not up, each one tick nearer.
abbrev pub waiting : List Event → List Event
waiting [] = []
waiting (e ∷ l) =
    if e.timeout == 0 then waiting l else record e { timeout = e.timeout - 1 } ∷ waiting l

-- Every timeout is a `uint32_t`.
abbrev pub AllWords : List Event → Type 0
AllWords [] = Unit
AllWords (e ∷ l) = (e.timeout < 2 ^ 32) × AllWords l

-- What `stop_if_empty` leaves.
record Stopped (m : TimerMultiplexer) (l : List Event) (after : TimerMultiplexer) : Type 0 where
  holds : Holds after.events l
  calls : after.fired ≡ m.fired
  jiffies : after.arm_core_timer.jiffies ≡ m.arm_core_timer.jiffies
  timer :
      after.arm_core_timer.is_enabled
      ≡ (if length l == 0 then false else m.arm_core_timer.is_enabled)

disable_lem :
    (t : ArmCoreTimer) → ((disable t).is_enabled ≡ false) × ((disable t).jiffies ≡ t.jiffies)
unfolding disable
disable_lem t = elim (Bool-cases t.is_enabled) [
  | inl e ↦ rw (e, disable) (refl, refl)
  | inr e ↦ rw (e, disable) (refl, refl)
]

stop_if_empty-Stopped :
    (m : TimerMultiplexer) (l : List Event) → Holds m.events l → Stopped m l (stop_if_empty m)
unfolding stop_if_empty
stop_if_empty-Stopped m [] h =
    let z : (m.events.size == 0) ≡ true = ground (arith, h.size) in
    rw (stop_if_empty, z)
      (record {
        holds = clear-Holds no_event m.events [];
        calls = refl;
        jiffies = (disable_lem m.arm_core_timer).1;
        timer = (disable_lem m.arm_core_timer).0;
      })
stop_if_empty-Stopped m (e ∷ l) h =
    let z : (m.events.size == 0) ≡ false = ground (arith, h.size) in
    let k : (suc (length l) == 0) ≡ false = ground arith in
    rw (stop_if_empty, z) (record { holds = h; calls = refl; jiffies = refl; timer = rw k refl })

-- What the loop leaves, from the events `r` on, the events `p` being done.
pub record Ticked (m : TimerMultiplexer) (p r : List Event) (out : Outcome TimerMultiplexer)
    : Type 0 where
  pub after : TimerMultiplexer
  pub runs : out ≡ ok after
  pub holds : Holds after.events (p ++ waiting r)
  pub calls : after.fired ≡ m.fired ++ due r
  pub jiffies : after.arm_core_timer.jiffies ≡ m.arm_core_timer.jiffies
  pub timer : after.arm_core_timer.is_enabled ≡ (
      if length r == 0
      then m.arm_core_timer.is_enabled
      else if length (p ++ waiting r) == 0
      then false
      else m.arm_core_timer.is_enabled)

-- What one round leaves.
record Round (m : TimerMultiplexer) (p : List Event) (e : Event) (r : List Event) : Type 0 where
  ticked : TimerMultiplexer
  next : ℕ
  done : List Event
  runs : tick_event m (length p) ≡ (ticked, next)
  index : (next + 1) % 2 ^ 64 ≡ length done
  holds : Holds ticked.events (done ++ r)
  calls : ticked.fired ++ due r ≡ m.fired ++ due (e ∷ r)
  same : ticked.arm_core_timer ≡ m.arm_core_timer
  rest : done ++ waiting r ≡ p ++ waiting (e ∷ r)

tick_event-Round :
    (m : TimerMultiplexer) (p : List Event) (e : Event) (r : List Event)
    → Holds m.events (p ++ e ∷ r)
    → e.timeout < 2 ^ 32
    → Round m p e r
unfolding tick_event
tick_event-Round m p e r h w =
    let g = read-Holds no_event m.events p r e h in
    let small = h.valid.small in
    let fits = h.valid.fits in
    elim (Bool-cases (e.timeout == 0)) [
      | inl z ↦
          let set =
            write-Holds no_event m.events p r e
              (record e { timeout = (e.timeout + 2 ^ 32 - 1) % 2 ^ 32 }) h in
          record {
            ticked = record m {
              events =
                  erase no_event
                    (record m.events {
                      cells =
                          update m.events.cells (length p)
                            (record e { timeout = (e.timeout + 2 ^ 32 - 1) % 2 ^ 32 });
                    })
                    (length p);
              fired = m.fired ++ e.callback ∷ [];
            };
            next = (length p + 2 ^ 64 - 1) % 2 ^ 64;
            done = p;
            runs = rw (g.0, z) refl;
            index = omega (arith, g.1);
            holds = erase-Holds no_event _ p r _ set;
            calls = rw z (append_assoc m.fired (e.callback ∷ []) (due r));
            same = refl;
            rest = rw z refl;
          }
      | inr z ↦
          let set =
            write-Holds no_event m.events p r e
              (record e { timeout = (e.timeout + 2 ^ 32 - 1) % 2 ^ 32 }) h in
          let dec : (e.timeout + 2 ^ 32 - 1) % 2 ^ 32 ≡ e.timeout - 1 = ground arith in
          record {
            ticked = record m {
              events = record m.events {
                cells =
                    update m.events.cells (length p)
                      (record e { timeout = (e.timeout + 2 ^ 32 - 1) % 2 ^ 32 });
              };
            };
            next = length p;
            done = p ++ record e { timeout = (e.timeout + 2 ^ 32 - 1) % 2 ^ 32 } ∷ [];
            runs = rw (g.0, z) refl;
            index = omega (
              arith,
              g.1,
              length-append p (record e { timeout = (e.timeout + 2 ^ 32 - 1) % 2 ^ 32 } ∷ []),
            );
            holds =
                subst (Holds _)
                  (sym (
                    append_assoc p (record e { timeout = (e.timeout + 2 ^ 32 - 1) % 2 ^ 32 } ∷ [])
                      r))
                  set;
            calls = rw z refl;
            same = refl;
            rest =
                rw (z, dec)
                  (append_assoc p (record e { timeout = e.timeout - 1 } ∷ []) (waiting r));
          }
    ]

timer_step :
    (before between after : Bool) (done r : List Event)
    → between ≡ (if length (done ++ r) == 0 then false else before)
    → after ≡ (
        if length r == 0
        then between
        else if length (done ++ waiting r) == 0
        then false
        else between)
    → after ≡ (if length (done ++ waiting r) == 0 then false else before)
timer_step before between after done [] s t = t ∙ s
timer_step before between after done (e ∷ r) s t = ground (arith, length-append done (e ∷ r))

nonempty :
    (n : ℕ) (before : Bool) {after later : Bool}
    → after ≡ later
    → after ≡ (if suc n == 0 then before else later)
nonempty n before e = ground arith

tick_loop-Ticked :
    (fuel : ℕ) (m : TimerMultiplexer) (p r : List Event)
    → Holds m.events (p ++ r)
    → AllWords r
    → length r < fuel
    → Ticked m p r (tick_loop fuel m (length p))
unfolding tick_loop
tick_loop-Ticked zero m p r h w f = absurd (omega arith)
tick_loop-Ticked (suc fuel) m p [] h w f =
    let z : ltb (length p) m.events.size ≡ false = ground (arith, h.size, length-append p []) in
    rw z (record {
      after = m;
      runs = refl;
      holds = h;
      calls = sym (append-nil m.fired);
      jiffies = refl;
      timer = refl;
    })
tick_loop-Ticked (suc fuel) m p (e ∷ r) h (small, w) f =
    let o = tick_event-Round m p e r h small in
    let s = stop_if_empty-Stopped o.ticked (o.done ++ r) o.holds in
    let t = tick_loop-Ticked fuel (stop_if_empty o.ticked) o.done r s.holds w (omega arith) in
    let z : ltb (length p) m.events.size ≡ true = ground (arith, h.size, length-append p (e ∷ r)) in
    record {
      after = t.after;
      runs = rw (z, o.runs, o.index) t.runs;
      holds = subst (Holds t.after.events) o.rest t.holds;
      calls = t.calls ∙ ap (λ (l : List ℕ). l ++ due r) s.calls ∙ o.calls;
      jiffies = t.jiffies ∙ s.jiffies ∙ ap (λ (c : ArmCoreTimer). c.jiffies) o.same;
      timer = nonempty (length r) m.arm_core_timer.is_enabled (
          timer_step m.arm_core_timer.is_enabled _ t.after.arm_core_timer.is_enabled o.done r
            (subst
              (λ (c : ArmCoreTimer).
                (stop_if_empty o.ticked).arm_core_timer.is_enabled
                ≡ (if length (o.done ++ r) == 0 then false else c.is_enabled))
              o.same s.timer)
            t.timer
          ∙ ap (λ (l : List Event). if length l == 0 then false else m.arm_core_timer.is_enabled)
              o.rest);
    }

-- A tick returns. The events that are due have been called, in their order, and are gone; the others
-- are one tick nearer, in their order; one jiffy has passed; and the hardware timer has been stopped
-- exactly if there were events and none is left.
pub tick-Ticked :
    (m : TimerMultiplexer) (l : List Event)
    → Holds m.events l
    → AllWords l
    → (after : TimerMultiplexer) × (tick m ≡ ok after)
      × Holds after.events (waiting l)
      × (after.fired ≡ m.fired ++ due l)
      × (after.arm_core_timer.jiffies ≡ (m.arm_core_timer.jiffies + 1) % 2 ^ 32)
      × (after.arm_core_timer.is_enabled ≡ (
          if length l == 0
          then m.arm_core_timer.is_enabled
          else if length (waiting l) == 0
          then false
          else m.arm_core_timer.is_enabled))
unfolding tick tick_timer
tick-Ticked m l h w =
    let t =
      tick_loop-Ticked (m.events.size + 1)
        (record m { arm_core_timer = tick_timer m.arm_core_timer }) [] l h w
        (omega (arith, h.size)) in
    (t.after, t.runs, t.holds, t.calls, t.jiffies, t.timer)

-- Registering an event, below 2^30 cells: it returns, the event stands behind the others, and the
-- hardware timer runs.
pub add_timer_lem :
    (m : TimerMultiplexer) (l : List Event) (callback timeout : ℕ)
    → Holds m.events l
    → m.events.capacity < 2 ^ 30
    → (after : TimerMultiplexer) × (add_timer m callback timeout ≡ ok after)
      × Holds after.events (l ++ record { callback = callback; timeout = timeout } ∷ [])
      × (after.fired ≡ m.fired)
      × (after.arm_core_timer.is_enabled ≡ true)
unfolding add_timer enable
add_timer_lem m l callback timeout h c =
    let (events, runs, holds) =
      push_back-Holds no_event m.events l (record { callback = callback; timeout = timeout }) h c in
    (
      record m { events = events; arm_core_timer = enable m.arm_core_timer },
      rw runs refl,
      holds,
      refl,
      enabled m.arm_core_timer,
    )
  where
    enabled : (t : ArmCoreTimer) → (enable t).is_enabled ≡ true
    enabled t = elim (Bool-cases t.is_enabled) [
      | inl e ↦ rw (e, enable) refl
      | inr e ↦ rw (e, enable) refl
    ]
