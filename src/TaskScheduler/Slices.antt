-- ===== src/TaskScheduler/Slices.antt =====
-- Time slices and preemption.
use valkyrie.Base.{
  ℕ, zero, suc, ◌-◌, ◌≡◌, refl, sym, ap, ◌∙◌, List, [], ◌∷◌, ◌++◌, Bool, true, false, ◌||◌, ltb,
  leb, ◌==◌, if◌then◌else◌, arith, Bool-cases, inl, inr, ◌⊎◌, subst, ==_refl,
}
use valkyrie.Base.Outcome.{ok}
use valkyrie.TaskScheduler.{
  TaskScheduler, tick, maybe_schedule, schedule, time_slice_length, set_time_slice,
}
use valkyrie.TaskScheduler.RoundRobin.{Scheduled, schedule_lem}

-- What a number of ticks leave of the scheduler.
record Ticked (s after : TaskScheduler) (left : ℕ) (expired : Bool) : Type 0 where
  need : after.need_reschedule ≡ expired
  slice : (after.tasks s.current).time_slice ≡ left
  current : after.current ≡ s.current
  queue : after.runqueue ≡ s.runqueue

tick-Ticked :
    (s : TaskScheduler) (n : ℕ)
    → (s.tasks s.current).time_slice ≡ n
    → Ticked s (tick s) (n - 1) (s.need_reschedule || leb n 1)
unfolding tick
tick-Ticked s n e =
    let same : (s.current == s.current) ≡ true = ==_refl s.current in
    let less : (if ltb 0 n then n - 1 else n) ≡ n - 1 = ground arith in
    elim (Bool-cases (leb n 1)) [
      | inl y ↦
          let z : leb (n - 1) 0 ≡ true = ground arith in
          rw (tick, same, e, less, z, y)
            (record { need = ground arith; slice = rw same refl; current = refl; queue = refl })
      | inr y ↦
          let z : leb (n - 1) 0 ≡ false = ground arith in
          rw (tick, same, e, less, z, y)
            (record { need = ground arith; slice = rw same refl; current = refl; queue = refl })
    ]

-- `n` ticks.
abbrev pub ticks : ℕ → TaskScheduler → TaskScheduler
ticks zero s = s
ticks (suc n) s = ticks n (tick s)

-- After n > 0 ticks with no reschedule asked for before, the scheduler wants to reschedule exactly if
-- the time slice of the current task was n or less; the same task is current, and the queue is as it
-- was.
pub ticks_lem :
    (s : TaskScheduler) (n slice : ℕ)
    → (s.tasks s.current).time_slice ≡ slice
    → s.need_reschedule ≡ false
    → ((ticks (suc n) s).need_reschedule ≡ leb slice (suc n))
      × ((ticks (suc n) s).current ≡ s.current)
      × ((ticks (suc n) s).runqueue ≡ s.runqueue)
ticks_lem s n slice e f = go n s slice false e f
  where
    go :
        (n : ℕ) (s : TaskScheduler) (slice : ℕ) (before : Bool)
        → (s.tasks s.current).time_slice ≡ slice
        → s.need_reschedule ≡ before
        → ((ticks (suc n) s).need_reschedule ≡ (before || leb slice (suc n)))
          × ((ticks (suc n) s).current ≡ s.current)
          × ((ticks (suc n) s).runqueue ≡ s.runqueue)
    go zero s slice before e f =
        let t = tick-Ticked s slice e in
        (t.need ∙ ap (λ (x : Bool). x || leb slice 1) f, t.current, t.queue)
    go (suc n) s slice before e f =
        let t = tick-Ticked s slice e in
        let r =
          go n (tick s) (slice - 1) (before || leb slice 1)
            (ap (λ (c : ℕ). ((tick s).tasks c).time_slice) t.current ∙ t.slice)
            (t.need ∙ ap (λ (x : Bool). x || leb slice 1) f) in
        (r.0 ∙ ground arith, r.1 ∙ t.current, r.2 ∙ t.queue)

-- `maybe_schedule` without a request does nothing. With one, and tasks in the queue, the request is
-- gone, the current task gets a new slice, and the queue goes round by one.
pub maybe_schedule_lem :
    (s : TaskScheduler) (x : ℕ) (l : List ℕ)
    → s.runqueue ≡ x ∷ l
    → ((s.need_reschedule ≡ false) × (maybe_schedule s ≡ ok s))
      ⊎ ((s.need_reschedule ≡ true)
          × (next : ℕ) × (rest : List ℕ) × (next ∷ rest ≡ l ++ x ∷ [])
          × Scheduled
              (set_time_slice (record s { need_reschedule = false }) s.current time_slice_length)
              next
              rest
              (maybe_schedule s))
unfolding maybe_schedule
maybe_schedule_lem s x l e = elim (Bool-cases s.need_reschedule) [
  | inr no_need ↦ inl (
    no_need,
    ap
        (λ (b : Bool).
          if b
          then schedule
              (set_time_slice (record s { need_reschedule = false }) s.current time_slice_length)
          else ok s)
        no_need,
  )
  | inl wanted ↦
      let (next, rest, turn, r) =
        schedule_lem
          (set_time_slice (record s { need_reschedule = false }) s.current time_slice_length) x l
          e in
      inr (
        wanted,
        next,
        rest,
        turn,
        subst
            (Scheduled
              (set_time_slice (record s { need_reschedule = false }) s.current time_slice_length)
              next rest)
            (sym (
              ap
                (λ (b : Bool).
                  if b
                  then schedule (
                      set_time_slice (record s { need_reschedule = false }) s.current
                        time_slice_length)
                  else ok s)
                wanted))
            r,
      )
]
