-- ===== src/Tasks/Signals.antt =====
-- How a task handles the signals that are pending, with the default handlers.
use Prim.{Unit, tt}
use valkyrie.Base.{
  ℕ, ◌<◌, ◌≡◌, refl, ap, ◌∙◌, List, [], ◌∷◌, ◌++◌, Bool, true, false, ◌||◌, ◌⊎◌, inl, inr, ◌==◌,
  if◌then◌else◌, arith, Bool-cases,
}
use valkyrie.Base.Outcome.{Outcome, ok, ◌>>=◌, >>=_assoc}
use valkyrie.Tasks.{Task, Tasks, change, change_same, change_none, change_ext, change_twice}
use valkyrie.Tasks.Calls.{
  sigkill, sigsegv, nr_signals, is_signal_valid, exit, Handled, returned, exited,
  execute_default_signal_handler, handle, handle_pending_signals,
}

abbrev pub fatal : ℕ → Bool
fatal sig = (sig == sigkill) || (sig == sigsegv)

-- The code with which the default handler of a fatal signal ends the task.
abbrev pub fatal_code : ℕ → ℕ
fatal_code sig = if sig == sigkill then sigkill else 139

abbrev pub AllValid : List ℕ → Type 0
AllValid [] = Unit
AllValid (x ∷ l) = (x < nr_signals) × AllValid l

abbrev pub Harmless : List ℕ → Type 0
Harmless [] = Unit
Harmless (x ∷ l) = (fatal x ≡ false) × Harmless l

abbrev pub pending : List ℕ → Task → Task
pending l x = record x { pending_signals = l }

abbrev pub ends : Outcome Tasks → Outcome Handled
ends m = m >>= λ e. ok (exited e)

handle_harmless :
    (sig : ℕ) (l : List ℕ) (s : Tasks) (t : ℕ)
    → ((k : ℕ) → (s.tasks t).custom_signal_handlers k ≡ 0)
    → sig < nr_signals
    → fatal sig ≡ false
    → handle (sig ∷ l) s t ≡ handle l (change s t (pending l)) t
unfolding handle execute_default_signal_handler is_signal_valid
handle_harmless sig l s t c v f =
    let valid : is_signal_valid sig ≡ true = ground arith in
    let k : (sig == sigkill) ≡ false = ground arith in
    let g : (sig == sigsegv) ≡ false = ground arith in
    let none_set : ((change s t (pending l)).tasks t).custom_signal_handlers sig ≡ 0 =
      ap (λ (x : Task). x.custom_signal_handlers sig) (change_same s t (pending l)) ∙ c sig in
    rw (handle, valid, none_set, k, g) refl

handle-fatal :
    (sig : ℕ) (l : List ℕ) (s : Tasks) (t : ℕ)
    → ((k : ℕ) → (s.tasks t).custom_signal_handlers k ≡ 0)
    → fatal sig ≡ true
    → handle (sig ∷ l) s t
      ≡ ends (exit (change s t (pending l)) s.scheduler.current (fatal_code sig))
unfolding handle execute_default_signal_handler is_signal_valid
handle-fatal sig l s t c f =
    let valid : is_signal_valid sig ≡ true = ground arith in
    let none_set : ((change s t (pending l)).tasks t).custom_signal_handlers sig ≡ 0 =
      ap (λ (x : Task). x.custom_signal_handlers sig) (change_same s t (pending l)) ∙ c sig in
    let popped = change s t (pending l) in
    let next : Handled → Outcome Handled =
      λ r. elim r [ returned s' ↦ handle l s' t | exited s' ↦ ok (exited s') ] in
    elim (Bool-cases (sig == sigkill)) [
      | inl k ↦
          rw (handle, valid, none_set, k)
            (>>=_assoc (exit popped s.scheduler.current sigkill) (λ e. ok (exited e)) next)
      | inr k ↦
          let g : (sig == sigsegv) ≡ true = ground arith in
          rw (handle, valid, none_set, k, g)
            (>>=_assoc (exit popped s.scheduler.current 139) (λ e. ok (exited e)) next)
    ]

pub handle_lem :
    (l : List ℕ) (s : Tasks) (t : ℕ)
    → ((k : ℕ) → (s.tasks t).custom_signal_handlers k ≡ 0)
    → AllValid l
    → (s.tasks t).pending_signals ≡ l
    → (Harmless l × (handle l s t ≡ ok (returned (change s t (pending [])))))
      ⊎ ((p : List ℕ) × (sig : ℕ) × (r : List ℕ) × (l ≡ p ++ sig ∷ r)
          × Harmless p
          × (fatal sig ≡ true)
          × (handle l s t
              ≡ ends (exit (change s t (pending r)) s.scheduler.current (fatal_code sig))))
unfolding handle
handle_lem [] s t c v e = inl (
  tt,
  ap (λ k. ok (returned k))
      (change_none s t
        ∙ change_ext s t (λ x. x) (pending [])
            (ap (λ k. record (s.tasks t) { pending_signals = k }) e)),
)
handle_lem (sig ∷ l) s t c (a, v) e = elim (Bool-cases (fatal sig)) [
  | inl bad ↦ inr ([], sig, l, refl, tt, bad, handle-fatal sig l s t c bad)
  | inr fine ↦
      let first = handle_harmless sig l s t c a fine in
      let after = change s t (pending l) in
      let same = change_same s t (pending l) in
      let c' : (k : ℕ) → (after.tasks t).custom_signal_handlers k ≡ 0 =
        λ k. ap (λ (x : Task). x.custom_signal_handlers k) same ∙ c k in
      elim (handle_lem l after t c' v (ap (λ (x : Task). x.pending_signals) same)) [
        | inl (h, r) ↦ inl (
          (fine, h),
          first ∙ r ∙ ap (λ k. ok (returned k)) (change_twice s t (pending l) (pending [])),
        )
        | inr (p, k, r, split, h, bad, run) ↦ inr (
          sig ∷ p,
          k,
          r,
          ap (λ (m : List ℕ). sig ∷ m) split,
          (fine, h),
          bad,
          first
              ∙ run
              ∙ ap (λ (w : Tasks). ends (exit w s.scheduler.current (fatal_code k)))
                  (change_twice s t (pending l) (pending r)),
        )
      ]
]

-- `handle_pending_signals` of a task without custom handlers, whose pending signals are all valid:
-- it returns with no signal pending and nothing else changed if none is fatal, and otherwise drops
-- those before the first fatal one and ends the current task with that one's code.
pub handle_pending_signals_lem :
    (s : Tasks) (t : ℕ)
    → ((k : ℕ) → (s.tasks t).custom_signal_handlers k ≡ 0)
    → AllValid (s.tasks t).pending_signals
    → (Harmless (s.tasks t).pending_signals
        × (handle_pending_signals s t ≡ ok (returned (change s t (pending [])))))
      ⊎ ((p : List ℕ) × (sig : ℕ) × (r : List ℕ) × ((s.tasks t).pending_signals ≡ p ++ sig ∷ r)
          × Harmless p
          × (fatal sig ≡ true)
          × (handle_pending_signals s t
              ≡ ends (exit (change s t (pending r)) s.scheduler.current (fatal_code sig))))
unfolding handle_pending_signals
handle_pending_signals_lem s t c v = handle_lem (s.tasks t).pending_signals s t c v refl
