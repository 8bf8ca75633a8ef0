-- ===== src/Tasks/Calls.antt =====
-- File descriptors, signals, exit and wait of proc/Task.cc, with the default handlers of proc/Signal.cc.
use valkyrie.Base.{
  ℕ, zero, suc, ◌+◌, ◌-◌, ◌^◌, List, [], ◌∷◌, ◌++◌, length, Bool, not, ◌&&◌, Option, none, some,
  ltb, ◌==◌, if◌then◌else◌,
}
use valkyrie.Base.Maps.{update}
use valkyrie.Base.Outcome.{Outcome, ok, panic, ◌>>=◌}
use valkyrie.TaskScheduler.{terminated, set_state, remove_task, schedule}
use valkyrie.Tasks.{Task, Tasks, change, destroy, get_by_pid}

-- NR_TASK_FD_LIMITS
abbrev pub fd_limits : ℕ
fd_limits = 16

unfoldable pub is_fd_valid : ℕ → Bool
is_fd_valid fd = ltb fd (2 ^ 31) && ltb fd fd_limits

abbrev pub set_fd : ℕ → Option ℕ → Task → Task
set_fd fd file x = record x { fd_table = update x.fd_table fd file }

-- The loop from `i` on, with `n` rounds to go.
unfoldable pub first_free : ℕ → ℕ → (ℕ → Option ℕ) → Option ℕ
first_free zero i table = none
first_free (suc n) i table =
    let rest = first_free n (i + 1) table in elim (table i) [ none ↦ some i | some _ ↦ rest ]

-- The descriptor, where `none` is the result -1.
unfoldable pub allocate_fd_for_file : Tasks → ℕ → Option ℕ → Outcome (Tasks × Option ℕ)
allocate_fd_for_file s t none = panic
allocate_fd_for_file s t (some file) = elim (first_free fd_limits 0 (s.tasks t).fd_table) [
  | none ↦ ok (s, none)
  | some i ↦ ok (change s t (set_fd i (some file)), some i)
]

unfoldable pub release_fd_and_get_file : Tasks → ℕ → ℕ → Tasks × Option ℕ
release_fd_and_get_file s t fd =
    if is_fd_valid fd then (change s t (set_fd fd none), (s.tasks t).fd_table fd) else (s, none)

unfoldable pub get_file_by_fd : Tasks → ℕ → ℕ → Option ℕ
get_file_by_fd s t fd = if is_fd_valid fd then (s.tasks t).fd_table fd else none

-- What `sys_close` does to the current task.
unfoldable pub sys_close : Tasks → ℕ → Tasks
sys_close s fd = (release_fd_and_get_file s s.scheduler.current fd).0

-- `for (int i = 3; i < NR_TASK_FD_LIMITS; i++)` of `exit`, from `i` on, with `n` rounds to go.
unfoldable pub close_fds : ℕ → ℕ → Tasks → ℕ → Tasks
close_fds zero i s t = s
close_fds (suc n) i s t = elim ((s.tasks t).fd_table i) [
  | none ↦ close_fds n (i + 1) s t
  | some _ ↦ close_fds n (i + 1) (sys_close s i) t
]

-- `List::remove`: the first one that is equal.
unfoldable pub remove : ℕ → List ℕ → List ℕ
remove t [] = []
remove t (x ∷ l) = let rest = remove t l in if x == t then l else x ∷ rest

-- `exit` from `_parent->_active_children.remove(this)` on, up to the switch to the next task.
unfoldable pub leave : Tasks → ℕ → ℕ → Outcome Tasks
leave s t p =
    let left = change s p (λ x. record x { active_children = remove t x.active_children }) in
    let kept =
      change left p (λ x. record x { terminated_children = x.terminated_children ++ t ∷ [] }) in
    remove_task left.scheduler t >>= λ removed.
    schedule removed >>= λ switched. ok (record kept { scheduler = switched })

unfoldable pub exit : Tasks → ℕ → ℕ → Outcome Tasks
exit s t error_code =
    let over = record s { scheduler = set_state s.scheduler t terminated } in
    let coded = change over t (λ x. record x { error_code = error_code }) in
    elim (s.tasks t).parent [
      | none ↦ panic
      | some p ↦ leave (close_fds (fd_limits - 3) 3 coded t) t p
    ]

-- What `wait` comes to: -1, another round after the other tasks have run, or a child's pid and code.
pub data Wait : Type 0 where
  no_children : Wait
  suspended : Tasks → Wait
  reaped : Tasks → ℕ → ℕ → Wait

-- `while (_terminated_children.empty())`, one round, and what follows it.
unfoldable pub wait_loop : ℕ → Tasks → ℕ → Outcome Wait
wait_loop fuel s t = elim (s.tasks t).terminated_children [
  | [] ↦ do switched ← schedule s.scheduler; ok (suspended (record s { scheduler = switched }))
  | child ∷ l ↦ do
    rest ← destroy fuel (change s t (λ x. record x { terminated_children = l })) (child ∷ [])
    ok (reaped rest (s.tasks child).pid (s.tasks child).error_code)
]

unfoldable pub wait : ℕ → Tasks → ℕ → Outcome Wait
wait fuel s t =
    if length (s.tasks t).active_children + length (s.tasks t).terminated_children == 0
    then ok no_children
    else wait_loop fuel s t

-- `Signal`
abbrev pub sigkill : ℕ
sigkill = 9

abbrev pub sigsegv : ℕ
sigsegv = 11

abbrev pub nr_signals : ℕ
nr_signals = 12

unfoldable pub is_signal_valid : ℕ → Bool
is_signal_valid sig = ltb sig (2 ^ 31) && ltb sig nr_signals

-- The result is 0 or, where it is `none`, -1.
unfoldable pub kill : ℕ → Tasks → ℕ → ℕ → ℕ → Outcome (Option Tasks)
kill fuel s t pid sig =
    if not (is_signal_valid sig)
    then ok none
    else (if pid == (s.tasks t).pid then ok (some t) else get_by_pid fuel s pid) >>= λ task.
        elim task [
          | none ↦ ok none
          | some k ↦ ok (
              some (change s k (λ x. record x { pending_signals = x.pending_signals ++ sig ∷ [] })))
        ]

unfoldable pub signal : Tasks → ℕ → ℕ → ℕ → Option Tasks
signal s t sig handler =
    if not (is_signal_valid sig)
    then none
    else some (
        change s t
          (λ x. record x { custom_signal_handlers = update x.custom_signal_handlers sig handler }))

-- A handler returns, or it ends the current task.
pub data Handled : Type 0 where
  returned exited : Tasks → Handled

-- `__default_signal_handler_table`
unfoldable pub execute_default_signal_handler : Tasks → ℕ → Outcome Handled
execute_default_signal_handler s sig =
    if sig == sigkill
    then (exit s s.scheduler.current sigkill >>= λ e. ok (exited e))
    else if sig == sigsegv
    then (exit s s.scheduler.current 139 >>= λ e. ok (exited e))
    else ok (returned s)

-- `while (!_pending_signals.empty())`, for the pending signals of the list.
unfoldable pub handle : List ℕ → Tasks → ℕ → Outcome Handled
handle [] s t = ok (returned s)
handle (sig ∷ l) s t =
    let popped = change s t (λ x. record x { pending_signals = l }) in
    if not (is_signal_valid sig)
    then panic
    else if (popped.tasks t).custom_signal_handlers sig == 0
    then (execute_default_signal_handler popped sig >>= λ r. elim r [
      | returned s' ↦ handle l s' t
      | exited s' ↦ ok (exited s')
    ])
    else panic

unfoldable pub handle_pending_signals : Tasks → ℕ → Outcome Handled
handle_pending_signals s t = handle (s.tasks t).pending_signals s t
