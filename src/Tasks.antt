-- ===== src/Tasks.antt =====
-- proc/Task.cc, include/proc/Task.h, proc/Signal.cc and `sys_close` of kernel/Syscall.cc. A task is its
-- number, which stands for its address, a file is a number, and a handler is its address, where 0 is
-- null. An `int` argument is its 32-bit pattern. Stacks, page tables and names are left out, and so is
-- what the file system does to close a file.
pub mod Family
pub mod Lookup
pub mod Calls
pub mod Descriptors
pub mod Signals
pub mod Exits
pub mod Listing
pub mod Waits
mod Tests
use mathlib.Core.Path.{fun_ext}
use valkyrie.Base.{
  ℕ, zero, suc, ◌+◌, ◌%◌, ◌^◌, List, [], ◌∷◌, ◌++◌, drop, length, Option, none, some, ltb, ◌==◌,
  if◌then◌else◌, ◌≡◌, ◌≢◌, refl, sym, ap, ◌∙◌, inl, inr, Bool, true, false, arith, ==_refl,
  Bool-cases,
}
use valkyrie.Base.Maps.{update}
use valkyrie.Base.Outcome.{Outcome, ok, fault, hang, ◌>>=◌}
use valkyrie.TaskScheduler.{TaskScheduler, State, created, time_slice_length}

-- What proc/TaskScheduler.cc uses of a task, its state and its time slice, stands in `TaskScheduler`.
pub record Task : Type 0 where
  pub pid : ℕ
  pub parent : Option ℕ
  pub active_children : List ℕ
  pub terminated_children : List ℕ
  pub error_code : ℕ
  pub pending_signals : List ℕ
  pub custom_signal_handlers : ℕ → ℕ
  pub fd_table : ℕ → Option ℕ

pub record Tasks : Type 0 where
  pub tasks : ℕ → Task
  pub scheduler : TaskScheduler
  pub next_pid : ℕ
  pub init : Option ℕ
  pub kthreadd : Option ℕ

abbrev pub change : Tasks → ℕ → (Task → Task) → Tasks
change s t f = record s { tasks = update s.tasks t (f (s.tasks t)) }

-- A task after a change of one task.
pub change_lem :
    (s : Tasks) (t : ℕ) (f : Task → Task) (k : ℕ)
    → (change s t f).tasks k ≡ (if t == k then f (s.tasks k) else s.tasks k)
change_lem s t f k = elim (Bool-cases (t == k)) [
  | inl e ↦ rw e (ap (λ j. f (s.tasks j)) (ground arith))
  | inr e ↦ rw e refl
]

pub change_same : (s : Tasks) (t : ℕ) (f : Task → Task) → (change s t f).tasks t ≡ f (s.tasks t)
change_same s t f = rw (==_refl t) refl

pub change_other :
    (s : Tasks) (t : ℕ) (f : Task → Task) (k : ℕ) → t ≢ k → (change s t f).tasks k ≡ s.tasks k
change_other s t f k h = let ne : (t == k) ≡ false = ground arith in rw ne refl

pub change_twice :
    (s : Tasks) (t : ℕ) (f g : Task → Task) → change (change s t f) t g ≡ change s t (λ x. g (f x))
change_twice s t f g =
    ap (λ h. record s { tasks = h })
      (fun_ext λ k.
        change_lem (change s t f) t g k
        ∙ ap (λ y. if t == k then g y else y) (change_lem s t f k)
        ∙ both (t == k) k
        ∙ sym (change_lem s t (λ x. g (f x)) k))
  where
    both :
        (b : Bool) (k : ℕ)
        → (if b
            then g (if b then f (s.tasks k) else s.tasks k)
            else if b
            then f (s.tasks k)
            else s.tasks k)
          ≡ (if b then g (f (s.tasks k)) else s.tasks k)
    both true k = refl
    both false k = refl

pub change_ext :
    (s : Tasks) (t : ℕ) (f g : Task → Task)
    → f (s.tasks t) ≡ g (s.tasks t)
    → change s t f ≡ change s t g
change_ext s t f g e = ap (λ v. record s { tasks = update s.tasks t v }) e

pub change_none : (s : Tasks) (t : ℕ) → s ≡ change s t (λ x. x)
change_none s t =
    ap (λ h. record s { tasks = h })
      (fun_ext λ k. sym (change_lem s t (λ x. x) k ∙ same (t == k) k))
  where
    same : (b : Bool) (k : ℕ) → (if b then s.tasks k else s.tasks k) ≡ s.tasks k
    same true k = refl
    same false k = refl

abbrev pub push_child : ℕ → Task → Task
push_child c x = record x { active_children = x.active_children ++ c ∷ [] }

-- The members' initial values, with the reserved descriptors 0, 1 and 2.
abbrev pub fresh_task : ℕ → Option ℕ → ℕ → Task
fresh_task pid parent opened = record {
  pid = pid;
  parent = parent;
  active_children = [];
  terminated_children = [];
  error_code = 0;
  pending_signals = [];
  custom_signal_handlers = λ _. 0;
  fd_table = λ fd. if ltb fd 3 then some opened else none;
}

-- `Task::Task`, for the object at `t`.
unfoldable pub construct : Tasks → ℕ → Option ℕ → ℕ → Tasks
construct s t parent opened =
    let pid = s.next_pid in
    let made = record s {
      tasks = update s.tasks t (fresh_task pid parent opened);
      next_pid = (pid + 1) % 2 ^ 32;
      scheduler = record s.scheduler {
        tasks =
            update s.scheduler.tasks t (record { state = created; time_slice = time_slice_length });
      };
    } in
    let named =
      if pid == 1
      then record made { init = some t }
      else if pid == 2
      then record made { kthreadd = some t }
      else made in
    elim parent [ none ↦ named | some p ↦ change named p (push_child t) ]

-- One round of the loop in `Task::~Task`, for the child in front.
abbrev pub adopt_child : Tasks → ℕ → ℕ → ℕ → Tasks
adopt_child s t i child =
    let pushed = change s i (push_child child) in
    let moved = change pushed child (λ x. record x { parent = some i }) in
    change moved t (λ x. record x { active_children = drop 1 x.active_children })

-- `while (!_active_children.empty())` in `Task::~Task`
unfoldable pub adopt : ℕ → Tasks → ℕ → Outcome Tasks
adopt zero s t = hang
adopt (suc fuel) s t = elim (s.tasks t).active_children [
  | [] ↦ ok s
  | child ∷ _ ↦ elim s.init [ none ↦ fault | some i ↦ adopt fuel (adopt_child s t i child) t ]
]

-- The destructors of the tasks in a list, each with those of its terminated children.
unfoldable pub destroy : ℕ → Tasks → List ℕ → Outcome Tasks
destroy fuel s [] = ok s
destroy zero s (t ∷ l) = hang
destroy (suc fuel) s (t ∷ l) = do
  adopted ← adopt fuel s t
  rest ← destroy fuel adopted (adopted.tasks t).terminated_children
  destroy fuel rest l

-- `find_if([pid](auto t) { return t->_pid == pid; })`
unfoldable pub find_if : (ℕ → Task) → ℕ → List ℕ → Option ℕ
find_if tasks pid [] = none
find_if tasks pid (t ∷ l) =
    let rest = find_if tasks pid l in if (tasks t).pid == pid then some t else rest

-- The inner loops of `get_by_pid` end with the task, or with the queue for the next round.
pub data Search : Type 0 where
  found : ℕ → Search
  next_level : List ℕ → Search

-- `for (size_t i = 0; i < size; i++)`, with `n` rounds to go.
unfoldable pub search_level : (ℕ → Task) → ℕ → ℕ → List ℕ → Outcome Search
search_level tasks pid zero q = ok (next_level q)
search_level tasks pid (suc n) [] = fault
search_level tasks pid (suc n) (t ∷ q) =
    let rest = search_level tasks pid n (q ++ (tasks t).active_children) in
    elim (find_if tasks pid (tasks t).active_children) [ none ↦ rest | some c ↦ ok (found c) ]

-- `while (!q.empty())`
unfoldable pub search : ℕ → (ℕ → Task) → ℕ → List ℕ → Outcome (Option ℕ)
search fuel tasks pid [] = ok none
search zero tasks pid (t ∷ q) = hang
search (suc fuel) tasks pid (t ∷ q) = search_level tasks pid (length (t ∷ q)) (t ∷ q) >>= λ r.
    elim r [ found c ↦ ok (some c) | next_level q' ↦ search fuel tasks pid q' ]

unfoldable pub get_by_pid : ℕ → Tasks → ℕ → Outcome (Option ℕ)
get_by_pid fuel s pid =
    if pid == 1
    then ok s.init
    else if pid == 2
    then ok s.kthreadd
    else elim s.init [ none ↦ fault | some i ↦ search fuel s.tasks pid (i ∷ []) ]

-- `for (size_t i = 0; i < size; i++)` of `get_active_tasks`: what is listed, and the queue.
unfoldable pub list_level :
    (ℕ → Task) → ℕ → List (Option ℕ) → List ℕ → Outcome (List (Option ℕ) × List ℕ)
list_level tasks zero ret q = ok (ret, q)
list_level tasks (suc n) ret [] = fault
list_level tasks (suc n) ret (t ∷ q) =
    list_level tasks n (ret ++ some t ∷ []) (q ++ (tasks t).active_children)

unfoldable pub list_tasks : ℕ → (ℕ → Task) → List (Option ℕ) → List ℕ → Outcome (List (Option ℕ))
list_tasks fuel tasks ret [] = ok ret
list_tasks zero tasks ret (t ∷ q) = hang
list_tasks (suc fuel) tasks ret (t ∷ q) =
    list_level tasks (length (t ∷ q)) ret (t ∷ q) >>= λ r. list_tasks fuel tasks r.0 r.1

unfoldable pub get_active_tasks : ℕ → Tasks → Outcome (List (Option ℕ))
get_active_tasks fuel s = elim s.init [
  | none ↦ fault
  | some i ↦ list_tasks fuel s.tasks (some i ∷ s.kthreadd ∷ []) (i ∷ [])
]
