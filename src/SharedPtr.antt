-- ===== src/SharedPtr.antt =====
-- include/lib/SharedPtr.h and include/lib/WeakPtr.h, for a class that is not one of EnableSharedFromThis
-- and whose destructor does not touch these pointers. An address is a number, and 0 is null. The counts
-- are taken to stay below 2^31.
pub mod Counts
pub mod Owners
pub mod Releases
pub mod Weak
pub mod Assign
pub mod Runs
mod Tests
use valkyrie.Base.{
  ℕ, suc, ◌+◌, ◌-◌, Bool, true, false, not, ◌&&◌, Option, none, some, ltb, ◌==◌, if◌then◌else◌,
}
use valkyrie.Base.Maps.{update}
use valkyrie.Base.Outcome.{Outcome, ok, fault, ◌>>=◌}

pub record ControlBlock : Type 0 where
  pub p : ℕ
  pub use_count : ℕ
  pub use_count_weak : ℕ

pub record SharedPtr : Type 0 where
  pub ctrl : ℕ
  pub alias : ℕ

pub record WeakPtr : Type 0 where
  pub ctrl : ℕ

-- The control blocks that are allocated, which objects are alive, and the next free address.
pub record Heap : Type 0 where
  pub blocks : ℕ → Option ControlBlock
  pub objects : ℕ → Bool
  pub next : ℕ

abbrev pub set_block : Heap → ℕ → Option ControlBlock → Heap
set_block h c o = record h { blocks = update h.blocks c o }

-- A member access through `_ctrl`.
abbrev pub with_block {ℓ} :
    {A : Type ℓ} → Option ControlBlock → (ControlBlock → Outcome A) → Outcome A
with_block none f = fault
with_block (some b) f = f b

-- `delete p`
unfoldable pub delete_object : Heap → ℕ → Outcome Heap
delete_object h p =
    if p == 0
    then ok h
    else if h.objects p
    then ok (record h { objects = update h.objects p false })
    else fault

unfoldable pub inc_use_count : Heap → ℕ → Outcome Heap
inc_use_count h c =
    if c == 0
    then ok h
    else with_block (h.blocks c)
        λ b. ok (set_block h c (some (record b { use_count = b.use_count + 1 })))

unfoldable pub maybe_delete_p : Heap → ℕ → Outcome Heap
maybe_delete_p h c =
    if c == 0
    then ok h
    else with_block (h.blocks c) λ b.
      if b.use_count == 0
      then (delete_object h b.p >>= λ h'. ok (set_block h' c (some (record b { p = 0 }))))
      else ok h

-- The heap, and what `_ctrl` is then.
unfoldable pub maybe_delete_ctrl_block : Heap → ℕ → Outcome (Heap × ℕ)
maybe_delete_ctrl_block h c =
    if c == 0
    then ok (h, 0)
    else with_block (h.blocks c)
        λ b. if b.use_count + b.use_count_weak == 0 then ok (set_block h c none, 0) else ok (h, c)

unfoldable pub dec_use_count : Heap → ℕ → Outcome (Heap × ℕ)
dec_use_count h c =
    if c == 0
    then ok (h, 0)
    else with_block (h.blocks c) λ b.
      if ltb 0 b.use_count
      then (maybe_delete_p (set_block h c (some (record b { use_count = b.use_count - 1 }))) c
          >>= λ h'. maybe_delete_ctrl_block h' c)
      else ok (h, c)

-- `~SharedPtr`
unfoldable pub destroy : Heap → SharedPtr → Outcome Heap
destroy h s = dec_use_count h s.ctrl >>= λ r. ok r.0

-- `new ControlBlock{p, 1, 0}`
unfoldable pub from_pointer : Heap → ℕ → Heap × SharedPtr
from_pointer h p = (
  record (set_block h h.next (some (record { p = p; use_count = 1; use_count_weak = 0 }))) {
    next = suc h.next;
  },
  record { ctrl = h.next; alias = 0 },
)

unfoldable pub copy : Heap → SharedPtr → Outcome (Heap × SharedPtr)
copy h r = inc_use_count h r.ctrl >>= λ h'. ok (h', r)

-- The aliasing constructor.
unfoldable pub alias_of : Heap → SharedPtr → ℕ → Outcome (Heap × SharedPtr)
alias_of h r alias_ptr =
    inc_use_count h r.ctrl >>= λ h'. ok (h', record { ctrl = r.ctrl; alias = alias_ptr })

-- The temporary takes the old pointer in the swap, all of whose assignments are to a null pointer, and
-- then goes out of scope.
unfoldable pub reset : Heap → SharedPtr → ℕ → Outcome (Heap × SharedPtr)
reset h s p = let (h', made) = from_pointer h p in destroy h' s >>= λ h''. ok (h'', made)

-- `if (_ctrl && _ctrl->use_count > 0) reset();`
unfoldable pub maybe_reset : Heap → SharedPtr → Outcome Heap
maybe_reset h s =
    if s.ctrl == 0
    then ok h
    else with_block (h.blocks s.ctrl)
        λ b. if ltb 0 b.use_count then (reset h s 0 >>= λ r. ok r.0) else ok h

-- The copy assignment of another object.
unfoldable pub copy_assign : Heap → SharedPtr → SharedPtr → Outcome (Heap × SharedPtr)
copy_assign h s r = maybe_reset h s >>= λ h'. copy h' r

-- The move assignment of another object: the two pointers after it.
unfoldable pub move_assign : Heap → SharedPtr → SharedPtr → Outcome (Heap × SharedPtr × SharedPtr)
move_assign h s r = maybe_reset h s >>= λ h'. ok (h', r, record { ctrl = 0; alias = 0 })

unfoldable pub get : Heap → SharedPtr → Outcome ℕ
get h s =
    if not (s.alias == 0)
    then ok s.alias
    else if s.ctrl == 0
    then ok 0
    else with_block (h.blocks s.ctrl) λ b. ok b.p

unfoldable pub use_count_of : Heap → ℕ → Outcome ℕ
use_count_of h c = if c == 0 then ok 0 else with_block (h.blocks c) λ b. ok b.use_count

unfoldable pub inc_use_count_weak : Heap → ℕ → Outcome Heap
inc_use_count_weak h c =
    if c == 0
    then ok h
    else with_block (h.blocks c)
        λ b. ok (set_block h c (some (record b { use_count_weak = b.use_count_weak + 1 })))

unfoldable pub dec_use_count_weak : Heap → ℕ → Outcome (Heap × ℕ)
dec_use_count_weak h c =
    if c == 0
    then ok (h, 0)
    else with_block (h.blocks c) λ b.
      if ltb 0 b.use_count_weak
      then maybe_delete_ctrl_block
          (set_block h c (some (record b { use_count_weak = b.use_count_weak - 1 }))) c
      else ok (h, c)

-- `WeakPtr(const SharedPtr<T> &r)`
unfoldable pub weak_from : Heap → SharedPtr → Outcome (Heap × WeakPtr)
weak_from h r = inc_use_count_weak h r.ctrl >>= λ h'. ok (h', record { ctrl = r.ctrl })

-- `WeakPtr(const WeakPtr &r)`
unfoldable pub weak_copy : Heap → WeakPtr → Outcome (Heap × WeakPtr)
weak_copy h r = inc_use_count_weak h r.ctrl >>= λ h'. ok (h', r)

-- `~WeakPtr`
unfoldable pub weak_destroy : Heap → WeakPtr → Outcome Heap
weak_destroy h w = dec_use_count_weak h w.ctrl >>= λ r. ok r.0

-- `WeakPtr::reset`, which leaves in `_ctrl` what the decrement does.
unfoldable pub weak_reset : Heap → WeakPtr → Outcome (Heap × WeakPtr)
weak_reset h w = dec_use_count_weak h w.ctrl >>= λ r. ok (r.0, record { ctrl = r.1 })

-- The copy assignment of another object.
unfoldable pub weak_assign : Heap → WeakPtr → WeakPtr → Outcome (Heap × WeakPtr)
weak_assign h w r =
    (if w.ctrl == 0
      then ok h
      else with_block (h.blocks w.ctrl)
          λ b. if ltb 0 b.use_count_weak then weak_destroy h w else ok h)
    >>= λ h'. weak_copy h' r

unfoldable pub expired : Heap → WeakPtr → Outcome Bool
expired h w = use_count_of h w.ctrl >>= λ n. ok (n == 0)

unfoldable pub lock : Heap → WeakPtr → Outcome (Heap × SharedPtr)
lock h w = do
  gone ← expired h w
  if gone
      then ok (h, record { ctrl = 0; alias = 0 })
      else (inc_use_count h w.ctrl >>= λ h'. ok (h', record { ctrl = w.ctrl; alias = 0 }))
