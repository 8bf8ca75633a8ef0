-- ===== src/LinkedList.antt =====
-- include/lib/List.h. A node is its address, and 0 is null. The nodes form a ring through the node
-- `head`, which holds no value. Walks run on fuel.
pub mod Rings
pub mod Ends
pub mod Pushes
pub mod Removals
mod Tests
use valkyrie.Base.{
  ℕ, zero, suc, ◌+◌, ◌-◌, ◌%◌, ◌^◌, Bool, true, false, not, ◌&&◌, Option, none, some, ◌==◌,
  if◌then◌else◌,
}
use valkyrie.Base.Maps.{update}
use valkyrie.Base.Outcome.{Outcome, ok, fault, hang, ◌>>=◌}

pub record LinkedList (A : Type 0) : Type 0 where
  pub next : ℕ → ℕ
  pub prev : ℕ → ℕ
  pub value : ℕ → A
  pub head : ℕ
  pub size : ℕ
  pub fresh : ℕ

module _ {A : Type 0} where
  -- `Node(U &&val)`
  abbrev pub new_node : LinkedList A → A → LinkedList A
  new_node l v = record l {
    next = update l.next l.fresh 0;
    prev = update l.prev l.fresh 0;
    value = update l.value l.fresh v;
    fresh = suc l.fresh;
  }

  unfoldable pub is_list_add_valid : LinkedList A → ℕ → ℕ → ℕ → Bool
  is_list_add_valid l x p n = (l.prev n == p) && (l.next p == n) && not (x == p) && not (x == n)

  unfoldable pub list_add : LinkedList A → ℕ → ℕ → ℕ → LinkedList A
  list_add l x p n = if not (is_list_add_valid l x p n) then l else record l {
    prev = update (update l.prev n x) x p;
    next = update (update l.next x n) p x;
    size = (l.size + 1) % 2 ^ 64;
  }

  unfoldable pub is_list_del_entry_valid : LinkedList A → ℕ → Bool
  is_list_del_entry_valid l e = (l.next (l.prev e) == e) && (l.prev (l.next e) == e)

  unfoldable pub list_del : LinkedList A → ℕ → ℕ → LinkedList A
  list_del l p n = record l { prev = update l.prev n p; next = update l.next p n }

  unfoldable pub list_del_entry : LinkedList A → ℕ → LinkedList A
  list_del_entry l e =
      let apart = list_del l (l.prev e) (l.next e) in
      if not (is_list_del_entry_valid l e) then l else record apart {
        prev = update apart.prev e 0;
        next = update apart.next e 0;
        size = (l.size + (2 ^ 64 - 1)) % 2 ^ 64;
      }

  unfoldable pub push_back : LinkedList A → A → LinkedList A
  push_back l v = let made = new_node l v in list_add made l.fresh (made.prev l.head) l.head

  unfoldable pub push_front : LinkedList A → A → LinkedList A
  push_front l v = let made = new_node l v in list_add made l.fresh l.head (made.next l.head)

  unfoldable pub pop_back : LinkedList A → LinkedList A
  pop_back l = list_del_entry l (l.prev l.head)

  unfoldable pub pop_front : LinkedList A → LinkedList A
  pop_front l = list_del_entry l (l.next l.head)

  -- `while (index--) node = node->next;`
  unfoldable pub forward : LinkedList A → ℕ → ℕ → ℕ
  forward l node zero = node
  forward l node (suc index) = forward l (l.next node) index

  unfoldable pub erase : LinkedList A → ℕ → LinkedList A
  erase l index = list_del_entry l (forward l (l.next l.head) index)

  -- The first node from `node` on whose value passes the test.
  unfoldable pub find_node : ℕ → LinkedList A → (A → Bool) → ℕ → Outcome (Option ℕ)
  find_node zero l test node = hang
  find_node (suc fuel) l test node =
      let rest = find_node fuel l test (l.next node) in
      if node == l.head then ok none else if test (l.value node) then ok (some node) else rest

  -- `remove`, for the test `node->data == val`.
  unfoldable pub remove : ℕ → LinkedList A → (A → Bool) → Outcome (LinkedList A)
  remove fuel l test = find_node fuel l test (l.next l.head) >>= λ r.
      ok (elim r [ none ↦ l | some node ↦ list_del_entry l node ])

  -- With `check_all` the loop goes on from the node that it has deleted.
  unfoldable pub remove_if : ℕ → LinkedList A → (A → Bool) → Bool → Outcome (LinkedList A)
  remove_if fuel l test check_all = find_node fuel l test (l.next l.head) >>= λ r. elim r [
    | none ↦ ok l
    | some node ↦ if check_all then fault else ok (list_del_entry l node)
  ]

  unfoldable pub is_empty : LinkedList A → Bool
  is_empty l = l.next l.head == l.head

  unfoldable pub front : LinkedList A → A
  front l = l.value (l.next l.head)

  unfoldable pub back : LinkedList A → A
  back l = l.value (l.prev l.head)

  -- `while (!empty())`
  unfoldable pub clear : ℕ → LinkedList A → Outcome (LinkedList A)
  clear zero l = if is_empty l then ok l else hang
  clear (suc fuel) l = let rest = clear fuel (pop_front l) in if is_empty l then ok l else rest
