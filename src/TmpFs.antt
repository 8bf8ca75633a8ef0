-- ===== src/TmpFs.antt =====
-- The directory tree of fs/TmpFS.cc. A vnode is its number, and a name is its list of characters. The
-- number of a new vnode is the one that `VFS::get_next_inode_idx` gives, which stands in the store; what
-- the virtual file system has as the parent of the vnode that hosts this file system is an argument.
pub mod Children
mod Tests
use valkyrie.Base.{
  ℕ, zero, suc, ◌+◌, ◌-◌, Bool, true, false, ◌&&◌, List, [], ◌∷◌, ◌++◌, length, take, Option, none,
  some, ◌==◌, ltb, if◌then◌else◌,
}
use valkyrie.Base.Maps.{update}
use valkyrie.CString.Compare.{same_text}

pub record Inode : Type 0 where
  pub name : List ℕ
  pub content : Option (List ℕ)
  pub size : ℕ
  pub mode : ℕ
  pub uid : ℕ
  pub gid : ℕ
  pub parent : ℕ
  pub children : List ℕ

pub record TmpFs : Type 0 where
  pub inodes : ℕ → Inode
  pub root_inode : ℕ
  pub next_inode_idx : ℕ

abbrev pub set_children : TmpFs → ℕ → List ℕ → TmpFs
set_children f v l = record f { inodes = update f.inodes v (record (f.inodes v) { children = l }) }

-- `TmpFSInode::TmpFSInode`; the content of `size` bytes is copied if there is one.
unfoldable pub new_inode : ℕ → List ℕ → Option (List ℕ) → ℕ → ℕ → ℕ → ℕ → Inode
new_inode parent name content size mode uid gid = record {
  name = name;
  content = elim content [
    | none ↦ none
    | some bytes ↦ if ltb 0 size then some (take size bytes) else none
  ];
  size = size;
  mode = mode;
  uid = uid;
  gid = gid;
  parent = parent;
  children = [];
}

unfoldable pub create_child : TmpFs → ℕ → List ℕ → Option (List ℕ) → ℕ → ℕ → ℕ → ℕ → TmpFs × ℕ
create_child f v name content size mode uid gid =
    let i = f.next_inode_idx in
    let made = record f {
      inodes = update f.inodes i (new_inode v name content size mode uid gid);
      next_inode_idx = suc i;
    } in
    (set_children made v ((made.inodes v).children ++ i ∷ []), i)

unfoldable pub add_child : TmpFs → ℕ → ℕ → TmpFs
add_child f v child = set_children f v ((f.inodes v).children ++ child ∷ [])

-- `find_if` on the children, with the test on the name.
unfoldable pub find_name : TmpFs → List ℕ → List ℕ → Option ℕ
find_name f name [] = none
find_name f name (c ∷ l) =
    let rest = find_name f name l in if same_text (f.inodes c).name name then some c else rest

-- `remove_if` on the children, with the same test.
unfoldable pub without_name : TmpFs → List ℕ → List ℕ → List ℕ
without_name f name [] = []
without_name f name (c ∷ l) =
    let rest = without_name f name l in if same_text (f.inodes c).name name then l else c ∷ rest

unfoldable pub remove_child : TmpFs → ℕ → List ℕ → TmpFs × Option ℕ
remove_child f v name = (
  set_children f v (without_name f name (f.inodes v).children),
  find_name f name (f.inodes v).children,
)

unfoldable pub get_parent : (ℕ → ℕ) → TmpFs → ℕ → ℕ
get_parent host_parent f v =
    if v == f.root_inode then host_parent f.root_inode else (f.inodes v).parent

unfoldable pub get_child : (ℕ → ℕ) → TmpFs → ℕ → List ℕ → Option ℕ
get_child host_parent f v name =
    if same_text name (b'.' ∷ [])
    then some v
    else if same_text name (b'.' ∷ b'.' ∷ [])
    then some (get_parent host_parent f v)
    else find_name f name (f.inodes v).children

-- `for (auto it = ...)` with the iterator at `index`.
unfoldable pub ith_from : ℕ → ℕ → List ℕ → Option ℕ
ith_from i index [] = none
ith_from i index (c ∷ l) =
    let rest = ith_from i (index + 1) l in if 2 + index == i then some c else rest

unfoldable pub get_ith_child : (ℕ → ℕ) → TmpFs → ℕ → ℕ → Option ℕ
get_ith_child host_parent f v i =
    if i == 0
    then some v
    else if i == 1
    then some (get_parent host_parent f v)
    else ith_from i 0 (f.inodes v).children

unfoldable pub get_children_count : TmpFs → ℕ → ℕ
get_children_count f v = 2 + length (f.inodes v).children
