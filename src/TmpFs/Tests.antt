-- ===== src/TmpFs/Tests.antt =====
-- A run of fs/TmpFS.cc.
use Prim.{tt}
use valkyrie.Base.{ℕ, ◌≡◌, refl, List, [], ◌∷◌, false, none, some, ◌==◌, if◌then◌else◌, arith}
use valkyrie.CString.Compare.{same_text}
use valkyrie.TmpFs.{TmpFs, create_child, get_child, remove_child, find_name}
use valkyrie.TmpFs.Children.{get_child-create_child}

-- The root 0 with a child 1 that is called `a`.
abbrev small : TmpFs
small = record {
  inodes = λ v. record {
    name = if v == 1 then 97 ∷ [] else 47 ∷ [];
    content = none;
    size = 0;
    mode = 0;
    uid = 0;
    gid = 0;
    parent = 0;
    children = if v == 0 then 1 ∷ [] else [];
  };
  root_inode = 0;
  next_inode_idx = 2;
}

get_child-create_child_example :
    let (g, i) = create_child small 0 (98 ∷ []) none 0 0 0 0 in
    (get_child (λ v. v) g 0 (98 ∷ []) ≡ some i)
    × ((key : List ℕ)
        → same_text (98 ∷ []) key ≡ false
        → get_child (λ v. v) g 0 key ≡ get_child (λ v. v) small 0 key)
    × ((remove_child g 0 (98 ∷ [])).1 ≡ some i)
    × (((remove_child g 0 (98 ∷ [])).0.inodes 0).children ≡ 1 ∷ [])
unfolding find_name
get_child-create_child_example =
    get_child-create_child (λ v. v) small 0 (98 ∷ []) none 0 0 0 0 refl refl refl (omega arith)
      (omega arith, tt)
