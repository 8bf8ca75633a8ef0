-- ===== src/TmpFs/Children.antt =====
-- What a directory of fs/TmpFS.cc has after a child is made or removed.
use Prim.{Unit}
use valkyrie.Base.{
  ℕ, zero, suc, ◌+◌, ◌-◌, ◌≤◌, ◌<◌, get_elem?, ◌≡◌, refl, sym, ap, subst, ◌∙◌, true, false, List,
  [], ◌∷◌, ◌++◌, Option, none, some, ◌==◌, if◌then◌else◌, ==_refl, arith, Bool-cases, inl, inr,
}
use valkyrie.Base.Maps.{update}
use valkyrie.CString.Compare.{same_text}
use valkyrie.TmpFs.{
  TmpFs, new_inode, create_child, find_name, without_name, remove_child, get_parent, get_child,
  ith_from, get_ith_child,
}

pub same_text_refl : (l : List ℕ) → same_text l l ≡ true
same_text_refl [] = refl
same_text_refl (x ∷ l) = rw (==_refl x) (same_text_refl l)

-- The vnodes of the list are older than the next one.
abbrev pub Older : ℕ → List ℕ → Type 0
Older n [] = Unit
Older n (x ∷ l) = (x < n) × Older n l

some-none : {x : ℕ} → some x ≡ none → ⊥
some-none e = subst (λ o. elim o [ none ↦ ⊥ | some _ ↦ ℕ ]) e 0

module _ (f : TmpFs) (v : ℕ) (name : List ℕ) (content : Option (List ℕ))
    (size mode uid gid : ℕ) where
  after : TmpFs
  after = (create_child f v name content size mode uid gid).0

  after_children :
      v < f.next_inode_idx
      → (after.inodes v).children ≡ (f.inodes v).children ++ f.next_inode_idx ∷ []
  unfolding after create_child
  after_children h =
      let ne : (f.next_inode_idx == v) ≡ false = ground arith in rw (==_refl v, ne) refl

  after_parent : v < f.next_inode_idx → (after.inodes v).parent ≡ (f.inodes v).parent
  unfolding after create_child
  after_parent h =
      let ne : (f.next_inode_idx == v) ≡ false = ground arith in rw (==_refl v, ne) refl

  after_name : (c : ℕ) → c < f.next_inode_idx → (after.inodes c).name ≡ (f.inodes c).name
  unfolding after create_child
  after_name c h =
      let ne : (f.next_inode_idx == c) ≡ false = ground arith in
      elim (Bool-cases (v == c)) [
        | inl e ↦
            let vc : v ≡ c = ground arith in
            rw e (
              ap
                (λ k.
                  (update f.inodes f.next_inode_idx (new_inode v name content size mode uid gid)
                    k).name)
                vc
              ∙ rw ne refl)
        | inr e ↦ rw (e, ne) refl
      ]

  made_name : v < f.next_inode_idx → (after.inodes f.next_inode_idx).name ≡ name
  unfolding after create_child new_inode
  made_name h =
      let ne : (v == f.next_inode_idx) ≡ false = ground arith in
      rw (ne, ==_refl f.next_inode_idx) refl

  -- Names are looked up as before among the older vnodes.
  after_find :
      (key : List ℕ) (l : List ℕ)
      → Older f.next_inode_idx l
      → find_name after key l ≡ find_name f key l
  unfolding find_name
  after_find key [] o = refl
  after_find key (c ∷ l) (h, o) =
      ap (λ n. if same_text n key then some c else find_name after key l) (after_name c h)
      ∙ ap (λ r. if same_text (f.inodes c).name key then some c else r) (after_find key l o)

  after_without :
      (l : List ℕ)
      → Older f.next_inode_idx l
      → find_name f name l ≡ none
      → v < f.next_inode_idx
      → without_name after name (l ++ f.next_inode_idx ∷ []) ≡ l
  unfolding without_name find_name
  after_without [] o e h =
      ap (λ n. if same_text n name then [] else f.next_inode_idx ∷ []) (made_name h)
      ∙ rw (same_text_refl name) refl
  after_without (c ∷ l) (k, o) e h = elim (Bool-cases (same_text (f.inodes c).name name)) [
    | inl t ↦
        absurd (some-none (subst (λ b. (if b then some c else find_name f name l) ≡ none) t e))
    | inr t ↦
        let e' = subst (λ b. (if b then some c else find_name f name l) ≡ none) t e in
        ap
          (λ n.
            if same_text n name
            then l ++ f.next_inode_idx ∷ []
            else c ∷ without_name after name (l ++ f.next_inode_idx ∷ []))
          (after_name c k)
        ∙ (rw t (ap (λ m. c ∷ m) (after_without l o e' h)))
  ]

find_name-append :
    (f : TmpFs) (key : List ℕ) (l : List ℕ) (c : ℕ)
    → find_name f key (l ++ c ∷ []) ≡ elim (find_name f key l) [
      | none ↦ if same_text (f.inodes c).name key then some c else none
      | some x ↦ some x
    ]
unfolding find_name
find_name-append f key [] c = refl
find_name-append f key (x ∷ l) c = elim (Bool-cases (same_text (f.inodes x).name key)) [
  | inl e ↦ rw (find_name, e) refl
  | inr e ↦ rw (find_name, e) (find_name-append f key l c)
]

same_option : {A : Type 0} (o : Option A) → elim o [ none ↦ none | some x ↦ some x ] ≡ o
same_option none = refl
same_option (some x) = refl

module _ (f : TmpFs) (v : ℕ) (name : List ℕ) (content : Option (List ℕ)) (size mode uid gid : ℕ)
    (h : v < f.next_inode_idx) (o : Older f.next_inode_idx (f.inodes v).children) where
  made : TmpFs
  made = after f v name content size mode uid gid

  -- A lookup after the child is made.
  find_made :
      (key : List ℕ)
      → find_name made key (made.inodes v).children ≡ elim (find_name f key (f.inodes v).children) [
        | none ↦ if same_text name key then some f.next_inode_idx else none
        | some x ↦ some x
      ]
  unfolding made
  find_made key =
      let i = f.next_inode_idx in
      let l = (f.inodes v).children in
      let g = after f v name content size mode uid gid in
      ap (find_name g key) (after_children f v name content size mode uid gid h)
      ∙ find_name-append g key l i
      ∙ ap
          (λ r. elim r [
            | none ↦ if same_text (g.inodes i).name key then some i else none
            | some x ↦ some x
          ])
          (after_find f v name content size mode uid gid key l o)
      ∙ ap
          (λ n. elim (find_name f key l) [
            | none ↦ if same_text n key then some i else none
            | some x ↦ some x
          ])
          (made_name f v name content size mode uid gid h)

  find_new :
      find_name f name (f.inodes v).children ≡ none
      → find_name made name (made.inodes v).children ≡ some f.next_inode_idx
  find_new e =
      find_made name
      ∙ ap
          (λ r. elim r [
            | none ↦ if same_text name name then some f.next_inode_idx else none
            | some x ↦ some x
          ])
          e
      ∙ (rw (same_text_refl name) refl)

  find_old :
      (key : List ℕ)
      → same_text name key ≡ false
      → find_name made key (made.inodes v).children ≡ find_name f key (f.inodes v).children
  find_old key ne =
      find_made key
      ∙ ap
          (λ b. elim (find_name f key (f.inodes v).children) [
            | none ↦ if b then some f.next_inode_idx else none
            | some x ↦ some x
          ])
          ne
      ∙ same_option (find_name f key (f.inodes v).children)

  parent_made : (host_parent : ℕ → ℕ) → get_parent host_parent made v ≡ get_parent host_parent f v
  unfolding get_parent made after create_child
  parent_made host_parent =
      ap (λ p. if v == f.root_inode then host_parent f.root_inode else p)
        (after_parent f v name content size mode uid gid h)

  get_new :
      (host_parent : ℕ → ℕ)
      → same_text name (b'.' ∷ []) ≡ false
      → same_text name (b'.' ∷ b'.' ∷ []) ≡ false
      → find_name f name (f.inodes v).children ≡ none
      → get_child host_parent made v name ≡ some f.next_inode_idx
  unfolding get_child
  get_new host_parent dot dots e = rw (get_child, dot, dots) (find_new e)

  get_old :
      (host_parent : ℕ → ℕ) (key : List ℕ)
      → same_text name key ≡ false
      → get_child host_parent made v key ≡ get_child host_parent f v key
  unfolding get_child
  get_old host_parent key ne =
      ap
        (λ p.
          if same_text key (b'.' ∷ [])
          then some v
          else if same_text key (b'.' ∷ b'.' ∷ [])
          then some p
          else find_name made key (made.inodes v).children)
        (parent_made host_parent)
      ∙ ap
          (λ r.
            if same_text key (b'.' ∷ [])
            then some v
            else if same_text key (b'.' ∷ b'.' ∷ [])
            then some (get_parent host_parent f v)
            else r)
          (find_old key ne)

  removed_children :
      find_name f name (f.inodes v).children ≡ none
      → ((remove_child made v name).0.inodes v).children ≡ (f.inodes v).children
  unfolding remove_child made
  removed_children e = rw (==_refl v) (
      ap (without_name (after f v name content size mode uid gid) name)
        (after_children f v name content size mode uid gid h)
      ∙ after_without f v name content size mode uid gid (f.inodes v).children o e h)

-- A child that is made in a directory where no child has its name, which is neither `.` nor `..`, and
-- which is younger than all children of the directory: it is found under its name, every other name is
-- looked up as before, and removing the name gives the child back and leaves the children of before.
pub get_child-create_child :
    (host_parent : ℕ → ℕ) (f : TmpFs) (v : ℕ) (name : List ℕ) (content : Option (List ℕ))
    (size mode uid gid : ℕ)
    → same_text name (b'.' ∷ []) ≡ false
    → same_text name (b'.' ∷ b'.' ∷ []) ≡ false
    → find_name f name (f.inodes v).children ≡ none
    → v < f.next_inode_idx
    → Older f.next_inode_idx (f.inodes v).children
    → let (g, i) = create_child f v name content size mode uid gid in
      (get_child host_parent g v name ≡ some i)
      × ((key : List ℕ)
          → same_text name key ≡ false
          → get_child host_parent g v key ≡ get_child host_parent f v key)
      × ((remove_child g v name).1 ≡ some i)
      × (((remove_child g v name).0.inodes v).children ≡ (f.inodes v).children)
unfolding create_child after made remove_child
get_child-create_child host_parent f v name content size mode uid gid dot dots e h o = (
  get_new f v name content size mode uid gid h o host_parent dot dots e,
  (λ key ne. get_old f v name content size mode uid gid h o host_parent key ne),
  find_new f v name content size mode uid gid h o e,
  removed_children f v name content size mode uid gid h o e,
)

ith_from_lem :
    (i index : ℕ) (l : List ℕ) → 2 + index ≤ i → ith_from i index l ≡ get_elem? l (i - (2 + index))
unfolding ith_from
ith_from_lem i index [] h = refl
ith_from_lem i index (c ∷ l) h = elim (Bool-cases (2 + index == i)) [
  | inl e ↦
      let z : i - (2 + index) ≡ 0 = ground arith in
      rw (ith_from, e) (sym (ap (get_elem? (c ∷ l)) z))
  | inr e ↦
      let z : i - (2 + index) ≡ suc (i - (2 + (index + 1))) = ground arith in
      rw (ith_from, e)
        (ith_from_lem i (index + 1) l (ground arith) ∙ sym (ap (get_elem? (c ∷ l)) z))
]

-- The children by number: the directory, its parent, and then those that it has.
pub get_ith_child_lem :
    (host_parent : ℕ → ℕ) (f : TmpFs) (v i : ℕ)
    → get_ith_child host_parent f v i
      ≡ get_elem? (v ∷ get_parent host_parent f v ∷ (f.inodes v).children) i
unfolding get_ith_child
get_ith_child_lem host_parent f v zero = refl
get_ith_child_lem host_parent f v (suc zero) = refl
get_ith_child_lem host_parent f v (suc (suc i)) =
    let a : (suc (suc i) == 0) ≡ false = ground arith in
    let b : (suc (suc i) == 1) ≡ false = ground arith in
    let z : suc (suc i) - (2 + 0) ≡ i = omega arith in
    rw (get_ith_child, a, b)
      (ith_from_lem (suc (suc i)) 0 (f.inodes v).children (omega arith)
        ∙ ap (get_elem? (f.inodes v).children) z)
