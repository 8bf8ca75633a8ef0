-- ===== src/Tasks/Family.antt =====
-- The tree of tasks of proc/Task.cc: what the constructor and the destructor do to it.
use mathlib.Core.Path.{fun_ext}
use valkyrie.Base.{
  ℕ, zero, suc, ◌<◌, ◌≡◌, ◌≢◌, refl, sym, ap, subst, ◌∙◌, List, [], ◌∷◌, ◌++◌, length, drop,
  append-nil, append_assoc, Bool, true, false, ◌||◌, none, some, inl, inr, ◌==◌, if◌then◌else◌,
  ==_refl, arith, Bool-cases,
}
use valkyrie.Base.Outcome.{ok, fault}
use valkyrie.Tasks.{Task, Tasks, change, push_child, change_lem, adopt, adopt_child}

abbrev pub contains : List ℕ → ℕ → Bool
contains [] k = false
contains (x ∷ l) k = (x == k) || contains l k

-- The task `k` after the tasks of the list, the children of `t`, have become those of `i`.
abbrev pub adopted_task : ℕ → ℕ → List ℕ → ℕ → Task → Task
adopted_task t i l k x = record x {
  parent = if contains l k then some i else x.parent;
  active_children =
      if t == k then [] else if i == k then x.active_children ++ l else x.active_children;
}

abbrev pub adopted : Tasks → ℕ → ℕ → List ℕ → Tasks
adopted s t i l = record s { tasks = λ k. adopted_task t i l k (s.tasks k) }

-- The changes of one round, with the tests as Booleans.
child_task : Bool → Bool → Bool → ℕ → ℕ → Task → Task
child_task at_t at_c at_i i c x =
    let pushed = if at_i then push_child c x else x in
    let moved = if at_c then record pushed { parent = some i } else pushed in
    if at_t then record moved { active_children = drop 1 moved.active_children } else moved

adopt_child_lem :
    (s : Tasks) (t i c k : ℕ)
    → (adopt_child s t i c).tasks k ≡ child_task (t == k) (c == k) (i == k) i c (s.tasks k)
unfolding child_task
adopt_child_lem s t i c k =
    let pushed = change s i (push_child c) in
    let moved = change pushed c (λ x. record x { parent = some i }) in
    let f : Task → Task = λ x. record x { parent = some i } in
    let g : Task → Task = λ x. record x { active_children = drop 1 x.active_children } in
    change_lem moved t g k
    ∙ ap (λ y. if t == k then g y else y)
        (change_lem pushed c f k
          ∙ ap (λ y. if c == k then f y else y) (change_lem s i (push_child c) k))

same_if {ℓ} : {A : Type ℓ} (b : Bool) (a : A) → (if b then a else a) ≡ a
same_if true a = refl
same_if false a = refl

round_task :
    (at_t at_c at_i later : Bool) (i c : ℕ) (l : List ℕ) (x : Task)
    → (at_t ≡ true → at_i ≡ false)
    → let y = child_task at_t at_c at_i i c x in
      (record y {
        parent = if later then some i else y.parent;
        active_children =
            if at_t then [] else if at_i then y.active_children ++ l else y.active_children;
      })
      ≡ (record x {
        parent = if at_c || later then some i else x.parent;
        active_children =
            if at_t then [] else if at_i then x.active_children ++ c ∷ l else x.active_children;
      })
unfolding child_task
round_task true at_c true later i c l x h = absurd (subst (λ b. if b then ℕ else ⊥) (h refl) 0)
round_task true true false later i c l x h =
    ap (λ p. record x { parent = p; active_children = [] }) (same_if later (some i))
round_task true false false later i c l x h = refl
round_task false true true later i c l x h =
    ap (λ p. record x { parent = p; active_children = (x.active_children ++ c ∷ []) ++ l })
      (same_if later (some i))
    ∙ ap (λ a. record x { parent = some i; active_children = a })
        (append_assoc x.active_children (c ∷ []) l)
round_task false true false later i c l x h =
    ap (λ p. record x { parent = p }) (same_if later (some i))
round_task false false true later i c l x h =
    ap (λ a. record x { parent = if later then some i else x.parent; active_children = a })
      (append_assoc x.active_children (c ∷ []) l)
round_task false false false later i c l x h = refl

adopt_round :
    (s : Tasks) (t i c : ℕ) (l : List ℕ)
    → t ≢ i
    → adopted (adopt_child s t i c) t i l ≡ adopted s t i (c ∷ l)
adopt_round s t i c l h =
    ap (λ f. record s { tasks = f })
      (fun_ext λ k.
        ap (adopted_task t i l k) (adopt_child_lem s t i c k)
        ∙ round_task (t == k) (c == k) (i == k) (contains l k) i c l (s.tasks k)
            (λ e. ground arith))

no_child : (t i k : ℕ) (x : Task) → ((t ≡ k) → x.active_children ≡ []) → x ≡ adopted_task t i [] k x
no_child t i k x h = elim (Bool-cases (t == k)) [
  | inl e ↦ rw e (ap (λ a. record x { active_children = a }) (h (ground arith)))
  | inr e ↦ elim (Bool-cases (i == k)) [
    | inl f ↦
        rw (e, f) (ap (λ a. record x { active_children = a }) (sym (append-nil x.active_children)))
    | inr f ↦ rw (e, f) refl
  ]
]

drop_child :
    (b : Bool) (i c : ℕ) (x : Task)
    → (child_task true b false i c x).active_children ≡ drop 1 x.active_children
unfolding child_task
drop_child true i c x = refl
drop_child false i c x = refl

rest_children :
    (s : Tasks) (t i c : ℕ)
    → t ≢ i
    → ((adopt_child s t i c).tasks t).active_children ≡ drop 1 (s.tasks t).active_children
rest_children s t i c h =
    let e : (t == t) ≡ true = ==_refl t in
    let n : (i == t) ≡ false = ground arith in
    ap (λ (x : Task). x.active_children)
      (adopt_child_lem s t i c t
        ∙ ap (λ b. child_task b (c == t) (i == t) i c (s.tasks t)) e
        ∙ ap (λ b. child_task true (c == t) b i c (s.tasks t)) n)
    ∙ drop_child (c == t) i c (s.tasks t)

adopt-suc :
    (fuel : ℕ) (s : Tasks) (t i c : ℕ) (l : List ℕ)
    → s.init ≡ some i
    → (s.tasks t).active_children ≡ c ∷ l
    → adopt (suc fuel) s t ≡ adopt fuel (adopt_child s t i c) t
unfolding adopt
adopt-suc fuel s t i c l a e =
    ap
      (λ k. elim k [
        | [] ↦ ok s
        | child ∷ _ ↦ elim s.init [ none ↦ fault | some i ↦ adopt fuel (adopt_child s t i child) t ]
      ])
      e
    ∙ ap (λ o. elim o [ none ↦ fault | some i ↦ adopt fuel (adopt_child s t i c) t ]) a

-- The loop of the destructor ends, and makes the init task adopt the active children, in their order.
pub adopt_lem :
    (fuel : ℕ) (s : Tasks) (t i : ℕ) (l : List ℕ)
    → s.init ≡ some i
    → t ≢ i
    → (s.tasks t).active_children ≡ l
    → length l < fuel
    → adopt fuel s t ≡ ok (adopted s t i l)
unfolding adopt
adopt_lem zero s t i l a b c h = absurd (omega arith)
adopt_lem (suc fuel) s t i [] a b c h =
    rw (adopt, c)
      (ap ok (
        ap (λ f. record s { tasks = f })
          (fun_ext λ k.
            no_child t i k (s.tasks k) (λ e. ap (λ j. (s.tasks j).active_children) (sym e) ∙ c))))
adopt_lem (suc fuel) s t i (x ∷ l) a b c h =
    let next = rest_children s t i x b ∙ ap (drop 1) c in
    adopt-suc fuel s t i x l a c
    ∙ adopt_lem fuel (adopt_child s t i x) t i l a b next (omega arith)
    ∙ ap ok (adopt_round s t i x l b)
