-- ===== src/Tasks/Lookup.antt =====
-- The searches of the tree of tasks in proc/Task.cc.
use Prim.{Unit}
use valkyrie.Base.{
  ℕ, zero, suc, ◌+◌, ◌≤◌, ◌≡◌, ◌≢◌, refl, sym, ap, subst, ◌∙◌, List, [], ◌∷◌, ◌++◌, length,
  length-append, Option, none, some, ◌⊎◌, inl, inr, ◌==◌, arith, Bool-cases,
}
use valkyrie.Base.Outcome.{Outcome, ok, fault, ◌>>=◌}
use valkyrie.Tasks.{
  Task, Tasks, find_if, Search, found, next_level, search_level, search, get_by_pid,
}

-- A list of trees: the first one's root, the trees below it, and the others.
pub data Forest : Type 0 where
  empty : Forest
  tree : ℕ → Forest → Forest → Forest

abbrev pub join : Forest → Forest → Forest
join empty g = g
join (tree t kids rest) g = tree t kids (join rest g)

abbrev pub size : Forest → ℕ
size empty = 0
size (tree t kids rest) = suc (size kids + size rest)

-- The active children of the tasks of the list are as in the forest, which has those tasks as roots.
abbrev pub Shows : (ℕ → Task) → List ℕ → Forest → Type 0
Shows tasks [] empty = Unit
Shows tasks (t ∷ l) (tree t' kids rest) =
    (t ≡ t') × Shows tasks (tasks t).active_children kids × Shows tasks l rest
Shows tasks _ _ = ⊥

abbrev pub Node : Forest → ℕ → Type 0
Node empty c = ⊥
Node (tree t kids rest) c = (t ≡ c) ⊎ (Node kids c ⊎ Node rest c)

-- The nodes that are no roots.
abbrev pub Below : Forest → ℕ → Type 0
Below empty c = ⊥
Below (tree t kids rest) c = Node kids c ⊎ Below rest c

abbrev pub In : ℕ → List ℕ → Type 0
In c [] = ⊥
In c (x ∷ l) = (x ≡ c) ⊎ In c l

pub Shows-join :
    (tasks : ℕ → Task) (l m : List ℕ) (f g : Forest)
    → Shows tasks l f
    → Shows tasks m g
    → Shows tasks (l ++ m) (join f g)
Shows-join tasks [] m empty g a b = b
Shows-join tasks [] m (tree t kids rest) g a b = absurd a
Shows-join tasks (t ∷ l) m empty g a b = absurd a
Shows-join tasks (t ∷ l) m (tree t' kids rest) g (e, a, r) b =
    (e, a, Shows-join tasks l m rest g r b)

pub size-join : (f g : Forest) → size (join f g) ≡ size f + size g
size-join empty g = omega arith
size-join (tree t kids rest) g = omega (arith, size-join rest g)

Node-root :
    (tasks : ℕ → Task) (l : List ℕ) (f : Forest) (c : ℕ)
    → Shows tasks l f
    → Node f c
    → In c l ⊎ Below f c
Node-root tasks l empty c s x = absurd x
Node-root tasks [] (tree t' kids rest) c s x = absurd s
Node-root tasks (t ∷ l) (tree t' kids rest) c (e, a, r) (inl x) = inl (inl (e ∙ x))
Node-root tasks (t ∷ l) (tree t' kids rest) c (e, a, r) (inr (inl x)) = inr (inl x)
Node-root tasks (t ∷ l) (tree t' kids rest) c (e, a, r) (inr (inr x)) =
    elim (Node-root tasks l rest c r x) [ inl y ↦ inl (inr y) | inr y ↦ inr (inr y) ]

root-Node :
    (tasks : ℕ → Task) (l : List ℕ) (f : Forest) (c : ℕ) → Shows tasks l f → In c l → Node f c
root-Node tasks [] f c s x = absurd x
root-Node tasks (t ∷ l) empty c s x = absurd s
root-Node tasks (t ∷ l) (tree t' kids rest) c (e, a, r) (inl x) = inl (sym e ∙ x)
root-Node tasks (t ∷ l) (tree t' kids rest) c (e, a, r) (inr x) =
    inr (inr (root-Node tasks l rest c r x))

Below-Node : (f : Forest) (c : ℕ) → Below f c → Node f c
Below-Node empty c x = absurd x
Below-Node (tree t kids rest) c (inl x) = inr (inl x)
Below-Node (tree t kids rest) c (inr x) = inr (inr (Below-Node rest c x))

Below-join : (f g : Forest) (c : ℕ) → Below (join f g) c → Below f c ⊎ Below g c
Below-join empty g c x = inr x
Below-join (tree t kids rest) g c (inl x) = inl (inl x)
Below-join (tree t kids rest) g c (inr x) = elim (Below-join rest g c x) [
  | inl y ↦ inl (inr y)
  | inr y ↦ inr y
]

join-Below : (f g : Forest) (c : ℕ) → Below f c ⊎ Below g c → Below (join f g) c
join-Below empty g c (inl x) = absurd x
join-Below empty g c (inr x) = x
join-Below (tree t kids rest) g c (inl (inl x)) = inl x
join-Below (tree t kids rest) g c (inl (inr x)) = inr (join-Below rest g c (inl x))
join-Below (tree t kids rest) g c (inr x) = inr (join-Below rest g c (inr x))

-- The first task of the list with the number, or that it has none.
find_if_lem :
    (tasks : ℕ → Task) (pid : ℕ) (l : List ℕ)
    → ((find_if tasks pid l ≡ none) × ((c : ℕ) → In c l → (tasks c).pid ≢ pid))
      ⊎ ((c : ℕ) × (find_if tasks pid l ≡ some c) × In c l × ((tasks c).pid ≡ pid))
unfolding find_if
find_if_lem tasks pid [] = inl (refl, λ c x. absurd x)
find_if_lem tasks pid (t ∷ l) = elim (Bool-cases ((tasks t).pid == pid)) [
  | inl e ↦ inr (t, rw (find_if, e) refl, inl refl, ground arith)
  | inr e ↦ elim (find_if_lem tasks pid l) [
    | inl (r, away) ↦ inl (
      rw (find_if, e) r,
      λ c x. elim x [
        | inl y ↦ subst (λ k. (tasks k).pid ≢ pid) y (ground arith)
        | inr y ↦ away c y
      ],
    )
    | inr (c, r, i, p) ↦ inr (c, rw (find_if, e) r, inr i, p)
  ]
]

-- What the inner loop does with the roots of the forest `f`: it finds a task below them, or goes on with
-- a smaller forest that has all tasks with the number that are below them.
Level : (ℕ → Task) → ℕ → ℕ → Forest → Outcome Search → Type 0
Level tasks pid n f out =
    ((c : ℕ) × (out ≡ ok (found c)) × Below f c × ((tasks c).pid ≡ pid))
    ⊎ ((q : List ℕ) × (g : Forest) × (out ≡ ok (next_level q))
        × Shows tasks q g
        × (size g + n ≤ size f)
        × ((c : ℕ) → Below g c → Below f c)
        × ((c : ℕ) → Below f c → (tasks c).pid ≡ pid → Below g c))

search_level_lem :
    (tasks : ℕ → Task) (pid n : ℕ) (q : List ℕ) (f : Forest)
    → Shows tasks q f
    → n ≤ length q
    → Level tasks pid n f (search_level tasks pid n q)
unfolding search_level Level
search_level_lem tasks pid zero q f s h = inr (q, f, refl, s, omega arith, (λ c x. x), λ c x e. x)
search_level_lem tasks pid (suc n) [] f s h = absurd (omega arith)
search_level_lem tasks pid (suc n) (t ∷ q) empty s h = absurd s
search_level_lem tasks pid (suc n) (t ∷ q) (tree t' kids rest) (e, a, r) h =
    let kids_list = (tasks t).active_children in
    elim (find_if_lem tasks pid kids_list) [
      | inr (c, hit, i, p) ↦
          inl (c, rw (search_level, hit) refl, inl (root-Node tasks kids_list kids c a i), p)
      | inl (miss, away) ↦
          let longer = length-append q kids_list in
          let next = Shows-join tasks q kids_list rest kids r a in
          let fewer = size-join rest kids in
          elim (search_level_lem tasks pid n (q ++ kids_list) (join rest kids) next (omega arith)) [
            | inl (c, hit, i, p) ↦ inl (
              c,
              rw (search_level, miss) hit,
              elim (Below-join rest kids c i) [ inl x ↦ inr x | inr x ↦ inl (Below-Node kids c x) ],
              p,
            )
            | inr (q', g, runs, shown, less, below, kept) ↦ inr (
              q',
              g,
              rw (search_level, miss) runs,
              shown,
              omega arith,
              (λ c x. elim (Below-join rest kids c (below c x)) [
                | inl y ↦ inr y
                | inr y ↦ inl (Below-Node kids c y)
              ]),
              λ c x p.
                  kept c
                    (join-Below rest kids c (elim x [
                      | inl y ↦ elim (Node-root tasks kids_list kids c a y) [
                        | inl z ↦ absurd (away c z p)
                        | inr z ↦ inr z
                      ]
                      | inr y ↦ inl y
                    ]))
                    p,
            )
          ]
    ]

-- What a search below the roots of the forest comes to.
abbrev pub Searched : (ℕ → Task) → ℕ → Forest → Outcome (Option ℕ) → Type 0
Searched tasks pid f out =
    ((c : ℕ) × (out ≡ ok (some c)) × Below f c × ((tasks c).pid ≡ pid))
    ⊎ ((out ≡ ok none) × ((c : ℕ) → Below f c → (tasks c).pid ≢ pid))

search_lem :
    (fuel : ℕ) (tasks : ℕ → Task) (pid : ℕ) (q : List ℕ) (f : Forest)
    → Shows tasks q f
    → size f ≤ fuel
    → Searched tasks pid f (search fuel tasks pid q)
unfolding search Level
search_lem fuel tasks pid [] empty s h = inr (refl, λ c x. absurd x)
search_lem fuel tasks pid [] (tree t kids rest) s h = absurd s
search_lem fuel tasks pid (t ∷ q) empty s h = absurd s
search_lem zero tasks pid (t ∷ q) (tree t' kids rest) s h = absurd (omega arith)
search_lem (suc fuel) tasks pid (t ∷ q) (tree t' kids rest) s h =
    let next : Search → Outcome (Option ℕ) =
      λ r. elim r [ found c ↦ ok (some c) | next_level q' ↦ search fuel tasks pid q' ] in
    elim (search_level_lem tasks pid (length (t ∷ q)) (t ∷ q) (tree t' kids rest) s (omega arith)) [
      | inl (c, hit, i, p) ↦ inl (c, ap (λ m. m >>= next) hit, i, p)
      | inr (q', g, runs, shown, less, below, kept) ↦
          let step : search (suc fuel) tasks pid (t ∷ q) ≡ search fuel tasks pid q' =
            ap (λ m. m >>= next) runs in
          elim (search_lem fuel tasks pid q' g shown (omega arith)) [
            | inl (c, hit, i, p) ↦ inl (c, step ∙ hit, below c i, p)
            | inr (miss, away) ↦ inr (step ∙ miss, λ c x p. away c (kept c x p) p)
          ]
    ]

-- Where the active children from the init task on form a finite tree, `get_by_pid` returns on fuel
-- for its size. Its result is the init task for 1 and the kthreadd task for 2; for every other number it
-- is a task below the init task that has the number, or null if none has.
pub get_by_pid_lem :
    (fuel : ℕ) (s : Tasks) (i pid : ℕ) (f : Forest)
    → s.init ≡ some i
    → Shows s.tasks (i ∷ []) f
    → size f ≤ fuel
    → ((pid ≡ 1) × (get_by_pid fuel s pid ≡ ok (some i)))
      ⊎ ((pid ≡ 2) × (get_by_pid fuel s pid ≡ ok s.kthreadd))
      ⊎ ((pid ≢ 1) × (pid ≢ 2) × Searched s.tasks pid f (get_by_pid fuel s pid))
unfolding get_by_pid
get_by_pid_lem fuel s i pid f e t h = elim (Bool-cases (pid == 1)) [
  | inl one ↦ inl (ground arith, rw (get_by_pid, one) (ap ok e))
  | inr not_one ↦ elim (Bool-cases (pid == 2)) [
    | inl two ↦ inr (inl (ground arith, rw (get_by_pid, not_one, two) refl))
    | inr not_two ↦ inr (
        inr (
          let runs : get_by_pid fuel s pid ≡ search fuel s.tasks pid (i ∷ []) =
            rw (get_by_pid, not_one, not_two)
              (ap (λ o. elim o [ none ↦ fault | some k ↦ search fuel s.tasks pid (k ∷ []) ]) e) in
          (
            ground (arith, not_one),
            ground (arith, not_two),
            subst (Searched s.tasks pid f) (sym runs) (search_lem fuel s.tasks pid (i ∷ []) f t h),
          )))
  ]
]
