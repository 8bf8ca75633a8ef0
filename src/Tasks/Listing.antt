-- ===== src/Tasks/Listing.antt =====
-- `get_active_tasks` of proc/Task.cc.
use valkyrie.Base.{
  ℕ, zero, suc, ◌+◌, ◌≤◌, ◌≡◌, refl, sym, ap, ◌∙◌, List, [], ◌∷◌, ◌++◌, map, append-nil,
  append_assoc, length, length-append, Option, none, some, ◌⊎◌, inl, inr, arith,
}
use valkyrie.Base.Outcome.{ok, fault, ◌>>=◌}
use valkyrie.Tasks.{Task, Tasks, list_level, list_tasks, get_active_tasks}
use valkyrie.Tasks.Lookup.{Forest, empty, tree, join, size, Shows, Shows-join, size-join, Node, In}

Node-join : (f g : Forest) (c : ℕ) → Node (join f g) c → Node f c ⊎ Node g c
Node-join empty g c x = inr x
Node-join (tree t kids rest) g c (inl x) = inl (inl x)
Node-join (tree t kids rest) g c (inr (inl x)) = inl (inr (inl x))
Node-join (tree t kids rest) g c (inr (inr x)) = elim (Node-join rest g c x) [
  | inl y ↦ inl (inr (inr y))
  | inr y ↦ inr y
]

join-Node : (f g : Forest) (c : ℕ) → Node f c ⊎ Node g c → Node (join f g) c
join-Node empty g c (inl x) = absurd x
join-Node empty g c (inr x) = x
join-Node (tree t kids rest) g c (inl (inl x)) = inl x
join-Node (tree t kids rest) g c (inl (inr (inl x))) = inr (inl x)
join-Node (tree t kids rest) g c (inl (inr (inr x))) = inr (inr (join-Node rest g c (inl x)))
join-Node (tree t kids rest) g c (inr x) = inr (inr (join-Node rest g c (inr x)))

In-append : (c : ℕ) (l m : List ℕ) → In c (l ++ m) → In c l ⊎ In c m
In-append c [] m x = inr x
In-append c (y ∷ l) m (inl x) = inl (inl x)
In-append c (y ∷ l) m (inr x) = elim (In-append c l m x) [ inl z ↦ inl (inr z) | inr z ↦ inr z ]

append-In : (c : ℕ) (l m : List ℕ) → In c l ⊎ In c m → In c (l ++ m)
append-In c [] m (inl x) = absurd x
append-In c [] m (inr x) = x
append-In c (y ∷ l) m (inl (inl x)) = inl x
append-In c (y ∷ l) m (inl (inr x)) = inr (append-In c l m (inl x))
append-In c (y ∷ l) m (inr x) = inr (append-In c l m (inr x))

-- The tasks of the list and those of the second forest are together those of the first one, each as
-- often.
abbrev pub Splits : Forest → List ℕ → Forest → Type 0
Splits f l g =
    (length l + size g ≡ size f)
    × ((c : ℕ) → Node f c → In c l ⊎ Node g c)
    × ((c : ℕ) → In c l ⊎ Node g c → Node f c)

map-append : (l m : List ℕ) → map some (l ++ m) ≡ map some l ++ map some m
map-append [] m = refl
map-append (x ∷ l) m = ap (λ k. some x ∷ k) (map-append l m)

list_level_lem :
    (tasks : ℕ → Task) (n : ℕ) (ret : List (Option ℕ)) (q : List ℕ) (f : Forest)
    → Shows tasks q f
    → n ≤ length q
    → (l q' : List ℕ) × (g : Forest) × (list_level tasks n ret q ≡ ok (ret ++ map some l, q'))
      × (length l ≡ n)
      × Shows tasks q' g
      × Splits f l g
unfolding list_level
list_level_lem tasks zero ret q f s h = (
  [],
  q,
  f,
  ap (λ r. ok (r, q)) (sym (append-nil ret)),
  refl,
  s,
  (omega arith, (λ c x. inr x), λ c x. elim x [ inl y ↦ absurd y | inr y ↦ y ]),
)
list_level_lem tasks (suc n) ret [] f s h = absurd (omega arith)
list_level_lem tasks (suc n) ret (t ∷ q) empty s h = absurd s
list_level_lem tasks (suc n) ret (t ∷ q) (tree t' kids rest) (e, a, r) h =
    let children = (tasks t).active_children in
    let longer = length-append q children in
    let next = Shows-join tasks q children rest kids r a in
    let (l, q', g, runs, n', shown, (sizes, there, back)) =
      list_level_lem tasks n (ret ++ some t ∷ []) (q ++ children) (join rest kids) next
        (omega arith) in
    let total = size-join rest kids in
    (
      t ∷ l,
      q',
      g,
      runs ∙ ap (λ k. ok (k, q')) (append_assoc ret (some t ∷ []) (map some l)),
      ap suc n',
      shown,
      (
        omega arith,
        (λ c x. elim x [
          | inl y ↦ inl (inl (e ∙ y))
          | inr (inl y) ↦ elim (there c (join-Node rest kids c (inr y))) [
            | inl z ↦ inl (inr z)
            | inr z ↦ inr z
          ]
          | inr (inr y) ↦ elim (there c (join-Node rest kids c (inl y))) [
            | inl z ↦ inl (inr z)
            | inr z ↦ inr z
          ]
        ]),
        λ c x. elim x [
          | inl (inl y) ↦ inl (sym e ∙ y)
          | inl (inr y) ↦ elim (Node-join rest kids c (back c (inl y))) [
            | inl z ↦ inr (inr z)
            | inr z ↦ inr (inl z)
          ]
          | inr y ↦ elim (Node-join rest kids c (back c (inr y))) [
            | inl z ↦ inr (inr z)
            | inr z ↦ inr (inl z)
          ]
        ],
      ),
    )

list_tasks_lem :
    (fuel : ℕ) (tasks : ℕ → Task) (ret : List (Option ℕ)) (q : List ℕ) (f : Forest)
    → Shows tasks q f
    → size f ≤ fuel
    → (l : List ℕ) × (list_tasks fuel tasks ret q ≡ ok (ret ++ map some l)) × Splits f l empty
unfolding list_tasks
list_tasks_lem fuel tasks ret [] empty s h = (
  [],
  ap ok (sym (append-nil ret)),
  (refl, (λ c x. absurd x), λ c x. elim x [ inl y ↦ y | inr y ↦ y ]),
)
list_tasks_lem fuel tasks ret [] (tree t kids rest) s h = absurd s
list_tasks_lem fuel tasks ret (t ∷ q) empty s h = absurd s
list_tasks_lem zero tasks ret (t ∷ q) (tree t' kids rest) s h = absurd (omega arith)
list_tasks_lem (suc fuel) tasks ret (t ∷ q) (tree t' kids rest) s h =
    let f = tree t' kids rest in
    let (l, q', g, runs, n, shown, (sizes, there, back)) =
      list_level_lem tasks (length (t ∷ q)) ret (t ∷ q) f s (omega arith) in
    let (m, ends, (sizes', there', back')) =
      list_tasks_lem fuel tasks (ret ++ map some l) q' g shown (omega arith) in
    let both = length-append l m in
    (
      l ++ m,
      ap (λ o. o >>= λ r. list_tasks fuel tasks r.0 r.1) runs
          ∙ ends
          ∙ ap ok (
              append_assoc ret (map some l) (map some m)
              ∙ ap (λ k. ret ++ k) (sym (map-append l m))),
      (
        omega arith,
        (λ c x. inl (
            append-In c l m (elim (there c x) [
              | inl y ↦ inl y
              | inr y ↦ elim (there' c y) [ inl z ↦ inr z | inr z ↦ absurd z ]
            ]))),
        λ c x. elim x [
          | inl y ↦
              back c (elim (In-append c l m y) [ inl z ↦ inl z | inr z ↦ inr (back' c (inl z)) ])
          | inr y ↦ absurd y
        ],
      ),
    )

-- With enough fuel `get_active_tasks` returns the init task, the kthreadd task and then the init task
-- and all tasks below it, each of these as often as it stands in the tree.
pub get_active_tasks_lem :
    (fuel : ℕ) (s : Tasks) (i : ℕ) (f : Forest)
    → s.init ≡ some i
    → Shows s.tasks (i ∷ []) f
    → size f ≤ fuel
    → (l : List ℕ) × (get_active_tasks fuel s ≡ ok (some i ∷ s.kthreadd ∷ map some l))
      × Splits f l empty
unfolding get_active_tasks
get_active_tasks_lem fuel s i f e t h =
    let (l, runs, splits) = list_tasks_lem fuel s.tasks (some i ∷ s.kthreadd ∷ []) (i ∷ []) f t h in
    (
      l,
      ap
            (λ o. elim o [
              | none ↦ fault
              | some k ↦ list_tasks fuel s.tasks (some k ∷ s.kthreadd ∷ []) (k ∷ [])
            ])
            e
          ∙ runs,
      splits,
    )
