-- ===== src/SharedPtr/Runs.antt =====
-- Whole runs of a program that makes, copies and drops shared and weak pointers.
use valkyrie.Base.{
  ℕ, ◌<◌, ◌≡◌, refl, sym, ap, subst, ◌∙◌, List, [], ◌∷◌, ◌++◌, Bool, true, false, ◌||◌, some, inl,
  inr, ◌==◌, if◌then◌else◌, ==_refl, arith, Bool-cases,
}
use valkyrie.Base.Maps.{update}
use valkyrie.Base.Outcome.{Outcome, ok, ◌>>=◌}
use valkyrie.SharedPtr.{
  ControlBlock, Heap, SharedPtr, WeakPtr, from_pointer, destroy, copy, get, with_block, weak_from,
  weak_destroy, lock,
}
use valkyrie.SharedPtr.Counts.{count, count_same, Counted, Counted-objects, Safe}
use valkyrie.SharedPtr.Owners.{
  Safe-zero, Safe-Block, Owns-alive, none-some, inc_use_count_lem, inc_use_count_weak_lem,
}
use valkyrie.SharedPtr.Weak.{dec_use_count_weak_lem, lock_lem}
use valkyrie.SharedPtr.Assign.{from_pointer-Safe, destroy_lem}

-- The control blocks of the shared and of the weak pointers that there are.
pub record Pointers : Type 0 where
  pub heap : Heap
  pub shared : List ℕ
  pub weak : List ℕ

-- What a program does with the pointer at the front: `make` is make_shared with an object at an address
-- where none is alive, and `turn` brings another pointer to the front.
pub data Op : Type 0 where
  make : ℕ → Op
  copy_front drop_front weaken lock_front drop_weak turn turn_weak : Op

abbrev pub shared_handle : ℕ → SharedPtr
shared_handle c = record { ctrl = c; alias = 0 }

abbrev pub weak_handle : ℕ → WeakPtr
weak_handle c = record { ctrl = c }

abbrev pub rotated : List ℕ → List ℕ
rotated [] = []
rotated (x ∷ l) = l ++ x ∷ []

pub made : Pointers → ℕ → Pointers
made x p =
    let born = record x.heap { objects = update x.heap.objects p true } in
    let (h, r) = from_pointer born p in record x { heap = h; shared = r.ctrl ∷ x.shared }

unfoldable pub step : Pointers → Op → Outcome Pointers
step x (make p) = ok (if p == 0 || x.heap.objects p then x else made x p)
step x copy_front = elim x.shared [
  | [] ↦ ok x
  | c ∷ s ↦ copy x.heap (shared_handle c) >>= λ r. ok (record x { heap = r.0; shared = c ∷ c ∷ s })
]
step x drop_front = elim x.shared [
  | [] ↦ ok x
  | c ∷ s ↦ destroy x.heap (shared_handle c) >>= λ h. ok (record x { heap = h; shared = s })
]
step x weaken = elim x.shared [
  | [] ↦ ok x
  | c ∷ s ↦
      weak_from x.heap (shared_handle c) >>= λ r. ok (record x { heap = r.0; weak = c ∷ x.weak })
]
step x lock_front = elim x.weak [
  | [] ↦ ok x
  | c ∷ w ↦ lock x.heap (weak_handle c) >>= λ r.
      ok (record x { heap = r.0; shared = r.1.ctrl ∷ x.shared })
]
step x drop_weak = elim x.weak [
  | [] ↦ ok x
  | c ∷ w ↦ weak_destroy x.heap (weak_handle c) >>= λ h. ok (record x { heap = h; weak = w })
]
step x turn = ok (record x { shared = rotated x.shared })
step x turn_weak = ok (record x { weak = rotated x.weak })

unfoldable pub run : Pointers → List Op → Outcome Pointers
run x [] = ok x
run x (o ∷ l) = step x o >>= λ y. run y l

abbrev pub IsCounted : Pointers → Type 0
IsCounted x = Safe x.heap x.shared x.weak

count-rotated : (c : ℕ) (l : List ℕ) → count c (rotated l) ≡ count c l
count-rotated c [] = refl
count-rotated c (x ∷ l) = last l
  where
    last : (l : List ℕ) → count c (l ++ x ∷ []) ≡ count c (x ∷ l)
    last [] = refl
    last (y ∷ l) = let e = last l in ground (arith, e)

-- An object that a block owns is alive.
owner_alive :
    (h : Heap) (s w : List ℕ) (d : ℕ) (e : ControlBlock)
    → Safe h s w
    → h.blocks d ≡ some e
    → 0 < e.p
    → h.objects e.p ≡ true
owner_alive h s w d e a at pos = elim (Bool-cases (d == 0)) [
  | inl z ↦ absurd (none-some (sym a.null ∙ ap h.blocks (ground arith) ∙ at))
  | inr nz ↦
      let (n, m, q, o) =
        subst (λ k. Counted h k (count d s) (count d w)) at (a.counted d (ground arith)) in
      Owns-alive h e o pos
]

made-Safe :
    (x : Pointers) (p : ℕ) → IsCounted x → 0 < p → x.heap.objects p ≡ false → IsCounted (made x p)
unfolding made from_pointer
made-Safe x p a pos dead =
    let born = record x.heap { objects = update x.heap.objects p true } in
    let still : (q : ℕ) → x.heap.objects q ≡ true → born.objects q ≡ true =
      λ q e. elim (Bool-cases (p == q)) [ inl t ↦ rw t refl | inr f ↦ rw f e ] in
    let safe : Safe born x.shared x.weak = record {
      counted = λ c k.
          Counted-objects x.heap born (x.heap.blocks c) (count c x.shared) (count c x.weak)
            (λ e at q. still e.p) (a.counted c k);
      sole = a.sole;
      free = a.free;
      positive = a.positive;
      null = a.null;
    } in
    from_pointer-Safe born x.shared x.weak p safe (λ q. rw (==_refl p) refl)
      (λ d e at q same. clash (
        sym dead
        ∙ ap x.heap.objects same
        ∙ owner_alive x.heap x.shared x.weak d e a at (omega arith)))
  where
    clash : false ≡ true → ⊥
    clash e = subst (λ b. if b then ⊥ else ℕ) e 0

-- A step with the front pointers given.
abbrev Stepped : Heap → List ℕ → List ℕ → Op → Type 0
Stepped h s w o =
    (y : Pointers) × (step (record { heap = h; shared = s; weak = w }) o ≡ ok y) × IsCounted y

copy-IsCounted : (h : Heap) (s w : List ℕ) → Safe h s w → Stepped h s w copy_front
unfolding step copy
copy-IsCounted h [] w a = (record { heap = h; shared = []; weak = w }, refl, a)
copy-IsCounted h (c ∷ s) w a =
    let n = count_same c s in
    let (h', runs, safe, objects) = inc_use_count_lem h (c ∷ s) w c a (inr (omega arith)) in
    let paired : Heap → Outcome (Heap × SharedPtr) = λ k. ok (k, shared_handle c) in
    (
      record { heap = h'; shared = c ∷ c ∷ s; weak = w },
      ap (λ m. (m >>= paired) >>= λ r. ok (record { heap = r.0; shared = c ∷ c ∷ s; weak = w }))
          runs,
      safe,
    )

drop-IsCounted : (h : Heap) (s w : List ℕ) → Safe h s w → Stepped h s w drop_front
unfolding step
drop-IsCounted h [] w a = (record { heap = h; shared = []; weak = w }, refl, a)
drop-IsCounted h (c ∷ s) w a =
    let (h', runs, safe, ends) = destroy_lem h s w (shared_handle c) a in
    (
      record { heap = h'; shared = s; weak = w },
      ap (λ m. m >>= λ k. ok (record { heap = k; shared = s; weak = w })) runs,
      safe,
    )

weaken-IsCounted : (h : Heap) (s w : List ℕ) → Safe h s w → Stepped h s w weaken
unfolding step weak_from
weaken-IsCounted h [] w a = (record { heap = h; shared = []; weak = w }, refl, a)
weaken-IsCounted h (c ∷ s) w a =
    let n = count_same c s in
    let (h', runs, safe, objects) = inc_use_count_weak_lem h (c ∷ s) w c a (inr (omega arith)) in
    let paired : Heap → Outcome (Heap × WeakPtr) = λ k. ok (k, weak_handle c) in
    (
      record { heap = h'; shared = c ∷ s; weak = c ∷ w },
      ap (λ m. (m >>= paired) >>= λ r. ok (record { heap = r.0; shared = c ∷ s; weak = c ∷ w }))
          runs,
      safe,
    )

lock-IsCounted : (h : Heap) (s w : List ℕ) → Safe h s w → Stepped h s w lock_front
unfolding step
lock-IsCounted h s [] a = (record { heap = h; shared = s; weak = [] }, refl, a)
lock-IsCounted h s (c ∷ w) a =
    let (h', r, runs, safe, objects, rest) = lock_lem h s w c a in
    (
      record { heap = h'; shared = r ∷ s; weak = c ∷ w },
      ap (λ m. m >>= λ k. ok (record { heap = k.0; shared = k.1.ctrl ∷ s; weak = c ∷ w })) runs,
      safe,
    )

drop_weak-IsCounted : (h : Heap) (s w : List ℕ) → Safe h s w → Stepped h s w drop_weak
unfolding step weak_destroy
drop_weak-IsCounted h s [] a = (record { heap = h; shared = s; weak = [] }, refl, a)
drop_weak-IsCounted h s (c ∷ w) a =
    let (h', r, runs, safe, objects) = dec_use_count_weak_lem h s w c a in
    (
      record { heap = h'; shared = s; weak = w },
      ap (λ m. (m >>= λ k. ok k.0) >>= λ k. ok (record { heap = k; shared = s; weak = w })) runs,
      safe,
    )

-- A step of a safe state returns, and the state stays safe.
pub step-IsCounted :
    (x : Pointers) (o : Op) → IsCounted x → (y : Pointers) × (step x o ≡ ok y) × IsCounted y
unfolding step
step-IsCounted x (make p) a = elim (Bool-cases (p == 0 || x.heap.objects p)) [
  | inl skip ↦ (x, rw skip refl, a)
  | inr fresh ↦
      let (pos, dead) = fresh_object (p == 0) (x.heap.objects p) fresh in
      (made x p, rw fresh refl, made-Safe x p a (ground arith) dead)
]
  where
    fresh_object : (b c : Bool) → (b || c) ≡ false → (b ≡ false) × (c ≡ false)
    fresh_object true c e = absurd (subst (λ b. if b then ℕ else ⊥) e 0)
    fresh_object false c e = (refl, e)
step-IsCounted x copy_front a = copy-IsCounted x.heap x.shared x.weak a
step-IsCounted x drop_front a = drop-IsCounted x.heap x.shared x.weak a
step-IsCounted x weaken a = weaken-IsCounted x.heap x.shared x.weak a
step-IsCounted x lock_front a = lock-IsCounted x.heap x.shared x.weak a
step-IsCounted x drop_weak a = drop_weak-IsCounted x.heap x.shared x.weak a
step-IsCounted x turn a = (
  record x { shared = rotated x.shared },
  refl,
  Safe-zero x.heap x.shared x.weak (rotated x.shared) x.weak
      (λ d pos. (count-rotated d x.shared, refl)) a,
)
step-IsCounted x turn_weak a = (
  record x { weak = rotated x.weak },
  refl,
  Safe-zero x.heap x.shared x.weak x.shared (rotated x.weak)
      (λ d pos. (refl, count-rotated d x.weak)) a,
)

-- What a shared pointer gives is null or an object that is alive.
pub get_lem :
    (x : Pointers) (c : ℕ) (s : List ℕ)
    → IsCounted x
    → x.shared ≡ c ∷ s
    → (p : ℕ) × (get x.heap (shared_handle c) ≡ ok p) × (0 < p → x.heap.objects p ≡ true)
unfolding get
get_lem x c s a e = elim (Bool-cases (c == 0)) [
  | inl z ↦ (0, rw (get, z) refl, λ q. absurd (omega arith))
  | inr nz ↦
      let n = ap (count c) e ∙ count_same c s in
      let (b, at, used, weak_used, o) =
        Safe-Block x.heap x.shared x.weak c a (ground arith) (omega arith) in
      (b.p, rw (get, nz) (ap (λ o. with_block o λ b. ok b.p) at), Owns-alive x.heap b o)
]

-- Every run of the pointers from a safe state on returns, without the use of a block or the deletion of
-- an object that is gone, and ends in a safe state.
pub run-IsCounted :
    (l : List Op) (x : Pointers) → IsCounted x → (y : Pointers) × (run x l ≡ ok y) × IsCounted y
unfolding run
run-IsCounted [] x a = (x, refl, a)
run-IsCounted (o ∷ l) x a =
    let (y, one, b) = step-IsCounted x o a in
    let (z, rest, c) = run-IsCounted l y b in (z, ap (λ m. m >>= λ y. run y l) one ∙ rest, c)
