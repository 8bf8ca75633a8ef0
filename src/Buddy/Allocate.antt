-- ===== src/Buddy/Allocate.antt =====
-- What `allocate` hands out.
use native.Mathlib.Decide.{dec_lt}
use native.Mathlib.Nat.{pow-le-pow_right}
use valkyrie.Base.{
  ℕ, zero, suc, ◌+◌, ◌-◌, ◌*◌, ◌^◌, ◌≤◌, ◌<◌, ◌≡◌, ◌≢◌, refl, ap, ◌∙◌, List, [], ◌∷◌, Option, none,
  some, arith, ◌==◌, Bool-cases, Bool, inl, inr, ◌⊎◌, leb, subst, true, false, ◌&&◌, Option-cases,
  ==_refl, max,
}
use valkyrie.Base.Maps.{update}
use valkyrie.Base.Outcome.{Outcome, ok, ◌>>=◌}
use valkyrie.Buddy.{
  Buddy, Frame, free, split_loop, split_block, free_list_del_head, free_list_del_entry, find_victim,
  hit, allocate_order, allocate, normalize_size, size_to_order, max_order, page_size,
}
use valkyrie.Buddy.Grants.{IsValid, Granted, detach, granted}
use valkyrie.Buddy.Chains.{Chain, count, remove, remove, count_self}
use valkyrie.Buddy.Links.{nexts}
use valkyrie.Buddy.Frames.{weight, claim, pow_pos}
use valkyrie.Buddy.FreeLists.{Relinked, del_entry-Relinked, del_entry_head, le→leb}
use valkyrie.Buddy.Marks.{holds_from, table_lookup}
use valkyrie.Math.{log2, log2_loop, asr1, round_up_to_pow_of_2}
use valkyrie.Math.Laws.{round_up_to_pow_of_2_lem}
use valkyrie.Buddy.Split.{Detached, Cut-none, split_loop-Cut}

weight_pos : (x : Frame) (k : ℕ) → 0 < weight x k → x ≡ free k
unfolding weight
weight_pos x k h = ground arith

-- The head of a free list is a free block of the list's order.
head_of :
    (b : Buddy) (v : IsValid b) (k p : ℕ) (ls : List ℕ)
    → v.lists k ≡ ls
    → b.free_lists k ≡ some p
    → (l : List ℕ) × (v.lists k ≡ p ∷ l) × (b.frame_array p ≡ free k)
head_of b v k p [] s h =
    let c : b.free_lists k ≡ none =
      subst (Chain (nexts b) (b.free_lists k)) s (v.linked.chains k) in
    cc
head_of b v k p (x ∷ l) s h =
    let e : b.free_lists k ≡ some x =
      (subst (Chain (nexts b) (b.free_lists k)) s (v.linked.chains k)).0 in
    let xp : x ≡ p = ground arith in
    let s' : v.lists k ≡ p ∷ l = s ∙ ap (λ y. y ∷ l) xp in
    (
      l,
      s',
      weight_pos (b.frame_array p) k
          (omega (arith, v.linked.counts k p, ap (count p) s', count_self p l)),
    )

find_victim-some :
    (n : ℕ) (b : Buddy) (o i : ℕ)
    → find_victim n b o ≡ some i
    → (m : ℕ) × (o ≤ m) × (b.free_lists m ≡ some i)
unfolding find_victim
find_victim-some zero b o i h = cc
find_victim-some (suc n) b o i h = elim (Option-cases (b.free_lists o)) [
  | inl e ↦
      let (m, le, s) = find_victim-some n b (o + 1) i (rw (e, find_victim) at h) in
      (m, omega arith, s)
  | inr (x, e) ↦ (o, omega arith, e ∙ (rw (e, find_victim) at h))
]

find_victim-none :
    (n : ℕ) (b : Buddy) (o m : ℕ)
    → find_victim n b o ≡ none
    → o ≤ m
    → m < o + n
    → b.free_lists m ≡ none
unfolding find_victim
find_victim-none zero b o m h lo hi = absurd (omega arith)
find_victim-none (suc n) b o m h lo hi = ground (arith, find_victim-none n b (o + 1) m)

empty_list : (n : ℕ → Option ℕ) (i : ℕ) (ls : List ℕ) → Chain n none ls → count i ls ≡ 0
unfolding count
empty_list n i [] c = refl
empty_list n i (x ∷ l) c = cc

-- No list of an order, no free block of that order.
none_free : (b : Buddy) (v : IsValid b) (i m : ℕ) → b.free_lists m ≡ none → b.frame_array i ≢ free m
unfolding weight
none_free b v i m h e =
    let c : Chain (nexts b) none (v.lists m) = rw h at (v.linked.chains m) in
    ground (arith, empty_list (nexts b) i (v.lists m) c, v.linked.counts m i)

-- A request of order `o` is served: it is granted, or it gets null, which changes nothing and happens
-- only if no free block is of order `o` or more.
abbrev pub Served : Buddy → ℕ → Outcome (Buddy × Option ℕ) → Type 0
Served b o out =
    Granted b o out ⊎ ((out ≡ ok (b, none)) × ((i m : ℕ) → o ≤ m → b.frame_array i ≢ free m))

module _ (b : Buddy) (v : IsValid b) (o : ℕ) where
  exact :
      (i : ℕ)
      → b.frame_array i ≡ free o
      → b.free_lists o ≡ some i
      → Granted b o (free_list_del_head b i >>= λ taken. hit taken i)
  exact i e h = rw r.runs (
      granted b v i o o r.after e (omega arith) r.same.zone r.same.orders
        (Cut-none r.after i o _ _ (ok r.after) (detach b v i o r.after e r.same r.chains) refl))
    where
      same_call : free_list_del_entry b i ≡ free_list_del_head b i
      same_call = del_entry_head b i o i (v.linked.orders i o e) h (==_refl i)

      r : Relinked b (update v.lists o (remove i (v.lists o))) (free_list_del_head b i)
      r =
          subst (Relinked b (update v.lists o (remove i (v.lists o)))) same_call
            (del_entry-Relinked b v.lists b.frame_array v.linked i o v.shape e)

  -- `split_block` from the free block's order.
  split_runs :
      (taken : Buddy) (i m : ℕ)
      → (taken.headers i).order ≡ m
      → m < max_order
      → split_block taken i o ≡ split_loop max_order taken i o
  unfolding split_block
  split_runs taken i m e lt = rw (e, le→leb max_order m lt)

  larger :
      (i m : ℕ)
      → b.frame_array i ≡ free m
      → o ≤ m
      → Granted b o (do taken ← free_list_del_entry b i; cut ← split_block taken i o; hit cut i)
  larger i m e le =
      rw (r.runs, split_runs r.after i m d.order d.small)
        (granted b v i m o r.after e le r.same.zone r.same.orders
          (split_loop-Cut max_order r.after i m o _ _ d le (omega (arith, d.small))))
    where
      r : Relinked b (update v.lists m (remove i (v.lists m))) (free_list_del_entry b i)
      r = del_entry-Relinked b v.lists b.frame_array v.linked i m v.shape e

      d :
          Detached r.after i m
            (update v.lists m (remove i (v.lists m)))
            (claim b.frame_array i (2 ^ m))
      d = detach b v i m r.after e r.same r.chains

  no_victim :
      leb max_order o ≡ false
      → find_victim (max_order - o) b o ≡ none
      → (i m : ℕ) → o ≤ m
      → b.frame_array i ≢ free m
  no_victim small h i m le e =
      none_free b v i m
        (find_victim-none (max_order - o) b o m h le (ground (arith, v.shape.bounds i m e))) e

  -- Once the order of the request is known, `allocate` serves it.
  pub allocate_order-Served : Served b o (allocate_order b o)
  unfolding allocate_order
  allocate_order-Served = elim (Bool-cases (leb max_order o)) [
    | inl big ↦ rw big (inr (refl, λ i m le e. absurd (ground (arith, v.shape.bounds i m e))))
    | inr small ↦ rw small (elim (Option-cases (b.free_lists o)) [
      | inr (i, h) ↦ rw (h, allocate_order) (inl (exact i (head_of b v o i (v.lists o) refl h).2 h))
      | inl none_here ↦
          rw (none_here, allocate_order)
            (elim (Option-cases (find_victim (max_order - o) b o)) [
              | inl missing ↦ rw (missing, allocate_order) (inr (refl, no_victim small missing))
              | inr (i, found) ↦
                  let (m, le, h) = find_victim-some (max_order - o) b o i found in
                  rw (found, allocate_order)
                    (inl (larger i m (head_of b v m i (v.lists m) refl h).2 le))
            ])
    ])
  ]

-- The order of every size that fits an `int` of pages.
order_test : ℕ → Bool
order_test j = elim (size_to_order (2 ^ j)) [
  | ok o ↦ o == j - 12 && 2 ^ (j - 12) * page_size == max (2 ^ j) page_size
  | _ ↦ false
]

order_table : holds_from order_test 0 43 ≡ true
unfolding holds_from order_test size_to_order log2 log2_loop asr1
order_table = refl

order_of_power :
    (j : ℕ)
    → j < 43
    → (size_to_order (2 ^ j) ≡ ok (j - 12)) × (2 ^ (j - 12) * page_size ≡ max (2 ^ j) page_size)
unfolding order_test
order_of_power j h = let t = table_lookup 43 order_test j order_table h in ground arith

allocate_runs :
    (b : Buddy) (size j o : ℕ)
    → round_up_to_pow_of_2 size ≡ some (2 ^ j)
    → size_to_order (2 ^ j) ≡ ok o
    → allocate b size ≡ allocate_order b o
unfolding allocate normalize_size
allocate_runs b size j o r s =
    let p : (2 ^ j == 0) ≡ false = ground (arith, pow_pos j) in rw (r, s, p)

-- A request of up to 2^42 bytes to a valid allocator is served at the least order whose blocks hold
-- it: the call returns, without a panic or a fault.
pub allocate-Served :
    (b : Buddy) (size : ℕ)
    → IsValid b
    → size ≤ 2 ^ 42
    → (o : ℕ) × (size ≤ 2 ^ o * page_size)
      × ((o ≡ 0) ⊎ (2 ^ o * page_size < 2 * size))
      × Served b o (allocate b size)
allocate-Served b size v h =
    let (j, r, le, lt, least) = round_up_to_pow_of_2_lem size (omega arith) in
    let small : j < 43 = bounded j least in
    let (s, q) = order_of_power j small in
    (
      j - 12,
      omega arith,
      tight j least q,
      rw (allocate_runs b size j (j - 12) r s) (allocate_order-Served b v (j - 12)),
    )
  where
    bounded : (j : ℕ) → (j ≡ 0) ⊎ (2 ^ j < 2 * size) → j < 43
    bounded j (inl e) = omega arith
    bounded j (inr p) = elim (dec_lt j 43) [
      | yes q ↦ q
      | no q ↦
          let m : 2 ^ 43 ≤ 2 ^ j = pow-le-pow_right (omega arith) {i = 43} {j = j} (omega arith) in
          absurd (omega arith)
    ]

    tight :
        (j : ℕ)
        → (j ≡ 0) ⊎ (2 ^ j < 2 * size)
        → 2 ^ (j - 12) * page_size ≡ max (2 ^ j) page_size
        → (j - 12 ≡ 0) ⊎ (2 ^ (j - 12) * page_size < 2 * size)
    tight j (inl e) q = inl (omega arith)
    tight j (inr p) q = elim (dec_lt j 13) [
      | yes k ↦ inl (omega arith)
      | no k ↦
          let m : 2 ^ 12 ≤ 2 ^ j = pow-le-pow_right (omega arith) {i = 12} {j = j} (omega arith) in
          inr (omega arith)
    ]
