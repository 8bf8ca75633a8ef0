-- ===== src/Buddy/Tests.antt =====
-- Runs of the buddy allocator on small inputs.
use valkyrie.Base.{
  ℕ, ◌+◌, ◌*◌, ◌^◌, ◌≤◌, ◌<◌, ◌≡◌, ◌⊎◌, inl, inr, refl, ap, Option, none, some, Bool, true, false,
  arith,
}
use valkyrie.Base.Outcome.{Outcome, ok, ◌>>=◌}
use valkyrie.Buddy.{
  Buddy, free, page_size, nr_pages, normalize_size, size_to_order, order_to_size, get_page_frame,
  get_block_header, get_buddy, is_block_allocated, mark_block_as_allocated,
  mark_block_as_allocatable, free_list_del_head, free_list_add_head, del_entry_loop,
  free_list_del_entry, split_round, split_loop, split_block, find_victim, hit, allocate_order,
  allocate, merge_round, merge_loop, deallocate, init,
}
use valkyrie.Math.{pow_loop, pow, log2_loop, log2, asr1, pow_of_2_loop, round_up_to_pow_of_2}
use valkyrie.Base.Maps.{fill}
use valkyrie.Buddy.Grants.{IsValid, is_allocated, Granted}
use valkyrie.Buddy.Allocate.{Served, allocate-Served, allocate_order-Served}
use valkyrie.Buddy.Deallocate.{
  ZoneFits, Released, Granted-IsHeld, deallocate-Released, deallocate-allocate_order,
}
use Prim.{tt}
use valkyrie.Buddy.Runs.{Client, Call, request, release, IsSafe, run, run-IsSafe}
use valkyrie.Base.{List, [], ◌∷◌}
use valkyrie.Buddy.Init.{fresh, fresh-IsValid, init-IsValid}

-- Four calls: two pages, then one page; both go back; then a request of the whole zone.
script : Outcome (Option ℕ × Option ℕ × Option ℕ)
script = do
  b ← init 0x10000000
  (b1, p) ← allocate b 8000
  (b2, q) ← allocate b1 1
  b3 ← deallocate b2 p
  b4 ← deallocate b3 q
  (b5, r) ← allocate b4 (512 * 4096)
  ok (p, q, r)

script_runs : script ≡ ok (some 0x10000000, some (0x10000000 + 2 * 4096), some 0x10000000)
unfolding script normalize_size size_to_order order_to_size get_page_frame get_block_header
    get_buddy is_block_allocated mark_block_as_allocated mark_block_as_allocatable
    free_list_del_head free_list_add_head del_entry_loop free_list_del_entry split_round split_loop
    split_block find_victim hit allocate_order allocate merge_round merge_loop deallocate init
    pow_loop pow log2_loop log2 asr1 pow_of_2_loop round_up_to_pow_of_2 fill
script_runs = refl

-- The address that a request to the fresh allocator gets.
abbrev answer : Outcome (Buddy × Option ℕ) → Option (Option ℕ)
answer (ok (b, p)) = some p
answer _ = none

-- A request of no bytes gets a page: the size has been rounded up to 1 before it is tested.
allocate_zero : answer (allocate (fresh 0x10000000) 0) ≡ some (some 0x10000000)
unfolding normalize_size size_to_order order_to_size get_page_frame get_block_header get_buddy
    is_block_allocated mark_block_as_allocated mark_block_as_allocatable free_list_del_head
    free_list_add_head del_entry_loop free_list_del_entry split_round split_loop split_block
    find_victim hit allocate_order allocate merge_round merge_loop deallocate init pow_loop pow
    log2_loop log2 asr1 pow_of_2_loop round_up_to_pow_of_2 fill
allocate_zero = refl

-- A request of 2^44 bytes gets one page: the number of pages is cut to an `int`.
allocate_huge : answer (allocate (fresh 0x10000000) (2 ^ 44)) ≡ some (some 0x10000000)
unfolding normalize_size size_to_order order_to_size get_page_frame get_block_header get_buddy
    is_block_allocated mark_block_as_allocated mark_block_as_allocatable free_list_del_head
    free_list_add_head del_entry_loop free_list_del_entry split_round split_loop split_block
    find_victim hit allocate_order allocate merge_round merge_loop deallocate init pow_loop pow
    log2_loop log2 asr1 pow_of_2_loop round_up_to_pow_of_2 fill
allocate_huge = refl

abbrev is_null : Outcome (Buddy × Option ℕ) → Bool
is_null (ok (b, none)) = true
is_null _ = false

start_fits : ZoneFits (fresh 0x10000000)
start_fits = record { begins = refl; ends = omega arith }

two_pages_runs : is_null (allocate_order (fresh 0x10000000) 1) ≡ false
unfolding normalize_size size_to_order order_to_size get_page_frame get_block_header get_buddy
    is_block_allocated mark_block_as_allocated mark_block_as_allocatable free_list_del_head
    free_list_add_head del_entry_loop free_list_del_entry split_round split_loop split_block
    find_victim hit allocate_order allocate merge_round merge_loop deallocate init pow_loop pow
    log2_loop log2 asr1 pow_of_2_loop round_up_to_pow_of_2 fill
two_pages_runs = refl

-- Two pages of the fresh zone.
two_pages : Granted (fresh 0x10000000) 1 (allocate_order (fresh 0x10000000) 1)
two_pages = elim (allocate_order-Served (fresh 0x10000000) (fresh-IsValid 0x10000000) 1) [
  | inl g ↦ g
  | inr (e, h) ↦ absurd (let f = ap is_null e in cc (two_pages_runs, f))
]

allocate-Served_example :
    (o : ℕ) × (8000 ≤ 2 ^ o * page_size)
    × ((o ≡ 0) ⊎ (2 ^ o * page_size < 2 * 8000))
    × Served (fresh 0x10000000) o (allocate (fresh 0x10000000) 8000)
allocate-Served_example =
    allocate-Served (fresh 0x10000000) 8000 (fresh-IsValid 0x10000000) (omega arith)

deallocate-Released_example :
    Released two_pages.after two_pages.block 1
      (deallocate two_pages.after (some (two_pages.after.zone_begin + two_pages.block * page_size)))
deallocate-Released_example =
    deallocate-Released two_pages.after two_pages.valid two_pages.block 1
      (Granted-IsHeld (fresh 0x10000000) 1 (omega arith) two_pages)
      (record { begins = rw two_pages.zone refl; ends = rw two_pages.zone (omega arith) })

deallocate-allocate_order_example :
    (after : Buddy) × (deallocate two_pages.after (some (0x10000000 + two_pages.block * page_size))
      ≡ ok after)
    × ((j : ℕ)
        → is_allocated (after.frame_array j) ≡ is_allocated ((fresh 0x10000000).frame_array j))
deallocate-allocate_order_example =
    deallocate-allocate_order (fresh 0x10000000) 1 (omega arith) start_fits two_pages

init-IsValid_example :
    (b : Buddy) × (init 0x10000000 ≡ ok b)
    × (b.zone_begin ≡ 0x10000000)
    × IsValid b
    × ((k : ℕ) × (2 ^ k ≡ nr_pages)
        × (b.frame_array 0 ≡ free k)
        × (b.free_lists k ≡ some 0)
        × ((i j : ℕ) → b.frame_array i ≡ free j → (i ≡ 0) × (j ≡ k)))
    × ((i : ℕ) → i < nr_pages → is_allocated (b.frame_array i) ≡ false)
init-IsValid_example = init-IsValid 0x10000000

-- Nobody holds a block of the fresh zone.
abbrev start : Client
start = record { buddy = fresh 0x10000000; blocks = [] }

start-IsSafe : IsSafe start
start-IsSafe = record { valid = fresh-IsValid 0x10000000; zone = start_fits; held = tt }

-- Three requests; the second block goes back, then the first; then the whole zone is asked for.
abbrev six_calls : List Call
six_calls = request 8000 ∷ request 1 ∷ request 70000 ∷ release 1 ∷ release 1 ∷ request 2097152 ∷ []

run-IsSafe_example : (after : Client) × (run six_calls start ≡ ok after) × IsSafe after
run-IsSafe_example =
    run-IsSafe six_calls start start-IsSafe
      (omega arith, (omega arith, (omega arith, (omega arith, tt))))
