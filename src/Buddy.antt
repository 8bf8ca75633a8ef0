-- ===== src/Buddy.antt =====
-- mm/BuddyAllocator.cc and include/mm/BuddyAllocator.h. A `BlockHeader *` is the header's index in
-- the pool `_headers`, and the arrays are functions of the index. Marking frames outside
-- `_frame_array` faults; the header of a buddy is read at whatever index the exclusive or gives.
-- The messages of `printk` are left out.
pub mod Chains
pub mod Links
pub mod Frames
pub mod FreeLists
pub mod Blocks
pub mod Marks
pub mod Split
pub mod Grants
pub mod Allocate
pub mod Alignment
pub mod Merge
pub mod Deallocate
pub mod Init
pub mod Runs
mod Tests
use valkyrie.Base.{
  ℕ, zero, suc, ◌+◌, ◌-◌, ◌*◌, ◌/◌, ◌%◌, ◌^◌, bit_xor, Bool, true, false, not, ◌&&◌, ◌||◌, Option,
  none, some, ltb, leb, ◌==◌, if◌then◌else◌,
}
use valkyrie.Base.Maps.{update, fill}
use valkyrie.Base.Outcome.{Outcome, ok, panic, fault, hang, ◌>>=◌, or_hang}
use valkyrie.Math.{pow, log2, round_up_to_pow_of_2}

abbrev pub max_order : ℕ
max_order = 10

-- MAX_ORDER_NR_PAGES
abbrev pub nr_pages : ℕ
nr_pages = 512

abbrev pub page_size : ℕ
page_size = 4096

-- An entry of `_frame_array`: an order, ALLOCATED or DONT_ALLOCATE.
pub data Frame : Type 0 where
  free : ℕ → Frame
  allocated dont_allocate : Frame

pub record BlockHeader : Type 0 where
  pub next : Option ℕ
  pub order : ℕ
  pub index : ℕ

pub record Buddy : Type 0 where
  pub zone_begin : ℕ
  pub frame_array : ℕ → Frame
  pub free_lists : ℕ → Option ℕ
  pub headers : ℕ → BlockHeader

-- `block->next = p`
abbrev pub set_next : Buddy → ℕ → Option ℕ → Buddy
set_next b block p = record b {
  headers = update b.headers block (record (b.headers block) { next = p });
}

-- `block->order = k`
abbrev pub set_order : Buddy → ℕ → ℕ → Buddy
set_order b block k = record b {
  headers = update b.headers block (record (b.headers block) { order = k });
}

-- `_free_lists[k] = p`
abbrev pub set_free_list : Buddy → ℕ → Option ℕ → Buddy
set_free_list b k p = record b { free_lists = update b.free_lists k p }

unfoldable pub normalize_size : ℕ → Outcome ℕ
normalize_size size = or_hang (round_up_to_pow_of_2 size)

-- The quotient is cut to an `int` on the way into `log2`.
unfoldable pub size_to_order : ℕ → Outcome ℕ
size_to_order size = or_hang (log2 (size / page_size % 2 ^ 32))

unfoldable pub order_to_size : ℕ → ℕ
order_to_size order = pow 2 order * page_size

unfoldable pub get_page_frame : Buddy → ℕ → ℕ
get_page_frame b index = b.zone_begin + index * page_size

unfoldable pub get_block_header : Buddy → ℕ → Outcome ℕ
get_block_header b p =
    let idx = (p + 2 ^ 64 - b.zone_begin) % 2 ^ 64 / page_size % 2 ^ 32 in
    if not (p % page_size == 0) then panic else if leb nr_pages idx then panic else ok idx

unfoldable pub get_buddy : Buddy → ℕ → ℕ
get_buddy b block = bit_xor (b.headers block).index (2 ^ (b.headers block).order)

unfoldable pub is_block_allocated : Buddy → ℕ → Bool
is_block_allocated b block = elim (b.frame_array (b.headers block).index) [
  | allocated ↦ true
  | _ ↦ false
]

unfoldable pub mark_block_as_allocated : Buddy → ℕ → Outcome Buddy
mark_block_as_allocated b block =
    let idx = (b.headers block).index in
    let len = pow 2 (b.headers block).order in
    if ltb nr_pages (idx + len)
    then fault
    else ok (record b { frame_array = fill b.frame_array idx len allocated })

unfoldable pub mark_block_as_allocatable : Buddy → ℕ → Outcome Buddy
mark_block_as_allocatable b block =
    let idx = (b.headers block).index in
    let order = (b.headers block).order in
    let len = pow 2 order in
    if ltb nr_pages (idx + len)
    then fault
    else ok (record b {
      frame_array = fill (update b.frame_array idx (free order)) (idx + 1) (len - 1) dont_allocate;
    })

unfoldable pub free_list_del_head : Buddy → ℕ → Outcome Buddy
free_list_del_head b block =
    let order = (b.headers block).order in
    if leb max_order order then panic else elim (b.free_lists order) [
      | none ↦ ok b
      | some head ↦ ok (set_next (set_free_list b order (b.headers head).next) block none)
    ]

unfoldable pub free_list_add_head : Buddy → ℕ → Outcome Buddy
free_list_add_head b block =
    let order = (b.headers block).order in
    if leb max_order order then panic else elim (b.free_lists order) [
      | none ↦ ok (set_next (set_free_list b order (some block)) block none)
      | some head ↦
          if head == block
          then ok b
          else ok (set_free_list (set_next b block (some head)) order (some block))
    ]

-- `while (ptr)` of `free_list_del_entry`.
unfoldable pub del_entry_loop : ℕ → Buddy → ℕ → Option ℕ → Option ℕ → Outcome Buddy
del_entry_loop zero b block prev ptr = hang
del_entry_loop (suc fuel) b block prev none = ok b
del_entry_loop (suc fuel) b block prev (some p) =
    let rest = del_entry_loop fuel b block (some p) (b.headers p).next in
    if p == block
    then elim prev [
      | none ↦ fault
      | some q ↦ ok (set_next (set_next b q (b.headers p).next) p none)
    ]
    else rest

-- A free list has at most `nr_pages` blocks.
unfoldable pub free_list_del_entry : Buddy → ℕ → Outcome Buddy
free_list_del_entry b block =
    let head = b.free_lists (b.headers block).order in
    let walk = del_entry_loop (nr_pages + 1) b block none head in
    elim head [ none ↦ walk | some h ↦ if h == block then free_list_del_head b block else walk ]

-- The body of the loop of `split_block`, with the block's order as it is after `block->order--`.
unfoldable pub split_round : Buddy → ℕ → ℕ → Outcome Buddy
split_round b block order = do
  let halved = set_order b block order
  let buddy = get_buddy halved block
  marked ← mark_block_as_allocatable (set_order halved buddy order) buddy
  free_list_add_head marked buddy

unfoldable pub split_loop : ℕ → Buddy → ℕ → ℕ → Outcome Buddy
split_loop zero b block target = hang
split_loop (suc fuel) b block target =
    let order = (b.headers block).order in
    let rest = split_round b block (order - 1) >>= (λ cut. split_loop fuel cut block target) in
    if ltb 0 order && ltb target order then rest else ok b

unfoldable pub split_block : Buddy → ℕ → ℕ → Outcome Buddy
split_block b block target =
    if leb max_order (b.headers block).order then panic else split_loop max_order b block target

-- `for (; order < MAX_ORDER; order++) if (_free_lists[order]) ...`: the first free block, searching
-- `n` orders from `order` on.
unfoldable pub find_victim : ℕ → Buddy → ℕ → Option ℕ
find_victim zero b order = none
find_victim (suc n) b order =
    let rest = find_victim n b (order + 1) in
    elim (b.free_lists order) [ none ↦ rest | some victim ↦ some victim ]

-- The label `hit`: the block's frames are marked, and its address is returned.
unfoldable pub hit : Buddy → ℕ → Outcome (Buddy × Option ℕ)
hit b victim = do
  marked ← mark_block_as_allocated b victim
  ok (marked, some (get_page_frame marked (marked.headers victim).index))

unfoldable pub allocate_order : Buddy → ℕ → Outcome (Buddy × Option ℕ)
allocate_order b order = if leb max_order order then ok (b, none) else elim (b.free_lists order) [
  | some victim ↦ do taken ← free_list_del_head b victim; hit taken victim
  | none ↦ elim (find_victim (max_order - order) b order) [
    | none ↦ ok (b, none)
    | some victim ↦ do
      taken ← free_list_del_entry b victim
      cut ← split_block taken victim order
      hit cut victim
  ]
]

unfoldable pub allocate : Buddy → ℕ → Outcome (Buddy × Option ℕ)
allocate b requested_size = do
  size ← normalize_size requested_size
  order ← size_to_order size
  if size == 0 then ok (b, none) else allocate_order b order

unfoldable pub allocate_one_page_frame : Buddy → Outcome (Buddy × Option ℕ)
allocate_one_page_frame b = allocate b page_size

-- The body of the loop of `deallocate`: the free buddy joins the block, and the lower of the two heads
-- the whole.
unfoldable pub merge_round : Buddy → ℕ → Outcome (Buddy × ℕ)
merge_round b block = do
  let buddy = get_buddy b block
  taken ← free_list_del_entry b buddy
  let lower = if ltb buddy block then buddy else block
  ok (set_order taken lower ((taken.headers lower).order + 1), lower)

-- The loop of `deallocate`: the block grows as long as its buddy is free and of its order.
unfoldable pub merge_loop : ℕ → Buddy → ℕ → Outcome (Buddy × ℕ)
merge_loop zero b block = hang
merge_loop (suc fuel) b block =
    let order = (b.headers block).order in
    let buddy = get_buddy b block in
    let rest = merge_round b block >>= (λ (merged, whole). merge_loop fuel merged whole) in
    if ltb order (max_order - 1)
    then if is_block_allocated b buddy || not (order == (b.headers buddy).order)
      then ok (b, block)
      else rest
    else ok (b, block)

unfoldable pub deallocate : Buddy → Option ℕ → Outcome Buddy
deallocate b none = ok b
deallocate b (some p) = do
  block ← get_block_header b p
  (merged, whole) ← merge_loop max_order b block
  added ← free_list_add_head merged whole
  mark_block_as_allocatable added whole

-- The constructor: one block that covers the zone.
unfoldable pub init : ℕ → Outcome Buddy
init zone_begin = do
  order ← size_to_order (order_to_size (max_order - 1))
  ok (record {
    zone_begin = zone_begin;
    frame_array = fill (update (λ i. allocated) 0 (free order)) 1 (nr_pages - 1) dont_allocate;
    free_lists = update (λ k. none) order (some 0);
    headers = λ i. record { next = none; order = if i == 0 then order else 0; index = i };
  })
