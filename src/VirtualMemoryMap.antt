-- ===== src/VirtualMemoryMap.antt =====
-- mm/VirtualMemoryMap.cc and include/mm/VirtualMemoryMap.h, with the masks of include/mm/mmu.h. The
-- memory that holds the page tables is a function from the addresses of its 64-bit words to the words;
-- a walk that meets no table returns `none` for the null pointer, and a write to a null page is a fault.
pub mod Entries
pub mod Frames
pub mod Trees
pub mod Links
pub mod Stops
pub mod Walks
pub mod Presence
pub mod Maps
pub mod Lookups
pub mod Copies
pub mod Fresh
pub mod Shares
pub mod Rounds
mod Tests
use Prim.{Unit, tt}
use valkyrie.Base.{
  ℕ, zero, suc, ◌+◌, ◌-◌, ◌*◌, ◌/◌, ◌%◌, ◌^◌, bit_or, Bool, true, false, not, ◌&&◌, Option, none,
  some, List, [], ◌∷◌, leb, ltb, ◌==◌, if◌then◌else◌,
}
use valkyrie.Base.Bits.{has_bit, set_bit, clear_bit}
use valkyrie.Base.Maps.{update}
use valkyrie.Base.Outcome.{Outcome, ok, panic, fault, ◌>>=◌}
use valkyrie.Buddy.{page_size}
use valkyrie.MemoryManager.{
  MemoryManager, get_free_page, kfree, inc_page_ref_count, dec_page_ref_count, get_page_ref_count,
}

-- The numbers of the bits of a page descriptor: PD_COW_PAGE, PD_RDONLY.
abbrev pub pd_cow_page : ℕ
pd_cow_page = 55

abbrev pub pd_rdonly : ℕ
pd_rdonly = 7

abbrev pub pd_table : ℕ
pd_table = 3

-- USER_PAGE_RX: a page, for the user, accessed, read-only
abbrev pub user_page_rx : ℕ
user_page_rx = 0x4c7

-- `((x) & 1) == 0`
unfoldable pub pd_invalid : ℕ → Bool
pd_invalid x = x % 2 == 0

-- `x & PD_PAGE_MASK`
unfoldable pub page_of : ℕ → ℕ
page_of x = x % 2 ^ 47 / 2 ^ 12 * 2 ^ 12

-- `x & PD_ATTR_MASK`
unfoldable pub attr_of : ℕ → ℕ
attr_of x = x % 2 ^ 12

-- PAGE_OFFSET
unfoldable pub page_offset : ℕ → ℕ
page_offset x = x % 2 ^ 12

-- `pt_indices` of the upper levels, and the index of the last one
unfoldable pub upper_indices : ℕ → List ℕ
upper_indices v = (v / 2 ^ 39 % 512) ∷ (v / 2 ^ 30 % 512) ∷ (v / 2 ^ 21 % 512) ∷ []

unfoldable pub pte_index : ℕ → ℕ
pte_index v = v / 2 ^ 12 % 512

-- The number of entries in a table.
abbrev pub nr_entries_per_pt : ℕ
nr_entries_per_pt = 512

-- `&pt[i]`
abbrev pub entry : ℕ → ℕ → ℕ
entry pt i = pt + 8 * i

-- Does the address lie in the page?
abbrev pub is_in : ℕ → ℕ → Bool
is_in page a = leb page a && ltb a (page + page_size)

-- `memset(page, 0, PAGE_SIZE)`
unfoldable pub clear_page : (ℕ → ℕ) → ℕ → ℕ → ℕ
clear_page words page a = if is_in page a then 0 else words a

-- `memcpy(to, from, PAGE_SIZE)`
unfoldable pub copy_page : (ℕ → ℕ) → ℕ → ℕ → ℕ → ℕ
copy_page words to from a = if is_in to a then words (from + (a - to)) else words a

-- The memory manager and the words of the memory.
pub record Machine (Slob : Type 0) : Type 0 where
  pub mm : MemoryManager Slob
  pub words : ℕ → ℕ

module _ {Slob : Type 0} where
  -- `*p = x`
  abbrev pub write : Machine Slob → ℕ → ℕ → Machine Slob
  write m p x = record m { words = update m.words p x }

  -- `get_free_page(true)`, and the page is cleared
  unfoldable pub new_table : Machine Slob → Outcome (Machine Slob × ℕ)
  new_table m = do
    (mm, frame) ← get_free_page m.mm true
    if frame == 0 then fault else ok (record { mm = mm; words = clear_page m.words frame }, frame)

  -- One round of the loop of `walk`, with the next table.
  unfoldable pub walk_round : Machine Slob → Bool → ℕ → ℕ → Outcome (Machine Slob × Option ℕ)
  walk_round m create_pte pt i =
      let created = do
        (m', frame) ← new_table m
        ok (write m' (entry pt i) (bit_or frame pd_table), some frame)
      in if not (pd_invalid (m.words (entry pt i)))
        then ok (m, some (page_of (m.words (entry pt i))))
        else if not create_pte
        then ok (m, none)
        else created

  unfoldable pub walk_loop :
      Bool → List ℕ → ℕ → Machine Slob → ℕ → Outcome (Machine Slob × Option ℕ)
  walk_loop create_pte [] last m pt = ok (m, some (entry pt last))
  walk_loop create_pte (i ∷ is) last m pt = do
    (m', next) ← walk_round m create_pte pt i
    elim next [ none ↦ ok (m', none) | some pt' ↦ walk_loop create_pte is last m' pt' ]

  unfoldable pub walk : Machine Slob → ℕ → ℕ → Bool → Outcome (Machine Slob × Option ℕ)
  walk m pgd v create_pte = walk_loop create_pte (upper_indices v) (pte_index v) m pgd

  -- From the test of `*pte` on.
  unfoldable pub map_entry : Machine Slob → ℕ → ℕ → ℕ → Outcome (Machine Slob)
  map_entry m pte p attr =
      let mapped = do
        let cow = if not (has_bit pd_rdonly attr) then set_bit pd_cow_page attr else attr
        (mm, n) ← inc_page_ref_count m.mm p
        ok (record { mm = mm; words = update m.words pte (bit_or p cow) })
      in if not (pd_invalid (m.words pte)) then panic else mapped

  unfoldable pub map : Machine Slob → ℕ → ℕ → ℕ → ℕ → Outcome (Machine Slob)
  map m pgd v p attr = do
    (m', found) ← walk m pgd v true
    elim found [ none ↦ fault | some pte ↦ map_entry m' pte p attr ]

  unfoldable pub unmap : Machine Slob → ℕ → ℕ → Outcome (Machine Slob)
  unmap m pgd v = do
    (m', found) ← walk m pgd v false
    elim found [
      | none ↦ panic
      | some pte ↦ do
        (mm, n) ← dec_page_ref_count m'.mm (page_of (m'.words pte))
        ok (record { mm = mm; words = update m'.words pte 0 })
    ]

  unfoldable pub is_cow_page : Machine Slob → ℕ → ℕ → Outcome Bool
  is_cow_page m pgd v =
      let aligned = do
        (m', found) ← walk m pgd v false
        ok (elim found [ none ↦ false | some pte ↦ has_bit pd_cow_page (m'.words pte) ])
      in if not (v % page_size == 0) then panic else aligned

  unfoldable pub get_physical_address : Machine Slob → ℕ → ℕ → Outcome ℕ
  get_physical_address m pgd v = do
    (m', found) ← walk m pgd v false
    ok (elim found [ none ↦ 0 | some pte ↦ page_of (m'.words pte) + page_offset v ])

  -- The else branch of `copy_page_frame`: a page frame of its own.
  unfoldable pub take_copy : Machine Slob → ℕ → ℕ → Outcome (Machine Slob)
  take_copy m pte old = do
    (mm, new) ← get_free_page m.mm true
    let words = copy_page m.words new old
    let rest = do
      (mm', n) ← dec_page_ref_count mm old
      (mm'', k) ← inc_page_ref_count mm' new
      ok (record {
        mm = mm'';
        words = update words pte (clear_bit pd_rdonly (bit_or new (attr_of (m.words pte))));
      })
    if new == 0 then fault else rest

  unfoldable pub copy_page_frame : Machine Slob → ℕ → ℕ → Outcome (Machine Slob)
  copy_page_frame m pgd v = do
    (m', found) ← walk m pgd v false
    elim found [
      | none ↦ panic
      | some pte ↦ do
        let old = page_of (m'.words pte)
        count ← get_page_ref_count m'.mm old
        let own = write m' pte (clear_bit pd_rdonly (clear_bit pd_cow_page (m'.words pte)))
        if count == 1 then ok own else take_copy m' pte old
    ]

  -- `for (size_t i = 0; i < nr_entries_per_pt; i++)`, with `n` rounds to go
  unfoldable pub each_entry :
      (Machine Slob → ℕ → Outcome (Machine Slob)) → ℕ → ℕ → Machine Slob → Outcome (Machine Slob)
  each_entry body zero i m = ok m
  each_entry body (suc n) i m = do m' ← body m i; each_entry body n (i + 1) m'

  module _ (free_chunk : Slob → ℕ → Outcome Slob) where
    -- The body of the loop at the last level.
    unfoldable pub kfree_page : ℕ → Machine Slob → ℕ → Outcome (Machine Slob)
    kfree_page pt m i =
        let p = page_of (m.words (entry pt i)) in
        let drop_page = do
          (mm, n) ← dec_page_ref_count m.mm p
          let freed = do mm' ← kfree free_chunk mm p; ok (record m { mm = mm' })
          if n == 0 then freed else ok (record m { mm = mm })
        in if pd_invalid (m.words (entry pt i)) then ok m else drop_page

    -- With the number of levels below the table.
    unfoldable pub dfs_kfree_page : ℕ → Machine Slob → ℕ → Outcome (Machine Slob)
    dfs_kfree_page zero m pt = each_entry (kfree_page pt) nr_entries_per_pt 0 m
    dfs_kfree_page (suc levels) m pt =
        each_entry
          (λ m i.
            let below = do
              m' ← dfs_kfree_page levels m (page_of (m.words (entry pt i)))
              mm ← kfree free_chunk m'.mm (page_of (m'.words (entry pt i)))
              ok (record m' { mm = mm })
            in if pd_invalid (m.words (entry pt i)) then ok m else below)
          nr_entries_per_pt 0 m

    unfoldable pub reset : Machine Slob → ℕ → Outcome (Machine Slob)
    reset m pgd = do m' ← dfs_kfree_page 3 m pgd; ok (record m' { words = clear_page m'.words pgd })

    -- The destructor.
    unfoldable pub destroy : Machine Slob → ℕ → Outcome (Machine Slob)
    destroy m pgd = do m' ← reset m pgd; mm ← kfree free_chunk m'.mm pgd; ok (record m' { mm = mm })

  -- The body of the loop at the last level.
  unfoldable pub share_page : ℕ → ℕ → Machine Slob → ℕ → Outcome (Machine Slob)
  share_page pt_old pt_new m i =
      let p = page_of (m.words (entry pt_old i)) in
      let shared = set_bit pd_cow_page (bit_or p user_page_rx) in
      let counted = do
        (mm, n) ← inc_page_ref_count m.mm p
        ok (record {
          mm = mm;
          words = update (update m.words (entry pt_new i) shared) (entry pt_old i) shared;
        })
      in if pd_invalid (m.words (entry pt_old i)) then ok m else counted

  -- With the number of levels below the tables.
  unfoldable pub dfs_copy_page_tables : ℕ → Machine Slob → ℕ → ℕ → Outcome (Machine Slob)
  dfs_copy_page_tables zero m pt_old pt_new =
      each_entry (share_page pt_old pt_new) nr_entries_per_pt 0 m
  dfs_copy_page_tables (suc levels) m pt_old pt_new =
      each_entry
        (λ m i.
          let below = do
            (m', frame) ← new_table m
            let linked = write m' (entry pt_new i) (bit_or frame pd_table)
            dfs_copy_page_tables levels linked (page_of (m.words (entry pt_old i))) frame
          in if pd_invalid (m.words (entry pt_old i)) then ok m else below)
        nr_entries_per_pt 0 m

  unfoldable pub copy_from : Machine Slob → ℕ → ℕ → Outcome (Machine Slob)
  copy_from m pgd source = dfs_copy_page_tables 3 m source pgd

  -- The constructor: a cleared page for the topmost table, or none if there is no page.
  unfoldable pub make : Machine Slob → Outcome (Machine Slob × ℕ)
  make m = do
    (mm, pgd) ← get_free_page m.mm true
    if pgd == 0
        then ok (record m { mm = mm }, 0)
        else ok (record { mm = mm; words = clear_page m.words pgd }, pgd)
