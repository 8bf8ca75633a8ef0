-- ===== src/VirtualMemoryMap/Tests.antt =====
-- Runs of a map at single inputs.
use Prim.{Unit, tt}
use valkyrie.Base.{ℕ, ◌+◌, ◌≡◌, ◌⊎◌, inl, inr, refl, ◌≢◌, ap, sym, ◌∙◌, Bool, true, arith}
use valkyrie.Base.Maps.{fill}
use valkyrie.Base.Outcome.{Outcome, ok, panic, fault, ◌>>=◌}
use valkyrie.Buddy.Init.{fresh, fresh-IsValid}
use valkyrie.Buddy.{free, allocate_one_page_frame, allocate}
use valkyrie.Buddy
use valkyrie.Math
use valkyrie.AddressSanitizer.{mark_allocated, find_slot}
use valkyrie.MemoryManager.{get_free_page, get_page_ref_idx, inc_page_ref_count}
use valkyrie.MemoryManager.Pages.{page, IsConsistent}
use valkyrie.VirtualMemoryMap.{
  Machine, make, map, walk, walk_loop, walk_round, new_table, map_entry, pd_invalid, page_of,
  clear_page, upper_indices, pte_index, get_physical_address, unmap, copy_page_frame,
}
use valkyrie.VirtualMemoryMap.Presence.{IsPresent}
use valkyrie.VirtualMemoryMap.Stops.{Stopped}
use valkyrie.VirtualMemoryMap.Maps.{Mapped, map-Mapped, granted_attr}
use valkyrie.VirtualMemoryMap.Lookups.{get_physical_address-map, Unmapped, unmap-map}
use valkyrie.VirtualMemoryMap.Copies.{Owned, Copied, copy_page_frame_lem}
use valkyrie.VirtualMemoryMap.Frames.{Exhausted}
use valkyrie.VirtualMemoryMap.Shares.{LeadsToPages, Shared}
use valkyrie.VirtualMemoryMap.Rounds.{dfs_copy_page_tables-Shared}
use valkyrie.Base.{◌%◌, ◌==◌, if◌then◌else◌, Bool-cases, subst, false}
use valkyrie.VirtualMemoryMap.{entry, dfs_copy_page_tables}
use valkyrie.VirtualMemoryMap.Fresh.{Made, make-Made}

abbrev start : Machine Unit
start = record {
  mm = record {
    buddy = fresh 0x10000000;
    slob = tt;
    ref_counts = λ i. 0;
    kasan = record { slots = λ i. 0 };
  };
  words = λ a. 0;
}

-- Page 7 of the zone is mapped at 0x400000, read-write and executable.
abbrev map_page : Machine Unit × ℕ → Outcome Bool
map_page (m, pgd) = map m pgd 0x400000 (page 7) 0x447 >>= λ m'. ok true

map_runs : (make start >>= map_page) ≡ ok true
unfolding make map get_free_page allocate_one_page_frame allocate Buddy.normalize_size
    Math.round_up_to_pow_of_2 Math.pow_of_2_loop Buddy.size_to_order Math.log2 Math.log2_loop
    Math.asr1 Buddy.allocate_order Buddy.find_victim Buddy.free_list_del_entry
    Buddy.free_list_del_head Buddy.split_block Buddy.split_loop Buddy.split_round find_slot
    mark_allocated fill Buddy.del_entry_loop Buddy.free_list_add_head Buddy.get_buddy
    Buddy.get_page_frame Buddy.hit Buddy.mark_block_as_allocatable Buddy.mark_block_as_allocated
    Math.pow Math.pow_loop get_page_ref_idx inc_page_ref_count clear_page map_entry new_table
    page_of pd_invalid pte_index upper_indices walk walk_loop walk_round
map_runs = refl

start-IsConsistent : IsConsistent start.mm
start-IsConsistent = record {
  valid = fresh-IsValid 0x10000000;
  zone = refl;
  unique = λ i j hi hj e p. absurd (omega arith);
  known = λ i (k, h, e). absurd (omega arith);
}

first_block : start.mm.buddy.frame_array 0 ≡ free 9
unfolding fill
first_block = refl

-- A new map.
made : Made start start-IsConsistent (make start)
made = elim (make-Made start start-IsConsistent) [
  | inl g ↦ g
  | inr (full, r) ↦ absurd (full 0 9 first_block)
]

-- The example maps page 7 of the zone at 0x400000, read-write and executable.
map-Mapped_example :
    Mapped made.after
      (page made.frame.index)
      0x400000
      7
      0x447
      (map made.after (page made.frame.index) 0x400000 (page 7) 0x447)
    ⊎ ((map made.after (page made.frame.index) 0x400000 (page 7) 0x447 ≡ panic)
        × ((d p : ℕ) × IsPresent made.after (page made.frame.index) 0x400000 d p))
    ⊎ Stopped
        (upper_indices 0x400000)
        made.after
        (page made.frame.index)
        (map made.after (page made.frame.index) 0x400000 (page 7) 0x447)
map-Mapped_example =
    map-Mapped made.after (page made.frame.index) 0x400000 7 0x447 made.valid (omega arith)
      (omega arith) (omega arith)

-- The same run, on the new map.
goes_on : map_page (made.after, page made.frame.index) ≡ ok true
goes_on = ap (λ o. o >>= map_page) (sym made.runs) ∙ map_runs

stops {ℓ} :
    {A : Type ℓ} (o : Outcome (Machine Unit))
    → (o >>= λ m. ok true) ≡ ok true
    → (o ≡ panic) ⊎ (o ≡ fault)
    → A
stops o r (inl e) =
    let bad : Path (Outcome Bool) panic (ok true) = ap (λ x. x >>= λ m. ok true) (sym e) ∙ r in
    absurd (cc)
stops o r (inr e) =
    let bad : Path (Outcome Bool) fault (ok true) = ap (λ x. x >>= λ m. ok true) (sym e) ∙ r in
    absurd (cc)

-- What the theorem says of that run.
abbrev MapCase : Type 0
MapCase =
    Mapped made.after (page made.frame.index) 0x400000 7 0x447
      (map made.after (page made.frame.index) 0x400000 (page 7) 0x447)
    ⊎ ((map made.after (page made.frame.index) 0x400000 (page 7) 0x447 ≡ panic)
        × ((d p : ℕ) × IsPresent made.after (page made.frame.index) 0x400000 d p))
    ⊎ Stopped (upper_indices 0x400000) made.after (page made.frame.index)
        (map made.after (page made.frame.index) 0x400000 (page 7) 0x447)

map_case : MapCase
map_case =
    map-Mapped made.after (page made.frame.index) 0x400000 7 0x447 made.valid (omega arith)
      (omega arith) (omega arith)

mapped :
    Mapped made.after
      (page made.frame.index)
      0x400000
      7
      0x447
      (map made.after (page made.frame.index) 0x400000 (page 7) 0x447)
mapped = elim map_case [
  | inl g ↦ g
  | inr (inl (e, there)) ↦ stops _ goes_on (inl e)
  | inr (inr (n, s, few, took, held, (full, e))) ↦ stops _ goes_on e
]

get_physical_address-map_example :
    get_physical_address mapped.after (page made.frame.index) 0x400123 ≡ ok (page 7 + 0x123)
get_physical_address-map_example =
    get_physical_address-map made.after (page made.frame.index) 0x400000 7 0x447 (omega arith)
      (omega arith) mapped 0x400123 (omega arith)

unmap-map_example :
    Unmapped made.after
      (page made.frame.index)
      0x400000
      7
      0x447
      (omega arith)
      (omega arith)
      mapped
      (unmap mapped.after (page made.frame.index) 0x400000)
unmap-map_example =
    unmap-map made.after (page made.frame.index) 0x400000 7 0x447 (omega arith) (omega arith) mapped
      (omega (arith, ap (λ (f : ℕ → ℕ). f 7) made.counts))

-- The descriptor of the page.
leads : page_of (page 7 + granted_attr 0x447) ≡ page 7
unfolding page_of
leads = refl

copy_page_frame_lem_example :
    ((mapped.after.mm.ref_counts 7 ≡ 1)
      × Owned mapped.after
          (page made.frame.index)
          0x400000
          7
          (page 7 + granted_attr 0x447)
          mapped.pte
          mapped.valid
          (omega arith)
          mapped.here
          leads
          (copy_page_frame mapped.after (page made.frame.index) 0x400000))
    ⊎ ((mapped.after.mm.ref_counts 7 ≢ 1)
        × (Copied mapped.after
              (page made.frame.index)
              0x400000
              7
              (page 7 + granted_attr 0x447)
              mapped.pte
              mapped.valid
              (omega arith)
              mapped.here
              leads
              (copy_page_frame mapped.after (page made.frame.index) 0x400000)
            ⊎ Exhausted mapped.after.mm
                (copy_page_frame mapped.after (page made.frame.index) 0x400000)))
copy_page_frame_lem_example =
    copy_page_frame_lem mapped.after (page made.frame.index) 0x400000 7
      (page 7 + granted_attr 0x447) mapped.pte mapped.valid (omega arith) mapped.here leads

three_ne_four : ◌≢◌ {A = ℕ} 3 4
three_ne_four e = absurd (omega (arith, e))

-- A table of the last level in page 3, whose fifth entry leads to page 7.
abbrev one_entry : Machine Unit
one_entry = record start { words = λ a. if a == entry (page 3) 5 then page 7 + 0x447 else 0 }

one_entry_leads : LeadsToPages 3 4 three_ne_four one_entry 512 0
unfolding pd_invalid page_of
one_entry_leads k lo hi z = elim (Bool-cases (entry (page 3) k == entry (page 3) 5)) [
  | inl e ↦ (7, omega arith, rw e refl)
  | inr e ↦
      let blank : one_entry.words (entry (page 3) k) ≡ 0 = rw e refl in
      let bad : (0 % 2 == 0) ≡ false = subst (λ (w : ℕ). (w % 2 == 0) ≡ false) blank z in
      absurd (cc)
]

dfs_copy_page_tables-Shared_example :
    Shared 3 4 three_ne_four one_entry 512 0 (dfs_copy_page_tables 0 one_entry (page 3) (page 4))
dfs_copy_page_tables-Shared_example =
    dfs_copy_page_tables-Shared 3 4 three_ne_four one_entry one_entry_leads
