-- ===== src/Lib.antt =====
-- valkyrie, an operating system kernel for the Raspberry Pi 3: its memory allocators, its page
-- tables, its containers, its schedulers, its tasks, its lists, its shared pointers, its C strings
-- and the directories of its file system in memory.
--
-- How the parts interact. The memory manager (mm/MemoryManager.cc) owns two zones; it takes pages
-- of the first one from a buddy allocator (mm/BuddyAllocator.cc), which rounds sizes with
-- lib/Math.cc, and records every pointer that it hands out in a table (mm/AddressSanitizer.cc). The
-- page tables of a task (mm/VirtualMemoryMap.cc) are pages that it hands out, and the pages that
-- they map are counted by it. The timer (kernel/TimerMultiplexer.cc) keeps its events in a Deque;
-- the tasklet scheduler (include/kernel/TaskletScheduler.h) keeps its tasklets in a RingBuffer; the
-- task scheduler (proc/TaskScheduler.cc) keeps its tasks in a List and is driven by timer ticks; a
-- task (proc/Task.cc) leaves it for good in exit, and waits in it for its children.
--
-- Which file models what. Each component's file has its state as a record, with the fields of the
-- C++ class, and one function for each member function, under its name in snake case; loops and the
-- bodies of long functions are functions of their own, with a comment that quotes the code. The
-- component's folder holds the proofs and, in Tests, runs and examples.
--   Base              shared names, tests on numbers, arrays as functions, and Outcome, which says how
--                     a run ends: with a result, in Kernel::panic, in undefined behaviour (fault), or
--                     in a loop that has used up its fuel (hang)
--   Math              lib/Math.cc
--   Mutex             include/lib/Mutex.h
--   Buddy             mm/BuddyAllocator.cc, include/mm/BuddyAllocator.h: Chains and Links see the next
--                     pointers as lists, Frames and Marks describe the frame array, FreeLists, Blocks and
--                     Split the free lists and the halving of blocks, Grants and Allocate the requests,
--                     Alignment, Merge and Deallocate the frees, Init the constructor,
--                     and Runs whole runs of calls
--   AddressSanitizer  mm/AddressSanitizer.cc
--   MemoryManager     mm/MemoryManager.cc: Pages and Free hand out and free pages, RefCounts counts them,
--                     and Small joins kmalloc and kfree with the small-chunk allocator, their argument
--   SlobChunks        the headers of chunks in include/mm/SlobAllocator.h
--   SlobAllocator     mm/SlobAllocator.cc: Sizes rounds requests, Bins and Entries see the bins as lists, Tops
--                     and Fits serve requests from the top chunk and from a bin, Frees gives chunks back,
--                     Leaks has those that no bin gets, Splits cuts them
--   VirtualMemoryMap  mm/VirtualMemoryMap.cc and the masks of include/mm/mmu.h: Entries takes
--                     descriptors apart, Frames gets pages for tables, Trees and Links say what a
--                     walk may change, Stops why it ends early, Walks and Presence what it finds,
--                     Maps, Lookups and Copies what map, unmap and the handler of copy-on-write
--                     pages do, Fresh the constructor, Shares and Rounds the loop of copy_from
--   Deque             include/lib/Deque.h: Shifts for its loops, Laws cell by cell, Contents and Refine
--                     as operations on lists
--   RingBuffer        include/lib/RingBuffer.h
--   TaskletScheduler  include/kernel/TaskletScheduler.h
--   TimerMultiplexer  kernel/TimerMultiplexer.cc, and the flags of kernel/Timer.cc
--   TaskScheduler     proc/TaskScheduler.cc, and the task fields that it uses
--   Tasks             proc/Task.cc, proc/Signal.cc and sys_close: Calls has the calls of a task, Family the
--                     process tree, Exits and Waits the end of a task, Lookup and Listing the searches of
--                     the tree, Descriptors the files, Signals what is pending
--   SharedPtr         include/lib/SharedPtr.h and WeakPtr.h: Counts says what the counts mean, Owners and
--                     Releases have the pointers that come and go, Weak the weak ones, Assign the assignment,
--                     and Runs whole runs
--   LinkedList        include/lib/List.h: Rings has the chains of pointers, Ends how an entry is added and
--                     taken out, Pushes and Removals the operations
--   TmpFs             the directories of fs/TmpFS.cc
--   CString           lib/CString.cc: Text has texts in memory, then Copies, Compare, Search, and Numbers
--                     for atoi
--
-- Bounds and fuel. A size_t is a number below 2^64 and an int its 32-bit pattern, with the wrap-
-- around written out where the code can reach it; the indices of containers are taken to be below
-- 2^31. The loop of round_up_to_pow_of_2 gets 65 rounds, log2 32, sqrt x + 1, the walk of a free
-- list 513, and splitting and merging 10, one for each order; the theorems on the calls show that a
-- run with a result exists, so this is enough. The tick of the timer gets one round for each event,
-- a loop over a text more rounds than the text has bytes, a walk over a list one more than it has
-- nodes, a search of the process tree one round for each task, and the destructor of a task one
-- more than the task has active children.
--
-- Not modelled: printing; the calls of the lock inside the other components; the registers of
-- devices and of the processor; callbacks and tasklets that call back into the component that runs
-- them.  fork, exec, mmap and the loading of programs, the other file systems and the string class
-- have no model here yet.
pub mod Base
pub mod Math
pub mod Mutex
pub mod Buddy
pub mod AddressSanitizer
pub mod MemoryManager
pub mod SlobChunks
pub mod SlobAllocator
pub mod VirtualMemoryMap
pub mod Deque
pub mod RingBuffer
pub mod TaskletScheduler
pub mod TimerMultiplexer
pub mod TaskScheduler
pub mod Tasks
pub mod SharedPtr
pub mod LinkedList
pub mod TmpFs
pub mod CString
