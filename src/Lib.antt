-- ===== src/Lib.antt =====
-- The memory management and the scheduler of a runtime: a slice allocator over mmap, on top of it a
-- lock-free malloc, the lock-free queue that malloc uses, the headers, the memory and the threads of
-- the collector, the scheduler of threads with its lock-free queue, and the executors that run them.
--
-- The program. src/mm/slice.c keeps a table of slices, ranges of memory that mmap gives, on a
-- lock-free list of unused descriptors, and counts the space of the program against limits. Both
-- malloc and the garbage collector take their memory from it. src/mm/malloc/lf_malloc.c gives out
-- blocks of superblocks, one slice each. A descriptor has an anchor, a word of 64 bits with the
-- first free block, credits, a state and a tag; a processor heap, one for each executor and size
-- class, has an active word, a descriptor's address with credits in its low bits, and a slot for a
-- partial superblock. The other partial superblocks of a size class are in a queue. All of it is
-- updated by compare-and-set. src/os/posix/os_mem.c has the calls of the system.
-- src/mm/malloc/lf_block_queue.c is the queue of partial superblocks: a linked list of nodes with
-- a sentinel, whose retired nodes wait until no hazard pointer of an executor names them.
-- src/mm/gc/gc_desc.c reads and writes the headers of the collector's objects, and
-- src/mm/gc/gc_alloc.c gives out their memory from slices, each of a size that is a power of two,
-- on stacks for each generation. src/cc/noninteract_scheduler.c keeps for each executor a local
-- queue of threads, shares threads with the other executors by a lock-free queue, and changes the
-- status of a thread, a word with a reference flag, by compare-and-set. That queue is
-- src/cc/lf_thread_queue.c, with a fixed number of nodes that executors keep in lists of their own
-- and balance against a shared one; src/mm/gc/lf_object_queue.c is the same for objects.
-- src/cc/thread_executor.c has the executors, threads of the system: each has a mailbox of
-- signals, and goes from one thread of the program to the next, whose mailbox names the executor
-- while it runs. In src/mm/gc/gc_thread.c each executor's collector claims objects by their
-- forwarding pointers, and keeps those that it claimed in a queue of its own.
--
-- The files.
--   Base: the names that all use, Boolean tests, lemmas on masks and shifts (Base/Bits),
--     `unsigned int` (Base/Word), routines among other executors (Base/Interleave).
--   Os/Mem: src/os/posix/os_mem.c, the calls that each function makes and the protections.
--   Slice/Types, Slice/Entry, Slice/Space, Slice/Alloc: include/mm/slice.h and src/mm/slice.c; the
--     descriptors, the counters and limits, and slice_alloc, slice_free, slice_set_usage, slice_set_prot.
--     Their children hold the proofs.
--   Malloc/Anchor: src/mm/arch/ia32/lf_malloc_data.c, anchors and active words as bit fields.
--   Malloc/SizeClass: the size classes of src/mm/malloc/lf_malloc.c and find_heap.
--   Malloc/State: its structs, the memory of the blocks, and the compare-and-set of each shared word.
--   Malloc/Layout: mm_malloc_request, mm_malloc_init. Malloc/Desc: desc_alloc, malloc_desc_retire. Malloc/Superblock: reservation, the pop from the active
--     superblock, update_active, heap_put_partial. Malloc/Partial: malloc_from_partial.
--     Malloc/Alloc: malloc_from_new_sb, try_alloc, malloc_lf. Malloc/Free: try_free, free_lf.
--   Malloc/Superblock/Invariant: when a superblock is consistent with its anchor and what is set aside.
--   BlockQueue/Nodes, BlockQueue/Retired, BlockQueue/Queue: src/mm/malloc/lf_block_queue.c; the nodes
--     and their allocation, the retired nodes and the scan, the operations on the queue.
--     BlockQueue/Links: when nodes are linked as a sequence.
--   Gc/Desc: src/mm/gc/gc_desc.c.
--   Gc/Alloc, Gc/Alloc/Refresh, Gc/Alloc/Bump, Gc/Alloc/Release: src/mm/gc/gc_alloc.c; the stacks of
--     slices and the counters of space, gc_allocator_do_refresh, the allocation of objects,
--     gc_allocator_release_slices.
--   Gc/Thread, Gc/Thread/Sizes, Gc/Thread/Local, Gc/Thread/Phase, Gc/Thread/Claim, Gc/Thread/Weak: src/mm/gc/gc_thread.c; the state
--     of the collector, sizes and generations, the local queue and the stack of arrays, the phases, and the claim
--     of objects with the copy of their pointers.
--   Sched/State, Sched/Local, Sched/Status, Sched/Balance: src/cc/noninteract_scheduler.c; its state,
--     the local queue, the statuses of threads, and the exchange of threads with scheduler_replace.
--   ThreadQueue/Init, ThreadQueue/Nodes, ThreadQueue/Retired, ThreadQueue/Queue: src/cc/lf_thread_queue.c; its start,
--     the unused nodes and their balance, the retired nodes and the scan, the operations on the queue.
--   ObjectQueue: src/mm/gc/lf_object_queue.c, which is the same code with other names.
--   Exec/State, Exec/Signals, Exec/Cycle, Exec/Life, Exec/Threads: src/cc/thread_executor.c and src/cc/thread.c;
--     executors and mailboxes, the signals of executors and the wake-up of idle ones, the change to another thread,
--     the start and the end of executors, and of threads.
--   Sched/Commands, Exec/Commands: src/cc/cc.c.
--   The modules Examples, and Malloc/Runs: the theorems at concrete inputs.
-- A definition has the name of the function that it models. A part of a function has a name of its
-- own and a comment that says which part.
--
-- Other executors. A routine that ends in a compare-and-set is a function of a window: what the
-- others do to the state before it reads and between the read and the compare-and-set. A loop
-- `for(i = 1; !try(); i++)` takes one window of a schedule for each try; `none` means that it is
-- still running when the schedule ends. A quiet window is one in which the others do nothing.
-- Theorems on slices hold for any windows where they say so; those on superblocks are about an
-- executor that is alone.
--
-- A write through a NULL pointer, a division by 0, a failed check, a call of panic, or a loop that
-- leaves the arrays is the result `crashed` (Base/Exit).
--
-- Bounds. Numbers are natural numbers; `unsigned int` wraps at 2 ^ 32 where the code adds or
-- subtracts what may wrap. Pointers have 32 bits, as on ia32, and do not wrap. The loops of
-- malloc_lf, malloc_from_partial, remove_empty_desc, the scheduler, executor_idle_thread and
-- gc_thread_check_ptr have fuel, one more than the windows of the schedule; each round uses up a window, so the schedule
-- ends first. The loop of a scan has the number of retired nodes as fuel, and those of
-- scheduler_destroy and of the walk along the free slices have fuel as an argument.
--
-- Parameters. What mmap returns, the sizes of descriptor_t and of other structs, the values of
-- locals that the code reads before it sets them, and the slices that malloc, its queue and the
-- collector are given (a sequence in each state) are arguments. CACHE_LINE_SIZE is 32 and
-- SLICE_TAB_SIZE 256, as in include/arch/ia32/arch.h.
--
-- The codes EX_SIGNAL_SCHEDULE and EX_SIGNAL_GC, GC_STATE_INACTIVE, GC_STATE_PHASE and
-- GC_STATE_INITIAL have no definition in the repository and are part of the states, as are the
-- comparisons of floats with gc_hard_ratio and gc_soft_ratio.
--
-- The scheduler sees the queue of threads as a sequence of threads.
--
-- Not modelled: the copy of whole objects and arrays, the write log and the loop of a thread of the
-- collector (src/mm/gc/gc_thread.c), of which a part does not compile, executor_start, the launcher
-- and the thin calls of the system, signal masks and contexts of the machine; fences, delays
-- between tries, debug output and the checks of INVARIANT. scheduler_cycle uses names that it
-- does not declare, and does not compile; the executors take it as an argument, and what they rely
-- on it for is a hypothesis (Exec/Cycle/Bound).
pub mod Base
pub mod BlockQueue
pub mod Exec
pub mod Gc
pub mod Malloc
pub mod ObjectQueue
pub mod Os
pub mod Sched
pub mod Slice
pub mod ThreadQueue
