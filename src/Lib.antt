-- ===== src/Lib.antt =====
-- The Pintos kernel of this repository: its threads with their scheduler, locks, timer and input
-- queue, its file system, from the free map to the descriptors of a process, and its linked
-- lists, modelled as functions on explicit state.
--
-- The scheduler holds the running thread and a ready list in order of priority; a thread that
-- blocks, yields or ends hands over to the first of that list. A semaphore keeps the threads that
-- wait for it, and a lock is a semaphore with a holder, to whom waiting threads lend their
-- priority.
--
-- A file is reached through an inode: twelve sector numbers, the last two of which lead to index
-- blocks. inode_grow takes sectors from the free map one by one, fills them with zeros on the
-- block device and stores their numbers in the inode and in index blocks; byte_to_sector walks
-- the same pointers back; inode_deallocate gives the sectors to the free map again. The free map
-- is a bitmap with one bit for each sector of the device, and it is itself kept in a file.
--
-- - Base (with Base/Tests, Base/Lists, Base/Monad, Base/Word, Base/Memory, Base/Each): the
--   natural numbers, lists and options all files use, the 32-bit additions, memcpy, and the monad
--   in which `none` is a panic or a failed ASSERT.
-- - Thread: threads/thread.c, with the frame of an external interrupt of threads/interrupt.c;
--   Thread/Create has the operations on the list of all threads. Ready is about the order of the
--   ready list, Switch and Schedule about a switch, Invariant and Frame about the states of the
--   scheduler, and Queue, Yield, Priority, Tick, Birth, Creation and Search about the operations.
--   `create_blocked` is thread_create before its call of thread_unblock; `add_child_proc` and
--   `process_exit_end`, the end of process_exit, are from userprog/process.c.
-- - Synch: threads/synch.c, semaphores and locks. `acquire_begin`, `acquire_down` and
--   `acquire_end` are lock_acquire before, at and behind its call of sema_down; `release_begin`
--   and `release_up` are lock_release before and at its call of sema_up; `try_down` and `try_end`
--   are lock_try_acquire to and behind its call of sema_try_down. Effects and Letting say what
--   each does to the locks, System and Owned are about threads in the midst of these calls,
--   Exclusion about what they reach, and Donation, Release and Wake about priorities.
-- - Timer: the sleeping threads of devices/timer.c. `sleep_begin` and `sleep_down` are
--   timer_sleep before and at its call of sema_down. `timer_tick` is an interrupt of the timer,
--   with timer_interrupt as the handler in intr_handler. Asleep says how a sleeping thread
--   stands, Wakeup follows timer_wakeup, Tick is about the interrupt, and Steps about the states
--   that the scheduler's operations and these interrupts lead to.
-- - Syscall: the descriptors of a process and the calls on open files in userprog/syscall.c;
--   `sys_open`, `sys_read` and so on are open, read and so on there. Table is about the table of
--   descriptors, Steps about the calls as steps, Opening about open and close, Transfer about
--   write, seek and read, and Closing about close_all_file.
-- - Intq: devices/intq.c, the ring of bytes between the keyboard's interrupt handler and a
--   thread. `intq_getc` and `intq_putc` are the parts behind their loops; a round of a loop is
--   `getc_acquire`, rounds of sema_down, `getc_wait` and `wait_end`. Ring is about the places in
--   the ring, Calls about each call and Steps about a run of them.
-- - Process: setup_stack of userprog/process.c, the stack on which a user program starts. Memory
--   is about single stores, Arguments about the loops, and Start about the whole. The element
--   address[argc], which is past the end of the array, is taken as a word that holds what was
--   stored in it.
-- - OpenFile: filesys/file.c, a position and a flag on an open inode. OpenFile/Deny is about
--   denying writes.
-- - DoublyLinked: lib/kernel/list.c, on a memory that maps an address to an element.
--   DoublyLinked/Chain says which list a memory holds, Insert and Ordered are about insertion and
--   the walks along a list. DoublyLinked/Sort is list_sort on the sequence of elements, with its
--   proofs in Laws and Passes.
-- - Bits: binary digits of bit_and, bit_or and bit_xor.
-- - Bitmap: lib/kernel/bitmap.c. `mark` is bitmap_mark, `scan_and_flip` is bitmap_scan_and_flip,
--   and so on; `set_bit` is bitmap_set and `none_set` is bitmap_none. Bitmap/Single is about one
--   bit, Bitmap/Range about ranges, Bitmap/Scan about the search for a group and Bitmap/Create
--   about new bitmaps.
-- - FreeMap: filesys/free-map.c. `allocate`, `release`, `init`, `create` and `load` are
--   free_map_allocate, free_map_release, free_map_init, free_map_create and free_map_open.
--   FreeMap/Laws has the outcomes, FreeMap/Count the number of free sectors.
-- - Device: devices/block.c, as far as the file system reads and writes sectors.
-- - Inode: filesys/inode.c and filesys/inode.h, with the lookup in Inode, growth in Inode/Grow
--   and removal in Inode/Dealloc. Inode/Slots and Inode/Layout say how a file of so many sectors
--   is laid out; the files Direct, Block, Single, Inner, Deep, Second and Levels each treat one
--   stage of growth, and Growth puts them together.
-- - Inode/Io: inode_read_at and inode_write_at. Content says what the bytes of a file are, Read
--   and Write follow the two loops, Patch is about one sector overwritten, and Extend adds the
--   growth of a file that is too short.
-- - Inode/Table: the list of open inodes. Laws is about the list as a table, Steps about the
--   operations as steps.
--
-- Sizes and sector numbers are natural numbers below 2 ^ 32, and the sums that may wrap are taken
-- modulo 2 ^ 32. Loops of C run on their own counters, except the while loop of
-- second_indir_alloc, which has fuel for 129 rounds: each round that does not end it fills one of
-- 128 inner index blocks. A loop on a range has its number of rounds as an argument. The loops of
-- inode_read_at and inode_write_at have the size plus one as fuel, as each round but the last
-- copies at least a byte. The walks along a list in memory take their fuel as an argument; more
-- than the number of elements is enough. list_sort has one pass more than there are elements as
-- fuel, since each pass halves the number of runs, and `none` stands for a sort that has not
-- ended by then; priority_donation has a round more than there are threads, since each round
-- raises another one.
--
-- The inode functions hold one inode's data and the state of map and device; a sector holds what
-- was last written to it as a value of its kind, so bytes are never read as an index block. A
-- local index block that the source leaves uninitialised has arbitrary contents, a parameter. The
-- map's own file is a parameter with its read and write functions, since it is written through
-- the same inode functions; its sectors are beside the modelled device. malloc is a parameter. A
-- function of the scheduler runs with interrupts off, so it is one step. The page of a new
-- thread, the record of a child and the reopened directory are arguments. An identifier of a
-- thread and the value of a semaphore wrap at 2 ^ 32. What process_exit does before it blocks,
-- condition variables, the inode lock, statistics, output and the freeing of memory are not
-- modelled, nor are the other parts of the kernel.
pub mod Base
pub mod Bitmap
pub mod Bits
pub mod Device
pub mod DoublyLinked
pub mod FreeMap
pub mod Inode
pub mod Intq
pub mod OpenFile
pub mod Process
pub mod Synch
pub mod Syscall
pub mod Thread
pub mod Timer
