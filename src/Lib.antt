-- ===== src/Lib.antt =====
-- The kernel of the repository: the parts of it that move bytes between processes' pages, the swap
-- device and the files, the threads with their locks, and the lists and tables that all of these
-- use, as functions, and theorems about them. The other files' comments leave out the `src/` of a
-- path.
--
-- The parts and the files that model them:
-- * Bitmap (src/lib/kernel/bitmap.c): an array of 32-bit words and a count of bits; Single, Multiple,
--   Scan and Create are about its operations.
-- * Block (src/devices/block.c): a device is a function from sector numbers to lists of 512 bytes.
-- * Synch (src/threads/synch.c): semaphores, as one thread sees them until it sleeps; Synch.Lock:
--   locks, and the steps of several threads on one lock, in any order; Synch.Condition: condition
--   variables.
-- * Threads (src/threads/thread.c, src/threads/interrupt.c): threads by the page that holds them,
--   the run queue, and the operations that end in a switch; Create makes threads, Turns has the steps of the
--   kernel as a relation, Handler is `intr_handler` with the timer of src/devices/timer.c.
-- * Lists (src/lib/kernel/list.c): doubly linked lists over a store of links, by address.
-- * Hash (src/lib/kernel/hash.c): chained tables whose buckets are lists of elements; the hash and less
--   functions of a table are arguments. Page.Hashed instantiates them with those of src/vm/page.c.
-- * Swap (src/vm/swap.c): swap_write finds eight free bits with `Bitmap.scan_and_flip` and copies a
--   page to eight sectors; swap_read copies them back.
-- * Inode (src/filesys/inode.c): inode_read_at and inode_write_at move a range of a file's bytes, sector
--   by sector, through a bounce buffer where a sector is not moved whole.
-- * CString (src/lib/string.c): blocks of memory and null-terminated strings, as lists of bytes.
-- * Pagedir (src/userprog/pagedir.c, src/threads/vaddr.h, src/threads/pte.h): the two-level page directory as a
--   function from page numbers to entries, and the set of page tables that are there.
-- * Filesys (src/filesys/inode.c, src/filesys/free-map.c): inode_open, inode_close and inode_create over a
--   store of inodes and the map of free sectors; Filesys.Files (src/filesys/file.c): files over them.
-- * Descriptors (src/userprog/syscall.c): the system calls on the table of a process's open files.
-- * Loading (src/userprog/process.c): which segments of an executable are accepted, and the entries that
--   load_segment makes for their pages with `supdir_set_page`.
-- * IntQueue (src/devices/intq.c): the ring of bytes between interrupt handlers and threads.
-- * Frame (src/vm/frame.c): the frame table, eviction (Evict), and the way back of a page (Reload).
-- * Page (src/vm/page.c): the supplemental page table, and load_page, which fills a frame from a file or
--   the swap device and maps it with `pagedir_set_page`.
--
-- Functions have the names of the source, less the prefix that the module's name gives. Code that
-- stops at an assertion answers `panic`, an access outside a block `wild`, and a thread that goes to
-- sleep `sleeps` (Prelude.Results). Machine integers are native numbers that wrap at the width of
-- the source's type where the code computes with them. Allocation is an argument: whether, and with
-- what contents, the allocator gives memory. So is whether an external interrupt is handled, for the
-- operations of synch.c that assert that none is; the swap device, the frame table and the system
-- calls use them in page faults and traps of a process, which are no external interrupts.
--
-- Loops are structural recursion on the rounds left. The loops of inode.c run on fuel, one more than
-- the bytes to move, since every round moves at least one; the loops of load_page and
-- load_segment on the bytes that they go over, which fall in every round; the theorems are about
-- these calls as they are made. The loops of Lists run on fuel for one round more than the
-- elements; that of rehash on the number it starts from, which falls in every round.
--
-- Not modelled: the switch of stacks, which is assembly; device drivers; what a thread does in
-- `cond_wait` after it has slept; page faults; directories; the checks of user pointers in system
-- calls, the rest of load and the waiting for children.
pub mod Prelude
pub mod Bitmap
pub mod Block
pub mod Synch
pub mod Swap
pub mod Inode
pub mod CString
pub mod Pagedir
pub mod Page
pub mod Filesys
pub mod IntQueue
pub mod Descriptors
pub mod Loading
pub mod Hash
pub mod Lists
pub mod Threads
pub mod Frame
