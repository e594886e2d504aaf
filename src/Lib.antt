-- ===== src/Lib.antt =====
-- Verification of the mint kernel.
--
-- The kernel hands out physical memory through mm/physical.c, which keeps two buddy allocators
-- (lib/buddy.c). An allocator keeps a stack of free blocks for each order (lib/stack.c), linked through
-- the free pages themselves, and a bitset for each order (include/lib/bitset.h). Both use the arithmetic
-- of include/lib/math.h. The scheduler (tm/sched.c) takes the threads of a circular list
-- (include/lib/list.h) in turn. Critical sections turn interrupts off through cpu/interrupt.c,
-- whose dispatch ends in drivers/irqchip/irqchip.c. Console output is formatted by lib/printf.c.
-- fs/path.c walks from a path to an inode through the functions of a file system, of which
-- fs/initfs/initfs.c is the one in memory, and fs/file.c reads and writes what it opens.
-- drivers/pci/pci.c scans the bus and finds a device for each driver.
--
-- Files:
--   Base      names of the library passed on, tests on numbers, lists, bits of a number, faults.
--   Math      include/lib/math.h. Macros become functions on 64-bit values, the wrap written out.
--             int_of makes the int of a size_t. Math/Log and Math/Rounding hold the lemmas.
--   Bitset    include/lib/bitset.h. An array of bytes is a list, and `none` is an access past its end.
--             Bitset/Bytes: one byte. Bitset/Laws: stores and tests. Bitset/Scan: the search.
--   Stack     lib/stack.c, include/lib/stack.h. `Ram` is the first word of every page frame and the
--             frame that the window page shows. Stack/Links: the chain through the pages.
--   Buddy     lib/buddy.c, include/lib/buddy.h. An operation takes and returns the allocator and `Ram`.
--             Buddy/Cover counts how often a byte is free, Buddy/Invariant says what a valid allocator
--             is, Buddy/Moves treats marks, pushes and pops, and Buddy/Init, Buddy/Split, Buddy/Alloc,
--             Buddy/Disjoint, Buddy/Free and Buddy/Double the operations. Buddy/Pages says which pages
--             the stacks write, so that two allocators can share `Ram`.
--   Physical  mm/physical.c. The two static regions are a record, and a `NULL` allocator is `none`.
--             Physical/Regions is the invariant, Physical/Shared moves it across the other region's
--             writes, and Physical/Alloc, Physical/Free and Physical/Bounds treat the operations.
--   Ring      include/lib/list.h. The `struct list_element` at every address, as two functions.
--             Ring/Chain says what a list looks like in memory, and Ring/Add and Ring/Tail the insertions.
--   Sched     tm/sched.c, include/tm/sched.h: the run queue over Ring. A thread goes by the address of
--             its `runqueue_list`. Sched/Turns says whose turn is next.
--   Interrupt cpu/interrupt.c, include/cpu/interrupt.h: the nesting depth with the processor's flag, and
--             the circles of handlers. Interrupt/Nesting and Interrupt/Remove hold the theorems.
--             Interrupt/Circle: registration, and the walk over the handlers.
--   Thread    tm/thread.c, tm/process.c, arch/x86_64/tm/thread.c: threads, those of a process, and the
--             switch. Thread/Switch: a switch and back. Thread/Stack: a new kernel thread.
--   Irqchip   drivers/irqchip/irqchip.c, include/drivers/irqchip/irqchip.h: the interrupt controllers, with
--             the nesting of Interrupt. A function pointer is a function on the ports. Irqchip/Pic is
--             drivers/irqchip/intel-8259.c, Irqchip/Find treats the search and the masks, and Irqchip/Set
--             the change of the controller.
--   Exception cpu/exception.c, and the dispatch of cpu/interrupt.c, which ends in Irqchip. Exception/Order:
--             which handlers run when.
--   Hashmap   lib/hashmap.c, include/lib/hashmap.h, over Ring and Memory. Hashmap/Lookup: a lookup after a
--             store.
--   Time      kernel/time/time.c, include/kernel/time/time.h: the clock, with what the clock source reads
--             as an argument. Time/Advance: how far an update moves it.
--   File      fs/file.c, include/fs/file.h: reads and writes of an open file. File/Offset: where they leave
--             its offset. `file_open` is in Paths.
--   Virtual   mm/virtual.c: the loops over pages. What is done with one page is a parameter. Virtual/Pages:
--             which pages they reach.
--   Vfs       include/fs/fs.h: inodes and dentries.
--   Paths     fs/path.c, fs/dentry.c, fs/inode.c, over the operations of a file system, `kmalloc` and the
--             hash map of inodes. `__path_resolve_dentry` is path_resolve_dentry, `__path_resolve` is
--             path_resolve_existing, and `__path_resolve_create` is path_resolve_create. Paths/Parts:
--             `dirname` and `basename`. Paths/Names: the names of a path. Paths/Tree: what the walk relies on.
--             Paths/Step: one name. Paths/Walk: the walk along them. Paths/Create: where a file is created.
--   Filesystems  fs/fs.c: the registered file systems. Filesystems/Lookup: the one that a name finds.
--   Initfs    fs/initfs/initfs.c. An entry of a directory goes by the address of its `list`. Initfs/Names:
--             directories and lookups. Initfs/Create: new files. Initfs/Reads and Initfs/Contents: what
--             files hold.
--   Symbol    kernel/symbol.c: the symbols of the kernel. Symbol/Nearest: the one that an address is in.
--   Valloc    mm/valloc.c. Valloc/Regions: the ranges that are handed out.
--   Pci       drivers/pci/pci.c, include/drivers/pci/pci.h. What the ports answer is a parameter. Pci/Match:
--             the device for a driver. Pci/Listed and Pci/Detect: the scan of the bus.
--   Clocksource  kernel/time/clocksource.c: the registered clock sources. Clocksource/Select: the choice.
--   Memory    the mem functions of lib/string.c, on one byte for every address. Memory/Copy and
--             Memory/Find hold the theorems.
--   Strings   the str functions of lib/string.c on that memory. Strings/Chars says what a string is;
--             Strings/Length, Compare, Copy, Bounded, Search and Tokens treat the functions.
--   Numbers   the digits of lib/printf.c. Numbers/Digits: what they spell. Numbers/Decimal: reading them.
--   Printf    lib/printf.c, include/lib/printf.h: the format loop. The output is the list of the bytes
--             written. Printf/Output treats it with and without a limit, Printf/Bounds the whole calls.
--   Tests     runs and examples.
--
-- Bounds and fuel. Loops with a counter run on the number of rounds the code makes, which is
-- computed from the counter, so they need no bound. `bitset_first_unset`, the inner loop of
-- `buddy_free_region`, `list_for_each` and LIST_FOR_EACH run on fuel: a round for each index or
-- element and one more are enough for the first and the lists, and the second needs one more than
-- the chunks in the region. The loop of `time_update` needs a round for each second and one more.
-- A loop over a string needs a round for each character and one more, and the walk along a path one for
-- each name and one more. The search of a directory has fuel for its entries and fuel for a name. The loops
-- of mm/virtual.c need a round for each page and one more. `printf_format` runs on the length of the format and one more, and
-- each number loop on the width of its word.
-- Orders are at most 30, since `1 << order` is an `int`, and pages are at most 2 ^ 52, since a page
-- table entry has 40 bits for the frame.
--
-- Not modelled: `kmalloc` is taken to have space, but in Paths, where it may return `NULL`; the
-- blocks that it returns are arguments. The hash of lib/murmur.c and what the input ports
-- read are parameters. The page table walk below `virtual_map` is not
-- part of `Ram`. What a handler function does is a parameter,
-- and it does not change the lists of handlers while interrupt_dispatch walks them. Of the
-- scheduler and the threads, `sched_init` and `kthread_exit` are not modelled. A byte that is written behind
-- the name of an entry of Initfs does not change the number that lies there. The page tables, `mount_fs`,
-- other drivers, and the boot are not modelled.
pub mod Base
pub mod Math
pub mod Bitset
pub mod Stack
pub mod Buddy
pub mod Physical
pub mod Ring
pub mod Sched
pub mod Interrupt
pub mod Irqchip
pub mod Exception
pub mod Hashmap
pub mod Time
pub mod Clocksource
pub mod Thread
pub mod File
pub mod Memory
pub mod Strings
pub mod Valloc
pub mod Vfs
pub mod Initfs
pub mod Paths
pub mod Pci
pub mod Virtual
pub mod Filesystems
pub mod Symbol
pub mod Numbers
pub mod Printf
mod Tests
