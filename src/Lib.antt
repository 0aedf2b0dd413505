-- ===== src/Lib.antt =====
-- LIGHTUX: a model of the kernel under kernel/src, and theorems about it. Paths below are from the
-- root of the repository.
--
-- The kernel is written in C and runs on one processor of the x86-64 architecture. Each file of the
-- library models one file of the source: state is a record with the file's globals, an operation is
-- a function that takes the state and gives the next one, and a routine that may panic or wait for
-- ever has the type `Outcome`, with `returns`, `panics` (the machine halts in the state given) and
-- `spins` (a lock that nobody gives back). Words are numbers of ℕ whose wrap-around is written out
-- (`add64`, `sub64`, `u8`); a memory is a function from addresses to bytes.
--
-- The parts and the files:
--   * Prelude, Bits: the names shared, comparisons of words, runs that return, masks as arithmetic.
--   * Memory: kernel/src/utils/memory.c, memcpy, memset, memmove and memcmp over the bytes of memory.
--     The loops recur on the bytes left.
--   * Bitmap: kernel/src/arch/x86_64/memory/bitmap.c, InitializeBitmap, bitmap_Get and bitmap_Set,
--     over the bytes at the bitmap's address. An index past its end reads and writes what lies
--     there, as in C; at an address that is not canonical the machine faults, which the model of the two
--     operations does not. Bitmap/Laws relates the two operations.
--   * Spinlock: kernel/src/arch/x86_64/multitasking/spinlock.c, as a caller that runs alone sees it.
--     Spinlock/Threads has the attempts and releases of threads as steps that interleave, one round of
--     the loop at a time, Spinlock/Exclusion what holds along every run. Memory is sequentially
--     consistent.
--   * Boot: kernel/src/boot.c, the total memory and the memory map that GetBootInfo keeps. What the
--     boot loader answers is a parameter.
--   * Pmm: kernel/src/arch/x86_64/memory/pmm.c, the physical page allocator. Pmm/Invariant has the
--     accounts that a state keeps, Pmm/Search the search for a free run, Pmm/Pages the loops over
--     pages, Pmm/Allocate and Pmm/FirstFit the allocation, Pmm/Release the way back, Pmm/Init the
--     start, Pmm/Beyond and Pmm/OutOfMemory what happens at the ends, Pmm/Reach all runs, Pmm/Room
--     the pages that are left. The search recurs on the bits of the bitmap above its hint, which is
--     what the loop of the source tests.
--   * Paging: kernel/src/arch/x86_64/memory/paging.c, paging_MapPage and paging_VirtToPhysical over
--     page tables in memory, seen as words at their addresses in the higher half map. Paging/Words
--     has the masks, Paging/Tables the shape of a tree of tables and which pages hold it, Paging/Walk
--     the translation level by level, Paging/Fresh a new table, Paging/Descend one level of the
--     mapping, Paging/Chain three of them, Paging/Entry the last entry, Paging/Mapping and
--     Paging/MapPage the whole. The recursion on levels is proved equal to the nested tests of the
--     source. The page tables and the bitmap of the page allocator are separate parts of the state.
--   * Vmm: kernel/src/arch/x86_64/memory/vmm.c, pages by their addresses in the higher half map.
--   * Text: kernel/src/utils/string.c, ctype.c and maths.c, strings as zero-terminated
--     bytes. A loop that looks for the terminator recurs on `rounds`, and spins where these run out;
--     the theorems hold for any number of rounds above the length of the string.
--   * Framebuffer: kernel/src/drivers/framebuffer/fb.c, pixels, rectangles and the whole screen over
--     the 32-bit words of the framebuffer. Framebuffer/Pixels has the place of a pixel,
--     Framebuffer/Rectangle the loops.
--   * Keyboard: kernel/src/drivers/input/kb_translate.c and keyboard.c, scan codes as
--     characters, the interrupt handler, and GetKey as steps that interleave with interrupts, each step one
--     access of the key or the hlt. Keyboard/Events has what the interrupts and the steps come to,
--     Keyboard/Typing what GetKey returns.
--   * Descriptors: kernel/src/arch/x86_64/cpu/gdt.c and idt.c, the entries of the descriptor tables,
--     and in Descriptors/Decode what the processor reads from them.
--   * Pci: kernel/src/drivers/pci/pci.c, the configuration addresses, reads and writes. What the ports
--     answer is a parameter, and stays the same. Pci/Devices has the headers of devices, the scan of the
--     buses, whose list of devices is a List, and the look-up in it; Pci/Lookup what is found. The devices
--     that go to InitializeAHCI are recorded.
--   * Heap: kernel/src/arch/x86_64/memory/heap.c, over the 64-bit words of memory, so that nodes that
--     overlap share words. The pages of an expansion come from Vmm. The search recurs on `rounds`, one for
--     each node passed; the recursion of CombineBackward too. Heap/Blocks has the list of blocks and the
--     allocation on it, Heap/Splitting and Heap/Taking a taken block, Heap/Malloc the search, Heap/Joining
--     and Heap/Release the way back, Heap/Starting the first heap. Blocks in ascending order are assumed,
--     as InitializeHeap and SplitNode make them.
--   * LinkedList: kernel/src/arch/x86_64/memory/linked_list.c, over the words of the heap's memory, with
--     malloc and free of Heap. LinkedList/Chains has the lists and the addition of a node,
--     LinkedList/Unlinking the removal. Each loop recurs on `rounds`, one for each node.
--   * Disk: kernel/src/drivers/disk/mbr.c. The disk is a parameter, a function from the address of a
--     sector to its bytes or a failure, as diskRead in kernel/src/drivers/disk/disk.c answers; a failed
--     read leaves the buffer as it was, as it does where the controller is there.
--   * Printf: kernel/src/drivers/console/printf.c, over any callback `putc` on a state of its own. A
--     string is the list of its characters before the terminator; va_arg takes 64-bit words in order. The
--     digits of a number recur on 64 rounds, enough for 64 bits, and the list that they make stands for a
--     buffer of 32 characters, which has room for them in the radices 8, 10 and 16 that printf_internal
--     passes. Printf/Numerals has the
--     numbers, Printf/Directives formats as lists of directives.
--   * Console: kernel/src/drivers/console/console.c, the cursor, putc and puts over the framebuffer. The
--     font is a parameter. updateCursor and console_clearScreen call each other, on `rounds`; two are
--     enough. Console/Drawing has what keeps the size of the screen, Console/Cursor updateCursor,
--     Console/Ending and Console/Putc putc. InitializeConsole and printf, which takes the lock and calls
--     printf_internal with putc, are not modelled.
--   * Fat32: kernel/src/drivers/fs/fat32/fat32.c. Fat32/Reading has FAT32_Read and FAT32_Seek,
--     Fat32/Names the 8.3 and long names, Fat32/Directory FAT32_FindEntry, Fat32/Listing and
--     Fat32/Paths the list of a directory, the traversal of a path and FAT32_Open, Fat32/Walking the names
--     of a path one after another. Fat32/Layout says
--     where the bytes of a file lie on the disk; Fat32/Copying, Fat32/Contents and Fat32/Read prove the
--     read, Fat32/Seeking, Fat32/Naming and Fat32/Opening the others. The loops over a chain of clusters
--     and the searches for a terminator recur on `rounds` and spin where these run out; a read of a
--     file needs no more rounds than the file has bytes. Where the code reads memory that it has not
--     written, the model takes what is there from a record, `Leftovers`. The arrays for a component of
--     a path and for a name have no bound in the model. FAT32_Close, which frees the handle, is not
--     modelled.
--
-- Pmm takes Bitmap, Boot and Spinlock as they are; Paging calls Pmm for its tables; Vmm calls both.
-- Heap calls Vmm and Spinlock, LinkedList calls Heap, Console draws with Framebuffer, and Fat32 takes
-- Disk, and strings from Text.
--
-- Not modelled: tasks and the scheduler, the AHCI and timer drivers, the choice of the disk's
-- controller, the shell, the dispatch of interrupts; single machine instructions (port input and
-- output, CR3, the TLB), logging, the font and the boot protocol header of the boot loader, which is
-- not the kernel's own.
pub mod Prelude
pub mod Bits
pub mod Memory
pub mod Bitmap
pub mod Spinlock
pub mod Boot
pub mod Pmm
pub mod Paging
pub mod Vmm
pub mod Text
pub mod Framebuffer
pub mod Keyboard
pub mod Descriptors
pub mod Pci
pub mod Disk
pub mod Fat32
pub mod Printf
pub mod Heap
pub mod LinkedList
pub mod Console
