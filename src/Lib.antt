-- ===== src/Lib.antt =====
-- ArmoniOS, a small AArch64 desktop operating system in C: models of its core components and the
-- theorems that make them correct.
--
-- A function of the source keeps its name. One that updates static variables or the object behind a
-- pointer takes the old state and returns the new one beside its result. An unsigned word is a
-- natural number and its arithmetic wraps where the source's does. A C `for` or `while` loop recurs on
-- the rounds left, or on fuel where the source's test ends it.
--
-- Prelude: lists, bits, words and Boolean tests that all modules share.
-- Pmm: kernel/mm/pmm.c, the physical page allocator. `Pmm` holds its static variables. The state
--   before pmm_init has no model: pmm_init sets every variable.
-- LibString: programs/libkarm/string.c. A memory is the byte at each address, so source and target
--   blocks may overlap. strlen has fuel for the bytes it looks at, which a text's length bounds. strcmp
--   is not modelled.
-- Arena: programs/libkarm/arena.c, the bump allocator. A null arena pointer is `none`.
-- Buffer: the byte buffer of programs/libkarm/buffer.c. It calls Arena for a new block and memmove of
--   LibString to move the bytes. The loop that doubles the capacity has 64 rounds, which is enough for
--   64-bit sizes. The dynamic string of that file is not modelled.
-- Tmpfs: kernel/tmpfs.c, the fixed table of temporary files; what it registers with the VFS is not
--   modelled.
-- Ring: the circular arrays that the next two share, as lists.
-- Input: drivers/input/input.c with the navigation keys of drivers/input/keymap.c. Interrupts are masked
--   around each access, so each function is one step. The report of a poll to the runtime service is
--   in its result.
-- GuiEvents: kernel/gui_events.c, over the fields of a window that it uses.
-- BlockDevice: drivers/storage/block_device.c. A driver's functions, with their contexts, are parameters
--   in the fields of a device, over any type of media.
-- Mbr: drivers/storage/mbr.c, which reads a partition table through BlockDevice and opens a view of it.
-- Fat32: kernel/fat32.c, the volume and its table of clusters. A sector is the function that gives its
--   bytes; the callbacks that read and write one are the record SectorIo, and Disk states what they
--   promise on a disk that works. A read that fails leaves the buffer as it was. Fat32.Boot reads
--   the boot sector for fat32_mount, and Fat32.Table holds the calls on the table. Loops over clusters have fuel for as many as the volume has, as in the source.
--   Fat32.Content is fat32_read, whose loops have fuel for as many rounds as there are bytes: each round
--   passes one at least. Fat32.Directory is the search of the root directory and fat32_delete. Listing,
--   writing, creating and renaming are not modelled, nor the calls of kernel/fat32_directory.c and
--   kernel/fat32_vfs.c.
-- Ipc: kernel/ipc.c, the messages between processes. A pointer to a slot is its index.
-- DhcpOptions: kernel/net/dhcp_options.c, the option parser. Its loop has fuel for one round more than
--   there are bytes, and each round passes at least one.
-- RoundRobin: the search for the next ready slot that the scheduler and the processes share.
-- Sched: kernel/sched/sched.c with kernel/sched/switch.S, the kernel threads. A pointer to a thread is
--   its index. Each function is one step, as interrupts are masked or another thread runs only after it.
-- Regions: the user regions of kernel/process.c, which are the addresses a process may hand to the
--   kernel.
-- Process: the table of processes of kernel/process.c, over Vmm and Regions. A pointer to a process is its
--   index. The closing of its files and the destruction of its windows are parameters. The loop that
--   frees a region's pages has fuel for one round more than there are pages.
-- UserVm: kernel/user_vm.c, the calls that map memory for a process, over Regions, Vmm and Pmm. It clears
--   new memory a word at a time.
-- Vmm: kernel/mm/vmm.c, the page tables, over Pmm. A memory is the 64-bit word at each address, and a
--   table the address of its page. Addresses are below 2 ^ 48 in its theorems, which is what a walk
--   reads of them. Loops over ranges take one round for each page.
--
-- Not modelled: drivers, whose work is register access; drawing; the applications; the rest of the
-- kernel.
pub mod Prelude
pub mod Arena
pub mod BlockDevice
pub mod Buffer
pub mod DhcpOptions
pub mod Fat32
pub mod GuiEvents
pub mod Input
pub mod Ipc
pub mod LibString
pub mod Mbr
pub mod Pmm
pub mod Process
pub mod Regions
pub mod Ring
pub mod RoundRobin
pub mod Sched
pub mod Tmpfs
pub mod UserVm
pub mod Vmm
