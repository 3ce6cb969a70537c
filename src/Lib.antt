-- ===== src/Lib.antt =====
-- NeoSysX: a verification library of the kernel and of the libc below it.
--
-- The program is a kernel for i386 machines. The parts modelled here, each in the modules named:
-- - Algo/Idalloc: the id allocator of kernel/common/src/algo/idalloc.c. `Idalloc` is `idalloc_t`;
--   `init`, `alloc`, `free`, `expand`, `trim` and `deinit` are the functions `idalloc_*`.
-- - Mm/Pmm: the frame allocator of kernel/common/src/mm/pmm.c. `Pmm` is the three static variables;
--   `reserve`, `alloc` and `free` are the functions `pmm_*`, with their loops as definitions of
--   their own. Mm/Pmm/Init is `pmm_init`, with kernel/cpu/i386/src/pmm.c, which foresees its space.
-- - Io/Ansi: the escape sequences of kernel/common/src/io/ansi_terminal. `write` is
--   `ansi_terminal_write`; a run is the list of the calls that it makes of the display's functions.
-- - Libc/Memory: libc/src/string. Each function has its C name, and a loop the name of its function
--   with `_from`.
-- - Drivers/Pic: kernel/machine/pc_common/drivers/intr/i8259, masks and lists of handlers.
-- - Drivers/Vga: kernel/machine/pc_common/drivers/video/vga_text. Its `ansi_` functions are those
--   that Io/Ansi calls, `scroll_up` is its use of `memmove`, and its characters are the signed ones
--   of Libc/Memory.
-- - Drivers/Uart: kernel/drivers/uart/16550, on a port that is an argument, and the terminal and
--   the probe of kernel/drivers/uart/16550_term and kernel/machine/pc_common/drivers/uart/16550_pc.
-- - Drivers/Acpi: kernel/drivers/acpi/acpi_common, the search for the root pointer, over the memory
--   of Libc/Memory.
-- - Algo/Dllist: kernel/common/src/algo/dllist.c over a store of nodes; `insert` and `remove` are the
--   functions `dllist_*`. Algo/Dllist/Seq has the sequence that a list of the store stands for.
-- - Io/Terminal: kernel/common/src/io/terminal.c. A terminal is a record of what its functions do, and
--   each of them may be missing; Drivers/Vga, Drivers/Uart and Io/Ansi have such functions.
-- - Timing/Timer: kernel/common/src/timing/timer.c. The interrupts that come while the code waits are
--   an argument.
-- - Cpu/Paging: kernel/cpu/i386/src/vmm_ops.c. Entries of directories and tables are numbers of 32
--   bits (Entry); Map, Unmap, Space and Address are the functions `vmm_map`, `vmm_unmap`,
--   `vmm_find_free` and those that make, delete and switch address spaces.
-- - Mm/Vmm: kernel/common/src/mm/vmm.c, over an interface of the functions of Cpu/Paging and Mm/Pmm
--   that it calls. Mm/Link fills the interface with them, as the kernel for the i386 is linked.
-- - Tasking/Thread: kernel/common/src/tasking/thread.c and kernel/cpu/i386/src/thread.c. Its lists
--   stand in the store of Algo/Dllist, and its ids come from Algo/Idalloc.
-- - Cpu/Gdt and Cpu/Idt: the tables of segments and of gates in kernel/cpu/i386, as the processor
--   reads them, and what an interrupt runs.
-- - Drivers/Pit: kernel/machine/pc_common/drivers/timer/i8253. Its interrupt calls Timing/Timer and
--   Tasking/Thread, and acknowledges by Drivers/Pic.
-- - Target/Multiboot: kernel/targets/i386-pc-multiboot, the memory map, the size of the memory, where
--   the free memory begins, and what is reserved by Mm/Pmm, with kernel/machine/i386-pc.
-- Common has the notation, the words of 32 bits, lists, the bits of a number (Common/Bits) and
-- bitmaps (Common/Bitmap). Each part has a module Tests with concrete runs.
--
-- State is passed from call to call. `size_t`, `uintptr_t` and `int` have 32 bits, `uint64_t` has
-- 64; wrap-around is written out, and a negative `int` is its 32-bit pattern. A bitmap, a screen and
-- the memory are functions of an index. `realloc` is an argument of the id allocator, with the law
-- `IsHeap`; the display's functions, the answers of the interrupt controllers and the serial port
-- are arguments too, and so are `float` with its operations, the symbols of
-- the linker and the entry points of assembly.
--
-- Loops are recursions on what is left of them, or on fuel where the source has no bound: the scan
-- of `idalloc_alloc` gets a round for each bit and more, the search of a bitmap one for each bit and
-- one more, a control sequence one for each byte of its parameters and one more, and a string and a
-- list of handlers one for each address. The theorems on `idalloc_alloc`, the search, the string
-- functions and the handlers cover that this is enough. `vmm_map` and `vmm_unmap` get a turn for
-- each page (of a byte and more in Mm/Link), `vmm_alloc` one for each byte, `vmm_find_free` of the
-- page tables one for each page of the address space and of the size, in each of its two loops, the
-- walk of a memory map one for each byte of it, and the search for the root pointer one for each
-- byte of the region. A busy wait is on fuel that the theorems have as an argument: they state from
-- which on it returns. The colour sequence `CSI m` has no such theorem yet: a round of it takes a
-- character at least. The theorem on the ticks of the timer is about numbers with a floating point
-- that add and subtract exactly, which is a hypothesis.
--
-- Not modelled: `vga_text_init` and the MMIO callbacks of the serial port, which work on hardware;
-- `vmm_init`, `vmm_lh_init` and `thread_init`, which set up the first tables and the first thread;
-- the relocation of what the boot loader has left; start-up, logging, stack traces, assembly and the
-- search of the BIOS for ACPI; the heap of the libc and the uACPI library, which are the work of
-- others.
pub mod Common
pub mod Algo
pub mod Mm
pub mod Io
pub mod Libc
pub mod Drivers
pub mod Timing
pub mod Cpu
pub mod Tasking
pub mod Target
