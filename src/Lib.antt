-- ===== src/Lib.antt =====
-- RainstormOS, a 64-bit kernel in C that the Limine boot loader starts.
--
-- The kernel's core is its memory management. The boot loader hands over a memory map and the
-- offset of the direct map. src/memory/pmm.c keeps one bit for each 4 KiB frame and gives frames
-- out; src/memory/paging.c takes frames from it for four-level page tables, which it reads and
-- writes through the direct map; src/utils/memory.c has the byte routines that both use;
-- src/utils/klog.c writes the log, through the character sinks of src/utils/sink.c, and kpanic stops
-- the machine. src/cpu sets up the segments and the interrupt gates, and dispatches interrupts;
-- src/drivers has the framebuffer and the serial port, where the sinks send their characters.
--
-- Files:
--   Base              shared names; code over a state as commands that return, panic or fault
--                     (Base/Commands), machine words (Base/Words), bit operations as arithmetic
--                     (Base/Bits), the bits of a byte (Base/Bytes), integers (Base/Int).
--   Utils/Memory      src/utils/memory.c: memmove, memset, memsetw, memcmp over a memory of bytes; and
--                     memcpy of src/utils/memory.asm.
--   Utils/Sink        src/utils/sink.c: the registry of callbacks; curr_idx + 1 is the field next.
--   Utils/Console     the way of a character: the default sink of src/utils/printf.c, the registry and
--                     its callbacks, the serial port. putchar is _putchar.
--   Utils/Klog        src/utils/klog.c: rank orders the levels; panic_messages is the part of klogf
--                     for a panic that prints, log_line the part for the other levels.
--   Cpu/Gdt           src/cpu/gdt.c: gdt_set_entry, whose encoding is segment, and gdt_init.
--   Cpu/Idt           src/cpu/idt.c, and the 256 stubs and calls of src/cpu/isr_gen.c.
--   Cpu/Isr           src/cpu/isr.c and isr.h; dispatch is the body of isr_handler.
--   Cpu/Stubs         src/cpu/isr.asm with the entries of src/cpu/isr_gen.inc, on a processor that
--                     runs the stubs' instructions; the compiled isr_handler is a parameter.
--   Drivers/Framebuffer  src/drivers/screen/framebuffer.c on the 32-bit words of memory.
--   Drivers/Serial    src/drivers/serial: the device answers the n-th read of a port; the writes are
--                     a trace.
--   Kernel            src/kernel_entry.c: kmain and its steps, over the states of the parts;
--                     Kernel/Main composes the theorems of the steps.
--   Memory/Mm         the page macros of src/memory/mm.h.
--   Memory/Event      what callers hand to the log of src/utils/klog.h.
--   Memory/Pmm        src/memory/pmm.c: alloc_frame is pmm_alloc_frame, and so on; pmm_init is in
--                     Memory/Pmm/Init, and what it needs of a memory map in
--                     Memory/Pmm/Init/Place. The state has the file's variables, the bitmap's bytes as a
--                     function of the index, and the log. Memory/Pmm/History follows a sequence of
--                     calls as a step relation.
--   Memory/Paging     src/memory/paging.c: map is paging_map, and so on; creation and end of an
--                     address space are in Memory/Paging/Spaces. The state has the frame
--                     manager, the 64-bit words of memory by their physical address, the
--                     saved kernel entries, and of the processor cr3, the NXE flag and the addresses
--                     flushed. Memory/Paging/Spec is the abstract view, a table of entries by page,
--                     with the calls as changes of it, and Memory/Paging/Owned the account of the
--                     frames that an address space has of its own. next_table is the code that
--                     paging_map repeats at three levels, and descend the code that the reads
--                     repeat.
--
-- The invariant of the frame manager is Memory.Pmm.State.IsValid; that of the page tables is
-- Memory.Paging.Tree.IsTree, by which each table has one level and one place.
--
-- Machine integers are natural numbers with the wrap-around written out. An access outside the
-- bitmap, or to a table in a frame that is not tracked, is a fault, and the theorems exclude
-- it. Loops with a counter recurse on the rounds left. The loop of pmm_init over the pages of a
-- region steps an address; it has fuel for one round more than the region has pages, and its theorem
-- shows that this is enough.
--
-- The words of the page tables and the bytes of the bitmap are separate parts of the state: the
-- frames of the bitmap are allocated by pmm_init, so no table is placed in them. The model has one
-- processor, and no interrupt comes between two steps.
--
-- The wait for the serial port is given a number of rounds; the theorems assume that within so many
-- reads the line's status says that the transmitter is empty, and show that the wait then ends. What
-- kprintf makes of a format is a parameter, and so is the code of a registered interrupt handler. The
-- memory management and gdt_init hand their events to a list of their state; Utils/Klog says what the
-- log does with an event, and in Kernel a panic of the memory management goes to the console. The
-- stack that a panic walks through is a function on all addresses, so its reads do not fault.
--
-- Not modelled: src/boot.asm, and the other assembly but for its effects, apart from the interrupt
-- stubs and memcpy; the rest of src/utils/printf.c and the boot loader,
-- which are other projects'.
pub mod Base
pub mod Utils
pub mod Memory
pub mod Cpu
pub mod Drivers
pub mod Kernel
