-- ===== src/Lib.antt =====
-- TRS, a small operating system for x86-64: a verification library of its boot loader, its kernel, its
-- C library and its terminal.
--
-- The boot loader loads the kernel and hands it a memory map and a framebuffer. The kernel builds a
-- page bitmap from the map, sets up descriptors and the interrupt controllers, probes its disks, finds
-- the EFI system partition and mounts it by a FAT library. The keyboard's interrupt handler puts bytes
-- into a stream; programs read them, print and list directories by system calls. The terminal is such
-- a program. What is printed is drawn into the framebuffer; a panic prints its reason and halts.
--
-- The modules, and the code that they model:
--   Common     types, bit operations, words, lists and memory that the others share
--   Stream     kernel/stream.c: Ring is the ring as a bounded queue, Transfer the blocking calls
--   Libc       libc/string.c: Memory (memset to memcmp) and Text (strlen to strcpy); System is
--              syscall.c, stdio.c, dirent.c and mem.c, Spinlock is mutex.c
--   BootInfo   bootloader/uefi/inc/bootinfo.h
--   Boot       bootloader/uefi/boot.c: Mode is the choice of the video mode, Map the loop that gets
--              the memory map
--   Pmm        kernel/memory_paging.c: Bitmap, Alloc, Free, Held and Runs (callers), Init, Init/Reserve
--              and Init/Kept
--   Ports      kernel/inc/io.h
--   Disk       kernel/driver/disk.c: Address (the command), Transfer (guards, data), Probe
--   Keyboard   kernel/driver/keyboard.c: Init is the start of the driver, Decode is what a sequence of
--              scan codes types, by the keys of Decode/Layout
--   Gpt        kernel/driver/gpt.c: Search is what is found
--   Fat32      kernel/driver/fat32.c: Table (opening), Handles (reading, closing)
--   Cpu        kernel/cpu: Pic (pic.c), Idt (idt.c), Gdt (gdt.c)
--   Sys        kernel/sys.c: Line is SYS_READ, Entry the entry of SYS_READDIR
--   Display    kernel/driver/image.c: Screen is where it writes, Cursor where the cursor stands,
--              Number the printed numbers; Pixels, Glyphs and Scroll are what is drawn; Console is the
--              grid of tiles that a caller sees, Grid, Settle, Put and Refinement relate it to the
--              framebuffer, Narrow is about fonts of 8 pixels
--   Panic      kernel/panic.c: Number is its decimal printer, Halt how it ends
--   Kernel     kernel/kernel.c and kernel/app.c: Start is `kmain`, Statue and Ends how far it gets
--   Terminal   terminal/tmain.c: Words (the command line), Current (`cd`), and Commands, which has
--              terminal/comands.c too and calls Libc.System, which calls the handler in Sys
-- A function has its name in C; a part of it has a name of its own, and a comment where needed.
--
-- State is passed explicitly: a file's static variables are a record, a pointer is its address with
-- 0 for NULL, memory is a function from addresses to bytes. An unsigned type wraps as `% 2 ^ w`.
-- The hardware is a stream of answers, and a log of every access, the latest first. What interrupts
-- do while the code halts is an argument: the bytes put during each halt of a read, those taken
-- during each halt of a write. The calls of the FAT library and the reading of a sector below the
-- partition table are parameters; Kernel gives the latter the reads of Disk.
--
-- Loops run on a count of the turns left. It is the bound of the source where there is one: the
-- 10000000 polls of the disk, the pages, sectors and descriptors counted, the 2 ^ 32 values of the
-- partition table's counter. A blocking read has a turn for each byte asked for and for each halt.
-- Each loop of memcpy has as many turns as bytes, since a turn copies one at least. The text routines
-- take the fuel as an argument, and their theorems say that a turn for each byte of the text, and one
-- for its zero byte, is enough. So is it with the terminal's loops over a command. The reader of
-- directories is given a turn for each entry that it passes over, and one more. The digits of a
-- number are 10 or 20 at most.
--
-- Sys logs the calls of the display, by the address of the text: Display is the model of what they
-- draw. The font is linked binary data, and a parameter. A program's memory is the kernel's, as the
-- system has one address space.
--
-- The start of the kernel waits for a key: the bytes that arrive before each turn are an argument.
-- The handlers of interrupts, and what a started program does, are parameters of Kernel.
--
-- The services of the firmware are parameters of Boot, with a state of their own. Its loop over the
-- memory map takes the number of its turns, and its theorem says how many are enough.
--
-- Not modelled: the FAT library under trfs/fat32, which is a copy of another project's, and the
-- assembly files. `free` does nothing. Instructions that load descriptor tables or switch interrupts
-- have no counterpart, nor has the jump to the kernel.
pub mod Common
pub mod Stream
pub mod Libc
pub mod Pmm
pub mod BootInfo
pub mod Boot
pub mod Ports
pub mod Disk
pub mod Keyboard
pub mod Gpt
pub mod Fat32
pub mod Cpu
pub mod Sys
pub mod Display
pub mod Panic
pub mod Kernel
pub mod Terminal
