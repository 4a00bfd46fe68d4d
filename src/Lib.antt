-- ===== src/Lib.antt =====
-- hexOS, a small 32-bit kernel: its file system and disk drivers, its memory routines, paging, descriptor
-- tables, the text screen, the keyboard driver, the system calls, the start of the kernel, its user shell,
-- and the tool that puts files onto a disk image.
--
-- A memory region or a disk is a map from offsets to bytes; the kernel's static objects are records that
-- the functions take and return; a return code is an integer. A call comes to a result, to an access
-- outside of an array (`fault`), or to a loop that outlasts its fuel (`diverges`). The parts and their
-- files:
--
-- src/stdmem.c: Stdmem (memset, memcpy, memcmp, memmove), used by all other parts.
-- src/external-inserter.c: Image, the block routines on a disk image in memory, with which the
--   inserter links the file system driver, and Inserter, its `main`. The offsets of the image are 32 bits
--   wide. It stands for the disk; accesses beyond the tool's 4 MiB are no fault, and the driver's own
--   clusters end at 1 MiB.
-- src/filesystem/disk.c: Disk, the same two routines on the ports of an ATA disk. Disk/Ata says what
--   they rely on of the disk.
-- src/filesystem/fat32.c and fat32.h: Fat32. Layout has the packed structs, Cluster the transfer of
--   clusters, Search the searches of the FAT and of a directory table, Init the formatting, Read, Write
--   and Delete the operations, Roundtrip how `write` and `read` fit together, Sound the driver's invariant,
--   Restart sequences of calls, and Directory a directory as a finite map from names to files.
-- src/paging/paging.c: Paging. The page directory, with the flushed addresses recorded.
-- src/gdt.c: Gdt. src/interrupt/idt.c: Idt, with the stubs' addresses as a parameter.
-- src/portio.c: Ports. Its bodies are assembler, so the devices behind the ports are a parameter, and
--   Ports/Crtc says what the screen's code relies on of the VGA card.
-- src/framebuffer.c: Framebuffer. The text memory is a region, the cursor is in the card.
-- src/keyboard/keyboard.c: Keyboard, the whole interrupt service routine on the driver's state, the
--   screen and the devices. Keyboard/Ps2 says what it relies on of the keyboard's controller.
-- src/interrupt/interrupt.c: Pic, the programming of the two interrupt controllers, and Interrupt, the
--   system calls and the dispatch of interrupts. Ports/Pic8259 says what is relied on of a controller.
--   `Kernel` joins the states of the drivers with the memory of the user program, which overlaps no
--   object of the kernel.
-- src/kernel.c: Setup. `System` has the static objects of the whole kernel.
-- src/user-mode/user-shell.c: UserShell. The program is a sequence of interrupts 0x30, so its state is
--   that of the kernel.
--
-- Bounds and fuel: `write` runs its loop on `buffer_size` rounds; a round stores up to 2048 bytes,
-- so that is more than one round for each cluster. The loop of `delete` over the FAT counts in eight
-- bits, so it ends within 256 rounds or not at all; the memory behind its variable `temp`, of which
-- each round writes a cluster to the disk, is the same in all rounds. Each wait of the disk driver
-- may poll `fuel` times, and the disk's law bounds the polls it is busy for. The wait of system call
-- 4 gets one keyboard interrupt for each unit of fuel; a key sends two codes, and so does the enter
-- key. `puts` takes a unit for each character. The other loops run a number of rounds that the code
-- fixes. Cluster numbers below 2 ^ 20 have 32-bit offsets in the image, and the driver's own are at
-- most 512 but for those read from a directory entry. Keyboard interrupts that come when no call
-- waits are left out.
--
-- Not modelled: the assembler of src/kernel_loader.s, src/interrupt/intsetup.s and src/portio.c, the
-- host side of the inserter (its files and arguments are parameters), and the copies of memcmp and
-- memcpy in the user shell, which it does not call.
pub mod Prelude
pub mod Stdmem
pub mod Image
pub mod Fat32
pub mod Paging
pub mod Gdt
pub mod Idt
pub mod Ports
pub mod Pic
pub mod Framebuffer
pub mod Keyboard
pub mod Disk
pub mod Interrupt
pub mod Setup
pub mod Inserter
pub mod UserShell
pub mod Tests
