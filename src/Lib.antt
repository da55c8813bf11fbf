-- ===== src/Lib.antt =====
-- PodumatOS, a hobby operating system for x86_64: a model of its memory, heap, disk and keyboard
-- code, and the theorems that hold of it.
--
-- The parts, with the files of the repository that they model:
--   Phys         kernel/src/mm/phys.cpp: the page allocator, a bitmap with counters. `alloc_pages`,
--                `free_pages`, `find_free_run` and `is_allocated` are in Phys, `init` in Phys/Init.
--   Heap         kernel/src/mm/heap.cpp: kmalloc, kcalloc, krealloc and kfree. Heap has the regions and
--                the placing of a block, Heap/Calls the calls, Heap/Store the headers and the state.
--   Dma          kernel/src/drivers/dma.cpp: buffers for devices, taken from Phys.
--   Disk         kernel/src/drivers/disk.cpp: the block layer. The record `Device` is what the file
--                systems need of a disk, with laws; Disk/Dispatch makes a device of the two drivers,
--                kernel/src/drivers/ahci.cpp and ata.cpp, which are parameters with the same
--                interface. Disk/Ram is a device in memory: it shows that the laws can hold.
--   MountConfig  kernel/src/fs/mount_config.cpp: the drive letters in sector 1, over a `Device`.
--   Mbr          kernel/src/fs/mbr.cpp: the partition table in sector 0, over a `Device`.
--   Fat32        kernel/src/fs/fat32.cpp: mounting a volume, its allocation table, the sectors of a
--                cluster, the 8.3 names and the search of a directory sector. Fat32/Files has
--                find_entry and create_file_entry, Fat32/Operations the calls on files, Fat32/Paths cd, and
--                Fat32/Ways the directories that a path leads through.
--   Ext2         kernel/src/fs/ext2.cpp and ext2.hpp. Ext2 has the blocks, the superblock, the group
--                descriptors and the inodes, Ext2/Actions the state and what a statement is; Ext2/Bitmaps
--                allocates and frees, Ext2/Tree maps the blocks of a file, Ext2/Entries and
--                Ext2/Directory have the directory entries; Ext2/Paths, CurrentDir, Mount, Files and Calls
--                have the rest.
--   Memory       kernel/src/lib/memory.cpp: memcpy, memmove, memset and memcmp.
--   Strings      kernel/src/lib/string.cpp: strlen, strcmp and strncmp over the memory of Memory.
--   Registry     kernel/src/lib/driver_registry.cpp: the table of the drivers that start-up reports.
--   Ps2          kernel/src/drivers/ps2.cpp: the decoding of scan codes.
--   Prelude      what the parts share: tests on numbers, lists by native indices and lists of numbers
--                with their members, bits of a byte, words of four bytes.
-- A part's file defines the state and the operations, under the names of the source; the files of the
-- folder beside it prove what they do, and its Tests apply the theorems to concrete states.
--
-- How the code is modelled. A static variable is a field of the state that an operation takes and
-- returns; a call that returns false through a pointer gives an Option. Numbers are natural
-- numbers, with the wrap-around of an unsigned type written out (u8, u32, u64, add64, sub64).
-- Structs on disk are records, with functions to their bytes and back. A loop over a range is
-- recursion on the number of rounds left; the loops that follow links on the disk (free_chain,
-- find_entry, the files) and in memory (the heap) have fuel: more rounds than the list has
-- members are enough. The headers of the heap's regions and those of its blocks stand in two stores
-- by address, apart from the bytes of the allocations: headers that overlap, as a forged pointer can
-- make them, are outside the model. A buffer that a failed read leaves unset is an argument of the operation.
-- The static buffers of ext2.cpp are part of the state, since one call overwrites what another
-- still reads; its structures on the disk are lists of bytes, as the code copies them.
-- The hardware is behind `Device`: a read that succeeds gives what the medium holds, a write that
-- succeeds stores it, and no call changes another sector; where a theorem needs that calls
-- succeed, it takes `IsReliable`. These laws are assumed of the drivers for every sector: ata.cpp
-- sends 28 bits of a sector's number, and so cannot have them from sector 2 ^ 28 on, and no driver
-- of the program is shown to have them.
--
-- Not modelled: list_dir and format of FAT32 and ext2, the drivers of the hardware (AHCI, ATA, PCI,
-- USB, interrupts, timers), the console, the shell and the start-up code.
-- Of the modelled files what only prints is left out, and so are the loops of ps2.cpp that wait for
-- the controller. A write of ext2.cpp behind the end of one of its buffers changes nothing in the
-- model.
-- Addresses of the memory routines do not wrap, and indices that the source has as signed are
-- natural numbers.
mod Prelude
pub mod Phys
pub mod Heap
pub mod Dma
pub mod Disk
pub mod MountConfig
pub mod Mbr
pub mod Fat32
pub mod Ext2
pub mod Memory
pub mod Strings
pub mod Registry
pub mod Ps2
