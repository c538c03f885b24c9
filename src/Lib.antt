-- ===== src/Lib.antt =====
-- A model of the core of the ZKA kernel, dev/ZKAKit, with the theorems that hold of it. Numbers
-- are natural numbers; where the code's integers wrap around, the model writes the modulus. The
-- build is the default one for AMD64, without `__DEBUG__`, in which MUST_PASS evaluates its
-- argument and goes on. What the kernel prints is left out.
--
-- The parts, from the bottom up:
-- - Common: tests, lists, maps, bytes and the bits of words.
-- - NewKit: the routines over bytes and C strings of dev/ZKAKit/src/Utils.cc (rt_string_len is
--   `string_len`, and so on) and ke_calculate_crc32 of dev/ZKAKit/src/Crc32.cc. A C string is the
--   list of the bytes that can be read through its pointer. The checksum's table is indexed with a
--   signed byte, so the words in front of it are a parameter, `outside`.
-- - Memory: 64-bit words and the heap's information blocks, each at its address. Memory/BitMap is
--   dev/ZKAKit/src/BitMapMgr.cc, Memory/PageMgr is dev/ZKAKit/src/PageMgr.cc and
--   dev/ZKAKit/src/Pmm.cc, Memory/Heap is dev/ZKAKit/src/Heap.cc. The heap asks the page manager
--   for a page, which asks the bitmap allocator for a bitmap; the block lies 48 bytes behind the
--   bitmap and the pointer 48 bytes behind the block. A block is taken to be 48 bytes long: its
--   bit fields share one 32-bit word, as its comment says. Words and blocks are two maps: that no
--   word that the code writes lies in a block is a fact of the layout, and is not checked here.
--   The page tables are not among these words: mm_map_page stands in Hal/Paging.
-- - Sched: Sched/Thread is dev/ZKAKit/src/HardwareThreadScheduler.cc with the process blocks of
--   dev/ZKAKit/HALKit/AMD64/HalCoreScheduler.cc; Sched/Process and Sched/Team are
--   dev/ZKAKit/src/UserProcessScheduler.cc, the latter with
--   dev/ZKAKit/KernelKit/UserProcessScheduler.inl. A process is the object at an address, and the
--   kernel's state holds all of them with the memory, the team's slots and the threads. A run of
--   kernel code returns, reads or writes through null (`fault`), or is halted by ke_stop.
-- - NewKit/String is dev/ZKAKit/src/KString.cc, with the kernel's strings.
-- - Services: Services/User is dev/ZKAKit/src/User.cc, Services/Semaphore is
--   dev/ZKAKit/src/Semaphore.cc and dev/ZKAKit/src/Timer.cc, Services/Tls is
--   dev/ZKAKit/src/ThreadLocalStorage.cc, Services/Ip is dev/ZKAKit/src/Network/IP.cc and
--   Services/Ipc is dev/ZKAKit/src/Network/IPC.cc with dev/ZKAKit/NetworkKit/IPC.h; the last ends
--   processes through Sched. What others do to a semaphore while a process waits is a parameter.
-- - Storage: a drive as a file system calls it, `fInput` and `fOutput` of
--   dev/ZKAKit/KernelKit/DriveMgr.h, a parameter of what stands above it. `IsLawful` says what the
--   file system relies on: a sector that was written is read back, and sectors at least 1024 bytes
--   apart do not touch, since the driver asks for two sectors where one is meant.
-- - Storage/DriveMgr is dev/ZKAKit/src/DriveMgr.cc in a build for ATA, over Storage/Ata: a packet
--   is a record, and the two variables of the file stand with the machine in `Globals`.
-- - Storage/Ata is dev/ZKAKit/HALKit/AMD64/Storage/ATA-PIO.cc, over the machine's ports as a
--   parameter (rt_in8, rt_in16, rt_out8 and rt_out16 are assembly). A buffer is the list of its
--   bytes, and a run without a result has used up the fuel of a wait.
-- - Nefs is dev/ZKAKit/src/FS/NeFS.cc with dev/ZKAKit/FSKit/NeFS.h: Nefs/Structs and Nefs/Layout
--   the structures and their bytes, Nefs/Volume the reads and writes of one structure, Nefs/Path
--   the name of a parent, Nefs/Find, Nefs/Create, Nefs/Remove, Nefs/Fork and Nefs/Format the
--   functions of NeFSParser, Nefs/Manager dev/ZKAKit/src/NeFS+FileMgr.cc and
--   dev/ZKAKit/src/NeFS+IO.cc. A walk over the disk returns, leaves an array or reads through null
--   (`fault`), or runs out of fuel. A name that fills its field on the disk is taken to end there.
--   That objects are deleted in memory is left out.
-- - Files is dev/ZKAKit/src/FileMgr.cc and the streams of dev/ZKAKit/KernelKit/FileMgr.h, over any
--   filesystem; Nefs/Manager makes NeFS one of them. Files/Indexer is
--   dev/ZKAKit/src/IndexableProperty.cc.
-- - Loader: Loader/Pef is PEFLoader of dev/ZKAKit/src/PEFCodeMgr.cc over a file that is read by
--   the names of forks, a parameter, which Loader/Pef/OnNefs fills with a stream over NeFS;
--   Loader/Process is rtl_create_process of that file and of dev/ZKAKit/src/CodeMgr.cc, over
--   Sched. What stands in memory behind the text of a symbol is a parameter, `behind`.
-- - Hal is the hardware's side on AMD64, dev/ZKAKit/HALKit/AMD64: Hal/Paging is
--   dev/ZKAKit/HALKit/AMD64/HalPagingMgrAMD64.cc, over the words of the tables and the entries at
--   their addresses, which are two maps; Hal/Interrupts is
--   dev/ZKAKit/HALKit/AMD64/HalCoreInterruptHandlerAMD64.cc, over Sched, with the signals of the
--   processes as a map of their own; Hal/Pci is dev/ZKAKit/HALKit/AMD64/PCI/Device.cc and
--   dev/ZKAKit/HALKit/AMD64/PCI/Iterator.cc, over the ports as a parameter; Hal/Acpi is
--   dev/ZKAKit/src/ACPIFactoryInterface.cc with dev/Modules/ACPI/ACPI.h, over the bytes in memory.
-- - Boot is the boot loader's formatter, BDiskFormatFactory of dev/ZBAKit/BootKit/BootKit.h, with
--   memcpy and strlen of dev/ZBAKit/src/BootSupport.cc, over the same drives as Nefs. What stands
--   in memory behind its texts is a parameter, `Literals`, and a name whose copy would reach into
--   fields that keep it is left out.
-- - Examples: tests and concrete runs.
--
-- Bounds and fuel: the loop of FindBitMap runs on two rounds of fuel. On a machine whose bitmaps
-- lie in the address space (`Fits`) one is enough, since the bound of the loop is passed after its
-- first round. The software timer's loop runs on any fuel. The loop of Switch runs at most eight
-- rounds, the size of the pool, since an index past the pool's capacity ends it. The searches of
-- NeFS run on two bounds, one for the calls for a parent's name and one for the rounds of each
-- loop, which the links on the disk decide; the loop of CreateFork runs on two rounds, since it
-- goes on only from a fork without a next sibling, and then ends. The loops of Format run over the
-- blocks that stand on the disk, on any fuel. The driver of ATA waits for the drive as long as it
-- takes; with a drive that is ready one round of each wait is enough. The wait in the interrupt of
-- the timer runs on any fuel; with as much as its count and one more it ends. All other loops are
-- over lists or over a count.
--
-- Not modelled: the other drivers, the other processors and their interrupt controller, the rest
-- of the boot loader (calls of its firmware), the construction of drives of NeFS, what the clear
-- of the buffer of WriteCatalog overwrites behind it, WriteAll of a stream, HPFS, the network
-- device, rtl_init_dll, GUIDs, the text of a panic, and assembly.
pub mod Common
pub mod NewKit
pub mod Memory
pub mod Sched
pub mod Services
pub mod Storage
pub mod Files
pub mod Nefs
pub mod Loader
pub mod Hal
pub mod Boot
pub mod Examples
