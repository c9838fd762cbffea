-- ===== src/Lib.antt =====
-- The verification library of light-loader, a boot loader for EFI machines.
--
-- The loader keeps its data on one heap (common/heap.c), with the byte routines of common/memory.c.
-- It reads its configuration (common/boot/cldr.c) from files on a disk, which efi/lib/efidisk.c
-- reaches through a block cache (common/disk.c) over the firmware's block protocol. A disk has a FAT32
-- file system (common/fs/fat/fat32.c), which registers itself in common/fs.c. A ramdisk is a gzipped
-- tar archive (common/fs/tarfs). A kernel is an ELF file (common/lelf.c) that is handed over with the
-- multiboot2 protocol (common/boot/boot.c): its segments, the boot information and the ramdisk get
-- their places in a list of relocations (common/relocations.c), with the memory map's help. An
-- installation lays out partitions on a disk (common/disk.c). A game of minesweeper is on board (common/ui/screens/minesweeper.c).
--
-- Files:
-- - Common: notation, Boolean tests and their lemmas, machine words (add64, sub64, ...), the integers
--   that C functions return, and byte memory with little-endian loads and stores.
-- - Heap: common/heap.c. `Heap` is the three globals and the memory. The search of heap_allocate is
--   allocate_loop, whose body is can_take and take_node; heap_free is merge_next, find_node and
--   merge_prev. Heap/Blocks states what they do on a list of blocks.
-- - Memory: common/memory.c, function by function.
-- - Disk: the cache of common/disk.c (disk_init_cache, disk_select_cache, disk_clear_cache, disk_flush) and the
--   transfers of efi/lib/efidisk.c (__cached_read, __read, __write, __write_zero). The block protocol
--   is the record BlockIo.
-- - Tar: common/fs/tarfs/tar.c. A file is its size and the address of its contents; the records that
--   the source allocates for it are taken to be there.
-- - Inflate: common/fs/tarfs/decompress.c. Ctx is decompress_ctx_t with its window; Inflate/Huffman
--   has the tables and the blocks with codes, up to tarfs_decompress. An access outside an array is
--   `none`, and so is running out of fuel.
-- - ByteDisk: what a file system uses of a disk_dev_t (common/include/disk.h), its f_read and f_write
--   with what a caller relies on. Disk/Bytes fills it with the device of efi/lib/efidisk.c, and
--   ByteDisk/InMemory with one in memory.
-- - Fat: common/fs/fat/fat32.c over a ByteDisk. A function that returns an error number is a state
--   passing function with a Result (Fat/Results). `Fat` has the table and the clusters, Fat/Write
--   __fat32_file_write, Fat/Names transform_fat_filename, Fat/Directory __fat32_open_dir_entry and
--   __fat32_open_dir_entry_idx, Fat/Open fat32_open and fat32_open_idx, Fat/Create
--   fat32_create_path, and Fat/Volume fat32_probe. What heap_allocate returns is a buffer with any bytes.
--   fat32_install is not modelled: its first copies write to string literals, which has no defined
--   behaviour.
-- - Fs: common/fs.c. The lists of registered and mounted file systems are lists; probing and installing
--   call the file system's operations, which are parameters; the fields of file systems and devices
--   that mounting sets are functions of their addresses.
-- - Reloc: common/relocations.c and common/lelf.c. The list of relocations is a list; an ELF file is
--   a part of memory, and phdr_loop the loop over its program headers.
-- - Boot: common/boot/boot.c. The loops of get_multiboot_memorymap and collapse_mmap carry the entry at
--   hand over the entries behind it; place_boot_parts is what boot_context_configuration makes of
--   prepare_multiboot_buffer and relocate_ramdisk. Boot/Options has the kernel options, in a buffer
--   that is a memory of its own, and Boot/Options/Config boot_config_from_file.
-- - Gpt: the partitions of common/disk.c. Gpt has the entries and the linked devices, Gpt/Install
--   disk_install_partitions, whose writes are a list of requests.
-- - Gfx: gfx_draw_rect_raw of common/gfx.c, with update_cursor_pixel of common/ui/cursor.c. The frame
--   buffer is its words of 32 bits by their addresses.
-- - Mines: common/ui/screens/minesweeper.c, without what is drawn. The random numbers are a sequence.
-- - Config/Tokens, Config/Parser and Config/Nodes: __tokenize_config_file, __parse_config_file and
--   config_file_get_node with config_file_get_node_at. The texts of tokens and keys are lists of
--   bytes; the copies that strdup_ex makes of them are taken to succeed.
--
-- Numbers are natural numbers; a 64-bit sum or difference is add64 or sub64, and a value that is put
-- in a narrower field is reduced modulo its size. Loops run on the rounds left where the source
-- counts them, and on fuel where it does not; `none` is out of fuel. The blocks of the heap, the size
-- of a file and the bytes of a transfer bound the rounds, and the theorems ask for one more than that.
-- A cluster chain asks for one round for each cluster. The search of an archive asks for two more
-- than the blocks of 512 bytes. The characters of a number are bounded by the 20 digits of a 64-bit
-- number. For the decoder as a whole no fuel is shown to be enough.
--
-- Two rounds are enough for the search behind the relocations. A kernel's header tags ask for one round
-- more than there are tags, and the kernel options for one more than they have characters.
--
-- Not modelled: the user interface, the other graphics, fonts and images, the files that the boot
-- protocol reads and its jump to the kernel, and the firmware's side of the loader.
pub mod Common
pub mod Heap
pub mod Memory
pub mod Config
pub mod Tar
pub mod Inflate
pub mod Disk
pub mod Mines
pub mod ByteDisk
pub mod Fat
pub mod Fs
pub mod Reloc
pub mod Boot
pub mod Gpt
pub mod Gfx
