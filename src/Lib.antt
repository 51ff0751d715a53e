-- ===== src/Lib.antt =====
-- Verified models of the ArgusOS kernel's portable C components.
--
-- ArgusOS boots through UEFI (src/boot.c), takes the memory map from the firmware and runs a small
-- kernel (src/kernel.c) with user processes in their own address spaces. The parts modelled here
-- are those that decide who may do what, and who owns which memory:
--
--   * src/pmm.c hands out physical pages from the memory map that the boot code leaves in
--     `boot_info`; page tables, process images and stacks are built from its pages;
--   * src/elf_loader.c decides which program images may be mapped into a user address space, and
--     where; src/process.c maps what it accepts, on pages of src/pmm.c;
--   * src/capability.c keeps, for each process, a table of capabilities named by handles with a
--     generation; every system call that touches an object resolves a handle first;
--   * src/anonymity.c says which role of a process may hold a capability of the network, and when
--     an anonymous connection may be opened; src/process.c asks it before it calls
--     `capability_grant`;
--   * src/ipc.c passes messages between processes through endpoints with a queue of eight;
--   * src/block.c stands between the file systems and a block device: it checks the device and
--     each request, and has a FAT32 volume in memory to start with;
--   * src/heap.c hands out the bytes of a run of pages of src/pmm.c to the rest of the kernel;
--   * src/surface.c draws rectangles and text on images in memory and keeps the rectangle that has
--     changed; src/compositor.c stacks windows of such surfaces and brings the changed parts of the
--     screen up to date on the frame buffer of src/gop.c;
--   * src/ps2.c turns the bytes of the keyboard and the mouse into characters and movements, which
--     wait in two queues until the kernel reads them.
--
-- Files. Each component has a file of definitions, child modules that are named for what they
-- prove, and a `Tests` module with runs of the code:
--
--   * Base: Boolean tests of C conditions, arrays as lists (`get_or`, `set`, `find_slot` for the
--     search of a first slot), the machine words and the laws of the bit operations.
--   * Capability (src/capability.c, src/capability_abi.h): `Entry` and `Table` are
--     `argus_capability_entry_t` and `argus_capability_table_t`; the functions have the names of
--     the code. Handle is the packing of a handle, Invariant the well-formed tables, Resolve,
--     Grant, Revoke and Find the calls, Authority the life of a table. Kind and Right hold the
--     constants.
--   * Ipc (src/ipc.c): `Endpoint` and `Message` are the structs of the code, `Endpoints` the static
--     array. Ring is one queue, with `contents` as the list of messages it stands for; Mailbox
--     reads the whole array as a map from handles to such lists; Send, Receive and Lifetime are
--     the calls against that map.
--   * Pmm (src/pmm.c, src/boot_info.h): `Pmm` holds the static variables. Bitmap, Count and Pages
--     are the bitmaps and their counts, Init and Reserve `pmm_init`, Runs, Search and Alloc
--     `pmm_alloc_pages`, Release `pmm_release_pages`, Invariant `pmm_validate`.
--   * Elf (src/elf_loader.c, src/elf_loader.h): `Header` and `Program` are read from a list of
--     bytes, `Scan` holds the variables of the loop over the program headers. Sizes is the
--     arithmetic, Guards the conditions on one program header, Scanned the loop, Accept the
--     whole function.
--   * Anonymity (src/anonymity.c): the state `transport_state` is a number. Transport has the moves
--     that the policy means to allow as a data type, and runs of requests; Policy is the test of a
--     connection.
--   * Block (src/block.c, src/block.h): `Device` is `argus_block_device_v1_t` with its read function
--     as a field. Read is `block_read`, SectorSize the test of the sector size, Fixture the volume
--     in memory.
--   * Process (src/process.c): `grant_process_capability` and its self test. Network is the life of
--     a process's table under these grants.
--   * Heap (src/heap.c): a header `heap_block_t` is what the memory holds at its address. Tiles is
--     the heap as a row of sizes, Chain the linked list that stands for a row, Cut and Alloc
--     `kmalloc`, Merge, Release and Free `kfree`, Account `heap_init` and the sums of sizes, Settled
--     and Validate `heap_validate`.
--   * Raster: rows of pixels that are filled and copied, shared by the next two.
--   * Surface (src/surface.c, src/font5x7.c): the drawing calls. Font is the table of glyphs, Damage
--     the rectangle that has changed, Draw, Text and Scroll the calls, SelfTest the self test.
--   * Compositor (src/compositor.c, and the frame buffer of src/gop.c in Gop): a window points into
--     a list of surfaces. Windows are the calls that change windows, Frame the drawing of a frame,
--     Damage and Collect the list of rectangles, Stack what a pixel shows, Fresh and Raise the calls
--     that keep the frame buffer up to date outside of the damage, Present `compositor_present`,
--     Pointer `compositor_window_at`.
--   * Ps2 (src/ps2.c): Keyboard is the decoder of scan codes, Pointing the packets of the mouse,
--     Ring the two queues, Controller and Setup the exchange with the controller. Decode and Packet
--     are about what the decoders answer, Steady and Calls about the state that the calls keep.
--
-- How the code corresponds. Static variables and structs that a function changes are passed in and
-- returned; a function that returns 0 on failure returns `false`, `none` or 0 beside the state
-- that it leaves. Numbers are natural numbers, with the wrap-around of `uint8_t` to `uint64_t`
-- written out where the code can reach it. Null pointers, which the functions refuse, have no
-- counterpart, but for the pointers between the blocks of the heap, where 0 is null. Packed handles
-- and flags are computed with the bit operations of the code. What the code cannot decide is a
-- parameter: the hardware behind the ports of src/ps2.c is a type of states with a function for
-- reading and one for writing a port, the answers of `interrupt_register` and `apic_route_gsi` are
-- Booleans, and the storage that a surface gets is passed to its initialisation.
--
-- Bounds. Every loop of the code counts to a bound that is known when it starts: 16 slots of a
-- capability table, 8 endpoints, `length` bytes of a message, the pages of a run or of the memory,
-- the program headers of an image, the rows and columns of a rectangle, the 100000 or 200000 reads of
-- a port. The models recurse on the rounds that are left, so no fuel is involved. The one exception
-- is the walk over the blocks of the heap, which the code ends at a null pointer: it has as many
-- rounds as headers fit in the arena, and one more, and `length-extent` of Heap/Tiles shows that a
-- row of tiles has no more. A theorem on the ELF validator asks that the user window end below
-- 2 ^ 43; the kernel passes one just above `ARGUS_USER_BASE`, which is 2 ^ 39.
--
-- Not modelled: the drivers and the start of the machine (src/ahci.c, src/apic.c, src/acpi.c,
-- src/pci.c, src/serial.c, src/arch.c, src/cpu.S, src/boot.c, src/main.c), which read and write the
-- hardware or call the firmware; in src/gop.c the start, `gop_rgb` and the calls that move parts of
-- the screen (`gop_scroll_up`, `gop_scroll_rect_up`, `gop_move_rect`); the
-- parts in Rust (src/rust_net.rs, src/rust_ramfs.rs, src/rust_fat32.rs, src/rust_probe.rs) and the C
-- files that call them (src/net.c, src/ramfs.c, src/fat32.c); the text on the screen and the user
-- interface (src/console.c, src/kconsole.c, src/desktop.c, src/kernel_shell.c); `surface_destroy`;
-- the self tests of src/pmm.c and src/heap.c; getters that return a variable as it is; and
-- src/module.c, src/paging.c, src/input.c and, but for the grants named above, src/process.c. The
-- bytes that the owner of a block of the heap writes are not in the model of src/heap.c, so it does
-- not say what a caller that overwrites a header does.
pub mod Base
pub mod Anonymity
pub mod Block
pub mod Capability
pub mod Compositor
pub mod Elf
pub mod Heap
pub mod Ipc
pub mod Pmm
pub mod Process
pub mod Ps2
pub mod Raster
pub mod Surface
