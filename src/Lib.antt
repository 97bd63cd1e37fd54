-- ===== src/Lib.antt =====
-- OvsbMkM: the kernel's system calls, console, frame buffer, file system, memory, processes,
-- keyboard, mouse, clock and environment, and the string functions, number conversion and heap of
-- its programs.
--
-- The program is a 64-bit kernel in C with its programs. Ten of its parts are modelled here,
-- each with its static variables as the state and one function per C function.
--
-- Keyboard (drivers/keyboard.c). Keyboard.antt has the record `Keyboard` of the static variables
-- and the functions from the interrupt (`keyboard_handler`, `process_scancode`, `handle_extended`,
-- `kbuf_put`) to the reader (`keyboard_read`, `keyboard_avail`); Keyboard/Tables.antt has the
-- tables `norm`, `shf` and `ext`. The tick counter of kernel/pit.c and the byte from the port are
-- arguments. `keyboard_read` waits in a loop with a delay; the model gets the interrupts of each
-- delay as a list, and returns `none` if it still waits at the end of the list.
-- Keyboard/Queue.antt is about the ring as a queue, Keyboard/Typing.antt about whole keystrokes.
--
-- Memory (kernel/memory.c). Memory/Types.antt has `frames` and `free_area`; a free list is the list
-- of its blocks, a block the index of its first frame. Memory/Buddy.antt has `buddy_alloc`,
-- `buddy_free` and `memory_init`, Memory/Pages.antt the calls on top: `mmap_user`, `munmap_user`,
-- `munmap_all_user`, `page_alloc`, `page_free`. Memory/Slabs.antt has the slab caches under
-- `kmalloc`, `kfree` and `kcalloc`: the header of a slab is kept for the page that it stands in,
-- the list of the slabs of a cache and that of the free objects of a slab are what their links
-- join, and the first word of a page that is no slab is what its owner has stored, an argument of
-- `kfree`. `kcalloc` gets the memory as `kmalloc` leaves it. Memory/Tables.antt has the page tables
-- (`pml4_create`, `pml4_map_phys`) as 64-bit words in the bytes of the memory; what is written to
-- CR3 leaves no trace. The loop over a new page has 254 rounds, since an object has 16 bytes at
-- least; that over the pages of `pml4_map_phys` has one round for each 2 MB and one more. A heap is
-- sound (Memory/Buddy/Layout.antt) when its blocks, free and taken, tile the 16384 frames and the
-- marks and lists agree with that tiling. Addresses are 64-bit: the index of an address below the
-- heap wraps around. The loops count down from their bound: `merge_block` and `split_block` have a
-- round for each order between the two ends, `order_loop` has 63, since a `size_t` shift has 64
-- places, and `sweep` has one for each frame, since a round moves on by at least one.
--
-- Process (kernel/process.c, kernel/process.h). Process/Types.antt has the table and its counters,
-- Process/Create.antt the creation of processes and the frame that `context_switch` of
-- kernel/switch.asm pops for a new one, Process/Scheduler.antt `schedule`, `process_switch_to`, the
-- two exits, `proc_wake_parent` and `proc_waitpid`. Calls that leave the module (the switch itself,
-- the TSS, the files, the memory manager) are the values `Effect` that a function returns in their
-- order; a context switch returns when the process runs again, so what the others do until then is
-- an argument of `proc_waitpid`, step by step: it begins its next round once it is the current
-- process again. What `kmalloc`, `mmap_user` and `pml4_create` return is an argument, 0 for NULL. A
-- table is sound (Process/Scheduler/Running.antt) when no entry but the current one is marked as
-- running; Process/Scheduler/Reach.antt has the states that the operations come to. Of a table
-- entry, the fields that nothing reads are left out.
--
-- Env (kernel/env.c). Env.antt has the tables of variables and of aliases as lists of rows of
-- strings, Env/Lookup.antt what a lookup gives after a change. A string is the list of its
-- characters; a name of a variable is cut to 31 characters, of an alias to 63, a value to 255, as
-- `strncpy` is called. `strcmp` of kernel/utils.c is the test whether two strings are equal.
--
-- Fat (fs/fat32.c, fs/fat32.h, and the two calls of drivers/ata.c). Fat/Types.antt has the record
-- `Volume`: the static variables, and the disk as the contents of each sector with the sectors
-- that can be read and written; a call that fails changes nothing, and the drive gets 28 bits of a
-- sector number. Fat/Name.antt has `name_to_83`, Fat/Table.antt the table (`fat_read_entry`,
-- `fat_write_entry`, `fat_find_free`, `alloc_clusters`), Fat/Chain.antt `read_chain` and
-- `write_chain`, Fat/Walk.antt the loops over the clusters, sectors and entries of a directory
-- that the functions of the file repeat, with what is done for an entry as an argument,
-- Fat/Entry.antt a directory entry in the bytes of a sector, Fat/Dir.antt the directory functions
-- (`find_entry`, `create_entry_at`, `delete_entry_at`, `list_dir_at`, `fat32_match_prefix`),
-- Fat/Files.antt the calls on files and on the current directory, Fat/Tree.antt `fat32_mkdir`,
-- `fat32_rename` and `fat32_rmdir`, Fat/Path.antt `fat32_get_cwd_name`. A walk gets the number of
-- clusters that it follows at most, `hops` for a directory and `rounds` for a file, and gives
-- `none` where a chain is longer; a chain that ends needs one more than its links. What is printed
-- is a list of calls of kernel/console.c. A volume fits the drive (Fat/Layout.antt) when the table
-- is before the clusters, all within the 28 bits. A write through a pointer into the buffer of a
-- sector is a function of the sector's bytes. `stack` of `fat32_get_cwd_name` has 16 places: with a
-- name more, which the code does not test, the model gives `none`.
--
-- Console (kernel/console.c). Console.antt has the record `Screen` of the static variables, with
-- `scrollback` as a function from the offset of a cell, and the functions from `console_putchar`
-- to `console_write`; Console/Printf.antt has `console_printf` on a list of arguments, with `none`
-- for what C leaves undefined. What goes to the framebuffer (lib/gui/vesa.c) and to the serial
-- port (kernel/serial.c) is a list of calls. The digits of a number below 2 ^ 32 take at most 10
-- rounds.
--
-- Libc (userland/libc/string.c and stdlib.c). Libc.antt has the functions on a memory from
-- addresses to bytes. A loop to a terminator has at most `fuel` rounds and gives `none` if they do
-- not reach; a string needs one round more than its characters. Libc/Strings.antt says when a
-- string stands in memory. Of stdlib.c, Libc/Convert.antt has `atoi` and `itoa`, and
-- Libc/Heap.antt and Libc/Heap/Resize.antt have `malloc`, `free`, `calloc` and `realloc` on the
-- bytes of `_heap`, with the answer of the system call `mmap` as an argument and the call of
-- `munmap` as a result. They give `none` where an `int` overflows, or where the walk along the
-- free list does not end within its rounds; a heap that nothing has been taken from needs two.
--
-- Devices (drivers/mouse.c and kernel/rtc.c). Devices/Mouse.antt has the static variables of the
-- mouse as the record `Mouse` and a byte from the port as an argument, Devices/Clock.antt the
-- registers of the clock as a function.
--
-- Syscall (kernel/syscall.c, with `syscall_isr` of kernel/idt.asm and `_syscall` of
-- userland/libc/stdlib.c). Syscall/Types.antt has the record `System` of the table `fds` and the
-- state of the parts that a call goes to, Syscall/Files.antt the calls on descriptors and files,
-- Syscall/Stat.antt those on sizes and positions, Syscall/Handler.antt the others and
-- `syscall_handler`, on the registers as words by their place on the stack. The memory of a program
-- is a function from addresses to bytes, and `owned` says which addresses hold what the other
-- fields stand for. The code tests no pointer of a program: where a call stores into these bytes,
-- `syscall_handler` gives `none`. `Limits` bounds the loops over clusters and over the characters
-- of a path, and has what happens while `read` waits for a key; a call gives `none` if they do not
-- reach, or where C leaves it undefined. A `write` of 2 GB and more to a file is left out. A path
-- that `open` stores is cut to 255 characters.
--
-- Vesa (lib/gui/vesa.c). Vesa.antt has the functions on the record `Video`: the frame buffer and
-- the back buffer are functions from the index of a pixel to its colour, and do not overlap.
-- `vesa_draw_rect` gives `none` where a sum of its arguments overflows an `int`. Vesa/Font.antt has
-- the glyphs. `IsScreen` (Vesa/Rect.antt) says that the rows lie within the buffer and that the
-- index of a pixel fits 32 bits. Vesa/Text.antt draws the calls that the console gives as a list,
-- and Vesa/Typing.antt says when the screen shows the text of the console.
--
-- The parts meet in the system calls, which call the console, the file system, the keyboard, the
-- processes and the memory manager. The timer interrupt calls `schedule`, and the processes take
-- their stacks from `mmap_user` and give them back through `munmap_user`. The console draws its
-- cells through lib/gui/vesa.c.
--
-- Not modelled, for the size of the development: kernel/shell.c, kernel/mach_o.c, lib/owt and
-- lib/wm, and the rest of userland/ (of stdlib.c: `exit`, `mmap` and `munmap`, which only make a
-- system call). Nor is the code that only drives hardware (the ports in drivers/ata.c,
-- kernel/rtc.c, kernel/idt.c, kernel/pic.c, kernel/pit.c, kernel/tss.c and the assembly but for
-- the frame named above). The kernel has one processor, so the spin lock of kernel/memory.c leaves
-- no trace. The directory src/ of the repository is an older copy of the tree.
pub mod Base
pub mod Console
pub mod Devices
pub mod Env
pub mod Fat
pub mod Keyboard
pub mod Libc
pub mod Memory
pub mod Process
pub mod Syscall
pub mod Vesa
