-- ===== src/Lib.antt =====
-- The DRUPE kernel, a 32-bit kernel for x86 in C.
--
-- The parts, and how they work together. The boot loader hands `kernel_entry` (source/kernel.c) a
-- list of tags, in which `mb2_get_memory` finds the size of the memory. `kernel_entry` sets up the
-- screen, the descriptor table and the interrupt table, and gives the memory to the allocator of
-- physical sectors. It mounts the file system of the disk image that the loader left in memory, and
-- `um_setup_env` finds the program in its root directory, creates a process and copies the file to 4
-- MB, where `um_switch` enters user mode. Everything the kernel says goes through the shell: a text
-- is written byte by byte to the ring of bytes of a stream, and after each byte the shell reads the
-- ring and draws on the screen.
--
-- The files and the code.
-- - Stream: source/system/shell/stream.c. `Stream` is `basic_stream_t`; `stream_write` and
--   `stream_read` are the functions of these names. A loop with n rounds to go is recursion on n, so it
--   needs no fuel. A buffer that is read from is a function from the index, and the bytes that are
--   stored to a buffer are a list.
-- - Shell: source/system/shell/shell.c. Shell/Display has the screen (`sh_scroll`, `sh_clear`, and the
--   body of the two loops in `sh_render` as `render_char`); Shell has the streams (`sh_init`,
--   `sh_render`, `sh_write_stream`, `sh_putc`, `sh_puts`); Shell/Print has `sh_putint` and `sh_printf`,
--   Shell/Print/Format/Grammar the texts that formats stand for.
--   `sh_render` runs on fuel, with one round more than the stream has bytes: each round but the last
--   takes a byte. A C string is the list of its bytes before the terminating zero, and `none` stands
--   for behaviour that C leaves undefined (a percent sign at the end of a format, a missing argument, a
--   zero width).
-- - Memory/Physical: source/system/memory/physical.c. `Pmm` holds the map, the first address and the
--   number of sectors. A read or a write beyond the map is `none`. Memory/Physical/Trace has the
--   states that any sequence of the operations reaches, with the list of the sectors given out.
--   Memory/Virtual has `mem_virt_init`, the one function of source/system/memory/virtual.c that is
--   not inside a comment.
-- - Boot/Gdt: source/boot/gdt/gdt.c. Boot/Idt: source/boot/idt/idt.c with the task state segment.
--   `gdt_load` is assembly: what the processor makes of the entries while it loads them is the parameter
--   `load`, of which `IsLoad` asks what the processor's manual says, that at most the accessed bit of an
--   access byte changes. The addresses of the assembly stubs are the parameter `isr`.
-- - Boot/Multiboot: source/boot/multiboot.c, over memory as a function from the address to the byte. It
--   runs on fuel, `none` if the fuel runs out; one round for each tag and each entry of the map is
--   enough. Tags of size 0 keep the source in its loop for ever.
-- - Interrupts: source/system/interrupts. Interrupts/Syscalls has `handle_syscall`, Interrupts/Handlers
--   `interrupt_handler`, `irq_handler` and the keymap, Interrupts/Pic the interrupt controllers. A
--   handler takes the frame and the kernel (the shell, and the memory as a function from the address to
--   the byte, which the shell is no part of) and gives both back; it ends in a return or in
--   a halt for ever. What a read of a port gives is a parameter, and the writes to ports are a list. The
--   addresses of `exit_to_kernel` and of the kernel's stack are parameters. `g_kernel_shell` is not null:
--   `kernel_entry` sets it before it allows interrupts.
--   Interrupts/Input says what goes into stdin and what a system call gives to the program.
-- - Arch: source/arch/x86/idt_asm.asm, over the registers of the processor as its manual describes them.
--   Arch has the instructions that the stubs use, Arch/Stubs the stubs (`isr0` to `isr128`, `irq0`,
--   `irq1`, `isr_common`, `irq_common`) as lists of them, and what the processor does on an interrupt.
--   The stack of the kernel is a list of words, the one at `esp` first; it is memory of its own, apart
--   from that of the program and that of the other variables. `eip` is set when an interrupt arrives and
--   when it returns, and not followed inside a stub. A call of the C code is the model of the handler,
--   with the frame read from and written to the words on the stack. The flags in a handler and what C
--   code leaves in the registers that it need not keep are parameters. The code at the address in a gate
--   is the stub of its vector, and a vector without a stub has no result.
-- - Session: a program in user mode from its start on, as a relation of steps: the program computes, a
--   key or a tick arrives, or the program calls the system. A program changes the registers and the
--   memory as it likes, but neither its code segment nor the shell. No interrupt arrives inside a
--   handler, though the gate of the system call would allow it: Stream/Interrupted has the one case in
--   which two handlers change the same ring, a key in the middle of a write to stdin, between two rounds
--   of the loop of `stream_write`.
-- - Filesystem: source/system/filesystem/ext2, over memory as bytes by address, in which the disk image
--   stands. Filesystem has the structures of ext2.h, Filesystem/Copy `kpmalloc`, `kpmemset` and
--   `kpmemcpy`, Filesystem/Mount `ext2_mount` and `ext2_read_inode`, Filesystem/Dir `ext2_read_dir` and
--   Filesystem/File `ext2_read_file`. Filesystem/Search has the functions of source/kernel.c that find
--   a file by its name. A division by zero and a shift by the width of the word are `none`. The loop
--   over the entries of a directory's block has fuel for one round more than the block has bytes, since
--   each entry takes a byte at least; `kpmalloc` has fuel for two rounds more than the size has whole
--   sectors. The index of a copy is an `int` in the source; the model covers sizes below 2 ^ 31, and
--   addresses do not wrap within a copy. A callback is a function of its context and does not change
--   the memory.
-- - Usermode: `System` holds the static variables of the kernel's files. Usermode/Processes:
--   source/system/usermode/processes.c; a pointer to an entry of the table is its index, and the null
--   pointer is `none`. Usermode/Setup: source/system/usermode/usermode.c; `um_switch` is inline
--   assembly, modelled as the registers that it leaves.
-- - Entry: `kernel_entry` of source/kernel.c, which ends in a fatal message, idle, or in user mode. The
--   address of the image and the flags at the switch are parameters, and no interrupt is taken on the
--   way. Fuel is that of `mb2_get_memory`.
-- - Base: helpers on tests, lists, words of fixed width, bits and memory.
--
-- Numbers are natural numbers; a word of w bits is a number below 2 ^ w, and the operations write the
-- wrap-around out. An `int` that may be negative is an integer.
--
-- Not modelled: `_start`, `gdt_load` and `idt_load` in source/arch/x86, which load registers of the
-- processor and call `kernel_entry`; the example program in rootfs; the parts of virtual.c inside a comment;
-- volatile accesses to the screen as such; `i_osd2` of an inode, which nothing reads; build files.
mod Base
pub mod Stream
pub mod Memory
pub mod Shell
pub mod Boot
pub mod Interrupts
pub mod Arch
pub mod Filesystem
pub mod Usermode
pub mod Entry
pub mod Session
