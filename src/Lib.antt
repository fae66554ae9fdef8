-- ===== src/Lib.antt =====
-- CheeriOS, a small teaching kernel for x86, modelled over a byte memory.
--
-- The kernel keeps a read-only file system image in memory (student-distrib/file_system.c), shows text
-- on the VGA screen and offers string and memory functions (student-distrib/lib.c), and turns keyboard
-- interrupts into the lines of three terminals (student-distrib/keyboard.c). Programs run as processes with
-- up to eight file descriptors each, and call it through the system calls (student-distrib/system_call.c).
-- keyboard_handler calls putc, newline_keyboard, backspace_keyboard, clearscreen and memcpy; read_terminal
-- waits for the flag that the handler sets at Enter, and write_terminal calls putc; the directory functions
-- call strlen, strncmp and strcpy; read and write go to the terminal, the clock, a file or the directory by
-- the table of the descriptor; execute calls read_dentry_by_name, read_data and process_page; an exception
-- handler calls printf and halt.
--
-- A C function is a function of the same name that takes the globals it uses as a record and returns the
-- new one. Memory is a function from addresses to cells whose bytes are read modulo 256
-- (Common/Memory.antt); an int or uint32_t is a number below 2 ^ 32 with the wrap written out, and
-- signed tests are `slt` (Common/Words.antt). Pointers into objects are not wrapped, since C leaves that
-- undefined.
--
--   Common       words, memory, Boolean tests, and what has been written where (`Written`)
--   Strings      strlen, strncmp, strcpy, strncpy
--   MemCopy      memcpy, as its assembly runs
--   MemSet       memset, memset_word, memset_dword, memmove and test_interrupts
--   FileSystem   Layout: the structures of file_system.h; Data: read_data_block, read_data;
--                Directory: read_dentry_by_name, read_dentry_by_index, dir_read
--   Screen       the cursor, which may stand one column or row behind the last, putc, backspace_keyboard, newline_keyboard, scrollscreen, clear
--   Output       puts, itoa, strrev and printf
--   Keyboard     State: the globals, three terminals as slots of one record; Tables: the scan codes;
--                Handler: keyboard_handler, one function per group of its tests; Terminal: reading and
--                writing a terminal
--   Ports, Pic   the ports as an interface, and the interrupt controllers of student-distrib/i8259.c
--   Rtc          student-distrib/rtc.c
--   Paging       student-distrib/paging.c, and vidmap of student-distrib/system_call.c
--   Kernel       State: the globals of student-distrib/system_call.c and the process control blocks of
--                student-distrib/pcb.h; Files: what the function tables call; Calls: open (open_call),
--                close, read, write, getargs; Process: execute and halt in stages; History: any
--                sequence of calls, launches and halts
--   Idt          student-distrib/idt_init.c: the descriptor table, and the exception handlers
--   Programs     System: the calls of syscalls/ece391syscall.h as an interface; Support: the functions of
--                syscalls/ece391support.c; Files: cat, ls and grep; Shell: shell, hello, counter and testprint;
--                Pingpong: pingpong; Errors: syserr; Session: the kernel as such a system
--   Boot         entry of student-distrib/kernel.c, which calls all of the initialisers and executes the shell;
--                Multiboot: what it prints of student-distrib/multiboot.h
--
-- Loops that C bounds by a counter recur on the rounds left. Those that run to a NUL take 2 ^ 32 rounds,
-- since their counter is a uint32_t; the loop of read_data takes length + 1 rounds, each of which reads a
-- byte or ends; itoa takes one round more than the value, which each round makes smaller. `none` is a loop
-- that has not ended, a division by a radix of 0 or a read behind the digits of itoa, a call through a NULL table, or a read of printf behind its format or arguments.
-- read_terminal takes the scan codes that arrive while it waits as a list.
--
-- A parameter of keyboard_handler stands for the bytes behind its two tables, which it reads: the array
-- of 48 scan codes is searched to index 94.
--
-- A process control block goes by its slot n, for the address 8 MB - n * 8 KB. execute takes where the
-- compiler put its local variables, and what the stack pointers are (`Frame`); it ends with a return or with the
-- entry point of the program, and halt with the frame that it restores. The memory is the physical one:
-- the addresses of the kernel are mapped to themselves, and the program is written through the directory
-- entry of its page.
--
-- The ports behind inb and outb are the hardware's: Pic and Rtc take them as a parameter, and the
-- theorems on the masks take the two data ports as latches, and the one on rtc_write the clock as its data
-- sheet has it: port 0x70 selects a register and port 0x71 reads and writes it. rtc_read takes how many interrupts arrive while
-- it waits. Where the linker put the interrupt handlers is a parameter of init_idt_entry.
--
-- A program is a function of the state that its calls change, over any system. Its arrays are at addresses that
-- are arguments, and its string constants where `literal` puts them. A loop that only a call ends takes the
-- rounds that it may run: cat needs one more than the file has bytes. In a Session the kernel reads and writes at
-- the program's addresses as they are, and what a program does that execute starts is a parameter.
--
-- Not modelled: interrupts inside a handler or a system call other than one that waits; the assembly that
-- saves registers, dispatches system calls, goes to user mode and loads descriptor tables;
-- system_call_handler, which nothing calls; the tests of the kernel; sigtest, which writes through NULL and into
-- the frame of a signal handler; fish, which draws with assembly of its own; and the emulation of the system
-- calls for the host, which are calls of Linux.
pub mod Common
pub mod Strings
pub mod FileSystem
pub mod Screen
pub mod MemCopy
pub mod Keyboard
pub mod Paging
pub mod Ports
pub mod Pic
pub mod Rtc
pub mod Kernel
pub mod Output
pub mod Idt
pub mod MemSet
pub mod Programs
pub mod Boot
