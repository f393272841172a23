-- ===== src/Lib.antt =====
-- The kernel of an x86 teaching operating system (student-distrib), modelled function by function.
--
-- The parts and their files:
--   * Memory: memset, its variants for words, memcpy and memmove of student-distrib/lib.c. The assembly
--     loops are functions over their registers. Memory is a function from addresses to bytes, and
--     addresses do not wrap.
--   * Strings: strlen, strcpy, strncpy, strncmp, strrev and itoa of student-distrib/lib.c.
--   * Screen: the text screen of student-distrib/lib.c. Screen/Console is what it promises, a grid of
--     characters with a cursor; the video memory is part of memory at 0xb8000.
--   * Pic: student-distrib/i8259.c, the two mask bytes and a log of the writes to ports.
--   * Rtc: student-distrib/rtc.c. What the ports answer is an argument; a wait consumes a list of
--     interrupts.
--   * Filesys: student-distrib/filesys.c, over an image in memory.
--   * Paging: student-distrib/paging.c, the directory and the two tables as functions of the index.
--   * Process: student-distrib/pcb.c, processes and descriptors, and file_read of filesys.c. Process/Slots
--     is about free slots, Process/Files about opening and reading.
--   * Terminal: student-distrib/terminal.c, what the terminal device reads and writes.
--   * Syscall: student-distrib/syscall.c over the process table. The drivers behind the jump tables are
--     a record of operations that the calls take; Syscall/Files fills in those of files and directories.
--     Syscall/Handler is the gate of student-distrib/syscall_asm.S over the registers.
--   * Printf: printf of student-distrib/lib.c, with the words of its arguments.
--   * Keyboard: student-distrib/keyboard.c. Keyboard/Handler is its handler, Keyboard/Layout the tables,
--     and Keyboard/Reach puts keys and timer interrupts in any order.
--   * Schedule: the terminals, the timer with its handler and the speaker of
--     student-distrib/schedule.c.
--   * Idt: student-distrib/idt.c, the interrupt table and the exception handlers.
--   * Execute: student-distrib/execute.c and halt.c, over physical memory. The jumps of the assembly are
--     results. Execute/Restart is the loop of halt that starts the shell of a terminal anew, with fuel
--     for its rounds.
--   * Boot: entry of student-distrib/kernel.c, and the descriptors of x86_desc.h. Boot/Report is what it
--     prints and entry as a whole, Boot/Machine and Boot/Entry are about the state that it leaves.
--   * User: the library of the user programs, syscalls/ece391support.c. User/Programs are the programs cat,
--     ls, shell, counter, hello and testprint of syscalls/, User/Grep is grep and User/Pingpong is pingpong,
--     over a record of the system calls (User/Calls). What a program relies on, such as that a read gives
--     the next bytes of the file, is the hypothesis of its theorem.
--     User/Syserr are the tests of syscalls/ece391syserr.c.
--     User/Kernel is the record of calls that the gate and the kernel are, by the wrappers of
--     syscalls/ece391syscall.S: the buffer of a call lies in a page of memory, and what is written to
--     descriptor 1 is kept beside the state. User/CatFile, User/LsOpen, User/SyserrPasses, User/SyserrOpens and
--     User/SyserrUnopened run cat, ls and the tests on it, for a driver of the terminal of which User/Console
--     has one.
--   * Fish: the program of fish/. Fish is the list of blinking characters of fish/blink.S and the array of
--     fish/fish.c that its nodes come from; Fish/Program is fish.c over the calls of the system. Fish/Chain is
--     what a list in good order is, and Fish/Tick, Fish/Change and Fish/Remove are about the operations.
--   * Emulate: the system calls on Linux, syscalls/ece391emulate.c, of which fish/ has a copy. What Linux does is
--     a record of operations. Emulate/Arguments and Emulate/Directory are about its arguments and directory.
--   * Base: the shared tests, machine words, memory and lists.
--
-- Static arrays are functions of the index, so that a write out of bounds goes to a cell of its own.
-- An int32_t is its bit pattern, a number below 2 ^ 32, and -1 is 2 ^ 32 - 1.
-- Loops that the source bounds are recursive on the rounds left. A loop that looks for a null byte,
-- the digit loop of itoa, the rate loop of rtc_write and the loop of read_data take fuel, and `none`
-- is a loop that has not ended: a string needs more fuel than its length, itoa one round for each
-- bit, read_data more than the bytes that are asked for, and 32 rounds are enough for the rate.
--
-- The loop of terminal_read over a line needs more fuel than the 128 bytes of the buffer.
-- printf takes fuel for its format and what it writes, and the loop of the up key at most 80 rounds,
-- where it ends at all.
-- The loops of cat, ls and the shell take a unit of fuel for each round, which is enough with one for each
-- byte of the file or entry of the directory; pingpong is run for a number of rounds.
-- A walk along the list of fish takes more fuel than the list has nodes.
-- Not modelled: the tests of the kernel, which only print; the video memory of the emulation; and the test of
-- signals, which the kernel does not have.
pub mod Base
pub mod Memory
pub mod Strings
pub mod Screen
pub mod Pic
pub mod Rtc
pub mod Filesys
pub mod Paging
pub mod Process
pub mod Terminal
pub mod Syscall
pub mod Keyboard
pub mod Schedule
pub mod Idt
pub mod Execute
pub mod Printf
pub mod User
pub mod Fish
pub mod Emulate
pub mod Boot
