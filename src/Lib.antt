-- ===== src/Lib.antt =====
-- The kernel of NeXs: its capability table, its keyboard driver, its scheduler, its interrupt
-- dispatch, its registry of modules, its memory management, its messages, its system calls, its
-- timer, its shell, its screen and its C library.
--
-- The kernel is a set of C files under kernel/, each with static variables and functions on them.
-- An interrupt enters by a stub and reaches `keyboard_handler` (IRQ 1) or, by way of the timer (IRQ
-- 0), `scheduler_switch`, which answers the stack pointer to return to. Tasks are created by
-- `task_create_full` with memory of the buddy allocator.
--
-- Each file is a module. Its static variables are a record, a function takes the record and returns
-- the new one, and a PANIC is a constructor of the result. Numbers are unbounded; a counter that
-- can wrap has its wrap-around written out, and the bounds of the other fields stand as hypotheses
-- or in an invariant where a theorem needs them.
--
--   Permissions  kernel/permissions.c, kernel/permissions.h
--   Keyboard     kernel/keyboard.c; the byte of port 0x60 is an argument of `keyboard_handler`,
--                and `keyboard_getchar` takes the scancodes of the interrupts that it waits for
--   Scheduler    kernel/scheduler.c, kernel/process.h; the circular list is a list of tasks, a task
--                pointer a place in it; the words of `memory` are those of the stacks and of all
--                else but the control blocks and the static variables, which the tasks of the
--                model never write. `scheduler_switch` is split along its comments into
--                `charge`, `spend`, `search_loop` and `settle`; `get_timer_ticks()` is an argument
--   Buddy        kernel/buddy.c: the sizes of blocks, the choice of the heap in the memory map
--                (`buddy_init_e820` is `place_heap`), and the secure region
--   Heap         kernel/buddy.c: the free lists, `buddy_init`, `buddy_alloc`, `buddy_free`; a list
--                is the list of its blocks' addresses, and the other fields of a header are read
--                and written at the block's address
--   Sblock       kernel/sblock.c; a block is its header with its data
--   Interrupts   kernel/handlers.c; the calls and port writes of a handler are a list of effects
--   Modules      kernel/module.c and kernel/module.h; a linked list is the list of its items,
--                and the functions `init` and `exit` of the modules are a parameter
--   Memory       `memset`, `memcpy`, `memmove`, `memcmp` of kernel/libc.c; memory is a function
--                from addresses to bytes
--   CString      `strlen`, `strcpy`, `strncpy`, `strcat` of kernel/libc.c, in that memory
--   Numbers      `itoa`, `uitoa`, `atoi` of kernel/libc.c, in that memory
--   Strings      `strcmp`, `strncmp`, `strchr` of kernel/libc.c; a string is the list of its bytes
--   Screen       kernel/vga.c: the cells, the cursor and the colour
--   Messages     kernel/messages.c; a message is at its address, a free list is the list of the
--                addresses, and a `msg_receive` that would wait returns `waits`
--   Timer        kernel/timer.c; a reading of the time stamp counter is an argument
--   Syscalls     kernel/syscall.c over the records of Keyboard, Screen, Scheduler, Messages, Timer
--                and Heap; `yield` is a result of the call. The bytes at the callers' pointers
--                are read and stored by a `Layout`, a parameter that says which data a byte at
--                an address belongs to; a store into the saved registers themselves is left out
--   Shell        kernel/shell.c: the line editor, the history, and how a line is taken apart
--   Allocator    what its clients call of kernel/buddy.c, as an interface behind which stands
--                `Heap`; its laws, which `Messages` relies on, say which addresses are held, and
--                `Heap.Service` fills them
--   Base         lists, bits of machine words, and ring buffers
--
-- The loops over block sizes in `buddy.c` count the levels that are left, 11 at the start, which is
-- the second test of each loop. `search_loop` takes fuel, the do-while loop of `scheduler_switch`:
-- one unit for each task of the list, with which it always ends. The loops of kernel/libc.c up to a
-- zero or a non-digit take fuel as an argument, and the theorems say how much is enough; those that
-- write and reverse digits take 32 and the number of bytes. The word loops of `memset` and `memcpy`
-- take the number of bytes. `sys_write` takes fuel for its string, and the loop of a delay ends with
-- the list of readings. The other loops run over a list or a constant range.
--
-- Not modelled: what the commands of the shell do, which is to print; and, as input and output or
-- processor state, the serial line, the descriptor tables, the wrappers of the system calls,
-- assembly and boot code. The `yield` at the end of `sleep` and `exit` is the interrupt itself, a
-- step of its own. A function runs as one step; interrupts come between the calls, and while
-- `keyboard_getchar` waits.
mod Base
pub mod Numbers
pub mod Permissions
pub mod Interrupts
pub mod Keyboard
pub mod Memory
pub mod Messages
pub mod CString
pub mod Modules
pub mod Allocator
pub mod Buddy
pub mod Heap
pub mod Scheduler
pub mod Sblock
pub mod Screen
pub mod Strings
pub mod Timer
pub mod Syscalls
pub mod Shell
