-- ===== src/Lib.antt =====
-- JaeOS, an operating system kernel for the uARM machine: process control blocks and their queues
-- and tree, the active semaphore list, the scheduler, the exception and interrupt handlers, and the
-- system calls. Paths are from the root of the repository.
--
-- The parts, from the bottom up, and the files that model them:
-- - incl/clist.h, the circular lists: Memory holds the addresses of the links and a store of `next`
--   fields, Clist the macros, Clist/Ring the list that a chain of links stands for, and
--   Clist/Queue, Fill, Search, Unlink, Remove, Place, Insert, Map and Unique what the macros do to
--   it. An element is named by the address of its link, so container_of is the identity, and a list by the
--   address of its tail pointer.
-- - incl/types.h, incl/const.h and incl/init.h: Kernel/Machine holds the record of all that the
--   kernel keeps, with pcb_t, semd_t and state_t; a pcb or a semd is named by its number in the
--   array it lives in. Kernel/Arch holds what comes from the headers of uARM, a parameter:
--   constants, and the addresses of the semaphores and the handlers. Kernel/Cmd is the monad of
--   runs over the kernel: a run returns, stops the processor (LDST, WAIT, HALT, PANIC), or faults;
--   Kernel/Rules holds the rules for what a run leaves.
-- - src/pcb.c: Pcb, with theorems in Pcb/FreeList, Pcb/Queue and Pcb/Tree.
-- - src/asl.c: Asl, with theorems in Asl/Find, Release, Remove, Out, Head, Place, Insert, Order,
--   Start and Roundtrip.
-- - lib/aux.c, the accounting of time and the copies of states: Accounting and Accounting/Time.
-- - src/scheduler.c and src/debug.c: Scheduler and Scheduler/Choice.
-- - src/exceptions.c: Syscalls/Process, Semop, Areas and Device hold the system calls, and Handlers
--   the handlers that call them and pass an exception up. The theorems are in Syscalls/Pid and
--   Create, on new processes, and in Free, Park, Wake, Waiters, Signal and Grant, on
--   semop.
-- - src/interrupt.c: Interrupts, Interrupts/Device, Terminal, Deliver and Tick.
-- - src/init.c: Boot.
-- - The nucleus as a whole: Nucleus holds an abstract view of the state, with queues as lists and a
--   place for each process, and the predicate that ties the memory to it. Its children carry it
--   through the parts: Frame (changes that concern no list), Room, Wake and Signal (a V), Join,
--   Wait and Semop (a P), Created, Offspring and Create, Schedule, Timer, Devices, Interrupt and Vacant
--   (an interrupt with no process to run), Calls, Service, PassUp, Trap, Above and Exceptions, Filled, First
--   and Boot, and Steps, the step relation of the machine. The end of a process is in Family
--   (descendants), Cut, Child, Progeny and Sweep (terminateProgeny), Unready, Unqueue, Freed, Leave
--   and Retire (its last part, for one process), Lookup (childByPid), Terminate and End
--   (terminateProcess). It is a step where each of the processes that has a semaphore in its block
--   waits there: p_cursem is not reset when a process is woken, and Stale is about the end of one
--   that was.
-- Common holds the names that the others share; Tests holds a machine to run the model on and an
-- instance of each theorem that has conditions.
--
-- Every function of the source is a function of the same name, in lower case with underscores. It
-- takes the kernel last and returns the next one; the calls stand in the order of the source. Reading
-- through NULL is `fault` in an operation on a list and `crash` in a run; meeting a bound on a loop is
-- `out_of_fuel` and `diverge`.
--
-- Numbers: an `unsigned int` is a natural number with `% 2 ^ 32` written out at each operation that
-- can wrap; an `int` is an integer, whose sums in semop wrap around by add_int and sub_int. Loops over a circular list take a bound on their rounds. In
-- the kernel it is 22: there are 20 blocks (MAXPROC) and so at most 20 elements, and the theorems on
-- the walks need one or two rounds more than there are elements. The recursions over the tree of
-- processes take 22 as the bound on their depth, which is enough since no chain of ancestors is longer
-- than the number of blocks.
--
-- Memory: the words at the addresses that semop takes are a map of their own, apart from the
-- kernel's variables, so a write through such an address reaches no other part of the kernel. That
-- is so for the semaphores of processes and devices; the semaphore past the end of the array, which
-- handleDevices signals for a received character, may lie over other variables, and the theorems on
-- the nucleus exclude it (HasRequest). Device registers are read and written as memory: the command
-- that acknowledges leaves the status as it is until the handler has read it.
--
-- Not modelled: src/p2test.c, a program that runs on the kernel; libuarm, whose calls appear as
-- fields of the kernel's record (the clock, the timer, the device registers, the copies of the
-- registers in the exception areas); the bytes of what memcopy copies, since a state is copied whole.
pub mod Common
pub mod Memory
pub mod Clist
pub mod Kernel
pub mod Pcb
pub mod Asl
pub mod Accounting
pub mod Scheduler
pub mod Syscalls
pub mod Nucleus
pub mod Handlers
pub mod Interrupts
pub mod Boot
pub mod Tests
