-- ===== src/Lib.antt =====
-- disastrOS, a small operating system that runs in one process, with message queues and semaphores.
--
-- The program keeps its objects (process control blocks, timers, semaphores, message queues, their
-- priority queues and messages, descriptors) in static pools (pool_allocator.c) and links them into
-- doubly linked lists whose items stand inside the objects (linked_list.c). A system call is a
-- function without arguments: it reads those of the running process from its control block, works on
-- the global lists, and leaves its return value in the control block.
--
-- The files:
--   LinkedList, LinkedList/*          linked_list.c: the operations (`List_insert` is `list_insert`
--                                     and so on), what a well-formed list is (Chain), the search
--                                     loops (Walk), and the whole memory as sequences (Memory)
--   PoolAllocator, PoolAllocator/*    pool_allocator.c, and the free list as a sequence (Chain, FreeList)
--   Kernel/Constants                  disastrOS_constants.h
--   Kernel/Object, Kernel/State       the structs of the headers, and disastrOS_globals.h
--   Kernel/Cmd                        state passing, the fields and arguments that calls read and
--                                     write, the pools and lists of the kernel
--   Kernel/Laws, Invariant, Preserve, what these do on a kernel in order (`IsKernel`)
--     Take
--   MessageQueues/Blocks              disastrOS_mq.c and disastrOS_mqdescriptor.c
--   MessageQueues/Open, Close, Read,  disastrOS_mqopen.c, disastrOS_mqclose.c, disastrOS_mqread.c,
--     Write, Unlink, and below them   disastrOS_mqwrite.c, disastrOS_mqunlink.c, and their theorems
--   MessageQueues/View, RoundTrip,    what the calls find, reads after writes, and closes after opens
--     OpenClose
--   Semaphores/*                      disastrOS_semaphore.c, disastrOS_semdescriptor.c,
--                                     disastrOS_semopen.c, disastrOS_semclose.c,
--                                     disastrOS_semwait.c, disastrOS_sempost.c
--   Timers, Timers/*                  disastrOS_timer.c
--   Processes                         disastrOS_sleep.c, disastrOS_schedule.c, disastrOS_preempt.c
--                                     and the timer interrupt of disastrOS.c
--   Processes/Blocks, Create, Wait,   disastrOS_pcb.c, disastrOS_fork.c and disastrOS_spawn.c,
--     Exit, and below them            disastrOS_wait.c, disastrOS_exit.c
--   Resources/*                       disastrOS_resource.c, disastrOS_descriptor.c,
--                                     disastrOS_open_resource.c, disastrOS_close_resource.c,
--                                     disastrOS_destroy_resource.c
--   System, System/*                  disastrOS.c: the entry of a system call, its dispatch, the
--                                     functions that a process calls (Calls), and the start (Start);
--                                     disastrOS_shutdown.c
--   Base, Tests                       shared helpers; the theorems on concrete kernels
--
-- State. A `Kernel` holds the list memory, the object at each address, the pools, the global
-- variables, and the characters and integers of the processes' memory. A handler is a `Cmd`, a
-- function from a kernel to a result with a kernel, to `fault` (a dereference of NULL, a failed
-- assertion, or an object read as another type) or to `out_of_fuel`. The block `i` of the pool with
-- the code `c` has the address `16 * i + c`, so that objects of different pools never overlap; the
-- list head number `f` of the object at `p` has the number `8 * p + f`. An `int` argument is the low
-- word of a `long int`, read with its sign.
--
-- Fuel. A loop over a list has 20000 rounds. All pools together hold fewer blocks than that, and an
-- item stands at most once in a list; the theorems take it as a hypothesis that the lists they search
-- are shorter. The loops over levels have a round for each level.
--
-- Start. The size of each struct and the place of each static buffer are fixed by the compiler and
-- the linker; they are the parameters `size_of` and `buffer_at` of the start.
--
-- Not modelled: printing and the log file, the saved CPU states and stacks (so `disastrOS_spawn`
-- is modelled up to the preparation of the new context), the host's signals, the interval timer
-- and context switches, the test program, disastrOS_semops.c (not built), and the checks under
-- `_LIST_DEBUG_` (not compiled). The products of sizes and numbers of
-- items in a pool, the offsets of its blocks and the wake time of a sleeping process are `int`s: an
-- overflow of signed numbers is a fault, a conversion to `int` keeps the low 32 bits. The counters of
-- the kernel do not overflow in the model: `num_messages` and the sizes of lists are bounded by the
-- pools, and process numbers and the clock are taken to stay below 2^31.
mod Base
pub mod LinkedList
pub mod PoolAllocator
pub mod Kernel
pub mod MessageQueues
pub mod Semaphores
pub mod Timers
pub mod Processes
pub mod Resources
pub mod System
mod Tests
