-- ===== src/Kernel/State.antt =====
-- The global variables (disastrOS_globals.h, disastrOS.c) with the memory that they lead to.
--
-- The blocks of the pools lie apart: block `i` of the pool with code `c` has the address
-- `16 * i + c`. The heads of lists lie apart too: the global ones are 0 to 6, and head number `f` in
-- the object at `p` is `8 * p + f`.
use disastr_os_message_queue.Base.{ℕ, ◌+◌, ◌*◌, ℤ}
use disastr_os_message_queue.LinkedList.{ListMemory}
use disastr_os_message_queue.PoolAllocator.{PoolAllocator}
use disastr_os_message_queue.Kernel.Object.{Object}

pub record Kernel : Type 0 where
  pub lists : ListMemory
  pub object : ℕ → Object
  pub pool : ℕ → PoolAllocator
  pub init_pcb : ℕ
  pub running : ℕ
  pub last_pid : ℤ
  pub disastr_os_time : ℤ
  pub shutdown_now : ℤ
  -- The memory of the processes: the `char`s and the `int`s at each address.
  pub chars : ℕ → ℕ
  pub ints : ℕ → ℤ

-- The codes of the pools, one for each static allocator.
abbrev pub pcb_pool : ℕ
pcb_pool = 1

abbrev pub pcb_ptr_pool : ℕ
pcb_ptr_pool = 2

abbrev pub timer_item_pool : ℕ
timer_item_pool = 3

abbrev pub resources_pool : ℕ
resources_pool = 4

abbrev pub descriptor_pool : ℕ
descriptor_pool = 5

abbrev pub descriptor_ptr_pool : ℕ
descriptor_ptr_pool = 6

abbrev pub semaphores_pool : ℕ
semaphores_pool = 7

abbrev pub sem_descriptor_pool : ℕ
sem_descriptor_pool = 8

abbrev pub sem_descriptor_ptr_pool : ℕ
sem_descriptor_ptr_pool = 9

abbrev pub mqs_pool : ℕ
mqs_pool = 10

abbrev pub mq_descriptor_pool : ℕ
mq_descriptor_pool = 11

abbrev pub mq_descriptor_ptr_pool : ℕ
mq_descriptor_ptr_pool = 12

abbrev pub queues_pool : ℕ
queues_pool = 13

abbrev pub messages_pool : ℕ
messages_pool = 14

abbrev pub block_at : ℕ → ℕ → ℕ
block_at code i = 16 * i + code

-- The global lists.
abbrev pub ready_list : ℕ
ready_list = 0

abbrev pub waiting_list : ℕ
waiting_list = 1

abbrev pub zombie_list : ℕ
zombie_list = 2

abbrev pub resources_list : ℕ
resources_list = 3

abbrev pub semaphores_list : ℕ
semaphores_list = 4

abbrev pub message_queues_list : ℕ
message_queues_list = 5

abbrev pub timer_list : ℕ
timer_list = 6

-- `&pcb->children` and the other lists of a process.
abbrev pub children : ℕ → ℕ
children p = 8 * p

abbrev pub descriptors : ℕ → ℕ
descriptors p = 8 * p + 1

abbrev pub sem_descriptors : ℕ → ℕ
sem_descriptors p = 8 * p + 2

abbrev pub mq_descriptors : ℕ → ℕ
mq_descriptors p = 8 * p + 3

-- `&res->descriptors` of a resource, a semaphore or a message queue.
abbrev pub target_descriptors : ℕ → ℕ
target_descriptors p = 8 * p

abbrev pub waiting_descriptors : ℕ → ℕ
waiting_descriptors p = 8 * p + 1

abbrev pub queues : ℕ → ℕ
queues p = 8 * p + 1

abbrev pub messages : ℕ → ℕ
messages p = 8 * p

-- The rounds granted to a loop over a list. There are fewer than this many blocks in all pools
-- together, so a list whose items are distinct blocks is shorter.
abbrev pub list_fuel : ℕ
list_fuel = 20000
