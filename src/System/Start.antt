-- ===== src/System/Start.antt =====
-- `disastrOS_start`: the pools, the lists and the first process.
pub mod Pools
pub mod Boot
use disastr_os_message_queue.Base.{
  ℕ, ◌+◌, ◌*◌, Bool, true, false, not, if◌then◌else◌, update, ℤ, pos, eqb_ℤ, to_int, and_then, ok,
}
use disastr_os_message_queue.PoolAllocator.{PoolAllocatorResult, success, init}
use disastr_os_message_queue.Kernel.Constants.{
  max_num_processes, max_num_resources, max_num_semaphores, max_num_mqs, max_num_queues,
  max_num_messages, max_num_descriptors_per_process, max_num_semdescriptors_per_process,
  max_num_mqdescriptors_per_process,
}
use disastr_os_message_queue.Kernel.Object.{pcb, running}
use disastr_os_message_queue.Kernel.State.{
  Kernel, pcb_pool, pcb_ptr_pool, timer_item_pool, resources_pool, descriptor_pool,
  descriptor_ptr_pool, semaphores_pool, sem_descriptor_pool, sem_descriptor_ptr_pool, mqs_pool,
  mq_descriptor_pool, mq_descriptor_ptr_pool, queues_pool, messages_pool, ready_list, waiting_list,
  zombie_list, resources_list, semaphores_list, message_queues_list, timer_list,
}
use disastr_os_message_queue.Kernel.Cmd.{
  Cmd, ◌>>=◌, ◌>>◌, skip, pure, gets, modify, assert, init_list, load, store, as_pcb,
}
use disastr_os_message_queue.Processes.Blocks.{pcb_alloc}

abbrev pub is_success : PoolAllocatorResult → Bool
is_success success = true
is_success _ = false

-- The compiler and the linker fix the size of each struct and the place of each static buffer, by the
-- code of the pool.
module _ (size_of buffer_at : ℕ → ℕ) where
  -- `PoolAllocator_init` on the pool with this code: `num_items` items, in a buffer that has room for
  -- `room` items and their entries of the free list.
  unfoldable pub pool_init : (code num_items room : ℕ) → Cmd (Unit {0})
  pool_init code num_items room = do
    result ← λ k.
        and_then
          (init (k.pool code) (size_of code) num_items (buffer_at code)
            (to_int (pos (room * (size_of code + 4)))))
          λ (result, a). ok (result, record k { pool = update k.pool code a })
    assert (is_success result)

  -- `PCB_init`
  unfoldable pub pcb_init : Cmd (Unit {0})
  pcb_init = do
    pool_init pcb_pool max_num_processes max_num_processes
    pool_init pcb_ptr_pool max_num_processes max_num_processes

  -- `Timer_init`
  unfoldable pub timer_init : Cmd (Unit {0})
  timer_init = pool_init timer_item_pool max_num_processes max_num_processes

  -- `Resource_init`
  unfoldable pub resource_init : Cmd (Unit {0})
  resource_init = pool_init resources_pool max_num_resources max_num_resources

  -- `Descriptor_init`. The buffers have room for more items than the pools are given.
  unfoldable pub descriptor_init : Cmd (Unit {0})
  descriptor_init = do
    pool_init descriptor_pool max_num_processes
        (max_num_descriptors_per_process * max_num_processes)
    pool_init descriptor_ptr_pool max_num_processes
        (max_num_descriptors_per_process * max_num_processes)

  -- `Semaphore_init`
  unfoldable pub semaphore_init : Cmd (Unit {0})
  semaphore_init = pool_init semaphores_pool max_num_semaphores max_num_semaphores

  -- `SemDescriptor_init`
  unfoldable pub sem_descriptor_init : Cmd (Unit {0})
  sem_descriptor_init = do
    pool_init sem_descriptor_pool max_num_processes
        (max_num_semdescriptors_per_process * max_num_processes)
    pool_init sem_descriptor_ptr_pool max_num_processes
        (max_num_semdescriptors_per_process * max_num_processes)

  -- `MessageQueue_init`
  unfoldable pub message_queue_init : Cmd (Unit {0})
  message_queue_init = pool_init mqs_pool max_num_mqs max_num_mqs

  -- `MQDescriptor_init`
  unfoldable pub mq_descriptor_init : Cmd (Unit {0})
  mq_descriptor_init = do
    pool_init mq_descriptor_pool max_num_processes
        (max_num_mqdescriptors_per_process * max_num_processes)
    pool_init mq_descriptor_ptr_pool max_num_processes
        (max_num_mqdescriptors_per_process * max_num_processes)

  -- `Queue_init`
  unfoldable pub queue_init : Cmd (Unit {0})
  queue_init = pool_init queues_pool max_num_queues max_num_queues

  -- `Message_init`
  unfoldable pub message_init : Cmd (Unit {0})
  message_init = pool_init messages_pool max_num_messages max_num_messages

  -- The pools, in the order of `disastrOS_start`.
  unfoldable pub init_pools : Cmd (Unit {0})
  init_pools = do
    pcb_init
    timer_init
    resource_init
    descriptor_init
    semaphore_init
    sem_descriptor_init
    message_queue_init
    mq_descriptor_init
    queue_init
    message_init

  -- The global lists.
  unfoldable pub init_lists : Cmd (Unit {0})
  init_lists = do
    init_list ready_list
    init_list waiting_list
    init_list zombie_list
    init_list resources_list
    init_list semaphores_list
    init_list message_queues_list
    init_list timer_list

  -- The first process.
  unfoldable pub start_first : Cmd (Unit {0})
  start_first = do
    self ← pcb_alloc
    modify (λ k. record k { running = self })
    r ← load as_pcb self
    store self (pcb (record r { status = running }))
    modify (λ k. record k { init_pcb = self })

  -- The result says whether the first process is reached: when the system comes back after a shutdown
  -- the program ends instead.
  unfoldable pub start_unless_shutdown : Cmd Bool
  start_unless_shutdown = do
    shutdown ← gets (λ k. k.shutdown_now)
    if not (eqb_ℤ shutdown (pos 0)) then pure false else do start_first; pure true

  -- `disastrOS_start`, up to the transfer to the first process.
  unfoldable pub disastr_os_start : Cmd Bool
  disastr_os_start = do
    init_pools
    modify (λ k. record k { init_pcb = 0 })
    modify (λ k. record k { running = 0 })
    init_lists
    start_unless_shutdown
