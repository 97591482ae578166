-- ===== src/Semaphores/Blocks.antt =====
-- Allocation, release and search of semaphores and their descriptors: disastrOS_semaphore.c and
-- disastrOS_semdescriptor.c. (disastrOS_semops.c is an earlier text of disastrOS_semaphore.c, which
-- the Makefile does not build.)
use disastr_os_message_queue.Base.{ℕ, ◌==◌, if◌then◌else◌, ℤ, eqb_ℤ}
use disastr_os_message_queue.PoolAllocator.{PoolAllocatorResult}
use disastr_os_message_queue.Kernel.Object.{Object, semaphore, sem_descriptor, sem_descriptor_ptr}
use disastr_os_message_queue.Kernel.State.{
  semaphores_pool, sem_descriptor_pool, sem_descriptor_ptr_pool, target_descriptors,
}
use disastr_os_message_queue.Kernel.Cmd.{
  Cmd, ◌>>=◌, ◌>>◌, pure, gets, assert, head_of, init_list, clear_links, store, as_semaphore,
  as_sem_descriptor, search_list, get_block, release_block,
}

-- `Semaphore_alloc`. The list of waiting descriptors is not initialised.
unfoldable pub semaphore_alloc : ℤ → ℤ → Cmd ℕ
semaphore_alloc id count = do
  r ← get_block semaphores_pool
  if r == 0 then pure 0 else do
    clear_links r
    store r (semaphore (record { id = id; count = count }))
    init_list (target_descriptors r)
    pure r

-- `Semaphore_free`
unfoldable pub semaphore_free : ℕ → Cmd PoolAllocatorResult
semaphore_free r = do
  head ← head_of (target_descriptors r)
  assert (head.first == 0)
  assert (head.last == 0)
  release_block semaphores_pool r

-- `SemaphoreList_byId`
unfoldable pub semaphore_list_by_id : ℕ → ℤ → Cmd ℕ
semaphore_list_by_id l id = search_list as_semaphore (λ r. eqb_ℤ r.id id) l

-- What the field `ptr` of a block holds before it is set: the pools are zeroed at the start.
abbrev stale_ptr : Object → ℕ
stale_ptr (sem_descriptor d) = d.ptr
stale_ptr _ = 0

-- `SemDescriptor_alloc`. The field `ptr` is left as it was.
unfoldable pub sem_descriptor_alloc : ℤ → ℕ → ℕ → Cmd ℕ
sem_descriptor_alloc fd res pcb = do
  d ← get_block sem_descriptor_pool
  if d == 0 then pure 0 else do
    clear_links d
    old ← gets (λ k. stale_ptr (k.object d))
    store d (sem_descriptor (record { pcb = pcb; target = res; fd = fd; ptr = old }))
    pure d

-- `SemDescriptor_free`
unfoldable pub sem_descriptor_free : ℕ → Cmd PoolAllocatorResult
sem_descriptor_free = release_block sem_descriptor_pool

-- `SemDescriptorList_byFd`
unfoldable pub sem_descriptor_list_by_fd : ℕ → ℤ → Cmd ℕ
sem_descriptor_list_by_fd l fd = search_list as_sem_descriptor (λ d. eqb_ℤ d.fd fd) l

-- `SemDescriptorPtr_alloc`
unfoldable pub sem_descriptor_ptr_alloc : ℕ → Cmd ℕ
sem_descriptor_ptr_alloc descriptor = do
  d ← get_block sem_descriptor_ptr_pool
  if d == 0 then pure 0 else do
    clear_links d
    store d (sem_descriptor_ptr (record { descriptor = descriptor }))
    pure d

-- `SemDescriptorPtr_free`
unfoldable pub sem_descriptor_ptr_free : ℕ → Cmd PoolAllocatorResult
sem_descriptor_ptr_free = release_block sem_descriptor_ptr_pool
