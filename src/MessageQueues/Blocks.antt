-- ===== src/MessageQueues/Blocks.antt =====
-- Allocation, release and search of message queues, priority queues, messages and their descriptors:
-- disastrOS_mq.c and disastrOS_mqdescriptor.c.
pub mod Alloc
pub mod Descriptors
use disastr_os_message_queue.Base.{
  ℕ, ◌+◌, ◌*◌, ◌==◌, if◌then◌else◌, ℤ, pos, eqb_ℤ, ok, fault, ◌&&◌, Run, and_then,
}
use disastr_os_message_queue.PoolAllocator.{PoolAllocator, PoolAllocatorResult, success, init}
use disastr_os_message_queue.Kernel.Constants.{
  max_num_mqs, max_num_queues, max_num_messages, max_num_processes,
  max_num_mqdescriptors_per_process,
}
use disastr_os_message_queue.Kernel.Object.{
  Object, message_queue, queue, message, mq_descriptor, mq_descriptor_ptr,
}
use disastr_os_message_queue.Kernel.State.{
  Kernel, mqs_pool, queues_pool, messages_pool, mq_descriptor_pool, mq_descriptor_ptr_pool, queues,
  target_descriptors, messages,
}
use disastr_os_message_queue.Kernel.Cmd.{
  Cmd, ◌>>=◌, ◌>>◌, pure, skip, gets, assert, head_of, init_list, store, as_message_queue, as_queue,
  as_mq_descriptor, search_list, get_block, release_block, clear_links,
}

-- `MessageQueue_alloc`
unfoldable pub message_queue_alloc : ℤ → ℤ → Cmd ℕ
message_queue_alloc id priority = do
  r ← get_block mqs_pool
  if r == 0 then pure 0 else do
    clear_links r
    store r (message_queue (record { id = id; priority = priority; num_messages = pos 0 }))
    init_list (queues r)
    init_list (target_descriptors r)
    pure r

-- `Queue_alloc`
unfoldable pub queue_alloc : ℤ → Cmd ℕ
queue_alloc priority = do
  r ← get_block queues_pool
  if r == 0 then pure 0 else do
    clear_links r
    store r (queue (record { priority = priority }))
    init_list (messages r)
    pure r

-- `Message_alloc`
unfoldable pub message_alloc : ℕ → ℤ → Cmd ℕ
message_alloc text text_length = do
  r ← get_block messages_pool
  if r == 0 then pure 0 else do
    store r (message (record { text_length = text_length; text = text }))
    clear_links r
    pure r

-- `MessageQueue_free`
unfoldable pub message_queue_free : ℕ → Cmd PoolAllocatorResult
message_queue_free r = do
  head ← head_of (target_descriptors r)
  assert (head.first == 0)
  assert (head.last == 0)
  release_block mqs_pool r

-- `Queue_free`
unfoldable pub queue_free : ℕ → Cmd PoolAllocatorResult
queue_free r = do
  head ← head_of (messages r)
  assert (head.first == 0)
  assert (head.last == 0)
  release_block queues_pool r

-- `Message_free`
unfoldable pub message_free : ℕ → Cmd PoolAllocatorResult
message_free = release_block messages_pool

-- `MessageQueueList_byId`
unfoldable pub message_queue_list_by_id : ℕ → ℤ → Cmd ℕ
message_queue_list_by_id l id = search_list as_message_queue (λ r. eqb_ℤ r.id id) l

-- `QueueList_byPriority`
unfoldable pub queue_list_by_priority : ℕ → ℤ → Cmd ℕ
queue_list_by_priority l priority = search_list as_queue (λ r. eqb_ℤ r.priority priority) l

-- What the field `ptr` of a block holds before it is set: the pools are zeroed at the start.
abbrev pub stale_ptr : Object → ℕ
stale_ptr (mq_descriptor d) = d.ptr
stale_ptr _ = 0

-- `MQDescriptor_alloc`. The field `ptr` is left as it was.
unfoldable pub mq_descriptor_alloc : ℤ → ℕ → ℕ → Cmd ℕ
mq_descriptor_alloc fd res pcb = do
  d ← get_block mq_descriptor_pool
  if d == 0 then pure 0 else do
    clear_links d
    old ← gets (λ k. stale_ptr (k.object d))
    store d (mq_descriptor (record { pcb = pcb; target = res; fd = fd; ptr = old }))
    pure d

-- `MQDescriptor_free`
unfoldable pub mq_descriptor_free : ℕ → Cmd PoolAllocatorResult
mq_descriptor_free = release_block mq_descriptor_pool

-- `MQDescriptorList_byFd`
unfoldable pub mq_descriptor_list_by_fd : ℕ → ℤ → Cmd ℕ
mq_descriptor_list_by_fd l fd = search_list as_mq_descriptor (λ d. eqb_ℤ d.fd fd) l

-- `MQDescriptorPtr_alloc`
unfoldable pub mq_descriptor_ptr_alloc : ℕ → Cmd ℕ
mq_descriptor_ptr_alloc descriptor = do
  d ← get_block mq_descriptor_ptr_pool
  if d == 0 then pure 0 else do
    clear_links d
    store d (mq_descriptor_ptr (record { descriptor = descriptor }))
    pure d

-- `MQDescriptorPtr_free`
unfoldable pub mq_descriptor_ptr_free : ℕ → Cmd PoolAllocatorResult
mq_descriptor_ptr_free = release_block mq_descriptor_ptr_pool
