-- ===== src/Resources/Blocks.antt =====
-- Allocation, release and search of resources and their descriptors: disastrOS_resource.c and
-- disastrOS_descriptor.c.
use disastr_os_message_queue.Base.{ℕ, ◌==◌, if◌then◌else◌, ℤ, eqb_ℤ}
use disastr_os_message_queue.PoolAllocator.{PoolAllocatorResult}
use disastr_os_message_queue.Kernel.Object.{Object, resource, descriptor, descriptor_ptr}
use disastr_os_message_queue.Kernel.State.{
  resources_pool, descriptor_pool, descriptor_ptr_pool, target_descriptors,
}
use disastr_os_message_queue.Kernel.Cmd.{
  Cmd, ◌>>=◌, ◌>>◌, pure, gets, assert, head_of, init_list, clear_links, store, as_resource,
  as_descriptor, search_list, get_block, release_block,
}

-- `Resource_alloc`
unfoldable pub resource_alloc : ℤ → ℤ → Cmd ℕ
resource_alloc id type = do
  r ← get_block resources_pool
  if r == 0 then pure 0 else do
    clear_links r
    store r (resource (record { id = id; type = type }))
    init_list (target_descriptors r)
    pure r

-- `Resource_free`
unfoldable pub resource_free : ℕ → Cmd PoolAllocatorResult
resource_free r = do
  head ← head_of (target_descriptors r)
  assert (head.first == 0)
  assert (head.last == 0)
  release_block resources_pool r

-- `ResourceList_byId`
unfoldable pub resource_list_by_id : ℕ → ℤ → Cmd ℕ
resource_list_by_id l id = search_list as_resource (λ r. eqb_ℤ r.id id) l

-- What the field `ptr` of a block holds before it is set: the pools are zeroed at the start.
abbrev pub stale_ptr : Object → ℕ
stale_ptr (descriptor d) = d.ptr
stale_ptr _ = 0

-- `Descriptor_alloc`. The field `ptr` is left as it was.
unfoldable pub descriptor_alloc : ℤ → ℕ → ℕ → Cmd ℕ
descriptor_alloc fd res pcb = do
  d ← get_block descriptor_pool
  if d == 0 then pure 0 else do
    clear_links d
    old ← gets (λ k. stale_ptr (k.object d))
    store d (descriptor (record { pcb = pcb; target = res; fd = fd; ptr = old }))
    pure d

-- `Descriptor_free`
unfoldable pub descriptor_free : ℕ → Cmd PoolAllocatorResult
descriptor_free = release_block descriptor_pool

-- `DescriptorList_byFd`
unfoldable pub descriptor_list_by_fd : ℕ → ℤ → Cmd ℕ
descriptor_list_by_fd l fd = search_list as_descriptor (λ d. eqb_ℤ d.fd fd) l

-- `DescriptorPtr_alloc`
unfoldable pub descriptor_ptr_alloc : ℕ → Cmd ℕ
descriptor_ptr_alloc target = do
  d ← get_block descriptor_ptr_pool
  if d == 0
      then pure 0
      else do clear_links d; store d (descriptor_ptr (record { descriptor = target })); pure d

-- `DescriptorPtr_free`
unfoldable pub descriptor_ptr_free : ℕ → Cmd PoolAllocatorResult
descriptor_ptr_free = release_block descriptor_ptr_pool
