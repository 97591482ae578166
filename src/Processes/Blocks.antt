-- ===== src/Processes/Blocks.antt =====
-- Allocation, release and search of process control blocks: disastrOS_pcb.c.
pub mod Alloc
use disastr_os_message_queue.Base.{
  ℕ, ◌+◌, ◌==◌, if◌then◌else◌, ℤ, pos, eqb_ℤ, ◌+ℤ◌, Run, ok, and_then,
}
use disastr_os_message_queue.LinkedList.{walk}
use disastr_os_message_queue.PoolAllocator.{PoolAllocatorResult}
use disastr_os_message_queue.Kernel.Object.{Object, Pcb, pcb, pcb_ptr, invalid}
use disastr_os_message_queue.Kernel.State.{
  Kernel, pcb_pool, pcb_ptr_pool, list_fuel, descriptors, children, mq_descriptors,
}
use disastr_os_message_queue.Kernel.Cmd.{
  Cmd, ◌>>=◌, ◌>>◌, pure, gets, modify, failure, init_list, clear_links, load, store, as_pcb,
  as_pcb_ptr, search_list, get_block, release_block,
}

-- What a block of the pool holds before it is handed out: the pools are zeroed at the start.
abbrev pub stale_pcb : Object → Pcb
stale_pcb (pcb r) = r
stale_pcb _ = record {
  pid = pos 0;
  return_value = pos 0;
  status = invalid;
  signals = 0;
  signals_mask = 0;
  parent = 0;
  timer = 0;
  last_fd = pos 0;
  last_sem_fd = pos 0;
  last_mq_fd = pos 0;
  syscall_num = pos 0;
  syscall_args = λ i. pos 0;
  syscall_retvalue = pos 0;
}

-- The control block of a new process; the number, the arguments and the return value of the last call
-- are left as they were.
abbrev pub new_pcb : ℤ → Pcb → Pcb
new_pcb pid old = record old {
  pid = pid;
  return_value = pos 0;
  status = invalid;
  last_fd = pos 0;
  signals = 0;
  signals_mask = 0xFFFFFFFF;
  parent = 0;
  timer = 0;
  last_sem_fd = pos 0;
  last_mq_fd = pos 0;
}

-- `PCB_alloc`. With no block left it dereferences NULL. The list of semaphore descriptors is not
-- initialised.
unfoldable pub pcb_alloc : Cmd ℕ
pcb_alloc = do
  p ← get_block pcb_pool
  if p == 0 then failure else do
    clear_links p
    pid ← gets (λ k. k.last_pid)
    old ← gets (λ k. stale_pcb (k.object p))
    store p (pcb (new_pcb pid old))
    modify (λ k. record k { last_pid = k.last_pid +ℤ pos 1 })
    init_list (descriptors p)
    init_list (children p)
    init_list (descriptors p)
    init_list (mq_descriptors p)
    pure p

-- `PCB_free`
unfoldable pub pcb_free : ℕ → Cmd PoolAllocatorResult
pcb_free = release_block pcb_pool

-- `PCBPtr_alloc`. With no block left it dereferences NULL.
unfoldable pub pcb_ptr_alloc : ℕ → Cmd ℕ
pcb_ptr_alloc p = do
  d ← get_block pcb_ptr_pool
  if d == 0 then failure else do clear_links d; store d (pcb_ptr (record { pcb = p })); pure d

-- `PCBPtr_free`
unfoldable pub pcb_ptr_free : ℕ → Cmd PoolAllocatorResult
pcb_ptr_free = release_block pcb_ptr_pool

-- `PCB_byPID`
unfoldable pub pcb_by_pid : ℕ → ℤ → Cmd ℕ
pcb_by_pid l pid = search_list as_pcb (λ r. eqb_ℤ r.pid pid) l

-- `PCBPtr_byPID`
unfoldable pub pcb_ptr_by_pid : ℕ → ℤ → Cmd ℕ
pcb_ptr_by_pid l pid k =
    and_then
      (walk list_fuel k.lists
        (λ aux.
          and_then (as_pcb_ptr (k.object aux))
            λ e. and_then (load as_pcb e.pcb k) λ (r, k'). ok (eqb_ℤ r.pid pid))
        (k.lists.head l).first)
      λ found. ok (found, k)
