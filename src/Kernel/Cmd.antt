-- ===== src/Kernel/Cmd.antt =====
-- Commands over the kernel: a command faults where the C code dereferences NULL, reads an object at
-- another type than it holds, or fails an assertion.
use disastr_os_message_queue.Base.{
  ℕ, ◌/◌, ◌%◌, Bool, ◌==◌, if◌then◌else◌, update, ℤ, pos, negsuc, Run, ok, fault, and_then, to_int,
}
use disastr_os_message_queue.LinkedList.{
  ListMemory, ListHead, list_init, list_insert, list_detach, walk, clear_item,
}
use disastr_os_message_queue.PoolAllocator.{PoolAllocatorResult, take_index, release_index}
use disastr_os_message_queue.Kernel.Object.{
  Object, Pcb, PcbPtr, TimerItem, Resource, Descriptor, DescriptorPtr, Semaphore, MessageQueue,
  Queue, Message, pcb, pcb_ptr, timer_item, resource, descriptor, semaphore, sem_descriptor,
  sem_descriptor_ptr, message_queue, mq_descriptor, queue, message,
}
use disastr_os_message_queue.Kernel.State.{Kernel, block_at, list_fuel}

abbrev pub Cmd : Type 0 → Type 0
Cmd A = Kernel → Run (A × Kernel)

infixl 5 ◌>>=◌ ◌>>◌
abbrev pub ◌>>=◌ : {A B : Type 0} → Cmd A → (A → Cmd B) → Cmd B
◌>>=◌ m f k = and_then (m k) λ (a, k'). f a k'

abbrev pub ◌>>◌ : {A B : Type 0} → Cmd A → Cmd B → Cmd B
m >> n = m >>= λ _. n

abbrev pub pure : {A : Type 0} → A → Cmd A
pure a k = ok (a, k)

abbrev pub skip : Cmd (Unit {0})
skip = pure tt

abbrev pub failure : {A : Type 0} → Cmd A
failure k = fault

abbrev pub gets : {A : Type 0} → (Kernel → A) → Cmd A
gets f k = ok (f k, k)

abbrev pub modify : (Kernel → Kernel) → Cmd (Unit {0})
modify f k = ok (tt, f k)

-- `assert(b)`
abbrev pub assert : Bool → Cmd (Unit {0})
assert b = if b then skip else failure

-- Lists.
abbrev pub head_of : ℕ → Cmd ListHead
head_of h = gets λ k. k.lists.head h

abbrev pub lift_list : {A : Type 0} → (ListMemory → Run (A × ListMemory)) → Cmd A
lift_list f k = and_then (f k.lists) λ (a, m). ok (a, record k { lists = m })

unfoldable pub insert : (h prev it : ℕ) → Cmd ℕ
insert h prev it = lift_list λ m. list_insert m h prev it

-- `List_insert(&h, h.last, it)`
unfoldable pub insert_last : (h it : ℕ) → Cmd ℕ
insert_last h it = do head ← head_of h; insert h head.last it

unfoldable pub detach : (h it : ℕ) → Cmd ℕ
detach h it = lift_list λ m. list_detach m h it

abbrev pub init_list : ℕ → Cmd (Unit {0})
init_list h = modify λ k. record k { lists = list_init k.lists h }

-- `p->list.prev = p->list.next = 0`
abbrev pub clear_links : ℕ → Cmd (Unit {0})
clear_links p = modify λ k. record k { lists = clear_item k.lists p }

-- Typed reads, and writes.
abbrev pub as_pcb : Object → Run Pcb
as_pcb (pcb r) = ok r
as_pcb _ = fault

abbrev pub as_pcb_ptr : Object → Run PcbPtr
as_pcb_ptr (pcb_ptr r) = ok r
as_pcb_ptr _ = fault

abbrev pub as_timer_item : Object → Run TimerItem
as_timer_item (timer_item r) = ok r
as_timer_item _ = fault

abbrev pub as_resource : Object → Run Resource
as_resource (resource r) = ok r
as_resource _ = fault

abbrev pub as_descriptor : Object → Run Descriptor
as_descriptor (descriptor r) = ok r
as_descriptor _ = fault

abbrev pub as_semaphore : Object → Run Semaphore
as_semaphore (semaphore r) = ok r
as_semaphore _ = fault

abbrev pub as_sem_descriptor : Object → Run Descriptor
as_sem_descriptor (sem_descriptor r) = ok r
as_sem_descriptor _ = fault

abbrev pub as_sem_descriptor_ptr : Object → Run DescriptorPtr
as_sem_descriptor_ptr (sem_descriptor_ptr r) = ok r
as_sem_descriptor_ptr _ = fault

abbrev pub as_message_queue : Object → Run MessageQueue
as_message_queue (message_queue r) = ok r
as_message_queue _ = fault

abbrev pub as_mq_descriptor : Object → Run Descriptor
as_mq_descriptor (mq_descriptor r) = ok r
as_mq_descriptor _ = fault

abbrev pub as_queue : Object → Run Queue
as_queue (queue r) = ok r
as_queue _ = fault

abbrev pub as_message : Object → Run Message
as_message (message r) = ok r
as_message _ = fault

-- The object at `p`, read at the type of `view`. NULL holds no object of any type.
unfoldable pub load : {A : Type 0} → (Object → Run A) → ℕ → Cmd A
load view p k = if p == 0 then fault else and_then (view (k.object p)) λ r. ok (r, k)

abbrev pub store : ℕ → Object → Cmd (Unit {0})
store p o = modify λ k. record k { object = update k.object p o }

-- The memory of the processes.
unfoldable pub read_char : ℕ → Cmd ℕ
read_char p k = if p == 0 then fault else ok (k.chars p, k)

unfoldable pub write_char : ℕ → ℕ → Cmd (Unit {0})
write_char p c k = if p == 0 then fault else ok (tt, record k { chars = update k.chars p c })

unfoldable pub write_int : ℕ → ℤ → Cmd (Unit {0})
write_int p z k = if p == 0 then fault else ok (tt, record k { ints = update k.ints p z })

-- The loop of a search by a key, over the objects of a list.
unfoldable pub search_list : {A : Type 0} → (Object → Run A) → (A → Bool) → ℕ → Cmd ℕ
search_list view test h k =
    and_then
      (walk list_fuel k.lists (λ aux. and_then (view (k.object aux)) λ r. ok (test r))
        (k.lists.head h).first)
      λ found. ok (found, k)

-- `PoolAllocator_getBlock` on the pool with this code: an address or NULL.
unfoldable pub get_block : ℕ → Cmd ℕ
get_block code k = and_then (take_index (k.pool code)) λ (i, a).
    ok (elim i [ pos n ↦ block_at code n | negsuc _ ↦ 0 ], record k { pool = update k.pool code a })

-- `PoolAllocator_releaseBlock` on the pool with this code. A block of another pool is
-- a fault.
unfoldable pub release_block : ℕ → ℕ → Cmd PoolAllocatorResult
release_block code p k =
    if p % 16 == code
    then (let (result, a) = release_index (k.pool code) (p / 16) in
        ok (result, record k { pool = update k.pool code a }))
    else fault

-- The running process.
unfoldable pub running_pcb : Cmd Pcb
running_pcb = do p ← gets (λ k. k.running); load as_pcb p

unfoldable pub update_running : (Pcb → Pcb) → Cmd (Unit {0})
update_running f = do p ← gets (λ k. k.running); r ← load as_pcb p; store p (pcb (f r))

-- `running->syscall_retvalue = z`
unfoldable pub set_retvalue : ℤ → Cmd (Unit {0})
set_retvalue z = update_running λ r. record r { syscall_retvalue = z }

-- `int x = running->syscall_args[i]`, `long`s read as pointers.
unfoldable pub int_arg : ℕ → Cmd ℤ
int_arg i = do r ← running_pcb; pure (to_int (r.syscall_args i))

unfoldable pub pointer_arg : ℕ → Cmd ℕ
pointer_arg i = do r ← running_pcb; elim (r.syscall_args i) [ pos n ↦ pure n | negsuc n ↦ failure ]
