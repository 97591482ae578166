-- ===== src/Kernel/Invariant.antt =====
-- When a kernel is in order.
use disastr_os_message_queue.Base.{
  ℕ, ◌/◌, ◌%◌, ◌<◌, ◌≡◌, refl, ◌⊎◌, inl, inr, true, List, has, update, ◌==◌, ==_iff, Bool-cases,
  arith, ap, pos, false, ◌≢◌, ◌∷◌, subst,
}
use disastr_os_message_queue.LinkedList.Memory.{Contents, IsFree, Represents, has-ne_zero}
use disastr_os_message_queue.PoolAllocator.{PoolAllocator}
use disastr_os_message_queue.PoolAllocator.FreeList.{IsPool}
use disastr_os_message_queue.Kernel.Object.{
  Object, Queue, Message, MessageQueue, Descriptor, blank, pcb, pcb_ptr, timer_item, resource,
  descriptor, descriptor_ptr, semaphore, sem_descriptor, sem_descriptor_ptr, message_queue,
  mq_descriptor, mq_descriptor_ptr, queue, message,
}
use disastr_os_message_queue.Kernel.State.{Kernel, block_at}

-- The code of the pool that objects of this type come from.
abbrev pub code_of : Object → ℕ
code_of blank = 0
code_of (pcb _) = 1
code_of (pcb_ptr _) = 2
code_of (timer_item _) = 3
code_of (resource _) = 4
code_of (descriptor _) = 5
code_of (descriptor_ptr _) = 6
code_of (semaphore _) = 7
code_of (sem_descriptor _) = 8
code_of (sem_descriptor_ptr _) = 9
code_of (message_queue _) = 10
code_of (mq_descriptor _) = 11
code_of (mq_descriptor_ptr _) = 12
code_of (queue _) = 13
code_of (message _) = 14

-- The lists hold the sequences `c`, the blocks with the indices `free` are free, a free block stands
-- in no list, and every object stands in a block of its own pool, below the pool's end.
pub record IsKernel (k : Kernel) (c : Contents) (free : ℕ → List ℕ) : Type 0 where
  pub lists : Represents k.lists c
  pub pools : (code : ℕ) → 0 < code → code < 15 → IsPool (k.pool code) (free code)
  pub fresh : (code i : ℕ) → code < 16 → has i (free code) ≡ true → IsFree c (block_at code i)
  pub typed : (a : ℕ) → (code_of (k.object a) ≡ 0) ⊎ (code_of (k.object a) ≡ a % 16)
  pub inside : (a : ℕ) → (code_of (k.object a) ≡ 0) ⊎ (a / 16 < (k.pool (a % 16)).size_max)

-- It depends on the lists, the objects and the pools only.
pub IsKernel-frame :
    {k k' : Kernel} {c : Contents} {free : ℕ → List ℕ}
    → IsKernel k c free
    → k'.lists ≡ k.lists
    → k'.object ≡ k.object
    → k'.pool ≡ k.pool
    → IsKernel k' c free
IsKernel-frame w lists object pool = record {
  lists = rw lists w.lists;
  pools = rw pool w.pools;
  fresh = w.fresh;
  typed = rw object w.typed;
  inside = rw (object, pool) w.inside;
}

-- The first item of a list is not NULL.
pub first_ne_zero :
    {k : Kernel} {c : Contents} {free : ℕ → List ℕ} (w : IsKernel k c free) (h a : ℕ)
    (items : List ℕ)
    → c h ≡ a ∷ items
    → a ≢ 0
first_ne_zero w h a items first e =
    ground (arith, subst (λ z. has 0 z ≡ false) first (has-ne_zero w.lists h))

-- Objects of different types stand in different blocks.
pub code_at :
    {k : Kernel} {c : Contents} {free : ℕ → List ℕ} (w : IsKernel k c free) (a : ℕ) (o : Object)
    → k.object a ≡ o
    → 0 < code_of o
    → a % 16 ≡ code_of o
code_at w a o e some_code = elim (w.typed a) [
  | inl none ↦ absurd (omega (arith, ap code_of e))
  | inr code ↦ omega (arith, ap code_of e)
]

-- A write of an object into a block of its own pool.
pub store-typed :
    (object : ℕ → Object) (p : ℕ) (o : Object)
    → ((a : ℕ) → (code_of (object a) ≡ 0) ⊎ (code_of (object a) ≡ a % 16))
    → code_of o ≡ p % 16
    → (a : ℕ) → (code_of (update object p o a) ≡ 0) ⊎ (code_of (update object p o a) ≡ a % 16)
store-typed object p o typed e a = elim (Bool-cases (a == p)) [
  | inl same ↦ rw (same, (==_iff a p).0 same) (inr e)
  | inr other ↦ rw other (typed a)
]

pub store-inside :
    (object : ℕ → Object) (pool : ℕ → PoolAllocator) (p : ℕ) (o : Object)
    → ((a : ℕ) → (code_of (object a) ≡ 0) ⊎ (a / 16 < (pool (a % 16)).size_max))
    → p / 16 < (pool (p % 16)).size_max
    → (a : ℕ) → (code_of (update object p o a) ≡ 0) ⊎ (a / 16 < (pool (a % 16)).size_max)
store-inside object pool p o inside lt a = elim (Bool-cases (a == p)) [
  | inl same ↦ rw (same, (==_iff a p).0 same) (inr lt)
  | inr other ↦ rw other (inside a)
]

-- An object is within its pool.
pub inside_at :
    {k : Kernel} {c : Contents} {free : ℕ → List ℕ} (w : IsKernel k c free) (a : ℕ) (o : Object)
    → k.object a ≡ o
    → 0 < code_of o
    → a / 16 < (k.pool (a % 16)).size_max
inside_at w a o e some_code = elim (w.inside a) [
  | inl none ↦ absurd (omega (arith, ap code_of e))
  | inr lt ↦ lt
]

-- The end of a pool stays where it is.
pub pool-update_max :
    (pool : ℕ → PoolAllocator) (code : ℕ) (a : PoolAllocator)
    → a.size_max ≡ (pool code).size_max
    → (d : ℕ) → (update pool code a d).size_max ≡ (pool d).size_max
pool-update_max pool code a same d = elim (Bool-cases (d == code)) [
  | inl e ↦ rw (e, (==_iff d code).0 e) same
  | inr e ↦ rw e refl
]

pub inside-update :
    (object : ℕ → Object) (pool : ℕ → PoolAllocator) (code : ℕ) (b : PoolAllocator)
    → b.size_max ≡ (pool code).size_max
    → ((a : ℕ) → (code_of (object a) ≡ 0) ⊎ (a / 16 < (pool (a % 16)).size_max))
    → (a : ℕ) → (code_of (object a) ≡ 0) ⊎ (a / 16 < (update pool code b (a % 16)).size_max)
inside-update object pool code b same inside a =
    rw (pool-update_max pool code b same (a % 16)) (inside a)

-- A block that is taken: the rest of its pool is as it was.
pub pools-update :
    (pool : ℕ → PoolAllocator) (free : ℕ → List ℕ) (code : ℕ) (a : PoolAllocator) (is : List ℕ)
    → ((d : ℕ) → 0 < d → d < 15 → IsPool (pool d) (free d))
    → IsPool a is
    → (d : ℕ) → 0 < d
    → d < 15
    → IsPool (update pool code a d) (update free code is d)
pools-update pool free code a is pools p d low high = elim (Bool-cases (d == code)) [
  | inl same ↦ rw same p
  | inr other ↦ rw other (pools d low high)
]

-- What the objects of a list are read as.
abbrev pub queue_of : Object → Queue
queue_of (queue r) = r
queue_of _ = record { priority = pos 0 }

abbrev pub message_of : Object → Message
message_of (message r) = r
message_of _ = record { text_length = pos 0; text = 0 }

abbrev pub message_queue_of : Object → MessageQueue
message_queue_of (message_queue r) = r
message_queue_of _ = record { id = pos 0; priority = pos 0; num_messages = pos 0 }

abbrev pub descriptor_of : Object → Descriptor
descriptor_of (mq_descriptor r) = r
descriptor_of _ = record { pcb = 0; target = 0; fd = pos 0; ptr = 0 }

-- A block's address leads back to its pool and index.
pub block_at_index : (code i : ℕ) → code < 16 → block_at code i / 16 ≡ i
block_at_index code i low = omega arith

pub block_at_code : (code i : ℕ) → code < 16 → block_at code i % 16 ≡ code
block_at_code code i low = omega arith
