-- ===== src/MessageQueues/Blocks/Descriptors.antt =====
-- What the allocation of a descriptor and of its entry does.
use disastr_os_message_queue.Base.{ℕ, ◌≡◌, refl, List, ◌∷◌, arith, update, ℤ, ok, ==-false}
use disastr_os_message_queue.LinkedList.{clear_item}
use disastr_os_message_queue.LinkedList.Memory.{Contents, IsFree}
use disastr_os_message_queue.Kernel.Object.{
  Descriptor, DescriptorPtr, mq_descriptor, mq_descriptor_ptr,
}
use disastr_os_message_queue.Kernel.State.{
  Kernel, block_at, mq_descriptor_pool, mq_descriptor_ptr_pool,
}
use disastr_os_message_queue.Kernel.Invariant.{IsKernel}
use disastr_os_message_queue.Kernel.Take.{take-IsKernel}
use disastr_os_message_queue.MessageQueues.Blocks.{
  stale_ptr, mq_descriptor_alloc, mq_descriptor_ptr_alloc,
}

module _ {k : Kernel} {c : Contents} {free : ℕ → List ℕ} (w : IsKernel k c free) (i : ℕ)
    (is : List ℕ) where
  -- `MQDescriptor_alloc` takes the first free block; the field `ptr` is what it was.
  pub mq_descriptor_alloc-ok :
      (fd : ℤ) (res pcb : ℕ) (d : Descriptor)
      → free mq_descriptor_pool ≡ i ∷ is
      → d ≡ record {
        pcb = pcb;
        target = res;
        fd = fd;
        ptr = stale_ptr (k.object (block_at mq_descriptor_pool i));
      }
      → (k' : Kernel) × (mq_descriptor_alloc fd res pcb k ≡ ok (block_at mq_descriptor_pool i, k'))
        × IsKernel k' c (update free mq_descriptor_pool is)
        × IsFree c (block_at mq_descriptor_pool i)
        × (k'.object ≡ update k.object (block_at mq_descriptor_pool i) (mq_descriptor d))
        × (k'.running ≡ k.running)
  unfolding mq_descriptor_alloc
  mq_descriptor_alloc-ok fd res pcb d first e =
      let (a, run, w', loose) =
        take-IsKernel w mq_descriptor_pool i is (omega arith) (omega arith) first (mq_descriptor d)
          refl in
      (
        record k {
          lists = clear_item k.lists (block_at mq_descriptor_pool i);
          object = update k.object (block_at mq_descriptor_pool i) (mq_descriptor d);
          pool = update k.pool mq_descriptor_pool a;
        },
        rw run (rw (==-false (block_at mq_descriptor_pool i) 0 (λ e. omega arith)) (rw e refl)),
        w',
        loose,
        refl,
        refl,
      )

  -- `MQDescriptorPtr_alloc` likewise.
  pub mq_descriptor_ptr_alloc-ok :
      (descriptor : ℕ)
      → free mq_descriptor_ptr_pool ≡ i ∷ is
      → (k' : Kernel) × (mq_descriptor_ptr_alloc descriptor k
          ≡ ok (block_at mq_descriptor_ptr_pool i, k'))
        × IsKernel k' c (update free mq_descriptor_ptr_pool is)
        × IsFree c (block_at mq_descriptor_ptr_pool i)
        × (k'.object
            ≡ update k.object
                (block_at mq_descriptor_ptr_pool i)
                (mq_descriptor_ptr (record { descriptor = descriptor })))
        × (k'.running ≡ k.running)
  unfolding mq_descriptor_ptr_alloc
  mq_descriptor_ptr_alloc-ok descriptor first =
      let entry : DescriptorPtr = record { descriptor = descriptor } in
      let (a, run, w', loose) =
        take-IsKernel w mq_descriptor_ptr_pool i is (omega arith) (omega arith) first
          (mq_descriptor_ptr entry) refl in
      (
        record k {
          lists = clear_item k.lists (block_at mq_descriptor_ptr_pool i);
          object = update k.object (block_at mq_descriptor_ptr_pool i) (mq_descriptor_ptr entry);
          pool = update k.pool mq_descriptor_ptr_pool a;
        },
        rw run (rw (==-false (block_at mq_descriptor_ptr_pool i) 0 (λ e. omega arith)) refl),
        w',
        loose,
        refl,
        refl,
      )
