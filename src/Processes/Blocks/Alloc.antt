-- ===== src/Processes/Blocks/Alloc.antt =====
-- What the allocation of a process and of its entry does.
use disastr_os_message_queue.Base.{
  ℕ, ◌≡◌, refl, List, [], ◌∷◌, arith, update, pos, ◌+ℤ◌, ok, ==-false,
}
use disastr_os_message_queue.LinkedList.{clear_item, list_init}
use disastr_os_message_queue.LinkedList.Memory.{Contents, IsFree}
use disastr_os_message_queue.Kernel.Object.{PcbPtr, Pcb, pcb, pcb_ptr}
use disastr_os_message_queue.Kernel.State.{
  Kernel, block_at, pcb_pool, pcb_ptr_pool, descriptors, children, mq_descriptors,
}
use disastr_os_message_queue.Kernel.Invariant.{IsKernel}
use disastr_os_message_queue.Kernel.Take.{take-IsKernel}
use disastr_os_message_queue.Kernel.Laws.{list_init-Represents}
use disastr_os_message_queue.Processes.Blocks.{stale_pcb, new_pcb, pcb_alloc, pcb_ptr_alloc}

-- The lists of a process that a new one has empty.
pub record IsUnused (c : Contents) (p : ℕ) : Type 0 where
  pub children : c (children p) ≡ []
  pub descriptors : c (descriptors p) ≡ []
  pub mq_descriptors : c (mq_descriptors p) ≡ []

-- The control block of a new process in the block `i`.
abbrev pub first_pcb : Kernel → ℕ → Pcb
first_pcb k i = new_pcb k.last_pid (stale_pcb (k.object (block_at pcb_pool i)))

module _ {k : Kernel} {c : Contents} {free : ℕ → List ℕ} (w : IsKernel k c free) (i : ℕ)
    (is : List ℕ) where
  -- `PCB_alloc` takes the first free block, whose lists are empty.
  pub pcb_alloc-ok :
      free pcb_pool ≡ i ∷ is
      → IsUnused c (block_at pcb_pool i)
      → (k' : Kernel) × (pcb_alloc k ≡ ok (block_at pcb_pool i, k'))
        × IsKernel k' c (update free pcb_pool is)
        × IsFree c (block_at pcb_pool i)
        × (k'.object ≡ update k.object (block_at pcb_pool i) (pcb (first_pcb k i)))
        × (k'.running ≡ k.running)
        × (k'.last_pid ≡ k.last_pid +ℤ pos 1)
  unfolding pcb_alloc
  pcb_alloc-ok first unused =
      let p : ℕ = block_at pcb_pool i in
      let (a, run, w', loose) =
        take-IsKernel w pcb_pool i is (omega arith) (omega arith) first (pcb (first_pcb k i))
          refl in
      let m1 = list_init-Represents _ c (descriptors p) w'.lists unused.descriptors in
      let m2 = list_init-Represents _ c (children p) m1 unused.children in
      let m3 = list_init-Represents _ c (descriptors p) m2 unused.descriptors in
      let m4 = list_init-Represents _ c (mq_descriptors p) m3 unused.mq_descriptors in
      (
        record k {
          lists =
              list_init
                (list_init
                  (list_init (list_init (clear_item k.lists p) (descriptors p)) (children p))
                  (descriptors p))
                (mq_descriptors p);
          object = update k.object p (pcb (first_pcb k i));
          pool = update k.pool pcb_pool a;
          last_pid = k.last_pid +ℤ pos 1;
        },
        rw run (rw (==-false p 0 (λ e. omega arith)) refl),
        record {
          lists = m4;
          pools = w'.pools;
          fresh = w'.fresh;
          typed = w'.typed;
          inside = w'.inside;
        },
        loose,
        refl,
        refl,
        refl,
      )

  -- `PCBPtr_alloc` takes the first free block.
  pub pcb_ptr_alloc-ok :
      (p : ℕ)
      → free pcb_ptr_pool ≡ i ∷ is
      → (k' : Kernel) × (pcb_ptr_alloc p k ≡ ok (block_at pcb_ptr_pool i, k'))
        × IsKernel k' c (update free pcb_ptr_pool is)
        × IsFree c (block_at pcb_ptr_pool i)
        × (k'.object ≡ update k.object (block_at pcb_ptr_pool i) (pcb_ptr (record { pcb = p })))
        × (k'.running ≡ k.running)
  unfolding pcb_ptr_alloc
  pcb_ptr_alloc-ok p first =
      let entry : PcbPtr = record { pcb = p } in
      let (a, run, w', loose) =
        take-IsKernel w pcb_ptr_pool i is (omega arith) (omega arith) first (pcb_ptr entry) refl in
      (
        record k {
          lists = clear_item k.lists (block_at pcb_ptr_pool i);
          object = update k.object (block_at pcb_ptr_pool i) (pcb_ptr entry);
          pool = update k.pool pcb_ptr_pool a;
        },
        rw run (rw (==-false (block_at pcb_ptr_pool i) 0 (λ e. omega arith)) refl),
        w',
        loose,
        refl,
        refl,
      )
