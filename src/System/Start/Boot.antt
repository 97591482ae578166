-- ===== src/System/Start/Boot.antt =====
-- The kernel that `disastrOS_start` leaves for the first process.
use disastr_os_message_queue.Base.{
  ℕ, ◌+◌, ◌<◌, ◌≡◌, refl, ap, ◌∙◌, Bool, true, false, not, List, [], arith, if◌then◌else◌, update,
  pos, ◌+ℤ◌, eqb_ℤ, ok, inl,
}
use disastr_os_message_queue.LinkedList.{ListMemory, ListHead, list_init}
use disastr_os_message_queue.LinkedList.Chain.{item_at}
use disastr_os_message_queue.LinkedList.Memory.{Contents, Represents}
use disastr_os_message_queue.PoolAllocator.Chain.{range, range-suc}
use disastr_os_message_queue.Kernel.Object.{Object, Pcb, blank, pcb, running}
use disastr_os_message_queue.Kernel.State.{Kernel, block_at, pcb_pool}
use disastr_os_message_queue.Kernel.Cmd.{Cmd, ◌>>◌, pure, init_list, as_pcb}
use disastr_os_message_queue.Kernel.Laws.{Runs, load-ok, then-ok, list_init-Represents}
use disastr_os_message_queue.Kernel.Invariant.{IsKernel, code_of, IsKernel-frame}
use disastr_os_message_queue.Kernel.Preserve.{store-IsKernel}
use disastr_os_message_queue.Processes.Blocks.{stale_pcb, new_pcb}
use disastr_os_message_queue.Processes.Blocks.Alloc.{pcb_alloc-ok, first_pcb}
use disastr_os_message_queue.System.Start.{
  init_lists, start_first, start_unless_shutdown, disastr_os_start,
}
use disastr_os_message_queue.System.Start.Pools.{capacity, IsReady, init_pools-IsReady}

-- The memory of the program before it runs: the static variables are zero.
pub record IsZeroed (k : Kernel) : Type 0 where
  pub heads : (h : ℕ) → k.lists.head h ≡ record { first = 0; last = 0; size = pos 0 }
  pub items : (a : ℕ) → k.lists.item a ≡ item_at 0 0
  pub objects : (a : ℕ) → k.object a ≡ blank
  pub shutdown : k.shutdown_now ≡ pos 0

-- The free blocks at the start.
abbrev pub all_free : ℕ → List ℕ
all_free code = range 0 (capacity code)

abbrev pub no_items : Contents
no_items h = []

zeroed-Represents : (k : Kernel) → IsZeroed k → Represents k.lists no_items
zeroed-Represents k z = record {
  lists = λ h. record {
    first = ap (λ (l : ListHead). l.first) (z.heads h);
    last = ap (λ (l : ListHead). l.last) (z.heads h);
    size = ap (λ (l : ListHead). l.size) (z.heads h);
    linked = tt;
    distinct = tt;
  };
  one_list = λ a h g i j. cc;
  loose = λ a ne free. z.items a;
}

-- The kernel with its pools ready is in order, with nothing in it.
zeroed-IsKernel :
    (k : Kernel)
    → IsReady k.pool 14
    → Represents k.lists no_items
    → ((a : ℕ) → k.object a ≡ blank)
    → IsKernel k no_items all_free
zeroed-IsKernel k ready rep objects = record {
  lists = rep;
  pools = λ code low high. (ready code low (omega arith)).0;
  fresh = λ code i low h g. refl;
  typed = λ a. inl (ap code_of (objects a));
  inside = λ a. inl (ap code_of (objects a));
}

-- The initialisation of an empty list.
init_list-Represents :
    (k : Kernel) (h : ℕ)
    → Represents k.lists no_items
    → (l : ListMemory) × (init_list h k ≡ ok (tt, record k { lists = l })) × Represents l no_items
init_list-Represents k h rep =
    (list_init k.lists h, refl, list_init-Represents k.lists no_items h rep refl)

init_lists-Represents :
    (size_of buffer_at : ℕ → ℕ) (k : Kernel)
    → Represents k.lists no_items
    → (l : ListMemory) × (init_lists size_of buffer_at k ≡ ok (tt, record k { lists = l }))
      × Represents l no_items
unfolding init_lists
init_lists-Represents size_of buffer_at k rep =
    let step : (l : ListMemory) (h : ℕ)
        → Represents l no_items
        → Represents (list_init l h) no_items =
      λ l h r. list_init-Represents l no_items h r refl in
    (_, refl, step _ 6 (step _ 5 (step _ 4 (step _ 3 (step _ 2 (step _ 1 (step _ 0 rep)))))))

-- The first process: it runs, and has the number that was the next one.
pub record Booted (k k' : Kernel) : Type 0 where
  pub kernel : IsKernel k' no_items (update all_free pcb_pool (range 1 1023))
  pub process : Runs k' (record (new_pcb k.last_pid (stale_pcb blank)) { status = running })
  pub number : (r : Pcb) × Runs k' r × (r.pid ≡ k.last_pid) × (r.status ≡ running)
  pub first_process : k'.running ≡ block_at pcb_pool 0
  pub init : k'.init_pcb ≡ k'.running
  pub next_pid : k'.last_pid ≡ k.last_pid +ℤ pos 1

module _ (size_of buffer_at : ℕ → ℕ) where
  start_first-Booted :
      (k : Kernel)
      → IsKernel k no_items all_free
      → ((a : ℕ) → k.object a ≡ blank)
      → (k' : Kernel) × (start_first size_of buffer_at k ≡ ok (tt, k')) × Booted k k'
  unfolding start_first
  start_first-Booted k w objects =
      let p : ℕ = block_at pcb_pool 0 in
      let (k1, run, w1, loose, objects1, running1, pid1) =
        pcb_alloc-ok w 0 (range 1 1023) (range-suc 0 1023)
          (record { children = refl; descriptors = refl; mq_descriptors = refl }) in
      let r : Pcb = first_pcb k 0 in
      let r' : Pcb = record r { status = running } in
      let is_p : k1.object p ≡ pcb r = ap (λ (f : ℕ → Object). f p) objects1 in
      let k2 : Kernel = record k1 {
        running = p;
        object = update k1.object p (pcb r');
        init_pcb = p;
      } in
      let w2 = store-IsKernel w1 p (pcb r) (pcb r') is_p (omega arith) refl in
      (
        k2,
        rw run (
            rw (load-ok as_pcb p (record k1 { running = p }) r (λ e. omega arith) (rw is_p refl))
              refl),
        record {
          kernel = IsKernel-frame w2 refl refl refl;
          process = record {
            some_pcb = λ e. omega arith;
            control_block =
                ap (λ o. pcb (record (new_pcb k.last_pid (stale_pcb o)) { status = running }))
                  (objects p);
          };
          number = (r', record { some_pcb = λ e. omega arith; control_block = refl }, refl, refl);
          first_process = refl;
          init = refl;
          next_pid = pid1;
        },
      )

  start_unless_shutdown-running :
      (k k' : Kernel)
      → k.shutdown_now ≡ pos 0
      → start_first size_of buffer_at k ≡ ok (tt, k')
      → start_unless_shutdown size_of buffer_at k ≡ ok (true, k')
  unfolding start_unless_shutdown
  start_unless_shutdown-running k k' e run =
      let start : Cmd Bool = (do start_first size_of buffer_at; pure true) in
      ap (λ n. (if not (eqb_ℤ n (pos 0)) then pure false else start) k) e
      ∙ then-ok (start_first size_of buffer_at) (pure true) run refl

  module _ (some_size : (code : ℕ) → 0 < size_of code)
      (small : (code : ℕ) → size_of code + 4 < 65536) where
    -- With structs of at least one byte and fewer than 65532, from a memory whose lists, objects
    -- and shutdown flag are zero: `disastrOS_start` reaches the first process, and leaves a kernel
    -- in order with empty lists and all blocks free but the first one of the processes; that block
    -- holds the first process, which has the next number, is the running one and `init_pcb`, and
    -- the next number is one more.
    pub disastr_os_start-Booted :
        (k : Kernel)
        → IsZeroed k
        → (k' : Kernel) × (disastr_os_start size_of buffer_at k ≡ ok (true, k')) × Booted k k'
    unfolding disastr_os_start
    disastr_os_start-Booted k z =
        let (p, run1, ready) =
          init_pools-IsReady size_of buffer_at some_size small k
            (λ d low high. absurd (omega arith)) in
        let k1 : Kernel = record k { pool = p; init_pcb = 0; running = 0 } in
        let (l, run2, rep) = init_lists-Represents size_of buffer_at k1 (zeroed-Represents k z) in
        let k2 : Kernel = record k1 { lists = l } in
        let (k', run3, booted) =
          start_first-Booted k2 (zeroed-IsKernel k2 ready rep z.objects) z.objects in
        (
          k',
          rw run1 (rw run2 (start_unless_shutdown-running k2 k' z.shutdown run3)),
          record {
            kernel = booted.kernel;
            process = booted.process;
            number = booted.number;
            first_process = booted.first_process;
            init = booted.init;
            next_pid = booted.next_pid;
          },
        )
