-- ===== src/Tests/Busy.antt =====
-- A kernel in order with processes that wait: one running process (1), one that sleeps (17), one that
-- waits for a semaphore (33), and one that is ready (65). Every pool has five blocks, of which the
-- fourth is free.
use disastr_os_message_queue.Base.{
  ℕ, refl, inl, inr, [], ◌∷◌, arith, ◌==◌, if◌then◌else◌, update, pos, Bool-cases, ==_iff,
}
use disastr_os_message_queue.LinkedList.{ListMemory}
use disastr_os_message_queue.LinkedList.Chain.{item_at, IsList}
use disastr_os_message_queue.LinkedList.Memory.{Contents, Represents}
use disastr_os_message_queue.PoolAllocator.{PoolAllocator, null_idx, detached_idx}
use disastr_os_message_queue.PoolAllocator.FreeList.{IsPool}
use disastr_os_message_queue.Kernel.Object.{
  Pcb, ProcessStatus, running, waiting, ready, blank, pcb, timer_item, semaphore, sem_descriptor,
  sem_descriptor_ptr,
}
use disastr_os_message_queue.Kernel.State.{Kernel}
use disastr_os_message_queue.Kernel.Laws.{Runs}
use disastr_os_message_queue.Kernel.Invariant.{IsKernel, store-typed, store-inside}
use disastr_os_message_queue.Tests.Machine.{one_item, small_pcb, last_free}

abbrev pub busy_pool : PoolAllocator
busy_pool = record {
  buffer = 1000;
  free_list = λ i. if i == 3 then null_idx else detached_idx;
  buffer_size = 80;
  size = pos 1;
  size_max = 5;
  item_size = 16;
  first_idx = pos 3;
}

pub busy_pool-IsPool : IsPool busy_pool (3 ∷ [])
busy_pool-IsPool = record {
  chain = (refl, refl);
  below = λ i h. ground arith;
  distinct = (refl, tt);
  taken = λ i lt out. ground arith;
  size = refl;
  item_size = omega arith;
  fits = omega arith;
}

-- The ready process, the waiting ones, the entry that waits for the semaphore 7, and the timer.
abbrev pub busy_contents : Contents
busy_contents h =
    if h == 0
    then 65 ∷ []
    else if h == 57
    then 9 ∷ []
    else if h == 6
    then 3 ∷ []
    else if h == 1
    then 17 ∷ 33 ∷ []
    else []

abbrev busy_lists : ListMemory
busy_lists = record {
  head = λ h.
      if h == 0
      then one_item 65
      else if h == 57
      then one_item 9
      else if h == 6
      then one_item 3
      else if h == 1
      then record { first = 17; last = 33; size = pos 2 }
      else record { first = 0; last = 0; size = pos 0 };
  item = λ a. if a == 17 then item_at 0 33 else if a == 33 then item_at 17 0 else item_at 0 0;
}

busy_lists-IsList : (h : ℕ) → IsList busy_lists h (busy_contents h)
busy_lists-IsList h = elim (Bool-cases (h == 0)) [
  | inl e ↦ rw ((==_iff h 0).0 e) (record {
    first = refl;
    last = refl;
    size = refl;
    linked = (omega arith, refl, tt);
    distinct = (refl, tt);
  })
  | inr z0 ↦ elim (Bool-cases (h == 57)) [
    | inl e ↦ rw ((==_iff h 57).0 e) (record {
      first = refl;
      last = refl;
      size = refl;
      linked = (omega arith, refl, tt);
      distinct = (refl, tt);
    })
    | inr z1 ↦ elim (Bool-cases (h == 6)) [
      | inl e ↦ rw ((==_iff h 6).0 e) (record {
        first = refl;
        last = refl;
        size = refl;
        linked = (omega arith, refl, tt);
        distinct = (refl, tt);
      })
      | inr z2 ↦ elim (Bool-cases (h == 1)) [
        | inl e ↦ rw ((==_iff h 1).0 e) (record {
          first = refl;
          last = refl;
          size = refl;
          linked = (omega arith, refl, (omega arith, refl, tt));
          distinct = (refl, (refl, tt));
        })
        | inr z3 ↦
            rw (z0, z1, z2, z3)
              (record {
                first = rw (z0, z1, z2, z3) refl;
                last = rw (z0, z1, z2, z3) refl;
                size = rw (z0, z1, z2, z3) refl;
                linked = tt;
                distinct = tt;
              })
      ]
    ]
  ]
]

busy_lists-Represents : Represents busy_lists busy_contents
busy_lists-Represents = record {
  lists = busy_lists-IsList;
  one_list = λ a h g i j. ground arith;
  loose = λ a ne free. ground (arith, free 1);
}

abbrev pub busy_pcb : ProcessStatus → Pcb
busy_pcb status = record (small_pcb (λ i. pos 0)) { status = status }

abbrev pub busy_kernel : Kernel
busy_kernel = record {
  lists = busy_lists;
  object =
      update
        (update
          (update
            (update
              (update
                (update
                  (update (update (λ a. blank) 9 (sem_descriptor_ptr (record { descriptor = 8 }))) 8
                    (sem_descriptor (record { pcb = 33; target = 7; fd = pos 0; ptr = 9 })))
                  7 (semaphore (record { id = pos 2; count = pos 0 })))
                3 (timer_item (record { awakening_time = pos 5; pcb = 17 })))
              65 (pcb (busy_pcb ready)))
            33 (pcb (busy_pcb waiting)))
          17 (pcb (busy_pcb waiting)))
        1 (pcb (busy_pcb running));
  pool = λ code. busy_pool;
  init_pcb = 1;
  running = 1;
  last_pid = pos 4;
  disastr_os_time = pos 4;
  shutdown_now = pos 0;
  chars = λ a. 0;
  ints = λ a. pos 0;
}

pub busy_kernel-IsKernel : IsKernel busy_kernel busy_contents last_free
busy_kernel-IsKernel = record {
  lists = busy_lists-Represents;
  pools = λ code low below. busy_pool-IsPool;
  fresh = λ code i low h g. ground arith;
  typed =
      store-typed _ 1 _
        (store-typed _ 17 _
          (store-typed _ 33 _
            (store-typed _ 65 _
              (store-typed _ 3 _
                (store-typed _ 7 _ (store-typed _ 8 _ (store-typed _ 9 _ (λ a. inl refl) refl) refl)
                  refl)
                refl)
              refl)
            refl)
          refl)
        refl;
  inside =
      store-inside _ (λ code. busy_pool) 1 _
        (store-inside _ (λ code. busy_pool) 17 _
          (store-inside _ (λ code. busy_pool) 33 _
            (store-inside _ (λ code. busy_pool) 65 _
              (store-inside _ (λ code. busy_pool) 3 _
                (store-inside _ (λ code. busy_pool) 7 _
                  (store-inside _ (λ code. busy_pool) 8 _
                    (store-inside _ (λ code. busy_pool) 9 _ (λ a. inl refl) (omega arith))
                    (omega arith))
                  (omega arith))
                (omega arith))
              (omega arith))
            (omega arith))
          (omega arith))
        (omega arith);
}

pub busy_kernel-Runs : Runs busy_kernel (busy_pcb running)
busy_kernel-Runs = record { some_pcb = omega arith; control_block = refl }
