-- ===== src/Tests/Machine.antt =====
-- A small kernel in order: one running process with one open descriptor (number 0) of a message
-- queue of two levels and the level for invalid priorities, one message in one of the levels, one
-- timer, and a second process, ready, and a semaphore that the running process has open.
-- Every pool has four blocks, of which the last is free.
use disastr_os_message_queue.Base.{
  ℕ, ◌%◌, ◌<◌, refl, inl, inr, List, [], ◌∷◌, arith, ◌==◌, if◌then◌else◌, update, ℤ, pos,
  Bool-cases, ==_iff,
}
use disastr_os_message_queue.LinkedList.{ListMemory, ListHead}
use disastr_os_message_queue.LinkedList.Chain.{item_at, IsList}
use disastr_os_message_queue.LinkedList.Memory.{Contents, Represents}
use disastr_os_message_queue.PoolAllocator.{PoolAllocator, null_idx, detached_idx}
use disastr_os_message_queue.PoolAllocator.FreeList.{IsPool}
use disastr_os_message_queue.Kernel.Object.{
  Pcb, MessageQueue, Message, running, blank, pcb, mq_descriptor, mq_descriptor_ptr, message_queue,
  queue, message, timer_item, semaphore, sem_descriptor, sem_descriptor_ptr,
}
use disastr_os_message_queue.Kernel.State.{Kernel}
use disastr_os_message_queue.Kernel.Laws.{Runs}
use disastr_os_message_queue.Kernel.Invariant.{IsKernel, store-typed, store-inside}
use disastr_os_message_queue.MessageQueues.View.{IsQueue, IsTable, IsRegistry}
use disastr_os_message_queue.Timers.Add.{IsTimers}

abbrev pub small_pool : PoolAllocator
small_pool = record {
  buffer = 1000;
  free_list = λ i. if i == 3 then null_idx else detached_idx;
  buffer_size = 64;
  size = pos 1;
  size_max = 4;
  item_size = 16;
  first_idx = pos 3;
}

pub small_pool-IsPool : IsPool small_pool (3 ∷ [])
small_pool-IsPool = record {
  chain = (refl, refl);
  below = λ i h. ground arith;
  distinct = (refl, tt);
  taken = λ i lt out. ground arith;
  size = refl;
  item_size = omega arith;
  fits = omega arith;
}

abbrev pub last_free : ℕ → List ℕ
last_free code = 3 ∷ []

-- The process's descriptors, the message queue's entries and levels, and the messages of one level.
abbrev pub contents : ℕ → Contents
contents at h =
    if h == 0
    then 17 ∷ []
    else if h == 56
    then 9 ∷ []
    else if h == 5
    then 10 ∷ []
    else if h == 6
    then 3 ∷ []
    else if h == 11
    then 11 ∷ []
    else if h == 80
    then 12 ∷ []
    else if h == 81
    then 13 ∷ 29 ∷ 45 ∷ []
    else if h == at
    then 14 ∷ []
    else []

abbrev pub one_item : ℕ → ListHead
one_item a = record { first = a; last = a; size = pos 1 }

abbrev pub small_lists : ℕ → ListMemory
small_lists at = record {
  head = λ h.
      if h == 0
      then one_item 17
      else if h == 56
      then one_item 9
      else if h == 5
      then one_item 10
      else if h == 6
      then one_item 3
      else if h == 11
      then one_item 11
      else if h == 80
      then one_item 12
      else if h == 81
      then record { first = 13; last = 45; size = pos 3 }
      else if h == at
      then one_item 14
      else record { first = 0; last = 0; size = pos 0 };
  item = λ a.
      if a == 13
      then item_at 0 29
      else if a == 29
      then item_at 13 45
      else if a == 45
      then item_at 29 0
      else item_at 0 0;
}

pub small_lists-IsList : (at h : ℕ) → 100 < at → IsList (small_lists at) h (contents at h)
small_lists-IsList at h high = elim (Bool-cases (h == 0)) [
  | inl z0 ↦ rw ((==_iff h 0).0 z0) (record {
    first = refl;
    last = refl;
    size = refl;
    linked = (omega arith, refl, tt);
    distinct = (refl, tt);
  })
  | inr z0 ↦ elim (Bool-cases (h == 56)) [
    | inl z7 ↦ rw ((==_iff h 56).0 z7) (record {
      first = refl;
      last = refl;
      size = refl;
      linked = (omega arith, refl, tt);
      distinct = (refl, tt);
    })
    | inr z7 ↦ elim (Bool-cases (h == 5)) [
      | inl z5 ↦ rw ((==_iff h 5).0 z5) (record {
        first = refl;
        last = refl;
        size = refl;
        linked = (omega arith, refl, tt);
        distinct = (refl, tt);
      })
      | inr z5 ↦ elim (Bool-cases (h == 6)) [
        | inl z6 ↦ rw ((==_iff h 6).0 z6) (record {
          first = refl;
          last = refl;
          size = refl;
          linked = (omega arith, refl, tt);
          distinct = (refl, tt);
        })
        | inr z6 ↦ elim (Bool-cases (h == 11)) [
          | inl a ↦ rw ((==_iff h 11).0 a) (record {
            first = refl;
            last = refl;
            size = refl;
            linked = (omega arith, refl, tt);
            distinct = (refl, tt);
          })
          | inr a ↦ elim (Bool-cases (h == 80)) [
            | inl b ↦ rw ((==_iff h 80).0 b) (record {
              first = refl;
              last = refl;
              size = refl;
              linked = (omega arith, refl, tt);
              distinct = (refl, tt);
            })
            | inr b ↦ elim (Bool-cases (h == 81)) [
              | inl d ↦ rw ((==_iff h 81).0 d) (record {
                first = refl;
                last = refl;
                size = refl;
                linked = (omega arith, refl, (omega arith, refl, (omega arith, refl, tt)));
                distinct = (refl, (refl, (refl, tt)));
              })
              | inr d ↦ elim (Bool-cases (h == at)) [
                | inl e ↦
                    rw (z0, z7, z5, z6, a, b, d, e)
                      (record {
                        first = rw (z0, z7, z5, z6, a, b, d, e) refl;
                        last = rw (z0, z7, z5, z6, a, b, d, e) refl;
                        size = rw (z0, z7, z5, z6, a, b, d, e) refl;
                        linked = (omega arith, refl, tt);
                        distinct = (refl, tt);
                      })
                | inr e ↦
                    rw (z0, z7, z5, z6, a, b, d, e)
                      (record {
                        first = rw (z0, z7, z5, z6, a, b, d, e) refl;
                        last = rw (z0, z7, z5, z6, a, b, d, e) refl;
                        size = rw (z0, z7, z5, z6, a, b, d, e) refl;
                        linked = tt;
                        distinct = tt;
                      })
              ]
            ]
          ]
        ]
      ]
    ]
  ]
]

pub small_lists-Represents : (at : ℕ) → 100 < at → Represents (small_lists at) (contents at)
small_lists-Represents at high = record {
  lists = λ h. small_lists-IsList at h high;
  one_list = λ a h g i j. ground arith;
  loose = λ a ne free. ground (arith, free 81);
}

abbrev pub small_queue : MessageQueue
small_queue = record { id = pos 5; priority = pos 2; num_messages = pos 1 }

abbrev pub small_message : Message
small_message = record { text_length = pos 4; text = 700 }

-- The running process, with the arguments of its call.
abbrev pub small_pcb : (ℕ → ℤ) → Pcb
small_pcb args = record {
  pid = pos 1;
  return_value = pos 0;
  status = running;
  signals = 0;
  signals_mask = 0;
  parent = 0;
  timer = 0;
  last_fd = pos 0;
  last_sem_fd = pos 0;
  last_mq_fd = pos 1;
  syscall_num = pos 0;
  syscall_args = args;
  syscall_retvalue = pos 0;
}

abbrev pub kernel_with : MessageQueue → ℕ → (ℕ → ℤ) → Kernel
kernel_with r at args = record {
  lists = small_lists at;
  object =
      update
        (update
          (update
            (update
              (update
                (update
                  (update
                    (update
                      (update
                        (update
                          (update
                            (update (update (λ a. blank) 17 (pcb (small_pcb args))) 9
                              (sem_descriptor_ptr (record { descriptor = 8 })))
                            8
                            (sem_descriptor (record { pcb = 1; target = 7; fd = pos 0; ptr = 9 })))
                          7 (semaphore (record { id = pos 2; count = pos 0 })))
                        3 (timer_item (record { awakening_time = pos 5; pcb = 1 })))
                      14 (message small_message))
                    45 (queue (record { priority = pos 2 })))
                  29 (queue (record { priority = pos 1 })))
                13 (queue (record { priority = pos 0 })))
              12 (mq_descriptor_ptr (record { descriptor = 11 })))
            11 (mq_descriptor (record { pcb = 1; target = 10; fd = pos 0; ptr = 12 })))
          10 (message_queue r))
        1 (pcb (small_pcb args));
  pool = λ code. small_pool;
  init_pcb = 1;
  running = 1;
  last_pid = pos 1;
  disastr_os_time = pos 0;
  shutdown_now = pos 0;
  chars = λ a. a % 256;
  ints = λ a. pos 0;
}

pub kernel_with-IsKernel :
    (r : MessageQueue) (at : ℕ) (args : ℕ → ℤ)
    → 100 < at
    → IsKernel (kernel_with r at args) (contents at) last_free
kernel_with-IsKernel r at args high = record {
  lists = small_lists-Represents at high;
  pools = λ code low below. small_pool-IsPool;
  fresh = λ code i low h g. ground arith;
  typed =
      store-typed _ 1 _
        (store-typed _ 10 _
          (store-typed _ 11 _
            (store-typed _ 12 _
              (store-typed _ 13 _
                (store-typed _ 29 _
                  (store-typed _ 45 _
                    (store-typed _ 14 _
                      (store-typed _ 3 _
                        (store-typed _ 7 _
                          (store-typed _ 8 _
                            (store-typed _ 9 _ (store-typed _ 17 _ (λ a. inl refl) refl) refl) refl)
                          refl)
                        refl)
                      refl)
                    refl)
                  refl)
                refl)
              refl)
            refl)
          refl)
        refl;
  inside =
      store-inside _ (λ code. small_pool) 1 _
        (store-inside _ (λ code. small_pool) 10 _
          (store-inside _ (λ code. small_pool) 11 _
            (store-inside _ (λ code. small_pool) 12 _
              (store-inside _ (λ code. small_pool) 13 _
                (store-inside _ (λ code. small_pool) 29 _
                  (store-inside _ (λ code. small_pool) 45 _
                    (store-inside _ (λ code. small_pool) 14 _
                      (store-inside _ (λ code. small_pool) 3 _
                        (store-inside _ (λ code. small_pool) 7 _
                          (store-inside _ (λ code. small_pool) 8 _
                            (store-inside _ (λ code. small_pool) 9 _
                              (store-inside _ (λ code. small_pool) 17 _ (λ a. inl refl)
                                (omega arith))
                              (omega arith))
                            (omega arith))
                          (omega arith))
                        (omega arith))
                      (omega arith))
                    (omega arith))
                  (omega arith))
                (omega arith))
              (omega arith))
            (omega arith))
          (omega arith))
        (omega arith);
}

pub kernel_with-Runs :
    (r : MessageQueue) (at : ℕ) (args : ℕ → ℤ) → Runs (kernel_with r at args) (small_pcb args)
kernel_with-Runs r at args = record { some_pcb = omega arith; control_block = refl }

pub kernel_with-IsQueue :
    (r : MessageQueue) (at : ℕ) (args : ℕ → ℤ) → IsQueue (kernel_with r at args) (contents at) 10 r
kernel_with-IsQueue r at args = record {
  some_mq = omega arith;
  object = refl;
  short = omega arith;
  typed = λ a h. ground arith;
}

pub kernel_with-IsTable :
    (r : MessageQueue) (at : ℕ) (args : ℕ → ℤ) → IsTable (kernel_with r at args) (contents at)
kernel_with-IsTable r at args = record { short = omega arith; typed = λ a h. ground arith }

abbrev pub small_kernel : ℕ → (ℕ → ℤ) → Kernel
small_kernel = kernel_with small_queue

pub small_kernel-IsKernel :
    (at : ℕ) (args : ℕ → ℤ) → 100 < at → IsKernel (small_kernel at args) (contents at) last_free
small_kernel-IsKernel = kernel_with-IsKernel small_queue

pub small_kernel-Runs : (at : ℕ) (args : ℕ → ℤ) → Runs (small_kernel at args) (small_pcb args)
small_kernel-Runs = kernel_with-Runs small_queue

pub small_kernel-IsQueue :
    (at : ℕ) (args : ℕ → ℤ) → IsQueue (small_kernel at args) (contents at) 10 small_queue
small_kernel-IsQueue = kernel_with-IsQueue small_queue

pub small_kernel-IsTable : (at : ℕ) (args : ℕ → ℤ) → IsTable (small_kernel at args) (contents at)
small_kernel-IsTable = kernel_with-IsTable small_queue

pub small_kernel-IsRegistry :
    (at : ℕ) (args : ℕ → ℤ) → IsRegistry (small_kernel at args) (contents at)
small_kernel-IsRegistry at args = record { short = omega arith; typed = λ a h. ground arith }

pub small_kernel-IsTimers :
    (at : ℕ) (args : ℕ → ℤ) → IsTimers (small_kernel at args) (contents at) 6
small_kernel-IsTimers at args = record {
  short = omega arith;
  typed = λ a h. ground arith;
  sorted = (λ a h. cc, tt);
}
