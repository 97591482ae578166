-- ===== src/Tests/Family.antt =====
-- A kernel in order with a family of processes: one that runs (1), with two children of which one is ready
-- (33) and one a zombie (17), one that waits for the zombie (65), a resource, and a
-- message queue of two levels that is not in use. Every pool has five
-- blocks, of which the fourth is free.
use disastr_os_message_queue.Base.{
  ℕ, zero, suc, refl, inl, inr, [], ◌∷◌, arith, ◌==◌, if◌then◌else◌, update, ℤ, pos, Bool-cases,
  ==_iff,
}
use disastr_os_message_queue.LinkedList.{ListMemory}
use disastr_os_message_queue.LinkedList.Chain.{item_at, IsList}
use disastr_os_message_queue.LinkedList.Memory.{Contents, Represents}
use disastr_os_message_queue.Kernel.Object.{
  Pcb, ProcessStatus, running, waiting, ready, zombie, blank, pcb, pcb_ptr, resource, queue,
  message_queue,
}
use disastr_os_message_queue.Kernel.State.{Kernel}
use disastr_os_message_queue.Kernel.Laws.{Runs}
use disastr_os_message_queue.Kernel.Invariant.{IsKernel, store-typed, store-inside}
use disastr_os_message_queue.Processes.Turn.{IsApart}
use disastr_os_message_queue.Tests.Machine.{one_item, small_pcb, last_free}
use disastr_os_message_queue.Tests.Busy.{busy_pool, busy_pool-IsPool}

abbrev pub family_contents : Contents
family_contents h =
    if h == 5
    then 10 ∷ []
    else if h == 81
    then 13 ∷ 29 ∷ []
    else if h == 0
    then 33 ∷ []
    else if h == 1
    then 65 ∷ []
    else if h == 2
    then 17 ∷ []
    else if h == 3
    then 4 ∷ []
    else if h == 8
    then 2 ∷ 18 ∷ []
    else if h == 520
    then 34 ∷ []
    else []

abbrev family_lists : ListMemory
family_lists = record {
  head = λ h.
      if h == 5
      then one_item 10
      else if h == 81
      then record { first = 13; last = 29; size = pos 2 }
      else if h == 0
      then one_item 33
      else if h == 1
      then one_item 65
      else if h == 2
      then one_item 17
      else if h == 3
      then one_item 4
      else if h == 8
      then record { first = 2; last = 18; size = pos 2 }
      else if h == 520
      then one_item 34
      else record { first = 0; last = 0; size = pos 0 };
  item = λ a.
      if a == 13
      then item_at 0 29
      else if a == 29
      then item_at 13 0
      else if a == 2
      then item_at 0 18
      else if a == 18
      then item_at 2 0
      else item_at 0 0;
}

family_lists-IsList : (h : ℕ) → IsList family_lists h (family_contents h)
family_lists-IsList h = elim (Bool-cases (h == 5)) [
  | inl e ↦ rw ((==_iff h 5).0 e) (record {
    first = refl;
    last = refl;
    size = refl;
    linked = (omega arith, refl, tt);
    distinct = (refl, tt);
  })
  | inr y0 ↦ elim (Bool-cases (h == 81)) [
    | inl e ↦ rw ((==_iff h 81).0 e) (record {
      first = refl;
      last = refl;
      size = refl;
      linked = (omega arith, refl, (omega arith, refl, tt));
      distinct = (refl, (refl, tt));
    })
    | inr y1 ↦ elim (Bool-cases (h == 0)) [
      | inl e ↦ rw ((==_iff h 0).0 e) (record {
        first = refl;
        last = refl;
        size = refl;
        linked = (omega arith, refl, tt);
        distinct = (refl, tt);
      })
      | inr z0 ↦ elim (Bool-cases (h == 1)) [
        | inl e ↦ rw ((==_iff h 1).0 e) (record {
          first = refl;
          last = refl;
          size = refl;
          linked = (omega arith, refl, tt);
          distinct = (refl, tt);
        })
        | inr z1 ↦ elim (Bool-cases (h == 2)) [
          | inl e ↦ rw ((==_iff h 2).0 e) (record {
            first = refl;
            last = refl;
            size = refl;
            linked = (omega arith, refl, tt);
            distinct = (refl, tt);
          })
          | inr z2 ↦ elim (Bool-cases (h == 3)) [
            | inl e ↦ rw ((==_iff h 3).0 e) (record {
              first = refl;
              last = refl;
              size = refl;
              linked = (omega arith, refl, tt);
              distinct = (refl, tt);
            })
            | inr z3 ↦ elim (Bool-cases (h == 8)) [
              | inl e ↦ rw ((==_iff h 8).0 e) (record {
                first = refl;
                last = refl;
                size = refl;
                linked = (omega arith, refl, (omega arith, refl, tt));
                distinct = (refl, (refl, tt));
              })
              | inr z4 ↦ elim (Bool-cases (h == 520)) [
                | inl e ↦ rw ((==_iff h 520).0 e) (record {
                  first = refl;
                  last = refl;
                  size = refl;
                  linked = (omega arith, refl, tt);
                  distinct = (refl, tt);
                })
                | inr z5 ↦
                    rw (y0, y1, z0, z1, z2, z3, z4, z5)
                      (record {
                        first = rw (y0, y1, z0, z1, z2, z3, z4, z5) refl;
                        last = rw (y0, y1, z0, z1, z2, z3, z4, z5) refl;
                        size = rw (y0, y1, z0, z1, z2, z3, z4, z5) refl;
                        linked = tt;
                        distinct = tt;
                      })
              ]
            ]
          ]
        ]
      ]
    ]
  ]
]

family_lists-Represents : Represents family_lists family_contents
family_lists-Represents = record {
  lists = family_lists-IsList;
  one_list = λ a h g i j. ground arith;
  loose = λ a ne free. ground (arith, free 8, free 81);
}

-- A process that waits for any child, with the place 700 for its value.
abbrev pub family_args : ℕ → ℤ
family_args zero = pos 0
family_args (suc i) = pos 700

abbrev pub family_pcb : ProcessStatus → ℕ → Pcb
family_pcb status parent = record (small_pcb family_args) { status = status; parent = parent }

abbrev pub family_kernel : Kernel
family_kernel = record {
  lists = family_lists;
  object =
      update
        (update
          (update
            (update
              (update
                (update
                  (update
                    (update
                      (update
                        (update (update (λ a. blank) 29 (queue (record { priority = pos 1 }))) 13
                          (queue (record { priority = pos 0 })))
                        10
                        (message_queue
                          (record { id = pos 0; priority = pos 1; num_messages = pos 0 })))
                      34 (pcb_ptr (record { pcb = 17 })))
                    18 (pcb_ptr (record { pcb = 17 })))
                  2 (pcb_ptr (record { pcb = 33 })))
                4 (resource (record { id = pos 0; type = pos 0 })))
              65 (pcb (family_pcb waiting 0)))
            33 (pcb (family_pcb ready 0)))
          17 (pcb (family_pcb zombie 0)))
        1 (pcb (family_pcb running 33));
  pool = λ code. busy_pool;
  init_pcb = 1;
  running = 1;
  last_pid = pos 4;
  disastr_os_time = pos 4;
  shutdown_now = pos 0;
  chars = λ a. 0;
  ints = λ a. pos 0;
}

pub family_kernel-IsKernel : IsKernel family_kernel family_contents last_free
family_kernel-IsKernel = record {
  lists = family_lists-Represents;
  pools = λ code low below. busy_pool-IsPool;
  fresh = λ code i low h g. ground arith;
  typed =
      store-typed _ 1 _
        (store-typed _ 17 _
          (store-typed _ 33 _
            (store-typed _ 65 _
              (store-typed _ 4 _
                (store-typed _ 2 _
                  (store-typed _ 18 _
                    (store-typed _ 34 _
                      (store-typed _ 10 _
                        (store-typed _ 13 _ (store-typed _ 29 _ (λ a. inl refl) refl) refl) refl)
                      refl)
                    refl)
                  refl)
                refl)
              refl)
            refl)
          refl)
        refl;
  inside =
      store-inside _ (λ code. busy_pool) 1 _
        (store-inside _ (λ code. busy_pool) 17 _
          (store-inside _ (λ code. busy_pool) 33 _
            (store-inside _ (λ code. busy_pool) 65 _
              (store-inside _ (λ code. busy_pool) 4 _
                (store-inside _ (λ code. busy_pool) 2 _
                  (store-inside _ (λ code. busy_pool) 18 _
                    (store-inside _ (λ code. busy_pool) 34 _
                      (store-inside _ (λ code. busy_pool) 10 _
                        (store-inside _ (λ code. busy_pool) 13 _
                          (store-inside _ (λ code. busy_pool) 29 _ (λ a. inl refl) (omega arith))
                          (omega arith))
                        (omega arith))
                      (omega arith))
                    (omega arith))
                  (omega arith))
                (omega arith))
              (omega arith))
            (omega arith))
          (omega arith))
        (omega arith);
}

pub family_kernel-Runs : Runs family_kernel (family_pcb running 33)
family_kernel-Runs = record { some_pcb = omega arith; control_block = refl }

pub family_kernel-IsApart : IsApart family_kernel family_contents last_free
family_kernel-IsApart = record { loose = λ h. ground arith; taken = refl }
