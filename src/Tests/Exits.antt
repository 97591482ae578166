-- ===== src/Tests/Exits.antt =====
-- The calls that end processes, wait for them, and destroy resources, on the small kernels.
use disastr_os_message_queue.Base.{
  ℕ, ◌≡◌, refl, sym, subst, [], ◌∷◌, arith, has, true, false, ◌==◌, ==_iff, Bool-cases, inl, inr,
  update, pos, ok, true-ne-false, out_of_fuel, to_int,
}
use disastr_os_message_queue.LinkedList.Walk.{find_first}
use disastr_os_message_queue.Kernel.Object.{
  Queue, queue, Pcb, pcb, ready, running, waiting, zombie, resource,
}
use disastr_os_message_queue.Kernel.State.{Kernel, messages}
use disastr_os_message_queue.Kernel.Invariant.{IsKernel}
use disastr_os_message_queue.MessageQueues.Unlink.{internal_mq_unlink}
use disastr_os_message_queue.MessageQueues.Unlink.Unlinked.{IsIdle, internal_mq_unlink-Unlinked}
use disastr_os_message_queue.Processes.Exit.{reparent, die, report}
use disastr_os_message_queue.Processes.Exit.Children.{IsChild, AreChildren}
use disastr_os_message_queue.Processes.Exit.Children.Endless.{reparent-endless}
use disastr_os_message_queue.Processes.Exit.Die.{Died, die-Died}
use disastr_os_message_queue.Processes.Exit.Report.{Reported, report-Reported}
use disastr_os_message_queue.Processes.Wait.{internal_wait, is_awaited}
use disastr_os_message_queue.Processes.Wait.Reap.{AreOthers, Reaped, internal_wait-Reaped}
use disastr_os_message_queue.Resources.Destroy.{internal_destroy_resource}
use disastr_os_message_queue.Resources.Destroy.Call.{
  resource_of, internal_destroy_resource-Destroyed,
}
use disastr_os_message_queue.Tests.Machine.{last_free}
use disastr_os_message_queue.Tests.Family.{
  family_kernel, family_contents, family_pcb, family_kernel-IsKernel, family_kernel-Runs,
  family_kernel-IsApart,
}

-- The entry 2 leads to the process 33, and the entry 18 to the process 17.
entry_2 : IsChild family_kernel 2 33 (family_pcb ready 0)
entry_2 = record { entry = refl; some_process = omega arith; process = refl }

entry_18 : IsChild family_kernel 18 17 (family_pcb zombie 0)
entry_18 = record { entry = refl; some_process = omega arith; process = refl }

family_children : AreChildren family_kernel (2 ∷ 18 ∷ [])
family_children e h = elim (Bool-cases (e == 2)) [
  | inl z ↦
      subst (λ a. (q : ℕ) × (r : Pcb) × IsChild family_kernel a q r) (sym ((==_iff e 2).0 z))
        (33, family_pcb ready 0, entry_2)
  | inr z ↦ elim (Bool-cases (e == 18)) [
    | inl y ↦
        subst (λ a. (q : ℕ) × (r : Pcb) × IsChild family_kernel a q r) (sym ((==_iff e 18).0 y))
          (17, family_pcb zombie 0, entry_18)
    | inr y ↦ absurd (ground (arith, h, z, y))
  ]
]

reparent-endless_example : reparent 100 1 1 family_kernel ≡ out_of_fuel
reparent-endless_example =
    reparent-endless 100 1 2 (18 ∷ []) family_kernel-IsKernel refl family_children

die-Died_example :
    (k' : Kernel) × (die 1 family_kernel ≡ ok (tt, k'))
    × Died family_kernel family_contents last_free
        (family_pcb running 33)
        (family_pcb ready 0)
        33
        []
        k'
die-Died_example =
    die-Died family_kernel-IsKernel family_kernel-Runs family_kernel-IsApart (λ e. omega arith)
      (λ e. omega arith) refl refl 33 [] refl refl

-- The child before the zombie is not one.
not_dead : AreOthers family_kernel (pos 0) (2 ∷ [])
not_dead e h = elim (Bool-cases (e == 2)) [
  | inl z ↦
      subst
        (λ a.
          (q : ℕ) × (r : Pcb) × IsChild family_kernel a q r
          × (is_awaited (pos 0) r.pid r.status ≡ false))
        (sym ((==_iff e 2).0 z)) (33, family_pcb ready 0, entry_2, refl)
  | inr z ↦ absurd (ground (arith, h, z))
]

internal_wait-Reaped_example :
    (k' : Kernel) × (internal_wait family_kernel ≡ ok (tt, k'))
    × Reaped family_kernel family_contents last_free
        (family_pcb running 33)
        18
        17
        (family_pcb zombie 0)
        (2 ∷ [])
        []
        700
        k'
unfolding to_int
internal_wait-Reaped_example =
    internal_wait-Reaped family_kernel-IsKernel family_kernel-Runs family_kernel-IsApart 18 17
      (family_pcb zombie 0) entry_18 (2 ∷ []) [] [] [] refl refl 700 (λ e. omega arith) (pos 0) refl
      refl not_dead refl refl (omega arith)

report-Reported_example :
    (k' : Kernel) × (report 17 65 family_kernel ≡ ok (tt, k'))
    × Reported family_kernel family_contents last_free 17 65
        (family_pcb zombie 0)
        (family_pcb waiting 0)
        []
        []
        []
        700
        k'
report-Reported_example =
    report-Reported family_kernel-IsKernel 17 65 34 (family_pcb zombie 0) (family_pcb waiting 0) []
      [] [] [] [] [] 700
      (record {
        parent_waits = refl;
        parent_block = refl;
        dead = refl;
        entries = refl;
        child = record { entry = refl; some_process = omega arith; process = refl };
        siblings = λ e h. absurd (true-ne-false (sym h));
        few = omega arith;
        apart = λ e. omega arith;
        result_arg = refl;
        some_result = λ e. omega arith;
        foreign = λ t h. absurd (true-ne-false (sym h));
        few_timers = omega arith;
        no_descriptors = refl;
      })

one_resource :
    (a : ℕ)
    → has a (4 ∷ []) ≡ true
    → family_kernel.object a ≡ resource (resource_of (family_kernel.object a))
one_resource a h = elim (Bool-cases (a == 4)) [
  | inl z ↦
      subst (λ b. family_kernel.object b ≡ resource (resource_of (family_kernel.object b)))
        (sym ((==_iff a 4).0 z)) refl
  | inr z ↦ absurd (ground (arith, h, z))
]

internal_destroy_resource-Destroyed_example :
    (k' : Kernel) × (internal_destroy_resource family_kernel ≡ ok (tt, k'))
    × IsKernel k' (update family_contents 3 []) (update last_free 4 (0 ∷ 3 ∷ []))
    × (k'.object
        ≡ update family_kernel.object 1
            (pcb (record (family_pcb running 33) { syscall_retvalue = pos 0 })))
    × (k'.running ≡ 1)
unfolding to_int find_first
internal_destroy_resource-Destroyed_example =
    internal_destroy_resource-Destroyed family_kernel-IsKernel family_kernel-Runs
      (record { short = omega arith; typed = λ a h. one_resource a h }) (pos 0) refl 4 refl
      (λ e. omega arith) [] [] refl refl

family_queue-IsIdle : IsIdle family_kernel family_contents 10 (pos 0) 1 (13 ∷ 29 ∷ [])
family_queue-IsIdle = record {
  object = refl;
  no_descriptors = refl;
  all = refl;
  count = refl;
  empty = λ q h. elim (Bool-cases (q == 13)) [
    | inl z ↦
        subst
          (λ a.
            (r : Queue) × (family_kernel.object a ≡ queue r) × (family_contents (messages a) ≡ []))
          (sym ((==_iff q 13).0 z)) (record { priority = pos 0 }, refl, refl)
    | inr z ↦ elim (Bool-cases (q == 29)) [
      | inl y ↦
          subst
            (λ a.
              (r : Queue) × (family_kernel.object a ≡ queue r)
              × (family_contents (messages a) ≡ []))
            (sym ((==_iff q 29).0 y)) (record { priority = pos 1 }, refl, refl)
      | inr y ↦ absurd (ground (arith, h, z, y))
    ]
  ];
}

internal_mq_unlink-Unlinked_example :
    (k' : Kernel) × (internal_mq_unlink family_kernel ≡ ok (tt, k'))
    × IsKernel k'
        (update (update family_contents 5 []) 81 [])
        (update (update last_free 13 (1 ∷ 0 ∷ 3 ∷ [])) 10 (0 ∷ 3 ∷ []))
    × (k'.object
        ≡ update family_kernel.object 1
            (pcb (record (family_pcb running 33) { syscall_retvalue = pos 0 })))
    × (k'.running ≡ 1)
unfolding to_int find_first
internal_mq_unlink-Unlinked_example =
    internal_mq_unlink-Unlinked family_kernel-IsKernel family_kernel-Runs (pos 0) 1
      family_queue-IsIdle [] [] refl refl
      (record { short = omega arith; typed = λ a h. ground arith }) refl refl
