-- ===== src/Tests/Processes.antt =====
-- The calls that create, awake and schedule processes, on the small kernels.
use disastr_os_message_queue.Base.{
  ℕ, has, true, ◌==◌, ==_iff, Bool-cases, inl, inr, subst, sym, ◌≡◌, refl, List, [], ◌∷◌, arith,
  update, pos, ok, ◌+ℤ◌, ◌-ℤ◌,
}
use disastr_os_message_queue.LinkedList.Memory.{Contents}
use disastr_os_message_queue.Kernel.Object.{Pcb, pcb, ready, running, waiting, semaphore}
use disastr_os_message_queue.Kernel.State.{Kernel}
use disastr_os_message_queue.Kernel.Invariant.{IsKernel}
use disastr_os_message_queue.Processes.{timer_interrupt}
use disastr_os_message_queue.Processes.Turn.{IsApart}
use disastr_os_message_queue.Processes.Interrupt.{Interrupted, timer_interrupt-Interrupted}
use disastr_os_message_queue.Processes.Create.{internal_fork}
use disastr_os_message_queue.Processes.Create.Forked.{Forked, internal_fork-Forked}
use disastr_os_message_queue.Semaphores.Post.{post_semaphore}
use disastr_os_message_queue.Semaphores.Post.Awake.{awakened, post_semaphore-Awakened}
use disastr_os_message_queue.Tests.Machine.{last_free}
use disastr_os_message_queue.Tests.Busy.{
  busy_kernel, busy_contents, busy_pcb, busy_kernel-IsKernel, busy_kernel-Runs,
}

internal_fork-Forked_example :
    (k' : Kernel) × (internal_fork busy_kernel ≡ ok (tt, k'))
    × Forked busy_kernel busy_contents last_free (busy_pcb running) 3 [] 3 [] k'
internal_fork-Forked_example =
    internal_fork-Forked busy_kernel-IsKernel busy_kernel-Runs 3 [] refl
      (record { children = refl; descriptors = refl; mq_descriptors = refl }) (omega arith) 3 []
      refl

busy_kernel-IsApart : IsApart busy_kernel busy_contents last_free
busy_kernel-IsApart = record { loose = λ h. ground arith; taken = refl }

-- The ready process has a control block.
ready_typed : (a : ℕ) → has a (busy_contents 0) ≡ true → (n : Pcb) × (busy_kernel.object a ≡ pcb n)
ready_typed a h = elim (Bool-cases (a == 65)) [
  | inl e ↦
      subst (λ z. (n : Pcb) × (busy_kernel.object z ≡ pcb n)) (sym ((==_iff a 65).0 e))
        (busy_pcb ready, refl)
  | inr e ↦ absurd (ground (arith, h, e))
]

timer_interrupt-Interrupted_example :
    (k' : Kernel) × (c' : Contents) × (free' : ℕ → List ℕ) × (timer_interrupt busy_kernel
      ≡ ok (tt, k'))
    × Interrupted busy_kernel busy_contents (busy_pcb running) (17 ∷ []) [] 17 (65 ∷ []) k' c' free'
timer_interrupt-Interrupted_example =
    timer_interrupt-Interrupted busy_kernel-IsKernel busy_kernel-Runs busy_kernel-IsApart (3 ∷ [])
      (17 ∷ []) [] refl (omega arith)
      (
        record {
          item = record { awakening_time = pos 5; pcb = 17 };
          process = busy_pcb waiting;
          timer = refl;
          elapsed = refl;
          waits = refl;
          block = refl;
        },
        refl,
        refl,
        tt,
      )
      tt ready_typed 17 (65 ∷ []) refl

post_semaphore-Awakened_example :
    (k' : Kernel) × (post_semaphore 7 busy_kernel ≡ ok (tt, k'))
    × IsKernel k' (awakened busy_contents 7 9 33 [] (17 ∷ [])) last_free
    × (k'.object
        ≡ update busy_kernel.object 7
            (semaphore (record { id = pos 2; count = pos 0 +ℤ pos 1 -ℤ pos 1 })))
    × (k'.running ≡ busy_kernel.running)
post_semaphore-Awakened_example =
    post_semaphore-Awakened busy_kernel-IsKernel 7 refl 9 8 [] (17 ∷ []) []
      (record {
        first = refl;
        entry_block = refl;
        some_descriptor = omega arith;
        descriptor_block = refl;
        waits = refl;
      })
      refl
