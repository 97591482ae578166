-- ===== src/Tests/Opens.antt =====
-- Opening, closing and unlinking on the small kernel, its timers and its semaphore.
use disastr_os_message_queue.Base.{
  ℕ, zero, suc, ◌≡◌, refl, [], ◌∷◌, arith, update, ℤ, pos, ok, to_int, has_bit,
}
use disastr_os_message_queue.LinkedList.Walk.{find_first}
use disastr_os_message_queue.Kernel.Constants.{dsos_emqopen, dsos_emqunlink}
use disastr_os_message_queue.Kernel.Object.{pcb, timer_item}
use disastr_os_message_queue.Kernel.State.{Kernel}
use disastr_os_message_queue.Kernel.Laws.{with_running}
use disastr_os_message_queue.Kernel.Invariant.{IsKernel}
use disastr_os_message_queue.MessageQueues.Open.{internal_mq_open, open_descriptor}
use disastr_os_message_queue.MessageQueues.Open.Descriptor.{Opened}
use disastr_os_message_queue.MessageQueues.Open.Call.{
  OpenArgs, internal_mq_open-Opened, internal_mq_open-refused,
}
use disastr_os_message_queue.MessageQueues.Close.{close_descriptor}
use disastr_os_message_queue.MessageQueues.OpenClose.{close_descriptor-open_descriptor}
use disastr_os_message_queue.MessageQueues.Unlink.{internal_mq_unlink}
use disastr_os_message_queue.MessageQueues.Unlink.Call.{internal_mq_unlink-refused}
use disastr_os_message_queue.Semaphores.Wait.{block_on}
use disastr_os_message_queue.Semaphores.Wait.Block.{blocked, block_on-blocked}
use disastr_os_message_queue.Timers.{timer_list_add}
use disastr_os_message_queue.Timers.Sorted.{IsSorted}
use disastr_os_message_queue.Timers.Add.{time_at, timer_list_add-IsSorted}
use disastr_os_message_queue.Tests.Machine.{
  small_kernel, small_pcb, contents, last_free, small_kernel-IsKernel, small_kernel-Runs,
  small_kernel-IsRegistry, small_kernel-IsTimers,
}

-- The arguments of a call on the message queue 5: the flags, and three levels.
abbrev open_args : ℕ → ℕ → ℤ
open_args flags zero = pos 5
open_args flags (suc zero) = pos flags
open_args flags (suc (suc n)) = pos 3

internal_mq_open-Opened_example :
    (k' : Kernel) × (internal_mq_open (small_kernel 232 (open_args 1)) ≡ ok (tt, k'))
    × Opened
        (small_kernel 232 (open_args 1))
        (contents 232)
        last_free
        (small_pcb (open_args 1))
        10
        3
        []
        3
        []
        k'
unfolding find_first to_int has_bit
internal_mq_open-Opened_example =
    internal_mq_open-Opened (small_kernel-IsKernel 232 (open_args 1) (omega arith))
      (small_kernel-Runs 232 (open_args 1)) (small_kernel-IsRegistry 232 (open_args 1))
      (record { id_arg = refl; flags_arg = refl; priority_arg = refl }) 3 [] 3 [] refl refl
      (omega arith) refl refl refl

args_5 : OpenArgs (small_pcb (open_args 5)) (pos 5) (pos 5) (pos 3)
unfolding to_int
args_5 = record { id_arg = refl; flags_arg = refl; priority_arg = refl }

-- With the flag for a new message queue only.
internal_mq_open-refused_example :
    internal_mq_open (small_kernel 232 (open_args 5))
    ≡ ok (
      tt,
      with_running
          (small_kernel 232 (open_args 5))
          (record (small_pcb (open_args 5)) { syscall_retvalue = dsos_emqopen }),
    )
unfolding find_first to_int has_bit
internal_mq_open-refused_example =
    internal_mq_open-refused (small_kernel-IsKernel 232 (open_args 5) (omega arith))
      (small_kernel-Runs 232 (open_args 5)) (small_kernel-IsRegistry 232 (open_args 5)) args_5 refl

close_descriptor-open_descriptor_example :
    (k1 : Kernel) × (k2 : Kernel) × (open_descriptor 10 (small_kernel 232 (open_args 1))
      ≡ ok (tt, k1))
    × (close_descriptor k1.running 59 k1 ≡ ok (tt, k2))
    × IsKernel k2 (contents 232) last_free
    × (k2.object 1 ≡ pcb (record (small_pcb (open_args 1)) { syscall_retvalue = pos 0 }))
close_descriptor-open_descriptor_example =
    close_descriptor-open_descriptor (small_kernel-IsKernel 232 (open_args 1) (omega arith))
      (small_kernel-Runs 232 (open_args 1)) 10 (omega arith) 3 [] refl 3 [] refl

-- The message queue 5 has a message.
internal_mq_unlink-refused_example :
    internal_mq_unlink (small_kernel 232 (open_args 0))
    ≡ ok (
      tt,
      with_running
          (small_kernel 232 (open_args 0))
          (record (small_pcb (open_args 0)) { syscall_retvalue = dsos_emqunlink }),
    )
unfolding find_first to_int
internal_mq_unlink-refused_example =
    internal_mq_unlink-refused (small_kernel-IsKernel 232 (open_args 0) (omega arith))
      (small_kernel-Runs 232 (open_args 0)) (small_kernel-IsRegistry 232 (open_args 0)) refl

-- A timer for 4 goes in front of the one for 5.
timer_list_add-IsSorted_example :
    (k' : Kernel) × (timer_list_add 6 (pos 4) 1 (small_kernel 232 (open_args 0)) ≡ ok (51, k'))
    × IsKernel k' (update (contents 232) 6 (51 ∷ 3 ∷ [])) (update last_free 3 [])
    × (k'.object
        ≡ update
            (small_kernel 232 (open_args 0)).object
            51
            (timer_item (record { awakening_time = pos 4; pcb = 1 })))
    × IsSorted (time_at k'.object) (51 ∷ 3 ∷ [])
timer_list_add-IsSorted_example =
    timer_list_add-IsSorted (small_kernel-IsKernel 232 (open_args 0) (omega arith)) 6
      (small_kernel-IsTimers 232 (open_args 0)) 3 [] refl (pos 4) 1

block_on-blocked_example :
    (k' : Kernel) × (block_on 1 7 9 (small_kernel 232 (open_args 0)) ≡ ok (tt, k'))
    × IsKernel k' (blocked (contents 232) 7 9 1 [] []) last_free
    × (k'.running ≡ 17)
    × (k'.object ≡ (small_kernel 232 (open_args 0)).object)
block_on-blocked_example =
    block_on-blocked (small_kernel-IsKernel 232 (open_args 0) (omega arith)) 1 7 9 17 [] [] []
      (omega arith) (omega arith) (omega arith) refl refl (λ h. ground arith) refl
