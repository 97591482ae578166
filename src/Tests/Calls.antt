-- ===== src/Tests/Calls.antt =====
-- The calls on the small kernel.
use disastr_os_message_queue.Base.{
  ℕ, zero, suc, ◌<◌, ◌≡◌, refl, inr, [], arith, ◌%◌, update, ℤ, pos, ok, to_int,
}
use disastr_os_message_queue.LinkedList.{ListMemory}
use disastr_os_message_queue.LinkedList.Walk.{find_first}
use disastr_os_message_queue.Kernel.Constants.{dsos_emqread, dsos_emqwrite, dsos_emqclose}
use disastr_os_message_queue.Kernel.Object.{MessageQueue, message_queue, pcb}
use disastr_os_message_queue.Kernel.State.{Kernel}
use disastr_os_message_queue.Kernel.Laws.{with_running}
use disastr_os_message_queue.MessageQueues.Read.{internal_mq_read, read_queue}
use disastr_os_message_queue.MessageQueues.Read.Deliver.{Delivered}
use disastr_os_message_queue.MessageQueues.Read.Levels.{IsEmptyLevel}
use disastr_os_message_queue.MessageQueues.Read.Lost.{Lost, read_queue-Lost}
use disastr_os_message_queue.MessageQueues.Read.Call.{
  ReadArgs, internal_mq_read-Delivered, internal_mq_read-nothing, internal_mq_read-refused,
}
use disastr_os_message_queue.MessageQueues.Write.{internal_mq_write, write_queue}
use disastr_os_message_queue.MessageQueues.Write.Append.{Written}
use disastr_os_message_queue.MessageQueues.Write.Call.{
  WriteArgs, internal_mq_write-Written, internal_mq_write-full, internal_mq_write-refused,
}
use disastr_os_message_queue.MessageQueues.Close.{internal_mq_close}
use disastr_os_message_queue.MessageQueues.Close.Call.{
  Closed, internal_mq_close-Closed, internal_mq_close-refused,
}
use disastr_os_message_queue.MessageQueues.RoundTrip.{
  read_queue-write_queue, read_queue-write_queue_last,
}
use disastr_os_message_queue.Tests.Machine.{
  kernel_with, kernel_with-IsKernel, kernel_with-Runs, kernel_with-IsQueue, kernel_with-IsTable,
  small_kernel, small_pcb, small_queue, small_message, contents, last_free, small_kernel-IsKernel,
  small_kernel-Runs, small_kernel-IsQueue, small_kernel-IsTable,
}

-- The arguments of a call on the descriptor `fd`: a buffer at 500 of 10 characters, and the priority
-- or the place for it.
abbrev call_args : ℕ → ℤ → ℕ → ℤ
call_args fd priority zero = pos fd
call_args fd priority (suc zero) = pos 500
call_args fd priority (suc (suc zero)) = pos 10
call_args fd priority (suc (suc (suc n))) = priority

-- The heads of the levels 1 and 2.
abbrev level_1 : ℕ
level_1 = 232

abbrev level_2 : ℕ
level_2 = 360

read_args :
    (fd : ℕ)
    → to_int (pos fd) ≡ pos fd
    → ReadArgs (small_pcb (call_args fd (pos 600))) (pos fd) 500 (pos 10) 600
unfolding to_int
read_args fd e = record { fd_arg = e; buf_arg = refl; size_arg = refl; priority_arg = refl }

write_args :
    (fd : ℕ) (priority : ℤ)
    → to_int (pos fd) ≡ pos fd
    → to_int priority ≡ priority
    → WriteArgs (small_pcb (call_args fd priority)) (pos fd) 500 (pos 10) priority
unfolding to_int
write_args fd priority e e' = record {
  fd_arg = e;
  buf_arg = refl;
  size_arg = refl;
  priority_arg = e';
}

module _ (args : ℕ → ℤ) where
  below_one : (j : ℕ) → j < 1 → IsEmptyLevel (small_kernel level_1 args) (contents level_1) 10 j
  unfolding find_first
  below_one zero lt = record { some_queue = omega arith; nothing = refl }
  below_one (suc j) lt = absurd (omega arith)

  below_two : (j : ℕ) → j < 2 → IsEmptyLevel (small_kernel level_2 args) (contents level_2) 10 j
  unfolding find_first
  below_two zero lt = record { some_queue = omega arith; nothing = refl }
  below_two (suc zero) lt = record { some_queue = omega arith; nothing = refl }
  below_two (suc (suc j)) lt = absurd (omega arith)

internal_mq_read-Delivered_example :
    (l : ListMemory) × (k' : Kernel) × (internal_mq_read
        (small_kernel level_1 (call_args 0 (pos 600)))
      ≡ ok (tt, k'))
    × Delivered
        (record (small_kernel level_1 (call_args 0 (pos 600))) { lists = l })
        (update (contents level_1) 232 [])
        last_free
        (small_pcb (call_args 0 (pos 600)))
        10
        small_queue
        14
        small_message
        (pos 1)
        500
        600
        k'
unfolding find_first to_int
internal_mq_read-Delivered_example =
    internal_mq_read-Delivered (small_kernel-Runs level_1 (call_args 0 (pos 600)))
      (read_args 0 refl) last_free
      (small_kernel-IsKernel level_1 (call_args 0 (pos 600)) (omega arith))
      (small_kernel-IsTable level_1 (call_args 0 (pos 600))) refl
      (small_kernel-IsQueue level_1 (call_args 0 (pos 600))) (omega arith) refl (omega arith)
      (omega arith) 1 14 [] small_message refl (omega arith) (below_one (call_args 0 (pos 600)))
      (omega arith) refl refl (omega arith) refl

internal_mq_read-nothing_example :
    internal_mq_read (small_kernel level_2 (call_args 0 (pos 600)))
    ≡ ok (
      tt,
      with_running
          (small_kernel level_2 (call_args 0 (pos 600)))
          (record (small_pcb (call_args 0 (pos 600))) { syscall_retvalue = pos 0 }),
    )
unfolding find_first to_int
internal_mq_read-nothing_example =
    internal_mq_read-nothing (small_kernel-Runs level_2 (call_args 0 (pos 600))) (read_args 0 refl)
      last_free (small_kernel-IsKernel level_2 (call_args 0 (pos 600)) (omega arith))
      (small_kernel-IsTable level_2 (call_args 0 (pos 600))) refl
      (small_kernel-IsQueue level_2 (call_args 0 (pos 600))) (omega arith) refl (omega arith)
      (omega arith) (below_two (call_args 0 (pos 600)))

internal_mq_read-refused_example :
    internal_mq_read (small_kernel level_1 (call_args 7 (pos 600)))
    ≡ ok (
      tt,
      with_running
          (small_kernel level_1 (call_args 7 (pos 600)))
          (record (small_pcb (call_args 7 (pos 600))) { syscall_retvalue = dsos_emqread }),
    )
unfolding find_first to_int
internal_mq_read-refused_example =
    internal_mq_read-refused (small_kernel-Runs level_1 (call_args 7 (pos 600))) (read_args 7 refl)
      last_free (small_kernel-IsKernel level_1 (call_args 7 (pos 600)) (omega arith))
      (small_kernel-IsTable level_1 (call_args 7 (pos 600))) (inr refl)

internal_mq_write-refused_example :
    internal_mq_write (small_kernel level_1 (call_args 7 (pos 0)))
    ≡ ok (
      tt,
      with_running
          (small_kernel level_1 (call_args 7 (pos 0)))
          (record (small_pcb (call_args 7 (pos 0))) { syscall_retvalue = dsos_emqwrite }),
    )
unfolding find_first to_int
internal_mq_write-refused_example =
    internal_mq_write-refused (small_kernel-Runs level_1 (call_args 7 (pos 0)))
      (write_args 7 (pos 0) refl refl) last_free
      (small_kernel-IsKernel level_1 (call_args 7 (pos 0)) (omega arith))
      (small_kernel-IsTable level_1 (call_args 7 (pos 0))) (inr refl)

internal_mq_write-Written_example :
    (k' : Kernel) × (internal_mq_write (small_kernel level_1 (call_args 0 (pos 9))) ≡ ok (tt, k'))
    × Written
        (small_kernel level_1 (call_args 0 (pos 9)))
        (contents level_1)
        last_free
        (small_pcb (call_args 0 (pos 9)))
        10
        small_queue
        3
        []
        500
        (pos 10)
        (pos 2)
        k'
unfolding find_first to_int
internal_mq_write-Written_example =
    internal_mq_write-Written (small_kernel-Runs level_1 (call_args 0 (pos 9)))
      (write_args 0 (pos 9) refl refl) last_free
      (small_kernel-IsKernel level_1 (call_args 0 (pos 9)) (omega arith))
      (small_kernel-IsTable level_1 (call_args 0 (pos 9))) refl (omega arith) refl
      (small_kernel-IsQueue level_1 (call_args 0 (pos 9))) (omega arith) refl 3 [] refl
      (omega arith) refl

internal_mq_close-Closed_example :
    (k' : Kernel) × (internal_mq_close (small_kernel level_1 (call_args 0 (pos 0))) ≡ ok (tt, k'))
    × Closed
        (small_kernel level_1 (call_args 0 (pos 0)))
        (contents level_1)
        last_free
        (small_pcb (call_args 0 (pos 0)))
        11
        (record { pcb = 1; target = 10; fd = pos 0; ptr = 12 })
        []
        []
        []
        []
        k'
unfolding find_first to_int
internal_mq_close-Closed_example =
    internal_mq_close-Closed (small_kernel-IsKernel level_1 (call_args 0 (pos 0)) (omega arith))
      (small_kernel-Runs level_1 (call_args 0 (pos 0)))
      (record {
        some_des = omega arith;
        object = refl;
        some_target = omega arith;
        some_ptr = omega arith;
        entry_object = refl;
        in_table = refl;
        in_target = refl;
      })
      (small_kernel-IsTable level_1 (call_args 0 (pos 0))) refl refl

internal_mq_close-refused_example :
    internal_mq_close (small_kernel level_1 (call_args 7 (pos 0)))
    ≡ ok (
      tt,
      with_running
          (small_kernel level_1 (call_args 7 (pos 0)))
          (record (small_pcb (call_args 7 (pos 0))) { syscall_retvalue = dsos_emqclose }),
    )
unfolding find_first to_int
internal_mq_close-refused_example =
    internal_mq_close-refused last_free
      (small_kernel-IsKernel level_1 (call_args 7 (pos 0)) (omega arith))
      (small_kernel-Runs level_1 (call_args 7 (pos 0)))
      (small_kernel-IsTable level_1 (call_args 7 (pos 0))) (inr refl)

abbrev full_queue : MessageQueue
full_queue = record { id = pos 5; priority = pos 2; num_messages = pos 128 }

internal_mq_write-full_example :
    internal_mq_write (kernel_with full_queue level_1 (call_args 0 (pos 0)))
    ≡ ok (
      tt,
      with_running
          (kernel_with full_queue level_1 (call_args 0 (pos 0)))
          (record (small_pcb (call_args 0 (pos 0))) { syscall_retvalue = pos 0 }),
    )
unfolding find_first to_int
internal_mq_write-full_example =
    internal_mq_write-full (kernel_with-Runs full_queue level_1 (call_args 0 (pos 0)))
      (write_args 0 (pos 0) refl refl) last_free
      (kernel_with-IsKernel full_queue level_1 (call_args 0 (pos 0)) (omega arith))
      (kernel_with-IsTable full_queue level_1 (call_args 0 (pos 0))) refl (omega arith) refl
      (kernel_with-IsQueue full_queue level_1 (call_args 0 (pos 0))) (omega arith) refl refl

read_queue-write_queue_example :
    (k1 : Kernel) × (k2 : Kernel) × (write_queue 10 500
        (pos 7)
        (pos 0)
        (small_kernel level_1 (call_args 0 (pos 0)))
      ≡ ok (tt, k1))
    × (read_queue 10 800 (pos 7) 600 k1 ≡ ok (tt, k2))
    × (k2.object 1 ≡ pcb (record (small_pcb (call_args 0 (pos 0))) { syscall_retvalue = pos 7 }))
    × (k2.chars ≡ update (λ a. a % 256) 800 244)
    × (k2.ints ≡ update (λ a. pos 0) 600 (pos 0))
unfolding find_first
read_queue-write_queue_example =
    read_queue-write_queue (small_kernel-IsKernel level_1 (call_args 0 (pos 0)) (omega arith))
      (small_kernel-Runs level_1 (call_args 0 (pos 0)))
      (small_kernel-IsQueue level_1 (call_args 0 (pos 0))) 3 [] refl 1 2 refl (omega arith) refl 500
      (pos 7) 800 (pos 7) 600 (omega arith) (omega arith) 0 (omega arith) (omega arith) refl
      (λ d low. below_one (call_args 0 (pos 0)) d (omega arith))

read_queue-write_queue_last_example :
    (k1 : Kernel) × (k2 : Kernel) × (write_queue 10 500
        (pos 7)
        (pos 9)
        (small_kernel level_2 (call_args 0 (pos 0)))
      ≡ ok (tt, k1))
    × (read_queue 10 800 (pos 7) 600 k1 ≡ ok (tt, k2))
    × (k1.object 10 ≡ message_queue (record small_queue { num_messages = pos 2 }))
    × (k2.object 1 ≡ pcb (record (small_pcb (call_args 0 (pos 0))) { syscall_retvalue = pos 0 }))
    × (k2.chars ≡ (λ a. a % 256))
    × (k2.lists ≡ k1.lists)
unfolding find_first
read_queue-write_queue_last_example =
    read_queue-write_queue_last (small_kernel-IsKernel level_2 (call_args 0 (pos 0)) (omega arith))
      (small_kernel-Runs level_2 (call_args 0 (pos 0)))
      (small_kernel-IsQueue level_2 (call_args 0 (pos 0))) 3 [] refl 1 2 refl (omega arith) refl 500
      (pos 7) 800 (pos 7) 600 (omega arith) (omega arith) (pos 9) refl (omega arith)
      (below_two (call_args 0 (pos 0)))

read_queue-Lost_example :
    (k' : Kernel) × (read_queue 10 500 (pos 2) 600 (small_kernel level_1 (call_args 0 (pos 600)))
      ≡ ok (tt, k'))
    × Lost
        (small_kernel level_1 (call_args 0 (pos 600)))
        (update (contents level_1) 232 [])
        last_free
        (small_pcb (call_args 0 (pos 600)))
        14
        k'
unfolding find_first
read_queue-Lost_example =
    read_queue-Lost (small_kernel-IsKernel level_1 (call_args 0 (pos 600)) (omega arith))
      (small_kernel-Runs level_1 (call_args 0 (pos 600)))
      (small_kernel-IsQueue level_1 (call_args 0 (pos 600))) 1 14 [] small_message (omega arith)
      refl refl 500 (pos 2) 600 refl (omega arith)
      (λ j low ne. below_one (call_args 0 (pos 600)) j (omega arith)) refl
