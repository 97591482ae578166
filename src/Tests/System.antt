-- ===== src/Tests/System.antt =====
-- The start and the entry of the system calls on concrete kernels.
use disastr_os_message_queue.Base.{◌+◌, ◌*◌, ◌≡◌, refl, arith, true, pos, ok, none}
use disastr_os_message_queue.LinkedList.Chain.{item_at}
use disastr_os_message_queue.Kernel.Constants.{dsos_esyscall_not_implemented}
use disastr_os_message_queue.Kernel.Object.{blank, running}
use disastr_os_message_queue.Kernel.State.{Kernel}
use disastr_os_message_queue.System.{disastr_os_syscall, handlers, entry_of}
use disastr_os_message_queue.System.Dispatch.{answered, disastr_os_syscall-not_implemented}
use disastr_os_message_queue.System.Table.{CallsHandled, disastr_os_calls-handled}
use disastr_os_message_queue.System.Start.{disastr_os_start}
use disastr_os_message_queue.System.Start.Boot.{Booted, IsZeroed, disastr_os_start-Booted}
use disastr_os_message_queue.Tests.Busy.{busy_kernel, busy_pcb, busy_pool, busy_kernel-Runs}

-- The memory before the start.
abbrev zeroed : Kernel
zeroed = record {
  lists = record {
    head = λ h. record { first = 0; last = 0; size = pos 0 };
    item = λ a. item_at 0 0;
  };
  object = λ a. blank;
  pool = λ code. busy_pool;
  init_pcb = 0;
  running = 0;
  last_pid = pos 1;
  disastr_os_time = pos 0;
  shutdown_now = pos 0;
  chars = λ a. 0;
  ints = λ a. pos 0;
}

zeroed-IsZeroed : IsZeroed zeroed
zeroed-IsZeroed = record {
  heads = λ h. refl;
  items = λ a. refl;
  objects = λ a. refl;
  shutdown = refl;
}

disastr_os_start-Booted_example :
    (k' : Kernel) × (disastr_os_start (λ code. 64) (λ code. 4096 * (code + 1)) zeroed
      ≡ ok (true, k'))
    × Booted zeroed k'
disastr_os_start-Booted_example =
    disastr_os_start-Booted (λ code. 64) (λ code. 4096 * (code + 1)) (λ code. omega arith)
      (λ code. omega arith) zeroed zeroed-IsZeroed

disastr_os_syscall-not_implemented_example :
    disastr_os_syscall (pos 30) (λ i. pos 0) busy_kernel
    ≡ ok (
      none,
      answered busy_kernel
          (record (busy_pcb running) { syscall_num = pos 30 })
          dsos_esyscall_not_implemented,
    )
unfolding entry_of handlers
disastr_os_syscall-not_implemented_example =
    disastr_os_syscall-not_implemented busy_kernel (busy_pcb running) busy_kernel-Runs (pos 30)
      (λ i. pos 0) refl refl refl

disastr_os_calls-handled_example :
    CallsHandled busy_kernel
      (busy_pcb running)
      (pos 1)
      (pos 2)
      (pos 3)
      (pos 4)
      (pos 5)
      (pos 6)
      (pos 7)
      (pos 8)
      (pos 9)
      (pos 10)
      (pos 11)
      (pos 12)
      (pos 13)
      (pos 14)
      (pos 15)
      (pos 16)
disastr_os_calls-handled_example =
    disastr_os_calls-handled busy_kernel (busy_pcb running) busy_kernel-Runs (pos 1) (pos 2) (pos 3)
      (pos 4) (pos 5) (pos 6) (pos 7) (pos 8) (pos 9) (pos 10) (pos 11) (pos 12) (pos 13) (pos 14)
      (pos 15) (pos 16)
