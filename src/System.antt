-- ===== src/System.antt =====
-- disastrOS.c: how a process enters a system call, which handler it reaches, and the start.
pub mod Calls
pub mod Start
pub mod Dispatch
pub mod Table
use disastr_os_message_queue.Base.{
  ℕ, Bool, ◌||◌, if◌then◌else◌, ℤ, pos, ltb, ltb_ℤ, eqb_ℤ, Option, none, some, List, [], ◌∷◌,
}
use disastr_os_message_queue.Kernel.Constants.{
  dsos_call_preempt, dsos_call_fork, dsos_call_spawn, dsos_call_wait, dsos_call_exit,
  dsos_call_sleep, dsos_call_open_resource, dsos_call_close_resource, dsos_call_destroy_resource,
  dsos_call_shutdown, dsos_call_semopen, dsos_call_semclose, dsos_call_sempost, dsos_call_semwait,
  dsos_call_mqopen, dsos_call_mqclose, dsos_call_mqread, dsos_call_mqwrite, dsos_call_mqunlink,
  dsos_max_syscalls, dsos_esyscall_not_implemented, dsos_esyscall_out_of_range,
}
use disastr_os_message_queue.Kernel.State.{Kernel}
use disastr_os_message_queue.Kernel.Cmd.{
  Cmd, ◌>>=◌, ◌>>◌, skip, pure, modify, failure, running_pcb, update_running, set_retvalue,
}
use disastr_os_message_queue.Processes.{internal_preempt, internal_sleep}
use disastr_os_message_queue.Processes.Create.{internal_fork, internal_spawn}
use disastr_os_message_queue.Processes.Wait.{internal_wait}
use disastr_os_message_queue.Processes.Exit.{internal_exit}
use disastr_os_message_queue.Resources.Open.{internal_open_resource}
use disastr_os_message_queue.Resources.Close.{internal_close_resource}
use disastr_os_message_queue.Resources.Destroy.{internal_destroy_resource}
use disastr_os_message_queue.Semaphores.Open.{internal_sem_open}
use disastr_os_message_queue.Semaphores.Close.{internal_sem_close}
use disastr_os_message_queue.Semaphores.Wait.{internal_sem_wait}
use disastr_os_message_queue.Semaphores.Post.{internal_sem_post}
use disastr_os_message_queue.MessageQueues.Open.{internal_mq_open}
use disastr_os_message_queue.MessageQueues.Close.{internal_mq_close}
use disastr_os_message_queue.MessageQueues.Read.{internal_mq_read}
use disastr_os_message_queue.MessageQueues.Write.{internal_mq_write}
use disastr_os_message_queue.MessageQueues.Unlink.{internal_mq_unlink}

-- `internal_shutdown`, up to the return to the main context.
unfoldable pub internal_shutdown : Cmd (Unit {0})
internal_shutdown = modify λ k. record k { shutdown_now = pos 1 }

-- `syscall_vector` and `syscall_numarg`, as `disastrOS_start` fills them: by number, the count of
-- arguments and the handler.
unfoldable pub handlers : List (ℤ × ℕ × Cmd (Unit {0}))
handlers =
    (dsos_call_preempt, 0, internal_preempt)
    ∷ (dsos_call_fork, 0, internal_fork)
    ∷ (dsos_call_spawn, 2, internal_spawn)
    ∷ (dsos_call_wait, 2, internal_wait)
    ∷ (dsos_call_exit, 1, internal_exit)
    ∷ (dsos_call_sleep, 1, internal_sleep)
    ∷ (dsos_call_open_resource, 3, internal_open_resource)
    ∷ (dsos_call_close_resource, 1, internal_close_resource)
    ∷ (dsos_call_destroy_resource, 1, internal_destroy_resource)
    ∷ (dsos_call_shutdown, 0, internal_shutdown)
    ∷ (dsos_call_semopen, 3, internal_sem_open)
    ∷ (dsos_call_semclose, 1, internal_sem_close)
    ∷ (dsos_call_sempost, 1, internal_sem_post)
    ∷ (dsos_call_semwait, 1, internal_sem_wait)
    ∷ (dsos_call_mqopen, 3, internal_mq_open)
    ∷ (dsos_call_mqclose, 1, internal_mq_close)
    ∷ (dsos_call_mqread, 4, internal_mq_read)
    ∷ (dsos_call_mqwrite, 4, internal_mq_write)
    ∷ (dsos_call_mqunlink, 1, internal_mq_unlink)
    ∷ []

-- The entry of a number in the tables, if it is set.
unfoldable pub entry_of : ℤ → List (ℤ × ℕ × Cmd (Unit {0})) → Option (ℕ × Cmd (Unit {0}))
entry_of num [] = none
entry_of num ((n, nargs, handler) ∷ entries) =
    if eqb_ℤ num n then some (nargs, handler) else entry_of num entries

-- `syscall_num < 0 || syscall_num > DSOS_MAX_SYSCALLS`
abbrev pub bad_number : ℤ → Bool
bad_number num = ltb_ℤ num (pos 0) || ltb_ℤ (pos dsos_max_syscalls) num

-- `disastrOS_trap`, up to the return to the running process. The number `DSOS_MAX_SYSCALLS` is past
-- the end of the table.
unfoldable pub disastr_os_trap : Cmd (Unit {0})
disastr_os_trap = do
  r ← running_pcb
  if bad_number r.syscall_num
      then set_retvalue dsos_esyscall_out_of_range
      else if eqb_ℤ r.syscall_num (pos dsos_max_syscalls)
      then failure
      else elim (entry_of r.syscall_num handlers) [
        | none ↦ set_retvalue dsos_esyscall_not_implemented
        | some (nargs, handler) ↦ handler
      ]

-- The copy of the arguments, as `va_arg` reads them, into the control block.
unfoldable pub copy_args : ℕ → (ℕ → ℤ) → (ℕ → ℤ) → ℕ → ℤ
copy_args nargs args old i = if ltb i nargs then args i else old i

-- `syscall_numarg[num]`; an entry that is not set is 0.
abbrev pub numarg : ℤ → ℕ
numarg num = elim (entry_of num handlers) [ none ↦ 0 | some (nargs, handler) ↦ nargs ]

-- `disastrOS_syscall`, from the call by the process to the end of the trap: the result says whether
-- the number was refused at once.
unfoldable pub disastr_os_syscall : ℤ → (ℕ → ℤ) → Cmd (Option ℤ)
disastr_os_syscall num args = do
  running_pcb
  if bad_number num
      then pure (some dsos_esyscall_out_of_range)
      else if eqb_ℤ num (pos dsos_max_syscalls)
      then failure
      else do
        update_running (λ r. record r {
          syscall_num = num;
          syscall_args = copy_args (numarg num) args r.syscall_args;
        })
        disastr_os_trap
        pure none
