-- ===== src/System/Calls.antt =====
-- The functions that a process calls (disastrOS.h): each enters the system with its number and its
-- arguments, which `va_arg` reads as `long`s.
use disastr_os_message_queue.Base.{
  ℕ, zero, suc, ℤ, pos, negsuc, Option, List, [], ◌∷◌, ◌==◌, if◌then◌else◌,
}
use disastr_os_message_queue.Kernel.Constants.{
  dsos_call_fork, dsos_call_wait, dsos_call_exit, dsos_call_preempt, dsos_call_spawn,
  dsos_call_shutdown, dsos_call_sleep, dsos_call_open_resource, dsos_call_close_resource,
  dsos_call_destroy_resource, dsos_call_semopen, dsos_call_semclose, dsos_call_sempost,
  dsos_call_semwait, dsos_call_mqopen, dsos_call_mqclose, dsos_call_mqread, dsos_call_mqwrite,
  dsos_call_mqunlink,
}
use disastr_os_message_queue.Kernel.Cmd.{Cmd, ◌>>=◌, gets, pure, running_pcb}
use disastr_os_message_queue.System.{disastr_os_syscall}

-- The arguments behind the number; those past the last are not read.
abbrev pub args_of : List ℤ → ℕ → ℤ
args_of [] i = pos 0
args_of (x ∷ xs) zero = x
args_of (x ∷ xs) (suc i) = args_of xs i

unfoldable pub disastr_os_fork : Cmd (Option ℤ)
disastr_os_fork = disastr_os_syscall dsos_call_fork (args_of ([]))

unfoldable pub disastr_os_wait : (pid retval : ℤ) → Cmd (Option ℤ)
disastr_os_wait pid retval = disastr_os_syscall dsos_call_wait (args_of (pid ∷ retval ∷ []))

unfoldable pub disastr_os_exit : (exitval : ℤ) → Cmd (Option ℤ)
disastr_os_exit exitval = disastr_os_syscall dsos_call_exit (args_of (exitval ∷ []))

unfoldable pub disastr_os_preempt : Cmd (Option ℤ)
disastr_os_preempt = disastr_os_syscall dsos_call_preempt (args_of ([]))

unfoldable pub disastr_os_spawn : (f args : ℤ) → Cmd (Option ℤ)
disastr_os_spawn f args = disastr_os_syscall dsos_call_spawn (args_of (f ∷ args ∷ []))

unfoldable pub disastr_os_shutdown : Cmd (Option ℤ)
disastr_os_shutdown = disastr_os_syscall dsos_call_shutdown (args_of ([]))

unfoldable pub disastr_os_sleep : (sleep_time : ℤ) → Cmd (Option ℤ)
disastr_os_sleep sleep_time = disastr_os_syscall dsos_call_sleep (args_of (sleep_time ∷ []))

unfoldable pub disastr_os_open_resource : (resource_id type mode : ℤ) → Cmd (Option ℤ)
disastr_os_open_resource resource_id type mode =
    disastr_os_syscall dsos_call_open_resource (args_of (resource_id ∷ type ∷ mode ∷ []))

unfoldable pub disastr_os_close_resource : (fd : ℤ) → Cmd (Option ℤ)
disastr_os_close_resource fd = disastr_os_syscall dsos_call_close_resource (args_of (fd ∷ []))

unfoldable pub disastr_os_destroy_resource : (resource_id : ℤ) → Cmd (Option ℤ)
disastr_os_destroy_resource resource_id =
    disastr_os_syscall dsos_call_destroy_resource (args_of (resource_id ∷ []))

unfoldable pub disastr_os_sem_open : (id flags count : ℤ) → Cmd (Option ℤ)
disastr_os_sem_open id flags count =
    disastr_os_syscall dsos_call_semopen (args_of (id ∷ flags ∷ count ∷ []))

unfoldable pub disastr_os_sem_close : (fd : ℤ) → Cmd (Option ℤ)
disastr_os_sem_close fd = disastr_os_syscall dsos_call_semclose (args_of (fd ∷ []))

unfoldable pub disastr_os_sem_post : (fd : ℤ) → Cmd (Option ℤ)
disastr_os_sem_post fd = disastr_os_syscall dsos_call_sempost (args_of (fd ∷ []))

unfoldable pub disastr_os_sem_wait : (fd : ℤ) → Cmd (Option ℤ)
disastr_os_sem_wait fd = disastr_os_syscall dsos_call_semwait (args_of (fd ∷ []))

unfoldable pub disastr_os_mq_open : (id flags priority : ℤ) → Cmd (Option ℤ)
disastr_os_mq_open id flags priority =
    disastr_os_syscall dsos_call_mqopen (args_of (id ∷ flags ∷ priority ∷ []))

unfoldable pub disastr_os_mq_close : (fd : ℤ) → Cmd (Option ℤ)
disastr_os_mq_close fd = disastr_os_syscall dsos_call_mqclose (args_of (fd ∷ []))

unfoldable pub disastr_os_mq_read : (fd buf buf_size priority : ℤ) → Cmd (Option ℤ)
disastr_os_mq_read fd buf buf_size priority =
    disastr_os_syscall dsos_call_mqread (args_of (fd ∷ buf ∷ buf_size ∷ priority ∷ []))

unfoldable pub disastr_os_mq_write : (fd buf buf_size priority : ℤ) → Cmd (Option ℤ)
disastr_os_mq_write fd buf buf_size priority =
    disastr_os_syscall dsos_call_mqwrite (args_of (fd ∷ buf ∷ buf_size ∷ priority ∷ []))

unfoldable pub disastr_os_mq_unlink : (id : ℤ) → Cmd (Option ℤ)
disastr_os_mq_unlink id = disastr_os_syscall dsos_call_mqunlink (args_of (id ∷ []))

-- The process number, or -1 when no process runs.
unfoldable pub disastr_os_getpid : Cmd ℤ
disastr_os_getpid = do
  self ← gets (λ k. k.running)
  if self == 0 then pure (negsuc 0) else do r ← running_pcb; pure r.pid
