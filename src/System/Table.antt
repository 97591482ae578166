-- ===== src/System/Table.antt =====
-- Each function that a process calls reaches its handler with its arguments.
use disastr_os_message_queue.Base.{
  ℕ, zero, suc, length, arith, fun_ext, ap, ◌∙◌, ◌≡◌, refl, ℤ, ok, Run, and_then, Option, none,
  some, List, [], ◌∷◌, false, pos, eqb_ℤ,
}
use disastr_os_message_queue.Kernel.Constants.{
  dsos_max_syscalls, dsos_call_preempt, dsos_call_fork, dsos_call_spawn, dsos_call_wait,
  dsos_call_exit, dsos_call_sleep, dsos_call_open_resource, dsos_call_close_resource,
  dsos_call_destroy_resource, dsos_call_shutdown, dsos_call_semopen, dsos_call_semclose,
  dsos_call_sempost, dsos_call_semwait, dsos_call_mqopen, dsos_call_mqclose, dsos_call_mqread,
  dsos_call_mqwrite, dsos_call_mqunlink,
}
use disastr_os_message_queue.Kernel.Object.{Pcb}
use disastr_os_message_queue.Kernel.State.{Kernel}
use disastr_os_message_queue.Kernel.Cmd.{Cmd}
use disastr_os_message_queue.Kernel.Laws.{Runs, with_running}
use disastr_os_message_queue.Processes.{internal_preempt, internal_sleep}
use disastr_os_message_queue.Processes.Create.{internal_fork, internal_spawn}
use disastr_os_message_queue.Processes.Wait.{internal_wait}
use disastr_os_message_queue.Processes.Exit.{internal_exit}
use disastr_os_message_queue.Resources.Open.{internal_open_resource}
use disastr_os_message_queue.Resources.Close.{internal_close_resource}
use disastr_os_message_queue.Resources.Destroy.{internal_destroy_resource}
use disastr_os_message_queue.Semaphores.Open.{internal_sem_open}
use disastr_os_message_queue.Semaphores.Close.{internal_sem_close}
use disastr_os_message_queue.Semaphores.Wait.{internal_sem_wait}
use disastr_os_message_queue.Semaphores.Post.{internal_sem_post}
use disastr_os_message_queue.MessageQueues.Open.{internal_mq_open}
use disastr_os_message_queue.MessageQueues.Close.{internal_mq_close}
use disastr_os_message_queue.MessageQueues.Read.{internal_mq_read}
use disastr_os_message_queue.MessageQueues.Write.{internal_mq_write}
use disastr_os_message_queue.MessageQueues.Unlink.{internal_mq_unlink}
use disastr_os_message_queue.System.{
  handlers, entry_of, bad_number, copy_args, numarg, disastr_os_syscall, internal_shutdown,
}
use disastr_os_message_queue.System.Calls.{
  args_of, disastr_os_preempt, disastr_os_fork, disastr_os_spawn, disastr_os_wait, disastr_os_exit,
  disastr_os_sleep, disastr_os_open_resource, disastr_os_close_resource,
  disastr_os_destroy_resource, disastr_os_shutdown, disastr_os_sem_open, disastr_os_sem_close,
  disastr_os_sem_post, disastr_os_sem_wait, disastr_os_mq_open, disastr_os_mq_close,
  disastr_os_mq_read, disastr_os_mq_write, disastr_os_mq_unlink,
}
use disastr_os_message_queue.System.Dispatch.{disastr_os_syscall-handler}

-- The argument array with these values in its first places, and the old ones behind them.
abbrev pub placed : List ℤ → (ℕ → ℤ) → ℕ → ℤ
placed [] old i = old i
placed (x ∷ xs) old zero = x
placed (x ∷ xs) old (suc i) = placed xs (λ j. old (suc j)) i

copy_args-args_of :
    (xs : List ℤ) (old : ℕ → ℤ) (i : ℕ) → copy_args (length xs) (args_of xs) old i ≡ placed xs old i
unfolding copy_args
copy_args-args_of [] old i = ground arith
copy_args-args_of (x ∷ xs) old zero = ground arith
copy_args-args_of (x ∷ xs) old (suc i) = ground (arith, copy_args-args_of xs (λ j. old (suc j)) i)

-- The run of a handler for the call `num` of the process `r` with these arguments.
abbrev pub handled : Kernel → Pcb → ℤ → List ℤ → Cmd (Unit {0}) → Run (Option ℤ × Kernel)
handled k r num args handler =
    and_then
      (handler (
        with_running k (record r { syscall_num = num; syscall_args = placed args r.syscall_args })))
      λ (x, k'). ok (none, k')

-- Each function runs its handler, with its number and its arguments in the control block.
abbrev pub CallsHandled :
    Kernel
    → Pcb
    → (f args pid retval exitval sleep_time resource_id type mode fd id flags count priority buf
        buf_size : ℤ)
    → Type 0
CallsHandled k r f args pid retval exitval sleep_time resource_id type mode fd id flags count
      priority buf buf_size =
    (disastr_os_preempt k ≡ handled k r dsos_call_preempt ([]) internal_preempt)
    × (disastr_os_fork k ≡ handled k r dsos_call_fork ([]) internal_fork)
    × (disastr_os_spawn f args k ≡ handled k r dsos_call_spawn (f ∷ args ∷ []) internal_spawn)
    × (disastr_os_wait pid retval k ≡ handled k r dsos_call_wait (pid ∷ retval ∷ []) internal_wait)
    × (disastr_os_exit exitval k ≡ handled k r dsos_call_exit (exitval ∷ []) internal_exit)
    × (disastr_os_sleep sleep_time k ≡ handled k r dsos_call_sleep (sleep_time ∷ []) internal_sleep)
    × (disastr_os_open_resource resource_id type mode k
        ≡ handled k r dsos_call_open_resource (resource_id ∷ type ∷ mode ∷ [])
            internal_open_resource)
    × (disastr_os_close_resource fd k
        ≡ handled k r dsos_call_close_resource (fd ∷ []) internal_close_resource)
    × (disastr_os_destroy_resource resource_id k
        ≡ handled k r dsos_call_destroy_resource (resource_id ∷ []) internal_destroy_resource)
    × (disastr_os_shutdown k ≡ handled k r dsos_call_shutdown ([]) internal_shutdown)
    × (disastr_os_sem_open id flags count k
        ≡ handled k r dsos_call_semopen (id ∷ flags ∷ count ∷ []) internal_sem_open)
    × (disastr_os_sem_close fd k ≡ handled k r dsos_call_semclose (fd ∷ []) internal_sem_close)
    × (disastr_os_sem_post fd k ≡ handled k r dsos_call_sempost (fd ∷ []) internal_sem_post)
    × (disastr_os_sem_wait fd k ≡ handled k r dsos_call_semwait (fd ∷ []) internal_sem_wait)
    × (disastr_os_mq_open id flags priority k
        ≡ handled k r dsos_call_mqopen (id ∷ flags ∷ priority ∷ []) internal_mq_open)
    × (disastr_os_mq_close fd k ≡ handled k r dsos_call_mqclose (fd ∷ []) internal_mq_close)
    × (disastr_os_mq_read fd buf buf_size priority k
        ≡ handled k r dsos_call_mqread (fd ∷ buf ∷ buf_size ∷ priority ∷ []) internal_mq_read)
    × (disastr_os_mq_write fd buf buf_size priority k
        ≡ handled k r dsos_call_mqwrite (fd ∷ buf ∷ buf_size ∷ priority ∷ []) internal_mq_write)
    × (disastr_os_mq_unlink id k ≡ handled k r dsos_call_mqunlink (id ∷ []) internal_mq_unlink)

module _ (k : Kernel) (r : Pcb) (run : Runs k r) where
  -- A call of a number that has a handler for as many arguments.
  reaches :
      (num : ℤ) (args : List ℤ)
      → bad_number num ≡ false
      → eqb_ℤ num (pos dsos_max_syscalls) ≡ false
      → (handler : Cmd (Unit {0})) → entry_of num handlers ≡ some (length args, handler)
      → disastr_os_syscall num (args_of args) k ≡ handled k r num args handler
  reaches num args good in_table handler entry =
      disastr_os_syscall-handler k r run num (args_of args) good in_table (length args) handler
        entry
      ∙ ap
          (λ (a : ℕ → ℤ).
            and_then (handler (with_running k (record r { syscall_num = num; syscall_args = a })))
              λ (x, k'). ok (none, k'))
          (fun_ext λ i. rw (numarg, entry) (copy_args-args_of args r.syscall_args i))

  -- When a process runs: each of the 19 functions that a process calls is its handler, run on the
  -- kernel in which the control block has the number of the call and, in its first places for
  -- arguments, the arguments of the function in their order, with the old values behind them.
  pub disastr_os_calls-handled :
      (f args pid retval exitval sleep_time resource_id type mode fd id flags count priority buf
        buf_size : ℤ)
      → CallsHandled k r f args pid retval exitval sleep_time resource_id type mode fd id flags
          count priority buf buf_size
  unfolding entry_of handlers disastr_os_preempt disastr_os_fork disastr_os_spawn disastr_os_wait
      disastr_os_exit disastr_os_sleep disastr_os_open_resource disastr_os_close_resource
      disastr_os_destroy_resource disastr_os_shutdown disastr_os_sem_open disastr_os_sem_close
      disastr_os_sem_post disastr_os_sem_wait disastr_os_mq_open disastr_os_mq_close
      disastr_os_mq_read disastr_os_mq_write disastr_os_mq_unlink
  disastr_os_calls-handled f args pid retval exitval sleep_time resource_id type mode fd id flags
        count priority buf buf_size =
      (
        reaches dsos_call_preempt ([]) refl refl internal_preempt refl,
        reaches dsos_call_fork ([]) refl refl internal_fork refl,
        reaches dsos_call_spawn (f ∷ args ∷ []) refl refl internal_spawn refl,
        reaches dsos_call_wait (pid ∷ retval ∷ []) refl refl internal_wait refl,
        reaches dsos_call_exit (exitval ∷ []) refl refl internal_exit refl,
        reaches dsos_call_sleep (sleep_time ∷ []) refl refl internal_sleep refl,
        reaches dsos_call_open_resource (resource_id ∷ type ∷ mode ∷ []) refl refl
            internal_open_resource refl,
        reaches dsos_call_close_resource (fd ∷ []) refl refl internal_close_resource refl,
        reaches dsos_call_destroy_resource (resource_id ∷ []) refl refl internal_destroy_resource
            refl,
        reaches dsos_call_shutdown ([]) refl refl internal_shutdown refl,
        reaches dsos_call_semopen (id ∷ flags ∷ count ∷ []) refl refl internal_sem_open refl,
        reaches dsos_call_semclose (fd ∷ []) refl refl internal_sem_close refl,
        reaches dsos_call_sempost (fd ∷ []) refl refl internal_sem_post refl,
        reaches dsos_call_semwait (fd ∷ []) refl refl internal_sem_wait refl,
        reaches dsos_call_mqopen (id ∷ flags ∷ priority ∷ []) refl refl internal_mq_open refl,
        reaches dsos_call_mqclose (fd ∷ []) refl refl internal_mq_close refl,
        reaches dsos_call_mqread (fd ∷ buf ∷ buf_size ∷ priority ∷ []) refl refl internal_mq_read
            refl,
        reaches dsos_call_mqwrite (fd ∷ buf ∷ buf_size ∷ priority ∷ []) refl refl internal_mq_write
            refl,
        reaches dsos_call_mqunlink (id ∷ []) refl refl internal_mq_unlink refl,
      )
