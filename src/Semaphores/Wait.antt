-- ===== src/Semaphores/Wait.antt =====
-- disastrOS_semwait.c
pub mod Block
use disastr_os_message_queue.Base.{ℕ, ◌==◌, ◌||◌, if◌then◌else◌, pos, ◌-ℤ◌, ltb_ℤ}
use disastr_os_message_queue.Kernel.Constants.{
  max_num_semdescriptors_per_process, dsos_esemaphorewait,
}
use disastr_os_message_queue.Kernel.Object.{semaphore}
use disastr_os_message_queue.Kernel.State.{
  sem_descriptors, target_descriptors, waiting_descriptors, ready_list, waiting_list,
}
use disastr_os_message_queue.Kernel.Cmd.{
  Cmd, ◌>>=◌, ◌>>◌, gets, modify, head_of, insert_last, detach, load, store, as_sem_descriptor,
  as_semaphore, set_retvalue, int_arg,
}
use disastr_os_message_queue.Semaphores.Blocks.{sem_descriptor_list_by_fd}

-- With no resource left the entry moves to the waiting list of the semaphore and the process to that
-- of the system. (`List_detach` of the first ready process dereferences NULL if there is none.)
unfoldable pub block_on : ℕ → ℕ → ℕ → Cmd (Unit {0})
block_on self sem ptr = if ptr == 0 then set_retvalue dsos_esemaphorewait else do
  entry ← detach (target_descriptors sem) ptr
  if entry == 0 then set_retvalue dsos_esemaphorewait else do
    insert_last (waiting_descriptors sem) entry
    ready ← head_of ready_list
    next ← detach ready_list ready.first
    if next == 0
        then set_retvalue dsos_esemaphorewait
        else do insert_last waiting_list self; modify (λ k. record k { running = next })

-- Once the descriptor is found.
unfoldable pub wait_descriptor : ℕ → ℕ → Cmd (Unit {0})
wait_descriptor self des = do
  d ← load as_sem_descriptor des
  if d.target == 0 then set_retvalue dsos_esemaphorewait else do
    sem ← load as_semaphore d.target
    if ltb_ℤ (pos 0) sem.count
        then (do
          store d.target (semaphore (record sem { count = sem.count -ℤ pos 1 }))
          set_retvalue (pos 0))
        else block_on self d.target d.ptr

-- `internal_semWait`
unfoldable pub internal_sem_wait : Cmd (Unit {0})
internal_sem_wait = do
  fd ← int_arg 0
  if ltb_ℤ fd (pos 0) || ltb_ℤ (pos max_num_semdescriptors_per_process) fd
      then set_retvalue dsos_esemaphorewait
      else do
        self ← gets (λ k. k.running)
        des ← sem_descriptor_list_by_fd (sem_descriptors self) fd
        if des == 0 then set_retvalue dsos_esemaphorewait else wait_descriptor self des
