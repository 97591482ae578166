-- ===== src/Semaphores/Post.antt =====
-- disastrOS_sempost.c
pub mod Awake
use disastr_os_message_queue.Base.{ℕ, ◌==◌, ◌||◌, if◌then◌else◌, pos, ◌+ℤ◌, ◌-ℤ◌, ltb_ℤ, eqb_ℤ}
use disastr_os_message_queue.Kernel.Constants.{
  max_num_semdescriptors_per_process, dsos_esemaphorepost,
}
use disastr_os_message_queue.Kernel.Object.{semaphore}
use disastr_os_message_queue.Kernel.State.{
  sem_descriptors, target_descriptors, waiting_descriptors, ready_list, waiting_list,
}
use disastr_os_message_queue.Kernel.Cmd.{
  Cmd, ◌>>=◌, ◌>>◌, skip, gets, head_of, insert_last, detach, load, store, as_sem_descriptor,
  as_sem_descriptor_ptr, as_semaphore, set_retvalue, int_arg,
}
use disastr_os_message_queue.Semaphores.Blocks.{sem_descriptor_list_by_fd}

-- The first waiting entry goes back to the semaphore and its process to the ready list. The return
-- value of the caller is left as it was.
unfoldable pub awake_first : ℕ → Cmd (Unit {0})
awake_first sem = do
  r ← load as_semaphore sem
  store sem (semaphore (record r { count = r.count -ℤ pos 1 }))
  waiting ← head_of (waiting_descriptors sem)
  entry ← detach (waiting_descriptors sem) waiting.first
  e ← load as_sem_descriptor_ptr entry
  d ← load as_sem_descriptor e.descriptor
  if d.pcb == 0 then set_retvalue dsos_esemaphorepost else do
    detach waiting_list d.pcb
    insert_last ready_list d.pcb
    insert_last (target_descriptors sem) entry
    skip

-- Once the semaphore is known.
unfoldable pub post_semaphore : ℕ → Cmd (Unit {0})
post_semaphore sem = do
  r ← load as_semaphore sem
  store sem (semaphore (record r { count = r.count +ℤ pos 1 }))
  if ltb_ℤ (pos 0) (r.count +ℤ pos 1)
      then (do
        waiting ← head_of (waiting_descriptors sem)
        if eqb_ℤ waiting.size (pos 0) then set_retvalue (pos 0) else awake_first sem)
      else set_retvalue (pos 0)

-- `internal_semPost`
unfoldable pub internal_sem_post : Cmd (Unit {0})
internal_sem_post = do
  fd ← int_arg 0
  if ltb_ℤ fd (pos 0) || ltb_ℤ (pos max_num_semdescriptors_per_process) fd
      then set_retvalue dsos_esemaphorepost
      else do
        self ← gets (λ k. k.running)
        des ← sem_descriptor_list_by_fd (sem_descriptors self) fd
        if des == 0 then set_retvalue dsos_esemaphorepost else do
          d ← load as_sem_descriptor des
          if d.target == 0 then set_retvalue dsos_esemaphorepost else post_semaphore d.target
