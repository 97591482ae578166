-- ===== src/Semaphores/Close.antt =====
-- disastrOS_semclose.c
use disastr_os_message_queue.Base.{ℕ, ◌==◌, ◌||◌, if◌then◌else◌, pos, ◌-ℤ◌, ltb_ℤ, eqb_ℤ}
use disastr_os_message_queue.Kernel.Constants.{
  max_num_semdescriptors_per_process, dsos_esemaphoreclose,
}
use disastr_os_message_queue.Kernel.State.{semaphores_list, sem_descriptors, target_descriptors}
use disastr_os_message_queue.Kernel.Cmd.{
  Cmd, ◌>>=◌, ◌>>◌, gets, head_of, detach, load, as_sem_descriptor, update_running, set_retvalue,
  int_arg,
}
use disastr_os_message_queue.Semaphores.Blocks.{
  sem_descriptor_list_by_fd, sem_descriptor_free, sem_descriptor_ptr_free, semaphore_free,
}

-- A semaphore with no entry left is destroyed.
unfoldable pub drop_unused : ℕ → Cmd (Unit {0})
drop_unused sem = do
  entries ← head_of (target_descriptors sem)
  if eqb_ℤ entries.size (pos 0)
      then (do
        found ← detach semaphores_list sem
        if found == 0
            then set_retvalue dsos_esemaphoreclose
            else do semaphore_free found; set_retvalue (pos 0))
      else set_retvalue (pos 0)

-- Once the descriptor is found.
unfoldable pub close_descriptor : ℕ → ℕ → Cmd (Unit {0})
close_descriptor self des = do
  d ← load as_sem_descriptor des
  if d.target == 0 then set_retvalue dsos_esemaphoreclose else do
    detach (sem_descriptors self) des
    if d.ptr == 0 then set_retvalue dsos_esemaphoreclose else do
      detach (target_descriptors d.target) d.ptr
      sem_descriptor_free des
      sem_descriptor_ptr_free d.ptr
      update_running (λ p. record p { last_sem_fd = p.last_sem_fd -ℤ pos 1 })
      drop_unused d.target

-- `internal_semClose`
unfoldable pub internal_sem_close : Cmd (Unit {0})
internal_sem_close = do
  fd ← int_arg 0
  if ltb_ℤ fd (pos 0) || ltb_ℤ (pos max_num_semdescriptors_per_process) fd
      then set_retvalue dsos_esemaphoreclose
      else do
        self ← gets (λ k. k.running)
        des ← sem_descriptor_list_by_fd (sem_descriptors self) fd
        if des == 0 then set_retvalue dsos_esemaphoreclose else close_descriptor self des
