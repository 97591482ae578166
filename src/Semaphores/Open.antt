-- ===== src/Semaphores/Open.antt =====
-- disastrOS_semopen.c
use disastr_os_message_queue.Base.{
  ℕ, ◌==◌, ◌&&◌, not, if◌then◌else◌, ℤ, pos, ◌+ℤ◌, ◌-ℤ◌, ltb_ℤ, has_bit, low_word, to_int,
}
use disastr_os_message_queue.Kernel.Constants.{
  max_num_semdescriptors_per_process, max_num_semaphores, dsos_esemaphoreopen, dsos_create_bit,
  dsos_excl_bit,
}
use disastr_os_message_queue.Kernel.Object.{sem_descriptor}
use disastr_os_message_queue.Kernel.State.{semaphores_list, sem_descriptors, target_descriptors}
use disastr_os_message_queue.Kernel.Cmd.{
  Cmd, ◌>>=◌, ◌>>◌, gets, head_of, insert_last, load, store, as_sem_descriptor, running_pcb,
  update_running, set_retvalue, int_arg,
}
use disastr_os_message_queue.Semaphores.Blocks.{
  semaphore_alloc, semaphore_list_by_id, sem_descriptor_alloc, sem_descriptor_ptr_alloc,
}

-- The last part: a descriptor for the process and an entry for the semaphore.
unfoldable pub open_descriptor : ℕ → Cmd (Unit {0})
open_descriptor sem = if sem == 0 then set_retvalue dsos_esemaphoreopen else do
  self ← gets (λ k. k.running)
  r ← running_pcb
  des ← sem_descriptor_alloc r.last_sem_fd sem self
  if des == 0 then set_retvalue dsos_esemaphoreopen else do
    ptr ← sem_descriptor_ptr_alloc des
    if ptr == 0 then set_retvalue dsos_esemaphoreopen else do
      d ← load as_sem_descriptor des
      store des (sem_descriptor (record d { ptr = ptr }))
      insert_last (sem_descriptors self) des
      insert_last (target_descriptors sem) ptr
      update_running (λ p. record p { last_sem_fd = p.last_sem_fd +ℤ pos 1 })
      update_running (λ p. record p { syscall_retvalue = p.last_sem_fd -ℤ pos 1 })

-- The part that creates a semaphore.
unfoldable pub create_semaphore : ℤ → ℤ → Cmd (Unit {0})
create_semaphore id count = do
  list ← head_of semaphores_list
  if ltb_ℤ (pos max_num_semaphores) (list.size +ℤ pos 1)
      then set_retvalue dsos_esemaphoreopen
      else do
        sem ← semaphore_alloc id count
        if sem == 0
            then set_retvalue dsos_esemaphoreopen
            else do insert_last semaphores_list sem; open_descriptor sem

-- `internal_semOpen`. `count` is an `unsigned int`, so it is never negative; it becomes an `int` in
-- `Semaphore_alloc`.
unfoldable pub internal_sem_open : Cmd (Unit {0})
internal_sem_open = do
  id ← int_arg 0
  flags ← int_arg 1
  r ← running_pcb
  let count = to_int (pos (low_word (r.syscall_args 2)))
  if ltb_ℤ (pos max_num_semdescriptors_per_process) (r.last_sem_fd +ℤ pos 1)
      then set_retvalue dsos_esemaphoreopen
      else if ltb_ℤ id (pos 0)
      then set_retvalue dsos_esemaphoreopen
      else do
        sem ← semaphore_list_by_id semaphores_list id
        if has_bit dsos_create_bit flags
            then if not (sem == 0) && has_bit dsos_excl_bit flags
              then set_retvalue dsos_esemaphoreopen
              else if sem == 0
              then create_semaphore id count
              else open_descriptor sem
            else open_descriptor sem
