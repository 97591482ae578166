-- ===== src/MessageQueues/Close.antt =====
-- disastrOS_mqclose.c
pub mod Call
use disastr_os_message_queue.Base.{
  ℕ, ◌==◌, ◌||◌, if◌then◌else◌, ℤ, pos, ◌-ℤ◌, ltb_ℤ, to_int, Run, and_then,
}
use disastr_os_message_queue.Kernel.Constants.{max_num_mqdescriptors_per_process, dsos_emqclose}
use disastr_os_message_queue.Kernel.State.{Kernel, mq_descriptors, target_descriptors}
use disastr_os_message_queue.Kernel.Cmd.{
  Cmd, ◌>>=◌, ◌>>◌, gets, detach, load, as_mq_descriptor, update_running, set_retvalue, int_arg,
}
use disastr_os_message_queue.MessageQueues.Blocks.{
  mq_descriptor_list_by_fd, mq_descriptor_free, mq_descriptor_ptr_free,
}

-- Once the descriptor is found.
unfoldable pub close_descriptor : ℕ → ℕ → Cmd (Unit {0})
close_descriptor self des = do
  d ← load as_mq_descriptor des
  if d.target == 0 then set_retvalue dsos_emqclose else do
    detach (mq_descriptors self) des
    if d.ptr == 0 then set_retvalue dsos_emqclose else do
      detach (target_descriptors d.target) d.ptr
      mq_descriptor_free des
      mq_descriptor_ptr_free d.ptr
      update_running (λ p. record p { last_mq_fd = p.last_mq_fd -ℤ pos 1 })
      set_retvalue (pos 0)

-- `internal_mqClose`
unfoldable pub internal_mq_close : Cmd (Unit {0})
internal_mq_close = do
  fd ← int_arg 0
  if ltb_ℤ fd (pos 0) || ltb_ℤ (pos max_num_mqdescriptors_per_process) fd
      then set_retvalue dsos_emqclose
      else do
        self ← gets (λ k. k.running)
        des ← mq_descriptor_list_by_fd (mq_descriptors self) fd
        if des == 0 then set_retvalue dsos_emqclose else close_descriptor self des
