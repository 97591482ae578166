-- ===== src/MessageQueues/Write.antt =====
-- disastrOS_mqwrite.c
pub mod Append
pub mod Call
use disastr_os_message_queue.Base.{
  ℕ, ◌==◌, ◌||◌, if◌then◌else◌, ℤ, pos, negsuc, ◌+ℤ◌, ◌-ℤ◌, ltb_ℤ, to_int, Run, fault, and_then,
}
use disastr_os_message_queue.Kernel.Constants.{
  max_num_mqdescriptors_per_process, max_message_length, max_num_messages_per_mq, dsos_emqwrite,
}
use disastr_os_message_queue.Kernel.Object.{MessageQueue, message_queue}
use disastr_os_message_queue.Kernel.State.{Kernel, mq_descriptors, queues, messages}
use disastr_os_message_queue.Kernel.Cmd.{
  Cmd, ◌>>=◌, ◌>>◌, gets, insert_last, load, store, as_mq_descriptor, as_message_queue,
  set_retvalue, int_arg, pointer_arg,
}
use disastr_os_message_queue.MessageQueues.Blocks.{
  mq_descriptor_list_by_fd, queue_list_by_priority, message_alloc,
}

-- The level that a message goes to: an invalid priority becomes that of the last queue.
abbrev pub level_for : ℤ → ℤ → ℤ
level_for top priority =
    if ltb_ℤ priority (pos 0) || ltb_ℤ (top -ℤ pos 1) priority then top else priority

-- Once the level is known: the message goes to the end of its queue.
unfoldable pub write_level : (mq buf : ℕ) → ℤ → ℤ → Cmd (Unit {0})
write_level mq buf buf_size priority = do
  q ← queue_list_by_priority (queues mq) priority
  if q == 0 then set_retvalue dsos_emqwrite else do
    m ← message_alloc buf buf_size
    if m == 0 then set_retvalue dsos_emqwrite else do
      insert_last (messages q) m
      r ← load as_message_queue mq
      store mq (message_queue (record r { num_messages = r.num_messages +ℤ pos 1 }))
      set_retvalue priority

-- Once the message queue is known.
unfoldable pub write_queue : (mq buf : ℕ) → ℤ → ℤ → Cmd (Unit {0})
write_queue mq buf buf_size priority = do
  r ← load as_message_queue mq
  if ltb_ℤ (pos max_num_messages_per_mq) (r.num_messages +ℤ pos 1)
      then set_retvalue (pos 0)
      else write_level mq buf buf_size (level_for r.priority priority)

-- `internal_mqWrite`
unfoldable pub internal_mq_write : Cmd (Unit {0})
internal_mq_write = do
  fd ← int_arg 0
  buf ← pointer_arg 1
  buf_size ← int_arg 2
  priority ← int_arg 3
  if ltb_ℤ fd (pos 0) || ltb_ℤ (pos max_num_mqdescriptors_per_process) fd
      then set_retvalue dsos_emqwrite
      else if buf == 0
      then set_retvalue dsos_emqwrite
      else if ltb_ℤ buf_size (pos 0) || ltb_ℤ (pos max_message_length) buf_size
      then set_retvalue dsos_emqwrite
      else do
        self ← gets (λ k. k.running)
        des ← mq_descriptor_list_by_fd (mq_descriptors self) fd
        if des == 0 then set_retvalue dsos_emqwrite else do
          d ← load as_mq_descriptor des
          if d.target == 0
              then set_retvalue dsos_emqwrite
              else write_queue d.target buf buf_size priority
