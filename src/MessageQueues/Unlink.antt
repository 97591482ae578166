-- ===== src/MessageQueues/Unlink.antt =====
-- disastrOS_mqunlink.c
pub mod Call
pub mod Levels
pub mod Unlinked
use disastr_os_message_queue.Base.{
  ℕ, zero, suc, ◌==◌, ◌&&◌, not, if◌then◌else◌, pos, pos_part, ltb_ℤ, eqb_ℤ,
}
use disastr_os_message_queue.Kernel.Constants.{dsos_emqunlink}
use disastr_os_message_queue.Kernel.State.{
  message_queues_list, target_descriptors, queues, messages,
}
use disastr_os_message_queue.Kernel.Cmd.{
  Cmd, ◌>>=◌, ◌>>◌, skip, head_of, detach, load, as_message_queue, set_retvalue, int_arg,
}
use disastr_os_message_queue.MessageQueues.Blocks.{
  message_queue_list_by_id, queue_free, message_queue_free,
}

-- `for (; i <= mq->priority; i++)`, with the rounds that are left: detach the first priority queue and
-- free it if it is empty.
unfoldable pub free_queues : ℕ → ℕ → Cmd (Unit {0})
free_queues zero mq = skip
free_queues (suc rounds) mq = do
  list ← head_of (queues mq)
  q ← detach (queues mq) list.first
  content ← head_of (messages q)
  (if not (q == 0) && eqb_ℤ content.size (pos 0) then (do queue_free q; skip) else skip)
  free_queues rounds mq

-- The part past the checks.
unfoldable pub unlink : ℕ → Cmd (Unit {0})
unlink found = do
  mq ← detach message_queues_list found
  if mq == 0 then set_retvalue dsos_emqunlink else do
    r ← load as_message_queue mq
    (if ltb_ℤ r.priority (pos 0) then skip else free_queues (suc (pos_part r.priority)) mq)
    message_queue_free mq
    set_retvalue (pos 0)

-- `internal_mqUnlink`
unfoldable pub internal_mq_unlink : Cmd (Unit {0})
internal_mq_unlink = do
  id ← int_arg 0
  mq ← message_queue_list_by_id message_queues_list id
  if mq == 0 then set_retvalue dsos_emqunlink else do
    r ← load as_message_queue mq
    if not (eqb_ℤ r.num_messages (pos 0)) then set_retvalue dsos_emqunlink else do
      open_entries ← head_of (target_descriptors mq)
      if not (eqb_ℤ open_entries.size (pos 0)) then set_retvalue dsos_emqunlink else unlink mq
