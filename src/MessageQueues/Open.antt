-- ===== src/MessageQueues/Open.antt =====
-- disastrOS_mqopen.c
pub mod Descriptor
pub mod Call
use disastr_os_message_queue.Base.{
  ℕ, zero, suc, Bool, true, false, not, ◌&&◌, ◌||◌, ◌==◌, if◌then◌else◌, ℤ, pos, pos_part, ◌+ℤ◌,
  ◌-ℤ◌, ltb_ℤ, has_bit,
}
use disastr_os_message_queue.Kernel.Constants.{
  max_num_mqdescriptors_per_process, max_num_mqs, max_num_queues, dsos_emqopen, dsos_create_bit,
  dsos_excl_bit,
}
use disastr_os_message_queue.Kernel.Object.{mq_descriptor}
use disastr_os_message_queue.Kernel.State.{
  message_queues_list, queues, mq_descriptors, target_descriptors,
}
use disastr_os_message_queue.Kernel.Cmd.{
  Cmd, ◌>>=◌, ◌>>◌, pure, gets, head_of, insert, insert_last, load, store, as_mq_descriptor,
  running_pcb, update_running, set_retvalue, int_arg,
}
use disastr_os_message_queue.MessageQueues.Blocks.{
  message_queue_alloc, queue_alloc, message_queue_list_by_id, mq_descriptor_alloc,
  mq_descriptor_ptr_alloc,
}

-- `for (; i <= priority; i++)`, with the rounds that are left: allocate a priority queue and insert it
-- behind `messageQueues_list.last`. `false` means that the call has returned with an error.
unfoldable pub insert_queues : ℕ → ℤ → ℕ → Cmd Bool
insert_queues zero i mq = pure true
insert_queues (suc rounds) i mq = do
  q ← queue_alloc i
  if q == 0 then (do set_retvalue dsos_emqopen; pure false) else do
    list ← head_of message_queues_list
    insert (queues mq) list.last q
    insert_queues rounds (i +ℤ pos 1) mq

-- The last part: a descriptor for the process and an entry for the message queue.
unfoldable pub open_descriptor : ℕ → Cmd (Unit {0})
open_descriptor mq = if mq == 0 then set_retvalue dsos_emqopen else do
  self ← gets (λ k. k.running)
  r ← running_pcb
  des ← mq_descriptor_alloc r.last_mq_fd mq self
  if des == 0 then set_retvalue dsos_emqopen else do
    ptr ← mq_descriptor_ptr_alloc des
    if ptr == 0 then set_retvalue dsos_emqopen else do
      d ← load as_mq_descriptor des
      store des (mq_descriptor (record d { ptr = ptr }))
      insert_last (mq_descriptors self) des
      insert_last (target_descriptors mq) ptr
      update_running (λ p. record p { last_mq_fd = p.last_mq_fd +ℤ pos 1 })
      update_running (λ p. record p { syscall_retvalue = p.last_mq_fd -ℤ pos 1 })

-- The part that creates a message queue.
unfoldable pub create_queue : ℤ → ℤ → Cmd (Unit {0})
create_queue id priority = do
  list ← head_of message_queues_list
  if ltb_ℤ (pos max_num_mqs) (list.size +ℤ pos 1)
      then set_retvalue dsos_emqopen
      else if ltb_ℤ priority (pos 0) || ltb_ℤ (pos max_num_queues) priority
      then set_retvalue dsos_emqopen
      else do
        mq ← message_queue_alloc id priority
        if mq == 0 then set_retvalue dsos_emqopen else do
          done ← insert_queues (suc (pos_part priority)) (pos 0) mq
          if not done then pure tt else do insert_last message_queues_list mq; open_descriptor mq

-- `internal_mqOpen`
unfoldable pub internal_mq_open : Cmd (Unit {0})
internal_mq_open = do
  id ← int_arg 0
  flags ← int_arg 1
  priority ← int_arg 2
  r ← running_pcb
  if ltb_ℤ (pos max_num_mqdescriptors_per_process) (r.last_mq_fd +ℤ pos 1)
      then set_retvalue dsos_emqopen
      else if ltb_ℤ id (pos 0)
      then set_retvalue dsos_emqopen
      else do
        mq ← message_queue_list_by_id message_queues_list id
        if has_bit dsos_create_bit flags
            then if not (mq == 0) && has_bit dsos_excl_bit flags
              then set_retvalue dsos_emqopen
              else if mq == 0
              then create_queue id priority
              else open_descriptor mq
            else open_descriptor mq
