-- ===== src/MessageQueues/Read.antt =====
-- disastrOS_mqread.c
pub mod Deliver
pub mod Levels
pub mod Lost
pub mod Call
use disastr_os_message_queue.Base.{
  ℕ, zero, suc, Bool, true, false, not, ◌==◌, ◌||◌, if◌then◌else◌, ℤ, pos, negsuc, pos_part, ◌+ℤ◌,
  ◌-ℤ◌, ltb_ℤ, eqb_ℤ, to_int, Run, fault, and_then,
}
use disastr_os_message_queue.Kernel.Constants.{max_num_mqdescriptors_per_process, dsos_emqread}
use disastr_os_message_queue.Kernel.Object.{MessageQueue, message_queue}
use disastr_os_message_queue.Kernel.State.{Kernel, mq_descriptors, queues, messages}
use disastr_os_message_queue.Kernel.Cmd.{
  Cmd, ◌>>=◌, ◌>>◌, pure, gets, head_of, detach, load, store, as_mq_descriptor, as_message_queue,
  as_message, set_retvalue, int_arg, pointer_arg, read_char, write_char, write_int,
}
use disastr_os_message_queue.MessageQueues.Blocks.{
  mq_descriptor_list_by_fd, queue_list_by_priority, message_free,
}

-- `m && buf_size >= m->text_length`
abbrev pub fits : ℕ → ℤ → Cmd Bool
fits m buf_size =
    if m == 0
    then pure false
    else do r ← load as_message m; pure (not (ltb_ℤ buf_size r.text_length))

-- The message `m` of priority `i` goes to the caller. `m->text_length` is read after `m` is freed:
-- the block still holds it.
unfoldable pub deliver : (mq m : ℕ) → ℤ → (buf priority : ℕ) → Cmd (Unit {0})
deliver mq m i buf priority = do
  r ← load as_message_queue mq
  store mq (message_queue (record r { num_messages = r.num_messages -ℤ pos 1 }))
  message ← load as_message m
  c ← read_char message.text
  write_char buf c
  message_free m
  write_int priority i
  freed ← load as_message m
  set_retvalue freed.text_length

-- `q->messages.size ? List_detach(&q->messages, q->messages.first) : 0`
abbrev pub take_first : ℕ → Cmd ℕ
take_first q = do
  list ← head_of (messages q)
  if eqb_ℤ list.size (pos 0) then pure 0 else detach (messages q) list.first

-- `for (; i < mq->priority; i++)`, with the rounds that are left.
unfoldable pub read_levels : ℕ → (mq : ℕ) → ℤ → (buf : ℕ) → ℤ → (priority : ℕ) → Cmd (Unit {0})
read_levels zero mq i buf buf_size priority = set_retvalue (pos 0)
read_levels (suc rounds) mq i buf buf_size priority = do
  q ← queue_list_by_priority (queues mq) i
  if q == 0 then set_retvalue dsos_emqread else do
    m ← take_first q
    taken ← fits m buf_size
    if taken
        then deliver mq m i buf priority
        else read_levels rounds mq (i +ℤ pos 1) buf buf_size priority

-- Once the message queue is known.
unfoldable pub read_queue : (mq buf : ℕ) → ℤ → (priority : ℕ) → Cmd (Unit {0})
read_queue mq buf buf_size priority = do
  r ← load as_message_queue mq
  if eqb_ℤ r.num_messages (pos 0)
      then set_retvalue (pos 0)
      else read_levels (pos_part r.priority) mq (pos 0) buf buf_size priority

-- `internal_mqRead`
unfoldable pub internal_mq_read : Cmd (Unit {0})
internal_mq_read = do
  fd ← int_arg 0
  buf ← pointer_arg 1
  buf_size ← int_arg 2
  priority ← pointer_arg 3
  if ltb_ℤ fd (pos 0) || ltb_ℤ (pos max_num_mqdescriptors_per_process) fd
      then set_retvalue dsos_emqread
      else do
        self ← gets (λ k. k.running)
        des ← mq_descriptor_list_by_fd (mq_descriptors self) fd
        if des == 0 then set_retvalue dsos_emqread else do
          d ← load as_mq_descriptor des
          if d.target == 0
              then set_retvalue dsos_emqread
              else read_queue d.target buf buf_size priority
