-- ===== src/MessageQueues/Read/Call.antt =====
-- The whole call `internal_mqRead`, branch by branch.
use disastr_os_message_queue.Base.{
  ℕ, ◌<◌, ◌≡◌, refl, ◌≢◌, true, false, List, ◌∷◌, ℤ, pos, ltb_ℤ, eqb_ℤ, pos_part, to_int, ok,
  ==-false, ◌∙◌, sym, ap, update, ◌⊎◌, inl, inr, Bool-cases,
}
use disastr_os_message_queue.LinkedList.{ListMemory}
use disastr_os_message_queue.LinkedList.Memory.{Contents}
use disastr_os_message_queue.Kernel.Constants.{dsos_emqread}
use disastr_os_message_queue.Kernel.Object.{Pcb, MessageQueue, Message, message}
use disastr_os_message_queue.Kernel.State.{Kernel, messages}
use disastr_os_message_queue.Kernel.Laws.{
  Runs, with_running, set_retvalue-ok, int_arg-ok, pointer_arg-ok,
}
use disastr_os_message_queue.Kernel.Invariant.{IsKernel, descriptor_of}
use disastr_os_message_queue.MessageQueues.View.{
  IsQueue, IsTable, level_queue, descriptor_by_fd, bad_fd, mq_descriptor_list_by_fd-ok,
  load-descriptor,
}
use disastr_os_message_queue.MessageQueues.Read.{internal_mq_read, read_queue}
use disastr_os_message_queue.MessageQueues.Read.Deliver.{Delivered}
use disastr_os_message_queue.MessageQueues.Read.Levels.{
  IsEmptyLevel, read_queue-deliver, read_queue-nothing,
}

-- The arguments of the call, as the running process has left them.
pub record ReadArgs (self : Pcb) (fd : ℤ) (buf : ℕ) (buf_size : ℤ) (priority : ℕ) : Type 0 where
  pub fd_arg : to_int (self.syscall_args 0) ≡ fd
  pub buf_arg : self.syscall_args 1 ≡ pos buf
  pub size_arg : to_int (self.syscall_args 2) ≡ buf_size
  pub priority_arg : self.syscall_args 3 ≡ pos priority

module _ {k : Kernel} {self : Pcb} (run : Runs k self) {fd : ℤ} {buf : ℕ} {buf_size : ℤ}
    {priority : ℕ} (args : ReadArgs self fd buf buf_size priority) where
  -- With a descriptor number out of range: `internal_mqRead` returns DSOS_EMQREAD, and writes
  -- nothing else.
  pub internal_mq_read-bad_fd :
      bad_fd fd ≡ true
      → internal_mq_read k
        ≡ ok (tt, with_running k (record self { syscall_retvalue = dsos_emqread }))
  unfolding internal_mq_read
  internal_mq_read-bad_fd bad = rw (int_arg-ok k self run 0) (
      rw (pointer_arg-ok k self run 1 buf args.buf_arg) (
        rw (int_arg-ok k self run 2) (
          rw (pointer_arg-ok k self run 3 priority args.priority_arg)
            (rw (args.fd_arg, bad) (set_retvalue-ok k self run dsos_emqread)))))

  module _ {c : Contents} (free : ℕ → List ℕ) (w : IsKernel k c free) (table : IsTable k c)
      (good_fd : bad_fd fd ≡ false) where
    -- In a kernel in order, with a valid descriptor number, when the process has no such
    -- descriptor open: `internal_mqRead` returns DSOS_EMQREAD, and writes nothing else.
    pub internal_mq_read-no_descriptor :
        descriptor_by_fd k c fd ≡ 0
        → internal_mq_read k
          ≡ ok (tt, with_running k (record self { syscall_retvalue = dsos_emqread }))
    unfolding internal_mq_read
    internal_mq_read-no_descriptor none = rw (int_arg-ok k self run 0) (
        rw (pointer_arg-ok k self run 1 buf args.buf_arg) (
          rw (int_arg-ok k self run 2) (
            rw (pointer_arg-ok k self run 3 priority args.priority_arg) (
              rw (args.fd_arg, good_fd)
                (rw (mq_descriptor_list_by_fd-ok k c fd w.lists table)
                  (rw none (set_retvalue-ok k self run dsos_emqread)))))))

    -- Otherwise the call is a read of the message queue of the descriptor.
    pub internal_mq_read-read_queue :
        descriptor_by_fd k c fd ≢ 0
        → (descriptor_of (k.object (descriptor_by_fd k c fd))).target ≢ 0
        → internal_mq_read k
          ≡ read_queue
              (descriptor_of (k.object (descriptor_by_fd k c fd))).target
              buf
              buf_size
              priority
              k
    unfolding internal_mq_read
    internal_mq_read-read_queue found some_target = rw (int_arg-ok k self run 0) (
        rw (pointer_arg-ok k self run 1 buf args.buf_arg) (
          rw (int_arg-ok k self run 2) (
            rw (pointer_arg-ok k self run 3 priority args.priority_arg) (
              rw (args.fd_arg, args.size_arg, good_fd)
                (rw (mq_descriptor_list_by_fd-ok k c fd w.lists table) (
                  rw (==-false (descriptor_by_fd k c fd) 0 found) (
                    rw (load-descriptor k c fd w.lists table found)
                      (rw (==-false _ 0 some_target) refl))))))))

    module _ {mq : ℕ} {r : MessageQueue} (q : IsQueue k c mq r)
        (found : descriptor_by_fd k c fd ≢ 0)
        (target : (descriptor_of (k.object (descriptor_by_fd k c fd))).target ≡ mq)
        (some_buf : buf ≢ 0) (some_priority : priority ≢ 0) where
      reaches : internal_mq_read k ≡ read_queue mq buf buf_size priority k
      reaches =
          internal_mq_read-read_queue found (λ e. q.some_mq (sym target ∙ e))
          ∙ ap (λ t. read_queue t buf buf_size priority k) target

      -- In a kernel in order, with a valid descriptor number that is open, non-null pointers, a
      -- message counted, no message in the levels before `i`, where `i` is below the last level
      -- and holds `m` first, and a buffer that is large enough for `m`: `internal_mqRead` ends,
      -- takes `m` out of its level, subtracts one from the count, frees the block, copies one
      -- character, stores the level, returns the length of the text, changes no other object, and
      -- leaves the kernel in order.
      pub internal_mq_read-Delivered :
          (i m : ℕ) (ms : List ℕ) (msg : Message)
          → eqb_ℤ r.num_messages (pos 0) ≡ false
          → i < pos_part r.priority
          → ((j : ℕ) → j < i → IsEmptyLevel k c mq j)
          → level_queue k c mq (pos i) ≢ 0
          → c (messages (level_queue k c mq (pos i))) ≡ m ∷ ms
          → k.object m ≡ message msg
          → msg.text ≢ 0
          → ltb_ℤ buf_size msg.text_length ≡ false
          → (l : ListMemory) × (k' : Kernel) × (internal_mq_read k ≡ ok (tt, k'))
            × Delivered
                (record k { lists = l })
                (update c (messages (level_queue k c mq (pos i))) ms)
                free
                self
                mq
                r
                m
                msg
                (pos i)
                buf
                priority
                k'
      internal_mq_read-Delivered i m ms msg some below empty some_level content is_m text enough =
          let (l, k', run', post) =
            read_queue-deliver w run q buf buf_size priority some_buf some_priority i m ms msg some
              below empty some_level content is_m text enough in
          (l, k', reaches ∙ run', post)

      -- In a kernel in order, with a valid descriptor number that is open, non-null pointers, and
      -- a queue at each level but no message below the last, whatever the last level holds:
      -- `internal_mqRead` returns 0, and writes nothing else.
      pub internal_mq_read-nothing :
          ((j : ℕ) → j < pos_part r.priority → IsEmptyLevel k c mq j)
          → internal_mq_read k ≡ ok (tt, with_running k (record self { syscall_retvalue = pos 0 }))
      internal_mq_read-nothing empty =
          reaches ∙ read_queue-nothing w run q buf buf_size priority some_buf some_priority empty

  -- In a kernel in order, with a descriptor number out of range or not open: `internal_mqRead`
  -- returns DSOS_EMQREAD, and writes nothing else.
  pub internal_mq_read-refused :
      {c : Contents} (free : ℕ → List ℕ)
      → IsKernel k c free
      → IsTable k c
      → (bad_fd fd ≡ true) ⊎ (descriptor_by_fd k c fd ≡ 0)
      → internal_mq_read k
        ≡ ok (tt, with_running k (record self { syscall_retvalue = dsos_emqread }))
  internal_mq_read-refused free w table (inl bad) = internal_mq_read-bad_fd bad
  internal_mq_read-refused free w table (inr none) = elim (Bool-cases (bad_fd fd)) [
    | inl bad ↦ internal_mq_read-bad_fd bad
    | inr good ↦ internal_mq_read-no_descriptor free w table good none
  ]
