-- ===== src/MessageQueues/Write/Call.antt =====
-- The whole call `internal_mqWrite`, branch by branch.
use disastr_os_message_queue.Base.{
  ℕ, ◌≡◌, refl, ◌≢◌, inl, inr, true, false, ◌||◌, List, ◌∷◌, ◌==◌, ℤ, pos, ◌+ℤ◌, ltb_ℤ, to_int, ok,
  ==-false, Bool, Bool-cases, ◌∙◌, sym, ap, ◌⊎◌, ==-ne, true-ne-false,
}
use disastr_os_message_queue.LinkedList.Memory.{Contents}
use disastr_os_message_queue.Kernel.Constants.{
  dsos_emqwrite, max_message_length, max_num_messages_per_mq,
}
use disastr_os_message_queue.Kernel.Object.{Pcb, MessageQueue}
use disastr_os_message_queue.Kernel.State.{Kernel, messages_pool}
use disastr_os_message_queue.Kernel.Cmd.{as_message_queue}
use disastr_os_message_queue.Kernel.Laws.{
  Runs, with_running, load-ok, set_retvalue-ok, int_arg-ok, pointer_arg-ok,
}
use disastr_os_message_queue.Kernel.Invariant.{IsKernel, descriptor_of}
use disastr_os_message_queue.MessageQueues.View.{
  IsQueue, IsTable, level_queue, descriptor_by_fd, bad_fd, mq_descriptor_list_by_fd-ok,
  load-descriptor,
}
use disastr_os_message_queue.MessageQueues.Write.{internal_mq_write, write_queue, level_for}
use disastr_os_message_queue.MessageQueues.Write.Append.{Written, write_level-Written}

-- `buf_size < 0 || buf_size > MAX_MESSAGE_LENGTH`
abbrev pub bad_size : ℤ → Bool
bad_size size = ltb_ℤ size (pos 0) || ltb_ℤ (pos max_message_length) size

-- The arguments of the call, as the running process has left them.
pub record WriteArgs (self : Pcb) (fd : ℤ) (buf : ℕ) (buf_size priority : ℤ) : Type 0 where
  pub fd_arg : to_int (self.syscall_args 0) ≡ fd
  pub buf_arg : self.syscall_args 1 ≡ pos buf
  pub size_arg : to_int (self.syscall_args 2) ≡ buf_size
  pub priority_arg : to_int (self.syscall_args 3) ≡ priority

or_false : (a b : Bool) → (a || b) ≡ false → (a ≡ false) × (b ≡ false)
or_false false b e = (refl, e)
or_false true b e = absurd (true-ne-false e)

module _ {k : Kernel} {self : Pcb} (run : Runs k self) {fd : ℤ} {buf : ℕ} {buf_size priority : ℤ}
    (args : WriteArgs self fd buf buf_size priority) where
  -- With a descriptor number out of range, a null buffer, or a size out of range:
  -- `internal_mqWrite` returns DSOS_EMQWRITE, and writes nothing else.
  pub internal_mq_write-bad_args :
      (bad_fd fd || (buf == 0) || bad_size buf_size) ≡ true
      → internal_mq_write k
        ≡ ok (tt, with_running k (record self { syscall_retvalue = dsos_emqwrite }))
  unfolding internal_mq_write
  internal_mq_write-bad_args bad = rw (int_arg-ok k self run 0) (
      rw (pointer_arg-ok k self run 1 buf args.buf_arg) (
        rw (int_arg-ok k self run 2) (
          rw (int_arg-ok k self run 3) (
            rw (args.fd_arg, args.size_arg)
              (rw (← set_retvalue-ok k self run dsos_emqwrite) (elim (Bool-cases (bad_fd fd)) [
                | inl a ↦ rw a refl
                | inr a ↦ rw a (elim (Bool-cases (buf == 0)) [
                  | inl b ↦ rw b refl
                  | inr b ↦ rw b (rw (rw (a, b) at bad) refl)
                ])
              ]))))))

  module _ {c : Contents} (free : ℕ → List ℕ) (w : IsKernel k c free) (table : IsTable k c)
      (good_fd : bad_fd fd ≡ false) (some_buf : buf ≢ 0)
      (good_size : bad_size buf_size ≡ false) where
    -- In a kernel in order, with a valid descriptor number, buffer and size, when the process has
    -- no such descriptor open: `internal_mqWrite` returns DSOS_EMQWRITE, and writes nothing else.
    pub internal_mq_write-no_descriptor :
        descriptor_by_fd k c fd ≡ 0
        → internal_mq_write k
          ≡ ok (tt, with_running k (record self { syscall_retvalue = dsos_emqwrite }))
    unfolding internal_mq_write
    internal_mq_write-no_descriptor none = rw (int_arg-ok k self run 0) (
        rw (pointer_arg-ok k self run 1 buf args.buf_arg) (
          rw (int_arg-ok k self run 2) (
            rw (int_arg-ok k self run 3) (
              rw (args.fd_arg, args.size_arg)
                (rw (good_fd, ==-false buf 0 some_buf, good_size)
                  (rw (mq_descriptor_list_by_fd-ok k c fd w.lists table)
                    (rw none (set_retvalue-ok k self run dsos_emqwrite))))))))

    -- Otherwise the call is a write to the message queue of the descriptor.
    pub internal_mq_write-write_queue :
        descriptor_by_fd k c fd ≢ 0
        → (descriptor_of (k.object (descriptor_by_fd k c fd))).target ≢ 0
        → internal_mq_write k
          ≡ write_queue
              (descriptor_of (k.object (descriptor_by_fd k c fd))).target
              buf
              buf_size
              priority
              k
    unfolding internal_mq_write
    internal_mq_write-write_queue found some_target = rw (int_arg-ok k self run 0) (
        rw (pointer_arg-ok k self run 1 buf args.buf_arg) (
          rw (int_arg-ok k self run 2) (
            rw (int_arg-ok k self run 3) (
              rw (args.fd_arg, args.size_arg, args.priority_arg)
                (rw (good_fd, ==-false buf 0 some_buf, good_size)
                  (rw (mq_descriptor_list_by_fd-ok k c fd w.lists table) (
                    rw (==-false (descriptor_by_fd k c fd) 0 found) (
                      rw (load-descriptor k c fd w.lists table found)
                        (rw (==-false _ 0 some_target) refl)))))))))

    module _ {mq : ℕ} {r : MessageQueue} (q : IsQueue k c mq r)
        (found : descriptor_by_fd k c fd ≢ 0)
        (target : (descriptor_of (k.object (descriptor_by_fd k c fd))).target ≡ mq) where
      reaches : internal_mq_write k ≡ write_queue mq buf buf_size priority k
      reaches =
          internal_mq_write-write_queue found (λ e. q.some_mq (sym target ∙ e))
          ∙ ap (λ t. write_queue t buf buf_size priority k) target

      -- In a kernel in order, with a valid descriptor number that is open, a non-null buffer and a
      -- valid size, when one more message would exceed the limit of 128: `internal_mqWrite`
      -- returns 0, and writes nothing else.
      pub internal_mq_write-full :
          ltb_ℤ (pos max_num_messages_per_mq) (r.num_messages +ℤ pos 1) ≡ true
          → internal_mq_write k ≡ ok (tt, with_running k (record self { syscall_retvalue = pos 0 }))
      unfolding write_queue
      internal_mq_write-full full =
          reaches
          ∙ rw (load-ok as_message_queue mq k r q.some_mq (rw q.object refl))
              (rw full (set_retvalue-ok k self run (pos 0)))

      -- In a kernel in order, with a valid descriptor number that is open, a non-null buffer, a
      -- valid size, room in the message queue, a queue at the level of the priority (the last one
      -- if the priority is invalid) and a free message block: `internal_mqWrite` ends, appends a
      -- message with the buffer's address and the size to that level, adds one to the count,
      -- returns the level, changes no other object and no memory of the processes, and leaves the
      -- kernel in order.
      pub internal_mq_write-Written :
          (i : ℕ) (is : List ℕ)
          → ltb_ℤ (pos max_num_messages_per_mq) (r.num_messages +ℤ pos 1) ≡ false
          → level_queue k c mq (level_for r.priority priority) ≢ 0
          → free messages_pool ≡ i ∷ is
          → (k' : Kernel) × (internal_mq_write k ≡ ok (tt, k'))
            × Written k c free self mq r i is buf buf_size (level_for r.priority priority) k'
      unfolding write_queue
      internal_mq_write-Written i is room some_level first =
          let (k', run', post) =
            write_level-Written w run q i is first buf buf_size (level_for r.priority priority)
              some_level in
          (
            k',
            reaches
                ∙ rw (load-ok as_message_queue mq k r q.some_mq (rw q.object refl)) (rw room run'),
            post,
          )

  -- In a kernel in order, with a descriptor number out of range, a null buffer, a size out of
  -- range, or a descriptor number that is not open: `internal_mqWrite` returns DSOS_EMQWRITE, and
  -- writes nothing else.
  pub internal_mq_write-refused :
      {c : Contents} (free : ℕ → List ℕ)
      → IsKernel k c free
      → IsTable k c
      → ((bad_fd fd || (buf == 0) || bad_size buf_size) ≡ true) ⊎ (descriptor_by_fd k c fd ≡ 0)
      → internal_mq_write k
        ≡ ok (tt, with_running k (record self { syscall_retvalue = dsos_emqwrite }))
  internal_mq_write-refused free w table (inl bad) = internal_mq_write-bad_args bad
  internal_mq_write-refused free w table (inr none) =
      elim (Bool-cases (bad_fd fd || (buf == 0) || bad_size buf_size)) [
        | inl bad ↦ internal_mq_write-bad_args bad
        | inr good ↦
            let (left, good_size) = or_false (bad_fd fd || (buf == 0)) (bad_size buf_size) good in
            let (good_fd, some_buf) = or_false (bad_fd fd) (buf == 0) left in
            internal_mq_write-no_descriptor free w table good_fd (==-ne buf 0 some_buf) good_size
              none
      ]
