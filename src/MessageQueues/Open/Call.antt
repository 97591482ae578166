-- ===== src/MessageQueues/Open/Call.antt =====
-- The whole call `internal_mqOpen`: what it refuses, and the open of a message queue that exists.
use disastr_os_message_queue.Base.{
  ℕ, ◌≡◌, ◌≢◌, Bool, true, false, not, ◌&&◌, ◌||◌, List, ◌∷◌, ◌==◌, if◌then◌else◌, ℤ, pos, ◌+ℤ◌,
  ltb_ℤ, has_bit, to_int, ok, length, ==-false, Bool-cases, inl, inr,
}
use disastr_os_message_queue.LinkedList.Memory.{Contents}
use disastr_os_message_queue.Kernel.Constants.{
  dsos_emqopen, dsos_create_bit, dsos_excl_bit, max_num_mqs, max_num_queues,
  max_num_mqdescriptors_per_process,
}
use disastr_os_message_queue.Kernel.Object.{Pcb}
use disastr_os_message_queue.Kernel.State.{
  Kernel, message_queues_list, mq_descriptor_pool, mq_descriptor_ptr_pool,
}
use disastr_os_message_queue.Kernel.Cmd.{set_retvalue}
use disastr_os_message_queue.Kernel.Laws.{
  Runs, with_running, running_pcb-ok, set_retvalue-ok, int_arg-ok,
}
use disastr_os_message_queue.Kernel.Invariant.{IsKernel}
use disastr_os_message_queue.MessageQueues.View.{
  IsRegistry, queue_by_id, message_queue_list_by_id-ok,
}
use disastr_os_message_queue.MessageQueues.Open.{internal_mq_open, create_queue, open_descriptor}
use disastr_os_message_queue.MessageQueues.Open.Descriptor.{Opened, open_descriptor-Opened}

-- The limits on a new message queue, with `n` that exist.
abbrev pub bad_queue : ℕ → ℤ → Bool
bad_queue n priority =
    ltb_ℤ (pos max_num_mqs) (pos n +ℤ pos 1)
    || (ltb_ℤ priority (pos 0) || ltb_ℤ (pos max_num_queues) priority)

-- What the flags do not allow, for the message queue `mq` (NULL if there is none).
abbrev pub bad_flags : (mq n : ℕ) → ℤ → ℤ → Bool
bad_flags mq n flags priority =
    if has_bit dsos_create_bit flags
    then (if mq == 0 then bad_queue n priority else has_bit dsos_excl_bit flags)
    else mq == 0

-- The process has too many descriptors, or the number is negative.
abbrev pub bad_open : ℤ → ℤ → Bool
bad_open last_mq_fd id =
    ltb_ℤ (pos max_num_mqdescriptors_per_process) (last_mq_fd +ℤ pos 1) || ltb_ℤ id (pos 0)

-- The arguments of the call, as the running process has left them.
pub record OpenArgs (self : Pcb) (id flags priority : ℤ) : Type 0 where
  pub id_arg : to_int (self.syscall_args 0) ≡ id
  pub flags_arg : to_int (self.syscall_args 1) ≡ flags
  pub priority_arg : to_int (self.syscall_args 2) ≡ priority

-- Each of the tests that `bad_queue` joins.
create_queue-refused :
    {k : Kernel} {c : Contents} {free : ℕ → List ℕ} (w : IsKernel k c free) {self : Pcb}
    (run : Runs k self) (id priority : ℤ)
    → bad_queue (length (c message_queues_list)) priority ≡ true
    → create_queue id priority k
      ≡ ok (tt, with_running k (record self { syscall_retvalue = dsos_emqopen }))
unfolding create_queue
create_queue-refused {k} {c} w {self} run id priority bad =
    rw ((w.lists.lists message_queues_list).size)
      (elim (Bool-cases (ltb_ℤ (pos max_num_mqs) (pos (length (c message_queues_list)) +ℤ pos 1))) [
        | inl a ↦ rw a (set_retvalue-ok k self run dsos_emqopen)
        | inr a ↦ rw (a, rw a at bad) (set_retvalue-ok k self run dsos_emqopen)
      ])

module _ {k : Kernel} {c : Contents} {free : ℕ → List ℕ} (w : IsKernel k c free) {self : Pcb}
    (run : Runs k self) (registry : IsRegistry k c) {id flags priority : ℤ}
    (args : OpenArgs self id flags priority) where
  -- In a kernel in order, when the process has too many descriptors, or the number is negative, or
  -- the message queue exists and DSOS_CREATE and DSOS_EXCL are given, or it does not exist and
  -- DSOS_CREATE is missing or a new message queue would exceed the limits on message queues and
  -- levels: `internal_mqOpen` returns DSOS_EMQOPEN, and writes nothing else.
  pub internal_mq_open-refused :
      (if bad_open self.last_mq_fd id
          then true
          else bad_flags (queue_by_id k c id) (length (c message_queues_list)) flags priority)
        ≡ true
      → internal_mq_open k
        ≡ ok (tt, with_running k (record self { syscall_retvalue = dsos_emqopen }))
  unfolding internal_mq_open open_descriptor
  internal_mq_open-refused bad = rw (int_arg-ok k self run 0) (
      rw (int_arg-ok k self run 1) (
        rw (int_arg-ok k self run 2) (
          rw (running_pcb-ok k self run) (
            rw (args.id_arg, args.flags_arg, args.priority_arg)
              (elim (Bool-cases
                (ltb_ℤ (pos max_num_mqdescriptors_per_process) (self.last_mq_fd +ℤ pos 1))) [
                  | inl a ↦ rw a (set_retvalue-ok k self run dsos_emqopen)
                  | inr a ↦ rw a (elim (Bool-cases (ltb_ℤ id (pos 0))) [
                    | inl b ↦ rw b (set_retvalue-ok k self run dsos_emqopen)
                    | inr b ↦ rw b (
                        rw (message_queue_list_by_id-ok k c id w.lists registry)
                          (by_flags (rw (a, b) at bad)))
                  ])
                ])))))
    where
      by_flags :
          bad_flags (queue_by_id k c id) (length (c message_queues_list)) flags priority ≡ true
          → (if has_bit dsos_create_bit flags
                then (if not (queue_by_id k c id == 0) && has_bit dsos_excl_bit flags
                    then set_retvalue dsos_emqopen
                    else if queue_by_id k c id == 0
                    then create_queue id priority
                    else open_descriptor (queue_by_id k c id))
                else open_descriptor (queue_by_id k c id))
              k
            ≡ ok (tt, with_running k (record self { syscall_retvalue = dsos_emqopen }))
      by_flags bad = elim (Bool-cases (has_bit dsos_create_bit flags)) [
        | inl create ↦ elim (Bool-cases (queue_by_id k c id == 0)) [
          | inl none ↦
              rw (create, none) (create_queue-refused w run id priority (rw (create, none) at bad))
          | inr some ↦
              rw (create, some, rw (create, some) at bad) (set_retvalue-ok k self run dsos_emqopen)
        ]
        | inr plain ↦ rw (plain, rw plain at bad) (set_retvalue-ok k self run dsos_emqopen)
      ]

  -- In a kernel in order, with room for a descriptor, a number that is not negative, a message
  -- queue of that number, not both of the flags DSOS_CREATE and DSOS_EXCL, and free blocks for a
  -- descriptor and an entry: `internal_mqOpen` ends, appends a descriptor with the next number to
  -- the table of the process and an entry to the list of the message queue, links the two, adds
  -- one to `last_mq_fd`, returns the value it had, changes no other object, and leaves the kernel
  -- in order.
  pub internal_mq_open-Opened :
      (i : ℕ) (is : List ℕ) (j : ℕ) (js : List ℕ)
      → ltb_ℤ (pos max_num_mqdescriptors_per_process) (self.last_mq_fd +ℤ pos 1) ≡ false
      → ltb_ℤ id (pos 0) ≡ false
      → queue_by_id k c id ≢ 0
      → (has_bit dsos_create_bit flags && has_bit dsos_excl_bit flags) ≡ false
      → free mq_descriptor_pool ≡ i ∷ is
      → free mq_descriptor_ptr_pool ≡ j ∷ js
      → (k' : Kernel) × (internal_mq_open k ≡ ok (tt, k'))
        × Opened k c free self (queue_by_id k c id) i is j js k'
  unfolding internal_mq_open
  internal_mq_open-Opened i is j js room good found flags_ok first first' =
      let (k', run', post) =
        open_descriptor-Opened w run (queue_by_id k c id) found i is first j js first' in
      let some = ==-false (queue_by_id k c id) 0 found in
      (
        k',
        rw (int_arg-ok k self run 0) (
            rw (int_arg-ok k self run 1) (
              rw (int_arg-ok k self run 2) (
                rw (running_pcb-ok k self run) (
                  rw (args.id_arg, args.flags_arg, args.priority_arg)
                    (rw (room, good)
                      (rw (message_queue_list_by_id-ok k c id w.lists registry)
                        (elim (Bool-cases (has_bit dsos_create_bit flags)) [
                          | inl create ↦ rw (create, some, rw create at flags_ok) run'
                          | inr plain ↦ rw plain run'
                        ]))))))),
        post,
      )
