-- ===== src/MessageQueues/Unlink/Call.antt =====
-- What `internal_mqUnlink` refuses.
use disastr_os_message_queue.Base.{
  ℕ, ◌≡◌, Bool, true, not, List, ◌==◌, if◌then◌else◌, ℤ, pos, eqb_ℤ, to_int, ok, length, Bool-cases,
  inl, inr,
}
use disastr_os_message_queue.LinkedList.Memory.{Contents}
use disastr_os_message_queue.Kernel.Constants.{dsos_emqunlink}
use disastr_os_message_queue.Kernel.Object.{Pcb}
use disastr_os_message_queue.Kernel.State.{Kernel, target_descriptors}
use disastr_os_message_queue.Kernel.Laws.{Runs, with_running, set_retvalue-ok, int_arg-ok}
use disastr_os_message_queue.Kernel.Invariant.{IsKernel, message_queue_of}
use disastr_os_message_queue.MessageQueues.View.{
  IsRegistry, queue_by_id, message_queue_list_by_id-ok, load-message_queue,
}
use disastr_os_message_queue.MessageQueues.Unlink.{internal_mq_unlink}

-- There is no such message queue, or it has messages, or descriptors of it are open.
abbrev pub in_use : Kernel → Contents → ℕ → Bool
in_use k c mq =
    if mq == 0
    then true
    else if not (eqb_ℤ (message_queue_of (k.object mq)).num_messages (pos 0))
    then true
    else not (eqb_ℤ (pos (length (c (target_descriptors mq)))) (pos 0))

-- In a kernel in order, when there is no message queue with the number, or it has messages, or
-- descriptors of it are open: `internal_mqUnlink` returns DSOS_EMQUNLINK, and writes nothing else.
pub internal_mq_unlink-refused :
    {k : Kernel} {c : Contents} {free : ℕ → List ℕ} (w : IsKernel k c free) {self : Pcb}
    (run : Runs k self) (registry : IsRegistry k c)
    → in_use k c (queue_by_id k c (to_int (self.syscall_args 0))) ≡ true
    → internal_mq_unlink k
      ≡ ok (tt, with_running k (record self { syscall_retvalue = dsos_emqunlink }))
unfolding internal_mq_unlink
internal_mq_unlink-refused {k} {c} w {self} run registry bad =
    let id : ℤ = to_int (self.syscall_args 0) in
    let mq : ℕ = queue_by_id k c id in
    rw (int_arg-ok k self run 0) (
      rw (message_queue_list_by_id-ok k c id w.lists registry) (elim (Bool-cases (mq == 0)) [
        | inl none ↦ rw none (set_retvalue-ok k self run dsos_emqunlink)
        | inr some ↦ rw some (
            rw (load-message_queue k c id w.lists registry (λ e. cc))
              (elim (Bool-cases (eqb_ℤ (message_queue_of (k.object mq)).num_messages (pos 0))) [
                | inl empty ↦
                    rw (empty, (w.lists.lists (target_descriptors mq)).size)
                      (rw (rw (some, empty) at bad) (set_retvalue-ok k self run dsos_emqunlink))
                | inr filled ↦ rw filled (set_retvalue-ok k self run dsos_emqunlink)
              ]))
      ]))
