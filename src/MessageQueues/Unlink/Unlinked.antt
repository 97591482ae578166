-- ===== src/MessageQueues/Unlink/Unlinked.antt =====
-- What `internal_mqUnlink` does to a message queue that is not in use.
use disastr_os_message_queue.Base.{
  ℕ, suc, ◌/◌, ◌%◌, ◌≡◌, refl, sym, ap, ◌∙◌, ◌≢◌, true, false, List, [], ◌∷◌, ◌++◌, arith, update,
  ℤ, pos, ltb_ℤ, to_int, ok, has, length, ==-false, subst, update_other,
}
use disastr_os_message_queue.LinkedList.Memory.{Contents}
use disastr_os_message_queue.Kernel.Object.{Object, Pcb, MessageQueue, pcb, message_queue}
use disastr_os_message_queue.Kernel.State.{
  Kernel, message_queues_list, target_descriptors, queues, messages, queues_pool, mqs_pool,
}
use disastr_os_message_queue.Kernel.Cmd.{as_message_queue}
use disastr_os_message_queue.Kernel.Laws.{Runs, with_running, load-ok, set_retvalue-ok, int_arg-ok}
use disastr_os_message_queue.Kernel.Invariant.{IsKernel, code_at}
use disastr_os_message_queue.Kernel.Preserve.{
  detach-IsKernel, held-taken, release_block-IsKernel, with_running-IsKernel,
}
use disastr_os_message_queue.MessageQueues.Blocks.{message_queue_free, message_queue_list_by_id}
use disastr_os_message_queue.MessageQueues.View.{
  IsRegistry, queue_by_id, message_queue_list_by_id-ok,
}
use disastr_os_message_queue.MessageQueues.Unlink.{free_queues, unlink, internal_mq_unlink}
use disastr_os_message_queue.MessageQueues.Unlink.Levels.{given_back, AreEmpty, free_queues-freed}

abbrev pub idle_queue : ℤ → ℕ → MessageQueue
idle_queue id top = record { id = id; priority = pos top; num_messages = pos 0 }

-- A message queue with no messages and no open descriptors, and a queue for each level and the last one.
pub record IsIdle (k : Kernel) (c : Contents) (mq : ℕ) (id : ℤ) (top : ℕ) (qs : List ℕ)
    : Type 0 where
  pub object : k.object mq ≡ message_queue (idle_queue id top)
  pub no_descriptors : c (target_descriptors mq) ≡ []
  pub all : c (queues mq) ≡ qs
  pub count : length qs ≡ suc top
  pub empty : AreEmpty k c qs

module _ {k : Kernel} {c : Contents} {free : ℕ → List ℕ} (w : IsKernel k c free) {self : Pcb}
    (run : Runs k self) {mq : ℕ} (id : ℤ) (top : ℕ) {qs : List ℕ} (idle : IsIdle k c mq id top qs)
    (us vs : List ℕ) (parts : c message_queues_list ≡ us ++ mq ∷ vs)
    (listed : has mq (c message_queues_list) ≡ true) where
  mq_code : mq % 16 ≡ 10
  mq_code = code_at w mq (message_queue (idle_queue id top)) idle.object (omega arith)

  some_mq : mq ≢ 0
  some_mq e = omega (arith, mq_code)

  unlink-Unlinked :
      (k' : Kernel) × (unlink mq k ≡ ok (tt, k'))
      × IsKernel k' (update (update c message_queues_list (us ++ vs)) (queues mq) []) (
          update
            (update free queues_pool (given_back qs (free queues_pool)))
            mqs_pool
            (mq / 16 ∷ free mqs_pool))
      × (k'.object ≡ update k.object k.running (pcb (record self { syscall_retvalue = pos 0 })))
      × (k'.running ≡ k.running)
  unfolding unlink message_queue_free
  unlink-Unlinked =
      let (l1, run1, w1, loose1) = detach-IsKernel w message_queues_list mq us vs parts in
      let not_negative : ltb_ℤ (pos top) (pos 0) ≡ false = ground arith in
      let c1 : Contents = update c message_queues_list (us ++ vs) in
      let k1 : Kernel = record k { lists = l1 } in
      let other : (h : ℕ) → h ≢ message_queues_list → c1 h ≡ c h =
        λ h ne. update_other c message_queues_list (us ++ vs) h ne in
      let (k2, run2, w2, object2, running2) =
        free_queues-freed qs mq w1 (other (queues mq) (λ e. omega (arith, mq_code)) ∙ idle.all)
          (λ q h.
            let (s, block, none) = idle.empty q h in
            (s, block, other (messages q) (λ e. omega arith) ∙ none)) in
      let block2 : k2.object mq ≡ message_queue (idle_queue id top) =
        ap (λ (f : ℕ → Object). f mq) object2 ∙ idle.object in
      let c2 : Contents = update c1 (queues mq) [] in
      let none2 : c2 (target_descriptors mq) ≡ [] =
        update_other c1 (queues mq) [] (target_descriptors mq) (λ e. omega arith)
        ∙ other (target_descriptors mq) (λ e. omega arith)
        ∙ idle.no_descriptors in
      let list = w2.lists.lists (target_descriptors mq) in
      let (a3, run3, w3) =
        release_block-IsKernel w2 mqs_pool mq (message_queue (idle_queue id top)) block2 refl
          (omega arith) (omega arith) (λ g. ground (arith, loose1 g))
          (held-taken w mqs_pool message_queues_list mq (omega arith) mq_code listed) in
      let k3 : Kernel = record k2 { pool = update k2.pool mqs_pool a3 } in
      let run' : Runs k3 self = record {
        some_pcb = λ e. run.some_pcb (sym running2 ∙ e);
        control_block =
            ap (λ a. k2.object a) running2
            ∙ ap (λ (f : ℕ → Object). f k.running) object2
            ∙ run.control_block;
      } in
      (
        with_running k3 (record self { syscall_retvalue = pos 0 }),
        rw run1 (
            rw (==-false mq 0 some_mq) (
              rw (load-ok as_message_queue mq k1 (idle_queue id top) some_mq (rw idle.object refl))
                (rw not_negative (
                  rw (subst (λ n. free_queues n mq k1 ≡ ok (tt, k2)) idle.count run2) (
                    rw (list.first, list.last, none2)
                      (rw run3 (set_retvalue-ok k3 self run' (pos 0)))))))),
        with_running-IsKernel w3 self _ run',
        ap
              (λ (f : ℕ → Object).
                update f k2.running (pcb (record self { syscall_retvalue = pos 0 })))
              object2
            ∙ ap (λ a. update k.object a (pcb (record self { syscall_retvalue = pos 0 }))) running2,
        running2,
      )

  -- In a kernel in order, for a message queue in the list that has no messages, no open
  -- descriptors, and exactly one queue without messages for each of its levels and the last one:
  -- `internal_mqUnlink` ends, takes it out of the list of message queues and the queues out of its
  -- own list, frees the blocks of all of them, returns 0, changes no other object, and leaves the
  -- kernel in order.
  pub internal_mq_unlink-Unlinked :
      IsRegistry k c
      → to_int (self.syscall_args 0) ≡ id
      → queue_by_id k c id ≡ mq
      → (k' : Kernel) × (internal_mq_unlink k ≡ ok (tt, k'))
        × IsKernel k' (update (update c message_queues_list (us ++ vs)) (queues mq) []) (
            update
              (update free queues_pool (given_back qs (free queues_pool)))
              mqs_pool
              (mq / 16 ∷ free mqs_pool))
        × (k'.object ≡ update k.object k.running (pcb (record self { syscall_retvalue = pos 0 })))
        × (k'.running ≡ k.running)
  unfolding internal_mq_unlink
  internal_mq_unlink-Unlinked registry arg found =
      let (k', run', w', objects, same) = unlink-Unlinked in
      let searched : message_queue_list_by_id message_queues_list id k ≡ ok (mq, k) =
        message_queue_list_by_id-ok k c id w.lists registry ∙ ap (λ a. ok (a, k)) found in
      let list = w.lists.lists (target_descriptors mq) in
      (
        k',
        rw (int_arg-ok k self run 0) (
            rw (arg, searched)
              (rw (==-false mq 0 some_mq) (
                rw (load-ok as_message_queue mq k (idle_queue id top) some_mq (rw idle.object refl))
                  (rw (list.size, idle.no_descriptors) run')))),
        w',
        objects,
        same,
      )
