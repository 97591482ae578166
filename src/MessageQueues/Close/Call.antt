-- ===== src/MessageQueues/Close/Call.antt =====
-- The whole call `internal_mqClose`, branch by branch.
use disastr_os_message_queue.Base.{
  ℕ, ◌/◌, ◌%◌, ◌≡◌, refl, ◌≢◌, true, false, List, ◌∷◌, ◌++◌, arith, update, pos, ◌-ℤ◌, to_int, ok,
  ==-false, ==_self, ◌⊎◌, inl, inr, Bool-cases, has_middle,
}
use disastr_os_message_queue.LinkedList.Memory.{Contents, detach_still-IsFree}
use disastr_os_message_queue.Kernel.Constants.{dsos_emqclose}
use disastr_os_message_queue.Kernel.Object.{
  Pcb, Descriptor, DescriptorPtr, mq_descriptor, mq_descriptor_ptr, pcb,
}
use disastr_os_message_queue.Kernel.State.{
  Kernel, mq_descriptors, target_descriptors, mq_descriptor_pool, mq_descriptor_ptr_pool,
}
use disastr_os_message_queue.Kernel.Cmd.{as_mq_descriptor}
use disastr_os_message_queue.Kernel.Laws.{
  Runs, with_running, load-ok, set_retvalue-ok, update_running-ok, int_arg-ok,
}
use disastr_os_message_queue.Kernel.Invariant.{IsKernel, code_at}
use disastr_os_message_queue.Kernel.Preserve.{
  detach-IsKernel, release_block-IsKernel, with_running-IsKernel, held-taken,
}
use disastr_os_message_queue.MessageQueues.View.{
  IsTable, descriptor_by_fd, bad_fd, mq_descriptor_list_by_fd-ok,
}
use disastr_os_message_queue.MessageQueues.Blocks.{mq_descriptor_free, mq_descriptor_ptr_free}
use disastr_os_message_queue.MessageQueues.Close.{internal_mq_close, close_descriptor}

-- An open descriptor: its place in the process's table, and its entry in the message queue's list.
pub record IsOpen (k : Kernel) (c : Contents) (des : ℕ) (d : Descriptor) (entry : DescriptorPtr)
    (xs ys us vs : List ℕ) : Type 0 where
  pub some_des : des ≢ 0
  pub object : k.object des ≡ mq_descriptor d
  pub some_target : d.target ≢ 0
  pub some_ptr : d.ptr ≢ 0
  pub entry_object : k.object d.ptr ≡ mq_descriptor_ptr entry
  pub in_table : c (mq_descriptors k.running) ≡ xs ++ des ∷ ys
  pub in_target : c (target_descriptors d.target) ≡ us ++ d.ptr ∷ vs

-- The kernel after a close.
pub record Closed (k : Kernel) (c : Contents) (free : ℕ → List ℕ) (self : Pcb) (des : ℕ)
    (d : Descriptor) (xs ys us vs : List ℕ) (k' : Kernel) : Type 0 where
  pub kernel :
      IsKernel k'
        (update
          (update c (mq_descriptors k.running) (xs ++ ys))
          (target_descriptors d.target)
          (us ++ vs))
        (update
          (update free mq_descriptor_pool (des / 16 ∷ free mq_descriptor_pool))
          mq_descriptor_ptr_pool
          (d.ptr / 16 ∷ free mq_descriptor_ptr_pool))
  pub running_object :
      k'.object k.running
      ≡ pcb (record self { last_mq_fd = self.last_mq_fd -ℤ pos 1; syscall_retvalue = pos 0 })
  pub other_objects : (a : ℕ) → a ≢ k.running → k'.object a ≡ k.object a
  pub same_running : k'.running ≡ k.running

module _ {k : Kernel} {c : Contents} {free : ℕ → List ℕ} (w : IsKernel k c free) {self : Pcb}
    (run : Runs k self) {des : ℕ} {d : Descriptor} {entry : DescriptorPtr} {xs ys us vs : List ℕ}
    (o : IsOpen k c des d entry xs ys us vs) where
  in_target' :
      update c (mq_descriptors k.running) (xs ++ ys) (target_descriptors d.target)
      ≡ us ++ d.ptr ∷ vs
  in_target' =
      rw (==-false (target_descriptors d.target) (mq_descriptors k.running) (λ e. omega arith))
        o.in_target

  pub close_descriptor-Closed :
      (k' : Kernel) × (close_descriptor k.running des k ≡ ok (tt, k'))
      × Closed k c free self des d xs ys us vs k'
  unfolding close_descriptor mq_descriptor_free mq_descriptor_ptr_free
  close_descriptor-Closed =
      let table : ℕ = mq_descriptors k.running in
      let target : ℕ = target_descriptors d.target in
      let des_code : des % 16 ≡ 11 = code_at w des (mq_descriptor d) o.object (omega arith) in
      let ptr_code : d.ptr % 16 ≡ 12 =
        code_at w d.ptr (mq_descriptor_ptr entry) o.entry_object (omega arith) in
      let des_taken =
        held-taken w mq_descriptor_pool table des (omega arith) des_code
          (has_middle des xs ys _ o.in_table) in
      let ptr_taken =
        held-taken w mq_descriptor_ptr_pool target d.ptr (omega arith) ptr_code
          (has_middle d.ptr us vs _ o.in_target) in
      let (l1, run1, w1, loose1) = detach-IsKernel w table des xs ys o.in_table in
      let (l2, run2, w2, loose2) = detach-IsKernel w1 target d.ptr us vs in_target' in
      let (a, run3, w3) =
        release_block-IsKernel w2 mq_descriptor_pool des (mq_descriptor d) o.object refl
          (omega arith) (omega arith)
          (detach_still-IsFree target d.ptr us vs w1.lists in_target' des loose1) des_taken in
      let (b, run4, w4) =
        release_block-IsKernel w3 mq_descriptor_ptr_pool d.ptr (mq_descriptor_ptr entry)
          o.entry_object refl (omega arith) (omega arith) loose2 ptr_taken in
      let k4 : Kernel = record k {
        lists = l2;
        pool = update (update k.pool mq_descriptor_pool a) mq_descriptor_ptr_pool b;
      } in
      let run4' : Runs k4 self = record {
        some_pcb = run.some_pcb;
        control_block = run.control_block;
      } in
      let less : Pcb = record self { last_mq_fd = self.last_mq_fd -ℤ pos 1 } in
      let k5 : Kernel = with_running k4 less in
      let run5 : Runs k5 less = record {
        some_pcb = run.some_pcb;
        control_block = rw (==_self k.running) refl;
      } in
      let w5 = with_running-IsKernel w4 self less run4' in
      (
        with_running k5 (record less { syscall_retvalue = pos 0 }),
        rw (load-ok as_mq_descriptor des k d o.some_des (rw o.object refl)) (
            rw (==-false d.target 0 o.some_target) (
              rw run1 (
                rw (==-false d.ptr 0 o.some_ptr) (
                  rw run2 (
                    rw run3 (
                      rw run4 (
                        rw
                          (update_running-ok k4 self run4'
                            (λ p. record p { last_mq_fd = p.last_mq_fd -ℤ pos 1 }))
                          (set_retvalue-ok k5 less run5 (pos 0))))))))),
        record {
          kernel = with_running-IsKernel w5 less (record less { syscall_retvalue = pos 0 }) run5;
          running_object = rw (==_self k.running) refl;
          other_objects = λ x ne. rw (==-false x k.running ne) refl;
          same_running = refl;
        },
      )

  -- In a kernel in order, with a valid descriptor number that is open, in the table of the process
  -- and with its entry in the list of the message queue: `internal_mqClose` ends, takes the
  -- descriptor out of the table and the entry out of the list, frees both blocks, subtracts one
  -- from `last_mq_fd`, returns 0, changes no object but the running process, and leaves the kernel
  -- in order.
  pub internal_mq_close-Closed :
      IsTable k c
      → bad_fd (to_int (self.syscall_args 0)) ≡ false
      → descriptor_by_fd k c (to_int (self.syscall_args 0)) ≡ des
      → (k' : Kernel) × (internal_mq_close k ≡ ok (tt, k'))
        × Closed k c free self des d xs ys us vs k'
  unfolding internal_mq_close
  internal_mq_close-Closed table good found =
      let (k', run', post) = close_descriptor-Closed in
      (
        k',
        rw (int_arg-ok k self run 0) (
            rw good (
              rw (mq_descriptor_list_by_fd-ok k c (to_int (self.syscall_args 0)) w.lists table)
                (rw found (rw (==-false des 0 o.some_des) run')))),
        post,
      )

-- In a kernel in order, with a descriptor number that is out of range or not open:
-- `internal_mqClose` returns DSOS_EMQCLOSE, and writes nothing else.
pub internal_mq_close-refused :
    {k : Kernel} {c : Contents} (free : ℕ → List ℕ) (w : IsKernel k c free) {self : Pcb}
    → Runs k self
    → IsTable k c
    → (bad_fd (to_int (self.syscall_args 0)) ≡ true)
      ⊎ (descriptor_by_fd k c (to_int (self.syscall_args 0)) ≡ 0)
    → internal_mq_close k
      ≡ ok (tt, with_running k (record self { syscall_retvalue = dsos_emqclose }))
unfolding internal_mq_close
internal_mq_close-refused {k} {c} free w {self} run table (inl bad) =
    rw (int_arg-ok k self run 0) (rw bad (set_retvalue-ok k self run dsos_emqclose))
internal_mq_close-refused {k} {c} free w {self} run table (inr none) =
    rw (int_arg-ok k self run 0) (elim (Bool-cases (bad_fd (to_int (self.syscall_args 0)))) [
      | inl bad ↦ rw bad (set_retvalue-ok k self run dsos_emqclose)
      | inr good ↦ rw good (
          rw (mq_descriptor_list_by_fd-ok k c (to_int (self.syscall_args 0)) w.lists table)
            (rw none (set_retvalue-ok k self run dsos_emqclose)))
    ])
