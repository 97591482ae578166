-- ===== src/MessageQueues/Open/Descriptor.antt =====
-- The last part of `internal_mqOpen`: the process gets a descriptor of the message queue.
use disastr_os_message_queue.Base.{
  ℕ, ◌/◌, ◌%◌, ◌≡◌, refl, sym, ap, ◌∙◌, ◌≢◌, false, List, [], ◌∷◌, ◌++◌, arith, update, pos, ◌+ℤ◌,
  ◌-ℤ◌, ok, has, has-append, ==-false, ==_self, subst,
}
use disastr_os_message_queue.LinkedList.Memory.{Contents, IsFree}
use disastr_os_message_queue.Kernel.Object.{
  Object, Pcb, Descriptor, mq_descriptor, mq_descriptor_ptr, pcb,
}
use disastr_os_message_queue.Kernel.State.{
  Kernel, block_at, mq_descriptors, target_descriptors, mq_descriptor_pool, mq_descriptor_ptr_pool,
}
use disastr_os_message_queue.Kernel.Cmd.{as_mq_descriptor}
use disastr_os_message_queue.Kernel.Laws.{
  Runs, with_running, running_pcb-ok, load-ok, update_running-ok,
}
use disastr_os_message_queue.Kernel.Invariant.{IsKernel, code_at, block_at_index, block_at_code}
use disastr_os_message_queue.Kernel.Preserve.{store-IsKernel, with_running-IsKernel}
use disastr_os_message_queue.MessageQueues.Blocks.Descriptors.{
  mq_descriptor_alloc-ok, mq_descriptor_ptr_alloc-ok,
}
use disastr_os_message_queue.Kernel.Take.{taken-not_free, insert_last-IsKernel}
use disastr_os_message_queue.MessageQueues.Blocks.{stale_ptr}
use disastr_os_message_queue.MessageQueues.Open.{open_descriptor}

-- The descriptor that an open makes, in the first free block `i`, with its entry in the block `j`.
abbrev pub new_descriptor : Kernel → Pcb → (mq j : ℕ) → Descriptor
new_descriptor k self mq j = record {
  pcb = k.running;
  target = mq;
  fd = self.last_mq_fd;
  ptr = block_at mq_descriptor_ptr_pool j;
}

-- The lists with the descriptor `des` and the entry `ptr` at the ends of theirs.
abbrev pub with_entry : Contents → (running mq des ptr : ℕ) → Contents
with_entry c running mq des ptr =
    update (update c (mq_descriptors running) (c (mq_descriptors running) ++ des ∷ []))
      (target_descriptors mq) (c (target_descriptors mq) ++ ptr ∷ [])

-- The kernel after an open.
pub record Opened (k : Kernel) (c : Contents) (free : ℕ → List ℕ) (self : Pcb) (mq i : ℕ)
    (is : List ℕ) (j : ℕ) (js : List ℕ) (k' : Kernel) : Type 0 where
  pub kernel :
      IsKernel k'
        (with_entry c k.running mq
          (block_at mq_descriptor_pool i)
          (block_at mq_descriptor_ptr_pool j))
        (update (update free mq_descriptor_pool is) mq_descriptor_ptr_pool js)
  pub descriptor :
      k'.object (block_at mq_descriptor_pool i) ≡ mq_descriptor (new_descriptor k self mq j)
  pub entry :
      k'.object (block_at mq_descriptor_ptr_pool j)
      ≡ mq_descriptor_ptr (record { descriptor = block_at mq_descriptor_pool i })
  pub running_object :
      k'.object k.running
      ≡ pcb (record self {
        last_mq_fd = self.last_mq_fd +ℤ pos 1;
        syscall_retvalue = self.last_mq_fd +ℤ pos 1 -ℤ pos 1;
      })
  pub other_objects :
      (a : ℕ)
      → a ≢ k.running
      → a ≢ block_at mq_descriptor_pool i
      → a ≢ block_at mq_descriptor_ptr_pool j
      → k'.object a ≡ k.object a
  pub same_running : k'.running ≡ k.running

module _ {k : Kernel} {c : Contents} {free : ℕ → List ℕ} (w : IsKernel k c free) {self : Pcb}
    (run : Runs k self) (mq : ℕ) (some_mq : mq ≢ 0) (i : ℕ) (is : List ℕ)
    (first : free mq_descriptor_pool ≡ i ∷ is) (j : ℕ) (js : List ℕ)
    (first' : free mq_descriptor_ptr_pool ≡ j ∷ js) where
  running_code : k.running % 16 ≡ 1
  running_code = code_at w k.running (pcb self) run.control_block (omega arith)

  -- The list of the message queue's entries is not the process's table.
  other_head :
      update c
        (mq_descriptors k.running)
        (c (mq_descriptors k.running) ++ block_at mq_descriptor_pool i ∷ [])
        (target_descriptors mq)
      ≡ c (target_descriptors mq)
  other_head =
      rw (==-false (target_descriptors mq) (mq_descriptors k.running) (λ e. omega arith)) refl

  loose-append :
      IsFree c (block_at mq_descriptor_ptr_pool j)
      → IsFree
          (update c
            (mq_descriptors k.running)
            (c (mq_descriptors k.running) ++ block_at mq_descriptor_pool i ∷ []))
          (block_at mq_descriptor_ptr_pool j)
  loose-append loose g = ground (
    arith,
    loose g,
    loose (mq_descriptors k.running),
    has-append (block_at mq_descriptor_ptr_pool j) (c (mq_descriptors k.running))
        (block_at mq_descriptor_pool i ∷ []),
  )

  pub open_descriptor-Opened :
      (k' : Kernel) × (open_descriptor mq k ≡ ok (tt, k')) × Opened k c free self mq i is j js k'
  unfolding open_descriptor
  open_descriptor-Opened =
      let table : ℕ = mq_descriptors k.running in
      let target : ℕ = target_descriptors mq in
      let des : ℕ = block_at mq_descriptor_pool i in
      let ptr : ℕ = block_at mq_descriptor_ptr_pool j in
      let full_des : Descriptor = new_descriptor k self mq j in
      let fresh_des : Descriptor = record full_des { ptr = stale_ptr (k.object des) } in
      let free2 : ℕ → List ℕ =
        update (update free mq_descriptor_pool is) mq_descriptor_ptr_pool js in
      let (k1, take1, w1, loose_des, objects1, running1) =
        mq_descriptor_alloc-ok w i is self.last_mq_fd mq k.running fresh_des first refl in
      let (k2, take2, w2, loose_ptr, objects2, running2) =
        mq_descriptor_ptr_alloc-ok w1 j js des first' in
      let same : k2.running ≡ k.running = running2 ∙ running1 in
      let is_des : k2.object des ≡ mq_descriptor fresh_des =
        ap (λ (f : ℕ → Object). f des) objects2
        ∙ rw (==-false des ptr (λ e. omega arith))
            (ap (λ (f : ℕ → Object). f des) objects1 ∙ rw (==_self des) refl) in
      let is_ptr : k2.object ptr ≡ mq_descriptor_ptr (record { descriptor = des }) =
        ap (λ (f : ℕ → Object). f ptr) objects2 ∙ rw (==_self ptr) refl in
      let others : (a : ℕ) → a ≢ des → a ≢ ptr → k2.object a ≡ k.object a = λ a ne ne'.
        ap (λ (f : ℕ → Object). f a) objects2
        ∙ rw (==-false a ptr ne')
            (ap (λ (f : ℕ → Object). f a) objects1 ∙ rw (==-false a des ne) refl) in
      let k3 : Kernel = record k2 { object = update k2.object des (mq_descriptor full_des) } in
      let w3 =
        store-IsKernel w2 des (mq_descriptor fresh_des) (mq_descriptor full_des) is_des
          (omega arith) refl in
      let taken_des : has (des / 16) (free2 (des % 16)) ≡ false =
        rw
          (
            block_at_index mq_descriptor_pool i (omega arith),
            block_at_code mq_descriptor_pool i (omega arith),
          )
          (taken-not_free w mq_descriptor_pool i is (omega arith) (omega arith) first) in
      let taken_ptr : has (ptr / 16) (free2 (ptr % 16)) ≡ false =
        rw
          (
            block_at_index mq_descriptor_ptr_pool j (omega arith),
            block_at_code mq_descriptor_ptr_pool j (omega arith),
          )
          (taken-not_free w1 mq_descriptor_ptr_pool j js (omega arith) (omega arith) first') in
      let (l4, run4, w4) =
        insert_last-IsKernel w3 des (λ e. omega arith) loose_des taken_des table in
      let (l5, run5, w5) =
        insert_last-IsKernel w4 ptr (λ e. omega arith) (loose-append loose_ptr) taken_ptr target in
      let k5 : Kernel = record k3 { lists = l5 } in
      let r5 : Runs k5 self = record {
        some_pcb = λ e. run.some_pcb (sym same ∙ e);
        control_block =
            rw (same, ==-false k.running des (λ e. omega (arith, running_code)))
              (others k.running (λ e. omega (arith, running_code))
                  (λ e. omega (arith, running_code))
                ∙ run.control_block);
      } in
      let counted : Pcb = record self { last_mq_fd = self.last_mq_fd +ℤ pos 1 } in
      let k6 : Kernel = with_running k5 counted in
      let r6 : Runs k6 counted = record {
        some_pcb = r5.some_pcb;
        control_block = rw (==_self k2.running) refl;
      } in
      let final : Pcb = record counted { syscall_retvalue = counted.last_mq_fd -ℤ pos 1 } in
      (
        with_running k6 final,
        rw (==-false mq 0 some_mq) (
            rw (running_pcb-ok k self run) (
              rw take1 (
                rw (==-false des 0 (λ e. omega arith)) (
                  rw take2 (
                    rw (==-false ptr 0 (λ e. omega arith)) (
                      rw
                        (load-ok as_mq_descriptor des k2 fresh_des (λ e. omega arith)
                          (rw is_des refl))
                        (rw run4 (
                          rw run5 (
                            rw
                              (update_running-ok k5 self r5
                                (λ p. record p { last_mq_fd = p.last_mq_fd +ℤ pos 1 }))
                              (update_running-ok k6 counted r6 (λ p. record p {
                                syscall_retvalue = p.last_mq_fd -ℤ pos 1;
                              }))))))))))),
        record {
          kernel =
              subst
                (λ z.
                  IsKernel (with_running k6 final)
                    (update (update c table (c table ++ des ∷ [])) target (z ++ ptr ∷ [])) free2)
                other_head
                (with_running-IsKernel (with_running-IsKernel w5 self counted r5) counted final r6);
          descriptor =
              rw (same, ==-false des k.running (λ e. omega (arith, running_code)), ==_self des)
                refl;
          entry =
              rw
                (
                  same,
                  ==-false ptr k.running (λ e. omega (arith, running_code)),
                  ==-false ptr des (λ e. omega arith),
                )
                is_ptr;
          running_object = rw (same, ==_self k.running) refl;
          other_objects = λ x ne ne' ne''.
              rw (same, ==-false x k.running ne, ==-false x des ne') (others x ne' ne'');
          same_running = same;
        },
      )
