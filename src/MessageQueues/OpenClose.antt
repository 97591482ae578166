-- ===== src/MessageQueues/OpenClose.antt =====
-- A descriptor that is opened and then closed.
use disastr_os_message_queue.Base.{
  ℕ, ◌/◌, ◌≡◌, refl, sym, ap, ◌∙◌, ◌≢◌, fun_ext, subst, List, [], ◌∷◌, ◌++◌, append-nil, arith,
  ◌==◌, ==_self, ==-false, ==_iff, Bool-cases, inl, inr, update, ℤ, pos, ◌+ℤ◌, ◌-ℤ◌, ok,
}
use disastr_os_message_queue.LinkedList.Memory.{Contents}
use disastr_os_message_queue.Kernel.Object.{Pcb, pcb}
use disastr_os_message_queue.Kernel.State.{
  Kernel, block_at, mq_descriptors, target_descriptors, mq_descriptor_pool, mq_descriptor_ptr_pool,
}
use disastr_os_message_queue.Kernel.Laws.{Runs}
use disastr_os_message_queue.Kernel.Invariant.{IsKernel, block_at_index}
use disastr_os_message_queue.MessageQueues.Open.{open_descriptor}
use disastr_os_message_queue.MessageQueues.Open.Descriptor.{
  Opened, open_descriptor-Opened, new_descriptor, with_entry,
}
use disastr_os_message_queue.MessageQueues.Close.{close_descriptor}
use disastr_os_message_queue.MessageQueues.Close.Call.{IsOpen, Closed, close_descriptor-Closed}

-- The lists without the entries that were put at their ends.
without-entry :
    (c : Contents) (table target des ptr h : ℕ)
    → target ≢ table
    → update
        (update
          (update (update c table (c table ++ des ∷ [])) target (c target ++ ptr ∷ []))
          table
          (c table ++ []))
        target
        (c target ++ [])
        h
      ≡ c h
without-entry c table target des ptr h ne = elim (Bool-cases (h == target)) [
  | inl same ↦ rw (same, (==_iff h target).0 same) (append-nil (c target))
  | inr other ↦ elim (Bool-cases (h == table)) [
    | inl same ↦ rw (other, same, (==_iff h table).0 same) (append-nil (c table))
    | inr other' ↦ rw (other, other') refl
  ]
]

-- The free blocks with the blocks that were taken.
give_back :
    (free : ℕ → List ℕ) (i : ℕ) (is : List ℕ) (j : ℕ) (js : List ℕ)
    → free mq_descriptor_pool ≡ i ∷ is
    → free mq_descriptor_ptr_pool ≡ j ∷ js
    → (d : ℕ)
    → update
        (update
          (update (update free mq_descriptor_pool is) mq_descriptor_ptr_pool js)
          mq_descriptor_pool
          (i ∷ is))
        mq_descriptor_ptr_pool
        (j ∷ js)
        d
      ≡ free d
give_back free i is j js first first' d = elim (Bool-cases (d == mq_descriptor_ptr_pool)) [
  | inl same ↦ rw (same, (==_iff d mq_descriptor_ptr_pool).0 same) (sym first')
  | inr other ↦ elim (Bool-cases (d == mq_descriptor_pool)) [
    | inl same ↦ rw (other, same, (==_iff d mq_descriptor_pool).0 same) (sym first)
    | inr other' ↦ rw (other, other') refl
  ]
]

add-sub_one : (z : ℤ) → z +ℤ pos 1 -ℤ pos 1 ≡ z
add-sub_one z = ground arith

module _ {k : Kernel} {c : Contents} {free : ℕ → List ℕ} (w : IsKernel k c free) {self : Pcb}
    (run : Runs k self) (mq : ℕ) (some_mq : mq ≢ 0) (i : ℕ) (is : List ℕ)
    (first : free mq_descriptor_pool ≡ i ∷ is) (j : ℕ) (js : List ℕ)
    (first' : free mq_descriptor_ptr_pool ≡ j ∷ js) where
  Opened-IsOpen :
      {k1 : Kernel}
      → Opened k c free self mq i is j js k1
      → IsOpen k1
          (with_entry c k.running mq
            (block_at mq_descriptor_pool i)
            (block_at mq_descriptor_ptr_pool j))
          (block_at mq_descriptor_pool i)
          (new_descriptor k self mq j)
          (record { descriptor = block_at mq_descriptor_pool i })
          (c (mq_descriptors k.running))
          []
          (c (target_descriptors mq))
          []
  Opened-IsOpen o = record {
    some_des = λ e. omega arith;
    object = o.descriptor;
    some_target = some_mq;
    some_ptr = λ e. omega arith;
    entry_object = o.entry;
    in_table =
        rw
          (
            o.same_running,
            ==-false (mq_descriptors k.running) (target_descriptors mq) (λ e. omega arith),
            ==_self (mq_descriptors k.running),
          )
          refl;
    in_target = rw (==_self (target_descriptors mq)) refl;
  }

  restored :
      {k1 k2 : Kernel} {self1 : Pcb}
      → Opened k c free self mq i is j js k1
      → Closed k1
          (with_entry c k.running mq
            (block_at mq_descriptor_pool i)
            (block_at mq_descriptor_ptr_pool j))
          (update (update free mq_descriptor_pool is) mq_descriptor_ptr_pool js)
          self1
          (block_at mq_descriptor_pool i)
          (new_descriptor k self mq j)
          (c (mq_descriptors k.running))
          []
          (c (target_descriptors mq))
          []
          k2
      → IsKernel k2 c free
  restored {k1} {k2} o closed =
      let table : ℕ = mq_descriptors k.running in
      let target : ℕ = target_descriptors mq in
      let c1 : Contents =
        with_entry c k.running mq (block_at mq_descriptor_pool i)
          (block_at mq_descriptor_ptr_pool j) in
      let free2 : ℕ → List ℕ =
        update (update free mq_descriptor_pool is) mq_descriptor_ptr_pool js in
      let free3 : ℕ → List ℕ =
        update (update free2 mq_descriptor_pool (block_at mq_descriptor_pool i / 16 ∷ is))
          mq_descriptor_ptr_pool (block_at mq_descriptor_ptr_pool j / 16 ∷ js) in
      let same_free : free3 ≡ free = fun_ext (λ d.
        rw
          (
            block_at_index mq_descriptor_pool i (omega arith),
            block_at_index mq_descriptor_ptr_pool j (omega arith),
          )
          (give_back free i is j js first first' d)) in
      subst (IsKernel k2 c) same_free (
        subst (λ z. IsKernel k2 z free3)
          (fun_ext (λ h.
            ap
              (λ r. update (update c1 (mq_descriptors r) (c table ++ [])) target (c target ++ []) h)
              o.same_running
            ∙ without-entry c table target (block_at mq_descriptor_pool i)
                (block_at mq_descriptor_ptr_pool j) h (λ e. omega arith)))
          closed.kernel)

  -- In a kernel in order, with a message queue that is not NULL and free blocks for a descriptor
  -- and an entry: the last part of `internal_mqOpen` ends, and the last part of `internal_mqClose`
  -- on the new descriptor then ends and leaves a kernel in order with the lists, in their order,
  -- and the free blocks as they were at first, `last_mq_fd` as it was, and 0 as the return value.
  pub close_descriptor-open_descriptor :
      (k1 : Kernel) × (k2 : Kernel) × (open_descriptor mq k ≡ ok (tt, k1))
      × (close_descriptor k1.running (block_at mq_descriptor_pool i) k1 ≡ ok (tt, k2))
      × IsKernel k2 c free
      × (k2.object k.running ≡ pcb (record self { syscall_retvalue = pos 0 }))
  close_descriptor-open_descriptor =
      let (k1, run1, o) = open_descriptor-Opened w run mq some_mq i is first j js first' in
      let self1 : Pcb = record self {
        last_mq_fd = self.last_mq_fd +ℤ pos 1;
        syscall_retvalue = self.last_mq_fd +ℤ pos 1 -ℤ pos 1;
      } in
      let r1 : Runs k1 self1 = record {
        some_pcb = λ e. run.some_pcb (sym o.same_running ∙ e);
        control_block = rw o.same_running o.running_object;
      } in
      let (k2, run2, closed) = close_descriptor-Closed o.kernel r1 (Opened-IsOpen o) in
      (
        k1,
        k2,
        run1,
        run2,
        restored o closed,
        ap k2.object (sym o.same_running)
            ∙ closed.running_object
            ∙ ap (λ z. pcb (record self { last_mq_fd = z; syscall_retvalue = pos 0 }))
                (add-sub_one self.last_mq_fd),
      )
