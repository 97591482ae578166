-- ===== src/Semaphores/Post/Awake.antt =====
-- A post on a semaphore that a process waits for.
use disastr_os_message_queue.Base.{
  ℕ, suc, length, eqb_ℤ, ◌%◌, ◌≡◌, refl, sym, ◌∙◌, ◌≢◌, true, false, List, [], ◌∷◌, ◌++◌, arith,
  update, pos, ◌+ℤ◌, ◌-ℤ◌, ltb_ℤ, ok, has, ==-false, ==_self, subst, update_twice, has_middle,
}
use disastr_os_message_queue.LinkedList.Memory.{Contents, has-ne_zero, detach_still-IsFree}
use disastr_os_message_queue.Kernel.Object.{
  Semaphore, Descriptor, DescriptorPtr, semaphore, sem_descriptor, sem_descriptor_ptr,
}
use disastr_os_message_queue.Kernel.State.{
  Kernel, ready_list, waiting_list, target_descriptors, waiting_descriptors,
}
use disastr_os_message_queue.Kernel.Cmd.{as_semaphore, as_sem_descriptor, as_sem_descriptor_ptr}
use disastr_os_message_queue.Kernel.Laws.{load-ok}
use disastr_os_message_queue.Kernel.Invariant.{IsKernel, code_at}
use disastr_os_message_queue.Kernel.Preserve.{detach-IsKernel, store-IsKernel, held-taken}
use disastr_os_message_queue.Kernel.Take.{insert_last-IsKernel, insert_last-IsFree}
use disastr_os_message_queue.Semaphores.Post.{awake_first, post_semaphore}

-- The entry, its descriptor and the process that waited longest for the semaphore.
pub record IsFirstWaiter (k : Kernel) (c : Contents) (sem entry des : ℕ) (d : Descriptor)
    (waiters us vs : List ℕ) : Type 0 where
  pub first : c (waiting_descriptors sem) ≡ entry ∷ waiters
  pub entry_block : k.object entry ≡ sem_descriptor_ptr (record { descriptor = des })
  pub some_descriptor : des ≢ 0
  pub descriptor_block : k.object des ≡ sem_descriptor d
  pub waits : c waiting_list ≡ us ++ d.pcb ∷ vs

-- The lists once the process `p` of the entry is ready and the entry back in the list of the semaphore.
abbrev pub awakened : Contents → (sem entry p : ℕ) → (waiters waiting : List ℕ) → Contents
awakened c sem entry p waiters waiting =
    update
      (update (update (update c (waiting_descriptors sem) waiters) waiting_list waiting) ready_list
        (c ready_list ++ p ∷ []))
      (target_descriptors sem) (c (target_descriptors sem) ++ entry ∷ [])

module _ {k : Kernel} {c : Contents} {free : ℕ → List ℕ} (w : IsKernel k c free) (sem : ℕ)
    {s : Semaphore} (block : k.object sem ≡ semaphore s) (entry des : ℕ) {d : Descriptor}
    (waiters us vs : List ℕ) (f : IsFirstWaiter k c sem entry des d waiters us vs) where
  sem_code : sem % 16 ≡ 7
  sem_code = code_at w sem (semaphore s) block (omega arith)

  entry_code : entry % 16 ≡ 9
  entry_code = code_at w entry _ f.entry_block (omega arith)

  des_code : des % 16 ≡ 8
  des_code = code_at w des (sem_descriptor d) f.descriptor_block (omega arith)

  p_waits : has d.pcb (c waiting_list) ≡ true
  p_waits = has_middle d.pcb us vs _ f.waits

  p_ne_zero : d.pcb ≢ 0
  p_ne_zero e = ground (
    arith,
    p_waits,
    subst (λ z. has z (c waiting_list) ≡ false) (sym e) (has-ne_zero w.lists waiting_list),
  )

  pub awake_first-Awakened :
      (k' : Kernel) × (awake_first sem k ≡ ok (tt, k'))
      × IsKernel k' (awakened c sem entry d.pcb waiters (us ++ vs)) free
      × (k'.object ≡ update k.object sem (semaphore (record s { count = s.count -ℤ pos 1 })))
      × (k'.running ≡ k.running)
  unfolding awake_first
  awake_first-Awakened =
      let p : ℕ = d.pcb in
      let waiting : ℕ = waiting_descriptors sem in
      let target : ℕ = target_descriptors sem in
      let ptr : DescriptorPtr = record { descriptor = des } in
      let s1 : Semaphore = record s { count = s.count -ℤ pos 1 } in
      let k1 : Kernel = record k { object = update k.object sem (semaphore s1) } in
      let w1 = store-IsKernel w sem (semaphore s) (semaphore s1) block (omega arith) refl in
      let (l2, run2, w2, loose_entry) = detach-IsKernel w1 waiting entry [] waiters f.first in
      let c2 : Contents = update c waiting waiters in
      let k2 : Kernel = record k1 { lists = l2 } in
      let waits2 : c2 waiting_list ≡ us ++ p ∷ vs =
        rw (==-false waiting_list waiting (λ e. omega (arith, sem_code))) f.waits in
      let p_in_c2 : has p (c2 waiting_list) ≡ true =
        rw (==-false waiting_list waiting (λ e. omega (arith, sem_code))) p_waits in
      let apart : entry ≢ p = λ e. ground (arith, p_in_c2, loose_entry waiting_list) in
      let (l3, run3, w3, loose_p) = detach-IsKernel w2 waiting_list p us vs waits2 in
      let entry3 = detach_still-IsFree waiting_list p us vs w2.lists waits2 entry loose_entry in
      let c3 : Contents = update c2 waiting_list (us ++ vs) in
      let (l4, run4, w4) =
        insert_last-IsKernel w3 p p_ne_zero loose_p
          (held-taken w (p % 16) waiting_list p (omega arith) refl p_waits) ready_list in
      let (l5, run5, w5) =
        insert_last-IsKernel w4 entry (λ e. omega (arith, entry_code))
          (insert_last-IsFree c3 ready_list p entry entry3 apart)
          (held-taken w (entry % 16) waiting entry (omega arith) refl (rw f.first (ground arith)))
          target in
      let c4 : Contents = update c3 ready_list (c3 ready_list ++ p ∷ []) in
      let ready3 : c3 ready_list ≡ c ready_list =
        rw (==-false ready_list waiting (λ e. omega arith)) refl in
      let target4 : c4 target ≡ c target =
        rw
          (
            ==-false target ready_list (λ e. omega (arith, sem_code)),
            ==-false target waiting_list (λ e. omega (arith, sem_code)),
            ==-false target waiting (λ e. omega arith),
          )
          refl in
      let k5 : Kernel = record k1 { lists = l5 } in
      (
        k5,
        rw (load-ok as_semaphore sem k s (λ e. omega (arith, sem_code)) (rw block refl)) (
            rw ((w.lists.lists waiting).first) (
              rw f.first (
                rw run2 (
                  rw
                    (load-ok as_sem_descriptor_ptr entry k2 ptr (λ e. omega (arith, entry_code))
                      (rw (==-false entry sem (λ e. omega (arith, entry_code, sem_code)))
                        (rw f.entry_block refl)))
                    (rw
                      (load-ok as_sem_descriptor des k2 d f.some_descriptor (
                        rw (==-false des sem (λ e. omega (arith, des_code, sem_code)))
                          (rw f.descriptor_block refl)))
                      (rw (==-false p 0 p_ne_zero) (rw run3 (rw run4 (rw run5 refl))))))))),
        subst
            (λ z.
              IsKernel k5
                (update (update c3 ready_list (z ++ p ∷ [])) target (c target ++ entry ∷ [])) free)
            ready3 (subst (λ z. IsKernel k5 (update c4 target (z ++ entry ∷ [])) free) target4 w5),
        refl,
        refl,
      )

module _ {k : Kernel} {c : Contents} {free : ℕ → List ℕ} (w : IsKernel k c free) (sem : ℕ)
    {s : Semaphore} (block : k.object sem ≡ semaphore s) (entry des : ℕ) {d : Descriptor}
    (waiters us vs : List ℕ) (f : IsFirstWaiter k c sem entry des d waiters us vs)
    (positive : ltb_ℤ (pos 0) (s.count +ℤ pos 1) ≡ true) where
  -- In a kernel in order, with a semaphore whose count is positive once it is increased, whose
  -- first waiting entry has a descriptor with a process in the waiting list: the part of
  -- `internal_semPost` past the checks of the descriptor ends, moves the process to the end of the
  -- ready list and the entry to the end of the semaphore's list, takes the increase of the count
  -- back, changes no other object, and leaves the kernel in order.
  pub post_semaphore-Awakened :
      (k' : Kernel) × (post_semaphore sem k ≡ ok (tt, k'))
      × IsKernel k' (awakened c sem entry d.pcb waiters (us ++ vs)) free
      × (k'.object
          ≡ update k.object sem (semaphore (record s { count = s.count +ℤ pos 1 -ℤ pos 1 })))
      × (k'.running ≡ k.running)
  unfolding post_semaphore
  post_semaphore-Awakened =
      let code : sem % 16 ≡ 7 = code_at w sem (semaphore s) block (omega arith) in
      let entry_is : entry % 16 ≡ 9 = code_at w entry _ f.entry_block (omega arith) in
      let des_is : des % 16 ≡ 8 =
        code_at w des (sem_descriptor d) f.descriptor_block (omega arith) in
      let some_waiters : eqb_ℤ (k.lists.head (waiting_descriptors sem)).size (pos 0) ≡ false =
        rw ((w.lists.lists (waiting_descriptors sem)).size, f.first)
          (rw (==-false (suc (length waiters)) 0 (λ e. omega arith)) refl) in
      let s1 : Semaphore = record s { count = s.count +ℤ pos 1 } in
      let k1 : Kernel = record k { object = update k.object sem (semaphore s1) } in
      let w1 = store-IsKernel w sem (semaphore s) (semaphore s1) block (omega arith) refl in
      let (k2, run2, w2, object2, running2) =
        awake_first-Awakened w1 sem (rw (==_self sem) refl) entry des {d = d} waiters us vs
          (record {
            first = f.first;
            entry_block =
                rw (==-false entry sem (λ e. omega (arith, entry_is, code))) f.entry_block;
            some_descriptor = f.some_descriptor;
            descriptor_block =
                rw (==-false des sem (λ e. omega (arith, des_is, code))) f.descriptor_block;
            waits = f.waits;
          }) in
      (
        k2,
        rw (load-ok as_semaphore sem k s (λ e. omega (arith, code)) (rw block refl))
            (rw positive (rw some_waiters run2)),
        w2,
        object2 ∙ update_twice k.object sem (semaphore s1) _,
        running2,
      )
