-- ===== src/Semaphores/Wait/Block.antt =====
-- A process that has to wait for a semaphore.
use disastr_os_message_queue.Base.{
  ℕ, ◌/◌, ◌%◌, ◌≡◌, refl, ◌≢◌, true, false, List, [], ◌∷◌, ◌++◌, arith, update, ok, has, has-append,
  ==-false, subst, has_middle,
}
use disastr_os_message_queue.LinkedList.Memory.{Contents, IsFree, detach_still-IsFree}
use disastr_os_message_queue.Kernel.State.{
  Kernel, ready_list, waiting_list, target_descriptors, waiting_descriptors,
}
use disastr_os_message_queue.Kernel.Invariant.{IsKernel, IsKernel-frame, first_ne_zero}
use disastr_os_message_queue.Kernel.Preserve.{detach-IsKernel, held-taken}
use disastr_os_message_queue.Kernel.Take.{insert_last-IsKernel}
use disastr_os_message_queue.Semaphores.Wait.{block_on}

-- The lists once the entry `ptr` and the process `self` wait, and the rest of the ready list.
abbrev pub blocked : Contents → (sem ptr self : ℕ) → List ℕ → List ℕ → Contents
blocked c sem ptr self entries rest =
    update
      (update
        (update (update c (target_descriptors sem) entries) (waiting_descriptors sem)
          (c (waiting_descriptors sem) ++ ptr ∷ []))
        ready_list rest)
      waiting_list (c waiting_list ++ self ∷ [])

module _ {k : Kernel} {c : Contents} {free : ℕ → List ℕ} (w : IsKernel k c free)
    (self sem ptr next : ℕ) (us vs rest : List ℕ) (some_self : self ≢ 0) (some_sem : sem ≢ 0)
    (some_ptr : ptr ≢ 0) (entry : c (target_descriptors sem) ≡ us ++ ptr ∷ vs)
    (ready : c ready_list ≡ next ∷ rest) (loose : IsFree c self)
    (taken : has (self / 16) (free (self % 16)) ≡ false) where
  next-ne_zero : next ≢ 0
  next-ne_zero = first_ne_zero w ready_list next rest ready

  entry-has : has ptr (c (target_descriptors sem)) ≡ true
  entry-has = has_middle ptr us vs _ entry

  entry-ne : ptr ≢ self
  entry-ne e = ground (arith, entry-has, loose (target_descriptors sem))

  -- In a kernel in order, with the entry in the list of the semaphore, a process that is ready,
  -- and the running process in no list and in a block that is not free: the part of
  -- `internal_semWait` for a semaphore without resources ends, moves the entry to the end of the
  -- semaphore's list of waiting entries and the running process to the end of the waiting list,
  -- takes the first process out of the ready list and makes it the running one, changes no object,
  -- so that no process gets another status, and leaves the kernel in order.
  pub block_on-blocked :
      (k' : Kernel) × (block_on self sem ptr k ≡ ok (tt, k'))
      × IsKernel k' (blocked c sem ptr self (us ++ vs) rest) free
      × (k'.running ≡ next)
      × (k'.object ≡ k.object)
  unfolding block_on
  block_on-blocked =
      let target : ℕ = target_descriptors sem in
      let waiting : ℕ = waiting_descriptors sem in
      let ptr_taken = held-taken w (ptr % 16) target ptr (omega arith) refl entry-has in
      let (l1, run1, w1, loose1) = detach-IsKernel w target ptr us vs entry in
      let c1 : Contents = update c target (us ++ vs) in
      let self1 : IsFree c1 self = detach_still-IsFree target ptr us vs w.lists entry self loose in
      let (l2, run2, w2) = insert_last-IsKernel w1 ptr some_ptr loose1 ptr_taken waiting in
      let c2 : Contents = update c1 waiting (c1 waiting ++ ptr ∷ []) in
      let self2 : IsFree c2 self = λ g.
        ground (arith, self1 g, self1 waiting, has-append self (c1 waiting) (ptr ∷ []), entry-ne) in
      let ready2 : c2 ready_list ≡ next ∷ rest =
        rw
          (
            ==-false ready_list waiting (λ e. omega arith),
            ==-false ready_list target (λ e. omega arith),
          )
          ready in
      let (l3, run3, w3, loose3) = detach-IsKernel w2 ready_list next [] rest ready2 in
      let c3 : Contents = update c2 ready_list rest in
      let self3 : IsFree c3 self =
        detach_still-IsFree ready_list next [] rest w2.lists ready2 self self2 in
      let (l4, run4, w4) = insert_last-IsKernel w3 self some_self self3 taken waiting_list in
      let k4 : Kernel = record k { lists = l4; running = next } in
      let w4' : IsKernel k4 (update c3 waiting_list (c3 waiting_list ++ self ∷ [])) free =
        IsKernel-frame w4 refl refl refl in
      (
        k4,
        rw (==-false ptr 0 some_ptr) (
            rw run1 (
              rw (==-false ptr 0 some_ptr) (
                rw run2 (
                  rw ((w2.lists.lists ready_list).first)
                    (rw ready2 (rw run3 (rw (==-false next 0 next-ne_zero) (rw run4 refl)))))))),
        subst
            (λ z.
              IsKernel k4
                (update (update (update c1 waiting (z ++ ptr ∷ [])) ready_list rest) waiting_list
                  (c waiting_list ++ self ∷ []))
                free)
            (other c target waiting (us ++ vs) (λ e. omega arith))
            (subst (λ z. IsKernel k4 (update c3 waiting_list (z ++ self ∷ [])) free)
              (rw
                (
                  ==-false waiting_list waiting (λ e. omega arith),
                  ==-false waiting_list target (λ e. omega arith),
                )
                refl)
              w4'),
        refl,
        refl,
      )
    where
      other : (c : Contents) (h g : ℕ) (xs : List ℕ) → g ≢ h → update c h xs g ≡ c g
      other c h g xs apart = rw (==-false g h apart) refl
