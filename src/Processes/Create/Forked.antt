-- ===== src/Processes/Create/Forked.antt =====
-- A process that forks.
use disastr_os_message_queue.Base.{
  ℕ, ◌%◌, ◌≡◌, refl, sym, ap, ◌∙◌, ◌≢◌, List, [], ◌∷◌, ◌++◌, arith, update, ok, ==-false, ==_self,
  subst, update_other,
}
use disastr_os_message_queue.LinkedList.Memory.{Contents}
use disastr_os_message_queue.Kernel.Object.{Object, Pcb, pcb, pcb_ptr, ready}
use disastr_os_message_queue.Kernel.State.{
  Kernel, block_at, pcb_pool, pcb_ptr_pool, children, ready_list,
}
use disastr_os_message_queue.Kernel.Cmd.{as_pcb}
use disastr_os_message_queue.Kernel.Laws.{
  Runs, with_running, running_pcb-ok, load-ok, set_retvalue-ok,
}
use disastr_os_message_queue.Kernel.Invariant.{IsKernel, code_at, block_at_index, block_at_code}
use disastr_os_message_queue.Kernel.Preserve.{store-IsKernel, with_running-IsKernel}
use disastr_os_message_queue.Kernel.Take.{
  taken-not_free, taken_block-not_free, insert_last-IsKernel, insert_last-IsFree,
}
use disastr_os_message_queue.Processes.Blocks.Alloc.{
  IsUnused, first_pcb, pcb_alloc-ok, pcb_ptr_alloc-ok,
}
use disastr_os_message_queue.Processes.Create.{internal_fork}

-- The lists with the child `p` ready, and its entry `entry` among the children of `self`.
abbrev pub with_child : Contents → (self p entry : ℕ) → Contents
with_child c self p entry =
    update (update c (children self) (c (children self) ++ entry ∷ [])) ready_list
      (c ready_list ++ p ∷ [])

-- The kernel after a fork with the first free blocks `i` and `j`.
pub record Forked (k : Kernel) (c : Contents) (free : ℕ → List ℕ) (self : Pcb) (i : ℕ) (is : List ℕ)
    (j : ℕ) (js : List ℕ) (k' : Kernel) : Type 0 where
  pub kernel :
      IsKernel k'
        (with_child c k.running (block_at pcb_pool i) (block_at pcb_ptr_pool j))
        (update (update free pcb_pool is) pcb_ptr_pool js)
  pub child :
      k'.object (block_at pcb_pool i)
      ≡ pcb (record (first_pcb k i) { status = ready; parent = k.running })
  pub entry : k'.object (block_at pcb_ptr_pool j) ≡ pcb_ptr (record { pcb = block_at pcb_pool i })
  pub parent : k'.object k.running ≡ pcb (record self { syscall_retvalue = k.last_pid })
  pub other_objects :
      (a : ℕ)
      → a ≢ k.running
      → a ≢ block_at pcb_pool i
      → a ≢ block_at pcb_ptr_pool j
      → k'.object a ≡ k.object a
  pub same_running : k'.running ≡ k.running

module _ {k : Kernel} {c : Contents} {free : ℕ → List ℕ} (w : IsKernel k c free) {self : Pcb}
    (run : Runs k self) (i : ℕ) (is : List ℕ) (first : free pcb_pool ≡ i ∷ is)
    (unused : IsUnused c (block_at pcb_pool i)) (old : k.running ≢ block_at pcb_pool i) (j : ℕ)
    (js : List ℕ) (first' : free pcb_ptr_pool ≡ j ∷ js) where
  running_code : k.running % 16 ≡ 1
  running_code = code_at w k.running (pcb self) run.control_block (omega arith)

  other_head :
      update c
        (children k.running)
        (c (children k.running) ++ block_at pcb_ptr_pool j ∷ [])
        ready_list
      ≡ c ready_list
  other_head = update_other c (children k.running) _ ready_list (λ e. omega (arith, running_code))

  -- In a kernel in order, with free blocks for a process and an entry, the lists of that process
  -- block empty, and the running process in another block: `internal_fork` ends, puts the new
  -- process, ready and with the running one as its parent, at the end of the ready list and its
  -- entry at the end of the children of the running process, returns the new process's number,
  -- changes no other object, and leaves the kernel in order.
  pub internal_fork-Forked :
      (k' : Kernel) × (internal_fork k ≡ ok (tt, k')) × Forked k c free self i is j js k'
  unfolding internal_fork
  internal_fork-Forked =
      let p : ℕ = block_at pcb_pool i in
      let e : ℕ = block_at pcb_ptr_pool j in
      let r : Pcb = first_pcb k i in
      let free2 : ℕ → List ℕ = update (update free pcb_pool is) pcb_ptr_pool js in
      let with_entry : ℕ → Contents = λ s.
        let d : Contents = update c (children s) (c (children s) ++ e ∷ []) in
        update d ready_list (d ready_list ++ p ∷ []) in
      let (k1, take1, w1, loose_p, objects1, running1, next1) = pcb_alloc-ok w i is first unused in
      let child : Pcb = record r { status = ready; parent = k1.running } in
      let is_p : k1.object p ≡ pcb r =
        ap (λ (f : ℕ → Object). f p) objects1 ∙ rw (==_self p) refl in
      let k2 : Kernel = record k1 { object = update k1.object p (pcb child) } in
      let w2 = store-IsKernel w1 p (pcb r) (pcb child) is_p (omega arith) refl in
      let (k3, take3, w3, loose_e, objects3, running3) = pcb_ptr_alloc-ok w2 j js p first' in
      let same : k3.running ≡ k.running = running3 ∙ running1 in
      let is_child : k3.object p ≡ pcb child =
        ap (λ (f : ℕ → Object). f p) objects3
        ∙ rw (==-false p e (λ q. omega arith), ==_self p) refl in
      let others : (a : ℕ) → a ≢ p → a ≢ e → k3.object a ≡ k.object a = λ a ne ne'.
        ap (λ (f : ℕ → Object). f a) objects3
        ∙ rw (==-false a e ne', ==-false a p ne)
            (ap (λ (f : ℕ → Object). f a) objects1 ∙ rw (==-false a p ne) refl) in
      let run3 : Runs k3 self = record {
        some_pcb = λ q. run.some_pcb (sym same ∙ q);
        control_block =
            rw same (others k.running old (λ q. omega (arith, running_code)) ∙ run.control_block);
      } in
      let (l4, run4, w4) =
        insert_last-IsKernel w3 e (λ q. omega arith) loose_e
          (taken_block-not_free w2 pcb_ptr_pool j js (omega arith) (omega arith) first')
          (children k1.running) in
      let (l5, run5, w5) =
        insert_last-IsKernel w4 p (λ q. omega arith)
          (insert_last-IsFree c (children k1.running) e p loose_p (λ q. omega arith))
          (rw (block_at_index pcb_pool i (omega arith), block_at_code pcb_pool i (omega arith))
            (taken-not_free w pcb_pool i is (omega arith) (omega arith) first))
          ready_list in
      let k5 : Kernel = record k3 { lists = l5 } in
      let run5' : Runs k5 self = record {
        some_pcb = run3.some_pcb;
        control_block = run3.control_block;
      } in
      let final : Pcb = record self { syscall_retvalue = r.pid } in
      (
        with_running k5 final,
        rw take1 (
            rw (==-false p 0 (λ q. omega arith)) (
              rw (load-ok as_pcb p k1 r (λ q. omega arith) (rw is_p refl)) (
                rw take3 (
                  rw (==-false e 0 (λ q. omega arith)) (
                    rw (running_pcb-ok k3 self run3) (
                      rw run4 (
                        rw run5 (
                          rw (load-ok as_pcb p k5 child (λ q. omega arith) (rw is_child refl))
                            (set_retvalue-ok k5 self run5' r.pid))))))))),
        record {
          kernel =
              subst
                (λ z.
                  IsKernel (with_running k5 final)
                    (update (update c (children k.running) (c (children k.running) ++ e ∷ []))
                      ready_list (z ++ p ∷ []))
                    free2)
                other_head
                (subst (λ s. IsKernel (with_running k5 final) (with_entry s) free2) running1
                  (with_running-IsKernel w5 self final run5'));
          child =
              rw (same, ==-false p k.running (λ q. old (sym q)))
                (is_child ∙ ap (λ s. pcb (record r { status = ready; parent = s })) running1);
          entry =
              rw (same, ==-false e k.running (λ q. omega (arith, running_code)))
                (ap (λ (f : ℕ → Object). f e) objects3 ∙ rw (==_self e) refl);
          parent = rw (same, ==_self k.running) refl;
          other_objects = λ a ne ne' ne''. rw (same, ==-false a k.running ne) (others a ne' ne'');
          same_running = same;
        },
      )
