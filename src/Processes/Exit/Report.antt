-- ===== src/Processes/Exit/Report.antt =====
-- The end of a process whose parent waits for it.
use disastr_os_message_queue.Base.{
  ℕ, ◌/◌, ◌%◌, ◌<◌, ◌≡◌, refl, sym, ap, ◌∙◌, ◌≢◌, true, false, List, [], ◌∷◌, ◌++◌, arith, update,
  ℤ, pos, eqb_ℤ, ok, has, length, ==-false, ==_self, update_other, update_twice, subst, ◌==◌,
  ==_iff, Bool-cases, inl, inr, true-ne-false, has_middle,
}
use disastr_os_message_queue.LinkedList.Memory.{Contents, has-ne_zero}
use disastr_os_message_queue.Kernel.Object.{Object, Pcb, pcb, pcb_ptr, running}
use disastr_os_message_queue.Kernel.State.{
  Kernel, pcb_pool, children, descriptors, waiting_list, zombie_list, timer_list, list_fuel,
}
use disastr_os_message_queue.Kernel.Cmd.{as_pcb}
use disastr_os_message_queue.Kernel.Laws.{load-ok, write_int-ok}
use disastr_os_message_queue.Kernel.Invariant.{IsKernel, code_at, code_of, IsKernel-frame}
use disastr_os_message_queue.Kernel.Preserve.{
  detach-IsKernel, store-IsKernel, held-taken, release_block-IsKernel,
}
use disastr_os_message_queue.Processes.Blocks.{pcb_free}
use disastr_os_message_queue.Processes.Exit.{report}
use disastr_os_message_queue.Processes.Exit.Children.{IsChild}
use disastr_os_message_queue.Processes.Exit.Loops.{
  AreSiblings, AreForeign, pcb_ptr_by_pid-found, drop_timers-foreign, drop_descriptors-none,
}

-- The process `self`, with the control block `r`, is a zombie without descriptors and timers; its parent
-- waits, with a place for the value, and has its entry `e`.
pub record IsReady (k : Kernel) (c : Contents) (self parent e : ℕ) (r p : Pcb)
    (fs gs us vs xs ys : List ℕ) (result : ℕ) : Type 0 where
  pub parent_waits : c waiting_list ≡ xs ++ parent ∷ ys
  pub parent_block : k.object parent ≡ pcb p
  pub dead : c zombie_list ≡ us ++ self ∷ vs
  pub entries : c (children parent) ≡ fs ++ e ∷ gs
  pub child : IsChild k e self r
  pub siblings : AreSiblings k r.pid fs
  pub few : length fs < list_fuel
  pub apart : self ≢ parent
  pub result_arg : p.syscall_args 1 ≡ pos result
  pub some_result : result ≢ 0
  pub foreign : AreForeign k self (c timer_list)
  pub few_timers : length (c timer_list) < list_fuel
  pub no_descriptors : c (descriptors self) ≡ []

-- The kernel once the parent runs, with the number and the value of the process.
pub record Reported (k : Kernel) (c : Contents) (free : ℕ → List ℕ) (self parent : ℕ) (r p : Pcb)
    (siblings zombies waiters : List ℕ) (result : ℕ) (k' : Kernel) : Type 0 where
  pub kernel :
      IsKernel k'
        (update
          (update (update c waiting_list waiters) (children parent) siblings)
          zombie_list
          zombies)
        (update free pcb_pool (self / 16 ∷ free pcb_pool))
  pub objects :
      k'.object
      ≡ update k.object parent (pcb (record p { status = running; syscall_retvalue = r.pid }))
  pub value : k'.ints ≡ update k.ints result r.return_value
  pub new_running : k'.running ≡ parent

-- The siblings keep their numbers when the parent's status changes.
AreSiblings-update :
    (k k' : Kernel) (parent : ℕ) (p p' : Pcb) (pid : ℤ) (es : List ℕ)
    → k.object parent ≡ pcb p
    → p'.pid ≡ p.pid
    → k'.object ≡ update k.object parent (pcb p')
    → AreSiblings k pid es
    → AreSiblings k' pid es
AreSiblings-update k k' parent p p' pid es block same objects siblings e h =
    let (q, s, child, other) = siblings e h in
    let at : (a : ℕ) → k'.object a ≡ update k.object parent (pcb p') a =
      λ a. ap (λ (f : ℕ → Object). f a) objects in
    let no_entry : e ≢ parent = λ z.
      let codes = ap code_of (sym child.entry ∙ ap k.object z ∙ block) in omega (arith, codes) in
    let entry : k'.object e ≡ pcb_ptr (record { pcb = q }) =
      at e ∙ rw (==-false e parent no_entry) child.entry in
    elim (Bool-cases (q == parent)) [
      | inl z ↦ (
        q,
        p',
        record { entry = entry; some_process = child.some_process; process = at q ∙ rw z refl },
        ap (λ i. eqb_ℤ i pid)
              (same
                ∙ ap pid_of (sym block ∙ ap k.object (sym ((==_iff q parent).0 z)) ∙ child.process))
            ∙ other,
      )
      | inr z ↦ (
        q,
        s,
        record {
          entry = entry;
          some_process = child.some_process;
          process = at q ∙ rw z child.process;
        },
        other,
      )
    ]
  where
    pid_of : Object → ℤ
    pid_of (pcb s) = s.pid
    pid_of _ = pos 0

module _ {k : Kernel} {c : Contents} {free : ℕ → List ℕ} (w : IsKernel k c free) (self parent e : ℕ)
    (r p : Pcb) (fs gs us vs xs ys : List ℕ) (result : ℕ)
    (f : IsReady k c self parent e r p fs gs us vs xs ys result) where
  parent_in : has parent (c waiting_list) ≡ true
  parent_in = has_middle parent xs ys _ f.parent_waits

  self_in : has self (c zombie_list) ≡ true
  self_in = has_middle self us vs _ f.dead

  parent_ne_zero : parent ≢ 0
  parent_ne_zero z = true-ne-false (
      sym parent_in
      ∙ subst (λ a. has a (c waiting_list) ≡ false) (sym z) (has-ne_zero w.lists waiting_list))

  -- In a kernel in order, with a process among the zombies that has no timer and no descriptor,
  -- another process, its parent, in the waiting list with a non-null place for the value, and its
  -- entry among the parent's children behind entries of processes with other numbers, with fewer
  -- entries and timers than the rounds of the loops: the part of `internal_exit` for a parent that
  -- waits ends, takes the parent out of the waiting list, the entry out of the children and the
  -- process out of the zombies, frees the block of the process, gives the parent the process's
  -- number and value, makes it the running process, changes no other object, and leaves the kernel
  -- in order.
  pub report-Reported :
      (k' : Kernel) × (report self parent k ≡ ok (tt, k'))
      × Reported k c free self parent r p (fs ++ gs) (us ++ vs) (xs ++ ys) result k'
  unfolding report pcb_free
  report-Reported =
      let parent_code : parent % 16 ≡ 1 = code_at w parent (pcb p) f.parent_block (omega arith) in
      let self_code : self % 16 ≡ 1 = code_at w self (pcb r) f.child.process (omega arith) in
      let e_code : e % 16 ≡ 2 = code_at w e _ f.child.entry (omega arith) in
      let p1 : Pcb = record p { status = running } in
      let p2 : Pcb = record p1 { syscall_retvalue = r.pid } in
      let (l1, run1, w1, loose1) = detach-IsKernel w waiting_list parent xs ys f.parent_waits in
      let c1 : Contents = update c waiting_list (xs ++ ys) in
      let k1 : Kernel = record k { lists = l1 } in
      let k2 : Kernel = record k1 { object = update k.object parent (pcb p1) } in
      let w2 = store-IsKernel w1 parent (pcb p) (pcb p1) f.parent_block (omega arith) refl in
      let self2 : k2.object self ≡ pcb r = rw (==-false self parent f.apart) f.child.process in
      let child2 : IsChild k2 e self r = record {
        entry = rw (==-false e parent (λ z. omega (arith, e_code, parent_code))) f.child.entry;
        some_process = f.child.some_process;
        process = self2;
      } in
      let entries2 : c1 (children parent) ≡ fs ++ e ∷ gs =
        update_other c waiting_list _ (children parent) (λ z. omega (arith, parent_code))
        ∙ f.entries in
      let search =
        pcb_ptr_by_pid-found w2 (children parent) r.pid fs gs e self r entries2
          (AreSiblings-update k k2 parent p p1 r.pid fs f.parent_block refl refl f.siblings) child2
          (same_pid r.pid) f.few in
      let (l3, run3, w3, loose3) = detach-IsKernel w2 (children parent) e fs gs entries2 in
      let c3 : Contents = update c1 (children parent) (fs ++ gs) in
      let k3 : Kernel = record k2 { lists = l3 } in
      let k4 : Kernel = record k3 { object = update k2.object parent (pcb p2) } in
      let w4 =
        store-IsKernel w3 parent (pcb p1) (pcb p2) (rw (==_self parent) refl) (omega arith) refl in
      let k5 : Kernel = record k4 { ints = update k.ints result r.return_value } in
      let w5 : IsKernel k5 c3 free = IsKernel-frame w4 refl refl refl in
      let timers5 : c3 timer_list ≡ c timer_list =
        update_other c1 (children parent) _ timer_list (λ z. omega (arith, parent_code)) in
      let foreign5 : AreForeign k5 self (c3 timer_list) = λ t h.
        let (item, timer, other) = f.foreign t (rw timers5 at h) in
        (
          item,
          rw
              (==-false t parent (λ z.
                let codes = ap code_of (sym timer ∙ ap k.object z ∙ f.parent_block) in
                omega (arith, codes)))
              timer,
          other,
        ) in
      let none5 : c3 (descriptors self) ≡ [] =
        update_other c1 (children parent) _ (descriptors self) (λ z. omega arith)
        ∙ update_other c waiting_list _ (descriptors self) (λ z. omega (arith, self_code))
        ∙ f.no_descriptors in
      let dead5 : c3 zombie_list ≡ us ++ self ∷ vs =
        update_other c1 (children parent) _ zombie_list (λ z. omega (arith, parent_code))
        ∙ f.dead in
      let (l6, run6, w6, loose6) = detach-IsKernel w5 zombie_list self us vs dead5 in
      let self6 : k5.object self ≡ pcb r = rw (==-false self parent f.apart) f.child.process in
      let (a7, run7, w7) =
        release_block-IsKernel w6 pcb_pool self (pcb r) self6 refl (omega arith) (omega arith)
          loose6 (held-taken w pcb_pool zombie_list self (omega arith) self_code self_in) in
      let timers = w5.lists.lists timer_list in
      (
        record k5 { lists = l6; pool = update k.pool pcb_pool a7; running = parent },
        rw run1 (
            rw (==-false parent 0 parent_ne_zero) (
              rw (load-ok as_pcb parent k1 p parent_ne_zero (rw f.parent_block refl)) (
                rw (load-ok as_pcb self k2 r f.child.some_process (rw self2 refl)) (
                  rw search (
                    rw run3 (
                      rw (load-ok as_pcb self k3 r f.child.some_process (rw self2 refl)) (
                        rw (load-ok as_pcb parent k3 p1 parent_ne_zero (rw (==_self parent) refl)) (
                          rw f.result_arg (
                            rw (==-false result 0 f.some_result) (
                              rw (write_int-ok result r.return_value k4 f.some_result) (
                                rw timers.first (
                                  rw
                                    (drop_timers-foreign k5 self 0 (c3 timer_list) list_fuel
                                      foreign5 timers.linked (rw timers5 f.few_timers))
                                    (rw (drop_descriptors-none w5 self 19999 none5)
                                      (rw run6 (rw run7 refl))))))))))))))),
        record {
          kernel = IsKernel-frame w7 refl refl refl;
          objects = update_twice k.object parent (pcb p1) (pcb p2);
          value = refl;
          new_running = refl;
        },
      )
    where
      same_pid : (z : ℤ) → eqb_ℤ z z ≡ true
      same_pid z = ground arith
