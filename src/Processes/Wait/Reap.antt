-- ===== src/Processes/Wait/Reap.antt =====
-- A process that waits for a child that is a zombie.
use disastr_os_message_queue.Base.{
  ℕ, zero, suc, ◌/◌, ◌%◌, ◌<◌, ◌≡◌, refl, ◌∙◌, ◌≢◌, Bool, true, false, ◌&&◌, List, [], ◌∷◌, ◌++◌,
  arith, update, ℤ, pos, to_int, ok, has, head_or, length, ==-false, update_other, subst, ltb_ℤ,
  has_middle,
}
use disastr_os_message_queue.LinkedList.{ListItem}
use disastr_os_message_queue.LinkedList.Chain.{Linked}
use disastr_os_message_queue.LinkedList.Memory.{Contents}
use disastr_os_message_queue.Kernel.Object.{Pcb, pcb, pcb_ptr, zombie}
use disastr_os_message_queue.Kernel.State.{
  Kernel, pcb_pool, pcb_ptr_pool, children, zombie_list, list_fuel,
}
use disastr_os_message_queue.Kernel.Cmd.{as_pcb}
use disastr_os_message_queue.Kernel.Laws.{
  Runs, with_running, load-ok, set_retvalue-ok, int_arg-ok, pointer_arg-ok, write_int-ok,
}
use disastr_os_message_queue.Kernel.Invariant.{IsKernel, code_at, IsKernel-frame}
use disastr_os_message_queue.Kernel.Preserve.{
  detach-IsKernel, with_running-IsKernel, held-taken, release_block-IsKernel,
}
use disastr_os_message_queue.Processes.Turn.{IsApart}
use disastr_os_message_queue.Processes.Blocks.{pcb_free, pcb_ptr_free}
use disastr_os_message_queue.Processes.Exit.Children.{IsChild}
use disastr_os_message_queue.Processes.Wait.{
  is_awaited, scan_children, reap, wait_for, internal_wait,
}

-- These children are not awaited.
abbrev pub AreOthers : Kernel → ℤ → List ℕ → Type 0
AreOthers k pid xs =
    (e : ℕ)
    → has e xs ≡ true
    → (q : ℕ) × (r : Pcb) × IsChild k e q r × (is_awaited pid r.pid r.status ≡ false)

-- The loop stops at the first child that is awaited.
scan_children-found :
    (k : Kernel) (pid : ℤ) (xs rest : List ℕ) (e q : ℕ) (r : Pcb) (before entry awaited fuel : ℕ)
    → AreOthers k pid xs
    → IsChild k e q r
    → is_awaited pid r.pid r.status ≡ true
    → Linked k.lists.item before (xs ++ e ∷ rest) 0
    → length xs < fuel
    → scan_children fuel pid (head_or 0 (xs ++ e ∷ rest)) entry awaited k ≡ ok (e, q)
unfolding scan_children
scan_children-found k pid xs rest e q r before entry awaited zero others child found l enough =
    absurd (omega arith)
scan_children-found k pid [] rest e q r before entry awaited (suc fuel) others child found l
      enough =
    rw (==-false e 0 l.0) (
      rw child.entry
        (rw (load-ok as_pcb q k r child.some_process (rw child.process refl)) (rw found refl)))
scan_children-found k pid (x ∷ xs) rest e q r before entry awaited (suc fuel) others child found l
      enough =
    let (p, s, other, not_awaited) = others x (ground arith) in
    rw (==-false x 0 l.0) (
      rw other.entry (
        rw (load-ok as_pcb p k s other.some_process (rw other.process refl)) (
          rw not_awaited (
            rw l.1 (
              scan_children-found k pid xs rest e q r x x p fuel (λ a h. others a (ground arith))
                child found l.2 (omega (arith, enough)))))))

head-ne_zero :
    (item : ℕ → ListItem) (before : ℕ) (xs : List ℕ) (e : ℕ) (rest : List ℕ)
    → Linked item before (xs ++ e ∷ rest) 0
    → head_or 0 (xs ++ e ∷ rest) ≢ 0
head-ne_zero item before [] e rest l = l.0
head-ne_zero item before (x ∷ xs) e rest l = l.0

and_false : (b : Bool) → (b && false) ≡ false
and_false true = refl
and_false false = refl

-- The kernel once the child `q` with the control block `r` is gone, and its entry `e`.
pub record Reaped (k : Kernel) (c : Contents) (free : ℕ → List ℕ) (self : Pcb) (e q : ℕ) (r : Pcb)
    (siblings zombies : List ℕ) (result : ℕ) (k' : Kernel) : Type 0 where
  pub kernel : IsKernel k' (update (update c (children k.running) siblings) zombie_list zombies) (
      update
        (update free pcb_ptr_pool (e / 16 ∷ free pcb_ptr_pool))
        pcb_pool
        (q / 16 ∷ free pcb_pool))
  pub objects :
      k'.object ≡ update k.object k.running (pcb (record self { syscall_retvalue = r.pid }))
  pub value : k'.ints ≡ update k.ints result r.return_value
  pub same_running : k'.running ≡ k.running

module _ {k : Kernel} {c : Contents} {free : ℕ → List ℕ} (w : IsKernel k c free) {self : Pcb}
    (run : Runs k self) (away : IsApart k c free) (e q : ℕ) (r : Pcb) (child : IsChild k e q r)
    (xs rest us vs : List ℕ) (entries : c (children k.running) ≡ xs ++ e ∷ rest)
    (dead : c zombie_list ≡ us ++ q ∷ vs) (result : ℕ) (some_result : result ≢ 0) where
  e_in : has e (c (children k.running)) ≡ true
  e_in = has_middle e xs rest _ entries

  q_in : has q (c zombie_list) ≡ true
  q_in = has_middle q us vs _ dead

  q_ne_running : q ≢ k.running
  q_ne_running z = ground (arith, q_in, away.loose zombie_list)

  pub reap-Reaped :
      (k' : Kernel) × (reap e q result k ≡ ok (tt, k'))
      × Reaped k c free self e q r (xs ++ rest) (us ++ vs) result k'
  unfolding reap pcb_free pcb_ptr_free
  reap-Reaped =
      let e_code : e % 16 ≡ 2 = code_at w e _ child.entry (omega arith) in
      let q_code : q % 16 ≡ 1 = code_at w q (pcb r) child.process (omega arith) in
      let running_code : k.running % 16 ≡ 1 =
        code_at w k.running (pcb self) run.control_block (omega arith) in
      let (l1, run1, w1, loose1) = detach-IsKernel w (children k.running) e xs rest entries in
      let c1 : Contents = update c (children k.running) (xs ++ rest) in
      let (a2, run2, w2) =
        release_block-IsKernel w1 pcb_ptr_pool e (pcb_ptr (record { pcb = q })) child.entry refl
          (omega arith) (omega arith) loose1
          (held-taken w pcb_ptr_pool (children k.running) e (omega arith) e_code e_in) in
      let dead1 : c1 zombie_list ≡ us ++ q ∷ vs =
        update_other c (children k.running) _ zombie_list (λ z. omega (arith, running_code))
        ∙ dead in
      let (l3, run3, w3, loose3) = detach-IsKernel w2 zombie_list q us vs dead1 in
      let k3 : Kernel = record k { lists = l3; pool = update k.pool pcb_ptr_pool a2 } in
      let r3 : Runs k3 self = record {
        some_pcb = run.some_pcb;
        control_block = run.control_block;
      } in
      let answer : Pcb = record self { syscall_retvalue = r.pid } in
      let k4 : Kernel = with_running k3 answer in
      let w4 = with_running-IsKernel w3 self answer r3 in
      let is_q : k4.object q ≡ pcb r = rw (==-false q k.running q_ne_running) child.process in
      let k5 : Kernel = record k4 { ints = update k.ints result r.return_value } in
      let w5 : IsKernel k5 (update c1 zombie_list (us ++ vs))
          (update free pcb_ptr_pool (e / 16 ∷ free pcb_ptr_pool)) =
        IsKernel-frame w4 refl refl refl in
      let (a6, run6, w6) =
        release_block-IsKernel w5 pcb_pool q (pcb r) is_q refl (omega arith) (omega arith) loose3
          (held-taken w pcb_pool zombie_list q (omega arith) q_code q_in) in
      (
        record k5 { pool = update k5.pool pcb_pool a6 },
        rw run1 (
            rw run2 (
              rw run3 (
                rw (load-ok as_pcb q k3 r child.some_process (rw child.process refl)) (
                  rw (set_retvalue-ok k3 self r3 r.pid) (
                    rw (==-false result 0 some_result) (
                      rw (load-ok as_pcb q k4 r child.some_process (rw is_q refl)) (
                        rw (write_int-ok result r.return_value k4 some_result)
                          (rw run6 refl)))))))),
        record { kernel = w6; objects = refl; value = refl; same_running = refl },
      )

  -- In a kernel in order, with the running process in no list, a child that is awaited and a
  -- zombie, no child in front of it that is awaited, fewer of these than the rounds of the loop,
  -- the child in the list of zombies, and a non-null place for the value: `internal_wait` ends,
  -- takes the entry out of the children and the child out of the zombies, frees both blocks,
  -- returns the child's number, stores the child's value, changes no other object, and leaves the
  -- kernel in order.
  pub internal_wait-Reaped :
      (pid : ℤ)
      → to_int (self.syscall_args 0) ≡ pid
      → self.syscall_args 1 ≡ pos result
      → AreOthers k pid xs
      → is_awaited pid r.pid r.status ≡ true
      → r.status ≡ zombie
      → length xs < list_fuel
      → (k' : Kernel) × (internal_wait k ≡ ok (tt, k'))
        × Reaped k c free self e q r (xs ++ rest) (us ++ vs) result k'
  unfolding internal_wait wait_for
  internal_wait-Reaped pid pid_arg result_arg others found is_dead short =
      let (k', run', post) = reap-Reaped in
      let list = w.lists.lists (children k.running) in
      let linked : Linked k.lists.item 0 (xs ++ e ∷ rest) 0 =
        subst (λ ys. Linked k.lists.item 0 ys 0) entries list.linked in
      (
        k',
        rw (int_arg-ok k self run 0) (
            rw (pointer_arg-ok k self run 1 result result_arg) (
              rw pid_arg (
                rw (list.first, entries)
                  (rw
                    (==-false (head_or 0 (xs ++ e ∷ rest)) 0
                      (head-ne_zero k.lists.item 0 xs e rest linked))
                    (rw
                      (scan_children-found k pid xs rest e q r 0 0 0 list_fuel others child found
                        linked short)
                      (rw (==-false q 0 child.some_process, and_false (ltb_ℤ (pos 0) pid))
                        (rw (load-ok as_pcb q k r child.some_process (rw child.process refl))
                          (rw is_dead run')))))))),
        post,
      )
