-- ===== src/Processes/Exit/Die.antt =====
-- The end of a process whose parent does not wait for it.
use Prim.Native.Nat.{bit_and, bit_or}
use disastr_os_message_queue.Base.{
  ℕ, ◌≡◌, refl, sym, ◌∙◌, ◌≢◌, true, false, List, [], ◌∷◌, ◌++◌, arith, update, ok, has, ap,
  ==-false, ==_self, Bool-cases, inl, inr, ◌==◌, ==_iff,
}
use disastr_os_message_queue.LinkedList.Memory.{Contents}
use disastr_os_message_queue.Kernel.Constants.{dsos_sigchld}
use disastr_os_message_queue.Kernel.Object.{Object, Pcb, pcb, zombie, running}
use disastr_os_message_queue.Kernel.State.{Kernel, ready_list, zombie_list}
use disastr_os_message_queue.Kernel.Cmd.{as_pcb}
use disastr_os_message_queue.Kernel.Laws.{
  Runs, with_running, load-ok, running_pcb-ok, update_running-ok,
}
use disastr_os_message_queue.Kernel.Invariant.{IsKernel, IsKernel-frame, first_ne_zero}
use disastr_os_message_queue.Kernel.Preserve.{
  detach-IsKernel, store-IsKernel, with_running-IsKernel,
}
use disastr_os_message_queue.Kernel.Take.{insert_last-IsKernel}
use disastr_os_message_queue.Processes.Turn.{IsApart}
use disastr_os_message_queue.Processes.Exit.{with_signal, send_signal, waits_for, run_next, die}

-- The first ready process gets the turn; the process that ran goes into no list.
module _ {k : Kernel} {c : Contents} {free : ℕ → List ℕ} (w : IsKernel k c free) (next : ℕ)
    (rest : List ℕ) (first : c ready_list ≡ next ∷ rest) {n : Pcb}
    (block : k.object next ≡ pcb n) where
  next-ne_zero : next ≢ 0
  next-ne_zero = first_ne_zero w ready_list next rest first

  pub run_next-ok :
      (k' : Kernel) × (run_next k ≡ ok (tt, k'))
      × IsKernel k' (update c ready_list rest) free
      × (k'.object ≡ update k.object next (pcb (record n { status = running })))
      × (k'.running ≡ next)
  unfolding run_next
  run_next-ok =
      let (l1, run1, w1, loose1) = detach-IsKernel w ready_list next [] rest first in
      let k1 : Kernel = record k { lists = l1 } in
      let chosen : Pcb = record n { status = running } in
      let w2 = store-IsKernel w1 next (pcb n) (pcb chosen) block (omega arith) refl in
      (
        record k1 { object = update k.object next (pcb chosen); running = next },
        rw ((w.lists.lists ready_list).first) (
            rw first (
              rw run1 (
                rw (==-false next 0 next-ne_zero)
                  (rw (load-ok as_pcb next k1 n next-ne_zero (rw block refl)) refl)))),
        IsKernel-frame w2 refl refl refl,
        refl,
        refl,
      )

-- The kernel once the process `r` is a zombie and `next` runs.
pub record Died (k : Kernel) (c : Contents) (free : ℕ → List ℕ) (r parent : Pcb) (next : ℕ)
    (rest : List ℕ) (k' : Kernel) : Type 0 where
  pub kernel :
      IsKernel k'
        (update (update c zombie_list (c zombie_list ++ k.running ∷ [])) ready_list rest)
        free
  pub dead : k'.object k.running ≡ pcb (record r { status = zombie })
  pub told :
      (p : Pcb) × (k'.object r.parent ≡ pcb p)
      × (p.signals ≡ bit_or parent.signals (bit_and dsos_sigchld parent.signals_mask))
  pub new_running : k'.running ≡ next
  pub process : (n : Pcb) × Runs k' n × (n.status ≡ running)
  pub other_objects : (a : ℕ) → a ≢ k.running → a ≢ r.parent → a ≢ next → k'.object a ≡ k.object a

module _ {k : Kernel} {c : Contents} {free : ℕ → List ℕ} (w : IsKernel k c free) {r : Pcb}
    (run : Runs k r) (away : IsApart k c free) {parent : Pcb} (some_parent : r.parent ≢ 0)
    (no_self : r.parent ≢ k.running) (parent_block : k.object r.parent ≡ pcb parent)
    (not_waiting : waits_for parent r.pid ≡ false) (next : ℕ) (rest : List ℕ)
    (first : c ready_list ≡ next ∷ rest) {n : Pcb} (block : k.object next ≡ pcb n) where
  next-ne_running : next ≢ k.running
  next-ne_running e =
      let next-has : has next (c ready_list) ≡ true = rw first (ground arith) in
      ground (arith, next-has, away.loose ready_list)

  -- The control block of the next process, which may be the parent.
  next_block :
      (object : ℕ → Object)
      → object next ≡ pcb n
      → (s : Pcb) × (update object r.parent (pcb (with_signal dsos_sigchld parent)) next ≡ pcb s)
        × ((next ≡ r.parent) → s ≡ with_signal dsos_sigchld parent)
  next_block object is_next = elim (Bool-cases (next == r.parent)) [
    | inl e ↦ (with_signal dsos_sigchld parent, rw e refl, λ z. refl)
    | inr e ↦ (n, rw e is_next, λ z. absurd (ground (arith, e, z)))
  ]

  -- The parent has the signal, also when it is the next process.
  told_block :
      (object object' : ℕ → Object) (s : Pcb)
      → ((next ≡ r.parent) → s ≡ with_signal dsos_sigchld parent)
      → object'
        ≡ update
            (update object r.parent (pcb (with_signal dsos_sigchld parent)))
            next
            (pcb (record s { status = running }))
      → (p : Pcb) × (object' r.parent ≡ pcb p)
        × (p.signals ≡ bit_or parent.signals (bit_and dsos_sigchld parent.signals_mask))
  told_block object object' s same objects = elim (Bool-cases (r.parent == next)) [
    | inl e ↦ (
      record s { status = running },
      ap (λ (f : ℕ → Object). f r.parent) objects ∙ rw e refl,
      ap (λ (q : Pcb). q.signals) (same (sym ((==_iff r.parent next).0 e))),
    )
    | inr e ↦ (
      with_signal dsos_sigchld parent,
      ap (λ (f : ℕ → Object). f r.parent) objects ∙ rw (e, ==_self r.parent) refl,
      refl,
    )
  ]

  -- In a kernel in order, with the running process in no list and in a block that is not free,
  -- another process as its parent that does not wait for it, and a process that is ready: the part
  -- of `internal_exit` behind the children ends, makes the running process a zombie at the end of
  -- the list of zombies, gives its parent the signal SIGCHLD unless that is masked, makes the
  -- first ready process the running one, changes no other object, and leaves the kernel in order.
  pub die-Died :
      (k' : Kernel) × (die k.running k ≡ ok (tt, k')) × Died k c free r parent next rest k'
  unfolding die send_signal
  die-Died =
      let self : ℕ = k.running in
      let dead : Pcb = record r { status = zombie } in
      let told : Pcb = with_signal dsos_sigchld parent in
      let k1 : Kernel = with_running k dead in
      let w1 = with_running-IsKernel w r dead run in
      let (l2, run2, w2) =
        insert_last-IsKernel w1 self run.some_pcb away.loose away.taken zombie_list in
      let k2 : Kernel = record k1 { lists = l2 } in
      let r2 : Runs k2 dead = record {
        some_pcb = run.some_pcb;
        control_block = rw (==_self self) refl;
      } in
      let is_parent : k2.object r.parent ≡ pcb parent =
        rw (==-false r.parent self no_self) parent_block in
      let k3 : Kernel = record k2 { object = update k2.object r.parent (pcb told) } in
      let w3 = store-IsKernel w2 r.parent (pcb parent) (pcb told) is_parent (omega arith) refl in
      let r3 : Runs k3 dead = record {
        some_pcb = run.some_pcb;
        control_block = rw (==-false self r.parent (λ e. no_self (sym e)), ==_self self) refl;
      } in
      let (s, is_next, same_parent) =
        next_block k2.object (rw (==-false next self next-ne_running) block) in
      let (k4, run4, w4, objects4, running4) = run_next-ok w3 next rest first is_next in
      (
        k4,
        rw (update_running-ok k r run (λ p. record p { status = zombie })) (
            rw run2 (
              rw (running_pcb-ok k2 dead r2) (
                rw (load-ok as_pcb r.parent k2 parent some_parent (rw is_parent refl)) (
                  rw (load-ok as_pcb r.parent k3 told some_parent (rw (==_self r.parent) refl))
                    (rw (running_pcb-ok k3 dead r3) (rw not_waiting run4)))))),
        record {
          kernel = w4;
          dead =
              ap (λ (f : ℕ → Object). f self) objects4
              ∙ rw (==-false self next (λ e. next-ne_running (sym e))) r3.control_block;
          told = told_block k2.object k4.object s same_parent objects4;
          new_running = running4;
          process = (
            record s { status = running },
            record {
              some_pcb = λ e. next-ne_zero w next rest first block (sym running4 ∙ e);
              control_block =
                  ap (λ a. k4.object a) running4
                  ∙ ap (λ (f : ℕ → Object). f next) objects4
                  ∙ rw (==_self next) refl;
            },
            refl,
          );
          other_objects = λ a ne ne' ne''.
              ap (λ (f : ℕ → Object). f a) objects4
              ∙ rw (==-false a next ne'', ==-false a r.parent ne', ==-false a self ne) refl;
        },
      )
