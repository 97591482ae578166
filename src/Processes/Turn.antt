-- ===== src/Processes/Turn.antt =====
-- The turn goes to the first ready process: `internal_schedule` and the timer interrupt.
use disastr_os_message_queue.Base.{
  ℕ, ◌/◌, ◌%◌, ◌≡◌, refl, sym, ◌≢◌, true, false, List, [], ◌∷◌, ◌++◌, arith, update, ok, has,
  ==-false, ==_self, subst, update_twice,
}
use disastr_os_message_queue.LinkedList.Memory.{Contents, IsFree, detach_still-IsFree}
use disastr_os_message_queue.Kernel.Object.{Pcb, pcb, ready, running}
use disastr_os_message_queue.Kernel.State.{Kernel, ready_list}
use disastr_os_message_queue.Kernel.Cmd.{as_pcb}
use disastr_os_message_queue.Kernel.Laws.{Runs, with_running, load-ok, update_running-ok}
use disastr_os_message_queue.Kernel.Invariant.{IsKernel, IsKernel-frame, first_ne_zero}
use disastr_os_message_queue.Kernel.Preserve.{
  detach-IsKernel, store-IsKernel, with_running-IsKernel,
}
use disastr_os_message_queue.Kernel.Take.{insert_last-IsKernel}
use disastr_os_message_queue.Processes.{switch}

-- The running process is in no list, and its block is not free.
pub record IsApart (k : Kernel) (c : Contents) (free : ℕ → List ℕ) : Type 0 where
  pub loose : IsFree c k.running
  pub taken : has (k.running / 16) (free (k.running % 16)) ≡ false

-- The kernel after the turn went from the process `r` to `next`, with the control block `n`.
pub record Switched (k : Kernel) (c : Contents) (free : ℕ → List ℕ) (r n : Pcb) (next : ℕ)
    (rest : List ℕ) (k' : Kernel) : Type 0 where
  pub kernel : IsKernel k' (update c ready_list (rest ++ k.running ∷ [])) free
  pub new_running : k'.running ≡ next
  pub process : Runs k' (record n { status = running })
  pub preempted : k'.object k.running ≡ pcb (record r { status = ready })
  pub other_objects : (a : ℕ) → a ≢ k.running → a ≢ next → k'.object a ≡ k.object a
  pub same_time : k'.disastr_os_time ≡ k.disastr_os_time

module _ {k : Kernel} {c : Contents} {free : ℕ → List ℕ} (w : IsKernel k c free) {r : Pcb}
    (run : Runs k r) (away : IsApart k c free) {n : Pcb} (next : ℕ) (rest : List ℕ)
    (first : c ready_list ≡ next ∷ rest) (block : k.object next ≡ pcb n) where
  next-ne_zero : next ≢ 0
  next-ne_zero = first_ne_zero w ready_list next rest first

  next-has : has next (c ready_list) ≡ true
  next-has = rw first (ground arith)

  next-ne_running : next ≢ k.running
  next-ne_running e = ground (arith, next-has, away.loose ready_list)

  pub switch-Switched :
      (k' : Kernel) × (switch k ≡ ok (tt, k')) × Switched k c free r n next rest k'
  unfolding switch
  switch-Switched =
      let self : ℕ = k.running in
      let (l1, run1, w1, loose1) = detach-IsKernel w ready_list next [] rest first in
      let k1 : Kernel = record k { lists = l1 } in
      let r1 : Runs k1 r = record { some_pcb = run.some_pcb; control_block = run.control_block } in
      let paused : Pcb = record r { status = ready } in
      let w2 = with_running-IsKernel w1 r paused r1 in
      let (l3, run3, w3) =
        insert_last-IsKernel w2 self run.some_pcb
          (detach_still-IsFree ready_list next [] rest w.lists first self away.loose) away.taken
          ready_list in
      let k3 : Kernel = record (with_running k1 paused) { lists = l3 } in
      let is_next : k3.object next ≡ pcb n = rw (==-false next self next-ne_running) block in
      let chosen : Pcb = record n { status = running } in
      let w4 = store-IsKernel w3 next (pcb n) (pcb chosen) is_next (omega arith) refl in
      let k4 : Kernel = record k3 { object = update k3.object next (pcb chosen); running = next } in
      let w5 : IsKernel k4 (update (update c ready_list rest) ready_list (rest ++ self ∷ [])) free =
        IsKernel-frame w4 refl refl refl in
      (
        k4,
        rw ((w.lists.lists ready_list).first) (
            rw first (
              rw (==-false next 0 next-ne_zero) (
                rw run1 (
                  rw (update_running-ok k1 r r1 (λ p. record p { status = ready })) (
                    rw run3
                      (rw (load-ok as_pcb next k3 n next-ne_zero (rw is_next refl)) refl)))))),
        record {
          kernel =
              subst (λ z. IsKernel k4 z free) (update_twice c ready_list rest (rest ++ self ∷ []))
                w5;
          new_running = refl;
          process = record { some_pcb = next-ne_zero; control_block = rw (==_self next) refl };
          preempted = rw (==-false self next (λ e. next-ne_running (sym e)), ==_self self) refl;
          other_objects = λ a ne ne'. rw (==-false a next ne', ==-false a self ne) refl;
          same_time = refl;
        },
      )
