-- ===== src/Processes/Wake.antt =====
-- The loop of `internal_schedule` over the timers that have elapsed: one round.
pub mod All
use disastr_os_message_queue.Base.{
  ℕ, suc, ◌/◌, ◌%◌, ◌≡◌, refl, sym, ◌∙◌, ◌≢◌, true, false, List, [], ◌∷◌, ◌++◌, arith, update, ap,
  pos, ok, has, has-split, has-remove, ==-false, ==_self, ltb_ℤ, last_or, subst, true-ne-false,
}
use disastr_os_message_queue.LinkedList.Memory.{Contents, IsFree, has-ne_zero, detach_still-IsFree}
use disastr_os_message_queue.Kernel.Object.{Object, Pcb, TimerItem, pcb, timer_item, ready}
use disastr_os_message_queue.Kernel.State.{
  Kernel, ready_list, waiting_list, timer_list, timer_item_pool,
}
use disastr_os_message_queue.Kernel.Cmd.{as_pcb, as_timer_item}
use disastr_os_message_queue.Kernel.Laws.{load-ok}
use disastr_os_message_queue.Kernel.Invariant.{IsKernel, code_at, first_ne_zero}
use disastr_os_message_queue.Kernel.Preserve.{detach-IsKernel, store-IsKernel, held-taken}
use disastr_os_message_queue.Kernel.Take.{insert-IsKernel}
use disastr_os_message_queue.Timers.Current.{
  timer_list_current-elapsed, timer_list_remove_current-Removed,
}
use disastr_os_message_queue.Processes.{wake}

-- A timer that has elapsed, whose process is in the waiting list.
pub record IsElapsed (k : Kernel) (c : Contents) (t : ℕ) : Type 0 where
  pub item : TimerItem
  pub process : Pcb
  pub timer : k.object t ≡ timer_item item
  pub elapsed : ltb_ℤ k.disastr_os_time item.awakening_time ≡ false
  pub waits : has item.pcb (c waiting_list) ≡ true
  pub block : k.object item.pcb ≡ pcb process

-- The lists once the process of the first timer is ready, behind those woken before.
abbrev pub woken_lists : Contents → (t p : ℕ) (waiting woken old timers : List ℕ) → Contents
woken_lists c t p waiting woken old timers =
    update (update (update c waiting_list waiting) ready_list (woken ++ p ∷ old)) timer_list timers

-- The kernel after one round, in which the process `p` of the timer `t` was woken.
pub record Woke (k : Kernel) (c : Contents) (free : ℕ → List ℕ) (t p : ℕ) (r : Pcb)
    (waiting woken old timers : List ℕ) (k' : Kernel) : Type 0 where
  pub kernel :
      IsKernel k'
        (woken_lists c t p waiting woken old timers)
        (update free timer_item_pool (t / 16 ∷ free timer_item_pool))
  pub object : k'.object ≡ update k.object p (pcb (record r { status = ready; timer = 0 }))
  pub same_running : k'.running ≡ k.running
  pub same_time : k'.disastr_os_time ≡ k.disastr_os_time

module _ {k : Kernel} {c : Contents} {free : ℕ → List ℕ} (w : IsKernel k c free) (t : ℕ)
    (timers : List ℕ) (first : c timer_list ≡ t ∷ timers) (e : IsElapsed k c t) (woken old : List ℕ)
    (parts : c ready_list ≡ woken ++ old) where
  process_ne_zero : e.item.pcb ≢ 0
  process_ne_zero z = true-ne-false (
      sym e.waits
      ∙ subst (λ p. has p (c waiting_list) ≡ false) (sym z) (has-ne_zero w.lists waiting_list))

  timer_ne_process : t ≢ e.item.pcb
  timer_ne_process z =
      let timer_code = code_at w t (timer_item e.item) e.timer (omega arith) in
      let pcb_code = code_at w e.item.pcb (pcb e.process) e.block (omega arith) in
      omega (arith, timer_code, pcb_code)

  timer_ne_zero : t ≢ 0
  timer_ne_zero = first_ne_zero w timer_list t timers first

  -- One round wakes the process of the first timer.
  pub wake-Woke :
      (rounds : ℕ) (us vs : List ℕ)
      → c waiting_list ≡ us ++ e.item.pcb ∷ vs
      → (k' : Kernel) × (wake (suc rounds) (last_or 0 woken) k ≡ wake rounds e.item.pcb k')
        × Woke k c free t e.item.pcb e.process (us ++ vs) woken old timers k'
  unfolding wake
  wake-Woke rounds us vs at =
      let p : ℕ = e.item.pcb in
      let woken_pcb : Pcb = record e.process { status = ready; timer = 0 } in
      let (l1, run1, w1, loose1) = detach-IsKernel w waiting_list p us vs at in
      let k1 : Kernel = record k { lists = l1 } in
      let k2 : Kernel = record k1 { object = update k.object p (pcb woken_pcb) } in
      let w2 = store-IsKernel w1 p (pcb e.process) (pcb woken_pcb) e.block (omega arith) refl in
      let (l3, run3, w3) =
        insert-IsKernel w2 p process_ne_zero loose1
          (held-taken w (p % 16) waiting_list p (omega arith) refl e.waits) ready_list woken old
          parts in
      let k3 : Kernel = record k2 { lists = l3 } in
      let (k4, run4, w4, object4, running4, time4) =
        timer_list_remove_current-Removed w3 timer_list t timers first e.item
          (rw (==-false t p timer_ne_process) e.timer) in
      (
        k4,
        rw
            (timer_list_current-elapsed w timer_list t timers first e.item e.timer k.disastr_os_time
              e.elapsed)
            (rw (==-false t 0 timer_ne_zero) (
              rw (load-ok as_timer_item t k e.item timer_ne_zero (rw e.timer refl)) (
                rw run1 (
                  rw (load-ok as_pcb p k1 e.process process_ne_zero (rw e.block refl))
                    (rw run3 (rw run4 refl)))))),
        record { kernel = w4; object = object4; same_running = running4; same_time = time4 },
      )
