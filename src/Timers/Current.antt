-- ===== src/Timers/Current.antt =====
-- The elapsed timer: `TimerList_current` and `TimerList_removeCurrent`.
use disastr_os_message_queue.Base.{
  ℕ, ◌/◌, ◌≡◌, refl, true, false, List, [], ◌∷◌, arith, ==-false, update, ℤ, pos, ltb_ℤ, ok, ◌≢◌,
}
use disastr_os_message_queue.LinkedList.Memory.{Contents}
use disastr_os_message_queue.Kernel.Object.{TimerItem, timer_item}
use disastr_os_message_queue.Kernel.State.{Kernel, timer_item_pool}
use disastr_os_message_queue.Kernel.Cmd.{as_timer_item}
use disastr_os_message_queue.Kernel.Laws.{load-ok}
use disastr_os_message_queue.Kernel.Invariant.{IsKernel, code_at, first_ne_zero}
use disastr_os_message_queue.Kernel.Preserve.{detach-IsKernel, held-taken, release_block-IsKernel}
use disastr_os_message_queue.Timers.{timer_list_current, timer_list_remove_current, timer_item_free}

module _ {k : Kernel} {c : Contents} {free : ℕ → List ℕ} (w : IsKernel k c free) (timers : ℕ) where
  -- Without a timer none has elapsed.
  pub timer_list_current-nil :
      (now : ℤ) → c timers ≡ [] → timer_list_current timers now k ≡ ok (0, k)
  unfolding timer_list_current
  timer_list_current-nil now none = rw ((w.lists.lists timers).first, none) refl

  module _ (t : ℕ) (ts : List ℕ) (first : c timers ≡ t ∷ ts) (item : TimerItem)
      (block : k.object t ≡ timer_item item) where
    first-ne_zero : t ≢ 0
    first-ne_zero = first_ne_zero w timers t ts first

    pub timer_list_current-elapsed :
        (now : ℤ)
        → ltb_ℤ now item.awakening_time ≡ false
        → timer_list_current timers now k ≡ ok (t, k)
    unfolding timer_list_current
    timer_list_current-elapsed now elapsed = rw ((w.lists.lists timers).first) (
        rw (first, ==-false t 0 first-ne_zero)
          (rw (load-ok as_timer_item t k item first-ne_zero (rw block refl)) (rw elapsed refl)))

    pub timer_list_current-later :
        (now : ℤ)
        → ltb_ℤ now item.awakening_time ≡ true
        → timer_list_current timers now k ≡ ok (0, k)
    unfolding timer_list_current
    timer_list_current-later now later = rw ((w.lists.lists timers).first) (
        rw (first, ==-false t 0 first-ne_zero)
          (rw (load-ok as_timer_item t k item first-ne_zero (rw block refl)) (rw later refl)))

    -- The first timer is taken out of the list and its block is freed.
    pub timer_list_remove_current-Removed :
        (k' : Kernel) × (timer_list_remove_current timers k ≡ ok (pos 0, k'))
        × IsKernel k'
            (update c timers ts)
            (update free timer_item_pool (t / 16 ∷ free timer_item_pool))
        × (k'.object ≡ k.object)
        × (k'.running ≡ k.running)
        × (k'.disastr_os_time ≡ k.disastr_os_time)
    unfolding timer_list_remove_current timer_item_free
    timer_list_remove_current-Removed =
        let (l1, run1, w1, loose1) = detach-IsKernel w timers t [] ts first in
        let (a, run2, w2) =
          release_block-IsKernel w1 timer_item_pool t (timer_item item) block refl (omega arith)
            (omega arith) loose1
            (held-taken w timer_item_pool timers t (omega arith)
              (code_at w t (timer_item item) block (omega arith)) (rw first (ground arith))) in
        (
          record k { lists = l1; pool = update k.pool timer_item_pool a },
          rw ((w.lists.lists timers).first)
              (rw first (rw run1 (rw (==-false t 0 first-ne_zero) (rw run2 refl)))),
          w2,
          refl,
          refl,
          refl,
        )
