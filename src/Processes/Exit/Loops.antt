-- ===== src/Processes/Exit/Loops.antt =====
-- The loops of `internal_exit`: the search for the process's entry, and the timers and descriptors that
-- it leaves.
use disastr_os_message_queue.Base.{
  ℕ, zero, suc, ◌<◌, ◌≡◌, refl, ◌≢◌, Bool, true, false, List, [], ◌∷◌, ◌++◌, arith, ℤ, eqb_ℤ, ok,
  Run, and_then, has, head_or, length, ==-false, subst,
}
use disastr_os_message_queue.LinkedList.{ListMemory, walk}
use disastr_os_message_queue.LinkedList.Chain.{Linked}
use disastr_os_message_queue.LinkedList.Memory.{Contents}
use disastr_os_message_queue.Kernel.Object.{Pcb, TimerItem, timer_item}
use disastr_os_message_queue.Kernel.State.{Kernel, list_fuel, descriptors}
use disastr_os_message_queue.Kernel.Cmd.{load, as_pcb, as_pcb_ptr, as_timer_item}
use disastr_os_message_queue.Kernel.Laws.{load-ok}
use disastr_os_message_queue.Kernel.Invariant.{IsKernel}
use disastr_os_message_queue.Processes.Blocks.{pcb_ptr_by_pid}
use disastr_os_message_queue.Processes.Exit.{drop_timers, drop_descriptors}
use disastr_os_message_queue.Processes.Exit.Children.{IsChild}

-- A search ends at the first item that passes the test.
walk-stops :
    (m : ListMemory) (test : ℕ → Run Bool) (xs rest : List ℕ) (e before fuel : ℕ)
    → ((a : ℕ) → has a xs ≡ true → test a ≡ ok false)
    → test e ≡ ok true
    → Linked m.item before (xs ++ e ∷ rest) 0
    → length xs < fuel
    → walk fuel m test (head_or 0 (xs ++ e ∷ rest)) ≡ ok e
unfolding walk
walk-stops m test xs rest e before zero others found l enough = absurd (omega arith)
walk-stops m test [] rest e before (suc fuel) others found l enough =
    rw (==-false e 0 l.0) (rw found refl)
walk-stops m test (x ∷ xs) rest e before (suc fuel) others found l enough = rw (==-false x 0 l.0) (
    rw (others x (ground arith), l.1)
      (walk-stops m test xs rest e x fuel (λ a h. others a (ground arith)) found l.2
        (omega (arith, enough))))

-- The entries of processes with other numbers.
abbrev pub AreSiblings : Kernel → ℤ → List ℕ → Type 0
AreSiblings k pid xs =
    (e : ℕ) → has e xs ≡ true → (q : ℕ) × (s : Pcb) × IsChild k e q s × (eqb_ℤ s.pid pid ≡ false)

-- The test of the search, at an entry.
abbrev has_pid : Kernel → ℤ → ℕ → Run Bool
has_pid k pid aux =
    and_then (as_pcb_ptr (k.object aux))
      λ e. and_then (load as_pcb e.pcb k) λ (r, k'). ok (eqb_ℤ r.pid pid)

-- `PCBPtr_byPID` finds the entry of the process.
pub pcb_ptr_by_pid-found :
    {k : Kernel} {c : Contents} {free : ℕ → List ℕ} (w : IsKernel k c free) (h : ℕ) (pid : ℤ)
    (xs rest : List ℕ) (e q : ℕ) (r : Pcb)
    → c h ≡ xs ++ e ∷ rest
    → AreSiblings k pid xs
    → IsChild k e q r
    → eqb_ℤ r.pid pid ≡ true
    → length xs < list_fuel
    → pcb_ptr_by_pid h pid k ≡ ok (e, k)
unfolding pcb_ptr_by_pid
pcb_ptr_by_pid-found {k} {c} w h pid xs rest e q r parts siblings child same short =
    rw ((w.lists.lists h).first, parts)
      (rw
        (walk-stops k.lists (has_pid k pid) xs rest e 0 list_fuel
          (λ a i.
            let (p, s, other, apart) = siblings a i in
            rw other.entry (
              rw (load-ok as_pcb p k s other.some_process (rw other.process refl)) (rw apart refl)))
          (rw child.entry
            (rw (load-ok as_pcb q k r child.some_process (rw child.process refl)) (rw same refl)))
          (subst (λ ys. Linked k.lists.item 0 ys 0) parts (w.lists.lists h).linked) short)
        refl)

-- The timers of other processes.
abbrev pub AreForeign : Kernel → ℕ → List ℕ → Type 0
AreForeign k self ts =
    (t : ℕ)
    → has t ts ≡ true
    → (item : TimerItem) × (k.object t ≡ timer_item item) × (item.pcb ≢ self)

-- With no timer of the process nothing is dropped.
pub drop_timers-foreign :
    (k : Kernel) (self before : ℕ) (ts : List ℕ) (fuel : ℕ)
    → AreForeign k self ts
    → Linked k.lists.item before ts 0
    → length ts < fuel
    → drop_timers fuel (head_or 0 ts) self k ≡ ok (tt, k)
unfolding drop_timers
drop_timers-foreign k self before ts zero foreign l enough = absurd (omega arith)
drop_timers-foreign k self before [] (suc fuel) foreign l enough = refl
drop_timers-foreign k self before (t ∷ ts) (suc fuel) foreign l enough =
    let (item, timer, apart) = foreign t (ground arith) in
    rw (==-false t 0 l.0) (
      rw (load-ok as_timer_item t k item l.0 (rw timer refl)) (
        rw (==-false item.pcb self apart, l.1)
          (drop_timers-foreign k self t ts fuel (λ a h. foreign a (ground arith)) l.2
            (omega (arith, enough)))))

-- With no descriptor either.
pub drop_descriptors-none :
    {k : Kernel} {c : Contents} {free : ℕ → List ℕ} (w : IsKernel k c free) (self fuel : ℕ)
    → c (descriptors self) ≡ []
    → drop_descriptors (suc fuel) self k ≡ ok (tt, k)
unfolding drop_descriptors
drop_descriptors-none w self fuel none = rw ((w.lists.lists (descriptors self)).first, none) refl
